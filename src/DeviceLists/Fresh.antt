-- ===== src/DeviceLists/Fresh.antt =====
-- StaticDeviceListManager: the rows of a new manager, and of one that has removed a list.
use mathlib.Core.Path.{subst}
use chitu.Base.{
  ℕ, zero, suc, ◌+◌, ◌<◌, ◌≡◌, ◌≢◌, refl, sym, ap, ◌∙◌, inl, inr, some, List, [], ◌∷◌, ◌++◌,
  nat_beq, length, get_or, map, range_from, count, arith, get, remove, remove-Distinct,
  length-remove, length-range_from, count-range, count-append, length-append, nat_eq, nat_beq_iff,
  Bool-cases, Option-cases, length-map,
}
use chitu.DeviceLists.{Manager, DeviceList, make_manager, remove_list}
use chitu.DeviceLists.Rows.{IsManaged, remove-some}

get_or-map :
    (row : List ℕ) (rs : List ℕ) (i : ℕ) → i < length rs → get_or (map (λ r. row) rs) i [] ≡ row
get_or-map row [] i h = absurd (omega (arith, h))
get_or-map row (r ∷ rs) zero h = refl
get_or-map row (r ∷ rs) (suc i) h = get_or-map row rs i (omega (arith, h))

-- A new manager's rows are in order, if a new tensor has the length asked for.
pub make_manager-IsManaged :
    (empty : ℕ → List ℕ) (sized : (n : ℕ) → length (empty n) ≡ n) (lists : ℕ → DeviceList)
    (rows cols : ℕ)
    → IsManaged (make_manager empty lists rows cols)
unfolding make_manager get
make_manager-IsManaged empty sized lists rows cols =
    let long : length (map (λ r. empty cols) (range_from 0 (rows + 1))) ≡ rows + 1 =
      length-map (range_from 0 (rows + 1)) (λ r. empty cols) ∙ length-range_from 0 (rows + 1) in
    record {
      stored = λ k r g. absurd (cc);
      below = λ k r g. absurd (cc);
      alone = λ j k r g h. absurd (cc);
      free_below = λ r h. ground (arith, count-range r (suc rows), long);
      free_once = λ r. ground (arith, count-range r (suc rows));
      free_apart = λ k r g. absurd (cc);
      distinct = tt;
      all_rows = omega (arith, length-range_from 1 rows);
      wide = λ r h.
          ap length (
            get_or-map (empty cols) (range_from 0 (rows + 1)) r
              (omega (arith, h, long, length-range_from 0 (rows + 1))))
          ∙ sized cols;
      short = λ k r g. absurd (cc);
    }

removed-IsManaged :
    (k r : ℕ) (m : Manager)
    → IsManaged m
    → get m.lru_queue k ≡ some r
    → IsManaged (record m { free_rows = m.free_rows ++ r ∷ []; lru_queue = remove m.lru_queue k })
removed-IsManaged k r m v h =
    let part = λ (j s : ℕ). remove-some m.lru_queue k j s v.distinct in
    let many = λ (s : ℕ). count-append s m.free_rows (r ∷ []) in
    record {
      stored = λ j s g. v.stored j s (part j s g).1;
      below = λ j s g. v.below j s (part j s g).1;
      alone = λ i j s g g'. v.alone i j s (part i s g).1 (part j s g').1;
      free_below = λ s g. elim (Bool-cases (nat_beq s r)) [
        | inl e ↦
            subst (λ (x : ℕ). (0 < x) × (x < length m.buffer)) (sym ((nat_beq_iff s r).0 e))
              (v.below k r h)
        | inr e ↦ v.free_below s (ground (arith, e, g, many s))
      ];
      free_once = λ s. elim (Bool-cases (nat_beq s r)) [
        | inl e ↦
            (let z : count s m.free_rows ≡ 0 =
                subst (λ (x : ℕ). count x m.free_rows ≡ 0) (sym ((nat_beq_iff s r).0 e))
                  (v.free_apart k r h) in
              ground (arith, z, many s))
        | inr e ↦ ground (arith, e, v.free_once s, many s)
      ];
      free_apart = λ j s g.
          (let d : s ≢ r = λ e.
              (part j s g).0 (
                v.alone k j r h (subst (λ (x : ℕ). get m.lru_queue j ≡ some x) e (part j s g).1)) in
            ground (arith, d, v.free_apart j s (part j s g).1, many s));
      distinct = remove-Distinct m.lru_queue k v.distinct;
      all_rows =
          omega (
            arith,
            v.all_rows,
            length-remove m.lru_queue k r h,
            length-append m.free_rows (r ∷ []),
          );
      wide = v.wide;
      short = λ j s g. v.short j s (part j s g).1;
    }

-- remove_list keeps the rows of a manager in order, whether it manages the list or not.
pub remove_list-IsManaged : (k : ℕ) (m : Manager) → IsManaged m → IsManaged (remove_list k m)
unfolding remove_list
remove_list-IsManaged k m v = elim (Option-cases (get m.lru_queue k)) [
  | inl e ↦ rw (remove_list, e) v
  | inr o ↦ rw (remove_list, o.1) (removed-IsManaged k o.0 m v o.1)
]
