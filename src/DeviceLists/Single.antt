-- ===== src/DeviceLists/Single.antt =====
-- StaticDeviceListManager: the append of one item to one managed list.
use mathlib.Core.Path.{subst}
use chitu.Base.{
  ℕ, zero, suc, ◌+◌, ◌≤◌, ◌<◌, ◌≡◌, ◌≢◌, refl, sym, ap, ◌∙◌, true, false, inl, inr, some, List, [],
  ◌∷◌, ◌++◌, nat_beq, if◌then◌else◌, length, get_or, get_or-set_self, get_or-set_ne, set, take,
  arith, Dict, get, has, get_default, nat_eq, nat_beq_iff, Bool-cases, length-set, append-nil,
}
use chitu.DeviceLists.{Storage, own, row, DeviceList, Manager, set_list, cells, to_tensor}
use chitu.DeviceLists.Rows.{LivesIn, IsLive, IsManaged}

-- The append to one list.
abbrev pub push_one : ℕ → ℕ → Manager → Manager
push_one k x m =
    let r = get_default m.lru_queue k 0 in
    record m {
      buffer = set m.buffer r (set (get_or m.buffer r []) (m.lists k).len x);
      lists = set_list m.lists k (record (m.lists k) { len = (m.lists k).len + 1 });
    }

take-set : (xs : List ℕ) (n x : ℕ) → n < length xs → take (suc n) (set xs n x) ≡ take n xs ++ x ∷ []
take-set [] n x h = absurd (omega (arith, h))
take-set (y ∷ xs) zero x h = refl
take-set (y ∷ xs) (suc n) x h = ap (λ l. y ∷ l) (take-set xs n x (omega (arith, h)))

found : (d : Dict ℕ ℕ) (k : ℕ) → has d k ≡ true → get d k ≡ some (get_default d k 0)
found d k h = ground (arith, h)

one_self :
    (k x : ℕ) (m : Manager)
    → (push_one k x m).lists k ≡ record (m.lists k) { len = (m.lists k).len + 1 }
one_self k x m = ground arith

pub one_ne : (k j x : ℕ) (m : Manager) → nat_beq k j ≡ false → (push_one k x m).lists j ≡ m.lists j
one_ne k j x m e = rw e refl

one-data_of : (k j x : ℕ) (m : Manager) → ((push_one k x m).lists j).data_of ≡ (m.lists j).data_of
one-data_of k j x m = elim (Bool-cases (nat_beq k j)) [
  | inl e ↦
      subst (λ (i : ℕ). ((push_one k x m).lists i).data_of ≡ (m.lists i).data_of)
        ((nat_beq_iff k j).0 e) (ap (λ (l : DeviceList). l.data_of) (one_self k x m))
  | inr e ↦ ap (λ (l : DeviceList). l.data_of) (one_ne k j x m e)
]

module _ (k x : ℕ) (m : Manager) (v : IsManaged m) (h : has m.lru_queue k ≡ true)
    (room : (m.lists k).len < m.max_num_cols) where
  abbrev r : ℕ
  r = get_default m.lru_queue k 0

  at_r : get m.lru_queue k ≡ some r
  at_r = found m.lru_queue k h

  abbrev new_row : List ℕ
  new_row = set (get_or m.buffer r []) (m.lists k).len x

  one_short :
      (j s : ℕ) → get m.lru_queue j ≡ some s → ((push_one k x m).lists j).len ≤ m.max_num_cols
  one_short j s g = elim (Bool-cases (nat_beq k j)) [
    | inl e ↦
        subst (λ (i : ℕ). ((push_one k x m).lists i).len ≤ m.max_num_cols) ((nat_beq_iff k j).0 e)
          (omega (arith, ap (λ (l : DeviceList). l.len) (one_self k x m), room))
    | inr e ↦ omega (arith, ap (λ (l : DeviceList). l.len) (one_ne k j x m e), v.short j s g)
  ]

  one_wide :
      (s : ℕ) → s < length m.buffer → length (get_or (set m.buffer r new_row) s []) ≡ m.max_num_cols
  one_wide s g = elim (Bool-cases (nat_beq r s)) [
    | inl e ↦
        subst (λ (i : ℕ). length (get_or (set m.buffer r new_row) i []) ≡ m.max_num_cols)
          ((nat_beq_iff r s).0 e)
          (ap length (get_or-set_self m.buffer r new_row [] (v.below k r at_r).1)
            ∙ length-set (get_or m.buffer r []) (m.lists k).len x
            ∙ v.wide r (v.below k r at_r).1)
    | inr e ↦
        (let d : r ≢ s = ground (arith, e) in
          ap length (get_or-set_ne m.buffer r s new_row [] d) ∙ v.wide s g)
  ]

  pub one-IsManaged : IsManaged (push_one k x m)
  one-IsManaged = record {
    stored = λ j s g. one-data_of k j x m ∙ v.stored j s g;
    below = λ j s g. rw (length-set m.buffer r new_row) (v.below j s g);
    alone = v.alone;
    free_below = λ s g. rw (length-set m.buffer r new_row) (v.free_below s g);
    free_once = v.free_once;
    free_apart = v.free_apart;
    distinct = v.distinct;
    all_rows = v.all_rows;
    wide = λ s g. one_wide s (omega (arith, g, length-set m.buffer r new_row));
    short = one_short;
  }

  abbrev Longer : ℕ → DeviceList → List ℕ → Type 0
  Longer j l xs =
      LivesIn m.lru_queue j l.len l.data_of
      × (take l.len (cells (set m.buffer r new_row) l.data_of) ≡ to_tensor m j ++ xs)

  Longer-self : Longer k ((push_one k x m).lists k) (x ∷ [])
  unfolding to_tensor
  Longer-self =
      subst (λ (l : DeviceList). Longer k l (x ∷ [])) (sym (one_self k x m))
        (rw (v.stored k r at_r, get_or-set_self m.buffer r new_row [] (v.below k r at_r).1)
          (
            at_r,
            ap (λ (i : ℕ). take i new_row)
                  (let q : (m.lists k).len + 1 ≡ suc (m.lists k).len = omega arith in q)
                ∙ take-set (get_or m.buffer r []) (m.lists k).len x
                    (omega (arith, room, v.wide r (v.below k r at_r).1)),
          ))

  others :
      (j n : ℕ) (st : Storage)
      → nat_beq k j ≡ false
      → LivesIn m.lru_queue j n st
      → take n (cells (set m.buffer r new_row) st) ≡ take n (cells m.buffer st)
  others j n (own xs) e l = refl
  others j n (row s) e l =
      let d : r ≢ s = λ z.
        (let q : k ≡ j = v.alone k j s (at_r ∙ ap (λ i. some i) z) l in ground (arith, e, q)) in
      ap (take n) (get_or-set_ne m.buffer r s new_row [] d)

  Longer-other : (j : ℕ) → nat_beq k j ≡ false → IsLive m j → Longer j ((push_one k x m).lists j) []
  unfolding to_tensor
  Longer-other j e l =
      subst (λ (i : DeviceList). Longer j i []) (sym (one_ne k j x m e))
        (l, others j (m.lists j).len (m.lists j).data_of e l ∙ sym (append-nil _))

  -- Only the list itself gets the item.
  pub one-extends :
      (j : ℕ)
      → IsLive m j
      → IsLive (push_one k x m) j
        × (to_tensor (push_one k x m) j ≡ to_tensor m j ++ (if nat_beq k j then x ∷ [] else []))
  unfolding to_tensor
  one-extends j l = elim (Bool-cases (nat_beq k j)) [
    | inl e ↦ as_items j (x ∷ []) (ground (arith, e)) (
        subst (λ (i : ℕ). Longer i ((push_one k x m).lists i) (x ∷ [])) ((nat_beq_iff k j).0 e)
          Longer-self)
    | inr e ↦ as_items j [] (ground (arith, e)) (Longer-other j e l)
  ]
    where
      as_items :
          (j : ℕ) (xs : List ℕ)
          → (if nat_beq k j then x ∷ [] else []) ≡ xs
          → Longer j ((push_one k x m).lists j) xs
          → Longer j ((push_one k x m).lists j) (if nat_beq k j then x ∷ [] else [])
      as_items j xs e l = subst (Longer j ((push_one k x m).lists j)) (sym e) l
