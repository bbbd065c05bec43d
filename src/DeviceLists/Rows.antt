-- ===== src/DeviceLists/Rows.antt =====
-- StaticDeviceListManager: the rows of the buffer, each with one list, and how a row becomes spare.
use mathlib.Core.Path.{subst}
use chitu.Base.{
  ℕ, suc, ◌+◌, ◌≤◌, ◌<◌, ◌≡◌, ◌≢◌, refl, sym, ap, ◌∙◌, true, false, inl, inr, none, some, List, [],
  ◌∷◌, nat_beq, length, get_or, count, arith, Dict, get, put, remove, Distinct, get-put,
  get-remove_ne, get-remove_self, put-Distinct, remove-Distinct, length-remove, nat_eq, nat_beq_iff,
  Bool-cases,
}
use chitu.DeviceLists.{
  Storage, own, row, DeviceList, Manager, set_list, cells, to_tensor, with_list, move_to_end,
}

-- A list whose storage is its own, or the row that the manager has for it. (A list that was removed
-- still has its row, which may go to another.)
abbrev pub LivesIn : Dict ℕ ℕ → ℕ → ℕ → Storage → Type 0
LivesIn queue k n (own xs) = n ≤ length xs
LivesIn queue k n (row r) = get queue k ≡ some r

abbrev pub IsLive : Manager → ℕ → Type 0
IsLive m k = LivesIn m.lru_queue k (m.lists k).len (m.lists k).data_of

-- The rows of the buffer: each managed list has one of its own and is stored there; the other rows
-- are free, but for n of them; row 0 is nobody's.
pub record AreRows (n : ℕ) (m : Manager) : Type 0 where
  pub stored : (k r : ℕ) → get m.lru_queue k ≡ some r → (m.lists k).data_of ≡ row r
  pub below : (k r : ℕ) → get m.lru_queue k ≡ some r → (0 < r) × (r < length m.buffer)
  pub alone : (j k r : ℕ) → get m.lru_queue j ≡ some r → get m.lru_queue k ≡ some r → j ≡ k
  pub free_below : (r : ℕ) → 0 < count r m.free_rows → (0 < r) × (r < length m.buffer)
  pub free_once : (r : ℕ) → count r m.free_rows ≤ 1
  pub free_apart : (k r : ℕ) → get m.lru_queue k ≡ some r → count r m.free_rows ≡ 0
  pub distinct : Distinct m.lru_queue
  pub all_rows : n + (length m.free_rows + length m.lru_queue) ≡ m.max_num_rows
  pub wide : (r : ℕ) → r < length m.buffer → length (get_or m.buffer r []) ≡ m.max_num_cols
  pub short : (k r : ℕ) → get m.lru_queue k ≡ some r → (m.lists k).len ≤ m.max_num_cols

abbrev pub IsManaged : Manager → Type 0
IsManaged m = AreRows 0 m

-- Every live list is still live and has the same contents.
abbrev pub KeepsLists : Manager → Manager → Type 0
KeepsLists m m' =
    (j : ℕ)
    → IsLive m j
    → IsLive m' j × (to_tensor m' j ≡ to_tensor m j) × ((m'.lists j).len ≡ (m.lists j).len)

-- A list that is there only moves to the end of the queue.
pub get-move : (d : Dict ℕ ℕ) (k r j : ℕ) → get d k ≡ some r → get (move_to_end d k r) j ≡ get d j
get-move d k r j h = elim (Bool-cases (nat_beq k j)) [
  | inl e ↦
      get-put (remove d k) k j r
      ∙ rw e (sym (subst (λ (x : ℕ). get d x ≡ some r) ((nat_beq_iff k j).0 e) h))
  | inr e ↦ get-put (remove d k) k j r ∙ rw e (get-remove_ne d k j e)
]

pub length-put : (d : Dict ℕ ℕ) (k r : ℕ) → get d k ≡ none → length (put d k r) ≡ suc (length d)
unfolding get put
length-put [] k r h = refl
length-put ((j, s) ∷ d) k r h = ground (arith, length-put d k r)

pub length-move :
    (d : Dict ℕ ℕ) (k r : ℕ) → Distinct d → get d k ≡ some r → length (move_to_end d k r) ≡ length d
length-move d k r u h =
    omega (arith, length-put (remove d k) k r (get-remove_self d k u), length-remove d k r h)

pub refresh-IsManaged :
    (k r : ℕ) (m : Manager)
    → IsManaged m
    → get m.lru_queue k ≡ some r
    → IsManaged (record m { lru_queue = move_to_end m.lru_queue k r })
refresh-IsManaged k r m v h = record {
  stored = λ j s g. v.stored j s (sym (get-move m.lru_queue k r j h) ∙ g);
  below = λ j s g. v.below j s (sym (get-move m.lru_queue k r j h) ∙ g);
  alone = λ i j s g g'.
      v.alone i j s (sym (get-move m.lru_queue k r i h) ∙ g)
        (sym (get-move m.lru_queue k r j h) ∙ g');
  free_below = v.free_below;
  free_once = v.free_once;
  free_apart = λ j s g. v.free_apart j s (sym (get-move m.lru_queue k r j h) ∙ g);
  distinct = put-Distinct (remove m.lru_queue k) k r (remove-Distinct m.lru_queue k v.distinct);
  all_rows = omega (arith, v.all_rows, length-move m.lru_queue k r v.distinct h);
  wide = v.wide;
  short = λ j s g. v.short j s (sym (get-move m.lru_queue k r j h) ∙ g);
}

-- A row that is nobody's, and not on the free list either.
pub record IsSpare (r : ℕ) (m : Manager) : Type 0 where
  pub rows : AreRows 1 m
  pub within : (0 < r) × (r < length m.buffer)
  pub unused : (k : ℕ) → get m.lru_queue k ≢ some r
  pub not_free : count r m.free_rows ≡ 0

pub free-IsSpare :
    (r : ℕ) (rs : List ℕ) (m : Manager)
    → IsManaged m
    → m.free_rows ≡ r ∷ rs
    → IsSpare r (record m { free_rows = rs })
free-IsSpare r rs m v e =
    let once = λ (s : ℕ). subst (λ (l : List ℕ). count s l ≤ 1) e (v.free_once s) in
    let here : 0 < count r m.free_rows = rw e (ground arith) in
    record {
      rows = record {
        stored = v.stored;
        below = v.below;
        alone = v.alone;
        free_below = λ s g. v.free_below s (rw e (ground (arith, g)));
        free_once = λ s. ground (arith, once s);
        free_apart =
            λ k s g. ground (arith, subst (λ (l : List ℕ). count s l ≡ 0) e (v.free_apart k s g));
        distinct = v.distinct;
        all_rows = omega (arith, v.all_rows, ap length e);
        wide = v.wide;
        short = v.short;
      };
      within = v.free_below r here;
      unused = λ k g. omega (arith, here, v.free_apart k r g);
      not_free = ground (arith, once r);
    }

pub remove-some :
    (d : Dict ℕ ℕ) (j k s : ℕ)
    → Distinct d
    → get (remove d j) k ≡ some s
    → (j ≢ k) × (get d k ≡ some s)
remove-some d j k s u g = elim (Bool-cases (nat_beq j k)) [
  | inl e ↦
      (let f = subst (λ (x : ℕ). get (remove d j) x ≡ some s) (sym ((nat_beq_iff j k).0 e)) g in
        absurd (let z : none ≡ some s = sym (get-remove_self d j u) ∙ f in cc))
  | inr e ↦ (
    λ z. (let f : nat_beq j k ≡ true = (nat_beq_iff j k).1 z in cc),
    sym (get-remove_ne d j k e) ∙ g,
  )
]

-- The row of a list that is evicted is spare.
abbrev pub as_evicted : ℕ → Manager → Manager
as_evicted j m =
    with_list j
      (record (m.lists j) {
        data_of = own (cells m.buffer (m.lists j).data_of);
        disable_reallocate = false;
      })
      (record m { lru_queue = remove m.lru_queue j })

set_list_ne : (f : ℕ → DeviceList) (j k : ℕ) (l : DeviceList) → j ≢ k → set_list f j l k ≡ f k
set_list_ne f j k l h = ground (arith, h)

pub as_evicted_ne : (j k : ℕ) (m : Manager) → j ≢ k → (as_evicted j m).lists k ≡ m.lists k
as_evicted_ne j k m h = set_list_ne m.lists j k _ h

pub as_evicted-IsSpare :
    (j r : ℕ) (m : Manager) → IsManaged m → get m.lru_queue j ≡ some r → IsSpare r (as_evicted j m)
as_evicted-IsSpare j r m v h =
    let part = λ (k s : ℕ). remove-some m.lru_queue j k s v.distinct in
    record {
      rows = record {
        stored = λ k s g.
            ap (λ (l : DeviceList). l.data_of) (as_evicted_ne j k m (part k s g).0)
            ∙ v.stored k s (part k s g).1;
        below = λ k s g. v.below k s (part k s g).1;
        alone = λ i k s g g'. v.alone i k s (part i s g).1 (part k s g').1;
        free_below = v.free_below;
        free_once = v.free_once;
        free_apart = λ k s g. v.free_apart k s (part k s g).1;
        distinct = remove-Distinct m.lru_queue j v.distinct;
        all_rows = omega (arith, v.all_rows, length-remove m.lru_queue j r h);
        wide = v.wide;
        short = λ k s g. omega (
          arith,
          ap (λ (l : DeviceList). l.len) (as_evicted_ne j k m (part k s g).0),
          v.short k s (part k s g).1,
        );
      };
      within = v.below j r h;
      unused = λ k g. (let p = part k r g in p.0 (v.alone j k r h p.1));
      not_free = v.free_apart j r h;
    }
