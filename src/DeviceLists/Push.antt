-- ===== src/DeviceLists/Push.antt =====
-- StaticDeviceListManager.push_list: the rows of the buffer are shared out without two lists in one
-- row, and no list changes.
use mathlib.Core.Path.{subst}
use chitu.Base.{
  ℕ, ◌≤◌, ◌<◌, ◌≡◌, refl, sym, ap, ◌∙◌, true, false, inl, inr, none, some, List, [], ◌∷◌, leb,
  nat_beq, length, arith, Dict, get, put, has, get-put, get-remove_ne, Result, ok, raise, continue,
  nat_eq, nat_beq_iff, Bool-cases,
}
use chitu.DeviceLists.{
  Storage, own, row, Manager, to_tensor, move_to_end, refresh, evict_list, enter_row, evict_first,
  take_row, refresh_and_row, assign_buffer_row, install, no_realloc, push_managed, push_list,
}
use chitu.DeviceLists.Rows.{
  LivesIn, IsLive, IsManaged, KeepsLists, IsSpare, get-move, refresh-IsManaged, free-IsSpare,
  as_evicted, as_evicted-IsSpare,
}
use chitu.DeviceLists.Install.{
  entered, get-entered, installed, installed-IsManaged, installed-KeepsLists,
}
use chitu.DeviceLists.Kept.{
  has-some, get_default-some, has-none, has-cases, KeepsLists-trans, no_realloc-len,
  no_realloc-IsManaged, no_realloc-KeepsLists, as_evicted-KeepsLists,
}

abbrev pub IsPushed : ℕ → Manager → Result (Unit {0}) × Manager → Type 0
IsPushed k m (ok u, m') = IsManaged m' × KeepsLists m m' × (has m'.lru_queue k ≡ true)
IsPushed k m (raise e, m') = ⊥

refresh_and_row-eq :
    (k r : ℕ) (m : Manager)
    → refresh_and_row k (record m { lru_queue = put m.lru_queue k r }) ≡ (ok r, entered k r m)
unfolding refresh
refresh_and_row-eq k r m =
    let e : get (put m.lru_queue k r) k ≡ some r = get-put m.lru_queue k k r ∙ ground arith in
    rw e (
      ap (λ (x : ℕ). let o : Result ℕ × Manager = (ok x, entered k r m) in o)
        (get_default-some (entered k r m).lru_queue k r (get-entered k r k m ∙ ground arith)))

-- The list enters with a spare row.
spare-IsPushed :
    (k r : ℕ) (m m0 : Manager)
    → KeepsLists m m0
    → IsSpare r m0
    → get m0.lru_queue k ≡ none
    → IsLive m0 k
    → (m0.lists k).len ≤ m0.max_num_cols
    → IsPushed k m (install k r (entered k r m0))
spare-IsPushed k r m m0 f sp g l n = (
  installed-IsManaged k r m0 sp g l n,
  KeepsLists-trans m m0 (installed k r m0 sp g l n) f (installed-KeepsLists k r m0 sp g l n),
  has-some (entered k r m0).lru_queue k r (get-entered k r k m0 ∙ ground arith),
)

-- A managed list moves to the end of the queue.
refresh-IsPushed :
    (k : ℕ) (m : Manager) → IsManaged m → has m.lru_queue k ≡ true → IsPushed k m (refresh k m)
unfolding refresh to_tensor
refresh-IsPushed k m v h =
    let (r, g) = has-cases m.lru_queue k h in
    rw g (
      refresh-IsManaged k r m v g,
      λ j l. (move-live j (m.lists j).len (m.lists j).data_of l r g, refl, refl),
      has-some (move_to_end m.lru_queue k r) k r (get-move m.lru_queue k r k g ∙ g),
    )
  where
    move-live :
        (j n : ℕ) (st : Storage)
        → LivesIn m.lru_queue j n st
        → (r : ℕ) → get m.lru_queue k ≡ some r
        → LivesIn (move_to_end m.lru_queue k r) j n st
    move-live j n (own xs) l r g = l
    move-live j n (row s) l r g = get-move m.lru_queue k r j g ∙ l

-- What follows when the list has been entered, or could not be.
abbrev after_row : ℕ → Result (Unit {0}) × Manager → Result (Unit {0}) × Manager
after_row k o = let a = continue o.0 (λ u. refresh_and_row k) o.1 in continue a.0 (install k) a.1

after_row-enter_row :
    (k r : ℕ) (m : Manager) → after_row k (enter_row k r m) ≡ install k r (entered k r m)
after_row-enter_row k r m =
    ap (λ (o : Result ℕ × Manager). continue o.0 (install k) o.1) (refresh_and_row-eq k r m)

first-get : (q d : Dict ℕ ℕ) (j s : ℕ) → q ≡ (j, s) ∷ d → get q j ≡ some s
unfolding get
first-get q d j s e = subst (λ (x : Dict ℕ ℕ). get x j ≡ some s) (sym e) (ground arith)

apart : (d : Dict ℕ ℕ) (j k s : ℕ) → get d j ≡ some s → get d k ≡ none → nat_beq j k ≡ false
apart d j k s g h = elim (Bool-cases (nat_beq j k)) [
  | inl e ↦ absurd (
      let z : get d j ≡ none = subst (λ (x : ℕ). get d x ≡ none) (sym ((nat_beq_iff j k).0 e)) h in
      cc)
  | inr e ↦ e
]

module _ (k : ℕ) (m : Manager) (v : IsManaged m) (absent : get m.lru_queue k ≡ none)
    (l : IsLive m k) (n : (m.lists k).len ≤ m.max_num_cols) (p : 0 < m.max_num_rows) where
  evict_first-IsPushed :
      (d : Dict ℕ ℕ)
      → m.lru_queue ≡ d
      → m.free_rows ≡ []
      → IsPushed k m (after_row k (evict_first k d m))
  unfolding evict_list
  evict_first-IsPushed [] e f = absurd (omega (arith, v.all_rows, ap length e, ap length f, p))
  evict_first-IsPushed ((j, s) ∷ d) e f =
      let g : get m.lru_queue j ≡ some s = first-get m.lru_queue d j s e in
      let b : nat_beq j k ≡ false = apart m.lru_queue j k s g absent in
      let keep = as_evicted-KeepsLists j s m v g k l in
      rw (g, after_row-enter_row k s (as_evicted j m))
        (spare-IsPushed k s m (as_evicted j m) (as_evicted-KeepsLists j s m v g)
          (as_evicted-IsSpare j s m v g) (get-remove_ne m.lru_queue j k b ∙ absent) keep.0
          (omega (arith, keep.2, n)))

  take_row-IsPushed :
      (rs : List ℕ) → m.free_rows ≡ rs → IsPushed k m (after_row k (take_row k rs m))
  unfolding to_tensor
  take_row-IsPushed [] e = evict_first-IsPushed m.lru_queue refl e
  take_row-IsPushed (r ∷ rs) e =
      let m0 = record m { free_rows = rs } in
      rw (after_row-enter_row k r m0)
        (spare-IsPushed k r m m0 (λ j h. (h, refl, refl)) (free-IsSpare r rs m v e) absent l n)

  -- A list that is not managed gets a free row, or that of the list least recently used.
  push_managed-IsPushed : has m.lru_queue k ≡ false → IsPushed k m (push_managed false k m)
  unfolding assign_buffer_row
  push_managed-IsPushed h = rw h (take_row-IsPushed m.free_rows refl)

no_realloc-IsLive : (k j : ℕ) (m : Manager) → IsLive m j → IsLive (no_realloc k m) j
no_realloc-IsLive k j m h = (no_realloc-KeepsLists k m j h).0

IsPushed-trans :
    (k : ℕ) (m n : Manager) (o : Result (Unit {0}) × Manager)
    → KeepsLists m n
    → IsPushed k n o
    → IsPushed k m o
IsPushed-trans k m n (ok u, o) f p = (p.0, KeepsLists-trans m n o f p.1, p.2)
IsPushed-trans k m n (raise e, o) f p = absurd p

-- push_list of a live list that fits in a row, in a manager whose rows are in order and that has at
-- least one: it returns; the rows are in order (each managed list is stored in a row of its own, all
-- rows but row 0 are managed or free), every live list is live with the contents it had, and the list
-- is managed.
pub push_list-IsPushed :
    (k : ℕ) (m : Manager)
    → IsManaged m
    → IsLive m k
    → (m.lists k).len ≤ m.max_num_cols
    → 0 < m.max_num_rows
    → IsPushed k m (push_list k m)
unfolding push_list
push_list-IsPushed k m v l n p =
    let m0 = no_realloc k m in
    let v0 = no_realloc-IsManaged k m v in
    let fits : leb (m.lists k).len m.max_num_cols ≡ true = ground (arith, n) in
    rw fits (
      IsPushed-trans k m m0 (push_managed (has m.lru_queue k) k m0) (no_realloc-KeepsLists k m)
        (elim (Bool-cases (has m.lru_queue k)) [
          | inl e ↦ rw e (refresh-IsPushed k m0 v0 e)
          | inr e ↦ rw e (
              push_managed-IsPushed k m0 v0 (has-none m.lru_queue k e) (no_realloc-IsLive k k m l)
                (omega (arith, no_realloc-len k k m, n)) p e)
        ]))
