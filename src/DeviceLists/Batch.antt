-- ===== src/DeviceLists/Batch.antt =====
-- StaticDeviceListManager.batch_append: one write to the buffer extends each of the lists.
use mathlib.Core.Path.{subst}
use chitu.Base.{
  ℕ, ◌<◌, ◌≡◌, refl, sym, ap, ◌∙◌, true, false, List, [], ◌∷◌, ◌++◌, nat_beq, if◌then◌else◌, length,
  arith, has, get_default, Result, ok, raise, nat_eq, nat_beq_iff, Unique, has_key, append_assoc,
  append-nil,
}
use chitu.DeviceLists.{
  DeviceList, Manager, to_tensor, put_cells, targets, within, lengthen_each, batch_append,
}
use chitu.DeviceLists.Rows.{IsLive, IsManaged}
use chitu.DeviceLists.Single.{push_one, one_ne, one-IsManaged, one-extends}

-- What is appended to a list.
abbrev pub items : ℕ → List ℕ → List ℕ → List ℕ
items j [] xs = []
items j (k ∷ ks) [] = []
items j (k ∷ ks) (x ∷ xs) = (if nat_beq k j then x ∷ [] else []) ++ items j ks xs

-- Each list is managed, and there is a place behind its last item.
abbrev pub HaveRoom : Manager → List ℕ → Type 0
HaveRoom m [] = Unit {0}
HaveRoom m (k ∷ ks) =
    ((has m.lru_queue k ≡ true) × ((m.lists k).len < m.max_num_cols)) × HaveRoom m ks

abbrev pub IsExtended : List ℕ → List ℕ → Manager → Manager → Type 0
IsExtended ks xs m m' =
    IsManaged m'
    × ((j : ℕ) → IsLive m j → IsLive m' j × (to_tensor m' j ≡ to_tensor m j ++ items j ks xs))

abbrev pub IsAppended : List ℕ → List ℕ → Manager → Result (Unit {0}) × Manager → Type 0
IsAppended ks xs m (ok u, m') = IsExtended ks xs m m'
IsAppended ks xs m (raise e, m') = ⊥

-- The appends to the lists, one after the other.
abbrev push_each : List ℕ → List ℕ → Manager → Manager
push_each [] xs m = m
push_each (k ∷ ks) [] m = m
push_each (k ∷ ks) (x ∷ xs) m = push_each ks xs (push_one k x m)

not_first :
    (k j : ℕ) (ks : List ℕ)
    → has_key k (j ∷ ks) ≡ false
    → (nat_beq k j ≡ false) × (has_key k ks ≡ false)
not_first k j ks h = ground (arith, nat_beq_iff k j, nat_beq_iff j k, h)

targets-push_one :
    (k x : ℕ) (ks xs : List ℕ) (m : Manager)
    → has_key k ks ≡ false
    → targets m ks xs ≡ targets (push_one k x m) ks xs
targets-push_one k x [] xs m h = refl
targets-push_one k x (j ∷ ks) [] m h = refl
targets-push_one k x (j ∷ ks) (y ∷ xs) m h =
    (let e = not_first k j ks h in
      ap (λ (n : ℕ). (get_default m.lru_queue j 0, n, y) ∷ targets m ks xs)
        (ap (λ (l : DeviceList). l.len) (sym (one_ne k j x m e.0)))
      ∙ ap (λ ts. (get_default m.lru_queue j 0, ((push_one k x m).lists j).len, y) ∷ ts)
          (targets-push_one k x ks xs m e.1))

HaveRoom-push_one :
    (k x : ℕ) (ks : List ℕ) (m : Manager)
    → has_key k ks ≡ false
    → HaveRoom m ks
    → HaveRoom (push_one k x m) ks
HaveRoom-push_one k x [] m h q = tt
HaveRoom-push_one k x (j ∷ ks) m h q =
    let e = not_first k j ks h in
    (
      (q.0.0, omega (arith, ap (λ (l : DeviceList). l.len) (one_ne k j x m e.0), q.0.1)),
      HaveRoom-push_one k x ks m e.1 q.1,
    )

each-IsExtended :
    (ks xs : List ℕ) (m : Manager)
    → IsManaged m
    → Unique ks
    → HaveRoom m ks
    → IsExtended ks xs m (push_each ks xs m)
each-IsExtended [] xs m v u q = (v, λ j l. (l, sym (append-nil _)))
each-IsExtended (k ∷ ks) [] m v u q = (v, λ j l. (l, sym (append-nil _)))
each-IsExtended (k ∷ ks) (x ∷ xs) m v u q =
    let one = one-extends k x m v q.0.0 q.0.1 in
    let rest =
      each-IsExtended ks xs (push_one k x m) (one-IsManaged k x m v q.0.0 q.0.1) u.1
        (HaveRoom-push_one k x ks m u.0 q.1) in
    (
      rest.0,
      λ j l. (
        (rest.1 j (one j l).0).0,
        (rest.1 j (one j l).0).1
            ∙ ap (λ l. l ++ items j ks xs) (one j l).1
            ∙ append_assoc (to_tensor m j) (if nat_beq k j then x ∷ [] else []) (items j ks xs),
      ),
    )

-- One write to the buffer does what the appends do one after the other.
batch-eq :
    (ks xs : List ℕ) (m : Manager)
    → Unique ks
    → length ks ≡ length xs
    → record m { buffer = put_cells (targets m ks xs) m.buffer; lists = lengthen_each ks m.lists }
      ≡ push_each ks xs m
unfolding put_cells lengthen_each
batch-eq [] xs m u h = refl
batch-eq (k ∷ ks) [] m u h = absurd (omega (arith, h))
batch-eq (k ∷ ks) (x ∷ xs) m u h =
    let n = push_one k x m in
    ap
      (λ ts.
        let o : Manager = record m {
          buffer = put_cells ts n.buffer;
          lists = lengthen_each ks n.lists;
        } in
        o)
      (targets-push_one k x ks xs m u.0)
    ∙ batch-eq ks xs n u.1 (omega (arith, h))

within-targets :
    (ks xs : List ℕ) (m : Manager) → HaveRoom m ks → within m.max_num_cols (targets m ks xs) ≡ true
within-targets [] xs m q = refl
within-targets (k ∷ ks) [] m q = refl
within-targets (k ∷ ks) (x ∷ xs) m q = ground (arith, q.0.1, within-targets ks xs m q.1)

-- batch_append to different lists that are managed and have room, with one item for each, in a manager
-- whose rows are in order: it returns; the rows are in order, and every live list is live and has its
-- own items behind the contents it had (none, if it is not among the lists).
pub batch_append-IsAppended :
    (ks xs : List ℕ) (m : Manager)
    → IsManaged m
    → Unique ks
    → HaveRoom m ks
    → length ks ≡ length xs
    → IsAppended ks xs m (batch_append ks xs m)
unfolding batch_append
batch_append-IsAppended [] xs m v u q h = each-IsExtended [] [] m v tt tt
batch_append-IsAppended (k ∷ ks) xs m v u q h =
    let some_list : nat_beq (length (k ∷ ks)) 0 ≡ false = ground arith in
    let sized : nat_beq (length (k ∷ ks)) (length xs) ≡ true = (nat_beq_iff _ _).1 h in
    rw (some_list, sized, within-targets (k ∷ ks) xs m q)
      (subst (IsExtended (k ∷ ks) xs m) (sym (batch-eq (k ∷ ks) xs m u h))
        (each-IsExtended (k ∷ ks) xs m v u q))
