-- ===== src/Moe/Default/Placed.antt =====
-- MoELoadPlanner: the placement at the start has each expert where it says.
use mathlib.Core.Path.{subst}
use native.Mathlib.Nat.{div-add-mod', mod-lt, mod-eq_of_lt, mul_comm, div-lt_iff_lt-mul}
use chitu.Base.{
  ℕ, zero, suc, ◌+◌, ◌*◌, ◌/◌, ◌%◌, ◌≤◌, ◌<◌, ◌≡◌, refl, sym, ap, ◌∙◌, true, false, List, [], ◌∷◌,
  ltb, nat_beq, length, get_or, map, take, drop, range_from, replicate, get_elem?, get_elem?-lt,
  All, some, Result, ok, raise, arith, length-replicate, nat_beq_iff,
}
use chitu.Moe.Placement.{Planner, cell}
use chitu.Moe.Default.{experts, default_mapping, collect, choose_slot, init_layer, make_planner}
use chitu.Moe.Exchange.{IsPlaced}
use chitu.Moe.Actions.{ArePlaced}
use chitu.Moe.Default.Collected.{AreListed, Has, collect-AreListed, collect-Has_at, length-collect}

-- Where an expert is at the start.
get_elem?-map_range {ℓ} :
    {A : Type ℓ} (f : ℕ → A) (lo n i : ℕ)
    → i < n
    → get_elem? (map f (range_from lo n)) i ≡ some (f (lo + i))
get_elem?-map_range f lo zero i h = absurd (omega (arith, h))
get_elem?-map_range f lo (suc n) zero h = ap (λ x. some (f x)) (omega arith)
get_elem?-map_range f lo (suc n) (suc i) h =
    get_elem?-map_range f (suc lo) n i (omega (arith, h)) ∙ ap (λ x. some (f x)) (omega arith)

get_elem?-take {ℓ} :
    {A : Type ℓ} (n i : ℕ) (xs : List A) → i < n → get_elem? (take n xs) i ≡ get_elem? xs i
get_elem?-take zero i xs h = absurd (omega (arith, h))
get_elem?-take (suc n) i [] h = refl
get_elem?-take (suc n) zero (x ∷ xs) h = refl
get_elem?-take (suc n) (suc i) (x ∷ xs) h = get_elem?-take n i xs (omega (arith, h))

get_elem?-drop {ℓ} :
    {A : Type ℓ} (n i : ℕ) (xs : List A) → get_elem? (drop n xs) i ≡ get_elem? xs (n + i)
get_elem?-drop zero i xs = ap (get_elem? xs) (omega arith)
get_elem?-drop (suc n) i [] = refl
get_elem?-drop (suc n) i (x ∷ xs) =
    get_elem?-drop n i xs
    ∙ ap (get_elem? (x ∷ xs)) (let q : suc (n + i) ≡ suc n + i = omega arith in q)

replicate-eq {ℓ} :
    {A : Type ℓ} (n i : ℕ) (x : A) {y : A} → get_elem? (replicate n x) i ≡ some y → x ≡ y
replicate-eq zero i x h = cc
replicate-eq (suc n) zero x h = cc
replicate-eq (suc n) (suc i) x h = replicate-eq n i x h

get_elem?-map {ℓ κ} :
    {A : Type ℓ} {B : Type κ} (f : A → B) (xs : List A) (i : ℕ) {y : B}
    → get_elem? (map f xs) i ≡ some y
    → (x : A) × (get_elem? xs i ≡ some x) × (f x ≡ y)
get_elem?-map f [] i h = cc
get_elem?-map f (x ∷ xs) zero h = (x, refl, cc)
get_elem?-map f (x ∷ xs) (suc i) h = get_elem?-map f xs i h

get_or-get {ℓ} :
    {A : Type ℓ} (xs : List A) (i : ℕ) (d : A) {x : A} → get_elem? xs i ≡ some x → get_or xs i d ≡ x
get_or-get [] i d h = cc
get_or-get (y ∷ xs) zero d h = cc
get_or-get (y ∷ xs) (suc i) d h = get_or-get xs i d h

All-get_or {ℓ} :
    {A : Type ℓ} (P : A → Type 0) (xs : List A) (i : ℕ) (d : A)
    → All P xs
    → i < length xs
    → P (get_or xs i d)
All-get_or P [] i d h l = absurd (omega (arith, l))
All-get_or P (x ∷ xs) zero d h l = h.0
All-get_or P (x ∷ xs) (suc i) d h l = All-get_or P xs i d h.1 (omega (arith, l))

All-replicate {ℓ} : {A : Type ℓ} (P : A → Type 0) (n : ℕ) (x : A) → P x → All P (replicate n x)
All-replicate P zero x h = tt
All-replicate P (suc n) x h = (h, All-replicate P n x h)

positive_right : (a b : ℕ) → 0 < a * b → 0 < b
positive_right a zero h = absurd (omega (arith, h))
positive_right a (suc b) h = omega arith

module _ (n slot_nums capacity ep_size : ℕ) (positive : 0 < n) (enough : n ≤ slot_nums)
    (shared : ep_size * capacity ≡ slot_nums) where
  abbrev rows : List (List ℕ)
  rows = default_mapping capacity (experts n slot_nums) ep_size

  abbrev slots : List (List (ℕ × ℕ))
  slots = collect n 0 rows (replicate n [])

  slots-AreListed : AreListed rows slots
  slots-AreListed =
      collect-AreListed n rows 0 rows (replicate n [])
        (λ i row g. subst (λ (j : ℕ). get_elem? rows j ≡ some row) (omega arith) g)
        (λ e ts g. subst (All (λ t. cell rows t.0 t.1 ≡ some e)) (replicate-eq n e [] g) tt)

  has_capacity : 0 < capacity
  has_capacity = positive_right ep_size capacity (omega (arith, shared, positive, enough))

  abbrev slice : ℕ → List ℕ
  slice r = take capacity (drop (r * capacity) (experts n slot_nums))

  expert-in_slice : (e : ℕ) → e < n → get_elem? (slice (e / capacity)) (e % capacity) ≡ some e
  expert-in_slice e h =
      get_elem?-take capacity (e % capacity) (drop (e / capacity * capacity) (experts n slot_nums))
        (mod-lt e has_capacity)
      ∙ get_elem?-drop (e / capacity * capacity) (e % capacity) (experts n slot_nums)
      ∙ ap (get_elem? (experts n slot_nums)) (div-add-mod' e capacity)
      ∙ get_elem?-map_range (λ t. t % n) 0 slot_nums e (omega (arith, h, enough))
      ∙ ap (λ x. some (x % n)) (let q : 0 + e ≡ e = omega arith in q)
      ∙ ap (λ x. some x) (mod-eq_of_lt h)

  slice_at : (r : ℕ) → r < ep_size → get_elem? rows r ≡ some (slice r)
  slice_at r h = get_elem?-map_range slice 0 ep_size r h ∙ ap (λ x. some (slice x)) (omega arith)

  slots-Has : (e : ℕ) → e < n → Has e slots
  slots-Has e h =
      collect-Has_at n 0 e (e / capacity) (e % capacity) rows (slice (e / capacity))
        (replicate n []) (length-replicate n []) h
        (slice_at (e / capacity)
          ((div-lt_iff_lt-mul has_capacity).1 (omega (arith, h, enough, shared))))
        (expert-in_slice e h)

  choose_slot-Points :
      (rank e : ℕ) (ts : List (ℕ × ℕ))
      → All (λ t. cell rows t.0 t.1 ≡ some e) ts
      → 0 < length ts
      → (r : ℕ) × (s : ℕ) × (choose_slot capacity rank ts ≡ r * capacity + s)
        × (cell rows r s ≡ some e)
  choose_slot-Points rank e ts h l =
      let t : ℕ × ℕ = get_or ts (rank % length ts) (0, 0) in
      let q : nat_beq (length ts) 0 ≡ false = ground (arith, l) in
      (
        t.0,
        t.1,
        rw q refl,
        All-get_or (λ (t : ℕ × ℕ). cell rows t.0 t.1 ≡ some e) ts (rank % length ts) (0, 0) h
            (mod-lt rank l),
      )

  init_layer-IsPlaced :
      (rank : ℕ) → IsPlaced capacity (init_layer n slot_nums capacity ep_size rank)
  init_layer-IsPlaced rank = record {
    copied = refl;
    used = λ e g h.
        (let (ts, at, q) = get_elem?-map (choose_slot capacity rank) slots e h in
          let below : e < n = omega (
            arith,
            get_elem?-lt slots e at,
            length-collect n 0 rows (replicate n []),
            length-replicate {A = List (ℕ × ℕ)} n [],
          ) in
          let some_slot : 0 < length ts =
            omega (arith, slots-Has e below, ap length (get_or-get slots e [] at)) in
          let (r, s, p, c) = choose_slot-Points rank e ts (slots-AreListed e ts at) some_slot in
          (r, s, sym q ∙ p, c));
    listed = slots-AreListed;
  }

abbrev pub IsMade : ℕ → Result Planner → Type 0
IsMade num_layers (ok p) = ArePlaced p × (length p.layers ≡ num_layers)
IsMade num_layers (raise e) = ⊥

-- With at least one expert, at least as many slots as experts and a number of slots that the number of
-- ranks divides, the constructor returns a planner with the layers asked for, in each of which the slot
-- that is used for an expert, and each slot that is listed for it, holds the expert.
pub make_planner-IsMade :
    (num_layers num_experts slot_nums ep_size ep_rank : ℕ)
    → 0 < num_experts
    → num_experts ≤ slot_nums
    → 0 < ep_size
    → slot_nums % ep_size ≡ 0
    → IsMade num_layers (make_planner num_layers num_experts slot_nums ep_size ep_rank)
unfolding make_planner
make_planner-IsMade num_layers n slot_nums ep_size rank pos enough some_rank divides =
    let a : nat_beq ep_size 0 ≡ false = ground (arith, some_rank) in
    let b : nat_beq (slot_nums % ep_size) 0 ≡ true = (nat_beq_iff _ _).1 divides in
    let c : ltb slot_nums n ≡ false = ground (arith, enough) in
    let d : nat_beq n 0 ≡ false = ground (arith, pos) in
    let whole : ep_size * (slot_nums / ep_size) ≡ slot_nums =
      omega
        (arith, div-add-mod' slot_nums ep_size, mul_comm ep_size (slot_nums / ep_size), divides) in
    let capacity : ℕ = slot_nums / ep_size in
    rw (a, b, c, d)
      (
        All-replicate (IsPlaced capacity) num_layers (init_layer n slot_nums capacity ep_size rank)
            (init_layer-IsPlaced n slot_nums capacity ep_size pos enough whole rank),
        length-replicate num_layers (init_layer n slot_nums capacity ep_size rank),
      )
