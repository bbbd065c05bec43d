-- ===== src/Cache/Dense/Slotted.antt =====
-- Which request of the dense cache has which slot.
use chitu.Base.{
  replicate, set-cases, ℕ, zero, suc, ◌+◌, ◌<◌, ◌≡◌, ◌≢◌, ◌-◌, ◌>>=◌, ◌>>◌, lift, continue, leb,
  assertion_error, index_error, refl, sym, ap, ◌∙◌, Bool, true, false, Option, none, some, String,
  List, [], ◌∷◌, map, if◌then◌else◌, length, get_elem?, get_elem?-lt, get_elem?-set_self,
  get_elem?-set_ne, set, Dict, get, put, has, get-put, Distinct, put-Distinct, Result, ok, raise,
  Preserves, bind-Preserves, pure, modify, assert, string_eq, ◌==◌, Bool-cases, inl, inr, ◌⊎◌,
}
use chitu.Cache.Dense.{
  Dense, make, next_free, take_slot, take_next, allocate, on_base, check_view,
  get_start_and_end_idx, first_slot, prepare_cache_prefill,
}
use chitu.Cache.Slots.{SlotHandle}
use chitu.Cache.Requests.{Requests, base_prepare_cache_prefill}

abbrev pub is_none : Option String → Bool
is_none none = true
is_none (some r) = false

-- A request has slot `i` in the dictionary exactly when the list of slots has it at `i`, no request
-- is in the dictionary twice, and a slot is available exactly when the list has nobody there.
pub record Slots (availability : List Bool) (hot_reqs : List (Option String))
    (req2slot : Dict String ℕ) : Type 0 where
  pub to_hot : (r : String) (i : ℕ) → get req2slot r ≡ some i → get_elem? hot_reqs i ≡ some (some r)
  pub to_slot :
      (r : String) (i : ℕ) → get_elem? hot_reqs i ≡ some (some r) → get req2slot r ≡ some i
  pub once : Distinct req2slot
  pub free : availability ≡ map is_none hot_reqs

module _ {V : Type 0} where
  abbrev pub IsSlotted : Dense V → Type 0
  IsSlotted d = Slots d.slot_availability d.hot_reqs d.req2slot

pub map-set {ℓ κ} :
    {A : Type ℓ} {B : Type κ} (f : A → B) (xs : List A) (i : ℕ) (v : A)
    → map f (set xs i v) ≡ set (map f xs) i (f v)
map-set f [] i v = refl
map-set f (x ∷ xs) zero v = refl
map-set f (x ∷ xs) (suc i) v = ap (λ t. f x ∷ t) (map-set f xs i v)

pub get-map {ℓ κ} :
    {A : Type ℓ} {B : Type κ} (f : A → B) (xs : List A) (i : ℕ) {x : A}
    → get_elem? xs i ≡ some x
    → get_elem? (map f xs) i ≡ some (f x)
get-map f [] i h = cc
get-map f (x ∷ xs) zero h = cc
get-map f (x ∷ xs) (suc i) h = get-map f xs i h

-- A slot that is available holds nobody.
pub available-none :
    (hs : List (Option String)) (i : ℕ)
    → get_elem? (map is_none hs) i ≡ some true
    → get_elem? hs i ≡ some none
available-none [] i h = cc
available-none (none ∷ hs) zero h = refl
available-none (some r ∷ hs) zero h = cc
available-none (x ∷ hs) (suc i) h = available-none hs i h

-- What a write to a dictionary leaves, by cases.
pub put-cases :
    (d : Dict String ℕ) (r x : String) (i j : ℕ)
    → get (put d r i) x ≡ some j
    → (x ≡ r) × (j ≡ i) ⊎ (x ≢ r) × (get d x ≡ some j)
put-cases d r x i j h = elim (Bool-cases (r == x)) [
  | inl e ↦
      (let g : some i ≡ some j = rw (get-put d r x i, e) at h in
        inl (sym ((string_eq.beq_iff r x).0 e), cc))
  | inr e ↦
      (let g : get d x ≡ some j = rw (get-put d r x i, e) at h in
        let b : (r == x ≡ true) → ⊥ = λ t. clash (r == x) t e in
        inr (λ s. b ((string_eq.beq_iff r x).1 (sym s)), g))
]
  where
    clash : (b : Bool) → b ≡ true → b ≡ false → ⊥
    clash true t f = cc
    clash false t f = cc

pub get-put_self : (d : Dict String ℕ) (r : String) (i : ℕ) → get (put d r i) r ≡ some i
get-put_self d r i =
    let e : r == r ≡ true = (string_eq.beq_iff r r).1 refl in rw (get-put d r r i, e) refl

pub get-put_ne : (d : Dict String ℕ) (r x : String) (i : ℕ) → r ≢ x → get (put d r i) x ≡ get d x
get-put_ne d r x i n = elim (Bool-cases (r == x)) [
  | inl e ↦ absurd (n ((string_eq.beq_iff r x).0 e))
  | inr e ↦ rw (get-put d r x i, e) refl
]

take-Slots :
    (av : List Bool) (hs : List (Option String)) (d : Dict String ℕ) (r : String) (i : ℕ)
    → Slots av hs d
    → get d r ≡ none
    → get_elem? av i ≡ some true
    → Slots (set av i false) (set hs i (some r)) (put d r i)
take-Slots av hs d r i h new g = record {
  to_hot = λ x j k. elim (put-cases d r x i j k) [
    | inl e ↦ rw (e.0, e.1) (get_elem?-set_self hs i (some r) bound)
    | inr e ↦ get_elem?-set_ne hs (some r) (λ s. other x j s (h.to_hot x j e.1)) ∙ h.to_hot x j e.1
  ];
  to_slot = λ x j k. elim (set-cases hs i j k) [
    | inl e ↦ (let same : x ≡ r = cc in rw (e.0, same) (get-put_self d r i))
    | inr e ↦ get-put_ne d r x i (λ s. known x j s (h.to_slot x j e.1)) ∙ h.to_slot x j e.1
  ];
  once = put-Distinct d r i h.once;
  free = rw (h.free, map-set is_none hs i (some r)) refl;
}
  where
    empty : get_elem? hs i ≡ some none
    empty = available-none hs i (rw h.free at g)

    bound : i < length hs
    bound = get_elem?-lt hs i empty

    other : (x : String) (j : ℕ) → i ≡ j → get_elem? hs j ≡ some (some x) → ⊥
    other x j s k = let m : get_elem? hs j ≡ some none = rw (sym s) empty in cc

    known : (x : String) (j : ℕ) → r ≡ x → get d x ≡ some j → ⊥
    known x j s k = cc

next_free-available :
    (av : List Bool) (i left : ℕ) {j : ℕ} → next_free av i left ≡ ok j → get_elem? av j ≡ some true
next_free-available av i zero h = cc
next_free-available av i (suc left) {j} h =
    by_slot (get_elem? av i) refl h (next_free-available av (suc i) left)
  where
    by_slot :
        (o : Option Bool)
        → get_elem? av i ≡ o
        → (elim o [
          | none ↦ raise index_error
          | some free ↦ if free then ok i else next_free av (suc i) left
        ])
          ≡ ok j
        → (next_free av (suc i) left ≡ ok j → get_elem? av j ≡ some true)
        → get_elem? av j ≡ some true
    by_slot none e k f = cc
    by_slot (some true) e k f = let same : i ≡ j = cc in rw (sym same) e
    by_slot (some false) e k f = f k

module _ {V : Type 0} where
  take_next-IsSlotted :
      (r : String) (i end_idx : ℕ) (d : Dense V)
      → IsSlotted d
      → IsSlotted (take_next (has d.req2slot r) r i end_idx d).1
  unfolding take_next take_slot
  take_next-IsSlotted r i end_idx d h = by_known (get d.req2slot r) refl
    where
      by_found :
          (f : Result ℕ)
          → next_free d.slot_availability i (end_idx - i) ≡ f
          → get d.req2slot r ≡ none
          → IsSlotted ((lift f >>= λ found. modify (take_slot r found) >> pure (suc found)) d).1
      by_found (ok j) e n =
          take-Slots d.slot_availability d.hot_reqs d.req2slot r j h n
            (next_free-available d.slot_availability i (end_idx - i) e)
      by_found (raise x) e n = h

      by_known :
          (o : Option ℕ)
          → get d.req2slot r ≡ o
          → IsSlotted (take_next (elim o [ none ↦ false | some _ ↦ true ]) r i end_idx d).1
      by_known none e = by_found (next_free d.slot_availability i (end_idx - i)) refl e
      by_known (some j) e = h

  pub allocate-IsSlotted :
      (rs : List String) (i end_idx : ℕ) → Preserves IsSlotted (allocate {V = V} rs i end_idx)
  unfolding allocate take_next
  allocate-IsSlotted [] i end_idx d h = h
  allocate-IsSlotted (r ∷ rs) i end_idx d h =
      rest (take_next (has d.req2slot r) r i end_idx d).0
        (take_next (has d.req2slot r) r i end_idx d).1 (take_next-IsSlotted r i end_idx d h)
        (λ next. allocate-IsSlotted rs next end_idx)
    where
      rest :
          (f : Result ℕ) (e : Dense V)
          → IsSlotted e
          → ((next : ℕ) → Preserves IsSlotted (allocate {V = V} rs next end_idx))
          → IsSlotted (continue f (λ next. allocate rs next end_idx) e).1
      rest (ok next) e k g = g next e k
      rest (raise x) e k g = k

  check_view-IsSlotted :
      (req_ids : List String) (start_pos : ℕ)
      → Preserves IsSlotted (check_view {V = V} req_ids start_pos)
  check_view-IsSlotted req_ids start_pos d h =
      by_test (leb (start_pos + length req_ids) d.num_hot_req)
    where
      by_test :
          (b : Bool)
          → IsSlotted
              ((assert b assertion_error
                  >> modify (λ e. record e { prepared_cache = (start_pos, length req_ids) }))
                d).1
      by_test true = h
      by_test false = h

  -- A prefill of the dense cache keeps each slot with one request: the dictionary and the list of
  -- slots agree, and a slot is available exactly when nobody has it, also when the call raises.
  pub prepare_cache_prefill-IsSlotted :
      (req_ids : List String) (lens : List ℕ) (d : Dense V)
      → IsSlotted d
      → IsSlotted (prepare_cache_prefill req_ids lens d).1
  unfolding prepare_cache_prefill
  prepare_cache_prefill-IsSlotted req_ids lens d h =
      bind-Preserves IsSlotted (on_base (base_prepare_cache_prefill req_ids lens)) _ (λ e k. k)
        (λ u.
          bind-Preserves IsSlotted get_start_and_end_idx _ (λ e k. k)
            (λ range.
              bind-Preserves IsSlotted (allocate req_ids range.0 range.1) _
                (allocate-IsSlotted req_ids range.0 range.1)
                (λ v.
                  bind-Preserves IsSlotted (λ e. (first_slot req_ids e.req2slot, e)) _ (λ e k. k)
                    (λ start_pos. check_view-IsSlotted req_ids start_pos))))
        d h

get-replicate :
    (n i : ℕ) (r : String) → get_elem? (replicate {A = Option String} n none) i ≡ some (some r) → ⊥
get-replicate zero i r h = cc
get-replicate (suc n) zero r h = cc
get-replicate (suc n) (suc i) r h = get-replicate n i r h

map-replicate : (n : ℕ) → replicate n true ≡ map is_none (replicate n none)
map-replicate zero = refl
map-replicate (suc n) = ap (λ t. true ∷ t) (map-replicate n)

pub make-IsSlotted :
    {V : Type 0} (zeros : V) (base : Requests) (n : ℕ) (s : Option SlotHandle)
    → IsSlotted (make zeros base n s)
unfolding make get
make-IsSlotted zeros base n s = record {
  to_hot = λ r i h. cc;
  to_slot = λ r i h. absurd (get-replicate n i r h);
  once = tt;
  free = map-replicate n;
}
