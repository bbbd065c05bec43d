-- ===== src/Cache/Dense/Searches.antt =====
-- What the searches of `DenseKVCacheManager.finalize_cache_all_decode` find.
use chitu.Base.{
  ℕ, zero, suc, ◌+◌, ◌-◌, ◌<◌, ◌≡◌, leb, ltb, ◌&&◌, ◌||◌, refl, sym, ap, Bool, true, false, not,
  Option, none, some, String, List, [], ◌∷◌, map, nat_beq, if◌then◌else◌, arith, get_elem?, get_or,
  Dict, get, Distinct, Result, ok, raise, string_eq, ◌==◌, Bool-cases, inl, inr, ◌⊎◌, index_error,
  assertion_error,
}
use chitu.Cache.Slots.{SlotHandle}
use chitu.Cache.Dense.{
  is_request, shift_found, slot_of, key_of, end_of, last_taken, end_of_run, slot_last_id,
}
use chitu.Cache.Dense.Slotted.{is_none}

pub slot_of-get :
    (r : String) (hs : List (Option String)) (i : ℕ)
    → slot_of r hs ≡ some i
    → get_elem? hs i ≡ some (some r)
slot_of-get r [] i h = cc
slot_of-get r (x ∷ hs) i h = by_head (is_request r x) refl h (slot_of-get r hs)
  where
    same : (x : Option String) → is_request r x ≡ true → x ≡ some r
    same none e = cc
    same (some q) e = ap some (sym ((string_eq.beq_iff r q).0 e))

    later :
        (o : Option ℕ) {i : ℕ}
        → slot_of r hs ≡ o
        → shift_found o ≡ some i
        → ((j : ℕ) → slot_of r hs ≡ some j → get_elem? hs j ≡ some (some r))
        → get_elem? (x ∷ hs) i ≡ some (some r)
    later none e k f = cc
    later (some j) {i} e k f = let s : suc j ≡ i = cc in rw (sym s) (f j e)

    by_head :
        (b : Bool)
        → is_request r x ≡ b
        → (if b then some 0 else shift_found (slot_of r hs)) ≡ some i
        → ((j : ℕ) → slot_of r hs ≡ some j → get_elem? hs j ≡ some (some r))
        → get_elem? (x ∷ hs) i ≡ some (some r)
    by_head true e k f = let s : 0 ≡ i = cc in rw (sym s) (ap some (same x e))
    by_head false e k f = later (slot_of r hs) refl k f

pub slot_of-none :
    (r : String) (hs : List (Option String)) (i : ℕ)
    → slot_of r hs ≡ none
    → get_elem? hs i ≡ some (some r)
    → ⊥
slot_of-none r [] i h g = cc
slot_of-none r (x ∷ hs) i h g = by_head (is_request r x) refl h (λ j. slot_of-none r hs j) i g
  where
    deeper : (o : Option ℕ) → shift_found o ≡ none → o ≡ none
    deeper none e = refl
    deeper (some j) e = cc

    by_head :
        (b : Bool)
        → is_request r x ≡ b
        → (if b then some 0 else shift_found (slot_of r hs)) ≡ none
        → ((j : ℕ) → slot_of r hs ≡ none → get_elem? hs j ≡ some (some r) → ⊥)
        → (i : ℕ) → get_elem? (x ∷ hs) i ≡ some (some r)
        → ⊥
    by_head true e k f i g = cc
    by_head false e k f zero g =
        let s : x ≡ some r = cc in
        let t : is_request r x ≡ true = rw s ((string_eq.beq_iff r r).1 refl) in cc
    by_head false e k f (suc i) g = f i (deeper (slot_of r hs) k) g

-- What the search for the last slot finds is behind the slot and taken.
abbrev pub IsBehind : List Bool → ℕ → Option ℕ → Type 0
IsBehind av i none = Unit
IsBehind av i (some l) = (i < l) × (get_elem? av l ≡ some false)

abbrev pub FindsBehind : List Bool → ℕ → Result (Option ℕ) → Type 0
FindsBehind av i (ok o) = IsBehind av i o
FindsBehind av i (raise e) = Unit

last_taken-FindsBehind : (av : List Bool) (i n : ℕ) → FindsBehind av i (last_taken av i n)
last_taken-FindsBehind av i zero = tt
last_taken-FindsBehind av i (suc n) =
    by_slot (get_elem? av (i + suc n)) refl (last_taken-FindsBehind av i n)
  where
    by_slot :
        (o : Option Bool)
        → get_elem? av (i + suc n) ≡ o
        → FindsBehind av i (last_taken av i n)
        → FindsBehind av i (elim o [
          | none ↦ raise index_error
          | some free ↦ if free then last_taken av i n else ok (some (i + suc n))
        ])
    by_slot none e k = tt
    by_slot (some true) e k = k
    by_slot (some false) e k = (omega arith, e)

get_or-false : (av : List Bool) (i : ℕ) → get_or av i true ≡ false → get_elem? av i ≡ some false
get_or-false [] i h = cc
get_or-false (x ∷ av) zero h = ap some h
get_or-false (x ∷ av) (suc i) h = get_or-false av i h

end_of_run-IsBehind : (av : List Bool) (m i j n : ℕ) → i < j → IsBehind av i (end_of_run av m j n)
end_of_run-IsBehind av m i j zero h = tt
end_of_run-IsBehind av m i j (suc n) h =
    by_test (get_or av j true) refl (leb m (j + 1) || get_or av (j + 1) false)
      (end_of_run-IsBehind av m i (suc j) n (omega (arith, h)))
  where
    by_test :
        (b : Bool)
        → get_or av j true ≡ b
        → (c : Bool) → IsBehind av i (end_of_run av m (suc j) n)
        → IsBehind av i (if not b && c then some j else end_of_run av m (suc j) n)
    by_test true e c k = k
    by_test false e true k = (h, get_or-false av j e)
    by_test false e false k = k

pub slot_last_id-FindsBehind :
    (s : Option SlotHandle) (av : List Bool) (m i : ℕ) → FindsBehind av i (slot_last_id s av m i)
slot_last_id-FindsBehind none av m i =
    end_of_run-IsBehind av m i (i + 1) (m - (i + 1)) (omega arith)
slot_last_id-FindsBehind (some h) av m i = by_test (ltb i (end_of h.slot_end_idx i))
  where
    by_test :
        (b : Bool)
        → FindsBehind av i
            (if b then last_taken av i (end_of h.slot_end_idx i - 1 - i) else raise assertion_error)
    by_test true = last_taken-FindsBehind av i (end_of h.slot_end_idx i - 1 - i)
    by_test false = tt

pub taken-some :
    (hs : List (Option String)) (i : ℕ)
    → get_elem? (map is_none hs) i ≡ some false
    → (q : String) × (get_elem? hs i ≡ some (some q))
taken-some [] i h = cc
taken-some (none ∷ hs) zero h = cc
taken-some (some q ∷ hs) zero h = (q, refl)
taken-some (x ∷ hs) (suc i) h = taken-some hs i h

pub key_of-get :
    (d : Dict String ℕ) (q : String) (l : ℕ)
    → Distinct d
    → get d q ≡ some l
    → (k : String) × (key_of d l ≡ some k) × (get d k ≡ some l)
unfolding get
key_of-get [] q l h g = cc
key_of-get ((k, v) ∷ d) q l h g = by_value (Bool-cases (nat_beq v l)) (key_of-get d q l h.1)
  where
    by_value :
        (nat_beq v l ≡ true) ⊎ (nat_beq v l ≡ false)
        → (get d q ≡ some l → (k : String) × (key_of d l ≡ some k) × (get d k ≡ some l))
        → (x : String) × (key_of ((k, v) ∷ d) l ≡ some x) × (get ((k, v) ∷ d) x ≡ some l)
    by_value (inl e) f =
        let s : k == k ≡ true = (string_eq.beq_iff k k).1 refl in
        let same : v ≡ l = ground (arith, e) in rw e (k, refl, rw s (ap some same))
    by_value (inr e) f = rw e (skip (f (tail (Bool-cases (k == q)) g)))
      where
        tail :
            (k == q ≡ true) ⊎ (k == q ≡ false)
            → (if k == q then some v else get d q) ≡ some l
            → get d q ≡ some l
        tail (inl s) m =
            let n : some v ≡ some l = rw s at m in
            let same : v ≡ l = cc in absurd (ground (arith, e, same))
        tail (inr s) m = rw s at m

        skip :
            (x : String) × (key_of d l ≡ some x) × (get d x ≡ some l)
            → (x : String) × (key_of d l ≡ some x) × ((if k == x then some v else get d x) ≡ some l)
        skip (x, a, b) = elim (Bool-cases (k == x)) [
          | inl s ↦ absurd (clash (get d k) h.0 (rw ((string_eq.beq_iff k x).0 s) b))
          | inr s ↦ (x, a, rw s b)
        ]
          where
            clash :
                (o : Option ℕ) → (elim o [ none ↦ false | some _ ↦ true ]) ≡ false → o ≡ some l → ⊥
            clash none a b = cc
            clash (some y) a b = cc
