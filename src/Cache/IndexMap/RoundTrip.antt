-- ===== src/Cache/IndexMap/RoundTrip.antt =====
-- The two directions of a `GlobalLocalMap`, in both modes.
use chitu.Base.{
  ℕ, zero, suc, ◌+◌, ◌-◌, ◌≤◌, ◌<◌, ◌≡◌, refl, ◌↔◌, ◌⊎◌, inl, inr, true, false, Option, none, some,
  List, [], ◌∷◌, arith, Dict, get, put, get-put, length, get_elem?, ok, nat_eq, Bool-cases,
  Option-cases,
}
use chitu.Cache.IndexMap.{
  IndexMap, range_mode, list_mode, member, dedup, enumerate_into, make, to_local, to_global, size,
  contains,
}

abbrev NoDup : List ℕ → Type 0
NoDup [] = Unit
NoDup (x ∷ xs) = (member x xs ≡ false) × NoDup xs

length-dedup-le : (xs : List ℕ) → length (dedup xs) ≤ length xs
unfolding dedup
length-dedup-le [] = omega arith
length-dedup-le (x ∷ xs) = ground (arith, length-dedup-le xs)

-- The constructor's test on the lengths.
NoDup-of_length : (xs : List ℕ) → length (dedup xs) ≡ length xs → NoDup xs
unfolding dedup
NoDup-of_length [] h = tt
NoDup-of_length (x ∷ xs) h = elim (Bool-cases (member x xs)) [
  | inl e ↦ absurd (ground (arith, length-dedup-le xs))
  | inr e ↦ (e, NoDup-of_length xs (ground arith))
]

not-member : (g : ℕ) (xs : List ℕ) (k : ℕ) → member g xs ≡ false → get_elem? xs k ≡ some g → ⊥
not-member g [] k h e = cc
not-member g (x ∷ xs) zero h e = ground arith
not-member g (x ∷ xs) (suc k) h e = not-member g xs k (ground arith) e

enumerate-absent :
    (g i : ℕ) (gs : List ℕ) (m : Dict ℕ ℕ)
    → member g gs ≡ false
    → get (enumerate_into i gs m) g ≡ get m g
unfolding enumerate_into
enumerate-absent g i [] m h = refl
enumerate-absent g i (x ∷ gs) m h =
    ground (arith, enumerate-absent g (suc i) gs (put m x i), get-put m x g i)

enumerate-present :
    (g i k : ℕ) (gs : List ℕ) (m : Dict ℕ ℕ)
    → NoDup gs
    → get_elem? gs k ≡ some g
    → get (enumerate_into i gs m) g ≡ some (i + k)
unfolding enumerate_into
enumerate-present g i k [] m d e = cc
enumerate-present g i zero (x ∷ gs) m d e =
    ground (arith, enumerate-absent g (suc i) gs (put m x i), get-put m x g i)
enumerate-present g i (suc k) (x ∷ gs) m d e =
    ground (arith, enumerate-present g (suc i) k gs (put m x i) d.1 e)

-- Every entry of the dictionary comes from the list.
enumerate_sound :
    (g i j : ℕ) (gs : List ℕ) (m : Dict ℕ ℕ)
    → get (enumerate_into i gs m) g ≡ some j
    → (get m g ≡ some j) ⊎ ((k : ℕ) × (j ≡ i + k) × (get_elem? gs k ≡ some g))
unfolding enumerate_into
enumerate_sound g i j [] m e = inl e
enumerate_sound g i j (x ∷ gs) m e = step (enumerate_sound g (suc i) j gs (put m x i) e)
  where
    step :
        (get (put m x i) g ≡ some j) ⊎ ((k : ℕ) × (j ≡ suc i + k) × (get_elem? gs k ≡ some g))
        → (get m g ≡ some j) ⊎ ((k : ℕ) × (j ≡ i + k) × (get_elem? (x ∷ gs) k ≡ some g))
    step (inl h) = elim (Bool-cases (nat_eq.beq x g)) [
      | inl q ↦ inr (0, ground (arith, get-put m x g i), ground arith)
      | inr q ↦ inl (ground (arith, get-put m x g i))
    ]
    step (inr (k, p, q)) = inr (suc k, omega arith, q)

get_elem?-lt : (xs : List ℕ) (k g : ℕ) → get_elem? xs k ≡ some g → k < length xs
get_elem?-lt [] k g e = cc
get_elem?-lt (x ∷ xs) zero g e = omega arith
get_elem?-lt (x ∷ xs) (suc k) g e = omega (arith, get_elem?-lt xs k g e)

abbrev Inverse : IndexMap → ℕ → ℕ → Type 0
Inverse m i g = (to_global m i ≡ ok g) ↔ (to_local m g ≡ ok i)

list-Inverse :
    (lst : List ℕ) (i g : ℕ) → NoDup lst → Inverse (list_mode lst (enumerate_into 0 lst [])) i g
unfolding to_global to_local get
list-Inverse lst i g d = (forth, back)
  where
    forth :
        to_global (list_mode lst (enumerate_into 0 lst [])) i ≡ ok g
        → to_local (list_mode lst (enumerate_into 0 lst [])) g ≡ ok i
    forth h = ground (arith, enumerate-present g 0 i lst [] d)

    found :
        (get {V = ℕ} [] g ≡ some i) ⊎ ((k : ℕ) × (i ≡ 0 + k) × (get_elem? lst k ≡ some g))
        → get_elem? lst i ≡ some g
    found (inl h) = cc
    found (inr (k, p, q)) = let e : i ≡ k = omega arith in rw e q

    back :
        to_local (list_mode lst (enumerate_into 0 lst [])) g ≡ ok i
        → to_global (list_mode lst (enumerate_into 0 lst [])) i ≡ ok g
    back h =
        let e : get_elem? lst i ≡ some g = found (enumerate_sound g 0 i lst [] (ground arith)) in
        ground (arith, e, get_elem?-lt lst i g e)

range-Inverse : (b e i g : ℕ) → b ≤ e → Inverse (range_mode b e) i g
unfolding to_global to_local
range-Inverse b e i g h = (λ p. ground arith, λ p. ground arith)

-- Whatever map the constructor accepts, a local offset stands for a global index exactly when that
-- index is converted back to the offset.
pub to_global-to_local :
    (b e : Option ℕ) (l : Option (List ℕ)) (m : IndexMap) (i g : ℕ)
    → make b e l ≡ ok m
    → (to_global m i ≡ ok g) ↔ (to_local m g ≡ ok i)
unfolding make
to_global-to_local (some b) (some e) none m i g h =
    let q : m ≡ range_mode b e = ground arith in rw q (range-Inverse b e i g (ground arith))
to_global-to_local none none (some l) m i g h =
    let q : m ≡ list_mode l (enumerate_into 0 l []) = ground arith in
    rw q (list-Inverse l i g (NoDup-of_length l (ground arith)))
to_global-to_local (some b) _ (some l) m i g h = cc
to_global-to_local none (some e) (some l) m i g h = cc
to_global-to_local _ _ none m i g h = cc

get_elem?-total : (xs : List ℕ) (k : ℕ) → k < length xs → (g : ℕ) × (get_elem? xs k ≡ some g)
get_elem?-total [] k h = absurd (omega arith)
get_elem?-total (x ∷ xs) zero h = (x, refl)
get_elem?-total (x ∷ xs) (suc k) h = get_elem?-total xs k (omega arith)

list-to_local :
    (lst : List ℕ) (d : Dict ℕ ℕ) (g : ℕ)
    → (contains (list_mode lst d) g ≡ true) ↔ ((j : ℕ) × (to_local (list_mode lst d) g ≡ ok j))
unfolding contains to_local
list-to_local lst d g = elim (Option-cases (get d g)) [
  | inl e ↦ (λ h. ground arith, λ p. let q = p.1 in ground arith)
  | inr (j, e) ↦ (λ h. (j, ground arith), λ p. ground arith)
]

list-to_global :
    (lst : List ℕ) (d : Dict ℕ ℕ) (i : ℕ)
    → (i < size (list_mode lst d)) ↔ ((g : ℕ) × (to_global (list_mode lst d) i ≡ ok g))
unfolding size to_global
list-to_global lst d i = (
  λ h. let (g, e) = get_elem?-total lst i h in (g, ground arith),
  λ p. let q = p.1 in ground arith,
)

-- For every map: a global index converts without an error exactly when the map contains it, and a
-- local offset exactly when it is below the size.
pub conversions_defined :
    (m : IndexMap) (i g : ℕ)
    → ((contains m g ≡ true) ↔ ((j : ℕ) × (to_local m g ≡ ok j)))
      × ((i < size m) ↔ ((j : ℕ) × (to_global m i ≡ ok j)))
unfolding contains to_local size to_global
conversions_defined (list_mode lst d) i g = (list-to_local lst d g, list-to_global lst d i)
conversions_defined (range_mode b e) i g = (
  (λ h. (g - b, ground arith), λ p. let q = p.1 in ground arith),
  (λ h. (b + i, ground arith), λ p. let q = p.1 in ground arith),
)
