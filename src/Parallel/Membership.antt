-- ===== src/Parallel/Membership.antt =====
-- Where a rank stands in lists that hold it once.
use chitu.Base.{
  ℕ, zero, suc, ◌≤◌, ◌≡◌, ◌⊎◌, refl, sym, ap, true, false, List, [], ◌∷◌, map, nat_beq, arith,
  get_elem?, some, ok, count, Bool-cases, inl, inr,
}
use chitu.Parallel.Blocks.{count_in}
use chitu.Parallel.CommGroup.{holds, count_true, index_true, index_of, this_rank_idx}

zero-or-positive : (n : ℕ) → (n ≡ 0) ⊎ (1 ≤ n)
zero-or-positive zero = inl refl
zero-or-positive (suc n) = inr (omega arith)

some-injective {ℓ} : {A : Type ℓ} {x y : A} → some x ≡ some y → x ≡ y
some-injective h = cc

pub count_of-get : (r : ℕ) (l : List ℕ) (p : ℕ) → get_elem? l p ≡ some r → 1 ≤ count r l
count_of-get r [] p h = cc
count_of-get r (x ∷ xs) zero h = ground arith
count_of-get r (x ∷ xs) (suc p) h = ground (arith, count_of-get r xs p h)

get_of-count : (r : ℕ) (l : List ℕ) → 1 ≤ count r l → (p : ℕ) × (get_elem? l p ≡ some r)
get_of-count r [] h = absurd (omega (arith, h))
get_of-count r (x ∷ xs) h = elim (Bool-cases (nat_beq r x)) [
  | inl e ↦ (0, ap some (ground (arith, e)))
  | inr e ↦ (let (p, g) = get_of-count r xs (ground (arith, e, h)) in (suc p, g))
]

holds-count : (r : ℕ) (l : List ℕ) → 1 ≤ count r l → holds r l ≡ true
holds-count r [] h = absurd (omega (arith, h))
holds-count r (x ∷ xs) h = ground (arith, holds-count r xs)

not_holds-count : (r : ℕ) (l : List ℕ) → count r l ≡ 0 → holds r l ≡ false
not_holds-count r [] h = refl
not_holds-count r (x ∷ xs) h = ground (arith, not_holds-count r xs)

pub index_of_unique :
    (r : ℕ) (l : List ℕ) (p : ℕ) → get_elem? l p ≡ some r → count r l ≡ 1 → index_of r l ≡ ok p
index_of_unique r [] p h u = cc
index_of_unique r (x ∷ xs) zero h u = let e : nat_beq r x ≡ true = ground arith in rw e refl
index_of_unique r (x ∷ xs) (suc p) h u =
    let e : nat_beq r x ≡ false = ground (arith, count_of-get r xs p h) in
    rw (e, index_of_unique r xs p h (ground (arith, e, u))) refl

pub find_list :
    (r : ℕ) (ls : List (List ℕ))
    → 1 ≤ count_in r ls
    → (i : ℕ) × (l : List ℕ) × (get_elem? ls i ≡ some l) × (1 ≤ count r l)
find_list r [] h = absurd (omega (arith, h))
find_list r (l ∷ ls) h = elim (zero-or-positive (count r l)) [
  | inl e ↦ (let (i, m, g, c) = find_list r ls (omega (arith, e, h)) in (suc i, m, g, c))
  | inr c ↦ (0, l, refl, c)
]

pub count_in-get :
    (r : ℕ) (ls : List (List ℕ)) (i : ℕ) {l : List ℕ}
    → get_elem? ls i ≡ some l
    → count r l ≤ count_in r ls
count_in-get r [] i h = cc
count_in-get r (l ∷ ls) zero {l = m} h = rw (sym (some-injective h)) (omega arith)
count_in-get r (l ∷ ls) (suc i) h = omega (arith, count_in-get r ls i h)

count_true_none :
    (r : ℕ) (ls : List (List ℕ)) → count_in r ls ≡ 0 → count_true (map (holds r) ls) ≡ 0
count_true_none r [] h = refl
count_true_none r (l ∷ ls) h =
    rw (not_holds-count r l (omega (arith, h)), count_true_none r ls (omega (arith, h))) refl

count_true_once :
    (r : ℕ) (ls : List (List ℕ)) → count_in r ls ≡ 1 → count_true (map (holds r) ls) ≡ 1
count_true_once r [] h = absurd (omega (arith, h))
count_true_once r (l ∷ ls) h = elim (zero-or-positive (count r l)) [
  | inl e ↦ rw (not_holds-count r l e, count_true_once r ls (omega (arith, e, h))) refl
  | inr c ↦ rw (holds-count r l c, count_true_none r ls (omega (arith, c, h))) refl
]

index_true_once :
    (r : ℕ) (ls : List (List ℕ)) (i : ℕ) {l : List ℕ}
    → get_elem? ls i ≡ some l
    → 1 ≤ count r l
    → count_in r ls ≡ 1
    → index_true (map (holds r) ls) ≡ ok i
index_true_once r [] i h c u = cc
index_true_once r (l ∷ ls) zero {l = m} h c u =
    let c' : 1 ≤ count r l = rw (some-injective h) c in rw (holds-count r l c') refl
index_true_once r (l ∷ ls) (suc i) h c u =
    let z : count r l ≡ 0 = omega (arith, count_in-get r ls i h, c, u) in
    let u' : count_in r ls ≡ 1 = omega (arith, z, u) in
    rw (not_holds-count r l z, index_true_once r ls i h c u') refl

pub this_rank_idx_once :
    (r : ℕ) (ls : List (List ℕ)) (i : ℕ) {l : List ℕ}
    → get_elem? ls i ≡ some l
    → 1 ≤ count r l
    → count_in r ls ≡ 1
    → this_rank_idx ls r ≡ ok i
unfolding this_rank_idx
this_rank_idx_once r ls i h c u = rw (count_true_once r ls u, index_true_once r ls i h c u) refl

-- Where a rank that stands once in the lists is.
pub record Placed (r : ℕ) (ls : List (List ℕ)) : Type 0 where
  pub idx : ℕ
  pub members : List ℕ
  pub place : ℕ
  pub at_idx : get_elem? ls idx ≡ some members
  pub at_place : get_elem? members place ≡ some r
  pub once : count r members ≡ 1

pub count_in-Placed : (r : ℕ) (ls : List (List ℕ)) → count_in r ls ≡ 1 → Placed r ls
count_in-Placed r ls u =
    let (i, l, g, c) = find_list r ls (omega (arith, u)) in
    let (p, h) = get_of-count r l c in
    record {
      idx = i;
      members = l;
      place = p;
      at_idx = g;
      at_place = h;
      once = omega (arith, count_in-get r ls i g, c, u);
    }
