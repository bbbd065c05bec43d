-- ===== src/Parallel/Blocks.antt =====
-- Counting a rank in the lists of parallel_state.py: consecutive blocks, and lists that step through one.
use native.Mathlib.Nat.{add-zero, zero-mul, suc-mul, suc-mul, mul-add-div, div-eq_of_lt}
use chitu.Base.{
  ℕ, zero, suc, ◌+◌, ◌-◌, ◌*◌, ◌/◌, ◌<◌, ◌≡◌, refl, sym, ap, List, [], ◌∷◌, ◌++◌, map,
  if◌then◌else◌, arith, range_from, ltb, leb, count, ◌&&◌,
}
use chitu.Parallel.RankLists.{steps, range_by, flat_map}

-- How often a rank stands in lists of ranks.
abbrev pub count_in : ℕ → List (List ℕ) → ℕ
count_in r [] = 0
count_in r (l ∷ ls) = count r l + count_in r ls

abbrev pub inside : ℕ → ℕ → ℕ → ℕ
inside r lo hi = if leb lo r && ltb r hi then 1 else 0

pub count_in-append :
    (r : ℕ) (xs ys : List (List ℕ)) → count_in r (xs ++ ys) ≡ count_in r xs + count_in r ys
count_in-append r [] ys = omega arith
count_in-append r (x ∷ xs) ys = omega (arith, count_in-append r xs ys)

pub count-steps_one : (r lo n : ℕ) → count r (steps lo 1 n) ≡ inside r lo (lo + n)
unfolding steps
count-steps_one r lo zero = ground arith
count-steps_one r lo (suc n) = ground (arith, count-steps_one r (lo + 1) n)

-- The lists that start at the numbers from `a` on.
abbrev pub starting : ℕ → ℕ → ℕ → List ℕ → List (List ℕ)
starting base f s [] = []
starting base f s (j ∷ js) = steps (base + j) f s ∷ starting base f s js

count-offset :
    (r base a n : ℕ)
    → count r (map (λ j. base + j) (range_from a n)) ≡ inside r (base + a) (base + a + n)
count-offset r base a zero = ground arith
count-offset r base a (suc n) = ground (arith, count-offset r base (suc a) n)

count_in-starting-suc :
    (r base f s : ℕ) (js : List ℕ)
    → count_in r (starting base f (suc s) js)
      ≡ count r (map (λ j. base + j) js) + count_in r (starting (base + f) f s js)
unfolding steps
count_in-starting-suc r base f s [] = refl
count_in-starting-suc r base f s (j ∷ js) =
    let e : base + j + f ≡ base + f + j = omega arith in
    rw (e, count_in-starting-suc r base f s js) (omega arith)

count_in-starting_zero : (r base f : ℕ) (js : List ℕ) → count_in r (starting base f 0 js) ≡ 0
unfolding steps
count_in-starting_zero r base f [] = refl
count_in-starting_zero r base f (j ∷ js) = omega (arith, count_in-starting_zero r base f js)

pub inside-append :
    (r a b c : ℕ) → inside r a (a + b) + inside r (a + b) (a + b + c) ≡ inside r a (a + b + c)
inside-append r a b c = ground arith

inside-empty : (r a : ℕ) → inside r a (a + 0) ≡ 0
inside-empty r a = ground arith

pub count_in-block :
    (r base f s : ℕ)
    → count_in r (starting base f s (range_from 0 f)) ≡ inside r base (base + s * f)
count_in-block r base f zero =
    rw (count_in-starting_zero r base f (range_from 0 f), zero-mul f) (sym (inside-empty r base))
count_in-block r base f (suc s) =
    rw
      (
        count_in-starting-suc r base f s (range_from 0 f),
        count_in-block r (base + f) f s,
        count-offset r base 0 f,
        add-zero base,
        suc-mul s f,
      )
      (let e : base + (s * f + f) ≡ base + f + s * f = omega arith in
        rw e (inside-append r base f (s * f)))

-- A range whose length the step divides.
pub range_by-steps :
    (lo f s : ℕ) {hi : ℕ} → 0 < f → hi ≡ lo + f * s → range_by lo hi f ≡ steps lo f s
unfolding range_by
range_by-steps lo f s {hi} h e = ap (steps lo f) enough
  where
    numerator : hi - lo + f - 1 ≡ f * s + (f - 1)
    numerator = rw e (omega arith)

    enough : (hi - lo + f - 1) / f ≡ s
    enough =
        rw (numerator, mul-add-div h s (f - 1), div-eq_of_lt {n = f - 1} {m = f} (omega arith))
          (add-zero s)

-- Lists for consecutive blocks of `b` ranks each.
pub count_in-flat_map :
    (r b : ℕ) (lists : ℕ → List (List ℕ))
    → ((i : ℕ) → count_in r (lists i) ≡ inside r (i * b) (i * b + b))
    → (a k : ℕ) → count_in r (flat_map lists (range_from a k)) ≡ inside r (a * b) (a * b + k * b)
count_in-flat_map r b lists h a zero = rw (zero-mul b) (sym (inside-empty r (a * b)))
count_in-flat_map r b lists h a (suc k) =
    rw
      (
        count_in-append r (lists a) (flat_map lists (range_from (suc a) k)),
        h a,
        count_in-flat_map r b lists h (suc a) k,
        suc-mul a b,
        suc-mul k b,
      )
      (let e : a * b + (k * b + b) ≡ a * b + b + k * b = omega arith in
        rw e (inside-append r (a * b) b (k * b)))

pub map-flat_map : (f : ℕ → List ℕ) (xs : List ℕ) → map f xs ≡ flat_map (λ i. f i ∷ []) xs
map-flat_map f [] = refl
map-flat_map f (x ∷ xs) = ap (λ t. f x ∷ t) (map-flat_map f xs)
