-- ===== src/Parallel/Layers.antt =====
-- chitu/utils.py: how many layers of the model each stage of the pipeline gets.
use native.Mathlib.Nat.{zero-mul, suc-mul, div-add-mod', mod-lt, mul_comm}
use chitu.Base.{
  ℕ, zero, suc, ◌+◌, ◌-◌, ◌*◌, ◌/◌, ◌%◌, ◌≤◌, ◌<◌, ◌≡◌, refl, ◌&&◌, List, [], ◌∷◌, map, nat_beq,
  ltb, if◌then◌else◌, arith, length, length-map, length-set, length-range_from, get_or, set, sum,
  range_from, Option, some, none, Result, ok, raise, assertion_error, All, Bool-cases, inl, inr,
  min,
}

-- What rank i gets before the correction, with q layers for each and one more for the first r.
abbrev pub share : ℕ → ℕ → ℕ → ℕ
share q r i = q + (if ltb i r then 1 else 0)

abbrev pub move_layer : List ℕ → ℕ → List ℕ
move_layer xs second_last =
    set (set xs 0 (get_or xs 0 0 - 1)) second_last
      (get_or (set xs 0 (get_or xs 0 0 - 1)) second_last 0 + 1)

-- The first rank gives a layer to the last but one, when there is one and it has less.
abbrev pub lighten : List ℕ → ℕ → List ℕ
lighten xs world_size =
    if ltb 2 world_size && ltb (get_or xs (world_size - 2) 0) (get_or xs 0 0)
    then move_layer xs (world_size - 2)
    else xs

-- compute_layer_dist_in_pipe(num_layers, world_size), with the options `pp_layer_partition` and
-- `n_layers` that it reads
unfoldable pub compute_layer_dist_in_pipe : Option (List ℕ) → ℕ → ℕ → ℕ → Result (List ℕ)
compute_layer_dist_in_pipe (some partition) n_layers num_layers world_size =
    if nat_beq (length partition) world_size && nat_beq (sum partition) n_layers
    then ok partition
    else raise assertion_error
compute_layer_dist_in_pipe none n_layers num_layers world_size = ok (
    lighten
      (map (share (num_layers / world_size) (num_layers % world_size)) (range_from 0 world_size))
      world_size)

sum-share : (q r a k : ℕ) → sum (map (share q r) (range_from a k)) + min a r ≡ k * q + min (a + k) r
sum-share q r a zero = rw (zero-mul q) (omega arith)
sum-share q r a (suc k) = rw (suc-mul k q) (ground (arith, sum-share q r (suc a) k))

sum-set : (xs : List ℕ) (i v : ℕ) → i < length xs → sum (set xs i v) + get_or xs i 0 ≡ sum xs + v
sum-set [] i v h = absurd (omega (arith, h))
sum-set (x ∷ xs) zero v h = omega arith
sum-set (x ∷ xs) (suc i) v h = omega (arith, sum-set xs i v (omega (arith, h)))

get_or-set_ne : (xs : List ℕ) (i v : ℕ) → 0 < i → get_or (set xs 0 v) i 0 ≡ get_or xs i 0
get_or-set_ne [] i v h = refl
get_or-set_ne (x ∷ xs) zero v h = absurd (omega (arith, h))
get_or-set_ne (x ∷ xs) (suc i) v h = refl

abbrev pub Near : ℕ → ℕ → Type 0
Near q x = (q ≤ x) × (x ≤ q + 1)

All-share : (q r : ℕ) (is : List ℕ) → All (Near q) (map (share q r) is)
All-share q r [] = tt
All-share q r (i ∷ is) = (ground arith, All-share q r is)

All-set : (q : ℕ) (xs : List ℕ) (i v : ℕ) → All (Near q) xs → Near q v → All (Near q) (set xs i v)
All-set q [] i v h k = tt
All-set q (x ∷ xs) zero v h k = (k, h.1)
All-set q (x ∷ xs) (suc i) v h k = (h.0, All-set q xs i v h.1 k)

All-get_or :
    (q : ℕ) (xs : List ℕ) (i : ℕ) → i < length xs → All (Near q) xs → Near q (get_or xs i 0)
All-get_or q [] i h k = absurd (omega (arith, h))
All-get_or q (x ∷ xs) zero h k = k.0
All-get_or q (x ∷ xs) (suc i) h k = All-get_or q xs i (omega (arith, h)) k.1

-- What a distribution of `n` layers over `w` ranks is: all layers, and no rank far from the average.
abbrev pub IsEven : ℕ → ℕ → ℕ → List ℕ → Type 0
IsEven q n w xs = (length xs ≡ w) × (sum xs ≡ n) × All (Near q) xs

lighten-IsEven : (q n w : ℕ) (xs : List ℕ) → IsEven q n w xs → IsEven q n w (lighten xs w)
lighten-IsEven q n w xs h =
    elim (Bool-cases (ltb 2 w && ltb (get_or xs (w - 2) 0) (get_or xs 0 0))) [
      | inl e ↦ rw e (moved (ground (arith, e)) (ground (arith, e)))
      | inr e ↦ rw e h
    ]
  where
    moved : 2 < w → get_or xs (w - 2) 0 < get_or xs 0 0 → IsEven q n w (move_layer xs (w - 2))
    moved a b =
        let first = All-get_or q xs 0 (omega (arith, a, h.0)) h.2 in
        let other = All-get_or q xs (w - 2) (omega (arith, a, h.0)) h.2 in
        let ys = set xs 0 (get_or xs 0 0 - 1) in
        let same : get_or ys (w - 2) 0 ≡ get_or xs (w - 2) 0 =
          get_or-set_ne xs (w - 2) (get_or xs 0 0 - 1) (omega (arith, a)) in
        let len : length ys ≡ w = rw (length-set xs 0 (get_or xs 0 0 - 1)) h.0 in
        let s1 : sum ys + get_or xs 0 0 ≡ sum xs + (get_or xs 0 0 - 1) =
          sum-set xs 0 (get_or xs 0 0 - 1) (omega (arith, a, h.0)) in
        let s2 : sum (set ys (w - 2) (get_or ys (w - 2) 0 + 1)) + get_or ys (w - 2) 0
            ≡ sum ys + (get_or ys (w - 2) 0 + 1) =
          sum-set ys (w - 2) (get_or ys (w - 2) 0 + 1) (omega (arith, a, len)) in
        let near : All (Near q) ys =
          All-set q xs 0 (get_or xs 0 0 - 1) h.2
            (omega (arith, b, first, other), omega (arith, first)) in
        (
          rw (length-set ys (w - 2) (get_or ys (w - 2) 0 + 1)) len,
          omega (arith, s1, s2, h.1, b),
          All-set q ys (w - 2) (get_or ys (w - 2) 0 + 1) near
              (omega (arith, same, other), omega (arith, same, b, first, other)),
        )

abbrev pub IsEvenResult : ℕ → ℕ → ℕ → Result (List ℕ) → Type 0
IsEvenResult q n w (ok xs) = IsEven q n w xs
IsEvenResult q n w (raise e) = ⊥

-- Without a partition in the options and for at least one rank, the function returns one share for
-- each rank, the shares sum to the number of layers, and each share is the rounded-down average
-- or one more, also after the first rank has given a layer away.
pub compute_layer_dist_in_pipe-IsEven :
    (n_layers num_layers world_size : ℕ)
    → 0 < world_size
    → IsEvenResult
        (num_layers / world_size)
        num_layers
        world_size
        (compute_layer_dist_in_pipe none n_layers num_layers world_size)
unfolding compute_layer_dist_in_pipe
compute_layer_dist_in_pipe-IsEven n_layers n w h =
    lighten-IsEven q n w shares (same_length, total, All-share q r (range_from 0 w))
  where
    q : ℕ
    q = n / w

    r : ℕ
    r = n % w

    shares : List ℕ
    shares = map (share q r) (range_from 0 w)

    same_length : length shares ≡ w
    same_length = rw (length-map (range_from 0 w) (share q r)) (length-range_from 0 w)

    total : sum shares ≡ n
    total =
        let s : sum shares + min 0 r ≡ w * q + min (0 + w) r = sum-share q r 0 w in
        let d : q * w + r ≡ n = div-add-mod' n w in
        let b : r < w = mod-lt n h in
        let c : w * q ≡ q * w = mul_comm w q in omega (arith, s, d, b, c)
