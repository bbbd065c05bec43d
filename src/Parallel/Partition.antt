-- ===== src/Parallel/Partition.antt =====
-- Which ranks the lists of parallel_state.py hold.
use native.Mathlib.Nat.{
  zero-add, add-mul, mul-pos, mul-div_cancel, zero-mul, one-mul, mul_comm, mul_assoc, mul-mod_left,
}
use chitu.Base.{
  ℕ, zero, suc, ◌+◌, ◌*◌, ◌<◌, ◌≡◌, refl, sym, List, [], ◌∷◌, map, if◌then◌else◌, arith, range_from,
  Result, ok, raise, ltb,
}
use chitu.Parallel.RankLists.{
  steps, range_by, second_level_block, get_first_level_rank_lists, get_second_level_rank_lists,
  get_last_level_rank_lists, if_divides, get_tp_rank_lists, get_dp_rank_lists, get_etp_rank_lists,
  get_ep_rank_lists, get_pp_rank_lists,
}
use chitu.Parallel.Blocks.{
  count_in, inside, count-steps_one, starting, count_in-block, range_by-steps, count_in-flat_map,
  map-flat_map,
}

-- The lists hold the ranks below `world_size` once each.
abbrev pub IsPartitionAt : ℕ → ℕ → Result (List (List ℕ)) → Type 0
IsPartitionAt r world_size (ok lists) = count_in r lists ≡ (if ltb r world_size then 1 else 0)
IsPartitionAt r world_size (raise e) = ⊥

inside-below : (r hi : ℕ) → inside r 0 hi ≡ (if ltb r hi then 1 else 0)
inside-below r hi = ground arith

if_divides-ok : (k n : ℕ) (lists : List (List ℕ)) → 0 < n → if_divides n (k * n) lists ≡ ok lists
if_divides-ok k zero lists h = elim h [ ]
if_divides-ok k (suc n) lists h = rw (mul-mod_left k (suc n)) refl

block_end : (i n : ℕ) → (i + 1) * n ≡ i * n + n
block_end i n = rw (add-mul i 1 n, one-mul n) refl

pub first_level-IsPartition :
    (size k r : ℕ)
    → 0 < size
    → IsPartitionAt r (k * size) (get_first_level_rank_lists size (k * size))
unfolding get_first_level_rank_lists
first_level-IsPartition size k r h =
    rw
      (
        if_divides-ok k size _ h,
        mul-div_cancel k h,
        map-flat_map,
        count_in-flat_map r size _ each 0 k,
        zero-mul size,
        zero-add (k * size),
      )
      (inside-below r (k * size))
  where
    consecutive : (i : ℕ) → range_by (i * size) ((i + 1) * size) 1 ≡ steps (i * size) 1 size
    consecutive i =
        range_by-steps (i * size) 1 size (omega arith) (rw (block_end i size, one-mul size) refl)

    each :
        (i : ℕ)
        → count_in r (range_by (i * size) ((i + 1) * size) 1 ∷ [])
          ≡ inside r (i * size) (i * size + size)
    each i = rw (consecutive i, count-steps_one r (i * size) size) (omega arith)

-- One block of the second level: the lists start one after another and go on in steps of `f`.
block-starting :
    (f s i : ℕ) (js : List ℕ)
    → 0 < f
    → map (λ j. range_by (i * f * s + j) ((i + 1) * f * s + j) f) js ≡ starting (i * f * s) f s js
block-starting f s i [] h = refl
block-starting f s i (j ∷ js) h = rw (this, block-starting f s i js h) refl
  where
    shift : (i + 1) * f * s + j ≡ i * f * s + j + f * s
    shift = rw (block_end i f, add-mul (i * f) f s) (omega arith)

    this : range_by (i * f * s + j) ((i + 1) * f * s + j) f ≡ steps (i * f * s + j) f s
    this = range_by-steps (i * f * s + j) f s h shift

pub second_level-IsPartition :
    (f s k r : ℕ)
    → 0 < f
    → 0 < s
    → IsPartitionAt r (k * (f * s)) (get_second_level_rank_lists f s (k * (f * s)))
unfolding get_second_level_rank_lists
second_level-IsPartition f s k r hf hs =
    rw
      (
        if_divides-ok k (f * s) _ size_pos,
        mul-div_cancel k size_pos,
        count_in-flat_map r (f * s) _ each 0 k,
        zero-mul (f * s),
        zero-add (k * (f * s)),
      )
      (inside-below r (k * (f * s)))
  where
    size_pos : 0 < f * s
    size_pos = mul-pos hf hs

    each :
        (i : ℕ)
        → count_in r (second_level_block f s i) ≡ inside r (i * (f * s)) (i * (f * s) + f * s)
    each i =
        rw
          (
            block-starting f s i (range_from 0 f) hf,
            count_in-block r (i * f * s) f s,
            mul_assoc i f s,
            mul_comm s f,
          )
          refl

pub last_level-IsPartition :
    (l k r : ℕ) → 0 < l → 0 < k → IsPartitionAt r (k * l) (get_last_level_rank_lists l (k * l))
unfolding get_last_level_rank_lists
last_level-IsPartition l k r hl hk =
    rw
      (
        if_divides-ok k l _ hl,
        mul-div_cancel k hl,
        every (range_from 0 k),
        count_in-block r 0 k l,
        zero-add (l * k),
        mul_comm l k,
      )
      (inside-below r (k * l))
  where
    every : (is : List ℕ) → map (λ i. range_by i (i + k * l) k) is ≡ starting 0 k l is
    every [] = refl
    every (i ∷ is) = rw (range_by-steps i k l {hi = i + k * l} hk refl, every is, zero-add i) refl

-- For positive sizes whose product is the number of processes, the lists for tensor, data and
-- pipeline parallelism, and those for the experts when their sizes multiply to the same number
-- per stage, are all built without an error, and each of them holds every rank below the number
-- of processes exactly once and no other rank.
pub rank_lists-IsPartition :
    (tp dp pp etp ep r : ℕ)
    → 0 < tp
    → 0 < dp
    → 0 < pp
    → 0 < etp
    → 0 < ep
    → etp * ep ≡ tp * dp
    → IsPartitionAt r (pp * (tp * dp)) (get_tp_rank_lists tp (pp * (tp * dp)))
      × IsPartitionAt r (pp * (tp * dp)) (get_dp_rank_lists tp dp (pp * (tp * dp)))
      × IsPartitionAt r (pp * (tp * dp)) (get_pp_rank_lists pp (pp * (tp * dp)))
      × IsPartitionAt r (pp * (tp * dp)) (get_etp_rank_lists etp (pp * (tp * dp)))
      × IsPartitionAt r (pp * (tp * dp)) (get_ep_rank_lists etp ep (pp * (tp * dp)))
rank_lists-IsPartition tp dp pp etp ep r ht hd hp he hq e =
    (first tp dp ht, second_level-IsPartition tp dp pp r ht hd, stages, experts.0, experts.1)
  where
    first :
        (a b : ℕ)
        → 0 < a
        → IsPartitionAt r (pp * (a * b)) (get_first_level_rank_lists a (pp * (a * b)))
    first a b h = rw (mul_comm a b, sym (mul_assoc pp b a)) (first_level-IsPartition a (pp * b) r h)

    stages : IsPartitionAt r (pp * (tp * dp)) (get_last_level_rank_lists pp (pp * (tp * dp)))
    stages = rw (mul_comm pp (tp * dp)) (last_level-IsPartition pp (tp * dp) r hp (mul-pos ht hd))

    experts :
        IsPartitionAt r (pp * (tp * dp)) (get_first_level_rank_lists etp (pp * (tp * dp)))
        × IsPartitionAt r (pp * (tp * dp)) (get_second_level_rank_lists etp ep (pp * (tp * dp)))
    experts = rw (sym e) (first etp ep he, second_level-IsPartition etp ep pp r he hq)
