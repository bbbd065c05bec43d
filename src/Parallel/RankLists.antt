-- ===== src/Parallel/RankLists.antt =====
-- chitu/distributed/parallel_state.py: the lists of ranks for each kind of parallelism.
use chitu.Base.{
  ℕ, zero, suc, ◌+◌, ◌-◌, ◌*◌, ◌/◌, ◌%◌, List, [], ◌∷◌, ◌++◌, map, nat_beq, if◌then◌else◌,
  range_from, Result, ok, raise, assertion_error, zero_division_error,
}

-- `n` numbers from `lo` on, `step` apart.
unfoldable pub steps : ℕ → ℕ → ℕ → List ℕ
steps lo step zero = []
steps lo step (suc n) = lo ∷ steps (lo + step) step n

-- list(range(lo, hi, step)), for a positive step
unfoldable pub range_by : ℕ → ℕ → ℕ → List ℕ
unfolding steps
range_by lo hi step = steps lo step ((hi - lo + step - 1) / step)

-- assert world_size % size == 0, behind which the lists are built
abbrev pub if_divides : ℕ → ℕ → List (List ℕ) → Result (List (List ℕ))
if_divides zero world_size lists = raise zero_division_error
if_divides (suc n) world_size lists =
    if nat_beq (world_size % suc n) 0 then ok lists else raise assertion_error

unfoldable pub get_first_level_rank_lists : ℕ → ℕ → Result (List (List ℕ))
unfolding range_by
get_first_level_rank_lists first_level_size world_size = if_divides first_level_size world_size (
    map (λ i. range_by (i * first_level_size) ((i + 1) * first_level_size) 1)
      (range_from 0 (world_size / first_level_size)))

-- The inner loop of `_get_second_level_rank_lists`.
abbrev pub second_level_block : ℕ → ℕ → ℕ → List (List ℕ)
second_level_block first_level_size second_level_size i =
    map
      (λ j.
        range_by (i * first_level_size * second_level_size + j)
          ((i + 1) * first_level_size * second_level_size + j) first_level_size)
      (range_from 0 first_level_size)

abbrev pub flat_map {ℓ κ} : {A : Type ℓ} {B : Type κ} → (A → List B) → List A → List B
flat_map f [] = []
flat_map f (x ∷ xs) = f x ++ flat_map f xs

unfoldable pub get_second_level_rank_lists : ℕ → ℕ → ℕ → Result (List (List ℕ))
unfolding range_by
get_second_level_rank_lists first_level_size second_level_size world_size =
    if_divides (first_level_size * second_level_size) world_size (
      flat_map (second_level_block first_level_size second_level_size)
        (range_from 0 (world_size / (first_level_size * second_level_size))))

unfoldable pub get_last_level_rank_lists : ℕ → ℕ → Result (List (List ℕ))
unfolding range_by
get_last_level_rank_lists last_level_size world_size = if_divides last_level_size world_size (
    map (λ i. range_by i (i + world_size) (world_size / last_level_size))
      (range_from 0 (world_size / last_level_size)))

abbrev pub get_tp_rank_lists : ℕ → ℕ → Result (List (List ℕ))
get_tp_rank_lists tp_size world_size = get_first_level_rank_lists tp_size world_size

abbrev pub get_dp_rank_lists : ℕ → ℕ → ℕ → Result (List (List ℕ))
get_dp_rank_lists tp_size dp_size world_size =
    get_second_level_rank_lists tp_size dp_size world_size

abbrev pub get_etp_rank_lists : ℕ → ℕ → Result (List (List ℕ))
get_etp_rank_lists etp_size world_size = get_first_level_rank_lists etp_size world_size

abbrev pub get_ep_rank_lists : ℕ → ℕ → ℕ → Result (List (List ℕ))
get_ep_rank_lists etp_size ep_size world_size =
    get_second_level_rank_lists etp_size ep_size world_size

abbrev pub get_pp_rank_lists : ℕ → ℕ → Result (List (List ℕ))
get_pp_rank_lists pp_size world_size = get_last_level_rank_lists pp_size world_size
