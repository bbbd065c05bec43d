-- ===== src/Examples/ParallelExamples.antt =====
-- Eight processes: two stages of a pipeline, two replicas of the data, two tensor ranks.
use chitu.Base.{ℕ, ◌+◌, ◌<◌, ◌≤◌, ◌≡◌, refl, Bool, false, List, [], ◌∷◌, arith, none, ok}
use chitu.Parallel.RankLists.{
  get_tp_rank_lists, get_dp_rank_lists, get_etp_rank_lists, get_ep_rank_lists, get_pp_rank_lists,
}
use chitu.Parallel.Partition.{IsPartitionAt, rank_lists-IsPartition}
use chitu.Parallel.Blocks.{count_in}
use chitu.Parallel.CommGroup.{ProcessGroup, Dist}
use chitu.Parallel.Groups.{ParallelState, initialize_parallel_groups}
use chitu.Parallel.Start.{IsStarted, initialize_parallel_groups-IsStarted}
use chitu.Parallel.Ring.{follow, follow-Reaches}
use chitu.Parallel.Layers.{
  IsEvenResult, compute_layer_dist_in_pipe, compute_layer_dist_in_pipe-IsEven,
}

rank_lists-IsPartition_example :
    IsPartitionAt 5 8 (get_tp_rank_lists 2 8)
    × IsPartitionAt 5 8 (get_dp_rank_lists 2 2 8)
    × IsPartitionAt 5 8 (get_pp_rank_lists 2 8)
    × IsPartitionAt 5 8 (get_etp_rank_lists 1 8)
    × IsPartitionAt 5 8 (get_ep_rank_lists 1 4 8)
rank_lists-IsPartition_example =
    rank_lists-IsPartition 2 2 2 1 4 5 (omega arith) (omega arith) (omega arith) (omega arith)
      (omega arith) refl

-- The lists for data parallelism.
abbrev lists : List (List ℕ)
lists = (0 ∷ 2 ∷ []) ∷ (1 ∷ 3 ∷ []) ∷ (4 ∷ 6 ∷ []) ∷ (5 ∷ 7 ∷ []) ∷ []

lists_so : get_dp_rank_lists 2 2 8 ≡ ok lists
unfolding chitu.Parallel.RankLists.get_second_level_rank_lists
lists_so = refl

-- Process groups are numbered in the order in which they are made.
abbrev new_group : List ℕ → Bool → ℕ → ℕ × ℕ
new_group ranks device n = (n, n + 1)

abbrev barrier : ProcessGroup ℕ → ℕ → ℕ
barrier g n = n

abbrev fresh : Dist ℕ ℕ
fresh = record { torch_group_dedup_dict_device = []; torch_group_dedup_dict_host = []; torch = 0 }

abbrev start : ParallelState ℕ ℕ
start = record {
  dist = fresh;
  groups = λ k. none;
  pp_pair_group_dict = [];
  parallel_groups_initialized = false;
}

initialize_parallel_groups-IsStarted_example :
    IsStarted {G = ℕ} {E = ℕ} new_group barrier 5
      (initialize_parallel_groups new_group barrier false 5 1 8 2 2 1 4 2 start)
initialize_parallel_groups-IsStarted_example =
    initialize_parallel_groups-IsStarted new_group barrier 5 1 2 2 1 4 2 start (omega arith)
      (omega arith) (omega arith) (omega arith) (omega arith) refl (omega arith) refl (λ k. refl)
      (tt, tt)

unique : (r : ℕ) → count_in r lists ≤ 1
unique r = ground arith

follow-Reaches_example :
    (k : ℕ) × (k < 2) × (follow new_group barrier lists (λ r. r) false (λ r. fresh) k 7 ≡ ok 5)
follow-Reaches_example =
    follow-Reaches new_group barrier lists (λ r. r) false (λ r. fresh) (λ r. (tt, tt)) unique
      (5 ∷ 7 ∷ []) 3 1 0 7 5 refl refl refl

compute_layer_dist_in_pipe-IsEven_example :
    IsEvenResult 15 61 4 (compute_layer_dist_in_pipe none 61 61 4)
compute_layer_dist_in_pipe-IsEven_example = compute_layer_dist_in_pipe-IsEven 61 61 4 (omega arith)
