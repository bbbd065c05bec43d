-- ===== src/Parallel/Groups.antt =====
-- chitu/distributed/parallel_state.py: the groups of a process, which are set once. What torch and the
-- environment tell of the process (its rank, its local rank, the number of processes, whether it
-- runs on Ascend) are arguments. A pair of ranks as a key is a list of two.
use chitu.Base.{
  ℕ, ◌+◌, ◌%◌, Bool, true, false, not, List, [], ◌∷◌, nat_beq, ltb, if◌then◌else◌, Option, none,
  some, Result, ok, assertion_error, Exec, pure, lift, gets, modify, assert, ◌>>=◌, ◌>>◌, Dict, put,
  list_eq, nat_eq, range_from, length,
}
use chitu.Parallel.RankLists.{
  get_tp_rank_lists, get_dp_rank_lists, get_etp_rank_lists, get_ep_rank_lists, get_pp_rank_lists,
}
use chitu.Parallel.CommGroup.{ProcessGroup, Dist, CommGroup, comm_group, at_index}

-- The globals _WORLD_GROUP, _TP_GROUP, _DP_GROUP, _ETP_GROUP, _EP_GROUP and _PP_GROUP.
pub data Kind : Type 0 where
  world_kind tp_kind dp_kind etp_kind ep_kind pp_kind : Kind

abbrev pub code : Kind → ℕ
code world_kind = 0
code tp_kind = 1
code dp_kind = 2
code etp_kind = 3
code ep_kind = 4
code pp_kind = 5

pub record ParallelState (G E : Type 0) : Type 0 where
  pub dist : Dist G E
  pub groups : Kind → Option (CommGroup G)
  pub pp_pair_group_dict : Dict (List ℕ) G
  pub parallel_groups_initialized : Bool

abbrev pub is_unset {ℓ} : {A : Type ℓ} → Option A → Bool
is_unset none = true
is_unset (some x) = false

-- The globals after an assignment to one of them.
abbrev pub assigned :
    {G : Type 0} → (Kind → Option (CommGroup G)) → Kind → CommGroup G → Kind → Option (CommGroup G)
assigned groups k g j = if nat_beq (code k) (code j) then some g else groups j

module _ {G E : Type 0} (new_group : List ℕ → Bool → E → G × E)
    (barrier : ProcessGroup G → E → E) where
  abbrev pub on_dist : {A : Type 0} → Exec (Dist G E) A → Exec (ParallelState G E) A
  on_dist m s = ((m s.dist).0, record s { dist = (m s.dist).1 })

  -- `initialize_tp_group` and its like, after the lists of ranks.
  unfoldable pub initialize_group :
      Kind → Result (List (List ℕ)) → ℕ → ℕ → Bool → Exec (ParallelState G E) (Unit {0})
  unfolding comm_group
  initialize_group kind rank_lists rank local_rank force_no_dedup = do
    unset ← gets (λ s. is_unset (s.groups kind))
    assert unset assertion_error
    lists ← lift rank_lists
    g ← on_dist (comm_group new_group barrier lists rank local_rank force_no_dedup)
    modify (λ s. record s { groups = assigned s.groups kind g })

  -- torch.distributed.new_group(rank_pair), stored for both orders of the pair
  abbrev pub pair_group : ℕ → ℕ → Exec (ParallelState G E) (Unit {0})
  pair_group a b s =
      let made = new_group (a ∷ b ∷ []) true s.dist.torch in
      (
        ok tt,
        record s {
          dist = record (s.dist) { torch = made.1 };
          pp_pair_group_dict =
              put (put s.pp_pair_group_dict (a ∷ b ∷ []) made.0) (b ∷ a ∷ []) made.0;
        },
      )

  abbrev pub pair_groups : List ℕ → ℕ → List ℕ → Exec (ParallelState G E) (Unit {0})
  pair_groups ranks pp_size [] = pure tt
  pair_groups ranks pp_size (i ∷ is) = do
    a ← lift (at_index ranks i)
    b ← lift (at_index ranks ((i + 1) % pp_size))
    pair_group a b
    pair_groups ranks pp_size is

  -- The end of `initialize_pp_group` on Ascend.
  abbrev pub ascend_pairs : Bool → ℕ → Result (List (List ℕ)) → Exec (ParallelState G E) (Unit {0})
  ascend_pairs false pp_size pp_rank_lists = pure tt
  ascend_pairs true pp_size pp_rank_lists = do
    n ← gets (λ s. length s.pp_pair_group_dict)
    assert (nat_beq n 0) assertion_error
    lists ← lift pp_rank_lists
    if ltb pp_size 2
        then pure tt
        else (lift (at_index lists 0) >>= λ ranks. pair_groups ranks pp_size (range_from 0 pp_size))

  unfoldable pub initialize_parallel_groups :
      Bool → ℕ → ℕ → ℕ → ℕ → ℕ → ℕ → ℕ → ℕ → Exec (ParallelState G E) (Unit {0})
  unfolding initialize_group
  initialize_parallel_groups is_ascend rank local_rank world_size tp_size dp_size etp_size ep_size
        pp_size =
      do
        initialized ← gets (λ s. s.parallel_groups_initialized)
        assert (not initialized) assertion_error
        initialize_group world_kind (ok (range_from 0 world_size ∷ [])) rank local_rank false
        initialize_group tp_kind (get_tp_rank_lists tp_size world_size) rank local_rank false
        initialize_group dp_kind (get_dp_rank_lists tp_size dp_size world_size) rank local_rank
            false
        initialize_group etp_kind (get_etp_rank_lists etp_size world_size) rank local_rank false
        initialize_group ep_kind (get_ep_rank_lists etp_size ep_size world_size) rank local_rank
            is_ascend
        initialize_group pp_kind (get_pp_rank_lists pp_size world_size) rank local_rank false
        ascend_pairs is_ascend pp_size (get_pp_rank_lists pp_size world_size)
        modify (λ s. record s { parallel_groups_initialized = true })
