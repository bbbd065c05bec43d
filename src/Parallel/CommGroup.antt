-- ===== src/Parallel/CommGroup.antt =====
-- chitu/distributed/comm_group.py: torch's process groups kept by their lists of ranks, and the
-- group of a process. Making a process group and the barrier are torch's: parameters.
use chitu.Base.{
  ℕ, zero, suc, ◌+◌, ◌-◌, ◌%◌, Bool, true, false, ltb, List, [], ◌∷◌, map, nat_beq, if◌then◌else◌,
  length, Option, none, some, Result, ok, raise, value_error, index_error, zero_division_error,
  list_eq, nat_eq, Exec, pure, lift, modify, ◌>>=◌, ◌>>◌, any_of, Dict, get, put,
}

-- torch.distributed.group.WORLD, SingletonGroupPlaceholder(), and what new_group returned
pub data ProcessGroup (G : Type 0) : Type 0 where
  world singleton_group_placeholder : ProcessGroup G
  created : G → ProcessGroup G

-- The two dictionaries of the module, and the state of torch.distributed.
pub record Dist (G E : Type 0) : Type 0 where
  pub torch_group_dedup_dict_device : Dict (List (List ℕ)) (List (ProcessGroup G))
  pub torch_group_dedup_dict_host : Dict (List (List ℕ)) (List (ProcessGroup G))
  pub torch : E

pub record CommGroup (G : Type 0) : Type 0 where
  pub global_rank : ℕ
  pub local_rank : ℕ
  pub cpu_group : ProcessGroup G
  pub gpu_group : ProcessGroup G
  pub rank_list : List ℕ
  pub rank_in_group : ℕ
  pub group_size : ℕ

-- global_rank in rank_list
abbrev pub holds : ℕ → List ℕ → Bool
holds r xs = any_of (nat_beq r) xs

-- xs.count(True)
abbrev pub count_true : List Bool → ℕ
count_true [] = 0
count_true (b ∷ bs) = (if b then 1 else 0) + count_true bs

abbrev pub shifted : Result ℕ → Result ℕ
shifted (ok i) = ok (suc i)
shifted (raise e) = raise e

-- xs.index(True)
abbrev pub index_true : List Bool → Result ℕ
index_true [] = raise value_error
index_true (true ∷ bs) = ok 0
index_true (false ∷ bs) = shifted (index_true bs)

-- xs.index(r)
abbrev pub index_of : ℕ → List ℕ → Result ℕ
index_of r xs = index_true (map (nat_beq r) xs)

-- xs[i], for i from 0 on
abbrev pub at_index {ℓ} : {A : Type ℓ} → List A → ℕ → Result A
at_index [] i = raise index_error
at_index (x ∷ xs) zero = ok x
at_index (x ∷ xs) (suc i) = at_index xs i

-- (a + d) % n, with what Python does when n is 0
abbrev pub wrapped : List ℕ → ℕ → ℕ → Result ℕ
wrapped xs a zero = raise zero_division_error
wrapped xs a (suc n) = at_index xs (a % suc n)

-- Which list of ranks a process belongs to.
unfoldable pub this_rank_idx : List (List ℕ) → ℕ → Result ℕ
this_rank_idx rank_lists global_rank =
    let contains_this_rank = map (holds global_rank) rank_lists in
    if nat_beq (count_true contains_this_rank) 0
    then raise value_error
    else if ltb 1 (count_true contains_this_rank)
    then raise value_error
    else index_true contains_this_rank

-- xs[-1]
abbrev pub at_end : List ℕ → Result ℕ
at_end [] = raise index_error
at_end (x ∷ xs) = at_index (x ∷ xs) (length xs)

abbrev pub same_rank : ℕ → Result ℕ → Result Bool
same_rank r (ok q) = ok (nat_beq r q)
same_rank r (raise e) = raise e

module _ {G E : Type 0} (new_group : List ℕ → Bool → E → G × E)
    (barrier : ProcessGroup G → E → E) where
  -- The list comprehension over `rank_lists`; the flag says whether the groups are for the device.
  abbrev pub new_groups : List (List ℕ) → Bool → E → List (ProcessGroup G) × E
  new_groups [] d e = ([], e)
  new_groups ([] ∷ ls) d e =
      let this = new_group [] d e in
      let rest = new_groups ls d this.1 in (created this.0 ∷ rest.0, rest.1)
  new_groups ((r ∷ []) ∷ ls) d e =
      let rest = new_groups ls d e in (singleton_group_placeholder ∷ rest.0, rest.1)
  new_groups ((r ∷ q ∷ rs) ∷ ls) d e =
      let this = new_group (r ∷ q ∷ rs) d e in
      let rest = new_groups ls d this.1 in (created this.0 ∷ rest.0, rest.1)

  -- The groups of an entry that was found, or those that are made.
  abbrev pub reuse :
      Option (List (ProcessGroup G))
      → Dist G E
      → List (ProcessGroup G) × Dist G E
      → List (ProcessGroup G) × Dist G E
  reuse none d made = made
  reuse (some gs) d made = (gs, d)

  abbrev pub make_device : List (List ℕ) → Bool → Dist G E → List (ProcessGroup G) × Dist G E
  make_device rank_lists force_no_dedup d =
      let made = new_groups rank_lists true d.torch in
      (
        made.0,
        record d {
          torch_group_dedup_dict_device =
              if force_no_dedup
              then d.torch_group_dedup_dict_device
              else put d.torch_group_dedup_dict_device rank_lists made.0;
          torch = made.1;
        },
      )

  abbrev pub make_host : List (List ℕ) → Dist G E → List (ProcessGroup G) × Dist G E
  make_host rank_lists d =
      let made = new_groups rank_lists false d.torch in
      (
        made.0,
        record d {
          torch_group_dedup_dict_host = put d.torch_group_dedup_dict_host rank_lists made.0;
          torch = made.1;
        },
      )

  unfoldable pub new_torch_group_dedup :
      List (List ℕ) → Bool → Bool → Dist G E → List (ProcessGroup G) × Dist G E
  new_torch_group_dedup rank_lists true force_no_dedup d =
      if nat_beq (length rank_lists) 1
      then (world ∷ [], d)
      else reuse (if force_no_dedup then get d.torch_group_dedup_dict_device rank_lists else none) d
          (make_device rank_lists force_no_dedup d)
  new_torch_group_dedup rank_lists false force_no_dedup d =
      reuse (get d.torch_group_dedup_dict_host rank_lists) d (make_host rank_lists d)

  -- The barrier, unless the group for the device is a placeholder.
  abbrev pub first_barrier : ProcessGroup G → Dist G E → Dist G E
  first_barrier singleton_group_placeholder d = d
  first_barrier world d = record d { torch = barrier world d.torch }
  first_barrier (created g) d = record d { torch = barrier (created g) d.torch }

  abbrev pub groups_for : List (List ℕ) → Bool → Bool → Exec (Dist G E) (List (ProcessGroup G))
  unfolding new_torch_group_dedup
  groups_for rank_lists is_device force_no_dedup d =
      let r = new_torch_group_dedup rank_lists is_device force_no_dedup d in (ok r.0, r.1)

  -- The rest of the constructor, from the barrier on.
  abbrev pub enter :
      List (List ℕ) → ℕ → ℕ → ℕ → ProcessGroup G → ProcessGroup G → Exec (Dist G E) (CommGroup G)
  enter rank_lists global_rank local_rank idx cpu gpu =
      modify (first_barrier gpu) >> lift (at_index rank_lists idx) >>= λ this.
      lift (index_of global_rank this) >>= λ place. pure (record {
        global_rank = global_rank;
        local_rank = local_rank;
        cpu_group = cpu;
        gpu_group = gpu;
        rank_list = this;
        rank_in_group = place;
        group_size = length this;
      })

  -- CommGroup(rank_lists, global_rank, local_rank, force_no_dedup)
  unfoldable pub comm_group : List (List ℕ) → ℕ → ℕ → Bool → Exec (Dist G E) (CommGroup G)
  unfolding new_torch_group_dedup this_rank_idx
  comm_group rank_lists global_rank local_rank force_no_dedup =
      groups_for rank_lists true force_no_dedup >>= λ gpu_groups.
      groups_for rank_lists false force_no_dedup >>= λ cpu_groups.
      lift (this_rank_idx rank_lists global_rank) >>= λ idx.
      lift (at_index cpu_groups idx) >>= λ cpu.
      lift (at_index gpu_groups idx) >>= λ gpu. enter rank_lists global_rank local_rank idx cpu gpu

-- The properties of a group.
module _ {G : Type 0} where
  unfoldable pub next_rank : CommGroup G → Result ℕ
  next_rank g = wrapped g.rank_list (g.rank_in_group + 1) g.group_size

  -- Python's remainder of -1 is `group_size - 1`.
  unfoldable pub prev_rank : CommGroup G → Result ℕ
  prev_rank g = wrapped g.rank_list (g.rank_in_group + g.group_size - 1) g.group_size

  unfoldable pub is_first_rank : CommGroup G → Result Bool
  is_first_rank g = same_rank g.global_rank (at_index g.rank_list 0)

  unfoldable pub is_last_rank : CommGroup G → Result Bool
  is_last_rank g = same_rank g.global_rank (at_end g.rank_list)
