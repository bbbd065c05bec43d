-- ===== src/Parallel/Start.antt =====
-- What `initialize_parallel_groups` makes of a process that has no groups yet.
use chitu.Base.{
  ℕ, ◌+◌, ◌*◌, ◌<◌, ◌≡◌, ◌⊎◌, inl, inr, Bool-cases, refl, Bool, true, false, List, [], ◌∷◌, nat_beq,
  ltb, lt→ltb, arith, length, get_elem?, Option, none, some, Result, ok, raise, modify, ◌>>◌,
  range_from, count-range, continue, Exec,
}
use chitu.Parallel.RankLists.{
  get_tp_rank_lists, get_dp_rank_lists, get_etp_rank_lists, get_ep_rank_lists, get_pp_rank_lists,
}
use chitu.Parallel.Blocks.{count_in}
use chitu.Parallel.Partition.{IsPartitionAt, rank_lists-IsPartition}
use chitu.Parallel.CommGroup.{ProcessGroup, Dist, CommGroup, comm_group}
use chitu.Parallel.Membership.{count_in-Placed}
use chitu.Parallel.Init.{Kept, IsMade, comm_group-IsMade}
use chitu.Parallel.Groups.{
  Kind, world_kind, tp_kind, dp_kind, etp_kind, ep_kind, pp_kind, code, ParallelState, assigned,
  initialize_group, ascend_pairs, initialize_parallel_groups,
}

-- A rank is where its group says.
abbrev pub IsMember : {G : Type 0} → ℕ → Option (CommGroup G) → Type 0
IsMember rank none = ⊥
IsMember rank (some g) =
    (g.global_rank ≡ rank)
    × (get_elem? g.rank_list g.rank_in_group ≡ some rank)
    × (g.group_size ≡ length g.rank_list)

-- Lists that were built and hold a rank once.
abbrev HoldOnce : ℕ → Result (List (List ℕ)) → Type 0
HoldOnce rank (ok lists) = count_in rank lists ≡ 1
HoldOnce rank (raise e) = ⊥

IsPartitionAt-HoldOnce :
    (rank n : ℕ) (r : Result (List (List ℕ))) → rank < n → IsPartitionAt rank n r → HoldOnce rank r
IsPartitionAt-HoldOnce rank n (ok lists) h p = rw (lt→ltb rank n h) at p
IsPartitionAt-HoldOnce rank n (raise e) h p = p

module _ {G E : Type 0} (new_group : List ℕ → Bool → E → G × E)
    (barrier : ProcessGroup G → E → E) where
  -- The state after one of the groups is set.
  abbrev SetTo : Kind → ℕ → ParallelState G E → Result (Unit {0}) × ParallelState G E → Type 0
  SetTo kind rank s (raise e, t) = ⊥
  SetTo kind rank s (ok u, t) =
      (g : CommGroup G) × (t.groups ≡ assigned s.groups kind g)
      × IsMember rank (some g)
      × Kept t.dist

  initialize_group-SetTo :
      (kind : Kind) (lists : Result (List (List ℕ))) (rank local_rank : ℕ) (force : Bool)
      (s : ParallelState G E)
      → Kept s.dist
      → s.groups kind ≡ none
      → HoldOnce rank lists
      → SetTo kind rank s (initialize_group new_group barrier kind lists rank local_rank force s)
  unfolding initialize_group
  initialize_group-SetTo kind (ok ls) rank local_rank force s k e h = rw e (
      made (comm_group new_group barrier ls rank local_rank force s.dist) (
        comm_group-IsMade new_group barrier ls rank local_rank force s.dist k h
          (count_in-Placed rank ls h)))
    where
      made :
          (r : Result (CommGroup G) × Dist G E)
          → IsMade new_group barrier rank ls (count_in-Placed rank ls h) r
          → SetTo kind rank s (
              continue r.0
                (λ g. modify (λ t. record t { groups = assigned t.groups kind g }))
                (record s { dist = r.1 }))
      made (ok g, d) m =
          let p = count_in-Placed rank ls h in
          let place : get_elem? g.rank_list g.rank_in_group ≡ some rank =
            rw (m.1, m.2) p.at_place in
          let size : g.group_size ≡ length g.rank_list = rw (m.1, m.3) refl in
          (g, refl, (m.0, place, size), m.4)
      made (raise x, d) m = absurd m
  initialize_group-SetTo kind (raise x) rank local_rank force s k e h = absurd h

  -- A group that is set, and one that is not.
  abbrev Status : Bool → ℕ → Option (CommGroup G) → Type 0
  Status true rank o = IsMember rank o
  Status false rank o = o ≡ none

  -- The first `n` kinds of groups are set.
  abbrev Progress : ℕ → ℕ → ParallelState G E → Type 0
  Progress n rank t = Kept t.dist × ((k : Kind) → Status (ltb (code k) n) rank (t.groups k))

  SetTo-Progress :
      (kind : Kind) (rank : ℕ) (s t : ParallelState G E)
      → Progress (code kind) rank s
      → SetTo kind rank s (ok tt, t)
      → Progress (code kind + 1) rank t
  SetTo-Progress kind rank s t p (g, e, m, k) =
      (k, λ j. rw e (at_kind j (Bool-cases (nat_beq (code kind) (code j)))))
    where
      at_kind :
          (j : Kind)
          → (nat_beq (code kind) (code j) ≡ true) ⊎ (nat_beq (code kind) (code j) ≡ false)
          → Status (ltb (code j) (code kind + 1)) rank (assigned s.groups kind g j)
      at_kind j (inl b) =
          let c : ltb (code j) (code kind + 1) ≡ true = ground (arith, b) in rw (b, c) m
      at_kind j (inr b) =
          let c : ltb (code j) (code kind + 1) ≡ ltb (code j) (code kind) = ground (arith, b) in
          rw (b, c) (p.1 j)

  -- One more group, and what follows.
  set_next :
      (P : Result (Unit {0}) × ParallelState G E → Type 0) (kind : Kind)
      (lists : Result (List (List ℕ))) (rank local_rank : ℕ) (force : Bool) (s : ParallelState G E)
      (rest : Exec (ParallelState G E) (Unit {0}))
      → Progress (code kind) rank s
      → HoldOnce rank lists
      → ((t : ParallelState G E) → Progress (code kind + 1) rank t → P (rest t))
      → P ((initialize_group new_group barrier kind lists rank local_rank force >> rest) s)
  set_next P kind lists rank local_rank force s rest p h f =
      by_result (initialize_group new_group barrier kind lists rank local_rank force s)
        (initialize_group-SetTo kind lists rank local_rank force s p.0 unset h)
    where
      unset : s.groups kind ≡ none
      unset = let c : ltb (code kind) (code kind) ≡ false = ground arith in rw c at (p.1 kind)

      by_result :
          (r : Result (Unit {0}) × ParallelState G E)
          → SetTo kind rank s r
          → P (continue r.0 (λ u. rest) r.1)
      by_result (ok u, t) m = f t (SetTo-Progress kind rank s t p m)
      by_result (raise e, t) m = absurd m

  -- All groups are set, and the process is a member of each.
  abbrev pub IsStarted : ℕ → Result (Unit {0}) × ParallelState G E → Type 0
  IsStarted rank (ok u, t) =
      (t.parallel_groups_initialized ≡ true) × ((k : Kind) → IsMember rank (t.groups k))
  IsStarted rank (raise e, t) = ⊥

  whole-HoldOnce : (rank n : ℕ) → rank < n → HoldOnce rank (ok (range_from 0 n ∷ []))
  whole-HoldOnce rank n h =
      let c : ltb rank n ≡ true = lt→ltb rank n h in rw (count-range rank n, c) refl

  all-IsStarted :
      (rank : ℕ) (t : ParallelState G E)
      → Progress 6 rank t
      → IsStarted rank (ok tt, record t { parallel_groups_initialized = true })
  all-IsStarted rank t p = (refl, λ k. at_kind k (p.1 k))
    where
      at_kind : (k : Kind) → Status (ltb (code k) 6) rank (t.groups k) → IsMember rank (t.groups k)
      at_kind world_kind m = m
      at_kind tp_kind m = m
      at_kind dp_kind m = m
      at_kind etp_kind m = m
      at_kind ep_kind m = m
      at_kind pp_kind m = m

  -- Off Ascend, for positive sizes that multiply to the number of processes, with as many expert
  -- ranks per stage as tensor and data ranks, a process whose rank is below that number, that has
  -- no group yet and whose dictionaries of process groups are well sized gets all six groups: the
  -- call returns, and the process stands in the list of each of its groups where the group says.
  pub initialize_parallel_groups-IsStarted :
      (rank local_rank tp dp etp ep pp : ℕ) (s : ParallelState G E)
      → 0 < tp
      → 0 < dp
      → 0 < pp
      → 0 < etp
      → 0 < ep
      → etp * ep ≡ tp * dp
      → rank < pp * (tp * dp)
      → s.parallel_groups_initialized ≡ false
      → ((k : Kind) → s.groups k ≡ none)
      → Kept s.dist
      → IsStarted rank (
          initialize_parallel_groups new_group barrier false rank local_rank
            (pp * (tp * dp))
            tp
            dp
            etp
            ep
            pp
            s)
  unfolding initialize_parallel_groups
  initialize_parallel_groups-IsStarted rank local_rank tp dp etp ep pp s ht hd hp he hq e h i g k =
      let world = ok (range_from 0 (pp * (tp * dp)) ∷ []) in
      let tps = get_tp_rank_lists tp (pp * (tp * dp)) in
      let dps = get_dp_rank_lists tp dp (pp * (tp * dp)) in
      let etps = get_etp_rank_lists etp (pp * (tp * dp)) in
      let eps = get_ep_rank_lists etp ep (pp * (tp * dp)) in
      let pps = get_pp_rank_lists pp (pp * (tp * dp)) in
      let r6 : Exec (ParallelState G E) (Unit {0}) =
        ascend_pairs new_group barrier false pp pps
        >> modify (λ t. record t { parallel_groups_initialized = true }) in
      let r5 : Exec (ParallelState G E) (Unit {0}) =
        initialize_group new_group barrier pp_kind pps rank local_rank false >> r6 in
      let r4 : Exec (ParallelState G E) (Unit {0}) =
        initialize_group new_group barrier ep_kind eps rank local_rank false >> r5 in
      let r3 : Exec (ParallelState G E) (Unit {0}) =
        initialize_group new_group barrier etp_kind etps rank local_rank false >> r4 in
      let r2 : Exec (ParallelState G E) (Unit {0}) =
        initialize_group new_group barrier dp_kind dps rank local_rank false >> r3 in
      let r1 : Exec (ParallelState G E) (Unit {0}) =
        initialize_group new_group barrier tp_kind tps rank local_rank false >> r2 in
      rw i (
        set_next (IsStarted rank) world_kind world rank local_rank false
          (record s { parallel_groups_initialized = false }) r1 (k, λ j. nothing j (g j))
          (whole-HoldOnce rank (pp * (tp * dp)) h)
          (λ t1 p1.
            set_next (IsStarted rank) tp_kind tps rank local_rank false t1 r2 p1 (once tps lists.0)
              (λ t2 p2.
                set_next (IsStarted rank) dp_kind dps rank local_rank false t2 r3 p2
                  (once dps lists.1)
                  (λ t3 p3.
                    set_next (IsStarted rank) etp_kind etps rank local_rank false t3 r4 p3
                      (once etps lists.3)
                      (λ t4 p4.
                        set_next (IsStarted rank) ep_kind eps rank local_rank false t4 r5 p4
                          (once eps lists.4)
                          (λ t5 p5.
                            set_next (IsStarted rank) pp_kind pps rank local_rank false t5 r6 p5
                              (once pps lists.2) (λ t6 p6. all-IsStarted rank t6 p6)))))))
    where
      lists :
          IsPartitionAt rank (pp * (tp * dp)) (get_tp_rank_lists tp (pp * (tp * dp)))
          × IsPartitionAt rank (pp * (tp * dp)) (get_dp_rank_lists tp dp (pp * (tp * dp)))
          × IsPartitionAt rank (pp * (tp * dp)) (get_pp_rank_lists pp (pp * (tp * dp)))
          × IsPartitionAt rank (pp * (tp * dp)) (get_etp_rank_lists etp (pp * (tp * dp)))
          × IsPartitionAt rank (pp * (tp * dp)) (get_ep_rank_lists etp ep (pp * (tp * dp)))
      lists = rank_lists-IsPartition tp dp pp etp ep rank ht hd hp he hq e

      once : (r : Result (List (List ℕ))) → IsPartitionAt rank (pp * (tp * dp)) r → HoldOnce rank r
      once r = IsPartitionAt-HoldOnce rank (pp * (tp * dp)) r h

      nothing : (j : Kind) → s.groups j ≡ none → Status (ltb (code j) 0) rank (s.groups j)
      nothing world_kind m = m
      nothing tp_kind m = m
      nothing dp_kind m = m
      nothing etp_kind m = m
      nothing ep_kind m = m
      nothing pp_kind m = m
