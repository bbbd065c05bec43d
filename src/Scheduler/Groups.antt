-- ===== src/Scheduler/Groups.antt =====
-- The scheduler groups: which are free and which are used.
pub mod Update
use chitu.Base.{
  ℕ, zero, suc, ◌+◌, ◌-◌, ◌≤◌, ◌<◌, ◌≡◌, refl, sym, ap, ◌∙◌, Bool, true, false, ◌⊎◌, inl, inr,
  Option, none, some, String, List, [], ◌∷◌, ◌++◌, arith, ltb, leb, if◌then◌else◌, length, take,
  Bool-cases, Exec, Result, ok, raise, Error, keep, get, put, count, count-append, ◌>>◌, ◌>>=◌,
  pure, modify, gets, throw, lift, Preserves, bind-Preserves, any_of, nat_beq, not, Option-cases,
  nat_eq, string_eq,
}
use chitu.Task.{Task, prefill, decode, TaskType, is_prefill, is_decode, need_remove}
use chitu.Pool.{remove_task, TaskPool, is_empty}
use chitu.Scheduler.State.{on_cache, World, Entry, Scheduler, set_task, set_tasks, ids_of, resolve}
use chitu.Cache.Paged.{finalize_cache_all_decode}
use chitu.Scheduler.Batches.{
  evict_decode_task, evict_until, enough_blocks, schedule_decode_tasks, schedule_prefill_tasks,
  prefill_candidates, num_fitting, hopeless, first_error, evicting, evicted, halve_threshold,
}
use chitu.Scheduler.{
  join_groups, join_group, assign, assign_from, run_decode, prefill_or_decode, run_prefill, choose,
  schedule, ranked, no_group, at_time, candidates, add_to_set, update, free_idle, is_idle,
  leave_groups, leave_group, drop_waiting, get_task, remove_done, set_pool, remove_from_pool,
  restore_threshold, distinct_ids,
}
use chitu.Scheduler.Batches.Frame.{
  schedule_decode_tasks-Preserves, schedule_prefill_tasks-Preserves,
}

-- Each of the `n` groups stands once in the free ones or in the used ones, and nothing else does.
abbrev pub IsPartitioned : ℕ → Scheduler → Type 0
IsPartitioned n s =
    (g : ℕ) → count g s.free_sgroups + count g s.used_sgroups ≡ (if ltb g n then 1 else 0)

absent : (g : ℕ) (xs : List ℕ) → count g xs ≡ 0 → any_of (nat_beq g) xs ≡ false
absent g [] h = refl
absent g (x ∷ xs) h = ground (arith, absent g xs)

count-add_to_set :
    (g k : ℕ) (xs : List ℕ)
    → count g xs ≡ 0
    → count k (add_to_set g xs) ≡ count k xs + (if nat_beq k g then 1 else 0)
count-add_to_set g k xs h = rw (absent g xs h, count-append k xs (g ∷ [])) (omega arith)

module _ (n : ℕ) where
  abbrev Grouped : World → Type 0
  Grouped w = IsPartitioned n w.sched

  abbrev Keeps : {A : Type 0} → Exec World A → Type 0
  Keeps m = Preserves Grouped m

  join_group-Keeps :
      (g now : ℕ) (o : Option Task) (i : String) (w : World)
      → IsPartitioned n w.sched
      → IsPartitioned n (join_group g now o i w).sched
  join_group-Keeps g now none i w h = h
  join_group-Keeps g now (some t) i w h = h

  join_groups-Keeps :
      (g now : ℕ) (ids : List String) (w : World)
      → IsPartitioned n w.sched
      → IsPartitioned n (join_groups g now ids w).sched
  unfolding join_groups
  join_groups-Keeps g now [] w h = h
  join_groups-Keeps g now (i ∷ is) w h =
      join_groups-Keeps g now is _ (join_group-Keeps g now (get w.tasks.pool i) i w h)

  assign-Keeps : (es : List Entry) → Keeps (assign es)
  unfolding assign assign_from
  assign-Keeps es w h = by_free w.sched.free_sgroups refl
    where
      by_free :
          (l : List ℕ)
          → w.sched.free_sgroups ≡ l
          → IsPartitioned n (assign_from l (ids_of es) w).1.sched
      by_free [] e = h
      by_free (g ∷ free) e =
          let total : (k : ℕ)
              → count k (g ∷ free) + count k w.sched.used_sgroups ≡ (if ltb k n then 1 else 0) =
            rw e at h in
          join_groups-Keeps g w.sched.scheduling_ts (ids_of es) _ (λ k.
            let unused : count g w.sched.used_sgroups ≡ 0 = ground (arith, total g) in
            ground (arith, total k, count-add_to_set g k w.sched.used_sgroups unused))

  run_decode-Keeps : (es : List Entry) → Keeps (run_decode es)
  unfolding run_decode
  run_decode-Keeps es =
      bind-Preserves Grouped (schedule_decode_tasks es) _
        (schedule_decode_tasks-Preserves Grouped (λ i t v k. k) (λ v c k. k) (λ v k. k) es)
        (λ c w. assign-Keeps (take w.sched.decode_num_tasks c) w)

  prefill_or_decode-Keeps : (es chosen : List Entry) → Keeps (prefill_or_decode es chosen)
  unfolding prefill_or_decode
  prefill_or_decode-Keeps es [] w = run_decode-Keeps es w
  prefill_or_decode-Keeps es (c ∷ chosen) w =
      assign-Keeps (take w.sched.prefill_num_tasks (c ∷ chosen)) w

  choose-Keeps : (es : List Entry) → Keeps (choose es)
  unfolding choose run_prefill
  choose-Keeps [] w h = h
  choose-Keeps (e ∷ es) w h = elim (Bool-cases (is_prefill (e.1).task_type)) [
    | inl p ↦ rw p (
        bind-Preserves Grouped (schedule_prefill_tasks (e ∷ es)) (prefill_or_decode (e ∷ es))
          (schedule_prefill_tasks-Preserves Grouped (λ i t v k. k) (λ v c k. k) (λ v k. k) (e ∷ es))
          (prefill_or_decode-Keeps (e ∷ es)) w h)
    | inr p ↦ rw p (elim (Bool-cases (is_decode (e.1).task_type)) [
      | inl d ↦ rw d (run_decode-Keeps (e ∷ es) w h)
      | inr d ↦ rw d h
    ])
  ]

-- Scheduling keeps every group either free or used, whether a batch is returned or the call raises.
pub schedule-IsPartitioned :
    (n now : ℕ) (w : World) → IsPartitioned n w.sched → IsPartitioned n (schedule now w).1.sched
unfolding schedule
schedule-IsPartitioned n now w h = elim (Bool-cases (is_empty w.tasks)) [
  | inl p ↦ rw p h
  | inr p ↦ rw p (elim (Bool-cases (no_group w.sched.free_sgroups)) [
    | inl q ↦ rw q h
    | inr q ↦ rw q (
        bind-Preserves (λ v. IsPartitioned n v.sched)
          (lift
            (candidates w.sched.strict_allowed_task_type (resolve w.tasks.pool w.tasks.id_list)))
          _ (λ v k. k) (λ es v k. choose-Keeps n (ranked v es) v k) (at_time now w) h)
  ])
]
