-- ===== src/Scheduler/Groups/Update.antt =====
-- The groups that `update` frees: those with no waiting task left.
use chitu.Base.{
  ℕ, ◌+◌, ◌≡◌, refl, Bool, true, false, inl, inr, Option, none, some, String, List, [], ◌∷◌, arith,
  if◌then◌else◌, Bool-cases, All, ◌&&◌, bind-eq-ok, Exec, Result, ok, raise, keep, get, count,
  count-append, ◌>>◌, pure, modify, Preserves, bind-Preserves, not, nat_eq, string_eq,
}
use chitu.Task.{Task, is_decode, need_remove}
use chitu.Pool.{remove_task, TaskPool}
use chitu.Scheduler.State.{World, Scheduler}
use chitu.Scheduler.{
  update, free_idle, is_idle, leave_groups, leave_group, drop_waiting, get_task, remove_done, found,
  set_pool, remove_from_pool, restore_threshold,
}
use chitu.Scheduler.Groups.{IsPartitioned}

count-keep-split :
    (k : ℕ) (test : ℕ → Bool) (xs : List ℕ)
    → count k (keep (λ g. not (test g)) xs) + count k (keep test xs) ≡ count k xs
count-keep-split k test [] = refl
count-keep-split k test (x ∷ xs) = elim (Bool-cases (test x)) [
  | inl e ↦ rw e (omega (arith, count-keep-split k test xs))
  | inr e ↦ rw e (omega (arith, count-keep-split k test xs))
]

keep-All : (test : ℕ → Bool) (xs : List ℕ) → All (λ g. test g ≡ true) (keep test xs)
keep-All test [] = tt
keep-All test (x ∷ xs) = elim (Bool-cases (test x)) [
  | inl e ↦ rw e (e, keep-All test xs)
  | inr e ↦ rw e (keep-All test xs)
]

free_idle-IsPartitioned :
    (n : ℕ) (s : Scheduler) → IsPartitioned n s → IsPartitioned n (free_idle s)
unfolding free_idle
free_idle-IsPartitioned n s h g = omega (
  arith,
  h g,
  count-keep-split g (is_idle s) s.used_sgroups,
  count-append g s.free_sgroups (keep (is_idle s) s.used_sgroups),
)

module _ (n : ℕ) where
  abbrev Grouped : World → Type 0
  Grouped w = IsPartitioned n w.sched

  abbrev Stays : {A : Type 0} → Exec World A → Type 0
  Stays m = Preserves Grouped m

  found-Stays : (o : Option Task) → Stays (found o)
  found-Stays none w h = h
  found-Stays (some t) w h = h

  get_task-Stays : (i : String) → Stays (get_task i)
  get_task-Stays i w h = found-Stays (get w.tasks.pool i) w h

  drop_waiting-Stays : (g : ℕ) (o : Option (List String)) → Stays (drop_waiting g o)
  drop_waiting-Stays g none w h = h
  drop_waiting-Stays g (some ids) w h = h

  leave_group-Stays : (o : Option ℕ) (i : String) → Stays (leave_group o i)
  leave_group-Stays none i w h = h
  leave_group-Stays (some g) i w h = drop_waiting-Stays g _ w h

  leave_groups-Stays : (ids : List String) → Stays (leave_groups ids)
  unfolding leave_groups
  leave_groups-Stays [] w h = h
  leave_groups-Stays (i ∷ is) w h =
      bind-Preserves Grouped (get_task i)
        (λ t. (if t.is_waiting then pure tt else leave_group t.sched_group_id i) >> leave_groups is)
        (get_task-Stays i)
        (λ t.
          bind-Preserves Grouped (if t.is_waiting then pure tt else leave_group t.sched_group_id i)
            (λ _. leave_groups is)
            (λ v k. elim (Bool-cases t.is_waiting) [
              | inl e ↦ rw e k
              | inr e ↦ rw e (leave_group-Stays t.sched_group_id i v k)
            ])
            (λ _. leave_groups-Stays is))
        w h

  set_pool-Stays : (r : Result TaskPool) → Stays (set_pool r)
  set_pool-Stays (raise e) w h = h
  set_pool-Stays (ok p) w h = h

  when-Stays : (b : Bool) (m : Exec World (Unit {0})) → Stays m → Stays (if b then m else pure tt)
  when-Stays true m k w h = k w h
  when-Stays false m k w h = h

  remove_done-Stays : (ids : List String) → Stays (remove_done ids)
  unfolding remove_done
  remove_done-Stays [] w h = h
  remove_done-Stays (i ∷ is) w h =
      bind-Preserves Grouped (get_task i) _ (get_task-Stays i)
        (λ t.
          bind-Preserves Grouped
            (if need_remove t && is_decode t.task_type then modify restore_threshold else pure tt) _
            (when-Stays (need_remove t && is_decode t.task_type) (modify restore_threshold)
              (λ v k. k))
            (λ _.
              bind-Preserves Grouped (if need_remove t then remove_from_pool i else pure tt) _
                (when-Stays (need_remove t) (remove_from_pool i)
                  (λ v. set_pool-Stays (remove_task i v.tasks) v))
                (λ _.
                  bind-Preserves Grouped (remove_done is) _ (remove_done-Stays is) (λ r v k. k))))
        w h

-- Updating keeps every group either free or used, whether the call returns or raises.
update-IsPartitioned :
    (n : ℕ) (cur unwait : List String) (w : World)
    → IsPartitioned n w.sched
    → IsPartitioned n (update cur unwait w).1.sched
unfolding update
update-IsPartitioned n cur unwait =
    bind-Preserves (Grouped n) (leave_groups _) _ (leave_groups-Stays n _) (λ _.
      bind-Preserves (Grouped n) (remove_done _) _ (remove_done-Stays n _)
        (λ r v k. free_idle-IsPartitioned n v.sched k))

-- After an update that returns, no group is kept in use without a task that waits in it.
update-busy :
    (cur unwait removed : List String) (w v : World)
    → update cur unwait w ≡ (ok removed, v)
    → All (λ g. not (is_idle v.sched g) ≡ true) v.sched.used_sgroups
unfolding update free_idle
update-busy cur unwait removed w v h =
    let (a, u, _, rest) = bind-eq-ok (leave_groups _) (λ _. _) w v removed h in
    let (r, x, _, last) = bind-eq-ok (remove_done _) _ u v removed rest in
    let e : v ≡ record x { sched = free_idle x.sched } = cc in
    rw e (keep-All (λ g. not (is_idle x.sched g)) x.sched.used_sgroups)
