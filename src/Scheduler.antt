-- ===== src/Scheduler.antt =====
-- chitu/scheduler.py, `Scheduler`: `schedule` and `update`, on a node whose cache is paged, where
-- `reorder_tasks_for_batching` does nothing. Sets are lists here: `set(...)` keeps the order of the
-- first occurrences, which Python leaves open.
pub mod State
pub mod Rank
pub mod Batches
pub mod Budget
pub mod Eviction
pub mod Groups
pub mod Ready
pub mod Sound
pub mod Ranks
pub mod Skew
pub mod DpFifo
use chitu.Base.{
  ℕ, zero, suc, ◌+◌, ◌-◌, ◌/◌, min, max, Bool, true, false, ◌&&◌, ◌||◌, Option, none, some, String,
  List, [], ◌∷◌, ◌++◌, ltb, leb, nat_beq, if◌then◌else◌, length, take, keep, any_of, get, put,
  get_default, Dict, Exec, Result, ok, raise, key_error, index_error, not_implemented, ◌>>=◌, ◌>>◌,
  modify, gets, pure, throw, lift, string_eq, Error, not, ◌==◌, nat_eq,
}
use chitu.Task.{Task, TaskType, prefill, decode, is_prefill, is_decode, need_remove}
use chitu.Pool.{TaskPool, is_empty, remove_task, remove_id}
use chitu.Scheduler.State.{Scheduler, World, Entry, ids_of, resolve, set_task, has_type, is_ready}
use chitu.Scheduler.Rank.{outranks, scorers_of, sort_by}
use chitu.Scheduler.Batches.{schedule_prefill_tasks, schedule_decode_tasks}

abbrev gate : Option TaskType → List Entry → List Entry
gate none es = es
gate (some ty) es = keep (has_type ty) es

abbrev candidates : Option TaskType → Result (List Entry) → Result (List Entry)
candidates allowed (raise e) = raise e
candidates allowed (ok es) = ok (gate allowed (keep is_ready es))

abbrev add_to_set : ℕ → List ℕ → List ℕ
add_to_set x xs = if any_of (nat_beq x) xs then xs else xs ++ x ∷ []

abbrev join_group : ℕ → ℕ → Option Task → String → World → World
join_group sgroup now none i w = w
join_group sgroup now (some t) i w =
    set_task i (record t { sched_ts = now; sched_group_id = some sgroup }) w

-- for task_id in task_ids: sched_ts, sched_group_id
unfoldable pub join_groups : ℕ → ℕ → List String → World → World
join_groups sgroup now [] w = w
join_groups sgroup now (i ∷ is) w =
    join_groups sgroup now is (join_group sgroup now (get w.tasks.pool i) i w)

-- The end of `schedule`: a free group for the chosen tasks.
unfoldable pub assign_from : List ℕ → List String → Exec World (List String)
unfolding join_groups
assign_from [] ids w = (raise index_error, w)
assign_from (g ∷ free) ids w =
    let s = w.sched in
    (
      ok ids,
      join_groups g s.scheduling_ts ids (record w {
        sched = record s {
          free_sgroups = free;
          used_sgroups = add_to_set g s.used_sgroups;
          sgroup_waiting_tasks = put s.sgroup_waiting_tasks g ids;
        };
      }),
    )

unfoldable pub assign : List Entry → Exec World (List String)
assign es w = assign_from w.sched.free_sgroups (ids_of es) w

unfoldable pub run_decode : List Entry → Exec World (List String)
run_decode entries = do
  chosen ← schedule_decode_tasks entries
  limit ← gets (λ w. w.sched.decode_num_tasks)
  assign (take limit chosen)

-- Without a prefill task that fits, decoding goes on.
unfoldable pub prefill_or_decode : List Entry → List Entry → Exec World (List String)
prefill_or_decode entries [] = run_decode entries
prefill_or_decode entries (c ∷ chosen) = do
  limit ← gets (λ w. w.sched.prefill_num_tasks)
  assign (take limit (c ∷ chosen))

unfoldable pub run_prefill : List Entry → Exec World (List String)
run_prefill entries = do chosen ← schedule_prefill_tasks entries; prefill_or_decode entries chosen

-- The type of the task that ranks first is the type of the batch.
unfoldable pub choose : List Entry → Exec World (List String)
choose [] = pure []
choose (e ∷ es) =
    if is_prefill (e.1).task_type
    then run_prefill (e ∷ es)
    else if is_decode (e.1).task_type
    then run_decode (e ∷ es)
    else throw not_implemented

abbrev ranked : World → List Entry → List Entry
ranked w = sort_by (outranks w.infer w.sched.scheduling_ts (scorers_of w.sched))

abbrev no_group : List ℕ → Bool
no_group [] = true
no_group (g ∷ gs) = false

abbrev at_time : ℕ → World → World
at_time now w = record w { sched = record w.sched { scheduling_ts = now } }

unfoldable pub schedule : ℕ → Exec World (List String)
schedule now w =
    if is_empty w.tasks
    then (ok [], w)
    else if no_group w.sched.free_sgroups
    then (ok [], w)
    else (do
      es ← lift (candidates w.sched.strict_allowed_task_type (resolve w.tasks.pool w.tasks.id_list))
      v ← gets (λ v. v)
      choose (ranked v es))
        (at_time now w)

-- list(set(cur_task_ids + unwait_task_ids))
unfoldable pub distinct_ids : List String → List String
distinct_ids [] = []
distinct_ids (x ∷ xs) =
    let rest = distinct_ids xs in if any_of (λ y. x == y) rest then rest else x ∷ rest

abbrev found : Option Task → Exec World Task
found none w = (raise key_error, w)
found (some t) w = (ok t, w)

abbrev get_task : String → Exec World Task
get_task i w = found (get w.tasks.pool i) w

abbrev drop_waiting : ℕ → Option (List String) → Exec World (Unit {0})
drop_waiting g none w = (raise key_error, w)
drop_waiting g (some ids) w = (
  ok tt,
  record w {
    sched = record w.sched { sgroup_waiting_tasks = put w.sched.sgroup_waiting_tasks g ids };
  },
)

abbrev leave_group : Option ℕ → String → Exec World (Unit {0})
leave_group none i w = (ok tt, w)
leave_group (some g) i w =
    drop_waiting g (remove_id i (get_default w.sched.sgroup_waiting_tasks g [])) w

-- The first loop of `update`: a task that does not wait leaves its group.
unfoldable pub leave_groups : List String → Exec World (Unit {0})
leave_groups [] = pure tt
leave_groups (i ∷ is) = do
  t ← get_task i
  if t.is_waiting then pure tt else leave_group t.sched_group_id i
  leave_groups is

abbrev restore_threshold : World → World
restore_threshold w = record w {
  sched = record w.sched { kvcache_block_threshold = w.cache.num_blocks };
}

abbrev set_pool : Result TaskPool → Exec World (Unit {0})
set_pool (raise e) w = (raise e, w)
set_pool (ok p) w = (ok tt, record w { tasks = p })

abbrev remove_from_pool : String → Exec World (Unit {0})
remove_from_pool i w = set_pool (remove_task i w.tasks) w

-- The second loop: the tasks that are done leave the pool; those that decoded are the result.
unfoldable pub remove_done : List String → Exec World (List String)
remove_done [] = pure []
remove_done (i ∷ is) = do
  t ← get_task i
  let decoded = need_remove t && is_decode t.task_type
  if decoded then modify restore_threshold else pure tt
  if need_remove t then remove_from_pool i else pure tt
  rest ← remove_done is
  pure (if decoded then i ∷ rest else rest)

abbrev pub is_idle : Scheduler → ℕ → Bool
is_idle s g = nat_beq (length (get_default s.sgroup_waiting_tasks g [])) 0

-- The last loop: groups with no waiting task are free again.
unfoldable pub free_idle : Scheduler → Scheduler
free_idle s = record s {
  used_sgroups = keep (λ g. not (is_idle s g)) s.used_sgroups;
  free_sgroups = s.free_sgroups ++ keep (is_idle s) s.used_sgroups;
}

unfoldable pub update : List String → List String → Exec World (List String)
unfolding distinct_ids
update cur_task_ids unwait_task_ids = do
  let ids = distinct_ids (cur_task_ids ++ unwait_task_ids)
  leave_groups ids
  removed ← remove_done ids
  modify (λ w. record w { sched = free_idle w.sched })
  pure removed
