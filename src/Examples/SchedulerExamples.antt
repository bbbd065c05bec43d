-- ===== src/Examples/SchedulerExamples.antt =====
-- A scheduler with one task to prefill and one that decodes.
use mathlib.Core.List.{reverse}
use chitu.Base.{
  ℕ, ◌+◌, ◌≤◌, ◌<◌, ◌≡◌, refl, min, Option, none, some, String, List, [], ◌∷◌, ◌++◌, arith, length,
  keep, All, ok, true, not, Bool, if◌then◌else◌, ltb, nat_beq, get, Dict, Bool-cases, inl, inr,
  string_eq,
}
use chitu.Task.{Task, prefill, decode}
use chitu.Cache.Paged.{num_free_blocks, grow_prefill}
use chitu.Cache.Paged.Blocks.{held}
use chitu.Cache.Paged.Release.{WellKept}
use chitu.Cache.Paged.Capacity.{Fits}
use chitu.Scheduler.State.{World, Scheduler, Entry, has_type}
use chitu.Scheduler.Rank.{outranks, sort_by}
use chitu.Scheduler.Batches.{
  chunk_tasks, schedule_prefill_tasks, schedule_decode_tasks, decode_demand,
}
use chitu.Scheduler.Budget.{InPrefill, batch_req_ids, batch_lens, scheduled_batch-Fits}
use chitu.Scheduler.Batches.Cleared.{Cleared}
use chitu.Scheduler.Eviction.{IsRestored, schedule_decode_tasks_lem}
use chitu.Scheduler.Groups.{IsPartitioned, schedule-IsPartitioned}
use chitu.Scheduler.Skew.{group_tasks, group_tasks-eq}
use chitu.Scheduler.Sound.{IsSound, schedule-IsSound}
use chitu.Scheduler.{schedule, update, is_idle}
use chitu.Examples.Values.{config, new_task, old_task, task, scheduler, world, used_cache}

abbrev entries : List Entry
entries = ("a", old_task) ∷ ("b", new_task) ∷ []

abbrev chosen : List Entry
chosen = ("b", record new_task { prefill_chunk_size = some 3 }) ∷ []

abbrev after_choice : World
after_choice = (schedule_prefill_tasks entries world).1

chosen_so : schedule_prefill_tasks entries world ≡ (ok chosen, after_choice)
unfolding schedule_prefill_tasks chitu.Scheduler.Batches.hopeless
    chitu.Scheduler.Batches.num_fitting chitu.Scheduler.Batches.count_fitting
    chitu.Scheduler.Batches.prefill_candidates chunk_tasks chitu.Task.prefix_tokens_len
    chitu.Scheduler.Batches.blocks_for_prefill chitu.Cache.Paged.num_additional_blocks_req_need get
    chitu.Task.set_prefill_chunk_size_for_one_step chitu.Task.next_req_tokens
    chitu.Task.next_req_tokens_len
chosen_so = refl

scheduled_batch-Fits_example :
    Fits used_cache
      (batch_req_ids chosen)
      (batch_lens config chosen)
      (grow_prefill (batch_req_ids chosen) (batch_lens config chosen) used_cache)
scheduled_batch-Fits_example =
    scheduled_batch-Fits entries chosen world after_choice chosen_so (omega arith) (omega arith)
      (omega arith) (refl, tt)

abbrev two_prompts : List Entry
two_prompts = ("b", new_task) ∷ ("c", task "c" prefill (1 ∷ 2 ∷ 3 ∷ [])) ∷ []

two-InPrefill : All InPrefill two_prompts
two-InPrefill = ((refl, omega arith), ((refl, omega arith), tt))

-- Two requests hold all blocks but one, and each of them would need another one.
abbrev full : World
full = record world {
  sched = record scheduler { kvcache_block_threshold = 5; chunk_size = none };
  cache = record used_cache {
    num_blocks = 5;
    block_table = ("a", 0 ∷ []) ∷ ("b", 1 ∷ 2 ∷ 3 ∷ []) ∷ [];
    free_blocks = [];
    base = record used_cache.base { req_id_to_seq_len = ("a", 4) ∷ ("b", 12) ∷ [] };
  };
}

abbrev decoding : List Entry
decoding =
    ("a", old_task) ∷ ("b", record (task "b" decode (1 ∷ 2 ∷ [])) { consumed_req_tokens = 2 }) ∷ []

abbrev after_eviction : World
after_eviction = (schedule_decode_tasks decoding full).1

evicted_so : schedule_decode_tasks decoding full ≡ (ok (("a", old_task) ∷ []), after_eviction)
unfolding schedule_decode_tasks decode_demand chitu.Task.has_model_run
    chitu.Cache.Paged.num_additional_blocks_req_need get chitu.Task.prefix_tokens_len
    chitu.Scheduler.Batches.evict_decode_task chitu.Cache.Paged.finalize_cache_all_decode
    chitu.Cache.Requests.base_finalize_cache_all_decode chitu.Base.remove
evicted_so = refl

full-WellKept : WellKept full.cache
unfolding get
full-WellKept = record {
  tables_once = (refl, (refl, tt));
  lens_once = (refl, (refl, tt));
  known = λ q h. elim (Bool-cases (string_eq.beq "a" q)) [
    | inl e ↦ absurd (ground (arith, e, h))
    | inr e ↦ elim (Bool-cases (string_eq.beq "b" q)) [
      | inl f ↦ absurd (ground (arith, e, f, h))
      | inr f ↦ ground (arith, e, f)
    ]
  ];
}

schedule_decode_tasks_lem_example :
    (gone : List Entry) × (keep (has_type decode) decoding ≡ (("a", old_task) ∷ []) ++ reverse gone)
    × All (λ e. IsRestored after_eviction e.0) gone
    × Cleared gone full.cache after_eviction.cache
    × ((b : ℕ) → held after_eviction.cache b ≡ held full.cache b)
    × (decode_demand after_eviction.infer after_eviction.cache (reverse (("a", old_task) ∷ []))
        ≤ num_free_blocks after_eviction.cache)
    × (0 < full.sched.kvcache_block_threshold → 0 < after_eviction.sched.kvcache_block_threshold)
schedule_decode_tasks_lem_example =
    schedule_decode_tasks_lem decoding (("a", old_task) ∷ []) full after_eviction full-WellKept
      evicted_so

scheduler-IsPartitioned : IsPartitioned 2 scheduler
scheduler-IsPartitioned = λ g. ground arith

schedule-IsPartitioned_example : IsPartitioned 2 (schedule 9 world).1.sched
schedule-IsPartitioned_example = schedule-IsPartitioned 2 9 world scheduler-IsPartitioned

abbrev scheduled : World
scheduled = (schedule 9 world).1

scheduled_so : schedule 9 world ≡ (ok ("b" ∷ []), scheduled)
unfolding schedule chitu.Scheduler.State.resolve get chitu.Scheduler.choose sort_by
    chitu.Scheduler.State.is_ready chitu.Task.need_remove outranks chitu.Scheduler.Rank.key
    chitu.Scheduler.run_prefill schedule_prefill_tasks chitu.Scheduler.Batches.hopeless
    chitu.Scheduler.Batches.num_fitting chitu.Scheduler.Batches.count_fitting
    chitu.Scheduler.Batches.prefill_candidates chunk_tasks chitu.Task.prefix_tokens_len
    chitu.Base.put chitu.Cache.Paged.ceil_div chitu.Cache.Paged.num_additional_blocks_req_need
    chitu.Scheduler.Batches.blocks_for_prefill chitu.Scheduler.Rank.insert_by
    chitu.Scheduler.State.set_tasks chitu.Scheduler.assign chitu.Scheduler.assign_from
    chitu.Scheduler.join_groups chitu.Scheduler.prefill_or_decode chitu.Task.completes_prefill
    chitu.Task.next_req_tokens chitu.Task.next_req_tokens_len
    chitu.Task.set_prefill_chunk_size_for_one_step
scheduled_so = refl

schedule-IsSound_example : IsSound world ("b" ∷ [])
schedule-IsSound_example = schedule-IsSound 9 ("b" ∷ []) world scheduled scheduled_so

-- Group 1 is in use, and the only task in it has stopped waiting.
abbrev running : World
running = record world {
  sched = record scheduler {
    free_sgroups = 0 ∷ [];
    used_sgroups = 1 ∷ [];
    sgroup_waiting_tasks = (1, "b" ∷ []) ∷ [];
  };
  tasks = record world.tasks {
    pool = ("b", record new_task { sched_group_id = some 1 }) ∷ [];
    id_list = "b" ∷ [];
  };
}

running-IsPartitioned : IsPartitioned 2 running.sched
running-IsPartitioned = λ g. ground arith

abbrev updated : World
updated = (update ("b" ∷ []) [] running).1

updated_so : update ("b" ∷ []) [] running ≡ (ok [], updated)
unfolding update chitu.Scheduler.leave_groups get chitu.Pool.remove_id chitu.Scheduler.remove_done
    chitu.Task.need_remove
updated_so = refl

-- A group of two tasks that decode and three that do not yet.
abbrev decoding_task : Task
decoding_task = task "d" decode (1 ∷ [])

abbrev arriving : Task
arriving = task "p" prefill (1 ∷ [])

abbrev group_pool : Dict String Task
group_pool =
    ("a", decoding_task)
    ∷ ("b", decoding_task)
    ∷ ("c", arriving)
    ∷ ("d", arriving)
    ∷ ("e", arriving)
    ∷ []

group_tasks-eq_example :
    group_tasks (some 8) group_pool (("a" ∷ "b" ∷ []) ++ ("c" ∷ "d" ∷ "e" ∷ []))
    ≡ ok ("c" ∷ "d" ∷ "e" ∷ [])
unfolding chitu.Base.get
group_tasks-eq_example =
    group_tasks-eq 8 group_pool ("a" ∷ "b" ∷ []) ("c" ∷ "d" ∷ "e" ∷ [])
      ((decoding_task, refl, refl), ((decoding_task, refl, refl), tt))
      ((arriving, refl, refl), ((arriving, refl, refl), ((arriving, refl, refl), tt))) (omega arith)
