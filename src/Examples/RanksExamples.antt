-- ===== src/Examples/RanksExamples.antt =====
-- Two ranks, of two slots each, and a chunk of five tokens.
use chitu.Base.{
  ℕ, ◌+◌, ◌≡◌, ◌≤◌, refl, Bool, true, false, none, some, String, List, [], ◌∷◌, arith, ok, Dict,
  string_eq,
}
use chitu.Task.{Task, prefill, decode}
use chitu.Collectors.{DpTaskCollector}
use chitu.Scheduler.Budget.{batch_tokens}
use chitu.Scheduler.Ranks.{DpWorld, prefill_entries, assign_prefill, occupied}
use chitu.Scheduler.DpFifo.{prefill_lists, join, choose_lists, schedule_dp}
use chitu.Scheduler.DpFifo.Capacity.{WithinSlots, schedule_dp-WithinSlots}
use chitu.Scheduler.DpFifo.Chunks.{prefill_lists-batch_tokens}
use chitu.Scheduler.DpFifo.Routes.{IsRouted, choose_lists-IsRouted}
use chitu.Examples.Values.{task, config}

abbrev tasks : Dict String Task
tasks =
    ("a", record (task "a" prefill (1 ∷ 2 ∷ 3 ∷ 4 ∷ [])) { cache_owner = some 1 })
    ∷ ("b", task "b" prefill (5 ∷ 6 ∷ 7 ∷ []))
    ∷ ("c", record (task "c" decode (8 ∷ 9 ∷ [])) { cache_owner = some 0 })
    ∷ []

abbrev collector : DpTaskCollector
collector = record {
  total_packedtasks = none;
  task_ids_list = [];
  ongoing_num_tasks = [];
  ongoing_batch_task_ids = [];
  ongoing_packedtasks = [];
  collected_tokens = none ∷ none ∷ [];
}

abbrev world : DpWorld
world = record {
  infer = config;
  chunk_size = some 5;
  sched = record {
    max_num_tasks_per_dp = 2;
    dp_size = 2;
    have_task = false;
    is_warmup_stage = false;
    rr_owner_cursor = 1;
  };
  pool = tasks;
  collector = collector;
}

world-WithinSlots : WithinSlots world
unfolding occupied chitu.Task.need_remove
world-WithinSlots r h = ground (arith, h)

schedule_dp-WithinSlots_example : WithinSlots (schedule_dp world).1
schedule_dp-WithinSlots_example = schedule_dp-WithinSlots world world-WithinSlots

choose_lists-IsRouted_example : IsRouted world (choose_lists world)
choose_lists-IsRouted_example = choose_lists-IsRouted world (omega arith)

prefill_lists-batch_tokens_example :
    batch_tokens world.infer
      (join (prefill_lists (assign_prefill (prefill_entries world) world) world))
    ≤ 5
prefill_lists-batch_tokens_example =
    prefill_lists-batch_tokens (prefill_entries world) world 5 refl (omega arith)

-- Request "b" goes to rank 1, where the cursor is; rank 0 has nothing to prefill.
scheduled : (schedule_dp world).0 ≡ ok []
unfolding schedule_dp chitu.Task.need_remove chitu.Task.prefix_tokens_len
    chitu.Collectors.prepare_dp_tasks chitu.Scheduler.State.resolve chitu.Base.get
    chitu.Task.has_output chitu.Task.set_prefill_chunk_size_for_one_step
scheduled = refl

sent : (schedule_dp world).1.collector.task_ids_list ≡ [] ∷ ("a" ∷ []) ∷ []
unfolding schedule_dp chitu.Task.need_remove chitu.Task.prefix_tokens_len
    chitu.Collectors.prepare_dp_tasks chitu.Scheduler.State.resolve chitu.Base.get
    chitu.Task.has_output chitu.Task.set_prefill_chunk_size_for_one_step
sent = refl
