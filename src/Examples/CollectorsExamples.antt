-- ===== src/Examples/CollectorsExamples.antt =====
-- Two requests of a pipeline under way, one behind the other.
use chitu.Base.{
  ℕ, ◌+◌, ◌≡◌, refl, Bool, true, false, none, some, String, List, [], ◌∷◌, arith, length, ok,
  string_eq, nat_eq,
}
use chitu.Task.{Task, TaskType, decode, wait}
use chitu.Collectors.{
  PackedTasks, OngoingRequests, DpTaskCollector, PpTaskCollector, Collectors, update_ongoing,
}
use chitu.Collectors.Sweep.{IsUnderWay, after_sweep, update_ongoing-eq}
use chitu.Collectors.Drain.{HandedOver, updates, updates-HandedOver}
use chitu.Examples.Values.{task}

abbrev packed : List String → PackedTasks
packed ids = record {
  task_ids = ids;
  tasks = ids;
  task_type = decode;
  num_tasks = length ids;
  return_logprobs = false;
  generated_result = none;
}

abbrev waiting_task : String → ℕ → Task
waiting_task id h = record (task id decode (21 ∷ 22 ∷ [])) { is_waiting = true; handle = some h }

abbrev no_batch : DpTaskCollector
no_batch = record {
  total_packedtasks = none;
  task_ids_list = [];
  ongoing_num_tasks = [];
  ongoing_batch_task_ids = [];
  ongoing_packedtasks = [];
  collected_tokens = none ∷ [];
}

abbrev under_way : Collectors
under_way = record {
  dp_size = 1;
  tasks = ("a", waiting_task "a" 7) ∷ ("b", waiting_task "b" 7) ∷ ("c", waiting_task "c" 8) ∷ [];
  dp = no_batch;
  pp = record {
    ongoing_reqs =
        record {
          waiting_task = packed ("a" ∷ "b" ∷ []);
          handle = 7;
          results = 31 ∷ 32 ∷ [];
          dp_src = 0;
        }
        ∷ record { waiting_task = packed ("c" ∷ []); handle = 8; results = 33 ∷ []; dp_src = 0 }
        ∷ [];
    unwait_tasks = [];
  };
}

under_way-IsUnderWay : IsUnderWay under_way
unfolding chitu.Base.get
under_way-IsUnderWay = record {
  alone = refl;
  tasks_once = (refl, (refl, (refl, tt)));
  handles_once = (refl, (refl, tt));
  all_wait = (refl, (refl, (refl, tt)));
}

abbrev completed : ℕ → Bool
completed h = true

update_ongoing-eq_example :
    update_ongoing completed under_way
    ≡ (ok (after_sweep completed under_way).pp.unwait_tasks, after_sweep completed under_way)
update_ongoing-eq_example = update_ongoing-eq completed under_way under_way-IsUnderWay

-- Both are completed, and one call takes only the first.
one_left : length (update_ongoing completed under_way).1.pp.ongoing_reqs ≡ 1
unfolding update_ongoing chitu.Base.get chitu.Collectors.finish_request chitu.Collectors.unwait_each
    chitu.Collectors.unwait_task chitu.Task.unwait chitu.Base.put chitu.Collectors.remove_request
one_left = refl

updates-HandedOver_example : HandedOver under_way (updates (completed ∷ completed ∷ []) under_way)
updates-HandedOver_example =
    updates-HandedOver (completed ∷ completed ∷ []) under_way under_way-IsUnderWay
      ((refl, (refl, tt)), ((refl, (refl, tt)), tt)) (omega arith)
