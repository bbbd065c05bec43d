-- ===== src/Collectors.antt =====
-- chitu/task.py: the tasks of a step packed together (`PackedTasks`, without the tensors of the
-- sampling parameters), and the collectors that wait for the results of steps under way:
-- `PPTaskCollector` for pipelines, `DPTaskCollector` for data parallelism. A task is an object that
-- several of these refer to: `tasks` has the task objects by their ids. A tensor of results is its
-- list of rows. A request under way is told from others by its handle, of which each receive makes
-- a new one.
pub mod Sweep
pub mod Drain
use chitu.Base.{
  ℕ, zero, suc, ◌+◌, ◌-◌, Bool, true, false, ◌&&◌, ◌||◌, Option, none, some, String, List, [], ◌∷◌,
  ◌++◌, map, ltb, leb, nat_beq, if◌then◌else◌, length, get_elem?, set, replicate, keep, any_of,
  all_of, Dict, get, put, Exec, Result, ok, raise, Error, assertion_error, key_error, index_error,
  runtime_error, attribute_error, ◌>>=◌, ◌>>◌, modify, gets, pure, throw, lift, assert, continue,
  string_eq, has_key,
}
use chitu.Task.{
  Task, TaskType, Infer, prefill, decode, empty_prefill, empty_decode, special, has_output, unwait,
  wait,
}
use chitu.Scheduler.State.{Entry, resolve, ids_of, has_type}

pub record PackedTasks : Type 0 where
  pub task_ids : List String
  pub tasks : List String
  pub task_type : TaskType
  pub num_tasks : ℕ
  pub return_logprobs : Bool
  pub generated_result : Option (List ℕ)

pub record OngoingRequests : Type 0 where
  pub waiting_task : PackedTasks
  pub handle : ℕ
  pub results : List ℕ
  pub dp_src : ℕ

pub record DpTaskCollector : Type 0 where
  pub total_packedtasks : Option PackedTasks
  pub task_ids_list : List (List String)
  pub ongoing_num_tasks : List ℕ
  pub ongoing_batch_task_ids : List (List String)
  pub ongoing_packedtasks : List PackedTasks
  pub collected_tokens : List (Option (List ℕ))

pub record PpTaskCollector : Type 0 where
  pub ongoing_reqs : List OngoingRequests
  pub unwait_tasks : List PackedTasks

pub record Collectors : Type 0 where
  pub dp_size : ℕ
  pub tasks : Dict String Task
  pub dp : DpTaskCollector
  pub pp : PpTaskCollector

-- An empty batch has the empty variant of its type.
abbrev pub empty_type : TaskType → TaskType
empty_type prefill = empty_prefill
empty_type decode = empty_decode
empty_type ty = ty

abbrev pub logprobs_of : Infer → List Entry → Bool
logprobs_of cfg es = any_of (λ e. (e.1).req.logprobs) (keep (λ e. has_output cfg e.1) es)

-- The type of the first task, which all must have. With no tasks: that of the batch of all ranks.
abbrev pub pack : Infer → Result TaskType → List Entry → Result PackedTasks
pack cfg (raise e) [] = raise e
pack cfg (ok ty) [] = ok (record {
  task_ids = [];
  tasks = [];
  task_type = empty_type ty;
  num_tasks = 0;
  return_logprobs = false;
  generated_result = none;
})
pack cfg ty (e ∷ es) =
    if all_of (has_type (e.1).task_type) (e ∷ es)
    then ok (record {
      task_ids = ids_of (e ∷ es);
      tasks = ids_of (e ∷ es);
      task_type = (e.1).task_type;
      num_tasks = length (e ∷ es);
      return_logprobs = logprobs_of cfg (e ∷ es);
      generated_result = none;
    })
    else raise assertion_error

abbrev pack_all : Infer → Result TaskType → Result (List Entry) → Result PackedTasks
pack_all cfg ty (raise e) = raise e
pack_all cfg ty (ok es) = pack cfg ty es

unfoldable pub packed_tasks :
    Infer → Dict String Task → Result TaskType → List String → Result PackedTasks
packed_tasks cfg pool ty ids = pack_all cfg ty (resolve pool ids)

-- DPTaskCollector

abbrev pub get_current_task_type : DpTaskCollector → Result TaskType
get_current_task_type d = elim d.total_packedtasks [
  | none ↦ raise attribute_error
  | some p ↦ ok p.task_type
]

abbrev concat {ℓ} : {A : Type ℓ} → List (List A) → List A
concat [] = []
concat (xs ∷ xss) = xs ++ concat xss

abbrev install_total : Result PackedTasks → Exec DpTaskCollector (Unit {0})
install_total (raise e) d = (raise e, d)
install_total (ok p) d =
    if p.return_logprobs
    then (raise assertion_error, record d { total_packedtasks = some p })
    else (ok tt, record d { total_packedtasks = some p })

unfoldable pub prepare_dp_tasks :
    Infer → Dict String Task → List (List String) → Exec DpTaskCollector (Unit {0})
unfolding packed_tasks
prepare_dp_tasks cfg pool lists d =
    install_total (packed_tasks cfg pool (get_current_task_type d) (concat lists))
      (record d { task_ids_list = lists })

unfoldable pub clear : DpTaskCollector → DpTaskCollector
clear d = record d { total_packedtasks = none; task_ids_list = [] }

unfoldable pub add_new_ongoing : Exec DpTaskCollector (Unit {0})
add_new_ongoing d = elim d.total_packedtasks [
  | none ↦ (raise attribute_error, d)
  | some p ↦ (
    ok tt,
    record d {
      ongoing_batch_task_ids = d.ongoing_batch_task_ids ++ p.task_ids ∷ [];
      ongoing_num_tasks = d.ongoing_num_tasks ++ p.num_tasks ∷ [];
      ongoing_packedtasks = d.ongoing_packedtasks ++ p ∷ [];
    },
  )
]

abbrev rest_of {ℓ} : {A : Type ℓ} → List A → List A
rest_of [] = []
rest_of (x ∷ xs) = xs

-- The three queues have the same length.
unfoldable pub remove_ongoing : Exec DpTaskCollector PackedTasks
remove_ongoing d = elim d.ongoing_packedtasks [
  | [] ↦ (raise assertion_error, d)
  | p ∷ ps ↦ (
    ok p,
    record d {
      ongoing_batch_task_ids = rest_of d.ongoing_batch_task_ids;
      ongoing_num_tasks = rest_of d.ongoing_num_tasks;
      ongoing_packedtasks = ps;
    },
  )
]

abbrev count_down :
    ℕ → PackedTasks → List ℕ → List ℕ → List (List String) → Exec DpTaskCollector (Unit {0})
count_down src p tokens [] ids d = (raise assertion_error, d)
count_down src p tokens (n ∷ ns) [] d = (raise index_error, d)
count_down src p tokens (n ∷ ns) (ids ∷ idss) d =
    if leb p.num_tasks n && all_of (λ i. has_key i ids) p.task_ids
    then if ltb src (length d.collected_tokens)
      then (
        ok tt,
        record d {
          ongoing_num_tasks = (n - p.num_tasks) ∷ ns;
          collected_tokens = set d.collected_tokens src (some tokens);
        },
      )
      else (raise index_error, record d { ongoing_num_tasks = (n - p.num_tasks) ∷ ns })
    else (raise assertion_error, d)

-- DPTaskCollector.update_ongoing: a rank's part of the first batch has come.
unfoldable pub update_batch : ℕ → PackedTasks → List ℕ → Exec DpTaskCollector (Unit {0})
update_batch src p tokens d =
    if nat_beq p.num_tasks 0
    then (ok tt, d)
    else count_down src p tokens d.ongoing_num_tasks d.ongoing_batch_task_ids d

unfoldable pub batch_finished : DpTaskCollector → Bool
batch_finished d = elim d.ongoing_num_tasks [ [] ↦ false | n ∷ ns ↦ nat_beq n 0 ]

unfoldable pub reset_collect_tokens : ℕ → DpTaskCollector → DpTaskCollector
reset_collect_tokens dp_size d = record d { collected_tokens = replicate dp_size none }

abbrev pub given {ℓ} : {A : Type ℓ} → List (Option A) → List A
given [] = []
given (none ∷ os) = given os
given (some a ∷ os) = a ∷ given os

abbrev concat_tensors : List (List ℕ) → Result (List ℕ)
concat_tensors [] = raise runtime_error
concat_tensors (t ∷ ts) = ok (concat (t ∷ ts))

unfoldable pub get_collected_tokens_tensor : DpTaskCollector → Result (List ℕ)
get_collected_tokens_tensor d = concat_tensors (given d.collected_tokens)

-- PPTaskCollector

abbrev pub on_dp : {A : Type 0} → Exec DpTaskCollector A → Exec Collectors A
on_dp m c = ((m c.dp).0, record c { dp = (m c.dp).1 })

abbrev store_task : String → Result Task → Exec Collectors (Unit {0})
store_task i (raise e) c = (raise e, c)
store_task i (ok t) c = (ok tt, record c { tasks = put c.tasks i t })

abbrev unwait_found : String → Option Task → Exec Collectors (Unit {0})
unwait_found i none c = (raise key_error, c)
unwait_found i (some t) c = store_task i (unwait t) c

-- task.unwait() for a task object
unfoldable pub unwait_task : String → Exec Collectors (Unit {0})
unwait_task i c = unwait_found i (get c.tasks i) c

unfoldable pub unwait_each : List String → Exec Collectors (Unit {0})
unwait_each [] = pure tt
unwait_each (i ∷ is) = unwait_task i >> unwait_each is

abbrev pub push_unwait : PackedTasks → Collectors → Collectors
push_unwait p c = record c { pp = record c.pp { unwait_tasks = c.pp.unwait_tasks ++ p ∷ [] } }

abbrev pub with_result : List ℕ → PackedTasks → PackedTasks
with_result rows p = record p { generated_result = some rows }

-- A batch of all ranks whose parts have come: it leaves the queue with the tokens of all.
unfoldable pub finish_batch : Exec Collectors (Unit {0})
unfolding remove_ongoing get_collected_tokens_tensor reset_collect_tokens
finish_batch = do
  batch ← on_dp remove_ongoing
  rows ← λ c. (get_collected_tokens_tensor c.dp, c)
  modify (push_unwait (with_result rows batch))
  modify (λ c. record c { dp = reset_collect_tokens c.dp_size c.dp })
  unwait_each batch.tasks

-- What is done with a request whose handle is completed.
unfoldable pub finish_request : OngoingRequests → Exec Collectors (Unit {0})
unfolding update_batch batch_finished finish_batch
finish_request r c =
    if leb c.dp_size 1
    then (modify (push_unwait (with_result r.results r.waiting_task))
          >> unwait_each r.waiting_task.tasks)
        c
    else (on_dp (update_batch r.dp_src r.waiting_task r.results)
          >> (λ d. (if batch_finished d.dp then finish_batch else pure tt) d))
        c

-- _ongoing_reqs.remove(ogr)
unfoldable pub remove_request : ℕ → List OngoingRequests → List OngoingRequests
remove_request h [] = []
remove_request h (r ∷ rs) = if nat_beq r.handle h then rs else r ∷ remove_request h rs

abbrev pub drop_request : OngoingRequests → Collectors → Collectors
drop_request r c = record c {
  pp = record c.pp { ongoing_reqs = remove_request r.handle c.pp.ongoing_reqs };
}

abbrev pub visit : (ℕ → Bool) → Option OngoingRequests → Exec Collectors (Unit {0})
visit completed none = pure tt
visit completed (some r) =
    if completed r.handle then modify (drop_request r) >> finish_request r else pure tt

-- The loop over a list from which its body removes: the next round looks at the next index. The
-- list does not grow, so as many rounds as it is long are enough.
unfoldable pub update_from : (ℕ → Bool) → ℕ → ℕ → Exec Collectors (Unit {0})
update_from completed zero i = pure tt
update_from completed (suc n) i =
    (λ c. visit completed (get_elem? c.pp.ongoing_reqs i) c) >> update_from completed n (suc i)

-- PPTaskCollector.update_ongoing, with what is_completed() says of each handle
unfoldable pub update_ongoing : (ℕ → Bool) → Exec Collectors (List PackedTasks)
unfolding update_from
update_ongoing completed = do
  (λ c. update_from completed (length c.pp.ongoing_reqs) 0 c)
  gets (λ c. c.pp.unwait_tasks)

abbrev wait_found : ℕ → String → Option Task → Exec Collectors (Unit {0})
wait_found h i none c = (raise key_error, c)
wait_found h i (some t) c = (ok tt, record c { tasks = put c.tasks i (wait h t) })

unfoldable pub wait_each : ℕ → List String → Exec Collectors (Unit {0})
wait_each h [] = pure tt
wait_each h (i ∷ is) = (λ c. wait_found h i (get c.tasks i) c) >> wait_each h is

-- PPTaskCollector.add_new_ongoing
unfoldable pub add_request : OngoingRequests → Exec Collectors (Unit {0})
unfolding wait_each
add_request r = do
  modify (λ c. record c { pp = record c.pp { ongoing_reqs = c.pp.ongoing_reqs ++ r ∷ [] } })
  wait_each r.handle r.waiting_task.tasks
