-- ===== src/Scheduler/State.antt =====
-- chitu/scheduler.py: the state of a `Scheduler`, and of what it reads and writes elsewhere: the
-- task pool and the paged cache manager of its node.
use chitu.Base.{
  ℕ, Bool, ◌&&◌, Option, none, some, String, List, [], ◌∷◌, nat_beq, Dict, get, put, Exec, Result,
  ok, raise, key_error, string_eq, not,
}
use chitu.Task.{
  Task, TaskType, Infer, prefill, decode, empty_prefill, empty_decode, special, need_remove,
}
use chitu.Pool.{TaskPool}
use chitu.Cache.Paged.{Paged}

-- The scoring methods, named as in the configuration.
pub data Scorer : Type 0 where
  request_preset prefill_first fcfs stride deadline prefix_align : Scorer

pub record Scheduler : Type 0 where
  pub prefill_num_tasks : ℕ
  pub decode_num_tasks : ℕ
  pub chunk_size : Option ℕ
  pub free_sgroups : List ℕ
  pub used_sgroups : List ℕ
  pub sgroup_waiting_tasks : Dict ℕ (List String)
  pub strict_allowed_task_type : Option TaskType
  pub scorers : List Scorer
  pub kvcache_block_threshold : ℕ
  pub is_warmup_stage : Bool
  pub scheduling_ts : ℕ

pub record World : Type 0 where
  pub infer : Infer
  pub sched : Scheduler
  pub tasks : TaskPool
  pub cache : Paged

-- An id with its task in the pool.
abbrev pub Entry : Type 0
Entry = String × Task

abbrev pub ids_of : List Entry → List String
ids_of [] = []
ids_of ((i, _) ∷ es) = i ∷ ids_of es

abbrev pub cons_entry : String → Option Task → Result (List Entry) → Result (List Entry)
cons_entry i none es = raise key_error
cons_entry i (some t) (raise e) = raise e
cons_entry i (some t) (ok es) = ok ((i, t) ∷ es)

-- [TaskPool.pool[x] for x in ids]
unfoldable pub resolve : Dict String Task → List String → Result (List Entry)
resolve pool [] = ok []
resolve pool (i ∷ is) = cons_entry i (get pool i) (resolve pool is)

abbrev pub set_task : String → Task → World → World
set_task i t w = record w { tasks = record w.tasks { pool = put w.tasks.pool i t } }

-- The changed tasks are written back.
unfoldable pub set_tasks : List Entry → World → World
set_tasks [] w = w
set_tasks ((i, t) ∷ es) w = set_tasks es (set_task i t w)

abbrev pub type_code : TaskType → ℕ
type_code prefill = 1
type_code decode = 2
type_code empty_prefill = 3
type_code empty_decode = 4
type_code special = 10

abbrev pub has_type : TaskType → Entry → Bool
has_type ty e = nat_beq (type_code (e.1).task_type) (type_code ty)

unfoldable pub is_ready : Entry → Bool
is_ready e = not (e.1).is_waiting && not (need_remove e.1)

abbrev pub on_cache : Exec Paged (Unit {0}) → Exec World (Unit {0})
on_cache m w = ((m w.cache).0, record w { cache = (m w.cache).1 })
