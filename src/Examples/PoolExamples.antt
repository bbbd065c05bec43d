-- ===== src/Examples/PoolExamples.antt =====
-- The task pool.
use chitu.Base.{
  ◌≡◌, refl, Option, none, some, String, List, [], ◌∷◌, true, false, get, has, ok, raise,
  assertion_error, arith, string_eq,
}
use chitu.Task.{Task, prefill}
use chitu.Pool.{TaskPool, add, add_all_queued, remove_task}
use chitu.Pool.Keys.{IsConsistent, remove_task-IsConsistent, add_all_queued-IsConsistent}
use chitu.Examples.Values.{new_task, task}

abbrev empty_pool : TaskPool
empty_pool = record {
  pool = [];
  id_list = [];
  pending_queue = new_task ∷ new_task ∷ [];
  load_score = 0;
}

empty-IsConsistent : IsConsistent empty_pool
unfolding get
empty-IsConsistent = record { ids = refl; distinct = tt; named = λ k t e. cc }

-- The second task with the id is not taken over.
queue-IsConsistent : IsConsistent (add_all_queued empty_pool)
queue-IsConsistent = add_all_queued-IsConsistent empty_pool empty-IsConsistent

abbrev filled : TaskPool
filled = record {
  pool = ("b", new_task) ∷ [];
  id_list = "b" ∷ [];
  pending_queue = [];
  load_score = 0;
}

filled_lem : add_all_queued empty_pool ≡ filled
unfolding add_all_queued add get chitu.Base.put
filled_lem = refl

filled-IsConsistent : IsConsistent filled
filled-IsConsistent = rw (← filled_lem) queue-IsConsistent

abbrev third : Task
third = task "c" prefill (1 ∷ 2 ∷ [])

remove_task-IsConsistent_example :
    (has filled.pool "b" ≡ false → remove_task "b" filled ≡ raise assertion_error)
    × (has filled.pool "b" ≡ true
        → (q : TaskPool) × (remove_task "b" filled ≡ ok q)
          × IsConsistent q
          × (get q.pool "b" ≡ none))
remove_task-IsConsistent_example = remove_task-IsConsistent "b" filled filled-IsConsistent
