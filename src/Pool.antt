-- ===== src/Pool.antt =====
-- chitu/task.py, `TaskPool` and `TaskLoad`: the tasks that the scheduler sees, the order of their
-- arrival, and those still queued. The rows of `response_list_manager` are not part of this state.
pub mod Keys
use chitu.Base.{
  ℕ, ◌+◌, ◌-◌, Bool, true, false, Option, none, some, String, List, [], ◌∷◌, ◌++◌, nat_beq,
  if◌then◌else◌, length, Dict, get, put, remove, has, Result, ok, raise, assertion_error,
  value_error, string_eq, ◌==◌,
}
use chitu.Task.{Task}

pub record TaskPool : Type 0 where
  pub pool : Dict String Task
  pub id_list : List String
  pub pending_queue : List Task
  pub load_score : ℕ

unfoldable pub reset : TaskPool → TaskPool
reset p = record p { pool = []; id_list = [] }

abbrev pub is_empty : TaskPool → Bool
is_empty p = nat_beq (length p.pool) 0

-- False, and no change, if the id is taken.
unfoldable pub add : Task → TaskPool → TaskPool × Bool
add t p =
    if has p.pool t.task_id
    then (p, false)
    else (record p { pool = put p.pool t.task_id t; id_list = p.id_list ++ t.task_id ∷ [] }, true)

unfoldable pub enqueue : Task → TaskPool → TaskPool
enqueue t p = record p { pending_queue = p.pending_queue ++ t ∷ [] }

add_each : List Task → TaskPool → TaskPool
add_each [] p = p
add_each (t ∷ ts) p = add_each ts (add t p).0

unfoldable pub add_all_queued : TaskPool → TaskPool
unfolding add_each
add_all_queued p = add_each p.pending_queue (record p { pending_queue = [] })

abbrev keep_id : String → Option (List String) → Option (List String)
keep_id y none = none
keep_id y (some zs) = some (y ∷ zs)

-- id_list.remove(task_id): the first occurrence
unfoldable pub remove_id : String → List String → Option (List String)
remove_id x [] = none
remove_id x (y ∷ ys) = let rest = keep_id y (remove_id x ys) in if y == x then some ys else rest

abbrev clear_if_empty : TaskPool → TaskPool
clear_if_empty p = if is_empty p then record p { load_score = 0 } else p

abbrev drop_id : TaskPool → Option (List String) → Result TaskPool
drop_id p none = raise value_error
drop_id p (some ids) = ok (clear_if_empty (record p { id_list = ids }))

unfoldable pub remove_task : String → TaskPool → Result TaskPool
unfolding remove_id
remove_task task_id p =
    if has p.pool task_id
    then drop_id (record p { pool = remove p.pool task_id }) (remove_id task_id p.id_list)
    else raise assertion_error
