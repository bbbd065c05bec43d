-- ===== src/Pool/Keys.antt =====
-- The list of ids and the dictionary of tasks of `TaskPool`.
use chitu.Base.{
  ◌≡◌, refl, sym, true, false, none, some, String, List, [], ◌∷◌, ◌++◌, map, arith, Dict, get, put,
  remove, has, ok, raise, assertion_error, string_eq, Bool-cases, inl, inr, Distinct, put-Distinct,
  remove-Distinct, get-put, get-remove_self, get_of-remove,
}
use chitu.Task.{Task}
use chitu.Pool.{
  TaskPool, add, add_each, add_all_queued, remove_id, remove_task, clear_if_empty, is_empty,
}

abbrev keys {ℓ} : {V : Type ℓ} → List (String × V) → List String
keys = map (λ e. e.0)

pub record IsConsistent (p : TaskPool) : Type 0 where
  pub ids : p.id_list ≡ keys p.pool
  pub distinct : Distinct p.pool
  pub named : (k : String) (t : Task) → get p.pool k ≡ some t → t.task_id ≡ k

keys-put :
    (d : Dict String Task) (k : String) (t : Task)
    → has d k ≡ false
    → keys (put d k t) ≡ keys d ++ k ∷ []
unfolding get put
keys-put [] k t h = refl
keys-put ((j, v) ∷ d) k t h = ground (arith, keys-put d k t)

remove_id-keys :
    (d : Dict String Task) (k : String)
    → has d k ≡ true
    → remove_id k (keys d) ≡ some (keys (remove d k))
unfolding get remove remove_id
remove_id-keys [] k h = cc
remove_id-keys ((j, v) ∷ d) k h = ground (arith, remove_id-keys d k)

-- Adding a task with a new id succeeds: the pool stays consistent and the task is found. If the id is
-- taken, the pool is unchanged and the result is False.
add-IsConsistent :
    (t : Task) (p : TaskPool)
    → IsConsistent p
    → (has p.pool t.task_id ≡ true → add t p ≡ (p, false))
      × (has p.pool t.task_id ≡ false
          → ((add t p).1 ≡ true)
            × IsConsistent (add t p).0
            × (get (add t p).0.pool t.task_id ≡ some t))
unfolding add
add-IsConsistent t p v = (
  λ e. rw e,
  λ e. simp e (
    refl,
    record {
      ids = rw v.ids (sym (keys-put p.pool t.task_id t e));
      distinct = put-Distinct p.pool t.task_id t v.distinct;
      named = λ k u h.
          ground (arith, get-put p.pool t.task_id k t, v.named k u, string_eq.beq_iff t.task_id k);
    },
    ground (arith, get-put p.pool t.task_id t.task_id t, string_eq.beq_iff t.task_id t.task_id),
  ),
)

clear-IsConsistent : (p : TaskPool) → IsConsistent p → IsConsistent (clear_if_empty p)
clear-IsConsistent p v = elim (Bool-cases (is_empty p)) [
  | inl e ↦ simp e (record { ids = v.ids; distinct = v.distinct; named = v.named })
  | inr e ↦ simp e v
]

pool-clear : (p : TaskPool) → (clear_if_empty p).pool ≡ p.pool
pool-clear p = ground arith

-- Removing a task that is there returns a consistent pool without it; of one that is not, an error.
pub remove_task-IsConsistent :
    (k : String) (p : TaskPool)
    → IsConsistent p
    → (has p.pool k ≡ false → remove_task k p ≡ raise assertion_error)
      × (has p.pool k ≡ true
          → (q : TaskPool) × (remove_task k p ≡ ok q) × IsConsistent q × (get q.pool k ≡ none))
unfolding remove_task
remove_task-IsConsistent k p v = (
  λ h. rw h,
  λ h.
      let q : TaskPool = record p { pool = remove p.pool k; id_list = keys (remove p.pool k) } in
      (
        clear_if_empty q,
        rw (h, v.ids, remove_id-keys p.pool k h),
        clear-IsConsistent q (record {
          ids = refl;
          distinct = remove-Distinct p.pool k v.distinct;
          named = λ j t g. v.named j t (get_of-remove p.pool k j t v.distinct g);
        }),
        rw (pool-clear q) (get-remove_self p.pool k v.distinct),
      ),
)

add_each-IsConsistent :
    (ts : List Task) (p : TaskPool) → IsConsistent p → IsConsistent (add_each ts p)
unfolding add_each
add_each-IsConsistent [] p v = v
add_each-IsConsistent (t ∷ ts) p v =
    add_each-IsConsistent ts (add t p).0 (elim (Bool-cases (has p.pool t.task_id)) [
      | inl e ↦ rw ((add-IsConsistent t p v).0 e) v
      | inr e ↦ ((add-IsConsistent t p v).1 e).1
    ])

-- Taking over the queue, which may hold ids that are taken, keeps the pool consistent.
pub add_all_queued-IsConsistent : (p : TaskPool) → IsConsistent p → IsConsistent (add_all_queued p)
unfolding add_all_queued
add_all_queued-IsConsistent p v =
    add_each-IsConsistent p.pending_queue (record p { pending_queue = [] })
      (record { ids = v.ids; distinct = v.distinct; named = v.named })
