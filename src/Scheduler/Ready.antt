-- ===== src/Scheduler/Ready.antt =====
-- The tasks that `schedule` may choose from.
use chitu.Base.{
  ℕ, zero, suc, ◌+◌, ◌-◌, Dict, ◌≡◌, refl, ap, min, Bool, true, false, arith, inl, inr, Option,
  none, some, String, List, [], ◌∷◌, ◌++◌, leb, length, take, All, Bool-cases, Result, ok, raise,
  keep, get, string_eq,
}
use chitu.Task.{need_remove, Task, prefix_tokens_len, Infer, TaskType}
use chitu.Scheduler.State.{World, Entry, has_type, is_ready, ids_of, resolve, cons_entry}
use chitu.Scheduler.Batches.{chunk_tasks, apply_chunks}
use chitu.Scheduler.{gate, candidates}

-- Does the strict gate let the type through?
abbrev pub passes : Option TaskType → Entry → Bool
passes none e = true
passes (some ty) e = has_type ty e

-- An id of a task in the pool that neither waits nor is done, and that the gate lets through.
pub record Ready (pool : Dict String Task) (strict : Option TaskType) (ty : TaskType) (i : String)
    : Type 0 where
  pub task : Task
  pub found : get pool i ≡ some task
  pub awake : task.is_waiting ≡ false
  pub unfinished : need_remove task ≡ false
  pub allowed : passes strict (i, task) ≡ true
  pub typed : has_type ty (i, task) ≡ true

abbrev pub IsReady : World → TaskType → String → Type 0
IsReady w = Ready w.tasks.pool w.sched.strict_allowed_task_type

module _ {ℓ κ} {A : Type ℓ} where
  All-keep_both :
      (P : A → Type κ) (p : A → Bool) (xs : List A)
      → All P xs
      → All (λ x. P x × (p x ≡ true)) (keep p xs)
  All-keep_both P p [] h = tt
  All-keep_both P p (x ∷ xs) h = elim (Bool-cases (p x)) [
    | inl e ↦ rw e ((h.0, e), All-keep_both P p xs h.1)
    | inr e ↦ rw e (All-keep_both P p xs h.1)
  ]

  pub All-append_left : (P : A → Type κ) (xs ys : List A) → All P (xs ++ ys) → All P xs
  All-append_left P [] ys h = tt
  All-append_left P (x ∷ xs) ys h = (h.0, All-append_left P xs ys h.1)

All-map_ids :
    (P : Entry → Type 0) (Q : String → Type 0) (es : List Entry)
    → ((e : Entry) → P e → Q e.0)
    → All P es
    → All Q (ids_of es)
All-map_ids P Q [] f h = tt
All-map_ids P Q ((i, t) ∷ es) f h = (f (i, t) h.0, All-map_ids P Q es f h.1)

pub take-ids : (n : ℕ) (es : List Entry) → ids_of (take n es) ≡ take n (ids_of es)
take-ids zero es = refl
take-ids (suc n) [] = refl
take-ids (suc n) ((i, t) ∷ es) = ap (λ l. i ∷ l) (take-ids n es)

pub length-ids : (es : List Entry) → length (ids_of es) ≡ length es
length-ids [] = refl
length-ids ((i, t) ∷ es) = ap suc (length-ids es)

chunk-ids :
    (Q : String → Type 0) (cfg : Infer) (budget used : ℕ) (es : List Entry)
    → All Q (ids_of es)
    → All Q (ids_of (chunk_tasks cfg budget used es))
unfolding chunk_tasks
chunk-ids Q cfg budget used [] h = tt
chunk-ids Q cfg budget used ((i, t) ∷ es) h =
    let size : ℕ = min (prefix_tokens_len cfg t - t.consumed_req_tokens) (budget - used) in
    elim (Bool-cases (leb budget (used + size))) [
      | inl e ↦ rw e (h.0, tt)
      | inr e ↦ rw e (h.0, chunk-ids Q cfg budget (used + size) es h.1)
    ]

pub apply-ids :
    (Q : String → Type 0) (cfg : Infer) (o : Option ℕ) (es : List Entry)
    → All Q (ids_of es)
    → All Q (ids_of (apply_chunks cfg o es))
apply-ids Q cfg none es h = h
apply-ids Q cfg (some b) es h = chunk-ids Q cfg b 0 es h

-- The entries that are resolved stand in the pool.
abbrev Resolved : World → Entry → Type 0
Resolved w e = get w.tasks.pool e.0 ≡ some e.1

resolve-Resolved :
    (w : World) (ids : List String) (es : List Entry)
    → resolve w.tasks.pool ids ≡ ok es
    → All (Resolved w) es
unfolding resolve
resolve-Resolved w [] es h = let e : es ≡ [] = cc in rw e tt
resolve-Resolved w (i ∷ is) es h =
    by_parts (get w.tasks.pool i) (resolve w.tasks.pool is) refl refl h (resolve-Resolved w is)
  where
    by_parts :
        (o : Option Task) (r : Result (List Entry))
        → get w.tasks.pool i ≡ o
        → resolve w.tasks.pool is ≡ r
        → cons_entry i o r ≡ ok es
        → ((rest : List Entry) → resolve w.tasks.pool is ≡ ok rest → All (Resolved w) rest)
        → All (Resolved w) es
    by_parts none r a b k f = cc
    by_parts (some t) (raise x) a b k f = cc
    by_parts (some t) (ok rest) a b k f = let e : es ≡ (i, t) ∷ rest = cc in rw e (a, f rest b)

-- The candidates: in the pool, ready, and let through.
abbrev pub Known : World → Entry → Type 0
Known w e =
    ((get w.tasks.pool e.0 ≡ some e.1) × (is_ready e ≡ true))
    × (passes w.sched.strict_allowed_task_type e ≡ true)

gate-All :
    (P : Entry → Type 0) (o : Option TaskType) (es : List Entry)
    → All P es
    → All (λ e. P e × (passes o e ≡ true)) (gate o es)
gate-All P none [] h = tt
gate-All P none (e ∷ es) h = ((h.0, refl), gate-All P none es h.1)
gate-All P (some ty) es h = All-keep_both P (has_type ty) es h

pub candidates-Known :
    (w : World) (r : Result (List Entry)) (es : List Entry)
    → resolve w.tasks.pool w.tasks.id_list ≡ r
    → candidates w.sched.strict_allowed_task_type r ≡ ok es
    → All (Known w) es
candidates-Known w (raise x) es a h = cc
candidates-Known w (ok all) es a h =
    let e : es ≡ gate w.sched.strict_allowed_task_type (keep is_ready all) = cc in
    rw e (
      gate-All (λ e. Resolved w e × (is_ready e ≡ true)) w.sched.strict_allowed_task_type
        (keep is_ready all)
        (All-keep_both (Resolved w) is_ready all (resolve-Resolved w w.tasks.id_list all a)))

ready_lem : (e : Entry) → is_ready e ≡ true → ((e.1).is_waiting ≡ false) × (need_remove e.1 ≡ false)
unfolding is_ready
ready_lem e h = (ground arith, ground arith)

pub of_type-IsReady :
    (w : World) (ty : TaskType) (es : List Entry)
    → All (Known w) es
    → All (IsReady w ty) (ids_of (keep (has_type ty) es))
of_type-IsReady w ty es h =
    All-map_ids (λ e. Known w e × (has_type ty e ≡ true)) (IsReady w ty) (keep (has_type ty) es)
      (λ e k. record {
        task = e.1;
        found = k.0.0.0;
        awake = (ready_lem e k.0.0.1).0;
        unfinished = (ready_lem e k.0.0.1).1;
        allowed = k.0.1;
        typed = k.1;
      })
      (All-keep_both (Known w) (has_type ty) es h)
