-- ===== src/Scheduler/Rank.antt =====
-- chitu/scheduler.py, `scorer` and the sort of `schedule`: the tuple of scores, largest first, and
-- tasks of the same score in the order in which they came.
pub mod Preference
pub mod Sorted
use chitu.Base.{ℕ, ◌-◌, ◌*◌, Bool, true, false, List, [], ◌∷◌, ltb, nat_beq, if◌then◌else◌}
use chitu.Task.{Task, Infer, is_prefill, prefix_tokens_len}
use chitu.Scheduler.State.{
  Scorer, request_preset, prefill_first, fcfs, stride, deadline, prefix_align, Entry, Scheduler,
}

-- The number that a score is, or of which it is the negative.
unfoldable pub key : Infer → ℕ → Scorer → Task → ℕ
key cfg now request_preset t = t.priority
key cfg now prefill_first t = if is_prefill t.task_type then 1 else 0
key cfg now fcfs t = t.arrv_ts
key cfg now stride t = t.priority * (now - t.arrv_ts)
key cfg now deadline t = t.sched_ddl
key cfg now prefix_align t = prefix_tokens_len cfg t

-- Is the score the negative of the number?
abbrev pub negated : Scorer → Bool
negated fcfs = true
negated deadline = true
negated prefix_align = true
negated _ = false

-- Is the first tuple of scores larger?
unfoldable pub outranks : Infer → ℕ → List Scorer → Task → Task → Bool
outranks cfg now [] t u = false
outranks cfg now (s ∷ ss) t u =
    let a = key cfg now s t in
    let b = key cfg now s u in
    if nat_beq a b then outranks cfg now ss t u else if negated s then ltb a b else ltb b a

-- While the server warms up prefill comes first, whatever the configuration says.
abbrev pub scorers_of : Scheduler → List Scorer
scorers_of s = if s.is_warmup_stage then prefill_first ∷ [] else s.scorers

module _ (before : Task → Task → Bool) where
  -- behind the tasks that score more, and before those that score the same
  unfoldable pub insert_by : Entry → List Entry → List Entry
  insert_by e [] = e ∷ []
  insert_by e (f ∷ es) = if before f.1 e.1 then f ∷ insert_by e es else e ∷ f ∷ es

  -- a stable sort, largest first
  unfoldable pub sort_by : List Entry → List Entry
  unfolding insert_by
  sort_by [] = []
  sort_by (e ∷ es) = insert_by e (sort_by es)
