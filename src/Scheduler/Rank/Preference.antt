-- ===== src/Scheduler/Rank/Preference.antt =====
-- What the scoring methods of the scheduler mean: which of two tasks may stand before the other.
use chitu.Base.{
  ℕ, ◌-◌, ◌*◌, ◌<◌, ◌≡◌, ◌⊎◌, sym, ltb, nat_beq, if◌then◌else◌, Bool, true, false, inl, inr, List,
  [], ◌∷◌, arith, All,
}
use chitu.Task.{Task, Infer, is_prefill, prefix_tokens_len}
use chitu.Scheduler.State.{
  Scorer, request_preset, prefill_first, fcfs, stride, deadline, prefix_align, Entry,
}
use chitu.Scheduler.Rank.{key, negated, outranks}

-- What the scoring methods prefer, and what is the same to them: a higher priority, prefill tasks, an
-- earlier arrival, more of priority times age, an earlier deadline, a shorter prefix.
abbrev pub Prefers : Infer → ℕ → Scorer → Task → Task → Type 0
Prefers cfg now request_preset t u = u.priority < t.priority
Prefers cfg now prefill_first t u =
    (is_prefill t.task_type ≡ true) × (is_prefill u.task_type ≡ false)
Prefers cfg now fcfs t u = t.arrv_ts < u.arrv_ts
Prefers cfg now stride t u = u.priority * (now - u.arrv_ts) < t.priority * (now - t.arrv_ts)
Prefers cfg now deadline t u = t.sched_ddl < u.sched_ddl
Prefers cfg now prefix_align t u = prefix_tokens_len cfg t < prefix_tokens_len cfg u

abbrev pub Levels : Infer → ℕ → Scorer → Task → Task → Type 0
Levels cfg now request_preset t u = t.priority ≡ u.priority
Levels cfg now prefill_first t u = is_prefill t.task_type ≡ is_prefill u.task_type
Levels cfg now fcfs t u = t.arrv_ts ≡ u.arrv_ts
Levels cfg now stride t u = t.priority * (now - t.arrv_ts) ≡ u.priority * (now - u.arrv_ts)
Levels cfg now deadline t u = t.sched_ddl ≡ u.sched_ddl
Levels cfg now prefix_align t u = prefix_tokens_len cfg t ≡ prefix_tokens_len cfg u

-- The first method that tells two tasks apart prefers the first task, or none tells them apart.
abbrev pub MayPrecede : Infer → ℕ → List Scorer → Task → Task → Type 0
MayPrecede cfg now [] t u = Unit
MayPrecede cfg now (s ∷ ss) t u =
    Prefers cfg now s t u ⊎ Levels cfg now s t u × MayPrecede cfg now ss t u

abbrev pub IsArranged : Infer → ℕ → List Scorer → List Entry → Type 0
IsArranged cfg now ss [] = Unit
IsArranged cfg now ss (e ∷ es) =
    All (λ f. MayPrecede cfg now ss e.1 f.1) es × IsArranged cfg now ss es

compared :
    (neg : Bool) (a b : ℕ) (rest : Bool)
    → (if nat_beq a b then rest else if neg then ltb a b else ltb b a) ≡ false
    → (a ≡ b) × (rest ≡ false) ⊎ (neg ≡ true) × (b < a) ⊎ (neg ≡ false) × (a < b)
compared true a b rest h = ground (arith, h)
compared false a b rest h = ground (arith, h)

pub outranks-MayPrecede :
    (cfg : Infer) (now : ℕ) (ss : List Scorer) (t u : Task)
    → outranks cfg now ss u t ≡ false
    → MayPrecede cfg now ss t u
unfolding outranks key
outranks-MayPrecede cfg now [] t u h = tt
outranks-MayPrecede cfg now (s ∷ ss) t u h =
    by_case s (compared (negated s) (key cfg now s u) (key cfg now s t) (outranks cfg now ss u t) h)
      (outranks-MayPrecede cfg now ss t u)
  where
    by_case :
        (s : Scorer)
        → (key cfg now s u ≡ key cfg now s t) × (outranks cfg now ss u t ≡ false)
          ⊎ (negated s ≡ true) × (key cfg now s t < key cfg now s u)
          ⊎ (negated s ≡ false) × (key cfg now s u < key cfg now s t)
        → (outranks cfg now ss u t ≡ false → MayPrecede cfg now ss t u)
        → MayPrecede cfg now (s ∷ ss) t u
    by_case request_preset (inl (e, r)) f = inr (sym e, f r)
    by_case request_preset (inr (inl (n, l))) f = cc
    by_case request_preset (inr (inr (n, l))) f = inl l
    by_case prefill_first (inl (e, r)) f = inr (ground (arith, e), f r)
    by_case prefill_first (inr (inl (n, l))) f = cc
    by_case prefill_first (inr (inr (n, l))) f = inl (ground (arith, l))
    by_case fcfs (inl (e, r)) f = inr (sym e, f r)
    by_case fcfs (inr (inl (n, l))) f = inl l
    by_case fcfs (inr (inr (n, l))) f = cc
    by_case stride (inl (e, r)) f = inr (sym e, f r)
    by_case stride (inr (inl (n, l))) f = cc
    by_case stride (inr (inr (n, l))) f = inl l
    by_case deadline (inl (e, r)) f = inr (sym e, f r)
    by_case deadline (inr (inl (n, l))) f = inl l
    by_case deadline (inr (inr (n, l))) f = cc
    by_case prefix_align (inl (e, r)) f = inr (sym e, f r)
    by_case prefix_align (inr (inl (n, l))) f = inl l
    by_case prefix_align (inr (inr (n, l))) f = cc
