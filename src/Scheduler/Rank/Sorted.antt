-- ===== src/Scheduler/Rank/Sorted.antt =====
-- The order in which `schedule` looks at the tasks.
use mathlib.Core.List.{Perm}
use mathlib.Core.List.Perm
use chitu.Base.{◌≡◌, not, ◌&&◌, Bool, false, inl, inr, List, [], ◌∷◌, All, Bool-cases}
use chitu.Task.{Task}
use chitu.Scheduler.State.{Entry}
use chitu.Scheduler.Rank.{insert_by, sort_by}

-- The comparison does not tell the two tasks apart.
abbrev pub are_alike : (Task → Task → Bool) → Task → Entry → Bool
are_alike before t e = not (before t e.1) && not (before e.1 t)

-- No task outranks one that stands before it.
abbrev pub IsRanked : (Task → Task → Bool) → List Entry → Type 0
IsRanked before [] = Unit
IsRanked before (e ∷ es) = All (λ f. before f.1 e.1 ≡ false) es × IsRanked before es

module _ (before : Task → Task → Bool) where
  pub All-insert_by :
      (P : Entry → Type 0) (e : Entry) (es : List Entry)
      → P e
      → All P es
      → All P (insert_by before e es)
  unfolding insert_by
  All-insert_by P e [] h a = (h, tt)
  All-insert_by P e (f ∷ es) h a = elim (Bool-cases (before f.1 e.1)) [
    | inl q ↦ rw q (a.0, All-insert_by P e es h a.1)
    | inr q ↦ rw q (h, a)
  ]

  pub All-sort_by : (P : Entry → Type 0) (es : List Entry) → All P es → All P (sort_by before es)
  unfolding sort_by
  All-sort_by P [] a = tt
  All-sort_by P (e ∷ es) a = All-insert_by P e (sort_by before es) a.0 (All-sort_by P es a.1)
