-- ===== src/Scheduler/Skew.antt =====
-- chitu/scheduler.py: `find_prefill_task_start_pos_sgroup` of SkewScheduler, a binary search for the
-- first prefill task of a group, and the part of `schedule` that returns the tasks from there on. The
-- fuel is the length of the group; each turn shortens the part that is left.
use chitu.Base.{
  ℕ, zero, suc, ◌+◌, ◌/◌, ◌≤◌, ◌<◌, ◌≡◌, refl, ap, ◌∙◌, Bool, true, false, inl, inr, Option, none,
  some, String, List, [], ◌∷◌, ◌++◌, ltb, leb, if◌then◌else◌, length, get_elem?, drop, All, Dict,
  get, Result, ok, raise, key_error, index_error, length-append, append-nil, ◌-◌, arith, Bool-cases,
  string_eq,
}
use chitu.Task.{Task, prefill}
use chitu.Scheduler.State.{has_type}

abbrev pub is_prefill_entry : String → Option Task → Result Bool
is_prefill_entry i none = raise key_error
is_prefill_entry i (some t) = ok (has_type prefill (i, t))

-- TaskPool.pool[sgroup[mid]].task_type == TaskType.Prefill
abbrev pub probe : Dict String Task → Option String → Result Bool
probe pool none = raise index_error
probe pool (some i) = is_prefill_entry i (get pool i)

abbrev pub narrow : Result Bool → ℕ → ℕ → ℕ → Result (ℕ × ℕ)
narrow (raise e) mid left right = raise e
narrow (ok true) mid left right = ok (left, mid)
narrow (ok false) mid left right = ok (mid + 1, right)

-- One turn of the loop.
abbrev pub halve : Dict String Task → List String → ℕ → ℕ → Result (ℕ × ℕ)
halve pool sgroup left right =
    let mid : ℕ = (left + right) / 2 in
    if ltb left right
    then narrow (probe pool (get_elem? sgroup mid)) mid left right
    else ok (left, right)

abbrev pub go_on : Result (ℕ × ℕ) → (ℕ → ℕ → Result ℕ) → Result ℕ
go_on (raise e) rest = raise e
go_on (ok b) rest = rest b.0 b.1

unfoldable pub search_start : ℕ → Dict String Task → List String → ℕ → ℕ → Result ℕ
search_start zero pool sgroup left right = ok right
search_start (suc fuel) pool sgroup left right =
    go_on (halve pool sgroup left right) (search_start fuel pool sgroup)

unfoldable pub find_prefill_task_start_pos_sgroup : Dict String Task → List String → Result ℕ
unfolding search_start
find_prefill_task_start_pos_sgroup pool sgroup =
    search_start (length sgroup) pool sgroup 0 (length sgroup)

abbrev pub from_start : List String → Result ℕ → Result (List String)
from_start sgroup (raise e) = raise e
from_start sgroup (ok start) = ok (drop start sgroup)

abbrev pub start_behind : Dict String Task → List String → Result Bool → Result ℕ
unfolding find_prefill_task_start_pos_sgroup
start_behind pool sgroup (raise e) = raise e
start_behind pool sgroup (ok false) = ok 0
start_behind pool sgroup (ok true) = find_prefill_task_start_pos_sgroup pool sgroup

-- start_pos, which is 0 without a chunk size or a prefill task at the end of the group
abbrev pub start_pos : Option ℕ → Dict String Task → List String → Result ℕ
start_pos none pool sgroup = ok 0
start_pos (some chunk) pool sgroup =
    start_behind pool sgroup (probe pool (get_elem? sgroup (length sgroup - 1)))

-- ret_task_ids = sgroup[start_pos:]
unfoldable pub group_tasks : Option ℕ → Dict String Task → List String → Result (List String)
unfolding find_prefill_task_start_pos_sgroup
group_tasks chunk_size pool sgroup = from_start sgroup (start_pos chunk_size pool sgroup)

-- The probes tell whether a place is at or behind k.
abbrev Splits : Dict String Task → List String → ℕ → Type 0
Splits pool sgroup k = (i : ℕ) → i < length sgroup → probe pool (get_elem? sgroup i) ≡ ok (leb k i)

search_start-eq :
    (fuel k left right : ℕ) (pool : Dict String Task) (sgroup : List String)
    → Splits pool sgroup k
    → left ≤ k
    → k ≤ right
    → right ≤ length sgroup
    → right ≤ left + fuel
    → search_start fuel pool sgroup left right ≡ ok k
unfolding search_start
search_start-eq zero k left right pool sgroup h a b c d = ap (λ i. ok i) (omega (arith, a, b, d))
search_start-eq (suc fuel) k left right pool sgroup h a b c d =
    let mid : ℕ = (left + right) / 2 in
    let turn = λ (o : Result (ℕ × ℕ)). go_on o (search_start fuel pool sgroup) in
    elim (Bool-cases (ltb left right)) [
      | inl e ↦
          (let l : left < right = ground (arith, e) in
            elim (Bool-cases (leb k mid)) [
              | inl f ↦
                  (let q : halve pool sgroup left right ≡ ok (left, mid) =
                      rw (e, h mid (omega (arith, l, c)), f) refl in
                    ap turn q
                    ∙ search_start-eq fuel k left mid pool sgroup h a (ground (arith, f))
                        (omega (arith, l, c)) (omega (arith, l, d)))
              | inr f ↦
                  (let q : halve pool sgroup left right ≡ ok (mid + 1, right) =
                      rw (e, h mid (omega (arith, l, c)), f) refl in
                    let g : mid < k = ground (arith, f) in
                    ap turn q
                    ∙ search_start-eq fuel k (mid + 1) right pool sgroup h (omega (arith, g)) b c
                        (omega (arith, l, d)))
            ])
      | inr e ↦
          (let l : right ≤ left = ground (arith, e) in
            let q : halve pool sgroup left right ≡ ok (left, right) = rw e refl in
            ap turn q ∙ search_start-eq fuel k left right pool sgroup h a b c (omega (arith, l)))
    ]

-- A task of the pool that is a prefill task, or that is not.
abbrev pub IsPrefill : Dict String Task → Bool → String → Type 0
IsPrefill pool b i = (t : Task) × (get pool i ≡ some t) × (has_type prefill (i, t) ≡ b)

probe-IsPrefill :
    (pool : Dict String Task) (b : Bool) (i : String)
    → IsPrefill pool b i
    → probe pool (some i) ≡ ok b
probe-IsPrefill pool b i (t, g, h) = rw (g, h) refl

split-Splits :
    (pool : Dict String Task) (ds ps : List String)
    → All (IsPrefill pool false) ds
    → All (IsPrefill pool true) ps
    → Splits pool (ds ++ ps) (length ds)
split-Splits pool [] [] h k i l = absurd (omega (arith, l))
split-Splits pool [] (p ∷ ps) h k zero l = probe-IsPrefill pool true p k.0
split-Splits pool [] (p ∷ ps) h k (suc i) l =
    split-Splits pool [] ps h k.1 i (omega (arith, l)) ∙ ap (λ b. ok b) (ground arith)
split-Splits pool (d ∷ ds) ps h k zero l =
    probe-IsPrefill pool false d h.0 ∙ ap (λ b. ok b) (ground arith)
split-Splits pool (d ∷ ds) ps h k (suc i) l =
    split-Splits pool ds ps h.1 k i (omega (arith, l)) ∙ ap (λ b. ok b) (ground arith)

drop-append : (ds ps : List String) → drop (length ds) (ds ++ ps) ≡ ps
drop-append [] ps = refl
drop-append (d ∷ ds) ps = drop-append ds ps

find_prefill_task_start_pos_sgroup-eq :
    (pool : Dict String Task) (ds ps : List String)
    → All (IsPrefill pool false) ds
    → All (IsPrefill pool true) ps
    → find_prefill_task_start_pos_sgroup pool (ds ++ ps) ≡ ok (length ds)
unfolding find_prefill_task_start_pos_sgroup
find_prefill_task_start_pos_sgroup-eq pool ds ps h k =
    search_start-eq (length (ds ++ ps)) (length ds) 0 (length (ds ++ ps)) pool (ds ++ ps)
      (split-Splits pool ds ps h k) (omega arith) (omega (arith, length-append ds ps)) (omega arith)
      (omega arith)

-- The prefill tasks, or all tasks if there are none.
abbrev pub or_all : List String → List String → List String
or_all ds [] = ds
or_all ds (p ∷ ps) = p ∷ ps

-- With a chunk size, of a group that is not empty, whose tasks are all in the pool and whose prefill
-- tasks are behind the others: if it has prefill tasks, exactly these are taken from it, before the
-- chunk is divided among them, else all its tasks.
pub group_tasks-eq :
    (chunk : ℕ) (pool : Dict String Task) (ds ps : List String)
    → All (IsPrefill pool false) ds
    → All (IsPrefill pool true) ps
    → 0 < length (ds ++ ps)
    → group_tasks (some chunk) pool (ds ++ ps) ≡ ok (or_all ds ps)
unfolding group_tasks
group_tasks-eq chunk pool ds ps h k l =
    let n : ℕ = length (ds ++ ps) - 1 in
    let last : probe pool (get_elem? (ds ++ ps) n) ≡ ok (leb (length ds) n) =
      split-Splits pool ds ps h k n (omega (arith, l)) in
    ap (λ o. from_start (ds ++ ps) (start_behind pool (ds ++ ps) o)) last ∙ by_rest ps k l
  where
    by_rest :
        (ps : List String)
        → All (IsPrefill pool true) ps
        → 0 < length (ds ++ ps)
        → from_start
            (ds ++ ps)
            (start_behind pool (ds ++ ps) (ok (leb (length ds) (length (ds ++ ps) - 1))))
          ≡ ok (or_all ds ps)
    by_rest [] k l =
        let q : leb (length ds) (length (ds ++ []) - 1) ≡ false =
          ground (arith, l, ap length (append-nil ds)) in
        rw q (ap (λ is. ok is) (append-nil ds))
    by_rest (p ∷ ps) k l =
        let q : leb (length ds) (length (ds ++ p ∷ ps) - 1) ≡ true =
          ground (arith, length-append ds (p ∷ ps)) in
        rw (q, find_prefill_task_start_pos_sgroup-eq pool ds (p ∷ ps) h k)
          (ap (λ is. ok is) (drop-append ds (p ∷ ps)))
