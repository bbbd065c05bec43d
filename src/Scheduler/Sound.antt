-- ===== src/Scheduler/Sound.antt =====
-- What a batch that `schedule` returns is made of.
use mathlib.Core.List.{reverse}
use chitu.Base.{
  ℕ, ◌≤◌, ◌≡◌, refl, ap, inl, inr, String, List, [], ◌∷◌, ◌++◌, arith, length, take, length-take,
  All, All-take, Bool-cases, Result, ok, keep, bind-eq-ok, lift, string_eq,
}
use chitu.Task.{TaskType, prefill, decode, is_prefill, is_decode}
use chitu.Pool.{is_empty}
use chitu.Scheduler.State.{set_task, World, Entry, Scheduler, has_type, ids_of, resolve, set_tasks}
use chitu.Scheduler.Rank.Sorted.{All-sort_by}
use chitu.Scheduler.Batches.{
  prefill_candidates, num_fitting, schedule_prefill_tasks, schedule_decode_tasks,
}
use chitu.Scheduler.Budget.{chosen_lem}
use chitu.Scheduler.Batches.Frame.{schedule_decode_tasks-Preserves}
use chitu.Scheduler.Eviction.{schedule_decode_tasks-front}
use chitu.Scheduler.{
  candidates, ranked, assign, assign_from, run_decode, prefill_or_decode, run_prefill, choose,
  schedule, no_group, at_time,
}
use chitu.Scheduler.Ready.{
  IsReady, Known, All-append_left, take-ids, length-ids, apply-ids, candidates-Known,
  of_type-IsReady,
}

assign-ids :
    (es : List Entry) (ids : List String) (w v : World)
    → assign es w ≡ (ok ids, v)
    → ids ≡ ids_of es
unfolding assign assign_from
assign-ids es ids w v h = by_free w.sched.free_sgroups h
  where
    by_free : (l : List ℕ) → assign_from l (ids_of es) w ≡ (ok ids, v) → ids ≡ ids_of es
    by_free [] k = cc
    by_free (g ∷ free) k = cc

abbrev pub limit_of : Scheduler → TaskType → ℕ
limit_of s prefill = s.prefill_num_tasks
limit_of s decode = s.decode_num_tasks
limit_of s _ = 0

-- A batch of one type, of ready tasks, within the limit of that type.
abbrev pub IsSound : World → List String → Type 0
IsSound w ids = (ty : TaskType) × All (IsReady w ty) ids × (length ids ≤ limit_of w.sched ty)

length-taken : (n : ℕ) (es : List Entry) → length (ids_of (take n es)) ≤ n
length-taken n es = rw (length-ids (take n es), length-take n es) (omega arith)

taken-All :
    (Q : String → Type 0) (n : ℕ) (es : List Entry) → All Q (ids_of es) → All Q (ids_of (take n es))
taken-All Q n es h = rw (take-ids n es) (All-take Q n (ids_of es) h)

ids-append : (xs ys : List Entry) → ids_of (xs ++ ys) ≡ ids_of xs ++ ids_of ys
ids-append [] ys = refl
ids-append ((i, t) ∷ xs) ys = ap (λ l. i ∷ l) (ids-append xs ys)

run_decode-IsSound :
    (entries : List Entry) (ids : List String) (w u v : World)
    → All (Known w) entries
    → u.sched ≡ w.sched
    → run_decode entries u ≡ (ok ids, v)
    → IsSound w ids
unfolding run_decode
run_decode-IsSound entries ids w u v k same h =
    let (out, x, built, rest) = bind-eq-ok (schedule_decode_tasks entries) _ u v ids h in
    let (gone, split) = schedule_decode_tasks-front entries out u x built in
    let limit : x.sched.decode_num_tasks ≡ w.sched.decode_num_tasks =
      rw (← ap (λ r. r.1.sched.decode_num_tasks) built) (
        schedule_decode_tasks-Preserves (λ y. y.sched.decode_num_tasks ≡ w.sched.decode_num_tasks)
          (λ i t y e. e) (λ y c e. e) (λ y e. e) entries u (ap (λ s. s.decode_num_tasks) same)) in
    let front =
      All-append_left (IsReady w decode) (ids_of out) (ids_of (reverse gone))
        (rw (← ids-append out (reverse gone), ← split) (of_type-IsReady w decode entries k)) in
    rw (assign-ids (take x.sched.decode_num_tasks out) ids x v rest, limit)
      (
        decode,
        taken-All (IsReady w decode) w.sched.decode_num_tasks out front,
        length-taken w.sched.decode_num_tasks out,
      )

prefill_or_decode-IsSound :
    (entries chosen : List Entry) (ids : List String) (w u v : World)
    → All (Known w) entries
    → All (IsReady w prefill) (ids_of chosen)
    → u.sched ≡ w.sched
    → prefill_or_decode entries chosen u ≡ (ok ids, v)
    → IsSound w ids
unfolding prefill_or_decode
prefill_or_decode-IsSound entries [] ids w u v k c same h =
    run_decode-IsSound entries ids w u v k same h
prefill_or_decode-IsSound entries (c ∷ chosen) ids w u v k a same h =
    rw (assign-ids (take u.sched.prefill_num_tasks (c ∷ chosen)) ids u v h, same)
      (
        prefill,
        taken-All (IsReady w prefill) w.sched.prefill_num_tasks (c ∷ chosen) a,
        length-taken w.sched.prefill_num_tasks (c ∷ chosen),
      )

set_tasks-sched : (es : List Entry) (w : World) → (set_tasks es w).sched ≡ w.sched
unfolding set_tasks
set_tasks-sched [] w = refl
set_tasks-sched ((i, t) ∷ es) w = set_tasks-sched es (set_task i t w)

choose-IsSound :
    (entries : List Entry) (ids : List String) (w v : World)
    → All (Known w) entries
    → choose entries w ≡ (ok ids, v)
    → IsSound w ids
unfolding choose run_prefill prefill_candidates
choose-IsSound [] ids w v k h = let e : ids ≡ [] = cc in rw e (prefill, tt, omega arith)
choose-IsSound (e ∷ es) ids w v k h = elim (Bool-cases (is_prefill (e.1).task_type)) [
  | inl p ↦
      let (chosen, u, built, rest) =
        bind-eq-ok (schedule_prefill_tasks (e ∷ es)) _ w v ids (rw p at h) in
      let (c, s, _) = chosen_lem (e ∷ es) chosen w u built in
      let n = num_fitting w (prefill_candidates w (e ∷ es)) in
      prefill_or_decode-IsSound (e ∷ es) chosen ids w u v k
        (rw c (
          taken-All (IsReady w prefill) n (prefill_candidates w (e ∷ es)) (
            apply-ids (IsReady w prefill) w.infer w.sched.chunk_size
              (keep (has_type prefill) (e ∷ es)) (of_type-IsReady w prefill (e ∷ es) k))))
        (rw s (set_tasks-sched (prefill_candidates w (e ∷ es)) w)) rest
  | inr p ↦ elim (Bool-cases (is_decode (e.1).task_type)) [
    | inl d ↦ run_decode-IsSound (e ∷ es) ids w w v k refl (rw (p, d) at h)
    | inr d ↦ let bad = rw (p, d) at h in cc
  ]
]

-- A batch that `schedule` returns has one type; all its tasks are in the pool, do not wait, are not
-- done and pass the strict gate; and it is within the limit on the tasks of that type.
pub schedule-IsSound :
    (now : ℕ) (ids : List String) (w v : World) → schedule now w ≡ (ok ids, v) → IsSound w ids
unfolding schedule
schedule-IsSound now ids w v h = elim (Bool-cases (is_empty w.tasks)) [
  | inl p ↦ no_batch (rw p at h)
  | inr p ↦ elim (Bool-cases (no_group w.sched.free_sgroups)) [
    | inl q ↦ no_batch (rw (p, q) at h)
    | inr q ↦
        let (es, u, gated, rest) =
          bind-eq-ok
            (lift
              (candidates w.sched.strict_allowed_task_type (resolve w.tasks.pool w.tasks.id_list)))
            _ (at_time now w) v ids (rw (p, q) at h) in
        let same : u ≡ at_time now w = cc in
        let known =
          candidates-Known (at_time now w) (resolve w.tasks.pool w.tasks.id_list) es refl cc in
        choose-IsSound (ranked (at_time now w) es) ids (at_time now w) v
          (All-sort_by _ (Known (at_time now w)) es known) (rw same at rest)
  ]
]
  where
    no_batch : ◌≡◌ {A = Result (List String) × World} (ok [], w) (ok ids, v) → IsSound w ids
    no_batch k = let e : ids ≡ [] = cc in rw e (prefill, tt, omega arith)
