-- ===== src/Scheduler/DpFifo/Routes.antt =====
-- DPFifoScheduler: what is sent to the ranks.
use native.Mathlib.Nat.{mod-eq_of_lt}
use chitu.Base.{
  ℕ, zero, suc, ◌%◌, ◌≤◌, ◌<◌, ◌≡◌, ◌⊎◌, refl, ap, ◌∙◌, Bool, true, false, ◌&&◌, not, Option, none,
  some, List, [], ◌∷◌, ltb, ltb→lt, length, take, replicate, arith, Bool-cases, inl, inr, Result,
  ok, raise, Error, attribute_error, index_error, All, All-keep, length-take, length-map,
  length-set, length-replicate, all_of,
}
use chitu.Task.{Infer, set_prefill_chunk_size_for_one_step}
use chitu.Scheduler.State.{Entry}
use chitu.Scheduler.DpFifo.Owners.{
  Goes, has_rank, assign_each-IsAssigning, group_or_first-Each, prefill_entries-All,
}
use chitu.Scheduler.DpFifo.Chunks.{assign_each-length}
use chitu.Scheduler.DpFifo.Each.{Each, Each-push, Each-empty, Each-cap, Each-apply}
use chitu.Scheduler.Ranks.{
  DpWorld, waits_for_prefill, waits_for_decode, prefill_entries, assign_each, push_to,
  start_assignment, assign_prefill,
}
use chitu.Scheduler.DpFifo.{
  Choice, chunk_lists, cap_lists, prefill_lists, apply_chunk_size, group_or_first, group_by_owner,
  push_to_owner, empty_lists, decode_entries, choose_prefill, choose_decode, decode_step,
  choose_lists, owner_or_first, after_prefill, capped, fall_back, nonempty, flagged, has_any,
}

-- What is sent to the ranks: to each rank its own tasks, all in the same phase and ready for a
-- step, and no more than it takes.
abbrev pub AreSent : DpWorld → (Entry → Bool) → List (List Entry) → Type 0
AreSent w ready ls =
    Each (Goes w.sched.dp_size ready) 0 ls
    × All (λ l. length l ≤ w.sched.max_num_tasks_per_dp) ls
    × (length ls ≡ w.sched.dp_size)

-- A choice raises only if a task that is to be decoded has no rank as owner.
abbrev pub IsRouted : DpWorld → Result Choice × DpWorld → Type 0
IsRouted w (ok c, w') = AreSent w waits_for_prefill c.lists ⊎ AreSent w waits_for_decode c.lists
IsRouted w (raise e, w') = all_of (has_rank w.sched.dp_size) (decode_entries w) ≡ false

cap_lists-le :
    (limit : ℕ) (ls : List (List Entry)) → All (λ l. length l ≤ limit) (cap_lists limit ls)
cap_lists-le limit [] = tt
cap_lists-le limit (l ∷ ls) = (omega (arith, length-take limit l), cap_lists-le limit ls)

empty-le : (limit n : ℕ) → All {A = List Entry} (λ l. length l ≤ limit) (replicate n [])
empty-le limit zero = tt
empty-le limit (suc n) = (omega arith, empty-le limit n)

group_or_first-length :
    (dp_size : ℕ) (es : List Entry) (ls : List (List Entry))
    → length (group_or_first dp_size es ls) ≡ length ls
unfolding group_or_first
group_or_first-length dp_size [] ls = refl
group_or_first-length dp_size (e ∷ es) ls =
    group_or_first-length dp_size es (push_to (owner_or_first (e.1).cache_owner % dp_size) e ls)
    ∙ length-set ls _ _

fall_back-AreSent : (w : DpWorld) → AreSent w waits_for_decode (fall_back w).lists
fall_back-AreSent w =
    let dp_size = w.sched.dp_size in
    let limit = w.sched.max_num_tasks_per_dp in
    let P = Goes dp_size waits_for_decode in
    let ls = group_or_first dp_size (decode_entries w) (empty_lists w) in
    (
      Each-cap P limit 0 ls (
          group_or_first-Each dp_size (decode_entries w) (empty_lists w)
            (All-keep waits_for_decode w.pool) (Each-empty P 0 dp_size)),
      cap_lists-le limit ls,
      length-map ls (take limit)
          ∙ group_or_first-length dp_size (decode_entries w) (empty_lists w)
          ∙ length-replicate dp_size [],
    )

-- Grouped by owners that are ranks, or raised.
abbrev IsGrouped : ℕ → List Entry → Result (List (List Entry)) → Type 0
IsGrouped dp_size es (ok ls) = Each (Goes dp_size waits_for_decode) 0 ls × (length ls ≡ dp_size)
IsGrouped dp_size es (raise e) = all_of (has_rank dp_size) es ≡ false

has_rank_head :
    (dp_size : ℕ) (e : Entry) (es : List Entry) (r : Result (List (List Entry)))
    → IsGrouped dp_size es r
    → IsGrouped dp_size (e ∷ es) r
has_rank_head dp_size e es (ok ls) h = h
has_rank_head dp_size e es (raise x) h = ground (arith, h)

group_by_owner_raise : (es : List Entry) (x : Error) → group_by_owner es (raise x) ≡ raise x
unfolding group_by_owner
group_by_owner_raise [] x = refl
group_by_owner_raise (e ∷ es) x = refl

push_to_owner-IsGrouped :
    (dp_size : ℕ) (e : Entry) (es : List Entry) (ls : List (List Entry)) (o : Option ℕ)
    → (e.1).cache_owner ≡ o
    → waits_for_decode e ≡ true
    → Each (Goes dp_size waits_for_decode) 0 ls
    → length ls ≡ dp_size
    → ((ms : List (List Entry))
        → Each (Goes dp_size waits_for_decode) 0 ms
        → length ms ≡ dp_size
        → IsGrouped dp_size es (group_by_owner es (ok ms)))
    → IsGrouped dp_size (e ∷ es) (group_by_owner es (push_to_owner e o ls))
push_to_owner-IsGrouped dp_size e es ls none s h k l later =
    rw (group_by_owner_raise es attribute_error, s) refl
push_to_owner-IsGrouped dp_size e es ls (some o) s h k l later =
    elim (Bool-cases (ltb o (length ls))) [
      | inl y ↦
          (let b : o < dp_size = omega (arith, l, ltb→lt o (length ls) y) in
            rw y (
              has_rank_head dp_size e es (group_by_owner es (ok (push_to o e ls))) (
                later (push_to o e ls)
                  (Each-push (Goes dp_size waits_for_decode) 0 o e ls k
                    (rw s (mod-eq_of_lt b ∙ omega arith), h))
                  (length-set ls o _ ∙ l))))
      | inr y ↦ rw (y, group_by_owner_raise es index_error, s) (ground (arith, l, y))
    ]

group_by_owner-IsGrouped :
    (dp_size : ℕ) (es : List Entry) (ls : List (List Entry))
    → All (λ e. waits_for_decode e ≡ true) es
    → Each (Goes dp_size waits_for_decode) 0 ls
    → length ls ≡ dp_size
    → IsGrouped dp_size es (group_by_owner es (ok ls))
unfolding group_by_owner
group_by_owner-IsGrouped dp_size [] ls h k l = (k, l)
group_by_owner-IsGrouped dp_size (e ∷ es) ls h k l =
    push_to_owner-IsGrouped dp_size e es ls (e.1).cache_owner refl h.0 k l
      (λ ms. group_by_owner-IsGrouped dp_size es ms h.1)

chunk_lists-length :
    (cfg : Infer) (size dp_size r : ℕ) (ls : List (List Entry))
    → length (chunk_lists cfg size dp_size r ls) ≡ length ls
unfolding chunk_lists
chunk_lists-length cfg size dp_size r [] = refl
chunk_lists-length cfg size dp_size r (l ∷ ls) =
    ap suc (chunk_lists-length cfg size dp_size (suc r) ls)

apply_chunk_size-length :
    (cfg : Infer) (o : Option ℕ) (dp_size : ℕ) (ls : List (List Entry))
    → length (apply_chunk_size cfg o dp_size ls) ≡ length ls
apply_chunk_size-length cfg none dp_size ls = refl
apply_chunk_size-length cfg (some size) dp_size ls = elim (Bool-cases (ltb 0 size)) [
  | inl y ↦ rw y (chunk_lists-length cfg size dp_size 0 ls)
  | inr y ↦ rw y refl
]

prefill_lists-AreSent :
    (w : DpWorld)
    → w.sched.rr_owner_cursor < w.sched.dp_size
    → AreSent w waits_for_prefill (prefill_lists (assign_prefill (prefill_entries w) w) w)
unfolding prefill_lists assign_prefill start_assignment set_prefill_chunk_size_for_one_step
prefill_lists-AreSent w b =
    let dp_size = w.sched.dp_size in
    let limit = w.sched.max_num_tasks_per_dp in
    let P = Goes dp_size waits_for_prefill in
    let es = prefill_entries w in
    let a0 = start_assignment es w in
    let a = assign_each dp_size es a0 in
    let k =
      assign_each-IsAssigning dp_size es a0 (prefill_entries-All w) (b, Each-empty P 0 dp_size) in
    let ls = apply_chunk_size w.infer w.chunk_size dp_size a.task_lists in
    (
      Each-cap P limit 0 ls
          (Each-apply P (λ r n e p. p) w.infer w.chunk_size dp_size a.task_lists k.1),
      cap_lists-le limit ls,
      length-map ls (take limit)
          ∙ apply_chunk_size-length w.infer w.chunk_size dp_size a.task_lists
          ∙ assign_each-length dp_size es a0
          ∙ length-replicate dp_size [],
    )

choose_prefill-IsRouted :
    (w : DpWorld)
    → w.sched.rr_owner_cursor < w.sched.dp_size
    → (w' : DpWorld) → IsRouted w (ok (choose_prefill (prefill_entries w) w), w')
unfolding choose_prefill
choose_prefill-IsRouted w b w' =
    let a = assign_prefill (prefill_entries w) w in
    let ls = prefill_lists a w in
    elim (Bool-cases (not (has_any ls) && not w.sched.is_warmup_stage)) [
      | inl e ↦ rw e (inr (fall_back-AreSent (flagged (has_any ls) (after_prefill a w))))
      | inr e ↦ rw e (inl (prefill_lists-AreSent w b))
    ]

decode_step-IsRouted : (b : Bool) (w : DpWorld) → IsRouted w (decode_step b w)
decode_step-IsRouted true w = inr (
  Each-empty (Goes w.sched.dp_size waits_for_decode) 0 w.sched.dp_size,
  empty-le w.sched.max_num_tasks_per_dp w.sched.dp_size,
  length-replicate w.sched.dp_size [],
)
decode_step-IsRouted false w = by_result (group_by_owner (decode_entries w) (ok (empty_lists w))) (
    group_by_owner-IsGrouped w.sched.dp_size (decode_entries w) (empty_lists w)
      (All-keep waits_for_decode w.pool)
      (Each-empty (Goes w.sched.dp_size waits_for_decode) 0 w.sched.dp_size)
      (length-replicate w.sched.dp_size []))
  where
    by_result :
        (r : Result (List (List Entry)))
        → IsGrouped w.sched.dp_size (decode_entries w) r
        → IsRouted w (capped (flagged (nonempty (decode_entries w)) w) r)
    by_result (raise e) h = h
    by_result (ok ls) h =
        let limit = w.sched.max_num_tasks_per_dp in
        inr (
          Each-cap (Goes w.sched.dp_size waits_for_decode) limit 0 ls h.0,
          cap_lists-le limit ls,
          length-map ls (take limit) ∙ h.1,
        )

-- For a cursor below the number of ranks, what the data-parallel scheduler chooses is one list
-- for each rank, of tasks that are all to be prefilled or all to be decoded and are ready, each
-- in the list of the rank that owns its slot (of rank 0 if no owner is set), and no list is
-- longer than a rank takes. It raises only if a task to be decoded has no rank as owner.
pub choose_lists-IsRouted :
    (w : DpWorld) → w.sched.rr_owner_cursor < w.sched.dp_size → IsRouted w (choose_lists w)
unfolding choose_lists choose_decode
choose_lists-IsRouted w b = elim (Bool-cases (nonempty (prefill_entries w))) [
  | inl e ↦ rw e (choose_prefill-IsRouted w b (choose_prefill (prefill_entries w) w).world)
  | inr e ↦ rw e (decode_step-IsRouted w.sched.is_warmup_stage w)
]
