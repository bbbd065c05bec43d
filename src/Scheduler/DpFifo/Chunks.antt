-- ===== src/Scheduler/DpFifo/Chunks.antt =====
-- DPFifoScheduler: the tokens of a prefill step stay within the chunk, over all ranks together.
use native.Mathlib.Nat.{suc-mul, div-add-mod', mul_comm}
use chitu.Base.{
  ℕ, zero, suc, ◌+◌, ◌-◌, ◌*◌, ◌/◌, ◌≤◌, ◌<◌, ◌≡◌, refl, ap, ◌∙◌, min, true, Option, none, some,
  List, [], ◌∷◌, ◌++◌, ltb, leb, nat_beq, if◌then◌else◌, length, take, drop, length-take,
  length-set, length-replicate, arith, Bool-cases, inl, inr,
}
use chitu.Task.{
  Task, Infer, next_req_tokens, next_req_tokens_len, prefix_tokens_len,
  set_prefill_chunk_size_for_one_step,
}
use chitu.Scheduler.State.{Entry}
use chitu.Scheduler.Budget.{batch_tokens}
use chitu.Scheduler.Ranks.{
  DpWorld, Assignment, assign_each, assign_by_owner, give_owner, start_assignment, assign_prefill,
  next_rank_with_free_slot,
}
use chitu.Scheduler.DpFifo.{
  chunk_rank, chunk_lists, rank_budget, cap_lists, join, prefill_lists, apply_chunk_size,
}

-- A task's step has no more tokens than the part that it was given.
chunk-le :
    (cfg : Infer) (t : Task) (size : ℕ)
    → length (next_req_tokens cfg (set_prefill_chunk_size_for_one_step size t)) ≤ size
unfolding next_req_tokens next_req_tokens_len set_prefill_chunk_size_for_one_step
chunk-le cfg t size = rw (length-take _ (drop t.consumed_req_tokens t.prefix_tokens)) (ground arith)

batch_tokens-append :
    (cfg : Infer) (es fs : List Entry)
    → batch_tokens cfg (es ++ fs) ≡ batch_tokens cfg es + batch_tokens cfg fs
batch_tokens-append cfg [] fs = omega arith
batch_tokens-append cfg ((i, t) ∷ es) fs = omega (arith, batch_tokens-append cfg es fs)

batch_tokens-take :
    (cfg : Infer) (n : ℕ) (es : List Entry) → batch_tokens cfg (take n es) ≤ batch_tokens cfg es
batch_tokens-take cfg zero es = omega arith
batch_tokens-take cfg (suc n) [] = omega arith
batch_tokens-take cfg (suc n) ((i, t) ∷ es) = omega (arith, batch_tokens-take cfg n es)

chunk_rank-le :
    (cfg : Infer) (budget assigned : ℕ) (es : List Entry)
    → assigned ≤ budget
    → batch_tokens cfg (chunk_rank cfg budget assigned es) ≤ budget - assigned
unfolding chunk_rank
chunk_rank-le cfg budget assigned [] h = omega arith
chunk_rank-le cfg budget assigned ((i, t) ∷ es) h =
    let remaining : ℕ = prefix_tokens_len cfg t - t.consumed_req_tokens in
    let size : ℕ = min remaining (budget - assigned) in
    let ih = chunk_rank-le cfg budget (assigned + size) es (omega (arith, h)) in
    let c = chunk-le cfg t size in
    elim (Bool-cases (nat_beq remaining 0)) [
      | inl e ↦ rw e (omega (arith, ih))
      | inr e ↦ rw e (elim (Bool-cases (nat_beq size 0)) [
        | inl z ↦ rw z (omega arith)
        | inr z ↦ rw z (elim (Bool-cases (leb budget (assigned + size))) [
          | inl b ↦ rw b (omega (arith, c))
          | inr b ↦ rw b (omega (arith, c, ih))
        ])
      ])
    ]

abbrev tokens : Infer → List (List Entry) → ℕ
tokens cfg ls = batch_tokens cfg (join ls)

abbrev part_of : Infer → ℕ → ℕ → List Entry → List Entry
part_of cfg limit budget l = take limit (if nat_beq budget 0 then [] else chunk_rank cfg budget 0 l)

rank-le :
    (cfg : Infer) (limit budget : ℕ) (l : List Entry)
    → batch_tokens cfg (part_of cfg limit budget l) ≤ budget
rank-le cfg limit budget l =
    let t = batch_tokens-take cfg limit (chunk_rank cfg budget 0 l) in
    let c = chunk_rank-le cfg budget 0 l (omega arith) in
    elim (Bool-cases (nat_beq budget 0)) [
      | inl z ↦ rw z (omega (arith, batch_tokens-take cfg limit []))
      | inr z ↦ rw z (omega (arith, t, c))
    ]

-- The ranks behind the first have one share each.
later_ranks-le :
    (cfg : Infer) (limit size dp_size r : ℕ) (ls : List (List Entry))
    → 0 < r
    → tokens cfg (cap_lists limit (chunk_lists cfg size dp_size r ls))
      ≤ length ls * (size / dp_size)
unfolding chunk_lists
later_ranks-le cfg limit size dp_size r [] h = omega arith
later_ranks-le cfg limit size dp_size r (l ∷ ls) h =
    let here = rank-le cfg limit (rank_budget size dp_size r) l in
    let ih = later_ranks-le cfg limit size dp_size (suc r) ls (omega arith) in
    let b : rank_budget size dp_size r ≡ size / dp_size = ground (arith, h) in
    let a =
      batch_tokens-append cfg (part_of cfg limit (rank_budget size dp_size r) l)
        (join (cap_lists limit (chunk_lists cfg size dp_size (suc r) ls))) in
    omega (arith, a, b, here, ih, suc-mul (length ls) (size / dp_size))

all_ranks-le :
    (cfg : Infer) (limit size dp_size : ℕ) (ls : List (List Entry))
    → length ls ≡ dp_size
    → tokens cfg (cap_lists limit (chunk_lists cfg size dp_size 0 ls)) ≤ size
unfolding chunk_lists
all_ranks-le cfg limit size dp_size [] h = omega arith
all_ranks-le cfg limit size dp_size (l ∷ ls) h =
    let here = rank-le cfg limit (rank_budget size dp_size 0) l in
    let ih = later_ranks-le cfg limit size dp_size 1 ls (omega arith) in
    let a =
      batch_tokens-append cfg (part_of cfg limit (rank_budget size dp_size 0) l)
        (join (cap_lists limit (chunk_lists cfg size dp_size 1 ls))) in
    omega (
      arith,
      a,
      here,
      ih,
      suc-mul (length ls) (size / dp_size),
      ap (λ (t : ℕ). t * (size / dp_size)) h,
      mul_comm (size / dp_size) dp_size,
      div-add-mod' size dp_size,
    )

pub assign_each-length :
    (dp_size : ℕ) (es : List Entry) (a : Assignment)
    → length (assign_each dp_size es a).task_lists ≡ length a.task_lists
unfolding assign_each
assign_each-length dp_size [] a = refl
assign_each-length dp_size (e ∷ es) a =
    assign_each-length dp_size es (assign_by_owner dp_size e (e.1).cache_owner a)
    ∙ by_owner (e.1).cache_owner
  where
    by_rank : (p : Option ℕ × ℕ) → length (give_owner e p a).task_lists ≡ length a.task_lists
    by_rank (none, c) = refl
    by_rank (some r, c) = length-set a.task_lists r _

    by_owner :
        (o : Option ℕ) → length (assign_by_owner dp_size e o a).task_lists ≡ length a.task_lists
    by_owner none = by_rank (next_rank_with_free_slot dp_size dp_size a.free_slots a.cursor)
    by_owner (some o) = elim (Bool-cases (ltb o dp_size)) [
      | inl y ↦ rw y (length-set a.task_lists o _)
      | inr y ↦ rw y refl
    ]

applied-le :
    (cfg : Infer) (limit size dp_size : ℕ) (o : Option ℕ) (ls : List (List Entry))
    → o ≡ some size
    → 0 < size
    → length ls ≡ dp_size
    → tokens cfg (cap_lists limit (apply_chunk_size cfg o dp_size ls)) ≤ size
applied-le cfg limit size dp_size none ls e h k = cc
applied-le cfg limit size dp_size (some n) ls e h k =
    let s : n ≡ size = cc in
    let p : ltb 0 size ≡ true = ground (arith, h) in
    rw (s, p) (all_ranks-le cfg limit size dp_size ls k)

-- With a positive chunk size the steps of the tasks that a prefill step hands to the ranks have
-- at most as many tokens together as the chunk.
pub prefill_lists-batch_tokens :
    (es : List Entry) (w : DpWorld) (size : ℕ)
    → w.chunk_size ≡ some size
    → 0 < size
    → batch_tokens w.infer (join (prefill_lists (assign_prefill es w) w)) ≤ size
unfolding prefill_lists assign_prefill start_assignment
prefill_lists-batch_tokens es w size e h =
    let a = start_assignment es w in
    applied-le w.infer w.sched.max_num_tasks_per_dp size w.sched.dp_size w.chunk_size
      (assign_each w.sched.dp_size es a).task_lists e h
      (assign_each-length w.sched.dp_size es a ∙ length-replicate w.sched.dp_size [])
