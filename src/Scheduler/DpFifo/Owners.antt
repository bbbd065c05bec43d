-- ===== src/Scheduler/DpFifo/Owners.antt =====
-- DPFifoScheduler: which rank a task is sent to.
use native.Mathlib.Nat.{mod-eq_of_lt, mod-lt}
use chitu.Base.{
  ℕ, zero, suc, ◌+◌, ◌%◌, ◌<◌, ◌≡◌, refl, ◌∙◌, Bool, true, false, Option, none, some, List, [], ◌∷◌,
  ltb, ltb→lt, ◌*◌, leb, if◌then◌else◌, get_or, keep, arith, Bool-cases, inl, inr, All, All-keep,
  All-take,
}
use chitu.Task.{Infer}
use chitu.Scheduler.State.{Entry}
use chitu.Scheduler.DpFifo.Each.{Each, Each-push}
use chitu.Scheduler.Ranks.{
  DpWorld, Assignment, waits_for_prefill, waits_for_decode, sort_by_start, insert_by_start,
  limited_ids, prefill_entries, own, assign_each, assign_by_owner, give_owner, push_to,
  next_rank_with_free_slot, cut_entries, seen, may_warm_up,
}
use chitu.Scheduler.DpFifo.{group_or_first, owner_or_first}

-- The rank of a task: its owner, and 0 for a task that none has been set for.
abbrev pub rank_of : ℕ → Entry → ℕ
rank_of dp_size (i, t) = owner_or_first t.cache_owner % dp_size

abbrev pub Goes : ℕ → (Entry → Bool) → ℕ → Entry → Type 0
Goes dp_size ready r e = (rank_of dp_size e ≡ r) × (ready e ≡ true)

next_rank_below :
    (dp_size n : ℕ) (free : List ℕ) (c r c' : ℕ)
    → c < dp_size
    → next_rank_with_free_slot dp_size n free c ≡ (some r, c')
    → r < dp_size
unfolding next_rank_with_free_slot
next_rank_below dp_size zero free c r c' b h = cc
next_rank_below dp_size (suc n) free c r c' b h = elim (Bool-cases (ltb 0 (get_or free c 0))) [
  | inl e ↦ ground (arith, e, h)
  | inr e ↦
      next_rank_below dp_size n free ((c + 1) % dp_size) r c' (mod-lt (c + 1) (omega arith))
        (rw e at h)
]

next_cursor_below :
    (dp_size n : ℕ) (free : List ℕ) (c : ℕ)
    → c < dp_size
    → (next_rank_with_free_slot dp_size n free c).1 < dp_size
unfolding next_rank_with_free_slot
next_cursor_below dp_size zero free c b = b
next_cursor_below dp_size (suc n) free c b =
    let m = mod-lt (c + 1) (omega arith) in
    elim (Bool-cases (ltb 0 (get_or free c 0))) [
      | inl e ↦ rw e m
      | inr e ↦ rw e (next_cursor_below dp_size n free ((c + 1) % dp_size) m)
    ]

module _ (dp_size : ℕ) where
  -- A distribution under way.
  abbrev pub IsAssigning : Assignment → Type 0
  IsAssigning a = (a.cursor < dp_size) × Each (Goes dp_size waits_for_prefill) 0 a.task_lists

  assign_by_owner-IsAssigning :
      (e : Entry) (o : Option ℕ) (a : Assignment)
      → (e.1).cache_owner ≡ o
      → waits_for_prefill e ≡ true
      → IsAssigning a
      → IsAssigning (assign_by_owner dp_size e o a)
  assign_by_owner-IsAssigning e none a s h k =
      by_rank (next_rank_with_free_slot dp_size dp_size a.free_slots a.cursor) refl
        (next_cursor_below dp_size dp_size a.free_slots a.cursor k.0)
    where
      by_rank :
          (p : Option ℕ × ℕ)
          → next_rank_with_free_slot dp_size dp_size a.free_slots a.cursor ≡ p
          → p.1 < dp_size
          → IsAssigning (give_owner e p a)
      by_rank (none, c) q b = (b, k.1)
      by_rank (some r, c) q b =
          let l = next_rank_below dp_size dp_size a.free_slots a.cursor r c k.0 q in
          (
            b,
            Each-push (Goes dp_size waits_for_prefill) 0 r (e.0, own r e.1) a.task_lists k.1
                (mod-eq_of_lt l ∙ omega arith, h),
          )
  assign_by_owner-IsAssigning e (some o) a s h k = elim (Bool-cases (ltb o dp_size)) [
    | inl y ↦ rw y (
      k.0,
      Each-push (Goes dp_size waits_for_prefill) 0 o e a.task_lists k.1
          (rw s (mod-eq_of_lt (ltb→lt o dp_size y) ∙ omega arith), h),
    )
    | inr y ↦ rw y k
  ]

  pub assign_each-IsAssigning :
      (es : List Entry) (a : Assignment)
      → All (λ e. waits_for_prefill e ≡ true) es
      → IsAssigning a
      → IsAssigning (assign_each dp_size es a)
  unfolding assign_each
  assign_each-IsAssigning [] a h k = k
  assign_each-IsAssigning (e ∷ es) a h k =
      assign_each-IsAssigning es (assign_by_owner dp_size e (e.1).cache_owner a) h.1
        (assign_by_owner-IsAssigning e (e.1).cache_owner a refl h.0 k)

  pub group_or_first-Each :
      (es : List Entry) (ls : List (List Entry))
      → All (λ e. waits_for_decode e ≡ true) es
      → Each (Goes dp_size waits_for_decode) 0 ls
      → Each (Goes dp_size waits_for_decode) 0 (group_or_first dp_size es ls)
  unfolding group_or_first
  group_or_first-Each [] ls h k = k
  group_or_first-Each (e ∷ es) ls h k =
      group_or_first-Each es (push_to (owner_or_first (e.1).cache_owner % dp_size) e ls) h.1 (
        Each-push (Goes dp_size waits_for_decode) 0 (owner_or_first (e.1).cache_owner % dp_size) e
          ls k (omega arith, h.0))

-- An owner that is the number of a rank.
abbrev pub is_rank : ℕ → Option ℕ → Bool
is_rank dp_size none = false
is_rank dp_size (some o) = ltb o dp_size

abbrev pub has_rank : ℕ → Entry → Bool
has_rank dp_size (i, t) = is_rank dp_size t.cache_owner

insert_by_start-All :
    (P : Entry → Type 0) (e : Entry) (es : List Entry)
    → P e
    → All P es
    → All P (insert_by_start e es)
unfolding insert_by_start
insert_by_start-All P e [] p a = (p, tt)
insert_by_start-All P e (f ∷ es) p a =
    elim (Bool-cases (leb (e.1).req.start_time (f.1).req.start_time)) [
      | inl y ↦ rw y (p, a)
      | inr y ↦ rw y (a.0, insert_by_start-All P e es p a.1)
    ]

sort_by_start-All : (P : Entry → Type 0) (es : List Entry) → All P es → All P (sort_by_start es)
unfolding sort_by_start
sort_by_start-All P [] a = tt
sort_by_start-All P (e ∷ es) a =
    insert_by_start-All P e (sort_by_start es) a.0 (sort_by_start-All P es a.1)

All-if :
    (P : Entry → Type 0) (b : Bool) (xs ys : List Entry)
    → All P xs
    → All P ys
    → All P (if b then xs else ys)
All-if P true xs ys h k = h
All-if P false xs ys h k = k

limited_ids-All :
    (P : Entry → Type 0)
    → ((e : Entry) → P e → P (seen e))
    → (cfg : Infer) (limit n : ℕ) (es : List Entry) → All P es
    → All P (limited_ids cfg limit n es)
unfolding limited_ids
limited_ids-All P s cfg limit n [] a = tt
limited_ids-All P s cfg limit n (e ∷ es) a =
    let n' = if may_warm_up cfg e then suc n else n in
    let ih = limited_ids-All P s cfg limit n' es a.1 in
    let others = limited_ids cfg limit n' es in
    let rest : List Entry = if leb limit n' then [] else others in
    let r = All-if P (leb limit n') [] others tt ih in
    All-if P (may_warm_up cfg e) (seen e ∷ rest) rest (s e a.0, r) r

cut_entries-All :
    (cfg : Infer) (limit : ℕ) (b : Bool) (es : List Entry)
    → All (λ e. waits_for_prefill e ≡ true) es
    → All (λ e. waits_for_prefill e ≡ true) (cut_entries cfg limit b es)
cut_entries-All cfg limit true es a =
    limited_ids-All (λ e. waits_for_prefill e ≡ true) (λ e p. p) cfg limit 0 es a
cut_entries-All cfg limit false es a = All-take (λ e. waits_for_prefill e ≡ true) limit es a

pub prefill_entries-All : (w : DpWorld) → All (λ e. waits_for_prefill e ≡ true) (prefill_entries w)
unfolding prefill_entries
prefill_entries-All w =
    let P : Entry → Type 0 = λ e. waits_for_prefill e ≡ true in
    let a =
      sort_by_start-All P (keep waits_for_prefill w.pool) (All-keep waits_for_prefill w.pool) in
    cut_entries-All w.infer (w.sched.max_num_tasks_per_dp * w.sched.dp_size) w.sched.is_warmup_stage
      (sort_by_start (keep waits_for_prefill w.pool)) a
