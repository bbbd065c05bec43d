-- ===== src/Scheduler/DpFifo/Capacity.antt =====
-- DPFifoScheduler: no rank is given more requests than it has slots in the cache.
use chitu.Base.{
  ℕ, zero, suc, ◌+◌, ◌-◌, ◌%◌, ◌≤◌, ◌<◌, ◌≡◌, refl, ◌∙◌, Bool, true, false, ◌&&◌, Option, none,
  some, String, List, [], ◌∷◌, ltb, nat_beq, if◌then◌else◌, get_or, map, set, arith, Dict, ok,
  raise, string_eq, range_from, Bool-cases, inl, inr, Result, not,
}
use chitu.Task.{Task, need_remove}
use chitu.Scheduler.State.{Entry, ids_of}
use chitu.Collectors.{DpTaskCollector, prepare_dp_tasks}
use chitu.Scheduler.Ranks.{
  DpWorld, Assignment, adjust, adjust_each, take_seen, take_chunk, own, owned_by, occupied, free_of,
  next_rank_with_free_slot, assign_each, assign_by_owner, give_owner, start_assignment,
  assign_prefill, prefill_entries,
}
use chitu.Scheduler.DpFifo.{
  Choice, choose_prefill, after_prefill, choose_decode, choose_lists, group_by_owner,
  decode_entries, empty_lists, capped, nonempty, schedule_dp, hand_over, hand_over_if, hand_out,
  hand_over_when, decode_step, join, prefill_lists, has_any, apply_chunk_size, flagged,
}

-- A change that keeps the owner and whether the task is done keeps what the ranks hold.
occupied-adjust_same :
    (f : Task → Task) (i : String) (pool : Dict String Task) (r : ℕ)
    → ((j : String) (t : Task) → owned_by r (j, f t) ≡ owned_by r (j, t))
    → occupied (adjust f i pool) r ≡ occupied pool r
unfolding occupied adjust
occupied-adjust_same f i [] r h = refl
occupied-adjust_same f i ((j, t) ∷ pool) r h = elim (Bool-cases (string_eq.beq j i)) [
  | inl e ↦ rw (e, h j t) refl
  | inr e ↦ rw (e, occupied-adjust_same f i pool r h) refl
]

occupied-adjust_each :
    (f : Task → Task → Task) (es : List Entry) (pool : Dict String Task) (r : ℕ)
    → ((u : Task) (j : String) (t : Task) → owned_by r (j, f u t) ≡ owned_by r (j, t))
    → occupied (adjust_each f es pool) r ≡ occupied pool r
unfolding adjust_each
occupied-adjust_each f [] pool r h = refl
occupied-adjust_each f ((i, u) ∷ es) pool r h =
    occupied-adjust_each f es (adjust (f u) i pool) r h ∙ occupied-adjust_same (f u) i pool r (h u)

owned_by-take_seen :
    (r : ℕ) (u : Task) (j : String) (t : Task) → owned_by r (j, take_seen u t) ≡ owned_by r (j, t)
unfolding need_remove
owned_by-take_seen r u j t = refl

owned_by-take_chunk :
    (r : ℕ) (u : Task) (j : String) (t : Task) → owned_by r (j, take_chunk u t) ≡ owned_by r (j, t)
unfolding need_remove
owned_by-take_chunk r u j t = refl

-- A new owner costs its rank a slot at most, and no other rank one.
occupied-adjust-own :
    (i : String) (pool : Dict String Task) (o r : ℕ)
    → occupied (adjust (own o) i pool) r ≤ occupied pool r + (if nat_beq o r then 1 else 0)
unfolding occupied adjust
occupied-adjust-own i [] o r = ground arith
occupied-adjust-own i ((j, t) ∷ pool) o r = elim (Bool-cases (string_eq.beq j i)) [
  | inl e ↦ rw e (ground arith)
  | inr e ↦ rw e (omega (arith, occupied-adjust-own i pool o r))
]

next_rank_free :
    (dp_size n : ℕ) (free : List ℕ) (c r c' : ℕ)
    → next_rank_with_free_slot dp_size n free c ≡ (some r, c')
    → 0 < get_or free r 0
unfolding next_rank_with_free_slot
next_rank_free dp_size zero free c r c' h = cc
next_rank_free dp_size (suc n) free c r c' h = elim (Bool-cases (ltb 0 (get_or free c 0))) [
  | inl e ↦ ground (arith, e, h)
  | inr e ↦ next_rank_free dp_size n free ((c + 1) % dp_size) r c' (rw e at h)
]

-- What a rank holds, with its free slots, is within its limit.
abbrev Fits : ℕ → ℕ → Assignment → Type 0
Fits limit dp_size a = (r : ℕ) → r < dp_size → occupied a.pool r + get_or a.free_slots r 0 ≤ limit

get_or-set :
    (xs : List ℕ) (i j v : ℕ)
    → 0 < get_or xs i 0
    → get_or (set xs i v) j 0 ≡ (if nat_beq i j then v else get_or xs j 0)
get_or-set [] i j v h = absurd (omega (arith, h))
get_or-set (x ∷ xs) zero zero v h = refl
get_or-set (x ∷ xs) zero (suc j) v h = ground arith
get_or-set (x ∷ xs) (suc i) zero v h = ground arith
get_or-set (x ∷ xs) (suc i) (suc j) v h = get_or-set xs i j v h ∙ ground arith

assign_by_owner-Fits :
    (limit dp_size : ℕ) (e : Entry) (o : Option ℕ) (a : Assignment)
    → Fits limit dp_size a
    → Fits limit dp_size (assign_by_owner dp_size e o a)
assign_by_owner-Fits limit dp_size e (some o) a h = elim (Bool-cases (ltb o dp_size)) [
  | inl y ↦ rw y h
  | inr y ↦ rw y h
]
assign_by_owner-Fits limit dp_size e none a h =
    by_rank (next_rank_with_free_slot dp_size dp_size a.free_slots a.cursor) refl
  where
    by_rank :
        (p : Option ℕ × ℕ)
        → next_rank_with_free_slot dp_size dp_size a.free_slots a.cursor ≡ p
        → Fits limit dp_size (give_owner e p a)
    by_rank (none, c) s = h
    by_rank (some o, c) s = λ r b.
        let z = next_rank_free dp_size dp_size a.free_slots a.cursor o c s in
        let g = get_or-set a.free_slots o r (get_or a.free_slots o 0 - 1) z in
        rw g (ground (arith, z, h r b, occupied-adjust-own e.0 a.pool o r))

assign_each-Fits :
    (limit dp_size : ℕ) (es : List Entry) (a : Assignment)
    → Fits limit dp_size a
    → Fits limit dp_size (assign_each dp_size es a)
unfolding assign_each
assign_each-Fits limit dp_size [] a h = h
assign_each-Fits limit dp_size (e ∷ es) a h =
    assign_each-Fits limit dp_size es (assign_by_owner dp_size e (e.1).cache_owner a)
      (assign_by_owner-Fits limit dp_size e (e.1).cache_owner a h)

get_or-map_range :
    (f : ℕ → ℕ) (lo n r : ℕ)
    → get_or (map f (range_from lo n)) r 0 ≡ (if ltb r n then f (lo + r) else 0)
get_or-map_range f lo zero r = ground arith
get_or-map_range f lo (suc n) zero = ground arith
get_or-map_range f lo (suc n) (suc r) =
    let s : suc lo + r ≡ lo + suc r = omega arith in
    get_or-map_range f (suc lo) n r ∙ rw s (ground arith)

-- No rank holds more requests than it has slots.
abbrev pub WithinSlots : DpWorld → Type 0
WithinSlots w = (r : ℕ) → r < w.sched.dp_size → occupied w.pool r ≤ w.sched.max_num_tasks_per_dp

start-Fits :
    (es : List Entry) (w : DpWorld)
    → WithinSlots w
    → Fits w.sched.max_num_tasks_per_dp w.sched.dp_size (start_assignment es w)
unfolding start_assignment
start-Fits es w h r b =
    rw
      (
        occupied-adjust_each take_seen es w.pool r (owned_by-take_seen r),
        get_or-map_range (free_of w.sched.max_num_tasks_per_dp w.pool) 0 w.sched.dp_size r,
      )
      (ground (arith, h r b))

after_prefill-WithinSlots :
    (es : List Entry) (w : DpWorld)
    → WithinSlots w
    → WithinSlots (after_prefill (assign_prefill es w) w)
unfolding assign_prefill
after_prefill-WithinSlots es w h r b =
    let a = assign_each w.sched.dp_size es (start_assignment es w) in
    let k =
      assign_each-Fits w.sched.max_num_tasks_per_dp w.sched.dp_size es (start_assignment es w)
        (start-Fits es w h) r b in
    let e =
      occupied-adjust_each take_chunk
        (join (apply_chunk_size w.infer w.chunk_size w.sched.dp_size a.task_lists)) a.pool r
        (owned_by-take_chunk r) in
    omega (arith, k, e)

choose_prefill-WithinSlots :
    (es : List Entry) (w : DpWorld) → WithinSlots w → WithinSlots (choose_prefill es w).world
unfolding choose_prefill
choose_prefill-WithinSlots es w h =
    let k = after_prefill-WithinSlots es w h in
    elim (Bool-cases
      (not (has_any (prefill_lists (assign_prefill es w) w)) && not w.sched.is_warmup_stage)) [
        | inl e ↦ rw e k
        | inr e ↦ rw e k
      ]

-- What is chosen, or is left when nothing could be.
abbrev KeepsSlots : Result Choice × DpWorld → Type 0
KeepsSlots (ok c, w) = WithinSlots c.world
KeepsSlots (raise e, w) = WithinSlots w

capped-KeepsSlots :
    (w : DpWorld) (r : Result (List (List Entry))) → WithinSlots w → KeepsSlots (capped w r)
capped-KeepsSlots w (ok ls) h = h
capped-KeepsSlots w (raise e) h = h

decode_step-KeepsSlots : (b : Bool) (w : DpWorld) → WithinSlots w → KeepsSlots (decode_step b w)
decode_step-KeepsSlots true w h = h
decode_step-KeepsSlots false w h =
    capped-KeepsSlots (flagged (nonempty (decode_entries w)) w)
      (group_by_owner (decode_entries w) (ok (empty_lists w))) h

choose_lists-KeepsSlots : (w : DpWorld) → WithinSlots w → KeepsSlots (choose_lists w)
unfolding choose_lists choose_decode
choose_lists-KeepsSlots w h = elim (Bool-cases (nonempty (prefill_entries w))) [
  | inl e ↦ rw e (choose_prefill-WithinSlots (prefill_entries w) w h)
  | inr e ↦ rw e (decode_step-KeepsSlots w.sched.is_warmup_stage w h)
]

hand_out-WithinSlots :
    (ls : List (List String)) (r : Result (Unit {0}) × DpTaskCollector) (w : DpWorld)
    → WithinSlots w
    → WithinSlots (hand_out ls r w).1
hand_out-WithinSlots ls (raise e, d) w h = h
hand_out-WithinSlots ls (ok u, d) w h = h

hand_over_when-WithinSlots :
    (b : Bool) (ls : List (List String)) (w : DpWorld)
    → WithinSlots w
    → WithinSlots (hand_over_when b ls w).1
hand_over_when-WithinSlots true ls w h =
    hand_out-WithinSlots ls (prepare_dp_tasks w.infer w.pool ls w.collector) w h
hand_over_when-WithinSlots false ls w h = h

hand_over_if-WithinSlots :
    (p : Result Choice × DpWorld) → KeepsSlots p → WithinSlots (hand_over_if p).1
unfolding hand_over
hand_over_if-WithinSlots (raise e, w) h = h
hand_over_if-WithinSlots (ok c, w) h =
    hand_over_when-WithinSlots c.world.sched.have_task (map ids_of c.lists) c.world h

-- When every rank holds at most as many requests as it has slots in the cache, so does every
-- rank after a schedule of the data-parallel scheduler, whether it returns or raises.
pub schedule_dp-WithinSlots : (w : DpWorld) → WithinSlots w → WithinSlots (schedule_dp w).1
unfolding schedule_dp
schedule_dp-WithinSlots w h =
    hand_over_if-WithinSlots (choose_lists w) (choose_lists-KeepsSlots w h)
