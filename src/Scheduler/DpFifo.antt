-- ===== src/Scheduler/DpFifo.antt =====
-- chitu/scheduler.py, `DPFifoScheduler.schedule`: the chunk of tokens shared among the ranks, the decode
-- tasks grouped by owner, and what is handed to the collector.
pub mod Each
pub mod Owners
pub mod Capacity
pub mod Chunks
pub mod Routes
use chitu.Base.{
  ℕ, zero, suc, ◌+◌, ◌-◌, ◌*◌, ◌/◌, ◌%◌, min, Bool, true, false, ◌&&◌, ◌||◌, not, Option, none,
  some, String, List, [], ◌∷◌, ◌++◌, ltb, leb, nat_beq, if◌then◌else◌, length, get_elem?, get_or,
  set, take, replicate, keep, any_of, map, range_from, Dict, Exec, Result, ok, raise,
  attribute_error, index_error, string_eq, ◌==◌,
}
use chitu.Task.{
  Task, Infer, is_prefill, is_decode, need_remove, prefix_tokens_len,
  set_prefill_chunk_size_for_one_step,
}
use chitu.Collectors.{DpTaskCollector, prepare_dp_tasks}
use chitu.Scheduler.State.{Entry, ids_of}
use chitu.Scheduler.Ranks.{
  DpFifoScheduler, DpWorld, adjust, adjust_each, take_seen, take_chunk, own, waits_for_prefill,
  waits_for_decode, insert_by_start, sort_by_start, seen, may_warm_up, limited_ids, cut_entries,
  prefill_entries, owned_by, occupied, free_of, Assignment, next_rank_with_free_slot, push_to,
  give_owner, assign_by_owner, assign_each, start_assignment, assign_prefill,
}

-- A rank's part of the chunk, shared among its tasks in order.
unfoldable pub chunk_rank : Infer → ℕ → ℕ → List Entry → List Entry
chunk_rank cfg budget assigned [] = []
chunk_rank cfg budget assigned ((i, t) ∷ es) =
    let remaining = prefix_tokens_len cfg t - t.consumed_req_tokens in
    let size = min remaining (budget - assigned) in
    let rest = chunk_rank cfg budget (assigned + size) es in
    let here : Entry = (i, set_prefill_chunk_size_for_one_step size t) in
    if nat_beq remaining 0
    then rest
    else if nat_beq size 0
    then []
    else if leb budget (assigned + size)
    then here ∷ []
    else here ∷ rest

-- budget = base + (rem if r == 0 else 0)
abbrev pub rank_budget : ℕ → ℕ → ℕ → ℕ
rank_budget size dp_size r = size / dp_size + (if nat_beq r 0 then size % dp_size else 0)

unfoldable pub chunk_lists : Infer → ℕ → ℕ → ℕ → List (List Entry) → List (List Entry)
unfolding chunk_rank
chunk_lists cfg size dp_size r [] = []
chunk_lists cfg size dp_size r (l ∷ ls) =
    (if nat_beq (rank_budget size dp_size r) 0
      then []
      else chunk_rank cfg (rank_budget size dp_size r) 0 l)
    ∷ chunk_lists cfg size dp_size (suc r) ls

abbrev pub apply_chunk_size : Infer → Option ℕ → ℕ → List (List Entry) → List (List Entry)
apply_chunk_size cfg none dp_size ls = ls
apply_chunk_size cfg (some size) dp_size ls =
    if ltb 0 size then chunk_lists cfg size dp_size 0 ls else ls

-- lst[:max] for the list of each rank
abbrev pub cap_lists : ℕ → List (List Entry) → List (List Entry)
cap_lists limit ls = map (take limit) ls

abbrev pub nonempty : List Entry → Bool
nonempty [] = false
nonempty (e ∷ es) = true

abbrev pub join : List (List Entry) → List Entry
join [] = []
join (l ∷ ls) = l ++ join ls

abbrev pub decode_entries : DpWorld → List Entry
decode_entries w = keep waits_for_decode w.pool

abbrev pub owner_or_first : Option ℕ → ℕ
owner_or_first none = 0
owner_or_first (some o) = o

-- The fallback when a prefill step came out empty: an owner that is not set counts as 0.
unfoldable pub group_or_first : ℕ → List Entry → List (List Entry) → List (List Entry)
group_or_first dp_size [] ls = ls
group_or_first dp_size (e ∷ es) ls =
    group_or_first dp_size es (push_to (owner_or_first (e.1).cache_owner % dp_size) e ls)

abbrev pub push_to_owner : Entry → Option ℕ → List (List Entry) → Result (List (List Entry))
push_to_owner e none ls = raise attribute_error
push_to_owner e (some o) ls = if ltb o (length ls) then ok (push_to o e ls) else raise index_error

-- task_lists[task.cache_owner].append(task_id)
unfoldable pub group_by_owner : List Entry → Result (List (List Entry)) → Result (List (List Entry))
group_by_owner [] r = r
group_by_owner (e ∷ es) (raise x) = raise x
group_by_owner (e ∷ es) (ok ls) = group_by_owner es (push_to_owner e (e.1).cache_owner ls)

abbrev pub has_any : List (List Entry) → Bool
has_any ls = any_of nonempty ls

abbrev pub empty_lists : DpWorld → List (List Entry)
empty_lists w = replicate w.sched.dp_size []

-- What is scheduled, before it is handed to the collector: the lists of the ranks, whether there
-- is a task, and the world with the tasks as they now are.
pub record Choice : Type 0 where
  pub lists : List (List Entry)
  pub world : DpWorld

abbrev pub flagged : Bool → DpWorld → DpWorld
flagged b w = record w { sched = record w.sched { have_task = b } }

abbrev pub fall_back : DpWorld → Choice
fall_back w =
    let ls =
      cap_lists w.sched.max_num_tasks_per_dp
        (group_or_first w.sched.dp_size (decode_entries w) (empty_lists w)) in
    record { lists = ls; world = flagged (has_any ls) w }

-- The lists of a prefill step, from the distribution among the ranks.
unfoldable pub prefill_lists : Assignment → DpWorld → List (List Entry)
unfolding chunk_lists
prefill_lists a w =
    cap_lists w.sched.max_num_tasks_per_dp
      (apply_chunk_size w.infer w.chunk_size w.sched.dp_size a.task_lists)

-- The tasks as a prefill step leaves them: seen in the warm-up, with owners, and with chunk sizes,
-- which also a task has that does not fit in its rank's list any more.
abbrev pub after_prefill : Assignment → DpWorld → DpWorld
after_prefill a w = record w {
  sched = record w.sched { rr_owner_cursor = a.cursor };
  pool =
      adjust_each take_chunk
        (join (apply_chunk_size w.infer w.chunk_size w.sched.dp_size a.task_lists)) a.pool;
}

unfoldable pub choose_prefill : List Entry → DpWorld → Choice
unfolding assign_prefill prefill_lists group_or_first adjust_each
choose_prefill es w =
    let a = assign_prefill es w in
    let ls = prefill_lists a w in
    let w' = flagged (has_any ls) (after_prefill a w) in
    if not (has_any ls) && not w.sched.is_warmup_stage
    then fall_back w'
    else record { lists = ls; world = w' }

abbrev pub capped : DpWorld → Result (List (List Entry)) → Result Choice × DpWorld
capped w (raise e) = (raise e, w)
capped w (ok ls) = (ok (record { lists = cap_lists w.sched.max_num_tasks_per_dp ls; world = w }), w)

-- In the warm-up, nothing is decoded.
abbrev pub decode_step : Bool → DpWorld → Result Choice × DpWorld
decode_step true w =
    (ok (record { lists = empty_lists w; world = flagged false w }), flagged false w)
decode_step false w =
    capped (flagged (nonempty (decode_entries w)) w)
      (group_by_owner (decode_entries w) (ok (empty_lists w)))

unfoldable pub choose_decode : DpWorld → Result Choice × DpWorld
unfolding group_by_owner
choose_decode w = decode_step w.sched.is_warmup_stage w

abbrev first_list : List (List String) → Result (List String)
first_list [] = raise index_error
first_list (l ∷ ls) = ok l

abbrev pub hand_out :
    List (List String)
    → Result (Unit {0}) × DpTaskCollector
    → DpWorld
    → Result (List String) × DpWorld
hand_out ls (raise e, d) w = (raise e, record w { collector = d })
hand_out ls (ok u, d) w = (first_list ls, record w { collector = d })

-- The chosen lists go to the collector, if there is a task, and the first of them is the result.
abbrev pub hand_over_when : Bool → List (List String) → DpWorld → Result (List String) × DpWorld
hand_over_when true ls w = hand_out ls (prepare_dp_tasks w.infer w.pool ls w.collector) w
hand_over_when false ls w = (ok [], w)

unfoldable pub hand_over : Choice → Result (List String) × DpWorld
hand_over c = hand_over_when c.world.sched.have_task (map ids_of c.lists) c.world

unfoldable pub choose_lists : DpWorld → Result Choice × DpWorld
unfolding prefill_entries choose_prefill choose_decode
choose_lists w =
    if nonempty (prefill_entries w)
    then (ok (choose_prefill (prefill_entries w) w), (choose_prefill (prefill_entries w) w).world)
    else choose_decode w

abbrev pub hand_over_if : Result Choice × DpWorld → Result (List String) × DpWorld
hand_over_if (raise e, w) = (raise e, w)
hand_over_if (ok c, w) = hand_over c

unfoldable pub schedule_dp : Exec DpWorld (List String)
unfolding choose_lists hand_over
schedule_dp w = hand_over_if (choose_lists w)
