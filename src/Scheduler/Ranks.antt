-- ===== src/Scheduler/Ranks.antt =====
-- chitu/scheduler.py, `DPFifoScheduler`: the state, the tasks that wait for their prefill in the order of
-- arrival, and the distribution of their slots among the ranks. A rank that the cursor names is
-- below dp_size, since the cursor starts at 0 and is reduced whenever it moves.
use chitu.Base.{
  ℕ, zero, suc, ◌+◌, ◌-◌, ◌*◌, ◌%◌, Bool, true, false, ◌&&◌, ◌||◌, not, Option, none, some, String,
  List, [], ◌∷◌, ◌++◌, ltb, leb, nat_beq, if◌then◌else◌, get_or, set, take, replicate, keep, map,
  range_from, Dict, string_eq, ◌==◌,
}
use chitu.Task.{Task, Infer, is_prefill, is_decode, need_remove, prefix_tokens_len}
use chitu.Collectors.{DpTaskCollector}
use chitu.Scheduler.State.{Entry}

pub record DpFifoScheduler : Type 0 where
  pub max_num_tasks_per_dp : ℕ
  pub dp_size : ℕ
  pub have_task : Bool
  pub is_warmup_stage : Bool
  pub rr_owner_cursor : ℕ

-- The scheduler with what it reads and writes elsewhere: the configuration with its
-- `prefill_chunk_size`, `TaskPool.pool`, and the collector of the ranks' tasks.
pub record DpWorld : Type 0 where
  pub infer : Infer
  pub chunk_size : Option ℕ
  pub sched : DpFifoScheduler
  pub pool : Dict String Task
  pub collector : DpTaskCollector

-- A change of the task object that the pool has under an id.
unfoldable pub adjust : (Task → Task) → String → Dict String Task → Dict String Task
adjust f i [] = []
adjust f i ((j, t) ∷ pool) = if j == i then (j, f t) ∷ pool else (j, t) ∷ adjust f i pool

-- The entries of a list are copies; the objects take a field over from them.
unfoldable pub adjust_each : (Task → Task → Task) → List Entry → Dict String Task → Dict String Task
unfolding adjust
adjust_each f [] pool = pool
adjust_each f ((i, t) ∷ es) pool = adjust_each f es (adjust (f t) i pool)

abbrev pub take_seen : Task → Task → Task
take_seen new t = record t { warmup_prefill_seen = new.warmup_prefill_seen }

abbrev pub take_chunk : Task → Task → Task
take_chunk new t = record t { prefill_chunk_size = new.prefill_chunk_size }

abbrev pub own : ℕ → Task → Task
own r t = record t { cache_owner = some r }

abbrev pub waits_for_prefill : Entry → Bool
waits_for_prefill e = is_prefill (e.1).task_type && not (e.1).is_waiting

abbrev pub waits_for_decode : Entry → Bool
waits_for_decode e = is_decode (e.1).task_type && (not (e.1).is_waiting && not (need_remove e.1))

-- sorted(..., key=start_time), which is stable
unfoldable pub insert_by_start : Entry → List Entry → List Entry
insert_by_start e [] = e ∷ []
insert_by_start e (f ∷ es) =
    if leb (e.1).req.start_time (f.1).req.start_time then e ∷ f ∷ es else f ∷ insert_by_start e es

unfoldable pub sort_by_start : List Entry → List Entry
unfolding insert_by_start
sort_by_start [] = []
sort_by_start (e ∷ es) = insert_by_start e (sort_by_start es)

abbrev pub seen : Entry → Entry
seen (i, t) = (i, record t { warmup_prefill_seen = true })

abbrev pub may_warm_up : Infer → Entry → Bool
may_warm_up cfg (i, t) =
    not t.warmup_prefill_seen || ltb t.consumed_req_tokens (prefix_tokens_len cfg t)

-- The warm-up takes a task once, and again while its prefill is not finished. n are taken so far.
unfoldable pub limited_ids : Infer → ℕ → ℕ → List Entry → List Entry
limited_ids cfg limit n [] = []
limited_ids cfg limit n (e ∷ es) =
    let n' = if may_warm_up cfg e then suc n else n in
    let others = limited_ids cfg limit n' es in
    let rest = if leb limit n' then [] else others in
    if may_warm_up cfg e then seen e ∷ rest else rest

abbrev pub cut_entries : Infer → ℕ → Bool → List Entry → List Entry
cut_entries cfg limit true es = limited_ids cfg limit 0 es
cut_entries cfg limit false es = take limit es

unfoldable pub prefill_entries : DpWorld → List Entry
unfolding sort_by_start limited_ids
prefill_entries w =
    let es = sort_by_start (keep waits_for_prefill w.pool) in
    let limit = w.sched.max_num_tasks_per_dp * w.sched.dp_size in
    cut_entries w.infer limit w.sched.is_warmup_stage es

abbrev pub owned_by : ℕ → Entry → Bool
owned_by r (i, t) = elim t.cache_owner [
  | none ↦ false
  | some o ↦ nat_beq o r && not (need_remove t)
]

-- How many requests hold a slot of a rank.
unfoldable pub occupied : Dict String Task → ℕ → ℕ
occupied [] r = 0
occupied (e ∷ pool) r = (if owned_by r e then 1 else 0) + occupied pool r

abbrev pub free_of : ℕ → Dict String Task → ℕ → ℕ
free_of limit pool r = limit - occupied pool r

-- The state of the distribution: free slots, cursor, the list of each rank, and the pool.
pub record Assignment : Type 0 where
  pub pool : Dict String Task
  pub free_slots : List ℕ
  pub cursor : ℕ
  pub task_lists : List (List Entry)

-- The rounds of the loop that are left, and the cursor. With the rank comes the cursor behind it.
unfoldable pub next_rank_with_free_slot : ℕ → ℕ → List ℕ → ℕ → Option ℕ × ℕ
next_rank_with_free_slot dp_size zero free c = (none, c)
next_rank_with_free_slot dp_size (suc n) free c =
    let rest = next_rank_with_free_slot dp_size n free ((c + 1) % dp_size) in
    if ltb 0 (get_or free c 0) then (some c, (c + 1) % dp_size) else rest

abbrev pub push_to : ℕ → Entry → List (List Entry) → List (List Entry)
push_to r e lists = set lists r (get_or lists r [] ++ e ∷ [])

-- A request with no owner gets the rank that was found, if one was.
abbrev pub give_owner : Entry → Option ℕ × ℕ → Assignment → Assignment
give_owner e (none, c) a = record a { cursor = c }
give_owner e (some r, c) a = record {
  pool = adjust (own r) e.0 a.pool;
  free_slots = set a.free_slots r (get_or a.free_slots r 0 - 1);
  cursor = c;
  task_lists = push_to r (e.0, own r e.1) a.task_lists;
}

abbrev pub assign_by_owner : ℕ → Entry → Option ℕ → Assignment → Assignment
assign_by_owner dp_size e none a =
    give_owner e (next_rank_with_free_slot dp_size dp_size a.free_slots a.cursor) a
assign_by_owner dp_size e (some o) a =
    if ltb o dp_size then record a { task_lists = push_to o e a.task_lists } else a

unfoldable pub assign_each : ℕ → List Entry → Assignment → Assignment
unfolding next_rank_with_free_slot adjust
assign_each dp_size [] a = a
assign_each dp_size (e ∷ es) a =
    assign_each dp_size es (assign_by_owner dp_size e (e.1).cache_owner a)

unfoldable pub start_assignment : List Entry → DpWorld → Assignment
unfolding occupied adjust_each
start_assignment es w = record {
  pool = adjust_each take_seen es w.pool;
  free_slots = map (free_of w.sched.max_num_tasks_per_dp w.pool) (range_from 0 w.sched.dp_size);
  cursor = w.sched.rr_owner_cursor;
  task_lists = replicate w.sched.dp_size [];
}

unfoldable pub assign_prefill : List Entry → DpWorld → Assignment
unfolding assign_each start_assignment
assign_prefill es w = assign_each w.sched.dp_size es (start_assignment es w)
