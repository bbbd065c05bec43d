-- ===== src/Scheduler/Batches.antt =====
-- chitu/scheduler.py: `_chunk_prefill_tasks_count`, `_schedule_prefill_tasks`,
-- `_schedule_decode_tasks` and `evict_decode_task`. The end of a task reaches the cache manager
-- through the executor, which frees its blocks.
pub mod Cleared
pub mod Frame
use chitu.Base.{
  ℕ, suc, ◌+◌, ◌-◌, ◌/◌, min, max, Bool, false, ◌&&◌, Option, none, some, List, [], ◌∷◌, ltb, leb,
  nat_beq, if◌then◌else◌, length, take, keep, Exec, ok, raise, index_error, runtime_error,
  generic_exception, ◌>>=◌, ◌>>◌, modify, pure, string_eq, Error,
}
use mathlib.Core.List.{reverse}
use chitu.Task.{
  Task, Infer, prefill, decode, prefix_tokens_len, next_req_tokens,
  set_prefill_chunk_size_for_one_step, has_model_run,
}
use chitu.Cache.Paged.{
  Paged, num_additional_blocks_req_need, num_free_blocks, num_used_blocks,
  finalize_cache_all_decode,
}
use chitu.Scheduler.State.{World, Entry, set_task, set_tasks, has_type, on_cache}

-- The tasks that get a part of the budget, with their parts: up to the one that uses it up. Their
-- number is the result of `_chunk_prefill_tasks_count`; the parts are set on the tasks.
unfoldable pub chunk_tasks : Infer → ℕ → ℕ → List Entry → List Entry
chunk_tasks cfg budget used [] = []
chunk_tasks cfg budget used ((i, t) ∷ es) =
    let size = min (prefix_tokens_len cfg t - t.consumed_req_tokens) (budget - used) in
    let rest = chunk_tasks cfg budget (used + size) es in
    let here : Entry = (i, set_prefill_chunk_size_for_one_step size t) in
    if leb budget (used + size) then here ∷ [] else here ∷ rest

-- Chunked prefill, if it is configured.
abbrev pub apply_chunks : Infer → Option ℕ → List Entry → List Entry
apply_chunks cfg none es = es
apply_chunks cfg (some budget) es = chunk_tasks cfg budget 0 es

-- The blocks that the next step of a task will need.
unfoldable pub blocks_for_prefill : Infer → Paged → Entry → ℕ
blocks_for_prefill cfg c e =
    num_additional_blocks_req_need c (e.1).req.request_id
      ((e.1).consumed_req_tokens + length (next_req_tokens cfg e.1))

-- The loop over the cache's capacity: how many of the first tasks fit.
unfoldable pub count_fitting : (Entry → ℕ) → ℕ → ℕ → ℕ → List Entry → ℕ
count_fitting need used threshold acc [] = 0
count_fitting need used threshold acc (e ∷ es) =
    let acc' = acc + need e in
    let rest = count_fitting need used threshold acc' es in
    if ltb threshold (used + acc') then 0 else suc rest

-- No task fits although nothing is in use and nothing was evicted: none ever will.
unfoldable pub hopeless : World → ℕ → Bool
hopeless w num_tasks =
    nat_beq num_tasks 0
    && (nat_beq w.sched.kvcache_block_threshold w.cache.num_blocks
        && nat_beq (num_used_blocks w.cache) 0)

abbrev pub first_error : List Entry → Error
first_error [] = index_error
first_error (e ∷ es) = runtime_error

-- The prefill tasks, with their parts of the chunk.
unfoldable pub prefill_candidates : World → List Entry → List Entry
prefill_candidates w entries =
    apply_chunks w.infer w.sched.chunk_size (keep (has_type prefill) entries)

unfoldable pub num_fitting : World → List Entry → ℕ
num_fitting w =
    count_fitting (blocks_for_prefill w.infer w.cache) (num_used_blocks w.cache)
      w.sched.kvcache_block_threshold 0

unfoldable pub schedule_prefill_tasks : List Entry → Exec World (List Entry)
schedule_prefill_tasks entries w =
    let chunked = prefill_candidates w entries in
    let w' = set_tasks chunked w in
    if hopeless w (num_fitting w chunked)
    then (raise (first_error chunked), w')
    else (ok (take (num_fitting w chunked) chunked), w')

-- `has_enough_block`: what the decode tasks need together
unfoldable pub decode_demand : Infer → Paged → List Entry → ℕ
decode_demand cfg c [] = 0
decode_demand cfg c ((i, t) ∷ es) =
    (if has_model_run cfg t
      then num_additional_blocks_req_need c t.req.request_id (prefix_tokens_len cfg t)
      else 0)
    + decode_demand cfg c es

abbrev pub evicting : Task → Task
evicting t = record t { next_token = none; is_waiting = false; handle = none }

abbrev pub evicted : Task → Task
evicted t = record t {
  task_type = prefill;
  prefill_chunk_size = none;
  consumed_req_tokens = 0;
  sched_group_id = none;
}

abbrev pub halve_threshold : World → World
halve_threshold w = record w {
  sched = record w.sched { kvcache_block_threshold = max 1 (w.sched.kvcache_block_threshold / 2) };
}

unfoldable pub evict_decode_task : Entry → Exec World (Unit {0})
evict_decode_task (i, t) = do
  modify (set_task i (evicting t))
  on_cache (finalize_cache_all_decode t.req.request_id)
  modify (set_task i (evicted (evicting t)))
  modify halve_threshold

abbrev pub enough_blocks : World → List Entry → Bool
enough_blocks w es = leb (decode_demand w.infer w.cache es) (num_free_blocks w.cache)

-- The loop of `_schedule_decode_tasks`, over the tasks from the last one. One task alone is not
-- evicted.
unfoldable pub evict_until : List Entry → Exec World (List Entry)
evict_until [] w = (ok [], w)
evict_until (e ∷ []) w =
    if enough_blocks w (e ∷ []) then (ok (e ∷ []), w) else (raise generic_exception, w)
evict_until (e ∷ f ∷ es) w =
    let rest = (evict_decode_task e >> evict_until (f ∷ es)) w in
    if enough_blocks w (e ∷ f ∷ es) then (ok (e ∷ f ∷ es), w) else rest

unfoldable pub schedule_decode_tasks : List Entry → Exec World (List Entry)
unfolding evict_until
schedule_decode_tasks entries = do
  left ← evict_until (reverse (keep (has_type decode) entries))
  pure (reverse left)
