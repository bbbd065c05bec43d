-- ===== src/Scheduler/Budget.antt =====
-- The two limits of a prefill batch: the tokens of a chunk, and the blocks of the cache.
use chitu.Base.{
  ℕ, suc, ◌+◌, ◌-◌, ◌≤◌, ◌<◌, ◌≡◌, refl, min, true, false, ◌⊎◌, inl, inr, String, List, [], ◌∷◌,
  arith, ltb, leb, length, take, drop, length-take, length-drop, All, Bool-cases, ok,
}
use chitu.Task.{
  Task, Infer, is_prefill, prefix_tokens_len, next_req_tokens, next_req_tokens_len,
  set_prefill_chunk_size_for_one_step,
}
use chitu.Cache.Paged.{Paged, num_used_blocks, num_free_blocks, grow_prefill}
use chitu.Cache.Paged.Capacity.{demand, Once, Fits, grow_prefill-Fits}
use chitu.Scheduler.State.{World, Entry, set_tasks}
use chitu.Scheduler.Batches.{
  chunk_tasks, count_fitting, blocks_for_prefill, hopeless, schedule_prefill_tasks,
  prefill_candidates, num_fitting,
}

-- The tokens that are left of a task's prompt, and those that its next step takes.
abbrev pub remaining : Infer → List Entry → ℕ
remaining cfg [] = 0
remaining cfg ((i, t) ∷ es) = (prefix_tokens_len cfg t - t.consumed_req_tokens) + remaining cfg es

abbrev pub batch_tokens : Infer → List Entry → ℕ
batch_tokens cfg [] = 0
batch_tokens cfg ((i, t) ∷ es) = length (next_req_tokens cfg t) + batch_tokens cfg es

-- A task that is in its prefill.
abbrev pub InPrefill : Entry → Type 0
InPrefill (i, t) =
    (is_prefill t.task_type ≡ true) × (t.consumed_req_tokens ≤ length t.prefix_tokens)

chunk_length :
    (cfg : Infer) (t : Task) (size : ℕ)
    → is_prefill t.task_type ≡ true
    → t.consumed_req_tokens ≤ length t.prefix_tokens
    → size ≤ prefix_tokens_len cfg t - t.consumed_req_tokens
    → length (next_req_tokens cfg (set_prefill_chunk_size_for_one_step size t)) ≡ size
unfolding next_req_tokens next_req_tokens_len set_prefill_chunk_size_for_one_step
chunk_length cfg t size e h k =
    rw
      (
        length-take _ (drop t.consumed_req_tokens t.prefix_tokens),
        length-drop t.consumed_req_tokens t.prefix_tokens,
      )
      (ground arith)

chunk_tasks-batch_tokens :
    (cfg : Infer) (budget used : ℕ) (es : List Entry)
    → used ≤ budget
    → All InPrefill es
    → batch_tokens cfg (chunk_tasks cfg budget used es) ≡ min (budget - used) (remaining cfg es)
unfolding chunk_tasks
chunk_tasks-batch_tokens cfg budget used [] h a = omega arith
chunk_tasks-batch_tokens cfg budget used ((i, t) ∷ es) h a =
    let size : ℕ = min (prefix_tokens_len cfg t - t.consumed_req_tokens) (budget - used) in
    let here = chunk_length cfg t size a.0.0 a.0.1 (omega arith) in
    elim (Bool-cases (leb budget (used + size))) [
      | inl e ↦ rw e (ground (arith, here))
      | inr e ↦ rw e (
          ground
            (arith, here, chunk_tasks-batch_tokens cfg budget (used + size) es (ground arith) a.1))
    ]

-- The tasks that chunked prefill picks have, with the parts that it gives them, exactly as many
-- tokens for the next step as the budget allows or as are left, whichever is less.
chunked_tokens :
    (cfg : Infer) (budget : ℕ) (es : List Entry)
    → All InPrefill es
    → batch_tokens cfg (chunk_tasks cfg budget 0 es) ≡ min budget (remaining cfg es)
chunked_tokens cfg budget es a =
    omega (arith, chunk_tasks-batch_tokens cfg budget 0 es (omega arith) a)

abbrev total : (Entry → ℕ) → List Entry → ℕ
total need [] = 0
total need (e ∷ es) = need e + total need es

module _ (need : Entry → ℕ) (used threshold : ℕ) where
  -- The tasks that are counted fit under the threshold with what is in use, and with the next task
  -- they would not.
  count_fitting_lem :
      (acc : ℕ) (es : List Entry)
      → let n = count_fitting need used threshold acc es in
        ((n ≡ 0) ⊎ (used + (acc + total need (take n es)) ≤ threshold))
        × ((n ≡ length es) ⊎ (threshold < used + (acc + total need (take (suc n) es))))
  unfolding count_fitting
  count_fitting_lem acc [] = (inl refl, inl refl)
  count_fitting_lem acc (e ∷ es) = elim (Bool-cases (ltb threshold (used + (acc + need e)))) [
    | inl over ↦ rw over (inl refl, inr (ground arith))
    | inr fits ↦ rw fits (ground (arith, count_fitting_lem (acc + need e) es))
  ]

-- The batch as the cache manager is given it: request ids, and lengths after the step.
abbrev pub batch_req_ids : List Entry → List String
batch_req_ids [] = []
batch_req_ids ((i, t) ∷ es) = t.req.request_id ∷ batch_req_ids es

abbrev pub batch_lens : Infer → List Entry → List ℕ
batch_lens cfg [] = []
batch_lens cfg ((i, t) ∷ es) =
    (t.consumed_req_tokens + length (next_req_tokens cfg t)) ∷ batch_lens cfg es

total-demand :
    (cfg : Infer) (c : Paged) (es : List Entry)
    → total (blocks_for_prefill cfg c) es ≡ demand c (batch_req_ids es) (batch_lens cfg es)
unfolding blocks_for_prefill demand
total-demand cfg c [] = refl
total-demand cfg c ((i, t) ∷ es) = omega (arith, total-demand cfg c es)

fitting_demand :
    (w : World) (es : List Entry)
    → w.sched.kvcache_block_threshold ≤ w.cache.num_blocks
    → num_free_blocks w.cache ≤ w.cache.num_blocks
    → total (blocks_for_prefill w.infer w.cache) (take (num_fitting w es) es)
      ≤ num_free_blocks w.cache
unfolding num_fitting
fitting_demand w es t f =
    let fits =
      count_fitting_lem (blocks_for_prefill w.infer w.cache) (num_used_blocks w.cache)
        w.sched.kvcache_block_threshold 0 es in
    elim fits.0 [ inl z ↦ rw z (omega arith) | inr le ↦ omega arith ]

-- A result of `_schedule_prefill_tasks` is the counted prefix of the candidates, and what it writes
-- are the parts of the chunk.
pub chosen_lem :
    (entries chosen : List Entry) (w w' : World)
    → schedule_prefill_tasks entries w ≡ (ok chosen, w')
    → (chosen ≡ take (num_fitting w (prefill_candidates w entries)) (prefill_candidates w entries))
      × (w' ≡ set_tasks (prefill_candidates w entries) w)
      × (hopeless w (num_fitting w (prefill_candidates w entries)) ≡ false)
unfolding schedule_prefill_tasks
chosen_lem entries chosen w w' e =
    elim (Bool-cases (hopeless w (num_fitting w (prefill_candidates w entries)))) [
      | inl h ↦ let bad = rw h at e in cc
      | inr h ↦ let good = rw h at e in (cc, cc, h)
    ]

-- A prefill batch that the scheduler chooses asks for no more blocks than are free, as long as the
-- threshold is at most the number of blocks: what the scheduler adds up is what the cache manager
-- will take.
pub schedule_prefill-fits :
    (entries chosen : List Entry) (w w' : World)
    → schedule_prefill_tasks entries w ≡ (ok chosen, w')
    → w.sched.kvcache_block_threshold ≤ w.cache.num_blocks
    → num_free_blocks w.cache ≤ w.cache.num_blocks
    → demand w.cache (batch_req_ids chosen) (batch_lens w.infer chosen) ≤ num_free_blocks w.cache
schedule_prefill-fits entries chosen w w' e t f =
    rw (← total-demand w.infer w.cache chosen, (chosen_lem entries chosen w w' e).0)
      (fitting_demand w (prefill_candidates w entries) t f)

-- So the manager's loop serves the whole batch, if no two tasks share a request: it returns, and
-- every request can hold the tokens of the step.
pub scheduled_batch-Fits :
    (entries chosen : List Entry) (w w' : World)
    → schedule_prefill_tasks entries w ≡ (ok chosen, w')
    → w.sched.kvcache_block_threshold ≤ w.cache.num_blocks
    → num_free_blocks w.cache ≤ w.cache.num_blocks
    → 0 < w.cache.block_size
    → Once (batch_req_ids chosen)
    → Fits w.cache
        (batch_req_ids chosen)
        (batch_lens w.infer chosen)
        (grow_prefill (batch_req_ids chosen) (batch_lens w.infer chosen) w.cache)
scheduled_batch-Fits entries chosen w w' e t f p o =
    grow_prefill-Fits (batch_req_ids chosen) (batch_lens w.infer chosen) w.cache p o
      (schedule_prefill-fits entries chosen w w' e t f)
