-- ===== src/Scheduler/Eviction.antt =====
-- Decode batches: tasks are evicted from the end of the ranking until the blocks suffice.
use mathlib.Core.List.{reverse, reverse-append, reverse-reverse}
use chitu.Base.{
  ℕ, ◌/◌, ◌≤◌, ◌<◌, ◌≡◌, refl, sym, ap, ◌∙◌, max, inl, inr, none, some, String, List, [], ◌∷◌, ◌++◌,
  arith, leb→le, All, Bool-cases, Result, ok, raise, keep, get, put, get-put, string_eq, then-eq-ok,
  bind-eq-ok, pure,
}
use chitu.Task.{Task, prefill, decode}
use chitu.Cache.Paged.{Paged, num_free_blocks, finalize_cache_all_decode}
use chitu.Cache.Paged.Blocks.{held}
use chitu.Cache.Paged.Release.{WellKept, finalize-Released}
use chitu.Scheduler.State.{World, Entry, has_type, set_task}
use chitu.Scheduler.Batches.{
  decode_demand, evict_decode_task, evicting, evicted, evict_until, enough_blocks,
  schedule_decode_tasks, halve_threshold,
}
use chitu.Scheduler.Batches.Cleared.{req_of, Cleared, nothing-Cleared, cons-Cleared, evicted-Same}

-- A task before its prefill, with no part of a chunk and in no group.
abbrev pub IsRestored : World → String → Type 0
IsRestored w i =
    (t : Task) × (get w.tasks.pool i ≡ some t)
    × (t.task_type ≡ prefill)
    × (t.consumed_req_tokens ≡ 0)
    × (t.prefill_chunk_size ≡ none)
    × (t.sched_group_id ≡ none)

record Evicted (i r : String) (w v : World) : Type 0 where
  infer : v.infer ≡ w.infer
  restored : IsRestored v i
  others : (j : String) → IsRestored w j → IsRestored v j
  threshold : v.sched.kvcache_block_threshold ≡ max 1 (w.sched.kvcache_block_threshold / 2)
  cache : finalize_cache_all_decode r w.cache ≡ (ok tt, v.cache)

-- The world after an eviction, with what the cache manager made of its state.
abbrev after_eviction : String → Task → World → Paged → World
after_eviction i t w c =
    halve_threshold
      (set_task i (evicted (evicting t)) (record (set_task i (evicting t) w) { cache = c }))

evict_returned :
    (i : String) (t : Task) (w v : World)
    → evict_decode_task (i, t) w ≡ (ok tt, v)
    → v ≡ after_eviction i t w (finalize_cache_all_decode t.req.request_id w.cache).1
unfolding evict_decode_task
evict_returned i t w v h = by_result (finalize_cache_all_decode t.req.request_id w.cache).0 refl
  where
    by_result :
        (r : Result (Unit {0}))
        → (finalize_cache_all_decode t.req.request_id w.cache).0 ≡ r
        → v ≡ after_eviction i t w (finalize_cache_all_decode t.req.request_id w.cache).1
    by_result (ok a) e = let k = rw e at h in cc
    by_result (raise x) e = let k = rw e at h in cc

evict_finalized :
    (i : String) (t : Task) (w v : World)
    → evict_decode_task (i, t) w ≡ (ok tt, v)
    → (finalize_cache_all_decode t.req.request_id w.cache).0 ≡ ok tt
unfolding evict_decode_task
evict_finalized i t w v h = by_result (finalize_cache_all_decode t.req.request_id w.cache).0 refl
  where
    by_result :
        (r : Result (Unit {0}))
        → (finalize_cache_all_decode t.req.request_id w.cache).0 ≡ r
        → (finalize_cache_all_decode t.req.request_id w.cache).0 ≡ ok tt
    by_result (ok a) e = e
    by_result (raise x) e = let k = rw e at h in cc

after_eviction-Evicted :
    (i : String) (t : Task) (w : World) (c : Paged)
    → finalize_cache_all_decode t.req.request_id w.cache ≡ (ok tt, c)
    → Evicted i t.req.request_id w (after_eviction i t w c)
after_eviction-Evicted i t w c h = record {
  infer = refl;
  restored = (
    evicted (evicting t),
    ground (
      arith,
      get-put (put w.tasks.pool i (evicting t)) i i (evicted (evicting t)),
      string_eq.beq_iff i i,
    ),
    refl,
    refl,
    refl,
    refl,
  );
  others = λ j k. elim (Bool-cases (string_eq.beq i j)) [
    | inl e ↦ (
      evicted (evicting t),
      ground (arith, get-put (put w.tasks.pool i (evicting t)) i j (evicted (evicting t))),
      refl,
      refl,
      refl,
      refl,
    )
    | inr e ↦ (
      k.0,
      ground (
        arith,
        get-put (put w.tasks.pool i (evicting t)) i j (evicted (evicting t)),
        get-put w.tasks.pool i j (evicting t),
        k.1,
      ),
      k.2,
      k.3,
      k.4,
      k.5,
    )
  ];
  threshold = refl;
  cache = h;
}

evict_lem :
    (i : String) (t : Task) (w v : World)
    → evict_decode_task (i, t) w ≡ (ok tt, v)
    → Evicted i t.req.request_id w v
evict_lem i t w v h =
    let o = finalize_cache_all_decode t.req.request_id w.cache in
    let f : o ≡ (ok tt, o.1) =
      ap (λ (r : Result (Unit {0})). let p : Result (Unit {0}) × Paged = (r, o.1) in p)
        (evict_finalized i t w v h) in
    rw (evict_returned i t w v h) (after_eviction-Evicted i t w o.1 f)

-- What the loop has done when it returns: the tasks that are left fit, and those before them in the
-- (reversed) ranking are restored, and cleared from the cache.
pub record Relieved (es left : List Entry) (w v : World) : Type 0 where
  pub dropped : List Entry
  pub split : es ≡ dropped ++ left
  pub restored : All (λ e. IsRestored v e.0) dropped
  pub others : (j : String) → IsRestored w j → IsRestored v j
  pub fits : decode_demand v.infer v.cache left ≤ num_free_blocks v.cache
  pub threshold : 0 < w.sched.kvcache_block_threshold → 0 < v.sched.kvcache_block_threshold
  pub cleared : WellKept w.cache → Cleared dropped w.cache v.cache
  pub same : (b : ℕ) → held v.cache b ≡ held w.cache b

stays-Relieved :
    (es : List Entry) (w : World)
    → decode_demand w.infer w.cache es ≤ num_free_blocks w.cache
    → Relieved es es w w
stays-Relieved es w h = record {
  dropped = [];
  split = refl;
  restored = tt;
  others = λ j k. k;
  fits = h;
  threshold = λ p. p;
  cleared = λ k. nothing-Cleared w.cache k;
  same = λ b. refl;
}

cons-Relieved :
    (e : Entry) (es left : List Entry) (w u v : World)
    → Evicted e.0 (req_of e) w u
    → Relieved es left u v
    → Relieved (e ∷ es) left w v
cons-Relieved e es left w u v d r = record {
  dropped = e ∷ r.dropped;
  split = ap (λ l. e ∷ l) r.split;
  restored = (r.others e.0 d.restored, r.restored);
  others = λ j k. r.others j (d.others j k);
  fits = r.fits;
  threshold = λ p. r.threshold (omega (arith, d.threshold));
  cleared = λ k.
      (let f = finalize-Released w.cache u.cache (req_of e) k d.cache in
        cons-Cleared e r.dropped w.cache u.cache v.cache f (r.cleared f.well));
  same = λ b. omega (arith, r.same b, (evicted-Same (req_of e) w.cache u.cache d.cache).at b);
}

returned-Relieved :
    (es left : List Entry) (w v : World)
    → decode_demand w.infer w.cache es ≤ num_free_blocks w.cache
    → ◌≡◌ {A = Result (List Entry) × World} (ok es, w) (ok left, v)
    → Relieved es left w v
returned-Relieved es left w v h e =
    let a : left ≡ es = cc in let b : v ≡ w = cc in rw (a, b) (stays-Relieved es w h)

evict_until-Relieved :
    (es left : List Entry) (w v : World) → evict_until es w ≡ (ok left, v) → Relieved es left w v
unfolding evict_until
evict_until-Relieved [] left w v h =
    returned-Relieved [] left w v (unfold decode_demand in omega arith) h
evict_until-Relieved (e ∷ []) left w v h = elim (Bool-cases (enough_blocks w (e ∷ []))) [
  | inl q ↦ returned-Relieved (e ∷ []) left w v (leb→le _ _ q) (rw q at h)
  | inr q ↦ let bad = rw q at h in cc
]
evict_until-Relieved (e ∷ f ∷ es) left w v h = elim (Bool-cases (enough_blocks w (e ∷ f ∷ es))) [
  | inl q ↦ returned-Relieved (e ∷ f ∷ es) left w v (leb→le _ _ q) (rw q at h)
  | inr q ↦
      let (a, u, first, rest) =
        then-eq-ok (evict_decode_task e) (evict_until (f ∷ es)) w v left (rw q at h) in
      cons-Relieved e (f ∷ es) left w u v (evict_lem e.0 e.1 w u first)
        (evict_until-Relieved (f ∷ es) left u v rest)
]

-- The loop's result, turned around.
schedule_decode_tasks-Relieved :
    (entries out : List Entry) (w v : World)
    → schedule_decode_tasks entries w ≡ (ok out, v)
    → (left : List Entry) × (out ≡ reverse left)
      × Relieved (reverse (keep (has_type decode) entries)) left w v
unfolding schedule_decode_tasks
schedule_decode_tasks-Relieved entries out w v h =
    let decodes = keep (has_type decode) entries in
    let (left, u, ran, last) =
      bind-eq-ok (evict_until (reverse decodes)) (λ l. pure (reverse l)) w v out h in
    let e : u ≡ v = cc in (left, cc, rw e at (evict_until-Relieved (reverse decodes) left w u ran))

front :
    (decodes dropped left out : List Entry)
    → reverse decodes ≡ dropped ++ left
    → out ≡ reverse left
    → decodes ≡ out ++ reverse dropped
front decodes dropped left out e o =
    (sym (reverse-reverse decodes) ∙ ap reverse e)
    ∙ (reverse-append dropped left ∙ ap (λ l. l ++ reverse dropped) (sym o))

-- The batch is the front of the ranked decode tasks.
pub schedule_decode_tasks-front :
    (entries out : List Entry) (w v : World)
    → schedule_decode_tasks entries w ≡ (ok out, v)
    → (gone : List Entry) × (keep (has_type decode) entries ≡ out ++ reverse gone)
schedule_decode_tasks-front entries out w v h =
    let (left, o, r) = schedule_decode_tasks-Relieved entries out w v h in
    (r.dropped, front (keep (has_type decode) entries) r.dropped left out r.split o)

-- From a well-kept cache (no request twice, none with blocks but no length): a batch of decode tasks
-- that is returned is the front of the ranked decode tasks. The ones behind it were evicted: they are
-- prefill tasks at the beginning of their prompt, with no part of a chunk and in no group, their
-- requests have no blocks and no length in the cache any more, and those of all other requests are as
-- before. The cache is still well kept. Every block is as often on the free list or with a request as
-- before. The cache has the blocks that the batch needs, and the threshold on the blocks in use is
-- still positive if it was.
pub schedule_decode_tasks_lem :
    (entries out : List Entry) (w v : World)
    → WellKept w.cache
    → schedule_decode_tasks entries w ≡ (ok out, v)
    → (gone : List Entry) × (keep (has_type decode) entries ≡ out ++ reverse gone)
      × All (λ e. IsRestored v e.0) gone
      × Cleared gone w.cache v.cache
      × ((b : ℕ) → held v.cache b ≡ held w.cache b)
      × (decode_demand v.infer v.cache (reverse out) ≤ num_free_blocks v.cache)
      × (0 < w.sched.kvcache_block_threshold → 0 < v.sched.kvcache_block_threshold)
schedule_decode_tasks_lem entries out w v kept h =
    let (left, o, r) = schedule_decode_tasks-Relieved entries out w v h in
    (
      r.dropped,
      front (keep (has_type decode) entries) r.dropped left out r.split o,
      r.restored,
      r.cleared kept,
      r.same,
      rw (o, reverse-reverse left) r.fits,
      r.threshold,
    )
