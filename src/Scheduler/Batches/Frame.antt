-- ===== src/Scheduler/Batches/Frame.antt =====
-- What the two batch builders keep: anything that a change of a task, of the cache or of the
-- threshold keeps.
use chitu.Base.{
  inl, inr, String, List, [], ◌∷◌, Bool-cases, ◌>>◌, modify, Preserves, bind-Preserves, nat_eq,
  string_eq,
}
use chitu.Task.{Task}
use chitu.Scheduler.State.{on_cache, World, Entry, set_task, set_tasks}
use chitu.Cache.Paged.{Paged, finalize_cache_all_decode}
use chitu.Scheduler.Batches.{
  evict_decode_task, evict_until, enough_blocks, schedule_decode_tasks, schedule_prefill_tasks,
  prefill_candidates, num_fitting, hopeless, evicting, evicted, halve_threshold,
}

module _ (P : World → Type 0)
    (on_task : (i : String) (t : Task) (v : World) → P v → P (set_task i t v))
    (on_manager : (v : World) (c : Paged) → P v → P (record v { cache = c }))
    (halved : (v : World) → P v → P (halve_threshold v)) where
  set_tasks-Preserves : (es : List Entry) (w : World) → P w → P (set_tasks es w)
  unfolding set_tasks
  set_tasks-Preserves [] w h = h
  set_tasks-Preserves ((i, t) ∷ es) w h = set_tasks-Preserves es (set_task i t w) (on_task i t w h)

  evict_decode_task-Preserves : (e : Entry) → Preserves P (evict_decode_task e)
  unfolding evict_decode_task
  evict_decode_task-Preserves (i, t) w h =
      bind-Preserves P (on_cache (finalize_cache_all_decode t.req.request_id))
        (λ _. modify (set_task i (evicted (evicting t))) >> modify halve_threshold)
        (λ v. on_manager v _) (λ _ v k. halved _ (on_task i _ v k)) (set_task i (evicting t) w)
        (on_task i _ w h)

  evict_until-Preserves : (es : List Entry) → Preserves P (evict_until es)
  unfolding evict_until
  evict_until-Preserves [] w h = h
  evict_until-Preserves (e ∷ []) w h = elim (Bool-cases (enough_blocks w (e ∷ []))) [
    | inl q ↦ rw q h
    | inr q ↦ rw q h
  ]
  evict_until-Preserves (e ∷ f ∷ es) w h = elim (Bool-cases (enough_blocks w (e ∷ f ∷ es))) [
    | inl q ↦ rw q h
    | inr q ↦ rw q (
        bind-Preserves P (evict_decode_task e) (λ _. evict_until (f ∷ es))
          (evict_decode_task-Preserves e) (λ _. evict_until-Preserves (f ∷ es)) w h)
  ]

  pub schedule_decode_tasks-Preserves : (es : List Entry) → Preserves P (schedule_decode_tasks es)
  unfolding schedule_decode_tasks
  schedule_decode_tasks-Preserves es =
      bind-Preserves P (evict_until _) _ (evict_until-Preserves _) (λ l w h. h)

  pub schedule_prefill_tasks-Preserves : (es : List Entry) → Preserves P (schedule_prefill_tasks es)
  unfolding schedule_prefill_tasks
  schedule_prefill_tasks-Preserves es w h =
      elim (Bool-cases (hopeless w (num_fitting w (prefill_candidates w es)))) [
        | inl q ↦ rw q (set_tasks-Preserves _ w h)
        | inr q ↦ rw q (set_tasks-Preserves _ w h)
      ]
