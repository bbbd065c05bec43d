-- ===== src/Router/Balancer.antt =====
-- chitu/dp_request_router.py: `LoadBalancer`. Floating-point numbers and `random.sample` are
-- parameters; what the source logs is left out.
use chitu.Base.{
  ℕ, ◌+◌, ◌*◌, ◌%◌, Bool, true, ◌&&◌, List, [], ◌∷◌, ltb, leb, ◌==◌, nat_eq, string_eq, String,
  if◌then◌else◌, length, get_elem?, Option, none, some, Result, ok, raise, key_error, index_error,
  runtime_error, value_error, Exec, Dict, get, put,
}

pub record SchedulerStats (Float : Type 0) : Type 0 where
  pub scheduler_id : ℕ
  pub running_requests : ℕ
  pub waiting_requests : ℕ
  pub pending_tokens : ℕ
  pub throughput_tokens_per_sec : Float
  pub last_update_time : Float
  pub last_heartbeat_time : Float
  pub is_alive : Bool

pub record LoadBalancer (Float : Type 0) : Type 0 where
  pub load_balancer_algorithm : String
  pub round_robin_counter : ℕ
  pub scheduler_stats : Dict ℕ (SchedulerStats Float)
  pub max_inflight_per_scheduler : ℕ

-- xs if xs else ys
abbrev pub or_else : List ℕ → List ℕ → List ℕ
or_else [] ys = ys
or_else (x ∷ xs) ys = x ∷ xs

-- load_score < min_load, where none is the infinity that min_load starts with
abbrev pub below : ℕ → Option ℕ → Bool
below load none = true
below load (some min_load) = ltb load min_load

-- What the loop of `least_loaded` holds after a scheduler: the best one and its load.
abbrev pub better_of : ℕ → ℕ → ℕ → Option ℕ → ℕ × Option ℕ
better_of load s_id best min_load =
    if below load min_load then (s_id, some load) else (best, min_load)

abbrev pub with_load : Result ℕ → (ℕ → Result ℕ) → Result ℕ
with_load (raise e) f = raise e
with_load (ok load) f = f load

-- c1 if load1 <= load2 else c2
abbrev pub lighter : ℕ → ℕ → Result ℕ → Result ℕ → Result ℕ
lighter c1 c2 (raise e) l2 = raise e
lighter c1 c2 (ok load1) (raise e) = raise e
lighter c1 c2 (ok load1) (ok load2) = ok (if leb load1 load2 then c1 else c2)

-- eligible_ids[self.round_robin_counter % len(eligible_ids)]
abbrev pub taken : Option ℕ → Result ℕ
taken none = raise index_error
taken (some s_id) = ok s_id

module _ {Float : Type 0} where
  unfoldable pub update_stats : SchedulerStats Float → LoadBalancer Float → LoadBalancer Float
  update_stats stats b = record b {
    scheduler_stats = put b.scheduler_stats stats.scheduler_id stats;
  }

  -- The ids that the loop of `eligible_schedulers` appends under a test.
  abbrev pub ids_where : (SchedulerStats Float → Bool) → Dict ℕ (SchedulerStats Float) → List ℕ
  ids_where p [] = []
  ids_where p ((s_id, stats) ∷ rest) = if p stats then s_id ∷ ids_where p rest else ids_where p rest

  abbrev pub alive : SchedulerStats Float → Bool
  alive stats = stats.is_alive

  abbrev pub under_cap : ℕ → SchedulerStats Float → Bool
  under_cap cap stats = stats.is_alive && ltb stats.running_requests cap

  unfoldable pub eligible_schedulers : LoadBalancer Float → List ℕ
  eligible_schedulers b =
      or_else (ids_where (under_cap b.max_inflight_per_scheduler) b.scheduler_stats)
        (ids_where alive b.scheduler_stats)

  abbrev pub load_score : SchedulerStats Float → ℕ
  load_score stats = stats.pending_tokens + stats.running_requests * 100

  -- The load score of the scheduler with an id.
  abbrev pub load_found : Option (SchedulerStats Float) → Result ℕ
  load_found none = raise key_error
  load_found (some stats) = ok (load_score stats)

  abbrev pub load_of : Dict ℕ (SchedulerStats Float) → ℕ → Result ℕ
  load_of stats s_id = load_found (get stats s_id)

  -- The loop of the branch `least_loaded`.
  unfoldable pub least_loaded_among :
      Dict ℕ (SchedulerStats Float) → List ℕ → ℕ → Option ℕ → Result ℕ
  least_loaded_among stats [] best min_load = ok best
  least_loaded_among stats (s_id ∷ ids) best min_load = with_load (load_of stats s_id) (λ load.
      let held = better_of load s_id best min_load in least_loaded_among stats ids held.0 held.1)

  abbrev pub power_of_two_among :
      (List ℕ → ℕ × ℕ) → Dict ℕ (SchedulerStats Float) → ℕ → List ℕ → Result ℕ
  power_of_two_among random_sample stats first [] = ok first
  power_of_two_among random_sample stats first (x ∷ xs) =
      let c = random_sample (first ∷ x ∷ xs) in
      lighter c.0 c.1 (load_of stats c.0) (load_of stats c.1)

  abbrev pub select_among :
      (List ℕ → ℕ × ℕ) → LoadBalancer Float → List ℕ → Result ℕ × LoadBalancer Float
  unfolding least_loaded_among
  select_among random_sample b [] = (raise runtime_error, b)
  select_among random_sample b (first ∷ rest) =
      let ids = first ∷ rest in
      if b.load_balancer_algorithm == "round_robin"
      then (
        taken (get_elem? ids (b.round_robin_counter % length ids)),
        record b { round_robin_counter = b.round_robin_counter + 1 },
      )
      else if b.load_balancer_algorithm == "least_loaded"
      then (least_loaded_among b.scheduler_stats ids first none, b)
      else if b.load_balancer_algorithm == "power_of_two_choices"
      then (power_of_two_among random_sample b.scheduler_stats first rest, b)
      else (raise value_error, b)

  unfoldable pub select_scheduler : (List ℕ → ℕ × ℕ) → Exec (LoadBalancer Float) ℕ
  unfolding eligible_schedulers least_loaded_among
  select_scheduler random_sample b = select_among random_sample b (eligible_schedulers b)
