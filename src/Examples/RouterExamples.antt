-- ===== src/Examples/RouterExamples.antt =====
-- A router with two schedulers, one of which is at its cap, and a third that is not alive.
use chitu.Base.{
  ℕ, ◌+◌, ◌≤◌, ◌<◌, ◌≡◌, refl, String, Bool, true, false, List, [], ◌∷◌, ◌++◌, arith, none, ok, inl,
  length, Option, get,
}
use chitu.Router.Balancer.{SchedulerStats, LoadBalancer, eligible_schedulers, select_scheduler}
use chitu.Router.Eligible.{Holds, IsEligible, WellFormed}
use chitu.Router.Choice.{
  IsSelection, load_at, select_scheduler-IsMinimal, select_scheduler-IsSelection,
}
use chitu.Router.Turns.{turn, turn-Reaches}
use chitu.Router.Requests.{RequestRouter, Event, submit, stats, process, run, handed, count_sent}
use chitu.Router.Order.{run-InOrder}

abbrev of_load : ℕ → ℕ → ℕ → Bool → SchedulerStats ℕ
of_load id running pending alive = record {
  scheduler_id = id;
  running_requests = running;
  waiting_requests = 0;
  pending_tokens = pending;
  throughput_tokens_per_sec = 0;
  last_update_time = 0;
  last_heartbeat_time = 0;
  is_alive = alive;
}

abbrev balancer : String → LoadBalancer ℕ
balancer algorithm = record {
  load_balancer_algorithm = algorithm;
  round_robin_counter = 5;
  scheduler_stats =
      (0, of_load 0 3 500 true)
      ∷ (1, of_load 1 24 0 true)
      ∷ (2, of_load 2 0 0 false)
      ∷ (4, of_load 4 1 100 true)
      ∷ [];
  max_inflight_per_scheduler = 24;
}

abbrev random_sample : List ℕ → ℕ × ℕ
random_sample [] = (0, 0)
random_sample (x ∷ []) = (x, x)
random_sample (x ∷ y ∷ ys) = (y, x)

sampled :
    (xs : List ℕ) → 2 ≤ length xs → Holds (random_sample xs).0 xs × Holds (random_sample xs).1 xs
sampled [] h = absurd (omega (arith, h))
sampled (x ∷ []) h = absurd (omega (arith, h))
sampled (x ∷ y ∷ ys) h = ((1, refl), (0, refl))

balancer-WellFormed : (algorithm : String) → WellFormed (balancer algorithm)
unfolding get
balancer-WellFormed algorithm =
    ((refl, (refl, (refl, (refl, tt)))), (refl, (refl, (refl, (refl, tt)))))

four-IsEligible : (algorithm : String) → IsEligible (balancer algorithm) 4
unfolding get
four-IsEligible algorithm = inl (of_load 4 1 100 true, refl, refl, omega arith)

select_scheduler-IsSelection_example :
    IsSelection
      (balancer "power_of_two_choices")
      (select_scheduler random_sample (balancer "power_of_two_choices"))
select_scheduler-IsSelection_example =
    select_scheduler-IsSelection random_sample sampled (balancer "power_of_two_choices")
      (balancer-WellFormed "power_of_two_choices")

four_selected : (select_scheduler random_sample (balancer "least_loaded")).0 ≡ ok 4
unfolding select_scheduler get
four_selected = refl

select_scheduler-IsMinimal_example :
    IsEligible (balancer "least_loaded") 4
    × ((q : ℕ)
        → IsEligible (balancer "least_loaded") q
        → load_at (balancer "least_loaded").scheduler_stats 4
          ≤ load_at (balancer "least_loaded").scheduler_stats q)
select_scheduler-IsMinimal_example =
    select_scheduler-IsMinimal random_sample (balancer "least_loaded") 4
      (balancer-WellFormed "least_loaded") refl four_selected

turn-Reaches_example :
    (k : ℕ) × (k < length (eligible_schedulers (balancer "round_robin")))
    × (turn random_sample k (balancer "round_robin") ≡ ok 4)
turn-Reaches_example =
    turn-Reaches random_sample (balancer "round_robin") 4 (balancer-WellFormed "round_robin") refl
      (four-IsEligible "round_robin")

abbrev router : RequestRouter ℕ String
router = record {
  load_balancer = balancer "least_loaded";
  pending_requests = "a" ∷ [];
  scheduler_sockets = 0 ∷ 1 ∷ 2 ∷ [];
  total_requests = 0;
  total_tokens = 0;
}

abbrev input_length : String → Option ℕ
input_length r = none

abbrev events : List (Event ℕ String)
events = submit "b" ∷ process ∷ stats (of_load 0 0 0 true) ∷ process ∷ process ∷ []

run-InOrder_example :
    (handed (run random_sample input_length events router).0
        ++ (run random_sample input_length events router).1.pending_requests
      ≡ "a" ∷ "b" ∷ [])
    × ((run random_sample input_length events router).1.total_requests
        ≡ 0 + count_sent (run random_sample input_length events router).0)
run-InOrder_example = run-InOrder random_sample input_length events router
