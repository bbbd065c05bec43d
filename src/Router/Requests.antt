-- ===== src/Router/Requests.antt =====
-- chitu/dp_request_router.py: the queue of `RequestRouter` and the iterations of its two tasks.
-- What a socket does with a message is outside; sending raises nothing (the source logs it).
use chitu.Base.{
  ℕ, ◌+◌, List, [], ◌∷◌, ◌++◌, Option, none, some, Result, ok, raise, any_of, nat_beq,
  if◌then◌else◌,
}
use chitu.Router.Balancer.{SchedulerStats, LoadBalancer, update_stats, select_scheduler}

pub record RequestRouter (Float Request : Type 0) : Type 0 where
  pub load_balancer : LoadBalancer Float
  pub pending_requests : List Request
  -- the schedulers that there is a socket for
  pub scheduler_sockets : List ℕ
  pub total_requests : ℕ
  pub total_tokens : ℕ

-- What an iteration of `_request_processor_task` did: nothing was pending, the request was pushed
-- back, it was handed to the socket of a scheduler, or the lookup of the socket raised KeyError.
pub data Outcome (Request : Type 0) : Type 0 where
  idle pushed_back : Outcome Request
  sent no_socket : ℕ → Request → Outcome Request

pub data Event (Float Request : Type 0) : Type 0 where
  submit : Request → Event Float Request
  stats : SchedulerStats Float → Event Float Request
  process : Event Float Request

-- len(request.input_ids) if hasattr(request, "input_ids") else 100
abbrev pub estimated_tokens : Option ℕ → ℕ
estimated_tokens none = 100
estimated_tokens (some n) = n

module _ {Float Request : Type 0} (random_sample : List ℕ → ℕ × ℕ)
    (input_length : Request → Option ℕ) where
  abbrev pub submit_request : Request → RequestRouter Float Request → RequestRouter Float Request
  submit_request r t = record t { pending_requests = t.pending_requests ++ (r ∷ []) }

  abbrev pub collect_stats :
      SchedulerStats Float → RequestRouter Float Request → RequestRouter Float Request
  unfolding update_stats
  collect_stats s t = record t { load_balancer = update_stats s t.load_balancer }

  -- The rest of an iteration once a scheduler is selected.
  abbrev pub send_request :
      ℕ → Request → RequestRouter Float Request → Outcome Request × RequestRouter Float Request
  send_request s r t =
      if any_of (nat_beq s) t.scheduler_sockets
      then (
        sent s r,
        record t {
          total_requests = t.total_requests + 1;
          total_tokens = t.total_tokens + estimated_tokens (input_length r);
        },
      )
      else (no_socket s r, t)

  abbrev pub route :
      Result ℕ × LoadBalancer Float
      → Request
      → List Request
      → RequestRouter Float Request
      → Outcome Request × RequestRouter Float Request
  route (ok s, b) r rest t =
      send_request s r (record t { load_balancer = b; pending_requests = rest })
  route (raise e, b) r rest t =
      (pushed_back, record t { load_balancer = b; pending_requests = r ∷ rest })

  abbrev pub process_pending :
      List Request → RequestRouter Float Request → Outcome Request × RequestRouter Float Request
  unfolding select_scheduler
  process_pending [] t = (idle, t)
  process_pending (r ∷ rest) t = route (select_scheduler random_sample t.load_balancer) r rest t

  unfoldable pub process_request :
      RequestRouter Float Request → Outcome Request × RequestRouter Float Request
  unfolding process_pending
  process_request t = process_pending t.pending_requests t

  -- The events of a run, one after another, and what the iterations did.
  unfoldable pub run :
      List (Event Float Request)
      → RequestRouter Float Request
      → List (Outcome Request) × RequestRouter Float Request
  unfolding process_request collect_stats
  run [] t = ([], t)
  run (submit r ∷ es) t = run es (submit_request r t)
  run (stats s ∷ es) t = run es (collect_stats s t)
  run (process ∷ es) t = let p = process_request t in let q = run es p.1 in (p.0 ∷ q.0, q.1)

-- The requests that left the queue, and those that were submitted.
module _ {Float Request : Type 0} where
  abbrev pub submitted : List (Event Float Request) → List Request
  submitted [] = []
  submitted (submit r ∷ es) = r ∷ submitted es
  submitted (stats s ∷ es) = submitted es
  submitted (process ∷ es) = submitted es

module _ {Request : Type 0} where
  abbrev pub handed : List (Outcome Request) → List Request
  handed [] = []
  handed (idle ∷ os) = handed os
  handed (pushed_back ∷ os) = handed os
  handed (sent s r ∷ os) = r ∷ handed os
  handed (no_socket s r ∷ os) = r ∷ handed os

  abbrev pub count_sent : List (Outcome Request) → ℕ
  count_sent [] = 0
  count_sent (sent s r ∷ os) = 1 + count_sent os
  count_sent (idle ∷ os) = count_sent os
  count_sent (pushed_back ∷ os) = count_sent os
  count_sent (no_socket s r ∷ os) = count_sent os
