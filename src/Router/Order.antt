-- ===== src/Router/Order.antt =====
-- The order in which `RequestRouter` hands on what was submitted.
use chitu.Base.{
  ℕ, ◌+◌, ◌≡◌, refl, sym, ◌∙◌, List, [], ◌∷◌, ◌++◌, arith, Option, Result, ok, raise, any_of,
  nat_beq, append_assoc, append-nil, Bool-cases, inl, inr,
}
use chitu.Router.Balancer.{LoadBalancer, select_scheduler}
use chitu.Router.Requests.{
  RequestRouter, Outcome, idle, pushed_back, sent, no_socket, Event, submit, stats, process,
  submit_request, collect_stats, send_request, route, process_pending, process_request, run,
  submitted, handed, count_sent,
}

module _ {Request : Type 0} where
  handed-append :
      (o : Outcome Request) (os : List (Outcome Request))
      → handed (o ∷ os) ≡ handed (o ∷ []) ++ handed os
  handed-append idle os = refl
  handed-append pushed_back os = refl
  handed-append (sent s r) os = refl
  handed-append (no_socket s r) os = refl

  count_sent-append :
      (o : Outcome Request) (os : List (Outcome Request))
      → count_sent (o ∷ os) ≡ count_sent (o ∷ []) + count_sent os
  count_sent-append idle os = omega arith
  count_sent-append pushed_back os = omega arith
  count_sent-append (sent s r) os = omega arith
  count_sent-append (no_socket s r) os = omega arith

module _ {Float Request : Type 0} (random_sample : List ℕ → ℕ × ℕ)
    (input_length : Request → Option ℕ) where
  -- One iteration takes the oldest request or none.
  abbrev Takes :
      RequestRouter Float Request → Outcome Request × RequestRouter Float Request → Type 0
  Takes t p =
      (handed (p.0 ∷ []) ++ p.1.pending_requests ≡ t.pending_requests)
      × (p.1.total_requests ≡ t.total_requests + count_sent (p.0 ∷ []))

  send_request-Takes :
      (s : ℕ) (r : Request) (rest : List Request) (t : RequestRouter Float Request)
      (b : LoadBalancer Float)
      → t.pending_requests ≡ r ∷ rest
      → Takes t (
          send_request random_sample input_length s r
            (record t { load_balancer = b; pending_requests = rest }))
  send_request-Takes s r rest t b e = elim (Bool-cases (any_of (nat_beq s) t.scheduler_sockets)) [
    | inl h ↦ rw h (sym e, omega arith)
    | inr h ↦ rw h (sym e, omega arith)
  ]

  process_request-Takes :
      (t : RequestRouter Float Request) → Takes t (process_request random_sample input_length t)
  unfolding process_request
  process_request-Takes t = by_queue t.pending_requests refl
    where
      by_selection :
          (p : Result ℕ × LoadBalancer Float) (r : Request) (rest : List Request)
          → t.pending_requests ≡ r ∷ rest
          → Takes t (route random_sample input_length p r rest t)
      by_selection (ok s, b) r rest e = send_request-Takes s r rest t b e
      by_selection (raise x, b) r rest e = (sym e, omega arith)

      by_queue :
          (rs : List Request)
          → t.pending_requests ≡ rs
          → Takes t (process_pending random_sample input_length rs t)
      by_queue [] e = (refl, omega arith)
      by_queue (r ∷ rest) e = by_selection (select_scheduler random_sample t.load_balancer) r rest e

  -- Over any sequence of submissions, statistics and iterations, the requests that left the queue
  -- and after them those still in it are those that were in it and after them those submitted, in
  -- this order and without a loss or a repetition; and the count of requests grows by those sent.
  pub run-InOrder :
      (es : List (Event Float Request)) (t : RequestRouter Float Request)
      → (handed (run random_sample input_length es t).0
            ++ (run random_sample input_length es t).1.pending_requests
          ≡ t.pending_requests ++ submitted es)
        × ((run random_sample input_length es t).1.total_requests
            ≡ t.total_requests + count_sent (run random_sample input_length es t).0)
  unfolding run
  run-InOrder [] t = (sym (append-nil t.pending_requests), omega arith)
  run-InOrder (submit r ∷ es) t =
      let h = run-InOrder es (submit_request random_sample input_length r t) in
      (h.0 ∙ append_assoc t.pending_requests (r ∷ []) (submitted es), h.1)
  run-InOrder (stats s ∷ es) t = run-InOrder es (collect_stats random_sample input_length s t)
  run-InOrder (process ∷ es) t =
      let p = process_request random_sample input_length t in
      let q = run random_sample input_length es p.1 in
      let h = process_request-Takes t in
      let k = run-InOrder es p.1 in
      (
        rw
            (
              handed-append p.0 q.0,
              append_assoc (handed (p.0 ∷ [])) (handed q.0) q.1.pending_requests,
              k.0,
              sym (append_assoc (handed (p.0 ∷ [])) p.1.pending_requests (submitted es)),
              h.0,
            )
            refl,
        omega (arith, count_sent-append p.0 q.0, k.1, h.1),
      )
