-- ===== src/Router/Turns.antt =====
-- The turns that the algorithm `round_robin` of `LoadBalancer.select_scheduler` gives.
use native.Mathlib.Nat.{
  mod-lt, mod-eq_of_lt, add-mod-mod, add-mul-mod_self_left, mod-add-div, mul-add,
}
use chitu.Base.{
  ℕ, zero, suc, ◌+◌, ◌-◌, ◌*◌, ◌/◌, ◌%◌, ◌<◌, ◌≡◌, refl, ap, List, [], ◌∷◌, arith, length,
  get_elem?, get_elem?-lt, Result, ok,
}
use chitu.Router.Balancer.{LoadBalancer, eligible_schedulers, taken, select_scheduler}
use chitu.Router.Eligible.{Holds, IsEligible, WellFormed, eligible_schedulers-IsEligible}

-- The distance from a counter to a place, going round.
distance : (c j n : ℕ) → j < n → (k : ℕ) × (k < n) × ((c + k) % n ≡ j)
distance c j n h = (
  (j + n - c % n) % n,
  mod-lt (j + n - c % n) (omega (arith, h)),
  rw (add-mod-mod c (j + n - c % n) n) round,
)
  where
    full : 0 < n
    full = omega (arith, h)

    split : c + (j + n - c % n) ≡ j + n * (c / n + 1)
    split =
        let d : c % n + n * (c / n) ≡ c = mod-add-div c n in
        let b : c % n < n = mod-lt c full in
        let m : n * (c / n + 1) ≡ n * (c / n) + n * 1 = mul-add n (c / n) 1 in
        omega (arith, d, b, m)

    round : (c + (j + n - c % n)) % n ≡ j
    round = rw (split, add-mul-mod_self_left j n (c / n + 1)) (mod-eq_of_lt h)

module _ {Float : Type 0} (random_sample : List ℕ → ℕ × ℕ) where
  -- The balancer after `k` selections, and the selection that comes then.
  abbrev pub after : ℕ → LoadBalancer Float → LoadBalancer Float
  unfolding select_scheduler
  after zero b = b
  after (suc k) b = after k (select_scheduler random_sample b).1

  abbrev pub turn : ℕ → LoadBalancer Float → Result ℕ
  unfolding after select_scheduler
  turn k b = (select_scheduler random_sample (after k b)).0

  abbrev advanced : ℕ → LoadBalancer Float → LoadBalancer Float
  advanced k b = record b { round_robin_counter = b.round_robin_counter + k }

  one_selection :
      (b : LoadBalancer Float) (x : ℕ) (xs : List ℕ)
      → b.load_balancer_algorithm ≡ "round_robin"
      → eligible_schedulers b ≡ x ∷ xs
      → select_scheduler random_sample b
        ≡ (taken (get_elem? (x ∷ xs) (b.round_robin_counter % length (x ∷ xs))), advanced 1 b)
  unfolding select_scheduler
  one_selection b x xs e h = rw (h, e) refl

  after-advanced :
      (k : ℕ) (b : LoadBalancer Float) (x : ℕ) (xs : List ℕ)
      → b.load_balancer_algorithm ≡ "round_robin"
      → eligible_schedulers b ≡ x ∷ xs
      → after k b ≡ advanced k b
  unfolding after eligible_schedulers
  after-advanced zero b x xs e h = ap (λ c. record b { round_robin_counter = c }) (omega arith)
  after-advanced (suc k) b x xs e h =
      rw (one_selection b x xs e h, after-advanced k (advanced 1 b) x xs e h)
        (ap (λ c. record b { round_robin_counter = c }) (omega arith))

  -- With the algorithm `round_robin`, one entry for each scheduler, and as long as the statistics
  -- stay as they are: every eligible scheduler is selected within as many selections as there are
  -- eligible schedulers.
  pub turn-Reaches :
      (b : LoadBalancer Float) (s : ℕ)
      → WellFormed b
      → b.load_balancer_algorithm ≡ "round_robin"
      → IsEligible b s
      → (k : ℕ) × (k < length (eligible_schedulers b)) × (turn k b ≡ ok s)
  unfolding turn after eligible_schedulers
  turn-Reaches b s h e i =
      by_list (eligible_schedulers b) refl ((eligible_schedulers-IsEligible b s h).1 i)
    where
      by_list :
          (ids : List ℕ)
          → eligible_schedulers b ≡ ids
          → Holds s ids
          → (k : ℕ) × (k < length ids) × (turn k b ≡ ok s)
      by_list [] g (j, m) = cc
      by_list (x ∷ xs) g (j, m) =
          let d = distance b.round_robin_counter j (length (x ∷ xs)) (get_elem?-lt (x ∷ xs) j m) in
          (d.0, d.1, reached d.0 d.2)
        where
          reached :
              (k : ℕ)
              → (b.round_robin_counter + k) % length (x ∷ xs) ≡ j
              → (select_scheduler random_sample (after k b)).0 ≡ ok s
          reached k r =
              rw (after-advanced k b x xs e g, one_selection (advanced k b) x xs e g, r, m) refl
