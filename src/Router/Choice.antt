-- ===== src/Router/Choice.antt =====
-- Which scheduler `LoadBalancer.select_scheduler` selects.
use native.Mathlib.Nat.{mod-lt}
use chitu.Base.{
  ℕ, zero, suc, ◌%◌, ◌≤◌, ◌<◌, ◌≡◌, ◌⊎◌, ◌↔◌, refl, sym, ap, ◌∙◌, Bool, true, false, List, [], ◌∷◌,
  ltb, leb, ◌==◌, nat_eq, string_eq, if◌then◌else◌, arith, length, get_elem?, Option, none, some,
  Result, ok, raise, runtime_error, value_error, Dict, get, All, Bool-cases, inl, inr,
}
use chitu.Router.Balancer.{
  SchedulerStats, LoadBalancer, eligible_schedulers, load_score, load_of, least_loaded_among,
  power_of_two_among, taken, select_among, select_scheduler,
}
use chitu.Router.Eligible.{
  Holds, Holds-All, IsAlive, IsEligible, WellFormed, eligible_schedulers-IsEligible,
  eligible_schedulers-nil,
}

All-Holds : (P : ℕ → Type 0) (xs : List ℕ) → ((s : ℕ) → Holds s xs → P s) → All P xs
All-Holds P [] f = tt
All-Holds P (x ∷ xs) f = (f x (0, refl), All-Holds P xs (λ s m. f s (suc m.0, m.1)))

round_robin-Holds :
    (x : ℕ) (xs : List ℕ) (c : ℕ)
    → (s : ℕ) × (taken (get_elem? (x ∷ xs) (c % length (x ∷ xs))) ≡ ok s) × Holds s (x ∷ xs)
round_robin-Holds x xs c = at_place (x ∷ xs) (c % length (x ∷ xs)) (mod-lt c (omega arith))
  where
    at_place :
        (ys : List ℕ) (i : ℕ)
        → i < length ys
        → (s : ℕ) × (taken (get_elem? ys i) ≡ ok s) × Holds s ys
    at_place [] i h = absurd (omega (arith, h))
    at_place (y ∷ ys) zero h = (y, refl, (0, refl))
    at_place (y ∷ ys) (suc i) h =
        let (s, e, m) = at_place ys i (omega (arith, h)) in (s, e, (suc m.0, m.1))

module _ {Float : Type 0} where
  abbrev pub load_or_zero : Option (SchedulerStats Float) → ℕ
  load_or_zero none = 0
  load_or_zero (some stats) = load_score stats

  abbrev pub load_at : Dict ℕ (SchedulerStats Float) → ℕ → ℕ
  load_at d s = load_or_zero (get d s)

  -- There is an entry for an id.
  abbrev pub HasStats : Dict ℕ (SchedulerStats Float) → ℕ → Type 0
  HasStats d s = load_of d s ≡ ok (load_at d s)

  -- A scheduler that was chosen among some, none of which has a smaller load.
  abbrev pub IsMinimal : Dict ℕ (SchedulerStats Float) → List ℕ → Result ℕ → Type 0
  IsMinimal d ids (ok s) = Holds s ids × All (λ q. load_at d s ≤ load_at d q) ids
  IsMinimal d ids (raise e) = ⊥

  abbrev MinimalFrom : Dict ℕ (SchedulerStats Float) → List ℕ → ℕ → Result ℕ → Type 0
  MinimalFrom d ids best (ok s) =
      ((s ≡ best) ⊎ Holds s ids)
      × (load_at d s ≤ load_at d best)
      × All (λ q. load_at d s ≤ load_at d q) ids
  MinimalFrom d ids best (raise e) = ⊥

  MinimalFrom-cons :
      (d : Dict ℕ (SchedulerStats Float)) (x : ℕ) (ids : List ℕ) (best held : ℕ) (r : Result ℕ)
      → (held ≡ best) ⊎ (held ≡ x)
      → load_at d held ≤ load_at d best
      → load_at d held ≤ load_at d x
      → MinimalFrom d ids held r
      → MinimalFrom d (x ∷ ids) best r
  MinimalFrom-cons d x ids best held (raise e) k a b h = h
  MinimalFrom-cons d x ids best held (ok s) k a b h =
      (place h.0 k, omega (arith, h.1, a), (omega (arith, h.1, b), h.2))
    where
      place : (s ≡ held) ⊎ Holds s ids → (held ≡ best) ⊎ (held ≡ x) → (s ≡ best) ⊎ Holds s (x ∷ ids)
      place (inr (i, e)) k = inr (suc i, e)
      place (inl e) (inl f) = inl (e ∙ f)
      place (inl e) (inr f) = inr (0, ap some (sym (e ∙ f)))

  least_loaded-MinimalFrom :
      (d : Dict ℕ (SchedulerStats Float)) (ids : List ℕ) (best : ℕ)
      → All (HasStats d) ids
      → MinimalFrom d ids best (least_loaded_among d ids best (some (load_at d best)))
  unfolding least_loaded_among
  least_loaded-MinimalFrom d [] best h = (inl refl, omega arith, tt)
  least_loaded-MinimalFrom d (x ∷ ids) best h =
      elim (Bool-cases (ltb (load_at d x) (load_at d best))) [
        | inl e ↦
            rw (h.0, e)
              (MinimalFrom-cons d x ids best x _ (inr refl) (ground (arith, e)) (omega arith)
                (least_loaded-MinimalFrom d ids x h.1))
        | inr e ↦
            rw (h.0, e)
              (MinimalFrom-cons d x ids best best _ (inl refl) (omega arith) (ground (arith, e))
                (least_loaded-MinimalFrom d ids best h.1))
      ]

  MinimalFrom-IsMinimal :
      (d : Dict ℕ (SchedulerStats Float)) (x : ℕ) (ids : List ℕ) (r : Result ℕ)
      → MinimalFrom d ids x r
      → IsMinimal d (x ∷ ids) r
  MinimalFrom-IsMinimal d x ids (raise e) h = h
  MinimalFrom-IsMinimal d x ids (ok s) (inl e, a, b) = ((0, ap some (sym e)), (a, b))
  MinimalFrom-IsMinimal d x ids (ok s) (inr (i, e), a, b) = ((suc i, e), (a, b))

  pub least_loaded-IsMinimal :
      (d : Dict ℕ (SchedulerStats Float)) (x : ℕ) (ids : List ℕ)
      → All (HasStats d) (x ∷ ids)
      → IsMinimal d (x ∷ ids) (least_loaded_among d (x ∷ ids) x none)
  unfolding least_loaded_among
  least_loaded-IsMinimal d x ids h =
      rw h.0 (MinimalFrom-IsMinimal d x ids _ (least_loaded-MinimalFrom d ids x h.1))

  IsEligible-IsAlive : (b : LoadBalancer Float) (s : ℕ) → IsEligible b s → IsAlive b s
  IsEligible-IsAlive b s (inl (st, g, a, r)) = (st, g, a)
  IsEligible-IsAlive b s (inr (a, n)) = a

  IsAlive-HasStats : (b : LoadBalancer Float) (s : ℕ) → IsAlive b s → HasStats b.scheduler_stats s
  IsAlive-HasStats b s (st, g, a) = rw g refl

  -- How a selection ends: with an eligible scheduler, or with an error that says why not. The
  -- statistics stay.
  abbrev pub IsSelection : LoadBalancer Float → Result ℕ × LoadBalancer Float → Type 0
  IsSelection b (ok s, b') = IsEligible b s × (b'.scheduler_stats ≡ b.scheduler_stats)
  IsSelection b (raise runtime_error, b') = ((s : ℕ) → IsAlive b s → ⊥) × (b' ≡ b)
  IsSelection b (raise value_error, b') =
      (b.load_balancer_algorithm == "round_robin" ≡ false)
      × (b.load_balancer_algorithm == "least_loaded" ≡ false)
      × (b.load_balancer_algorithm == "power_of_two_choices" ≡ false)
      × (b' ≡ b)
  IsSelection b (raise _, b') = ⊥

  -- With the algorithm `least_loaded` and one entry for each scheduler, a scheduler that is
  -- selected is eligible, and no eligible scheduler has a smaller load score.
  pub select_scheduler-IsMinimal :
      (random_sample : List ℕ → ℕ × ℕ) (b : LoadBalancer Float) (s : ℕ)
      → WellFormed b
      → b.load_balancer_algorithm ≡ "least_loaded"
      → (select_scheduler random_sample b).0 ≡ ok s
      → IsEligible b s
        × ((q : ℕ) → IsEligible b q → load_at b.scheduler_stats s ≤ load_at b.scheduler_stats q)
  unfolding select_scheduler
  select_scheduler-IsMinimal random_sample b s h e =
      by_list (eligible_schedulers b) (λ q. eligible_schedulers-IsEligible b q h)
    where
      by_list :
          (ids : List ℕ)
          → ((q : ℕ) → Holds q ids ↔ IsEligible b q)
          → (select_among random_sample b ids).0 ≡ ok s
          → IsEligible b s
            × ((q : ℕ) → IsEligible b q → load_at b.scheduler_stats s ≤ load_at b.scheduler_stats q)
      by_list [] f g = cc
      by_list (x ∷ xs) f g =
          least (least_loaded_among b.scheduler_stats (x ∷ xs) x none)
            (least_loaded-IsMinimal b.scheduler_stats x xs (All-Holds _ (x ∷ xs) known)) (rw e at g)
        where
          known : (q : ℕ) → Holds q (x ∷ xs) → HasStats b.scheduler_stats q
          known q m = IsAlive-HasStats b q (IsEligible-IsAlive b q ((f q).0 m))

          least :
              (r : Result ℕ)
              → IsMinimal b.scheduler_stats (x ∷ xs) r
              → r ≡ ok s
              → IsEligible b s
                × ((q : ℕ)
                    → IsEligible b q
                    → load_at b.scheduler_stats s ≤ load_at b.scheduler_stats q)
          least (ok t) m k =
              let same : t ≡ s = cc in
              rw (sym same) ((f t).0 m.0, λ q i. Holds-All _ (x ∷ xs) q m.1 ((f q).1 i))
          least (raise y) m k = absurd m

  module _ (random_sample : List ℕ → ℕ × ℕ)
      (sampled : (xs : List ℕ)
        → 2 ≤ length xs
        → Holds (random_sample xs).0 xs × Holds (random_sample xs).1 xs) where
    power_of_two-Holds :
        (d : Dict ℕ (SchedulerStats Float)) (x : ℕ) (xs : List ℕ)
        → ((s : ℕ) → Holds s (x ∷ xs) → HasStats d s)
        → (s : ℕ) × (power_of_two_among random_sample d x xs ≡ ok s) × Holds s (x ∷ xs)
    power_of_two-Holds d x [] h = (x, refl, (0, refl))
    power_of_two-Holds d x (y ∷ ys) h =
        let m = sampled (x ∷ y ∷ ys) (omega arith) in
        let c1 = (random_sample (x ∷ y ∷ ys)).0 in
        let c2 = (random_sample (x ∷ y ∷ ys)).1 in
        rw (h c1 m.0, h c2 m.1) (either (leb (load_at d c1) (load_at d c2)) m.0 m.1)
      where
        either :
            (b : Bool) {c1 c2 : ℕ}
            → Holds c1 (x ∷ y ∷ ys)
            → Holds c2 (x ∷ y ∷ ys)
            → (s : ℕ) × (ok (if b then c1 else c2) ≡ ok s) × Holds s (x ∷ y ∷ ys)
        either true {c1} m n = (c1, refl, m)
        either false {c2} m n = (c2, refl, n)

    -- When `random.sample` returns members of what it is given, and with one entry for each
    -- scheduler: the selection returns a scheduler that is eligible and keeps the statistics, or
    -- raises RuntimeError, in which case no scheduler is alive, or ValueError, in which case the
    -- algorithm is none of the three. It raises nothing else.
    pub select_scheduler-IsSelection :
        (b : LoadBalancer Float) → WellFormed b → IsSelection b (select_scheduler random_sample b)
    unfolding select_scheduler
    select_scheduler-IsSelection b h =
        by_list (eligible_schedulers b) refl (λ s. (eligible_schedulers-IsEligible b s h).0)
      where
        by_list :
            (ids : List ℕ)
            → eligible_schedulers b ≡ ids
            → ((s : ℕ) → Holds s ids → IsEligible b s)
            → IsSelection b (select_among random_sample b ids)
        by_list [] e f = (λ s a. eligible_schedulers-nil b s h e a, refl)
        by_list (x ∷ xs) e f =
            by_algorithm (Bool-cases (b.load_balancer_algorithm == "round_robin"))
              (Bool-cases (b.load_balancer_algorithm == "least_loaded"))
              (Bool-cases (b.load_balancer_algorithm == "power_of_two_choices"))
          where
            known : (s : ℕ) → Holds s (x ∷ xs) → HasStats b.scheduler_stats s
            known s m = IsAlive-HasStats b s (IsEligible-IsAlive b s (f s m))

            chosen : (r : Result ℕ) → IsMinimal b.scheduler_stats (x ∷ xs) r → IsSelection b (r, b)
            chosen (ok s) m = (f s m.0, refl)
            chosen (raise e) m = absurd m

            by_algorithm :
                (b.load_balancer_algorithm == "round_robin" ≡ true)
                  ⊎ (b.load_balancer_algorithm == "round_robin" ≡ false)
                → (b.load_balancer_algorithm == "least_loaded" ≡ true)
                  ⊎ (b.load_balancer_algorithm == "least_loaded" ≡ false)
                → (b.load_balancer_algorithm == "power_of_two_choices" ≡ true)
                  ⊎ (b.load_balancer_algorithm == "power_of_two_choices" ≡ false)
                → IsSelection b (select_among random_sample b (x ∷ xs))
            by_algorithm (inl e1) k2 k3 =
                let (s, e, m) = round_robin-Holds x xs b.round_robin_counter in
                rw (e1, e) (f s m, refl)
            by_algorithm (inr e1) (inl e2) k3 =
                rw (e1, e2)
                  (chosen _
                    (least_loaded-IsMinimal b.scheduler_stats x xs (All-Holds _ (x ∷ xs) known)))
            by_algorithm (inr e1) (inr e2) (inl e3) =
                let (s, e, m) = power_of_two-Holds b.scheduler_stats x xs known in
                rw (e1, e2, e3, e) (f s m, refl)
            by_algorithm (inr e1) (inr e2) (inr e3) = rw (e1, e2, e3) (e1, e2, e3, refl)
