-- ===== src/Router/Eligible.antt =====
-- Which schedulers of `LoadBalancer` are eligible.
use chitu.Base.{
  ℕ, zero, suc, ◌<◌, ◌≡◌, ◌⊎◌, ◌↔◌, refl, sym, ap, Bool, true, false, List, [], ◌∷◌, nat_beq,
  nat_eq, if◌then◌else◌, arith, get_elem?, Option, none, some, Dict, get, put, has, Distinct,
  put-Distinct, All, Bool-cases, inl, inr,
}
use chitu.Router.Balancer.{
  SchedulerStats, LoadBalancer, update_stats, ids_where, alive, under_cap, or_else,
  eligible_schedulers,
}

-- A number stands in a list.
abbrev pub Holds : ℕ → List ℕ → Type 0
Holds s xs = (i : ℕ) × (get_elem? xs i ≡ some s)

pub Holds-All {κ} : (P : ℕ → Type κ) (xs : List ℕ) (s : ℕ) → All P xs → Holds s xs → P s
Holds-All P [] s h (i, e) = cc
Holds-All P (x ∷ xs) s h (zero, e) = let same : x ≡ s = cc in rw (sym same) h.0
Holds-All P (x ∷ xs) s h (suc i, e) = Holds-All P xs s h.1 (i, e)

module _ {Float : Type 0} where
  -- What the dictionary has for an id, and its test.
  abbrev pub Known : Dict ℕ (SchedulerStats Float) → (SchedulerStats Float → Bool) → ℕ → Type 0
  Known d p s = (stats : SchedulerStats Float) × (get d s ≡ some stats) × (p stats ≡ true)

  absent-ne :
      (d : Dict ℕ (SchedulerStats Float)) (k s : ℕ) (v : SchedulerStats Float)
      → has d k ≡ false
      → get d s ≡ some v
      → nat_beq k s ≡ false
  absent-ne d k s v h g = elim (Bool-cases (nat_beq k s)) [
    | inl e ↦ absurd (clash (get d k) h (rw (same (ground (arith, e))) g))
    | inr e ↦ e
  ]
    where
      same : k ≡ s → k ≡ s
      same e = e

      clash :
          (o : Option (SchedulerStats Float))
          → (elim o [ none ↦ false | some _ ↦ true ]) ≡ false
          → o ≡ some v
          → ⊥
      clash none a b = cc
      clash (some x) a b = cc

  Known-cons :
      (d : Dict ℕ (SchedulerStats Float)) (k : ℕ) (v : SchedulerStats Float)
      (p : SchedulerStats Float → Bool) (ids : List ℕ)
      → has d k ≡ false
      → All (Known d p) ids
      → All (Known ((k, v) ∷ d) p) ids
  unfolding get
  Known-cons d k v p [] h a = tt
  Known-cons d k v p (s ∷ ids) h a =
      let (st, g, q) = a.0 in ((st, rw (absent-ne d k s st h g) g, q), Known-cons d k v p ids h a.1)

  ids_where-Known :
      (p : SchedulerStats Float → Bool) (d : Dict ℕ (SchedulerStats Float))
      → Distinct d
      → All (Known d p) (ids_where p d)
  unfolding get
  ids_where-Known p [] h = tt
  ids_where-Known p ((k, v) ∷ d) h = elim (Bool-cases (p v)) [
    | inl e ↦
        rw e
          ((v, ground arith, e), Known-cons d k v p (ids_where p d) h.0 (ids_where-Known p d h.1))
    | inr e ↦ rw e (Known-cons d k v p (ids_where p d) h.0 (ids_where-Known p d h.1))
  ]

  ids_where-Holds :
      (p : SchedulerStats Float → Bool) (d : Dict ℕ (SchedulerStats Float)) (s : ℕ)
      → Known d p s
      → Holds s (ids_where p d)
  unfolding get
  ids_where-Holds p [] s h = absurd (empty h.1)
    where
      empty : {v : SchedulerStats Float} → none ≡ some v → ⊥
      empty e = cc
  ids_where-Holds p ((k, v) ∷ d) s (st, g, q) =
      by_key (Bool-cases (nat_beq k s)) g (λ g'. ids_where-Holds p d s (st, g', q))
    where
      later :
          (b : Bool)
          → Holds s (ids_where p d)
          → Holds s (if b then k ∷ ids_where p d else ids_where p d)
      later true (i, e) = (suc i, e)
      later false h = h

      by_key :
          (nat_beq k s ≡ true) ⊎ (nat_beq k s ≡ false)
          → (if nat_beq k s then some v else get d s) ≡ some st
          → (get d s ≡ some st → Holds s (ids_where p d))
          → Holds s (if p v then k ∷ ids_where p d else ids_where p d)
      by_key (inl e) g f =
          let found : some v ≡ some st = rw e at g in
          let same : v ≡ st = cc in
          let key : k ≡ s = ground (arith, e) in rw (same, q) (0, ap some key)
      by_key (inr e) g f = later (p v) (f (rw e at g))

  -- The dictionary of a balancer that has been given statistics only by `update_stats`.
  abbrev pub IsKeyed : Dict ℕ (SchedulerStats Float) → Type 0
  IsKeyed [] = Unit
  IsKeyed ((k, v) ∷ d) = (v.scheduler_id ≡ k) × IsKeyed d

  abbrev pub WellFormed : LoadBalancer Float → Type 0
  WellFormed b = Distinct b.scheduler_stats × IsKeyed b.scheduler_stats

  put-IsKeyed :
      (d : Dict ℕ (SchedulerStats Float)) (v : SchedulerStats Float)
      → IsKeyed d
      → IsKeyed (put d v.scheduler_id v)
  unfolding put
  put-IsKeyed [] v h = (refl, tt)
  put-IsKeyed ((k, w) ∷ d) v h = elim (Bool-cases (nat_beq k v.scheduler_id)) [
    | inl e ↦ (let key : v.scheduler_id ≡ k = ground (arith, e) in rw e (key, h.1))
    | inr e ↦ rw e (h.0, put-IsKeyed d v h.1)
  ]

  pub update_stats-WellFormed :
      (stats : SchedulerStats Float) (b : LoadBalancer Float)
      → WellFormed b
      → WellFormed (update_stats stats b)
  unfolding update_stats
  update_stats-WellFormed stats b h = (
    put-Distinct b.scheduler_stats stats.scheduler_id stats h.0,
    put-IsKeyed b.scheduler_stats stats h.1,
  )

  abbrev pub IsAlive : LoadBalancer Float → ℕ → Type 0
  IsAlive b s =
      (stats : SchedulerStats Float) × (get b.scheduler_stats s ≡ some stats)
      × (stats.is_alive ≡ true)

  abbrev pub HasRoom : LoadBalancer Float → ℕ → Type 0
  HasRoom b s =
      (stats : SchedulerStats Float) × (get b.scheduler_stats s ≡ some stats)
      × (stats.is_alive ≡ true)
      × (stats.running_requests < b.max_inflight_per_scheduler)

  -- A scheduler that may be given a request: it is alive, and it is below the cap or no scheduler
  -- that is alive is below it.
  abbrev pub IsEligible : LoadBalancer Float → ℕ → Type 0
  IsEligible b s = HasRoom b s ⊎ IsAlive b s × ((q : ℕ) → HasRoom b q → ⊥)

  HasRoom-IsAlive : (b : LoadBalancer Float) (s : ℕ) → HasRoom b s → IsAlive b s
  HasRoom-IsAlive b s (st, g, a, r) = (st, g, a)

  under_cap-HasRoom :
      (b : LoadBalancer Float) (s : ℕ)
      → Known b.scheduler_stats (under_cap b.max_inflight_per_scheduler) s
      → HasRoom b s
  under_cap-HasRoom b s (st, g, q) = (st, g, ground (arith, q), ground (arith, q))

  HasRoom-under_cap :
      (b : LoadBalancer Float) (s : ℕ)
      → HasRoom b s
      → Known b.scheduler_stats (under_cap b.max_inflight_per_scheduler) s
  HasRoom-under_cap b s (st, g, a, r) = (st, g, ground (arith, a, r))

  -- With one entry for each scheduler, a scheduler is in the list of eligible schedulers exactly
  -- when it is alive, and is below the cap or no scheduler that is alive is.
  pub eligible_schedulers-IsEligible :
      (b : LoadBalancer Float) (s : ℕ)
      → WellFormed b
      → Holds s (eligible_schedulers b) ↔ IsEligible b s
  unfolding eligible_schedulers
  eligible_schedulers-IsEligible b s h =
      by_list (ids_where below b.scheduler_stats)
        (λ q m.
          under_cap-HasRoom b q (Holds-All _ _ q (ids_where-Known below b.scheduler_stats h.0) m))
        (λ q r. ids_where-Holds below b.scheduler_stats q (HasRoom-under_cap b q r))
    where
      below : SchedulerStats Float → Bool
      below = under_cap b.max_inflight_per_scheduler

      by_list :
          (ids : List ℕ)
          → ((q : ℕ) → Holds q ids → HasRoom b q)
          → ((q : ℕ) → HasRoom b q → Holds q ids)
          → Holds s (or_else ids (ids_where alive b.scheduler_stats)) ↔ IsEligible b s
      by_list [] f g = (
        λ m. inr (
          Holds-All _ _ s (ids_where-Known alive b.scheduler_stats h.0) m,
          λ q r. nothing (g q r),
        ),
        λ e.
            ids_where-Holds alive b.scheduler_stats s
              (elim e [ inl r ↦ HasRoom-IsAlive b s r | inr a ↦ a.0 ]),
      )
        where
          nothing : {q : ℕ} → Holds q [] → ⊥
          nothing (i, e) = cc
      by_list (x ∷ xs) f g =
          (λ e. inl (f s e), λ e. elim e [ inl r ↦ g s r | inr a ↦ absurd (a.1 x (f x (0, refl))) ])

  -- Without a scheduler that is alive nobody is eligible.
  pub eligible_schedulers-nil :
      (b : LoadBalancer Float) (s : ℕ) → WellFormed b → eligible_schedulers b ≡ [] → IsAlive b s → ⊥
  unfolding eligible_schedulers
  eligible_schedulers-nil b s h e (st, g, a) =
      ends (ids_where (under_cap b.max_inflight_per_scheduler) b.scheduler_stats) e
        (ids_where-Holds alive b.scheduler_stats s (st, g, a))
    where
      ends :
          (ids : List ℕ)
          → or_else ids (ids_where alive b.scheduler_stats) ≡ []
          → Holds s (ids_where alive b.scheduler_stats)
          → ⊥
      ends [] e (i, m) = let m' : get_elem? [] i ≡ some s = rw e at m in cc
      ends (x ∷ xs) e m = cc
