-- ===== src/Moe/Actions.antt =====
-- What the actions of a plan do to the placements of all layers.
use chitu.Base.{
  ℕ, zero, suc, ◌≡◌, sym, true, List, [], ◌∷◌, get_elem?, set, All, some, Result, ok, raise,
  continue,
}
use chitu.Moe.Placement.{
  MoveExpertAction, Layer, Planner, exchange_experts, apply_action, apply_actions,
}
use chitu.Moe.Exchange.{IsPlaced, Matches, IsExchanged, exchange_experts-IsExchanged}

abbrev pub ArePlaced : Planner → Type 0
ArePlaced p = All (IsPlaced p.local_slot_capacity) p.layers

-- An exchange of two different experts that stand where it says.
abbrev pub IsFitting : MoveExpertAction → Planner → Type 0
IsFitting act p =
    (act.exchange ≡ true) × (l : Layer) × (get_elem? p.layers act.layer_id ≡ some l) × Matches act l

-- Each action fits the placement that the ones before it lead to.
abbrev pub AreFitting : List MoveExpertAction → Planner → Type 0
AreFitting [] p = Unit
AreFitting (act ∷ acts) p = IsFitting act p × AreFitting acts (apply_action act p).1

abbrev pub IsApplied : Result (Unit {0}) × Planner → Type 0
IsApplied (ok u, p) = ArePlaced p
IsApplied (raise e, p) = ⊥

All-get {ℓ} :
    {A : Type ℓ} (P : A → Type 0) (xs : List A) (i : ℕ) {x : A}
    → All P xs
    → get_elem? xs i ≡ some x
    → P x
All-get P [] i h g = cc
All-get P (y ∷ xs) zero {x} h g = let e : y ≡ x = cc in rw (sym e) h.0
All-get P (y ∷ xs) (suc i) h g = All-get P xs i h.1 g

All-set {ℓ} :
    {A : Type ℓ} (P : A → Type 0) (xs : List A) (i : ℕ) (v : A)
    → All P xs
    → P v
    → All P (set xs i v)
All-set P [] i v h k = tt
All-set P (x ∷ xs) zero v h k = (k, h.1)
All-set P (x ∷ xs) (suc i) v h k = (h.0, All-set P xs i v h.1 k)

apply_action-IsApplied :
    (act : MoveExpertAction) (p : Planner)
    → ArePlaced p
    → IsFitting act p
    → IsApplied (apply_action act p)
unfolding apply_action
apply_action-IsApplied act p h (e, l, g, m) =
    rw (e, g)
      (by_result (exchange_experts p.local_slot_capacity act l) (
        exchange_experts-IsExchanged p.local_slot_capacity act l
          (All-get (IsPlaced p.local_slot_capacity) p.layers act.layer_id h g) m))
  where
    by_result :
        (r : Result (Unit {0}) × Layer)
        → IsExchanged p.local_slot_capacity act r
        → IsApplied (r.0, record p { layers = set p.layers act.layer_id r.1 })
    by_result (ok u, k) x = All-set (IsPlaced p.local_slot_capacity) p.layers act.layer_id k h x.0
    by_result (raise y, k) x = absurd x

-- From placements in which the slot that is used for an expert, and each slot that is listed for
-- it, holds the expert, in every layer: a plan of exchanges each of which names two different
-- experts of its layer and where they stand when its turn comes is carried out without an error,
-- and leads to such placements.
pub apply_actions-IsApplied :
    (acts : List MoveExpertAction) (p : Planner)
    → ArePlaced p
    → AreFitting acts p
    → IsApplied (apply_actions acts p)
unfolding apply_actions
apply_actions-IsApplied [] p h f = h
apply_actions-IsApplied (act ∷ acts) p h f =
    rest (apply_action act p).0 (apply_action act p).1 (apply_action-IsApplied act p h f.0)
      (λ k. apply_actions-IsApplied acts (apply_action act p).1 k f.1)
  where
    rest :
        (r : Result (Unit {0})) (q : Planner)
        → IsApplied (r, q)
        → (ArePlaced q → IsApplied (apply_actions acts q))
        → IsApplied (continue r (λ u. apply_actions acts) q)
    rest (ok u) q k g = g k
    rest (raise e) q k g = absurd k
