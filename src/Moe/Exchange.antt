-- ===== src/Moe/Exchange.antt =====
-- What an exchange of two experts does to the placement of a layer.
use chitu.Base.{
  ℕ, zero, suc, ◌+◌, ◌*◌, ◌<◌, ◌≡◌, ◌≢◌, refl, ◌∙◌, List, [], ◌∷◌, arith, length, get_elem?,
  get_elem?-set_ne, set, All, some, Result, ok, raise,
}
use chitu.Moe.Placement.{MoveExpertAction, Layer, cell, exchange_experts}
use chitu.Moe.Swap.{from_kept, at_from, at_to, in_from, redirected-Points, listed-Stand}

-- Each expert's slot on this rank holds the expert, and so does every slot that is listed for it.
pub record IsPlaced (capacity : ℕ) (l : Layer) : Type 0 where
  pub copied : l.mapping_dev ≡ l.mapping
  pub used :
      (e g : ℕ)
      → get_elem? l.inv_mapping e ≡ some g
      → (r : ℕ) × (s : ℕ) × (g ≡ r * capacity + s) × (cell l.mapping r s ≡ some e)
  pub listed :
      (e : ℕ) (slots : List (ℕ × ℕ))
      → get_elem? l.expert_slots e ≡ some slots
      → All (λ t. cell l.mapping t.0 t.1 ≡ some e) slots

-- An exchange names two different experts and where they are.
pub record Matches (act : MoveExpertAction) (l : Layer) : Type 0 where
  pub from_there : cell l.mapping act.from_rank act.from_slot ≡ some act.from_expert_id
  pub to_there : cell l.mapping act.to_rank act.to_slot ≡ some act.to_expert_id
  pub differ : act.from_expert_id ≢ act.to_expert_id
  pub from_known : act.from_expert_id < length l.inv_mapping
  pub to_known : act.to_expert_id < length l.inv_mapping
  pub same_number : length l.expert_slots ≡ length l.inv_mapping

get_some {ℓ} :
    {A : Type ℓ} (xs : List A) (i : ℕ) → i < length xs → (x : A) × (get_elem? xs i ≡ some x)
get_some [] i h = absurd (omega (arith, h))
get_some (x ∷ xs) zero h = (x, refl)
get_some (x ∷ xs) (suc i) h = get_some xs i (omega (arith, h))

abbrev pub IsExchanged : ℕ → MoveExpertAction → Result (Unit {0}) × Layer → Type 0
IsExchanged capacity act (ok u, l) =
    IsPlaced capacity l
    × (cell l.mapping act.to_rank act.to_slot ≡ some act.from_expert_id)
    × (cell l.mapping act.from_rank act.from_slot ≡ some act.to_expert_id)
IsExchanged capacity act (raise e, l) = ⊥

-- From a placement in which the slot that is used for an expert, and each slot that is listed for
-- it, holds the expert, an exchange of two different experts that stand where it says returns and
-- leads to such a placement, in which the two stand in each other's place.
pub exchange_experts-IsExchanged :
    (capacity : ℕ) (act : MoveExpertAction) (l : Layer)
    → IsPlaced capacity l
    → Matches act l
    → IsExchanged capacity act (exchange_experts capacity act l)
unfolding exchange_experts
exchange_experts-IsExchanged capacity act l p h =
    with_entries (get_some l.inv_mapping act.from_expert_id h.from_known)
      (get_some l.inv_mapping act.to_expert_id h.to_known)
      (get_some l.expert_slots act.from_expert_id (omega (arith, h.same_number, h.from_known)))
      (get_some l.expert_slots act.to_expert_id (omega (arith, h.same_number, h.to_known)))
  where
    with_entries :
        (a : ℕ) × (get_elem? l.inv_mapping act.from_expert_id ≡ some a)
        → (b : ℕ) × (get_elem? l.inv_mapping act.to_expert_id ≡ some b)
        → (sf : List (ℕ × ℕ)) × (get_elem? l.expert_slots act.from_expert_id ≡ some sf)
        → (st : List (ℕ × ℕ)) × (get_elem? l.expert_slots act.to_expert_id ≡ some st)
        → IsExchanged capacity act (exchange_experts capacity act l)
    with_entries (a, ha) (b, hb) (sf, hsf) (st, hst) =
        let fk =
          from_kept l.mapping act.from_rank act.from_slot act.from_expert_id act.to_rank act.to_slot
            act.to_expert_id h.from_there h.to_there h.differ in
        let later : get_elem?
              (set l.expert_slots act.from_expert_id (
                in_from l.mapping act.from_rank act.from_slot act.from_expert_id act.to_rank
                  act.to_slot act.to_expert_id h.from_there h.to_there h.differ l.expert_slots sf st
                  hsf hst))
              act.to_expert_id
            ≡ some st =
          get_elem?-set_ne l.expert_slots _ h.differ ∙ hst in
        rw (h.to_there, fk, ha, hb, hsf, later)
          (
            record {
              copied = refl;
              used =
                  redirected-Points l.mapping act.from_rank act.from_slot act.from_expert_id
                    act.to_rank act.to_slot act.to_expert_id h.from_there h.to_there h.differ
                    capacity l.inv_mapping a b ha hb p.used;
              listed =
                  listed-Stand l.mapping act.from_rank act.from_slot act.from_expert_id act.to_rank
                    act.to_slot act.to_expert_id h.from_there h.to_there h.differ l.expert_slots sf
                    st hsf hst p.listed;
            },
            at_to l.mapping act.from_rank act.from_slot act.from_expert_id act.to_rank act.to_slot
                act.to_expert_id h.from_there h.to_there h.differ,
            at_from l.mapping act.from_rank act.from_slot act.from_expert_id act.to_rank act.to_slot
                act.to_expert_id h.from_there h.to_there h.differ,
          )
