-- ===== src/Examples/MoeExamples.antt =====
-- One layer with four experts on two ranks, two slots each.
use chitu.Base.{
  ℕ, ◌+◌, ◌*◌, ◌≡◌, refl, zero, suc, true, List, [], ◌∷◌, arith, get_elem?, some, All, sym,
}
use chitu.Moe.Default.{init_layer, make_planner}
use chitu.Moe.Default.Placed.{IsMade, make_planner-IsMade}
use chitu.Moe.Placement.{MoveExpertAction, Layer, Planner, apply_actions, exchange_experts, cell}
use chitu.Moe.Exchange.{IsPlaced, Matches}
use chitu.Moe.Actions.{AreFitting, IsApplied, apply_actions-IsApplied}

abbrev layer : Layer
layer = record {
  mapping = (0 ∷ 1 ∷ []) ∷ (2 ∷ 3 ∷ []) ∷ [];
  mapping_dev = (0 ∷ 1 ∷ []) ∷ (2 ∷ 3 ∷ []) ∷ [];
  inv_mapping = 0 ∷ 1 ∷ 2 ∷ 3 ∷ [];
  expert_slots = ((0, 0) ∷ []) ∷ ((0, 1) ∷ []) ∷ ((1, 0) ∷ []) ∷ ((1, 1) ∷ []) ∷ [];
}

layer-IsPlaced : IsPlaced 2 layer
layer-IsPlaced = record { copied = refl; used = used; listed = listed }
  where
    used :
        (e g : ℕ)
        → get_elem? layer.inv_mapping e ≡ some g
        → (r : ℕ) × (s : ℕ) × (g ≡ r * 2 + s) × (cell layer.mapping r s ≡ some e)
    used zero g h = (0, 0, cc, refl)
    used (suc zero) g h = (0, 1, cc, refl)
    used (suc (suc zero)) g h = (1, 0, cc, refl)
    used (suc (suc (suc zero))) g h = (1, 1, cc, refl)
    used (suc (suc (suc (suc e)))) g h = cc

    listed :
        (e : ℕ) (slots : List (ℕ × ℕ))
        → get_elem? layer.expert_slots e ≡ some slots
        → All (λ t. cell layer.mapping t.0 t.1 ≡ some e) slots
    listed zero slots h = let e : (0, 0) ∷ [] ≡ slots = cc in rw (sym e) (refl, tt)
    listed (suc zero) slots h = let e : (0, 1) ∷ [] ≡ slots = cc in rw (sym e) (refl, tt)
    listed (suc (suc zero)) slots h = let e : (1, 0) ∷ [] ≡ slots = cc in rw (sym e) (refl, tt)
    listed (suc (suc (suc zero))) slots h =
        let e : (1, 1) ∷ [] ≡ slots = cc in rw (sym e) (refl, tt)
    listed (suc (suc (suc (suc e)))) slots h = cc

abbrev first : MoveExpertAction
first = record {
  layer_id = 0;
  from_expert_id = 0;
  to_expert_id = 3;
  from_rank = 0;
  to_rank = 1;
  from_slot = 0;
  to_slot = 1;
  exchange = true;
}

-- Expert 0 goes on from the slot that it got.
abbrev second : MoveExpertAction
second = record {
  layer_id = 0;
  from_expert_id = 0;
  to_expert_id = 1;
  from_rank = 1;
  to_rank = 0;
  from_slot = 1;
  to_slot = 1;
  exchange = true;
}

abbrev planner : Planner
planner = record {
  num_experts = 4;
  global_slot_nums = 4;
  ep_size = 2;
  ep_rank = 0;
  local_slot_capacity = 2;
  layers = layer ∷ [];
}

first-Matches : Matches first layer
first-Matches = record {
  from_there = refl;
  to_there = refl;
  differ = λ e. omega (arith, e);
  from_known = omega arith;
  to_known = omega arith;
  same_number = refl;
}

abbrev once : Layer
once = record {
  mapping = (3 ∷ 1 ∷ []) ∷ (2 ∷ 0 ∷ []) ∷ [];
  mapping_dev = (3 ∷ 1 ∷ []) ∷ (2 ∷ 0 ∷ []) ∷ [];
  inv_mapping = 3 ∷ 1 ∷ 2 ∷ 0 ∷ [];
  expert_slots = ((1, 1) ∷ []) ∷ ((0, 1) ∷ []) ∷ ((1, 0) ∷ []) ∷ ((0, 0) ∷ []) ∷ [];
}

second-Matches : Matches second once
second-Matches = record {
  from_there = refl;
  to_there = refl;
  differ = λ e. omega (arith, e);
  from_known = omega arith;
  to_known = omega arith;
  same_number = refl;
}

both-AreFitting : AreFitting (first ∷ second ∷ []) planner
unfolding chitu.Moe.Placement.apply_action
both-AreFitting = ((refl, layer, refl, first-Matches), ((refl, once, refl, second-Matches), tt))

apply_actions-IsApplied_example : IsApplied (apply_actions (first ∷ second ∷ []) planner)
apply_actions-IsApplied_example =
    apply_actions-IsApplied (first ∷ second ∷ []) planner (layer-IsPlaced, tt) both-AreFitting

-- Four experts on six slots of two ranks, as rank 1 sees them.
two_ranks :
    ((init_layer 4 6 3 2 1).mapping ≡ (0 ∷ 1 ∷ 2 ∷ []) ∷ (3 ∷ 0 ∷ 1 ∷ []) ∷ [])
    × ((init_layer 4 6 3 2 1).inv_mapping ≡ 4 ∷ 5 ∷ 2 ∷ 3 ∷ [])
two_ranks = (refl, refl)

make_planner-IsMade_example : IsMade 2 (make_planner 2 4 6 2 1)
make_planner-IsMade_example =
    make_planner-IsMade 2 4 6 2 1 (omega arith) (omega arith) (omega arith) refl
