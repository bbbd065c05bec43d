-- ===== src/Moe/Placement.antt =====
-- chitu/moe/load_balancer/planner.py: the placement of the experts that `MoELoadPlanner` keeps, and
-- its update by actions. The tensors are lists; the copy of the placement on the device is one too.
use chitu.Base.{
  ℕ, ◌+◌, ◌*◌, Bool, ◌&&◌, not, List, [], ◌∷◌, ◌++◌, nat_beq, if◌then◌else◌, get_elem?, get_or, set,
  keep, Option, none, some, Result, ok, raise, index_error, key_error, Exec, pure, throw, modify,
  ◌>>=◌, ◌>>◌,
}

pub record MoveExpertAction : Type 0 where
  pub layer_id : ℕ
  pub from_expert_id : ℕ
  pub to_expert_id : ℕ
  pub from_rank : ℕ
  pub to_rank : ℕ
  pub from_slot : ℕ
  pub to_slot : ℕ
  pub exchange : Bool

-- What the planner keeps for one layer: the expert in each slot of each rank, its copy on the device,
-- the slot (over all ranks) that this rank uses for each expert, and the slots of each expert.
pub record Layer : Type 0 where
  pub mapping : List (List ℕ)
  pub mapping_dev : List (List ℕ)
  pub inv_mapping : List ℕ
  pub expert_slots : List (List (ℕ × ℕ))

pub record Planner : Type 0 where
  pub num_experts : ℕ
  pub global_slot_nums : ℕ
  pub ep_size : ℕ
  pub ep_rank : ℕ
  pub local_slot_capacity : ℕ
  pub layers : List Layer

-- mapping[r][s]
abbrev pub cell_of : Option (List ℕ) → ℕ → Option ℕ
cell_of none s = none
cell_of (some row) s = get_elem? row s

abbrev pub cell : List (List ℕ) → ℕ → ℕ → Option ℕ
cell m r s = cell_of (get_elem? m r) s

abbrev pub set_cell : List (List ℕ) → ℕ → ℕ → ℕ → List (List ℕ)
set_cell m r s e = set m r (set (get_or m r []) s e)

abbrev pub write_known : Option ℕ → ℕ → ℕ → ℕ → Exec Layer (Unit {0})
write_known none r s e = throw index_error
write_known (some old) r s e = modify (λ l. record l { mapping = set_cell l.mapping r s e })

abbrev pub write_cell : ℕ → ℕ → ℕ → Exec Layer (Unit {0})
write_cell r s e l = write_known (cell l.mapping r s) r s e l

abbrev pub or_index_error : Option ℕ → Result ℕ
or_index_error none = raise index_error
or_index_error (some x) = ok x

-- invmapping_layer[e, 0].item()
abbrev pub inv_at : ℕ → Exec Layer ℕ
inv_at e l = (or_index_error (get_elem? l.inv_mapping e), l)

-- if old == expected: invmapping_layer[e, 0] = new
abbrev pub redirect : ℕ → ℕ → ℕ → ℕ → Exec Layer (Unit {0})
redirect e old expected new = modify (λ l. record l {
  inv_mapping = if nat_beq old expected then set l.inv_mapping e new else l.inv_mapping;
})

abbrev pub is_slot : ℕ → ℕ → ℕ × ℕ → Bool
is_slot r s t = nat_beq t.0 r && nat_beq t.1 s

abbrev pub replace_known : Option (List (ℕ × ℕ)) → ℕ → ℕ → ℕ → ℕ → ℕ → Exec Layer (Unit {0})
replace_known none e r s r' s' = throw index_error
replace_known (some slots) e r s r' s' = modify (λ l. record l {
  expert_slots = set l.expert_slots e (keep (λ t. not (is_slot r s t)) slots ++ ((r', s') ∷ []));
})

-- An expert loses the slot (r, s) and gets (r', s').
abbrev pub replace_slot : ℕ → ℕ → ℕ → ℕ → ℕ → Exec Layer (Unit {0})
replace_slot e r s r' s' l = replace_known (get_elem? l.expert_slots e) e r s r' s' l

abbrev pub copy_to_device : Exec Layer (Unit {0})
copy_to_device = modify (λ l. record l { mapping_dev = l.mapping })

unfoldable pub exchange_experts : ℕ → MoveExpertAction → Exec Layer (Unit {0})
exchange_experts capacity act = do
  write_cell act.to_rank act.to_slot act.from_expert_id
  write_cell act.from_rank act.from_slot act.to_expert_id
  copy_to_device
  orig_from ← inv_at act.from_expert_id
  orig_to ← inv_at act.to_expert_id
  redirect act.from_expert_id orig_from (act.from_rank * capacity + act.from_slot)
      (act.to_rank * capacity + act.to_slot)
  redirect act.to_expert_id orig_to (act.to_rank * capacity + act.to_slot)
      (act.from_rank * capacity + act.from_slot)
  replace_slot act.from_expert_id act.from_rank act.from_slot act.to_rank act.to_slot
  replace_slot act.to_expert_id act.to_rank act.to_slot act.from_rank act.from_slot

-- The maps of a layer are those in the planner.
abbrev pub on_layer_known : Option Layer → ℕ → Exec Layer (Unit {0}) → Exec Planner (Unit {0})
on_layer_known none i m = throw key_error
on_layer_known (some l) i m = λ p. ((m l).0, record p { layers = set p.layers i (m l).1 })

abbrev pub on_layer : ℕ → Exec Layer (Unit {0}) → Exec Planner (Unit {0})
on_layer i m p = on_layer_known (get_elem? p.layers i) i m p

unfoldable pub apply_action : MoveExpertAction → Exec Planner (Unit {0})
unfolding exchange_experts
apply_action act p =
    if act.exchange
    then on_layer act.layer_id (exchange_experts p.local_slot_capacity act) p
    else (ok tt, p)

unfoldable pub apply_actions : List MoveExpertAction → Exec Planner (Unit {0})
unfolding apply_action
apply_actions [] = pure tt
apply_actions (act ∷ acts) = do apply_action act; apply_actions acts
