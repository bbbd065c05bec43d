-- ===== src/Moe/Default.antt =====
-- chitu/moe/load_balancer/planner.py: the placement that `MoELoadPlanner` starts with. A tensor whose
-- rows are given by lists is those lists; what is said of one layer is said of all.
pub mod Collected
pub mod Placed
use chitu.Base.{
  ℕ, suc, ◌+◌, ◌*◌, ◌/◌, ◌%◌, ◌&&◌, List, [], ◌∷◌, ◌++◌, ltb, nat_beq, if◌then◌else◌, length,
  get_or, set, map, take, drop, range_from, replicate, Result, ok, raise, assertion_error,
  runtime_error, zero_division_error,
}
use chitu.Moe.Placement.{Layer, Planner}

-- [t % self.num_experts for t in range(self.global_slot_nums)]
abbrev pub experts : ℕ → ℕ → List ℕ
experts num_experts slot_nums = map (λ t. t % num_experts) (range_from 0 slot_nums)

-- experts[start_idx:end_idx] for each rank
abbrev pub default_mapping : ℕ → List ℕ → ℕ → List (List ℕ)
default_mapping capacity es ep_size =
    map (λ r. take capacity (drop (r * capacity) es)) (range_from 0 ep_size)

abbrev pub add_slot : ℕ → ℕ → ℕ → ℕ → List (List (ℕ × ℕ)) → List (List (ℕ × ℕ))
add_slot num_experts e r s slots =
    if ltb e num_experts then set slots e (get_or slots e [] ++ (r, s) ∷ []) else slots

abbrev pub collect_row : ℕ → ℕ → ℕ → List ℕ → List (List (ℕ × ℕ)) → List (List (ℕ × ℕ))
collect_row n r s [] slots = slots
collect_row n r s (e ∷ es) slots = collect_row n r (suc s) es (add_slot n e r s slots)

abbrev pub collect : ℕ → ℕ → List (List ℕ) → List (List (ℕ × ℕ)) → List (List (ℕ × ℕ))
collect n r [] slots = slots
collect n r (row ∷ rows) slots = collect n (suc r) rows (collect_row n r 0 row slots)

-- The slot that a rank uses for an expert; 0 stays for one without a slot.
abbrev pub choose_slot : ℕ → ℕ → List (ℕ × ℕ) → ℕ
choose_slot capacity ep_rank slots =
    let t : ℕ × ℕ = get_or slots (ep_rank % length slots) (0, 0) in
    if nat_beq (length slots) 0 then 0 else t.0 * capacity + t.1

abbrev pub init_layer : ℕ → ℕ → ℕ → ℕ → ℕ → Layer
init_layer num_experts slot_nums capacity ep_size ep_rank =
    let mapping = default_mapping capacity (experts num_experts slot_nums) ep_size in
    let slots = collect num_experts 0 mapping (replicate num_experts []) in
    record {
      mapping = mapping;
      mapping_dev = mapping;
      inv_mapping = map (choose_slot capacity ep_rank) slots;
      expert_slots = slots;
    }

abbrev pub initial_planner : ℕ → ℕ → ℕ → ℕ → ℕ → Planner
initial_planner num_layers num_experts slot_nums ep_size ep_rank =
    let capacity : ℕ = slot_nums / ep_size in
    record {
      num_experts = num_experts;
      global_slot_nums = slot_nums;
      ep_size = ep_size;
      ep_rank = ep_rank;
      local_slot_capacity = capacity;
      layers = replicate num_layers (init_layer num_experts slot_nums capacity ep_size ep_rank);
    }

-- torch.zeros raises for a negative number of redundant slots.
abbrev pub make_checked : ℕ → ℕ → ℕ → ℕ → ℕ → Result Planner
make_checked num_layers num_experts slot_nums ep_size ep_rank =
    if ltb slot_nums num_experts
    then raise runtime_error
    else if nat_beq num_experts 0 && ltb 0 slot_nums
    then raise zero_division_error
    else ok (initial_planner num_layers num_experts slot_nums ep_size ep_rank)

-- The constructor.
unfoldable pub make_planner : ℕ → ℕ → ℕ → ℕ → ℕ → Result Planner
make_planner num_layers num_experts slot_nums ep_size ep_rank =
    if nat_beq ep_size 0
    then raise zero_division_error
    else if nat_beq (slot_nums % ep_size) 0
    then make_checked num_layers num_experts slot_nums ep_size ep_rank
    else raise assertion_error
