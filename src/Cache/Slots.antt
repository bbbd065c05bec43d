-- ===== src/Cache/Slots.antt =====
-- chitu/global_vars.py, `SlotHandle`: the slots of the dense cache, split among micro batches.
pub mod Shares
use chitu.Base.{
  ℕ, zero, suc, ◌+◌, ◌%◌, List, [], ◌∷◌, min, get_elem?, get_or, set, replicate, Option, none, some,
  Result, ok, raise, index_error,
}

pub record SlotHandle : Type 0 where
  pub slots_size : List ℕ
  pub slot_idx : ℕ
  pub slot_start_idx : List ℕ
  pub slot_end_idx : List ℕ

-- for i in range(i0, i0 + n): result[i % parts] += 1
abbrev pub count_up : ℕ → ℕ → ℕ → List ℕ → List ℕ
count_up i0 zero parts result = result
count_up i0 (suc n) parts result =
    count_up (suc i0) n parts (set result (i0 % parts) (get_or result (i0 % parts) 0 + 1))

-- For a positive number of parts.
unfoldable pub split_slots : ℕ → ℕ → List ℕ
split_slots total parts = count_up 0 total parts (replicate (min total parts) 0)

-- res[:-1] and res[1:], where res holds the sums from 0 on
abbrev pub starts : ℕ → List ℕ → List ℕ
starts s [] = []
starts s (x ∷ xs) = s ∷ starts (s + x) xs

abbrev pub ends : ℕ → List ℕ → List ℕ
ends s [] = []
ends s (x ∷ xs) = (s + x) ∷ ends (s + x) xs

unfoldable pub slot_handle : ℕ → ℕ → SlotHandle
unfolding split_slots
slot_handle max_reqs pp_size = record {
  slots_size = split_slots max_reqs pp_size;
  slot_idx = 0;
  slot_start_idx = starts 0 (split_slots max_reqs pp_size);
  slot_end_idx = ends 0 (split_slots max_reqs pp_size);
}

unfoldable pub set_slot_idx : ℕ → SlotHandle → SlotHandle
set_slot_idx idx h = record h { slot_idx = idx }

abbrev pub pair_of : Option ℕ → Option ℕ → Result (ℕ × ℕ)
pair_of none e = raise index_error
pair_of (some s) none = raise index_error
pair_of (some s) (some e) = ok (s, e)

unfoldable pub get_slot_start_end_idx : SlotHandle → ℕ → Result (ℕ × ℕ)
get_slot_start_end_idx h idx =
    pair_of (get_elem? h.slot_start_idx idx) (get_elem? h.slot_end_idx idx)

unfoldable pub get_current_slot_start_end_idx : SlotHandle → Result (ℕ × ℕ)
unfolding get_slot_start_end_idx
get_current_slot_start_end_idx h = get_slot_start_end_idx h h.slot_idx
