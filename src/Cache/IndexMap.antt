-- ===== src/Cache/IndexMap.antt =====
-- chitu/cache_manager.py, `GlobalLocalMap`: which global layer ids one pipeline stage holds, and
-- their local offsets. Indices are natural numbers, as its documentation says of them.
pub mod RoundTrip
use chitu.Base.{
  ℕ, zero, suc, ◌+◌, ◌-◌, ◌≡◌, Bool, true, false, ◌&&◌, ◌||◌, Option, none, some, List, [], ◌∷◌,
  ltb, leb, if◌then◌else◌, nat_beq, length, get_elem?, any_of, Dict, get, put, has, Result, ok,
  raise, value_error, key_error, index_error, nat_eq, not,
}

-- The two modes of the object: `_begin` and `_end`, or `_list` and `_map`.
pub data IndexMap : Type 0 where
  range_mode : ℕ → ℕ → IndexMap
  list_mode : List ℕ → Dict ℕ ℕ → IndexMap

abbrev pub member : ℕ → List ℕ → Bool
member x = any_of (nat_beq x)

-- set(lst)
unfoldable pub dedup : List ℕ → List ℕ
dedup [] = []
dedup (x ∷ xs) = if member x xs then dedup xs else x ∷ dedup xs

-- {g: i for i, g in enumerate(lst)}
unfoldable pub enumerate_into : ℕ → List ℕ → Dict ℕ ℕ → Dict ℕ ℕ
enumerate_into i [] m = m
enumerate_into i (g ∷ gs) m = enumerate_into (suc i) gs (put m g i)

abbrev is_given {ℓ} : {A : Type ℓ} → Option A → Bool
is_given none = false
is_given (some _) = true

-- `__init__`
unfoldable pub make : Option ℕ → Option ℕ → Option (List ℕ) → Result IndexMap
unfolding dedup
make begin_idx end_idx (some idx_list) =
    if is_given begin_idx || is_given end_idx
    then raise value_error
    else if not (nat_beq (length idx_list) (length (dedup idx_list)))
    then raise value_error
    else ok (list_mode idx_list (enumerate_into 0 idx_list []))
make (some begin_idx) (some end_idx) none =
    if leb begin_idx end_idx then ok (range_mode begin_idx end_idx) else raise value_error
make (some begin_idx) none none = raise value_error
make none end_idx none = raise value_error

abbrev pub from_range : ℕ → ℕ → Result IndexMap
from_range begin_idx end_idx = make (some begin_idx) (some end_idx) none

abbrev pub from_list : List ℕ → Result IndexMap
from_list idx_list = make none none (some idx_list)

unfoldable pub to_local : IndexMap → ℕ → Result ℕ
to_local (range_mode b e) g = if leb b g && ltb g e then ok (g - b) else raise key_error
to_local (list_mode lst m) g = elim (get m g) [ some i ↦ ok i | none ↦ raise key_error ]

unfoldable pub size : IndexMap → ℕ
size (range_mode b e) = e - b
size (list_mode lst m) = length lst

unfoldable pub contains : IndexMap → ℕ → Bool
contains (range_mode b e) g = leb b g && ltb g e
contains (list_mode lst m) g = has m g

-- `self._list[local_offset]`, behind the check on the size
list_at : List ℕ → ℕ → Result ℕ
list_at lst i = elim (get_elem? lst i) [ some g ↦ ok g | none ↦ raise index_error ]

unfoldable pub to_global : IndexMap → ℕ → Result ℕ
unfolding size list_at
to_global (range_mode b e) i = if ltb i (e - b) then ok (b + i) else raise index_error
to_global (list_mode lst m) i = if ltb i (length lst) then list_at lst i else raise index_error
