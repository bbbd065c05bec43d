-- ===== src/DeviceLists.antt =====
-- chitu/device_list.py: growing lists on a device, and the manager that keeps some of them as rows of
-- one buffer. A list is an object: the manager and the tasks refer to the same one, by its identity
-- here. Its storage is a tensor of its own or a view on a row of the buffer. What torch.empty(n)
-- holds is a parameter. The checks of types and devices, which are fixed, are not modelled.
pub mod Rows
pub mod Install
pub mod Kept
pub mod Push
pub mod Fresh
pub mod Single
pub mod Batch
use chitu.Base.{
  ℕ, zero, suc, ◌+◌, ◌*◌, max, Bool, true, false, not, Option, none, some, List, [], ◌∷◌, ◌++◌, ltb,
  leb, nat_beq, if◌then◌else◌, length, get_or, set, take, drop, map, range_from, Dict, get, put,
  remove, has, get_default, Exec, Result, ok, raise, assertion_error, runtime_error, index_error,
  generic_exception, continue, nat_eq,
}

pub data Storage : Type 0 where
  own : List ℕ → Storage
  row : ℕ → Storage

-- `append` is `_append` with reallocation or without it.
pub record DeviceList : Type 0 where
  pub data_of : Storage
  pub len : ℕ
  pub disable_reallocate : Bool

-- The manager, with the lists that there are. `lru_queue` has the row of each managed list, least
-- recently used first.
pub record Manager : Type 0 where
  pub lists : ℕ → DeviceList
  pub buffer : List (List ℕ)
  pub max_num_rows : ℕ
  pub max_num_cols : ℕ
  pub free_rows : List ℕ
  pub lru_queue : Dict ℕ ℕ

abbrev pub set_list : (ℕ → DeviceList) → ℕ → DeviceList → ℕ → DeviceList
set_list f k l j = if nat_beq k j then l else f j

abbrev pub cells : List (List ℕ) → Storage → List ℕ
cells buffer (own xs) = xs
cells buffer (row r) = get_or buffer r []

-- to_tensor() of a list
unfoldable pub to_tensor : Manager → ℕ → List ℕ
to_tensor m k = take (m.lists k).len (cells m.buffer (m.lists k).data_of)

abbrev pub with_list : ℕ → DeviceList → Manager → Manager
with_list k l m = record m { lists = set_list m.lists k l }

-- self._data[self._len] = item; self._len += 1
abbrev write_item : ℕ → ℕ → DeviceList → Storage → Manager → Manager
write_item k item l (own xs) m =
    with_list k (record l { data_of = own (set xs l.len item); len = l.len + 1 }) m
write_item k item l (row r) m =
    with_list k (record l { data_of = row r; len = l.len + 1 })
      (record m { buffer = set m.buffer r (set (get_or m.buffer r []) l.len item) })

module _ (empty : ℕ → List ℕ) where
  -- The storage that an append writes to.
  abbrev grown : DeviceList → List ℕ → Storage
  grown l xs = own (take l.len xs ++ drop l.len (empty (max (2 * l.len) 32)))

  unfoldable pub append_item : ℕ → ℕ → Exec Manager (Unit {0})
  append_item k item m =
      let l = m.lists k in
      let xs = cells m.buffer l.data_of in
      if nat_beq l.len (length xs)
      then if l.disable_reallocate
        then (raise runtime_error, m)
        else (ok tt, write_item k item l (grown l xs) m)
      else if ltb l.len (length xs)
      then (ok tt, write_item k item l l.data_of m)
      else (raise index_error, m)

  unfoldable pub make_manager : (ℕ → DeviceList) → ℕ → ℕ → Manager
  make_manager lists max_num_rows max_num_cols = record {
    lists = lists;
    buffer = map (λ r. empty max_num_cols) (range_from 0 (max_num_rows + 1));
    max_num_rows = max_num_rows;
    max_num_cols = max_num_cols;
    free_rows = range_from 1 max_num_rows;
    lru_queue = [];
  }

-- OrderedDict.move_to_end
abbrev pub move_to_end : Dict ℕ ℕ → ℕ → ℕ → Dict ℕ ℕ
move_to_end d k r = put (remove d k) k r

abbrev pub refresh_found : ℕ → Option ℕ → Exec Manager (Unit {0})
refresh_found k none m = (raise assertion_error, m)
refresh_found k (some r) m = (ok tt, record m { lru_queue = move_to_end m.lru_queue k r })

unfoldable pub refresh : ℕ → Exec Manager (Unit {0})
refresh k m = refresh_found k (get m.lru_queue k) m

unfoldable pub remove_list : ℕ → Manager → Manager
remove_list k m = elim (get m.lru_queue k) [
  | none ↦ m
  | some r ↦ record m { free_rows = m.free_rows ++ r ∷ []; lru_queue = remove m.lru_queue k }
]

-- The list gets a copy of its row, and may be reallocated again.
abbrev pub evict_found : ℕ → Option ℕ → Exec Manager ℕ
evict_found k none m = (raise assertion_error, m)
evict_found k (some r) m = (
  ok r,
  with_list k
      (record (m.lists k) {
        data_of = own (cells m.buffer (m.lists k).data_of);
        disable_reallocate = false;
      })
      (record m { lru_queue = remove m.lru_queue k }),
)

unfoldable pub evict_list : ℕ → Exec Manager ℕ
evict_list k m = evict_found k (get m.lru_queue k) m

abbrev pub enter_row : ℕ → ℕ → Exec Manager (Unit {0})
enter_row k r m = (ok tt, record m { lru_queue = put m.lru_queue k r })

-- next(iter(self._lru_queue)) raises StopIteration if there is none.
abbrev pub evict_first : ℕ → Dict ℕ ℕ → Exec Manager (Unit {0})
evict_first k [] m = (raise generic_exception, m)
evict_first k ((j, s) ∷ d) m = continue (evict_list j m).0 (enter_row k) (evict_list j m).1

abbrev pub take_row : ℕ → List ℕ → Exec Manager (Unit {0})
take_row k [] m = evict_first k m.lru_queue m
take_row k (r ∷ rs) m = enter_row k r (record m { free_rows = rs })

abbrev pub row_of : ℕ → Exec Manager ℕ
row_of k m = (ok (get_default m.lru_queue k 0), m)

abbrev pub refresh_and_row : ℕ → Exec Manager ℕ
refresh_and_row k m = continue (refresh k m).0 (λ u. row_of k) (refresh k m).1

abbrev pub enter_queue : Bool → ℕ → Exec Manager (Unit {0})
enter_queue true k m = (ok tt, m)
enter_queue false k m = take_row k m.free_rows m

unfoldable pub assign_buffer_row : ℕ → Exec Manager ℕ
unfolding evict_list refresh
assign_buffer_row k m =
    let o = enter_queue (has m.lru_queue k) k m in continue o.0 (λ u. refresh_and_row k) o.1

-- buffer[row][:len] = to_tensor(); _data = buffer[row]
abbrev pub install : ℕ → ℕ → Exec Manager (Unit {0})
install k r m =
    let l = m.lists k in
    let old : List ℕ = get_or m.buffer r [] in
    let new : List ℕ = take l.len (cells m.buffer l.data_of) ++ drop l.len old in
    (ok tt, with_list k (record l { data_of = row r }) (record m { buffer = set m.buffer r new }))

abbrev pub no_realloc : ℕ → Manager → Manager
no_realloc k m = with_list k (record (m.lists k) { disable_reallocate = true }) m

abbrev pub push_managed : Bool → ℕ → Exec Manager (Unit {0})
push_managed true k m = refresh k m
push_managed false k m = continue (assign_buffer_row k m).0 (install k) (assign_buffer_row k m).1

unfoldable pub push_list : ℕ → Exec Manager (Unit {0})
unfolding refresh assign_buffer_row
push_list k m =
    if leb (m.lists k).len m.max_num_cols
    then push_managed (has m.lru_queue k) k (no_realloc k m)
    else (raise assertion_error, m)

-- buffer[rows, cols] = data
unfoldable pub put_cells : List (ℕ × ℕ × ℕ) → List (List ℕ) → List (List ℕ)
put_cells [] buffer = buffer
put_cells ((r, c, x) ∷ cs) buffer = put_cells cs (set buffer r (set (get_or buffer r []) c x))

abbrev pub targets : Manager → List ℕ → List ℕ → List (ℕ × ℕ × ℕ)
targets m [] xs = []
targets m (k ∷ ks) [] = []
targets m (k ∷ ks) (x ∷ xs) = (get_default m.lru_queue k 0, (m.lists k).len, x) ∷ targets m ks xs

abbrev pub within : ℕ → List (ℕ × ℕ × ℕ) → Bool
within cols [] = true
within cols ((r, c, x) ∷ cs) = if ltb c cols then within cols cs else false

unfoldable pub lengthen_each : List ℕ → (ℕ → DeviceList) → ℕ → DeviceList
lengthen_each [] f = f
lengthen_each (k ∷ ks) f = lengthen_each ks (set_list f k (record (f k) { len = (f k).len + 1 }))

unfoldable pub batch_append : List ℕ → List ℕ → Exec Manager (Unit {0})
unfolding put_cells lengthen_each
batch_append ks xs m =
    if nat_beq (length ks) 0
    then (ok tt, m)
    else if nat_beq (length ks) (length xs)
    then if within m.max_num_cols (targets m ks xs)
      then (
        ok tt,
        record m {
          buffer = put_cells (targets m ks xs) m.buffer;
          lists = lengthen_each ks m.lists;
        },
      )
      else (raise index_error, m)
    else (raise assertion_error, m)
