-- ===== src/Cache/Paged.antt =====
-- chitu/cache_manager.py, `PagedKVCacheManager`: blocks of the cache are handed out to requests from
-- a free list. The tensors that hold keys and values are not modelled, but the block table that
-- the device sees is, as its rows. The timers are left out.
pub mod Blocks
pub mod Conserved
pub mod Capacity
pub mod History
pub mod Release
use chitu.Base.{
  ℕ, zero, suc, ◌+◌, ◌-◌, ◌*◌, ◌/◌, ◌≤◌, max, min, Bool, true, false, ◌&&◌, Option, none, some,
  String, List, [], ◌∷◌, ◌++◌, map, ltb, leb, nat_beq, if◌then◌else◌, length, replicate, range_from,
  Dict, get, put, remove, get_default, has, Exec, Result, ok, raise, Error, key_error, value_error,
  assertion_error, runtime_error, generic_exception, ◌>>=◌, ◌>>◌, modify, gets, pure, throw, assert,
  string_eq, not, all_of,
}
use chitu.Cache.Requests.{
  Requests, base_prepare_cache_prefill, base_prepare_cache_decode, base_finalize_cache_all_decode,
}

-- (a + b - 1) // b
unfoldable pub ceil_div : ℕ → ℕ → ℕ
ceil_div a b = (a + b - 1) / b

pub record Paged : Type 0 where
  pub base : Requests
  pub block_size : ℕ
  pub num_blocks : ℕ
  pub max_num_blocks : ℕ
  pub max_blocks_per_req : ℕ
  pub use_cuda_graph : Bool
  pub block_table : Dict String (List ℕ)
  pub free_blocks : List ℕ
  pub gpu_block_table : List (List ℕ)
  pub page_ids_up_to_date : Bool
  pub offs_in_page_up_to_date : Bool

-- `num_blocks` of the constructor: `none` is its -1, the number while the server warms up.
abbrev initial_num_blocks : ℕ → ℕ → Option ℕ → Option ℕ → ℕ
initial_num_blocks num_hot_req block_size chunk (some n) = n
initial_num_blocks num_hot_req block_size none none = num_hot_req
initial_num_blocks num_hot_req block_size (some chunk) none =
    ceil_div (chunk / num_hot_req + 1) block_size * num_hot_req

unfoldable pub make : Requests → ℕ → ℕ → ℕ → Bool → Option ℕ → Option ℕ → Paged
unfolding ceil_div
make base num_hot_req max_seq_len block_size use_cuda_graph chunk num_blocks =
    let n = initial_num_blocks num_hot_req block_size chunk num_blocks in
    record {
      base = base;
      block_size = block_size;
      num_blocks = n;
      max_num_blocks = ceil_div max_seq_len block_size * num_hot_req;
      max_blocks_per_req = ceil_div max_seq_len block_size;
      use_cuda_graph = use_cuda_graph;
      block_table = [];
      free_blocks = range_from 0 n;
      gpu_block_table = [];
      page_ids_up_to_date = false;
      offs_in_page_up_to_date = false;
    }

abbrev pub on_base : Exec Requests (Unit {0}) → Exec Paged (Unit {0})
on_base m c = ((m c.base).0, record c { base = (m c.base).1 })

abbrev pub num_free_blocks : Paged → ℕ
num_free_blocks c = length c.free_blocks

abbrev pub num_used_blocks : Paged → ℕ
num_used_blocks c = c.num_blocks - length c.free_blocks

abbrev popleft : List ℕ → Exec Paged ℕ
popleft [] c = (raise generic_exception, c)
popleft (b ∷ rest) c = (ok b, record c { free_blocks = rest })

unfoldable pub get_free_block : Exec Paged ℕ
get_free_block c = popleft c.free_blocks c

-- [self.get_free_block() for _ in range(n)]
unfoldable pub get_free_blocks : ℕ → Exec Paged (List ℕ)
unfolding get_free_block
get_free_blocks zero = pure []
get_free_blocks (suc n) = do b ← get_free_block; bs ← get_free_blocks n; pure (b ∷ bs)

-- The difference of the source, cut off at 0.
unfoldable pub num_additional_blocks_req_need : Paged → String → ℕ → ℕ
unfolding ceil_div
num_additional_blocks_req_need c req_id target = elim (get c.block_table req_id) [
  | some blocks ↦ ceil_div target c.block_size - length blocks
  | none ↦ ceil_div target c.block_size
]

-- self.block_table[req_id].extend(...)
unfoldable pub extend_blocks : String → List ℕ → Exec Paged (Unit {0})
extend_blocks req_id bs = modify (λ c. record c {
  block_table = put c.block_table req_id (get_default c.block_table req_id [] ++ bs);
})

-- The blocks that a request lacks for `target` tokens. The entry of the table is looked up first.
unfoldable pub grow : String → ℕ → Exec Paged (Unit {0})
unfolding extend_blocks
grow req_id target = do
  needs ← gets (λ c. num_additional_blocks_req_need c req_id target)
  known ← gets (λ c. has c.block_table req_id)
  assert known key_error
  bs ← get_free_blocks needs
  extend_blocks req_id bs

abbrev add_entry : String → Paged → Paged
add_entry req_id c =
    if has c.block_table req_id then c else record c { block_table = put c.block_table req_id [] }

-- The loop of `prepare_cache_prefill`, over zip(req_ids, new lengths).
unfoldable pub grow_prefill : List String → List ℕ → Exec Paged (Unit {0})
unfolding grow
grow_prefill (r ∷ rs) (n ∷ ns) = do modify (add_entry r); grow r n; grow_prefill rs ns
grow_prefill rs ns = pure tt

-- The loop of `prepare_cache_decode`.
unfoldable pub grow_decode : List String → Exec Paged (Unit {0})
unfolding grow
grow_decode [] = pure tt
grow_decode (r ∷ rs) = do
  target ← gets (λ c. get_default c.base.req_id_to_seq_len r 0)
  grow r target
  grow_decode rs

unfoldable pub max_blocks_of : Dict String (List ℕ) → List String → ℕ
max_blocks_of table [] = 0
max_blocks_of table (r ∷ rs) = max (length (get_default table r [])) (max_blocks_of table rs)

-- The rows of the table, filled up with 0.
unfoldable pub padded_rows : Dict String (List ℕ) → ℕ → List String → List (List ℕ)
padded_rows table width [] = []
padded_rows table width (r ∷ rs) =
    let blocks = get_default table r [] in
    (blocks ++ replicate (width - length blocks) 0) ∷ padded_rows table width rs

abbrev all_known : Dict String (List ℕ) → List String → Bool
all_known table = all_of (λ r. has table r)

-- `max_block_num`: of no request at all there is no maximum.
abbrev table_width : Paged → List String → Result ℕ
table_width c req_ids =
    if c.use_cuda_graph
    then ok c.max_blocks_per_req
    else if nat_beq (length req_ids) 0
    then raise value_error
    else ok (max_blocks_of c.block_table req_ids)

abbrev head_or_nil : List (List ℕ) → List ℕ
head_or_nil [] = []
head_or_nil (row ∷ rows) = row

abbrev is_rectangular : List (List ℕ) → Bool
is_rectangular rows = all_of (λ row. nat_beq (length row) (length (head_or_nil rows))) rows

abbrev area : List (List ℕ) → ℕ
area rows = length rows * length (head_or_nil rows)

abbrev install_table : List (List ℕ) → Paged → Paged
install_table rows c = record c {
  gpu_block_table = rows;
  page_ids_up_to_date = false;
  offs_in_page_up_to_date = false;
}

-- Rows of unequal length make no tensor, and a shape with more elements than the static tensor
-- has cannot be read back.
unfoldable pub upd_gpu_block_table : List String → Exec Paged (Unit {0})
unfolding max_blocks_of padded_rows
upd_gpu_block_table req_ids = do
  known ← gets (λ c. all_known c.block_table req_ids)
  assert known key_error
  width ← (λ c. (table_width c req_ids, c))
  rows ← gets (λ c. padded_rows c.block_table width req_ids)
  assert (is_rectangular rows) value_error
  room ← gets (λ c. leb (area rows) c.max_num_blocks)
  assert room runtime_error
  modify (install_table rows)

unfoldable pub prepare_cache_prefill : List String → List ℕ → Exec Paged (Unit {0})
prepare_cache_prefill req_ids delta_seq_len = do
  on_base (base_prepare_cache_prefill req_ids delta_seq_len)
  lens ← gets (λ c. c.base.seq_len_delta.new.lens_list)
  grow_prefill req_ids lens
  upd_gpu_block_table req_ids

unfoldable pub prepare_cache_decode : List String → Exec Paged (Unit {0})
prepare_cache_decode req_ids = do
  on_base (base_prepare_cache_decode req_ids)
  grow_decode req_ids
  upd_gpu_block_table req_ids

abbrev give_back : String → Paged → Paged
give_back req_id c = record c {
  free_blocks = c.free_blocks ++ get_default c.block_table req_id [];
  block_table = remove c.block_table req_id;
}

unfoldable pub free_req_cache_blocks : String → Exec Paged (Unit {0})
free_req_cache_blocks req_id = do
  known ← gets (λ c. has c.block_table req_id)
  assert known key_error
  modify (give_back req_id)

unfoldable pub finalize_cache_all_decode : String → Exec Paged (Unit {0})
unfolding free_req_cache_blocks
finalize_cache_all_decode req_id c =
    if has c.base.req_id_to_seq_len req_id
    then (free_req_cache_blocks req_id >> on_base (base_finalize_cache_all_decode req_id)) c
    else (ok tt, c)

-- if reserved: self.block_table[req_id] = list(reserved)
abbrev record_reserved : String → List ℕ → Paged → Paged
record_reserved req_id [] c = c
record_reserved req_id (b ∷ bs) c = record c { block_table = put c.block_table req_id (b ∷ bs) }

-- Blocks for a request whose cache is about to arrive from another node. As many as there are.
unfoldable pub reserve_blocks_for_transfer : String → ℕ → Exec Paged (List ℕ)
reserve_blocks_for_transfer req_id num_blocks = do
  n ← gets (λ c. min num_blocks (length c.free_blocks))
  reserved ← get_free_blocks n
  modify (record_reserved req_id reserved)
  pure reserved

unfoldable pub insert_kv_cache_from_transfer : String → List ℕ → ℕ → Exec Paged (Unit {0})
insert_kv_cache_from_transfer req_id page_indices prefix_length = do
  valid ← gets (λ c. all_of (λ idx. ltb idx c.num_blocks) page_indices)
  assert valid assertion_error
  modify (λ c. record c {
    block_table = put c.block_table req_id page_indices;
    base = record c.base { req_id_to_seq_len = put c.base.req_id_to_seq_len req_id prefix_length };
  })

unfoldable pub realloc : ℕ → Paged → Paged
realloc num_blocks c =
    let n = min num_blocks c.max_num_blocks in
    record c { num_blocks = n; free_blocks = range_from 0 n }

-- `get_page_indices`
abbrev pub get_page_indices : Paged → String → List ℕ
get_page_indices c req_id = get_default c.block_table req_id []
