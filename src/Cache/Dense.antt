-- ===== src/Cache/Dense.antt =====
-- chitu/cache_manager.py, `DenseKVCacheManager`: a slot of the cache for each request. What a slot of
-- the buffers holds, over all layers and tensors, is one value of a parameter type; the model
-- that writes it is outside, and so are the timers.
pub mod Searches
pub mod Moves
pub mod Slotted
pub mod Release
use chitu.Base.{
  ℕ, zero, suc, ◌+◌, ◌-◌, ◌≤◌, Bool, true, false, ◌&&◌, ◌||◌, not, Option, none, some, String, List,
  [], ◌∷◌, ltb, leb, nat_beq, ◌==◌, if◌then◌else◌, keep, length, get_elem?, get_or, set, replicate,
  Dict, get, put, remove, has, Exec, Result, ok, raise, index_error, key_error, assertion_error,
  ◌>>=◌, ◌>>◌, modify, gets, pure, throw, lift, assert, string_eq, nat_eq,
}
use chitu.Cache.Requests.{
  Requests, base_prepare_cache_prefill, base_prepare_cache_decode, base_finalize_cache_all_decode,
}
use chitu.Cache.Slots.{SlotHandle, get_current_slot_start_end_idx}

pub record Dense (V : Type 0) : Type 0 where
  pub base : Requests
  pub num_hot_req : ℕ
  pub slot_availability : List Bool
  pub hot_reqs : List (Option String)
  pub req2slot : Dict String ℕ
  pub kv_buffer : List V
  -- the first slot of the view on the buffers, and its number of slots
  pub prepared_cache : ℕ × ℕ
  pub slot_handle : Option SlotHandle

-- The first key with a value: next((k for k, v in d.items() if v == n), None)
abbrev pub key_of : Dict String ℕ → ℕ → Option String
key_of [] n = none
key_of ((k, v) ∷ d) n = if nat_beq v n then some k else key_of d n

-- hot_reqs.index(req_id), if it is there
abbrev pub is_request : String → Option String → Bool
is_request req_id none = false
is_request req_id (some r) = req_id == r

abbrev pub shift_found : Option ℕ → Option ℕ
shift_found none = none
shift_found (some i) = some (suc i)

abbrev pub slot_of : String → List (Option String) → Option ℕ
slot_of req_id [] = none
slot_of req_id (h ∷ hs) = if is_request req_id h then some 0 else shift_found (slot_of req_id hs)

-- The `while` loop over the slots from `slot_id` on, `left` of them; it looks up availability.
abbrev pub next_free : List Bool → ℕ → ℕ → Result ℕ
next_free avail slot_id zero = raise assertion_error
next_free avail slot_id (suc left) =
    let later = next_free avail (suc slot_id) left in
    elim (get_elem? avail slot_id) [
      | none ↦ raise index_error
      | some free ↦ if free then ok slot_id else later
    ]

unfoldable pub start_and_end : Option SlotHandle → ℕ → Result (ℕ × ℕ)
unfolding get_current_slot_start_end_idx
start_and_end none n = ok (0, n)
start_and_end (some h) n = get_current_slot_start_end_idx h

-- req_ids[0], and the slot of a request
abbrev pub first_slot : List String → Dict String ℕ → Result ℕ
first_slot [] req2slot = raise index_error
first_slot (r ∷ rs) req2slot = elim (get req2slot r) [ none ↦ raise key_error | some i ↦ ok i ]

-- The end of the micro batch that a slot is in, or 0.
abbrev pub end_of : List ℕ → ℕ → ℕ
end_of [] slot_id = 0
end_of (idx ∷ rest) slot_id = if ltb slot_id idx then idx else end_of rest slot_id

-- for idx in range(end_idx - 1, slot_id, -1), with `n` numbers left: the first that is taken.
abbrev pub last_taken : List Bool → ℕ → ℕ → Result (Option ℕ)
last_taken avail slot_id zero = ok none
last_taken avail slot_id (suc n) =
    let earlier = last_taken avail slot_id n in
    elim (get_elem? avail (slot_id + suc n)) [
      | none ↦ raise index_error
      | some free ↦ if free then earlier else ok (some (slot_id + suc n))
    ]

-- The generator over range(i, num_hot_req), with `n` numbers left: a taken slot before a free one
-- or the end.
abbrev pub end_of_run : List Bool → ℕ → ℕ → ℕ → Option ℕ
end_of_run avail num_hot_req i zero = none
end_of_run avail num_hot_req i (suc n) =
    let later = end_of_run avail num_hot_req (suc i) n in
    if not (get_or avail i true) && (leb num_hot_req (i + 1) || get_or avail (i + 1) false)
    then some i
    else later

abbrev pub slot_last_id : Option SlotHandle → List Bool → ℕ → ℕ → Result (Option ℕ)
slot_last_id none avail num_hot_req slot_id =
    ok (end_of_run avail num_hot_req (slot_id + 1) (num_hot_req - (slot_id + 1)))
slot_last_id (some h) avail num_hot_req slot_id =
    if ltb slot_id (end_of h.slot_end_idx slot_id)
    then last_taken avail slot_id (end_of h.slot_end_idx slot_id - 1 - slot_id)
    else raise assertion_error

module _ {V : Type 0} where
  unfoldable pub make : V → Requests → ℕ → Option SlotHandle → Dense V
  make zeros base num_hot_req slot_handle = record {
    base = base;
    num_hot_req = num_hot_req;
    slot_availability = replicate num_hot_req true;
    hot_reqs = replicate num_hot_req none;
    req2slot = [];
    kv_buffer = replicate num_hot_req zeros;
    prepared_cache = (0, 0);
    slot_handle = slot_handle;
  }

  abbrev pub on_base : Exec Requests (Unit {0}) → Exec (Dense V) (Unit {0})
  on_base m d = ((m d.base).0, record d { base = (m d.base).1 })

  abbrev pub num_free_blocks : Dense V → ℕ
  num_free_blocks d = length (keep (λ b. b) d.slot_availability)

  abbrev pub num_used_blocks : Dense V → ℕ
  num_used_blocks d = length (keep not d.slot_availability)

  abbrev pub get_start_and_end_idx : Exec (Dense V) (ℕ × ℕ)
  get_start_and_end_idx d = (start_and_end d.slot_handle d.num_hot_req, d)

  -- A request takes a slot.
  unfoldable pub take_slot : String → ℕ → Dense V → Dense V
  take_slot req_id slot_id d = record d {
    req2slot = put d.req2slot req_id slot_id;
    slot_availability = set d.slot_availability slot_id false;
    hot_reqs = set d.hot_reqs slot_id (some req_id);
  }

  -- One turn of the loop of `prepare_cache_prefill`: the slot from which the next one goes on.
  unfoldable pub take_next : Bool → String → ℕ → ℕ → Exec (Dense V) ℕ
  unfolding take_slot
  take_next true r slot_id end_idx = pure slot_id
  take_next false r slot_id end_idx = do
    found ← (λ d. (next_free d.slot_availability slot_id (end_idx - slot_id), d))
    modify (take_slot r found)
    pure (suc found)

  unfoldable pub allocate : List String → ℕ → ℕ → Exec (Dense V) (Unit {0})
  unfolding take_next
  allocate [] slot_id end_idx = pure tt
  allocate (r ∷ rs) slot_id end_idx = do
    known ← gets (λ d. has d.req2slot r)
    next ← take_next known r slot_id end_idx
    allocate rs next end_idx

  abbrev pub check_view : List String → ℕ → Exec (Dense V) (Unit {0})
  check_view req_ids start_pos = do
    n ← gets (λ d. d.num_hot_req)
    assert (leb (start_pos + length req_ids) n) assertion_error
    modify (λ d. record d { prepared_cache = (start_pos, length req_ids) })

  unfoldable pub prepare_cache_prefill : List String → List ℕ → Exec (Dense V) (Unit {0})
  unfolding base_prepare_cache_prefill allocate
  prepare_cache_prefill req_ids delta_seq_len = do
    on_base (base_prepare_cache_prefill req_ids delta_seq_len)
    range ← get_start_and_end_idx
    allocate req_ids range.0 range.1
    start_pos ← (λ d. (first_slot req_ids d.req2slot, d))
    check_view req_ids start_pos

  unfoldable pub prepare_cache_decode : List String → Exec (Dense V) (Unit {0})
  unfolding base_prepare_cache_decode
  prepare_cache_decode req_ids = do
    on_base (base_prepare_cache_decode req_ids)
    range ← get_start_and_end_idx
    check_view req_ids range.0

  -- The request of the last slot moves to the slot that gets free.
  abbrev pub rename_slot : Option String → ℕ → Dense V → Dense V
  rename_slot none slot_id d = d
  rename_slot (some req_key) slot_id d = record d {
    req2slot = put d.req2slot req_key slot_id;
    hot_reqs = set d.hot_reqs slot_id (some req_key);
  }

  -- What the last slot holds moves to the slot that gets free.
  abbrev pub move_last : V → String → ℕ → ℕ → Dense V → Dense V
  move_last zeros req_id slot_id last d =
      let e = rename_slot (key_of d.req2slot last) slot_id d in
      record e {
        kv_buffer = set (set d.kv_buffer slot_id (get_or d.kv_buffer last zeros)) last zeros;
        hot_reqs = set e.hot_reqs last none;
        slot_availability = set d.slot_availability last true;
        req2slot = remove e.req2slot req_id;
      }

  -- A slot gets free with none behind it to move.
  abbrev pub drop_slot : V → String → ℕ → Exec (Dense V) (Unit {0})
  drop_slot zeros req_id slot_id = do
    modify (λ d. record d {
      hot_reqs = set d.hot_reqs slot_id none;
      slot_availability = set d.slot_availability slot_id true;
    })
    known ← gets (λ d. has d.req2slot req_id)
    assert known key_error
    modify (λ d. record d {
      req2slot = remove d.req2slot req_id;
      kv_buffer = set d.kv_buffer slot_id zeros;
    })

  abbrev pub free_slot : V → String → ℕ → Option ℕ → Exec (Dense V) (Unit {0})
  free_slot zeros req_id slot_id none = drop_slot zeros req_id slot_id
  free_slot zeros req_id slot_id (some last) = modify (move_last zeros req_id slot_id last)

  unfoldable pub finalize_at : V → String → Option ℕ → Exec (Dense V) (Unit {0})
  unfolding base_finalize_cache_all_decode
  finalize_at zeros req_id none = pure tt
  finalize_at zeros req_id (some slot_id) = do
    last ← (λ d. (slot_last_id d.slot_handle d.slot_availability d.num_hot_req slot_id, d))
    free_slot zeros req_id slot_id last
    on_base (base_finalize_cache_all_decode req_id)

  unfoldable pub finalize_cache_all_decode : V → String → Exec (Dense V) (Unit {0})
  unfolding finalize_at
  finalize_cache_all_decode zeros req_id d = finalize_at zeros req_id (slot_of req_id d.hot_reqs) d
