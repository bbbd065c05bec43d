-- ===== src/Examples/DenseExamples.antt =====
-- A dense cache of four slots, three of which are taken.
use chitu.Base.{
  ℕ, ◌≡◌, string_eq, refl, Bool, true, false, Option, none, some, String, List, [], ◌∷◌, length,
  get, Result, get_elem?, arith,
}
use chitu.Cache.Slots.{split_slots}
use chitu.Cache.Slots.Shares.{split_slots-share}
use chitu.Cache.Requests.{Requests}
use chitu.Cache.SeqLens.{BatchedSeqLen}
use chitu.Cache.Dense.{Dense, make, prepare_cache_prefill, finalize_cache_all_decode}
use chitu.Cache.Dense.Slotted.{
  IsSlotted, make-IsSlotted, allocate-IsSlotted, prepare_cache_prefill-IsSlotted,
}
use chitu.Cache.Dense.Release.{IsEnded, finalize_cache_all_decode-IsEnded}

abbrev lens : BatchedSeqLen
lens = record { lens_list = []; lens_tensor = []; max_batch_size = 4 }

abbrev requests : Requests
requests = record {
  req_id_to_seq_len = ("a", 3) ∷ ("b", 5) ∷ ("c", 2) ∷ [];
  curr_req_ids = none;
  seq_len_delta = record { old = lens; new = lens; delta = lens; is_classic_decoding = false };
  mtp_seq_len_delta = record { old = lens; new = lens; delta = lens; is_classic_decoding = false };
  mtp_size = 1;
}

abbrev three : List String
three = "a" ∷ "b" ∷ "c" ∷ []

abbrev empty_cache : Dense String
unfolding make
empty_cache = make "" requests 4 none

-- What a slot holds is told by a word.
abbrev cache : Dense String
cache = record {
  base = requests;
  num_hot_req = 4;
  slot_availability = false ∷ false ∷ false ∷ true ∷ [];
  hot_reqs = some "a" ∷ some "b" ∷ some "c" ∷ none ∷ [];
  req2slot = ("a", 0) ∷ ("b", 1) ∷ ("c", 2) ∷ [];
  kv_buffer = "of a" ∷ "of b" ∷ "of c" ∷ "" ∷ [];
  prepared_cache = (0, 3);
  slot_handle = none;
}

cache-IsSlotted : IsSlotted cache
unfolding empty_cache make chitu.Cache.Dense.allocate get chitu.Base.put
cache-IsSlotted =
    allocate-IsSlotted three 0 4 empty_cache (make-IsSlotted {V = String} "" requests 4 none)

prepare_cache_prefill-IsSlotted_example :
    IsSlotted {V = String} (prepare_cache_prefill ("d" ∷ []) (7 ∷ []) cache).1
prepare_cache_prefill-IsSlotted_example =
    prepare_cache_prefill-IsSlotted ("d" ∷ []) (7 ∷ []) cache cache-IsSlotted

finalize_cache_all_decode-IsEnded_example :
    IsEnded "" cache "a" (finalize_cache_all_decode "" "a" cache)
finalize_cache_all_decode-IsEnded_example =
    finalize_cache_all_decode-IsEnded "" "a" cache cache-IsSlotted refl

-- The last request has moved to the slot that got free.
c_moved : get (finalize_cache_all_decode "" "a" cache).1.req2slot "c" ≡ some 0
unfolding get finalize_cache_all_decode chitu.Base.remove chitu.Base.put
c_moved = refl

split_slots-share_example : split_slots 10 4 ≡ 3 ∷ 3 ∷ 2 ∷ 2 ∷ []
split_slots-share_example = split_slots-share 10 4 (omega arith)
