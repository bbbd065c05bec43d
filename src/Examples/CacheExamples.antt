-- ===== src/Examples/CacheExamples.antt =====
-- The cache manager and the map of layers.
use chitu.Base.{
  ℕ, ◌+◌, ◌*◌, ◌≤◌, ◌<◌, ◌≡◌, refl, ◌↔◌, Option, none, some, String, List, [], ◌∷◌, ◌++◌, arith,
  length, take, min, get, ok, Returns, string_eq, if◌then◌else◌, ltb, Distinct, has, true, false,
  map, put, nat_beq, count,
}
use chitu.Cache.IndexMap.{
  IndexMap, list_mode, make as make_map, to_global, to_local, enumerate_into, contains, size,
}
use chitu.Cache.IndexMap.RoundTrip.{to_global-to_local, conversions_defined}
use chitu.Cache.Paged.{
  Paged, make, ceil_div, num_additional_blocks_req_need, grow_prefill, realloc,
  finalize_cache_all_decode, reserve_blocks_for_transfer, get_page_indices,
}
use chitu.Cache.Paged.Blocks.{table_count}
use chitu.Cache.Paged.Conserved.{Call, run_call, run_calls}
use chitu.Cache.Paged.Capacity.{demand, Fits, grow_prefill-Fits, ceil_div-covers}
use chitu.Cache.Paged.History.{
  IsConserved, IsUnshared, run_call-IsConserved, run_calls-IsUnshared, IsConserved→IsUnshared,
  make-IsConserved, realloc_lem,
}
use chitu.Cache.Paged.Release.{reserve-IsConserved}
use chitu.Examples.Values.{requests, fresh_cache, used_cache}

fresh-IsConserved : IsConserved fresh_cache
unfolding make
fresh-IsConserved = make-IsConserved requests 4 16 4 false none (some 6)

abbrev admit : Call
admit = Call.prefill ("a" ∷ "b" ∷ []) (5 ∷ 9 ∷ [])

-- One call too many for six blocks: it raises, and the next one returns.
abbrev history : List Call
history = admit ∷ Call.prefill ("c" ∷ []) (9 ∷ []) ∷ Call.finish "a" ∷ Call.decode ("b" ∷ []) ∷ []

admitted : Returns (run_call admit fresh_cache)
unfolding run_call chitu.Cache.Paged.prepare_cache_prefill
    chitu.Cache.Requests.base_prepare_cache_prefill chitu.Cache.SeqLens.delta_copy_from
    chitu.Cache.SeqLens.of_list chitu.Cache.Requests.lens_or_zero chitu.Cache.Requests.next_lens
    chitu.Cache.SeqLens.none_shorter get chitu.Cache.SeqLens.differences grow_prefill put
    chitu.Cache.Paged.get_free_blocks num_additional_blocks_req_need
    chitu.Cache.Paged.upd_gpu_block_table
admitted = tt

used-IsConserved : IsConserved used_cache
used-IsConserved = record { at = λ b. ground arith }

run_call-IsConserved_example : IsConserved (run_call admit fresh_cache).1
run_call-IsConserved_example = run_call-IsConserved admit fresh_cache fresh-IsConserved admitted

run_calls-IsUnshared_example : IsUnshared (run_calls history fresh_cache)
run_calls-IsUnshared_example =
    run_calls-IsUnshared history fresh_cache (IsConserved→IsUnshared fresh-IsConserved)

left_after_history :
    (run_calls history fresh_cache).block_table ≡ ("b", 2 ∷ 3 ∷ 4 ∷ []) ∷ ("c", []) ∷ []
unfolding run_calls run_call chitu.Cache.Paged.prepare_cache_decode
    chitu.Cache.Requests.base_prepare_cache_decode chitu.Cache.Requests.known_lens get
    finalize_cache_all_decode chitu.Cache.Paged.prepare_cache_prefill
    chitu.Cache.Requests.base_prepare_cache_prefill chitu.Cache.SeqLens.delta_copy_from
    chitu.Cache.SeqLens.of_list chitu.Cache.Requests.lens_or_zero chitu.Cache.Requests.next_lens
    chitu.Cache.SeqLens.none_shorter chitu.Cache.SeqLens.differences grow_prefill put
    chitu.Base.remove ceil_div chitu.Cache.Paged.extend_blocks
    chitu.Cache.Paged.free_req_cache_blocks chitu.Cache.Paged.get_free_block
    chitu.Cache.Paged.get_free_blocks chitu.Cache.Paged.grow chitu.Cache.Paged.grow_decode
    chitu.Cache.Paged.max_blocks_of num_additional_blocks_req_need chitu.Cache.Paged.padded_rows
    chitu.Cache.Paged.upd_gpu_block_table chitu.Cache.Requests.base_finalize_cache_all_decode
    chitu.Cache.Requests.lengthen chitu.Cache.Requests.store_lens chitu.Cache.SeqLens.all_one_longer
    chitu.Cache.SeqLens.classic_decoding chitu.Cache.SeqLens.copy_from
    chitu.Cache.SeqLens.copy_from_list chitu.Cache.SeqLens.delta_copy_from_list
    chitu.Cache.SeqLens.set_lens
left_after_history = refl

realloc_lem_example :
    ((used_cache.block_table ≡ [] → IsConserved (realloc 8 used_cache))
      × ((b : ℕ)
          → b < (realloc 8 used_cache).num_blocks
          → 0 < table_count b used_cache.block_table
          → ¬ IsUnshared (realloc 8 used_cache)))
realloc_lem_example = realloc_lem 8 used_cache

enough : demand used_cache ("a" ∷ "b" ∷ []) (9 ∷ 5 ∷ []) ≤ length used_cache.free_blocks
unfolding demand num_additional_blocks_req_need get
enough = omega arith

grow_prefill-Fits_example :
    Fits used_cache
      ("a" ∷ "b" ∷ [])
      (9 ∷ 5 ∷ [])
      (grow_prefill ("a" ∷ "b" ∷ []) (9 ∷ 5 ∷ []) used_cache)
grow_prefill-Fits_example =
    grow_prefill-Fits ("a" ∷ "b" ∷ []) (9 ∷ 5 ∷ []) used_cache (omega arith) (refl, (refl, tt))
      enough

ceil_div-covers_example : 9 ≤ 4 * ceil_div 9 4
ceil_div-covers_example = ceil_div-covers 9 4 (omega arith)

table-Distinct : Distinct used_cache.block_table
unfolding get
table-Distinct = (refl, tt)

lens-Distinct : Distinct used_cache.base.req_id_to_seq_len
unfolding get
lens-Distinct = (refl, tt)

no_blocks : get used_cache.block_table "c" ≡ none
unfolding get
no_blocks = refl

reserve-IsConserved_example :
    ((reserve_blocks_for_transfer "c" 9 used_cache).0
      ≡ ok (take (min 9 (length used_cache.free_blocks)) used_cache.free_blocks))
    × IsConserved (reserve_blocks_for_transfer "c" 9 used_cache).1
reserve-IsConserved_example = reserve-IsConserved used_cache "c" 9 no_blocks used-IsConserved

abbrev layers : IndexMap
layers = list_mode (3 ∷ 7 ∷ []) ((3, 0) ∷ (7, 1) ∷ [])

layers_made : make_map none none (some (3 ∷ 7 ∷ [])) ≡ ok layers
unfolding make_map enumerate_into put
layers_made = refl

to_global-to_local_example : (to_global layers 1 ≡ ok 7) ↔ (to_local layers 7 ≡ ok 1)
to_global-to_local_example = to_global-to_local none none (some (3 ∷ 7 ∷ [])) layers 1 7 layers_made

conversions_defined_example :
    ((contains layers 7 ≡ true) ↔ ((j : ℕ) × (to_local layers 7 ≡ ok j)))
    × ((1 < size layers) ↔ ((j : ℕ) × (to_global layers 1 ≡ ok j)))
conversions_defined_example = conversions_defined layers 1 7
