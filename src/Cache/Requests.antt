-- ===== src/Cache/Requests.antt =====
-- chitu/cache_manager.py, `KVCacheManagerBase`: the sequence length of each request in the cache,
-- and the batch that is being run.
use chitu.Base.{
  ℕ, ◌+◌, Option, none, some, String, List, [], ◌∷◌, map, ltb, if◌then◌else◌, Dict, get, put,
  remove, get_default, has, Exec, Result, ok, raise, key_error, ◌>>=◌, ◌>>◌, modify, gets, pure,
  assert, string_eq,
}
use chitu.Cache.SeqLens.{BatchedSeqLenDelta, of_list, delta_copy_from_list, delta_copy_from}

pub record Requests : Type 0 where
  pub req_id_to_seq_len : Dict String ℕ
  pub curr_req_ids : Option (List String)
  pub seq_len_delta : BatchedSeqLenDelta
  pub mtp_seq_len_delta : BatchedSeqLenDelta
  pub mtp_size : ℕ

abbrev pub on_seq_len_delta : Exec BatchedSeqLenDelta (Unit {0}) → Exec Requests (Unit {0})
on_seq_len_delta m r = ((m r.seq_len_delta).0, record r { seq_len_delta = (m r.seq_len_delta).1 })

abbrev on_mtp_seq_len_delta : Exec BatchedSeqLenDelta (Unit {0}) → Exec Requests (Unit {0})
on_mtp_seq_len_delta m r =
    ((m r.mtp_seq_len_delta).0, record r { mtp_seq_len_delta = (m r.mtp_seq_len_delta).1 })

-- [self.req_id_to_seq_len.get(req_id, 0) for req_id in req_ids]
unfoldable pub lens_or_zero : Dict String ℕ → List String → List ℕ
lens_or_zero lens [] = []
lens_or_zero lens (r ∷ rs) = get_default lens r 0 ∷ lens_or_zero lens rs

-- [self.req_id_to_seq_len.get(req_id, 0) + d for req_id, d in zip(req_ids, delta_seq_len)]
unfoldable pub next_lens : Dict String ℕ → List String → List ℕ → List ℕ
next_lens lens (r ∷ rs) (d ∷ ds) = (get_default lens r 0 + d) ∷ next_lens lens rs ds
next_lens lens rs ds = []

-- for req_id, seq_len in zip(req_ids, lens): self.req_id_to_seq_len[req_id] = seq_len
unfoldable pub store_lens : List String → List ℕ → Dict String ℕ → Dict String ℕ
store_lens (r ∷ rs) (n ∷ ns) lens = store_lens rs ns (put lens r n)
store_lens rs ns lens = lens

unfoldable pub base_prepare_cache_prefill : List String → List ℕ → Exec Requests (Unit {0})
base_prepare_cache_prefill req_ids delta_seq_len = do
  modify (λ r. record r { curr_req_ids = some req_ids })
  lens ← gets (λ r. r.req_id_to_seq_len)
  let prev = of_list (lens_or_zero lens req_ids)
  let next = of_list (next_lens lens req_ids delta_seq_len)
  on_seq_len_delta (delta_copy_from prev next)
  mtp_size ← gets (λ r. r.mtp_size)
  if ltb 1 mtp_size then on_mtp_seq_len_delta (delta_copy_from prev next) else pure tt
  modify
      (λ r. record r { req_id_to_seq_len = store_lens req_ids next.lens_list r.req_id_to_seq_len })

abbrev add_len : ℕ → Option (List ℕ) → Option (List ℕ)
add_len n none = none
add_len n (some ns) = some (n ∷ ns)

-- [self.req_id_to_seq_len[req_id] for req_id in req_ids], or a `KeyError`
unfoldable pub known_lens : Dict String ℕ → List String → Option (List ℕ)
known_lens lens [] = some []
known_lens lens (r ∷ rs) = elim (get lens r) [
  | none ↦ none
  | some n ↦ add_len n (known_lens lens rs)
]

-- for req_id in req_ids: self.req_id_to_seq_len[req_id] += self.mtp_size
unfoldable pub lengthen : List String → ℕ → Dict String ℕ → Dict String ℕ
lengthen [] k lens = lens
lengthen (r ∷ rs) k lens = lengthen rs k (put lens r (get_default lens r 0 + k))

abbrev or_key_error {ℓ} : {A : Type ℓ} → Option A → Result A
or_key_error none = raise key_error
or_key_error (some a) = ok a

unfoldable pub base_prepare_cache_decode : List String → Exec Requests (Unit {0})
base_prepare_cache_decode req_ids = do
  modify (λ r. record r { curr_req_ids = some req_ids })
  old ← (λ r. (or_key_error (known_lens r.req_id_to_seq_len req_ids), r))
  k ← gets (λ r. r.mtp_size)
  on_seq_len_delta (delta_copy_from_list old (map (λ n. n + k) old))
  modify (λ r. record r { req_id_to_seq_len = lengthen req_ids k r.req_id_to_seq_len })

-- `finalize_cache_all_prefill` and `finalize_cache_single_decode`
unfoldable pub base_finalize_cache_step : Exec Requests (Unit {0})
base_finalize_cache_step = modify (λ r. record r { curr_req_ids = none })

unfoldable pub base_finalize_cache_all_decode : String → Exec Requests (Unit {0})
base_finalize_cache_all_decode req_id = do
  known ← gets (λ r. has r.req_id_to_seq_len req_id)
  assert known key_error
  modify (λ r. record r { req_id_to_seq_len = remove r.req_id_to_seq_len req_id })
