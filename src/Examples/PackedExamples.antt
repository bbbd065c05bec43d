-- ===== src/Examples/PackedExamples.antt =====
-- A batch on its way to the other ranks.
use chitu.Base.{◌≡◌, refl, some, none, List, [], ◌∷◌, arith, true, false, ok}
use chitu.Task.{TaskType}
use chitu.Packed.Ids.{ℤ, pos, negsuc, Text, req_encode, req_decode}
use chitu.Packed.Payload.{PayloadType}
use chitu.Packed.{Packed, encode_all, serialize, deserialize}
use chitu.Packed.RoundTrip.Decode.{announced_decode, deserialize-serialize_decode}
use chitu.Packed.RoundTrip.{negatives, positives, announced, deserialize-serialize_prefill}

-- "x_0a1f" and "ff"
abbrev ids : List Text
ids = (120 ∷ 95 ∷ 48 ∷ 97 ∷ 49 ∷ 102 ∷ []) ∷ (102 ∷ 102 ∷ []) ∷ []

-- The other ranks know the first one as "a1f".
shorter : (req_decode (pos 2591)).0 ≡ 97 ∷ 49 ∷ 102 ∷ []
unfolding req_decode chitu.Packed.Ids.hex_from
shorter = refl

-- The id of eight zeros becomes the number that ends the list.
all_zeros :
    req_encode (some TaskType.prefill) (48 ∷ 48 ∷ 48 ∷ 48 ∷ 48 ∷ 48 ∷ 48 ∷ 48 ∷ []) ≡ ok (pos 0)
unfolding req_encode chitu.Packed.Ids.int_from
all_zeros = refl

abbrev batch : Packed
batch = record {
  num_tasks = 2;
  task_ids = ids;
  req_ids = ids;
  task_type = some TaskType.prefill;
  tokens = (1 ∷ 2 ∷ 3 ∷ []) ∷ (4 ∷ []) ∷ [];
  payload_type = PayloadType.prefill;
  num_tokens = 4;
  has_outputs = false ∷ true ∷ [];
  has_model_run = [];
}

numbers : encode_all (some TaskType.prefill) ids ≡ ok (positives (2590 ∷ 254 ∷ []))
unfolding encode_all req_encode chitu.Packed.Ids.int_from
numbers = refl

deserialize-serialize_prefill_example :
    (t : List ℤ) × (serialize 4 (some 1) batch ≡ ok t)
    × (deserialize 4 t (some (pos 0)) ≡ ok (announced batch (2590 ∷ 254 ∷ []), some (pos 1)))
deserialize-serialize_prefill_example =
    deserialize-serialize_prefill 4 (some 1) (some (pos 0)) batch (2590 ∷ 254 ∷ []) refl refl
      numbers refl refl refl (omega arith)

abbrev decode_batch : Packed
decode_batch = record batch {
  task_type = some TaskType.decode;
  tokens = [];
  payload_type = PayloadType.decode;
  num_tokens = 2;
  has_outputs = [];
  has_model_run = true ∷ false ∷ [];
}

negative_numbers : encode_all (some TaskType.decode) ids ≡ ok (negatives (2590 ∷ 254 ∷ []))
unfolding encode_all req_encode chitu.Packed.Ids.int_from
negative_numbers = refl

deserialize-serialize_decode_example :
    (t : List ℤ) × (serialize 4 none decode_batch ≡ ok t)
    × (deserialize 4 t none ≡ ok (announced_decode decode_batch (2590 ∷ 254 ∷ []), none))
deserialize-serialize_decode_example =
    deserialize-serialize_decode 4 none none decode_batch (2590 ∷ 254 ∷ []) refl refl
      negative_numbers refl refl (omega arith)
