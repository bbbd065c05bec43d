-- ===== src/Packed/RoundTrip/Decode.antt =====
-- What the other ranks read of the tensor of a decode batch.
use chitu.Base.{
  ℕ, zero, suc, ◌+◌, ◌≤◌, ◌<◌, ◌≡◌, refl, sym, ap, ◌∙◌, Bool, Option, some, List, [], ◌∷◌, arith,
  length, get_elem?, length-map, map, ok,
}
use chitu.Task.{TaskType}
use chitu.Packed.Ids.{ℤ, pos, negsuc, hex, req_decode}
use chitu.Packed.Payload.{PayloadType, payload_of_value, is_empty_payload, normal_type}
use chitu.Packed.Layout.{Holds, Holds-head, Holds-tail, slot_or_zero}
use chitu.Packed.{Packed, bit, encode_all, serialize, read_rows, deserialize}
use chitu.Packed.Sent.{
  sent_decode, decode_ids, decode_end, decode_details, decode_payload, decode_slot, scattered,
}
use chitu.Packed.RoundTrip.{negatives, texts, at_some, bit-back, received, receive_slot-received}

module _ (m : ℕ) (t : List ℤ) where
  decode_rows :
      (it k : ℕ) (ns : List ℕ) (runs : List Bool)
      → Holds t (2 + it) (negatives ns)
      → (length ns < k → get_elem? t (2 + (it + length ns)) ≡ some (pos 0))
      → length ns ≤ k
      → Holds t (2 + m + it) (map bit runs)
      → length runs ≡ length ns
      → read_rows m t it k ≡ ok (record { ids = texts ns; lens = []; outputs = []; runs = runs })
  unfolding read_rows req_decode
  decode_rows it zero [] [] x e l a c = refl
  decode_rows it (suc k) [] [] x e l a c =
      rw (at_some t (2 + it) (pos 0) (ap (get_elem? t) (omega arith) ∙ e (omega arith))) refl
  decode_rows it zero (n ∷ ns) runs x e l a c = absurd (omega arith)
  decode_rows it (suc k) (n ∷ ns) (o ∷ runs) x e l a c =
      let first =
        at_some t (2 + it) (negsuc n) (Holds-head t (2 + it) (negsuc n) (negatives ns) x) in
      let run =
        at_some t (2 + m + it) (bit o) (Holds-head t (2 + m + it) (bit o) (map bit runs) a) in
      let rest =
        decode_rows (suc it) k ns runs
          (Holds-tail t (2 + it) (2 + suc it) (negsuc n) (negatives ns) (omega arith) x)
          (λ q. ap (get_elem? t) (omega arith) ∙ e (omega arith)) (omega arith)
          (Holds-tail t (2 + m + it) (2 + m + suc it) (bit o) (map bit runs) (omega arith) a)
          (omega arith) in
      rw (first, run, rest, bit-back o) refl
  decode_rows it k (n ∷ ns) [] x e l a c = absurd (omega arith)
  decode_rows it k [] (o ∷ runs) x e l a c = absurd (omega arith)

-- The decode batch as the other ranks have it.
abbrev pub announced_decode : Packed → List ℕ → Packed
announced_decode p ns = record p {
  task_ids = texts ns;
  req_ids = texts ns;
  tokens = [];
  num_tokens = length ns;
  has_outputs = [];
}

decode_serialized :
    (m : ℕ) (slot : Option ℕ) (p : Packed) (ns : List ℕ)
    → (fit : length (negatives ns) ≤ m)
    → (l : length (map bit p.has_model_run) ≡ length (negatives ns))
    → p.payload_type ≡ PayloadType.decode
    → p.task_type ≡ some TaskType.decode
    → encode_all (some TaskType.decode) p.task_ids ≡ ok (negatives ns)
    → length (negatives ns) ≡ p.num_tasks
    → serialize m slot p
      ≡ ok (
          sent_decode m 2 slot
            (negatives ns)
            (map bit p.has_model_run)
            (map bit p.has_model_run)
            fit
            l
            l)
unfolding serialize is_empty_payload
decode_serialized m slot p ns fit l hp ht he hn =
    let (a, b, c) =
      scattered m 2 slot (negatives ns) (map bit p.has_model_run) (map bit p.has_model_run) fit l l
        p.num_tasks hn in
    rw (hp, ht) (rw he (rw a (rw b refl)))

decode_deserialized :
    (m : ℕ) (t : List ℤ) (slot : Option ℕ) (mine : Option ℤ) (p : Packed) (ns : List ℕ)
    → p.payload_type ≡ PayloadType.decode
    → p.task_type ≡ some TaskType.decode
    → p.num_tasks ≡ length ns
    → get_elem? t 0 ≡ some (pos 2)
    → get_elem? t 1 ≡ some (pos (slot_or_zero slot))
    → read_rows m t 0 m
      ≡ ok (record { ids = texts ns; lens = []; outputs = []; runs = p.has_model_run })
    → deserialize m t mine ≡ ok (announced_decode p ns, received slot mine)
unfolding deserialize payload_of_value is_empty_payload normal_type
decode_deserialized m t slot mine p ns hp ht hn first second rows =
    rw
      (
        at_some t 0 (pos 2) first,
        rows,
        receive_slot-received t slot mine second,
        length-map ns (λ n. hex (suc n)),
      )
      (rw (hn, ht, hp) refl)

-- What the main rank serializes of a decode batch, and every other rank deserializes: if the ids
-- encode without an error to the negative numbers -(n + 1) of `ns`, there are as many flags as ids,
-- and at most the configured number, then serializing returns a tensor, and deserializing that
-- returns the batch with the same flags, the ids in their shortest form, and one token for each task,
-- and sets the index of the rank's slot handle to the one announced.
pub deserialize-serialize_decode :
    (m : ℕ) (slot : Option ℕ) (mine : Option ℤ) (p : Packed) (ns : List ℕ)
    → p.payload_type ≡ PayloadType.decode
    → p.task_type ≡ some TaskType.decode
    → encode_all (some TaskType.decode) p.task_ids ≡ ok (negatives ns)
    → p.num_tasks ≡ length ns
    → length p.has_model_run ≡ length ns
    → length ns ≤ m
    → (t : List ℤ) × (serialize m slot p ≡ ok t)
      × (deserialize m t mine ≡ ok (announced_decode p ns, received slot mine))
deserialize-serialize_decode m slot mine p ns hp ht he hn hr fit =
    let flags = map bit p.has_model_run in
    let n : length (negatives ns) ≡ length ns = length-map ns negsuc in
    let f : length (negatives ns) ≤ m = omega (arith, n) in
    let l : length flags ≡ length (negatives ns) =
      omega (arith, length-map p.has_model_run bit, n) in
    let t = sent_decode m 2 slot (negatives ns) flags flags f l l in
    (
      t,
      decode_serialized m slot p ns f l hp ht he (n ∙ sym hn),
      decode_deserialized m t slot mine p ns hp ht hn
          (decode_payload m 2 slot (negatives ns) flags flags f l l)
          (decode_slot m 2 slot (negatives ns) flags flags f l l)
          (decode_rows m t 0 m ns p.has_model_run
            (decode_ids m 2 slot (negatives ns) flags flags f l l)
            (λ q.
              ap (get_elem? t) (omega (arith, n))
              ∙ decode_end m 2 slot (negatives ns) flags flags f l l (omega (arith, n)))
            fit (decode_details m 2 slot (negatives ns) flags flags f l l) hr),
    )
