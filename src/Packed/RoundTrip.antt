-- ===== src/Packed/RoundTrip.antt =====
-- What the other ranks read of the tensor that the main rank sends.
pub mod Decode
use chitu.Base.{
  ℕ, zero, suc, ◌+◌, ◌*◌, ◌≤◌, ◌<◌, ◌≡◌, refl, sym, ap, ◌∙◌, Bool, true, false, Option, none, some,
  List, [], ◌∷◌, arith, length, get_elem?, replicate, length-replicate, length-map, map, sum, ok,
  not,
}
use chitu.Task.{TaskType}
use chitu.Packed.Ids.{ℤ, pos, negsuc, Text, hex, req_decode}
use chitu.Packed.Payload.{PayloadType, payload_of_value, is_empty_payload, normal_type}
use chitu.Packed.Layout.{Holds, Holds-head, Holds-tail, slot_or_zero}
use chitu.Packed.{
  Packed, bit, encode_all, lens_of, serialize, at, receive_slot, read_rows, deserialize, is_zero,
}
use chitu.Packed.Sent.{
  sent, sent_ids, sent_end, sent_lens, sent_outputs, sent_payload, sent_slot, scattered,
}

-- The ids of prefill tasks are positive numbers, those of other tasks negative ones.
abbrev pub positives : List ℕ → List ℤ
positives = map (λ n. pos (suc n))

abbrev pub negatives : List ℕ → List ℤ
negatives = map negsuc

abbrev pub texts : List ℕ → List Text
texts = map (λ n. hex (suc n))

pub at_some : (t : List ℤ) (i : ℕ) (x : ℤ) → get_elem? t i ≡ some x → at t i ≡ ok x
unfolding at
at_some t i x h = rw h refl

pub bit-back : (b : Bool) → not (is_zero (bit b)) ≡ b
bit-back true = refl
bit-back false = refl

module _ (m : ℕ) (t : List ℤ) where
  prefill_rows :
      (it k : ℕ) (ns lens : List ℕ) (outs : List Bool)
      → Holds t (2 + it) (positives ns)
      → (length ns < k → get_elem? t (2 + (it + length ns)) ≡ some (pos 0))
      → length ns ≤ k
      → Holds t (2 + m + it) (map pos lens)
      → Holds t (2 + 2 * m + it) (map bit outs)
      → length lens ≡ length ns
      → length outs ≡ length ns
      → read_rows m t it k ≡ ok (record { ids = texts ns; lens = lens; outputs = outs; runs = [] })
  unfolding read_rows req_decode
  prefill_rows it zero [] [] [] x e l a b c d = refl
  prefill_rows it (suc k) [] [] [] x e l a b c d =
      rw (at_some t (2 + it) (pos 0) (ap (get_elem? t) (omega arith) ∙ e (omega arith))) refl
  prefill_rows it zero (n ∷ ns) lens outs x e l a b c d = absurd (omega arith)
  prefill_rows it (suc k) (n ∷ ns) (s ∷ lens) (o ∷ outs) x e l a b c d =
      let first =
        at_some t (2 + it) (pos (suc n)) (Holds-head t (2 + it) (pos (suc n)) (positives ns) x) in
      let len =
        at_some t (2 + m + it) (pos s) (Holds-head t (2 + m + it) (pos s) (map pos lens) a) in
      let out =
        at_some t (2 + 2 * m + it) (bit o)
          (Holds-head t (2 + 2 * m + it) (bit o) (map bit outs) b) in
      let rest =
        prefill_rows (suc it) k ns lens outs
          (Holds-tail t (2 + it) (2 + suc it) (pos (suc n)) (positives ns) (omega arith) x)
          (λ q. ap (get_elem? t) (omega arith) ∙ e (omega arith)) (omega arith)
          (Holds-tail t (2 + m + it) (2 + m + suc it) (pos s) (map pos lens) (omega arith) a)
          (Holds-tail t (2 + 2 * m + it) (2 + 2 * m + suc it) (bit o) (map bit outs) (omega arith)
            b)
          (omega arith) (omega arith) in
      rw (first, len, out, rest, bit-back o) refl
  prefill_rows it k (n ∷ ns) [] outs x e l a b c d = absurd (omega arith)
  prefill_rows it k (n ∷ ns) (s ∷ lens) [] x e l a b c d = absurd (omega arith)
  prefill_rows it k [] (s ∷ lens) outs x e l a b c d = absurd (omega arith)
  prefill_rows it k [] [] (o ∷ outs) x e l a b c d = absurd (omega arith)

length-lens : (tokens : List (List ℕ)) → map pos (map length tokens) ≡ lens_of tokens
length-lens [] = refl
length-lens (ts ∷ tokens) = ap (λ l. pos (length ts) ∷ l) (length-lens tokens)

abbrev pub zeros : ℕ → List ℕ
zeros n = replicate n 0

length-zeros : (ns : List ℕ) → map length (map zeros ns) ≡ ns
length-zeros [] = refl
length-zeros (n ∷ ns) =
    ap (λ k. k ∷ map length (map zeros ns)) (length-replicate n 0)
    ∙ ap (λ l. n ∷ l) (length-zeros ns)

-- The batch as the other ranks have it: the ids without a prefix and in their shortest form, and the
-- tokens' number, not the tokens.
abbrev pub announced : Packed → List ℕ → Packed
announced p ns = record p {
  task_ids = texts ns;
  req_ids = texts ns;
  tokens = map zeros (map length p.tokens);
  num_tokens = sum (map length p.tokens);
  has_model_run = [];
}

prefill_serialized :
    (m : ℕ) (slot : Option ℕ) (p : Packed) (ns : List ℕ)
    → (fit : length (positives ns) ≤ m) → (l : length (lens_of p.tokens) ≡ length (positives ns))
    → (o : length (map bit p.has_outputs) ≡ length (positives ns))
    → p.payload_type ≡ PayloadType.prefill
    → p.task_type ≡ some TaskType.prefill
    → encode_all (some TaskType.prefill) p.task_ids ≡ ok (positives ns)
    → length (positives ns) ≡ p.num_tasks
    → serialize m slot p
      ≡ ok (sent m 1 slot (positives ns) (lens_of p.tokens) (map bit p.has_outputs) fit l o)
unfolding serialize is_empty_payload
prefill_serialized m slot p ns fit l o hp ht he hn =
    let (a, b, c) =
      scattered m 1 slot (positives ns) (lens_of p.tokens) (map bit p.has_outputs) fit l o
        p.num_tasks hn in
    rw (hp, ht) (rw he (rw a (rw b (rw c refl))))

-- The index that the slot handle of a rank, if it has one, holds afterwards.
abbrev pub received : Option ℕ → Option ℤ → Option ℤ
received slot none = none
received slot (some idx) = some (pos (slot_or_zero slot))

pub receive_slot-received :
    (t : List ℤ) (slot : Option ℕ) (mine : Option ℤ)
    → get_elem? t 1 ≡ some (pos (slot_or_zero slot))
    → receive_slot t mine ≡ ok (received slot mine)
receive_slot-received t slot none h = refl
receive_slot-received t slot (some idx) h = rw (at_some t 1 (pos (slot_or_zero slot)) h) refl

prefill_deserialized :
    (m : ℕ) (t : List ℤ) (slot : Option ℕ) (mine : Option ℤ) (p : Packed) (ns : List ℕ)
    → p.payload_type ≡ PayloadType.prefill
    → p.task_type ≡ some TaskType.prefill
    → p.num_tasks ≡ length ns
    → get_elem? t 0 ≡ some (pos 1)
    → get_elem? t 1 ≡ some (pos (slot_or_zero slot))
    → read_rows m t 0 m
      ≡ ok (record {
        ids = texts ns;
        lens = map length p.tokens;
        outputs = p.has_outputs;
        runs = [];
      })
    → deserialize m t mine ≡ ok (announced p ns, received slot mine)
unfolding deserialize payload_of_value is_empty_payload normal_type
prefill_deserialized m t slot mine p ns hp ht hn first second rows =
    rw
      (
        at_some t 0 (pos 1) first,
        rows,
        receive_slot-received t slot mine second,
        length-zeros (map length p.tokens),
        length-map ns (λ n. hex (suc n)),
      )
      (rw (hn, ht, hp) refl)

-- What the main rank serializes of a prefill batch, and every other rank deserializes: if the ids
-- encode without an error to the positive numbers suc n of `ns`, there are as many lengths and output
-- flags as ids, and at most the configured number, then serializing returns a tensor, and
-- deserializing that returns the batch with the ids in their shortest form, the flags and the number
-- of tokens of each task, and sets the index of the rank's slot handle to the one announced.
pub deserialize-serialize_prefill :
    (m : ℕ) (slot : Option ℕ) (mine : Option ℤ) (p : Packed) (ns : List ℕ)
    → p.payload_type ≡ PayloadType.prefill
    → p.task_type ≡ some TaskType.prefill
    → encode_all (some TaskType.prefill) p.task_ids ≡ ok (positives ns)
    → p.num_tasks ≡ length ns
    → length p.tokens ≡ length ns
    → length p.has_outputs ≡ length ns
    → length ns ≤ m
    → (t : List ℤ) × (serialize m slot p ≡ ok t)
      × (deserialize m t mine ≡ ok (announced p ns, received slot mine))
deserialize-serialize_prefill m slot mine p ns hp ht he hn hl ho fit =
    let n : length (positives ns) ≡ length ns = length-map ns (λ n. pos (suc n)) in
    let f : length (positives ns) ≤ m = omega (arith, n) in
    let l : length (lens_of p.tokens) ≡ length (positives ns) =
      omega (arith, length-map p.tokens (λ ts. pos (length ts)), n) in
    let o : length (map bit p.has_outputs) ≡ length (positives ns) =
      omega (arith, length-map p.has_outputs bit, n) in
    let t = sent m 1 slot (positives ns) (lens_of p.tokens) (map bit p.has_outputs) f l o in
    (
      t,
      prefill_serialized m slot p ns f l o hp ht he (n ∙ sym hn),
      prefill_deserialized m t slot mine p ns hp ht hn
          (sent_payload m 1 slot (positives ns) (lens_of p.tokens) (map bit p.has_outputs) f l o)
          (sent_slot m 1 slot (positives ns) (lens_of p.tokens) (map bit p.has_outputs) f l o)
          (prefill_rows m t 0 m ns (map length p.tokens) p.has_outputs
            (sent_ids m 1 slot (positives ns) (lens_of p.tokens) (map bit p.has_outputs) f l o)
            (λ q.
              ap (get_elem? t) (omega (arith, n))
              ∙ sent_end m 1 slot (positives ns) (lens_of p.tokens) (map bit p.has_outputs) f l o
                  (omega (arith, n)))
            fit
            (rw (length-lens p.tokens)
              (sent_lens m 1 slot (positives ns) (lens_of p.tokens) (map bit p.has_outputs) f l o))
            (sent_outputs m 1 slot (positives ns) (lens_of p.tokens) (map bit p.has_outputs) f l o)
            (omega (arith, length-map p.tokens (length {A = ℕ}))) ho),
    )
