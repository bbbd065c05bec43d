-- ===== src/Packed/Sent.antt =====
-- The tensor of a prefill batch, cell by cell.
use chitu.Base.{
  ℕ, ◌+◌, ◌*◌, ◌≤◌, ◌<◌, ◌≡◌, ap, ◌∙◌, Option, some, List, arith, length, get_elem?, ok, inl, inr,
}
use chitu.Packed.Ids.{ℤ, pos}
use chitu.Packed.Layout.{
  write_outside, slot_outside, slot_inside, slot_or_zero, opened, length-opened, opened_rest,
  opened_payload, write_in, length-write, scatter-exact, Holds,
}
use chitu.Packed.{write, scatter, set_slot}

-- The tensor of a prefill batch: the ids, the lengths, and which tasks have an output.
module _ (m v : ℕ) (slot : Option ℕ) (xs ls os : List ℤ) (fit : length xs ≤ m)
    (same_l : length ls ≡ length xs) (same_o : length os ≡ length xs) where
  abbrev pub with_ids : List ℤ
  with_ids = write 2 xs (opened m v)

  abbrev pub with_lens : List ℤ
  with_lens = write (2 + m) ls with_ids

  abbrev pub with_outputs : List ℤ
  with_outputs = write (2 + 2 * m) os with_lens

  abbrev pub sent : List ℤ
  sent = set_slot slot with_outputs

  pub length-with_ids : length with_ids ≡ 2 + m * 3
  length-with_ids =
      length-write 2 xs (opened m v) (omega (arith, length-opened m v)) ∙ length-opened m v

  pub length-with_lens : length with_lens ≡ 2 + m * 3
  length-with_lens =
      length-write (2 + m) ls with_ids (omega (arith, length-with_ids)) ∙ length-with_ids

  length-with_outputs : length with_outputs ≡ 2 + m * 3
  length-with_outputs =
      length-write (2 + 2 * m) os with_lens (omega (arith, length-with_lens)) ∙ length-with_lens

  past_slot : (i : ℕ) → 2 ≤ i → get_elem? sent i ≡ get_elem? with_outputs i
  past_slot i h = slot_outside slot with_outputs i (omega (arith, length-with_outputs)) (inr h)

  sent_front : (i : ℕ) → 2 ≤ i → i < 2 + m → get_elem? sent i ≡ get_elem? with_ids i
  sent_front i h k =
      past_slot i h
      ∙ (write_outside (2 + 2 * m) os with_lens i (omega (arith, length-with_lens))
            (inl (omega arith))
          ∙ write_outside (2 + m) ls with_ids i (omega (arith, length-with_ids)) (inl k))

  pub sent_ids : Holds sent (2 + 0) xs
  sent_ids j k =
      sent_front (2 + 0 + j) (omega arith) (omega arith)
      ∙ write_in 2 xs (opened m v) (omega (arith, length-opened m v)) j k

  pub sent_end : length xs < m → get_elem? sent (2 + (0 + length xs)) ≡ some (pos 0)
  sent_end h =
      sent_front (2 + (0 + length xs)) (omega arith) (omega arith)
      ∙ (write_outside 2 xs (opened m v) (2 + (0 + length xs)) (omega (arith, length-opened m v))
            (inr (omega arith))
          ∙ opened_rest m v (2 + (0 + length xs)) (omega arith) (omega arith))

  pub sent_lens : Holds sent (2 + m + 0) ls
  sent_lens j k =
      past_slot (2 + m + 0 + j) (omega arith)
      ∙ (write_outside (2 + 2 * m) os with_lens (2 + m + 0 + j) (omega (arith, length-with_lens))
            (inl (omega arith))
          ∙ (ap (get_elem? with_lens) (omega arith)
              ∙ write_in (2 + m) ls with_ids (omega (arith, length-with_ids)) j k))

  pub sent_outputs : Holds sent (2 + 2 * m + 0) os
  sent_outputs j k =
      past_slot (2 + 2 * m + 0 + j) (omega arith)
      ∙ (ap (get_elem? with_outputs) (omega arith)
          ∙ write_in (2 + 2 * m) os with_lens (omega (arith, length-with_lens)) j k)

  pub sent_payload : get_elem? sent 0 ≡ some (pos v)
  sent_payload =
      slot_outside slot with_outputs 0 (omega (arith, length-with_outputs)) (inl (omega arith))
      ∙ (write_outside (2 + 2 * m) os with_lens 0 (omega (arith, length-with_lens))
            (inl (omega arith))
          ∙ (write_outside (2 + m) ls with_ids 0 (omega (arith, length-with_ids))
                (inl (omega arith))
              ∙ (write_outside 2 xs (opened m v) 0 (omega (arith, length-opened m v))
                    (inl (omega arith))
                  ∙ opened_payload m v)))

  no_slot : get_elem? with_lens 1 ≡ some (pos 0)
  no_slot =
      write_outside (2 + m) ls with_ids 1 (omega (arith, length-with_ids)) (inl (omega arith))
      ∙ (write_outside 2 xs (opened m v) 1 (omega (arith, length-opened m v)) (inl (omega arith))
          ∙ opened_rest m v 1 (omega arith) (omega arith))

  pub sent_slot : get_elem? sent 1 ≡ some (pos (slot_or_zero slot))
  sent_slot = slot_inside slot with_outputs (omega (arith, length-with_outputs)) (
      write_outside (2 + 2 * m) os with_lens 1 (omega (arith, length-with_lens)) (inl (omega arith))
      ∙ no_slot)

  -- A decode batch has one column of details, here `ls`.
  abbrev pub sent_decode : List ℤ
  sent_decode = set_slot slot with_lens

  decode_past_slot : (i : ℕ) → 2 ≤ i → get_elem? sent_decode i ≡ get_elem? with_lens i
  decode_past_slot i h = slot_outside slot with_lens i (omega (arith, length-with_lens)) (inr h)

  decode_front : (i : ℕ) → 2 ≤ i → i < 2 + m → get_elem? sent_decode i ≡ get_elem? with_ids i
  decode_front i h k =
      decode_past_slot i h
      ∙ write_outside (2 + m) ls with_ids i (omega (arith, length-with_ids)) (inl k)

  pub decode_ids : Holds sent_decode (2 + 0) xs
  decode_ids j k =
      decode_front (2 + 0 + j) (omega arith) (omega arith)
      ∙ write_in 2 xs (opened m v) (omega (arith, length-opened m v)) j k

  pub decode_end : length xs < m → get_elem? sent_decode (2 + (0 + length xs)) ≡ some (pos 0)
  decode_end h =
      decode_front (2 + (0 + length xs)) (omega arith) (omega arith)
      ∙ (write_outside 2 xs (opened m v) (2 + (0 + length xs)) (omega (arith, length-opened m v))
            (inr (omega arith))
          ∙ opened_rest m v (2 + (0 + length xs)) (omega arith) (omega arith))

  pub decode_details : Holds sent_decode (2 + m + 0) ls
  decode_details j k =
      decode_past_slot (2 + m + 0 + j) (omega arith)
      ∙ (ap (get_elem? with_lens) (omega arith)
          ∙ write_in (2 + m) ls with_ids (omega (arith, length-with_ids)) j k)

  pub decode_payload : get_elem? sent_decode 0 ≡ some (pos v)
  decode_payload =
      slot_outside slot with_lens 0 (omega (arith, length-with_lens)) (inl (omega arith))
      ∙ (write_outside (2 + m) ls with_ids 0 (omega (arith, length-with_ids)) (inl (omega arith))
          ∙ (write_outside 2 xs (opened m v) 0 (omega (arith, length-opened m v))
                (inl (omega arith))
              ∙ opened_payload m v))

  pub decode_slot : get_elem? sent_decode 1 ≡ some (pos (slot_or_zero slot))
  decode_slot = slot_inside slot with_lens (omega (arith, length-with_lens)) no_slot

  pub scattered :
      (n : ℕ)
      → length xs ≡ n
      → (scatter 2 n xs (opened m v) ≡ ok with_ids)
        × (scatter (2 + m) n ls with_ids ≡ ok with_lens)
        × (scatter (2 + 2 * m) n os with_lens ≡ ok with_outputs)
  scattered n e = (
    scatter-exact 2 n xs (opened m v) e (omega (arith, length-opened m v)),
    scatter-exact (2 + m) n ls with_ids (omega arith) (omega (arith, length-with_ids)),
    scatter-exact (2 + 2 * m) n os with_lens (omega arith) (omega (arith, length-with_lens)),
  )
