-- ===== src/Task/Prefill.antt =====
-- Prefill in chunks: what the model sees, and where the task stands.
use chitu.Base.{
  ℕ, suc, ◌+◌, ◌≤◌, ◌<◌, ◌≡◌, ◌⊎◌, refl, sym, ap, ◌∙◌, Option, none, some, List, [], ◌∷◌, ◌++◌,
  arith, if◌then◌else◌, length, take, drop, take-drop-append, drop-length, All, inl, inr,
}
use mathlib.Core.List.{append-nil, append_assoc}
use chitu.Task.{
  Task, prefill, decode, Infer, next_req_tokens_len, next_req_tokens, consume_req_tokens,
  set_prefill_chunk_size_for_one_step, is_prefill,
}

-- A scheduler gives each step a chunk size, or none for all that is left.
abbrev with_chunk : Option ℕ → Task → Task
with_chunk none t = t
with_chunk (some k) t = set_prefill_chunk_size_for_one_step k t

-- The tokens that the model sees over the steps of a schedule, and the task afterwards. A task that
-- has reached decoding takes no more prefill steps.
unfoldable pub prefill_steps : Infer → List (Option ℕ) → Task → List ℕ × Task
prefill_steps cfg [] t = ([], t)
prefill_steps cfg (k ∷ ks) t =
    let s = with_chunk k t in
    let (seen, t') = prefill_steps cfg ks (consume_req_tokens cfg s) in
    if is_prefill t.task_type then (next_req_tokens cfg s ++ seen, t') else ([], t)

-- Where a task stands in its prompt.
pub record Progress (p : List ℕ) (t : Task) : Type 0 where
  pub prompt : t.prefix_tokens ≡ p
  pub chunk : t.prefill_chunk_size ≡ none
  pub within : t.consumed_req_tokens ≤ length p
  pub phase :
      (t.task_type ≡ prefill) ⊎ ((t.task_type ≡ decode) × (t.consumed_req_tokens ≡ length p))

-- A chunk size that is given, and positive.
abbrev pub IsSome : Option ℕ → Type 0
IsSome none = Unit
IsSome (some k) = 0 < k

module _ (cfg : Infer) (p : List ℕ) where
  step-Progress :
      (k : Option ℕ) (t : Task)
      → t.task_type ≡ prefill
      → Progress p t
      → Progress p (consume_req_tokens cfg (with_chunk k t))
  unfolding consume_req_tokens set_prefill_chunk_size_for_one_step
  step-Progress none t e v = ground arith
  step-Progress (some k) t e v = ground arith

  step_position :
      (k : Option ℕ) (t : Task)
      → t.task_type ≡ prefill
      → Progress p t
      → (consume_req_tokens cfg (with_chunk k t)).consumed_req_tokens
        ≡ t.consumed_req_tokens + next_req_tokens_len cfg (with_chunk k t)
  unfolding consume_req_tokens set_prefill_chunk_size_for_one_step next_req_tokens_len
  step_position none t e v = ground arith
  step_position (some k) t e v = ground arith

  prompt-with_chunk : (k : Option ℕ) (t : Task) → (with_chunk k t).prefix_tokens ≡ t.prefix_tokens
  unfolding set_prefill_chunk_size_for_one_step
  prompt-with_chunk none t = refl
  prompt-with_chunk (some k) t = refl

  consumed-with_chunk :
      (k : Option ℕ) (t : Task) → (with_chunk k t).consumed_req_tokens ≡ t.consumed_req_tokens
  unfolding set_prefill_chunk_size_for_one_step
  consumed-with_chunk none t = refl
  consumed-with_chunk (some k) t = refl

  -- One step shows the model the tokens between the old and the new position.
  step_tokens :
      (k : Option ℕ) (t : Task)
      → t.task_type ≡ prefill
      → Progress p t
      → next_req_tokens cfg (with_chunk k t)
          ++ drop (consume_req_tokens cfg (with_chunk k t)).consumed_req_tokens p
        ≡ drop t.consumed_req_tokens p
  unfolding next_req_tokens
  step_tokens k t e v =
      let n : ℕ = next_req_tokens_len cfg (with_chunk k t) in
      rw (step_position k t e v) (
        ap
          (λ q.
            take n (drop (with_chunk k t).consumed_req_tokens q)
            ++ drop (t.consumed_req_tokens + n) p)
          (prompt-with_chunk k t ∙ v.prompt)
        ∙ ap (λ a. take n (drop a p) ++ drop (t.consumed_req_tokens + n) p)
            (consumed-with_chunk k t)
        ∙ take-drop-append t.consumed_req_tokens n p)

  -- For a task that stands in its prompt (no chunk size set, a position within the prompt, and the
  -- whole prompt consumed if it decodes) and any chunk sizes: what the model saw, followed by what is
  -- still to come, is the prompt from the task's position on, and the task still stands in its prompt.
  pub prefill_steps_lem :
      (ks : List (Option ℕ)) (t : Task)
      → Progress p t
      → ((prefill_steps cfg ks t).0 ++ drop (prefill_steps cfg ks t).1.consumed_req_tokens p
          ≡ drop t.consumed_req_tokens p)
        × Progress p (prefill_steps cfg ks t).1
  unfolding prefill_steps
  prefill_steps_lem [] t v = (refl, v)
  prefill_steps_lem (k ∷ ks) t v = elim v.phase [
    | inr (e, c) ↦ rw (ap is_prefill e) (refl, v)
    | inl e ↦
        let s : Task = consume_req_tokens cfg (with_chunk k t) in
        let rest = prefill_steps_lem ks s (step-Progress k t e v) in
        rw (ap is_prefill e) (
          append_assoc (next_req_tokens cfg (with_chunk k t)) _ _
              ∙ ap (λ l. next_req_tokens cfg (with_chunk k t) ++ l) rest.0
              ∙ step_tokens k t e v,
          rest.1,
        )
  ]

  -- A step of at least one token, or of all, comes closer to the end or reaches it.
  step_closer :
      (k : Option ℕ) (t : Task) (left : ℕ)
      → IsSome k
      → t.task_type ≡ prefill
      → Progress p t
      → length p ≤ t.consumed_req_tokens + suc left
      → let s = consume_req_tokens cfg (with_chunk k t) in
        (s.task_type ≡ decode) ⊎ ((0 < left) × (length p ≤ s.consumed_req_tokens + left))
  unfolding consume_req_tokens set_prefill_chunk_size_for_one_step
  step_closer none t left h e v b = ground arith
  step_closer (some k) t left h e v b = ground arith

  decoding_stays :
      (ks : List (Option ℕ)) (t : Task) → t.task_type ≡ decode → prefill_steps cfg ks t ≡ ([], t)
  unfolding prefill_steps
  decoding_stays [] t e = refl
  decoding_stays (k ∷ ks) t e = rw (ap is_prefill e)

  -- Both cases of `step_closer`, for the steps that follow.
  reaches_decode :
      (ks : List (Option ℕ)) (t : Task)
      → Progress p t
      → All IsSome ks
      → 0 < length ks
      → length p ≤ t.consumed_req_tokens + length ks
      → (prefill_steps cfg ks t).1.task_type ≡ decode
  unfolding prefill_steps
  reaches_decode [] t v a h b = absurd (omega arith)
  reaches_decode (k ∷ ks) t v a h b = elim v.phase [
    | inr (e, c) ↦ rw (ap is_prefill e) e
    | inl e ↦
        let s : Task = consume_req_tokens cfg (with_chunk k t) in
        rw (ap is_prefill e) (elim (step_closer k t (length ks) a.0 e v b) [
          | inl d ↦ rw (decoding_stays ks s d) d
          | inr (more, closer) ↦ reaches_decode ks s (step-Progress k t e v) a.1 more closer
        ])
  ]

  nothing_left :
      (t : Task) → Progress p t → t.task_type ≡ decode → drop t.consumed_req_tokens p ≡ []
  nothing_left t v e = elim v.phase [ inl q ↦ cc | inr (q, c) ↦ rw c (drop-length p) ]

  -- For such a task, at least one step, as many steps as tokens are left, and positive chunk sizes:
  -- the task decodes, and the model has seen exactly the rest of the prompt.
  pub prefill_ends :
      (ks : List (Option ℕ)) (t : Task)
      → Progress p t
      → All IsSome ks
      → 0 < length ks
      → length p ≤ t.consumed_req_tokens + length ks
      → ((prefill_steps cfg ks t).1.task_type ≡ decode)
        × ((prefill_steps cfg ks t).0 ≡ drop t.consumed_req_tokens p)
  prefill_ends ks t v a h b =
      let (seen, q) = prefill_steps_lem ks t v in
      let e = reaches_decode ks t v a h b in
      (
        e,
        sym (append-nil (prefill_steps cfg ks t).0)
            ∙ ap (λ l. (prefill_steps cfg ks t).0 ++ l) (sym (nothing_left _ q e))
            ∙ seen,
      )
