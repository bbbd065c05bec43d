-- ===== src/Task/Stopping.antt =====
-- When a task stops: the stop token, and the limit on new tokens.
use chitu.Base.{
  ℕ, ◌+◌, ◌-◌, ◌≤◌, ◌<◌, ◌≡◌, ◌≢◌, refl, ap, ◌∙◌, true, false, ◌&&◌, none, some, List, [], ◌∷◌,
  arith, if◌then◌else◌, leb, ltb, length, max, count, any_of, nat_beq, Bool, ◌⊎◌, Option,
  Bool-cases, inl, inr,
}
use native.Mathlib.Decide.{dec_le}
use chitu.Task.{
  Task, Infer, FinishReason, waiting, normal, stopped, will_stop_length, stop, length_reached,
  update_decode_status, update_response_sync, update_response_no_sync, update_prefix, is_stop_token,
  need_remove, is_stopped, will_stop, nothing_new,
}

-- The last token is one at which the task stops.
abbrev pub StopsByToken : Infer → Task → Type 0
StopsByToken cfg t =
    (token : ℕ) × (t.stop_with_eos ≡ true)
    × (0 < t.num_new_tokens)
    × (t.next_token ≡ some token)
    × (0 < count token cfg.stop_tokens)

-- Neither waiting nor stopped.
abbrev pub IsActive : Task → Type 0
IsActive t = (t.is_waiting ≡ false) × (t.status ≢ stopped)

abbrev pub ended : FinishReason → Task → Task
ended why t = record t { status = stopped; req = record t.req { finish_reason = some why } }

-- What an update of the status does, and when.
pub data Move (cfg : Infer) (t u : Task) : Type 0 where
  rest : (t.is_waiting ≡ true) ⊎ (t.status ≡ stopped) → u ≡ t → Move cfg t u
  end_by_token : IsActive t → StopsByToken cfg t → u ≡ ended stop t → Move cfg t u
  end_by_length :
      IsActive t
      → ¬ StopsByToken cfg t
      → t.status ≡ will_stop_length
      → u ≡ ended length_reached t
      → Move cfg t u
  announce :
      IsActive t
      → ¬ StopsByToken cfg t
      → t.status ≡ normal
      → t.req.max_new_tokens ≤ t.num_new_tokens + cfg.mtp_size
      → u ≡ record t { status = will_stop_length }
      → Move cfg t u
  go_on :
      IsActive t
      → ¬ StopsByToken cfg t
      → t.status ≡ normal
      → t.num_new_tokens + cfg.mtp_size < t.req.max_new_tokens
      → u ≡ t
      → Move cfg t u

any_of-count : (x : ℕ) (xs : List ℕ) → any_of (nat_beq x) xs ≡ ltb 0 (count x xs)
any_of-count x [] = refl
any_of-count x (y ∷ ys) = ground (arith, any_of-count x ys)

abbrev token_test : Infer → Task → Bool
token_test cfg t = t.stop_with_eos && (ltb 0 t.num_new_tokens && is_stop_token cfg t.next_token)

token_test-true : (cfg : Infer) (t : Task) → token_test cfg t ≡ true → StopsByToken cfg t
token_test-true cfg t h = by_token t.next_token refl h
  where
    by_token :
        (o : Option ℕ)
        → t.next_token ≡ o
        → (t.stop_with_eos && (ltb 0 t.num_new_tokens && is_stop_token cfg o)) ≡ true
        → StopsByToken cfg t
    by_token none e k = absurd (ground (arith, k))
    by_token (some x) e k = (
      x,
      ground (arith, k),
      ground (arith, k),
      e,
      ground (arith, k, any_of-count x cfg.stop_tokens),
    )

token_test-false : (cfg : Infer) (t : Task) → token_test cfg t ≡ false → ¬ StopsByToken cfg t
token_test-false cfg t h (x, a, b, c, d) =
    let k : (t.stop_with_eos && (ltb 0 t.num_new_tokens && is_stop_token cfg (some x))) ≡ false =
      rw c at h in
    ground (arith, a, b, d, k, any_of-count x cfg.stop_tokens)

-- An update leaves exactly the waiting and the stopped tasks at rest. Of the others it stops, for the
-- token, those that mind stop tokens, have a new token and whose last token is a stop token; of the
-- rest it stops, for the length, those that an earlier update has marked; of the rest it marks those
-- whose new tokens, with those of a multi-token step, reach the limit; the others it leaves as they
-- are. Nothing else of a task changes. (The stored status is never `waiting`.)
pub update_decode_status-Move :
    (cfg : Infer) (t : Task) → t.status ≢ waiting → Move cfg t (update_decode_status cfg t)
unfolding update_decode_status
update_decode_status-Move cfg t h = elim (Bool-cases t.is_waiting) [
  | inl w ↦ simp w (rest (inl w) refl)
  | inr w ↦ simp w (elim (Bool-cases (is_stopped t.status)) [
    | inl s ↦ simp s (rest (inr (ground arith)) refl)
    | inr s ↦
        (let active : IsActive t = (w, λ e. ground (arith, e, s)) in
          simp s (elim (Bool-cases (token_test cfg t)) [
            | inl e ↦ simp e (end_by_token active (token_test-true cfg t e) (simp w refl))
            | inr e ↦
                (let other = token_test-false cfg t e in
                  simp e (elim (Bool-cases (will_stop t.status)) [
                    | inl m ↦ simp m (end_by_length active other (ground arith) (simp w refl))
                    | inr m ↦
                        simp m
                          (elim (Bool-cases
                            (leb (t.req.max_new_tokens - cfg.mtp_size) t.num_new_tokens)) [
                              | inl l ↦ simp l (
                                  announce active other (ground arith) (ground arith) (simp w refl))
                              | inr l ↦
                                  simp l (go_on active other (ground arith) (ground arith) refl)
                            ])
                  ]))
          ]))
  ])
]

-- Decoding: as long as the task is not stopped, the next sampled token is recorded and the status
-- updated.
unfoldable pub generate : Infer → List ℕ → Task → Task
generate cfg [] t = t
generate cfg (token ∷ tokens) t =
    let next = generate cfg tokens (update_decode_status cfg (update_response_sync cfg token t)) in
    if need_remove t then t else next

-- A task that nothing but its length can stop, and that is given one token a step.
pub record OnlyLength (limit : ℕ) (t : Task) : Type 0 where
  pub ignores_eos : t.stop_with_eos ≡ false
  pub runs : t.is_waiting ≡ false
  pub single : t.num_new_tokens_single_step ≡ 1
  pub no_test : t.req.test_standard_tokens ≡ none
  pub limited : t.req.max_new_tokens ≡ limit

-- `n` more tokens, and the same status.
record Grown (limit n : ℕ) (t u : Task) : Type 0 where
  only : OnlyLength limit u
  status : u.status ≡ t.status
  count : u.num_new_tokens ≡ t.num_new_tokens + n

module _ (cfg : Infer) (limit : ℕ) where
  respond-Grown :
      (token : ℕ) (t : Task)
      → OnlyLength limit t
      → Grown limit 1 t (update_response_no_sync token t)
  unfolding update_response_no_sync
  respond-Grown token t v = rw v.no_test (record {
    only = record {
      ignores_eos = v.ignores_eos;
      runs = v.runs;
      single = v.single;
      no_test = refl;
      limited = v.limited;
    };
    status = refl;
    count = omega (arith, v.single);
  })

  prefix-Grown : (t : Task) → OnlyLength limit t → Grown limit 0 t (update_prefix cfg t)
  unfolding update_prefix
  prefix-Grown t v = elim (Bool-cases t.sync_new_token) [
    | inl s ↦ simp s (record { only = v; status = refl; count = omega arith })
    | inr s ↦ simp s (elim (Bool-cases (nothing_new t.next_token t.record_next_token)) [
      | inl e ↦ simp e (record { only = v; status = refl; count = omega arith })
      | inr e ↦ simp e (record {
        only = record {
          ignores_eos = v.ignores_eos;
          runs = v.runs;
          single = v.single;
          no_test = v.no_test;
          limited = v.limited;
        };
        status = refl;
        count = omega arith;
      })
    ])
  ]

  sync-Grown :
      (token : ℕ) (t : Task)
      → OnlyLength limit t
      → Grown limit 1 t (update_response_sync cfg token t)
  unfolding update_response_sync
  sync-Grown token t v =
      let a = respond-Grown token t v in
      let b = prefix-Grown (update_response_no_sync token t) a.only in
      record {
        only = b.only;
        status = b.status ∙ a.status;
        count = omega (arith, a.count, b.count);
      }

  -- The update of a task that has been given a token.
  record Updated (u w : Task) : Type 0 where
    only : OnlyLength limit w
    count : w.num_new_tokens ≡ u.num_new_tokens
    marked :
        u.status ≡ will_stop_length
        → (w.status ≡ stopped) × (w.req.finish_reason ≡ some length_reached)
    over : u.status ≡ normal → limit - cfg.mtp_size ≤ u.num_new_tokens → w.status ≡ will_stop_length
    below : u.status ≡ normal → u.num_new_tokens < limit - cfg.mtp_size → w.status ≡ normal

  update-Updated : (u : Task) → OnlyLength limit u → Updated u (update_decode_status cfg u)
  unfolding update_decode_status
  update-Updated u v = record {
    only = record {
      ignores_eos = ground arith;
      runs = ground arith;
      single = ground arith;
      no_test = ground arith;
      limited = ground arith;
    };
    count = ground arith;
    marked = λ e. ground arith;
    over = λ e h. ground arith;
    below = λ e h. ground arith;
  }

  alive : (t : Task) → OnlyLength limit t → is_stopped t.status ≡ false → need_remove t ≡ false
  unfolding need_remove
  alive t v e = rw v.runs e

  abbrev StoppedAt : ℕ → Task → Type 0
  StoppedAt n t =
      (t.status ≡ stopped) × (t.req.finish_reason ≡ some length_reached) × (t.num_new_tokens ≡ n)

  stopped_stays :
      (tokens : List ℕ) (t : Task) (n : ℕ)
      → OnlyLength limit t
      → StoppedAt n t
      → StoppedAt n (generate cfg tokens t)
  unfolding generate need_remove
  stopped_stays [] t n v s = s
  stopped_stays (token ∷ tokens) t n v s =
      let e : need_remove t ≡ true = rw v.runs (ap is_stopped s.0) in rw e s

  abbrev step : ℕ → Task → Task
  step token t = update_decode_status cfg (update_response_sync cfg token t)

  step-Updated :
      (token : ℕ) (t : Task)
      → OnlyLength limit t
      → Updated (update_response_sync cfg token t) (step token t)
  step-Updated token t v = update-Updated _ (sync-Grown token t v).only

  -- A marked task takes one more token.
  marked_ends :
      (tokens : List ℕ) (t : Task)
      → OnlyLength limit t
      → t.status ≡ will_stop_length
      → 0 < length tokens
      → StoppedAt (t.num_new_tokens + 1) (generate cfg tokens t)
  unfolding generate
  marked_ends [] t v e h = absurd (omega arith)
  marked_ends (token ∷ tokens) t v e h =
      let g = sync-Grown token t v in
      let u = step-Updated token t v in
      let (s, why) = u.marked (g.status ∙ e) in
      rw (alive t v (ap is_stopped e))
        (stopped_stays tokens (step token t) _ u.only (s, why, omega (arith, u.count, g.count)))

  normal_ends :
      (tokens : List ℕ) (t : Task)
      → OnlyLength limit t
      → t.status ≡ normal
      → t.num_new_tokens < max (limit - cfg.mtp_size) 1
      → max (limit - cfg.mtp_size) 1 < t.num_new_tokens + length tokens
      → StoppedAt (max (limit - cfg.mtp_size) 1 + 1) (generate cfg tokens t)
  unfolding generate
  normal_ends [] t v e h k = absurd (omega arith)
  normal_ends (token ∷ tokens) t v e h k =
      let g = sync-Grown token t v in
      let u = step-Updated token t v in
      let n : (step token t).num_new_tokens ≡ t.num_new_tokens + 1 =
        omega (arith, u.count, g.count) in
      rw (alive t v (ap is_stopped e))
        (elim (dec_le (limit - cfg.mtp_size) (t.num_new_tokens + 1)) [
          | yes over ↦
              let full : max (limit - cfg.mtp_size) 1 ≡ (step token t).num_new_tokens =
                omega (arith, n) in
              rw full (
                marked_ends tokens (step token t) u.only
                  (u.over (g.status ∙ e) (omega (arith, g.count))) (omega arith))
          | no below ↦
              normal_ends tokens (step token t) u.only
                (u.below (g.status ∙ e) (omega (arith, g.count))) (omega (arith, n))
                (omega (arith, n))
        ])

-- A fresh task that ignores stop tokens and gets one token a step stops after exactly
-- max(max_new_tokens - mtp_size, 1) + 1 tokens if that many are sampled, for its length: one token
-- beyond the limit where the limit is 1 and there is no multi-token prediction.
pub generate-length :
    (cfg : Infer) (limit : ℕ) (tokens : List ℕ) (t : Task)
    → OnlyLength limit t
    → t.status ≡ normal
    → t.num_new_tokens ≡ 0
    → max (limit - cfg.mtp_size) 1 < length tokens
    → let u = generate cfg tokens t in
      (u.status ≡ stopped)
      × (u.req.finish_reason ≡ some length_reached)
      × (u.num_new_tokens ≡ max (limit - cfg.mtp_size) 1 + 1)
generate-length cfg limit tokens t v e z h =
    normal_ends cfg limit tokens t v e (omega arith) (omega arith)
