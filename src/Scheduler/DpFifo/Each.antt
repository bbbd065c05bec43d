-- ===== src/Scheduler/DpFifo/Each.antt =====
-- DPFifoScheduler: statements about the lists of the ranks, and what keeps them.
use chitu.Base.{
  ℕ, zero, suc, ◌+◌, ◌-◌, ◌≡◌, min, Option, none, some, List, [], ◌∷◌, ◌++◌, ltb, leb, nat_beq,
  replicate, arith, Bool-cases, inl, inr, All, All-take,
}
use chitu.Task.{Infer, set_prefill_chunk_size_for_one_step, prefix_tokens_len}
use chitu.Scheduler.State.{Entry}
use chitu.Scheduler.Ranks.{push_to}
use chitu.Scheduler.DpFifo.{chunk_rank, chunk_lists, rank_budget, cap_lists, apply_chunk_size}

-- A statement about each task and the rank whose list it is in; the first list is that of rank r.
abbrev pub Each : (ℕ → Entry → Type 0) → ℕ → List (List Entry) → Type 0
Each P r [] = Unit
Each P r (l ∷ ls) = All (P r) l × Each P (suc r) ls

module _ (P : ℕ → Entry → Type 0) where
  pub All-snoc :
      (r : ℕ) (l : List Entry) (e : Entry) → All (P r) l → P r e → All (P r) (l ++ e ∷ [])
  All-snoc r [] e a p = (p, tt)
  All-snoc r (x ∷ l) e a p = (a.0, All-snoc r l e a.1 p)

  pub Each-push :
      (r k : ℕ) (e : Entry) (ls : List (List Entry))
      → Each P r ls
      → P (r + k) e
      → Each P r (push_to k e ls)
  Each-push r k e [] a p = tt
  Each-push r zero e (l ∷ ls) a p =
      let z : r + 0 ≡ r = omega arith in (All-snoc r l e a.0 (rw z at p), a.1)
  Each-push r (suc k) e (l ∷ ls) a p =
      let z : r + suc k ≡ suc r + k = omega arith in (a.0, Each-push (suc r) k e ls a.1 (rw z at p))

  pub Each-empty : (r n : ℕ) → Each P r (replicate n [])
  Each-empty r zero = tt
  Each-empty r (suc n) = (tt, Each-empty (suc r) n)

  pub Each-cap :
      (limit r : ℕ) (ls : List (List Entry)) → Each P r ls → Each P r (cap_lists limit ls)
  Each-cap limit r [] a = tt
  Each-cap limit r (l ∷ ls) a = (All-take (P r) limit l a.0, Each-cap limit (suc r) ls a.1)

  module _
      (stable : (r n : ℕ) (e : Entry)
        → P r e
        → P r (e.0, set_prefill_chunk_size_for_one_step n e.1)) where
    chunk_rank-All :
        (cfg : Infer) (r budget assigned : ℕ) (es : List Entry)
        → All (P r) es
        → All (P r) (chunk_rank cfg budget assigned es)
    unfolding chunk_rank
    chunk_rank-All cfg r budget assigned [] a = tt
    chunk_rank-All cfg r budget assigned ((i, t) ∷ es) a =
        let remaining : ℕ = prefix_tokens_len cfg t - t.consumed_req_tokens in
        let size : ℕ = min remaining (budget - assigned) in
        let ih = chunk_rank-All cfg r budget (assigned + size) es a.1 in
        let here = stable r size (i, t) a.0 in
        elim (Bool-cases (nat_beq remaining 0)) [
          | inl e ↦ rw e ih
          | inr e ↦ rw e (elim (Bool-cases (nat_beq size 0)) [
            | inl z ↦ rw z tt
            | inr z ↦ rw z (elim (Bool-cases (leb budget (assigned + size))) [
              | inl b ↦ rw b (here, tt)
              | inr b ↦ rw b (here, ih)
            ])
          ])
        ]

    Each-chunk :
        (cfg : Infer) (size dp_size r : ℕ) (ls : List (List Entry))
        → Each P r ls
        → Each P r (chunk_lists cfg size dp_size r ls)
    unfolding chunk_lists
    Each-chunk cfg size dp_size r [] a = tt
    Each-chunk cfg size dp_size r (l ∷ ls) a =
        let ih = Each-chunk cfg size dp_size (suc r) ls a.1 in
        let budget = rank_budget size dp_size r in
        elim (Bool-cases (nat_beq budget 0)) [
          | inl z ↦ rw z (tt, ih)
          | inr z ↦ rw z (chunk_rank-All cfg r budget 0 l a.0, ih)
        ]

    pub Each-apply :
        (cfg : Infer) (o : Option ℕ) (dp_size : ℕ) (ls : List (List Entry))
        → Each P 0 ls
        → Each P 0 (apply_chunk_size cfg o dp_size ls)
    Each-apply cfg none dp_size ls a = a
    Each-apply cfg (some size) dp_size ls a = elim (Bool-cases (ltb 0 size)) [
      | inl y ↦ rw y (Each-chunk cfg size dp_size 0 ls a)
      | inr y ↦ rw y a
    ]
