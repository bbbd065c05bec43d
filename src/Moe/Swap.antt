-- ===== src/Moe/Swap.antt =====
-- The cells, the used slots and the lists of slots of a layer when two cells are exchanged.
use chitu.Base.{
  ℕ, ◌+◌, ◌*◌, ◌≡◌, ◌≢◌, ◌⊎◌, inl, inr, refl, sym, ◌∙◌, Bool, true, false, not, List, [], ◌∷◌, ◌++◌,
  nat_beq, if◌then◌else◌, arith, get_elem?, set, set-cases, keep, All, some, Bool-cases,
}
use chitu.Moe.Placement.{cell, set_cell, is_slot}
use chitu.Moe.Cells.{cell-set_cell_self, cell-set_cell_ne}

All-append {ℓ} :
    {A : Type ℓ} (P : A → Type 0) (xs : List A) {y : A} → All P xs → P y → All P (xs ++ (y ∷ []))
All-append P [] h k = (k, tt)
All-append P (x ∷ xs) h k = (h.0, All-append P xs h.1 k)

module _ (m : List (List ℕ)) (fr fs fe tr ts te : ℕ) (hf : cell m fr fs ≡ some fe)
    (ht : cell m tr ts ≡ some te) (differ : fe ≢ te) where
  abbrev pub swapped : List (List ℕ)
  swapped = set_cell (set_cell m tr ts fe) fr fs te

  apart : tr ≡ fr → ts ≡ fs → ⊥
  apart a b = let c : cell m tr ts ≡ some fe = rw (a, b) hf in let e : fe ≡ te = cc in differ e

  pub from_kept : cell (set_cell m tr ts fe) fr fs ≡ some fe
  from_kept = cell-set_cell_ne m tr ts fr fs fe apart ∙ hf

  pub at_from : cell swapped fr fs ≡ some te
  at_from = cell-set_cell_self (set_cell m tr ts fe) fr fs te from_kept

  pub at_to : cell swapped tr ts ≡ some fe
  at_to =
      cell-set_cell_ne (set_cell m tr ts fe) fr fs tr ts te (λ a b. apart (sym a) (sym b))
      ∙ cell-set_cell_self m tr ts fe ht

  -- A cell that is neither of the two.
  other :
      (r s e : ℕ)
      → cell m r s ≡ some e
      → (fr ≡ r → fs ≡ s → ⊥)
      → (tr ≡ r → ts ≡ s → ⊥)
      → cell swapped r s ≡ some e
  other r s e h a b =
      cell-set_cell_ne (set_cell m tr ts fe) fr fs r s te a ∙ cell-set_cell_ne m tr ts r s fe b ∙ h

  -- The cells of an expert stay its cells, but for the one that is exchanged.
  kept :
      (r s e : ℕ)
      → cell m r s ≡ some e
      → (e ≡ fe → fr ≡ r → fs ≡ s → ⊥)
      → (e ≡ te → tr ≡ r → ts ≡ s → ⊥)
      → cell swapped r s ≡ some e
  kept r s e h a b = other r s e h (λ c d. a (same_from c d) c d) (λ c d. b (same_to c d) c d)
    where
      same_from : fr ≡ r → fs ≡ s → e ≡ fe
      same_from c d = let k : cell m r s ≡ some fe = rw (sym c, sym d) hf in cc

      same_to : tr ≡ r → ts ≡ s → e ≡ te
      same_to c d = let k : cell m r s ≡ some te = rw (sym c, sym d) ht in cc

  module _ (capacity : ℕ) (inv : List ℕ) (a b : ℕ) (ha : get_elem? inv fe ≡ some a)
      (hb : get_elem? inv te ≡ some b) where
    abbrev pub Points : List (List ℕ) → ℕ → ℕ → Type 0
    Points n e g = (r : ℕ) × (s : ℕ) × (g ≡ r * capacity + s) × (cell n r s ≡ some e)

    abbrev pub redirected : List ℕ
    redirected = if nat_beq a (fr * capacity + fs) then set inv fe (tr * capacity + ts) else inv

    abbrev pub redirected_both : List ℕ
    redirected_both =
        if nat_beq b (tr * capacity + ts)
        then set redirected te (fr * capacity + fs)
        else redirected

    -- An entry after a conditional write.
    written_cases :
        (c : Bool) (xs : List ℕ) (i v : ℕ) (e : ℕ) {g : ℕ}
        → get_elem? (if c then set xs i v else xs) e ≡ some g
        → (c ≡ true) × (e ≡ i) × (g ≡ v) ⊎ (c ≡ true → e ≢ i) × (get_elem? xs e ≡ some g)
    written_cases true xs i v e h = elim (set-cases xs i e h) [
      | inl k ↦ inl (refl, k.0, k.1)
      | inr k ↦ inr (λ t. k.0, k.1)
    ]
    written_cases false xs i v e h = inr (λ t. absurd (clash t), h)
      where
        clash : false ≡ true → ⊥
        clash t = cc

    entry_kept :
        (e g : ℕ)
        → Points m e g
        → (e ≡ fe → nat_beq a (fr * capacity + fs) ≡ false)
        → (e ≡ te → nat_beq b (tr * capacity + ts) ≡ false)
        → get_elem? inv e ≡ some g
        → Points swapped e g
    entry_kept e g (r, s, k, h) x y i =
        (r, s, k, kept r s e h (λ c d f. from_clash c d f (x c)) (λ c d f. to_clash c d f (y c)))
      where
        from_clash : e ≡ fe → fr ≡ r → fs ≡ s → nat_beq a (fr * capacity + fs) ≡ false → ⊥
        from_clash c d f z =
            let j : get_elem? inv fe ≡ some g = rw (sym c) i in
            let same : a ≡ g = cc in
            let at : g ≡ fr * capacity + fs = rw (d, f) k in
            let all : a ≡ fr * capacity + fs = same ∙ at in ground (arith, all, z)

        to_clash : e ≡ te → tr ≡ r → ts ≡ s → nat_beq b (tr * capacity + ts) ≡ false → ⊥
        to_clash c d f z =
            let j : get_elem? inv te ≡ some g = rw (sym c) i in
            let same : b ≡ g = cc in
            let at : g ≡ tr * capacity + ts = rw (d, f) k in
            let all : b ≡ tr * capacity + ts = same ∙ at in ground (arith, all, z)

    pub redirected-Points :
        ((e g : ℕ) → get_elem? inv e ≡ some g → Points m e g)
        → (e g : ℕ) → get_elem? redirected_both e ≡ some g
        → Points swapped e g
    redirected-Points used e g h =
        second
          (written_cases (nat_beq b (tr * capacity + ts)) redirected te (fr * capacity + fs) e h)
      where
        not_true : (c : Bool) (P : Type 0) → (c ≡ true → P → ⊥) → P → c ≡ false
        not_true true P f p = absurd (f refl p)
        not_true false P f p = refl

        first :
            (e ≡ te → nat_beq b (tr * capacity + ts) ≡ false)
            → (nat_beq a (fr * capacity + fs) ≡ true) × (e ≡ fe) × (g ≡ tr * capacity + ts)
              ⊎ (nat_beq a (fr * capacity + fs) ≡ true → e ≢ fe) × (get_elem? inv e ≡ some g)
            → Points swapped e g
        first y (inl (t, k, v)) = (tr, ts, v, rw k at_to)
        first y (inr (f, i)) =
            entry_kept e g (used e g i)
              (λ k. not_true (nat_beq a (fr * capacity + fs)) (e ≡ fe) f k) y i

        second :
            (nat_beq b (tr * capacity + ts) ≡ true) × (e ≡ te) × (g ≡ fr * capacity + fs)
              ⊎ (nat_beq b (tr * capacity + ts) ≡ true → e ≢ te) × (get_elem? redirected e ≡ some g)
            → Points swapped e g
        second (inl (t, k, v)) = (fr, fs, v, rw k at_from)
        second (inr (f, i)) =
            first (λ k. not_true (nat_beq b (tr * capacity + ts)) (e ≡ te) f k)
              (written_cases (nat_beq a (fr * capacity + fs)) inv fe (tr * capacity + ts) e i)

  -- The lists of slots after the exchange.
  module _ (es : List (List (ℕ × ℕ))) (sf st : List (ℕ × ℕ)) (hsf : get_elem? es fe ≡ some sf)
      (hst : get_elem? es te ≡ some st) where
    abbrev pub in_from : List (ℕ × ℕ)
    in_from = keep (λ t. not (is_slot fr fs t)) sf ++ ((tr, ts) ∷ [])

    abbrev pub in_to : List (ℕ × ℕ)
    in_to = keep (λ t. not (is_slot tr ts t)) st ++ ((fr, fs) ∷ [])

    abbrev pub Stand : List (List ℕ) → ℕ → List (ℕ × ℕ) → Type 0
    Stand n e slots = All (λ t. cell n t.0 t.1 ≡ some e) slots

    rest-Stand :
        (e r s : ℕ) (xs : List (ℕ × ℕ))
        → (e ≡ fe → (r ≡ fr) × (s ≡ fs))
        → (e ≡ te → (r ≡ tr) × (s ≡ ts))
        → Stand m e xs
        → Stand swapped e (keep (λ t. not (is_slot r s t)) xs)
    rest-Stand e r s [] x y h = tt
    rest-Stand e r s (t ∷ xs) x y h = elim (Bool-cases (is_slot r s t)) [
      | inl k ↦ rw k (rest-Stand e r s xs x y h.1)
      | inr k ↦ rw k (
        kept t.0 t.1 e h.0 (λ c d f. clash t k (d ∙ refl) f (x c)) (λ c d f. clash t k d f (y c)),
        rest-Stand e r s xs x y h.1,
      )
    ]
      where
        clash :
            (t : ℕ × ℕ) {p q : ℕ}
            → is_slot r s t ≡ false
            → p ≡ t.0
            → q ≡ t.1
            → (r ≡ p) × (s ≡ q)
            → ⊥
        clash t k d f z = ground (arith, k, d, f, z.0, z.1)

    from-Stand : Stand m fe sf → Stand swapped fe in_from
    from-Stand h =
        All-append _ (keep (λ t. not (is_slot fr fs t)) sf)
          (rest-Stand fe fr fs sf (λ e. (refl, refl)) (λ e. absurd (differ e)) h) at_to

    to-Stand : Stand m te st → Stand swapped te in_to
    to-Stand h =
        All-append _ (keep (λ t. not (is_slot tr ts t)) st)
          (rest-Stand te tr ts st (λ e. absurd (differ (sym e))) (λ e. (refl, refl)) h) at_from

    all-Stand : (e : ℕ) (xs : List (ℕ × ℕ)) → e ≢ fe → e ≢ te → Stand m e xs → Stand swapped e xs
    all-Stand e [] x y h = tt
    all-Stand e (t ∷ xs) x y h =
        (kept t.0 t.1 e h.0 (λ c. absurd (x c)) (λ c. absurd (y c)), all-Stand e xs x y h.1)

    pub listed-Stand :
        ((e : ℕ) (xs : List (ℕ × ℕ)) → get_elem? es e ≡ some xs → Stand m e xs)
        → (e : ℕ) (xs : List (ℕ × ℕ)) → get_elem? (set (set es fe in_from) te in_to) e ≡ some xs
        → Stand swapped e xs
    listed-Stand listed e xs h = elim (set-cases (set es fe in_from) te e h) [
      | inl k ↦ rw (k.0, k.1) (to-Stand (listed te st hst))
      | inr k ↦ elim (set-cases es fe e k.1) [
        | inl j ↦ rw (j.0, j.1) (from-Stand (listed fe sf hsf))
        | inr j ↦ all-Stand e xs j.0 k.0 (listed e xs j.1)
      ]
    ]
