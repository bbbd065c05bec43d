-- ===== src/Moe/Default/Collected.antt =====
-- MoELoadPlanner: the slots that are collected for each expert.
use mathlib.Core.Path.{subst}
use chitu.Base.{
  ℕ, zero, suc, ◌+◌, ◌<◌, ◌≡◌, ◌≢◌, refl, sym, ap, ◌∙◌, true, ◌⊎◌, inl, inr, List, [], ◌∷◌, ◌++◌,
  ltb, nat_beq, length, get_or, get_or-set_self, get_or-set_ne, get_elem?, set-cases, All, some,
  arith, Bool-cases, length-set, length-append, nat_beq_iff,
}
use chitu.Moe.Placement.{cell}
use chitu.Moe.Default.{add_slot, collect_row, collect}

-- Each slot that is listed for an expert holds it.
abbrev pub AreListed : List (List ℕ) → List (List (ℕ × ℕ)) → Type 0
AreListed m slots =
    (e : ℕ) (ts : List (ℕ × ℕ))
    → get_elem? slots e ≡ some ts
    → All (λ t. cell m t.0 t.1 ≡ some e) ts

All-snoc {ℓ} :
    {A : Type ℓ} (P : A → Type 0) (xs : List A) (x : A) → All P xs → P x → All P (xs ++ x ∷ [])
All-snoc P [] x h k = (k, tt)
All-snoc P (y ∷ xs) x h k = (h.0, All-snoc P xs x h.1 k)

get_or-cases {ℓ} :
    {A : Type ℓ} (xs : List A) (i : ℕ) (d : A)
    → (get_or xs i d ≡ d) ⊎ (get_elem? xs i ≡ some (get_or xs i d))
get_or-cases [] i d = inl refl
get_or-cases (x ∷ xs) zero d = inr refl
get_or-cases (x ∷ xs) (suc i) d = get_or-cases xs i d

get_or-All :
    (m : List (List ℕ)) (slots : List (List (ℕ × ℕ))) (e : ℕ)
    → AreListed m slots
    → All (λ t. cell m t.0 t.1 ≡ some e) (get_or slots e [])
get_or-All m slots e h = elim (get_or-cases slots e []) [
  | inl q ↦ rw q tt
  | inr q ↦ h e (get_or slots e []) q
]

cell-row :
    (m : List (List ℕ)) (r i : ℕ) (row : List ℕ) (e : ℕ)
    → get_elem? m r ≡ some row
    → get_elem? row i ≡ some e
    → cell m r (0 + i) ≡ some e
cell-row m r i row e h g = rw h (subst (λ (j : ℕ). get_elem? row j ≡ some e) (omega arith) g)

module _ (n : ℕ) (m : List (List ℕ)) where
  add_slot-AreListed :
      (e r s : ℕ) (slots : List (List (ℕ × ℕ)))
      → cell m r s ≡ some e
      → AreListed m slots
      → AreListed m (add_slot n e r s slots)
  add_slot-AreListed e r s slots c h i ts g = elim (Bool-cases (ltb e n)) [
    | inl b ↦ elim (set-cases slots e i (rw b at g)) [
      | inl q ↦
          subst (λ j. All (λ t. cell m t.0 t.1 ≡ some j) ts) (sym q.0)
            (subst (All (λ t. cell m t.0 t.1 ≡ some e)) (sym q.1) (
              All-snoc (λ (t : ℕ × ℕ). cell m t.0 t.1 ≡ some e) (get_or slots e []) (r, s)
                (get_or-All m slots e h) c))
      | inr q ↦ h i ts q.1
    ]
    | inr b ↦ h i ts (rw b at g)
  ]

  collect_row-AreListed :
      (r s : ℕ) (es : List ℕ) (slots : List (List (ℕ × ℕ)))
      → ((i e : ℕ) → get_elem? es i ≡ some e → cell m r (s + i) ≡ some e)
      → AreListed m slots
      → AreListed m (collect_row n r s es slots)
  collect_row-AreListed r s [] slots c h = h
  collect_row-AreListed r s (e ∷ es) slots c h =
      collect_row-AreListed r (suc s) es (add_slot n e r s slots)
        (λ i x g. subst (λ (j : ℕ). cell m r j ≡ some x) (omega arith) (c (suc i) x g))
        (add_slot-AreListed e r s slots
          (subst (λ (j : ℕ). cell m r j ≡ some e) (omega arith) (c 0 e refl)) h)

  pub collect-AreListed :
      (r : ℕ) (rows : List (List ℕ)) (slots : List (List (ℕ × ℕ)))
      → ((i : ℕ) (row : List ℕ) → get_elem? rows i ≡ some row → get_elem? m (r + i) ≡ some row)
      → AreListed m slots
      → AreListed m (collect n r rows slots)
  collect-AreListed r [] slots c h = h
  collect-AreListed r (row ∷ rows) slots c h =
      collect-AreListed (suc r) rows (collect_row n r 0 row slots)
        (λ i x g. subst (λ (j : ℕ). get_elem? m j ≡ some x) (omega arith) (c (suc i) x g))
        (collect_row-AreListed r 0 row slots
          (λ i e g.
            cell-row m r i row e
              (subst (λ (j : ℕ). get_elem? m j ≡ some row) (omega arith) (c 0 row refl)) g)
          h)

-- An expert that is in some slot has a slot listed.
abbrev pub Has : ℕ → List (List (ℕ × ℕ)) → Type 0
Has e slots = 0 < length (get_or slots e [])

module _ (n : ℕ) where
  length-add_slot :
      (e r s : ℕ) (slots : List (List (ℕ × ℕ))) → length (add_slot n e r s slots) ≡ length slots
  length-add_slot e r s slots = elim (Bool-cases (ltb e n)) [
    | inl b ↦ rw b (length-set slots e _)
    | inr b ↦ rw b refl
  ]

  add_slot-Has_self :
      (e r s : ℕ) (slots : List (List (ℕ × ℕ)))
      → e < n
      → length slots ≡ n
      → Has e (add_slot n e r s slots)
  add_slot-Has_self e r s slots h l =
      let b : ltb e n ≡ true = ground (arith, h) in
      rw (b, get_or-set_self slots e (get_or slots e [] ++ (r, s) ∷ []) [] (omega (arith, h, l)))
        (omega (arith, length-append (get_or slots e []) ((r, s) ∷ [])))

  add_slot-Has :
      (e r s x : ℕ) (slots : List (List (ℕ × ℕ)))
      → length slots ≡ n
      → Has x slots
      → Has x (add_slot n e r s slots)
  add_slot-Has e r s x slots l h = elim (Bool-cases (ltb e n)) [
    | inl b ↦ elim (Bool-cases (nat_beq e x)) [
      | inl q ↦
          subst (λ y. Has y (add_slot n e r s slots)) ((nat_beq_iff e x).0 q)
            (add_slot-Has_self e r s slots (ground (arith, b)) l)
      | inr q ↦
          (let d : e ≢ x = ground (arith, q) in
            rw (b, get_or-set_ne slots e x (get_or slots e [] ++ (r, s) ∷ []) [] d) h)
    ]
    | inr b ↦ rw b h
  ]

  length-collect_row :
      (r s : ℕ) (es : List ℕ) (slots : List (List (ℕ × ℕ)))
      → length (collect_row n r s es slots) ≡ length slots
  length-collect_row r s [] slots = refl
  length-collect_row r s (e ∷ es) slots =
      length-collect_row r (suc s) es (add_slot n e r s slots) ∙ length-add_slot e r s slots

  collect_row-Has :
      (r s x : ℕ) (es : List ℕ) (slots : List (List (ℕ × ℕ)))
      → length slots ≡ n
      → Has x slots
      → Has x (collect_row n r s es slots)
  collect_row-Has r s x [] slots l h = h
  collect_row-Has r s x (e ∷ es) slots l h =
      collect_row-Has r (suc s) x es (add_slot n e r s slots) (length-add_slot e r s slots ∙ l)
        (add_slot-Has e r s x slots l h)

  collect_row-Has_at :
      (r s x i : ℕ) (es : List ℕ) (slots : List (List (ℕ × ℕ)))
      → length slots ≡ n
      → x < n
      → get_elem? es i ≡ some x
      → Has x (collect_row n r s es slots)
  collect_row-Has_at r s x i [] slots l h g = cc
  collect_row-Has_at r s x zero (e ∷ es) slots l h g =
      let q : e ≡ x = cc in
      collect_row-Has r (suc s) x es (add_slot n e r s slots) (length-add_slot e r s slots ∙ l) (
        subst (λ y. Has y (add_slot n e r s slots)) q
          (add_slot-Has_self e r s slots (omega (arith, q, h)) l))
  collect_row-Has_at r s x (suc i) (e ∷ es) slots l h g =
      collect_row-Has_at r (suc s) x i es (add_slot n e r s slots) (length-add_slot e r s slots ∙ l)
        h g

  collect-Has :
      (r x : ℕ) (rows : List (List ℕ)) (slots : List (List (ℕ × ℕ)))
      → length slots ≡ n
      → Has x slots
      → Has x (collect n r rows slots)
  collect-Has r x [] slots l h = h
  collect-Has r x (row ∷ rows) slots l h =
      collect-Has (suc r) x rows (collect_row n r 0 row slots)
        (length-collect_row r 0 row slots ∙ l) (collect_row-Has r 0 x row slots l h)

  pub collect-Has_at :
      (r x j i : ℕ) (rows : List (List ℕ)) (row : List ℕ) (slots : List (List (ℕ × ℕ)))
      → length slots ≡ n
      → x < n
      → get_elem? rows j ≡ some row
      → get_elem? row i ≡ some x
      → Has x (collect n r rows slots)
  collect-Has_at r x j i [] row slots l h g k = cc
  collect-Has_at r x zero i (first ∷ rows) row slots l h g k =
      let q : first ≡ row = cc in
      collect-Has (suc r) x rows (collect_row n r 0 first slots)
        (length-collect_row r 0 first slots ∙ l)
        (collect_row-Has_at r 0 x i first slots l h (ap (λ xs. get_elem? xs i) q ∙ k))
  collect-Has_at r x (suc j) i (first ∷ rows) row slots l h g k =
      collect-Has_at (suc r) x j i rows row (collect_row n r 0 first slots)
        (length-collect_row r 0 first slots ∙ l) h g k

  pub length-collect :
      (r : ℕ) (rows : List (List ℕ)) (slots : List (List (ℕ × ℕ)))
      → length (collect n r rows slots) ≡ length slots
  length-collect r [] slots = refl
  length-collect r (row ∷ rows) slots =
      length-collect (suc r) rows (collect_row n r 0 row slots) ∙ length-collect_row r 0 row slots
