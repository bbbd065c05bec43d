-- ===== src/Packed/Layout.antt =====
-- Reading the cells of a tensor after the writes of `serialize`.
use native.Mathlib.Nat.{zero-add, suc-add}
use chitu.Base.{
  ℕ, zero, suc, ◌+◌, ◌-◌, ◌*◌, ◌≤◌, ◌<◌, ◌⊎◌, ◌≡◌, refl, sym, ap, ◌∙◌, Option, none, some, List, [],
  ◌∷◌, ◌++◌, arith, length, get_elem?, take, drop, replicate, length-take, length-drop,
  length-append, length-replicate, ok, inl, inr,
}
use chitu.Packed.Ids.{ℤ, pos}
use chitu.Packed.{set_slot, empty_serialization, write, widened, scatter}

module _ {ℓ} {A : Type ℓ} where
  get_elem?-append_left :
      (xs ys : List A) (i : ℕ) → i < length xs → get_elem? (xs ++ ys) i ≡ get_elem? xs i
  get_elem?-append_left [] ys i h = absurd (omega arith)
  get_elem?-append_left (x ∷ xs) ys zero h = refl
  get_elem?-append_left (x ∷ xs) ys (suc i) h = get_elem?-append_left xs ys i (omega arith)

  get_elem?-append_right :
      (xs ys : List A) (i : ℕ) → get_elem? (xs ++ ys) (length xs + i) ≡ get_elem? ys i
  get_elem?-append_right [] ys i = rw zero-add refl
  get_elem?-append_right (x ∷ xs) ys i = rw suc-add (get_elem?-append_right xs ys i)

  get_elem?-take : (n i : ℕ) (xs : List A) → i < n → get_elem? (take n xs) i ≡ get_elem? xs i
  get_elem?-take zero i xs h = absurd (omega arith)
  get_elem?-take (suc n) i [] h = refl
  get_elem?-take (suc n) zero (x ∷ xs) h = refl
  get_elem?-take (suc n) (suc i) (x ∷ xs) h = get_elem?-take n i xs (omega arith)

  get_elem?-drop : (n i : ℕ) (xs : List A) → get_elem? (drop n xs) i ≡ get_elem? xs (n + i)
  get_elem?-drop zero i xs = rw zero-add refl
  get_elem?-drop (suc n) i [] = refl
  get_elem?-drop (suc n) i (x ∷ xs) = rw suc-add (get_elem?-drop n i xs)

  pub get_elem?-replicate : (n i : ℕ) (x : A) → i < n → get_elem? (replicate n x) i ≡ some x
  get_elem?-replicate zero i x h = absurd (omega arith)
  get_elem?-replicate (suc n) zero x h = refl
  get_elem?-replicate (suc n) (suc i) x h = get_elem?-replicate n i x (omega arith)

pub length-write :
    (o : ℕ) (vs ret : List ℤ) → o + length vs ≤ length ret → length (write o vs ret) ≡ length ret
length-write o vs ret h = omega (
  arith,
  length-append (take o ret) (vs ++ drop (o + length vs) ret),
  length-append vs (drop (o + length vs) ret),
  length-take o ret,
  length-drop (o + length vs) ret,
)

module _ (o : ℕ) (vs ret : List ℤ) (h : o + length vs ≤ length ret) where
  pub write_before : (i : ℕ) → i < o → get_elem? (write o vs ret) i ≡ get_elem? ret i
  write_before i k =
      get_elem?-append_left (take o ret) _ i (omega (arith, length-take o ret))
      ∙ get_elem?-take o i ret k

  behind :
      (j : ℕ) → get_elem? (write o vs ret) (o + j) ≡ get_elem? (vs ++ drop (o + length vs) ret) j
  behind j =
      let n : length (take o ret) ≡ o = omega (arith, length-take o ret) in
      ap (λ k. get_elem? (write o vs ret) (k + j)) (sym n)
      ∙ get_elem?-append_right (take o ret) (vs ++ drop (o + length vs) ret) j

  pub write_in : (j : ℕ) → j < length vs → get_elem? (write o vs ret) (o + j) ≡ get_elem? vs j
  write_in j k = behind j ∙ get_elem?-append_left vs (drop (o + length vs) ret) j k

  pub write_after :
      (j : ℕ)
      → get_elem? (write o vs ret) (o + (length vs + j)) ≡ get_elem? ret (o + (length vs + j))
  write_after j =
      behind (length vs + j)
      ∙ (get_elem?-append_right vs (drop (o + length vs) ret) j
          ∙ (get_elem?-drop (o + length vs) j ret ∙ ap (get_elem? ret) (omega arith)))

widened-exact : (n : ℕ) (vs : List ℤ) → length vs ≡ n → widened n vs ≡ some vs
widened-exact n [] h = ground arith
widened-exact n (v ∷ []) h = ground arith
widened-exact n (v ∷ w ∷ vs) h = ground arith

pub scatter-exact :
    (o n : ℕ) (vs ret : List ℤ)
    → length vs ≡ n
    → o + n ≤ length ret
    → scatter o n vs ret ≡ ok (write o vs ret)
unfolding scatter
scatter-exact o n vs ret h k = rw (widened-exact n vs h) (ground arith)

-- The cells from `base` on are the list.
abbrev pub Holds : List ℤ → ℕ → List ℤ → Type 0
Holds t base vs = (j : ℕ) → j < length vs → get_elem? t (base + j) ≡ get_elem? vs j

pub Holds-head :
    (t : List ℤ) (b : ℕ) (v : ℤ) (vs : List ℤ) → Holds t b (v ∷ vs) → get_elem? t b ≡ some v
Holds-head t b v vs h = ap (get_elem? t) (omega arith) ∙ h 0 (omega arith)

pub Holds-tail :
    (t : List ℤ) (b c : ℕ) (v : ℤ) (vs : List ℤ) → c ≡ suc b → Holds t b (v ∷ vs) → Holds t c vs
Holds-tail t b c v vs e h j k = ap (get_elem? t) (omega (arith, e)) ∙ h (suc j) (omega arith)

pub write_outside :
    (o : ℕ) (vs ret : List ℤ) (i : ℕ)
    → o + length vs ≤ length ret
    → (i < o) ⊎ (o + length vs ≤ i)
    → get_elem? (write o vs ret) i ≡ get_elem? ret i
write_outside o vs ret i h (inl k) = write_before o vs ret h i k
write_outside o vs ret i h (inr k) =
    let e : i ≡ o + (length vs + (i - (o + length vs))) = omega arith in
    ap (get_elem? (write o vs ret)) e
    ∙ (write_after o vs ret h (i - (o + length vs)) ∙ ap (get_elem? ret) (sym e))

pub slot_outside :
    (slot : Option ℕ) (ret : List ℤ) (i : ℕ)
    → 2 ≤ length ret
    → (i < 1) ⊎ (2 ≤ i)
    → get_elem? (set_slot slot ret) i ≡ get_elem? ret i
slot_outside none ret i h k = refl
slot_outside (some idx) ret i h k = write_outside 1 (pos idx ∷ []) ret i (omega arith) k

-- The index that is announced; a rank without a slot handle announces 0.
abbrev pub slot_or_zero : Option ℕ → ℕ
slot_or_zero none = 0
slot_or_zero (some idx) = idx

pub slot_inside :
    (slot : Option ℕ) (ret : List ℤ)
    → 2 ≤ length ret
    → get_elem? ret 1 ≡ some (pos 0)
    → get_elem? (set_slot slot ret) 1 ≡ some (pos (slot_or_zero slot))
slot_inside none ret h z = z
slot_inside (some idx) ret h z =
    ap (get_elem? (write 1 (pos idx ∷ []) ret)) (omega arith)
    ∙ write_in 1 (pos idx ∷ []) ret (omega arith) 0 (omega arith)

-- The tensor with the payload's value, before the tasks are written.
abbrev pub opened : ℕ → ℕ → List ℤ
opened m v = write 0 (pos v ∷ []) (empty_serialization m)

pub length-opened : (m v : ℕ) → length (opened m v) ≡ 2 + m * 3
unfolding empty_serialization
length-opened m v =
    length-write 0 (pos v ∷ []) (empty_serialization m)
      (omega (arith, length-replicate (2 + m * 3) (pos 0)))
    ∙ length-replicate (2 + m * 3) (pos 0)

pub opened_rest : (m v i : ℕ) → 1 ≤ i → i < 2 + m * 3 → get_elem? (opened m v) i ≡ some (pos 0)
unfolding empty_serialization
opened_rest m v i h k =
    write_outside 0 (pos v ∷ []) (empty_serialization m) i
      (omega (arith, length-replicate (2 + m * 3) (pos 0))) (inr (omega arith))
    ∙ get_elem?-replicate (2 + m * 3) i (pos 0) k

pub opened_payload : (m v : ℕ) → get_elem? (opened m v) 0 ≡ some (pos v)
unfolding empty_serialization
opened_payload m v = refl
