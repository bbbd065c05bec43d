-- ===== src/Base/Keys.antt =====
-- Lists that hold no key twice.
use mathlib.Core.Path.{◌≡◌, refl, ◌∙◌}
use mathlib.Core.Bool.{Bool, false, ◌||◌}
use mathlib.Core.List.{List, [], ◌∷◌, ◌++◌}
use native.Mathlib.Omega.{arith}
use chitu.Base.Tests.{Eq, ◌==◌}
use chitu.Base.Lists.{any_of, All}

module _ {ℓ} {K : Type ℓ} ⦃e : Eq K⦄ where
  -- k in xs
  abbrev pub has_key : K → List K → Bool
  has_key k xs = any_of (λ j. j == k) xs

  abbrev pub Unique : List K → Type 0
  Unique [] = Unit
  Unique (x ∷ xs) = (has_key x xs ≡ false) × Unique xs

  pub has_key-append :
      (k : K) (xs ys : List K) → has_key k (xs ++ ys) ≡ (has_key k xs || has_key k ys)
  has_key-append k [] ys = refl
  has_key-append k (x ∷ xs) ys = ground (arith, has_key-append k xs ys)

  pub Unique-append : (xs ys : List K) → Unique (xs ++ ys) → Unique xs × Unique ys
  Unique-append [] ys h = (tt, h)
  Unique-append (x ∷ xs) ys h = ground (arith, has_key-append x xs ys, Unique-append xs ys h.1)

  pub Unique-drop : (xs : List K) (y : K) (ys : List K) → Unique (xs ++ y ∷ ys) → Unique (xs ++ ys)
  Unique-drop [] y ys h = h.1
  Unique-drop (x ∷ xs) y ys h =
      ground (arith, has_key-append x xs (y ∷ ys), has_key-append x xs ys, Unique-drop xs y ys h.1)

  pub Unique-fresh :
      (xs : List K) (y : K) (ys : List K) → Unique (xs ++ y ∷ ys) → has_key y xs ≡ false
  Unique-fresh [] y ys h = refl
  Unique-fresh (x ∷ xs) y ys h =
      ground (
        arith,
        has_key-append x xs (y ∷ ys),
        e.beq_iff x y,
        e.beq_iff y x,
        Unique-fresh xs y ys h.1,
      )

  -- What stands behind is not in front.
  pub Unique-apart : (xs ys : List K) → Unique (xs ++ ys) → All (λ y. has_key y xs ≡ false) ys
  Unique-apart xs [] h = tt
  Unique-apart xs (y ∷ ys) h = (Unique-fresh xs y ys h, Unique-apart xs ys (Unique-drop xs y ys h))

  -- What stands in front is not behind.
  pub Unique-ahead : (xs ys : List K) → Unique (xs ++ ys) → All (λ x. has_key x ys ≡ false) xs
  Unique-ahead [] ys h = tt
  Unique-ahead (x ∷ xs) ys h = (ground (arith, has_key-append x xs ys), Unique-ahead xs ys h.1)

  pub Unique-join :
      (xs ys : List K)
      → Unique xs
      → Unique ys
      → All (λ x. has_key x ys ≡ false) xs
      → Unique (xs ++ ys)
  Unique-join [] ys u v h = v
  Unique-join (x ∷ xs) ys u v h =
      (has_key-append x xs ys ∙ ground arith, Unique-join xs ys u.1 v h.1)
