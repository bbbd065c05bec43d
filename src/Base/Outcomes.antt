-- ===== src/Base/Outcomes.antt =====
-- Python's exceptions as values, and methods that change an object's fields and may raise: what was
-- written before a `raise` stays written, so the state comes back beside the error too.
use mathlib.Core.Path.{◌≡◌, refl}
use mathlib.Core.Bool.{Bool, true, false}

pub data Error : Type 0 where
  assertion_error value_error key_error index_error : Error
  runtime_error generic_exception not_implemented attribute_error zero_division_error : Error

pub data Result {ℓ} (A : Type ℓ) : Type ℓ where
  ok : A → Result A
  raise : Error → Result A

abbrev pub Exec {ℓ} : Type ℓ → Type ℓ → Type ℓ
Exec S A = S → Result A × S

module _ {ℓ} {S A : Type ℓ} where
  abbrev pub pure : A → Exec S A
  pure a s = (ok a, s)

  abbrev pub throw : Error → Exec S A
  throw e s = (raise e, s)

  abbrev pub lift : Result A → Exec S A
  lift r s = (r, s)

  abbrev pub gets : (S → A) → Exec S A
  gets f s = (ok (f s), s)

abbrev pub modify : {S : Type 0} → (S → S) → Exec S (Unit {0})
modify f s = (ok tt, f s)

-- assert b
abbrev pub assert : {S : Type 0} → Bool → Error → Exec S (Unit {0})
assert true e s = (ok tt, s)
assert false e s = (raise e, s)

module _ {ℓ} {S A B : Type ℓ} where
  abbrev pub continue : Result A → (A → Exec S B) → Exec S B
  continue (ok a) f s = f a s
  continue (raise e) f s = (raise e, s)

  infixl 10 ◌>>=◌ ◌>>◌
  abbrev pub ◌>>=◌ : Exec S A → (A → Exec S B) → Exec S B
  ◌>>=◌ m f s = continue (m s).0 f (m s).1

  abbrev pub ◌>>◌ : Exec S A → Exec S B → Exec S B
  ◌>>◌ m n s = continue (m s).0 (λ _. n) (m s).1

-- A method that returns nothing: did it return?
abbrev pub Returns {ℓ} : {S A : Type ℓ} → Result A × S → Type 0
Returns (ok a, s) = Unit
Returns (raise e, s) = ⊥

-- Inversion of a sequence that returned.
pub bind-eq-ok {ℓ} :
    {S A B : Type ℓ} (m : Exec S A) (n : A → Exec S B) (s s' : S) (b : B)
    → (m >>= n) s ≡ (ok b, s')
    → (a : A) × (t : S) × (m s ≡ (ok a, t)) × (n a t ≡ (ok b, s'))
bind-eq-ok {S} {A} {B} m n s s' b h = by_result (m s).0 (m s).1 refl h
  where
    by_result :
        (r : Result A) (t : S)
        → m s ≡ (r, t)
        → continue r n t ≡ (ok b, s')
        → (a : A) × (t' : S) × (m s ≡ (ok a, t')) × (n a t' ≡ (ok b, s'))
    by_result (ok a) t e k = (a, t, e, k)
    by_result (raise x) t e k = cc

pub then-eq-ok {ℓ} :
    {S A B : Type ℓ} (m : Exec S A) (n : Exec S B) (s s' : S) (b : B)
    → (m >> n) s ≡ (ok b, s')
    → (a : A) × (t : S) × (m s ≡ (ok a, t)) × (n t ≡ (ok b, s'))
then-eq-ok m n = bind-eq-ok m (λ _. n)

-- What a method keeps, whether it returns or raises.
abbrev pub Preserves {ℓ} : {S A : Type ℓ} → (S → Type 0) → Exec S A → Type ℓ
Preserves P m = (s : _) → P s → P (m s).1

pub bind-Preserves {ℓ} :
    {S A B : Type ℓ} (P : S → Type 0) (m : Exec S A) (n : A → Exec S B)
    → Preserves P m
    → ((a : A) → Preserves P (n a))
    → Preserves P (m >>= n)
bind-Preserves P m n hm hn s h = by_result (m s).0 (hm s h)
  where
    by_result : (r : Result _) → P (m s).1 → P (continue r n (m s).1).1
    by_result (ok a) k = hn a (m s).1 k
    by_result (raise e) k = k
