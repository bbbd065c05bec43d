-- ===== src/Base/Dicts.antt =====
-- Python's `dict`: the entries in insertion order. A write to a key that is there keeps its place.
use Prim.Native.Nat.{◌+◌}
use mathlib.Core.Path.{◌≡◌, refl}
use mathlib.Core.Bool.{Bool, true, false, ◌&&◌}
use mathlib.Core.Logic.{◌↔◌}
use mathlib.Core.Option.{Option, none, some}
use mathlib.Core.List.{List, [], ◌∷◌}
use native.Mathlib.Omega.{arith}
use chitu.Base.Tests.{Eq, ◌==◌, if◌then◌else◌}
use chitu.Base.Lists.{length}

abbrev pub Dict {ℓ} : Type ℓ → Type ℓ → Type ℓ
Dict K V = List (K × V)

-- A tuple as a key.
module _ {ℓ} {K : Type ℓ} ⦃e : Eq K⦄ where
  abbrev pub list_beq : List K → List K → Bool
  list_beq [] [] = true
  list_beq [] (y ∷ ys) = false
  list_beq (x ∷ xs) [] = false
  list_beq (x ∷ xs) (y ∷ ys) = x == y && list_beq xs ys

  pub list_beq_iff : (xs ys : List K) → (list_beq xs ys ≡ true) ↔ (xs ≡ ys)
  list_beq_iff [] [] = grind arith
  list_beq_iff [] (y ∷ ys) = grind arith
  list_beq_iff (x ∷ xs) [] = grind arith
  list_beq_iff (x ∷ xs) (y ∷ ys) = grind (arith, e.beq_iff x y, list_beq_iff xs ys)

  instance abbrev pub list_eq : Eq (List K)
  list_eq = record { beq = list_beq; beq_iff = list_beq_iff }

module _ {ℓ} {K V : Type ℓ} ⦃e : Eq K⦄ where
  -- d.get(k)
  unfoldable pub get : Dict K V → K → Option V
  get [] k = none
  get ((j, v) ∷ d) k = if j == k then some v else get d k

  -- k in d
  abbrev pub has : Dict K V → K → Bool
  has d k = elim (get d k) [ none ↦ false | some _ ↦ true ]

  -- d.get(k, default)
  abbrev pub get_default : Dict K V → K → V → V
  get_default d k v = elim (get d k) [ none ↦ v | some w ↦ w ]

  -- d[k] = v
  unfoldable pub put : Dict K V → K → V → Dict K V
  put [] k v = (k, v) ∷ []
  put ((j, w) ∷ d) k v = if j == k then (j, v) ∷ d else (j, w) ∷ put d k v

  -- del d[k]
  unfoldable pub remove : Dict K V → K → Dict K V
  remove [] k = []
  remove ((j, w) ∷ d) k = if j == k then d else (j, w) ∷ remove d k

  -- A dictionary holds a key once.
  abbrev pub Distinct : Dict K V → Type 0
  Distinct [] = Unit
  Distinct ((k, _) ∷ d) = (has d k ≡ false) × Distinct d

  pub get-put :
      (d : Dict K V) (k j : K) (v : V) → get (put d k v) j ≡ (if k == j then some v else get d j)
  unfolding get put
  get-put [] k j v = refl
  get-put ((i, w) ∷ d) k j v =
      ground (arith, e.beq_iff k j, e.beq_iff i k, e.beq_iff i j, get-put d k j v)

  pub get-remove_ne : (d : Dict K V) (k j : K) → e.beq k j ≡ false → get (remove d k) j ≡ get d j
  unfolding get remove
  get-remove_ne [] k j h = refl
  get-remove_ne ((i, w) ∷ d) k j h =
      ground (arith, e.beq_iff k j, e.beq_iff i k, e.beq_iff i j, get-remove_ne d k j h)

  pub get-remove_self : (d : Dict K V) (k : K) → Distinct d → get (remove d k) k ≡ none
  unfolding get remove
  get-remove_self [] k h = refl
  get-remove_self ((i, w) ∷ d) k h = ground (arith, e.beq_iff i k, get-remove_self d k h.1)

  -- What is still there was there.
  pub get_of-remove :
      (d : Dict K V) (k j : K) (v : V) → Distinct d → get (remove d k) j ≡ some v → get d j ≡ some v
  unfolding get remove
  get_of-remove [] k j v h g = g
  get_of-remove ((i, w) ∷ d) k j v h g =
      ground (arith, e.beq_iff i k, e.beq_iff i j, e.beq_iff k j, get_of-remove d k j v h.1)

  pub put-Distinct : (d : Dict K V) (k : K) (v : V) → Distinct d → Distinct (put d k v)
  unfolding get put
  put-Distinct [] k v h = (refl, tt)
  put-Distinct ((i, w) ∷ d) k v h =
      ground (arith, put-Distinct d k v h.1, get-put d k i v, e.beq_iff i k, e.beq_iff k i)

  pub remove-Distinct : (d : Dict K V) (k : K) → Distinct d → Distinct (remove d k)
  unfolding get remove
  remove-Distinct [] k h = tt
  remove-Distinct ((i, w) ∷ d) k h =
      ground (arith, remove-Distinct d k h.1, get-remove_ne d k i, e.beq_iff i k, e.beq_iff k i)

  pub length-remove :
      (d : Dict K V) (k : K) (v : V) → get d k ≡ some v → length (remove d k) + 1 ≡ length d
  unfolding get remove
  length-remove [] k v h = cc
  length-remove ((i, w) ∷ d) k v h = ground (arith, length-remove d k v)
