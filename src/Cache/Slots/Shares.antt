-- ===== src/Cache/Slots/Shares.antt =====
-- chitu/global_vars.py, `SlotHandle.__init__`: how many slots each micro batch gets.
use native.Mathlib.Nat.{
  mul-add-mod_self_right, mod-eq_of_lt, mul-add-div_right, div-eq_of_lt, suc-mul,
}
use chitu.Base.{
  ℕ, zero, suc, ◌+◌, ◌*◌, ◌/◌, ◌%◌, ◌<◌, ◌≤◌, ◌≡◌, inl, inr, refl, sym, ap, ◌∙◌, Bool-cases, ltb,
  map, arith, min, get_or, set, replicate, range_from,
}
use chitu.Parallel.Layers.{share}
use chitu.Cache.Slots.{count_up, split_slots}

map-share-past :
    (q r a k : ℕ)
    → r < a
    → map (share q r) (range_from a k) ≡ map (share q (r + 1)) (range_from a k)
map-share-past q r a zero h = refl
map-share-past q r a (suc k) h =
    let e : share q r a ≡ share q (r + 1) a = ground arith in
    rw (e, map-share-past q r (suc a) k (omega (arith, h))) refl

-- One more for the slot whose turn it is.
set-share :
    (q r a d k : ℕ)
    → r ≡ a + d
    → set (map (share q r) (range_from a k)) d (get_or (map (share q r) (range_from a k)) d 0 + 1)
      ≡ map (share q (r + 1)) (range_from a k)
set-share q r a d zero h = refl
set-share q r a zero (suc k) h =
    let e : share q r a + 1 ≡ share q (r + 1) a = ground (arith, h) in
    rw (e, map-share-past q r (suc a) k (omega (arith, h))) refl
set-share q r a (suc d) (suc k) h =
    let e : share q r a ≡ share q (r + 1) a = ground (arith, h) in
    rw (e, set-share q r (suc a) d k (omega (arith, h))) refl

-- A full round.
map-share-full :
    (q p a k : ℕ)
    → a + k ≤ p
    → map (share q p) (range_from a k) ≡ map (share (q + 1) 0) (range_from a k)
map-share-full q p a zero h = refl
map-share-full q p a (suc k) h =
    let e : share q p a ≡ share (q + 1) 0 a = ground (arith, h) in
    rw (e, map-share-full q p (suc a) k (omega (arith, h))) refl

at-div : (q r p : ℕ) → r < p → (q * p + r) / p ≡ q
at-div q r p h =
    let e : (q * p + r) / p ≡ q + r / p = mul-add-div_right (omega (arith, h)) q r in
    rw (e, div-eq_of_lt h) (omega arith)

at-mod : (q r p : ℕ) → r < p → (q * p + r) % p ≡ r
at-mod q r p h = mul-add-mod_self_right q p r ∙ mod-eq_of_lt h

-- The slots of each after n more.
count_up-share :
    (n i q r p k : ℕ)
    → i ≡ q * p + r
    → r < p
    → k ≤ p
    → count_up i n p (map (share q r) (range_from 0 k))
      ≡ map (share ((i + n) / p) ((i + n) % p)) (range_from 0 k)
count_up-share zero i q r p k e h b =
    let z : i + 0 ≡ q * p + r = omega (arith, e) in rw (z, at-div q r p h, at-mod q r p h) refl
count_up-share (suc n) i q r p k e h b =
    let m : i % p ≡ r = ap (λ x. x % p) e ∙ at-mod q r p h in
    let s : i + suc n ≡ suc i + n = omega arith in
    rw (m, set-share q r 0 r k (omega arith), s)
      (elim (Bool-cases (ltb (r + 1) p)) [
        | inl y ↦ count_up-share n (suc i) q (r + 1) p k (omega (arith, e)) (ground (arith, y)) b
        | inr y ↦
            let w : r + 1 ≡ p = ground (arith, y, h) in
            let g : suc i ≡ suc q * p + 0 = rw (suc-mul q p) (omega (arith, e, w)) in
            let o : q + 1 ≡ suc q = omega arith in
            rw (w, map-share-full q p 0 k (omega (arith, b)), o)
              (count_up-share n (suc i) (suc q) 0 p k g (omega (arith, h)) b)
      ])

map-share-zero : (a k : ℕ) → replicate k 0 ≡ map (share 0 0) (range_from a k)
map-share-zero a zero = refl
map-share-zero a (suc k) =
    let e : 0 ≡ share 0 0 a = ground arith in rw (sym e, map-share-zero (suc a) k) refl

-- For a positive number of parts, handing out the slots one by one in turn gives what a division
-- gives: total / parts for each part, one more for the first total % parts, and no part beyond
-- total.
pub split_slots-share :
    (total parts : ℕ)
    → 0 < parts
    → split_slots total parts
      ≡ map (share (total / parts) (total % parts)) (range_from 0 (min total parts))
unfolding split_slots
split_slots-share total parts h =
    let z : 0 + total ≡ total = omega arith in
    rw
      (
        map-share-zero 0 (min total parts),
        count_up-share total 0 0 0 parts (min total parts) (omega arith) h (ground arith),
        z,
      )
      refl
