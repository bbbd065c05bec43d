-- ===== src/Cache/Dense/Moves.antt =====
-- How the slots of the dense cache change when one gets free.
use chitu.Base.{
  set-cases, ℕ, zero, suc, ◌<◌, ◌≡◌, ◌≢◌, refl, sym, ap, ◌∙◌, Bool, true, false, Option, none, some,
  String, List, [], ◌∷◌, map, length, get_elem?, get_elem?-lt, get_elem?-set_self, get_elem?-set_ne,
  set, Dict, get, put, remove, Distinct, put-Distinct, get-remove_self, get-remove_ne,
  get_of-remove, remove-Distinct, string_eq, ◌==◌, Bool-cases, inl, inr, ◌⊎◌,
}
use chitu.Cache.Dense.Slotted.{
  is_none, Slots, map-set, get-map, put-cases, get-put_self, get-put_ne,
}

set_same {ℓ} :
    {A : Type ℓ} (xs : List A) (i : ℕ) {v : A} → get_elem? xs i ≡ some v → set xs i v ≡ xs
set_same [] i h = refl
set_same (x ∷ xs) zero {v} h = let e : x ≡ v = cc in rw e refl
set_same (x ∷ xs) (suc i) h = ap (λ t. x ∷ t) (set_same xs i h)

pub neq : (r q : String) → r ≢ q → r == q ≡ false
neq r q n = elim (Bool-cases (r == q)) [
  | inl e ↦ absurd (n ((string_eq.beq_iff r q).0 e))
  | inr e ↦ e
]

module _ (av : List Bool) (hs : List (Option String)) (d : Dict String ℕ) (r : String) (i : ℕ)
    (h : Slots av hs d) (mine : get_elem? hs i ≡ some (some r)) where
  bound : i < length hs
  bound = get_elem?-lt hs i mine

  nobody : (x : String) → some x ≡ none → ⊥
  nobody x e = cc

  pub other_name : (x : String) (j : ℕ) → j ≢ i → get_elem? hs j ≡ some (some x) → r == x ≡ false
  other_name x j n g = elim (Bool-cases (r == x)) [
    | inl e ↦
        (let same : r ≡ x = (string_eq.beq_iff r x).0 e in
          let a : get d x ≡ some j = h.to_slot x j g in
          let b : get d x ≡ some i = rw (sym same) (h.to_slot r i mine) in
          let c : j ≡ i = cc in absurd (n c))
    | inr e ↦ e
  ]

  pub drop-Slots : Slots (set av i true) (set hs i none) (remove d r)
  drop-Slots = record {
    to_hot = λ x j k.
        let g = get_of-remove d r x j h.once k in
        get_elem?-set_ne hs none (λ s. elsewhere x j s g k) ∙ h.to_hot x j g;
    to_slot = λ x j k. elim (set-cases hs i j k) [
      | inl e ↦ absurd (nobody x e.1)
      | inr e ↦ get-remove_ne d r x (other_name x j e.0 e.1) ∙ h.to_slot x j e.1
    ];
    once = remove-Distinct d r h.once;
    free = rw (h.free, map-set is_none hs i none) refl;
  }
    where
      gone : (x : String) (j : ℕ) → x ≡ r → get (remove d r) x ≡ some j → ⊥
      gone x j e k =
          let a : get (remove d r) r ≡ some j = rw e at k in
          let b : get (remove d r) r ≡ none = get-remove_self d r h.once in cc

      elsewhere : (x : String) (j : ℕ) → i ≡ j → get d x ≡ some j → get (remove d r) x ≡ some j → ⊥
      elsewhere x j s g k =
          let a : get_elem? hs i ≡ some (some x) = rw s (h.to_hot x j g) in
          let same : x ≡ r = cc in gone x j same k

  -- The request of slot `l` moves to the slot of the one that ends.
  module _ (q : String) (l : ℕ) (last : get_elem? hs l ≡ some (some q)) (apart : i ≢ l) where
    pub ends_first : r ≢ q
    ends_first e =
        let a : get d q ≡ some l = h.to_slot q l last in
        let b : get d q ≡ some i = rw (sym e) (h.to_slot r i mine) in let c : i ≡ l = cc in apart c

    same_set : set (map is_none hs) i false ≡ map is_none hs
    same_set = set_same (map is_none hs) i (get-map is_none hs i mine)

    pub move-Slots : Slots (set av l true) (set (set hs i (some q)) l none) (remove (put d q i) r)
    move-Slots = record {
      to_hot = λ x j k. by_put x j k (get_of-remove (put d q i) r x j distinct k);
      to_slot = λ x j k. elim (set-cases (set hs i (some q)) l j k) [
        | inl e ↦ absurd (nobody x e.1)
        | inr e ↦ by_set x j e.0 (set-cases hs i j e.1)
      ];
      once = remove-Distinct (put d q i) r distinct;
      free =
          rw
            (
              h.free,
              map-set is_none (set hs i (some q)) l none,
              map-set is_none hs i (some q),
              same_set,
            )
            refl;
    }
      where
        distinct : Distinct (put d q i)
        distinct = put-Distinct d q i h.once

        not_mine : (x : String) (j : ℕ) → get (remove (put d q i) r) x ≡ some j → x ≢ r
        not_mine x j k e =
            let a : get (remove (put d q i) r) r ≡ some j = rw e at k in
            let b : get (remove (put d q i) r) r ≡ none = get-remove_self (put d q i) r distinct in
            cc

        by_put :
            (x : String) (j : ℕ)
            → get (remove (put d q i) r) x ≡ some j
            → get (put d q i) x ≡ some j
            → get_elem? (set (set hs i (some q)) l none) j ≡ some (some x)
        by_put x j k g = elim (put-cases d q x i j g) [
          | inl e ↦
              rw (e.0, e.1)
                (get_elem?-set_ne (set hs i (some q)) none (λ s. apart (sym s))
                  ∙ get_elem?-set_self hs i (some q) bound)
          | inr e ↦
              get_elem?-set_ne (set hs i (some q)) none (λ s. not_last x j e.0 e.1 s)
              ∙ get_elem?-set_ne hs (some q) (λ s. not_mine x j k (named x j e.1 s))
              ∙ h.to_hot x j e.1
        ]
          where
            not_last : (x : String) (j : ℕ) → x ≢ q → get d x ≡ some j → l ≡ j → ⊥
            not_last x j n g s =
                let a : get_elem? hs l ≡ some (some x) = rw s (h.to_hot x j g) in
                let b : x ≡ q = cc in n b

            named : (x : String) (j : ℕ) → get d x ≡ some j → i ≡ j → x ≡ r
            named x j g s = let a : get_elem? hs i ≡ some (some x) = rw s (h.to_hot x j g) in cc

        by_set :
            (x : String) (j : ℕ)
            → j ≢ l
            → (j ≡ i) × (some x ≡ some q) ⊎ (j ≢ i) × (get_elem? hs j ≡ some (some x))
            → get (remove (put d q i) r) x ≡ some j
        by_set x j n (inl e) =
            let same : x ≡ q = cc in
            rw (same, e.0) (get-remove_ne (put d q i) r q (neq r q ends_first) ∙ get-put_self d q i)
        by_set x j n (inr e) =
            get-remove_ne (put d q i) r x (other_name x j e.0 e.1)
            ∙ get-put_ne d q x i (λ s. n (moved x j s (h.to_slot x j e.1)))
            ∙ h.to_slot x j e.1
          where
            moved : (x : String) (j : ℕ) → q ≡ x → get d x ≡ some j → j ≡ l
            moved x j s g = let a : get d x ≡ some l = rw (sym s) (h.to_slot q l last) in cc
