-- ===== src/Cache/Dense/Release.antt =====
-- The end of a request in the dense cache: its slot gets free, and the last one moves there.
use chitu.Base.{
  ℕ, zero, suc, ◌≡◌, ◌≢◌, ◌>>=◌, ◌>>◌, lift, continue, refl, sym, ap, ◌∙◌, Bool, true, false,
  Option, none, some, String, List, [], ◌∷◌, arith, length, get_elem?, get_elem?-lt,
  get_elem?-set_self, get_or, set, get, put, remove, put-Distinct, get-remove_self, get-remove_ne,
  Result, ok, raise, string_eq, ◌==◌, Bool-cases, inl, inr, ◌⊎◌,
}
use chitu.Cache.Requests.{Requests, base_finalize_cache_all_decode}
use chitu.Cache.Dense.{
  Dense, slot_of, key_of, slot_last_id, move_last, drop_slot, free_slot, finalize_at,
  finalize_cache_all_decode, on_base,
}
use chitu.Cache.Dense.Slotted.{IsSlotted, get-put_self, get-put_ne}
use chitu.Cache.Dense.Searches.{
  slot_of-none, slot_of-get, IsBehind, FindsBehind, slot_last_id-FindsBehind, taken-some,
  key_of-get,
}
use chitu.Cache.Dense.Moves.{neq, drop-Slots, move-Slots}

get_or-get {ℓ} :
    {A : Type ℓ} (xs : List A) (i : ℕ) (z : A) {x : A} → get_elem? xs i ≡ some x → get_or xs i z ≡ x
get_or-get [] i z h = cc
get_or-get (x ∷ xs) zero z h = cc
get_or-get (x ∷ xs) (suc i) z h = get_or-get xs i z h

get_or-set_ne {ℓ} :
    {A : Type ℓ} (xs : List A) (i j : ℕ) (v z : A) → i ≢ j → get_or (set xs i v) j z ≡ get_or xs j z
get_or-set_ne [] i j v z h = refl
get_or-set_ne (x ∷ xs) zero zero v z h = absurd (h refl)
get_or-set_ne (x ∷ xs) zero (suc j) v z h = refl
get_or-set_ne (x ∷ xs) (suc i) zero v z h = refl
get_or-set_ne (x ∷ xs) (suc i) (suc j) v z h = get_or-set_ne xs i j v z (λ e. h (ap suc e))

module _ {V : Type 0} (zeros : V) where
  -- What the buffers hold for a slot that is looked up.
  abbrev pub data_at : List V → Option ℕ → Option V
  data_at kv none = none
  data_at kv (some i) = some (get_or kv i zeros)

  abbrev pub data_of : Dense V → String → Option V
  data_of d r = data_at d.kv_buffer (get d.req2slot r)

  -- A request has no slot any more; what the buffers hold for the others is what they held.
  abbrev pub IsFreed : Dense V → String → Dense V → Type 0
  IsFreed d r e =
      IsSlotted e × (get e.req2slot r ≡ none) × ((x : String) → x ≢ r → data_of e x ≡ data_of d x)

  module _ (d : Dense V) (r : String) (i : ℕ) (h : IsSlotted d)
      (mine : get_elem? d.hot_reqs i ≡ some (some r)) where
    at_slot : get d.req2slot r ≡ some i
    at_slot = h.to_slot r i mine

    not_slot : (x : String) (j : ℕ) → x ≢ r → get d.req2slot x ≡ some j → i ≢ j
    not_slot x j n g e =
        let a : get_elem? d.hot_reqs i ≡ some (some x) = rw e (h.to_hot x j g) in
        let b : x ≡ r = cc in n b

    flip : {x y : String} → x ≢ y → y ≢ x
    flip n e = n (sym e)

    dropped :
        (x : String) (o : Option ℕ)
        → x ≢ r
        → get d.req2slot x ≡ o
        → data_at (set d.kv_buffer i zeros) o ≡ data_at d.kv_buffer o
    dropped x none n g = refl
    dropped x (some j) n g = ap some (get_or-set_ne d.kv_buffer i j zeros zeros (not_slot x j n g))

    drop_slot-IsFreed : IsFreed d r (drop_slot zeros r i d).1
    unfolding get
    drop_slot-IsFreed = rw at_slot (
      drop-Slots d.slot_availability d.hot_reqs d.req2slot r i h mine,
      get-remove_self d.req2slot r h.once,
      λ x n.
          rw (get-remove_ne d.req2slot r x (neq r x (flip n)))
            (dropped x (get d.req2slot x) n refl),
    )

    module _ (q : String) (l : ℕ) (last : get_elem? d.hot_reqs l ≡ some (some q)) (apart : i ≢ l)
        (full : length d.kv_buffer ≡ length d.hot_reqs) where
      abbrev new_kv : List V
      new_kv = set (set d.kv_buffer i (get_or d.kv_buffer l zeros)) l zeros

      moved : get_or new_kv i zeros ≡ get_or d.kv_buffer l zeros
      moved =
          get_or-set_ne (set d.kv_buffer i (get_or d.kv_buffer l zeros)) l i zeros zeros
            (λ e. apart (sym e))
          ∙ get_or-get (set d.kv_buffer i (get_or d.kv_buffer l zeros)) i zeros (
              get_elem?-set_self d.kv_buffer i (get_or d.kv_buffer l zeros)
                (omega (arith, full, get_elem?-lt d.hot_reqs i mine)))

      stayed :
          (x : String) (o : Option ℕ)
          → x ≢ r
          → x ≢ q
          → get d.req2slot x ≡ o
          → data_at new_kv o ≡ data_at d.kv_buffer o
      stayed x none n m g = refl
      stayed x (some j) n m g = ap some (
          get_or-set_ne (set d.kv_buffer i (get_or d.kv_buffer l zeros)) l j zeros zeros not_last
          ∙ get_or-set_ne d.kv_buffer i j (get_or d.kv_buffer l zeros) zeros (not_slot x j n g))
        where
          not_last : l ≢ j
          not_last e =
              let a : get_elem? d.hot_reqs l ≡ some (some x) = rw e (h.to_hot x j g) in
              let b : x ≡ q = cc in m b

      data_moved :
          (x : String)
          → x ≢ r
          → data_at new_kv (get (remove (put d.req2slot q i) r) x)
            ≡ data_at d.kv_buffer (get d.req2slot x)
      data_moved x n =
          rw (get-remove_ne (put d.req2slot q i) r x (neq r x (flip n)))
            (by_name (Bool-cases (q == x)))
        where
          by_name :
              (q == x ≡ true) ⊎ (q == x ≡ false)
              → data_at new_kv (get (put d.req2slot q i) x) ≡ data_at d.kv_buffer (get d.req2slot x)
          by_name (inl e) =
              let s : q ≡ x = (string_eq.beq_iff q x).0 e in
              let b : get d.req2slot q ≡ some l = h.to_slot q l last in
              rw (sym s, get-put_self d.req2slot q i, b) (ap some moved)
          by_name (inr e) =
              let m : q ≢ x = λ s. clash (q == x) ((string_eq.beq_iff q x).1 s) e in
              rw (get-put_ne d.req2slot q x i m) (stayed x (get d.req2slot x) n (flip m) refl)
            where
              clash : (b : Bool) → b ≡ true → b ≡ false → ⊥
              clash true t f = cc
              clash false t f = cc

      move_last-IsFreed : IsFreed d r (move_last zeros r i l d)
      move_last-IsFreed = by_key (key_of-get d.req2slot q l h.once (h.to_slot q l last))
        where
          by_key :
              (k : String) × (key_of d.req2slot l ≡ some k) × (get d.req2slot k ≡ some l)
              → IsFreed d r (move_last zeros r i l d)
          by_key (k, e, g) =
              let a : get_elem? d.hot_reqs l ≡ some (some k) = h.to_hot k l g in
              let s : k ≡ q = cc in
              let f : key_of d.req2slot l ≡ some q = rw (sym s) e in
              rw f (
                move-Slots d.slot_availability d.hot_reqs d.req2slot r i h mine q l last apart,
                get-remove_self (put d.req2slot q i) r (put-Distinct d.req2slot q i h.once),
                data_moved,
              )

  -- The end of a request: it is freed, or the call raises, and it is freed or nothing has changed.
  abbrev pub IsEnded : Dense V → String → Result (Unit {0}) × Dense V → Type 0
  IsEnded d r (ok u, e) = IsFreed d r e
  IsEnded d r (raise x, e) = IsFreed d r e ⊎ (e ≡ d)

  base_kept :
      (d e : Dense V) (r : String)
      → IsFreed d r e
      → IsEnded d r (on_base (base_finalize_cache_all_decode r) e)
  base_kept d e r f =
      by_result ((base_finalize_cache_all_decode r) e.base).0
        ((base_finalize_cache_all_decode r) e.base).1
    where
      by_result : (o : Result (Unit {0})) (b : Requests) → IsEnded d r (o, record e { base = b })
      by_result (ok u) b = f
      by_result (raise x) b = inl f

  finalize_slot-IsEnded :
      (d : Dense V) (r : String) (i : ℕ) (o : Option ℕ)
      → IsSlotted d
      → get_elem? d.hot_reqs i ≡ some (some r)
      → length d.kv_buffer ≡ length d.hot_reqs
      → IsBehind d.slot_availability i o
      → IsEnded d r ((free_slot zeros r i o >> on_base (base_finalize_cache_all_decode r)) d)
  finalize_slot-IsEnded d r i none h mine full b =
      by_result (drop_slot zeros r i d).0 (drop_slot zeros r i d).1 (drop_slot-IsFreed d r i h mine)
    where
      by_result :
          (o : Result (Unit {0})) (e : Dense V)
          → IsFreed d r e
          → IsEnded d r (continue o (λ u. on_base (base_finalize_cache_all_decode r)) e)
      by_result (ok u) e f = base_kept d e r f
      by_result (raise x) e f = inl f
  finalize_slot-IsEnded d r i (some l) h mine full b =
      by_last (taken-some d.hot_reqs l (rw (sym h.free) b.1))
    where
      by_last :
          (q : String) × (get_elem? d.hot_reqs l ≡ some (some q))
          → IsEnded d r (on_base (base_finalize_cache_all_decode r) (move_last zeros r i l d))
      by_last (q, last) =
          base_kept d (move_last zeros r i l d) r
            (move_last-IsFreed d r i h mine q l last (λ e. omega (arith, e, b.0)) full)

  -- For slots that are well kept and as many rows of the buffers as slots: after the end of a
  -- request that returns, it has no slot, the slots are well kept, and what the buffers hold for
  -- each other request is what they held, also if its slot is another one now. When the call
  -- raises, the same is so, or the state is the one before the call.
  pub finalize_cache_all_decode-IsEnded :
      (r : String) (d : Dense V)
      → IsSlotted d
      → length d.kv_buffer ≡ length d.hot_reqs
      → IsEnded d r (finalize_cache_all_decode zeros r d)
  unfolding finalize_cache_all_decode
  finalize_cache_all_decode-IsEnded r d h full = by_slot (slot_of r d.hot_reqs) refl
    where
      by_search :
          (i : ℕ) (o : Result (Option ℕ))
          → get_elem? d.hot_reqs i ≡ some (some r)
          → FindsBehind d.slot_availability i o
          → IsEnded d r (
              (lift o >>= λ last.
              free_slot zeros r i last >> on_base (base_finalize_cache_all_decode r))
                d)
      by_search i (ok o) mine b = finalize_slot-IsEnded d r i o h mine full b
      by_search i (raise x) mine b = inr refl

      nowhere :
          (o : Option ℕ)
          → slot_of r d.hot_reqs ≡ none
          → get d.req2slot r ≡ o
          → get d.req2slot r ≡ none
      nowhere none e g = g
      nowhere (some i) e g = absurd (slot_of-none r d.hot_reqs i e (h.to_hot r i g))

      by_slot : (o : Option ℕ) → slot_of r d.hot_reqs ≡ o → IsEnded d r (finalize_at zeros r o d)
      by_slot none e = (h, nowhere (get d.req2slot r) e refl, λ x n. refl)
      by_slot (some i) e =
          by_search i (slot_last_id d.slot_handle d.slot_availability d.num_hot_req i)
            (slot_of-get r d.hot_reqs i e)
            (slot_last_id-FindsBehind d.slot_handle d.slot_availability d.num_hot_req i)
