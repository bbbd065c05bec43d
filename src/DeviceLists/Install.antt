-- ===== src/DeviceLists/Install.antt =====
-- StaticDeviceListManager: what it means for a list to move to a spare row of the buffer.
use mathlib.Core.Path.{subst}
use chitu.Base.{
  ℕ, zero, suc, ◌≤◌, ◌<◌, ◌≡◌, ◌≢◌, refl, sym, ap, ◌∙◌, false, ◌⊎◌, inl, inr, none, some, List, [],
  ◌∷◌, ◌++◌, nat_beq, if◌then◌else◌, length, get_or, get_or-set_self, get_or-set_ne, take, drop,
  count, arith, get, put, remove, get-put, put-Distinct, remove-Distinct, nat_eq, nat_beq_iff,
  Bool-cases, length-set, length-append, length-take, length-drop,
}
use chitu.DeviceLists.{
  Storage, own, row, DeviceList, Manager, cells, to_tensor, move_to_end, install,
}
use chitu.DeviceLists.Rows.{
  LivesIn, IsLive, IsManaged, KeepsLists, IsSpare, get-move, length-put, length-move,
}

module _ {A : Type 0} where
  take-take-append : (n : ℕ) (xs ys : List A) → n ≤ length xs → take n (take n xs ++ ys) ≡ take n xs
  take-take-append zero xs ys h = refl
  take-take-append (suc n) [] ys h = absurd (omega (arith, h))
  take-take-append (suc n) (x ∷ xs) ys h =
      ap (λ l. x ∷ l) (take-take-append n xs ys (omega (arith, h)))

-- The manager when a list has been entered with a spare row, and moved to the end of the queue.
abbrev pub entered : ℕ → ℕ → Manager → Manager
entered k r m = record m { lru_queue = move_to_end (put m.lru_queue k r) k r }

pub get-entered :
    (k r j : ℕ) (m : Manager)
    → get (entered k r m).lru_queue j ≡ (if nat_beq k j then some r else get m.lru_queue j)
get-entered k r j m =
    get-move (put m.lru_queue k r) k r j (get-put m.lru_queue k k r ∙ ground arith)
    ∙ get-put m.lru_queue k j r

entered-cases :
    (k r j s : ℕ) (m : Manager)
    → get (entered k r m).lru_queue j ≡ some s
    → (k ≡ j) × (r ≡ s) ⊎ (k ≢ j) × (get m.lru_queue j ≡ some s)
entered-cases k r j s m g = elim (Bool-cases (nat_beq k j)) [
  | inl e ↦
      inl ((nat_beq_iff k j).0 e, (let f = sym (get-entered k r j m) ∙ g in ground (arith, e, f)))
  | inr e ↦ inr (ground (arith, e), (let f = sym (get-entered k r j m) ∙ g in rw e at f))
]

module _ (k r : ℕ) (m : Manager) (spare : IsSpare r m) (absent : get m.lru_queue k ≡ none)
    (live : IsLive m k) (fits : (m.lists k).len ≤ m.max_num_cols) where
  abbrev pub new_row : List ℕ
  new_row =
      take (m.lists k).len (cells m.buffer (m.lists k).data_of)
      ++ drop (m.lists k).len (get_or m.buffer r [])

  abbrev pub installed : Manager
  installed = (install k r (entered k r m)).1

  long_enough : (st : Storage) (n : ℕ) → LivesIn m.lru_queue k n st → n ≤ length (cells m.buffer st)
  long_enough (own xs) n h = h
  long_enough (row s) n h = absurd (let z = sym absent ∙ h in cc)

  enough : (m.lists k).len ≤ length (cells m.buffer (m.lists k).data_of)
  enough = long_enough (m.lists k).data_of (m.lists k).len live

  length-new_row : length new_row ≡ m.max_num_cols
  length-new_row =
      let front = take (m.lists k).len (cells m.buffer (m.lists k).data_of) in
      let back = drop (m.lists k).len (get_or m.buffer r []) in
      omega (
        arith,
        length-append front back,
        length-take (m.lists k).len (cells m.buffer (m.lists k).data_of),
        length-drop (m.lists k).len (get_or m.buffer r []),
        spare.rows.wide r spare.within.1,
        enough,
        fits,
      )

  tensor-new_row : take (m.lists k).len new_row ≡ to_tensor m k
  unfolding to_tensor
  tensor-new_row =
      take-take-append (m.lists k).len (cells m.buffer (m.lists k).data_of)
        (drop (m.lists k).len (get_or m.buffer r [])) enough

  -- The list at k, and at any other place.
  at_k : installed.lists k ≡ record (m.lists k) { data_of = row r }
  at_k = ground arith

  elsewhere : (j : ℕ) → k ≢ j → installed.lists j ≡ m.lists j
  elsewhere j h = ground (arith, h)

  pub installed-IsManaged : IsManaged installed
  installed-IsManaged =
      let v = spare.rows in
      let q = λ (j s : ℕ). entered-cases k r j s m in
      record {
        stored = λ j s g. elim (q j s g) [
          | inl e ↦
              subst (λ (x : ℕ). (installed.lists x).data_of ≡ row s) e.0
                (ap (λ (l : DeviceList). l.data_of) at_k ∙ ap row e.1)
          | inr e ↦ ap (λ (l : DeviceList). l.data_of) (elsewhere j e.0) ∙ v.stored j s e.1
        ];
        below = λ j s g. rw (length-set m.buffer r new_row) (elim (q j s g) [
          | inl e ↦ subst (λ (x : ℕ). (0 < x) × (x < length m.buffer)) e.1 spare.within
          | inr e ↦ v.below j s e.1
        ]);
        alone = λ i j s g g'. elim (q i s g) [
          | inl a ↦ elim (q j s g') [
            | inl b ↦ sym a.0 ∙ b.0
            | inr b ↦ absurd (spare.unused j (b.1 ∙ ap (λ x. some x) (sym a.1)))
          ]
          | inr a ↦ elim (q j s g') [
            | inl b ↦ absurd (spare.unused i (a.1 ∙ ap (λ x. some x) (sym b.1)))
            | inr b ↦ v.alone i j s a.1 b.1
          ]
        ];
        free_below = λ s g. rw (length-set m.buffer r new_row) (v.free_below s g);
        free_once = v.free_once;
        free_apart = λ j s g. elim (q j s g) [
          | inl e ↦ subst (λ (x : ℕ). count x m.free_rows ≡ 0) e.1 spare.not_free
          | inr e ↦ v.free_apart j s e.1
        ];
        distinct =
            put-Distinct (remove (put m.lru_queue k r) k) k r
              (remove-Distinct (put m.lru_queue k r) k (put-Distinct m.lru_queue k r v.distinct));
        all_rows = omega (
          arith,
          v.all_rows,
          length-put m.lru_queue k r absent,
          length-move (put m.lru_queue k r) k r (put-Distinct m.lru_queue k r v.distinct)
              (get-put m.lru_queue k k r ∙ ground arith),
        );
        wide = λ s g. elim (Bool-cases (nat_beq r s)) [
          | inl e ↦
              subst (λ (x : ℕ). length (get_or installed.buffer x []) ≡ m.max_num_cols)
                ((nat_beq_iff r s).0 e)
                (ap length (get_or-set_self m.buffer r new_row [] spare.within.1) ∙ length-new_row)
          | inr e ↦
              (let d : r ≢ s = ground (arith, e) in
                ap length (get_or-set_ne m.buffer r s new_row [] d)
                ∙ v.wide s (omega (arith, g, length-set m.buffer r new_row)))
        ];
        short = λ j s g. elim (q j s g) [
          | inl e ↦
              subst (λ (x : ℕ). (installed.lists x).len ≤ m.max_num_cols) e.0
                (omega (arith, ap (λ (l : DeviceList). l.len) at_k, fits))
          | inr e ↦ omega (arith, ap (λ (l : DeviceList). l.len) (elsewhere j e.0), v.short j s e.1)
        ];
      }

  others_live :
      (j n : ℕ) (st : Storage)
      → k ≢ j
      → LivesIn m.lru_queue j n st
      → LivesIn installed.lru_queue j n st
        × (take n (cells installed.buffer st) ≡ take n (cells m.buffer st))
  others_live j n (own xs) d h = (h, refl)
  others_live j n (row s) d h =
      let e : nat_beq k j ≡ false = ground (arith, d) in
      (
        get-entered k r j m ∙ rw e h,
        ap (take n) (get_or-set_ne m.buffer r s new_row [] (λ z. spare.unused j (rw (sym z) at h))),
      )

  abbrev Kept : ℕ → DeviceList → Type 0
  Kept j l =
      LivesIn installed.lru_queue j l.len l.data_of
      × (take l.len (cells installed.buffer l.data_of) ≡ to_tensor m j)
      × (l.len ≡ (m.lists j).len)

  Kept-k : Kept k (installed.lists k)
  Kept-k = subst (Kept k) (sym at_k) (
    get-entered k r k m ∙ ground arith,
    ap (take (m.lists k).len) (get_or-set_self m.buffer r new_row [] spare.within.1)
        ∙ tensor-new_row,
    refl,
  )

  Kept-other : (j : ℕ) → k ≢ j → IsLive m j → Kept j (installed.lists j)
  unfolding to_tensor
  Kept-other j d h =
      let o = others_live j (m.lists j).len (m.lists j).data_of d h in
      subst (Kept j) (sym (elsewhere j d)) (o.0, o.1, refl)

  pub installed-KeepsLists : KeepsLists m installed
  unfolding to_tensor
  installed-KeepsLists j h = elim (Bool-cases (nat_beq k j)) [
    | inl e ↦ subst (λ (x : ℕ). Kept x (installed.lists x)) ((nat_beq_iff k j).0 e) Kept-k
    | inr e ↦ Kept-other j (ground (arith, e)) h
  ]
