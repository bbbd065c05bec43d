-- ===== src/Parallel/Ring.antt =====
-- The ring that `next_rank` and `prev_rank` make of the members of a group.
use native.Mathlib.Nat.{add-zero, mod_self, mod-lt, mod-add-mod, mod-eq_of_lt, add-mod_right}
use chitu.Base.{
  ℕ, zero, suc, ◌+◌, ◌-◌, ◌%◌, ◌≤◌, ◌<◌, ◌≡◌, refl, ap, Bool, List, [], ◌∷◌, arith, length,
  get_elem?, get_elem?-lt, some, Result, ok, raise, count, leb, leb→le, Bool-cases, inl, inr, ◌⊎◌,
}
use chitu.Parallel.Blocks.{count_in}
use chitu.Parallel.CommGroup.{
  ProcessGroup, Dist, CommGroup, comm_group, next_rank, prev_rank, wrapped,
}
use chitu.Parallel.Membership.{Placed, count_in-get, count_of-get}
use chitu.Parallel.Init.{Kept, IsMade, comm_group-IsMade, at_index-get}

abbrev pub and_then : {A B : Type 0} → Result A → (A → Result B) → Result B
and_then (ok a) f = f a
and_then (raise e) f = raise e

wrapped-get :
    (xs : List ℕ) (a : ℕ) {n x : ℕ} → 0 < n → get_elem? xs (a % n) ≡ some x → wrapped xs a n ≡ ok x
wrapped-get xs a {n = zero} z h = absurd (omega (arith, z))
wrapped-get xs a {n = suc n} z h = at_index-get xs (a % suc n) h

get-exists {ℓ} :
    {A : Type ℓ} (xs : List A) (i : ℕ) → i < length xs → (x : A) × (get_elem? xs i ≡ some x)
get-exists [] i h = absurd (omega (arith, h))
get-exists (x ∷ xs) zero h = (x, refl)
get-exists (x ∷ xs) (suc i) h = get-exists xs i (omega (arith, h))

-- A member of a list is placed in it.
member-Placed :
    (ls : List (List ℕ)) (l : List ℕ) (i j q : ℕ)
    → get_elem? ls i ≡ some l
    → get_elem? l j ≡ some q
    → count_in q ls ≤ 1
    → (count_in q ls ≡ 1) × (count q l ≡ 1)
member-Placed ls l i j q hi hj u =
    let a = count_in-get q ls i hi in
    let b = count_of-get q l j hj in (omega (arith, a, b, u), omega (arith, a, b, u))

meet : (j m : ℕ) → j ≤ m → j + (m - j) ≡ m
meet j m h = omega arith

around : (j m n : ℕ) → j < n → j + (m + n - j) ≡ m + n
around j m n h = omega arith

le-or-lt : (j m : ℕ) → (j ≤ m) ⊎ (m < j)
le-or-lt j m = elim (Bool-cases (leb j m)) [
  | inl e ↦ inl (leb→le j m e)
  | inr e ↦ inr (ground (arith, e))
]

back : (j n : ℕ) → j < n → ((j + 1) % n + n - 1) % n ≡ j
back j n h = elim (le-or-lt (j + 2) n) [
  | inl a ↦
      (let e : (j + 1) % n ≡ j + 1 = mod-eq_of_lt (omega (arith, a)) in
        let f : j + 1 + n - 1 ≡ j + n = omega arith in
        rw (e, f, add-mod_right j n) (mod-eq_of_lt h))
  | inr a ↦
      (let e : (j + 1) % n ≡ 0 = rw (ap (λ x. x % n) (last j n h a)) (mod_self n) in
        let f : 0 + n - 1 ≡ j = omega (arith, h, a) in rw (e, f) (mod-eq_of_lt h))
]
  where
    last : (j n : ℕ) → j < n → n < j + 2 → j + 1 ≡ n
    last j n h a = omega arith

module _ {G E : Type 0} (new_group : List ℕ → Bool → E → G × E)
    (barrier : ProcessGroup G → E → E) where
  -- Every process makes its group from the same lists of ranks, with what it has kept.
  module _ (rank_lists : List (List ℕ)) (local_rank : ℕ → ℕ) (force_no_dedup : Bool)
      (dist : ℕ → Dist G E) where
    abbrev pub group_of : ℕ → Result (CommGroup G)
    unfolding comm_group
    group_of r =
        (comm_group new_group barrier rank_lists r (local_rank r) force_no_dedup (dist r)).0

    -- The rank that is `k` times `next_rank` from `r`, each step asked of the process that is reached.
    abbrev pub follow : ℕ → ℕ → Result ℕ
    unfolding next_rank
    follow zero r = ok r
    follow (suc k) r = and_then (and_then (group_of r) next_rank) (follow k)

    module _ (kept : (r : ℕ) → Kept (dist r)) (unique : (r : ℕ) → count_in r rank_lists ≤ 1) where
      -- A process at place `j` of the list at `i`.
      group_at :
          {l : List ℕ} (i j r : ℕ)
          → get_elem? rank_lists i ≡ some l
          → get_elem? l j ≡ some r
          → (g : CommGroup G) × (group_of r ≡ ok g)
            × (g.rank_list ≡ l)
            × (g.rank_in_group ≡ j)
            × (g.group_size ≡ length l)
      unfolding comm_group
      group_at {l} i j r hi hj = by_result made.0 made.1 refl at_placed
        where
          made : Result (CommGroup G) × Dist G E
          made = comm_group new_group barrier rank_lists r (local_rank r) force_no_dedup (dist r)

          once : (count_in r rank_lists ≡ 1) × (count r l ≡ 1)
          once = member-Placed rank_lists l i j r hi hj (unique r)

          place : Placed r rank_lists
          place = record {
            idx = i;
            members = l;
            place = j;
            at_idx = hi;
            at_place = hj;
            once = once.1;
          }

          at_placed : IsMade new_group barrier r rank_lists place made
          at_placed =
              comm_group-IsMade new_group barrier rank_lists r (local_rank r) force_no_dedup
                (dist r) (kept r) once.0 place

          by_result :
              (res : Result (CommGroup G)) (d : Dist G E)
              → made.0 ≡ res
              → IsMade new_group barrier r rank_lists place (res, d)
              → (g : CommGroup G) × (made.0 ≡ ok g)
                × (g.rank_list ≡ l)
                × (g.rank_in_group ≡ j)
                × (g.group_size ≡ length l)
          by_result (ok g) d e m = (g, e, m.1, m.2, m.3)
          by_result (raise x) d e m = absurd m

      step :
          {l : List ℕ} (i j r q : ℕ)
          → get_elem? rank_lists i ≡ some l
          → get_elem? l j ≡ some r
          → get_elem? l ((j + 1) % length l) ≡ some q
          → and_then (group_of r) next_rank ≡ ok q
      unfolding next_rank
      step {l} i j r q hi hj hq =
          let g = group_at i j r hi hj in
          let full : 0 < length l = omega (arith, get_elem?-lt l j hj) in
          rw (g.1, g.2, g.3, g.4) (wrapped-get l (j + 1) full hq)

      follow-at :
          {l : List ℕ} (k i j r q : ℕ)
          → get_elem? rank_lists i ≡ some l
          → get_elem? l j ≡ some r
          → get_elem? l ((j + k) % length l) ≡ some q
          → follow k r ≡ ok q
      unfolding follow
      follow-at {l} zero i j r q hi hj hq =
          let e : (j + 0) % length l ≡ j + 0 = mod-eq_of_lt (omega (arith, get_elem?-lt l j hj)) in
          let same : get_elem? l j ≡ some q = rw (e, add-zero j) at hq in
          let same' : some r ≡ some q = cc in let equal : r ≡ q = cc in ap ok equal
      follow-at {l} (suc k) i j r q hi hj hq =
          let full : 0 < length l = omega (arith, get_elem?-lt l j hj) in
          let (t, ht) = get-exists l ((j + 1) % length l) (mod-lt (j + 1) full) in
          let e : ((j + 1) % length l + k) % length l ≡ (j + suc k) % length l =
            rw (mod-add-mod (j + 1) (length l) k) (ap (λ x. x % length l) (omega arith)) in
          rw (step i j r t hi hj ht) (follow-at k i ((j + 1) % length l) t q hi ht (rw e hq))

      -- When every rank is in one list at most and the dictionaries of process groups are well sized
      -- (empty ones are), the processes of one list form a ring: following `next_rank` from process to process reaches each process of the list in fewer steps than
      -- the list has processes.
      pub follow-Reaches :
          (l : List ℕ) (i j m r q : ℕ)
          → get_elem? rank_lists i ≡ some l
          → get_elem? l j ≡ some r
          → get_elem? l m ≡ some q
          → (k : ℕ) × (k < length l) × (follow k r ≡ ok q)
      follow-Reaches l i j m r q hi hj hm =
          let n = length l in
          let jl = get_elem?-lt l j hj in
          let ml = get_elem?-lt l m hm in
          elim (le-or-lt j m) [
            | inl h ↦
                (let e : (j + (m - j)) % n ≡ m =
                    rw (ap (λ x. x % n) (meet j m h)) (mod-eq_of_lt ml) in
                  (m - j, omega (arith, h, ml), follow-at (m - j) i j r q hi hj (rw e hm)))
            | inr h ↦
                (let e : (j + (m + n - j)) % n ≡ m =
                    rw (ap (λ x. x % n) (around j m n jl), add-mod_right m n) (mod-eq_of_lt ml) in
                  (m + n - j, omega (arith, h, jl), follow-at (m + n - j) i j r q hi hj (rw e hm)))
          ]

      -- When every rank is in one list at most, a process of a list has a next process, and the
      -- previous process of that one is the process itself.
      prev_rank-next_rank :
          (l : List ℕ) (i j r : ℕ)
          → get_elem? rank_lists i ≡ some l
          → get_elem? l j ≡ some r
          → (q : ℕ) × (and_then (group_of r) next_rank ≡ ok q)
            × (and_then (group_of q) prev_rank ≡ ok r)
      unfolding prev_rank
      prev_rank-next_rank l i j r hi hj =
          let n = length l in
          let full : 0 < n = omega (arith, get_elem?-lt l j hj) in
          let after = get-exists l ((j + 1) % n) (mod-lt (j + 1) full) in
          let g = group_at i ((j + 1) % n) after.0 hi after.1 in
          let e : ((j + 1) % n + n - 1) % n ≡ j = back j n (get_elem?-lt l j hj) in
          (
            after.0,
            step i j r after.0 hi hj after.1,
            rw (g.1, g.2, g.3, g.4) (wrapped-get l ((j + 1) % n + n - 1) full (rw e hj)),
          )
