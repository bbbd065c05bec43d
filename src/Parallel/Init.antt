-- ===== src/Parallel/Init.antt =====
-- What the constructor of `CommGroup` gives a process.
use chitu.Base.{
  ℕ, zero, suc, ◌<◌, ◌≡◌, ◌≢◌, map, value_error, Bool-cases, ltb, refl, sym, ap, Bool, true, false,
  List, [], ◌∷◌, nat_beq, if◌then◌else◌, arith, length, get_elem?, get_elem?-lt, Option, some, none,
  Result, ok, raise, inl, inr, ◌⊎◌, get, put, list_eq, list_beq, list_beq_iff, Dict, nat_eq,
}
use chitu.Parallel.Blocks.{count_in}
use chitu.Parallel.CommGroup.{
  ProcessGroup, world, singleton_group_placeholder, created, Dist, CommGroup, new_groups, reuse,
  make_device, enter, at_index, first_barrier, new_torch_group_dedup, comm_group, this_rank_idx,
  count_true, holds,
}
use chitu.Parallel.Membership.{Placed, index_of_unique, this_rank_idx_once}

-- A dictionary holds as many groups for lists of ranks as there are lists.
abbrev pub SameLengths : {G : Type 0} → Dict (List (List ℕ)) (List (ProcessGroup G)) → Type 0
SameLengths [] = Unit
SameLengths ((ls, gs) ∷ d) = (length gs ≡ length ls) × SameLengths d

abbrev pub Kept : {G E : Type 0} → Dist G E → Type 0
Kept d = SameLengths d.torch_group_dedup_dict_device × SameLengths d.torch_group_dedup_dict_host

module _ {G : Type 0} where
  get-SameLengths :
      (d : Dict (List (List ℕ)) (List (ProcessGroup G))) (ls : List (List ℕ))
      {gs : List (ProcessGroup G)}
      → SameLengths d
      → get d ls ≡ some gs
      → length gs ≡ length ls
  unfolding get
  get-SameLengths [] ls k h = cc
  get-SameLengths ((ks, vs) ∷ d) ls {gs} k h =
      by_key (Bool-cases (list_beq ks ls)) h (λ g. get-SameLengths d ls k.1 g)
    where
      by_key :
          (list_beq ks ls ≡ true) ⊎ (list_beq ks ls ≡ false)
          → (if list_beq ks ls then some vs else get d ls) ≡ some gs
          → (get d ls ≡ some gs → length gs ≡ length ls)
          → length gs ≡ length ls
      by_key (inl e) h later =
          let same : ks ≡ ls = (list_beq_iff ks ls).0 e in
          let found : some vs ≡ some gs = rw e at h in
          let groups : vs ≡ gs = cc in rw (sym same, sym groups) k.0
      by_key (inr e) h later = later (rw e at h)

  put-SameLengths :
      (d : Dict (List (List ℕ)) (List (ProcessGroup G))) (ls : List (List ℕ))
      (gs : List (ProcessGroup G))
      → SameLengths d
      → length gs ≡ length ls
      → SameLengths (put d ls gs)
  unfolding put
  put-SameLengths [] ls gs k h = (h, tt)
  put-SameLengths ((ks, vs) ∷ d) ls gs k h = elim (Bool-cases (list_beq ks ls)) [
    | inl e ↦
        (let same : length gs ≡ length ks = rw ((list_beq_iff ks ls).0 e) h in rw e (same, k.1))
    | inr e ↦ rw e (k.0, put-SameLengths d ls gs k.1 h)
  ]

pub at_index-get {ℓ} :
    {A : Type ℓ} (xs : List A) (i : ℕ) {x : A} → get_elem? xs i ≡ some x → at_index xs i ≡ ok x
at_index-get [] i h = cc
at_index-get (x ∷ xs) zero h = cc
at_index-get (x ∷ xs) (suc i) h = at_index-get xs i h

at_index-lt {ℓ} :
    {A : Type ℓ} (xs : List A) (i : ℕ) → i < length xs → (x : A) × (at_index xs i ≡ ok x)
at_index-lt [] i h = absurd (omega (arith, h))
at_index-lt (x ∷ xs) zero h = (x, refl)
at_index-lt (x ∷ xs) (suc i) h = at_index-lt xs i (omega (arith, h))

module _ {G E : Type 0} (new_group : List ℕ → Bool → E → G × E)
    (barrier : ProcessGroup G → E → E) where
  length-new_groups :
      (ls : List (List ℕ)) (d : Bool) (e : E)
      → length (new_groups new_group barrier ls d e).0 ≡ length ls
  length-new_groups [] d e = refl
  length-new_groups ([] ∷ ls) d e = ap suc (length-new_groups ls d (new_group [] d e).1)
  length-new_groups ((r ∷ []) ∷ ls) d e = ap suc (length-new_groups ls d e)
  length-new_groups ((r ∷ q ∷ rs) ∷ ls) d e =
      ap suc (length-new_groups ls d (new_group (r ∷ q ∷ rs) d e).1)

  abbrev GroupsFor : List (List ℕ) → List (ProcessGroup G) × Dist G E → Type 0
  GroupsFor ls made = (length made.0 ≡ length ls) × Kept made.1

  reuse-GroupsFor :
      (ls : List (List ℕ)) (o : Option (List (ProcessGroup G))) (d : Dist G E)
      (made : List (ProcessGroup G) × Dist G E)
      → ((gs : List (ProcessGroup G)) → o ≡ some gs → length gs ≡ length ls)
      → Kept d
      → GroupsFor ls made
      → GroupsFor ls (reuse new_group barrier o d made)
  reuse-GroupsFor ls none d made f k m = m
  reuse-GroupsFor ls (some gs) d made f k m = (f gs refl, k)

  new_torch_group_dedup-GroupsFor :
      (ls : List (List ℕ)) (device force : Bool) (d : Dist G E)
      → Kept d
      → GroupsFor ls (new_torch_group_dedup new_group barrier ls device force d)
  unfolding new_torch_group_dedup
  new_torch_group_dedup-GroupsFor ls true force d k = elim (Bool-cases (nat_beq (length ls) 1)) [
    | inl e ↦ rw e (ground (arith, e), k)
    | inr e ↦ rw e (others force)
  ]
    where
      fresh : length (new_groups new_group barrier ls true d.torch).0 ≡ length ls
      fresh = length-new_groups ls true d.torch

      others :
          (b : Bool)
          → GroupsFor ls (
              reuse new_group barrier
                (if b then get d.torch_group_dedup_dict_device ls else none)
                d
                (make_device new_group barrier ls b d))
      others true =
          reuse-GroupsFor ls (get d.torch_group_dedup_dict_device ls) d _
            (λ gs e. get-SameLengths _ ls k.0 e) k (fresh, k)
      others false = (fresh, (put-SameLengths d.torch_group_dedup_dict_device ls _ k.0 fresh, k.1))
  new_torch_group_dedup-GroupsFor ls false force d k =
      reuse-GroupsFor ls (get d.torch_group_dedup_dict_host ls) d _
        (λ gs e. get-SameLengths _ ls k.1 e) k
        (fresh, (k.0, put-SameLengths d.torch_group_dedup_dict_host ls _ k.1 fresh))
    where
      fresh : length (new_groups new_group barrier ls false d.torch).0 ≡ length ls
      fresh = length-new_groups ls false d.torch

  first_barrier-Kept :
      (g : ProcessGroup G) (d : Dist G E) → Kept d → Kept (first_barrier new_group barrier g d)
  first_barrier-Kept world d k = k
  first_barrier-Kept singleton_group_placeholder d k = k
  first_barrier-Kept (created g) d k = k

  -- What the constructor makes of a rank and where it stands.
  abbrev pub IsMade :
      (r : ℕ) (ls : List (List ℕ)) → Placed r ls → Result (CommGroup G) × Dist G E → Type 0
  IsMade r ls p (ok g, d) =
      (g.global_rank ≡ r)
      × (g.rank_list ≡ p.members)
      × (g.rank_in_group ≡ p.place)
      × (g.group_size ≡ length p.members)
      × Kept d
  IsMade r ls p (raise e, d) = ⊥

  enter-IsMade :
      (ls : List (List ℕ)) (r local_rank : ℕ) (cpu gpu : ProcessGroup G) (d : Dist G E)
      → Kept d
      → (p : Placed r ls) → IsMade r ls p (enter new_group barrier ls r local_rank p.idx cpu gpu d)
  enter-IsMade ls r local_rank cpu gpu d k p =
      rw (at_index-get ls p.idx p.at_idx, index_of_unique r p.members p.place p.at_place p.once)
        (refl, refl, refl, refl, first_barrier-Kept gpu d k)

  -- A rank that stands once in the lists of ranks gets a group, if the dictionaries hold as many
  -- groups for lists of ranks as there are lists: its list, its place in the list and the length
  -- of the list; and the dictionaries are again like that.
  pub comm_group-IsMade :
      (ls : List (List ℕ)) (r local_rank : ℕ) (force : Bool) (d : Dist G E)
      → Kept d
      → count_in r ls ≡ 1
      → (p : Placed r ls) → IsMade r ls p (comm_group new_group barrier ls r local_rank force d)
  unfolding comm_group
  comm_group-IsMade ls r local_rank force d k u p =
      let h1 = new_torch_group_dedup-GroupsFor ls true force d k in
      let d1 = (new_torch_group_dedup new_group barrier ls true force d).1 in
      let h2 = new_torch_group_dedup-GroupsFor ls false force d1 h1.1 in
      let gpus = (new_torch_group_dedup new_group barrier ls true force d).0 in
      let cpus = (new_torch_group_dedup new_group barrier ls false force d1).0 in
      let d2 = (new_torch_group_dedup new_group barrier ls false force d1).1 in
      let bound = get_elem?-lt ls p.idx p.at_idx in
      let c = at_index-lt cpus p.idx (omega (arith, h2.0, bound)) in
      let g = at_index-lt gpus p.idx (omega (arith, h1.0, bound)) in
      rw (this_rank_idx_once r ls p.idx p.at_idx (omega (arith, p.once)) u, c.1, g.1)
        (enter-IsMade ls r local_rank c.0 g.0 d2 h2.1 p)

  this_rank_idx-value_error :
      (r : ℕ) (ls : List (List ℕ))
      → count_true (map (holds r) ls) ≢ 1
      → this_rank_idx ls r ≡ raise value_error
  unfolding this_rank_idx
  this_rank_idx-value_error r ls h = elim (Bool-cases (nat_beq (count_true (map (holds r) ls)) 0)) [
    | inl e ↦ rw e refl
    | inr e ↦
        (let many : ltb 1 (count_true (map (holds r) ls)) ≡ true = ground (arith, e, h) in
          rw (e, many) refl)
  ]

  -- A rank that stands in none of the lists, or in more than one of them, gets a ValueError,
  -- whatever was kept before.
  comm_group-value_error :
      (ls : List (List ℕ)) (r local_rank : ℕ) (force : Bool) (d : Dist G E)
      → count_true (map (holds r) ls) ≢ 1
      → (comm_group new_group barrier ls r local_rank force d).0 ≡ raise value_error
  unfolding comm_group
  comm_group-value_error ls r local_rank force d h = rw (this_rank_idx-value_error r ls h) refl
