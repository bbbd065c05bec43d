-- ===== src/Cache/Paged/Capacity.antt =====
-- When the free blocks suffice, and what a batch of requests has afterwards.
use chitu.Base.{
  ℕ, ◌+◌, ◌-◌, ◌*◌, ◌≤◌, ◌<◌, ◌≡◌, refl, ap, Bool, true, false, String, List, [], ◌∷◌, ◌++◌, arith,
  if◌then◌else◌, length, take, drop, length-append, length-take, length-drop, any_of, put, get-put,
  get_default, has, Result, ok, Returns, string_eq, ◌==◌, Bool-cases, inl, inr,
}
use chitu.Cache.Paged.{
  Paged, ceil_div, grow, num_additional_blocks_req_need, extend_blocks, grow_prefill, add_entry,
}
use chitu.Cache.Paged.Blocks.{get_free_blocks_enough}

-- How many blocks a request has.
abbrev pub blocks_of : Paged → String → ℕ
blocks_of c r = length (get_default c.block_table r [])

pub ceil_div-covers : (n b : ℕ) → 0 < b → n ≤ b * ceil_div n b
unfolding ceil_div
ceil_div-covers n b h = grind arith

pub additional_lem :
    (c : Paged) (r : String) (n : ℕ)
    → num_additional_blocks_req_need c r n ≡ ceil_div n c.block_size - blocks_of c r
unfolding num_additional_blocks_req_need
additional_lem c r n = ground arith

-- What a batch asks for: the sum that the scheduler forms.
unfoldable pub demand : Paged → List String → List ℕ → ℕ
demand c (r ∷ rs) (n ∷ ns) = num_additional_blocks_req_need c r n + demand c rs ns
demand c rs ns = 0

abbrev pub named : String → List String → Bool
named q = any_of (λ r. r == q)

-- No request is listed twice.
abbrev pub Once : List String → Type 0
Once [] = Unit
Once (r ∷ rs) = (named r rs ≡ false) × Once rs

abbrev pub Covers : Paged → List String → List ℕ → Type 0
Covers c (r ∷ rs) (n ∷ ns) = (n ≤ c.block_size * blocks_of c r) × Covers c rs ns
Covers c _ _ = Unit

abbrev handed_out : Paged → String → ℕ → Paged
handed_out c r k = record c {
  free_blocks = drop k c.free_blocks;
  block_table = put c.block_table r (get_default c.block_table r [] ++ take k c.free_blocks);
}

grow_lem :
    (c : Paged) (r : String) (n : ℕ)
    → has c.block_table r ≡ true
    → num_additional_blocks_req_need c r n ≤ length c.free_blocks
    → grow r n c ≡ (ok tt, handed_out c r (num_additional_blocks_req_need c r n))
unfolding grow extend_blocks
grow_lem c r n known h =
    rw known
      (rw (get_free_blocks_enough (num_additional_blocks_req_need c r n) c c.free_blocks refl h))

record AddedEntry (c d : Paged) (r : String) : Type 0 where
  known : has d.block_table r ≡ true
  blocks : (q : String) → get_default d.block_table q [] ≡ get_default c.block_table q []
  free : d.free_blocks ≡ c.free_blocks
  size : d.block_size ≡ c.block_size

add_entry_lem : (c : Paged) (r : String) → AddedEntry c (add_entry r c) r
add_entry_lem c r = elim (Bool-cases (has c.block_table r)) [
  | inl e ↦ rw e (record { known = e; blocks = λ q. refl; free = refl; size = refl })
  | inr e ↦ rw e (record {
    known = ground (arith, get-put c.block_table r r [], string_eq.beq_iff r r);
    blocks = λ q. ground (arith, get-put c.block_table r q [], string_eq.beq_iff r q);
    free = refl;
    size = refl;
  })
]

-- What a step of the loop, or the whole loop, has done when the free blocks sufficed.
pub record Fits (c : Paged) (rs : List String) (ns : List ℕ) (o : Result (Unit {0}) × Paged)
    : Type 0 where
  pub returned : Returns o
  pub untouched : (q : String) → named q rs ≡ false → blocks_of o.1 q ≡ blocks_of c q
  pub covered : Covers o.1 rs ns
  pub spent : length o.1.free_blocks + demand c rs ns ≡ length c.free_blocks
  pub size : o.1.block_size ≡ c.block_size

demand-cong :
    (c d : Paged) (r : String) (rs : List String) (ns : List ℕ)
    → named r rs ≡ false
    → d.block_size ≡ c.block_size
    → ((q : String) → string_eq.beq q r ≡ false → blocks_of d q ≡ blocks_of c q)
    → demand d rs ns ≡ demand c rs ns
unfolding demand
demand-cong c d r [] ns h s k = refl
demand-cong c d r (q ∷ rs) [] h s k = refl
demand-cong c d r (q ∷ rs) (n ∷ ns) h s k =
    let e : blocks_of d q ≡ blocks_of c q = k q (ground arith) in
    omega (
      arith,
      ap (λ b. ceil_div n b) s,
      additional_lem c q n,
      additional_lem d q n,
      e,
      demand-cong c d r rs ns (ground arith) s k,
    )

-- After one request is served: its blocks, and everybody else's.
blocks_of-handed_out :
    (c : Paged) (r q : String) (k : ℕ)
    → k ≤ length c.free_blocks
    → blocks_of (handed_out c r k) q ≡ (if r == q then blocks_of c q + k else blocks_of c q)
blocks_of-handed_out c r q k h = ground (
  arith,
  get-put c.block_table r q (get_default c.block_table r [] ++ take k c.free_blocks),
  length-append (get_default c.block_table r []) (take k c.free_blocks),
  length-take k c.free_blocks,
  string_eq.beq_iff r q,
)

-- The state after one request is served.
abbrev served : Paged → String → ℕ → Paged
served c r n = handed_out (add_entry r c) r (num_additional_blocks_req_need c r n)

record Served (c e : Paged) (r : String) (n : ℕ) : Type 0 where
  free : length e.free_blocks + num_additional_blocks_req_need c r n ≡ length c.free_blocks
  blocks :
      (q : String)
      → blocks_of e q
        ≡ (if r == q then blocks_of c q + num_additional_blocks_req_need c r n else blocks_of c q)
  size : e.block_size ≡ c.block_size

need-add_entry :
    (c : Paged) (r : String) (n : ℕ)
    → num_additional_blocks_req_need (add_entry r c) r n ≡ num_additional_blocks_req_need c r n
need-add_entry c r n =
    let added = add_entry_lem c r in
    omega (
      arith,
      ap (λ b. ceil_div n b) added.size,
      additional_lem c r n,
      additional_lem (add_entry r c) r n,
      ap (λ (l : List ℕ). length l) (added.blocks r),
    )

module _ (c : Paged) (r : String) (n : ℕ)
    (h : num_additional_blocks_req_need c r n ≤ length c.free_blocks) where
  served_lem : Served c (served c r n) r n
  served_lem =
      let added = add_entry_lem c r in
      let k = num_additional_blocks_req_need c r n in
      let fits : k ≤ length (add_entry r c).free_blocks = rw added.free h in
      record {
        free = omega (
          arith,
          length-drop k (add_entry r c).free_blocks,
          ap (λ (l : List ℕ). length l) added.free,
        );
        blocks = λ q.
            rw (← ap (λ (l : List ℕ). length l) (added.blocks q))
              (blocks_of-handed_out (add_entry r c) r q k fits);
        size = added.size;
      }

  grow-served : grow r n (add_entry r c) ≡ (ok tt, served c r n)
  grow-served =
      let added = add_entry_lem c r in
      rw (
        grow_lem (add_entry r c) r n added.known (rw (need-add_entry c r n, added.free) h),
        need-add_entry c r n,
      )

Served-demand :
    (c e : Paged) (r : String) (n : ℕ) (rs : List String) (ns : List ℕ)
    → named r rs ≡ false
    → Served c e r n
    → demand e rs ns ≡ demand c rs ns
Served-demand c e r n rs ns fresh s =
    demand-cong c e r rs ns fresh s.size
      (λ q m. ground (arith, s.blocks q, string_eq.beq_iff r q, string_eq.beq_iff q r))

Fits-cons :
    (c e : Paged) (r : String) (n : ℕ) (rs : List String) (ns : List ℕ)
    (o : Result (Unit {0}) × Paged)
    → 0 < c.block_size
    → named r rs ≡ false
    → Served c e r n
    → Fits e rs ns o
    → Fits c (r ∷ rs) (n ∷ ns) o
unfolding demand
Fits-cons c e r n rs ns o p fresh s f = record {
  returned = f.returned;
  untouched = λ q m. ground (arith, f.untouched q, s.blocks q);
  covered = (covered_head, f.covered);
  spent = omega (arith, f.spent, Served-demand c e r n rs ns fresh s, s.free);
  size = omega (arith, f.size, s.size);
}
  where
    blocks_now : ceil_div n c.block_size ≤ blocks_of o.1 r
    blocks_now =
        ground (arith, f.untouched r fresh, s.blocks r, string_eq.beq_iff r r, additional_lem c r n)

    covered_head : n ≤ o.1.block_size * blocks_of o.1 r
    covered_head = rw (f.size, s.size) (grind (arith, blocks_now, ceil_div-covers n c.block_size p))

-- Distinct requests that together ask for no more than the free blocks all get their blocks: the
-- loop returns, spends exactly what was asked for, leaves the blocks of others alone, and each
-- request can hold its new length.
pub grow_prefill-Fits :
    (rs : List String) (ns : List ℕ) (c : Paged)
    → 0 < c.block_size
    → Once rs
    → demand c rs ns ≤ length c.free_blocks
    → Fits c rs ns (grow_prefill rs ns c)
unfolding grow_prefill demand
grow_prefill-Fits [] ns c p o h = record {
  returned = tt;
  untouched = λ q _. refl;
  covered = tt;
  spent = omega arith;
  size = refl;
}
grow_prefill-Fits (r ∷ rs) [] c p o h = record {
  returned = tt;
  untouched = λ q _. refl;
  covered = tt;
  spent = omega arith;
  size = refl;
}
grow_prefill-Fits (r ∷ rs) (n ∷ ns) c p o h =
    let s = served_lem c r n (omega arith) in
    rw (grow-served c r n (omega arith)) (
      Fits-cons c (served c r n) r n rs ns _ p o.0 s (
        grow_prefill-Fits rs ns (served c r n) (rw s.size p) o.1
          (omega (arith, Served-demand c (served c r n) r n rs ns o.0 s, s.free))))
