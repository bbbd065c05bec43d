-- ===== src/Cache/Paged/Release.antt =====
-- The end of a request, and the two halves of a transfer from another node.
use chitu.Base.{
  ℕ, ◌+◌, ◌≡◌, refl, true, false, none, String, List, [], ◌∷◌, ◌++◌, arith, length, take, drop, min,
  get, Dict, Bool-cases, inl, inr, sym, ◌∙◌, Distinct, remove-Distinct, remove, get-remove_self,
  get-remove_ne, has, ok, Returns, string_eq, count, nat_eq,
}
use chitu.Cache.Requests.{base_finalize_cache_all_decode}
use chitu.Cache.Paged.{
  Paged, give_back, finalize_cache_all_decode, reserve_blocks_for_transfer, record_reserved,
  get_page_indices,
}
use chitu.Cache.Paged.Blocks.{table_count-put, count-take-drop, get_free_blocks_enough}
use chitu.Cache.Paged.History.{IsConserved}

-- The end of a request that is known: the call returns, all its blocks go to the end of the free list,
-- it has no length and no blocks any more, and the entries of other requests are as they were.
finalize_known :
    (c : Paged) (r : String)
    → Distinct c.block_table
    → Distinct c.base.req_id_to_seq_len
    → has c.base.req_id_to_seq_len r ≡ true
    → has c.block_table r ≡ true
    → let o = finalize_cache_all_decode r c in
      Returns o
      × (o.1.free_blocks ≡ c.free_blocks ++ get_page_indices c r)
      × (get o.1.block_table r ≡ none)
      × (get o.1.base.req_id_to_seq_len r ≡ none)
      × ((q : String)
          → string_eq.beq r q ≡ false
          → (get o.1.block_table q ≡ get c.block_table q)
            × (get o.1.base.req_id_to_seq_len q ≡ get c.base.req_id_to_seq_len q))
unfolding finalize_cache_all_decode base_finalize_cache_all_decode
finalize_known c r dt dl kl kt =
    rw (kl, kt, kl)
      (
        tt,
        refl,
        get-remove_self c.block_table r dt,
        get-remove_self c.base.req_id_to_seq_len r dl,
        λ q ne. (get-remove_ne c.block_table r q ne, get-remove_ne c.base.req_id_to_seq_len r q ne),
      )

-- A request that the manager does not know is left alone, as is everything else.
pub finalize_unknown :
    (c : Paged) (r : String)
    → has c.base.req_id_to_seq_len r ≡ false
    → finalize_cache_all_decode r c ≡ (ok tt, c)
unfolding finalize_cache_all_decode
finalize_unknown c r h = rw h

-- No request stands twice, and none has blocks but no length.
pub record WellKept (c : Paged) : Type 0 where
  pub tables_once : Distinct c.block_table
  pub lens_once : Distinct c.base.req_id_to_seq_len
  pub known : (q : String) → get c.base.req_id_to_seq_len q ≡ none → get c.block_table q ≡ none

-- A request has no blocks and no length.
abbrev pub IsGone : Paged → String → Type 0
IsGone c r = (get c.block_table r ≡ none) × (get c.base.req_id_to_seq_len r ≡ none)

-- A request has the blocks and the length that it had.
abbrev pub IsKept : Paged → Paged → String → Type 0
IsKept c d q =
    (get d.block_table q ≡ get c.block_table q)
    × (get d.base.req_id_to_seq_len q ≡ get c.base.req_id_to_seq_len q)

pub record Released (r : String) (c d : Paged) : Type 0 where
  pub well : WellKept d
  pub gone : IsGone d r
  pub others : (q : String) → string_eq.beq r q ≡ false → IsKept c d q

has_not : {V : Type 0} (d : Dict String V) (r : String) → has d r ≡ false → get d r ≡ none
has_not d r h = ground (arith, h)

returned-known :
    (c d : Paged) (r : String)
    → has c.base.req_id_to_seq_len r ≡ true
    → finalize_cache_all_decode r c ≡ (ok tt, d)
    → has c.block_table r ≡ true
unfolding finalize_cache_all_decode
returned-known c d r l h = elim (Bool-cases (has c.block_table r)) [
  | inl e ↦ e
  | inr e ↦ absurd (let k = rw (l, e) at h in cc)
]

abbrev without : String → Paged → Paged
without r c = record (give_back r c) {
  base = record c.base { req_id_to_seq_len = remove c.base.req_id_to_seq_len r };
}

finalize-eq :
    (c : Paged) (r : String)
    → has c.base.req_id_to_seq_len r ≡ true
    → has c.block_table r ≡ true
    → finalize_cache_all_decode r c ≡ (ok tt, without r c)
unfolding finalize_cache_all_decode base_finalize_cache_all_decode
finalize-eq c r l t = rw (l, t, l) refl

without-Released : (c : Paged) (r : String) → WellKept c → Released r c (without r c)
without-Released c r w =
    let lens = c.base.req_id_to_seq_len in
    let gone : IsGone (without r c) r =
      (get-remove_self c.block_table r w.tables_once, get-remove_self lens r w.lens_once) in
    let others = λ (q : String) (f : string_eq.beq r q ≡ false).
      let k : IsKept c (without r c) q =
        (get-remove_ne c.block_table r q f, get-remove_ne lens r q f) in
      k in
    record {
      well = record {
        tables_once = remove-Distinct c.block_table r w.tables_once;
        lens_once = remove-Distinct lens r w.lens_once;
        known = λ q n. elim (Bool-cases (string_eq.beq r q)) [
          | inl e ↦ rw (sym ((string_eq.beq_iff r q).0 e)) gone.0
          | inr f ↦ (others q f).0 ∙ w.known q (sym (others q f).1 ∙ n)
        ];
      };
      gone = gone;
      others = others;
    }

-- The end of a request that returns, in a cache whose tables are well kept.
pub finalize-Released :
    (c d : Paged) (r : String)
    → WellKept c
    → finalize_cache_all_decode r c ≡ (ok tt, d)
    → Released r c d
finalize-Released c d r w h = elim (Bool-cases (has c.base.req_id_to_seq_len r)) [
  | inl l ↦
      (let e : d ≡ without r c =
          (let k = sym h ∙ finalize-eq c r l (returned-known c d r l h) in cc) in
        rw e (without-Released c r w))
  | inr l ↦
      (let e : d ≡ c = (let k = sym h ∙ finalize_unknown c r l in cc) in
        let n = has_not c.base.req_id_to_seq_len r l in
        rw e (record { well = w; gone = (w.known r n, n); others = λ q f. (refl, refl) }))
]

reserve_lem :
    (c : Paged) (r : String) (n : ℕ)
    → let k = min n (length c.free_blocks) in
      reserve_blocks_for_transfer r n c ≡ (
        ok (take k c.free_blocks),
        record_reserved r (take k c.free_blocks) (record c { free_blocks = drop k c.free_blocks }),
      )
unfolding reserve_blocks_for_transfer
reserve_lem c r n =
    rw (get_free_blocks_enough (min n (length c.free_blocks)) c c.free_blocks refl (omega arith))

reserved-IsConserved :
    (c : Paged) (r : String) (bs rest : List ℕ)
    → get c.block_table r ≡ none
    → ((b : ℕ) → count b bs + count b rest ≡ count b c.free_blocks)
    → IsConserved c
    → IsConserved (record_reserved r bs (record c { free_blocks = rest }))
reserved-IsConserved c r [] rest fresh split v = record { at = λ b. omega (arith, split b, v.at b) }
reserved-IsConserved c r (x ∷ bs) rest fresh split v = record {
  at = λ b. ground (arith, split b, v.at b, table_count-put b c.block_table r (x ∷ bs));
}

-- Reserving blocks for a request that has none never raises: it gives as many of the first free blocks
-- as there are, up to the number asked for, and each block stays in exactly one place.
pub reserve-IsConserved :
    (c : Paged) (r : String) (n : ℕ)
    → get c.block_table r ≡ none
    → IsConserved c
    → ((reserve_blocks_for_transfer r n c).0
        ≡ ok (take (min n (length c.free_blocks)) c.free_blocks))
      × IsConserved (reserve_blocks_for_transfer r n c).1
reserve-IsConserved c r n fresh v = rw (reserve_lem c r n) (
  refl,
  reserved-IsConserved c r _ _ fresh
      (λ b. count-take-drop b (min n (length c.free_blocks)) c.free_blocks) v,
)
