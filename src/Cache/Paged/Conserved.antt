-- ===== src/Cache/Paged/Conserved.antt =====
-- No operation of the paged manager duplicates a block, and one that returns loses none.
use chitu.Base.{
  ℕ, ◌≤◌, ◌<◌, ◌≡◌, refl, Bool, true, false, String, List, [], ◌∷◌, ◌++◌, arith, if◌then◌else◌,
  length, take, count-append, get_default, has, Exec, Result, ok, raise, Error, ◌>>=◌, ◌>>◌, modify,
  gets, pure, assert, continue, key_error, value_error, runtime_error, leb, string_eq, Bool-cases,
  inl, inr,
}
use native.Mathlib.Decide.{dec_le}
use chitu.Cache.Requests.{Requests, base_prepare_cache_prefill, base_prepare_cache_decode}
use chitu.Cache.Paged.{
  Paged, get_free_blocks, grow, num_additional_blocks_req_need, extend_blocks, grow_prefill,
  grow_decode, upd_gpu_block_table, prepare_cache_prefill, prepare_cache_decode,
  free_req_cache_blocks, finalize_cache_all_decode, on_base, add_entry, all_known, table_width,
  padded_rows, install_table, is_rectangular, area, give_back,
}
use chitu.Cache.Paged.Blocks.{
  held, table_count-put, table_count-remove, count-take-drop, get_free_blocks_enough,
  get_free_blocks_short,
}

pub record Same (c d : Paged) : Type 0 where
  pub at : (b : ℕ) → held d b ≡ held c b
  pub total : d.num_blocks ≡ c.num_blocks

pub record Fewer (c d : Paged) : Type 0 where
  pub at : (b : ℕ) → held d b ≤ held c b
  pub total : d.num_blocks ≡ c.num_blocks

-- What a method may do to the blocks: all are kept if it returns, none is made up if it raises.
abbrev pub Outcome : {A : Type 0} → Paged → Result A × Paged → Type 0
Outcome c (ok a, d) = Same c d
Outcome c (raise e, d) = Fewer c d

pub record Keeps {A : Type 0} (m : Exec Paged A) : Type 0 where
  pub at : (c : Paged) → Outcome c (m c)

Same-refl : (c : Paged) → Same c c
Same-refl c = record { at = λ b. refl; total = refl }

Same→Fewer : {c d : Paged} → Same c d → Fewer c d
Same→Fewer s = record { at = λ b. omega (arith, s.at b); total = s.total }

module _ {A : Type 0} where
  Outcome-after :
      {c d : Paged} → Same c d → (r : Result A) (e : Paged) → Outcome d (r, e) → Outcome c (r, e)
  Outcome-after s (ok a) e o = record {
    at = λ b. omega (arith, s.at b, o.at b);
    total = omega (arith, s.total, o.total);
  }
  Outcome-after s (raise x) e o = record {
    at = λ b. omega (arith, s.at b, o.at b);
    total = omega (arith, s.total, o.total);
  }

  Keeps-pure : (a : A) → Keeps {A = A} (pure a)
  Keeps-pure a = record { at = λ c. Same-refl c }

  Keeps-gets : (f : Paged → A) → Keeps (gets f)
  Keeps-gets f = record { at = λ c. Same-refl c }

  Keeps-if : (b : Bool) (m n : Exec Paged A) → Keeps m → Keeps n → Keeps (if b then m else n)
  Keeps-if true m n km kn = km
  Keeps-if false m n km kn = kn

module _ {A B : Type 0} where
  bind-Outcome :
      (c : Paged) (r : Result A) (d : Paged) (f : A → Exec Paged B)
      → Outcome c (r, d)
      → ((a : A) → Keeps (f a))
      → Outcome c (continue r f d)
  bind-Outcome c (ok a) d f o k = Outcome-after o (f a d).0 (f a d).1 ((k a).at d)
  bind-Outcome c (raise e) d f o k = o

  Keeps-bind :
      (m : Exec Paged A) (f : A → Exec Paged B)
      → Keeps m
      → ((a : A) → Keeps (f a))
      → Keeps (m >>= f)
  Keeps-bind m f km kf = record { at = λ c. bind-Outcome c (m c).0 (m c).1 f (km.at c) kf }

Keeps-then :
    {B : Type 0} (m : Exec Paged (Unit {0})) (n : Exec Paged B) → Keeps m → Keeps n → Keeps (m >> n)
Keeps-then m n km kn = Keeps-bind m (λ _. n) km (λ _. kn)

Keeps-assert : (b : Bool) (e : Error) → Keeps (assert b e)
Keeps-assert true e = record { at = λ c. Same-refl c }
Keeps-assert false e = record { at = λ c. Same→Fewer (Same-refl c) }

on_base-Keeps : (m : Exec Requests (Unit {0})) → Keeps (on_base m)
on_base-Keeps m = record { at = λ c. by_result c (m c.base).0 (m c.base).1 }
  where
    by_result :
        (c : Paged) (r : Result (Unit {0})) (b : Requests) → Outcome c (r, record c { base = b })
    by_result c (ok a) b = record { at = λ _. refl; total = refl }
    by_result c (raise e) b = record { at = λ _. omega arith; total = refl }

ruleset keeps_rules =
    (Keeps-pure, Keeps-gets, Keeps-if, Keeps-bind, Keeps-then, Keeps-assert, on_base-Keeps)

-- The blocks that leave the free list are those that the request gets.
grow_enough :
    (c : Paged) (r : String) (n : ℕ)
    → n ≤ length c.free_blocks
    → Outcome c ((get_free_blocks n >>= extend_blocks r) c)
unfolding extend_blocks
grow_enough c r n h = rw (get_free_blocks_enough n c c.free_blocks refl h) (record {
  at = λ b. omega (
    arith,
    table_count-put b c.block_table r (get_default c.block_table r [] ++ take n c.free_blocks),
    count-append b (get_default c.block_table r []) (take n c.free_blocks),
    count-take-drop b n c.free_blocks,
  );
  total = refl;
})

grow_short :
    (c : Paged) (r : String) (n : ℕ)
    → length c.free_blocks < n
    → Outcome c ((get_free_blocks n >>= extend_blocks r) c)
grow_short c r n h =
    rw (get_free_blocks_short n c c.free_blocks refl h)
      (record { at = λ b. omega arith; total = refl })

hand_out-Keeps : (r : String) (n : ℕ) → Keeps (get_free_blocks n >>= extend_blocks r)
hand_out-Keeps r n = record {
  at = λ c. elim (dec_le n (length c.free_blocks)) [
    | yes h ↦ grow_enough c r n h
    | no h ↦ grow_short c r n (omega arith)
  ];
}

grow-Keeps : (r : String) (n : ℕ) → Keeps (grow r n)
unfolding grow
grow-Keeps r n =
    Keeps-bind (gets (λ c. num_additional_blocks_req_need c r n)) _ (Keeps-gets _) λ needs.
      Keeps-bind (gets (λ c. has c.block_table r)) _ (Keeps-gets _) λ known.
        Keeps-then (assert known key_error) _ (Keeps-assert known key_error)
          (hand_out-Keeps r needs)

add_entry-Keeps : (r : String) → Keeps (modify (add_entry r))
add_entry-Keeps r = record {
  at = λ c. elim (Bool-cases (has c.block_table r)) [
    | inl e ↦ rw e (Same-refl c)
    | inr e ↦
        rw e
          (record { at = λ b. ground (arith, table_count-put b c.block_table r []); total = refl })
  ];
}

grow_prefill-Keeps : (rs : List String) (ns : List ℕ) → Keeps (grow_prefill rs ns)
unfolding grow_prefill
grow_prefill-Keeps [] ns = Keeps-pure tt
grow_prefill-Keeps (r ∷ rs) [] = Keeps-pure tt
grow_prefill-Keeps (r ∷ rs) (n ∷ ns) =
    Keeps-then (modify (add_entry r)) _ (add_entry-Keeps r)
      (Keeps-then (grow r n) _ (grow-Keeps r n) (grow_prefill-Keeps rs ns))

grow_decode-Keeps : (rs : List String) → Keeps (grow_decode rs)
unfolding grow_decode
grow_decode-Keeps [] = Keeps-pure tt
grow_decode-Keeps (r ∷ rs) =
    Keeps-bind (gets (λ c. get_default c.base.req_id_to_seq_len r 0)) _ (Keeps-gets _)
      λ n. Keeps-then (grow r n) _ (grow-Keeps r n) (grow_decode-Keeps rs)

lift-Keeps : {A : Type 0} (f : Paged → Result A) → Keeps (λ c. (f c, c))
lift-Keeps {A} f = record { at = λ c. by_result c (f c) }
  where
    by_result : (c : Paged) (r : Result A) → Outcome c (r, c)
    by_result c (ok a) = Same-refl c
    by_result c (raise e) = Same→Fewer (Same-refl c)

install_table-Keeps : (rows : List (List ℕ)) → Keeps (modify (install_table rows))
install_table-Keeps rows = record { at = λ c. record { at = λ _. refl; total = refl } }

upd_gpu_block_table-Keeps : (rs : List String) → Keeps (upd_gpu_block_table rs)
unfolding upd_gpu_block_table
upd_gpu_block_table-Keeps rs =
    Keeps-bind (gets (λ c. all_known c.block_table rs)) _ (Keeps-gets _) λ known.
      Keeps-then (assert known key_error) _ (Keeps-assert known key_error) (
        Keeps-bind (λ c. (table_width c rs, c)) _ (lift-Keeps (λ c. table_width c rs))
          λ width.
            Keeps-bind (gets (λ c. padded_rows c.block_table width rs)) _ (Keeps-gets _) λ rows.
              Keeps-then (assert (is_rectangular rows) value_error) _
                (Keeps-assert (is_rectangular rows) value_error)
                (Keeps-bind (gets (λ c. leb (area rows) c.max_num_blocks)) _ (Keeps-gets _) λ room.
                  Keeps-then (assert room runtime_error) _ (Keeps-assert room runtime_error)
                    (install_table-Keeps rows)))

give_back-Keeps : (r : String) → Keeps (modify (give_back r))
give_back-Keeps r = record {
  at = λ c. record {
    at = λ b. omega (
      arith,
      table_count-remove b c.block_table r,
      count-append b c.free_blocks (get_default c.block_table r []),
    );
    total = refl;
  };
}

free-Keeps : (r : String) → Keeps (free_req_cache_blocks r)
unfolding free_req_cache_blocks
free-Keeps r = Keeps-bind (gets (λ c. has c.block_table r)) _ (Keeps-gets _) λ known.
    Keeps-then (assert known key_error) _ (Keeps-assert known key_error) (give_back-Keeps r)

prefill-Keeps : (rs : List String) (ds : List ℕ) → Keeps (prepare_cache_prefill rs ds)
unfolding prepare_cache_prefill
prefill-Keeps rs ds = Keeps-then (on_base (base_prepare_cache_prefill rs ds)) _ (on_base-Keeps _) (
    Keeps-bind (gets (λ c. c.base.seq_len_delta.new.lens_list)) _ (Keeps-gets _) λ lens.
      Keeps-then (grow_prefill rs lens) _ (grow_prefill-Keeps rs lens)
        (upd_gpu_block_table-Keeps rs))

decode-Keeps : (rs : List String) → Keeps (prepare_cache_decode rs)
unfolding prepare_cache_decode
decode-Keeps rs =
    Keeps-then (on_base (base_prepare_cache_decode rs)) _ (on_base-Keeps _)
      (Keeps-then (grow_decode rs) _ (grow_decode-Keeps rs) (upd_gpu_block_table-Keeps rs))

pub finalize-Keeps : (r : String) → Keeps (finalize_cache_all_decode r)
unfolding finalize_cache_all_decode
finalize-Keeps r = record {
  at = λ c. elim (Bool-cases (has c.base.req_id_to_seq_len r)) [
    | inl e ↦ rw e ((Keeps-then _ _ (free-Keeps r) (on_base-Keeps _)).at c)
    | inr e ↦ rw e (Same-refl c)
  ];
}

-- The calls that the executor makes of the manager.
pub data Call : Type 0 where
  prefill : List String → List ℕ → Call
  decode : List String → Call
  finish : String → Call

unfoldable pub run_call : Call → Exec Paged (Unit {0})
run_call (prefill rs ds) = prepare_cache_prefill rs ds
run_call (decode rs) = prepare_cache_decode rs
run_call (finish r) = finalize_cache_all_decode r

pub run_call-Keeps : (k : Call) → Keeps (run_call k)
unfolding run_call
run_call-Keeps (prefill rs ds) = prefill-Keeps rs ds
run_call-Keeps (decode rs) = decode-Keeps rs
run_call-Keeps (finish r) = finalize-Keeps r

-- A history of calls, whether they return or raise.
unfoldable pub run_calls : List Call → Paged → Paged
run_calls [] c = c
run_calls (k ∷ ks) c = run_calls ks (run_call k c).1
