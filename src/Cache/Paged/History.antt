-- ===== src/Cache/Paged/History.antt =====
-- Where the blocks of the paged manager are, over whole histories of calls.
use chitu.Base.{
  ℕ, ◌≤◌, ◌<◌, ◌≡◌, Bool, Option, List, [], ◌∷◌, arith, ltb, if◌then◌else◌, count-range, Result, ok,
  raise, Returns,
}
use chitu.Cache.Requests.{Requests}
use chitu.Cache.Paged.{Paged, make, realloc}
use chitu.Cache.Paged.Blocks.{held, table_count}
use chitu.Cache.Paged.Conserved.{Call, run_call, run_call-Keeps, run_calls, Outcome}

-- Each of the manager's blocks is in exactly one place: on the free list or with one request.
pub record IsConserved (c : Paged) : Type 0 where
  pub at : (b : ℕ) → held c b ≡ (if ltb b c.num_blocks then 1 else 0)

-- No block is in two places, and no other number is taken for a block.
pub record IsUnshared (c : Paged) : Type 0 where
  pub at : (b : ℕ) → held c b ≤ (if ltb b c.num_blocks then 1 else 0)

IsConserved-after :
    (c : Paged) (r : Result (Unit {0}) × Paged)
    → Outcome c r
    → Returns r
    → IsConserved c
    → IsConserved r.1
IsConserved-after c (ok a, d) o h v = record { at = λ b. rw (o.at b, o.total) (v.at b) }
IsConserved-after c (raise e, d) o h v = absurd h

-- From a state in which each block is in exactly one place, free or with one request, a call that
-- returns (prefill, decode, finish) leads to such a state.
pub run_call-IsConserved :
    (k : Call) (c : Paged) → IsConserved c → Returns (run_call k c) → IsConserved (run_call k c).1
run_call-IsConserved k c v h = IsConserved-after c (run_call k c) ((run_call-Keeps k).at c) h v

IsUnshared-after :
    (c : Paged) (r : Result (Unit {0}) × Paged) → Outcome c r → IsUnshared c → IsUnshared r.1
IsUnshared-after c (ok a, d) o v = record { at = λ b. rw (o.at b, o.total) (v.at b) }
IsUnshared-after c (raise e, d) o v = record {
  at = λ b. rw o.total (omega (arith, o.at b, v.at b));
}

-- From a state in which no block is in two places and no other number is taken for a block, every
-- history of calls, also one in which calls raised and left their work half done, leads to such a state.
pub run_calls-IsUnshared : (ks : List Call) (c : Paged) → IsUnshared c → IsUnshared (run_calls ks c)
unfolding run_calls
run_calls-IsUnshared [] c v = v
run_calls-IsUnshared (k ∷ ks) c v =
    run_calls-IsUnshared ks (run_call k c).1
      (IsUnshared-after c (run_call k c) ((run_call-Keeps k).at c) v)

pub IsConserved→IsUnshared : {c : Paged} → IsConserved c → IsUnshared c
IsConserved→IsUnshared v = record { at = λ b. omega (arith, v.at b) }

pub make-IsConserved :
    (base : Requests) (reqs len size : ℕ) (graph : Bool) (chunk n : Option ℕ)
    → IsConserved (make base reqs len size graph chunk n)
unfolding make
make-IsConserved base reqs len size graph chunk n = record {
  at = λ b. omega (arith, count-range b (make base reqs len size graph chunk n).num_blocks);
}

-- `realloc` is safe exactly for the blocks that no request holds: afterwards each block is in one
-- place if the block table is empty, and a block that a request held before is also free.
pub realloc_lem :
    (n : ℕ) (c : Paged)
    → (c.block_table ≡ [] → IsConserved (realloc n c))
      × ((b : ℕ)
          → b < (realloc n c).num_blocks
          → 0 < table_count b c.block_table
          → ¬ IsUnshared (realloc n c))
unfolding realloc
realloc_lem n c = (
  λ e. record { at = λ b. ground (arith, count-range b (realloc n c).num_blocks) },
  λ b h k v. ground (arith, v.at b, count-range b (realloc n c).num_blocks),
)
