-- ===== src/Cache/Paged/Blocks.antt =====
-- How the primitives of the block manager move blocks: `get_free_blocks` takes a prefix of the free
-- list, `grow` hands it to a request. `held` counts where a block is.
use chitu.Base.{
  ℕ, zero, suc, ◌+◌, ◌≤◌, ◌<◌, ◌≡◌, refl, sym, ap, ◌∙◌, String, List, [], ◌∷◌, arith, length, take,
  drop, count, count-append, take-append-drop, Dict, get, put, remove, get_default, ok, raise,
  generic_exception, string_eq,
}
use chitu.Cache.Paged.{Paged, get_free_block, get_free_blocks}

-- How often a block stands in the table.
abbrev pub table_count : ℕ → Dict String (List ℕ) → ℕ
table_count b [] = 0
table_count b ((_, bs) ∷ table) = count b bs + table_count b table

-- How often a block is on the free list or with a request.
abbrev pub held : Paged → ℕ → ℕ
held c b = count b c.free_blocks + table_count b c.block_table

pub table_count-put :
    (b : ℕ) (table : Dict String (List ℕ)) (r : String) (bs : List ℕ)
    → table_count b (put table r bs) + count b (get_default table r [])
      ≡ table_count b table + count b bs
unfolding put get
table_count-put b [] r bs = omega arith
table_count-put b ((k, v) ∷ table) r bs = ground (arith, table_count-put b table r bs)

pub table_count-remove :
    (b : ℕ) (table : Dict String (List ℕ)) (r : String)
    → table_count b (remove table r) + count b (get_default table r []) ≡ table_count b table
unfolding remove get
table_count-remove b [] r = omega arith
table_count-remove b ((k, v) ∷ table) r = ground (arith, table_count-remove b table r)

pub count-take-drop :
    (b n : ℕ) (xs : List ℕ) → count b (take n xs) + count b (drop n xs) ≡ count b xs
count-take-drop b n xs =
    sym (count-append b (take n xs) (drop n xs)) ∙ ap (count b) (take-append-drop n xs)

-- With enough free blocks the first ones are taken.
pub get_free_blocks_enough :
    (n : ℕ) (c : Paged) (xs : List ℕ)
    → c.free_blocks ≡ xs
    → n ≤ length xs
    → get_free_blocks n c ≡ (ok (take n xs), record c { free_blocks = drop n xs })
unfolding get_free_blocks
get_free_blocks_enough zero c xs e h = rw (← e)
get_free_blocks_enough (suc n) c [] e h = absurd (omega arith)
get_free_blocks_enough (suc n) c (x ∷ xs) e h =
    rw (e, get_free_block)
      (rw (get_free_blocks_enough n (record c { free_blocks = xs }) xs refl (omega arith)))

-- Otherwise all that there were are gone when the exception is raised.
pub get_free_blocks_short :
    (n : ℕ) (c : Paged) (xs : List ℕ)
    → c.free_blocks ≡ xs
    → length xs < n
    → get_free_blocks n c ≡ (raise generic_exception, record c { free_blocks = [] })
unfolding get_free_blocks
get_free_blocks_short zero c xs e h = absurd (omega arith)
get_free_blocks_short (suc n) c [] e h = ground arith
get_free_blocks_short (suc n) c (x ∷ xs) e h =
    rw (e, get_free_block)
      (rw (get_free_blocks_short n (record c { free_blocks = xs }) xs refl (omega arith)))
