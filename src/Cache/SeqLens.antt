-- ===== src/Cache/SeqLens.antt =====
-- chitu/batched_seq_len.py: the lengths of the sequences of a batch, and their increments, as the
-- cache managers update them. `lens_tensor` is what the static device tensor holds; its `set` raises
-- for more elements than were reserved, and the host list has been replaced by then.
use chitu.Base.{
  ℕ, suc, ◌-◌, Bool, true, ◌&&◌, List, [], ◌∷◌, ltb, leb, if◌then◌else◌, nat_beq, length, all_of,
  Exec, ok, raise, value_error, assertion_error, ◌>>◌, modify, assert,
}

pub record BatchedSeqLen : Type 0 where
  pub lens_list : List ℕ
  pub lens_tensor : List ℕ
  pub max_batch_size : ℕ

-- `BatchedSeqLen(lens_list)` with no reserve beyond the list itself
unfoldable pub of_list : List ℕ → BatchedSeqLen
of_list lens = record { lens_list = lens; lens_tensor = lens; max_batch_size = length lens }

-- `StaticTensor.set`, behind the assignment to `lens_list`
unfoldable pub set_lens : List ℕ → List ℕ → Exec BatchedSeqLen (Unit {0})
set_lens lens tensor b =
    if ltb b.max_batch_size (length tensor)
    then (raise value_error, record b { lens_list = lens })
    else (ok tt, record b { lens_list = lens; lens_tensor = tensor })

unfoldable pub copy_from_list : List ℕ → Exec BatchedSeqLen (Unit {0})
unfolding set_lens
copy_from_list lens = set_lens lens lens

unfoldable pub copy_from : BatchedSeqLen → Exec BatchedSeqLen (Unit {0})
unfolding set_lens
copy_from other = set_lens other.lens_list other.lens_tensor

pub record BatchedSeqLenDelta : Type 0 where
  pub old : BatchedSeqLen
  pub new : BatchedSeqLen
  pub delta : BatchedSeqLen
  pub is_classic_decoding : Bool

-- [x - y for x, y in zip(new, old)], where no sequence gets shorter
unfoldable pub differences : List ℕ → List ℕ → List ℕ
differences (x ∷ xs) (y ∷ ys) = (x - y) ∷ differences xs ys
differences xs ys = []

-- all(x + 1 == y for x, y in zip(old, new))
unfoldable pub all_one_longer : List ℕ → List ℕ → Bool
all_one_longer (x ∷ xs) (y ∷ ys) = nat_beq (suc x) y && all_one_longer xs ys
all_one_longer xs ys = true

unfoldable pub classic_decoding : List ℕ → List ℕ → Bool
unfolding all_one_longer
classic_decoding old new = all_of (λ x. ltb 0 x) old && all_one_longer old new

-- The assertion of the constructor: no difference is negative.
unfoldable pub none_shorter : List ℕ → List ℕ → Bool
none_shorter (x ∷ xs) (y ∷ ys) = leb y x && none_shorter xs ys
none_shorter xs ys = true

abbrev on_old : Exec BatchedSeqLen (Unit {0}) → Exec BatchedSeqLenDelta (Unit {0})
on_old m d = ((m d.old).0, record d { old = (m d.old).1 })

abbrev on_new : Exec BatchedSeqLen (Unit {0}) → Exec BatchedSeqLenDelta (Unit {0})
on_new m d = ((m d.new).0, record d { new = (m d.new).1 })

abbrev on_delta : Exec BatchedSeqLen (Unit {0}) → Exec BatchedSeqLenDelta (Unit {0})
on_delta m d = ((m d.delta).0, record d { delta = (m d.delta).1 })

abbrev update_classic : BatchedSeqLenDelta → BatchedSeqLenDelta
update_classic d = record d {
  is_classic_decoding = classic_decoding d.old.lens_list d.new.lens_list;
}

-- `BatchedSeqLenDelta.copy_from_list`
unfoldable pub delta_copy_from_list : List ℕ → List ℕ → Exec BatchedSeqLenDelta (Unit {0})
unfolding copy_from_list
delta_copy_from_list old new = do
  on_old (copy_from_list old)
  on_new (copy_from_list new)
  on_delta (copy_from_list (differences new old))
  modify update_classic

-- `BatchedSeqLenDelta.copy_from`
unfoldable pub delta_copy_from : BatchedSeqLen → BatchedSeqLen → Exec BatchedSeqLenDelta (Unit {0})
unfolding copy_from
delta_copy_from old new = do
  on_old (copy_from old)
  on_new (copy_from new)
  assert (none_shorter new.lens_list old.lens_list) assertion_error
  on_delta (copy_from (of_list (differences new.lens_list old.lens_list)))
  modify update_classic
