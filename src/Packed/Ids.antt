-- ===== src/Packed/Ids.antt =====
-- chitu/task.py, `req_encode` and `req_decode`: task ids as integers, the sign being the type of the
-- task. An id is the list of its characters' codes. Of the texts that `int(s, 16)` takes only those
-- of plain digits are numbers here: the ids are made of those.
use chitu.Base.{
  ℕ, zero, suc, ◌+◌, ◌-◌, ◌*◌, ◌/◌, ◌%◌, ◌^◌, ◌<◌, ◌≡◌, refl, ◌≢◌, ap, ◌∙◌, Bool, false, ◌&&◌,
  Option, none, some, List, [], ◌∷◌, arith, ltb, leb, nat_beq, if◌then◌else◌, Result, ok, raise,
  value_error, inl, inr, Bool-cases,
}
use chitu.Task.{TaskType, prefill, decode}

pub data ℤ : Type 0 where
  pos negsuc : ℕ → ℤ

abbrev pub negated : ℕ → ℤ
negated zero = pos zero
negated (suc n) = negsuc n

abbrev pub in_int64 : ℤ → Bool
in_int64 (pos n) = ltb n (2 ^ 63)
in_int64 (negsuc n) = ltb n (2 ^ 63)

abbrev pub Text : Type 0
Text = List ℕ

abbrev pub then_result {ℓ} : {A B : Type ℓ} → Result A → (A → Result B) → Result B
then_result (ok a) f = f a
then_result (raise e) f = raise e

-- 0-9, a-f and A-F
unfoldable pub digit_value : ℕ → Option ℕ
digit_value c =
    if leb 48 c && leb c 57
    then some (c - 48)
    else if leb 97 c && leb c 102
    then some (c - 87)
    else if leb 65 c && leb c 70
    then some (c - 55)
    else none

abbrev with_digit : Option ℕ → (ℕ → Option ℕ) → Option ℕ
with_digit none f = none
with_digit (some d) f = f d

unfoldable pub int_from : ℕ → Text → Option ℕ
unfolding digit_value
int_from acc [] = some acc
int_from acc (c ∷ cs) = with_digit (digit_value c) (λ d. int_from (acc * 16 + d) cs)

-- int(s, 16)
unfoldable pub int_of_hex : Text → Option ℕ
int_of_hex [] = none
int_of_hex (c ∷ cs) = int_from 0 (c ∷ cs)

-- What follows the first "_", if there is one.
unfoldable pub without_prefix : Text → Text → Text
without_prefix whole [] = whole
without_prefix whole (c ∷ cs) = if nat_beq c 95 then cs else without_prefix whole cs

abbrev signed : Option TaskType → Option ℕ → Result ℤ
signed ty none = raise value_error
signed (some prefill) (some n) = ok (pos n)
signed _ (some n) = ok (negated n)

-- The batch's type may be None, or any type: only prefill is positive.
unfoldable pub req_encode : Option TaskType → Text → Result ℤ
unfolding int_of_hex without_prefix
req_encode ty task_id = signed ty (int_of_hex (without_prefix task_id task_id))

abbrev digit : ℕ → ℕ
digit d = if ltb d 10 then 48 + d else 87 + d

-- The digits of `n` in front of `acc`, on fuel.
unfoldable pub hex_from : ℕ → ℕ → Text → Text
hex_from zero n acc = acc
hex_from (suc fuel) n acc =
    let here = digit (n % 16) ∷ acc in
    let rest = hex_from fuel (n / 16) here in if nat_beq (n / 16) 0 then here else rest

-- hex(n)[2:]
unfoldable pub hex : ℕ → Text
hex n = hex_from (suc n) n []

unfoldable pub req_decode : ℤ → Text × TaskType
unfolding hex
req_decode (pos zero) = (hex 0, decode)
req_decode (pos (suc n)) = (hex (suc n), prefill)
req_decode (negsuc n) = (hex (suc n), decode)

digit_value-digit : (d : ℕ) → d < 16 → digit_value (digit d) ≡ some d
unfolding digit_value
digit_value-digit d h = ground arith

int_from-digit :
    (d n : ℕ) (cs : Text) → d < 16 → int_from n (digit d ∷ cs) ≡ int_from (n * 16 + d) cs
unfolding int_from
int_from-digit d n cs h = rw (digit_value-digit d h) refl

int_from-hex_from :
    (fuel n : ℕ) (acc : Text) → n < fuel → int_from 0 (hex_from fuel n acc) ≡ int_from n acc
unfolding hex_from
int_from-hex_from zero n acc h = absurd (omega arith)
int_from-hex_from (suc fuel) n acc h = elim (Bool-cases (nat_beq (n / 16) 0)) [
  | inl e ↦
      let small : 0 * 16 + n % 16 ≡ n = ground arith in
      rw e (int_from-digit (n % 16) 0 acc (omega arith) ∙ ap (λ k. int_from k acc) small)
  | inr e ↦
      let less : n / 16 < fuel = ground arith in
      let whole : n / 16 * 16 + n % 16 ≡ n = omega arith in
      rw e (
        int_from-hex_from fuel (n / 16) (digit (n % 16) ∷ acc) less
        ∙ (int_from-digit (n % 16) (n / 16) acc (omega arith) ∙ ap (λ k. int_from k acc) whole))
]

plain_digit : (d : ℕ) → d < 16 → nat_beq (digit d) 95 ≡ false
plain_digit d h = ground arith

-- The digits of a number contain no "_" ...
without_prefix-hex_from :
    (fuel n : ℕ) (whole acc : Text)
    → without_prefix whole acc ≡ whole
    → without_prefix whole (hex_from fuel n acc) ≡ whole
unfolding hex_from without_prefix
without_prefix-hex_from zero n whole acc h = h
without_prefix-hex_from (suc fuel) n whole acc h =
    let here : without_prefix whole (digit (n % 16) ∷ acc) ≡ whole =
      rw (plain_digit (n % 16) (omega arith)) h in
    elim (Bool-cases (nat_beq (n / 16) 0)) [
      | inl e ↦ rw e here
      | inr e ↦ rw e (without_prefix-hex_from fuel (n / 16) whole (digit (n % 16) ∷ acc) here)
    ]

-- ... and there is at least one.
int_of-hex_from :
    (fuel n c : ℕ) (cs : Text)
    → int_of_hex (hex_from fuel n (c ∷ cs)) ≡ int_from 0 (hex_from fuel n (c ∷ cs))
unfolding hex_from int_of_hex
int_of-hex_from zero n c cs = refl
int_of-hex_from (suc fuel) n c cs = elim (Bool-cases (nat_beq (n / 16) 0)) [
  | inl e ↦ rw e refl
  | inr e ↦ rw e (int_of-hex_from fuel (n / 16) (digit (n % 16)) (c ∷ cs))
]

int_of-first : (n : ℕ) → int_of_hex (hex_from (suc n) n []) ≡ int_from 0 (hex_from (suc n) n [])
unfolding hex_from int_of_hex
int_of-first n = elim (Bool-cases (nat_beq (n / 16) 0)) [
  | inl e ↦ rw e refl
  | inr e ↦ rw e (int_of-hex_from n (n / 16) (digit (n % 16)) [])
]

int_of-hex : (n : ℕ) → int_of_hex (without_prefix (hex n) (hex n)) ≡ some n
unfolding hex without_prefix int_from
int_of-hex n =
    ap int_of_hex (without_prefix-hex_from (suc n) n (hex n) [] refl)
    ∙ (int_of-first n ∙ int_from-hex_from (suc n) n [] (omega arith))

-- An id that is decoded is encoded to the same integer again, whatever type the batch has, as long as
-- that type is prefill exactly for positive integers.
req_encode-decode : (x : ℤ) → x ≢ pos 0 → req_encode (some (req_decode x).1) (req_decode x).0 ≡ ok x
unfolding req_encode req_decode
req_encode-decode (pos zero) h = absurd (h refl)
req_encode-decode (pos (suc n)) h = rw (int_of-hex (suc n)) refl
req_encode-decode (negsuc n) h = rw (int_of-hex (suc n)) refl
