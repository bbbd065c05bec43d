-- ===== src/Packed.antt =====
-- chitu/task.py, `PackedTasksBase`: a batch of tasks, and the tensor of integers by which the main
-- rank announces it to the other ranks.
pub mod Ids
pub mod Payload
pub mod Layout
mod Sent
pub mod RoundTrip
use chitu.Base.{
  ℕ, zero, suc, ◌+◌, ◌-◌, ◌*◌, ◌<◌, Bool, true, false, Option, none, some, List, [], ◌∷◌, ◌++◌, map,
  ltb, leb, nat_beq, if◌then◌else◌, length, get_elem?, take, drop, replicate, sum, Result, ok,
  raise, value_error, index_error, runtime_error, not, ◌&&◌,
}
use chitu.Task.{TaskType, is_prefill}
use chitu.Packed.Payload.{PayloadType, value, payload_of_value, is_empty_payload, normal_type}
use chitu.Packed.Ids.{ℤ, pos, negsuc, Text, req_encode, req_decode, in_int64, then_result}

-- The fields that are serialized, and those that come back.
pub record Packed : Type 0 where
  pub num_tasks : ℕ
  pub task_ids : List Text
  pub req_ids : List Text
  pub task_type : Option TaskType
  pub tokens : List (List ℕ)
  pub payload_type : PayloadType
  pub num_tokens : ℕ
  pub has_outputs : List Bool
  pub has_model_run : List Bool

abbrev pub bit : Bool → ℤ
bit true = pos 1
bit false = pos 0

abbrev pub is_zero : ℤ → Bool
is_zero (pos zero) = true
is_zero _ = false

-- ret[torch.arange(offset, offset + n)] = values, where a single value stands for `n` equal ones
abbrev pub write : ℕ → List ℤ → List ℤ → List ℤ
write offset values ret = take offset ret ++ (values ++ drop (offset + length values) ret)

abbrev widened : ℕ → List ℤ → Option (List ℤ)
widened n (v ∷ []) = some (replicate n v)
widened n values = if nat_beq (length values) n then some values else none

abbrev scatter_widened : ℕ → ℕ → Option (List ℤ) → List ℤ → Result (List ℤ)
scatter_widened offset n none ret = raise runtime_error
scatter_widened offset n (some values) ret =
    if leb (offset + n) (length ret) then ok (write offset values ret) else raise index_error

unfoldable pub scatter : ℕ → ℕ → List ℤ → List ℤ → Result (List ℤ)
scatter offset n values ret = scatter_widened offset n (widened n values) ret

unfoldable pub empty_serialization : ℕ → List ℤ
empty_serialization max_num_tasks = replicate (2 + max_num_tasks * 3) (pos 0)

-- [req_encode(task_type, tid) for tid in task_ids], as an int64 tensor
unfoldable pub encode_all : Option TaskType → List Text → Result (List ℤ)
encode_all ty [] = ok []
encode_all ty (id ∷ ids) = then_result (req_encode ty id) (λ x.
    then_result (encode_all ty ids) (λ xs. if in_int64 x then ok (x ∷ xs) else raise runtime_error))

abbrev pub lens_of : List (List ℕ) → List ℤ
lens_of = map (λ ts. pos (length ts))

-- The cells behind the ids.
abbrev details : ℕ → Packed → Option TaskType → List ℤ → Result (List ℤ)
details m p (some TaskType.prefill) ret =
    then_result (scatter (2 + m) p.num_tasks (lens_of p.tokens) ret)
      (λ r. scatter (2 + 2 * m) p.num_tasks (map bit p.has_outputs) r)
details m p (some TaskType.decode) ret = scatter (2 + m) p.num_tasks (map bit p.has_model_run) ret
details m p _ ret = ok ret

-- ret[1], if there is a slot handle
abbrev pub set_slot : Option ℕ → List ℤ → List ℤ
set_slot none ret = ret
set_slot (some idx) ret = write 1 (pos idx ∷ []) ret

unfoldable pub serialize : ℕ → Option ℕ → Packed → Result (List ℤ)
unfolding scatter encode_all
serialize m slot p =
    let ret = write 0 (pos (value p.payload_type) ∷ []) (empty_serialization m) in
    if is_empty_payload p.payload_type
    then ok ret
    else then_result (encode_all p.task_type p.task_ids) (λ xs.
      then_result (scatter 2 p.num_tasks xs ret)
        (λ r. then_result (details m p p.task_type r) (λ r'. ok (set_slot slot r'))))

-- What the loop over the ids collects.
pub record Rows : Type 0 where
  pub ids : List Text
  pub lens : List ℕ
  pub outputs : List Bool
  pub runs : List Bool

abbrev pub no_rows : Rows
no_rows = record { ids = []; lens = []; outputs = []; runs = [] }

abbrev item : Option ℤ → Result ℤ
item none = raise index_error
item (some x) = ok x

unfoldable pub at : List ℤ → ℕ → Result ℤ
at t i = item (get_elem? t i)

-- A list of `n` elements, where `n` may be negative.
abbrev pub as_length : ℤ → ℕ
as_length (pos n) = n
as_length (negsuc n) = 0

abbrev prefill_row : Text → ℤ → ℤ → Rows → Rows
prefill_row id len out rows = record rows {
  ids = id ∷ rows.ids;
  lens = as_length len ∷ rows.lens;
  outputs = not (is_zero out) ∷ rows.outputs;
}

abbrev decode_row : Text → ℤ → Rows → Rows
decode_row id run rows = record rows { ids = id ∷ rows.ids; runs = not (is_zero run) ∷ rows.runs }

abbrev read_row : ℕ → List ℤ → ℕ → Text × TaskType → Result Rows → Result Rows
read_row m t it (id, ty) rest =
    if is_prefill ty
    then then_result (at t (2 + m + it)) (λ len.
      then_result (at t (2 + 2 * m + it))
        (λ out. then_result rest (λ rows. ok (prefill_row id len out rows))))
    else then_result (at t (2 + m + it))
        (λ run. then_result rest (λ rows. ok (decode_row id run rows)))

-- for it in range(max_num_tasks), from `it` on
unfoldable pub read_rows : ℕ → List ℤ → ℕ → ℕ → Result Rows
unfolding at
read_rows m t it zero = ok no_rows
read_rows m t it (suc k) =
    let rest = read_rows m t (suc it) k in
    then_result (at t (2 + it))
      (λ x. if is_zero x then ok no_rows else read_row m t it (req_decode x) rest)

abbrev is_prefill_type : Option TaskType → Bool
is_prefill_type none = false
is_prefill_type (some ty) = is_prefill ty

abbrev pub unpacked : PayloadType → Rows → Packed
unpacked payload rows =
    let ty = normal_type payload in
    let tokens = if is_prefill_type ty then map (λ n. replicate n 0) rows.lens else [] in
    record {
      num_tasks = length rows.ids;
      task_ids = rows.ids;
      req_ids = rows.ids;
      task_type = ty;
      tokens = tokens;
      payload_type = payload;
      num_tokens = if is_prefill_type ty then sum (map length tokens) else length rows.ids;
      has_outputs = rows.outputs;
      has_model_run = rows.runs;
    }

-- if slot_handle: slot_handle.set_slot_idx(task_tensor[1].item())
abbrev pub receive_slot : List ℤ → Option ℤ → Result (Option ℤ)
receive_slot t none = ok none
receive_slot t (some idx) = then_result (at t 1) (λ x. ok (some x))

-- Of an empty payload nothing else is read.
abbrev unpack : ℕ → List ℤ → Option ℤ → PayloadType → Result (Packed × Option ℤ)
unpack m t slot payload =
    if is_empty_payload payload
    then ok (unpacked payload no_rows, slot)
    else then_result (read_rows m t 0 m)
        (λ rows. then_result (receive_slot t slot) (λ s. ok (unpacked payload rows, s)))

-- `slot` is the index that this rank's slot handle holds, if the rank has a handle.
unfoldable pub deserialize : ℕ → List ℤ → Option ℤ → Result (Packed × Option ℤ)
unfolding read_rows payload_of_value at
deserialize m t slot =
    then_result (at t 0)
      (λ x. then_result (payload_of_value x) (λ payload. unpack m t slot payload))
