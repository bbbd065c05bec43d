-- ===== src/Packed/Payload.antt =====
-- chitu/task.py, `SerializedPackedTasksPayloadType` and the tests on it.
use chitu.Base.{
  ℕ, ◌≡◌, refl, Bool, true, false, Option, none, some, nat_beq, if◌then◌else◌, Result, ok, raise,
  value_error,
}
use chitu.Task.{TaskType}
use chitu.Packed.Ids.{ℤ, pos, negsuc}

pub data PayloadType : Type 0 where
  prefill decode empty_prefill empty_decode : PayloadType
  terminate_backend end_task heartbeat none_type : PayloadType

abbrev pub value : PayloadType → ℕ
value prefill = 1
value decode = 2
value empty_prefill = 3
value empty_decode = 4
value terminate_backend = 5
value end_task = 6
value heartbeat = 7
value none_type = 8

abbrev of_number : ℕ → Result PayloadType
of_number n =
    if nat_beq n 1
    then ok prefill
    else if nat_beq n 2
    then ok decode
    else if nat_beq n 3
    then ok empty_prefill
    else if nat_beq n 4
    then ok empty_decode
    else if nat_beq n 5
    then ok terminate_backend
    else if nat_beq n 6
    then ok end_task
    else if nat_beq n 7
    then ok heartbeat
    else if nat_beq n 8
    then ok none_type
    else raise value_error

-- `SerializedPackedTasksPayloadType(n)`
unfoldable pub payload_of_value : ℤ → Result PayloadType
payload_of_value (negsuc n) = raise value_error
payload_of_value (pos n) = of_number n

unfoldable pub is_empty_payload : PayloadType → Bool
is_empty_payload terminate_backend = true
is_empty_payload heartbeat = true
is_empty_payload empty_prefill = true
is_empty_payload empty_decode = true
is_empty_payload _ = false

-- `TaskType(payload_type.value)` of a normal payload, and else None.
unfoldable pub normal_type : PayloadType → Option TaskType
normal_type prefill = some TaskType.prefill
normal_type decode = some TaskType.decode
normal_type empty_prefill = some TaskType.empty_prefill
normal_type empty_decode = some TaskType.empty_decode
normal_type _ = none

pub payload_of-value : (t : PayloadType) → payload_of_value (pos (value t)) ≡ ok t
unfolding payload_of_value
payload_of-value prefill = refl
payload_of-value decode = refl
payload_of-value empty_prefill = refl
payload_of-value empty_decode = refl
payload_of-value terminate_backend = refl
payload_of-value end_task = refl
payload_of-value heartbeat = refl
payload_of-value none_type = refl
