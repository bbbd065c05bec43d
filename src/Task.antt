-- ===== src/Task.antt =====
-- chitu/task.py and chitu/task_type.py: one generation task, from its prefill in chunks to the end
-- of decoding. A task here has its request (`req` is not None). A token that is not there, -1 in
-- the source, is `none`; device tensors are the numbers that they hold,
-- and times are numbers.
pub mod Prefill
pub mod Stopping
use chitu.Base.{
  ℕ, ◌+◌, ◌-◌, Bool, true, false, ◌&&◌, ◌||◌, Option, none, some, String, List, [], ◌∷◌, ◌++◌, ltb,
  leb, nat_beq, if◌then◌else◌, length, get_or, take, drop, any_of, Result, ok, raise,
  assertion_error, not,
}

pub data TaskType : Type 0 where
  prefill decode empty_prefill empty_decode special : TaskType

pub data DecodeType : Type 0 where
  waiting normal stopped will_stop_length : DecodeType

pub data FinishReason : Type 0 where
  stop length_reached : FinishReason

abbrev pub is_prefill : TaskType → Bool
is_prefill prefill = true
is_prefill _ = false

abbrev pub is_decode : TaskType → Bool
is_decode decode = true
is_decode _ = false

abbrev pub is_stopped : DecodeType → Bool
is_stopped stopped = true
is_stopped _ = false

abbrev pub is_normal : DecodeType → Bool
is_normal normal = true
is_normal _ = false

-- The part of the configuration and of the back end that tasks read.
pub record Infer : Type 0 where
  pub mtp_size : ℕ
  pub schedule_overlap : Bool
  pub pp_size : ℕ
  pub stop_tokens : List ℕ

-- The fields of `UserRequest` that tasks read or write.
pub record UserRequest : Type 0 where
  pub request_id : String
  pub max_new_tokens : ℕ
  pub finish_reason : Option FinishReason
  pub num_remain_tokens : ℕ
  pub test_standard_tokens : Option (List ℕ)
  pub logprobs : Bool
  pub start_time : ℕ

-- `cache_owner` is an attribute that only DPFifoScheduler sets: `none` until then.
pub record Task : Type 0 where
  pub task_id : String
  pub task_type : TaskType
  pub stop_with_eos : Bool
  pub prefix_tokens : List ℕ
  pub status : DecodeType
  pub req : UserRequest
  pub prefill_chunk_size : Option ℕ
  pub consumed_req_tokens : ℕ
  pub num_new_tokens : ℕ
  pub next_token : Option ℕ
  pub num_new_tokens_single_step : ℕ
  pub mtp_token_list : List ℕ
  pub record_next_token : Option ℕ
  pub sync_new_token : Bool
  pub is_waiting : Bool
  pub handle : Option ℕ
  pub arrv_ts : ℕ
  pub sched_ts : ℕ
  pub priority : ℕ
  pub sched_ddl : ℕ
  pub sched_group_id : Option ℕ
  pub warmup_prefill_seen : Bool
  pub cache_owner : Option ℕ

-- `decode_status`
abbrev pub decode_status : Task → DecodeType
decode_status t = if t.is_waiting then waiting else t.status

unfoldable pub need_remove : Task → Bool
need_remove t = is_stopped (decode_status t)

-- `has_model_run`, which the constructor picks by the configuration
unfoldable pub has_model_run : Infer → Task → Bool
has_model_run cfg t =
    if cfg.schedule_overlap && not (ltb 1 cfg.pp_size)
    then is_normal t.status
    else not (is_stopped t.status)

abbrev is_stop_token : Infer → Option ℕ → Bool
is_stop_token cfg none = false
is_stop_token cfg (some token) = any_of (nat_beq token) cfg.stop_tokens

abbrev will_stop : DecodeType → Bool
will_stop will_stop_length = true
will_stop _ = false

abbrev finish : FinishReason → Task → Task
finish why t = record t { status = stopped; req = record t.req { finish_reason = some why } }

-- The status that is returned is `decode_status` of the task afterwards.
unfoldable pub update_decode_status : Infer → Task → Task
update_decode_status cfg t =
    if t.is_waiting
    then t
    else if is_stopped t.status
    then t
    else if t.stop_with_eos && (ltb 0 t.num_new_tokens && is_stop_token cfg t.next_token)
    then finish stop t
    else if will_stop t.status
    then finish length_reached t
    else if leb (t.req.max_new_tokens - cfg.mtp_size) t.num_new_tokens
    then record t { status = will_stop_length }
    else t

abbrev standard_token : Task → Option (List ℕ) → Option ℕ
standard_token t none = none
standard_token t (some tokens) =
    if ltb t.num_new_tokens (length tokens) then some (get_or tokens t.num_new_tokens 0) else none

-- Tests replay standard tokens: the sampled one is then only recorded.
abbrev take_token : ℕ → Option ℕ → Task → Task
take_token token none t = record t { next_token = some token }
take_token token (some standard) t = record t {
  record_next_token = some token;
  next_token = some standard;
}

unfoldable pub update_response_no_sync : ℕ → Task → Task
update_response_no_sync token t =
    let t' = take_token token (standard_token t t.req.test_standard_tokens) t in
    record t' {
      num_new_tokens = t'.num_new_tokens + t'.num_new_tokens_single_step;
      req = record t'.req {
        num_remain_tokens = t'.req.num_remain_tokens + t'.num_new_tokens_single_step;
      };
      sync_new_token = false;
    }

-- The tokens that `update_prefix` appends while decoding.
abbrev appended : Infer → Task → Option ℕ → Option ℕ → List ℕ
appended cfg t (some recorded) next = recorded ∷ []
appended cfg t none none = []
appended cfg t none (some next) =
    if ltb 1 cfg.mtp_size then t.mtp_token_list ++ next ∷ [] else next ∷ []

abbrev nothing_new : Option ℕ → Option ℕ → Bool
nothing_new none none = true
nothing_new _ _ = false

unfoldable pub update_prefix : Infer → Task → Task
update_prefix cfg t =
    if t.sync_new_token
    then t
    else if nothing_new t.next_token t.record_next_token
    then t
    else record t {
      prefix_tokens =
          if is_decode t.task_type
          then t.prefix_tokens ++ appended cfg t t.record_next_token t.next_token
          else t.prefix_tokens;
      record_next_token = none;
      sync_new_token = true;
    }

unfoldable pub update_response_sync : Infer → ℕ → Task → Task
update_response_sync cfg token t = update_prefix cfg (update_response_no_sync token t)

unfoldable pub wait : ℕ → Task → Task
wait handle t = record t { is_waiting = true; handle = some handle }

unfoldable pub unwait : Task → Result Task
unwait t =
    if t.is_waiting
    then ok (record t { is_waiting = false; handle = none })
    else raise assertion_error

unfoldable pub prefix_tokens_len : Infer → Task → ℕ
prefix_tokens_len cfg t =
    if t.sync_new_token || is_prefill t.task_type
    then length t.prefix_tokens
    else length t.prefix_tokens + cfg.mtp_size

unfoldable pub set_prefill_chunk_size_for_one_step : ℕ → Task → Task
set_prefill_chunk_size_for_one_step chunk t = record t { prefill_chunk_size = some chunk }

-- Would this step finish the prefill?
unfoldable pub completes_prefill : Infer → Task → Option ℕ → Bool
unfolding prefix_tokens_len
completes_prefill cfg t none = true
completes_prefill cfg t (some chunk) = leb (prefix_tokens_len cfg t) (t.consumed_req_tokens + chunk)

abbrev chunk_or : ℕ → Option ℕ → ℕ
chunk_or d none = d
chunk_or d (some chunk) = chunk

unfoldable pub next_req_tokens_len : Infer → Task → ℕ
unfolding completes_prefill
next_req_tokens_len cfg t =
    if completes_prefill cfg t t.prefill_chunk_size
    then prefix_tokens_len cfg t - t.consumed_req_tokens
    else chunk_or 0 t.prefill_chunk_size

-- self.prefix_tokens[consumed : consumed + next_req_tokens_len]
unfoldable pub next_req_tokens : Infer → Task → List ℕ
next_req_tokens cfg t =
    take (next_req_tokens_len cfg t) (drop t.consumed_req_tokens t.prefix_tokens)

unfoldable pub consume_req_tokens : Infer → Task → Task
unfolding completes_prefill
consume_req_tokens cfg t =
    if completes_prefill cfg t t.prefill_chunk_size
    then record t {
      consumed_req_tokens = prefix_tokens_len cfg t;
      task_type = decode;
      prefill_chunk_size = none;
    }
    else record t {
      consumed_req_tokens = t.consumed_req_tokens + chunk_or 0 t.prefill_chunk_size;
      prefill_chunk_size = none;
    }

unfoldable pub has_output : Infer → Task → Bool
unfolding completes_prefill
has_output cfg t =
    if is_stopped (decode_status t)
    then false
    else is_prefill t.task_type && completes_prefill cfg t t.prefill_chunk_size
      || is_decode t.task_type

abbrev pub has_next_token : Task → Bool
has_next_token t = elim t.next_token [ none ↦ false | some _ ↦ true ]
