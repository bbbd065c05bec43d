-- ===== src/Examples/Values.antt =====
-- Test data: two requests, a cache of six blocks of four tokens, and a scheduler with two groups.
use chitu.Base.{ℕ, true, false, none, some, String, List, [], ◌∷◌}
use chitu.Cache.SeqLens.{BatchedSeqLen, BatchedSeqLenDelta}
use chitu.Cache.Requests.{Requests}
use chitu.Cache.Paged.{Paged}
use chitu.Task.{Task, TaskType, Infer, UserRequest, prefill, decode, normal}
use chitu.Pool.{TaskPool}
use chitu.Scheduler.State.{Scheduler, World, prefill_first, fcfs}

abbrev no_lens : BatchedSeqLen
no_lens = record { lens_list = []; lens_tensor = []; max_batch_size = 4 }

abbrev no_delta : BatchedSeqLenDelta
no_delta = record { old = no_lens; new = no_lens; delta = no_lens; is_classic_decoding = false }

abbrev pub requests : Requests
requests = record {
  req_id_to_seq_len = [];
  curr_req_ids = none;
  seq_len_delta = no_delta;
  mtp_seq_len_delta = no_delta;
  mtp_size = 1;
}

abbrev pub fresh_cache : Paged
fresh_cache = record {
  base = requests;
  block_size = 4;
  num_blocks = 6;
  max_num_blocks = 16;
  max_blocks_per_req = 4;
  use_cuda_graph = false;
  block_table = [];
  free_blocks = 0 ∷ 1 ∷ 2 ∷ 3 ∷ 4 ∷ 5 ∷ [];
  gpu_block_table = [];
  page_ids_up_to_date = false;
  offs_in_page_up_to_date = false;
}

-- Request "a" has five tokens in two blocks.
abbrev pub used_cache : Paged
used_cache = record fresh_cache {
  base = record requests { req_id_to_seq_len = ("a", 5) ∷ [] };
  block_table = ("a", 0 ∷ 1 ∷ []) ∷ [];
  free_blocks = 2 ∷ 3 ∷ 4 ∷ 5 ∷ [];
}

abbrev pub config : Infer
config = record { mtp_size = 1; schedule_overlap = false; pp_size = 1; stop_tokens = 2 ∷ [] }

abbrev pub request : String → UserRequest
request id = record {
  request_id = id;
  max_new_tokens = 3;
  finish_reason = none;
  num_remain_tokens = 0;
  test_standard_tokens = none;
  logprobs = false;
  start_time = 0;
}

abbrev pub task : String → TaskType → List ℕ → Task
task id ty tokens = record {
  task_id = id;
  task_type = ty;
  stop_with_eos = false;
  prefix_tokens = tokens;
  status = normal;
  req = request id;
  prefill_chunk_size = none;
  consumed_req_tokens = 0;
  num_new_tokens = 0;
  next_token = none;
  num_new_tokens_single_step = 1;
  mtp_token_list = [];
  record_next_token = none;
  sync_new_token = true;
  is_waiting = false;
  handle = none;
  arrv_ts = 0;
  sched_ts = 0;
  priority = 1;
  sched_ddl = 0;
  sched_group_id = none;
  warmup_prefill_seen = false;
  cache_owner = none;
}

abbrev pub new_task : Task
new_task = task "b" prefill (11 ∷ 12 ∷ 13 ∷ 14 ∷ 15 ∷ [])

abbrev pub old_task : Task
old_task = record (task "a" decode (21 ∷ 22 ∷ 23 ∷ 24 ∷ 25 ∷ [])) { consumed_req_tokens = 5 }

abbrev pub pool : TaskPool
pool = record {
  pool = ("a", old_task) ∷ ("b", new_task) ∷ [];
  id_list = "a" ∷ "b" ∷ [];
  pending_queue = [];
  load_score = 0;
}

abbrev pub scheduler : Scheduler
scheduler = record {
  prefill_num_tasks = 2;
  decode_num_tasks = 2;
  chunk_size = some 3;
  free_sgroups = 0 ∷ 1 ∷ [];
  used_sgroups = [];
  sgroup_waiting_tasks = [];
  strict_allowed_task_type = none;
  scorers = prefill_first ∷ fcfs ∷ [];
  kvcache_block_threshold = 6;
  is_warmup_stage = false;
  scheduling_ts = 0;
}

abbrev pub world : World
world = record { infer = config; sched = scheduler; tasks = pool; cache = used_cache }
