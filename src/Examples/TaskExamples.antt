-- ===== src/Examples/TaskExamples.antt =====
-- One task: its prefill and its end.
use chitu.Base.{
  ℕ, ◌+◌, ◌-◌, ◌≡◌, ◌≢◌, refl, Option, some, List, [], ◌∷◌, ◌++◌, arith, drop, max, All, inl,
}
use chitu.Task.{decode, waiting, stopped, length_reached, update_decode_status}
use chitu.Task.Prefill.{prefill_steps, Progress, IsSome, prefill_steps_lem, prefill_ends}
use chitu.Task.Stopping.{Move, update_decode_status-Move, generate, OnlyLength, generate-length}
use chitu.Examples.Values.{config, new_task, old_task}

abbrev prompt : List ℕ
prompt = 11 ∷ 12 ∷ 13 ∷ 14 ∷ 15 ∷ []

abbrev chunks : List (Option ℕ)
chunks = some 2 ∷ some 1 ∷ some 4 ∷ some 1 ∷ some 1 ∷ []

at_start : Progress prompt new_task
at_start = record { prompt = refl; chunk = refl; within = omega arith; phase = inl refl }

positive : All IsSome chunks
positive = (omega arith, (omega arith, (omega arith, (omega arith, (omega arith, tt)))))

prefill_steps_lem_example :
    ((prefill_steps config chunks new_task).0
        ++ drop (prefill_steps config chunks new_task).1.consumed_req_tokens prompt
      ≡ drop new_task.consumed_req_tokens prompt)
    × Progress prompt (prefill_steps config chunks new_task).1
prefill_steps_lem_example = prefill_steps_lem config prompt chunks new_task at_start

prefill_ends_example :
    ((prefill_steps config chunks new_task).1.task_type ≡ decode)
    × ((prefill_steps config chunks new_task).0 ≡ drop new_task.consumed_req_tokens prompt)
prefill_ends_example =
    prefill_ends config prompt chunks new_task at_start positive (omega arith) (omega arith)

not_waiting : old_task.status ≢ waiting
not_waiting = λ e. cc

update_decode_status-Move_example : Move config old_task (update_decode_status config old_task)
update_decode_status-Move_example = update_decode_status-Move config old_task not_waiting

only_length : OnlyLength 3 old_task
only_length = record {
  ignores_eos = refl;
  runs = refl;
  single = refl;
  no_test = refl;
  limited = refl;
}

generate-length_example :
    let u = generate config (31 ∷ 32 ∷ 33 ∷ 34 ∷ []) old_task in
    (u.status ≡ stopped)
    × (u.req.finish_reason ≡ some length_reached)
    × (u.num_new_tokens ≡ max (3 - config.mtp_size) 1 + 1)
generate-length_example =
    generate-length config 3 (31 ∷ 32 ∷ 33 ∷ 34 ∷ []) old_task only_length refl refl (omega arith)
