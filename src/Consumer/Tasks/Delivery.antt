-- ===== src/Consumer/Tasks/Delivery.antt =====
-- consumer/shard_worker.go, consumer/tasks.go: log groups stay until they have been processed.
use mathlib.Core.Bool.{true, false}
use mathlib.Core.Path.{ap₂}
use aliyun_log_go_sdk.Prelude.{
  ℕ, ◌≡◌, refl, ◌∙◌, ◌⊎◌, inl, inr, Option, none, some, List, [], Bool, not, Str, str_eq,
  if◌then◌else◌,
}
use aliyun_log_go_sdk.Prelude.Int.{ℤ, pos, ◌-ℤ◌, ◌*ℤ◌, ltb_ℤ}
use aliyun_log_go_sdk.LogPb.{LogGroup}
use aliyun_log_go_sdk.Producer.IoWorker.{Err}
use aliyun_log_go_sdk.Consumer.Config.{LogHubConfig}
use aliyun_log_go_sdk.Consumer.Tracker.{flush_check_point}
use aliyun_log_go_sdk.Consumer.ShardWorker.{
  pulling, processing, ShardConsumerWorker, update_status, next_status, save_check_point_if_needed,
}
use aliyun_log_go_sdk.Consumer.Tasks.{
  TaskEnv, Processed, returned, panicked, run_task, run_process, consumer_process_task,
  after_process, process_list,
}
use aliyun_log_go_sdk.Consumer.Tasks.Status.{new_status}
use aliyun_log_go_sdk.Consumer.Tasks.Endings.{one_of_three, one_of_two, save-Same}

save-flag :
    (o : LogHubConfig) (answers : ℕ → Option Err) (now after : ℤ) (w : ShardConsumerWorker)
    → (save_check_point_if_needed o answers now after w).shutdown_flag ≡ w.shutdown_flag
unfolding save_check_point_if_needed
save-flag o answers now after w =
    one_of_three (λ v. v.shutdown_flag ≡ w.shutdown_flag) o.auto_commit_disabled
      (ltb_ℤ (pos 1000000 *ℤ o.auto_commit_interval_in_ms) (now -ℤ w.last_checkpoint_save_time)) w
      (record w {
        tracker = (flush_check_point answers w.tracker).1;
        last_checkpoint_save_time = after;
      })
      refl refl

-- A processing worker that is not told to shut down.
abbrev IsActive : ShardConsumerWorker → Type 0
IsActive d = (d.consumer_status ≡ processing) × (d.shutdown_flag ≡ false)

updated :
    (ok : Bool) (d : ShardConsumerWorker)
    → IsActive d
    → (update_status ok d).consumer_status ≡ new_status processing false ok
unfolding update_status
updated ok d (e, f) = ap₂ (λ s t. new_status s t ok) e f

-- The logs were processed without an error and dropped, or they are still there to be processed.
abbrev pub ProcessOutcome : List LogGroup → Processed → ShardConsumerWorker → Type 0
ProcessOutcome groups ended v =
    ((rollback : Str) × (ended ≡ returned rollback false)
      × (v.consumer_status ≡ pulling)
      × (v.last_fetch_log_group_list ≡ none))
    ⊎ ((v.consumer_status ≡ processing) × (v.last_fetch_log_group_list ≡ some groups))

rolled : Str → ShardConsumerWorker → ShardConsumerWorker
rolled rollback d =
    if not (str_eq rollback []) then (record d { next_fetch_cursor = rollback }) else d

rolled-keeps :
    (rollback : Str) (d : ShardConsumerWorker)
    → IsActive d
    → IsActive (rolled rollback d)
      × ((rolled rollback d).last_fetch_log_group_list ≡ d.last_fetch_log_group_list)
unfolding rolled
rolled-keeps rollback d a =
    one_of_two
      (λ (v : ShardConsumerWorker).
        IsActive v × (v.last_fetch_log_group_list ≡ d.last_fetch_log_group_list))
      (not (str_eq rollback [])) (record d { next_fetch_cursor = rollback }) d (a, refl) (a, refl)

ended-ProcessOutcome :
    (o : LogHubConfig) (env : TaskEnv) (groups : List LogGroup) (ended : Processed)
    (w : ShardConsumerWorker)
    → IsActive w
    → w.last_fetch_log_group_list ≡ some groups
    → let (rollback, ok, done) = after_process o env ended w in
      ProcessOutcome groups ended (update_status ok (rolled rollback done))
unfolding rolled update_status next_status
ended-ProcessOutcome o env groups panicked w a l =
    let (active, list) = rolled-keeps [] w a in inr (updated false (rolled [] w) active, list ∙ l)
ended-ProcessOutcome o env groups (returned rollback true) w (e, f) l =
    let saved = save_check_point_if_needed o env.flush_answers (env.clock 0) (env.clock 1) w in
    let (status, list, count) = save-Same o env.flush_answers (env.clock 0) (env.clock 1) w in
    let flag = save-flag o env.flush_answers (env.clock 0) (env.clock 1) w in
    let (active, kept) = rolled-keeps rollback saved (status ∙ e, flag ∙ f) in
    inr (updated false (rolled rollback saved) active, kept ∙ (list ∙ l))
ended-ProcessOutcome o env groups (returned rollback false) w (e, f) l =
    let saved = save_check_point_if_needed o env.flush_answers (env.clock 0) (env.clock 1) w in
    let (status, list, count) = save-Same o env.flush_answers (env.clock 0) (env.clock 1) w in
    let flag = save-flag o env.flush_answers (env.clock 0) (env.clock 1) w in
    let done = record saved { last_fetch_log_group_list = none } in
    let (active, kept) = rolled-keeps rollback done (status ∙ e, flag ∙ f) in
    inl (rollback, refl, updated true (rolled rollback done) active, kept)

list-ProcessOutcome :
    (o : LogHubConfig) (env : TaskEnv) (groups : List LogGroup) (a : Option (List LogGroup))
    (w : ShardConsumerWorker)
    → IsActive w
    → w.last_fetch_log_group_list ≡ some groups
    → a ≡ some groups
    → let (rollback, ok, done) = process_list o env a w in
      ProcessOutcome groups
        (env.process groups w.tracker).0
        (update_status ok (rolled rollback done))
list-ProcessOutcome o env groups a w active l e = rw e (
    ended-ProcessOutcome o env groups (env.process groups w.tracker).0
      (record w { tracker = (env.process groups w.tracker).1 }) active l)

-- When a worker that is not told to shut down runs its processing task on the log groups it
-- holds, it drops them only if the user's processor has returned without an error; after an
-- error or a panic it holds the same log groups and stays in its processing state.
pub process_at_least_once :
    (o : LogHubConfig) (env : TaskEnv) (groups : List LogGroup) (w : ShardConsumerWorker)
    → w.consumer_status ≡ processing
    → w.shutdown_flag ≡ false
    → w.last_fetch_log_group_list ≡ some groups
    → ProcessOutcome groups (env.process groups w.tracker).0 (run_task o env w)
unfolding run_task run_process consumer_process_task rolled
process_at_least_once o env groups w e f l =
    rw (e, run_task) (list-ProcessOutcome o env groups w.last_fetch_log_group_list w (e, f) l l)
