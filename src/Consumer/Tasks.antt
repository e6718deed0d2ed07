-- ===== src/Consumer/Tasks.antt =====
-- consumer/tasks.go, and consume of consumer/shard_worker.go: the tasks of one shard's worker.
-- A task runs in a goroutine of its own: `consume` starts it, `run_task` is its body and its end.
-- What the server, the clock and the user's processor answer is in one record for each run.
pub mod Status
mod Endings
pub mod Lifecycle
pub mod Delivery
use aliyun_log_go_sdk.Prelude.{
  ℕ, Option, none, some, List, [], ◌∷◌, Bool, true, false, not, ◌&&◌, Str, str_eq, length,
  if◌then◌else◌, ◌==◌,
}
use aliyun_log_go_sdk.Prelude.Int.{ℤ, pos, negsuc, ltb_ℤ}
use aliyun_log_go_sdk.LogPb.{LogGroup}
use aliyun_log_go_sdk.Producer.IoWorker.{Err}
use aliyun_log_go_sdk.Consumer.Config.{
  LogHubConfig, CursorPosition, begin_cursor, end_cursor, special_timer_cursor, other_cursor,
}
use aliyun_log_go_sdk.Consumer.Tracker.{
  DefaultCheckPointTracker, init_check_point, set_current_cursor, set_next_cursor,
  flush_check_point,
}
use aliyun_log_go_sdk.Consumer.ShardWorker.{
  ConsumerStatus, initializing, pulling, processing, shutting_down, shutdown_complete,
  ShardConsumerWorker, update_status, should_fetch, save_check_point_if_needed,
}

-- What `pullLogs` gives: the log groups and the meta data's fields.
pub record Pulled : Type 0 where
  pub log_groups : List LogGroup
  pub next_cursor : Str
  pub raw_size : ℤ
  pub raw_size_before_query : ℤ
  pub raw_data_count_before_query : ℤ

-- Where `getCursor` is asked to look.
pub data CursorFrom : Type 0 where
  from_begin from_end : CursorFrom
  from_time : ℤ → CursorFrom

-- How the user's `Process` ends: with a checkpoint to roll back to and whether there was an
-- error, or in a panic.
pub data Processed : Type 0 where
  returned : Str → Bool → Processed
  panicked : Processed

-- One run of a task: `none` is an error of the request.
pub record TaskEnv : Type 0 where
  pub get_check_point : Option Str
  pub get_cursor : CursorFrom → Option Str
  pub pull_logs : Option Pulled
  pub flush_answers : ℕ → Option Err
  pub clock : ℕ → ℤ
  pub process : List LogGroup → DefaultCheckPointTracker → Processed × DefaultCheckPointTracker
  pub shutdown : DefaultCheckPointTracker → Bool × DefaultCheckPointTracker

abbrev pub cursor_from : LogHubConfig → Option CursorFrom
cursor_from o = elim (o.cursor_position) [
  | begin_cursor ↦ some from_begin
  | end_cursor ↦ some from_end
  | special_timer_cursor ↦ some (from_time o.cursor_start_time)
  | other_cursor ↦ none
]

abbrev pub ask_cursor : (CursorFrom → Option Str) → Option CursorFrom → Option Str
ask_cursor get none = none
ask_cursor get (some from) = get from

-- `consumerInitializeTask`: the cursor, `none` at an error, and the worker.
abbrev pub after_get_check_point :
    LogHubConfig → TaskEnv → Option Str → ShardConsumerWorker → Option Str × ShardConsumerWorker
after_get_check_point o env none w = (none, w)
after_get_check_point o env (some checkpoint) w =
    if not (str_eq checkpoint [])
    then (some checkpoint, record w { tracker = init_check_point checkpoint w.tracker })
    else (ask_cursor env.get_cursor (cursor_from o), w)

unfoldable pub consumer_initialize_task :
    LogHubConfig → TaskEnv → ShardConsumerWorker → Option Str × ShardConsumerWorker
consumer_initialize_task o env w = after_get_check_point o env env.get_check_point w

-- -1 says that the server did not tell.
abbrev known : ℤ → ℤ
known (pos n) = pos n
known (negsuc n) = if n == 0 then pos 0 else negsuc n

-- `nextFetchTask`, after the request; false is its error.
abbrev pub fetched : LogHubConfig → Pulled → ShardConsumerWorker → ShardConsumerWorker
fetched o pulled w =
    let by_query = not (str_eq o.query []) in
    record w {
      tracker =
          set_next_cursor pulled.next_cursor (set_current_cursor w.next_fetch_cursor w.tracker);
      last_fetch_log_group_list = some pulled.log_groups;
      next_fetch_cursor = pulled.next_cursor;
      last_fetch_raw_size = pulled.raw_size;
      last_fetch_group_count = pos (length pulled.log_groups);
      last_fetch_raw_size_before_query =
          if by_query
          then known pulled.raw_size_before_query
          else w.last_fetch_raw_size_before_query;
      last_fetch_group_count_before_query =
          if by_query
          then known pulled.raw_data_count_before_query
          else w.last_fetch_group_count_before_query;
    }

abbrev pub after_fetch :
    LogHubConfig → TaskEnv → List LogGroup → ShardConsumerWorker → ShardConsumerWorker
after_fetch o env [] w =
    save_check_point_if_needed o env.flush_answers (env.clock 2) (env.clock 3)
      (record w { last_fetch_log_group_list = none })
after_fetch o env (g ∷ gs) w = w

abbrev pub after_pull :
    LogHubConfig → TaskEnv → Option Pulled → ShardConsumerWorker → Bool × ShardConsumerWorker
after_pull o env none w = (false, w)
after_pull o env (some pulled) w = (true, after_fetch o env pulled.log_groups (fetched o pulled w))

unfoldable pub next_fetch_task :
    LogHubConfig → TaskEnv → ShardConsumerWorker → Bool × ShardConsumerWorker
next_fetch_task o env w =
    after_pull o env env.pull_logs (record w { last_fetch_time = env.clock 1 })

-- `consumerProcessTask`: the checkpoint to roll back to, whether there was no error, the worker.
abbrev pub after_process :
    LogHubConfig → TaskEnv → Processed → ShardConsumerWorker → Str × Bool × ShardConsumerWorker
after_process o env panicked w = ([], false, w)
after_process o env (returned rollback failed) w =
    let saved = save_check_point_if_needed o env.flush_answers (env.clock 0) (env.clock 1) w in
    (
      rollback,
      not failed,
      if failed then saved else (record saved { last_fetch_log_group_list = none }),
    )

abbrev pub process_list :
    LogHubConfig
    → TaskEnv
    → Option (List LogGroup)
    → ShardConsumerWorker
    → Str × Bool × ShardConsumerWorker
process_list o env none w = ([], true, w)
process_list o env (some groups) w =
    let (ended, tracker) = env.process groups w.tracker in
    after_process o env ended (record w { tracker = tracker })

unfoldable pub consumer_process_task :
    LogHubConfig → TaskEnv → ShardConsumerWorker → Str × Bool × ShardConsumerWorker
consumer_process_task o env w = process_list o env w.last_fetch_log_group_list w

-- `consume`: whether a task is started, and the worker.
unfoldable pub consume : ShardConsumerWorker → Bool × ShardConsumerWorker
consume w =
    if w.is_current_done
    then elim (w.consumer_status) [
      | shutdown_complete ↦ (false, w)
      | _ ↦ (true, record w { is_current_done = false })
    ]
    else (false, w)

-- The goroutines that `consume` starts, one for each status.
abbrev pub run_initialize : Option Str × ShardConsumerWorker → ShardConsumerWorker
run_initialize (none, w) = update_status false w
run_initialize (some cursor, w) = update_status true (record w { next_fetch_cursor = cursor })

unfoldable pub run_pull : LogHubConfig → TaskEnv → ShardConsumerWorker → ShardConsumerWorker
run_pull o env w =
    let (ok, done) = next_fetch_task o env w in
    if should_fetch o (env.clock 0) w
    then update_status (ok && ltb_ℤ (pos 0) done.last_fetch_group_count) done
    else update_status false w

unfoldable pub run_process : LogHubConfig → TaskEnv → ShardConsumerWorker → ShardConsumerWorker
run_process o env w =
    let (rollback, ok, done) = consumer_process_task o env w in
    update_status ok
      (if not (str_eq rollback []) then (record done { next_fetch_cursor = rollback }) else done)

abbrev pub flush_at_shutdown :
    Option Err × DefaultCheckPointTracker → ShardConsumerWorker → ShardConsumerWorker
flush_at_shutdown (none, t) w = update_status true (record w { tracker = t })
flush_at_shutdown (some err, t) w = update_status false (record w { tracker = t })

unfoldable pub run_shutdown : TaskEnv → ShardConsumerWorker → ShardConsumerWorker
run_shutdown env w =
    let (failed, tracker) = env.shutdown w.tracker in
    if failed
    then update_status false (record w { tracker = tracker })
    else flush_at_shutdown (flush_check_point env.flush_answers tracker) w

unfoldable pub run_task : LogHubConfig → TaskEnv → ShardConsumerWorker → ShardConsumerWorker
run_task o env w = elim (w.consumer_status) [
  | initializing ↦ run_initialize (consumer_initialize_task o env w)
  | pulling ↦ run_pull o env w
  | processing ↦ run_process o env w
  | shutting_down ↦ run_shutdown env w
  | shutdown_complete ↦ w
]

-- `isShutDownComplete` and `consumerShutDown`
abbrev pub is_shut_down_complete : ConsumerStatus → Bool
is_shut_down_complete shutdown_complete = true
is_shut_down_complete _ = false

unfoldable pub consumer_shut_down : ShardConsumerWorker → Bool × ShardConsumerWorker
consumer_shut_down w =
    let told = record w { shutdown_flag = true } in
    if is_shut_down_complete w.consumer_status then (false, told) else consume told
