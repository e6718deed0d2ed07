-- ===== src/Consumer/ShardWorker.antt =====
-- consumer/shard_worker.go: the state of one shard's worker.
-- Its parts that the tasks are made of. The server's answers and the clock are arguments; times
-- are in nanoseconds.
use aliyun_log_go_sdk.Prelude.{
  ℕ, ◌*◌, Option, none, List, [], Bool, true, false, not, ◌||◌, ◌&&◌, Str, str_eq, if◌then◌else◌,
}
use aliyun_log_go_sdk.Prelude.Int.{ℤ, pos, ◌-ℤ◌, ◌*ℤ◌, ltb_ℤ}
use aliyun_log_go_sdk.LogPb.{LogGroup}
use aliyun_log_go_sdk.Producer.IoWorker.{Err}
use aliyun_log_go_sdk.Producer.Config.{leb_ℤ}
use aliyun_log_go_sdk.Consumer.Config.{LogHubConfig}
use aliyun_log_go_sdk.Consumer.Tracker.{
  DefaultCheckPointTracker, init_consumer_checkpoint_tracker, flush_check_point,
}

pub data ConsumerStatus : Type 0 where
  initializing pulling processing shutting_down shutdown_complete : ConsumerStatus

pub record ShardConsumerWorker : Type 0 where
  pub tracker : DefaultCheckPointTracker
  pub shutdown_flag : Bool
  pub last_fetch_log_group_list : Option (List LogGroup)
  pub next_fetch_cursor : Str
  pub last_fetch_group_count : ℤ
  pub last_fetch_group_count_before_query : ℤ
  pub last_fetch_time : ℤ
  pub last_fetch_raw_size : ℤ
  pub last_fetch_raw_size_before_query : ℤ
  pub consumer_status : ConsumerStatus
  pub is_current_done : Bool
  pub last_checkpoint_save_time : ℤ

-- Go's zero time lies before any other; the first argument stands for it.
unfoldable pub init_shard_consumer_worker : ℤ → ℤ → ℕ → List ℕ → ShardConsumerWorker
init_shard_consumer_worker zero_time now shard_id heart_shards = record {
  tracker = init_consumer_checkpoint_tracker shard_id heart_shards;
  shutdown_flag = false;
  last_fetch_log_group_list = none;
  next_fetch_cursor = [];
  last_fetch_group_count = pos 0;
  last_fetch_group_count_before_query = pos 0;
  last_fetch_time = now;
  last_fetch_raw_size = pos 0;
  last_fetch_raw_size_before_query = pos 0;
  consumer_status = initializing;
  is_current_done = true;
  last_checkpoint_save_time = zero_time;
}

-- The inner `switch` of `updateStatus`
unfoldable pub next_status : ConsumerStatus → ConsumerStatus
next_status pulling = processing
next_status initializing = pulling
next_status processing = pulling
next_status shutting_down = shutting_down
next_status shutdown_complete = shutdown_complete

abbrev pub is_shutting_down : ConsumerStatus → Bool
is_shutting_down shutting_down = true
is_shutting_down _ = false

-- `updateStatus`
unfoldable pub update_status : Bool → ShardConsumerWorker → ShardConsumerWorker
unfolding next_status
update_status success w = record w {
  consumer_status =
      if is_shutting_down w.consumer_status
      then (if success then shutdown_complete else w.consumer_status)
      else if w.shutdown_flag
      then shutting_down
      else if success
      then next_status w.consumer_status
      else w.consumer_status;
  is_current_done = true;
}

abbrev ms : ℕ → ℤ
ms n = pos (n * 1000000)

-- `shouldFetch`
unfoldable pub should_fetch : LogHubConfig → ℤ → ShardConsumerWorker → Bool
should_fetch o now w =
    let by_query = not (str_eq o.query []) in
    let raw_size = if by_query then w.last_fetch_raw_size_before_query else w.last_fetch_raw_size in
    let group_count =
      if by_query then w.last_fetch_group_count_before_query else w.last_fetch_group_count in
    let duration = now -ℤ w.last_fetch_time in
    if leb_ℤ o.max_fetch_log_group_count group_count || leb_ℤ (pos (4 * 1024 * 1024)) raw_size
    then true
    else if ltb_ℤ group_count (pos 100) && ltb_ℤ raw_size (pos (1024 * 1024))
    then ltb_ℤ (ms 500) duration
    else if ltb_ℤ group_count (pos 500) && ltb_ℤ raw_size (pos (2 * 1024 * 1024))
    then ltb_ℤ (ms 200) duration
    else ltb_ℤ (ms 50) duration

-- `saveCheckPointIfNeeded`; the clock is read again after the flush.
unfoldable pub save_check_point_if_needed :
    LogHubConfig → (ℕ → Option Err) → ℤ → ℤ → ShardConsumerWorker → ShardConsumerWorker
save_check_point_if_needed o answers now after w =
    if o.auto_commit_disabled
    then w
    else if ltb_ℤ (pos 1000000 *ℤ o.auto_commit_interval_in_ms) (now -ℤ w.last_checkpoint_save_time)
    then (record w {
      tracker = (flush_check_point answers w.tracker).1;
      last_checkpoint_save_time = after;
    })
    else w
