-- ===== src/Consumer/Tests.antt =====
-- consumer/: a shard's worker that reads its checkpoint, and flushes with errors.
use aliyun_log_go_sdk.Prelude.{ℕ, ◌≡◌, refl, Option, none, some, List, [], ◌∷◌, true, false, bytes}
use aliyun_log_go_sdk.Prelude.Int.{pos, negsuc}
use aliyun_log_go_sdk.LogPb.{LogGroup}
use aliyun_log_go_sdk.Consumer.Tasks.Delivery.{ProcessOutcome, process_at_least_once}
use aliyun_log_go_sdk.Producer.IoWorker.{Err, sls_error}
use aliyun_log_go_sdk.Consumer.Config.{LogHubConfig, begin_cursor}
use aliyun_log_go_sdk.Consumer.Tracker.{DefaultCheckPointTracker}
use aliyun_log_go_sdk.Consumer.ShardWorker.{
  processing, ShardConsumerWorker, init_shard_consumer_worker,
}
use aliyun_log_go_sdk.Consumer.Tasks.{TaskEnv, returned, panicked, consume, run_task}
use aliyun_log_go_sdk.Consumer.Tasks.Status.{Move, HasWork, start, finish}
use aliyun_log_go_sdk.Consumer.Tasks.Lifecycle.{here, there, shard_worker_lifecycle}

abbrev tracker : DefaultCheckPointTracker
tracker = record {
  next_cursor = bytes "c3";
  current_cursor = bytes "c2";
  pending_check_point = bytes "c2";
  saved_check_point = [];
  shard_id = 4;
  heart_shards = 3 ∷ 4 ∷ [];
}

abbrev not_there : Err
not_there =
    sls_error (record {
      http_code = pos 400;
      code = bytes "ConsumerNotExsit";
      message = [];
      request_id = [];
    })

abbrev answers : ℕ → Option Err
answers k = some not_there

abbrev config : LogHubConfig
config = record {
  query = [];
  cursor_position = begin_cursor;
  heartbeat_interval_in_second = pos 20;
  heartbeat_timeout_in_second = pos 60;
  data_fetch_interval_in_ms = pos 200;
  max_fetch_log_group_count = pos 1000;
  cursor_start_time = pos 0;
  in_order = false;
  auto_commit_disabled = false;
  auto_commit_interval_in_ms = pos 60000;
}

abbrev env : TaskEnv
env = record {
  get_check_point = some (bytes "c1");
  get_cursor = λ from. none;
  pull_logs = none;
  flush_answers = answers;
  clock = λ k. pos 5;
  process = λ groups t. (returned [] false, t);
  shutdown = λ t. (false, t);
}

abbrev fresh : ShardConsumerWorker
fresh = init_shard_consumer_worker (negsuc 0) (pos 0) 4 (3 ∷ 4 ∷ [])

abbrev begun : ShardConsumerWorker
begun = (consume fresh).1

begins : (consume fresh).0 ≡ true
unfolding consume init_shard_consumer_worker
begins = refl

runs : begun.is_current_done ≡ false
unfolding consume init_shard_consumer_worker
runs = refl

shard_worker_lifecycle_example :
    Move begun.consumer_status (run_task config env begun).consumer_status
    × HasWork (run_task config env begun)
shard_worker_lifecycle_example =
    shard_worker_lifecycle config (negsuc 0) (pos 0) 4 (3 ∷ 4 ∷ []) begun
      (run_task config env begun) (there fresh fresh begun (here fresh) (start fresh begins))
      (finish begun env runs)

-- A worker with one log group, and a processor that panics.
abbrev one_group : List LogGroup
one_group =
    record {
      logs = [];
      category = none;
      topic = some (bytes "t");
      source = none;
      machine_uuid = none;
      log_tags = [];
      xxx_unrecognized = [];
    }
    ∷ []

abbrev loaded : ShardConsumerWorker
loaded = record fresh { consumer_status = processing; last_fetch_log_group_list = some one_group }

abbrev panicking : TaskEnv
panicking = record env { process = λ groups t. (panicked, t) }

process_at_least_once_example : ProcessOutcome one_group panicked (run_task config panicking loaded)
unfolding init_shard_consumer_worker
process_at_least_once_example =
    process_at_least_once config panicking one_group loaded refl refl refl
