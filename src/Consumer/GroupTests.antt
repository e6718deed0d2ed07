-- ===== src/Consumer/GroupTests.antt =====
-- consumer/: shard lists, heartbeats and requests on small lists.
use mathlib.Core.Bool.{true, false}
use aliyun_log_go_sdk.Map.{nat_eq}
use aliyun_log_go_sdk.Consumer.ShardWorker.{
  ShardConsumerWorker, init_shard_consumer_worker, shutdown_complete,
}
use aliyun_log_go_sdk.Consumer.Worker.{ConsumerWorker}
use aliyun_log_go_sdk.Prelude.{none, ℕ, zero, suc, ◌≡◌, refl, none, List, [], ◌∷◌, ◌||◌, bytes}
use aliyun_log_go_sdk.Prelude.Int.{pos}
use aliyun_log_go_sdk.Producer.IoWorker.{foreign}
use aliyun_log_go_sdk.Consumer.Config.{LogHubConfig, end_cursor}
use aliyun_log_go_sdk.Consumer.Util.{contain}
use aliyun_log_go_sdk.Consumer.Util.Sets.{IsUnique}
use aliyun_log_go_sdk.Consumer.HeartBeat.{ConsumerHeartBeat, heart_beat_round}
use aliyun_log_go_sdk.Consumer.HeartBeat.Rounds.{HeldAfter, heart_beat_round_cases}
use aliyun_log_go_sdk.Consumer.Client.{
  Answer, error, value, ConsumerGroupCheckPoint, get_check_point_of,
}
use aliyun_log_go_sdk.Consumer.Client.Requests.{CheckPointFrom, get_check_point_of_cases}

three-IsUnique : IsUnique (3 ∷ 1 ∷ 4 ∷ [])
unfolding contain
three-IsUnique = (refl, (refl, (refl, tt)))

abbrev config : LogHubConfig
config = record {
  query = [];
  cursor_position = end_cursor;
  heartbeat_interval_in_second = pos 20;
  heartbeat_timeout_in_second = pos 60;
  data_fetch_interval_in_ms = pos 200;
  max_fetch_log_group_count = pos 1000;
  cursor_start_time = pos 0;
  in_order = false;
  auto_commit_disabled = true;
  auto_commit_interval_in_ms = pos 60000;
}

abbrev beating : ConsumerHeartBeat
beating = record {
  shut_down_flag = false;
  held_shards = 1 ∷ 2 ∷ [];
  heart_shards = 1 ∷ [];
  last_heart_beat_success_time = pos 100;
}

heart_beat_round_cases_example :
    let k = heart_beat_round config none (pos 200) beating in
    (IsUnique k.heart_shards
      × ((x : ℕ) → contain x k.heart_shards ≡ contain x (1 ∷ []) || contain x (1 ∷ 2 ∷ [])))
    × HeldAfter config none (pos 200) beating k
heart_beat_round_cases_example = heart_beat_round_cases config none (pos 200) beating

abbrev second_try : ℕ → Answer (List ConsumerGroupCheckPoint)
second_try zero = error foreign
second_try (suc k) = value (record { shard_id = 4; check_point = bytes "c" } ∷ [])

get_check_point_of_cases_example : CheckPointFrom 4 second_try (get_check_point_of 4 second_try)
get_check_point_of_cases_example = get_check_point_of_cases 4 second_try

abbrev gone_worker : ShardConsumerWorker
gone_worker = record (init_shard_consumer_worker (pos 0) (pos 9) 4 (4 ∷ [])) {
  consumer_status = shutdown_complete;
}

-- Shard 3 is owned; shard 4 is not, and its worker has shut down.
abbrev two_workers : ConsumerWorker
two_workers = record {
  consumer_heat_beat = record {
    shut_down_flag = false;
    held_shards = 3 ∷ [];
    heart_shards = 3 ∷ 4 ∷ [];
    last_heart_beat_success_time = pos 5;
  };
  worker_shut_down_flag = false;
  shard_consumer =
      (3, init_shard_consumer_worker (pos 0) (pos 9) 3 (3 ∷ [])) ∷ (4, gone_worker) ∷ [];
}
