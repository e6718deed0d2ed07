-- ===== src/Consumer/Worker.antt =====
-- consumer/worker.go: the workers of the shards that a consumer holds. sync.Map ranges in any
-- order, so the shards come as an argument, in the order they are visited. A task that consume
-- starts ends in a step of its own (tasks.go).
pub mod Cleaning
use aliyun_log_go_sdk.Prelude.{
  ℕ, suc, Option, none, some, List, [], ◌∷◌, Bool, true, false, if◌then◌else◌,
}
use aliyun_log_go_sdk.Prelude.Int.{ℤ}
use aliyun_log_go_sdk.Map.{nat_eq, lookup, insert, delete}
use aliyun_log_go_sdk.Consumer.Util.{contain}
use aliyun_log_go_sdk.Consumer.HeartBeat.{ConsumerHeartBeat, shut_down_heart}
use aliyun_log_go_sdk.Consumer.Tracker.{remove_heart_shard}
use aliyun_log_go_sdk.Consumer.ShardWorker.{ShardConsumerWorker, init_shard_consumer_worker}
use aliyun_log_go_sdk.Consumer.Tasks.{consume, is_shut_down_complete, consumer_shut_down}

pub record ConsumerWorker : Type 0 where
  pub consumer_heat_beat : ConsumerHeartBeat
  pub worker_shut_down_flag : Bool
  pub shard_consumer : List (ℕ × ShardConsumerWorker)

-- `StopAndWait`, up to its wait.
unfoldable pub stop_and_wait : ConsumerWorker → ConsumerWorker
stop_and_wait w = record w {
  worker_shut_down_flag = true;
  consumer_heat_beat = shut_down_heart w.consumer_heat_beat;
}

module _ (zero_time now : ℤ) where
  unfoldable pub get_shard_consumer : ℕ → ConsumerWorker → ShardConsumerWorker × ConsumerWorker
  get_shard_consumer shard_id w = elim (lookup shard_id w.shard_consumer) [
    | some consumer ↦ (consumer, w)
    | none ↦
        let made =
          init_shard_consumer_worker zero_time now shard_id w.consumer_heat_beat.heart_shards in
        (made, record w { shard_consumer = insert shard_id made w.shard_consumer })
  ]

  -- The loop of `run` over the shards that are held; the shutdown flag is read before each.
  unfoldable pub consume_shards : (ℕ → Bool) → List ℕ → ConsumerWorker → ConsumerWorker
  consume_shards shut_down [] w = w
  consume_shards shut_down (shard ∷ shards) w =
      let (consumer, found) = get_shard_consumer shard w in
      let rest =
        consume_shards (λ k. shut_down (suc k)) shards
          (record found {
            shard_consumer = insert shard (consume consumer).1 found.shard_consumer;
          }) in
      if shut_down 0 then w else rest

-- The shard's worker, told to shut down unless its shard is owned.
abbrev pub told : List ℕ → ℕ → ShardConsumerWorker → ShardConsumerWorker
told owned_shards shard consumer =
    if contain shard owned_shards then consumer else (consumer_shut_down consumer).1

-- One visit of `cleanShardConsumer`.
unfoldable pub clean_shard : List ℕ → ℕ → ConsumerWorker → ConsumerWorker
clean_shard owned_shards shard w = elim (lookup shard w.shard_consumer) [
  | none ↦ w
  | some consumer ↦
      let consumer = told owned_shards shard consumer in
      let kept : ConsumerWorker = record w {
        shard_consumer = insert shard consumer w.shard_consumer;
      } in
      let (is_delete_shard, heart_shards) =
        remove_heart_shard shard w.consumer_heat_beat.heart_shards in
      if is_shut_down_complete consumer.consumer_status
      then record kept {
        consumer_heat_beat = record (w.consumer_heat_beat) { heart_shards = heart_shards };
        shard_consumer =
            if is_delete_shard then delete shard w.shard_consumer else kept.shard_consumer;
      }
      else kept
]

unfoldable pub clean_shard_consumer : List ℕ → List ℕ → ConsumerWorker → ConsumerWorker
unfolding clean_shard
clean_shard_consumer owned_shards [] w = w
clean_shard_consumer owned_shards (shard ∷ shards) w =
    clean_shard_consumer owned_shards shards (clean_shard owned_shards shard w)

-- One visit of a round of `shutDownAndWait`.
unfoldable pub shut_down_shard : ℕ → ConsumerWorker → ConsumerWorker
shut_down_shard shard w = elim (lookup shard w.shard_consumer) [
  | none ↦ w
  | some consumer ↦
      if is_shut_down_complete consumer.consumer_status
      then (record w { shard_consumer = delete shard w.shard_consumer })
      else (record w {
        shard_consumer = insert shard (consumer_shut_down consumer).1 w.shard_consumer;
      })
]

-- A round; the loop ends when one has counted no worker.
unfoldable pub shut_down_round : List ℕ → ConsumerWorker → ConsumerWorker
unfolding shut_down_shard
shut_down_round [] w = w
shut_down_round (shard ∷ shards) w = shut_down_round shards (shut_down_shard shard w)
