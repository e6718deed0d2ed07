-- ===== src/Consumer/Worker/Cleaning.antt =====
-- consumer/worker.go: what a pass over the shards' workers leaves of each.
use aliyun_log_go_sdk.Prelude.{ℕ, Option, none, some, List, if◌then◌else◌}
use aliyun_log_go_sdk.Map.{nat_eq}
use aliyun_log_go_sdk.Consumer.Util.{contain}
use aliyun_log_go_sdk.Consumer.ShardWorker.{ShardConsumerWorker}
use aliyun_log_go_sdk.Consumer.Tasks.{is_shut_down_complete, consumer_shut_down}

-- What a visit leaves of a shard's worker.
abbrev pub cleaned : List ℕ → List ℕ → ℕ → ShardConsumerWorker → Option ShardConsumerWorker
cleaned owned_shards heart_shards shard consumer =
    let c = if contain shard owned_shards then consumer else (consumer_shut_down consumer).1 in
    if is_shut_down_complete c.consumer_status
    then (if contain shard heart_shards then none else some c)
    else some c
