-- ===== src/Producer/State.antt =====
-- The objects of one producer: producer/producer.go, log_accumulator.go, io_thread_pool.go,
-- retry_queue.go, mover.go and io_worker.go. The objects refer to one another by pointers that
-- never change, so one record holds them all; their locks make each method one step.
use aliyun_log_go_sdk.Prelude.{List, Bool, Str}
use aliyun_log_go_sdk.Prelude.Int.{ℤ}
use aliyun_log_go_sdk.Producer.Config.{ProducerConfig}
use aliyun_log_go_sdk.Producer.Batch.{ProducerBatch}

pub record LogAccumulator : Type 0 where
  pub log_group_data : List (Str × ProducerBatch)
  pub shut_down_flag : Bool

pub record IoThreadPool : Type 0 where
  pub queue : List ProducerBatch
  pub thread_pool_shut_down_flag : Bool

-- `RetryQueue`; the slice is ordered as a heap by producer/retry_queue.go.
pub record RetryQueue : Type 0 where
  pub batch : List ProducerBatch

-- `sending` holds the batches of the goroutines between `startSendTask` and `closeSendTask`.
pub record IoWorker : Type 0 where
  pub task_count : ℤ
  pub retry_queue_shut_down_flag : Bool
  pub sending : List ProducerBatch

pub record Producer : Type 0 where
  pub producer_config : ProducerConfig
  pub accumulator : LogAccumulator
  pub open accumulator use {log_group_data, shut_down_flag}
  pub thread_pool : IoThreadPool
  pub open thread_pool use {queue, thread_pool_shut_down_flag}
  pub retry_queue : RetryQueue
  pub io_worker : IoWorker
  pub open io_worker use {task_count, retry_queue_shut_down_flag, sending}
  pub mover_shut_down_flag : Bool
  pub buckets : ℤ
  pub producer_log_group_size : ℤ
