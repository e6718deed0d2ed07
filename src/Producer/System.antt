-- ===== src/Producer/System.antt =====
-- producer/: the goroutines of a producer that is running, interleaved in any order: the callers
-- of the Send methods (log_accumulator.go), the mover (mover.go), the loop of the thread pool
-- (io_thread_pool.go), the workers that it starts (io_worker.go), and the caller of Close and
-- SafeClose (producer.go). A step makes one access at most that a step of another goroutine could see
-- or come before: of a flag, the count of tasks, a place in the channel, the thread pool's queue or
-- the retry queue. The map is reached under its lock alone, which the mover holds over several steps,
-- in which it hands over one batch each; the size counter, which Send reads before, guards no step.
pub mod Weight
pub mod Steps
pub mod Conserve
pub mod Accept
pub mod Answer
pub mod Ledger
pub mod Changes
pub mod Calling
pub mod Refine
pub mod Callbacks
pub mod Workers
pub mod Stopped
pub mod Closing
use aliyun_log_go_sdk.Prelude.{
  ◌==◌, ◌&&◌, ◌||◌, not, str_eq, ℕ, ◌+◌, ◌<◌, ◌≡◌, Option, none, some, List, [], ◌∷◌, ◌++◌, Bool,
  true, false, Str, length, map,
}
use aliyun_log_go_sdk.Prelude.Int.{ℤ, pos, negsuc, ◌+ℤ◌, ltb_ℤ}
use aliyun_log_go_sdk.Map.{Distinct, str_eq_instance}
use aliyun_log_go_sdk.Producer.Config.{ProducerConfig, validate_producer_config}
use aliyun_log_go_sdk.Producer.Batch.{ProducerBatch, LogData, Env, callbacks}
use aliyun_log_go_sdk.Producer.State.{Producer, RetryQueue, IoThreadPool}
use aliyun_log_go_sdk.Producer.ThreadPool.{init_io_thread_pool, add_task, pop_task, has_task}
use aliyun_log_go_sdk.Producer.Accumulator.{
  init_log_accumulator, Target, accepted, add_by_type, set_data,
}
use aliyun_log_go_sdk.Producer.IoWorker.{init_io_worker, Err, Call, Sent, send_to_server}
use aliyun_log_go_sdk.Producer.IoWorker.Outcomes.{OwnError}
use aliyun_log_go_sdk.Producer.RetryQueue.{get_retry_batch, init_retry_queue}
use aliyun_log_go_sdk.Producer.Mover.{scan_map, entries_values, add_tasks}
use aliyun_log_go_sdk.Producer.Send.{send_close_prodcer_signal}
use aliyun_log_go_sdk.Producer.System.Weight.{SameMap}

-- Where the mover stands: at the test of its loop; behind it; in the loop over the map, whose lock
-- it holds, with the time it has read and the keys it has visited; behind that loop; with the flag
-- for `getRetryBatch`; with batches of the retry queue in hand. After the loop: before the lock;
-- with the batches of the map, whose lock it holds; behind it; the same of the retry queue; ended.
pub data MoverPc : Type 0 where
  looping going : MoverPc
  scanning : ℤ → List Str → MoverPc
  scanned : MoverPc
  asking : Bool → MoverPc
  handing : List ProducerBatch → MoverPc
  ending : MoverPc
  emptying : List ProducerBatch → MoverPc
  emptied : MoverPc
  asking_last : Bool → MoverPc
  handing_last : List ProducerBatch → MoverPc
  moved_all : MoverPc

-- Whether the mover holds the lock of the map.
abbrev pub locked : MoverPc → Bool
locked (scanning now_ms seen) = true
locked (emptying bs) = true
locked _ = false

abbrev pub is_seen : Str → List Str → Bool
is_seen k [] = false
is_seen k (j ∷ seen) = str_eq j k || is_seen k seen

-- One turn of the mover's loop over the map.
abbrev pub visit : ℤ → (ℕ → ℤ) → Str → ProducerBatch → Producer → Producer
visit now_ms clock key b p = (scan_map now_ms clock ((key, b) ∷ []) p.producer_config.linger_ms p).1

-- Where the loop of `start` stands: before `popTask`; behind it without a task; with a task, before
-- `startSendTask`; in it, behind the count; in it, with a place in the channel; ended.
pub data PoolPc : Type 0 where
  popping found_empty : PoolPc
  popped counted placed : ProducerBatch → PoolPc
  stopped : PoolPc

-- A worker that has the client's answer and has read `retryQueueShutDownFlag`.
pub record Answered : Type 0 where
  pub answer : Option Err
  pub shut_down : Bool
  pub batch : ProducerBatch

-- A call of `addLogToProducerBatch` that has passed the test of `shutDownFlag`.
pub record Entering : Type 0 where
  pub env : Env
  pub target : Target
  pub log_data : LogData
  pub call_back : Option ℕ

-- `calling` holds the calls that each worker which is done with its batch is still to make;
-- `finishing` counts the workers before `closeSendTask`, and `leaving` those in it that have given
-- up their place. `accepted_callbacks` are those of the calls that have returned no error, and
-- `calls` those that were made. `max_io_worker` is the capacity of the channel of that name.
pub record System : Type 0 where
  pub producer : Producer
  pub entering : List Entering
  pub mover : MoverPc
  pub pool : PoolPc
  pub answered : List Answered
  pub calling : List (List Call)
  pub finishing : ℕ
  pub leaving : ℕ
  pub max_io_worker : ℤ
  pub accepted_callbacks : List ℕ
  pub calls : List Call

-- The workers that have a place in `maxIoWorker`.
abbrev pub running : System → ℕ
running s = length s.producer.sending + length s.answered + length s.calling + s.finishing

-- `InitProducer`, less the client.
unfoldable pub init_producer : ProducerConfig → Producer
unfolding init_log_accumulator init_io_thread_pool init_retry_queue init_io_worker
    validate_producer_config
init_producer config = record {
  producer_config = validate_producer_config config;
  accumulator = init_log_accumulator;
  thread_pool = init_io_thread_pool;
  retry_queue = init_retry_queue;
  io_worker = init_io_worker;
  mover_shut_down_flag = false;
  buckets = config.buckets;
  producer_log_group_size = pos 0;
}

-- `Start`
unfoldable pub start : ProducerConfig → System
unfolding init_producer
start config = record {
  producer = init_producer config;
  entering = [];
  mover = looping;
  pool = popping;
  answered = [];
  calling = [];
  finishing = 0;
  leaving = 0;
  max_io_worker = (validate_producer_config config).max_io_worker_count;
  accepted_callbacks = [];
  calls = [];
}

abbrev pub set_sending : List ProducerBatch → Producer → Producer
set_sending bs p = record p { io_worker = record (p.io_worker) { sending = bs } }

-- The first line of `startSendTask`.
abbrev pub start_send_task : Producer → Producer
start_send_task p = record p {
  io_worker = record (p.io_worker) { task_count = p.task_count +ℤ pos 1 };
}

-- The second line of `closeSendTask`.
abbrev pub close_send_task : Producer → Producer
close_send_task p = record p {
  io_worker = record (p.io_worker) { task_count = p.task_count +ℤ negsuc 0 };
}

-- `sendToServer` reads the flag before it acts on it.
abbrev pub as_read : Bool → Producer → Producer
as_read flag p = record p { io_worker = record (p.io_worker) { retry_queue_shut_down_flag = flag } }

unfoldable pub eq_zero : ℤ → Bool
eq_zero (pos n) = n == 0
eq_zero (negsuc n) = false

-- The test on which `Close` returns no error: `taskCount == 0 && !hasTask()`, with the producer as
-- it is when the count is read and as it is when the queue is looked at.
unfoldable pub all_done : Producer → Producer → Bool
unfolding eq_zero has_task
all_done p q = eq_zero p.task_count && not (has_task q.thread_pool)
