-- ===== src/Producer/SendingTests.antt =====
-- producer/: attempts to send, retries, the mover and closing, on small states.
use Prim.Native.Nat.{min}
use aliyun_log_go_sdk.Prelude.{
  ℕ, ◌+◌, ◌*◌, ◌^◌, ◌≡◌, ◌↔◌, refl, Option, none, some, List, [], ◌∷◌, ◌++◌, Bool, true, false, Str,
  bytes, arith,
}
use aliyun_log_go_sdk.Prelude.Int.{ℤ, pos, ◌+ℤ◌, ◌≤ℤ◌, ltb_ℤ}
use mathlib.Core.List.{Perm}
use aliyun_log_go_sdk.Producer.Batch.{ProducerBatch, LogData}
use aliyun_log_go_sdk.Producer.State.{Producer, RetryQueue}
use aliyun_log_go_sdk.Producer.RetryQueue.{get_retry_batch}
use aliyun_log_go_sdk.Producer.RetryQueue.Due.{AllDue, IsOver, get_retry_batch_splits}
use aliyun_log_go_sdk.Producer.IoWorker.{Err, sls_error, Sent, send_to_server, with_next_retry}
use aliyun_log_go_sdk.Producer.IoWorker.Outcomes.{fate, Promise, send_to_server_keeps}
use aliyun_log_go_sdk.Producer.IoWorker.Backoff.{next_retry_backoff, next_retry_overflow}
use aliyun_log_go_sdk.Producer.IoWorker.Attempts.{SentFits, send_to_server_reserve}
use aliyun_log_go_sdk.Producer.IoWorker.Failures.{Failure}
use aliyun_log_go_sdk.Producer.Mover.{entries_values, scan_map, run_end}
use aliyun_log_go_sdk.Producer.Mover.Rounds.{Aged, Wakes, scan_map_moves}
use aliyun_log_go_sdk.Producer.Mover.Drain.{run_end_drains}
use aliyun_log_go_sdk.Producer.Send.{wait_time, send_data, send_close_prodcer_signal}
use aliyun_log_go_sdk.Producer.Send.Waiting.{FreeBy, rounds, wait_time_iff}
use aliyun_log_go_sdk.Producer.Send.Closing.{IsRejected, KeepsRetryQueue, closing_stops}
use aliyun_log_go_sdk.Producer.Tests.{env, target, idle, log_of}

abbrev batch_due : ℕ → ProducerBatch
batch_due n = record {
  total_data_size = pos 20;
  log_group = record {
    logs = log_of n ∷ [];
    category = none;
    topic = none;
    source = none;
    machine_uuid = none;
    log_tags = [];
    xxx_unrecognized = [];
  };
  attempt_count = 1;
  base_retry_backoff_ms = pos 100;
  next_retry_ms = pos n;
  max_retry_interval_in_ms = pos 50000;
  call_back_list = 7 ∷ 8 ∷ [];
  create_time_ms = pos n;
  max_retry_times = pos 10;
  project = bytes "p";
  logstore = bytes "l";
  shard_hash = none;
  result = record { attempt_list = []; successful = false };
  max_reserved_attempts = pos 1;
  use_metric_store_url = false;
}

abbrev clock : ℕ → ℤ
clock k = pos (1000 + k)

abbrev two_waiting : RetryQueue
two_waiting = record { batch = batch_due 5 ∷ batch_due 2000 ∷ [] }

get_retry_batch_splits_example :
    Perm
      ((get_retry_batch false clock two_waiting).0
        ++ (get_retry_batch false clock two_waiting).1.batch)
      two_waiting.batch
    × AllDue clock (get_retry_batch false clock two_waiting).0
    × IsOver clock
        (get_retry_batch false clock two_waiting).0
        (get_retry_batch false clock two_waiting).1.batch
get_retry_batch_splits_example = get_retry_batch_splits clock two_waiting

abbrev busy_error : Err
busy_error =
    sls_error
      (record { http_code = pos 500; code = bytes "ServerBusy"; message = []; request_id = [] })

abbrev pow2 : ℕ → ℤ
pow2 n = pos (2 ^ n)

send_to_server_keeps_example :
    (s : Sent) × (send_to_server pow2 (some busy_error) clock (batch_due 5) idle ≡ some s)
    × Promise (fate (some busy_error) (batch_due 5) idle) (batch_due 5) idle s
send_to_server_keeps_example =
    send_to_server_keeps pow2 (some busy_error) clock (batch_due 5) idle tt

send_to_server_reserve_example :
    SentFits (send_to_server pow2 (some busy_error) clock (batch_due 5) idle)
send_to_server_reserve_example =
    send_to_server_reserve pow2 (some busy_error) clock (batch_due 5) idle tt
      (record { counted = omega arith; reserved = omega arith })

abbrev failure : ℕ → Failure
failure n = record {
  error = record { http_code = pos 500; code = n ∷ []; message = []; request_id = [] };
  begin_ms = pos 0;
  now_ms = pos n;
}

abbrev one_reserved : ProducerBatch
one_reserved = record (batch_due 5) { max_reserved_attempts = pos 1; attempt_count = 0 }

abbrev entries : List (Str × ProducerBatch)
entries = (bytes "a", batch_due 5) ∷ (bytes "b", batch_due 999) ∷ []

run_end_drains_example :
    let p = record idle { retry_queue = two_waiting } in
    let q = run_end clock entries p in
    (q.log_group_data ≡ [])
    × (q.retry_queue.batch ≡ [])
    × ((retries : List ProducerBatch) × Perm retries two_waiting.batch
        × (q.queue ≡ [] ++ (entries_values entries ++ retries)))
run_end_drains_example = run_end_drains clock entries (record idle { retry_queue = two_waiting })

abbrev keeping : Producer
keeping = record idle { accumulator = record { log_group_data = entries; shut_down_flag = false } }

scan_map_moves_example :
    let linger_ms = keeping.producer_config.linger_ms in
    let (sleep, q) = scan_map (pos 2500) clock entries (pos 2000) keeping in
    ((sent : List ProducerBatch) × (q.queue ≡ [] ++ sent) × Aged linger_ms (pos 2500) sent)
    × (sleep ≤ℤ pos 2000)
    × Wakes linger_ms (pos 2500) sleep entries
scan_map_moves_example = scan_map_moves (pos 2500) clock entries (pos 2000) keeping

wait_time_iff_example :
    (wait_time 0 clock idle.producer_config ≡ some true)
    ↔ FreeBy
        (rounds 0 idle.producer_config.max_block_sec)
        clock
        idle.producer_config.total_size_ln_bytes
wait_time_iff_example = wait_time_iff 0 clock idle.producer_config

closing_stops_example :
    let q = send_close_prodcer_signal idle in
    ((hashed : Bool) (log_data : LogData) (call_back : Option ℕ)
      → IsRejected (send_data hashed (λ s. s) 3 clock env target log_data call_back q))
    × KeepsRetryQueue idle.retry_queue (send_to_server pow2 (some busy_error) clock (batch_due 5) q)
closing_stops_example =
    closing_stops (λ s. s) 3 clock env target pow2 (some busy_error) clock (batch_due 5) idle

next_retry_backoff_example :
    (with_next_retry pow2 (pos 1000) (record (batch_due 5) { attempt_count = 3 })).next_retry_ms
    ≡ pos 1000 +ℤ pos (min (100 * 2 ^ 2) 50000)
next_retry_backoff_example =
    next_retry_backoff pow2 (λ n h. refl) (record (batch_due 5) { attempt_count = 3 }) (pos 1000)
      100 50000 refl refl (omega arith) (omega arith)

next_retry_overflow_example :
    ltb_ℤ
      (with_next_retry pow2 (pos 1000) (record (batch_due 5) { attempt_count = 58 })).next_retry_ms
      (pos 1000)
    ≡ true
next_retry_overflow_example =
    next_retry_overflow pow2 (λ n h. refl) (record (batch_due 5) { attempt_count = 58 }) (pos 1000)
      100 refl (omega arith) (omega arith) (omega arith) (omega arith)
