-- ===== src/Producer/Send.antt =====
-- producer/producer.go: the methods that take logs, and closing. crypto/md5 is a parameter.
-- `size i` is the i-th reading of `producerLogGroupSize` in a call of `waitTime`.
pub mod Waiting
pub mod Closing
use aliyun_log_go_sdk.Prelude.{
  ℕ, zero, suc, Option, none, some, List, [], Bool, true, false, Str, if◌then◌else◌,
}
use aliyun_log_go_sdk.Prelude.Int.{ℤ, pos, negsuc, ltb_ℤ}
use aliyun_log_go_sdk.LogPb.{Log}
use aliyun_log_go_sdk.Producer.Hash.{adjust_hash}
use aliyun_log_go_sdk.Producer.Config.{ProducerConfig}
use aliyun_log_go_sdk.Producer.Batch.{LogData, single, many, Env}
use aliyun_log_go_sdk.Producer.State.{Producer}
use aliyun_log_go_sdk.Producer.Accumulator.{
  Target, Refusal, Outcome, accepted, refused, add_log_to_producer_batch,
}

-- The loop of `waitTime`: a second passes after each reading that is too large. `false` is the
-- end of the loop; it stands for TimeoutExecption.
unfoldable pub wait_loop : ℕ → (ℕ → ℤ) → ℤ → Bool
wait_loop zero size limit = false
wait_loop (suc seconds) size limit =
    let rest = wait_loop seconds (λ k. size (suc k)) limit in
    if ltb_ℤ limit (size 0) then rest else true

-- `waitTime`; with a negative MaxBlockSec it waits for ever, here for `patience` seconds, and
-- `none` says that it still waits.
unfoldable pub wait_time : ℕ → (ℕ → ℤ) → ProducerConfig → Option Bool
wait_time patience size c = elim (c.max_block_sec) [
  | pos zero ↦ some (if ltb_ℤ c.total_size_ln_bytes (size 0) then false else true)
  | pos (suc n) ↦ some (wait_loop (suc n) size c.total_size_ln_bytes)
  | negsuc n ↦ if wait_loop patience size c.total_size_ln_bytes then some true else none
]

-- What a call of a Send method comes to.
pub data SendOutcome : Type 0 where
  waiting : SendOutcome
  timed_out : SendOutcome
  finished : Outcome → SendOutcome

unfoldable pub after_wait : Option Bool → Outcome → SendOutcome
after_wait none o = waiting
after_wait (some false) o = timed_out
after_wait (some true) o = finished o

-- What each of the methods does with its own arguments: `hashed` says whether the shard hash is
-- adjusted when the configuration asks for it.
unfoldable pub send_data :
    Bool → (Str → Str) → ℕ → (ℕ → ℤ) → Env → Target → LogData → Option ℕ → Producer → SendOutcome
send_data hashed md5 patience size env t log_data call_back p =
    let adjusted =
      if hashed
      then (if p.producer_config.adjust_sharg_hash
          then (record t { shard_hash = adjust_hash md5 t.shard_hash p.buckets })
          else t)
      else (record t { shard_hash = [] }) in
    after_wait (wait_time patience size p.producer_config)
      (add_log_to_producer_batch env adjusted log_data call_back p)

module _ (md5 : Str → Str) (patience : ℕ) (size : ℕ → ℤ) (env : Env) (t : Target) where
  abbrev pub hash_send_log_with_call_back : Log → Option ℕ → Producer → SendOutcome
  hash_send_log_with_call_back log call_back p =
      send_data true md5 patience size env t (single log) call_back p

  abbrev pub hash_send_log_list_with_call_back : List Log → Option ℕ → Producer → SendOutcome
  hash_send_log_list_with_call_back log_list call_back p =
      send_data true md5 patience size env t (many log_list) call_back p

  abbrev pub send_log : Log → Producer → SendOutcome
  send_log log p = send_data false md5 patience size env t (single log) none p

  abbrev pub send_log_list : List Log → Producer → SendOutcome
  send_log_list log_list p = send_data false md5 patience size env t (many log_list) none p

  abbrev pub hash_send_log : Log → Producer → SendOutcome
  hash_send_log log p = send_data true md5 patience size env t (single log) none p

  abbrev pub hash_send_log_list : List Log → Producer → SendOutcome
  hash_send_log_list log_list p = send_data true md5 patience size env t (many log_list) none p

  abbrev pub send_log_with_call_back : Log → Option ℕ → Producer → SendOutcome
  send_log_with_call_back log call_back p =
      send_data false md5 patience size env t (single log) call_back p

  abbrev pub send_log_list_with_call_back : List Log → Option ℕ → Producer → SendOutcome
  send_log_list_with_call_back log_list call_back p =
      send_data false md5 patience size env t (many log_list) call_back p

-- `sendCloseProdcerSignal`; the channel of the STS token is another goroutine's.
abbrev pub shut_mover : Producer → Producer
shut_mover p = record p { mover_shut_down_flag = true }

abbrev pub shut_accumulator : Producer → Producer
shut_accumulator p = record p { accumulator = record (p.accumulator) { shut_down_flag = true } }

abbrev pub shut_retries : Producer → Producer
shut_retries p = record p { io_worker = record (p.io_worker) { retry_queue_shut_down_flag = true } }

unfoldable pub send_close_prodcer_signal : Producer → Producer
send_close_prodcer_signal p = shut_retries (shut_accumulator (shut_mover p))
