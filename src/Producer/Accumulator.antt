-- ===== src/Producer/Accumulator.antt =====
-- producer/log_accumulator.go: logs are gathered in one batch for each key until it is full.
-- The logger is left out.
pub mod Keys
pub mod Change
pub mod Order
pub mod Accounting
pub mod Counts
use aliyun_log_go_sdk.Prelude.{
  ℕ, ◌+◌, Option, none, some, List, [], ◌∷◌, ◌++◌, Bool, true, false, ◌&&◌, Str, bytes,
  if◌then◌else◌, ◌>>=◌,
}
use aliyun_log_go_sdk.Prelude.Int.{ℤ, pos, ◌+ℤ◌, ltb_ℤ}
use aliyun_log_go_sdk.Map.{str_eq_instance, lookup, insert, delete}
use aliyun_log_go_sdk.Producer.Config.{ProducerConfig, leb_ℤ}
use aliyun_log_go_sdk.Producer.Batch.{
  LogData, single, many, other, ProducerBatch, Env, get_log_size_calculate, get_log_list_size,
  init_producer_batch, get_log_group_count, add_log_to_log_group, add_producer_batch_call_back,
}
use aliyun_log_go_sdk.Producer.State.{LogAccumulator, Producer}
use aliyun_log_go_sdk.Producer.ThreadPool.{add_task}

unfoldable pub init_log_accumulator : LogAccumulator
init_log_accumulator = record { log_group_data = []; shut_down_flag = false }

-- Where a batch goes: the arguments that every method passes on.
pub record Target : Type 0 where
  pub project : Str
  pub logstore : Str
  pub log_topic : Str
  pub log_source : Str
  pub shard_hash : Str

abbrev pub delimiter : Str
delimiter = bytes "|"

unfoldable pub get_key_string : Target → Str
get_key_string t =
    t.project
    ++ (delimiter
        ++ (t.logstore
            ++ (delimiter
                ++ (t.log_topic ++ (delimiter ++ (t.shard_hash ++ (delimiter ++ t.log_source)))))))

abbrev pub set_data : List (Str × ProducerBatch) → Producer → Producer
set_data m p = record p { accumulator = record (p.accumulator) { log_group_data = m } }

unfoldable pub inner_send_to_server : Str → ProducerBatch → Producer → Producer
inner_send_to_server key batch p = record (set_data (delete key p.log_group_data) p) {
  thread_pool = add_task batch p.thread_pool;
}

unfoldable pub create_new_producer_batch :
    Env → LogData → Option ℕ → Str → Target → Producer → Producer
create_new_producer_batch env log_type call_back key t p =
    let (batch, config) =
      init_producer_batch env log_type call_back t.project t.logstore t.log_topic t.log_source
        t.shard_hash p.producer_config in
    record (set_data (insert key batch p.log_group_data) p) { producer_config = config }

abbrev pub with_log : LogData → Option ℕ → ProducerBatch → ProducerBatch
with_log log call_back batch =
    add_producer_batch_call_back call_back (add_log_to_log_group log batch)

abbrev pub batch_limit : ℤ
batch_limit = pos 5242880

-- The tests of `addOrSendProducerBatch`: whether the batch is sent with the log, and whether it
-- takes the log and stays.
unfoldable pub sends_with_log : ProducerConfig → ProducerBatch → Bool
sends_with_log config batch =
    ltb_ℤ config.max_batch_size batch.total_data_size
    && (ltb_ℤ batch.total_data_size batch_limit
        && leb_ℤ (pos (get_log_group_count batch + 1)) config.max_batch_count)

unfoldable pub takes_log : ProducerConfig → ProducerBatch → Bool
takes_log config batch =
    leb_ℤ batch.total_data_size config.max_batch_size
    && leb_ℤ (pos (get_log_group_count batch + 1)) config.max_batch_count

-- `addOrSendProducerBatch`; the batch's size has the log's already. In the second branch the map
-- keeps its pointer to the batch.
unfoldable pub add_or_send_producer_batch :
    Env → Str → Target → ProducerBatch → LogData → Option ℕ → Producer → Producer
add_or_send_producer_batch env key t batch log call_back p =
    if sends_with_log p.producer_config batch
    then inner_send_to_server key (with_log log call_back batch) p
    else if takes_log p.producer_config batch
    then set_data (insert key (with_log log call_back batch) p.log_group_data) p
    else create_new_producer_batch env log call_back key t (inner_send_to_server key batch p)

-- The errors of `addLogToProducerBatch`, and its panic at a log content with a nil key or value.
pub data Refusal : Type 0 where
  producer_shut_down invalid_log_type nil_pointer : Refusal

pub data Outcome : Type 0 where
  accepted : Producer → Outcome
  refused : Refusal → Outcome

abbrev pub size_of_data : LogData → Option ℕ
size_of_data (single log) = get_log_size_calculate log
size_of_data (many log_list) = get_log_list_size log_list
size_of_data other = none

-- The two `atomic.AddInt64`.
abbrev pub grow_batch : ℕ → ProducerBatch → ProducerBatch
grow_batch n batch = record batch { total_data_size = batch.total_data_size +ℤ pos n }

abbrev pub grow_producer : ℕ → Producer → Producer
grow_producer n p = record p { producer_log_group_size = p.producer_log_group_size +ℤ pos n }

-- The case of a log or a log list; both are handled alike.
unfoldable pub add_data : Env → Target → LogData → Option ℕ → Producer → Outcome
add_data env t log_data call_back p =
    let key = get_key_string t in
    elim (lookup key p.log_group_data) [
      | none ↦ accepted (create_new_producer_batch env log_data call_back key t p)
      | some batch ↦ elim (size_of_data log_data) [
        | none ↦ refused nil_pointer
        | some n ↦ accepted (
            add_or_send_producer_batch env key t (grow_batch n batch) log_data call_back
              (grow_producer n p))
      ]
    ]

unfoldable pub add_by_type : Env → Target → LogData → Option ℕ → Producer → Outcome
add_by_type env t (single log) call_back p = add_data env t (single log) call_back p
add_by_type env t (many log_list) call_back p = add_data env t (many log_list) call_back p
add_by_type env t other call_back p = refused invalid_log_type

unfoldable pub add_log_to_producer_batch : Env → Target → LogData → Option ℕ → Producer → Outcome
add_log_to_producer_batch env t log_data call_back p =
    if p.shut_down_flag then refused producer_shut_down else add_by_type env t log_data call_back p
