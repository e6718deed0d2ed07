-- ===== src/Producer/Tests.antt =====
-- producer/: two logs sent under the default configuration, and what becomes of them.
use aliyun_log_go_sdk.Prelude.{
  ℕ, ◌≡◌, ◌≢◌, refl, none, some, [], ◌∷◌, ◌++◌, false, Str, str_eq, bytes, arith,
}
use aliyun_log_go_sdk.Prelude.Int.{pos, ◌+ℤ◌, ◌≤ℤ◌}
use aliyun_log_go_sdk.Map.{str_eq_instance, lookup, insert}
use aliyun_log_go_sdk.LogPb.{Log, size_log_group, sov_log}
use aliyun_log_go_sdk.Producer.Config.{get_default_producer_config}
use aliyun_log_go_sdk.Producer.Batch.{
  single, many, Env, ProducerBatch, batch_logs, init_producer_batch, with_pack_id,
  get_log_size_calculate, get_log_list_size, get_log_group_count,
}
use aliyun_log_go_sdk.Producer.State.{Producer}
use aliyun_log_go_sdk.Producer.Accumulator.{
  Target, Outcome, accepted, refused, get_key_string, create_new_producer_batch,
  add_or_send_producer_batch, add_data, add_by_type, add_log_to_producer_batch, sends_with_log,
  takes_log,
}
use aliyun_log_go_sdk.Producer.Accumulator.Order.{pending, listeners, add_log_keeps_order}
use aliyun_log_go_sdk.Producer.Hash.{contains_byte}
use aliyun_log_go_sdk.Producer.Accumulator.Counts.{
  AllBatches, IsWithin, single_log-count, log_list_overfills,
}
use aliyun_log_go_sdk.Producer.Accumulator.Keys.{
  IsPlain, get_key_string-injective, get_key_string-collision,
}

abbrev pub env : Env
env = record { md5 = λ s. []; now_ms = pos 1000; now_text = bytes "1000" }

abbrev pub target : Target
target = record {
  project = bytes "p";
  logstore = bytes "l";
  log_topic = bytes "t";
  log_source = bytes "s";
  shard_hash = [];
}

abbrev pub log_of : ℕ → Log
log_of n = record {
  time = some n;
  contents =
      record { key = some (bytes "k"); value = some (bytes "v"); xxx_unrecognized = [] } ∷ [];
  time_ns = none;
  xxx_unrecognized = [];
}

abbrev pub idle : Producer
idle = record {
  producer_config = get_default_producer_config;
  accumulator = record { log_group_data = []; shut_down_flag = false };
  thread_pool = record { queue = []; thread_pool_shut_down_flag = false };
  retry_queue = record { batch = [] };
  io_worker = record { task_count = pos 0; retry_queue_shut_down_flag = false; sending = [] };
  mover_shut_down_flag = false;
  buckets = pos 64;
  producer_log_group_size = pos 0;
}

abbrev taken : Outcome → Producer
taken (accepted p) = p
taken (refused r) = idle

abbrev pub after_one : Producer
after_one = taken (add_log_to_producer_batch env target (single (log_of 1)) (some 7) idle)

abbrev pub after_two : Producer
after_two = taken (add_log_to_producer_batch env target (single (log_of 2)) (some 8) after_one)

second_accepted :
    add_log_to_producer_batch env target (single (log_of 2)) (some 8) after_one ≡ accepted after_two
unfolding add_log_to_producer_batch add_by_type add_data create_new_producer_batch
    init_producer_batch get_key_string lookup insert add_or_send_producer_batch
    get_log_size_calculate get_default_producer_config sends_with_log takes_log str_eq
second_accepted = refl

-- Counted in bytes of the log itself, the second log costs 6.
second_billed : after_two.producer_log_group_size ≡ pos 6
unfolding add_log_to_producer_batch add_by_type add_data create_new_producer_batch
    init_producer_batch get_key_string lookup insert add_or_send_producer_batch
    get_log_size_calculate get_default_producer_config sends_with_log takes_log str_eq ◌+ℤ◌
    size_log_group sov_log get_log_group_count
second_billed = refl

add_log_keeps_order_example :
    (pending batch_logs (get_key_string target) after_two
      ≡ pending batch_logs (get_key_string target) after_one ++ log_of 2 ∷ [])
    × (pending listeners (get_key_string target) after_two
        ≡ pending listeners (get_key_string target) after_one ++ 8 ∷ [])
    × ((j : Str)
        → j ≢ get_key_string target
        → lookup j after_two.log_group_data ≡ lookup j after_one.log_group_data)
add_log_keeps_order_example =
    add_log_keeps_order env target (single (log_of 2)) (some 8) after_one after_two second_accepted

IsWithin-one : AllBatches (IsWithin after_one.producer_config.max_batch_count) after_one
unfolding add_log_to_producer_batch add_by_type add_data create_new_producer_batch
    init_producer_batch get_key_string lookup insert get_default_producer_config get_log_group_count
IsWithin-one = (tt, (omega arith, tt))

positive_count : pos 1 ≤ℤ after_one.producer_config.max_batch_count
unfolding add_log_to_producer_batch add_by_type add_data create_new_producer_batch
    init_producer_batch get_key_string lookup insert get_default_producer_config with_pack_id
positive_count = omega arith

single_log-count_example : AllBatches (IsWithin after_one.producer_config.max_batch_count) after_two
single_log-count_example =
    single_log-count env target (log_of 2) (some 8) after_one after_two positive_count IsWithin-one
      second_accepted

get_key_string-collision_example :
    let t : Target = record target {
      log_topic = bytes "a|b";
      shard_hash = bytes "c";
      log_source = bytes "d";
    } in
    let u : Target = record target {
      log_topic = bytes "a";
      shard_hash = bytes "b";
      log_source = bytes "c|d";
    } in
    (get_key_string t ≡ get_key_string u) × (t ≢ u)
get_key_string-collision_example =
    get_key_string-collision (bytes "p") (bytes "l") (bytes "a") (bytes "b") (bytes "c") (bytes "d")

plain : IsPlain target
unfolding contains_byte
plain = record { project = refl; logstore = refl; log_topic = refl; shard_hash = refl }

get_key_string-injective_example : target ≡ record target { log_source = bytes "s" }
get_key_string-injective_example =
    get_key_string-injective target (record target { log_source = bytes "s" }) plain plain refl

-- A configuration with room for one log only.
abbrev tight : Producer
tight = record after_one {
  producer_config = record (after_one.producer_config) { max_batch_count = pos 2 };
}

abbrev pub first_batch : ProducerBatch
first_batch =
    (init_producer_batch env (single (log_of 1)) (some 7) (bytes "p") (bytes "l") (bytes "t")
      (bytes "s") [] get_default_producer_config).0

log_list_overfills_example :
    (q : Producer) × (c : ProducerBatch) × (add_log_to_producer_batch env target
        (many (log_of 2 ∷ log_of 3 ∷ []))
        none
        tight
      ≡ accepted q)
    × (lookup (get_key_string target) q.log_group_data ≡ some c)
    × ¬ IsWithin (pos 2) c
unfolding add_log_to_producer_batch add_by_type add_data create_new_producer_batch
    init_producer_batch get_key_string lookup insert get_log_size_calculate get_log_list_size
    get_default_producer_config sends_with_log takes_log str_eq ◌+ℤ◌ get_log_group_count
    with_pack_id size_log_group sov_log
log_list_overfills_example =
    log_list_overfills env target (log_of 2 ∷ log_of 3 ∷ []) none tight first_batch 12 refl refl
      refl refl refl (omega arith)
