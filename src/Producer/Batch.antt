-- ===== src/Producer/Batch.antt =====
-- producer/producer_batch.go, and the sizes of producer/utils.go.
-- The RWMutex is left out: each method is one step. `logGroupSize` and `logGroupCount` are
-- never used by the program. A callback is the number of the user's object, nil being none.
-- md5 and the clock are arguments.
use aliyun_log_go_sdk.Prelude.{
  ℕ, zero, suc, ◌+◌, ◌/◌, ◌%◌, Option, none, some, List, [], ◌∷◌, ◌++◌, Bool, Str, bytes, leb, ltb,
  ◌==◌, ◌&&◌, ◌-◌, str_eq, if◌then◌else◌, length, take, ◌>>=◌,
}
use aliyun_log_go_sdk.Prelude.Int.{ℤ, pos}
use aliyun_log_go_sdk.LogPb.{LogContent, Log, LogTag, LogGroup, size_log_group}
use aliyun_log_go_sdk.Producer.Config.{ProducerConfig}
use aliyun_log_go_sdk.Producer.Hash.{hex_encode}
use aliyun_log_go_sdk.Producer.Result.{Result, init_result}

-- The `interface{}` that holds logs: the two types that the code asks for, and any other.
pub data LogData : Type 0 where
  single : Log → LogData
  many : List Log → LogData
  other : LogData

abbrev pub logs_of : LogData → List Log
logs_of (single log) = log ∷ []
logs_of (many log_list) = log_list
logs_of other = []

-- `GetLogSizeCalculate` reads through the pointers: `none` is the panic at a nil one.
size_of_contents : List LogContent → Option ℕ
size_of_contents [] = some 0
size_of_contents (c ∷ cs) = do
  value ← c.value
  key ← c.key
  rest ← size_of_contents cs
  some (length value + length key + rest)

unfoldable pub get_log_size_calculate : Log → Option ℕ
unfolding size_of_contents
get_log_size_calculate log = do n ← size_of_contents log.contents; some (4 + n)

unfoldable pub get_log_list_size : List Log → Option ℕ
unfolding get_log_size_calculate
get_log_list_size [] = some 0
get_log_list_size (log ∷ logs) = do
  n ← get_log_size_calculate log
  rest ← get_log_list_size logs
  some (n + rest)

pub record ProducerBatch : Type 0 where
  pub total_data_size : ℤ
  pub log_group : LogGroup
  pub attempt_count : ℕ
  pub base_retry_backoff_ms : ℤ
  pub next_retry_ms : ℤ
  pub max_retry_interval_in_ms : ℤ
  pub call_back_list : List ℕ
  pub create_time_ms : ℤ
  pub max_retry_times : ℤ
  pub project : Str
  pub logstore : Str
  pub shard_hash : Option Str
  pub result : Result
  pub max_reserved_attempts : ℤ
  pub use_metric_store_url : Bool

-- What `initProducerBatch` reads of the world: md5, the clock, and the clock as text.
pub record Env : Type 0 where
  pub md5 : Str → Str
  pub now_ms : ℤ
  pub now_text : Str

-- strings.ToUpper of hex digits
abbrev to_upper : Str → Str
to_upper [] = []
to_upper (c ∷ s) = (if leb b'a' c && leb c b'z' then c - 32 else c) ∷ to_upper s

-- `fmt.Sprintf("%X", n)`, with fuel for the sixteen digits
format_hex_upper : ℕ → ℕ → Str
format_hex_upper zero n = []
format_hex_upper (suc fuel) n =
    let digit = if ltb (n % 16) 10 then b'0' + n % 16 else b'A' + (n % 16 - 10) in
    let rest = format_hex_upper fuel (n / 16) in
    if n / 16 == 0 then digit ∷ [] else rest ++ digit ∷ []

unfoldable pub generate_pack_id : Env → Str → Str
generate_pack_id env source = take 16 (hex_encode (env.md5 (source ++ env.now_text)))

-- The branch of `initProducerBatch` for `GeneratePackId`: the prefix is made once, and the number
-- goes up with each batch. The tags of the configuration are not changed.
unfoldable pub with_pack_id : Env → ProducerConfig → Str → ProducerConfig × List LogTag
unfolding generate_pack_id format_hex_upper
with_pack_id env config log_source =
    let pack_prefix =
      if str_eq config.pack_prefix []
      then to_upper (generate_pack_id env log_source) ++ bytes "-"
      else config.pack_prefix in
    let pack_str = pack_prefix ++ format_hex_upper 16 config.pack_number in
    let tag : LogTag = record {
      key = some (bytes "__pack_id__");
      value = some pack_str;
      xxx_unrecognized = [];
    } in
    if config.generate_pack_id
    then (
      record config { pack_prefix = pack_prefix; pack_number = config.pack_number + 1 },
      config.log_tags ++ tag ∷ [],
    )
    else (config, config.log_tags)

abbrev pub callbacks : Option ℕ → List ℕ
callbacks none = []
callbacks (some c) = c ∷ []

-- `initProducerBatch`, with the configuration that it leaves.
unfoldable pub init_producer_batch :
    Env
    → LogData
    → Option ℕ
    → Str
    → Str
    → Str
    → Str
    → Str
    → ProducerConfig
    → ProducerBatch × ProducerConfig
unfolding with_pack_id init_result
init_producer_batch env log_data call_back project logstore log_topic log_source shard_hash config =
    let (config', tags) = with_pack_id env config log_source in
    let log_group : LogGroup = record {
      logs = logs_of log_data;
      category = none;
      topic = some log_topic;
      source = some log_source;
      machine_uuid = none;
      log_tags = tags;
      xxx_unrecognized = [];
    } in
    (
      record {
        total_data_size = pos (size_log_group log_group);
        log_group = log_group;
        attempt_count = 0;
        base_retry_backoff_ms = config.base_retry_backoff_ms;
        next_retry_ms = pos 0;
        max_retry_interval_in_ms = config.max_retry_backoff_ms;
        call_back_list = callbacks call_back;
        create_time_ms = env.now_ms;
        max_retry_times = config.retries;
        project = project;
        logstore = logstore;
        shard_hash = if str_eq shard_hash [] then none else some shard_hash;
        result = init_result;
        max_reserved_attempts = config.max_reserved_attempts;
        use_metric_store_url = config.use_metric_store_url;
      },
      config',
    )

abbrev pub batch_logs : ProducerBatch → List Log
batch_logs b = b.log_group.logs

unfoldable pub get_log_group_count : ProducerBatch → ℕ
get_log_group_count b = length (batch_logs b)

unfoldable pub add_log_to_log_group : LogData → ProducerBatch → ProducerBatch
add_log_to_log_group log b = record b {
  log_group = record (b.log_group) { logs = batch_logs b ++ logs_of log };
}

-- Called only for a callback that is not nil.
unfoldable pub add_producer_batch_call_back : Option ℕ → ProducerBatch → ProducerBatch
add_producer_batch_call_back call_back b = record b {
  call_back_list = b.call_back_list ++ callbacks call_back;
}
