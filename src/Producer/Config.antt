-- ===== src/Producer/Config.antt =====
-- producer/producer_config.go, and validateProducerConfig of producer/producer.go.
-- Left out of the record: the log file's settings and the client's (endpoint, keys, HTTP client,
-- region), which are handed to other packages only.
pub mod Valid
use aliyun_log_go_sdk.Prelude.{ℕ, ◌*◌, List, [], ◌∷◌, Bool, true, false, ◌||◌, Str, if◌then◌else◌}
use aliyun_log_go_sdk.Prelude.Int.{ℤ, pos, negsuc, ltb_ℤ}
use aliyun_log_go_sdk.LogPb.{LogTag}

pub record ProducerConfig : Type 0 where
  pub total_size_ln_bytes : ℤ
  pub max_io_worker_count : ℤ
  pub max_block_sec : ℤ
  pub max_batch_size : ℤ
  pub max_batch_count : ℤ
  pub linger_ms : ℤ
  pub retries : ℤ
  pub max_reserved_attempts : ℤ
  pub base_retry_backoff_ms : ℤ
  pub max_retry_backoff_ms : ℤ
  pub adjust_sharg_hash : Bool
  pub buckets : ℤ
  pub no_retry_status_code_list : List ℤ
  pub log_tags : List LogTag
  pub generate_pack_id : Bool
  pub use_metric_store_url : Bool
  pub pack_prefix : Str
  pub pack_number : ℕ
  pub compress_type : ℤ

-- a <= b
abbrev pub leb_ℤ : ℤ → ℤ → Bool
leb_ℤ a b = if ltb_ℤ b a then false else true

-- `GetDefaultProducerConfig`; `sls.Compress_LZ4` is 0.
unfoldable pub get_default_producer_config : ProducerConfig
get_default_producer_config = record {
  total_size_ln_bytes = pos (100 * 1024 * 1024);
  max_io_worker_count = pos 50;
  max_block_sec = pos 60;
  max_batch_size = pos (512 * 1024);
  max_batch_count = pos 4096;
  linger_ms = pos 2000;
  retries = pos 10;
  max_reserved_attempts = pos 11;
  base_retry_backoff_ms = pos 100;
  max_retry_backoff_ms = pos (50 * 1000);
  adjust_sharg_hash = true;
  buckets = pos 64;
  no_retry_status_code_list = pos 400 ∷ pos 404 ∷ [];
  log_tags = [];
  generate_pack_id = false;
  use_metric_store_url = false;
  pack_prefix = [];
  pack_number = 0;
  compress_type = pos 0;
}

abbrev five_mb : ℤ
five_mb = pos (1024 * 1024 * 5)

-- `validateProducerConfig`: each test stands alone, so the corrections are made field by field.
unfoldable pub validate_producer_config : ProducerConfig → ProducerConfig
validate_producer_config c = record c {
  max_reserved_attempts =
      if leb_ℤ c.max_reserved_attempts (pos 0) then pos 11 else c.max_reserved_attempts;
  max_batch_count =
      if ltb_ℤ (pos 40960) c.max_batch_count || leb_ℤ c.max_batch_count (pos 0)
      then pos 40960
      else c.max_batch_count;
  max_batch_size =
      if ltb_ℤ five_mb c.max_batch_size || leb_ℤ c.max_batch_size (pos 0)
      then five_mb
      else c.max_batch_size;
  max_io_worker_count =
      if leb_ℤ c.max_io_worker_count (pos 0) then pos 50 else c.max_io_worker_count;
  base_retry_backoff_ms =
      if leb_ℤ c.base_retry_backoff_ms (pos 0) then pos 100 else c.base_retry_backoff_ms;
  total_size_ln_bytes =
      if leb_ℤ c.total_size_ln_bytes (pos 0)
      then pos (100 * 1024 * 1024)
      else c.total_size_ln_bytes;
  linger_ms = if ltb_ℤ c.linger_ms (pos 100) then pos 2000 else c.linger_ms;
}
