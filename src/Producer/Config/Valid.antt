-- ===== src/Producer/Config/Valid.antt =====
-- validateProducerConfig of producer/producer.go.
use aliyun_log_go_sdk.Prelude.{◌*◌, ◌≡◌, ◌↔◌, subst, arith}
use aliyun_log_go_sdk.Prelude.Int.{pos, ◌≤ℤ◌}
use aliyun_log_go_sdk.Producer.Config.{ProducerConfig, validate_producer_config}

-- What the producer relies on.
pub record IsValid (c : ProducerConfig) : Type 0 where
  pub reserved : pos 1 ≤ℤ c.max_reserved_attempts
  pub count_positive : pos 1 ≤ℤ c.max_batch_count
  pub count_capped : c.max_batch_count ≤ℤ pos 40960
  pub size_positive : pos 1 ≤ℤ c.max_batch_size
  pub size_capped : c.max_batch_size ≤ℤ pos (1024 * 1024 * 5)
  pub workers : pos 1 ≤ℤ c.max_io_worker_count
  pub backoff : pos 1 ≤ℤ c.base_retry_backoff_ms
  pub memory : pos 1 ≤ℤ c.total_size_ln_bytes
  pub linger : pos 100 ≤ℤ c.linger_ms

-- The corrected configuration is valid, whatever was given.
pub validate_producer_config-IsValid : (c : ProducerConfig) → IsValid (validate_producer_config c)
unfolding validate_producer_config
validate_producer_config-IsValid c = record {
  reserved = ground arith;
  count_positive = ground arith;
  count_capped = ground arith;
  size_positive = ground arith;
  size_capped = ground arith;
  workers = ground arith;
  backoff = ground arith;
  memory = ground arith;
  linger = ground arith;
}

unchanged : (c : ProducerConfig) → IsValid c → validate_producer_config c ≡ c
unfolding validate_producer_config
unchanged c v =
    let max_reserved_attempts' : (validate_producer_config c).max_reserved_attempts
        ≡ c.max_reserved_attempts =
      ground arith in
    let max_batch_count' : (validate_producer_config c).max_batch_count ≡ c.max_batch_count =
      ground arith in
    let max_batch_size' : (validate_producer_config c).max_batch_size ≡ c.max_batch_size =
      ground arith in
    let max_io_worker_count' : (validate_producer_config c).max_io_worker_count
        ≡ c.max_io_worker_count =
      ground arith in
    let base_retry_backoff_ms' : (validate_producer_config c).base_retry_backoff_ms
        ≡ c.base_retry_backoff_ms =
      ground arith in
    let total_size_ln_bytes' : (validate_producer_config c).total_size_ln_bytes
        ≡ c.total_size_ln_bytes =
      ground arith in
    let linger_ms' : (validate_producer_config c).linger_ms ≡ c.linger_ms = ground arith in
    λ i. record c {
      max_reserved_attempts = max_reserved_attempts' i;
      max_batch_count = max_batch_count' i;
      max_batch_size = max_batch_size' i;
      max_io_worker_count = max_io_worker_count' i;
      base_retry_backoff_ms = base_retry_backoff_ms' i;
      total_size_ln_bytes = total_size_ln_bytes' i;
      linger_ms = linger_ms' i;
    }

-- The valid configurations are exactly those that validation leaves as they are.
pub validate_producer_config_iff :
    (c : ProducerConfig) → IsValid c ↔ (validate_producer_config c ≡ c)
validate_producer_config_iff c =
    (unchanged c, λ e. subst IsValid e (validate_producer_config-IsValid c))
