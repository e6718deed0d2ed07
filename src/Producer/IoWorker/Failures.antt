-- ===== src/Producer/IoWorker/Failures.antt =====
-- producer/io_worker.go: the failures of a batch that its result keeps.
use mathlib.Core.Bool.{false}
use aliyun_log_go_sdk.Prelude.{Option, some, List, [], ◌∷◌, Bool, ◌>>=◌}
use aliyun_log_go_sdk.Prelude.Int.{ℤ, ◌-ℤ◌}
use aliyun_log_go_sdk.Producer.Batch.{ProducerBatch}
use aliyun_log_go_sdk.Producer.Result.{Attempt}
use aliyun_log_go_sdk.Producer.IoWorker.{SlsError, sls_error, add_error_message_to_batch_attempt}

pub record Failure : Type 0 where
  pub error : SlsError
  pub begin_ms : ℤ
  pub now_ms : ℤ

-- What is written down of a failure.
abbrev pub attempt_of : Failure → Attempt
attempt_of f = record {
  success = false;
  request_id = f.error.request_id;
  error_code = f.error.code;
  error_message = f.error.message;
  time_stamp_ms = f.now_ms;
  last_attempt_cost_ms = f.now_ms -ℤ f.begin_ms;
}

-- The failures of a batch, one after another.
abbrev pub fail_all : List Failure → ProducerBatch → Option ProducerBatch
fail_all [] b = some b
fail_all (f ∷ fs) b =
    add_error_message_to_batch_attempt (sls_error f.error) f.begin_ms f.now_ms b >>= fail_all fs
