-- ===== src/Producer/Result.antt =====
-- producer/result.go: the attempts to send a batch, as its callbacks see them.
use aliyun_log_go_sdk.Prelude.{
  ◌-◌, none, some, List, [], Bool, false, Str, ◌==◌, if◌then◌else◌, length, get_elem?,
}
use aliyun_log_go_sdk.Prelude.Int.{ℤ, pos}

pub record Attempt : Type 0 where
  pub success : Bool
  pub request_id : Str
  pub error_code : Str
  pub error_message : Str
  pub time_stamp_ms : ℤ
  pub last_attempt_cost_ms : ℤ

unfoldable pub create_attempt : Bool → Str → Str → Str → ℤ → ℤ → Attempt
create_attempt success request_id error_code error_message time_stamp_ms last_attempt_cost_ms =
    record {
      success = success;
      request_id = request_id;
      error_code = error_code;
      error_message = error_message;
      time_stamp_ms = time_stamp_ms;
      last_attempt_cost_ms = last_attempt_cost_ms;
    }

pub record Result : Type 0 where
  pub attempt_list : List Attempt
  pub successful : Bool

unfoldable pub init_result : Result
init_result = record { attempt_list = []; successful = false }

-- The five getters of the last attempt share their test and their index.
unfoldable pub last_attempt {ℓ} : {A : Type ℓ} → A → (Attempt → A) → Result → A
last_attempt zero_value field result =
    if length result.attempt_list == 0
    then zero_value
    else elim (get_elem? result.attempt_list (length result.attempt_list - 1)) [
      | none ↦ zero_value
      | some attempt ↦ field attempt
    ]

unfoldable pub is_successful : Result → Bool
is_successful result = result.successful

unfoldable pub get_reserved_attempts : Result → List Attempt
get_reserved_attempts result = result.attempt_list

unfoldable pub get_error_code : Result → Str
unfolding last_attempt
get_error_code = last_attempt [] (λ a. a.error_code)

unfoldable pub get_error_message : Result → Str
unfolding last_attempt
get_error_message = last_attempt [] (λ a. a.error_message)

unfoldable pub get_request_id : Result → Str
unfolding last_attempt
get_request_id = last_attempt [] (λ a. a.request_id)

unfoldable pub get_time_stamp_ms : Result → ℤ
unfolding last_attempt
get_time_stamp_ms = last_attempt (pos 0) (λ a. a.time_stamp_ms)

unfoldable pub get_last_attempt_cost_ms : Result → ℤ
unfolding last_attempt
get_last_attempt_cost_ms = last_attempt (pos 0) (λ a. a.last_attempt_cost_ms)
