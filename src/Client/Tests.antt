-- ===== src/Client/Tests.antt =====
-- The client package: tokens that expire, credentials that are fetched, operations tried again.
use Prim.Native.Nat.{min}
use mathlib.Core.Bool.{true, false}
use mathlib.Core.List.Perm
use aliyun_log_go_sdk.Map.{str_eq_instance, lookup, insert}
use aliyun_log_go_sdk.Client.Signature.{
  build_canonical_headers, is_signed_header, sort_strings, canonical_headers, str_le,
}
use aliyun_log_go_sdk.Client.Signature.Canonical.{IsCaseUnique, build_canonical_headers-perm}
use aliyun_log_go_sdk.Prelude.{
  ap, sym, ◌∙◌, ◌++◌, inl, inr, Bool-cases, Str, str_eq, str_eq_iff, to_lower, ℕ, zero, suc, ◌+◌,
  ◌*◌, ◌≤◌, ◌≡◌, ◌≢◌, refl, Option, none, some, List, [], ◌∷◌, Bool, arith, bytes,
}
use aliyun_log_go_sdk.Prelude.Int.{pos}
use aliyun_log_go_sdk.Producer.IoWorker.{Err, sls_error}
use aliyun_log_go_sdk.Client.Token.{
  Key, TokenAutoUpdateClient, second, create_token_auto_update_client, Update, new_token, no_token,
  high_frequency, start_fetch, end_fetch, fetch_sts_token, process_error, is_token_error,
  wrapped_loop, wrapped,
}
use aliyun_log_go_sdk.Client.Token.Fetches.{
  fetch_sts_token_throttles, last_time, doubled, failures, failed_fetch_backoff,
}
use aliyun_log_go_sdk.Client.Credentials.{Answer, refused, given}
use aliyun_log_go_sdk.Client.Retry.{
  Found, AttemptFound, waited, done_first, ctx_done, tick, returned, retry_with_back_off,
  retry_with_condition, retry_with_attempt,
}
use aliyun_log_go_sdk.Client.Retry.Ends.{
  is_some, Ended, retry_with_attempt_ends, retry_with_back_off-condition,
}

abbrev key : ℕ → Key
key n = record { access_key_id = n ∷ []; access_key_secret = bytes "s"; security_token = bytes "t" }

abbrev client : TokenAutoUpdateClient
client = create_token_auto_update_client (key 1) (3600 * second)

abbrev expired : Err
expired =
    sls_error
      (record { http_code = pos 401; code = bytes "Unauthorized"; message = []; request_id = [] })

-- A first token error, a new token, then the answer.
abbrev ask : ℕ → ℕ × Option Err
ask zero = (0, some expired)
ask (suc k) = (7, none)

abbrev clock : ℕ → ℕ
clock k = (k + 1) * (2 * second)

abbrev update : ℕ → Update
update k = new_token (key 2) (7200 * second)

request_answered : (wrapped 0 ask clock update client).0 ≡ (7, none)
unfolding wrapped wrapped_loop process_error fetch_sts_token start_fetch end_fetch is_token_error
    create_token_auto_update_client
request_answered = refl

not_refused : (fetch_sts_token (2 * second) (update 0) client).0 ≢ high_frequency
unfolding fetch_sts_token start_fetch end_fetch create_token_auto_update_client
not_refused = λ e. cc

fetch_sts_token_throttles_example :
    let c = (fetch_sts_token (2 * second) (update 0) client).1 in
    fetch_sts_token (2 * second + 5) (no_token expired) c ≡ (high_frequency, c)
fetch_sts_token_throttles_example =
    fetch_sts_token_throttles (2 * second) (2 * second + 5) (update 0) (no_token expired) client
      not_refused (unfold create_token_auto_update_client in omega arith)

spaced_out :
    (k : ℕ) → last_time k clock client.last_fetch + client.update_token_interval_min ≤ clock k
unfolding create_token_auto_update_client
spaced_out zero = omega arith
spaced_out (suc k) = omega arith

failed_fetch_backoff_example :
    (start_fetch (100 * second) (failures 4 clock (λ k. expired) client)).0
    ≡ min client.wait_interval_max (doubled 3 client.wait_interval_min)
unfolding create_token_auto_update_client
failed_fetch_backoff_example =
    failed_fetch_backoff clock (λ k. expired) client refl refl (omega arith) (omega arith)
      spaced_out 3 (100 * second)

abbrev answers : ℕ → Answer
answers zero = refused 1
answers (suc k) = given (key 2) (pos (7200 * second))

abbrev twice : ℕ → Bool × Option ℕ
twice zero = (true, some 1)
twice (suc k) = (false, some 2)

abbrev seen : List Found
seen = tick ∷ tick ∷ ctx_done ∷ []

abbrev attempts : List AttemptFound
attempts = waited ∷ waited ∷ done_first ∷ []

second_error : retry_with_attempt (pos 3) attempts twice ≡ returned (some 2)
unfolding retry_with_attempt
second_error = refl

retry_with_attempt_ends_example :
    Ended 3 attempts twice none (retry_with_attempt (pos 3) attempts twice)
retry_with_attempt_ends_example = retry_with_attempt_ends 3 attempts twice

abbrev failing_once : ℕ → Option ℕ
failing_once zero = some 1
failing_once (suc k) = none

retry_with_back_off-condition_example :
    retry_with_back_off seen failing_once
    ≡ retry_with_condition seen (λ k. (is_some (failing_once k), failing_once k))
retry_with_back_off-condition_example = retry_with_back_off-condition seen failing_once

abbrev log_header : Str × Str
log_header = (bytes "X-Log-B", bytes "1")

abbrev host_header : Str × Str
host_header = (bytes "Host", bytes "h")

canonical_two :
    build_canonical_headers (log_header ∷ host_header ∷ [])
    ≡ (bytes "host;x-log-b", bytes "host:h" ++ (10 ∷ bytes "x-log-b:1" ++ (10 ∷ [])))
unfolding build_canonical_headers is_signed_header sort_strings canonical_headers insert lookup
    str_le to_lower str_eq
canonical_two = refl

-- Names that differ in case alone leave the choice of the value to the order.
canonical_by_order :
    build_canonical_headers ((bytes "X-Log-B", bytes "1") ∷ (bytes "x-log-b", bytes "2") ∷ [])
    ≢ build_canonical_headers ((bytes "x-log-b", bytes "2") ∷ (bytes "X-Log-B", bytes "1") ∷ [])
unfolding build_canonical_headers is_signed_header sort_strings canonical_headers insert lookup
    str_le to_lower str_eq
canonical_by_order =
    λ e. cc (ap (λ t. str_eq t.1 (bytes "x-log-b:2" ++ (10 ∷ bytes "x-log-b:2" ++ (10 ∷ [])))) e)

two_names : IsCaseUnique (log_header ∷ host_header ∷ [])
unfolding to_lower
two_names key = elim (Bool-cases (str_eq (bytes "x-log-b") key)) [
  | inl one ↦ elim (Bool-cases (str_eq (bytes "host") key)) [
    | inl two ↦
        cc ((str_eq_iff (bytes "x-log-b") key).0 one ∙ sym ((str_eq_iff (bytes "host") key).0 two))
    | inr not_two ↦ rw (one, not_two) (omega arith)
  ]
  | inr not_one ↦ elim (Bool-cases (str_eq (bytes "host") key)) [
    | inl two ↦ rw (not_one, two) (omega arith)
    | inr not_two ↦ rw (not_one, not_two) (omega arith)
  ]
]

build_canonical_headers-perm_example :
    build_canonical_headers (log_header ∷ host_header ∷ [])
    ≡ build_canonical_headers (host_header ∷ log_header ∷ [])
build_canonical_headers-perm_example =
    build_canonical_headers-perm (log_header ∷ host_header ∷ []) (host_header ∷ log_header ∷ [])
      two_names (Perm.swap host_header log_header [])
