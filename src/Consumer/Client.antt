-- ===== src/Consumer/Client.antt =====
-- consumer/consumer_client.go: creating the group, reading a checkpoint, pulling logs.
-- The server's answers are arguments: `answers i` is what the i-th request of a call gives.
pub mod Requests
use aliyun_log_go_sdk.Prelude.{
  ℕ, zero, suc, Option, none, some, List, [], ◌∷◌, Bool, true, false, not, ◌||◌, ◌&&◌, Str, bytes,
  str_eq, ◌==◌, if◌then◌else◌,
}
use aliyun_log_go_sdk.Prelude.Int.{ℤ, ltb_ℤ}
use aliyun_log_go_sdk.Producer.IoWorker.{SlsError, Err, sls_error, foreign}

-- An answer: an error or a value.
pub data Answer {ℓ} (A : Type ℓ) : Type ℓ where
  error : Err → Answer A
  value : A → Answer A

-- `sls.ConsumerGroup`
pub record ConsumerGroup : Type 0 where
  pub consumer_group_name : Str
  pub timeout : ℤ
  pub in_order : Bool

-- What `createConsumerGroup` asks of the server after the list.
pub data GroupRequest : Type 0 where
  no_request : GroupRequest
  update_consumer_group : GroupRequest
  create_consumer_group : GroupRequest

abbrev bool_eq : Bool → Bool → Bool
bool_eq true b = b
bool_eq false b = not b

-- `(*cg) != consumer.consumerGroup`, the names being equal
abbrev pub same_settings : ConsumerGroup → ConsumerGroup → Bool
same_settings a b =
    not (ltb_ℤ a.timeout b.timeout)
    && (not (ltb_ℤ b.timeout a.timeout) && bool_eq a.in_order b.in_order)

-- The loop over the groups; `already_exist` is the variable.
unfoldable pub choose_request : ConsumerGroup → Bool → List ConsumerGroup → GroupRequest
choose_request own already_exist [] =
    if already_exist then update_consumer_group else create_consumer_group
choose_request own already_exist (cg ∷ groups) =
    let later = choose_request own true groups in
    let other = choose_request own already_exist groups in
    if str_eq cg.consumer_group_name own.consumer_group_name
    then (if same_settings cg own then no_request else later)
    else other

-- An error of the creation that says that another consumer was first is no error.
abbrev creation_error : Option Err → Option Err
creation_error none = none
creation_error (some foreign) = some foreign
creation_error (some (sls_error e)) =
    if str_eq e.code (bytes "ConsumerGroupAlreadyExist") then none else some (sls_error e)

abbrev group_result : GroupRequest → Option Err → Option Err → Option Err
group_result no_request updated created = none
group_result update_consumer_group updated created = updated
group_result create_consumer_group updated created = creation_error created

-- `createConsumerGroup`, by the answers to the three requests; the error comes wrapped.
unfoldable pub create_consumer_group_of :
    ConsumerGroup → Answer (List ConsumerGroup) → Option Err → Option Err → Option Err
create_consumer_group_of own (error err) updated created = some err
create_consumer_group_of own (value groups) updated created =
    group_result (choose_request own false groups) updated created

pub record ConsumerGroupCheckPoint : Type 0 where
  pub shard_id : ℕ
  pub check_point : Str

-- The loop of `getCheckPoint`: it ends at the first answer that is no error, or after `left` more.
unfoldable pub ask_check_points :
    ℕ → (ℕ → Answer (List ConsumerGroupCheckPoint)) → Answer (List ConsumerGroupCheckPoint)
ask_check_points zero answers = answers 0
ask_check_points (suc left) answers =
    let rest = ask_check_points left (λ k. answers (suc k)) in
    elim (answers 0) [ error err ↦ rest | value points ↦ value points ]

abbrev pub find_check_point : ℕ → List ConsumerGroupCheckPoint → Str
find_check_point shard_id [] = []
find_check_point shard_id (c ∷ cs) =
    if c.shard_id == shard_id then c.check_point else find_check_point shard_id cs

abbrev pub found_check_point : ℕ → Answer (List ConsumerGroupCheckPoint) → Answer Str
found_check_point shard_id (error err) = error err
found_check_point shard_id (value points) = value (find_check_point shard_id points)

-- `getCheckPoint`; no checkpoint is the empty text.
unfoldable pub get_check_point_of : ℕ → (ℕ → Answer (List ConsumerGroupCheckPoint)) → Answer Str
get_check_point_of shard_id answers = found_check_point shard_id (ask_check_points 2 answers)

-- The loop of `pullLogs`: three requests with one cursor whatever they give; the last one's
-- answer is returned, with the number of requests made.
unfoldable pub pull_loop {ℓ} : {A : Type ℓ} → ℕ → (ℕ → Answer A) → Answer A × ℕ
pull_loop zero answers = (answers 0, 1)
pull_loop (suc left) answers =
    let (last, count) = pull_loop left (λ k. answers (suc k)) in (last, suc count)

unfoldable pub pull_logs_of {ℓ} : {A : Type ℓ} → (ℕ → Answer A) → Answer A × ℕ
pull_logs_of answers = pull_loop 2 answers
