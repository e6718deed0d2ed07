-- ===== src/Producer/IoWorker/Calls.antt =====
-- producer/io_worker.go: the calls of callbacks that an attempt makes.
use mathlib.Core.Bool.{false}
use aliyun_log_go_sdk.Prelude.{
  ℕ, suc, ◌+◌, ◌≡◌, refl, ap, some, List, [], ◌∷◌, Bool, true, arith, if◌then◌else◌, map,
}
use aliyun_log_go_sdk.Prelude.Int.{ℤ, pos, ◌-ℤ◌, ltb_ℤ}
use aliyun_log_go_sdk.Producer.Batch.{ProducerBatch}
use aliyun_log_go_sdk.Producer.Result.{Result, create_attempt}
use aliyun_log_go_sdk.Producer.IoWorker.{
  SlsError, sls_error, Call, success_call, fail_call, append_attempt, mark_failed,
  add_error_message_to_batch_attempt, fail_calls, success_calls, shut_down_calls,
}

abbrev pub caller : Call → ℕ
caller (success_call c r) = c
caller (fail_call c r) = c

abbrev pub is_success : Call → Bool
is_success (success_call c r) = true
is_success (fail_call c r) = false

abbrev pub AllCalls : Bool → List Call → Type 0
AllCalls kind [] = Unit
AllCalls kind (c ∷ cs) = (is_success c ≡ kind) × AllCalls kind cs

-- Each callback of the batch is called once, in order, and with the same verdict.
abbrev pub CallsAll : Bool → ProducerBatch → List Call → Type 0
CallsAll kind b calls = (map caller calls ≡ b.call_back_list) × AllCalls kind calls

pub fail_calls-all :
    (r : Result) (cs : List ℕ)
    → (map caller (fail_calls r cs) ≡ cs) × AllCalls false (fail_calls r cs)
unfolding fail_calls
fail_calls-all r [] = (refl, tt)
fail_calls-all r (c ∷ cs) = let (all, kind) = fail_calls-all r cs in (ap (◌∷◌ c) all, (refl, kind))

pub success_calls-all :
    (r : Result) (cs : List ℕ)
    → (map caller (success_calls r cs) ≡ cs) × AllCalls true (success_calls r cs)
unfolding success_calls
success_calls-all r [] = (refl, tt)
success_calls-all r (c ∷ cs) =
    let (all, kind) = success_calls-all r cs in (ap (◌∷◌ c) all, (refl, kind))

-- With an error of the client's own type the message is always noted.
unfoldable pub noted : SlsError → ℤ → ℤ → ProducerBatch → ProducerBatch
noted e begin_ms now_ms b = mark_failed (
    if ltb_ℤ (pos b.attempt_count) b.max_reserved_attempts
    then append_attempt
        (create_attempt false e.request_id e.code e.message now_ms (now_ms -ℤ begin_ms)) b
    else b)

some_if {ℓ κ} :
    {A : Type ℓ} {B : Type κ} (f : A → B) (t : Bool) (x y : A)
    → (if t then some (f x) else some (f y)) ≡ some (f (if t then x else y))
some_if f true x y = refl
some_if f false x y = refl

pub add_error-noted :
    (e : SlsError) (begin_ms now_ms : ℤ) (b : ProducerBatch)
    → add_error_message_to_batch_attempt (sls_error e) begin_ms now_ms b
      ≡ some (noted e begin_ms now_ms b)
unfolding add_error_message_to_batch_attempt noted
add_error-noted e begin_ms now_ms b =
    some_if mark_failed (ltb_ℤ (pos b.attempt_count) b.max_reserved_attempts) _ b

-- At shutdown the calls are made with growing results, one for each callback.
pub shut_down-calls :
    (e : SlsError) (begin_ms : ℤ) (clock : ℕ → ℤ) (b : ProducerBatch) (cs : List ℕ)
    → (r : ProducerBatch × List Call) × (shut_down_calls (sls_error e) begin_ms clock b cs ≡ some r)
      × (map caller r.1 ≡ cs)
      × AllCalls false r.1
unfolding shut_down_calls
shut_down-calls e begin_ms clock b [] = ((b, []), refl, refl, tt)
shut_down-calls e begin_ms clock b (c ∷ cs) =
    let next = noted e begin_ms (clock 0) b in
    let (r, made, all, kind) = shut_down-calls e begin_ms (λ k. clock (suc k)) next cs in
    (
      (r.0, fail_call c next.result ∷ r.1),
      rw (add_error-noted e begin_ms (clock 0) b, made),
      ap (◌∷◌ c) all,
      (refl, kind),
    )

pub noted-keeps :
    (e : SlsError) (begin_ms now_ms : ℤ) (b : ProducerBatch)
    → let n = noted e begin_ms now_ms b in
      (n.call_back_list ≡ b.call_back_list)
      × (n.total_data_size ≡ b.total_data_size)
      × (n.attempt_count ≡ b.attempt_count + 1)
unfolding noted mark_failed append_attempt
noted-keeps e begin_ms now_ms b = ground arith
