-- ===== src/Producer/System/Callbacks.antt =====
-- producer/: each callback of an accepted log is called once, or is still to be called.
use aliyun_log_go_sdk.Prelude.{ℕ, ◌+◌, ◌≡◌, refl, arith, map}
use aliyun_log_go_sdk.Prelude.Int.{ℤ}
use aliyun_log_go_sdk.Map.{Distinct, str_eq_instance}
use aliyun_log_go_sdk.Producer.Config.{ProducerConfig, validate_producer_config}
use aliyun_log_go_sdk.Producer.IoWorker.Calls.{caller}
use aliyun_log_go_sdk.Producer.System.{System, start, init_producer}
use aliyun_log_go_sdk.Producer.System.Steps.{Steps, here, then}
use aliyun_log_go_sdk.Producer.System.Accept.{times, listens}
use aliyun_log_go_sdk.Producer.System.Ledger.{total, owed, ledger}
use aliyun_log_go_sdk.Producer.System.Refine.{Step-Refines}

-- The calls that were asked for are those that were made and those that are still due.
abbrev pub Balanced : System → Type 0
Balanced s = (c : ℕ) → (ledger s).asked c ≡ (ledger s).made c + (ledger s).due c

pub Steps-Balanced :
    (pow2 : ℕ → ℤ) (config : ProducerConfig) (s : System)
    → Steps pow2 (start config) s
    → Balanced s × Distinct s.producer.log_group_data
unfolding start init_producer validate_producer_config ledger total
Steps-Balanced pow2 config s here = (λ c. refl, tt)
Steps-Balanced pow2 config s (then {t} run step) =
    let (balanced, d) = Steps-Balanced pow2 config t run in
    let (change, d') = Step-Refines pow2 t d s step in
    (λ c. omega (arith, balanced c, change.due_then c, change.made_then c, change.asked_then c), d')

-- In every state that a new producer comes to by steps of its goroutines, in any order, whatever
-- the server answers as long as its errors are the client's own: the times that a callback was
-- given with an accepted log are the times it was called, the times it stands in a batch that the
-- map, the thread pool, the retry queue or one of the goroutines holds, and the times a worker
-- that is done with its batch is still to call it. So it is called at most once for each log.
pub callbacks_called_once :
    (pow2 : ℕ → ℤ) (config : ProducerConfig) (s : System) (c : ℕ)
    → Steps pow2 (start config) s
    → times c s.accepted_callbacks
      ≡ times c (map caller s.calls) + (total (listens c) s + owed c s.calling)
unfolding ledger
callbacks_called_once pow2 config s c run = (Steps-Balanced pow2 config s run).0 c
