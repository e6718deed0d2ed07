-- ===== src/Producer/System/Calling.antt =====
-- producer/io_worker.go: the steps of a worker that calls the callbacks of its batch.
use aliyun_log_go_sdk.Prelude.{inl, ℕ, ◌+◌, ◌≡◌, refl, ap, List, [], ◌∷◌, ◌++◌, arith, map}
use aliyun_log_go_sdk.Map.{Distinct, str_eq_instance}
use aliyun_log_go_sdk.Producer.IoWorker.{Call}
use aliyun_log_go_sdk.Producer.IoWorker.Calls.{caller}
use aliyun_log_go_sdk.Producer.System.{System}
use aliyun_log_go_sdk.Producer.System.Accept.{times}
use aliyun_log_go_sdk.Producer.System.Ledger.{owed, total, ledger}
use aliyun_log_go_sdk.Producer.System.Changes.{Refines, times-calls}

owed-out :
    (c : ℕ) (before after : List (List Call)) (cs : List Call)
    → owed c (before ++ cs ∷ after) ≡ times c (map caller cs) + owed c (before ++ after)
owed-out c [] after cs = refl
owed-out c (x ∷ before) after cs = omega (arith, owed-out c before after cs)

pub call-Refines :
    (s : System)
    → Distinct s.producer.log_group_data
    → (before after : List (List Call)) (x : Call) (cs : List Call)
    → s.calling ≡ before ++ (x ∷ cs) ∷ after
    → Refines s (record s { calling = before ++ cs ∷ after; calls = s.calls ++ x ∷ [] })
unfolding total ledger
call-Refines s d before after x cs at = (
  record {
    added = [];
    called = caller x ∷ [];
    due_then = λ c.
        omega (arith, ap (owed c) at, owed-out c before after (x ∷ cs), owed-out c before after cs);
    made_then = λ c. times-calls c s.calls (x ∷ []);
    asked_then = λ c. omega arith;
    one_kind = inl refl;
  },
  d,
)

pub called_all-Refines :
    (s : System)
    → Distinct s.producer.log_group_data
    → (before after : List (List Call)) → s.calling ≡ before ++ [] ∷ after
    → Refines s (record s { calling = before ++ after; finishing = s.finishing + 1 })
unfolding total ledger
called_all-Refines s d before after at = (
  record {
    added = [];
    called = [];
    due_then = λ c. omega (arith, ap (owed c) at, owed-out c before after []);
    made_then = λ c. omega arith;
    asked_then = λ c. omega arith;
    one_kind = inl refl;
  },
  d,
)
