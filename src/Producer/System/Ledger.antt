-- ===== src/Producer/System/Ledger.antt =====
-- producer/: what the running producer promises of the callbacks, and that every step keeps it.
-- The promise forgets the batches and their places: it counts, for each callback, the calls that
-- are still to come, those that were made, and those that were asked for.
use aliyun_log_go_sdk.Prelude.{◌⊎◌, ℕ, ◌+◌, ◌≡◌, List, [], ◌∷◌, map}
use aliyun_log_go_sdk.Map.{str_eq_instance}
use aliyun_log_go_sdk.Producer.Batch.{ProducerBatch}
use aliyun_log_go_sdk.Producer.IoWorker.Calls.{caller}
use aliyun_log_go_sdk.Producer.System.{
  System, MoverPc, PoolPc, Answered, popped, counted, handing, handing_last, emptying, placed,
}
use aliyun_log_go_sdk.Producer.IoWorker.{Call}
use aliyun_log_go_sdk.Producer.System.Weight.{weight, map_weight}
use aliyun_log_go_sdk.Producer.System.Accept.{times, listens}

-- The batches that the mover holds on their way to the thread pool.
abbrev pub in_hand : MoverPc → List ProducerBatch
in_hand (handing bs) = bs
in_hand (emptying bs) = bs
in_hand (handing_last bs) = bs
in_hand _ = []

-- The batch that the loop of the thread pool holds.
abbrev pub task : PoolPc → List ProducerBatch
task (popped b) = b ∷ []
task (counted b) = b ∷ []
task (placed b) = b ∷ []
task _ = []

abbrev pub batches_of : List Answered → List ProducerBatch
batches_of [] = []
batches_of (a ∷ rest) = a.batch ∷ batches_of rest

-- What all places of the producer add up to.
unfoldable pub total : (ProducerBatch → ℕ) → System → ℕ
total w s =
    weight w s.producer.queue
    + map_weight w s.producer.log_group_data
    + weight w s.producer.retry_queue.batch
    + weight w s.producer.sending
    + weight w (batches_of s.answered)
    + weight w (in_hand s.mover)
    + weight w (task s.pool)

-- The calls of a callback that workers which are done with their batch are still to make.
abbrev pub owed : ℕ → List (List Call) → ℕ
owed c [] = 0
owed c (cs ∷ rest) = times c (map caller cs) + owed c rest

pub record Ledger : Type 0 where
  pub due : ℕ → ℕ
  pub made : ℕ → ℕ
  pub asked : ℕ → ℕ

unfoldable pub ledger : System → Ledger
unfolding total
ledger s = record {
  due = λ c. total (listens c) s + owed c s.calling;
  made = λ c. times c (map caller s.calls);
  asked = λ c. times c s.accepted_callbacks;
}

-- A step asks for calls, which are due then, and makes calls, which were due.
pub record LedgerStep (a b : Ledger) : Type 0 where
  pub added : List ℕ
  pub called : List ℕ
  pub due_then : (c : ℕ) → b.due c + times c called ≡ a.due c + times c added
  pub made_then : (c : ℕ) → b.made c ≡ a.made c + times c called
  pub asked_then : (c : ℕ) → b.asked c ≡ a.asked c + times c added
  -- one of the two at most
  pub one_kind : (added ≡ []) ⊎ (called ≡ [])
