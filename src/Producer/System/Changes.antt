-- ===== src/Producer/System/Changes.antt =====
-- producer/: the steps that change the ledger, and what the others do to the places of batches.
use aliyun_log_go_sdk.Prelude.{
  inl, inr, ℕ, ◌+◌, ◌≡◌, refl, sym, ap, subst, ◌∙◌, some, List, [], ◌∷◌, ◌++◌, Bool, Str, arith,
  map,
}
use aliyun_log_go_sdk.Prelude.Int.{ℤ}
use aliyun_log_go_sdk.Map.{Distinct, str_eq_instance}
use aliyun_log_go_sdk.Producer.Batch.{ProducerBatch, callbacks}
use aliyun_log_go_sdk.Producer.State.{Producer, IoWorker, RetryQueue}
use aliyun_log_go_sdk.Producer.RetryQueue.{get_retry_batch}
use aliyun_log_go_sdk.Producer.Mover.{entries_values}
use aliyun_log_go_sdk.Producer.IoWorker.{Call, Sent, send_to_server}
use aliyun_log_go_sdk.Producer.IoWorker.Calls.{caller}
use aliyun_log_go_sdk.Producer.IoWorker.Outcomes.{OwnError}
use aliyun_log_go_sdk.Producer.System.{as_read, System, Answered, Entering, ending, emptying}
use aliyun_log_go_sdk.Producer.Accumulator.{accepted, add_by_type, set_data}
use aliyun_log_go_sdk.Producer.System.Weight.{
  SameMap, weight, map_weight, weight-append, map_weight-same,
}
use aliyun_log_go_sdk.Producer.System.Conserve.{weight-entries_values, retry-weight}
use aliyun_log_go_sdk.Producer.System.Accept.{
  times, times-append, listens, by_type-listens, by_type-Frame,
}
use aliyun_log_go_sdk.Producer.System.Answer.{Acts, send-Acts}
use aliyun_log_go_sdk.Producer.System.Ledger.{in_hand, batches_of, owed, total, ledger, LedgerStep}

-- A step that only moves batches from place to place.
pub quiet :
    (s t : System)
    → ((w : ProducerBatch → ℕ) → total w t ≡ total w s)
    → t.calling ≡ s.calling
    → t.calls ≡ s.calls
    → t.accepted_callbacks ≡ s.accepted_callbacks
    → LedgerStep (ledger s) (ledger t)
unfolding ledger
quiet s t same calling calls asked = record {
  added = [];
  called = [];
  due_then = λ c. omega (arith, same (listens c), ap (owed c) calling);
  made_then = λ c. omega (arith, ap (λ cs. times c (map caller cs)) calls);
  asked_then = λ c. omega (arith, ap (times c) asked);
  one_kind = inl refl;
}

batches_of-append : (a b : List Answered) → batches_of (a ++ b) ≡ batches_of a ++ batches_of b
batches_of-append [] b = refl
batches_of-append (x ∷ a) b = ap (λ t. x.batch ∷ t) (batches_of-append a b)

-- One batch taken out of a list.
pub weight-out :
    (w : ProducerBatch → ℕ) (before after : List ProducerBatch) (b : ProducerBatch)
    → weight w (before ++ b ∷ after) ≡ w b + weight w (before ++ after)
weight-out w before after b =
    omega (arith, weight-append w before (b ∷ after), weight-append w before after)

weight-answered :
    (w : ProducerBatch → ℕ) (before after : List Answered) (a : Answered)
    → weight w (batches_of (before ++ a ∷ after))
      ≡ w a.batch + weight w (batches_of (before ++ after))
weight-answered w before after a =
    ap (weight w) (batches_of-append before (a ∷ after))
    ∙ weight-out w (batches_of before) (batches_of after) a.batch
    ∙ ap (λ t. w a.batch + weight w t) (sym (batches_of-append before after))

pub times-calls :
    (c : ℕ) (a b : List Call)
    → times c (map caller (a ++ b)) ≡ times c (map caller a) + times c (map caller b)
times-calls c [] b = omega arith
times-calls c (x ∷ a) b = omega (arith, times-calls c a b)

pub taken-weight :
    (w : ProducerBatch → ℕ) (flag : Bool) (clock : ℕ → ℤ) (retries : List ProducerBatch)
    (q left : RetryQueue)
    → get_retry_batch flag clock q ≡ (retries, left)
    → weight w retries + weight w left.batch ≡ weight w q.batch
taken-weight w flag clock retries q left e =
    sym (ap (λ (t : List ProducerBatch × RetryQueue). weight w t.0 + weight w t.1.batch) e)
    ∙ retry-weight w flag clock q

-- What is promised of one step.
abbrev pub Refines : System → System → Type 0
Refines s t = LedgerStep (ledger s) (ledger t) × Distinct t.producer.log_group_data

pub accept-Refines :
    (s : System)
    → Distinct s.producer.log_group_data
    → (before after : List Entering) (e : Entering) (q : Producer)
    → s.entering ≡ before ++ e ∷ after
    → add_by_type e.env e.target e.log_data e.call_back s.producer ≡ accepted q
    → Refines s (record s {
      producer = q;
      entering = before ++ after;
      accepted_callbacks = callbacks e.call_back ++ s.accepted_callbacks;
    })
unfolding total ledger
accept-Refines s d before after e q at_gate taken =
    let sum : (c : ℕ) → _ =
      λ c. (by_type-listens c e.env e.target e.log_data e.call_back s.producer q d taken).0 in
    let (retries, worker) =
      by_type-Frame e.env e.target e.log_data e.call_back s.producer q taken in
    (
      record {
        added = callbacks e.call_back;
        called = [];
        due_then = λ c. omega (
          arith,
          sum c,
          ap (λ (r : RetryQueue). weight (listens c) r.batch) retries,
          ap (λ (r : IoWorker). weight (listens c) r.sending) worker,
        );
        made_then = λ c. omega arith;
        asked_then =
            λ c. omega (arith, times-append c (callbacks e.call_back) s.accepted_callbacks);
        one_kind = inr refl;
      },
      (by_type-listens 0 e.env e.target e.log_data e.call_back s.producer q d taken).1,
    )

pub empty_map-Refines :
    (s : System)
    → Distinct s.producer.log_group_data
    → (entries : List (Str × ProducerBatch)) → s.mover ≡ ending
    → Distinct entries
    → SameMap entries s.producer.log_group_data
    → Refines s
        (record s { producer = set_data [] s.producer; mover = emptying (entries_values entries) })
unfolding total
empty_map-Refines s d entries at de same = (
  quiet s _
      (λ w. omega (
        arith,
        weight-entries_values w entries,
        map_weight-same w entries s.producer.log_group_data de d same,
        ap (λ m. weight w (in_hand m)) at,
      ))
      refl refl refl,
  tt,
)

pub act-Refines :
    (pow2 : ℕ → ℤ) (s : System)
    → Distinct s.producer.log_group_data
    → (before after : List Answered) (a : Answered) (clock : ℕ → ℤ) (sent : Sent)
    → s.answered ≡ before ++ a ∷ after
    → OwnError a.answer
    → send_to_server pow2 a.answer clock a.batch (as_read a.shut_down s.producer) ≡ some sent
    → Refines s (record s {
      producer = as_read s.producer.retry_queue_shut_down_flag sent.producer;
      answered = before ++ after;
      calling = sent.calls ∷ s.calling;
    })
unfolding total ledger
act-Refines pow2 s d before after a clock sent at own made =
    let acts : (c : ℕ) → Acts c a.batch (as_read a.shut_down s.producer) sent =
      λ c. send-Acts c pow2 a.answer clock a.batch (as_read a.shut_down s.producer) sent own made in
    (
      record {
        added = [];
        called = [];
        due_then = λ c.
            let w = listens c in
            omega (
              arith,
              (acts c).settled,
              ap (weight w) (acts c).queued,
              ap (map_weight w) (acts c).mapped,
              ap (λ (r : IoWorker). weight w r.sending) (acts c).worker,
              ap (λ t. weight w (batches_of t)) at,
              weight-answered w before after a,
            );
        made_then = λ c. omega arith;
        asked_then = λ c. omega arith;
        one_kind = inl refl;
      },
      subst Distinct (sym (acts 0).mapped) d,
    )
