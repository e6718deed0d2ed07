-- ===== src/Producer/Accumulator/Order.antt =====
-- producer/log_accumulator.go: no log is lost, copied or reordered on its way to the thread pool.
use mathlib.Core.Path.{ap₂}
use mathlib.Core.List.{append-nil, append_assoc}
use aliyun_log_go_sdk.Prelude.{
  ℕ, ◌≡◌, ◌≢◌, refl, sym, ap, ◌∙◌, Option, none, some, List, [], ◌∷◌, ◌++◌, Str,
}
use aliyun_log_go_sdk.Map.{
  str_eq_instance, lookup, delete, lookup-insert_self, lookup-insert_ne, lookup-delete_self,
  lookup-delete_ne,
}
use aliyun_log_go_sdk.Producer.Batch.{
  LogData, ProducerBatch, Env, logs_of, batch_logs, callbacks, add_log_to_log_group,
  add_producer_batch_call_back,
}
use aliyun_log_go_sdk.Producer.State.{Producer}
use aliyun_log_go_sdk.Producer.Accumulator.{
  Target, get_key_string, with_log, grow_batch, accepted, add_log_to_producer_batch,
}
use aliyun_log_go_sdk.Producer.Accumulator.Change.{
  Change, IsNew, fresh, joined, sent, replaced, add_log-Change,
}

module _ {ℓ} {A : Type ℓ} (part : ProducerBatch → List A) where
  -- What the batches of a list hold, in order.
  abbrev pub flat : List ProducerBatch → List A
  flat [] = []
  flat (b ∷ bs) = part b ++ flat bs

  -- What the map's batch of a key holds.
  abbrev pub held : Option ProducerBatch → List A
  held none = []
  held (some b) = part b

  pub flat-append : (bs cs : List ProducerBatch) → flat (bs ++ cs) ≡ flat bs ++ flat cs
  flat-append [] cs = refl
  flat-append (b ∷ bs) cs =
      ap (◌++◌ (part b)) (flat-append bs cs) ∙ sym (append_assoc (part b) (flat bs) (flat cs))

  -- What is on its way to the server from the key's logs: the queue first, then the key's batch.
  abbrev pub pending : Str → Producer → List A
  pending key p = flat p.queue ++ held (lookup key p.log_group_data)

  pub pending-push :
      (q : List ProducerBatch) (b : ProducerBatch) (rest new : List A)
      → part b ++ rest ≡ new
      → flat (q ++ b ∷ []) ++ rest ≡ flat q ++ new
  pending-push q b rest new e =
      ap (λ xs. xs ++ rest) (flat-append q (b ∷ []) ∙ ap (◌++◌ (flat q)) (append-nil (part b)))
      ∙ append_assoc (flat q) (part b) rest
      ∙ ap (◌++◌ (flat q)) e

abbrev pub listeners : ProducerBatch → List ℕ
listeners b = b.call_back_list

-- The effect on one part of a batch, its logs or its callbacks, which a log or a callback joins at
-- the end.
module _ {ℓ} {A : Type ℓ} (part : ProducerBatch → List A) (new : List A) (key : Str) (d : LogData)
    (call_back : Option ℕ)
    (joins : (n : ℕ) (b : ProducerBatch)
      → part (with_log d call_back (grow_batch n b)) ≡ part b ++ new)
    (grows : (n : ℕ) (b : ProducerBatch) → part (grow_batch n b) ≡ part b) where
  settle :
      (p q : Producer) (queue : List ProducerBatch) (before after : Option ProducerBatch)
      → lookup key p.log_group_data ≡ before
      → q.queue ≡ queue
      → lookup key q.log_group_data ≡ after
      → flat part queue ++ held part after ≡ flat part p.queue ++ (held part before ++ new)
      → pending part key q ≡ pending part key p ++ new
  settle p q queue before after old queued found e =
      ap₂ (λ bs o. flat part bs ++ held part o) queued found
      ∙ e
      ∙ ap (λ o. flat part p.queue ++ (held part o ++ new)) (sym old)
      ∙ sym (append_assoc (flat part p.queue) (held part (lookup key p.log_group_data)) new)

  Change-pending :
      (p q : Producer)
      → ((b : ProducerBatch) → IsNew d call_back b → part b ≡ new)
      → Change key d call_back p q
      → pending part key q ≡ pending part key p ++ new
  Change-pending p q news (fresh b missing is_new mapped queued sized) =
      settle p q p.queue none (some b) missing queued
        (ap (lookup key) mapped ∙ lookup-insert_self key b p.log_group_data)
        (ap (◌++◌ (flat part p.queue)) (news b is_new))
  Change-pending p q news (joined b n found takes mapped queued sized) =
      settle p q p.queue (some b) (some (with_log d call_back (grow_batch n b))) found queued
        (ap (lookup key) mapped ∙ lookup-insert_self key _ p.log_group_data)
        (ap (◌++◌ (flat part p.queue)) (joins n b))
  Change-pending p q news (sent b n found sends mapped queued sized) =
      settle p q (p.queue ++ with_log d call_back (grow_batch n b) ∷ []) (some b) none found queued
        (ap (lookup key) mapped ∙ lookup-delete_self key p.log_group_data)
        (pending-push part p.queue _ [] (part b ++ new) (append-nil _ ∙ joins n b))
  Change-pending p q news (replaced b fresh_batch n found keeps full is_new mapped queued sized) =
      settle p q (p.queue ++ grow_batch n b ∷ []) (some b) (some fresh_batch) found queued
        (ap (lookup key) mapped ∙ lookup-insert_self key fresh_batch (delete key p.log_group_data))
        (pending-push part p.queue _ (part fresh_batch) (part b ++ new)
          (ap₂ (λ xs ys. xs ++ ys) (grows n b) (news fresh_batch is_new)))

Change-others :
    (key : Str) (d : LogData) (call_back : Option ℕ) (p q : Producer) (j : Str)
    → j ≢ key
    → Change key d call_back p q
    → lookup j q.log_group_data ≡ lookup j p.log_group_data
Change-others key d call_back p q j h (fresh b missing is_new mapped queued sized) =
    ap (lookup j) mapped ∙ lookup-insert_ne key j b p.log_group_data h
Change-others key d call_back p q j h (joined b n found takes mapped queued sized) =
    ap (lookup j) mapped ∙ lookup-insert_ne key j _ p.log_group_data h
Change-others key d call_back p q j h (sent b n found sends mapped queued sized) =
    ap (lookup j) mapped ∙ lookup-delete_ne key j p.log_group_data h
Change-others key d call_back p q j h
      (replaced b new n found keeps full is_new mapped queued sized) =
    ap (lookup j) mapped
    ∙ lookup-insert_ne key j new (delete key p.log_group_data) h
    ∙ lookup-delete_ne key j p.log_group_data h

-- When a call accepts logs, the logs of its key that are in the thread pool's queue and in the
-- key's batch are the ones before, then the new ones, in order; so are the callbacks; and the
-- batches of all other keys are as before.
pub add_log_keeps_order :
    (env : Env) (t : Target) (d : LogData) (call_back : Option ℕ) (p q : Producer)
    → add_log_to_producer_batch env t d call_back p ≡ accepted q
    → let key = get_key_string t in
      (pending batch_logs key q ≡ pending batch_logs key p ++ logs_of d)
      × (pending listeners key q ≡ pending listeners key p ++ callbacks call_back)
      × ((j : Str) → j ≢ key → lookup j q.log_group_data ≡ lookup j p.log_group_data)
unfolding add_log_to_log_group add_producer_batch_call_back
add_log_keeps_order env t d call_back p q e =
    let key = get_key_string t in
    let change = add_log-Change env t d call_back p q e in
    (
      Change-pending batch_logs (logs_of d) key d call_back (λ n b. refl) (λ n b. refl) p q
          (λ b v. v.logs) change,
      Change-pending listeners (callbacks call_back) key d call_back (λ n b. refl) (λ n b. refl) p q
          (λ b v. v.listeners) change,
      λ j h. Change-others key d call_back p q j h change,
    )
