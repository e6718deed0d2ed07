-- ===== src/Producer/Mover/Rounds.antt =====
-- producer/mover.go: which batches one round of the mover sends, and how long it sleeps.
use mathlib.Core.Bool.{true, false}
use mathlib.Core.List.{append-nil, append_assoc}
use aliyun_log_go_sdk.Prelude.{
  ℕ, suc, ◌≡◌, refl, sym, ap, subst, ◌∙◌, ◌⊎◌, inl, inr, List, [], ◌∷◌, ◌++◌, Bool-cases,
  Option-cases, Str, arith, if◌then◌else◌,
}
use aliyun_log_go_sdk.Prelude.Int.{ℤ, pos, ◌≤ℤ◌, ◌+ℤ◌, ◌-ℤ◌, ltb_ℤ}
use aliyun_log_go_sdk.Map.{str_eq_instance, lookup}
use aliyun_log_go_sdk.Producer.Batch.{ProducerBatch}
use aliyun_log_go_sdk.Producer.Config.{leb_ℤ}
use aliyun_log_go_sdk.Producer.State.{Producer}
use aliyun_log_go_sdk.Producer.ThreadPool.{add_task}
use aliyun_log_go_sdk.Producer.Mover.{mover_send_to_server, scan_map}

-- The sleep found is at most the one given, and no longer than any batch still has to wait that
-- was not yet due when the round began.
abbrev pub Wakes : ℤ → ℤ → ℤ → List (Str × ProducerBatch) → Type 0
Wakes linger_ms now_ms sleep_ms [] = Unit {0}
Wakes linger_ms now_ms sleep_ms ((key, b) ∷ entries) =
    (((b.create_time_ms +ℤ linger_ms -ℤ now_ms) ≤ℤ pos 0)
      ⊎ (sleep_ms ≤ℤ (b.create_time_ms +ℤ linger_ms -ℤ now_ms)))
    × Wakes linger_ms now_ms sleep_ms entries

send-config :
    (now_ms : ℤ) (key : Str) (b : ProducerBatch) (p : Producer)
    → (mover_send_to_server now_ms key b p).producer_config ≡ p.producer_config
unfolding mover_send_to_server
send-config now_ms key b p = elim (Option-cases (lookup key p.log_group_data)) [
  | inl absent ↦ rw (absent, mover_send_to_server) refl
  | inr (v, found) ↦
      elim (Bool-cases (ltb_ℤ (now_ms -ℤ v.create_time_ms) p.producer_config.linger_ms)) [
        | inl early ↦ rw (found, early, mover_send_to_server) refl
        | inr late ↦ rw (found, late, mover_send_to_server) refl
      ]
]

abbrev pub Aged : ℤ → ℤ → List ProducerBatch → Type 0
Aged linger_ms now_ms [] = Unit {0}
Aged linger_ms now_ms (b ∷ bs) =
    ((b.create_time_ms +ℤ linger_ms -ℤ now_ms) ≤ℤ pos 0) × Aged linger_ms now_ms bs

-- What a batch whose time is up leaves: the queue as it is, or with the batch at its end.
send-queue :
    (now_ms : ℤ) (key : Str) (b : ProducerBatch) (p : Producer)
    → ((mover_send_to_server now_ms key b p).queue ≡ p.queue)
      ⊎ ((mover_send_to_server now_ms key b p).queue ≡ p.queue ++ b ∷ [])
unfolding mover_send_to_server add_task
send-queue now_ms key b p = elim (Option-cases (lookup key p.log_group_data)) [
  | inl absent ↦ inl (rw (absent, mover_send_to_server) refl)
  | inr (v, found) ↦
      elim (Bool-cases (ltb_ℤ (now_ms -ℤ v.create_time_ms) p.producer_config.linger_ms)) [
        | inl early ↦ inl (rw (found, early, mover_send_to_server) refl)
        | inr late ↦ inr (rw (found, late, mover_send_to_server) refl)
      ]
]

abbrev Moved : ℤ → List (Str × ProducerBatch) → ℤ → Producer → ℤ → ℤ × Producer → Type 0
Moved now_ms entries sleep_ms p linger_ms (sleep, q) =
    ((sent : List ProducerBatch) × (q.queue ≡ p.queue ++ sent) × Aged linger_ms now_ms sent)
    × (sleep ≤ℤ sleep_ms)
    × Wakes linger_ms now_ms sleep entries

queue_grows :
    (linger_ms now_ms : ℤ) (b : ProducerBatch) (p q r : Producer)
    → (b.create_time_ms +ℤ linger_ms -ℤ now_ms) ≤ℤ pos 0
    → (q.queue ≡ p.queue) ⊎ (q.queue ≡ p.queue ++ b ∷ [])
    → (sent : List ProducerBatch) × (r.queue ≡ q.queue ++ sent) × Aged linger_ms now_ms sent
    → (sent : List ProducerBatch) × (r.queue ≡ p.queue ++ sent) × Aged linger_ms now_ms sent
queue_grows linger_ms now_ms b p q r due (inl same) (sent, e, aged) =
    (sent, e ∙ ap (λ l. l ++ sent) same, aged)
queue_grows linger_ms now_ms b p q r due (inr one) (sent, e, aged) =
    (b ∷ sent, e ∙ (ap (λ l. l ++ sent) one ∙ append_assoc p.queue (b ∷ []) sent), (due, aged))

leb_true : (a b : ℤ) → leb_ℤ a b ≡ true → a ≤ℤ b
leb_true a b h = ground arith

shorter : (a b c : ℤ) → c ≤ℤ (if ltb_ℤ a b then a else b) → (c ≤ℤ b) × (c ≤ℤ a)
shorter a b c h = ground arith

pub scan_up :
    (now_ms : ℤ) (clock : ℕ → ℤ) (key : Str) (b : ProducerBatch)
    (entries : List (Str × ProducerBatch)) (sleep_ms : ℤ) (p : Producer)
    → leb_ℤ (b.create_time_ms +ℤ p.producer_config.linger_ms -ℤ now_ms) (pos 0) ≡ true
    → scan_map now_ms clock ((key, b) ∷ entries) sleep_ms p
      ≡ scan_map now_ms
          (λ k. clock (suc k))
          entries
          sleep_ms
          (mover_send_to_server (clock 0) key b p)
unfolding scan_map
scan_up now_ms clock key b entries sleep_ms p up =
    ap
      (λ t. elim t as (λ x. ℤ × Producer) [
        | true ↦
            scan_map now_ms (λ k. clock (suc k)) entries sleep_ms
              (mover_send_to_server (clock 0) key b p)
        | false ↦
            scan_map now_ms clock entries
              (if ltb_ℤ (b.create_time_ms +ℤ p.producer_config.linger_ms -ℤ now_ms) sleep_ms
                then b.create_time_ms +ℤ p.producer_config.linger_ms -ℤ now_ms
                else sleep_ms)
              p
      ])
      up

pub scan_early :
    (now_ms : ℤ) (clock : ℕ → ℤ) (key : Str) (b : ProducerBatch)
    (entries : List (Str × ProducerBatch)) (sleep_ms : ℤ) (p : Producer)
    → let interval = b.create_time_ms +ℤ p.producer_config.linger_ms -ℤ now_ms in
      leb_ℤ interval (pos 0) ≡ false
      → scan_map now_ms clock ((key, b) ∷ entries) sleep_ms p
        ≡ scan_map now_ms clock entries (if ltb_ℤ interval sleep_ms then interval else sleep_ms) p
unfolding scan_map
scan_early now_ms clock key b entries sleep_ms p early =
    ap
      (λ t. elim t as (λ x. ℤ × Producer) [
        | true ↦
            scan_map now_ms (λ k. clock (suc k)) entries sleep_ms
              (mover_send_to_server (clock 0) key b p)
        | false ↦
            scan_map now_ms clock entries
              (if ltb_ℤ (b.create_time_ms +ℤ p.producer_config.linger_ms -ℤ now_ms) sleep_ms
                then b.create_time_ms +ℤ p.producer_config.linger_ms -ℤ now_ms
                else sleep_ms)
              p
      ])
      early

scan-Moved :
    (linger_ms now_ms : ℤ) (clock : ℕ → ℤ) (entries : List (Str × ProducerBatch)) (sleep_ms : ℤ)
    (p : Producer)
    → p.producer_config.linger_ms ≡ linger_ms
    → Moved now_ms entries sleep_ms p linger_ms (scan_map now_ms clock entries sleep_ms p)
unfolding scan_map
scan-Moved linger_ms now_ms clock [] sleep_ms p e =
    (([], sym (append-nil p.queue), tt), omega arith, tt)
scan-Moved linger_ms now_ms clock ((key, b) ∷ entries) sleep_ms p e =
    let interval = b.create_time_ms +ℤ p.producer_config.linger_ms -ℤ now_ms in
    let same : interval ≡ b.create_time_ms +ℤ linger_ms -ℤ now_ms =
      ap (λ l. b.create_time_ms +ℤ l -ℤ now_ms) e in
    elim (Bool-cases (leb_ℤ interval (pos 0))) [
      | inl up ↦
          let due = subst (λ t. t ≤ℤ pos 0) same (leb_true interval (pos 0) up) in
          let q = mover_send_to_server (clock 0) key b p in
          let (sent, sleep, wakes) =
            scan-Moved linger_ms now_ms (λ k. clock (suc k)) entries sleep_ms q
              (ap (λ c. c.linger_ms) (send-config (clock 0) key b p) ∙ e) in
          subst (λ r. Moved now_ms ((key, b) ∷ entries) sleep_ms p linger_ms r)
            (sym (scan_up now_ms clock key b entries sleep_ms p up))
            (
              queue_grows linger_ms now_ms b p q
                  (scan_map now_ms (λ k. clock (suc k)) entries sleep_ms q).1 due
                  (send-queue (clock 0) key b p) sent,
              sleep,
              (inl due, wakes),
            )
      | inr early ↦
          let shortest = if ltb_ℤ interval sleep_ms then interval else sleep_ms in
          let (sent, sleep, wakes) = scan-Moved linger_ms now_ms clock entries shortest p e in
          let (at_most, in_time) = shorter interval sleep_ms _ sleep in
          subst (λ r. Moved now_ms ((key, b) ∷ entries) sleep_ms p linger_ms r)
            (sym (scan_early now_ms clock key b entries sleep_ms p early))
            (
              sent,
              at_most,
              (
                inr (subst (λ t. (scan_map now_ms clock entries shortest p).0 ≤ℤ t) same in_time),
                wakes,
              ),
            )
    ]

-- A scan of the map moves to the thread pool, behind the tasks there, only batches whose linger
-- time was over when the round began; the sleep it finds is at most the one it is given and ends
-- no later than the linger time of any batch visited whose time was not over.
pub scan_map_moves :
    (now_ms : ℤ) (clock : ℕ → ℤ) (entries : List (Str × ProducerBatch)) (sleep_ms : ℤ)
    (p : Producer)
    → let linger_ms = p.producer_config.linger_ms in
      let (sleep, q) = scan_map now_ms clock entries sleep_ms p in
      ((sent : List ProducerBatch) × (q.queue ≡ p.queue ++ sent) × Aged linger_ms now_ms sent)
      × (sleep ≤ℤ sleep_ms)
      × Wakes linger_ms now_ms sleep entries
scan_map_moves now_ms clock entries sleep_ms p =
    scan-Moved p.producer_config.linger_ms now_ms clock entries sleep_ms p refl
