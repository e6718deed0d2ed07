-- ===== src/Consumer/HeartBeat/Rounds.antt =====
-- consumer/heart_beat.go: what a heartbeat reports and holds, and how a shard is given up.
use mathlib.Core.Bool.{true, false}
use aliyun_log_go_sdk.Prelude.{
  ℕ, ◌≡◌, ◌≢◌, refl, sym, subst, ◌∙◌, ◌⊎◌, inl, inr, Option, none, some, List, [], ◌∷◌, ◌++◌, ◌||◌,
  ◌==◌, ==_iff, Bool-cases, arith,
}
use aliyun_log_go_sdk.Prelude.Int.{ℤ, ◌+ℤ◌, ◌-ℤ◌, ◌≤ℤ◌, ltb_ℤ}
use aliyun_log_go_sdk.Consumer.Config.{LogHubConfig}
use aliyun_log_go_sdk.Consumer.Util.{contain}
use aliyun_log_go_sdk.Consumer.Util.Sets.{IsUnique, set_of_lem, contain-append}
use aliyun_log_go_sdk.Consumer.Tracker.{remove_heart_shard}
use aliyun_log_go_sdk.Consumer.HeartBeat.{ConsumerHeartBeat, uploaded, heart_beat_round}

-- What becomes of the held shards.
abbrev pub HeldAfter :
    LogHubConfig → Option (List ℕ) → ℤ → ConsumerHeartBeat → ConsumerHeartBeat → Type 0
HeldAfter o (some shards) now h k =
    (k.held_shards ≡ shards) × (k.last_heart_beat_success_time ≡ now)
HeldAfter o none now h k =
    (k.last_heart_beat_success_time ≡ h.last_heart_beat_success_time)
    × (((k.held_shards ≡ h.held_shards)
          × ((now -ℤ h.last_heart_beat_success_time)
              ≤ℤ (o.heartbeat_timeout_in_second +ℤ o.heartbeat_interval_in_second)))
        ⊎ ((k.held_shards ≡ [])
            × (ltb_ℤ (o.heartbeat_timeout_in_second +ℤ o.heartbeat_interval_in_second)
                  (now -ℤ h.last_heart_beat_success_time)
                ≡ true)))

abbrev Reports : ConsumerHeartBeat → List ℕ → Type 0
Reports h l =
    IsUnique l × ((x : ℕ) → contain x l ≡ contain x h.heart_shards || contain x h.held_shards)

uploaded-Reports : (h : ConsumerHeartBeat) → Reports h (uploaded h)
uploaded-Reports h =
    let (once, same) = set_of_lem (h.heart_shards ++ h.held_shards) in
    (once, λ x. same x ∙ contain-append x h.heart_shards h.held_shards)

-- A round of the heartbeat reports the shards that were reported or held, each once. With an
-- answer the held shards are the answer's; at an error they stay as they are while the last
-- success is at most the timeout and the interval ago, and otherwise none is held.
pub heart_beat_round_cases :
    (o : LogHubConfig) (answer : Option (List ℕ)) (now : ℤ) (h : ConsumerHeartBeat)
    → let k = heart_beat_round o answer now h in
      (IsUnique k.heart_shards
        × ((x : ℕ)
            → contain x k.heart_shards ≡ contain x h.heart_shards || contain x h.held_shards))
      × HeldAfter o answer now h k
unfolding heart_beat_round
heart_beat_round_cases o (some shards) now h = (uploaded-Reports h, (refl, refl))
heart_beat_round_cases o none now h =
    elim (Bool-cases (
      ltb_ℤ (o.heartbeat_timeout_in_second +ℤ o.heartbeat_interval_in_second)
        (now -ℤ h.last_heart_beat_success_time))) [
          | inl late ↦ rw late (uploaded-Reports h, (refl, inr (refl, refl)))
          | inr in_time ↦ rw in_time (uploaded-Reports h, (refl, inl (refl, ground arith)))
        ]

-- From a list that names no shard twice removeHeartShard takes just the given shard, and says
-- whether it was there.
pub remove_heart_shard_cases :
    (shard_id : ℕ) (hs : List ℕ)
    → IsUnique hs
    → let (deleted, rest) = remove_heart_shard shard_id hs in
      (deleted ≡ contain shard_id hs)
      × (contain shard_id rest ≡ false)
      × ((x : ℕ) → x ≢ shard_id → contain x rest ≡ contain x hs)
unfolding remove_heart_shard contain
remove_heart_shard_cases shard_id [] v = (refl, refl, λ x h. refl)
remove_heart_shard_cases shard_id (h ∷ hs) v =
    let (deleted, gone, others) = remove_heart_shard_cases shard_id hs v.1 in
    elim (Bool-cases (shard_id == h)) [
      | inl same ↦
          let once = subst (λ z. contain z hs ≡ false) (sym ((==_iff shard_id h).0 same)) v.0 in
          rw same (ground arith, once, λ x k. ground arith)
      | inr other ↦ rw other (ground arith, ground arith, λ x k. ground (arith, others x k))
    ]
