-- ===== src/Consumer/HeartBeat.antt =====
-- consumer/heart_beat.go: which shards a consumer holds. The clock, in seconds, and the server's
-- answer are arguments. removeHeartShard stands with the tracker, its client.
pub mod Rounds
use aliyun_log_go_sdk.Prelude.{
  ℕ, Option, none, some, List, [], ◌++◌, Bool, true, false, if◌then◌else◌,
}
use aliyun_log_go_sdk.Prelude.Int.{ℤ, ◌+ℤ◌, ◌-ℤ◌, ltb_ℤ}
use aliyun_log_go_sdk.Consumer.Config.{LogHubConfig}
use aliyun_log_go_sdk.Consumer.Util.{set_of}

pub record ConsumerHeartBeat : Type 0 where
  pub shut_down_flag : Bool
  pub held_shards : List ℕ
  pub heart_shards : List ℕ
  pub last_heart_beat_success_time : ℤ

unfoldable pub init_consumer_heat_beat : ℤ → ConsumerHeartBeat
init_consumer_heat_beat now = record {
  shut_down_flag = false;
  held_shards = [];
  heart_shards = [];
  last_heart_beat_success_time = now;
}

abbrev pub shut_down_heart : ConsumerHeartBeat → ConsumerHeartBeat
shut_down_heart h = record h { shut_down_flag = true }

-- The request's list: `Set` of the shards that are reported and of those that are held.
abbrev pub uploaded : ConsumerHeartBeat → List ℕ
uploaded h = set_of (h.heart_shards ++ h.held_shards)

-- One round of `heartBeatRun`; the group's timeout is the option's. `now` is read after the answer,
-- which is `none` at an error.
abbrev after_answer : LogHubConfig → Option (List ℕ) → ℤ → ConsumerHeartBeat → ConsumerHeartBeat
after_answer o none now h =
    if ltb_ℤ (o.heartbeat_timeout_in_second +ℤ o.heartbeat_interval_in_second)
      (now -ℤ h.last_heart_beat_success_time)
    then (record h { held_shards = [] })
    else h
after_answer o (some response_shards) now h = record h {
  last_heart_beat_success_time = now;
  held_shards = response_shards;
}

unfoldable pub heart_beat_round :
    LogHubConfig → Option (List ℕ) → ℤ → ConsumerHeartBeat → ConsumerHeartBeat
heart_beat_round o answer now h = after_answer o answer now (record h { heart_shards = uploaded h })
