-- ===== src/Consumer/Config.antt =====
-- consumer/config.go, and the defaults that initConsumerClient of consumer_client.go sets.
-- Left out of the record: the settings of the log file and of the client, which are handed to
-- other packages only, and the names of project, logstore, group and consumer.
use aliyun_log_go_sdk.Prelude.{zero, ◌*◌, Bool, Str}
use aliyun_log_go_sdk.Prelude.Int.{ℤ, pos, ◌*ℤ◌}

-- `CursorPosition`: the three constants, or another string.
pub data CursorPosition : Type 0 where
  begin_cursor end_cursor special_timer_cursor other_cursor : CursorPosition

pub record LogHubConfig : Type 0 where
  pub query : Str
  pub cursor_position : CursorPosition
  pub heartbeat_interval_in_second : ℤ
  pub heartbeat_timeout_in_second : ℤ
  pub data_fetch_interval_in_ms : ℤ
  pub max_fetch_log_group_count : ℤ
  pub cursor_start_time : ℤ
  pub in_order : Bool
  pub auto_commit_disabled : Bool
  pub auto_commit_interval_in_ms : ℤ

-- `option.X == 0` and the default.
abbrev or_default : ℤ → ℤ → ℤ
or_default (pos zero) d = d
or_default z d = z

-- The defaults of `initConsumerClient`; the timeout's depends on the interval's.
unfoldable pub init_consumer_client : LogHubConfig → LogHubConfig
init_consumer_client c =
    let interval = or_default c.heartbeat_interval_in_second (pos 20) in
    record c {
      heartbeat_interval_in_second = interval;
      heartbeat_timeout_in_second = or_default c.heartbeat_timeout_in_second (interval *ℤ pos 3);
      data_fetch_interval_in_ms = or_default c.data_fetch_interval_in_ms (pos 200);
      max_fetch_log_group_count = or_default c.max_fetch_log_group_count (pos 1000);
      auto_commit_interval_in_ms = or_default c.auto_commit_interval_in_ms (pos (60 * 1000));
    }
