-- ===== src/LogPb/Marshal.antt =====
-- log.pb.go: the Marshal methods. Each fills a buffer of Size() bytes from its end; here the bytes
-- are put together from the front. `none` is RequiredNotSetError.
pub mod Length
pub mod Sizes
pub mod Required
use aliyun_log_go_sdk.Prelude.{
  ℕ, ◌/◌, ◌%◌, ◌^◌, Option, none, some, List, [], ◌∷◌, ◌++◌, Str, ◌>>=◌, length, ◌+◌,
}
use aliyun_log_go_sdk.LogPb.{
  LogContent, Log, LogTag, LogGroup, encode_varint_log, size_each, size_log_group,
}

-- A tag, a length and the bytes: a field of wire type 2.
unfoldable pub delimited : ℕ → Str → Str
delimited tag v = tag ∷ encode_varint_log 9 (length v) ++ v

abbrev pub optional : ℕ → Option Str → Str
optional tag none = []
optional tag (some v) = delimited tag v

unfoldable pub marshal_log_content : LogContent → Option Str
marshal_log_content m = do
  value ← m.value
  key ← m.key
  some (delimited 0xa key ++ (delimited 0x12 value ++ m.xxx_unrecognized))

unfoldable pub marshal_log_tag : LogTag → Option Str
marshal_log_tag m = do
  value ← m.value
  key ← m.key
  some (delimited 0xa key ++ (delimited 0x12 value ++ m.xxx_unrecognized))

-- A repeated field of messages: one message before those that are written already.
abbrev pub join_parts : ℕ → Option Str → Option Str → Option Str
join_parts tag none one = none
join_parts tag (some rest) none = none
join_parts tag (some rest) (some one) = some (delimited tag one ++ rest)

unfoldable pub marshal_each : {M : Type 0} → (M → Option Str) → ℕ → List M → Option Str
marshal_each marshal tag [] = some []
marshal_each marshal tag (m ∷ ms) = join_parts tag (marshal_each marshal tag ms) (marshal m)

-- A varint field: its tag and the number.
unfoldable pub marshal_varint : ℕ → ℕ → Str
marshal_varint tag v = tag ∷ encode_varint_log 9 v

-- A fixed32 field: its tag and four bytes, the lowest first.
abbrev pub marshal_fixed32 : ℕ → Option ℕ → Str
marshal_fixed32 tag none = []
marshal_fixed32 tag (some v) =
    tag ∷ v % 256 ∷ v / 2 ^ 8 % 256 ∷ v / 2 ^ 16 % 256 ∷ v / 2 ^ 24 % 256 ∷ []

unfoldable pub marshal_log : Log → Option Str
unfolding marshal_each
marshal_log m = do
  contents ← marshal_each marshal_log_content 0x12 m.contents
  time ← m.time
  some (
      marshal_varint 0x8 time
      ++ (contents ++ (marshal_fixed32 0x25 m.time_ns ++ m.xxx_unrecognized)))

unfoldable pub marshal_log_group : LogGroup → Option Str
marshal_log_group m = do
  log_tags ← marshal_each marshal_log_tag 0x32 m.log_tags
  logs ← marshal_each marshal_log 0xa m.logs
  some (
      logs
      ++ (optional 0x12 m.category
          ++ (optional 0x1a m.topic
              ++ (optional 0x22 m.source
                  ++ (optional 0x2a m.machine_uuid ++ (log_tags ++ m.xxx_unrecognized))))))

pub record LogGroupList : Type 0 where
  pub log_groups : List LogGroup
  pub xxx_unrecognized : Str

unfoldable pub marshal_log_group_list : LogGroupList → Option Str
marshal_log_group_list m = do
  log_groups ← marshal_each marshal_log_group 0xa m.log_groups
  some (log_groups ++ m.xxx_unrecognized)

unfoldable pub size_log_group_list : LogGroupList → ℕ
unfolding size_log_group
size_log_group_list m = size_each size_log_group m.log_groups + length m.xxx_unrecognized
