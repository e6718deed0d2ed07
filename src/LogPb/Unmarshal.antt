-- ===== src/LogPb/Unmarshal.antt =====
-- log.pb.go: the Unmarshal methods, each into a message that has just been made, as `append` to a
-- repeated field and proto.Unmarshal use them. Then a required field has been seen just when it
-- is not nil.
pub mod Fields
pub mod Repeated
pub mod RoundTrip
pub mod LogTrip
pub mod GroupTrip
pub mod ListTrip
use aliyun_log_go_sdk.Prelude.{
  ℕ, ◌+◌, ◌*◌, ◌%◌, ◌^◌, Option, none, some, List, [], ◌∷◌, ◌++◌, Str, ◌==◌, if◌then◌else◌, length,
}
use aliyun_log_go_sdk.LogPb.{
  LogContent, Log, LogTag, LogGroup, PbError, Read, done, failed, ◌>>=◌, invalid_length_log,
  unexpected_eof, required_not_set, decode_varint_log,
}
use aliyun_log_go_sdk.LogPb.Wire.{
  is_negative, read_delimited, read_unknown, expect, Switch, unmarshal_loop,
}
use aliyun_log_go_sdk.LogPb.Marshal.{LogGroupList}

-- A field of a known kind: what is read is put into the message.
abbrev pub string_field : {M : Type 0} → (Str → M) → ℕ → ℕ → Str → Read (M × Str)
string_field put wire_type l s =
    expect 2 wire_type (read_delimited l s >>= λ (v, rest). done (put v, rest))

abbrev pub message_field : {M N : Type 0} → (Str → Read N) → (N → M) → ℕ → ℕ → Str → Read (M × Str)
message_field unmarshal put wire_type l s =
    expect 2 wire_type (read_delimited l s >>= λ (v, rest). unmarshal v >>= λ n. done (put n, rest))

abbrev pub unknown_field : {M : Type 0} → (Str → M) → ℕ → Str → Read (M × Str)
unknown_field put l whole = read_unknown l whole >>= λ (v, rest). done (put v, rest)

abbrev pub require {ℓ κ} : {A : Type ℓ} {M : Type κ} → Option A → M → Read M
require none m = failed required_not_set
require (some a) m = done m

unfoldable pub log_content_field : Switch LogContent
log_content_field field_num wire_type l whole s m =
    if field_num == 1
    then string_field (λ v. record m { key = some v }) wire_type l s
    else if field_num == 2
    then string_field (λ v. record m { value = some v }) wire_type l s
    else unknown_field (λ v. record m { xxx_unrecognized = m.xxx_unrecognized ++ v }) l whole

abbrev pub new_log_content : LogContent
new_log_content = record { key = none; value = none; xxx_unrecognized = [] }

unfoldable pub unmarshal_log_content : Str → Read LogContent
unmarshal_log_content s = do
  m ← unmarshal_loop log_content_field (length s) (length s) s new_log_content
  _ ← require m.key m
  require m.value m

unfoldable pub log_tag_field : Switch LogTag
log_tag_field field_num wire_type l whole s m =
    if field_num == 1
    then string_field (λ v. record m { key = some v }) wire_type l s
    else if field_num == 2
    then string_field (λ v. record m { value = some v }) wire_type l s
    else unknown_field (λ v. record m { xxx_unrecognized = m.xxx_unrecognized ++ v }) l whole

abbrev pub new_log_tag : LogTag
new_log_tag = record { key = none; value = none; xxx_unrecognized = [] }

unfoldable pub unmarshal_log_tag : Str → Read LogTag
unmarshal_log_tag s = do
  m ← unmarshal_loop log_tag_field (length s) (length s) s new_log_tag
  _ ← require m.key m
  require m.value m

-- The varint of a uint32: higher bits are lost.
abbrev pub uint32_field : {M : Type 0} → (ℕ → M) → ℕ → Str → Read (M × Str)
uint32_field put wire_type s =
    expect 0 wire_type (decode_varint_log s >>= λ (v, rest). done (put (v % 2 ^ 32), rest))

abbrev pub read_fixed32 : Str → Read (ℕ × Str)
read_fixed32 (a ∷ b ∷ c ∷ d ∷ rest) = done (a + 2 ^ 8 * b + 2 ^ 16 * c + 2 ^ 24 * d, rest)
read_fixed32 _ = failed unexpected_eof

unfoldable pub log_field : Switch Log
log_field field_num wire_type l whole s m =
    if field_num == 1
    then uint32_field (λ v. record m { time = some v }) wire_type s
    else if field_num == 2
    then message_field unmarshal_log_content (λ n. record m { contents = m.contents ++ n ∷ [] })
        wire_type l s
    else if field_num == 4
    then expect 5 wire_type
        (read_fixed32 s >>= λ (v, rest). done (record m { time_ns = some v }, rest))
    else unknown_field (λ v. record m { xxx_unrecognized = m.xxx_unrecognized ++ v }) l whole

abbrev pub new_log : Log
new_log = record { time = none; contents = []; time_ns = none; xxx_unrecognized = [] }

unfoldable pub unmarshal_log : Str → Read Log
unmarshal_log s = do m ← unmarshal_loop log_field (length s) (length s) s new_log; require m.time m

unfoldable pub log_group_field : Switch LogGroup
log_group_field field_num wire_type l whole s m =
    if field_num == 1
    then message_field unmarshal_log (λ n. record m { logs = m.logs ++ n ∷ [] }) wire_type l s
    else if field_num == 2
    then string_field (λ v. record m { category = some v }) wire_type l s
    else if field_num == 3
    then string_field (λ v. record m { topic = some v }) wire_type l s
    else if field_num == 4
    then string_field (λ v. record m { source = some v }) wire_type l s
    else if field_num == 5
    then string_field (λ v. record m { machine_uuid = some v }) wire_type l s
    else if field_num == 6
    then message_field unmarshal_log_tag (λ n. record m { log_tags = m.log_tags ++ n ∷ [] })
        wire_type l s
    else unknown_field (λ v. record m { xxx_unrecognized = m.xxx_unrecognized ++ v }) l whole

abbrev pub new_log_group : LogGroup
new_log_group = record {
  logs = [];
  category = none;
  topic = none;
  source = none;
  machine_uuid = none;
  log_tags = [];
  xxx_unrecognized = [];
}

unfoldable pub unmarshal_log_group : Str → Read LogGroup
unmarshal_log_group s = unmarshal_loop log_group_field (length s) (length s) s new_log_group

unfoldable pub log_group_list_field : Switch LogGroupList
log_group_list_field field_num wire_type l whole s m =
    if field_num == 1
    then message_field unmarshal_log_group (λ n. record m { log_groups = m.log_groups ++ n ∷ [] })
        wire_type l s
    else unknown_field (λ v. record m { xxx_unrecognized = m.xxx_unrecognized ++ v }) l whole

unfoldable pub unmarshal_log_group_list : Str → Read LogGroupList
unmarshal_log_group_list s =
    unmarshal_loop log_group_list_field (length s) (length s) s
      (record { log_groups = []; xxx_unrecognized = [] })
