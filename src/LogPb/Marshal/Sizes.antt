-- ===== src/LogPb/Marshal/Sizes.antt =====
-- log.pb.go: the size of each message is the number of bytes that are written of it.
use aliyun_log_go_sdk.Prelude.{
  ℕ, ◌+◌, ◌^◌, ◌<◌, ◌≡◌, refl, sym, ap, subst, ◌∙◌, Option, some, List, [], ◌∷◌, ◌++◌, Str, arith,
  length, length-append,
}
use aliyun_log_go_sdk.LogPb.{
  LogContent, Log, LogTag, LogGroup, size_string, size_time, size_log_content, size_log,
  size_log_tag, size_log_group,
}
use aliyun_log_go_sdk.LogPb.Varint.{length-encode_varint_log}
use aliyun_log_go_sdk.LogPb.Marshal.{
  optional, marshal_each, marshal_varint, marshal_fixed32, marshal_log_content, marshal_log_tag,
  marshal_log, marshal_log_group, LogGroupList, marshal_log_group_list, size_log_group_list,
}
use aliyun_log_go_sdk.LogPb.Marshal.Length.{
  length-optional, length-marshal_fixed32, length-marshal_each,
}
use aliyun_log_go_sdk.LogPb.Unmarshal.Repeated.{All, IsUint32}
use aliyun_log_go_sdk.LogPb.Unmarshal.RoundTrip.{content-Pair, tag-Pair}
use aliyun_log_go_sdk.LogPb.Unmarshal.LogTrip.{log-LogParts}
use aliyun_log_go_sdk.LogPb.Unmarshal.GroupTrip.{group-GroupParts}
use aliyun_log_go_sdk.LogPb.Unmarshal.ListTrip.{list-ListParts}

-- The length of two strings and what follows them, as the sizes add it up.
pair-size :
    (k v x b : Str)
    → b ≡ optional 0xa (some k) ++ (optional 0x12 (some v) ++ x)
    → length b < 2 ^ 63
    → length b ≡ size_string (some k) + size_string (some v) + length x
pair-size k v x b e small =
    let first = optional 0xa (some k) in
    let second = optional 0x12 (some v) in
    let total : length b ≡ length first + (length second + length x) =
      ap length e
      ∙ (length-append first (second ++ x) ∙ ap (λ n. length first + n) (length-append second x)) in
    let of_key = length-optional 0xa (some k) (omega arith) in
    let of_value = length-optional 0x12 (some v) (omega arith) in omega arith

length-marshal_log_content :
    (m : LogContent) (b : Str)
    → Unit {0}
    → marshal_log_content m ≡ some b
    → length b < 2 ^ 63
    → length b ≡ size_log_content m
unfolding size_log_content
length-marshal_log_content m b good e small =
    let (k, v, ek, ev, whole) = content-Pair m m.key m.value b refl refl e in
    pair-size k v m.xxx_unrecognized b whole small
    ∙ ap
        (λ (p : Option Str × Option Str).
          size_string p.0 + size_string p.1 + length m.xxx_unrecognized)
        (λ i. (sym ek i, sym ev i))

length-marshal_log_tag :
    (m : LogTag) (b : Str)
    → Unit {0}
    → marshal_log_tag m ≡ some b
    → length b < 2 ^ 63
    → length b ≡ size_log_tag m
unfolding size_log_tag
length-marshal_log_tag m b good e small =
    let (k, v, ek, ev, whole) = tag-Pair m m.key m.value b refl refl e in
    pair-size k v m.xxx_unrecognized b whole small
    ∙ ap
        (λ (p : Option Str × Option Str).
          size_string p.0 + size_string p.1 + length m.xxx_unrecognized)
        (λ i. (sym ek i, sym ev i))

All-unit : {M : Type 0} (ms : List M) → All (λ m. Unit {0}) ms
All-unit [] = tt
All-unit (m ∷ ms) = (tt, All-unit ms)

length-marshal_varint :
    (tag v : ℕ) → v < 2 ^ 32 → length (marshal_varint tag v) ≡ size_time (some v)
unfolding marshal_varint
length-marshal_varint tag v h = omega (arith, length-encode_varint_log v (omega arith))

pub length-marshal_log :
    (m : Log) (b : Str)
    → IsUint32 m.time
    → marshal_log m ≡ some b
    → length b < 2 ^ 63
    → length b ≡ size_log m
unfolding size_log
length-marshal_log m b good e small =
    let (t, contents, et, ec, whole) =
      log-LogParts m m.time (marshal_each marshal_log_content 0x12 m.contents) b refl refl e in
    let time = marshal_varint 0x8 t in
    let ns = marshal_fixed32 0x25 m.time_ns in
    let x = m.xxx_unrecognized in
    let total : length b ≡ length time + (length contents + (length ns + length x)) =
      ap length whole
      ∙ (length-append time (contents ++ (ns ++ x))
          ∙ ap (λ n. length time + n)
              (length-append contents (ns ++ x)
                ∙ ap (λ n. length contents + n) (length-append ns x))) in
    let of_time : length time ≡ size_time m.time =
      length-marshal_varint 0x8 t (subst IsUint32 et good) ∙ ap size_time (sym et) in
    let of_contents =
      length-marshal_each marshal_log_content size_log_content (λ m. Unit {0})
        length-marshal_log_content 0x12 m.contents contents (All-unit m.contents) ec
        (omega arith) in
    let of_ns = length-marshal_fixed32 0x25 m.time_ns in omega arith

-- A group whose times are uint32.
abbrev pub HasTimes : LogGroup → Type 0
HasTimes g = All (λ (m : Log). IsUint32 m.time) g.logs

length-marshal_log_group :
    (m : LogGroup) (b : Str)
    → HasTimes m
    → marshal_log_group m ≡ some b
    → length b < 2 ^ 63
    → length b ≡ size_log_group m
unfolding size_log_group
length-marshal_log_group m b good e small =
    let (logs, tags, el, et, whole) =
      group-GroupParts m (marshal_each marshal_log_tag 0x32 m.log_tags)
        (marshal_each marshal_log 0xa m.logs) b refl refl e in
    let c = optional 0x12 m.category in
    let p = optional 0x1a m.topic in
    let s = optional 0x22 m.source in
    let u = optional 0x2a m.machine_uuid in
    let x = m.xxx_unrecognized in
    let total : length b
        ≡ length logs
          + (length c + (length p + (length s + (length u + (length tags + length x))))) =
      ap length whole
      ∙ rw
          (
            length-append logs (c ++ (p ++ (s ++ (u ++ (tags ++ x))))),
            length-append c (p ++ (s ++ (u ++ (tags ++ x)))),
            length-append p (s ++ (u ++ (tags ++ x))),
            length-append s (u ++ (tags ++ x)),
            length-append u (tags ++ x),
            length-append tags x,
          )
          refl in
    let of_logs =
      length-marshal_each marshal_log size_log (λ m. IsUint32 m.time) length-marshal_log 0xa m.logs
        logs good el (omega arith) in
    let of_tags =
      length-marshal_each marshal_log_tag size_log_tag (λ m. Unit {0}) length-marshal_log_tag 0x32
        m.log_tags tags (All-unit m.log_tags) et (omega arith) in
    let of_c = length-optional 0x12 m.category (omega arith) in
    let of_p = length-optional 0x1a m.topic (omega arith) in
    let of_s = length-optional 0x22 m.source (omega arith) in
    let of_u = length-optional 0x2a m.machine_uuid (omega arith) in omega arith

-- The bytes that are written of a list of groups, when these are fewer than 2 ^ 63 and the times of
-- its logs are uint32, are as many as its size, so the buffer that Marshal makes is filled exactly.
pub length-marshal_log_group_list :
    (m : LogGroupList) (b : Str)
    → All HasTimes m.log_groups
    → marshal_log_group_list m ≡ some b
    → length b < 2 ^ 63
    → length b ≡ size_log_group_list m
unfolding size_log_group_list
length-marshal_log_group_list m b good e small =
    let (groups, eg, whole) =
      list-ListParts m (marshal_each marshal_log_group 0xa m.log_groups) b refl e in
    let x = m.xxx_unrecognized in
    let total : length b ≡ length groups + length x = ap length whole ∙ length-append groups x in
    let of_groups =
      length-marshal_each marshal_log_group size_log_group HasTimes length-marshal_log_group 0xa
        m.log_groups groups good eg (omega arith) in
    omega arith
