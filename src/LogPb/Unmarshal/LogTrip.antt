-- ===== src/LogPb/Unmarshal/LogTrip.antt =====
-- log.pb.go: a Log that has been written, read back.
use aliyun_log_go_sdk.Prelude.{
  ℕ, ◌^◌, ◌<◌, ◌≡◌, refl, sym, ap, subst, ◌∙◌, Option, none, some, List, [], ◌++◌, Str, arith,
  length,
}
use aliyun_log_go_sdk.LogPb.{LogContent, Log, done, ◌>>=◌}
use aliyun_log_go_sdk.LogPb.Marshal.{
  marshal_each, marshal_varint, marshal_fixed32, marshal_log_content, marshal_log,
}
use aliyun_log_go_sdk.LogPb.Unmarshal.{
  require, unmarshal_log_content, log_field, new_log, unmarshal_log,
}
use aliyun_log_go_sdk.LogPb.Unmarshal.Fields.{Decodes-nil}
use aliyun_log_go_sdk.LogPb.Unmarshal.Repeated.{
  All, IsUint32, each-Decodes, uint32-Decodes, fixed32-Decodes,
}
use aliyun_log_go_sdk.LogPb.Unmarshal.RoundTrip.{
  byte_1_0-IsTag, byte_2_2-IsTag, byte_4_5-IsTag, tail-le, unmarshal-marshal_log_content,
}

-- A content without unknown fields.
abbrev pub IsKnownContent : LogContent → Type 0
IsKnownContent m = m.xxx_unrecognized ≡ []

-- A log whose numbers are uint32, without unknown fields.
abbrev pub IsKnownLog : Log → Type 0
IsKnownLog m =
    IsUint32 m.time × IsUint32 m.time_ns × All IsKnownContent m.contents × (m.xxx_unrecognized ≡ [])

-- The time and the bytes of the contents of a log that is written.
abbrev pub LogParts : Log → Option ℕ → Str → Type 0
LogParts m time b =
    (t : ℕ) × (contents : Str) × (time ≡ some t)
    × (marshal_each marshal_log_content 0x12 m.contents ≡ some contents)
    × (b
        ≡ marshal_varint 0x8 t
          ++ (contents ++ (marshal_fixed32 0x25 m.time_ns ++ m.xxx_unrecognized)))

pub log-LogParts :
    (m : Log) (time : Option ℕ) (contents : Option Str) (b : Str)
    → marshal_each marshal_log_content 0x12 m.contents ≡ contents
    → m.time ≡ time
    → marshal_log m ≡ some b
    → LogParts m time b
unfolding marshal_log marshal_each
log-LogParts m time none b ec et e = absurd (ground arith)
log-LogParts m none (some c) b ec et e = absurd (ground arith)
log-LogParts m (some t) (some c) b ec et e = (t, c, refl, ec, ground arith)

log-back :
    (t : ℕ) (cs : List LogContent) (ns : Option ℕ) (contents : Str)
    → let b = marshal_varint 0x8 t ++ (contents ++ (marshal_fixed32 0x25 ns ++ [])) in
      t < 2 ^ 32
      → IsUint32 ns
      → All IsKnownContent cs
      → marshal_each marshal_log_content 0x12 cs ≡ some contents
      → length b < 2 ^ 63
      → unmarshal_log b
        ≡ done (record { time = some t; contents = cs; time_ns = ns; xxx_unrecognized = [] })
unfolding unmarshal_log log_field
log-back t cs ns contents ht hn known e small =
    let third = marshal_fixed32 0x25 ns ++ [] in
    let second = contents ++ third in
    let b = marshal_varint 0x8 t ++ second in
    let l = length b in
    let m : Log = record { time = some t; contents = cs; time_ns = ns; xxx_unrecognized = [] } in
    let with : List LogContent → Log =
      λ cs. record { time = some t; contents = cs; time_ns = none; xxx_unrecognized = [] } in
    let of_ns =
      fixed32-Decodes log_field l 0x25 4 (λ ns. record m { time_ns = ns }) ns [] m byte_4_5-IsTag
        (λ w s. refl) hn (Decodes-nil log_field l m) in
    let of_contents =
      each-Decodes log_field l small 0x12 2 byte_2_2-IsTag marshal_log_content unmarshal_log_content
        IsKnownContent (λ n one x e small. unmarshal-marshal_log_content n one x e small) with
        (λ ns w s. refl) [] cs contents third m known e
        (tail-le (marshal_varint 0x8 t) second l (omega arith)) of_ns in
    let of_time =
      uint32-Decodes log_field l 0x8 1 (λ t. record new_log { time = some t }) t second new_log m
        byte_1_0-IsTag (λ w s. refl) ht of_contents in
    ap (λ t. t >>= λ m. require m.time m) (of_time l (omega arith))

-- A log without unknown fields, whose numbers are uint32, is read back from what is written of it.
pub unmarshal-marshal_log :
    (m : Log) (b : Str)
    → IsKnownLog m
    → marshal_log m ≡ some b
    → length b < 2 ^ 63
    → unmarshal_log b ≡ done m
unmarshal-marshal_log m b known e small =
    let (ht, hn, hc, x) = known in
    let (t, contents, et, ec, whole) =
      log-LogParts m m.time (marshal_each marshal_log_content 0x12 m.contents) b refl refl e in
    let plain : b ≡ marshal_varint 0x8 t ++ (contents ++ (marshal_fixed32 0x25 m.time_ns ++ [])) =
      whole
      ∙ ap (λ u. marshal_varint 0x8 t ++ (contents ++ (marshal_fixed32 0x25 m.time_ns ++ u))) x in
    let same : record {
      time = some t;
      contents = m.contents;
      time_ns = m.time_ns;
      xxx_unrecognized = [];
    }
        ≡ m =
      λ i. record {
        time = sym et i;
        contents = m.contents;
        time_ns = m.time_ns;
        xxx_unrecognized = sym x i;
      } in
    ap unmarshal_log plain
    ∙ (log-back t m.contents m.time_ns contents (subst IsUint32 et ht) hn hc ec
          (subst (λ u. length u < 2 ^ 63) plain small)
        ∙ ap (λ (u : Log). done u) same)
