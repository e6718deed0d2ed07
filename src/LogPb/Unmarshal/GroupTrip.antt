-- ===== src/LogPb/Unmarshal/GroupTrip.antt =====
-- log.pb.go: a LogGroup that has been written, and a list of them, read back.
use aliyun_log_go_sdk.Prelude.{
  ℕ, ◌^◌, ◌≤◌, ◌<◌, ◌≡◌, refl, sym, ap, subst, ◌∙◌, Option, none, some, [], ◌++◌, Str, arith,
  length,
}
use aliyun_log_go_sdk.LogPb.{LogTag, LogGroup, done}
use aliyun_log_go_sdk.LogPb.Marshal.{
  optional, marshal_each, marshal_log_tag, marshal_log, marshal_log_group,
}
use aliyun_log_go_sdk.LogPb.Unmarshal.{
  unmarshal_log_tag, unmarshal_log, log_group_field, new_log_group, unmarshal_log_group,
}
use aliyun_log_go_sdk.LogPb.Unmarshal.Fields.{Decodes, Decodes-nil, optional-Decodes}
use aliyun_log_go_sdk.LogPb.Unmarshal.Repeated.{All, each-Decodes}
use aliyun_log_go_sdk.LogPb.Unmarshal.RoundTrip.{
  byte_1_2-IsTag, byte_2_2-IsTag, byte_3_2-IsTag, byte_4_2-IsTag, byte_5_2-IsTag, byte_6_2-IsTag,
  tail-le, unmarshal-marshal_log_tag,
}
use aliyun_log_go_sdk.LogPb.Unmarshal.LogTrip.{IsKnownLog, unmarshal-marshal_log}

-- A tag without unknown fields.
abbrev pub IsKnownTag : LogTag → Type 0
IsKnownTag m = m.xxx_unrecognized ≡ []

-- A group without unknown fields, in its logs and tags too, whose numbers are uint32.
abbrev pub IsKnownGroup : LogGroup → Type 0
IsKnownGroup m = All IsKnownLog m.logs × All IsKnownTag m.log_tags × (m.xxx_unrecognized ≡ [])

-- The bytes of a group from each of its fields on.
abbrev from_uuid : LogGroup → Str → Str
from_uuid m tags = optional 0x2a m.machine_uuid ++ (tags ++ [])

abbrev from_source : LogGroup → Str → Str
from_source m tags = optional 0x22 m.source ++ from_uuid m tags

abbrev from_topic : LogGroup → Str → Str
from_topic m tags = optional 0x1a m.topic ++ from_source m tags

abbrev from_category : LogGroup → Str → Str
from_category m tags = optional 0x12 m.category ++ from_topic m tags

abbrev plain_group : LogGroup → LogGroup
plain_group m = record m { xxx_unrecognized = [] }

uuid-Decodes :
    (l : ℕ) (m : LogGroup) (tags : Str)
    → l < 2 ^ 63
    → All IsKnownTag m.log_tags
    → marshal_each marshal_log_tag 0x32 m.log_tags ≡ some tags
    → length (from_uuid m tags) ≤ l
    → Decodes log_group_field l
        (from_uuid m tags)
        (record m { machine_uuid = none; log_tags = []; xxx_unrecognized = [] })
        (plain_group m)
unfolding log_group_field
uuid-Decodes l m tags small known e fits =
    let of_tags =
      each-Decodes log_group_field l small 0x32 6 byte_6_2-IsTag marshal_log_tag unmarshal_log_tag
        IsKnownTag (λ n one x e small. unmarshal-marshal_log_tag n one x e small)
        (λ ts. record m { log_tags = ts; xxx_unrecognized = [] }) (λ ns w s. refl) [] m.log_tags
        tags [] (plain_group m) known e (tail-le (optional 0x2a m.machine_uuid) (tags ++ []) l fits)
        (Decodes-nil log_group_field l (plain_group m)) in
    optional-Decodes log_group_field l small 0x2a 5 byte_5_2-IsTag
      (λ v. record m { machine_uuid = v; log_tags = []; xxx_unrecognized = [] }) m.machine_uuid
      (tags ++ []) (plain_group m) (λ w s. refl) fits of_tags

category-Decodes :
    (l : ℕ) (m : LogGroup) (tags : Str)
    → l < 2 ^ 63
    → All IsKnownTag m.log_tags
    → marshal_each marshal_log_tag 0x32 m.log_tags ≡ some tags
    → length (from_category m tags) ≤ l
    → Decodes log_group_field l
        (from_category m tags)
        (record new_log_group { logs = m.logs })
        (plain_group m)
unfolding log_group_field
category-Decodes l m tags small known e fits =
    let end = plain_group m in
    let fits₁ = tail-le (optional 0x12 m.category) (from_topic m tags) l fits in
    let fits₂ = tail-le (optional 0x1a m.topic) (from_source m tags) l fits₁ in
    let fits₃ = tail-le (optional 0x22 m.source) (from_uuid m tags) l fits₂ in
    let of_source =
      optional-Decodes log_group_field l small 0x22 4 byte_4_2-IsTag
        (λ v. record m { source = v; machine_uuid = none; log_tags = []; xxx_unrecognized = [] })
        m.source (from_uuid m tags) end (λ w s. refl) fits₂
        (uuid-Decodes l m tags small known e fits₃) in
    let of_topic =
      optional-Decodes log_group_field l small 0x1a 3 byte_3_2-IsTag
        (λ v. record new_log_group { logs = m.logs; category = m.category; topic = v }) m.topic
        (from_source m tags) end (λ w s. refl) fits₁ of_source in
    optional-Decodes log_group_field l small 0x12 2 byte_2_2-IsTag
      (λ v. record new_log_group { logs = m.logs; category = v }) m.category (from_topic m tags) end
      (λ w s. refl) fits of_topic

-- The bytes of the logs and of the tags of a group that is written.
abbrev pub GroupParts : LogGroup → Str → Type 0
GroupParts m b =
    (logs : Str) × (tags : Str) × (marshal_each marshal_log 0xa m.logs ≡ some logs)
    × (marshal_each marshal_log_tag 0x32 m.log_tags ≡ some tags)
    × (b
        ≡ logs
          ++ (optional 0x12 m.category
              ++ (optional 0x1a m.topic
                  ++ (optional 0x22 m.source
                      ++ (optional 0x2a m.machine_uuid ++ (tags ++ m.xxx_unrecognized))))))

pub group-GroupParts :
    (m : LogGroup) (tags logs : Option Str) (b : Str)
    → marshal_each marshal_log_tag 0x32 m.log_tags ≡ tags
    → marshal_each marshal_log 0xa m.logs ≡ logs
    → marshal_log_group m ≡ some b
    → GroupParts m b
unfolding marshal_log_group marshal_each
group-GroupParts m none logs b et el e = absurd (ground arith)
group-GroupParts m (some t) none b et el e = absurd (ground arith)
group-GroupParts m (some t) (some s) b et el e = (s, t, el, et, ground arith)

group-back :
    (m : LogGroup) (logs tags : Str)
    → let b = logs ++ from_category m tags in
      All IsKnownLog m.logs
      → All IsKnownTag m.log_tags
      → marshal_each marshal_log 0xa m.logs ≡ some logs
      → marshal_each marshal_log_tag 0x32 m.log_tags ≡ some tags
      → length b < 2 ^ 63
      → unmarshal_log_group b ≡ done (plain_group m)
unfolding unmarshal_log_group log_group_field
group-back m logs tags known_logs known_tags el et small =
    let b = logs ++ from_category m tags in
    let l = length b in
    let rest =
      category-Decodes l m tags small known_tags et
        (tail-le logs (from_category m tags) l (omega arith)) in
    let of_logs =
      each-Decodes log_group_field l small 0xa 1 byte_1_2-IsTag marshal_log unmarshal_log IsKnownLog
        (λ n one x e small. unmarshal-marshal_log n one x e small)
        (λ ns. record new_log_group { logs = ns }) (λ ns w s. refl) [] m.logs logs
        (from_category m tags) (plain_group m) known_logs el (omega arith) rest in
    of_logs l (omega arith)

-- A group without unknown fields, whose numbers are uint32, is read back from what is written of it.
pub unmarshal-marshal_log_group :
    (m : LogGroup) (b : Str)
    → IsKnownGroup m
    → marshal_log_group m ≡ some b
    → length b < 2 ^ 63
    → unmarshal_log_group b ≡ done m
unmarshal-marshal_log_group m b known e small =
    let (known_logs, known_tags, x) = known in
    let (logs, tags, el, et, whole) =
      group-GroupParts m (marshal_each marshal_log_tag 0x32 m.log_tags)
        (marshal_each marshal_log 0xa m.logs) b refl refl e in
    let plain : b ≡ logs ++ from_category m tags =
      whole
      ∙ ap
          (λ u.
            logs
            ++ (optional 0x12 m.category
                ++ (optional 0x1a m.topic
                    ++ (optional 0x22 m.source ++ (optional 0x2a m.machine_uuid ++ (tags ++ u))))))
          x in
    let same : plain_group m ≡ m = λ i. record m { xxx_unrecognized = sym x i } in
    ap unmarshal_log_group plain
    ∙ (group-back m logs tags known_logs known_tags el et
          (subst (λ u. length u < 2 ^ 63) plain small)
        ∙ ap (λ (u : LogGroup). done u) same)
