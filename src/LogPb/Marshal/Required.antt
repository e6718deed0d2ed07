-- ===== src/LogPb/Marshal/Required.antt =====
-- log.pb.go: the required fields, which the Marshal methods ask for.
use aliyun_log_go_sdk.Prelude.{ℕ, ◌≡◌, refl, ap, ◌∙◌, ◌↔◌, Option, some, List, [], ◌∷◌, ◌++◌, Str}
use aliyun_log_go_sdk.LogPb.{LogContent, Log, LogTag, LogGroup}
use aliyun_log_go_sdk.LogPb.Marshal.{
  delimited, optional, marshal_varint, marshal_fixed32, join_parts, marshal_each,
  marshal_log_content, marshal_log_tag, marshal_log, marshal_log_group, LogGroupList,
  marshal_log_group_list,
}
use aliyun_log_go_sdk.LogPb.Unmarshal.Repeated.{All, marshal_each-Parts}
use aliyun_log_go_sdk.LogPb.Unmarshal.RoundTrip.{content-Pair, tag-Pair}
use aliyun_log_go_sdk.LogPb.Unmarshal.LogTrip.{log-LogParts}
use aliyun_log_go_sdk.LogPb.Unmarshal.GroupTrip.{group-GroupParts}
use aliyun_log_go_sdk.LogPb.Unmarshal.ListTrip.{list-ListParts}

abbrev pub IsSome : {A : Type 0} → Option A → Type 0
IsSome {A = A} o = (a : A) × (o ≡ some a)

abbrev pub ContentHasRequired : LogContent → Type 0
ContentHasRequired m = IsSome m.key × IsSome m.value

abbrev pub TagHasRequired : LogTag → Type 0
TagHasRequired m = IsSome m.key × IsSome m.value

abbrev pub LogHasRequired : Log → Type 0
LogHasRequired m = IsSome m.time × All ContentHasRequired m.contents

abbrev pub GroupHasRequired : LogGroup → Type 0
GroupHasRequired m = All LogHasRequired m.logs × All TagHasRequired m.log_tags

module _ {M : Type 0} (marshal : M → Option Str) (tag : ℕ) (Good : M → Type 0) where
  module _ (writes : (m : M) → Good m → IsSome (marshal m)) where
    each-IsSome : (ms : List M) → All Good ms → IsSome (marshal_each marshal tag ms)
    unfolding marshal_each
    each-IsSome [] good = ([], refl)
    each-IsSome (m ∷ ms) good =
        let (one, e₁) = writes m good.0 in
        let (rest, e₂) = each-IsSome ms good.1 in
        (_, ap (λ t. join_parts tag t (marshal m)) e₂ ∙ ap (λ t. join_parts tag (some rest) t) e₁)

  module _ (asks : (m : M) → IsSome (marshal m) → Good m) where
    each-All : (ms : List M) → IsSome (marshal_each marshal tag ms) → All Good ms
    each-All [] w = tt
    each-All (m ∷ ms) w =
        let (b, e) = w in
        let (one, rest, e₁, e₂, whole) = marshal_each-Parts marshal tag m ms b e in
        (asks m (one, e₁), each-All ms (rest, e₂))

content-writes : (m : LogContent) → ContentHasRequired m → IsSome (marshal_log_content m)
unfolding marshal_log_content
content-writes m good =
    let ((k, ek), (v, ev)) = good in
    (delimited 0xa k ++ (delimited 0x12 v ++ m.xxx_unrecognized), rw (ek, ev) refl)

content-asks : (m : LogContent) → IsSome (marshal_log_content m) → ContentHasRequired m
content-asks m w =
    let (k, v, ek, ev, whole) = content-Pair m m.key m.value w.0 refl refl w.1 in ((k, ek), (v, ev))

tag-writes : (m : LogTag) → TagHasRequired m → IsSome (marshal_log_tag m)
unfolding marshal_log_tag
tag-writes m good =
    let ((k, ek), (v, ev)) = good in
    (delimited 0xa k ++ (delimited 0x12 v ++ m.xxx_unrecognized), rw (ek, ev) refl)

tag-asks : (m : LogTag) → IsSome (marshal_log_tag m) → TagHasRequired m
tag-asks m w =
    let (k, v, ek, ev, whole) = tag-Pair m m.key m.value w.0 refl refl w.1 in ((k, ek), (v, ev))

log-writes : (m : Log) → LogHasRequired m → IsSome (marshal_log m)
unfolding marshal_log
log-writes m good =
    let ((t, et), contents) = good in
    let (c, ec) =
      each-IsSome marshal_log_content 0x12 ContentHasRequired content-writes m.contents contents in
    (
      marshal_varint 0x8 t ++ (c ++ (marshal_fixed32 0x25 m.time_ns ++ m.xxx_unrecognized)),
      rw (et, ec) refl,
    )

log-asks : (m : Log) → IsSome (marshal_log m) → LogHasRequired m
log-asks m w =
    let (t, contents, et, ec, whole) =
      log-LogParts m m.time (marshal_each marshal_log_content 0x12 m.contents) w.0 refl refl w.1 in
    (
      (t, et),
      each-All marshal_log_content 0x12 ContentHasRequired content-asks m.contents (contents, ec),
    )

group-writes : (m : LogGroup) → GroupHasRequired m → IsSome (marshal_log_group m)
unfolding marshal_log_group
group-writes m good =
    let (logs, el) = each-IsSome marshal_log 0xa LogHasRequired log-writes m.logs good.0 in
    let (tags, et) = each-IsSome marshal_log_tag 0x32 TagHasRequired tag-writes m.log_tags good.1 in
    (
      logs
          ++ (optional 0x12 m.category
              ++ (optional 0x1a m.topic
                  ++ (optional 0x22 m.source
                      ++ (optional 0x2a m.machine_uuid ++ (tags ++ m.xxx_unrecognized))))),
      rw (el, et) refl,
    )

group-asks : (m : LogGroup) → IsSome (marshal_log_group m) → GroupHasRequired m
group-asks m w =
    let (logs, tags, el, et, whole) =
      group-GroupParts m (marshal_each marshal_log_tag 0x32 m.log_tags)
        (marshal_each marshal_log 0xa m.logs) w.0 refl refl w.1 in
    (
      each-All marshal_log 0xa LogHasRequired log-asks m.logs (logs, el),
      each-All marshal_log_tag 0x32 TagHasRequired tag-asks m.log_tags (tags, et),
    )

-- A list of groups is written, not refused with RequiredNotSetError, just when each log of it has
-- its time, and each content and each tag of it its key and its value.
pub marshal_log_group_list-HasRequired :
    (m : LogGroupList) → IsSome (marshal_log_group_list m) ↔ All GroupHasRequired m.log_groups
unfolding marshal_log_group_list
marshal_log_group_list-HasRequired m = (
  λ w.
      let (groups, eg, whole) =
        list-ListParts m (marshal_each marshal_log_group 0xa m.log_groups) w.0 refl w.1 in
      each-All marshal_log_group 0xa GroupHasRequired group-asks m.log_groups (groups, eg),
  λ good.
      let (groups, eg) =
        each-IsSome marshal_log_group 0xa GroupHasRequired group-writes m.log_groups good in
      (groups ++ m.xxx_unrecognized, rw eg refl),
)
