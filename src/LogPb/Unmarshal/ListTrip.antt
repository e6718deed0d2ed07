-- ===== src/LogPb/Unmarshal/ListTrip.antt =====
-- log.pb.go: a LogGroupList that has been written, read back.
use aliyun_log_go_sdk.Prelude.{
  ◌^◌, ◌<◌, ◌≡◌, refl, sym, ap, subst, ◌∙◌, Option, none, some, List, [], ◌++◌, Str, arith, length,
}
use aliyun_log_go_sdk.LogPb.{LogGroup, done}
use aliyun_log_go_sdk.LogPb.Marshal.{
  marshal_each, marshal_log_group, LogGroupList, marshal_log_group_list,
}
use aliyun_log_go_sdk.LogPb.Unmarshal.{
  unmarshal_log_group, log_group_list_field, unmarshal_log_group_list,
}
use aliyun_log_go_sdk.LogPb.Unmarshal.Fields.{Decodes-nil}
use aliyun_log_go_sdk.LogPb.Unmarshal.Repeated.{All, each-Decodes}
use aliyun_log_go_sdk.LogPb.Unmarshal.RoundTrip.{byte_1_2-IsTag}
use aliyun_log_go_sdk.LogPb.Unmarshal.GroupTrip.{IsKnownGroup, unmarshal-marshal_log_group}

-- A list of groups without unknown fields, whose numbers are uint32.
abbrev pub IsKnownList : LogGroupList → Type 0
IsKnownList m = All IsKnownGroup m.log_groups × (m.xxx_unrecognized ≡ [])

abbrev pub ListParts : LogGroupList → Str → Type 0
ListParts m b =
    (groups : Str) × (marshal_each marshal_log_group 0xa m.log_groups ≡ some groups)
    × (b ≡ groups ++ m.xxx_unrecognized)

pub list-ListParts :
    (m : LogGroupList) (groups : Option Str) (b : Str)
    → marshal_each marshal_log_group 0xa m.log_groups ≡ groups
    → marshal_log_group_list m ≡ some b
    → ListParts m b
unfolding marshal_log_group_list
list-ListParts m none b eg e = absurd (ground arith)
list-ListParts m (some g) b eg e = (g, eg, ground arith)

list-back :
    (gs : List LogGroup) (groups : Str)
    → let b = groups ++ [] in
      All IsKnownGroup gs
      → marshal_each marshal_log_group 0xa gs ≡ some groups
      → length b < 2 ^ 63
      → unmarshal_log_group_list b ≡ done (record { log_groups = gs; xxx_unrecognized = [] })
unfolding unmarshal_log_group_list log_group_list_field
list-back gs groups known e small =
    let l = length (groups ++ []) in
    let m : LogGroupList = record { log_groups = gs; xxx_unrecognized = [] } in
    let read =
      each-Decodes log_group_list_field l small 0xa 1 byte_1_2-IsTag marshal_log_group
        unmarshal_log_group IsKnownGroup
        (λ n one x e small. unmarshal-marshal_log_group n one x e small)
        (λ ns. record { log_groups = ns; xxx_unrecognized = [] }) (λ ns w s. refl) [] gs groups [] m
        known e (omega arith) (Decodes-nil log_group_list_field l m) in
    read l (omega arith)

-- A list of groups that have no unknown fields and whose numbers are uint32 is read back from what
-- is written of it, when that is shorter than 2 ^ 63 bytes: unmarshal_log_group_list is the inverse
-- of marshal_log_group_list.
pub unmarshal-marshal_log_group_list :
    (m : LogGroupList) (b : Str)
    → IsKnownList m
    → marshal_log_group_list m ≡ some b
    → length b < 2 ^ 63
    → unmarshal_log_group_list b ≡ done m
unmarshal-marshal_log_group_list m b known e small =
    let (known_groups, x) = known in
    let (groups, eg, whole) =
      list-ListParts m (marshal_each marshal_log_group 0xa m.log_groups) b refl e in
    let plain : b ≡ groups ++ [] = whole ∙ ap (λ u. groups ++ u) x in
    let same : record { log_groups = m.log_groups; xxx_unrecognized = [] } ≡ m =
      λ i. record { log_groups = m.log_groups; xxx_unrecognized = sym x i } in
    ap unmarshal_log_group_list plain
    ∙ (list-back m.log_groups groups known_groups eg (subst (λ u. length u < 2 ^ 63) plain small)
        ∙ ap (λ (u : LogGroupList). done u) same)
