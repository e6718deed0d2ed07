-- ===== src/LogPb/WireTests.antt =====
-- log.pb.go: a list of one group, with one log, that is written and read.
use aliyun_log_go_sdk.Prelude.{◌≡◌, refl, ◌↔◌, some, none, [], ◌∷◌, Str, arith, length}
use aliyun_log_go_sdk.LogPb.{Log, LogGroup, encode_varint_log, done}
use aliyun_log_go_sdk.LogPb.Marshal.{
  delimited, marshal_varint, marshal_each, marshal_log_content, marshal_log_tag, marshal_log,
  marshal_log_group, LogGroupList, marshal_log_group_list, size_log_group_list,
}
use aliyun_log_go_sdk.LogPb.Marshal.Sizes.{length-marshal_log_group_list}
use aliyun_log_go_sdk.LogPb.Marshal.Required.{
  IsSome, GroupHasRequired, marshal_log_group_list-HasRequired,
}
use aliyun_log_go_sdk.LogPb.Unmarshal.{unmarshal_log_group_list}
use aliyun_log_go_sdk.LogPb.Unmarshal.Repeated.{All}
use aliyun_log_go_sdk.LogPb.Unmarshal.ListTrip.{unmarshal-marshal_log_group_list}

abbrev one_log : Log
one_log = record {
  time = some 300;
  contents = record { key = some (7 ∷ []); value = some []; xxx_unrecognized = [] } ∷ [];
  time_ns = some 258;
  xxx_unrecognized = [];
}

abbrev one_group : LogGroup
one_group = record {
  logs = one_log ∷ [];
  category = none;
  topic = some (9 ∷ []);
  source = none;
  machine_uuid = none;
  log_tags = record { key = some (1 ∷ []); value = some (2 ∷ []); xxx_unrecognized = [] } ∷ [];
  xxx_unrecognized = [];
}

abbrev one_list : LogGroupList
one_list = record { log_groups = one_group ∷ []; xxx_unrecognized = [] }

abbrev one_list_bytes : Str
one_list_bytes =
    0xa ∷ 28 ∷ 0xa ∷ 15 ∷ 0x8 ∷ 172 ∷ 2 ∷ 0x12 ∷ 5 ∷ 0xa ∷ 1 ∷ 7 ∷ 0x12 ∷ 0 ∷ 0x25 ∷ 2 ∷ 1 ∷ 0 ∷ 0
    ∷ 0x1a ∷ 1 ∷ 9 ∷ 0x32 ∷ 6 ∷ 0xa ∷ 1 ∷ 1 ∷ 0x12 ∷ 1 ∷ 2 ∷ []

one_list-bytes : marshal_log_group_list one_list ≡ some one_list_bytes
unfolding marshal_log_group_list marshal_each marshal_log_group marshal_log marshal_log_content
    marshal_log_tag delimited encode_varint_log marshal_varint
one_list-bytes = refl

unmarshal-marshal_log_group_list_example : unmarshal_log_group_list one_list_bytes ≡ done one_list
unmarshal-marshal_log_group_list_example =
    unmarshal-marshal_log_group_list one_list one_list_bytes
      (((((omega arith, omega arith, (refl, tt), refl), tt), (refl, tt), refl), tt), refl)
      one_list-bytes (omega arith)

length-marshal_log_group_list_example : length one_list_bytes ≡ size_log_group_list one_list
length-marshal_log_group_list_example =
    length-marshal_log_group_list one_list one_list_bytes ((omega arith, tt), tt) one_list-bytes
      (omega arith)

marshal_log_group_list-HasRequired_example :
    IsSome (marshal_log_group_list one_list) ↔ All GroupHasRequired one_list.log_groups
marshal_log_group_list-HasRequired_example = marshal_log_group_list-HasRequired one_list
