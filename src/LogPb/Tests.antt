-- ===== src/LogPb/Tests.antt =====
-- log.pb.go: the varint of 300.
use aliyun_log_go_sdk.Prelude.{◌≡◌, refl, [], ◌∷◌}
use aliyun_log_go_sdk.LogPb.{encode_varint_log}

varint_300 : encode_varint_log 9 300 ≡ 172 ∷ 2 ∷ []
unfolding encode_varint_log
varint_300 = refl
