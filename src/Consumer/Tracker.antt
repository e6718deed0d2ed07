-- ===== src/Consumer/Tracker.antt =====
-- consumer/checkpoint_tracker.go, and removeHeartShard of consumer/heart_beat.go.
-- The server's answers are an argument: `answers i` is what the i-th update of one call gives,
-- nil being `none`.
pub mod Flush
use aliyun_log_go_sdk.Prelude.{
  ℕ, zero, suc, Option, none, some, List, [], ◌∷◌, Bool, true, false, ◌||◌, Str, bytes, str_eq,
  equal_fold, ◌==◌, if◌then◌else◌,
}
use aliyun_log_go_sdk.Producer.IoWorker.{SlsError, Err, sls_error, foreign}

-- The tracker of one shard, with the heartbeat's list of shards that it may take its own off.
-- A shard's id is a number that the service gives, never negative.
pub record DefaultCheckPointTracker : Type 0 where
  pub next_cursor : Str
  pub current_cursor : Str
  pub pending_check_point : Str
  pub saved_check_point : Str
  pub shard_id : ℕ
  pub heart_shards : List ℕ

unfoldable pub init_consumer_checkpoint_tracker : ℕ → List ℕ → DefaultCheckPointTracker
init_consumer_checkpoint_tracker shard_id heart_shards = record {
  next_cursor = [];
  current_cursor = [];
  pending_check_point = [];
  saved_check_point = [];
  shard_id = shard_id;
  heart_shards = heart_shards;
}

abbrev pub init_check_point : Str → DefaultCheckPointTracker → DefaultCheckPointTracker
init_check_point cursor t = record t { saved_check_point = cursor }

abbrev pub set_current_cursor : Str → DefaultCheckPointTracker → DefaultCheckPointTracker
set_current_cursor cursor t = record t { current_cursor = cursor }

abbrev pub set_next_cursor : Str → DefaultCheckPointTracker → DefaultCheckPointTracker
set_next_cursor cursor t = record t { next_cursor = cursor }

-- `removeHeartShard`: the first entry goes; the result says whether there was one.
unfoldable pub remove_heart_shard : ℕ → List ℕ → Bool × List ℕ
remove_heart_shard shard_id [] = (false, [])
remove_heart_shard shard_id (h ∷ hs) =
    let (deleted, rest) = remove_heart_shard shard_id hs in
    if shard_id == h then (true, hs) else (deleted, h ∷ rest)

-- The codes that end the loop without an error.
unfoldable pub gone : Err → Bool
gone foreign = false
gone (sls_error e) =
    equal_fold e.code (bytes "ConsumerNotExsit")
    || (equal_fold e.code (bytes "ConsumerNotMatch") || equal_fold e.code (bytes "ShardNotExsit"))

-- How the loop of `flushCheckPoint` ends.
pub data FlushEnd : Type 0 where
  written : FlushEnd
  removed : FlushEnd
  failed : Err → FlushEnd

unfoldable pub after_update : Option Err → (Err → FlushEnd) → FlushEnd
after_update none again = written
after_update (some err) again = if gone err then removed else again err

-- The loop; `left` rounds follow this one, so the first has 2.
unfoldable pub flush_loop : ℕ → (ℕ → Option Err) → FlushEnd
flush_loop zero answers = after_update (answers 0) (λ err. failed err)
flush_loop (suc left) answers =
    let rest = flush_loop left (λ k. answers (suc k)) in after_update (answers 0) (λ err. rest)

abbrev pub flushed : DefaultCheckPointTracker → DefaultCheckPointTracker
flushed t = record t { saved_check_point = t.pending_check_point }

unfoldable pub finish_flush :
    FlushEnd → DefaultCheckPointTracker → Option Err × DefaultCheckPointTracker
finish_flush written t = (none, flushed t)
finish_flush removed t =
    (none, flushed (record t { heart_shards = (remove_heart_shard t.shard_id t.heart_shards).1 }))
finish_flush (failed err) t = (some err, t)

-- `flushCheckPoint`
unfoldable pub flush_check_point :
    (ℕ → Option Err) → DefaultCheckPointTracker → Option Err × DefaultCheckPointTracker
flush_check_point answers t =
    if str_eq t.pending_check_point [] || str_eq t.pending_check_point t.saved_check_point
    then (none, t)
    else finish_flush (flush_loop 2 answers) t

-- `SaveCheckPoint`
unfoldable pub save_check_point :
    Bool → (ℕ → Option Err) → DefaultCheckPointTracker → Option Err × DefaultCheckPointTracker
save_check_point force answers t =
    let pending = record t { pending_check_point = t.next_cursor } in
    if force then flush_check_point answers pending else (none, pending)
