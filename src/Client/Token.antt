-- ===== src/Client/Token.antt =====
-- token_auto_update_client.go: the client that fetches a new STS token when the old one expires.
-- Times are numbers of nanoseconds from the zero Time on, and durations of nanoseconds; the
-- fields that CreateTokenAutoUpdateClient sets are constants, far below 2 ^ 63. The user's
-- function and the service are arguments: `update k` is what the k-th round's fetch would get.
pub mod Fetches
pub mod Rounds
use aliyun_log_go_sdk.Prelude.{
  ℕ, zero, suc, ◌+◌, ◌*◌, ◌/◌, ◌^◌, Option, none, some, Bool, true, false, Str, ltb, leb, ◌==◌,
  ◌||◌, if◌then◌else◌,
}
use aliyun_log_go_sdk.Prelude.Int.{ℤ, pos, negsuc}
use aliyun_log_go_sdk.Producer.IoWorker.{Err, sls_error, foreign}

-- The key that requests are signed with.
pub record Key : Type 0 where
  pub access_key_id : Str
  pub access_key_secret : Str
  pub security_token : Str

pub record TokenAutoUpdateClient : Type 0 where
  pub log_client : Key
  pub max_try_times : ℕ
  pub wait_interval_min : ℕ
  pub wait_interval_max : ℕ
  pub update_token_interval_min : ℕ
  pub next_expire : ℕ
  pub last_fetch : ℕ
  pub last_retry_fail_count : ℕ
  pub last_retry_interval : ℕ

abbrev pub second : ℕ
second = 10 ^ 9

-- `CreateTokenAutoUpdateClient`, after its first fetch.
unfoldable pub create_token_auto_update_client : Key → ℕ → TokenAutoUpdateClient
create_token_auto_update_client key expire_time = record {
  log_client = key;
  max_try_times = 3;
  wait_interval_min = 1 * second;
  wait_interval_max = 60 * second;
  update_token_interval_min = 1 * second;
  next_expire = expire_time;
  last_fetch = 0;
  last_retry_fail_count = 0;
  last_retry_interval = 0;
}

-- What the user's function returns.
pub data Update : Type 0 where
  new_token : Key → ℕ → Update
  no_token : Err → Update

-- How a fetch ends: refused without a call, or with what the user's function returned.
pub data Fetch : Type 0 where
  high_frequency : Fetch
  fetched : Fetch
  not_fetched : Err → Fetch

-- The next wait before a fetch that follows a failed one.
unfoldable pub next_interval : TokenAutoUpdateClient → ℕ
next_interval c =
    let doubled = c.last_retry_interval * 2 in
    let raised = if ltb doubled c.wait_interval_min then c.wait_interval_min else doubled in
    if leb c.wait_interval_max raised then c.wait_interval_max else raised

abbrev pub too_soon : ℕ → TokenAutoUpdateClient → Bool
too_soon now c = ltb now (c.last_fetch + c.update_token_interval_min)

-- The first locked part: the sleep, and the client with the time of the fetch.
unfoldable pub start_fetch : ℕ → TokenAutoUpdateClient → ℕ × TokenAutoUpdateClient
start_fetch now c =
    if c.last_retry_fail_count == 0
    then (0, record c { last_fetch = now })
    else (next_interval c, record c { last_fetch = now; last_retry_interval = next_interval c })

-- The second locked part.
unfoldable pub end_fetch : Update → TokenAutoUpdateClient → Fetch × TokenAutoUpdateClient
end_fetch (new_token key expire_time) c = (
  fetched,
  record c {
    log_client = key;
    last_retry_fail_count = 0;
    last_retry_interval = 0;
    next_expire = expire_time;
  },
)
end_fetch (no_token e) c =
    (not_fetched e, record c { last_retry_fail_count = c.last_retry_fail_count + 1 })

-- `fetchSTSToken`
unfoldable pub fetch_sts_token : ℕ → Update → TokenAutoUpdateClient → Fetch × TokenAutoUpdateClient
fetch_sts_token now update c =
    if too_soon now c then (high_frequency, c) else end_fetch update (start_fetch now c).1

-- The wait of `flushSTSToken` before its next fetch, for the time that the token still has.
unfoldable pub flush_sleep : ℤ → ℕ
flush_sleep (negsuc n) = 30 * second
flush_sleep (pos left) =
    if ltb left (60 * second)
    then 30 * second
    else if ltb left (600 * second)
    then left / 10 * 7
    else if ltb left (3600 * second)
    then left / 10 * 6
    else left / 10 * 5

-- client.go: `IsTokenError`
unfoldable pub is_token_error : Err → Bool
is_token_error (sls_error e) = is_401 e.http_code
  where
    is_401 : ℤ → Bool
    is_401 (pos n) = n == 401
    is_401 (negsuc n) = false
is_token_error foreign = false

abbrev pub is_fetched : Fetch → Bool
is_fetched fetched = true
is_fetched _ = false

-- `processError`
unfoldable pub process_error :
    Option Err → ℕ → Update → TokenAutoUpdateClient → Bool × TokenAutoUpdateClient
process_error none now update c = (false, c)
process_error (some err) now update c =
    let (fetch, c') = fetch_sts_token now update c in
    if is_token_error err then (is_fetched fetch, c') else (false, c)

-- The loop that every request of the client is wrapped in, from one of its rounds on: `ask k` is
-- the service's answer in the k-th round from there, with the error that may come with it.
unfoldable pub wrapped_loop :
    {A : Type 0}
    → ℕ
    → (ℕ → A × Option Err)
    → (ℕ → ℕ)
    → (ℕ → Update)
    → A × Option Err
    → TokenAutoUpdateClient
    → (A × Option Err) × TokenAutoUpdateClient
wrapped_loop zero ask clock update last c = (last, c)
wrapped_loop (suc tries) ask clock update last c =
    let (retry, c') = process_error (ask 0).1 (clock 0) (update 0) c in
    let rest =
      wrapped_loop tries (λ k. ask (suc k)) (λ k. clock (suc k)) (λ k. update (suc k)) (ask 0) c' in
    if retry then rest else (ask 0, c')

-- A request such as `CreateProject`; `blank` is the zero result.
unfoldable pub wrapped :
    {A : Type 0}
    → A
    → (ℕ → A × Option Err)
    → (ℕ → ℕ)
    → (ℕ → Update)
    → TokenAutoUpdateClient
    → (A × Option Err) × TokenAutoUpdateClient
wrapped blank ask clock update c = wrapped_loop c.max_try_times ask clock update (blank, none) c
