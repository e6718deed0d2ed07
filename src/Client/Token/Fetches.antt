-- ===== src/Client/Token/Fetches.antt =====
-- token_auto_update_client.go: how often tokens are fetched.
use Prim.Native.Nat.{min}
use mathlib.Core.Bool.{true, false}
use aliyun_log_go_sdk.Prelude.{
  ℕ, zero, suc, ◌+◌, ◌*◌, ◌≤◌, ◌<◌, ◌≡◌, ◌≢◌, refl, sym, arith, if◌then◌else◌, inl, inr, Bool-cases,
  subst, ◌==◌,
}
use aliyun_log_go_sdk.Prelude.Int.{ℤ, pos, negsuc}
use aliyun_log_go_sdk.Producer.IoWorker.{Err}
use aliyun_log_go_sdk.Client.Token.{
  TokenAutoUpdateClient, second, Update, new_token, no_token, high_frequency, next_interval,
  too_soon, start_fetch, end_fetch, fetch_sts_token, flush_sleep,
}

-- A fetch that is not refused remembers its time, and keeps the limits.
fetch-time :
    (t : ℕ) (u : Update) (c : TokenAutoUpdateClient)
    → (fetch_sts_token t u c).0 ≢ high_frequency
    → ((fetch_sts_token t u c).1.last_fetch ≡ t)
      × ((fetch_sts_token t u c).1.update_token_interval_min ≡ c.update_token_interval_min)
unfolding fetch_sts_token start_fetch end_fetch
fetch-time t (new_token key expire) c h = ground arith
fetch-time t (no_token e) c h = ground arith

-- After a fetch that called the user's function, no other calls it before the least interval is
-- over: it is refused and changes nothing.
pub fetch_sts_token_throttles :
    (t now : ℕ) (u v : Update) (c : TokenAutoUpdateClient)
    → (fetch_sts_token t u c).0 ≢ high_frequency
    → now < t + c.update_token_interval_min
    → let c' = (fetch_sts_token t u c).1 in fetch_sts_token now v c' ≡ (high_frequency, c')
fetch_sts_token_throttles t now u v c h early =
    let c' = (fetch_sts_token t u c).1 in
    let (time, interval) = fetch-time t u c h in
    let soon : too_soon now c' ≡ true = ground arith in unfold fetch_sts_token in rw soon refl

-- The sleep of flushSTSToken ends before the token does, if the token has a minute left, and it
-- is never over at once.
pub flush_sleep_in_time :
    (left : ℤ)
    → (0 < flush_sleep left) × ((n : ℕ) → left ≡ pos n → 60 * second ≤ n → flush_sleep left < n)
unfolding flush_sleep
flush_sleep_in_time (negsuc m) = (omega arith, λ n e h. cc)
flush_sleep_in_time (pos m) = (ground arith, λ n e h. ground arith)

-- m * 2 ^ k
abbrev pub doubled : ℕ → ℕ → ℕ
doubled zero m = m
doubled (suc k) m = 2 * doubled k m

-- The client after k fetches, at the given times, that have failed.
unfoldable pub failures : ℕ → (ℕ → ℕ) → (ℕ → Err) → TokenAutoUpdateClient → TokenAutoUpdateClient
failures zero clock errors c = c
failures (suc k) clock errors c =
    (fetch_sts_token (clock k) (no_token (errors k)) (failures k clock errors c)).1

-- The wait that was computed last, after k failures: none was before the second one.
abbrev interval_after : ℕ → ℕ → ℕ → ℕ
interval_after zero least most = 0
interval_after (suc zero) least most = 0
interval_after (suc (suc k)) least most = min most (doubled k least)

-- The time of the last fetch, after k fetches.
abbrev pub last_time : ℕ → (ℕ → ℕ) → ℕ → ℕ
last_time zero clock first = first
last_time (suc k) clock first = clock k

-- What holds of the client after k failures.
record Failed (k : ℕ) (clock : ℕ → ℕ) (c d : TokenAutoUpdateClient) : Type 0 where
  pub fails : d.last_retry_fail_count ≡ k
  pub time : d.last_fetch ≡ last_time k clock c.last_fetch
  pub interval : d.last_retry_interval ≡ interval_after k c.wait_interval_min c.wait_interval_max
  pub least : d.wait_interval_min ≡ c.wait_interval_min
  pub most : d.wait_interval_max ≡ c.wait_interval_max
  pub spacing : d.update_token_interval_min ≡ c.update_token_interval_min

doubled_least : (k m : ℕ) → m ≤ doubled k m
doubled_least zero m = omega arith
doubled_least (suc k) m = omega (arith, doubled_least k m)

-- The wait after k + 1 failures.
next-interval :
    (k : ℕ) (clock : ℕ → ℕ) (c d : TokenAutoUpdateClient)
    → 0 < c.wait_interval_min
    → c.wait_interval_min ≤ c.wait_interval_max
    → Failed (suc k) clock c d
    → next_interval d ≡ min c.wait_interval_max (doubled k c.wait_interval_min)
unfolding next_interval
next-interval zero clock c d low ordered f = ground (arith, f.interval, f.least, f.most)
next-interval (suc k) clock c d low ordered f =
    ground (arith, f.interval, f.least, f.most, doubled_least k c.wait_interval_min)

-- A failure that is not the first computes the next wait.
fail-once :
    (t : ℕ) (e : Err) (d : TokenAutoUpdateClient)
    → too_soon t d ≡ false
    → (fetch_sts_token t (no_token e) d).1 ≡ (record d {
      last_fetch = t;
      last_retry_interval =
          if d.last_retry_fail_count == 0 then d.last_retry_interval else next_interval d;
      last_retry_fail_count = d.last_retry_fail_count + 1;
    })
unfolding fetch_sts_token start_fetch end_fetch
fail-once t e d late = elim (Bool-cases (d.last_retry_fail_count == 0)) [
  | inl first ↦ rw (late, first) refl
  | inr again ↦ rw (late, again) refl
]

module _ (clock : ℕ → ℕ) (errors : ℕ → Err) (c : TokenAutoUpdateClient)
    (fresh : c.last_retry_fail_count ≡ 0) (unset : c.last_retry_interval ≡ 0)
    (low : 0 < c.wait_interval_min) (ordered : c.wait_interval_min ≤ c.wait_interval_max)
    (spaced : (k : ℕ)
      → last_time k clock c.last_fetch + c.update_token_interval_min ≤ clock k) where
  failures-Failed : (k : ℕ) → Failed k clock c (failures k clock errors c)
  unfolding failures
  failures-Failed zero = record {
    fails = fresh;
    time = refl;
    interval = unset;
    least = refl;
    most = refl;
    spacing = refl;
  }
  failures-Failed (suc k) =
      let d = failures k clock errors c in
      let f = failures-Failed k in
      let late : too_soon (clock k) d ≡ false = ground (arith, f.time, f.spacing, spaced k) in
      let step = fail-once (clock k) (errors k) d late in
      subst (Failed (suc k) clock c) (sym step) (record {
        fails = omega (arith, f.fails);
        time = refl;
        interval = next k f;
        least = f.least;
        most = f.most;
        spacing = f.spacing;
      })
    where
      next :
          (k : ℕ)
          → Failed k clock c (failures k clock errors c)
          → (let d = failures k clock errors c in
              if d.last_retry_fail_count == 0 then d.last_retry_interval else next_interval d)
            ≡ interval_after (suc k) c.wait_interval_min c.wait_interval_max
      next zero f = ground (arith, f.fails, f.interval)
      next (suc j) f = ground (arith, f.fails, next-interval j clock c _ low ordered f)

  -- When k + 1 fetches in a row, none refused as too early, have failed, the next one first sleeps
  -- for the least wait doubled k times, or for the greatest wait if that is less.
  pub failed_fetch_backoff :
      (k now : ℕ)
      → (start_fetch now (failures (suc k) clock errors c)).0
        ≡ min c.wait_interval_max (doubled k c.wait_interval_min)
  unfolding start_fetch
  failed_fetch_backoff k now =
      let f = failures-Failed (suc k) in
      ground
        (arith, f.fails, next-interval k clock c (failures (suc k) clock errors c) low ordered f)
