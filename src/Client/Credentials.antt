-- ===== src/Client/Credentials.antt =====
-- credentials.go and credentials_provider.go: the provider that calls the user's function for new
-- credentials before the old ones expire. `answers k` is the user's k-th answer in one call of
-- GetCredentials; times are nanoseconds since 1970, and the expiry is kept in milliseconds. The
-- texts of the errors are left out, but for how many were joined.
pub mod Fresh
use aliyun_log_go_sdk.Prelude.{
  ℕ, zero, suc, ◌+◌, ◌*◌, ◌/◌, ◌^◌, Option, none, some, List, [], ◌∷◌, ◌++◌, Bool, true, false, Str,
  str_eq, not, ◌&&◌, if◌then◌else◌,
}
use aliyun_log_go_sdk.Prelude.Int.{ℤ, pos, negsuc, ◌*ℤ◌, ◌-ℤ◌, ltb_ℤ}
use aliyun_log_go_sdk.Producer.Config.{leb_ℤ}
use aliyun_log_go_sdk.Client.Token.{Key}

pub record TempCredentials : Type 0 where
  pub credentials : Key
  pub expiration_in_mills : ℤ
  pub last_updated_in_mills : ℤ

unfoldable pub has_expired : ℤ → TempCredentials → Bool
has_expired now_ms t = leb_ℤ t.expiration_in_mills now_ms

-- What the user's function returns: an error, or the key and its expiry, `UnixNano` of it.
pub data Answer : Type 0 where
  refused : ℕ → Answer
  given : Key → ℤ → Answer

-- The error of one fetch.
pub data FetchError : Type 0 where
  update_failed : ℕ → FetchError
  not_valid : FetchError

unfoldable pub check_sts_token_valid : Key → ℤ → Bool
check_sts_token_valid key expire_ns =
    not (str_eq key.access_key_id [])
    && (not (str_eq key.access_key_secret []) && ltb_ℤ (pos 0) expire_ns)

pub data Fetched : Type 0 where
  fetched : TempCredentials → Fetched
  failed : FetchError → Fetched

-- Go divides integers towards zero.
abbrev div_int : ℤ → ℕ → ℤ
div_int (pos n) d = pos (n / d)
div_int (negsuc n) d = pos 0 -ℤ pos ((n + 1) / d)

-- `updateFuncFetcher`
unfoldable pub update_func_fetcher : Answer → Fetched
update_func_fetcher (refused e) = failed (update_failed e)
update_func_fetcher (given key expire_ns) =
    if check_sts_token_valid key expire_ns
    then fetched (record {
      credentials = key;
      expiration_in_mills = div_int expire_ns (10 ^ 6);
      last_updated_in_mills = negsuc 0;
    })
    else failed not_valid

-- The loop of `fetcherWithRetry`, for the tries that are left, with the errors so far: new
-- credentials, or all errors.
pub data Retried : Type 0 where
  got : TempCredentials → Retried
  exceeded : List FetchError → Retried

unfoldable pub retry_loop : ℕ → (ℕ → Answer) → List FetchError → Retried
retry_loop zero answers errors = exceeded errors
retry_loop (suc tries) answers errors = elim (update_func_fetcher (answers 0)) [
  | fetched cred ↦ got cred
  | failed e ↦ retry_loop tries (λ k. answers (suc k)) (errors ++ e ∷ [])
]

-- `fetcherWithRetry` of `updateFuncFetcher`
unfoldable pub fetcher_with_retry : ℤ → (ℕ → Answer) → Retried
unfolding retry_loop
fetcher_with_retry (pos retry_times) answers = retry_loop (suc retry_times) answers []
fetcher_with_retry (negsuc n) answers = exceeded []

-- The atomic values of the adapter.
pub record UpdateFuncProviderAdapter : Type 0 where
  pub cred : Option Key
  pub expiration_in_mills : ℤ
  pub advance_duration : ℤ

unfoldable pub new_update_func_provider_adapter : UpdateFuncProviderAdapter
new_update_func_provider_adapter = record {
  cred = none;
  expiration_in_mills = pos 0;
  advance_duration = pos (60 * 10 * 10 ^ 9);
}

abbrev pub update_func_retry_times : ℤ
update_func_retry_times = pos 3

abbrev pub is_expiring : ℤ → UpdateFuncProviderAdapter → Bool
is_expiring now_ns adp =
    leb_ℤ (adp.expiration_in_mills *ℤ pos (10 ^ 6) -ℤ now_ns) adp.advance_duration

unfoldable pub should_refresh : ℤ → UpdateFuncProviderAdapter → Bool
should_refresh now_ns adp = elim (adp.cred) [ none ↦ true | some key ↦ is_expiring now_ns adp ]

pub data Result : Type 0 where
  credentials : Key → Result
  no_credentials : List FetchError → Result

-- The two values that are stored one after the other, as one step.
abbrev pub store : Retried → UpdateFuncProviderAdapter → Result × UpdateFuncProviderAdapter
store (got res) adp = (
  credentials res.credentials,
  record adp { cred = some res.credentials; expiration_in_mills = res.expiration_in_mills },
)
store (exceeded errors) adp = (no_credentials errors, adp)

-- `GetCredentials`; without a key that was stored it refreshes.
unfoldable pub get_credentials :
    ℤ → (ℕ → Answer) → UpdateFuncProviderAdapter → Result × UpdateFuncProviderAdapter
unfolding should_refresh
get_credentials now_ns answers adp =
    if should_refresh now_ns adp
    then store (fetcher_with_retry update_func_retry_times answers) adp
    else elim (adp.cred) [ none ↦ (no_credentials [], adp) | some key ↦ (credentials key, adp) ]
