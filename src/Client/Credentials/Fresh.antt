-- ===== src/Client/Credentials/Fresh.antt =====
-- credentials_provider.go: which credentials GetCredentials gives, and what it keeps.
use mathlib.Core.Bool.{true, false}
use aliyun_log_go_sdk.Prelude.{ℕ, ◌+◌, ◌<◌, ◌≡◌, ◌⊎◌, some, List, Bool, length}
use aliyun_log_go_sdk.Prelude.Int.{ℤ}
use aliyun_log_go_sdk.Client.Token.{Key}
use aliyun_log_go_sdk.Client.Credentials.{
  TempCredentials, Answer, FetchError, fetched, failed, update_func_fetcher, Retried, got, exceeded,
  UpdateFuncProviderAdapter, is_expiring, should_refresh, Result, credentials, no_credentials,
}

-- The k-th answer gives no credentials.
abbrev pub IsUseless : Answer → Type 0
IsUseless a = (e : FetchError) × (update_func_fetcher a ≡ failed e)

-- The first answer with credentials is the k-th.
abbrev pub FirstGood : (ℕ → Answer) → ℕ → TempCredentials → Type 0
FirstGood answers k cred =
    ((j : ℕ) → j < k → IsUseless (answers j)) × (update_func_fetcher (answers k) ≡ fetched cred)

abbrev Tried : ℕ → (ℕ → Answer) → ℕ → Retried → Type 0
Tried tries answers before r =
    ((k : ℕ) × (cred : TempCredentials) × (k < tries) × FirstGood answers k cred × (r ≡ got cred))
    ⊎ ((errors : List FetchError) × ((j : ℕ) → j < tries → IsUseless (answers j))
        × (length errors ≡ before + tries)
        × (r ≡ exceeded errors))

-- What GetCredentials comes to.
abbrev pub Given :
    ℤ → (ℕ → Answer) → UpdateFuncProviderAdapter → Result × UpdateFuncProviderAdapter → Type 0
Given now_ns answers adp r =
    ((key : Key) × (adp.cred ≡ some key)
      × (is_expiring now_ns adp ≡ false)
      × (r ≡ (credentials key, adp)))
    ⊎ ((should_refresh now_ns adp ≡ true)
        × (((k : ℕ) × (cred : TempCredentials) × (k < 4)
              × FirstGood answers k cred
              × (r ≡ (
                credentials cred.credentials,
                record adp {
                  cred = some cred.credentials;
                  expiration_in_mills = cred.expiration_in_mills;
                },
              )))
            ⊎ ((errors : List FetchError) × ((j : ℕ) → j < 4 → IsUseless (answers j))
                × (length errors ≡ 4)
                × (r ≡ (no_credentials errors, adp)))))
