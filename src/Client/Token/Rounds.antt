-- ===== src/Client/Token/Rounds.antt =====
-- token_auto_update_client.go: the loop around each request.
use mathlib.Core.Bool.{true, false}
use aliyun_log_go_sdk.Prelude.{Bool, ℕ, zero, suc, ◌+◌, ◌<◌, ◌≡◌, ◌⊎◌, Option, some}
use aliyun_log_go_sdk.Producer.IoWorker.{Err}
use aliyun_log_go_sdk.Client.Token.{TokenAutoUpdateClient, Update, is_token_error, process_error}

-- The answer says that the token is not valid.
abbrev pub IsTokenRefusal : {A : Type 0} → A × Option Err → Type 0
IsTokenRefusal r = (e : Err) × (r.1 ≡ some e) × (is_token_error e ≡ true)

-- What processError says of the k-th answer, and the client's state then, from a first state on.
unfoldable pub round :
    {A : Type 0}
    → ℕ
    → (ℕ → A × Option Err)
    → (ℕ → ℕ)
    → (ℕ → Update)
    → TokenAutoUpdateClient
    → Bool × TokenAutoUpdateClient
round zero ask clock update c = process_error (ask 0).1 (clock 0) (update 0) c
round (suc k) ask clock update c =
    round k (λ j. ask (suc j)) (λ j. clock (suc j)) (λ j. update (suc j))
      (process_error (ask 0).1 (clock 0) (update 0) c).1

-- The result is the answer of the last of `tries` rounds at most, with the client's state behind
-- it; the answers before it refused the token, and processError asked to try again after each; and
-- it is the last that may be asked for, or processError does not ask to try again.
abbrev pub LastOf :
    {A : Type 0}
    → ℕ
    → (ℕ → A × Option Err)
    → (ℕ → ℕ)
    → (ℕ → Update)
    → TokenAutoUpdateClient
    → (A × Option Err) × TokenAutoUpdateClient
    → Type 0
LastOf tries ask clock update c r =
    (k : ℕ) × (k < tries)
    × (r.0 ≡ ask k)
    × (r.1 ≡ (round k ask clock update c).1)
    × ((j : ℕ) → j < k → IsTokenRefusal (ask j) × ((round j ask clock update c).0 ≡ true))
    × ((k + 1 ≡ tries) ⊎ ((round k ask clock update c).0 ≡ false))
