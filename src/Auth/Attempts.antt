-- ===== src/Auth/Attempts.antt =====
-- auth_service.py: the limits on the attempts to log in.
use Prim.Native.String
use research_ops_automation.Base.{
  ℕ, String, Bool, false, ◌==◌, ◌+◌, leb, Option, none, some, List, [], ◌∷◌, ◌++◌, find, exists,
  remove_where, update_where, Result, ok, err, ◌>>=◌, ◌>>◌, guard, rate_limit, if◌then◌else◌,
}
use research_ops_automation.Base.Host.{Host}
use research_ops_automation.Auth.Rows.{
  LoginAttempts, Accounts, Call, login_window, login_account_limit, login_global_limit,
}

abbrev pub attempts_of : String → LoginAttempts → Bool
attempts_of key row = row.attempt_key == key

abbrev pub window_over : ℕ → LoginAttempts → Bool
window_over now row = leb (row.window_started + login_window) now

unfoldable pub at_limit : ℕ → Option LoginAttempts → Bool
at_limit limit none = false
at_limit limit (some row) = leb limit row.attempt_count

abbrev pub one_more : LoginAttempts → LoginAttempts
one_more row = record row { attempt_count = row.attempt_count + 1 }

-- INSERT … ON CONFLICT DO UPDATE SET attempt_count = attempt_count + 1
unfoldable pub count_attempt : ℕ → String → List LoginAttempts → List LoginAttempts
count_attempt now key rows =
    if exists (attempts_of key) rows
    then update_where (attempts_of key) one_more rows
    else rows ++ record { attempt_key = key; window_started = now; attempt_count = 1 } ∷ []

unfoldable pub count_attempts : ℕ → String → List LoginAttempts → Result (List LoginAttempts)
unfolding at_limit count_attempt
count_attempts now key rows =
    guard (at_limit login_global_limit (find (attempts_of "global") rows)) (rate_limit "Try again")
    >> (guard (at_limit login_account_limit (find (attempts_of key) rows)) (rate_limit "Try again")
        >> ok (count_attempt now key (count_attempt now "global" rows)))

-- what a call gives, and the tables after it, whether it raises or not
abbrev pub Reply : Type 0 → Type 0
Reply A = Accounts × Result A

-- a transaction that raises leaves the tables as they were
unfoldable pub commit {ℓ} : {A : Type ℓ} → Accounts → Result (A × Accounts) → Accounts × Result A
commit auth (err raised) = (auth, err raised)
commit auth (ok (value, stored)) = (stored, ok value)

module _ (host : Host) where
  abbrev pub account_key : String → String
  account_key username = String.◌++◌ "account:" (host.sha256 username)

  -- _reserve_attempt
  unfoldable pub reserve_attempt : Call → String → Accounts → Result (String × Accounts)
  unfolding count_attempts
  reserve_attempt call username auth =
      count_attempts call.now (account_key username)
        (remove_where (window_over call.now) auth.login_attempts)
      >>= λ rows. ok (account_key username, record auth { login_attempts = rows })
