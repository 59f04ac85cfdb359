-- ===== src/Auth/Refused.antt =====
-- Once there is an administrator, AuthService.setup makes no other and no token is issued for it.
use research_ops_automation.Base.{
  String, false, ◌&&◌, ◌≡◌, refl, Option, none, some, List, Result, ok, err, is_ok, validation,
  Bool-cases, Result-cases, inl, inr, ◌>>=◌,
}
use research_ops_automation.Base.Host.{Host}
use research_ops_automation.Auth.Rows.{Accounts, Call}
use research_ops_automation.Auth.Passwords.{
  Crypt, is_token, check_username, check_display_name, hash_password,
}
use research_ops_automation.Auth.Sessions.{issue_setup_token}
use research_ops_automation.Auth.Attempts.{commit, reserve_attempt}
use research_ops_automation.Auth.Setup.{
  first_admin, insert_admin, setup, setup_checked, setup_reserved, bootstrap_valid,
}
use research_ops_automation.Auth.Steps.{Request, steps}
use research_ops_automation.Auth.Soundness.{IsSoundAccounts}
use research_ops_automation.Auth.Promises.{steps-IsSoundAccounts, reserve-IsSound}
use research_ops_automation.Auth.Admins.{IsStaffed}
use research_ops_automation.Auth.Staffed.{staffed_some, setup_done, reserve-users, steps-IsStaffed}

module _ (host : Host) (crypt : Crypt) (call : Call) (later : List Request) where
  -- the last transaction of setup, whatever came between
  reserved_refused :
      (token : Option String) (username password display_name : String) (auth : Accounts)
      → IsSoundAccounts auth
      → IsStaffed auth.users
      → is_ok
          (setup_reserved host crypt call token username password display_name
            (steps host later)
            auth).1
        ≡ false
  unfolding setup_reserved commit
  reserved_refused none username password display_name auth sound staffed = refl
  reserved_refused (some token) username password display_name auth sound staffed =
      elim (Bool-cases (is_token token && bootstrap_valid host call token auth.bootstrap)) [
        | inr f ↦ rw f refl
        | inl t ↦ rw t (hashed (hash_password crypt call password) refl)
      ]
    where
      hashed :
          (r : Result String)
          → hash_password crypt call password ≡ r
          → is_ok
              (commit (steps host later auth) (
                r >>= λ credential.
                insert_admin host call token
                  (first_admin call username display_name credential)
                  (steps host later auth))).1
            ≡ false
      hashed (err raised) e = refl
      hashed (ok credential) e =
          rw
            (setup_done host call token (first_admin call username display_name credential)
              (steps host later auth)
              (staffed_some (steps host later auth).users
                (steps-IsStaffed host later auth sound staffed)))
            refl

  checked_refused :
      (token : Option String) (username password : String) (auth : Accounts)
      (r : Result (String × Accounts)) (name : Result String)
      → reserve_attempt host call "bootstrap" auth ≡ r
      → IsSoundAccounts auth
      → IsStaffed auth.users
      → is_ok
          (setup_checked host crypt call token username password (steps host later) r auth name).1
        ≡ false
  unfolding setup_checked
  checked_refused token username password auth r (err raised) e sound staffed = refl
  checked_refused token username password auth (err raised) (ok name) e sound staffed = refl
  checked_refused token username password auth (ok (key, stored)) (ok name) e sound staffed =
      reserved_refused token username password name stored
        (reserve-IsSound host call "bootstrap" key auth stored e sound)
        (rw (reserve-users host call "bootstrap" key auth stored e) staffed)

  -- Where the accounts are sound and have an active administrator, then after every sequence of
  -- transactions setup raises, whatever its arguments and whatever transactions run between its
  -- own two, and the issue of a setup token is refused as complete.
  pub setup_refused :
      (requests : List Request) (auth : Accounts) (token : Option String)
      (username password : String) (display_name : Option String)
      → IsSoundAccounts auth
      → IsStaffed auth.users
      → (is_ok
            (setup host crypt call token username password display_name
              (steps host later)
              (steps host requests auth)).1
          ≡ false)
        × (issue_setup_token host call (steps host requests auth)
            ≡ err (validation "Setup is complete"))
  unfolding issue_setup_token setup
  setup_refused requests auth token username password display_name sound staffed =
      let after = steps host requests auth in
      let some_user = staffed_some after.users (steps-IsStaffed host requests auth sound staffed) in
      (
        elim (Result-cases (check_username crypt username)) [
          | inr (raised, e) ↦ rw e refl
          | inl (name, e) ↦ rw e (
              checked_refused token name password after
                (reserve_attempt host call "bootstrap" after) (check_display_name display_name name)
                refl (steps-IsSoundAccounts host requests auth sound)
                (steps-IsStaffed host requests auth sound staffed))
        ],
        rw some_user refl,
      )
