-- ===== src/Auth/Promises.antt =====
-- What the accounts promise after any sequence of transactions: sessions that count, and for how long.
use research_ops_automation.Base.{
  ◌+◌, ◌*◌, ◌<◌, Some, exists-Some, eq_iff, ap, opt_str_eq, ℕ, String, true, ◌≡◌, Option, none,
  some, List, [], ◌∷◌, find, exists, remove_where, ok, Bool-cases, inl, inr, arith, >>=-ok,
  guard-ok, validation,
}
use research_ops_automation.Base.Host.{Host}
use research_ops_automation.Auth.Rows.{
  User, Session, Accounts, Call, BrowserSession, token_is, audit, is_authenticated,
}
use research_ops_automation.Auth.Passwords.{is_token}
use research_ops_automation.Auth.Sessions.{
  backs, has_revision, touch_row, touchable, seen_at, logout, audit_logout, issue_setup_token,
  resolve_session, check_row, check_user, resolve_row, user_of,
}
use research_ops_automation.Auth.Attempts.{
  reserve_attempt, count_attempts, account_key, window_over,
}
use research_ops_automation.Auth.Users.{created_user}
use research_ops_automation.Auth.Steps.{Request, step, steps}
use research_ops_automation.Auth.Soundness.{
  IsSoundAccounts, remove_where-IsSound, update_sessions-IsSound,
}
use research_ops_automation.Auth.Kept.{
  kept-IsSound, kept_with-IsSound, new_preauth-IsSound, open_session-IsSound,
}
use research_ops_automation.Auth.Managed.{
  setup-IsSound, change-IsSound, create-IsSound, reset-IsSound, recover-IsSound, pair_value,
}
use research_ops_automation.Auth.Updated.{update-IsSound, either-IsSound}

module _ (host : Host) where
  touch-IsSound :
      (now : ℕ) (row : Session) (user : User) (auth : Accounts)
      → IsSoundAccounts auth
      → IsSoundAccounts (touch_row host now row user auth).0
  unfolding touch_row
  touch-IsSound now row user auth sound =
      elim (Bool-cases (exists (touchable host now row.token_hash auth.users) auth.sessions)) [
        | inl t ↦ rw t (
            update_sessions-IsSound auth.users (touchable host now row.token_hash auth.users)
              (seen_at host now) auth.sessions (λ s t counts. counts) sound)
        | inr f ↦ rw f sound
      ]

  logged-IsSound :
      (call : Call) (row : Option Session) (auth : Accounts)
      → IsSoundAccounts auth
      → IsSoundAccounts (audit_logout host call row auth)
  unfolding audit_logout audit
  logged-IsSound call none auth sound = sound
  logged-IsSound call (some row) auth sound = named row.user_id
    where
      named :
          (u : Option String)
          → IsSoundAccounts (audit_logout host call (some (record row { user_id = u })) auth)
      named none = sound
      named (some u) = sound

  logout-IsSound :
      (call : Call) (raw : Option String) (auth : Accounts)
      → IsSoundAccounts auth
      → IsSoundAccounts (logout host call raw auth)
  unfolding logout
  logout-IsSound call none auth sound = sound
  logout-IsSound call (some raw) auth sound =
      either-IsSound (is_token raw) _ auth
        (logged-IsSound call (find (token_is (host.sha256 raw)) auth.sessions) _
          (remove_where-IsSound auth.users (token_is (host.sha256 raw)) auth.sessions sound))
        sound

  pub reserve-IsSound :
      (call : Call) (username key : String) (auth stored : Accounts)
      → reserve_attempt host call username auth ≡ ok (key, stored)
      → IsSoundAccounts auth
      → IsSoundAccounts stored
  unfolding reserve_attempt
  reserve-IsSound call username key auth stored h sound =
      let (rows, _, h1) =
        >>=-ok
          (count_attempts call.now (account_key host username)
            (remove_where (window_over call.now) auth.login_attempts))
          _ h in
      rw (← pair_value h1) sound

  token-IsSound :
      (call : Call) (token : String) (auth stored : Accounts)
      → issue_setup_token host call auth ≡ ok (token, stored)
      → IsSoundAccounts auth
      → IsSoundAccounts stored
  unfolding issue_setup_token audit
  token-IsSound call token auth stored h sound =
      let (_, h1) =
        guard-ok (exists (λ (u : User). true) auth.users) (validation "Setup is complete") _ h in
      rw (← pair_value h1) sound

  pub step-IsSound :
      (request : Request) (auth : Accounts)
      → IsSoundAccounts auth
      → IsSoundAccounts (step host request auth)
  unfolding step
  step-IsSound (Request.preauth call) auth sound =
      kept_with-IsSound auth _ sound
        (λ g stored h. new_preauth-IsSound host call auth g stored h sound)
  step-IsSound (Request.setup_token call) auth sound =
      kept_with-IsSound auth _ sound (λ g stored h. token-IsSound call g auth stored h sound)
  step-IsSound (Request.touch call row user) auth sound = touch-IsSound call.now row user auth sound
  step-IsSound (Request.log_out call raw) auth sound = logout-IsSound call raw auth sound
  step-IsSound (Request.reserve call username) auth sound =
      kept_with-IsSound auth _ sound
        (λ g stored h. reserve-IsSound call username g auth stored h sound)
  step-IsSound (Request.setup call token username display_name credential) auth sound =
      kept_with-IsSound auth _ sound (λ g stored h.
        setup-IsSound host call token username display_name credential auth g stored h sound)
  step-IsSound (Request.log_in call key user) auth sound =
      kept_with-IsSound auth _ sound
        (λ g stored h. open_session-IsSound host call key user auth g stored h sound)
  step-IsSound (Request.create call actor username display_name role credential ids) auth sound =
      kept_with-IsSound auth _ sound (λ g stored h.
        create-IsSound call actor (created_user call username display_name role credential) ids auth
          g stored h sound)
  step-IsSound (Request.update call actor user_id changes) auth sound =
      kept-IsSound auth _ sound
        (λ stored h. update-IsSound call actor user_id changes auth stored h sound)
  step-IsSound (Request.reset call actor user_id credential) auth sound =
      kept-IsSound auth _ sound
        (λ stored h. reset-IsSound call actor user_id credential auth stored h sound)
  step-IsSound (Request.recover call username credential) auth sound =
      kept-IsSound auth _ sound
        (λ stored h. recover-IsSound call username credential auth stored h sound)
  step-IsSound (Request.change call principal row credential) auth sound =
      kept_with-IsSound auth _ sound
        (λ g stored h. change-IsSound host call principal row credential auth g stored h sound)

  -- Every sequence of the transactions on accounts keeps them sound: a user is one row at most,
  -- and each stored session ends within twelve hours of its creation and, where it is
  -- authenticated, names an active user with the revision of its credentials.
  pub steps-IsSoundAccounts :
      (requests : List Request) (auth : Accounts)
      → IsSoundAccounts auth
      → IsSoundAccounts (steps host requests auth)
  unfolding steps
  steps-IsSoundAccounts [] auth sound = sound
  steps-IsSoundAccounts (r ∷ rs) auth sound =
      steps-IsSoundAccounts rs (step host r auth) (step-IsSound r auth sound)

  -- a row that the token still opens: not expired, seen within two hours, and of an active user
  -- at the revision of the row
  abbrev pub Live : ℕ → String → List User → Session → Type 0
  Live now digest users s =
      (s.token_hash ≡ digest)
      × (now < s.expires_at)
      × (now < s.last_seen_at + 7200 * 1000000)
      × Some
          (λ (u : User).
            (s.user_id ≡ some u.user_id)
            × (u.active ≡ true)
            × (s.credential_revision ≡ some u.credential_revision))
          users

  backs-user :
      (s : Session) (u : User)
      → backs s u ≡ true
      → (s.user_id ≡ some u.user_id)
        × (u.active ≡ true)
        × (s.credential_revision ≡ some u.credential_revision)
  backs-user s u h = (
    named s.user_id (ground (arith, h)),
    ground (arith, h),
    revised s.credential_revision (ground (arith, h)),
  )
    where
      named : (o : Option String) → opt_str_eq o u.user_id ≡ true → o ≡ some u.user_id
      named none q = cc
      named (some t) q = ap some ((eq_iff t u.user_id).0 q)

      revised :
          (o : Option ℕ)
          → has_revision o u.credential_revision ≡ true
          → o ≡ some u.credential_revision
      revised none q = cc
      revised (some t) q = ap some (ground (arith, q))

  touchable-Live :
      (now : ℕ) (digest : String) (users : List User) (s : Session)
      → touchable host now digest users s ≡ true
      → Live now digest users s
  touchable-Live now digest users s h = (
    (eq_iff s.token_hash digest).0 (ground (arith, h)),
    ground (arith, h),
    ground (arith, h),
    exists-Some (backs s) _ users (λ u t. backs-user s u t) (ground (arith, h)),
  )

  -- Where resolve_session extends and gives an authenticated session, then in the tables that
  -- its UPDATE sees, whatever other connections did since it read them, some session has its
  -- token's digest, has neither expired nor been idle for two hours, and names a user who is
  -- active with the session's revision; and the session that it gives is seen at the time of the
  -- call.
  pub touched_counts :
      (call : Call) (raw : Option String) (meanwhile : Accounts → Accounts) (auth : Accounts)
      (b : BrowserSession)
      → (resolve_session host call true raw meanwhile auth).1 ≡ some b
      → is_authenticated b.kind ≡ true
      → Some (Live call.now b.token_digest (meanwhile auth).users) (meanwhile auth).sessions
        × (b.last_seen_at ≡ call.now)
  unfolding resolve_session check_row check_user user_of resolve_row touch_row
  touched_counts call raw meanwhile auth b h t = (
    exists-Some (touchable host call.now b.token_digest (meanwhile auth).users) _
        (meanwhile auth).sessions
        (λ s q. touchable-Live call.now b.token_digest (meanwhile auth).users s q) (ground arith),
    ground arith,
  )
