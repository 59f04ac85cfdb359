-- ===== src/Auth/Sessions.antt =====
-- auth_service.py: the browser's sessions and the setup token.
use research_ops_automation.Base.{
  ℕ, String, Bool, true, false, not, ◌&&◌, ◌||◌, ◌==◌, ◌+◌, eqb, leb, ltb, Option, none, some, List,
  [], ◌∷◌, ◌++◌, find, exists, remove_where, update_where, count_where, opt_str_eq, Result, ok, err,
  ◌>>=◌, ◌>>◌, guard, validation, rate_limit, integrity, if◌then◌else◌,
}
use research_ops_automation.Base.Host.{Host}
use research_ops_automation.Base.Json.{obj, end}
use research_ops_automation.Auth.Rows.{
  User, Session, SessionKind, Accounts, BrowserSession, SessionGrant, Principal, Call,
  is_authenticated, principal_of, user_is, token_is, audit, session_idle, session_absolute,
  preauth_time, bootstrap_time, preauth_limit,
}
use research_ops_automation.Auth.Passwords.{is_token}
use Prim.Native.String

abbrev pub has_revision : Option ℕ → ℕ → Bool
has_revision none n = false
has_revision (some r) n = eqb n r

-- the row that a session names is that user's, who is active with the session's revision
abbrev pub backs : Session → User → Bool
backs s u =
    opt_str_eq s.user_id u.user_id
    && u.active
    && has_revision s.credential_revision u.credential_revision

abbrev pub is_stale : ℕ → Session → Bool
is_stale now s =
    leb s.expires_at now || (is_authenticated s.kind && leb (s.last_seen_at + session_idle) now)

abbrev pub is_preauth : Session → Bool
is_preauth s = not (is_authenticated s.kind)

-- DELETE FROM auth_sessions of what has expired
unfoldable pub purge : ℕ → Accounts → Accounts
purge now auth = record auth { sessions = remove_where (is_stale now) auth.sessions }

-- token_hash TEXT PRIMARY KEY
unfoldable pub insert_session : Session → Accounts → Result Accounts
insert_session s auth =
    if exists (token_is s.token_hash) auth.sessions
    then err integrity
    else ok (record auth { sessions = auth.sessions ++ s ∷ [] })

-- PRIMARY KEY and UNIQUE of auth_users
unfoldable pub insert_user : User → Accounts → Result Accounts
insert_user u auth =
    if exists (user_is u.user_id) auth.users
      || exists (λ (x : User). x.username == u.username) auth.users
    then err integrity
    else ok (record auth { users = auth.users ++ u ∷ [] })

abbrev pub browser_session : Option User → Session → BrowserSession
browser_session user s = record {
  principal = principal user;
  token_digest = s.token_hash;
  csrf_token = s.csrf_token;
  kind = s.kind;
  created_at = s.created_at;
  last_seen_at = s.last_seen_at;
  expires_at = s.expires_at;
}
  where
    principal : Option User → Option Principal
    principal none = none
    principal (some u) = some (principal_of u)

module _ (host : Host) where
  abbrev pub preauth_session : Call → Session
  preauth_session call = record {
    token_hash = host.sha256 call.token;
    user_id = none;
    kind = SessionKind.preauth;
    csrf_token = call.csrf;
    created_at = call.now;
    last_seen_at = call.now;
    expires_at = call.now + preauth_time;
    credential_revision = none;
  }

  abbrev pub user_session : Call → User → Session
  user_session call user = record {
    token_hash = host.sha256 call.token;
    user_id = some user.user_id;
    kind = SessionKind.authenticated;
    csrf_token = call.csrf;
    created_at = call.now;
    last_seen_at = call.now;
    expires_at = call.now + session_absolute;
    credential_revision = some user.credential_revision;
  }

  unfoldable pub grant : Call → Option User → Session → Accounts → Result (SessionGrant × Accounts)
  unfolding insert_session
  grant call user s auth = insert_session s auth >>= λ stored.
      ok (record { token = call.token; session = browser_session user s }, stored)

  -- _new_session
  unfoldable pub new_session : Call → Option User → Accounts → Result (SessionGrant × Accounts)
  unfolding purge grant
  new_session call none auth =
      guard (leb preauth_limit (count_where is_preauth (purge call.now auth).sessions))
        (rate_limit "Try again")
      >> grant call none (preauth_session call) (purge call.now auth)
  new_session call (some user) auth =
      grant call (some user) (user_session call user) (purge call.now auth)

  unfoldable pub new_preauth_session : Call → Accounts → Result (SessionGrant × Accounts)
  unfolding new_session
  new_preauth_session call auth = new_session call none auth

  unfoldable pub issue_setup_token : Call → Accounts → Result (String × Accounts)
  unfolding audit
  issue_setup_token call auth =
      guard (exists (λ (u : User). true) auth.users) (validation "Setup is complete")
      >> ok (
        call.token,
        audit call.now "host-cli" "auth_setup_token_issued" "bootstrap" (obj end) (record auth {
          bootstrap = some (record {
            token_hash = host.sha256 call.token;
            expires_at = call.now + bootstrap_time;
          });
        }),
      )

  -- the user of an authenticated row, where the row still counts
  unfoldable pub check_user : ℕ → Session → Option User → Option (Session × Option User)
  check_user now row none = none
  check_user now row (some user) =
      if leb (row.last_seen_at + session_idle) now
        || not user.active
        || not (has_revision row.credential_revision user.credential_revision)
      then none
      else some (row, some user)

  unfoldable pub user_of : Option String → List User → Option User
  user_of none users = none
  user_of (some user_id) users = find (user_is user_id) users

  unfoldable pub check_row : ℕ → List User → Option Session → Option (Session × Option User)
  unfolding check_user user_of
  check_row now users none = none
  check_row now users (some row) =
      if leb row.expires_at now
      then none
      else if is_authenticated row.kind
      then check_user now row (user_of row.user_id users)
      else some (row, none)

  -- WHERE of the UPDATE that extends a session
  abbrev pub touchable : ℕ → String → List User → Session → Bool
  touchable now digest users s =
      token_is digest s
      && ltb now s.expires_at
      && ltb now (s.last_seen_at + session_idle)
      && exists (backs s) users

  abbrev pub seen_at : ℕ → Session → Session
  seen_at now s = record s { last_seen_at = now }

  -- what a request gets: the tables, and its session if it has one
  abbrev pub Resolved : Type 0
  Resolved = Accounts × Option BrowserSession

  unfoldable pub touch_row : ℕ → Session → User → Accounts → Resolved
  touch_row now row user auth =
      if exists (touchable now row.token_hash auth.users) auth.sessions
      then (
        record auth {
          sessions =
              update_where (touchable now row.token_hash auth.users) (seen_at now) auth.sessions;
        },
        some (browser_session (some user) (seen_at now row)),
      )
      else (auth, none)

  unfoldable pub resolve_row : ℕ → Bool → Accounts → Option (Session × Option User) → Resolved
  unfolding touch_row
  resolve_row now touch auth none = (auth, none)
  resolve_row now touch auth (some (row, none)) = (auth, some (browser_session none row))
  resolve_row now touch auth (some (row, some user)) =
      if touch then touch_row now row user auth else (auth, some (browser_session (some user) row))

  -- resolve_session; `meanwhile` is what other connections do between its reads and its UPDATE
  unfoldable pub resolve_session :
      Call → Bool → Option String → (Accounts → Accounts) → Accounts → Resolved
  unfolding is_token check_row resolve_row
  resolve_session call touch none meanwhile auth = (auth, none)
  resolve_session call touch (some raw) meanwhile auth =
      if is_token raw
      then resolve_row call.now touch (meanwhile auth)
          (check_row call.now auth.users (find (token_is (host.sha256 raw)) auth.sessions))
      else (auth, none)

  unfoldable pub audit_logout : Call → Option Session → Accounts → Accounts
  audit_logout call none auth = auth
  audit_logout call (some row) auth = logged row.user_id
    where
      logged : Option String → Accounts
      logged none = auth
      logged (some u) = audit call.now (String.◌++◌ "user:" u) "auth_logout" u (obj end) auth

  unfoldable pub logout : Call → Option String → Accounts → Accounts
  unfolding is_token audit_logout
  logout call none auth = auth
  logout call (some raw) auth =
      if is_token raw
      then audit_logout call (find (token_is (host.sha256 raw)) auth.sessions)
          (record auth { sessions = remove_where (token_is (host.sha256 raw)) auth.sessions })
      else auth
