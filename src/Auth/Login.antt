-- ===== src/Auth/Login.antt =====
-- auth_service.py: the login. A login that fails keeps the attempt that it reserved.
use Prim.Native.String
use research_ops_automation.Base.{
  String, Bool, ◌&&◌, eqb, Option, none, some, List, find, remove_where, Result, ok, err, ◌>>=◌,
  authentication, if◌then◌else◌,
}
use research_ops_automation.Base.Host.{Host}
use research_ops_automation.Base.Json.{obj, end}
use research_ops_automation.Base.Split.{take_text}
use research_ops_automation.Auth.Rows.{
  User, Accounts, SessionGrant, Call, user_is, username_is, audit,
}
use research_ops_automation.Auth.Passwords.{Crypt, is_username, normalized, verify_password}
use research_ops_automation.Auth.Sessions.{new_session}
use research_ops_automation.Auth.Attempts.{attempts_of, Reply, commit, reserve_attempt}

abbrev pub credential_of : Option User → Option String
credential_of none = none
credential_of (some user) = some user.password_hash

-- the user whom the password proves, unless the account is disabled
unfoldable pub proved : Option User → Bool → Result User
proved none valid = err (authentication "Username or password")
proved (some user) valid =
    if valid && user.active then ok user else err (authentication "Username or password")

unfoldable pub unchanged : User → Option User → Result User
unchanged user none = err (authentication "Username or password")
unchanged user (some current) =
    if current.active && eqb current.credential_revision user.credential_revision
    then ok current
    else err (authentication "Username or password")

unfoldable pub find_login : String → List User → Option User
unfolding is_username
find_login name users = if is_username name then find (username_is name) users else none

module _ (host : Host) where
  -- the last transaction of login
  unfoldable pub open_session : Call → String → User → Accounts → Result (SessionGrant × Accounts)
  unfolding unchanged audit new_session
  open_session call key user auth =
      unchanged user (find (user_is user.user_id) auth.users) >>= λ current.
      new_session host call (some current) (
        audit call.now (String.◌++◌ "user:" current.user_id) "auth_login" current.user_id (obj end)
          (record auth { login_attempts = remove_where (attempts_of key) auth.login_attempts }))

  module _ (crypt : Crypt) where
    unfoldable pub or_empty_name : Option String → String
    unfolding normalized
    or_empty_name none = ""
    or_empty_name (some username) = normalized crypt username

    unfoldable pub login_reserved :
        Call → String → String → (Accounts → Accounts) → String → Accounts → Reply SessionGrant
    unfolding find_login verify_password proved open_session commit
    login_reserved call name password meanwhile key auth = commit (meanwhile auth) (
        verify_password crypt call (credential_of (find_login name auth.users)) password
        >>= λ valid. proved (find_login name auth.users) valid >>= λ user.
            open_session call key user (meanwhile auth))

    -- login; `meanwhile` is what other connections do between its reads and its last transaction
    unfoldable pub login :
        Call → Option String → String → (Accounts → Accounts) → Accounts → Reply SessionGrant
    unfolding or_empty_name take_text reserve_attempt login_reserved
    login call username password meanwhile auth =
        reserved (reserve_attempt host call (take_text 256 (or_empty_name username)) auth)
      where
        reserved : Result (String × Accounts) → Reply SessionGrant
        reserved (err raised) = (auth, err raised)
        reserved (ok (key, stored)) =
            login_reserved call (or_empty_name username) password meanwhile key stored
