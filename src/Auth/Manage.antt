-- ===== src/Auth/Manage.antt =====
-- auth_service.py: changes of an account and of its password.

use research_ops_automation.Base.{
  ℕ, String, Bool, true, false, not, ◌&&◌, ◌||◌, ◌==◌, ◌+◌, eqb, leb, Option, none, some, is_some,
  List, ◌++◌, find, exists, remove_where, update_where, count_where, Result, ok, ◌>>=◌, ◌>>◌, guard,
  require, validation, not_found, authentication, if◌then◌else◌,
}
use research_ops_automation.Base.Host.{Host}
use research_ops_automation.Base.Json.{str, bool, obj, end, field}
use research_ops_automation.Auth.Rows.{
  Role, User, Accounts, Principal, SessionGrant, Call, user_is, username_is, session_of, audit,
  audit_actor, is_admin_role, is_viewer_role, same_role, is_active_admin,
}
use research_ops_automation.Auth.Passwords.{
  Crypt, check_username, check_display_name, hash_password, verify_password,
}
use research_ops_automation.Auth.Sessions.{new_session}
use research_ops_automation.Auth.Users.{
  current_user, require_admin, task_ids, grants_for, granted_to, viewer_grants, role_text,
}

unfoldable pub or_value {ℓ} : {A : Type ℓ} → Option A → A → A
or_value none old = old
or_value (some new) old = new

-- the arguments of update_user
pub record UserChange : Type 0 where
  pub display_name : Option String
  pub role : Option Role
  pub active : Option Bool
  pub task_ids : Option (List String)

abbrev pub new_role : UserChange → User → Role
new_role change user = or_value change.role user.role

abbrev pub new_active : UserChange → User → Bool
new_active change user = or_value change.active user.active

abbrev pub revokes : UserChange → User → Bool
revokes change user =
    not (same_role (new_role change user) user.role)
    || (if new_active change user then not user.active else user.active)

-- the change takes the last active administrator away
unfoldable pub strips_admin : UserChange → User → List User → Bool
unfolding or_value
strips_admin change user users =
    is_active_admin user
    && (not (is_admin_role (new_role change user)) || not (new_active change user))
    && leb (count_where is_active_admin users) 1

unfoldable pub new_name : UserChange → User → Result String
unfolding check_display_name
new_name change user = named change.display_name
  where
    named : Option String → Result String
    named none = ok user.display_name
    named (some name) = check_display_name (some name) user.username

unfoldable pub new_grants : Option (List String) → Accounts → Result (Option (List String))
unfolding task_ids
new_grants none auth = ok none
new_grants (some ids) auth = task_ids ids auth >>= λ grants. ok (some grants)

-- UPDATE auth_users of update_user
abbrev pub changed_user : ℕ → UserChange → User → String → User → User
changed_user now change old name u = record u {
  display_name = name;
  role = new_role change old;
  active = new_active change old;
  updated_at = now;
  credential_revision = u.credential_revision + (if revokes change old then 1 else 0);
}

unfoldable pub revoke_sessions : Bool → String → Accounts → Accounts
revoke_sessions revoke user_id auth =
    if revoke
    then record auth { sessions = remove_where (session_of user_id) auth.sessions }
    else auth

unfoldable pub replace_grants : Role → Bool → String → Option (List String) → Accounts → Accounts
unfolding viewer_grants
replace_grants role role_changed user_id none auth =
    if not (is_viewer_role role) || role_changed
    then record auth { user_tasks = remove_where (granted_to user_id) auth.user_tasks }
    else auth
replace_grants role role_changed user_id (some grants) auth = record auth {
  user_tasks =
      remove_where (granted_to user_id) auth.user_tasks
      ++ grants_for user_id (viewer_grants role grants);
}

abbrev pub actor_text : Option Principal → String
actor_text none = "user:"
actor_text (some p) = audit_actor p

-- the writes of update_user
unfoldable pub write_change :
    ℕ → Option Principal → UserChange → User → String → Option (List String) → Accounts → Accounts
unfolding revoke_sessions replace_grants audit role_text
write_change now actor change user name grants auth =
    audit now (actor_text actor) "auth_user_updated" user.user_id
      (obj (
        field "role" (str (role_text (new_role change user))) (
          field "active" (bool (new_active change user))
            (field "grants_changed" (bool (is_some grants)) end))))
      (replace_grants (new_role change user) (not (same_role (new_role change user) user.role))
        user.user_id grants
        (revoke_sessions (revokes change user) user.user_id (record auth {
          users =
              update_where (user_is user.user_id) (changed_user now change user name) auth.users;
        })))

unfoldable pub update_user :
    Call → Option Principal → String → UserChange → Accounts → Result Accounts
unfolding current_user strips_admin new_name new_grants write_change
update_user call actor user_id change auth = current_user true false actor auth >>= λ admin.
    require (find (user_is user_id) auth.users) (not_found "Account") >>= λ user.
    guard (strips_admin change user auth.users) (validation "Last active administrator")
    >> (new_name change user >>= λ name. new_grants change.task_ids auth >>= λ grants.
        ok (write_change call.now actor change user name grants auth))

abbrev pub with_password : ℕ → String → Bool → User → User
with_password now credential must_change u = record u {
  password_hash = credential;
  must_change_password = must_change;
  credential_revision = u.credential_revision + 1;
  updated_at = now;
}

-- _replace_password
unfoldable pub replace_password : ℕ → String → String → Bool → Accounts → Accounts
replace_password now user_id credential must_change auth = record auth {
  users = update_where (user_is user_id) (with_password now credential must_change) auth.users;
  sessions = remove_where (session_of user_id) auth.sessions;
}

-- the transaction of reset_password
unfoldable pub store_reset : Call → Option Principal → String → String → Accounts → Result Accounts
unfolding current_user replace_password audit
store_reset call actor user_id credential auth = current_user true false actor auth >>= λ admin.
    guard (not (exists (user_is user_id) auth.users)) (not_found "Account")
    >> ok (
        audit call.now (actor_text actor) "auth_password_reset" user_id (obj end)
          (replace_password call.now user_id credential true auth))

-- the transaction of reset_password_from_cli
unfoldable pub store_recovery : Call → String → String → Accounts → Result Accounts
unfolding replace_password audit
store_recovery call username credential auth =
    require (find (username_is username) auth.users) (not_found "Account") >>= λ row. ok (
      audit call.now "host-cli" "auth_password_recovered" row.user_id (obj end)
        (replace_password call.now row.user_id credential false auth))

module _ (host : Host) where
  -- the transaction of change_password
  unfoldable pub store_password :
      Call → Option Principal → User → String → Accounts → Result (SessionGrant × Accounts)
  unfolding current_user replace_password audit new_session
  store_password call principal row credential auth =
      current_user false true principal auth >>= λ current.
      guard (not (eqb current.credential_revision row.credential_revision))
        (authentication "Log in again")
      >> renewed
          (audit call.now (actor_text principal) "auth_password_changed" current.user_id (obj end)
            (replace_password call.now current.user_id credential false auth))
          current.user_id
    where
      renewed : Accounts → String → Result (SessionGrant × Accounts)
      renewed stored user_id = new_session host call (find (user_is user_id) stored.users) stored

module _ (crypt : Crypt) where
  -- reset_password; `meanwhile` is what other connections do before its transaction
  unfoldable pub reset_password :
      Call → Option Principal → String → String → (Accounts → Accounts) → Accounts → Result Accounts
  unfolding require_admin hash_password store_reset
  reset_password call actor user_id password meanwhile auth = require_admin actor auth >>= λ admin.
      hash_password crypt call password >>= λ credential.
      store_reset call actor user_id credential (meanwhile auth)

  unfoldable pub reset_password_from_cli : Call → String → String → Accounts → Result Accounts
  unfolding check_username hash_password store_recovery
  reset_password_from_cli call username password auth = check_username crypt username >>= λ name.
      hash_password crypt call password >>= λ credential. store_recovery call name credential auth

  module _ (host : Host) where
    -- change_password; `meanwhile` is what other connections do before its transaction
    unfoldable pub change_password :
        Call
        → Option Principal
        → String
        → String
        → (Accounts → Accounts)
        → Accounts
        → Result (SessionGrant × Accounts)
    unfolding current_user verify_password hash_password store_password
    change_password call principal current_password new_password meanwhile auth =
        current_user false true principal auth >>= λ row.
        verify_password crypt call (some row.password_hash) current_password >>= λ valid.
        guard (not valid) (authentication "Current password")
        >> (guard (current_password == new_password) (validation "Another password")
            >> (hash_password crypt call new_password >>= λ credential.
                store_password host call principal row credential (meanwhile auth)))
