-- ===== src/Auth/Rows.antt =====
-- researchops/services/auth_service.py and researchops/storage/schema.sql: the accounts' tables, the
-- caller's principal, the session that a request holds, and what a call takes from outside. An
-- instant is a number of microseconds.
use research_ops_automation.Base.{
  ℕ, String, Bool, true, false, ◌&&◌, ◌*◌, ◌==◌, Option, List, [], ◌∷◌, ◌++◌, opt_str_eq,
}
use research_ops_automation.Base.Json.{Json}
use Prim.Native.String
use research_ops_automation.Domain.{Db}

pub data Role : Type 0 where
  admin user viewer : Role

unfoldable pub is_admin_role : Role → Bool
is_admin_role Role.admin = true
is_admin_role _ = false

unfoldable pub is_user_role : Role → Bool
is_user_role Role.user = true
is_user_role _ = false

unfoldable pub is_viewer_role : Role → Bool
is_viewer_role Role.viewer = true
is_viewer_role _ = false

unfoldable pub same_role : Role → Role → Bool
same_role Role.admin role = is_admin_role role
same_role Role.user role = is_user_role role
same_role Role.viewer role = is_viewer_role role

pub data SessionKind : Type 0 where
  preauth authenticated : SessionKind

unfoldable pub is_authenticated : SessionKind → Bool
is_authenticated SessionKind.preauth = false
is_authenticated SessionKind.authenticated = true

-- a row of auth_users
pub record User : Type 0 where
  pub user_id : String
  pub username : String
  pub display_name : String
  pub password_hash : String
  pub role : Role
  pub active : Bool
  pub must_change_password : Bool
  pub credential_revision : ℕ
  pub created_at : ℕ
  pub updated_at : ℕ

-- a row of auth_sessions
pub record Session : Type 0 where
  pub token_hash : String
  pub user_id : Option String
  pub kind : SessionKind
  pub csrf_token : String
  pub created_at : ℕ
  pub last_seen_at : ℕ
  pub expires_at : ℕ
  pub credential_revision : Option ℕ

-- a row of auth_login_attempts
pub record LoginAttempts : Type 0 where
  pub attempt_key : String
  pub window_started : ℕ
  pub attempt_count : ℕ

-- the row of auth_bootstrap
pub record Bootstrap : Type 0 where
  pub token_hash : String
  pub expires_at : ℕ

-- a row of auth_user_tasks
pub record UserTask : Type 0 where
  pub user_id : String
  pub task_id : String

-- the accounts' tables, beside those of the runs and deliveries
pub record Accounts : Type 0 where
  pub users : List User
  pub sessions : List Session
  pub login_attempts : List LoginAttempts
  pub bootstrap : Option Bootstrap
  pub user_tasks : List UserTask
  pub installation_owner : Option String
  pub tables : Db

pub record Principal : Type 0 where
  pub user_id : String
  pub username : String
  pub display_name : String
  pub role : Role
  pub must_change_password : Bool

pub record BrowserSession : Type 0 where
  pub principal : Option Principal
  pub token_digest : String
  pub csrf_token : String
  pub kind : SessionKind
  pub created_at : ℕ
  pub last_seen_at : ℕ
  pub expires_at : ℕ

pub record SessionGrant : Type 0 where
  pub token : String
  pub session : BrowserSession

-- What one call takes from outside: the clock, the random texts it draws, and whether a slot for
-- the derivation of a password is free.
pub record Call : Type 0 where
  pub now : ℕ
  pub token : String
  pub csrf : String
  pub salt : String
  pub fresh_id : String
  pub slot_free : Bool

abbrev pub seconds : ℕ → ℕ
seconds n = n * 1000000

abbrev pub session_idle : ℕ
session_idle = seconds 7200

abbrev pub session_absolute : ℕ
session_absolute = seconds 43200

abbrev pub preauth_time : ℕ
preauth_time = seconds 900

abbrev pub bootstrap_time : ℕ
bootstrap_time = seconds 1800

abbrev pub login_window : ℕ
login_window = seconds 300

abbrev pub login_account_limit : ℕ
login_account_limit = 10

abbrev pub login_global_limit : ℕ
login_global_limit = 60

abbrev pub preauth_limit : ℕ
preauth_limit = 1000

-- Principal.audit_actor
abbrev pub audit_actor : Principal → String
audit_actor p = String.◌++◌ "user:" p.user_id

unfoldable pub principal_of : User → Principal
principal_of u = record {
  user_id = u.user_id;
  username = u.username;
  display_name = u.display_name;
  role = u.role;
  must_change_password = u.must_change_password;
}

abbrev pub user_is : String → User → Bool
user_is user_id u = u.user_id == user_id

abbrev pub username_is : String → User → Bool
username_is username u = u.username == username

abbrev pub token_is : String → Session → Bool
token_is digest s = s.token_hash == digest

abbrev pub session_of : String → Session → Bool
session_of user_id s = opt_str_eq s.user_id user_id

abbrev pub is_active_admin : User → Bool
is_active_admin u = is_admin_role u.role && u.active

-- _audit
unfoldable pub audit : ℕ → String → String → String → Json → Accounts → Accounts
audit now actor event_type user_id details auth = record auth {
  tables = record auth.tables {
    audit_events =
        auth.tables.audit_events
        ++ record {
          entity_type = "user";
          entity_id = user_id;
          event_type = event_type;
          details_json = details;
          actor = actor;
          occurred_at = now;
        }
          ∷ [];
  };
}
