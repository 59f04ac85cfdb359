-- ===== src/Auth/Examples.antt =====
-- The accounts' theorems and definitions on small tables.
use research_ops_automation.Base.{
  ℕ, String, Bool, true, false, ◌≡◌, refl, ◌+◌, ◌<◌, ◌≤◌, Option, none, some, List, [], ◌∷◌, exists,
  count_where, select, find, eq_iff, arith, ok, is_ok, Some,
}
use research_ops_automation.Base.Text.{all_chars}
use research_ops_automation.Samples.{host, db}
use research_ops_automation.Domain.{RunStatus}
use research_ops_automation.Auth.Rows.{
  Role, SessionKind, User, Session, Accounts, BrowserSession, Call, user_is, principal_of,
  is_admin_role, is_user_role, is_authenticated, session_absolute, login_global_limit,
}
use research_ops_automation.Auth.Passwords.{Crypt, hash_password, verify_password}
use research_ops_automation.Auth.Sessions.{resolve_session, issue_setup_token}
use research_ops_automation.Auth.Setup.{setup}
use research_ops_automation.Base.{err, validation}
use research_ops_automation.Auth.Manage.{UserChange}
use research_ops_automation.Auth.Access.{allowed_task_ids, require_task}
use research_ops_automation.Auth.Steps.{Request, steps}
use research_ops_automation.Auth.Soundness.{IsSoundAccounts}
use research_ops_automation.Auth.Promises.{Live, steps-IsSoundAccounts, touched_counts}
use research_ops_automation.Auth.Admins.{IsStaffed}
use research_ops_automation.Auth.Staffed.{steps-IsStaffed}
use research_ops_automation.Auth.Refused.{setup_refused}
use research_ops_automation.Auth.Reach.{listed, listed-require_task}
use research_ops_automation.Auth.Credentials.{verify-hash_password}
use research_ops_automation.Auth.Limits.{passed, passed-le-limit}

abbrev token : String
token = "aaaaaaaaaaaaaaaaaaaaaaaaaaaaaaaaaaaaaaaaaaa"

-- stand-ins for Python's library: 64 letters for a digest
abbrev crypt : Crypt
crypt = record {
  lower = λ s. s;
  scrypt = λ password salt. "aaaaaaaaaaaaaaaaaaaaaaaaaaaaaaaaaaaaaaaaaaaaaaaaaaaaaaaaaaaaaaaa";
  b64encode = λ bytes. bytes;
  b64decode = λ s. some s;
}

abbrev call : Call
call = record {
  now = 20;
  token = "bbbbbbbbbbbbbbbbbbbbbbbbbbbbbbbbbbbbbbbbbbb";
  csrf = "csrf";
  salt = "0123456789abcdef";
  fresh_id = "2";
  slot_free = true;
}

abbrev boss : User
boss = record {
  user_id = "usr-1";
  username = "boss";
  display_name = "Boss";
  password_hash = "hash";
  role = Role.admin;
  active = true;
  must_change_password = false;
  credential_revision = 1;
  created_at = 5;
  updated_at = 5;
}

abbrev helper : User
helper = record boss { user_id = "usr-3"; username = "helper"; role = Role.user }

abbrev signed_in : Session
signed_in = record {
  token_hash = token;
  user_id = some "usr-1";
  kind = SessionKind.authenticated;
  csrf_token = "csrf";
  created_at = 10;
  last_seen_at = 10;
  expires_at = 10 + session_absolute;
  credential_revision = some 1;
}

abbrev accounts : Accounts
accounts = record {
  users = boss ∷ helper ∷ [];
  sessions = signed_in ∷ [];
  login_attempts = [];
  bootstrap = none;
  user_tasks = [];
  installation_owner = some "usr-1";
  tables = record (db RunStatus.queued []) {
    catalog =
        record {
          kind = "task";
          legacy_key = "task-1";
          owner_user_id = some "usr-3";
          deleted_at = none;
        }
        ∷ [];
  };
}

abbrev demote : UserChange
demote = record { display_name = none; role = some Role.viewer; active = none; task_ids = none }

-- the administrator demotes the other user, and may not demote itself; then the password changes
abbrev requests : List Request
requests =
    Request.update call (some (principal_of boss)) "usr-3" demote
    ∷ Request.update call (some (principal_of boss)) "usr-1" demote
    ∷ Request.reset call (some (principal_of boss)) "usr-1" "new"
    ∷ []

accounts-IsSound : IsSoundAccounts accounts
unfolding count_where exists
accounts-IsSound = (one, (((λ t. refl), omega arith), tt))
  where
    one : (user_id : String) → count_where (user_is user_id) (boss ∷ helper ∷ []) ≤ 1
    one user_id =
        ground (arith, eq_iff "usr-1" user_id, eq_iff "usr-3" user_id, eq_iff "usr-1" "usr-3")

steps-IsSoundAccounts_example : IsSoundAccounts (steps host requests accounts)
steps-IsSoundAccounts_example = steps-IsSoundAccounts host requests accounts accounts-IsSound

steps-IsStaffed_example : IsStaffed (steps host requests accounts).users
unfolding count_where is_admin_role
steps-IsStaffed_example = steps-IsStaffed host requests accounts accounts-IsSound (omega arith)

setup_refused_example :
    (is_ok
        (setup host crypt call
          (some token)
          "other"
          "long enough password"
          none
          (steps host requests)
          (steps host requests accounts)).1
      ≡ false)
    × (issue_setup_token host call (steps host requests accounts)
        ≡ err (validation "Setup is complete"))
unfolding count_where is_admin_role
setup_refused_example =
    setup_refused host crypt call requests requests accounts (some token) "other"
      "long enough password" none accounts-IsSound (omega arith)

abbrev browsing : BrowserSession
browsing = record {
  principal = some (principal_of boss);
  token_digest = token;
  csrf_token = "csrf";
  kind = SessionKind.authenticated;
  created_at = 10;
  last_seen_at = 20;
  expires_at = 10 + session_absolute;
}

resolved : (resolve_session host call true (some token) (λ a. a) accounts).1 ≡ some browsing
unfolding resolve_session research_ops_automation.Base.find is_authenticated exists
resolved = refl

touched_counts_example :
    Some (Live host 20 token accounts.users) accounts.sessions × (browsing.last_seen_at ≡ 20)
unfolding is_authenticated
touched_counts_example =
    touched_counts host call (some token) (λ a. a) accounts browsing resolved refl

listing : allowed_task_ids (some (principal_of helper)) accounts ≡ ok (some ("task-1" ∷ []))
unfolding allowed_task_ids research_ops_automation.Base.find principal_of is_admin_role is_user_role
    select
listing = refl

listed-require_task_example :
    listed "task-1" (some ("task-1" ∷ []))
    ≡ is_ok (require_task (some (principal_of helper)) "task-1" false accounts)
unfolding exists
listed-require_task_example =
    listed-require_task (some (principal_of helper)) "task-1" accounts (some ("task-1" ∷ []))
      listing refl

abbrev credential_text : String
credential_text =
    "scrypt$131072$8$1$0123456789abcdef$aaaaaaaaaaaaaaaaaaaaaaaaaaaaaaaaaaaaaaaaaaaaaaaaaaaaaaaaaaaaaaaa"

hashed : hash_password crypt call "correct horse battery" ≡ ok credential_text
unfolding hash_password research_ops_automation.Auth.Passwords.is_password
hashed = refl

verify-hash_password_example :
    verify_password crypt call (some credential_text) "correct horse battery" ≡ ok true
unfolding all_chars
verify-hash_password_example =
    verify-hash_password crypt call call "correct horse battery" credential_text (refl, refl)
      (refl, refl) refl refl refl hashed

abbrev attempts : List (Call × String)
attempts = (call, "boss") ∷ (record call { now = 30 }, "boss") ∷ []

passed-le-limit_example : passed host attempts accounts + 0 ≤ login_global_limit
unfolding find
passed-le-limit_example =
    passed-le-limit host 0 attempts accounts
      ((omega arith, omega arith), ((omega arith, omega arith), tt)) tt (omega arith)
