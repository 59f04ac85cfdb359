-- ===== src/Auth/Users.antt =====
-- auth_service.py: who acts, and what an administrator does to the accounts. A list of tasks is a list
-- of texts; the code also refuses what is no list and what is no text.
use Prim.Native.String
use research_ops_automation.Base.{
  String, Bool, true, false, not, ◌&&◌, ◌||◌, ◌==◌, ltb, Option, none, some, List, [], ◌∷◌, ◌++◌,
  map, length, find, exists, str_lt, Result, ok, err, ◌>>=◌, ◌>>◌, guard, validation, auth_required,
  authorization, if◌then◌else◌,
}
use research_ops_automation.Base.Json.{Json, str, arr, obj, end, field, of_list}
use research_ops_automation.Base.Text.{text_length}
use research_ops_automation.Delivery.Rows.{task_is}
use research_ops_automation.Auth.Rows.{
  Role, User, UserTask, Accounts, Principal, Call, user_is, username_is, audit, is_admin_role,
  is_viewer_role,
}
use research_ops_automation.Auth.Passwords.{
  Crypt, check_username, check_display_name, hash_password,
}
use research_ops_automation.Auth.Sessions.{insert_user}

-- _current_user of a request that has a principal; `admin` and `allow` are its two options
unfoldable pub check_current : Bool → Bool → Option User → Result User
check_current admin allow none = err (auth_required "Log in again")
check_current admin allow (some user) =
    guard (not user.active) (auth_required "Log in again")
    >> (guard (not allow && user.must_change_password) (authorization "Change the password first")
        >> (guard (admin && not (is_admin_role user.role)) (authorization "Administrator")
            >> ok user))

unfoldable pub current_user : Bool → Bool → Option Principal → Accounts → Result User
unfolding check_current
current_user admin allow none auth = err (auth_required "Log in")
current_user admin allow (some p) auth =
    check_current admin allow (find (user_is p.user_id) auth.users)

-- require_admin
unfoldable pub require_admin : Option Principal → Accounts → Result User
unfolding current_user
require_admin p auth = current_user true false p auth

-- a task in its place in a sorted list without repetitions
unfoldable pub insert_sorted : String → List String → List String
insert_sorted s [] = s ∷ []
insert_sorted s (t ∷ ts) =
    if s == t then t ∷ ts else if str_lt s t then s ∷ t ∷ ts else t ∷ insert_sorted s ts

-- sorted(set(values))
unfoldable pub sorted_set : List String → List String
unfolding insert_sorted
sorted_set [] = []
sorted_set (s ∷ ss) = insert_sorted s (sorted_set ss)

abbrev pub bad_task_id : String → Bool
bad_task_id s = s == "" || ltb 128 (text_length s)

-- _task_ids
unfoldable pub task_ids : List String → Accounts → Result (List String)
unfolding sorted_set
task_ids values auth =
    guard (ltb 10000 (length values) || exists bad_task_id values) (validation "Task list")
    >> (guard (exists (λ s. not (exists (task_is s) auth.tables.tasks)) (sorted_set values))
          (validation "Task list")
        >> ok (sorted_set values))

abbrev pub grants_for : String → List String → List UserTask
grants_for user_id ids = map (λ s. record { user_id = user_id; task_id = s }) ids

abbrev pub granted_to : String → UserTask → Bool
granted_to user_id row = row.user_id == user_id

unfoldable pub role_text : Role → String
role_text Role.admin = "admin"
role_text Role.user = "user"
role_text Role.viewer = "viewer"

abbrev pub text_array : List String → Json
text_array ids = arr (of_list (map str ids))

unfoldable pub viewer_grants : Role → List String → List String
viewer_grants role grants = if is_viewer_role role then grants else []

abbrev pub created_user : Call → String → String → Role → String → User
created_user call username display_name role credential = record {
  user_id = String.◌++◌ "usr-" call.fresh_id;
  username = username;
  display_name = display_name;
  password_hash = credential;
  role = role;
  active = true;
  must_change_password = true;
  credential_revision = 1;
  created_at = call.now;
  updated_at = call.now;
}

-- the transaction of create_user
unfoldable pub insert_created :
    Call → Option Principal → User → List String → Accounts → Result (String × Accounts)
unfolding current_user task_ids insert_user viewer_grants audit role_text
insert_created call actor user ids auth = current_user true false actor auth >>= λ admin.
    task_ids ids auth >>= λ grants.
    guard (exists (username_is user.username) auth.users) (validation "Username is taken")
    >> (insert_user user auth >>= λ stored. ok (
      user.user_id,
      audit call.now (String.◌++◌ "user:" admin.user_id) "auth_user_created" user.user_id
          (obj (
            field "role" (str (role_text user.role))
              (field "task_ids" (text_array (viewer_grants user.role grants)) end)))
          (record stored {
            user_tasks =
                stored.user_tasks ++ grants_for user.user_id (viewer_grants user.role grants);
          }),
    ))

module _ (crypt : Crypt) where
  -- create_user; `meanwhile` is what other connections do before its transaction
  unfoldable pub create_user :
      Call
      → Option Principal
      → String
      → Option String
      → Role
      → String
      → List String
      → (Accounts → Accounts)
      → Accounts
      → Result (String × Accounts)
  unfolding require_admin check_username check_display_name hash_password insert_created
  create_user call actor username display_name role password ids meanwhile auth =
      require_admin actor auth >>= λ admin. check_username crypt username >>= λ name.
      check_display_name display_name name >>= λ shown.
      hash_password crypt call password >>= λ credential.
      insert_created call actor (created_user call name shown role credential) ids (meanwhile auth)
