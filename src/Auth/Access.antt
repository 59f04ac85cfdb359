-- ===== src/Auth/Access.antt =====
-- auth_service.py: what a signed-in user may reach. The kinds of the catalogue are its texts.
use research_ops_automation.Base.{
  String, Bool, false, not, ◌&&◌, ◌||◌, ◌==◌, Option, none, some, List, map, find, exists, select,
  opt_str_eq, Result, ok, err, ◌>>=◌, ◌>>◌, guard, require, not_found, authorization, crash,
  if◌then◌else◌,
}
use mathlib.Core.Option
use research_ops_automation.Base.Json.{Json, str, arr, obj, get}
use research_ops_automation.Domain.{CatalogItem, Handoff, Attempt}
use research_ops_automation.Runs.Rows.{run_is}
use research_ops_automation.Delivery.Rows.{task_is, handoff_is, job_is}
use research_ops_automation.Auth.Rows.{
  User, UserTask, Accounts, Principal, is_admin_role, is_user_role, is_viewer_role,
}
use research_ops_automation.Auth.Users.{current_user, granted_to, sorted_set}

abbrev pub item_is : String → String → CatalogItem → Bool
item_is kind key item = item.kind == kind && item.legacy_key == key

abbrev pub owned_item : String → String → String → CatalogItem → Bool
owned_item kind key user_id item = item_is kind key item && opt_str_eq item.owner_user_id user_id

abbrev pub owned_task : String → CatalogItem → Bool
owned_task user_id item = item.kind == "task" && opt_str_eq item.owner_user_id user_id

abbrev pub grant_is : String → String → UserTask → Bool
grant_is user_id task_id row = row.user_id == user_id && row.task_id == task_id

-- allowed_task_ids: none stands for every task
unfoldable pub allowed_task_ids : Option Principal → Accounts → Result (Option (List String))
unfolding current_user sorted_set
allowed_task_ids principal auth = current_user false false principal auth >>= λ user. ok (
    if is_admin_role user.role
    then none
    else if is_user_role user.role
    then some (
        sorted_set (
          map (λ (i : CatalogItem). i.legacy_key)
            (select (owned_task user.user_id) auth.tables.catalog)))
    else some (
        sorted_set
          (map (λ (r : UserTask). r.task_id) (select (granted_to user.user_id) auth.user_tasks))))

-- the test of _require_task
unfoldable pub allowed : User → String → Accounts → Bool
allowed user task_id auth =
    if is_user_role user.role
    then exists (owned_item "task" task_id user.user_id) auth.tables.catalog
    else is_admin_role user.role || exists (grant_is user.user_id task_id) auth.user_tasks

-- _require_task
unfoldable pub require_task : Option Principal → String → Bool → Accounts → Result String
unfolding current_user allowed
require_task principal task_id manage auth = current_user false false principal auth >>= λ user.
    guard (manage && is_viewer_role user.role) (authorization "Viewer")
    >> (guard (not (exists (task_is task_id) auth.tables.tasks)) (not_found "Task")
        >> (guard (not (allowed user task_id auth)) (not_found "Task") >> ok task_id))

unfoldable pub require_run : Option Principal → String → Bool → Accounts → Result String
unfolding require_task
require_run principal run_id manage auth =
    require (find (run_is run_id) auth.tables.runs) (not_found "Run") >>= λ row.
    require_task principal row.task_id manage auth

unfoldable pub require_handoff : Option Principal → String → Bool → Accounts → Result String
unfolding require_task
require_handoff principal handoff_id manage auth =
    require (find (handoff_is handoff_id) auth.tables.handoffs) (not_found "Message") >>= λ row.
    require_task principal row.task_id manage auth

unfoldable pub owns_item : User → Option CatalogItem → Bool
owns_item user none = false
owns_item user (some item) = is_admin_role user.role || opt_str_eq item.owner_user_id user.user_id

-- _require_resource
unfoldable pub require_resource : Option Principal → String → String → Accounts → Result String
unfolding current_user owns_item
require_resource principal kind key auth = current_user false false principal auth >>= λ user.
    guard (is_viewer_role user.role) (authorization "Viewer")
    >> (guard (not (owns_item user (find (item_is kind key) auth.tables.catalog)))
          (not_found "Resource")
        >> ok key)

abbrev pub require_sender : Option Principal → String → Accounts → Result String
require_sender principal sender_profile_id auth =
    require_resource principal "sender" sender_profile_id auth

abbrev pub require_recipient_group : Option Principal → String → Accounts → Result String
require_recipient_group principal group_id auth =
    require_resource principal "recipient_group" group_id auth

-- the task of a message, none without a handoff (LEFT JOIN)
unfoldable pub message_task : Option String → List Handoff → Option String
message_task none handoffs = none
message_task (some handoff_id) handoffs =
    Option.map (λ (h : Handoff). h.task_id) (find (handoff_is handoff_id) handoffs)

-- the sender of an envelope
unfoldable pub check_sender : Option Principal → Accounts → Option Json → Result (Option String)
unfolding require_resource
check_sender principal auth none = require_sender principal "default" auth >>= λ key. ok none
check_sender principal auth (some (str sender)) =
    require_sender principal sender auth >>= λ key. ok none
check_sender principal auth (some (arr items)) = err crash
check_sender principal auth (some (obj fields)) = err crash
check_sender principal auth (some _) = err (not_found "Resource")

unfoldable pub require_message :
    Option Principal → User → Attempt → Option String → Accounts → Result (Option String)
unfolding check_sender require_task
require_message principal user row none auth =
    guard (is_viewer_role user.role) (not_found "Message")
    >> (if is_user_role user.role
        then check_sender principal auth (get "sender_profile_id" row.envelope_json)
        else ok none)
require_message principal user row (some task_id) auth =
    if task_id == ""
    then ok none
    else require_task principal task_id false auth >>= λ key. ok (some key)

unfoldable pub require_smtp_job : Option Principal → String → Accounts → Result (Option String)
unfolding current_user message_task require_message
require_smtp_job principal job_id auth = current_user false false principal auth >>= λ user.
    require (find (job_is job_id) auth.tables.attempts) (not_found "Message") >>= λ row.
    require_message principal user row (message_task row.handoff_id auth.tables.handoffs) auth
