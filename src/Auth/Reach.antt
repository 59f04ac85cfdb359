-- ===== src/Auth/Reach.antt =====
-- The list of a user's tasks and the check of one task agree.
use research_ops_automation.Base.{
  String, Bool, true, false, ◌&&◌, ◌||◌, ◌==◌, ◌≡◌, refl, ◌∙◌, Option, none, some, List, [], ◌∷◌,
  map, exists, select, ok, is_ok, arith, eq_iff, if◌then◌else◌, >>=-ok,
}
use research_ops_automation.Base.Text.{contains}
use research_ops_automation.Domain.{CatalogItem}
use research_ops_automation.Delivery.Rows.{task_is}
use research_ops_automation.Auth.Rows.{
  Role, User, UserTask, Accounts, Principal, is_admin_role, is_user_role,
}
use research_ops_automation.Auth.Users.{current_user, granted_to, sorted_set, insert_sorted}
use research_ops_automation.Auth.Managed.{ok_value}
use research_ops_automation.Auth.Access.{
  allowed_task_ids, require_task, allowed, owned_item, owned_task, grant_is,
}

contains-insert :
    (t s : String) (ss : List String) → contains t (insert_sorted s ss) ≡ (s == t || contains t ss)
unfolding insert_sorted contains
contains-insert t s [] = refl
contains-insert t s (u ∷ us) =
    ground (arith, eq_iff s u, eq_iff s t, eq_iff u t, contains-insert t s us)

contains-sorted_set : (t : String) (ss : List String) → contains t (sorted_set ss) ≡ contains t ss
unfolding sorted_set contains
contains-sorted_set t [] = refl
contains-sorted_set t (s ∷ ss) =
    ground (arith, contains-insert t s (sorted_set ss), contains-sorted_set t ss)

-- a query in two steps: the rows, and their keys
contains-select {ℓ} :
    {A : Type ℓ} (t : String) (key : A → String) (p q : A → Bool) (xs : List A)
    → ((x : A) → q x ≡ (p x && key x == t))
    → contains t (map key (select p xs)) ≡ exists q xs
unfolding contains select exists
contains-select t key p q [] same = refl
contains-select t key p q (x ∷ xs) same = ground (arith, same x, contains-select t key p q xs same)

owned_listed :
    (t user_id : String) (items : List CatalogItem)
    → contains t
        (sorted_set (map (λ (i : CatalogItem). i.legacy_key) (select (owned_task user_id) items)))
      ≡ exists (owned_item "task" t user_id) items
owned_listed t user_id items =
    contains-sorted_set t _
    ∙ contains-select t (λ (i : CatalogItem). i.legacy_key) (owned_task user_id)
        (owned_item "task" t user_id) items (λ i. ground arith)

granted_listed :
    (t user_id : String) (rows : List UserTask)
    → contains t (sorted_set (map (λ (r : UserTask). r.task_id) (select (granted_to user_id) rows)))
      ≡ exists (grant_is user_id t) rows
granted_listed t user_id rows =
    contains-sorted_set t _
    ∙ contains-select t (λ (r : UserTask). r.task_id) (granted_to user_id) (grant_is user_id t) rows
        (λ r. refl)

-- the tasks of a list, or all
abbrev pub listed : String → Option (List String) → Bool
listed t none = true
listed t (some ids) = contains t ids

listed-allowed :
    (t : String) (user : User) (auth : Accounts)
    → listed t (
        if is_admin_role user.role
        then none
        else if is_user_role user.role
        then some (
            sorted_set (
              map
                (λ (i : CatalogItem). i.legacy_key)
                (select (owned_task user.user_id) auth.tables.catalog)))
        else some (
            sorted_set (
              map
                (λ (r : UserTask). r.task_id)
                (select (granted_to user.user_id) auth.user_tasks))))
      ≡ allowed user t auth
unfolding allowed is_admin_role is_user_role
listed-allowed t user auth = by_role user.role
  where
    by_role :
        (role : Role)
        → listed t (
            if is_admin_role role
            then none
            else if is_user_role role
            then some (
                sorted_set (
                  map
                    (λ (i : CatalogItem). i.legacy_key)
                    (select (owned_task user.user_id) auth.tables.catalog)))
            else some (
                sorted_set (
                  map
                    (λ (r : UserTask). r.task_id)
                    (select (granted_to user.user_id) auth.user_tasks))))
          ≡ allowed (record user { role = role }) t auth
    by_role Role.admin = refl
    by_role Role.user = owned_listed t user.user_id auth.tables.catalog
    by_role Role.viewer = granted_listed t user.user_id auth.user_tasks

-- Where allowed_task_ids succeeds and a task exists, the list holds the task, or stands for all,
-- exactly where require_task lets the user see it.
pub listed-require_task :
    (principal : Option Principal) (t : String) (auth : Accounts) (ids : Option (List String))
    → allowed_task_ids principal auth ≡ ok ids
    → exists (task_is t) auth.tables.tasks ≡ true
    → listed t ids ≡ is_ok (require_task principal t false auth)
unfolding allowed_task_ids require_task
listed-require_task principal t auth ids h there =
    let (user, e, h1) = >>=-ok (current_user false false principal auth) _ h in
    let same : listed t ids ≡ allowed user t auth =
      rw (← ok_value h1) (listed-allowed t user auth) in
    ground (arith, e, same)
