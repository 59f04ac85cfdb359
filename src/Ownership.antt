-- ===== src/Ownership.antt =====
-- researchops/services/ownership.py, and the guards of researchops/storage/repositories.py on the items
-- of the catalogue. A task's definition is decoded JSON whose groups are texts.
use Prim.Native.String
use research_ops_automation.Base.{
  String, Bool, true, false, not, ◌||◌, ◌==◌, Option, none, some, is_some, List, [], ◌∷◌, find,
  exists, Result, ok, err, ◌>>=◌, ◌>>◌, guard, require, validation, not_found, crash, if◌then◌else◌,
}
use research_ops_automation.Base.Host.{Host}
use research_ops_automation.Base.Json.{Json, str, get, elements, texts, truth}
use research_ops_automation.Base.Text.{contains}
use research_ops_automation.Domain.{CatalogItem}
use research_ops_automation.Auth.Rows.{Accounts, user_is}
use research_ops_automation.Auth.Access.{item_is}

abbrev pub is_resource : String → Bool
is_resource kind = contains kind ("task" ∷ "sender" ∷ "recipient_group" ∷ [])

unfoldable pub entity_owner : String → String → Accounts → Result (Option String)
unfolding contains
entity_owner kind key auth =
    guard (not (is_resource kind)) (validation "Unknown resource kind")
    >> (require (find (item_is kind key) auth.tables.catalog) (not_found "Resource") >>= λ row.
        ok row.owner_user_id)

-- resolve_creation_owner, where `creator` is the context's creator
unfoldable pub resolve_creation_owner : Option String → Accounts → Result (Option String)
resolve_creation_owner none auth = ok auth.installation_owner
resolve_creation_owner (some owner) auth =
    if exists (user_is owner) auth.users then ok (some owner) else err (validation "Owner")

module _ (host : Host) where
  unfoldable pub scoped_request_key : Option String → Option String → Option String
  scoped_request_key none request_key = request_key
  scoped_request_key (some owner) none = none
  scoped_request_key (some owner) (some request_key) =
      some (String.◌++◌ "owner:" (host.sha256 (String.◌++◌ owner (String.◌++◌ "\0" request_key))))

abbrev pub text_or : Option Json → String → String
text_or (some (str s)) default = s
text_or _ default = default

abbrev pub within : Option Json → String → Option Json
within none k = none
within (some value) k = get k value

abbrev pub Reference : Type 0
Reference = String × String

abbrev pub groups_of : Json → List String
groups_of definition =
    texts (elements (within (get "delivery" definition) "allowed_recipient_group_ids"))

abbrev pub sender_of : Json → String
sender_of definition = text_or (within (get "delivery" definition) "sender_profile_id") "default"

unfoldable pub with_alerts : Json → List Reference
unfolding truth get
with_alerts definition =
    if truth (within (get "alerting" definition) "events")
    then (
      "recipient_group",
      text_or (within (get "alerting" definition) "recipient_group_id") "researchops-admins",
    )
      ∷ []
    else []

unfoldable pub group_references : List String → List Reference → List Reference
group_references [] more = more
group_references (g ∷ gs) more = ("recipient_group", g) ∷ group_references gs more

-- the resources that a definition refers to
unfoldable pub references_of : Json → List Reference
unfolding with_alerts group_references texts elements get
references_of definition =
    ("sender", sender_of definition)
    ∷ group_references (groups_of definition) (with_alerts definition)

unfoldable pub same_owner : Option String → Option String → Bool
same_owner none none = true
same_owner (some a) (some b) = a == b
same_owner _ _ = false

-- a reference belongs to the owner, or nothing has an owner yet
unfoldable pub check_reference : Option String → Accounts → Reference → Result (Unit {0})
unfolding same_owner
check_reference owner auth (kind, key) = checked (find (item_is kind key) auth.tables.catalog)
  where
    checked : Option CatalogItem → Result (Unit {0})
    checked none = guard (is_some owner || is_some auth.installation_owner) (validation "Ownership")
    checked (some row) = guard (not (same_owner row.owner_user_id owner)) (validation "Ownership")

unfoldable pub check_references : Option String → Accounts → List Reference → Result (Unit {0})
unfolding check_reference
check_references owner auth [] = ok tt
check_references owner auth (r ∷ rs) =
    check_reference owner auth r >> check_references owner auth rs

-- definition["id"]
unfoldable pub id_of : Option Json → Result String
id_of (some (str id)) = ok id
id_of _ = err crash

unfoldable pub task_owner : Option String → String → Accounts → Result (Option String)
unfolding resolve_creation_owner
task_owner creator task_id auth = owned (find (item_is "task" task_id) auth.tables.catalog)
  where
    owned : Option CatalogItem → Result (Option String)
    owned none = resolve_creation_owner creator auth
    owned (some row) = ok row.owner_user_id

unfoldable pub require_task_delivery_ownership :
    Option String → Json → Accounts → Result (Option String)
unfolding id_of get task_owner check_references references_of
require_task_delivery_ownership creator definition auth = id_of (get "id" definition) >>= λ id.
    task_owner creator id auth >>= λ owner.
    check_references owner auth (references_of definition) >> ok owner

-- deleted_at IS NOT NULL
unfoldable pub is_deleted : Option CatalogItem → Bool
is_deleted none = false
is_deleted (some row) = is_some row.deleted_at

unfoldable pub require_catalog_active : String → String → Accounts → Result (Unit {0})
unfolding is_deleted
require_catalog_active kind key auth =
    guard (is_deleted (find (item_is kind key) auth.tables.catalog))
      (validation "This item is deleted")

unfoldable pub require_groups_active : List String → Accounts → Result (Unit {0})
unfolding require_catalog_active
require_groups_active [] auth = ok tt
require_groups_active (g ∷ gs) auth =
    require_catalog_active "recipient_group" g auth >> require_groups_active gs auth

unfoldable pub require_catalog_references : Option String → Json → Accounts → Result (Unit {0})
unfolding require_task_delivery_ownership require_catalog_active require_groups_active get elements
    texts
require_catalog_references creator definition auth =
    require_task_delivery_ownership creator definition auth >>= λ owner.
    require_catalog_active "sender" (sender_of definition) auth
    >> require_groups_active (groups_of definition) auth
