-- ===== src/Auth/Updated.antt =====
-- A change of an account by an administrator keeps the accounts sound.
use research_ops_automation.Base.{
  ℕ, String, Bool, true, false, ◌≡◌, refl, Option, none, some, List, find, update_where, ok, arith,
  eq_iff, if◌then◌else◌, >>=-ok, guard-ok, require-ok, require, not_found, validation, find_holds,
  find_unique, All-map, All-always,
}
use research_ops_automation.Auth.Rows.{
  Role, User, Session, Accounts, Call, Principal, user_is, audit,
}
use research_ops_automation.Auth.Sessions.{backs}
use research_ops_automation.Auth.Users.{current_user}
use research_ops_automation.Auth.Manage.{
  UserChange, update_user, write_change, changed_user, revokes, revoke_sessions, replace_grants,
  new_role, strips_admin, new_name, new_grants,
}
use research_ops_automation.Auth.Soundness.{IsSoundAccounts, update_user-IsSound, revoke-IsSound}
use research_ops_automation.Auth.Managed.{ok_value, find_by}

pub either-IsSound :
    (b : Bool) (x y : Accounts)
    → IsSoundAccounts x
    → IsSoundAccounts y
    → IsSoundAccounts (if b then x else y)
either-IsSound true x y here there = here
either-IsSound false x y here there = there

grants-IsSound :
    (role : Role) (moved : Bool) (user_id : String) (grants : Option (List String))
    (auth : Accounts)
    → IsSoundAccounts auth
    → IsSoundAccounts (replace_grants role moved user_id grants auth)
unfolding replace_grants
grants-IsSound role moved user_id none auth sound = either-IsSound _ _ auth sound sound
grants-IsSound role moved user_id (some grants) auth sound = sound

module _ (now : ℕ) (change : UserChange) (user : User) (name : String) (auth : Accounts)
    (found : find (user_is user.user_id) auth.users ≡ some user)
    (sound : IsSoundAccounts auth) where
  abbrev after : Bool → Accounts
  after b = revoke_sessions b user.user_id (record auth {
    users = update_where (user_is user.user_id) (changed_user now change user name) auth.users;
  })

  quiet :
      revokes change user ≡ false
      → (s : Session) (u : User) → u ≡ user
      → backs s (changed_user now change user name u) ≡ backs s u
  quiet calm s u e = rw e (ground (arith, calm))

  users-IsSound : (b : Bool) → revokes change user ≡ b → IsSoundAccounts (after b)
  unfolding revoke_sessions
  users-IsSound true e =
      revoke-IsSound auth.users user.user_id (changed_user now change user name) auth.sessions
        (λ u. refl) sound
  users-IsSound false e =
      let unique =
        find_unique (user_is user.user_id) auth.users user (sound.0 user.user_id) found in
      update_user-IsSound auth.users user.user_id (changed_user now change user name) auth.sessions
        (λ u. refl)
        (All-always _ auth.sessions
          (λ s. All-map auth.users (λ u same is. quiet e s u (same is)) unique))
        sound

  pub write_change-IsSound :
      (actor : Option Principal) (grants : Option (List String))
      → IsSoundAccounts (write_change now actor change user name grants auth)
  unfolding write_change audit
  write_change-IsSound actor grants =
      grants-IsSound (new_role change user) _ user.user_id grants (after (revokes change user))
        (users-IsSound (revokes change user) refl)

pub update-IsSound :
    (call : Call) (actor : Option Principal) (user_id : String) (change : UserChange)
    (auth stored : Accounts)
    → update_user call actor user_id change auth ≡ ok stored
    → IsSoundAccounts auth
    → IsSoundAccounts stored
unfolding update_user
update-IsSound call actor user_id change auth stored h sound =
    let (admin, _, h1) = >>=-ok (current_user true false actor auth) _ h in
    let (user, e, h2) =
      >>=-ok (require (find (user_is user_id) auth.users) (not_found "Account")) _ h1 in
    let (_, h3) =
      guard-ok (strips_admin change user auth.users) (validation "Last active administrator") _
        h2 in
    let (name, _, h4) = >>=-ok (new_name change user) _ h3 in
    let (grants, _, h5) = >>=-ok (new_grants change.task_ids auth) _ h4 in
    let there = require-ok (find (user_is user_id) auth.users) (not_found "Account") e in
    let same = (eq_iff user.user_id user_id).0 (find_holds (user_is user_id) auth.users there) in
    rw (← ok_value h5) (
      write_change-IsSound call.now change user name auth
        (find_by user.user_id user_id auth.users same there) sound actor grants)
