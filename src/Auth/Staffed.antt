-- ===== src/Auth/Staffed.antt =====
-- Every transaction of the accounts keeps an active administrator.
use research_ops_automation.Base.{
  ℕ, String, true, false, not, ◌≡◌, refl, Option, none, some, List, [], ◌∷◌, find, exists,
  update_where, count_where, ok, err, arith, eq_iff, >>=-ok, guard-ok, require-ok, require,
  validation, authentication, eqb, not_found, count-append, find_holds,
}
use research_ops_automation.Base.Host.{Host}
use research_ops_automation.Auth.Rows.{
  User, Session, Accounts, Call, Principal, SessionGrant, user_is, username_is, audit,
  is_active_admin,
}
use research_ops_automation.Auth.Sessions.{
  new_session, purge, grant, insert_session, insert_user, touch_row, logout, audit_logout,
  issue_setup_token,
}
use research_ops_automation.Auth.Attempts.{reserve_attempt}
use research_ops_automation.Auth.Login.{open_session, unchanged}
use research_ops_automation.Auth.Setup.{first_admin, insert_admin}
use research_ops_automation.Auth.Users.{current_user, created_user, insert_created, task_ids}
use research_ops_automation.Auth.Manage.{
  UserChange, update_user, store_reset, store_recovery, store_password, write_change, changed_user,
  revoke_sessions, replace_grants, strips_admin, new_name, new_grants,
}
use research_ops_automation.Auth.Steps.{Request, step, steps}
use research_ops_automation.Auth.Soundness.{IsSoundAccounts}
use research_ops_automation.Auth.Managed.{insert_user-IsSound, ok_value, pair_value, find_by}
use research_ops_automation.Auth.Promises.{step-IsSound}
use research_ops_automation.Auth.Admins.{
  IsStaffed, kept-IsStaffed, kept_with-IsStaffed, password-IsStaffed, changed-IsStaffed,
}

pub staffed_some : (users : List User) → IsStaffed users → exists (λ (u : User). true) users ≡ true
unfolding exists count_where
staffed_some [] h = ground arith
staffed_some (u ∷ users) h = refl

module _ (host : Host) where
  session-users :
      (call : Call) (user : Option User) (auth : Accounts) (g : SessionGrant) (stored : Accounts)
      → new_session host call user auth ≡ ok (g, stored)
      → stored.users ≡ auth.users
  unfolding new_session purge grant insert_session
  session-users call user auth g stored h = ground arith

  touch-users :
      (now : ℕ) (row : Session) (user : User) (auth : Accounts)
      → (touch_row host now row user auth).0.users ≡ auth.users
  unfolding touch_row
  touch-users now row user auth = ground arith

  logout-users :
      (call : Call) (raw : Option String) (auth : Accounts)
      → (logout host call raw auth).users ≡ auth.users
  unfolding logout audit_logout audit
  logout-users call raw auth = ground arith

  pub reserve-users :
      (call : Call) (username key : String) (auth stored : Accounts)
      → reserve_attempt host call username auth ≡ ok (key, stored)
      → stored.users ≡ auth.users
  unfolding reserve_attempt
  reserve-users call username key auth stored h = ground arith

  token-users :
      (call : Call) (token : String) (auth stored : Accounts)
      → issue_setup_token host call auth ≡ ok (token, stored)
      → stored.users ≡ auth.users
  unfolding issue_setup_token audit
  token-users call token auth stored h = ground arith

  login-users :
      (call : Call) (key : String) (user : User) (auth : Accounts) (g : SessionGrant)
      (stored : Accounts)
      → open_session host call key user auth ≡ ok (g, stored)
      → stored.users ≡ auth.users
  unfolding open_session audit
  login-users call key user auth g stored h =
      let (current, e, rest) =
        >>=-ok (unchanged user (find (user_is user.user_id) auth.users)) _ h in
      session-users call (some current) _ g stored rest

  -- the setup happens only once
  pub setup_done :
      (call : Call) (token : String) (user : User) (auth : Accounts)
      → exists (λ (u : User). true) auth.users ≡ true
      → insert_admin host call token user auth ≡ err (validation "Setup is complete")
  unfolding insert_admin
  setup_done call token user auth h = rw h

  change-IsStaffed :
      (call : Call) (principal : Option Principal) (row : User) (credential : String)
      (auth : Accounts) (g : SessionGrant) (stored : Accounts)
      → store_password host call principal row credential auth ≡ ok (g, stored)
      → IsStaffed auth.users
      → IsStaffed stored.users
  unfolding store_password audit
  change-IsStaffed call principal row credential auth g stored h staffed =
      let (user, e, h1) = >>=-ok (current_user false true principal auth) _ h in
      let (_, h2) =
        guard-ok (not (eqb user.credential_revision row.credential_revision))
          (authentication "Log in again") _ h1 in
      rw (session-users call _ _ g stored h2)
        (password-IsStaffed call.now user.user_id credential false auth staffed)

create-IsStaffed :
    (call : Call) (actor : Option Principal) (user : User) (ids : List String) (auth : Accounts)
    (user_id : String) (stored : Accounts)
    → insert_created call actor user ids auth ≡ ok (user_id, stored)
    → IsSoundAccounts auth
    → IsStaffed auth.users
    → IsStaffed stored.users
unfolding insert_created audit
create-IsStaffed call actor user ids auth user_id stored h sound staffed =
    let (admin, _, h1) = >>=-ok (current_user true false actor auth) _ h in
    let (grants, _, h2) = >>=-ok (task_ids ids auth) _ h1 in
    let (_, h3) =
      guard-ok (exists (username_is user.username) auth.users) (validation "Username is taken") _
        h2 in
    let (added, e, h4) = >>=-ok (insert_user user auth) _ h3 in
    let (_, users) = insert_user-IsSound user auth added e sound in
    let more : IsStaffed added.users =
      rw users (ground (arith, count-append is_active_admin auth.users user)) in
    rw (← pair_value h4) more

reset-IsStaffed :
    (call : Call) (actor : Option Principal) (user_id credential : String) (auth stored : Accounts)
    → store_reset call actor user_id credential auth ≡ ok stored
    → IsStaffed auth.users
    → IsStaffed stored.users
unfolding store_reset audit
reset-IsStaffed call actor user_id credential auth stored h staffed =
    let (admin, _, h1) = >>=-ok (current_user true false actor auth) _ h in
    let (_, h2) = guard-ok (not (exists (user_is user_id) auth.users)) (not_found "Account") _ h1 in
    rw (← ok_value h2) (password-IsStaffed call.now user_id credential true auth staffed)

recover-IsStaffed :
    (call : Call) (username credential : String) (auth stored : Accounts)
    → store_recovery call username credential auth ≡ ok stored
    → IsStaffed auth.users
    → IsStaffed stored.users
unfolding store_recovery audit
recover-IsStaffed call username credential auth stored h staffed =
    let (row, _, h1) =
      >>=-ok (require (find (username_is username) auth.users) (not_found "Account")) _ h in
    rw (← ok_value h1) (password-IsStaffed call.now row.user_id credential false auth staffed)

write-users :
    (now : ℕ) (actor : Option Principal) (change : UserChange) (user : User) (name : String)
    (grants : Option (List String)) (auth : Accounts)
    → (write_change now actor change user name grants auth).users
      ≡ update_where (user_is user.user_id) (changed_user now change user name) auth.users
unfolding write_change revoke_sessions replace_grants audit
write-users now actor change user name grants auth = ground arith

update-IsStaffed :
    (call : Call) (actor : Option Principal) (user_id : String) (change : UserChange)
    (auth stored : Accounts)
    → update_user call actor user_id change auth ≡ ok stored
    → IsSoundAccounts auth
    → IsStaffed auth.users
    → IsStaffed stored.users
unfolding update_user
update-IsStaffed call actor user_id change auth stored h sound staffed =
    let (admin, _, h1) = >>=-ok (current_user true false actor auth) _ h in
    let (user, e, h2) =
      >>=-ok (require (find (user_is user_id) auth.users) (not_found "Account")) _ h1 in
    let (passed, h3) =
      guard-ok (strips_admin change user auth.users) (validation "Last active administrator") _
        h2 in
    let (name, _, h4) = >>=-ok (new_name change user) _ h3 in
    let (grants, _, h5) = >>=-ok (new_grants change.task_ids auth) _ h4 in
    let there = require-ok (find (user_is user_id) auth.users) (not_found "Account") e in
    let same = (eq_iff user.user_id user_id).0 (find_holds (user_is user_id) auth.users there) in
    let kept =
      changed-IsStaffed call.now change user name auth.users
        (find_by user.user_id user_id auth.users same there) (sound.0 user.user_id) passed
        staffed in
    rw (← ok_value h5, write-users call.now actor change user name grants auth) kept

module _ (host : Host) where
  step-IsStaffed :
      (request : Request) (auth : Accounts)
      → IsSoundAccounts auth
      → IsStaffed auth.users
      → IsStaffed (step host request auth).users
  unfolding step
  step-IsStaffed (Request.preauth call) auth sound staffed =
      kept_with-IsStaffed auth _ staffed
        (λ g stored h. rw (session-users host call none auth g stored h) staffed)
  step-IsStaffed (Request.setup_token call) auth sound staffed =
      kept_with-IsStaffed auth _ staffed
        (λ g stored h. rw (token-users host call g auth stored h) staffed)
  step-IsStaffed (Request.touch call row user) auth sound staffed =
      rw (touch-users host call.now row user auth) staffed
  step-IsStaffed (Request.log_out call raw) auth sound staffed =
      rw (logout-users host call raw auth) staffed
  step-IsStaffed (Request.reserve call username) auth sound staffed =
      kept_with-IsStaffed auth _ staffed
        (λ g stored h. rw (reserve-users host call username g auth stored h) staffed)
  step-IsStaffed (Request.setup call token username display_name credential) auth sound staffed =
      rw
        (setup_done host call token (first_admin call username display_name credential) auth
          (staffed_some auth.users staffed))
        staffed
  step-IsStaffed (Request.log_in call key user) auth sound staffed =
      kept_with-IsStaffed auth _ staffed
        (λ g stored h. rw (login-users host call key user auth g stored h) staffed)
  step-IsStaffed (Request.create call actor username display_name role credential ids) auth sound
        staffed =
      kept_with-IsStaffed auth _ staffed (λ g stored h.
        create-IsStaffed call actor (created_user call username display_name role credential) ids
          auth g stored h sound staffed)
  step-IsStaffed (Request.update call actor user_id changes) auth sound staffed =
      kept-IsStaffed auth _ staffed
        (λ stored h. update-IsStaffed call actor user_id changes auth stored h sound staffed)
  step-IsStaffed (Request.reset call actor user_id credential) auth sound staffed =
      kept-IsStaffed auth _ staffed
        (λ stored h. reset-IsStaffed call actor user_id credential auth stored h staffed)
  step-IsStaffed (Request.recover call username credential) auth sound staffed =
      kept-IsStaffed auth _ staffed
        (λ stored h. recover-IsStaffed call username credential auth stored h staffed)
  step-IsStaffed (Request.change call principal row credential) auth sound staffed =
      kept_with-IsStaffed auth _ staffed
        (λ g stored h. change-IsStaffed host call principal row credential auth g stored h staffed)

  -- Where the accounts are sound and have an active administrator, they have one after every
  -- sequence of transactions.
  pub steps-IsStaffed :
      (requests : List Request) (auth : Accounts)
      → IsSoundAccounts auth
      → IsStaffed auth.users
      → IsStaffed (steps host requests auth).users
  unfolding steps
  steps-IsStaffed [] auth sound staffed = staffed
  steps-IsStaffed (r ∷ rs) auth sound staffed =
      steps-IsStaffed rs (step host r auth) (step-IsSound host r auth sound)
        (step-IsStaffed r auth sound staffed)
