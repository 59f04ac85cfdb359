-- ===== src/Auth/Managed.antt =====
-- Each change of an account or of its password keeps the accounts sound.

use mathlib.Core.Option
use research_ops_automation.Base.{
  ℕ, String, Bool, true, false, not, ◌≡◌, refl, ◌∙◌, Option, none, some, List, [], ◌∷◌, ◌++◌, find,
  exists, update_where, Result, ok, Bool-cases, inl, inr, arith, eq_iff, exists-append, >>=-ok,
  guard-ok, validation, authentication, not_found, require, eqb, find_holds, find-update_where,
  changed,
}
use text.Mathlib.TextPositions.{eq_refl}
use research_ops_automation.Base.Host.{Host}
use research_ops_automation.Auth.Rows.{
  User, Accounts, Call, Principal, SessionGrant, user_is, username_is, audit,
}
use research_ops_automation.Auth.Sessions.{backs, insert_user, user_session, new_session}
use research_ops_automation.Auth.Setup.{first_admin, insert_admin, adopt_unowned, bootstrap_valid}
use research_ops_automation.Auth.Users.{current_user, check_current, insert_created, task_ids}
use research_ops_automation.Auth.Manage.{
  store_reset, store_recovery, store_password, replace_password, with_password,
}
use research_ops_automation.Auth.Soundness.{IsSoundAccounts, add_user-IsSound, revoke-IsSound}
use research_ops_automation.Auth.Kept.{new_session-IsSound, backed}

pub insert_user-IsSound :
    (user : User) (auth stored : Accounts)
    → insert_user user auth ≡ ok stored
    → IsSoundAccounts auth
    → IsSoundAccounts stored × (stored.users ≡ auth.users ++ user ∷ [])
unfolding insert_user
insert_user-IsSound user auth stored h sound =
    elim (Bool-cases (exists (user_is user.user_id) auth.users)) [
      | inl t ↦ ground (arith, t)
      | inr new ↦
          let e : record auth { users = auth.users ++ user ∷ [] } ≡ stored = ground (arith, new) in
          rw (← e) (add_user-IsSound auth.users user auth.sessions new sound, refl)
    ]

current_ok :
    (admin allow : Bool) (o : Option User) {user : User}
    → check_current admin allow o ≡ ok user
    → (o ≡ some user) × (user.active ≡ true)
unfolding check_current
current_ok admin allow o h = ground arith

-- whom _current_user lets pass is an active user
pub current_user_ok :
    (admin allow : Bool) (principal : Option Principal) (auth : Accounts) {user : User}
    → current_user admin allow principal auth ≡ ok user
    → (p : Principal) × (principal ≡ some p)
      × (find (user_is p.user_id) auth.users ≡ some user)
      × (user.active ≡ true)
unfolding current_user
current_user_ok admin allow none auth h = cc
current_user_ok admin allow (some p) auth h =
    let (found, active) = current_ok admin allow (find (user_is p.user_id) auth.users) h in
    (p, refl, found, active)

replaced-IsSound :
    (now : ℕ) (user_id credential : String) (must_change : Bool) (auth : Accounts)
    → IsSoundAccounts auth
    → IsSoundAccounts (replace_password now user_id credential must_change auth)
unfolding replace_password
replaced-IsSound now user_id credential must_change auth sound =
    revoke-IsSound auth.users user_id (with_password now credential must_change) auth.sessions
      (λ u. refl) sound

pub ok_value {ℓ} : {A : Type ℓ} {a b : A} → Path (Result A) (ok a) (ok b) → a ≡ b
ok_value h = cc

pub pair_value {ℓ} :
    {A : Type ℓ} {v w : A} {a b : Accounts}
    → Path (Result (A × Accounts)) (ok (v, a)) (ok (w, b))
    → a ≡ b
pair_value h = cc

pub find_by :
    (i p : String) (users : List User) {user : User}
    → i ≡ p
    → find (user_is p) users ≡ some user
    → find (user_is i) users ≡ some user
find_by i p users same e = rw same e

-- the row that a user has after a new password
refound :
    (now : ℕ) (credential : String) (must_change : Bool) (p : String) (user : User)
    (users : List User)
    → find (user_is p) users ≡ some user
    → find
        (user_is user.user_id)
        (update_where (user_is user.user_id) (with_password now credential must_change) users)
      ≡ some (with_password now credential must_change user)
refound now credential must_change p user users e =
    let same = (eq_iff user.user_id p).0 (find_holds (user_is p) users e) in
    let f = with_password now credential must_change in
    let moved =
      find-update_where (user_is user.user_id) (user_is user.user_id) f users (λ u. refl) in
    let found = find_by user.user_id p users same e in
    let made : Option.map (changed (user_is user.user_id) f) (find (user_is user.user_id) users)
        ≡ some (f user) =
      rw (found, eq_refl user.user_id) in
    moved ∙ made

module _ (host : Host) where
  pub setup-IsSound :
      (call : Call) (token username display_name credential : String) (auth : Accounts)
      (g : SessionGrant) (stored : Accounts)
      → insert_admin host call token (first_admin call username display_name credential) auth
        ≡ ok (g, stored)
      → IsSoundAccounts auth
      → IsSoundAccounts stored
  unfolding insert_admin adopt_unowned audit
  setup-IsSound call token username display_name credential auth g stored h sound =
      let user = first_admin call username display_name credential in
      let (_, h1) =
        guard-ok (exists (λ (u : User). true) auth.users) (validation "Setup is complete") _ h in
      let (_, h2) =
        guard-ok (not (bootstrap_valid host call token auth.bootstrap))
          (authentication "Setup token") _ h1 in
      let (added, e, h3) = >>=-ok (insert_user user (record auth { bootstrap = none })) _ h2 in
      let (ready, users) =
        insert_user-IsSound user (record auth { bootstrap = none }) added e sound in
      let last : exists (backs (user_session host call user)) added.users ≡ true =
        rw users (added_backs user refl) in
      new_session-IsSound host call user _ g stored h3 ready last
    where
      added_backs :
          (user : User)
          → user.active ≡ true
          → exists (backs (user_session host call user)) (auth.users ++ user ∷ []) ≡ true
      added_backs user active = ground (
        arith,
        active,
        exists-append (backs (user_session host call user)) auth.users user,
        eq_refl user.user_id,
      )

  pub change-IsSound :
      (call : Call) (principal : Option Principal) (row : User) (credential : String)
      (auth : Accounts) (g : SessionGrant) (stored : Accounts)
      → store_password host call principal row credential auth ≡ ok (g, stored)
      → IsSoundAccounts auth
      → IsSoundAccounts stored
  unfolding store_password replace_password audit
  change-IsSound call principal row credential auth g stored h sound =
      let (user, e, h1) = >>=-ok (current_user false true principal auth) _ h in
      let (_, h2) =
        guard-ok (not (eqb user.credential_revision row.credential_revision))
          (authentication "Log in again") _ h1 in
      let (p, _, found, active) = current_user_ok false true principal auth e in
      let again = refound call.now credential false p.user_id user auth.users found in
      let h3 : new_session host call (some (with_password call.now credential false user)) _
          ≡ ok (g, stored) =
        rw again at h2 in
      new_session-IsSound host call (with_password call.now credential false user) _ g stored h3
        (replaced-IsSound call.now user.user_id credential false auth sound)
        (backed host call (user_is user.user_id) (with_password call.now credential false user) _
          again active)

pub create-IsSound :
    (call : Call) (actor : Option Principal) (user : User) (ids : List String) (auth : Accounts)
    (user_id : String) (stored : Accounts)
    → insert_created call actor user ids auth ≡ ok (user_id, stored)
    → IsSoundAccounts auth
    → IsSoundAccounts stored
unfolding insert_created audit
create-IsSound call actor user ids auth user_id stored h sound =
    let (admin, _, h1) = >>=-ok (current_user true false actor auth) _ h in
    let (grants, _, h2) = >>=-ok (task_ids ids auth) _ h1 in
    let (_, h3) =
      guard-ok (exists (username_is user.username) auth.users) (validation "Username is taken") _
        h2 in
    let (added, e, h4) = >>=-ok (insert_user user auth) _ h3 in
    let (ready, _) = insert_user-IsSound user auth added e sound in rw (← pair_value h4) ready

pub reset-IsSound :
    (call : Call) (actor : Option Principal) (user_id credential : String) (auth stored : Accounts)
    → store_reset call actor user_id credential auth ≡ ok stored
    → IsSoundAccounts auth
    → IsSoundAccounts stored
unfolding store_reset audit
reset-IsSound call actor user_id credential auth stored h sound =
    let (admin, _, h1) = >>=-ok (current_user true false actor auth) _ h in
    let (_, h2) = guard-ok (not (exists (user_is user_id) auth.users)) (not_found "Account") _ h1 in
    rw (← ok_value h2) (replaced-IsSound call.now user_id credential true auth sound)

pub recover-IsSound :
    (call : Call) (username credential : String) (auth stored : Accounts)
    → store_recovery call username credential auth ≡ ok stored
    → IsSoundAccounts auth
    → IsSoundAccounts stored
unfolding store_recovery audit
recover-IsSound call username credential auth stored h sound =
    let (row, _, h1) =
      >>=-ok (require (find (username_is username) auth.users) (not_found "Account")) _ h in
    rw (← ok_value h1) (replaced-IsSound call.now row.user_id credential false auth sound)
