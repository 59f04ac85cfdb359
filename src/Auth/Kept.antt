-- ===== src/Auth/Kept.antt =====
-- Each transaction of the accounts keeps them sound.

use research_ops_automation.Base.{
  String, Bool, true, ◌≡◌, refl, Option, none, some, List, [], ◌∷◌, ◌++◌, find, exists, Result, ok,
  err, Bool-cases, inl, inr, arith, >>=-ok, guard-ok, found-exists,
}
use text.Mathlib.TextPositions.{eq_refl}
use research_ops_automation.Base.Host.{Host}
use research_ops_automation.Auth.Rows.{
  User, Session, Accounts, Call, SessionGrant, is_authenticated, user_is, token_is, audit,
}
use research_ops_automation.Auth.Sessions.{
  backs, is_stale, purge, insert_session, user_session, preauth_session, grant, new_session,
}
use research_ops_automation.Auth.Login.{open_session, unchanged}
use research_ops_automation.Auth.Steps.{kept, kept_with}
use research_ops_automation.Auth.Soundness.{
  Counts, IsSoundAccounts, remove_where-IsSound, add_session-IsSound,
}

pub kept-IsSound :
    (auth : Accounts) (r : Result Accounts)
    → IsSoundAccounts auth
    → ((stored : Accounts) → r ≡ ok stored → IsSoundAccounts stored)
    → IsSoundAccounts (kept auth r)
kept-IsSound auth (err raised) sound result = sound
kept-IsSound auth (ok stored) sound result = result stored refl

pub kept_with-IsSound {ℓ} :
    {A : Type ℓ} (auth : Accounts) (r : Result (A × Accounts))
    → IsSoundAccounts auth
    → ((value : A) (stored : Accounts) → r ≡ ok (value, stored) → IsSoundAccounts stored)
    → IsSoundAccounts (kept_with auth r)
kept_with-IsSound auth (err raised) sound result = sound
kept_with-IsSound auth (ok (value, stored)) sound result = result value stored refl

module _ (host : Host) where
  grant-IsSound :
      (call : Call) (user : Option User) (s : Session) (auth : Accounts) (g : SessionGrant)
      (stored : Accounts)
      → grant host call user s auth ≡ ok (g, stored)
      → IsSoundAccounts auth
      → Counts auth.users s
      → IsSoundAccounts stored
  unfolding grant insert_session
  grant-IsSound call user s auth g stored h sound counts =
      elim (Bool-cases (exists (token_is s.token_hash) auth.sessions)) [
        | inl t ↦ ground (arith, t)
        | inr f ↦
            let e : record auth { sessions = auth.sessions ++ s ∷ [] } ≡ stored =
              ground (arith, f) in
            rw (← e) (add_session-IsSound auth.users auth.sessions s sound counts)
      ]

  pub new_session-IsSound :
      (call : Call) (user : User) (auth : Accounts) (g : SessionGrant) (stored : Accounts)
      → new_session host call (some user) auth ≡ ok (g, stored)
      → IsSoundAccounts auth
      → exists (backs (user_session host call user)) auth.users ≡ true
      → IsSoundAccounts stored
  unfolding new_session purge
  new_session-IsSound call user auth g stored h sound backed =
      grant-IsSound call (some user) (user_session host call user) (purge call.now auth) g stored h
        (remove_where-IsSound auth.users (is_stale call.now) auth.sessions sound)
        ((λ _. backed), omega arith)

  pub new_preauth-IsSound :
      (call : Call) (auth : Accounts) (g : SessionGrant) (stored : Accounts)
      → new_session host call none auth ≡ ok (g, stored)
      → IsSoundAccounts auth
      → IsSoundAccounts stored
  unfolding new_session purge is_authenticated
  new_preauth-IsSound call auth g stored h sound =
      let (_, e) = guard-ok _ _ _ h in
      grant-IsSound call none (preauth_session host call) (purge call.now auth) g stored e
        (remove_where-IsSound auth.users (is_stale call.now) auth.sessions sound)
        ((λ t. cc), omega arith)

  -- the row of an active user backs the session that is opened for it
  pub backed :
      (call : Call) (p : User → Bool) (user : User) (users : List User)
      → find p users ≡ some user
      → user.active ≡ true
      → exists (backs (user_session host call user)) users ≡ true
  backed call p user users e active =
      found-exists p (backs (user_session host call user)) users e
        (ground (arith, active, eq_refl user.user_id))

  pub open_session-IsSound :
      (call : Call) (key : String) (user : User) (auth : Accounts) (g : SessionGrant)
      (stored : Accounts)
      → open_session host call key user auth ≡ ok (g, stored)
      → IsSoundAccounts auth
      → IsSoundAccounts stored
  unfolding open_session audit
  open_session-IsSound call key user auth g stored h sound =
      let (current, e, rest) = >>=-ok _ _ h in
      let (found, active) = current_active (find (user_is user.user_id) auth.users) e in
      new_session-IsSound call current _ g stored rest sound
        (backed call (user_is user.user_id) current auth.users found active)
    where
      current_active :
          (o : Option User) {current : User}
          → unchanged user o ≡ ok current
          → (o ≡ some current) × (current.active ≡ true)
      current_active o q = ground (arith)
