-- ===== src/Auth/Steps.antt =====
-- The transactions of auth_service.py that write, one at a time and in any order: what two calls that
-- overlap do to the accounts is a sequence of their transactions. A transaction that raises changes
-- nothing.
use research_ops_automation.Base.{String, Option, List, [], ◌∷◌, Result, ok, err, none}
use research_ops_automation.Base.Host.{Host}
use research_ops_automation.Auth.Rows.{Role, User, Session, Accounts, Principal, Call}
use research_ops_automation.Auth.Attempts.{reserve_attempt}
use research_ops_automation.Auth.Sessions.{new_session, issue_setup_token, touch_row, logout}
use research_ops_automation.Auth.Setup.{first_admin, insert_admin}
use research_ops_automation.Auth.Login.{open_session}
use research_ops_automation.Auth.Users.{created_user, insert_created}
use research_ops_automation.Auth.Manage.{
  UserChange, update_user, store_reset, store_recovery, store_password,
}

pub data Request : Type 0 where
  preauth setup_token : Call → Request
  touch : Call → Session → User → Request
  log_out : Call → Option String → Request
  reserve : Call → String → Request
  setup : Call → String → String → String → String → Request
  log_in : Call → String → User → Request
  create : Call → Option Principal → String → String → Role → String → List String → Request
  update : Call → Option Principal → String → UserChange → Request
  reset : Call → Option Principal → String → String → Request
  recover : Call → String → String → Request
  change : Call → Option Principal → User → String → Request

-- the tables after a transaction
abbrev pub kept : Accounts → Result Accounts → Accounts
kept auth (err raised) = auth
kept auth (ok stored) = stored

abbrev pub kept_with {ℓ} : {A : Type ℓ} → Accounts → Result (A × Accounts) → Accounts
kept_with auth (err raised) = auth
kept_with auth (ok (value, stored)) = stored

module _ (host : Host) where
  unfoldable pub step : Request → Accounts → Accounts
  step (Request.preauth call) auth = kept_with auth (new_session host call none auth)
  step (Request.setup_token call) auth = kept_with auth (issue_setup_token host call auth)
  step (Request.touch call row user) auth = (touch_row host call.now row user auth).0
  step (Request.log_out call raw) auth = logout host call raw auth
  step (Request.reserve call username) auth =
      kept_with auth (reserve_attempt host call username auth)
  step (Request.setup call token username display_name credential) auth =
      kept_with auth
        (insert_admin host call token (first_admin call username display_name credential) auth)
  step (Request.log_in call key user) auth = kept_with auth (open_session host call key user auth)
  step (Request.create call actor username display_name role credential ids) auth =
      kept_with auth (
        insert_created call actor (created_user call username display_name role credential) ids
          auth)
  step (Request.update call actor user_id changes) auth =
      kept auth (update_user call actor user_id changes auth)
  step (Request.reset call actor user_id credential) auth =
      kept auth (store_reset call actor user_id credential auth)
  step (Request.recover call username credential) auth =
      kept auth (store_recovery call username credential auth)
  step (Request.change call principal row credential) auth =
      kept_with auth (store_password host call principal row credential auth)

  unfoldable pub steps : List Request → Accounts → Accounts
  unfolding step
  steps [] auth = auth
  steps (r ∷ rs) auth = steps rs (step r auth)
