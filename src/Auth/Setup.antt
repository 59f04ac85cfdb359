-- ===== src/Auth/Setup.antt =====
-- auth_service.py: the first administrator; ownership.py: what this user takes over. A call whose
-- later step fails keeps the attempt that it reserved.
use Prim.Native.String
use research_ops_automation.Base.{
  String, Bool, true, false, not, ◌&&◌, ◌==◌, ltb, Option, none, some, is_some, exists,
  update_where, Result, ok, err, ◌>>=◌, ◌>>◌, guard, validation, authentication, if◌then◌else◌,
}
use research_ops_automation.Base.Host.{Host}
use research_ops_automation.Base.Json.{obj, end}
use research_ops_automation.Domain.{CatalogItem}
use research_ops_automation.Auth.Rows.{Role, User, Bootstrap, Accounts, SessionGrant, Call, audit}
use research_ops_automation.Auth.Passwords.{
  Crypt, is_token, check_username, check_display_name, hash_password,
}
use research_ops_automation.Auth.Sessions.{insert_user, new_session}
use research_ops_automation.Auth.Attempts.{Reply, commit, reserve_attempt}

unfoldable pub or_owner : Option String → String → String
or_owner none user_id = user_id
or_owner (some owner) user_id = owner

abbrev pub is_unowned : CatalogItem → Bool
is_unowned item = not (is_some item.owner_user_id)

-- adopt_unowned
unfoldable pub adopt_unowned : String → Accounts → Accounts
unfolding or_owner
adopt_unowned user_id auth = record auth {
  installation_owner = some (or_owner auth.installation_owner user_id);
  tables = record auth.tables {
    catalog =
        update_where is_unowned
          (λ (item : CatalogItem). record item {
            owner_user_id = some (or_owner auth.installation_owner user_id);
          })
          auth.tables.catalog;
  };
}

abbrev pub first_admin : Call → String → String → String → User
first_admin call username display_name credential = record {
  user_id = String.◌++◌ "usr-" call.fresh_id;
  username = username;
  display_name = display_name;
  password_hash = credential;
  role = Role.admin;
  active = true;
  must_change_password = false;
  credential_revision = 1;
  created_at = call.now;
  updated_at = call.now;
}

module _ (host : Host) where
  unfoldable pub bootstrap_valid : Call → String → Option Bootstrap → Bool
  bootstrap_valid call token none = false
  bootstrap_valid call token (some row) =
      ltb call.now row.expires_at && row.token_hash == host.sha256 token

  -- the transaction of setup
  unfoldable pub insert_admin : Call → String → User → Accounts → Result (SessionGrant × Accounts)
  unfolding bootstrap_valid insert_user adopt_unowned audit new_session
  insert_admin call token user auth =
      guard (exists (λ (u : User). true) auth.users) (validation "Setup is complete")
      >> (guard (not (bootstrap_valid call token auth.bootstrap)) (authentication "Setup token")
          >> (insert_user user (record auth { bootstrap = none }) >>= λ stored.
              new_session host call (some user) (
                audit call.now (String.◌++◌ "user:" user.user_id) "auth_initial_admin_created"
                  user.user_id (obj end) (adopt_unowned user.user_id stored))))

  module _ (crypt : Crypt) where
    -- setup after the attempt is reserved
    unfoldable pub setup_reserved :
        Call
        → Option String
        → String
        → String
        → String
        → (Accounts → Accounts)
        → Accounts
        → Reply SessionGrant
    unfolding is_token bootstrap_valid hash_password commit insert_admin
    setup_reserved call none username password display_name meanwhile auth =
        (auth, err (authentication "Setup token"))
    setup_reserved call (some token) username password display_name meanwhile auth =
        if is_token token && bootstrap_valid call token auth.bootstrap
        then commit (meanwhile auth) (
            hash_password crypt call password >>= λ credential.
            insert_admin call token (first_admin call username display_name credential)
              (meanwhile auth))
        else (auth, err (authentication "Setup token"))

    unfoldable pub setup_checked :
        Call
        → Option String
        → String
        → String
        → (Accounts → Accounts)
        → Result (String × Accounts)
        → Accounts
        → Result String
        → Reply SessionGrant
    unfolding setup_reserved
    setup_checked call token username password meanwhile reserved auth (err raised) =
        (auth, err raised)
    setup_checked call token username password meanwhile (err raised) auth (ok display_name) =
        (auth, err raised)
    setup_checked call token username password meanwhile (ok (key, stored)) auth (ok display_name) =
        setup_reserved call token username password display_name meanwhile stored

    -- setup; `meanwhile` is what other connections do between its two transactions
    unfoldable pub setup :
        Call
        → Option String
        → String
        → String
        → Option String
        → (Accounts → Accounts)
        → Accounts
        → Reply SessionGrant
    unfolding check_username check_display_name reserve_attempt setup_checked
    setup call token username password display_name meanwhile auth =
        named (check_username crypt username)
      where
        named : Result String → Reply SessionGrant
        named (err raised) = (auth, err raised)
        named (ok name) =
            setup_checked call token name password meanwhile
              (reserve_attempt host call "bootstrap" auth) auth
              (check_display_name display_name name)
