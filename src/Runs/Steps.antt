-- ===== src/Runs/Steps.antt =====
-- The operations of RunRepository on a run and its ownership, as steps of one database.
use research_ops_automation.Base.{
  ℕ, String, Bool, Option, List, [], ◌∷◌, Result, ok, err, is_ok, true, ◌≡◌, refl,
}
use research_ops_automation.Domain.{Lease, Db}
use research_ops_automation.Runs.Status.{StatusUpdate, update_run_status}
use research_ops_automation.Runs.Control.{
  set_force_dry_run, request_cancel, mark_cleanup_verified, mark_stale_attention,
}
use research_ops_automation.Runs.Lease.{heartbeat_lease, release_lease}
use research_ops_automation.Runs.Claim.{claim_next_run, acquire_lease}

-- A call with its arguments; the first number of a call is the clock's value.
pub data Op : Type 0 where
  update_status : ℕ → StatusUpdate → Op
  claim : ℕ → String → ℕ → ℕ → Option String → String → Op
  acquire : Lease → Op
  heartbeat : ℕ → String → String → ℕ → Op
  release : String → String → Op
  force_dry_run : String → Bool → Op
  cancel : ℕ → String → Op
  cleanup_verified : String → String → Op
  stale_attention : ℕ → String → String → Op

-- A transaction that raises is rolled back.
abbrev pub settle : Db → Result Db → Db
settle db (ok db') = db'
settle db (err e) = db

abbrev pub settle_with {ℓ} : {A : Type ℓ} → Db → Result (A × Db) → Db
settle_with db (ok (a, db')) = db'
settle_with db (err e) = db

pub settled_ok : (db : Db) (r : Result Db) → is_ok r ≡ true → r ≡ ok (settle db r)
settled_ok db (ok x) h = refl
settled_ok db (err e) h = cc

unfoldable pub step : Op → Db → Db
step (update_status now u) db = settle db (update_run_status now u db)
step (claim now worker secs max id token) db =
    settle_with db (claim_next_run now worker secs max id token db)
step (acquire lease) db = settle_with db (acquire_lease lease db)
step (heartbeat now id token expires) db = (heartbeat_lease now id token expires db).1
step (release id token) db = settle db (release_lease id token db)
step (force_dry_run id value) db = settle db (set_force_dry_run id value db)
step (cancel now id) db = request_cancel now id db
step (cleanup_verified id token) db = mark_cleanup_verified id token db
step (stale_attention now id token) db = mark_stale_attention now id token db

unfoldable pub steps : List Op → Db → Db
steps [] db = db
steps (op ∷ ops) db = steps ops (step op db)

-- An invariant of every step is one of every sequence of steps.
module _ {P : Db → Type 0} (keep : (op : Op) (db : Db) → P db → P (step op db)) where
  pub steps_induction : (ops : List Op) (db : Db) → P db → P (steps ops db)
  unfolding steps
  steps_induction [] db h = h
  steps_induction (op ∷ ops) db h = steps_induction ops (step op db) (keep op db h)
