-- ===== src/Runs/Ownership.antt =====
-- The ownership tables of RunRepository: task_claims and run_leases move together.
use research_ops_automation.Base.{
  Result-cases, find, ℕ, String, Bool, ◌&&◌, ◌==◌, ◌≡◌, refl, ap, Option, none, some, List, [], ◌∷◌,
  ◌++◌, map, remove_where, ok, arith, map-update_where, map-remove_where, inl, inr,
}
use mathlib.Core.List.{map-append}
use research_ops_automation.Domain.{Run, Lease, Claim, Db}
use research_ops_automation.Runs.Rows.{lease_held, claim_held, run_is}
use research_ops_automation.Runs.Claim.{
  claim_selected, acquire_for, lease_claim, select_first, claimable, insert_claim, insert_lease,
  ensure_controls, take_run, claim_next_run, acquire_lease, new_claim, new_lease,
}
use research_ops_automation.Runs.Lease.{renewable, heartbeat_lease, release_lease}
use research_ops_automation.Runs.Status.{update_run_status}
use research_ops_automation.Runs.Control.{
  set_force_dry_run, request_cancel, mark_cleanup_verified, mark_stale_attention,
}
use research_ops_automation.Runs.Steps.{Op, step, steps, steps_induction, settle, settle_with}

abbrev pub claim_key : Claim → String × String
claim_key c = (c.run_id, c.fencing_token)

abbrev pub lease_key : Lease → String × String
lease_key l = (l.run_id, l.fencing_token)

-- The claims and the leases name the same runs under the same tokens, in the same order.
abbrev pub IsPaired : Db → Type 0
IsPaired db = map claim_key db.claims ≡ map lease_key db.leases

abbrev pub held : String → String → String × String → Bool
held id token k = k.0 == id && k.1 == token

-- a claim and a lease of one run under one token, entered together
IsPaired-insert :
    (c : Claim) (l : Lease) (cs : List Claim) (ls : List Lease)
    → claim_key c ≡ lease_key l
    → map claim_key cs ≡ map lease_key ls
    → map claim_key (cs ++ c ∷ []) ≡ map lease_key (ls ++ l ∷ [])
IsPaired-insert c l cs ls same h = rw (map-append, map-append, h, same)

take_run-IsPaired :
    (now : ℕ) (worker : String) (secs : ℕ) (token : String) (r : Run) (db db' : Db)
    → IsPaired db
    → take_run now worker secs token r db ≡ ok db'
    → IsPaired db'
unfolding take_run insert_claim insert_lease ensure_controls
take_run-IsPaired now worker secs token r db db' h e = ground (
  arith,
  IsPaired-insert (new_claim now token r) (new_lease now worker secs token r) db.claims db.leases
      refl h,
)

claim_selected-IsPaired :
    (now : ℕ) (worker : String) (secs : ℕ) (token : String) (db : Db) (o : Option Run)
    → IsPaired db
    → IsPaired (settle_with db (claim_selected now worker secs token db o))
unfolding claim_selected
claim_selected-IsPaired now worker secs token db none h = h
claim_selected-IsPaired now worker secs token db (some r) h =
    elim (Result-cases (take_run now worker secs token r db)) [
      | inl (db', e) ↦ rw e (take_run-IsPaired now worker secs token r db db' h e)
      | inr (x, e) ↦ rw e h
    ]

acquire_for-IsPaired :
    (l : Lease) (db : Db) (o : Option Run)
    → IsPaired db
    → IsPaired (settle_with db (acquire_for l db o))
unfolding acquire_for insert_claim insert_lease
acquire_for-IsPaired l db none h = h
acquire_for-IsPaired l db (some r) h =
    ground (arith, IsPaired-insert (lease_claim r.task_id l) l db.claims db.leases refl h)

release-IsPaired :
    (id token : String) (db : Db) → IsPaired db → IsPaired (settle db (release_lease id token db))
unfolding release_lease
release-IsPaired id token db h = ground (
  arith,
  map-remove_where claim_key (claim_held id token) (held id token) db.claims (λ _. refl),
  ap (remove_where (held id token)) h,
  map-remove_where lease_key (lease_held id token) (held id token) db.leases (λ _. refl),
)

heartbeat-IsPaired :
    (now : ℕ) (id token : String) (e : ℕ) (db : Db)
    → IsPaired db
    → IsPaired (heartbeat_lease now id token e db).1
unfolding heartbeat_lease
heartbeat-IsPaired now id token e db h = ground (
  arith,
  map-update_where lease_key (renewable now id token)
      (λ l. record l { heartbeat_at = now; lease_expires_at = e }) db.leases (λ _. refl),
)

-- Every operation keeps the claims and the leases paired.
pub step-IsPaired : (op : Op) (db : Db) → IsPaired db → IsPaired (step op db)
unfolding step update_run_status set_force_dry_run request_cancel mark_cleanup_verified
    mark_stale_attention claim_next_run acquire_lease
step-IsPaired (Op.update_status now u) db h = ground arith
step-IsPaired (Op.claim now worker secs max id token) db h = ground (
  arith,
  claim_selected-IsPaired now worker secs token db
      (select_first (claimable now id db.claims) db.runs) h,
)
step-IsPaired (Op.acquire l) db h =
    ground (arith, acquire_for-IsPaired l db (find (run_is l.run_id) db.runs) h)
step-IsPaired (Op.heartbeat now id token e) db h = heartbeat-IsPaired now id token e db h
step-IsPaired (Op.release id token) db h = release-IsPaired id token db h
step-IsPaired (Op.force_dry_run id v) db h = ground arith
step-IsPaired (Op.cancel now id) db h = h
step-IsPaired (Op.cleanup_verified id token) db h = h
step-IsPaired (Op.stale_attention now id token) db h = h

-- Every sequence of the repository's operations keeps claims and leases paired: they name the
-- same runs under the same tokens, in the same order.
pub steps-IsPaired : (ops : List Op) (db : Db) → IsPaired db → IsPaired (steps ops db)
steps-IsPaired = steps_induction step-IsPaired
