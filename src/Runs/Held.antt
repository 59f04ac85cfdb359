-- ===== src/Runs/Held.antt =====
-- A worker that claimed a run keeps it, whatever is done to other runs or under other tokens.
use research_ops_automation.Base.{
  ℕ, ◌+◌, ◌<◌, String, Bool, true, false, ◌&&◌, ◌==◌, eq_iff, Bool-cases, Result-cases, ◌≡◌, refl,
  Option, none, some, List, [], ◌∷◌, find, exists, update_where, remove_where, length, leb, ok,
  arith, inl, inr, All, exists-append, exists-update_where,
}
use research_ops_automation.Domain.{Run, Lease, Claim, Db}
use research_ops_automation.Runs.Rows.{run_is, lease_is, claim_held, lease_held, controls_are}
use research_ops_automation.Runs.Claim.{
  claim_next_run, claim_selected, take_run, insert_claim, insert_lease, acquire_lease, acquire_for,
  start_run, lease_claim,
}
use research_ops_automation.Runs.Claiming.{take_run-Written}
use research_ops_automation.Runs.Lease.{
  renewable, heartbeat_lease, release_lease, release_blocked, assert_run_owner,
}
use research_ops_automation.Runs.Status.{update_run_status, set_status}
use research_ops_automation.Runs.Control.{
  is_queued, is_running, set_force_dry_run, request_cancel, mark_cleanup_verified,
  mark_stale_attention, still_queued, cancelled_before_execution, stale, abandoned,
}
use research_ops_automation.Runs.Steps.{Op, step, steps, settle_with}
use research_ops_automation.Runs.Fencing.{claim_owner}

module _ {ℓ} {A : Type ℓ} (q p : A → Bool) where
  -- an update that keeps the rows that the query selects
  exists-update_where_kept :
      (f : A → A) (xs : List A)
      → ((x : A) → q x ≡ true → p x ≡ true → q (f x) ≡ true)
      → exists q xs ≡ true
      → exists q (update_where p f xs) ≡ true
  unfolding exists update_where
  exists-update_where_kept f [] keep h = cc
  exists-update_where_kept f (x ∷ xs) keep h =
      ground (arith, keep x, exists-update_where_kept f xs keep)

  -- rows that no DELETE takes
  exists-remove_where :
      (xs : List A)
      → ((x : A) → q x ≡ true → p x ≡ false)
      → exists q xs ≡ true
      → exists q (remove_where p xs) ≡ true
  unfolding exists remove_where
  exists-remove_where [] keep h = cc
  exists-remove_where (x ∷ xs) keep h = elim (Bool-cases (p x)) [
    | inl t ↦ rw t (ground (arith, t, keep x, exists-remove_where xs keep))
    | inr f ↦ rw f (ground (arith, exists-remove_where xs keep))
  ]

-- A call that neither changes the status of the run nor acts under the token.
abbrev pub Foreign : String → String → Op → Type 0
Foreign id token (Op.update_status now u) = (u.run_id == id) ≡ false
Foreign id token (Op.heartbeat now i t e) = (t == token) ≡ false
Foreign id token (Op.release i t) = (t == token) ≡ false
Foreign id token (Op.stale_attention now i t) = (i == id) ≡ false
Foreign id token _ = Unit

-- the run executes, under a lease that has not expired and a claim
record Held (now : ℕ) (id token : String) (db : Db) : Type 0 where
  pub executing : exists (λ (r : Run). r.run_id == id && is_running r) db.runs ≡ true
  pub leased : exists (renewable now id token) db.leases ≡ true
  pub claimed : exists (claim_held id token) db.claims ≡ true

unlike : (a b x : String) → (x == a) ≡ true → (b == a) ≡ false → (x == b) ≡ false
unlike a b x t f = ground (arith, eq_iff x a, eq_iff x b, eq_iff b a)

module _ (now : ℕ) (id token : String) where
  -- an update of other runs, or of queued ones
  runs_kept :
      (p : Run → Bool) (f : Run → Run) (rs : List Run)
      → ((r : Run) → (r.run_id == id && is_running r) ≡ true → p r ≡ false)
      → exists (λ (r : Run). r.run_id == id && is_running r) rs ≡ true
      → exists (λ (r : Run). r.run_id == id && is_running r) (update_where p f rs) ≡ true
  runs_kept p f rs other h =
      exists-update_where_kept (λ (r : Run). r.run_id == id && is_running r) p f rs
        (λ r t u. absurd (ground (arith, other r t, u))) h

  not_queued :
      (i : String) (r : Run) → (r.run_id == id && is_running r) ≡ true → still_queued i r ≡ false
  unfolding is_running is_queued
  not_queued i r h = ground arith

  claimed-Held :
      (at : ℕ) (worker : String) (secs : ℕ) (other : String) (db : Db) (o : Option Run)
      → Held now id token db
      → Held now id token (settle_with db (claim_selected at worker secs other db o))
  unfolding claim_selected
  claimed-Held at worker secs other db none h = h
  claimed-Held at worker secs other db (some s) h =
      elim (Result-cases (take_run at worker secs other s db)) [
        | inr (x, bad) ↦ rw bad h
        | inl (db', q) ↦
            let w = take_run-Written at worker secs other s db db' q in
            rw q (record {
              executing = rw w.runs (
                  runs_kept (still_queued s.run_id) (start_run at (s.attempt + 1)) db.runs
                    (not_queued s.run_id) h.executing);
              leased = rw (w.leases, exists-append) (ground (arith, h.leased));
              claimed = rw (w.claims, exists-append) (ground (arith, h.claimed));
            })
      ]

  acquired-Held :
      (l : Lease) (db : Db) (o : Option Run)
      → Held now id token db
      → Held now id token (settle_with db (acquire_for l db o))
  unfolding acquire_for insert_claim insert_lease
  acquired-Held l db none h = h
  acquired-Held l db (some r) h = record {
    executing = ground (arith, h.executing);
    leased = ground (arith, h.leased, exists-append (renewable now id token) db.leases l);
    claimed =
        ground (
          arith,
          h.claimed,
          exists-append (claim_held id token) db.claims (lease_claim r.task_id l),
        );
  }

  lease_foreign :
      (i t : String)
      → (t == token) ≡ false
      → (l : Lease) → renewable now id token l ≡ true
      → lease_held i t l ≡ false
  lease_foreign i t other l h =
      ground (arith, unlike token t l.fencing_token (ground (arith, h)) other)

  claim_foreign :
      (i t : String)
      → (t == token) ≡ false
      → (c : Claim) → claim_held id token c ≡ true
      → claim_held i t c ≡ false
  claim_foreign i t other c h =
      ground (arith, unlike token t c.fencing_token (ground (arith, h)) other)

  heartbeat-Held :
      (at : ℕ) (i t : String) (e : ℕ) (db : Db)
      → (t == token) ≡ false
      → Held now id token db
      → Held now id token (heartbeat_lease at i t e db).1
  unfolding heartbeat_lease is_running
  heartbeat-Held at i t e db other h = elim (Bool-cases (exists (renewable at i t) db.leases)) [
    | inr f ↦ rw (f, heartbeat_lease) h
    | inl y ↦
        rw (y, heartbeat_lease)
          (record {
            executing =
                rw
                  (exists-update_where (λ (r : Run). r.run_id == id && is_running r) (run_is i)
                    (λ r. record r { last_heartbeat_at = some at }) db.runs (λ r. refl))
                  h.executing;
            leased =
                exists-update_where_kept (renewable now id token) (renewable at i t)
                  (λ l. record l { heartbeat_at = at; lease_expires_at = e }) db.leases
                  (λ l q u. absurd (ground (arith, lease_foreign i t other l q, u))) h.leased;
            claimed = h.claimed;
          })
  ]

  step-Held :
      (op : Op) (db : Db)
      → Foreign id token op
      → Held now id token db
      → Held now id token (step op db)
  unfolding step update_run_status set_force_dry_run request_cancel mark_cleanup_verified
      mark_stale_attention claim_next_run acquire_lease heartbeat_lease release_lease
  step-Held (Op.update_status at u) db other h = record {
    executing = ground (
      arith,
      h.executing,
      runs_kept (run_is u.run_id) (set_status at u) db.runs (λ r t.
          elim (Bool-cases (r.run_id == u.run_id)) [
            | inr f ↦ f
            | inl s ↦ absurd (
                ground (
                  arith,
                  t,
                  s,
                  other,
                  eq_iff r.run_id u.run_id,
                  eq_iff r.run_id id,
                  eq_iff u.run_id id,
                ))
          ]),
    );
    leased = ground (arith, h.leased);
    claimed = ground (arith, h.claimed);
  }
  step-Held (Op.claim at worker secs max want t) db other h =
      elim (Bool-cases (leb max (length db.claims))) [
        | inl t ↦ rw t h
        | inr f ↦ rw f (claimed-Held at worker secs t db _ h)
      ]
  step-Held (Op.acquire l) db other h = elim (Bool-cases (exists (lease_is l.run_id) db.leases)) [
    | inl t ↦ rw t h
    | inr f ↦ rw f (acquired-Held l db _ h)
  ]
  step-Held (Op.heartbeat at i t e) db other h = heartbeat-Held at i t e db other h
  step-Held (Op.release i t) db other h =
      elim (Bool-cases
        (release_blocked (find (run_is i) db.runs) (find (controls_are i) db.controls))) [
          | inl y ↦ rw y h
          | inr f ↦ rw f (record {
            executing = h.executing;
            leased =
                exists-remove_where (renewable now id token) (lease_held i t) db.leases
                  (lease_foreign i t other) h.leased;
            claimed =
                exists-remove_where (claim_held id token) (claim_held i t) db.claims
                  (claim_foreign i t other) h.claimed;
          })
        ]
  step-Held (Op.force_dry_run i v) db other h = record {
    executing = ground (arith, h.executing);
    leased = ground (arith, h.leased);
    claimed = ground (arith, h.claimed);
  }
  step-Held (Op.cancel at i) db other h = record {
    executing =
        runs_kept (still_queued i) (cancelled_before_execution at) db.runs (not_queued i)
          h.executing;
    leased = h.leased;
    claimed = h.claimed;
  }
  step-Held (Op.cleanup_verified i t) db other h = record {
    executing = h.executing;
    leased = h.leased;
    claimed = h.claimed;
  }
  step-Held (Op.stale_attention at i t) db other h = record {
    executing =
        runs_kept (abandoned at i t db.leases) (stale at) db.runs
          (λ r y. ground (arith, y, other, eq_iff r.run_id i, eq_iff r.run_id id, eq_iff i id))
          h.executing;
    leased = h.leased;
    claimed = h.claimed;
  }

  steps-Held :
      (ops : List Op) (db : Db)
      → All (Foreign id token) ops
      → Held now id token db
      → Held now id token (steps ops db)
  unfolding steps
  steps-Held [] db other h = h
  steps-Held (op ∷ ops) db other h = steps-Held ops (step op db) other.1 (step-Held op db other.0 h)

-- A worker that has claimed a run owns it at every time before the expiry of the lease that it
-- was given, where cancellation is allowed, after any sequence of the repository's operations in
-- which each status update and each marking as stale is of another run, and each heartbeat and
-- each release is under another token.
pub claim_held_through :
    (now now' : ℕ) (worker : String) (secs max : ℕ) (want : Option String) (token : String)
    (db : Db) (r : Run) (l : Lease) (db' : Db) (ops : List Op)
    → claim_next_run now worker secs max want token db ≡ ok (some (r, l), db')
    → now' < l.lease_expires_at
    → All (Foreign r.run_id l.fencing_token) ops
    → assert_run_owner now' r.run_id l.fencing_token true (steps ops db') ≡ ok tt
unfolding assert_run_owner
claim_held_through now now' worker secs max want token db r l db' ops h alive other =
    let owner = claim_owner now now' worker secs max want token db r l db' h alive in
    let held : Held now' r.run_id l.fencing_token db' = record {
      executing = ground (arith, owner);
      leased = ground (arith, owner);
      claimed = ground (arith, owner);
    } in
    let kept = steps-Held now' r.run_id l.fencing_token ops db' other held in
    ground (arith, kept.executing, kept.leased, kept.claimed)
