-- ===== src/Runs/Fencing.antt =====
-- Fencing: a claim makes its worker the owner, and a worker with any other token is refused.
use research_ops_automation.Base.{
  exists-map, remove_where_none, ℕ, ◌+◌, ◌≤◌, ◌<◌, String, Bool, true, false, ◌&&◌, ◌==◌, eq_refl,
  eq_iff, Bool-cases, ◌≡◌, refl, sym, ap, ◌∙◌, Option, some, List, [], ◌∷◌, find, exists,
  count_where, update_where, Result, ok, err, arith, inl, inr, exists-append,
  exists-update_where_of,
}
use research_ops_automation.Domain.{Run, Lease, Db}
use research_ops_automation.Runs.Rows.{run_is, lease_is, lease_held, claim_held}
use research_ops_automation.Runs.Claim.{claim_next_run, new_claim, start_run}
use research_ops_automation.Runs.Claiming.{claim_next_run_sound, Written}
use research_ops_automation.Runs.Lease.{
  assert_run_owner, live_owner, renewable, heartbeat_lease, release_lease, guard_owned_write,
}
use research_ops_automation.Runs.Status.{StatusUpdate, update_run_status}
use research_ops_automation.Runs.Control.{is_running, still_queued}
use research_ops_automation.Runs.Ownership.{held, IsPaired, claim_key, lease_key}
use research_ops_automation.Runs.Steps.{settle}

Written-owner :
    (now now' : ℕ) (token : String) (l : Lease) (s : Run) (db db' : Db)
    → Written now token l s db db'
    → exists (still_queued s.run_id) db.runs ≡ true
    → l.run_id ≡ s.run_id
    → l.fencing_token ≡ token
    → now' < l.lease_expires_at
    → live_owner now' s.run_id token db' ≡ true
unfolding is_running
Written-owner now now' token l s db db' w q ei et alive =
    rw (w.runs, w.leases, w.claims) (rw (a, exists-append, b, exists-append, c) (ground arith))
  where
    a :
        exists
          (λ r. run_is s.run_id r && is_running r)
          (update_where (still_queued s.run_id) (start_run now (s.attempt + 1)) db.runs)
        ≡ true
    a =
        exists-update_where_of (λ r. run_is s.run_id r && is_running r) (still_queued s.run_id)
          (start_run now (s.attempt + 1)) db.runs (λ x h. ground arith) q

    b : renewable now' s.run_id token l ≡ true
    b = ground (arith, eq_iff l.run_id s.run_id, eq_iff l.fencing_token token)

    c : claim_held s.run_id token (new_claim now token s) ≡ true
    c = ground (arith, eq_refl s.run_id, eq_refl token)

-- In the tables that a claim leaves, its worker owns the run at every time before the lease expires,
-- where cancellation is allowed.
pub claim_owner :
    (now now' : ℕ) (worker : String) (secs max : ℕ) (want : Option String) (token : String)
    (db : Db) (r : Run) (l : Lease) (db' : Db)
    → claim_next_run now worker secs max want token db ≡ ok (some (r, l), db')
    → now' < l.lease_expires_at
    → assert_run_owner now' r.run_id l.fencing_token true db' ≡ ok tt
unfolding assert_run_owner
claim_owner now now' worker secs max want token db r l db' h alive =
    let (s, er, el, taken, w, room) =
      claim_next_run_sound now worker secs max want token db r l db' h in
    let owner =
      Written-owner now now' token l s db db' w taken.present (ap (λ (x : Lease). x.run_id) el)
        (ap (λ (x : Lease). x.fencing_token) el) alive in
    ground (arith, owner)

not_both : (s t u : String) → (t == u) ≡ false → (s == t) ≡ true → (s == u) ≡ false
not_both s t u n h = ground (arith, eq_iff s t, eq_iff t u, eq_iff s u)

-- with one lease to a run, no lease of the run is held under another token
other_token :
    (id token : String) (ls : List Lease) (l : Lease)
    → find (lease_is id) ls ≡ some l
    → (l.fencing_token == token) ≡ false
    → count_where (lease_is id) ls ≤ 1
    → exists (lease_held id token) ls ≡ false
unfolding find count_where exists
other_token id token [] l h n c = refl
other_token id token (x ∷ ls) l h n c = elim (Bool-cases (lease_is id x)) [
  | inl t ↦ ground (arith, t, none_held id token ls)
  | inr f ↦ ground (arith, f, other_token id token ls l)
]
  where
    none_held :
        (i t : String) (ys : List Lease)
        → count_where (lease_is i) ys ≤ 0
        → exists (lease_held i t) ys ≡ false
    none_held i t [] c = refl
    none_held i t (y ∷ ys) c = ground (arith, none_held i t ys)

weaker :
    (now : ℕ) (id token : String) (ls : List Lease)
    → exists (lease_held id token) ls ≡ false
    → exists (renewable now id token) ls ≡ false
unfolding exists
weaker now id token [] h = refl
weaker now id token (l ∷ ls) h = ground (arith, weaker now id token ls)

abbrev pub IsErr {ℓ} : {A : Type ℓ} → Result A → Type 0
IsErr (ok a) = ⊥
IsErr (err e) = Unit

-- What a worker with another token than the lease's can do to the run: nothing.
pub record FencedOut (now : ℕ) (id token : String) (db : Db) : Type 0 where
  pub no_ownership : (b : Bool) → IsErr (assert_run_owner now id token b db)
  pub no_heartbeat : (expires : ℕ) → heartbeat_lease now id token expires db ≡ (false, db)
  pub no_result : IsErr (guard_owned_write now id (some token) db)
  pub no_update :
      (u : StatusUpdate)
      → u.run_id ≡ id
      → u.fencing_token ≡ some token
      → IsErr (update_run_status now u db)
  pub no_release : settle db (release_lease id token db) ≡ db

no_claim :
    (id token : String) (db : Db)
    → IsPaired db
    → exists (lease_held id token) db.leases ≡ false
    → exists (claim_held id token) db.claims ≡ false
no_claim id token db paired h =
    sym (exists-map claim_key (claim_held id token) (held id token) db.claims (λ _. refl))
    ∙ ap (exists (held id token)) paired
    ∙ exists-map lease_key (lease_held id token) (held id token) db.leases (λ _. refl)
    ∙ h

-- In a database whose claims and leases are paired and where the run has one lease, under
-- another token, a worker with its old token owns nothing, renews nothing, may not write a
-- result, may not update the run's status, and releases nothing.
pub fenced_out :
    (now : ℕ) (id token : String) (db : Db) (l : Lease)
    → find (lease_is id) db.leases ≡ some l
    → (l.fencing_token == token) ≡ false
    → count_where (lease_is id) db.leases ≤ 1
    → IsPaired db
    → FencedOut now id token db
unfolding assert_run_owner heartbeat_lease guard_owned_write update_run_status release_lease
fenced_out now id token db l found differs single paired =
    let none_held = other_token id token db.leases l found differs single in
    let none_live = weaker now id token db.leases none_held in
    let swapped : (token == l.fencing_token) ≡ false =
      ground (arith, eq_iff token l.fencing_token, eq_iff l.fencing_token token) in
    record {
      no_ownership = λ b. ground (arith, none_live);
      no_heartbeat = λ e. ground (arith, none_live);
      no_result = rw found (ground (arith, swapped));
      no_update = λ u eu et.
          let held_by : find (lease_is u.run_id) db.leases ≡ some l = rw eu found in
          ground (arith, held_by, et, swapped);
      no_release = ground (
        arith,
        remove_where_none (lease_held id token) db.leases none_held,
        remove_where_none (claim_held id token) db.claims (no_claim id token db paired none_held),
      );
    }
