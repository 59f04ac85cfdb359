-- ===== src/Runs/Cleanup.antt =====
-- A task stays owned by the run that claimed it until the run's child processes are known to be gone.
use research_ops_automation.Base.{
  ℕ, String, Bool, true, false, ◌&&◌, ◌==◌, eq_iff, Bool-cases, Option-cases, ◌≡◌, refl, Option,
  none, some, List, [], ◌∷◌, ◌++◌, find, exists, update_where, remove_where, ok, arith, ◌⊎◌, inl,
  inr, Result-cases, find-append, find-update_where, find-exists, exists-append,
}
use research_ops_automation.Domain.{Run, Lease, Claim, Controls, Db}
use research_ops_automation.Runs.Rows.{run_is, controls_are, claim_held}
use research_ops_automation.Runs.Claim.{
  claim_next_run, claim_selected, take_run, insert_claim, insert_lease, ensure_controls,
  acquire_lease, acquire_for, select_first, claimable, lease_claim, new_claim,
}
use research_ops_automation.Runs.Lease.{
  heartbeat_lease, release_lease, release_blocked, cleanup_missing,
}
use research_ops_automation.Runs.Status.{update_run_status}
use research_ops_automation.Runs.Control.{
  is_queued, set_force_dry_run, request_cancel, mark_cleanup_verified, mark_stale_attention,
  default_controls,
}
use research_ops_automation.Runs.Progress.{Forward, Forward-refl, Later, step-Later}
use research_ops_automation.Runs.Steps.{Op, step, steps, steps_induction, settle, settle_with}

-- the run's row of execution_controls says that its cleanup is verified
abbrev pub IsVerified : String → Db → Type 0
IsVerified id db = cleanup_missing (find (controls_are id) db.controls) ≡ false

abbrev pub IsClaimed : String → String → Db → Type 0
IsClaimed id token db = exists (claim_held id token) db.claims ≡ true

abbrev Kept : String → String → Db → Type 0
Kept id token db = IsClaimed id token db ⊎ IsVerified id db

-- updates of the controls by fields other than the run's id keep a verified row verified
verified-update_where :
    (id : String) (p : Controls → Bool) (f : Controls → Controls) (cs : List Controls)
    → ((c : Controls) → controls_are id (f c) ≡ controls_are id c)
    → ((c : Controls) → c.child_cleanup_verified ≡ true → (f c).child_cleanup_verified ≡ true)
    → cleanup_missing (find (controls_are id) cs) ≡ false
    → cleanup_missing (find (controls_are id) (update_where p f cs)) ≡ false
verified-update_where id p f cs keep grow h = elim (Option-cases (find (controls_are id) cs)) [
  | inl n ↦ ground (arith, n)
  | inr (c, e) ↦ rw (find-update_where (controls_are id) p f cs keep, e) (ground (arith, e, grow c))
]

claim_append :
    (id token : String) (cs : List Claim) (c : Claim)
    → exists (claim_held id token) cs ≡ true
    → exists (claim_held id token) (cs ++ c ∷ []) ≡ true
claim_append id token cs c h = rw exists-append (ground (arith, h))

ensure-IsVerified :
    (id other : String) (db : Db) → IsVerified id db → IsVerified id (ensure_controls other db)
unfolding ensure_controls
ensure-IsVerified id other db h = elim (Option-cases (find (controls_are id) db.controls)) [
  | inl n ↦ ground (arith, n)
  | inr (c, e) ↦ ground (
    arith,
    e,
    find-append (controls_are id) db.controls (default_controls other),
    find-exists (controls_are id) db.controls {x = c} e,
  )
]

take_run-Kept :
    (now : ℕ) (worker : String) (secs : ℕ) (token : String) (s : Run) (id held : String)
    (db db' : Db)
    → Kept id held db
    → take_run now worker secs token s db ≡ ok db'
    → Kept id held db'
unfolding take_run insert_claim insert_lease ensure_controls
take_run-Kept now worker secs token s id held db db' (inl c) e =
    inl (ground (arith, claim_append id held db.claims (new_claim now token s) c))
take_run-Kept now worker secs token s id held db db' (inr v) e =
    inr (ground (arith, ensure-IsVerified id s.run_id db v))

claim_selected-Kept :
    (now : ℕ) (worker : String) (secs : ℕ) (token id held : String) (db : Db) (o : Option Run)
    → Kept id held db
    → Kept id held (settle_with db (claim_selected now worker secs token db o))
unfolding claim_selected
claim_selected-Kept now worker secs token id held db none h = h
claim_selected-Kept now worker secs token id held db (some s) h =
    elim (Result-cases (take_run now worker secs token s db)) [
      | inl (db', e) ↦ rw e (take_run-Kept now worker secs token s id held db db' h e)
      | inr (x, e) ↦ rw e h
    ]

acquire_for-Kept :
    (l : Lease) (id held : String) (db : Db) (o : Option Run)
    → Kept id held db
    → Kept id held (settle_with db (acquire_for l db o))
unfolding acquire_for insert_claim insert_lease
acquire_for-Kept l id held db none h = h
acquire_for-Kept l id held db (some r) (inl c) =
    inl (ground (arith, claim_append id held db.claims (lease_claim r.task_id l) c))
acquire_for-Kept l id held db (some r) (inr v) = inr (ground (arith, v))

-- deleting the claim of another run leaves a claim in place
claim_remains :
    (id token other other_token : String) (cs : List Claim)
    → (other == id) ≡ false
    → exists (claim_held id token) cs ≡ true
    → exists (claim_held id token) (remove_where (claim_held other other_token) cs) ≡ true
unfolding exists remove_where
claim_remains id token other other_token [] n h = h
claim_remains id token other other_token (c ∷ cs) n h = ground (
  arith,
  claim_remains id token other other_token cs n,
  eq_iff c.run_id other,
  eq_iff c.run_id id,
  eq_iff other id,
)

-- a run that has left the queue is released only once its cleanup is verified
release-Kept :
    (other other_token id held : String) (r : Run) (db : Db)
    → find (run_is id) db.runs ≡ some r
    → is_queued r ≡ false
    → Kept id held db
    → Kept id held (settle db (release_lease other other_token db))
unfolding release_lease release_blocked
release-Kept other other_token id held r db found left (inr v) = inr (ground (arith, v))
release-Kept other other_token id held r db found left (inl c) = elim (Bool-cases (other == id)) [
  | inl same ↦
      let e : other ≡ id = (eq_iff other id).0 same in
      elim (Bool-cases (cleanup_missing (find (controls_are id) db.controls))) [
        | inl missing ↦ inl (rw (e, found, left, missing) c)
        | inr verified ↦ inr (ground (arith, verified))
      ]
  | inr differs ↦
      inl (ground (arith, c, claim_remains id held other other_token db.claims differs c))
]

not_queued : (r r' : Run) → Forward r r' → is_queued r ≡ false → is_queued r' ≡ false
unfolding is_queued
not_queued r r' f h = ground arith

-- the run is past the queue, and its claim is there or its cleanup is verified
abbrev Held : String → String → Run → Db → Type 0
Held id token r db = Later id r db.runs × Kept id token db

step-Kept :
    (id held : String) (r : Run) (op : Op) (db : Db)
    → is_queued r ≡ false
    → Held id held r db
    → Kept id held (step op db)
unfolding step update_run_status set_force_dry_run request_cancel mark_cleanup_verified
    mark_stale_attention heartbeat_lease claim_next_run acquire_lease
step-Kept id held r (Op.update_status now u) db q h = ground (arith, h.1)
step-Kept id held r (Op.claim now worker secs max want token) db q h = ground (
  arith,
  h.1,
  claim_selected-Kept now worker secs token id held db
      (select_first (claimable now want db.claims) db.runs) h.1,
)
step-Kept id held r (Op.acquire l) db q h =
    ground (arith, h.1, acquire_for-Kept l id held db (find (run_is l.run_id) db.runs) h.1)
step-Kept id held r (Op.heartbeat now other token e) db q h = ground (arith, h.1)
step-Kept id held r (Op.release other token) db q h =
    let (r', found, fw) = h.0 in
    release-Kept other token id held r' db found (not_queued r r' fw q) h.1
step-Kept id held r (Op.force_dry_run other v) db q (later, inl c) = ground (arith, c)
step-Kept id held r (Op.force_dry_run other v) db q (later, inr w) = ground (
  arith,
  w,
  verified-update_where id (controls_are other) (λ c. record c { force_dry_run = v }) db.controls
      (λ _. refl) (λ _ t. t) w,
)
step-Kept id held r (Op.cancel now other) db q (later, inl c) = inl c
step-Kept id held r (Op.cancel now other) db q (later, inr w) = inr (
    verified-update_where id (controls_are other) (λ c. record c { cancel_requested = true })
      db.controls (λ _. refl) (λ _ t. t) w)
step-Kept id held r (Op.cleanup_verified other token) db q (later, inl c) = inl c
step-Kept id held r (Op.cleanup_verified other token) db q (later, inr w) = inr (
    verified-update_where id
      (λ c. controls_are other c && exists (claim_held other token) db.claims)
      (λ c. record c { child_cleanup_verified = true }) db.controls (λ _. refl) (λ _ _. refl) w)
step-Kept id held r (Op.stale_attention now other token) db q h = h.1

-- Where a run that is not queued holds the claim of its task, then after any sequence of the
-- repository's operations the claim is still there under its token, or the run's cleanup is
-- recorded as verified.
pub claim_kept_until_cleanup :
    (ops : List Op) (db : Db) (id token : String) (r : Run)
    → find (run_is id) db.runs ≡ some r
    → is_queued r ≡ false
    → IsClaimed id token db
    → IsClaimed id token (steps ops db) ⊎ IsVerified id (steps ops db)
claim_kept_until_cleanup ops db id token r found q c =
    (steps_induction {P = Held id token r}
      (λ op d h. (step-Later id r op d h.0, step-Kept id token r op d q h)) ops db
      ((r, found, Forward-refl r), inl c)).1
