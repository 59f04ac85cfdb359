-- ===== src/Runs/Progress.antt =====
-- The state machine of a run under the operations of RunRepository.
use research_ops_automation.Base.{
  leb, length, ℕ, ◌+◌, ◌<◌, String, Bool, true, eq_iff, Bool-cases, ◌≡◌, refl, sym, ap, ◌∙◌, Option,
  none, some, List, find, exists, update_where, ok, arith, find-update_where, find_holds, ◌⊎◌, inl,
  inr, changed, Result-cases,
}
use mathlib.Core.Option
use research_ops_automation.Domain.{RunStatus, Run, Lease, Db}
use research_ops_automation.Runs.Rows.{lease_is, run_is}
use research_ops_automation.Runs.Claim.{
  claim_selected, acquire_for, insert_claim, insert_lease, ensure_controls, take_run,
  claim_next_run, acquire_lease, select_first, claimable, start_run,
}
use research_ops_automation.Runs.Lease.{renewable, heartbeat_lease, release_lease}
use research_ops_automation.Runs.Status.{
  StatusUpdate, update_run_status, allowed, is_terminal, set_status,
}
use research_ops_automation.Runs.Control.{
  set_force_dry_run, request_cancel, mark_cleanup_verified, mark_stale_attention, still_queued,
  abandoned, cancelled_before_execution, stale,
}
use research_ops_automation.Runs.Steps.{Op, step, steps, steps_induction, settle, settle_with}

-- how far a status lies from the queue
abbrev pub rank : RunStatus → ℕ
rank RunStatus.queued = 0
rank RunStatus.running = 1
rank RunStatus.awaiting_receipt = 2
rank _ = 3

-- `r'` is `r` at the same or a later status, and still the same run of the same task version.
pub record Forward (r r' : Run) : Type 0 where
  pub status : (r.status ≡ r'.status) ⊎ (rank r.status < rank r'.status)
  pub run_id : r.run_id ≡ r'.run_id
  pub task_id : r.task_id ≡ r'.task_id
  pub version : r.task_version_hash ≡ r'.task_version_hash

pub Forward-refl : (r : Run) → Forward r r
Forward-refl r = record { status = inl refl; run_id = refl; task_id = refl; version = refl }

pub Forward-trans : {a b c : Run} → Forward a b → Forward b c → Forward a c
Forward-trans p q = ground arith

-- The run of that id is there, at the same status as `r` or a later one.
abbrev pub Later : String → Run → List Run → Type 0
Later id r runs = (r' : Run) × (find (run_is id) runs ≡ some r') × Forward r r'

changed-Forward :
    (p : Run → Bool) (f : Run → Run) (x : Run)
    → (p x ≡ true → Forward x (f x))
    → Forward x (changed p f x)
changed-Forward p f x h = elim (Bool-cases (p x)) [
  | inl t ↦ rw t (h t)
  | inr n ↦ rw n (Forward-refl x)
]

Later-update_where :
    (id : String) (r : Run) (p : Run → Bool) (f : Run → Run) (runs : List Run)
    → ((x : Run) → run_is id (f x) ≡ run_is id x)
    → ((x : Run) → find (run_is id) runs ≡ some x → p x ≡ true → Forward x (f x))
    → Later id r runs
    → Later id r (update_where p f runs)
Later-update_where id r p f runs keep ahead (r', found, fw) = (
  changed p f r',
  find-update_where (run_is id) p f runs keep ∙ ap (Option.map (changed p f)) found,
  Forward-trans fw (changed-Forward p f r' (ahead r' found)),
)

allowed_forward : (s t : RunStatus) → allowed s t ≡ true → (s ≡ t) ⊎ (rank s < rank t)
unfolding allowed
allowed_forward s t h = ground arith

-- the row that update_run_status reads is the row of the run it changes
same_run :
    (id other : String) (runs : List Run) {x y : Run}
    → find (run_is id) runs ≡ some x
    → find (run_is other) runs ≡ some y
    → run_is other x ≡ true
    → x ≡ y
same_run id other runs {x} {y} hx hy t =
    let e : other ≡ id =
      sym ((eq_iff x.run_id other).0 t) ∙ (eq_iff x.run_id id).0 (find_holds (run_is id) runs hx) in
    some_inj x y (sym hx ∙ ap (λ k. find (run_is k) runs) (sym e) ∙ hy)
  where
    some_inj : (a b : Run) → some a ≡ some b → a ≡ b
    some_inj a b q = cc

-- what a successful update has read and written
pub update_run_status-eq-ok :
    (now : ℕ) (u : StatusUpdate) (db db' : Db)
    → update_run_status now u db ≡ ok db'
    → (r : Run) × (find (run_is u.run_id) db.runs ≡ some r)
      × (allowed r.status u.status ≡ true)
      × (db' ≡ record db { runs = update_where (run_is u.run_id) (set_status now u) db.runs })
unfolding update_run_status
update_run_status-eq-ok now u db db' e = ground arith

set_status-Forward :
    (now : ℕ) (u : StatusUpdate) (r : Run)
    → allowed r.status u.status ≡ true
    → Forward r (set_status now u r)
unfolding set_status
set_status-Forward now u r a = record {
  status = allowed_forward r.status u.status a;
  run_id = refl;
  task_id = refl;
  version = refl;
}

update_run_status-Later :
    (now : ℕ) (u : StatusUpdate) (id : String) (r : Run) (db : Db)
    → Later id r db.runs
    → Later id r (settle db (update_run_status now u db)).runs
unfolding set_status
update_run_status-Later now u id r db h = elim (Result-cases (update_run_status now u db)) [
  | inl (db', e) ↦
      let (current, found, a, w) = update_run_status-eq-ok now u db db' e in
      rw (e, w)
        (Later-update_where id r (run_is u.run_id) (set_status now u) db.runs (λ _. refl)
          (λ x fx t. set_status-Forward now u x (rw (same_run id u.run_id db.runs fx found t) a)) h)
  | inr (x, e) ↦ rw e h
]

request_cancel-Later :
    (now : ℕ) (other id : String) (r : Run) (db : Db)
    → Later id r db.runs
    → Later id r (request_cancel now other db).runs
unfolding request_cancel
request_cancel-Later now other id r db h =
    Later-update_where id r (still_queued other) (cancelled_before_execution now) db.runs
      (λ _. refl) (λ x _ t. ground arith) h

stale-Later :
    (now : ℕ) (other token id : String) (r : Run) (db : Db)
    → Later id r db.runs
    → Later id r (mark_stale_attention now other token db).runs
unfolding mark_stale_attention
stale-Later now other token id r db h =
    Later-update_where id r (abandoned now other token db.leases) (stale now) db.runs (λ _. refl)
      (λ x _ t. ground arith) h

heartbeat-Later :
    (now : ℕ) (other token : String) (e : ℕ) (id : String) (r : Run) (db : Db)
    → Later id r db.runs
    → Later id r (heartbeat_lease now other token e db).1.runs
unfolding heartbeat_lease
heartbeat-Later now other token e id r db h =
    elim (Bool-cases (exists (renewable now other token) db.leases)) [
      | inl t ↦ rw t (
          Later-update_where id r (run_is other) (λ x. record x { last_heartbeat_at = some now })
            db.runs (λ _. refl) (λ x _ _. ground arith) h)
      | inr f ↦ rw f h
    ]

take_run-Later :
    (now : ℕ) (worker : String) (secs : ℕ) (token : String) (s : Run) (id : String) (r : Run)
    (db db' : Db)
    → Later id r db.runs
    → take_run now worker secs token s db ≡ ok db'
    → Later id r db'.runs
unfolding take_run insert_claim insert_lease ensure_controls
take_run-Later now worker secs token s id r db db' h e =
    let written : db'.runs
        ≡ update_where (still_queued s.run_id) (start_run now (s.attempt + 1)) db.runs =
      ground arith in
    rw written (
      Later-update_where id r (still_queued s.run_id) (start_run now (s.attempt + 1)) db.runs
        (λ _. refl) (λ x _ t. ground arith) h)

claim_selected-Later :
    (now : ℕ) (worker : String) (secs : ℕ) (token : String) (id : String) (r : Run) (db : Db)
    (o : Option Run)
    → Later id r db.runs
    → Later id r (settle_with db (claim_selected now worker secs token db o)).runs
unfolding claim_selected
claim_selected-Later now worker secs token id r db none h = h
claim_selected-Later now worker secs token id r db (some s) h =
    elim (Result-cases (take_run now worker secs token s db)) [
      | inl (db', e) ↦ rw e (take_run-Later now worker secs token s id r db db' h e)
      | inr (x, e) ↦ rw e h
    ]

-- the operations that leave the runs alone
runs-acquire_for :
    (l : Lease) (db : Db) (o : Option Run) → (settle_with db (acquire_for l db o)).runs ≡ db.runs
unfolding acquire_for insert_claim insert_lease
runs-acquire_for l db none = refl
runs-acquire_for l db (some r) = ground arith

runs-release :
    (id token : String) (db : Db) → (settle db (release_lease id token db)).runs ≡ db.runs
unfolding release_lease
runs-release id token db = ground arith

runs-set_force_dry_run :
    (id : String) (v : Bool) (db : Db) → (settle db (set_force_dry_run id v db)).runs ≡ db.runs
unfolding set_force_dry_run
runs-set_force_dry_run id v db = ground arith

pub step-Later :
    (id : String) (r : Run) (op : Op) (db : Db) → Later id r db.runs → Later id r (step op db).runs
unfolding step mark_cleanup_verified claim_next_run acquire_lease
step-Later id r (Op.update_status now u) db h = update_run_status-Later now u id r db h
step-Later id r (Op.claim now worker secs max want token) db h =
    elim (Bool-cases (leb max (length db.claims))) [
      | inl t ↦ rw t h
      | inr f ↦ rw f (
          claim_selected-Later now worker secs token id r db
            (select_first (claimable now want db.claims) db.runs) h)
    ]
step-Later id r (Op.acquire l) db h = elim (Bool-cases (exists (lease_is l.run_id) db.leases)) [
  | inl t ↦ rw t h
  | inr f ↦ rw (f, runs-acquire_for l db (find (run_is l.run_id) db.runs)) h
]
step-Later id r (Op.heartbeat now other token e) db h = heartbeat-Later now other token e id r db h
step-Later id r (Op.release other token) db h = rw (runs-release other token db) h
step-Later id r (Op.force_dry_run other v) db h = rw (runs-set_force_dry_run other v db) h
step-Later id r (Op.cancel now other) db h = request_cancel-Later now other id r db h
step-Later id r (Op.cleanup_verified other token) db h = h
step-Later id r (Op.stale_attention now other token) db h = stale-Later now other token id r db h

-- After any sequence of the repository's operations a run is still there, of the same task and
-- version, at its old status or at one of a higher rank.
pub steps-Forward :
    (ops : List Op) (db : Db) (id : String) (r : Run)
    → find (run_is id) db.runs ≡ some r
    → (r' : Run) × (find (run_is id) (steps ops db).runs ≡ some r') × Forward r r'
steps-Forward ops db id r found =
    steps_induction (step-Later id r) ops db (r, found, Forward-refl r)

terminal_rank : (s t : RunStatus) → is_terminal s ≡ true → (s ≡ t) ⊎ (rank s < rank t) → s ≡ t
unfolding is_terminal
terminal_rank s t h f = ground arith

-- A run in a terminal status is in the same status after any sequence of the repository's
-- operations.
pub terminal_forever :
    (ops : List Op) (db : Db) (id : String) (r : Run)
    → find (run_is id) db.runs ≡ some r
    → is_terminal r.status ≡ true
    → (r' : Run) × (find (run_is id) (steps ops db).runs ≡ some r') × (r.status ≡ r'.status)
terminal_forever ops db id r found h =
    let (r', found', fw) = steps-Forward ops db id r found in
    (r', found', terminal_rank r.status r'.status h fw.status)
