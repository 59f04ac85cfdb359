-- ===== src/Runs/Fitting.antt =====
-- Each claim is of its run's task, after every operation of RunRepository.
use research_ops_automation.Base.{
  ℕ, ◌+◌, find_holds, String, Bool, true, false, ◌||◌, ◌==◌, eq_iff, Bool-cases, Option-cases,
  Result-cases, ◌≡◌, refl, Option, none, some, List, [], ◌∷◌, map, find, exists, length, leb, arith,
  inl, inr, All, All-append, All-find, All-map, All-remove_where, map-update_where, if◌then◌else◌,
}
use research_ops_automation.Domain.{Run, Lease, Claim, Db}
use research_ops_automation.Runs.Rows.{controls_are, run_is, lease_is, task_claim, claim_held}
use research_ops_automation.Runs.Claim.{
  claim_next_run, claim_selected, take_run, insert_claim, insert_lease, acquire_lease, acquire_for,
  select_first, claimable, earlier, lease_claim, new_claim, start_run,
}
use research_ops_automation.Runs.Claiming.{take_run-Written}
use research_ops_automation.Runs.Lease.{release_blocked, heartbeat_lease, release_lease}
use research_ops_automation.Runs.Status.{update_run_status, set_status}
use research_ops_automation.Runs.Control.{
  set_force_dry_run, request_cancel, mark_cleanup_verified, mark_stale_attention, still_queued,
  cancelled_before_execution, stale, abandoned,
}
use research_ops_automation.Runs.Ownership.{IsPaired, step-IsPaired}
use research_ops_automation.Runs.Steps.{Op, step, settle_with}

-- A run with its task.
abbrev pub id_task : Run → String × String
id_task r = (r.run_id, r.task_id)

-- no two rows give one run two tasks, as run_id is the primary key of scheduled_runs
abbrev pub IsKeyed : List Run → Type 0
IsKeyed rs = All (λ (r : Run). All (λ (s : Run). s.run_id ≡ r.run_id → s.task_id ≡ r.task_id) rs) rs

-- the claim is of its run's task
abbrev pub Fits : List Run → Claim → Type 0
Fits rs c = All (λ (r : Run). r.run_id ≡ c.run_id → r.task_id ≡ c.task_id) rs

pub select_first_All :
    (p : Run → Bool) (P : Run → Type 0) (rs : List Run) (r : Run)
    → All P rs
    → select_first p rs ≡ some r
    → P r
unfolding select_first
select_first_All p P [] r all h = cc
select_first_All p P (s ∷ rs) r all h = elim (Bool-cases (p s)) [
  | inr f ↦ select_first_All p P rs r all.1 (rw f at h)
  | inl t ↦ elim (Option-cases (select_first p rs)) [
    | inl n ↦ rw (← same (rw (t, n) at h)) all.0
    | inr (best, e) ↦
        either (earlier best s) (rw (t, e) at h) (select_first_All p P rs best all.1 e)
  ]
]
  where
    same : {a b : Run} → some a ≡ some b → a ≡ b
    same q = cc

    either : {best : Run} (b : Bool) → some (if b then best else s) ≡ some r → P best → P r
    either true q x = rw (← same q) x
    either false q x = rw (← same q) all.0

-- a predicate of the run and its task alone
module _ (P : String × String → Type 0) where
  All-ids : (rs : List Run) → All (λ r. P (id_task r)) rs → All P (map id_task rs)
  All-ids [] h = tt
  All-ids (r ∷ rs) h = (h.0, All-ids rs h.1)

  All-from_ids : (rs : List Run) → All P (map id_task rs) → All (λ r. P (id_task r)) rs
  All-from_ids [] h = tt
  All-from_ids (r ∷ rs) h = (h.0, All-from_ids rs h.1)

  All-same_ids :
      (rs ss : List Run)
      → map id_task ss ≡ map id_task rs
      → All (λ r. P (id_task r)) rs
      → All (λ r. P (id_task r)) ss
  All-same_ids rs ss e h = All-from_ids ss (rw e (All-ids rs h))

Fits-same_ids :
    (rs ss : List Run) (c : Claim) → map id_task ss ≡ map id_task rs → Fits rs c → Fits ss c
Fits-same_ids rs ss c e h = All-same_ids (λ k. k.0 ≡ c.run_id → k.1 ≡ c.task_id) rs ss e h

IsKeyed-same_ids : (rs ss : List Run) → map id_task ss ≡ map id_task rs → IsKeyed rs → IsKeyed ss
IsKeyed-same_ids rs ss e h =
    All-same_ids (λ k. All (λ (s : Run). s.run_id ≡ k.0 → s.task_id ≡ k.1) ss) rs ss e
      (All-map rs (λ r all. All-same_ids (λ k. k.0 ≡ r.run_id → k.1 ≡ r.task_id) rs ss e all) h)

-- Claims and leases go together, run_id is a key of the runs, and each claim is of its run's task.
pub record IsOwned (db : Db) : Type 0 where
  pub paired : IsPaired db
  pub keyed : IsKeyed db.runs
  pub fitting : All (Fits db.runs) db.claims

-- the rest of the tables, when claims are added or taken away and runs keep their ids
kept-IsOwned :
    (db db' : Db)
    → IsOwned db
    → IsPaired db'
    → map id_task db'.runs ≡ map id_task db.runs
    → All (Fits db.runs) db'.claims
    → IsOwned db'
kept-IsOwned db db' h paired same fits = record {
  paired = paired;
  keyed = IsKeyed-same_ids db.runs db'.runs same h.keyed;
  fitting = All-map db'.claims (λ c f. Fits-same_ids db.runs db'.runs c same f) fits;
}

claimed-IsOwned :
    (now : ℕ) (worker : String) (secs : ℕ) (token : String) (want : Option String) (db : Db)
    (o : Option Run)
    → IsOwned db
    → select_first (claimable now want db.claims) db.runs ≡ o
    → IsPaired (settle_with db (claim_selected now worker secs token db o))
    → IsOwned (settle_with db (claim_selected now worker secs token db o))
unfolding claim_selected
claimed-IsOwned now worker secs token want db none h e p = h
claimed-IsOwned now worker secs token want db (some s) h e p =
    elim (Result-cases (take_run now worker secs token s db)) [
      | inr (x, bad) ↦ rw bad h
      | inl (db', q) ↦
          let w = take_run-Written now worker secs token s db db' q in
          rw q (
            kept-IsOwned db db' h (rw q at p)
              (rw w.runs (
                map-update_where id_task (still_queued s.run_id) (start_run now (s.attempt + 1))
                  db.runs (λ _. refl)))
              (rw w.claims (
                All-append (Fits db.runs) db.claims (new_claim now token s) h.fitting (
                  select_first_All (claimable now want db.claims)
                    (λ r. All (λ (x : Run). x.run_id ≡ r.run_id → x.task_id ≡ r.task_id) db.runs)
                    db.runs s h.keyed e))))
    ]

-- the UNIQUE columns of task_claims
abbrev pub clashes : Claim → Claim → Bool
clashes c d = d.task_id == c.task_id || d.run_id == c.run_id || d.fencing_token == c.fencing_token

acquired-IsOwned :
    (l : Lease) (db : Db) (o : Option Run)
    → IsOwned db
    → find (run_is l.run_id) db.runs ≡ o
    → IsPaired (settle_with db (acquire_for l db o))
    → IsOwned (settle_with db (acquire_for l db o))
unfolding acquire_for insert_claim insert_lease
acquired-IsOwned l db none h e p = h
acquired-IsOwned l db (some r) h e p =
    let mine =
      All-find (λ (x : Run). All (λ (y : Run). y.run_id ≡ x.run_id → y.task_id ≡ x.task_id) db.runs)
        (run_is l.run_id) db.runs h.keyed e in
    let same = (eq_iff r.run_id l.run_id).0 (find_holds (run_is l.run_id) db.runs e) in
    let fits : Fits db.runs (lease_claim r.task_id l) = rw same at mine in
    elim (Bool-cases (exists (task_claim r.task_id) db.claims)) [
      | inl t ↦ rw t h
      | inr a ↦ elim (Bool-cases (exists (clashes (lease_claim r.task_id l)) db.claims)) [
        | inl t ↦ rw (a, t) h
        | inr b ↦ elim (Bool-cases (exists (lease_is l.run_id) db.leases)) [
          | inl t ↦ rw (a, b, t) h
          | inr c ↦
              rw (a, b, c)
                (kept-IsOwned db _ h (rw (a, b, c) at p) refl
                  (All-append (Fits db.runs) db.claims (lease_claim r.task_id l) h.fitting fits))
        ]
      ]
    ]

same_claims :
    (db db' : Db)
    → db'.claims ≡ db.claims
    → All (Fits db.runs) db.claims
    → All (Fits db.runs) db'.claims
same_claims db db' e h = rw e h

pub step-IsOwned : (op : Op) (db : Db) → IsOwned db → IsOwned (step op db)
unfolding step update_run_status set_force_dry_run request_cancel mark_cleanup_verified
    mark_stale_attention claim_next_run acquire_lease heartbeat_lease release_lease set_status
step-IsOwned (Op.update_status now u) db h =
    kept-IsOwned db _ h (step-IsPaired (Op.update_status now u) db h.paired)
      (ground
        (arith, map-update_where id_task (run_is u.run_id) (set_status now u) db.runs (λ _. refl)))
      (same_claims db (step (Op.update_status now u) db) (ground arith) h.fitting)
step-IsOwned (Op.claim now worker secs max want token) db h =
    let p = step-IsPaired (Op.claim now worker secs max want token) db h.paired in
    elim (Bool-cases (leb max (length db.claims))) [
      | inl t ↦ rw t h
      | inr f ↦ rw f (claimed-IsOwned now worker secs token want db _ h refl (rw f at p))
    ]
step-IsOwned (Op.acquire l) db h =
    let p = step-IsPaired (Op.acquire l) db h.paired in
    elim (Bool-cases (exists (lease_is l.run_id) db.leases)) [
      | inl t ↦ rw t h
      | inr f ↦ rw f (acquired-IsOwned l db _ h refl (rw f at p))
    ]
step-IsOwned (Op.heartbeat now id token e) db h =
    kept-IsOwned db _ h (step-IsPaired (Op.heartbeat now id token e) db h.paired)
      (ground (
        arith,
        map-update_where id_task (run_is id) (λ r. record r { last_heartbeat_at = some now })
            db.runs (λ _. refl),
      ))
      (same_claims db (step (Op.heartbeat now id token e) db) (ground arith) h.fitting)
step-IsOwned (Op.release id token) db h =
    let p = step-IsPaired (Op.release id token) db h.paired in
    elim (Bool-cases
      (release_blocked (find (run_is id) db.runs) (find (controls_are id) db.controls))) [
        | inl t ↦ rw t h
        | inr f ↦ rw f (
            kept-IsOwned db _ h (rw f at p) refl
              (All-remove_where (Fits db.runs) (claim_held id token) db.claims h.fitting))
      ]
step-IsOwned (Op.force_dry_run id v) db h =
    kept-IsOwned db _ h (step-IsPaired (Op.force_dry_run id v) db h.paired) (ground arith)
      (same_claims db (step (Op.force_dry_run id v) db) (ground arith) h.fitting)
step-IsOwned (Op.cancel now id) db h =
    kept-IsOwned db _ h (step-IsPaired (Op.cancel now id) db h.paired)
      (map-update_where id_task (still_queued id) (cancelled_before_execution now) db.runs
        (λ _. refl))
      h.fitting
step-IsOwned (Op.cleanup_verified id token) db h =
    kept-IsOwned db _ h (step-IsPaired (Op.cleanup_verified id token) db h.paired) refl h.fitting
step-IsOwned (Op.stale_attention now id token) db h =
    kept-IsOwned db _ h (step-IsPaired (Op.stale_attention now id token) db h.paired)
      (map-update_where id_task (abandoned now id token db.leases) (stale now) db.runs (λ _. refl))
      h.fitting
