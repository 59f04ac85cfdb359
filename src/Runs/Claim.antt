-- ===== src/Runs/Claim.antt =====
-- RunRepository.claim_next_run and acquire_lease: one transaction owns both a run and its task.
use research_ops_automation.Base.{
  ℕ, ◌+◌, ◌*◌, String, Bool, true, false, not, ◌&&◌, ◌||◌, ◌==◌, leb, ltb, eqb, str_lt, Option,
  none, some, List, [], ◌∷◌, ◌++◌, update_where, find, exists, length, Result, ok, err, integrity,
  ◌>>=◌, if◌then◌else◌,
}
use research_ops_automation.Domain.{RunStatus, Phase, Run, Lease, Claim, Db}
use research_ops_automation.Runs.Rows.{run_is, lease_is, controls_are, task_claim}
use research_ops_automation.Runs.Control.{is_queued, still_queued, default_controls}

-- seconds of a timedelta, in the instants' microseconds
abbrev pub seconds : ℕ → ℕ
seconds n = n * 1000000

-- INSERT INTO task_claims, with its primary key and its two UNIQUE columns
unfoldable pub insert_claim : Claim → Db → Result Db
insert_claim c db =
    if exists
      (λ (d : Claim).
        d.task_id == c.task_id || d.run_id == c.run_id || d.fencing_token == c.fencing_token)
      db.claims
    then err integrity
    else ok (record db { claims = db.claims ++ c ∷ [] })

-- INSERT INTO run_leases, with its primary key
unfoldable pub insert_lease : Lease → Db → Result Db
insert_lease l db =
    if exists (lease_is l.run_id) db.leases
    then err integrity
    else ok (record db { leases = db.leases ++ l ∷ [] })

-- INSERT OR IGNORE INTO execution_controls(run_id)
unfoldable pub ensure_controls : String → Db → Db
ensure_controls id db =
    if exists (controls_are id) db.controls
    then db
    else record db { controls = db.controls ++ default_controls id ∷ [] }

-- `run_id` None or empty selects every run
abbrev wanted : Option String → Run → Bool
wanted none r = true
wanted (some id) r = id == "" || r.run_id == id

-- the WHERE of the query: queued, due, and no claim on the run's task
unfoldable pub claimable : ℕ → Option String → List Claim → Run → Bool
unfolding is_queued
claimable now id claims r =
    is_queued r
    && not (exists (task_claim r.task_id) claims)
    && leb r.scheduled_for now
    && wanted id r

-- ORDER BY r.created_at,r.run_id
unfoldable pub earlier : Run → Run → Bool
earlier a b =
    ltb a.created_at b.created_at || (eqb a.created_at b.created_at && str_lt a.run_id b.run_id)

abbrev pub first_of_two : Run → Option Run → Run
first_of_two r none = r
first_of_two r (some best) = if earlier best r then best else r

-- WHERE p ORDER BY … LIMIT 1
unfoldable pub select_first : (Run → Bool) → List Run → Option Run
select_first p [] = none
select_first p (r ∷ rs) =
    let best = select_first p rs in if p r then some (first_of_two r best) else best

abbrev pub start_run : ℕ → ℕ → Run → Run
start_run now attempt r = record r {
  status = RunStatus.running;
  phase = Phase.preflight;
  attempt = attempt;
  started_at = some now;
  last_heartbeat_at = some now;
}

-- the run that claim_next_run returns: the selected row with four attributes set
abbrev pub claimed_run : ℕ → Run → Run
claimed_run now r = record r {
  status = RunStatus.running;
  phase = Phase.preflight;
  attempt = r.attempt + 1;
  started_at = some now;
}

-- the lease of the claim; `token` is "fence-" and a fresh UUID
abbrev pub new_lease : ℕ → String → ℕ → String → Run → Lease
new_lease now worker_id lease_seconds token r = record {
  run_id = r.run_id;
  worker_id = worker_id;
  attempt = r.attempt + 1;
  fencing_token = token;
  claimed_at = now;
  heartbeat_at = now;
  lease_expires_at = now + seconds lease_seconds;
}

abbrev pub new_claim : ℕ → String → Run → Claim
new_claim now token r = record {
  task_id = r.task_id;
  run_id = r.run_id;
  fencing_token = token;
  claimed_at = now;
}

-- the writes of the transaction, once a run is selected
unfoldable pub take_run : ℕ → String → ℕ → String → Run → Db → Result Db
unfolding is_queued
take_run now worker_id lease_seconds token r db = do
  db₁ ← insert_claim (new_claim now token r) db
  db₂ ← insert_lease (new_lease now worker_id lease_seconds token r) db₁
  let started = update_where (still_queued r.run_id) (start_run now (r.attempt + 1)) db₂.runs
  ok (ensure_controls r.run_id (record db₂ { runs = started }))

-- the rest of claim_next_run, on the row that the query found
unfoldable pub claim_selected :
    ℕ → String → ℕ → String → Db → Option Run → Result (Option (Run × Lease) × Db)
claim_selected now worker_id lease_seconds token db none = ok (none, db)
claim_selected now worker_id lease_seconds token db (some r) =
    take_run now worker_id lease_seconds token r db >>= λ db'.
    ok (some (claimed_run now r, new_lease now worker_id lease_seconds token r), db')

unfoldable pub claim_next_run :
    ℕ → String → ℕ → ℕ → Option String → String → Db → Result (Option (Run × Lease) × Db)
claim_next_run now worker_id lease_seconds max_running run_id token db =
    if leb max_running (length db.claims)
    then ok (none, db)
    else claim_selected now worker_id lease_seconds token db
        (select_first (claimable now run_id db.claims) db.runs)

abbrev pub lease_claim : String → Lease → Claim
lease_claim task lease = record {
  task_id = task;
  run_id = lease.run_id;
  fencing_token = lease.fencing_token;
  claimed_at = lease.claimed_at;
}

unfoldable pub acquire_for : Lease → Db → Option Run → Result (Bool × Db)
acquire_for lease db none = ok (false, db)
acquire_for lease db (some r) =
    if exists (task_claim r.task_id) db.claims
    then ok (false, db)
    else insert_claim (lease_claim r.task_id lease) db >>= λ db₁.
        insert_lease lease db₁ >>= λ db₂. ok (true, db₂)

unfoldable pub acquire_lease : Lease → Db → Result (Bool × Db)
acquire_lease lease db =
    if exists (lease_is lease.run_id) db.leases
    then ok (false, db)
    else acquire_for lease db (find (run_is lease.run_id) db.runs)
