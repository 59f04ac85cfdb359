-- ===== src/Runs/Rows.antt =====
-- The WHERE clauses by which RunRepository selects its rows.
use research_ops_automation.Base.{String, Bool, ◌&&◌, ◌==◌, Option, none, some, false, not}
use research_ops_automation.Domain.{Run, Lease, Claim, Controls}

abbrev pub run_is : String → Run → Bool
run_is id r = r.run_id == id

abbrev pub lease_is : String → Lease → Bool
lease_is id l = l.run_id == id

abbrev pub controls_are : String → Controls → Bool
controls_are id c = c.run_id == id

abbrev pub task_claim : String → Claim → Bool
task_claim task c = c.task_id == task

-- WHERE run_id=? AND fencing_token=?
abbrev pub lease_held : String → String → Lease → Bool
lease_held id token l = l.run_id == id && l.fencing_token == token

abbrev pub claim_held : String → String → Claim → Bool
claim_held id token c = c.run_id == id && c.fencing_token == token

-- Python's truth of an optional text
abbrev pub truthy : Option String → Bool
truthy none = false
truthy (some s) = not (s == "")
