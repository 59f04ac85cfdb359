-- ===== src/Runs/Clashes.antt =====
-- A claim is never refused by the keys of the ownership tables: the queries before it see to that.
use research_ops_automation.Base.{
  ℕ, find_holds, String, true, false, ◌==◌, eq_iff, Bool-cases, ◌≡◌, refl, sym, ap, ◌∙◌, Option,
  none, some, List, [], ◌∷◌, find, exists, exists-map, length, leb, is_ok, arith, inl, inr, All,
  All-find, All-map,
}
use research_ops_automation.Domain.{Run, Lease, Claim, Db}
use research_ops_automation.Runs.Rows.{run_is, lease_is, task_claim}
use research_ops_automation.Runs.Claim.{
  claim_next_run, claim_selected, take_run, insert_claim, insert_lease, acquire_lease, acquire_for,
  select_first, claimable, lease_claim, new_claim,
}
use research_ops_automation.Runs.Claiming.{select_first_holds}
use research_ops_automation.Runs.Ownership.{IsPaired, claim_key, lease_key}
use research_ops_automation.Runs.Steps.{Op, steps, steps_induction}
use research_ops_automation.Runs.Fitting.{IsOwned, clashes, select_first_All, step-IsOwned}

-- no claim stands in the way of a new one
no_clash :
    (c : Claim) (cs : List Claim)
    → All (λ (d : Claim). c.run_id ≡ d.run_id → c.task_id ≡ d.task_id) cs
    → exists (task_claim c.task_id) cs ≡ false
    → exists (λ (d : Claim). d.fencing_token == c.fencing_token) cs ≡ false
    → (exists (clashes c) cs ≡ false) × (exists (λ (d : Claim). d.run_id == c.run_id) cs ≡ false)
unfolding exists
no_clash c [] fits free new = (refl, refl)
no_clash c (d ∷ cs) fits free new =
    let (a, b) = no_clash c cs fits.1 (ground (arith, free)) (ground (arith, new)) in
    let other : (d.run_id == c.run_id) ≡ false = elim (Bool-cases (d.run_id == c.run_id)) [
      | inr f ↦ f
      | inl t ↦
          let task = fits.0 (sym ((eq_iff d.run_id c.run_id).0 t)) in
          absurd (ground (arith, free, (eq_iff d.task_id c.task_id).1 (sym task)))
    ] in
    (ground (arith, a, other, free, new), ground (arith, b, other))

-- a run without a claim has no lease either
no_lease :
    (id : String) (db : Db)
    → IsPaired db
    → exists (λ (d : Claim). d.run_id == id) db.claims ≡ false
    → exists (lease_is id) db.leases ≡ false
no_lease id db paired h =
    sym (exists-map lease_key (lease_is id) (λ k. k.0 == id) db.leases (λ _. refl))
    ∙ ap (exists (λ k. k.0 == id)) (sym paired)
    ∙ exists-map claim_key (λ (d : Claim). d.run_id == id) (λ k. k.0 == id) db.claims (λ _. refl)
    ∙ h

abbrev pub IsNew : String → Db → Type 0
IsNew token db = exists (λ (d : Claim). d.fencing_token == token) db.claims ≡ false

free_task :
    (now : ℕ) (want : Option String) (s : Run) (cs : List Claim)
    → claimable now want cs s ≡ true
    → exists (task_claim s.task_id) cs ≡ false
unfolding claimable
free_task now want s cs t = ground (arith, t)

claim_selected-is_ok :
    (now : ℕ) (worker : String) (secs : ℕ) (token : String) (want : Option String) (db : Db)
    (o : Option Run)
    → IsOwned db
    → IsNew token db
    → select_first (claimable now want db.claims) db.runs ≡ o
    → is_ok (claim_selected now worker secs token db o) ≡ true
unfolding claim_selected take_run insert_claim insert_lease
claim_selected-is_ok now worker secs token want db none h new e = refl
claim_selected-is_ok now worker secs token want db (some s) h new e =
    let free =
      free_task now want s db.claims
        (select_first_holds (claimable now want db.claims) db.runs s e) in
    let fits =
      All-map db.claims
        (λ d f.
          select_first_All (claimable now want db.claims)
            (λ (r : Run). r.run_id ≡ d.run_id → r.task_id ≡ d.task_id) db.runs s f e)
        h.fitting in
    let (a, b) = no_clash (new_claim now token s) db.claims fits free new in
    rw (a, no_lease s.run_id db h.paired b) refl

acquire_for-is_ok :
    (l : Lease) (db : Db) (o : Option Run)
    → IsOwned db
    → IsNew l.fencing_token db
    → exists (lease_is l.run_id) db.leases ≡ false
    → find (run_is l.run_id) db.runs ≡ o
    → is_ok (acquire_for l db o) ≡ true
unfolding acquire_for insert_claim insert_lease
acquire_for-is_ok l db none h new unleased e = refl
acquire_for-is_ok l db (some r) h new unleased e =
    let same = (eq_iff r.run_id l.run_id).0 (find_holds (run_is l.run_id) db.runs e) in
    let fits =
      All-map db.claims
        (λ d f q.
          All-find (λ (x : Run). x.run_id ≡ d.run_id → x.task_id ≡ d.task_id) (run_is l.run_id)
            db.runs f e (same ∙ q))
        h.fitting in
    elim (Bool-cases (exists (task_claim r.task_id) db.claims)) [
      | inl t ↦ rw t refl
      | inr free ↦
          let (a, b) = no_clash (lease_claim r.task_id l) db.claims fits free new in
          rw (free, a, unleased) refl
    ]

-- Where claims and leases are paired, no two rows of the runs give one id two tasks, and each
-- claim is of its run's task, then after every sequence of the repository's operations
-- claim_next_run and acquire_lease raise nothing, if no claim has the fencing token that they
-- bring: no key of the ownership tables is violated.
pub claims_never_clash :
    (ops : List Op) (db : Db) (now : ℕ) (worker : String) (secs max : ℕ) (want : Option String)
    (token : String) (lease : Lease)
    → IsOwned db
    → IsNew token (steps ops db)
    → IsNew lease.fencing_token (steps ops db)
    → (is_ok (claim_next_run now worker secs max want token (steps ops db)) ≡ true)
      × (is_ok (acquire_lease lease (steps ops db)) ≡ true)
unfolding claim_next_run acquire_lease
claims_never_clash ops db now worker secs max want token lease h new new' =
    let after = steps ops db in
    let owned = steps_induction step-IsOwned ops db h in
    (
      elim (Bool-cases (leb max (length after.claims))) [
        | inl t ↦ rw t refl
        | inr f ↦ rw f (claim_selected-is_ok now worker secs token want after _ owned new refl)
      ],
      elim (Bool-cases (exists (lease_is lease.run_id) after.leases)) [
        | inl t ↦ rw t refl
        | inr f ↦ rw f (acquire_for-is_ok lease after _ owned new' f refl)
      ],
    )
