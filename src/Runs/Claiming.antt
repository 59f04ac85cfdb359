-- ===== src/Runs/Claiming.antt =====
-- Which run claim_next_run takes, and what its worker then owns.
use research_ops_automation.Base.{
  ◌⊎◌, ltb, str_lt, str_lt_asym, str_lt_trans, ◌∙◌, ◌==◌, if◌then◌else◌, ℕ, ◌+◌, ◌<◌, String, Bool,
  true, false, eq_refl, Bool-cases, Option-cases, ◌≡◌, refl, Option, none, some, List, [], ◌∷◌,
  ◌++◌, exists, length, update_where, ok, arith, All, All-map, inl, inr, leb,
}
use research_ops_automation.Domain.{Run, Controls, Lease, Claim, Db}
use research_ops_automation.Runs.Claim.{
  claim_selected, insert_claim, insert_lease, ensure_controls, take_run, claim_next_run,
  select_first, claimable, earlier, new_claim, new_lease, claimed_run, start_run,
}
use research_ops_automation.Runs.Control.{still_queued}

-- ORDER BY created_at, run_id: the first run does not stand after the second
abbrev pub InOrder : Run → Run → Type 0
InOrder a b =
    (a.created_at < b.created_at)
    ⊎ ((a.created_at ≡ b.created_at) × (str_lt b.run_id a.run_id ≡ false))

str_lt_irrefl : (s : String) → str_lt s s ≡ false
str_lt_irrefl s = elim (Bool-cases (str_lt s s)) [ inl t ↦ str_lt_asym s s t | inr f ↦ f ]

InOrder-refl : (a : Run) → InOrder a a
InOrder-refl a = inr (refl, str_lt_irrefl a.run_id)

InOrder-trans : (a b c : Run) → InOrder a b → InOrder b c → InOrder a c
InOrder-trans a b c (inl h) (inl k) = inl (omega arith)
InOrder-trans a b c (inl h) (inr k) = inl (omega (arith, k.0))
InOrder-trans a b c (inr h) (inl k) = inl (omega (arith, h.0))
InOrder-trans a b c (inr h) (inr k) =
    inr (h.0 ∙ k.0, str_lt_trans a.run_id b.run_id c.run_id h.1 k.1)

before : (a b : Run) → earlier a b ≡ true → InOrder a b
unfolding earlier
before a b h = elim (Bool-cases (ltb a.created_at b.created_at)) [
  | inl t ↦ inl (ground (arith, t))
  | inr f ↦ inr (ground (arith, f), str_lt_asym a.run_id b.run_id (ground (arith, f)))
]

not_before : (a b : Run) → earlier a b ≡ false → InOrder b a
unfolding earlier
not_before a b h = elim (Bool-cases (ltb b.created_at a.created_at)) [
  | inl t ↦ inl (ground (arith, t))
  | inr f ↦ inr (ground (arith, f), ground (arith, f))
]

module _ (p : Run → Bool) where
  -- what is selected satisfies the condition
  pub select_first_holds : (rs : List Run) (r : Run) → select_first p rs ≡ some r → p r ≡ true
  unfolding select_first
  select_first_holds [] r h = cc
  select_first_holds (s ∷ rs) r h = elim (Option-cases (select_first p rs)) [
    | inl n ↦ ground (arith, n)
    | inr (best, e) ↦ ground (arith, e, select_first_holds rs best e)
  ]

  -- and is one of the rows
  select_first_exists :
      (q : Run → Bool) (rs : List Run) (r : Run)
      → select_first p rs ≡ some r
      → q r ≡ true
      → exists q rs ≡ true
  unfolding select_first exists
  select_first_exists q [] r h t = cc
  select_first_exists q (s ∷ rs) r h t = elim (Option-cases (select_first p rs)) [
    | inl n ↦ ground (arith, n)
    | inr (best, e) ↦ ground (arith, e, select_first_exists q rs best e)
  ]

  abbrev pub NotBefore : Run → Run → Type 0
  NotBefore r s = p s ≡ true → InOrder r s

  -- nothing is selected only where no row satisfies the condition
  select_first-none : (rs : List Run) → select_first p rs ≡ none → exists p rs ≡ false
  unfolding select_first exists
  select_first-none [] h = refl
  select_first-none (s ∷ rs) h = ground (arith, select_first-none rs)

  none_NotBefore : (r : Run) (rs : List Run) → exists p rs ≡ false → All (NotBefore r) rs
  unfolding exists
  none_NotBefore r [] h = tt
  none_NotBefore r (s ∷ rs) h =
      (λ t. absurd (ground (arith, t)), none_NotBefore r rs (ground arith))

  -- the choice between a row and the best of the rest
  chosen_first :
      (s : Run) (rs : List Run) (r best : Run)
      → select_first p (s ∷ rs) ≡ some r
      → select_first p rs ≡ some best
      → InOrder r best × NotBefore r s
  unfolding select_first
  chosen_first s rs r best h e = elim (Bool-cases (p s)) [
    | inr f ↦ rw (same (rw (f, e) at h)) (InOrder-refl r, λ t. absurd (ground (arith, t, f)))
    | inl t ↦ elim (Bool-cases (earlier best s)) [
      | inl q ↦
          rw (same (rw (t, e, q) at h))
            (InOrder-refl r, λ _. rw (← same (rw (t, e, q) at h)) (before best s q))
      | inr q ↦
          rw (same (rw (t, e, q) at h))
            (rw (← same (rw (t, e, q) at h)) (not_before best s q), λ _. InOrder-refl r)
    ]
  ]
    where
      same : {a b : Run} → some a ≡ some b → a ≡ b
      same q = cc

  -- no row that satisfies the condition stands before the selected one
  select_first_first : (rs : List Run) (r : Run) → select_first p rs ≡ some r → All (NotBefore r) rs
  unfolding select_first
  select_first_first [] r h = tt
  select_first_first (s ∷ rs) r h = elim (Option-cases (select_first p rs)) [
    | inl n ↦ (alone n (rw n at h), none_NotBefore r rs (select_first-none rs n))
    | inr (best, e) ↦
        let step = chosen_first s rs r best h e in
        (
          step.1,
          All-map rs (λ x before t. InOrder-trans r best x step.0 (before t))
              (select_first_first rs best e),
        )
  ]
    where
      alone : select_first p rs ≡ none → (if p s then some s else none) ≡ some r → NotBefore r s
      alone n q t = rw (one (rw t at q)) (InOrder-refl r)
        where
          one : {a b : Run} → some a ≡ some b → a ≡ b
          one q = cc

-- The claim's outcome: a queued run that is due and whose task nobody owns, and no such run before it.
pub record Taken (now : ℕ) (want : Option String) (db : Db) (s : Run) : Type 0 where
  pub is_claimable : claimable now want db.claims s ≡ true
  pub present : exists (still_queued s.run_id) db.runs ≡ true
  pub first : All (NotBefore (claimable now want db.claims) s) db.runs

queued_itself :
    (now : ℕ) (want : Option String) (claims : List Claim) (s : Run)
    → claimable now want claims s ≡ true
    → still_queued s.run_id s ≡ true
unfolding claimable
queued_itself now want claims s h = ground (arith, eq_refl s.run_id)

claim_selected-eq-ok :
    (now : ℕ) (worker : String) (secs : ℕ) (token : String) (db : Db) (o : Option Run) (r : Run)
    (l : Lease) (db' : Db)
    → claim_selected now worker secs token db o ≡ ok (some (r, l), db')
    → (s : Run) × (o ≡ some s)
      × (r ≡ claimed_run now s)
      × (l ≡ new_lease now worker secs token s)
      × (take_run now worker secs token s db ≡ ok db')
unfolding claim_selected
claim_selected-eq-ok now worker secs token db none r l db' h = cc
claim_selected-eq-ok now worker secs token db (some s) r l db' h =
    (s, refl, ground arith, ground arith, ground arith)

-- What the transaction of a claim leaves in the tables.
pub record Written (now : ℕ) (token : String) (l : Lease) (s : Run) (db db' : Db) : Type 0 where
  pub claims : db'.claims ≡ db.claims ++ new_claim now token s ∷ []
  pub leases : db'.leases ≡ db.leases ++ l ∷ []
  pub controls : db'.controls ≡ (
      if exists (λ (c : Controls). c.run_id == s.run_id) db.controls
      then db.controls
      else db.controls
        ++ record {
          run_id = s.run_id;
          cancel_requested = false;
          force_dry_run = false;
          composition_revision = 1;
          child_cleanup_verified = false;
        }
          ∷ [])
  pub runs : db'.runs ≡ update_where (still_queued s.run_id) (start_run now (s.attempt + 1)) db.runs

pub take_run-Written :
    (now : ℕ) (worker : String) (secs : ℕ) (token : String) (s : Run) (db db' : Db)
    → take_run now worker secs token s db ≡ ok db'
    → Written now token (new_lease now worker secs token s) s db db'
unfolding take_run insert_claim insert_lease ensure_controls
take_run-Written now worker secs token s db db' h = record {
  claims = ground arith;
  leases = ground arith;
  controls = ground arith;
  runs = ground arith;
}

-- Where claim_next_run returns a run and a lease, fewer tasks than the limit were claimed, the
-- run was claimable, and no claimable run stands before it in the order of creation and then of
-- id; the run comes back started, the lease is its new one, and the claim, the lease, the
-- started run and, if the run had no controls, its default controls are what the tables gain.
pub claim_next_run_sound :
    (now : ℕ) (worker : String) (secs max : ℕ) (want : Option String) (token : String) (db : Db)
    (r : Run) (l : Lease) (db' : Db)
    → claim_next_run now worker secs max want token db ≡ ok (some (r, l), db')
    → (s : Run) × (r ≡ claimed_run now s)
      × (l ≡ new_lease now worker secs token s)
      × Taken now want db s
      × Written now token l s db db'
      × (length db.claims < max)
unfolding claim_next_run
claim_next_run_sound now worker secs max want token db r l db' h =
    elim (Bool-cases (leb max (length db.claims))) [
      | inl t ↦ absurd (ground (arith, t))
      | inr f ↦
          let found = select_first (claimable now want db.claims) db.runs in
          let (s, e, er, el, w) =
            claim_selected-eq-ok now worker secs token db found r l db' (rw f at h) in
          (
            s,
            er,
            el,
            record {
              is_claimable = select_first_holds (claimable now want db.claims) db.runs s e;
              present =
                  select_first_exists (claimable now want db.claims) (still_queued s.run_id) db.runs
                    s e
                    (queued_itself now want db.claims s
                      (select_first_holds (claimable now want db.claims) db.runs s e));
              first = select_first_first (claimable now want db.claims) db.runs s e;
            },
            rw el (take_run-Written now worker secs token s db db' w),
            ground (arith, f),
          )
    ]
