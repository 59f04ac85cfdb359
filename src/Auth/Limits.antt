-- ===== src/Auth/Limits.antt =====
-- How many attempts to log in pass within one window.

use Prim.Native.String
use text.Mathlib.TextLemmas.{cons-append, head-eq_of_cons-eq}
use Prim.Native.Char.{Char, code}
use mathlib.Core.Logic.{◌≢◌}
use research_ops_automation.Base.{ap}
use research_ops_automation.Base.{
  ℕ, suc, String, false, ◌&&◌, ◌==◌, ◌+◌, ◌<◌, ◌≤◌, ◌≡◌, refl, sym, ◌∙◌, Option, none, some, List,
  [], ◌∷◌, ◌++◌, find, exists, update_where, remove_where, All, ok, err, Bool-cases, Result-cases,
  inl, inr, arith, eq_iff, if◌then◌else◌, >>=-ok, guard-ok, rate_limit, remove_where_none,
  All-append, All-update_where,
}
use research_ops_automation.Base.Host.{Host}
use research_ops_automation.Auth.Rows.{
  LoginAttempts, Accounts, Call, login_window, login_global_limit, login_account_limit,
}
use research_ops_automation.Auth.Managed.{ok_value, pair_value}
use research_ops_automation.Auth.Attempts.{
  attempts_of, window_over, at_limit, one_more, count_attempt, count_attempts, account_key,
  reserve_attempt,
}

abbrev pub counted : Option LoginAttempts → ℕ
counted none = 0
counted (some row) = row.attempt_count

-- the attempts that stand under a key
abbrev pub tally : String → List LoginAttempts → ℕ
tally key rows = counted (find (attempts_of key) rows)

tally-update :
    (k j : String) (rows : List LoginAttempts)
    → tally k (update_where (attempts_of j) one_more rows)
      ≡ (if j == k && exists (attempts_of k) rows then tally k rows + 1 else tally k rows)
unfolding find exists update_where
tally-update k j [] = ground arith
tally-update k j (row ∷ rows) = elim (Bool-cases (attempts_of j row)) [
  | inl t ↦ rw t (
      ground (
        arith,
        t,
        eq_iff row.attempt_key k,
        eq_iff row.attempt_key j,
        eq_iff j k,
        tally-update k j rows,
      ))
  | inr f ↦ rw f (
      ground (
        arith,
        f,
        eq_iff row.attempt_key k,
        eq_iff row.attempt_key j,
        eq_iff j k,
        tally-update k j rows,
      ))
]

tally-add :
    (k : String) (new : LoginAttempts) (rows : List LoginAttempts)
    → exists (attempts_of new.attempt_key) rows ≡ false
    → new.attempt_count ≡ 1
    → tally k (rows ++ new ∷ []) ≡ (if new.attempt_key == k then tally k rows + 1 else tally k rows)
unfolding find exists
tally-add k new [] h one = ground arith
tally-add k new (row ∷ rows) h one = ground (
  arith,
  eq_iff row.attempt_key k,
  eq_iff row.attempt_key new.attempt_key,
  eq_iff new.attempt_key k,
  tally-add k new rows,
)

tally-count_attempt :
    (k j : String) (now : ℕ) (rows : List LoginAttempts)
    → tally k (count_attempt now j rows) ≡ (if j == k then tally k rows + 1 else tally k rows)
unfolding count_attempt
tally-count_attempt k j now rows = elim (Bool-cases (exists (attempts_of j) rows)) [
  | inl t ↦ rw t (ground (arith, tally-update k j rows, t, eq_iff j k))
  | inr f ↦ rw f (tally-add k _ rows f refl)
]

-- every window has begun since a time
abbrev pub IsSince : ℕ → LoginAttempts → Type 0
IsSince t row = t ≤ row.window_started

count_attempt-IsSince :
    (t now : ℕ) (key : String) (rows : List LoginAttempts)
    → t ≤ now
    → All (IsSince t) rows
    → All (IsSince t) (count_attempt now key rows)
unfolding count_attempt
count_attempt-IsSince t now key rows later since =
    elim (Bool-cases (exists (attempts_of key) rows)) [
      | inl e ↦
          rw e (All-update_where (IsSince t) (attempts_of key) one_more rows (λ row _ h. h) since)
      | inr e ↦ rw e (All-append (IsSince t) rows _ since later)
    ]

none_over :
    (t now : ℕ) (rows : List LoginAttempts)
    → now < t + login_window
    → All (IsSince t) rows
    → exists (window_over now) rows ≡ false
unfolding exists
none_over t now [] soon since = refl
none_over t now (row ∷ rows) soon since = ground (arith, since.0, none_over t now rows soon since.1)

below_limit :
    (limit : ℕ) (o : Option LoginAttempts)
    → 1 ≤ limit
    → at_limit limit o ≡ false
    → counted o < limit
unfolding at_limit
below_limit limit o some_left h = ground arith

-- an attempt that passes is counted, and was below both limits
count_attempts-ok :
    (now : ℕ) (key : String) (rows counts : List LoginAttempts)
    → count_attempts now key rows ≡ ok counts
    → (counts ≡ count_attempt now key (count_attempt now "global" rows))
      × (tally "global" rows < login_global_limit)
      × (tally key rows < login_account_limit)
unfolding count_attempts
count_attempts-ok now key rows counts h =
    let (global, h1) =
      guard-ok (at_limit login_global_limit (find (attempts_of "global") rows))
        (rate_limit "Try again") _ h in
    let (account, h2) =
      guard-ok (at_limit login_account_limit (find (attempts_of key) rows)) (rate_limit "Try again")
        _ h1 in
    (
      sym (ok_value h2),
      below_limit login_global_limit (find (attempts_of "global") rows) (omega arith) global,
      below_limit login_account_limit (find (attempts_of key) rows) (omega arith) account,
    )

-- the attempts that pass, of a sequence of calls
unfoldable pub passed : Host → List (Call × String) → Accounts → ℕ
passed host [] auth = 0
passed host ((call, username) ∷ calls) auth = elim (reserve_attempt host call username auth) [
  | err raised ↦ passed host calls auth
  | ok (key, stored) ↦ suc (passed host calls stored)
]

module _ (host : Host) where
  not_global : (username : String) → (account_key host username == "global") ≡ false
  not_global username = elim (Bool-cases (account_key host username == "global")) [
    | inr f ↦ f
    | inl t ↦
        let same = (eq_iff (account_key host username) "global").0 t in
        absurd (
          a_not_g (
            head-eq_of_cons-eq {xs = String.◌++◌ "ccount:" (host.sha256 username)} {ys = "lobal"}
              (sym (cons-append "a" "ccount:" (host.sha256 username)) ∙ same)))
  ]
    where
      a_not_g : ◌≢◌ {A = Char} "a" "g"
      a_not_g h = absurd (omega (arith, ap code h))

  passes_counted :
      (t : ℕ) (call : Call) (username key : String) (auth stored : Accounts)
      → reserve_attempt host call username auth ≡ ok (key, stored)
      → t ≤ call.now
      → call.now < t + login_window
      → All (IsSince t) auth.login_attempts
      → All (IsSince t) stored.login_attempts
        × (tally "global" stored.login_attempts ≡ tally "global" auth.login_attempts + 1)
        × (tally "global" auth.login_attempts < login_global_limit)
  unfolding reserve_attempt
  passes_counted t call username key auth stored h later soon since =
      let account = account_key host username in
      let (counts, e, h1) =
        >>=-ok
          (count_attempts call.now account
            (remove_where (window_over call.now) auth.login_attempts))
          _ h in
      let same : record auth { login_attempts = counts } ≡ stored = pair_value h1 in
      let current =
        remove_where_none (window_over call.now) auth.login_attempts
          (none_over t call.now auth.login_attempts soon since) in
      let (made, global, _) =
        count_attempts-ok call.now account auth.login_attempts counts (rw current at e) in
      let kept : All (IsSince t) counts = rw made (
        count_attempt-IsSince t call.now account _ later
          (count_attempt-IsSince t call.now "global" auth.login_attempts later since)) in
      let bumped : tally "global" counts ≡ tally "global" auth.login_attempts + 1 = rw made (
        ground (
          arith,
          not_global username,
          tally-count_attempt "global" account call.now
              (count_attempt call.now "global" auth.login_attempts),
          tally-count_attempt "global" "global" call.now auth.login_attempts,
        )) in
      rw (← same) (kept, bumped, global)

  -- the calls that begin within one window
  abbrev pub Within : ℕ → Call × String → Type 0
  Within t (call, username) = (t ≤ call.now) × (call.now < t + login_window)

  -- Of any sequence of attempts to log in that begin within five minutes of a time, where every
  -- counted window has begun since that time, no more pass than sixty less those counted before.
  pub passed-le-limit :
      (t : ℕ) (calls : List (Call × String)) (auth : Accounts)
      → All (Within t) calls
      → All (IsSince t) auth.login_attempts
      → tally "global" auth.login_attempts ≤ login_global_limit
      → passed host calls auth + tally "global" auth.login_attempts ≤ login_global_limit
  unfolding passed
  passed-le-limit t [] auth within since below = omega arith
  passed-le-limit t ((call, username) ∷ calls) auth within since below =
      elim (Result-cases (reserve_attempt host call username auth)) [
        | inr (raised, e) ↦ ground (arith, e, passed-le-limit t calls auth within.1 since below)
        | inl ((key, stored), e) ↦
            let (kept, bumped, global) =
              passes_counted t call username key auth stored e within.0.0 within.0.1 since in
            ground (
              arith,
              e,
              bumped,
              global,
              passed-le-limit t calls stored within.1 kept (omega (arith, bumped, global)),
            )
      ]
