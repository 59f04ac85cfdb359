-- ===== src/Delivery/Clear.antt =====
-- What require_retry_family_clear lets pass.

use research_ops_automation.Base.{
  ℕ, zero, suc, ◌+◌, ◌≤◌, String, Bool, true, false, not, ◌&&◌, ◌==◌, Bool-cases, Option-cases, ◌≡◌,
  refl, sym, ◌∙◌, Option, none, some, List, [], ◌∷◌, map, find, select, remove_where, length, All,
  All-select, All-parts, ok, arith, inl, inr,
}
use mathlib.Core.Bool.{false≢true}
use research_ops_automation.Domain.{Run, Handoff, Db}
use research_ops_automation.Runs.Rows.{run_is}
use research_ops_automation.Delivery.Rows.{is_alert}
use research_ops_automation.Delivery.RetryGuard.{
  climb, family_root, family_rows, with_handoffs, counts, check_rows, perhaps_delivered,
  run_pending, handoff_pending, require_retry_family_clear, parent_id,
}

module _ (db : Db) where
  -- neither pending nor, perhaps, delivered
  abbrev pub IsClear : Run × Option Handoff → Type 0
  IsClear (r, h) =
      (run_pending r.status ≡ false)
      × (handoff_pending h ≡ false)
      × (perhaps_delivered db h ≡ false)

  check_rows-IsClear :
      (id : String) (rows : List (Run × Option Handoff))
      → check_rows id false true db rows ≡ ok tt
      → All IsClear rows
  unfolding check_rows
  check_rows-IsClear id [] h = tt
  check_rows-IsClear id ((r, x) ∷ rows) h =
      ((ground arith, ground arith, ground arith), check_rows-IsClear id rows (ground arith))

  -- the message of the run
  abbrev pub message_of_run : Run → Handoff → Bool
  message_of_run r h = h.run_id == r.run_id && not (is_alert h)

  status_clear :
      (r : Run) (hs : List Handoff)
      → All IsClear (with_handoffs r hs)
      → run_pending r.status ≡ false
  unfolding with_handoffs
  status_clear r [] h = h.0.0
  status_clear r (x ∷ hs) h = h.0.0

  -- a message is neither pending nor, perhaps, delivered
  abbrev pub MessageClear : Handoff → Type 0
  MessageClear h = (handoff_pending (some h) ≡ false) × (perhaps_delivered db (some h) ≡ false)

  unmapped :
      (r : Run) (hs : List Handoff)
      → All IsClear (map (λ (x : Handoff). (r, some x)) hs)
      → All MessageClear hs
  unmapped r [] h = tt
  unmapped r (x ∷ hs) h = ((h.0.1, h.0.2), unmapped r hs h.1)

  messages_clear :
      (r : Run) (hs : List Handoff) → All IsClear (with_handoffs r hs) → All MessageClear hs
  unfolding with_handoffs
  messages_clear r [] h = tt
  messages_clear r (x ∷ hs) h = unmapped r (x ∷ hs) h

  -- the run is not pending, and each of its messages is clear
  abbrev pub RunClear : Run → Type 0
  RunClear r =
      (run_pending r.status ≡ false)
      × All (λ h. message_of_run r h ≡ true → MessageClear h) db.handoffs

  family_clear :
      (root : String) (rs : List Run)
      → All IsClear (family_rows root db rs)
      → All (λ r. counts root db r ≡ true → RunClear r) rs
  unfolding family_rows
  family_clear root [] h = tt
  family_clear root (r ∷ rs) h = elim (Bool-cases (counts root db r)) [
    | inr n ↦ (λ t. absurd (false≢true (sym n ∙ t)), family_clear root rs (rw n at h))
    | inl t ↦
        let ys = select (message_of_run r) db.handoffs in
        let (mine, rest) =
          All-parts IsClear (with_handoffs r ys) (family_rows root db rs) (rw t at h) in
        (
          λ _. (
            status_clear r ys mine,
            All-select MessageClear (message_of_run r) db.handoffs (messages_clear r ys mine),
          ),
          family_clear root rs rest,
        )
  ]

  -- Where require_retry_family_clear accepts a run for prepared email, every run of its family
  -- that delivers for real is neither queued, running nor awaiting a receipt, and each of its
  -- messages is neither pending nor, as far as status, attempts and receipts tell, perhaps
  -- delivered.
  pub family_is_clear :
      (run_id : String)
      → require_retry_family_clear run_id false true db ≡ ok tt
      → All (λ r. counts (family_root db.runs run_id) db r ≡ true → RunClear r) db.runs
  unfolding require_retry_family_clear
  family_is_clear run_id h =
      family_clear (family_root db.runs run_id) db.runs (check_rows-IsClear run_id _ h)

removed-le : (id : String) (rows : List Run) → length (remove_where (run_is id) rows) ≤ length rows
unfolding remove_where
removed-le id [] = omega arith
removed-le id (x ∷ rows) = ground (arith, removed-le id rows)

removed_fewer :
    (id : String) (rows : List Run) (r : Run)
    → find (run_is id) rows ≡ some r
    → length (remove_where (run_is id) rows) + 1 ≤ length rows
unfolding remove_where find
removed_fewer id [] r h = absurd (ground arith)
removed_fewer id (x ∷ rows) r h = ground (arith, removed-le id rows, removed_fewer id rows r)

no_parent : (o : Option Run) (p : String) → parent_id o ≡ some p → (r : Run) × (o ≡ some r)
no_parent none p h = absurd (ground arith)
no_parent (some r) p h = (r, refl)

-- The climb to the root of a run's family has the same result on any two amounts of fuel that
-- are at least the number of rows, parents in a cycle included.
pub climb_enough :
    (f g : ℕ) (rows : List Run) (root : String)
    → length rows ≤ f
    → length rows ≤ g
    → climb f rows root ≡ climb g rows root
unfolding climb find
climb_enough zero zero rows root p q = refl
climb_enough zero (suc g) [] root p q = refl
climb_enough zero (suc g) (x ∷ rows) root p q = absurd (omega (arith, p))
climb_enough (suc f) zero [] root p q = refl
climb_enough (suc f) zero (x ∷ rows) root p q = absurd (omega (arith, q))
climb_enough (suc f) (suc g) rows root p q =
    elim (Option-cases (parent_id (find (run_is root) rows))) [
      | inl n ↦ rw (n, climb) refl
      | inr (parent, e) ↦
          let (r, found) = no_parent (find (run_is root) rows) parent e in
          rw (e, climb)
            (climb_enough f g (remove_where (run_is root) rows) parent
              (omega (arith, removed_fewer root rows r found, p))
              (omega (arith, removed_fewer root rows r found, q)))
    ]
