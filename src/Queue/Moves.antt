-- ===== src/Queue/Moves.antt =====
-- What any operation of the queue does to smtp_attempts: the moves of a row, and of the table.
use research_ops_automation.Base.{
  if◌then◌else◌, ℕ, ◌≤◌, String, Bool, true, false, ◌&&◌, ◌||◌, ◌≡◌, some, List, [], ◌∷◌, ◌++◌,
  exists, update_where, All,
}
use research_ops_automation.Domain.{AttemptStatus, AttemptPhase, Attempt}
use research_ops_automation.Delivery.Rows.{
  job_is, for_handoff, is_queued, is_sending, is_accepted, is_live, is_data_started,
}
use research_ops_automation.Queue.Insert.{clashes}

-- how far an attempt has come: queued, claimed, DATA started, ended
unfoldable pub stage : Attempt → ℕ
stage a = elim a.status [
  | AttemptStatus.queued ↦ 0
  | AttemptStatus.sending ↦ if is_data_started a.phase then 2 else 1
  | _ ↦ 3
]

-- DATA was started on the attempt and it is still being sent, or it was accepted
unfoldable pub begun : Attempt → Bool
begun a = is_accepted a.status || (is_sending a.status && is_data_started a.phase)

-- a queued row whose DATA phase has begun, of which there is none
unfoldable pub misplaced : Attempt → Bool
misplaced a = is_queued a.status && is_data_started a.phase

pub record SameRow (a b : Attempt) : Type 0 where
  pub job : a.job_id ≡ b.job_id
  pub handoff : a.handoff_id ≡ b.handoff_id
  pub number : a.attempt_number ≡ b.attempt_number
  pub onward : stage a ≤ stage b
  pub final : stage a ≡ 3 → b.status ≡ a.status
  pub placed : misplaced b ≡ true → misplaced a ≡ true
  pub alive : is_live b.status ≡ true → is_live a.status ≡ true

-- a change of a row that does not start DATA
pub record Quiet (a b : Attempt) : Type 0 where
  pub same : SameRow a b
  pub unbegun : begun b ≡ true → begun a ≡ true

-- no row of the handoff is queued, being sent or accepted
abbrev pub live_for : String → Attempt → Bool
live_for h a = for_handoff h a && is_live a.status

pub record Fresh (a : Attempt) (xs : List Attempt) : Type 0 where
  pub queued : a.status ≡ AttemptStatus.queued
  pub prepared : a.phase ≡ AttemptPhase.prepared
  pub clear : exists (clashes a) xs ≡ false

-- A move of the table. `may job` says that DATA may be started on that job.
pub data Move (may : String → Bool) (xs : List Attempt) : List Attempt → Type 0 where
  quiet :
      (p : Attempt → Bool) (f : Attempt → Attempt)
      → All (λ x. p x ≡ true → Quiet x (f x)) xs
      → Move may xs (update_where p f xs)
  starts :
      (job : String) (p : Attempt → Bool) (f : Attempt → Attempt)
      → may job ≡ true
      → ((x : Attempt) → p x ≡ true → job_is job x ≡ true)
      → ((x : Attempt) → p x ≡ true → SameRow x (f x))
      → Move may xs (update_where p f xs)
  first : (a : Attempt) → Fresh a xs → a.attempt_number ≡ 1 → Move may xs (xs ++ a ∷ [])
  again :
      (a : Attempt) (h : String)
      → Fresh a xs
      → a.handoff_id ≡ some h
      → exists (for_handoff h) xs ≡ true
      → exists (live_for h) xs ≡ false
      → Move may xs (xs ++ a ∷ [])

pub data Moves (may : String → Bool) (xs : List Attempt) : List Attempt → Type 0 where
  none_made : Moves may xs xs
  then_one : {ys zs : List Attempt} → Moves may xs ys → Move may ys zs → Moves may xs zs

-- an invariant of every move is one of every sequence of moves
module _ (may : String → Bool) {P : List Attempt → Type 0}
    (keep : (us vs : List Attempt) → Move may us vs → P us → P vs) where
  pub Moves_induction : {xs ys : List Attempt} → Moves may xs ys → P xs → P ys
  Moves_induction none_made h = h
  Moves_induction (then_one {ys = us} {zs = vs} m s) h = keep us vs s (Moves_induction m h)

pub Moves-append :
    {may : String → Bool} {xs ys zs : List Attempt}
    → Moves may xs ys
    → Moves may ys zs
    → Moves may xs zs
Moves-append m none_made = m
Moves-append m (then_one n s) = then_one (Moves-append m n) s
