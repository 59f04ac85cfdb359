-- ===== src/Queue/Stages.antt =====
-- How an attempt comes along: its stage only grows, and DATA is begun by a start alone.
use research_ops_automation.Base.{
  Option-cases, ◌≤◌, String, Bool, true, false, eq_iff, Bool-cases, ◌≡◌, refl, ap, sym, ◌∙◌, none,
  some, List, [], ◌∷◌, ◌++◌, find, update_where, changed, All, All-map, All-find, All-always, arith,
  inl, inr, find-append, find-exists, find-none-exists, find_holds,
}
use mathlib.Core.Option
use mathlib.Core.Bool.{false≢true}
use research_ops_automation.Domain.{AttemptStatus, Attempt}
use research_ops_automation.Delivery.Rows.{job_is, is_accepted, is_sending}
use research_ops_automation.Queue.Moves.{
  stage, begun, SameRow, Quiet, Move, quiet, starts, first, again,
}

-- The job is in the table, at the stage of `a` or a later one, as the same attempt of its handoff.
pub record Along (a b : Attempt) : Type 0 where
  pub handoff : a.handoff_id ≡ b.handoff_id
  pub number : a.attempt_number ≡ b.attempt_number
  pub onward : stage a ≤ stage b
  pub final : stage a ≡ 3 → b.status ≡ a.status

abbrev pub Reached : String → Attempt → List Attempt → Type 0
Reached job a xs = (b : Attempt) × (find (job_is job) xs ≡ some b) × Along a b

-- an update keeps the row of each job where it is
find-update :
    (job : String) (p : Attempt → Bool) (f : Attempt → Attempt) (xs : List Attempt)
    → All (λ x. p x ≡ true → SameRow x (f x)) xs
    → find (job_is job) (update_where p f xs) ≡ Option.map (changed p f) (find (job_is job) xs)
unfolding find update_where
find-update job p f [] rows = refl
find-update job p f (x ∷ xs) rows = elim (Bool-cases (p x)) [
  | inl t ↦ let e = (rows.0 t).job in ground (arith, t, find-update job p f xs rows.1)
  | inr n ↦ ground (arith, n, find-update job p f xs rows.1)
]

changed-Along :
    (p : Attempt → Bool) (f : Attempt → Attempt) (x : Attempt)
    → (p x ≡ true → SameRow x (f x))
    → Along x (changed p f x)
changed-Along p f x h = elim (Bool-cases (p x)) [
  | inl t ↦
      let r = h t in
      rw t (record { handoff = r.handoff; number = r.number; onward = r.onward; final = r.final })
  | inr n ↦ rw n (record { handoff = refl; number = refl; onward = omega arith; final = λ q. refl })
]

stage_le_3 : (a : Attempt) → stage a ≤ 3
unfolding stage
stage_le_3 a = ground arith

Along-trans : {a b c : Attempt} → Along a b → Along b c → Along a c
Along-trans {a} {b} {c} p q = record {
  handoff = p.handoff ∙ q.handoff;
  number = p.number ∙ q.number;
  onward = omega (arith, p.onward, q.onward);
  final = λ e. q.final (ended e) ∙ p.final e;
}
  where
    ended : stage a ≡ 3 → stage b ≡ 3
    ended e = omega (arith, stage_le_3 b, p.onward, e)

Reached-update :
    (job : String) (a : Attempt) (p : Attempt → Bool) (f : Attempt → Attempt) (xs : List Attempt)
    → All (λ x. p x ≡ true → SameRow x (f x)) xs
    → Reached job a xs
    → Reached job a (update_where p f xs)
Reached-update job a p f xs rows (b, found, along) = (
  changed p f b,
  find-update job p f xs rows ∙ ap (Option.map (changed p f)) found,
  Along-trans along (
      changed-Along p f b
        (All-find (λ x. p x ≡ true → SameRow x (f x)) (job_is job) xs rows found)),
)

Reached-append :
    (job : String) (a c : Attempt) (xs : List Attempt)
    → Reached job a xs
    → Reached job a (xs ++ c ∷ [])
Reached-append job a c xs (b, found, along) = (
  b,
  find-append (job_is job) xs c ∙ ground (arith, find-exists (job_is job) xs {x = b} found),
  along,
)

pub Move-Reached :
    (job : String) (a : Attempt) (may : String → Bool) (xs ys : List Attempt)
    → Move may xs ys
    → Reached job a xs
    → Reached job a ys
Move-Reached job a may xs ys (quiet p f rows) h =
    Reached-update job a p f xs (All-map xs (λ x q t. (q t).same) rows) h
Move-Reached job a may xs ys (starts j p f m named rows) h =
    Reached-update job a p f xs (All-always _ xs rows) h
Move-Reached job a may xs ys (first c fresh number) h = Reached-append job a c xs h
Move-Reached job a may xs ys (again c g fresh owner parent clear) h = Reached-append job a c xs h

-- DATA has not been started on the job, and it has not been accepted
abbrev pub Unbegun : String → List Attempt → Type 0
Unbegun job xs = (b : Attempt) → find (job_is job) xs ≡ some b → begun b ≡ false

Unbegun-from :
    (job : String) (xs ys : List Attempt) (g : Attempt → Attempt)
    → ((x : Attempt) → find (job_is job) xs ≡ some x → begun x ≡ false → begun (g x) ≡ false)
    → find (job_is job) ys ≡ Option.map g (find (job_is job) xs)
    → Unbegun job xs
    → Unbegun job ys
Unbegun-from job xs ys g keep e h b found = elim (Option-cases (find (job_is job) xs)) [
  | inl n ↦ absurd (no_row (sym found ∙ e ∙ ap (Option.map g) n))
  | inr (x, q) ↦ rw (the_row (sym found ∙ e ∙ ap (Option.map g) q)) (keep x q (h x q))
]
  where
    no_row : some b ≡ none → ⊥
    no_row q = cc

    the_row : {y : Attempt} → some b ≡ some y → b ≡ y
    the_row q = cc

Unbegun-update :
    (job : String) (p : Attempt → Bool) (f : Attempt → Attempt) (xs : List Attempt)
    → All (λ x. p x ≡ true → SameRow x (f x)) xs
    → ((x : Attempt)
        → find (job_is job) xs ≡ some x
        → p x ≡ true
        → begun x ≡ false
        → begun (f x) ≡ false)
    → Unbegun job xs
    → Unbegun job (update_where p f xs)
Unbegun-update job p f xs rows keep =
    Unbegun-from job xs (update_where p f xs) (changed p f) (λ x found u. split x found u)
      (find-update job p f xs rows)
  where
    split :
        (x : Attempt)
        → find (job_is job) xs ≡ some x
        → begun x ≡ false
        → begun (changed p f x) ≡ false
    split x found u = elim (Bool-cases (p x)) [ inl t ↦ rw t (keep x found t u) | inr n ↦ rw n u ]

queued_unbegun : (a : Attempt) → a.status ≡ AttemptStatus.queued → begun a ≡ false
unfolding begun is_accepted is_sending
queued_unbegun a q = ground arith

Unbegun-append :
    (job : String) (a : Attempt) (xs : List Attempt)
    → a.status ≡ AttemptStatus.queued
    → Unbegun job xs
    → Unbegun job (xs ++ a ∷ [])
Unbegun-append job a xs q h b found = elim (Option-cases (find (job_is job) xs)) [
  | inl n ↦
      ground (
        arith,
        find-append (job_is job) xs a,
        find-none-exists (job_is job) xs n,
        queued_unbegun a q,
      )
  | inr (y, e) ↦
      ground (arith, find-append (job_is job) xs a, find-exists (job_is job) xs {x = y} e, h y e)
]

flip_begun : (b c : Bool) → (b ≡ true → c ≡ true) → c ≡ false → b ≡ false
flip_begun b c h n = ground arith

other_job :
    (may : String → Bool) (job j : String) (x : Attempt)
    → may job ≡ false
    → may j ≡ true
    → job_is job x ≡ true
    → job_is j x ≡ true
    → ⊥
other_job may job j x n m s t =
    false≢true (sym n ∙ ap may (sym ((eq_iff x.job_id job).0 s) ∙ (eq_iff x.job_id j).0 t) ∙ m)

pub Move-Unbegun :
    (job : String) (may : String → Bool) (xs ys : List Attempt)
    → may job ≡ false
    → Move may xs ys
    → Unbegun job xs
    → Unbegun job ys
Move-Unbegun job may xs ys n (quiet p f rows) h =
    Unbegun-update job p f xs (All-map xs (λ x q t. (q t).same) rows)
      (λ x found t u.
        flip_begun (begun (f x)) (begun x)
          ((All-find (λ x. p x ≡ true → Quiet x (f x)) (job_is job) xs rows found) t).unbegun u)
      h
Move-Unbegun job may xs ys n (starts j p f m named rows) h =
    Unbegun-update job p f xs (All-always _ xs rows)
      (λ x found t u.
        absurd (other_job may job j x n m (find_holds (job_is job) xs found) (named x t)))
      h
Move-Unbegun job may xs ys n (first c fresh number) h = Unbegun-append job c xs fresh.queued h
Move-Unbegun job may xs ys n (again c g fresh owner parent clear) h =
    Unbegun-append job c xs fresh.queued h
