-- ===== src/Scheduler/Days.antt =====
-- The times of a day and the days that the search visits.

use research_ops_automation.Base.{
  Some, ℕ, zero, suc, Bool, true, false, ◌+◌, ◌%◌, ◌<◌, ◌≤◌, ◌≡◌, eqb, Option, none, some, List, [],
  ◌∷◌, All, All-map, exists, inl, inr, arith, Bool-cases,
}
use research_ops_automation.Scheduler.Cron.{CronExpression, among}
use research_ops_automation.Scheduler.Occurrence.{
  ahead, sorted_values, days_from, candidate, day_of, hour_of, minute_of, minute_length,
}
use research_ops_automation.Scheduler.Search.{IsBest, Pairs, Ahead, All-sorted_values}

-- what the parsing of an expression makes sure of
abbrev pub IsBounded : CronExpression → Type 0
IsBounded cron =
    All (λ h. h < 24) cron.hour.allowed_values × All (λ m. m < 60) cron.minute.allowed_values

pub day_window :
    (d h m : ℕ)
    → h < 24
    → m < 60
    → (day_of (candidate d h m) ≡ d)
      × (hour_of (candidate d h m) ≡ h)
      × (minute_of (candidate d h m) ≡ m)
      × (candidate d h m % minute_length ≡ 0)
day_window d h m hh hm = (omega arith, omega arith, omega arith, omega arith)

pub parts : (t : ℕ) → t % minute_length ≡ 0 → t ≡ candidate (day_of t) (hour_of t) (minute_of t)
parts t h = omega arith

pub IsBest-map :
    (latest : Bool) {P Q : ℕ → Type 0} (o : Option ℕ)
    → ((t : ℕ) → P t → Q t)
    → ((t : ℕ) → Q t → P t)
    → IsBest latest P o
    → IsBest latest Q o
IsBest-map latest none to from best = λ t q. best t (from t q)
IsBest-map latest (some s) to from best = (to s best.0, λ t q. best.1 t (from t q))

pub Some-All :
    {A : Type 0} {P Q R : A → Type 0} (xs : List A)
    → All P xs
    → ((x : A) → P x → Q x → R x)
    → Some Q xs
    → (x : A) × R x
Some-All [] all f p = elim p [ ]
Some-All (x ∷ xs) all f (inl q) = (x, f x all.0 q)
Some-All (x ∷ xs) all f (inr p) = Some-All xs all.1 f p

pub days_from-bounds :
    (latest : Bool) (n first : ℕ)
    → All (λ d. (first ≤ d) × (d < first + n)) (days_from latest n first)
unfolding days_from
days_from-bounds latest zero first = tt
days_from-bounds true (suc n) first = (
  (omega arith, omega arith),
  All-map _ (λ d h. (h.0, omega (arith, h.1))) (days_from-bounds true n first),
)
days_from-bounds false (suc n) first = (
  (omega arith, omega arith),
  All-map _ (λ d h. (omega (arith, h.0), omega (arith, h.1)))
      (days_from-bounds false n (first + 1)),
)

pub days_from-Pairs :
    (latest : Bool) (n first : ℕ) → Pairs (Ahead latest) (days_from latest n first)
unfolding days_from ahead
days_from-Pairs latest zero first = tt
days_from-Pairs true (suc n) first = (
  All-map _ (λ d h. ground (arith, h.1)) (days_from-bounds true n first),
  days_from-Pairs true n first,
)
days_from-Pairs false (suc n) first = (
  All-map _ (λ d h. ground (arith, h.0)) (days_from-bounds false n (first + 1)),
  days_from-Pairs false n (first + 1),
)

pub days_from_complete :
    (latest : Bool) (n first d : ℕ)
    → first ≤ d
    → d < first + n
    → Some (λ x. x ≡ d) (days_from latest n first)
unfolding days_from
days_from_complete latest zero first d a b = absurd (omega arith)
days_from_complete true (suc n) first d a b = elim (Bool-cases (eqb (first + n) d)) [
  | inl e ↦ inl (ground (arith, e))
  | inr e ↦ inr (days_from_complete true n first d a (ground (arith, e)))
]
days_from_complete false (suc n) first d a b = elim (Bool-cases (eqb first d)) [
  | inl e ↦ inl (ground (arith, e))
  | inr e ↦ inr (days_from_complete false n (first + 1) d (ground (arith, e)) (omega arith))
]

-- each value of a list is among the list
pub members : (vs : List ℕ) → All (λ v. among v vs ≡ true) vs
unfolding exists
members [] = tt
members (v ∷ vs) = (ground arith, All-map vs (λ u h. ground (arith, h)) (members vs))

-- an element that the list says something of, and that has a property
pub picked : (P Q : ℕ → Type 0) (xs : List ℕ) → All P xs → Some Q xs → (x : ℕ) × (P x × Q x)
picked P Q [] all p = elim p [ ]
picked P Q (x ∷ xs) all (inl q) = (x, (all.0, q))
picked P Q (x ∷ xs) all (inr p) = picked P Q xs all.1 p

-- the sorted values are values of the field, below its bound
pub sorted_members :
    (latest : Bool) (n : ℕ) (vs : List ℕ)
    → All (λ v. v < n) vs
    → All (λ v. (v < n) × (among v vs ≡ true)) (sorted_values latest vs)
sorted_members latest n vs h =
    All-sorted_values (λ v. (v < n) × (among v vs ≡ true)) latest vs
      (both (λ v. among v vs ≡ true) vs h (members vs))
  where
    both :
        (Q : ℕ → Type 0) (us : List ℕ)
        → All (λ v. v < n) us
        → All Q us
        → All (λ v. (v < n) × Q v) us
    both Q [] a b = tt
    both Q (u ∷ us) a b = ((a.0, b.0), both Q us a.1 b.1)
