-- ===== src/Scheduler/Bounds.antt =====
-- A cron expression that is accepted names values of its fields only.
use research_ops_automation.Base.{
  ℕ, zero, suc, String, Bool, true, false, not, ◌&&◌, ◌||◌, ◌==◌, ◌+◌, ◌-◌, ◌<◌, ◌≤◌, ◌≡◌, refl,
  eqb, leb, leb→le, List, [], ◌∷◌, ◌++◌, All, All-map, Result, ok, >>=-ok, guard-ok, validation,
  arith, Bool-cases, inl, inr,
}
use research_ops_automation.Base.Split.{strip, split_on}
use research_ops_automation.Scheduler.Cron.{
  CronField, CronExpression, range_list, step_of, ends_of, has_step, span_of, element_values,
  elements_values, with_sunday, cron_field, from_words, cron_expression, bad_field, no_values,
  words, among,
}
use research_ops_automation.Scheduler.Days.{IsBounded}

abbrev pub Within : ℕ → ℕ → ℕ → Type 0
Within min max v = (min ≤ v) × (v ≤ max)

pub range_list-Within :
    (n value end step : ℕ) → All (Within value end) (range_list n value end step)
unfolding range_list
range_list-Within zero value end step = tt
range_list-Within (suc n) value end step = elim (Bool-cases (leb value end)) [
  | inr f ↦ rw f tt
  | inl t ↦ rw t (
    (omega arith, leb→le value end t),
    All-map _ (λ v h. (omega (arith, h.0), h.1)) (range_list-Within n (value + step) end step),
  )
]

-- more steps give no more values, where each step moves on
pub range_list_enough :
    (n m value end step : ℕ)
    → 1 ≤ step
    → n ≤ m
    → end < value + n
    → range_list m value end step ≡ range_list n value end step
unfolding range_list
range_list_enough zero zero value end step s le h = refl
range_list_enough zero (suc m) value end step s le h = ground arith
range_list_enough (suc n) zero value end step s le h = absurd (omega arith)
range_list_enough (suc n) (suc m) value end step s le h =
    ground (arith, range_list_enough n m (value + step) end step s (omega arith) (omega arith))

ok_is {ℓ} : {A : Type ℓ} {a b : A} → Path (Result A) (ok a) (ok b) → a ≡ b
ok_is h = cc

All-join : {A : Type 0} (P : A → Type 0) (xs ys : List A) → All P xs → All P ys → All P (xs ++ ys)
All-join P [] ys a b = b
All-join P (x ∷ xs) ys a b = (a.0, All-join P xs ys a.1 b)

element_values-Within :
    (min max : ℕ) (item : String) (values : List ℕ)
    → element_values min max item ≡ ok values
    → All (Within min max) values
unfolding element_values
element_values-Within min max item values h =
    let (_, h1) = guard-ok (item == "" || not (item == strip item)) bad_field _ h in
    let (step, _, h2) = >>=-ok (step_of (split_on b'/' item)) _ h1 in
    let (_, h3) = guard-ok (eqb step 0) bad_field _ h2 in
    let (ends, _, h4) =
      >>=-ok (ends_of min max (has_step (split_on b'/' item)) (span_of (split_on b'/' item))) _
        h3 in
    let (inside, h5) =
      guard-ok (not (leb min ends.0 && leb ends.0 ends.1 && leb ends.1 max)) bad_field _ h4 in
    let (low, high) = bounds ends.0 ends.1 inside in
    rw (← ok_is h5) (
      All-map _ (λ v w. (omega (arith, w.0, low), omega (arith, w.1, high)))
        (range_list-Within ((ends.1 + 1) - ends.0) ends.0 ends.1 step))
  where
    bounds :
        (start end : ℕ)
        → not (leb min start && leb start end && leb end max) ≡ false
        → (min ≤ start) × (end ≤ max)
    bounds start end q = ground arith

elements_values-Within :
    (min max : ℕ) (items : List String) (values : List ℕ)
    → elements_values min max items ≡ ok values
    → All (Within min max) values
unfolding elements_values
elements_values-Within min max [] values h = rw (← ok_is h) tt
elements_values-Within min max (item ∷ items) values h =
    let (first, e, h1) = >>=-ok (element_values min max item) _ h in
    let (rest, f, h2) = >>=-ok (elements_values min max items) _ h1 in
    rw (← ok_is h2) (
      All-join (Within min max) first rest (element_values-Within min max item first e)
        (elements_values-Within min max items rest f))

with_sunday-Within :
    (min max : ℕ) (is_dow : Bool) (values : List ℕ)
    → (is_dow ≡ true → (min ≡ 0) × (max ≡ 7))
    → All (Within min max) values
    → All (Within min max) (with_sunday is_dow values)
unfolding with_sunday
with_sunday-Within min max is_dow values dow h =
    elim (Bool-cases (is_dow && (among 0 values || among 7 values))) [
      | inr f ↦ rw f h
      | inl t ↦
          let (a, b) = dow (first is_dow (among 0 values || among 7 values) t) in
          rw t ((omega arith, omega arith), ((omega arith, omega arith), h))
    ]
  where
    first : (b c : Bool) → (b && c) ≡ true → b ≡ true
    first b c q = ground arith

pub cron_field-Within :
    (min max : ℕ) (is_dow : Bool) (text : String) (field : CronField)
    → (is_dow ≡ true → (min ≡ 0) × (max ≡ 7))
    → cron_field min max is_dow text ≡ ok field
    → All (Within min max) field.allowed_values
unfolding cron_field
cron_field-Within min max is_dow text field dow h =
    let (values, e, h1) = >>=-ok (elements_values min max (split_on b',' (strip text))) _ h in
    let (_, h2) = guard-ok (no_values values) (validation "Cron field contains no values") _ h1 in
    rw (← ok_is h2) (
      with_sunday-Within min max is_dow values dow
        (elements_values-Within min max (split_on b',' (strip text)) values e))

-- the fields of an expression hold values of their ranges
abbrev pub IsInRanges : CronExpression → Type 0
IsInRanges cron =
    All (Within 0 59) cron.minute.allowed_values
    × All (Within 0 23) cron.hour.allowed_values
    × All (Within 1 31) cron.dom.allowed_values
    × All (Within 1 12) cron.month.allowed_values
    × All (Within 0 7) cron.dow.allowed_values

from_words-IsInRanges :
    (expr : String) (parts : List String) (cron : CronExpression)
    → from_words expr parts ≡ ok cron
    → IsInRanges cron
unfolding from_words
from_words-IsInRanges expr (a ∷ b ∷ c ∷ d ∷ e ∷ []) cron h =
    let (minute, p, h1) = >>=-ok (cron_field 0 59 false a) _ h in
    let (hour, q, h2) = >>=-ok (cron_field 0 23 false b) _ h1 in
    let (dom, r, h3) = >>=-ok (cron_field 1 31 false c) _ h2 in
    let (month, s, h4) = >>=-ok (cron_field 1 12 false d) _ h3 in
    let (dow, t, h5) = >>=-ok (cron_field 0 7 true e) _ h4 in
    rw (← ok_is h5) (
      cron_field-Within 0 59 false a minute (λ f. cc) p,
      cron_field-Within 0 23 false b hour (λ f. cc) q,
      cron_field-Within 1 31 false c dom (λ f. cc) r,
      cron_field-Within 1 12 false d month (λ f. cc) s,
      cron_field-Within 0 7 true e dow (λ f. (refl, refl)) t,
    )
from_words-IsInRanges expr _ cron h = ground arith

-- The fields of an accepted cron expression hold values of their ranges only: minutes to 59,
-- hours to 23, days 1 to 31, months 1 to 12, and weekdays to 7.
pub cron_expression-IsInRanges :
    (expr : String) (cron : CronExpression) → cron_expression expr ≡ ok cron → IsInRanges cron
unfolding cron_expression
cron_expression-IsInRanges expr cron h = from_words-IsInRanges (strip expr) (words expr) cron h

pub IsInRanges-IsBounded : (cron : CronExpression) → IsInRanges cron → IsBounded cron
IsInRanges-IsBounded cron ranges =
    (All-map _ (λ v w. omega (arith, w.1)) ranges.1, All-map _ (λ v w. omega (arith, w.1)) ranges.0)
