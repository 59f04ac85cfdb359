-- ===== src/Scheduler/Cron.antt =====
-- researchops/services/scheduler.py: a cron expression, and what it accepts. int() is read for ASCII
-- digits, and gives none for a negative number, which each caller here refuses too.
use Prim.Native.Char.{code}
use research_ops_automation.Base.{
  ℕ, zero, suc, String, Bool, true, false, not, ◌&&◌, ◌||◌, ◌==◌, ◌+◌, ◌-◌, ◌*◌, eqb, leb, Option,
  none, some, List, [], ◌∷◌, ◌++◌, exists, Result, ok, err, ◌>>=◌, ◌>>◌, guard, require, validation,
  Error, if◌then◌else◌,
}
use research_ops_automation.Base.Text.{between, is_blank}
use research_ops_automation.Base.Split.{strip, split_on, split_where}

-- the digits of a number, with single underscores between them
unfoldable pub digits : ℕ → Bool → String → Option ℕ
digits n after_digit String.[] = if after_digit then some n else none
digits n after_digit (String.◌∷◌ c s) =
    let more = digits (n * 10 + (code c - b'0')) true s in
    let past = digits n false s in
    if between b'0' b'9' (code c)
    then more
    else if after_digit && eqb (code c) b'_'
    then past
    else none

unfoldable pub unsigned : String → Option ℕ
unfolding digits
unsigned String.[] = none
unsigned (String.◌∷◌ c s) =
    if eqb (code c) b'+' then digits 0 false s else digits 0 false (String.◌∷◌ c s)

-- int(text), an error of the code's where it raises ValueError
unfoldable pub int_of : String → Result ℕ
unfolding strip unsigned
int_of s = require (unsigned (strip s)) (validation "Invalid cron field")

abbrev pub bad_field : Error
bad_field = validation "Invalid cron field"

-- range(value, end + 1, step), in so many steps
unfoldable pub range_list : ℕ → ℕ → ℕ → ℕ → List ℕ
range_list zero value end step = []
range_list (suc n) value end step =
    let rest = range_list n (value + step) end step in if leb value end then value ∷ rest else []

-- the step of an element, 1 where it has none
unfoldable pub step_of : List String → Result ℕ
unfolding int_of
step_of (span ∷ []) = ok 1
step_of (span ∷ step ∷ []) = int_of step
step_of _ = err bad_field

unfoldable pub span_of : List String → String
span_of [] = ""
span_of (span ∷ pieces) = span

unfoldable pub both_ends : List String → Result (ℕ × ℕ)
unfolding int_of
both_ends (first ∷ last ∷ []) = int_of first >>= λ start. int_of last >>= λ end. ok (start, end)
both_ends _ = err bad_field

unfoldable pub has_dash : String → Bool
unfolding split_on
has_dash s = several (split_on b'-' s)
  where
    several : List String → Bool
    several (a ∷ b ∷ rest) = true
    several _ = false

-- the first and the last value of an element
unfoldable pub ends_of : ℕ → ℕ → Bool → String → Result (ℕ × ℕ)
unfolding both_ends has_dash int_of
ends_of min max stepped span =
    if span == "*"
    then ok (min, max)
    else if has_dash span
    then both_ends (split_on b'-' span)
    else int_of span >>= λ start. ok (start, if stepped then max else start)

unfoldable pub has_step : List String → Bool
has_step (a ∷ b ∷ rest) = true
has_step _ = false

-- the values of one element of a field
unfoldable pub element_values : ℕ → ℕ → String → Result (List ℕ)
unfolding strip split_on step_of ends_of span_of has_step range_list
element_values min max item =
    guard (item == "" || not (item == strip item)) bad_field
    >> (step_of (split_on b'/' item) >>= λ step.
        guard (eqb step 0) bad_field
        >> (ends_of min max (has_step (split_on b'/' item)) (span_of (split_on b'/' item))
            >>= λ (start, end).
                guard (not (leb min start && leb start end && leb end max)) bad_field
                >> ok (range_list ((end + 1) - start) start end step)))

unfoldable pub elements_values : ℕ → ℕ → List String → Result (List ℕ)
unfolding element_values
elements_values min max [] = ok []
elements_values min max (item ∷ items) = element_values min max item >>= λ values.
    elements_values min max items >>= λ rest. ok (values ++ rest)

-- `value in values`
abbrev pub among : ℕ → List ℕ → Bool
among value values = exists (eqb value) values

-- 0 and 7 are both Sunday
unfoldable pub with_sunday : Bool → List ℕ → List ℕ
with_sunday is_dow values =
    if is_dow && (among 0 values || among 7 values) then 0 ∷ 7 ∷ values else values

unfoldable pub no_values : List ℕ → Bool
no_values [] = true
no_values (v ∷ vs) = false

pub record CronField : Type 0 where
  pub field_str : String
  pub allowed_values : List ℕ

-- CronField(…): the values that _parse gives
unfoldable pub cron_field : ℕ → ℕ → Bool → String → Result CronField
unfolding strip elements_values no_values with_sunday
cron_field min max is_dow text = elements_values min max (split_on b',' (strip text)) >>= λ values.
    guard (no_values values) (validation "Cron field contains no values")
    >> ok (record { field_str = strip text; allowed_values = with_sunday is_dow values })

pub record CronExpression : Type 0 where
  pub expr : String
  pub minute : CronField
  pub hour : CronField
  pub dom : CronField
  pub month : CronField
  pub dow : CronField

-- text.split()
unfoldable pub words : String → List String
unfolding split_where is_blank
words s = filled (split_where is_blank s)
  where
    filled : List String → List String
    filled [] = []
    filled (part ∷ parts) = let rest = filled parts in if part == "" then rest else part ∷ rest

unfoldable pub from_words : String → List String → Result CronExpression
unfolding cron_field
from_words expr (a ∷ b ∷ c ∷ d ∷ e ∷ []) = cron_field 0 59 false a >>= λ minute.
    cron_field 0 23 false b >>= λ hour. cron_field 1 31 false c >>= λ dom.
    cron_field 1 12 false d >>= λ month. cron_field 0 7 true e >>= λ dow.
    ok (record { expr = expr; minute = minute; hour = hour; dom = dom; month = month; dow = dow })
from_words expr _ = err (validation "Cron requires minute hour day-of-month month day-of-week")

-- CronExpression(expr)
unfoldable pub cron_expression : String → Result CronExpression
unfolding strip words from_words
cron_expression expr = from_words (strip expr) (words expr)
