-- ===== src/Scheduler/Occurrence.antt =====
-- scheduler.py: which minutes a cron expression names, and the search for one between two instants. An
-- instant is a number of microseconds since the epoch; Seoul is nine hours ahead of UTC all year.
use research_ops_automation.Base.{
  ℕ, zero, suc, Bool, false, ◌&&◌, ◌||◌, ◌+◌, ◌-◌, ◌*◌, ◌/◌, ◌%◌, eqb, leb, ltb, Option, none, some,
  List, [], ◌∷◌, if◌then◌else◌,
}
use research_ops_automation.Scheduler.Cron.{CronField, CronExpression, among}
use mathlib.Core.Option
use Prim.Native.String.{String}
use Prim.Native.Char.{code}

abbrev pub minute_length : ℕ
minute_length = 60000000

abbrev pub hour_length : ℕ
hour_length = 3600000000

abbrev pub day_length : ℕ
day_length = 86400000000

-- datetime.astimezone(SEOUL), as microseconds of local time
abbrev pub seoul : ℕ → ℕ
seoul instant = instant + 9 * hour_length

abbrev pub day_of : ℕ → ℕ
day_of time = time / day_length

abbrev pub hour_of : ℕ → ℕ
hour_of time = (time % day_length) / hour_length

abbrev pub minute_of : ℕ → ℕ
minute_of time = (time % hour_length) / minute_length

-- The Gregorian calendar (datetime.date), by the day since the epoch: years begin in March, so that
-- the day that a leap year adds is the last of a year.
abbrev pub day_of_era : ℕ → ℕ
day_of_era day = (day + 719468) % 146097

unfoldable pub year_of_era : ℕ → ℕ
year_of_era d = ((d + d / 36524) - (d / 1460 + d / 146096)) / 365

unfoldable pub day_of_year : ℕ → ℕ
unfolding year_of_era
day_of_year day =
    let d = day_of_era day in let y = year_of_era d in d - ((365 * y + y / 4) - y / 100)

abbrev pub march_month : ℕ → ℕ
march_month day = (5 * day_of_year day + 2) / 153

-- date.month
unfoldable pub month_of : ℕ → ℕ
unfolding day_of_year
month_of day = if ltb (march_month day) 10 then march_month day + 3 else march_month day - 9

-- date.day
unfoldable pub day_of_month : ℕ → ℕ
unfolding day_of_year
day_of_month day = (day_of_year day - (153 * march_month day + 2) / 5) + 1

-- (date.weekday() + 1) % 7: Sunday is 0, and the epoch was a Thursday
unfoldable pub day_of_week : ℕ → ℕ
day_of_week day = (day + 4) % 7

-- text.startswith("*")
unfoldable pub is_starred : String → Bool
is_starred String.[] = false
is_starred (String.◌∷◌ c s) = eqb (code c) b'*'

-- CronField.matches
abbrev pub field_matches : CronField → ℕ → Bool
field_matches field value = among value field.allowed_values

-- _day_matches
unfoldable pub day_matches : CronExpression → ℕ → Bool
unfolding is_starred
day_matches cron day =
    let dom = field_matches cron.dom (day_of_month day) in
    let dow = field_matches cron.dow (day_of_week day) in
    field_matches cron.month (month_of day)
    && (if is_starred cron.dom.field_str || is_starred cron.dow.field_str
        then dom && dow
        else dom || dow)

-- CronExpression.matches, of a local time
unfoldable pub cron_matches : CronExpression → ℕ → Bool
cron_matches cron time =
    day_matches cron (day_of time)
    && field_matches cron.hour (hour_of time)
    && field_matches cron.minute (minute_of time)

abbrev pub or_later : Option ℕ → Option ℕ → Option ℕ
or_later none later = later
or_later (some found) later = some found

-- the first answer of a loop that returns
unfoldable pub search_list {ℓ} : {A : Type ℓ} → (A → Option ℕ) → List A → Option ℕ
search_list f [] = none
search_list f (x ∷ xs) = let rest = search_list f xs in or_later (f x) rest

-- what comes first in sorted(…, reverse=latest)
unfoldable pub ahead : Bool → ℕ → ℕ → Bool
ahead latest a b = if latest then ltb b a else ltb a b

unfoldable pub insert_value : Bool → ℕ → List ℕ → List ℕ
unfolding ahead
insert_value latest v [] = v ∷ []
insert_value latest v (w ∷ ws) =
    let rest = insert_value latest v ws in
    if eqb v w then w ∷ ws else if ahead latest v w then v ∷ w ∷ ws else w ∷ rest

-- sorted(values, reverse=latest) of a set of values
unfoldable pub sorted_values : Bool → List ℕ → List ℕ
unfolding insert_value
sorted_values latest [] = []
sorted_values latest (v ∷ vs) = insert_value latest v (sorted_values latest vs)

abbrev pub candidate : ℕ → ℕ → ℕ → ℕ
candidate day hour minute = day * day_length + hour * hour_length + minute * minute_length

abbrev pub in_range : ℕ → ℕ → ℕ → Option ℕ
in_range start end time = if ltb start time && leb time end then some time else none

-- the days that the loop visits: so many, from the first to the last or back
unfoldable pub days_from : Bool → ℕ → ℕ → List ℕ
days_from latest zero first = []
days_from latest (suc n) first =
    let up = days_from latest n (first + 1) in
    let down = days_from latest n first in if latest then (first + n) ∷ down else first ∷ up

unfoldable pub day_occurrence : CronExpression → Bool → ℕ → ℕ → ℕ → Option ℕ
unfolding search_list sorted_values
day_occurrence cron latest start end day =
    let found =
      search_list
        (λ hour.
          search_list (λ minute. in_range start end (candidate day hour minute))
            (sorted_values latest cron.minute.allowed_values))
        (sorted_values latest cron.hour.allowed_values) in
    if day_matches cron day then found else none

-- the loop over the days, in local time
unfoldable pub local_occurrence : CronExpression → Bool → ℕ → ℕ → Option ℕ
unfolding search_list days_from day_occurrence
local_occurrence cron latest start end =
    search_list (day_occurrence cron latest start end)
      (days_from latest ((day_of end + 1) - day_of start) (day_of start))

-- occurrence_between
unfoldable pub occurrence_between : CronExpression → ℕ → ℕ → Bool → Option ℕ
unfolding local_occurrence
occurrence_between cron start end latest =
    Option.map (λ time. time - 9 * hour_length)
      (local_occurrence cron latest (seoul start) (seoul end))
