-- ===== src/Scheduler/Exact.antt =====
-- The search of occurrence_between gives exactly the last, or the first, minute that the expression
-- names.
use mathlib.Core.Option
use mathlib.Core.Bool.{false≢true}
use research_ops_automation.Base.{
  Some, ℕ, Bool, true, false, ◌&&◌, ◌+◌, ◌-◌, ◌*◌, ◌%◌, ◌<◌, ◌≤◌, ◌≡◌, refl, sym, ◌∙◌, ltb→lt,
  Option, none, some, List, All, All-always, inl, inr, arith, Bool-cases,
}
use research_ops_automation.Scheduler.Cron.{CronExpression}
use research_ops_automation.Scheduler.Occurrence.{
  search_list, ahead, sorted_values, days_from, candidate, in_range, day_matches, day_occurrence,
  local_occurrence, occurrence_between, cron_matches, field_matches, seoul, day_of, hour_of,
  minute_of, minute_length, hour_length, day_length,
}
use research_ops_automation.Scheduler.Search.{
  Beats, IsBest, Some-map, Pairs-map, search_list-IsBest, Ahead, sorted_values-Pairs,
  among-sorted_values, All-sorted_values, Some-among,
}
use research_ops_automation.Scheduler.Days.{
  picked, sorted_members, IsBounded, day_window, parts, IsBest-map, Some-All, days_from-Pairs,
  days_from_complete,
}

module _ (latest : Bool) (start end : ℕ) (cron : CronExpression) (bounded : IsBounded cron) where
  abbrev minutes : List ℕ
  minutes = sorted_values latest cron.minute.allowed_values

  abbrev hours : List ℕ
  hours = sorted_values latest cron.hour.allowed_values

  abbrev AtMinute : ℕ → ℕ → ℕ → ℕ → Type 0
  AtMinute d h m t = (t ≡ candidate d h m) × (start < t) × (t ≤ end)

  abbrev AtHour : ℕ → ℕ → ℕ → Type 0
  AtHour d h t = Some (λ m. AtMinute d h m t) minutes

  abbrev OnDay : ℕ → ℕ → Type 0
  OnDay d t = (day_matches cron d ≡ true) × Some (λ h. AtHour d h t) hours

  minute-IsBest :
      (d h m : ℕ) → IsBest latest (AtMinute d h m) (in_range start end (candidate d h m))
  minute-IsBest d h m = split (in_range start end (candidate d h m)) refl
    where
      split :
          (o : Option ℕ)
          → in_range start end (candidate d h m) ≡ o
          → IsBest latest (AtMinute d h m) o
      split none e = λ t p. absurd (ground (arith, e, p))
      split (some s) e = (
        (ground arith, ground arith, ground arith),
        λ t p. same t latest (ground (arith, p.0, e)),
      )
        where
          same : (t : ℕ) (b : Bool) → t ≡ s → Beats b s t
          same t true q = omega arith
          same t false q = omega arith

  minutes_bounded : All (λ m. m < 60) minutes
  minutes_bounded = All-sorted_values (λ m. m < 60) latest cron.minute.allowed_values bounded.1

  hours_bounded : All (λ h. h < 24) hours
  hours_bounded = All-sorted_values (λ h. h < 24) latest cron.hour.allowed_values bounded.0

  hour-IsBest :
      (d h : ℕ)
      → IsBest latest (AtHour d h) (search_list (λ m. in_range start end (candidate d h m)) minutes)
  unfolding ahead
  hour-IsBest d h =
      search_list-IsBest latest (AtMinute d h) (λ m. in_range start end (candidate d h m)) minutes
        (All-always _ minutes (minute-IsBest d h))
        (Pairs-map minutes (λ a b p s t u v. later latest a b s t p u.0 v.0)
          (sorted_values-Pairs latest cron.minute.allowed_values))
    where
      later :
          (latest : Bool) (a b s t : ℕ)
          → Ahead latest a b
          → s ≡ candidate d h a
          → t ≡ candidate d h b
          → Beats latest s t
      later true a b s t p u v = omega (arith, ltb→lt b a p)
      later false a b s t p u v = omega (arith, ltb→lt a b p)

  hour_window : (d h t : ℕ) → AtHour d h t → (candidate d h 0 ≤ t) × (t < candidate d (h + 1) 0)
  hour_window d h t p =
      let (m, q) = Some-All minutes minutes_bounded (λ m a b. window m a b.0) p in q
    where
      window :
          (m : ℕ)
          → m < 60
          → t ≡ candidate d h m
          → (candidate d h 0 ≤ t) × (t < candidate d (h + 1) 0)
      window m a b = (omega arith, omega arith)

  day-IsBest : (d : ℕ) → IsBest latest (OnDay d) (day_occurrence cron latest start end d)
  unfolding day_occurrence ahead
  day-IsBest d = elim (Bool-cases (day_matches cron d)) [
    | inr f ↦ rw f (λ t p. absurd (false≢true (sym f ∙ p.0)))
    | inl e ↦ rw e (
        IsBest-map latest _ (λ t p. (e, p)) (λ t p. p.1)
          (search_list-IsBest latest (AtHour d) _ hours (All-always _ hours (hour-IsBest d)) (
            Pairs-map hours
              (λ a b p s t u v. later latest a b s t p (hour_window d a s u) (hour_window d b t v))
              (sorted_values-Pairs latest cron.hour.allowed_values))))
  ]
    where
      later :
          (latest : Bool) (a b s t : ℕ)
          → Ahead latest a b
          → (candidate d a 0 ≤ s) × (s < candidate d (a + 1) 0)
          → (candidate d b 0 ≤ t) × (t < candidate d (b + 1) 0)
          → Beats latest s t
      later true a b s t p u v = omega (arith, ltb→lt b a p)
      later false a b s t p u v = omega (arith, ltb→lt a b p)

  day_bounds : (d t : ℕ) → OnDay d t → (d * day_length ≤ t) × (t < (d + 1) * day_length)
  day_bounds d t p =
      let (h, q) = Some-All hours hours_bounded (λ h a b. window h a (hour_window d h t b)) p.1 in q
    where
      window :
          (h : ℕ)
          → h < 24
          → (candidate d h 0 ≤ t) × (t < candidate d (h + 1) 0)
          → (d * day_length ≤ t) × (t < (d + 1) * day_length)
      window h a b = (omega (arith, b.0), omega (arith, b.1))

  abbrev days : List ℕ
  days = days_from latest ((day_of end + 1) - day_of start) (day_of start)

  all-IsBest :
      IsBest latest (λ t. Some (λ d. OnDay d t) days) (local_occurrence cron latest start end)
  unfolding local_occurrence ahead
  all-IsBest =
      search_list-IsBest latest OnDay (day_occurrence cron latest start end) days
        (All-always _ days day-IsBest)
        (Pairs-map days
          (λ a b p s t u v. later latest a b s t p (day_bounds a s u) (day_bounds b t v))
          (days_from-Pairs latest ((day_of end + 1) - day_of start) (day_of start)))
    where
      later :
          (latest : Bool) (a b s t : ℕ)
          → Ahead latest a b
          → (a * day_length ≤ s) × (s < (a + 1) * day_length)
          → (b * day_length ≤ t) × (t < (b + 1) * day_length)
          → Beats latest s t
      later true a b s t p u v = omega (arith, ltb→lt b a p)
      later false a b s t p u v = omega (arith, ltb→lt a b p)

  -- a minute that the expression matches, after the start and no later than the end
  abbrev Occurs : ℕ → Type 0
  Occurs t = (t % minute_length ≡ 0) × (cron_matches cron t ≡ true) × (start < t) × (t ≤ end)

  matches_at :
      (d h m : ℕ)
      → h < 24
      → m < 60
      → day_matches cron d ≡ true
      → field_matches cron.hour h ≡ true
      → field_matches cron.minute m ≡ true
      → cron_matches cron (candidate d h m) ≡ true
  unfolding cron_matches
  matches_at d h m hh hm day hour minute =
      let (a, b, c, _) = day_window d h m hh hm in rw (a, b, c, day, hour, minute)

  searched-Occurs : (t : ℕ) → Some (λ d. OnDay d t) days → Occurs t
  searched-Occurs t p =
      let (d, on) = picked (λ d. Unit {0}) (λ d. OnDay d t) days (All-always _ days (λ d. tt)) p in
      let (h, at_hour) =
        picked _ (λ h. AtHour d h t) hours
          (sorted_members latest 24 cron.hour.allowed_values bounded.0) on.1.1 in
      let (m, at_minute) =
        picked _ (λ m. AtMinute d h m t) minutes
          (sorted_members latest 60 cron.minute.allowed_values bounded.1) at_hour.1 in
      let (same, after, before) = at_minute.1 in
      (
        rw same (day_window d h m at_hour.0.0 at_minute.0.0).3,
        rw same (matches_at d h m at_hour.0.0 at_minute.0.0 on.1.0 at_hour.0.1 at_minute.0.1),
        after,
        before,
      )

  Occurs-searched : (t : ℕ) → Occurs t → Some (λ d. OnDay d t) days
  unfolding cron_matches
  Occurs-searched t (aligned, fits, after, before) =
      let same = parts t aligned in
      let (day, hour, minute) =
        three (day_matches cron (day_of t)) (field_matches cron.hour (hour_of t))
          (field_matches cron.minute (minute_of t)) fits in
      Some-map days
        (λ d e. rw e (
          day,
          Some-map hours
              (λ h f. rw f (
                Some-map minutes (λ m g. rw g (same, after, before))
                  (Some-among (minute_of t) minutes (
                    among-sorted_values latest (minute_of t) cron.minute.allowed_values ∙ minute))))
              (Some-among (hour_of t) hours
                (among-sorted_values latest (hour_of t) cron.hour.allowed_values ∙ hour)),
        ))
        (days_from_complete latest ((day_of end + 1) - day_of start) (day_of start) (day_of t)
          (omega arith) (omega arith))
    where
      three : (a b c : Bool) → (a && b && c) ≡ true → (a ≡ true) × (b ≡ true) × (c ≡ true)
      three a b c q = ground arith

  local-IsBest : IsBest latest Occurs (local_occurrence cron latest start end)
  local-IsBest = IsBest-map latest _ searched-Occurs Occurs-searched all-IsBest

-- a minute of Seoul time that the expression matches, after one instant and no later than another
abbrev pub Occurrence : CronExpression → ℕ → ℕ → ℕ → Type 0
Occurrence cron start end t =
    (t % minute_length ≡ 0) × (cron_matches cron (seoul t) ≡ true) × (start < t) × (t ≤ end)

-- For an expression whose hours and minutes are those of a day, occurrence_between gives the
-- last, or the first, minute of Seoul time after the start and no later than the end that the
-- expression matches, and gives none only if it matches no such minute.
pub occurrence_between-IsBest :
    (latest : Bool) (start end : ℕ) (cron : CronExpression)
    → IsBounded cron
    → IsBest latest (Occurrence cron start end) (occurrence_between cron start end latest)
unfolding occurrence_between
occurrence_between-IsBest latest start end cron bounded =
    moved (local_occurrence cron latest (seoul start) (seoul end))
      (local-IsBest latest (seoul start) (seoul end) cron bounded)
  where
    earlier :
        (b : Bool) (s t : ℕ)
        → 9 * hour_length ≤ s
        → Beats b s (seoul t)
        → Beats b (s - 9 * hour_length) t
    earlier true s t h q = omega arith
    earlier false s t h q = omega arith

    back : (s : ℕ) → 9 * hour_length ≤ s → seoul (s - 9 * hour_length) ≡ s
    back s h = omega arith

    moved :
        (o : Option ℕ)
        → IsBest latest (Occurs latest (seoul start) (seoul end) cron bounded) o
        → IsBest latest (Occurrence cron start end) (Option.map (λ time. time - 9 * hour_length) o)
    moved none best = λ t (aligned, fits, after, before).
        best (seoul t) (omega arith, fits, omega arith, omega arith)
    moved (some s) ((aligned, fits, after, before), all) = (
      (omega arith, rw (back s (omega arith)) fits, omega arith, omega arith),
      λ t (a, b, c, d).
          earlier latest s t (omega arith)
            (all (seoul t) (omega arith, b, omega arith, omega arith)),
    )
