-- ===== src/Cron/Tests.antt =====
-- Cron expressions run on a calendar of one day.
use native.Mathlib.Nat.{mod-lt}
use fairy_claw.Base.{ℕ, ◌/◌, ◌%◌, ◌*◌, ◌+◌, ◌<◌, ◌≡◌, refl, max, arith, none, some, ◌⊎◌, strip}
use fairy_claw.Cron.{
  Civil, Fields, valid, invalid, parse_cron_5, fields_of, parts_of, next_fire_at_for_cron,
  matches_at, validate_field, validate_chunks, split, split_once, words, int_of, is_digit,
  int_in_range, parse_range, matches_field, matches_chunks, scan,
}
use fairy_claw.Cron.Meaning.{Matches, IsCivil}
use fairy_claw.Cron.First.{NoneBetween, next_fire_at_for_cron_first}

abbrev one_day : ℕ → Civil
one_day m = record { minute = m % 60; hour = m / 60 % 24; day = 1; month = 1; weekday = 0 }

valid_expr : parse_cron_5 "*/20 8-10 * 1,2 0" ≡ valid
unfolding parse_cron_5 fields_of parts_of words strip validate_field validate_chunks split
    split_once int_of is_digit parse_range int_in_range
valid_expr = refl

zero_step : parse_cron_5 "*/0 * * * *" ≡ invalid "minute step must be a positive integer."
unfolding parse_cron_5 fields_of parts_of words strip validate_field validate_chunks split
    split_once int_of is_digit
zero_step = refl

fires_at_half_past_seven : next_fire_at_for_cron one_day "*/30 * * * *" 25380 40 ≡ some (some 27000)
unfolding next_fire_at_for_cron fields_of parts_of words strip scan matches_at matches_field
    matches_chunks split split_once int_of is_digit
fires_at_half_past_seven = refl

one_day-IsCivil : (m : ℕ) → IsCivil (one_day m)
one_day-IsCivil m =
    let minute_lt : m % 60 < 60 = mod-lt m (omega arith) in
    let hour_lt : m / 60 % 24 < 24 = mod-lt (m / 60) (omega arith) in
    record {
      minute_le = omega (arith, minute_lt);
      hour_le = omega (arith, hour_lt);
      day_ge = omega arith;
      day_le = omega arith;
      month_ge = omega arith;
      month_le = omega arith;
      weekday_le = omega arith;
    }

next_fire_at_for_cron_first_example :
    (f : Fields) × (fields_of (parts_of "*/20 8-10 * 1,2 0") ≡ some f)
    × (((next_fire_at_for_cron one_day "*/20 8-10 * 1,2 0" 27000 90 ≡ some none)
          × NoneBetween one_day f (27000 / 60 + 1) (27000 / 60 + 1 + max 1 90))
        ⊎ ((m : ℕ) × (27000 < 60 * m)
            × (next_fire_at_for_cron one_day "*/20 8-10 * 1,2 0" 27000 90 ≡ some (some (60 * m)))
            × Matches f (one_day m)
            × NoneBetween one_day f (27000 / 60 + 1) m))
next_fire_at_for_cron_first_example =
    next_fire_at_for_cron_first one_day "*/20 8-10 * 1,2 0" 27000 90 one_day-IsCivil valid_expr
