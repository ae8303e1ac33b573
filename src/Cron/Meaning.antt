-- ===== src/Cron/Meaning.antt =====
-- What the fields of a cron expression stand for, by the reading of timer_models.py: progressions of
-- numbers.
use fairy_claw.Base.{
  ℕ, ◌+◌, ◌*◌, ◌≤◌, String, ◌≡◌, Bool, true, false, Option, none, some, List, [], ◌∷◌, ◌⊎◌, str_eq,
  strip, if◌then◌else◌,
}
use fairy_claw.Cron.{
  Fields, Civil, split, split_once, comma, dash, slash, int_of, int_in_range, parse_range,
}

-- `first`, `first + step` and so on, up to `last`.
pub record Progression : Type 0 where
  pub first : ℕ
  pub last : ℕ
  pub step : ℕ

abbrev pub IsIn : ℕ → Option Progression → Type 0
IsIn value none = ⊥
IsIn value (some p) = (n : ℕ) × (value ≡ p.first + n * p.step) × (value ≤ p.last)

-- `*` stands for the whole range of the field, `a-b` for the numbers from a to b, and `n` for itself
-- or, in front of a step, for the numbers from n on.
abbrev pub limits : Bool → String → ℕ → ℕ → Option (ℕ × ℕ)
limits stepped base lo hi = if str_eq base "*" then some (lo, hi) else elim (split_once dash base) [
  | some sides ↦ parse_range sides lo hi
  | none ↦ elim (int_in_range base lo hi) [
    | none ↦ none
    | some n ↦ some (n, if stepped then hi else n)
  ]
]

abbrev pub with_step : ℕ → Option (ℕ × ℕ) → Option Progression
with_step k none = none
with_step k (some (a, b)) = some (record { first = a; last = b; step = k })

-- A chunk is a base, or a base, a slash and a step.
abbrev pub values_of : String → ℕ → ℕ → Option Progression
values_of chunk lo hi = elim (split_once slash chunk) [
  | none ↦ with_step 1 (limits false chunk lo hi)
  | some (base, step_text) ↦ elim (int_of step_text) [
    | none ↦ none
    | some k ↦ with_step k (limits true base lo hi)
  ]
]

abbrev pub IsInSome : ℕ → List String → ℕ → ℕ → Type 0
IsInSome value [] lo hi = ⊥
IsInSome value (chunk ∷ chunks) lo hi =
    IsIn value (values_of (strip chunk) lo hi) ⊎ IsInSome value chunks lo hi

-- A field is a list of chunks between commas.
abbrev pub IsInField : ℕ → String → ℕ → ℕ → Type 0
IsInField value token lo hi = IsInSome value (split comma token) lo hi

-- The five fields of a time are in the five fields of the expression; 0 as weekday is Monday.
abbrev pub Matches : Fields → Civil → Type 0
Matches f c =
    IsInField c.minute f.minute 0 59
    × (IsInField c.hour f.hour 0 23
        × (IsInField c.day f.day 1 31
            × (IsInField c.month f.month 1 12 × IsInField c.weekday f.weekday 0 6)))

-- The ranges of the fields of a time.
pub record IsCivil (c : Civil) : Type 0 where
  pub minute_le : c.minute ≤ 59
  pub hour_le : c.hour ≤ 23
  pub day_ge : 1 ≤ c.day
  pub day_le : c.day ≤ 31
  pub month_ge : 1 ≤ c.month
  pub month_le : c.month ≤ 12
  pub weekday_le : c.weekday ≤ 6
