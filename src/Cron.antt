-- ===== src/Cron.antt =====
-- The cron expressions of fairyclaw/core/runtime/timer_models.py. A function that raises
-- `ValueError` or `ZeroDivisionError` gives `none`. The calendar, which Python's `datetime` supplies,
-- is an argument: it gives the fields of the local time that begins with a minute, counted from the
-- epoch in the fixed offset of `system_timezone`. `str.isdigit` is taken on ASCII digits.
pub mod First
pub mod Meaning
pub mod Sound
pub mod Valid
pub mod Tests
use Prim.Native.Nat.{◌/◌, ◌%◌}
use Prim.Native.Char.{code}
use fairy_claw.Base.{
  ℕ, zero, suc, ◌+◌, ◌-◌, ◌*◌, max, String, Bool, true, false, not, ◌&&◌, ◌||◌, Option, none, some,
  List, [], ◌∷◌, map, if◌then◌else◌, ◌==◌, leb, str_eq, append, nonempty, strip, is_space,
}

-- The first piece of a list of pieces gets a character more.
pub grow : Prim.Native.Char.Char → List String → List String
grow c [] = String.◌∷◌ c String.[] ∷ []
grow c (s ∷ ss) = String.◌∷◌ c s ∷ ss

-- `s.split(sep)`, for a separator of one character, given by its code.
unfoldable pub split : ℕ → String → List String
unfolding grow
split sep String.[] = String.[] ∷ []
split sep (String.◌∷◌ c s) = if code c == sep then String.[] ∷ split sep s else grow c (split sep s)

-- `s.split()`: the pieces between spaces, none of them empty.
filled_pieces : List String → List String
filled_pieces [] = []
filled_pieces (s ∷ ss) = let rest = filled_pieces ss in if nonempty s then s ∷ rest else rest

space_pieces : String → List String
unfolding grow
space_pieces String.[] = String.[] ∷ []
space_pieces (String.◌∷◌ c s) =
    if is_space (code c) then String.[] ∷ space_pieces s else grow c (space_pieces s)

unfoldable pub words : String → List String
unfolding filled_pieces space_pieces
words s = filled_pieces (space_pieces s)

-- `left, right = s.split(sep, 1)` where `sep in s`, and `none` where it is not.
unfoldable pub split_once : ℕ → String → Option (String × String)
split_once sep String.[] = none
split_once sep (String.◌∷◌ c s) =
    if code c == sep
    then some (String.[], s)
    else elim (split_once sep s) [ none ↦ none | some (l, r) ↦ some (String.◌∷◌ c l, r) ]

abbrev comma : ℕ
comma = 44

abbrev dash : ℕ
dash = 45

abbrev slash : ℕ
slash = 47

digits : String → Bool
digits String.[] = true
digits (String.◌∷◌ c s) = leb 48 (code c) && leb (code c) 57 && digits s

unfoldable pub is_digit : String → Bool
unfolding digits
is_digit s = nonempty s && digits s

number : ℕ → String → ℕ
number n String.[] = n
number n (String.◌∷◌ c s) = number (10 * n + (code c - 48)) s

-- `int(s)` of a text of digits; of any other text it raises.
unfoldable pub int_of : String → Option ℕ
unfolding number
int_of s = if is_digit s then some (number 0 s) else none

-- `_is_int_in_range`, with the number that the callers then read off.
unfoldable pub int_in_range : String → ℕ → ℕ → Option ℕ
int_in_range value lo hi = elim (int_of value) [
  | none ↦ none
  | some iv ↦ if leb lo iv && leb iv hi then some iv else none
]

-- `_parse_range`, on the two sides of the dash.
unfoldable pub parse_range : String × String → ℕ → ℕ → Option (ℕ × ℕ)
parse_range (left, right) lo hi = elim (int_in_range left lo hi) [
  | none ↦ none
  | some start ↦ elim (int_in_range right lo hi) [
    | none ↦ none
    | some end ↦ if leb start end then some (start, end) else none
  ]
]

pub data Check : Type 0 where
  valid : Check
  invalid : String → Check

-- What the validation asks of a chunk, or of the part of it before the slash: a range or a number.
pub check_base : String → ℕ → ℕ → String → Check
check_base base lo hi name = elim (split_once dash base) [
  | some sides ↦ elim (parse_range sides lo hi) [
    | none ↦ invalid (append name (append " range is invalid: " base))
    | some r ↦ valid
  ]
  | none ↦ elim (int_in_range base lo hi) [
    | none ↦ invalid (append name (append " value out of range: " base))
    | some n ↦ valid
  ]
]

unfoldable pub validate_chunk : String → ℕ → ℕ → String → Check
unfolding check_base
validate_chunk chunk lo hi name =
    if not (nonempty chunk)
    then invalid (append name " field has empty chunk.")
    else if str_eq chunk "*"
    then valid
    else elim (split_once slash chunk) [
      | none ↦ check_base chunk lo hi name
      | some (base, step_text) ↦ elim (int_of step_text) [
        | none ↦ invalid (append name " step must be a positive integer.")
        | some zero ↦ invalid (append name " step must be a positive integer.")
        | some (suc step) ↦ if str_eq base "*" then valid else check_base base lo hi name
      ]
    ]

-- The loop over the chunks ends at the first invalid one.
unfoldable pub validate_chunks : List String → ℕ → ℕ → String → Check
unfolding validate_chunk
validate_chunks [] lo hi name = valid
validate_chunks (chunk ∷ chunks) lo hi name = elim (validate_chunk (strip chunk) lo hi name) [
  | valid ↦ validate_chunks chunks lo hi name
  | invalid err ↦ invalid err
]

unfoldable pub validate_field : String → ℕ → ℕ → String → Check
validate_field token lo hi name =
    if not (nonempty (strip token))
    then invalid (append name " field is empty.")
    else validate_chunks (split comma (strip token)) lo hi name

abbrev pub both : Check → Check → Check
both valid c = c
both (invalid err) c = invalid err

-- The five fields of an expression, if there are five.
pub record Fields : Type 0 where
  pub minute : String
  pub hour : String
  pub day : String
  pub month : String
  pub weekday : String

unfoldable pub fields_of : List String → Option Fields
fields_of (a ∷ b ∷ c ∷ d ∷ e ∷ []) =
    some (record { minute = a; hour = b; day = c; month = d; weekday = e })
fields_of parts = none

unfoldable pub parts_of : String → List String
parts_of expr = map strip (words (strip expr))

unfoldable pub parse_cron_5 : String → Check
parse_cron_5 expr = elim (fields_of (parts_of expr)) [
  | none ↦ invalid "cron_expr must contain exactly 5 fields: minute hour day month weekday."
  | some f ↦ both (validate_field f.minute 0 59 "minute") (
      both (validate_field f.hour 0 23 "hour") (
        both (validate_field f.day 1 31 "day")
          (both (validate_field f.month 1 12 "month") (validate_field f.weekday 0 6 "weekday"))))
]

-- Whether a value lies on the steps from a start; a step of 0 raises. The fields of a time are never
-- below `lo`.
unfoldable pub on_step : ℕ → ℕ → Option Bool
on_step distance zero = none
on_step distance (suc step) = some (distance % suc step == 0)

-- One chunk of `_matches_field`.
unfoldable pub matches_chunk : ℕ → String → ℕ → ℕ → Option Bool
unfolding on_step
matches_chunk value chunk lo hi =
    if str_eq chunk "*" then some true else elim (split_once slash chunk) [
      | some (base, step_text) ↦ elim (int_of step_text) [
        | none ↦ none
        | some step ↦
            if str_eq base "*" then on_step (value - lo) step else elim (split_once dash base) [
              | some sides ↦ elim (parse_range sides lo hi) [
                | none ↦ some false
                | some (start, end) ↦
                    if leb start value && leb value end
                    then on_step (value - start) step
                    else some false
              ]
              | none ↦ elim (int_in_range base lo hi) [
                | none ↦ some false
                | some n ↦ if leb n value then on_step (value - n) step else some false
              ]
            ]
      ]
      | none ↦ elim (split_once dash chunk) [
        | some sides ↦ elim (parse_range sides lo hi) [
          | none ↦ some false
          | some (start, end) ↦ some (leb start value && leb value end)
        ]
        | none ↦ elim (int_in_range chunk lo hi) [ none ↦ some false | some n ↦ some (n == value) ]
      ]
    ]

unfoldable pub matches_chunks : ℕ → List String → ℕ → ℕ → Option Bool
unfolding matches_chunk
matches_chunks value [] lo hi = some false
matches_chunks value (chunk ∷ chunks) lo hi = elim (matches_chunk value (strip chunk) lo hi) [
  | none ↦ none
  | some true ↦ some true
  | some false ↦ matches_chunks value chunks lo hi
]

unfoldable pub matches_field : ℕ → String → ℕ → ℕ → Option Bool
matches_field value token lo hi = matches_chunks value (split comma token) lo hi

-- The fields of a local time; `weekday()` counts from Monday.
pub record Civil : Type 0 where
  pub minute : ℕ
  pub hour : ℕ
  pub day : ℕ
  pub month : ℕ
  pub weekday : ℕ

-- `a and b`, where `b` is not evaluated if `a` is false.
abbrev pub and_then : Option Bool → Option Bool → Option Bool
and_then none b = none
and_then (some false) b = some false
and_then (some true) b = b

unfoldable pub matches_at : Fields → Civil → Option Bool
matches_at f c = and_then (matches_field c.minute f.minute 0 59) (
    and_then (matches_field c.hour f.hour 0 23) (
      and_then (matches_field c.day f.day 1 31)
        (and_then (matches_field c.month f.month 1 12) (matches_field c.weekday f.weekday 0 6))))

-- The loop over the minutes from a cursor: the minute that it stops at, if it stops at one.
unfoldable pub scan : (ℕ → Civil) → Fields → ℕ → ℕ → Option (Option ℕ)
scan calendar f zero cursor = some none
scan calendar f (suc n) cursor = elim (matches_at f (calendar cursor)) [
  | none ↦ none
  | some true ↦ some (some cursor)
  | some false ↦ scan calendar f n (cursor + 1)
]

-- `now` and the result are in seconds.
unfoldable pub next_fire_at_for_cron : (ℕ → Civil) → String → ℕ → ℕ → Option (Option ℕ)
next_fire_at_for_cron calendar expr now max_minutes_scan = elim (fields_of (parts_of expr)) [
  | none ↦ some none
  | some f ↦ elim (scan calendar f (max 1 max_minutes_scan) (now / 60 + 1)) [
    | none ↦ none
    | some none ↦ some none
    | some (some minute) ↦ some (some (60 * minute))
  ]
]
