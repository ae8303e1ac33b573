-- ===== src/Cron/Sound.antt =====
-- `_matches_field` of timer_models.py says whether a value is one of those that a field stands for.
use native.Mathlib.Nat.{mod-add-div', mul-mod_left}
use fairy_claw.Base.{
  ℕ, zero, suc, ◌-◌, ◌*◌, ◌/◌, ◌%◌, ◌≤◌, ◌==◌, ==_iff, String, ◌≡◌, Bool, true, false, Option, none,
  some, List, [], ◌∷◌, ◌⊎◌, inl, inr, arith, Bool-cases, Option-cases, str_eq, eq_iff, leb, strip,
  ◌&&◌, if◌then◌else◌,
}
use fairy_claw.Cron.{
  Fields, Civil, split, split_once, comma, dash, slash, int_of, int_in_range, parse_range, on_step,
  matches_chunk, matches_chunks, matches_field, matches_at, and_then,
}
use fairy_claw.Cron.Meaning.{IsIn, limits, values_of, IsInSome, IsInField, Matches, IsCivil}

-- What an answer says of a proposition; an exception says nothing.
abbrev pub Says : Option Bool → Type 0 → Type 0
Says none P = Unit {0}
Says (some true) P = P
Says (some false) P = ¬ P

on_step-Says :
    (value first last : ℕ) (k : ℕ)
    → first ≤ value
    → value ≤ last
    → Says
        (on_step (value - first) k)
        (IsIn value (some (record { first = first; last = last; step = k })))
unfolding on_step
on_step-Says value first last zero le le' = tt
on_step-Says value first last (suc k) le le' =
    let d = value - first in
    elim (Bool-cases (d % suc k == 0)) [
      | inl e ↦
          rw e (d / suc k, omega (arith, (==_iff (d % suc k) 0).0 e, mod-add-div' d (suc k)), le')
      | inr e ↦ rw e (λ (n, s, _). absurd (
          let d' : d ≡ n * suc k = omega arith in
          let z : d % suc k ≡ 0 = rw d' (mul-mod_left n (suc k)) in ground arith))
    ]

module _ (value lo hi : ℕ) (ge : lo ≤ value) (le : value ≤ hi) where
  range-Says :
      (a b : ℕ)
      → Says
          (some (leb a value && leb value b))
          (IsIn value (some (record { first = a; last = b; step = 1 })))
  range-Says a b = elim (Bool-cases (leb a value && leb value b)) [
    | inl e ↦ rw e (value - a, ground arith, ground arith)
    | inr e ↦ rw e (λ (n, s, l). absurd (ground arith))
  ]

  stepped_range-Says :
      (a b k : ℕ)
      → Says
          (if leb a value && leb value b then on_step (value - a) k else some false)
          (IsIn value (some (record { first = a; last = b; step = k })))
  stepped_range-Says a b k = elim (Bool-cases (leb a value && leb value b)) [
    | inl e ↦ rw e (on_step-Says value a b k (ground arith) (ground arith))
    | inr e ↦ rw e (λ (n, s, l). absurd (ground arith))
  ]

  number-Says :
      (a : ℕ)
      → Says (some (a == value)) (IsIn value (some (record { first = a; last = a; step = 1 })))
  number-Says a = elim (Bool-cases (a == value)) [
    | inl e ↦ rw e (0, ground arith, ground arith)
    | inr e ↦ rw e (λ (n, s, l). absurd (ground arith))
  ]

  stepped_number-Says :
      (a k : ℕ)
      → Says
          (if leb a value then on_step (value - a) k else some false)
          (IsIn value (some (record { first = a; last = hi; step = k })))
  stepped_number-Says a k = elim (Bool-cases (leb a value)) [
    | inl e ↦ rw e (on_step-Says value a hi k (ground arith) le)
    | inr e ↦ rw e (λ (n, s, l). absurd (ground arith))
  ]

  -- A chunk with no step.
  plain-Says :
      (chunk : String)
      → str_eq chunk "*" ≡ false
      → split_once slash chunk ≡ none
      → Says (matches_chunk value chunk lo hi) (IsIn value (values_of chunk lo hi))
  unfolding matches_chunk
  plain-Says chunk s e = elim (Option-cases (split_once dash chunk)) [
    | inl d ↦ elim (Option-cases (int_in_range chunk lo hi)) [
      | inl i ↦ rw (matches_chunk, values_of, limits, s, e, d, i, s) (λ x. x)
      | inr (a, i) ↦ rw (matches_chunk, values_of, limits, s, e, d, i, s) (number-Says a)
    ]
    | inr (sides, d) ↦ elim (Option-cases (parse_range sides lo hi)) [
      | inl i ↦ rw (matches_chunk, values_of, limits, s, e, d, i, s) (λ x. x)
      | inr ((a, b), i) ↦ rw (matches_chunk, values_of, limits, s, e, d, i, s) (range-Says a b)
    ]
  ]

  stepped-Says :
      (chunk base step_text : String)
      → str_eq chunk "*" ≡ false
      → split_once slash chunk ≡ some (base, step_text)
      → Says (matches_chunk value chunk lo hi) (IsIn value (values_of chunk lo hi))
  unfolding matches_chunk
  stepped-Says chunk base step_text s e = elim (Option-cases (int_of step_text)) [
    | inl t ↦ rw (matches_chunk, values_of, limits, s, e, t) tt
    | inr (k, t) ↦ elim (Bool-cases (str_eq base "*")) [
      | inl r ↦ rw (matches_chunk, values_of, limits, s, e, t, r) (on_step-Says value lo hi k ge le)
      | inr r ↦ elim (Option-cases (split_once dash base)) [
        | inl d ↦ elim (Option-cases (int_in_range base lo hi)) [
          | inl i ↦ rw (matches_chunk, values_of, limits, s, e, t, r, d, i) (λ x. x)
          | inr (a, i) ↦
              rw (matches_chunk, values_of, limits, s, e, t, r, d, i) (stepped_number-Says a k)
        ]
        | inr (sides, d) ↦ elim (Option-cases (parse_range sides lo hi)) [
          | inl i ↦ rw (matches_chunk, values_of, limits, s, e, t, r, d, i) (λ x. x)
          | inr ((a, b), i) ↦
              rw (matches_chunk, values_of, limits, s, e, t, r, d, i) (stepped_range-Says a b k)
        ]
      ]
    ]
  ]

  star-Says : Says (matches_chunk value "*" lo hi) (IsIn value (values_of "*" lo hi))
  unfolding matches_chunk split_once
  star-Says = (value - lo, omega arith, le)

  matches_chunk-Says :
      (chunk : String) → Says (matches_chunk value chunk lo hi) (IsIn value (values_of chunk lo hi))
  matches_chunk-Says chunk = elim (Bool-cases (str_eq chunk "*")) [
    | inl s ↦ let same : chunk ≡ "*" = (eq_iff chunk "*").0 s in rw same star-Says
    | inr s ↦ elim (Option-cases (split_once slash chunk)) [
      | inl e ↦ plain-Says chunk s e
      | inr ((base, step_text), e) ↦ stepped-Says chunk base step_text s e
    ]
  ]

  -- An exception, the first chunk that has the value, or the others.
  or_else-Says :
      (a b : Option Bool) (P Q : Type 0)
      → Says a P
      → Says b Q
      → Says (elim a [ none ↦ none | some true ↦ some true | some false ↦ b ]) (P ⊎ Q)
  or_else-Says none b P Q p q = tt
  or_else-Says (some true) b P Q p q = inl p
  or_else-Says (some false) none P Q p q = tt
  or_else-Says (some false) (some true) P Q p q = inr q
  or_else-Says (some false) (some false) P Q p q = λ x. elim x [ inl y ↦ p y | inr y ↦ q y ]

  matches_chunks-Says :
      (chunks : List String)
      → Says (matches_chunks value chunks lo hi) (IsInSome value chunks lo hi)
  unfolding matches_chunks
  matches_chunks-Says [] = λ x. x
  matches_chunks-Says (chunk ∷ chunks) =
      or_else-Says (matches_chunk value (strip chunk) lo hi) (matches_chunks value chunks lo hi) _ _
        (matches_chunk-Says (strip chunk)) (matches_chunks-Says chunks)

  matches_field-Says :
      (token : String) → Says (matches_field value token lo hi) (IsInField value token lo hi)
  unfolding matches_field
  matches_field-Says token = matches_chunks-Says (split comma token)

and_then-Says :
    (a b : Option Bool) (P Q : Type 0) → Says a P → Says b Q → Says (and_then a b) (P × Q)
and_then-Says none b P Q p q = tt
and_then-Says (some false) b P Q p q = λ x. p x.0
and_then-Says (some true) none P Q p q = tt
and_then-Says (some true) (some true) P Q p q = (p, q)
and_then-Says (some true) (some false) P Q p q = λ x. q x.1

matches_at-Says : (f : Fields) (c : Civil) → IsCivil c → Says (matches_at f c) (Matches f c)
unfolding matches_at
matches_at-Says f c h =
    let zero_le : (n : ℕ) → 0 ≤ n = λ n. omega arith in
    let weekday = matches_field-Says c.weekday 0 6 (zero_le _) h.weekday_le f.weekday in
    let month_answer =
      and_then (matches_field c.month f.month 1 12) (matches_field c.weekday f.weekday 0 6) in
    let MonthOn : Type 0 = (IsInField c.month f.month 1 12) × (IsInField c.weekday f.weekday 0 6) in
    let month =
      and_then-Says (matches_field c.month f.month 1 12) (matches_field c.weekday f.weekday 0 6)
        (IsInField c.month f.month 1 12) (IsInField c.weekday f.weekday 0 6)
        (matches_field-Says c.month 1 12 h.month_ge h.month_le f.month) weekday in
    let day_answer = and_then (matches_field c.day f.day 1 31) month_answer in
    let DayOn : Type 0 = (IsInField c.day f.day 1 31) × MonthOn in
    let day =
      and_then-Says (matches_field c.day f.day 1 31) month_answer (IsInField c.day f.day 1 31)
        MonthOn (matches_field-Says c.day 1 31 h.day_ge h.day_le f.day) month in
    let hour_answer = and_then (matches_field c.hour f.hour 0 23) day_answer in
    let HourOn : Type 0 = (IsInField c.hour f.hour 0 23) × DayOn in
    let hour =
      and_then-Says (matches_field c.hour f.hour 0 23) day_answer (IsInField c.hour f.hour 0 23)
        DayOn (matches_field-Says c.hour 0 23 (zero_le _) h.hour_le f.hour) day in
    and_then-Says (matches_field c.minute f.minute 0 59) hour_answer
      (IsInField c.minute f.minute 0 59) HourOn
      (matches_field-Says c.minute 0 59 (zero_le _) h.minute_le f.minute) hour

Says-true : (a : Option Bool) (P : Type 0) → a ≡ some true → Says a P → P
Says-true none P e p = absurd cc
Says-true (some true) P e p = p
Says-true (some false) P e p = absurd cc

Says-false : (a : Option Bool) (P : Type 0) → a ≡ some false → Says a P → ¬ P
Says-false none P e p = absurd cc
Says-false (some true) P e p = absurd cc
Says-false (some false) P e p = p

-- The code's test is right about the times that it answers for.
pub matches_at_sound :
    (f : Fields) (c : Civil) → IsCivil c → matches_at f c ≡ some true → Matches f c
matches_at_sound f c h e = Says-true (matches_at f c) (Matches f c) e (matches_at-Says f c h)

pub matches_at_complete :
    (f : Fields) (c : Civil) → IsCivil c → matches_at f c ≡ some false → ¬ Matches f c
matches_at_complete f c h e = Says-false (matches_at f c) (Matches f c) e (matches_at-Says f c h)
