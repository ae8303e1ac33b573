-- ===== src/Cron/First.antt =====
-- The minute that `next_fire_at_for_cron` of timer_models.py finds.
use fairy_claw.Base.{
  ℕ, zero, suc, ◌+◌, ◌*◌, ◌/◌, ◌<◌, ◌≤◌, ◌==◌, ==_iff, max, String, ◌≡◌, refl, true, false, none,
  some, ◌⊎◌, inl, inr, arith, Bool-cases, Option-cases, is_some,
}
use fairy_claw.Cron.{
  Fields, Civil, matches_at, scan, fields_of, parts_of, parse_cron_5, valid, next_fire_at_for_cron,
}
use fairy_claw.Cron.Meaning.{Matches, IsCivil}
use fairy_claw.Cron.Sound.{matches_at_sound, matches_at_complete}
use fairy_claw.Cron.Valid.{parse_cron_5-matches}

module _ (calendar : ℕ → Civil) (f : Fields) where
  -- The code's test fails for each minute between the two.
  abbrev Misses : ℕ → ℕ → Type 0
  Misses first last = (m : ℕ) → first ≤ m → m < last → matches_at f (calendar m) ≡ some false

  -- Either the scan finds the first minute that passes the test, or there is none within its reach.
  abbrev Found : ℕ → ℕ → Type 0
  Found n cursor =
      ((scan calendar f n cursor ≡ some none) × Misses cursor (cursor + n))
      ⊎ ((m : ℕ) × (cursor ≤ m)
          × (m < cursor + n)
          × (scan calendar f n cursor ≡ some (some m))
          × (matches_at f (calendar m) ≡ some true)
          × Misses cursor m)

  none-suc :
      (first last : ℕ)
      → matches_at f (calendar first) ≡ some false
      → Misses (first + 1) last
      → Misses first last
  none-suc first last h g m le lt = elim (Bool-cases (first == m)) [
    | inl e ↦ let e' : first ≡ m = (==_iff first m).0 e in rw (← e') h
    | inr e ↦ g m (ground arith) lt
  ]

  pub scan-Found : ((c : Civil) → is_some (matches_at f c) ≡ true) → (n cursor : ℕ) → Found n cursor
  unfolding scan
  scan-Found t zero cursor = inl (refl, λ m le lt. absurd (omega arith))
  scan-Found t (suc n) cursor = elim (Option-cases (matches_at f (calendar cursor))) [
    | inl e ↦ absurd (ground (arith, t (calendar cursor)))
    | inr (true, e) ↦
        inr
          (cursor, omega arith, omega arith, rw (e, scan) refl, e, λ m le lt. absurd (omega arith))
    | inr (false, e) ↦ elim (scan-Found t n (cursor + 1)) [
      | inl (s, g) ↦
          inl (rw (e, scan) s, none-suc cursor (cursor + suc n) e (λ m le lt. g m le (omega arith)))
      | inr (m, le, lt, s, h, g) ↦
          inr (m, omega arith, omega arith, rw (e, scan) s, h, none-suc cursor m e g)
    ]
  ]

-- No minute between the two is one of those that the fields stand for.
abbrev pub NoneBetween : (ℕ → Civil) → Fields → ℕ → ℕ → Type 0
NoneBetween calendar f first last = (m : ℕ) → first ≤ m → m < last → ¬ Matches f (calendar m)

Misses-NoneBetween :
    (calendar : ℕ → Civil) (f : Fields) (first last : ℕ)
    → ((m : ℕ) → IsCivil (calendar m))
    → Misses calendar f first last
    → NoneBetween calendar f first last
Misses-NoneBetween calendar f first last c g m le lt =
    matches_at_complete f (calendar m) (c m) (g m le lt)

-- For an expression that `parse_cron_5` takes for valid, on a calendar whose fields are in their
-- ranges, the search never raises. It gives, in seconds, the first minute after the current one that
-- the expression stands for, or nothing if there is none within the scan. An expression stands for
-- the times all of whose five fields are in its fields, where weekday 0 is Monday; this is the reading
-- of the code, and not the standard one, in which 0 is Sunday and days and weekdays are alternatives.
pub next_fire_at_for_cron_first :
    (calendar : ℕ → Civil) (expr : String) (now max_minutes_scan : ℕ)
    → ((m : ℕ) → IsCivil (calendar m))
    → parse_cron_5 expr ≡ valid
    → let reach = max 1 max_minutes_scan in
      (f : Fields) × (fields_of (parts_of expr) ≡ some f)
      × (((next_fire_at_for_cron calendar expr now max_minutes_scan ≡ some none)
            × NoneBetween calendar f (now / 60 + 1) (now / 60 + 1 + reach))
          ⊎ ((m : ℕ) × (now < 60 * m)
              × (next_fire_at_for_cron calendar expr now max_minutes_scan ≡ some (some (60 * m)))
              × Matches f (calendar m)
              × NoneBetween calendar f (now / 60 + 1) m))
unfolding next_fire_at_for_cron
next_fire_at_for_cron_first calendar expr now max_minutes_scan c h =
    let (f, e, t) = parse_cron_5-matches expr h in
    (
      f,
      e,
      elim (scan-Found calendar f t (max 1 max_minutes_scan) (now / 60 + 1)) [
        | inl (s, g) ↦ inl (
          rw (e, next_fire_at_for_cron, s) refl,
          Misses-NoneBetween calendar f (now / 60 + 1) _ c g,
        )
        | inr (m, le, lt, s, q, g) ↦ inr (
          m,
          omega arith,
          rw (e, next_fire_at_for_cron, s) refl,
          matches_at_sound f (calendar m) (c m) q,
          Misses-NoneBetween calendar f (now / 60 + 1) m c g,
        )
      ],
    )
