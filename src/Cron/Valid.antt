-- ===== src/Cron/Valid.antt =====
-- What the validation of a cron expression gives the matching: it never raises.
use fairy_claw.Base.{
  ℕ, String, ◌≡◌, refl, Bool, true, false, Option, none, some, List, [], ◌∷◌, inl, inr, arith,
  Option-cases, is_some, strip, strip-strip, map,
}
use fairy_claw.Cron.{
  Check, valid, invalid, both, Fields, fields_of, parts_of, parse_cron_5, validate_field,
  validate_chunks, validate_chunk, matches_field, matches_chunks, matches_chunk, on_step, Civil,
  matches_at, and_then,
}

matches_chunk-is_some :
    (value lo hi : ℕ) (chunk name : String)
    → validate_chunk chunk lo hi name ≡ valid
    → is_some (matches_chunk value chunk lo hi) ≡ true
unfolding validate_chunk matches_chunk on_step
matches_chunk-is_some value lo hi chunk name h = ground arith

matches_chunks-is_some :
    (value lo hi : ℕ) (name : String) (chunks : List String)
    → validate_chunks chunks lo hi name ≡ valid
    → is_some (matches_chunks value chunks lo hi) ≡ true
unfolding validate_chunks matches_chunks
matches_chunks-is_some value lo hi name [] h = refl
matches_chunks-is_some value lo hi name (chunk ∷ chunks) h = ground (
  arith,
  matches_chunk-is_some value lo hi (strip chunk) name,
  matches_chunks-is_some value lo hi name chunks,
)

matches_field-is_some :
    (value lo hi : ℕ) (token name : String)
    → strip token ≡ token
    → validate_field token lo hi name ≡ valid
    → is_some (matches_field value token lo hi) ≡ true
unfolding validate_field matches_field
matches_field-is_some value lo hi token name s h =
    matches_chunks-is_some value lo hi name _ (ground (arith, s))

and_then-is_some :
    (a b : Option Bool) → is_some a ≡ true → is_some b ≡ true → is_some (and_then a b) ≡ true
and_then-is_some (some true) b h i = i
and_then-is_some (some false) b h i = refl
and_then-is_some none b h i = cc

both-valid : (a b : Check) → both a b ≡ valid → (a ≡ valid) × (b ≡ valid)
both-valid valid b h = (refl, h)
both-valid (invalid e) b h = cc

-- The fields of an expression carry no spaces at their ends.
IsStripped : Fields → Type 0
IsStripped f =
    (strip f.minute ≡ f.minute)
    × (strip f.hour ≡ f.hour)
    × (strip f.day ≡ f.day)
    × (strip f.month ≡ f.month)
    × (strip f.weekday ≡ f.weekday)

fields_of-IsStripped :
    (parts : List String) (f : Fields) → fields_of (map strip parts) ≡ some f → IsStripped f
unfolding fields_of IsStripped
fields_of-IsStripped (a ∷ b ∷ c ∷ d ∷ e ∷ []) f h =
    let g : record {
      minute = strip a;
      hour = strip b;
      day = strip c;
      month = strip d;
      weekday = strip e;
    }
        ≡ f =
      cc in
    rw (← g) (strip-strip a, strip-strip b, strip-strip c, strip-strip d, strip-strip e)
fields_of-IsStripped [] f h = cc
fields_of-IsStripped (a ∷ []) f h = cc
fields_of-IsStripped (a ∷ b ∷ []) f h = cc
fields_of-IsStripped (a ∷ b ∷ c ∷ []) f h = cc
fields_of-IsStripped (a ∷ b ∷ c ∷ d ∷ []) f h = cc
fields_of-IsStripped (a ∷ b ∷ c ∷ d ∷ e ∷ g ∷ gs) f h = cc

-- A valid expression has five fields, and matching them with any time ends.
pub parse_cron_5-matches :
    (expr : String)
    → parse_cron_5 expr ≡ valid
    → (f : Fields) × (fields_of (parts_of expr) ≡ some f)
      × ((c : Civil) → is_some (matches_at f c) ≡ true)
unfolding parse_cron_5 matches_at parts_of IsStripped
parse_cron_5-matches expr h = elim (Option-cases (fields_of (parts_of expr))) [
  | inl e ↦ absurd (ground (arith, e))
  | inr (f, e) ↦
      let (s1, s2, s3, s4, s5) = fields_of-IsStripped _ f e in
      let (v1, w1) =
        both-valid (validate_field f.minute 0 59 "minute") _ (rw (e, parse_cron_5) at h) in
      let (v2, w2) = both-valid (validate_field f.hour 0 23 "hour") _ w1 in
      let (v3, w3) = both-valid (validate_field f.day 1 31 "day") _ w2 in
      let (v4, v5) = both-valid (validate_field f.month 1 12 "month") _ w3 in
      (
        f,
        e,
        λ c. and_then-is_some _ _ (matches_field-is_some c.minute 0 59 f.minute "minute" s1 v1) (
            and_then-is_some _ _ (matches_field-is_some c.hour 0 23 f.hour "hour" s2 v2) (
              and_then-is_some _ _ (matches_field-is_some c.day 1 31 f.day "day" s3 v3) (
                and_then-is_some _ _ (matches_field-is_some c.month 1 12 f.month "month" s4 v4)
                  (matches_field-is_some c.weekday 0 6 f.weekday "weekday" s5 v5)))),
      )
]
