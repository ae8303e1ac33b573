-- ===== src/Base/Text.antt =====
-- What the program uses of Python's `str`, over the native texts.
use Prim.Native.Nat.{ℕ, zero, suc, ◌-◌}
use Prim.Native.Char.{Char, code}
use Prim.Native.String.{String, ◌++◌ as append}
use mathlib.Core.Path.{◌≡◌, refl}
use mathlib.Core.Bool.{Bool, true, false, not, ◌&&◌, ◌||◌}
use mathlib.Core.Option.{none, some}
use mathlib.Core.List.{List, [], ◌∷◌}
use text.Mathlib.Text.{◌==◌ as str_eq, starts_with}
use text.Mathlib.TextEquality.{eq_iff}
use mathlib.Core.Logic.{inl, inr}
use fairy_claw.Base.Tests.{leb, ◌==◌, if◌then◌else◌, Bool-cases}
use fairy_claw.Base.Lists.{get_elem?}

-- `bool(s)`: a text is true unless it is empty.
abbrev pub nonempty : String → Bool
nonempty String.[] = false
nonempty (String.◌∷◌ c s) = true

-- The characters for which `str.isspace` holds, which `strip` removes.
abbrev pub is_space : ℕ → Bool
is_space c =
    leb 9 c && leb c 13
    || leb 28 c && leb c 32
    || c == 0x85
    || c == 0xa0
    || c == 0x1680
    || leb 0x2000 c && leb c 0x200a
    || leb 0x2028 c && leb c 0x2029
    || c == 0x202f
    || c == 0x205f
    || c == 0x3000

unfoldable pub lstrip : String → String
lstrip String.[] = String.[]
lstrip (String.◌∷◌ c s) = if is_space (code c) then lstrip s else String.◌∷◌ c s

unfoldable pub rstrip : String → String
rstrip String.[] = String.[]
rstrip (String.◌∷◌ c s) =
    let rest = rstrip s in
    if not (nonempty rest) && is_space (code c) then String.[] else String.◌∷◌ c rest

-- `s.strip()`
unfoldable pub strip : String → String
unfolding lstrip rstrip
strip s = lstrip (rstrip s)

abbrev ascii_lower : List Char
ascii_lower =
    "a" ∷ "b" ∷ "c" ∷ "d" ∷ "e" ∷ "f" ∷ "g" ∷ "h" ∷ "i" ∷ "j" ∷ "k" ∷ "l" ∷ "m" ∷ "n" ∷ "o" ∷ "p"
    ∷ "q" ∷ "r" ∷ "s" ∷ "t" ∷ "u" ∷ "v" ∷ "w" ∷ "x" ∷ "y" ∷ "z" ∷ []

-- The lower case of an ASCII letter; any other character is left as it is.
lower_char : Char → Char
lower_char c =
    if leb 65 (code c)
    then elim (get_elem? ascii_lower (code c - 65)) [ none ↦ c | some d ↦ d ]
    else c

-- `s.lower()`, for ASCII.
unfoldable pub lower : String → String
unfolding lower_char
lower String.[] = String.[]
lower (String.◌∷◌ c s) = String.◌∷◌ (lower_char c) (lower s)

-- `len(s)`, `s[:n]` and `s[n:]`
abbrev pub characters : String → ℕ
characters String.[] = 0
characters (String.◌∷◌ c s) = suc (characters s)

abbrev pub first_chars : ℕ → String → String
first_chars zero s = String.[]
first_chars (suc n) String.[] = String.[]
first_chars (suc n) (String.◌∷◌ c s) = String.◌∷◌ c (first_chars n s)

abbrev pub drop_chars : ℕ → String → String
drop_chars zero s = s
drop_chars (suc n) String.[] = String.[]
drop_chars (suc n) (String.◌∷◌ c s) = drop_chars n s

-- `a or b`, on texts.
abbrev pub or_text : String → String → String
or_text a b = if nonempty a then a else b

-- `any(s == t for t in texts)`, and `s in texts` on a list or a set.
abbrev pub mem_text : String → List String → Bool
mem_text s [] = false
mem_text s (t ∷ ts) = str_eq t s || mem_text s ts

-- `sep.join(texts)`
unfoldable pub join : String → List String → String
join sep [] = String.[]
join sep (t ∷ []) = t
join sep (t ∷ u ∷ ts) = append t (append sep (join sep (u ∷ ts)))

-- `sub in s`
unfoldable pub contains : String → String → Bool
contains String.[] sub = starts_with String.[] sub
contains (String.◌∷◌ c s) sub = starts_with (String.◌∷◌ c s) sub || contains s sub

pub nonempty-or_text : (a b : String) → nonempty b ≡ true → nonempty (or_text a b) ≡ true
nonempty-or_text String.[] b h = h
nonempty-or_text (String.◌∷◌ c s) b h = refl

pub str_eq_refl : (s : String) → str_eq s s ≡ true
str_eq_refl s = (eq_iff s s).1 refl

rstrip_again : (s : String) → rstrip (rstrip s) ≡ rstrip s
unfolding rstrip
rstrip_again String.[] = refl
rstrip_again (String.◌∷◌ c s) = elim (Bool-cases (not (nonempty (rstrip s)) && is_space (code c))) [
  | inl e ↦ rw e refl
  | inr e ↦ rw e (rw (rstrip_again s, e) refl)
]

-- A text that `rstrip` leaves as it is has a tail that it leaves as it is.
rstrip-tail :
    (b : Bool) (c : Char) (rest s : String)
    → (if b then String.[] else String.◌∷◌ c rest) ≡ String.◌∷◌ c s
    → rest ≡ s
rstrip-tail true c rest s h = absurd cc
rstrip-tail false c rest s h = cc

rstrip-lstrip : (s : String) → rstrip s ≡ s → rstrip (lstrip s) ≡ lstrip s
unfolding lstrip rstrip
rstrip-lstrip String.[] h = refl
rstrip-lstrip (String.◌∷◌ c s) h = elim (Bool-cases (is_space (code c))) [
  | inr e ↦ rw e h
  | inl e ↦ rw e (
      rstrip-lstrip s
        (rstrip-tail (not (nonempty (rstrip s)) && is_space (code c)) c (rstrip s) s h))
]

lstrip_again : (s : String) → lstrip (lstrip s) ≡ lstrip s
unfolding lstrip
lstrip_again String.[] = refl
lstrip_again (String.◌∷◌ c s) = elim (Bool-cases (is_space (code c))) [
  | inl e ↦ rw e (lstrip_again s)
  | inr e ↦ rw e (rw e refl)
]

pub strip-strip : (s : String) → strip (strip s) ≡ strip s
unfolding strip
strip-strip s = rw (rstrip-lstrip (rstrip s) (rstrip_again s)) (lstrip_again (rstrip s))
