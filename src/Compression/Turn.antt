-- ===== src/Compression/Turn.antt =====
-- The latest turn of a history of context_compression.py: its last message and the rounds after it.
-- What leaves the entries before it to be dropped or unloaded does not change it.
use mathlib.Core.List.{reverse, reverse-cons}
use fairy_claw.Base.{
  ℕ, zero, suc, ◌+◌, ◌≤◌, ◌<◌, ◌≡◌, refl, ◌∙◌, ap, sym, Bool, true, false, ◌||◌, List, [], ◌∷◌,
  ◌++◌, inl, inr, arith, Bool-cases, if◌then◌else◌, any, length, length-append,
}
use fairy_claw.History.{ChatHistoryItem, block, tool, is_block}
use fairy_claw.Compression.{leading_rounds, latest_turn_suffix_length, drop_at}

abbrev pub has_block : List ChatHistoryItem → Bool
has_block items = any is_block items

-- The items from the last message on; all of them where there is none.
unfoldable pub latest_turn : List ChatHistoryItem → List ChatHistoryItem
latest_turn [] = []
latest_turn (x ∷ xs) = if has_block xs then latest_turn xs else x ∷ xs

last_or : (b c : Bool) → (c || (b || false)) ≡ (b || c)
last_or true true = refl
last_or true false = refl
last_or false true = refl
last_or false false = refl

pub has_block-cons :
    (x : ChatHistoryItem) (xs : List ChatHistoryItem)
    → has_block xs ≡ true
    → has_block (x ∷ xs) ≡ true
has_block-cons (block m) xs h = refl
has_block-cons (tool r) xs h = h

pub latest_turn-cons :
    (x : ChatHistoryItem) (xs : List ChatHistoryItem)
    → has_block xs ≡ true
    → latest_turn (x ∷ xs) ≡ latest_turn xs
unfolding latest_turn
latest_turn-cons x xs h = rw h refl

pub latest_turn-last :
    (x : ChatHistoryItem) (xs : List ChatHistoryItem)
    → has_block xs ≡ false
    → latest_turn (x ∷ xs) ≡ x ∷ xs
unfolding latest_turn
latest_turn-last x xs h = rw h refl

pub has_block-append :
    (xs ys : List ChatHistoryItem) → has_block (xs ++ ys) ≡ (has_block xs || has_block ys)
has_block-append [] ys = refl
has_block-append (block m ∷ xs) ys = refl
has_block-append (tool r ∷ xs) ys = has_block-append xs ys

pub has_block-reverse : (xs : List ChatHistoryItem) → has_block (reverse xs) ≡ has_block xs
has_block-reverse [] = refl
has_block-reverse (x ∷ xs) =
    ap has_block (reverse-cons x xs)
    ∙ has_block-append (reverse xs) (x ∷ [])
    ∙ ap (λ b. b || has_block (x ∷ [])) (has_block-reverse xs)
    ∙ last_or (is_block x) (has_block xs)

pub length-reverse : (xs : List ChatHistoryItem) → length (reverse xs) ≡ length xs
length-reverse [] = refl
length-reverse (x ∷ xs) =
    ap length (reverse-cons x xs)
    ∙ length-append (reverse xs) (x ∷ [])
    ∙ omega (arith, length-reverse xs)

abbrev rounds_of_last : ChatHistoryItem → ℕ
rounds_of_last (block m) = 0
rounds_of_last (tool r) = 1

leading_rounds-append :
    (xs : List ChatHistoryItem) (y : ChatHistoryItem)
    → leading_rounds (xs ++ y ∷ [])
      ≡ (if has_block xs then leading_rounds xs else length xs + rounds_of_last y)
unfolding leading_rounds
leading_rounds-append [] (block m) = omega arith
leading_rounds-append [] (tool r) = omega arith
leading_rounds-append (block m ∷ xs) y = refl
leading_rounds-append (tool r ∷ xs) y = ground (arith, leading_rounds-append xs y)

pub has_block-latest_turn : (xs : List ChatHistoryItem) → has_block (latest_turn xs) ≡ has_block xs
unfolding latest_turn
has_block-latest_turn [] = refl
has_block-latest_turn (x ∷ xs) = elim (Bool-cases (has_block xs)) [
  | inr e ↦ rw (e, e)
  | inl e ↦
      ap has_block (latest_turn-cons x xs e)
      ∙ has_block-latest_turn xs
      ∙ e
      ∙ sym (has_block-cons x xs e)
]

pub length-latest_turn : (xs : List ChatHistoryItem) → length (latest_turn xs) ≤ length xs
unfolding latest_turn
length-latest_turn [] = omega arith
length-latest_turn (x ∷ xs) = ground (arith, length-latest_turn xs)

pub has_block-append_right :
    (xs ys : List ChatHistoryItem) → has_block ys ≡ true → has_block (xs ++ ys) ≡ true
has_block-append_right [] ys h = h
has_block-append_right (x ∷ xs) ys h = has_block-cons x (xs ++ ys) (has_block-append_right xs ys h)

-- A part in front of a message does not count.
pub latest_turn-append :
    (xs ys : List ChatHistoryItem) → has_block ys ≡ true → latest_turn (xs ++ ys) ≡ latest_turn ys
unfolding latest_turn
latest_turn-append [] ys h = refl
latest_turn-append (x ∷ xs) ys h =
    latest_turn-cons x (xs ++ ys) (has_block-append_right xs ys h) ∙ latest_turn-append xs ys h

rounds-no_block :
    (xs : List ChatHistoryItem) → has_block xs ≡ false → leading_rounds (reverse xs) ≡ length xs
unfolding leading_rounds
rounds-no_block [] h = refl
rounds-no_block (block m ∷ xs) h = absurd cc
rounds-no_block (tool r ∷ xs) h =
    ap leading_rounds (reverse-cons (tool r) xs)
    ∙ leading_rounds-append (reverse xs) (tool r)
    ∙ rw (has_block-reverse xs, h) omega (arith, length-reverse xs)

rounds-latest_turn :
    (xs : List ChatHistoryItem)
    → has_block xs ≡ true
    → suc (leading_rounds (reverse xs)) ≡ length (latest_turn xs)
unfolding latest_turn
rounds-latest_turn [] h = absurd cc
rounds-latest_turn (x ∷ xs) h = elim (Bool-cases (has_block xs)) [
  | inl e ↦
      ap (λ ys. suc (leading_rounds ys)) (reverse-cons x xs)
      ∙ ap suc (leading_rounds-append (reverse xs) x)
      ∙ rw (has_block-reverse xs, e) (rounds-latest_turn xs e)
  | inr e ↦
      ap (λ ys. suc (leading_rounds ys)) (reverse-cons x xs)
      ∙ ap suc (leading_rounds-append (reverse xs) x)
      ∙ rw (has_block-reverse xs, e) (last x e h)
]
  where
    last :
        (y : ChatHistoryItem)
        → has_block xs ≡ false
        → has_block (y ∷ xs) ≡ true
        → suc (length (reverse xs) + rounds_of_last y) ≡ suc (length xs)
    last (block m) e q = omega (arith, length-reverse xs)
    last (tool r) e q = absurd cc

latest_turn-no_block : (xs : List ChatHistoryItem) → has_block xs ≡ false → latest_turn xs ≡ xs
unfolding latest_turn
latest_turn-no_block [] h = refl
latest_turn-no_block (block m ∷ xs) h = absurd cc
latest_turn-no_block (tool r ∷ xs) h = rw h refl

-- The code counts the items of the latest turn.
pub suffix_length-latest_turn :
    (xs : List ChatHistoryItem) → latest_turn_suffix_length xs ≡ length (latest_turn xs)
unfolding latest_turn_suffix_length
suffix_length-latest_turn xs = elim (Bool-cases (has_block xs)) [
  | inl e ↦ ground (arith, rounds-latest_turn xs e, length-latest_turn xs)
  | inr e ↦ ground (arith, rounds-no_block xs e, latest_turn-no_block xs e)
]

-- An item before the latest turn is dropped.
pub latest_turn-drop_at :
    (i : ℕ) (xs : List ChatHistoryItem)
    → i + length (latest_turn xs) < length xs
    → latest_turn (drop_at i xs) ≡ latest_turn xs
unfolding latest_turn
latest_turn-drop_at i [] h = absurd (omega arith)
latest_turn-drop_at zero (x ∷ xs) h = elim (Bool-cases (has_block xs)) [
  | inl e ↦ rw e refl
  | inr e ↦ absurd (omega (arith, simp e at h))
]
latest_turn-drop_at (suc i) (x ∷ xs) h = elim (Bool-cases (has_block xs)) [
  | inl e ↦
      let same = latest_turn-drop_at i xs (omega (arith, ap length (latest_turn-cons x xs e))) in
      let still : has_block (drop_at i xs) ≡ true =
        sym (has_block-latest_turn (drop_at i xs))
        ∙ ap has_block same
        ∙ has_block-latest_turn xs
        ∙ e in
      latest_turn-cons x (drop_at i xs) still ∙ same ∙ sym (latest_turn-cons x xs e)
  | inr e ↦ absurd (omega (arith, simp e at h))
]
