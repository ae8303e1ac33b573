-- ===== src/Compression/Drops.antt =====
-- The second loop of execute_hook in context_compression.py, which drops items.
use fairy_claw.Base.{
  ℕ, zero, suc, ◌+◌, ◌≤◌, ◌<◌, ◌≡◌, refl, ◌∙◌, ap, Bool, true, ◌||◌, none, some, ◌⊎◌, List, [], ◌∷◌,
  inl, inr, arith, Bool-cases, Option-cases, leb, contains, take, length,
}
use fairy_claw.History.{ChatHistoryItem, block, tool, body_plain_text}
use fairy_claw.Compression.{
  latest_turn_suffix_length, first_protected, find_between, find_droppable_index, drop_at,
}
use fairy_claw.Compression.Hook.{drop_loop}
use fairy_claw.Compression.Turn.{
  latest_turn, suffix_length-latest_turn, length-latest_turn, latest_turn-drop_at,
}

-- An index of the range, at an item that is no note of unloaded images.
find_between-range :
    (idx lo hi i : ℕ) (xs : List ChatHistoryItem)
    → find_between idx lo hi xs ≡ some i
    → idx + lo ≤ i × i < idx + hi × i < idx + length xs
unfolding find_between
find_between-range idx lo hi i [] h = absurd cc
find_between-range idx lo zero i (x ∷ xs) h = absurd cc
find_between-range idx (suc lo) (suc hi) i (x ∷ xs) h =
    let r = find_between-range (idx + 1) lo hi i xs h in (omega arith, omega arith, omega arith)
find_between-range idx zero (suc hi) i (tool r ∷ xs) h = ground (arith)
find_between-range idx zero (suc hi) i (block m ∷ xs) h =
    elim (Bool-cases (contains (body_plain_text m.body) "image context unloaded:")) [
      | inl e ↦
          let r = find_between-range (idx + 1) zero hi i xs (rw (e, find_between) at h) in
          (omega arith, omega arith, omega arith)
      | inr e ↦ ground (arith, rw (e, find_between) at h)
    ]

length-drop_at :
    (i : ℕ) (xs : List ChatHistoryItem) → i < length xs → suc (length (drop_at i xs)) ≡ length xs
length-drop_at i [] h = absurd (omega arith)
length-drop_at zero (x ∷ xs) h = refl
length-drop_at (suc i) (x ∷ xs) h = ap suc (length-drop_at i xs (omega arith))

take-drop_at : (p i : ℕ) (xs : List ChatHistoryItem) → p ≤ i → take p (drop_at i xs) ≡ take p xs
take-drop_at zero i xs h = refl
take-drop_at (suc p) zero xs h = absurd (omega arith)
take-drop_at (suc p) (suc i) [] h = refl
take-drop_at (suc p) (suc i) (x ∷ xs) h = ap (λ ys. x ∷ ys) (take-drop_at p i xs (omega arith))

-- What is dropped is behind the prefix and before the latest turn.
droppable-range :
    (p i : ℕ) (xs : List ChatHistoryItem)
    → find_droppable_index xs p ≡ some i
    → p ≤ i × i + length (latest_turn xs) < length xs
unfolding find_droppable_index
droppable-range p i xs h =
    let r = find_between-range 0 p (first_protected xs) i xs h in
    (omega arith, omega (arith, suffix_length-latest_turn xs, length-latest_turn xs))

module _ (fits : List ChatHistoryItem → Bool) (p : ℕ) where
  -- Why the loop stops on a history: nothing but the prefix and the latest turn is left, the prompt
  -- fits, or no item can be dropped.
  abbrev pub IsDropped : List ChatHistoryItem → Type 0
  IsDropped xs =
      (leb (length xs) (p + latest_turn_suffix_length xs) || fits xs) ≡ true
      ⊎ find_droppable_index xs p ≡ none

  -- The loop stops, or drops an item and goes on.
  drop_loop-cases :
      (n : ℕ) (xs : List ChatHistoryItem)
      → (IsDropped xs × drop_loop fits p (suc n) xs ≡ xs)
        ⊎ ((i : ℕ) × (p ≤ i × i + length (latest_turn xs) < length xs)
            × drop_loop fits p (suc n) xs ≡ drop_loop fits p n (drop_at i xs))
  unfolding drop_loop
  drop_loop-cases n xs =
      elim (Bool-cases (leb (length xs) (p + latest_turn_suffix_length xs) || fits xs)) [
        | inl e ↦ inl (inl e, rw e refl)
        | inr e ↦ elim (Option-cases (find_droppable_index xs p)) [
          | inl q ↦ inl (inr q, rw (e, q) refl)
          | inr (i, q) ↦ inr (i, droppable-range p i xs q, rw (e, q) refl)
        ]
      ]

  -- Dropping leaves the latest turn and the prefix as they are.
  pub drop_loop-latest_turn :
      (n : ℕ) (xs : List ChatHistoryItem) → latest_turn (drop_loop fits p n xs) ≡ latest_turn xs
  unfolding drop_loop
  drop_loop-latest_turn zero xs = refl
  drop_loop-latest_turn (suc n) xs = elim (drop_loop-cases n xs) [
    | inl (d, q) ↦ ap latest_turn q
    | inr (i, r, q) ↦
        ap latest_turn q ∙ drop_loop-latest_turn n (drop_at i xs) ∙ latest_turn-drop_at i xs r.1
  ]

  pub drop_loop-take :
      (n : ℕ) (xs : List ChatHistoryItem) → take p (drop_loop fits p n xs) ≡ take p xs
  unfolding drop_loop
  drop_loop-take zero xs = refl
  drop_loop-take (suc n) xs = elim (drop_loop-cases n xs) [
    | inl (d, q) ↦ ap (take p) q
    | inr (i, r, q) ↦ ap (take p) q ∙ drop_loop-take n (drop_at i xs) ∙ take-drop_at p i xs r.0
  ]

  -- With the length as fuel the loop stops by itself.
  pub drop_loop-IsDropped :
      (n : ℕ) (xs : List ChatHistoryItem) → length xs ≤ n → IsDropped (drop_loop fits p n xs)
  unfolding drop_loop
  drop_loop-IsDropped zero [] h =
      let none_left : leb 0 (p + latest_turn_suffix_length []) ≡ true = ground arith in
      inl (rw none_left refl)
  drop_loop-IsDropped zero (x ∷ xs) h = absurd (omega arith)
  drop_loop-IsDropped (suc n) xs h = elim (drop_loop-cases n xs) [
    | inl (d, q) ↦ rw q d
    | inr (i, r, q) ↦
        rw q
          (drop_loop-IsDropped n (drop_at i xs) (omega (arith, length-drop_at i xs (omega arith))))
  ]
