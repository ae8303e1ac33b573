-- ===== src/Compression/Window.antt =====
-- The recent window of context_compression.py: what it keeps of a history.
use mathlib.Core.List.{reverse, reverse-append, reverse-reverse}
use fairy_claw.Base.{
  ℕ, ◌+◌, ◌-◌, ◌<◌, max, ◌≡◌, refl, ◌∙◌, ap, sym, Bool, false, not, ◌&&◌, List, [], ◌∷◌, ◌++◌, inl,
  inr, arith, Bool-cases, ◌==◌, leb, take, drop, length, length-append, take-append-drop,
}
use fairy_claw.History.{ChatHistoryItem, block, tool}
use fairy_claw.Compression.{recent, keep_recent_history, first_user_message_exclusive_end}
use fairy_claw.Compression.Hook.{window}
use fairy_claw.Compression.Turn.{has_block, latest_turn, latest_turn-append, has_block-reverse}

-- What the loop takes is a head of the items, with a message where there is one.
recent-head :
    (limit seen : ℕ) (xs : List ChatHistoryItem)
    → (rest : List ChatHistoryItem) × xs ≡ recent limit seen xs ++ rest
unfolding recent
recent-head limit seen [] = ([], refl)
recent-head limit seen (tool r ∷ xs) =
    let (rest, q) = recent-head limit seen xs in (rest, ap (λ ys. tool r ∷ ys) q)
recent-head limit seen (block m ∷ xs) = elim (Bool-cases (leb limit (seen + 1))) [
  | inl e ↦ (xs, rw e refl)
  | inr e ↦
      let (rest, q) = recent-head limit (seen + 1) xs in (rest, rw e (ap (λ ys. block m ∷ ys) q))
]

has_block-recent :
    (limit seen : ℕ) (xs : List ChatHistoryItem) → has_block (recent limit seen xs) ≡ has_block xs
unfolding recent
has_block-recent limit seen [] = refl
has_block-recent limit seen (tool r ∷ xs) = has_block-recent limit seen xs
has_block-recent limit seen (block m ∷ xs) = elim (Bool-cases (leb limit (seen + 1))) [
  | inl e ↦ rw e refl
  | inr e ↦ rw e refl
]

recent-no_block :
    (limit seen : ℕ) (xs : List ChatHistoryItem) → has_block xs ≡ false → recent limit seen xs ≡ xs
unfolding recent
recent-no_block limit seen [] h = refl
recent-no_block limit seen (tool r ∷ xs) h =
    ap (λ ys. tool r ∷ ys) (recent-no_block limit seen xs h)
recent-no_block limit seen (block m ∷ xs) h = absurd cc

-- The history is what is left out in front, and what is kept; where nothing is a message, all is kept.
pub kept-split :
    (items : List ChatHistoryItem) (limit : ℕ)
    → (front : List ChatHistoryItem) × items ≡ front ++ (keep_recent_history items limit).0
unfolding keep_recent_history
kept-split items limit =
    let (rest, q) = recent-head limit 0 (reverse items) in
    (
      reverse rest,
      sym (reverse-reverse items)
          ∙ ap reverse q
          ∙ reverse-append (recent limit 0 (reverse items)) rest,
    )

has_block-kept :
    (items : List ChatHistoryItem) (limit : ℕ)
    → has_block (keep_recent_history items limit).0 ≡ has_block items
unfolding keep_recent_history
has_block-kept items limit =
    has_block-reverse (recent limit 0 (reverse items))
    ∙ has_block-recent limit 0 (reverse items)
    ∙ has_block-reverse items

kept-no_block :
    (items : List ChatHistoryItem) (limit : ℕ)
    → has_block items ≡ false
    → (keep_recent_history items limit).0 ≡ items
unfolding keep_recent_history
kept-no_block items limit h =
    ap reverse (recent-no_block limit 0 (reverse items) (has_block-reverse items ∙ h))
    ∙ reverse-reverse items

pub latest_turn-kept :
    (items : List ChatHistoryItem) (limit : ℕ)
    → latest_turn (keep_recent_history items limit).0 ≡ latest_turn items
latest_turn-kept items limit =
    let (front, q) = kept-split items limit in
    elim (Bool-cases (has_block items)) [
      | inl e ↦
          sym (
            latest_turn-append front (keep_recent_history items limit).0
              (has_block-kept items limit ∙ e))
          ∙ ap latest_turn (sym q)
      | inr e ↦ ap latest_turn (kept-no_block items limit e)
    ]

drop-length-append : (xs ys : List ChatHistoryItem) → drop (length xs) (xs ++ ys) ≡ ys
drop-length-append [] ys = refl
drop-length-append (x ∷ xs) ys = drop-length-append xs ys

drop-behind :
    (items front kept : List ChatHistoryItem)
    → items ≡ front ++ kept
    → drop (length items - length kept) items ≡ kept
drop-behind items front kept q =
    let n : length items - length kept ≡ length front =
      omega (arith, ap length q, length-append front kept) in
    ap (λ k. drop k items) n ∙ ap (drop (length front)) q ∙ drop-length-append front kept

-- Behind the point where the tail starts is what is kept.
drop-tail_start :
    (items : List ChatHistoryItem) (limit : ℕ)
    → drop (keep_recent_history items limit).1 items ≡ (keep_recent_history items limit).0
unfolding keep_recent_history
drop-tail_start items limit =
    let (front, q) = kept-split items limit in
    drop-behind items front (keep_recent_history items limit).0 q

-- Where the tail starts later than at 0, what is kept holds a message.
latest_turn-behind_head :
    (front items : List ChatHistoryItem) (limit : ℕ)
    → 0 < (keep_recent_history items limit).1
    → latest_turn (front ++ (keep_recent_history items limit).0) ≡ latest_turn items
unfolding keep_recent_history
latest_turn-behind_head front items limit h = elim (Bool-cases (has_block items)) [
  | inl e ↦
      latest_turn-append front (keep_recent_history items limit).0 (has_block-kept items limit ∙ e)
      ∙ latest_turn-kept items limit
  | inr e ↦ absurd (omega (arith, ap length (kept-no_block items limit e)))
]

-- With a head of the history kept in front, the window keeps the latest turn.
latest_turn-with_head :
    (head : ℕ) (items : List ChatHistoryItem) (limit : ℕ)
    → let (kept, tail_start) = keep_recent_history items limit in
      latest_turn (take head items ++ drop (max head tail_start) items) ≡ latest_turn items
latest_turn-with_head head items limit =
    let (kept, tail_start) = keep_recent_history items limit in
    elim (Bool-cases (leb tail_start head)) [
      | inl e ↦
          let m : max head tail_start ≡ head = ground arith in
          ap (λ k. latest_turn (take head items ++ drop k items)) m
          ∙ ap latest_turn (take-append-drop head items)
      | inr e ↦
          let m : max head tail_start ≡ tail_start = ground arith in
          ap (λ k. latest_turn (take head items ++ drop k items)) m
          ∙ ap (λ ys. latest_turn (take head items ++ ys)) (drop-tail_start items limit)
          ∙ latest_turn-behind_head (take head items) items limit (ground arith)
    ]

pub latest_turn-window :
    (sub : Bool) (limit : ℕ) (items : List ChatHistoryItem)
    → latest_turn (window sub limit items) ≡ latest_turn items
unfolding window
latest_turn-window sub limit items =
    elim (Bool-cases (sub && not (first_user_message_exclusive_end items == 0))) [
      | inl e ↦ rw e (latest_turn-with_head (first_user_message_exclusive_end items) items limit)
      | inr e ↦ rw e (latest_turn-kept items limit)
    ]
