-- ===== src/Compression.antt =====
-- fairyclaw/capabilities/compression_hooks/scripts/context_compression.py: the history of a turn is cut
-- down until its prompt fits a token budget. Here are the truncation of long items and the windows on
-- the history; Images and Hook hold the rest of the script.
pub mod Images
pub mod Hook
pub mod Turn
pub mod Drops
pub mod Gone
pub mod Unload
pub mod Window
pub mod Head
pub mod Fits
pub mod Truncation
pub mod Tests
use mathlib.Core.List.{reverse}
use fairy_claw.Base.{
  ℕ, zero, suc, ◌+◌, ◌-◌, String, Bool, true, false, not, ◌&&◌, ◌||◌, Option, none, some, List, [],
  ◌∷◌, ◌++◌, if◌then◌else◌, ◌==◌, leb, ltb, str_eq, append, contains, rstrip, characters,
  first_chars, length, take, drop, max,
}
use fairy_claw.History.{
  ChatHistoryItem, block, tool, SessionMessageBlock, SessionMessageRole, user, assistant,
  body_plain_text, from_segments, text_segment, is_block,
}

abbrev pub has_role_user : ChatHistoryItem → Bool
has_role_user (block m) = elim m.role [ user ↦ true | r ↦ false ]
has_role_user (tool r) = false

user_end_from : ℕ → List ChatHistoryItem → ℕ
user_end_from idx [] = 0
user_end_from idx (x ∷ xs) =
    let later = user_end_from (idx + 1) xs in if has_role_user x then idx + 1 else later

unfoldable pub first_user_message_exclusive_end : List ChatHistoryItem → ℕ
unfolding user_end_from
first_user_message_exclusive_end items = user_end_from 0 items

-- The loop of `_latest_turn_suffix_length` over the items from the last one on.
pub leading_rounds : List ChatHistoryItem → ℕ
leading_rounds [] = 0
leading_rounds (block m ∷ xs) = 0
leading_rounds (tool r ∷ xs) = suc (leading_rounds xs)

unfoldable pub latest_turn_suffix_length : List ChatHistoryItem → ℕ
latest_turn_suffix_length items =
    let rounds = leading_rounds (reverse items) in
    if rounds == length items then rounds else rounds + 1

-- `len(items) - _latest_turn_suffix_length(items)`
abbrev pub first_protected : List ChatHistoryItem → ℕ
first_protected items = length items - latest_turn_suffix_length items

unfoldable pub truncate_text : String → ℕ → String
truncate_text text max_chars =
    if max_chars == 0 || leb (characters text) max_chars
    then text
    else append (rstrip (first_chars max_chars text)) "\n...[truncated]"

unfoldable pub truncate_assistant_message : SessionMessageBlock → ℕ → SessionMessageBlock
truncate_assistant_message m max_chars =
    let plain_text = body_plain_text m.body in
    let truncated_text = truncate_text plain_text max_chars in
    if str_eq truncated_text plain_text
    then m
    else elim (from_segments m.role (text_segment truncated_text ∷ [])) [ none ↦ m | some m' ↦ m' ]

unfoldable pub message_blocks : List ChatHistoryItem → ℕ
message_blocks [] = 0
message_blocks (block m ∷ xs) = suc (message_blocks xs)
message_blocks (tool r ∷ xs) = message_blocks xs

-- `_find_droppable_index`: the loop over the indices of the range, `lo` and `hi` counted from `idx`.
unfoldable pub find_between : ℕ → ℕ → ℕ → List ChatHistoryItem → Option ℕ
find_between idx lo hi [] = none
find_between idx lo zero (x ∷ xs) = none
find_between idx (suc lo) (suc hi) (x ∷ xs) = find_between (idx + 1) lo hi xs
find_between idx zero (suc hi) (tool r ∷ xs) = some idx
find_between idx zero (suc hi) (block m ∷ xs) =
    let later = find_between (idx + 1) zero hi xs in
    if contains (body_plain_text m.body) "image context unloaded:" then later else some idx

unfoldable pub find_droppable_index : List ChatHistoryItem → ℕ → Option ℕ
find_droppable_index items start = find_between 0 start (first_protected items) items

-- The loop of `_keep_recent_history` over the items from the last one on: what it takes.
unfoldable pub recent : ℕ → ℕ → List ChatHistoryItem → List ChatHistoryItem
recent limit seen [] = []
recent limit seen (tool r ∷ xs) = tool r ∷ recent limit seen xs
recent limit seen (block m ∷ xs) =
    let earlier = recent limit (seen + 1) xs in
    if leb limit (seen + 1) then block m ∷ [] else block m ∷ earlier

unfoldable pub keep_recent_history : List ChatHistoryItem → ℕ → List ChatHistoryItem × ℕ
keep_recent_history items limit =
    let kept = reverse (recent limit 0 (reverse items)) in (kept, length items - length kept)

-- `items[:i] + items[i + 1:]`
abbrev pub drop_at : ℕ → List ChatHistoryItem → List ChatHistoryItem
drop_at i items = take i items ++ drop (suc i) items
