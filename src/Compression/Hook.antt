-- ===== src/Compression/Hook.antt =====
-- `execute_hook` of context_compression.py. The number of tokens of a prompt, which the tokenizer
-- counts with the tools of the payload, is an argument.
use fairy_claw.Base.{
  ℕ, zero, suc, ◌+◌, String, Bool, not, ◌&&◌, ◌||◌, Option, none, some, List, [], ◌∷◌, ◌++◌,
  if◌then◌else◌, ◌==◌, leb, ltb, str_eq, length, take, drop, max,
}
use fairy_claw.History.{
  ChatHistoryItem, block, tool, SessionMessageBlock, assistant, Content, of_text, of_items,
}
use fairy_claw.Assembler.{LlmChatMessage, assemble}
use fairy_claw.Compression.{
  first_user_message_exclusive_end, latest_turn_suffix_length, first_protected, truncate_text,
  truncate_assistant_message, find_droppable_index, keep_recent_history, drop_at,
}
use fairy_claw.Compression.Images.{
  Store, UnloadedRecord, compress_message_images, unload_oldest_image_message,
}

pub record Config : Type 0 where
  pub recency_window : ℕ
  pub tool_result_max_chars : ℕ
  pub assistant_message_max_chars : ℕ

-- What the hook reads of its payload.
pub record Turn : Type 0 where
  pub is_sub_session : Bool
  pub history_items : List ChatHistoryItem
  pub llm_messages : List LlmChatMessage
  pub user_turn : Option SessionMessageBlock

-- The first step of the loop of `_truncate_large_items`, on any item.
unfoldable pub compress_item : (String → Option String) → ChatHistoryItem → ChatHistoryItem
compress_item compress (block m) = block (compress_message_images compress m)
compress_item compress (tool r) = tool r

unfoldable pub truncate_item : Config → ChatHistoryItem → ChatHistoryItem
truncate_item config (tool r) = tool (record r {
  tool_result = truncate_text r.tool_result config.tool_result_max_chars;
  arguments_json = truncate_text r.arguments_json config.tool_result_max_chars;
})
truncate_item config (block m) = elim m.role [
  | assistant ↦ block (truncate_assistant_message m config.assistant_message_max_chars)
  | r ↦ block m
]

-- That loop, from an index on.
unfoldable pub truncate_from :
    (String → Option String) → Config → ℕ → ℕ → ℕ → List ChatHistoryItem → List ChatHistoryItem
truncate_from compress config protected_from head_keep idx [] = []
truncate_from compress config protected_from head_keep idx (x ∷ xs) =
    let item = compress_item compress x in
    let preserve = leb protected_from idx || ltb idx head_keep in
    (if preserve then item else truncate_item config item)
    ∷ truncate_from compress config protected_from head_keep (idx + 1) xs

unfoldable pub truncate_large_items :
    (String → Option String) → Config → ℕ → List ChatHistoryItem → List ChatHistoryItem
truncate_large_items compress config head_keep items =
    truncate_from compress config (first_protected items) head_keep 0 items

-- The system messages that follow the first one.
leading_system : List LlmChatMessage → List LlmChatMessage
leading_system [] = []
leading_system (m ∷ ms) =
    let rest = leading_system ms in if str_eq m.role "system" then m ∷ rest else []

abbrev prompt_text : Content → String
prompt_text (of_text s) = s
prompt_text (of_items os) = ""

unfoldable pub extract_system_messages : List LlmChatMessage → String × List LlmChatMessage
unfolding leading_system
extract_system_messages [] = ("", [])
extract_system_messages (m ∷ ms) =
    if not (str_eq m.role "system") then ("", []) else (prompt_text m.content, leading_system ms)

-- `[rebuilt[0], *extra, *rebuilt[1:]]`; the assembled messages begin with a system message.
unfoldable pub insert_extra : List LlmChatMessage → List LlmChatMessage → List LlmChatMessage
insert_extra [] rebuilt = rebuilt
insert_extra (e ∷ es) [] = e ∷ es
insert_extra (e ∷ es) (m ∷ ms) =
    if str_eq m.role "system" then m ∷ (e ∷ es) ++ ms else (e ∷ es) ++ m ∷ ms

unfoldable pub rebuild_messages : Turn → List ChatHistoryItem → List LlmChatMessage
rebuild_messages turn items =
    let (system_prompt, extra) = extract_system_messages turn.llm_messages in
    insert_extra extra (assemble system_prompt items turn.user_turn)

-- The first `while` loop, with the records that it stores.
unfoldable pub unload_loop :
    (List ChatHistoryItem → Bool)
    → Store
    → ℕ
    → ℕ
    → List ChatHistoryItem
    → List ChatHistoryItem × List UnloadedRecord
unload_loop fits store sub_prefix zero items = (items, [])
unload_loop fits store sub_prefix (suc n) items =
    if fits items then (items, []) else elim (unload_oldest_image_message store sub_prefix items) [
      | none ↦ (items, [])
      | some (items', r) ↦
          let (result, rs) = unload_loop fits store sub_prefix n items' in (result, r ∷ rs)
    ]

-- The second `while` loop.
unfoldable pub drop_loop :
    (List ChatHistoryItem → Bool) → ℕ → ℕ → List ChatHistoryItem → List ChatHistoryItem
drop_loop fits sub_prefix zero items = items
drop_loop fits sub_prefix (suc n) items =
    if leb (length items) (sub_prefix + latest_turn_suffix_length items) || fits items
    then items
    else elim (find_droppable_index items sub_prefix) [
      | none ↦ items
      | some i ↦ drop_loop fits sub_prefix n (drop_at i items)
    ]

-- The recent window, with the head of a sub-session kept in front of it.
unfoldable pub window : Bool → ℕ → List ChatHistoryItem → List ChatHistoryItem
window is_sub_session limit items =
    let (kept, tail_start) = keep_recent_history items limit in
    let head = first_user_message_exclusive_end items in
    if is_sub_session && not (head == 0)
    then take head items ++ drop (max head tail_start) items
    else kept

-- The history that goes into the prompt, once the hook has to act. Each turn of the first loop takes
-- the images off one item and each turn of the second drops an item, so the length is enough fuel.
unfoldable pub compress_history :
    (List LlmChatMessage → ℕ)
    → (String → Option String)
    → Store
    → Config
    → ℕ
    → Turn
    → List ChatHistoryItem × List UnloadedRecord
compress_history tokens compress store config token_budget turn =
    let fits : List ChatHistoryItem → Bool =
      λ items. leb (tokens (rebuild_messages turn items)) token_budget in
    let head =
      if turn.is_sub_session then first_user_message_exclusive_end turn.history_items else 0 in
    let truncated = truncate_large_items compress config head turn.history_items in
    let recent = window turn.is_sub_session config.recency_window truncated in
    let sub_prefix = if turn.is_sub_session then first_user_message_exclusive_end recent else 0 in
    let (unloaded, records) = unload_loop fits store sub_prefix (length recent) recent in
    if fits truncated
    then (truncated, [])
    else if fits recent
    then (recent, [])
    else (drop_loop fits sub_prefix (length unloaded) unloaded, records)

-- The output: the payload as it is, or with a new history and new messages.
pub data Output : Type 0 where
  skip : Output
  patched : List ChatHistoryItem → List LlmChatMessage → List UnloadedRecord → Output

unfoldable pub execute_hook :
    (List LlmChatMessage → ℕ) → (String → Option String) → Store → Config → ℕ → Turn → Output
execute_hook tokens compress store config token_budget turn =
    let (items, records) = compress_history tokens compress store config token_budget turn in
    if token_budget == 0
    then skip
    else if leb (tokens turn.llm_messages) token_budget
    then skip
    else patched items (rebuild_messages turn items) records
