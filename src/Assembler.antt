-- ===== src/Assembler.antt =====
-- fairyclaw/core/agent/context/llm_message_assembler.py: the messages of a call of the model from the
-- history, with the message type of fairyclaw/core/agent/hooks/protocol.py.
pub mod Pairs
pub mod Complete
pub mod Tests
use Prim.Native.Char.{code}
use fairy_claw.Base.{
  ℕ, zero, suc, ◌+◌, ◌-◌, ◌*◌, String, Bool, true, false, not, ◌&&◌, ◌||◌, Option, none, some, List,
  [], ◌∷◌, ◌++◌, if◌then◌else◌, ◌==◌, leb, starts_with, drop_chars, length, drop, map, not_empty,
}
use fairy_claw.History.{
  Content, of_text, SessionMessageRole, assistant, role_value, SessionMessageBlock,
  body_openai_content, ToolCallRound, ChatHistoryItem, block, tool,
}

pub record LlmToolCallRequest : Type 0 where
  pub call_id : String
  pub name : String
  pub arguments_json : String

pub record LlmChatMessage : Type 0 where
  pub role : String
  pub content : Content
  pub tool_calls : Option (List LlmToolCallRequest)
  pub tool_call_id : Option String
  pub name : Option String

-- The digits at the head of a text, and what follows them.
digits_from : ℕ → String → ℕ × String
digits_from n String.[] = (n, String.[])
digits_from n (String.◌∷◌ c s) =
    let further = digits_from (10 * n + (code c - 48)) s in
    if leb 48 (code c) && leb (code c) 57 then further else (n, String.◌∷◌ c s)

abbrev starts_with_digit : String → Bool
starts_with_digit String.[] = false
starts_with_digit (String.◌∷◌ c s) = leb 48 (code c) && leb (code c) 57

-- `(?:_|$)`: an underscore, the end, or a newline at the end.
abbrev ends_ordinal : String → Bool
ends_ordinal String.[] = true
ends_ordinal (String.◌∷◌ c String.[]) = code c == 95 || code c == 10
ends_ordinal (String.◌∷◌ c s) = code c == 95

-- The pattern `^tc_(\d+)(?:_|$)`, on ASCII digits.
unfoldable pub tool_call_ordinal : String → Option ℕ
unfolding digits_from
tool_call_ordinal call_id =
    let rest = drop_chars 3 call_id in
    let (n, after) = digits_from 0 rest in
    if starts_with call_id "tc_" && starts_with_digit rest && ends_ordinal after
    then some n
    else none

-- Whether an ordinal is the one expected; one that is missing never is.
abbrev pub continues : Option ℕ → Option ℕ → Bool
continues (some expected) (some current) = current == expected
continues expected current = false

abbrev pub next_ordinal : Option ℕ → Option ℕ
next_ordinal none = none
next_ordinal (some n) = some (n + 1)

-- The loop of `_collect_consecutive_tool_rounds` over the entries from its start; `started` says
-- whether it holds a round.
unfoldable pub collect : Bool → Option ℕ → List ChatHistoryItem → List ToolCallRound
collect started expected [] = []
collect started expected (block m ∷ es) = []
collect started expected (tool r ∷ es) =
    let current = tool_call_ordinal r.call_id in
    let rest = collect true (next_ordinal current) es in
    if started && not (continues expected current) then [] else r ∷ rest

unfoldable pub collect_consecutive_tool_rounds : List ChatHistoryItem → List ToolCallRound
collect_consecutive_tool_rounds es = collect false none es

abbrev pub to_tool_call_request : ToolCallRound → LlmToolCallRequest
to_tool_call_request r = record {
  call_id = r.call_id;
  name = r.tool_name;
  arguments_json = r.arguments_json;
}

abbrev pub tool_result_message : ToolCallRound → LlmChatMessage
tool_result_message r = record {
  role = "tool";
  content = of_text r.tool_result;
  tool_calls = none;
  tool_call_id = some r.call_id;
  name = some r.tool_name;
}

abbrev pub plain_message : String → Content → LlmChatMessage
plain_message role content = record {
  role = role;
  content = content;
  tool_calls = none;
  tool_call_id = none;
  name = none;
}

-- The message of the assistant that calls the tools of some rounds, and their results.
abbrev pub batch : Content → List ToolCallRound → List LlmChatMessage
batch content rounds =
    record (plain_message "assistant" content) {
      tool_calls = some (map to_tool_call_request rounds);
    }
    ∷ map tool_result_message rounds

abbrev pub message_of : SessionMessageBlock → LlmChatMessage
message_of m = plain_message (role_value m.role) (body_openai_content m.body)

abbrev pub is_assistant : SessionMessageBlock → Bool
is_assistant m = elim m.role [ assistant ↦ true | r ↦ false ]

-- The loop of `assemble` over what is left of the history. Each turn takes at least one entry, so
-- the length of the history is enough fuel.
unfoldable pub assemble_from : ℕ → List ChatHistoryItem → List LlmChatMessage
assemble_from zero es = []
assemble_from (suc n) [] = []
assemble_from (suc n) (block m ∷ es) =
    let rounds = collect_consecutive_tool_rounds es in
    let plain = message_of m ∷ assemble_from n es in
    let batched =
      batch (body_openai_content m.body) rounds ++ assemble_from n (drop (length rounds) es) in
    if is_assistant m && not_empty rounds then batched else plain
assemble_from (suc n) (tool r ∷ es) =
    let rounds = collect_consecutive_tool_rounds (tool r ∷ es) in
    batch (of_text "") rounds ++ assemble_from n (drop (length rounds) (tool r ∷ es))

unfoldable pub assemble :
    String → List ChatHistoryItem → Option SessionMessageBlock → List LlmChatMessage
assemble system_prompt history_entries user_entry =
    plain_message "system" (of_text system_prompt)
      ∷ assemble_from (length history_entries) history_entries
    ++ (elim user_entry [ none ↦ [] | some m ↦ message_of m ∷ [] ])
