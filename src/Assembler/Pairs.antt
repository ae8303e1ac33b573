-- ===== src/Assembler/Pairs.antt =====
-- The order of the assembled messages: what a provider asks of tool calls and their results.
use mathlib.Core.List.{append_assoc}
use fairy_claw.Base.{
  ℕ, zero, suc, String, ◌≡◌, refl, ap, ◌∙◌, Bool, true, false, not, ◌&&◌, Option, none, some, List,
  [], ◌∷◌, ◌++◌, inl, inr, arith, Bool-cases, str_eq, str_eq_refl, not_empty, map, drop, length,
}
use fairy_claw.History.{
  of_text, Content, ToolCallRound, ChatHistoryItem, block, tool, SessionMessageBlock,
  SessionMessageRole, system, user, assistant, role_value, body_openai_content,
}
use fairy_claw.Assembler.{
  LlmToolCallRequest, LlmChatMessage, to_tool_call_request, tool_result_message, batch, message_of,
  is_assistant, collect, collect_consecutive_tool_rounds, assemble_from, assemble,
}

abbrev pub ids_of : List LlmToolCallRequest → List String
ids_of [] = []
ids_of (c ∷ cs) = c.call_id ∷ ids_of cs

-- The calls that a message opens, and whether it opens a list of none.
abbrev pub opened : Option (List LlmToolCallRequest) → List String
opened none = []
opened (some cs) = ids_of cs

abbrev opens_well : Option (List LlmToolCallRequest) → Bool
opens_well none = true
opens_well (some cs) = not_empty cs

abbrev answers : String → Option String → Bool
answers id none = false
answers id (some i) = str_eq i id

-- Reading the messages with the ids of the calls that still wait for their results: as long as one
-- waits the next message is its result, and no result comes unasked.
abbrev pub is_paired : List String → List LlmChatMessage → Bool
is_paired [] [] = true
is_paired (id ∷ ids) [] = false
is_paired (id ∷ ids) (m ∷ ms) =
    str_eq m.role "tool" && answers id m.tool_call_id && is_paired ids ms
is_paired [] (m ∷ ms) =
    not (str_eq m.role "tool") && opens_well m.tool_calls && is_paired (opened m.tool_calls) ms

is_paired-results :
    (rounds : List ToolCallRound) (ms : List LlmChatMessage)
    → is_paired (ids_of (map to_tool_call_request rounds)) (map tool_result_message rounds ++ ms)
      ≡ is_paired [] ms
is_paired-results [] ms = refl
is_paired-results (r ∷ rounds) ms = rw (str_eq_refl r.call_id) (is_paired-results rounds ms)

is_paired-batch :
    (content : Content) (rounds : List ToolCallRound) (ms : List LlmChatMessage)
    → not_empty rounds ≡ true
    → is_paired [] (batch content rounds ++ ms) ≡ is_paired [] ms
is_paired-batch content [] ms h = cc
is_paired-batch content (r ∷ rounds) ms h = is_paired-results (r ∷ rounds) ms

is_paired-message :
    (m : SessionMessageBlock) (ms : List LlmChatMessage)
    → is_paired [] (message_of m ∷ ms) ≡ is_paired [] ms
is_paired-message m ms = go m.role
  where
    go :
        (r : SessionMessageRole)
        → (not (str_eq (role_value r) "tool") && true && is_paired [] ms) ≡ is_paired [] ms
    go system = refl
    go user = refl
    go assistant = refl

is_paired-batched :
    (content : Content) (rounds : List ToolCallRound) (later ms : List LlmChatMessage)
    → not_empty rounds ≡ true
    → is_paired [] (later ++ ms) ≡ true
    → is_paired [] ((batch content rounds ++ later) ++ ms) ≡ true
is_paired-batched content rounds later ms ne h =
    ap (is_paired []) (append_assoc (batch content rounds) later ms)
    ∙ is_paired-batch content rounds (later ++ ms) ne
    ∙ h

collects-not_empty :
    (r : ToolCallRound) (es : List ChatHistoryItem)
    → not_empty (collect_consecutive_tool_rounds (tool r ∷ es)) ≡ true
unfolding collect_consecutive_tool_rounds collect
collects-not_empty r es = refl

assemble_from-is_paired :
    (n : ℕ) (es : List ChatHistoryItem) (ms : List LlmChatMessage)
    → is_paired [] ms ≡ true
    → is_paired [] (assemble_from n es ++ ms) ≡ true
unfolding assemble_from
assemble_from-is_paired zero es ms h = h
assemble_from-is_paired (suc n) [] ms h = h
assemble_from-is_paired (suc n) (tool r ∷ es) ms h =
    is_paired-batched (of_text "") (collect_consecutive_tool_rounds (tool r ∷ es)) _ ms
      (collects-not_empty r es) (assemble_from-is_paired n _ ms h)
assemble_from-is_paired (suc n) (block m ∷ es) ms h =
    let rounds = collect_consecutive_tool_rounds es in
    elim (Bool-cases (is_assistant m && not_empty rounds)) [
      | inl q ↦ rw q (
          is_paired-batched (body_openai_content m.body) rounds _ ms (ground (arith, q))
            (assemble_from-is_paired n (drop (length rounds) es) ms h))
      | inr q ↦
          rw q (is_paired-message m (assemble_from n es ++ ms) ∙ assemble_from-is_paired n es ms h)
    ]

-- In the assembled messages every message that calls tools is followed at once by the results of
-- exactly those calls, in their order; no result comes without a call, and no message calls an empty
-- list of tools. This is so for every history.
pub assemble-is_paired :
    (system_prompt : String) (history : List ChatHistoryItem)
    (user_entry : Option SessionMessageBlock)
    → is_paired [] (assemble system_prompt history user_entry) ≡ true
unfolding assemble
assemble-is_paired system_prompt history none =
    assemble_from-is_paired (length history) history [] refl
assemble-is_paired system_prompt history (some m) =
    assemble_from-is_paired (length history) history (message_of m ∷ []) (is_paired-message m [])
