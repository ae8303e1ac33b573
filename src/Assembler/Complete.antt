-- ===== src/Assembler/Complete.antt =====
-- What the assembled messages keep of the history.
use mathlib.Core.List.{append-nil}
use fairy_claw.Base.{
  ℕ, zero, suc, ◌≤◌, String, ◌≡◌, refl, ◌∙◌, ap, sym, Bool, true, false, not, ◌&&◌, Option, none,
  some, List, [], ◌∷◌, ◌++◌, inl, inr, arith, Bool-cases, if◌then◌else◌, str_eq, not_empty, map,
  drop, length, keep, keep-append, length-drop,
}
use fairy_claw.History.{
  of_text, Content, ToolCallRound, ChatHistoryItem, block, tool, SessionMessageBlock,
  SessionMessageRole, system, user, assistant, role_value, body_openai_content,
}
use fairy_claw.Assembler.{
  LlmChatMessage, tool_result_message, batch, message_of, is_assistant, collect, tool_call_ordinal,
  continues, next_ordinal, collect_consecutive_tool_rounds, assemble_from, assemble,
}

-- The tool rounds of a history, and the tool results among messages.
abbrev pub rounds_of : List ChatHistoryItem → List ToolCallRound
rounds_of [] = []
rounds_of (block m ∷ es) = rounds_of es
rounds_of (tool r ∷ es) = r ∷ rounds_of es

abbrev pub is_result : LlmChatMessage → Bool
is_result m = str_eq m.role "tool"

-- The rounds that are collected are a head of the entries.
rounds_of-collect :
    (started : Bool) (expected : Option ℕ) (es : List ChatHistoryItem)
    → rounds_of es
      ≡ collect started expected es ++ rounds_of (drop (length (collect started expected es)) es)
unfolding collect
rounds_of-collect started expected [] = refl
rounds_of-collect started expected (block m ∷ es) = refl
rounds_of-collect started expected (tool r ∷ es) =
    let o = tool_call_ordinal r.call_id in
    elim (Bool-cases (started && not (continues expected o))) [
      | inl stop ↦ rw stop refl
      | inr go ↦ rw go (ap (λ rs. r ∷ rs) (rounds_of-collect true (next_ordinal o) es))
    ]

keep-results :
    (rounds : List ToolCallRound)
    → keep is_result (map tool_result_message rounds) ≡ map tool_result_message rounds
keep-results [] = refl
keep-results (r ∷ rounds) = ap (λ ms. tool_result_message r ∷ ms) (keep-results rounds)

keep-message :
    (m : SessionMessageBlock) (ms : List LlmChatMessage)
    → keep is_result (message_of m ∷ ms) ≡ keep is_result ms
keep-message m ms = go m.role
  where
    go :
        (r : SessionMessageRole)
        → (if str_eq (role_value r) "tool"
            then message_of m ∷ keep is_result ms
            else keep is_result ms)
          ≡ keep is_result ms
    go system = refl
    go user = refl
    go assistant = refl

map-append_results :
    (xs ys : List ToolCallRound)
    → map tool_result_message (xs ++ ys) ≡ map tool_result_message xs ++ map tool_result_message ys
map-append_results [] ys = refl
map-append_results (x ∷ xs) ys = ap (λ ms. tool_result_message x ∷ ms) (map-append_results xs ys)

keep-batch :
    (content : Content) (rounds : List ToolCallRound) (ms : List LlmChatMessage)
    → keep is_result (batch content rounds ++ ms)
      ≡ map tool_result_message rounds ++ keep is_result ms
keep-batch content rounds ms =
    keep-append is_result (map tool_result_message rounds) ms
    ∙ ap (λ rs. rs ++ keep is_result ms) (keep-results rounds)

-- A batch and what follows it give the results of the entries that they stand for.
batch-results :
    (content : Content) (es : List ChatHistoryItem) (later : List LlmChatMessage)
    → let rounds = collect_consecutive_tool_rounds es in
      keep is_result later ≡ map tool_result_message (rounds_of (drop (length rounds) es))
      → keep is_result (batch content rounds ++ later) ≡ map tool_result_message (rounds_of es)
unfolding collect_consecutive_tool_rounds
batch-results content es later h =
    let rounds = collect_consecutive_tool_rounds es in
    let rest = rounds_of (drop (length rounds) es) in
    keep-batch content rounds later
    ∙ ap (λ ms. map tool_result_message rounds ++ ms) h
    ∙ sym (map-append_results rounds rest)
    ∙ ap (map tool_result_message) (sym (rounds_of-collect false none es))

collects-some :
    (r : ToolCallRound) (es : List ChatHistoryItem)
    → length (drop (length (collect_consecutive_tool_rounds (tool r ∷ es))) (tool r ∷ es))
      ≤ length es
unfolding collect_consecutive_tool_rounds collect
collects-some r es =
    omega (
      arith,
      length-drop (length (collect true (next_ordinal (tool_call_ordinal r.call_id)) es)) es,
    )

assemble_from-results :
    (n : ℕ) (es : List ChatHistoryItem)
    → length es ≤ n
    → keep is_result (assemble_from n es) ≡ map tool_result_message (rounds_of es)
unfolding assemble_from
assemble_from-results zero [] le = refl
assemble_from-results zero (e ∷ es) le = absurd (omega arith)
assemble_from-results (suc n) [] le = refl
assemble_from-results (suc n) (block m ∷ es) le =
    let rounds = collect_consecutive_tool_rounds es in
    let less : length (drop (length rounds) es) ≤ n =
      omega (arith, length-drop (length rounds) es) in
    elim (Bool-cases (is_assistant m && not_empty rounds)) [
      | inl q ↦ rw q (
          batch-results (body_openai_content m.body) es _
            (assemble_from-results n (drop (length rounds) es) less))
      | inr q ↦
          rw q (keep-message m (assemble_from n es) ∙ assemble_from-results n es (omega arith))
    ]
assemble_from-results (suc n) (tool r ∷ es) le =
    batch-results (of_text "") (tool r ∷ es) _
      (assemble_from-results n _ (omega (arith, collects-some r es)))

keep-user :
    (u : Option SessionMessageBlock)
    → keep is_result (elim u [ none ↦ [] | some m ↦ message_of m ∷ [] ]) ≡ []
keep-user none = refl
keep-user (some m) = keep-message m []

-- The loop of the assembler ends with the whole history read: the tool results among the messages
-- are those of the tool rounds of the history, every one, once and in order.
pub assemble-results :
    (system_prompt : String) (history : List ChatHistoryItem)
    (user_entry : Option SessionMessageBlock)
    → keep is_result (assemble system_prompt history user_entry)
      ≡ map tool_result_message (rounds_of history)
unfolding assemble
assemble-results system_prompt history u =
    keep-append is_result (assemble_from (length history) history) _
    ∙ ap (λ ms. keep is_result (assemble_from (length history) history) ++ ms) (keep-user u)
    ∙ append-nil _
    ∙ assemble_from-results (length history) history (omega arith)
