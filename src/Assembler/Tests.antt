-- ===== src/Assembler/Tests.antt =====
-- The assembler on a history with a message, three tool rounds of two calls, and an answer.
use fairy_claw.Base.{
  ℕ, ◌≡◌, refl, String, true, Option, none, some, List, [], ◌∷◌, keep, map, length,
}
use fairy_claw.History.{
  ChatHistoryItem, block, tool, SessionMessageBlock, user, assistant, text_body, ToolCallRound,
}
use fairy_claw.Assembler.{
  collect, assemble_from, tool_call_ordinal, collect_consecutive_tool_rounds, assemble,
  tool_result_message,
}
use fairy_claw.Assembler.Pairs.{assemble-is_paired, is_paired}
use fairy_claw.Assembler.Complete.{assemble-results, is_result, rounds_of}

abbrev round : String → ToolCallRound
round id = record {
  tool_name = "list_session_files";
  call_id = id;
  arguments_json = "{}";
  tool_result = "[]";
  success = true;
}

abbrev question : SessionMessageBlock
question = record { role = user; body = text_body "hello" }

abbrev answer : SessionMessageBlock
answer = record { role = assistant; body = text_body "done" }

abbrev history : List ChatHistoryItem
history =
    block question
    ∷ block answer
    ∷ tool (round "tc_1_a")
    ∷ tool (round "tc_2_b")
    ∷ tool (round "tc_1_c")
    ∷ block answer
    ∷ []

abbrev seven : Option ℕ
seven = some 7

ordinal_test : tool_call_ordinal "tc_7_ab" ≡ seven
unfolding tool_call_ordinal
ordinal_test = refl

no_ordinal_test : tool_call_ordinal "tc_h_ab12" ≡ none
unfolding tool_call_ordinal
no_ordinal_test = refl

-- A group ends where the ordinals start again.
collect_test :
    length (
      collect_consecutive_tool_rounds
        (tool (round "tc_1_a") ∷ tool (round "tc_2_b") ∷ tool (round "tc_1_c") ∷ []))
    ≡ 2
unfolding collect_consecutive_tool_rounds collect tool_call_ordinal
collect_test = refl

assemble_test : length (assemble "system" history (some question)) ≡ 9
unfolding assemble assemble_from collect_consecutive_tool_rounds collect tool_call_ordinal
assemble_test = refl

assemble-is_paired_example : is_paired [] (assemble "system" history (some question)) ≡ true
assemble-is_paired_example = assemble-is_paired "system" history (some question)

assemble-results_example :
    keep is_result (assemble "system" history (some question))
    ≡ map tool_result_message (rounds_of history)
assemble-results_example = assemble-results "system" history (some question)
