-- ===== src/Compression/Tests.antt =====
-- The hook on a short history of a sub-session. A prompt counts a token for each message and for each
-- character of a tool result.
use fairy_claw.Base.{
  ℕ, ◌+◌, ◌≡◌, ◌≢◌, ◌<◌, ◌≤◌, refl, String, Bool, true, false, Option, none, some, List, [], ◌∷◌,
  map, take, length, characters, get_elem?, arith,
}
use fairy_claw.History.{
  ChatHistoryItem, block, tool, SessionMessageBlock, user, assistant, text_body, segments_body,
  ToolCallRound, of_text, image_url_segment, text_segment,
}
use fairy_claw.Assembler.{LlmChatMessage}
use fairy_claw.Compression.{first_protected, latest_turn_suffix_length}
use fairy_claw.Compression.Images.{Store}
use fairy_claw.Compression.Hook.{
  Config, Turn, compress_item, compress_history, truncate_large_items, unload_loop,
}
use fairy_claw.Compression.Turn.{latest_turn}
use fairy_claw.Compression.Drops.{IsDropped}
use fairy_claw.Compression.Truncation.{truncate_large_items-characters}
use fairy_claw.Compression.Fits.{head_of, fits, compress_history-keeps, compress_history-ends}

abbrev round : String → ToolCallRound
round result = record {
  tool_name = "read";
  call_id = "tc_1_a";
  arguments_json = "{}";
  tool_result = result;
  success = true;
}

abbrev task : ChatHistoryItem
task = block (record { role = user; body = text_body "look at the picture" })

abbrev picture : ChatHistoryItem
picture = block (record {
  role = user;
  body = segments_body (text_segment "here" ∷ image_url_segment "data:image/png;base64,AAAA" ∷ []);
})

abbrev answer : ChatHistoryItem
answer = block (record { role = assistant; body = text_body "done" })

abbrev long_round : ToolCallRound
long_round = round "abcdefghijklmnopqrstuvwxyz"

abbrev history : List ChatHistoryItem
history = task ∷ tool long_round ∷ picture ∷ tool (round "a") ∷ answer ∷ tool (round "b") ∷ []

abbrev count : List LlmChatMessage → ℕ
count [] = 0
count (m ∷ ms) = elim m.content [ of_text s ↦ 1 + characters s + count ms | c ↦ 40 + count ms ]

abbrev smaller : String → Option String
smaller url = some "data:image/jpeg;base64,A"

abbrev store : Store
store = record {
  fingerprint = λ s. "";
  restored = [];
  unload_id = λ m i ss. "u1";
  guard_messages = 2;
  decimal = λ n. "1";
}

abbrev config : Config
config = record { recency_window = 3; tool_result_max_chars = 10; assistant_message_max_chars = 10 }

abbrev turn : Turn
turn = record {
  is_sub_session = true;
  history_items = history;
  llm_messages = [];
  user_turn = none;
}

abbrev kept : List ChatHistoryItem
kept = (compress_history count smaller store config 40 turn).0

latest_turn_test : latest_turn history ≡ answer ∷ tool (round "b") ∷ []
unfolding latest_turn
latest_turn_test = refl

suffix_test : latest_turn_suffix_length history ≡ 2
unfolding latest_turn_suffix_length fairy_claw.Compression.leading_rounds
suffix_test = refl

truncate_test : length kept ≡ 4
unfolding compress_history fairy_claw.Compression.Hook.rebuild_messages
    fairy_claw.Compression.Hook.insert_extra fairy_claw.Compression.Hook.extract_system_messages
    fairy_claw.Assembler.assemble fairy_claw.Assembler.assemble_from truncate_large_items
    fairy_claw.Compression.Hook.truncate_from latest_turn_suffix_length
    fairy_claw.Compression.leading_rounds fairy_claw.Compression.first_user_message_exclusive_end
    compress_item fairy_claw.Compression.Images.compress_body fairy_claw.History.body_openai_content
    fairy_claw.Compression.Hook.truncate_item fairy_claw.Assembler.collect_consecutive_tool_rounds
    fairy_claw.Assembler.collect fairy_claw.Assembler.tool_call_ordinal fairy_claw.Base.contains
    fairy_claw.Base.join fairy_claw.Base.lstrip fairy_claw.Base.rstrip fairy_claw.Base.strip
    fairy_claw.Compression.Hook.drop_loop unload_loop fairy_claw.Compression.Hook.window
    fairy_claw.Compression.Images.compress_segment fairy_claw.Compression.Images.compress_segments
    fairy_claw.Compression.Images.data_url fairy_claw.Compression.Images.replace_body
    fairy_claw.Compression.Images.split_segments fairy_claw.Compression.Images.unload_between
    fairy_claw.Compression.Images.unload_oldest_image_message fairy_claw.Compression.find_between
    fairy_claw.Compression.find_droppable_index fairy_claw.Compression.keep_recent_history
    fairy_claw.Compression.message_blocks fairy_claw.Compression.recent
    fairy_claw.Compression.truncate_assistant_message fairy_claw.Compression.truncate_text
    fairy_claw.Compression.user_end_from fairy_claw.History.body_plain_text
    fairy_claw.History.chunks_of fairy_claw.History.file_segment_llm_text
    fairy_claw.History.from_segments fairy_claw.History.segment_chunk
    fairy_claw.History.segments_need_openai_multipart fairy_claw.History.to_dict fairy_claw.Json.get
    fairy_claw.Compression.Images.placeholder_of
truncate_test = refl

compress_history-keeps_example :
    latest_turn kept ≡ map (compress_item smaller) (latest_turn history)
    × take (head_of turn history) kept
      ≡ map (compress_item smaller) (take (head_of turn history) history)
compress_history-keeps_example = compress_history-keeps count smaller store config 40 turn

compress_history-ends_example : IsDropped (fits count 40 turn) (head_of turn history) kept
compress_history-ends_example = compress_history-ends count smaller store config 40 turn

ten_not_zero : config.tool_result_max_chars ≢ 0
ten_not_zero = omega arith

before_latest_turn : 1 + length (latest_turn history) < length history
unfolding latest_turn
before_latest_turn = omega arith

behind_head : 1 ≤ 1
behind_head = omega arith

truncate_large_items-characters_example :
    (r : ToolCallRound) × get_elem? (truncate_large_items smaller config 1 history) 1
      ≡ some (tool r)
    × characters r.tool_result ≤ 10 + 15
    × characters r.arguments_json ≤ 10 + 15
    × r.call_id ≡ "tc_1_a"
truncate_large_items-characters_example =
    truncate_large_items-characters smaller config 1 history 1 long_round ten_not_zero refl
      before_latest_turn behind_head
