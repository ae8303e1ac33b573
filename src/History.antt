-- ===== src/History.antt =====
-- fairyclaw/core/agent/context/history_ir.py: the history of a session as the planner sees it, with
-- the content segments of fairyclaw/core/domain.py. The dictionaries of a message's parts are JSON
-- objects; `json.dumps` and the text of a tool result are arguments.
use fairy_claw.Base.{
  ◌-◌, String, Bool, true, false, Option, none, some, List, [], ◌∷◌, if◌then◌else◌, str_eq, append,
  nonempty, strip, lower, join, characters, drop_chars, any, map,
}
use fairy_claw.Json
use fairy_claw.Json.{Json, Object, end, field, text, obj}

pub data SegmentType : Type 0 where
  plain image_url file code_block : SegmentType

pub record ContentSegment : Type 0 where
  pub type : SegmentType
  pub text : Option String
  pub image : Option Object
  pub file_id : Option String
  pub file_kind_description : Option String

abbrev pub text_segment : String → ContentSegment
text_segment s = record {
  type = plain;
  text = some s;
  image = none;
  file_id = none;
  file_kind_description = none;
}

abbrev pub image_url_segment : String → ContentSegment
image_url_segment url = record {
  type = image_url;
  text = none;
  image = some (field "url" (text url) end);
  file_id = none;
  file_kind_description = none;
}

abbrev pub type_value : SegmentType → String
type_value plain = "text"
type_value image_url = "image_url"
type_value file = "file"
type_value code_block = "code_block"

-- A key that is left out where its value is `None`.
abbrev optional : String → Option Json → Object → Object
optional k none o = o
optional k (some v) o = field k v o

abbrev as_text : Option String → Option Json
as_text none = none
as_text (some s) = some (text s)

abbrev as_object : Option Object → Option Json
as_object none = none
as_object (some o) = some (obj o)

unfoldable pub to_dict : ContentSegment → Object
to_dict s = field "type" (text (type_value s.type)) (
    optional "text" (as_text s.text) (
      optional "image_url" (as_object s.image) (
        optional "file_id" (as_text s.file_id)
          (optional "file_kind_description" (as_text s.file_kind_description) end))))

-- `bool(value)` and `value or ""` of an optional text.
abbrev pub has_text : Option String → Bool
has_text none = false
has_text (some s) = nonempty s

abbrev pub text_or_empty : Option String → String
text_or_empty none = ""
text_or_empty (some s) = s

file_usage : String → String
file_usage file_id = append "Session file ID (copy exactly, do not truncate or invent): " (
    append file_id
      "\nWhen passing this file to a sub-agent, put this ID unchanged in the delegate_task attachments array. You can call list_session_files to verify first. Do not use a file_id_ prefix or fabricated IDs.")

unfoldable pub file_segment_llm_text : ContentSegment → String
unfolding file_usage
file_segment_llm_text s =
    let hint = strip (text_or_empty s.file_kind_description) in
    let usage = file_usage (strip (text_or_empty s.file_id)) in
    if nonempty hint
    then append hint (append "\n\n" usage)
    else append "The user uploaded a session file.\n\n" usage

abbrev pub is_image : ContentSegment → Bool
is_image s = elim s.type [ image_url ↦ true | t ↦ false ]

abbrev is_multipart : ContentSegment → Bool
is_multipart s = elim s.type [ plain ↦ false | file ↦ false | t ↦ true ]

unfoldable pub segments_need_openai_multipart : List ContentSegment → Bool
segments_need_openai_multipart segments = any is_multipart segments

pub data SessionMessageRole : Type 0 where
  system user assistant : SessionMessageRole

abbrev pub role_value : SessionMessageRole → String
role_value system = "system"
role_value user = "user"
role_value assistant = "assistant"

unfoldable pub from_value : String → SessionMessageRole
from_value value =
    let role = lower (strip value) in
    if str_eq role "system" then system else if str_eq role "user" then user else assistant

pub data MessageBody : Type 0 where
  text_body : String → MessageBody
  segments_body : List ContentSegment → MessageBody

-- The text that a segment adds to the plain text, or to the content of a message without images.
unfoldable pub segment_chunk : ContentSegment → Option String
segment_chunk s = elim s.type [
  | plain ↦ if has_text s.text then s.text else none
  | file ↦ if has_text s.file_id then some (file_segment_llm_text s) else none
  | t ↦ none
]

unfoldable pub chunks_of : List ContentSegment → List String
chunks_of [] = []
chunks_of (s ∷ ss) =
    let rest = chunks_of ss in elim (segment_chunk s) [ none ↦ rest | some c ↦ c ∷ rest ]

unfoldable pub body_plain_text : MessageBody → String
body_plain_text (text_body s) = s
body_plain_text (segments_body ss) = strip (join "\n" (chunks_of ss))

-- The content of a message for the provider: a text, or a list of parts.
pub data Content : Type 0 where
  of_text : String → Content
  of_items : List Object → Content

openai_item : ContentSegment → Object
openai_item s = elim s.type [
  | file ↦
      if has_text s.file_id
      then field "type" (text "text") (field "text" (text (file_segment_llm_text s)) end)
      else to_dict s
  | t ↦ to_dict s
]

unfoldable pub body_openai_content : MessageBody → Content
unfolding openai_item
body_openai_content (text_body s) = of_text s
body_openai_content (segments_body ss) =
    if segments_need_openai_multipart ss
    then of_items (map openai_item ss)
    else of_text (join "\n\n" (chunks_of ss))

pub record SessionMessageBlock : Type 0 where
  pub role : SessionMessageRole
  pub body : MessageBody

unfoldable pub from_segments : SessionMessageRole → List ContentSegment → Option SessionMessageBlock
from_segments role [] = none
from_segments role (s ∷ []) = elim s.type [
  | plain ↦ some (record { role = role; body = text_body (text_or_empty s.text) })
  | t ↦ some (record { role = role; body = segments_body (s ∷ []) })
]
from_segments role (s ∷ s' ∷ ss) = some (record { role = role; body = segments_body (s ∷ s' ∷ ss) })

pub record ToolCallRound : Type 0 where
  pub tool_name : String
  pub call_id : String
  pub arguments_json : String
  pub tool_result : String
  pub success : Bool

unfoldable pub extract_tool_call_id : String → Json → String
extract_tool_call_id event_id tool_args =
    let suffix =
      if nonempty event_id then drop_chars (characters event_id - 6) event_id else "hist" in
    let fallback = append "tc_h_" suffix in
    elim tool_args [ obj o ↦ Json.filled_or (Json.get o "tool_call_id") fallback | v ↦ fallback ]

unfoldable pub extract_arguments_json : (Object → String) → Json → String
extract_arguments_json dumps tool_args = elim tool_args [
  | obj o ↦ Json.filled_or (Json.get o "arguments_json") (dumps o)
  | v ↦ Json.filled_or v "{}"
]

unfoldable pub from_persisted :
    (Object → String) → String → String → Json → Option String → ToolCallRound
from_persisted dumps event_id tool_name tool_args tool_result = record {
  tool_name = tool_name;
  call_id = extract_tool_call_id event_id tool_args;
  arguments_json = extract_arguments_json dumps tool_args;
  tool_result = text_or_empty tool_result;
  success = true;
}

-- An entry of the history.
pub data ChatHistoryItem : Type 0 where
  block : SessionMessageBlock → ChatHistoryItem
  tool : ToolCallRound → ChatHistoryItem

abbrev pub is_block : ChatHistoryItem → Bool
is_block (block m) = true
is_block (tool r) = false
