-- ===== src/Bridge/Ingress.antt =====
-- `GatewayIngressService` of fairyclaw/core/gateway_protocol/ingress.py: a message of a user goes into
-- the history of its session, and an event that asks for a turn is published. The sessions, the
-- histories and the published events are the state; the description of an uploaded file is an argument.
use fairy_claw.Base.{
  String, Bool, true, false, not, ◌&&◌, Option, none, some, List, [], ◌∷◌, ◌++◌, if◌then◌else◌,
  append, mem_text, not_empty, strip, nonempty, map,
}
use fairy_claw.Json
use fairy_claw.Json.{Json, Object, Items, null, bool, text, arr, obj, nil, cons, end, field}
use fairy_claw.History.{
  ContentSegment, file, SessionMessageBlock, user, from_segments, has_text, text_or_empty,
}
use fairy_claw.Files.{StoredFile, get_for_session}
use fairy_claw.Bridge.Messages.{GatewayInboundMessage, str_or_empty}

-- What a published `user_message_received` event holds.
pub record Published : Type 0 where
  pub session_id : String
  pub payload : Object
  pub source : String

pub record Ingress : Type 0 where
  pub sessions : List String
  pub history : List (String × SessionMessageBlock)
  pub published : List Published

-- A file segment that has an id and no description yet.
abbrev pub needs_description : ContentSegment → Bool
needs_description s =
    (elim s.type [ file ↦ true | t ↦ false ])
    && has_text s.file_id
    && not (
        has_text s.file_kind_description
        && nonempty (strip (text_or_empty s.file_kind_description)))

abbrev described : String → String → ContentSegment
described file_id description = record {
  type = file;
  text = none;
  image = none;
  file_id = some file_id;
  file_kind_description = some description;
}

-- One turn of the loop of `_enrich_inbound_file_segments`. Where no segment needs a description, the
-- loop leaves all as they are, as the early return does.
unfoldable pub enrich_segment :
    (StoredFile → String) → List StoredFile → String → ContentSegment → ContentSegment
enrich_segment describe files session_id s =
    if not (needs_description s)
    then s
    else elim (get_for_session files (text_or_empty s.file_id) session_id) [
      | none ↦ s
      | some f ↦ described (text_or_empty s.file_id) (describe f)
    ]

unfoldable pub enrich_inbound_file_segments :
    (StoredFile → String) → List StoredFile → String → List ContentSegment → List ContentSegment
enrich_inbound_file_segments describe files session_id segments =
    map (enrich_segment describe files session_id) segments

abbrev as_text : Option String → Json
as_text none = null
as_text (some s) = text s

abbrev items_of : List String → Items
items_of [] = nil
items_of (g ∷ gs) = cons (text g) (items_of gs)

abbrev as_list : Option (List String) → Json
as_list none = null
as_list (some gs) = arr (items_of gs)

pub event_of : (Json → String) → GatewayInboundMessage → Published
event_of str m = record {
  session_id = m.session_id;
  payload = field "trigger_turn" (bool true) (
      field "task_type" (as_text m.task_type) (
        field "enabled_groups" (as_list m.enabled_groups) (
          field "gateway_message_id" (text (str_or_empty str (Json.get m.meta "message_id")))
            (field "adapter_key" (text m.adapter_key) end))));
  source = append "gateway:" m.adapter_key;
}

-- `submit_message`; `none` is the exception, which is raised before anything is stored.
unfoldable pub submit_message :
    (Json → String)
    → (StoredFile → String)
    → List StoredFile
    → Ingress
    → GatewayInboundMessage
    → Option Ingress
submit_message str describe files s m =
    let enriched = enrich_inbound_file_segments describe files m.session_id m.segments in
    let published = if m.trigger_turn then s.published ++ event_of str m ∷ [] else s.published in
    if not (mem_text m.session_id s.sessions)
    then none
    else if not_empty m.segments
    then elim (from_segments user enriched) [
      | none ↦ none
      | some block ↦
          some
            (record s { history = s.history ++ (m.session_id, block) ∷ []; published = published })
    ]
    else some (record s { published = published })

-- `open_session`, with the id that is drawn.
unfoldable pub open_session : Ingress → String → Ingress
open_session s session_id = record s { sessions = s.sessions ++ session_id ∷ [] }
