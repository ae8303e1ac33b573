-- ===== src/Bridge/Messages.antt =====
-- The messages of fairyclaw/core/gateway_protocol/models.py that users' adapters send and receive, and
-- `ContentSegment.from_dict` of fairyclaw/core/domain.py. Python's `str` of a value that is no text is
-- an argument; a field of a segment that is neither a text nor an object is read as missing.
use fairy_claw.Base.{
  ◌≡◌, refl, String, Bool, true, not, Option, none, some, List, [], ◌∷◌, if◌then◌else◌, str_eq,
  nonempty, strip,
}
use fairy_claw.Json
use fairy_claw.Json.{
  Json, Object, Items, null, text, obj, arr, nil, cons, end, field, truthy, obj_or_empty,
  filled_texts, texts_of, bool,
}
use fairy_claw.History.{ContentSegment, SegmentType, plain, image_url, file, code_block}

-- `data[key] = value`
unfoldable pub put_key : Object → String → Json → Object
put_key end k v = field k v end
put_key (field j w o) k v = if str_eq j k then field j v o else field j w (put_key o k v)

-- `str(value)`, `str(value or "")`, and `None` for `None`.
abbrev pub str_of : (Json → String) → Json → String
str_of str (text s) = s
str_of str v = str v

abbrev pub str_or_empty : (Json → String) → Json → String
str_or_empty str v = if truthy v then str_of str v else ""

abbrev pub str_or_none : (Json → String) → Json → Option String
str_or_none str null = none
str_or_none str v = some (str_of str v)

-- `dict(value) if isinstance(value, dict) else None`, and a text.
abbrev pub obj_or_none : Json → Option Object
obj_or_none (obj o) = some o
obj_or_none v = none

abbrev pub text_or_none : Json → Option String
text_or_none (text s) = some s
text_or_none v = none

pub record GatewayOutboundMessage : Type 0 where
  pub session_id : String
  pub kind : String
  pub content : Object
  pub meta : Object
  pub adapter_key : Option String
  pub sender_ref : Option Object

abbrev with_adapter_key : Option String → Object → Object
with_adapter_key none o = o
with_adapter_key (some k) o = field "adapter_key" (text k) o

abbrev with_sender_ref : Option Object → Object
with_sender_ref none = end
with_sender_ref (some r) = field "sender_ref" (obj r) end

unfoldable pub to_payload : GatewayOutboundMessage → Object
to_payload m = field "session_id" (text m.session_id) (
    field "kind" (text m.kind) (
      field "content" (obj m.content) (
        field "meta" (obj m.meta) (with_adapter_key m.adapter_key (with_sender_ref m.sender_ref)))))

unfoldable pub text_message : String → String → GatewayOutboundMessage
text_message session_id s = record {
  session_id = session_id;
  kind = "text";
  content = field "text" (text s) end;
  meta = end;
  adapter_key = none;
  sender_ref = none;
}

unfoldable pub file_message : String → String → GatewayOutboundMessage
file_message session_id file_id = record {
  session_id = session_id;
  kind = "file";
  content = field "file_id" (text file_id) end;
  meta = end;
  adapter_key = none;
  sender_ref = none;
}

unfoldable pub event_message : String → String → Object → GatewayOutboundMessage
event_message session_id event_type content = record {
  session_id = session_id;
  kind = "event";
  content = put_key content "event_type" (text event_type);
  meta = end;
  adapter_key = none;
  sender_ref = none;
}

-- `str(ak_raw).strip() if isinstance(ak_raw, str) and str(ak_raw).strip() else None`
abbrev pub stripped_key : Json → Option String
stripped_key (text s) = if nonempty (strip s) then some (strip s) else none
stripped_key v = none

unfoldable pub outbound_from_payload : (Json → String) → Object → GatewayOutboundMessage
outbound_from_payload str payload = record {
  session_id = str_or_empty str (Json.get payload "session_id");
  kind = str_or_empty str (Json.get payload "kind");
  content = obj_or_empty (Json.get payload "content");
  meta = obj_or_empty (Json.get payload "meta");
  adapter_key = stripped_key (Json.get payload "adapter_key");
  sender_ref = obj_or_none (Json.get payload "sender_ref");
}

pub record GatewaySenderRef : Type 0 where
  pub platform : Option String
  pub user_id : Option String
  pub group_id : Option String
  pub self_id : Option String

unfoldable pub sender_from_dict : (Json → String) → Json → Option GatewaySenderRef
sender_from_dict str (obj o) = some (record {
  platform = str_or_none str (Json.get o "platform");
  user_id = str_or_none str (Json.get o "user_id");
  group_id = str_or_none str (Json.get o "group_id");
  self_id = str_or_none str (Json.get o "self_id");
})
sender_from_dict str v = none

pub record GatewayInboundMessage : Type 0 where
  pub session_id : String
  pub adapter_key : String
  pub segments : List ContentSegment
  pub trigger_turn : Bool
  pub sender : Option GatewaySenderRef
  pub task_type : Option String
  pub enabled_groups : Option (List String)
  pub meta : Object

-- `SegmentType(str(value))`; `none` is the exception.
unfoldable pub segment_type_of : String → Option SegmentType
segment_type_of s =
    if str_eq s "text"
    then some plain
    else if str_eq s "image_url"
    then some image_url
    else if str_eq s "file"
    then some file
    else if str_eq s "code_block"
    then some code_block
    else none

unfoldable pub segment_from_dict : (Json → String) → Object → Option ContentSegment
segment_from_dict str o = elim (segment_type_of (str_of str (Json.get o "type"))) [
  | none ↦ none
  | some t ↦ some (record {
    type = t;
    text = text_or_none (Json.get o "text");
    image = obj_or_none (Json.get o "image_url");
    file_id = text_or_none (Json.get o "file_id");
    file_kind_description = text_or_none (Json.get o "file_kind_description");
  })
]

-- The segments of a message: what is no object, or has no type, is passed over.
unfoldable pub segments_from : (Json → String) → Items → Option (List ContentSegment)
segments_from str nil = some []
segments_from str (cons (obj o) items) =
    let rest = segments_from str items in
    if not (truthy (Json.get o "type")) then rest else elim (segment_from_dict str o) [
      | none ↦ none
      | some s ↦ elim rest [ none ↦ none | some ss ↦ some (s ∷ ss) ]
    ]
segments_from str (cons v items) = segments_from str items

abbrev items_or_empty : Json → Items
items_or_empty (arr items) = items
items_or_empty v = nil

abbrev stripped_text : Json → Option String
stripped_text (text s) = some (strip s)
stripped_text v = none

unfoldable pub inbound_from_payload : (Json → String) → Object → Option GatewayInboundMessage
inbound_from_payload str payload =
    elim (segments_from str (items_or_empty (Json.get payload "segments"))) [
      | none ↦ none
      | some segments ↦ some (record {
        session_id = str_or_empty str (Json.get payload "session_id");
        adapter_key = str_or_empty str (Json.get payload "adapter_key");
        segments = segments;
        trigger_turn = truthy (Json.get payload "trigger_turn");
        sender = sender_from_dict str (Json.get payload "sender");
        task_type = stripped_text (Json.get payload "task_type");
        enabled_groups = texts_of (Json.get payload "enabled_groups");
        meta = obj_or_empty (Json.get payload "meta");
      })
    ]

-- A key that reads back as it is.
unfoldable pub IsReadable : Option String → Type 0
IsReadable none = Unit
IsReadable (some k) = nonempty k ≡ true × strip k ≡ k

str_or_empty-text : (str : Json → String) (s : String) → str_or_empty str (text s) ≡ s
str_or_empty-text str String.[] = refl
str_or_empty-text str (String.◌∷◌ c s) = refl

adapter_key-again :
    (k : Option String) (r : Option Object)
    → IsReadable k
    → stripped_key (Json.get (with_adapter_key k (with_sender_ref r)) "adapter_key") ≡ k
unfolding IsReadable Json.get
adapter_key-again none none h = refl
adapter_key-again none (some r) h = refl
adapter_key-again (some k) r (filled, stripped) = rw (stripped, filled) refl

sender_ref-again :
    (k : Option String) (r : Option Object)
    → obj_or_none (Json.get (with_adapter_key k (with_sender_ref r)) "sender_ref") ≡ r
unfolding Json.get
sender_ref-again none none = refl
sender_ref-again none (some r) = refl
sender_ref-again (some k) none = refl
sender_ref-again (some k) (some r) = refl

-- A message to a user is read back from its payload as it was sent, whatever its content, if its
-- adapter key, where it has one, is not empty and has no space at its ends.
pub outbound_from_payload-to_payload :
    (str : Json → String) (m : GatewayOutboundMessage)
    → IsReadable m.adapter_key
    → outbound_from_payload str (to_payload m) ≡ m
unfolding outbound_from_payload to_payload IsReadable Json.get
outbound_from_payload-to_payload str m h = simp (
  str_or_empty-text str m.session_id,
  str_or_empty-text str m.kind,
  adapter_key-again m.adapter_key m.sender_ref h,
  sender_ref-again m.adapter_key m.sender_ref,
)
