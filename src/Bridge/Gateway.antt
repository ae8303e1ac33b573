-- ===== src/Bridge/Gateway.antt =====
-- `UserGateway` of fairyclaw/bridge/user_gateway.py: its state, the messages that it pushes and its
-- answer to each frame. A socket is a number. The frames that go out on the socket are values; the
-- texts of errors, the time stamps and the limits of the handshake are left out. `none` as the new
-- state of a handler is an exception, after which the connection is closed.
use fairy_claw.Base.{
  ℕ, ◌-◌, String, Bool, true, false, not, ◌&&◌, ◌||◌, Option, none, some, List, [], ◌∷◌, ◌++◌,
  if◌then◌else◌, ◌==◌, str_eq, mem_text, length, drop, keep, map, nonempty, strip,
}
use fairy_claw.Json
use fairy_claw.Json.{Json, Object, text, truthy, end, field, obj, obj_or_empty, null}
use fairy_claw.Files.{
  Bytes, StoredFile, Service, PutInit, PutAck, put_init, put_chunk, put_commit, file_not_found,
  chunks, FileChunk, get_chunks,
}
use fairy_claw.Bridge.Recent.{RecentFrameSet, add, has}
use fairy_claw.Bridge.Messages.{
  GatewayOutboundMessage, to_payload, inbound_from_payload, str_or_empty, str_or_none, text_message,
}
use fairy_claw.Bridge.Ingress.{Ingress, submit_message, open_session}

pub record BridgeFrame : Type 0 where
  pub type : String
  pub payload : Object
  pub id : String

pub record UserGateway : Type 0 where
  pub active_websocket : Option ℕ
  pub active_gateway_id : Option String
  pub connection_id : Option String
  pub processed_inbound : RecentFrameSet
  pub acked_outbound : List String
  pub backlog_size : ℕ
  pub outbound_backlog : List BridgeFrame
  pub ingress : Ingress
  pub files : Service

-- What the code asks of the outside: the token and the size of a chunk of the settings, Python's `str`
-- and `int` of a JSON value, Base64, SHA-256, the description of an uploaded file, the control service,
-- where there is one (`none` as its answer is an exception), and whether the store opens a session.
pub record Outside : Type 0 where
  pub bridge_token : String
  pub max_chunk_bytes : ℕ
  pub str : Json → String
  pub int : Json → Option ℕ
  pub b64decode : String → Option Bytes
  pub sha256_hex : Bytes → String
  pub describe : StoredFile → String
  pub control : Option (String → Object → Option Object)
  pub opens : Bool

-- What goes out on a socket.
pub data Sent : Type 0 where
  outbound : BridgeFrame → Sent
  hello_ack : Bool → String → Sent
  session_open_ack : String → Option String → Sent
  ack : String → String → String → Sent
  control_ack : String → Option Object → Sent
  file_put_ack : String → PutAck → Sent
  file_get_chunk : FileChunk → Sent
  file_get_ack : String → Bool → Sent
  heartbeat : Object → Sent
  error : String → Sent
  close : Sent

-- `deque.append` with a greatest length.
unfoldable pub append_bounded : ℕ → List BridgeFrame → BridgeFrame → List BridgeFrame
append_bounded size frames f = let longer = frames ++ f ∷ [] in drop (length longer - size) longer

-- `push_outbound` of a message whose route is filled in, with the id of its frame: what goes out.
unfoldable pub push_outbound :
    UserGateway → String → GatewayOutboundMessage → UserGateway × List Sent
push_outbound g frame_id message =
    let frame : BridgeFrame = record {
      type = "outbound";
      payload = to_payload message;
      id = frame_id;
    } in
    (
      record g { outbound_backlog = append_bounded g.backlog_size g.outbound_backlog frame },
      (elim g.active_websocket [ none ↦ [] | some w ↦ outbound frame ∷ [] ]),
    )

unfoldable pub emit_assistant_text :
    UserGateway → String → String → String → UserGateway × List Sent
emit_assistant_text g frame_id session_id s =
    if not (nonempty (strip s))
    then (g, [])
    else push_outbound g frame_id (text_message session_id (strip s))

unfoldable pub replay_backlog : UserGateway → List Sent
replay_backlog g =
    map outbound (keep (λ f. not (mem_text f.id g.acked_outbound)) g.outbound_backlog)

-- The end of `handle_connection`.
unfoldable pub disconnect : UserGateway → ℕ → UserGateway
disconnect g websocket =
    let active : Bool = elim g.active_websocket [ none ↦ false | some w ↦ w == websocket ] in
    if active
    then record g { active_websocket = none; active_gateway_id = none; connection_id = none }
    else g

abbrev pub is_token : String → Json → Bool
is_token token (text s) = str_eq s token
is_token token v = false

unfoldable pub handle_hello : Outside → UserGateway → ℕ → String → Object → UserGateway × List Sent
handle_hello o g websocket connection_id payload =
    if not (is_token o.bridge_token (Json.get payload "token"))
    then (g, hello_ack false "" ∷ close ∷ [])
    else (
      record g {
        active_websocket = some websocket;
        active_gateway_id = some (str_or_empty o.str (Json.get payload "gateway_id"));
        connection_id = some connection_id;
      },
      hello_ack true connection_id ∷ [],
    )

unfoldable pub handle_inbound : Outside → UserGateway → BridgeFrame → UserGateway × List Sent
handle_inbound o g frame =
    let failed : UserGateway × List Sent = (g, ack "inbound" frame.id "failed" ∷ []) in
    if has g.processed_inbound frame.id
    then (g, ack "inbound" frame.id "duplicate" ∷ [])
    else elim (inbound_from_payload o.str frame.payload) [
      | none ↦ failed
      | some message ↦ elim (submit_message o.str o.describe g.files.files g.ingress message) [
        | none ↦ failed
        | some ingress ↦ (
          record g { ingress = ingress; processed_inbound = add g.processed_inbound frame.id },
          ack "inbound" frame.id "ok" ∷ [],
        )
      ]
    ]

unfoldable pub handle_ack : Outside → UserGateway → Object → UserGateway
handle_ack o g payload =
    let ref_type = str_or_empty o.str (Json.get payload "ref_type") in
    let ref_id = str_or_empty o.str (Json.get payload "ref_id") in
    let status = str_or_empty o.str (Json.get payload "status") in
    if str_eq ref_type "outbound" && (str_eq status "ok" || str_eq status "duplicate")
    then record g {
      acked_outbound =
          if mem_text ref_id g.acked_outbound
          then g.acked_outbound
          else g.acked_outbound ++ ref_id ∷ [];
    }
    else g

unfoldable pub handle_session_open :
    Outside → UserGateway → BridgeFrame → String → UserGateway × List Sent
handle_session_open o g frame session_id =
    if o.opens
    then (
      record g { ingress = open_session g.ingress session_id },
      session_open_ack frame.id (some session_id) ∷ [],
    )
    else (g, session_open_ack frame.id none ∷ [])

unfoldable pub handle_control : Outside → BridgeFrame → List Sent
handle_control o frame = elim o.control [
  | none ↦ control_ack frame.id none ∷ []
  | some handle ↦
      control_ack frame.id (
        handle (str_or_empty o.str (Json.get frame.payload "op"))
          (obj_or_empty (Json.get frame.payload "body")))
      ∷ []
]

-- `int(payload.get(key) or 0)`
abbrev pub int_or_zero : Outside → Object → String → Option ℕ
int_or_zero o payload key = let v = Json.get payload key in if truthy v then o.int v else some 0

-- The answers to the frames of a file transfer; `upload_id` and `file_id` are the ids that are drawn.
unfoldable pub handle_put_init :
    Outside → UserGateway → BridgeFrame → String → Option (UserGateway × List Sent)
handle_put_init o g frame upload_id =
    let p = frame.payload in
    elim (int_or_zero o p "size_bytes") [
      | none ↦ none
      | some size ↦
          let request : PutInit = record {
            session_id = str_or_empty o.str (Json.get p "session_id");
            adapter_key = str_or_empty o.str (Json.get p "adapter_key");
            message_id = str_or_empty o.str (Json.get p "message_id");
            filename = str_or_empty o.str (Json.get p "filename");
            mime_type = str_or_none o.str (Json.get p "mime_type");
            size_bytes = size;
            sha256_hex = str_or_empty o.str (Json.get p "sha256_hex");
          } in
          let (files, answer) = put_init g.files request upload_id in
          some (record g { files = files }, file_put_ack frame.id answer ∷ [])
    ]

abbrev pub put_answer :
    UserGateway → String → Option (Service × PutAck) → Option (UserGateway × List Sent)
put_answer g id none = none
put_answer g id (some (files, answer)) =
    some (record g { files = files }, file_put_ack id answer ∷ [])

unfoldable pub handle_put_chunk :
    Outside → UserGateway → BridgeFrame → Option (UserGateway × List Sent)
handle_put_chunk o g frame =
    let p = frame.payload in
    elim (int_or_zero o p "seq") [
      | none ↦ none
      | some seq ↦ elim (int_or_zero o p "chunk_bytes") [
        | none ↦ none
        | some chunk_bytes ↦ put_answer g frame.id (
            put_chunk o.b64decode g.files (str_or_empty o.str (Json.get p "upload_id")) seq
              (str_or_empty o.str (Json.get p "data_b64")) chunk_bytes)
      ]
    ]

unfoldable pub handle_put_commit :
    Outside → UserGateway → BridgeFrame → String → Option (UserGateway × List Sent)
handle_put_commit o g frame file_id =
    let p = frame.payload in
    elim (int_or_zero o p "total_chunks") [
      | none ↦ none
      | some total ↦ put_answer g frame.id (
          put_commit o.sha256_hex g.files (str_or_empty o.str (Json.get p "upload_id")) total
            file_id)
    ]

unfoldable pub handle_get : Outside → UserGateway → BridgeFrame → Option (List Sent)
handle_get o g frame =
    let p = frame.payload in
    elim (get_chunks g.files (str_or_empty o.str (Json.get p "file_id"))
      (str_or_empty o.str (Json.get p "session_id")) o.max_chunk_bytes) [
        | none ↦ none
        | some file_not_found ↦ some (file_get_ack frame.id false ∷ [])
        | some (chunks cs) ↦ some (map file_get_chunk cs ++ file_get_ack frame.id true ∷ [])
      ]

abbrev pub answer_only : UserGateway → Option (List Sent) → Option (UserGateway × List Sent)
answer_only g none = none
answer_only g (some sent) = some (g, sent)

-- The frames that the business side knows.
pub data FrameType : Type 0 where
  hello resume session_open inbound gateway_control : FrameType
  file_put_init file_put_chunk file_put_commit file_get : FrameType
  acknowledge beat unsupported : FrameType

unfoldable pub frame_type_of : String → FrameType
frame_type_of s =
    if str_eq s "hello"
    then hello
    else if str_eq s "resume"
    then resume
    else if str_eq s "session_open"
    then session_open
    else if str_eq s "inbound"
    then inbound
    else if str_eq s "gateway_control"
    then gateway_control
    else if str_eq s "file_put_init"
    then file_put_init
    else if str_eq s "file_put_chunk"
    then file_put_chunk
    else if str_eq s "file_put_commit"
    then file_put_commit
    else if str_eq s "file_get"
    then file_get
    else if str_eq s "ack"
    then acknowledge
    else if str_eq s "heartbeat"
    then beat
    else unsupported

-- `_handle_frame` by the type of the frame; `new_id` is the id that the answer draws, where it draws one.
unfoldable pub handle :
    Outside → UserGateway → ℕ → String → BridgeFrame → FrameType → Option (UserGateway × List Sent)
handle o g websocket new_id frame hello = some (handle_hello o g websocket new_id frame.payload)
handle o g websocket new_id frame resume = some (g, replay_backlog g)
handle o g websocket new_id frame session_open = some (handle_session_open o g frame new_id)
handle o g websocket new_id frame inbound = some (handle_inbound o g frame)
handle o g websocket new_id frame gateway_control = some (g, handle_control o frame)
handle o g websocket new_id frame file_put_init = handle_put_init o g frame new_id
handle o g websocket new_id frame file_put_chunk = handle_put_chunk o g frame
handle o g websocket new_id frame file_put_commit = handle_put_commit o g frame new_id
handle o g websocket new_id frame file_get = answer_only g (handle_get o g frame)
handle o g websocket new_id frame acknowledge = some (handle_ack o g frame.payload, [])
handle o g websocket new_id frame beat = some (g, heartbeat frame.payload ∷ [])
handle o g websocket new_id frame unsupported =
    some (g, error "invalid_frame" ∷ ack "frame" frame.id "invalid" ∷ [])

abbrev pub handle_frame :
    Outside → UserGateway → ℕ → String → BridgeFrame → Option (UserGateway × List Sent)
handle_frame o g websocket new_id frame =
    handle o g websocket new_id frame (frame_type_of frame.type)

-- One turn of the loop of `handle_connection` on a frame: an exception ends the connection.
unfoldable pub turn : Outside → UserGateway → ℕ → String → BridgeFrame → UserGateway × List Sent
turn o g websocket new_id frame = elim (handle_frame o g websocket new_id frame) [
  | none ↦ (disconnect g websocket, close ∷ [])
  | some (g', sent) ↦ (g', sent)
]
