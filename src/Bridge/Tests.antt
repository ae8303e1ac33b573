-- ===== src/Bridge/Tests.antt =====
-- The bridge on a few frames.
use fairy_claw.Base.{
  ℕ, ◌≡◌, ◌<◌, refl, String, Bool, true, false, Option, none, some, not, List, [], ◌∷◌, map, keep,
  take, length, max, arith,
}
use mathlib.Core.List.{reverse}
use fairy_claw.Json.{Json, Object, text, end, field, arr, nil, cons, obj, bool}
use fairy_claw.Bridge.Recent.{empty, added, distinct, added-distinct}
use fairy_claw.Bridge.Messages.{
  GatewayOutboundMessage, text_message, to_payload, outbound_from_payload,
  outbound_from_payload-to_payload, IsReadable,
}
use fairy_claw.Bridge.Gateway.{
  UserGateway, BridgeFrame, Outside, Sent, outbound, hello_ack, ack, frame_type_of, inbound, resume,
  turn, handle_frame, push_outbound, replay_backlog,
}
use fairy_claw.Bridge.Once.{Arrival, arrivals, status_is, inbound-once}
use fairy_claw.Bridge.Last.{last}
use fairy_claw.Bridge.Replay.{
  Action, push, arrives, gone, actions, was_received, frames_of, replay-pending,
}

abbrev outside : Outside
outside = record {
  bridge_token = "secret";
  max_chunk_bytes = 4;
  str = λ v. "";
  int = λ v. none;
  b64decode = λ s. none;
  sha256_hex = λ b. "";
  describe = λ f. "a file";
  control = none;
  opens = true;
}

abbrev start : UserGateway
start = record {
  active_websocket = none;
  active_gateway_id = none;
  connection_id = none;
  processed_inbound = empty 2048;
  acked_outbound = [];
  backlog_size = 2;
  outbound_backlog = [];
  ingress = record { sessions = "sess_1" ∷ []; history = []; published = [] };
  files = record { uploads = []; files = []; published = [] };
}

abbrev hello_frame : BridgeFrame
hello_frame = record { type = "hello"; payload = field "token" (text "secret") end; id = "frm_1" }

abbrev message_frame : BridgeFrame
message_frame = record {
  type = "inbound";
  payload = field "session_id" (text "sess_1") (
      field "trigger_turn" (bool true) (
        field "segments"
          (arr (cons (obj (field "type" (text "text") (field "text" (text "hi") end))) nil)) end));
  id = "frm_2";
}

abbrev before : List Arrival
before = (1, "conn_1", hello_frame) ∷ []

abbrev later : List Arrival
later =
    (1, "", record { type = "inbound"; payload = end; id = "frm_3" })
    ∷ (2, "conn_2", hello_frame)
    ∷ []

abbrev accepted : Bool
accepted = status_is "ok" (turn outside (arrivals outside start before) 1 "" message_frame).1

message_is_inbound : frame_type_of message_frame.type ≡ inbound
unfolding frame_type_of
message_is_inbound = refl

is_accepted : accepted ≡ true
unfolding turn fairy_claw.Bridge.Gateway.handle frame_type_of
    fairy_claw.Bridge.Gateway.handle_inbound arrivals fairy_claw.Bridge.Gateway.handle_hello
    fairy_claw.Json.get empty fairy_claw.Bridge.Messages.inbound_from_payload
    fairy_claw.Bridge.Messages.segments_from fairy_claw.Bridge.Messages.segment_from_dict
    fairy_claw.Bridge.Messages.segment_type_of fairy_claw.Bridge.Ingress.submit_message
    fairy_claw.History.from_segments fairy_claw.Bridge.Ingress.enrich_inbound_file_segments
    fairy_claw.Bridge.Ingress.enrich_segment
is_accepted = refl

few_later : length later < max 1 2048
few_later = omega arith

inbound-once_example :
    let g =
      arrivals outside (turn outside (arrivals outside start before) 1 "" message_frame).0 later in
    turn outside g 2 "" message_frame ≡ (g, ack "inbound" "frm_2" "duplicate" ∷ [])
inbound-once_example =
    inbound-once outside 2048 start before later 1 2 "" "" message_frame refl message_is_inbound
      is_accepted few_later

added-distinct_example :
    reverse (added 2 ("c" ∷ "a" ∷ "b" ∷ "a" ∷ [])).ids
    ≡ take (max 1 2) (distinct ("c" ∷ "a" ∷ "b" ∷ "a" ∷ []))
added-distinct_example = added-distinct 2 ("c" ∷ "a" ∷ "b" ∷ "a" ∷ [])

abbrev reply : GatewayOutboundMessage
reply = record {
  session_id = "sess_1";
  kind = "text";
  content = field "text" (text "hello") end;
  meta = end;
  adapter_key = some "http";
  sender_ref = none;
}

http_key : IsReadable reply.adapter_key
unfolding IsReadable fairy_claw.Base.strip
http_key = (refl, refl)

outbound_from_payload-to_payload_example :
    outbound_from_payload (λ v. "") (to_payload reply) ≡ reply
outbound_from_payload-to_payload_example = outbound_from_payload-to_payload (λ v. "") reply http_key

abbrev ack_frame : BridgeFrame
ack_frame = record {
  type = "ack";
  payload =
      field "ref_type" (text "outbound")
        (field "ref_id" (text "out_2") (field "status" (text "ok") end));
  id = "frm_7";
}

-- The gateway's socket is lost after an acknowledgement, and another one connects.
abbrev happened : List Action
happened =
    push "out_1" reply
    ∷ arrives 1 "conn_1" hello_frame
    ∷ push "out_2" reply
    ∷ arrives 1 "" ack_frame
    ∷ gone 1
    ∷ push "out_3" reply
    ∷ arrives 2 "conn_2" hello_frame
    ∷ []

abbrev resume_frame : BridgeFrame
resume_frame = record { type = "resume"; payload = end; id = "frm_9" }

replayed_test : length (replay_backlog (actions outside start happened)) ≡ 1
unfolding replay_backlog actions fairy_claw.Bridge.Replay.act push_outbound turn
    fairy_claw.Bridge.Gateway.handle frame_type_of fairy_claw.Bridge.Gateway.handle_hello
    fairy_claw.Bridge.Gateway.append_bounded fairy_claw.Bridge.Gateway.disconnect
    fairy_claw.Bridge.Gateway.handle_ack fairy_claw.Json.get
replayed_test = refl

resumes : frame_type_of resume_frame.type ≡ resume
unfolding frame_type_of
resumes = refl

replay-pending_example :
    let g = actions outside start happened in
    turn outside g 2 "" resume_frame ≡ (
      g,
      map outbound (
          keep
            (λ f. not (was_received outside.str happened f.id))
            (last start.backlog_size (frames_of happened))),
    )
replay-pending_example = replay-pending outside start happened 2 "" resume_frame refl refl resumes
