-- ===== src/Bridge/Replay.antt =====
-- What a gateway that connects again is sent: the messages that were pushed last and that it has not
-- acknowledged.
use mathlib.Core.List.{append_assoc, append-nil}
use fairy_claw.Base.{
  ℕ, if◌then◌else◌, true, ◌-◌, ◌≡◌, refl, ◌∙◌, ap, sym, String, Bool, false, not, ◌&&◌, ◌||◌, List,
  [], ◌∷◌, ◌++◌, arith, str_eq, eq_iff, inl, inr, Bool-cases, mem_text, keep, map,
}
use fairy_claw.Json
use fairy_claw.Json.{Json, Object}
use fairy_claw.Bridge.Messages.{GatewayOutboundMessage, to_payload, str_or_empty}
use fairy_claw.Bridge.Gateway.{
  UserGateway, BridgeFrame, Outside, outbound, append_bounded, push_outbound, replay_backlog,
  handle_ack, disconnect, turn, handle, FrameType, hello, resume, session_open, inbound,
  gateway_control, file_put_init, file_put_chunk, file_put_commit, file_get, acknowledge, beat,
  unsupported, frame_type_of,
}
use fairy_claw.Bridge.Kept.{mem_text-append}
use fairy_claw.Bridge.Outbox.{left_by, turn-outbox, disconnect-outbox}
use fairy_claw.Bridge.Last.{last, drop-nil, last-last}

-- What happens around the outbound side: a message is pushed under an id, a frame arrives on a
-- socket (an acknowledgement, the `hello` of a gateway that connects again, or any other) with the id
-- that its answer draws, or a socket is gone.
pub data Action : Type 0 where
  push : String → GatewayOutboundMessage → Action
  arrives : ℕ → String → BridgeFrame → Action
  gone : ℕ → Action

unfoldable pub act : Outside → UserGateway → Action → UserGateway
act o g (push id m) = (push_outbound g id m).0
act o g (arrives websocket new_id frame) = (turn o g websocket new_id frame).0
act o g (gone websocket) = disconnect g websocket

unfoldable pub actions : Outside → UserGateway → List Action → UserGateway
actions o g [] = g
actions o g (a ∷ later) = actions o (act o g a) later

-- The frames of all the messages pushed.
unfoldable pub frames_of : List Action → List BridgeFrame
frames_of [] = []
frames_of (push id m ∷ later) =
    record { type = "outbound"; payload = to_payload m; id = id } ∷ frames_of later
frames_of (arrives websocket new_id frame ∷ later) = frames_of later
frames_of (gone websocket ∷ later) = frames_of later

-- Whether a frame says that the gateway has an outbound frame, which it names by its id: it is an
-- acknowledgement of type "outbound" with the status "ok" or "duplicate".
abbrev pub says_received : (Json → String) → Object → String → Bool
says_received str p id =
    (str_eq (str_or_empty str (Json.get p "ref_type")) "outbound"
      && (str_eq (str_or_empty str (Json.get p "status")) "ok"
          || str_eq (str_or_empty str (Json.get p "status")) "duplicate"))
    && str_eq (str_or_empty str (Json.get p "ref_id")) id

abbrev pub receipt : (Json → String) → FrameType → Object → String → Bool
receipt str acknowledge p id = says_received str p id
receipt str t p id = false

-- Whether one of the frames that arrived says so.
unfoldable pub was_received : (Json → String) → List Action → String → Bool
was_received str [] id = false
was_received str (push id' m ∷ later) id = was_received str later id
was_received str (arrives websocket new_id frame ∷ later) id =
    receipt str (frame_type_of frame.type) frame.payload id || was_received str later id
was_received str (gone websocket ∷ later) id = was_received str later id

-- Noting an id, or not.
noted :
    (g : UserGateway) (ref_id id : String) (b : Bool)
    → mem_text id
        (if b
          then record g {
            acked_outbound =
                if mem_text ref_id g.acked_outbound
                then g.acked_outbound
                else g.acked_outbound ++ ref_id ∷ [];
          }
          else g).acked_outbound
      ≡ ((b && str_eq ref_id id) || mem_text id g.acked_outbound)
noted g ref_id id true = elim (Bool-cases (mem_text ref_id g.acked_outbound)) [
  | inl e ↦ ground (arith, eq_iff ref_id id)
  | inr e ↦ ground (arith, mem_text-append id g.acked_outbound (ref_id ∷ []))
]
noted g ref_id id false = refl

ack-acked :
    (o : Outside) (g : UserGateway) (p : Object) (id : String)
    → mem_text id (handle_ack o g p).acked_outbound
      ≡ (says_received o.str p id || mem_text id g.acked_outbound)
unfolding handle_ack
ack-acked o g p id = noted g (str_or_empty o.str (Json.get p "ref_id")) id (
    str_eq (str_or_empty o.str (Json.get p "ref_type")) "outbound"
    && (str_eq (str_or_empty o.str (Json.get p "status")) "ok"
        || str_eq (str_or_empty o.str (Json.get p "status")) "duplicate"))

ack-backlog :
    (o : Outside) (g : UserGateway) (p : Object)
    → (handle_ack o g p).outbound_backlog ≡ g.outbound_backlog
      × (handle_ack o g p).backlog_size ≡ g.backlog_size
unfolding handle_ack
ack-backlog o g p = ground arith

push-size :
    (g : UserGateway) (id : String) (m : GatewayOutboundMessage)
    → (push_outbound g id m).0.backlog_size ≡ g.backlog_size
unfolding push_outbound
push-size g id m = refl

push-acked :
    (g : UserGateway) (id : String) (m : GatewayOutboundMessage) (j : String)
    → mem_text j (push_outbound g id m).0.acked_outbound ≡ mem_text j g.acked_outbound
unfolding push_outbound
push-acked g id m j = refl

||-swap : (a b c : Bool) → (a || (b || c)) ≡ ((b || a) || c)
||-swap a b c = ground arith

||-false : (a : Bool) → (a || false) ≡ a
||-false a = ground arith

keep-same :
    (p q : BridgeFrame → Bool)
    → ((f : BridgeFrame) → p f ≡ q f)
    → (fs : List BridgeFrame) → keep p fs ≡ keep q fs
keep-same p q h [] = refl
keep-same p q h (f ∷ fs) = rw (h f, keep-same p q h fs) refl

push-backlog :
    (g : UserGateway) (id : String) (m : GatewayOutboundMessage)
    → (push_outbound g id m).0.outbound_backlog
      ≡ last g.backlog_size
          (g.outbound_backlog ++ record { type = "outbound"; payload = to_payload m; id = id } ∷ [])
unfolding push_outbound append_bounded
push-backlog g id m = refl

-- A frame of any type leaves the backlog, and adds to the acknowledged ids what it says.
module _ (o : Outside) (g : UserGateway) (frame : BridgeFrame) where
  left_by-backlog :
      (t : FrameType)
      → ((left_by o g frame t).0 ≡ g.outbound_backlog)
        × ((left_by o g frame t).1 ≡ g.backlog_size)
        × ((id : String)
            → mem_text id (left_by o g frame t).2
              ≡ (receipt o.str t frame.payload id || mem_text id g.acked_outbound))
  left_by-backlog hello = (refl, refl, λ id. refl)
  left_by-backlog resume = (refl, refl, λ id. refl)
  left_by-backlog session_open = (refl, refl, λ id. refl)
  left_by-backlog inbound = (refl, refl, λ id. refl)
  left_by-backlog gateway_control = (refl, refl, λ id. refl)
  left_by-backlog file_put_init = (refl, refl, λ id. refl)
  left_by-backlog file_put_chunk = (refl, refl, λ id. refl)
  left_by-backlog file_put_commit = (refl, refl, λ id. refl)
  left_by-backlog file_get = (refl, refl, λ id. refl)
  left_by-backlog acknowledge = (
    (ack-backlog o g frame.payload).0,
    (ack-backlog o g frame.payload).1,
    λ id. ack-acked o g frame.payload id,
  )
  left_by-backlog beat = (refl, refl, λ id. refl)
  left_by-backlog unsupported = (refl, refl, λ id. refl)

-- What the outbound side holds, for the frames sent so far and the ids that were received.
record Holds (g : UserGateway) (n : ℕ) (sent : List BridgeFrame) (received : String → Bool)
    : Type 0 where
  size : g.backlog_size ≡ n
  backlog : g.outbound_backlog ≡ last n sent
  acked : (id : String) → mem_text id g.acked_outbound ≡ received id

actions-Holds :
    (o : Outside) (g : UserGateway) (n : ℕ) (sent : List BridgeFrame) (received : String → Bool)
    (later : List Action)
    → Holds g n sent received
    → Holds
        (actions o g later)
        n
        (sent ++ frames_of later)
        (λ id. was_received o.str later id || received id)
unfolding actions act frames_of was_received
actions-Holds o g n sent received [] h = record {
  size = h.size;
  backlog = h.backlog ∙ ap (last n) (sym (append-nil sent));
  acked = h.acked;
}
actions-Holds o g n sent received (push id m ∷ later) h =
    let frame : BridgeFrame = record { type = "outbound"; payload = to_payload m; id = id } in
    let k : Holds (push_outbound g id m).0 n (sent ++ frame ∷ []) received = record {
      size = push-size g id m ∙ h.size;
      backlog =
          push-backlog g id m
          ∙ ap (λ k. last k (g.outbound_backlog ++ frame ∷ [])) h.size
          ∙ ap (λ fs. last n (fs ++ frame ∷ [])) h.backlog
          ∙ last-last n sent (frame ∷ []);
      acked = λ j. push-acked g id m j ∙ h.acked j;
    } in
    let rest = actions-Holds o (push_outbound g id m).0 n (sent ++ frame ∷ []) received later k in
    record {
      size = rest.size;
      backlog = rest.backlog ∙ ap (last n) (append_assoc sent (frame ∷ []) (frames_of later));
      acked = rest.acked;
    }
actions-Holds o g n sent received (arrives websocket new_id frame ∷ later) h =
    let t = frame_type_of frame.type in
    let (b, s, a) = left_by-backlog o g frame t in
    let q = turn-outbox o g websocket new_id frame in
    let seen : String → Bool = λ id. receipt o.str t frame.payload id || received id in
    let k : Holds (turn o g websocket new_id frame).0 n sent seen = record {
      size = ap (λ r. r.1) q ∙ s ∙ h.size;
      backlog = ap (λ r. r.0) q ∙ b ∙ h.backlog;
      acked = λ id. ap (λ r. mem_text id r.2) q ∙ a id ∙ rw (h.acked id) refl;
    } in
    let rest = actions-Holds o (turn o g websocket new_id frame).0 n sent seen later k in
    record {
      size = rest.size;
      backlog = rest.backlog;
      acked = λ id.
          rest.acked id
          ∙ ||-swap (was_received o.str later id) (receipt o.str t frame.payload id) (received id);
    }
actions-Holds o g n sent received (gone websocket ∷ later) h =
    let q = disconnect-outbox o g websocket in
    let k : Holds (disconnect g websocket) n sent received = record {
      size = ap (λ r. r.1) q ∙ h.size;
      backlog = ap (λ r. r.0) q ∙ h.backlog;
      acked = λ id. ap (λ r. mem_text id r.2) q ∙ h.acked id;
    } in
    actions-Holds o (disconnect g websocket) n sent received later k

turn-resume :
    (o : Outside) (g : UserGateway) (websocket : ℕ) (new_id : String) (frame : BridgeFrame)
    → frame_type_of frame.type ≡ resume
    → turn o g websocket new_id frame ≡ (g, replay_backlog g)
unfolding turn handle
turn-resume o g websocket new_id frame t = rw (turn, t) refl

-- A `resume` frame, after any pushes, frames and lost sockets since the start, changes nothing and is
-- answered with the frames pushed last, as many as the one backlog of all sessions holds, but for
-- those whose id an acknowledgement that arrived since the start named: each once, in the order in
-- which they were pushed, those that were pushed while no socket was there included.
pub replay-pending :
    (o : Outside) (start : UserGateway) (happened : List Action) (websocket : ℕ) (new_id : String)
    (frame : BridgeFrame)
    → start.outbound_backlog ≡ []
    → start.acked_outbound ≡ []
    → frame_type_of frame.type ≡ resume
    → let g = actions o start happened in
      turn o g websocket new_id frame ≡ (
        g,
        map outbound (
            keep
              (λ f. not (was_received o.str happened f.id))
              (last start.backlog_size (frames_of happened))),
      )
unfolding replay_backlog
replay-pending o start happened websocket new_id frame none_yet none_acked t =
    let g = actions o start happened in
    let h =
      actions-Holds o start start.backlog_size [] (λ id. false) happened
        (record {
          size = refl;
          backlog = none_yet ∙ sym (drop-nil (0 - start.backlog_size));
          acked = λ id. ap (mem_text id) none_acked;
        }) in
    turn-resume o g websocket new_id frame t
    ∙ ap (λ fs. (g, map outbound fs))
        (ap (keep (λ f. not (mem_text f.id g.acked_outbound))) h.backlog
          ∙ keep-same (λ f. not (mem_text f.id g.acked_outbound))
              (λ f. not (was_received o.str happened f.id))
              (λ f. ap not (h.acked f.id ∙ ||-false (was_received o.str happened f.id)))
              (last start.backlog_size (frames_of happened)))
