-- ===== src/Bridge/Outbox.antt =====
-- The outbound side of the gateway of user_gateway.py: no frame but an acknowledgement changes it.
use fairy_claw.Base.{
  ℕ, ◌==◌, ◌≡◌, refl, ◌∙◌, ap, sym, String, Bool, true, false, not, Option, none, some, List, inl,
  inr, Bool-cases, Option-cases, if◌then◌else◌,
}
use fairy_claw.Json
use fairy_claw.Files.{Service, PutAck}
use fairy_claw.Bridge.Recent.{has}
use fairy_claw.Bridge.Messages.{inbound_from_payload}
use fairy_claw.Bridge.Ingress.{submit_message}
use fairy_claw.Bridge.Gateway.{
  UserGateway, BridgeFrame, Outside, Sent, FrameType, hello, resume, session_open, inbound,
  gateway_control, file_put_init, file_put_chunk, file_put_commit, file_get, acknowledge, beat,
  unsupported, frame_type_of, handle, handle_frame, handle_hello, handle_inbound, handle_ack,
  handle_session_open, handle_put_init, handle_put_chunk, handle_put_commit, handle_get,
  int_or_zero, put_answer, answer_only, disconnect, turn, is_token,
}

-- The backlog, its size, and the ids that are acknowledged.
abbrev pub Outbox : Type 0
Outbox = List BridgeFrame × ℕ × List String

abbrev pub outbox : UserGateway → Outbox
outbox g = (g.outbound_backlog, g.backlog_size, g.acked_outbound)

module _ (o : Outside) (g : UserGateway) where
  abbrev outbox_after : Option (UserGateway × List Sent) → Outbox
  outbox_after none = outbox g
  outbox_after (some (g', sent)) = outbox g'

  pub disconnect-outbox : (websocket : ℕ) → outbox (disconnect g websocket) ≡ outbox g
  unfolding disconnect
  disconnect-outbox websocket =
      go (elim g.active_websocket [ none ↦ false | some w ↦ w == websocket ])
    where
      go :
          (b : Bool)
          → outbox (
              if b
              then record g {
                active_websocket = none;
                active_gateway_id = none;
                connection_id = none;
              }
              else g)
            ≡ outbox g
      go true = refl
      go false = refl

  put_answer-outbox :
      (id : String) (r : Option (Service × PutAck)) → outbox_after (put_answer g id r) ≡ outbox g
  put_answer-outbox id none = refl
  put_answer-outbox id (some (files, answer)) = refl

  hello-outbox :
      (websocket : ℕ) (new_id : String) (frame : BridgeFrame)
      → outbox (handle_hello o g websocket new_id frame.payload).0 ≡ outbox g
  unfolding handle_hello
  hello-outbox websocket new_id frame =
      elim (Bool-cases (not (is_token o.bridge_token (Json.get frame.payload "token")))) [
        | inl e ↦ rw e refl
        | inr e ↦ rw e refl
      ]

  put_init-outbox :
      (new_id : String) (frame : BridgeFrame)
      → outbox_after (handle_put_init o g frame new_id) ≡ outbox g
  unfolding handle_put_init
  put_init-outbox new_id frame = elim (Option-cases (int_or_zero o frame.payload "size_bytes")) [
    | inl q ↦ rw (q, outbox_after) refl
    | inr (n, q) ↦ rw (q, outbox_after) refl
  ]

  put_chunk-outbox : (frame : BridgeFrame) → outbox_after (handle_put_chunk o g frame) ≡ outbox g
  unfolding handle_put_chunk
  put_chunk-outbox frame = elim (Option-cases (int_or_zero o frame.payload "seq")) [
    | inl q ↦ rw (q, outbox_after) refl
    | inr (n, q) ↦ elim (Option-cases (int_or_zero o frame.payload "chunk_bytes")) [
      | inl r ↦ rw (q, r, outbox_after) refl
      | inr (k, r) ↦ rw (q, r, outbox_after) (put_answer-outbox frame.id _)
    ]
  ]

  put_commit-outbox :
      (new_id : String) (frame : BridgeFrame)
      → outbox_after (handle_put_commit o g frame new_id) ≡ outbox g
  unfolding handle_put_commit
  put_commit-outbox new_id frame =
      elim (Option-cases (int_or_zero o frame.payload "total_chunks")) [
        | inl q ↦ rw (q, outbox_after) refl
        | inr (n, q) ↦ rw (q, outbox_after) (put_answer-outbox frame.id _)
      ]

  answer_only-outbox : (r : Option (List Sent)) → outbox_after (answer_only g r) ≡ outbox g
  answer_only-outbox none = refl
  answer_only-outbox (some sent) = refl

  open-outbox :
      (frame : BridgeFrame) (new_id : String)
      → outbox (handle_session_open o g frame new_id).0 ≡ outbox g
  unfolding handle_session_open
  open-outbox frame new_id = elim (Bool-cases o.opens) [ inl e ↦ rw e refl | inr e ↦ rw e refl ]

  inbound-outbox : (frame : BridgeFrame) → outbox (handle_inbound o g frame).0 ≡ outbox g
  unfolding handle_inbound
  inbound-outbox frame = elim (Bool-cases (has g.processed_inbound frame.id)) [
    | inl e ↦ rw e refl
    | inr e ↦ elim (Option-cases (inbound_from_payload o.str frame.payload)) [
      | inl q ↦ rw (e, q) refl
      | inr (m, q) ↦
          elim (Option-cases (submit_message o.str o.describe g.files.files g.ingress m)) [
            | inl r ↦ rw (e, q, r) refl
            | inr (ingress, r) ↦ rw (e, q, r) refl
          ]
    ]
  ]

  -- What a frame of a type leaves of the outbound side.
  abbrev pub left_by : BridgeFrame → FrameType → Outbox
  left_by frame acknowledge = outbox (handle_ack o g frame.payload)
  left_by frame t = outbox g

  handle-outbox :
      (websocket : ℕ) (new_id : String) (frame : BridgeFrame) (t : FrameType)
      → outbox_after (handle o g websocket new_id frame t) ≡ left_by frame t
  unfolding handle
  handle-outbox websocket new_id frame hello = hello-outbox websocket new_id frame
  handle-outbox websocket new_id frame resume = refl
  handle-outbox websocket new_id frame session_open = open-outbox frame new_id
  handle-outbox websocket new_id frame inbound = inbound-outbox frame
  handle-outbox websocket new_id frame gateway_control = refl
  handle-outbox websocket new_id frame file_put_init = put_init-outbox new_id frame
  handle-outbox websocket new_id frame file_put_chunk = put_chunk-outbox frame
  handle-outbox websocket new_id frame file_put_commit = put_commit-outbox new_id frame
  handle-outbox websocket new_id frame file_get = answer_only-outbox (handle_get o g frame)
  handle-outbox websocket new_id frame acknowledge = refl
  handle-outbox websocket new_id frame beat = refl
  handle-outbox websocket new_id frame unsupported = refl

  -- The same for a turn of the loop; a frame whose handler raises is no acknowledgement.
  raised_left_by :
      (websocket : ℕ) (new_id : String) (frame : BridgeFrame) (t : FrameType)
      → handle o g websocket new_id frame t ≡ none
      → left_by frame t ≡ outbox g
  unfolding handle
  raised_left_by websocket new_id frame hello e = refl
  raised_left_by websocket new_id frame resume e = refl
  raised_left_by websocket new_id frame session_open e = refl
  raised_left_by websocket new_id frame inbound e = refl
  raised_left_by websocket new_id frame gateway_control e = refl
  raised_left_by websocket new_id frame file_put_init e = refl
  raised_left_by websocket new_id frame file_put_chunk e = refl
  raised_left_by websocket new_id frame file_put_commit e = refl
  raised_left_by websocket new_id frame file_get e = refl
  raised_left_by websocket new_id frame acknowledge e = absurd cc
  raised_left_by websocket new_id frame beat e = refl
  raised_left_by websocket new_id frame unsupported e = refl

  pub turn-outbox :
      (websocket : ℕ) (new_id : String) (frame : BridgeFrame)
      → outbox (turn o g websocket new_id frame).0 ≡ left_by frame (frame_type_of frame.type)
  unfolding turn
  turn-outbox websocket new_id frame =
      elim (Option-cases (handle_frame o g websocket new_id frame)) [
        | inl e ↦
            rw (e, turn)
              (disconnect-outbox websocket
                ∙ sym (raised_left_by websocket new_id frame (frame_type_of frame.type) e))
        | inr ((g', sent), e) ↦
            rw (e, turn)
              (sym (ap outbox_after e)
                ∙ handle-outbox websocket new_id frame (frame_type_of frame.type))
      ]
