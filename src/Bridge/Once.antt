-- ===== src/Bridge/Once.antt =====
-- A frame with a user's message is handled once: a repeat of it, when the answer was lost and the
-- gateway sends it again, changes nothing.
use mathlib.Core.List.{append_assoc}
use fairy_claw.Base.{
  ℕ, ◌≤◌, ◌<◌, max, ◌≡◌, refl, ◌∙◌, ap, sym, String, Bool, true, false, not, Option, none, some,
  List, [], ◌∷◌, ◌++◌, inl, inr, arith, ◌⊎◌, Bool-cases, Option-cases, if◌then◌else◌, ◌==◌, str_eq,
  length, length-append,
}
use fairy_claw.Json
use fairy_claw.Json.{Object}
use fairy_claw.Files.{Service, PutAck}
use fairy_claw.Bridge.Recent.{RecentFrameSet, empty, add, has, added}
use fairy_claw.Bridge.Messages.{inbound_from_payload}
use fairy_claw.Bridge.Ingress.{submit_message}
use fairy_claw.Bridge.Gateway.{
  UserGateway, BridgeFrame, Outside, Sent, ack, FrameType, hello, resume, session_open, inbound,
  gateway_control, file_put_init, file_put_chunk, file_put_commit, file_get, acknowledge, beat,
  unsupported, frame_type_of, handle, handle_frame, handle_hello, handle_inbound, handle_ack,
  handle_session_open, handle_put_init, handle_put_chunk, handle_put_commit, handle_get,
  int_or_zero, put_answer, answer_only, disconnect, turn, is_token,
}
use fairy_claw.Bridge.Kept.{has-added}

-- The frames of one connection or more, each with its socket and the id that its answer draws.
abbrev pub Arrival : Type 0
Arrival = ℕ × String × BridgeFrame

unfoldable pub arrivals : Outside → UserGateway → List Arrival → UserGateway
arrivals o g [] = g
arrivals o g ((websocket, new_id, frame) ∷ later) =
    arrivals o (turn o g websocket new_id frame).0 later

module _ (o : Outside) (g : UserGateway) where
  -- The ids handled after a frame.
  abbrev ids_after : Option (UserGateway × List Sent) → RecentFrameSet
  ids_after none = g.processed_inbound
  ids_after (some (g', sent)) = g'.processed_inbound

  disconnect-processed :
      (websocket : ℕ) → (disconnect g websocket).processed_inbound ≡ g.processed_inbound
  unfolding disconnect
  disconnect-processed websocket =
      go (elim g.active_websocket [ none ↦ false | some w ↦ w == websocket ])
    where
      go :
          (b : Bool)
          → (if b
              then record g {
                active_websocket = none;
                active_gateway_id = none;
                connection_id = none;
              }
              else g).processed_inbound
            ≡ g.processed_inbound
      go true = refl
      go false = refl

  put_answer-processed :
      (id : String) (r : Option (Service × PutAck))
      → ids_after (put_answer g id r) ≡ g.processed_inbound
  put_answer-processed id none = refl
  put_answer-processed id (some (files, answer)) = refl

  -- A frame with a message is handled, and its id kept, or nothing changes.
  handle_inbound-cases :
      (frame : BridgeFrame)
      → (handle_inbound o g frame).0.processed_inbound ≡ g.processed_inbound
        ⊎ (handle_inbound o g frame).0.processed_inbound ≡ add g.processed_inbound frame.id
  unfolding handle_inbound
  handle_inbound-cases frame = elim (Bool-cases (has g.processed_inbound frame.id)) [
    | inl e ↦ inl (rw e refl)
    | inr e ↦ elim (Option-cases (inbound_from_payload o.str frame.payload)) [
      | inl q ↦ inl (rw (e, q) refl)
      | inr (m, q) ↦
          elim (Option-cases (submit_message o.str o.describe g.files.files g.ingress m)) [
            | inl r ↦ inl (rw (e, q, r) refl)
            | inr (ingress, r) ↦ inr (rw (e, q, r) refl)
          ]
    ]
  ]

  hello-processed :
      (websocket : ℕ) (new_id : String) (frame : BridgeFrame)
      → (handle_hello o g websocket new_id frame.payload).0.processed_inbound ≡ g.processed_inbound
  unfolding handle_hello
  hello-processed websocket new_id frame =
      elim (Bool-cases (not (is_token o.bridge_token (Json.get frame.payload "token")))) [
        | inl e ↦ rw e refl
        | inr e ↦ rw e refl
      ]

  put_init-processed :
      (new_id : String) (frame : BridgeFrame)
      → ids_after (handle_put_init o g frame new_id) ≡ g.processed_inbound
  unfolding handle_put_init
  put_init-processed new_id frame = elim (Option-cases (int_or_zero o frame.payload "size_bytes")) [
    | inl q ↦ rw (q, ids_after) refl
    | inr (n, q) ↦ rw (q, ids_after) refl
  ]

  put_chunk-processed :
      (frame : BridgeFrame) → ids_after (handle_put_chunk o g frame) ≡ g.processed_inbound
  unfolding handle_put_chunk
  put_chunk-processed frame = elim (Option-cases (int_or_zero o frame.payload "seq")) [
    | inl q ↦ rw (q, ids_after) refl
    | inr (n, q) ↦ elim (Option-cases (int_or_zero o frame.payload "chunk_bytes")) [
      | inl r ↦ rw (q, r, ids_after) refl
      | inr (k, r) ↦ rw (q, r, ids_after) (put_answer-processed frame.id _)
    ]
  ]

  put_commit-processed :
      (new_id : String) (frame : BridgeFrame)
      → ids_after (handle_put_commit o g frame new_id) ≡ g.processed_inbound
  unfolding handle_put_commit
  put_commit-processed new_id frame =
      elim (Option-cases (int_or_zero o frame.payload "total_chunks")) [
        | inl q ↦ rw (q, ids_after) refl
        | inr (n, q) ↦ rw (q, ids_after) (put_answer-processed frame.id _)
      ]

  answer_only-processed :
      (r : Option (List Sent)) → ids_after (answer_only g r) ≡ g.processed_inbound
  answer_only-processed none = refl
  answer_only-processed (some sent) = refl

  open-processed :
      (frame : BridgeFrame) (new_id : String)
      → (handle_session_open o g frame new_id).0.processed_inbound ≡ g.processed_inbound
  unfolding handle_session_open
  open-processed frame new_id = elim (Bool-cases o.opens) [ inl e ↦ rw e refl | inr e ↦ rw e refl ]

  ack-processed :
      (payload : Object) → (handle_ack o g payload).processed_inbound ≡ g.processed_inbound
  unfolding handle_ack
  ack-processed payload = ground arith

  handle-processed :
      (websocket : ℕ) (new_id : String) (frame : BridgeFrame) (t : FrameType)
      → ids_after (handle o g websocket new_id frame t) ≡ g.processed_inbound
        ⊎ ids_after (handle o g websocket new_id frame t) ≡ add g.processed_inbound frame.id
  unfolding handle
  handle-processed websocket new_id frame hello = inl (hello-processed websocket new_id frame)
  handle-processed websocket new_id frame resume = inl refl
  handle-processed websocket new_id frame session_open = inl (open-processed frame new_id)
  handle-processed websocket new_id frame inbound = handle_inbound-cases frame
  handle-processed websocket new_id frame gateway_control = inl refl
  handle-processed websocket new_id frame file_put_init = inl (put_init-processed new_id frame)
  handle-processed websocket new_id frame file_put_chunk = inl (put_chunk-processed frame)
  handle-processed websocket new_id frame file_put_commit = inl (put_commit-processed new_id frame)
  handle-processed websocket new_id frame file_get =
      inl (answer_only-processed (handle_get o g frame))
  handle-processed websocket new_id frame acknowledge = inl (ack-processed frame.payload)
  handle-processed websocket new_id frame beat = inl refl
  handle-processed websocket new_id frame unsupported = inl refl

turn-processed :
    (o : Outside) (g : UserGateway) (websocket : ℕ) (new_id : String) (frame : BridgeFrame)
    → (turn o g websocket new_id frame).0.processed_inbound ≡ g.processed_inbound
      ⊎ (turn o g websocket new_id frame).0.processed_inbound ≡ add g.processed_inbound frame.id
unfolding turn
turn-processed o g websocket new_id frame =
    elim (Option-cases (handle_frame o g websocket new_id frame)) [
      | inl e ↦ inl (rw (e, turn) (disconnect-processed o g websocket))
      | inr ((g', sent), e) ↦
          elim (handle-processed o g websocket new_id frame (frame_type_of frame.type)) [
            | inl p ↦ inl (rw (e, turn) (sym (ap (ids_after o g) e) ∙ p))
            | inr p ↦ inr (rw (e, turn) (sym (ap (ids_after o g) e) ∙ p))
          ]
    ]

-- After some frames the ids handled are those of before with at most one more for each frame.
arrivals-added :
    (o : Outside) (limit : ℕ) (ids : List String) (g : UserGateway) (later : List Arrival)
    → g.processed_inbound ≡ added limit ids
    → (js : List String) × length js ≤ length later
      × (arrivals o g later).processed_inbound ≡ added limit (js ++ ids)
unfolding arrivals added
arrivals-added o limit ids g [] h = ([], omega arith, h)
arrivals-added o limit ids g ((websocket, new_id, frame) ∷ later) h =
    elim (turn-processed o g websocket new_id frame) [
      | inl p ↦
          let (js, n, q) =
            arrivals-added o limit ids (turn o g websocket new_id frame).0 later (p ∙ h) in
          (js, omega arith, q)
      | inr p ↦
          let (js, n, q) =
            arrivals-added o limit (frame.id ∷ ids) (turn o g websocket new_id frame).0 later
              (p ∙ ap (λ s. add s frame.id) h) in
          (
            js ++ frame.id ∷ [],
            omega (arith, length-append js (frame.id ∷ [])),
            q ∙ ap (added limit) (sym (append_assoc js (frame.id ∷ []) ids)),
          )
    ]

abbrev pub status_is : String → List Sent → Bool
status_is status (ack ref_type ref_id s ∷ []) = str_eq s status
status_is status sent = false

-- A frame that is answered with `ok` has its id kept.
handle_inbound-ok :
    (o : Outside) (g : UserGateway) (frame : BridgeFrame)
    → status_is "ok" (handle_inbound o g frame).1 ≡ true
    → (handle_inbound o g frame).0.processed_inbound ≡ add g.processed_inbound frame.id
unfolding handle_inbound
handle_inbound-ok o g frame h = elim (Bool-cases (has g.processed_inbound frame.id)) [
  | inl e ↦ absurd (cc (rw (e, handle_inbound) at h))
  | inr e ↦ elim (Option-cases (inbound_from_payload o.str frame.payload)) [
    | inl q ↦ absurd (cc (rw (e, q, handle_inbound) at h))
    | inr (m, q) ↦ elim (Option-cases (submit_message o.str o.describe g.files.files g.ingress m)) [
      | inl r ↦ absurd (cc (rw (e, q, r, handle_inbound) at h))
      | inr (ingress, r) ↦ rw (e, q, r) refl
    ]
  ]
]

turn-inbound :
    (o : Outside) (g : UserGateway) (websocket : ℕ) (new_id : String) (frame : BridgeFrame)
    → frame_type_of frame.type ≡ inbound
    → turn o g websocket new_id frame ≡ handle_inbound o g frame
unfolding turn handle
turn-inbound o g websocket new_id frame t = rw (turn, t) refl

handle_inbound-duplicate :
    (o : Outside) (g : UserGateway) (frame : BridgeFrame)
    → has g.processed_inbound frame.id ≡ true
    → handle_inbound o g frame ≡ (g, ack "inbound" frame.id "duplicate" ∷ [])
unfolding handle_inbound
handle_inbound-duplicate o g frame h = rw h refl

-- A user's message that was answered with `ok`, after any frames since the start, is not taken a
-- second time: when its frame comes again, on any socket and after fewer other frames than the set of
-- ids holds, it is answered with `duplicate` and nothing changes.
pub inbound-once :
    (o : Outside) (limit : ℕ) (start : UserGateway) (before later : List Arrival)
    (websocket websocket' : ℕ) (new_id new_id' : String) (frame : BridgeFrame)
    → start.processed_inbound ≡ empty limit
    → frame_type_of frame.type ≡ inbound
    → status_is "ok" (turn o (arrivals o start before) websocket new_id frame).1 ≡ true
    → length later < max 1 limit
    → let g = arrivals o (turn o (arrivals o start before) websocket new_id frame).0 later in
      turn o g websocket' new_id' frame ≡ (g, ack "inbound" frame.id "duplicate" ∷ [])
unfolding added
inbound-once o limit start before later websocket websocket' new_id new_id' frame fresh t ok few =
    let g₀ = arrivals o start before in
    let taken = turn o g₀ websocket new_id frame in
    let g = arrivals o taken.0 later in
    let same = turn-inbound o g₀ websocket new_id frame t in
    let (ids, n₀, p₀) = arrivals-added o limit [] start before fresh in
    let kept =
      ap (λ r. r.0.processed_inbound) same
      ∙ handle_inbound-ok o g₀ frame (ap (λ r. status_is "ok" r.1) (sym same) ∙ ok)
      ∙ ap (λ s. add s frame.id) p₀ in
    let (js, n, p) = arrivals-added o limit (frame.id ∷ ids ++ []) taken.0 later kept in
    let there : has g.processed_inbound frame.id ≡ true =
      ap (λ s. has s frame.id) p ∙ has-added limit frame.id js (ids ++ []) (omega arith) in
    turn-inbound o g websocket' new_id' frame t ∙ handle_inbound-duplicate o g frame there
