-- ===== src/Routes.antt =====
-- `GatewaySessionRouteRepository` of fairyclaw/infrastructure/database/repository.py: which adapter and
-- sender a session answers to, its own or those of the session that it was started from. A row holds
-- the session's id, its route and its parent; Python's `str` of a value that is no text is an argument.
pub mod Resolve
pub mod Tests
use fairy_claw.Base.{
  ℕ, zero, suc, String, Bool, true, false, not, ◌&&◌, ◌||◌, Option, none, some, List, [], ◌∷◌, ◌++◌,
  if◌then◌else◌, str_eq, mem_text, nonempty, strip, length, keep, is_some,
}
use fairy_claw.Json
use fairy_claw.Json.{Json, Object, null, end}
use fairy_claw.History.{has_text, text_or_empty}
use fairy_claw.Bridge.Messages.{str_of, GatewayOutboundMessage}

pub record Route : Type 0 where
  pub session_id : String
  pub adapter_key : Option String
  pub sender_ref : Object
  pub sender_platform : Option String
  pub sender_user_id : Option String
  pub sender_group_id : Option String
  pub sender_self_id : Option String
  pub parent_session_id : Option String

unfoldable pub get : List Route → String → Option Route
get [] id = none
get (r ∷ rs) id = let rest = get rs id in if str_eq r.session_id id then some r else rest

unfoldable pub save : List Route → Route → List Route
save [] r = r ∷ []
save (q ∷ qs) r =
    let rest = save qs r in if str_eq q.session_id r.session_id then r ∷ qs else q ∷ rest

-- `value.strip() or None`
abbrev stripped : String → Option String
stripped s = if nonempty (strip s) then some (strip s) else none

abbrev normalize_sender : (Json → String) → Object → String → Option String
normalize_sender str sender key = elim (Json.get sender key) [
  | null ↦ none
  | v ↦ stripped (str_of str v)
]

-- A setting that is left as it was where it is not given.
abbrev given_or : Option String → Option String → Option String
given_or none old = old
given_or (some s) old = stripped s

abbrev blank : String → Route
blank session_id = record {
  session_id = session_id;
  adapter_key = none;
  sender_ref = end;
  sender_platform = none;
  sender_user_id = none;
  sender_group_id = none;
  sender_self_id = none;
  parent_session_id = none;
}

unfoldable pub bind :
    (Json → String)
    → List Route
    → String
    → Option String
    → Option Object
    → Option String
    → List Route
bind str routes session_id adapter_key sender_ref parent_session_id =
    let sender : Object = elim sender_ref [ none ↦ end | some o ↦ o ] in
    let old : Route = elim (get routes session_id) [ none ↦ blank session_id | some r ↦ r ] in
    save routes (record {
      session_id = session_id;
      adapter_key = given_or adapter_key old.adapter_key;
      sender_ref = sender;
      sender_platform = normalize_sender str sender "platform";
      sender_user_id = normalize_sender str sender "user_id";
      sender_group_id = normalize_sender str sender "group_id";
      sender_self_id = normalize_sender str sender "self_id";
      parent_session_id = given_or parent_session_id old.parent_session_id;
    })

-- The loop of `resolve`. Each turn but the last visits a row that it had not visited, so one more than
-- the number of rows is enough fuel.
unfoldable pub resolve_from : ℕ → List Route → List String → String → Option Route
resolve_from zero routes visited current = none
resolve_from (suc n) routes visited current =
    if not (nonempty current) || mem_text current visited then none else elim (get routes current) [
      | none ↦ none
      | some r ↦
          if has_text r.adapter_key
          then some r
          else resolve_from n routes (current ∷ visited) (text_or_empty r.parent_session_id)
    ]

unfoldable pub resolve : List Route → String → Option Route
resolve routes session_id = resolve_from (suc (length routes)) routes [] session_id

unfoldable pub get_parent_session_id : List Route → String → Option String
get_parent_session_id routes session_id = elim (get routes session_id) [
  | none ↦ none
  | some r ↦ if has_text r.parent_session_id then r.parent_session_id else none
]

unfoldable pub list_by_parent_session : List Route → String → List Route
list_by_parent_session routes parent =
    keep (λ r. elim r.parent_session_id [ none ↦ false | some p ↦ str_eq p parent ]) routes

abbrev not_end : Object → Option Object
not_end end = none
not_end o = some o

-- `_enrich_outbound_with_route` of fairyclaw/bridge/user_gateway.py.
unfoldable pub enrich_outbound_with_route :
    List Route → GatewayOutboundMessage → GatewayOutboundMessage
enrich_outbound_with_route routes m =
    let resolved : GatewayOutboundMessage = elim (resolve routes m.session_id) [
      | none ↦ m
      | some r ↦ record m {
        adapter_key = if has_text m.adapter_key then m.adapter_key else r.adapter_key;
        sender_ref = elim m.sender_ref [ none ↦ not_end r.sender_ref | some s ↦ some s ];
      }
    ] in
    if str_eq m.session_id "__fc_broadcast__"
    then record m { adapter_key = some "http"; sender_ref = none }
    else if has_text m.adapter_key && is_some m.sender_ref
    then m
    else resolved
