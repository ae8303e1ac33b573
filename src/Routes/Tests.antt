-- ===== src/Routes/Tests.antt =====
-- A sub-session of a sub-session of a session with an adapter, and two sessions that are each other's
-- parents.
use fairy_claw.Base.{ℕ, ◌≡◌, ◌↔◌, refl, String, Option, none, some, List, [], ◌∷◌}
use fairy_claw.Json.{Json, Object, text, end, field}
use fairy_claw.Routes.{Route, get, bind, resolve, enrich_outbound_with_route}
use fairy_claw.Routes.Resolve.{Serves, resolve-Serves}

abbrev row : String → Option String → Option String → Route
row id key parent = record {
  session_id = id;
  adapter_key = key;
  sender_ref = end;
  sender_platform = none;
  sender_user_id = none;
  sender_group_id = none;
  sender_self_id = none;
  parent_session_id = parent;
}

abbrev main_row : Route
main_row = row "main" (some "http") none

abbrev rows : List Route
rows =
    main_row
    ∷ row "sub" none (some "main")
    ∷ row "sub_sub" none (some "sub")
    ∷ row "a" none (some "b")
    ∷ row "b" none (some "a")
    ∷ []

abbrev found : Option Route
found = some main_row

resolve_test : resolve rows "sub_sub" ≡ found
unfolding resolve fairy_claw.Routes.resolve_from get
resolve_test = refl

circle_test : resolve rows "a" ≡ none
unfolding resolve fairy_claw.Routes.resolve_from get
circle_test = refl

bind_test : bind (λ v. "") [] "main" (some " http ") none none ≡ main_row ∷ []
unfolding bind fairy_claw.Routes.save fairy_claw.Base.strip fairy_claw.Json.get get
bind_test = refl

resolve-Serves_example :
    resolve rows "sub_sub" ≡ some main_row ↔ ((n : ℕ) × Serves rows n "sub_sub" main_row)
resolve-Serves_example = resolve-Serves rows "sub_sub" main_row
