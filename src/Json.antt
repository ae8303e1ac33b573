-- ===== src/Json.antt =====
-- The JSON values that events and session metadata carry (`JsonObject` of
-- fairyclaw/core/agent/hooks/protocol.py), with the tests that the program makes on them. No
-- modelled code looks into a number, so one constructor stands for all of them.
use fairy_claw.Base.{
  ℕ, String, Bool, true, false, not, Option, none, some, List, [], ◌∷◌, if◌then◌else◌, str_eq,
  nonempty, strip, ◌==◌,
}

mutual
  pub data Json : Type 0 where
    null : Json
    bool : Bool → Json
    num : ℕ → Json
    text : String → Json
    arr : Items → Json
    obj : Object → Json

  pub data Items : Type 0 where
    nil : Items
    cons : Json → Items → Items

  pub data Object : Type 0 where
    end : Object
    field : String → Json → Object → Object

-- `data.get(key)`: a missing key reads as `None`.
unfoldable pub get : Object → String → Json
get end k = null
get (field j v o) k = if str_eq j k then v else get o k

-- `bool(value)`
abbrev pub truthy : Json → Bool
truthy null = false
truthy (bool b) = b
truthy (num n) = not (n == 0)
truthy (text s) = nonempty s
truthy (arr nil) = false
truthy (arr (cons x xs)) = true
truthy (obj end) = false
truthy (obj (field k v o)) = true

-- `value if isinstance(value, bool) else default`
abbrev pub bool_or : Json → Bool → Bool
bool_or (bool b) d = b
bool_or v d = d

-- `value if isinstance(value, dict) else {}`
abbrev pub obj_or_empty : Json → Object
obj_or_empty (obj o) = o
obj_or_empty v = end

-- `value if isinstance(value, str) and value.strip() else default`
abbrev pub filled_or : Json → String → String
filled_or (text s) d = if nonempty (strip s) then s else d
filled_or v d = d

-- The same with `None` for the default.
abbrev pub filled : Json → Option String
filled (text s) = if nonempty (strip s) then some s else none
filled v = none

-- `value.strip() if isinstance(value, str) and value.strip() else default`
abbrev pub stripped_or : Json → String → String
stripped_or (text s) d = if nonempty (strip s) then strip s else d
stripped_or v d = d

-- `[g for g in raw if isinstance(g, str) and g.strip()]`
unfoldable pub filled_texts : Items → List String
filled_texts nil = []
filled_texts (cons (text s) xs) =
    let rest = filled_texts xs in if nonempty (strip s) then s ∷ rest else rest
filled_texts (cons _ xs) = filled_texts xs

abbrev pub is_list : Json → Bool
is_list (arr xs) = true
is_list v = false

-- That comprehension if the value is a list, and `None` if not.
abbrev pub texts_of : Json → Option (List String)
texts_of (arr xs) = some (filled_texts xs)
texts_of v = none

-- `groups if groups else None`
abbrev pub unless_empty : Option (List String) → Option (List String)
unless_empty (some (g ∷ gs)) = some (g ∷ gs)
unless_empty _ = none

-- `payload.get("enabled_groups")`, or the older `selected_groups` if that is no list.
unfoldable pub raw_groups : Object → Json
raw_groups payload =
    let groups = get payload "enabled_groups" in
    if is_list groups then groups else get payload "selected_groups"
