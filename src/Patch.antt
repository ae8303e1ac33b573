-- ===== src/Patch.antt =====
-- fairyclaw/capabilities/code_repair_ops/scripts/repair_apply_unified_patch.py: a patch of hunks is
-- applied to the lines of a file. The lines come from `splitlines`, those of the file with their ends.
pub mod Replace
pub mod Tests
use Prim.Native.Char.{code}
use fairy_claw.Base.{
  ℕ, zero, suc, ◌+◌, min, max, String, Bool, true, false, not, ◌&&◌, ◌||◌, Option, none, some, List,
  [], ◌∷◌, ◌++◌, if◌then◌else◌, ◌==◌, str_eq, append, starts_with, drop_chars, nonempty, length,
  take, drop, map, any, not_empty, get_elem?, leb,
}

-- `line.rstrip("\n")`
unfoldable pub without_newline : String → String
without_newline String.[] = String.[]
without_newline (String.◌∷◌ c s) =
    let rest = without_newline s in
    if not (nonempty rest) && code c == 10 then String.[] else String.◌∷◌ c rest

-- The lines of a hunk after its header, and the hunks of a patch; lines before the first header count
-- for nothing.
unfoldable pub hunks_from : Option (List String) → List String → List (List String)
hunks_from none [] = []
hunks_from (some body) [] = body ∷ []
hunks_from none (l ∷ ls) =
    if starts_with l "@@" then hunks_from (some []) ls else hunks_from none ls
hunks_from (some body) (l ∷ ls) =
    let next = hunks_from (some []) ls in
    let same = hunks_from (some (body ++ l ∷ [])) ls in
    if starts_with l "@@" then body ∷ next else same

-- What a hunk expects in the file, and what it puts there.
unfoldable pub expected_old : List String → List String
expected_old [] = []
expected_old (l ∷ ls) =
    let rest = expected_old ls in
    if starts_with l " "
    then drop_chars 1 l ∷ rest
    else if starts_with l "-"
    then drop_chars 1 l ∷ rest
    else if starts_with l "+"
    then rest
    else if nonempty l && not (starts_with l "@@")
    then l ∷ rest
    else rest

unfoldable pub replacement_new : List String → List String
replacement_new [] = []
replacement_new (l ∷ ls) =
    let rest = replacement_new ls in
    if starts_with l " "
    then drop_chars 1 l ∷ rest
    else if starts_with l "-"
    then rest
    else if starts_with l "+"
    then drop_chars 1 l ∷ rest
    else if nonempty l && not (starts_with l "@@")
    then l ∷ rest
    else rest

unfoldable pub added_lines : List String → List String
added_lines [] = []
added_lines (l ∷ ls) =
    let rest = added_lines ls in if starts_with l "+" then drop_chars 1 l ∷ rest else rest

abbrev pub with_newline : String → String
with_newline l = append l "\n"

-- `normalized[i : i + len(needle)] == needle`
unfoldable pub matches : List String → List String → Bool
matches [] lines = true
matches (s ∷ seq) [] = false
matches (s ∷ seq) (l ∷ lines) = str_eq (without_newline l) (without_newline s) && matches seq lines

-- The loop of `_find_sequence`, `start` counted from `idx`; behind the last line nothing matches.
unfoldable pub search : ℕ → ℕ → List String → List String → Option ℕ
search idx start seq [] = none
search idx (suc start) seq (l ∷ lines) = search (idx + 1) start seq lines
search idx zero seq (l ∷ lines) =
    let later = search (idx + 1) zero seq lines in
    if matches seq (l ∷ lines) then some idx else later

unfoldable pub find_sequence : List String → List String → ℕ → Option ℕ
find_sequence lines seq start = if not (not_empty seq) then some start else search 0 start seq lines

unfoldable pub find_anchor : List String → List String → ℕ → Option ℕ
find_anchor lines context start =
    if not (not_empty context)
    then some (min start (length lines))
    else find_sequence lines context start

-- `lines[i : i + n] = new`
abbrev pub splice : List String → ℕ → ℕ → List String → List String
splice lines i n new = take i lines ++ new ++ drop (i + n) lines

abbrev pub or_else : Option ℕ → Option ℕ → Option ℕ
or_else none other = other
or_else (some i) other = some i

-- The search behind the last hunk, and then in the whole file.
unfoldable pub find_block : List String → List String → ℕ → Option ℕ
find_block lines old cursor = or_else (find_sequence lines old cursor) (find_sequence lines old 0)

abbrev pub has_removals : List String → Bool
has_removals body = any (λ l. starts_with l "-") body

abbrev pub has_additions : List String → Bool
has_additions body = any (λ l. starts_with l "+") body

unfoldable pub apply_removal : List String → ℕ → List String → Option (List String × ℕ)
apply_removal lines cursor body =
    let old = expected_old body in
    let new = map with_newline (replacement_new body) in
    elim (find_block lines old cursor) [
      | none ↦ none
      | some i ↦ some (splice lines i (length old) new, i + length new)
    ]

unfoldable pub apply_insertion : List String → ℕ → List String → List String × ℕ
apply_insertion lines cursor body =
    let add = map with_newline (added_lines body) in
    let i : ℕ = elim (find_anchor lines (expected_old body) cursor) [
      | none ↦ min cursor (length lines)
      | some i ↦ i
    ] in
    (splice lines i 0 add, i + length add)

-- One turn of the loop of `_apply_patch`: the lines and the cursor after a hunk; `none` is a failure.
unfoldable pub apply_hunk : List String → ℕ → List String → Option (List String × ℕ)
apply_hunk lines cursor body =
    if not (has_removals body) && not (has_additions body)
    then some (lines, cursor)
    else if has_removals body
    then apply_removal lines cursor body
    else some (apply_insertion lines cursor body)

unfoldable pub apply_hunks : List String → ℕ → List (List String) → Option (List String)
apply_hunks lines cursor [] = some lines
apply_hunks lines cursor (body ∷ bodies) = elim (apply_hunk lines cursor body) [
  | none ↦ none
  | some (lines', cursor') ↦ apply_hunks lines' cursor' bodies
]

-- `_apply_patch`, to the lines of the file that are put together after.
unfoldable pub apply_patch : List String → List String → Option (List String)
apply_patch lines patch_lines =
    let hunks = hunks_from none patch_lines in
    if not (not_empty hunks) then none else apply_hunks lines 0 hunks

-- `_changed_line_count`, on lines.
unfoldable pub changed_line_count : List String → List String → ℕ
changed_line_count [] after = length after
changed_line_count (b ∷ before) [] = length (b ∷ before)
changed_line_count (b ∷ before) (a ∷ after) =
    let rest = changed_line_count before after in if str_eq b a then rest else rest + 1
