-- ===== src/Patch/Tests.antt =====
-- Patches of a short file.
use fairy_claw.Base.{ℕ, ◌≡◌, ◌≢◌, ◌⊎◌, refl, String, Option, none, some, List, [], ◌∷◌, ◌++◌, map}
use fairy_claw.Patch.{
  apply_patch, apply_hunk, has_removals, expected_old, replacement_new, with_newline,
  changed_line_count,
}
use fairy_claw.Patch.Replace.{bare, apply_hunk_replaces}

abbrev file_lines : List String
file_lines = "a\n" ∷ "b\n" ∷ "c\n" ∷ []

abbrev hunk : List String
hunk = " a" ∷ "-b" ∷ "+d" ∷ "+e" ∷ []

abbrev patched : Option (List String)
patched = some ("a\n" ∷ "d\n" ∷ "e\n" ∷ "c\n" ∷ [])

-- The line that is added stands before the line that it follows in the patch.
abbrev inserted : Option (List String)
inserted = some ("d\n" ∷ "a\n" ∷ "b\n" ∷ "c\n" ∷ [])

replace_test : apply_patch file_lines ("@@ -1,2 +1,3 @@" ∷ hunk) ≡ patched
unfolding apply_patch fairy_claw.Patch.hunks_from fairy_claw.Patch.apply_hunks apply_hunk
    fairy_claw.Patch.apply_removal fairy_claw.Patch.find_block fairy_claw.Patch.find_sequence
    expected_old fairy_claw.Patch.search fairy_claw.Patch.matches fairy_claw.Patch.without_newline
    replacement_new
replace_test = refl

insert_test : apply_patch file_lines ("@@ -1,1 +1,2 @@" ∷ " a" ∷ "+d" ∷ []) ≡ inserted
unfolding apply_patch fairy_claw.Patch.hunks_from fairy_claw.Patch.apply_hunks apply_hunk
    fairy_claw.Patch.apply_insertion fairy_claw.Patch.find_anchor expected_old
    fairy_claw.Patch.find_sequence fairy_claw.Patch.search fairy_claw.Patch.matches
    fairy_claw.Patch.without_newline fairy_claw.Patch.added_lines
insert_test = refl

mismatch_test : apply_patch file_lines ("@@" ∷ "-x" ∷ []) ≡ none
unfolding apply_patch fairy_claw.Patch.hunks_from fairy_claw.Patch.apply_hunks apply_hunk
    fairy_claw.Patch.apply_removal fairy_claw.Patch.find_block fairy_claw.Patch.find_sequence
    expected_old fairy_claw.Patch.search fairy_claw.Patch.matches fairy_claw.Patch.without_newline
mismatch_test = refl

count_test : changed_line_count file_lines ("a\n" ∷ "d\n" ∷ []) ≡ 2
unfolding changed_line_count
count_test = refl

apply_hunk_replaces_example :
    ((pre block post : List String)
        → file_lines ≡ pre ++ block ++ post
        → bare block ≢ bare (expected_old hunk))
      × apply_hunk file_lines 0 hunk ≡ none
    ⊎ ((cursor' : ℕ) × (pre block post : List String) × file_lines ≡ pre ++ block ++ post
        × bare block ≡ bare (expected_old hunk)
        × apply_hunk file_lines 0 hunk
          ≡ some (pre ++ map with_newline (replacement_new hunk) ++ post, cursor'))
apply_hunk_replaces_example = apply_hunk_replaces file_lines hunk 0 refl
