-- ===== src/Compression/Gone.antt =====
-- The images that the first loop of execute_hook in context_compression.py takes out of an item.
use fairy_claw.Base.{
  ℕ, String, ◌+◌, ◌≡◌, refl, ap, Bool, true, false, none, some, ◌⊎◌, List, [], ◌∷◌, ◌++◌, inl, inr,
  Bool-cases, if◌then◌else◌, length, not_empty,
}
use fairy_claw.History.{
  ChatHistoryItem, block, tool, SessionMessageBlock, SessionMessageRole, ContentSegment,
  text_segment, MessageBody, text_body, segments_body, from_segments,
}
use fairy_claw.Compression.{message_blocks}
use fairy_claw.Compression.Images.{
  Store, UnloadedRecord, stays, split_segments, replace_body, replace_images, placeholder_of,
}

-- The images of an item that the loop would unload, where `after` messages follow.
abbrev pub gone_of_body : Store → ℕ → MessageBody → List ContentSegment
gone_of_body store after (text_body s) = []
gone_of_body store after (segments_body ss) = (split_segments (stays store after) ss).1

abbrev pub gone_of : Store → ℕ → ChatHistoryItem → List ContentSegment
gone_of store after (tool r) = []
gone_of store after (block m) = gone_of_body store after m.body

abbrev pub is_unloadable : Store → ℕ → ChatHistoryItem → Bool
is_unloadable store after x = not_empty (gone_of store after x)

-- How many items the loop would still take.
abbrev pub unloadable : Store → List ChatHistoryItem → ℕ
unloadable store [] = 0
unloadable store (x ∷ xs) =
    (if is_unloadable store (message_blocks xs) x then 1 else 0) + unloadable store xs

-- What stays is kept when the segments are split again.
split-kept :
    (p : ContentSegment → Bool) (ss : List ContentSegment) (t : ContentSegment)
    → p t ≡ true
    → (split_segments p ((split_segments p ss).0 ++ t ∷ [])).1 ≡ []
unfolding split_segments
split-kept p [] t h = rw h refl
split-kept p (s ∷ ss) t h = elim (Bool-cases (p s)) [
  | inl e ↦ rw e (rw e (split-kept p ss t h))
  | inr e ↦ rw e (split-kept p ss t h)
]

module _ (store : Store) where
  -- The message of a list that ends in a note has nothing to unload where all of it stays.
  note-message :
      (role : SessionMessageRole) (after : ℕ) (ss : List ContentSegment) (note : String)
      → (split_segments (stays store after) (ss ++ text_segment note ∷ [])).1 ≡ []
      → (m : SessionMessageBlock) × from_segments role (ss ++ text_segment note ∷ []) ≡ some m
        × is_unloadable store after (block m) ≡ false
  unfolding from_segments
  note-message role after [] note h = (_, refl, refl)
  note-message role after (s ∷ []) note h = (_, refl, ap not_empty h)
  note-message role after (s ∷ s' ∷ ss) note h = (_, refl, ap not_empty h)

  -- The record of what a message loses.
  abbrev unloaded : ℕ → SessionMessageBlock → List ContentSegment → UnloadedRecord
  unloaded index m gone = record {
    unload_id = store.unload_id m index gone;
    role = m.role;
    segments = gone;
    placeholder = placeholder_of store (store.unload_id m index gone) (length gone);
    history_index = index;
  }

  replace_body-cases :
      (index after : ℕ) (m : SessionMessageBlock) (b : MessageBody)
      → (not_empty (gone_of_body store after b) ≡ false × replace_body store index after m b ≡ none)
        ⊎ (not_empty (gone_of_body store after b) ≡ true
            × ((mr : SessionMessageBlock × UnloadedRecord) × replace_body store index after m b
                  ≡ some mr
                × is_unloadable store after (block mr.0) ≡ false))
  unfolding replace_body
  replace_body-cases index after m (text_body s) = inl (refl, refl)
  replace_body-cases index after m (segments_body ss) =
      let split = split_segments (stays store after) ss in
      elim (Bool-cases (not_empty split.1)) [
        | inr e ↦ inl (e, rw e refl)
        | inl e ↦
            let (m', q, g) =
              note-message m.role after split.0
                (placeholder_of store (store.unload_id m index split.1) (length split.1))
                (split-kept (stays store after) ss _ refl) in
            inr (e, ((m', unloaded index m split.1), rw (e, q) refl, g))
      ]

  -- A message has images to replace, and has none after, or is left as it is.
  pub replace-cases :
      (index after : ℕ) (x : ChatHistoryItem)
      → (is_unloadable store after x ≡ false × replace_images store index after x ≡ none)
        ⊎ (is_unloadable store after x ≡ true
            × ((mr : SessionMessageBlock × UnloadedRecord) × replace_images store index after x
                  ≡ some mr
                × is_unloadable store after (block mr.0) ≡ false))
  replace-cases index after (tool r) = inl (refl, refl)
  replace-cases index after (block m) = replace_body-cases index after m m.body
