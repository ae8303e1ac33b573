-- ===== src/Compression/Images.antt =====
-- The images of context_compression.py: made smaller in place, or replaced by a note that they are
-- unloaded. The image library, the digests and the store of unloaded segments are arguments.
use fairy_claw.Base.{
  ℕ, zero, suc, ◌+◌, String, Bool, true, false, not, ◌&&◌, ◌||◌, Option, none, some, List, [], ◌∷◌,
  ◌++◌, if◌then◌else◌, ltb, str_eq, append, starts_with, mem_text, length, nonempty, not_empty,
}
use fairy_claw.Json
use fairy_claw.Json.{Json, Object, text}
use fairy_claw.History.{
  SessionMessageRole, ContentSegment, is_image, image_url_segment, text_segment, ChatHistoryItem,
  block, tool, SessionMessageBlock, MessageBody, text_body, segments_body, from_segments,
}
use fairy_claw.Compression.{message_blocks, first_protected}

-- The address of an image that lies in the message itself.
unfoldable pub data_url : ContentSegment → Option String
data_url s = elim s.image [
  | none ↦ none
  | some o ↦ elim (Json.get o "url") [
    | text url ↦ if starts_with url "data:image/" then some url else none
    | v ↦ none
  ]
]

-- One turn of the loop of `_compress_message_images`, with whether the segment changes.
unfoldable pub compress_segment : (String → Option String) → ContentSegment → ContentSegment × Bool
compress_segment compress s = if not (is_image s) then (s, false) else elim (data_url s) [
  | none ↦ (s, false)
  | some url ↦ elim (compress url) [
    | none ↦ (s, false)
    | some url' ↦
        if nonempty url' && not (str_eq url' url)
        then (image_url_segment url', true)
        else (s, false)
  ]
]

unfoldable pub compress_segments :
    (String → Option String) → List ContentSegment → List ContentSegment × Bool
unfolding compress_segment
compress_segments compress [] = ([], false)
compress_segments compress (s ∷ ss) =
    let (s', changed) = compress_segment compress s in
    let (ss', changed') = compress_segments compress ss in (s' ∷ ss', changed || changed')

unfoldable pub compress_body :
    (String → Option String) → SessionMessageBlock → MessageBody → SessionMessageBlock
compress_body compress m (text_body s) = m
compress_body compress m (segments_body ss) =
    let (ss', changed) = compress_segments compress ss in
    if not changed then m else elim (from_segments m.role ss') [ none ↦ m | some m' ↦ m' ]

abbrev pub compress_message_images :
    (String → Option String) → SessionMessageBlock → SessionMessageBlock
compress_message_images compress m = compress_body compress m m.body

-- A record of unloaded segments, as the session keeps it.
pub record UnloadedRecord : Type 0 where
  pub unload_id : String
  pub role : SessionMessageRole
  pub segments : List ContentSegment
  pub placeholder : String
  pub history_index : ℕ

-- What the code asks of the outside: the digest of a segment, the digests of the segments that were
-- restored lately, and the id of an unloaded group; with the number of messages that guard a restored
-- image, and Python's `str` of a number.
pub record Store : Type 0 where
  pub fingerprint : ContentSegment → String
  pub restored : List String
  pub unload_id : SessionMessageBlock → ℕ → List ContentSegment → String
  pub guard_messages : ℕ
  pub decimal : ℕ → String

-- Whether a segment stays where `after` messages follow: any but an image, and a fresh restored one.
abbrev pub stays : Store → ℕ → ContentSegment → Bool
stays store after s =
    not (is_image s)
    || mem_text (store.fingerprint s) store.restored && ltb after store.guard_messages

-- The segments that stay, and those that go.
unfoldable pub split_segments :
    (ContentSegment → Bool) → List ContentSegment → List ContentSegment × List ContentSegment
split_segments p [] = ([], [])
split_segments p (s ∷ ss) =
    let (kept, gone) = split_segments p ss in if p s then (s ∷ kept, gone) else (kept, s ∷ gone)

unfoldable pub placeholder_of : Store → String → ℕ → String
placeholder_of store id n = append "[image context unloaded: unload_id=" (
    append id
      (append "; images=" (append (store.decimal n) "; use reload_unloaded_segments to restore]")))

-- `_replace_images_with_unload_placeholder`: the message that takes the place of the item, and the
-- record that is stored.
unfoldable pub replace_body :
    Store
    → ℕ
    → ℕ
    → SessionMessageBlock
    → MessageBody
    → Option (SessionMessageBlock × UnloadedRecord)
replace_body store index after m (text_body s) = none
replace_body store index after m (segments_body ss) =
    let (kept, gone) = split_segments (stays store after) ss in
    let id = store.unload_id m index gone in
    let placeholder = placeholder_of store id (length gone) in
    if not (not_empty gone)
    then none
    else elim (from_segments m.role (kept ++ text_segment placeholder ∷ [])) [
      | none ↦ none
      | some m' ↦ some (
        m',
        record {
          unload_id = id;
          role = m.role;
          segments = gone;
          placeholder = placeholder;
          history_index = index;
        },
      )
    ]

abbrev pub replace_images :
    Store → ℕ → ℕ → ChatHistoryItem → Option (SessionMessageBlock × UnloadedRecord)
replace_images store index after (tool r) = none
replace_images store index after (block m) = replace_body store index after m m.body

-- The loop of `_unload_oldest_image_message` over the indices of its range, `lo` and `hi` counted from
-- `index`.
unfoldable pub unload_between :
    Store → ℕ → ℕ → ℕ → List ChatHistoryItem → Option (List ChatHistoryItem × UnloadedRecord)
unload_between store index lo hi [] = none
unload_between store index lo zero (x ∷ xs) = none
unload_between store index (suc lo) (suc hi) (x ∷ xs) =
    elim (unload_between store (index + 1) lo hi xs) [
      | none ↦ none
      | some (ys, r) ↦ some (x ∷ ys, r)
    ]
unload_between store index zero (suc hi) (x ∷ xs) =
    let later : Option (List ChatHistoryItem × UnloadedRecord) =
      elim (unload_between store (index + 1) zero hi xs) [
        | none ↦ none
        | some (ys, r) ↦ some (x ∷ ys, r)
      ] in
    elim (replace_images store index (message_blocks xs) x) [
      | none ↦ later
      | some (m, r) ↦ some (block m ∷ xs, r)
    ]

unfoldable pub unload_oldest_image_message :
    Store → ℕ → List ChatHistoryItem → Option (List ChatHistoryItem × UnloadedRecord)
unload_oldest_image_message store protected_prefix items =
    unload_between store 0 protected_prefix (first_protected items) items
