-- ===== src/Compression/Head.antt =====
-- The head of a sub-session in context_compression.py: the items up to its first user message.
use mathlib.Core.Path.{subst}
use fairy_claw.Base.{
  ℕ, zero, suc, max, ◌+◌, ◌≤◌, ◌<◌, ◌≡◌, ◌≢◌, refl, ◌∙◌, ap, sym, String, Bool, true, false, not,
  ◌||◌, Option, none, some, List, [], ◌∷◌, ◌++◌, inl, inr, arith, Bool-cases, if◌then◌else◌, ◌==◌,
  leb, ltb, take, drop, length, map, str_eq,
}
use fairy_claw.History.{
  ChatHistoryItem, block, tool, SessionMessageBlock, SegmentType, plain, image_url, file,
  code_block, text_or_empty, SessionMessageRole, system, user, assistant, ContentSegment,
  MessageBody, text_body, segments_body, text_segment, from_segments, body_plain_text,
}
use fairy_claw.Compression.{
  has_role_user, user_end_from, first_user_message_exclusive_end, truncate_text,
  truncate_assistant_message, first_protected, keep_recent_history,
}
use fairy_claw.Compression.Images.{compress_body, compress_segments}
use fairy_claw.Compression.Hook.{
  Config, compress_item, truncate_item, truncate_from, truncate_large_items, window,
}
use fairy_claw.Compression.Window.{kept-split}

-- The message made of other segments, or the message itself where there are none, has its role.
role-from_segments :
    (m : SessionMessageBlock) (ss : List ContentSegment)
    → (elim (from_segments m.role ss) as (λ o. SessionMessageBlock) [
      | none ↦ m
      | some m' ↦ m'
    ]).role
      ≡ m.role
unfolding from_segments
role-from_segments m [] = refl
role-from_segments m (s ∷ s' ∷ ss) = refl
role-from_segments m (s ∷ []) = go s.type
  where
    go :
        (t : SegmentType)
        → (elim (elim t as (λ q. Option SessionMessageBlock) [
          | plain ↦ some (record { role = m.role; body = text_body (text_or_empty s.text) })
          | q ↦ some (record { role = m.role; body = segments_body (s ∷ []) })
        ])
            as (λ o. SessionMessageBlock) [ none ↦ m | some m' ↦ m' ]).role
          ≡ m.role
    go plain = refl
    go image_url = refl
    go file = refl
    go code_block = refl

role-compress_body :
    (compress : String → Option String) (m : SessionMessageBlock) (b : MessageBody)
    → (compress_body compress m b).role ≡ m.role
unfolding compress_body
role-compress_body compress m (text_body s) = refl
role-compress_body compress m (segments_body ss) =
    let (ss', changed) = compress_segments compress ss in
    elim (Bool-cases (not changed)) [ inl e ↦ rw e refl | inr e ↦ rw e (role-from_segments m ss') ]

role-truncate : (m : SessionMessageBlock) (n : ℕ) → (truncate_assistant_message m n).role ≡ m.role
unfolding truncate_assistant_message
role-truncate m n =
    elim (Bool-cases (str_eq (truncate_text (body_plain_text m.body) n) (body_plain_text m.body))) [
      | inl e ↦ rw e refl
      | inr e ↦
          rw e (role-from_segments m (text_segment (truncate_text (body_plain_text m.body) n) ∷ []))
    ]

has_role_user-compress :
    (compress : String → Option String) (x : ChatHistoryItem)
    → has_role_user (compress_item compress x) ≡ has_role_user x
unfolding compress_item
has_role_user-compress compress (tool r) = refl
has_role_user-compress compress (block m) =
    ap (λ r. elim r as (λ q. Bool) [ user ↦ true | q ↦ false ])
      (role-compress_body compress m m.body)

has_role_user-truncate :
    (config : Config) (x : ChatHistoryItem)
    → has_role_user (truncate_item config x) ≡ has_role_user x
unfolding truncate_item
has_role_user-truncate config (tool r) = refl
has_role_user-truncate config (block m) = go m.role refl
  where
    go :
        (r : SessionMessageRole)
        → m.role ≡ r
        → has_role_user (elim r as (λ q. ChatHistoryItem) [
          | assistant ↦ block (truncate_assistant_message m config.assistant_message_max_chars)
          | q ↦ block m
        ])
          ≡ (elim r as (λ q. Bool) [ user ↦ true | q ↦ false ])
    go system q = ap (λ r. elim r as (λ q. Bool) [ user ↦ true | q ↦ false ]) q
    go user q = ap (λ r. elim r as (λ q. Bool) [ user ↦ true | q ↦ false ]) q
    go assistant q =
        ap (λ r. elim r as (λ q. Bool) [ user ↦ true | q ↦ false ])
          (role-truncate m config.assistant_message_max_chars ∙ q)

user_end-le : (idx : ℕ) (xs : List ChatHistoryItem) → user_end_from idx xs ≤ idx + length xs
unfolding user_end_from
user_end-le idx [] = omega arith
user_end-le idx (x ∷ xs) = ground (arith, user_end-le (idx + 1) xs)

user_end-lt :
    (idx : ℕ) (xs : List ChatHistoryItem) → user_end_from idx xs ≢ 0 → idx < user_end_from idx xs
unfolding user_end_from
user_end-lt idx [] h = absurd (h refl)
user_end-lt idx (x ∷ xs) h = elim (Bool-cases (has_role_user x)) [
  | inl e ↦ rw e omega arith
  | inr e ↦ rw e (omega (arith, user_end-lt (idx + 1) xs (rw e at h)))
]

-- What follows the head does not count.
user_end-take :
    (idx n : ℕ) (xs zs : List ChatHistoryItem)
    → user_end_from idx xs ≡ idx + suc n
    → user_end_from idx (take (suc n) xs ++ zs) ≡ idx + suc n
unfolding user_end_from
user_end-take idx n [] zs h = absurd (omega arith)
user_end-take idx zero (x ∷ xs) zs h = elim (Bool-cases (has_role_user x)) [
  | inl e ↦ rw e (rw (e, user_end_from) at h)
  | inr e ↦ absurd (
      omega (
        arith,
        rw (e, user_end_from) at h,
        user_end-lt (idx + 1) xs (omega (arith, rw (e, user_end_from) at h)),
      ))
]
user_end-take idx (suc n) (x ∷ xs) zs h = elim (Bool-cases (has_role_user x)) [
  | inl e ↦ rw e (rw (e, user_end_from) at h)
  | inr e ↦
      rw e
        (user_end-take (idx + 1) n xs zs (rw (e, user_end_from) at h ∙ omega arith) ∙ omega arith)
]

take-append :
    (n : ℕ) (xs zs : List ChatHistoryItem) → n ≤ length xs → take n (take n xs ++ zs) ≡ take n xs
take-append zero xs zs h = refl
take-append (suc n) [] zs h = absurd (omega arith)
take-append (suc n) (x ∷ xs) zs h = ap (λ ys. x ∷ ys) (take-append n xs zs (omega arith))

module _ (compress : String → Option String) (config : Config) (protected_from head_keep : ℕ) where
  has_role_user-item :
      (b : Bool) (x : ChatHistoryItem)
      → has_role_user
          (if b then compress_item compress x else truncate_item config (compress_item compress x))
        ≡ has_role_user x
  has_role_user-item true x = has_role_user-compress compress x
  has_role_user-item false x =
      has_role_user-truncate config (compress_item compress x) ∙ has_role_user-compress compress x

  user_end-truncate_from :
      (idx k : ℕ) (xs : List ChatHistoryItem)
      → user_end_from k (truncate_from compress config protected_from head_keep idx xs)
        ≡ user_end_from k xs
  unfolding truncate_from user_end_from
  user_end-truncate_from idx k [] = refl
  user_end-truncate_from idx k (x ∷ xs) =
      let rest =
        user_end_from (k + 1)
          (truncate_from compress config protected_from head_keep (idx + 1) xs) in
      ap (λ b. if b then k + 1 else rest)
        (has_role_user-item (leb protected_from idx || ltb idx head_keep) x)
      ∙ ap (λ n. if has_role_user x then k + 1 else n) (user_end-truncate_from (idx + 1) (k + 1) xs)

  -- The items of the head change in their images only.
  take-truncate_from :
      (idx n : ℕ) (xs : List ChatHistoryItem)
      → idx + n ≤ head_keep
      → take n (truncate_from compress config protected_from head_keep idx xs)
        ≡ map (compress_item compress) (take n xs)
  unfolding truncate_from
  take-truncate_from idx zero xs h = refl
  take-truncate_from idx (suc n) [] h = refl
  take-truncate_from idx (suc n) (x ∷ xs) h =
      let kept : (leb protected_from idx || ltb idx head_keep) ≡ true = ground arith in
      rw kept
        (ap (λ ys. compress_item compress x ∷ ys) (take-truncate_from (idx + 1) n xs (omega arith)))

head-truncate :
    (compress : String → Option String) (config : Config) (head_keep : ℕ)
    (items : List ChatHistoryItem)
    → first_user_message_exclusive_end (truncate_large_items compress config head_keep items)
      ≡ first_user_message_exclusive_end items
unfolding truncate_large_items first_user_message_exclusive_end
head-truncate compress config head_keep items =
    user_end-truncate_from compress config (first_protected items) head_keep 0 0 items

pub take-truncate :
    (compress : String → Option String) (config : Config) (head_keep : ℕ)
    (items : List ChatHistoryItem)
    → take head_keep (truncate_large_items compress config head_keep items)
      ≡ map (compress_item compress) (take head_keep items)
unfolding truncate_large_items
take-truncate compress config head_keep items =
    take-truncate_from compress config (first_protected items) head_keep 0 head_keep items
      (omega arith)

-- The window of a sub-session has the same head.
head-front :
    (n : ℕ) (items zs : List ChatHistoryItem)
    → first_user_message_exclusive_end items ≡ suc n
    → first_user_message_exclusive_end (take (suc n) items ++ zs) ≡ suc n
unfolding first_user_message_exclusive_end
head-front n items zs h = user_end-take 0 n items zs (h ∙ omega arith) ∙ omega arith

take-front :
    (n : ℕ) (items zs : List ChatHistoryItem)
    → first_user_message_exclusive_end items ≡ n
    → take n (take n items ++ zs) ≡ take n items
unfolding first_user_message_exclusive_end
take-front n items zs h = take-append n items zs (omega (arith, user_end-le 0 items))

window-front :
    (limit : ℕ) (items : List ChatHistoryItem) (n : ℕ)
    → first_user_message_exclusive_end items ≡ suc n
    → (zs : List ChatHistoryItem) × window true limit items ≡ take (suc n) items ++ zs
unfolding window
window-front limit items n h =
    let some_head : (suc n == 0) ≡ false = ground arith in
    (drop (max (suc n) (keep_recent_history items limit).1) items, rw (h, some_head) refl)

head-window :
    (limit : ℕ) (items : List ChatHistoryItem) (n : ℕ)
    → first_user_message_exclusive_end items ≡ suc n
    → first_user_message_exclusive_end (window true limit items) ≡ suc n
      × take (suc n) (window true limit items) ≡ take (suc n) items
head-window limit items n h =
    let (zs, q) = window-front limit items n h in
    (
      ap first_user_message_exclusive_end q ∙ head-front n items zs h,
      ap (take (suc n)) q ∙ take-front (suc n) items zs h,
    )

-- A history with no user message has none in what the window keeps of it.
user_end-tail :
    (idx k : ℕ) (xs ys : List ChatHistoryItem)
    → user_end_from idx (xs ++ ys) ≡ 0
    → user_end_from k ys ≡ 0
unfolding user_end_from
user_end-tail idx k [] [] h = refl
user_end-tail idx k [] (y ∷ ys) h = elim (Bool-cases (has_role_user y)) [
  | inl e ↦ absurd (omega (arith, rw (e, user_end_from) at h))
  | inr e ↦ rw e (user_end-tail (idx + 1) (k + 1) [] ys (rw (e, user_end_from) at h))
]
user_end-tail idx k (x ∷ xs) ys h = elim (Bool-cases (has_role_user x)) [
  | inl e ↦ absurd (omega (arith, rw (e, user_end_from) at h))
  | inr e ↦ user_end-tail (idx + 1) k xs ys (rw (e, user_end_from) at h)
]

head-window_none :
    (limit : ℕ) (items : List ChatHistoryItem)
    → first_user_message_exclusive_end items ≡ 0
    → first_user_message_exclusive_end (window true limit items) ≡ 0
unfolding window first_user_message_exclusive_end
head-window_none limit items h =
    let (front, q) = kept-split items limit in
    rw h (
      user_end-tail 0 0 front (keep_recent_history items limit).0
        (ap (user_end_from 0) (sym q) ∙ h))

-- The head that a session keeps: none, or that of a sub-session.
abbrev pub kept_head : Bool → List ChatHistoryItem → ℕ
kept_head sub items = if sub then first_user_message_exclusive_end items else 0

-- The window keeps it.
pub kept_head-window :
    (sub : Bool) (limit : ℕ) (items : List ChatHistoryItem)
    → kept_head sub (window sub limit items) ≡ kept_head sub items
      × take (kept_head sub items) (window sub limit items) ≡ take (kept_head sub items) items
kept_head-window false limit items = (refl, refl)
kept_head-window true limit items = go (first_user_message_exclusive_end items) refl
  where
    go :
        (n : ℕ)
        → first_user_message_exclusive_end items ≡ n
        → first_user_message_exclusive_end (window true limit items)
            ≡ first_user_message_exclusive_end items
          × take (first_user_message_exclusive_end items) (window true limit items)
            ≡ take (first_user_message_exclusive_end items) items
    go zero h = (head-window_none limit items h ∙ sym h, rw h refl)
    go (suc n) h =
        let (same, front) = head-window limit items n h in
        (same ∙ sym h, subst (λ k. take k (window true limit items) ≡ take k items) (sym h) front)

pub kept_head-truncate :
    (compress : String → Option String) (config : Config) (sub : Bool) (head_keep : ℕ)
    (items : List ChatHistoryItem)
    → kept_head sub (truncate_large_items compress config head_keep items) ≡ kept_head sub items
kept_head-truncate compress config false head_keep items = refl
kept_head-truncate compress config true head_keep items =
    head-truncate compress config head_keep items
