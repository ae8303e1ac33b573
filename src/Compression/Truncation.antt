-- ===== src/Compression/Truncation.antt =====
-- The truncation of long items in context_compression.py: what it leaves as it is and how long a
-- truncated text is.
use Prim.Native.String.append
use fairy_claw.Base.{
  ℕ, zero, suc, ◌+◌, ◌≤◌, ◌<◌, ◌≡◌, ◌≢◌, refl, ◌∙◌, ap, sym, String, append, Bool, true, false,
  ◌||◌, Option, none, some, List, [], ◌∷◌, inl, inr, arith, Bool-cases, if◌then◌else◌, ◌==◌, leb,
  ltb, length, map, get_elem?, characters, first_chars, rstrip,
}
use fairy_claw.History.{
  ChatHistoryItem, block, tool, is_block, SessionMessageRole, system, user, assistant,
  ToolCallRound,
}
use fairy_claw.Compression.{truncate_text, truncate_assistant_message, first_protected}
use fairy_claw.Compression.Hook.{
  Config, compress_item, truncate_item, truncate_from, truncate_large_items,
}
use fairy_claw.Compression.Turn.{
  has_block, latest_turn, latest_turn-cons, latest_turn-last, suffix_length-latest_turn,
  length-latest_turn,
}

is_block-compress :
    (compress : String → Option String) (x : ChatHistoryItem)
    → is_block (compress_item compress x) ≡ is_block x
unfolding compress_item
is_block-compress compress (block m) = refl
is_block-compress compress (tool r) = refl

is_block-truncate :
    (config : Config) (x : ChatHistoryItem) → is_block (truncate_item config x) ≡ is_block x
unfolding truncate_item
is_block-truncate config (tool r) = refl
is_block-truncate config (block m) = go m.role
  where
    go :
        (r : SessionMessageRole)
        → is_block (elim r [
          | assistant ↦ block (truncate_assistant_message m config.assistant_message_max_chars)
          | q ↦ block m
        ])
          ≡ true
    go system = refl
    go user = refl
    go assistant = refl

module _ (compress : String → Option String) (config : Config) (protected_from head_keep : ℕ) where
  abbrev item : ℕ → ChatHistoryItem → ChatHistoryItem
  item idx x =
      if leb protected_from idx || ltb idx head_keep
      then compress_item compress x
      else truncate_item config (compress_item compress x)

  is_block-item :
      (b : Bool) (x : ChatHistoryItem)
      → is_block
          (if b then compress_item compress x else truncate_item config (compress_item compress x))
        ≡ is_block x
  is_block-item true x = is_block-compress compress x
  is_block-item false x =
      is_block-truncate config (compress_item compress x) ∙ is_block-compress compress x

  has_block-truncate_from :
      (idx : ℕ) (xs : List ChatHistoryItem)
      → has_block (truncate_from compress config protected_from head_keep idx xs) ≡ has_block xs
  unfolding truncate_from
  has_block-truncate_from idx [] = refl
  has_block-truncate_from idx (x ∷ xs) =
      ap (λ b. b || has_block (truncate_from compress config protected_from head_keep (idx + 1) xs))
        (is_block-item (leb protected_from idx || ltb idx head_keep) x)
      ∙ ap (λ b. is_block x || b) (has_block-truncate_from (idx + 1) xs)

  -- From the protected index on only images change.
  truncate_from-protected :
      (idx : ℕ) (xs : List ChatHistoryItem)
      → protected_from ≤ idx
      → truncate_from compress config protected_from head_keep idx xs
        ≡ map (compress_item compress) xs
  unfolding truncate_from
  truncate_from-protected idx [] h = refl
  truncate_from-protected idx (x ∷ xs) h =
      let p : leb protected_from idx ≡ true = ground arith in
      rw p (
        ap (λ ys. compress_item compress x ∷ ys)
          (truncate_from-protected (idx + 1) xs (omega arith)))

  latest_turn-truncate_from :
      (idx : ℕ) (xs : List ChatHistoryItem)
      → protected_from + length (latest_turn xs) ≤ idx + length xs
      → latest_turn (truncate_from compress config protected_from head_keep idx xs)
        ≡ map (compress_item compress) (latest_turn xs)
  unfolding truncate_from latest_turn
  latest_turn-truncate_from idx [] h = refl
  latest_turn-truncate_from idx (x ∷ xs) h = elim (Bool-cases (has_block xs)) [
    | inl e ↦
        latest_turn-cons (item idx x)
          (truncate_from compress config protected_from head_keep (idx + 1) xs)
          (has_block-truncate_from (idx + 1) xs ∙ e)
        ∙ latest_turn-truncate_from (idx + 1) xs
            (omega (arith, ap length (latest_turn-cons x xs e)))
        ∙ ap (map (compress_item compress)) (sym (latest_turn-cons x xs e))
    | inr e ↦
        let p : protected_from ≤ idx = omega (arith, ap length (latest_turn-last x xs e)) in
        latest_turn-last (item idx x)
          (truncate_from compress config protected_from head_keep (idx + 1) xs)
          (has_block-truncate_from (idx + 1) xs ∙ e)
        ∙ truncate_from-protected idx (x ∷ xs) p
        ∙ ap (map (compress_item compress)) (sym (latest_turn-last x xs e))
  ]

  -- An item before the protected index and behind the head is truncated.
  truncate_from-between :
      (idx i : ℕ) (xs : List ChatHistoryItem) (r : ToolCallRound)
      → get_elem? xs i ≡ some (tool r)
      → idx + i < protected_from
      → head_keep ≤ idx + i
      → get_elem? (truncate_from compress config protected_from head_keep idx xs) i
        ≡ some (truncate_item config (tool r))
  unfolding truncate_from compress_item
  truncate_from-between idx i [] r g h k = absurd cc
  truncate_from-between idx zero (tool t ∷ xs) r g h k =
      let p : leb protected_from idx ≡ false = ground arith in
      let q : ltb idx head_keep ≡ false = ground arith in
      rw (p, q) (ap (λ o. elim o [ none ↦ none | some y ↦ some (truncate_item config y) ]) g)
  truncate_from-between idx zero (block m ∷ xs) r g h k = absurd cc
  truncate_from-between idx (suc i) (x ∷ xs) r g h k =
      truncate_from-between (idx + 1) i xs r g (omega arith) (omega arith)

pub latest_turn-truncate :
    (compress : String → Option String) (config : Config) (head_keep : ℕ)
    (items : List ChatHistoryItem)
    → latest_turn (truncate_large_items compress config head_keep items)
      ≡ map (compress_item compress) (latest_turn items)
unfolding truncate_large_items
latest_turn-truncate compress config head_keep items =
    latest_turn-truncate_from compress config (first_protected items) head_keep 0 items
      (omega (arith, suffix_length-latest_turn items, length-latest_turn items))

characters-first_chars : (n : ℕ) (s : String) → characters (first_chars n s) ≤ n
characters-first_chars zero s = omega arith
characters-first_chars (suc n) String.[] = omega arith
characters-first_chars (suc n) (String.◌∷◌ c s) = omega (arith, characters-first_chars n s)

characters-append : (s t : String) → characters (append s t) ≡ characters s + characters t
characters-append String.[] t = rw (append.nil t) omega arith
characters-append (String.◌∷◌ c s) t = rw (append.cons c s t) (omega (arith, characters-append s t))

characters-rstrip : (s : String) → characters (rstrip s) ≤ characters s
unfolding rstrip
characters-rstrip String.[] = omega arith
characters-rstrip (String.◌∷◌ c s) = ground (arith, characters-rstrip s)

-- A limit is exceeded by the note on the truncation at most.
truncate_text-characters : (s : String) (n : ℕ) → n ≢ 0 → characters (truncate_text s n) ≤ n + 15
unfolding truncate_text
truncate_text-characters s n h = elim (Bool-cases (n == 0 || leb (characters s) n)) [
  | inl e ↦ rw e (ground arith)
  | inr e ↦ rw e (
      omega (
        arith,
        characters-append (rstrip (first_chars n s)) "\n...[truncated]",
        characters-rstrip (first_chars n s),
        characters-first_chars n s,
      ))
]

-- A tool round before the latest turn of a history, behind the head that is kept, has its result and
-- its arguments cut to at most 15 characters more than the limit, where there is one, and keeps its id.
pub truncate_large_items-characters :
    (compress : String → Option String) (config : Config) (head_keep : ℕ)
    (items : List ChatHistoryItem) (i : ℕ) (r : ToolCallRound)
    → config.tool_result_max_chars ≢ 0
    → get_elem? items i ≡ some (tool r)
    → i + length (latest_turn items) < length items
    → head_keep ≤ i
    → (r' : ToolCallRound) × get_elem? (truncate_large_items compress config head_keep items) i
        ≡ some (tool r')
      × characters r'.tool_result ≤ config.tool_result_max_chars + 15
      × characters r'.arguments_json ≤ config.tool_result_max_chars + 15
      × r'.call_id ≡ r.call_id
unfolding truncate_large_items truncate_item
truncate_large_items-characters compress config head_keep items i r z g h k = (
  _,
  truncate_from-between compress config (first_protected items) head_keep 0 i items r g
      (omega (arith, suffix_length-latest_turn items)) (omega arith),
  truncate_text-characters r.tool_result config.tool_result_max_chars z,
  truncate_text-characters r.arguments_json config.tool_result_max_chars z,
  refl,
)
