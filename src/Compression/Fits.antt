-- ===== src/Compression/Fits.antt =====
-- What execute_hook of context_compression.py makes of a history, as a whole.
use mathlib.Core.Path.{subst}
use fairy_claw.Base.{
  ℕ, ◌≡◌, refl, ◌∙◌, ap, sym, String, Bool, true, false, ◌||◌, Option, List, [], inl, inr, arith,
  ◌⊎◌, if◌then◌else◌, leb, take, length, map,
}
use fairy_claw.History.{ChatHistoryItem}
use fairy_claw.Assembler.{LlmChatMessage}
use fairy_claw.Compression.Images.{Store, UnloadedRecord}
use fairy_claw.Compression.Hook.{
  Config, Turn, compress_item, truncate_large_items, rebuild_messages, unload_loop, drop_loop,
  window, compress_history,
}
use fairy_claw.Compression.Turn.{latest_turn}
use fairy_claw.Compression.Drops.{
  drop_loop-latest_turn, drop_loop-take, IsDropped, drop_loop-IsDropped,
}
use fairy_claw.Compression.Unload.{unload_loop-latest_turn, unload_loop-take}
use fairy_claw.Compression.Window.{latest_turn-window}
use fairy_claw.Compression.Truncation.{latest_turn-truncate}
use fairy_claw.Compression.Head.{take-truncate, kept_head, kept_head-window, kept_head-truncate}

-- The head of the history that a sub-session keeps, and the test on a prompt.
abbrev pub head_of : Turn → List ChatHistoryItem → ℕ
head_of turn items = kept_head turn.is_sub_session items

abbrev pub fits : (List LlmChatMessage → ℕ) → ℕ → Turn → List ChatHistoryItem → Bool
fits tokens token_budget turn items = leb (tokens (rebuild_messages turn items)) token_budget

-- The first of three lists whose test holds, or the last.
picked :
    (c d : Bool) (xs ys zs : List ChatHistoryItem) (rs : List UnloadedRecord)
    → let list =
        (if◌then◌else◌ {A = List ChatHistoryItem × List UnloadedRecord} c
          (xs, [])
          (if d then (ys, []) else (zs, rs))).0 in
      (c ≡ true × list ≡ xs) ⊎ ((d ≡ true × list ≡ ys) ⊎ (d ≡ false × list ≡ zs))
picked true d xs ys zs rs = inl (refl, refl)
picked false true xs ys zs rs = inr (inl (refl, refl))
picked false false xs ys zs rs = inr (inr (refl, refl))

module _ (tokens : List LlmChatMessage → ℕ) (compress : String → Option String) (store : Store)
    (config : Config) (token_budget : ℕ) (turn : Turn) where
  abbrev truncated : List ChatHistoryItem
  truncated =
      truncate_large_items compress config (head_of turn turn.history_items) turn.history_items

  abbrev windowed : List ChatHistoryItem
  windowed = window turn.is_sub_session config.recency_window truncated

  abbrev fitting : List ChatHistoryItem → Bool
  fitting items = fits tokens token_budget turn items

  abbrev unloaded : List ChatHistoryItem
  unloaded = (unload_loop fitting store (head_of turn windowed) (length windowed) windowed).0

  abbrev dropped : List ChatHistoryItem
  dropped = drop_loop fitting (head_of turn windowed) (length unloaded) unloaded

  abbrev result : List ChatHistoryItem
  result = (compress_history tokens compress store config token_budget turn).0

  result-cases :
      (fitting truncated ≡ true × result ≡ truncated)
      ⊎ ((fitting windowed ≡ true × result ≡ windowed)
          ⊎ (fitting windowed ≡ false × result ≡ dropped))
  unfolding compress_history
  result-cases = picked (fitting truncated) (fitting windowed) truncated windowed dropped _

  windowed-latest_turn :
      latest_turn windowed ≡ map (compress_item compress) (latest_turn turn.history_items)
  windowed-latest_turn =
      latest_turn-window turn.is_sub_session config.recency_window truncated
      ∙ latest_turn-truncate compress config (head_of turn turn.history_items) turn.history_items

  -- The latest turn stays.
  compress_history-latest_turn :
      latest_turn (compress_history tokens compress store config token_budget turn).0
      ≡ map (compress_item compress) (latest_turn turn.history_items)
  compress_history-latest_turn = elim result-cases [
    | inl (e, q) ↦
        ap latest_turn q
        ∙ latest_turn-truncate compress config (head_of turn turn.history_items) turn.history_items
    | inr (inl (e, q)) ↦ ap latest_turn q ∙ windowed-latest_turn
    | inr (inr (e, q)) ↦
        ap latest_turn q
        ∙ drop_loop-latest_turn fitting (head_of turn windowed) (length unloaded) unloaded
        ∙ unload_loop-latest_turn store fitting (head_of turn windowed) (length windowed) windowed
        ∙ windowed-latest_turn
  ]

  -- The head is the same at each step.
  head_of-truncated : head_of turn truncated ≡ head_of turn turn.history_items
  head_of-truncated =
      kept_head-truncate compress config turn.is_sub_session (head_of turn turn.history_items)
        turn.history_items

  head_of-windowed : head_of turn windowed ≡ head_of turn turn.history_items
  head_of-windowed =
      (kept_head-window turn.is_sub_session config.recency_window truncated).0 ∙ head_of-truncated

  take-windowed :
      take (head_of turn turn.history_items) windowed
      ≡ map (compress_item compress) (take (head_of turn turn.history_items) turn.history_items)
  take-windowed =
      subst (λ n. take n windowed ≡ take n truncated) head_of-truncated
        (kept_head-window turn.is_sub_session config.recency_window truncated).1
      ∙ take-truncate compress config (head_of turn turn.history_items) turn.history_items

  -- The head stays.
  compress_history-head :
      take
        (head_of turn turn.history_items)
        (compress_history tokens compress store config token_budget turn).0
      ≡ map (compress_item compress) (take (head_of turn turn.history_items) turn.history_items)
  compress_history-head = elim result-cases [
    | inl (e, q) ↦
        ap (take (head_of turn turn.history_items)) q
        ∙ take-truncate compress config (head_of turn turn.history_items) turn.history_items
    | inr (inl (e, q)) ↦ ap (take (head_of turn turn.history_items)) q ∙ take-windowed
    | inr (inr (e, q)) ↦
        ap (take (head_of turn turn.history_items)) q
        ∙ subst (λ n. take n dropped ≡ take n windowed) head_of-windowed
            (drop_loop-take fitting (head_of turn windowed) (length unloaded) unloaded
              ∙ unload_loop-take store fitting (head_of turn windowed) (length windowed) windowed)
        ∙ take-windowed
  ]

  -- Whatever the hook cuts off a history to make its prompt fit, its latest turn stays, that is its last
  -- message and the tool rounds after it, and in a sub-session also the items up to the first user
  -- message, the task; only images in them are compressed.
  pub compress_history-keeps :
      let items = (compress_history tokens compress store config token_budget turn).0 in
      let head = head_of turn turn.history_items in
      latest_turn items ≡ map (compress_item compress) (latest_turn turn.history_items)
      × take head items ≡ map (compress_item compress) (take head turn.history_items)
  compress_history-keeps = (compress_history-latest_turn, compress_history-head)

  or_true : (b c : Bool) → c ≡ true → (b || c) ≡ true
  or_true true c h = refl
  or_true false c h = h

  -- The loop that drops items never stops early, for want of fuel: the history that the hook returns
  -- has a prompt that fits the budget, or no more items than the head and the latest turn have together,
  -- or no item between them that can be dropped.
  pub compress_history-ends :
      IsDropped
        (fits tokens token_budget turn)
        (head_of turn turn.history_items)
        (compress_history tokens compress store config token_budget turn).0
  compress_history-ends = elim result-cases [
    | inl (e, q) ↦ inl (or_true _ _ (ap fitting q ∙ e))
    | inr (inl (e, q)) ↦ inl (or_true _ _ (ap fitting q ∙ e))
    | inr (inr (e, q)) ↦ subst (IsDropped fitting (head_of turn turn.history_items)) (sym q) (
        subst (λ n. IsDropped fitting n dropped) head_of-windowed
          (drop_loop-IsDropped fitting (head_of turn windowed) (length unloaded) unloaded
            (omega arith)))
  ]
