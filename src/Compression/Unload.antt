-- ===== src/Compression/Unload.antt =====
-- The first loop of execute_hook in context_compression.py, which unloads images.
use mathlib.Core.Path.{subst}
use fairy_claw.Base.{
  ℕ, zero, suc, ◌+◌, ◌≤◌, ◌≡◌, refl, ◌∙◌, ap, sym, Bool, true, false, Option, none, some, ◌⊎◌, List,
  [], ◌∷◌, inl, inr, arith, Bool-cases, Option-cases, take, length,
}
use fairy_claw.History.{ChatHistoryItem, block, tool, SessionMessageBlock}
use fairy_claw.Compression.{message_blocks, first_protected}
use fairy_claw.Compression.Images.{
  Store, UnloadedRecord, unload_between, unload_oldest_image_message,
}
use fairy_claw.Compression.Hook.{unload_loop}
use fairy_claw.Compression.Turn.{
  has_block, latest_turn, latest_turn-cons, has_block-latest_turn, suffix_length-latest_turn,
  length-latest_turn,
}
use fairy_claw.Compression.Gone.{is_unloadable, unloadable, replace-cases}

-- An item that is put in front of a change before the latest turn.
latest_turn-behind :
    (hi : ℕ) (x : ChatHistoryItem) (xs ys : List ChatHistoryItem)
    → suc hi + length (latest_turn (x ∷ xs)) ≤ suc (length xs)
    → (hi + length (latest_turn xs) ≤ length xs → latest_turn ys ≡ latest_turn xs)
    → latest_turn (x ∷ ys) ≡ latest_turn (x ∷ xs)
unfolding latest_turn
latest_turn-behind hi x xs ys h same = elim (Bool-cases (has_block xs)) [
  | inl e ↦
      let p = same (omega (arith, ap length (latest_turn-cons x xs e))) in
      latest_turn-cons x ys
        (sym (has_block-latest_turn ys) ∙ ap has_block p ∙ has_block-latest_turn xs ∙ e)
      ∙ p
      ∙ sym (latest_turn-cons x xs e)
  | inr e ↦ absurd (omega (arith, rw (e, latest_turn) at h))
]

-- One turn of the loop, `lo` and `hi` items before the ends of its range: one item of the range is
-- replaced, which had images to unload and has none after.
pub data Unloads (store : Store)
    : ℕ → ℕ → List ChatHistoryItem → List ChatHistoryItem → Type 0 where
  here :
      {hi : ℕ} {xs : List ChatHistoryItem} (m m' : SessionMessageBlock)
      → is_unloadable store (message_blocks xs) (block m) ≡ true
      → is_unloadable store (message_blocks xs) (block m') ≡ false
      → Unloads store 0 (suc hi) (block m ∷ xs) (block m' ∷ xs)
  behind :
      {hi : ℕ} {xs ys : List ChatHistoryItem} (x : ChatHistoryItem)
      → Unloads store 0 hi xs ys
      → Unloads store 0 (suc hi) (x ∷ xs) (x ∷ ys)
  protected :
      {lo hi : ℕ} {xs ys : List ChatHistoryItem} (x : ChatHistoryItem)
      → Unloads store lo hi xs ys
      → Unloads store (suc lo) (suc hi) (x ∷ xs) (x ∷ ys)

module _ (store : Store) where
  abbrev items_of : Option (List ChatHistoryItem × UnloadedRecord) → List ChatHistoryItem
  items_of none = []
  items_of (some (ys, r)) = ys

  unload_between-Unloads :
      (index lo hi : ℕ) (xs ys : List ChatHistoryItem) (r : UnloadedRecord)
      → unload_between store index lo hi xs ≡ some (ys, r)
      → Unloads store lo hi xs ys
  unfolding unload_between
  unload_between-Unloads index lo hi [] ys r h = absurd cc
  unload_between-Unloads index lo zero (x ∷ xs) ys r h = absurd cc
  unload_between-Unloads index (suc lo) (suc hi) (x ∷ xs) ys r h =
      elim (Option-cases (unload_between store (index + 1) lo hi xs)) [
        | inl e ↦ absurd (cc (rw (e, unload_between) at h))
        | inr ((ys', r'), e) ↦
            subst (λ zs. Unloads store (suc lo) (suc hi) (x ∷ xs) zs)
              (ap items_of (rw (e, unload_between) at h))
              (protected x (unload_between-Unloads (index + 1) lo hi xs ys' r' e))
      ]
  unload_between-Unloads index zero (suc hi) (x ∷ xs) ys r h =
      elim (replace-cases store index (message_blocks xs) x) [
        | inr (u, ((m, r'), e, g)) ↦ taken x u g (rw (e, unload_between) at h)
        | inl (u, e) ↦ elim (Option-cases (unload_between store (index + 1) zero hi xs)) [
          | inl q ↦ absurd (cc (rw (e, q, unload_between) at h))
          | inr ((ys', r'), q) ↦
              subst (λ zs. Unloads store 0 (suc hi) (x ∷ xs) zs)
                (ap items_of (rw (e, q, unload_between) at h))
                (behind x (unload_between-Unloads (index + 1) zero hi xs ys' r' q))
        ]
      ]
    where
      taken :
          (x : ChatHistoryItem)
          → is_unloadable store (message_blocks xs) x ≡ true
          → {m : SessionMessageBlock} {r' : UnloadedRecord}
          → is_unloadable store (message_blocks xs) (block m) ≡ false
          → ◌≡◌ {A = Option (List ChatHistoryItem × UnloadedRecord)}
              (some (block m ∷ xs, r'))
              (some (ys, r))
          → Unloads store 0 (suc hi) (x ∷ xs) ys
      taken (tool t) u g q = absurd cc
      taken (block m₀) u {m} g q =
          subst (λ zs. Unloads store 0 (suc hi) (block m₀ ∷ xs) zs) (ap items_of q) (here m₀ m u g)

  fewer-behind :
      (x : ChatHistoryItem) (xs ys : List ChatHistoryItem)
      → suc (unloadable store ys) ≡ unloadable store xs × message_blocks ys ≡ message_blocks xs
      → suc (unloadable store (x ∷ ys)) ≡ unloadable store (x ∷ xs)
        × message_blocks (x ∷ ys) ≡ message_blocks (x ∷ xs)
  unfolding message_blocks
  fewer-behind (block m) xs ys (f, b) = (rw b omega arith, ap suc b)
  fewer-behind (tool r) xs ys (f, b) = (omega arith, b)

  Unloads-fewer :
      {lo hi : ℕ} {xs ys : List ChatHistoryItem}
      → Unloads store lo hi xs ys
      → suc (unloadable store ys) ≡ unloadable store xs × message_blocks ys ≡ message_blocks xs
  unfolding message_blocks
  Unloads-fewer (here m m' u g) = (rw (u, g) omega arith, refl)
  Unloads-fewer (behind x u) = fewer-behind x _ _ (Unloads-fewer u)
  Unloads-fewer (protected x u) = fewer-behind x _ _ (Unloads-fewer u)

  Unloads-take :
      {lo hi : ℕ} {xs ys : List ChatHistoryItem}
      → Unloads store lo hi xs ys
      → take lo ys ≡ take lo xs
  Unloads-take (here m m' u g) = refl
  Unloads-take (behind x u) = refl
  Unloads-take (protected x u) = ap (λ zs. x ∷ zs) (Unloads-take u)

  Unloads-latest_turn :
      {lo hi : ℕ} {xs ys : List ChatHistoryItem}
      → Unloads store lo hi xs ys
      → hi + length (latest_turn xs) ≤ length xs
      → latest_turn ys ≡ latest_turn xs
  unfolding latest_turn
  Unloads-latest_turn {xs = []} u h = elim u [ ]
  Unloads-latest_turn {xs = _ ∷ xs} (here m m' u g) h = elim (Bool-cases (has_block xs)) [
    | inl e ↦ latest_turn-cons (block m') xs e ∙ sym (latest_turn-cons (block m) xs e)
    | inr e ↦ absurd (omega (arith, rw (e, latest_turn) at h))
  ]
  Unloads-latest_turn {xs = _ ∷ xs} {ys = _ ∷ ys} (behind x u) h =
      latest_turn-behind _ x xs ys h (Unloads-latest_turn u)
  Unloads-latest_turn {xs = _ ∷ xs} {ys = _ ∷ ys} (protected x u) h =
      latest_turn-behind _ x xs ys h (Unloads-latest_turn u)

  -- One turn of the loop on a whole history.
  unload_oldest-Unloads :
      (p : ℕ) (xs ys : List ChatHistoryItem) (r : UnloadedRecord)
      → unload_oldest_image_message store p xs ≡ some (ys, r)
      → Unloads store p (first_protected xs) xs ys
  unfolding unload_oldest_image_message
  unload_oldest-Unloads p xs ys r h = unload_between-Unloads 0 p (first_protected xs) xs ys r h

  unload_oldest-latest_turn :
      (p : ℕ) (xs ys : List ChatHistoryItem) (r : UnloadedRecord)
      → unload_oldest_image_message store p xs ≡ some (ys, r)
      → latest_turn ys ≡ latest_turn xs
  unload_oldest-latest_turn p xs ys r h =
      Unloads-latest_turn (unload_oldest-Unloads p xs ys r h)
        (omega (arith, suffix_length-latest_turn xs, length-latest_turn xs))

  unloadable-length : (xs : List ChatHistoryItem) → unloadable store xs ≤ length xs
  unloadable-length [] = omega arith
  unloadable-length (x ∷ xs) = ground (arith, unloadable-length xs)

  module _ (fits : List ChatHistoryItem → Bool) (p : ℕ) where
    -- Why the loop stops on a history: the prompt fits, or no image is left to unload.
    abbrev pub IsUnloaded : List ChatHistoryItem → Type 0
    IsUnloaded xs = fits xs ≡ true ⊎ unload_oldest_image_message store p xs ≡ none

    unload_loop-cases :
        (n : ℕ) (xs : List ChatHistoryItem)
        → (IsUnloaded xs × (unload_loop fits store p (suc n) xs).0 ≡ xs)
          ⊎ ((ys : List ChatHistoryItem) × ((r : UnloadedRecord) × unload_oldest_image_message store
                    p xs
                  ≡ some (ys, r)
                × (unload_loop fits store p (suc n) xs).0 ≡ (unload_loop fits store p n ys).0))
    unfolding unload_loop
    unload_loop-cases n xs = elim (Bool-cases (fits xs)) [
      | inl e ↦ inl (inl e, rw e refl)
      | inr e ↦ elim (Option-cases (unload_oldest_image_message store p xs)) [
        | inl q ↦ inl (inr q, rw (e, q) refl)
        | inr ((ys, r), q) ↦ inr (ys, (r, q, rw (e, q) refl))
      ]
    ]

    pub unload_loop-latest_turn :
        (n : ℕ) (xs : List ChatHistoryItem)
        → latest_turn (unload_loop fits store p n xs).0 ≡ latest_turn xs
    unfolding unload_loop
    unload_loop-latest_turn zero xs = refl
    unload_loop-latest_turn (suc n) xs = elim (unload_loop-cases n xs) [
      | inl (d, q) ↦ ap latest_turn q
      | inr (ys, (r, h, q)) ↦
          ap latest_turn q ∙ unload_loop-latest_turn n ys ∙ unload_oldest-latest_turn p xs ys r h
    ]

    pub unload_loop-take :
        (n : ℕ) (xs : List ChatHistoryItem) → take p (unload_loop fits store p n xs).0 ≡ take p xs
    unfolding unload_loop
    unload_loop-take zero xs = refl
    unload_loop-take (suc n) xs = elim (unload_loop-cases n xs) [
      | inl (d, q) ↦ ap (take p) q
      | inr (ys, (r, h, q)) ↦
          ap (take p) q ∙ unload_loop-take n ys ∙ Unloads-take (unload_oldest-Unloads p xs ys r h)
    ]

    -- With as much fuel as items whose images can go, the loop stops by itself.
    unload_loop-stops :
        (n : ℕ) (xs : List ChatHistoryItem)
        → unloadable store xs ≤ n
        → IsUnloaded (unload_loop fits store p n xs).0
    unfolding unload_loop
    unload_loop-stops zero xs h = elim (Option-cases (unload_oldest_image_message store p xs)) [
      | inl q ↦ inr q
      | inr ((ys, r), q) ↦
          absurd (omega (arith, (Unloads-fewer (unload_oldest-Unloads p xs ys r q)).0))
    ]
    unload_loop-stops (suc n) xs h = elim (unload_loop-cases n xs) [
      | inl (d, q) ↦ rw q d
      | inr (ys, (r, u, q)) ↦ rw q (
          unload_loop-stops n ys
            (omega (arith, (Unloads-fewer (unload_oldest-Unloads p xs ys r u)).0)))
    ]

    pub unload_loop-IsUnloaded :
        (xs : List ChatHistoryItem) → IsUnloaded (unload_loop fits store p (length xs) xs).0
    unload_loop-IsUnloaded xs = unload_loop-stops (length xs) xs (unloadable-length xs)
