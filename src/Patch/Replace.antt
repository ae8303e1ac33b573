-- ===== src/Patch/Replace.antt =====
-- What a hunk with removals does to a file.
use mathlib.Core.List.{append_assoc}
use fairy_claw.Base.{
  ℕ, zero, suc, ◌+◌, ◌≡◌, ◌≢◌, refl, ◌∙◌, ap, sym, String, true, not, ◌&&◌, Option, none, some, ◌⊎◌,
  List, [], ◌∷◌, ◌++◌, inl, inr, arith, Bool-cases, Option-cases, str_eq, eq_iff, length,
  length-append, nonempty, take, drop, map, not_empty, starts_with,
}
use fairy_claw.Patch.{
  without_newline, matches, search, find_sequence, or_else, find_block, splice, expected_old,
  replacement_new, with_newline, has_removals, apply_removal, apply_hunk,
}

-- The lines but for their ends.
abbrev pub bare : List String → List String
bare lines = map without_newline lines

abbrev head_or : List String → String
head_or [] = ""
head_or (l ∷ ls) = l

abbrev tail_of : List String → List String
tail_of [] = []
tail_of (l ∷ ls) = ls

abbrev index_of : Option ℕ → ℕ
index_of none = 0
index_of (some i) = i

matches-block :
    (seq lines : List String)
    → matches seq lines ≡ true
    → (block post : List String) × lines ≡ block ++ post × bare block ≡ bare seq
unfolding matches
matches-block [] lines h = ([], lines, refl, refl)
matches-block (s ∷ seq) [] h = absurd cc
matches-block (s ∷ seq) (l ∷ lines) h =
    elim (Bool-cases (str_eq (without_newline l) (without_newline s))) [
      | inl e ↦
          let (block, post, q, b) = matches-block seq lines (rw (e, matches) at h) in
          (
            l ∷ block,
            post,
            ap (λ ls. l ∷ ls) q,
            ap (λ x. x ∷ bare block) ((eq_iff (without_newline l) (without_newline s)).0 e)
                ∙ ap (λ ls. without_newline s ∷ ls) b,
          )
      | inr e ↦ absurd (cc (rw (e, matches) at h))
    ]

block-matches :
    (seq block post : List String) → bare block ≡ bare seq → matches seq (block ++ post) ≡ true
unfolding matches
block-matches [] block post h = refl
block-matches (s ∷ seq) [] post h = absurd cc
block-matches (s ∷ seq) (l ∷ block) post h =
    let same : str_eq (without_newline l) (without_newline s) ≡ true =
      (eq_iff (without_newline l) (without_newline s)).1 (ap head_or h) in
    rw same (block-matches seq block post (ap tail_of h))

-- A position that is found is one where the lines are.
search-block :
    (idx start i : ℕ) (seq lines : List String)
    → search idx start seq lines ≡ some i
    → (pre block post : List String) × lines ≡ pre ++ block ++ post
      × bare block ≡ bare seq
      × i ≡ idx + length pre
unfolding search
search-block idx start i seq [] h = absurd cc
search-block idx (suc start) i seq (l ∷ lines) h =
    let (pre, block, post, q, b, n) = search-block (idx + 1) start i seq lines h in
    (l ∷ pre, block, post, ap (λ ls. l ∷ ls) q, b, omega arith)
search-block idx zero i seq (l ∷ lines) h = elim (Bool-cases (matches seq (l ∷ lines))) [
  | inl e ↦
      let (block, post, q, b) = matches-block seq (l ∷ lines) e in
      let at_idx : idx ≡ i = ap index_of (rw (e, search) at h) in
      ([], block, post, q, b, omega arith)
  | inr e ↦
      let (pre, block, post, q, b, n) =
        search-block (idx + 1) zero i seq lines (rw (e, search) at h) in
      (l ∷ pre, block, post, ap (λ ls. l ∷ ls) q, b, omega arith)
]

-- Where the search from the start fails, the lines are nowhere.
search-none :
    (idx : ℕ) (seq lines pre block post : List String)
    → search idx 0 seq lines ≡ none
    → not_empty seq ≡ true
    → lines ≡ pre ++ block ++ post
    → bare block ≢ bare seq
unfolding search
search-none idx [] lines pre block post h ne q b = absurd cc
search-none idx (s ∷ seq) [] [] [] post h ne q b = absurd cc
search-none idx (s ∷ seq) [] [] (x ∷ block) post h ne q b = absurd cc
search-none idx (s ∷ seq) [] (p ∷ pre) block post h ne q b = absurd cc
search-none idx (s ∷ seq) (l ∷ lines) [] block post h ne q b =
    let found : matches (s ∷ seq) (l ∷ lines) ≡ true =
      ap (matches (s ∷ seq)) q ∙ block-matches (s ∷ seq) block post b in
    absurd (cc (rw (found, search) at h))
search-none idx (s ∷ seq) (l ∷ lines) (p ∷ pre) block post h ne q b =
    elim (Bool-cases (matches (s ∷ seq) (l ∷ lines))) [
      | inl e ↦ absurd (cc (rw (e, search) at h))
      | inr e ↦
          search-none (idx + 1) (s ∷ seq) lines pre block post (rw (e, search) at h) ne
            (ap tail_of q) b
    ]

-- A hunk with removals expects lines.
expected-not_empty :
    (body : List String) → has_removals body ≡ true → not_empty (expected_old body) ≡ true
unfolding expected_old
expected-not_empty [] h = absurd cc
expected-not_empty (l ∷ body) h = elim (Bool-cases (starts_with l " ")) [
  | inl e ↦ rw e refl
  | inr e ↦ elim (Bool-cases (starts_with l "-")) [
    | inl q ↦ rw (e, q) refl
    | inr q ↦
        let later = expected-not_empty body (rw q at h) in
        elim (Bool-cases (starts_with l "+")) [
          | inl p ↦ rw (e, q, p) later
          | inr p ↦ elim (Bool-cases (nonempty l && not (starts_with l "@@"))) [
            | inl z ↦ rw (e, q, p, z) refl
            | inr z ↦ rw (e, q, p, z) later
          ]
        ]
  ]
]

take-front : (xs ys : List String) → take (length xs) (xs ++ ys) ≡ xs
take-front [] ys = refl
take-front (x ∷ xs) ys = ap (λ zs. x ∷ zs) (take-front xs ys)

drop-front : (xs ys : List String) → drop (length xs) (xs ++ ys) ≡ ys
drop-front [] ys = refl
drop-front (x ∷ xs) ys = drop-front xs ys

length-bare : (xs : List String) → length (bare xs) ≡ length xs
length-bare [] = refl
length-bare (x ∷ xs) = ap suc (length-bare xs)

-- Putting lines at the place of a block.
splice-block :
    (lines pre block post new : List String) (i n : ℕ)
    → lines ≡ pre ++ block ++ post
    → i ≡ 0 + length pre
    → n ≡ length block
    → splice lines i n new ≡ pre ++ new ++ post
splice-block lines pre block post new i n q hi hn =
    let at_pre : i ≡ length pre = omega arith in
    let behind : i + n ≡ length (pre ++ block) = omega (arith, length-append pre block) in
    let front : take i lines ≡ pre =
      ap (λ k. take k lines) at_pre
      ∙ ap (take (length pre)) (q ∙ append_assoc pre block post)
      ∙ take-front pre (block ++ post) in
    let back : drop (i + n) lines ≡ post =
      ap (λ k. drop k lines) behind
      ∙ ap (drop (length (pre ++ block))) q
      ∙ drop-front (pre ++ block) post in
    ap (λ ls. ls ++ new ++ drop (i + n) lines) front ∙ ap (λ ls. pre ++ new ++ ls) back

search-sequence :
    (lines seq : List String) (start : ℕ)
    → not_empty seq ≡ true
    → find_sequence lines seq start ≡ search 0 start seq lines
unfolding find_sequence
search-sequence lines seq start ne = rw ne refl

-- A block found is the lines of the hunk, and where none is found they are nowhere.
find_block-cases :
    (lines old : List String) (cursor : ℕ)
    → not_empty old ≡ true
    → ((pre block post : List String) → lines ≡ pre ++ block ++ post → bare block ≢ bare old)
        × find_block lines old cursor ≡ none
      ⊎ ((i : ℕ) × (pre block post : List String) × lines ≡ pre ++ block ++ post
          × bare block ≡ bare old
          × i ≡ 0 + length pre
          × find_block lines old cursor ≡ some i)
unfolding find_block
find_block-cases lines old cursor ne =
    let behind = search-sequence lines old cursor ne in
    let whole = search-sequence lines old 0 ne in
    elim (Option-cases (search 0 cursor old lines)) [
      | inr (i, e) ↦
          let (pre, block, post, q, b, n) = search-block 0 cursor i old lines e in
          inr (
            i,
            pre,
            block,
            post,
            q,
            b,
            n,
            ap (λ o. or_else o (find_sequence lines old 0)) (behind ∙ e),
          )
      | inl e ↦ elim (Option-cases (search 0 0 old lines)) [
        | inr (i, z) ↦
            let (pre, block, post, q, b, n) = search-block 0 0 i old lines z in
            inr (
              i,
              pre,
              block,
              post,
              q,
              b,
              n,
              ap (λ o. or_else o (find_sequence lines old 0)) (behind ∙ e) ∙ whole ∙ z,
            )
        | inl z ↦
            let failed : find_block lines old cursor ≡ none =
              ap (λ o. or_else o (find_sequence lines old 0)) (behind ∙ e) ∙ whole ∙ z in
            inl ((λ pre block post q. search-none 0 old lines pre block post z ne q), failed)
      ]
    ]

-- A hunk that removes lines finds its old lines in the file, but for the ends of the lines, and puts its
-- new lines in the place of exactly these, with all before and behind them as it was; or the old lines
-- are nowhere in the file, and the patch fails.
pub apply_hunk_replaces :
    (lines body : List String) (cursor : ℕ)
    → has_removals body ≡ true
    → ((pre block post : List String)
          → lines ≡ pre ++ block ++ post
          → bare block ≢ bare (expected_old body))
        × apply_hunk lines cursor body ≡ none
      ⊎ ((cursor' : ℕ) × (pre block post : List String) × lines ≡ pre ++ block ++ post
          × bare block ≡ bare (expected_old body)
          × apply_hunk lines cursor body
            ≡ some (pre ++ map with_newline (replacement_new body) ++ post, cursor'))
unfolding apply_hunk apply_removal
apply_hunk_replaces lines body cursor h =
    let old = expected_old body in
    let new = map with_newline (replacement_new body) in
    elim (find_block-cases lines old cursor (expected-not_empty body h)) [
      | inl (nowhere, e) ↦ inl (nowhere, rw (h, e, apply_hunk, apply_removal) refl)
      | inr (i, pre, block, post, q, b, n, e) ↦
          let same_length : length old ≡ length block =
            sym (length-bare old) ∙ ap length (sym b) ∙ length-bare block in
          let placed = splice-block lines pre block post new i (length old) q n same_length in
          inr (
            i + length new,
            pre,
            block,
            post,
            q,
            b,
            rw (h, e, apply_hunk, apply_removal) (ap (λ ls. some (ls, i + length new)) placed),
          )
    ]
