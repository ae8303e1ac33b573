-- ===== src/Files/Transfer.antt =====
-- The chunks of a file: what they are, and that they put the file together again.
use fairy_claw.Base.{
  ℕ, zero, suc, ◌+◌, ◌≤◌, ◌<◌, ◌-◌, String, ◌≡◌, refl, ◌∙◌, sym, false, some, List, [], ◌∷◌, ap,
  arith, ◌==◌, leb, length, take, drop, take-append-drop, length-drop,
}
use fairy_claw.Files.{
  Bytes, FileChunk, StoredFile, Service, chunk_at, joined, chunks_from, get_for_session, get_chunks,
  chunks,
}

-- The table of chunks that an upload of these chunks holds.
abbrev pub table : List FileChunk → List (ℕ × Bytes)
table [] = []
table (c ∷ cs) = (c.seq, c.piece) ∷ table cs

pub length-table : (cs : List FileChunk) → length (table cs) ≡ length cs
length-table [] = refl
length-table (c ∷ cs) = omega (arith, length-table cs)

-- A table that holds the chunks from a number on gives back what they were cut from.
pub joined-chunks :
    (fuel size seq : ℕ) (content : Bytes) (cs : List (ℕ × Bytes))
    → length content ≤ fuel
    → ((j : ℕ)
        → seq ≤ j
        → chunk_at cs j ≡ chunk_at (table (chunks_from fuel (suc size) seq content)) j)
    → joined cs seq (length (chunks_from fuel (suc size) seq content)) ≡ some content
unfolding chunks_from joined chunk_at
joined-chunks zero size seq [] cs le h = refl
joined-chunks zero size seq (b ∷ bs) cs le h = absurd (omega arith)
joined-chunks (suc fuel) size seq [] cs le h = refl
joined-chunks (suc fuel) size seq (b ∷ bs) cs le h =
    let here : chunk_at cs seq ≡ some (take (suc size) (b ∷ bs)) =
      h seq (omega arith) ∙ ground arith in
    let rest =
      joined-chunks fuel size (seq + 1) (drop (suc size) (b ∷ bs)) cs
        (omega (arith, length-drop (suc size) (b ∷ bs)))
        (λ j le'. h j (omega arith) ∙ ground arith) in
    rw (here, joined, rest) (ap some (take-append-drop (suc size) (b ∷ bs)))

-- Each chunk carries its number and the size of its piece, which is not empty and within the limit,
-- and the chunks are marked as the last one exactly at their end.
abbrev pub AreFramed : ℕ → ℕ → List FileChunk → Type 0
AreFramed size seq [] = Unit
AreFramed size seq (c ∷ cs) =
    (c.seq ≡ seq)
    × (c.chunk_bytes ≡ length c.piece)
    × (0 < length c.piece)
    × (length c.piece ≤ size)
    × (c.is_last ≡ (length cs == 0))
    × AreFramed size (seq + 1) cs

length-take :
    (n : ℕ) (bs : Bytes)
    → (length (take n bs) ≤ n) × (length (take n bs) + length (drop n bs) ≡ length bs)
length-take zero bs = (omega arith, omega arith)
length-take (suc n) [] = (omega arith, omega arith)
length-take (suc n) (b ∷ bs) =
    (omega (arith, (length-take n bs).0), omega (arith, (length-take n bs).1))

-- Chunks remain exactly while content remains.
length-chunks_from :
    (fuel size seq : ℕ) (content : Bytes)
    → length content ≤ fuel
    → (length (chunks_from fuel size seq content) == 0) ≡ (length content == 0)
unfolding chunks_from
length-chunks_from zero size seq [] le = refl
length-chunks_from zero size seq (b ∷ bs) le = absurd (omega arith)
length-chunks_from (suc fuel) size seq [] le = refl
length-chunks_from (suc fuel) size seq (b ∷ bs) le = ground arith

last_iff_empty : (n k : ℕ) (bs : Bytes) → k ≡ length bs - n → leb (length bs) n ≡ (k == 0)
last_iff_empty n k bs h = ground arith

pub chunks_from-AreFramed :
    (fuel size seq : ℕ) (content : Bytes)
    → length content ≤ fuel
    → AreFramed (suc size) seq (chunks_from fuel (suc size) seq content)
unfolding chunks_from
chunks_from-AreFramed zero size seq content le = tt
chunks_from-AreFramed (suc fuel) size seq [] le = tt
chunks_from-AreFramed (suc fuel) size seq (b ∷ bs) le =
    let d = length-drop (suc size) (b ∷ bs) in
    let less : length (drop (suc size) (b ∷ bs)) ≤ fuel = omega (arith, d) in
    (
      refl,
      refl,
      omega arith,
      omega (arith, (length-take (suc size) (b ∷ bs)).0),
      last_iff_empty (suc size) (length (drop (suc size) (b ∷ bs))) (b ∷ bs) d
          ∙ sym (length-chunks_from fuel (suc size) (seq + 1) (drop (suc size) (b ∷ bs)) less),
      chunks_from-AreFramed fuel size (seq + 1) (drop (suc size) (b ∷ bs)) less,
    )

-- `get_chunks` with a positive chunk size, on a file that the session has under the id's normal form: it never fails, its
-- chunks are numbered from 0, none is empty or longer than the limit, just the last one is marked
-- so, and an upload that holds them gives back exactly the content of the file.
pub get_chunks_whole :
    (s : Service) (file_id session_id : String) (size : ℕ) (f : StoredFile)
    → get_for_session s.files file_id session_id ≡ some f
    → (cs : List FileChunk) × (get_chunks s file_id session_id (suc size) ≡ some (chunks cs))
      × AreFramed (suc size) 0 cs
      × (joined (table cs) 0 (length cs) ≡ some f.content)
unfolding get_chunks
get_chunks_whole s file_id session_id size f h =
    let cs = chunks_from (length f.content) (suc size) 0 f.content in
    let z : (suc size == 0) ≡ false = ground arith in
    (
      cs,
      rw (h, get_chunks, z) refl,
      chunks_from-AreFramed (length f.content) size 0 f.content (omega arith),
      joined-chunks (length f.content) size 0 f.content (table cs) (omega arith) (λ j le. refl),
    )
