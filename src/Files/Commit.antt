-- ===== src/Files/Commit.antt =====
-- Uploads: what a commit checks, and a file that is sent chunk by chunk.
use mathlib.Core.List.{append-nil, append_assoc}
use fairy_claw.Base.{
  ℕ, suc, ◌+◌, ◌≤◌, ◌<◌, String, ◌≡◌, refl, ◌∙◌, sym, true, Option, none, some, List, [], ◌∷◌, ◌++◌,
  ap, arith, ◌==◌, ==_iff, length, Bool-cases, Option-cases, inl, inr, str_eq, str_eq_refl, eq_iff,
}
use fairy_claw.Base.Dict.{Dict, get, put, remove, get-put_self, get-remove}
use fairy_claw.Files.{
  Bytes, PutInit, PendingUpload, StoredFile, Service, ok, invalid, chunk_at, put_init, put_chunk,
  joined, file_of, commit_file, put_commit, FileChunk, chunks_from,
}
use fairy_claw.Files.Transfer.{table, AreFramed, length-table, joined-chunks, chunks_from-AreFramed}

files-commit_file :
    (s : Service) (id : String) (u : PendingUpload) (content : Bytes) (file_id : String)
    → (commit_file s id u content file_id).files ≡ s.files ++ file_of u content file_id ∷ []
unfolding commit_file
files-commit_file s id u content file_id = refl

get-remove_self : (d : Dict PendingUpload) (id : String) → get (remove d id) id ≡ none
get-remove_self d id = get-remove d id id ∙ rw (str_eq_refl id) refl

put_commit_unknown :
    (sha256_hex : Bytes → String) (s : Service) (id file_id : String) (total : ℕ)
    → get s.uploads id ≡ none
    → put_commit sha256_hex s id total file_id ≡ some (s, invalid "upload_not_found")
unfolding put_commit
put_commit_unknown sha256_hex s id file_id total e = rw (e, put_commit) refl

put_commit-ok :
    (sha256_hex : Bytes → String) (s : Service) (id file_id : String) (total : ℕ)
    (u : PendingUpload) (content : Bytes)
    → get s.uploads id ≡ some u
    → length u.chunks ≡ total
    → joined u.chunks 0 total ≡ some content
    → length content ≡ u.request.size_bytes
    → sha256_hex content ≡ u.request.sha256_hex
    → put_commit sha256_hex s id total file_id
      ≡ some (commit_file s id u content file_id, ok (some file_id))
unfolding put_commit
put_commit-ok sha256_hex s id file_id total u content e n j l d =
    let n' = (==_iff (length u.chunks) total).1 n in
    let l' = (==_iff (length content) u.request.size_bytes).1 l in
    let d' = (eq_iff (sha256_hex content) u.request.sha256_hex).1 d in
    rw (e, put_commit) (simp (n', j, l', d') refl)

-- A commit that is answered with `ok` has stored one more file, whose content has the announced
-- size and digest and is what the chunks 0, 1, … of the upload put together, and the upload is gone:
-- the same commit again finds none. Storing the file and publishing its event are taken to succeed,
-- with nothing in between.
pub put_commit_checked :
    (sha256_hex : Bytes → String) (s s' : Service) (id file_id file_id' : String) (total : ℕ)
    (u : PendingUpload) (answer : Option String)
    → get s.uploads id ≡ some u
    → put_commit sha256_hex s id total file_id ≡ some (s', ok answer)
    → (f : StoredFile) × (s'.files ≡ s.files ++ f ∷ [])
      × (joined u.chunks 0 total ≡ some f.content)
      × (length f.content ≡ u.request.size_bytes)
      × (sha256_hex f.content ≡ u.request.sha256_hex)
      × (put_commit sha256_hex s' id total file_id' ≡ some (s', invalid "upload_not_found"))
unfolding put_commit commit_file remove
put_commit_checked sha256_hex s s' id file_id file_id' total u answer e h =
    elim (Bool-cases (length u.chunks == total)) [
      | inr n ↦ absurd (cc (rw (e, put_commit, n) at h))
      | inl n ↦ elim (Option-cases (joined u.chunks 0 total)) [
        | inl j ↦ absurd (cc (rw (e, put_commit, n, j) at h))
        | inr (content, j) ↦ elim (Bool-cases (length content == u.request.size_bytes)) [
          | inr l ↦ absurd (cc (rw (e, put_commit, n, j, l) at h))
          | inl l ↦ elim (Bool-cases (str_eq (sha256_hex content) u.request.sha256_hex)) [
            | inr d ↦ absurd (cc (rw (e, put_commit, n, j, l, d) at h))
            | inl d ↦
                let q : commit_file s id u content file_id ≡ s' =
                  cc (rw (e, put_commit, n, j, l, d) at h) in
                rw (← q) (
                  (
                    file_of u content file_id,
                    files-commit_file s id u content file_id,
                    j,
                    (==_iff (length content) u.request.size_bytes).0 l,
                    (eq_iff (sha256_hex content) u.request.sha256_hex).0 d,
                    put_commit_unknown sha256_hex (commit_file s id u content file_id) id file_id'
                        total (get-remove_self s.uploads id),
                  ))
          ]
        ]
      ]
    ]

module _ (decode : String → Option Bytes) (encode : Bytes → String)
    (decode-encode : (bs : Bytes) → decode (encode bs) ≡ some bs) where
  -- A client that sends the chunks of a file one after the other.
  abbrev pub send : Service → String → List FileChunk → Option Service
  send s id [] = some s
  send s id (c ∷ cs) = elim (put_chunk decode s id c.seq (encode c.piece) c.chunk_bytes) [
    | none ↦ none
    | some (s', answer) ↦ send s' id cs
  ]

  chunk_at-append :
      (cs : List (ℕ × Bytes)) (seq j : ℕ) (b : Bytes)
      → chunk_at cs j ≡ none
      → seq < j
      → chunk_at (cs ++ (seq, b) ∷ []) j ≡ none
  unfolding chunk_at
  chunk_at-append [] seq j b h lt = ground arith
  chunk_at-append ((n, c) ∷ cs) seq j b h lt = ground (arith, chunk_at-append cs seq j b)

  put_chunk-adds :
      (s : Service) (id : String) (u : PendingUpload) (seq : ℕ) (b : Bytes)
      → get s.uploads id ≡ some u
      → chunk_at u.chunks seq ≡ none
      → put_chunk decode s id seq (encode b) (length b)
        ≡ some (
          record s { uploads = put s.uploads id (record u { chunks = u.chunks ++ (seq, b) ∷ [] }) },
          ok none,
        )
  unfolding put_chunk
  put_chunk-adds s id u seq b e h =
      let z : (length b == length b) ≡ true = (==_iff (length b) (length b)).1 refl in
      rw (e, put_chunk) (simp (h, decode-encode b, z) refl)

  send-chunks :
      (s : Service) (id : String) (u : PendingUpload) (size seq : ℕ) (cs : List FileChunk)
      → get s.uploads id ≡ some u
      → ((j : ℕ) → seq ≤ j → chunk_at u.chunks j ≡ none)
      → AreFramed size seq cs
      → (s' : Service) × (send s id cs ≡ some s')
        × (get s'.uploads id ≡ some (record u { chunks = u.chunks ++ table cs }))
        × (s'.files ≡ s.files)
  send-chunks s id u size seq [] e h f = (s, refl, rw (append-nil u.chunks) e, refl)
  send-chunks s id u size seq (c ∷ cs) e h f =
      let u' : PendingUpload = record u { chunks = u.chunks ++ (c.seq, c.piece) ∷ [] } in
      let s₁ : Service = record s { uploads = put s.uploads id u' } in
      let q : put_chunk decode s id c.seq (encode c.piece) c.chunk_bytes ≡ some (s₁, ok none) =
        ap (put_chunk decode s id c.seq (encode c.piece)) f.1
        ∙ put_chunk-adds s id u c.seq c.piece e (h c.seq (omega (arith, f.0))) in
      let (s', r, g, k) =
        send-chunks s₁ id u' size (seq + 1) cs (get-put_self s.uploads id u')
          (λ j le.
            chunk_at-append u.chunks c.seq j c.piece (h j (omega arith)) (omega (arith, f.0, le)))
          f.5 in
      (
        s',
        rw (q, send) r,
        g
            ∙ ap (λ z. some (record u { chunks = z }))
                (append_assoc u.chunks ((c.seq, c.piece) ∷ []) (table cs)),
        k,
      )

-- A client that begins an upload with the size and the digest of a content, sends the content in the
-- chunks of any positive size that `get_chunks` cuts, and commits them, gets `ok`, and exactly one
-- file is stored, with that content. The decoding undoes the encoding. Storing the file and
-- publishing its event are taken to succeed, with nothing in between.
pub send_commit_roundtrip :
    (decode : String → Option Bytes) (encode : Bytes → String) (sha256_hex : Bytes → String)
    (decode-encode : (bs : Bytes) → decode (encode bs) ≡ some bs) (s : Service)
    (id file_id : String) (request : PutInit) (size : ℕ) (content : Bytes)
    → request.size_bytes ≡ length content
    → request.sha256_hex ≡ sha256_hex content
    → let cs = chunks_from (length content) (suc size) 0 content in
      (s' : Service) × (send decode encode decode-encode (put_init s request id).0 id cs ≡ some s')
      × (s'' : Service) × (put_commit sha256_hex s' id (length cs) file_id
          ≡ some (s'', ok (some file_id)))
      × (f : StoredFile) × (s''.files ≡ s.files ++ f ∷ [])
      × (f.content ≡ content)
unfolding put_init
send_commit_roundtrip decode encode sha256_hex decode-encode s id file_id request size content n d =
    let cs = chunks_from (length content) (suc size) 0 content in
    let u : PendingUpload = record { request = request; chunks = [] } in
    let (s', q, g, k) =
      send-chunks decode encode decode-encode (put_init s request id).0 id u (suc size) 0 cs
        (get-put_self s.uploads id u) (λ j le. unfold chunk_at in refl)
        (chunks_from-AreFramed (length content) size 0 content (omega arith)) in
    let u' : PendingUpload = record { request = request; chunks = table cs } in
    (
      s',
      q,
      commit_file s' id u' content file_id,
      put_commit-ok sha256_hex s' id file_id (length cs) u' content g (length-table cs)
          (joined-chunks (length content) size 0 content (table cs) (omega arith) (λ j le. refl))
          (sym n) (sym d),
      file_of u' content file_id,
      files-commit_file s' id u' content file_id
          ∙ ap (λ fs. fs ++ file_of u' content file_id ∷ []) k,
      refl,
    )
