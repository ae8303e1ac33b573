-- ===== src/Files/Tests.antt =====
-- A file of five bytes that is sent in chunks of two.
use Prim.Native.Char.{code}
use fairy_claw.Base.{
  ℕ, zero, suc, ◌+◌, ◌==◌, arith, ap, ◌∙◌, String, ◌≡◌, refl, Option, none, some, List, [], ◌∷◌,
  ◌++◌, length, lower, if◌then◌else◌,
}
use fairy_claw.Base.Dict.{get}
use fairy_claw.Files.{
  Bytes, PutInit, PendingUpload, StoredFile, Service, ok, invalid, duplicate, put_init, put_chunk,
  put_commit, commit_file, joined, FileChunk, chunks_from, chunks, file_not_found, get_for_session,
  find_file, normalize_file_id_for_lookup, get_chunks, chunk_at,
}
use fairy_claw.Files.Transfer.{table, AreFramed, get_chunks_whole}
use fairy_claw.Files.Commit.{send, put_commit_checked, send_commit_roundtrip}

-- An encoding, for the test: one character for each unit of each byte, and a dot behind the byte.
encode : Bytes → String
encode [] = String.[]
encode (zero ∷ bs) = String.◌∷◌ "." (encode bs)
encode (suc n ∷ bs) = String.◌∷◌ "x" (encode (n ∷ bs))

decode_from : ℕ → String → Option Bytes
decode_from n String.[] = some []
decode_from n (String.◌∷◌ c s) =
    let here : Option Bytes = elim (decode_from 0 s) [ none ↦ none | some bs ↦ some (n ∷ bs) ] in
    let further = decode_from (n + 1) s in if code c == 46 then here else further

abbrev decode : String → Option Bytes
decode s = decode_from 0 s

decode_from-byte :
    (n m : ℕ) (bs : Bytes)
    → decode (encode bs) ≡ some bs
    → decode_from n (encode (m ∷ bs)) ≡ some ((n + m) ∷ bs)
unfolding decode_from encode
decode_from-byte n zero bs h = rw (h, decode_from) (ap (λ k. some (k ∷ bs)) (omega arith))
decode_from-byte n (suc m) bs h =
    decode_from-byte (n + 1) m bs h ∙ ap (λ k. some (k ∷ bs)) (omega arith)

decode-encode : (bs : Bytes) → decode (encode bs) ≡ some bs
unfolding decode_from encode
decode-encode [] = refl
decode-encode (m ∷ bs) =
    decode_from-byte 0 m bs (decode-encode bs) ∙ ap (λ k. some (k ∷ bs)) (omega arith)

abbrev sum_of : Bytes → String
sum_of bs = encode (length bs ∷ [])

abbrev photo : Bytes
photo = 1 ∷ 2 ∷ 3 ∷ 4 ∷ 0 ∷ []

abbrev request : PutInit
request = record {
  session_id = "s1";
  adapter_key = "web";
  message_id = "m1";
  filename = "photo.png";
  mime_type = none;
  size_bytes = 5;
  sha256_hex = sum_of photo;
}

abbrev empty_service : Service
empty_service = record { uploads = []; files = []; published = [] }

abbrev stored_photo : StoredFile
stored_photo = record {
  id = "f1";
  session_id = "s1";
  filename = "photo.png";
  content = photo;
  mime_type = none;
}

abbrev full_service : Service
full_service = record empty_service { files = stored_photo ∷ [] }

abbrev upload : PendingUpload
upload = record { request = request; chunks = (1, 4 ∷ 0 ∷ []) ∷ (0, 1 ∷ 2 ∷ 3 ∷ []) ∷ [] }

abbrev loaded_service : Service
loaded_service = record empty_service { uploads = ("u1", upload) ∷ [] }

photo_found : get_for_session full_service.files "f1" "s1" ≡ some stored_photo
unfolding get_for_session find_file normalize_file_id_for_lookup
photo_found = refl

id_is_normalised : normalize_file_id_for_lookup "file_0A1B" ≡ "file_0a1b"
unfolding normalize_file_id_for_lookup lower
id_is_normalised = refl

other_session_gets_nothing : get_chunks full_service "f1" "s2" 2 ≡ some file_not_found
unfolding get_chunks get_for_session find_file normalize_file_id_for_lookup
other_session_gets_nothing = refl

second_copy_is_duplicate :
    put_chunk decode loaded_service "u1" 1 "" 0 ≡ some (loaded_service, duplicate)
unfolding put_chunk get chunk_at
second_copy_is_duplicate = refl

missing_chunk_raises :
    put_commit sum_of
      (record empty_service { uploads = ("u1", record upload { chunks = (1, []) ∷ [] }) ∷ [] })
      "u1"
      1
      "f1"
    ≡ none
unfolding put_commit get joined chunk_at
missing_chunk_raises = refl

upload_found : get loaded_service.uploads "u1" ≡ some upload
unfolding get
upload_found = refl

committed :
    put_commit sum_of loaded_service "u1" 2 "f1"
    ≡ some (commit_file loaded_service "u1" upload photo "f1", ok (some "f1"))
unfolding put_commit get joined chunk_at encode
committed = refl

get_chunks_whole_example :
    (cs : List FileChunk) × (get_chunks full_service "f1" "s1" 2 ≡ some (chunks cs))
    × AreFramed 2 0 cs
    × (joined (table cs) 0 (length cs) ≡ some photo)
get_chunks_whole_example = get_chunks_whole full_service "f1" "s1" 1 stored_photo photo_found

put_commit_checked_example :
    let s' = commit_file loaded_service "u1" upload photo "f1" in
    (f : StoredFile) × (s'.files ≡ loaded_service.files ++ f ∷ [])
    × (joined upload.chunks 0 2 ≡ some f.content)
    × (length f.content ≡ upload.request.size_bytes)
    × (sum_of f.content ≡ upload.request.sha256_hex)
    × (put_commit sum_of s' "u1" 2 "f2" ≡ some (s', invalid "upload_not_found"))
put_commit_checked_example =
    put_commit_checked sum_of loaded_service (commit_file loaded_service "u1" upload photo "f1")
      "u1" "f1" "f2" 2 upload (some "f1") upload_found committed

send_commit_roundtrip_example :
    let cs = chunks_from (length photo) 2 0 photo in
    (s' : Service) × (send decode encode decode-encode
        (put_init empty_service request "u1").0
        "u1"
        cs
      ≡ some s')
    × (s'' : Service) × (put_commit sum_of s' "u1" (length cs) "f1" ≡ some (s'', ok (some "f1")))
    × (f : StoredFile) × (s''.files ≡ empty_service.files ++ f ∷ [])
    × (f.content ≡ photo)
send_commit_roundtrip_example =
    send_commit_roundtrip decode encode sum_of decode-encode empty_service "u1" "f1" request 1 photo
      refl refl
