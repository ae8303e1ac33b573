-- ===== src/Files.antt =====
-- `GatewayFileService` of fairyclaw/core/gateway_protocol/files.py: files that come and go in chunks.
-- Base64 and SHA-256 are arguments, as are the ids that the service draws; `none` is an exception
-- of Python. A commit is one step: the calls that store a file and publish its event are taken to succeed,
-- and nothing to run in between.
pub mod Transfer
pub mod Commit
pub mod Tests
use fairy_claw.Base.{
  ℕ, zero, suc, ◌+◌, String, Bool, true, false, not, Option, none, some, List, [], ◌∷◌, ◌++◌,
  if◌then◌else◌, ◌==◌, leb, str_eq, length, take, drop, is_some, map, append, starts_with, lower,
  drop_chars,
}
use fairy_claw.Base.Dict.{Dict, get, put, remove}

abbrev pub Bytes : Type 0
Bytes = List ℕ

-- The request of `put_init`.
pub record PutInit : Type 0 where
  pub session_id : String
  pub adapter_key : String
  pub message_id : String
  pub filename : String
  pub mime_type : Option String
  pub size_bytes : ℕ
  pub sha256_hex : String

-- An upload that has been begun: its request, and its chunks by their numbers.
pub record PendingUpload : Type 0 where
  pub request : PutInit
  pub chunks : List (ℕ × Bytes)

pub record StoredFile : Type 0 where
  pub id : String
  pub session_id : String
  pub filename : String
  pub content : Bytes
  pub mime_type : Option String

-- A `file_upload_received` event: its session, file, message and source.
pub record UploadEvent : Type 0 where
  pub session_id : String
  pub file_id : String
  pub message_id : String
  pub source : String

pub record Service : Type 0 where
  pub uploads : Dict PendingUpload
  pub files : List StoredFile
  pub published : List UploadEvent

-- `GatewayFilePutAck`: the status, for an invalid request with the code of the error, and for a
-- commit the id of the file.
pub data PutAck : Type 0 where
  ok : Option String → PutAck
  duplicate : PutAck
  invalid : String → PutAck

unfoldable pub put_init : Service → PutInit → String → Service × PutAck
put_init s request upload_id = (
  record s { uploads = put s.uploads upload_id (record { request = request; chunks = [] }) },
  ok none,
)

-- `chunks.get(seq)`
unfoldable pub chunk_at : List (ℕ × Bytes) → ℕ → Option Bytes
chunk_at [] seq = none
chunk_at ((n, b) ∷ cs) seq = if n == seq then some b else chunk_at cs seq

unfoldable pub put_chunk :
    (String → Option Bytes) → Service → String → ℕ → String → ℕ → Option (Service × PutAck)
put_chunk decode s upload_id seq data_b64 chunk_bytes = elim (get s.uploads upload_id) [
  | none ↦ some (s, invalid "upload_not_found")
  | some upload ↦
      if is_some (chunk_at upload.chunks seq) then some (s, duplicate) else elim (decode data_b64) [
        | none ↦ none
        | some bytes ↦
            if not (length bytes == chunk_bytes)
            then some (s, invalid "chunk_size_mismatch")
            else some (
              record s {
                uploads =
                    put s.uploads upload_id
                      (record upload { chunks = upload.chunks ++ (seq, bytes) ∷ [] });
              },
              ok none,
            )
      ]
]

-- `b"".join(upload.chunks[index] for index in range(total))`, from an index on.
unfoldable pub joined : List (ℕ × Bytes) → ℕ → ℕ → Option Bytes
joined cs index zero = some []
joined cs index (suc n) = elim (chunk_at cs index) [
  | none ↦ none
  | some b ↦ elim (joined cs (index + 1) n) [ none ↦ none | some rest ↦ some (b ++ rest) ]
]

-- The file that `FileRepository.create` adds.
abbrev pub file_of : PendingUpload → Bytes → String → StoredFile
file_of upload content file_id = record {
  id = file_id;
  session_id = upload.request.session_id;
  filename = upload.request.filename;
  content = content;
  mime_type = upload.request.mime_type;
}

-- The end of a commit: the file is stored, its event published and the upload forgotten.
pub commit_file : Service → String → PendingUpload → Bytes → String → Service
commit_file s upload_id upload content file_id = record {
  uploads = remove s.uploads upload_id;
  files = s.files ++ file_of upload content file_id ∷ [];
  published =
      s.published
      ++ record {
        session_id = upload.request.session_id;
        file_id = file_id;
        message_id = upload.request.message_id;
        source = append "gateway:" upload.request.adapter_key;
      }
        ∷ [];
}

-- The commit as one step: `repo.create` and `publish_runtime_event` are taken to succeed, and no other
-- call of the service to come between them and the `pop`.
unfoldable pub put_commit :
    (Bytes → String) → Service → String → ℕ → String → Option (Service × PutAck)
put_commit sha256_hex s upload_id total_chunks file_id = elim (get s.uploads upload_id) [
  | none ↦ some (s, invalid "upload_not_found")
  | some upload ↦
      if not (length upload.chunks == total_chunks)
      then some (s, invalid "chunk_count_mismatch")
      else elim (joined upload.chunks 0 total_chunks) [
        | none ↦ none
        | some content ↦
            if not (length content == upload.request.size_bytes)
            then some (s, invalid "file_size_mismatch")
            else if not (str_eq (sha256_hex content) upload.request.sha256_hex)
            then some (s, invalid "sha256_mismatch")
            else some (commit_file s upload_id upload content file_id, ok (some file_id))
      ]
]

-- `GatewayFileGetChunk`, with its data before the encoding.
pub record FileChunk : Type 0 where
  pub seq : ℕ
  pub piece : Bytes
  pub chunk_bytes : ℕ
  pub is_last : Bool

-- The loop of `get_chunks` over what is left of the content. Each turn but the last takes
-- `chunk_size` bytes, so the length of the content is enough fuel for a positive size.
unfoldable pub chunks_from : ℕ → ℕ → ℕ → Bytes → List FileChunk
chunks_from zero chunk_size seq content = []
chunks_from (suc fuel) chunk_size seq [] = []
chunks_from (suc fuel) chunk_size seq (b ∷ bs) =
    let content = b ∷ bs in
    record {
      seq = seq;
      piece = take chunk_size content;
      chunk_bytes = length (take chunk_size content);
      is_last = leb (length content) chunk_size;
    }
    ∷ chunks_from fuel chunk_size (seq + 1) (drop chunk_size content)

unfoldable pub find_file : List StoredFile → String → String → Option StoredFile
find_file [] file_id session_id = none
find_file (f ∷ fs) file_id session_id =
    let rest = find_file fs file_id session_id in
    if not (str_eq f.id file_id)
    then rest
    else if str_eq f.session_id session_id
    then some f
    else none

-- `_normalize_file_id_for_lookup` of fairyclaw/infrastructure/database/repository.py.
unfoldable pub normalize_file_id_for_lookup : String → String
normalize_file_id_for_lookup file_id =
    if not (starts_with file_id "file_")
    then file_id
    else append "file_" (lower (drop_chars 5 file_id))

-- `get_for_session` of the same file: the file with this id, in its normal form, if the session has it.
unfoldable pub get_for_session : List StoredFile → String → String → Option StoredFile
unfolding find_file
get_for_session files file_id session_id =
    find_file files (normalize_file_id_for_lookup file_id) session_id

-- `get_chunks`; no chunks stand for the answer `file_not_found`, and a size of 0 raises.
pub data GetAnswer : Type 0 where
  file_not_found : GetAnswer
  chunks : List FileChunk → GetAnswer

unfoldable pub get_chunks : Service → String → String → ℕ → Option GetAnswer
get_chunks s file_id session_id chunk_size = elim (get_for_session s.files file_id session_id) [
  | none ↦ some file_not_found
  | some f ↦
      if chunk_size == 0
      then none
      else some (chunks (chunks_from (length f.content) chunk_size 0 f.content))
]
