-- ===== src/Uploads/Finalize/File.antt =====
-- The file that the chunks make, and the checks on it (backend/app/api/v1/endpoints/uploads.py).
use yarrow.Prelude.{
  ℕ, ◌+◌, ◌-◌, String, Bool, false, not, Option, none, some, List, [], ◌∷◌, ◌++◌, ltb, leb, ◌==◌,
  if◌then◌else◌, length, take,
}
use yarrow.Prelude.Sorting.{sort_by}
use yarrow.Uploads.Model.{Settings, Bytes, Upload, Key, Chunk}
use yarrow.Uploads.Chunks.{supported, sniff_bytes, corrupt_message, unsupported_message}
use yarrow.Uploads.Finalize.Lookup.{Finalize, checksum_message, too_large_message}

pub record Assembled : Type 0 where
  pub spool : Bytes
  pub size : ℕ
  pub header : Bytes

-- The file after one more chunk was written to it.
unfoldable pub append_chunk : Assembled → Bytes → Assembled
append_chunk file chunk = record {
  spool = file.spool ++ chunk;
  size = file.size + length chunk;
  header =
      if ltb (length file.header) sniff_bytes
      then file.header ++ take (sniff_bytes - length file.header) chunk
      else file.header;
}

-- `_assemble`: `none` is a download that raised.
unfoldable pub assemble : (Key → Option Bytes) → Assembled → List Key → Option Assembled
unfolding append_chunk
assemble download file [] = some file
assemble download file (key ∷ keys) = elim (download key) [
  | none ↦ none
  | some chunk ↦ assemble download (append_chunk file chunk) keys
]

abbrev pub empty_file : Assembled
empty_file = record { spool = []; size = 0; header = [] }

abbrev pub contradicts : Option ℕ → ℕ → Bool
contradicts none digest = false
contradicts (some declared) digest = not (declared == digest)

-- The checks on the assembled bytes: the first reason to fail the session.
unfoldable pub file_problem : Settings → Finalize → Upload → ℕ → ℕ → Option String → Option String
file_problem settings payload upload size digest extension =
    if not (size == upload.total_size_bytes)
    then some corrupt_message
    else if contradicts upload.expected_sha256 digest
    then some checksum_message
    else if contradicts payload.sha256 digest
    then some checksum_message
    else if not (supported extension)
    then some unsupported_message
    else if ltb settings.max_upload_bytes size
    then some too_large_message
    else none

-- Chunk rows in the order of their index.
unfoldable pub in_order : List Chunk → List Chunk
in_order = sort_by (λ a b. leb a.chunk_index b.chunk_index)
