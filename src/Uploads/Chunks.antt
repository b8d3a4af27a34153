-- ===== src/Uploads/Chunks.antt =====
-- Storing one chunk: `put_chunk` with the checks before the row lock and the step under it, and
-- what drops chunks again (backend/app/api/v1/endpoints/uploads.py,
-- backend/app/services/upload_sessions.py).
use text.Mathlib.Text.{◌==◌ as str_eq}
use yarrow.Prelude.{
  ℕ, ◌+◌, ◌-◌, ◌*◌, String, Bool, true, false, not, ◌&&◌, ◌||◌, Option, none, some, List, [], ◌∷◌,
  ◌++◌, map, ltb, leb, ◌==◌, if◌then◌else◌, or_else, length, keep, find_first, sum_of, take,
}
use yarrow.Prelude.Int.{ℤ, pos, negsuc}
use yarrow.Status.{Status, completed, failed, is_canceled}
use yarrow.Uploads.Model.{
  Settings, Bytes, Externals, Upload, Key, same_key, chunk_key, Chunk, Db, Error, Result, ok, raise,
  Action, not_found_404, already_finished_409, expired_410, failed_400, no_such_part_400,
  incomplete_400, damaged_400, part_too_large_413, quota_413, different_content_409, storage_503,
  put_object, drop_object, new_expiry, is_expired, fail_with,
}

infixl 5 ◌>>=◌ ◌>>◌
abbrev pub ◌>>=◌ : {A B : Type 0} → Result A → (A → Result B) → Result B
ok a >>= f = f a
raise e >>= f = raise e

abbrev pub guard : Bool → Error → Result (Unit {0})
guard true e = ok tt
guard false e = raise e

abbrev pub ◌>>◌ : {B : Type 0} → Result (Unit {0}) → Result B → Result B
m >> k = m >>= λ _. k

abbrev pub corrupt_message : String
corrupt_message = "The uploaded file did not arrive intact. Please upload it again."

abbrev pub unsupported_message : String
unsupported_message = "Unsupported file type. Yarrow accepts PDF, PNG, JPEG and GIF files."

-- Every chunk is `chunk_size_bytes` long, except a shorter last one.
unfoldable pub expected_chunk_size : Upload → ℕ → ℕ
expected_chunk_size upload index =
    if ltb index (upload.chunk_count - 1)
    then upload.chunk_size_bytes
    else upload.total_size_bytes - upload.chunk_size_bytes * (upload.chunk_count - 1)

unfoldable pub owned : ℕ → Option Upload → Result Upload
owned owner_id none = raise not_found_404
owned owner_id (some upload) =
    if upload.owner_id == owner_id then ok upload else raise not_found_404

unfoldable pub load : ℕ → Db → Result Upload
unfolding owned
load owner_id db = owned owner_id db.upload

unfoldable pub open_by_status : Status → Bool → Option String → Result (Unit {0})
open_by_status completed gone message = raise already_finished_409
open_by_status failed gone message = raise (failed_400 (or_else message corrupt_message))
open_by_status status gone message = if is_canceled status || gone then raise expired_410 else ok tt

unfoldable pub require_open : ℕ → Upload → Result (Unit {0})
unfolding open_by_status is_expired
require_open now upload = open_by_status upload.status (is_expired now upload) upload.error_message

-- `not 0 <= index < upload.chunk_count`
unfoldable pub part_index : ℤ → Upload → Result ℕ
part_index (pos index) upload =
    if ltb index upload.chunk_count then ok index else raise no_such_part_400
part_index (negsuc _) upload = raise no_such_part_400

-- The request's body arrives in parts; reading stops once it is over the limit.
unfoldable pub read_body : ℕ → Bytes → List Bytes → Result Bytes
read_body limit body [] = ok body
read_body limit body (part ∷ rest) =
    let longer = body ++ part in
    let further = read_body limit longer rest in
    if ltb limit (length longer) then raise part_too_large_413 else further

pub record Part : Type 0 where
  pub index : ℕ
  pub body : Bytes
  pub digest : ℕ

-- The declared checksum, absent or as `strip().lower()` leaves it, against the computed one.
abbrev pub header_agrees : Option ℕ → ℕ → Bool
header_agrees none digest = true
header_agrees (some declared) digest = declared == digest

abbrev pub load_open : ℕ → ℕ → Db → Result Upload
load_open now owner_id db = do upload ← load owner_id db; require_open now upload; ok upload

-- The checks of the request against its session's row and the space that its owner has left.
unfoldable pub check_body :
    Settings → Externals → ℤ → List Bytes → Option ℕ → Upload → ℕ → Result Part
check_body settings externals requested parts header upload used = do
  index ← part_index requested upload
  let expected = expected_chunk_size upload index
  body ← read_body expected [] parts
  guard (length body == expected) incomplete_400
  let digest = externals.sha256 body
  guard (header_agrees header digest) damaged_400
  guard (leb (upload.total_size_bytes + used) settings.storage_quota_bytes) quota_413
  ok (record { index = index; body = body; digest = digest })

-- `put_chunk` up to the lock, on the rows as they were read without one.
unfoldable pub check_part :
    Settings → Externals → ℕ → ℕ → ℤ → List Bytes → Option ℕ → Db → Result Part
unfolding check_body
check_part settings externals now owner_id requested parts header db = do
  upload ← load_open now owner_id db
  check_body settings externals requested parts header upload db.storage_used_bytes

-- What fails at this moment: an upload to the store, a download or a deletion of a key, and the
-- job queue.
pub record Faults : Type 0 where
  pub download_fails : Key → Bool
  pub queue_fails : Bool
  pub upload_fails : Bool
  pub delete_fails : Key → Bool

-- The keys that could not be removed, and the objects that are left.
unfoldable pub delete_objects :
    (Key → Bool) → List Key → (Key → Option Bytes) → List Key × (Key → Option Bytes)
delete_objects fails [] objects = ([], objects)
delete_objects fails (key ∷ keys) objects =
    let (kept, left) =
      delete_objects fails keys (if fails key then objects else drop_object key objects) in
    (if fails key then key ∷ kept else kept, left)

abbrev pub has_key : Key → List Key → Bool
has_key key [] = false
has_key key (k ∷ ks) = same_key key k || has_key key ks

unfoldable pub discard_chunks : (Key → Bool) → Db → Db
discard_chunks fails db =
    let (kept, left) =
      delete_objects fails (map (λ (c : Chunk). c.storage_key) db.chunks) db.objects in
    record db { chunks = keep (λ c. has_key c.storage_key kept) db.chunks; objects = left }

-- `_fail`: the session is failed for good and its chunks are dropped.
unfoldable pub fail : {A : Type 0} → (Key → Bool) → Upload → String → Action A
fail fails upload reason db = (
  raise (failed_400 reason),
  discard_chunks fails (record db {
    upload = some (record upload { status = failed; error_message = some reason });
  }),
)

abbrev allowed_extension : String → Bool
allowed_extension e =
    str_eq e "pdf" || str_eq e "png" || str_eq e "jpg" || str_eq e "jpeg" || str_eq e "gif"

abbrev pub supported : Option String → Bool
supported none = false
supported (some extension) = allowed_extension extension

abbrev pub sniff_bytes : ℕ
sniff_bytes = 8192

abbrev pub find_chunk : ℕ → List Chunk → Option Chunk
find_chunk index = find_first (λ c. c.chunk_index == index)

pub record Receipt : Type 0 where
  pub index : ℕ
  pub size_bytes : ℕ
  pub sha256 : ℕ
  pub already_received : Bool
  pub received_bytes : ℕ
  pub received_count : ℕ

-- The commit, and the receipt that is counted after it.
unfoldable pub confirm : Settings → ℕ → Upload → Part → Bool → Action Receipt
unfolding new_expiry
confirm settings now upload part already db = (
  ok (record {
    index = part.index;
    size_bytes = length part.body;
    sha256 = part.digest;
    already_received = already;
    received_bytes = sum_of (λ (c : Chunk). c.size_bytes) db.chunks;
    received_count = length db.chunks;
  }),
  record db { upload = some (record upload { expires_at = new_expiry settings now }) },
)

-- The row of a chunk whose object is stored.
unfoldable pub new_row : Upload → Part → Chunk
unfolding chunk_key
new_row upload part = record {
  chunk_index = part.index;
  size_bytes = length part.body;
  sha256 = part.digest;
  storage_key = chunk_key upload.id part.index part.digest;
}

-- A chunk that has no row yet: its object first, then its row.
unfoldable pub store_new : Settings → Externals → Faults → ℕ → Upload → Part → Action Receipt
unfolding new_row
store_new settings externals faults now upload part db =
    if part.index == 0 && not (supported (externals.guess (take sniff_bytes part.body)))
    then fail faults.delete_fails upload unsupported_message db
    else if faults.upload_fails
    then fail_with storage_503 db
    else confirm settings now upload part false (record db {
      objects = put_object (chunk_key upload.id part.index part.digest) part.body db.objects;
      chunks = db.chunks ++ new_row upload part ∷ [];
    })

unfoldable pub store_known : Settings → ℕ → Upload → Part → Chunk → Action Receipt
store_known settings now upload part existing db =
    if existing.sha256 == part.digest
    then confirm settings now upload part true db
    else fail_with different_content_409 db

abbrev store_by_row :
    Settings → Externals → Faults → ℕ → Upload → Part → Option Chunk → Action Receipt
store_by_row settings externals faults now upload part none =
    store_new settings externals faults now upload part
store_by_row settings externals faults now upload part (some existing) =
    store_known settings now upload part existing

abbrev pub with_result : {A B : Type 0} → Result A → (A → Action B) → Action B
with_result (ok a) f db = f a db
with_result (raise e) f db = (raise e, db)

-- `put_chunk` under the session's row lock.
unfoldable pub store_part : Settings → Externals → Faults → ℕ → ℕ → Part → Action Receipt
store_part settings externals faults now owner_id part db =
    with_result (load_open now owner_id db)
      (λ upload.
        store_by_row settings externals faults now upload part (find_chunk part.index db.chunks))
      db

-- The whole request. `before` is what it read without the lock, and other requests may have
-- committed until the lock came.
unfoldable pub put_chunk :
    Settings → Externals → Faults → ℕ → ℕ → ℤ → List Bytes → Option ℕ → Db → Action Receipt
put_chunk settings externals faults now owner_id requested parts header before db =
    with_result (check_part settings externals now owner_id requested parts header before)
      (store_part settings externals faults now owner_id) db
