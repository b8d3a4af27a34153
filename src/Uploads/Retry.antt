-- ===== src/Uploads/Retry.antt =====
-- A confirmed chunk is never replaced, and a chunk may be sent again
-- (backend/app/api/v1/endpoints/uploads.py).
use yarrow.Prelude.{
  ℕ, ◌<◌, ◌+◌, ◌≡◌, ◌∙◌, refl, ◌⊎◌, inl, inr, true, not, ◌&&◌, Option, none, some, List, arith,
  Bool-cases, Option-cases, ==_refl, ◌==◌, sum_of, length, take,
}
use yarrow.Prelude.Int.{ℤ, pos, negsuc}
use yarrow.Uploads.Model.{
  Settings, Bytes, Externals, Upload, Chunk, Db, ok, raise, failed_400, is_expired, new_expiry,
}
use yarrow.Uploads.Chunks.{
  Part, Faults, Receipt, find_chunk, store_part, new_row, store_new, store_known, confirm, fail,
  load_open, load, require_open, supported, sniff_bytes, unsupported_message, check_part,
  check_body, part_index, expected_chunk_size, put_chunk,
}
use yarrow.Uploads.Confirmed.{find_chunk-append}
use yarrow.Uploads.Put.{Result-cases, check_part-inv}

module _ (e : Externals) (settings : Settings) (faults : Faults) (now : ℕ) (part : Part) where
  store_new_keeps :
      (upload : Upload) (db : Db) (i : ℕ) (c : Chunk)
      → find_chunk i db.chunks ≡ some c
      → ((store_new settings e faults now upload part db).0
          ≡ raise (failed_400 unsupported_message))
        ⊎ (find_chunk i (store_new settings e faults now upload part db).1.chunks ≡ some c)
  unfolding store_new fail confirm
  store_new_keeps upload db i c there =
      elim (Bool-cases
        (part.index == 0 && not (supported (e.guess (take sniff_bytes part.body))))) [
          | inl bad ↦ inl (rw bad)
          | inr fine ↦ inr (
              rw fine (elim (Bool-cases faults.upload_fails) [
                | inl down ↦ rw down there
                | inr up ↦ rw up (find_chunk-append i db.chunks _ ∙ rw there)
              ]))
        ]

  store_part_keeps :
      (owner_id : ℕ) (db : Db) (i : ℕ) (c : Chunk)
      → find_chunk i db.chunks ≡ some c
      → ((store_part settings e faults now owner_id part db).0
          ≡ raise (failed_400 unsupported_message))
        ⊎ (find_chunk i (store_part settings e faults now owner_id part db).1.chunks ≡ some c)
  unfolding store_part
  store_part_keeps owner_id db i c there = elim (Result-cases (load_open now owner_id db)) [
    | inl (refusal, stopped) ↦ inr (rw stopped there)
    | inr (u, opened) ↦ rw opened (elim (Option-cases (find_chunk part.index db.chunks)) [
      | inl absent ↦ rw absent (store_new_keeps u db i c there)
      | inr (existing, known) ↦ rw known (
          inr (
            unfold store_known confirm in
            elim (Bool-cases (existing.sha256 == part.digest)) [
              | inl equal ↦ rw equal there
              | inr differs ↦ rw differs there
            ]))
    ])
  ]

-- However a chunk request ends, a chunk confirmed before it still has its row, with the same digest
-- and key, unless the request found that the first part is of no accepted type and failed the
-- session for good.
pub confirmed_kept :
    (e : Externals) (settings : Settings) (faults : Faults) (now owner_id : ℕ) (requested : ℤ)
    (parts : List Bytes) (header : Option ℕ) (before db : Db) (i : ℕ) (c : Chunk)
    → find_chunk i db.chunks ≡ some c
    → ((put_chunk settings e faults now owner_id requested parts header before db).0
        ≡ raise (failed_400 unsupported_message))
      ⊎ (find_chunk i
            (put_chunk settings e faults now owner_id requested parts header before db).1.chunks
          ≡ some c)
unfolding put_chunk
confirmed_kept e settings faults now owner_id requested parts header before db i c there =
    elim (Result-cases (check_part settings e now owner_id requested parts header before)) [
      | inl (refusal, stopped) ↦ inr (rw stopped there)
      | inr (part, passed) ↦
          rw passed (store_part_keeps e settings faults now part owner_id db i c there)
    ]

-- What an accepted chunk leaves: its row with its digest, and the session open for another window.
pub record IsAccepted (settings : Settings) (now : ℕ) (upload : Upload) (part : Part)
    (receipt : Receipt) (used : ℕ) (after : Db) : Type 0 where
  pub row : Chunk
  pub found : find_chunk part.index after.chunks ≡ some row
  pub digest : (row.sha256 == part.digest) ≡ true
  pub extended : after.upload ≡ some (record upload { expires_at = new_expiry settings now })
  pub unused : after.storage_used_bytes ≡ used
  pub received : receipt ≡ record {
    index = part.index;
    size_bytes = length part.body;
    sha256 = part.digest;
    already_received = receipt.already_received;
    received_bytes = sum_of (λ (c : Chunk). c.size_bytes) after.chunks;
    received_count = length after.chunks;
  }

module _ (e : Externals) (settings : Settings) (faults : Faults) (now : ℕ) (part : Part)
    (upload : Upload) (db : Db) (receipt : Receipt) where
  store_new-IsAccepted :
      find_chunk part.index db.chunks ≡ none
      → (store_new settings e faults now upload part db).0 ≡ ok receipt
      → IsAccepted settings now upload part receipt db.storage_used_bytes
          (store_new settings e faults now upload part db).1
  unfolding store_new fail confirm
  store_new-IsAccepted absent =
      elim (Bool-cases
        (part.index == 0 && not (supported (e.guess (take sniff_bytes part.body))))) [
          | inl bad ↦ rw bad (λ h. cc)
          | inr fine ↦ rw fine (elim (Bool-cases faults.upload_fails) [
            | inl down ↦ rw down (λ h. cc)
            | inr up ↦ rw up (λ h. record {
              row = new_row upload part;
              found = find_chunk-append part.index db.chunks _ ∙ rw (absent, ==_refl);
              digest = ==_refl part.digest;
              extended = refl;
              unused = refl;
              received = ground arith;
            })
          ])
        ]

  store_known-IsAccepted :
      (existing : Chunk)
      → find_chunk part.index db.chunks ≡ some existing
      → (store_known settings now upload part existing db).0 ≡ ok receipt
      → IsAccepted settings now upload part receipt db.storage_used_bytes
          (store_known settings now upload part existing db).1
  unfolding store_known confirm
  store_known-IsAccepted existing there = elim (Bool-cases (existing.sha256 == part.digest)) [
    | inl equal ↦ rw equal (λ h. record {
      row = existing;
      found = there;
      digest = equal;
      extended = refl;
      unused = refl;
      received = ground arith;
    })
    | inr differs ↦ rw differs (λ h. cc)
  ]

  store_part-IsAccepted :
      (owner_id : ℕ)
      → load_open now owner_id db ≡ ok upload
      → (store_part settings e faults now owner_id part db).0 ≡ ok receipt
      → IsAccepted settings now upload part receipt db.storage_used_bytes
          (store_part settings e faults now owner_id part db).1
  unfolding store_part
  store_part-IsAccepted owner_id opened =
      rw opened (elim (Option-cases (find_chunk part.index db.chunks)) [
        | inl absent ↦ rw absent (store_new-IsAccepted absent)
        | inr (existing, there) ↦ rw there (store_known-IsAccepted existing there)
      ])

-- The session is open again at a later time of its new window, with the same sizes.
reopened :
    (settings : Settings) (now later owner_id : ℕ) (u : Upload) (db after : Db)
    → load_open now owner_id db ≡ ok u
    → after.upload ≡ some (record u { expires_at = new_expiry settings now })
    → later < now + settings.session_ttl
    → load_open later owner_id after ≡ ok (record u { expires_at = new_expiry settings now })
unfolding load require_open new_expiry is_expired
reopened settings now later owner_id u db after opened extended soon = ground arith

check_body-later :
    (settings : Settings) (e : Externals) (requested : ℤ) (parts : List Bytes) (header : Option ℕ)
    (u : Upload) (used expires : ℕ)
    → check_body settings e requested parts header (record u { expires_at = expires }) used
      ≡ check_body settings e requested parts header u used
unfolding check_body part_index expected_chunk_size
check_body-later settings e (pos i) parts header u used expires = refl
check_body-later settings e (negsuc i) parts header u used expires = refl

-- A request that passed its checks does what `store_part` does.
put_chunk_passed :
    (e : Externals) (settings : Settings) (faults : Faults) (now owner_id : ℕ) (requested : ℤ)
    (parts : List Bytes) (header : Option ℕ) (before db : Db) (part : Part)
    → check_part settings e now owner_id requested parts header before ≡ ok part
    → put_chunk settings e faults now owner_id requested parts header before db
      ≡ store_part settings e faults now owner_id part db
unfolding put_chunk
put_chunk_passed e settings faults now owner_id requested parts header before db part passed =
    rw passed

module _ (e : Externals) (settings : Settings) (faults : Faults) (now later owner_id : ℕ)
    (requested : ℤ) (parts : List Bytes) (header : Option ℕ) (part : Part) (upload : Upload)
    (receipt : Receipt) (db after : Db) (opened : load_open now owner_id db ≡ ok upload)
    (checked : check_body settings e requested parts header upload db.storage_used_bytes ≡ ok part)
    (a : IsAccepted settings now upload part receipt db.storage_used_bytes after)
    (soon : later < now + settings.session_ttl) where
  second_check : check_part settings e later owner_id requested parts header after ≡ ok part
  unfolding check_part
  second_check =
      rw (reopened settings now later owner_id upload db after opened a.extended soon)
        (rw (check_body-later, a.unused) checked)

  second_store :
      store_part settings e faults later owner_id part after
      ≡ confirm settings later
          (record upload { expires_at = new_expiry settings now })
          part
          true
          after
  unfolding store_part store_known
  second_store =
      rw (reopened settings now later owner_id upload db after opened a.extended soon)
        (rw a.found (rw a.digest))

  second_put :
      let again = put_chunk settings e faults later owner_id requested parts header after after in
      (again.0 ≡ ok (record receipt { already_received = true }))
      × ((row : Upload) × (after.upload ≡ some row)
          × (again.1 ≡ record after {
            upload = some (record row { expires_at = later + settings.session_ttl });
          }))
  unfolding confirm new_expiry
  second_put =
      rw
        (put_chunk_passed e settings faults later owner_id requested parts header after after part
          second_check)
        (rw second_store (cc a.received, (_, a.extended, refl)))

-- A chunk that was accepted may be sent again while its session has not expired: a second request
-- with the same part, on the rows and objects that the first left, is accepted as already received,
-- with the same receipt otherwise, even while the store refuses uploads, and all that it changes is
-- when the session expires, which is its window from then.
pub put_chunk_retry :
    (e : Externals) (settings : Settings) (faults faults' : Faults) (now later owner_id : ℕ)
    (requested : ℤ) (parts : List Bytes) (header : Option ℕ) (db : Db) (receipt : Receipt)
    → (put_chunk settings e faults now owner_id requested parts header db db).0 ≡ ok receipt
    → later < now + settings.session_ttl
    → let after = (put_chunk settings e faults now owner_id requested parts header db db).1 in
      let again = put_chunk settings e faults' later owner_id requested parts header after after in
      (again.0 ≡ ok (record receipt { already_received = true }))
      × ((row : Upload) × (after.upload ≡ some row)
          × (again.1 ≡ record after {
            upload = some (record row { expires_at = later + settings.session_ttl });
          }))
put_chunk_retry e settings faults faults' now later owner_id requested parts header db receipt
      accepted soon =
    elim (Result-cases (check_part settings e now owner_id requested parts header db)) [
      | inl (refusal, stopped) ↦ absurd (unfold put_chunk in cc (rw stopped at accepted))
      | inr (part, passed) ↦
          let (u, opened, checked) =
            check_part-inv settings e now owner_id requested parts header db part passed in
          let same =
            put_chunk_passed e settings faults now owner_id requested parts header db db part
              passed in
          let a =
            store_part-IsAccepted e settings faults now part u db receipt owner_id opened
              (rw same at accepted) in
          rw same (
            second_put e settings faults' now later owner_id requested parts header part u receipt
              db _ opened checked a soon)
    ]
