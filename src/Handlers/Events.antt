-- ===== src/Handlers/Events.antt =====
-- services/backend/app/workers/handlers.py, `handle_archive_raw_event`: the copy of an event in the
-- object store.
use chrome_chatgpt_data.Prelude.{
  ℕ, String, Bool, true, ◌&&◌, Option, none, some, [], ◌∷◌, ◌==◌, if◌then◌else◌, is_some, holds_num,
}
use chrome_chatgpt_data.Prelude.Rows.{find, update}
use chrome_chatgpt_data.Prelude.Texts.{Text, codes, truthy_text}
use chrome_chatgpt_data.Prelude.Results.{ok, err}
use chrome_chatgpt_data.Jobs.{Job, flag, plain_text, code_points}
use chrome_chatgpt_data.Exif.{Bytes}
use chrome_chatgpt_data.Fingerprint.{Hashing}
use chrome_chatgpt_data.Archive.{CaptureEvent, MessageVersion, Store}
use chrome_chatgpt_data.Storage.{Dates, put_object}
use chrome_chatgpt_data.Worker.{Outcome, returned, non_retryable}
use chrome_chatgpt_data.Attachments.{Vault}
use chrome_chatgpt_data.Attachments.Finalize.{entry, as_id, storage_failed}
use chrome_chatgpt_data.Handlers.{Answer, key_text, or_null}

-- What the handler takes from libraries: dates, hashes, and the JSON document of an event.
pub record Archiver : Type 0 where
  pub dates : Dates
  pub hashing : Hashing
  pub event_json : CaptureEvent → Bytes

abbrev pub has_event_id : ℕ → CaptureEvent → Bool
has_event_id i e = e.id == i

abbrev pub mark_archived : ℕ → Text → Option String → CaptureEvent → CaptureEvent
mark_archived now key version e = record e {
  raw_s3_key = some key;
  raw_s3_version_id = version;
  archived_at = some now;
}

abbrev pub set_raw_key : Text → Option String → MessageVersion → MessageVersion
set_raw_key key version v = record v { raw_s3_key = some key; raw_s3_version_id = version }

-- The rows after the write: the event's and, for an event of a message, the versions that it made.
unfoldable pub save_archived : ℕ → Text → Option String → CaptureEvent → Store → Store
save_archived now key version e st = record st {
  capture_events = update (has_event_id e.id) (mark_archived now key version) st.capture_events;
  versions =
      if is_some e.message_id
      then update (λ v. holds_num v.capture_event_id e.id) (set_raw_key key version) st.versions
      else st.versions;
}

unfoldable pub write_event :
    Archiver → Answer → ℕ → Option Text → CaptureEvent → Vault → Outcome × Vault
unfolding save_archived
write_event a answer now none e v = (non_retryable (codes "s3_key missing from job payload"), v)
write_event a (err problem) now (some key) e v = storage_failed problem v
write_event a (ok version) now (some key) e v = (
  returned (
      ("s3_key", code_points key)
      ∷ ("version_id", or_null version)
      ∷ ("sha256", plain_text (a.hashing.sha256_hex (a.event_json e)))
      ∷ []),
  record v {
    objects = put_object key (a.event_json e) version v.objects;
    archive = save_archived now key version e v.archive;
  },
)

abbrev pub is_archived : CaptureEvent → Bool
is_archived e = is_some e.archived_at && is_some (truthy_text e.raw_s3_key)

abbrev pub already_archived : CaptureEvent → Outcome
already_archived e = returned (
    ("skipped", flag true)
    ∷ ("reason", plain_text "already_archived")
    ∷ ("s3_key", code_points (elim e.raw_s3_key [ none ↦ [] | some k ↦ k ]))
    ∷ [])

unfoldable pub archive_found :
    Archiver → Answer → ℕ → Job → Option CaptureEvent → Vault → Outcome × Vault
unfolding write_event
archive_found a answer now job none v = (non_retryable (codes "capture event no longer exists"), v)
archive_found a answer now job (some e) v =
    if is_archived e
    then (already_archived e, v)
    else write_event a answer now
        (key_text a.dates a.hashing.uuid_text (entry "s3_key" job.payload)) e v

unfoldable pub archive_by_id : Archiver → Answer → ℕ → Job → Option ℕ → Vault → Outcome × Vault
unfolding archive_found
archive_by_id a answer now job none v =
    (non_retryable (codes "capture_event_id missing or malformed"), v)
archive_by_id a answer now job (some i) v =
    archive_found a answer now job (find (has_event_id i) v.archive.capture_events) v

unfoldable pub handle_archive_raw_event : Archiver → Answer → ℕ → Job → Vault → Outcome × Vault
unfolding archive_by_id
handle_archive_raw_event a answer now job v =
    archive_by_id a answer now job (as_id (entry "capture_event_id" job.payload)) v
