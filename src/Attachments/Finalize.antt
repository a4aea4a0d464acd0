-- ===== src/Attachments/Finalize.antt =====
-- services/backend/app/workers/handlers.py, `handle_finalize_attachment`: the check of the bytes, and the
-- promotion of an attachment from quarantine.
use Prim.Native.String.{◌++◌ as concat}
use text.Mathlib.Text.{◌==◌ as str_eq}
use chrome_chatgpt_data.Prelude.{
  ℕ, String, Bool, true, false, not, ◌&&◌, ◌||◌, Option, none, some, List, [], ◌∷◌, ◌==◌,
  if◌then◌else◌, length,
}
use chrome_chatgpt_data.Prelude.Rows.{find}
use chrome_chatgpt_data.Prelude.Texts.{Text, codes, truthy, truthy_text, text_in}
use chrome_chatgpt_data.Prelude.Results.{Result, ok, err}
use chrome_chatgpt_data.Enums.{AttachmentState}
use chrome_chatgpt_data.Jobs.{Job, Payload, Scalar, null, flag, id_text, plain_text, code_points}
use chrome_chatgpt_data.Policy.{Workspace}
use chrome_chatgpt_data.Exif.{Bytes, strip_metadata}
use chrome_chatgpt_data.Archive.{Conversation}
use chrome_chatgpt_data.Ingest.{Externals}
use chrome_chatgpt_data.Filenames.{Unicode}
use chrome_chatgpt_data.Storage.{
  Stage, attachment_key, Objects, StorageError, read_failed, write_failed, copy_failed, too_large,
  Answer, get_bytes, copy_object, put_object,
}
use chrome_chatgpt_data.Worker.{Outcome, returned, non_retryable, raised}
use chrome_chatgpt_data.Attachments.{Attachment, Vault, Limits, has_attachment_id, docx, xlsx, pptx}
use chrome_chatgpt_data.Attachments.Bytes.{detect_mime_from_bytes}
use chrome_chatgpt_data.Attachments.Complete.{is_clean, set_attachment}

-- `payload[name]`, and its reading as an identifier and as a text.
abbrev pub entry : String → Payload → Option Scalar
entry name [] = none
entry name ((k, s) ∷ rest) = let later = entry name rest in if str_eq k name then some s else later

abbrev pub as_id : Option Scalar → Option ℕ
as_id (some (id_text i)) = some i
as_id _ = none

abbrev pub as_text : Option Scalar → Option String
as_text (some (plain_text s)) = some s
as_text _ = none

abbrev pub is_quarantined : AttachmentState → Bool
is_quarantined AttachmentState.quarantine = true
is_quarantined _ = false

-- The environment of a run: the workspace rows, what the store answers the copy and the write of the
-- curated object, and what others have done to the objects between the read of the bytes and their copy.
pub record World : Type 0 where
  pub workspaces : List Workspace
  pub copy_answer : Answer
  pub curated_answer : Answer
  pub meanwhile : Objects → Objects

abbrev pub workspace_label : Option String → Option Workspace → String
workspace_label (some s) w = s
workspace_label none none = "unknown"
workspace_label none (some w) = w.workspace_hash

abbrev pub conversation_label : (ℕ → Text) → ℕ → Option Conversation → Text
conversation_label uuid_text i none = uuid_text i
conversation_label uuid_text i (some c) = codes c.source_conversation_id

-- `detected != declared` and not both of the ZIP family, negated.
abbrev pub is_zip : String → Bool
is_zip mime = text_in mime (docx ∷ xlsx ∷ pptx ∷ [])

abbrev pub fits_declared : String → Option String → Bool
fits_declared detected none = false
fits_declared detected (some declared) =
    str_eq detected declared || is_zip detected && is_zip declared

abbrev pub reject : ℕ → String → Attachment → Attachment
reject now reason a = record a {
  state = AttachmentState.rejected;
  rejection_reason = some reason;
  verified_at = some now;
}

-- `_reject_attachment`; each reason is shorter than the 1000 characters that are kept.
abbrev pub reject_attachment : ℕ → ℕ → String → Vault → Outcome × Vault
reject_attachment now i reason v = (
  returned (("state", plain_text "rejected") ∷ ("reason", plain_text reason) ∷ []),
  set_attachment i (reject now reason) v,
)

abbrev pub or_version : Option String → Option String → Option String
or_version none old = old
or_version (some s) old = some s

unfoldable pub promote_row :
    ℕ → Text → Option Text → Bool → String → String → ℕ → Option String → Attachment → Attachment
promote_row now clean_key curated_key stripped detected digest size version a = record a {
  state = AttachmentState.clean;
  clean_s3_key = some clean_key;
  curated_s3_key = curated_key;
  exif_stripped = stripped;
  detected_mime_type = some detected;
  verified_sha256 = some digest;
  verified_byte_size = some size;
  verified_at = some now;
  s3_version_id = or_version (truthy version) a.s3_version_id;
  scan_status = some "not_scanned";
  scan_result =
      (
        "note",
        plain_text "ClamAV profile is optional; enable the `scan` compose profile to scan uploads.",
      )
      ∷ [];
}

abbrev pub storage_text : StorageError → Text
storage_text read_failed = codes "Object storage read failed"
storage_text write_failed = codes "Object storage write failed"
storage_text copy_failed = codes "Object storage copy failed"
storage_text too_large = codes "Stored object exceeds the configured maximum size"

abbrev pub storage_failed : StorageError → Vault → Outcome × Vault
storage_failed e v = (raised (codes "UpstreamError") (storage_text e), v)

abbrev pub key_at : Externals → Unicode → Stage → String → Text → Attachment → Text
key_at ext u stage workspace_hash conversation a =
    attachment_key u stage (codes workspace_hash) conversation (ext.hashing.uuid_text a.id)
      a.safe_filename

-- `put_bytes` of the curated copy, where something has been stripped.
abbrev pub put_curated : Bool → Text → Bytes → Answer → Objects → Result StorageError Objects
put_curated false key bytes answer objects = ok objects
put_curated true key bytes (err e) objects = err write_failed
put_curated true key bytes (ok version) objects = ok (put_object key bytes version objects)

-- The row, after the curated copy has been written or refused; a refusal leaves the clean copy.
unfoldable pub mark_clean :
    ℕ
    → Text
    → Text
    → Bool
    → String
    → String
    → ℕ
    → Option String
    → ℕ
    → Result StorageError Objects
    → Vault
    → Outcome × Vault
unfolding promote_row
mark_clean now clean_key curated_key stripped detected digest size version i (err e) v =
    storage_failed e v
mark_clean now clean_key curated_key stripped detected digest size version i (ok objects) v = (
  returned (
      ("state", plain_text "clean")
      ∷ ("clean_s3_key", code_points clean_key)
      ∷ ("curated_s3_key", if stripped then code_points curated_key else null)
      ∷ ("exif_stripped", flag stripped)
      ∷ []),
  set_attachment i
      (promote_row now clean_key (if stripped then some curated_key else none) stripped detected
        digest size version)
      (record v { objects = objects }),
)

-- After the copy under `attachments/clean/`: the curated copy, and the row.
unfoldable pub promoted :
    Externals
    → Unicode
    → World
    → ℕ
    → String
    → Text
    → Bytes
    → String
    → Attachment
    → Result StorageError (Option String × Objects)
    → Vault
    → Outcome × Vault
unfolding mark_clean
promoted ext u world now workspace_hash conversation bytes detected a (err e) v = storage_failed e v
promoted ext u world now workspace_hash conversation bytes detected a (ok (version, objects)) v =
    let (curated, stripped) = strip_metadata bytes (some detected) in
    let curated_key = key_at ext u Stage.curated workspace_hash conversation a in
    mark_clean now (key_at ext u Stage.clean workspace_hash conversation a) curated_key stripped
      detected (ext.hashing.sha256_hex bytes) (length bytes) version a.id
      (put_curated stripped curated_key curated world.curated_answer objects)
      (record v { objects = objects })

unfoldable pub copy_clean :
    Externals
    → Unicode
    → World
    → ℕ
    → Job
    → Text
    → Bytes
    → String
    → Attachment
    → Vault
    → Outcome × Vault
unfolding promoted
copy_clean ext u world now job key bytes detected a v =
    let workspace_hash =
      workspace_label (truthy (as_text (entry "workspace_hash" job.payload)))
        (find (λ w. w.id == a.workspace_id) world.workspaces) in
    let conversation =
      conversation_label ext.hashing.uuid_text a.conversation_id
        (find (λ c. c.id == a.conversation_id) v.archive.conversations) in
    let later = record v { objects = world.meanwhile v.objects } in
    promoted ext u world now workspace_hash conversation bytes detected a
      (copy_object key (key_at ext u Stage.clean workspace_hash conversation a) world.copy_answer
        later.objects)
      later

abbrev pub mismatch_text : Option String → String
mismatch_text none = "declared type None does not match content"
mismatch_text (some mime) = concat "declared type " (concat mime " does not match content")

-- The type that the bytes tell must be the declared one.
unfoldable pub check_type :
    Externals
    → Unicode
    → World
    → ℕ
    → Job
    → Text
    → Bytes
    → Option String
    → Attachment
    → Vault
    → Outcome × Vault
unfolding copy_clean
check_type ext u world now job key bytes none a v =
    reject_attachment now a.id "content does not match any allowed file type" v
check_type ext u world now job key bytes (some detected) a v =
    if fits_declared detected a.declared_mime_type
    then copy_clean ext u world now job key bytes detected a v
    else reject_attachment now a.id (mismatch_text a.declared_mime_type) v

unfoldable pub check_bytes :
    Externals
    → Unicode
    → World
    → ℕ
    → Job
    → Text
    → Result StorageError Bytes
    → Attachment
    → Vault
    → Outcome × Vault
unfolding check_type detect_mime_from_bytes
check_bytes ext u world now job key (err e) a v = storage_failed e v
check_bytes ext u world now job key (ok bytes) a v =
    if not (length bytes == a.byte_size)
    then reject_attachment now a.id "stored size does not match declared size" v
    else if not (str_eq (ext.hashing.sha256_hex bytes) a.sha256)
    then reject_attachment now a.id "sha256 mismatch between declared and stored bytes" v
    else check_type ext u world now job key bytes
        (detect_mime_from_bytes bytes a.declared_mime_type) a v

abbrev pub in_quarantine : Option Text → AttachmentState → Option Text
in_quarantine key state = if is_quarantined state then truthy_text key else none

unfoldable pub finalize_at :
    Externals
    → Unicode
    → Limits
    → World
    → ℕ
    → Job
    → Option Text
    → Attachment
    → Vault
    → Outcome × Vault
unfolding check_bytes
finalize_at ext u limits world now job none a v =
    (non_retryable (codes "attachment is not in quarantine"), v)
finalize_at ext u limits world now job (some key) a v =
    check_bytes ext u world now job key (get_bytes key limits.max_attachment_bytes v.objects) a v

unfoldable pub finalize_found :
    Externals → Unicode → Limits → World → ℕ → Job → Option Attachment → Vault → Outcome × Vault
unfolding finalize_at
finalize_found ext u limits world now job none v =
    (non_retryable (codes "attachment no longer exists"), v)
finalize_found ext u limits world now job (some a) v =
    if is_clean a.state
    then (returned (("skipped", flag true) ∷ ("reason", plain_text "already_clean") ∷ []), v)
    else finalize_at ext u limits world now job (in_quarantine a.quarantine_s3_key a.state) a v

unfoldable pub finalize_by_id :
    Externals → Unicode → Limits → World → ℕ → Job → Option ℕ → Vault → Outcome × Vault
unfolding finalize_found
finalize_by_id ext u limits world now job none v =
    (non_retryable (codes "attachment_id missing or malformed"), v)
finalize_by_id ext u limits world now job (some i) v =
    finalize_found ext u limits world now job (find (has_attachment_id i) v.attachments) v

unfoldable pub handle_finalize_attachment :
    Externals → Unicode → Limits → World → ℕ → Job → Vault → Outcome × Vault
unfolding finalize_by_id
handle_finalize_attachment ext u limits world now job v =
    finalize_by_id ext u limits world now job (as_id (entry "attachment_id" job.payload)) v
