-- ===== src/Attachments/Init.antt =====
-- services/backend/app/services/attachments.py, `init_attachment`: the reservation of an upload.
use text.Mathlib.Text.{◌==◌ as str_eq}
use chrome_chatgpt_data.Prelude.{
  ℕ, ◌+◌, String, Bool, true, false, ◌&&◌, Option, none, some, List, [], ◌∷◌, ◌++◌, ◌==◌,
  if◌then◌else◌, take,
}
use chrome_chatgpt_data.Prelude.Rows.{find, any, update}
use chrome_chatgpt_data.Prelude.Texts.{Text, codes}
use chrome_chatgpt_data.Prelude.Results.{Result, ok, err, ◌>>=◌, ◌>>◌}
use chrome_chatgpt_data.Enums.{AttachmentState, live_only}
use chrome_chatgpt_data.Jobs.{Payload, Scalar, plain_text}
use chrome_chatgpt_data.Policy.{Settings, PolicyCode, assert_attachment_capture_allowed}
use chrome_chatgpt_data.Archive.{Conversation, Store}
use chrome_chatgpt_data.Ingest.{Externals, IngestContext}
use chrome_chatgpt_data.Ingest.Conversations.{ConversationIn, get_or_create_conversation}
use chrome_chatgpt_data.Filenames.{Unicode, suffix_of}
use chrome_chatgpt_data.Storage.{Stage, attachment_key, PresignedPut, presign_put}
use chrome_chatgpt_data.Attachments.{
  Attachment, Vault, Limits, AttachmentError, policy_refused, AttachmentInitIn,
  validate_attachment_metadata, has_attachment_id,
}

pub record PresignedUpload : Type 0 where
  pub attachment : Attachment
  pub upload : Option PresignedPut
  pub expires_at : Option ℕ
  pub duplicate : Bool

abbrev pub is_client_attachment : ℕ → String → Attachment → Bool
is_client_attachment conversation_id client_id a =
    a.conversation_id == conversation_id && str_eq a.client_attachment_id client_id

-- `existing.state in (CLEAN, QUARANTINE, METADATA_ONLY)`
abbrev pub is_settled : AttachmentState → Bool
is_settled AttachmentState.clean = true
is_settled AttachmentState.quarantine = true
is_settled AttachmentState.metadata_only = true
is_settled _ = false

unfoldable pub new_attachment : IngestContext → ℕ → ℕ → AttachmentInitIn → Attachment
new_attachment ctx id conversation_id p = record {
  id = id;
  organization_id = ctx.organization.id;
  workspace_id = ctx.workspace.id;
  conversation_id = conversation_id;
  user_id = some ctx.user.id;
  device_id = ctx.device_id;
  client_attachment_id = p.client_attachment_id;
  original_filename = none;
  safe_filename = [];
  declared_mime_type = none;
  detected_mime_type = none;
  extension = none;
  byte_size = 0;
  verified_byte_size = none;
  sha256 = "";
  verified_sha256 = none;
  state = AttachmentState.pending;
  rejection_reason = none;
  is_metadata_only = false;
  source_file_id = none;
  quarantine_s3_key = none;
  clean_s3_key = none;
  curated_s3_key = none;
  s3_version_id = none;
  presign_issued_at = none;
  presign_expires_at = none;
  uploaded_at = none;
  verified_at = none;
  scan_status = none;
  scan_result = [];
  exif_stripped = false;
  metadata_json = [];
}

-- `… if "." in safe_name else None`
abbrev pub suffix_or_none : Text → Option Text
suffix_or_none [] = none
suffix_or_none (c ∷ cs) = some (c ∷ cs)

-- What the client declares.
unfoldable pub declare : Unicode → AttachmentInitIn → Text → Attachment → Attachment
declare u p safe a = record a {
  original_filename = some (take 512 p.filename);
  safe_filename = safe;
  declared_mime_type = some p.mime_type;
  extension = suffix_or_none (suffix_of u safe);
  byte_size = p.byte_size;
  sha256 = p.sha256;
  source_file_id = p.source_file_id;
  is_metadata_only = p.is_metadata_only;
}

abbrev pub set_entry : String → Scalar → Payload → Payload
set_entry k v [] = (k, v) ∷ []
set_entry k v ((j, w) ∷ rest) =
    let later = set_entry k v rest in if str_eq j k then (k, v) ∷ rest else (j, w) ∷ later

abbrev pub record_metadata_only : AttachmentInitIn → Attachment → Attachment
record_metadata_only p a = record a {
  state = AttachmentState.metadata_only;
  metadata_json =
      set_entry "relation" (plain_text p.relation)
        (set_entry "reason" (plain_text "bytes_not_available_in_page") a.metadata_json);
}

abbrev pub await_upload : ℕ → PresignedPut → Attachment → Attachment
await_upload now put a = record a {
  quarantine_s3_key = some put.key;
  state = AttachmentState.pending;
  presign_issued_at = some now;
  presign_expires_at = some put.expires_at;
}

-- `session.add(attachment)`: the row is replaced, or inserted where it is new.
unfoldable pub save_attachment : Attachment → List Attachment → List Attachment
save_attachment a rows =
    if any (has_attachment_id a.id) rows
    then update (has_attachment_id a.id) (λ r. a) rows
    else rows ++ a ∷ []

abbrev pub upload_key : Externals → Unicode → IngestContext → Conversation → Attachment → Text
upload_key ext u ctx c a =
    attachment_key u Stage.quarantine (codes ctx.workspace_hash) (codes c.source_conversation_id)
      (ext.hashing.uuid_text a.id) a.safe_filename

-- The end of `init_attachment` for the row `a`, declared.
unfoldable pub reserve :
    Externals
    → Unicode
    → IngestContext
    → Limits
    → ℕ
    → Conversation
    → AttachmentInitIn
    → Attachment
    → Vault
    → PresignedUpload × Vault
unfolding save_attachment
reserve ext u ctx limits now c p a v =
    let noted = record_metadata_only p a in
    let put =
      presign_put now limits.presigned_upload_ttl (upload_key ext u ctx c a) p.mime_type p.byte_size
        (some p.sha256) in
    let waiting = await_upload now put a in
    if p.is_metadata_only
    then (
      record { attachment = noted; upload = none; expires_at = none; duplicate = false },
      record v { attachments = save_attachment noted v.attachments },
    )
    else (
      record {
        attachment = waiting;
        upload = some put;
        expires_at = some put.expires_at;
        duplicate = false;
      },
      record v { attachments = save_attachment waiting v.attachments },
    )

-- A new row takes an identifier of the store.
abbrev pub drawn : Store → Store
drawn st = record st { uuids = st.uuids + 1 }

unfoldable pub init_row :
    Externals
    → Unicode
    → IngestContext
    → Limits
    → ℕ
    → Conversation
    → AttachmentInitIn
    → Text
    → Option Attachment
    → Vault
    → PresignedUpload × Vault
unfolding reserve declare new_attachment
init_row ext u ctx limits now c p safe none v =
    reserve ext u ctx limits now c p (declare u p safe (new_attachment ctx v.archive.uuids c.id p))
      (record v { archive = drawn v.archive })
init_row ext u ctx limits now c p safe (some a) v =
    if is_settled a.state
    then (record { attachment = a; upload = none; expires_at = none; duplicate = true }, v)
    else reserve ext u ctx limits now c p (declare u p safe a) v

abbrev pub attachment_conversation : AttachmentInitIn → ConversationIn
attachment_conversation p = record {
  source_conversation_id = p.source_conversation_id;
  title = none;
  source_url = none;
  model_slug = none;
  completeness = some live_only;
  source_created_at = none;
  source_updated_at = none;
}

unfoldable pub init_checked :
    Externals
    → Unicode
    → IngestContext
    → Limits
    → ℕ
    → AttachmentInitIn
    → Text
    → Vault
    → PresignedUpload × Vault
unfolding init_row
init_checked ext u ctx limits now p safe v =
    let (c, created, st) =
      get_or_create_conversation ext ctx now (attachment_conversation p) v.archive in
    init_row ext u ctx limits now c p safe
      (find (is_client_attachment c.id p.client_attachment_id) v.attachments)
      (record v { archive = st })

abbrev pub as_policy : {A : Type 0} → Result PolicyCode A → Result AttachmentError A
as_policy (ok a) = ok a
as_policy (err e) = err (policy_refused e)

unfoldable pub init_attachment :
    Externals
    → Unicode
    → IngestContext
    → Settings
    → Limits
    → ℕ
    → AttachmentInitIn
    → Vault
    → Result AttachmentError (PresignedUpload × Vault)
unfolding init_checked validate_attachment_metadata
init_attachment ext u ctx settings limits now p v = do
  as_policy (assert_attachment_capture_allowed settings)
  safe ← validate_attachment_metadata u limits p
  ok (init_checked ext u ctx limits now p safe v)
