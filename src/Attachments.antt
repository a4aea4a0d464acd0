-- ===== src/Attachments.antt =====
-- services/backend/app/services/attachments.py and models/attachment.py: the attachments, from the
-- presigned upload on. A function of a session takes the tables and the object store and returns them;
-- what it raises rolls its tables back.
pub mod Init
pub mod Bytes
pub mod Complete
pub mod Finalize
pub mod Lifecycle
pub mod Changes
pub mod Reach
pub mod Verified
pub mod LongText
pub mod Queued
mod Tests
use text.Mathlib.Text.{◌==◌ as str_eq}
use chrome_chatgpt_data.Prelude.{
  ℕ, ◌+◌, ◌*◌, String, Bool, true, false, not, ◌&&◌, ◌||◌, Option, none, some, List, [], ◌∷◌, ◌++◌,
  ltb, ◌==◌, if◌then◌else◌, take,
}
use chrome_chatgpt_data.Prelude.Rows.{find, any, update, count}
use chrome_chatgpt_data.Prelude.Texts.{Text, codes}
use chrome_chatgpt_data.Prelude.Results.{Result, ok, err, ◌>>=◌, ◌>>◌, guard}
use chrome_chatgpt_data.Enums.{
  AttachmentState, pending, quarantine, clean, rejected, expired, metadata_only, live_only,
}
use chrome_chatgpt_data.Jobs.{Payload, Scalar, plain_text, second}
use chrome_chatgpt_data.Policy.{Settings, PolicyCode, assert_attachment_capture_allowed}
use chrome_chatgpt_data.Exif.{bytes_eq}
use chrome_chatgpt_data.Archive.{Conversation, Store}
use chrome_chatgpt_data.Ingest.{Externals, IngestContext}
use chrome_chatgpt_data.Ingest.Conversations.{ConversationIn, get_or_create_conversation}
use chrome_chatgpt_data.Filenames.{Unicode, safe_filename, suffix_of}
use chrome_chatgpt_data.Storage.{Stage, attachment_key, Objects, PresignedPut, presign_put}

pub record Attachment : Type 0 where
  pub id : ℕ
  pub organization_id : ℕ
  pub workspace_id : ℕ
  pub conversation_id : ℕ
  pub user_id : Option ℕ
  pub device_id : Option ℕ
  pub client_attachment_id : String
  pub original_filename : Option Text
  pub safe_filename : Text
  pub declared_mime_type : Option String
  pub detected_mime_type : Option String
  pub extension : Option Text
  pub byte_size : ℕ
  pub verified_byte_size : Option ℕ
  pub sha256 : String
  pub verified_sha256 : Option String
  pub state : AttachmentState
  pub rejection_reason : Option String
  pub is_metadata_only : Bool
  pub source_file_id : Option String
  pub quarantine_s3_key : Option Text
  pub clean_s3_key : Option Text
  pub curated_s3_key : Option Text
  pub s3_version_id : Option String
  pub presign_issued_at : Option ℕ
  pub presign_expires_at : Option ℕ
  pub uploaded_at : Option ℕ
  pub verified_at : Option ℕ
  pub scan_status : Option String
  pub scan_result : Payload
  pub exif_stripped : Bool
  pub metadata_json : Payload

pub record MessageAttachment : Type 0 where
  pub id : ℕ
  pub attachment_id : ℕ
  pub message_id : ℕ
  pub message_version_id : Option ℕ
  pub conversation_id : ℕ
  pub position : ℕ
  pub relation : String

-- The archive, the attachments with their links, and the object store.
pub record Vault : Type 0 where
  pub archive : Store
  pub attachments : List Attachment
  pub links : List MessageAttachment
  pub objects : Objects

-- `max_attachment_bytes` and `presigned_upload_ttl_seconds`
pub record Limits : Type 0 where
  pub max_attachment_bytes : ℕ
  pub presigned_upload_ttl : ℕ

pub data AttachmentError : Type 0 where
  policy_refused : PolicyCode → AttachmentError
  attachment_too_large : AttachmentError
  mime_type_not_allowed : AttachmentError
  extension_mismatch : AttachmentError
  attachment_not_found : AttachmentError
  attachment_owner_mismatch : AttachmentError
  linkage_denied : AttachmentError

abbrev pub docx : String
docx = "application/vnd.openxmlformats-officedocument.wordprocessingml.document"

abbrev pub xlsx : String
xlsx = "application/vnd.openxmlformats-officedocument.spreadsheetml.sheet"

abbrev pub pptx : String
pptx = "application/vnd.openxmlformats-officedocument.presentationml.presentation"

-- `ALLOWED_MIME_TYPES`
abbrev pub allowed_mime_types : List (String × List Text)
allowed_mime_types =
    ("image/png", codes ".png" ∷ [])
    ∷ ("image/jpeg", codes ".jpg" ∷ codes ".jpeg" ∷ [])
    ∷ ("image/webp", codes ".webp" ∷ [])
    ∷ ("image/gif", codes ".gif" ∷ [])
    ∷ ("application/pdf", codes ".pdf" ∷ [])
    ∷ ("text/plain", codes ".txt" ∷ codes ".log" ∷ codes ".md" ∷ [])
    ∷ ("text/csv", codes ".csv" ∷ [])
    ∷ ("text/markdown", codes ".md" ∷ [])
    ∷ ("application/json", codes ".json" ∷ [])
    ∷ (docx, codes ".docx" ∷ [])
    ∷ (xlsx, codes ".xlsx" ∷ [])
    ∷ (pptx, codes ".pptx" ∷ [])
    ∷ []

abbrev pub extensions_of : String → List (String × List Text) → Option (List Text)
extensions_of mime [] = none
extensions_of mime ((m, exts) ∷ rest) =
    let later = extensions_of mime rest in if str_eq m mime then some exts else later

abbrev pub one_of : Text → List Text → Bool
one_of t [] = false
one_of t (u ∷ us) = bytes_eq u t || one_of t us

-- `AttachmentInitIn`
pub record AttachmentInitIn : Type 0 where
  pub client_attachment_id : String
  pub source_conversation_id : String
  pub filename : Text
  pub mime_type : String
  pub byte_size : ℕ
  pub sha256 : String
  pub relation : String
  pub is_metadata_only : Bool
  pub source_file_id : Option String

-- The extension must be one of those of the type.
unfoldable pub checked_name : Unicode → Text → Option (List Text) → Result AttachmentError Text
checked_name u safe none = err mime_type_not_allowed
checked_name u safe (some exts) = do
  guard (one_of (suffix_of u safe) exts) extension_mismatch
  ok safe

unfoldable pub validate_attachment_metadata :
    Unicode → Limits → AttachmentInitIn → Result AttachmentError Text
unfolding checked_name
validate_attachment_metadata u limits p = do
  guard (not (ltb limits.max_attachment_bytes p.byte_size)) attachment_too_large
  checked_name u (safe_filename u 128 p.filename) (extensions_of p.mime_type allowed_mime_types)

abbrev pub has_attachment_id : ℕ → Attachment → Bool
has_attachment_id i a = a.id == i

-- `pending_attachment_count`
abbrev pub is_open : Option ℕ → Attachment → Bool
is_open org a =
    elim a.state [ AttachmentState.pending ↦ true | AttachmentState.quarantine ↦ true | _ ↦ false ]
    && elim org [ none ↦ true | some i ↦ a.organization_id == i ]

pub pending_attachment_count : Option ℕ → List Attachment → ℕ
pending_attachment_count org = count (is_open org)

abbrev pub is_pending_state : AttachmentState → Bool
is_pending_state AttachmentState.pending = true
is_pending_state _ = false

abbrev pub expired_before : Option ℕ → ℕ → ℕ → Bool
expired_before none now grace = false
expired_before (some t) now grace = ltb (t + grace) now

abbrev pub mark_expired : String → Attachment → Attachment
mark_expired reason a = record a { state = AttachmentState.expired; rejection_reason = some reason }

-- `presign_expires_at < cutoff`
abbrev pub is_stale_upload : ℕ → Attachment → Bool
is_stale_upload now a =
    is_pending_state a.state && expired_before a.presign_expires_at now (60 * 60 * second)

unfoldable pub expire_stale_pending : ℕ → Vault → ℕ × Vault
expire_stale_pending now v = (
  count (is_stale_upload now) v.attachments,
  record v {
    attachments =
        update (is_stale_upload now)
          (mark_expired "never uploaded before the presigned URL expired") v.attachments;
  },
)
