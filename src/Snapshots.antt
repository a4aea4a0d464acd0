-- ===== src/Snapshots.antt =====
-- services/backend/app/services/snapshots.py: the normalized document of a conversation, and its write to
-- the object store with `handle_build_snapshot` of workers/handlers.py.
pub mod Write
pub mod Whole
pub mod Stored
mod Tests
use chrome_chatgpt_data.Prelude.{
  ℕ, ◌+◌, String, Bool, true, false, not, ◌&&◌, ◌||◌, Option, none, some, List, [], ◌∷◌, map, ◌==◌,
  if◌then◌else◌, is_some, length, new_or, or_else,
}
use chrome_chatgpt_data.Prelude.Rows.{select, find, any}
use chrome_chatgpt_data.Prelude.Sorting.{sort_by, ascending}
use chrome_chatgpt_data.Prelude.Texts.{Text, truthy, truthy_text}
use chrome_chatgpt_data.Enums.{MessageRole, CompletionStatus, CaptureCompleteness, AttachmentState}
use chrome_chatgpt_data.Jobs.{Payload}
use chrome_chatgpt_data.Policy.{Workspace}
use chrome_chatgpt_data.Archive.{Conversation, Message, MessageVersion, MessagePart}
use chrome_chatgpt_data.Attachments.{Attachment, MessageAttachment, Vault, has_attachment_id}

pub record PartDoc : Type 0 where
  pub index : ℕ
  pub kind : String
  pub language : Option String
  pub text : Option Text
  pub structured : Payload

pub record VersionDoc : Type 0 where
  pub message_version_id : ℕ
  pub version_number : ℕ
  pub is_edit : Bool
  pub is_regeneration : Bool
  pub completion_status : CompletionStatus
  pub text : Text
  pub content_sha256 : String
  pub normalized_sha256 : String
  pub char_count : ℕ
  pub token_estimate : ℕ
  pub captured_at : ℕ
  pub source_created_at : Option ℕ
  pub capture_source : String
  pub citations : List String
  pub raw_s3_key : Option Text
  pub parts : List PartDoc
  pub sanitized_html : Option Text

pub record AttachmentRecord : Type 0 where
  pub attachment_id : ℕ
  pub filename : Text
  pub original_filename : Option Text
  pub mime_type : Option String
  pub byte_size : ℕ
  pub sha256 : String
  pub state : AttachmentState
  pub is_metadata_only : Bool
  pub s3_key : Option Text
  pub s3_version_id : Option String

pub record MessageDoc : Type 0 where
  pub message_id : ℕ
  pub source_message_id : Option String
  pub fingerprint : String
  pub role : MessageRole
  pub author_name : Option String
  pub sequence_index : ℕ
  pub branch_id : Option ℕ
  pub completion_status : CompletionStatus
  pub source_created_at : Option ℕ
  pub current_version_id : Option ℕ
  pub versions : List VersionDoc
  -- the identifiers of its attachments, each with its relation
  pub attachments : List (ℕ × String)

pub record Snapshot : Type 0 where
  pub organization_id : ℕ
  pub workspace_id : ℕ
  pub workspace_hash : Option String
  pub conversation_id : ℕ
  pub source_conversation_id : String
  pub source_url : Option Text
  pub title : Option Text
  pub model_slug : Option String
  pub capture_sources : List String
  pub capture_completeness : CaptureCompleteness
  pub employee_id_hash : Option String
  pub created_at : ℕ
  pub updated_at : Option ℕ
  pub snapshot_version : ℕ
  pub generated_at : ℕ
  pub message_count : ℕ
  pub messages : List MessageDoc
  pub attachments : List AttachmentRecord

-- `_version_doc`; an empty text of HTML is left out as a missing one is.
abbrev pub part_doc : MessagePart → PartDoc
part_doc p = record {
  index = p.part_index;
  kind = p.kind;
  language = p.language;
  text = p.text_content;
  structured = p.structured;
}

unfoldable pub version_doc : Bool → List MessagePart → MessageVersion → VersionDoc
version_doc include_html parts v = record {
  message_version_id = v.id;
  version_number = v.version_number;
  is_edit = v.is_edit;
  is_regeneration = v.is_regeneration;
  completion_status = v.completion_status;
  text = v.plain_text;
  content_sha256 = v.content_sha256;
  normalized_sha256 = v.normalized_sha256;
  char_count = v.char_count;
  token_estimate = v.token_estimate;
  captured_at = v.captured_at;
  source_created_at = v.source_created_at;
  capture_source = v.capture_source;
  citations = v.citations;
  raw_s3_key = v.raw_s3_key;
  parts =
      map part_doc (
        sort_by (ascending (λ p. p.part_index)) (select (λ p. p.message_version_id == v.id) parts));
  sanitized_html = if include_html then truthy_text v.sanitized_html else none;
}

-- `_attachment_record`
unfoldable pub attachment_record : Attachment → AttachmentRecord
attachment_record a = record {
  attachment_id = a.id;
  filename = a.safe_filename;
  original_filename = a.original_filename;
  mime_type = new_or (truthy a.detected_mime_type) a.declared_mime_type;
  byte_size = a.byte_size;
  sha256 = or_else (truthy a.verified_sha256) a.sha256;
  state = a.state;
  is_metadata_only = a.is_metadata_only;
  s3_key = new_or (truthy_text a.clean_s3_key) a.quarantine_s3_key;
  s3_version_id = a.s3_version_id;
}

-- The join of the links with their attachments.
abbrev pub with_link :
    MessageAttachment
    → Option Attachment
    → List (MessageAttachment × Attachment)
    → List (MessageAttachment × Attachment)
with_link l none rows = rows
with_link l (some a) rows = (l, a) ∷ rows

unfoldable pub link_rows :
    List Attachment → List MessageAttachment → List (MessageAttachment × Attachment)
link_rows attachments [] = []
link_rows attachments (l ∷ ls) =
    with_link l (find (has_attachment_id l.attachment_id) attachments) (link_rows attachments ls)

-- The records of the rows, without those of the attachments that are seen already.
unfoldable pub attachment_records :
    List ℕ → List (MessageAttachment × Attachment) → List AttachmentRecord
attachment_records seen [] = []
attachment_records seen ((l, a) ∷ rows) =
    let unseen = attachment_records seen rows in
    let rest = attachment_records (a.id ∷ seen) rows in
    if any (λ i. i == a.id) seen then unseen else attachment_record a ∷ rest

unfoldable pub attachments_by_message :
    ℕ → List (MessageAttachment × Attachment) → List (ℕ × String)
attachments_by_message i [] = []
attachments_by_message i ((l, a) ∷ rows) =
    let rest = attachments_by_message i rows in
    if l.message_id == i then (a.id, l.relation) ∷ rest else rest

-- The document of a message, with all its versions in the order of their numbers.
unfoldable pub message_doc :
    Bool
    → List MessageVersion
    → List MessagePart
    → List (MessageAttachment × Attachment)
    → Message
    → MessageDoc
unfolding version_doc attachments_by_message
message_doc include_html versions parts rows m = record {
  message_id = m.id;
  source_message_id = m.source_message_id;
  fingerprint = m.fingerprint;
  role = m.role;
  author_name = m.author_name;
  sequence_index = m.sequence_index;
  branch_id = m.branch_id;
  completion_status = m.completion_status;
  source_created_at = m.source_created_at;
  current_version_id = m.current_version_id;
  versions =
      map (version_doc include_html parts)
        (sort_by (ascending (λ v. v.version_number)) (select (λ v. v.message_id == m.id) versions));
  attachments = attachments_by_message m.id rows;
}

abbrev pub is_live_message : ℕ → Message → Bool
is_live_message i m = m.conversation_id == i && not (is_some m.deleted_at)

abbrev pub is_live_version : ℕ → MessageVersion → Bool
is_live_version i v = v.conversation_id == i && not (is_some v.deleted_at)

abbrev pub workspace_hash_of : Option Workspace → Option String
workspace_hash_of none = none
workspace_hash_of (some w) = some w.workspace_hash

unfoldable pub build_snapshot : List Workspace → ℕ → Bool → Conversation → Vault → Snapshot
unfolding message_doc attachment_records link_rows
build_snapshot workspaces now include_html c v =
    let rows = link_rows v.attachments (select (λ l. l.conversation_id == c.id) v.links) in
    let messages =
      map
        (message_doc include_html (select (is_live_version c.id) v.archive.versions)
          (select (λ p. p.conversation_id == c.id) v.archive.parts) rows)
        (sort_by (ascending (λ m. m.sequence_index))
          (select (is_live_message c.id) v.archive.messages)) in
    record {
      organization_id = c.organization_id;
      workspace_id = c.workspace_id;
      workspace_hash = workspace_hash_of (find (λ w. w.id == c.workspace_id) workspaces);
      conversation_id = c.id;
      source_conversation_id = c.source_conversation_id;
      source_url = c.source_url;
      title = c.title;
      model_slug = c.model_slug;
      capture_sources = c.capture_sources;
      capture_completeness = c.capture_completeness;
      employee_id_hash = c.employee_id_hash;
      created_at = c.created_at;
      updated_at = new_or c.source_updated_at c.last_captured_at;
      snapshot_version = c.snapshot_version + 1;
      generated_at = now;
      message_count = length messages;
      messages = messages;
      attachments = attachment_records [] rows;
    }
