-- ===== src/Archive.antt =====
-- services/backend/app/models/conversation.py, events.py and governance.py: the rows of the archive,
-- with the columns of the mixins in db/base.py; and the store that a session of the program sees.
use chrome_chatgpt_data.Prelude.{ℕ, String, Bool, Option, List, []}
use chrome_chatgpt_data.Prelude.Texts.{Text}
use chrome_chatgpt_data.Enums.{
  MessageRole, CompletionStatus, CaptureCompleteness, CaptureEventKind, IngestStatus,
}
use chrome_chatgpt_data.Contract.{EventPayload}
use chrome_chatgpt_data.Jobs.{Job, Payload}

pub record Conversation : Type 0 where
  pub id : ℕ
  pub organization_id : ℕ
  pub workspace_id : ℕ
  pub user_id : Option ℕ
  pub source_conversation_id : String
  pub source_url : Option Text
  pub title : Option Text
  pub model_slug : Option String
  pub capture_sources : List String
  pub capture_completeness : CaptureCompleteness
  pub employee_id_hash : Option String
  pub source_created_at : Option ℕ
  pub source_updated_at : Option ℕ
  pub first_captured_at : Option ℕ
  pub last_captured_at : Option ℕ
  pub message_count : ℕ
  pub snapshot_version : ℕ
  pub snapshot_stale : Bool
  pub snapshot_s3_key : Option Text
  pub snapshot_sha256 : Option String
  -- the keys `upstream_deleted_at` and `upstream_deletion_event_id` of `metadata_json`
  pub upstream_deletion : Option (Option ℕ × String)
  pub created_at : ℕ
  pub deleted_at : Option ℕ
  pub deletion_reason : Option String
  pub legal_hold : Bool

pub record ConversationBranch : Type 0 where
  pub id : ℕ
  pub conversation_id : ℕ
  pub source_branch_id : Option String
  pub branch_key : String
  pub is_selected : Bool
  pub detected_at : Option ℕ

pub record Message : Type 0 where
  pub id : ℕ
  pub conversation_id : ℕ
  pub organization_id : ℕ
  pub branch_id : Option ℕ
  pub source_message_id : Option String
  pub fingerprint : String
  pub role : MessageRole
  pub author_name : Option String
  pub sequence_index : ℕ
  pub source_created_at : Option ℕ
  pub current_version_id : Option ℕ
  pub version_count : ℕ
  pub completion_status : CompletionStatus
  pub has_attachments : Bool
  pub deleted_at : Option ℕ
  pub deletion_reason : Option String
  pub legal_hold : Bool

pub record MessageVersion : Type 0 where
  pub id : ℕ
  pub message_id : ℕ
  pub conversation_id : ℕ
  pub organization_id : ℕ
  pub version_number : ℕ
  pub is_edit : Bool
  pub is_regeneration : Bool
  pub completion_status : CompletionStatus
  pub plain_text : Text
  pub sanitized_html : Option Text
  pub content_sha256 : String
  pub normalized_sha256 : String
  pub char_count : ℕ
  pub token_estimate : ℕ
  pub captured_at : ℕ
  pub source_created_at : Option ℕ
  pub capture_source : String
  pub device_id : Option ℕ
  pub capture_event_id : Option ℕ
  pub citations : List String
  pub branch_selected : Bool
  -- the keys `reconciled_at`, `reconciled_from` and `superseded_by` of `metadata_json`
  pub reconciled_at : Option ℕ
  pub superseded_by : Option ℕ
  pub raw_s3_key : Option Text
  pub raw_s3_version_id : Option String
  pub deleted_at : Option ℕ
  pub deletion_reason : Option String
  pub legal_hold : Bool

pub record MessagePart : Type 0 where
  pub id : ℕ
  pub message_version_id : ℕ
  pub conversation_id : ℕ
  pub part_index : ℕ
  pub kind : String
  pub language : Option String
  pub text_content : Option Text
  pub structured : Payload
  pub byte_size : ℕ

-- `result_ref`: the identifiers that a replay returns.
pub record ResultRef : Type 0 where
  pub conversation_id : Option ℕ
  pub message_id : Option ℕ
  pub message_version_id : Option ℕ
  pub capture_event_id : Option ℕ

pub record IdempotencyKey : Type 0 where
  pub organization_id : ℕ
  pub idempotency_key : String
  pub capture_event_id : ℕ
  pub capture_event_created_at : ℕ
  pub result_ref : ResultRef
  pub created_at : ℕ

pub record CaptureEvent : Type 0 where
  pub id : ℕ
  pub created_at : ℕ
  pub organization_id : ℕ
  pub workspace_id : Option ℕ
  pub user_id : Option ℕ
  pub device_id : Option ℕ
  pub conversation_id : Option ℕ
  pub message_id : Option ℕ
  pub kind : CaptureEventKind
  pub idempotency_key : String
  pub status : IngestStatus
  pub schema_version : String
  pub adapter_version : Option String
  pub extension_version : Option String
  pub client_captured_at : Option ℕ
  pub payload : EventPayload
  pub payload_sha256 : String
  pub payload_bytes : ℕ
  pub raw_s3_key : Option Text
  pub raw_s3_version_id : Option String
  pub archived_at : Option ℕ

pub record Feedback : Type 0 where
  pub id : ℕ
  pub organization_id : ℕ
  pub conversation_id : ℕ
  pub message_id : Option ℕ
  pub user_id : Option ℕ
  pub kind : String
  pub rating : Option ℕ
  pub note : Option Text
  pub client_feedback_id : String

-- The tables of one session, and the next value of `uuid.uuid4()`.
pub record Store : Type 0 where
  pub uuids : ℕ
  pub conversations : List Conversation
  pub branches : List ConversationBranch
  pub messages : List Message
  pub versions : List MessageVersion
  pub parts : List MessagePart
  pub idempotency_keys : List IdempotencyKey
  pub capture_events : List CaptureEvent
  pub feedback : List Feedback
  pub jobs : List Job

abbrev pub empty_store : Store
empty_store = record {
  uuids = 0;
  conversations = [];
  branches = [];
  messages = [];
  versions = [];
  parts = [];
  idempotency_keys = [];
  capture_events = [];
  feedback = [];
  jobs = [];
}
