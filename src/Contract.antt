-- ===== src/Contract.antt =====
-- services/backend/app/schemas/ingest.py and common.py: what a client sends and what it gets back. The
-- checks that pydantic makes of lengths and patterns come before the code that is modelled.
use chrome_chatgpt_data.Prelude.{ℕ, String, Bool, Option, List}
use chrome_chatgpt_data.Prelude.Texts.{Text}
use chrome_chatgpt_data.Enums.{
  MessageRole, CompletionStatus, CaptureCompleteness, CaptureEventKind, IngestStatus,
}
use chrome_chatgpt_data.Jobs.{Payload}

pub record ClientContext : Type 0 where
  pub extension_version : String
  pub adapter_version : String
  pub captured_at : ℕ

pub record MessagePartIn : Type 0 where
  pub index : ℕ
  pub kind : String
  pub language : Option String
  pub text : Option Text
  pub structured : Payload

pub record MessageIn : Type 0 where
  pub idempotency_key : String
  pub source_conversation_id : String
  pub source_message_id : Option String
  pub role : MessageRole
  pub sequence_index : ℕ
  pub text : Text
  pub sanitized_html : Option Text
  pub parts : List MessagePartIn
  pub citations : List String
  pub completion_status : CompletionStatus
  pub is_edit : Bool
  pub is_regeneration : Bool
  pub branch_key : Option String
  pub branch_selected : Bool
  pub source_created_at : Option ℕ
  pub content_sha256 : String
  pub attachment_client_ids : List String
  pub author_name : Option String

pub record ConversationUpsertIn : Type 0 where
  pub idempotency_key : String
  pub source_conversation_id : String
  pub source_url : Option Text
  pub title : Option Text
  pub model_slug : Option String
  pub capture_completeness : CaptureCompleteness
  pub source_created_at : Option ℕ
  pub source_updated_at : Option ℕ
  pub client : ClientContext

pub record CaptureEventIn : Type 0 where
  pub idempotency_key : String
  pub kind : CaptureEventKind
  pub source_conversation_id : Option String
  pub source_message_id : Option String
  pub occurred_at : ℕ
  pub payload : Payload

pub record FeedbackIn : Type 0 where
  pub client_feedback_id : String
  pub source_conversation_id : String
  pub source_message_id : Option String
  pub kind : String
  pub rating : Option ℕ
  pub note : Option Text

-- `model_dump(mode="json")` of the item that an event records.
pub data EventPayload : Type 0 where
  of_message : MessageIn → EventPayload
  of_upsert : ConversationUpsertIn → EventPayload
  of_capture : CaptureEventIn → EventPayload

pub record ItemResult : Type 0 where
  pub index : ℕ
  pub idempotency_key : String
  pub status : IngestStatus
  pub id : Option ℕ
  pub conversation_id : Option ℕ
  pub message_id : Option ℕ
  pub message_version_id : Option ℕ
  pub reason_code : Option String
