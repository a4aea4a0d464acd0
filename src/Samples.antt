-- ===== src/Samples.antt =====
-- Rows of services/backend/app/models/ for the runs of the tests: the user's question 7 and the answer 8 of
-- the conversation 1, an event, a job, and an attachment.
use chrome_chatgpt_data.Prelude.{ℕ, String, true, false, none, some, []}
use chrome_chatgpt_data.Prelude.Texts.{codes}
use chrome_chatgpt_data.Enums.{
  MessageRole, CompletionStatus, complete_current_page, JobKind, JobStatus, AttachmentState,
  IngestStatus, message_version, diagnostic,
}
use chrome_chatgpt_data.Jobs.{Job, Payload}
use chrome_chatgpt_data.Contract.{of_capture}
use chrome_chatgpt_data.Archive.{Conversation, Message, MessageVersion, CaptureEvent}
use chrome_chatgpt_data.Attachments.{Attachment, MessageAttachment}

abbrev pub chat : ℕ → Conversation
chat i = record {
  id = i;
  organization_id = 3;
  workspace_id = 5;
  user_id = none;
  source_conversation_id = "c";
  source_url = none;
  title = none;
  model_slug = none;
  capture_sources = [];
  capture_completeness = complete_current_page;
  employee_id_hash = none;
  source_created_at = none;
  source_updated_at = none;
  first_captured_at = none;
  last_captured_at = none;
  message_count = 0;
  snapshot_version = 0;
  snapshot_stale = true;
  snapshot_s3_key = none;
  snapshot_sha256 = none;
  upstream_deletion = none;
  created_at = 1;
  deleted_at = none;
  deletion_reason = none;
  legal_hold = false;
}

abbrev pub message : ℕ → MessageRole → ℕ → Message
message i role position = record {
  id = i;
  conversation_id = 1;
  organization_id = 3;
  branch_id = none;
  source_message_id = none;
  fingerprint = "f";
  role = role;
  author_name = none;
  sequence_index = position;
  source_created_at = none;
  current_version_id = some i;
  version_count = 1;
  completion_status = CompletionStatus.complete;
  has_attachments = false;
  deleted_at = none;
  deletion_reason = none;
  legal_hold = false;
}

abbrev pub version : ℕ → String → MessageVersion
version i said = record {
  id = i;
  message_id = i;
  conversation_id = 1;
  organization_id = 3;
  version_number = 1;
  is_edit = false;
  is_regeneration = false;
  completion_status = CompletionStatus.complete;
  plain_text = codes said;
  sanitized_html = none;
  content_sha256 = "d";
  normalized_sha256 = "n";
  char_count = 1;
  token_estimate = 1;
  captured_at = 1;
  source_created_at = none;
  capture_source = "extension";
  device_id = none;
  capture_event_id = none;
  citations = [];
  branch_selected = true;
  reconciled_at = none;
  superseded_by = none;
  raw_s3_key = none;
  raw_s3_version_id = none;
  deleted_at = none;
  deletion_reason = none;
  legal_hold = false;
}

abbrev pub event : ℕ → CaptureEvent
event i = record {
  id = i;
  created_at = 2;
  organization_id = 3;
  workspace_id = some 5;
  user_id = some 4;
  device_id = none;
  conversation_id = some 1;
  message_id = some 7;
  kind = message_version;
  idempotency_key = "k";
  status = IngestStatus.accepted;
  schema_version = "1.0";
  adapter_version = none;
  extension_version = none;
  client_captured_at = none;
  payload = of_capture (record {
    idempotency_key = "k";
    kind = diagnostic;
    source_conversation_id = none;
    source_message_id = none;
    occurred_at = 1;
    payload = [];
  });
  payload_sha256 = "p";
  payload_bytes = 2;
  raw_s3_key = none;
  raw_s3_version_id = none;
  archived_at = none;
}

abbrev pub job_of : JobKind → Payload → Job
job_of kind payload = record {
  id = 1;
  organization_id = some 3;
  kind = kind;
  status = JobStatus.running;
  priority = 100;
  payload = payload;
  dedupe_key = none;
  attempts = 1;
  max_attempts = 8;
  run_after = 1;
  created_at = 1;
  locked_at = some 2;
  locked_by = some "w";
  lock_token = some 6;
  started_at = some 2;
  finished_at = none;
  error_summary = none;
  result = [];
}

abbrev pub attachment : ℕ → Attachment
attachment i = record {
  id = i;
  organization_id = 3;
  workspace_id = 5;
  conversation_id = 1;
  user_id = none;
  device_id = none;
  client_attachment_id = "a";
  original_filename = none;
  safe_filename = codes "a.txt";
  declared_mime_type = some "text/plain";
  detected_mime_type = none;
  extension = none;
  byte_size = 1;
  verified_byte_size = none;
  sha256 = "d";
  verified_sha256 = none;
  state = AttachmentState.clean;
  rejection_reason = none;
  is_metadata_only = false;
  source_file_id = none;
  quarantine_s3_key = none;
  clean_s3_key = some (codes "clean/a.txt");
  curated_s3_key = none;
  s3_version_id = none;
  presign_issued_at = none;
  presign_expires_at = none;
  uploaded_at = none;
  verified_at = none;
  scan_status = none;
  scan_result = [];
  exif_stripped = false;
  metadata_json = [];
}

abbrev pub link : ℕ → ℕ → MessageAttachment
link i message_id = record {
  id = i;
  attachment_id = 2;
  message_id = message_id;
  message_version_id = none;
  conversation_id = 1;
  position = 0;
  relation = "attached";
}
