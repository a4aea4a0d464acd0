-- ===== src/Enums.antt =====
-- services/backend/app/models/enums.py: the enumerations that the services branch on.
use chrome_chatgpt_data.Prelude.{ℕ, Bool, true, false, ◌==◌}

pub data JobStatus : Type 0 where
  pending running succeeded failed dead cancelled : JobStatus

pub data JobKind : Type 0 where
  archive_raw_event build_conversation_snapshot finalize_attachment run_export : JobKind
  retention_sweep compliance_sync reconcile_partial maintain_partitions cleanup_stale : JobKind

pub data MessageRole : Type 0 where
  user assistant tool system : MessageRole

pub data CompletionStatus : Type 0 where
  complete partial reconciled unknown : CompletionStatus

pub data CaptureCompleteness : Type 0 where
  complete_current_page partial_scroll_limit live_only compliance_verified : CaptureCompleteness
  reconciled unknown : CaptureCompleteness

pub data CaptureSource : Type 0 where
  chrome_extension compliance_api manual_import : CaptureSource

pub data WorkspaceKind : Type 0 where
  managed_company personal unverified : WorkspaceKind

pub data CaptureEventKind : Type 0 where
  conversation_upsert message_version attachment_metadata feedback diagnostic : CaptureEventKind
  compliance_event : CaptureEventKind

pub data SourceEventKind : Type 0 where
  conversation message file deletion unknown : SourceEventKind

pub data IngestStatus : Type 0 where
  accepted duplicate rejected retryable : IngestStatus

pub data AttachmentState : Type 0 where
  pending quarantine clean rejected expired metadata_only : AttachmentState

pub data ExportKind : Type 0 where
  curated_training_jsonl compliance_extract legal_hold_bundle : ExportKind

pub data ExportStatus : Type 0 where
  pending running completed failed cancelled : ExportStatus

pub data ApprovalStatus : Type 0 where
  pending approved rejected withdrawn : ApprovalStatus

pub data RetentionAction : Type 0 where
  soft_delete hard_delete anonymize : RetentionAction

-- The position of a job kind in its enumeration, by which kinds are compared.
abbrev pub kind_index : JobKind → ℕ
kind_index archive_raw_event = 0
kind_index build_conversation_snapshot = 1
kind_index finalize_attachment = 2
kind_index run_export = 3
kind_index retention_sweep = 4
kind_index compliance_sync = 5
kind_index reconcile_partial = 6
kind_index maintain_partitions = 7
kind_index cleanup_stale = 8

abbrev pub kind_eq : JobKind → JobKind → Bool
kind_eq a b = kind_index a == kind_index b

abbrev pub is_pending : JobStatus → Bool
is_pending JobStatus.pending = true
is_pending _ = false

abbrev pub is_running : JobStatus → Bool
is_running JobStatus.running = true
is_running _ = false

abbrev pub is_succeeded : JobStatus → Bool
is_succeeded JobStatus.succeeded = true
is_succeeded _ = false

abbrev pub is_failed : JobStatus → Bool
is_failed JobStatus.failed = true
is_failed _ = false

abbrev pub is_dead : JobStatus → Bool
is_dead JobStatus.dead = true
is_dead _ = false

-- `status IN ('pending','running')`
abbrev pub is_live : JobStatus → Bool
is_live JobStatus.pending = true
is_live JobStatus.running = true
is_live _ = false

abbrev pub is_managed : WorkspaceKind → Bool
is_managed managed_company = true
is_managed _ = false

abbrev pub is_personal : WorkspaceKind → Bool
is_personal personal = true
is_personal _ = false

abbrev pub is_user : MessageRole → Bool
is_user user = true
is_user _ = false

abbrev pub is_assistant : MessageRole → Bool
is_assistant assistant = true
is_assistant _ = false

abbrev pub role_index : MessageRole → ℕ
role_index user = 0
role_index assistant = 1
role_index tool = 2
role_index system = 3

abbrev pub role_eq : MessageRole → MessageRole → Bool
role_eq a b = role_index a == role_index b

abbrev pub is_complete : CompletionStatus → Bool
is_complete CompletionStatus.complete = true
is_complete _ = false

abbrev pub is_partial : CompletionStatus → Bool
is_partial CompletionStatus.partial = true
is_partial _ = false

abbrev pub is_accepted : IngestStatus → Bool
is_accepted IngestStatus.accepted = true
is_accepted _ = false

abbrev pub is_verified : CaptureCompleteness → Bool
is_verified compliance_verified = true
is_verified _ = false
