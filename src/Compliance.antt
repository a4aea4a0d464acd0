-- ===== src/Compliance.antt =====
-- services/backend/app/services/compliance_import.py and models/events.py: the events of the compliance
-- interface, as they are stored. The source of all of them is "openai_compliance".
pub mod Poller
pub mod Stored
pub mod Polled
pub mod Import
pub mod Imported
pub mod Distinct
pub mod Repeated
mod Tests
use Prim.Native.String.{◌++◌ as concat}
use text.Mathlib.Text.{◌==◌ as str_eq}
use chrome_chatgpt_data.Prelude.{
  ℕ, ◌+◌, ◌-◌, String, Bool, true, false, ◌&&◌, Option, none, some, List, [], ◌∷◌, ◌++◌, ltb, ◌==◌,
  if◌then◌else◌, or_else, map_option, is_some,
}
use chrome_chatgpt_data.Prelude.Rows.{find, any, update}
use chrome_chatgpt_data.Prelude.Texts.{Text, codes, first_chars, truthy}
use chrome_chatgpt_data.Prelude.Results.{Result, ok, err}
use chrome_chatgpt_data.Enums.{SourceEventKind, managed_company}
use chrome_chatgpt_data.Jobs.{Payload}
use chrome_chatgpt_data.Policy.{Workspace, Organization, is_row, pseudonymize}
use chrome_chatgpt_data.Exif.{Bytes}
use chrome_chatgpt_data.Storage.{Dates, StorageError, compliance_raw_key, put_object}
use chrome_chatgpt_data.Attachments.{Vault}
use chrome_chatgpt_data.Retention.{SourceEventKeyIndex}
use chrome_chatgpt_data.Handlers.{Answer}

-- An upstream event; its kind is one of the five that the adapter gives.
pub record ComplianceEvent : Type 0 where
  pub source_event_id : String
  pub event_time : Option ℕ
  pub kind : SourceEventKind
  pub conversation_id : Option String
  pub message_id : Option String
  pub workspace_id : Option String
  pub actor_email : Option String
  pub is_deletion : Bool
  pub raw : Payload

pub record SourceEvent : Type 0 where
  pub id : ℕ
  pub created_at : ℕ
  pub organization_id : ℕ
  pub source_event_id : String
  pub kind : SourceEventKind
  pub source_conversation_id : Option String
  pub source_message_id : Option String
  pub source_workspace_id : Option String
  pub actor_email_hash : Option String
  pub event_time : Option ℕ
  pub is_deletion : Bool
  pub payload : Payload
  pub payload_sha256 : String
  pub raw_s3_key : Option Text
  pub raw_s3_version_id : Option String
  pub processed_at : Option ℕ

pub record SyncCheckpoint : Type 0 where
  pub id : ℕ
  pub organization_id : ℕ
  pub stream : String
  pub cursor_value : Option String
  pub window_start : Option ℕ
  pub window_end : Option ℕ
  pub last_event_time : Option ℕ
  pub last_success_at : Option ℕ
  pub last_attempt_at : Option ℕ
  pub consecutive_errors : ℕ
  pub total_events : ℕ
  pub last_error : Option String

-- The tables of the import beside the archive, with the object store.
pub record Ledger : Type 0 where
  pub vault : Vault
  pub workspaces : List Workspace
  pub keys : List SourceEventKeyIndex
  pub source_events : List SourceEvent
  pub checkpoints : List SyncCheckpoint

-- What the program takes from libraries: dates, str.strip and str.lower, SHA-256, the digest of a payload
-- and the document of an event as JSON.
pub record Importer : Type 0 where
  pub dates : Dates
  pub strip : String → String
  pub lower : String → String
  pub sha256_hex : String → String
  pub payload_sha256 : Payload → String
  pub event_json : ℕ → ComplianceEvent → Bytes

-- One identifier; the counter stands in the archive.
abbrev pub take_uuid : Ledger → ℕ × Ledger
take_uuid s = (
  s.vault.archive.uuids,
  record s {
    vault = record s.vault {
      archive = record s.vault.archive { uuids = s.vault.archive.uuids + 1 };
    };
  },
)

unfoldable pub compliance_hash : Importer → Organization → Option String → String
compliance_hash imp org source_workspace_id = first_chars 32 (
    pseudonymize imp.strip imp.lower imp.sha256_hex
      (concat org.slug (concat "|" (or_else (truthy source_workspace_id) "compliance"))))

abbrev pub compliance_workspace : ℕ → ℕ → Organization → Option String → String → Workspace
compliance_workspace uuid now org source_workspace_id hash = record {
  id = uuid;
  organization_id = org.id;
  source_workspace_id = source_workspace_id;
  label = none;
  workspace_hash = hash;
  kind = managed_company;
  verified_at = some now;
  capture_enabled = true;
}

abbrev pub workspace_or_new :
    ℕ → Organization → Option String → String → Option Workspace → Ledger → Workspace × Ledger
workspace_or_new now org source_workspace_id hash (some w) s = (w, s)
workspace_or_new now org source_workspace_id hash none s =
    let (uuid, s') = take_uuid s in
    let w = compliance_workspace uuid now org source_workspace_id hash in
    (w, record s' { workspaces = s'.workspaces ++ w ∷ [] })

unfoldable pub get_or_create_compliance_workspace :
    Importer → ℕ → Organization → Option String → Ledger → Workspace × Ledger
unfolding compliance_hash
get_or_create_compliance_workspace imp now org source_workspace_id s =
    let hash = compliance_hash imp org source_workspace_id in
    workspace_or_new now org source_workspace_id hash (find (is_row org.id hash) s.workspaces) s

abbrev pub is_source_key : ℕ → String → SourceEventKeyIndex → Bool
is_source_key org i k = k.organization_id == org && str_eq k.source_event_id i

abbrev pub is_source_event : ℕ → String → SourceEvent → Bool
is_source_event org i e = e.organization_id == org && str_eq e.source_event_id i

abbrev pub claim_source : ℕ → ℕ → String → Ledger → Ledger
claim_source now org i s = record s {
  keys = s.keys ++ record { organization_id = org; source_event_id = i; created_at = now } ∷ [];
}

unfoldable pub source_event :
    Importer → ℕ → ℕ → Organization → ComplianceEvent → Text → Option String → SourceEvent
source_event imp uuid now org e key version = record {
  id = uuid;
  created_at = now;
  organization_id = org.id;
  source_event_id = e.source_event_id;
  kind = e.kind;
  source_conversation_id = e.conversation_id;
  source_message_id = e.message_id;
  source_workspace_id = e.workspace_id;
  actor_email_hash =
      map_option (pseudonymize imp.strip imp.lower imp.sha256_hex) (truthy e.actor_email);
  event_time = e.event_time;
  is_deletion = e.is_deletion;
  payload = e.raw;
  payload_sha256 = imp.payload_sha256 e.raw;
  raw_s3_key = some key;
  raw_s3_version_id = version;
  processed_at = none;
}

-- The write of the object and then the row; what the store raises leaves the rows as they are.
unfoldable pub write_source_event :
    Importer
    → Answer
    → ℕ
    → Organization
    → ComplianceEvent
    → Workspace × Ledger
    → Result StorageError Bool × Ledger
unfolding source_event
write_source_event imp (err problem) now org e (w, s) = (err problem, s)
write_source_event imp (ok version) now org e (w, s) =
    let key =
      compliance_raw_key imp.dates (codes w.workspace_hash) (codes e.source_event_id)
        (or_else e.event_time now) in
    let (uuid, s') = take_uuid s in
    (
      ok true,
      record s' {
        vault = record s'.vault {
          objects = put_object key (imp.event_json now e) version s'.vault.objects;
        };
        source_events = s'.source_events ++ source_event imp uuid now org e key version ∷ [];
      },
    )

-- `persist_event`: whether the event is new. The caller holds the session and may go on after an error.
unfoldable pub persist_event :
    Importer
    → Answer
    → ℕ
    → Organization
    → ComplianceEvent
    → Ledger
    → Result StorageError Bool × Ledger
unfolding write_source_event get_or_create_compliance_workspace
persist_event imp answer now org e s =
    if any (is_source_key org.id e.source_event_id) s.keys
    then (ok false, s)
    else write_source_event imp answer now org e (
        get_or_create_compliance_workspace imp now org e.workspace_id
          (claim_source now org.id e.source_event_id s))
