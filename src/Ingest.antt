-- ===== src/Ingest.antt =====
-- services/backend/app/services/ingest.py: the context of a request, the idempotency keys, the capture
-- events and the conversations. A function of a session takes the store and returns it; `now` is the
-- clock reading of the call, and each `uuid.uuid4()` takes the store's next identifier.
pub mod Conversations
pub mod Messages
pub mod Versions
pub mod Frames
pub mod Replay
pub mod History
pub mod Outbox
pub mod Completeness
pub mod Numbering
pub mod Batch
pub mod Isolation
pub mod Feedback
mod Tests
use text.Mathlib.Text.{◌==◌ as str_eq}
use chrome_chatgpt_data.Prelude.{
  ℕ, ◌+◌, String, Bool, true, false, not, ◌&&◌, Option, none, some, List, [], ◌∷◌, ◌++◌, ltb, ◌==◌,
  if◌then◌else◌, is_some, or_else, holds_num, take, map_option, new_or,
}
use chrome_chatgpt_data.Prelude.Rows.{find, any, update}
use chrome_chatgpt_data.Prelude.Texts.{Text, codes, truthy, truthy_text, text_in}
use chrome_chatgpt_data.Prelude.Results.{Result, ok, err}
use chrome_chatgpt_data.Enums.{
  CaptureCompleteness, complete_current_page, partial_scroll_limit, live_only, compliance_verified,
  CaptureEventKind, conversation_upsert, IngestStatus, accepted, is_accepted, archive_raw_event,
  build_conversation_snapshot,
}
use chrome_chatgpt_data.Jobs.{
  JobIn, enqueue_job, Scalar, id_text, time_text, plain_text, raw_event_key, archive_key,
  snapshot_key,
}
use chrome_chatgpt_data.Policy.{
  Workspace, Organization, Settings, WorkspaceRef, PolicyCode, WorkspaceDecision,
  assert_browser_capture_allowed, resolve_workspace, pseudonymize,
}
use chrome_chatgpt_data.Sanitize.{clean_plain_text}
use chrome_chatgpt_data.Fingerprint.{Hashing}
use chrome_chatgpt_data.Contract.{ConversationUpsertIn, EventPayload, of_upsert}
use chrome_chatgpt_data.Archive.{Conversation, ResultRef, IdempotencyKey, CaptureEvent, Store}

-- Code outside the repository: hashing, the tables of `str`, bleach with the scriptish pattern, and
-- the JSON text of a payload with the length of its `str`.
pub record Externals : Type 0 where
  pub hashing : Hashing
  pub strip : String → String
  pub lower : String → String
  pub clean_html : Text → Text
  pub scriptish_free : Text → Text
  pub canonical_json : EventPayload → Text
  pub str_length : EventPayload → ℕ

pub record User : Type 0 where
  pub id : ℕ
  pub email : String

pub record IngestContext : Type 0 where
  pub organization : Organization
  pub user : User
  pub device_id : Option ℕ
  pub workspace : Workspace
  pub workspace_hash : String

-- `build_context`, once the gates have passed.
unfoldable pub context_of :
    Organization
    → User
    → Option ℕ
    → Result PolicyCode WorkspaceDecision
    → Result PolicyCode IngestContext
context_of org user device_id (err e) = err e
context_of org user device_id (ok d) = ok (record {
  organization = org;
  user = user;
  device_id = device_id;
  workspace = d.workspace;
  workspace_hash = d.workspace_hash;
})

unfoldable pub gated :
    Result PolicyCode (Unit {0})
    → Result PolicyCode IngestContext × List Workspace
    → List Workspace
    → Result PolicyCode IngestContext × List Workspace
gated (err e) rest table = (err e, table)
gated (ok _) rest table = rest

unfoldable pub build_context :
    (String → String)
    → (String → String)
    → (String → String)
    → ℕ
    → ℕ
    → Organization
    → User
    → Option ℕ
    → WorkspaceRef
    → Settings
    → List Workspace
    → List Workspace
    → Result PolicyCode IngestContext × List Workspace
unfolding context_of gated
build_context strip lower sha256_hex now uuid org user device_id ref s raced table =
    let (d, table') = resolve_workspace strip lower sha256_hex now uuid org ref s raced table in
    gated (assert_browser_capture_allowed s) (context_of org user device_id d, table') table

abbrev pub no_ref : ResultRef
no_ref = record {
  conversation_id = none;
  message_id = none;
  message_version_id = none;
  capture_event_id = none;
}

abbrev pub is_key : ℕ → String → IdempotencyKey → Bool
is_key org key r = r.organization_id == org && str_eq r.idempotency_key key

abbrev pub ref_of : Option IdempotencyKey → ResultRef
ref_of none = no_ref
ref_of (some r) = r.result_ref

-- `_claim_idempotency`: `INSERT … ON CONFLICT DO NOTHING`, else the stored reference.
unfoldable pub claim_idempotency :
    ℕ → ℕ → String → ℕ → ResultRef → List IdempotencyKey → Option ResultRef × List IdempotencyKey
claim_idempotency now org key event_id ref keys =
    if any (is_key org key) keys then (some (ref_of (find (is_key org key) keys)), keys) else (
      none,
      keys
          ++ record {
            organization_id = org;
            idempotency_key = key;
            capture_event_id = event_id;
            capture_event_created_at = now;
            result_ref = ref;
            created_at = now;
          }
            ∷ [],
    )

-- `_claim_idempotency` as its callers run it, with an event id that is drawn and not used again.
unfoldable pub claim_key : ℕ → ℕ → String → ResultRef → Store → Option ResultRef × Store
unfolding claim_idempotency
claim_key now org key ref st =
    let (replay, keys) = claim_idempotency now org key st.uuids ref st.idempotency_keys in
    (replay, record st { uuids = st.uuids + 1; idempotency_keys = keys })

abbrev pub set_ref : ResultRef → IdempotencyKey → IdempotencyKey
set_ref ref r = record r { result_ref = ref }

-- `_update_idempotency_result`
unfoldable pub update_idempotency_result : ℕ → String → ResultRef → Store → Store
update_idempotency_result org key ref st = record st {
  idempotency_keys = update (is_key org key) (set_ref ref) st.idempotency_keys;
}

-- A job on the store: it takes one identifier, inserted or not.
unfoldable pub enqueue : ℕ → JobIn → Store → Store
enqueue now v st = record st { uuids = st.uuids + 1; jobs = (enqueue_job now st.uuids v st.jobs).1 }

-- The arguments of `record_capture_event`.
pub record EventIn : Type 0 where
  pub kind : CaptureEventKind
  pub payload : EventPayload
  pub idempotency_key : String
  pub conversation_id : Option ℕ
  pub message_id : Option ℕ
  pub source_conversation_id : Option String
  pub client_captured_at : Option ℕ
  pub adapter_version : Option String
  pub extension_version : Option String

-- `source_conversation_id or str(conversation_id or "unknown")`
abbrev pub key_conversation : Option String → Option ℕ → Scalar
key_conversation (some s) i = plain_text s
key_conversation none (some i) = id_text i
key_conversation none none = plain_text "unknown"

abbrev pub archive_job : IngestContext → ℕ → ℕ → EventIn → JobIn
archive_job ctx now event_id v = record {
  kind = archive_raw_event;
  payload =
      ("capture_event_id", id_text event_id)
      ∷ ("capture_event_created_at", time_text now)
      ∷ (
        "s3_key",
        raw_event_key ctx.workspace_hash
            (key_conversation (truthy v.source_conversation_id) v.conversation_id) event_id now,
      )
      ∷ [];
  organization_id = some ctx.organization.id;
  dedupe_key = some (archive_key event_id);
  priority = 50;
  run_after = none;
  max_attempts = 8;
}

unfoldable pub new_event : Externals → IngestContext → ℕ → ℕ → IngestStatus → EventIn → CaptureEvent
new_event ext ctx now event_id status v = record {
  id = event_id;
  created_at = now;
  organization_id = ctx.organization.id;
  workspace_id = some ctx.workspace.id;
  user_id = some ctx.user.id;
  device_id = ctx.device_id;
  conversation_id = v.conversation_id;
  message_id = v.message_id;
  kind = v.kind;
  idempotency_key = v.idempotency_key;
  status = status;
  schema_version = "1.0";
  adapter_version = v.adapter_version;
  extension_version = v.extension_version;
  client_captured_at = v.client_captured_at;
  payload = v.payload;
  payload_sha256 = ext.hashing.sha256_hex (ext.canonical_json v.payload);
  payload_bytes = ext.str_length v.payload;
  raw_s3_key = none;
  raw_s3_version_id = none;
  archived_at = none;
}

unfoldable pub record_capture_event :
    Externals → IngestContext → ℕ → IngestStatus → Bool → EventIn → Store → CaptureEvent × Store
unfolding new_event enqueue
record_capture_event ext ctx now status enqueue_archive v st =
    let event = new_event ext ctx now st.uuids status v in
    let saved = record st {
      uuids = st.uuids + 1;
      capture_events = st.capture_events ++ event ∷ [];
    } in
    (
      event,
      if enqueue_archive && is_accepted status
          then enqueue now (archive_job ctx now event.id v) saved
          else saved,
    )
