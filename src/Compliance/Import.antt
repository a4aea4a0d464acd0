-- ===== src/Compliance/Import.antt =====
-- services/backend/app/services/compliance_import.py, `import_pending_source_events`: the folding of stored
-- events into conversations.
use text.Mathlib.Text.{◌==◌ as str_eq}
use chrome_chatgpt_data.Prelude.{
  ℕ, String, Bool, true, false, not, ◌&&◌, Option, none, some, List, [], ◌∷◌, ◌++◌, leb, ◌==◌,
  if◌then◌else◌, is_some, length, take,
}
use chrome_chatgpt_data.Prelude.Rows.{select, find, any, update}
use chrome_chatgpt_data.Prelude.Sorting.{sort_by}
use chrome_chatgpt_data.Prelude.Texts.{truthy}
use chrome_chatgpt_data.Prelude.Results.{Result, ok, err, ◌>>=◌}
use chrome_chatgpt_data.Enums.{compliance_verified}
use chrome_chatgpt_data.Policy.{Workspace, Organization, is_row}
use chrome_chatgpt_data.Archive.{Conversation}
use chrome_chatgpt_data.Ingest.Conversations.{add_capture_source}
use chrome_chatgpt_data.Compliance.{
  SourceEvent, Ledger, Importer, take_uuid, compliance_hash, get_or_create_compliance_workspace,
}

abbrev pub is_unprocessed : ℕ → SourceEvent → Bool
is_unprocessed org e = e.organization_id == org && not (is_some e.processed_at)

-- `ORDER BY event_time ASC NULLS LAST`
abbrev pub is_earlier_event : SourceEvent → SourceEvent → Bool
is_earlier_event e f = elim e.event_time [
  | none ↦ not (is_some f.event_time)
  | some t ↦ elim f.event_time [ none ↦ true | some u ↦ leb t u ]
]

abbrev pub is_upstream : ℕ → ℕ → String → Conversation → Bool
is_upstream org workspace_id i c =
    c.organization_id == org && c.workspace_id == workspace_id && str_eq c.source_conversation_id i

abbrev pub imported_conversation : ℕ → ℕ → ℕ → ℕ → String → SourceEvent → Conversation
imported_conversation uuid now org workspace_id i e = record {
  id = uuid;
  organization_id = org;
  workspace_id = workspace_id;
  user_id = none;
  source_conversation_id = i;
  source_url = none;
  title = none;
  model_slug = none;
  capture_sources = "compliance_api" ∷ [];
  capture_completeness = compliance_verified;
  employee_id_hash = e.actor_email_hash;
  source_created_at = none;
  source_updated_at = e.event_time;
  first_captured_at = some now;
  last_captured_at = some now;
  message_count = 0;
  snapshot_version = 0;
  snapshot_stale = true;
  snapshot_s3_key = none;
  snapshot_sha256 = none;
  upstream_deletion = none;
  created_at = now;
  deleted_at = none;
  deletion_reason = none;
  legal_hold = false;
}

abbrev pub verified_conversation : Conversation → Conversation
verified_conversation c = record c {
  capture_sources = add_capture_source "compliance_api" c.capture_sources;
  capture_completeness = compliance_verified;
  snapshot_stale = true;
}

-- The tombstone of an event that tells a deletion.
abbrev pub entomb : SourceEvent → Conversation → Conversation
entomb e c = record c {
  upstream_deletion =
      if e.is_deletion then some (e.event_time, e.source_event_id) else c.upstream_deletion;
}

abbrev pub set_conversations : List Conversation → Ledger → Ledger
set_conversations cs s = record s {
  vault = record s.vault { archive = record s.vault.archive { conversations = cs } };
}

-- The session of an import: the tables, and the conversations that it has added and not flushed. With
-- autoflush off a SELECT does not see these.
pub record Import : Type 0 where
  pub ledger : Ledger
  pub pending : List Conversation

-- IntegrityError by `uq_conversations_org_workspace_source`.
pub data ImportError : Type 0 where
  conversation_exists : ImportError

-- The rows have the key of the unique constraint in common.
abbrev pub same_key : Conversation → Conversation → Bool
same_key p c =
    c.organization_id == p.organization_id
    && c.workspace_id == p.workspace_id
    && str_eq c.source_conversation_id p.source_conversation_id

-- The INSERTs of a flush, in the order of `session.add`.
unfoldable pub insert_all :
    List Conversation → List Conversation → Result ImportError (List Conversation)
insert_all [] cs = ok cs
insert_all (p ∷ ps) cs =
    let rest = insert_all ps (cs ++ p ∷ []) in
    if any (same_key p) cs then err conversation_exists else rest

-- `session.flush()`
unfoldable pub flush : Import → Result ImportError Import
unfolding insert_all
flush im = insert_all im.pending im.ledger.vault.archive.conversations >>= λ cs.
    ok (record { ledger = set_conversations cs im.ledger; pending = [] })

-- Where `get_or_create_compliance_workspace` inserts the workspace, it flushes.
abbrev pub opened : Bool → Workspace × Ledger → Import → Result ImportError (Workspace × Import)
opened true (w, s) im = ok (w, record im { ledger = s })
opened false (w, s) im = flush (record im { ledger = s }) >>= λ flushed. ok (w, flushed)

-- `get_or_create_compliance_workspace` in this session.
unfoldable pub open_workspace :
    Importer → ℕ → Organization → Option String → Import → Result ImportError (Workspace × Import)
unfolding flush get_or_create_compliance_workspace
open_workspace imp now org source_workspace_id im =
    opened (any (is_row org.id (compliance_hash imp org source_workspace_id)) im.ledger.workspaces)
      (get_or_create_compliance_workspace imp now org source_workspace_id im.ledger) im

-- The conversation of the event, added or updated.
unfoldable pub fold_event : ℕ → ℕ → ℕ → String → SourceEvent → Option Conversation → Import → Import
fold_event now org workspace_id i e none im =
    let (uuid, s) = take_uuid im.ledger in
    record {
      ledger = s;
      pending = im.pending ++ entomb e (imported_conversation uuid now org workspace_id i e) ∷ [];
    }
fold_event now org workspace_id i e (some c) im = record im {
  ledger =
      set_conversations
        (update (λ r. r.id == c.id) (λ r. entomb e (verified_conversation r))
          im.ledger.vault.archive.conversations)
        im.ledger;
}

unfoldable pub fold_in_workspace : ℕ → ℕ → String → SourceEvent → Workspace × Import → Import
unfolding fold_event
fold_in_workspace now org i e (w, im) =
    fold_event now org w.id i e
      (find (is_upstream org w.id i) im.ledger.vault.archive.conversations) im

unfoldable pub fold_into :
    Importer → ℕ → Organization → SourceEvent → Option String → Import → Result ImportError Import
unfolding fold_in_workspace open_workspace
fold_into imp now org e none im = ok im
fold_into imp now org e (some i) im =
    open_workspace imp now org e.source_workspace_id im >>= λ opened.
    ok (fold_in_workspace now org.id i e opened)

abbrev pub process : ℕ → SourceEvent → Import → Import
process now e im = record im {
  ledger = record im.ledger {
    source_events =
        update (λ r. r.id == e.id) (λ r. record r { processed_at = some now })
          im.ledger.source_events;
  };
}

-- The loop over the events, and the flush after it.
unfoldable pub import_events :
    Importer → ℕ → Organization → List SourceEvent → Import → Result ImportError Import
unfolding fold_into flush
import_events imp now org [] im = flush im
import_events imp now org (e ∷ es) im =
    fold_into imp now org e (truthy e.source_conversation_id) im >>= λ im'.
    import_events imp now org es (process now e im')

-- `import_pending_source_events` where the organization exists: the number of events, and the tables; or
-- what it raises, on which its caller rolls the session back.
unfoldable pub import_pending_source_events :
    Importer → ℕ → Organization → ℕ → Ledger → Result ImportError (ℕ × Ledger)
unfolding import_events
import_pending_source_events imp now org limit s =
    let rows =
      take limit (sort_by is_earlier_event (select (is_unprocessed org.id) s.source_events)) in
    import_events imp now org rows (record { ledger = s; pending = [] }) >>= λ im.
    ok (length rows, im.ledger)
