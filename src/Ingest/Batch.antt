-- ===== src/Ingest/Batch.antt =====
-- services/backend/app/services/ingest.py: the batches, each item in its savepoint, and feedback. What the
-- database or a library raises within an item is an argument, its fault.
use chrome_chatgpt_data.Prelude.{
  ℕ, ◌+◌, String, Bool, true, false, Option, none, some, List, [], ◌∷◌, map_option,
}
use chrome_chatgpt_data.Prelude.Texts.{truthy}
use chrome_chatgpt_data.Prelude.Results.{Result, ok, err, ◌>>=◌}
use chrome_chatgpt_data.Enums.{IngestStatus, live_only}
use chrome_chatgpt_data.Policy.{PolicyCode}
use chrome_chatgpt_data.Contract.{MessageIn, ClientContext, ItemResult, CaptureEventIn, of_capture}
use chrome_chatgpt_data.Archive.{ResultRef, Store}
use chrome_chatgpt_data.Ingest.{
  Externals, IngestContext, no_ref, claim_key, update_idempotency_result, EventIn,
  record_capture_event,
}
use chrome_chatgpt_data.Ingest.Conversations.{ConversationIn, get_or_create_conversation}
use chrome_chatgpt_data.Ingest.Messages.{item_result}
use chrome_chatgpt_data.Ingest.Versions.{ingest_message}

-- What stops an item: a unique constraint, an application error with its code, any other exception;
-- or a policy error, or a conversation that another session inserts at the same time, for which
-- `get_or_create_conversation` rolls the whole session back.
pub data Fault : Type 0 where
  integrity internal conversation_race : Fault
  validation : String → Fault
  policy : PolicyCode → Fault

-- What stops an item, and what the item has written by then.
pub record Stop : Type 0 where
  pub fault : Fault
  pub written : Store → Store

-- A savepoint: the tables with what has been written in it, and as they were when it began.
pub record Savepoint : Type 0 where
  pub current : Store
  pub saved : Store

abbrev pub begin_nested : Store → Savepoint
begin_nested st = record { current = st; saved = st }

-- `savepoint.commit()` and `savepoint.rollback()`
abbrev pub commit : Savepoint → Store
commit savepoint = savepoint.current

abbrev pub rollback : Savepoint → Store
rollback savepoint = savepoint.saved

abbrev pub failed : ℕ → String → IngestStatus → String → ItemResult
failed index key status code = item_result index key status none none none (some code)

-- The `except` clauses of `ingest_message_batch`.
unfoldable pub fault_result : ℕ → String → Fault → Result Fault ItemResult
fault_result index key integrity = ok (failed index key IngestStatus.retryable "write_conflict")
fault_result index key internal = ok (failed index key IngestStatus.retryable "internal_error")
fault_result index key (validation code) = ok (failed index key IngestStatus.rejected code)
fault_result index key conversation_race = err conversation_race
fault_result index key (policy code) = err (policy code)

abbrev pub add_result :
    ItemResult → List ItemResult × Store → Result Fault (List ItemResult × Store)
add_result r rest = ok (r ∷ rest.0, rest.1)

-- `ingest_message` in its savepoint, to its end or to what stops it.
abbrev pub attempt :
    Externals
    → IngestContext
    → ℕ
    → Option ClientContext
    → ℕ
    → MessageIn × Option Stop
    → Savepoint
    → Result Fault ItemResult × Savepoint
attempt ext ctx now client index (p, none) savepoint =
    let (r, st) = ingest_message ext ctx now index p client savepoint.current in
    (ok r, record savepoint { current = st })
attempt ext ctx now client index (p, some s) savepoint =
    (err s.fault, record savepoint { current = s.written savepoint.current })

-- The end of the savepoint, with the result of the item or what is raised again.
abbrev pub end_item :
    ℕ → String → Result Fault ItemResult × Savepoint → Result Fault ItemResult × Store
end_item index key (ok r, savepoint) = (ok r, commit savepoint)
end_item index key (err f, savepoint) = (fault_result index key f, rollback savepoint)

-- The loop of `ingest_message_batch` from an index on.
unfoldable pub batch_from :
    Externals
    → IngestContext
    → ℕ
    → Option ClientContext
    → ℕ
    → List (MessageIn × Option Stop)
    → Store
    → Result Fault (List ItemResult × Store)
unfolding fault_result
batch_from ext ctx now client index [] st = ok ([], st)
batch_from ext ctx now client index (item ∷ items) st =
    let (result, st') =
      end_item index item.0.idempotency_key
        (attempt ext ctx now client index item (begin_nested st)) in
    let rest = batch_from ext ctx now client (index + 1) items st' in
    result >>= λ r. rest >>= add_result r

unfoldable pub ingest_message_batch :
    Externals
    → IngestContext
    → ℕ
    → Option ClientContext
    → List (MessageIn × Option Stop)
    → Store
    → Result Fault (List ItemResult × Store)
unfolding batch_from
ingest_message_batch ext ctx now client items st = batch_from ext ctx now client 0 items st

abbrev pub event_fields : String → ConversationIn
event_fields source = record {
  source_conversation_id = source;
  title = none;
  source_url = none;
  model_slug = none;
  completeness = some live_only;
  source_created_at = none;
  source_updated_at = none;
}

-- `if item.source_conversation_id: …`
unfoldable pub conversation_of :
    Externals → IngestContext → ℕ → Option String → Store → Option ℕ × Store
conversation_of ext ctx now none st = (none, st)
conversation_of ext ctx now (some source) st =
    let (c, created, got) = get_or_create_conversation ext ctx now (event_fields source) st in
    (some c.id, got)

abbrev pub capture_event : CaptureEventIn → Option ClientContext → Option ℕ → EventIn
capture_event p client conversation_id = record {
  kind = p.kind;
  payload = of_capture p;
  idempotency_key = p.idempotency_key;
  conversation_id = conversation_id;
  message_id = none;
  source_conversation_id = p.source_conversation_id;
  client_captured_at = some p.occurred_at;
  adapter_version = map_option (λ c. c.adapter_version) client;
  extension_version = map_option (λ c. c.extension_version) client;
}

unfoldable pub settle_event :
    Externals
    → IngestContext
    → ℕ
    → ℕ
    → CaptureEventIn
    → Option ClientContext
    → Option ℕ
    → Option ResultRef
    → Store
    → ItemResult × Store
settle_event ext ctx now index p client conversation_id (some ref) st = (
  item_result index p.idempotency_key IngestStatus.duplicate none none none
      (some "idempotent_replay"),
  st,
)
settle_event ext ctx now index p client conversation_id none st =
    let (event, recorded) =
      record_capture_event ext ctx now IngestStatus.accepted true
        (capture_event p client conversation_id) st in
    (
      record (item_result index p.idempotency_key IngestStatus.accepted conversation_id none none
          none) { id = some event.id },
      update_idempotency_result ctx.organization.id p.idempotency_key
          (record no_ref { capture_event_id = some event.id }) recorded,
    )

-- One item of `ingest_capture_events`.
unfoldable pub ingest_capture_event :
    Externals
    → IngestContext
    → ℕ
    → ℕ
    → CaptureEventIn
    → Option ClientContext
    → Store
    → ItemResult × Store
unfolding conversation_of settle_event
ingest_capture_event ext ctx now index p client st =
    let (conversation_id, got) = conversation_of ext ctx now (truthy p.source_conversation_id) st in
    let (replay, claimed) = claim_key now ctx.organization.id p.idempotency_key no_ref got in
    settle_event ext ctx now index p client conversation_id replay claimed

-- The loop of `ingest_capture_events` from an index on, where the flag tells that the item raises.
unfoldable pub events_from :
    Externals
    → IngestContext
    → ℕ
    → Option ClientContext
    → ℕ
    → List (CaptureEventIn × Bool)
    → Store
    → List ItemResult × Store
unfolding ingest_capture_event
events_from ext ctx now client index [] st = ([], st)
events_from ext ctx now client index ((p, false) ∷ items) st =
    let (r, st') = ingest_capture_event ext ctx now index p client st in
    let (rs, s) = events_from ext ctx now client (index + 1) items st' in (r ∷ rs, s)
events_from ext ctx now client index ((p, true) ∷ items) st =
    let (rs, s) = events_from ext ctx now client (index + 1) items st in
    (failed index p.idempotency_key IngestStatus.retryable "internal_error" ∷ rs, s)

unfoldable pub ingest_capture_events :
    Externals
    → IngestContext
    → ℕ
    → Option ClientContext
    → List (CaptureEventIn × Bool)
    → Store
    → List ItemResult × Store
unfolding events_from
ingest_capture_events ext ctx now client items st = events_from ext ctx now client 0 items st
