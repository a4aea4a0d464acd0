-- ===== src/Compliance/Tests.antt =====
-- Runs of services/backend/app/workers/compliance_poller.py, and the theorems about it at concrete inputs.
use text.Mathlib.Text.{◌==◌ as str_eq}
use chrome_chatgpt_data.Prelude.{
  ◌≡◌, refl, arith, String, true, false, none, some, List, [], ◌∷◌, map, length, take,
}
use chrome_chatgpt_data.Prelude.Rows.{find, update}
use chrome_chatgpt_data.Prelude.Sorting.{sort_by}
use chrome_chatgpt_data.Prelude.Results.{Result, ok, err}
use chrome_chatgpt_data.Prelude.Texts.{Text, codes}
use chrome_chatgpt_data.Enums.{SourceEventKind}
use chrome_chatgpt_data.Policy.{Organization}
use chrome_chatgpt_data.Archive.{empty_store}
use chrome_chatgpt_data.Storage.{write_failed, get_object}
use chrome_chatgpt_data.Jobs.{enqueue_job}
use chrome_chatgpt_data.Ingest.{enqueue}
use chrome_chatgpt_data.Handlers.{Answer}
use chrome_chatgpt_data.Compliance.{
  ComplianceEvent, SyncCheckpoint, Ledger, Importer, compliance_hash, persist_event,
}
use chrome_chatgpt_data.Compliance.Import.{conversation_exists, import_pending_source_events}
use chrome_chatgpt_data.Compliance.Repeated.{repeated_conversation_raises}
use chrome_chatgpt_data.Compliance.Poller.{
  CompliancePage, PollFault, upstream, run_cycle, get_or_create_checkpoint, is_checkpoint,
}
use chrome_chatgpt_data.Compliance.Stored.{is_stored, persist_event_once}
use chrome_chatgpt_data.Compliance.Polled.{Checkpointed, Ended, events_seen, run_cycle_stores}

abbrev importer : Importer
importer = record {
  dates = record { year = λ t. codes "2026"; month = λ t. codes "11"; day = λ t. codes "26" };
  strip = λ s. s;
  lower = λ s. s;
  sha256_hex = λ s. "d";
  payload_sha256 = λ p. "p";
  event_json = λ t e. 123 ∷ 125 ∷ [];
}

abbrev acme : Organization
acme = record { id = 3; slug = "acme" }

abbrev upstream_event : String → ComplianceEvent
upstream_event i = record {
  source_event_id = i;
  event_time = some 7;
  kind = SourceEventKind.message;
  conversation_id = some "c";
  message_id = none;
  workspace_id = none;
  actor_email = none;
  is_deletion = false;
  raw = [];
}

abbrev ledger : Ledger
ledger = record {
  vault = record { archive = empty_store; attachments = []; links = []; objects = [] };
  workspaces = [];
  keys = [];
  source_events = [];
  checkpoints = [];
}

abbrev takes_all : ComplianceEvent → Answer
takes_all e = ok none

abbrev takes_none : ComplianceEvent → Answer
takes_none e = err write_failed

-- The second page is the last; the third is not asked for.
abbrev pages : List (Result PollFault CompliancePage)
pages =
    ok (record { events = upstream_event "a" ∷ []; next_cursor = some "n"; has_more = true })
    ∷ ok (record {
      events = upstream_event "b" ∷ upstream_event "a" ∷ [];
      next_cursor = none;
      has_more = false;
    })
    ∷ err upstream
    ∷ []

two_stored :
    let (end, s) = run_cycle importer takes_all 20 acme 5 pages ledger in
    (map (λ e. e.source_event_id) s.source_events ≡ "a" ∷ "b" ∷ [])
    × (length s.vault.archive.jobs ≡ 1)
unfolding run_cycle persist_event enqueue enqueue_job
two_stored = (refl, refl)

-- After a write that is refused, the same page stores nothing of the lost event.
lost :
    let (end, s) = run_cycle importer takes_none 20 acme 5 pages ledger in
    let (end', s') = run_cycle importer takes_all 30 acme 5 pages s in
    map (λ e. e.source_event_id) s'.source_events ≡ "b" ∷ []
unfolding run_cycle persist_event
lost = refl

persist_event_once_example :
    let (r, s') = persist_event importer (ok none) 20 acme (upstream_event "a") ledger in
    let (r'', s'') =
      persist_event importer (err write_failed) 20 acme (upstream_event "a") ledger in
    (r ≡ ok true)
    × (is_stored acme (upstream_event "a") s' ≡ true)
    × (key : Text) × (get_object key s'.vault.objects
        ≡ some (record { bytes = 123 ∷ 125 ∷ []; version_id = none }))
    × (persist_event importer (ok none) 30 acme (upstream_event "a") s' ≡ (ok false, s'))
    × (r'' ≡ err write_failed)
    × (s''.source_events ≡ ledger.source_events)
    × (persist_event importer (ok none) 30 acme (upstream_event "a") s'' ≡ (ok false, s''))
persist_event_once_example =
    persist_event_once importer 20 30 acme (upstream_event "a") ledger none write_failed (ok none)
      refl

run_cycle_stores_example :
    let (end, s') = run_cycle importer takes_all 20 acme 5 pages ledger in
    let c = (get_or_create_checkpoint 20 3 "default" ledger).0 in
    (c' : SyncCheckpoint) × (find (is_checkpoint 3 "default") s'.checkpoints ≡ some c')
    × Checkpointed importer 20 acme takes_all end c c'
    × Ended importer 20 acme takes_all
        (events_seen importer 20 acme takes_all (take 5 pages))
        end
        s'
run_cycle_stores_example = run_cycle_stores importer 20 acme takes_all 5 pages ledger tt

-- The ledger after a cycle: its two events tell of one conversation, which is not stored.
abbrev polled : Ledger
polled = (run_cycle importer takes_all 20 acme 5 pages ledger).1

-- The second event does not find the conversation that the first one has added, and adds it again.
one_conversation :
    import_pending_source_events importer 30 acme 500 polled ≡ err conversation_exists
unfolding import_pending_source_events run_cycle persist_event sort_by enqueue
one_conversation = refl

-- The same with the second event telling of another conversation.
abbrev apart : Ledger
apart = record polled {
  source_events =
      update (λ e. str_eq e.source_event_id "b")
        (λ e. record e { source_conversation_id = some "d" }) polled.source_events;
}

two_conversations :
    (s : Ledger) × (import_pending_source_events importer 30 acme 500 apart ≡ ok (2, s))
    × (map (λ c. c.source_conversation_id) s.vault.archive.conversations ≡ "c" ∷ "d" ∷ [])
unfolding import_pending_source_events run_cycle persist_event sort_by enqueue
two_conversations = (_, refl, refl)

repeated_conversation_raises_example :
    import_pending_source_events importer 30 acme 500 polled ≡ err conversation_exists
unfolding run_cycle persist_event enqueue sort_by compliance_hash
repeated_conversation_raises_example =
    repeated_conversation_raises importer 30 acme 500 polled 1 "c" (refl, (refl, tt)) refl
      (omega arith)
