-- ===== src/Compliance/Poller.antt =====
-- services/backend/app/workers/compliance_poller.py, `run_cycle`, with the checkpoint of
-- services/compliance_import.py. A cycle takes the answers of the adapter, page by page, and for each event the
-- answer of the object store.
use text.Mathlib.Text.{◌==◌ as str_eq}
use chrome_chatgpt_data.Prelude.{
  ℕ, ◌+◌, ◌-◌, ◌*◌, String, Bool, not, ◌&&◌, ◌||◌, Option, none, some, List, [], ◌∷◌, ◌++◌, ltb,
  ◌==◌, if◌then◌else◌, length, take,
}
use chrome_chatgpt_data.Prelude.Rows.{find, update}
use chrome_chatgpt_data.Prelude.Results.{Result, ok, err}
use chrome_chatgpt_data.Enums.{compliance_sync}
use chrome_chatgpt_data.Jobs.{JobIn, plain_text, second, sync_key}
use chrome_chatgpt_data.Policy.{Organization}
use chrome_chatgpt_data.Ingest.{enqueue}
use chrome_chatgpt_data.Handlers.{Answer}
use chrome_chatgpt_data.Compliance.{
  ComplianceEvent, SyncCheckpoint, Ledger, Importer, take_uuid, persist_event,
}

pub record CompliancePage : Type 0 where
  pub events : List ComplianceEvent
  pub next_cursor : Option String
  pub has_more : Bool

-- What breaks a cycle off: the adapter, the object store, or no page at all; `type(exc).__name__`.
pub data PollFault : Type 0 where
  upstream unstored unbound : PollFault

abbrev pub fault_name : PollFault → String
fault_name upstream = "UpstreamError"
fault_name unstored = "UpstreamError"
fault_name unbound = "UnboundLocalError"

abbrev pub is_checkpoint : ℕ → String → SyncCheckpoint → Bool
is_checkpoint org stream c = c.organization_id == org && str_eq c.stream stream

abbrev pub new_checkpoint : ℕ → ℕ → ℕ → String → SyncCheckpoint
new_checkpoint uuid now org stream = record {
  id = uuid;
  organization_id = org;
  stream = stream;
  cursor_value = none;
  window_start = some (now - 86_400 * second);
  window_end = none;
  last_event_time = none;
  last_success_at = none;
  last_attempt_at = none;
  consecutive_errors = 0;
  total_events = 0;
  last_error = none;
}

abbrev pub checkpoint_or_new :
    ℕ → ℕ → String → Option SyncCheckpoint → Ledger → SyncCheckpoint × Ledger
checkpoint_or_new now org stream (some c) s = (c, s)
checkpoint_or_new now org stream none s =
    let (uuid, s') = take_uuid s in
    let c = new_checkpoint uuid now org stream in
    (c, record s' { checkpoints = s'.checkpoints ++ c ∷ [] })

unfoldable pub get_or_create_checkpoint : ℕ → ℕ → String → Ledger → SyncCheckpoint × Ledger
get_or_create_checkpoint now org stream s =
    checkpoint_or_new now org stream (find (is_checkpoint org stream) s.checkpoints) s

-- The later of two event times, of which either may be missing.
abbrev pub later_time : Option ℕ → Option ℕ → Option ℕ
later_time none last = last
later_time (some t) none = some t
later_time (some t) (some u) = if ltb u t then some t else some u

unfoldable pub advance_checkpoint :
    ℕ → ℕ → Option String → Option ℕ → ℕ → SyncCheckpoint → SyncCheckpoint
advance_checkpoint now window_end cursor last_event_time events_seen c = record c {
  window_start = some window_end;
  window_end = some window_end;
  cursor_value = cursor;
  last_success_at = some now;
  last_attempt_at = some now;
  consecutive_errors = 0;
  last_error = none;
  total_events = c.total_events + events_seen;
  last_event_time = later_time last_event_time c.last_event_time;
}

unfoldable pub record_checkpoint_failure : ℕ → PollFault → SyncCheckpoint → SyncCheckpoint
record_checkpoint_failure now fault c = record c {
  last_attempt_at = some now;
  consecutive_errors = c.consecutive_errors + 1;
  last_error = some (fault_name fault);
}

-- What the loops of a cycle carry: `summary["events"]`, `summary["new"]`, `last_event_time`, `cursor`.
pub record Tally : Type 0 where
  pub events : ℕ
  pub new : ℕ
  pub last_event_time : Option ℕ
  pub cursor : Option String

abbrev pub count_event : Bool → ComplianceEvent → Tally → Tally
count_event is_new e t = record t {
  new = if is_new then t.new + 1 else t.new;
  last_event_time = later_time e.event_time t.last_event_time;
}

-- The next step, unless this one has failed.
abbrev pub then_poll :
    {E : Type 0} {A : Type 0} {B : Type 0}
    → (E → PollFault)
    → Result E A × Ledger
    → (A → Ledger → Result PollFault B × Ledger)
    → Result PollFault B × Ledger
then_poll fault (err problem, s) k = (err (fault problem), s)
then_poll fault (ok a, s) k = k a s

module _ (imp : Importer) (stores : ComplianceEvent → Answer) (now : ℕ) (org : Organization) where
  -- The loop over the events of a page, which ends with the first that is not stored.
  unfoldable pub poll_events :
      List ComplianceEvent → Tally → Ledger → Result PollFault Tally × Ledger
  poll_events [] t s = (ok t, s)
  poll_events (e ∷ es) t s =
      then_poll (λ problem. unstored) (persist_event imp (stores e) now org e s)
        (λ is_new s'. poll_events es (count_event is_new e t) s')

  abbrev pub is_last : CompliancePage → Bool
  is_last p = not p.has_more || length p.events == 0

  abbrev pub see_page : CompliancePage → Tally → Tally
  see_page p t = record t { events = t.events + length p.events }

  -- The loop over the pages: the last page that it has seen, and the tally.
  unfoldable pub poll_pages :
      List (Result PollFault CompliancePage)
      → Option CompliancePage
      → Tally
      → Ledger
      → Result PollFault (CompliancePage × Tally) × Ledger
  unfolding poll_events
  poll_pages [] none t s = (err unbound, s)
  poll_pages [] (some p) t s = (ok (p, t), s)
  poll_pages (err fault ∷ rest) last t s = (err fault, s)
  poll_pages (ok p ∷ rest) last t s =
      then_poll (λ fault. fault) (poll_events p.events (see_page p t) s)
        (λ t' s'.
          let t'' = record t' { cursor = p.next_cursor } in
          let later = poll_pages rest (some p) t'' s' in
          if is_last p then (ok (p, t''), s') else later)

  abbrev pub sync_job : JobIn
  sync_job = record {
    kind = compliance_sync;
    payload = ("trigger", plain_text "poller") ∷ [];
    organization_id = some org.id;
    dedupe_key = some sync_key;
    priority = 250;
    run_after = none;
    max_attempts = 8;
  }

  abbrev pub enqueue_sync : Ledger → Ledger
  enqueue_sync s = record s {
    vault = record s.vault { archive = enqueue now sync_job s.vault.archive };
  }

  abbrev pub set_checkpoint : ℕ → (SyncCheckpoint → SyncCheckpoint) → Ledger → Ledger
  set_checkpoint i f s = record s { checkpoints = update (λ c. c.id == i) f s.checkpoints }

  unfoldable pub end_cycle :
      SyncCheckpoint
      → Result PollFault (CompliancePage × Tally) × Ledger
      → Result PollFault Tally × Ledger
  unfolding advance_checkpoint record_checkpoint_failure
  end_cycle c (err fault, s) =
      (err fault, set_checkpoint c.id (record_checkpoint_failure now fault) s)
  end_cycle c (ok (p, t), s) =
      let cursor = if p.has_more then t.cursor else none in
      let s' =
        set_checkpoint c.id (advance_checkpoint now now cursor t.last_event_time t.events) s in
      (ok t, if ltb 0 t.new then enqueue_sync s' else s')

  -- A cycle for an organization, by the answers to its requests; the window and the cursor go to the
  -- adapter alone.
  unfoldable pub run_cycle :
      ℕ → List (Result PollFault CompliancePage) → Ledger → Result PollFault Tally × Ledger
  unfolding end_cycle poll_pages get_or_create_checkpoint
  run_cycle max_pages pages s =
      let (c, s') = get_or_create_checkpoint now org.id "default" s in
      end_cycle c (
        poll_pages (take max_pages pages) none
          (record {
            events = 0;
            new = 0;
            last_event_time = c.last_event_time;
            cursor = c.cursor_value;
          })
          s')
