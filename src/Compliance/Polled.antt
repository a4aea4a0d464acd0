-- ===== src/Compliance/Polled.antt =====
-- services/backend/app/workers/compliance_poller.py, `run_cycle`: a cycle that succeeds has stored what it saw.
use chrome_chatgpt_data.Prelude.{
  ℕ, ◌+◌, ◌≡◌, refl, sym, ap, ◌∙◌, ◌⊎◌, inl, inr, String, Bool, true, false, Option, none, some,
  List, [], ◌∷◌, ◌++◌, ◌==◌, if◌then◌else◌, ltb, take, or_else, All, All-append, All-implies, arith,
  Bool-cases, ==_iff, ==_refl,
}
use chrome_chatgpt_data.Prelude.Rows.{find, any, update, any_elim, find-update, find_last, any-find}
use chrome_chatgpt_data.Prelude.Results.{Result, ok, err}
use chrome_chatgpt_data.Prelude.Texts.{codes, str_eq_path}
use chrome_chatgpt_data.Policy.{Workspace, Organization}
use chrome_chatgpt_data.Retention.{SourceEventKeyIndex}
use chrome_chatgpt_data.Storage.{StorageError, compliance_raw_key}
use chrome_chatgpt_data.Handlers.{Answer}
use chrome_chatgpt_data.Compliance.{
  ComplianceEvent, SourceEvent, SyncCheckpoint, Ledger, Importer, workspace_or_new,
  get_or_create_compliance_workspace, is_source_key, is_source_event, claim_source, source_event,
  write_source_event, persist_event,
}
use chrome_chatgpt_data.Compliance.Poller.{
  CompliancePage, PollFault, unstored, Tally, count_event, then_poll, poll_events, is_last,
  see_page, poll_pages, end_cycle, run_cycle, get_or_create_checkpoint, checkpoint_or_new,
  is_checkpoint, advance_checkpoint, record_checkpoint_failure,
}
use chrome_chatgpt_data.Compliance.Stored.{
  any_append, is_claimed, is_stored, claimed_again, source_event-stored, workspace-kept,
}

-- Each key has the row of its event.
abbrev pub IsBacked : Ledger → Type 0
IsBacked s =
    All (λ k. any (is_source_event k.organization_id k.source_event_id) s.source_events ≡ true)
      s.keys

-- No event has lost its row.
abbrev pub Keeps : List SourceEvent → List SourceEvent → Type 0
Keeps es es' =
    (org : ℕ) (i : String)
    → any (is_source_event org i) es ≡ true
    → any (is_source_event org i) es' ≡ true

claimed-stored :
    (org : Organization) (e : ComplianceEvent) (s : Ledger)
    → IsBacked s
    → is_claimed org e s ≡ true
    → is_stored org e s ≡ true
claimed-stored org e s backed claimed =
    any_elim (is_stored org e s ≡ true) (is_source_key org.id e.source_event_id) s.keys
      (All-implies _ _ s.keys
        (λ k here hit.
          let same_org : k.organization_id ≡ org.id =
            (==_iff k.organization_id org.id).0 (ground arith) in
          let same_id : k.source_event_id ≡ e.source_event_id = str_eq_path _ _ (ground arith) in
          rw (sym same_org) (rw (sym same_id) here))
        backed)
      claimed

append-Keeps : (es : List SourceEvent) (r : SourceEvent) → Keeps es (es ++ r ∷ [])
append-Keeps es r org i h = any_append (is_source_event org i) es (r ∷ []) ∙ rw h refl

-- The key `k` has a row in `es`.
abbrev HasRow : List SourceEvent → SourceEventKeyIndex → Type 0
HasRow es k = any (is_source_event k.organization_id k.source_event_id) es ≡ true

append-HasRow :
    (keys : List SourceEventKeyIndex) (es : List SourceEvent) (k : SourceEventKeyIndex)
    (r : SourceEvent)
    → All (HasRow es) keys
    → HasRow (es ++ r ∷ []) k
    → All (HasRow (es ++ r ∷ [])) (keys ++ k ∷ [])
append-HasRow keys es k r backed here =
    All-append (HasRow (es ++ r ∷ [])) keys (k ∷ [])
      (All-implies (HasRow es) (HasRow (es ++ r ∷ [])) keys
        (λ j h. append-Keeps es r j.organization_id j.source_event_id h) backed)
      (here, tt)

ok-err : {E A : Type 0} (r : Result E A) (a : A) (e : E) → r ≡ ok a → r ≡ err e → ⊥
ok-err r a e h k = ground arith

module _ (imp : Importer) (now : ℕ) (org : Organization) where
  -- What a run makes of a ledger: the checkpoints are as they were, and the events that it has stored.
  abbrev Advances : Ledger → Ledger → List ComplianceEvent → Type 0
  Advances s s' es =
      IsBacked s
      → IsBacked s'
        × All (λ e. is_stored org e s' ≡ true) es
        × Keeps s.source_events s'.source_events

  abbrev PersistCases : ComplianceEvent → Ledger → Result StorageError Bool × Ledger → Type 0
  PersistCases e s (r, s') =
      (s'.checkpoints ≡ s.checkpoints)
      × (((b : Bool) × (r ≡ ok b) × Advances s s' (e ∷ []))
          ⊎ ((problem : StorageError) × (r ≡ err problem)))

  workspace_or_new-checkpoints :
      (i : Option String) (hash : String) (o : Option Workspace) (s : Ledger)
      → (workspace_or_new now org i hash o s).1.checkpoints ≡ s.checkpoints
  workspace_or_new-checkpoints i hash none s = refl
  workspace_or_new-checkpoints i hash (some w) s = refl

  write_source_event-Advances :
      (version : Option String) (e : ComplianceEvent) (w : Workspace) (s s1 : Ledger)
      → s1.keys ≡ (claim_source now org.id e.source_event_id s).keys
      → s1.source_events ≡ s.source_events
      → Advances s (write_source_event imp (ok version) now org e (w, s1)).1 (e ∷ [])
  unfolding write_source_event
  write_source_event-Advances version e w s s1 keys events backed =
      let row =
        source_event imp s1.vault.archive.uuids now org e
          (compliance_raw_key imp.dates (codes w.workspace_hash) (codes e.source_event_id)
            (or_else e.event_time now))
          version in
      let here =
        source_event-stored imp now org s1.vault.archive.uuids e _ version s.source_events in
      rw keys (
        rw events (
          append-HasRow s.keys s.source_events _ row backed here,
          (here, tt),
          append-Keeps s.source_events row,
        ))

  write-cases :
      (answer : Answer) (e : ComplianceEvent) (w : Workspace) (s s1 : Ledger)
      → s1.keys ≡ (claim_source now org.id e.source_event_id s).keys
      → s1.source_events ≡ s.source_events
      → s1.checkpoints ≡ s.checkpoints
      → PersistCases e s (write_source_event imp answer now org e (w, s1))
  unfolding write_source_event
  write-cases (err problem) e w s s1 keys events checkpoints = (checkpoints, inr (problem, refl))
  write-cases (ok version) e w s s1 keys events checkpoints =
      (checkpoints, inl (true, refl, write_source_event-Advances version e w s s1 keys events))

  workspace-checkpoints :
      (i : Option String) (s : Ledger)
      → (get_or_create_compliance_workspace imp now org i s).1.checkpoints ≡ s.checkpoints
  unfolding get_or_create_compliance_workspace
  workspace-checkpoints i s = workspace_or_new-checkpoints i _ (find _ s.workspaces) s

  persist-cases :
      (answer : Answer) (e : ComplianceEvent) (s : Ledger)
      → is_claimed org e s ≡ false
      → PersistCases e s (persist_event imp answer now org e s)
  unfolding persist_event
  persist-cases answer e s fresh =
      let claimed = claim_source now org.id e.source_event_id s in
      let (w, s1) = get_or_create_compliance_workspace imp now org e.workspace_id claimed in
      let kept = workspace-kept imp now org e.workspace_id claimed in
      rw fresh
        (write-cases answer e w s s1 kept.0 kept.1 (workspace-checkpoints e.workspace_id claimed))

  poll_event :
      (answer : Answer) (e : ComplianceEvent) (s : Ledger)
      → PersistCases e s (persist_event imp answer now org e s)
  poll_event answer e s = elim (Bool-cases (is_claimed org e s)) [
    | inl t ↦ rw (claimed_again imp answer now org e s t) (
      refl,
      inl (false, refl, λ backed. (backed, (claimed-stored org e s backed t, tt), λ o i h. h)),
    )
    | inr f ↦ persist-cases answer e s f
  ]

  module _ (stores : ComplianceEvent → Answer) where
    -- The events of the pages up to the last, or to the fault.
    abbrev pub events_seen : List (Result PollFault CompliancePage) → List ComplianceEvent
    events_seen [] = []
    events_seen (err fault ∷ rest) = []
    events_seen (ok p ∷ rest) =
        let later = events_seen rest in
        p.events ++ (if is_last imp stores now org p then [] else later)

    -- What a loop makes of a ledger: where it ends well, all events of `es` have their rows.
    abbrev Polled :
        {R : Type 0} → List ComplianceEvent → Ledger → Result PollFault R × Ledger → Type 0
    Polled es s (err fault, s') = s'.checkpoints ≡ s.checkpoints
    Polled es s (ok r, s') = (s'.checkpoints ≡ s.checkpoints) × Advances s s' es

    Advances-trans :
        (s s1 s2 : Ledger) (es fs : List ComplianceEvent)
        → Advances s s1 es
        → Advances s1 s2 fs
        → Advances s s2 (es ++ fs)
    Advances-trans s s1 s2 es fs first second backed =
        let (backed1, stored, kept) = first backed in
        let (backed2, stored2, kept2) = second backed1 in
        (
          backed2,
          All-append (λ e. is_stored org e s2 ≡ true) es fs
              (All-implies (λ e. is_stored org e s1 ≡ true) (λ e. is_stored org e s2 ≡ true) es
                (λ e h. kept2 org.id e.source_event_id h) stored)
              stored2,
          λ o i h. kept2 o i (kept o i h),
        )

    Polled-after :
        {R : Type 0} (s s1 : Ledger) (es fs : List ComplianceEvent)
        (r : Result PollFault R × Ledger)
        → s1.checkpoints ≡ s.checkpoints
        → Advances s s1 es
        → Polled fs s1 r
        → Polled (es ++ fs) s r
    Polled-after s s1 es fs (err fault, s2) kept first second = second ∙ kept
    Polled-after s s1 es fs (ok r, s2) kept first second =
        (second.0 ∙ kept, Advances-trans s s1 s2 es fs first second.1)

    then_poll-Polled :
        {E A B : Type 0} (fault : E → PollFault) (es fs : List ComplianceEvent) (s : Ledger)
        (r : Result E A × Ledger) (k : A → Ledger → Result PollFault B × Ledger)
        → r.1.checkpoints ≡ s.checkpoints
        → ((a : A) → r.0 ≡ ok a → Advances s r.1 es)
        → ((a : A) (s1 : Ledger) → Polled fs s1 (k a s1))
        → Polled (es ++ fs) s (then_poll fault r k)
    then_poll-Polled fault es fs s (err problem, s1) k kept first second = kept
    then_poll-Polled fault es fs s (ok a, s1) k kept first second =
        Polled-after s s1 es fs (k a s1) kept (first a refl) (second a s1)

    poll_events-Polled :
        (es : List ComplianceEvent) (t : Tally) (s : Ledger)
        → Polled es s (poll_events imp stores now org es t s)
    unfolding poll_events
    poll_events-Polled [] t s = (refl, λ backed. (backed, tt, λ o i h. h))
    poll_events-Polled (e ∷ es) t s =
        let r = persist_event imp (stores e) now org e s in
        let (kept, cases) = poll_event (stores e) e s in
        then_poll-Polled (λ problem. unstored) (e ∷ []) es s r _ kept
          (λ b new. elim cases [
            | inl (b', new', first) ↦ first
            | inr (problem, failed) ↦ absurd (ok-err r.0 b problem new failed)
          ])
          (λ b s1. poll_events-Polled es (count_event b e t) s1)

    Polled-checkpoints :
        {R : Type 0} (es : List ComplianceEvent) (s : Ledger) (r : Result PollFault R × Ledger)
        → Polled es s r
        → r.1.checkpoints ≡ s.checkpoints
    Polled-checkpoints es s (err fault, s1) h = h
    Polled-checkpoints es s (ok r, s1) h = h.0

    Polled-Advances :
        {R : Type 0} (es : List ComplianceEvent) (s : Ledger) (r : Result PollFault R × Ledger)
        → Polled es s r
        → (a : R) → r.0 ≡ ok a
        → Advances s r.1 es
    Polled-Advances es s (err fault, s1) h a e = absurd (ok-err (err fault) a fault e refl)
    Polled-Advances es s (ok r, s1) h a e = h.1

    -- After a page: the rest, or nothing after the last.
    after_page :
        {R : Type 0} (b : Bool) (fs : List ComplianceEvent) (s : Ledger) (done : R)
        (later : Result PollFault R × Ledger)
        → Polled fs s later
        → Polled (if b then [] else fs) s (if b then (ok done, s) else later)
    after_page true fs s done later h = (refl, λ backed. (backed, tt, λ o i k. k))
    after_page false fs s done later h = h

    poll_pages-Polled :
        (pages : List (Result PollFault CompliancePage)) (last : Option CompliancePage) (t : Tally)
        (s : Ledger)
        → Polled (events_seen pages) s (poll_pages imp stores now org pages last t s)
    unfolding poll_pages
    poll_pages-Polled [] none t s = refl
    poll_pages-Polled [] (some p) t s = (refl, λ backed. (backed, tt, λ o i h. h))
    poll_pages-Polled (err fault ∷ rest) last t s = refl
    poll_pages-Polled (ok p ∷ rest) last t s =
        let r = poll_events imp stores now org p.events (see_page imp stores now org p t) s in
        let polled = poll_events-Polled p.events (see_page imp stores now org p t) s in
        then_poll-Polled (λ fault. fault) p.events _ s r _ (Polled-checkpoints p.events s r polled)
          (Polled-Advances p.events s r polled)
          (λ t' s'.
            after_page (is_last imp stores now org p) (events_seen rest) s' _ _
              (poll_pages-Polled rest (some p) (record t' { cursor = p.next_cursor }) s'))

    -- The checkpoint of the stream after a cycle that ends so.
    abbrev pub Checkpointed : Result PollFault Tally → SyncCheckpoint → SyncCheckpoint → Type 0
    Checkpointed (err fault) c c' =
        (c'.window_start ≡ c.window_start)
        × (c'.window_end ≡ c.window_end)
        × (c'.cursor_value ≡ c.cursor_value)
        × (c'.last_event_time ≡ c.last_event_time)
        × (c'.last_success_at ≡ c.last_success_at)
        × (c'.total_events ≡ c.total_events)
        × (c'.last_attempt_at ≡ some now)
        × (c'.consecutive_errors ≡ c.consecutive_errors + 1)
    Checkpointed (ok t) c c' =
        (c'.window_start ≡ some now)
        × (c'.consecutive_errors ≡ 0)
        × (c'.total_events ≡ c.total_events + t.events)

    -- All events of `es` have their rows after a cycle that succeeds.
    abbrev pub Ended : List ComplianceEvent → Result PollFault Tally → Ledger → Type 0
    Ended es (err fault) s = Unit
    Ended es (ok t) s = IsBacked s × All (λ e. is_stored org e s ≡ true) es

    -- The checkpoint that `get_or_create_checkpoint` returns is the one that is found from then on, and
    -- the keys and the events are as they were.
    checkpoint_or_new-found :
        (o : Option SyncCheckpoint) (s : Ledger)
        → find (is_checkpoint org.id "default") s.checkpoints ≡ o
        → let (c, s') = checkpoint_or_new now org.id "default" o s in
          (find (is_checkpoint org.id "default") s'.checkpoints ≡ some c)
          × (s'.keys ≡ s.keys)
          × (s'.source_events ≡ s.source_events)
    checkpoint_or_new-found (some c) s found = (found, refl, refl)
    checkpoint_or_new-found none s found = (
      find_last (is_checkpoint org.id "default") s.checkpoints _
          (any-find (is_checkpoint org.id "default") s.checkpoints found)
          (ground (arith, ==_refl org.id)),
      refl,
      refl,
    )

    set_checkpoint-found :
        (c : SyncCheckpoint) (f : SyncCheckpoint → SyncCheckpoint) (cs : List SyncCheckpoint)
        → ((x : SyncCheckpoint)
            → is_checkpoint org.id "default" (f x) ≡ is_checkpoint org.id "default" x)
        → find (is_checkpoint org.id "default") cs ≡ some c
        → find (is_checkpoint org.id "default") (update (λ x. x.id == c.id) f cs) ≡ some (f c)
    set_checkpoint-found c f cs same found =
        find-update (is_checkpoint org.id "default") (λ x. x.id == c.id) f cs c same found
        ∙ rw (==_refl c.id) refl

    end_cycle-Ends :
        (es : List ComplianceEvent) (c : SyncCheckpoint) (s : Ledger)
        (r : Result PollFault (CompliancePage × Tally) × Ledger)
        → find (is_checkpoint org.id "default") s.checkpoints ≡ some c
        → IsBacked s
        → Polled es s r
        → let (end, s') = end_cycle imp stores now org c r in
          (c' : SyncCheckpoint) × (find (is_checkpoint org.id "default") s'.checkpoints ≡ some c')
          × Checkpointed end c c'
          × Ended es end s'
    unfolding end_cycle advance_checkpoint record_checkpoint_failure
    end_cycle-Ends es c s (err fault, s1) found backed polled = (
      record_checkpoint_failure now fault c,
      set_checkpoint-found c (record_checkpoint_failure now fault) s1.checkpoints (λ x. refl)
          (ap (find (is_checkpoint org.id "default")) polled ∙ found),
      (refl, refl, refl, refl, refl, refl, refl, refl),
      tt,
    )
    end_cycle-Ends es c s (ok (p, t), s1) found backed polled =
        let cursor = if p.has_more then t.cursor else none in
        let f = advance_checkpoint now now cursor t.last_event_time t.events in
        let found' =
          set_checkpoint-found c f s1.checkpoints (λ x. refl)
            (ap (find (is_checkpoint org.id "default")) polled.0 ∙ found) in
        let (backed', stored, kept) = polled.1 backed in
        elim (Bool-cases (ltb 0 t.new)) [
          | inl some_new ↦ rw some_new (f c, found', (refl, refl, refl), (backed', stored))
          | inr none_new ↦ rw none_new (f c, found', (refl, refl, refl), (backed', stored))
        ]

-- Where every key of the import has the row of its event, a cycle leaves one checkpoint of the stream. A
-- cycle that succeeds has stored a row for every event of the pages that it saw, each key has its row
-- still, and the checkpoint's window starts where the cycle's ended. A cycle that fails changes of the
-- checkpoint only the time of the attempt, the count of errors and the last error: the window is polled
-- again.
pub run_cycle_stores :
    (imp : Importer) (now : ℕ) (org : Organization) (stores : ComplianceEvent → Answer)
    (max_pages : ℕ) (pages : List (Result PollFault CompliancePage)) (s : Ledger)
    → IsBacked s
    → let (end, s') = run_cycle imp stores now org max_pages pages s in
      let c = (get_or_create_checkpoint now org.id "default" s).0 in
      (c' : SyncCheckpoint) × (find (is_checkpoint org.id "default") s'.checkpoints ≡ some c')
      × Checkpointed imp now org stores end c c'
      × Ended imp now org stores (events_seen imp now org stores (take max_pages pages)) end s'
unfolding run_cycle get_or_create_checkpoint
run_cycle_stores imp now org stores max_pages pages s backed =
    let o = find (is_checkpoint org.id "default") s.checkpoints in
    let (c, s') = checkpoint_or_new now org.id "default" o s in
    let (found, keys, events) = checkpoint_or_new-found imp now org stores o s refl in
    let backed' : IsBacked s' = rw keys (rw events backed) in
    let seen = take max_pages pages in
    end_cycle-Ends imp now org stores (events_seen imp now org stores seen) c s' _ found backed'
      (poll_pages-Polled imp now org stores seen none _ s')
