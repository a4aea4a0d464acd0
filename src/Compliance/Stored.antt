-- ===== src/Compliance/Stored.antt =====
-- services/backend/app/services/compliance_import.py, `persist_event`: what it stores, and what it loses.
use chrome_chatgpt_data.Prelude.{
  ℕ, ◌≡◌, refl, ap, ◌∙◌, String, Bool, true, false, ◌||◌, or_else, Option, none, some, List, [],
  ◌∷◌, ◌++◌, arith, ==_refl,
}
use chrome_chatgpt_data.Prelude.Rows.{find, any}
use chrome_chatgpt_data.Prelude.Results.{Result, ok, err}
use chrome_chatgpt_data.Prelude.Texts.{Text, codes, str_eq_refl}
use chrome_chatgpt_data.Policy.{Workspace, Organization}
use chrome_chatgpt_data.Storage.{StorageError, get_object, compliance_raw_key}
use chrome_chatgpt_data.Handlers.{Answer}
use chrome_chatgpt_data.Attachments.Verified.{bytes_eq_refl}
use chrome_chatgpt_data.Compliance.{
  ComplianceEvent, SourceEvent, Ledger, Importer, workspace_or_new,
  get_or_create_compliance_workspace, is_source_key, is_source_event, claim_source, source_event,
  write_source_event, persist_event,
}

module _ {A : Type 0} where
  pub any_append : (p : A → Bool) (xs ys : List A) → any p (xs ++ ys) ≡ (any p xs || any p ys)
  any_append p [] ys = refl
  any_append p (x ∷ xs) ys = ground (arith, any_append p xs ys)

-- Whether the event is claimed, and whether it has a row.
abbrev pub is_claimed : Organization → ComplianceEvent → Ledger → Bool
is_claimed org e s = any (is_source_key org.id e.source_event_id) s.keys

abbrev pub is_stored : Organization → ComplianceEvent → Ledger → Bool
is_stored org e s = any (is_source_event org.id e.source_event_id) s.source_events

pub claimed_again :
    (imp : Importer) (answer : Answer) (now : ℕ) (org : Organization) (e : ComplianceEvent)
    (s : Ledger)
    → is_claimed org e s ≡ true
    → persist_event imp answer now org e s ≡ (ok false, s)
unfolding persist_event
claimed_again imp answer now org e s t = rw t refl

module _ (imp : Importer) (now : ℕ) (org : Organization) where
  -- A workspace leaves the keys and the events alone.
  workspace_or_new-kept :
      (i : Option String) (hash : String) (o : Option Workspace) (s : Ledger)
      → let s' = (workspace_or_new now org i hash o s).1 in
        (s'.keys ≡ s.keys) × (s'.source_events ≡ s.source_events)
  workspace_or_new-kept i hash none s = (refl, refl)
  workspace_or_new-kept i hash (some w) s = (refl, refl)

  pub workspace-kept :
      (i : Option String) (s : Ledger)
      → let s' = (get_or_create_compliance_workspace imp now org i s).1 in
        (s'.keys ≡ s.keys) × (s'.source_events ≡ s.source_events)
  unfolding get_or_create_compliance_workspace
  workspace-kept i s = workspace_or_new-kept i _ (find _ s.workspaces) s

  claim_source-claimed :
      (e : ComplianceEvent) (s : Ledger)
      → is_claimed org e (claim_source now org.id e.source_event_id s) ≡ true
  claim_source-claimed e s =
      any_append (is_source_key org.id e.source_event_id) s.keys _
      ∙ ground (arith, ==_refl org.id, str_eq_refl e.source_event_id)

  pub source_event-stored :
      (uuid : ℕ) (e : ComplianceEvent) (key : Text) (version : Option String)
      (es : List SourceEvent)
      → any
          (is_source_event org.id e.source_event_id)
          (es ++ source_event imp uuid now org e key version ∷ [])
        ≡ true
  unfolding source_event
  source_event-stored uuid e key version es =
      any_append (is_source_event org.id e.source_event_id) es _
      ∙ ground (arith, ==_refl org.id, str_eq_refl e.source_event_id)

  -- What a write of the row does to a ledger in which the event is claimed.
  abbrev IsPersisted :
      ComplianceEvent → Option String → Ledger → Result StorageError Bool × Ledger → Type 0
  IsPersisted e version s (r, s') =
      (r ≡ ok true)
      × (is_claimed org e s' ≡ true)
      × (is_stored org e s' ≡ true)
      × (key : Text) × (get_object key s'.vault.objects
          ≡ some (record { bytes = imp.event_json now e; version_id = version }))

  write_source_event-IsPersisted :
      (version : Option String) (e : ComplianceEvent) (w : Workspace) (s : Ledger)
      → is_claimed org e s ≡ true
      → IsPersisted e version s (write_source_event imp (ok version) now org e (w, s))
  unfolding write_source_event
  write_source_event-IsPersisted version e w s claimed =
      let key =
        compliance_raw_key imp.dates (codes w.workspace_hash) (codes e.source_event_id)
          (or_else e.event_time now) in
      (
        refl,
        claimed,
        source_event-stored s.vault.archive.uuids e key version s.source_events,
        key,
        rw (bytes_eq_refl key) refl,
      )

  persisted :
      (version : Option String) (e : ComplianceEvent) (s : Ledger)
      → is_claimed org e s ≡ false
      → IsPersisted e version s (persist_event imp (ok version) now org e s)
  unfolding persist_event
  persisted version e s fresh =
      let claimed = claim_source now org.id e.source_event_id s in
      let (w, s') = get_or_create_compliance_workspace imp now org e.workspace_id claimed in
      let kept = workspace-kept e.workspace_id claimed in
      rw fresh (
        write_source_event-IsPersisted version e w s'
          (ap (any (is_source_key org.id e.source_event_id)) kept.0 ∙ claim_source-claimed e s))

  unstored :
      (problem : StorageError) (e : ComplianceEvent) (s : Ledger)
      → is_claimed org e s ≡ false
      → let (r, s') = persist_event imp (err problem) now org e s in
        (r ≡ err problem) × (is_claimed org e s' ≡ true) × (s'.source_events ≡ s.source_events)
  unfolding persist_event write_source_event
  unstored problem e s fresh =
      let claimed = claim_source now org.id e.source_event_id s in
      let kept = workspace-kept e.workspace_id claimed in
      rw fresh (
        refl,
        ap (any (is_source_key org.id e.source_event_id)) kept.0 ∙ claim_source-claimed e s,
        kept.1,
      )

-- An event that is not claimed, by the answer of the object store. Where the store takes the write, the
-- event is new, its document is in the store and it has a row; where the store refuses, there is an error
-- and no row has come. In both cases the event is claimed, and whenever it comes again, whatever the
-- store answers then, it counts as imported and nothing changes: after a refused write it is lost.
pub persist_event_once :
    (imp : Importer) (now now' : ℕ) (org : Organization) (e : ComplianceEvent) (s : Ledger)
    (version : Option String) (problem : StorageError) (again : Answer)
    → is_claimed org e s ≡ false
    → let (r, s') = persist_event imp (ok version) now org e s in
      let (r'', s'') = persist_event imp (err problem) now org e s in
      (r ≡ ok true)
      × (is_stored org e s' ≡ true)
      × (key : Text) × (get_object key s'.vault.objects
          ≡ some (record { bytes = imp.event_json now e; version_id = version }))
      × (persist_event imp again now' org e s' ≡ (ok false, s'))
      × (r'' ≡ err problem)
      × (s''.source_events ≡ s.source_events)
      × (persist_event imp again now' org e s'' ≡ (ok false, s''))
persist_event_once imp now now' org e s version problem again fresh =
    let (new, claimed, stored, key, object) = persisted imp now org version e s fresh in
    let (refused, claimed', kept) = unstored imp now org problem e s fresh in
    (
      new,
      stored,
      key,
      object,
      claimed_again imp again now' org e _ claimed,
      refused,
      kept,
      claimed_again imp again now' org e _ claimed',
    )
