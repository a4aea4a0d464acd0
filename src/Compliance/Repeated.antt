-- ===== src/Compliance/Repeated.antt =====
-- services/backend/app/services/compliance_import.py, `import_pending_source_events`: two events of one
-- conversation that is not stored.
use text.Mathlib.Text.{◌==◌ as str_eq}
use text.Mathlib.TextEquality.{eq_iff}
use mathlib.Core.Bool.{false≢true}
use chrome_chatgpt_data.Prelude.{
  ℕ, ◌+◌, ◌≤◌, ◌≡◌, refl, sym, ◌∙◌, inl, inr, String, Bool, true, false, ◌&&◌, Option, none, some,
  List, [], ◌∷◌, ◌++◌, ◌==◌, arith, take, All, Bool-cases, ==_iff, ==_refl,
}
use chrome_chatgpt_data.Prelude.Rows.{select, find, any, count, find-any, any_of_find, count-append}
use chrome_chatgpt_data.Prelude.Sorting.{sort_by}
use chrome_chatgpt_data.Prelude.Results.{ok, err}
use chrome_chatgpt_data.Prelude.Texts.{truthy}
use chrome_chatgpt_data.Policy.{Workspace, Organization, is_row}
use chrome_chatgpt_data.Archive.{Conversation}
use chrome_chatgpt_data.Compliance.{
  SourceEvent, Ledger, Importer, compliance_hash, get_or_create_compliance_workspace,
}
use chrome_chatgpt_data.Compliance.Import.{
  is_unprocessed, is_earlier_event, is_upstream, entomb, verified_conversation,
  imported_conversation, Import, conversation_exists, same_key, insert_all, flush, open_workspace,
  fold_event, fold_in_workspace, fold_into, process, import_events, import_pending_source_events,
}
use chrome_chatgpt_data.Compliance.Distinct.{is_named, names_id, any-update}

any_first_last :
    (q : Conversation → Bool) (cs : List Conversation) (p : Conversation)
    → any q cs ≡ true
    → any q (cs ++ p ∷ []) ≡ true
any_first_last q [] p h = ground arith
any_first_last q (c ∷ cs) p h = ground (arith, any_first_last q cs p)

any_at_last :
    (q : Conversation → Bool) (cs : List Conversation) (p : Conversation)
    → q p ≡ true
    → any q (cs ++ p ∷ []) ≡ true
any_at_last q [] p h = ground arith
any_at_last q (c ∷ cs) p h = ground (arith, any_at_last q cs p)

module _ (org w : ℕ) (i : String) where
  -- Rows of one conversation have the key in common.
  same_key_of :
      (p c : Conversation)
      → is_upstream org w i p ≡ true
      → is_upstream org w i c ≡ true
      → same_key p c ≡ true
  same_key_of p c hp hc = ground (
    arith,
    ==_iff p.organization_id org,
    ==_iff c.organization_id org,
    ==_iff p.workspace_id w,
    ==_iff c.workspace_id w,
    ==_iff c.organization_id p.organization_id,
    ==_iff c.workspace_id p.workspace_id,
    eq_iff p.source_conversation_id i,
    eq_iff c.source_conversation_id i,
    eq_iff c.source_conversation_id p.source_conversation_id,
  )

  any-same_key :
      (p : Conversation) (cs : List Conversation)
      → is_upstream org w i p ≡ true
      → any (is_upstream org w i) cs ≡ true
      → any (same_key p) cs ≡ true
  any-same_key p [] hp h = ground arith
  any-same_key p (c ∷ cs) hp h = elim (Bool-cases (is_upstream org w i c)) [
    | inl t ↦ rw (same_key_of p c hp t) refl
    | inr f ↦ ground (arith, any-same_key p cs hp (ground (arith, f, h)))
  ]

  -- A row that is stored is not inserted again.
  insert_all_stored :
      (ps cs : List Conversation)
      → any (is_upstream org w i) cs ≡ true
      → 1 ≤ count (is_upstream org w i) ps
      → insert_all ps cs ≡ err conversation_exists
  unfolding insert_all
  insert_all_stored [] cs stored h = ground arith
  insert_all_stored (p ∷ ps) cs stored h = elim (Bool-cases (any (same_key p) cs)) [
    | inl t ↦ rw t refl
    | inr f ↦ rw f (elim (Bool-cases (is_upstream org w i p)) [
      | inl own ↦ absurd (false≢true (sym f ∙ any-same_key p cs own stored))
      | inr other ↦
          insert_all_stored ps (cs ++ p ∷ []) (any_first_last (is_upstream org w i) cs p stored)
            (ground (arith, other, h))
    ])
  ]

  insert_all_twice :
      (ps cs : List Conversation)
      → 2 ≤ count (is_upstream org w i) ps
      → insert_all ps cs ≡ err conversation_exists
  unfolding insert_all
  insert_all_twice [] cs h = ground arith
  insert_all_twice (p ∷ ps) cs h = elim (Bool-cases (any (same_key p) cs)) [
    | inl t ↦ rw t refl
    | inr f ↦ rw f (elim (Bool-cases (is_upstream org w i p)) [
      | inl own ↦
          insert_all_stored ps (cs ++ p ∷ []) (any_at_last (is_upstream org w i) cs p own)
            (ground (arith, own, h))
      | inr other ↦ insert_all_twice ps (cs ++ p ∷ []) (ground (arith, other, h))
    ])
  ]

-- The workspace is the one with the identifier `w`.
abbrev is_at : ℕ → Option Workspace → Bool
is_at w none = false
is_at w (some r) = r.id == w

-- The stored workspace of an event.
abbrev pub workspace_of : Importer → Organization → List Workspace → SourceEvent → Option Workspace
workspace_of imp org workspaces e =
    find (is_row org.id (compliance_hash imp org e.source_workspace_id)) workspaces

-- The event tells of the conversation `i` in the workspace `w`.
abbrev pub tells : Importer → Organization → List Workspace → ℕ → String → SourceEvent → Bool
tells imp org workspaces w i e = is_at w (workspace_of imp org workspaces e) && names_id i e

module _ (imp : Importer) (now : ℕ) (org : Organization) (w : ℕ) (i : String)
    (workspaces : List Workspace) where
  -- The conversation is not stored, and is or will be added twice.
  record Doomed (es : List SourceEvent) (im : Import) : Type 0 where
    same : im.ledger.workspaces ≡ workspaces
    absent : any (is_upstream org.id w i) im.ledger.vault.archive.conversations ≡ false
    twice : 2 ≤ count (is_upstream org.id w i) im.pending + count (tells imp org workspaces w i) es

  tells_as :
      (e : SourceEvent) (r : Workspace) (o : Option String)
      → workspace_of imp org workspaces e ≡ some r
      → truthy e.source_conversation_id ≡ o
      → tells imp org workspaces w i e ≡ (r.id == w && is_named i o)
  tells_as e r o at named = rw at (rw named refl)

  -- What is added for an event that tells of the conversation has its key.
  added_key :
      (uuid : ℕ) (e : SourceEvent) (r : Workspace) (j : String)
      → (r.id == w && str_eq i j) ≡ true
      → is_upstream org.id w i (entomb e (imported_conversation uuid now org.id r.id j e)) ≡ true
  added_key uuid e r j own = ground (arith, own, ==_refl org.id, eq_iff i j, eq_iff j i)

  -- No row is found for such an event.
  tells_none :
      (r : Workspace) (j : String) (cs : List Conversation) (c : Conversation)
      → any (is_upstream org.id w i) cs ≡ false
      → find (is_upstream org.id r.id j) cs ≡ some c
      → (r.id == w && str_eq i j) ≡ false
  tells_none r j cs c absent found = elim (Bool-cases (r.id == w && str_eq i j)) [
    | inr f ↦ f
    | inl t ↦
        let at_w : r.id ≡ w = (==_iff r.id w).0 (ground arith) in
        let is_i : i ≡ j = (eq_iff i j).0 (ground arith) in
        let there : any (is_upstream org.id w i) cs ≡ true =
          rw (sym at_w) (rw is_i (any_of_find (is_upstream org.id r.id j) cs c found)) in
        absurd (false≢true (sym absent ∙ there))
  ]

  fold_event-Doomed :
      (e : SourceEvent) (es : List SourceEvent) (im : Import) (r : Workspace) (j : String)
      → workspace_of imp org workspaces e ≡ some r
      → truthy e.source_conversation_id ≡ some j
      → Doomed (e ∷ es) im
      → (o : Option Conversation)
      → find (is_upstream org.id r.id j) im.ledger.vault.archive.conversations ≡ o
      → Doomed es (process now e (fold_event now org.id r.id j e o im))
  unfolding fold_event
  fold_event-Doomed e es im r j at named h none absent = record {
    same = h.same;
    absent = h.absent;
    twice = elim (Bool-cases (r.id == w && str_eq i j)) [
      | inl own ↦ ground (
        arith,
        h.twice,
        tells_as e r (some j) at named,
        own,
        added_key im.ledger.vault.archive.uuids e r j own,
        count-append (is_upstream org.id w i) im.pending (
            entomb e (imported_conversation im.ledger.vault.archive.uuids now org.id r.id j e)
            ∷ []),
      )
      | inr other ↦ ground (
        arith,
        h.twice,
        tells_as e r (some j) at named,
        other,
        count-append (is_upstream org.id w i) im.pending (
            entomb e (imported_conversation im.ledger.vault.archive.uuids now org.id r.id j e)
            ∷ []),
      )
    ];
  }
  fold_event-Doomed e es im r j at named h (some c) found = record {
    same = h.same;
    absent =
        any-update (is_upstream org.id w i) (λ x. x.id == c.id)
          (λ x. entomb e (verified_conversation x)) im.ledger.vault.archive.conversations
          (λ x. refl)
        ∙ h.absent;
    twice = ground (
      arith,
      h.twice,
      tells_as e r (some j) at named,
      tells_none r j im.ledger.vault.archive.conversations c h.absent found,
    );
  }

  fold_into-Doomed :
      (e : SourceEvent) (es : List SourceEvent) (im : Import) (r : Workspace)
      → workspace_of imp org workspaces e ≡ some r
      → Doomed (e ∷ es) im
      → (o : Option String) → truthy e.source_conversation_id ≡ o
      → (im' : Import) × (fold_into imp now org e o im ≡ ok im') × Doomed es (process now e im')
  unfolding fold_into open_workspace fold_in_workspace get_or_create_compliance_workspace
  fold_into-Doomed e es im r at h none named = (
    im,
    refl,
    record {
      same = h.same;
      absent = h.absent;
      twice = ground (arith, h.twice, tells_as e r none at named);
    },
  )
  fold_into-Doomed e es im r at h (some j) named =
      let stored : workspace_of imp org im.ledger.workspaces e ≡ some r = rw h.same at in
      let known =
        any_of_find (is_row org.id (compliance_hash imp org e.source_workspace_id))
          im.ledger.workspaces r stored in
      (
        fold_event now org.id r.id j e
            (find (is_upstream org.id r.id j) im.ledger.vault.archive.conversations) im,
        rw known (rw stored refl),
        fold_event-Doomed e es im r j at named h _ refl,
      )

  import_events_fail :
      (es : List SourceEvent) (im : Import)
      → Doomed es im
      → All
          (λ e.
            any (is_row org.id (compliance_hash imp org e.source_workspace_id)) workspaces ≡ true)
          es
      → import_events imp now org es im ≡ err conversation_exists
  unfolding import_events flush
  import_events_fail [] im h known =
      rw
        (insert_all_twice org.id w i im.pending im.ledger.vault.archive.conversations
          (omega (arith, h.twice)))
        refl
  import_events_fail (e ∷ es) im h known =
      let (r, at) =
        find-any (is_row org.id (compliance_hash imp org e.source_workspace_id)) workspaces
          known.0 in
      let (im', folded, doomed) =
        fold_into-Doomed e es im r at h (truthy e.source_conversation_id) refl in
      rw folded (import_events_fail es (process now e im') doomed known.1)

-- Where the workspaces of all events that an import takes are stored, and two of the events tell of one
-- conversation that is not stored, the import raises.
pub repeated_conversation_raises :
    (imp : Importer) (now : ℕ) (org : Organization) (limit : ℕ) (s : Ledger) (w : ℕ) (i : String)
    → let rows =
        take limit (sort_by is_earlier_event (select (is_unprocessed org.id) s.source_events)) in
      All
        (λ e.
          any (is_row org.id (compliance_hash imp org e.source_workspace_id)) s.workspaces ≡ true)
        rows
      → any (is_upstream org.id w i) s.vault.archive.conversations ≡ false
      → 2 ≤ count (tells imp org s.workspaces w i) rows
      → import_pending_source_events imp now org limit s ≡ err conversation_exists
unfolding import_pending_source_events
repeated_conversation_raises imp now org limit s w i known absent twice =
    let rows =
      take limit (sort_by is_earlier_event (select (is_unprocessed org.id) s.source_events)) in
    let session : Import = record { ledger = s; pending = [] } in
    rw
      (import_events_fail imp now org w i s.workspaces rows session
        (record { same = refl; absent = absent; twice = omega (arith, twice) }) known)
      refl
