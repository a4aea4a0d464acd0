-- ===== src/Compliance/Distinct.antt =====
-- services/backend/app/services/compliance_import.py, `import_pending_source_events`: events of different
-- conversations are imported.
use text.Mathlib.Text.{◌==◌ as str_eq}
use chrome_chatgpt_data.Prelude.{
  ℕ, ◌≡◌, refl, ◌∙◌, String, Bool, true, false, ◌||◌, Option, none, some, List, [], ◌∷◌, ◌++◌, ◌==◌,
  arith, All, All-append, All-implies, All-zip,
}
use chrome_chatgpt_data.Prelude.Rows.{find, any, update, any-find}
use chrome_chatgpt_data.Prelude.Results.{Result, ok, err, ◌>>=◌}
use chrome_chatgpt_data.Prelude.Texts.{truthy}
use chrome_chatgpt_data.Policy.{Workspace, Organization}
use chrome_chatgpt_data.Archive.{Conversation}
use chrome_chatgpt_data.Compliance.{
  SourceEvent, Ledger, Importer, workspace_or_new, get_or_create_compliance_workspace,
}
use chrome_chatgpt_data.Compliance.Import.{
  is_upstream, entomb, verified_conversation, Import, ImportError, same_key, insert_all, flush,
  opened, open_workspace, fold_event, fold_in_workspace, fold_into, process, import_events,
}

-- The event names the conversation `i`.
abbrev pub is_named : String → Option String → Bool
is_named i none = false
is_named i (some j) = str_eq i j

abbrev pub names_id : String → SourceEvent → Bool
names_id i e = is_named i (truthy e.source_conversation_id)

abbrev pub named_later : Option String → List SourceEvent → Bool
named_later none es = false
named_later (some i) es = any (names_id i) es

-- Two of the events name the same conversation.
abbrev pub repeats : List SourceEvent → Bool
repeats [] = false
repeats (e ∷ es) = named_later (truthy e.source_conversation_id) es || repeats es

-- The step does not raise, and `P` holds of what it returns.
abbrev pub Succeeds {ℓ} : {A : Type ℓ} → (A → Type 0) → Result ImportError A → Type 0
Succeeds P (ok a) = P a
Succeeds P (err e) = ⊥

module _ {ℓ} {A : Type ℓ} where
  Succeeds-implies :
      (P Q : A → Type 0) (r : Result ImportError A)
      → ((a : A) → P a → Q a)
      → Succeeds P r
      → Succeeds Q r
  Succeeds-implies P Q (ok a) k h = k a h
  Succeeds-implies P Q (err e) k h = absurd h

module _ {ℓ κ} {A : Type ℓ} {B : Type κ} where
  Succeeds-bind :
      (P : A → Type 0) (Q : B → Type 0) (r : Result ImportError A) (f : A → Result ImportError B)
      → Succeeds P r
      → ((a : A) → P a → Succeeds Q (f a))
      → Succeeds Q (r >>= f)
  Succeeds-bind P Q (ok a) f h k = k a h
  Succeeds-bind P Q (err e) f h k = absurd h

abbrev Apart : List Conversation → Type 0
Apart [] = Unit
Apart (p ∷ ps) =
    All (λ q. str_eq p.source_conversation_id q.source_conversation_id ≡ false) ps × Apart ps

Apart-last :
    (ps : List Conversation) (q : Conversation)
    → Apart ps
    → All (λ p. str_eq p.source_conversation_id q.source_conversation_id ≡ false) ps
    → Apart (ps ++ q ∷ [])
Apart-last [] q h k = (tt, tt)
Apart-last (p ∷ ps) q h k = (
  All-append (λ r. str_eq p.source_conversation_id r.source_conversation_id ≡ false) ps (q ∷ []) h.0
      (k.0, tt),
  Apart-last ps q h.1 k.1,
)

any_last :
    (q : Conversation → Bool) (cs : List Conversation) (p : Conversation)
    → any q cs ≡ false
    → q p ≡ false
    → any q (cs ++ p ∷ []) ≡ false
any_last q [] p h k = ground arith
any_last q (c ∷ cs) p h k = ground (arith, any_last q cs p)

pub any-update :
    (q p : Conversation → Bool) (f : Conversation → Conversation) (cs : List Conversation)
    → ((c : Conversation) → q (f c) ≡ q c)
    → any q (update p f cs) ≡ any q cs
any-update q p f [] same = refl
any-update q p f (c ∷ cs) same = ground (arith, same c, any-update q p f cs same)

-- The pending conversations are not stored, are different from each other, and are named by none of the
-- events to come.
pub record Ready (es : List SourceEvent) (im : Import) : Type 0 where
  pub free : All (λ p. any (same_key p) im.ledger.vault.archive.conversations ≡ false) im.pending
  pub apart : Apart im.pending
  pub later : All (λ p. any (names_id p.source_conversation_id) es ≡ false) im.pending

insert_all-Succeeds :
    (ps cs : List Conversation)
    → All (λ p. any (same_key p) cs ≡ false) ps
    → Apart ps
    → Succeeds (λ all. Unit) (insert_all ps cs)
unfolding insert_all
insert_all-Succeeds [] cs h k = tt
insert_all-Succeeds (p ∷ ps) cs h k = rw h.0 (
    insert_all-Succeeds ps (cs ++ p ∷ [])
      (All-implies _ _ ps (λ q both. any_last (same_key q) cs p both.0 (ground (arith, both.1)))
        (All-zip (λ q. any (same_key q) cs ≡ false) _ ps h.1 k.0))
      k.1)

flush-Succeeds :
    (es es' : List SourceEvent) (im : Import) → Ready es im → Succeeds (Ready es') (flush im)
unfolding flush
flush-Succeeds es es' im h =
    Succeeds-bind (λ all. Unit) (Ready es')
      (insert_all im.pending im.ledger.vault.archive.conversations) _
      (insert_all-Succeeds im.pending im.ledger.vault.archive.conversations h.free h.apart)
      (λ all u. record { free = tt; apart = tt; later = tt })

opened-Succeeds :
    (known : Bool) (o : Workspace × Ledger) (es : List SourceEvent) (im : Import)
    → o.1.vault.archive.conversations ≡ im.ledger.vault.archive.conversations
    → Ready es im
    → Succeeds (λ r. Ready es r.1) (opened known o im)
opened-Succeeds true (w, s) es im same h = record {
  free = rw same h.free;
  apart = h.apart;
  later = h.later;
}
opened-Succeeds false (w, s) es im same h =
    Succeeds-bind (Ready es) (λ r. Ready es r.1) (flush (record im { ledger = s })) _
      (flush-Succeeds es es (record im { ledger = s })
        (record { free = rw same h.free; apart = h.apart; later = h.later }))
      (λ flushed k. k)

module _ (imp : Importer) (now : ℕ) (org : Organization) where
  workspace_or_new_conversations :
      (i : Option String) (hash : String) (o : Option Workspace) (s : Ledger)
      → (workspace_or_new now org i hash o s).1.vault.archive.conversations
        ≡ s.vault.archive.conversations
  workspace_or_new_conversations i hash none s = refl
  workspace_or_new_conversations i hash (some w) s = refl

  workspace_conversations :
      (i : Option String) (s : Ledger)
      → (get_or_create_compliance_workspace imp now org i s).1.vault.archive.conversations
        ≡ s.vault.archive.conversations
  unfolding get_or_create_compliance_workspace
  workspace_conversations i s = workspace_or_new_conversations i _ (find _ s.workspaces) s

  fold_event-Ready :
      (workspace_id : ℕ) (i : String) (e : SourceEvent) (es : List SourceEvent) (im : Import)
      → truthy e.source_conversation_id ≡ some i
      → any (names_id i) es ≡ false
      → Ready (e ∷ es) im
      → (o : Option Conversation)
      → find (is_upstream org.id workspace_id i) im.ledger.vault.archive.conversations ≡ o
      → Ready es (fold_event now org.id workspace_id i e o im)
  unfolding fold_event
  fold_event-Ready workspace_id i e es im named last h none absent = record {
    free = All-append _ im.pending _ h.free (
      any-find (is_upstream org.id workspace_id i) im.ledger.vault.archive.conversations absent,
      tt,
    );
    apart =
        Apart-last im.pending _ h.apart
          (All-implies _ _ im.pending (λ p k. ground (arith, k, named)) h.later);
    later =
        All-append _ im.pending _ (All-implies _ _ im.pending (λ p k. ground (arith, k)) h.later)
          (last, tt);
  }
  fold_event-Ready workspace_id i e es im named last h (some c) found = record {
    free =
        All-implies _ _ im.pending
          (λ p k.
            any-update (same_key p) (λ r. r.id == c.id) (λ r. entomb e (verified_conversation r))
              im.ledger.vault.archive.conversations (λ r. refl)
            ∙ k)
          h.free;
    apart = h.apart;
    later = All-implies _ _ im.pending (λ p k. ground (arith, k)) h.later;
  }

  fold_into-Succeeds :
      (e : SourceEvent) (es : List SourceEvent) (im : Import) (o : Option String)
      → truthy e.source_conversation_id ≡ o
      → named_later o es ≡ false
      → Ready (e ∷ es) im
      → Succeeds (Ready es) (fold_into imp now org e o im)
  unfolding fold_into open_workspace fold_in_workspace
  fold_into-Succeeds e es im none named last h = record {
    free = h.free;
    apart = h.apart;
    later = All-implies _ _ im.pending (λ p k. ground (arith, k)) h.later;
  }
  fold_into-Succeeds e es im (some i) named last h =
      Succeeds-bind (λ r. Ready (e ∷ es) r.1) (Ready es)
        (open_workspace imp now org e.source_workspace_id im) _
        (opened-Succeeds _
          (get_or_create_compliance_workspace imp now org e.source_workspace_id im.ledger) (e ∷ es)
          im (workspace_conversations e.source_workspace_id im.ledger) h)
        (λ r k. fold_event-Ready r.0.id i e es r.1 named last k _ refl)

  -- Events that name different conversations are imported.
  pub import_events-Succeeds :
      (es : List SourceEvent) (im : Import)
      → Ready es im
      → repeats es ≡ false
      → Succeeds (λ im'. Unit) (import_events imp now org es im)
  unfolding import_events
  import_events-Succeeds [] im h apart =
      Succeeds-implies (Ready []) (λ im'. Unit) (flush im) (λ im' k. tt) (flush-Succeeds [] [] im h)
  import_events-Succeeds (e ∷ es) im h apart =
      Succeeds-bind (Ready es) (λ im'. Unit)
        (fold_into imp now org e (truthy e.source_conversation_id) im) _
        (fold_into-Succeeds e es im (truthy e.source_conversation_id) refl (ground arith) h)
        (λ im' k.
          import_events-Succeeds es (process now e im')
            (record { free = k.free; apart = k.apart; later = k.later }) (ground arith))
