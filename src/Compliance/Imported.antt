-- ===== src/Compliance/Imported.antt =====
-- services/backend/app/services/compliance_import.py, `import_pending_source_events`: what an import keeps.
use chrome_chatgpt_data.Prelude.{ℕ, ◌≡◌, String, Bool, true, List, ◌++◌, map, is_some, length, All}
use chrome_chatgpt_data.Prelude.Results.{Result, ok, err}
use chrome_chatgpt_data.Jobs.{Payload}
use chrome_chatgpt_data.Policy.{Organization}
use chrome_chatgpt_data.Compliance.{SourceEvent, Ledger, Importer}
use chrome_chatgpt_data.Compliance.Import.{Import, ImportError}
use chrome_chatgpt_data.Compliance.Distinct.{repeats}

-- An event's identifier and its payload.
abbrev pub source_of : SourceEvent → String × Payload
source_of e = (e.source_event_id, e.payload)

-- Nothing of the archive is lost: the conversations are those that there were, with some more behind them; the
-- messages and their versions are the same, and every event has its identifier and its payload.
abbrev pub Kept : Ledger → Ledger → Type 0
Kept s s' =
    (extra : List ℕ) × (map (λ c. c.id) s'.vault.archive.conversations
      ≡ map (λ c. c.id) s.vault.archive.conversations ++ extra)
    × (s'.vault.archive.messages ≡ s.vault.archive.messages)
    × (s'.vault.archive.versions ≡ s.vault.archive.versions)
    × (map source_of s'.source_events ≡ map source_of s.source_events)

-- The event `i` is processed, wherever it stands.
abbrev pub IsProcessed : ℕ → List SourceEvent → Type 0
IsProcessed i = All (λ r. r.id ≡ i → is_some r.processed_at ≡ true)

-- Whatever the step returns, if it does not raise.
abbrev pub OnOk {ℓ} : {A : Type ℓ} → (A → Type 0) → Result ImportError A → Type 0
OnOk P (ok a) = P a
OnOk P (err e) = Unit

module _ (imp : Importer) (now : ℕ) (org : Organization) where
  -- What one step keeps, and that it leaves the events as they are.
  abbrev Folds : Ledger → Ledger → Type 0
  Folds s s' = Kept s s' × (s'.source_events ≡ s.source_events)

-- What an import of these events makes of the tables.
abbrev pub Imports : List SourceEvent → Ledger → Result ImportError (ℕ × Ledger) → Type 0
Imports rows s (ok (n, s')) =
    (n ≡ length rows) × Kept s s' × All (λ e. IsProcessed e.id s'.source_events) rows
Imports rows s (err e) = repeats rows ≡ true
