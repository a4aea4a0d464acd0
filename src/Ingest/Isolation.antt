-- ===== src/Ingest/Isolation.antt =====
-- services/backend/app/services/ingest.py, `ingest_message_batch`: an item that fails leaves no trace.
use chrome_chatgpt_data.Prelude.{
  ℕ, ◌+◌, Bool, true, false, String, Option, none, some, List, [], ◌∷◌, ◌++◌, map, ◌≡◌, refl, ap,
  ◌∙◌, arith, Bool-cases, inl, inr, ◌&&◌, length, length-append,
}
use mathlib.Core.List.{append_assoc}
use chrome_chatgpt_data.Prelude.Rows.{any, count}
use chrome_chatgpt_data.Prelude.Results.{Result, ok, err, ◌>>=◌}
use text.Mathlib.Text.{◌==◌ as str_eq}
use chrome_chatgpt_data.Enums.{is_accepted, is_partial, is_complete}
use chrome_chatgpt_data.Contract.{MessageIn, ClientContext, ItemResult}
use chrome_chatgpt_data.Archive.{Message, MessageVersion, ResultRef, Store}
use chrome_chatgpt_data.Ingest.{Externals, IngestContext}
use chrome_chatgpt_data.Ingest.Versions.{
  append_version, settle_version, store_message, settle_message, ingest_checked, ingest_message,
}
use chrome_chatgpt_data.Ingest.Messages.{settle_existing}
use chrome_chatgpt_data.Ingest.History.{Content, content, append_nil, ingest_message_appends}
use chrome_chatgpt_data.Ingest.Batch.{
  Fault, Stop, integrity, internal, validation, conversation_race, policy, fault_result, batch_from,
  ingest_message_batch, add_result,
}

-- The items without a fault, with their indices.
abbrev pub survivors : ℕ → List (MessageIn × Option Stop) → List (ℕ × MessageIn)
survivors index [] = []
survivors index ((p, none) ∷ items) = (index, p) ∷ survivors (index + 1) items
survivors index ((p, some f) ∷ items) = survivors (index + 1) items

-- A policy error, and a concurrent insertion of the item's conversation, stop the batch.
abbrev pub ends_batch : Fault → Bool
ends_batch conversation_race = true
ends_batch (policy code) = true
ends_batch integrity = false
ends_batch internal = false
ends_batch (validation code) = false

abbrev pub stops : MessageIn × Option Stop → Bool
stops (p, none) = false
stops (p, some s) = ends_batch s.fault

-- The results stand for the items, one each, in order.
abbrev pub Answers : ℕ → List (MessageIn × Option Stop) → List ItemResult → Type 0
Answers index [] rs = rs ≡ []
Answers index (item ∷ items) [] = ⊥
Answers index (item ∷ items) (r ∷ rs) =
    (r.index ≡ index) × (r.idempotency_key ≡ item.0.idempotency_key) × Answers (index + 1) items rs

module _ (ext : Externals) (ctx : IngestContext) (now : ℕ) (client : Option ClientContext) where
  -- Messages that are ingested one after another with no fault and no savepoint.
  abbrev pub run_all : List (ℕ × MessageIn) → Store → Store
  run_all [] st = st
  run_all ((index, p) ∷ items) st = run_all items (ingest_message ext ctx now index p client st).1

  abbrev pub Isolates :
      ℕ → List (MessageIn × Option Stop) → Store → Result Fault (List ItemResult × Store) → Type 0
  Isolates index items st (ok (rs, st')) =
      (any stops items ≡ false)
      × Answers index items rs
      × (st' ≡ run_all (survivors index items) st)
      × (extra : List Content) × (map content st'.versions ≡ map content st.versions ++ extra)
      × (length extra ≡ count (λ r. is_accepted r.status) rs)
  Isolates index items st (err e) = any stops items ≡ true

  settle_version_named :
      (index conversation_id : ℕ) (p : MessageIn) (hash : String) (m : Message)
      (existing : Option MessageVersion) (st : Store)
      → let r = (settle_version ext ctx now index p client conversation_id hash m existing st).0 in
        (r.index ≡ index) × (r.idempotency_key ≡ p.idempotency_key)
  unfolding settle_existing append_version
  settle_version_named index conversation_id p hash m none st = (refl, refl)
  settle_version_named index conversation_id p hash m (some v) st =
      elim (Bool-cases (is_partial v.completion_status && is_complete p.completion_status)) [
        | inl t ↦ rw t (refl, refl)
        | inr f ↦ rw f (refl, refl)
      ]

  settle_message_named :
      (index conversation_id : ℕ) (p : MessageIn) (replay : Option ResultRef) (st : Store)
      → let r = (settle_message ext ctx now index p client conversation_id replay st).0 in
        (r.index ≡ index) × (r.idempotency_key ≡ p.idempotency_key)
  unfolding store_message
  settle_message_named index conversation_id p (some ref) st = (refl, refl)
  settle_message_named index conversation_id p none st =
      settle_version_named index conversation_id p _ _ _ _

  ingest_message_named :
      (index : ℕ) (p : MessageIn) (st : Store)
      → let r = (ingest_message ext ctx now index p client st).0 in
        (r.index ≡ index) × (r.idempotency_key ≡ p.idempotency_key)
  unfolding ingest_message ingest_checked
  ingest_message_named index p st =
      elim (Bool-cases (str_eq p.content_sha256 (ext.hashing.sha256_hex p.text))) [
        | inl t ↦ rw t (settle_message_named index _ p _ _)
        | inr f ↦ rw f (refl, refl)
      ]

  batch_from-Isolates :
      (index : ℕ) (items : List (MessageIn × Option Stop)) (st : Store)
      → Isolates index items st (batch_from ext ctx now client index items st)
  unfolding batch_from fault_result
  batch_from-Isolates index [] st = (refl, refl, refl, [], append_nil _, refl)
  batch_from-Isolates index ((p, none) ∷ items) st =
      go
        (batch_from ext ctx now client (index + 1) items
          (ingest_message ext ctx now index p client st).1)
        (batch_from-Isolates (index + 1) items (ingest_message ext ctx now index p client st).1)
    where
      go :
          (rest : Result Fault (List ItemResult × Store))
          → Isolates (index + 1) items (ingest_message ext ctx now index p client st).1 rest
          → Isolates index
              ((p, none) ∷ items)
              st
              (rest >>= add_result (ingest_message ext ctx now index p client st).0)
      go (err e) h = h
      go (ok (rs, s)) (clear, answers, run, extra, grown, counted) =
          let (first, grown1, counted1) = ingest_message_appends ext ctx p now index client st in
          let (same_index, same_key) = ingest_message_named index p st in
          (
            clear,
            (same_index, same_key, answers),
            run,
            first ++ extra,
            grown
                ∙ ap (λ cs. cs ++ extra) grown1
                ∙ append_assoc (map content st.versions) first extra,
            omega (arith, length-append first extra, counted, counted1),
          )
  batch_from-Isolates index ((p, some f) ∷ items) st =
      go f.fault (batch_from ext ctx now client (index + 1) items st)
        (batch_from-Isolates (index + 1) items st)
    where
      failing :
          (g : Fault) (r : ItemResult) (rest : Result Fault (List ItemResult × Store))
          → r.index ≡ index
          → r.idempotency_key ≡ p.idempotency_key
          → is_accepted r.status ≡ false
          → ends_batch g ≡ false
          → Isolates (index + 1) items st rest
          → Isolates index
              ((p, some (record { fault = g; written = f.written })) ∷ items)
              st
              (rest >>= add_result r)
      failing g r (err e) same_index same_key refused goes h = ground arith
      failing g r (ok (rs, s)) same_index same_key refused goes
            (clear, answers, run, extra, grown, counted) =
          (
            ground arith,
            (same_index, same_key, answers),
            run,
            extra,
            grown,
            rw refused (omega (arith, counted)),
          )

      go :
          (g : Fault) (rest : Result Fault (List ItemResult × Store))
          → Isolates (index + 1) items st rest
          → Isolates index
              ((p, some (record { fault = g; written = f.written })) ∷ items)
              st
              (fault_result index p.idempotency_key g >>= λ r. rest >>= add_result r)
      go integrity rest h = failing integrity _ rest refl refl refl refl h
      go internal rest h = failing internal _ rest refl refl refl refl h
      go (validation code) rest h = failing (validation code) _ rest refl refl refl refl h
      go conversation_race rest h = refl
      go (policy code) rest h = refl

  -- Whatever the messages, what stops some of them and what these have written by then: `ingest_message_batch` raises exactly when some item meets a
  -- policy error or a concurrent insertion of its conversation; else it returns one result for
  -- each message, in order and under its index and key; the store is the one that the messages which
  -- nothing stops leave by themselves, so that of what a stopped item has written nothing stays; and to the history of the versions
  -- exactly as many have been appended as results are accepted.
  pub ingest_message_batch-Isolates :
      (items : List (MessageIn × Option Stop)) (st : Store)
      → Isolates 0 items st (ingest_message_batch ext ctx now client items st)
  unfolding ingest_message_batch
  ingest_message_batch-Isolates items st = batch_from-Isolates 0 items st
