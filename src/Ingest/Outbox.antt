-- ===== src/Ingest/Outbox.antt =====
-- services/backend/app/services/ingest.py: what an accepted message leaves for the worker.
use chrome_chatgpt_data.Prelude.{
  ℕ, String, true, false, ◌&&◌, Option, none, some, List, [], ◌∷◌, ◌++◌, ◌≡◌, refl, ap, ◌∙◌, arith,
  Bool-cases, inl, inr,
}
use mathlib.Core.Path.{subst}
use text.Mathlib.Text.{◌==◌ as str_eq}
use chrome_chatgpt_data.Prelude.Rows.{find}
use chrome_chatgpt_data.Enums.{is_accepted, is_complete, is_partial}
use chrome_chatgpt_data.Jobs.{archive_key, snapshot_key, reconcile_key}
use chrome_chatgpt_data.Jobs.Enqueued.{IsQueued, enqueue_job-IsQueued, enqueue_job_keeps}
use chrome_chatgpt_data.Contract.{MessageIn, ClientContext, ItemResult, of_message}
use chrome_chatgpt_data.Fingerprint.{content_hash, message_fingerprint}
use chrome_chatgpt_data.Archive.{CaptureEvent, Message, MessageVersion, ResultRef, Store}
use chrome_chatgpt_data.Ingest.{
  Externals, IngestContext, no_ref, claim_key, enqueue, record_capture_event, new_event,
  update_idempotency_result,
}
use chrome_chatgpt_data.Ingest.Conversations.{get_or_create_conversation, mark_snapshot_stale}
use chrome_chatgpt_data.Ingest.Messages.{
  is_content, find_message, resolve_branch, place_message, settle_existing,
}
use chrome_chatgpt_data.Ingest.Versions.{
  append_version, write_version, settle_version, store_message, settle_message, message_fields,
  ingest_checked, ingest_message,
}
use chrome_chatgpt_data.Ingest.Frames.{
  get_or_create-frame, resolve_branch-frame, place_message-frame,
}

module _ (ext : Externals) (ctx : IngestContext) (p : MessageIn) where
  -- One event is appended, with the message as its payload, and live jobs will archive it and rebuild
  -- the snapshot; a partial message has a live job that reconciles it.
  abbrev pub IsRecorded : ItemResult → List CaptureEvent → Store → Type 0
  IsRecorded r events st' =
      (event : CaptureEvent) × (c : ℕ) × (m : ℕ) × (st'.capture_events ≡ events ++ event ∷ [])
      × (event.payload ≡ of_message p)
      × (event.message_id ≡ some m)
      × (r.conversation_id ≡ some c)
      × (r.message_id ≡ some m)
      × IsQueued (archive_key event.id) st'.jobs
      × IsQueued (snapshot_key c) st'.jobs
      × (is_partial p.completion_status ≡ true → IsQueued (reconcile_key m) st'.jobs)

  abbrev pub Records : ItemResult → List CaptureEvent → Store → Type 0
  Records r events st' =
      (is_accepted r.status ≡ true → IsRecorded r events st')
      × (is_accepted r.status ≡ false → st'.capture_events ≡ events)

  claimed_events :
      (now org : ℕ) (key : String) (ref : ResultRef) (st : Store)
      → (claim_key now org key ref st).1.capture_events ≡ st.capture_events
  unfolding claim_key
  claimed_events now org key ref st = refl

  settle_existing-Records :
      (now index conversation_id : ℕ) (m : Message) (v : MessageVersion) (st : Store)
      → let (r, st') = settle_existing ctx now index p conversation_id m v st in
        Records r st.capture_events st'
  unfolding settle_existing update_idempotency_result mark_snapshot_stale enqueue
  settle_existing-Records now index conversation_id m v st =
      elim (Bool-cases (is_partial v.completion_status && is_complete p.completion_status)) [
        | inl t ↦ rw t ((λ a. absurd (ground arith)), λ _. refl)
        | inr f ↦ rw f ((λ a. absurd (ground arith)), λ _. refl)
      ]

  append_version-Records :
      (now index conversation_id : ℕ) (client : Option ClientContext) (hash : String) (m : Message)
      (st : Store)
      → let (r, st') = append_version ext ctx now index p client conversation_id hash m st in
        Records r st.capture_events st'
  unfolding append_version write_version update_idempotency_result mark_snapshot_stale enqueue
      record_capture_event new_event
  append_version-Records now index conversation_id client hash m st =
      elim (Bool-cases (is_partial p.completion_status)) [
        | inl t ↦ rw t (
          (λ _. (
            _,
            conversation_id,
            m.id,
            refl,
            refl,
            refl,
            refl,
            refl,
            enqueue_job_keeps now _ _ (archive_key _) _ (
                enqueue_job_keeps now _ _ (archive_key _) _
                  (enqueue_job-IsQueued now _ _ (archive_key _) st.jobs refl)),
            enqueue_job_keeps now _ _ (snapshot_key conversation_id) _
                (enqueue_job-IsQueued now _ _ (snapshot_key conversation_id) _ refl),
            λ _. enqueue_job-IsQueued now _ _ (reconcile_key m.id) _ refl,
          )),
          λ f. absurd (ground arith),
        )
        | inr f ↦ rw f (
          (λ _. (
            _,
            conversation_id,
            m.id,
            refl,
            refl,
            refl,
            refl,
            refl,
            enqueue_job_keeps now _ _ (archive_key _) _
                (enqueue_job-IsQueued now _ _ (archive_key _) st.jobs refl),
            enqueue_job-IsQueued now _ _ (snapshot_key conversation_id) _ refl,
            λ t. absurd (ground arith),
          )),
          λ f. absurd (ground arith),
        )
      ]

  store_message-Records :
      (now index conversation_id : ℕ) (client : Option ClientContext) (fp hash : String)
      (st : Store)
      → let (r, st') = store_message ext ctx now index p client conversation_id fp hash st in
        Records r st.capture_events st'
  unfolding store_message
  store_message-Records now index conversation_id client fp hash st =
      let found = find_message conversation_id p fp hash st.messages st.versions in
      let (u, bs, b) = resolve_branch-frame now conversation_id p st in
      let (branch, branched) = resolve_branch now conversation_id p st in
      let (w, ms, m) = place_message-frame ctx conversation_id p fp branch found branched in
      let (message, placed) = place_message ctx conversation_id p fp branch found branched in
      let kept : placed.capture_events ≡ st.capture_events =
        ap (λ s. s.capture_events) m ∙ ap (λ s. s.capture_events) b in
      settled message (find (is_content message.id hash) placed.versions) placed st.capture_events
        kept
    where
      settled :
          (m : Message) (existing : Option MessageVersion) (s : Store) (events : List CaptureEvent)
          → s.capture_events ≡ events
          → let (r, st') =
              settle_version ext ctx now index p client conversation_id hash m existing s in
            Records r events st'
      settled m none s events e =
          let (r, st') = append_version ext ctx now index p client conversation_id hash m s in
          subst (λ es. Records r es st') e
            (append_version-Records now index conversation_id client hash m s)
      settled m (some v) s events e =
          let (r, st') = settle_existing ctx now index p conversation_id m v s in
          subst (λ es. Records r es st') e (settle_existing-Records now index conversation_id m v s)

  ingest_checked-Records :
      (now index : ℕ) (client : Option ClientContext) (st : Store)
      → let (r, st') = ingest_checked ext ctx now index p client st in
        Records r st.capture_events st'
  unfolding ingest_checked
  ingest_checked-Records now index client st =
      let (c, created, got) = get_or_create_conversation ext ctx now (message_fields p) st in
      let (u, cs, framed) = get_or_create-frame ext ctx now (message_fields p) st in
      let ref = record no_ref { conversation_id = some c.id } in
      let (replay, claimed) = claim_key now ctx.organization.id p.idempotency_key ref got in
      let kept : claimed.capture_events ≡ st.capture_events =
        claimed_events now ctx.organization.id p.idempotency_key ref got
        ∙ ap (λ s. s.capture_events) framed in
      settled c.id replay claimed st.capture_events kept
    where
      settled :
          (conversation_id : ℕ) (replay : Option ResultRef) (s : Store) (events : List CaptureEvent)
          → s.capture_events ≡ events
          → let (r, st') = settle_message ext ctx now index p client conversation_id replay s in
            Records r events st'
      settled c (some ref) s events e = ((λ a. absurd (ground arith)), λ _. e)
      settled c none s events e =
          let hash = content_hash ext.hashing p.text in
          let fp =
            message_fingerprint ext.hashing c p.role p.text p.sequence_index p.source_created_at in
          let (r, st') = store_message ext ctx now index p client c fp hash s in
          subst (λ es. Records r es st') e (store_message-Records now index c client fp hash s)

  -- For every store and message: if `ingest_message` accepts the message, the same transaction holds
  -- one new capture event with the message as its payload and the returned message id, a live job that
  -- archives that event and one that rebuilds the snapshot of the returned conversation, and for a
  -- partial message a live job that reconciles it. A duplicate or rejected message leaves the events as
  -- they are.
  pub ingest_message_records :
      (now index : ℕ) (client : Option ClientContext) (st : Store)
      → let (r, st') = ingest_message ext ctx now index p client st in
        (is_accepted r.status ≡ true → IsRecorded r st.capture_events st')
        × (is_accepted r.status ≡ false → st'.capture_events ≡ st.capture_events)
  unfolding ingest_message
  ingest_message_records now index client st =
      elim (Bool-cases (str_eq p.content_sha256 (ext.hashing.sha256_hex p.text))) [
        | inl t ↦ rw t (ingest_checked-Records now index client st)
        | inr f ↦ rw f ((λ a. absurd (ground arith)), λ _. refl)
      ]
