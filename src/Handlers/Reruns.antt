-- ===== src/Handlers/Reruns.antt =====
-- services/backend/app/workers/handlers.py: a job that runs again after it has run.
use chrome_chatgpt_data.Prelude.{
  ℕ, String, ◌≡◌, ◌≢◌, [], refl, ◌∙◌, inl, inr, true, false, Option, none, some, ◌∷◌, ◌==◌, is_some,
  arith, Bool-cases, ==_refl,
}
use chrome_chatgpt_data.Prelude.Rows.{find, update, find-update}
use chrome_chatgpt_data.Prelude.Texts.{Text, truthy_text, codes}
use chrome_chatgpt_data.Prelude.Results.{ok}
use chrome_chatgpt_data.Enums.{is_complete}
use chrome_chatgpt_data.Jobs.{
  Job, Scalar, null, flag, number, id_text, time_text, plain_text, code_points, raw_event_key,
}
use chrome_chatgpt_data.Archive.{Message, MessageVersion, CaptureEvent, Store}
use chrome_chatgpt_data.Storage
use chrome_chatgpt_data.Storage.{Dates}
use chrome_chatgpt_data.Attachments.{Vault}
use chrome_chatgpt_data.Attachments.Finalize.{entry, as_id}
use chrome_chatgpt_data.Handlers.{Answer, key_text}
use chrome_chatgpt_data.Handlers.Events.{
  Archiver, has_event_id, is_archived, mark_archived, save_archived, write_event, archive_found,
  archive_by_id, handle_archive_raw_event,
}
use chrome_chatgpt_data.Handlers.Reconcile.{
  latest_complete, settle, reconcile, reconcile_message, reconcile_by_id, handle_reconcile_partial,
}

reconcile_again :
    (now now' i : ℕ) (m : Message) (o : Option MessageVersion) (st : Store)
    → find (λ r. r.id == i) st.messages ≡ some m
    → is_complete m.completion_status ≡ false
    → latest_complete m.id st.versions ≡ o
    → let st' = (reconcile now m o st).1 in
      (reconcile_message now' (find (λ r. r.id == i) st'.messages) st').1 ≡ st'
unfolding reconcile reconcile_message
reconcile_again now now' i m none st found late latest = rw found (rw late (rw latest refl))
reconcile_again now now' i m (some c) st found late latest =
    let shown : find (λ r. r.id == i) (update (λ r. r.id == m.id) (settle c.id) st.messages)
        ≡ some (settle c.id m) =
      find-update (λ r. r.id == i) (λ r. r.id == m.id) (settle c.id) st.messages m (λ r. refl) found
      ∙ rw (==_refl m.id) refl in
    rw shown refl

reconcile_message_again :
    (now now' i : ℕ) (o : Option Message) (st : Store)
    → find (λ r. r.id == i) st.messages ≡ o
    → let st' = (reconcile_message now o st).1 in
      (reconcile_message now' (find (λ r. r.id == i) st'.messages) st').1 ≡ st'
unfolding reconcile_message
reconcile_message_again now now' i none st found = rw found refl
reconcile_message_again now now' i (some m) st found =
    elim (Bool-cases (is_complete m.completion_status)) [
      | inl t ↦ rw t (rw found (rw t refl))
      | inr late ↦
          rw late
            (reconcile_again now now' i m (latest_complete m.id st.versions) st found late refl)
    ]

reconcile_by_id_again :
    (now now' : ℕ) (o : Option ℕ) (st : Store)
    → let st' = (reconcile_by_id now o st).1 in (reconcile_by_id now' o st').1 ≡ st'
unfolding reconcile_by_id
reconcile_by_id_again now now' none st = refl
reconcile_by_id_again now now' (some i) st =
    reconcile_message_again now now' i (find (λ r. r.id == i) st.messages) st refl

truthy-nonempty : (t : Text) → truthy_text (some t) ≢ some []
truthy-nonempty [] h = ground arith
truthy-nonempty (c ∷ cs) h = ground arith

-- A key of a payload is not empty.
key_text-nonempty :
    (d : Dates) (uuid_text : ℕ → Text) (o : Option Scalar) → key_text d uuid_text o ≢ some []
unfolding Storage.raw_event_key
key_text-nonempty d uuid_text (some (code_points t)) h = truthy-nonempty t h
key_text-nonempty d uuid_text (some (plain_text s)) h = truthy-nonempty (codes s) h
key_text-nonempty d uuid_text (some (raw_event_key hash conversation event when)) h = ground arith
key_text-nonempty d uuid_text none h = ground arith
key_text-nonempty d uuid_text (some null) h = ground arith
key_text-nonempty d uuid_text (some (flag b)) h = ground arith
key_text-nonempty d uuid_text (some (number n)) h = ground arith
key_text-nonempty d uuid_text (some (id_text i)) h = ground arith
key_text-nonempty d uuid_text (some (time_text t)) h = ground arith

nonempty-truthy : (key : Text) → some key ≢ some [] → is_some (truthy_text (some key)) ≡ true
nonempty-truthy [] h = absurd (h refl)
nonempty-truthy (c ∷ cs) h = refl

module _ (a : Archiver) (now now' : ℕ) (version : Option String) (answer' : Answer)
    (job : Job) where
  archived_again :
      (i : ℕ) (e : CaptureEvent) (key : Option Text) (v : Vault)
      → find (has_event_id i) v.archive.capture_events ≡ some e
      → is_archived e ≡ false
      → key_text a.dates a.hashing.uuid_text (entry "s3_key" job.payload) ≡ key
      → let v' = (write_event a (ok version) now key e v).1 in
        (archive_found a answer' now' job (find (has_event_id i) v'.archive.capture_events) v').1
        ≡ v'
  unfolding write_event archive_found save_archived
  archived_again i e none v found late same = rw found (rw late (rw same refl))
  archived_again i e (some key) v found late same =
      let named : is_some (truthy_text (some key)) ≡ true = nonempty-truthy key (λ empty.
        key_text-nonempty a.dates a.hashing.uuid_text (entry "s3_key" job.payload)
          (same ∙ empty)) in
      let marked : find (has_event_id i)
            (update (has_event_id e.id) (mark_archived now key version) v.archive.capture_events)
          ≡ some (mark_archived now key version e) =
        find-update (has_event_id i) (has_event_id e.id) (mark_archived now key version)
          v.archive.capture_events e (λ x. refl) found
        ∙ rw (==_refl e.id) refl in
      rw marked (rw named refl)

  archive_found_again :
      (i : ℕ) (o : Option CaptureEvent) (v : Vault)
      → find (has_event_id i) v.archive.capture_events ≡ o
      → let v' = (archive_found a (ok version) now job o v).1 in
        (archive_found a answer' now' job (find (has_event_id i) v'.archive.capture_events) v').1
        ≡ v'
  unfolding archive_found
  archive_found_again i none v found = rw found refl
  archive_found_again i (some e) v found = elim (Bool-cases (is_archived e)) [
    | inl t ↦ rw t (rw found (rw t refl))
    | inr late ↦ rw late (archived_again i e _ v found late refl)
  ]

  archive_by_id_again :
      (o : Option ℕ) (v : Vault)
      → let v' = (archive_by_id a (ok version) now job o v).1 in
        (archive_by_id a answer' now' job o v').1 ≡ v'
  unfolding archive_by_id
  archive_by_id_again none v = refl
  archive_by_id_again (some i) v =
      archive_found_again i (find (has_event_id i) v.archive.capture_events) v refl

  -- A job that archives an event, or that reconciles a message, changes nothing when it runs again: not
  -- the rows, and not the object store, whatever the store would answer to a second write. For the
  -- event this holds if the store has taken the first write.
  pub rerun_changes_nothing :
      (v : Vault)
      → let v' = (handle_archive_raw_event a (ok version) now job v).1 in
        let st' = (handle_reconcile_partial now job v.archive).1 in
        ((handle_archive_raw_event a answer' now' job v').1 ≡ v')
        × ((handle_reconcile_partial now' job st').1 ≡ st')
  unfolding handle_archive_raw_event handle_reconcile_partial
  rerun_changes_nothing v = (
    archive_by_id_again (as_id (entry "capture_event_id" job.payload)) v,
    reconcile_by_id_again now now' (as_id (entry "message_id" job.payload)) v.archive,
  )
