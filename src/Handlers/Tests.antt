-- ===== src/Handlers/Tests.antt =====
-- Runs of the handlers of services/backend/app/workers/handlers.py, and the theorems about them at concrete
-- inputs.
use chrome_chatgpt_data.Prelude.{
  ◌*◌, ◌≡◌, refl, true, false, none, some, [], ◌∷◌, ◌==◌, map, All, is_some,
}
use chrome_chatgpt_data.Prelude.Rows.{find}
use chrome_chatgpt_data.Prelude.Sorting.{sort_by}
use chrome_chatgpt_data.Prelude.Results.{ok, err}
use chrome_chatgpt_data.Prelude.Texts.{codes}
use chrome_chatgpt_data.Enums.{
  hard_delete, CompletionStatus, user, is_partial, archive_raw_event, reconcile_partial,
}
use chrome_chatgpt_data.Jobs.{Job, id_text, plain_text}
use chrome_chatgpt_data.Archive.{Message, MessageVersion, Store, empty_store}
use chrome_chatgpt_data.Ingest.History.{content}
use chrome_chatgpt_data.Storage.{write_failed, get_object}
use chrome_chatgpt_data.Attachments.{Vault}
use chrome_chatgpt_data.Samples.{chat, message, version, attachment, link, event, job_of}
use chrome_chatgpt_data.Retention.{
  RetentionPolicy, day, soft_delete_expired, hard_delete_grace_expired, prune_idempotency_keys,
}
use chrome_chatgpt_data.Attachments.{expire_stale_pending}
use chrome_chatgpt_data.Handlers.Upkeep.{Upkeep, handle_retention_sweep}
use chrome_chatgpt_data.Handlers.Events.{Archiver, handle_archive_raw_event}
use chrome_chatgpt_data.Handlers.Reconcile.{handle_reconcile_partial}
use chrome_chatgpt_data.Handlers.Settled.{IsLatest, ShowsVersion, handle_reconcile_partial_settles}
use chrome_chatgpt_data.Handlers.Reruns.{rerun_changes_nothing}

abbrev archiver : Archiver
archiver = record {
  dates = record { year = λ t. codes "2026"; month = λ t. codes "11"; day = λ t. codes "26" };
  hashing = record {
    sha256_hex = λ t. "d";
    nfkc = λ t. t;
    casefold = λ t. t;
    uuid_text = λ n. n ∷ [];
  };
  event_json = λ e. 123 ∷ 125 ∷ [];
}

-- The partial version 7 of the message 7, and its complete version 9.
abbrev partial_version : MessageVersion
partial_version = record (version 7 "so f") { completion_status = CompletionStatus.partial }

abbrev complete_version : MessageVersion
complete_version = record (version 7 "so far") {
  id = 9;
  version_number = 2;
  capture_event_id = some 2;
}

abbrev store : Store
store = record empty_store {
  messages = record (message 7 user 0) { completion_status = CompletionStatus.partial } ∷ [];
  versions = partial_version ∷ complete_version ∷ [];
  capture_events = event 2 ∷ [];
}

abbrev vault : Vault
vault = record { archive = store; attachments = []; links = []; objects = [] }

abbrev reconciling : Job
reconciling = job_of reconcile_partial (("message_id", id_text 7) ∷ [])

abbrev archiving : Job
archiving =
    job_of archive_raw_event
      (("capture_event_id", id_text 2) ∷ ("s3_key", plain_text "raw/2.json") ∷ [])

-- The object is there, and the row of the version names it.
archived :
    let v' = (handle_archive_raw_event archiver (ok (some "v1")) 5 archiving vault).1 in
    (is_some (get_object (codes "raw/2.json") v'.objects) ≡ true)
    × (map (λ v. v.raw_s3_key) v'.archive.versions ≡ none ∷ some (codes "raw/2.json") ∷ [])
unfolding handle_archive_raw_event
archived = (refl, refl)

reconciled :
    let st' = (handle_reconcile_partial 5 reconciling store).1 in
    map (λ v. v.completion_status) st'.versions
    ≡ CompletionStatus.reconciled ∷ CompletionStatus.complete ∷ []
unfolding handle_reconcile_partial sort_by
reconciled = refl

handle_reconcile_partial_settles_example :
    let st' = (handle_reconcile_partial 5 reconciling store).1 in
    (c : MessageVersion) × IsLatest 7 store.versions c
    × (m' : Message) × (find (λ r. r.id == 7) st'.messages ≡ some m')
    × ShowsVersion c (record (message 7 user 0) { completion_status = CompletionStatus.partial }) m'
    × All (λ v. v.message_id ≡ 7 → is_partial v.completion_status ≡ false) st'.versions
    × (map content st'.versions ≡ map content store.versions)
handle_reconcile_partial_settles_example =
    handle_reconcile_partial_settles 5 reconciling store 7
      (record (message 7 user 0) { completion_status = CompletionStatus.partial }) refl refl refl
      refl

rerun_changes_nothing_example :
    let v' = (handle_archive_raw_event archiver (ok (some "v1")) 5 archiving vault).1 in
    let st' = (handle_reconcile_partial 5 archiving store).1 in
    ((handle_archive_raw_event archiver (err write_failed) 6 archiving v').1 ≡ v')
    × ((handle_reconcile_partial 6 archiving st').1 ≡ st')
rerun_changes_nothing_example =
    rerun_changes_nothing archiver 5 6 (some "v1") (err write_failed) archiving vault

abbrev held_vault : Vault
held_vault = record vault {
  archive = record store { conversations = record (chat 1) { legal_hold = true } ∷ chat 2 ∷ [] };
}

abbrev purge_policy : RetentionPolicy
purge_policy = record {
  id = 9;
  organization_id = 3;
  name = "short";
  retain_days = 2;
  grace_days = 1;
  action = hard_delete;
  is_default = true;
  is_active = true;
  last_run_at = none;
}

abbrev upkeep : Upkeep
upkeep = record { policies = purge_policy ∷ []; vault = held_vault; source_keys = [] }

-- The conversation 2 is soft-deleted, the held one is not.
swept :
    let u = (handle_retention_sweep 7 (3 * day) reconciling upkeep).1 in
    map (λ c. is_some c.deleted_at) u.vault.archive.conversations ≡ false ∷ true ∷ []
unfolding handle_retention_sweep soft_delete_expired hard_delete_grace_expired
    prune_idempotency_keys expire_stale_pending
swept = refl

-- The physical deletion takes the attachment of the conversation 2 with its link.
purged :
    let full = record held_vault {
      archive = record store {
        conversations =
            record (chat 1) { legal_hold = true } ∷ record (chat 2) { deleted_at = some 1 } ∷ [];
      };
      attachments = attachment 4 ∷ record (attachment 5) { conversation_id = 2 } ∷ [];
      links = link 6 7 ∷ record (link 8 7) { attachment_id = 5; conversation_id = 2 } ∷ [];
    } in
    let u = (handle_retention_sweep 7 (3 * day) reconciling (record upkeep { vault = full })).1 in
    (map (λ c. c.id) u.vault.archive.conversations ≡ 1 ∷ [])
    × (map (λ a. a.id) u.vault.attachments ≡ 4 ∷ [])
    × (map (λ l. l.id) u.vault.links ≡ 6 ∷ [])
unfolding handle_retention_sweep soft_delete_expired hard_delete_grace_expired
    prune_idempotency_keys expire_stale_pending
purged = (refl, refl, refl)
