-- ===== src/Snapshots/Tests.antt =====
-- Runs of services/backend/app/services/snapshots.py, and the theorems about it at concrete inputs.
use chrome_chatgpt_data.Prelude.{
  ℕ, ◌≡◌, ◌≤◌, refl, String, false, some, Option, [], ◌∷◌, All, map, Bool, not, ◌&&◌, ◌==◌, is_some,
}
use chrome_chatgpt_data.Prelude.Rows.{select, count}
use chrome_chatgpt_data.Prelude.Results.{ok, err}
use chrome_chatgpt_data.Prelude.Sorting.{sort_by}
use chrome_chatgpt_data.Prelude.Texts.{codes}
use chrome_chatgpt_data.Enums.{user, assistant, build_conversation_snapshot}
use chrome_chatgpt_data.Jobs.{Job, id_text}
use chrome_chatgpt_data.Archive.{empty_store}
use chrome_chatgpt_data.Storage.{StorageError}
use chrome_chatgpt_data.Attachments.{Vault}
use chrome_chatgpt_data.Samples.{chat, message, version, attachment, link, job_of}
use chrome_chatgpt_data.Snapshots.{build_snapshot}
use chrome_chatgpt_data.Snapshots.Write.{Notary, handle_build_snapshot}
use chrome_chatgpt_data.Snapshots.Whole.{
  has_record_id, MessageView, message_view, message_entry, ShowsVersions, build_snapshot_whole,
}
use chrome_chatgpt_data.Snapshots.Stored.{IsStored, handle_build_snapshot_stores}

abbrev notary : Notary
notary = record {
  dates = record { year = λ t. codes "2026"; month = λ t. codes "11"; day = λ t. codes "26" };
  canonical_json_sha256 = λ s. "d";
  json_with_integrity = λ s d. 123 ∷ 125 ∷ [];
}

-- The answer stands before its question in the table, the message 6 is deleted, and both
-- others have the attachment 2.
abbrev vault : Vault
vault = record {
  archive = record empty_store {
    conversations = chat 1 ∷ [];
    messages =
        message 8 assistant 1
        ∷ message 7 user 0
        ∷ record (message 6 user 2) { deleted_at = some 3 }
        ∷ [];
    versions = version 7 "q" ∷ version 8 "a" ∷ record (version 7 "r") { id = 9 } ∷ [];
  };
  attachments = attachment 2 ∷ [];
  links = link 4 7 ∷ link 5 8 ∷ [];
  objects = [];
}

abbrev snapshotting : Job
snapshotting = job_of build_conversation_snapshot (("conversation_id", id_text 1) ∷ [])

two_messages :
    let d = build_snapshot [] 9 false (chat 1) vault in
    (d.message_count ≡ 2) × (map (λ m. m.message_id) d.messages ≡ 7 ∷ 8 ∷ [])
unfolding build_snapshot sort_by
two_messages = (refl, refl)

build_snapshot_whole_example :
    let d = build_snapshot [] 9 false (chat 1) vault in
    ((q : MessageView → Bool)
      → count q (map message_entry d.messages)
        ≡ count q (
            map message_view (
              select
                (λ m. m.conversation_id == 1 && not (is_some m.deleted_at))
                vault.archive.messages)))
    × All (ShowsVersions 1 vault.archive.versions vault.archive.parts) d.messages
    × ((j : ℕ) → count (has_record_id j) d.attachments ≤ 1)
    × (count (has_record_id 2) d.attachments ≡ 1)
build_snapshot_whole_example =
    build_snapshot_whole [] 9 false (chat 1) vault 2 (attachment 2) refl refl

handle_build_snapshot_stores_example :
    ((problem : StorageError)
      → (handle_build_snapshot notary [] (err problem) 9 snapshotting vault).1 ≡ vault)
    × ((version_id : Option String)
        → IsStored notary [] 9 1
            (chat 1)
            version_id
            vault
            (handle_build_snapshot notary [] (ok version_id) 9 snapshotting vault).1)
handle_build_snapshot_stores_example =
    handle_build_snapshot_stores notary [] 9 snapshotting vault 1 (chat 1) refl refl refl
