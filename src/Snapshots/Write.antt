-- ===== src/Snapshots/Write.antt =====
-- services/backend/app/services/snapshots.py, `write_snapshot`, and `handle_build_snapshot` of
-- workers/handlers.py.
use chrome_chatgpt_data.Prelude.{
  ℕ, ◌+◌, String, true, false, Option, none, some, List, [], ◌∷◌, ◌==◌, if◌then◌else◌, is_some,
}
use chrome_chatgpt_data.Prelude.Rows.{find, update}
use chrome_chatgpt_data.Prelude.Texts.{Text, codes, truthy}
use chrome_chatgpt_data.Prelude.Results.{ok, err}
use chrome_chatgpt_data.Jobs.{Job, flag, number, plain_text, code_points}
use chrome_chatgpt_data.Policy.{Workspace}
use chrome_chatgpt_data.Exif.{Bytes}
use chrome_chatgpt_data.Archive.{Conversation}
use chrome_chatgpt_data.Storage.{Dates, snapshot_key, put_object}
use chrome_chatgpt_data.Worker.{Outcome, returned, non_retryable}
use chrome_chatgpt_data.Attachments.{Vault}
use chrome_chatgpt_data.Attachments.Finalize.{
  entry, as_id, as_text, workspace_label, storage_failed,
}
use chrome_chatgpt_data.Handlers.{Answer}
use chrome_chatgpt_data.Snapshots.{Snapshot, build_snapshot}

-- What the program takes from libraries: dates, the digest of the canonical JSON of a document, and the
-- JSON that is stored, with the digest.
pub record Notary : Type 0 where
  pub dates : Dates
  pub canonical_json_sha256 : Snapshot → String
  pub json_with_integrity : Snapshot → String → Bytes

abbrev pub snapshot_taken : ℕ → Text → String → Conversation → Conversation
snapshot_taken version key sha256 c = record c {
  snapshot_version = version;
  snapshot_s3_key = some key;
  snapshot_sha256 = some sha256;
  snapshot_stale = false;
}

-- `write_snapshot` by the answer of the store, and the result of the handler.
unfoldable pub write_snapshot :
    Notary → List Workspace → Answer → ℕ → String → Conversation → Vault → Outcome × Vault
write_snapshot n workspaces (err problem) now workspace_hash c v = storage_failed problem v
write_snapshot n workspaces (ok version_id) now workspace_hash c v =
    let document = build_snapshot workspaces now false c v in
    let version = c.snapshot_version + 1 in
    let key =
      snapshot_key n.dates (codes workspace_hash) (codes c.source_conversation_id) version now in
    let sha256 = n.canonical_json_sha256 document in
    (
      returned (
          ("s3_key", code_points key)
          ∷ ("sha256", plain_text sha256)
          ∷ ("snapshot_version", number version)
          ∷ []),
      record v {
        objects = put_object key (n.json_with_integrity document sha256) version_id v.objects;
        archive = record v.archive {
          conversations =
              update (λ r. r.id == c.id) (snapshot_taken version key sha256)
                v.archive.conversations;
        };
      },
    )

unfoldable pub snapshot_found :
    Notary → List Workspace → Answer → ℕ → Job → Option Conversation → Vault → Outcome × Vault
unfolding write_snapshot
snapshot_found n workspaces answer now job none v =
    (non_retryable (codes "conversation no longer exists"), v)
snapshot_found n workspaces answer now job (some c) v =
    if is_some c.deleted_at
    then (
      returned (("skipped", flag true) ∷ ("reason", plain_text "conversation_soft_deleted") ∷ []),
      v,
    )
    else write_snapshot n workspaces answer now
        (workspace_label (truthy (as_text (entry "workspace_hash" job.payload)))
          (find (λ w. w.id == c.workspace_id) workspaces))
        c v

unfoldable pub snapshot_by_id :
    Notary → List Workspace → Answer → ℕ → Job → Option ℕ → Vault → Outcome × Vault
unfolding snapshot_found
snapshot_by_id n workspaces answer now job none v =
    (non_retryable (codes "conversation_id missing or malformed"), v)
snapshot_by_id n workspaces answer now job (some i) v =
    snapshot_found n workspaces answer now job (find (λ c. c.id == i) v.archive.conversations) v

unfoldable pub handle_build_snapshot :
    Notary → List Workspace → Answer → ℕ → Job → Vault → Outcome × Vault
unfolding snapshot_by_id
handle_build_snapshot n workspaces answer now job v =
    snapshot_by_id n workspaces answer now job (as_id (entry "conversation_id" job.payload)) v
