-- ===== src/Snapshots/Stored.antt =====
-- services/backend/app/workers/handlers.py, `handle_build_snapshot`: the row tells what is stored.
use chrome_chatgpt_data.Prelude.{
  ℕ, ◌+◌, ◌≡◌, refl, ap, ◌∙◌, String, false, Option, none, some, List, ◌==◌, is_some, ==_refl,
}
use chrome_chatgpt_data.Prelude.Rows.{find, find-update}
use chrome_chatgpt_data.Prelude.Results.{ok, err}
use chrome_chatgpt_data.Prelude.Texts.{Text, codes}
use chrome_chatgpt_data.Jobs.{Job}
use chrome_chatgpt_data.Policy.{Workspace}
use chrome_chatgpt_data.Archive.{Conversation}
use chrome_chatgpt_data.Storage.{StorageError, get_object, snapshot_key}
use chrome_chatgpt_data.Attachments.{Vault}
use chrome_chatgpt_data.Attachments.Finalize.{entry, as_id}
use chrome_chatgpt_data.Attachments.Verified.{bytes_eq_refl}
use chrome_chatgpt_data.Snapshots.{build_snapshot}
use chrome_chatgpt_data.Snapshots.Write.{
  Notary, snapshot_taken, write_snapshot, handle_build_snapshot,
}

-- What the store and the row of the conversation `c` hold after a snapshot, `v'`.
abbrev pub IsStored :
    Notary → List Workspace → ℕ → ℕ → Conversation → Option String → Vault → Vault → Type 0
IsStored n workspaces now i c version_id v v' =
    let document = build_snapshot workspaces now false c v in
    let sha256 = n.canonical_json_sha256 document in
    (key : Text) × (c' : Conversation) × (find (λ r. r.id == i) v'.archive.conversations ≡ some c')
    × (c'.snapshot_version ≡ c.snapshot_version + 1)
    × (c'.snapshot_s3_key ≡ some key)
    × (c'.snapshot_sha256 ≡ some sha256)
    × (c'.snapshot_stale ≡ false)
    × (record c' {
      snapshot_version = c.snapshot_version;
      snapshot_s3_key = c.snapshot_s3_key;
      snapshot_sha256 = c.snapshot_sha256;
      snapshot_stale = c.snapshot_stale;
    }
        ≡ c)
    × (get_object key v'.objects
        ≡ some (record { bytes = n.json_with_integrity document sha256; version_id = version_id }))
    × (document.snapshot_version ≡ c.snapshot_version + 1)
    × (record v'.archive { conversations = v.archive.conversations } ≡ v.archive)

write_snapshot_stores :
    (n : Notary) (workspaces : List Workspace) (version_id : Option String) (now i : ℕ)
    (workspace_hash : String) (c : Conversation) (v : Vault)
    → find (λ r. r.id == i) v.archive.conversations ≡ some c
    → IsStored n workspaces now i c version_id v
        (write_snapshot n workspaces (ok version_id) now workspace_hash c v).1
unfolding write_snapshot build_snapshot
write_snapshot_stores n workspaces version_id now i workspace_hash c v found =
    let key =
      snapshot_key n.dates (codes workspace_hash) (codes c.source_conversation_id)
        (c.snapshot_version + 1) now in
    (
      key,
      snapshot_taken (c.snapshot_version + 1) key
          (n.canonical_json_sha256 (build_snapshot workspaces now false c v)) c,
      find-update (λ r. r.id == i) (λ r. r.id == c.id) (snapshot_taken _ key _)
            v.archive.conversations c (λ r. refl) found
          ∙ rw (==_refl c.id) refl,
      refl,
      refl,
      refl,
      refl,
      refl,
      rw (bytes_eq_refl key) refl,
      refl,
      refl,
    )

-- A snapshot of a conversation that is not deleted, by the answer of the object store. Where the store takes
-- the write, the row of the conversation has the next version, the key and the digest, and is not stale;
-- the object at this key is the document with the same digest and with the version of the row, and of the
-- archive only the conversations have changed. Where the store refuses, nothing has changed.
pub handle_build_snapshot_stores :
    (n : Notary) (workspaces : List Workspace) (now : ℕ) (job : Job) (v : Vault) (i : ℕ)
    (c : Conversation)
    → as_id (entry "conversation_id" job.payload) ≡ some i
    → find (λ r. r.id == i) v.archive.conversations ≡ some c
    → c.deleted_at ≡ none
    → ((problem : StorageError)
        → (handle_build_snapshot n workspaces (err problem) now job v).1 ≡ v)
      × ((version_id : Option String)
          → IsStored n workspaces now i c version_id v
              (handle_build_snapshot n workspaces (ok version_id) now job v).1)
unfolding handle_build_snapshot
handle_build_snapshot_stores n workspaces now job v i c id found alive =
    let live : is_some c.deleted_at ≡ false = ap is_some alive in
    (
      (λ problem. rw id (rw found (rw live refl))),
      λ version_id.
          rw id
            (rw found (rw live (write_snapshot_stores n workspaces version_id now i _ c v found))),
    )
