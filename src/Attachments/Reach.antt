-- ===== src/Attachments/Reach.antt =====
-- The attachments of services/backend/app/services/attachments.py under requests, jobs and what the rest
-- of the program and the clients do meanwhile, in any order.
use chrome_chatgpt_data.Prelude.{ℕ, ◌≤◌, ◌≡◌, refl, true, some}
use chrome_chatgpt_data.Prelude.Rows.{find}
use chrome_chatgpt_data.Jobs.{Job}
use chrome_chatgpt_data.Policy.{Settings}
use chrome_chatgpt_data.Archive.{Store}
use chrome_chatgpt_data.Ingest.{Externals, IngestContext}
use chrome_chatgpt_data.Filenames.{Unicode}
use chrome_chatgpt_data.Storage.{Objects}
use chrome_chatgpt_data.Attachments.{
  Attachment, Vault, Limits, AttachmentInitIn, has_attachment_id, expire_stale_pending,
}
use chrome_chatgpt_data.Attachments.Init.{init_attachment}
use chrome_chatgpt_data.Attachments.Complete.{AttachmentCompleteIn, is_clean, complete_attachment}
use chrome_chatgpt_data.Attachments.Finalize.{World, handle_finalize_attachment}
use chrome_chatgpt_data.Attachments.Lifecycle.{IsVault, Change, same, Change-IsVault, Change-clean}
use chrome_chatgpt_data.Attachments.Changes.{applied, expire_stale_pending-Change}
use chrome_chatgpt_data.Attachments.Changes.Upload.{complete_attachment-Change}
use chrome_chatgpt_data.Attachments.Changes.Reserve.{init_attachment-Change}
use chrome_chatgpt_data.Attachments.Changes.Verify.{handle_finalize_attachment-Change}

module _ (ext : Externals) (u : Unicode) where
  pub data Step (v : Vault) : Vault → Type 0 where
    init :
        (ctx : IngestContext) (settings : Settings) (limits : Limits) (now : ℕ)
        (p : AttachmentInitIn)
        → Step v (applied (init_attachment ext u ctx settings limits now p v) v)
    complete :
        (ctx : IngestContext) (now : ℕ) (p : AttachmentCompleteIn)
        → Step v (applied (complete_attachment ctx now p v) v)
    finalize :
        (limits : Limits) (world : World) (now : ℕ) (job : Job)
        → Step v (handle_finalize_attachment ext u limits world now job v).1
    expire : (now : ℕ) → Step v (expire_stale_pending now v).1
    -- ingestion and the other services on the archive, uploads by clients to the object store
    others :
        (archive : Store) (objects : Objects)
        → v.archive.uuids ≤ archive.uuids
        → Step v (record v { archive = archive; objects = objects })

  pub data Reach (v : Vault) : Vault → Type 0 where
    here : Reach v v
    next : {w x : Vault} → Reach v w → Step w x → Reach v x

  Step-Change : {v w : Vault} → Step v w → IsVault v → Change v w
  Step-Change {v} (init ctx settings limits now p) h =
      init_attachment-Change ext u ctx settings limits now p v h
  Step-Change {v} (complete ctx now p) h = complete_attachment-Change ctx now p v h
  Step-Change {v} (finalize limits world now job) h =
      handle_finalize_attachment-Change ext u limits world now job v h
  Step-Change {v} (expire now) h = expire_stale_pending-Change now v
  Step-Change {v} (others archive objects le) h = same refl le

  -- Whatever requests, finalizations, expirations, uploads and other work on the archive come, in any
  -- order: of every attachment that is clean the digest and the size that were verified are those that
  -- the client declared, the detected type fits the declared one and there is a clean key; one in
  -- quarantine has its upload key and the declared size; and ids stay unique.
  pub Reach-IsVault : {v w : Vault} → IsVault v → Reach v w → IsVault w
  Reach-IsVault h here = h
  Reach-IsVault h (next r s) = let k = Reach-IsVault h r in Change-IsVault (Step-Change s k) k

  -- An attachment that is clean stays as it is: no later request, finalization, expiration or upload
  -- changes its row.
  pub clean_is_final :
      {v w : Vault} (i : ℕ) (a : Attachment)
      → IsVault v
      → Reach v w
      → find (has_attachment_id i) v.attachments ≡ some a
      → is_clean a.state ≡ true
      → find (has_attachment_id i) w.attachments ≡ some a
  clean_is_final i a h here found clean = found
  clean_is_final i a h (next r s) found clean =
      Change-clean i a (Step-Change s (Reach-IsVault h r)) (clean_is_final i a h r found clean)
        clean
