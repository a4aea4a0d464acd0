-- ===== src/Attachments/Changes.antt =====
-- services/backend/app/services/attachments.py and handle_finalize_attachment of workers/handlers.py: what
-- each operation does to the table of attachments.
pub mod Upload
pub mod Reserve
pub mod Verify
use text.Mathlib.Text.{◌==◌ as str_eq}
use chrome_chatgpt_data.Prelude.{
  ℕ, zero, suc, ◌+◌, ◌*◌, ◌≤◌, ◌<◌, ◌≡◌, refl, sym, ap, ◌∙◌, String, Bool, true, false, not, ◌&&◌,
  ◌||◌, Option, none, some, List, [], ◌∷◌, ◌++◌, ◌==◌, is_some, All, All-implies, All-intro, arith,
  Bool-cases, Option-cases, inl, inr, if◌then◌else◌, ==_refl, ==_iff, length,
}
use mathlib.Core.Path.{subst}
use chrome_chatgpt_data.Prelude.Rows.{find, any, update, count, any_of_find, find_unique, any_none}
use chrome_chatgpt_data.Prelude.Texts.{Text, truthy_text}
use chrome_chatgpt_data.Prelude.Results.{Result, ok, err, ◌>>=◌, ◌>>◌, guard}
use chrome_chatgpt_data.Enums.{AttachmentState}
use chrome_chatgpt_data.Jobs.{Job, second}
use chrome_chatgpt_data.Policy.{Settings, PolicyCode, assert_attachment_capture_allowed}
use chrome_chatgpt_data.Exif.{Bytes}
use chrome_chatgpt_data.Archive.{Conversation, Message, Store}
use chrome_chatgpt_data.Ingest.{Externals, IngestContext, enqueue}
use chrome_chatgpt_data.Ingest.Conversations.{
  ConversationIn, get_or_create_conversation, take_conversation, is_conversation,
}
use chrome_chatgpt_data.Filenames.{Unicode}
use chrome_chatgpt_data.Storage.{
  Objects, StorageError, get_bytes, copy_object, head_object, presign_put, Stage,
}
use chrome_chatgpt_data.Worker.{Outcome}
use chrome_chatgpt_data.Attachments.{
  Attachment, Vault, Limits, AttachmentError, AttachmentInitIn, validate_attachment_metadata,
  has_attachment_id, is_stale_upload, mark_expired, expire_stale_pending, expired_before,
  is_pending_state,
}
use chrome_chatgpt_data.Attachments.Init.{
  PresignedUpload, is_settled, is_client_attachment, new_attachment, declare, record_metadata_only,
  await_upload, save_attachment, upload_key, reserve, drawn, init_row, attachment_conversation,
  init_checked, as_policy, init_attachment,
}
use chrome_chatgpt_data.Attachments.Bytes.{detect_mime_from_bytes}
use chrome_chatgpt_data.Attachments.Complete.{
  AttachmentCompleteIn, Completion, is_clean, mark_rejected, mark_quarantined, set_attachment,
  link_to, add_link, message_for, queue_finalize, check_head, complete_owned, complete_found,
  is_own_org, complete_attachment, upload_grace, is_foreign,
}
use chrome_chatgpt_data.Attachments.Finalize.{
  World, is_quarantined, fits_declared, reject, key_at, promoted, copy_clean, check_type,
  check_bytes, in_quarantine, finalize_at, finalize_found, finalize_by_id,
  handle_finalize_attachment,
}
use chrome_chatgpt_data.Attachments.Lifecycle.{
  IsSound, IsVault, Allowed, Change, same, moved, inserted, old_row, later,
}

-- The tables after a request: what it raises rolls them back.
abbrev pub applied : {X : Type 0} → Result AttachmentError (X × Vault) → Vault → Vault
applied (err e) v = v
applied (ok (x, v')) v = v'

pub member_count :
    (p q : Attachment → Bool) (rows : List Attachment) (b : Attachment)
    → find p rows ≡ some b
    → q b ≡ true
    → 1 ≤ count q rows
member_count p q [] b h t = cc
member_count p q (x ∷ rows) b h t = ground (arith, member_count p q rows b)

-- A row that some test finds is found by its identifier.
pub by_id :
    (p : Attachment → Bool) (rows : List Attachment) (b : Attachment)
    → count (has_attachment_id b.id) rows ≤ 1
    → find p rows ≡ some b
    → find (has_attachment_id b.id) rows ≡ some b
by_id p [] b one h = cc
by_id p (x ∷ rows) b one h =
    let here = ==_refl b.id in
    ground (arith, by_id p rows b, member_count p (has_attachment_id b.id) rows b)

-- A change of the one row `b`.
pub one_row :
    (p : Attachment → Bool) (f : Attachment → Attachment) (v : Vault) (b : Attachment)
    → IsVault v
    → find p v.attachments ≡ some b
    → Allowed b (f b)
    → All (λ x. has_attachment_id b.id x ≡ true → Allowed x (f x)) v.attachments
one_row p f v b h found ok_b =
    All-implies (λ x. has_attachment_id b.id x ≡ true → x ≡ b) _ v.attachments
      (λ x e t. subst (λ y. Allowed y (f y)) (sym (e t)) ok_b)
      (find_unique (has_attachment_id b.id) v.attachments b (h.unique_id b.id)
        (by_id p v.attachments b (h.unique_id b.id) found))

pub set_row :
    (p : Attachment → Bool) (f : Attachment → Attachment) (v : Vault) (b : Attachment)
    → IsVault v
    → find p v.attachments ≡ some b
    → Allowed b (f b)
    → Change v (set_attachment b.id f v)
set_row p f v b h found ok_b =
    moved (has_attachment_id b.id) f (one_row p f v b h found ok_b) refl (omega arith)

module _ (f : Attachment → Attachment) where
  -- A state that is neither clean nor quarantine asks for nothing.
  pub idle_Allowed :
      (b : Attachment)
      → is_clean b.state ≡ false
      → (f b).id ≡ b.id
      → is_clean (f b).state ≡ false
      → is_quarantined (f b).state ≡ false
      → Allowed b (f b)
  idle_Allowed b unclean same_id c q = (
    unclean,
    same_id,
    record {
      clean_key = λ t. cc;
      clean_digest = λ t. cc;
      clean_size = λ t. cc;
      clean_type = λ t. absurd (ground arith);
      quarantine_key = λ t. cc;
      quarantine_size = λ t. cc;
    },
    λ t. cc,
  )

pub expire_stale_pending-Change : (now : ℕ) (v : Vault) → Change v (expire_stale_pending now v).1
unfolding expire_stale_pending
expire_stale_pending-Change now v =
    moved (is_stale_upload now) (mark_expired "never uploaded before the presigned URL expired")
      (All-intro _
        (λ x t.
          idle_Allowed (mark_expired "never uploaded before the presigned URL expired") x
            (ground arith) refl refl refl)
        v.attachments)
      refl (omega arith)
