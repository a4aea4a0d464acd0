-- ===== src/Attachments/Changes/Upload.antt =====
-- services/backend/app/services/attachments.py, `complete_attachment`: its change of the table.
use text.Mathlib.Text.{◌==◌ as str_eq}
use chrome_chatgpt_data.Prelude.{
  ℕ, ◌≤◌, ◌≡◌, refl, ap, String, Bool, true, false, not, ◌||◌, Option, none, some, ◌==◌, is_some,
  All, arith, Bool-cases, Option-cases, inl, inr, ==_iff,
}
use chrome_chatgpt_data.Prelude.Rows.{find}
use chrome_chatgpt_data.Prelude.Texts.{Text, truthy_text}
use chrome_chatgpt_data.Prelude.Results.{Result, ok, err}
use chrome_chatgpt_data.Archive.{Message}
use chrome_chatgpt_data.Ingest.{IngestContext, enqueue}
use chrome_chatgpt_data.Storage.{head_object}
use chrome_chatgpt_data.Attachments.{
  Attachment, Vault, AttachmentError, has_attachment_id, mark_expired, expired_before,
}
use chrome_chatgpt_data.Attachments.Complete.{
  AttachmentCompleteIn, is_clean, mark_rejected, mark_quarantined, set_attachment, link_to,
  add_link, message_for, queue_finalize, check_head, complete_owned, complete_found, is_own_org,
  complete_attachment, upload_grace, is_foreign,
}
use chrome_chatgpt_data.Attachments.Lifecycle.{IsVault, Allowed, Change, same, moved}
use chrome_chatgpt_data.Attachments.Changes.{applied, set_row, one_row, idle_Allowed}

link_to_keeps :
    (ctx : IngestContext) (a : Attachment) (m : Option Message) (v : Vault)
    → ((applied (link_to ctx a m v) v).attachments ≡ v.attachments)
      × (v.archive.uuids ≤ (applied (link_to ctx a m v) v).archive.uuids)
unfolding link_to
link_to_keeps ctx a none v = (refl, omega arith)
link_to_keeps ctx a (some m) v = elim (Bool-cases (m.organization_id == ctx.organization.id)) [
  | inl t ↦ rw t (unfold add_link in ground arith)
  | inr n ↦ rw n (refl, omega arith)
]

truthy_is_some : (o : Option Text) (key : Text) → truthy_text o ≡ some key → is_some o ≡ true
truthy_is_some none key e = ground arith
truthy_is_some (some t) key e = refl

quarantine_Allowed :
    (now size : ℕ) (version : Option String) (a : Attachment)
    → is_clean a.state ≡ false
    → is_some a.quarantine_s3_key ≡ true
    → size ≡ a.byte_size
    → Allowed a (mark_quarantined now size version a)
quarantine_Allowed now size version a unclean key e = (
  unclean,
  refl,
  record {
    clean_key = λ t. cc;
    clean_digest = λ t. cc;
    clean_size = λ t. cc;
    clean_type = λ t. absurd (ground arith);
    quarantine_key = λ t. key;
    quarantine_size = λ t. ap some e;
  },
  λ t. cc,
)

module _ (v : Vault) (p : Attachment → Bool) (f : Attachment → Attachment) (i : ℕ)
    (ok_f : All (λ x. has_attachment_id i x ≡ true → Allowed x (f x)) v.attachments) where
  queue_finalize-Change :
      (ctx : IngestContext) (now : ℕ) (a : Attachment) (r : Result AttachmentError (Bool × Vault))
      → ((applied r (set_attachment i f v)).attachments ≡ (set_attachment i f v).attachments)
        × (v.archive.uuids ≤ (applied r (set_attachment i f v)).archive.uuids)
      → Change v (applied (queue_finalize ctx now a r) v)
  unfolding queue_finalize enqueue
  queue_finalize-Change ctx now a (err e) kept = same refl (omega arith)
  queue_finalize-Change ctx now a (ok (linked, w)) kept =
      moved (has_attachment_id i) f ok_f kept.0 (omega (arith, kept.1))

check_head-Change :
    (ctx : IngestContext) (now : ℕ) (p : AttachmentCompleteIn) (q : Attachment → Bool)
    (a : Attachment) (head : Option (ℕ × Option String)) (v : Vault)
    → IsVault v
    → find q v.attachments ≡ some a
    → is_clean a.state ≡ false
    → is_some a.quarantine_s3_key ≡ true
    → Change v (applied (check_head ctx now p a head v) v)
unfolding check_head
check_head-Change ctx now p q a none v h found unclean key = same refl (omega arith)
check_head-Change ctx now p q a (some (size, version)) v h found unclean key =
    elim (Bool-cases (size == a.byte_size)) [
      | inl t ↦
          let f = mark_quarantined now size version in
          let ok_a =
            quarantine_Allowed now size version a unclean key ((==_iff size a.byte_size).0 t) in
          rw t (
            queue_finalize-Change v q f a.id (one_row q f v a h found ok_a) ctx now a
              (link_to ctx a
                (message_for a p.source_message_id (set_attachment a.id f v).archive.messages)
                (set_attachment a.id f v))
              (link_to_keeps ctx a _ (set_attachment a.id f v)))
      | inr n ↦
          let f = mark_rejected "stored object size does not match declared size" in
          rw n (set_row q f v a h found (idle_Allowed f a unclean refl refl refl))
    ]

complete_owned-Change :
    (ctx : IngestContext) (now : ℕ) (p : AttachmentCompleteIn) (q : Attachment → Bool)
    (a : Attachment) (v : Vault)
    → IsVault v
    → find q v.attachments ≡ some a
    → Change v (applied (complete_owned ctx now p a v) v)
unfolding complete_owned
complete_owned-Change ctx now p q a v h found = elim (Bool-cases (is_clean a.state)) [
  | inl t ↦ rw t (same refl (omega arith))
  | inr n ↦
      rw n (elim (Bool-cases (not (str_eq a.sha256 p.sha256) || not (a.byte_size == p.byte_size))) [
        | inl t ↦
            let f = mark_rejected "declared checksum or size changed after init" in
            rw t (set_row q f v a h found (idle_Allowed f a n refl refl refl))
        | inr m ↦ rw m (elim (Bool-cases (expired_before a.presign_expires_at now upload_grace)) [
          | inl t ↦
              let f = mark_expired "upload window expired" in
              rw t (set_row q f v a h found (idle_Allowed f a n refl refl refl))
          | inr l ↦ rw l (elim (Option-cases (truthy_text a.quarantine_s3_key)) [
            | inl e ↦ rw e (same refl (omega arith))
            | inr (key, e) ↦ rw e (
                check_head-Change ctx now p q a (head_object key v.objects) v h found n
                  (truthy_is_some a.quarantine_s3_key key e))
          ])
        ])
      ])
]

pub complete_attachment-Change :
    (ctx : IngestContext) (now : ℕ) (p : AttachmentCompleteIn) (v : Vault)
    → IsVault v
    → Change v (applied (complete_attachment ctx now p v) v)
unfolding complete_attachment
complete_attachment-Change ctx now p v h =
    go (find (is_own_org p.attachment_id ctx.organization.id) v.attachments) refl
  where
    go :
        (row : Option Attachment)
        → find (is_own_org p.attachment_id ctx.organization.id) v.attachments ≡ row
        → Change v (applied (complete_found ctx now p row v) v)
    go none e = same refl (omega arith)
    go (some a) e = elim (Bool-cases (is_foreign a.user_id ctx.user.id)) [
      | inl t ↦ rw t (same refl (omega arith))
      | inr n ↦
          rw n (
            complete_owned-Change ctx now p (is_own_org p.attachment_id ctx.organization.id) a v h
              e)
    ]
