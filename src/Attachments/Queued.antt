-- ===== src/Attachments/Queued.antt =====
-- services/backend/app/services/attachments.py, `complete_attachment`: its answer, and the job that the
-- answer promises.
use text.Mathlib.Text.{◌==◌ as str_eq}
use text.Mathlib.TextEquality.{eq_iff}
use chrome_chatgpt_data.Prelude.{
  ℕ, ◌≡◌, ◌⊎◌, refl, String, Bool, true, false, not, ◌||◌, Option, none, some, ◌==◌, arith,
  Bool-cases, inl, inr,
}
use chrome_chatgpt_data.Prelude.Rows.{find}
use chrome_chatgpt_data.Prelude.Texts.{Text, truthy_text}
use chrome_chatgpt_data.Prelude.Results.{Result, ok, err}
use chrome_chatgpt_data.Jobs.{finalize_key}
use chrome_chatgpt_data.Jobs.Enqueued.{IsQueued, enqueue_job-IsQueued}
use chrome_chatgpt_data.Ingest.{IngestContext, enqueue}
use chrome_chatgpt_data.Storage.{head_object}
use chrome_chatgpt_data.Attachments.{Attachment, Vault, AttachmentError, expired_before}
use chrome_chatgpt_data.Attachments.Complete.{
  AttachmentCompleteIn, Completion, CompletionReason, is_clean, finalize_job, queue_finalize,
  check_head, complete_owned, complete_found, is_own_org, complete_attachment, upload_grace,
  is_foreign, answer, at_key,
}

-- The row that was asked for: of the organization, and not another employee's.
abbrev pub IsAsked : IngestContext → AttachmentCompleteIn → Vault → Attachment → Type 0
IsAsked ctx p v a =
    (find (is_own_org p.attachment_id ctx.organization.id) v.attachments ≡ some a)
    × (is_foreign a.user_id ctx.user.id ≡ false)

-- What an answer says: verified, the row was clean already and nothing is changed, or its declaration is
-- the one of the request and a finalization of it is queued; not verified, no job is queued.
abbrev pub Answered :
    IngestContext
    → AttachmentCompleteIn
    → Vault
    → Result AttachmentError (Completion × Vault)
    → Type 0
Answered ctx p v (err e) = Unit {0}
Answered ctx p v (ok (c, w)) =
    (a : Attachment) × IsAsked ctx p v a
    × (c.attachment_id ≡ a.id)
    × (c.verified ≡ true
        → ((is_clean a.state ≡ true) × (w ≡ v))
          ⊎ ((a.sha256 ≡ p.sha256)
              × (a.byte_size ≡ p.byte_size)
              × IsQueued (finalize_key a.id) w.archive.jobs))
    × (c.verified ≡ false → w.archive ≡ v.archive)

module _ (ctx : IngestContext) (now : ℕ) (p : AttachmentCompleteIn) (v : Vault) (a : Attachment)
    (asked : IsAsked ctx p v a) where
  refusal :
      (reason : CompletionReason) (w : Vault)
      → w.archive ≡ v.archive
      → Answered ctx p v (answer a false (some reason) w)
  refusal reason w e = (a, asked, refl, (λ t. cc), λ f. e)

  module _ (declared : a.sha256 ≡ p.sha256) (size : a.byte_size ≡ p.byte_size) where
    queue_finalize-Answered :
        (r : Result AttachmentError (Bool × Vault)) → Answered ctx p v (queue_finalize ctx now a r)
    unfolding queue_finalize enqueue
    queue_finalize-Answered (err e) = tt
    queue_finalize-Answered (ok (linked, w)) = (
      a,
      asked,
      refl,
      (λ t. inr (
        declared,
        size,
        enqueue_job-IsQueued now w.archive.uuids (finalize_job ctx a) (finalize_key a.id)
            w.archive.jobs refl,
      )),
      λ f. cc,
    )

    check_head-Answered :
        (head : Option (ℕ × Option String)) → Answered ctx p v (check_head ctx now p a head v)
    unfolding check_head
    check_head-Answered none = refusal CompletionReason.object_missing v refl
    check_head-Answered (some (stored, version)) = elim (Bool-cases (stored == a.byte_size)) [
      | inl t ↦ rw t (queue_finalize-Answered _)
      | inr n ↦ rw n (refusal CompletionReason.size_mismatch _ refl)
    ]

    at_key-Answered :
        (key : Option Text)
        → Answered ctx p v (
            at_key key
              (λ k. check_head ctx now p a (head_object k v.objects) v)
              (answer a false (some CompletionReason.no_upload_key) v))
    at_key-Answered none = refusal CompletionReason.no_upload_key v refl
    at_key-Answered (some k) = check_head-Answered (head_object k v.objects)

  complete_owned-Answered : Answered ctx p v (complete_owned ctx now p a v)
  unfolding complete_owned
  complete_owned-Answered = elim (Bool-cases (is_clean a.state)) [
    | inl t ↦ rw t (a, asked, refl, (λ _. inl (t, refl)), λ _. refl)
    | inr n ↦
        rw n
          (elim (Bool-cases (not (str_eq a.sha256 p.sha256) || not (a.byte_size == p.byte_size))) [
            | inl t ↦ rw t (refusal CompletionReason.checksum_or_size_mismatch _ refl)
            | inr m ↦
                rw m (elim (Bool-cases (expired_before a.presign_expires_at now upload_grace)) [
                  | inl t ↦ rw t (refusal CompletionReason.upload_expired _ refl)
                  | inr l ↦ rw l (
                      at_key-Answered (ground (arith, eq_iff a.sha256 p.sha256)) (ground arith)
                        (truthy_text a.quarantine_s3_key))
                ])
          ])
  ]

-- Where the end of an upload is answered, the attachment is one of the organization and not another
-- employee's. If the answer is "verified", the row was clean before and nothing is changed, or the
-- request repeats the declared digest and size and a job that finalizes the attachment is live, in the
-- same transaction; if it is not, no job, message or other row of the archive is touched.
pub complete_attachment_answers :
    (ctx : IngestContext) (now : ℕ) (p : AttachmentCompleteIn) (v : Vault)
    → Answered ctx p v (complete_attachment ctx now p v)
unfolding complete_attachment
complete_attachment_answers ctx now p v =
    go (find (is_own_org p.attachment_id ctx.organization.id) v.attachments) refl
  where
    go :
        (row : Option Attachment)
        → find (is_own_org p.attachment_id ctx.organization.id) v.attachments ≡ row
        → Answered ctx p v (complete_found ctx now p row v)
    go none e = tt
    go (some a) e = elim (Bool-cases (is_foreign a.user_id ctx.user.id)) [
      | inl t ↦ rw t tt
      | inr n ↦ rw n (complete_owned-Answered ctx now p v a (e, n))
    ]
