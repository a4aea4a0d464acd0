-- ===== src/Attachments/Changes/Verify.antt =====
-- handle_finalize_attachment of services/backend/app/workers/handlers.py: its change of the table.
use text.Mathlib.TextEquality.{eq_iff}
use text.Mathlib.Text.{◌==◌ as str_eq}
use chrome_chatgpt_data.Prelude.{
  ℕ, ◌≡◌, refl, ap, String, Bool, true, Option, none, some, ◌==◌, arith, Bool-cases, inl, inr,
  ==_iff, length,
}
use chrome_chatgpt_data.Prelude.Rows.{find}
use chrome_chatgpt_data.Prelude.Texts.{Text}
use chrome_chatgpt_data.Prelude.Results.{Result, ok, err}
use chrome_chatgpt_data.Enums.{AttachmentState}
use chrome_chatgpt_data.Jobs.{Job}
use chrome_chatgpt_data.Exif.{Bytes}
use chrome_chatgpt_data.Ingest.{Externals}
use chrome_chatgpt_data.Filenames.{Unicode}
use chrome_chatgpt_data.Storage.{Objects, StorageError, get_bytes}
use chrome_chatgpt_data.Attachments.{Attachment, Vault, Limits, has_attachment_id}
use chrome_chatgpt_data.Attachments.Bytes.{detect_mime_from_bytes}
use chrome_chatgpt_data.Attachments.Complete.{is_clean, set_attachment}
use chrome_chatgpt_data.Attachments.Finalize.{
  World, is_quarantined, fits_declared, reject, promote_row, mark_clean, promoted, copy_clean,
  check_type, check_bytes, in_quarantine, finalize_at, finalize_found, finalize_by_id,
  handle_finalize_attachment, as_id, entry,
}
use chrome_chatgpt_data.Attachments.Lifecycle.{IsVault, Allowed, Change, same, moved}
use chrome_chatgpt_data.Attachments.Changes.{set_row, one_row, idle_Allowed}

promote_row-Allowed :
    (ext : Externals) (now : ℕ) (clean_key : Text) (curated_key : Option Text) (stripped : Bool)
    (detected : String) (bytes : Bytes) (version : Option String) (a : Attachment)
    → is_quarantined a.state ≡ true
    → length bytes ≡ a.byte_size
    → ext.hashing.sha256_hex bytes ≡ a.sha256
    → fits_declared detected a.declared_mime_type ≡ true
    → Allowed a (
        promote_row now clean_key curated_key stripped detected
          (ext.hashing.sha256_hex bytes)
          (length bytes)
          version
          a)
unfolding promote_row
promote_row-Allowed ext now clean_key curated_key stripped detected bytes version a q size digest
      fits =
    (
      ground arith,
      refl,
      record {
        clean_key = λ t. refl;
        clean_digest = λ t. ap some digest;
        clean_size = λ t. ap some size;
        clean_type = λ t. (detected, refl, fits);
        quarantine_key = λ t. cc;
        quarantine_size = λ t. cc;
      },
      λ t. q,
    )

reject-Allowed :
    (now : ℕ) (reason : String) (a : Attachment)
    → is_quarantined a.state ≡ true
    → Allowed a (reject now reason a)
reject-Allowed now reason a q = idle_Allowed (reject now reason) a (ground arith) refl refl refl

module _ (ext : Externals) (u : Unicode) (world : World) (now : ℕ) (job : Job) (key : Text)
    (q : Attachment → Bool) (a : Attachment) (v : Vault) (h : IsVault v)
    (found : find q v.attachments ≡ some a) (held : is_quarantined a.state ≡ true) where
  rejected_Change : (reason : String) → Change v (set_attachment a.id (reject now reason) v)
  rejected_Change reason =
      set_row q (reject now reason) v a h found (reject-Allowed now reason a held)

  module _ (bytes : Bytes) (size : length bytes ≡ a.byte_size)
      (digest : ext.hashing.sha256_hex bytes ≡ a.sha256) where
    mark_clean-Change :
        (clean_key curated_key : Text) (stripped : Bool) (detected : String)
        (version : Option String) (objects : Objects) (r : Result StorageError Objects)
        → fits_declared detected a.declared_mime_type ≡ true
        → Change v
            (mark_clean now clean_key curated_key stripped detected
              (ext.hashing.sha256_hex bytes)
              (length bytes)
              version
              a.id
              r
              (record v { objects = objects })).1
    unfolding mark_clean
    mark_clean-Change clean_key curated_key stripped detected version objects (err e) fits =
        same refl (omega arith)
    mark_clean-Change clean_key curated_key stripped detected version objects (ok written) fits =
        moved (has_attachment_id a.id) _
          (one_row q _ v a h found
            (promote_row-Allowed ext now _ _ _ detected bytes version a held size digest fits))
          refl (omega arith)

    promoted-Change :
        (workspace_hash : String) (conversation : Text) (detected : String) (objects : Objects)
        (r : Result StorageError (Option String × Objects))
        → fits_declared detected a.declared_mime_type ≡ true
        → Change v
            (promoted ext u world now workspace_hash conversation bytes detected a r
              (record v { objects = objects })).1
    unfolding promoted
    promoted-Change workspace_hash conversation detected objects (err e) fits =
        same refl (omega arith)
    promoted-Change workspace_hash conversation detected objects (ok (version, copied)) fits =
        mark_clean-Change _ _ _ detected version copied _ fits

    check_type-Change :
        (detected : Option String)
        → Change v (check_type ext u world now job key bytes detected a v).1
    unfolding check_type copy_clean
    check_type-Change none = rejected_Change _
    check_type-Change (some detected) =
        elim (Bool-cases (fits_declared detected a.declared_mime_type)) [
          | inl t ↦ rw t (promoted-Change _ _ detected (world.meanwhile v.objects) _ t)
          | inr n ↦ rw n (rejected_Change _)
        ]

  check_bytes-Change :
      (r : Result StorageError Bytes) → Change v (check_bytes ext u world now job key r a v).1
  unfolding check_bytes
  check_bytes-Change (err e) = same refl (omega arith)
  check_bytes-Change (ok bytes) = elim (Bool-cases (length bytes == a.byte_size)) [
    | inr n ↦ rw n (rejected_Change _)
    | inl t ↦ rw t (elim (Bool-cases (str_eq (ext.hashing.sha256_hex bytes) a.sha256)) [
      | inr n ↦ rw n (rejected_Change _)
      | inl d ↦ rw d (
          check_type-Change bytes ((==_iff (length bytes) a.byte_size).0 t) ((eq_iff _ _).0 d)
            (detect_mime_from_bytes bytes a.declared_mime_type))
    ])
  ]

in_quarantine_state :
    (key : Option Text) (state : AttachmentState) (k : Text)
    → in_quarantine key state ≡ some k
    → is_quarantined state ≡ true
in_quarantine_state key state k e = ground arith

pub handle_finalize_attachment-Change :
    (ext : Externals) (u : Unicode) (limits : Limits) (world : World) (now : ℕ) (job : Job)
    (v : Vault)
    → IsVault v
    → Change v (handle_finalize_attachment ext u limits world now job v).1
unfolding handle_finalize_attachment finalize_by_id finalize_at
handle_finalize_attachment-Change ext u limits world now job v h =
    by_payload (as_id (entry "attachment_id" job.payload))
  where
    at_place :
        (i : ℕ) (a : Attachment)
        → find (has_attachment_id i) v.attachments ≡ some a
        → (key : Option Text) → in_quarantine a.quarantine_s3_key a.state ≡ key
        → Change v (finalize_at ext u limits world now job key a v).1
    at_place i a found none e = same refl (omega arith)
    at_place i a found (some key) e =
        check_bytes-Change ext u world now job key (has_attachment_id i) a v h found
          (in_quarantine_state a.quarantine_s3_key a.state key e)
          (get_bytes key limits.max_attachment_bytes v.objects)

    by_row :
        (i : ℕ) (row : Option Attachment)
        → find (has_attachment_id i) v.attachments ≡ row
        → Change v (finalize_found ext u limits world now job row v).1
    by_row i none e = same refl (omega arith)
    by_row i (some a) e = elim (Bool-cases (is_clean a.state)) [
      | inl t ↦ rw t (same refl (omega arith))
      | inr n ↦ rw n (at_place i a e (in_quarantine a.quarantine_s3_key a.state) refl)
    ]

    by_payload : (i : Option ℕ) → Change v (finalize_by_id ext u limits world now job i v).1
    by_payload none = same refl (omega arith)
    by_payload (some i) = by_row i (find (has_attachment_id i) v.attachments) refl
