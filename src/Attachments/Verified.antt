-- ===== src/Attachments/Verified.antt =====
-- handle_finalize_attachment of services/backend/app/workers/handlers.py: what decides that an attachment
-- becomes clean, and what its clean object holds.
use text.Mathlib.Text.{◌==◌ as str_eq}
use chrome_chatgpt_data.Prelude.{
  ℕ, ◌≡◌, ◌⊎◌, refl, String, Bool, true, false, not, ◌&&◌, ◌||◌, some, [], ◌∷◌, ◌==◌, arith, length,
  map_option,
}
use chrome_chatgpt_data.Prelude.Rows.{find}
use chrome_chatgpt_data.Prelude.Texts.{Text, codes}
use chrome_chatgpt_data.Prelude.Results.{is_ok}
use chrome_chatgpt_data.Enums.{AttachmentState}
use chrome_chatgpt_data.Jobs.{Job}
use chrome_chatgpt_data.Exif.{Bytes, bytes_eq, strip_metadata}
use chrome_chatgpt_data.Ingest.{Externals}
use chrome_chatgpt_data.Filenames.{Unicode}
use chrome_chatgpt_data.Storage.{StoredObject, Objects, get_object}
use chrome_chatgpt_data.Worker.{Outcome, raised}
use chrome_chatgpt_data.Attachments.{Attachment, Vault, has_attachment_id}
use chrome_chatgpt_data.Attachments.Bytes.{detect_mime_from_bytes}
use chrome_chatgpt_data.Attachments.Finalize.{World, fits_declared}

-- The bytes have the size and the digest of the declaration, and tell a type that fits it.
abbrev pub IsGenuine : Externals → Attachment → Bytes → Type 0
IsGenuine ext a bytes =
    (length bytes ≡ a.byte_size)
    × (ext.hashing.sha256_hex bytes ≡ a.sha256)
    × (mime : String) × (detect_mime_from_bytes bytes a.declared_mime_type ≡ some mime)
    × (fits_declared mime a.declared_mime_type ≡ true)

pub bytes_eq_refl : (t : Text) → bytes_eq t t ≡ true
bytes_eq_refl [] = refl
bytes_eq_refl (c ∷ cs) = ground (arith, bytes_eq_refl cs)

-- The row `i` is clean with the declared digest, and the object at its clean key holds `bytes`.
abbrev pub IsPromoted : ℕ → Attachment → Bytes → Vault → Type 0
IsPromoted i a bytes w =
    (r : Attachment) × (find (has_attachment_id i) w.attachments ≡ some r)
    × (r.state ≡ AttachmentState.clean)
    × (r.verified_sha256 ≡ some a.sha256)
    × (key : Text) × (r.clean_s3_key ≡ some key)
    × (map_option (λ (o : StoredObject). o.bytes) (get_object key w.objects) ≡ some bytes)

-- The row `i` is rejected, and no object was written.
abbrev pub IsRefused : ℕ → Objects → Vault → Type 0
IsRefused i objects w =
    (r : Attachment) × (find (has_attachment_id i) w.attachments ≡ some r)
    × (r.state ≡ AttachmentState.rejected)
    × (w.objects ≡ objects)

-- The store takes the copy, and the curated object where something is stripped from the bytes.
abbrev pub store_takes : World → Attachment → Bytes → Bool
store_takes world a bytes =
    is_ok world.copy_answer
    && (not (strip_metadata bytes (detect_mime_from_bytes bytes a.declared_mime_type)).1
        || is_ok world.curated_answer)

-- The job raises, and every row is as it was: the attachment stays in quarantine.
abbrev pub IsHalted : Vault → Outcome × Vault → Type 0
IsHalted v (outcome, w) =
    (e : Text) × (outcome ≡ raised (codes "UpstreamError") e)
    × (w.attachments ≡ v.attachments)
    × (w.archive ≡ v.archive)

-- The end of a promotion, as the store takes its writes.
abbrev pub IsSettled : World → ℕ → Attachment → Bytes → Bytes → Vault → Outcome × Vault → Type 0
IsSettled world i a bytes held v r =
    ((store_takes world a bytes ≡ true) × IsPromoted i a held r.1)
    ⊎ ((store_takes world a bytes ≡ false) × IsHalted v r)

module _ (ext : Externals) (u : Unicode) (world : World) (now : ℕ) (job : Job) (key : Text) (i : ℕ)
    (a : Attachment) (v : Vault) (found : find (has_attachment_id i) v.attachments ≡ some a) where
  module _ (bytes : Bytes) (o : StoredObject)
      (copied : get_object key (world.meanwhile v.objects) ≡ some o) where
    abbrev Verdict : Outcome × Vault → Type 0
    Verdict r =
        (IsGenuine ext a bytes × IsSettled world i a bytes o.bytes v r)
        ⊎ ((IsGenuine ext a bytes → ⊥) × IsRefused i v.objects r.1)
