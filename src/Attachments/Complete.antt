-- ===== src/Attachments/Complete.antt =====
-- services/backend/app/services/attachments.py, `complete_attachment` and `_link_attachment`: the end of
-- an upload.
use text.Mathlib.Text.{◌==◌ as str_eq}
use chrome_chatgpt_data.Prelude.{
  ℕ, ◌+◌, ◌*◌, String, Bool, true, false, not, ◌&&◌, ◌||◌, Option, none, some, List, [], ◌∷◌, ◌++◌,
  ltb, ◌==◌, if◌then◌else◌,
}
use chrome_chatgpt_data.Prelude.Rows.{find, any, update, select}
use chrome_chatgpt_data.Prelude.Texts.{Text, holds_str, truthy, truthy_text}
use chrome_chatgpt_data.Prelude.Results.{Result, ok, err}
use chrome_chatgpt_data.Enums.{AttachmentState, is_user, finalize_attachment}
use chrome_chatgpt_data.Jobs.{JobIn, id_text, plain_text, finalize_key, second}
use chrome_chatgpt_data.Archive.{Message}
use chrome_chatgpt_data.Ingest.{IngestContext, enqueue}
use chrome_chatgpt_data.Storage.{head_object}
use chrome_chatgpt_data.Attachments.{
  Attachment, MessageAttachment, Vault, AttachmentError, attachment_not_found,
  attachment_owner_mismatch, linkage_denied, has_attachment_id, mark_expired, expired_before,
}

-- `AttachmentCompleteIn`
pub record AttachmentCompleteIn : Type 0 where
  pub attachment_id : ℕ
  pub sha256 : String
  pub byte_size : ℕ
  pub source_message_id : Option String

-- What `complete_attachment` answers with.
pub data CompletionReason : Type 0 where
  already_clean checksum_or_size_mismatch upload_expired no_upload_key object_missing :
      CompletionReason
  size_mismatch not_linked_yet : CompletionReason

pub record Completion : Type 0 where
  pub attachment_id : ℕ
  pub verified : Bool
  pub reason : Option CompletionReason

-- The last message of the list in the order of `sequence_index`.
abbrev pub later_message : Message → Option Message → Option Message
later_message m none = some m
later_message m (some n) = if ltb m.sequence_index n.sequence_index then some n else some m

pub last_by_sequence : List Message → Option Message
last_by_sequence [] = none
last_by_sequence (m ∷ ms) = later_message m (last_by_sequence ms)

abbrev pub is_source : ℕ → String → Message → Bool
is_source conversation_id source m =
    m.conversation_id == conversation_id && holds_str m.source_message_id source

abbrev pub by_source : ℕ → Option String → List Message → Option Message
by_source conversation_id none ms = none
by_source conversation_id (some source) ms = find (is_source conversation_id source) ms

abbrev pub first_of {ℓ} : {A : Type ℓ} → Option A → Option A → Option A
first_of none other = other
first_of (some a) other = some a

-- The message that the attachment belongs to: the one named, else the last of the user.
unfoldable pub message_for : Attachment → Option String → List Message → Option Message
unfolding last_by_sequence
message_for a source ms =
    first_of (by_source a.conversation_id (truthy source) ms)
      (last_by_sequence (select (λ m. m.conversation_id == a.conversation_id && is_user m.role) ms))

abbrev pub is_link : ℕ → ℕ → MessageAttachment → Bool
is_link attachment_id message_id l = l.attachment_id == attachment_id && l.message_id == message_id

abbrev pub new_link : ℕ → Attachment → Message → MessageAttachment
new_link uuid a m = record {
  id = uuid;
  attachment_id = a.id;
  message_id = m.id;
  message_version_id = m.current_version_id;
  conversation_id = a.conversation_id;
  position = 0;
  relation = "uploaded_by_user";
}

-- The message gets its mark, and the link is inserted unless it is there.
unfoldable pub add_link : Attachment → Message → Vault → Vault
add_link a m v =
    let marked =
      update (λ r. r.id == m.id) (λ r. record r { has_attachments = true }) v.archive.messages in
    if any (is_link a.id m.id) v.links
    then record v { archive = record v.archive { messages = marked } }
    else record v {
      archive = record v.archive { messages = marked; uuids = v.archive.uuids + 1 };
      links = v.links ++ new_link v.archive.uuids a m ∷ [];
    }

-- `_link_attachment`: whether a message was found.
unfoldable pub link_to :
    IngestContext → Attachment → Option Message → Vault → Result AttachmentError (Bool × Vault)
unfolding add_link
link_to ctx a none v = ok (false, v)
link_to ctx a (some m) v =
    if m.organization_id == ctx.organization.id
    then ok (true, add_link a m v)
    else err linkage_denied

abbrev pub is_clean : AttachmentState → Bool
is_clean AttachmentState.clean = true
is_clean _ = false

abbrev pub mark_rejected : String → Attachment → Attachment
mark_rejected reason a = record a {
  state = AttachmentState.rejected;
  rejection_reason = some reason;
}

abbrev pub mark_quarantined : ℕ → ℕ → Option String → Attachment → Attachment
mark_quarantined now size version a = record a {
  state = AttachmentState.quarantine;
  uploaded_at = some now;
  verified_byte_size = some size;
  s3_version_id = version;
}

abbrev pub set_attachment : ℕ → (Attachment → Attachment) → Vault → Vault
set_attachment i f v = record v { attachments = update (has_attachment_id i) f v.attachments }

abbrev pub finalize_job : IngestContext → Attachment → JobIn
finalize_job ctx a = record {
  kind = finalize_attachment;
  payload =
      ("attachment_id", id_text a.id) ∷ ("workspace_hash", plain_text ctx.workspace_hash) ∷ [];
  organization_id = some ctx.organization.id;
  dedupe_key = some (finalize_key a.id);
  priority = 150;
  run_after = none;
  max_attempts = 8;
}

abbrev pub answer :
    Attachment
    → Bool
    → Option CompletionReason
    → Vault
    → Result AttachmentError (Completion × Vault)
answer a verified reason v =
    ok (record { attachment_id = a.id; verified = verified; reason = reason }, v)

-- The finalization is queued once the link is made.
unfoldable pub queue_finalize :
    IngestContext
    → ℕ
    → Attachment
    → Result AttachmentError (Bool × Vault)
    → Result AttachmentError (Completion × Vault)
queue_finalize ctx now a (err e) = err e
queue_finalize ctx now a (ok (linked, v)) =
    answer a true (if linked then none else some not_linked_yet)
      (record v { archive = enqueue now (finalize_job ctx a) v.archive })

-- The object that was found at the key has the size of the declaration, or not.
unfoldable pub check_head :
    IngestContext
    → ℕ
    → AttachmentCompleteIn
    → Attachment
    → Option (ℕ × Option String)
    → Vault
    → Result AttachmentError (Completion × Vault)
unfolding queue_finalize message_for link_to
check_head ctx now p a none v = answer a false (some object_missing) v
check_head ctx now p a (some (size, version)) v =
    if size == a.byte_size
    then (let v' = set_attachment a.id (mark_quarantined now size version) v in
        queue_finalize ctx now a
          (link_to ctx a (message_for a p.source_message_id v'.archive.messages) v'))
    else answer a false (some size_mismatch)
        (set_attachment a.id (mark_rejected "stored object size does not match declared size") v)

-- `timedelta(minutes=15)`
abbrev pub upload_grace : ℕ
upload_grace = 15 * 60 * second

abbrev pub at_key :
    Option Text
    → (Text → Result AttachmentError (Completion × Vault))
    → Result AttachmentError (Completion × Vault)
    → Result AttachmentError (Completion × Vault)
at_key none f other = other
at_key (some key) f other = f key

-- `complete_attachment` for the employee's own row.
unfoldable pub complete_owned :
    IngestContext
    → ℕ
    → AttachmentCompleteIn
    → Attachment
    → Vault
    → Result AttachmentError (Completion × Vault)
unfolding check_head
complete_owned ctx now p a v =
    if is_clean a.state
    then answer a true (some already_clean) v
    else if not (str_eq a.sha256 p.sha256) || not (a.byte_size == p.byte_size)
    then answer a false (some checksum_or_size_mismatch)
        (set_attachment a.id (mark_rejected "declared checksum or size changed after init") v)
    else if expired_before a.presign_expires_at now upload_grace
    then answer a false (some upload_expired)
        (set_attachment a.id (mark_expired "upload window expired") v)
    else at_key (truthy_text a.quarantine_s3_key)
        (λ key. check_head ctx now p a (head_object key v.objects) v)
        (answer a false (some no_upload_key) v)

-- `attachment.user_id is not None and attachment.user_id != ctx.user.id`
abbrev pub is_foreign : Option ℕ → ℕ → Bool
is_foreign none user = false
is_foreign (some owner) user = not (owner == user)

unfoldable pub complete_found :
    IngestContext
    → ℕ
    → AttachmentCompleteIn
    → Option Attachment
    → Vault
    → Result AttachmentError (Completion × Vault)
unfolding complete_owned
complete_found ctx now p none v = err attachment_not_found
complete_found ctx now p (some a) v =
    if is_foreign a.user_id ctx.user.id
    then err attachment_owner_mismatch
    else complete_owned ctx now p a v

abbrev pub is_own_org : ℕ → ℕ → Attachment → Bool
is_own_org i org a = a.id == i && a.organization_id == org

unfoldable pub complete_attachment :
    IngestContext → ℕ → AttachmentCompleteIn → Vault → Result AttachmentError (Completion × Vault)
unfolding complete_found
complete_attachment ctx now p v =
    complete_found ctx now p (find (is_own_org p.attachment_id ctx.organization.id) v.attachments) v
