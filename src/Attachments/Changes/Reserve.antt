-- ===== src/Attachments/Changes/Reserve.antt =====
-- services/backend/app/services/attachments.py, `init_attachment`: its change of the table.
use chrome_chatgpt_data.Prelude.{
  ℕ, ◌≤◌, ◌<◌, ◌≡◌, refl, ap, ◌∙◌, Bool, false, Option, none, some, List, [], ◌∷◌, ◌++◌, All, arith,
  Bool-cases, inl, inr,
}
use chrome_chatgpt_data.Prelude.Rows.{find, any, update, any_of_find}
use chrome_chatgpt_data.Prelude.Texts.{Text}
use chrome_chatgpt_data.Prelude.Results.{Result, ok, err, ◌>>=◌, ◌>>◌}
use chrome_chatgpt_data.Policy.{Settings, assert_attachment_capture_allowed}
use chrome_chatgpt_data.Archive.{Conversation, Store}
use chrome_chatgpt_data.Ingest.{Externals, IngestContext}
use chrome_chatgpt_data.Ingest.Conversations.{
  ConversationIn, get_or_create_conversation, take_conversation, is_conversation,
}
use chrome_chatgpt_data.Filenames.{Unicode}
use chrome_chatgpt_data.Storage.{presign_put}
use chrome_chatgpt_data.Attachments.{
  Attachment, Vault, Limits, AttachmentError, AttachmentInitIn, validate_attachment_metadata,
  has_attachment_id,
}
use chrome_chatgpt_data.Attachments.Init.{
  is_settled, is_client_attachment, new_attachment, declare, record_metadata_only, await_upload,
  save_attachment, upload_key, reserve, drawn, init_row, attachment_conversation, init_checked,
  as_policy, init_attachment,
}
use chrome_chatgpt_data.Attachments.Complete.{is_clean}
use chrome_chatgpt_data.Attachments.Finalize.{is_quarantined}
use chrome_chatgpt_data.Attachments.Lifecycle.{
  IsSound, IsVault, Allowed, Change, same, moved, inserted,
}
use chrome_chatgpt_data.Attachments.Changes.{applied, by_id, one_row}

get_or_create_later :
    (ext : Externals) (ctx : IngestContext) (now : ℕ) (w : ConversationIn) (st : Store)
    → st.uuids ≤ (get_or_create_conversation ext ctx now w st).2.uuids
unfolding get_or_create_conversation
get_or_create_later ext ctx now w st =
    go (find (is_conversation ctx w.source_conversation_id) st.conversations)
  where
    go : (c : Option Conversation) → st.uuids ≤ (take_conversation ext ctx now w c st).2.uuids
    go none = omega arith
    go (some c) = omega arith

-- What is neither clean nor in quarantine is sound.
idle_IsSound :
    (a : Attachment) → is_clean a.state ≡ false → is_quarantined a.state ≡ false → IsSound a
idle_IsSound a c q = record {
  clean_key = λ t. cc;
  clean_digest = λ t. cc;
  clean_size = λ t. cc;
  clean_type = λ t. absurd (ground arith);
  quarantine_key = λ t. cc;
  quarantine_size = λ t. cc;
}

-- The row that `reserve` saves.
abbrev Reserved : Attachment → Vault → Vault → Type 0
Reserved a v w =
    (x : Attachment) × (w ≡ record v { attachments = save_attachment x v.attachments })
    × (x.id ≡ a.id)
    × (is_clean x.state ≡ false)
    × (is_quarantined x.state ≡ false)

reserve-Reserved :
    (ext : Externals) (u : Unicode) (ctx : IngestContext) (limits : Limits) (now : ℕ)
    (c : Conversation) (p : AttachmentInitIn) (a : Attachment) (v : Vault)
    → Reserved a v (reserve ext u ctx limits now c p a v).1
unfolding reserve
reserve-Reserved ext u ctx limits now c p a v = elim (Bool-cases p.is_metadata_only) [
  | inl t ↦ rw t (record_metadata_only p a, refl, refl, refl, refl)
  | inr n ↦ rw n (
    await_upload now
        (presign_put now limits.presigned_upload_ttl (upload_key ext u ctx c a) p.mime_type
          p.byte_size (some p.sha256))
        a,
    refl,
    refl,
    refl,
    refl,
  )
]

saved_old :
    (q : Attachment → Bool) (v : Vault) (b x : Attachment)
    → IsVault v
    → find q v.attachments ≡ some b
    → x.id ≡ b.id
    → save_attachment x v.attachments ≡ update (has_attachment_id b.id) (λ r. x) v.attachments
unfolding save_attachment
saved_old q v b x h found e = rw e (
    rw
      (any_of_find (has_attachment_id b.id) v.attachments b
        (by_id q v.attachments b (h.unique_id b.id) found))
      refl)

none_older :
    (uuid i : ℕ) (rows : List Attachment)
    → All (λ a. a.id < uuid) rows
    → uuid ≤ i
    → any (has_attachment_id i) rows ≡ false
none_older uuid i [] h le = refl
none_older uuid i (a ∷ rows) h le = ground (arith, none_older uuid i rows h.1 le)

saved_new :
    (v : Vault) (x : Attachment)
    → IsVault v
    → v.archive.uuids ≤ x.id
    → save_attachment x v.attachments ≡ v.attachments ++ x ∷ []
unfolding save_attachment
saved_new v x h le = rw (none_older v.archive.uuids x.id v.attachments h.fresh le) refl

init_row-Change :
    (ext : Externals) (u : Unicode) (ctx : IngestContext) (limits : Limits) (now : ℕ)
    (c : Conversation) (p : AttachmentInitIn) (safe : Text) (q : Attachment → Bool)
    (row : Option Attachment) (st : Store) (v : Vault)
    → IsVault v
    → v.archive.uuids ≤ st.uuids
    → find q v.attachments ≡ row
    → Change v (init_row ext u ctx limits now c p safe row (record v { archive = st })).1
unfolding init_row
init_row-Change ext u ctx limits now c p safe q none st v h le found =
    let a = declare u p safe (new_attachment ctx st.uuids c.id p) in
    let (x, e, same_id, unclean, free) =
      reserve-Reserved ext u ctx limits now c p a (record v { archive = drawn st }) in
    let id_x : x.id ≡ st.uuids = same_id ∙ unfold declare new_attachment in refl in
    inserted x (rw id_x le) (rw id_x (rw (ap (λ (w : Vault). w.archive.uuids) e) (omega arith)))
      (idle_IsSound x unclean free) unclean
      (ap (λ (w : Vault). w.attachments) e ∙ saved_new v x h (rw id_x le))
init_row-Change ext u ctx limits now c p safe q (some b) st v h le found =
    elim (Bool-cases (is_settled b.state)) [
      | inl t ↦ rw t (same refl le)
      | inr n ↦
          let a = declare u p safe b in
          let (x, e, same_id, unclean, free) =
            reserve-Reserved ext u ctx limits now c p a (record v { archive = st }) in
          let id_x : x.id ≡ b.id = same_id ∙ unfold declare in refl in
          let ok_b : Allowed b x = (ground arith, id_x, idle_IsSound x unclean free, λ t. cc) in
          rw n (
            moved (has_attachment_id b.id) (λ r. x) (one_row q (λ r. x) v b h found ok_b)
              (ap (λ (w : Vault). w.attachments) e ∙ saved_old q v b x h found id_x)
              (rw (ap (λ (w : Vault). w.archive.uuids) e) le))
    ]

pub init_attachment-Change :
    (ext : Externals) (u : Unicode) (ctx : IngestContext) (settings : Settings) (limits : Limits)
    (now : ℕ) (p : AttachmentInitIn) (v : Vault)
    → IsVault v
    → Change v (applied (init_attachment ext u ctx settings limits now p v) v)
unfolding init_attachment init_checked
init_attachment-Change ext u ctx settings limits now p v h =
    go (as_policy (assert_attachment_capture_allowed settings))
      (validate_attachment_metadata u limits p)
  where
    go :
        (gate : Result AttachmentError (Unit {0})) (name : Result AttachmentError Text)
        → Change v
            (applied (gate >> (name >>= λ safe. ok (init_checked ext u ctx limits now p safe v))) v)
    go (err e) name = same refl (omega arith)
    go (ok _) (err e) = same refl (omega arith)
    go (ok _) (ok safe) =
        let w = attachment_conversation p in
        let r = get_or_create_conversation ext ctx now w v.archive in
        init_row-Change ext u ctx limits now r.0 p safe
          (is_client_attachment r.0.id p.client_attachment_id)
          (find (is_client_attachment r.0.id p.client_attachment_id) v.attachments) r.2 v h
          (get_or_create_later ext ctx now w v.archive) refl
