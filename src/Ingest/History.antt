-- ===== src/Ingest/History.antt =====
-- services/backend/app/services/ingest.py: the versions of the messages are only ever appended to.
use mathlib.Core.List.{map-append}
use chrome_chatgpt_data.Prelude.{
  ℕ, ◌==◌, String, Bool, ◌&&◌, Option, none, some, List, [], ◌∷◌, ◌++◌, map, ◌≡◌, refl, ap, ◌∙◌,
  Bool-cases, inl, inr, if◌then◌else◌, length,
}
use text.Mathlib.Text.{◌==◌ as str_eq}
use chrome_chatgpt_data.Prelude.Rows.{find, update}
use chrome_chatgpt_data.Prelude.Texts.{Text}
use chrome_chatgpt_data.Enums.{is_accepted, is_complete, is_partial}
use chrome_chatgpt_data.Contract.{MessageIn, ClientContext, ItemResult}
use chrome_chatgpt_data.Fingerprint.{content_hash, message_fingerprint}
use chrome_chatgpt_data.Archive.{Message, MessageVersion, ResultRef, Store}
use chrome_chatgpt_data.Ingest.{
  Externals, IngestContext, no_ref, claim_key, enqueue, record_capture_event,
  update_idempotency_result,
}
use chrome_chatgpt_data.Ingest.Conversations.{get_or_create_conversation, mark_snapshot_stale}
use chrome_chatgpt_data.Ingest.Messages.{
  is_content, find_message, resolve_branch, place_message, settle_existing, promote,
}
use chrome_chatgpt_data.Ingest.Versions.{
  append_version, write_version, settle_version, store_message, settle_message, message_fields,
  ingest_checked, ingest_message,
}
use chrome_chatgpt_data.Ingest.Frames.{
  get_or_create-frame, resolve_branch-frame, place_message-frame,
}

-- What identifies a version and what it says.
pub record Content : Type 0 where
  pub id : ℕ
  pub message_id : ℕ
  pub conversation_id : ℕ
  pub version_number : ℕ
  pub is_edit : Bool
  pub is_regeneration : Bool
  pub plain_text : Text
  pub sanitized_html : Option Text
  pub content_sha256 : String
  pub normalized_sha256 : String
  pub captured_at : ℕ

unfoldable pub content : MessageVersion → Content
content v = record {
  id = v.id;
  message_id = v.message_id;
  conversation_id = v.conversation_id;
  version_number = v.version_number;
  is_edit = v.is_edit;
  is_regeneration = v.is_regeneration;
  plain_text = v.plain_text;
  sanitized_html = v.sanitized_html;
  content_sha256 = v.content_sha256;
  normalized_sha256 = v.normalized_sha256;
  captured_at = v.captured_at;
}

-- The history of the new versions is that of the old ones with what is appended, one version if the
-- item is accepted and none otherwise.
abbrev pub Appends : ItemResult → List MessageVersion → List MessageVersion → Type 0
Appends r vs vs' =
    (extra : List Content) × (map content vs' ≡ map content vs ++ extra)
    × (length extra ≡ (if is_accepted r.status then 1 else 0))

pub content-update :
    (p : MessageVersion → Bool) (f : MessageVersion → MessageVersion) (vs : List MessageVersion)
    → ((v : MessageVersion) → content (f v) ≡ content v)
    → map content (update p f vs) ≡ map content vs
content-update p f [] same = refl
content-update p f (v ∷ vs) same = elim (Bool-cases (p v)) [
  | inl t ↦ rw t (rw (same v) (rw (content-update p f vs same) refl))
  | inr n ↦ rw n (rw (content-update p f vs same) refl)
]

pub append_nil : (cs : List Content) → cs ≡ cs ++ []
append_nil [] = refl
append_nil (c ∷ cs) = rw (← append_nil cs) refl

module _ (ext : Externals) (ctx : IngestContext) (p : MessageIn) where
  settle_existing-Appends :
      (now index conversation_id : ℕ) (m : Message) (v : MessageVersion) (st : Store)
      → let (r, st') = settle_existing ctx now index p conversation_id m v st in
        Appends r st.versions st'.versions
  unfolding settle_existing update_idempotency_result mark_snapshot_stale enqueue content
  settle_existing-Appends now index conversation_id m v st =
      elim (Bool-cases (is_partial v.completion_status && is_complete p.completion_status)) [
        | inl t ↦ rw t (
          [],
          content-update (λ w. w.id == v.id) (promote now) st.versions (λ w. refl)
              ∙ append_nil (map content st.versions),
          refl,
        )
        | inr f ↦ rw f ([], append_nil (map content st.versions), refl)
      ]

  append_version-Appends :
      (now index conversation_id : ℕ) (client : Option ClientContext) (hash : String) (m : Message)
      (st : Store)
      → let (r, st') = append_version ext ctx now index p client conversation_id hash m st in
        Appends r st.versions st'.versions
  unfolding append_version write_version update_idempotency_result mark_snapshot_stale enqueue
      record_capture_event content
  append_version-Appends now index conversation_id client hash m st =
      elim (Bool-cases (is_partial p.completion_status)) [
        | inl t ↦
            rw t
              (_, content-update _ _ (st.versions ++ _ ∷ []) (λ w. refl) ∙ map-append _ _ _, refl)
        | inr f ↦
            rw f
              (_, content-update _ _ (st.versions ++ _ ∷ []) (λ w. refl) ∙ map-append _ _ _, refl)
      ]

  store_message-Appends :
      (now index conversation_id : ℕ) (client : Option ClientContext) (fp hash : String)
      (st : Store)
      → let (r, st') = store_message ext ctx now index p client conversation_id fp hash st in
        Appends r st.versions st'.versions
  unfolding store_message
  store_message-Appends now index conversation_id client fp hash st =
      let found = find_message conversation_id p fp hash st.messages st.versions in
      let (u, bs, b) = resolve_branch-frame now conversation_id p st in
      let (branch, branched) = resolve_branch now conversation_id p st in
      let (w, ms, m) = place_message-frame ctx conversation_id p fp branch found branched in
      let (message, placed) = place_message ctx conversation_id p fp branch found branched in
      let kept : placed.versions ≡ st.versions = ap (λ s. s.versions) m ∙ ap (λ s. s.versions) b in
      let (extra, grown, one) =
        settled message (find (is_content message.id hash) placed.versions) placed in
      (extra, grown ∙ ap (λ vs. map content vs ++ extra) kept, one)
    where
      settled :
          (m : Message) (existing : Option MessageVersion) (s : Store)
          → let (r, st') =
              settle_version ext ctx now index p client conversation_id hash m existing s in
            Appends r s.versions st'.versions
      settled m none s = append_version-Appends now index conversation_id client hash m s
      settled m (some v) s = settle_existing-Appends now index conversation_id m v s

  claimed_versions :
      (now org : ℕ) (key : String) (ref : ResultRef) (st : Store)
      → (claim_key now org key ref st).1.versions ≡ st.versions
  unfolding claim_key
  claimed_versions now org key ref st = refl

  ingest_checked-Appends :
      (now index : ℕ) (client : Option ClientContext) (st : Store)
      → let (r, st') = ingest_checked ext ctx now index p client st in
        Appends r st.versions st'.versions
  unfolding ingest_checked
  ingest_checked-Appends now index client st =
      let (c, created, got) = get_or_create_conversation ext ctx now (message_fields p) st in
      let (u, cs, framed) = get_or_create-frame ext ctx now (message_fields p) st in
      let ref = record no_ref { conversation_id = some c.id } in
      let (replay, claimed) = claim_key now ctx.organization.id p.idempotency_key ref got in
      let kept : claimed.versions ≡ st.versions =
        claimed_versions now ctx.organization.id p.idempotency_key ref got
        ∙ ap (λ s. s.versions) framed in
      let (extra, grown, one) = settled c.id replay claimed in
      (extra, grown ∙ ap (λ vs. map content vs ++ extra) kept, one)
    where
      settled :
          (conversation_id : ℕ) (replay : Option ResultRef) (s : Store)
          → let (r, st') = settle_message ext ctx now index p client conversation_id replay s in
            Appends r s.versions st'.versions
      settled c (some ref) s = ([], append_nil (map content s.versions), refl)
      settled c none s =
          store_message-Appends now index c client
            (message_fingerprint ext.hashing c p.role p.text p.sequence_index p.source_created_at)
            (content_hash ext.hashing p.text) s

  -- Whatever the store and the message: after `ingest_message` the history of the versions is the old
  -- one, with the same identity, text and hashes in the same order, followed by one new version if the
  -- item is accepted and by none if it is a duplicate or rejected.
  pub ingest_message_appends :
      (now index : ℕ) (client : Option ClientContext) (st : Store)
      → let (r, st') = ingest_message ext ctx now index p client st in
        (extra : List Content) × (map content st'.versions ≡ map content st.versions ++ extra)
        × (length extra ≡ (if is_accepted r.status then 1 else 0))
  unfolding ingest_message
  ingest_message_appends now index client st =
      elim (Bool-cases (str_eq p.content_sha256 (ext.hashing.sha256_hex p.text))) [
        | inl t ↦ rw t (ingest_checked-Appends now index client st)
        | inr f ↦ rw f ([], append_nil (map content st.versions), refl)
      ]
