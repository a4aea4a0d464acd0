-- ===== src/Ingest/Versions.antt =====
-- services/backend/app/services/ingest.py, `ingest_message`: a new version, and the whole of an item.
use text.Mathlib.Text.{◌==◌ as str_eq}
use chrome_chatgpt_data.Prelude.{
  ℕ, ◌+◌, ◌/◌, max, String, true, false, ◌&&◌, ◌||◌, Option, none, some, List, [], ◌∷◌, ◌++◌, ltb,
  ◌==◌, if◌then◌else◌, length, take, map_option,
}
use chrome_chatgpt_data.Prelude.Rows.{find, update}
use chrome_chatgpt_data.Prelude.Texts.{Text, truthy_text}
use chrome_chatgpt_data.Enums.{
  CompletionStatus, live_only, IngestStatus, message_version, reconcile_partial, is_complete,
  is_partial, is_user, is_assistant,
}
use chrome_chatgpt_data.Jobs.{JobIn, id_text, reconcile_key}
use chrome_chatgpt_data.Sanitize.{clean_plain_text, default_max_length}
use chrome_chatgpt_data.Fingerprint.{content_hash, message_fingerprint}
use chrome_chatgpt_data.Contract.{MessageIn, MessagePartIn, ClientContext, ItemResult, of_message}
use chrome_chatgpt_data.Archive.{
  Conversation, Message, MessageVersion, MessagePart, ResultRef, Store,
}
use chrome_chatgpt_data.Ingest.{
  Externals, IngestContext, no_ref, claim_key, update_idempotency_result, enqueue, EventIn,
  record_capture_event,
}
use chrome_chatgpt_data.Ingest.Conversations.{
  ConversationIn, get_or_create_conversation, mark_snapshot_stale,
}
use chrome_chatgpt_data.Ingest.Messages.{
  chars_per_token, is_content, find_message, resolve_branch, place_message, set_version,
  item_result, message_ref, settle_existing,
}

-- `sanitize_html(html)` with its default limit: no text for an empty input or an empty result.
unfoldable pub sanitize_html : Externals → Option Text → Option Text
sanitize_html ext none = none
sanitize_html ext (some []) = none
sanitize_html ext (some (c ∷ cs)) =
    truthy_text (some (ext.scriptish_free (ext.clean_html (take 2_000_000 (c ∷ cs)))))

unfoldable pub new_version :
    Externals → IngestContext → ℕ → ℕ → ℕ → MessageIn → String → Message → MessageVersion
unfolding sanitize_html
new_version ext ctx now uuid conversation_id p hash m =
    let number = m.version_count + 1 in
    record {
      id = uuid;
      message_id = m.id;
      conversation_id = conversation_id;
      organization_id = ctx.organization.id;
      version_number = number;
      is_edit = p.is_edit || ltb 1 number && is_user p.role;
      is_regeneration = p.is_regeneration || ltb 1 number && is_assistant p.role;
      completion_status = p.completion_status;
      plain_text = clean_plain_text default_max_length p.text;
      sanitized_html = sanitize_html ext p.sanitized_html;
      content_sha256 = ext.hashing.sha256_hex p.text;
      normalized_sha256 = hash;
      char_count = length p.text;
      token_estimate = max 1 (length p.text / chars_per_token);
      captured_at = now;
      source_created_at = p.source_created_at;
      capture_source = "chrome_extension";
      device_id = ctx.device_id;
      capture_event_id = none;
      citations = p.citations;
      branch_selected = p.branch_selected;
      reconciled_at = none;
      superseded_by = none;
      raw_s3_key = none;
      raw_s3_version_id = none;
      deleted_at = none;
      deletion_reason = none;
      legal_hold = false;
    }

abbrev pub text_length : Option Text → ℕ
text_length none = 0
text_length (some t) = length t

-- `clean_plain_text(part.text) if part.text else None`
abbrev pub part_text : Option Text → Option Text
part_text t = map_option (clean_plain_text default_max_length) (truthy_text t)

-- The loop over `payload.parts[:500]`, one identifier to each.
unfoldable pub new_parts : ℕ → ℕ → ℕ → List MessagePartIn → List MessagePart
new_parts uuid version_id conversation_id [] = []
new_parts uuid version_id conversation_id (p ∷ ps) =
    record {
      id = uuid;
      message_version_id = version_id;
      conversation_id = conversation_id;
      part_index = p.index;
      kind = p.kind;
      language = p.language;
      text_content = part_text p.text;
      structured = p.structured;
      byte_size = text_length p.text;
    }
    ∷ new_parts (uuid + 1) version_id conversation_id ps

-- The message's row after its new version.
abbrev pub advance : MessageIn → ℕ → ℕ → Message → Message
advance p version_id number m = record m {
  current_version_id = some version_id;
  version_count = number;
  completion_status =
      if is_complete p.completion_status
      then CompletionStatus.complete
      else if is_complete m.completion_status
      then m.completion_status
      else p.completion_status;
}

-- The conversation's row after a new version with this number.
abbrev pub count_message : ℕ → ℕ → Conversation → Conversation
count_message now number c = record c {
  message_count = if number == 1 then c.message_count + 1 else c.message_count;
  last_captured_at = some now;
}

abbrev pub set_event : ℕ → MessageVersion → MessageVersion
set_event event_id v = record v { capture_event_id = some event_id }

abbrev pub captured_at : Option ClientContext → Option ℕ
captured_at = map_option (λ c. c.captured_at)

abbrev pub message_event : MessageIn → Option ClientContext → ℕ → ℕ → EventIn
message_event p client conversation_id message_id = record {
  kind = message_version;
  payload = of_message p;
  idempotency_key = p.idempotency_key;
  conversation_id = some conversation_id;
  message_id = some message_id;
  source_conversation_id = some p.source_conversation_id;
  client_captured_at = captured_at client;
  adapter_version = map_option (λ c. c.adapter_version) client;
  extension_version = map_option (λ c. c.extension_version) client;
}

abbrev pub reconcile_job : IngestContext → ℕ → JobIn
reconcile_job ctx message_id = record {
  kind = reconcile_partial;
  payload = ("message_id", id_text message_id) ∷ [];
  organization_id = some ctx.organization.id;
  dedupe_key = some (reconcile_key message_id);
  priority = 400;
  run_after = none;
  max_attempts = 8;
}

-- The rows of a new version: the version with its parts, the message and the conversation advanced.
unfoldable pub write_version :
    Externals
    → IngestContext
    → ℕ
    → MessageIn
    → ℕ
    → String
    → Message
    → Store
    → MessageVersion × Store
unfolding new_version new_parts
write_version ext ctx now p conversation_id hash m st =
    let v = new_version ext ctx now st.uuids conversation_id p hash m in
    let parts = take 500 p.parts in
    (
      v,
      record st {
        uuids = st.uuids + 1 + length parts;
        versions = st.versions ++ v ∷ [];
        parts = st.parts ++ new_parts (st.uuids + 1) v.id conversation_id parts;
        messages = update (λ r. r.id == m.id) (advance p v.id v.version_number) st.messages;
        conversations =
            update (λ r. r.id == conversation_id) (count_message now v.version_number)
              st.conversations;
      },
    )

-- The branch of `ingest_message` for content that the message has not.
unfoldable pub append_version :
    Externals
    → IngestContext
    → ℕ
    → ℕ
    → MessageIn
    → Option ClientContext
    → ℕ
    → String
    → Message
    → Store
    → ItemResult × Store
unfolding write_version
append_version ext ctx now index p client conversation_id hash m st =
    let (v, written) = write_version ext ctx now p conversation_id hash m st in
    let (event, recorded) =
      record_capture_event ext ctx now IngestStatus.accepted true
        (message_event p client conversation_id m.id) written in
    let linked = set_version v.id (set_event event.id) recorded in
    let keyed =
      update_idempotency_result ctx.organization.id p.idempotency_key
        (message_ref conversation_id m.id v.id) linked in
    let stale = mark_snapshot_stale ctx now conversation_id keyed in
    (
      item_result index p.idempotency_key IngestStatus.accepted (some conversation_id) (some m.id)
          (some v.id) none,
      if is_partial p.completion_status then enqueue now (reconcile_job ctx m.id) stale else stale,
    )

-- `existing_version`
abbrev pub settle_version :
    Externals
    → IngestContext
    → ℕ
    → ℕ
    → MessageIn
    → Option ClientContext
    → ℕ
    → String
    → Message
    → Option MessageVersion
    → Store
    → ItemResult × Store
settle_version ext ctx now index p client conversation_id hash m (some v) st =
    settle_existing ctx now index p conversation_id m v st
settle_version ext ctx now index p client conversation_id hash m none st =
    append_version ext ctx now index p client conversation_id hash m st

-- `ingest_message` behind the idempotency key.
unfoldable pub store_message :
    Externals
    → IngestContext
    → ℕ
    → ℕ
    → MessageIn
    → Option ClientContext
    → ℕ
    → String
    → String
    → Store
    → ItemResult × Store
store_message ext ctx now index p client conversation_id fp hash st =
    let found = find_message conversation_id p fp hash st.messages st.versions in
    let (branch, branched) = resolve_branch now conversation_id p st in
    let (m, placed) = place_message ctx conversation_id p fp branch found branched in
    settle_version ext ctx now index p client conversation_id hash m
      (find (is_content m.id hash) placed.versions) placed

abbrev pub settle_message :
    Externals
    → IngestContext
    → ℕ
    → ℕ
    → MessageIn
    → Option ClientContext
    → ℕ
    → Option ResultRef
    → Store
    → ItemResult × Store
settle_message ext ctx now index p client conversation_id (some ref) st = (
  item_result index p.idempotency_key IngestStatus.duplicate (some conversation_id) ref.message_id
      ref.message_version_id (some "idempotent_replay"),
  st,
)
settle_message ext ctx now index p client conversation_id none st =
    let hash = content_hash ext.hashing p.text in
    let fp =
      message_fingerprint ext.hashing conversation_id p.role p.text p.sequence_index
        p.source_created_at in
    store_message ext ctx now index p client conversation_id fp hash st

abbrev pub message_fields : MessageIn → ConversationIn
message_fields p = record {
  source_conversation_id = p.source_conversation_id;
  title = none;
  source_url = none;
  model_slug = none;
  completeness = some live_only;
  source_created_at = none;
  source_updated_at = none;
}

-- The item behind its checksum.
unfoldable pub ingest_checked :
    Externals
    → IngestContext
    → ℕ
    → ℕ
    → MessageIn
    → Option ClientContext
    → Store
    → ItemResult × Store
ingest_checked ext ctx now index p client st =
    let (c, created, got) = get_or_create_conversation ext ctx now (message_fields p) st in
    let (replay, claimed) =
      claim_key now ctx.organization.id p.idempotency_key
        (record no_ref { conversation_id = some c.id }) got in
    settle_message ext ctx now index p client c.id replay claimed

unfoldable pub ingest_message :
    Externals
    → IngestContext
    → ℕ
    → ℕ
    → MessageIn
    → Option ClientContext
    → Store
    → ItemResult × Store
unfolding ingest_checked store_message
ingest_message ext ctx now index p client st =
    if str_eq p.content_sha256 (ext.hashing.sha256_hex p.text)
    then ingest_checked ext ctx now index p client st
    else (
      item_result index p.idempotency_key IngestStatus.rejected none none none
          (some "checksum_mismatch"),
      st,
    )
