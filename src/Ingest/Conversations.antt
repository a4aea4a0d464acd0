-- ===== src/Ingest/Conversations.antt =====
-- services/backend/app/services/ingest.py: the conversations, their completeness and their snapshots.
use text.Mathlib.Text.{◌==◌ as str_eq}
use chrome_chatgpt_data.Prelude.{
  ℕ, ◌+◌, String, Bool, true, false, ◌&&◌, Option, none, some, List, [], ◌∷◌, ◌++◌, ltb, ◌==◌,
  if◌then◌else◌, or_else, take, map_option, new_or,
}
use chrome_chatgpt_data.Prelude.Rows.{find, update}
use chrome_chatgpt_data.Prelude.Texts.{Text, codes, truthy, truthy_text, text_in}
use chrome_chatgpt_data.Enums.{
  CaptureCompleteness, complete_current_page, partial_scroll_limit, live_only, compliance_verified,
  conversation_upsert, IngestStatus, build_conversation_snapshot, is_verified,
}
use chrome_chatgpt_data.Jobs.{JobIn, id_text, plain_text, snapshot_key}
use chrome_chatgpt_data.Policy.{pseudonymize}
use chrome_chatgpt_data.Sanitize.{clean_plain_text}
use chrome_chatgpt_data.Contract.{ConversationUpsertIn, of_upsert}
use chrome_chatgpt_data.Archive.{Conversation, ResultRef, Store}
use chrome_chatgpt_data.Ingest.{
  Externals, IngestContext, no_ref, claim_key, update_idempotency_result, enqueue, EventIn,
  record_capture_event,
}

-- `_COMPLETENESS_RANK`
abbrev pub completeness_rank : CaptureCompleteness → ℕ
completeness_rank CaptureCompleteness.unknown = 0
completeness_rank live_only = 1
completeness_rank partial_scroll_limit = 2
completeness_rank complete_current_page = 3
completeness_rank CaptureCompleteness.reconciled = 4
completeness_rank compliance_verified = 5

unfoldable pub merge_completeness : CaptureCompleteness → CaptureCompleteness → CaptureCompleteness
merge_completeness current incoming =
    if is_verified incoming
    then current
    else if ltb (completeness_rank current) (completeness_rank incoming)
    then incoming
    else current

abbrev pub add_capture_source : String → List String → List String
add_capture_source source sources =
    if text_in source sources then sources else sources ++ source ∷ []

-- The keyword arguments of `get_or_create_conversation`.
pub record ConversationIn : Type 0 where
  pub source_conversation_id : String
  pub title : Option Text
  pub source_url : Option Text
  pub model_slug : Option String
  pub completeness : Option CaptureCompleteness
  pub source_created_at : Option ℕ
  pub source_updated_at : Option ℕ

abbrev pub is_conversation : IngestContext → String → Conversation → Bool
is_conversation ctx source c =
    c.organization_id == ctx.organization.id
    && c.workspace_id == ctx.workspace.id
    && str_eq c.source_conversation_id source

abbrev pub merged : CaptureCompleteness → Option CaptureCompleteness → CaptureCompleteness
merged current none = current
merged current (some incoming) = merge_completeness current incoming

-- The changes to a row that exists.
unfoldable pub touch : IngestContext → ℕ → ConversationIn → Conversation → Conversation
touch ctx now v c = record c {
  title = new_or (map_option (clean_plain_text 2048) (truthy_text v.title)) c.title;
  source_url = new_or (map_option (take 2048) (truthy_text v.source_url)) c.source_url;
  model_slug = new_or (truthy v.model_slug) c.model_slug;
  source_updated_at = new_or v.source_updated_at c.source_updated_at;
  capture_completeness = merged c.capture_completeness v.completeness;
  user_id = some (or_else c.user_id ctx.user.id);
  last_captured_at = some now;
  capture_sources = add_capture_source "chrome_extension" c.capture_sources;
}

unfoldable pub new_conversation : Externals → IngestContext → ℕ → ℕ → ConversationIn → Conversation
unfolding merge_completeness
new_conversation ext ctx now uuid v = record {
  id = uuid;
  organization_id = ctx.organization.id;
  workspace_id = ctx.workspace.id;
  user_id = some ctx.user.id;
  source_conversation_id = v.source_conversation_id;
  source_url = map_option (take 2048) (truthy_text v.source_url);
  title = map_option (clean_plain_text 2048) (truthy_text v.title);
  model_slug = v.model_slug;
  capture_sources = "chrome_extension" ∷ [];
  capture_completeness =
      merge_completeness CaptureCompleteness.unknown
        (or_else v.completeness CaptureCompleteness.unknown);
  employee_id_hash =
      some
        (pseudonymize ext.strip ext.lower (λ s. ext.hashing.sha256_hex (codes s)) ctx.user.email);
  source_created_at = v.source_created_at;
  source_updated_at = v.source_updated_at;
  first_captured_at = some now;
  last_captured_at = some now;
  message_count = 0;
  snapshot_version = 0;
  snapshot_stale = true;
  snapshot_s3_key = none;
  snapshot_sha256 = none;
  upstream_deletion = none;
  created_at = now;
  deleted_at = none;
  deletion_reason = none;
  legal_hold = false;
}

-- `get_or_create_conversation` on what its SELECT finds. A concurrent insertion of the same row, which
-- rolls the session back and raises, is a fault of the batch.
unfoldable pub take_conversation :
    Externals
    → IngestContext
    → ℕ
    → ConversationIn
    → Option Conversation
    → Store
    → Conversation × Bool × Store
unfolding touch new_conversation
take_conversation ext ctx now v (some c) st = (
  touch ctx now v c,
  false,
  record st { conversations = update (λ r. r.id == c.id) (touch ctx now v) st.conversations },
)
take_conversation ext ctx now v none st =
    let c = new_conversation ext ctx now st.uuids v in
    (c, true, record st { uuids = st.uuids + 1; conversations = st.conversations ++ c ∷ [] })

unfoldable pub get_or_create_conversation :
    Externals → IngestContext → ℕ → ConversationIn → Store → Conversation × Bool × Store
unfolding take_conversation
get_or_create_conversation ext ctx now v st =
    take_conversation ext ctx now v
      (find (is_conversation ctx v.source_conversation_id) st.conversations) st

abbrev pub snapshot_job : IngestContext → ℕ → JobIn
snapshot_job ctx conversation_id = record {
  kind = build_conversation_snapshot;
  payload =
      ("conversation_id", id_text conversation_id)
      ∷ ("workspace_hash", plain_text ctx.workspace_hash)
      ∷ [];
  organization_id = some ctx.organization.id;
  dedupe_key = some (snapshot_key conversation_id);
  priority = 200;
  run_after = none;
  max_attempts = 8;
}

abbrev pub set_stale : Conversation → Conversation
set_stale c = record c { snapshot_stale = true }

unfoldable pub mark_snapshot_stale : IngestContext → ℕ → ℕ → Store → Store
mark_snapshot_stale ctx now conversation_id st =
    enqueue now (snapshot_job ctx conversation_id) (record st {
      conversations = update (λ r. r.id == conversation_id) set_stale st.conversations;
    })

abbrev pub upsert_fields : ConversationUpsertIn → ConversationIn
upsert_fields p = record {
  source_conversation_id = p.source_conversation_id;
  title = p.title;
  source_url = p.source_url;
  model_slug = p.model_slug;
  completeness = some p.capture_completeness;
  source_created_at = p.source_created_at;
  source_updated_at = p.source_updated_at;
}

abbrev pub upsert_event : ConversationUpsertIn → ℕ → EventIn
upsert_event p conversation_id = record {
  kind = conversation_upsert;
  payload = of_upsert p;
  idempotency_key = p.idempotency_key;
  conversation_id = some conversation_id;
  message_id = none;
  source_conversation_id = some p.source_conversation_id;
  client_captured_at = some p.client.captured_at;
  adapter_version = some p.client.adapter_version;
  extension_version = some p.client.extension_version;
}

-- The rest of `upsert_conversation`, by the replay that the claim returned.
unfoldable pub settle_upsert :
    Externals
    → IngestContext
    → ℕ
    → ConversationUpsertIn
    → Option ResultRef
    → Conversation
    → Bool
    → Store
    → Conversation × Bool × Bool × Store
unfolding mark_snapshot_stale
settle_upsert ext ctx now p (some ref) c created st = (c, false, true, st)
settle_upsert ext ctx now p none c created st =
    let keyed =
      update_idempotency_result ctx.organization.id p.idempotency_key
        (record no_ref { conversation_id = some c.id }) st in
    let (event, recorded) =
      record_capture_event ext ctx now IngestStatus.accepted true (upsert_event p c.id) keyed in
    (set_stale c, created, false, mark_snapshot_stale ctx now c.id recorded)

-- `upsert_conversation`: the conversation, whether it was created, and whether this is a replay.
unfoldable pub upsert_conversation :
    Externals
    → IngestContext
    → ℕ
    → ConversationUpsertIn
    → Store
    → Conversation × Bool × Bool × Store
unfolding settle_upsert get_or_create_conversation
upsert_conversation ext ctx now p st =
    let (replay, claimed) = claim_key now ctx.organization.id p.idempotency_key no_ref st in
    let (c, created, got) = get_or_create_conversation ext ctx now (upsert_fields p) claimed in
    settle_upsert ext ctx now p replay c created got
