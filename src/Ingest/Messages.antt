-- ===== src/Ingest/Messages.antt =====
-- services/backend/app/services/ingest.py: one message version.
use text.Mathlib.Text.{◌==◌ as str_eq}
use chrome_chatgpt_data.Prelude.{
  ℕ, ◌+◌, String, Bool, true, false, not, ◌&&◌, ◌||◌, Option, none, some, List, [], ◌∷◌, ◌++◌, leb,
  ◌==◌, if◌then◌else◌, is_some,
}
use chrome_chatgpt_data.Prelude.Rows.{select, find, any, update}
use chrome_chatgpt_data.Prelude.Texts.{truthy, holds_str}
use chrome_chatgpt_data.Enums.{
  MessageRole, CompletionStatus, IngestStatus, is_complete, is_partial, role_eq,
}
use chrome_chatgpt_data.Contract.{MessageIn, ItemResult}
use chrome_chatgpt_data.Archive.{ConversationBranch, Message, MessageVersion, ResultRef, Store}
use chrome_chatgpt_data.Ingest.{IngestContext, update_idempotency_result}
use chrome_chatgpt_data.Ingest.Conversations.{mark_snapshot_stale}

-- `CHARS_PER_TOKEN`
abbrev pub chars_per_token : ℕ
chars_per_token = 4

abbrev pub has_source : ℕ → String → Message → Bool
has_source conversation_id source m =
    m.conversation_id == conversation_id && holds_str m.source_message_id source

abbrev pub has_fingerprint : ℕ → String → Message → Bool
has_fingerprint conversation_id fp m =
    m.conversation_id == conversation_id && str_eq m.fingerprint fp

-- A version of a message with this normalised content.
abbrev pub is_content : ℕ → String → MessageVersion → Bool
is_content message_id hash v = v.message_id == message_id && str_eq v.normalized_sha256 hash

-- The join of the messages with their versions: a message of the conversation with the role that has
-- a version with the normalised content.
abbrev pub has_content : List MessageVersion → ℕ → MessageRole → String → Message → Bool
has_content versions conversation_id role hash m =
    m.conversation_id == conversation_id
    && role_eq m.role role
    && any (is_content m.id hash) versions

-- The better of two rows by `ORDER BY sequence_index`, the first one of equals.
abbrev pub earlier : Message → Option Message → Message
earlier m none = m
earlier m (some n) = if leb m.sequence_index n.sequence_index then m else n

-- `ORDER BY sequence_index LIMIT 1`
unfoldable pub first_by_sequence : List Message → Option Message
first_by_sequence [] = none
first_by_sequence (m ∷ ms) = some (earlier m (first_by_sequence ms))

abbrev pub or_find : Option Message → Option Message → Option Message
or_find (some m) rest = some m
or_find none rest = rest

abbrev pub find_source : ℕ → Option String → List Message → Option Message
find_source conversation_id none ms = none
find_source conversation_id (some s) ms = find (has_source conversation_id s) ms

-- `_find_message`: by source id, then by fingerprint, then by content.
unfoldable pub find_message :
    ℕ → MessageIn → String → String → List Message → List MessageVersion → Option Message
unfolding first_by_sequence
find_message conversation_id p fp hash ms vs =
    or_find (find_source conversation_id (truthy p.source_message_id) ms) (
      or_find (find (has_fingerprint conversation_id fp) ms)
        (first_by_sequence (select (has_content vs conversation_id p.role hash) ms)))

abbrev pub is_branch : ℕ → String → ConversationBranch → Bool
is_branch conversation_id key b = b.conversation_id == conversation_id && str_eq b.branch_key key

abbrev pub set_selected : Bool → ConversationBranch → ConversationBranch
set_selected b r = record r { is_selected = b }

abbrev pub new_branch : ℕ → ℕ → ℕ → String → Bool → ConversationBranch
new_branch now uuid conversation_id key selected = record {
  id = uuid;
  conversation_id = conversation_id;
  source_branch_id = some key;
  branch_key = key;
  is_selected = selected;
  detected_at = some now;
}

unfoldable pub take_branch :
    ℕ → ℕ → String → Bool → Option ConversationBranch → Store → Option ConversationBranch × Store
take_branch now conversation_id key selected (some b) st = (
  some (set_selected selected b),
  record st { branches = update (λ r. r.id == b.id) (set_selected selected) st.branches },
)
take_branch now conversation_id key selected none st =
    let b = new_branch now st.uuids conversation_id key selected in
    (some b, record st { uuids = st.uuids + 1; branches = st.branches ++ b ∷ [] })

unfoldable pub branch_of : ℕ → ℕ → Option String → Bool → Store → Option ConversationBranch × Store
unfolding take_branch
branch_of now conversation_id none selected st = (none, st)
branch_of now conversation_id (some key) selected st =
    take_branch now conversation_id key selected (find (is_branch conversation_id key) st.branches)
      st

-- `_resolve_branch`
unfoldable pub resolve_branch : ℕ → ℕ → MessageIn → Store → Option ConversationBranch × Store
unfolding branch_of
resolve_branch now conversation_id p st =
    branch_of now conversation_id (truthy p.branch_key) p.branch_selected st

abbrev pub branch_id : Option ConversationBranch → Option ℕ
branch_id none = none
branch_id (some b) = some b.id

-- `bool(list)`
abbrev pub is_nonempty {ℓ} : {A : Type ℓ} → List A → Bool
is_nonempty [] = false
is_nonempty (x ∷ xs) = true

unfoldable pub new_message :
    IngestContext → ℕ → ℕ → MessageIn → String → Option ConversationBranch → Message
new_message ctx uuid conversation_id p fp branch = record {
  id = uuid;
  conversation_id = conversation_id;
  organization_id = ctx.organization.id;
  branch_id = branch_id branch;
  source_message_id = p.source_message_id;
  fingerprint = fp;
  role = p.role;
  author_name = p.author_name;
  sequence_index = p.sequence_index;
  source_created_at = p.source_created_at;
  current_version_id = none;
  version_count = 0;
  completion_status = p.completion_status;
  has_attachments = is_nonempty p.attachment_client_ids;
  deleted_at = none;
  deletion_reason = none;
  legal_hold = false;
}

-- What a later capture of a message adds to its row.
unfoldable pub improve : MessageIn → Option ConversationBranch → Message → Message
improve p branch m = record m {
  source_message_id =
      if is_some (truthy p.source_message_id) && not (is_some (truthy m.source_message_id))
      then p.source_message_id
      else m.source_message_id;
  branch_id = if is_some m.branch_id then m.branch_id else branch_id branch;
  source_created_at =
      if is_some m.source_created_at then m.source_created_at else p.source_created_at;
  sequence_index = p.sequence_index;
  has_attachments = is_nonempty p.attachment_client_ids || m.has_attachments;
}

abbrev pub set_message : ℕ → (Message → Message) → Store → Store
set_message i f st = record st { messages = update (λ r. r.id == i) f st.messages }

-- The message of the payload on the store: a new row, or the found one improved.
unfoldable pub place_message :
    IngestContext
    → ℕ
    → MessageIn
    → String
    → Option ConversationBranch
    → Option Message
    → Store
    → Message × Store
unfolding new_message improve
place_message ctx conversation_id p fp branch none st =
    let m = new_message ctx st.uuids conversation_id p fp branch in
    (m, record st { uuids = st.uuids + 1; messages = st.messages ++ m ∷ [] })
place_message ctx conversation_id p fp branch (some m) st =
    (improve p branch m, set_message m.id (improve p branch) st)

abbrev pub item_result :
    ℕ → String → IngestStatus → Option ℕ → Option ℕ → Option ℕ → Option String → ItemResult
item_result index key status conversation_id message_id message_version_id reason_code = record {
  index = index;
  idempotency_key = key;
  status = status;
  id = none;
  conversation_id = conversation_id;
  message_id = message_id;
  message_version_id = message_version_id;
  reason_code = reason_code;
}

abbrev pub message_ref : ℕ → ℕ → ℕ → ResultRef
message_ref conversation_id message_id version_id = record {
  conversation_id = some conversation_id;
  message_id = some message_id;
  message_version_id = some version_id;
  capture_event_id = none;
}

abbrev pub promote : ℕ → MessageVersion → MessageVersion
promote now v = record v {
  completion_status = CompletionStatus.reconciled;
  reconciled_at = some now;
}

abbrev pub set_complete : Message → Message
set_complete m = record m { completion_status = CompletionStatus.complete }

abbrev pub set_version : ℕ → (MessageVersion → MessageVersion) → Store → Store
set_version i f st = record st { versions = update (λ r. r.id == i) f st.versions }

-- The branch of `ingest_message` for content that the message has already.
unfoldable pub settle_existing :
    IngestContext → ℕ → ℕ → MessageIn → ℕ → Message → MessageVersion → Store → ItemResult × Store
settle_existing ctx now index p conversation_id m v st =
    let ref = message_ref conversation_id m.id v.id in
    let org = ctx.organization.id in
    if is_partial v.completion_status && is_complete p.completion_status
    then (
      item_result index p.idempotency_key IngestStatus.duplicate (some conversation_id) (some m.id)
          (some v.id) (some "reconciled_partial"),
      mark_snapshot_stale ctx now conversation_id (
          update_idempotency_result org p.idempotency_key ref
            (set_message m.id set_complete (set_version v.id (promote now) st))),
    )
    else (
      item_result index p.idempotency_key IngestStatus.duplicate (some conversation_id) (some m.id)
          (some v.id) (some "identical_content"),
      update_idempotency_result org p.idempotency_key ref st,
    )
