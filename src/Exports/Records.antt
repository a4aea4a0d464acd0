-- ===== src/Exports/Records.antt =====
-- services/backend/app/services/exports.py, `build_conversation_record`: the record of a conversation.
use chrome_chatgpt_data.Prelude.{
  ℕ, String, Bool, not, ◌&&◌, Option, none, some, List, [], ◌∷◌, ◌==◌, if◌then◌else◌, is_some,
  length, new_or, or_else,
}
use chrome_chatgpt_data.Prelude.Rows.{select, find}
use chrome_chatgpt_data.Prelude.Sorting.{sort_by, ascending}
use chrome_chatgpt_data.Prelude.Texts.{Text, truthy}
use chrome_chatgpt_data.Enums.{
  MessageRole, AttachmentState, CompletionStatus, CaptureCompleteness, is_user, is_assistant,
}
use chrome_chatgpt_data.Archive.{Conversation, Message, MessageVersion}
use chrome_chatgpt_data.Attachments.{Attachment, MessageAttachment, Vault, has_attachment_id}
use chrome_chatgpt_data.Attachments.Complete.{is_clean}

pub record Turn : Type 0 where
  pub role : MessageRole
  pub text : Text
  pub sequence_index : ℕ
  pub source_message_id : Option String
  pub content_sha256 : String
  pub completion_status : CompletionStatus

pub record ExportAttachment : Type 0 where
  pub attachment_id : ℕ
  pub filename : Text
  pub mime_type : Option String
  pub sha256 : String
  pub s3_key : Option Text
  pub state : AttachmentState

pub record ExportRecord : Type 0 where
  pub conversation_id : ℕ
  pub source_conversation_id : String
  pub title : Option Text
  pub capture_completeness : CaptureCompleteness
  pub message_count : ℕ
  pub messages : List Turn
  pub pairs : List (Text × Text)
  pub attachments : List ExportAttachment
  pub snapshot_sha256 : Option String
  pub split : String

abbrev pub version_by : Option ℕ → List MessageVersion → Option MessageVersion
version_by none versions = none
version_by (some i) versions = find (λ v. v.id == i) versions

abbrev pub add_turn : Message → Option MessageVersion → List Turn → List Turn
add_turn m none turns = turns
add_turn m (some v) turns =
    record {
      role = m.role;
      text = v.plain_text;
      sequence_index = m.sequence_index;
      source_message_id = m.source_message_id;
      content_sha256 = v.content_sha256;
      completion_status = v.completion_status;
    }
    ∷ turns

-- A message whose current version is missing gives no turn.
unfoldable pub turns_of : List MessageVersion → List Message → List Turn
turns_of versions [] = []
turns_of versions (m ∷ ms) =
    add_turn m (version_by m.current_version_id versions) (turns_of versions ms)

-- `_prompt_answer_pairs`
unfoldable pub prompt_answer_pairs : List Turn → List (Text × Text)
prompt_answer_pairs [] = []
prompt_answer_pairs (t ∷ []) = []
prompt_answer_pairs (t ∷ u ∷ rest) =
    let later = prompt_answer_pairs (u ∷ rest) in
    if is_user t.role && is_assistant u.role then (t.text, u.text) ∷ later else later

-- The clean attachments of the links, one for each link.
abbrev pub add_attachment : Option Attachment → List ExportAttachment → List ExportAttachment
add_attachment none rest = rest
add_attachment (some a) rest =
    if is_clean a.state
    then (record {
      attachment_id = a.id;
      filename = a.safe_filename;
      mime_type = new_or (truthy a.detected_mime_type) a.declared_mime_type;
      sha256 = or_else (truthy a.verified_sha256) a.sha256;
      s3_key = a.clean_s3_key;
      state = a.state;
    }
        ∷ rest)
    else rest

unfoldable pub attachments_of : List Attachment → List MessageAttachment → List ExportAttachment
attachments_of rows [] = []
attachments_of rows (l ∷ ls) =
    add_attachment (find (has_attachment_id l.attachment_id) rows) (attachments_of rows ls)

-- The messages are in the order of `sequence_index`, then of `created_at`, which is that of the table.
unfoldable pub record_of : Vault → Bool → Conversation → ExportRecord
unfolding turns_of prompt_answer_pairs attachments_of
record_of v include_attachments c =
    let turns = turns_of v.archive.versions (
      sort_by (ascending (λ m. m.sequence_index)) (
        select (λ m. m.conversation_id == c.id && not (is_some m.deleted_at))
          v.archive.messages)) in
    let files = attachments_of v.attachments (select (λ l. l.conversation_id == c.id) v.links) in
    record {
      conversation_id = c.id;
      source_conversation_id = c.source_conversation_id;
      title = c.title;
      capture_completeness = c.capture_completeness;
      message_count = length turns;
      messages = turns;
      pairs = prompt_answer_pairs turns;
      attachments = if include_attachments then files else [];
      snapshot_sha256 = c.snapshot_sha256;
      split = "";
    }

-- `build_conversation_record`; the digest of the record is left out, for it is a function of the rest.
abbrev pub live_record : Vault → Bool → Option Conversation → Option ExportRecord
live_record v include_attachments none = none
live_record v include_attachments (some c) =
    if is_some c.deleted_at then none else some (record_of v include_attachments c)

unfoldable pub build_conversation_record : Vault → Bool → ℕ → Option ExportRecord
unfolding record_of
build_conversation_record v include_attachments id =
    live_record v include_attachments (find (λ c. c.id == id) v.archive.conversations)
