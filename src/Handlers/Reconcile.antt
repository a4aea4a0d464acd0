-- ===== src/Handlers/Reconcile.antt =====
-- services/backend/app/workers/handlers.py, `handle_reconcile_partial`: the message takes the complete
-- version that has come after a partial one.
use chrome_chatgpt_data.Prelude.{
  ℕ, Bool, true, ◌&&◌, Option, none, some, List, [], ◌∷◌, ◌==◌, if◌then◌else◌,
}
use chrome_chatgpt_data.Prelude.Rows.{select, find, update}
use chrome_chatgpt_data.Prelude.Sorting.{sort_by, descending}
use chrome_chatgpt_data.Prelude.Texts.{codes}
use chrome_chatgpt_data.Enums.{CompletionStatus, is_complete, is_partial}
use chrome_chatgpt_data.Jobs.{Job, flag, id_text, plain_text}
use chrome_chatgpt_data.Archive.{Conversation, Message, MessageVersion, Store}
use chrome_chatgpt_data.Worker.{Outcome, returned, non_retryable}
use chrome_chatgpt_data.Attachments.Finalize.{entry, as_id}

-- The complete version of the message with the greatest number.
abbrev pub latest_complete : ℕ → List MessageVersion → Option MessageVersion
latest_complete i versions =
    find (λ v. is_complete v.completion_status)
      (sort_by (descending (λ v. v.version_number)) (select (λ v. v.message_id == i) versions))

abbrev pub settle : ℕ → Message → Message
settle version_id m = record m {
  completion_status = CompletionStatus.complete;
  current_version_id = some version_id;
}

abbrev pub is_superseded : ℕ → MessageVersion → Bool
is_superseded i v = v.message_id == i && is_partial v.completion_status

abbrev pub supersede : ℕ → ℕ → MessageVersion → MessageVersion
supersede now version_id v = record v {
  completion_status = CompletionStatus.reconciled;
  superseded_by = some version_id;
  reconciled_at = some now;
}

abbrev pub make_stale : Conversation → Conversation
make_stale c = record c { snapshot_stale = true }

unfoldable pub reconcile : ℕ → Message → Option MessageVersion → Store → Outcome × Store
reconcile now m none st =
    (returned (("skipped", flag true) ∷ ("reason", plain_text "no_complete_version_yet") ∷ []), st)
reconcile now m (some c) st = (
  returned (("reconciled", flag true) ∷ ("current_version_id", id_text c.id) ∷ []),
  record st {
    messages = update (λ r. r.id == m.id) (settle c.id) st.messages;
    versions = update (is_superseded m.id) (supersede now c.id) st.versions;
    conversations = update (λ r. r.id == m.conversation_id) make_stale st.conversations;
  },
)

unfoldable pub reconcile_message : ℕ → Option Message → Store → Outcome × Store
unfolding reconcile
reconcile_message now none st = (non_retryable (codes "message no longer exists"), st)
reconcile_message now (some m) st =
    if is_complete m.completion_status
    then (returned (("skipped", flag true) ∷ ("reason", plain_text "already_complete") ∷ []), st)
    else reconcile now m (latest_complete m.id st.versions) st

unfoldable pub reconcile_by_id : ℕ → Option ℕ → Store → Outcome × Store
unfolding reconcile_message
reconcile_by_id now none st = (non_retryable (codes "message_id missing or malformed"), st)
reconcile_by_id now (some i) st = reconcile_message now (find (λ m. m.id == i) st.messages) st

unfoldable pub handle_reconcile_partial : ℕ → Job → Store → Outcome × Store
unfolding reconcile_by_id
handle_reconcile_partial now job st =
    reconcile_by_id now (as_id (entry "message_id" job.payload)) st
