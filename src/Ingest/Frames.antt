-- ===== src/Ingest/Frames.antt =====
-- services/backend/app/services/ingest.py: which tables the steps of `ingest_message` write.
use chrome_chatgpt_data.Prelude.{
  ℕ, String, true, Option, none, some, List, [], ◌∷◌, ◌++◌, ◌≡◌, refl,
}
use chrome_chatgpt_data.Prelude.Rows.{find}
use chrome_chatgpt_data.Prelude.Texts.{truthy}
use chrome_chatgpt_data.Enums.{IngestStatus}
use chrome_chatgpt_data.Jobs.{Job}
use chrome_chatgpt_data.Contract.{MessageIn}
use chrome_chatgpt_data.Archive.{Conversation, ConversationBranch, Message, Store}
use chrome_chatgpt_data.Ingest.{
  Externals, IngestContext, EventIn, new_event, enqueue, record_capture_event,
}
use chrome_chatgpt_data.Ingest.Conversations.{
  ConversationIn, is_conversation, take_conversation, get_or_create_conversation,
  mark_snapshot_stale,
}
use chrome_chatgpt_data.Ingest.Messages.{
  resolve_branch, branch_of, take_branch, is_branch, place_message,
}

pub get_or_create-frame :
    (ext : Externals) (ctx : IngestContext) (now : ℕ) (v : ConversationIn) (st : Store)
    → (u : ℕ) × (cs : List Conversation) × ((get_or_create_conversation ext ctx now v st).2
        ≡ record st { uuids = u; conversations = cs })
unfolding get_or_create_conversation take_conversation
get_or_create-frame ext ctx now v st =
    go (find (is_conversation ctx v.source_conversation_id) st.conversations)
  where
    go :
        (found : Option Conversation)
        → (u : ℕ) × (cs : List Conversation) × ((take_conversation ext ctx now v found st).2
            ≡ record st { uuids = u; conversations = cs })
    go none = (_, _, refl)
    go (some c) = (_, _, refl)

pub resolve_branch-frame :
    (now conversation_id : ℕ) (p : MessageIn) (st : Store)
    → (u : ℕ) × (bs : List ConversationBranch) × ((resolve_branch now conversation_id p st).1
        ≡ record st { uuids = u; branches = bs })
unfolding resolve_branch branch_of
resolve_branch-frame now conversation_id p st = go (truthy p.branch_key)
  where
    took :
        (key : String) (found : Option ConversationBranch)
        → (u : ℕ) × (bs : List ConversationBranch) × ((take_branch now conversation_id key
              p.branch_selected found st).1
            ≡ record st { uuids = u; branches = bs })
    took key none = unfold take_branch in (_, _, refl)
    took key (some b) = unfold take_branch in (_, _, refl)

    go :
        (key : Option String)
        → (u : ℕ) × (bs : List ConversationBranch) × ((branch_of now conversation_id key
              p.branch_selected st).1
            ≡ record st { uuids = u; branches = bs })
    go none = (_, _, refl)
    go (some key) = took key (find (is_branch conversation_id key) st.branches)

pub place_message-frame :
    (ctx : IngestContext) (conversation_id : ℕ) (p : MessageIn) (fp : String)
    (branch : Option ConversationBranch) (found : Option Message) (st : Store)
    → (u : ℕ) × (ms : List Message) × ((place_message ctx conversation_id p fp branch found st).1
        ≡ record st { uuids = u; messages = ms })
unfolding place_message
place_message-frame ctx conversation_id p fp branch none st = (_, _, refl)
place_message-frame ctx conversation_id p fp branch (some m) st = (_, _, refl)

-- An accepted event whose archival is enqueued.
pub record_capture_event-frame :
    (ext : Externals) (ctx : IngestContext) (now : ℕ) (v : EventIn) (st : Store)
    → (u : ℕ) × (js : List Job) × ((record_capture_event ext ctx now IngestStatus.accepted true v
          st).1
        ≡ record st {
          uuids = u;
          capture_events =
              st.capture_events ++ new_event ext ctx now st.uuids IngestStatus.accepted v ∷ [];
          jobs = js;
        })
unfolding record_capture_event enqueue
record_capture_event-frame ext ctx now v st = (_, _, refl)

pub mark_snapshot_stale-frame :
    (ctx : IngestContext) (now conversation_id : ℕ) (st : Store)
    → (u : ℕ) × (cs : List Conversation) × (js : List Job) × ((mark_snapshot_stale ctx now
          conversation_id st)
        ≡ record st { uuids = u; conversations = cs; jobs = js })
unfolding mark_snapshot_stale enqueue
mark_snapshot_stale-frame ctx now conversation_id st = (_, _, _, refl)
