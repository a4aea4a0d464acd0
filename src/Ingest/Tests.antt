-- ===== src/Ingest/Tests.antt =====
-- services/backend/app/services/ingest.py on a small archive: one message, its replay, a batch, feedback.
use Prim.Native.String.{◌++◌ as concat}
use chrome_chatgpt_data.Prelude.{
  arith, ◌==◌, String, true, false, Option, none, some, List, [], ◌∷◌, ◌++◌, map, ◌≡◌, refl, length,
  if◌then◌else◌,
}
use chrome_chatgpt_data.Prelude.Texts.{Text, codes}
use chrome_chatgpt_data.Enums.{user, CompletionStatus, IngestStatus, managed_company, is_accepted}
use chrome_chatgpt_data.Fingerprint.{Hashing}
use chrome_chatgpt_data.Contract.{MessageIn, FeedbackIn}
use chrome_chatgpt_data.Archive.{empty_store}
use chrome_chatgpt_data.Ingest.{Externals, IngestContext, claim_key, claim_idempotency}
use chrome_chatgpt_data.Ingest.Conversations.{get_or_create_conversation, take_conversation}
use chrome_chatgpt_data.Ingest.Messages.{
  resolve_branch, branch_of, place_message, new_message, find_message, first_by_sequence,
}
use chrome_chatgpt_data.Ingest.Versions.{
  ingest_message, ingest_checked, store_message, append_version, write_version,
}
use chrome_chatgpt_data.Ingest.Batch.{Stop, integrity, ingest_message_batch}
use chrome_chatgpt_data.Ingest.Replay.{SameRows, ingest_message_replay}
use chrome_chatgpt_data.Ingest.History.{Content, content, ingest_message_appends}
use chrome_chatgpt_data.Ingest.Outbox.{IsRecorded, ingest_message_records}
use chrome_chatgpt_data.Ingest.Isolation.{Isolates, ingest_message_batch-Isolates}
use chrome_chatgpt_data.Ingest.Numbering.Kept.{Numbered, ingest_message-Numbered}

abbrev toy_hash : Text → String
toy_hash [] = ""
toy_hash (c ∷ cs) = concat (if c == 65 then "a" else "b") (toy_hash cs)

abbrev toy_hashing : Hashing
toy_hashing = record {
  sha256_hex = toy_hash;
  nfkc = λ t. t;
  casefold = λ t. t;
  uuid_text = λ n. n ∷ [];
}

abbrev toy_externals : Externals
toy_externals = record {
  hashing = toy_hashing;
  strip = λ s. s;
  lower = λ s. s;
  clean_html = λ t. t;
  scriptish_free = λ t. t;
  canonical_json = λ p. [];
  str_length = λ p. 0;
}

abbrev acme_context : IngestContext
acme_context = record {
  organization = record { id = 3; slug = "acme" };
  user = record { id = 4; email = "a@acme" };
  device_id = none;
  workspace = record {
    id = 5;
    organization_id = 3;
    source_workspace_id = none;
    label = some "acme";
    workspace_hash = "w";
    kind = managed_company;
    verified_at = none;
    capture_enabled = true;
  };
  workspace_hash = "w";
}

abbrev message : String → String → MessageIn
message key text = record {
  idempotency_key = key;
  source_conversation_id = "c-1";
  source_message_id = none;
  role = user;
  sequence_index = 0;
  text = codes text;
  sanitized_html = none;
  parts = [];
  citations = [];
  completion_status = CompletionStatus.complete;
  is_edit = false;
  is_regeneration = false;
  branch_key = none;
  branch_selected = true;
  source_created_at = none;
  content_sha256 = toy_hash (codes text);
  attachment_client_ids = [];
  author_name = none;
}

abbrev first_message : MessageIn
first_message = message "key-0001" "AB"

ingest_message_replay_example :
    let (r, st1) = ingest_message toy_externals acme_context 10 0 first_message none empty_store in
    let (r', st2) = ingest_message toy_externals acme_context 20 1 first_message none st1 in
    (r'.status ≡ IngestStatus.duplicate)
    × (r'.reason_code ≡ some "idempotent_replay")
    × (r'.message_id ≡ r.message_id)
    × (r'.message_version_id ≡ r.message_version_id)
    × SameRows acme_context first_message st1 st2
ingest_message_replay_example =
    ingest_message_replay toy_externals acme_context empty_store 10 0 first_message none 20 1
      first_message none refl refl refl

ingest_message_appends_example :
    let (r, st') = ingest_message toy_externals acme_context 10 0 first_message none empty_store in
    (extra : List Content) × (map content st'.versions ≡ map content empty_store.versions ++ extra)
    × (length extra ≡ (if is_accepted r.status then 1 else 0))
ingest_message_appends_example =
    ingest_message_appends toy_externals acme_context first_message 10 0 none empty_store

ingest_message_records_example :
    let (r, st') = ingest_message toy_externals acme_context 10 0 first_message none empty_store in
    (is_accepted r.status ≡ true
      → IsRecorded toy_externals acme_context first_message r empty_store.capture_events st')
    × (is_accepted r.status ≡ false → st'.capture_events ≡ empty_store.capture_events)
ingest_message_records_example =
    ingest_message_records toy_externals acme_context first_message 10 0 none empty_store

abbrev three_items : List (MessageIn × Option Stop)
three_items =
    (first_message, none)
    ∷ (
      message "key-0002" "BA",
      some (record {
        fault = integrity;
        written = λ st.
            (ingest_message toy_externals acme_context 10 1 (message "key-0002" "BA") none st).1;
      }),
    )
    ∷ (message "key-0003" "AA", none)
    ∷ []

ingest_message_batch-Isolates_example :
    Isolates toy_externals acme_context 10 none 0 three_items empty_store
      (ingest_message_batch toy_externals acme_context 10 none three_items empty_store)
ingest_message_batch-Isolates_example =
    ingest_message_batch-Isolates toy_externals acme_context 10 none three_items empty_store

abbrev some_feedback : FeedbackIn
some_feedback = record {
  client_feedback_id = "feedback-1";
  source_conversation_id = "c-1";
  source_message_id = none;
  kind = "useful";
  rating = some 4;
  note = none;
}

first_accepted :
    (ingest_message toy_externals acme_context 10 0 first_message none empty_store).0.status
    ≡ IngestStatus.accepted
unfolding ingest_message ingest_checked store_message append_version write_version
    get_or_create_conversation take_conversation claim_key claim_idempotency resolve_branch
    branch_of place_message new_message find_message first_by_sequence
first_accepted = refl

empty_store-Numbered : Numbered empty_store
empty_store-Numbered = record {
  fresh = tt;
  attached = tt;
  single = λ i. omega arith;
  counted = tt;
  numbered = λ i n. omega arith;
  within = tt;
}

ingest_message-Numbered_example :
    Numbered (ingest_message toy_externals acme_context 10 0 first_message none empty_store).1
ingest_message-Numbered_example =
    ingest_message-Numbered toy_externals acme_context first_message 10 0 none empty_store
      empty_store-Numbered
