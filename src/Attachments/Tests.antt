-- ===== src/Attachments/Tests.antt =====
-- Runs of the attachments of services/backend/app/services/attachments.py, and the theorems about them at
-- concrete inputs.
use chrome_chatgpt_data.Prelude.{
  ℕ, zero, suc, ◌+◌, ◌≡◌, refl, String, true, false, none, some, [], ◌∷◌, ◌++◌, arith, length, leb,
  ◌&&◌,
}
use chrome_chatgpt_data.Prelude.Rows.{find}
use chrome_chatgpt_data.Prelude.Texts.{Text, codes}
use chrome_chatgpt_data.Prelude.Results.{ok}
use chrome_chatgpt_data.Enums.{AttachmentState, JobStatus, managed_company, finalize_attachment}
use chrome_chatgpt_data.Jobs.{Job, id_text, plain_text}
use chrome_chatgpt_data.Policy.{Settings}
use chrome_chatgpt_data.Exif.{Bytes}
use chrome_chatgpt_data.Archive.{empty_store}
use chrome_chatgpt_data.Ingest.{Externals, IngestContext}
use chrome_chatgpt_data.Filenames.{Unicode}
use chrome_chatgpt_data.Attachments.{
  Attachment, Vault, Limits, AttachmentInitIn, has_attachment_id, expire_stale_pending,
}
use chrome_chatgpt_data.Attachments.Bytes.{
  magic_bytes, sniff, is_utf8, lead, detect_mime_from_bytes,
}
use chrome_chatgpt_data.Attachments.Init.{init_attachment}
use chrome_chatgpt_data.Attachments.Complete.{AttachmentCompleteIn, complete_attachment}
use chrome_chatgpt_data.Attachments.Finalize.{World}
use chrome_chatgpt_data.Attachments.Lifecycle.{IsVault}
use chrome_chatgpt_data.Attachments.Changes.{applied}
use chrome_chatgpt_data.Attachments.Reach.{here, next, init, expire, Reach-IsVault, clean_is_final}
use chrome_chatgpt_data.Attachments.Queued.{Answered, complete_attachment_answers}
use chrome_chatgpt_data.Attachments.LongText.{long_text_rejected}

-- A digest that tells the length of a short text.
abbrev toy_digest : Text → String
toy_digest [] = "none"
toy_digest (c ∷ []) = "one"
toy_digest (c ∷ d ∷ cs) = "more"

abbrev toy_externals : Externals
toy_externals = record {
  hashing = record {
    sha256_hex = toy_digest;
    nfkc = λ t. t;
    casefold = λ t. t;
    uuid_text = λ n. (n + 48) ∷ [];
  };
  strip = λ s. s;
  lower = λ s. s;
  clean_html = λ t. t;
  scriptish_free = λ t. t;
  canonical_json = λ p. [];
  str_length = λ p. 0;
}

abbrev ascii : Unicode
ascii = record {
  nfkd = λ t. t;
  printable = λ c. leb 32 c && leb c 126;
  alnum = λ c. leb 97 c && leb c 122;
  lower = λ t. t;
}

abbrev context : IngestContext
context = record {
  organization = record { id = 3; slug = "acme" };
  user = record { id = 4; email = "a@acme" };
  device_id = none;
  workspace = record {
    id = 5;
    organization_id = 3;
    source_workspace_id = none;
    label = some "acme";
    workspace_hash = "w";
    kind = managed_company;
    verified_at = none;
    capture_enabled = true;
  };
  workspace_hash = "w";
}

abbrev settings : Settings
settings = record {
  kill_switch_enabled = false;
  browser_content_capture_enabled = true;
  openai_written_authorization_confirmed = true;
  attachment_capture_enabled = true;
  personal_workspace_capture_enabled = false;
  managed_workspace_id_list = [];
  managed_workspace_label = none;
}

abbrev limits : Limits
limits = record { max_attachment_bytes = 100; presigned_upload_ttl = 900 }

abbrev notes : AttachmentInitIn
notes = record {
  client_attachment_id = "client-1";
  source_conversation_id = "c1";
  filename = codes "notes.txt";
  mime_type = "text/plain";
  byte_size = 2;
  sha256 = "more";
  relation = "uploaded_by_user";
  is_metadata_only = false;
  source_file_id = none;
}

abbrev empty_vault : Vault
empty_vault = record { archive = empty_store; attachments = []; links = []; objects = [] }

empty-IsVault : IsVault empty_vault
empty-IsVault = record { sound = tt; unique_id = λ i. omega arith; fresh = tt }

Reach-IsVault_example : IsVault (
    applied
      (init_attachment toy_externals ascii context settings limits 10 notes empty_vault)
      empty_vault)
Reach-IsVault_example =
    Reach-IsVault toy_externals ascii empty-IsVault
      (next here (init context settings limits 10 notes))

abbrev quarantined : Attachment
quarantined = record {
  id = 7;
  organization_id = 3;
  workspace_id = 5;
  conversation_id = 1;
  user_id = some 4;
  device_id = none;
  client_attachment_id = "client-1";
  original_filename = some (codes "notes.txt");
  safe_filename = codes "notes.txt";
  declared_mime_type = some "text/plain";
  detected_mime_type = none;
  extension = some (codes ".txt");
  byte_size = 2;
  verified_byte_size = some 2;
  sha256 = "more";
  verified_sha256 = none;
  state = AttachmentState.quarantine;
  rejection_reason = none;
  is_metadata_only = false;
  source_file_id = none;
  quarantine_s3_key = some (codes "q");
  clean_s3_key = none;
  curated_s3_key = none;
  s3_version_id = none;
  presign_issued_at = some 10;
  presign_expires_at = some 910;
  uploaded_at = some 20;
  verified_at = none;
  scan_status = none;
  scan_result = [];
  exif_stripped = false;
  metadata_json = [];
}

abbrev cleaned : Attachment
cleaned = record quarantined {
  state = AttachmentState.clean;
  clean_s3_key = some (codes "c");
  detected_mime_type = some "text/plain";
  verified_sha256 = some "more";
}

abbrev vault_of : Attachment → Vault
vault_of a = record {
  archive = record empty_store { uuids = 9 };
  attachments = a ∷ [];
  links = [];
  objects = (codes "q", record { bytes = 104 ∷ 105 ∷ []; version_id = none }) ∷ [];
}

cleaned-IsVault : IsVault (vault_of cleaned)
cleaned-IsVault = record {
  sound = (
    record {
      clean_key = λ t. refl;
      clean_digest = λ t. refl;
      clean_size = λ t. refl;
      clean_type = λ t. ("text/plain", refl, refl);
      quarantine_key = λ t. refl;
      quarantine_size = λ t. refl;
    },
    tt,
  );
  unique_id = λ i. ground arith;
  fresh = omega arith;
}

clean_is_final_example :
    find (has_attachment_id 7) (expire_stale_pending 9_000_000_000 (vault_of cleaned)).1.attachments
    ≡ some cleaned
clean_is_final_example =
    clean_is_final toy_externals ascii 7 cleaned cleaned-IsVault (next here (expire 9_000_000_000))
      refl refl

abbrev world : World
world = record {
  workspaces = [];
  copy_answer = ok (some "v1");
  curated_answer = ok none;
  meanwhile = λ objects. objects;
}

abbrev finalization : Job
finalization = record {
  id = 1;
  organization_id = some 3;
  kind = finalize_attachment;
  status = JobStatus.running;
  priority = 150;
  payload = ("attachment_id", id_text 7) ∷ ("workspace_hash", plain_text "w") ∷ [];
  dedupe_key = none;
  attempts = 1;
  max_attempts = 8;
  run_after = 10;
  created_at = 10;
  locked_at = some 20;
  locked_by = some "host:7";
  lock_token = some 2;
  started_at = some 20;
  finished_at = none;
  error_summary = none;
  result = [];
}

-- A long run of the letter a.
letters : ℕ → Bytes
letters zero = []
letters (suc n) = 97 ∷ letters n

length-letters : (n : ℕ) → length (letters n) ≡ n
unfolding letters
length-letters zero = refl
length-letters (suc n) = omega (arith, length-letters n)

letters_text : (n : ℕ) → is_utf8 (letters n) ≡ true
unfolding letters is_utf8 lead
letters_text zero = refl
letters_text (suc n) = letters_text n

empty_text : is_utf8 [] ≡ true
unfolding is_utf8
empty_text = refl

letters_plain : (n : ℕ) (rest : Bytes) → sniff (letters (suc n) ++ rest) magic_bytes ≡ none
unfolding letters sniff
letters_plain n rest = refl

abbrev eacute : Bytes
eacute = 195 ∷ 169 ∷ []

long_text_rejected_example :
    (is_utf8 (letters 65535 ++ eacute) ≡ true)
    × (detect_mime_from_bytes (letters 65535 ++ eacute) (some "text/plain") ≡ none)
long_text_rejected_example =
    long_text_rejected (letters 65535) [] 195 169 (some "text/plain") (letters_text 65535)
      (length-letters 65535) (omega arith) (omega arith) (omega arith) (omega arith) empty_text
      (letters_plain 65534 eacute)

abbrev uploaded : Attachment
uploaded = record quarantined { state = AttachmentState.pending; verified_byte_size = none }

abbrev completion : AttachmentCompleteIn
completion = record { attachment_id = 7; sha256 = "more"; byte_size = 2; source_message_id = none }

complete_attachment_answers_example :
    Answered context completion
      (vault_of uploaded)
      (complete_attachment context 30 completion (vault_of uploaded))
complete_attachment_answers_example =
    complete_attachment_answers context 30 completion (vault_of uploaded)
