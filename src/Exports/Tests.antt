-- ===== src/Exports/Tests.antt =====
-- Runs of services/backend/app/services/exports.py, and the theorems about it at concrete inputs.
use chrome_chatgpt_data.Prelude.{
  ℕ, ◌+◌, ◌≡◌, ◌⊎◌, refl, String, Bool, true, false, not, ◌&&◌, ◌||◌, map, is_some, none, some,
  List, [], ◌∷◌, leb, length, All, if◌then◌else◌,
}
use chrome_chatgpt_data.Prelude.Rows.{any, count}
use chrome_chatgpt_data.Prelude.Sorting.{sort_by}
use chrome_chatgpt_data.Prelude.Texts.{Text, codes}
use chrome_chatgpt_data.Prelude.Results.{ok}
use chrome_chatgpt_data.Enums.{
  JobKind, user, assistant, ApprovalStatus, ExportStatus, curated_training_jsonl,
}
use chrome_chatgpt_data.Jobs.{Job, id_text}
use chrome_chatgpt_data.Storage.{Answer}
use chrome_chatgpt_data.Archive.{empty_store}
use chrome_chatgpt_data.Attachments.{Vault}
use chrome_chatgpt_data.Samples.{chat, message, version, job_of}
use chrome_chatgpt_data.Exports.{
  TrainingApproval, Export, is_eligible, is_training, member, assert_export_allowed,
  eligible_conversation_ids, split_for_conversation,
}
use chrome_chatgpt_data.Exports.Records.{ExportRecord, build_conversation_record}
use chrome_chatgpt_data.Exports.Run.{Encoding, written_parts, parts_only}
use chrome_chatgpt_data.Exports.Eligible.{IsExportable, eligible_conversation_ids_lem}
use chrome_chatgpt_data.Exports.Splits.{built}
use chrome_chatgpt_data.Exports.Parts.{IsNumbered, IsPart, records_in, written_parts_lem}
use chrome_chatgpt_data.Exports.Handle.{handle_run_export}
use chrome_chatgpt_data.Exports.Settled.{
  IsFailed, IsFinished, keys_of, refuses, handle_run_export_settles,
}

-- A digest that puts the conversation 1 first and all others last.
abbrev digest : Text → String
digest [] = "00000000"
digest (c ∷ cs) = if leb c 49 then "00000000" else "ffffffff"

abbrev encoding : Encoding
encoding = record {
  hashing = record {
    sha256_hex = digest;
    nfkc = λ t. t;
    casefold = λ t. t;
    uuid_text = λ n. (n + 48) ∷ [];
  };
  jsonl_gz = λ rs. 31 ∷ 139 ∷ [];
  manifest_json = λ e conversations records parts. 123 ∷ 125 ∷ [];
  driver_error = (codes "DataError", codes "str");
}

-- Three conversations, of which 3 is under a hold; the answer stands before its question in the table.
abbrev vault : Vault
vault = record {
  archive = record empty_store {
    conversations = chat 2 ∷ record (chat 3) { legal_hold = true } ∷ chat 1 ∷ [];
    messages = message 8 assistant 1 ∷ message 7 user 0 ∷ [];
    versions = version 7 "q" ∷ version 8 "a" ∷ [];
  };
  attachments = [];
  links = [];
  objects = [];
}

abbrev approval : ℕ → TrainingApproval
approval i = record {
  organization_id = 3;
  conversation_id = i;
  message_id = none;
  status = ApprovalStatus.approved;
  contains_secrets = false;
}

abbrev approvals : List TrainingApproval
approvals = approval 1 ∷ approval 2 ∷ approval 3 ∷ []

abbrev training : Export
training = record {
  id = 4;
  organization_id = 3;
  kind = curated_training_jsonl;
  status = ExportStatus.pending;
  filters = record { conversation_ids = []; workspace_id = none; from_time = none; to_time = none };
  by_conversation_hash = true;
  split_ratios = ("train", 800_000) ∷ ("validation", 100_000) ∷ ("test", 100_000) ∷ [];
  include_attachments = false;
  conversation_count = 0;
  record_count = 0;
  byte_size = 0;
  s3_prefix = none;
  manifest_s3_key = none;
  manifest_sha256 = none;
  parts = [];
  started_at = none;
  completed_at = none;
  error_summary = none;
}

ids : eligible_conversation_ids training approvals vault.archive.conversations ≡ 1 ∷ 2 ∷ []
unfolding eligible_conversation_ids is_eligible sort_by
ids = refl

-- The names are tried in the order "test", "train", "validation".
splits :
    (split_for_conversation encoding.hashing 1 training.split_ratios ≡ "test")
    × (split_for_conversation encoding.hashing 2 training.split_ratios ≡ "validation")
unfolding split_for_conversation
splits = (refl, refl)

pair_of_first :
    (r : ExportRecord) × (build_conversation_record vault false 1 ≡ some r)
    × (r.pairs ≡ (codes "q", codes "a") ∷ [])
unfolding build_conversation_record sort_by
pair_of_first = (_, refl, refl)

eligible_conversation_ids_lem_example :
    let found = eligible_conversation_ids training approvals vault.archive.conversations in
    All (IsExportable training approvals vault.archive.conversations) found
    × All
        (λ c. is_eligible training approvals c ≡ true → member c.id found ≡ true)
        vault.archive.conversations
eligible_conversation_ids_lem_example =
    eligible_conversation_ids_lem training approvals vault.archive.conversations

written_parts_lem_example :
    let written = written_parts encoding training approvals vault in
    let found = eligible_conversation_ids training approvals vault.archive.conversations in
    IsNumbered 1 written
    × All (IsPart encoding.hashing training) written
    × ((p : ExportRecord → Bool)
        → count p (records_in written) ≡ count p (built encoding.hashing training vault found))
written_parts_lem_example = written_parts_lem encoding training approvals vault

abbrev exporting : Job
exporting = job_of JobKind.run_export (("export_id", id_text 4) ∷ [])

abbrev takes : Text → Answer
takes key = ok none

-- A filter by time fails, and the row tells the error of the driver.
failed_by_time :
    let timed = record training { filters = record training.filters { from_time = some 1 } } in
    let (o, exports, v') =
      handle_run_export encoding takes true 9 approvals exporting (timed ∷ []) vault in
    map (λ e. e.error_summary) exports ≡ some (codes "DataError: str") ∷ []
unfolding handle_run_export assert_export_allowed
failed_by_time = refl

handle_run_export_settles_example :
    let (o, exports', v') =
      handle_run_export encoding takes true 9 approvals exporting (training ∷ []) vault in
    let found = eligible_conversation_ids training approvals vault.archive.conversations in
    let parts = parts_only (written_parts encoding training approvals vault) in
    let disabled = is_training training.kind && not true in
    let timed = is_some training.filters.from_time || is_some training.filters.to_time in
    let refused = any (refuses takes) (keys_of encoding training parts) in
    (record v' { objects = vault.objects } ≡ vault)
    × (((disabled ≡ true)
          × (v'.objects ≡ vault.objects)
          × IsFailed 4
              (
                codes "PolicyError",
                codes "Curated training export is disabled (TRAINING_EXPORT_ENABLED=false)",
              )
              o
              exports')
        ⊎ (((disabled ≡ false)
              × (timed ≡ true)
              × (v'.objects ≡ vault.objects)
              × IsFailed 4 encoding.driver_error o exports')
            ⊎ (((disabled ≡ false)
                  × (timed ≡ false)
                  × (refused ≡ true)
                  × IsFailed 4
                      (codes "UpstreamError", codes "Object storage write failed")
                      o
                      exports')
                ⊎ ((disabled ≡ false)
                    × (timed ≡ false)
                    × (refused ≡ false)
                    × IsFinished encoding 4 parts
                        (length found)
                        (length (built encoding.hashing training vault found))
                        o
                        exports'
                        v'.objects))))
handle_run_export_settles_example =
    handle_run_export_settles encoding takes true 9 approvals exporting training (training ∷ [])
      vault refl refl refl
