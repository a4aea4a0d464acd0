-- ===== src/Exports/Run.antt =====
-- services/backend/app/services/exports.py, `run_export`: the parts of an export, and its manifest.
use text.Mathlib.Text.{◌==◌ as str_eq}
use chrome_chatgpt_data.Prelude.{
  ℕ, zero, suc, ◌+◌, String, Bool, true, false, ◌||◌, Option, none, some, List, [], ◌∷◌, ◌++◌,
  if◌then◌else◌, is_some, length, take, drop,
}
use chrome_chatgpt_data.Prelude.Texts.{Text, codes}
use chrome_chatgpt_data.Prelude.Results.{Result, ok, err}
use chrome_chatgpt_data.Enums.{ExportStatus}
use chrome_chatgpt_data.Fingerprint.{Hashing}
use chrome_chatgpt_data.Exif.{Bytes}
use chrome_chatgpt_data.Storage.{
  Objects, Answer, StorageError, write_failed, put_object, export_part_key, export_manifest_key,
}
use chrome_chatgpt_data.Attachments.{Vault}
use chrome_chatgpt_data.Exports.{
  TrainingApproval, Export, ExportPart, ExportRefusal, assert_export_allowed,
  eligible_conversation_ids, split_for_conversation, sort_named,
}
use chrome_chatgpt_data.Exports.Records.{ExportRecord, build_conversation_record}

-- `RECORDS_PER_PART`
abbrev pub records_per_part : ℕ
records_per_part = 5000

-- What the program takes from libraries: hashing, and the bytes of a part and of a manifest.
pub record Encoding : Type 0 where
  pub hashing : Hashing
  pub jsonl_gz : List ExportRecord → Bytes
  pub manifest_json : Export → ℕ → ℕ → List ExportPart → Bytes
  -- the name and the text of the driver's error
  pub driver_error : Text × Text

-- `dict(export.split_ratios or {"train": 1.0})`
abbrev pub ratios_of : List (String × ℕ) → List (String × ℕ)
ratios_of [] = ("train", 1_000_000) ∷ []
ratios_of (r ∷ rs) = r ∷ rs

abbrev pub split_of : Hashing → Export → ℕ → String
split_of h e id =
    if e.by_conversation_hash then split_for_conversation h id (ratios_of e.split_ratios) else "all"

-- `buckets.setdefault(split, []).append(record)`
unfoldable pub add_to_bucket :
    String → ExportRecord → List (String × List ExportRecord) → List (String × List ExportRecord)
add_to_bucket split r [] = (split, r ∷ []) ∷ []
add_to_bucket split r ((name, rs) ∷ rest) =
    let later = add_to_bucket split r rest in
    if str_eq name split then (name, rs ++ r ∷ []) ∷ rest else (name, rs) ∷ later

abbrev pub add_record :
    String
    → Option ExportRecord
    → List (String × List ExportRecord)
    → List (String × List ExportRecord)
add_record split none buckets = buckets
add_record split (some r) buckets = add_to_bucket split (record r { split = split }) buckets

-- The loop over the conversations.
unfoldable pub fill_buckets :
    Hashing
    → Export
    → Vault
    → List ℕ
    → List (String × List ExportRecord)
    → List (String × List ExportRecord)
unfolding add_to_bucket
fill_buckets h e v [] buckets = buckets
fill_buckets h e v (i ∷ is) buckets =
    fill_buckets h e v is
      (add_record (split_of h e i) (build_conversation_record v e.include_attachments i) buckets)

-- `_chunks`: slices of `size` records; each takes one at least, so that the length is fuel enough.
unfoldable pub chunks : ℕ → ℕ → List ExportRecord → List (List ExportRecord)
chunks zero size rs = []
chunks (suc fuel) size [] = []
chunks (suc fuel) size (r ∷ rs) = take size (r ∷ rs) ∷ chunks fuel size (drop size (r ∷ rs))

-- A part with its records.
abbrev pub Written : Type 0
Written = ExportPart × List ExportRecord

abbrev pub part_split : Bool → String → Option Text
part_split true split = some (codes split)
part_split false split = none

unfoldable pub write_part : Encoding → Export → ℕ → String → List ExportRecord → Written
write_part enc e number split rs =
    let body = enc.jsonl_gz rs in
    (
      record {
        number = number;
        split = split;
        s3_key =
            export_part_key (enc.hashing.uuid_text e.id) number
              (part_split e.by_conversation_hash split);
        record_count = length rs;
        byte_size = length body;
        sha256 = enc.hashing.sha256_hex body;
      },
      rs,
    )

-- The parts of one split, numbered on from `number`.
unfoldable pub write_chunks :
    Encoding → Export → ℕ → String → List (List ExportRecord) → List Written
write_chunks enc e number split [] = []
write_chunks enc e number split (c ∷ cs) =
    write_part enc e number split c ∷ write_chunks enc e (number + 1) split cs

unfoldable pub write_splits :
    Encoding → Export → ℕ → List (String × List ExportRecord) → List Written
unfolding write_chunks chunks
write_splits enc e number [] = []
write_splits enc e number ((split, rs) ∷ rest) =
    let parts = write_chunks enc e number split (chunks (length rs) records_per_part rs) in
    parts ++ write_splits enc e (number + length parts) rest

-- All parts of the export with their records.
unfoldable pub written_parts : Encoding → Export → List TrainingApproval → Vault → List Written
unfolding fill_buckets write_splits
written_parts enc e approvals v = write_splits enc e 1 (
    sort_named (
      fill_buckets enc.hashing e v (eligible_conversation_ids e approvals v.archive.conversations)
        []))

-- A write of the store: what follows it, or its failure with the objects as they are.
abbrev pub on_answer :
    Answer
    → (Option String → Option StorageError × Objects)
    → Objects
    → Option StorageError × Objects
on_answer (err e) next objects = (some write_failed, objects)
on_answer (ok version) next objects = next version

-- `put_jsonl_gz` of the parts in their order, by what the store answers for each key.
unfoldable pub put_parts :
    Encoding → (Text → Answer) → List Written → Objects → Option StorageError × Objects
put_parts enc stores [] objects = (none, objects)
put_parts enc stores ((p, rs) ∷ rest) objects =
    on_answer (stores p.s3_key)
      (λ version. put_parts enc stores rest (put_object p.s3_key (enc.jsonl_gz rs) version objects))
      objects

abbrev pub parts_only : List Written → List ExportPart
parts_only [] = []
parts_only ((p, rs) ∷ rest) = p ∷ parts_only rest

abbrev pub total_records : List ExportPart → ℕ
total_records [] = 0
total_records (p ∷ ps) = p.record_count + total_records ps

abbrev pub total_bytes : List ExportPart → ℕ
total_bytes [] = 0
total_bytes (p ∷ ps) = p.byte_size + total_bytes ps

-- What ends an export early: the refusal, the texts of the times that the driver does not take, or a
-- write that the store refuses.
pub data ExportFailure : Type 0 where
  disabled times_refused : ExportFailure
  store_refused : StorageError → ExportFailure

abbrev pub start_export : ℕ → Export → Export
start_export now e = record e { status = ExportStatus.running; started_at = some now }

-- The row, by the answer of the store to the manifest.
abbrev pub complete_export :
    Encoding
    → ℕ
    → Export
    → ℕ
    → List ExportPart
    → Bytes
    → Answer
    → Objects
    → Option ExportFailure × Export × Objects
complete_export enc now e conversation_count parts manifest (err problem) objects =
    (some (store_refused write_failed), e, objects)
complete_export enc now e conversation_count parts manifest (ok version) objects =
    let id_text = enc.hashing.uuid_text e.id in
    (
      none,
      record e {
        status = ExportStatus.completed;
        completed_at = some now;
        conversation_count = conversation_count;
        record_count = total_records parts;
        byte_size = total_bytes parts;
        parts = parts;
        s3_prefix = some (codes "exports/jsonl/" ++ (id_text ++ 47 ∷ []));
        manifest_s3_key = some (export_manifest_key id_text);
        manifest_sha256 = some (enc.hashing.sha256_hex manifest);
      },
      put_object (export_manifest_key id_text) manifest version objects,
    )

-- The manifest, after all parts, and the row.
unfoldable pub finish_export :
    Encoding
    → (Text → Answer)
    → ℕ
    → Export
    → ℕ
    → List ExportPart
    → Objects
    → Option ExportFailure × Export × Objects
finish_export enc stores now e conversation_count parts objects =
    complete_export enc now e conversation_count parts
      (enc.manifest_json e conversation_count (total_records parts) parts)
      (stores (export_manifest_key (enc.hashing.uuid_text e.id))) objects

-- After the writes of the parts.
unfoldable pub manifest_after :
    Encoding
    → (Text → Answer)
    → ℕ
    → Export
    → ℕ
    → List ExportPart
    → Option StorageError × Objects
    → Option ExportFailure × Export × Objects
unfolding finish_export
manifest_after enc stores now e n parts (some problem, objects) =
    (some (store_refused problem), e, objects)
manifest_after enc stores now e n parts (none, objects) =
    finish_export enc stores now e n parts objects

-- The texts of the times reach the driver, which takes no text for a time.
abbrev pub has_times : Export → Bool
has_times e = is_some e.filters.from_time || is_some e.filters.to_time

abbrev pub run_allowed :
    Encoding
    → (Text → Answer)
    → ℕ
    → List TrainingApproval
    → Export
    → Vault
    → Result ExportRefusal (Unit {0})
    → Option ExportFailure × Export × Objects
run_allowed enc stores now approvals e v (err refusal) = (some disabled, e, v.objects)
run_allowed enc stores now approvals e v (ok u) =
    let written = written_parts enc e approvals v in
    let done =
      manifest_after enc stores now (start_export now e)
        (length (eligible_conversation_ids e approvals v.archive.conversations))
        (parts_only written) (put_parts enc stores written v.objects) in
    if has_times e then (some times_refused, start_export now e, v.objects) else done

-- `run_export`, by what the store answers for each key: what it raises, if anything, with the row and the
-- objects that it leaves.
unfoldable pub run_export :
    Encoding
    → (Text → Answer)
    → Bool
    → ℕ
    → List TrainingApproval
    → Export
    → Vault
    → Option ExportFailure × Export × Objects
unfolding manifest_after put_parts written_parts
run_export enc stores enabled now approvals e v =
    run_allowed enc stores now approvals e v (assert_export_allowed e.kind enabled)
