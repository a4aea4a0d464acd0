-- ===== src/Exports/Handle.antt =====
-- services/backend/app/workers/handlers.py, `handle_run_export`: the job of an export.
use chrome_chatgpt_data.Prelude.{
  ℕ, Bool, true, false, ◌==◌, Option, none, some, List, [], ◌∷◌, ◌++◌, if◌then◌else◌, take,
}
use chrome_chatgpt_data.Prelude.Rows.{find, update}
use chrome_chatgpt_data.Prelude.Texts.{Text, codes}
use chrome_chatgpt_data.Enums.{ExportStatus}
use chrome_chatgpt_data.Jobs.{Job, Scalar, null, flag, number, plain_text, code_points}
use chrome_chatgpt_data.Storage.{Objects, Answer}
use chrome_chatgpt_data.Worker.{Outcome, returned, non_retryable, raised}
use chrome_chatgpt_data.Attachments.{Vault}
use chrome_chatgpt_data.Attachments.Finalize.{entry, as_id, storage_text}
use chrome_chatgpt_data.Exports.{TrainingApproval, Export}
use chrome_chatgpt_data.Exports.Run.{
  Encoding, ExportFailure, disabled, times_refused, store_refused, run_export,
}

abbrev pub has_export_id : ℕ → Export → Bool
has_export_id i e = e.id == i

abbrev pub is_completed : ExportStatus → Bool
is_completed ExportStatus.completed = true
is_completed _ = false

-- The type and the text of what `run_export` raises.
abbrev pub failure_of : Encoding → ExportFailure → Text × Text
failure_of enc disabled = (
  codes "PolicyError",
  codes "Curated training export is disabled (TRAINING_EXPORT_ENABLED=false)",
)
failure_of enc times_refused = enc.driver_error
failure_of enc (store_refused e) = (codes "UpstreamError", storage_text e)

abbrev pub fail_export : Text × Text → Export → Export
fail_export (type, text) e = record e {
  status = ExportStatus.failed;
  error_summary = some (take 2000 (type ++ codes ": " ++ text));
}

abbrev pub key_or_null : Option Text → Scalar
key_or_null none = null
key_or_null (some key) = code_points key

abbrev pub save_export : Export → List Export → List Export
save_export e = update (has_export_id e.id) (λ old. e)

-- The result, or the mark of the failure, which is raised again. The driver refuses the texts of the
-- times before it sends anything, so that the session goes on.
unfoldable pub conclude_export :
    Encoding
    → Option ExportFailure × Export × Objects
    → List Export
    → Vault
    → Outcome × List Export × Vault
conclude_export enc (none, e, objects) exports v = (
  returned (
      ("conversation_count", number e.conversation_count)
      ∷ ("record_count", number e.record_count)
      ∷ ("manifest_s3_key", key_or_null e.manifest_s3_key)
      ∷ []),
  save_export e exports,
  record v { objects = objects },
)
conclude_export enc (some f, e, objects) exports v = (
  raised (failure_of enc f).0 (failure_of enc f).1,
  save_export (fail_export (failure_of enc f) e) exports,
  record v { objects = objects },
)

module _ (enc : Encoding) (stores : Text → Answer) (enabled : Bool) (now : ℕ)
    (approvals : List TrainingApproval) where
  unfoldable pub export_found : Option Export → List Export → Vault → Outcome × List Export × Vault
  unfolding conclude_export run_export
  export_found none exports v = (non_retryable (codes "export no longer exists"), exports, v)
  export_found (some e) exports v =
      let done = conclude_export enc (run_export enc stores enabled now approvals e v) exports v in
      if is_completed e.status
      then (
        returned (("skipped", flag true) ∷ ("reason", plain_text "already_completed") ∷ []),
        exports,
        v,
      )
      else done

  unfoldable pub export_by_id : Option ℕ → List Export → Vault → Outcome × List Export × Vault
  unfolding export_found
  export_by_id none exports v = (non_retryable (codes "export_id missing or malformed"), exports, v)
  export_by_id (some i) exports v = export_found (find (has_export_id i) exports) exports v

  unfoldable pub handle_run_export : Job → List Export → Vault → Outcome × List Export × Vault
  unfolding export_by_id
  handle_run_export job exports v = export_by_id (as_id (entry "export_id" job.payload)) exports v
