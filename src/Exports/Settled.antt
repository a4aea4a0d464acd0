-- ===== src/Exports/Settled.antt =====
-- services/backend/app/workers/handlers.py, `handle_run_export` with services/exports.py, `run_export`: how
-- the job of an export ends.
use chrome_chatgpt_data.Prelude.{
  ℕ, ◌≡◌, ◌⊎◌, refl, inl, inr, Bool, true, false, not, ◌&&◌, ◌||◌, Option, none, some, List, [],
  ◌∷◌, ◌++◌, arith, length, take, map_option, is_some, Bool-cases, ==_refl,
}
use chrome_chatgpt_data.Prelude.Rows.{find, any}
use chrome_chatgpt_data.Prelude.Texts.{Text, codes}
use chrome_chatgpt_data.Prelude.Results.{ok, err, is_ok}
use chrome_chatgpt_data.Enums.{ExportStatus}
use chrome_chatgpt_data.Jobs.{Job, number, code_points}
use chrome_chatgpt_data.Exif.{Bytes}
use chrome_chatgpt_data.Storage.{
  Objects, StoredObject, Answer, get_object, put_object, export_manifest_key,
}
use chrome_chatgpt_data.Prelude.{String}
use chrome_chatgpt_data.Worker.{Outcome, returned, raised}
use chrome_chatgpt_data.Attachments.{Vault}
use chrome_chatgpt_data.Attachments.Finalize.{entry, as_id}
use chrome_chatgpt_data.Attachments.Verified.{bytes_eq_refl}
use chrome_chatgpt_data.Exports.{
  TrainingApproval, Export, ExportPart, is_training, assert_export_allowed,
  eligible_conversation_ids,
}
use chrome_chatgpt_data.Exports.Run.{
  Encoding, ExportFailure, Written, written_parts, parts_only, total_records, on_answer, put_parts,
  manifest_after, complete_export, finish_export, has_times, start_export, run_export,
}
use chrome_chatgpt_data.Exports.Splits.{built}
use chrome_chatgpt_data.Exports.Parts.{total_records_lem}
use chrome_chatgpt_data.Exports.Handle.{
  has_export_id, is_completed, save_export, conclude_export, export_found, export_by_id,
  handle_run_export,
}

-- The job raises this error, and the row `i` is failed and tells it.
abbrev pub IsFailed : ℕ → Text × Text → Outcome → List Export → Type 0
IsFailed i (type, text) o exports =
    (o ≡ raised type text)
    × (e : Export) × (find (has_export_id i) exports ≡ some e)
    × (e.status ≡ ExportStatus.failed)
    × (e.error_summary ≡ some (take 2000 (type ++ codes ": " ++ text)))

-- The row `i` is completed, with these parts, numbers of conversations and of records, and a manifest
-- that is stored; and the job returns the numbers.
abbrev pub IsFinished :
    Encoding → ℕ → List ExportPart → ℕ → ℕ → Outcome → List Export → Objects → Type 0
IsFinished enc i parts conversations records o exports objects =
    (e : Export) × (find (has_export_id i) exports ≡ some e)
    × (e.status ≡ ExportStatus.completed)
    × (e.parts ≡ parts)
    × (e.conversation_count ≡ conversations)
    × (e.record_count ≡ records)
    × (key : Text) × (e.manifest_s3_key ≡ some key)
    × (manifest : Bytes) × (map_option (λ (s : StoredObject). s.bytes) (get_object key objects)
        ≡ some manifest)
    × (e.manifest_sha256 ≡ some (enc.hashing.sha256_hex manifest))
    × (o
        ≡ returned (
            ("conversation_count", number conversations)
            ∷ ("record_count", number records)
            ∷ ("manifest_s3_key", code_points key)
            ∷ []))

-- The keys of the parts and of the manifest.
abbrev pub keys_of : Encoding → Export → List ExportPart → List Text
keys_of enc e [] = export_manifest_key (enc.hashing.uuid_text e.id) ∷ []
keys_of enc e (p ∷ ps) = p.s3_key ∷ keys_of enc e ps

abbrev pub refuses : (Text → Answer) → Text → Bool
refuses stores key = not (is_ok (stores key))

find-save :
    (e' : Export) (exports : List Export) (e : Export)
    → find (has_export_id e'.id) exports ≡ some e
    → find (has_export_id e'.id) (save_export e' exports) ≡ some e'
find-save e' [] e h = ground arith
find-save e' (x ∷ xs) e h = ground (arith, ==_refl e'.id, find-save e' xs e)

conclude_export-frame :
    (enc : Encoding) (r : Option ExportFailure × Export × Objects) (exports : List Export)
    (v : Vault)
    → let (o, exports', v') = conclude_export enc r exports v in
      record v' { objects = v.objects } ≡ v
unfolding conclude_export
conclude_export-frame enc (none, e, objects) exports v = refl
conclude_export-frame enc (some f, e, objects) exports v = refl

module _ (enc : Encoding) (stores : Text → Answer) (now : ℕ) (e : Export) (exports : List Export)
    (v : Vault) (stored : find (has_export_id e.id) exports ≡ some e) (n : ℕ)
    (parts : List ExportPart) where
  -- The end of the export, as the store takes the writes that are left.
  abbrev Ends : Bool → Option ExportFailure × Export × Objects → Type 0
  Ends refused r =
      let (o, exports', v') = conclude_export enc r exports v in
      ((refused ≡ true)
        × IsFailed e.id (codes "UpstreamError", codes "Object storage write failed") o exports')
      ⊎ ((refused ≡ false)
          × IsFinished enc e.id parts n (total_records parts) o exports' v'.objects)

  finish_export-Ends :
      (objects : Objects)
      → Ends
          (refuses stores (export_manifest_key (enc.hashing.uuid_text e.id)))
          (finish_export enc stores now (start_export now e) n parts objects)
  unfolding finish_export conclude_export
  finish_export-Ends objects = by_answer (stores (export_manifest_key (enc.hashing.uuid_text e.id)))
    where
      by_answer :
          (answer : Answer)
          → Ends (not (is_ok answer)) (
              complete_export enc now
                (start_export now e)
                n
                parts
                (enc.manifest_json (start_export now e) n (total_records parts) parts)
                answer
                objects)
      by_answer (err problem) = inl (refl, (refl, _, find-save _ exports e stored, refl, refl))
      by_answer (ok version) = inr (
        refl,
        (
          _,
          find-save _ exports e stored,
          refl,
          refl,
          refl,
          refl,
          _,
          refl,
          _,
          rw (bytes_eq_refl (export_manifest_key (enc.hashing.uuid_text e.id))) refl,
          refl,
          refl,
        ),
      )

  put_parts-Ends :
      (ws : List Written) (objects : Objects)
      → Ends (any (refuses stores) (keys_of enc e (parts_only ws))) (
          manifest_after enc stores now
            (start_export now e)
            n
            parts
            (put_parts enc stores ws objects))
  unfolding put_parts manifest_after conclude_export
  put_parts-Ends [] objects = widen (finish_export-Ends objects)
    where
      widen :
          Ends
            (refuses stores (export_manifest_key (enc.hashing.uuid_text e.id)))
            (finish_export enc stores now (start_export now e) n parts objects)
          → Ends
              (refuses stores (export_manifest_key (enc.hashing.uuid_text e.id)) || false)
              (finish_export enc stores now (start_export now e) n parts objects)
      widen (inl (refused, failed)) = inl (ground arith, failed)
      widen (inr (taken, finished)) = inr (ground arith, finished)
  put_parts-Ends ((p, rs) ∷ ws) objects =
      by_answer (stores p.s3_key)
        (λ version. put_parts-Ends ws (put_object p.s3_key (enc.jsonl_gz rs) version objects))
    where
      by_answer :
          (answer : Answer)
          → ((version : Option String)
              → Ends (any (refuses stores) (keys_of enc e (parts_only ws))) (
                  manifest_after enc stores now (start_export now e) n parts (
                    put_parts enc stores ws
                      (put_object p.s3_key (enc.jsonl_gz rs) version objects))))
          → Ends (not (is_ok answer) || any (refuses stores) (keys_of enc e (parts_only ws))) (
              manifest_after enc stores now (start_export now e) n parts (
                on_answer answer
                  (λ version.
                    put_parts enc stores ws (put_object p.s3_key (enc.jsonl_gz rs) version objects))
                  objects))
      by_answer (err problem) rest = inl (refl, (refl, _, find-save _ exports e stored, refl, refl))
      by_answer (ok version) rest = rest version

-- The job of a stored export that is not completed ends in one of four ways. A training export is
-- refused where these are disabled; one with a time in its filters fails in the driver; in both cases
-- nothing is written to the object store. Else, if the store refuses the key of a part or of the manifest,
-- it fails with UpstreamError. Each of these raises the error and leaves the row failed, with its text.
-- If the store takes them all, the row is completed with the written parts, the number of the eligible
-- conversations and that of the records built for them, and its manifest is stored under the digest
-- that it states. The archive, the attachments and their links do not change.
pub handle_run_export_settles :
    (enc : Encoding) (stores : Text → Answer) (enabled : Bool) (now : ℕ)
    (approvals : List TrainingApproval) (job : Job) (e : Export) (exports : List Export) (v : Vault)
    → as_id (entry "export_id" job.payload) ≡ some e.id
    → find (has_export_id e.id) exports ≡ some e
    → is_completed e.status ≡ false
    → let (o, exports', v') = handle_run_export enc stores enabled now approvals job exports v in
      let ids = eligible_conversation_ids e approvals v.archive.conversations in
      let parts = parts_only (written_parts enc e approvals v) in
      let disabled = is_training e.kind && not enabled in
      let timed = is_some e.filters.from_time || is_some e.filters.to_time in
      let refused = any (refuses stores) (keys_of enc e parts) in
      (record v' { objects = v.objects } ≡ v)
      × (((disabled ≡ true)
            × (v'.objects ≡ v.objects)
            × IsFailed e.id
                (
                  codes "PolicyError",
                  codes "Curated training export is disabled (TRAINING_EXPORT_ENABLED=false)",
                )
                o
                exports')
          ⊎ (((disabled ≡ false)
                × (timed ≡ true)
                × (v'.objects ≡ v.objects)
                × IsFailed e.id enc.driver_error o exports')
              ⊎ (((disabled ≡ false)
                    × (timed ≡ false)
                    × (refused ≡ true)
                    × IsFailed e.id
                        (codes "UpstreamError", codes "Object storage write failed")
                        o
                        exports')
                  ⊎ ((disabled ≡ false)
                      × (timed ≡ false)
                      × (refused ≡ false)
                      × IsFinished enc e.id parts
                          (length ids)
                          (length (built enc.hashing e v ids))
                          o
                          exports'
                          v'.objects))))
unfolding handle_run_export export_by_id export_found conclude_export run_export
    assert_export_allowed
handle_run_export_settles enc stores enabled now approvals job e exports v named stored unfinished =
    let ids = eligible_conversation_ids e approvals v.archive.conversations in
    let parts = parts_only (written_parts enc e approvals v) in
    rw named (
      rw stored (
        rw unfinished (elim (Bool-cases (is_training e.kind && not enabled)) [
          | inl t ↦
              rw t (refl, inl (refl, refl, (refl, _, find-save _ exports e stored, refl, refl)))
          | inr f ↦ rw f (elim (Bool-cases (has_times e)) [
            | inl t ↦ rw t (
              refl,
              inr (inl (refl, refl, refl, (refl, _, find-save _ exports e stored, refl, refl))),
            )
            | inr k ↦ rw k (
              conclude_export-frame enc
                  (manifest_after enc stores now (start_export now e) (length ids) parts
                    (put_parts enc stores (written_parts enc e approvals v) v.objects))
                  exports v,
              elim (put_parts-Ends enc stores now e exports v stored (length ids) parts
                  (written_parts enc e approvals v) v.objects) [
                    | inl (refused, failed) ↦ inr (inr (inl (refl, refl, refused, failed)))
                    | inr (taken, finished) ↦ inr (
                        inr (
                          inr (
                            refl,
                            refl,
                            taken,
                            rw (← total_records_lem enc e approvals v) finished,
                          )))
                  ],
            )
          ])
        ])))
