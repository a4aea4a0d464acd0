-- ===== src/Exports/Parts.antt =====
-- services/backend/app/services/exports.py, `_chunks` and the parts of `run_export`: what the parts hold.
use chrome_chatgpt_data.Prelude.{
  ℕ, zero, suc, ◌+◌, ◌≤◌, ◌≡◌, refl, ap, ◌∙◌, String, Bool, true, List, [], ◌∷◌, ◌++◌, length, take,
  drop, length-append, length-take, length-drop, take-append-drop, All, All-append, All-take,
  All-drop, arith,
}
use mathlib.Core.Path.{subst}
use chrome_chatgpt_data.Prelude.Rows.{count, count-append}
use chrome_chatgpt_data.Fingerprint.{Hashing}
use chrome_chatgpt_data.Attachments.{Vault}
use chrome_chatgpt_data.Exports.{TrainingApproval, Export, sort_named, eligible_conversation_ids}
use chrome_chatgpt_data.Exports.Records.{ExportRecord}
use chrome_chatgpt_data.Exports.Run.{
  records_per_part, Encoding, chunks, Written, write_part, write_chunks, write_splits,
  written_parts, fill_buckets, parts_only, total_records,
}
use chrome_chatgpt_data.Exports.Splits.{
  flat, built, IsPlaced, IsSorted, fill_buckets-IsSorted, sort_named-All, count-fill_buckets,
  count-sort_named,
}

-- The parts are numbered one after the other.
abbrev pub IsNumbered : ℕ → List Written → Type 0
IsNumbered n [] = Unit
IsNumbered n ((p, rs) ∷ ws) = (p.number ≡ n) × IsNumbered (n + 1) ws

-- A part states how many records it holds, holds one to 5000 and those of one split only.
abbrev pub IsPart : Hashing → Export → Written → Type 0
IsPart h e (p, rs) =
    (p.record_count ≡ length rs)
    × (1 ≤ length rs)
    × (length rs ≤ records_per_part)
    × All (IsPlaced h e p.split) rs

abbrev pub records_in : List Written → List ExportRecord
records_in [] = []
records_in ((p, rs) ∷ ws) = rs ++ records_in ws

abbrev joined : List (List ExportRecord) → List ExportRecord
joined [] = []
joined (c ∷ cs) = c ++ joined cs

-- A slice of one to `size` records, all of which are `P`.
abbrev IsChunk : (ExportRecord → Type 0) → ℕ → List ExportRecord → Type 0
IsChunk P size c = (1 ≤ length c) × (length c ≤ size) × All P c

module _ (P : ExportRecord → Type 0) (size : ℕ) (positive : 1 ≤ size) where
  chunks-IsChunk :
      (fuel : ℕ) (rs : List ExportRecord) → All P rs → All (IsChunk P size) (chunks fuel size rs)
  unfolding chunks
  chunks-IsChunk zero rs h = tt
  chunks-IsChunk (suc fuel) [] h = tt
  chunks-IsChunk (suc fuel) (r ∷ rs) h = (
    (
      omega (arith, length-take size (r ∷ rs)),
      omega (arith, length-take size (r ∷ rs)),
      All-take P size (r ∷ rs) h,
    ),
    chunks-IsChunk fuel (drop size (r ∷ rs)) (All-drop P size (r ∷ rs) h),
  )

-- With as much fuel as records, the slices are the whole list in its order.
joined-chunks :
    (size : ℕ)
    → 1 ≤ size
    → (fuel : ℕ) (rs : List ExportRecord) → length rs ≤ fuel
    → joined (chunks fuel size rs) ≡ rs
unfolding chunks
joined-chunks size positive zero [] h = refl
joined-chunks size positive zero (r ∷ rs) h = ground arith
joined-chunks size positive (suc fuel) [] h = refl
joined-chunks size positive (suc fuel) (r ∷ rs) h =
    ap (λ rest. take size (r ∷ rs) ++ rest)
      (joined-chunks size positive fuel (drop size (r ∷ rs))
        (omega (arith, length-drop size (r ∷ rs))))
    ∙ take-append-drop size (r ∷ rs)

IsNumbered-append :
    (n : ℕ) (us ws : List Written)
    → IsNumbered n us
    → IsNumbered (n + length us) ws
    → IsNumbered n (us ++ ws)
IsNumbered-append n [] ws hu hw = subst (λ m. IsNumbered m ws) (omega arith) hw
IsNumbered-append n ((p, rs) ∷ us) ws hu hw =
    (hu.0, IsNumbered-append (n + 1) us ws hu.1 (subst (λ m. IsNumbered m ws) (omega arith) hw))

module _ (enc : Encoding) (e : Export) where
  write_chunks-IsNumbered :
      (n : ℕ) (split : String) (cs : List (List ExportRecord))
      → IsNumbered n (write_chunks enc e n split cs)
  unfolding write_chunks write_part
  write_chunks-IsNumbered n split [] = tt
  write_chunks-IsNumbered n split (c ∷ cs) = (refl, write_chunks-IsNumbered (n + 1) split cs)

  write_splits-IsNumbered :
      (n : ℕ) (bs : List (String × List ExportRecord)) → IsNumbered n (write_splits enc e n bs)
  unfolding write_splits
  write_splits-IsNumbered n [] = tt
  write_splits-IsNumbered n ((split, rs) ∷ rest) =
      let parts = write_chunks enc e n split (chunks (length rs) records_per_part rs) in
      IsNumbered-append n parts (write_splits enc e (n + length parts) rest)
        (write_chunks-IsNumbered n split (chunks (length rs) records_per_part rs))
        (write_splits-IsNumbered (n + length parts) rest)

  write_chunks-IsPart :
      (n : ℕ) (split : String) (cs : List (List ExportRecord))
      → All (IsChunk (IsPlaced enc.hashing e split) records_per_part) cs
      → All (IsPart enc.hashing e) (write_chunks enc e n split cs)
  unfolding write_chunks write_part
  write_chunks-IsPart n split [] h = tt
  write_chunks-IsPart n split (c ∷ cs) h =
      ((refl, h.0.0, h.0.1, h.0.2), write_chunks-IsPart (n + 1) split cs h.1)

  write_splits-IsPart :
      (n : ℕ) (bs : List (String × List ExportRecord))
      → All (IsSorted enc.hashing e) bs
      → All (IsPart enc.hashing e) (write_splits enc e n bs)
  unfolding write_splits
  write_splits-IsPart n [] h = tt
  write_splits-IsPart n ((split, rs) ∷ rest) h =
      let cs = chunks (length rs) records_per_part rs in
      let parts = write_chunks enc e n split cs in
      All-append (IsPart enc.hashing e) parts (write_splits enc e (n + length parts) rest)
        (write_chunks-IsPart n split cs (
          chunks-IsChunk (IsPlaced enc.hashing e split) records_per_part (omega arith) (length rs)
            rs h.0))
        (write_splits-IsPart (n + length parts) rest h.1)

  records_in-write_chunks :
      (n : ℕ) (split : String) (cs : List (List ExportRecord))
      → records_in (write_chunks enc e n split cs) ≡ joined cs
  unfolding write_chunks write_part
  records_in-write_chunks n split [] = refl
  records_in-write_chunks n split (c ∷ cs) =
      ap (λ rest. c ++ rest) (records_in-write_chunks (n + 1) split cs)

  module _ (p : ExportRecord → Bool) where
    count-records_in :
        (us ws : List Written)
        → count p (records_in (us ++ ws)) ≡ count p (records_in us) + count p (records_in ws)
    count-records_in [] ws = omega arith
    count-records_in ((q, rs) ∷ us) ws = omega (
      arith,
      count-append p rs (records_in (us ++ ws)),
      count-append p rs (records_in us),
      count-records_in us ws,
    )

    count-write_splits :
        (n : ℕ) (bs : List (String × List ExportRecord))
        → count p (records_in (write_splits enc e n bs)) ≡ count p (flat bs)
    unfolding write_splits
    count-write_splits n [] = refl
    count-write_splits n ((split, rs) ∷ rest) =
        let cs = chunks (length rs) records_per_part rs in
        let parts = write_chunks enc e n split cs in
        let whole =
          records_in-write_chunks n split cs
          ∙ joined-chunks records_per_part (omega arith) (length rs) rs (omega arith) in
        omega (
          arith,
          count-records_in parts (write_splits enc e (n + length parts) rest),
          ap (count p) whole,
          count-append p rs (flat rest),
          count-write_splits (n + length parts) rest,
        )

  -- The parts of an export are numbered 1, 2, 3 and so on. Each holds between one record and 5000,
  -- states how many, and holds only records of its own split, which is the split that the hash of their
  -- conversation's identifier gives ("all" where the export is not split): so no conversation stands in
  -- two splits. And any test of records passes as often in the parts as among the records built for the
  -- eligible conversations: none is lost and none is written twice.
  pub written_parts_lem :
      (approvals : List TrainingApproval) (v : Vault)
      → let written = written_parts enc e approvals v in
        let ids = eligible_conversation_ids e approvals v.archive.conversations in
        IsNumbered 1 written
        × All (IsPart enc.hashing e) written
        × ((p : ExportRecord → Bool)
            → count p (records_in written) ≡ count p (built enc.hashing e v ids))
  unfolding written_parts
  written_parts_lem approvals v =
      let ids = eligible_conversation_ids e approvals v.archive.conversations in
      let buckets = fill_buckets enc.hashing e v ids [] in
      (
        write_splits-IsNumbered 1 (sort_named buckets),
        write_splits-IsPart 1 (sort_named buckets) (
            sort_named-All (IsSorted enc.hashing e) buckets
              (fill_buckets-IsSorted enc.hashing e v ids [] tt)),
        λ p. omega (
          arith,
          count-write_splits p 1 (sort_named buckets),
          count-sort_named p buckets,
          count-fill_buckets p enc.hashing e v ids [],
        ),
      )

  unit_count : (rs : List ExportRecord) → count (λ r. true) rs ≡ length rs
  unit_count [] = refl
  unit_count (r ∷ rs) = omega (arith, unit_count rs)

  total_records-parts_only :
      (ws : List Written)
      → All (IsPart enc.hashing e) ws
      → total_records (parts_only ws) ≡ length (records_in ws)
  total_records-parts_only [] h = refl
  total_records-parts_only ((p, rs) ∷ ws) h =
      omega (arith, length-append rs (records_in ws), total_records-parts_only ws h.1, h.0.0)

  -- The parts state as many records as were built for the conversations.
  pub total_records_lem :
      (approvals : List TrainingApproval) (v : Vault)
      → total_records (parts_only (written_parts enc e approvals v))
        ≡ length
            (built enc.hashing e v (eligible_conversation_ids e approvals v.archive.conversations))
  total_records_lem approvals v =
      let ids = eligible_conversation_ids e approvals v.archive.conversations in
      let written = written_parts enc e approvals v in
      let (numbered, sound, whole) = written_parts_lem approvals v in
      omega (
        arith,
        total_records-parts_only written sound,
        unit_count (records_in written),
        unit_count (built enc.hashing e v ids),
        whole (λ r. true),
      )
