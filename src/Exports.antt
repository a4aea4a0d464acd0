-- ===== src/Exports.antt =====
-- services/backend/app/services/exports.py, with the rows of models/governance.py: which conversations an
-- export may hold. A share of a split is a number of parts of `ratio_unit`.
pub mod Records
pub mod Run
pub mod Eligible
pub mod Splits
pub mod Parts
pub mod Handle
pub mod Settled
mod Tests
use chrome_chatgpt_data.Prelude.{
  ℕ, zero, suc, ◌+◌, ◌*◌, ◌-◌, ◌≤◌, String, Bool, true, false, not, ◌&&◌, ◌||◌, Option, none, some,
  List, [], ◌∷◌, ◌++◌, map, ltb, leb, ◌==◌, if◌then◌else◌, is_some, take,
}
use chrome_chatgpt_data.Prelude.Rows.{select, any}
use chrome_chatgpt_data.Prelude.Sorting.{sort_by, ascending}
use chrome_chatgpt_data.Prelude.Texts.{Text, codes}
use chrome_chatgpt_data.Prelude.Results.{Result, guard}
use chrome_chatgpt_data.Enums.{
  ExportKind, curated_training_jsonl, compliance_extract, legal_hold_bundle, ExportStatus,
  ApprovalStatus, CaptureCompleteness, complete_current_page, compliance_verified,
}
use chrome_chatgpt_data.Fingerprint.{Hashing}
use chrome_chatgpt_data.Archive.{Conversation}

pub record TrainingApproval : Type 0 where
  pub organization_id : ℕ
  pub conversation_id : ℕ
  pub message_id : Option ℕ
  pub status : ApprovalStatus
  pub contains_secrets : Bool

-- `filters`; an empty list and None are no filter.
pub record ExportFilters : Type 0 where
  pub conversation_ids : List ℕ
  pub workspace_id : Option ℕ
  pub from_time : Option ℕ
  pub to_time : Option ℕ

-- A part of an export: its number, its split, its object's key, its records and the object's size.
pub record ExportPart : Type 0 where
  pub number : ℕ
  pub split : String
  pub s3_key : Text
  pub record_count : ℕ
  pub byte_size : ℕ
  pub sha256 : String

pub record Export : Type 0 where
  pub id : ℕ
  pub organization_id : ℕ
  pub kind : ExportKind
  pub status : ExportStatus
  pub filters : ExportFilters
  pub by_conversation_hash : Bool
  pub split_ratios : List (String × ℕ)
  pub include_attachments : Bool
  pub conversation_count : ℕ
  pub record_count : ℕ
  pub byte_size : ℕ
  pub s3_prefix : Option Text
  pub manifest_s3_key : Option Text
  pub manifest_sha256 : Option String
  pub parts : List ExportPart
  pub started_at : Option ℕ
  pub completed_at : Option ℕ
  pub error_summary : Option Text

abbrev pub is_training : ExportKind → Bool
is_training curated_training_jsonl = true
is_training _ = false

abbrev pub is_hold_bundle : ExportKind → Bool
is_hold_bundle legal_hold_bundle = true
is_hold_bundle _ = false

pub data ExportRefusal : Type 0 where
  training_export_disabled : ExportRefusal

unfoldable pub assert_export_allowed : ExportKind → Bool → Result ExportRefusal (Unit {0})
assert_export_allowed kind enabled =
    guard (not (is_training kind && not enabled)) training_export_disabled

abbrev pub is_approved : ApprovalStatus → Bool
is_approved ApprovalStatus.approved = true
is_approved _ = false

-- The subquery of approvals: a row of the organization that approves the whole conversation.
abbrev pub approves : ℕ → ℕ → TrainingApproval → Bool
approves org conversation_id t =
    t.organization_id == org
    && is_approved t.status
    && not (is_some t.message_id)
    && not t.contains_secrets
    && t.conversation_id == conversation_id

-- `capture_completeness IN ('complete_current_page','reconciled','compliance_verified')`
abbrev pub is_vouched : CaptureCompleteness → Bool
is_vouched complete_current_page = true
is_vouched CaptureCompleteness.reconciled = true
is_vouched compliance_verified = true
is_vouched _ = false

abbrev pub member : ℕ → List ℕ → Bool
member i = any (λ j. j == i)

abbrev pub is_wanted : List ℕ → ℕ → Bool
is_wanted [] i = true
is_wanted (j ∷ js) i = member i (j ∷ js)

abbrev pub at_least : Option ℕ → ℕ → Bool
at_least none t = true
at_least (some from) t = leb from t

abbrev pub at_most : Option ℕ → ℕ → Bool
at_most none t = true
at_most (some to) t = leb t to

abbrev pub in_workspace : Option ℕ → ℕ → Bool
in_workspace none w = true
in_workspace (some i) w = w == i

-- The WHERE clause of `eligible_conversation_ids`.
unfoldable pub is_eligible : Export → List TrainingApproval → Conversation → Bool
is_eligible e approvals c =
    c.organization_id == e.organization_id
    && not (is_some c.deleted_at)
    && (is_hold_bundle e.kind || not c.legal_hold)
    && (not (is_training e.kind)
        || any (approves e.organization_id c.id) approvals && is_vouched c.capture_completeness)
    && is_wanted e.filters.conversation_ids c.id
    && in_workspace e.filters.workspace_id c.workspace_id
    && at_least e.filters.from_time c.created_at
    && at_most e.filters.to_time c.created_at

unfoldable pub eligible_conversation_ids :
    Export → List TrainingApproval → List Conversation → List ℕ
eligible_conversation_ids e approvals conversations =
    sort_by (ascending (λ i. i)) (map (λ c. c.id) (select (is_eligible e approvals) conversations))

-- The order of texts by code points, and `sorted` of names.
pub text_leb : Text → Text → Bool
text_leb [] ds = true
text_leb (c ∷ cs) [] = false
text_leb (c ∷ cs) (d ∷ ds) = ltb c d || c == d && text_leb cs ds

module _ {A : Type 0} where
  pub insert_named : String × A → List (String × A) → List (String × A)
  unfolding text_leb
  insert_named e [] = e ∷ []
  insert_named (n, a) ((m, b) ∷ rest) =
      let tail = insert_named (n, a) rest in
      if text_leb (codes n) (codes m) then (n, a) ∷ (m, b) ∷ rest else (m, b) ∷ tail

  pub sort_named : List (String × A) → List (String × A)
  unfolding insert_named
  sort_named [] = []
  sort_named (e ∷ es) = insert_named e (sort_named es)

-- A share of 1.0.
abbrev pub ratio_unit : ℕ
ratio_unit = 1_000_000

-- `int(…, 16)` of hexadecimal digits in lower case.
abbrev pub hex_digit : ℕ → ℕ
hex_digit c = if leb c 57 then c - 48 else c - 87

pub from_hex : ℕ → Text → ℕ
from_hex n [] = n
from_hex n (c ∷ cs) = from_hex (n * 16 + hex_digit c) cs

-- `int(sha256_hex(str(conversation_id))[:8], 16)`, a bucket out of 0xFFFFFFFF.
unfoldable pub bucket_of : Hashing → ℕ → ℕ
unfolding from_hex
bucket_of h conversation_id =
    from_hex 0 (take 8 (codes (h.sha256_hex (h.uuid_text conversation_id))))

-- `sorted(ratios)[-1]` where no cumulative share exceeds the bucket.
abbrev pub last_name : String → List (String × ℕ) → String
last_name name [] = name
last_name name ((n, r) ∷ rest) = last_name n rest

-- The loop over the sorted names: `bucket / 0xFFFFFFFF < cumulative`.
unfoldable pub pick_split : ℕ → ℕ → String → List (String × ℕ) → String
pick_split bucket cumulative final [] = final
pick_split bucket cumulative final ((name, ratio) ∷ rest) =
    let later = pick_split bucket (cumulative + ratio) final rest in
    if ltb (bucket * ratio_unit) ((cumulative + ratio) * 0xFFFFFFFF) then name else later

unfoldable pub split_sorted : ℕ → List (String × ℕ) → String
unfolding pick_split
split_sorted bucket [] = "train"
split_sorted bucket ((name, ratio) ∷ rest) =
    pick_split bucket 0 (last_name name rest) ((name, ratio) ∷ rest)

unfoldable pub split_for_conversation : Hashing → ℕ → List (String × ℕ) → String
unfolding bucket_of split_sorted sort_named
split_for_conversation h conversation_id ratios =
    split_sorted (bucket_of h conversation_id) (sort_named ratios)
