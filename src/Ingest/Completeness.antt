-- ===== src/Ingest/Completeness.antt =====
-- services/backend/app/services/ingest.py, `_merge_completeness`: a join that no browser can top.
use chrome_chatgpt_data.Prelude.{max, ◌≤◌, ◌≡◌, ◌≢◌, arith}
use chrome_chatgpt_data.Enums.{CaptureCompleteness, compliance_verified}
use chrome_chatgpt_data.Ingest.Conversations.{completeness_rank, merge_completeness}

-- Merging a claim never lowers the rank, and never makes a conversation compliance verified that was
-- not; any other claim raises the rank to the greater of the two; a claim that is repeated changes
-- nothing more, and the order in which two claims arrive does not matter.
pub merge_completeness_lem :
    (a b c : CaptureCompleteness)
    → (completeness_rank a ≤ completeness_rank (merge_completeness a b))
      × (merge_completeness a b ≡ compliance_verified → a ≡ compliance_verified)
      × (b ≢ compliance_verified
          → completeness_rank (merge_completeness a b)
            ≡ max (completeness_rank a) (completeness_rank b))
      × (merge_completeness (merge_completeness a b) b ≡ merge_completeness a b)
      × (merge_completeness (merge_completeness a b) c
          ≡ merge_completeness (merge_completeness a c) b)
unfolding merge_completeness
merge_completeness_lem a b c =
    (ground arith, ground arith, ground arith, ground arith, ground arith)
