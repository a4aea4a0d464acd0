-- ===== src/Retention/Tests.antt =====
-- services/backend/app/services/retention.py on three conversations: held, soft-deleted and young.
use chrome_chatgpt_data.Prelude.{
  ℕ, ◌*◌, ◌==◌, ◌≤◌, Bool, true, false, Option, none, some, [], ◌∷◌, ◌≡◌, refl, arith, is_some,
}
use chrome_chatgpt_data.Prelude.Rows.{select, find}
use chrome_chatgpt_data.Prelude.Results.{err}
use chrome_chatgpt_data.Enums.{CaptureCompleteness, hard_delete}
use chrome_chatgpt_data.Archive.{Conversation, Store, empty_store}
use chrome_chatgpt_data.Retention.{
  RetentionPolicy, day, is_target, soft_delete_expired, hard_delete_grace_expired, apply_legal_hold,
  legal_hold_blocks_soft_delete,
}
use chrome_chatgpt_data.Retention.Holds.{has_id, soft, hard, sweep, legal_hold_wins}
use chrome_chatgpt_data.Retention.Grace.{
  IsUntouched, IsKept, IsSpared, deletion_needs_age, IsPlaced, apply_legal_hold_lem,
}

abbrev chat : ℕ → Option ℕ → Bool → Conversation
chat i deleted held = record {
  id = i;
  organization_id = 3;
  workspace_id = 5;
  user_id = none;
  source_conversation_id = "c";
  source_url = none;
  title = none;
  model_slug = none;
  capture_sources = [];
  capture_completeness = CaptureCompleteness.unknown;
  employee_id_hash = none;
  source_created_at = none;
  source_updated_at = none;
  first_captured_at = none;
  last_captured_at = none;
  message_count = 0;
  snapshot_version = 0;
  snapshot_stale = true;
  snapshot_s3_key = none;
  snapshot_sha256 = none;
  upstream_deletion = none;
  created_at = 1;
  deleted_at = deleted;
  deletion_reason = none;
  legal_hold = held;
}

abbrev archive : Store
archive = record empty_store {
  conversations = chat 1 none true ∷ chat 2 (some 7) false ∷ chat 3 none false ∷ [];
}

abbrev purge_policy : RetentionPolicy
purge_policy = record {
  id = 9;
  organization_id = 3;
  name = "short";
  retain_days = 2;
  grace_days = 1;
  action = hard_delete;
  is_default = true;
  is_active = true;
  last_run_at = none;
}

legal_hold_wins_example :
    let st' =
      sweep (soft (3 * day) purge_policy 10 ∷ hard (9 * day) purge_policy 10 ∷ []) archive in
    (find (has_id 1) st'.conversations ≡ some (chat 1 none true))
    × (select (λ m. m.conversation_id == 1) st'.messages
        ≡ select (λ m. m.conversation_id == 1) archive.messages)
    × (select (λ v. v.conversation_id == 1) st'.versions
        ≡ select (λ v. v.conversation_id == 1) archive.versions)
legal_hold_wins_example =
    legal_hold_wins (soft (3 * day) purge_policy 10 ∷ hard (9 * day) purge_policy 10 ∷ []) archive 1
      (chat 1 none true) refl (omega arith) refl

-- The others are soft-deleted and then gone.
swept :
    (sweep
      (soft (3 * day) purge_policy 10 ∷ hard (9 * day) purge_policy 10 ∷ [])
      archive).conversations
    ≡ chat 1 none true ∷ []
unfolding soft_delete_expired hard_delete_grace_expired
swept = refl

deletion_needs_age_example :
    let soft = soft_delete_expired (1 * day) purge_policy 10 archive in
    let hard = hard_delete_grace_expired (1 * day) purge_policy 10 archive in
    (IsKept (1 * day) purge_policy (chat 2 (some 7) false)
      → IsUntouched 2 (chat 2 (some 7) false) archive soft.2)
    × (IsSpared (1 * day) purge_policy (chat 2 (some 7) false)
        → IsUntouched 2 (chat 2 (some 7) false) archive hard.1)
    × (soft.0 ≤ 10)
    × (hard.0 ≤ 10)
deletion_needs_age_example =
    deletion_needs_age (1 * day) purge_policy 10 archive 2 (chat 2 (some 7) false) refl
      (omega arith)

apply_legal_hold_lem_example :
    IsPlaced 3 (2 ∷ []) (apply_legal_hold 3 (2 ∷ []) "matter" none none [] archive)
    × ((i : ℕ) (c : Conversation)
        → find (has_id i) archive.conversations ≡ some c
        → is_target 3 (2 ∷ []) c ≡ true
        → is_some c.deleted_at ≡ true
        → apply_legal_hold 3 (2 ∷ []) "matter" none none [] archive
          ≡ err legal_hold_blocks_soft_delete)
apply_legal_hold_lem_example = apply_legal_hold_lem 3 (2 ∷ []) "matter" none none [] archive
