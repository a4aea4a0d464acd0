-- ===== src/Handlers/Upkeep.antt =====
-- services/backend/app/workers/handlers.py, `handle_retention_sweep` and `handle_cleanup_stale`.
use chrome_chatgpt_data.Prelude.{
  ℕ, ◌+◌, ◌*◌, Bool, false, not, ◌&&◌, ◌||◌, Option, none, some, List, [], ◌∷◌, ltb, ◌==◌,
}
use chrome_chatgpt_data.Prelude.Rows.{select, any, count, delete, update}
use chrome_chatgpt_data.Enums.{is_succeeded}
use chrome_chatgpt_data.Jobs.{Job, number}
use chrome_chatgpt_data.Archive.{Store}
use chrome_chatgpt_data.Worker.{Outcome, returned}
use chrome_chatgpt_data.Attachments.{Vault, expire_stale_pending}
use chrome_chatgpt_data.Retention.{
  RetentionPolicy, SourceEventKeyIndex, day, soft_delete_expired, hard_delete_grace_expired,
  prune_idempotency_keys,
}

-- The tables of a sweep.
pub record Upkeep : Type 0 where
  pub policies : List RetentionPolicy
  pub vault : Vault
  pub source_keys : List SourceEventKeyIndex

-- `results` with the policies and the store, in the loop over the active policies.
pub record Swept : Type 0 where
  pub policies : List RetentionPolicy
  pub soft_deleted : ℕ
  pub hard_deleted : ℕ
  pub store : Store

-- The loop over the active policies, with the limits by default.
unfoldable pub sweep_policies : ℕ → List RetentionPolicy → Swept → Swept
sweep_policies now [] r = r
sweep_policies now (p ∷ ps) r =
    let (n, p', st) = soft_delete_expired now p 1000 r.store in
    let (m, st') = hard_delete_grace_expired now p' 200 st in
    sweep_policies now ps (record {
      policies = update (λ q. q.id == p.id) (λ q. p') r.policies;
      soft_deleted = r.soft_deleted + n;
      hard_deleted = r.hard_deleted + m;
      store = st';
    })

-- The archive after the deletions, with the cascades of the foreign keys: the attachments of the
-- conversations that are gone, and the links of these conversations, go with them.
unfoldable pub cascade : Store → Vault → Vault
cascade st v =
    let is_in = λ (i : ℕ) (s : Store). any (λ c. c.id == i) s.conversations in
    let gone = λ (i : ℕ). is_in i v.archive && not (is_in i st) in
    let lost = λ (i : ℕ). any (λ a. a.id == i && gone a.conversation_id) v.attachments in
    record v {
      archive = st;
      attachments = delete (λ a. gone a.conversation_id) v.attachments;
      links = delete (λ l. gone l.conversation_id || lost l.attachment_id) v.links;
    }

unfoldable pub handle_retention_sweep : ℕ → ℕ → Job → Upkeep → Outcome × Upkeep
unfolding sweep_policies cascade
handle_retention_sweep offline_days now job u =
    let r = sweep_policies now (select (λ p. p.is_active) u.policies) (record {
      policies = u.policies;
      soft_deleted = 0;
      hard_deleted = 0;
      store = u.vault.archive;
    }) in
    let purged = cascade r.store u.vault in
    let (pruned, source_keys, st) =
      prune_idempotency_keys now offline_days u.source_keys purged.archive in
    let (expired, v) = expire_stale_pending now (record purged { archive = st }) in
    (
      returned (
          ("soft_deleted", number r.soft_deleted)
          ∷ ("hard_deleted", number r.hard_deleted)
          ∷ ("keys_pruned", number pruned)
          ∷ ("attachments_expired", number expired)
          ∷ []),
      record { policies = r.policies; vault = v; source_keys = source_keys },
    )

abbrev pub finished_before : ℕ → ℕ → Option ℕ → Bool
finished_before now span none = false
finished_before now span (some t) = ltb (t + span) now

unfoldable pub handle_cleanup_stale : ℕ → Job → List Job → Outcome × List Job
handle_cleanup_stale now job jobs =
    let old = λ (j : Job). is_succeeded j.status && finished_before now (14 * day) j.finished_at in
    (returned (("jobs_pruned", number (count old jobs)) ∷ []), delete old jobs)
