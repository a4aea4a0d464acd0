-- ===== src/Retention.antt =====
-- services/backend/app/services/retention.py: legal holds, soft deletion and physical deletion. `LIMIT`
-- without an order takes the rows in the order of the table here. The audit rows are not modelled.
pub mod Holds
pub mod Grace
mod Tests
use text.Mathlib.Text.{◌==◌ as str_eq}
use Prim.Native.String.{◌++◌ as concat}
use chrome_chatgpt_data.Prelude.{
  ℕ, ◌+◌, ◌*◌, max, String, Bool, true, false, not, ◌&&◌, ◌||◌, Option, none, some, List, [], ◌∷◌,
  ◌++◌, map, ltb, ◌==◌, if◌then◌else◌, is_some, length, take,
}
use chrome_chatgpt_data.Prelude.Rows.{select, find, any, update, delete, count}
use chrome_chatgpt_data.Prelude.Results.{Result, ok, err}
use chrome_chatgpt_data.Enums.{RetentionAction, soft_delete, hard_delete, anonymize}
use chrome_chatgpt_data.Jobs.{second}
use chrome_chatgpt_data.Archive.{Conversation, Message, MessageVersion, IdempotencyKey, Store}

abbrev pub day : ℕ
day = 86_400 * second

pub record LegalHold : Type 0 where
  pub id : ℕ
  pub organization_id : ℕ
  pub name : String
  pub matter_reference : Option String
  -- `scope["conversation_ids"]`, a set that is kept as a list
  pub conversation_ids : List ℕ
  pub created_by_user_id : Option ℕ
  pub released_at : Option ℕ

pub record RetentionPolicy : Type 0 where
  pub id : ℕ
  pub organization_id : ℕ
  pub name : String
  pub retain_days : ℕ
  pub grace_days : ℕ
  pub action : RetentionAction
  pub is_default : Bool
  pub is_active : Bool
  pub last_run_at : Option ℕ

abbrev pub id_in : List ℕ → ℕ → Bool
id_in [] i = false
id_in (j ∷ js) i = j == i || id_in js i

-- `existing.update(…)` on a set of identifiers.
abbrev pub union : List ℕ → List ℕ → List ℕ
union ids [] = ids
union ids (j ∷ js) = union (if id_in ids j then ids else ids ++ j ∷ []) js

abbrev pub is_hold : ℕ → String → LegalHold → Bool
is_hold org name h = h.organization_id == org && str_eq h.name name

abbrev pub extend : List ℕ → LegalHold → LegalHold
extend ids h = record h { conversation_ids = union h.conversation_ids ids; released_at = none }

-- The hold's row: inserted, or found and extended.
pub place_hold :
    ℕ
    → ℕ
    → String
    → List ℕ
    → Option ℕ
    → Option String
    → Option LegalHold
    → List LegalHold
    → List LegalHold
place_hold uuid org name ids actor matter none holds =
    holds
    ++ record {
      id = uuid;
      organization_id = org;
      name = name;
      matter_reference = matter;
      conversation_ids = ids;
      created_by_user_id = actor;
      released_at = none;
    }
      ∷ []
place_hold uuid org name ids actor matter (some h) holds =
    update (is_hold org name) (extend ids) holds

abbrev pub is_target : ℕ → List ℕ → Conversation → Bool
is_target org ids c = c.organization_id == org && id_in ids c.id

abbrev pub in_conversations : List ℕ → Message → Bool
in_conversations ids m = id_in ids m.conversation_id

abbrev pub hold_conversation : Conversation → Conversation
hold_conversation c = record c { legal_hold = true }

abbrev pub hold_message : Message → Message
hold_message m = record m { legal_hold = true }

-- The constraint `legal_hold_blocks_soft_delete` refuses a held row that is soft-deleted.
pub data Violation : Type 0 where
  legal_hold_blocks_soft_delete : Violation

-- `apply_legal_hold` with the rows that the two UPDATEs hit.
unfoldable pub apply_legal_hold :
    ℕ
    → List ℕ
    → String
    → Option ℕ
    → Option String
    → List LegalHold
    → Store
    → Result Violation (List LegalHold × Store)
unfolding place_hold
apply_legal_hold org ids name actor matter holds st =
    let blocked =
      any (λ c. is_target org ids c && is_some c.deleted_at) st.conversations
      || any (λ m. in_conversations ids m && is_some m.deleted_at) st.messages in
    if blocked
    then err legal_hold_blocks_soft_delete
    else ok (
      place_hold st.uuids org name ids actor matter (find (is_hold org name) holds) holds,
      record st {
        uuids = if is_some (find (is_hold org name) holds) then st.uuids else st.uuids + 1;
        conversations = update (is_target org ids) hold_conversation st.conversations;
        messages = update (in_conversations ids) hold_message st.messages;
      },
    )

-- `created_at < now - retain_days`, of the organization, neither deleted nor held.
abbrev pub is_expired : ℕ → RetentionPolicy → Conversation → Bool
is_expired now p c =
    c.organization_id == p.organization_id
    && not (is_some c.deleted_at)
    && not c.legal_hold
    && ltb (c.created_at + p.retain_days * day) now

abbrev pub conversation_ids : List Conversation → List ℕ
conversation_ids = map (λ c. c.id)

abbrev pub delete_conversation : ℕ → String → Conversation → Conversation
delete_conversation now reason c = record c { deleted_at = some now; deletion_reason = some reason }

abbrev pub delete_message : ℕ → String → Message → Message
delete_message now reason m = record m { deleted_at = some now; deletion_reason = some reason }

abbrev pub delete_version : ℕ → String → MessageVersion → MessageVersion
delete_version now reason v = record v { deleted_at = some now; deletion_reason = some reason }

-- The three UPDATEs of `soft_delete_expired` for the chosen ids.
unfoldable pub soft_delete_ids : ℕ → String → List ℕ → Store → Store
soft_delete_ids now reason ids st = record st {
  conversations =
      update (λ c. id_in ids c.id && not c.legal_hold) (delete_conversation now reason)
        st.conversations;
  messages =
      update (λ m. id_in ids m.conversation_id && not m.legal_hold) (delete_message now reason)
        st.messages;
  versions =
      update (λ v. id_in ids v.conversation_id && not v.legal_hold) (delete_version now reason)
        st.versions;
}

unfoldable pub soft_delete_expired : ℕ → RetentionPolicy → ℕ → Store → ℕ × RetentionPolicy × Store
unfolding soft_delete_ids
soft_delete_expired now p limit st =
    let ids = conversation_ids (take limit (select (is_expired now p) st.conversations)) in
    if length ids == 0 then (0, p, st) else (
      length ids,
      record p { last_run_at = some now },
      soft_delete_ids now (concat "retention_policy:" p.name) ids st,
    )

abbrev pub is_hard : RetentionAction → Bool
is_hard hard_delete = true
is_hard _ = false

-- `deleted_at < now - grace_days`
abbrev pub deleted_before : ℕ → ℕ → Option ℕ → Bool
deleted_before now grace none = false
deleted_before now grace (some t) = ltb (t + grace) now

abbrev pub is_purgeable : ℕ → RetentionPolicy → Conversation → Bool
is_purgeable now p c =
    c.organization_id == p.organization_id
    && deleted_before now (p.grace_days * day) c.deleted_at
    && not c.legal_hold

-- The DELETE with its cascades in the archive. Those to the attachments and their links are `cascade` of
-- Handlers/Upkeep.antt.
unfoldable pub purge_ids : List ℕ → Store → Store
purge_ids ids st =
    let doomed = λ (c : Conversation). id_in ids c.id && not c.legal_hold in
    let gone = conversation_ids (select doomed st.conversations) in
    record st {
      conversations = delete doomed st.conversations;
      branches = delete (λ b. id_in gone b.conversation_id) st.branches;
      messages = delete (λ m. id_in gone m.conversation_id) st.messages;
      versions = delete (λ v. id_in gone v.conversation_id) st.versions;
      parts = delete (λ r. id_in gone r.conversation_id) st.parts;
      feedback = delete (λ f. id_in gone f.conversation_id) st.feedback;
    }

unfoldable pub hard_delete_grace_expired : ℕ → RetentionPolicy → ℕ → Store → ℕ × Store
unfolding purge_ids
hard_delete_grace_expired now p limit st =
    let ids = conversation_ids (take limit (select (is_purgeable now p) st.conversations)) in
    if is_hard p.action then (length ids, purge_ids ids st) else (0, st)

-- A row of the index of upstream event ids; the source is always "openai_compliance".
pub record SourceEventKeyIndex : Type 0 where
  pub organization_id : ℕ
  pub source_event_id : String
  pub created_at : ℕ

-- `prune_idempotency_keys`, for the days that a client may keep its queue offline.
unfoldable pub prune_idempotency_keys :
    ℕ → ℕ → List SourceEventKeyIndex → Store → ℕ × List SourceEventKeyIndex × Store
prune_idempotency_keys now offline_days source_keys st =
    let horizon = max (offline_days * 4) 30 * day in
    let old_key = λ (k : IdempotencyKey). ltb (k.created_at + horizon) now in
    let old_source = λ (k : SourceEventKeyIndex). ltb (k.created_at + horizon) now in
    (
      count old_key st.idempotency_keys + count old_source source_keys,
      delete old_source source_keys,
      record st { idempotency_keys = delete old_key st.idempotency_keys },
    )

abbrev pub default_policy : ℕ → ℕ → ℕ → RetentionPolicy
default_policy uuid org raw_retention_days = record {
  id = uuid;
  organization_id = org;
  name = "default";
  retain_days = raw_retention_days;
  grace_days = 30;
  action = soft_delete;
  is_default = true;
  is_active = true;
  last_run_at = none;
}

unfoldable pub ensure_default_policy :
    ℕ → ℕ → ℕ → List RetentionPolicy → Option RetentionPolicy × List RetentionPolicy
ensure_default_policy uuid org raw_retention_days policies =
    let is_default = λ (p : RetentionPolicy). p.organization_id == org && p.is_default in
    let p = default_policy uuid org raw_retention_days in
    if any is_default policies
    then (find is_default policies, policies)
    else (some p, policies ++ p ∷ [])
