-- ===== src/Policy.antt =====
-- services/backend/app/services/policy.py: the capture gates and the verification of a workspace.
-- `str.strip`, `str.lower` and SHA-256, which rest on tables of Unicode and on hashlib, are
-- parameters.
pub mod Decision
pub mod Workspaces
mod Tests
use text.Mathlib.Text.{◌==◌ as str_eq}
use Prim.Native.String.{◌++◌ as concat}
use chrome_chatgpt_data.Prelude.{
  ℕ, String, Bool, true, false, not, ◌&&◌, ◌||◌, Option, none, some, List, [], ◌∷◌, ◌++◌, ◌==◌,
  if◌then◌else◌, or_else, is_some,
}
use chrome_chatgpt_data.Prelude.Rows.{select, find, any, update}
use chrome_chatgpt_data.Prelude.Texts.{truthy, text_in, first_chars}
use chrome_chatgpt_data.Prelude.Results.{Result, ok, err, ◌>>=◌, ◌>>◌, guard}
use chrome_chatgpt_data.Enums.{WorkspaceKind, managed_company, is_managed, is_personal}

-- The codes of a `PolicyError`.
pub data PolicyCode : Type 0 where
  kill_switch_active capture_disabled authorization_not_confirmed attachments_disabled : PolicyCode
  personal_workspace_blocked workspace_unverified workspace_policy_unconfigured : PolicyCode
  workspace_not_allowlisted workspace_signal_missing workspace_label_mismatch : PolicyCode
  workspace_capture_disabled : PolicyCode

-- What the policy reads of the settings.
pub record Settings : Type 0 where
  pub kill_switch_enabled : Bool
  pub browser_content_capture_enabled : Bool
  pub openai_written_authorization_confirmed : Bool
  pub attachment_capture_enabled : Bool
  pub personal_workspace_capture_enabled : Bool
  pub managed_workspace_id_list : List String
  pub managed_workspace_label : Option String

pub record WorkspaceRef : Type 0 where
  pub source_workspace_id : Option String
  pub label : Option String
  pub kind : WorkspaceKind
  pub verified : Bool
  pub verification_signals : List String

pub record Workspace : Type 0 where
  pub id : ℕ
  pub organization_id : ℕ
  pub source_workspace_id : Option String
  pub label : Option String
  pub workspace_hash : String
  pub kind : WorkspaceKind
  pub verified_at : Option ℕ
  pub capture_enabled : Bool

pub record Organization : Type 0 where
  pub id : ℕ
  pub slug : String

pub data Reason : Type 0 where
  workspace_id_allowlisted workspace_label_matched : Reason

abbrev known_signals : List String
known_signals =
    "workspace_label_match" ∷ "workspace_id_match" ∷ "account_switcher_managed_badge"
    ∷ "managed_account_url_path" ∷ "enterprise_workspace_marker" ∷ []

abbrev strong_signals : List String
strong_signals = "workspace_id_match" ∷ "workspace_label_match" ∷ []

-- `signals & STRONG_SIGNALS`, where `signals` are the known ones of the reference.
pub has_strong_signal : WorkspaceRef → Bool
has_strong_signal ref =
    any (λ s. text_in s strong_signals)
      (select (λ s. text_in s known_signals) ref.verification_signals)

unfoldable pub assert_browser_capture_allowed : Settings → Result PolicyCode (Unit {0})
assert_browser_capture_allowed s = do
  guard (not s.kill_switch_enabled) kill_switch_active
  guard s.browser_content_capture_enabled capture_disabled
  guard s.openai_written_authorization_confirmed authorization_not_confirmed

unfoldable pub assert_attachment_capture_allowed : Settings → Result PolicyCode (Unit {0})
unfolding assert_browser_capture_allowed
assert_attachment_capture_allowed s = do
  assert_browser_capture_allowed s
  guard s.attachment_capture_enabled attachments_disabled

-- `Settings.browser_capture_active`
unfoldable pub browser_capture_active : Settings → Bool
browser_capture_active s =
    s.browser_content_capture_enabled
    && s.openai_written_authorization_confirmed
    && not s.kill_switch_enabled

module _ (strip lower : String → String) where
  -- `{i.strip() for i in … if i.strip()}`
  abbrev pub stripped : List String → List String
  stripped [] = []
  stripped (i ∷ is) = let rest = stripped is in if str_eq (strip i) "" then rest else strip i ∷ rest

  -- `(value or "").strip().lower()`
  abbrev pub folded : Option String → String
  folded label = lower (strip (or_else (truthy label) ""))

  -- `not id or id.strip() not in allowed_ids`, negated.
  abbrev pub is_allowlisted : List String → Option String → Bool
  is_allowlisted allowed none = false
  is_allowlisted allowed (some i) = not (str_eq i "") && text_in (strip i) allowed

  -- The checks against the configured identifiers, or against the configured label without them.
  pub verify_identity : WorkspaceRef → List String → String → Result PolicyCode Reason
  unfolding has_strong_signal
  verify_identity ref [] configured_label = do
    guard (not (str_eq configured_label "")) workspace_policy_unconfigured
    guard (not (str_eq (folded ref.label) "") && str_eq (folded ref.label) configured_label)
        workspace_label_mismatch
    guard (has_strong_signal ref) workspace_signal_missing
    ok workspace_label_matched
  verify_identity ref (i ∷ is) configured_label = do
    guard (is_allowlisted (i ∷ is) ref.source_workspace_id) workspace_not_allowlisted
    guard (has_strong_signal ref) workspace_signal_missing
    ok workspace_id_allowlisted

  pub evaluate_workspace_ref : WorkspaceRef → Settings → Result PolicyCode Reason
  unfolding verify_identity
  evaluate_workspace_ref ref s = do
    guard (not (is_personal ref.kind)) personal_workspace_blocked
    guard (is_managed ref.kind) workspace_unverified
    guard ref.verified workspace_unverified
    verify_identity ref (stripped s.managed_workspace_id_list) (folded s.managed_workspace_label)

  module _ (sha256_hex : String → String) where
    -- `pseudonymize(value)`, with its default salt.
    abbrev pub pseudonymize : String → String
    pseudonymize value = sha256_hex (concat "|" (lower (strip value)))

    pub workspace_hash_for : String → WorkspaceRef → String
    workspace_hash_for org_slug ref = first_chars 32 (
        pseudonymize (
          concat org_slug
            (concat "|" (or_else (truthy ref.source_workspace_id) (folded ref.label)))))

abbrev pub is_row : ℕ → String → Workspace → Bool
is_row org hash w = w.organization_id == org && str_eq w.workspace_hash hash

-- `kind != MANAGED_COMPANY or not capture_enabled`, negated.
abbrev pub permits : Workspace → Bool
permits w = is_managed w.kind && w.capture_enabled

-- `if given and not stored: stored = given`
abbrev pub backfilled : Option String → Option String → Option String
backfilled given stored =
    if is_some (truthy given) && not (is_some (truthy stored)) then given else stored

abbrev pub backfill : WorkspaceRef → Workspace → Workspace
backfill ref w = record w {
  source_workspace_id = backfilled ref.source_workspace_id w.source_workspace_id;
  label = backfilled ref.label w.label;
}

abbrev pub new_workspace : ℕ → ℕ → ℕ → String → WorkspaceRef → Workspace
new_workspace now uuid org hash ref = record {
  id = uuid;
  organization_id = org;
  source_workspace_id = ref.source_workspace_id;
  label = ref.label;
  workspace_hash = hash;
  kind = managed_company;
  verified_at = some now;
  capture_enabled = true;
}

-- What `resolve_workspace` returns, with the table after it.
pub record WorkspaceDecision : Type 0 where
  pub workspace : Workspace
  pub workspace_hash : String
  pub reason : Reason

-- The row of the last SELECT, after the check of `permits` and the backfill. `scalar_one` always finds
-- one: it has been found, or inserted, or the insertion has met one.
pub use_row :
    ℕ
    → String
    → WorkspaceRef
    → Reason
    → Option Workspace
    → List Workspace
    → Result PolicyCode WorkspaceDecision × List Workspace
use_row org hash ref reason none table = (err workspace_capture_disabled, table)
use_row org hash ref reason (some w) table =
    if permits w
    then (
      ok (record { workspace = backfill ref w; workspace_hash = hash; reason = reason }),
      update (is_row org hash) (backfill ref) table,
    )
    else (err workspace_capture_disabled, table)

-- `INSERT … ON CONFLICT DO NOTHING` on the organization and the hash.
pub insert_workspace : ℕ → ℕ → ℕ → String → WorkspaceRef → List Workspace → List Workspace
insert_workspace now uuid org hash ref table =
    if any (is_row org hash) table then table else table ++ new_workspace now uuid org hash ref ∷ []

-- The row that the first SELECT found, or one that is inserted; `raced` are the rows that other
-- transactions commit between the two statements.
pub find_or_insert :
    ℕ
    → ℕ
    → ℕ
    → String
    → WorkspaceRef
    → Reason
    → Option Workspace
    → List Workspace
    → List Workspace
    → Result PolicyCode WorkspaceDecision × List Workspace
unfolding use_row insert_workspace
find_or_insert now uuid org hash ref reason (some w) raced table =
    use_row org hash ref reason (some w) table
find_or_insert now uuid org hash ref reason none raced table =
    let after = insert_workspace now uuid org hash ref (table ++ raced) in
    use_row org hash ref reason (find (is_row org hash) after) after

-- `resolve_workspace` on the verdict of `evaluate_workspace_ref`.
pub resolve_verified :
    ℕ
    → ℕ
    → ℕ
    → String
    → WorkspaceRef
    → Result PolicyCode Reason
    → List Workspace
    → List Workspace
    → Result PolicyCode WorkspaceDecision × List Workspace
unfolding find_or_insert
resolve_verified now uuid org hash ref (err e) raced table = (err e, table)
resolve_verified now uuid org hash ref (ok reason) raced table =
    find_or_insert now uuid org hash ref reason (find (is_row org hash) table) raced table

module _ (strip lower sha256_hex : String → String) where
  pub resolve_workspace :
      ℕ
      → ℕ
      → Organization
      → WorkspaceRef
      → Settings
      → List Workspace
      → List Workspace
      → Result PolicyCode WorkspaceDecision × List Workspace
  unfolding evaluate_workspace_ref workspace_hash_for resolve_verified
  resolve_workspace now uuid organization ref s raced table =
      resolve_verified now uuid organization.id
        (workspace_hash_for strip lower sha256_hex organization.slug ref) ref
        (evaluate_workspace_ref strip lower ref s) raced table
