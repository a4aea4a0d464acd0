-- ===== src/Policy/Tests.antt =====
-- services/backend/app/services/policy.py on concrete settings and workspaces.
use chrome_chatgpt_data.Prelude.{String, true, false, none, some, [], ◌∷◌, ◌≡◌, ◌↔◌, refl}
use chrome_chatgpt_data.Prelude.Results.{ok}
use chrome_chatgpt_data.Enums.{managed_company, personal, is_managed}
use chrome_chatgpt_data.Policy.{
  Settings, WorkspaceRef, Organization, Workspace, workspace_id_allowlisted, has_strong_signal,
  stripped, folded, evaluate_workspace_ref, resolve_workspace, workspace_hash_for, verify_identity,
}
use chrome_chatgpt_data.Policy.Decision.{Identified, evaluate_workspace_ref_iff}
use chrome_chatgpt_data.Policy.Workspaces.{Decides, resolve_workspace_lem}

abbrev same : String → String
same s = s

abbrev open_settings : Settings
open_settings = record {
  kill_switch_enabled = false;
  browser_content_capture_enabled = true;
  openai_written_authorization_confirmed = true;
  attachment_capture_enabled = true;
  personal_workspace_capture_enabled = true;
  managed_workspace_id_list = "ws-1" ∷ [];
  managed_workspace_label = some "acme";
}

abbrev company_ref : WorkspaceRef
company_ref = record {
  source_workspace_id = some "ws-1";
  label = some "acme";
  kind = managed_company;
  verified = true;
  verification_signals = "other" ∷ "workspace_id_match" ∷ [];
}

abbrev acme : Organization
acme = record { id = 3; slug = "acme" }

abbrev stored_row : Workspace
stored_row = record {
  id = 8;
  organization_id = 3;
  source_workspace_id = none;
  label = none;
  workspace_hash = workspace_hash_for same same same "acme" company_ref;
  kind = managed_company;
  verified_at = none;
  capture_enabled = true;
}

accepted : evaluate_workspace_ref same same company_ref open_settings ≡ ok workspace_id_allowlisted
unfolding evaluate_workspace_ref verify_identity has_strong_signal
accepted = refl

evaluate_workspace_ref_iff_example :
    (evaluate_workspace_ref same same company_ref open_settings ≡ ok workspace_id_allowlisted) ↔ (
      (is_managed company_ref.kind ≡ true)
      × (company_ref.verified ≡ true)
      × (has_strong_signal company_ref ≡ true)
      × Identified same same workspace_id_allowlisted company_ref
          (stripped same same open_settings.managed_workspace_id_list)
          (folded same same open_settings.managed_workspace_label))
evaluate_workspace_ref_iff_example =
    evaluate_workspace_ref_iff same same company_ref open_settings workspace_id_allowlisted

abbrev personal_ref : WorkspaceRef
personal_ref = record company_ref { kind = personal }

resolve_workspace_lem_example :
    let (d, table') =
      resolve_workspace same same same 5 9 acme company_ref open_settings [] (stored_row ∷ []) in
    Decides 3
      (workspace_hash_for same same same "acme" company_ref)
      (evaluate_workspace_ref same same company_ref open_settings)
      []
      (stored_row ∷ [])
      d
      table'
resolve_workspace_lem_example =
    resolve_workspace_lem same same same 5 9 acme company_ref open_settings [] (stored_row ∷ [])
