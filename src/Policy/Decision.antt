-- ===== src/Policy/Decision.antt =====
-- services/backend/app/services/policy.py: which settings and which workspaces pass.
use text.Mathlib.TextEquality.{eq_iff}
use chrome_chatgpt_data.Prelude.{
  String, true, ◌&&◌, List, [], ◌∷◌, ◌≡◌, ◌≢◌, ◌↔◌, arith, Option-cases,
}
use chrome_chatgpt_data.Prelude.Results.{ok, err}
use chrome_chatgpt_data.Enums.{personal, is_managed}
use chrome_chatgpt_data.Policy.{
  Settings, WorkspaceRef, Reason, workspace_id_allowlisted, workspace_label_matched,
  kill_switch_active, personal_workspace_blocked, has_strong_signal, assert_browser_capture_allowed,
  assert_attachment_capture_allowed, browser_capture_active, stripped, folded, is_allowlisted,
  verify_identity, evaluate_workspace_ref,
}

-- Browser capture passes its gates exactly when `browser_capture_active` says so: both server gates
-- are on and the kill switch is off. Attachment capture passes exactly when moreover its own gate is
-- on, and the kill switch, when it is on, is the reason that both of them give.
pub capture_gates :
    (s : Settings)
    → ((assert_browser_capture_allowed s ≡ ok tt) ↔ (browser_capture_active s ≡ true))
      × ((assert_attachment_capture_allowed s ≡ ok tt)
          ↔ ((browser_capture_active s && s.attachment_capture_enabled) ≡ true))
      × (s.kill_switch_enabled ≡ true
          → (assert_browser_capture_allowed s ≡ err kill_switch_active)
            × (assert_attachment_capture_allowed s ≡ err kill_switch_active))
unfolding assert_browser_capture_allowed assert_attachment_capture_allowed browser_capture_active
capture_gates s = ground arith

module _ (strip lower : String → String) where
  -- How a workspace is identified: by an id of the allowlist, or, without an allowlist, by the label.
  abbrev pub Identified : Reason → WorkspaceRef → List String → String → Type 0
  Identified workspace_id_allowlisted ref allowed label =
      is_allowlisted strip lower allowed ref.source_workspace_id ≡ true
  Identified workspace_label_matched ref allowed label =
      (allowed ≡ []) × (folded strip lower ref.label ≡ label) × (label ≢ "")

  verify_identity_sound :
      (ref : WorkspaceRef) (allowed : List String) (label : String) (r : Reason)
      → verify_identity strip lower ref allowed label ≡ ok r
      → (has_strong_signal ref ≡ true) × Identified r ref allowed label
  unfolding verify_identity
  verify_identity_sound ref [] label workspace_id_allowlisted h = ground arith
  verify_identity_sound ref [] label workspace_label_matched h =
      ground (arith, eq_iff (folded strip lower ref.label) label, eq_iff label "")
  verify_identity_sound ref (i ∷ is) label r h = ground arith

  verify_identity_complete :
      (ref : WorkspaceRef) (allowed : List String) (label : String) (r : Reason)
      → has_strong_signal ref ≡ true
      → Identified r ref allowed label
      → verify_identity strip lower ref allowed label ≡ ok r
  unfolding verify_identity
  verify_identity_complete ref [] label workspace_id_allowlisted s h = ground arith
  verify_identity_complete ref [] label workspace_label_matched s h = ground (
    arith,
    eq_iff (folded strip lower ref.label) label,
    eq_iff label "",
    eq_iff (folded strip lower ref.label) "",
  )
  verify_identity_complete ref (i ∷ is) label workspace_id_allowlisted s h = ground arith
  verify_identity_complete ref (i ∷ is) label workspace_label_matched s h = ground arith

  -- A workspace reference is accepted for a reason exactly when it is of the managed company kind,
  -- the client asserts that it is verified, it reports a strong signal, and it is identified for that
  -- reason: its id is on the configured allowlist, or there is no allowlist and its label is, up to
  -- case and surrounding blanks, the configured one, which is not blank.
  pub evaluate_workspace_ref_iff :
      (ref : WorkspaceRef) (s : Settings) (r : Reason)
      → (evaluate_workspace_ref strip lower ref s ≡ ok r) ↔ (
          (is_managed ref.kind ≡ true)
          × (ref.verified ≡ true)
          × (has_strong_signal ref ≡ true)
          × Identified r ref
              (stripped strip lower s.managed_workspace_id_list)
              (folded strip lower s.managed_workspace_label))
  unfolding evaluate_workspace_ref
  evaluate_workspace_ref_iff ref s r =
      let allowed = stripped strip lower s.managed_workspace_id_list in
      let label = folded strip lower s.managed_workspace_label in
      let sound = verify_identity_sound ref allowed label r in
      let complete = verify_identity_complete ref allowed label r in
      (λ h. ground (arith, sound), λ h. ground (arith, complete h.2 h.3))

  not-Identified :
      (r : Reason) (ref : WorkspaceRef) (allowed : List String) (label : String)
      → allowed ≡ []
      → label ≡ ""
      → ¬ Identified r ref allowed label
  not-Identified workspace_id_allowlisted ref [] label a l h =
      ground (arith, Option-cases ref.source_workspace_id)
  not-Identified workspace_id_allowlisted ref (i ∷ is) label a l h = ground arith
  not-Identified workspace_label_matched ref allowed label a l h = h.2 l

  -- Whatever else it says and whatever the settings are, a personal workspace is refused as such;
  -- and with neither an allowlist nor a label configured no workspace is accepted.
  pub evaluate_workspace_ref_fails_closed :
      (ref : WorkspaceRef) (s : Settings)
      → (ref.kind ≡ personal
          → evaluate_workspace_ref strip lower ref s ≡ err personal_workspace_blocked)
        × (stripped strip lower s.managed_workspace_id_list ≡ []
            → folded strip lower s.managed_workspace_label ≡ ""
            → (r : Reason) → evaluate_workspace_ref strip lower ref s ≢ ok r)
  unfolding evaluate_workspace_ref
  evaluate_workspace_ref_fails_closed ref s = (
    λ p. ground arith,
    λ none_allowed unlabelled r h.
        not-Identified r ref (stripped strip lower s.managed_workspace_id_list)
          (folded strip lower s.managed_workspace_label) none_allowed unlabelled
          ((evaluate_workspace_ref_iff ref s r).0 h).3,
  )
