-- ===== src/Exports/Eligible.antt =====
-- services/backend/app/services/exports.py, `eligible_conversation_ids`: what an export may hold.
use chrome_chatgpt_data.Prelude.{
  ℕ, ◌≡◌, inl, inr, refl, sym, ◌∙◌, Bool, true, false, none, List, [], ◌∷◌, map, ◌==◌, All, IsIn,
  All-implies, arith, Bool-cases, ==_refl,
}
use mathlib.Core.Bool.{false≢true}
use mathlib.Core.Path.{subst}
use chrome_chatgpt_data.Prelude.Rows.{select, any}
use chrome_chatgpt_data.Prelude.Sorting.{ascending, sort_by-All, any-sort_by}
use chrome_chatgpt_data.Enums.{ApprovalStatus}
use chrome_chatgpt_data.Archive.{Conversation}
use chrome_chatgpt_data.Exports.{
  TrainingApproval, Export, is_training, is_hold_bundle, approves, is_vouched, member, is_eligible,
  eligible_conversation_ids,
}

module _ {A : Type 0} where
  any_witness : (p : A → Bool) (xs : List A) → any p xs ≡ true → (a : A) × IsIn a xs × (p a ≡ true)
  any_witness p [] h = absurd (false≢true h)
  any_witness p (x ∷ xs) h = elim (Bool-cases (p x)) [
    | inl t ↦ (x, inl refl, t)
    | inr f ↦ let (a, i, t) = any_witness p xs (ground arith) in (a, inr i, t)
  ]

-- A person has approved the whole conversation for training and saw no secrets in it.
abbrev pub IsApproved : Export → List TrainingApproval → ℕ → Type 0
IsApproved e approvals i =
    (t : TrainingApproval) × IsIn t approvals
    × (t.organization_id ≡ e.organization_id)
    × (t.conversation_id ≡ i)
    × (t.message_id ≡ none)
    × (t.status ≡ ApprovalStatus.approved)
    × (t.contains_secrets ≡ false)

-- The conversation is one of the organization, is not deleted, is under no legal hold unless the export
-- is a bundle for one, and for training is approved and its capture is vouched for.
abbrev pub IsExportable : Export → List TrainingApproval → List Conversation → ℕ → Type 0
IsExportable e approvals conversations i =
    (c : Conversation) × IsIn c conversations
    × (c.id ≡ i)
    × (c.organization_id ≡ e.organization_id)
    × (c.deleted_at ≡ none)
    × (is_hold_bundle e.kind ≡ false → c.legal_hold ≡ false)
    × (is_training e.kind ≡ true
        → (is_vouched c.capture_completeness ≡ true) × IsApproved e approvals c.id)

approval :
    (e : Export) (approvals : List TrainingApproval) (i : ℕ)
    → any (approves e.organization_id i) approvals ≡ true
    → IsApproved e approvals i
approval e approvals i h =
    let (t, here, passes) = any_witness (approves e.organization_id i) approvals h in
    (t, here, ground arith, ground arith, ground arith, ground arith, ground arith)

eligible_row :
    (e : Export) (approvals : List TrainingApproval) (c : Conversation)
    → is_eligible e approvals c ≡ true
    → (c.organization_id ≡ e.organization_id)
      × (c.deleted_at ≡ none)
      × (is_hold_bundle e.kind ≡ false → c.legal_hold ≡ false)
      × (is_training e.kind ≡ true → is_vouched c.capture_completeness ≡ true)
      × (is_training e.kind ≡ true → any (approves e.organization_id c.id) approvals ≡ true)
unfolding is_eligible
eligible_row e approvals c h = ground arith

module _ (e : Export) (approvals : List TrainingApproval) where
  wider :
      (c : Conversation) (cs : List Conversation) (is : List ℕ)
      → All (IsExportable e approvals cs) is
      → All (IsExportable e approvals (c ∷ cs)) is
  wider c cs is h =
      All-implies (IsExportable e approvals cs) (IsExportable e approvals (c ∷ cs)) is
        (λ i k. (k.0, inr k.1, k.2, k.3, k.4, k.5, k.6)) h

  selected :
      (cs : List Conversation)
      → All (IsExportable e approvals cs) (map (λ c. c.id) (select (is_eligible e approvals) cs))
  selected [] = tt
  selected (c ∷ cs) = elim (Bool-cases (is_eligible e approvals c)) [
    | inl t ↦
        let (org, alive, free, vouched, approved) = eligible_row e approvals c t in
        rw t (
          (
            c,
            inl refl,
            refl,
            org,
            alive,
            free,
            λ training. (vouched training, approval e approvals c.id (approved training)),
          ),
          wider c cs _ (selected cs),
        )
    | inr n ↦ rw n (wider c cs _ (selected cs))
  ]

  -- The rows that the conditions select stand among the identifiers.
  abbrev Covers : List ℕ → Conversation → Type 0
  Covers ids c = is_eligible e approvals c ≡ true → member c.id ids ≡ true

  covered_step :
      (c : Conversation) (ids : List ℕ) (cs : List Conversation)
      → All (Covers ids) cs
      → All (Covers (c.id ∷ ids)) (c ∷ cs)
  covered_step c ids cs h = (
    (λ _. ground (arith, ==_refl c.id)),
    All-implies (Covers ids) (Covers (c.id ∷ ids)) cs (λ d k t. ground (arith, k t)) h,
  )

  covered :
      (cs : List Conversation)
      → All (Covers (map (λ d. d.id) (select (is_eligible e approvals) cs))) cs
  covered [] = tt
  covered (c ∷ cs) = elim (Bool-cases (is_eligible e approvals c)) [
    | inl t ↦
        let ids = map (λ d. d.id) (select (is_eligible e approvals) cs) in
        let yes : select (is_eligible e approvals) (c ∷ cs)
            ≡ c ∷ select (is_eligible e approvals) cs =
          rw t refl in
        subst (λ rows. All (Covers (map (λ d. d.id) rows)) (c ∷ cs)) (sym yes)
          (covered_step c ids cs (covered cs))
    | inr n ↦
        let no : select (is_eligible e approvals) (c ∷ cs) ≡ select (is_eligible e approvals) cs =
          rw n refl in
        subst (λ rows. All (Covers (map (λ d. d.id) rows)) (c ∷ cs)) (sym no)
          ((λ h. absurd (false≢true (sym n ∙ h))), covered cs)
  ]

-- Every conversation that an export takes is a row of its organization, not deleted and, unless the
-- export is a bundle for a legal hold, under no hold; for a training export a person has approved the
-- whole conversation with no secrets in it, and its capture is complete, reconciled or verified. And no
-- row that the conditions and the filters of the export select is left out.
pub eligible_conversation_ids_lem :
    (e : Export) (approvals : List TrainingApproval) (conversations : List Conversation)
    → let ids = eligible_conversation_ids e approvals conversations in
      All (IsExportable e approvals conversations) ids
      × All (λ c. is_eligible e approvals c ≡ true → member c.id ids ≡ true) conversations
unfolding eligible_conversation_ids
eligible_conversation_ids_lem e approvals conversations =
    let ids = map (λ c. c.id) (select (is_eligible e approvals) conversations) in
    let by_id = ascending (λ i. i) in
    (
      sort_by-All by_id (IsExportable e approvals conversations) ids
          (selected e approvals conversations),
      All-implies _ _ conversations (λ c k h. any-sort_by by_id (λ j. j == c.id) ids ∙ k h)
          (covered e approvals conversations),
    )
