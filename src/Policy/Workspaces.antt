-- ===== src/Policy/Workspaces.antt =====
-- services/backend/app/services/policy.py, `resolve_workspace`: the row it returns and the table.
use text.Mathlib.TextEquality.{eq_iff}
use chrome_chatgpt_data.Prelude.{
  ℕ, String, true, false, some, List, ◌++◌, ◌≡◌, refl, ◌⊎◌, inl, inr, arith, Bool-cases,
  Option-cases, ==_refl, ◌∙◌,
}
use chrome_chatgpt_data.Prelude.Rows.{find, any, find-any, find_last, find-update, find-eq_some}
use chrome_chatgpt_data.Prelude.Results.{Result, ok, err}
use chrome_chatgpt_data.Policy.{
  Workspace, WorkspaceRef, Organization, Settings, PolicyCode, Reason, WorkspaceDecision, is_row,
  permits, backfill, new_workspace, use_row, insert_workspace, find_or_insert, resolve_verified,
  resolve_workspace, evaluate_workspace_ref, workspace_hash_for,
}

-- What a decision on the workspaces of an organization promises of the table.
abbrev pub Decides :
    ℕ
    → String
    → Result PolicyCode Reason
    → List Workspace
    → List Workspace
    → Result PolicyCode WorkspaceDecision
    → List Workspace
    → Type 0
Decides org hash verdict raced table (ok d) table' =
    (permits d.workspace ≡ true)
    × (verdict ≡ ok d.reason)
    × (d.workspace_hash ≡ hash)
    × (find (is_row org hash) table' ≡ some d.workspace)
Decides org hash verdict raced table (err e) table' = (table' ≡ table) ⊎ (table' ≡ table ++ raced)

is_row_self :
    (now uuid org : ℕ) (hash : String) (ref : WorkspaceRef)
    → is_row org hash (new_workspace now uuid org hash ref) ≡ true
is_row_self now uuid org hash ref = ground (arith, eq_iff hash hash, ==_refl org)

-- The last SELECT finds a row, and a row that does not permit capture has not been inserted here.
insert_workspace_lem :
    (now uuid org : ℕ) (hash : String) (ref : WorkspaceRef) (t : List Workspace)
    → let after = insert_workspace now uuid org hash ref t in
      (w : Workspace) × (find (is_row org hash) after ≡ some w) × (permits w ≡ false → after ≡ t)
unfolding insert_workspace
insert_workspace_lem now uuid org hash ref t = elim (Bool-cases (any (is_row org hash) t)) [
  | inl met ↦ let (w, e) = find-any (is_row org hash) t met in rw met (w, e, λ _. refl)
  | inr free ↦ rw free (
    new_workspace now uuid org hash ref,
    find_last (is_row org hash) t (new_workspace now uuid org hash ref) free
        (is_row_self now uuid org hash ref),
    λ f. absurd (ground arith),
  )
]

use_row_lem :
    (org : ℕ) (hash : String) (ref : WorkspaceRef) (reason : Reason) (w : Workspace)
    (raced table seen : List Workspace)
    → find (is_row org hash) seen ≡ some w
    → (permits w ≡ false → (seen ≡ table) ⊎ (seen ≡ table ++ raced))
    → let (d, table') = use_row org hash ref reason (some w) seen in
      Decides org hash (ok reason) raced table d table'
unfolding use_row
use_row_lem org hash ref reason w raced table seen found kept = elim (Bool-cases (permits w)) [
  | inl t ↦
      let named = find-eq_some (is_row org hash) seen w found in
      rw t (
        t,
        refl,
        refl,
        find-update (is_row org hash) (is_row org hash) (backfill ref) seen w (λ x. refl) found
            ∙ rw named refl,
      )
  | inr f ↦ rw f (kept f)
]

find_or_insert_lem :
    (now uuid org : ℕ) (hash : String) (ref : WorkspaceRef) (reason : Reason)
    (raced table : List Workspace)
    → let (d, table') =
        find_or_insert now uuid org hash ref reason (find (is_row org hash) table) raced table in
      Decides org hash (ok reason) raced table d table'
unfolding find_or_insert
find_or_insert_lem now uuid org hash ref reason raced table =
    elim (Option-cases (find (is_row org hash) table)) [
      | inl e ↦
          let (w, found, kept) = insert_workspace_lem now uuid org hash ref (table ++ raced) in
          rw e (
            rw found (
              use_row_lem org hash ref reason w raced table
                (insert_workspace now uuid org hash ref (table ++ raced)) found
                (λ f. inr (kept f))))
      | inr (w, e) ↦ rw e (use_row_lem org hash ref reason w raced table table e (λ _. inl refl))
    ]

module _ (strip lower sha256_hex : String → String) where
  -- Whether the row is stored, raced in by another transaction or created: when `resolve_workspace`
  -- succeeds, the policy has accepted the reference for the reason it returns, the workspace permits
  -- capture, and it is the row of the new table with the organization and the hash of the reference.
  -- When it raises, it has written nothing.
  pub resolve_workspace_lem :
      (now uuid : ℕ) (org : Organization) (ref : WorkspaceRef) (s : Settings)
      (raced table : List Workspace)
      → let (d, table') = resolve_workspace strip lower sha256_hex now uuid org ref s raced table in
        Decides org.id
          (workspace_hash_for strip lower sha256_hex org.slug ref)
          (evaluate_workspace_ref strip lower ref s)
          raced
          table
          d
          table'
  unfolding resolve_workspace resolve_verified
  resolve_workspace_lem now uuid org ref s raced table =
      go (evaluate_workspace_ref strip lower ref s)
    where
      go :
          (verdict : Result PolicyCode Reason)
          → let (d, table') =
              resolve_verified now uuid org.id
                (workspace_hash_for strip lower sha256_hex org.slug ref)
                ref
                verdict
                raced
                table in
            Decides org.id
              (workspace_hash_for strip lower sha256_hex org.slug ref)
              verdict
              raced
              table
              d
              table'
      go (err e) = inl refl
      go (ok reason) =
          find_or_insert_lem now uuid org.id
            (workspace_hash_for strip lower sha256_hex org.slug ref) ref reason raced table
