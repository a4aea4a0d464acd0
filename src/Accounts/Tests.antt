-- ===== src/Accounts/Tests.antt =====
-- services/backend/app/services/accounts.py on two devices of one user.
use chrome_chatgpt_data.Prelude.{ℕ, String, true, none, some, List, [], ◌∷◌, ◌≡◌, refl, arith}
use mathlib.Core.Bool.{false≢true}
use text.Mathlib.TextEquality.{eq_iff}
use chrome_chatgpt_data.Prelude.Rows.{find}
use chrome_chatgpt_data.Prelude.Results.{err}
use chrome_chatgpt_data.Policy.{Organization}
use chrome_chatgpt_data.Accounts.{
  refresh_invalid, device_revoked, Account, Device, has_id, drop_hash, new_device, issue_session,
  rotate_refresh_token, rotate_found, revoke_device,
}
use chrome_chatgpt_data.Accounts.Tokens.{refresh_token_single_use}
use chrome_chatgpt_data.Accounts.Revocation.{
  Activity, rotating, issuing, act_all, Avoids, revoked_device_stays_out,
}

abbrev same : String → String
same s = s

abbrev ann : Account
ann = record { id = 4; organization_id = 3; email = "a@acme"; roles = []; is_active = true }

abbrev acme : Organization
acme = record { id = 3; slug = "acme" }

abbrev laptop : Device
laptop = record (new_device 8 4 3 "fp-1") { refresh_token_hash = some "t-1" }

abbrev desktop : Device
desktop = new_device 9 4 3 "fp-2"

refresh_token_single_use_example :
    let devices = laptop ∷ desktop ∷ [] in
    let rotated = (rotate_refresh_token same 10 "t-1" (ann ∷ []) (acme ∷ []) devices).1 in
    let issued =
      (issue_session same same 10 60 5 "t-2" ann acme (some (drop_hash same laptop)) rotated).1 in
    (rotate_refresh_token same 11 "t-1" (ann ∷ []) (acme ∷ []) rotated
      ≡ (err refresh_invalid, rotated))
    × (rotate_refresh_token same 11 "t-1" (ann ∷ []) (acme ∷ []) issued
        ≡ (err refresh_invalid, issued))
unfolding rotate_refresh_token rotate_found
refresh_token_single_use_example =
    refresh_token_single_use same same 10 60 5 11 "t-1" "t-2" (ann ∷ []) (ann ∷ []) (acme ∷ [])
      (acme ∷ []) (laptop ∷ desktop ∷ []) ann acme (drop_hash same laptop) (omega arith)
      (λ e. false≢true ((eq_iff "t-2" "t-1").1 e)) refl

abbrev later_on : List (Activity same same same)
later_on = issuing 12 60 6 "t-3" ann acme 8 ∷ rotating 13 "t-1" (ann ∷ []) (acme ∷ []) ∷ []

revoked_device_stays_out_example :
    let devices' =
      act_all same same same later_on (revoke_device 11 8 none (laptop ∷ desktop ∷ [])).1 in
    ((later : ℕ) (token : String) (users : List Account) (orgs : List Organization)
      → Avoids same same same 8 (rotate_refresh_token same later token users orgs devices').0)
    × ((later ttl session_id : ℕ) (token : String) (user : Account) (org : Organization)
          (d : Device)
        → find (has_id 8) devices' ≡ some d
        → issue_session same same later ttl session_id token user org (some d) devices'
          ≡ (err device_revoked, devices'))
revoked_device_stays_out_example =
    revoked_device_stays_out same same same 11 8 none (laptop ∷ desktop ∷ []) later_on refl
      (tt, (tt, tt))
