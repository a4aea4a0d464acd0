-- ===== src/Accounts/Tokens.antt =====
-- services/backend/app/services/accounts.py: a refresh token is used once, and a revoked device is out.
use mathlib.Core.Path.{subst}
use text.Mathlib.TextEquality.{eq_iff}
use chrome_chatgpt_data.Prelude.{
  ℕ, ◌==◌, ◌≤◌, String, true, false, Option, none, some, List, [], ◌∷◌, ◌≡◌, ◌≢◌, refl, ap, arith,
  Bool-cases, Option-cases, inl, inr, is_some, All, All-intro, ==_refl,
}
use chrome_chatgpt_data.Prelude.Rows.{find, update, count, find_unique, find-eq_none, All-update}
use chrome_chatgpt_data.Prelude.Results.{Result, ok, err}
use chrome_chatgpt_data.Policy.{Organization}
use chrome_chatgpt_data.Accounts.{
  AuthCode, refresh_invalid, Account, Device, has_id, has_hash, drop_hash, bind_session,
  parse_roles, roles_of, mint, issue_session, is_past, owner, use_token, rotate_found,
  rotate_refresh_token,
}

module _ (sha256_hex : String → String) where
  -- No device has the hash of the token.
  abbrev Unknown : String → List Device → Type 0
  Unknown token = All (λ d. has_hash sha256_hex (sha256_hex token) d ≡ false)

  dropped :
      (h : String) (d : Device) (xs : List Device)
      → All (λ x. has_hash sha256_hex h x ≡ true → x ≡ d) xs
      → All (λ x. has_hash sha256_hex h x ≡ false) (update (has_id d.id) (drop_hash sha256_hex) xs)
  dropped h d [] one = tt
  dropped h d (x ∷ xs) one = (
    elim (Bool-cases (has_id d.id x)) [
      | inl t ↦ rw t refl
      | inr f ↦ rw f (elim (Bool-cases (has_hash sha256_hex h x)) [
        | inl e ↦ absurd (ground (arith, ap (λ y. y.id) (one.0 e), ==_refl d.id))
        | inr e ↦ e
      ])
    ],
    dropped h d xs one.1,
  )

  -- A rotation that succeeds leaves the token unknown, one that fails leaves the table.
  abbrev IsSpent :
      String
      → List Device
      → Result AuthCode (Account × Organization × Device)
      → List Device
      → Type 0
  IsSpent token devices (ok r) devices' = Unknown token devices'
  IsSpent token devices (err e) devices' = devices' ≡ devices

  rotate_found-IsSpent :
      (now : ℕ) (token : String) (users : List Account) (orgs : List Organization) (d : Device)
      (devices : List Device)
      → count (has_hash sha256_hex (sha256_hex token)) devices ≤ 1
      → find (has_hash sha256_hex (sha256_hex token)) devices ≡ some d
      → let (r, devices') = rotate_found sha256_hex now users orgs (some d) devices in
        IsSpent token devices r devices'
  unfolding rotate_found
  rotate_found-IsSpent now token users orgs d devices one found =
      elim (Bool-cases (is_some d.revoked_at)) [
        | inl t ↦ rw t refl
        | inr f ↦ rw f (elim (Bool-cases (is_past sha256_hex now d.refresh_token_expires_at)) [
          | inl t ↦ rw t refl
          | inr g ↦ rw g (
              owned (
                owner sha256_hex (find (λ u. u.id == d.user_id) users)
                  (find (λ o. o.id == d.organization_id) orgs)))
        ])
      ]
    where
      owned :
          (who : Option (Account × Organization))
          → let (r, devices') = use_token sha256_hex d who devices in
            IsSpent token devices r devices'
      owned none = refl
      owned (some (u, o)) =
          dropped (sha256_hex token) d devices
            (find_unique (has_hash sha256_hex (sha256_hex token)) devices d one found)

  rotate_refresh_token-IsSpent :
      (now : ℕ) (token : String) (users : List Account) (orgs : List Organization)
      (devices : List Device)
      → count (has_hash sha256_hex (sha256_hex token)) devices ≤ 1
      → let (r, devices') = rotate_refresh_token sha256_hex now token users orgs devices in
        IsSpent token devices r devices'
  unfolding rotate_refresh_token
  rotate_refresh_token-IsSpent now token users orgs devices one =
      elim (Option-cases (find (has_hash sha256_hex (sha256_hex token)) devices)) [
        | inl e ↦ rw e (unfold rotate_found in refl)
        | inr (d, e) ↦ rw e (rotate_found-IsSpent now token users orgs d devices one e)
      ]

  Unknown-refused :
      (now : ℕ) (token : String) (users : List Account) (orgs : List Organization)
      (devices : List Device)
      → Unknown token devices
      → rotate_refresh_token sha256_hex now token users orgs devices
        ≡ (err refresh_invalid, devices)
  unfolding rotate_refresh_token rotate_found
  Unknown-refused now token users orgs devices h =
      rw (find-eq_none (has_hash sha256_hex (sha256_hex token)) devices h) refl

  issue_session-Unknown :
      (normal : String → String) (now ttl session_id : ℕ) (token token' : String) (user : Account)
      (org : Organization) (d : Device) (devices : List Device)
      → sha256_hex token' ≢ sha256_hex token
      → Unknown token devices
      → Unknown token
          (issue_session sha256_hex normal now ttl session_id token' user org (some d) devices).1
  unfolding issue_session
  issue_session-Unknown normal now ttl session_id token token' user org d devices other h =
      elim (Bool-cases (is_some d.revoked_at)) [
        | inl t ↦ rw t h
        | inr f ↦ rw f (minted (parse_roles sha256_hex normal (roles_of sha256_hex user)))
      ]
    where
      minted :
          (roles : Option (List String))
          → Unknown token
              (mint sha256_hex now ttl session_id token' user org (some d) roles devices).1
      minted none = h
      minted (some roles) =
          All-update (λ x. has_hash sha256_hex (sha256_hex token) x ≡ false) (has_id d.id)
            (bind_session sha256_hex now ttl session_id token') devices
            (All-intro _
              (λ x e. ground (arith, eq_iff (sha256_hex token') (sha256_hex token), other)) devices)
            h

  -- A refresh token is used once: when `rotate_refresh_token` has accepted it, and no two devices had its
  -- hash, it is not recognised any more, neither at once nor after the new session has been issued with
  -- a token of another hash, whatever the time and the accounts then, and a second try changes nothing.
  pub refresh_token_single_use :
      (normal : String → String) (now ttl session_id later : ℕ) (token token' : String)
      (users users' : List Account) (orgs orgs' : List Organization) (devices : List Device)
      (u : Account) (o : Organization) (d : Device)
      → count (has_hash sha256_hex (sha256_hex token)) devices ≤ 1
      → sha256_hex token' ≢ sha256_hex token
      → (rotate_refresh_token sha256_hex now token users orgs devices).0 ≡ ok (u, o, d)
      → let rotated = (rotate_refresh_token sha256_hex now token users orgs devices).1 in
        let issued =
          (issue_session sha256_hex normal now ttl session_id token' u o (some d) rotated).1 in
        (rotate_refresh_token sha256_hex later token users' orgs' rotated
          ≡ (err refresh_invalid, rotated))
        × (rotate_refresh_token sha256_hex later token users' orgs' issued
            ≡ (err refresh_invalid, issued))
  refresh_token_single_use normal now ttl session_id later token token' users users' orgs orgs'
        devices u o d one other accepted =
      let rotated = (rotate_refresh_token sha256_hex now token users orgs devices).1 in
      let spent : Unknown token rotated =
        subst (λ r. IsSpent token devices r rotated) accepted
          (rotate_refresh_token-IsSpent now token users orgs devices one) in
      (
        Unknown-refused later token users' orgs' rotated spent,
        Unknown-refused later token users' orgs' _ (
            issue_session-Unknown normal now ttl session_id token token' u o d rotated other spent),
      )
