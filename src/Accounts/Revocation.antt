-- ===== src/Accounts/Revocation.antt =====
-- services/backend/app/services/accounts.py: a device that is revoked stays out.
use chrome_chatgpt_data.Prelude.{
  ℕ, ◌==◌, String, Bool, true, false, Option, none, some, List, [], ◌∷◌, ◌≡◌, ◌≢◌, refl, arith,
  Bool-cases, inl, inr, is_some, All, All-implies, All-append, ==_iff,
}
use chrome_chatgpt_data.Prelude.Rows.{find, any, update, All-update, All-find, find-eq_some}
use chrome_chatgpt_data.Prelude.Texts.{Text}
use chrome_chatgpt_data.Prelude.Results.{Result, ok, err}
use chrome_chatgpt_data.Policy.{Organization}
use chrome_chatgpt_data.Accounts.{
  AuthCode, device_revoked, Account, Device, DeviceIn, has_id, has_hash, drop_hash, bind_session,
  parse_roles, roles_of, mint, issue_session, is_revoked, is_past, use_token, rotate_found,
  rotate_refresh_token, revoke, revoke_device, registered, describe, get_or_create_device,
  is_device,
}

-- Every row with the id is revoked.
abbrev pub Out : ℕ → List Device → Type 0
Out i = All (λ d. has_id i d ≡ true → is_some d.revoked_at ≡ true)

-- An update that keeps ids and revocations keeps the device out.
update-Out :
    (i : ℕ) (p : Device → Bool) (f : Device → Device) (devices : List Device)
    → ((d : Device) → (f d).id ≡ d.id)
    → ((d : Device) → is_some d.revoked_at ≡ true → is_some (f d).revoked_at ≡ true)
    → Out i devices
    → Out i (update p f devices)
update-Out i p f devices same kept h =
    All-update (λ d. has_id i d ≡ true → is_some d.revoked_at ≡ true) p f devices
      (All-implies (λ d. has_id i d ≡ true → is_some d.revoked_at ≡ true)
        (λ d. p d ≡ true → has_id i (f d) ≡ true → is_some (f d).revoked_at ≡ true) devices
        (λ d out _ e. kept d (out (rw (← same d) e))) h)
      h

revoke_device-Out :
    (now i : ℕ) (reason : Option Text) (devices : List Device)
    → any (has_id i) devices ≡ true
    → Out i (revoke_device now i reason devices).1
unfolding revoke_device
revoke_device-Out now i reason devices known = rw known (revoked devices)
  where
    revoked : (xs : List Device) → Out i (update (has_id i) (revoke now reason) xs)
    revoked [] = tt
    revoked (x ∷ xs) = (
      elim (Bool-cases (has_id i x)) [
        | inl t ↦ rw t (λ _. refl)
        | inr f ↦ rw f (λ t. absurd (ground arith))
      ],
      revoked xs,
    )

revoking-Out :
    (i now j : ℕ) (reason : Option Text) (devices : List Device)
    → Out i devices
    → Out i (revoke_device now j reason devices).1
unfolding revoke_device
revoking-Out i now j reason devices h = elim (Bool-cases (any (has_id j) devices)) [
  | inl t ↦ rw t (update-Out i (has_id j) (revoke now reason) devices (λ x. refl) (λ x e. refl) h)
  | inr f ↦ rw f h
]

module _ (sha256_hex pseudonymize normal : String → String) where
  -- What may happen to the devices, each with its own clock reading, draws and accounts.
  pub data Activity : Type 0 where
    rotating : ℕ → String → List Account → List Organization → Activity
    issuing : ℕ → ℕ → ℕ → String → Account → Organization → ℕ → Activity
    registering : ℕ → ℕ → ℕ → ℕ → DeviceIn → Activity
    revoking : ℕ → ℕ → Option Text → Activity

  abbrev pub act : Activity → List Device → List Device
  act (rotating now token users orgs) devices =
      (rotate_refresh_token sha256_hex now token users orgs devices).1
  act (issuing now ttl session_id token user org j) devices =
      (issue_session sha256_hex normal now ttl session_id token user org (find (has_id j) devices)
        devices).1
  act (registering now uuid user_id org v) devices =
      (get_or_create_device pseudonymize now uuid user_id org v devices).1
  act (revoking now j reason) devices = (revoke_device now j reason devices).1

  abbrev pub act_all : List Activity → List Device → List Device
  act_all [] devices = devices
  act_all (a ∷ rest) devices = act_all rest (act a devices)

  -- A new device takes an identifier other than `i`.
  abbrev pub IsFresh : ℕ → Activity → Type 0
  IsFresh i (registering now uuid user_id org v) = uuid ≢ i
  IsFresh i _ = Unit

  rotating-Out :
      (i now : ℕ) (token : String) (users : List Account) (orgs : List Organization)
      (devices : List Device)
      → Out i devices
      → Out i (rotate_refresh_token sha256_hex now token users orgs devices).1
  unfolding rotate_refresh_token rotate_found
  rotating-Out i now token users orgs devices h =
      go (find (has_hash sha256_hex (sha256_hex token)) devices)
    where
      used :
          (d : Device) (who : Option (Account × Organization))
          → Out i (use_token sha256_hex d who devices).1
      used d none = h
      used d (some (u, o)) =
          update-Out i (has_id d.id) (drop_hash sha256_hex) devices (λ x. refl) (λ x e. e) h

      go : (found : Option Device) → Out i (rotate_found sha256_hex now users orgs found devices).1
      go none = h
      go (some d) = elim (Bool-cases (is_some d.revoked_at)) [
        | inl t ↦ rw t h
        | inr f ↦ rw f (elim (Bool-cases (is_past sha256_hex now d.refresh_token_expires_at)) [
          | inl t ↦ rw t h
          | inr g ↦ rw g (used d _)
        ])
      ]

  issuing-Out :
      (i now ttl session_id : ℕ) (token : String) (user : Account) (org : Organization)
      (device : Option Device) (devices : List Device)
      → Out i devices
      → Out i (issue_session sha256_hex normal now ttl session_id token user org device devices).1
  unfolding issue_session
  issuing-Out i now ttl session_id token user org device devices h =
      elim (Bool-cases (is_revoked sha256_hex device)) [
        | inl t ↦ rw t h
        | inr f ↦ rw f (minted device (parse_roles sha256_hex normal (roles_of sha256_hex user)))
      ]
    where
      minted :
          (device : Option Device) (roles : Option (List String))
          → Out i (mint sha256_hex now ttl session_id token user org device roles devices).1
      minted device none = h
      minted none (some roles) = h
      minted (some d) (some roles) =
          update-Out i (has_id d.id) (bind_session sha256_hex now ttl session_id token) devices
            (λ x. refl) (λ x e. e) h

  registering-Out :
      (i now uuid user_id org : ℕ) (v : DeviceIn) (devices : List Device)
      → uuid ≢ i
      → Out i devices
      → Out i (get_or_create_device pseudonymize now uuid user_id org v devices).1
  unfolding get_or_create_device describe
  registering-Out i now uuid user_id org v devices fresh h =
      go (find (is_device user_id v.device_fingerprint) devices)
    where
      go :
          (found : Option Device)
          → Out i (registered pseudonymize now uuid user_id org v found devices).1
      go (some d) =
          update-Out i (has_id d.id) (describe pseudonymize now v) devices (λ x. refl) (λ x e. e) h
      go none =
          All-append (λ d. has_id i d ≡ true → is_some d.revoked_at ≡ true) devices _ h
            ((λ e. absurd (fresh ((==_iff uuid i).0 e))), tt)

  act-Out :
      (i : ℕ) (a : Activity) (devices : List Device)
      → IsFresh i a
      → Out i devices
      → Out i (act a devices)
  act-Out i (rotating now token users orgs) devices fresh h =
      rotating-Out i now token users orgs devices h
  act-Out i (issuing now ttl session_id token user org j) devices fresh h =
      issuing-Out i now ttl session_id token user org (find (has_id j) devices) devices h
  act-Out i (registering now uuid user_id org v) devices fresh h =
      registering-Out i now uuid user_id org v devices fresh h
  act-Out i (revoking now j reason) devices fresh h = revoking-Out i now j reason devices h

  act_all-Out :
      (i : ℕ) (activities : List Activity) (devices : List Device)
      → All (IsFresh i) activities
      → Out i devices
      → Out i (act_all activities devices)
  act_all-Out i [] devices fresh h = h
  act_all-Out i (a ∷ rest) devices fresh h =
      act_all-Out i rest (act a devices) fresh.1 (act-Out i a devices fresh.0 h)

  -- Which device a rotation accepts.
  abbrev pub Avoids : ℕ → Result AuthCode (Account × Organization × Device) → Type 0
  Avoids i (ok (u, o, d)) = (d.id == i) ≡ false
  Avoids i (err e) = Unit

  Out-avoided :
      (i now : ℕ) (token : String) (users : List Account) (orgs : List Organization)
      (devices : List Device)
      → Out i devices
      → Avoids i (rotate_refresh_token sha256_hex now token users orgs devices).0
  unfolding rotate_refresh_token rotate_found
  Out-avoided i now token users orgs devices h =
      go (find (has_hash sha256_hex (sha256_hex token)) devices) refl
    where
      used :
          (d : Device) (who : Option (Account × Organization))
          → (d.id == i) ≡ false
          → Avoids i (use_token sha256_hex d who devices).0
      used d none other = tt
      used d (some (u, o)) other = other

      go :
          (found : Option Device)
          → find (has_hash sha256_hex (sha256_hex token)) devices ≡ found
          → Avoids i (rotate_found sha256_hex now users orgs found devices).0
      go none e = tt
      go (some d) e =
          let out =
            All-find (λ x. has_id i x ≡ true → is_some x.revoked_at ≡ true)
              (has_hash sha256_hex (sha256_hex token)) devices d h e in
          elim (Bool-cases (is_some d.revoked_at)) [
            | inl t ↦ rw t tt
            | inr f ↦ rw f (elim (Bool-cases (is_past sha256_hex now d.refresh_token_expires_at)) [
              | inl t ↦ rw t tt
              | inr g ↦ rw g (used d _ (ground (arith, out)))
            ])
          ]

  -- Once a device has been revoked, whatever registrations, rotations, new sessions and further
  -- revocations follow, in any order and at any times, no refresh token is accepted for it, and no
  -- session is issued to its row.
  pub revoked_device_stays_out :
      (now i : ℕ) (reason : Option Text) (devices : List Device) (activities : List Activity)
      → any (has_id i) devices ≡ true
      → All (IsFresh i) activities
      → let devices' = act_all activities (revoke_device now i reason devices).1 in
        ((later : ℕ) (token : String) (users : List Account) (orgs : List Organization)
          → Avoids i (rotate_refresh_token sha256_hex later token users orgs devices').0)
        × ((later ttl session_id : ℕ) (token : String) (user : Account) (org : Organization)
              (d : Device)
            → find (has_id i) devices' ≡ some d
            → issue_session sha256_hex normal later ttl session_id token user org (some d) devices'
              ≡ (err device_revoked, devices'))
  unfolding issue_session
  revoked_device_stays_out now i reason devices activities known fresh =
      let out =
        act_all-Out i activities (revoke_device now i reason devices).1 fresh
          (revoke_device-Out now i reason devices known) in
      let devices' = act_all activities (revoke_device now i reason devices).1 in
      (
        λ later token users orgs. Out-avoided i later token users orgs devices' out,
        λ later ttl session_id token user org d found.
            rw
              (All-find (λ x. has_id i x ≡ true → is_some x.revoked_at ≡ true) (has_id i) devices' d
                out found (find-eq_some (has_id i) devices' d found))
              refl,
      )
