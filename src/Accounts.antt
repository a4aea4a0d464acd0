-- ===== src/Accounts.antt =====
-- services/backend/app/services/accounts.py with models/identity.py: devices, their sessions and refresh
-- tokens. SHA-256 is a parameter; the access token is the claims that PyJWT signs.
pub mod Tokens
pub mod Revocation
mod Tests
use text.Mathlib.Text.{◌==◌ as str_eq}
use chrome_chatgpt_data.Prelude.{
  ℕ, ◌+◌, ◌*◌, String, Bool, true, false, not, ◌&&◌, ◌||◌, Option, none, some, List, [], ◌∷◌, ◌++◌,
  ltb, ◌==◌, if◌then◌else◌, is_some, or_else, new_or, map_option, take,
}
use chrome_chatgpt_data.Prelude.Rows.{find, any, update}
use chrome_chatgpt_data.Prelude.Texts.{Text, codes, truthy, truthy_text, holds_str, text_in}
use chrome_chatgpt_data.Prelude.Results.{Result, ok, err}
use chrome_chatgpt_data.Policy.{Organization}
use chrome_chatgpt_data.Jobs.{second}

pub data AuthCode : Type 0 where
  refresh_invalid refresh_expired device_revoked device_not_found unauthenticated : AuthCode
  forbidden : AuthCode

pub record Account : Type 0 where
  pub id : ℕ
  pub organization_id : ℕ
  pub email : String
  pub roles : List String
  pub is_active : Bool

pub record Device : Type 0 where
  pub id : ℕ
  pub user_id : ℕ
  pub organization_id : ℕ
  pub device_fingerprint : String
  pub extension_id : Option String
  pub extension_version : Option String
  pub adapter_version : Option String
  pub browser_version : Option String
  pub platform : Option String
  pub managed_by_policy : Bool
  pub session_id : Option ℕ
  pub refresh_token_hash : Option String
  pub refresh_token_expires_at : Option ℕ
  pub refresh_rotation_counter : ℕ
  pub last_seen_at : Option ℕ
  pub last_ip_hash : Option String
  pub revoked_at : Option ℕ
  pub revoked_reason : Option Text

-- What the extension reports when it registers.
pub record DeviceIn : Type 0 where
  pub device_fingerprint : String
  pub extension_id : Option String
  pub extension_version : Option String
  pub adapter_version : Option String
  pub browser_version : Option String
  pub platform : Option String
  pub managed_by_policy : Bool
  pub client_ip : Option String

abbrev pub is_device : ℕ → String → Device → Bool
is_device user_id fp d = d.user_id == user_id && str_eq d.device_fingerprint fp

abbrev pub has_id : ℕ → Device → Bool
has_id i d = d.id == i

-- `value or stored` on texts.
abbrev pub reported : Option String → Option String → Option String
reported given stored = new_or (truthy given) stored

pub describe : (String → String) → ℕ → DeviceIn → Device → Device
describe pseudonymize now v d = record d {
  extension_id = reported v.extension_id d.extension_id;
  extension_version = reported v.extension_version d.extension_version;
  adapter_version = reported v.adapter_version d.adapter_version;
  browser_version = reported v.browser_version d.browser_version;
  platform = reported v.platform d.platform;
  managed_by_policy = v.managed_by_policy || d.managed_by_policy;
  last_seen_at = some now;
  last_ip_hash = hashed (truthy v.client_ip) d.last_ip_hash;
}
  where
    hashed : Option String → Option String → Option String
    hashed none stored = stored
    hashed (some ip) stored = some (pseudonymize ip)

abbrev pub new_device : ℕ → ℕ → ℕ → String → Device
new_device uuid user_id org fp = record {
  id = uuid;
  user_id = user_id;
  organization_id = org;
  device_fingerprint = fp;
  extension_id = none;
  extension_version = none;
  adapter_version = none;
  browser_version = none;
  platform = none;
  managed_by_policy = false;
  session_id = none;
  refresh_token_hash = none;
  refresh_token_expires_at = none;
  refresh_rotation_counter = 0;
  last_seen_at = none;
  last_ip_hash = none;
  revoked_at = none;
  revoked_reason = none;
}

abbrev pub registered :
    (String → String)
    → ℕ
    → ℕ
    → ℕ
    → ℕ
    → DeviceIn
    → Option Device
    → List Device
    → Device × List Device
registered pseudonymize now uuid user_id org v (some d) devices =
    (describe pseudonymize now v d, update (has_id d.id) (describe pseudonymize now v) devices)
registered pseudonymize now uuid user_id org v none devices =
    let d = describe pseudonymize now v (new_device uuid user_id org v.device_fingerprint) in
    (d, devices ++ d ∷ [])

unfoldable pub get_or_create_device :
    (String → String) → ℕ → ℕ → ℕ → ℕ → DeviceIn → List Device → Device × List Device
unfolding describe
get_or_create_device pseudonymize now uuid user_id org v devices =
    registered pseudonymize now uuid user_id org v
      (find (is_device user_id v.device_fingerprint) devices) devices

-- What `issue_session` returns, with the claims of the access token.
pub record Session : Type 0 where
  pub user_id : ℕ
  pub organization_id : ℕ
  pub device_id : Option ℕ
  pub email : String
  pub roles : List String
  pub session_id : ℕ
  pub refresh_token : String

abbrev pub new_session : Account → Organization → Option ℕ → List String → ℕ → String → Session
new_session user org device_id roles session_id token = record {
  user_id = user.id;
  organization_id = org.id;
  device_id = device_id;
  email = user.email;
  roles = roles;
  session_id = session_id;
  refresh_token = token;
}

abbrev role_values : List String
role_values =
    "employee" ∷ "support" ∷ "compliance_admin" ∷ "security_reviewer" ∷ "data_curator" ∷ []

-- `user.roles or [Role.EMPLOYEE.value]`
abbrev or_employee : List String → List String
or_employee [] = "employee" ∷ []
or_employee (r ∷ rs) = r ∷ rs

module _ (sha256_hex : String → String) where
  abbrev pub bind_session : ℕ → ℕ → ℕ → String → Device → Device
  bind_session now ttl session_id token d = record d {
    session_id = some session_id;
    refresh_token_hash = some (sha256_hex token);
    refresh_token_expires_at = some (now + ttl * second);
    refresh_rotation_counter = d.refresh_rotation_counter + 1;
  }

  -- `[Role.parse(r) for r in user.roles or ["employee"]]`, where `normal` is `strip` and `lower`.
  abbrev pub parse_roles : (String → String) → List String → Option (List String)
  parse_roles normal [] = some []
  parse_roles normal (r ∷ rs) =
      let rest = map_option (λ others. normal r ∷ others) (parse_roles normal rs) in
      if text_in (normal r) role_values then rest else none

  abbrev pub roles_of : Account → List String
  roles_of user = or_employee user.roles

  -- The rest of `issue_session`, by the parsed roles.
  abbrev pub mint :
      ℕ
      → ℕ
      → ℕ
      → String
      → Account
      → Organization
      → Option Device
      → Option (List String)
      → List Device
      → Result AuthCode Session × List Device
  mint now ttl session_id token user org device none devices = (err forbidden, devices)
  mint now ttl session_id token user org none (some roles) devices =
      (ok (new_session user org none roles session_id token), devices)
  mint now ttl session_id token user org (some d) (some roles) devices = (
    ok (new_session user org (some d.id) roles session_id token),
    update (has_id d.id) (bind_session now ttl session_id token) devices,
  )

  abbrev pub is_revoked : Option Device → Bool
  is_revoked none = false
  is_revoked (some d) = is_some d.revoked_at

  -- `issue_session`; `token` is the draw of `secrets`.
  unfoldable pub issue_session :
      (String → String)
      → ℕ
      → ℕ
      → ℕ
      → String
      → Account
      → Organization
      → Option Device
      → List Device
      → Result AuthCode Session × List Device
  issue_session normal now ttl session_id token user org device devices =
      if is_revoked device
      then (err device_revoked, devices)
      else mint now ttl session_id token user org device (parse_roles normal (roles_of user))
          devices

  abbrev pub has_hash : String → Device → Bool
  has_hash h d = holds_str d.refresh_token_hash h

  abbrev pub drop_hash : Device → Device
  drop_hash d = record d { refresh_token_hash = none }

  -- `device.refresh_token_expires_at and device.refresh_token_expires_at < utcnow()`
  abbrev pub is_past : ℕ → Option ℕ → Bool
  is_past now none = false
  is_past now (some t) = ltb t now

  abbrev pub owner : Option Account → Option Organization → Option (Account × Organization)
  owner (some u) (some o) = if u.is_active then some (u, o) else none
  owner _ _ = none

  abbrev pub use_token :
      Device
      → Option (Account × Organization)
      → List Device
      → Result AuthCode (Account × Organization × Device) × List Device
  use_token d none devices = (err unauthenticated, devices)
  use_token d (some (u, o)) devices =
      (ok (u, o, drop_hash d), update (has_id d.id) drop_hash devices)

  pub rotate_found :
      ℕ
      → List Account
      → List Organization
      → Option Device
      → List Device
      → Result AuthCode (Account × Organization × Device) × List Device
  rotate_found now users orgs none devices = (err refresh_invalid, devices)
  rotate_found now users orgs (some d) devices =
      if is_some d.revoked_at
      then (err device_revoked, devices)
      else if is_past now d.refresh_token_expires_at
      then (err refresh_expired, devices)
      else use_token d
          (owner (find (λ u. u.id == d.user_id) users) (find (λ o. o.id == d.organization_id) orgs))
          devices

  unfoldable pub rotate_refresh_token :
      ℕ
      → String
      → List Account
      → List Organization
      → List Device
      → Result AuthCode (Account × Organization × Device) × List Device
  unfolding rotate_found
  rotate_refresh_token now token users orgs devices =
      rotate_found now users orgs (find (has_hash (sha256_hex token)) devices) devices

-- `(reason or "revoked by administrator")[:1000]`
abbrev pub revoke : ℕ → Option Text → Device → Device
revoke now reason d = record d {
  revoked_at = some now;
  revoked_reason =
      some (take 1000 (or_else (truthy_text reason) (codes "revoked by administrator")));
  refresh_token_hash = none;
  session_id = none;
}

unfoldable pub revoke_device :
    ℕ → ℕ → Option Text → List Device → Result AuthCode (Unit {0}) × List Device
revoke_device now i reason devices =
    if any (has_id i) devices
    then (ok tt, update (has_id i) (revoke now reason) devices)
    else (err device_not_found, devices)
