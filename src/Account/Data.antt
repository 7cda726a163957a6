-- ===== src/Account/Data.antt =====
-- The tables of internal/account/account.go (func migrate) and what a method of Store returns. The
-- clock is an argument of each call, in whole seconds. The store's engine does not fail.
use yudesk.Base.{ℕ, Option, none, List, []}
use yudesk.Text.{Text, Platform, bytes, hex, to_upper, trim_space}

-- `licensed_devices`. A time of 0 means that it has not happened.
pub record Device : Type 0 where
  pub device_id : Text
  pub public_key : List ℕ
  pub name : Text
  pub pairing_pin : Text
  pub first_seen : ℕ
  pub last_seen : ℕ
  pub active_until : ℕ
  pub revoked_at : ℕ

-- `activation_keys`
pub record ActivationKey : Type 0 where
  pub key_hash : Text
  pub duration_seconds : ℕ
  pub created_at : ℕ
  pub redeem_before : ℕ
  pub redeemed_by : Text
  pub redeemed_at : ℕ
  pub revoked_at : ℕ

-- `device_codes`
pub record DeviceCode : Type 0 where
  pub device_id : Text
  pub code : Text

-- `accounts`
pub record User : Type 0 where
  pub username : Text
  pub password_hash : List ℕ
  pub salt : List ℕ
  pub created_at : ℕ
  pub active_until : ℕ

-- `sessions`
pub record Session : Type 0 where
  pub token_hash : Text
  pub username : Text
  pub expires_at : ℕ
  pub revoked_at : ℕ

-- `devices`
pub record OwnedDevice : Type 0 where
  pub device_id : Text
  pub owner : Text
  pub public_key : List ℕ
  pub name : Text
  pub approved_at : ℕ
  pub last_seen : ℕ
  pub revoked_at : ℕ

pub record Store : Type 0 where
  pub users : List User
  pub sessions : List Session
  pub owned : List OwnedDevice
  pub keys : List ActivationKey
  pub devices : List Device
  pub codes : List DeviceCode
  -- the row `device_auto_activation` of `server_settings`
  pub auto_activation : Option Text

pub data Error : Type 0 where
  no_rows constraint_failed : Error
  name_too_long name_empty_or_long identity_mismatch identity_changed device_revoked : Error
  device_not_found device_never_connected not_found_or_revoked not_disabled pin_not_digits : Error
  already_permanent bad_duration : Error
  invalid_key key_revoked key_used key_expired key_unavailable key_not_revocable : Error
  bad_fingerprint unused_key_not_found : Error
  invalid_code code_allocation_failed : Error
  bad_username bad_password username_taken invalid_login other_owner : Error

pub data Result (A : Type 0) : Type 0 where
  ok : A → Result A
  err : Error → Result A

-- A method returns its result and the store after it; a failed one may have written.
abbrev pub Action : Type 0 → Type 0
Action A = Store → Result A × Store

abbrev pub empty : Store
empty = record {
  users = [];
  sessions = [];
  owned = [];
  keys = [];
  devices = [];
  codes = [];
  auto_activation = none;
}

-- `permanentDeviceLicenseUnix`
abbrev pub permanent_license : ℕ
permanent_license = 253402300799

abbrev pub hour : ℕ
hour = 3600

-- `10*365*24*time.Hour`, in seconds
abbrev pub ten_years : ℕ
ten_years = 315360000

-- The form in which ids and activation keys are compared and stored.
unfoldable pub normal : Platform → Text → Text
unfolding to_upper trim_space
normal env s = to_upper env (trim_space s)

-- `hashToken`
unfoldable pub hash_token : Platform → Text → Text
unfolding bytes hex
hash_token env token = hex (env.sha256 (bytes token))
