-- ===== src/Account/Moves/Frame.antt =====
-- The tables that a call leaves alone.
use yudesk.Base.{ℕ, ◌≡◌, refl, Option, none, some, List, [], ◌∷◌, zero, suc, arith, ◌⊎◌, inl, inr}
use yudesk.Text.{Text, Platform, trim_space}
use yudesk.Account.Data.{Device, ActivationKey, Store, User, normal, hash_token}
use yudesk.Account.Devices.{
  find_device, register_licensed_device, rename_licensed_device, touch_licensed_device,
  update_licensed_device_pin, ensure_permanent_device_license, set_device_auto_activation,
  grant_device_license, revoke_licensed_device, unrevoke_licensed_device, delete_licensed_device,
}
use yudesk.Account.Codes.{nine_digits, ensure_device_code, insert_or_ignore, allocate}
use yudesk.Account.Keys.{
  generate_activation_key, revoke_activation_key, revoke_by_fingerprint, redeem_activation_key,
  redeem_device_activation_key, redeem_for, redeem_found, redeem_writes, redeem_user_found,
  redeem_user_writes, find_key,
}
use yudesk.Account.Users.{
  register_user, login, login_as, logout, bind_device, touch_device, revoke_device, find_user,
}
use yudesk.Account.Calls.{
  Call, registers, renames, touches, sets_pin, ensures_permanent, sets_auto, grants, revokes,
  unrevokes, deletes, ensures_code, generates, revokes_key, revokes_print, redeems, redeems_user,
  registers_user, logs_in, logs_out, binds, touches_owned, revokes_owned, step,
}

insert_or_ignore-devices :
    (id code : Text) (s : Store) → (insert_or_ignore id code s).devices ≡ s.devices
unfolding insert_or_ignore
insert_or_ignore-devices id code s = ground arith

allocate-devices :
    (rounds : ℕ) (id : Text) (draws : List ℕ) (s : Store)
    → (allocate rounds id draws s).1.devices ≡ s.devices
unfolding allocate
allocate-devices zero id draws s = refl
allocate-devices (suc rounds) id [] s = refl
allocate-devices (suc rounds) id (n ∷ draws) s = ground (
  arith,
  allocate-devices rounds id draws (insert_or_ignore id (nine_digits n) s),
  insert_or_ignore-devices id (nine_digits n) s,
)

pub ensure_code-devices :
    (env : Platform) (draws : List ℕ) (id : Text) (s : Store)
    → (ensure_device_code env draws id s).1.devices ≡ s.devices
unfolding ensure_device_code
ensure_code-devices env draws id s = ground (arith, allocate-devices 100 (normal env id) draws s)

pub redeem_user_found-frame :
    (hash name : Text) (now : ℕ) (o : Option ActivationKey) (s : Store)
    → ((redeem_user_found hash name now o s).1.devices ≡ s.devices)
      × ((redeem_user_found hash name now o s).1.codes ≡ s.codes)
unfolding redeem_user_found redeem_user_writes
redeem_user_found-frame hash name now none s = (refl, refl)
redeem_user_found-frame hash name now (some k) s = (ground arith, ground arith)

redeem_for-codes :
    (hash id : Text) (now : ℕ) (o : Option Device) (s : Store)
    → (redeem_for hash id now o s).1.codes ≡ s.codes
unfolding redeem_for redeem_found redeem_writes
redeem_for-codes hash id now none s = refl
redeem_for-codes hash id now (some d) s = ground arith

pub login_as-frame :
    (env : Platform) (now : ℕ) (raw : List ℕ) (name password : Text) (o : Option User) (s : Store)
    → ((login_as env now raw name password o s).1.devices ≡ s.devices)
      × ((login_as env now raw name password o s).1.codes ≡ s.codes)
unfolding login_as
login_as-frame env now raw name password none s = (refl, refl)
login_as-frame env now raw name password (some u) s = (ground arith, ground arith)

-- A call other than EnsureDeviceCode writes no alias: deletion does not either.
pub step-codes :
    (env : Platform) (c : Call) (s : Store)
    → ((draws : List ℕ) × (id : Text) × (c ≡ ensures_code draws id))
      ⊎ ((step env c s).codes ≡ s.codes)
unfolding step register_licensed_device rename_licensed_device touch_licensed_device
    update_licensed_device_pin ensure_permanent_device_license set_device_auto_activation
    grant_device_license revoke_licensed_device unrevoke_licensed_device delete_licensed_device
    generate_activation_key revoke_activation_key revoke_by_fingerprint redeem_activation_key
    redeem_device_activation_key register_user login logout bind_device touch_device revoke_device
step-codes env (registers now id key name) s = inr (ground arith)
step-codes env (renames id name) s = inr (ground arith)
step-codes env (touches id seen) s = inr (ground arith)
step-codes env (sets_pin id pin) s = inr (ground arith)
step-codes env (ensures_permanent now id) s = inr refl
step-codes env (sets_auto enabled) s = inr refl
step-codes env (grants now id duration) s = inr (ground arith)
step-codes env (revokes now id) s = inr (ground arith)
step-codes env (unrevokes id) s = inr (ground arith)
step-codes env (deletes id) s = inr (ground arith)
step-codes env (ensures_code draws id) s = inl (draws, id, refl)
step-codes env (generates now nanos encoded duration window) s = inr (ground arith)
step-codes env (revokes_key now key) s = inr (ground arith)
step-codes env (revokes_print now print) s = inr (ground arith)
step-codes env (redeems now id key) s = inr (
    redeem_for-codes (hash_token env (normal env key)) (normal env id) now
      (find_device (normal env id) s) s)
step-codes env (redeems_user now username key) s =
    let hash = hash_token env (normal env key) in
    inr ((redeem_user_found-frame hash username now (find_key hash s) s).1)
step-codes env (registers_user now salt name password) s = inr (ground arith)
step-codes env (logs_in now raw name password) s =
    let name = trim_space name in
    inr ((login_as-frame env now raw name password (find_user name s) s).1)
step-codes env (logs_out now token) s = inr refl
step-codes env (binds now username id key name) s = inr (ground arith)
step-codes env (touches_owned now id) s = inr refl
step-codes env (revokes_owned now username id) s = inr (ground arith)
