-- ===== src/Account/Tests.antt =====
-- The theorems about internal/account at concrete inputs.
use yudesk.Base.{
  ℕ, ◌+◌, ◌%◌, ◌≡◌, ◌≢◌, ◌⊎◌, refl, true, false, none, some, List, [], ◌∷◌, arith, length, ltb,
  if◌then◌else◌, same,
}
use yudesk.Text.{Text, Platform, hex, trim_space}
use yudesk.Account.Data.{
  Device, ActivationKey, DeviceCode, Store, Error, ok, err, empty, normal, hash_token,
}
use yudesk.Account.Devices.{
  identity_of, find_device, register_licensed_device, grant_device_license, revoke_licensed_device,
  touch_licensed_device, has_active_device_license, ensure_permanent_device_license,
}
use yudesk.Account.Codes.{
  find_code, is_code, valid_device_code, ensure_device_code, resolve_device_code,
}
use yudesk.Account.Keys.{redeem_device_activation_key, redeem_activation_key}
use yudesk.Account.Users.{login, logout, authenticate, register_user, session_lifetime}
use yudesk.Account.Calls.{Call, run}
use yudesk.Account.Identity.{WellFormed, run-WellFormed, run-keeps_identity, IsSameDevice}
use yudesk.Account.Aliases.{IsInjective, run-IsInjective, run-keeps_code}
use yudesk.Account.Resolve.{ensure-resolve}
use yudesk.Account.Redeem.Once.{redeem-once}
use yudesk.Account.Redeem.Effect.{redeem_effect, Redeemed}
use yudesk.Account.Revocation.{revoked_stays_out}
use yudesk.Account.Normal.{HashesBytes}
use yudesk.Account.License.{grant_effect, GrantEffect}
use yudesk.Account.Heartbeat.{touch_effect, heard_if}
use yudesk.Account.Sessions.{login_authenticates, logout_ends}
use yudesk.Sql.{select}

abbrev zeros : List ℕ
zeros = 0 ∷ 0 ∷ 0 ∷ 0 ∷ 0 ∷ 0 ∷ 0 ∷ 0 ∷ 0 ∷ 0 ∷ 0 ∷ 0 ∷ []

abbrev demo : Platform
demo = record {
  upper_wide = λ c. c;
  sha256 = λ m. (length m % 256) ∷ zeros;
  argon2 = λ password salt. (length password % 256) ∷ salt;
}

demo-HashesBytes : HashesBytes demo
demo-HashesBytes m = ground arith

abbrev key : List ℕ
key =
    1 ∷ 2 ∷ 3 ∷ 4 ∷ 5 ∷ 6 ∷ 7 ∷ 8 ∷ 1 ∷ 2 ∷ 3 ∷ 4 ∷ 5 ∷ 6 ∷ 7 ∷ 8 ∷ 1 ∷ 2 ∷ 3 ∷ 4 ∷ 5 ∷ 6 ∷ 7 ∷ 8
    ∷ 1 ∷ 2 ∷ 3 ∷ 4 ∷ 5 ∷ 6 ∷ 7 ∷ 8 ∷ []

-- `20` and eleven zero bytes, in hexadecimal
abbrev id : Text
id =
    50 ∷ 48 ∷ 48 ∷ 48 ∷ 48 ∷ 48 ∷ 48 ∷ 48 ∷ 48 ∷ 48 ∷ 48 ∷ 48 ∷ 48 ∷ 48 ∷ 48 ∷ 48 ∷ 48 ∷ 48 ∷ 48
    ∷ 48 ∷ 48 ∷ 48 ∷ 48 ∷ 48 ∷ []

id_of_key : identity_of demo key ≡ id
unfolding identity_of
id_of_key = refl

abbrev voucher : Text
voucher = b'A' ∷ b'B' ∷ []

abbrev device : Device
device = record {
  device_id = id;
  public_key = key;
  name = b'p' ∷ [];
  pairing_pin = [];
  first_seen = 100;
  last_seen = 100;
  active_until = 0;
  revoked_at = 0;
}

abbrev label : DeviceCode
label = record {
  device_id = id;
  code = b'1' ∷ b'0' ∷ b'0' ∷ b'0' ∷ b'0' ∷ b'0' ∷ b'0' ∷ b'0' ∷ b'5' ∷ [];
}

abbrev unused : ActivationKey
unused = record {
  key_hash = hash_token demo (normal demo voucher);
  duration_seconds = 7200;
  created_at = 50;
  redeem_before = 500;
  redeemed_by = [];
  redeemed_at = 0;
  revoked_at = 0;
}

abbrev home : Store
home = record empty { devices = device ∷ []; keys = unused ∷ [] }

abbrev labelled : Store
labelled = record home { codes = label ∷ [] }

abbrev history : List Call
history =
    Call.registers 100 id key (b'p' ∷ [])
    ∷ Call.touches id (some 120)
    ∷ Call.grants 130 id 7_200_000_000_000
    ∷ Call.ensures_code (5 ∷ []) id
    ∷ []

home-WellFormed : WellFormed demo home.devices
unfolding identity_of
home-WellFormed = record { keyed = (tt, tt); genuine = (refl, tt) }

labelled-IsInjective : IsInjective labelled.codes
labelled-IsInjective = record { by_id = (tt, tt); by_code = (tt, tt) }

run-keeps_identity_example : IsSameDevice id device (run demo history home)
unfolding find_device select same
run-keeps_identity_example = run-keeps_identity demo history id home {d = device} refl refl

run-WellFormed_example : WellFormed demo (run demo history empty).devices
run-WellFormed_example = run-WellFormed demo history

run-IsInjective_example : IsInjective (run demo history empty).codes
run-IsInjective_example = run-IsInjective demo history

run-keeps_code_example :
    (find_code id (run demo history labelled) ≡ some label)
    × (select (is_code label.code) (run demo history labelled).codes ≡ some label)
unfolding find_code select same
run-keeps_code_example =
    run-keeps_code demo history id labelled {c = label} labelled-IsInjective refl

redeem-once_example :
    let s' = run demo history (redeem_device_activation_key demo 200 id voucher home).1 in
    ((redeem_device_activation_key demo 300 id voucher s').0 ≢ ok 9999)
    × ((redeem_activation_key demo 300 (b'u' ∷ []) voucher s').0 ≢ ok 9999)
unfolding redeem_device_activation_key find_device select same normal hash_token yudesk.Sql.affected
redeem-once_example = redeem-once demo 200 300 id id (b'u' ∷ []) voucher history home 7400 9999 refl

redeem_effect_example :
    let r = redeem_device_activation_key demo 200 id voucher home in
    ((e : Error) × (r ≡ (err e, home)))
    ⊎ Redeemed (normal demo id) (hash_token demo (normal demo voucher)) id 200 home r
redeem_effect_example = redeem_effect demo 200 id voucher id home

ensure-resolve_example :
    let s' = (ensure_device_code demo (5 ∷ []) id home).1 in
    (valid_device_code label.code ≡ true)
    × (resolve_device_code label.code s' ≡ ok (normal demo id))
    × (ensure_device_code demo [] id s' ≡ (ok label.code, s'))
unfolding ensure_device_code find_device select same normal yudesk.Text.decimal yudesk.Sql.insert
ensure-resolve_example =
    ensure-resolve demo (5 ∷ []) [] id home label.code {d = device} refl
      (record { by_id = tt; by_code = tt }) tt refl refl

revoked_stays_out_example :
    let s' =
      run demo (Call.touches id (some 120) ∷ []) (revoke_licensed_device demo 300 id home).1 in
    (has_active_device_license demo 400 id s' ≡ false)
    × ((ensure_permanent_device_license demo 400 id s').0 ≡ ok false)
    × ((redeem_device_activation_key demo 400 id voucher s').0 ≢ ok 9999)
    × ((register_licensed_device demo 400 id key [] s').0 ≢ ok tt)
unfolding revoke_licensed_device yudesk.Sql.affected same normal
revoked_stays_out_example =
    revoked_stays_out demo 300 400 id voucher [] key (Call.touches id (some 120) ∷ []) home 9999
      (ground arith) home-WellFormed refl refl

grant_effect_example :
    GrantEffect demo 200 7_200_000_000_000 300 id home
      (grant_device_license demo 200 id 7_200_000_000_000 home)
grant_effect_example =
    grant_effect demo 200 7_200_000_000_000 300 id home demo-HashesBytes home-WellFormed
      (ground arith)

touch_effect_example :
    find_device id (touch_licensed_device demo id (some 150) home).1
    ≡ heard_if (same (normal demo id) id) 150 (find_device id home)
touch_effect_example = touch_effect demo id id 150 home

abbrev guests : Store
guests =
    (register_user demo 10 (1 ∷ 2 ∷ []) (b'a' ∷ b'n' ∷ b'n' ∷ [])
      (b'p' ∷ b'a' ∷ b's' ∷ b's' ∷ b'w' ∷ b'o' ∷ b'r' ∷ b'd' ∷ b'1' ∷ b'2' ∷ []) empty).1

login_authenticates_example :
    authenticate demo 60
      (hex (1 ∷ 2 ∷ []))
      (login demo 50
        (1 ∷ 2 ∷ [])
        (b'a' ∷ b'n' ∷ b'n' ∷ [])
        (b'p' ∷ b'a' ∷ b's' ∷ b's' ∷ b'w' ∷ b'o' ∷ b'r' ∷ b'd' ∷ b'1' ∷ b'2' ∷ [])
        guests).1
    ≡ (if ltb 60 (50 + session_lifetime) then some (trim_space (b'a' ∷ b'n' ∷ b'n' ∷ [])) else none)
unfolding register_user login same hex select trim_space yudesk.Text.bytes yudesk.Sql.insert
login_authenticates_example =
    login_authenticates demo 50 60 (1 ∷ 2 ∷ []) (b'a' ∷ b'n' ∷ b'n' ∷ [])
      (b'p' ∷ b'a' ∷ b's' ∷ b's' ∷ b'w' ∷ b'o' ∷ b'r' ∷ b'd' ∷ b'1' ∷ b'2' ∷ []) guests
      (hex (1 ∷ 2 ∷ [])) refl refl

logout_ends_example :
    authenticate demo 70 (hex (1 ∷ 2 ∷ [])) (logout demo 60 (hex (1 ∷ 2 ∷ [])) guests).1 ≡ none
logout_ends_example = logout_ends demo 60 70 (hex (1 ∷ 2 ∷ [])) guests (ground arith)
