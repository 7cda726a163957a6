-- ===== src/Account/Devices.antt =====
-- internal/account/account.go: the methods on `licensed_devices` and on the setting that activates
-- new devices. `now` is `time.Now().Unix()`; a duration is in nanoseconds, as `time.Duration`.
use yudesk.Base.{
  ℕ, ◌+◌, ◌/◌, ◌*◌, Bool, false, not, ◌&&◌, ◌||◌, Option, none, some, List, [], ◌∷◌, ltb, leb, ◌==◌,
  if◌then◌else◌, same, length, take, all_of,
}
use yudesk.Text.{Text, Platform, bytes, hex, to_upper, trim_space, is_digit}
use yudesk.Sql.{select, update, affected, delete, insert}
use yudesk.Account.Data.{
  Device, Store, Error, Result, ok, err, Action, permanent_license, hour, ten_years, normal,
}

-- `secureconn.DeviceID`
unfoldable pub identity_of : Platform → List ℕ → Text
unfolding to_upper hex
identity_of env public_key = to_upper env (hex (take 12 (env.sha256 public_key)))

-- `WHERE device_id=?`
abbrev pub has_id : Text → Device → Bool
has_id id d = same d.device_id id

unfoldable pub find_device : Text → Store → Option Device
find_device id s = select (has_id id) s.devices

unfoldable pub new_device : Text → List ℕ → Text → ℕ → Device
new_device id public_key name now = record {
  device_id = id;
  public_key = public_key;
  name = name;
  pairing_pin = [];
  first_seen = now;
  last_seen = now;
  active_until = 0;
  revoked_at = 0;
}

-- `SET last_seen=?,name=CASE WHEN ?='' THEN name ELSE ? END`
unfoldable pub seen_as : Text → ℕ → Device → Device
seen_as name now d = record d { last_seen = now; name = if same name [] then d.name else name }

-- The `switch` of RegisterLicensedDeviceNamed, on the row that the query found.
unfoldable pub admit_device : Text → List ℕ → Text → ℕ → Option Device → Action (Unit {0})
unfolding new_device seen_as
admit_device id public_key name now none s =
    (ok tt, record s { devices = insert (new_device id public_key name now) s.devices })
admit_device id public_key name now (some d) s =
    if not (same d.public_key public_key)
    then (err Error.identity_changed, s)
    else if not (d.revoked_at == 0)
    then (err Error.device_revoked, s)
    else (ok tt, record s { devices = update (has_id id) (seen_as name now) s.devices })

-- `RegisterLicensedDeviceNamed`
unfoldable pub register_licensed_device : Platform → ℕ → Text → List ℕ → Text → Action (Unit {0})
unfolding admit_device find_device
register_licensed_device env now device_id public_key name s =
    let id = normal env device_id in
    let shown = trim_space name in
    if ltb 80 (length shown)
    then (err Error.name_too_long, s)
    else if not (length public_key == 32) || not (same (identity_of env public_key) id)
    then (err Error.identity_mismatch, s)
    else admit_device id public_key shown now (find_device id s) s

-- UPDATE … WHERE, then an error unless exactly one row was affected.
unfoldable pub update_one : (Device → Bool) → (Device → Device) → Error → Action (Unit {0})
update_one test change missing s =
    let s' : Store = record s { devices = update test change s.devices } in
    if affected test s.devices == 1 then (ok tt, s') else (err missing, s')

unfoldable pub rename_licensed_device : Platform → Text → Text → Action (Unit {0})
unfolding update_one
rename_licensed_device env device_id name s =
    let shown = trim_space name in
    if same shown [] || ltb 80 (length shown)
    then (err Error.name_empty_or_long, s)
    else update_one (has_id (normal env device_id)) (λ d. record d { name = shown })
        Error.device_not_found s

-- `TouchLicensedDevice`; `none` is the zero time.
unfoldable pub touch_licensed_device : Platform → Text → Option ℕ → Action (Unit {0})
touch_licensed_device env device_id none s = (ok tt, s)
touch_licensed_device env device_id (some seen) s = (
  ok tt,
  record s {
    devices =
        update (λ d. has_id (normal env device_id) d && ltb d.last_seen seen)
          (λ d. record d { last_seen = seen }) s.devices;
  },
)

-- `UpdateLicensedDevicePIN`; `len` counts bytes, the loop walks code points.
unfoldable pub update_licensed_device_pin : Platform → Text → Text → Action (Unit {0})
unfolding update_one is_digit
update_licensed_device_pin env device_id raw_pin s =
    let pin = trim_space raw_pin in
    if ltb (length (bytes pin)) 6 || ltb 8 (length (bytes pin))
    then (err Error.pin_not_digits, s)
    else if not (all_of is_digit pin)
    then (err Error.pin_not_digits, s)
    else update_one (has_id (normal env device_id)) (λ d. record d { pairing_pin = pin })
        Error.device_not_found s

-- The tail of `DeviceLicenseExpiry`, on the row that the query found. `none` is the zero time.
unfoldable pub expiry_of : Option Device → Result (Option ℕ)
expiry_of none = err Error.no_rows
expiry_of (some d) =
    if not (d.revoked_at == 0)
    then err Error.device_revoked
    else if d.active_until == 0
    then ok none
    else ok (some d.active_until)

unfoldable pub device_license_expiry : Platform → Text → Store → Result (Option ℕ)
unfolding expiry_of find_device
device_license_expiry env device_id s = expiry_of (find_device (normal env device_id) s)

abbrev pub is_after : Result (Option ℕ) → ℕ → Bool
is_after (ok (some expiry)) now = ltb now expiry
is_after (ok none) now = false
is_after (err e) now = false

unfoldable pub has_active_device_license : Platform → ℕ → Text → Store → Bool
unfolding device_license_expiry
has_active_device_license env now device_id s = is_after (device_license_expiry env device_id s) now

unfoldable pub is_permanent_device_license : ℕ → Bool
is_permanent_device_license expiry = leb permanent_license expiry

unfoldable pub ensure_permanent_device_license : Platform → ℕ → Text → Action Bool
ensure_permanent_device_license env now device_id s =
    let test : (Device → Bool) =
      λ d. has_id (normal env device_id) d && d.revoked_at == 0 && leb d.active_until now in
    (
      ok (affected test s.devices == 1),
      record s {
        devices = update test (λ d. record d { active_until = permanent_license }) s.devices;
      },
    )

-- `DeviceAutoActivation`
unfoldable pub device_auto_activation : Store → Bool
device_auto_activation s = elim s.auto_activation [
  | none ↦ false
  | some value ↦ same value (b'1' ∷ [])
]

unfoldable pub set_device_auto_activation : Bool → Action (Unit {0})
set_device_auto_activation enabled s =
    (ok tt, record s { auto_activation = some ((if enabled then b'1' else b'0') ∷ []) })

-- The `CASE` of GrantDeviceLicense.
unfoldable pub granted_until : ℕ → ℕ → ℕ → ℕ
granted_until now seconds current =
    if leb permanent_license current
    then current
    else if ltb now current
    then current + seconds
    else now + seconds

unfoldable pub grant_device_license : Platform → ℕ → Text → ℕ → Action (Option ℕ)
unfolding granted_until device_license_expiry
grant_device_license env now device_id duration s =
    if ltb duration (hour * 1_000_000_000) || ltb (ten_years * 1_000_000_000) duration
    then (err Error.bad_duration, s)
    else let seconds = duration / 1_000_000_000 in
      let id = normal env device_id in
      let s' : Store = record s {
        devices =
            update (has_id id)
              (λ d. record d {
                active_until = granted_until now seconds d.active_until;
                revoked_at = 0;
              })
              s.devices;
      } in
      if affected (has_id id) s.devices == 1
      then (device_license_expiry env id s', s')
      else (err Error.device_never_connected, s')

unfoldable pub revoke_licensed_device : Platform → ℕ → Text → Action (Unit {0})
unfolding update_one
revoke_licensed_device env now device_id =
    update_one (λ d. has_id (normal env device_id) d && d.revoked_at == 0)
      (λ d. record d { revoked_at = now }) Error.not_found_or_revoked

unfoldable pub unrevoke_licensed_device : Platform → Text → Action (Unit {0})
unfolding update_one
unrevoke_licensed_device env device_id =
    update_one (λ d. has_id (normal env device_id) d && ltb 0 d.revoked_at)
      (λ d. record d { revoked_at = 0 }) Error.not_disabled

unfoldable pub delete_licensed_device : Platform → Text → Action (Unit {0})
delete_licensed_device env device_id s =
    let test : (Device → Bool) = has_id (normal env device_id) in
    let s' : Store = record s { devices = delete test s.devices } in
    if affected test s.devices == 1 then (ok tt, s') else (err Error.device_not_found, s')
