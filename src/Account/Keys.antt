-- ===== src/Account/Keys.antt =====
-- internal/account/account.go: activation keys. A key is stored by its hash; redeeming is one
-- transaction, so a failure rolls everything back.
use yudesk.Base.{
  ℕ, zero, suc, ◌+◌, ◌/◌, ◌*◌, Bool, not, ◌&&◌, ◌||◌, Option, none, some, List, [], ◌∷◌, ◌++◌, ltb,
  leb, ◌==◌, if◌then◌else◌, same, length, take, drop,
}
use yudesk.Text.{Text, Platform, bytes, to_upper}
use yudesk.Sql.{select, update, affected, insert}
use yudesk.Account.Data.{
  ActivationKey, User, Device, Store, Error, ok, err, Action, permanent_license, hour, ten_years,
  normal, hash_token,
}
use yudesk.Account.Devices.{has_id, find_device}

abbrev pub has_hash : Text → ActivationKey → Bool
has_hash hash k = same k.key_hash hash

unfoldable pub find_key : Text → Store → Option ActivationKey
find_key hash s = select (has_hash hash) s.keys

-- `base32` characters in groups of four behind "YU"; the fuel is the number of characters.
unfoldable pub groups_of_four : ℕ → Text → Text
groups_of_four zero encoded = []
groups_of_four (suc fuel) [] = []
groups_of_four (suc fuel) (c ∷ encoded) =
    b'-' ∷ take 4 (c ∷ encoded) ++ groups_of_four fuel (drop 4 (c ∷ encoded))

unfoldable pub key_text : Text → Text
unfolding groups_of_four
key_text encoded = b'Y' ∷ b'U' ∷ groups_of_four (length encoded) encoded

abbrev pub second : ℕ
second = 1_000_000_000

-- The row of a fresh key. `nanos` is what `now` leaves over of a second.
unfoldable pub new_key : Platform → ℕ → ℕ → Text → ℕ → ℕ → ActivationKey
new_key env now nanos key duration window = record {
  key_hash = hash_token env key;
  duration_seconds = duration / second;
  created_at = now;
  redeem_before = now + (nanos + window) / second;
  redeemed_by = [];
  redeemed_at = 0;
  revoked_at = 0;
}

-- INSERT, which a row with the same primary key refuses.
unfoldable pub insert_key : ActivationKey → Text → Option ActivationKey → Action Text
insert_key k key (some taken) s = (err Error.constraint_failed, s)
insert_key k key none s = (ok key, record s { keys = insert k s.keys })

-- `GenerateActivationKey`, on the random bytes in base32. A window of 0 stands for any that is not
-- positive.
unfoldable pub generate_activation_key : Platform → ℕ → ℕ → Text → ℕ → ℕ → Action Text
unfolding key_text new_key insert_key find_key
generate_activation_key env now nanos encoded duration redeem_window s =
    if ltb duration (hour * second) || ltb (ten_years * second) duration
    then (err Error.bad_duration, s)
    else let window = if redeem_window == 0 then 90 * 24 * hour * second else redeem_window in
      let key = key_text encoded in
      insert_key (new_key env now nanos key duration window) key (find_key (hash_token env key) s) s

-- `redeemed_at=0 AND revoked_at=0`
abbrev pub is_unused : ActivationKey → Bool
is_unused k = k.redeemed_at == 0 && k.revoked_at == 0

unfoldable pub revoke_keys : ℕ → (ActivationKey → Bool) → Error → Action (Unit {0})
revoke_keys now test missing s =
    let s' : Store = record s { keys = update test (λ k. record k { revoked_at = now }) s.keys } in
    if affected test s.keys == 1 then (ok tt, s') else (err missing, s')

unfoldable pub revoke_activation_key : Platform → ℕ → Text → Action (Unit {0})
unfolding revoke_keys
revoke_activation_key env now key =
    revoke_keys now (λ k. has_hash (hash_token env (normal env key)) k && is_unused k)
      Error.key_not_revocable

-- `UPPER(SUBSTR(key_hash,1,12))=?`, on a stored hash, which is hexadecimal.
abbrev pub has_fingerprint : Platform → Text → ActivationKey → Bool
has_fingerprint env fingerprint k = same (to_upper env (take 12 k.key_hash)) fingerprint

-- `RevokeActivationKeyByFingerprint`
unfoldable pub revoke_by_fingerprint : Platform → ℕ → Text → Action (Unit {0})
unfolding revoke_keys
revoke_by_fingerprint env now raw s =
    let fingerprint = normal env raw in
    if not (length (bytes fingerprint) == 12)
    then (err Error.bad_fingerprint, s)
    else revoke_keys now (λ k. has_fingerprint env fingerprint k && is_unused k)
        Error.unused_key_not_found s

-- The tests of a key before it is redeemed, in the order of the code; `none` is "no objection".
unfoldable pub key_objection : ℕ → ActivationKey → Option Error
key_objection now k =
    if not (k.revoked_at == 0)
    then some Error.key_revoked
    else if not (same k.redeemed_by []) || not (k.redeemed_at == 0)
    then some Error.key_used
    else if ltb k.redeem_before now
    then some Error.key_expired
    else none

-- `base := now; if current > base { base = current }; base + duration`
unfoldable pub extended : ℕ → ℕ → ℕ → ℕ
extended now current duration = (if ltb now current then current else now) + duration

-- `WHERE key_hash=? AND redeemed_by='' AND revoked_at=0`
abbrev pub is_open : Text → ActivationKey → Bool
is_open hash k = has_hash hash k && same k.redeemed_by [] && k.revoked_at == 0

unfoldable pub mark_redeemed : Text → Text → ℕ → List ActivationKey → List ActivationKey
mark_redeemed hash who now =
    update (is_open hash) (λ k. record k { redeemed_by = who; redeemed_at = now })

-- `"device:"`
abbrev pub device_prefix : Text
device_prefix = b'd' ∷ b'e' ∷ b'v' ∷ b'i' ∷ b'c' ∷ b'e' ∷ b':' ∷ []

-- The writes of RedeemDeviceActivationKey: the key is marked, then the device is extended.
unfoldable pub redeem_writes : Text → Text → ℕ → ℕ → Action ℕ
unfolding mark_redeemed
redeem_writes hash id now expiry s =
    if affected (is_open hash) s.keys == 1
    then (
      ok expiry,
      record s {
        keys = mark_redeemed hash (device_prefix ++ id) now s.keys;
        devices = update (has_id id) (λ d. record d { active_until = expiry }) s.devices;
      },
    )
    else (err Error.key_unavailable, s)

-- From the key that the query found to the end of the transaction.
unfoldable pub redeem_found : Text → Text → ℕ → ℕ → Option ActivationKey → Action ℕ
unfolding key_objection extended redeem_writes
redeem_found hash id now current none s = (err Error.invalid_key, s)
redeem_found hash id now current (some k) s = elim (key_objection now k) [
  | some e ↦ (err e, s)
  | none ↦ redeem_writes hash id now (extended now current k.duration_seconds) s
]

unfoldable pub redeem_for : Text → Text → ℕ → Option Device → Action ℕ
unfolding redeem_found find_key
redeem_for hash id now none s = (err Error.device_never_connected, s)
redeem_for hash id now (some d) s =
    if not (d.revoked_at == 0)
    then (err Error.device_revoked, s)
    else if leb permanent_license d.active_until
    then (err Error.already_permanent, s)
    else redeem_found hash id now d.active_until (find_key hash s) s

unfoldable pub redeem_device_activation_key : Platform → ℕ → Text → Text → Action ℕ
unfolding redeem_for
redeem_device_activation_key env now device_id key s =
    let id = normal env device_id in
    redeem_for (hash_token env (normal env key)) id now (find_device id s) s

abbrev pub is_user : Text → User → Bool
is_user username u = same u.username username

unfoldable pub redeem_user_writes : Text → Text → ℕ → ActivationKey → Option User → Action ℕ
unfolding mark_redeemed extended
redeem_user_writes hash username now k none s = (err Error.no_rows, s)
redeem_user_writes hash username now k (some u) s =
    let expiry = extended now u.active_until k.duration_seconds in
    if affected (is_open hash) s.keys == 1
    then (
      ok expiry,
      record s {
        keys = mark_redeemed hash username now s.keys;
        users = update (is_user username) (λ v. record v { active_until = expiry }) s.users;
      },
    )
    else (err Error.key_unavailable, s)

unfoldable pub redeem_user_found : Text → Text → ℕ → Option ActivationKey → Action ℕ
unfolding key_objection redeem_user_writes
redeem_user_found hash username now none s = (err Error.invalid_key, s)
redeem_user_found hash username now (some k) s = elim (key_objection now k) [
  | some e ↦ (err e, s)
  | none ↦ redeem_user_writes hash username now k (select (is_user username) s.users) s
]

-- `RedeemActivationKey`
unfoldable pub redeem_activation_key : Platform → ℕ → Text → Text → Action ℕ
unfolding redeem_user_found find_key
redeem_activation_key env now username key s =
    let hash = hash_token env (normal env key) in
    redeem_user_found hash username now (find_key hash s) s
