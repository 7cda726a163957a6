-- ===== src/Account/Moves/Devices.antt =====
-- What a call does to each table of the store: the cases that the invariants are proved over.
use yudesk.Base.{
  true, ◌⊎◌, inl, inr, ℕ, ◌*◌, ◌/◌, leb, all_of, [], ◌≡◌, refl, Bool, ◌||◌, Option, none, some,
  List, arith, ltb, ◌==◌, same, same→≡, length, Option-cases, Bool-cases,
}
use yudesk.Text.{Text, Platform, trim_space, bytes, is_digit}
use yudesk.Sql.{select, update, affected, delete, insert}
use yudesk.Account.Data.{
  Device, ActivationKey, Store, Error, normal, hour, ten_years, permanent_license,
}
use yudesk.Account.Devices.{
  identity_of, has_id, find_device, new_device, register_licensed_device, rename_licensed_device,
  touch_licensed_device, update_licensed_device_pin, grant_device_license, delete_licensed_device,
  admit_device, seen_as, update_one, granted_until,
}
use yudesk.Account.Keys.{
  redeem_for, redeem_found, redeem_writes, is_open, key_objection, extended, find_key,
}

-- A change of a device that leaves what identifies it.
abbrev pub Keeps : (Device → Device) → Type 0
Keeps change =
    (d : Device)
    → ((change d).device_id ≡ d.device_id)
      × ((change d).public_key ≡ d.public_key)
      × ((change d).first_seen ≡ d.first_seen)

-- It leaves the mark of revocation, sets it where there is none, or may lift it.
abbrev pub Honest : (Text → Type 0) → (Device → Bool) → (Device → Device) → Type 0
Honest lifts test change =
    (d : Device)
    → test d ≡ true
    → lifts d.device_id ⊎ (((change d).revoked_at ≡ d.revoked_at) ⊎ (d.revoked_at ≡ 0))

-- One statement on the table; `gone` says which ids a deletion may name, and `lifts` which
-- devices the statement may enable.
pub data DevicesMove (env : Platform) (gone lifts : Text → Type 0) (xs ys : List Device)
    : Type 0 where
  stay : ys ≡ xs → DevicesMove env gone lifts xs ys
  add :
      (d : Device)
      → select (has_id d.device_id) xs ≡ none
      → identity_of env d.public_key ≡ d.device_id
      → ys ≡ insert d xs
      → DevicesMove env gone lifts xs ys
  edit :
      (test : Device → Bool) (change : Device → Device)
      → Keeps change
      → Honest lifts test change
      → ys ≡ update test change xs
      → DevicesMove env gone lifts xs ys
  remove : (id : Text) → gone id → ys ≡ delete (has_id id) xs → DevicesMove env gone lifts xs ys

pub admit_device-Move :
    {gone lifts : Text → Type 0} (env : Platform) (id : Text) (key : List ℕ) (name : Text) (now : ℕ)
    (s : Store) (o : Option Device)
    → select (has_id id) s.devices ≡ o
    → identity_of env key ≡ id
    → DevicesMove env gone lifts s.devices (admit_device id key name now o s).1.devices
unfolding admit_device
admit_device-Move env id key name now s none e genuine =
    add (new_device id key name now) e genuine refl
admit_device-Move env id key name now s (some d) e genuine =
    elim (Bool-cases (same d.public_key key)) [
      | inr changed ↦ stay (ground arith)
      | inl kept ↦ elim (Bool-cases (d.revoked_at == 0)) [
        | inr revoked ↦ stay (ground arith)
        | inl live ↦
            edit (has_id id) (seen_as name now) (λ x. (refl, refl, refl)) (λ d h. inr (inl refl))
              (ground arith)
      ]
    ]

pub register-Move :
    {gone lifts : Text → Type 0} (env : Platform) (now : ℕ) (id : Text) (key : List ℕ) (name : Text)
    (s : Store)
    → DevicesMove env gone lifts s.devices
        (register_licensed_device env now id key name s).1.devices
unfolding register_licensed_device find_device
register-Move env now id key name s = elim (Bool-cases (ltb 80 (length (trim_space name)))) [
  | inl long ↦ rw long (stay refl)
  | inr short ↦ elim (Bool-cases (same (identity_of env key) (normal env id))) [
    | inr wrong ↦ stay (ground arith)
    | inl right ↦ elim (Bool-cases (length key == 32)) [
      | inr odd ↦ stay (ground arith)
      | inl whole ↦
          rw (short, right, whole)
            (admit_device-Move env (normal env id) key (trim_space name) now s _ refl
              (same→≡ _ _ right))
    ]
  ]
]

pub update_one-Move :
    {gone lifts : Text → Type 0} (env : Platform) (test : Device → Bool) (change : Device → Device)
    (e : Error) (s : Store)
    → Keeps change
    → Honest lifts test change
    → DevicesMove env gone lifts s.devices (update_one test change e s).1.devices
unfolding update_one
update_one-Move env test change e s keeps honest = edit test change keeps honest (ground arith)

pub rename-Move :
    {gone lifts : Text → Type 0} (env : Platform) (id name : Text) (s : Store)
    → DevicesMove env gone lifts s.devices (rename_licensed_device env id name s).1.devices
unfolding rename_licensed_device
rename-Move env id name s =
    elim (Bool-cases (same (trim_space name) [] || ltb 80 (length (trim_space name)))) [
      | inl bad ↦ rw bad (stay refl)
      | inr good ↦
          rw good (update_one-Move env _ _ _ s (λ d. (refl, refl, refl)) (λ d h. inr (inl refl)))
    ]

pub pin-Move :
    {gone lifts : Text → Type 0} (env : Platform) (id raw : Text) (s : Store)
    → DevicesMove env gone lifts s.devices (update_licensed_device_pin env id raw s).1.devices
unfolding update_licensed_device_pin
pin-Move env id raw s =
    let pin = trim_space raw in
    elim (Bool-cases (ltb (length (bytes pin)) 6 || ltb 8 (length (bytes pin)))) [
      | inl bad ↦ rw bad (stay refl)
      | inr sized ↦ elim (Bool-cases (all_of is_digit pin)) [
        | inl good ↦
            rw (sized, good)
              (update_one-Move env _ _ _ s (λ d. (refl, refl, refl)) (λ d h. inr (inl refl)))
        | inr odd ↦ rw (sized, odd) (stay refl)
      ]
    ]

pub touch-Move :
    {gone lifts : Text → Type 0} (env : Platform) (id : Text) (seen : Option ℕ) (s : Store)
    → DevicesMove env gone lifts s.devices (touch_licensed_device env id seen s).1.devices
unfolding touch_licensed_device
touch-Move env id none s = stay refl
touch-Move env id (some seen) s = edit _ _ (λ d. (refl, refl, refl)) (λ d h. inr (inl refl)) refl

pub grant-Move :
    {gone : Text → Type 0} (env : Platform) (now : ℕ) (id : Text) (duration : ℕ) (s : Store)
    → DevicesMove env gone
        (λ x. x ≡ normal env id)
        s.devices
        (grant_device_license env now id duration s).1.devices
unfolding grant_device_license
grant-Move env now id duration s =
    elim (Bool-cases
      (ltb duration (hour * 1_000_000_000) || ltb (ten_years * 1_000_000_000) duration)) [
        | inl bad ↦ rw bad (stay refl)
        | inr good ↦
            edit (has_id (normal env id))
              (λ d. record d {
                active_until = granted_until now (duration / 1_000_000_000) d.active_until;
                revoked_at = 0;
              })
              (λ d. (refl, refl, refl)) (λ d h. inl (same→≡ _ _ h)) (ground arith)
      ]

pub delete-Move :
    {lifts : Text → Type 0} (env : Platform) (id : Text) (s : Store)
    → DevicesMove env
        (λ x. x ≡ normal env id)
        lifts
        s.devices
        (delete_licensed_device env id s).1.devices
unfolding delete_licensed_device
delete-Move env id s = remove (normal env id) refl (ground arith)

pub redeem_writes-Move :
    {gone lifts : Text → Type 0} (env : Platform) (hash id : Text) (now expiry : ℕ) (s : Store)
    → DevicesMove env gone lifts s.devices (redeem_writes hash id now expiry s).1.devices
unfolding redeem_writes
redeem_writes-Move env hash id now expiry s =
    elim (Bool-cases (affected (is_open hash) s.keys == 1)) [
      | inl won ↦
          edit (has_id id) (λ d. record d { active_until = expiry }) (λ d. (refl, refl, refl))
            (λ d h. inr (inl refl)) (ground arith)
      | inr lost ↦ stay (ground arith)
    ]

pub redeem_found-Move :
    {gone lifts : Text → Type 0} (env : Platform) (hash id : Text) (now current : ℕ)
    (o : Option ActivationKey) (s : Store)
    → DevicesMove env gone lifts s.devices (redeem_found hash id now current o s).1.devices
unfolding redeem_found
redeem_found-Move env hash id now current none s = stay refl
redeem_found-Move env hash id now current (some k) s = elim (Option-cases (key_objection now k)) [
  | inl free ↦
      rw (free, redeem_found)
        (redeem_writes-Move env hash id now (extended now current k.duration_seconds) s)
  | inr (e, objected) ↦ rw (objected, redeem_found) (stay refl)
]

pub redeem_for-Move :
    {gone lifts : Text → Type 0} (env : Platform) (hash id : Text) (now : ℕ) (o : Option Device)
    (s : Store)
    → DevicesMove env gone lifts s.devices (redeem_for hash id now o s).1.devices
unfolding redeem_for
redeem_for-Move env hash id now none s = stay refl
redeem_for-Move env hash id now (some d) s = elim (Bool-cases (d.revoked_at == 0)) [
  | inr revoked ↦ rw revoked (stay refl)
  | inl live ↦ elim (Bool-cases (leb permanent_license d.active_until)) [
    | inl permanent ↦ rw (live, permanent) (stay refl)
    | inr limited ↦
        rw (live, limited) (redeem_found-Move env hash id now d.active_until (find_key hash s) s)
  ]
]
