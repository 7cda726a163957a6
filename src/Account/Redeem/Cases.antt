-- ===== src/Account/Redeem/Cases.antt =====
-- The two ways in which redeeming an activation key ends, as rules for case analysis: a refusal,
-- which writes nothing, or the two writes under the conditions that the code has tested.
use yudesk.Base.{
  ℕ, ◌≤◌, ◌<◌, ◌≡◌, refl, false, Option, none, some, [], arith, same, same→≡, Bool-cases,
  Option-cases, inl, inr, ◌==◌, leb, ◌++◌,
}
use yudesk.Text.{Text}
use yudesk.Sql.{select, update, affected}
use yudesk.Account.Data.{
  ActivationKey, Device, User, Store, Result, ok, err, Error, permanent_license,
}
use yudesk.Account.Devices.{has_id}
use yudesk.Account.Keys.{
  find_key, is_open, mark_redeemed, device_prefix, redeem_for, redeem_found, redeem_writes,
  redeem_user_found, redeem_user_writes, key_objection, extended, is_user,
}

-- The tests of the key.
pub record IsRedeemable (now : ℕ) (k : ActivationKey) : Type 0 where
  pub not_revoked : k.revoked_at ≡ 0
  pub unclaimed : k.redeemed_by ≡ []
  pub unredeemed : k.redeemed_at ≡ 0
  pub in_time : now ≤ k.redeem_before

-- The tests of the device.
pub record IsExtendable (d : Device) : Type 0 where
  pub enabled : d.revoked_at ≡ 0
  pub limited : d.active_until < permanent_license

pub key_objection-none :
    (now : ℕ) (k : ActivationKey) → key_objection now k ≡ none → IsRedeemable now k
unfolding key_objection
key_objection-none now k h = record {
  not_revoked = ground arith;
  unclaimed = same→≡ k.redeemed_by [] (ground arith);
  unredeemed = ground arith;
  in_time = ground arith;
}

-- A key that carries the name of whoever redeemed it is refused.
pub key_objection-used :
    (now : ℕ) (k : ActivationKey)
    → same k.redeemed_by [] ≡ false
    → (e : Error) × (key_objection now k ≡ some e)
unfolding key_objection
key_objection-used now k used = elim (Bool-cases (k.revoked_at == 0)) [
  | inl live ↦ (Error.key_used, rw (live, used))
  | inr revoked ↦ (Error.key_revoked, rw revoked)
]

abbrev pub redeemed_store : Text → Text → ℕ → ℕ → Store → Store
redeemed_store hash id now expiry s = record s {
  keys = mark_redeemed hash (device_prefix ++ id) now s.keys;
  devices = update (has_id id) (λ d. record d { active_until = expiry }) s.devices;
}

pub redeem_found_cases {ℓ} :
    (P : Result ℕ × Store → Type ℓ) (hash id : Text) (now current : ℕ) (o : Option ActivationKey)
    (s : Store)
    → ((e : Error) → P (err e, s))
    → ((k : ActivationKey)
        → o ≡ some k
        → IsRedeemable now k
        → let expiry = extended now current k.duration_seconds in
          P (ok expiry, redeemed_store hash id now expiry s))
    → P (redeem_found hash id now current o s)
unfolding redeem_found redeem_writes
redeem_found_cases P hash id now current none s refused done = refused Error.invalid_key
redeem_found_cases P hash id now current (some k) s refused done =
    elim (Option-cases (key_objection now k)) [
      | inr (e, objected) ↦ rw (objected, redeem_found) (refused e)
      | inl free ↦ elim (Bool-cases (affected (is_open hash) s.keys == 1)) [
        | inl won ↦ rw (free, redeem_found, won) (done k refl (key_objection-none now k free))
        | inr lost ↦ rw (free, redeem_found, lost) (refused Error.key_unavailable)
      ]
    ]

pub redeem_for_cases {ℓ} :
    (P : Result ℕ × Store → Type ℓ) (hash id : Text) (now : ℕ) (o : Option Device) (s : Store)
    → ((e : Error) → P (err e, s))
    → ((d : Device) (k : ActivationKey)
        → o ≡ some d
        → find_key hash s ≡ some k
        → IsExtendable d
        → IsRedeemable now k
        → let expiry = extended now d.active_until k.duration_seconds in
          P (ok expiry, redeemed_store hash id now expiry s))
    → P (redeem_for hash id now o s)
unfolding redeem_for
redeem_for_cases P hash id now none s refused done = refused Error.device_never_connected
redeem_for_cases P hash id now (some d) s refused done = elim (Bool-cases (d.revoked_at == 0)) [
  | inr revoked ↦ rw revoked (refused Error.device_revoked)
  | inl live ↦ elim (Bool-cases (leb permanent_license d.active_until)) [
    | inl permanent ↦ rw (live, permanent) (refused Error.already_permanent)
    | inr limited ↦
        rw (live, limited)
          (redeem_found_cases P hash id now d.active_until (find_key hash s) s refused
            (λ k found free.
              done d k refl found (record { enabled = ground arith; limited = ground arith }) free))
  ]
]

abbrev pub redeemed_user_store : Text → Text → ℕ → ℕ → Store → Store
redeemed_user_store hash username now expiry s = record s {
  keys = mark_redeemed hash username now s.keys;
  users = update (is_user username) (λ v. record v { active_until = expiry }) s.users;
}

redeem_user_writes_cases {ℓ} :
    (P : Result ℕ × Store → Type ℓ) (hash username : Text) (now : ℕ) (k : ActivationKey)
    (o : Option User) (s : Store)
    → ((e : Error) → P (err e, s))
    → ((u : User)
        → o ≡ some u
        → let expiry = extended now u.active_until k.duration_seconds in
          P (ok expiry, redeemed_user_store hash username now expiry s))
    → P (redeem_user_writes hash username now k o s)
unfolding redeem_user_writes
redeem_user_writes_cases P hash username now k none s refused done = refused Error.no_rows
redeem_user_writes_cases P hash username now k (some u) s refused done =
    elim (Bool-cases (affected (is_open hash) s.keys == 1)) [
      | inl won ↦ rw won (done u refl)
      | inr lost ↦ rw lost (refused Error.key_unavailable)
    ]

pub redeem_user_cases {ℓ} :
    (P : Result ℕ × Store → Type ℓ) (hash username : Text) (now : ℕ) (o : Option ActivationKey)
    (s : Store)
    → ((e : Error) → P (err e, s))
    → ((u : User) (k : ActivationKey)
        → o ≡ some k
        → select (is_user username) s.users ≡ some u
        → IsRedeemable now k
        → let expiry = extended now u.active_until k.duration_seconds in
          P (ok expiry, redeemed_user_store hash username now expiry s))
    → P (redeem_user_found hash username now o s)
unfolding redeem_user_found
redeem_user_cases P hash username now none s refused done = refused Error.invalid_key
redeem_user_cases P hash username now (some k) s refused done =
    elim (Option-cases (key_objection now k)) [
      | inr (e, objected) ↦ rw (objected, redeem_user_found) (refused e)
      | inl free ↦
          rw (free, redeem_user_found)
            (redeem_user_writes_cases P hash username now k (select (is_user username) s.users) s
              refused (λ u found. done u k refl found (key_objection-none now k free)))
    ]
