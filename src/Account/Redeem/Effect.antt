-- ===== src/Account/Redeem/Effect.antt =====
-- What redeeming a key does to the store, on every branch.
use yudesk.Base.{
  ◌∷◌, ℕ, ◌+◌, ◌≡◌, refl, ◌∙◌, ap, false, some, List, [], ◌++◌, max, arith, same, same→≡,
  Bool-cases, ◌⊎◌, inl, inr, if◌then◌else◌, ltb,
}
use yudesk.Text.{Text, Platform}
use yudesk.Sql.{select, update}
use yudesk.Sql.Keyed.{select-update-some, select-test}
use yudesk.Account.Data.{ActivationKey, Device, Store, Result, ok, err, Error, normal, hash_token}
use yudesk.Account.Devices.{has_id, find_device}
use yudesk.Account.Keys.{find_key, device_prefix, redeem_device_activation_key, extended}
use yudesk.Account.Redeem.Cases.{IsRedeemable, IsExtendable, redeem_for_cases, redeemed_store}
use yudesk.Account.Redeem.Once.{mark-found}

extended_lem :
    (now current duration : ℕ) → extended now current duration ≡ max now current + duration
unfolding extended
extended_lem now current duration = elim (Bool-cases (ltb now current)) [
  | inl h ↦ rw h (ground arith)
  | inr h ↦ rw h (ground arith)
]

abbrev pub extended_device : Device → ℕ → Device
extended_device d expiry = record d { active_until = expiry }

-- A redemption that went through, and what is then found under the id `other`.
pub record Redeemed (id hash other : Text) (now : ℕ) (s : Store) (r : Result ℕ × Store)
    : Type 0 where
  pub device : Device
  pub key : ActivationKey
  pub device_before : find_device id s ≡ some device
  pub key_before : find_key hash s ≡ some key
  pub extendable : IsExtendable device
  pub redeemable : IsRedeemable now key
  pub answer : r.0 ≡ ok (max now device.active_until + key.duration_seconds)
  pub key_after :
      find_key hash r.1 ≡ some (record key { redeemed_by = device_prefix ++ id; redeemed_at = now })
  pub devices_after : find_device other r.1 ≡ (
      if same id other
      then some (extended_device device (max now device.active_until + key.duration_seconds))
      else find_device other s)

unmoved :
    (id x : Text) (expiry : ℕ) (rows : List Device)
    → same id x ≡ false
    → select (has_id x) (update (has_id id) (λ d. record d { active_until = expiry }) rows)
      ≡ select (has_id x) rows
unfolding select update
unmoved id x expiry [] h = refl
unmoved id x expiry (d ∷ rows) h = elim (Bool-cases (same d.device_id id)) [
  | inr miss ↦ rw miss (ground (arith, unmoved id x expiry rows h))
  | inl hit ↦
      let e = same→≡ d.device_id id hit in
      rw (hit, e, h) (ground (arith, unmoved id x expiry rows h))
]

went_through :
    (hash id other : Text) (now : ℕ) (d : Device) (k : ActivationKey) (s : Store)
    → find_device id s ≡ some d
    → find_key hash s ≡ some k
    → IsExtendable d
    → IsRedeemable now k
    → let expiry = extended now d.active_until k.duration_seconds in
      Redeemed id hash other now s (ok expiry, redeemed_store hash id now expiry s)
unfolding find_device find_key
went_through hash id other now d k s known found able free = record {
  device = d;
  key = k;
  device_before = known;
  key_before = found;
  extendable = able;
  redeemable = free;
  answer = ap ok until;
  key_after = mark-found hash (device_prefix ++ id) now k s found free;
  devices_after = elim (Bool-cases (same id other)) [
    | inr apart ↦ rw apart (unmoved id other _ s.devices apart)
    | inl here ↦
        rw (here, ← same→≡ id other here, ← until)
          (select-update-some (has_id id) (has_id id) _ s.devices (λ x. refl) known
            ∙ rw (select-test (has_id id) s.devices known))
  ];
}
  where
    until :
        extended now d.active_until k.duration_seconds ≡ max now d.active_until + k.duration_seconds
    until = extended_lem now d.active_until k.duration_seconds

-- RedeemDeviceActivationKey either fails and leaves the store as it was, or the device was
-- licensed, enabled and not permanent and the key unused, unrevoked and in time; then the license
-- runs from the later of now and its old end for the key's duration, the key names the device, and
-- under any id the store finds the extended device if it is this device's, and else what it found.
pub redeem_effect :
    (env : Platform) (now : ℕ) (id key other : Text) (s : Store)
    → let r = redeem_device_activation_key env now id key s in
      ((e : Error) × (r ≡ (err e, s)))
      ⊎ Redeemed (normal env id) (hash_token env (normal env key)) other now s r
unfolding redeem_device_activation_key
redeem_effect env now id key other s =
    let hash = hash_token env (normal env key) in
    let nid = normal env id in
    redeem_for_cases (λ r. ((e : Error) × (r ≡ (err e, s))) ⊎ Redeemed nid hash other now s r) hash
      nid now (find_device nid s) s (λ e. inl (e, refl))
      (λ d k known found able free.
        inr (went_through hash nid other now d k s known found able free))
