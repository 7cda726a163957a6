-- ===== src/Account/Heartbeat.antt =====
-- Heartbeats: TouchLicensedDevice.
use yudesk.Base.{
  ℕ, ◌≡◌, refl, ap, sym, ◌∙◌, Bool, false, ◌&&◌, Option, none, some, List, [], ◌∷◌, max, arith,
  same, same→≡, Bool-cases, inl, inr, if◌then◌else◌, ltb,
}
use yudesk.Text.{Text, Platform}
use yudesk.Sql.{select, update}
use yudesk.Sql.Keyed.{same_flip}
use yudesk.Account.Data.{Device, Store, normal}
use yudesk.Account.Devices.{has_id, find_device, touch_licensed_device}

-- A device that was heard of at `seen`.
abbrev pub heard : ℕ → Device → Device
heard seen d = record d { last_seen = max d.last_seen seen }

abbrev pub heard_if : Bool → ℕ → Option Device → Option Device
heard_if b seen none = none
heard_if b seen (some d) = some (if b then heard seen d else d)

touch_rows :
    (id x : Text) (seen : ℕ) (rows : List Device)
    → select (has_id x) (
        update (λ d. has_id id d && ltb d.last_seen seen) (λ d. record d { last_seen = seen }) rows)
      ≡ heard_if (same id x) seen (select (has_id x) rows)
unfolding select update
touch_rows id x seen [] = refl
touch_rows id x seen (d ∷ rows) = elim (Bool-cases (same d.device_id id)) [
  | inr miss ↦ elim (Bool-cases (same d.device_id x)) [
    | inr other ↦ rw (miss, other) (touch_rows id x seen rows)
    | inl here ↦
        let apart : same x id ≡ false =
          ap (λ t. same t id) (sym (same→≡ d.device_id x here)) ∙ miss in
        rw (miss, here, same_flip x id apart)
  ]
  | inl hit ↦
      let e : same id x ≡ same d.device_id x =
        ap (λ t. same t x) (sym (same→≡ d.device_id id hit)) in
      rw (hit, e)
        (elim (Bool-cases (same d.device_id x)) [
          | inr other ↦ let rest = rw (e, other) at (touch_rows id x seen rows) in ground arith
          | inl here ↦ rw here (elim (Bool-cases (ltb d.last_seen seen)) [
            | inl newer ↦ rw newer (ground arith)
            | inr older ↦ rw older (ground arith)
          ])
        ])
]

-- A heartbeat moves the last contact of its own device forward, never back; it changes no other
-- device and makes none, also when the device has been deleted.
pub touch_effect :
    (env : Platform) (id other : Text) (seen : ℕ) (s : Store)
    → find_device other (touch_licensed_device env id (some seen) s).1
      ≡ heard_if (same (normal env id) other) seen (find_device other s)
unfolding touch_licensed_device find_device
touch_effect env id other seen s = touch_rows (normal env id) other seen s.devices
