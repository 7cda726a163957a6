-- ===== src/Account/License.antt =====
-- Granting and extending licenses, heartbeats, and new devices that activate themselves.
use yudesk.Base.{
  ℕ, ◌+◌, ◌*◌, ◌/◌, ◌≤◌, ◌<◌, ◌≡◌, refl, ◌∙◌, Bool, ◌||◌, Option, none, some, List, [], ◌∷◌, max,
  arith, same→≡, Bool-cases, Option-cases, inl, inr, if◌then◌else◌, leb, ltb,
}
use yudesk.Text.{Text, Platform}
use yudesk.Sql.{select, update, affected}
use yudesk.Sql.Keyed.{
  select-update-some, select-test, affected_found, affected_zero, update_untouched,
}
use yudesk.Account.Data.{
  Device, Store, Result, ok, err, Error, normal, hour, ten_years, permanent_license,
}
use yudesk.Account.Devices.{
  identity_of, has_id, find_device, has_active_device_license, device_license_expiry, expiry_of,
  granted_until, grant_device_license,
}
use yudesk.Account.Identity.{WellFormed, IsGenuine}
use yudesk.Account.Normal.{HashesBytes, normal-identity_of}

IsGenuine-select :
    (env : Platform) (query : Device → Bool) (rows : List Device) {d : Device}
    → IsGenuine env rows
    → select query rows ≡ some d
    → identity_of env d.public_key ≡ d.device_id
unfolding select
IsGenuine-select env query [] g h = ground arith
IsGenuine-select env query (x ∷ rows) {d} g h = elim (Bool-cases (query x)) [
  | inl hit ↦ let e : x ≡ d = ground arith in rw (← e) g.0
  | inr miss ↦ IsGenuine-select env query rows {d = d} g.1 (ground arith)
]

-- The id of a licensed device is its own normal form.
normal-known :
    (env : Platform) (id : Text) (s : Store) {d : Device}
    → HashesBytes env
    → WellFormed env s.devices
    → find_device id s ≡ some d
    → normal env id ≡ id
unfolding find_device
normal-known env id s {d} hashed w found =
    let genuine = IsGenuine-select env (has_id id) s.devices w.genuine found in
    let own = genuine ∙ same→≡ d.device_id id (select-test (has_id id) s.devices found) in
    rw own at (normal-identity_of env d.public_key hashed)

-- How long a granted license runs.
abbrev pub grant_end : ℕ → ℕ → ℕ → ℕ
grant_end now seconds current =
    if leb permanent_license current then current else max now current + seconds

granted_until_lem :
    (now seconds current : ℕ) → granted_until now seconds current ≡ grant_end now seconds current
unfolding granted_until
granted_until_lem now seconds current = elim (Bool-cases (leb permanent_license current)) [
  | inl h ↦ rw h
  | inr h ↦ rw h (elim (Bool-cases (ltb now current)) [
    | inl k ↦ rw k (ground arith)
    | inr k ↦ rw k (ground arith)
  ])
]

-- A grant that went through, to the device `d`.
pub record Granted (env : Platform) (now seconds later : ℕ) (id : Text) (s : Store)
    (r : Result (Option ℕ) × Store) : Type 0 where
  pub device : Device
  pub before : find_device (normal env id) s ≡ some device
  pub after :
      find_device (normal env id) r.1
      ≡ some (record device {
        active_until = grant_end now seconds device.active_until;
        revoked_at = 0;
      })
  pub answer : r.0 ≡ ok (some (grant_end now seconds device.active_until))
  pub activity :
      has_active_device_license env later id r.1
      ≡ ltb later (grant_end now seconds device.active_until)
  pub bounded :
      grant_end now seconds device.active_until
      ≤ max device.active_until (permanent_license + ten_years)

granted :
    (env : Platform) (now seconds later : ℕ) (id : Text) (s : Store) {d : Device}
    → HashesBytes env
    → WellFormed env s.devices
    → find_device (normal env id) s ≡ some d
    → 0 < seconds
    → seconds ≤ ten_years
    → now < permanent_license
    → let s' : Store = record s {
      devices =
          update
            (has_id (normal env id))
            (λ x. record x {
              active_until = granted_until now seconds x.active_until;
              revoked_at = 0;
            })
            s.devices;
    } in
      Granted env now seconds later id s (device_license_expiry env (normal env id) s', s')
unfolding find_device has_active_device_license device_license_expiry
granted env now seconds later id s {d} hashed w found positive short early = record {
  device = d;
  before = found;
  after = after;
  answer = rw (settled, after) enabled;
  activity = rw (after, enabled);
  bounded = ground arith;
}
  where
    nid : Text
    nid = normal env id

    change : Device → Device
    change x = record x { active_until = granted_until now seconds x.active_until; revoked_at = 0 }

    rows : List Device
    rows = update (has_id nid) change s.devices

    after :
        select (has_id nid) rows
        ≡ some (record d { active_until = grant_end now seconds d.active_until; revoked_at = 0 })
    after =
        select-update-some (has_id nid) (has_id nid) change s.devices {r = d} (λ x. refl) found
        ∙ rw
            (select-test (has_id nid) s.devices found, granted_until_lem now seconds d.active_until)

    until : ℕ
    until = grant_end now seconds d.active_until

    enabled : expiry_of (some (record d { active_until = until; revoked_at = 0 })) ≡ ok (some until)
    enabled = unfold expiry_of in ground arith

    settled : normal env nid ≡ nid
    settled = normal-known env nid s hashed w found

-- One hour and ten years of 365 days, in nanoseconds.
abbrev pub IsGrantable : ℕ → Type 0
IsGrantable duration = (3_600_000_000_000 ≤ duration) × (duration ≤ 315_360_000_000_000_000)

-- The three ways in which a grant ends, each with its condition.
pub data GrantEffect (env : Platform) (now duration later : ℕ) (id : Text) (s : Store)
    (r : Result (Option ℕ) × Store) : Type 0 where
  out_of_range :
      ¬ IsGrantable duration
      → r ≡ (err Error.bad_duration, s)
      → GrantEffect env now duration later id s r
  no_device :
      IsGrantable duration
      → find_device (normal env id) s ≡ none
      → r ≡ (err Error.device_never_connected, s)
      → GrantEffect env now duration later id s r
  licensed :
      IsGrantable duration
      → Granted env now (duration / 1_000_000_000) later id s r
      → GrantEffect env now duration later id s r

-- GrantDeviceLicense refuses exactly a duration below an hour or above ten years, and otherwise
-- exactly an unknown device, and then writes nothing. Else, on a well-formed table, with a clock
-- before the permanent date and a hash that returns bytes: a permanent license stays, any other runs
-- from the later of now and its old end for the whole seconds granted; a revocation is lifted, the
-- answer is the new end, the device is active exactly until then, and the end stays below the
-- permanent date plus ten years unless it was above before.
pub grant_effect :
    (env : Platform) (now duration later : ℕ) (id : Text) (s : Store)
    → HashesBytes env
    → WellFormed env s.devices
    → now < permanent_license
    → GrantEffect env now duration later id s (grant_device_license env now id duration s)
unfolding grant_device_license find_device
grant_effect env now duration later id s hashed w early =
    elim (Bool-cases
      (ltb duration (hour * 1_000_000_000) || ltb (ten_years * 1_000_000_000) duration)) [
        | inl bad ↦
            out_of_range (λ grantable. absurd (let (low, high) = grantable in ground arith))
              (rw bad)
        | inr good ↦
            let grantable : IsGrantable duration = (ground arith, ground arith) in
            elim (Option-cases (select (has_id nid) s.devices)) [
              | inl missing ↦
                  let zero_rows = affected_zero (has_id nid) s.devices missing in
                  no_device grantable missing
                    (rw (good, zero_rows, update_untouched (has_id nid) _ s.devices zero_rows))
              | inr (d, found) ↦ licensed grantable (
                  rw (good, one_row d found)
                    (granted env now (duration / 1_000_000_000) later id s hashed w found
                      (ground arith) (ground arith) early))
            ]
      ]
  where
    nid : Text
    nid = normal env id

    one_row :
        (d : Device) → select (has_id nid) s.devices ≡ some d → affected (has_id nid) s.devices ≡ 1
    one_row d found =
        affected_found (λ (x : Device). x.device_id) nid (has_id nid) s.devices {r = d}
          (λ x t. same→≡ x.device_id nid t) w.keyed found
        ∙ rw (select-test (has_id nid) s.devices found)
