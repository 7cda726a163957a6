-- ===== src/Account/Identity.antt =====
-- The table of licensed devices over any history of calls: what it keeps, and whom a row belongs to.
use yudesk.Base.{
  ◌≡◌, refl, sym, ◌∙◌, ap, Bool, true, false, not, ◌&&◌, some, List, [], ◌∷◌, arith, same, same→≡,
  Bool-cases, &&-eq-true, inl, inr, if◌then◌else◌,
}
use yudesk.Text.{Text, Platform}
use yudesk.Sql.{select, update, delete, insert}
use yudesk.Sql.Keyed.{
  IsKeyed, IsKeyed-update, IsKeyed-insert, IsKeyed-delete, select→Fresh, select-update-some,
  select-insert-some, select-delete, same_flip,
}
use yudesk.Account.Data.{Device, Store, empty, normal}
use yudesk.Account.Devices.{identity_of, has_id, find_device}
use yudesk.Account.Calls.{Call, deletes, step, run}
use yudesk.Account.Moves.Devices.{DevicesMove, stay, add, edit, remove, Keeps}
use yudesk.Account.Moves.Step.{step-DevicesMove, Deletes}

-- Each row's id is the fingerprint of the public key in the row.
abbrev pub IsGenuine : Platform → List Device → Type 0
IsGenuine env [] = Unit {0}
IsGenuine env (d ∷ rows) = (identity_of env d.public_key ≡ d.device_id) × IsGenuine env rows

pub record WellFormed (env : Platform) (rows : List Device) : Type 0 where
  pub keyed : IsKeyed (λ (d : Device). d.device_id) rows
  pub genuine : IsGenuine env rows

IsGenuine-update :
    (env : Platform) (test : Device → Bool) (change : Device → Device) (rows : List Device)
    → Keeps change
    → IsGenuine env rows
    → IsGenuine env (update test change rows)
unfolding update
IsGenuine-update env test change [] keeps h = tt
IsGenuine-update env test change (d ∷ rows) keeps h = elim (Bool-cases (test d)) [
  | inl hit ↦ rw hit (
    ap (identity_of env) (keeps d).1 ∙ h.0 ∙ sym (keeps d).0,
    IsGenuine-update env test change rows keeps h.1,
  )
  | inr miss ↦ rw miss (h.0, IsGenuine-update env test change rows keeps h.1)
]

IsGenuine-insert :
    (env : Platform) (d : Device) (rows : List Device)
    → identity_of env d.public_key ≡ d.device_id
    → IsGenuine env rows
    → IsGenuine env (insert d rows)
unfolding insert
IsGenuine-insert env d [] g h = (g, tt)
IsGenuine-insert env d (x ∷ rows) g h = (h.0, IsGenuine-insert env d rows g h.1)

IsGenuine-delete :
    (env : Platform) (test : Device → Bool) (rows : List Device)
    → IsGenuine env rows
    → IsGenuine env (delete test rows)
unfolding delete
IsGenuine-delete env test [] h = tt
IsGenuine-delete env test (d ∷ rows) h = ground (arith, IsGenuine-delete env test rows h.1)

pub DevicesMove-WellFormed :
    {env : Platform} {gone lifts : Text → Type 0} {xs ys : List Device}
    → DevicesMove env gone lifts xs ys
    → WellFormed env xs
    → WellFormed env ys
DevicesMove-WellFormed (stay e) w = rw e w
DevicesMove-WellFormed {env} {xs} (add d new genuine e) w = rw e (record {
  keyed = IsKeyed-insert _ d xs (select→Fresh _ d.device_id xs new) w.keyed;
  genuine = IsGenuine-insert env d xs genuine w.genuine;
})
DevicesMove-WellFormed {env} {xs} (edit test change keeps _ e) w = rw e (record {
  keyed = IsKeyed-update _ test change xs (λ x. (keeps x).0) w.keyed;
  genuine = IsGenuine-update env test change xs keeps w.genuine;
})
DevicesMove-WellFormed {env} {xs} (remove id _ e) w = rw e (record {
  keyed = IsKeyed-delete _ _ xs w.keyed;
  genuine = IsGenuine-delete env _ xs w.genuine;
})

pub run-WellFormed_from :
    (env : Platform) (cs : List Call) (s : Store)
    → WellFormed env s.devices
    → WellFormed env (run env cs s).devices
unfolding run
run-WellFormed_from env [] s w = w
run-WellFormed_from env (c ∷ cs) s w =
    run-WellFormed_from env cs (step env c s) (DevicesMove-WellFormed (step-DevicesMove env c s) w)

-- After any history of calls from the empty store, no two licensed devices have one id, and each
-- id is the fingerprint of the public key that is stored with it.
pub run-WellFormed : (env : Platform) (cs : List Call) → WellFormed env (run env cs empty).devices
run-WellFormed env cs = run-WellFormed_from env cs empty (record { keyed = tt; genuine = tt })

-- The call is not the deletion of this device.
abbrev pub spares : Platform → Text → Call → Bool
spares env id (deletes x) = not (same (normal env x) id)
spares env id _ = true

abbrev pub all_spare : Platform → Text → List Call → Bool
all_spare env id [] = true
all_spare env id (c ∷ cs) = spares env id c && all_spare env id cs

-- What is left of a row: it is found, under the same key and from the same day.
abbrev pub IsSameDevice : Text → Device → Store → Type 0
IsSameDevice id d s =
    (d' : Device) × (find_device id s ≡ some d')
    × (d'.public_key ≡ d.public_key)
    × (d'.first_seen ≡ d.first_seen)

DevicesMove-IsSameDevice :
    {env : Platform} {gone lifts : Text → Type 0} {xs ys : List Device} (id : Text) {d : Device}
    → DevicesMove env gone lifts xs ys
    → ((x : Text) → gone x → same x id ≡ false)
    → select (has_id id) xs ≡ some d
    → (d' : Device) × (select (has_id id) ys ≡ some d')
      × (d'.public_key ≡ d.public_key)
      × (d'.first_seen ≡ d.first_seen)
DevicesMove-IsSameDevice id {d} (stay e) away found = (d, rw e found, refl, refl)
DevicesMove-IsSameDevice {xs = xs} id {d} (add new _ _ e) away found =
    (d, rw e (select-insert-some _ new xs found), refl, refl)
DevicesMove-IsSameDevice {xs = xs} id {d} (edit test change keeps _ e) away found = (
  if test d then change d else d,
  rw e (select-update-some (has_id id) test change xs (λ x. ap (λ t. same t id) (keeps x).0) found),
  ground (arith, keeps d),
  ground (arith, keeps d),
)
DevicesMove-IsSameDevice {xs = xs} id {d} (remove x named e) away found = (
  d,
  rw e (
      select-delete (has_id id) (has_id x) xs
        (λ r h. ap (λ t. same t x) (same→≡ r.device_id id h) ∙ same_flip x id (away x named))
      ∙ found),
  refl,
  refl,
)

spares-away :
    (env : Platform) (id : Text) (c : Call)
    → spares env id c ≡ true
    → (x : Text) → Deletes env c x
    → same x id ≡ false
spares-away env id (deletes y) h x e = rw e (ground arith)
spares-away env id _ h x e = absurd e

kept_by_step :
    (env : Platform) (c : Call) (id : Text) (s : Store) {d : Device}
    → spares env id c ≡ true
    → find_device id s ≡ some d
    → IsSameDevice id d (step env c s)
unfolding find_device
kept_by_step env c id s h found =
    DevicesMove-IsSameDevice id (step-DevicesMove env c s) (spares-away env id c h) found

-- Through any history of calls that does not delete a device, its row stays: under the same id it
-- is found with the same public key and the same first day.
pub run-keeps_identity :
    (env : Platform) (cs : List Call) (id : Text) (s : Store) {d : Device}
    → all_spare env id cs ≡ true
    → find_device id s ≡ some d
    → IsSameDevice id d (run env cs s)
unfolding run
run-keeps_identity env [] id s {d} h found = (d, found, refl, refl)
run-keeps_identity env (c ∷ cs) id s {d} h found =
    let both = &&-eq-true (spares env id c) (all_spare env id cs) h in
    let (d₁, found₁, key₁, day₁) = kept_by_step env c id s both.0 found in
    let (d₂, found₂, key₂, day₂) = run-keeps_identity env cs id (step env c s) both.1 found₁ in
    (d₂, found₂, key₂ ∙ key₁, day₂ ∙ day₁)
