-- ===== src/Account/Revocation.antt =====
-- A revoked device stays locked out until an administrator enables, licenses or deletes it.
use yudesk.Base.{
  ℕ, ◌<◌, ◌≡◌, ◌≢◌, refl, ◌∙◌, ap, Bool, true, false, not, ◌&&◌, some, List, [], ◌∷◌, arith, same,
  same→≡, Bool-cases, Option-cases, &&-eq-true, inl, inr, if◌then◌else◌, ◌==◌, leb,
}
use yudesk.Text.{Text, Platform}
use yudesk.Sql.{select}
use yudesk.Sql.Keyed.{
  IsKeyed, select-update-some, select-insert-some, select-delete, select-test, select→Fresh,
  same_flip, affected-Fresh, affected_found,
}
use yudesk.Account.Data.{Device, Store, ok, normal, hash_token}
use yudesk.Account.Devices.{
  has_id, find_device, has_active_device_license, expiry_of, ensure_permanent_device_license,
  register_licensed_device, admit_device, revoke_licensed_device,
}
use yudesk.Account.Keys.{redeem_device_activation_key}
use yudesk.Account.Calls.{Call, grants, revokes, unrevokes, deletes, step, run}
use yudesk.Account.Moves.Devices.{DevicesMove, stay, add, edit, remove}
use yudesk.Account.Moves.Step.{step-DevicesMove, Deletes, Lifts}
use yudesk.Account.Identity.{WellFormed, DevicesMove-WellFormed, run-WellFormed_from}
use yudesk.Account.Redeem.Cases.{redeem_for_cases}

-- The call is not one by which an administrator deletes, licenses or enables this device.
abbrev pub leaves_revoked : Platform → Text → Call → Bool
leaves_revoked env id (deletes x) = not (same (normal env x) id)
leaves_revoked env id (grants now x duration) = not (same (normal env x) id)
leaves_revoked env id (unrevokes x) = not (same (normal env x) id)
leaves_revoked env id _ = true

abbrev pub all_leave_revoked : Platform → Text → List Call → Bool
all_leave_revoked env id [] = true
all_leave_revoked env id (c ∷ cs) = leaves_revoked env id c && all_leave_revoked env id cs

abbrev pub IsRevoked : Text → List Device → Type 0
IsRevoked id rows =
    (d : Device) × (select (has_id id) rows ≡ some d) × ((d.revoked_at == 0) ≡ false)

no_delete :
    (env : Platform) (id : Text) (c : Call)
    → leaves_revoked env id c ≡ true
    → (x : Text) → Deletes env c x
    → same x id ≡ false
no_delete env id (deletes y) h x e = rw e (ground arith)
no_delete env id _ h x e = absurd e

no_lift :
    (env : Platform) (id : Text) (c : Call)
    → leaves_revoked env id c ≡ true
    → (x : Text) → Lifts env c x
    → same x id ≡ false
no_lift env id (grants now y duration) h x e = rw e (ground arith)
no_lift env id (unrevokes y) h x e = rw e (ground arith)
no_lift env id _ h x e = absurd e

DevicesMove-IsRevoked :
    {env : Platform} {gone lifts : Text → Type 0} {xs ys : List Device} (id : Text)
    → DevicesMove env gone lifts xs ys
    → ((x : Text) → gone x → same x id ≡ false)
    → ((x : Text) → lifts x → same x id ≡ false)
    → IsRevoked id xs
    → IsRevoked id ys
DevicesMove-IsRevoked id (stay e) kept shut (d, found, mark) = (d, rw e found, mark)
DevicesMove-IsRevoked {xs = xs} id (add new _ _ e) kept shut (d, found, mark) =
    (d, rw e (select-insert-some _ new xs found), mark)
DevicesMove-IsRevoked {xs = xs} id (edit test change keeps honest e) kept shut (d, found, mark) = (
  if test d then change d else d,
  rw e (select-update-some (has_id id) test change xs (λ x. ap (λ t. same t id) (keeps x).0) found),
  marked,
)
  where
    marked : ((if test d then change d else d).revoked_at == 0) ≡ false
    marked = elim (Bool-cases (test d)) [
      | inr miss ↦ rw miss mark
      | inl hit ↦ elim (honest d hit) [
        | inl lifted ↦
            absurd (ground (arith, shut d.device_id lifted, select-test (has_id id) xs found))
        | inr (inl same_mark) ↦ rw (hit, same_mark) mark
        | inr (inr unmarked) ↦ absurd (ground arith)
      ]
    ]
DevicesMove-IsRevoked {xs = xs} id (remove x named e) kept shut (d, found, mark) = (
  d,
  rw e (
      select-delete (has_id id) (has_id x) xs
        (λ r h. ap (λ t. same t x) (same→≡ r.device_id id h) ∙ same_flip x id (kept x named))
      ∙ found),
  mark,
)

run-IsRevoked :
    (env : Platform) (cs : List Call) (id : Text) (s : Store)
    → all_leave_revoked env id cs ≡ true
    → IsRevoked id s.devices
    → IsRevoked id (run env cs s).devices
unfolding run
run-IsRevoked env [] id s h r = r
run-IsRevoked env (c ∷ cs) id s h r =
    let both = &&-eq-true (leaves_revoked env id c) (all_leave_revoked env id cs) h in
    run-IsRevoked env cs id (step env c s) both.1 (
      DevicesMove-IsRevoked id (step-DevicesMove env c s) (no_delete env id c both.0)
        (no_lift env id c both.0) r)

revoke-IsRevoked :
    (env : Platform) (now : ℕ) (id : Text) (s : Store)
    → 0 < now
    → IsKeyed (λ (d : Device). d.device_id) s.devices
    → (revoke_licensed_device env now id s).0 ≡ ok tt
    → IsRevoked (normal env id) (revoke_licensed_device env now id s).1.devices
unfolding revoke_licensed_device
revoke-IsRevoked env now id s late keyed h = elim (Option-cases (select (has_id nid) s.devices)) [
  | inl missing ↦ absurd (
      ground
        (arith, affected-Fresh _ nid test s.devices named (select→Fresh _ nid s.devices missing)))
  | inr (d, found) ↦
      let live : test d ≡ true =
        ground (arith, affected_found _ nid test s.devices {r = d} named keyed found) in
      let marked =
        select-update-some (has_id nid) test (λ x. record x { revoked_at = now }) s.devices {r = d}
          (λ x. refl) found in
      (record d { revoked_at = now }, ground (arith, live, marked), ground arith)
]
  where
    nid : Text
    nid = normal env id

    test : Device → Bool
    test d = has_id nid d && d.revoked_at == 0

    named : (x : Device) → test x ≡ true → x.device_id ≡ nid
    named x t = same→≡ x.device_id nid (ground arith)

-- What a revoked device is refused.
module _ (env : Platform) (later : ℕ) (id : Text) (s : Store) where
  revoked-inactive :
      IsRevoked (normal env id) s.devices → has_active_device_license env later id s ≡ false
  unfolding has_active_device_license find_device
  revoked-inactive (d, found, mark) = rw (found, expiry_of, mark)

  revoked-not_ensured :
      IsKeyed (λ (d : Device). d.device_id) s.devices
      → IsRevoked (normal env id) s.devices
      → (ensure_permanent_device_license env later id s).0 ≡ ok false
  unfolding ensure_permanent_device_license
  revoked-not_ensured keyed (d, found, mark) =
      ground (arith, affected_found _ nid test s.devices {r = d} named keyed found)
    where
      nid : Text
      nid = normal env id

      test : Device → Bool
      test x = has_id nid x && x.revoked_at == 0 && leb x.active_until later

      named : (x : Device) → test x ≡ true → x.device_id ≡ nid
      named x t = same→≡ x.device_id nid (ground arith)

  revoked-not_redeemed :
      (key : Text) (r : ℕ)
      → IsRevoked (normal env id) s.devices
      → (redeem_device_activation_key env later id key s).0 ≢ ok r
  unfolding redeem_device_activation_key find_device
  revoked-not_redeemed key r (d, found, mark) =
      redeem_for_cases (λ x. x.0 ≢ ok r) (hash_token env (normal env key)) (normal env id) later
        (find_device (normal env id) s) s (λ e h. cc)
        (λ d' k found' _ able _ h. ground (arith, able.enabled))

  revoked-not_registered :
      (key : List ℕ) (name : Text)
      → IsRevoked (normal env id) s.devices
      → (register_licensed_device env later id key name s).0 ≢ ok tt
  unfolding register_licensed_device find_device
  revoked-not_registered key name (d, found, mark) h =
      let h' = rw (found, admit_device, mark) at h in ground arith

-- After a device has been revoked, with the clock past the epoch and a well-formed table, and
-- through any history of calls that does not delete, license or enable it: at any time the device
-- is not active, is not made permanent, and cannot redeem a key or register.
pub revoked_stays_out :
    (env : Platform) (now later : ℕ) (id key name : Text) (public_key : List ℕ) (cs : List Call)
    (s : Store) (r : ℕ)
    → 0 < now
    → WellFormed env s.devices
    → (revoke_licensed_device env now id s).0 ≡ ok tt
    → all_leave_revoked env (normal env id) cs ≡ true
    → let s' = run env cs (revoke_licensed_device env now id s).1 in
      (has_active_device_license env later id s' ≡ false)
      × ((ensure_permanent_device_license env later id s').0 ≡ ok false)
      × ((redeem_device_activation_key env later id key s').0 ≢ ok r)
      × ((register_licensed_device env later id public_key name s').0 ≢ ok tt)
unfolding step
revoked_stays_out env now later id key name public_key cs s r late w h quiet =
    let s₁ = (revoke_licensed_device env now id s).1 in
    let s' = run env cs s₁ in
    let out =
      run-IsRevoked env cs (normal env id) s₁ quiet
        (revoke-IsRevoked env now id s late w.keyed h) in
    let w₁ : WellFormed env s₁.devices =
      DevicesMove-WellFormed (step-DevicesMove env (revokes now id) s) w in
    let w' = run-WellFormed_from env cs s₁ w₁ in
    (
      revoked-inactive env later id s' out,
      revoked-not_ensured env later id s' w'.keyed out,
      revoked-not_redeemed env later id s' key r out,
      revoked-not_registered env later id s' public_key name out,
    )
