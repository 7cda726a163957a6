-- ===== src/Account/Redeem/Once.antt =====
-- An activation key serves once.
use yudesk.Base.{
  ℕ, ◌≡◌, ◌≢◌, refl, ◌∙◌, ap, true, false, some, List, [], ◌∷◌, ◌++◌, arith, same, same_refl,
  Bool-cases, inl, inr, if◌then◌else◌,
}
use yudesk.Text.{Text, Platform}
use yudesk.Sql.{select}
use yudesk.Sql.Keyed.{select-update-some, select-insert-some, select-test}
use yudesk.Account.Data.{ActivationKey, Store, ok, normal, hash_token}
use yudesk.Account.Devices.{find_device}
use yudesk.Account.Keys.{
  has_hash, find_key, is_open, mark_redeemed, device_prefix, redeem_device_activation_key,
  redeem_activation_key, redeem_for, redeem_user_found,
}
use yudesk.Account.Calls.{Call, step, run}
use yudesk.Account.Moves.Keys.{KeysMove, stay, add, edit, step-KeysMove}
use yudesk.Account.Redeem.Cases.{IsRedeemable, redeem_for_cases, redeem_user_cases}

-- The key is on record, and taken.
abbrev pub IsTaken : Text → Store → Type 0
IsTaken hash s = (k : ActivationKey) × (find_key hash s ≡ some k) × (same k.redeemed_by [] ≡ false)

KeysMove-IsTaken :
    {xs ys : List ActivationKey} (hash : Text) {k : ActivationKey}
    → KeysMove xs ys
    → select (has_hash hash) xs ≡ some k
    → same k.redeemed_by [] ≡ false
    → (k' : ActivationKey) × (select (has_hash hash) ys ≡ some k')
      × (same k'.redeemed_by [] ≡ false)
KeysMove-IsTaken hash {k} (stay e) found taken = (k, rw e found, taken)
KeysMove-IsTaken {xs = xs} hash {k} (add new _ e) found taken =
    (k, rw e (select-insert-some _ new xs found), taken)
KeysMove-IsTaken {xs = xs} hash {k} (edit test change keyed honest e) found taken = (
  if test k then change k else k,
  rw e (
      select-update-some (has_hash hash) test change xs (λ x. ap (λ t. same t hash) (keyed x))
        found),
  still,
)
  where
    still : same (if test k then change k else k).redeemed_by [] ≡ false
    still = elim (Bool-cases (test k)) [
      | inr miss ↦ rw miss taken
      | inl hit ↦ elim (honest k hit) [
        | inl kept ↦ rw (hit, kept) taken
        | inr open_key ↦ absurd (ground (arith, same_refl []))
      ]
    ]

run-IsTaken :
    (env : Platform) (cs : List Call) (hash : Text) (s : Store)
    → IsTaken hash s
    → IsTaken hash (run env cs s)
unfolding run find_key
run-IsTaken env [] hash s t = t
run-IsTaken env (c ∷ cs) hash s (k, found, taken) =
    run-IsTaken env cs hash (step env c s)
      (KeysMove-IsTaken hash (step-KeysMove env c s) found taken)

open-row :
    (hash : Text) (now : ℕ) (k : ActivationKey) (s : Store)
    → find_key hash s ≡ some k
    → IsRedeemable now k
    → is_open hash k ≡ true
unfolding find_key same
open-row hash now k s found free =
    rw (select-test (has_hash hash) s.keys found, free.unclaimed, free.not_revoked)

-- The marked key.
pub mark-found :
    (hash who : Text) (now : ℕ) (k : ActivationKey) (s : Store)
    → find_key hash s ≡ some k
    → IsRedeemable now k
    → select (has_hash hash) (mark_redeemed hash who now s.keys)
      ≡ some (record k { redeemed_by = who; redeemed_at = now })
unfolding mark_redeemed find_key
mark-found hash who now k s found free =
    select-update-some (has_hash hash) (is_open hash) _ s.keys (λ x. refl) found
    ∙ rw (open-row hash now k s found free)

redeem_for-IsTaken :
    (hash id : Text) (now : ℕ) (s : Store)
    → ((r : ℕ)
        → (redeem_for hash id now (find_device id s) s).0 ≡ ok r
        → IsTaken hash (redeem_for hash id now (find_device id s) s).1)
unfolding find_key
redeem_for-IsTaken hash id now s =
    redeem_for_cases (λ x. (r : ℕ) → x.0 ≡ ok r → IsTaken hash x.1) hash id now (find_device id s) s
      (λ e r h. cc)
      (λ d k _ found _ free r h.
        (_, mark-found hash (device_prefix ++ id) now k s found free, prefixed id))
  where
    prefixed : (t : Text) → same (device_prefix ++ t) [] ≡ false
    prefixed t = unfold same in refl

taken-refused :
    (hash id : Text) (now : ℕ) (s : Store)
    → IsTaken hash s
    → (r : ℕ) → (redeem_for hash id now (find_device id s) s).0 ≢ ok r
taken-refused hash id now s (k, found, taken) =
    redeem_for_cases (λ x. (r : ℕ) → x.0 ≢ ok r) hash id now (find_device id s) s (λ e r h. cc)
      (λ d k' _ found' _ free r h. ground (arith, free.unclaimed, same_refl []))

taken-refused_user :
    (hash username : Text) (now : ℕ) (s : Store)
    → IsTaken hash s
    → (r : ℕ) → (redeem_user_found hash username now (find_key hash s) s).0 ≢ ok r
taken-refused_user hash username now s (k, found, taken) =
    redeem_user_cases (λ x. (r : ℕ) → x.0 ≢ ok r) hash username now (find_key hash s) s
      (λ e r h. cc) (λ u k' found' _ free r h. ground (arith, free.unclaimed, same_refl []))

-- Once a key has been redeemed for a device, then after any further history of calls and at any
-- time, redeeming it fails for every device and for every account.
pub redeem-once :
    (env : Platform) (now later : ℕ) (id other username key : Text) (cs : List Call) (s : Store)
    (expiry r : ℕ)
    → (redeem_device_activation_key env now id key s).0 ≡ ok expiry
    → let s' = run env cs (redeem_device_activation_key env now id key s).1 in
      ((redeem_device_activation_key env later other key s').0 ≢ ok r)
      × ((redeem_activation_key env later username key s').0 ≢ ok r)
unfolding redeem_device_activation_key redeem_activation_key
redeem-once env now later id other username key cs s expiry r h =
    let hash = hash_token env (normal env key) in
    let taken = redeem_for-IsTaken hash (normal env id) now s expiry h in
    let s' = run env cs (redeem_device_activation_key env now id key s).1 in
    let still = run-IsTaken env cs hash (redeem_device_activation_key env now id key s).1 taken in
    (
      taken-refused hash (normal env other) later s' still r,
      taken-refused_user hash username later s' still r,
    )
