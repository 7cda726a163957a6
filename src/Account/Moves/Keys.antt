-- ===== src/Account/Moves/Keys.antt =====
-- The effect of any call on the table of activation keys.
use yudesk.Base.{
  ℕ, ◌≡◌, refl, Bool, true, ◌&&◌, ◌||◌, Option, none, some, List, [], ◌∷◌, zero, suc, arith, same→≡,
  Bool-cases, ◌⊎◌, inl, inr, ◌==◌, ltb, ◌*◌, ◌++◌, length,
}
use yudesk.Text.{Text, Platform, trim_space, bytes}
use yudesk.Sql.{select, update, insert}
use yudesk.Account.Data.{
  ActivationKey, Device, User, Store, Error, normal, hash_token, hour, ten_years,
}
use yudesk.Account.Devices.{
  find_device, register_licensed_device, rename_licensed_device, touch_licensed_device,
  update_licensed_device_pin, ensure_permanent_device_license, set_device_auto_activation,
  grant_device_license, revoke_licensed_device, unrevoke_licensed_device, delete_licensed_device,
}
use yudesk.Account.Codes.{nine_digits, ensure_device_code, insert_or_ignore, allocate}
use yudesk.Account.Keys.{
  has_hash, find_key, second, key_text, generate_activation_key, is_unused, revoke_activation_key,
  revoke_by_fingerprint, revoke_keys, is_open, mark_redeemed, device_prefix, redeem_activation_key,
  redeem_device_activation_key, redeem_for, redeem_user_found, insert_key,
}
use yudesk.Account.Users.{
  register_user, login, login_as, logout, bind_device, touch_device, revoke_device, find_user,
}
use yudesk.Account.Redeem.Cases.{redeem_for_cases, redeem_user_cases}
use yudesk.Account.Calls.{
  Call, registers, renames, touches, sets_pin, ensures_permanent, sets_auto, grants, revokes,
  unrevokes, deletes, ensures_code, generates, revokes_key, revokes_print, redeems, redeems_user,
  registers_user, logs_in, logs_out, binds, touches_owned, revokes_owned, step,
}

-- One statement on the table: it never rewrites who redeemed a key.
pub data KeysMove (xs ys : List ActivationKey) : Type 0 where
  stay : ys ≡ xs → KeysMove xs ys
  add :
      (k : ActivationKey)
      → select (has_hash k.key_hash) xs ≡ none
      → ys ≡ insert k xs
      → KeysMove xs ys
  edit :
      (test : ActivationKey → Bool) (change : ActivationKey → ActivationKey)
      → ((k : ActivationKey) → (change k).key_hash ≡ k.key_hash)
      → ((k : ActivationKey)
          → test k ≡ true
          → ((change k).redeemed_by ≡ k.redeemed_by) ⊎ (k.redeemed_by ≡ []))
      → ys ≡ update test change xs
      → KeysMove xs ys

insert_key-Move :
    (k : ActivationKey) (key : Text) (o : Option ActivationKey) (s : Store)
    → select (has_hash k.key_hash) s.keys ≡ o
    → KeysMove s.keys (insert_key k key o s).1.keys
unfolding insert_key
insert_key-Move k key none s e = add k e refl
insert_key-Move k key (some _) s e = stay refl

generate-Move :
    (env : Platform) (now nanos : ℕ) (encoded : Text) (duration window : ℕ) (s : Store)
    → KeysMove s.keys (generate_activation_key env now nanos encoded duration window s).1.keys
unfolding generate_activation_key
generate-Move env now nanos encoded duration window s =
    elim (Bool-cases (ltb duration (hour * second) || ltb (ten_years * second) duration)) [
      | inl bad ↦ rw bad (stay refl)
      | inr good ↦ rw good (insert_key-Move _ (key_text encoded) _ s refl)
    ]

revoke_keys-Move :
    (now : ℕ) (test : ActivationKey → Bool) (e : Error) (s : Store)
    → KeysMove s.keys (revoke_keys now test e s).1.keys
unfolding revoke_keys
revoke_keys-Move now test e s =
    edit test (λ k. record k { revoked_at = now }) (λ k. refl) (λ k h. inl refl) (ground arith)

revoke_print-Move :
    (env : Platform) (now : ℕ) (raw : Text) (s : Store)
    → KeysMove s.keys (revoke_by_fingerprint env now raw s).1.keys
unfolding revoke_by_fingerprint
revoke_print-Move env now raw s = elim (Bool-cases (length (bytes (normal env raw)) == 12)) [
  | inl right ↦ rw right (revoke_keys-Move now _ _ s)
  | inr wrong ↦ rw wrong (stay refl)
]

mark-Move :
    (hash who : Text) (now : ℕ) (xs : List ActivationKey)
    → KeysMove xs (mark_redeemed hash who now xs)
unfolding mark_redeemed
mark-Move hash who now xs =
    edit (is_open hash) (λ k. record k { redeemed_by = who; redeemed_at = now }) (λ k. refl)
      (λ k h. inr (same→≡ _ _ (ground arith))) refl

redeem_for-Move :
    (hash id : Text) (now : ℕ) (o : Option Device) (s : Store)
    → KeysMove s.keys (redeem_for hash id now o s).1.keys
redeem_for-Move hash id now o s =
    redeem_for_cases (λ r. KeysMove s.keys r.1.keys) hash id now o s (λ e. stay refl)
      (λ d k _ _ _ _. mark-Move hash (device_prefix ++ id) now s.keys)

redeem_user-Move :
    (hash name : Text) (now : ℕ) (o : Option ActivationKey) (s : Store)
    → KeysMove s.keys (redeem_user_found hash name now o s).1.keys
redeem_user-Move hash name now o s =
    redeem_user_cases (λ r. KeysMove s.keys r.1.keys) hash name now o s (λ e. stay refl)
      (λ u k _ _ _. mark-Move hash name now s.keys)

insert_or_ignore-keys : (id code : Text) (s : Store) → (insert_or_ignore id code s).keys ≡ s.keys
unfolding insert_or_ignore
insert_or_ignore-keys id code s = ground arith

allocate-keys :
    (rounds : ℕ) (id : Text) (draws : List ℕ) (s : Store)
    → (allocate rounds id draws s).1.keys ≡ s.keys
unfolding allocate
allocate-keys zero id draws s = refl
allocate-keys (suc rounds) id [] s = refl
allocate-keys (suc rounds) id (n ∷ draws) s = ground (
  arith,
  allocate-keys rounds id draws (insert_or_ignore id (nine_digits n) s),
  insert_or_ignore-keys id (nine_digits n) s,
)

ensure_code-keys :
    (env : Platform) (draws : List ℕ) (id : Text) (s : Store)
    → (ensure_device_code env draws id s).1.keys ≡ s.keys
unfolding ensure_device_code
ensure_code-keys env draws id s = ground (arith, allocate-keys 100 (normal env id) draws s)

login_as-keys :
    (env : Platform) (now : ℕ) (raw : List ℕ) (name password : Text) (o : Option User) (s : Store)
    → (login_as env now raw name password o s).1.keys ≡ s.keys
unfolding login_as
login_as-keys env now raw name password none s = refl
login_as-keys env now raw name password (some u) s = ground arith

pub step-KeysMove : (env : Platform) (c : Call) (s : Store) → KeysMove s.keys (step env c s).keys
unfolding step register_licensed_device rename_licensed_device touch_licensed_device
    update_licensed_device_pin ensure_permanent_device_license set_device_auto_activation
    grant_device_license revoke_licensed_device unrevoke_licensed_device delete_licensed_device
    revoke_activation_key redeem_activation_key redeem_device_activation_key register_user login
    logout bind_device touch_device revoke_device
step-KeysMove env (registers now id key name) s = stay (ground arith)
step-KeysMove env (renames id name) s = stay (ground arith)
step-KeysMove env (touches id seen) s = stay (ground arith)
step-KeysMove env (sets_pin id pin) s = stay (ground arith)
step-KeysMove env (ensures_permanent now id) s = stay refl
step-KeysMove env (sets_auto enabled) s = stay refl
step-KeysMove env (grants now id duration) s = stay (ground arith)
step-KeysMove env (revokes now id) s = stay (ground arith)
step-KeysMove env (unrevokes id) s = stay (ground arith)
step-KeysMove env (deletes id) s = stay (ground arith)
step-KeysMove env (ensures_code draws id) s = stay (ensure_code-keys env draws id s)
step-KeysMove env (generates now nanos encoded duration window) s =
    generate-Move env now nanos encoded duration window s
step-KeysMove env (revokes_key now key) s =
    revoke_keys-Move now (λ k. has_hash (hash_token env (normal env key)) k && is_unused k)
      Error.key_not_revocable s
step-KeysMove env (revokes_print now print) s = revoke_print-Move env now print s
step-KeysMove env (redeems now id key) s =
    redeem_for-Move (hash_token env (normal env key)) (normal env id) now
      (find_device (normal env id) s) s
step-KeysMove env (redeems_user now username key) s =
    let hash = hash_token env (normal env key) in
    redeem_user-Move hash username now (find_key hash s) s
step-KeysMove env (registers_user now salt name password) s = stay (ground arith)
step-KeysMove env (logs_in now raw raw_name password) s =
    let name = trim_space raw_name in
    stay (login_as-keys env now raw name password (find_user name s) s)
step-KeysMove env (logs_out now token) s = stay refl
step-KeysMove env (binds now username id key name) s = stay (ground arith)
step-KeysMove env (touches_owned now id) s = stay refl
step-KeysMove env (revokes_owned now username id) s = stay (ground arith)
