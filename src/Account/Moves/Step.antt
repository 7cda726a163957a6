-- ===== src/Account/Moves/Step.antt =====
-- The effect of any call on the table of licensed devices.
use yudesk.Base.{inl, inr, same→≡, ◌≡◌, refl, arith, ltb, ◌&&◌, ◌==◌}
use yudesk.Text.{Text, Platform, trim_space}
use yudesk.Account.Data.{Store, Error, normal, hash_token}
use yudesk.Account.Devices.{
  has_id, find_device, ensure_permanent_device_license, set_device_auto_activation,
  revoke_licensed_device, unrevoke_licensed_device,
}
use yudesk.Account.Keys.{
  generate_activation_key, revoke_activation_key, revoke_by_fingerprint, redeem_activation_key,
  redeem_device_activation_key, find_key,
}
use yudesk.Account.Users.{
  register_user, login, logout, bind_device, touch_device, revoke_device, find_user,
}
use yudesk.Account.Calls.{
  Call, registers, renames, touches, sets_pin, ensures_permanent, sets_auto, grants, revokes,
  unrevokes, deletes, ensures_code, generates, revokes_key, revokes_print, redeems, redeems_user,
  registers_user, logs_in, logs_out, binds, touches_owned, revokes_owned, step,
}
use yudesk.Account.Moves.Devices.{
  DevicesMove, stay, edit, register-Move, rename-Move, touch-Move, pin-Move, grant-Move,
  delete-Move, redeem_for-Move, update_one-Move,
}
use yudesk.Account.Moves.Frame.{ensure_code-devices, redeem_user_found-frame, login_as-frame}

-- The id that a call deletes.
abbrev pub Deletes : Platform → Call → Text → Type 0
Deletes env (deletes x) id = id ≡ normal env x
Deletes env _ id = ⊥

-- The id that a call enables again.
abbrev pub Lifts : Platform → Call → Text → Type 0
Lifts env (grants now x duration) id = id ≡ normal env x
Lifts env (unrevokes x) id = id ≡ normal env x
Lifts env _ id = ⊥

pub step-DevicesMove :
    (env : Platform) (c : Call) (s : Store)
    → DevicesMove env (Deletes env c) (Lifts env c) s.devices (step env c s).devices
unfolding step ensure_permanent_device_license set_device_auto_activation revoke_licensed_device
    unrevoke_licensed_device generate_activation_key revoke_activation_key revoke_by_fingerprint
    redeem_activation_key redeem_device_activation_key register_user login logout bind_device
    touch_device revoke_device
step-DevicesMove env (registers now id key name) s = register-Move env now id key name s
step-DevicesMove env (renames id name) s = rename-Move env id name s
step-DevicesMove env (touches id seen) s = touch-Move env id seen s
step-DevicesMove env (sets_pin id pin) s = pin-Move env id pin s
step-DevicesMove env (ensures_permanent now id) s =
    edit _ _ (λ d. (refl, refl, refl)) (λ d h. inr (inl refl)) refl
step-DevicesMove env (sets_auto enabled) s = stay refl
step-DevicesMove env (grants now id duration) s = grant-Move env now id duration s
step-DevicesMove env (revokes now id) s =
    update_one-Move env (λ d. has_id (normal env id) d && d.revoked_at == 0)
      (λ d. record d { revoked_at = now }) Error.not_found_or_revoked s (λ d. (refl, refl, refl))
      (λ d h. inr (inr (ground arith)))
step-DevicesMove env (unrevokes id) s =
    update_one-Move env (λ d. has_id (normal env id) d && ltb 0 d.revoked_at)
      (λ d. record d { revoked_at = 0 }) Error.not_disabled s (λ d. (refl, refl, refl))
      (λ d h. inl (same→≡ _ _ (ground arith)))
step-DevicesMove env (deletes id) s = delete-Move env id s
step-DevicesMove env (ensures_code draws id) s = stay (ensure_code-devices env draws id s)
step-DevicesMove env (generates now nanos encoded duration window) s = stay (ground arith)
step-DevicesMove env (revokes_key now key) s = stay (ground arith)
step-DevicesMove env (revokes_print now print) s = stay (ground arith)
step-DevicesMove env (redeems now id key) s =
    redeem_for-Move env (hash_token env (normal env key)) (normal env id) now
      (find_device (normal env id) s) s
step-DevicesMove env (redeems_user now username key) s =
    let hash = hash_token env (normal env key) in
    stay ((redeem_user_found-frame hash username now (find_key hash s) s).0)
step-DevicesMove env (registers_user now salt name password) s = stay (ground arith)
step-DevicesMove env (logs_in now raw raw_name password) s =
    let name = trim_space raw_name in
    stay ((login_as-frame env now raw name password (find_user name s) s).0)
step-DevicesMove env (logs_out now token) s = stay refl
step-DevicesMove env (binds now username id key name) s = stay (ground arith)
step-DevicesMove env (touches_owned now id) s = stay refl
step-DevicesMove env (revokes_owned now username id) s = stay (ground arith)
