-- ===== src/Account/Calls.antt =====
-- The methods of Store that write, as one step function, and histories of calls.
use yudesk.Base.{ℕ, Bool, Option, List, [], ◌∷◌}
use yudesk.Text.{Text, Platform}
use yudesk.Account.Data.{Store}
use yudesk.Account.Devices.{
  register_licensed_device, rename_licensed_device, touch_licensed_device,
  update_licensed_device_pin, ensure_permanent_device_license, set_device_auto_activation,
  grant_device_license, revoke_licensed_device, unrevoke_licensed_device, delete_licensed_device,
}
use yudesk.Account.Codes.{ensure_device_code}
use yudesk.Account.Keys.{
  generate_activation_key, revoke_activation_key, revoke_by_fingerprint, redeem_activation_key,
  redeem_device_activation_key,
}
use yudesk.Account.Users.{register_user, login, logout, bind_device, touch_device, revoke_device}

-- The clock, where a method reads it, comes first.
pub data Call : Type 0 where
  registers : ℕ → Text → List ℕ → Text → Call
  renames : Text → Text → Call
  touches : Text → Option ℕ → Call
  sets_pin : Text → Text → Call
  ensures_permanent : ℕ → Text → Call
  sets_auto : Bool → Call
  grants : ℕ → Text → ℕ → Call
  revokes : ℕ → Text → Call
  unrevokes : Text → Call
  deletes : Text → Call
  ensures_code : List ℕ → Text → Call
  generates : ℕ → ℕ → Text → ℕ → ℕ → Call
  revokes_key : ℕ → Text → Call
  revokes_print : ℕ → Text → Call
  redeems : ℕ → Text → Text → Call
  redeems_user : ℕ → Text → Text → Call
  registers_user : ℕ → List ℕ → Text → Text → Call
  logs_in : ℕ → List ℕ → Text → Text → Call
  logs_out : ℕ → Text → Call
  binds : ℕ → Text → Text → List ℕ → Text → Call
  touches_owned : ℕ → Text → Call
  revokes_owned : ℕ → Text → Text → Call

unfoldable pub step : Platform → Call → Store → Store
step env (registers now id key name) s = (register_licensed_device env now id key name s).1
step env (renames id name) s = (rename_licensed_device env id name s).1
step env (touches id seen) s = (touch_licensed_device env id seen s).1
step env (sets_pin id pin) s = (update_licensed_device_pin env id pin s).1
step env (ensures_permanent now id) s = (ensure_permanent_device_license env now id s).1
step env (sets_auto enabled) s = (set_device_auto_activation enabled s).1
step env (grants now id duration) s = (grant_device_license env now id duration s).1
step env (revokes now id) s = (revoke_licensed_device env now id s).1
step env (unrevokes id) s = (unrevoke_licensed_device env id s).1
step env (deletes id) s = (delete_licensed_device env id s).1
step env (ensures_code draws id) s = (ensure_device_code env draws id s).1
step env (generates now nanos encoded duration window) s =
    (generate_activation_key env now nanos encoded duration window s).1
step env (revokes_key now key) s = (revoke_activation_key env now key s).1
step env (revokes_print now print) s = (revoke_by_fingerprint env now print s).1
step env (redeems now id key) s = (redeem_device_activation_key env now id key s).1
step env (redeems_user now username key) s = (redeem_activation_key env now username key s).1
step env (registers_user now salt name password) s = (register_user env now salt name password s).1
step env (logs_in now raw name password) s = (login env now raw name password s).1
step env (logs_out now token) s = (logout env now token s).1
step env (binds now username id key name) s = (bind_device env now username id key name s).1
step env (touches_owned now id) s = (touch_device env now id s).1
step env (revokes_owned now username id) s = (revoke_device env now username id s).1

unfoldable pub run : Platform → List Call → Store → Store
unfolding step
run env [] s = s
run env (c ∷ cs) s = run env cs (step env c s)
