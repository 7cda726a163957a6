-- ===== src/Account/Users.antt =====
-- internal/account/account.go: accounts, sessions and the devices that an account owns.
use yudesk.Base.{
  ℕ, ◌+◌, ◌*◌, Bool, true, false, not, ◌&&◌, ◌||◌, Option, none, some, List, [], ltb, leb, ◌==◌,
  if◌then◌else◌, same, length, all_of,
}
use yudesk.Text.{Text, Platform, bytes, hex, to_upper, trim_space}
use yudesk.Sql.{select, update, affected, delete, insert}
use yudesk.Account.Data.{
  User, Session, OwnedDevice, Store, Error, ok, err, Action, hour, hash_token,
}
use yudesk.Account.Devices.{identity_of}
use yudesk.Account.Keys.{is_user}

-- `sessionLifetime`, in seconds
abbrev pub session_lifetime : ℕ
session_lifetime = 24 * hour

-- `[a-zA-Z0-9_.-]`
unfoldable pub is_name_char : ℕ → Bool
is_name_char c =
    (leb b'a' c && leb c b'z')
    || (leb b'A' c && leb c b'Z')
    || (leb b'0' c && leb c b'9')
    || c == b'_'
    || c == b'.'
    || c == b'-'

-- `usernamePattern.MatchString`
unfoldable pub valid_username : Text → Bool
unfolding is_name_char
valid_username s = leb 3 (length s) && leb (length s) 48 && all_of is_name_char s

unfoldable pub find_user : Text → Store → Option User
find_user username s = select (is_user username) s.users

-- INSERT INTO accounts, which an account of that name refuses.
unfoldable pub insert_user : User → Option User → Action (Unit {0})
insert_user u (some taken) s = (err Error.username_taken, s)
insert_user u none s = (ok tt, record s { users = insert u s.users })

-- `Register`, on the random salt.
unfoldable pub register_user : Platform → ℕ → List ℕ → Text → Text → Action (Unit {0})
unfolding valid_username insert_user find_user
register_user env now salt raw_name password s =
    let username = trim_space raw_name in
    if not (valid_username username)
    then (err Error.bad_username, s)
    else if ltb (length (bytes password)) 10 || ltb 256 (length (bytes password))
    then (err Error.bad_password, s)
    else insert_user
        (record {
          username = username;
          password_hash = env.argon2 (bytes password) salt;
          salt = salt;
          created_at = now;
          active_until = 0;
        })
        (find_user username s) s

abbrev pub has_token : Text → Session → Bool
has_token hash x = same x.token_hash hash

-- `WHERE expires_at<? OR revoked_at>0`
abbrev pub is_stale : ℕ → Session → Bool
is_stale now x = ltb x.expires_at now || ltb 0 x.revoked_at

unfoldable pub open_session : Session → ℕ → Text → Option Session → Action Text
open_session x now token (some taken) s = (err Error.constraint_failed, s)
open_session x now token none s =
    (ok token, record s { sessions = delete (is_stale now) (insert x s.sessions) })

unfoldable pub login_as : Platform → ℕ → List ℕ → Text → Text → Option User → Action Text
unfolding open_session
login_as env now raw username password none s = (err Error.invalid_login, s)
login_as env now raw username password (some u) s =
    if not (same (env.argon2 (bytes password) u.salt) u.password_hash)
    then (err Error.invalid_login, s)
    else let token = hex raw in
      let hash = hash_token env token in
      open_session
        (record {
          token_hash = hash;
          username = username;
          expires_at = now + session_lifetime;
          revoked_at = 0;
        })
        now token (select (has_token hash) s.sessions) s

-- `Login`, on the random bytes of the token.
unfoldable pub login : Platform → ℕ → List ℕ → Text → Text → Action Text
unfolding login_as find_user
login env now raw raw_name password s =
    let username = trim_space raw_name in
    login_as env now raw username password (find_user username s) s

-- `WHERE token_hash=? AND revoked_at=0 AND expires_at>?`
abbrev pub is_live : Text → ℕ → Session → Bool
is_live hash now x = has_token hash x && x.revoked_at == 0 && ltb now x.expires_at

abbrev pub holder : Option Session → Option Text
holder none = none
holder (some x) = some x.username

-- `Authenticate`
unfoldable pub authenticate : Platform → ℕ → Text → Store → Option Text
authenticate env now token s =
    if same token [] then none else holder (select (is_live (hash_token env token) now) s.sessions)

unfoldable pub logout : Platform → ℕ → Text → Action (Unit {0})
logout env now token s = (
  ok tt,
  record s {
    sessions =
        update (has_token (hash_token env token)) (λ x. record x { revoked_at = now }) s.sessions;
  },
)

abbrev pub expiry_above : Option User → ℕ → Bool
expiry_above none now = false
expiry_above (some u) now = ltb now u.active_until

-- `HasActiveLicense`
unfoldable pub has_active_license : ℕ → Text → Store → Bool
unfolding find_user
has_active_license now username s = expiry_above (find_user username s) now

abbrev pub owned_id : Text → OwnedDevice → Bool
owned_id id d = same d.device_id id

unfoldable pub find_owned : Text → Store → Option OwnedDevice
find_owned id s = select (owned_id id) s.owned

-- The INSERT or UPDATE of `BindDevice`, for the row found under this id. `owner` refers to `accounts`,
-- so that an unknown user is refused.
unfoldable pub bind_found : Text → Text → List ℕ → Text → ℕ → Option OwnedDevice → Action (Unit {0})
unfolding find_user
bind_found username id public_key name now none s = elim (find_user username s) [
  | none ↦ (err Error.constraint_failed, s)
  | some u ↦ (
    ok tt,
    record s {
      owned =
          insert
            (record {
              device_id = id;
              owner = username;
              public_key = public_key;
              name = name;
              approved_at = now;
              last_seen = now;
              revoked_at = 0;
            })
            s.owned;
    },
  )
]
bind_found username id public_key name now (some d) s =
    if not (same d.owner username)
    then (err Error.other_owner, s)
    else if not (same d.public_key public_key)
    then (err Error.identity_changed, s)
    else if not (d.revoked_at == 0)
    then (err Error.device_revoked, s)
    else (
      ok tt,
      record s {
        owned =
            update (owned_id id)
              (λ x. record x { last_seen = now; name = if same name [] then x.name else name })
              s.owned;
      },
    )

-- `BindDevice`. `strings.EqualFold` against an identity, which is upper-case ASCII.
unfoldable pub bind_device : Platform → ℕ → Text → Text → List ℕ → Text → Action (Unit {0})
unfolding bind_found find_owned
bind_device env now username device_id public_key name s =
    let id = to_upper env device_id in
    if not (length public_key == 32) || not (same (identity_of env public_key) id)
    then (err Error.identity_mismatch, s)
    else bind_found username id public_key name now (find_owned id s) s

-- `WHERE owner=? AND device_id=? AND revoked_at=0`
abbrev pub is_owned : Text → Text → OwnedDevice → Bool
is_owned username id d = same d.owner username && owned_id id d && d.revoked_at == 0

unfoldable pub owns_device : Platform → Text → Text → Store → Bool
owns_device env username device_id s =
    elim (select (is_owned username (to_upper env device_id)) s.owned) [
      | none ↦ false
      | some d ↦ true
    ]

unfoldable pub touch_device : Platform → ℕ → Text → Action (Unit {0})
touch_device env now device_id s = (
  ok tt,
  record s {
    owned = update (owned_id (to_upper env device_id)) (λ x. record x { last_seen = now }) s.owned;
  },
)

unfoldable pub revoke_device : Platform → ℕ → Text → Text → Action (Unit {0})
revoke_device env now username device_id s =
    let test : (OwnedDevice → Bool) = is_owned username (to_upper env device_id) in
    let s' : Store = record s {
      owned = update test (λ x. record x { revoked_at = now }) s.owned;
    } in
    if affected test s.owned == 1 then (ok tt, s') else (err Error.device_not_found, s')
