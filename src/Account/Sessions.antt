-- ===== src/Account/Sessions.antt =====
-- Login sessions: a token opens its session until it expires or is logged out.
use yudesk.Base.{
  ℕ, ◌+◌, ◌<◌, ◌≡◌, refl, sym, ◌∙◌, ap, false, Option, none, some, List, [], ◌∷◌, arith, same,
  same_refl, Bool-cases, inl, inr, if◌then◌else◌, ltb,
}
use yudesk.Text.{Text, Platform, bytes, trim_space, hex}
use yudesk.Sql.{select, update, delete, insert}
use yudesk.Account.Data.{User, Session, Store, ok, hash_token}
use yudesk.Account.Users.{
  session_lifetime, find_user, has_token, is_stale, is_live, login, login_as, open_session,
  authenticate, logout,
}

live_new :
    (hash : Text) (now t : ℕ) (x : Session) (rows : List Session)
    → select (has_token hash) rows ≡ none
    → is_stale now x ≡ false
    → select (is_live hash t) (delete (is_stale now) (insert x rows))
      ≡ (if is_live hash t x then some x else none)
unfolding select delete insert
live_new hash now t x [] free fresh = rw fresh
live_new hash now t x (y ∷ rows) free fresh = ground (arith, live_new hash now t x rows)

open_session-live :
    (env : Platform) (now t : ℕ) (token username : Text) (o : Option Session) (s : Store)
    → select (has_token (hash_token env token)) s.sessions ≡ o
    → same token [] ≡ false
    → let x : Session = record {
      token_hash = hash_token env token;
      username = username;
      expires_at = now + session_lifetime;
      revoked_at = 0;
    } in
      let r = open_session x now token o s in
      r.0 ≡ ok token
      → authenticate env t token r.1
        ≡ (if ltb t (now + session_lifetime) then some username else none)
unfolding open_session authenticate
open_session-live env now t token username (some _) s free word h = cc
open_session-live env now t token username none s free word h =
    let hash = hash_token env token in
    let x : Session = record {
      token_hash = hash;
      username = username;
      expires_at = now + session_lifetime;
      revoked_at = 0;
    } in
    rw (word, live_new hash now t x s.sessions free (ground arith), same_refl hash)
      (elim (Bool-cases (ltb t (now + session_lifetime))) [
        | inl early ↦ rw early
        | inr late ↦ rw late
      ])

open_session-token :
    (x : Session) (now : ℕ) (given : Text) (o : Option Session) (s : Store) (token : Text)
    → (open_session x now given o s).0 ≡ ok token
    → given ≡ token
unfolding open_session
open_session-token x now given none s token h = cc
open_session-token x now given (some _) s token h = cc

login_as-live :
    (env : Platform) (now t : ℕ) (raw : List ℕ) (username password : Text) (o : Option User)
    (s : Store) (token : Text)
    → same (hex raw) [] ≡ false
    → (login_as env now raw username password o s).0 ≡ ok token
    → authenticate env t token (login_as env now raw username password o s).1
      ≡ (if ltb t (now + session_lifetime) then some username else none)
unfolding login_as
login_as-live env now t raw username password none s token word h = cc
login_as-live env now t raw username password (some u) s token word h =
    elim (Bool-cases (same (env.argon2 (bytes password) u.salt) u.password_hash)) [
      | inr wrong ↦ absurd (ground arith)
      | inl right ↦
          let h' = rw right at h in
          let e = open_session-token _ now (hex raw) _ s token h' in
          rw (right, ← e)
            (open_session-live env now t (hex raw) username
              (select (has_token (hash_token env (hex raw))) s.sessions) s refl word
              (h' ∙ ap ok (sym e)))
    ]

-- A token that Login gives, from random bytes that are not empty, opens a session of the user who
-- logged in for exactly 24 hours.
pub login_authenticates :
    (env : Platform) (now t : ℕ) (raw : List ℕ) (raw_name password : Text) (s : Store)
    (token : Text)
    → same (hex raw) [] ≡ false
    → (login env now raw raw_name password s).0 ≡ ok token
    → authenticate env t token (login env now raw raw_name password s).1
      ≡ (if ltb t (now + session_lifetime) then some (trim_space raw_name) else none)
unfolding login
login_authenticates env now t raw raw_name password s token word h =
    login_as-live env now t raw (trim_space raw_name) password (find_user (trim_space raw_name) s) s
      token word h

logged_out :
    (hash : Text) (now t : ℕ) (rows : List Session)
    → 0 < now
    → select (is_live hash t) (update (has_token hash) (λ x. record x { revoked_at = now }) rows)
      ≡ none
unfolding select update
logged_out hash now t [] late = refl
logged_out hash now t (x ∷ rows) late = elim (Bool-cases (same x.token_hash hash)) [
  | inl hit ↦ rw (hit, hit) (ground (arith, logged_out hash now t rows late))
  | inr miss ↦ rw (miss, miss) (logged_out hash now t rows late)
]

-- After a logout, with the clock past the epoch, the token opens no session at any time.
pub logout_ends :
    (env : Platform) (now t : ℕ) (token : Text) (s : Store)
    → 0 < now
    → authenticate env t token (logout env now token s).1 ≡ none
unfolding authenticate logout
logout_ends env now t token s late = elim (Bool-cases (same token [])) [
  | inl blank ↦ rw blank
  | inr word ↦ rw (word, logged_out (hash_token env token) now t s.sessions late)
]
