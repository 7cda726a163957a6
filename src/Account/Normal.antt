-- ===== src/Account/Normal.antt =====
-- An identity, upper-case hexadecimal, is its own normal form.
use yudesk.Base.{
  ℕ, zero, suc, ◌≡◌, refl, Bool, true, false, ◌&&◌, ◌||◌, List, [], ◌∷◌, arith, leb, ltb, take,
  all_of,
}
use yudesk.Text.{
  Text, Platform, hex, to_upper, trim_space, trim_left, trim_right, keep_unless_blank, is_space,
}
use yudesk.Account.Data.{normal}
use yudesk.Account.Devices.{identity_of}

-- What SHA-256 returns are bytes.
abbrev pub HashesBytes : Platform → Type 0
HashesBytes env = (m : List ℕ) → all_of (λ b. ltb b 256) (env.sha256 m) ≡ true

abbrev is_lower_hex : ℕ → Bool
is_lower_hex c = (leb b'0' c && leb c b'9') || (leb b'a' c && leb c b'f')

abbrev is_upper_hex : ℕ → Bool
is_upper_hex c = (leb b'0' c && leb c b'9') || (leb b'A' c && leb c b'F')

all_of-take :
    (p : ℕ → Bool) (n : ℕ) (xs : List ℕ) → all_of p xs ≡ true → all_of p (take n xs) ≡ true
all_of-take p zero xs h = refl
all_of-take p (suc n) [] h = refl
all_of-take p (suc n) (x ∷ xs) h = ground (arith, all_of-take p n xs)

hex-lower : (bs : List ℕ) → all_of (λ b. ltb b 256) bs ≡ true → all_of is_lower_hex (hex bs) ≡ true
unfolding hex
hex-lower [] h = refl
hex-lower (b ∷ bs) h = ground (arith, hex-lower bs)

upper_of_lower :
    (env : Platform) (s : Text)
    → all_of is_lower_hex s ≡ true
    → all_of is_upper_hex (to_upper env s) ≡ true
unfolding to_upper
upper_of_lower env [] h = refl
upper_of_lower env (c ∷ s) h = ground (arith, upper_of_lower env s)

to_upper-fixed : (env : Platform) (s : Text) → all_of is_upper_hex s ≡ true → to_upper env s ≡ s
unfolding to_upper
to_upper-fixed env [] h = refl
to_upper-fixed env (c ∷ s) h = ground (arith, to_upper-fixed env s)

hex-not_space : (c : ℕ) → is_upper_hex c ≡ true → is_space c ≡ false
unfolding is_space
hex-not_space c h = ground arith

trim_left-fixed : (s : Text) → all_of is_upper_hex s ≡ true → trim_left s ≡ s
unfolding trim_left
trim_left-fixed [] h = refl
trim_left-fixed (c ∷ s) h = rw (hex-not_space c (ground arith))

keep-fixed : (c : ℕ) (s : Text) → is_space c ≡ false → keep_unless_blank c s ≡ c ∷ s
unfolding keep_unless_blank
keep-fixed c [] h = rw h
keep-fixed c (d ∷ s) h = refl

trim_right-fixed : (s : Text) → all_of is_upper_hex s ≡ true → trim_right s ≡ s
unfolding trim_right
trim_right-fixed [] h = refl
trim_right-fixed (c ∷ s) h =
    rw (trim_right-fixed s (ground arith)) (keep-fixed c s (hex-not_space c (ground arith)))

normal-fixed : (env : Platform) (s : Text) → all_of is_upper_hex s ≡ true → normal env s ≡ s
unfolding normal trim_space
normal-fixed env s upper =
    rw (trim_left-fixed s upper, trim_right-fixed s upper) (to_upper-fixed env s upper)

pub normal-identity_of :
    (env : Platform) (key : List ℕ)
    → HashesBytes env
    → normal env (identity_of env key) ≡ identity_of env key
unfolding identity_of
normal-identity_of env key hashed =
    let raw = take 12 (env.sha256 key) in
    let bytes = all_of-take (λ b. ltb b 256) 12 (env.sha256 key) (hashed key) in
    normal-fixed env (to_upper env (hex raw)) (upper_of_lower env (hex raw) (hex-lower raw bytes))
