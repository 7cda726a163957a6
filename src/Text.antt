-- ===== src/Text.antt =====
-- Text as the Go code handles it: a list of code points, with the functions of the packages
-- `strings`, `unicode/utf8`, `encoding/hex` and `fmt` that the sources call.
use yudesk.Base.{
  ℕ, zero, suc, ◌+◌, ◌-◌, ◌/◌, ◌%◌, ◌≡◌, refl, Bool, true, ◌&&◌, ◌||◌, List, [], ◌∷◌, ◌++◌, arith,
  ltb, leb, ◌==◌, if◌then◌else◌, length, all_of, map, length-append,
}

abbrev pub Text : Type 0
Text = List ℕ

-- What the sources take from the standard library's tables and from cryptography.
pub record Platform : Type 0 where
  -- `unicode.ToUpper` above ASCII
  pub upper_wide : ℕ → ℕ
  -- `sha256.Sum256` on bytes
  pub sha256 : List ℕ → List ℕ
  -- `argon2.IDKey` with the parameters of `passwordHash`, on the password and the salt
  pub argon2 : List ℕ → List ℕ → List ℕ

-- `unicode.IsSpace`
unfoldable pub is_space : ℕ → Bool
is_space c =
    (leb 9 c && leb c 13)
    || c == 32
    || c == 0x85
    || c == 0xa0
    || c == 0x1680
    || (leb 0x2000 c && leb c 0x200a)
    || c == 0x2028
    || c == 0x2029
    || c == 0x202f
    || c == 0x205f
    || c == 0x3000

unfoldable pub trim_left : Text → Text
unfolding is_space
trim_left [] = []
trim_left (c ∷ s) = if is_space c then trim_left s else c ∷ s

-- A last character stays unless it is blank.
unfoldable pub keep_unless_blank : ℕ → Text → Text
unfolding is_space
keep_unless_blank c [] = if is_space c then [] else c ∷ []
keep_unless_blank c (d ∷ r) = c ∷ d ∷ r

unfoldable pub trim_right : Text → Text
unfolding keep_unless_blank
trim_right [] = []
trim_right (c ∷ s) = keep_unless_blank c (trim_right s)

-- `strings.TrimSpace`
unfoldable pub trim_space : Text → Text
unfolding trim_left trim_right
trim_space s = trim_right (trim_left s)

-- `unicode.ToUpper`
unfoldable pub upper_rune : Platform → ℕ → ℕ
upper_rune env c =
    if leb b'a' c && leb c b'z' then c - 32 else if ltb c 128 then c else env.upper_wide c

-- `strings.ToUpper`
unfoldable pub to_upper : Platform → Text → Text
unfolding upper_rune
to_upper env = map (upper_rune env)

-- The bytes of one code point.
unfoldable pub utf8_rune : ℕ → List ℕ
utf8_rune c =
    if ltb c 0x80
    then c ∷ []
    else if ltb c 0x800
    then (0xc0 + c / 64) ∷ (0x80 + c % 64) ∷ []
    else if ltb c 0x1_0000
    then (0xe0 + c / 4096) ∷ (0x80 + c / 64 % 64) ∷ (0x80 + c % 64) ∷ []
    else (0xf0 + c / 262144) ∷ (0x80 + c / 4096 % 64) ∷ (0x80 + c / 64 % 64) ∷ (0x80 + c % 64) ∷ []

-- `[]byte(s)`; `len(s)` counts these.
unfoldable pub bytes : Text → List ℕ
unfolding utf8_rune
bytes [] = []
bytes (c ∷ s) = utf8_rune c ++ bytes s

unfoldable pub is_digit : ℕ → Bool
is_digit c = leb b'0' c && leb c b'9'

unfoldable pub hex_digit : ℕ → ℕ
hex_digit d = if ltb d 10 then b'0' + d else b'a' + (d - 10)

-- `hex.EncodeToString`
unfoldable pub hex : List ℕ → Text
unfolding hex_digit
hex [] = []
hex (b ∷ bs) = hex_digit (b / 16) ∷ hex_digit (b % 16) ∷ hex bs

-- `fmt.Sprintf("%0wd", n)` for a number of at most `w` digits.
unfoldable pub decimal : ℕ → ℕ → Text
decimal zero n = []
decimal (suc w) n = decimal w (n / 10) ++ (b'0' + n % 10) ∷ []

pub length-decimal : (w n : ℕ) → length (decimal w n) ≡ w
unfolding decimal
length-decimal zero n = refl
length-decimal (suc w) n =
    omega
      (arith, length-append (decimal w (n / 10)) ((b'0' + n % 10) ∷ []), length-decimal w (n / 10))

all_of-append :
    (p : ℕ → Bool) (s t : Text) → all_of p s ≡ true → all_of p t ≡ true → all_of p (s ++ t) ≡ true
all_of-append p [] t h k = k
all_of-append p (c ∷ s) t h k = ground (arith, all_of-append p s t)

pub decimal-digits : (w n : ℕ) → all_of is_digit (decimal w n) ≡ true
unfolding decimal is_digit
decimal-digits zero n = refl
decimal-digits (suc w) n =
    all_of-append is_digit (decimal w (n / 10)) _ (decimal-digits w (n / 10)) (ground arith)
