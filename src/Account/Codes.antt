-- ===== src/Account/Codes.antt =====
-- internal/account/device_codes.go: the nine-digit aliases of devices. The random numbers are a list
-- that the caller supplies, one for each round; where it ends, the random source failed.
use yudesk.Base.{
  ℕ, zero, suc, ◌+◌, Bool, false, not, ◌&&◌, Option, none, some, List, [], ◌∷◌, ◌==◌, if◌then◌else◌,
  same, length, all_of,
}
use yudesk.Text.{Text, Platform, bytes, is_digit, decimal}
use yudesk.Sql.{select, insert}
use yudesk.Account.Data.{DeviceCode, Store, Error, Result, ok, err, Action, normal}
use yudesk.Account.Devices.{find_device}

-- `ValidDeviceCode`. On a text of digits bytes and code points are the same.
unfoldable pub valid_device_code : Text → Bool
unfolding is_digit
valid_device_code [] = false
valid_device_code (c ∷ rest) =
    length (bytes (c ∷ rest)) == 9 && not (c == b'0') && all_of is_digit (c ∷ rest)

abbrev pub code_of : Text → DeviceCode → Bool
code_of id c = same c.device_id id

abbrev pub is_code : Text → DeviceCode → Bool
is_code code c = same c.code code

unfoldable pub find_code : Text → Store → Option DeviceCode
find_code id s = select (code_of id) s.codes

abbrev pub nine_digits : ℕ → Text
nine_digits n = decimal 9 (100_000_000 + n)

-- `INSERT OR IGNORE INTO device_codes`: both columns are unique, and the code has nine characters.
unfoldable pub insert_or_ignore : Text → Text → Store → Store
unfolding find_code
insert_or_ignore id code s = elim (find_code id s) [
  | some _ ↦ s
  | none ↦ elim (select (is_code code) s.codes) [
    | some _ ↦ s
    | none ↦
        if length code == 9
        then record s { codes = insert (record { device_id = id; code = code }) s.codes }
        else s
  ]
]

-- One round of the loop, on the number drawn; `rounds` are left, of 100.
unfoldable pub allocate : ℕ → Text → List ℕ → Action Text
unfolding insert_or_ignore find_code
allocate zero id draws s = (err Error.code_allocation_failed, s)
allocate (suc rounds) id [] s = (err Error.code_allocation_failed, s)
allocate (suc rounds) id (n ∷ draws) s =
    let s' = insert_or_ignore id (nine_digits n) s in
    let rest = allocate rounds id draws s' in
    elim (find_code id s') [ some c ↦ (ok c.code, s') | none ↦ rest ]

-- `EnsureDeviceCode`
unfoldable pub ensure_device_code : Platform → List ℕ → Text → Action Text
unfolding allocate
ensure_device_code env draws device_id s =
    let id = normal env device_id in
    elim (find_code id s) [
      | some c ↦ (ok c.code, s)
      | none ↦ elim (find_device id s) [
        | none ↦ (err Error.no_rows, s)
        | some _ ↦ allocate 100 id draws s
      ]
    ]

-- `SELECT c.device_id FROM device_codes c JOIN licensed_devices d … WHERE c.code=?`
unfoldable pub resolve_row : Option DeviceCode → Store → Result Text
resolve_row none s = err Error.no_rows
resolve_row (some c) s = elim (find_device c.device_id s) [
  | none ↦ err Error.no_rows
  | some d ↦ ok c.device_id
]

-- `ResolveDeviceCode`
unfoldable pub resolve_device_code : Text → Store → Result Text
unfolding resolve_row
resolve_device_code code s =
    if not (valid_device_code code)
    then err Error.invalid_code
    else resolve_row (select (is_code code) s.codes) s
