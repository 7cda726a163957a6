-- ===== src/Account/Resolve.antt =====
-- What EnsureDeviceCode gives is a code that ResolveDeviceCode takes back to the device.
use yudesk.Base.{
  ℕ, zero, suc, ◌<◌, ◌≡◌, refl, Bool, true, false, not, some, List, [], ◌∷◌, arith, same→≡,
  Option-cases, inl, inr, ◌==◌, ltb, length, all_of, &&-eq-true,
}
use yudesk.Text.{
  Text, Platform, decimal, length-decimal, decimal-digits, is_digit, bytes, utf8_rune,
}
use yudesk.Sql.{select, insert}
use yudesk.Sql.Keyed.{select-own_key, select-test}
use yudesk.Account.Data.{DeviceCode, Device, Store, ok, normal}
use yudesk.Account.Devices.{find_device}
use yudesk.Account.Codes.{
  valid_device_code, code_of, is_code, find_code, nine_digits, insert_or_ignore, allocate,
  ensure_device_code, resolve_device_code, resolve_row,
}
use yudesk.Account.Moves.Frame.{ensure_code-devices}
use yudesk.Account.Aliases.{IsInjective, ensure-IsInjective}

-- `rand.Int(rand.Reader, big.NewInt(900000000))` is below its bound.
abbrev pub in_range : ℕ → Bool
in_range n = ltb n 900_000_000

bytes-digits : (s : Text) → all_of is_digit s ≡ true → bytes s ≡ s
unfolding bytes utf8_rune is_digit
bytes-digits [] h = refl
bytes-digits (c ∷ s) h = ground (arith, bytes-digits s)

abbrev leads_nonzero : Text → Bool
leads_nonzero [] = false
leads_nonzero (c ∷ rest) = not (c == b'0')

valid_of_digits :
    (s : Text)
    → all_of is_digit s ≡ true
    → length s ≡ 9
    → leads_nonzero s ≡ true
    → valid_device_code s ≡ true
unfolding valid_device_code
valid_of_digits [] digits nine nonzero = nonzero
valid_of_digits (c ∷ rest) digits nine nonzero =
    rw (bytes-digits (c ∷ rest) digits, nonzero) (ground arith)

nine_digits-nonzero : (n : ℕ) → n < 900_000_000 → leads_nonzero (nine_digits n) ≡ true
unfolding decimal
nine_digits-nonzero n h = ground arith

-- Every number that the loop draws gives a valid code.
pub nine_digits-valid : (n : ℕ) → in_range n ≡ true → valid_device_code (nine_digits n) ≡ true
nine_digits-valid n h =
    valid_of_digits (nine_digits n) (decimal-digits 9 _) (length-decimal 9 _)
      (nine_digits-nonzero n (ground arith))

abbrev pub AllValid : List DeviceCode → Type 0
AllValid [] = Unit {0}
AllValid (c ∷ rows) = (valid_device_code c.code ≡ true) × AllValid rows

AllValid-insert :
    (c : DeviceCode) (rows : List DeviceCode)
    → valid_device_code c.code ≡ true
    → AllValid rows
    → AllValid (insert c rows)
unfolding insert
AllValid-insert c [] v h = (v, tt)
AllValid-insert c (x ∷ rows) v h = (h.0, AllValid-insert c rows v h.1)

AllValid-select :
    (query : DeviceCode → Bool) (rows : List DeviceCode) {c : DeviceCode}
    → AllValid rows
    → select query rows ≡ some c
    → valid_device_code c.code ≡ true
unfolding select
AllValid-select query [] v h = ground arith
AllValid-select query (x ∷ rows) {c} v h = ground (arith, AllValid-select query rows {c = c} v.1)

insert_or_ignore-AllValid :
    (id code : Text) (s : Store)
    → valid_device_code code ≡ true
    → AllValid s.codes
    → AllValid (insert_or_ignore id code s).codes
unfolding insert_or_ignore
insert_or_ignore-AllValid id code s v h =
    ground (arith, AllValid-insert (record { device_id = id; code = code }) s.codes v h)

-- The loop's result is what the table then holds for the id.
allocate-result :
    (rounds : ℕ) (id : Text) (draws : List ℕ) (s : Store) (code : Text)
    → all_of in_range draws ≡ true
    → AllValid s.codes
    → (allocate rounds id draws s).0 ≡ ok code
    → let s' = (allocate rounds id draws s).1 in
      AllValid s'.codes × ((c : DeviceCode) × (find_code id s' ≡ some c) × (c.code ≡ code))
unfolding allocate
allocate-result zero id draws s code h v e = cc
allocate-result (suc rounds) id [] s code h v e = cc
allocate-result (suc rounds) id (n ∷ draws) s code h v e =
    let s' = insert_or_ignore id (nine_digits n) s in
    let both = &&-eq-true (in_range n) (all_of in_range draws) h in
    let v' = insert_or_ignore-AllValid id (nine_digits n) s (nine_digits-valid n both.0) v in
    elim (Option-cases (find_code id s')) [
      | inl missing ↦
          rw (missing, allocate)
            (allocate-result rounds id draws s' code both.1 v' (rw (missing, allocate) at e))
      | inr (c, found) ↦ rw (found, allocate) (v', (c, found, ground arith))
    ]

ensure-result :
    (env : Platform) (draws : List ℕ) (id : Text) (s : Store) (code : Text)
    → all_of in_range draws ≡ true
    → AllValid s.codes
    → (ensure_device_code env draws id s).0 ≡ ok code
    → let s' = (ensure_device_code env draws id s).1 in
      AllValid s'.codes
      × ((c : DeviceCode) × (find_code (normal env id) s' ≡ some c) × (c.code ≡ code))
unfolding ensure_device_code
ensure-result env draws id s code h v e = elim (Option-cases (find_code (normal env id) s)) [
  | inr (c, found) ↦ rw (found, ensure_device_code) (v, (c, found, ground arith))
  | inl new ↦ elim (Option-cases (find_device (normal env id) s)) [
    | inl missing ↦ ground arith
    | inr (d, known) ↦
        rw (new, ensure_device_code, known)
          (allocate-result 100 (normal env id) draws s code h v
            (rw (new, ensure_device_code, known) at e))
  ]
]

resolve_held :
    (id : Text) (s : Store) (c : DeviceCode) {d : Device}
    → IsInjective s.codes
    → AllValid s.codes
    → find_code id s ≡ some c
    → find_device id s ≡ some d
    → (valid_device_code c.code ≡ true) × (resolve_device_code c.code s ≡ ok id)
unfolding find_code resolve_device_code
resolve_held id s c {d} w v held known = (valid, rw (valid, back, own) (rw (known, resolve_row)))
  where
    valid : valid_device_code c.code ≡ true
    valid = AllValid-select (code_of id) s.codes v held

    back : select (is_code c.code) s.codes ≡ some c
    back = select-own_key (λ (x : DeviceCode). x.code) (code_of id) s.codes w.by_code held

    own : c.device_id ≡ id
    own = same→≡ c.device_id id (select-test (code_of id) s.codes held)

ensure_again :
    (env : Platform) (draws : List ℕ) (id : Text) (s : Store) (c : DeviceCode)
    → find_code (normal env id) s ≡ some c
    → ensure_device_code env draws id s ≡ (ok c.code, s)
unfolding ensure_device_code
ensure_again env draws id s c held = rw (held, ensure_device_code)

-- If EnsureDeviceCode succeeds for a licensed device, with the random numbers in their range and
-- a table of valid codes without duplicates, then its result is a valid code, ResolveDeviceCode
-- takes the code to the device's id, and a second call gives the same code and writes nothing.
pub ensure-resolve :
    (env : Platform) (draws again : List ℕ) (id : Text) (s : Store) (code : Text) {d : Device}
    → all_of in_range draws ≡ true
    → IsInjective s.codes
    → AllValid s.codes
    → find_device (normal env id) s ≡ some d
    → (ensure_device_code env draws id s).0 ≡ ok code
    → let s' = (ensure_device_code env draws id s).1 in
      (valid_device_code code ≡ true)
      × (resolve_device_code code s' ≡ ok (normal env id))
      × (ensure_device_code env again id s' ≡ (ok code, s'))
unfolding find_device
ensure-resolve env draws again id s code {d} h w v known e =
    let s' = (ensure_device_code env draws id s).1 in
    let (v', (c, held, same_code)) = ensure-result env draws id s code h v e in
    let w' = ensure-IsInjective env draws id s w in
    let known' : find_device (normal env id) s' ≡ some d =
      rw (ensure_code-devices env draws id s) known in
    let (valid, back) = resolve_held (normal env id) s' c w' v' held known' in
    (
      rw same_code at valid,
      rw same_code at back,
      rw (← same_code) (ensure_again env again id s' c held),
    )
