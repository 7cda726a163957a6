-- ===== src/Account/Aliases.antt =====
-- Device codes over any history of calls: they are valid, unique and never reassigned.
use yudesk.Base.{
  ℕ, zero, suc, ◌≡◌, Bool, none, some, List, [], ◌∷◌, arith, Bool-cases, Option-cases, inl, inr,
  ◌==◌, length,
}
use yudesk.Text.{Text, Platform}
use yudesk.Sql.{select, insert}
use yudesk.Sql.Keyed.{IsKeyed, IsKeyed-insert, select→Fresh, select-insert-some, select-own_key}
use yudesk.Account.Data.{DeviceCode, Store, empty, normal}
use yudesk.Account.Devices.{find_device}
use yudesk.Account.Codes.{
  code_of, is_code, find_code, nine_digits, insert_or_ignore, allocate, ensure_device_code,
}
use yudesk.Account.Calls.{Call, step, run}
use yudesk.Account.Moves.Frame.{step-codes}

-- The table of codes: a code for an id, and an id for a code.
pub record IsInjective (rows : List DeviceCode) : Type 0 where
  pub by_id : IsKeyed (λ (c : DeviceCode). c.device_id) rows
  pub by_code : IsKeyed (λ (c : DeviceCode). c.code) rows

-- What an insertion may do: nothing, or one row with a new id and a new code.
pub data CodesMove (xs ys : List DeviceCode) : Type 0 where
  stay : ys ≡ xs → CodesMove xs ys
  add :
      (c : DeviceCode)
      → select (code_of c.device_id) xs ≡ none
      → select (is_code c.code) xs ≡ none
      → ys ≡ insert c xs
      → CodesMove xs ys

pub insert_or_ignore-Move :
    (id code : Text) (s : Store) → CodesMove s.codes (insert_or_ignore id code s).codes
unfolding insert_or_ignore find_code
insert_or_ignore-Move id code s = elim (Option-cases (select (code_of id) s.codes)) [
  | inr (c, e) ↦ stay (ground arith)
  | inl new ↦ elim (Option-cases (select (is_code code) s.codes)) [
    | inr (c, e) ↦ stay (ground arith)
    | inl free ↦ elim (Bool-cases (length code == 9)) [
      | inl nine ↦ add (record { device_id = id; code = code }) new free (ground arith)
      | inr other ↦ stay (ground arith)
    ]
  ]
]

CodesMove-IsInjective :
    {xs ys : List DeviceCode} → CodesMove xs ys → IsInjective xs → IsInjective ys
CodesMove-IsInjective (stay e) w = rw e w
CodesMove-IsInjective {xs} (add c new free e) w = rw e (record {
  by_id = IsKeyed-insert _ c xs (select→Fresh _ c.device_id xs new) w.by_id;
  by_code = IsKeyed-insert _ c xs (select→Fresh _ c.code xs free) w.by_code;
})

CodesMove-found :
    {xs ys : List DeviceCode} (query : DeviceCode → Bool) {c : DeviceCode}
    → CodesMove xs ys
    → select query xs ≡ some c
    → select query ys ≡ some c
CodesMove-found query (stay e) h = rw e h
CodesMove-found {xs = xs} query (add c _ _ e) h = rw e (select-insert-some query c xs h)

allocate-IsInjective :
    (rounds : ℕ) (id : Text) (draws : List ℕ) (s : Store)
    → IsInjective s.codes
    → IsInjective (allocate rounds id draws s).1.codes
unfolding allocate
allocate-IsInjective zero id draws s w = w
allocate-IsInjective (suc rounds) id [] s w = w
allocate-IsInjective (suc rounds) id (n ∷ draws) s w =
    let s' = insert_or_ignore id (nine_digits n) s in
    let w' = CodesMove-IsInjective (insert_or_ignore-Move id (nine_digits n) s) w in
    elim (Option-cases (find_code id s')) [
      | inl missing ↦ rw (missing, allocate) (allocate-IsInjective rounds id draws s' w')
      | inr (c, e) ↦ rw (e, allocate) w'
    ]

allocate-found :
    (rounds : ℕ) (id : Text) (draws : List ℕ) (s : Store) (query : DeviceCode → Bool)
    {c : DeviceCode}
    → select query s.codes ≡ some c
    → select query (allocate rounds id draws s).1.codes ≡ some c
unfolding allocate
allocate-found zero id draws s query h = h
allocate-found (suc rounds) id [] s query h = h
allocate-found (suc rounds) id (n ∷ draws) s query h =
    let s' = insert_or_ignore id (nine_digits n) s in
    let h' = CodesMove-found query (insert_or_ignore-Move id (nine_digits n) s) h in
    elim (Option-cases (find_code id s')) [
      | inl missing ↦ rw (missing, allocate) (allocate-found rounds id draws s' query h')
      | inr (_, e) ↦ rw (e, allocate) h'
    ]

pub ensure-IsInjective :
    (env : Platform) (draws : List ℕ) (id : Text) (s : Store)
    → IsInjective s.codes
    → IsInjective (ensure_device_code env draws id s).1.codes
unfolding ensure_device_code
ensure-IsInjective env draws id s w = elim (Option-cases (find_code (normal env id) s)) [
  | inr (c, e) ↦ rw (e, ensure_device_code) w
  | inl new ↦ elim (Option-cases (find_device (normal env id) s)) [
    | inl missing ↦ rw (new, ensure_device_code, missing) w
    | inr (d, e) ↦
        rw (new, ensure_device_code, e) (allocate-IsInjective 100 (normal env id) draws s w)
  ]
]

ensure-found :
    (env : Platform) (draws : List ℕ) (id : Text) (s : Store) (query : DeviceCode → Bool)
    {c : DeviceCode}
    → select query s.codes ≡ some c
    → select query (ensure_device_code env draws id s).1.codes ≡ some c
unfolding ensure_device_code
ensure-found env draws id s query h = elim (Option-cases (find_code (normal env id) s)) [
  | inr (_, e) ↦ rw (e, ensure_device_code) h
  | inl new ↦ elim (Option-cases (find_device (normal env id) s)) [
    | inl missing ↦ rw (new, ensure_device_code, missing) h
    | inr (d, e) ↦
        rw (new, ensure_device_code, e) (allocate-found 100 (normal env id) draws s query h)
  ]
]

step-IsInjective :
    (env : Platform) (c : Call) (s : Store) → IsInjective s.codes → IsInjective (step env c s).codes
unfolding step
step-IsInjective env c s w = elim (step-codes env c s) [
  | inl (draws, id, e) ↦ rw e (ensure-IsInjective env draws id s w)
  | inr e ↦ rw e w
]

step-found :
    (env : Platform) (c : Call) (s : Store) (query : DeviceCode → Bool) {x : DeviceCode}
    → select query s.codes ≡ some x
    → select query (step env c s).codes ≡ some x
unfolding step
step-found env c s query h = elim (step-codes env c s) [
  | inl (draws, id, e) ↦ rw e (ensure-found env draws id s query h)
  | inr e ↦ rw e h
]

run-IsInjective_from :
    (env : Platform) (cs : List Call) (s : Store)
    → IsInjective s.codes
    → IsInjective (run env cs s).codes
unfolding run
run-IsInjective_from env [] s w = w
run-IsInjective_from env (c ∷ cs) s w =
    run-IsInjective_from env cs (step env c s) (step-IsInjective env c s w)

-- After any history of calls from the empty store, no two rows of the code table share a device id
-- and no two share a code.
pub run-IsInjective : (env : Platform) (cs : List Call) → IsInjective (run env cs empty).codes
run-IsInjective env cs = run-IsInjective_from env cs empty (record { by_id = tt; by_code = tt })

run-found :
    (env : Platform) (cs : List Call) (s : Store) (query : DeviceCode → Bool) {x : DeviceCode}
    → select query s.codes ≡ some x
    → select query (run env cs s).codes ≡ some x
unfolding run
run-found env [] s query h = h
run-found env (c ∷ cs) s query h =
    run-found env cs (step env c s) query (step-found env c s query h)

-- A device keeps its code, and the code keeps its device, through any history of calls, the
-- deletion of the device included: codes are never given out a second time.
pub run-keeps_code :
    (env : Platform) (cs : List Call) (id : Text) (s : Store) {c : DeviceCode}
    → IsInjective s.codes
    → find_code id s ≡ some c
    → (find_code id (run env cs s) ≡ some c)
      × (select (is_code c.code) (run env cs s).codes ≡ some c)
unfolding find_code
run-keeps_code env cs id s w h = (
  run-found env cs s (code_of id) h,
  run-found env cs s _
      (select-own_key (λ (x : DeviceCode). x.code) (code_of id) s.codes w.by_code h),
)
