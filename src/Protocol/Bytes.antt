-- ===== src/Protocol/Bytes.antt =====
-- Reading back what was written: numbers, blocks of bytes, and a chunk in its place.
use yudesk.Base.{
  ℕ, zero, suc, ◌+◌, ◌^◌, ◌<◌, ◌≡◌, refl, ap, Bool, [], ◌∷◌, ◌++◌, arith, le→leb, if◌then◌else◌,
  length, take, drop, length-append,
}
use mathlib.Core.List.{append_assoc}
use native.Mathlib.Nat.{zero-add, suc-add}
use yudesk.Protocol.Wire.{
  Bytes, ok, put_u32, get_u32, packet, read_full, zeros, splice, fragment_flag,
}

pub get-put_u32 : (n : ℕ) (rest : Bytes) → n < 2 ^ 32 → get_u32 (put_u32 n ++ rest) ≡ n
unfolding get_u32 put_u32
get-put_u32 n rest h = omega arith

pub take-append : (xs ys : Bytes) → take (length xs) (xs ++ ys) ≡ xs
take-append [] ys = refl
take-append (x ∷ xs) ys = ap (◌∷◌ x) (take-append xs ys)

pub drop-append : (xs ys : Bytes) → drop (length xs) (xs ++ ys) ≡ ys
drop-append [] ys = refl
drop-append (x ∷ xs) ys = drop-append xs ys

pub read_full-append :
    (n : ℕ) (xs ys : Bytes) → n ≡ length xs → read_full n (xs ++ ys) ≡ ok (xs, ys)
unfolding read_full
read_full-append n xs ys e = rw (
  e,
  le→leb (length xs) (length (xs ++ ys)) (omega (arith, length-append xs ys)),
  take-append xs ys,
  drop-append xs ys,
)

-- The two sizes before a packet's header.
abbrev pub sizes : Bytes → Bytes → Bool → Bytes
sizes header content fragment =
    put_u32 (length header + (if fragment then fragment_flag else 0)) ++ put_u32 (length content)

pub packet-append :
    (header content : Bytes) (fragment : Bool) (rest : Bytes)
    → packet header content fragment ++ rest
      ≡ sizes header content fragment ++ (header ++ (content ++ rest))
unfolding packet
packet-append header content fragment rest = simp append_assoc

pub length-sizes :
    (header content : Bytes) (fragment : Bool) → 8 ≡ length (sizes header content fragment)
unfolding put_u32
length-sizes header content fragment = refl

pub get-sizes :
    (header content : Bytes) (fragment : Bool)
    → length header + (if fragment then fragment_flag else 0) < 2 ^ 32
    → length content < 2 ^ 32
    → (get_u32 (sizes header content fragment)
        ≡ length header + (if fragment then fragment_flag else 0))
      × (get_u32 (drop 4 (sizes header content fragment)) ≡ length content)
unfolding put_u32 get_u32
get-sizes header content fragment h k = (omega arith, omega arith)

pub length-zeros : (n : ℕ) → length (zeros n) ≡ n
unfolding zeros
length-zeros zero = refl
length-zeros (suc n) = ap suc (length-zeros n)

drop-zeros : (n m : ℕ) → drop n (zeros (n + m)) ≡ zeros m
unfolding zeros
drop-zeros zero m = rw (zero-add m)
drop-zeros (suc n) m = rw (suc-add n m) (drop-zeros n m)

pub drop-append_add : (n : ℕ) (xs ys : Bytes) → drop (length xs + n) (xs ++ ys) ≡ drop n ys
drop-append_add n [] ys = ap (λ k. drop k ys) (omega arith)
drop-append_add n (x ∷ xs) ys = rw (suc-add (length xs) n) (drop-append_add n xs ys)

-- A chunk copied behind what has arrived.
pub splice-next :
    (done chunk : Bytes) (n : ℕ)
    → splice (done ++ zeros (length chunk + n)) (length done) chunk ≡ (done ++ chunk) ++ zeros n
unfolding splice
splice-next done chunk n = rw (
  take-append done (zeros (length chunk + n)),
  drop-append_add (length chunk) done (zeros (length chunk + n)),
  drop-zeros (length chunk) n,
  append_assoc,
)
