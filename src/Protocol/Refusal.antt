-- ===== src/Protocol/Refusal.antt =====
-- A reader that has not agreed to fragments.
use yudesk.Base.{
  ℕ, suc, ◌+◌, ◌-◌, ◌≤◌, ◌<◌, ◌≡◌, refl, ap, true, false, Option, [], ◌∷◌, ◌++◌, min, arith, ltb,
  leb, length, take, drop, length-take, Bool-cases, inl, inr,
}
use mathlib.Core.List.{append_assoc}
use native.Mathlib.Nat.{zero-add, suc-add}
use yudesk.Protocol.Wire.{
  Bytes, Codec, WireError, ok, err, max_header_size, fragment_flag, fragment_size,
  fragment_header_size, Partial, fragment_header, fragments, write_message, read_packet,
  read_message, put_u32,
}
use yudesk.Protocol.Bytes.{read_full-append, sizes, packet-append, length-sizes, get-sizes}
use yudesk.Protocol.RoundTrip.{fragments-step}

take-append_add : (n : ℕ) (xs ys : Bytes) → take (length xs + n) (xs ++ ys) ≡ xs ++ take n ys
take-append_add n [] ys = ap (λ k. take k ys) (zero-add n)
take-append_add n (x ∷ xs) ys = rw (suc-add (length xs) n) (ap (◌∷◌ x) (take-append_add n xs ys))

eight_more : (k m : ℕ) → 8 ≡ m → 8 ≤ k → k ≡ m + (k - 8)
eight_more k m h far = omega arith

module _ (J : Codec) where
  open J use {Fields, marshal}

  -- The two sizes of a fragment are enough to refuse it.
  sizes-refused :
      (h chunk rest : Bytes) (p : Option (Partial J))
      → length h ≤ max_header_size + fragment_header_size
      → length chunk ≤ fragment_size
      → read_packet J (record { stream = sizes h chunk true ++ rest; partial = p; accept = false })
        ≡ err WireError.unnegotiated
  unfolding read_packet
  sizes-refused h chunk rest p short small =
      let both = get-sizes h chunk true (omega arith) (omega arith) in
      let flagged : leb fragment_flag (length h + fragment_flag) ≡ true = ground arith in
      rw (read_full-append 8 (sizes h chunk true) rest (length-sizes h chunk true), both.0, flagged)

  first_header-length :
      (header : Bytes) (n total : ℕ)
      → length (fragment_header J header 0 n total) ≡ fragment_header_size + length header
  unfolding fragment_header put_u32
  first_header-length header n total = omega arith

  -- The beginning of what WriteMessage sends in fragments, cut anywhere from the eighth byte on.
  cut-refused :
      (fuel k : ℕ) (header : Bytes) (b : ℕ) (content other : Bytes) (p : Option (Partial J))
      → length header ≤ max_header_size
      → 8 ≤ k
      → read_packet J (record {
        stream =
            take k (fragments J (suc fuel) header 0 (length (b ∷ content)) (b ∷ content)) ++ other;
        partial = p;
        accept = false;
      })
        ≡ err WireError.unnegotiated
  cut-refused fuel k header b content other p short far =
      let n = min fragment_size (length (b ∷ content)) in
      let chunk = take n (b ∷ content) in
      let h = fragment_header J header 0 (length chunk) (length (b ∷ content)) in
      let tail =
        fragments J fuel header (0 + length chunk) (length (b ∷ content)) (drop n (b ∷ content)) in
      let k_is : k ≡ length (sizes h chunk true) + (k - 8) =
        eight_more k (length (sizes h chunk true)) (length-sizes h chunk true) far in
      rw
        (
          fragments-step J fuel header 0 (length (b ∷ content)) b content,
          packet-append h chunk true tail,
          k_is,
          take-append_add (k - 8) (sizes h chunk true) (h ++ (chunk ++ tail)),
          append_assoc,
        )
        (sizes-refused h chunk (take (k - 8) (h ++ (chunk ++ tail)) ++ other) p
          (omega (arith, first_header-length header (length chunk) (length (b ∷ content))))
          (omega (arith, length-take n (b ∷ content) (omega arith))))

  -- A message that WriteMessage sends in fragments is refused by a reader that has not agreed to
  -- fragments, in whatever state it is, from the first eight bytes on: also when the bytes end there,
  -- and when anything else follows them.
  pub unnegotiated-refused :
      (fields : Fields) (content sent other : Bytes) (k fuel : ℕ) (p : Option (Partial J))
      → fragment_size < length content
      → write_message J true (fields, content) ≡ ok sent
      → 8 ≤ k
      → read_message J
          (suc fuel)
          (record { stream = take k sent ++ other; partial = p; accept = false })
        ≡ err WireError.unnegotiated
  unfolding write_message read_message
  unnegotiated-refused fields [] sent other k fuel p large e far = absurd (omega arith)
  unnegotiated-refused fields (b ∷ content) sent other k fuel p large e far =
      elim (Bool-cases (ltb max_header_size (length (marshal fields)))) [
        | inl long ↦ absurd (ground arith)
        | inr short ↦
            let sent_is : sent
                ≡ fragments J (suc (length content)) (marshal fields) 0 (length (b ∷ content))
                    (b ∷ content) =
              ground arith in
            rw
              (
                sent_is,
                cut-refused (length content) k (marshal fields) b content other p (ground arith)
                    far,
              )
              refl
      ]
