-- ===== src/Secure/Transcript.antt =====
-- The transcript determines the parts that were hashed, since each stands behind its length.
use yudesk.Base.{
  ℕ, ◌%◌, ◌^◌, ◌<◌, ◌≡◌, ◌∙◌, refl, sym, ap, List, [], ◌∷◌, ◌++◌, arith, length, take, drop,
}
use yudesk.Protocol.Wire.{Bytes, put_u32, get_u32}
use yudesk.Protocol.Bytes.{get-put_u32, take-append, drop-append}
use yudesk.Secure.Keys.{written_parts}

-- The parts that a slice of Go can be a header for.
abbrev pub AreSlices : List Bytes → Type 0
AreSlices [] = Unit
AreSlices (part ∷ parts) = (length part < 2 ^ 32) × AreSlices parts

-- The bytes that `makeTranscript` hashes after its label determine the list of the parts, when each
-- is shorter than 4 GiB: no byte can move from one part to the next without changing the transcript's
-- text.
pub written_parts-injective :
    (xs ys : List Bytes)
    → AreSlices xs
    → AreSlices ys
    → written_parts xs ≡ written_parts ys
    → xs ≡ ys
unfolding written_parts put_u32
written_parts-injective [] [] small small' e = refl
written_parts-injective [] (y ∷ ys) small small' e = absurd (omega (arith, ap length e))
written_parts-injective (x ∷ xs) [] small small' e = absurd (omega (arith, ap length e))
written_parts-injective (x ∷ xs) (y ∷ ys) (short, small) (short', small') e =
    let sizes : (length x % 2 ^ 32 ≡ length y % 2 ^ 32) =
      sym (get-put_u32 (length x % 2 ^ 32) (x ++ written_parts xs) (omega arith))
      ∙ ap get_u32 e
      ∙ get-put_u32 (length y % 2 ^ 32) (y ++ written_parts ys) (omega arith) in
    let same_size : (length x ≡ length y) = omega arith in
    let bodies : (x ++ written_parts xs ≡ y ++ written_parts ys) = ap (drop 4) e in
    let first : (x ≡ y) =
      sym (take-append x (written_parts xs))
      ∙ ap (take (length x)) bodies
      ∙ ap (λ (n : ℕ). take n (y ++ written_parts ys)) same_size
      ∙ take-append y (written_parts ys) in
    let others : (written_parts xs ≡ written_parts ys) =
      sym (drop-append x (written_parts xs))
      ∙ ap (drop (length x)) bodies
      ∙ ap (λ (n : ℕ). drop n (y ++ written_parts ys)) same_size
      ∙ drop-append y (written_parts ys) in
    let rest = written_parts-injective xs ys small small' others in cc
