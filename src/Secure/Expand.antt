-- ===== src/Secure/Expand.antt =====
-- hkdfExpand gives as many bytes as are asked for, those of RFC 5869.
use yudesk.Base.{
  ℕ, zero, suc, ◌+◌, ◌*◌, ◌/◌, ◌%◌, ◌≤◌, ◌≡◌, ap, [], ◌∷◌, ◌++◌, arith, ltb, inl, inr, Bool-cases,
  length, take, length-append, length-take,
}
use yudesk.Protocol.Wire.{Bytes}
use yudesk.Secure.Keys.{Crypto, expand_loop, hkdf_expand}

-- T(i) and T(1) | … | T(i) of RFC 5869, for a keyed hash.
unfoldable pub block : (Bytes → Bytes) → Bytes → ℕ → Bytes
block mac info zero = []
block mac info (suc i) = mac (block mac info i ++ (info ++ (suc i ∷ [])))

unfoldable pub blocks : (Bytes → Bytes) → Bytes → ℕ → Bytes
blocks mac info zero = []
blocks mac info (suc i) = blocks mac info i ++ block mac info (suc i)

expand_loop-length :
    (mac : Bytes → Bytes)
    → ((text : Bytes) → length (mac text) ≡ 32)
    → (fuel size counter : ℕ) (info previous result : Bytes) → size ≤ length result + fuel
    → length (expand_loop mac fuel info size counter previous result) ≡ size
unfolding expand_loop
expand_loop-length mac sized zero size counter info previous result enough =
    length-take size result (omega arith)
expand_loop-length mac sized (suc fuel) size counter info previous result enough =
    let text = previous ++ (info ++ (counter ∷ [])) in
    let more =
      expand_loop-length mac sized fuel size ((counter + 1) % 256) info (mac text)
        (result ++ mac text) (omega (arith, length-append result (mac text), sized text)) in
    elim (Bool-cases (ltb (length result) size)) [
      | inl short ↦ rw short more
      | inr full ↦ rw full (length-take size result (ground arith))
    ]

length-blocks :
    (mac : Bytes → Bytes)
    → ((text : Bytes) → length (mac text) ≡ 32)
    → (info : Bytes) (i : ℕ) → length (blocks mac info i) ≡ 32 * i
unfolding blocks block
length-blocks mac sized info zero = omega arith
length-blocks mac sized info (suc i) = omega (
  arith,
  length-blocks mac sized info i,
  sized (block mac info i ++ (info ++ (suc i ∷ []))),
  length-append (blocks mac info i) (block mac info (suc i)),
)

expand_loop-blocks :
    (mac : Bytes → Bytes)
    → ((text : Bytes) → length (mac text) ≡ 32)
    → (fuel size i : ℕ) (info : Bytes) → size ≤ 255 * 32
    → i ≤ (size + 31) / 32
    → (size + 31) / 32 ≤ i + fuel
    → expand_loop mac fuel info size ((i + 1) % 256) (block mac info i) (blocks mac info i)
      ≡ take size (blocks mac info ((size + 31) / 32))
unfolding expand_loop block blocks
expand_loop-blocks mac sized zero size i info small below enough =
    let all : (i ≡ (size + 31) / 32) = omega arith in
    ap (λ (n : ℕ). take size (blocks mac info n)) all
expand_loop-blocks mac sized (suc fuel) size i info small below enough =
    let so_far = length-blocks mac sized info i in
    elim (Bool-cases (ltb (length (blocks mac info i)) size)) [
      | inr full ↦
          let all : (i ≡ (size + 31) / 32) = ground arith in
          rw full (ap (λ (n : ℕ). take size (blocks mac info n)) all)
      | inl short ↦
          let no_wrap : ((i + 1) % 256 ≡ suc i) = ground arith in
          let more =
            expand_loop-blocks mac sized fuel size (suc i) info small (ground arith)
              (omega arith) in
          rw (short, no_wrap) more
    ]

module _ (crypto : Crypto) where
  -- HKDF's expansion ends with exactly as many bytes as were asked for, however many these are, when
  -- HMAC gives 32 bytes under this key.
  pub hkdf_expand-length :
      (key info : Bytes) (size : ℕ)
      → ((text : Bytes) → length (crypto.hmac key text) ≡ 32)
      → length (hkdf_expand crypto key info size) ≡ size
  unfolding hkdf_expand
  hkdf_expand-length key info size sized =
      expand_loop-length (crypto.hmac key) sized size size 1 info [] [] (omega arith)

  -- For up to 255 blocks, the most that RFC 5869 allows, the expansion is the beginning of
  -- T(1) | … | T(N) of that RFC, with N the number of blocks that cover what is asked for.
  pub hkdf_expand-blocks :
      (key info : Bytes) (size : ℕ)
      → ((text : Bytes) → length (crypto.hmac key text) ≡ 32)
      → size ≤ 255 * 32
      → hkdf_expand crypto key info size
        ≡ take size (blocks (crypto.hmac key) info ((size + 31) / 32))
  unfolding hkdf_expand block blocks
  hkdf_expand-blocks key info size sized small =
      expand_loop-blocks (crypto.hmac key) sized size size 0 info small (omega arith) (omega arith)
