-- ===== src/Secure/Keys.antt =====
-- internal/secureconn/secureconn.go: makeTranscript, deriveKeys, hkdfExpand and proof. SHA-256 and
-- HMAC are parameters.
use yudesk.Base.{
  ℕ, zero, suc, ◌+◌, ◌%◌, ◌^◌, Bool, Option, List, [], ◌∷◌, ◌++◌, ltb, if◌then◌else◌, length, take,
}
use yudesk.Protocol.Wire.{Bytes, put_u32}

-- The cryptography that the handshake calls; private keys and identities are byte strings.
pub record Crypto : Type 0 where
  pub sha256 : Bytes → Bytes
  -- `hmac.New(sha256.New, key)` on all that is written to it
  pub hmac : Bytes → Bytes → Bytes
  -- X25519: the public key of a private key, the check of a received one, the shared secret
  pub public_key : Bytes → Bytes
  pub new_public_key : Bytes → Option Bytes
  pub ecdh : Bytes → Bytes → Option Bytes
  -- Ed25519
  pub public_identity : Bytes → Bytes
  pub sign : Bytes → Bytes → Bytes
  pub verify : Bytes → Bytes → Bytes → Bool

-- Each part behind its length, as `makeTranscript` writes them to the hash.
unfoldable pub written_parts : List Bytes → Bytes
written_parts [] = []
written_parts (part ∷ parts) = put_u32 (length part % 2 ^ 32) ++ (part ++ written_parts parts)

-- One round of `hkdfExpand` after another, until `size` bytes are there; the fuel is `size`.
unfoldable pub expand_loop : (Bytes → Bytes) → ℕ → Bytes → ℕ → ℕ → Bytes → Bytes → Bytes
expand_loop mac zero info size counter previous result = take size result
expand_loop mac (suc fuel) info size counter previous result =
    let block = mac (previous ++ (info ++ (counter ∷ []))) in
    let more = expand_loop mac fuel info size ((counter + 1) % 256) block (result ++ block) in
    if ltb (length result) size then more else take size result

module _ (crypto : Crypto) where
  unfoldable pub make_transcript : List Bytes → Bytes
  make_transcript parts = crypto.sha256 (
      (b'y' ∷ b'u' ∷ b'd' ∷ b'e' ∷ b's' ∷ b'k' ∷ b'-' ∷ b'e' ∷ b'2' ∷ b'e' ∷ b'-' ∷ b'v' ∷ b'1'
        ∷ [])
      ++ written_parts parts)

  unfoldable pub hkdf_expand : Bytes → Bytes → ℕ → Bytes
  hkdf_expand key info size = expand_loop (crypto.hmac key) size info size 1 [] []

  unfoldable pub derive_keys : Bytes → Bytes → Bytes
  derive_keys shared transcript =
      let salt = crypto.sha256 (
        (b'y' ∷ b'u' ∷ b'd' ∷ b'e' ∷ b's' ∷ b'k' ∷ b'-' ∷ b'k' ∷ b'e' ∷ b'y' ∷ b'-' ∷ b'e' ∷ b'x'
          ∷ b'c' ∷ b'h' ∷ b'a' ∷ b'n' ∷ b'g' ∷ b'e' ∷ b'-' ∷ b'v' ∷ b'1' ∷ b':' ∷ [])
        ++ transcript) in
      let prk = crypto.hmac salt shared in
      hkdf_expand prk
        ((b'y' ∷ b'u' ∷ b'd' ∷ b'e' ∷ b's' ∷ b'k' ∷ b'-' ∷ b's' ∷ b'e' ∷ b's' ∷ b's' ∷ b'i' ∷ b'o'
            ∷ b'n' ∷ b'-' ∷ b'v' ∷ b'1' ∷ b':' ∷ [])
          ++ transcript)
        96

  unfoldable pub proof : Bytes → Bytes → Bytes → Bytes
  proof key transcript role = crypto.hmac key (transcript ++ role)
