-- ===== src/Secure/Framing.antt =====
-- The framing of the messages of the handshake, and what it takes from cryptography and JSON.
use yudesk.Base.{
  ℕ, ◌+◌, ◌≤◌, ◌<◌, ◌≡◌, refl, ap, ◌∙◌, true, false, ◌||◌, none, some, [], ◌∷◌, ◌++◌, arith, inr,
  ltb, ◌==◌, length, drop, length-append,
}
use mathlib.Core.List.{append_assoc}
use yudesk.Protocol.Wire.{Bytes, put_u32, get_u32}
use yudesk.Protocol.Bytes.{get-put_u32, take-append, drop-append}
use yudesk.Secure.Keys.{Crypto}
use yudesk.Secure.Stream.{drop-put_u32}
use yudesk.Secure.Records.{write_full}
use yudesk.Secure.Handshake.{
  ClientHello, ServerHello, ClientFinish, Json, Formats, Outgoing, read_handshake, write_handshake,
  sent_or_failed, write_both, protocol_version, max_handshake,
}

-- What the cryptography promises to an undisturbed exchange.
pub record IsCrypto (crypto : Crypto) : Type 0 where
  pub length-hmac : (key text : Bytes) → length (crypto.hmac key text) ≡ 32
  pub length-public_key : (key : Bytes) → length (crypto.public_key key) ≡ 32
  pub length-public_identity : (key : Bytes) → length (crypto.public_identity key) ≡ 32
  pub length-sign : (key text : Bytes) → length (crypto.sign key text) ≡ 64
  pub new-public_key :
      (key : Bytes) → crypto.new_public_key (crypto.public_key key) ≡ some (crypto.public_key key)
  pub ecdh-public_key :
      (a b : Bytes) → crypto.ecdh a (crypto.public_key b) ≡ crypto.ecdh b (crypto.public_key a)
  pub verify-sign :
      (key text : Bytes)
      → crypto.verify (crypto.public_identity key) text (crypto.sign key text) ≡ true

-- A payload that `readHandshake` takes.
abbrev pub Fits : Bytes → Type 0
Fits payload = (0 < length payload) × (length payload ≤ max_handshake)

-- What JSON promises of messages whose fields have the sizes of the handshake.
pub record IsFormats (formats : Formats) : Type 0 where
  pub hello_back :
      (m : ClientHello) → formats.client_hello.unmarshal (formats.client_hello.marshal m) ≡ some m
  pub reply_back :
      (m : ServerHello) → formats.server_hello.unmarshal (formats.server_hello.marshal m) ≡ some m
  pub finish_back :
      (m : ClientFinish)
      → formats.client_finish.unmarshal (formats.client_finish.marshal m) ≡ some m
  pub hello_fits :
      (m : ClientHello)
      → m.version ≡ protocol_version
      → length m.ephemeral ≡ 32
      → length m.nonce ≡ 32
      → Fits (formats.client_hello.marshal m)
  pub reply_fits :
      (m : ServerHello)
      → length m.ephemeral ≡ 32
      → length m.nonce ≡ 32
      → length m.identity ≡ 32
      → length m.signature ≡ 64
      → length m.proof ≡ 32
      → Fits (formats.server_hello.marshal m)
  pub finish_fits :
      (m : ClientFinish) → length m.proof ≡ 32 → Fits (formats.client_finish.marshal m)

write_both-healthy :
    (header payload : Bytes)
    → write_both header payload [] ≡ record { wire = header ++ payload; error = none; sents = [] }
unfolding write_both sent_or_failed write_full
write_both-healthy [] [] = refl
write_both-healthy [] (b ∷ payload) = refl
write_both-healthy (a ∷ header) [] = refl
write_both-healthy (a ∷ header) (b ∷ payload) = refl

length-put_u32 : (n : ℕ) → length (put_u32 n) ≡ 4
unfolding put_u32
length-put_u32 n = refl

module _ {A : Type 0} (json : Json A) where
  -- The bytes of one message.
  abbrev pub frame : A → Bytes
  frame message = put_u32 (length (json.marshal message)) ++ json.marshal message

  pub write_handshake-healthy :
      (message : A)
      → Fits (json.marshal message)
      → write_handshake json message [] ≡ record { wire = frame message; error = none; sents = [] }
  unfolding write_handshake
  write_handshake-healthy message fits =
      let short : (ltb max_handshake (length (json.marshal message)) ≡ false) = ground arith in
      rw
        (short, write_both-healthy (put_u32 (length (json.marshal message))) (json.marshal message))
        refl

  pub read-frame :
      (message : A) (rest stream : Bytes)
      → json.unmarshal (json.marshal message) ≡ some message
      → Fits (json.marshal message)
      → stream ≡ frame message ++ rest
      → read_handshake json stream ≡ inr (message, rest)
  unfolding read_handshake
  read-frame message rest stream back fits e =
      let payload = json.marshal message in
      let split = e ∙ append_assoc (put_u32 (length payload)) payload rest in
      let size : get_u32 stream ≡ length payload =
        ap get_u32 split ∙ get-put_u32 (length payload) (payload ++ rest) (omega arith) in
      let body : drop 4 stream ≡ payload ++ rest =
        ap (drop 4) split ∙ drop-put_u32 (length payload) (payload ++ rest) in
      let long : length stream ≡ 4 + length payload + length rest = omega (
        arith,
        ap length split,
        length-put_u32 (length payload),
        length-append (put_u32 (length payload)) (payload ++ rest),
        length-append payload rest,
      ) in
      let header : (ltb (length stream) 4 ≡ false) = ground arith in
      let sizes : ((length payload == 0 || ltb max_handshake (length payload)) ≡ false) =
        ground arith in
      let there : (ltb (length (payload ++ rest)) (length payload) ≡ false) =
        ground (arith, length-append payload rest) in
      rw (header, size, sizes, body, there, take-append payload rest, back)
        (rw (size, body, drop-append payload rest) refl)

  -- A handshake message that was written is read back, before what follows it, when JSON gives it back
  -- and it is not empty and no longer than the limit.
  pub read-write_handshake :
      (message : A) (rest : Bytes)
      → json.unmarshal (json.marshal message) ≡ some message
      → Fits (json.marshal message)
      → read_handshake json ((write_handshake json message []).wire ++ rest) ≡ inr (message, rest)
  read-write_handshake message rest back fits =
      read-frame message rest _ back fits
        (ap (λ (o : Outgoing). o.wire ++ rest) (write_handshake-healthy message fits))
