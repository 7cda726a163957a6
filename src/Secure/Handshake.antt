-- ===== src/Secure/Handshake.antt =====
-- internal/secureconn/secureconn.go: readHandshake, writeHandshake, Accept, Connect and newConn. The
-- JSON of the three messages is a parameter, and so is what the random source gave.
use yudesk.Base.{
  ℕ, ◌+◌, ◌*◌, Bool, not, ◌&&◌, ◌||◌, Option, none, some, List, [], ◌∷◌, ◌++◌, ltb, leb, ◌⊎◌, inl,
  inr, ◌==◌, if◌then◌else◌, length, take, drop, same, map,
}
use yudesk.Text.{Text, Platform}
use yudesk.Account.Devices.{identity_of}
use yudesk.Protocol.Wire.{Bytes, put_u32, get_u32}
use yudesk.Secure.Keys.{Crypto, make_transcript, derive_keys, proof}
use yudesk.Secure.Records.{
  Sent, Flushed, WriteError, write_full, RecordWriter, new_writer, RecordReader,
}

pub record ClientHello : Type 0 where
  pub version : ℕ
  pub ephemeral : Bytes
  pub nonce : Bytes

pub record ServerHello : Type 0 where
  pub ephemeral : Bytes
  pub nonce : Bytes
  pub identity : Bytes
  pub signature : Bytes
  pub proof : Bytes

pub record ClientFinish : Type 0 where
  pub proof : Bytes

-- `json.Marshal` and `json.Unmarshal` on one kind of message.
pub record Json (A : Type 0) : Type 0 where
  pub marshal : A → Bytes
  pub unmarshal : Bytes → Option A

pub record Formats : Type 0 where
  pub client_hello : Json ClientHello
  pub server_hello : Json ServerHello
  pub client_finish : Json ClientFinish

abbrev pub protocol_version : ℕ
protocol_version = 1

abbrev pub max_handshake : ℕ
max_handshake = 16 * 1024

-- Why a handshake ends without a connection.
pub data Refusal : Type 0 where
  short_message invalid_message_size bad_message message_too_large : Refusal
  write_failed : WriteError → Refusal
  no_randomness invalid_identity_key invalid_hello invalid_public_key no_shared_secret : Refusal
  wrong_device invalid_signature not_authentic : Refusal

-- `readHandshake`: the message and the bytes behind it.
unfoldable pub read_handshake : {A : Type 0} → Json A → Bytes → Refusal ⊎ (A × Bytes)
read_handshake json stream =
    let size = get_u32 stream in
    let body = drop 4 stream in
    if ltb (length stream) 4
    then inl short_message
    else if size == 0 || ltb max_handshake size
    then inl invalid_message_size
    else if ltb (length body) size
    then inl short_message
    else elim (json.unmarshal (take size body)) [
      | none ↦ inl bad_message
      | some message ↦ inr (message, drop size body)
    ]

-- What a side has sent, with the error that ended it.
pub record Outgoing : Type 0 where
  pub wire : Bytes
  pub error : Option Refusal
  pub sents : List Sent

unfoldable pub sent_or_failed : Flushed → Outgoing
sent_or_failed out = record {
  wire = out.wire;
  error = elim out.error [ none ↦ none | some e ↦ some (write_failed e) ];
  sents = out.rest;
}

-- The header and, unless that fails, the payload.
unfoldable pub write_both : Bytes → Bytes → List Sent → Outgoing
write_both header payload sents =
    let first = sent_or_failed (write_full header sents) in
    let rest = sent_or_failed (write_full payload first.sents) in
    elim first.error [ some e ↦ first | none ↦ record rest { wire = first.wire ++ rest.wire } ]

-- `writeHandshake`
unfoldable pub write_handshake : {A : Type 0} → Json A → A → List Sent → Outgoing
write_handshake json message sents =
    let payload = json.marshal message in
    if ltb max_handshake (length payload)
    then record { wire = []; error = some message_too_large; sents = sents }
    else write_both (put_u32 (length payload)) payload sents

-- `subtle.ConstantTimeCompare`
unfoldable pub same_proof : Bytes → Bytes → Bool
unfolding same
same_proof p q = same p q

abbrev pub lower_ascii : ℕ → ℕ
lower_ascii c = if leb b'A' c && leb c b'Z' then c + 32 else c

-- `Conn`: the keys of the two directions and their states.
pub record Conn : Type 0 where
  pub read_key : Bytes
  pub write_key : Bytes
  pub reader : RecordReader
  pub writer : RecordWriter

-- `newConn`, over the bytes that arrive after the handshake.
abbrev pub new_conn : Bytes → Bytes → Bytes → Conn
new_conn read_key write_key stream = record {
  read_key = read_key;
  write_key = write_key;
  reader = record { stream = stream; sequence = 0; buffer = []; failure = none };
  writer = new_writer;
}

-- What a side has sent when its handshake ends, and the connection or why there is none.
pub record Handshake : Type 0 where
  pub wire : Bytes
  pub outcome : Refusal ⊎ Conn

abbrev pub refuse : Bytes → Refusal → Handshake
refuse wire why = record { wire = wire; outcome = inl why }

-- What a side draws from the random source, where the source does not fail.
pub record Drawn : Type 0 where
  pub ephemeral : Option Bytes
  pub nonce : Option Bytes
  -- the proof that is sent when the agent's is wrong
  pub fake_proof : Bytes

-- Whether the identity that the agent sent has the identifier that is looked for. It consists of
-- hexadecimal digits, for which `strings.EqualFold` is equality but for the case of ASCII.
unfoldable pub is_device : Crypto → Platform → Bytes → Text → Bool
is_device crypto env identity expected =
    same (map lower_ascii (identity_of (record env { sha256 = crypto.sha256 }) identity))
      (map lower_ascii expected)

module _ (crypto : Crypto) (formats : Formats) where
  -- The end of `Accept`: the viewer's proof.
  unfoldable pub accept_finish : Bytes → Bytes → Bytes → Bytes → Handshake
  accept_finish wire keys transcript stream = elim (read_handshake formats.client_finish stream) [
    | inl why ↦ refuse wire why
    | inr (finish, rest) ↦
        if same_proof finish.proof
          (proof crypto (take 32 keys) transcript (b'v' ∷ b'i' ∷ b'e' ∷ b'w' ∷ b'e' ∷ b'r' ∷ []))
        then record {
          wire = wire;
          outcome = inr (new_conn (take 32 (drop 64 keys)) (take 32 (drop 32 keys)) rest);
        }
        else refuse wire not_authentic
  ]

  -- `Accept` once the hello is checked and the secret shared: the reply, and what follows it.
  unfoldable pub accept_reply :
      Bytes → ClientHello → Bytes → Bytes → Bytes → Bytes → List Sent → Handshake
  accept_reply identity hello ephemeral nonce shared stream sents =
      let public = crypto.public_identity identity in
      let own = crypto.public_key ephemeral in
      let transcript =
        make_transcript crypto (hello.ephemeral ∷ hello.nonce ∷ own ∷ nonce ∷ public ∷ []) in
      let keys = derive_keys crypto shared transcript in
      let reply : ServerHello = record {
        ephemeral = own;
        nonce = nonce;
        identity = public;
        signature = crypto.sign identity transcript;
        proof = proof crypto (take 32 keys) transcript (b'a' ∷ b'g' ∷ b'e' ∷ b'n' ∷ b't' ∷ []);
      } in
      let out = write_handshake formats.server_hello reply sents in
      elim out.error [
        | some why ↦ refuse out.wire why
        | none ↦ accept_finish out.wire keys transcript stream
      ]

  -- `Accept` with the viewer's hello.
  unfoldable pub accept_hello : Bytes → Drawn → ClientHello → Bytes → List Sent → Handshake
  accept_hello identity drawn hello stream sents =
      if not (hello.version == protocol_version)
        || (not (length hello.ephemeral == 32) || not (length hello.nonce == 32))
      then refuse [] invalid_hello
      else elim (crypto.new_public_key hello.ephemeral) [
        | none ↦ refuse [] invalid_public_key
        | some client_public ↦ elim drawn.ephemeral [
          | none ↦ refuse [] no_randomness
          | some ephemeral ↦ elim (crypto.ecdh ephemeral client_public) [
            | none ↦ refuse [] no_shared_secret
            | some shared ↦ elim drawn.nonce [
              | none ↦ refuse [] no_randomness
              | some nonce ↦ accept_reply identity hello ephemeral nonce shared stream sents
            ]
          ]
        ]
      ]

  -- `Accept`, over the bytes that arrive and what the writes of the connection return.
  unfoldable pub accept : Bytes → Drawn → Bytes → List Sent → Handshake
  accept identity drawn stream sents =
      if not (length identity == 64)
      then refuse [] invalid_identity_key
      else elim (read_handshake formats.client_hello stream) [
        | inl why ↦ refuse [] why
        | inr (hello, rest) ↦ accept_hello identity drawn hello rest sents
      ]

  -- The end of `Connect`, with the shared secret.
  unfoldable pub connect_finish :
      Bytes → Bytes → ServerHello → Bytes → Bytes → Bytes → List Sent → Handshake
  connect_finish wire shared reply fake transcript stream sents =
      let keys = derive_keys crypto shared transcript in
      let own : ClientFinish = record {
        proof =
            proof crypto (take 32 keys) transcript (b'v' ∷ b'i' ∷ b'e' ∷ b'w' ∷ b'e' ∷ b'r' ∷ []);
      } in
      let out = write_handshake formats.client_finish own sents in
      let false_end = write_handshake formats.client_finish (record { proof = fake }) sents in
      if not (
        same_proof reply.proof
          (proof crypto (take 32 keys) transcript (b'a' ∷ b'g' ∷ b'e' ∷ b'n' ∷ b't' ∷ [])))
      then refuse (wire ++ false_end.wire) not_authentic
      else elim out.error [
        | some why ↦ refuse (wire ++ out.wire) why
        | none ↦ record {
          wire = wire ++ out.wire;
          outcome = inr (new_conn (take 32 (drop 32 keys)) (take 32 (drop 64 keys)) stream);
        }
      ]

  -- `Connect` with the agent's reply.
  unfoldable pub connect_reply :
      Platform
      → Text
      → Bytes
      → ClientHello
      → ServerHello
      → Bytes
      → Bytes
      → Bytes
      → List Sent
      → Handshake
  connect_reply env expected ephemeral hello reply fake wire stream sents =
      let transcript =
        make_transcript crypto
          (hello.ephemeral ∷ hello.nonce ∷ reply.ephemeral ∷ reply.nonce ∷ reply.identity ∷ []) in
      if not (length reply.ephemeral == 32)
        || (not (length reply.nonce == 32) || not (length reply.identity == 32))
      then refuse wire invalid_hello
      else if not (is_device crypto env reply.identity expected)
      then refuse wire wrong_device
      else if not (crypto.verify reply.identity transcript reply.signature)
      then refuse wire invalid_signature
      else elim (crypto.new_public_key reply.ephemeral) [
        | none ↦ refuse wire invalid_public_key
        | some agent_public ↦ elim (crypto.ecdh ephemeral agent_public) [
          | none ↦ refuse wire no_shared_secret
          | some shared ↦ connect_finish wire shared reply fake transcript stream sents
        ]
      ]

  -- `Connect`
  unfoldable pub connect : Platform → Text → Drawn → Bytes → List Sent → Handshake
  connect env expected drawn stream sents = elim drawn.ephemeral [
    | none ↦ refuse [] no_randomness
    | some ephemeral ↦ elim drawn.nonce [
      | none ↦ refuse [] no_randomness
      | some nonce ↦
          let hello : ClientHello = record {
            version = protocol_version;
            ephemeral = crypto.public_key ephemeral;
            nonce = nonce;
          } in
          let out = write_handshake formats.client_hello hello sents in
          elim out.error [
            | some why ↦ refuse out.wire why
            | none ↦ elim (read_handshake formats.server_hello stream) [
              | inl why ↦ refuse out.wire why
              | inr (reply, rest) ↦
                  connect_reply env expected ephemeral hello reply drawn.fake_proof out.wire rest
                    out.sents
            ]
          ]
    ]
  ]
