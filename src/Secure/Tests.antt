-- ===== src/Secure/Tests.antt =====
-- The theorems about internal/secureconn at concrete inputs.
use yudesk.Base.{
  ℕ, ◌+◌, ◌≡◌, refl, sym, ap, true, none, some, List, [], ◌∷◌, ◌++◌, arith, inr, length, take, drop,
  same, same_refl, length-append, length-take, map,
}
use yudesk.Text.{Text, Platform}
use yudesk.Protocol.Wire.{Bytes, zeros}
use yudesk.Protocol.Bytes.{take-append, drop-append, length-zeros}
use yudesk.Secure.Keys.{Crypto, hkdf_expand}
use yudesk.Secure.Expand.{blocks, hkdf_expand-length, hkdf_expand-blocks}
use yudesk.Secure.Transcript.{written_parts-injective}
use yudesk.Secure.Records.{
  record_nonce, Aead, IsAead, Sent, new_writer, conn_write, conn_writes, RecordReader, RecordWriter,
  read_exactly,
}
use yudesk.Secure.Nonces.{AreDistinct}
use yudesk.Secure.Sending.{conn_writes-distinct, sealed_wire}
use yudesk.Secure.Stream.{read-write_exactly, Holds}
use yudesk.Secure.Session.{accept-write}
use yudesk.Secure.Authentic.{IsGenuine, connect-IsGenuine}
use yudesk.Account.Devices.{identity_of}
use yudesk.Secure.Agreement.{
  Agrees, agent_drawn, viewer_drawn, Exchange, agent_stream, viewer_stream, connect-viewer_stream,
  accept-agent_stream, connect-accept,
}
use yudesk.Secure.Handshake.{
  is_device, lower_ascii, Handshake, Conn, connect, accept, read_handshake, write_handshake,
  ClientHello, ServerHello, ClientFinish, Json, Formats,
}
use yudesk.Secure.Framing.{IsCrypto, IsFormats, read-write_handshake}

-- A cipher that only puts sixteen bytes in front.
abbrev plain : Aead
plain = record {
  seal = λ nonce text extra. zeros 16 ++ text;
  unseal = λ nonce text extra. some (drop 16 text);
}

plain-IsAead : IsAead plain
unfolding zeros
plain-IsAead = record {
  unseal-seal = λ nonce text extra. refl;
  length-seal = λ nonce text extra. omega arith;
}

-- A write that fails in the middle of a record, one more, and one that is taken whole.
abbrev stuttering : List (Bytes × List Sent)
stuttering =
    (1 ∷ 2 ∷ 3 ∷ [], record { count = 9; failed = true } ∷ []) ∷ (4 ∷ [], []) ∷ (5 ∷ [], []) ∷ []

conn_writes-distinct_example :
    let (w', seals, wire) = conn_writes plain stuttering new_writer in
    AreDistinct (map (λ seal. record_nonce seal.0) seals)
    × (rest : Bytes) × (wire ++ rest ≡ sealed_wire plain seals)
conn_writes-distinct_example = conn_writes-distinct plain stuttering

abbrev total : Bytes → ℕ
total [] = 0
total (x ∷ xs) = x + total xs

abbrev pad : ℕ → Bytes → Bytes
pad n xs = take n (xs ++ zeros n)

abbrev toy : Crypto
toy = record {
  sha256 = λ m. pad 32 m;
  hmac = λ key text. (total text ∷ zeros 31);
  public_key = λ key. pad 32 key;
  new_public_key = λ key. some key;
  ecdh = λ key public. some ((total (pad 32 key) + total public) ∷ []);
  public_identity = λ key. pad 32 key;
  sign = λ key text. (total text ∷ zeros 63);
  verify = λ public text signature. same signature (total text ∷ zeros 63);
}

length-pad : (n : ℕ) (xs : Bytes) → length (pad n xs) ≡ n
length-pad n xs =
    length-take n (xs ++ zeros n) (omega (arith, length-append xs (zeros n), length-zeros n))

toy-IsCrypto : IsCrypto toy
unfolding zeros
toy-IsCrypto = record {
  length-hmac = λ key text. refl;
  length-public_key = λ key. length-pad 32 key;
  length-public_identity = λ key. length-pad 32 key;
  length-sign = λ key text. refl;
  new-public_key = λ key. refl;
  ecdh-public_key = λ a b. ap (λ (n : ℕ). some (n ∷ [])) (omega arith);
  verify-sign = λ key text. same_refl (total text ∷ zeros 63);
}

abbrev hello_json : Json ClientHello
hello_json = record {
  marshal = λ m. (m.version ∷ length m.ephemeral ∷ (m.ephemeral ++ m.nonce));
  unmarshal = λ text. elim text [
    | v ∷ n ∷ rest ↦ some (record { version = v; ephemeral = take n rest; nonce = drop n rest })
    | _ ↦ none
  ];
}

-- Each field behind its length, then what is left.
abbrev field : Bytes → Bytes → Bytes
field part rest = length part ∷ (part ++ rest)

abbrev first_field : Bytes → Bytes
first_field [] = []
first_field (n ∷ rest) = take n rest

abbrev next_fields : Bytes → Bytes
next_fields [] = []
next_fields (n ∷ rest) = drop n rest

abbrev reply_json : Json ServerHello
reply_json = record {
  marshal = λ m. field m.ephemeral (field m.nonce (field m.identity (field m.signature m.proof)));
  unmarshal = λ text.
      let second = next_fields text in
      let third = next_fields second in
      let fourth = next_fields third in
      some (record {
        ephemeral = first_field text;
        nonce = first_field second;
        identity = first_field third;
        signature = first_field fourth;
        proof = next_fields fourth;
      });
}

abbrev finish_json : Json ClientFinish
finish_json = record { marshal = λ m. m.proof; unmarshal = λ text. some (record { proof = text }) }

abbrev jsons : Formats
jsons = record { client_hello = hello_json; server_hello = reply_json; client_finish = finish_json }

reply_json-back : (m : ServerHello) → reply_json.unmarshal (reply_json.marshal m) ≡ some m
reply_json-back m =
    let signed = field m.signature m.proof in
    let identified = field m.identity signed in
    let fresh = field m.nonce identified in
    rw
      (drop-append m.ephemeral fresh, drop-append m.nonce identified, drop-append m.identity signed)
      (rw
        (
          take-append m.ephemeral fresh,
          take-append m.nonce identified,
          take-append m.identity signed,
          take-append m.signature m.proof,
          drop-append m.signature m.proof,
        )
        refl)

jsons-IsFormats : IsFormats jsons
jsons-IsFormats = record {
  hello_back = λ m. rw (take-append m.ephemeral m.nonce, drop-append m.ephemeral m.nonce) refl;
  reply_back = reply_json-back;
  finish_back = λ m. refl;
  hello_fits = λ m v e n. (omega arith, omega (arith, length-append m.ephemeral m.nonce));
  reply_fits = λ m e n i s p.
      let signed = field m.signature m.proof in
      let identified = field m.identity signed in
      (
        omega arith,
        omega (
          arith,
          length-append m.ephemeral (field m.nonce identified),
          length-append m.nonce identified,
          length-append m.identity signed,
          length-append m.signature m.proof,
        ),
      );
  finish_fits = λ m p. (omega arith, omega arith);
}

abbrev env : Platform
env = record { upper_wide = λ c. c; sha256 = λ m. m; argon2 = λ password salt. password }

meet-is_shared : toy.ecdh (5 ∷ []) (toy.public_key (7 ∷ 8 ∷ [])) ≡ some (20 ∷ [])
unfolding zeros
meet-is_shared = refl

abbrev meet : Exchange toy jsons toy-IsCrypto jsons-IsFormats
meet = record {
  identity = zeros 64;
  viewer_key = 5 ∷ [];
  viewer_nonce = zeros 32;
  agent_key = 7 ∷ 8 ∷ [];
  agent_nonce = zeros 32;
  shared = 20 ∷ [];
  is_identity = length-zeros 64;
  is_viewer_nonce = length-zeros 32;
  is_agent_nonce = length-zeros 32;
  is_shared = meet-is_shared;
}

abbrev device : Text
device = identity_of (record env { sha256 = toy.sha256 }) (toy.public_identity meet.identity)

abbrev to_agent : Bytes → Bytes
to_agent text = agent_stream toy jsons toy-IsCrypto jsons-IsFormats meet text

abbrev to_viewer : Bytes → Bytes
to_viewer text = viewer_stream toy jsons toy-IsCrypto jsons-IsFormats meet text

meet-is_device : is_device toy env (toy.public_identity meet.identity) device ≡ true
unfolding is_device
meet-is_device = same_refl (map lower_ascii device)

abbrev small_hello : ClientHello
small_hello = record { version = 1; ephemeral = 3 ∷ 4 ∷ []; nonce = 9 ∷ [] }

read-write_handshake_example :
    read_handshake hello_json ((write_handshake hello_json small_hello []).wire ++ 1 ∷ [])
    ≡ inr (small_hello, 1 ∷ [])
read-write_handshake_example =
    read-write_handshake hello_json small_hello (1 ∷ []) refl (omega arith, omega arith)

abbrev two_parts : List Bytes
two_parts = (1 ∷ 2 ∷ []) ∷ (3 ∷ []) ∷ []

written_parts-injective_example : two_parts ≡ take 1 two_parts ++ drop 1 two_parts
written_parts-injective_example =
    written_parts-injective two_parts (take 1 two_parts ++ drop 1 two_parts)
      (omega arith, (omega arith, tt)) (omega arith, (omega arith, tt)) refl

hkdf_expand-length_example : length (hkdf_expand toy (1 ∷ []) (2 ∷ []) 96) ≡ 96
hkdf_expand-length_example =
    hkdf_expand-length toy (1 ∷ []) (2 ∷ []) 96 (toy-IsCrypto.length-hmac (1 ∷ []))

hkdf_expand-blocks_example :
    hkdf_expand toy (1 ∷ []) (2 ∷ []) 90 ≡ take 90 (blocks (toy.hmac (1 ∷ [])) (2 ∷ []) 3)
hkdf_expand-blocks_example =
    hkdf_expand-blocks toy (1 ∷ []) (2 ∷ []) 90 (toy-IsCrypto.length-hmac (1 ∷ [])) (omega arith)

-- The two sides, when the agent then sends one text and the viewer another.
abbrev viewer_side : Bytes → Handshake
viewer_side text =
    connect toy jsons env device (viewer_drawn toy jsons toy-IsCrypto jsons-IsFormats meet [])
      (to_viewer text) []

abbrev agent_side : Bytes → Handshake
agent_side text =
    accept toy jsons meet.identity (agent_drawn toy jsons toy-IsCrypto jsons-IsFormats meet [])
      (to_agent text) []

to_viewer-is : (text text' : Bytes) → to_viewer text ≡ (agent_side text').wire ++ text
to_viewer-is text text' =
    accept-agent_stream toy jsons toy-IsCrypto jsons-IsFormats meet [] text text'

to_agent-is : (text text' : Bytes) → to_agent text' ≡ (viewer_side text).wire ++ text'
to_agent-is text text' =
    connect-viewer_stream toy jsons toy-IsCrypto jsons-IsFormats meet env device [] text text'
      meet-is_device

agreed : (text text' : Bytes) → Agrees (viewer_side text) (agent_side text') text text'
agreed text text' =
    connect-accept toy jsons toy-IsCrypto jsons-IsFormats meet env device [] [] text text'
      (to_viewer text) (to_agent text') meet-is_device (to_viewer-is text text')
      (to_agent-is text text')

connect-accept_example : Agrees (viewer_side (1 ∷ [])) (agent_side (2 ∷ [])) (1 ∷ []) (2 ∷ [])
connect-accept_example =
    connect-accept toy jsons toy-IsCrypto jsons-IsFormats meet env device [] [] (1 ∷ []) (2 ∷ [])
      (to_viewer (1 ∷ [])) (to_agent (2 ∷ [])) meet-is_device (to_viewer-is (1 ∷ []) (2 ∷ []))
      (to_agent-is (1 ∷ []) (2 ∷ []))

connect-IsGenuine_example :
    IsGenuine toy jsons env device
      (viewer_drawn toy jsons toy-IsCrypto jsons-IsFormats meet [])
      (to_viewer [])
      (agreed [] []).viewer
connect-IsGenuine_example =
    connect-IsGenuine toy jsons env device
      (viewer_drawn toy jsons toy-IsCrypto jsons-IsFormats meet []) (to_viewer []) []
      (agreed [] []).viewer (agreed [] []).connected

abbrev sent_text : Bytes
sent_text = (conn_write plain (1 ∷ 2 ∷ 3 ∷ []) [] new_writer).wire

accept-write_example :
    (agent : Conn) × ((agent_side sent_text).outcome ≡ inr agent)
    × (let first = read_exactly plain 1 1 agent.reader in
        let second = read_exactly plain 2 2 first.1 in
        (first.0 ≡ (none, 1 ∷ [])) × (second.0 ≡ (none, 2 ∷ 3 ∷ [])))
accept-write_example =
    accept-write toy jsons toy-IsCrypto jsons-IsFormats meet env device [] [] [] sent_text
      (to_viewer []) (to_agent sent_text) (λ key. plain) (agreed [] sent_text).viewer (1 ∷ [])
      (2 ∷ 3 ∷ []) meet-is_device (to_viewer-is [] sent_text) (to_agent-is [] sent_text)
      (λ key. plain-IsAead) (agreed [] sent_text).connected
      (ap (λ (w : RecordWriter). (conn_write plain (1 ∷ 2 ∷ 3 ∷ []) [] w).wire)
        (sym (agreed [] sent_text).viewer_writer))
      (omega arith)

abbrev fresh_reader : RecordReader
fresh_reader = record { stream = sent_text ++ 9 ∷ []; sequence = 0; buffer = []; failure = none }

read-write_exactly_example :
    let first = read_exactly plain 1 1 fresh_reader in
    let second = read_exactly plain 2 2 first.1 in
    ((conn_write plain (1 ∷ 2 ∷ 3 ∷ []) [] new_writer).count ≡ 3)
    × (first.0 ≡ (none, 1 ∷ []))
    × (second.0 ≡ (none, 2 ∷ 3 ∷ []))
    × Holds plain [] (9 ∷ []) second.1
read-write_exactly_example =
    read-write_exactly plain (1 ∷ []) (2 ∷ 3 ∷ []) (9 ∷ []) new_writer fresh_reader plain-IsAead
      refl (omega arith) refl refl refl refl
