-- ===== src/Secure/Agreement.antt =====
-- The two sides of an undisturbed handshake agree.
use yudesk.Base.{
  ◌≡◌, refl, sym, ap, ◌∙◌, true, false, not, ◌||◌, none, some, [], ◌∷◌, ◌++◌, arith, inl, inr, ◌==◌,
  length, take, drop, same_refl, length-take, length-drop, Bool-cases, ⊎-cases,
}
use mathlib.Core.List.{append_assoc, append-nil}
use yudesk.Text.{Text, Platform}
use yudesk.Protocol.Wire.{Bytes}
use yudesk.Secure.Keys.{Crypto, make_transcript, derive_keys, proof}
use yudesk.Secure.Records.{new_writer}
use yudesk.Secure.Expand.{hkdf_expand-length}
use yudesk.Secure.Handshake.{
  Outgoing, ClientHello, ServerHello, ClientFinish, Formats, Handshake, Conn, Drawn, new_conn,
  is_device, connect, connect_reply, connect_finish, accept, accept_hello, accept_reply,
  accept_finish, read_handshake, same_proof, protocol_version,
}
use yudesk.Secure.Authentic.{connect_reply_cases, hello_of, viewer_conn}
use yudesk.Secure.Framing.{IsCrypto, IsFormats, Fits, frame, read-frame, write_handshake-healthy}

-- Both sides have a connection. What one writes with, the other reads with, and each stands before
-- the text that followed the other's handshake.
pub record Agrees (viewer_side agent_side : Handshake) (text text' : Bytes) : Type 0 where
  pub viewer : Conn
  pub agent : Conn
  pub connected : viewer_side.outcome ≡ inr viewer
  pub accepted : agent_side.outcome ≡ inr agent
  pub to_viewer : viewer.read_key ≡ agent.write_key
  pub to_agent : viewer.write_key ≡ agent.read_key
  pub length-read_key : length viewer.read_key ≡ 32
  pub length-write_key : length viewer.write_key ≡ 32
  pub viewer_reader :
      viewer.reader ≡ record { stream = text; sequence = 0; buffer = []; failure = none }
  pub agent_reader :
      agent.reader ≡ record { stream = text'; sequence = 0; buffer = []; failure = none }
  pub viewer_writer : viewer.writer ≡ new_writer
  pub agent_writer : agent.writer ≡ new_writer

module _ (crypto : Crypto) (formats : Formats) (lawful : IsCrypto crypto)
    (exact : IsFormats formats) where
  length-derive_keys :
      (shared transcript : Bytes) → length (derive_keys crypto shared transcript) ≡ 96
  unfolding derive_keys
  length-derive_keys shared transcript =
      hkdf_expand-length crypto _ _ 96 (λ text. lawful.length-hmac _ text)

  length-proof : (key transcript role : Bytes) → length (proof crypto key transcript role) ≡ 32
  unfolding proof
  length-proof key transcript role = lawful.length-hmac key (transcript ++ role)

  accept_finish-wire :
      (wire keys transcript stream : Bytes)
      → (accept_finish crypto formats wire keys transcript stream).wire ≡ wire
  unfolding accept_finish
  accept_finish-wire wire keys transcript stream =
      elim (⊎-cases (read_handshake formats.client_finish stream)) [
        | inl (why, unread) ↦ rw (accept_finish, unread) refl
        | inr ((closing, rest), read) ↦
            elim (Bool-cases (
              same_proof closing.proof (
                proof crypto (take 32 keys) transcript
                  (b'v' ∷ b'i' ∷ b'e' ∷ b'w' ∷ b'e' ∷ b'r' ∷ [])))) [
                    | inl right ↦ rw (accept_finish, read, right) refl
                    | inr wrong ↦ rw (accept_finish, read, wrong) refl
                  ]
      ]

  -- The secrets and the random values of an undisturbed exchange.
  pub record Exchange : Type 0 where
    pub identity : Bytes
    pub viewer_key : Bytes
    pub viewer_nonce : Bytes
    pub agent_key : Bytes
    pub agent_nonce : Bytes
    pub shared : Bytes
    pub is_identity : length identity ≡ 64
    pub is_viewer_nonce : length viewer_nonce ≡ 32
    pub is_agent_nonce : length agent_nonce ≡ 32
    pub is_shared : crypto.ecdh viewer_key (crypto.public_key agent_key) ≡ some shared

  module _ (x : Exchange) where
    abbrev pub hello : ClientHello
    hello = hello_of crypto formats x.viewer_key x.viewer_nonce

    abbrev pub transcript : Bytes
    transcript = make_transcript crypto (
        hello.ephemeral
        ∷ hello.nonce
        ∷ crypto.public_key x.agent_key
        ∷ x.agent_nonce
        ∷ crypto.public_identity x.identity
        ∷ [])

    abbrev pub keys : Bytes
    keys = derive_keys crypto x.shared transcript

    abbrev pub reply : ServerHello
    reply = record {
      ephemeral = crypto.public_key x.agent_key;
      nonce = x.agent_nonce;
      identity = crypto.public_identity x.identity;
      signature = crypto.sign x.identity transcript;
      proof = proof crypto (take 32 keys) transcript (b'a' ∷ b'g' ∷ b'e' ∷ b'n' ∷ b't' ∷ []);
    }

    abbrev pub closing : ClientFinish
    closing = record {
      proof = proof crypto (take 32 keys) transcript (b'v' ∷ b'i' ∷ b'e' ∷ b'w' ∷ b'e' ∷ b'r' ∷ []);
    }

    hello-Fits : Fits (formats.client_hello.marshal hello)
    hello-Fits =
        exact.hello_fits hello refl (lawful.length-public_key x.viewer_key) x.is_viewer_nonce

    reply-Fits : Fits (formats.server_hello.marshal reply)
    reply-Fits =
        exact.reply_fits reply (lawful.length-public_key x.agent_key) x.is_agent_nonce
          (lawful.length-public_identity x.identity) (lawful.length-sign x.identity transcript)
          (length-proof (take 32 keys) transcript (b'a' ∷ b'g' ∷ b'e' ∷ b'n' ∷ b't' ∷ []))

    closing-Fits : Fits (formats.client_finish.marshal closing)
    closing-Fits =
        exact.finish_fits closing
          (length-proof (take 32 keys) transcript (b'v' ∷ b'i' ∷ b'e' ∷ b'w' ∷ b'e' ∷ b'r' ∷ []))

    abbrev pub agent_drawn : Bytes → Drawn
    agent_drawn fake = record {
      ephemeral = some x.agent_key;
      nonce = some x.agent_nonce;
      fake_proof = fake;
    }

    abbrev pub viewer_drawn : Bytes → Drawn
    viewer_drawn fake = record {
      ephemeral = some x.viewer_key;
      nonce = some x.viewer_nonce;
      fake_proof = fake;
    }

    accept-hello :
        (fake rest stream : Bytes)
        → stream ≡ frame formats.client_hello hello ++ rest
        → accept crypto formats x.identity (agent_drawn fake) stream []
          ≡ accept_finish crypto formats (frame formats.server_hello reply) keys transcript rest
    unfolding accept accept_hello accept_reply
    accept-hello fake rest stream e =
        let read =
          read-frame formats.client_hello hello rest stream (exact.hello_back hello) hello-Fits e in
        let secret : (crypto.ecdh x.agent_key (crypto.public_key x.viewer_key) ≡ some x.shared) =
          lawful.ecdh-public_key x.agent_key x.viewer_key ∙ x.is_shared in
        let healthy = write_handshake-healthy formats.server_hello reply reply-Fits in
        let plain : (not (hello.version == protocol_version)
              || (not (length hello.ephemeral == 32) || not (length hello.nonce == 32)))
            ≡ false =
          ground (arith, lawful.length-public_key x.viewer_key, x.is_viewer_nonce) in
        rw (x.is_identity, read, accept_hello, plain, lawful.new-public_key x.viewer_key, secret)
          (rw (accept_reply, healthy)
            (ap (λ (o : Outgoing). accept_finish crypto formats o.wire keys transcript rest)
              healthy))

    accept_finish-closing :
        (wire rest stream : Bytes)
        → stream ≡ frame formats.client_finish closing ++ rest
        → accept_finish crypto formats wire keys transcript stream ≡ record {
          wire = wire;
          outcome = inr (new_conn (take 32 (drop 64 keys)) (take 32 (drop 32 keys)) rest);
        }
    unfolding accept_finish same_proof
    accept_finish-closing wire rest stream e =
        let read =
          read-frame formats.client_finish closing rest stream (exact.finish_back closing)
            closing-Fits e in
        rw (accept_finish, read, same_refl closing.proof) refl

    -- Connect has sent its hello first, whatever arrives.
    connect-wire :
        (env : Platform) (expected : Text) (fake stream : Bytes)
        → (more : Bytes) × ((connect crypto formats env expected (viewer_drawn fake) stream []).wire
            ≡ frame formats.client_hello hello ++ more)
    unfolding connect
    connect-wire env expected fake stream =
        let healthy = write_handshake-healthy formats.client_hello hello hello-Fits in
        let sent = frame formats.client_hello hello in
        elim (⊎-cases (read_handshake formats.server_hello stream)) [
          | inl (why, unread) ↦
              rw (connect, healthy, unread)
                ([], ap (λ (o : Outgoing). o.wire) healthy ∙ sym (append-nil sent))
          | inr ((answer, rest), read) ↦
              rw (connect, healthy, read)
                (connect_reply_cases crypto formats
                  (λ (h : Handshake). (more : Bytes) × (h.wire ≡ sent ++ more)) env expected
                  x.viewer_key hello answer fake _ rest _
                  (λ wire more same_wire why.
                    (more, same_wire ∙ ap (λ (o : Outgoing). o.wire ++ more) healthy))
                  (λ shared authentic more. (more, ap (λ (o : Outgoing). o.wire ++ more) healthy)))
        ]

    connect_finish-reply :
        (wire fake rest : Bytes)
        → connect_finish crypto formats wire x.shared reply fake transcript rest [] ≡ record {
          wire = wire ++ frame formats.client_finish closing;
          outcome = inr (viewer_conn crypto formats keys rest);
        }
    unfolding connect_finish same_proof
    connect_finish-reply wire fake rest =
        let healthy = write_handshake-healthy formats.client_finish closing closing-Fits in
        let right : (same_proof reply.proof
              (proof crypto (take 32 keys) transcript (b'a' ∷ b'g' ∷ b'e' ∷ b'n' ∷ b't' ∷ []))
            ≡ true) =
          same_refl reply.proof in
        rw (connect_finish, right, healthy)
          (ap
            (λ (o : Outgoing). record {
              wire = wire ++ o.wire;
              outcome = inr (viewer_conn crypto formats keys rest);
            })
            healthy)

    connect-reply :
        (env : Platform) (expected : Text) (fake rest stream : Bytes)
        → is_device crypto env (crypto.public_identity x.identity) expected ≡ true
        → stream ≡ frame formats.server_hello reply ++ rest
        → connect crypto formats env expected (viewer_drawn fake) stream [] ≡ record {
          wire = frame formats.client_hello hello ++ frame formats.client_finish closing;
          outcome = inr (viewer_conn crypto formats keys rest);
        }
    unfolding connect connect_reply connect_finish
    connect-reply env expected fake rest stream device e =
        let healthy = write_handshake-healthy formats.client_hello hello hello-Fits in
        let read =
          read-frame formats.server_hello reply rest stream (exact.reply_back reply) reply-Fits e in
        let plain : (not (length reply.ephemeral == 32)
              || (not (length reply.nonce == 32) || not (length reply.identity == 32)))
            ≡ false =
          ground (
            arith,
            lawful.length-public_key x.agent_key,
            x.is_agent_nonce,
            lawful.length-public_identity x.identity,
          ) in
        rw
          (
            connect,
            healthy,
            read,
            connect_reply,
            plain,
            device,
            lawful.verify-sign x.identity transcript,
            lawful.new-public_key x.agent_key,
            x.is_shared,
          )
          (ap
              (λ (o : Outgoing).
                connect_finish crypto formats o.wire x.shared reply fake transcript rest o.sents)
              healthy
            ∙ connect_finish-reply (frame formats.client_hello hello) fake rest)

    -- The streams of an undisturbed exchange.
    abbrev pub agent_stream : Bytes → Bytes
    agent_stream text' =
        (frame formats.client_hello hello ++ frame formats.client_finish closing) ++ text'

    abbrev pub viewer_stream : Bytes → Bytes
    viewer_stream text = frame formats.server_hello reply ++ text

    pub connect-viewer_stream :
        (env : Platform) (expected : Text) (fake text text' : Bytes)
        → is_device crypto env (crypto.public_identity x.identity) expected ≡ true
        → agent_stream text'
          ≡ (connect crypto formats env expected (viewer_drawn fake) (viewer_stream text) []).wire
            ++ text'
    connect-viewer_stream env expected fake text text' device =
        ap (λ (h : Handshake). h.wire ++ text')
          (sym (connect-reply env expected fake text (viewer_stream text) device refl))

    pub accept-agent_stream :
        (fake text text' : Bytes)
        → viewer_stream text
          ≡ (accept crypto formats x.identity (agent_drawn fake) (agent_stream text') []).wire
            ++ text
    accept-agent_stream fake text text' =
        let sent = frame formats.client_hello hello in
        let rest = frame formats.client_finish closing ++ text' in
        let accepts =
          accept-hello fake rest (agent_stream text')
            (append_assoc sent (frame formats.client_finish closing) text') in
        ap (λ (w : Bytes). w ++ text)
          (sym (
            ap (λ (h : Handshake). h.wire) accepts
            ∙ accept_finish-wire (frame formats.server_hello reply) keys transcript rest))

    -- Two sides with their own secrets, where each receives what the other sends and then some text, and
    -- where the viewer looks for the agent's identity, both return a connection, when all cryptography
    -- keeps its promises and no write fails. The key that one side reads with is the one that the other
    -- writes with, each of 32 bytes, and each side reads on behind the handshake.
    pub connect-accept :
        (env : Platform) (expected : Text) (fake fake' text text' stream stream' : Bytes)
        → is_device crypto env (crypto.public_identity x.identity) expected ≡ true
        → stream ≡ (accept crypto formats x.identity (agent_drawn fake) stream' []).wire ++ text
        → stream'
          ≡ (connect crypto formats env expected (viewer_drawn fake') stream []).wire ++ text'
        → Agrees
            (connect crypto formats env expected (viewer_drawn fake') stream [])
            (accept crypto formats x.identity (agent_drawn fake) stream' [])
            text
            text'
    connect-accept env expected fake fake' text text' stream stream' device to_viewer to_agent =
        let sent = frame formats.client_hello hello in
        let (more, starts) = connect-wire env expected fake' stream in
        let accepts =
          accept-hello fake (more ++ text') stream'
            (to_agent ∙ ap (λ (w : Bytes). w ++ text') starts ∙ append_assoc sent more text') in
        let replies : ((accept crypto formats x.identity (agent_drawn fake) stream' []).wire
            ≡ frame formats.server_hello reply) =
          ap (λ (h : Handshake). h.wire) accepts
          ∙ accept_finish-wire _ keys transcript (more ++ text') in
        let connects =
          connect-reply env expected fake' text stream device
            (to_viewer ∙ ap (λ (w : Bytes). w ++ text) replies) in
        let accepts' = accept-hello fake (frame formats.client_finish closing ++ text') stream' (
          to_agent
          ∙ ap (λ (h : Handshake). h.wire ++ text') connects
          ∙ append_assoc sent (frame formats.client_finish closing) text') in
        let finishes = accept_finish-closing (frame formats.server_hello reply) text' _ refl in
        let size = length-derive_keys x.shared transcript in
        record {
          viewer = viewer_conn crypto formats keys text;
          agent = new_conn (take 32 (drop 64 keys)) (take 32 (drop 32 keys)) text';
          connected = ap (λ (h : Handshake). h.outcome) connects;
          accepted = ap (λ (h : Handshake). h.outcome) (accepts' ∙ finishes);
          to_viewer = refl;
          to_agent = refl;
          length-read_key =
              length-take 32 (drop 32 keys) (omega (arith, length-drop 32 keys, size));
          length-write_key =
              length-take 32 (drop 64 keys) (omega (arith, length-drop 64 keys, size));
          viewer_reader = refl;
          agent_reader = refl;
          viewer_writer = refl;
          agent_writer = refl;
        }
