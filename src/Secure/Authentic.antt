-- ===== src/Secure/Authentic.antt =====
-- What Connect has tested of the agent when it returns a connection.
use yudesk.Base.{
  ◌≡◌, refl, sym, true, not, ◌||◌, some, List, [], ◌∷◌, ◌++◌, arith, inl, inr, ◌==◌, length, take,
  drop, same, same→≡, Bool-cases, Option-cases, ⊎-cases,
}
use mathlib.Core.List.{append-nil}
use yudesk.Text.{Text, Platform}
use yudesk.Protocol.Wire.{Bytes}
use yudesk.Secure.Keys.{Crypto, make_transcript, derive_keys, proof}
use yudesk.Secure.Records.{Sent}
use yudesk.Secure.Handshake.{
  ClientHello, ServerHello, ClientFinish, Formats, Refusal, Handshake, Conn, Drawn, new_conn,
  refuse, is_device, connect, connect_reply, connect_finish, read_handshake, write_handshake,
  same_proof, protocol_version,
}

module _ (crypto : Crypto) (formats : Formats) where
  -- The transcript of the two hellos.
  abbrev pub transcript_of : ClientHello → ServerHello → Bytes
  transcript_of hello reply =
      make_transcript crypto
        (hello.ephemeral ∷ hello.nonce ∷ reply.ephemeral ∷ reply.nonce ∷ reply.identity ∷ [])

  -- The agent's reply is that of the device looked for, over these two hellos and this secret.
  pub record IsAuthentic (env : Platform) (expected : Text) (ephemeral : Bytes)
      (hello : ClientHello) (reply : ServerHello) (shared : Bytes) : Type 0 where
    pub agent_public : Bytes
    pub is_expected : is_device crypto env reply.identity expected ≡ true
    pub is_signed : crypto.verify reply.identity (transcript_of hello reply) reply.signature ≡ true
    pub is_public : crypto.new_public_key reply.ephemeral ≡ some agent_public
    pub is_shared : crypto.ecdh ephemeral agent_public ≡ some shared
    pub is_proven :
        reply.proof
        ≡ proof crypto
            (take 32 (derive_keys crypto shared (transcript_of hello reply)))
            (transcript_of hello reply)
            (b'a' ∷ b'g' ∷ b'e' ∷ b'n' ∷ b't' ∷ [])

  -- The keys of the viewer's connection.
  abbrev pub viewer_conn : Bytes → Bytes → Conn
  viewer_conn keys stream = new_conn (take 32 (drop 32 keys)) (take 32 (drop 64 keys)) stream

  connect_finish_cases :
      (P : Handshake → Type 0) (wire shared : Bytes) (reply : ServerHello)
      (fake transcript stream : Bytes) (sents : List Sent)
      → ((more : Bytes) (why : Refusal) → P (refuse (wire ++ more) why))
      → (let keys = derive_keys crypto shared transcript in
          reply.proof
            ≡ proof crypto (take 32 keys) transcript (b'a' ∷ b'g' ∷ b'e' ∷ b'n' ∷ b't' ∷ [])
          → (more : Bytes)
          → P (record { wire = wire ++ more; outcome = inr (viewer_conn keys stream) }))
      → P (connect_finish crypto formats wire shared reply fake transcript stream sents)
  unfolding connect_finish same_proof
  connect_finish_cases P wire shared reply fake transcript stream sents refused done =
      let keys = derive_keys crypto shared transcript in
      let own : ClientFinish = record {
        proof =
            proof crypto (take 32 keys) transcript (b'v' ∷ b'i' ∷ b'e' ∷ b'w' ∷ b'e' ∷ b'r' ∷ []);
      } in
      let out = write_handshake formats.client_finish own sents in
      elim (Bool-cases (
        same reply.proof
          (proof crypto (take 32 keys) transcript (b'a' ∷ b'g' ∷ b'e' ∷ b'n' ∷ b't' ∷ [])))) [
            | inr wrong ↦ rw wrong (refused _ Refusal.not_authentic)
            | inl right ↦ elim (Option-cases out.error) [
              | inr (why, failed) ↦ rw (right, failed) (refused _ why)
              | inl fine ↦ rw (right, fine) (done (same→≡ _ _ right) _)
            ]
          ]

  pub connect_reply_cases :
      (P : Handshake → Type 0) (env : Platform) (expected : Text) (ephemeral : Bytes)
      (hello : ClientHello) (reply : ServerHello) (fake wire stream : Bytes) (sents : List Sent)
      → ((sent more : Bytes) → sent ≡ wire ++ more → (why : Refusal) → P (refuse sent why))
      → ((shared : Bytes)
          → IsAuthentic env expected ephemeral hello reply shared
          → (more : Bytes)
          → P (record {
            wire = wire ++ more;
            outcome =
                inr (viewer_conn (derive_keys crypto shared (transcript_of hello reply)) stream);
          }))
      → P (connect_reply crypto formats env expected ephemeral hello reply fake wire stream sents)
  unfolding connect_reply
  connect_reply_cases P env expected ephemeral hello reply fake wire stream sents refused done =
      let at_once = refused wire [] (sym (append-nil wire)) in
      let transcript = transcript_of hello reply in
      elim (Bool-cases (
        not (length reply.ephemeral == 32)
        || (not (length reply.nonce == 32) || not (length reply.identity == 32)))) [
          | inl misfit ↦ rw misfit (at_once Refusal.invalid_hello)
          | inr fits ↦ elim (Bool-cases (is_device crypto env reply.identity expected)) [
            | inr other ↦ rw (fits, other) (at_once Refusal.wrong_device)
            | inl device ↦
                elim (Bool-cases (crypto.verify reply.identity transcript reply.signature)) [
                  | inr forged ↦ rw (fits, device, forged) (at_once Refusal.invalid_signature)
                  | inl signed ↦ elim (Option-cases (crypto.new_public_key reply.ephemeral)) [
                    | inl refused_key ↦
                        rw (fits, device, signed, refused_key) (at_once Refusal.invalid_public_key)
                    | inr (agent_public, public) ↦
                        elim (Option-cases (crypto.ecdh ephemeral agent_public)) [
                          | inl no_secret ↦
                              rw (fits, device, signed, public, no_secret)
                                (at_once Refusal.no_shared_secret)
                          | inr (shared, secret) ↦
                              rw (fits, device, signed, public, secret)
                                (connect_finish_cases P wire shared reply fake transcript stream
                                  sents (λ more why. refused _ more refl why)
                                  (λ proven more.
                                    done shared
                                      (record {
                                        agent_public = agent_public;
                                        is_expected = device;
                                        is_signed = signed;
                                        is_public = public;
                                        is_shared = secret;
                                        is_proven = proven;
                                      })
                                      more))
                        ]
                  ]
                ]
          ]
        ]

  -- The hello that Connect sends.
  abbrev pub hello_of : Bytes → Bytes → ClientHello
  hello_of ephemeral nonce = record {
    version = protocol_version;
    ephemeral = crypto.public_key ephemeral;
    nonce = nonce;
  }

  pub connect_cases :
      (P : Handshake → Type 0) (env : Platform) (expected : Text) (drawn : Drawn) (stream : Bytes)
      (sents : List Sent)
      → ((wire : Bytes) (why : Refusal) → P (refuse wire why))
      → ((ephemeral nonce : Bytes) (reply : ServerHello) (rest shared : Bytes)
          → drawn.ephemeral ≡ some ephemeral
          → drawn.nonce ≡ some nonce
          → read_handshake formats.server_hello stream ≡ inr (reply, rest)
          → IsAuthentic env expected ephemeral (hello_of ephemeral nonce) reply shared
          → (wire : Bytes)
          → P (record {
            wire = wire;
            outcome = inr (
                viewer_conn
                  (derive_keys crypto shared (transcript_of (hello_of ephemeral nonce) reply))
                  rest);
          }))
      → P (connect crypto formats env expected drawn stream sents)
  unfolding connect
  connect_cases P env expected drawn stream sents refused done =
      elim (Option-cases drawn.ephemeral) [
        | inl dry ↦ rw dry (refused [] Refusal.no_randomness)
        | inr (ephemeral, drew) ↦ elim (Option-cases drawn.nonce) [
          | inl dry ↦ rw (drew, dry) (refused [] Refusal.no_randomness)
          | inr (nonce, drew_nonce) ↦
              let hello = hello_of ephemeral nonce in
              let out = write_handshake formats.client_hello hello sents in
              elim (Option-cases out.error) [
                | inr (why, failed) ↦ rw (drew, drew_nonce, failed) (refused _ why)
                | inl fine ↦ elim (⊎-cases (read_handshake formats.server_hello stream)) [
                  | inl (why, unread) ↦ rw (drew, drew_nonce, fine, unread) (refused _ why)
                  | inr ((reply, rest), read) ↦
                      rw (drew, drew_nonce, fine, read)
                        (connect_reply_cases P env expected ephemeral hello reply drawn.fake_proof
                          out.wire rest out.sents (λ sent more same_wire why. refused sent why)
                          (λ shared authentic more.
                            done ephemeral nonce reply rest shared drew drew_nonce read authentic
                              _))
                ]
              ]
        ]
      ]

  -- The connection of Connect is keyed by an authentic reply on the stream.
  pub record IsGenuine (env : Platform) (expected : Text) (drawn : Drawn) (stream : Bytes)
      (conn : Conn) : Type 0 where
    pub ephemeral : Bytes
    pub nonce : Bytes
    pub reply : ServerHello
    pub rest : Bytes
    pub shared : Bytes
    pub drew : drawn.ephemeral ≡ some ephemeral
    pub drew_nonce : drawn.nonce ≡ some nonce
    pub is_read : read_handshake formats.server_hello stream ≡ inr (reply, rest)
    pub is_authentic : IsAuthentic env expected ephemeral (hello_of ephemeral nonce) reply shared
    pub is_keyed :
        conn
        ≡ viewer_conn
            (derive_keys crypto shared (transcript_of (hello_of ephemeral nonce) reply))
            rest

  -- The connection that Connect returns is keyed by a reply on the stream that is authentic: from an
  -- identity with the identifier looked for, which has signed the transcript of the viewer's hello and
  -- this reply, with a proof under the secret shared with the reply's ephemeral key. Its keys are
  -- derived from that secret and that transcript.
  pub connect-IsGenuine :
      (env : Platform) (expected : Text) (drawn : Drawn) (stream : Bytes) (sents : List Sent)
      (conn : Conn)
      → (connect crypto formats env expected drawn stream sents).outcome ≡ inr conn
      → IsGenuine env expected drawn stream conn
  connect-IsGenuine env expected drawn stream sents conn =
      connect_cases (λ h. h.outcome ≡ inr conn → IsGenuine env expected drawn stream conn) env
        expected drawn stream sents (λ wire why e. absurd (ground arith))
        (λ ephemeral nonce reply rest shared drew drew_nonce read authentic wire e. record {
          ephemeral = ephemeral;
          nonce = nonce;
          reply = reply;
          rest = rest;
          shared = shared;
          drew = drew;
          drew_nonce = drew_nonce;
          is_read = read;
          is_authentic = authentic;
          is_keyed = cc;
        })
