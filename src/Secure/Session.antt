-- ===== src/Secure/Session.antt =====
-- The handshake and the records together.
use yudesk.Base.{◌≤◌, ◌≡◌, refl, sym, ap, ◌∙◌, true, none, [], ◌++◌, arith, inr, length}
use mathlib.Core.List.{append-nil}
use yudesk.Text.{Text, Platform}
use yudesk.Protocol.Wire.{Bytes}
use yudesk.Secure.Keys.{Crypto}
use yudesk.Secure.Handshake.{Formats, Conn, is_device, connect, accept}
use yudesk.Secure.Framing.{IsCrypto, IsFormats}
use yudesk.Secure.Records.{
  Aead, IsAead, RecordReader, RecordWriter, conn_write, read_exactly, last_sequence, new_writer,
}
use yudesk.Secure.Stream.{read-write_exactly}
use yudesk.Secure.Agreement.{Exchange, agent_drawn, viewer_drawn, connect-accept}

module _ (crypto : Crypto) (formats : Formats) (lawful : IsCrypto crypto)
    (exact : IsFormats formats) where
  -- After an undisturbed handshake, with a cipher that opens under each key what it has sealed under
  -- that key, the agent reads in two parts what the viewer then writes in one.
  pub accept-write :
      (x : Exchange crypto formats lawful exact) (env : Platform) (expected : Text)
      (fake fake' text text' stream stream' : Bytes) (cipher_of : Bytes → Aead) (viewer : Conn)
      (part after : Bytes)
      → is_device crypto env (crypto.public_identity x.identity) expected ≡ true
      → stream
        ≡ (accept crypto formats x.identity
            (agent_drawn crypto formats lawful exact x fake)
            stream'
            []).wire
          ++ text
      → stream'
        ≡ (connect crypto formats env expected
            (viewer_drawn crypto formats lawful exact x fake')
            stream
            []).wire
          ++ text'
      → ((key : Bytes) → IsAead (cipher_of key))
      → (connect crypto formats env expected
          (viewer_drawn crypto formats lawful exact x fake')
          stream
          []).outcome
        ≡ inr viewer
      → text' ≡ (conn_write (cipher_of viewer.write_key) (part ++ after) [] viewer.writer).wire
      → length (part ++ after) ≤ last_sequence
      → (agent : Conn) × ((accept crypto formats x.identity
            (agent_drawn crypto formats lawful exact x fake)
            stream'
            []).outcome
          ≡ inr agent)
        × (let first =
              read_exactly (cipher_of agent.read_key) (length part) (length part) agent.reader in
            let second =
              read_exactly (cipher_of agent.read_key) (length after) (length after) first.1 in
            (first.0 ≡ (none, part)) × (second.0 ≡ (none, after)))
  accept-write x env expected fake fake' text text' stream stream' cipher_of viewer part after
        device to_viewer to_agent sound connected sealed room =
      let agreement =
        connect-accept crypto formats lawful exact x env expected fake fake' text text' stream
          stream' device to_viewer to_agent in
      let one : (viewer ≡ agreement.viewer) = let h = agreement.connected in cc in
      let w : RecordWriter = new_writer in
      let cipher = cipher_of agreement.agent.read_key in
      let keyed : (cipher_of viewer.write_key ≡ cipher) =
        ap (λ (c : Conn). cipher_of c.write_key) one ∙ ap cipher_of agreement.to_agent in
      let fresh : (viewer.writer ≡ w) = ap (λ (c : Conn). c.writer) one ∙ agreement.viewer_writer in
      let arrived : (agreement.agent.reader.stream
          ≡ (conn_write cipher (part ++ after) [] w).wire ++ []) =
        ap (λ (q : RecordReader). q.stream) agreement.agent_reader
        ∙ sealed
        ∙ ap (λ (c : Aead). (conn_write c (part ++ after) [] viewer.writer).wire) keyed
        ∙ ap (λ (q : RecordWriter). (conn_write cipher (part ++ after) [] q).wire) fresh
        ∙ sym (append-nil _) in
      let (counted, first_is, second_is, rest) =
        read-write_exactly cipher part after [] w agreement.agent.reader
          (sound agreement.agent.read_key) refl (omega arith)
          (ap (λ (q : RecordReader). q.failure) agreement.agent_reader)
          (ap (λ (q : RecordReader). q.buffer) agreement.agent_reader)
          (ap (λ (q : RecordReader). q.sequence) agreement.agent_reader) arrived in
      (agreement.agent, agreement.accepted, (first_is, second_is))
