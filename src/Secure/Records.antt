-- ===== src/Secure/Records.antt =====
-- internal/secureconn/secureconn.go: Conn.Read and Conn.Write. The connection below is, for a writer,
-- the list of what its Write calls return (after the list it takes everything), and for a reader the
-- bytes that arrive before it ends.
use yudesk.Base.{
  ℕ, zero, suc, ◌+◌, ◌-◌, ◌*◌, ◌/◌, ◌%◌, ◌^◌, ◌≡◌, Bool, ◌||◌, Option, none, some, List, [], ◌∷◌,
  ◌++◌, min, not, ltb, ◌==◌, if◌then◌else◌, length, take, drop,
}
use yudesk.Protocol.Wire.{Bytes, put_u32, get_u32, zeros}

-- `cipher.AEAD` under one key: nonce, text and additional data.
pub record Aead : Type 0 where
  pub seal : Bytes → Bytes → Bytes → Bytes
  pub unseal : Bytes → Bytes → Bytes → Option Bytes

-- `Overhead` of GCM
abbrev pub overhead : ℕ
overhead = 16

-- What `cipher.AEAD` says of itself.
pub record IsAead (cipher : Aead) : Type 0 where
  pub unseal-seal :
      (nonce text extra : Bytes)
      → cipher.unseal nonce (cipher.seal nonce text extra) extra ≡ some text
  pub length-seal :
      (nonce text extra : Bytes) → length (cipher.seal nonce text extra) ≡ length text + overhead

abbrev pub max_record : ℕ
max_record = 64 * 1024

abbrev pub last_sequence : ℕ
last_sequence = 2 ^ 64 - 1

-- `binary.BigEndian.PutUint64`
unfoldable pub put_u64 : ℕ → Bytes
put_u64 n = put_u32 (n / 2 ^ 32) ++ put_u32 (n % 2 ^ 32)

-- `recordNonce`: the nonce, of which the last eight bytes are the additional data.
unfoldable pub record_nonce : ℕ → Bytes
record_nonce sequence = zeros 4 ++ put_u64 sequence

pub data WriteError : Type 0 where
  short_write transport_failed sequence_exhausted : WriteError

-- What one Write of the connection below returns.
pub record Sent : Type 0 where
  pub count : ℕ
  pub failed : Bool

pub record Flushed : Type 0 where
  pub wire : Bytes
  pub error : Option WriteError
  pub rest : List Sent

-- `writeFull`; `wire` is what it counts as written.
unfoldable pub write_full : Bytes → List Sent → Flushed
write_full [] sents = record { wire = []; error = none; rest = sents }
write_full (b ∷ payload) [] = record { wire = b ∷ payload; error = none; rest = [] }
write_full (b ∷ payload) (s ∷ sents) =
    let more = write_full (drop s.count (b ∷ payload)) sents in
    if ltb (length (b ∷ payload)) s.count
    then record { wire = []; error = some short_write; rest = sents }
    else if s.failed
    then record { wire = take s.count (b ∷ payload); error = some transport_failed; rest = sents }
    else if s.count == 0
    then record { wire = []; error = some short_write; rest = sents }
    else record more { wire = take s.count (b ∷ payload) ++ more.wire }

pub record RecordWriter : Type 0 where
  pub sequence : ℕ
  pub failure : Option WriteError

abbrev pub new_writer : RecordWriter
new_writer = record { sequence = 0; failure = none }

-- What becomes of the writer when a record was written whole, or not, with this error.
unfoldable pub advance : Bool → Option WriteError → RecordWriter → RecordWriter
advance whole error w =
    let w' : RecordWriter =
      if whole
      then (if w.sequence == last_sequence
          then record w { failure = some sequence_exhausted }
          else record w { sequence = w.sequence + 1 })
      else w in
    elim error [ none ↦ w' | some e ↦ record w' { failure = some e } ]

pub data ReadError : Type 0 where
  closed invalid_size unauthentic reads_exhausted : ReadError

pub record RecordReader : Type 0 where
  pub stream : Bytes
  pub sequence : ℕ
  pub buffer : Bytes
  pub failure : Option ReadError

-- A failure that stays.
abbrev pub break_with : ReadError → Bytes → RecordReader → Option ReadError × RecordReader
break_with e stream r = (some e, record r { stream = stream; failure = some e })

-- The end of `Read`: bytes from the buffer, if there are any.
abbrev pub take_text :
    ℕ → Option ReadError × RecordReader → (Option ReadError × Bytes) × RecordReader
take_text k (some e, r) = ((some e, []), r)
take_text k (none, r) = ((none, take k r.buffer), record r { buffer = drop k r.buffer })

module _ (cipher : Aead) where
  -- The packet of one record.
  unfoldable pub sealed_record : ℕ → Bytes → Bytes
  sealed_record sequence text =
      put_u32 (length text + overhead)
      ++ cipher.seal (record_nonce sequence) text (put_u64 sequence)

  pub record Written : Type 0 where
    pub count : ℕ
    pub error : Option WriteError
    -- the bytes that were counted as written, and the sequence number and the text of each Seal
    pub wire : Bytes
    pub seals : List (ℕ × Bytes)
    pub writer : RecordWriter
    pub rest : List Sent

  -- `Write` gives back the error that the writer has, and else goes on.
  unfoldable pub write_unless : Option WriteError → Written → List Sent → RecordWriter → Written
  write_unless (some e) next sents w = record {
    count = 0;
    error = some e;
    wire = [];
    seals = [];
    writer = w;
    rest = sents;
  }
  write_unless none next sents w = next

  -- What `Write` returns once a record was flushed: at once on an error, and else with what the
  -- rest of the text gives. `sealed` is its sequence number and its text.
  unfoldable pub join_written :
      Option WriteError → ℕ × Bytes → ℕ → Bool → Flushed → RecordWriter → Written → Written
  join_written (some e) sealed size whole out w more = record {
    count = if whole then size else 0;
    error = some e;
    wire = out.wire;
    seals = sealed ∷ [];
    writer = w;
    rest = out.rest;
  }
  join_written none sealed size whole out w more = record more {
    count = (if whole then size else 0) + more.count;
    wire = out.wire ++ more.wire;
    seals = sealed ∷ more.seals;
  }

  -- The loop of `Write`; the fuel is the length of the text.
  unfoldable pub write_loop : ℕ → Bytes → List Sent → RecordWriter → Written
  write_loop zero text sents w = record {
    count = 0;
    error = none;
    wire = [];
    seals = [];
    writer = w;
    rest = sents;
  }
  write_loop (suc fuel) [] sents w = record {
    count = 0;
    error = none;
    wire = [];
    seals = [];
    writer = w;
    rest = sents;
  }
  write_loop (suc fuel) (b ∷ text) sents w =
      let size = min (length (b ∷ text)) max_record in
      let packet = sealed_record w.sequence (take size (b ∷ text)) in
      let out = write_full packet sents in
      let whole = length out.wire == length packet in
      let w' = advance whole out.error w in
      let more = write_loop fuel (drop size (b ∷ text)) out.rest w' in
      write_unless w.failure
        (join_written out.error (w.sequence, take size (b ∷ text)) size whole out w' more) sents w

  -- `Conn.Write`
  unfoldable pub conn_write : Bytes → List Sent → RecordWriter → Written
  conn_write text sents w = write_loop (length text) text sents w

  -- Calls of `Write` one after the other: the number and the text of each Seal, and all the bytes
  -- that the connection below took.
  unfoldable pub conn_writes :
      List (Bytes × List Sent) → RecordWriter → RecordWriter × List (ℕ × Bytes) × Bytes
  conn_writes [] w = (w, [], [])
  conn_writes ((text, sents) ∷ calls) w =
      let written = conn_write text sents w in
      let (w', seals, wire) = conn_writes calls written.writer in
      (w', written.seals ++ seals, written.wire ++ wire)

  -- One round of the loop of `Read`: the next record goes to the buffer.
  unfoldable pub fetch_record : RecordReader → Option ReadError × RecordReader
  fetch_record r =
      let size = get_u32 r.stream in
      let body = drop 4 r.stream in
      if length r.stream == 0
      then (some closed, r)
      else if ltb (length r.stream) 4
      then break_with closed [] r
      else if ltb size overhead || ltb (max_record + overhead) size
      then break_with invalid_size body r
      else if ltb (length body) size
      then break_with closed [] r
      else elim (cipher.unseal (record_nonce r.sequence) (take size body) (put_u64 r.sequence)) [
        | none ↦ break_with unauthentic (drop size body) r
        | some text ↦ (
          none,
          record r {
            stream = drop size body;
            buffer = text;
            sequence = if r.sequence == last_sequence then r.sequence else r.sequence + 1;
            failure = if r.sequence == last_sequence then some reads_exhausted else r.failure;
          },
        )
      ]

  -- The loop of `Read`: an empty record is passed over.
  unfoldable pub fill : ℕ → RecordReader → Option ReadError × RecordReader
  fill zero r = (some closed, r)
  fill (suc fuel) r =
      let next = fetch_record r in
      let more = fill fuel next.1 in
      if not (length r.buffer == 0) then (none, r) else elim r.failure [
        | some e ↦ (some e, r)
        | none ↦ elim next.0 [ some e ↦ next | none ↦ more ]
      ]

  -- `Conn.Read` into a buffer of `k` bytes. Each round takes four bytes or more from the stream.
  unfoldable pub conn_read : ℕ → RecordReader → (Option ReadError × Bytes) × RecordReader
  conn_read k r =
      if k == 0 then ((none, []), r) else take_text k (fill (suc (suc (length r.stream))) r)

  -- `io.ReadFull` on the connection: reads until `need` bytes are there; the fuel is `need`.
  unfoldable pub read_exactly : ℕ → ℕ → RecordReader → (Option ReadError × Bytes) × RecordReader
  read_exactly zero need r = ((none, []), r)
  read_exactly (suc fuel) need r =
      let first = conn_read need r in
      let more = read_exactly fuel (need - length first.0.1) first.1 in
      if need == 0
      then ((none, []), r)
      else elim first.0.0 [ some e ↦ first | none ↦ ((more.0.0, first.0.1 ++ more.0.1), more.1) ]
