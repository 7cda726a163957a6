-- ===== src/Secure/Stream.antt =====
-- What is written comes out at the other end, however it is cut up.
use yudesk.Base.{
  ℕ, zero, suc, ◌+◌, ◌-◌, ◌≤◌, ◌<◌, ◌≡◌, ◌∙◌, refl, sym, ap, subst, true, false, ◌||◌, Option, none,
  some, [], ◌∷◌, ◌++◌, min, arith, ltb, ◌==◌, length, take, drop, length-append, length-take,
  length-drop, take-append-drop, Bool-cases, inl, inr, ==_refl,
}
use mathlib.Core.List.{append_assoc, append-nil}
use yudesk.Protocol.Wire.{Bytes, put_u32, get_u32}
use yudesk.Protocol.Bytes.{get-put_u32, take-append, drop-append}
use yudesk.Secure.Records.{
  Aead, IsAead, RecordWriter, RecordReader, ReadError, write_full, write_loop, write_unless,
  join_written, conn_write, advance, sealed_record, last_sequence, put_u64, record_nonce,
  max_record, overhead, fetch_record, fill, conn_read, take_text, read_exactly,
}

take-le : (k : ℕ) (xs : Bytes) → length (take k xs) ≤ k
take-le zero xs = omega arith
take-le (suc k) [] = omega arith
take-le (suc k) (x ∷ xs) = omega (arith, take-le k xs)

take-some : (k : ℕ) (xs : Bytes) → 0 < k → 0 < length xs → 0 < length (take k xs)
take-some zero xs h some_bytes = h
take-some (suc k) [] h some_bytes = some_bytes
take-some (suc k) (x ∷ xs) h some_bytes = omega arith

-- The shorter of two beginnings of one text begins the other.
split-append :
    (got after part rest : Bytes)
    → part ++ rest ≡ got ++ after
    → length got ≤ length part
    → (more : Bytes) × (part ≡ got ++ more) × (after ≡ more ++ rest)
split-append [] after part rest e le = (part, refl, sym e)
split-append (x ∷ got) after [] rest e le = absurd (omega arith)
split-append (x ∷ got) after (y ∷ part) rest e le =
    let (more, p, q) = split-append got after part rest (ap (drop 1) e) (omega arith) in
    (more, (cc), q)

pub write_full-healthy :
    (payload : Bytes) → write_full payload [] ≡ record { wire = payload; error = none; rest = [] }
unfolding write_full
write_full-healthy [] = refl
write_full-healthy (b ∷ payload) = refl

pub drop-put_u32 : (n : ℕ) (more : Bytes) → drop 4 (put_u32 n ++ more) ≡ more
unfolding put_u32
drop-put_u32 n more = refl

module _ (cipher : Aead) where
  -- The records of a text, from a sequence number on.
  unfoldable pub wire_of : ℕ → ℕ → Bytes → Bytes
  wire_of zero sequence text = []
  wire_of (suc fuel) sequence [] = []
  wire_of (suc fuel) sequence (b ∷ text) =
      let size = min (length (b ∷ text)) max_record in
      sealed_record cipher sequence (take size (b ∷ text))
      ++ wire_of fuel (sequence + 1) (drop size (b ∷ text))

  -- The reader will give this text, and then stands before `rest`.
  pub record Holds (text rest : Bytes) (r : RecordReader) : Type 0 where
    pub later : Bytes
    pub fuel : ℕ
    pub text_is : r.buffer ++ later ≡ text
    pub stream_is : r.stream ≡ wire_of fuel r.sequence later ++ rest
    pub enough : length later ≤ fuel
    pub fine : r.failure ≡ none
    pub room : r.sequence + length later ≤ last_sequence

  module _ (lawful : IsAead cipher) where
    length-sealed_record :
        (sequence : ℕ) (text : Bytes)
        → length (sealed_record cipher sequence text) ≡ 4 + (length text + overhead)
    unfolding sealed_record put_u32
    length-sealed_record sequence text =
        omega (arith, lawful.length-seal (record_nonce sequence) text (put_u64 sequence))

    sealed_record-append :
        (sequence : ℕ) (text more : Bytes)
        → sealed_record cipher sequence text ++ more
          ≡ put_u32 (length text + overhead)
            ++ (cipher.seal (record_nonce sequence) text (put_u64 sequence) ++ more)
    unfolding sealed_record
    sealed_record-append sequence text more = append_assoc (put_u32 (length text + overhead)) _ more

    take-body : (n : ℕ) (body more : Bytes) → length body ≡ n → take n (body ++ more) ≡ body
    take-body n body more e = rw (← e) (take-append body more)

    drop-body : (n : ℕ) (body more : Bytes) → length body ≡ n → drop n (body ++ more) ≡ more
    drop-body n body more e = rw (← e) (drop-append body more)

    fetch-sealed :
        (r : RecordReader) (text more : Bytes)
        → length text ≤ max_record
        → r.sequence < last_sequence
        → r.failure ≡ none
        → r.stream ≡ sealed_record cipher r.sequence text ++ more
        → fetch_record cipher r ≡ (
          none,
          record { stream = more; buffer = text; sequence = r.sequence + 1; failure = none },
        )
    unfolding fetch_record
    fetch-sealed r text more short low fine e =
        let body = cipher.seal (record_nonce r.sequence) text (put_u64 r.sequence) in
        let split = e ∙ sealed_record-append r.sequence text more in
        let long : length r.stream ≡ 4 + (length text + overhead) + length more = omega (
          arith,
          ap length e,
          length-append (sealed_record cipher r.sequence text) more,
          length-sealed_record r.sequence text,
        ) in
        let size : get_u32 r.stream ≡ length text + overhead =
          ap get_u32 split ∙ get-put_u32 (length text + overhead) (body ++ more) (omega arith) in
        let rest : drop 4 r.stream ≡ body ++ more =
          ap (drop 4) split ∙ drop-put_u32 (length text + overhead) (body ++ more) in
        let sealed_length =
          lawful.length-seal (record_nonce r.sequence) text (put_u64 r.sequence) in
        let some_bytes : ((length r.stream == 0) ≡ false) = ground arith in
        let header : (ltb (length r.stream) 4 ≡ false) = ground arith in
        let sizes : ((ltb (length text + overhead) overhead
              || ltb (max_record + overhead) (length text + overhead))
            ≡ false) =
          ground arith in
        let there : (ltb (length (body ++ more)) (length text + overhead) ≡ false) =
          ground (arith, length-append body more) in
        let not_last : ((r.sequence == last_sequence) ≡ false) = ground arith in
        rw
          (
            some_bytes,
            header,
            size,
            rest,
            sizes,
            there,
            take-body _ body more sealed_length,
            lawful.unseal-seal (record_nonce r.sequence) text (put_u64 r.sequence),
          )
          (rw (size, rest, drop-body _ body more sealed_length, not_last, fine) refl)

    next-Holds :
        (fuel : ℕ) (later rest : Bytes) (r : RecordReader)
        → length later ≤ fuel
        → 0 < length later
        → r.failure ≡ none
        → r.sequence + length later ≤ last_sequence
        → r.stream ≡ wire_of fuel r.sequence later ++ rest
        → (r' : RecordReader) × (fetch_record cipher r ≡ (none, r'))
          × (0 < length r'.buffer)
          × Holds later rest r'
    unfolding wire_of
    next-Holds zero later rest r enough some_text fine room e = absurd (omega arith)
    next-Holds (suc fuel) [] rest r enough some_text fine room e = absurd (omega arith)
    next-Holds (suc fuel) (b ∷ later) rest r enough some_text fine room e =
        let size = min (length (b ∷ later)) max_record in
        let chunk = take size (b ∷ later) in
        let more = wire_of fuel (r.sequence + 1) (drop size (b ∷ later)) ++ rest in
        let chunk_size : length chunk ≡ size = length-take size (b ∷ later) (omega arith) in
        let left = length-drop size (b ∷ later) in
        (
          record { stream = more; buffer = chunk; sequence = r.sequence + 1; failure = none },
          fetch-sealed r chunk more (omega arith) (omega arith) fine
              (e ∙ append_assoc (sealed_record cipher r.sequence chunk) _ rest),
          omega arith,
          record {
            later = drop size (b ∷ later);
            fuel = fuel;
            text_is = take-append-drop size (b ∷ later);
            stream_is = refl;
            enough = omega arith;
            fine = refl;
            room = omega arith;
          },
        )

    no_bytes : (xs : Bytes) → (length xs == 0) ≡ true → xs ≡ []
    no_bytes [] h = refl
    no_bytes (x ∷ xs) h = absurd (ground arith)

    take_text-none :
        (k : ℕ) (x : Option ReadError × RecordReader)
        → x.0 ≡ none
        → take_text k x ≡ ((none, take k x.1.buffer), record x.1 { buffer = drop k x.1.buffer })
    take_text-none k (none, r) h = refl
    take_text-none k (some e, r) h = absurd (ground arith)

    -- A read finds the next record, and stops behind it.
    fill-Holds :
        (n : ℕ) (text rest : Bytes) (r : RecordReader)
        → 0 < length text
        → Holds text rest r
        → let (e, r') = fill cipher (suc (suc n)) r in
          (e ≡ none) × (0 < length r'.buffer) × Holds text rest r'
    unfolding fill
    fill-Holds n text rest r some_text h = elim (Bool-cases (length r.buffer == 0)) [
      | inr full ↦ rw full (refl, ground arith, h)
      | inl empty ↦
          let none_left = no_bytes r.buffer empty in
          let all_later : h.later ≡ text =
            ap (λ (x : Bytes). x ++ h.later) (sym none_left) ∙ h.text_is in
          let (r', fetched, full, h') =
            next-Holds h.fuel h.later rest r h.enough (omega (arith, ap length all_later)) h.fine
              h.room h.stream_is in
          let stops : ((length r'.buffer == 0) ≡ false) = ground arith in
          rw (empty, h.fine, fetched)
            (rw (fetched, stops) (refl, full, subst (λ (x : Bytes). Holds x rest r') all_later h'))
    ]

    conn_read-Holds :
        (k : ℕ) (text rest : Bytes) (r : RecordReader)
        → 0 < k
        → 0 < length text
        → Holds text rest r
        → let ((e, got), r') = conn_read cipher k r in
          (e ≡ none)
          × (0 < length got)
          × (length got ≤ k)
          × ((after : Bytes) × (text ≡ got ++ after) × Holds after rest r')
    unfolding conn_read
    conn_read-Holds k text rest r positive some_text h =
        let (none_yet, full, h') = fill-Holds (length r.stream) text rest r some_text h in
        let r' = (fill cipher (suc (suc (length r.stream))) r).1 in
        let not_zero : ((k == 0) ≡ false) = ground arith in
        rw (not_zero, take_text-none k (fill cipher (suc (suc (length r.stream))) r) none_yet)
          (
            refl,
            take-some k r'.buffer positive full,
            take-le k r'.buffer,
            (
              drop k r'.buffer ++ h'.later,
              sym h'.text_is
                  ∙ ap (λ (x : Bytes). x ++ h'.later) (sym (take-append-drop k r'.buffer))
                  ∙ append_assoc (take k r'.buffer) (drop k r'.buffer) h'.later,
              record {
                later = h'.later;
                fuel = h'.fuel;
                text_is = refl;
                stream_is = h'.stream_is;
                enough = h'.enough;
                fine = h'.fine;
                room = h'.room;
              },
            ),
          )

    read_exactly-Holds :
        (fuel : ℕ) (part after rest : Bytes) (r : RecordReader)
        → length part ≤ fuel
        → Holds (part ++ after) rest r
        → ((read_exactly cipher fuel (length part) r).0 ≡ (none, part))
          × Holds after rest (read_exactly cipher fuel (length part) r).1
    unfolding read_exactly
    read_exactly-Holds zero [] after rest r enough h = (refl, h)
    read_exactly-Holds zero (b ∷ part) after rest r enough h = absurd (omega arith)
    read_exactly-Holds (suc fuel) [] after rest r enough h = (refl, h)
    read_exactly-Holds (suc fuel) (b ∷ part) after rest r enough h =
        let need = length (b ∷ part) in
        let (fine, some_bytes, at_most, (left, e, h')) =
          conn_read-Holds need (b ∷ part ++ after) rest r (omega arith) (omega arith) h in
        let got = (conn_read cipher need r).0.1 in
        let (more, p, q) = split-append got left (b ∷ part) after e at_most in
        let r' = (conn_read cipher need r).1 in
        let size : need - length got ≡ length more =
          omega (arith, ap length p, length-append got more) in
        let (same_more, h'') =
          read_exactly-Holds fuel more after rest r'
            (omega (arith, ap length p, length-append got more))
            (subst (λ (x : Bytes). Holds x rest r') q h') in
        let never_zero : ((need == 0) ≡ false) = ground arith in
        rw (never_zero, fine)
          (rw size (
            ap (λ (x : Option ReadError × Bytes). (x.0, got ++ x.1)) same_more
                ∙ ap (λ (x : Bytes). (none, x)) (sym p),
            h'',
          ))

  advance-next :
      (sequence : ℕ)
      → sequence < last_sequence
      → advance true none (record { sequence = sequence; failure = none })
        ≡ record { sequence = sequence + 1; failure = none }
  unfolding advance
  advance-next sequence low =
      let not_last : ((sequence == last_sequence) ≡ false) = ground arith in rw not_last refl

  -- Over a connection that takes everything, a write sends the records of its text.
  write_loop-wire :
      (fuel : ℕ) (text : Bytes) (w : RecordWriter)
      → length text ≤ fuel
      → w.failure ≡ none
      → w.sequence + length text ≤ last_sequence
      → ((write_loop cipher fuel text [] w).error ≡ none)
        × ((write_loop cipher fuel text [] w).wire ≡ wire_of fuel w.sequence text)
        × ((write_loop cipher fuel text [] w).count ≡ length text)
  unfolding write_loop wire_of write_unless join_written
  write_loop-wire zero [] w enough fine room = (refl, refl, refl)
  write_loop-wire zero (b ∷ text) w enough fine room = absurd (omega arith)
  write_loop-wire (suc fuel) [] w enough fine room = (refl, refl, refl)
  write_loop-wire (suc fuel) (b ∷ text) w enough fine room =
      let size = min (length (b ∷ text)) max_record in
      let packet = sealed_record cipher w.sequence (take size (b ∷ text)) in
      let more = drop size (b ∷ text) in
      let left = length-drop size (b ∷ text) in
      let w' : RecordWriter = record { sequence = w.sequence + 1; failure = none } in
      let (no_error, same_wire, all_counted) =
        write_loop-wire fuel more w' (omega arith) refl (omega arith) in
      rw
        (
          fine,
          write_full-healthy packet,
          ==_refl (length packet),
          advance-next w.sequence (omega arith),
        )
        (no_error, ap (λ (x : Bytes). packet ++ x) same_wire, omega arith)

  -- Over a connection that takes everything, with sequence numbers left on both sides, a text that is
  -- written in one Write is read back in two parts of any lengths, whatever records it was sent in;
  -- the reader then stands behind the last record, before what follows it.
  pub read-write_exactly :
      (part after rest : Bytes) (w : RecordWriter) (r : RecordReader)
      → IsAead cipher
      → w.failure ≡ none
      → w.sequence + length (part ++ after) ≤ last_sequence
      → r.failure ≡ none
      → r.buffer ≡ []
      → r.sequence ≡ w.sequence
      → r.stream ≡ (conn_write cipher (part ++ after) [] w).wire ++ rest
      → let first = read_exactly cipher (length part) (length part) r in
        let second = read_exactly cipher (length after) (length after) first.1 in
        ((conn_write cipher (part ++ after) [] w).count ≡ length (part ++ after))
        × (first.0 ≡ (none, part))
        × (second.0 ≡ (none, after))
        × Holds [] rest second.1
  unfolding conn_write
  read-write_exactly part after rest w r lawful fine room reader_fine no_buffer same_number e =
      let text = part ++ after in
      let (no_error, same_wire, counted) =
        write_loop-wire (length text) text w (omega arith) fine room in
      let h : Holds text rest r = record {
        later = text;
        fuel = length text;
        text_is = rw no_buffer refl;
        stream_is = rw same_number (e ∙ ap (λ (x : Bytes). x ++ rest) same_wire);
        enough = omega arith;
        fine = reader_fine;
        room = rw same_number room;
      } in
      let (first_is, h1) =
        read_exactly-Holds lawful (length part) part after rest r (omega arith) h in
      let r1 = (read_exactly cipher (length part) (length part) r).1 in
      let (second_is, h2) =
        read_exactly-Holds lawful (length after) after [] rest r1 (omega arith)
          (subst (λ (x : Bytes). Holds x rest r1) (sym (append-nil after)) h1) in
      (counted, first_is, second_is, h2)
