-- ===== src/Protocol/RoundTrip.antt =====
-- What one end writes, the other reads, whole or in fragments.
use yudesk.Base.{
  ℕ, zero, suc, ◌+◌, ◌-◌, ◌≤◌, ◌<◌, ◌≡◌, refl, ◌∙◌, ap, Bool, true, false, ◌&&◌, ◌||◌, Option, none,
  some, [], ◌∷◌, ◌++◌, min, arith, ltb, leb, ◌==◌, length, take, drop, length-append, length-take,
  length-drop, take-append-drop, Bool-cases, inl, inr,
}
use mathlib.Core.List.{append_assoc, append-nil}
use native.Mathlib.Nat.{zero-add}
use yudesk.Protocol.Wire.{
  Bytes, Codec, ok, max_header_size, max_data_size, fragment_flag, fragment_size, get_u32, packet,
  Partial, Reader, fragment_header, fragments, write_message, read_whole, read_packet, read_message,
}
use yudesk.Protocol.Fragment.{partial_at, read_packet-fragment}
use yudesk.Protocol.Bytes.{read_full-append, sizes, packet-append, length-sizes, get-sizes}

module _ (J : Codec) where
  open J use {Fields, marshal, unmarshal}

  -- What is left of a reader when one packet has been taken from its stream.
  abbrev at_rest : Reader J → Bytes → Option (Partial J) → Reader J
  at_rest r rest p = record r { stream = rest; partial = p }

  whole :
      (fields : Fields) (content rest : Bytes) (r : Reader J)
      → unmarshal (marshal fields) ≡ some fields
      → 0 < length (marshal fields)
      → length (marshal fields) ≤ max_header_size
      → length content ≤ max_data_size
      → read_whole J
          (length (marshal fields))
          (length content)
          (record r { stream = marshal fields ++ (content ++ rest) })
        ≡ ok (some (fields, content), record r { stream = rest })
  unfolding read_whole
  whole fields content rest r parsed some_header small_header small =
      let n = length (marshal fields) in
      let fits : (n == 0 || ltb max_header_size n || ltb max_data_size (length content)) ≡ false =
        ground arith in
      rw (
        fits,
        read_full-append n (marshal fields) (content ++ rest) refl,
        parsed,
        read_full-append (length content) content rest refl,
      )

  plain_packet :
      (fields : Fields) (content rest : Bytes) (r : Reader J)
      → unmarshal (marshal fields) ≡ some fields
      → 0 < length (marshal fields)
      → length (marshal fields) ≤ max_header_size
      → length content ≤ max_data_size
      → read_packet J (record r { stream = packet (marshal fields) content false ++ rest })
        ≡ ok (some (fields, content), record r { stream = rest })
  unfolding read_packet
  plain_packet fields content rest r parsed some_header small_header small =
      let header = marshal fields in
      let both = get-sizes header content false (omega arith) (omega arith) in
      let size : get_u32 (sizes header content false) ≡ length header = both.0 ∙ omega arith in
      let unflagged : leb fragment_flag (length header) ≡ false = ground arith in
      rw
        (
          packet-append header content false rest,
          read_full-append 8 (sizes header content false) (header ++ (content ++ rest))
              (length-sizes header content false),
          size,
          both.1,
          unflagged,
        )
        (whole fields content rest r parsed some_header small_header small)

  fragments-nil :
      (k : ℕ) (header : Bytes) (offset total : ℕ) → fragments J k header offset total [] ≡ []
  unfolding fragments
  fragments-nil zero header offset total = refl
  fragments-nil (suc k) header offset total = refl

  -- One round of the reader, given the rounds that follow.
  round :
      (k fuel : ℕ) (fields : Fields) (done chunk after rest : Bytes)
      → unmarshal (marshal fields) ≡ some fields
      → 0 < length (marshal fields)
      → length (marshal fields) ≤ max_header_size
      → 0 < length chunk
      → length chunk ≤ fragment_size
      → length done + length (chunk ++ after) ≤ max_data_size
      → (0 < length after
          → read_message J fuel (record {
            stream =
                fragments J k
                  (marshal fields)
                  (length (done ++ chunk))
                  (length (done ++ chunk) + length after)
                  after
                ++ rest;
            partial = partial_at J fields (done ++ chunk) after;
            accept = true;
          })
            ≡ ok (
              (fields, (done ++ chunk) ++ after),
              record { stream = rest; partial = none; accept = true },
            ))
      → read_message J (suc fuel) (record {
        stream =
            (packet
                (fragment_header J
                  (marshal fields)
                  (length done)
                  (length chunk)
                  (length done + length (chunk ++ after)))
                chunk
                true
              ++ fragments J k
                  (marshal fields)
                  (length done + length chunk)
                  (length done + length (chunk ++ after))
                  after)
            ++ rest;
        partial = partial_at J fields done (chunk ++ after);
        accept = true;
      })
        ≡ ok (
          (fields, done ++ (chunk ++ after)),
          record { stream = rest; partial = none; accept = true },
        )
  unfolding read_message
  round k fuel fields done chunk [] rest parsed some_header short some_data fits small more =
      let tail =
        fragments J k (marshal fields) (length done + length chunk)
          (length done + length (chunk ++ [])) [] in
      rw (
        append_assoc,
        read_packet-fragment J fields done chunk [] (tail ++ rest) parsed some_header short
            some_data fits small,
        append-nil chunk,
        fragments-nil k (marshal fields) (length done + length chunk) (length done + length chunk),
      )
  round k fuel fields done chunk (a ∷ after) rest parsed some_header short some_data fits small
        more =
      let tail =
        fragments J k (marshal fields) (length done + length chunk)
          (length done + length (chunk ++ a ∷ after)) (a ∷ after) in
      let unfinished : (suc (length after) == 0) ≡ false = ground arith in
      let total : length done + length (chunk ++ a ∷ after)
          ≡ length done + length chunk + length (a ∷ after) =
        omega (arith, length-append chunk (a ∷ after)) in
      let begun : (length (done ++ chunk) == 0) ≡ false =
        ground (arith, length-append done chunk) in
      rw
        (
          append_assoc,
          read_packet-fragment J fields done chunk (a ∷ after) (tail ++ rest) parsed some_header
              short some_data fits small,
          unfinished,
          length-append done chunk,
          total,
        )
        (rw (begun, length-append done chunk, append_assoc done chunk (a ∷ after)) at
          (more (omega arith)))

  pub fragments-step :
      (k : ℕ) (header : Bytes) (offset total b : ℕ) (rest : Bytes)
      → let chunk = take (min fragment_size (length (b ∷ rest))) (b ∷ rest) in
        let after = drop (min fragment_size (length (b ∷ rest))) (b ∷ rest) in
        fragments J (suc k) header offset total (b ∷ rest)
        ≡ packet (fragment_header J header offset (length chunk) total) chunk true
          ++ fragments J k header (offset + length chunk) total after
  unfolding fragments
  fragments-step k header offset total b rest =
      let n = min fragment_size (length (b ∷ rest)) in rw (length-take n (b ∷ rest) (omega arith))

  -- The reader's loop over the writer's fragments of `todo`, when `done` has arrived.
  loop :
      (k fuel : ℕ) (fields : Fields) (done todo rest : Bytes)
      → unmarshal (marshal fields) ≡ some fields
      → 0 < length (marshal fields)
      → length (marshal fields) ≤ max_header_size
      → 0 < length todo
      → length todo ≤ k
      → length todo ≤ fuel
      → length done + length todo ≤ max_data_size
      → read_message J fuel (record {
        stream =
            fragments J k (marshal fields) (length done) (length done + length todo) todo ++ rest;
        partial = partial_at J fields done todo;
        accept = true;
      })
        ≡ ok ((fields, done ++ todo), record { stream = rest; partial = none; accept = true })
  loop zero fuel fields done todo rest parsed some_header short some_data kf ff small =
      absurd (omega arith)
  loop (suc k) zero fields done todo rest parsed some_header short some_data kf ff small =
      absurd (omega arith)
  loop (suc k) (suc fuel) fields done [] rest parsed some_header short some_data kf ff small =
      absurd (omega arith)
  loop (suc k) (suc fuel) fields done (b ∷ todo) rest parsed some_header short some_data kf ff
        small =
      let n = min fragment_size (length (b ∷ todo)) in
      let chunk = take n (b ∷ todo) in
      let after = drop n (b ∷ todo) in
      let joined : chunk ++ after ≡ b ∷ todo = take-append-drop n (b ∷ todo) in
      let size : length chunk ≡ n = length-take n (b ∷ todo) (omega arith) in
      let left : length after ≡ length (b ∷ todo) - n = length-drop n (b ∷ todo) in
      let sum : length (chunk ++ after) ≡ length (b ∷ todo) = ap length joined in
      let result =
        round k fuel fields done chunk after rest parsed some_header short (omega arith)
          (omega arith) (omega arith)
          (λ some_after.
            loop k fuel fields (done ++ chunk) after rest parsed some_header short some_after
              (omega arith) (omega arith) (omega (arith, length-append done chunk))) in
      rw (fragments-step k (marshal fields) (length done) (length done + length (b ∷ todo)) b todo)
        (rw joined at result)

  whole_read :
      (fuel : ℕ) (fields : Fields) (content rest : Bytes)
      → unmarshal (marshal fields) ≡ some fields
      → 0 < length (marshal fields)
      → length (marshal fields) ≤ max_header_size
      → length content ≤ max_data_size
      → read_message J (suc fuel) (record {
        stream = packet (marshal fields) content false ++ rest;
        partial = none;
        accept = true;
      })
        ≡ ok ((fields, content), record { stream = rest; partial = none; accept = true })
  unfolding read_message
  whole_read fuel fields content rest parsed some_header short small = rw (
      plain_packet fields content rest (record { stream = rest; partial = none; accept = true })
        parsed some_header short small)

  -- Whatever WriteMessage sends, in one packet or in fragments, ReadMessage gives back as the same
  -- message with the rest of the stream untouched and no partial message left; the reader accepts
  -- fragments, is at a message boundary, and may take more packets than the data has bytes. The
  -- fields' JSON is not empty and is read back as it was written.
  pub read-write_message :
      (fuel : ℕ) (interleave : Bool) (fields : Fields) (content rest sent : Bytes)
      → unmarshal (marshal fields) ≡ some fields
      → 0 < length (marshal fields)
      → write_message J interleave (fields, content) ≡ ok sent
      → length content < fuel
      → read_message J fuel (record { stream = sent ++ rest; partial = none; accept = true })
        ≡ ok ((fields, content), record { stream = rest; partial = none; accept = true })
  unfolding write_message
  read-write_message zero interleave fields content rest sent parsed some_header e f =
      absurd (omega arith)
  read-write_message (suc fuel) interleave fields content rest sent parsed some_header e f =
      elim (Bool-cases (ltb max_header_size (length (marshal fields)))) [
        | inl long ↦ absurd (ground arith)
        | inr short ↦ elim (Bool-cases (ltb max_data_size (length content))) [
          | inl large ↦ absurd (ground arith)
          | inr small ↦ elim (Bool-cases (interleave && ltb fragment_size (length content))) [
            | inl split ↦
                let sent_is : sent
                    ≡ fragments J (length content) (marshal fields) 0 (length content) content =
                  ground arith in
                rw (sent_is) (
                  rw zero-add at (
                    loop (length content) (suc fuel) fields [] content rest parsed some_header
                      (ground arith) (ground arith) (omega arith) (omega arith) (ground arith)))
            | inr joined ↦
                let sent_is : sent ≡ packet (marshal fields) content false = ground arith in
                rw (sent_is) (
                  whole_read fuel fields content rest parsed some_header (ground arith)
                    (ground arith))
          ]
        ]
      ]
