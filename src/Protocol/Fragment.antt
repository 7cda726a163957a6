-- ===== src/Protocol/Fragment.antt =====
-- One fragment, from the bytes that writeFragments sends to what readFragment makes of them.
use yudesk.Base.{
  ℕ, suc, ◌+◌, ◌-◌, ◌/◌, ◌%◌, ◌^◌, ◌≤◌, ◌<◌, ◌≡◌, refl, ◌∙◌, true, false, ◌||◌, Option, none, some,
  [], ◌∷◌, ◌++◌, arith, ltb, leb, ◌==◌, ==_refl, if◌then◌else◌, length, drop, length-append,
  Bool-cases, inl, inr,
}
use mathlib.Core.List.{append-nil}
use native.Mathlib.Nat.{zero-add}
use yudesk.Protocol.Wire.{
  Bytes, Codec, ok, max_header_size, max_data_size, fragment_flag, fragment_size,
  fragment_header_size, put_u32, get_u32, packet, zeros, Partial, Reader, fragment_header,
  open_partial, copy_chunk, read_fragment, read_chunk, is_misplaced, read_packet,
}
use yudesk.Protocol.Bytes.{
  get-put_u32, read_full-append, sizes, packet-append, length-sizes, get-sizes, length-zeros,
  splice-next,
}

abbrev flags_of : ℕ → ℕ → ℕ → ℕ
flags_of offset n total = (if offset == 0 then 1 else 0) + (if offset + n == total then 2 else 0)

first_flag : (offset n total : ℕ) → (flags_of offset n total % 2 == 1) ≡ (offset == 0)
first_flag offset n total = ground arith

last_flag : (offset n total : ℕ) → (flags_of offset n total / 2 % 2 == 1) ≡ (offset + n == total)
last_flag offset n total = ground arith

in_place :
    (offset n total : ℕ)
    → 0 < n
    → offset + n ≤ total
    → total ≤ max_data_size
    → is_misplaced (flags_of offset n total) offset total n ≡ false
unfolding is_misplaced
in_place offset n total some_data fits small = ground arith

module _ (J : Codec) where
  open J use {Fields, marshal, unmarshal}

  -- What the reader holds when `done` has arrived and `todo` has not.
  abbrev pub partial_at : Fields → Bytes → Bytes → Option (Partial J)
  partial_at fields done todo =
      if length done == 0
      then none
      else some (record {
        fields = fields;
        content = done ++ zeros (length todo);
        received = length done;
      })

  abbrev extra_at : Bytes → ℕ → Bytes
  extra_at header offset = if offset == 0 then header else []

  length-fragment_header :
      (header : Bytes) (offset n total : ℕ)
      → length (fragment_header J header offset n total) ≡ 9 + length (extra_at header offset)
  unfolding fragment_header put_u32
  length-fragment_header header offset n total = omega arith

  header_flags :
      (header : Bytes) (offset n total : ℕ)
      → get_u32 (0 ∷ 0 ∷ 0 ∷ fragment_header J header offset n total) ≡ flags_of offset n total
  unfolding fragment_header get_u32
  header_flags header offset n total = omega arith

  header_offset :
      (header : Bytes) (offset n total : ℕ)
      → offset < 2 ^ 32
      → get_u32 (drop 1 (fragment_header J header offset n total)) ≡ offset
  unfolding fragment_header
  header_offset header offset n total h = get-put_u32 offset _ h

  header_total :
      (header : Bytes) (offset n total : ℕ)
      → total < 2 ^ 32
      → get_u32 (drop 5 (fragment_header J header offset n total)) ≡ total
  unfolding fragment_header put_u32
  header_total header offset n total h = get-put_u32 total _ h

  header_extra :
      (header : Bytes) (offset n total : ℕ)
      → drop 9 (fragment_header J header offset n total) ≡ extra_at header offset
  unfolding fragment_header put_u32
  header_extra header offset n total = refl

  opened :
      (fields : Fields) (done todo : Bytes) (total : ℕ)
      → unmarshal (marshal fields) ≡ some fields
      → 0 < length (marshal fields)
      → total ≡ length done + length todo
      → open_partial J
          (length done == 0)
          (extra_at (marshal fields) (length done))
          (length done)
          total
          (partial_at fields done todo)
        ≡ ok (record {
          fields = fields;
          content = done ++ zeros (length todo);
          received = length done;
        })
  unfolding open_partial
  opened fields [] todo total parsed some_header e = rw (parsed, e, zero-add) (ground arith)
  opened fields (b ∷ done) todo total parsed some_header e =
      let later : (suc (length done) == 0) ≡ false = ground arith in rw later

  copied :
      (fields : Fields) (done chunk after : Bytes) (r : Reader J)
      → copy_chunk J
          (length done + length chunk == length done + length (chunk ++ after))
          (length done)
          (length done + length (chunk ++ after))
          chunk
          (record {
            fields = fields;
            content = done ++ zeros (length (chunk ++ after));
            received = length done;
          })
          r
        ≡ ok (
            if length after == 0
            then (some (fields, done ++ chunk), record r { partial = none })
            else (
              none,
              record r {
                partial = some (record {
                  fields = fields;
                  content = (done ++ chunk) ++ zeros (length after);
                  received = length (done ++ chunk);
                });
              },
            ))
  unfolding copy_chunk zeros
  copied fields done chunk after r =
      let held : length (done ++ zeros (length (chunk ++ after)))
          ≡ length done + length (chunk ++ after) =
        omega (
          arith,
          length-append done (zeros (length (chunk ++ after))),
          length-zeros (length (chunk ++ after)),
        ) in
      let last : (length done + length chunk == length done + length (chunk ++ after))
          ≡ (length after == 0) =
        ground (arith, length-append chunk after) in
      let next = splice-next done chunk (length after) in
      rw
        (
          last,
          ==_refl (length done),
          held,
          ==_refl (length done + length (chunk ++ after)),
          length-append chunk after,
          next,
        )
        (elim (Bool-cases (length after == 0)) [
          | inl complete ↦
              let none_left : zeros (length after) ≡ [] =
                let zero_left : length after ≡ 0 = ground arith in rw zero_left in
              rw (complete, none_left, append-nil (done ++ chunk))
          | inr more ↦ rw (more, length-append done chunk)
        ])

  read_chunk-fragment :
      (fields : Fields) (done chunk after rest : Bytes)
      → unmarshal (marshal fields) ≡ some fields
      → 0 < length (marshal fields)
      → 0 < length chunk
      → length done + length (chunk ++ after) ≤ max_data_size
      → read_chunk J
          (fragment_header J
            (marshal fields)
            (length done)
            (length chunk)
            (length done + length (chunk ++ after)))
          (length chunk)
          (record {
            stream = chunk ++ rest;
            partial = partial_at fields done (chunk ++ after);
            accept = true;
          })
        ≡ ok (
            if length after == 0
            then (
              some (fields, done ++ chunk),
              record { stream = rest; partial = none; accept = true },
            )
            else (
              none,
              record {
                stream = rest;
                partial = some (record {
                  fields = fields;
                  content = (done ++ chunk) ++ zeros (length after);
                  received = length (done ++ chunk);
                });
                accept = true;
              },
            ))
  unfolding read_chunk
  read_chunk-fragment fields done chunk after rest parsed some_header some_data small =
      let header = marshal fields in
      let offset = length done in
      let n = length chunk in
      let total = length done + length (chunk ++ after) in
      let h = fragment_header J header offset n total in
      let placed =
        in_place offset n total some_data (omega (arith, length-append chunk after)) small in
      rw
        (
          header_flags header offset n total,
          header_offset header offset n total (omega arith),
          header_total header offset n total (omega arith),
          header_extra header offset n total,
          placed,
          first_flag offset n total,
          opened fields done (chunk ++ after) total parsed some_header refl,
          read_full-append n chunk rest refl,
          last_flag offset n total,
        )
        (copied fields done chunk after (record {
          stream = rest;
          partial = partial_at fields done (chunk ++ after);
          accept = true;
        }))

  read_fragment-sized :
      (h chunk rest : Bytes) (p : Option (Partial J))
      → 9 ≤ length h
      → length h ≤ 9 + max_header_size
      → 0 < length chunk
      → length chunk ≤ fragment_size
      → read_fragment J
          (length h)
          (length chunk)
          (record { stream = h ++ (chunk ++ rest); partial = p; accept = true })
        ≡ read_chunk J h
            (length chunk)
            (record { stream = chunk ++ rest; partial = p; accept = true })
  unfolding read_fragment
  read_fragment-sized h chunk rest p long short some_data small =
      let fits : (ltb (length h) fragment_header_size
            || ltb (max_header_size + fragment_header_size) (length h)
            || length chunk == 0
            || ltb fragment_size (length chunk))
          ≡ false =
        ground arith in
      rw (fits, read_full-append (length h) h (chunk ++ rest) refl)

  read_packet-flagged :
      (h chunk rest : Bytes) (p : Option (Partial J))
      → 9 ≤ length h
      → length h ≤ 9 + max_header_size
      → 0 < length chunk
      → length chunk ≤ fragment_size
      → read_packet J (record { stream = packet h chunk true ++ rest; partial = p; accept = true })
        ≡ read_chunk J h
            (length chunk)
            (record { stream = chunk ++ rest; partial = p; accept = true })
  unfolding read_packet
  read_packet-flagged h chunk rest p long short some_data small =
      let both = get-sizes h chunk true (omega arith) (omega arith) in
      let flagged : leb fragment_flag (length h + fragment_flag) ≡ true = ground arith in
      let cleared : length h + fragment_flag - fragment_flag ≡ length h = omega arith in
      rw
        (
          packet-append h chunk true rest,
          read_full-append 8 (sizes h chunk true) (h ++ (chunk ++ rest))
              (length-sizes h chunk true),
          both.0,
          both.1,
          flagged,
          cleared,
        )
        (read_fragment-sized h chunk rest p long short some_data small)

  -- A fragment that fits takes the reader from `done` to `done ++ chunk`, and completes the message
  -- if nothing comes after.
  pub read_packet-fragment :
      (fields : Fields) (done chunk after rest : Bytes)
      → unmarshal (marshal fields) ≡ some fields
      → 0 < length (marshal fields)
      → length (marshal fields) ≤ max_header_size
      → 0 < length chunk
      → length chunk ≤ fragment_size
      → length done + length (chunk ++ after) ≤ max_data_size
      → read_packet J (record {
        stream =
            packet
              (fragment_header J
                (marshal fields)
                (length done)
                (length chunk)
                (length done + length (chunk ++ after)))
              chunk
              true
            ++ rest;
        partial = partial_at fields done (chunk ++ after);
        accept = true;
      })
        ≡ ok (
            if length after == 0
            then (
              some (fields, done ++ chunk),
              record { stream = rest; partial = none; accept = true },
            )
            else (
              none,
              record {
                stream = rest;
                partial = some (record {
                  fields = fields;
                  content = (done ++ chunk) ++ zeros (length after);
                  received = length (done ++ chunk);
                });
                accept = true;
              },
            ))
  read_packet-fragment fields done chunk after rest parsed some_header short some_data fits small =
      let total = length done + length (chunk ++ after) in
      let size = length-fragment_header (marshal fields) (length done) (length chunk) total in
      read_packet-flagged (fragment_header J (marshal fields) (length done) (length chunk) total)
        chunk rest (partial_at fields done (chunk ++ after)) (omega arith) (ground arith) some_data
        fits
      ∙ read_chunk-fragment fields done chunk after rest parsed some_header some_data small
