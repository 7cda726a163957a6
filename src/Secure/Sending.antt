-- ===== src/Secure/Sending.antt =====
-- What the Write calls of a connection send: sealed records and nothing else.
use yudesk.Base.{
  ℕ, zero, suc, ◌+◌, ◌≡◌, ◌∙◌, refl, sym, ap, Option, none, some, List, [], ◌∷◌, ◌++◌, min, arith,
  length, take, drop, take-append-drop, Option-cases, inl, inr, ◌==◌, ltb, Bool-cases, Bool, map,
}
use mathlib.Core.List.{append-nil, append_assoc}
use yudesk.Protocol.Wire.{Bytes, put_u32}
use yudesk.Secure.Records.{
  Aead, Sent, Flushed, RecordWriter, Written, WriteError, write_full, write_loop, write_unless,
  join_written, conn_write, conn_writes, new_writer, advance, sealed_record, put_u64, record_nonce,
  max_record,
}
use yudesk.Secure.Nonces.{
  Seal, AreDistinct, Rising-AreDistinct, conn_writes-Climbs, conn_writes-silent, write_full-whole,
  none-ne-some,
}

-- The records of these seals one after the other: the length of the box, and the box.
abbrev pub sealed_wire : Aead → List Seal → Bytes
sealed_wire cipher [] = []
sealed_wire cipher ((sequence, text) ∷ seals) =
    (put_u32 (length text + 16) ++ cipher.seal (record_nonce sequence) text (put_u64 sequence))
    ++ sealed_wire cipher seals

sealed_wire-append :
    (cipher : Aead) (xs ys : List Seal)
    → sealed_wire cipher (xs ++ ys) ≡ sealed_wire cipher xs ++ sealed_wire cipher ys
sealed_wire-append cipher [] ys = refl
sealed_wire-append cipher ((sequence, text) ∷ xs) ys =
    let box : Bytes =
      put_u32 (length text + 16) ++ cipher.seal (record_nonce sequence) text (put_u64 sequence) in
    ap (λ (x : Bytes). box ++ x) (sealed_wire-append cipher xs ys)
    ∙ sym (append_assoc box (sealed_wire cipher xs) (sealed_wire cipher ys))

-- What Write sends of a packet is a beginning of it.
write_full-begins :
    (payload : Bytes) (sents : List Sent)
    → (rest : Bytes) × ((write_full payload sents).wire ++ rest ≡ payload)
unfolding write_full
write_full-begins [] sents = ([], refl)
write_full-begins (b ∷ payload) [] = ([], append-nil (b ∷ payload))
write_full-begins (b ∷ payload) (s ∷ sents) =
    let whole = take-append-drop s.count (b ∷ payload) in
    elim (Bool-cases (ltb (length (b ∷ payload)) s.count)) [
      | inl over ↦ (b ∷ payload, rw over refl)
      | inr within ↦ elim (Bool-cases s.failed) [
        | inl failed ↦ (drop s.count (b ∷ payload), rw (within, failed) whole)
        | inr fine ↦ elim (Bool-cases (s.count == 0)) [
          | inl nothing ↦ (b ∷ payload, rw (within, fine, nothing) refl)
          | inr some_of_it ↦
              let (rest, more) = write_full-begins (drop s.count (b ∷ payload)) sents in
              (
                rest,
                rw (within, fine, some_of_it)
                    (append_assoc (take s.count (b ∷ payload))
                        (write_full (drop s.count (b ∷ payload)) sents).wire rest
                      ∙ ap (λ x. take s.count (b ∷ payload) ++ x) more
                      ∙ whole),
              )
        ]
      ]
    ]

-- The bytes on the wire begin the records of these seals, and are all of them while nothing failed.
record Sends (cipher : Aead) (wire : Bytes) (seals : List Seal) (w : RecordWriter) : Type 0 where
  rest : Bytes
  begins : wire ++ rest ≡ sealed_wire cipher seals
  whole : w.failure ≡ none → wire ≡ sealed_wire cipher seals

advance-failed :
    (whole : Bool) (e : WriteError) (w : RecordWriter) → (advance whole (some e) w).failure ≡ some e
unfolding advance
advance-failed whole e w = refl

nil-append : (xs ys : Bytes) → xs ++ ys ≡ [] → xs ≡ []
nil-append [] ys h = refl
nil-append (x ∷ xs) ys h = cc

module _ (cipher : Aead) where
  abbrev Sound : Written cipher → Type 0
  Sound r = Sends cipher r.wire r.seals r.writer

  nothing : (w : RecordWriter) → Sends cipher [] [] w
  nothing w = record { rest = []; begins = refl; whole = λ h. refl }

  unless-Sound :
      (o : Option WriteError) (next : Written cipher) (sents : List Sent) (w : RecordWriter)
      → Sound next
      → Sound (write_unless cipher o next sents w)
  unfolding write_unless
  unless-Sound none next sents w good = good
  unless-Sound (some e) next sents w good = nothing w

  -- A record that `packet` is, sent whole or cut short by an error.
  join-Sound :
      (o : Option WriteError) (sequence : ℕ) (text : Bytes) (size : ℕ) (whole : Bool)
      (out : Flushed) (w : RecordWriter) (more : Written cipher)
      → (rest : Bytes) × (out.wire ++ rest ≡ sealed_record cipher sequence text)
      → (o ≡ none → out.wire ≡ sealed_record cipher sequence text)
      → ((e : WriteError) → o ≡ some e → w.failure ≡ some e)
      → Sound more
      → Sound (join_written cipher o (sequence, text) size whole out w more)
  unfolding join_written sealed_record
  join-Sound none sequence text size whole out w more part all broken good = record {
    rest = good.rest;
    begins = rw (all refl) (
        append_assoc (sealed_record cipher sequence text) more.wire good.rest
        ∙ ap (λ x. sealed_record cipher sequence text ++ x) good.begins);
    whole =
        λ fine. rw (all refl) (ap (λ x. sealed_record cipher sequence text ++ x) (good.whole fine));
  }
  join-Sound (some e) sequence text size whole out w more part all broken good = record {
    rest = part.0;
    begins = part.1 ∙ sym (append-nil _);
    whole = λ fine. absurd (none-ne-some (sym fine ∙ broken e refl));
  }

  write_loop-Sound :
      (fuel : ℕ) (text : Bytes) (sents : List Sent) (w : RecordWriter)
      → Sound (write_loop cipher fuel text sents w)
  unfolding write_loop
  write_loop-Sound zero text sents w = nothing w
  write_loop-Sound (suc fuel) [] sents w = nothing w
  write_loop-Sound (suc fuel) (b ∷ text) sents w =
      let size = min (length (b ∷ text)) max_record in
      let packet = sealed_record cipher w.sequence (take size (b ∷ text)) in
      let out = write_full packet sents in
      let whole = length out.wire == length packet in
      let w' = advance whole out.error w in
      let more = write_loop cipher fuel (drop size (b ∷ text)) out.rest w' in
      unless-Sound w.failure _ sents w (
        join-Sound out.error w.sequence (take size (b ∷ text)) size whole out w' more
          (write_full-begins packet sents) (write_full-whole packet sents)
          (λ e failed. rw failed (advance-failed whole e w))
          (write_loop-Sound fuel (drop size (b ∷ text)) out.rest w'))

  Sends-append :
      (wire more : Bytes) (xs ys : List Seal) (w' w'' : RecordWriter)
      → Sends cipher wire xs w'
      → Sends cipher more ys w''
      → ((e : WriteError) → w'.failure ≡ some e → (ys ≡ []) × (w'' ≡ w'))
      → Sends cipher (wire ++ more) (xs ++ ys) w''
  Sends-append wire more xs ys w' w'' first second silent = elim (Option-cases w'.failure) [
    | inl fine ↦ record {
      rest = second.rest;
      begins =
          append_assoc wire more second.rest
          ∙ ap (λ x. wire ++ x) second.begins
          ∙ ap (λ x. x ++ sealed_wire cipher ys) (first.whole fine)
          ∙ sym (sealed_wire-append cipher xs ys);
      whole = λ h.
          ap (λ x. wire ++ x) (second.whole h)
          ∙ ap (λ x. x ++ sealed_wire cipher ys) (first.whole fine)
          ∙ sym (sealed_wire-append cipher xs ys);
    }
    | inr (e, broken) ↦
        let (no_seals, unchanged) = silent e broken in
        let quiet =
          nil-append more second.rest (second.begins ∙ ap (sealed_wire cipher) no_seals) in
        record {
          rest = first.rest;
          begins = rw (quiet, no_seals, append-nil wire, append-nil xs) first.begins;
          whole = λ h.
              absurd
                (none-ne-some (sym h ∙ ap (λ (x : RecordWriter). x.failure) unchanged ∙ broken));
        }
  ]

  conn_writes-Sends :
      (calls : List (Bytes × List Sent)) (w : RecordWriter)
      → let (w', seals, wire) = conn_writes cipher calls w in Sends cipher wire seals w'
  unfolding conn_writes conn_write
  conn_writes-Sends [] w = nothing w
  conn_writes-Sends ((text, sents) ∷ calls) w =
      let first = write_loop-Sound (length text) text sents w in
      let written = write_loop cipher (length text) text sents w in
      let (w', seals, wire) = conn_writes cipher calls written.writer in
      Sends-append written.wire wire written.seals seals written.writer w' first
        (conn_writes-Sends calls written.writer)
        (λ e broken. let s = conn_writes-silent cipher calls written.writer broken in (s.0, s.1))

  -- Whatever the Write calls of a connection are given, whatever the connection below returns, and
  -- also when the sequence numbers run out: the bytes that are sent begin a sequence of records, each
  -- sealed, with the number of its nonce as additional data, under a nonce that no other has.
  pub conn_writes-distinct :
      (calls : List (Bytes × List Sent))
      → let (w', seals, wire) = conn_writes cipher calls new_writer in
        AreDistinct (map (λ seal. record_nonce seal.0) seals)
        × (rest : Bytes) × (wire ++ rest ≡ sealed_wire cipher seals)
  conn_writes-distinct calls =
      let climbs = conn_writes-Climbs cipher calls new_writer (omega arith) in
      let sends = conn_writes-Sends calls new_writer in
      (
        Rising-AreDistinct 0 climbs.high (conn_writes cipher calls new_writer).1 climbs.in_range
            climbs.rising,
        sends.rest,
        sends.begins,
      )
