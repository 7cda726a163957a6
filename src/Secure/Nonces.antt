-- ===== src/Secure/Nonces.antt =====
-- A key never seals two records under one nonce.
use yudesk.Base.{
  ℕ, zero, suc, ◌+◌, ◌*◌, ◌^◌, ◌≤◌, ◌<◌, ◌≡◌, ◌≢◌, ◌∙◌, refl, sym, ap, subst, Bool, true, not,
  Option, none, some, List, [], ◌∷◌, ◌++◌, min, arith, ◌==◌, length, take, drop, take-append-drop,
  Bool-cases, Option-cases, inl, inr, ==_refl, same, same→≡, all_of, map,
}
use mathlib.Core.List.{append-nil}
use yudesk.Protocol.Wire.{Bytes, put_u32, get_u32, zeros}
use yudesk.Secure.Records.{
  Aead, Sent, Flushed, RecordWriter, Written, WriteError, write_full, write_loop, write_unless,
  join_written, conn_write, conn_writes, advance, sealed_record, last_sequence, put_u64,
  record_nonce, max_record,
}

-- The number and the text of one Seal.
abbrev pub Seal : Type 0
Seal = ℕ × Bytes

-- Numbers that rise strictly, from `low` on and below `high`.
abbrev pub Rising : ℕ → List Seal → ℕ → Type 0
Rising low [] high = low ≤ high
Rising low (x ∷ xs) high = (low ≤ x.0) × Rising (suc x.0) xs high

Rising-le : (low high : ℕ) (xs : List Seal) → Rising low xs high → low ≤ high
Rising-le low high [] h = h
Rising-le low high (x ∷ xs) h = let more = Rising-le (suc x.0) high xs h.1 in omega arith

Rising-append :
    (a b c d : ℕ) (xs ys : List Seal)
    → Rising a xs b
    → b ≤ c
    → Rising c ys d
    → Rising a (xs ++ ys) d
Rising-append a b c d [] [] h le k = omega arith
Rising-append a b c d [] (y ∷ ys) h le k = (omega arith, k.1)
Rising-append a b c d (x ∷ xs) ys h le k = (h.0, Rising-append (suc x.0) b c d xs ys h.1 le k)

pub write_full-whole :
    (payload : Bytes) (sents : List Sent)
    → (write_full payload sents).error ≡ none
    → (write_full payload sents).wire ≡ payload
unfolding write_full
write_full-whole [] sents h = refl
write_full-whole (b ∷ payload) [] h = refl
write_full-whole (b ∷ payload) (s ∷ sents) h =
    let more = write_full-whole (drop s.count (b ∷ payload)) sents in
    let joined = take-append-drop s.count (b ∷ payload) in ground (arith, more, joined)

abbrev pub get_u64 : Bytes → ℕ
get_u64 bytes = get_u32 bytes * 2 ^ 32 + get_u32 (drop 4 bytes)

get-put_u64 : (n : ℕ) → n < 2 ^ 64 → get_u64 (put_u64 n) ≡ n
unfolding put_u64 put_u32 get_u32
get-put_u64 n h = omega arith

record_nonce-inj : (m n : ℕ) → m < 2 ^ 64 → n < 2 ^ 64 → record_nonce m ≡ record_nonce n → m ≡ n
unfolding record_nonce zeros
record_nonce-inj m n h k e =
    sym (get-put_u64 m h) ∙ ap (λ bytes. get_u64 (drop 4 bytes)) e ∙ get-put_u64 n k

-- No two of these byte strings are the same.
abbrev pub AreDistinct : List Bytes → Type 0
AreDistinct [] = Unit {0}
AreDistinct (x ∷ xs) = (all_of (λ y. not (same x y)) xs ≡ true) × AreDistinct xs

abbrev pub nonces : List Seal → List Bytes
nonces seals = map (λ seal. record_nonce seal.0) seals

Rising-apart :
    (x low high : ℕ) (xs : List Seal)
    → x < low
    → high ≤ 2 ^ 64
    → Rising low xs high
    → all_of (λ y. not (same (record_nonce x) y)) (nonces xs) ≡ true
Rising-apart x low high [] lt le h = refl
Rising-apart x low high ((y, text) ∷ ys) lt le h =
    elim (Bool-cases (same (record_nonce x) (record_nonce y))) [
      | inr apart ↦ rw apart (Rising-apart x (suc y) high ys (omega arith) le h.1)
      | inl equal ↦
          let below = Rising-le (suc y) high ys h.1 in
          let e =
            record_nonce-inj x y (omega arith) (omega arith)
              (same→≡ (record_nonce x) (record_nonce y) equal) in
          absurd (omega arith)
    ]

pub Rising-AreDistinct :
    (low high : ℕ) (xs : List Seal) → high ≤ 2 ^ 64 → Rising low xs high → AreDistinct (nonces xs)
Rising-AreDistinct low high [] le h = tt
Rising-AreDistinct low high ((x, text) ∷ xs) le h =
    (Rising-apart x (suc x) high xs (omega arith) le h.1, Rising-AreDistinct (suc x) high xs le h.1)

-- What a write leaves behind, as far as nonces go.
pub record Climbs (w : RecordWriter) (seals : List Seal) (w' : RecordWriter) : Type 0 where
  pub high : ℕ
  pub rising : Rising w.sequence seals high
  pub in_range : high ≤ 2 ^ 64
  goes_on : w'.failure ≡ none → high ≤ w'.sequence
  valid : w'.sequence ≤ last_sequence

advance-whole :
    (w : RecordWriter) (error : Option WriteError)
    → w.failure ≡ none
    → w.sequence ≤ last_sequence
    → ((advance true error w).failure ≡ none → (advance true error w).sequence ≡ w.sequence + 1)
      × ((advance true error w).sequence ≤ last_sequence)
unfolding advance
advance-whole w none fine low = ground arith
advance-whole w (some e) fine low = ground arith

pub advance-partial :
    (w : RecordWriter) (whole : Bool) (e : WriteError)
    → w.sequence ≤ last_sequence
    → ((advance whole (some e) w).failure ≡ some e)
      × ((advance whole (some e) w).sequence ≤ last_sequence)
unfolding advance
advance-partial w whole e low = ground arith

still : (w : RecordWriter) → w.sequence ≤ last_sequence → Climbs w [] w
still w low = record {
  high = w.sequence;
  rising = omega arith;
  in_range = omega arith;
  goes_on = λ h. omega arith;
  valid = low;
}

add-one : (n : ℕ) → n + 1 ≡ suc n
add-one n = omega arith

pub none-ne-some {ℓ} : {A : Type ℓ} {a : A} → none ≢ some a
none-ne-some h = cc

module _ (cipher : Aead) where
  unless_silent :
      (o : Option WriteError) (next : Written cipher) (sents : List Sent) (w : RecordWriter)
      {e : WriteError}
      → o ≡ some e
      → ((write_unless cipher o next sents w).seals ≡ [])
        × ((write_unless cipher o next sents w).writer ≡ w)
  unfolding write_unless
  unless_silent none next sents w h = absurd (none-ne-some h)
  unless_silent (some e) next sents w h = (refl, refl)

  pub broken-silent :
      (fuel : ℕ) (text : Bytes) (sents : List Sent) (w : RecordWriter) {e : WriteError}
      → w.failure ≡ some e
      → ((write_loop cipher fuel text sents w).seals ≡ [])
        × ((write_loop cipher fuel text sents w).writer ≡ w)
  unfolding write_loop
  broken-silent zero text sents w h = (refl, refl)
  broken-silent (suc fuel) [] sents w h = (refl, refl)
  broken-silent (suc fuel) (b ∷ text) sents w {e} h = unless_silent w.failure _ sents w h

  -- After a record that went out whole, the rest of the text climbs on from the next number.
  step-Climbs :
      (w w' : RecordWriter) (text : Bytes) (seals : List Seal) (last : RecordWriter)
      → w.sequence ≤ last_sequence
      → (w'.failure ≡ none → w'.sequence ≡ w.sequence + 1)
      → ((e : WriteError) → w'.failure ≡ some e → (seals ≡ []) × (last ≡ w'))
      → w'.sequence ≤ last_sequence
      → Climbs w' seals last
      → Climbs w ((w.sequence, text) ∷ seals) last
  step-Climbs w w' text seals last low next silent low' more = elim (Option-cases w'.failure) [
    | inl fine ↦ record {
      high = more.high;
      rising = (omega arith, rw (next fine ∙ add-one w.sequence) at more.rising);
      in_range = more.in_range;
      goes_on = more.goes_on;
      valid = more.valid;
    }
    | inr (e, broken) ↦
        let (nothing, same_writer) = silent e broken in
        record {
          high = suc w.sequence;
          rising = rw nothing (omega arith, omega arith);
          in_range = omega arith;
          goes_on = λ h.
              absurd
                (none-ne-some (sym h ∙ ap (λ (x : RecordWriter). x.failure) same_writer ∙ broken));
          valid = more.valid;
        }
  ]

  abbrev Good : RecordWriter → Written cipher → Type 0
  Good w r = Climbs w r.seals r.writer

  unless-Good :
      (o : Option WriteError) (next : Written cipher) (sents : List Sent) (w : RecordWriter)
      → w.sequence ≤ last_sequence
      → (o ≡ none → Good w next)
      → Good w (write_unless cipher o next sents w)
  unfolding write_unless
  unless-Good none next sents w low good = good refl
  unless-Good (some e) next sents w low good = still w low

  join-Good :
      (o : Option WriteError) (text : Bytes) (size : ℕ) (whole : Bool) (out : Flushed)
      (w w' : RecordWriter) (more : Written cipher)
      → w.sequence ≤ last_sequence
      → ((e : WriteError) → o ≡ some e → (w'.failure ≡ some e) × (w'.sequence ≤ last_sequence))
      → (o ≡ none → Climbs w ((w.sequence, text) ∷ more.seals) more.writer)
      → Good w (join_written cipher o (w.sequence, text) size whole out w' more)
  unfolding join_written
  join-Good none text size whole out w w' more low stuck good = good refl
  join-Good (some e) text size whole out w w' more low stuck good =
      let (broken, low') = stuck e refl in
      record {
        high = suc w.sequence;
        rising = (omega arith, omega arith);
        in_range = omega arith;
        goes_on = λ h. absurd (none-ne-some (sym h ∙ broken));
        valid = low';
      }

  write_loop-Good :
      (fuel : ℕ) (text : Bytes) (sents : List Sent) (w : RecordWriter)
      → w.sequence ≤ last_sequence
      → Good w (write_loop cipher fuel text sents w)
  unfolding write_loop
  write_loop-Good zero text sents w low = still w low
  write_loop-Good (suc fuel) [] sents w low = still w low
  write_loop-Good (suc fuel) (b ∷ text) sents w low =
      let size = min (length (b ∷ text)) max_record in
      let packet = sealed_record cipher w.sequence (take size (b ∷ text)) in
      let out = write_full packet sents in
      let whole = length out.wire == length packet in
      let w' = advance whole out.error w in
      let more = write_loop cipher fuel (drop size (b ∷ text)) out.rest w' in
      unless-Good w.failure _ sents w low (λ fine.
        join-Good out.error (take size (b ∷ text)) size whole out w w' more low
          (λ e failed. rw failed (advance-partial w whole e low))
          (λ sent.
            let whole_is : (whole ≡ true) =
              ap (λ (x : Bytes). length x == length packet) (write_full-whole packet sents sent)
              ∙ ==_refl (length packet) in
            let (next, low') = advance-whole w out.error fine low in
            let w'_is : (advance true out.error w ≡ w') =
              ap (λ b. advance b out.error w) (sym whole_is) in
            let next' =
              subst (λ (x : RecordWriter). x.failure ≡ none → x.sequence ≡ w.sequence + 1) w'_is
                next in
            let low'' = subst (λ (x : RecordWriter). x.sequence ≤ last_sequence) w'_is low' in
            step-Climbs w w' (take size (b ∷ text)) more.seals more.writer low next'
              (λ e broken. broken-silent fuel (drop size (b ∷ text)) out.rest w' broken) low''
              (write_loop-Good fuel (drop size (b ∷ text)) out.rest w' low'')))

  Climbs-append :
      (w w' w'' : RecordWriter) (xs ys : List Seal)
      → (w'.failure ≡ none → Climbs w' ys w'')
      → ((e : WriteError) → w'.failure ≡ some e → (ys ≡ []) × (w'' ≡ w'))
      → Climbs w xs w'
      → Climbs w (xs ++ ys) w''
  Climbs-append w w' w'' xs ys more silent first = elim (Option-cases w'.failure) [
    | inl fine ↦
        let next = more fine in
        record {
          high = next.high;
          rising =
              Rising-append w.sequence first.high w'.sequence next.high xs ys first.rising
                (first.goes_on fine) next.rising;
          in_range = next.in_range;
          goes_on = next.goes_on;
          valid = next.valid;
        }
    | inr (e, broken) ↦
        let (nothing, unchanged) = silent e broken in
        let same_writer : (Climbs w (xs ++ []) w') = rw (append-nil xs) first in
        rw (nothing, unchanged) same_writer
  ]

  pub conn_writes-silent :
      (calls : List (Bytes × List Sent)) (w : RecordWriter) {e : WriteError}
      → w.failure ≡ some e
      → ((conn_writes cipher calls w).1 ≡ []) × ((conn_writes cipher calls w).0 ≡ w)
  unfolding conn_writes conn_write
  conn_writes-silent [] w h = (refl, refl)
  conn_writes-silent ((text, sents) ∷ calls) w h =
      let (quiet, unchanged) = broken-silent (length text) text sents w h in
      let broken = ap (λ (x : RecordWriter). x.failure) unchanged ∙ h in
      let (quiet', unchanged') =
        conn_writes-silent calls (conn_write cipher text sents w).writer broken in
      (rw (quiet, quiet') refl, unchanged' ∙ unchanged)

  pub conn_writes-Climbs :
      (calls : List (Bytes × List Sent)) (w : RecordWriter)
      → w.sequence ≤ last_sequence
      → Climbs w (conn_writes cipher calls w).1 (conn_writes cipher calls w).0
  unfolding conn_writes conn_write
  conn_writes-Climbs [] w low = still w low
  conn_writes-Climbs ((text, sents) ∷ calls) w low =
      let first = write_loop-Good (length text) text sents w low in
      let w' = (conn_write cipher text sents w).writer in
      Climbs-append w w' (conn_writes cipher calls w').0 (conn_write cipher text sents w).seals
        (conn_writes cipher calls w').1 (λ fine. conn_writes-Climbs calls w' first.valid)
        (λ e broken. conn_writes-silent calls w' broken) first
