-- ===== src/Protocol/Wire.antt =====
-- internal/protocol/protocol.go and interleave.go: framing of messages and of their fragments. The
-- JSON of a message's fields is a parameter; buffering and pacing do not change the bytes.
use yudesk.Base.{
  ℕ, zero, suc, ◌+◌, ◌-◌, ◌*◌, ◌/◌, ◌%◌, ◌^◌, Bool, true, false, not, ◌&&◌, ◌||◌, Option, none,
  some, List, [], ◌∷◌, ◌++◌, min, ltb, leb, ◌==◌, if◌then◌else◌, length, take, drop,
}

abbrev pub Bytes : Type 0
Bytes = List ℕ

-- `json.Marshal` and `json.Unmarshal` on a message without its data.
pub record Codec : Type 1 where
  pub Fields : Type 0
  pub marshal : Fields → Bytes
  pub unmarshal : Bytes → Option Fields

pub data WireError : Type 0 where
  short_read unnegotiated invalid_sizes bad_json bad_fragment : WireError
  header_too_large data_too_large : WireError

pub data Wire {ℓ} (A : Type ℓ) : Type ℓ where
  ok : A → Wire A
  err : WireError → Wire A

infixl 5 ◌>>=◌
abbrev pub ◌>>=◌ {ℓ κ} : {A : Type ℓ} {B : Type κ} → Wire A → (A → Wire B) → Wire B
ok a >>= f = f a
err e >>= f = err e

abbrev pub or_fail {ℓ} : {A : Type ℓ} → Option A → WireError → Wire A
or_fail none e = err e
or_fail (some a) e = ok a

abbrev pub max_header_size : ℕ
max_header_size = 2 ^ 20

abbrev pub max_data_size : ℕ
max_data_size = 32 * 2 ^ 20

abbrev pub fragment_flag : ℕ
fragment_flag = 2 ^ 31

abbrev pub fragment_size : ℕ
fragment_size = 8192

abbrev pub fragment_header_size : ℕ
fragment_header_size = 9

-- `binary.BigEndian.PutUint32`
unfoldable pub put_u32 : ℕ → Bytes
put_u32 n = n / 2 ^ 24 % 256 ∷ n / 2 ^ 16 % 256 ∷ n / 2 ^ 8 % 256 ∷ n % 256 ∷ []

-- `binary.BigEndian.Uint32`, of the first four bytes
unfoldable pub get_u32 : Bytes → ℕ
get_u32 (a ∷ b ∷ c ∷ d ∷ rest) = a * 2 ^ 24 + b * 2 ^ 16 + c * 2 ^ 8 + d
get_u32 _ = 0

-- The bytes that writePacket sends; `|=` sets a bit that a header's length leaves free.
unfoldable pub packet : Bytes → Bytes → Bool → Bytes
unfolding put_u32
packet header content fragment =
    put_u32 (length header + (if fragment then fragment_flag else 0))
    ++ (put_u32 (length content) ++ (header ++ content))

-- `io.ReadFull`
unfoldable pub read_full : ℕ → Bytes → Wire (Bytes × Bytes)
read_full n stream =
    if leb n (length stream) then ok (take n stream, drop n stream) else err short_read

unfoldable pub zeros : ℕ → Bytes
zeros zero = []
zeros (suc n) = 0 ∷ zeros n

-- `copy` into `p.message.Data[offset:offset+len(chunk)]`
unfoldable pub splice : Bytes → ℕ → Bytes → Bytes
splice whole offset chunk = take offset whole ++ (chunk ++ drop (offset + length chunk) whole)

-- The tests of a fragment's place in the message.
unfoldable pub is_misplaced : ℕ → ℕ → ℕ → ℕ → Bool
is_misplaced flags offset total data_size =
    ltb 3 flags
    || total == 0
    || ltb max_data_size total
    || ltb total offset
    || ltb (total - offset) data_size
    || (if flags / 2 % 2 == 1
        then not (offset + data_size == total)
        else offset + data_size == total)

module _ (J : Codec) where
  open J use {Fields, marshal, unmarshal}

  abbrev pub Message : Type 0
  Message = Fields × Bytes

  -- `partialMessage`
  pub record Partial : Type 0 where
    pub fields : Fields
    pub content : Bytes
    pub received : ℕ

  pub record Reader : Type 0 where
    pub stream : Bytes
    pub partial : Option Partial
    pub accept : Bool

  -- The header of the fragment at `offset` of `total` bytes, of which `n` go with it.
  unfoldable pub fragment_header : Bytes → ℕ → ℕ → ℕ → Bytes
  unfolding put_u32
  fragment_header header offset n total =
      ((if offset == 0 then 1 else 0) + (if offset + n == total then 2 else 0))
      ∷ (put_u32 offset ++ (put_u32 total ++ (if offset == 0 then header else [])))

  -- The loop of writeFragments; `rest` is the data from `offset`, and the fuel is its length.
  unfoldable pub fragments : ℕ → Bytes → ℕ → ℕ → Bytes → Bytes
  unfolding packet fragment_header
  fragments zero header offset total rest = []
  fragments (suc fuel) header offset total [] = []
  fragments (suc fuel) header offset total (b ∷ rest) =
      let n = min fragment_size (length (b ∷ rest)) in
      packet (fragment_header header offset n total) (take n (b ∷ rest)) true
      ++ fragments fuel header (offset + n) total (drop n (b ∷ rest))

  -- `WriteMessage`
  unfoldable pub write_message : Bool → Message → Wire Bytes
  unfolding fragments packet
  write_message interleave (fields, content) =
      let header = marshal fields in
      if ltb max_header_size (length header)
      then err header_too_large
      else if ltb max_data_size (length content)
      then err data_too_large
      else if interleave && ltb fragment_size (length content)
      then ok (fragments (length content) header 0 (length content) content)
      else ok (packet header content false)

  -- What readFragment does with the first fragment and with a later one, before it copies.
  unfoldable pub open_partial : Bool → Bytes → ℕ → ℕ → Option Partial → Wire Partial
  unfolding zeros
  open_partial true extra offset total (some p) = err bad_fragment
  open_partial true extra offset total none =
      if not (offset == 0) || length extra == 0
      then err bad_fragment
      else or_fail (unmarshal extra) bad_json >>= λ fields.
          ok (record { fields = fields; content = zeros total; received = 0 })
  open_partial false extra offset total none = err bad_fragment
  open_partial false extra offset total (some p) =
      if length extra == 0 then ok p else err bad_fragment

  unfoldable pub copy_chunk :
      Bool → ℕ → ℕ → Bytes → Partial → Reader → Wire (Option Message × Reader)
  unfolding splice
  copy_chunk last offset total chunk p r =
      if not (p.received == offset) || not (length p.content == total)
      then err bad_fragment
      else let content = splice p.content offset chunk in
        if last
        then ok (some (p.fields, content), record r { partial = none })
        else ok (
          none,
          record r {
            partial = some (record p { content = content; received = p.received + length chunk });
          },
        )

  -- `readFragment` from its header on.
  unfoldable pub read_chunk : Bytes → ℕ → Reader → Wire (Option Message × Reader)
  read_chunk h data_size r =
      let flags = get_u32 (0 ∷ 0 ∷ 0 ∷ h) in
      let offset = get_u32 (drop 1 h) in
      let total = get_u32 (drop 5 h) in
      if is_misplaced flags offset total data_size
      then err bad_fragment
      else open_partial (flags % 2 == 1) (drop 9 h) offset total r.partial >>= λ p.
          read_full data_size r.stream >>= λ chunk.
          copy_chunk (flags / 2 % 2 == 1) offset total chunk.0 p (record r { stream = chunk.1 })

  -- `readFragment`
  unfoldable pub read_fragment : ℕ → ℕ → Reader → Wire (Option Message × Reader)
  read_fragment header_size data_size r =
      if ltb header_size fragment_header_size
        || ltb (max_header_size + fragment_header_size) header_size
        || data_size == 0
        || ltb fragment_size data_size
      then err bad_fragment
      else read_full header_size r.stream >>= λ h.
          read_chunk h.0 data_size (record r { stream = h.1 })

  -- `readPacket` for a message that comes whole.
  unfoldable pub read_whole : ℕ → ℕ → Reader → Wire (Option Message × Reader)
  read_whole header_size data_size r =
      if header_size == 0 || ltb max_header_size header_size || ltb max_data_size data_size
      then err invalid_sizes
      else read_full header_size r.stream >>= λ h. or_fail (unmarshal h.0) bad_json >>= λ fields.
          read_full data_size h.1 >>= λ content.
          ok (some (fields, content.0), record r { stream = content.1 })

  -- `readPacket`
  unfoldable pub read_packet : Reader → Wire (Option Message × Reader)
  read_packet r = read_full 8 r.stream >>= λ s.
      let header_size = get_u32 s.0 in
      let data_size = get_u32 (drop 4 s.0) in
      if leb fragment_flag header_size
      then if not r.accept
        then err unnegotiated
        else read_fragment (header_size - fragment_flag) data_size (record r { stream = s.1 })
      else read_whole header_size data_size (record r { stream = s.1 })

  -- `ReadMessage`: packets until one completes a message; every packet takes bytes from the stream.
  unfoldable pub read_message : ℕ → Reader → Wire (Message × Reader)
  unfolding read_packet
  read_message zero r = err short_read
  read_message (suc fuel) r =
      read_packet r >>= λ x. elim x.0 [ some m ↦ ok (m, x.1) | none ↦ read_message fuel x.1 ]
