-- ===== src/Nat/Pcp.antt =====
-- internal/natmap/pcp.go: durationSeconds, marshalPCPMapRequest and parsePCPMapResponse. Of net/netip
-- it has the addresses without zones, as the functions get them.
use yudesk.Base.{
  ℕ, ◌+◌, ◌-◌, ◌*◌, ◌/◌, ◌%◌, ◌^◌, Bool, true, false, not, ◌&&◌, ◌||◌, Option, none, some, [], ◌∷◌,
  ◌++◌, ltb, ◌==◌, if◌then◌else◌, same, length, take, drop,
}
use yudesk.Protocol.Wire.{Bytes, put_u32, get_u32, zeros}

-- `netip.Addr`: the zero value, four bytes or sixteen.
pub data Address : Type 0 where
  no_address : Address
  v4 v6 : Bytes → Address

-- The beginning of an IPv4 address among the sixteen bytes.
abbrev pub v4_prefix : Bytes
v4_prefix = zeros 10 ++ 255 ∷ 255 ∷ []

-- `Unmap`
unfoldable pub unmap : Address → Address
unmap (v6 address) = if same (take 12 address) v4_prefix then v4 (drop 12 address) else v6 address
unmap address = address

-- `As16`
abbrev pub as_16 : Address → Bytes
as_16 no_address = zeros 16
as_16 (v4 address) = v4_prefix ++ address
as_16 (v6 address) = address

-- `IsUnspecified`
abbrev pub is_unspecified : Address → Bool
is_unspecified no_address = false
is_unspecified (v4 address) = same address (zeros 4)
is_unspecified (v6 address) = same address (zeros 16)

abbrev pub is_no_address : Address → Bool
is_no_address no_address = true
is_no_address (v4 address) = false
is_no_address (v6 address) = false

-- `binary.BigEndian.PutUint16` and `Uint16`
unfoldable pub put_u16 : ℕ → Bytes
put_u16 n = n / 2 ^ 8 % 256 ∷ n % 256 ∷ []

unfoldable pub get_u16 : Bytes → ℕ
get_u16 (a ∷ b ∷ rest) = a * 2 ^ 8 + b
get_u16 _ = 0

-- `packet[i]`
abbrev pub byte_at : ℕ → Bytes → ℕ
byte_at i packet = elim (drop i packet) [ [] ↦ 0 | b ∷ rest ↦ b ]

abbrev pub packet_size : ℕ
packet_size = 60

-- `durationSeconds`, of a duration in nanoseconds that is not negative
unfoldable pub duration_seconds : ℕ → ℕ
duration_seconds value =
    let seconds = value / 1_000_000_000 in
    if seconds == 0 then 1 else if ltb (2 ^ 32 - 1) seconds then 2 ^ 32 - 1 else seconds

-- `marshalPCPMapRequest`
unfoldable pub marshal_request : Address → ℕ → ℕ → ℕ → Bytes → Option Bytes
marshal_request client internal_port external_port lifetime nonce =
    let address = unmap client in
    if is_no_address address || internal_port == 0
    then none
    else some (
        (2 ∷ 1 ∷ 0 ∷ 0 ∷ [])
        ++ put_u32 lifetime
        ++ as_16 address
        ++ nonce
        ++ (17 ∷ 0 ∷ 0 ∷ 0 ∷ [])
        ++ put_u16 internal_port
        ++ put_u16 external_port
        ++ zeros 16)

-- `pcpMapReply`
pub record MapReply : Type 0 where
  pub lifetime : ℕ
  pub external_ip : Address
  pub external_port : ℕ

pub data PcpError : Type 0 where
  short_response unexpected_opcode mismatch empty_mapping : PcpError
  result_code : ℕ → PcpError

pub data Parsed : Type 0 where
  accepted_reply : MapReply → Parsed
  refused_reply : PcpError → Parsed

-- What the packet grants.
abbrev pub reply_of : Bytes → MapReply
reply_of packet = record {
  lifetime = get_u32 (take 4 (drop 4 packet));
  external_ip = unmap (v6 (take 16 (drop 44 packet)));
  external_port = get_u16 (take 2 (drop 42 packet));
}

-- `parsePCPMapResponse`
unfoldable pub parse_response : Bytes → ℕ → ℕ → Bytes → Parsed
parse_response packet internal_port requested nonce =
    let reply = reply_of packet in
    if ltb (length packet) packet_size
    then refused_reply short_response
    else if not (byte_at 0 packet == 2) || not (byte_at 1 packet == 129)
    then refused_reply unexpected_opcode
    else if not (byte_at 3 packet == 0)
    then refused_reply (result_code (byte_at 3 packet))
    else if not (same (take 12 (drop 24 packet)) nonce)
        || (not (byte_at 36 packet == 17)
            || not (get_u16 (take 2 (drop 40 packet)) == internal_port))
    then refused_reply mismatch
    else if not (requested == 0)
        && (is_no_address reply.external_ip
            || (is_unspecified reply.external_ip
                || (reply.external_port == 0 || reply.lifetime == 0)))
    then refused_reply empty_mapping
    else accepted_reply reply
