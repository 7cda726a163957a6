-- ===== src/Nat/Answer.antt =====
-- What the parser takes for an answer.
use yudesk.Base.{
  ℕ, ◌≤◌, ◌<◌, ◌≡◌, refl, true, false, not, ◌&&◌, ◌||◌, Bool, arith, ◌≢◌, inl, inr, ltb, ◌==◌, same,
  same→≡, same_refl, ==_refl, length, take, drop, Bool-cases,
}
use yudesk.Protocol.Wire.{Bytes}
use yudesk.Nat.Pcp.{
  v6, unmap, v4_prefix, is_unspecified, is_no_address, get_u16, byte_at, packet_size, MapReply,
  accepted_reply, reply_of, parse_response,
}

-- A packet that answers a request for this port with this nonce.
pub record IsAnswer (packet : Bytes) (internal_port requested : ℕ) (nonce : Bytes) : Type 0 where
  pub long : packet_size ≤ length packet
  pub version : byte_at 0 packet ≡ 2
  pub opcode : byte_at 1 packet ≡ 129
  pub success : byte_at 3 packet ≡ 0
  pub same_nonce : take 12 (drop 24 packet) ≡ nonce
  pub is_udp : byte_at 36 packet ≡ 17
  pub same_port : get_u16 (take 2 (drop 40 packet)) ≡ internal_port
  -- a mapping that was asked for is there
  pub mapped :
      requested ≢ 0
      → (is_unspecified (reply_of packet).external_ip ≡ false)
        × (0 < (reply_of packet).external_port)
        × (0 < (reply_of packet).lifetime)

unmap_v6 : (address : Bytes) → is_no_address (unmap (v6 address)) ≡ false
unfolding unmap
unmap_v6 address = elim (Bool-cases (same (take 12 address) v4_prefix)) [
  | inl old ↦ rw old refl
  | inr new ↦ rw new refl
]

abbrev is_empty : MapReply → Bool
is_empty reply =
    is_no_address reply.external_ip
    || (is_unspecified reply.external_ip || (reply.external_port == 0 || reply.lifetime == 0))

equal_one : (a x : ℕ) → not (a == x) ≡ false → a ≡ x
equal_one a x h = ground arith

full_size : (n k : ℕ) → ltb n k ≡ false → k ≤ n
full_size n k h = ground arith

equal_two : (a b x y : ℕ) → (not (a == x) || not (b == y)) ≡ false → (a ≡ x) × (b ≡ y)
equal_two a b x y h = ground arith

passed : (s t : Bool) → (not s || t) ≡ false → (s ≡ true) × (t ≡ false)
passed s t h = ground arith

nonempty :
    (q p l : ℕ) (n u : Bool)
    → (not (q == 0) && (n || (u || (p == 0 || l == 0)))) ≡ false
    → q ≢ 0
    → (u ≡ false) × (0 < p) × (0 < l)
nonempty q p l n u h asked = ground arith

pub parsed :
    (packet : Bytes) (internal_port requested : ℕ) (nonce : Bytes) (reply : MapReply)
    → parse_response packet internal_port requested nonce ≡ accepted_reply reply
    → (reply ≡ reply_of packet) × IsAnswer packet internal_port requested nonce
unfolding parse_response
parsed packet internal_port requested nonce reply e =
    elim (Bool-cases (ltb (length packet) packet_size)) [
      | inl short ↦ absurd (ground arith)
      | inr long ↦
          elim (Bool-cases (not (byte_at 0 packet == 2) || not (byte_at 1 packet == 129))) [
            | inl foreign ↦ absurd (ground arith)
            | inr opcode ↦ elim (Bool-cases (not (byte_at 3 packet == 0))) [
              | inl failed ↦ absurd (ground arith)
              | inr success ↦
                  elim (Bool-cases (
                    not (same (take 12 (drop 24 packet)) nonce)
                    || (not (byte_at 36 packet == 17)
                        || not (get_u16 (take 2 (drop 40 packet)) == internal_port)))) [
                          | inl other ↦ absurd (ground arith)
                          | inr matching ↦
                              elim (Bool-cases
                                (not (requested == 0) && is_empty (reply_of packet))) [
                                  | inl empty ↦ absurd (ground arith)
                                  | inr mapped ↦
                                      let step : (parse_response packet internal_port requested
                                            nonce
                                          ≡ accepted_reply (reply_of packet)) =
                                        rw (parse_response, long, opcode, success, matching, mapped)
                                          refl in
                                      let (version, is_reply) =
                                        equal_two (byte_at 0 packet) (byte_at 1 packet) 2 129
                                          opcode in
                                      let (is_nonce, ports) = passed _ _ matching in
                                      let (is_udp, same_port) =
                                        equal_two (byte_at 36 packet)
                                          (get_u16 (take 2 (drop 40 packet))) 17 internal_port
                                          ports in
                                      (
                                        (cc),
                                        record {
                                          long = full_size (length packet) packet_size long;
                                          version = version;
                                          opcode = is_reply;
                                          success = equal_one (byte_at 3 packet) 0 success;
                                          same_nonce = same→≡ _ _ is_nonce;
                                          is_udp = is_udp;
                                          same_port = same_port;
                                          mapped = nonempty requested _ _ _ _ mapped;
                                        },
                                      )
                                ]
                        ]
            ]
          ]
    ]

pub answered :
    (packet : Bytes) (internal_port requested : ℕ) (nonce : Bytes)
    → IsAnswer packet internal_port requested nonce
    → parse_response packet internal_port requested nonce ≡ accepted_reply (reply_of packet)
unfolding parse_response
answered packet internal_port requested nonce a =
    let long : (ltb (length packet) packet_size ≡ false) = ground (arith, a.long) in
    let opcode : ((not (byte_at 0 packet == 2) || not (byte_at 1 packet == 129)) ≡ false) =
      rw (a.version, a.opcode) refl in
    let success : (not (byte_at 3 packet == 0) ≡ false) = rw a.success refl in
    let matching : ((not (same (take 12 (drop 24 packet)) nonce)
          || (not (byte_at 36 packet == 17)
              || not (get_u16 (take 2 (drop 40 packet)) == internal_port)))
        ≡ false) =
      rw (a.same_nonce, same_refl nonce, a.is_udp, a.same_port, ==_refl internal_port) refl in
    let mapped : ((not (requested == 0) && is_empty (reply_of packet)) ≡ false) =
      elim (Bool-cases (requested == 0)) [
        | inl released ↦ rw released refl
        | inr asked ↦
            let (specified, port, lifetime) = a.mapped (ground arith) in
            let there = unmap_v6 (take 16 (drop 44 packet)) in ground arith
      ] in
    rw (parse_response, long, opcode, success, matching, mapped) refl
