-- ===== src/Nat/Layout.antt =====
-- The parser's answers byte by byte, as RFC 6887 lays them out.
use yudesk.Base.{
  ℕ, zero, suc, ◌+◌, ◌*◌, ◌≤◌, ◌<◌, ◌≡◌, refl, sym, ap, subst, ◌∙◌, false, arith, ◌≢◌, ◌↔◌, [], ◌∷◌,
  ◌++◌, length, take, drop, length-append, length-take, length-drop, take-append-drop,
}
use native.Mathlib.Nat.{suc-add}
use yudesk.Protocol.Wire.{Bytes, get_u32}
use yudesk.Protocol.Bytes.{take-append, drop-append_add}
use yudesk.Nat.Pcp.{
  Address, v6, unmap, is_unspecified, get_u16, byte_at, MapReply, accepted_reply, reply_of,
  parse_response,
}
use yudesk.Nat.Answer.{IsAnswer, parsed, answered}

-- The bytes of a successful MAP answer for UDP with this nonce, and what they grant.
pub record IsGrant (packet : Bytes) (internal_port requested : ℕ) (nonce : Bytes) (reply : MapReply)
    : Type 0 where
  pub reserved : ℕ
  pub l0 : ℕ
  pub l1 : ℕ
  pub l2 : ℕ
  pub l3 : ℕ
  pub epoch : Bytes
  pub r1 : ℕ
  pub r2 : ℕ
  pub r3 : ℕ
  pub i0 : ℕ
  pub i1 : ℕ
  pub e0 : ℕ
  pub e1 : ℕ
  pub address : Bytes
  pub options : Bytes
  pub layout :
      packet
      ≡ 2
        ∷ 129
        ∷ reserved
        ∷ 0
        ∷ l0
        ∷ l1
        ∷ l2
        ∷ l3
        ∷ (epoch ++ (nonce ++ (17 ∷ r1 ∷ r2 ∷ r3 ∷ i0 ∷ i1 ∷ e0 ∷ e1 ∷ (address ++ options))))
  pub epoch_size : length epoch ≡ 16
  pub address_size : length address ≡ 16
  pub port : internal_port ≡ i0 * 256 + i1
  pub lifetime : reply.lifetime ≡ ((l0 * 256 + l1) * 256 + l2) * 256 + l3
  pub external_port : reply.external_port ≡ e0 * 256 + e1
  pub external_ip : reply.external_ip ≡ unmap (v6 address)
  -- a mapping that was asked for is there
  pub mapped :
      requested ≢ 0
      → (is_unspecified reply.external_ip ≡ false)
        × (0 < reply.external_port)
        × (0 < reply.lifetime)

uncons :
    (i : ℕ) (packet : Bytes)
    → i < length packet
    → drop i packet ≡ byte_at i packet ∷ drop (suc i) packet
uncons i [] h = absurd (omega arith)
uncons zero (b ∷ packet) h = refl
uncons (suc i) (b ∷ packet) h = uncons i packet (omega arith)

drop-nil : (n : ℕ) → drop {A = ℕ} n [] ≡ []
drop-nil zero = refl
drop-nil (suc n) = refl

drop-drop : (m n : ℕ) (xs : Bytes) → drop n (drop m xs) ≡ drop (m + n) xs
drop-drop zero n xs = ap (λ k. drop k xs) (omega arith)
drop-drop (suc m) n [] = drop-nil n ∙ sym (drop-nil (suc m + n))
drop-drop (suc m) n (x ∷ xs) = rw (suc-add m n) (drop-drop m n xs)

unblock : (i n : ℕ) (packet : Bytes) → drop i packet ≡ take n (drop i packet) ++ drop (i + n) packet
unblock i n packet =
    sym (take-append-drop n (drop i packet))
    ∙ ap (λ x. take n (drop i packet) ++ x) (drop-drop i n packet)

drop-past : (m n : ℕ) (xs ys : Bytes) → m ≡ length xs + n → drop m (xs ++ ys) ≡ drop n ys
drop-past m n xs ys h = ap (λ k. drop k (xs ++ ys)) h ∙ drop-append_add n xs ys

take-exact : (n : ℕ) (xs ys : Bytes) → n ≡ length xs → take n (xs ++ ys) ≡ xs
take-exact n xs ys h = ap (λ k. take k (xs ++ ys)) h ∙ take-append xs ys

eight_bytes :
    (i : ℕ) (packet : Bytes)
    → i + 7 < length packet
    → drop i packet
      ≡ byte_at i packet
        ∷ byte_at (suc i) packet
        ∷ byte_at (suc (suc i)) packet
        ∷ byte_at (suc (suc (suc i))) packet
        ∷ byte_at (suc (suc (suc (suc i)))) packet
        ∷ byte_at (suc (suc (suc (suc (suc i))))) packet
        ∷ byte_at (suc (suc (suc (suc (suc (suc i)))))) packet
        ∷ byte_at (suc (suc (suc (suc (suc (suc (suc i))))))) packet
        ∷ drop (suc (suc (suc (suc (suc (suc (suc (suc i)))))))) packet
eight_bytes i packet h =
    rw
      (
        uncons i packet (omega arith),
        uncons (suc i) packet (omega arith),
        uncons (suc (suc i)) packet (omega arith),
        uncons (suc (suc (suc i))) packet (omega arith),
        uncons (suc (suc (suc (suc i)))) packet (omega arith),
        uncons (suc (suc (suc (suc (suc i))))) packet (omega arith),
        uncons (suc (suc (suc (suc (suc (suc i)))))) packet (omega arith),
        uncons (suc (suc (suc (suc (suc (suc (suc i))))))) packet (omega arith),
      )
      refl

-- The numbers that the bytes of an answer stand for.
four_of :
    (packet : Bytes)
    → 60 ≤ length packet
    → get_u32 (take 4 (drop 4 packet))
      ≡ ((byte_at 4 packet * 256 + byte_at 5 packet) * 256 + byte_at 6 packet) * 256
        + byte_at 7 packet
unfolding get_u32
four_of packet h = ap (λ x. get_u32 (take 4 x)) (eight_bytes 4 packet (omega arith)) ∙ omega arith

two_of :
    (i : ℕ) (packet : Bytes)
    → i + 7 < length packet
    → get_u16 (take 2 (drop i packet)) ≡ byte_at i packet * 256 + byte_at (suc i) packet
unfolding get_u16
two_of i packet h = ap (λ x. get_u16 (take 2 x)) (eight_bytes i packet h) ∙ omega arith

granted :
    (packet : Bytes) (internal_port requested : ℕ) (nonce : Bytes)
    → IsAnswer packet internal_port requested nonce
    → IsGrant packet internal_port requested nonce (reply_of packet)
granted packet internal_port requested nonce a = record {
  reserved = byte_at 2 packet;
  l0 = byte_at 4 packet;
  l1 = byte_at 5 packet;
  l2 = byte_at 6 packet;
  l3 = byte_at 7 packet;
  epoch = take 16 (drop 8 packet);
  r1 = byte_at 37 packet;
  r2 = byte_at 38 packet;
  r3 = byte_at 39 packet;
  i0 = byte_at 40 packet;
  i1 = byte_at 41 packet;
  e0 = byte_at 42 packet;
  e1 = byte_at 43 packet;
  address = take 16 (drop 44 packet);
  options = drop 60 packet;
  layout =
      eight_bytes 0 packet (omega (arith, long))
      ∙ rw (a.version, a.opcode, a.success)
          (ap
            (λ x.
              2
              ∷ 129
              ∷ byte_at 2 packet
              ∷ 0
              ∷ byte_at 4 packet
              ∷ byte_at 5 packet
              ∷ byte_at 6 packet
              ∷ byte_at 7 packet
              ∷ x)
            from_8);
  epoch_size = length-take 16 (drop 8 packet) (omega (arith, long, length-drop 8 packet));
  address_size = length-take 16 (drop 44 packet) (omega (arith, long, length-drop 44 packet));
  port = sym a.same_port ∙ two_of 40 packet (omega (arith, long));
  lifetime = four_of packet long;
  external_port = two_of 42 packet (omega (arith, long));
  external_ip = refl;
  mapped = a.mapped;
}
  where
    long : 60 ≤ length packet
    long = a.long

    mapping :
        drop 36 packet
        ≡ 17
          ∷ byte_at 37 packet
          ∷ byte_at 38 packet
          ∷ byte_at 39 packet
          ∷ byte_at 40 packet
          ∷ byte_at 41 packet
          ∷ byte_at 42 packet
          ∷ byte_at 43 packet
          ∷ (take 16 (drop 44 packet) ++ drop 60 packet)
    mapping =
        eight_bytes 36 packet (omega (arith, long))
        ∙ rw a.is_udp (
            ap
              (λ x.
                17
                ∷ byte_at 37 packet
                ∷ byte_at 38 packet
                ∷ byte_at 39 packet
                ∷ byte_at 40 packet
                ∷ byte_at 41 packet
                ∷ byte_at 42 packet
                ∷ byte_at 43 packet
                ∷ x)
              (unblock 44 16 packet))

    from_8 :
        drop 8 packet
        ≡ take 16 (drop 8 packet)
          ++ (nonce
              ++ (17
                  ∷ byte_at 37 packet
                  ∷ byte_at 38 packet
                  ∷ byte_at 39 packet
                  ∷ byte_at 40 packet
                  ∷ byte_at 41 packet
                  ∷ byte_at 42 packet
                  ∷ byte_at 43 packet
                  ∷ (take 16 (drop 44 packet) ++ drop 60 packet)))
    from_8 =
        unblock 8 16 packet
        ∙ ap (λ x. take 16 (drop 8 packet) ++ x)
            (unblock 24 12 packet
              ∙ ap (λ x. x ++ drop 36 packet) a.same_nonce
              ∙ ap (λ x. nonce ++ x) mapping)

same_reply :
    (l m p q : ℕ) (x y : Address)
    → l ≡ m
    → x ≡ y
    → p ≡ q
    → let first : MapReply = record { lifetime = l; external_ip = x; external_port = p } in
      let second : MapReply = record { lifetime = m; external_ip = y; external_port = q } in
      first ≡ second
same_reply l m p q x y h k e = rw (h, k, e) refl

-- The parts of an answer from its layout.
module _ (packet : Bytes) (internal_port requested : ℕ) (nonce : Bytes) (reply : MapReply)
    (size : length nonce ≡ 12) (g : IsGrant packet internal_port requested nonce reply) where
  mapping_of : Bytes
  mapping_of = 17 ∷ g.r1 ∷ g.r2 ∷ g.r3 ∷ g.i0 ∷ g.i1 ∷ g.e0 ∷ g.e1 ∷ (g.address ++ g.options)

  from_24 : drop 24 packet ≡ nonce ++ mapping_of
  unfolding mapping_of
  from_24 =
      ap (drop 24) g.layout
      ∙ drop-past 16 0 g.epoch (nonce ++ mapping_of) (omega (arith, g.epoch_size))

  from_36 : (j : ℕ) → drop (36 + j) packet ≡ drop j mapping_of
  from_36 j =
      sym (drop-drop 24 (12 + j) packet ∙ ap (λ k. drop k packet) (omega arith))
      ∙ ap (drop (12 + j)) from_24
      ∙ drop-past (12 + j) j nonce mapping_of (omega (arith, size))

  port_at :
      (j : ℕ) (a b : ℕ) (rest : Bytes)
      → drop j mapping_of ≡ a ∷ b ∷ rest
      → get_u16 (take 2 (drop (36 + j) packet)) ≡ a * 256 + b
  unfolding get_u16
  port_at j a b rest h = ap (λ x. get_u16 (take 2 x)) (from_36 j ∙ h) ∙ omega arith

  lifetime_at : get_u32 (take 4 (drop 4 packet)) ≡ ((g.l0 * 256 + g.l1) * 256 + g.l2) * 256 + g.l3
  unfolding get_u32
  lifetime_at = ap (λ x. get_u32 (take 4 (drop 4 x))) g.layout ∙ omega arith

  address_at : take 16 (drop 44 packet) ≡ g.address
  unfolding mapping_of
  address_at = ap (take 16) (from_36 8) ∙ take-exact 16 g.address g.options (sym g.address_size)

  reply_at : reply ≡ reply_of packet
  unfolding mapping_of
  reply_at =
      same_reply reply.lifetime (get_u32 (take 4 (drop 4 packet))) reply.external_port
        (get_u16 (take 2 (drop 42 packet))) reply.external_ip
        (unmap (v6 (take 16 (drop 44 packet)))) (g.lifetime ∙ sym lifetime_at)
        (g.external_ip ∙ ap (λ x. unmap (v6 x)) (sym address_at))
        (g.external_port ∙ sym (port_at 6 g.e0 g.e1 (g.address ++ g.options) refl))

  length_at : 60 ≤ length packet
  unfolding mapping_of
  length_at = omega (
    arith,
    ap length g.layout,
    length-append g.epoch (nonce ++ mapping_of),
    length-append nonce mapping_of,
    length-append g.address g.options,
    g.epoch_size,
    g.address_size,
    size,
  )

  IsAnswer-at : IsAnswer packet internal_port requested nonce
  unfolding mapping_of
  IsAnswer-at = record {
    long = length_at;
    version = ap (byte_at 0) g.layout;
    opcode = ap (byte_at 1) g.layout;
    success = ap (byte_at 3) g.layout;
    same_nonce = ap (take 12) from_24 ∙ take-exact 12 nonce mapping_of (sym size);
    is_udp = ap (byte_at 0) (from_36 0);
    same_port = port_at 4 g.i0 g.i1 (g.e0 ∷ g.e1 ∷ (g.address ++ g.options)) refl ∙ sym g.port;
    mapped = λ asked.
        subst
          (λ (x : MapReply).
            (is_unspecified x.external_ip ≡ false) × (0 < x.external_port) × (0 < x.lifetime))
          reply_at (g.mapped asked);
  }

-- parsePCPMapResponse accepts a packet, with a nonce of twelve bytes, exactly if it has the layout of
-- a successful answer for UDP with that nonce and the internal port, each number's bytes in their
-- places with the high one first, and with a mapping that is not empty if one was asked for; the
-- reply it gives is the lifetime, the external port and the external address of these bytes.
pub parse_response-IsGrant :
    (packet : Bytes) (internal_port requested : ℕ) (nonce : Bytes) (reply : MapReply)
    → length nonce ≡ 12
    → (parse_response packet internal_port requested nonce ≡ accepted_reply reply)
      ↔ IsGrant packet internal_port requested nonce reply
parse_response-IsGrant packet internal_port requested nonce reply size = (
  λ e.
      let (same, answer) = parsed packet internal_port requested nonce reply e in
      subst (λ x. IsGrant packet internal_port requested nonce x) (sym same)
        (granted packet internal_port requested nonce answer),
  λ g.
      answered packet internal_port requested nonce
        (IsAnswer-at packet internal_port requested nonce reply size g)
      ∙ ap accepted_reply (sym (reply_at packet internal_port requested nonce reply size g)),
)
