-- ===== src/Nat/Tests.antt =====
-- The theorem about internal/natmap at a concrete packet.
use yudesk.Base.{same, ◌≡◌, ◌↔◌, refl, [], ◌∷◌, ◌++◌}
use yudesk.Protocol.Wire.{Bytes, zeros, get_u32}
use yudesk.Nat.Pcp.{get_u16, unmap, duration_seconds, parse_response, accepted_reply, reply_of}
use yudesk.Nat.Layout.{IsGrant, parse_response-IsGrant}

abbrev nonce : Bytes
nonce = 1 ∷ 2 ∷ 3 ∷ 4 ∷ 5 ∷ 6 ∷ 7 ∷ 8 ∷ 9 ∷ 10 ∷ 11 ∷ 12 ∷ []

-- A gateway grants port 4000 at 203.0.113.9 for a minute.
abbrev granted : Bytes
granted =
    (2 ∷ 129 ∷ 0 ∷ 0 ∷ 0 ∷ 0 ∷ 0 ∷ 60 ∷ [])
    ++ zeros 16
    ++ nonce
    ++ (17 ∷ 0 ∷ 0 ∷ 0 ∷ 15 ∷ 160 ∷ 15 ∷ 160 ∷ [])
    ++ zeros 10
    ++ (255 ∷ 255 ∷ 203 ∷ 0 ∷ 113 ∷ 9 ∷ [])

parse_response-IsGrant_example :
    (parse_response granted 4000 60 nonce ≡ accepted_reply (reply_of granted))
    ↔ IsGrant granted 4000 60 nonce (reply_of granted)
parse_response-IsGrant_example =
    parse_response-IsGrant granted 4000 60 nonce (reply_of granted) refl

granted_accepted : parse_response granted 4000 60 nonce ≡ accepted_reply (reply_of granted)
unfolding parse_response zeros same get_u16 unmap get_u32
granted_accepted = refl

a_minute : duration_seconds 60_500_000_000 ≡ 60
unfolding duration_seconds
a_minute = refl
