-- ===== src/Relay/Leaving.antt =====
-- What happens to the participants when the host changes or somebody leaves.
use yudesk.Base.{
  ◌≡◌, refl, sym, subst, ap, ◌∙◌, true, false, Option, none, some, List, [], ◌∷◌, arith, inl, inr,
  ltb, same, same→≡, same_refl, Bool-cases, Option-cases,
}
use yudesk.Text.{Text}
use yudesk.Sql.Keyed.{same_flip}
use yudesk.Relay.Conference.{
  Participant, participant, seat, unseat, has_device, is_host, hide, first_joined, id_of,
}
use yudesk.Relay.Seats.{
  OnlyHost, OneEach, HasHost, IdsApart, participant_here, participant_there, not_first,
}

-- The host has one id.
is_host-one :
    (a b : Text) (host : Option Text)
    → is_host a host ≡ true
    → is_host b host ≡ true
    → same b a ≡ true
is_host-one a b none h k = absurd (ground arith)
is_host-one a b (some x) h k =
    let first = same→≡ x a h in
    let second = same→≡ x b k in
    let one : (b ≡ a) = sym second ∙ first in ap (λ (t : Text). same t a) one ∙ same_refl a

-- Where the host is not, nobody shares.
quiet :
    (id : Text) (host host' : Option Text) (ps : List Participant)
    → is_host id host ≡ true
    → participant id ps ≡ none
    → OnlyHost host ps
    → OnlyHost host' ps
quiet id host host' [] hosting absent h = tt
quiet id host host' (q ∷ ps) hosting absent (one, h) =
    let (not_q, rest) = not_first id q ps absent in
    (
      λ shares.
          absurd (let at_host = is_host-one id q.id host hosting (one shares) in ground arith),
      quiet id host host' ps hosting rest h,
    )

-- Another one becomes host when the old one shares nothing.
pub hide-OnlyHost :
    (host host' : Option Text) (p : Participant) (ps : List Participant)
    → is_host p.id host ≡ true
    → IdsApart ps
    → OnlyHost host ps
    → OnlyHost host' (seat (hide p) ps)
unfolding seat
hide-OnlyHost host host' p [] hosting keyed h = (λ shares. absurd (ground arith), tt)
hide-OnlyHost host host' p (q ∷ ps) hosting (alone, keyed) (one, h) =
    elim (Bool-cases (same q.id p.id)) [
      | inl again ↦
          let absent = ap (λ (n : Text). participant n ps) (sym (same→≡ q.id p.id again)) ∙ alone in
          rw again (λ shares. absurd (ground arith), quiet p.id host host' ps hosting absent h)
      | inr apart ↦ rw apart (
        λ shares.
            absurd (let at_host = is_host-one p.id q.id host hosting (one shares) in ground arith),
        hide-OnlyHost host host' p ps hosting keyed h,
      )
    ]

unseat-absent :
    (id id' : Text) (ps : List Participant)
    → participant id' ps ≡ none
    → participant id' (unseat id ps) ≡ none
unfolding unseat
unseat-absent id id' [] e = e
unseat-absent id id' (q ∷ ps) e =
    let (not_q, rest) = not_first id' q ps e in
    elim (Bool-cases (same q.id id)) [
      | inl here ↦ rw here rest
      | inr there ↦
          rw there (participant_there id' q (unseat id ps) not_q ∙ unseat-absent id id' ps rest)
    ]

pub unseat-IdsApart : (id : Text) (ps : List Participant) → IdsApart ps → IdsApart (unseat id ps)
unfolding unseat
unseat-IdsApart id [] h = tt
unseat-IdsApart id (q ∷ ps) (alone, h) = elim (Bool-cases (same q.id id)) [
  | inl here ↦ rw here h
  | inr there ↦ rw there (unseat-absent id q.id ps alone, unseat-IdsApart id ps h)
]

has_device-unseat :
    (device id : Text) (ps : List Participant)
    → has_device device ps ≡ false
    → has_device device (unseat id ps) ≡ false
unfolding unseat
has_device-unseat device id [] h = refl
has_device-unseat device id (q ∷ ps) h = elim (Bool-cases (same q.id id)) [
  | inl here ↦ rw here (ground arith)
  | inr there ↦ rw there (ground (arith, has_device-unseat device id ps))
]

pub unseat-OneEach : (id : Text) (ps : List Participant) → OneEach ps → OneEach (unseat id ps)
unfolding unseat
unseat-OneEach id [] h = tt
unseat-OneEach id (q ∷ ps) (alone, h) = elim (Bool-cases (same q.id id)) [
  | inl here ↦ rw here h
  | inr there ↦ rw there (has_device-unseat q.device id ps alone, unseat-OneEach id ps h)
]

pub unseat-OnlyHost :
    (id : Text) (host : Option Text) (ps : List Participant)
    → OnlyHost host ps
    → OnlyHost host (unseat id ps)
unfolding unseat
unseat-OnlyHost id host [] h = tt
unseat-OnlyHost id host (q ∷ ps) (one, h) = elim (Bool-cases (same q.id id)) [
  | inl here ↦ rw here h
  | inr there ↦ rw there (one, unseat-OnlyHost id host ps h)
]

-- When the host goes, nobody shares.
pub unseat-quiet :
    (id : Text) (host host' : Option Text) (ps : List Participant)
    → is_host id host ≡ true
    → IdsApart ps
    → OnlyHost host ps
    → OnlyHost host' (unseat id ps)
unfolding unseat
unseat-quiet id host host' [] hosting keyed h = tt
unseat-quiet id host host' (q ∷ ps) hosting (alone, keyed) (one, h) =
    elim (Bool-cases (same q.id id)) [
      | inl here ↦
          let absent = ap (λ (n : Text). participant n ps) (sym (same→≡ q.id id here)) ∙ alone in
          rw here (quiet id host host' ps hosting absent h)
      | inr there ↦ rw there (
        λ shares.
            absurd (let at_host = is_host-one id q.id host hosting (one shares) in ground arith),
        unseat-quiet id host host' ps hosting keyed h,
      )
    ]

pub unseat-present :
    (id h : Text) (ps : List Participant)
    → same h id ≡ false
    → HasHost (some h) ps
    → HasHost (some h) (unseat id ps)
unfolding unseat participant
unseat-present id h [] apart (r, e) = absurd (ground arith)
unseat-present id h (q ∷ ps) apart (r, e) = elim (Bool-cases (same q.id id)) [
  | inl here ↦
      let one = same→≡ q.id id here in
      let not_here : (same q.id h ≡ false) = rw one (same_flip h id apart) in
      rw here (r, sym (participant_there h q ps not_here) ∙ e)
  | inr there ↦ elim (Bool-cases (same q.id h)) [
    | inl at ↦ rw there (q, rw at refl)
    | inr later ↦
        let (r', e') = unseat-present id h ps apart (r, sym (participant_there h q ps later) ∙ e) in
        rw there (r', rw later e')
  ]
]

cons-present :
    (h : Text) (p : Participant) (ps : List Participant)
    → HasHost (some h) ps
    → HasHost (some h) (p ∷ ps)
unfolding participant
cons-present h p ps (r, e) = elim (Bool-cases (same p.id h)) [
  | inl here ↦ (p, rw here refl)
  | inr there ↦ (r, rw there e)
]

-- The one who has been there longest is there.
pub first_joined-HasHost : (ps : List Participant) → HasHost (id_of (first_joined ps)) ps
unfolding first_joined participant
first_joined-HasHost [] = refl
first_joined-HasHost (p ∷ ps) = elim (Option-cases (first_joined ps)) [
  | inl nobody ↦ rw nobody (p, participant_here p ps)
  | inr (q, first) ↦
      let found : HasHost (some q.id) ps =
        subst (λ (o : Option Participant). HasHost (id_of o) ps) first (first_joined-HasHost ps) in
      elim (Bool-cases (ltb q.joined p.joined)) [
        | inl earlier ↦ rw (first, earlier) (cons-present q.id p ps found)
        | inr later ↦ rw (first, later) (p, participant_here p ps)
      ]
]
