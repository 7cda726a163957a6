-- ===== src/Relay/Seats.antt =====
-- The participants of a conference as a map from ids, and what is true of them.
use yudesk.Base.{
  ◌≡◌, refl, sym, ap, ◌∙◌, true, false, ◌||◌, Option, none, some, List, [], ◌∷◌, arith, inl, inr,
  same, same→≡, same_refl, Bool-cases,
}
use yudesk.Text.{Text}
use yudesk.Sql.Keyed.{same_flip}
use yudesk.Relay.Conference.{Participant, Conference, participant, seat, has_device, is_host}

-- Only the host has its screen shown or recorded, in a list of participants.
abbrev pub OnlyHost : Option Text → List Participant → Type 0
OnlyHost host [] = Unit
OnlyHost host (p ∷ ps) =
    ((p.screen || p.recording) ≡ true → is_host p.id host ≡ true) × OnlyHost host ps

-- Two participants never have one device.
abbrev pub OneEach : List Participant → Type 0
OneEach [] = Unit
OneEach (p ∷ ps) = (has_device p.device ps ≡ false) × OneEach ps

-- The host is a participant, and there is one while anybody is there.
abbrev pub HasHost : Option Text → List Participant → Type 0
HasHost none ps = ps ≡ []
HasHost (some h) ps = (p : Participant) × (participant h ps ≡ some p)

-- No two participants have one id.
abbrev pub IdsApart : List Participant → Type 0
IdsApart [] = Unit
IdsApart (p ∷ ps) = (participant p.id ps ≡ none) × IdsApart ps

pub record IsHosted (c : Conference) : Type 0 where
  pub hosted : HasHost c.host c.participants
  pub sharing : OnlyHost c.host c.participants
  pub apart : OneEach c.participants
  pub keyed : IdsApart c.participants

pub participant-id :
    (id : Text) (ps : List Participant) (p : Participant) → participant id ps ≡ some p → p.id ≡ id
unfolding participant
participant-id id [] p e = absurd (ground arith)
participant-id id (q ∷ ps) p e = elim (Bool-cases (same q.id id)) [
  | inl here ↦
      let one : (some q ≡ some p) = sym (rw here refl) ∙ e in
      let found : (q ≡ p) = cc in ap (λ (r : Participant). r.id) (sym found) ∙ same→≡ q.id id here
  | inr there ↦
      let later : (participant id (q ∷ ps) ≡ participant id ps) = rw there refl in
      participant-id id ps p (sym later ∙ e)
]

pub participant_here :
    (p : Participant) (ps : List Participant) → participant p.id (p ∷ ps) ≡ some p
unfolding participant
participant_here p ps = rw (same_refl p.id) refl

pub participant_there :
    (id : Text) (p : Participant) (ps : List Participant)
    → same p.id id ≡ false
    → participant id (p ∷ ps) ≡ participant id ps
unfolding participant
participant_there id p ps other = rw other refl

-- An absent id is not the first one's.
pub not_first :
    (id : Text) (p : Participant) (ps : List Participant)
    → participant id (p ∷ ps) ≡ none
    → (same p.id id ≡ false) × (participant id ps ≡ none)
unfolding participant
not_first id p ps e = elim (Bool-cases (same p.id id)) [
  | inl here ↦ absurd (ground arith)
  | inr there ↦ (there, ground arith)
]

pub seat_self : (p : Participant) (ps : List Participant) → participant p.id (seat p ps) ≡ some p
unfolding seat
seat_self p [] = participant_here p []
seat_self p (q ∷ ps) = elim (Bool-cases (same q.id p.id)) [
  | inl again ↦ rw again (participant_here p ps)
  | inr other ↦ rw other (participant_there p.id q (seat p ps) other ∙ seat_self p ps)
]

pub seat-present :
    (h : Text) (p : Participant) (ps : List Participant)
    → HasHost (some h) ps
    → HasHost (some h) (seat p ps)
unfolding seat participant
seat-present h p [] (r, e) = absurd (ground arith)
seat-present h p (q ∷ ps) (r, e) = elim (Bool-cases (same q.id p.id)) [
  | inl again ↦
      let one = same→≡ q.id p.id again in
      elim (Bool-cases (same p.id h)) [
        | inl here ↦ rw again (p, rw here refl)
        | inr there ↦
            let not_here : (same q.id h ≡ false) = rw one there in
            rw again (r, rw there (sym (participant_there h q ps not_here) ∙ e))
      ]
  | inr other ↦ elim (Bool-cases (same q.id h)) [
    | inl here ↦ rw other (q, rw here refl)
    | inr there ↦
        let (r', e') = seat-present h p ps (r, sym (participant_there h q ps there) ∙ e) in
        rw other (r', rw there e')
  ]
]

pub seat-absent :
    (id : Text) (p : Participant) (ps : List Participant)
    → same p.id id ≡ false
    → participant id ps ≡ none
    → participant id (seat p ps) ≡ none
unfolding seat
seat-absent id p [] other e = participant_there id p [] other ∙ e
seat-absent id p (q ∷ ps) other e =
    let (not_q, rest) = not_first id q ps e in
    elim (Bool-cases (same q.id p.id)) [
      | inl again ↦ rw again (participant_there id p ps other ∙ rest)
      | inr apart ↦
          rw apart (participant_there id q (seat p ps) not_q ∙ seat-absent id p ps other rest)
    ]

pub seat-IdsApart : (p : Participant) (ps : List Participant) → IdsApart ps → IdsApart (seat p ps)
unfolding seat participant
seat-IdsApart p [] h = (refl, tt)
seat-IdsApart p (q ∷ ps) (alone, h) = elim (Bool-cases (same q.id p.id)) [
  | inl again ↦
      let one = same→≡ q.id p.id again in
      rw again (ap (λ (n : Text). participant n ps) (sym one) ∙ alone, h)
  | inr other ↦
      rw other (seat-absent q.id p ps (same_flip q.id p.id other) alone, seat-IdsApart p ps h)
]

pub seat-OnlyHost :
    (host : Option Text) (p : Participant) (ps : List Participant)
    → ((p.screen || p.recording) ≡ true → is_host p.id host ≡ true)
    → OnlyHost host ps
    → OnlyHost host (seat p ps)
unfolding seat
seat-OnlyHost host p [] fine h = (fine, tt)
seat-OnlyHost host p (q ∷ ps) fine (one, h) = elim (Bool-cases (same q.id p.id)) [
  | inl again ↦ rw again (fine, h)
  | inr other ↦ rw other (one, seat-OnlyHost host p ps fine h)
]

has_device-seat :
    (device : Text) (p : Participant) (ps : List Participant)
    → same p.device device ≡ false
    → has_device device ps ≡ false
    → has_device device (seat p ps) ≡ false
unfolding seat
has_device-seat device p [] other h = rw other refl
has_device-seat device p (q ∷ ps) other h = elim (Bool-cases (same q.id p.id)) [
  | inl again ↦ rw again (ground arith)
  | inr fresh ↦
      let rest = has_device-seat device p ps other (ground arith) in rw fresh (ground arith)
]

-- A new device takes its seat.
pub seat-OneEach :
    (p : Participant) (ps : List Participant)
    → has_device p.device ps ≡ false
    → OneEach ps
    → OneEach (seat p ps)
unfolding seat
seat-OneEach p [] absent h = (refl, tt)
seat-OneEach p (q ∷ ps) absent (alone, h) =
    let not_q : (same q.device p.device ≡ false) = ground arith in
    let rest : (has_device p.device ps ≡ false) = ground arith in
    elim (Bool-cases (same q.id p.id)) [
      | inl again ↦ rw again (rest, h)
      | inr other ↦ rw other (
        has_device-seat q.device p ps (same_flip q.device p.device not_q) alone,
        seat-OneEach p ps rest h,
      )
    ]

-- A participant that changes keeps its device.
has_device-reseat :
    (device : Text) (p p' : Participant) (ps : List Participant)
    → p'.id ≡ p.id
    → p'.device ≡ p.device
    → participant p.id ps ≡ some p
    → has_device device (seat p' ps) ≡ has_device device ps
unfolding seat participant
has_device-reseat device p p' [] same_id same_device e = absurd (ground arith)
has_device-reseat device p p' (q ∷ ps) same_id same_device e = elim (Bool-cases (same q.id p.id)) [
  | inl again ↦
      let one : (some q ≡ some p) = sym (rw again refl) ∙ e in
      let q_device : (q.device ≡ p.device) =
        let f : (q ≡ p) = cc in ap (λ (r : Participant). r.device) f in
      rw (same_id, again, same_device, q_device) refl
  | inr other ↦
      let rest =
        has_device-reseat device p p' ps same_id same_device
          (sym (participant_there p.id q ps other) ∙ e) in
      rw (same_id, other, rest) refl
]

pub reseat-OneEach :
    (p p' : Participant) (ps : List Participant)
    → p'.id ≡ p.id
    → p'.device ≡ p.device
    → participant p.id ps ≡ some p
    → OneEach ps
    → OneEach (seat p' ps)
unfolding seat participant
reseat-OneEach p p' [] same_id same_device e h = absurd (ground arith)
reseat-OneEach p p' (q ∷ ps) same_id same_device e (alone, h) = elim (Bool-cases (same q.id p.id)) [
  | inl again ↦
      let one : (some q ≡ some p) = sym (rw again refl) ∙ e in
      let q_device : (q.device ≡ p.device) =
        let f : (q ≡ p) = cc in ap (λ (r : Participant). r.device) f in
      rw (same_id, again, same_device)
        (ap (λ (d : Text). has_device d ps) (sym q_device) ∙ alone, h)
  | inr other ↦
      let later = sym (participant_there p.id q ps other) ∙ e in
      rw (same_id, other)
        (
          has_device-reseat q.device p p' ps same_id same_device later ∙ alone,
          reseat-OneEach p p' ps same_id same_device later h,
        )
]
