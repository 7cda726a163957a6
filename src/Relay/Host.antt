-- ===== src/Relay/Host.antt =====
-- Who hosts a conference, and who may share in it, after each step.
use yudesk.Base.{
  ℕ, ◌≡◌, ◌^◌, ◌%◌, ◌+◌, refl, sym, subst, ap, ◌∙◌, true, false, not, ◌&&◌, ◌||◌, Bool, Option,
  none, some, List, [], ◌∷◌, arith, inl, inr, leb, ◌==◌, same, Bool-cases, Option-cases,
}
use yudesk.Text.{Text}
use yudesk.Relay.Conference.{
  Participant, Conference, Room, Meeting, Entrant, Request, new_conference, participant, seat,
  unseat, has_device, contains, is_host, new_participant, host_or, enter_conference, enter_room,
  enter, obey, switch, hide, is_invalid_signal, seated, seated_in, apply_message,
  leave_conference_of, leave_conference, ping, other, signals, shows, transfers, kicks, ends,
}
use yudesk.Relay.Seats.{
  OnlyHost, HasHost, IsHosted, participant-id, seat_self, seat-present, seat-IdsApart,
  seat-OnlyHost, seat-OneEach, reseat-OneEach,
}
use yudesk.Relay.Leaving.{
  hide-OnlyHost, unseat-IdsApart, unseat-OneEach, unseat-OnlyHost, unseat-quiet, unseat-present,
  first_joined-HasHost,
}

-- The conference of a room, if it has one.
abbrev pub ConferenceIsHosted : Option Conference → Type 0
ConferenceIsHosted none = Unit
ConferenceIsHosted (some c) = IsHosted c

abbrev pub RoomIsHosted : Option Room → Type 0
RoomIsHosted none = Unit
RoomIsHosted (some room) = ConferenceIsHosted room.conference

seat_first :
    (host : Option Text) (p : Participant) (ps : List Participant)
    → HasHost host ps
    → HasHost (host_or host p.id) (seat p ps)
seat_first none p ps nobody = (p, seat_self p ps)
seat_first (some h) p ps present = seat-present h p ps present

share_first :
    (host : Option Text) (id : Text) (ps : List Participant)
    → HasHost host ps
    → OnlyHost host ps
    → OnlyHost (host_or host id) ps
share_first none id [] nobody h = tt
share_first none id (p ∷ ps) nobody h = absurd (ground arith)
share_first (some x) id ps present h = h

enter_conference-IsHosted :
    (e : Entrant) (room : Room) (c : Conference) (m : Meeting)
    → IsHosted c
    → RoomIsHosted m.room
    → RoomIsHosted (enter_conference e room c m).1.room
unfolding enter_conference
enter_conference-IsHosted e room c m h before =
    elim (Bool-cases (
      (e.as_host && not (same room.owner e.device))
      || (not e.as_host && elim c.host [ none ↦ true | some x ↦ false ]))) [
        | inl barred ↦ rw barred before
        | inr welcome ↦ elim (Bool-cases (has_device e.device c.participants)) [
          | inl again ↦ rw (welcome, again) before
          | inr new ↦ elim (Bool-cases (contains e.device c.removed)) [
            | inl out ↦ rw (welcome, new, out) before
            | inr free ↦
                let p = new_participant e ((m.seq + 1) % 2 ^ 64) in
                rw (welcome, new, free)
                  (record {
                    hosted = seat_first c.host p c.participants h.hosted;
                    sharing =
                        seat-OnlyHost (host_or c.host e.id) p c.participants
                          (λ shares. absurd (ground arith))
                          (share_first c.host e.id c.participants h.hosted h.sharing);
                    apart = seat-OneEach p c.participants new h.apart;
                    keyed = seat-IdsApart p c.participants h.keyed;
                  })
          ]
        ]
      ]

new_conference-IsHosted : IsHosted new_conference
new_conference-IsHosted = record { hosted = refl; sharing = tt; apart = tt; keyed = tt }

pub enter-IsHosted :
    (now : ℕ) (e : Entrant) (m : Meeting)
    → RoomIsHosted m.room
    → RoomIsHosted (enter now e m).1.room
unfolding enter enter_room
enter-IsHosted now e m before = elim (Option-cases m.room) [
  | inl absent ↦ rw absent tt
  | inr (room, there) ↦
      let m' : Meeting = record m { room = some room } in
      let hosted : ConferenceIsHosted room.conference =
        subst (λ (o : Option Room). RoomIsHosted o) there before in
      elim (Bool-cases (leb room.expires now)) [
        | inl over ↦ rw (there, enter_room, over) hosted
        | inr running ↦ elim (Option-cases room.conference) [
          | inl unused ↦ elim (Bool-cases e.as_host) [
            | inl first ↦
                rw (there, enter_room, running, unused, first)
                  (enter_conference-IsHosted (record e { as_host = true }) room new_conference m'
                    new_conference-IsHosted hosted)
            | inr early ↦ rw (there, enter_room, running, unused, early) hosted
          ]
          | inr (c, used) ↦
              let ready : IsHosted c =
                subst (λ (o : Option Conference). ConferenceIsHosted o) used hosted in
              rw (there, enter_room, running, used)
                (enter_conference-IsHosted e room c m' ready hosted)
        ]
      ]
]

switch_host : (hosting a b : Bool) → ((hosting && a) || (hosting && b)) ≡ true → hosting ≡ true
switch_host true a b e = refl
switch_host false a b e = absurd (ground arith)

reseat-HasHost :
    (host : Option Text) (p p' : Participant) (ps : List Participant)
    → participant p.id ps ≡ some p
    → HasHost host ps
    → HasHost host (seat p' ps)
unfolding participant
reseat-HasHost none p p' ps there nobody = absurd (
    let e = sym (ap (λ (qs : List Participant). participant p.id qs) nobody) ∙ there in
    ground arith)
reseat-HasHost (some h) p p' ps there present = seat-present h p' ps present

obey-IsHosted :
    (p : Participant) (request : Request) (room : Room) (c : Conference)
    → participant p.id c.participants ≡ some p
    → IsHosted c
    → ConferenceIsHosted room.conference
    → RoomIsHosted (obey p request room c).1
unfolding obey
obey-IsHosted p ping room c there h before = before
obey-IsHosted p other room c there h before = before
obey-IsHosted p (signals s) room c there h before = elim (Bool-cases (is_invalid_signal s)) [
  | inl invalid ↦ rw invalid before
  | inr valid ↦ elim (Option-cases (participant s.to c.participants)) [
    | inl gone ↦ rw (valid, gone) before
    | inr (target, found) ↦ rw (valid, found) before
  ]
]
obey-IsHosted p (shows d) room c there h before =
    let p' = switch d (is_host p.id c.host) p in
    record {
      hosted = reseat-HasHost c.host p p' c.participants there h.hosted;
      sharing =
          seat-OnlyHost c.host p' c.participants
            (λ shares. switch_host (is_host p.id c.host) d.screen d.recording shares) h.sharing;
      apart = reseat-OneEach p p' c.participants refl refl there h.apart;
      keyed = seat-IdsApart p' c.participants h.keyed;
    }
obey-IsHosted p (transfers to) room c there h before = elim (Bool-cases (is_host p.id c.host)) [
  | inr guest ↦ rw guest before
  | inl hosting ↦ elim (Option-cases (participant to c.participants)) [
    | inl gone ↦ rw (hosting, gone) before
    | inr (q, found) ↦ elim (Bool-cases (same to p.id)) [
      | inl self ↦ rw (hosting, found, self) before
      | inr apart ↦
          rw (hosting, found, apart)
            (record {
              hosted = seat-present to (hide p) c.participants (q, found);
              sharing = hide-OnlyHost c.host (some to) p c.participants hosting h.keyed h.sharing;
              apart = reseat-OneEach p (hide p) c.participants refl refl there h.apart;
              keyed = seat-IdsApart (hide p) c.participants h.keyed;
            })
    ]
  ]
]
obey-IsHosted p (kicks to) room c there h before = elim (Bool-cases (is_host p.id c.host)) [
  | inr guest ↦ rw guest before
  | inl hosting ↦ elim (Bool-cases (same to p.id)) [
    | inl self ↦ rw (hosting, self) before
    | inr apart ↦ elim (Option-cases (participant to c.participants)) [
      | inl gone ↦ rw (hosting, apart, gone) before
      | inr (q, found) ↦
          rw (hosting, apart, found)
            (record { hosted = h.hosted; sharing = h.sharing; apart = h.apart; keyed = h.keyed })
    ]
  ]
]
obey-IsHosted p ends room c there h before = elim (Bool-cases (is_host p.id c.host)) [
  | inl hosting ↦ rw hosting tt
  | inr guest ↦ rw guest before
]

unseat-HasHost :
    (id : Text) (host : Option Text) (ps : List Participant)
    → is_host id host ≡ false
    → HasHost host ps
    → HasHost host (unseat id ps)
unfolding unseat
unseat-HasHost id none [] guest nobody = refl
unseat-HasHost id none (p ∷ ps) guest nobody = absurd (ground arith)
unseat-HasHost id (some x) ps guest present = unseat-present id x ps guest present

leave_conference_of-IsHosted :
    (p : Participant) (c : Conference) → IsHosted c → IsHosted (leave_conference_of p c)
leave_conference_of-IsHosted p c h = elim (Bool-cases (is_host p.id c.host)) [
  | inl hosting ↦ rw hosting (record {
    hosted = first_joined-HasHost (unseat p.id c.participants);
    sharing = unseat-quiet p.id c.host _ c.participants hosting h.keyed h.sharing;
    apart = unseat-OneEach p.id c.participants h.apart;
    keyed = unseat-IdsApart p.id c.participants h.keyed;
  })
  | inr guest ↦ rw guest (record {
    hosted = unseat-HasHost p.id c.host c.participants guest h.hosted;
    sharing = unseat-OnlyHost p.id c.host c.participants h.sharing;
    apart = unseat-OneEach p.id c.participants h.apart;
    keyed = unseat-IdsApart p.id c.participants h.keyed;
  })
]

-- The participant that a connection stands for.
pub seated_found :
    (id : Text) (joined : ℕ) (m : Meeting) (p : Participant) (room : Room) (c : Conference)
    → seated id joined m ≡ some (p, (room, c))
    → (m.room ≡ some room) × (room.conference ≡ some c) × (participant p.id c.participants ≡ some p)
unfolding seated seated_in
seated_found id joined m p room c e = elim (Option-cases m.room) [
  | inl absent ↦ let nothing : (seated id joined m ≡ none) = rw absent refl in absurd (ground arith)
  | inr (room', there) ↦
      let opened : (seated id joined m ≡ seated_in id joined room' room'.conference) =
        rw (seated, there) refl in
      elim (Option-cases room'.conference) [
        | inl unused ↦
            let nothing : (seated id joined m ≡ none) =
              opened ∙ ap (λ (o : Option Conference). seated_in id joined room' o) unused in
            absurd (ground arith)
        | inr (c', used) ↦
            let used_here =
              opened ∙ ap (λ (o : Option Conference). seated_in id joined room' o) used in
            elim (Option-cases (participant id c'.participants)) [
              | inl gone ↦
                  let nothing : (seated id joined m ≡ none) =
                    used_here ∙ rw (seated_in, gone) refl in
                  absurd (ground arith)
              | inr (p', found) ↦ elim (Bool-cases (p'.joined == joined)) [
                | inr later ↦
                    let nothing : (seated id joined m ≡ none) =
                      used_here ∙ rw (seated_in, found, later) refl in
                    absurd (ground arith)
                | inl same_one ↦
                    let found' =
                      ap (λ (n : Text). participant n c'.participants)
                        (participant-id id c'.participants p' found)
                      ∙ found in
                    let this : (seated id joined m ≡ some (p', (room', c'))) =
                      used_here ∙ rw (seated_in, found, same_one) refl in
                    let one : ((p', (room', c')) ≡ (p, (room, c))) = cc in
                    subst
                      (λ (x : Participant × (Room × Conference)).
                        (m.room ≡ some x.1.0)
                        × (x.1.0.conference ≡ some x.1.1)
                        × (participant x.0.id x.1.1.participants ≡ some x.0))
                      one (there, used, found')
              ]
            ]
      ]
]

seated-IsHosted :
    (id : Text) (joined : ℕ) (m : Meeting) (p : Participant) (room : Room) (c : Conference)
    → seated id joined m ≡ some (p, (room, c))
    → RoomIsHosted m.room
    → (participant p.id c.participants ≡ some p) × IsHosted c × ConferenceIsHosted room.conference
seated-IsHosted id joined m p room c e h =
    let (there, used, found) = seated_found id joined m p room c e in
    let hosted : ConferenceIsHosted room.conference =
      subst (λ (o : Option Room). RoomIsHosted o) there h in
    (found, subst (λ (o : Option Conference). ConferenceIsHosted o) used hosted, hosted)

pub apply_message-IsHosted :
    (id : Text) (joined : ℕ) (request : Request) (m : Meeting)
    → RoomIsHosted m.room
    → RoomIsHosted (apply_message id joined request m).1.room
unfolding apply_message
apply_message-IsHosted id joined request m h = elim (Option-cases (seated id joined m)) [
  | inl gone ↦
      let step : (apply_message id joined request m ≡ (false, m)) = rw (apply_message, gone) refl in
      subst (λ (x : Bool × Meeting). RoomIsHosted x.1.room) (sym step) h
  | inr ((p, (room, c)), there) ↦
      let (found, hosted, before) = seated-IsHosted id joined m p room c there h in
      let step : (apply_message id joined request m
          ≡ ((obey p request room c).0, record m { room = (obey p request room c).1 })) =
        rw (apply_message, there) refl in
      subst (λ (x : Bool × Meeting). RoomIsHosted x.1.room) (sym step)
        (obey-IsHosted p request room c found hosted before)
]

pub leave_conference-IsHosted :
    (id : Text) (joined : ℕ) (m : Meeting)
    → RoomIsHosted m.room
    → RoomIsHosted (leave_conference id joined m).room
unfolding leave_conference
leave_conference-IsHosted id joined m h = elim (Option-cases (seated id joined m)) [
  | inl gone ↦
      let step : (leave_conference id joined m ≡ m) = rw (leave_conference, gone) refl in
      subst (λ (x : Meeting). RoomIsHosted x.room) (sym step) h
  | inr ((p, (room, c)), there) ↦
      let (found, hosted, before) = seated-IsHosted id joined m p room c there h in
      let step : (leave_conference id joined m ≡ record m {
        room = some (record room { conference = some (leave_conference_of p c) });
      }) =
        rw (leave_conference, there) refl in
      subst (λ (x : Meeting). RoomIsHosted x.room) (sym step)
        (leave_conference_of-IsHosted p c hosted)
]
