-- ===== src/Relay/Removal.antt =====
-- A device that the host has removed does not come back.
use yudesk.Base.{
  ℕ, ◌≡◌, refl, sym, ap, subst, ◌∙◌, true, false, not, ◌&&◌, ◌||◌, Bool, Option, none, some, List,
  [], ◌∷◌, arith, inl, inr, ◌⊎◌, leb, if◌then◌else◌, same, same_refl, Bool-cases, Option-cases,
}
use yudesk.Text.{Text}
use yudesk.Relay.Conference.{
  Participant, Conference, Room, Meeting, Entrant, Request, participant, has_device, contains,
  is_host, enter_conference, enter_room, enter, obey, is_invalid_signal, seated, apply_message,
  leave_conference_of, leave_conference, hear, open_meeting, cleanup_meeting, remove_meeting, ping,
  other, signals, shows, transfers, kicks, ends,
}
use yudesk.Relay.Host.{seated_found}
use yudesk.Relay.History.{Event, enters, hears, leaves, opens, cleans, closes, happen, history}

-- The conference has removed this device.
abbrev pub removed_in : Text → Option Conference → Bool
removed_in device none = false
removed_in device (some c) = contains device c.removed

abbrev pub is_removed : Text → Option Room → Bool
is_removed device none = false
is_removed device (some room) = removed_in device room.conference

-- The device stays removed until the meeting ends.
abbrev Stays : Text → Option Room → Type 0
Stays device o = (is_removed device o ≡ true) ⊎ (o ≡ none)

-- There has been a moment without a meeting under the code.
abbrev pub HasEnded : List Event → Meeting → Type 0
HasEnded [] m = m.room ≡ none
HasEnded (e ∷ events) m = (m.room ≡ none) ⊎ HasEnded events (happen e m)

obey-Stays :
    (device : Text) (p : Participant) (request : Request) (room : Room) (c : Conference)
    → contains device c.removed ≡ true
    → removed_in device room.conference ≡ true
    → Stays device (obey p request room c).1
unfolding obey
obey-Stays device p ping room c out before = inl before
obey-Stays device p other room c out before = inl before
obey-Stays device p (signals s) room c out before = elim (Bool-cases (is_invalid_signal s)) [
  | inl invalid ↦ rw invalid (inl before)
  | inr valid ↦ elim (Option-cases (participant s.to c.participants)) [
    | inl gone ↦ rw (valid, gone) (inl before)
    | inr (target, found) ↦ rw (valid, found) (inl before)
  ]
]
obey-Stays device p (shows d) room c out before = inl out
obey-Stays device p (transfers to) room c out before =
    elim (Bool-cases (
      not (is_host p.id c.host)
      || (elim (participant to c.participants) [ none ↦ true | some q ↦ false ] || same to p.id))) [
        | inl refused ↦ rw refused (inl before)
        | inr agreed ↦ rw agreed (inl out)
      ]
obey-Stays device p (kicks to) room c out before =
    elim (Bool-cases (not (is_host p.id c.host) || same to p.id)) [
      | inl refused ↦ rw refused (inl before)
      | inr agreed ↦ elim (Option-cases (participant to c.participants)) [
        | inl gone ↦ rw (agreed, gone) (inl before)
        | inr (target, found) ↦ rw (agreed, found) (inl (ground arith))
      ]
    ]
obey-Stays device p ends room c out before = elim (Bool-cases (is_host p.id c.host)) [
  | inl hosting ↦ rw hosting (inr refl)
  | inr guest ↦ rw guest (inl before)
]

seated-removed :
    (device id : Text) (joined : ℕ) (m : Meeting) (p : Participant) (room : Room) (c : Conference)
    → seated id joined m ≡ some (p, (room, c))
    → is_removed device m.room ≡ true
    → (contains device c.removed ≡ true) × (removed_in device room.conference ≡ true)
seated-removed device id joined m p room c e out =
    let (there, used, found) = seated_found id joined m p room c e in
    let before : (removed_in device room.conference ≡ true) =
      subst (λ (o : Option Room). is_removed device o ≡ true) there out in
    (subst (λ (o : Option Conference). removed_in device o ≡ true) used before, before)

apply_message-Stays :
    (device id : Text) (joined : ℕ) (request : Request) (m : Meeting)
    → is_removed device m.room ≡ true
    → Stays device (apply_message id joined request m).1.room
unfolding apply_message
apply_message-Stays device id joined request m out = elim (Option-cases (seated id joined m)) [
  | inl gone ↦
      let step : (apply_message id joined request m ≡ (false, m)) = rw (apply_message, gone) refl in
      subst (λ (x : Bool × Meeting). Stays device x.1.room) (sym step) (inl out)
  | inr ((p, (room, c)), there) ↦
      let (out', before) = seated-removed device id joined m p room c there out in
      let step : (apply_message id joined request m
          ≡ ((obey p request room c).0, record m { room = (obey p request room c).1 })) =
        rw (apply_message, there) refl in
      subst (λ (x : Bool × Meeting). Stays device x.1.room) (sym step)
        (obey-Stays device p request room c out' before)
]

leave_conference-Stays :
    (device id : Text) (joined : ℕ) (m : Meeting)
    → Stays device m.room
    → Stays device (leave_conference id joined m).room
unfolding leave_conference
leave_conference-Stays device id joined m out = elim (Option-cases (seated id joined m)) [
  | inl gone ↦
      let step : (leave_conference id joined m ≡ m) = rw (leave_conference, gone) refl in
      subst (λ (x : Meeting). Stays device x.room) (sym step) out
  | inr ((p, (room, c)), there) ↦
      let step : (leave_conference id joined m ≡ record m {
        room = some (record room { conference = some (leave_conference_of p c) });
      }) =
        rw (leave_conference, there) refl in
      elim out [
        | inl removed ↦
            let (out', before) = seated-removed device id joined m p room c there removed in
            subst (λ (x : Meeting). Stays device x.room) (sym step) (inl out')
        | inr over ↦
            let (in_room, r, q) = seated_found id joined m p room c there in
            absurd (let e = sym over ∙ in_room in ground arith)
      ]
]

hear-Stays :
    (device id : Text) (joined : ℕ) (request : Request) (m : Meeting)
    → is_removed device m.room ≡ true
    → Stays device (hear id joined request m).room
unfolding hear
hear-Stays device id joined request m out =
    let next = apply_message-Stays device id joined request m out in
    elim (Bool-cases (apply_message id joined request m).0) [
      | inl goes_on ↦ rw goes_on next
      | inr stops ↦
          rw stops
            (leave_conference-Stays device id joined (apply_message id joined request m).1 next)
    ]

enter_conference-removed :
    (device : Text) (e : Entrant) (room : Room) (c : Conference) (m : Meeting)
    → contains device c.removed ≡ true
    → is_removed device m.room ≡ true
    → is_removed device (enter_conference e room c m).1.room ≡ true
unfolding enter_conference
enter_conference-removed device e room c m out before =
    elim (Bool-cases (
      (e.as_host && not (same room.owner e.device))
      || (not e.as_host && elim c.host [ none ↦ true | some x ↦ false ]))) [
        | inl barred ↦ rw barred before
        | inr welcome ↦ elim (Bool-cases (has_device e.device c.participants)) [
          | inl again ↦ rw (welcome, again) before
          | inr new ↦ elim (Bool-cases (contains e.device c.removed)) [
            | inl gone ↦ rw (welcome, new, gone) before
            | inr free ↦ rw (welcome, new, free) out
          ]
        ]
      ]

-- The removed device itself is refused.
enter_conference-refuses :
    (e : Entrant) (room : Room) (c : Conference) (m : Meeting)
    → contains e.device c.removed ≡ true
    → (enter_conference e room c m).0 ≡ false
unfolding enter_conference
enter_conference-refuses e room c m out = ground arith

enter-removed :
    (device : Text) (now : ℕ) (e : Entrant) (o : Option Room) (seq : ℕ)
    → is_removed device o ≡ true
    → is_removed device (enter now e (record { room = o; seq = seq })).1.room ≡ true
unfolding enter enter_room
enter-removed device now e none seq out = out
enter-removed device now e (some room) seq out = elim (Bool-cases (leb room.expires now)) [
  | inl over ↦ rw (enter_room, over) out
  | inr running ↦ elim (Option-cases room.conference) [
    | inl unused ↦ absurd (
        let none_out = sym (ap (λ (o : Option Conference). removed_in device o) unused) ∙ out in
        ground arith)
    | inr (c, used) ↦
        let out' : (contains device c.removed ≡ true) =
          subst (λ (o : Option Conference). removed_in device o ≡ true) used out in
        rw (enter_room, running, used) (enter_conference-removed device e room c _ out' out)
  ]
]

enter-refuses :
    (now : ℕ) (e : Entrant) (o : Option Room) (seq : ℕ)
    → is_removed e.device o ≡ true
    → (enter now e (record { room = o; seq = seq })).0 ≡ false
unfolding enter enter_room
enter-refuses now e none seq out = refl
enter-refuses now e (some room) seq out = elim (Bool-cases (leb room.expires now)) [
  | inl over ↦ rw (enter_room, over) refl
  | inr running ↦ elim (Option-cases room.conference) [
    | inl unused ↦ absurd (
        let none_out = sym (ap (λ (o : Option Conference). removed_in e.device o) unused) ∙ out in
        ground arith)
    | inr (c, used) ↦
        let out' : (contains e.device c.removed ≡ true) =
          subst (λ (o : Option Conference). removed_in e.device o ≡ true) used out in
        rw (enter_room, running, used) (enter_conference-refuses e room c _ out')
  ]
]

open_meeting-removed :
    (device owner : Text) (expires : ℕ) (o : Option Room) (seq : ℕ)
    → is_removed device o ≡ true
    → Stays device (open_meeting owner expires (record { room = o; seq = seq })).room
unfolding open_meeting
open_meeting-removed device owner expires none seq out = absurd (ground arith)
open_meeting-removed device owner expires (some room) seq out = inl out

cleanup_meeting-Stays :
    (device : Text) (now : ℕ) (o : Option Room) (seq : ℕ)
    → is_removed device o ≡ true
    → Stays device (cleanup_meeting now (record { room = o; seq = seq })).room
unfolding cleanup_meeting
cleanup_meeting-Stays device now none seq out = inr refl
cleanup_meeting-Stays device now (some room) seq out = elim (Bool-cases (leb room.expires now)) [
  | inl over ↦ rw over (inr refl)
  | inr running ↦ rw running (inl out)
]

happen-Stays :
    (device : Text) (e : Event) (m : Meeting)
    → is_removed device m.room ≡ true
    → Stays device (happen e m).room
unfolding happen remove_meeting
happen-Stays device (enters now e) m out = inl (enter-removed device now e m.room m.seq out)
happen-Stays device (hears id joined request) m out = hear-Stays device id joined request m out
happen-Stays device (leaves id joined) m out = leave_conference-Stays device id joined m (inl out)
happen-Stays device (opens owner expires) m out =
    open_meeting-removed device owner expires m.room m.seq out
happen-Stays device (cleans now) m out = cleanup_meeting-Stays device now m.room m.seq out
happen-Stays device closes m out = inr refl

history-Stays :
    (device : Text) (events : List Event) (m : Meeting)
    → Stays device m.room
    → (is_removed device (history events m).room ≡ true) ⊎ HasEnded events m
unfolding history
history-Stays device [] m stays = stays
history-Stays device (e ∷ events) m (inr over) = inr (inl over)
history-Stays device (e ∷ events) m (inl out) =
    elim (history-Stays device events (happen e m) (happen-Stays device e m out)) [
      | inl still ↦ inl still
      | inr ended ↦ inr (inr ended)
    ]

hear-kick :
    (id to : Text) (joined : ℕ) (m : Meeting) (p target : Participant) (room : Room)
    (c : Conference)
    → seated id joined m ≡ some (p, (room, c))
    → is_host p.id c.host ≡ true
    → same to p.id ≡ false
    → participant to c.participants ≡ some target
    → is_removed target.device (hear id joined (kicks to) m).room ≡ true
unfolding hear obey apply_message
hear-kick id to joined m p target room c there hosting apart found =
    let out : Option Room =
      some (record room { conference = some (record c { removed = target.device ∷ c.removed }) }) in
    let obeyed : (obey p (kicks to) room c ≡ (true, out)) = rw (obey, hosting, apart, found) refl in
    let applied : (apply_message id joined (kicks to) m ≡ (true, record m { room = out })) =
      rw (apply_message, there)
        (ap (λ (x : Bool × Option Room). (x.0, record m { room = x.1 })) obeyed) in
    let heard : (hear id joined (kicks to) m ≡ record m { room = out }) =
      ap (λ (x : Bool × Meeting). if x.0 then x.1 else leave_conference id joined x.1) applied in
    let first : ((same target.device target.device || contains target.device c.removed) ≡ true) =
      rw (same_refl target.device) refl in
    ap (λ (x : Meeting). is_removed target.device x.room) heard ∙ first

-- After the host has removed another participant, that participant's device cannot enter, whatever
-- happens and under whatever id and role it comes, until the meeting has ended.
pub kicked_stays_out :
    (id to : Text) (joined now : ℕ) (m : Meeting) (p target : Participant) (room : Room)
    (c : Conference) (events : List Event) (e : Entrant)
    → seated id joined m ≡ some (p, (room, c))
    → is_host p.id c.host ≡ true
    → same to p.id ≡ false
    → participant to c.participants ≡ some target
    → e.device ≡ target.device
    → let m' = hear id joined (kicks to) m in
      ((enter now e (history events m')).0 ≡ false) ⊎ HasEnded events m'
kicked_stays_out id to joined now m p target room c events e there hosting apart found same_device =
    let out = hear-kick id to joined m p target room c there hosting apart found in
    let m' = hear id joined (kicks to) m in
    elim (history-Stays target.device events m' (inl out)) [
      | inl still ↦
          let this : (is_removed e.device (history events m').room ≡ true) =
            ap (λ (d : Text). is_removed d (history events m').room) same_device ∙ still in
          inl (enter-refuses now e (history events m').room (history events m').seq this)
      | inr ended ↦ inr ended
    ]
