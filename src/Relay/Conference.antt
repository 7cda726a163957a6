-- ===== src/Relay/Conference.antt =====
-- cmd/yudesk-relay/conference.go and meeting.go: the meeting under one code, with its conference. What
-- runs under the broker's lock is one step; the messages that a step queues for the participants are
-- left out, as are names and the time of joining. A participant whose connection fails leaves. One is
-- told from another with the same id by the number it got on joining, as the code does by its pointer.
use yudesk.Base.{
  ℕ, ◌+◌, ◌*◌, ◌%◌, ◌^◌, Bool, true, false, not, ◌&&◌, ◌||◌, Option, none, some, List, [], ◌∷◌, ltb,
  leb, ◌==◌, if◌then◌else◌, same,
}
use yudesk.Text.{Text}

-- `conferenceParticipant`
pub record Participant : Type 0 where
  pub id : Text
  pub device : Text
  pub joined : ℕ
  pub microphone : Bool
  pub camera : Bool
  pub screen : Bool
  pub recording : Bool

-- `conferenceRoom`; a `hostID` that is empty is `none`.
pub record Conference : Type 0 where
  pub participants : List Participant
  pub removed : List Text
  pub host : Option Text

-- `meetingRoom`
pub record Room : Type 0 where
  pub owner : Text
  pub expires : ℕ
  pub conference : Option Conference

-- The entry of `meetings` under the code, and `conferenceSeq`.
pub record Meeting : Type 0 where
  pub room : Option Room
  pub seq : ℕ

abbrev pub empty_meeting : Meeting
empty_meeting = record { room = none; seq = 0 }

abbrev pub new_conference : Conference
new_conference = record { participants = []; removed = []; host = none }

-- `participants[id]`
unfoldable pub participant : Text → List Participant → Option Participant
participant id [] = none
participant id (p ∷ ps) = if same p.id id then some p else participant id ps

-- `participants[p.id] = p`
unfoldable pub seat : Participant → List Participant → List Participant
seat p [] = p ∷ []
seat p (q ∷ ps) = if same q.id p.id then p ∷ ps else q ∷ seat p ps

-- `delete(participants, id)`
unfoldable pub unseat : Text → List Participant → List Participant
unseat id [] = []
unseat id (q ∷ ps) = if same q.id id then ps else q ∷ unseat id ps

-- A participant of this device is there.
abbrev pub has_device : Text → List Participant → Bool
has_device device [] = false
has_device device (p ∷ ps) = same p.device device || has_device device ps

abbrev pub contains : Text → List Text → Bool
contains device [] = false
contains device (d ∷ ds) = same d device || contains device ds

-- `hostID == id`
abbrev pub is_host : Text → Option Text → Bool
is_host id none = false
is_host id (some h) = same h id

-- A device that enters under a new id.
pub record Entrant : Type 0 where
  pub as_host : Bool
  pub device : Text
  pub id : Text

abbrev pub new_participant : Entrant → ℕ → Participant
new_participant e joined = record {
  id = e.id;
  device = e.device;
  joined = joined;
  microphone = false;
  camera = false;
  screen = false;
  recording = false;
}

abbrev pub host_or : Option Text → Text → Option Text
host_or none id = some id
host_or (some h) id = some h

-- `handleConference` under its second lock, with the conference that is there or a new one.
unfoldable pub enter_conference : Entrant → Room → Conference → Meeting → Bool × Meeting
enter_conference e room c m =
    let seq = (m.seq + 1) % 2 ^ 64 in
    let c' : Conference = record c {
      participants = seat (new_participant e seq) c.participants;
      host = host_or c.host e.id;
    } in
    if (e.as_host && not (same room.owner e.device))
      || (not e.as_host && elim c.host [ none ↦ true | some h ↦ false ])
    then (false, m)
    else if has_device e.device c.participants
    then (false, m)
    else if contains e.device c.removed
    then (false, m)
    else (true, record { room = some (record room { conference = some c' }); seq = seq })

unfoldable pub enter_room : ℕ → Entrant → Room → Meeting → Bool × Meeting
enter_room now e room m = if leb room.expires now then (false, m) else elim room.conference [
  | none ↦ if e.as_host then enter_conference e room new_conference m else (false, m)
  | some c ↦ enter_conference e room c m
]

unfoldable pub enter : ℕ → Entrant → Meeting → Bool × Meeting
enter now e m = elim m.room [ none ↦ (false, m) | some room ↦ enter_room now e room m ]

pub data SignalKind : Type 0 where
  offer answer candidate unknown : SignalKind

-- A signal with the lengths of its two texts.
pub record Signal : Type 0 where
  pub kind : SignalKind
  pub sdp : ℕ
  pub candidate : ℕ
  pub to : Text

pub record Switches : Type 0 where
  pub microphone : Bool
  pub camera : Bool
  pub screen : Bool
  pub recording : Bool

-- `relay.ConferenceMessage` by its type.
pub data Request : Type 0 where
  ping ends other : Request
  signals : Signal → Request
  shows : Switches → Request
  transfers kicks : Text → Request

abbrev pub is_invalid_signal : Signal → Bool
is_invalid_signal s = ltb (32 * 1024) s.sdp || ltb (8 * 1024) s.candidate || elim s.kind [
  | SignalKind.offer ↦ s.sdp == 0
  | SignalKind.answer ↦ s.sdp == 0
  | SignalKind.candidate ↦ s.candidate == 0
  | SignalKind.unknown ↦ true
]

-- What a participant's microphone, camera and screen become: the screen and the recording are the host's.
abbrev pub switch : Switches → Bool → Participant → Participant
switch d hosting p = record p {
  microphone = d.microphone;
  camera = d.camera;
  screen = hosting && d.screen;
  recording = hosting && d.recording;
}

abbrev pub hide : Participant → Participant
hide p = record p { screen = false; recording = false }

-- The `switch` of `applyConferenceMessage` for participant `p`: whether it goes on, and the room.
unfoldable pub obey : Participant → Request → Room → Conference → Bool × Option Room
obey p ping room c = (true, some room)
obey p other room c = (false, some room)
obey p (signals s) room c =
    if is_invalid_signal s then (false, some room) else elim (participant s.to c.participants) [
      | none ↦ (true, some room)
      | some target ↦ (not (target.joined == p.joined), some room)
    ]
obey p (shows d) room c = (
  true,
  some (record room {
    conference =
        some (record c { participants = seat (switch d (is_host p.id c.host) p) c.participants });
  }),
)
obey p (transfers to) room c =
    if not (is_host p.id c.host)
      || (elim (participant to c.participants) [ none ↦ true | some q ↦ false ] || same to p.id)
    then (false, some room)
    else (
      true,
      some (record room {
        conference =
            some (record c { participants = seat (hide p) c.participants; host = some to });
      }),
    )
obey p (kicks to) room c =
    if not (is_host p.id c.host) || same to p.id
    then (false, some room)
    else elim (participant to c.participants) [
      | none ↦ (true, some room)
      | some target ↦ (
        true,
        some (record room { conference = some (record c { removed = target.device ∷ c.removed }) }),
      )
    ]
obey p ends room c = if is_host p.id c.host then (false, none) else (false, some room)

-- The participant with this id and number, with its room and its conference.
unfoldable pub seated_in :
    Text → ℕ → Room → Option Conference → Option (Participant × (Room × Conference))
seated_in id joined room none = none
seated_in id joined room (some c) = elim (participant id c.participants) [
  | none ↦ none
  | some p ↦ if p.joined == joined then some (p, (room, c)) else none
]

unfoldable pub seated : Text → ℕ → Meeting → Option (Participant × (Room × Conference))
seated id joined m = elim m.room [
  | none ↦ none
  | some room ↦ seated_in id joined room room.conference
]

-- `applyConferenceMessage`
unfoldable pub apply_message : Text → ℕ → Request → Meeting → Bool × Meeting
apply_message id joined request m = elim (seated id joined m) [
  | none ↦ (false, m)
  | some (p, (room, c)) ↦
      let (goes_on, room') = obey p request room c in (goes_on, record m { room = room' })
]

-- The participant that has been there longest.
unfoldable pub first_joined : List Participant → Option Participant
first_joined [] = none
first_joined (p ∷ ps) = elim (first_joined ps) [
  | none ↦ some p
  | some q ↦ if ltb q.joined p.joined then some q else some p
]

abbrev pub id_of : Option Participant → Option Text
id_of none = none
id_of (some p) = some p.id

abbrev pub leave_conference_of : Participant → Conference → Conference
leave_conference_of p c =
    let rest = unseat p.id c.participants in
    record c {
      participants = rest;
      host = if is_host p.id c.host then id_of (first_joined rest) else c.host;
    }

-- `leaveConference`
unfoldable pub leave_conference : Text → ℕ → Meeting → Meeting
leave_conference id joined m = elim (seated id joined m) [
  | none ↦ m
  | some (p, (room, c)) ↦ record m {
    room = some (record room { conference = some (leave_conference_of p c) });
  }
]

-- A round of `readConferenceMessages`: a message that ends it is followed by leaving.
unfoldable pub hear : Text → ℕ → Request → Meeting → Meeting
hear id joined request m =
    let (goes_on, m') = apply_message id joined request m in
    if goes_on then m' else leave_conference id joined m'

-- `handleMeeting` opens the meeting under a code that has none.
unfoldable pub open_meeting : Text → ℕ → Meeting → Meeting
open_meeting owner expires m = elim m.room [
  | some room ↦ m
  | none ↦ record m { room = some (record { owner = owner; expires = expires; conference = none }) }
]

-- `cleanupMeetingsLocked`, for this code
unfoldable pub cleanup_meeting : ℕ → Meeting → Meeting
cleanup_meeting now m = elim m.room [
  | none ↦ m
  | some room ↦ if leb room.expires now then record m { room = none } else m
]

-- `removeMeetingLocked`, for the device whose meeting has this code
unfoldable pub remove_meeting : Meeting → Meeting
remove_meeting m = record m { room = none }
