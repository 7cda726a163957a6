-- ===== src/Relay/History.antt =====
-- The meeting under one code through any history of steps.
use yudesk.Base.{ℕ, Option, none, some, List, [], ◌∷◌, inl, inr, leb, Bool-cases}
use yudesk.Text.{Text}
use yudesk.Relay.Conference.{
  Room, Meeting, Entrant, Request, empty_meeting, enter, apply_message, leave_conference, hear,
  open_meeting, cleanup_meeting, remove_meeting,
}
use yudesk.Relay.Host.{
  RoomIsHosted, enter-IsHosted, apply_message-IsHosted, leave_conference-IsHosted,
}

-- What happens to the meeting under one code.
pub data Event : Type 0 where
  enters : ℕ → Entrant → Event
  hears : Text → ℕ → Request → Event
  leaves : Text → ℕ → Event
  opens : Text → ℕ → Event
  cleans : ℕ → Event
  closes : Event

unfoldable pub happen : Event → Meeting → Meeting
happen (enters now e) m = (enter now e m).1
happen (hears id joined request) m = hear id joined request m
happen (leaves id joined) m = leave_conference id joined m
happen (opens owner expires) m = open_meeting owner expires m
happen (cleans now) m = cleanup_meeting now m
happen closes m = remove_meeting m

unfoldable pub history : List Event → Meeting → Meeting
history [] m = m
history (e ∷ events) m = history events (happen e m)

hear-IsHosted :
    (id : Text) (joined : ℕ) (request : Request) (m : Meeting)
    → RoomIsHosted m.room
    → RoomIsHosted (hear id joined request m).room
unfolding hear
hear-IsHosted id joined request m h =
    let next = apply_message-IsHosted id joined request m h in
    elim (Bool-cases (apply_message id joined request m).0) [
      | inl goes_on ↦ rw goes_on next
      | inr stops ↦
          rw stops (leave_conference-IsHosted id joined (apply_message id joined request m).1 next)
    ]

open_meeting-IsHosted :
    (owner : Text) (expires : ℕ) (o : Option Room) (seq : ℕ)
    → RoomIsHosted o
    → RoomIsHosted (open_meeting owner expires (record { room = o; seq = seq })).room
unfolding open_meeting
open_meeting-IsHosted owner expires none seq h = tt
open_meeting-IsHosted owner expires (some room) seq h = h

cleanup_meeting-IsHosted :
    (now : ℕ) (o : Option Room) (seq : ℕ)
    → RoomIsHosted o
    → RoomIsHosted (cleanup_meeting now (record { room = o; seq = seq })).room
unfolding cleanup_meeting
cleanup_meeting-IsHosted now none seq h = tt
cleanup_meeting-IsHosted now (some room) seq h = elim (Bool-cases (leb room.expires now)) [
  | inl over ↦ rw over tt
  | inr running ↦ rw running h
]

happen-IsHosted : (e : Event) (m : Meeting) → RoomIsHosted m.room → RoomIsHosted (happen e m).room
unfolding happen open_meeting cleanup_meeting remove_meeting
happen-IsHosted (enters now e) m h = enter-IsHosted now e m h
happen-IsHosted (hears id joined request) m h = hear-IsHosted id joined request m h
happen-IsHosted (leaves id joined) m h = leave_conference-IsHosted id joined m h
happen-IsHosted (opens owner expires) m h = open_meeting-IsHosted owner expires m.room m.seq h
happen-IsHosted (cleans now) m h = cleanup_meeting-IsHosted now m.room m.seq h
happen-IsHosted closes m h = tt

history-keeps :
    (events : List Event) (m : Meeting) → RoomIsHosted m.room → RoomIsHosted (history events m).room
unfolding history
history-keeps [] m h = h
history-keeps (e ∷ events) m h = history-keeps events (happen e m) (happen-IsHosted e m h)

-- Whatever happens to a meeting, in its conference the host is a participant and there is one while
-- anybody is there, nobody but the host has its screen shown or recorded, no two participants have one
-- device and no two have one id.
pub history-IsHosted : (events : List Event) → RoomIsHosted (history events empty_meeting).room
history-IsHosted events = history-keeps events empty_meeting tt
