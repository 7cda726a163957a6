-- ===== src/Relay/Tests.antt =====
-- The theorems about the meetings of cmd/yudesk-relay at concrete inputs.
use yudesk.Base.{same, ◌≡◌, refl, true, false, some, List, [], ◌∷◌, ◌⊎◌}
use yudesk.Relay.Conference.{
  Conference, Room, Meeting, Entrant, empty_meeting, new_participant, enter, hear, kicks, seated,
  seated_in, participant,
}
use yudesk.Relay.Host.{RoomIsHosted}
use yudesk.Relay.History.{Event, enters, leaves, opens, history, history-IsHosted}
use yudesk.Relay.Removal.{HasEnded, kicked_stays_out}

abbrev chair : Entrant
chair = record { as_host = true; device = b'A' ∷ []; id = 1 ∷ [] }

abbrev visitor : Entrant
visitor = record { as_host = false; device = b'B' ∷ []; id = 2 ∷ [] }

abbrev short_story : List Event
short_story = opens (b'A' ∷ []) 90 ∷ enters 10 chair ∷ enters 11 visitor ∷ leaves (1 ∷ []) 1 ∷ []

history-IsHosted_example : RoomIsHosted (history short_story empty_meeting).room
history-IsHosted_example = history-IsHosted short_story

abbrev both : Conference
both = record {
  participants = new_participant chair 1 ∷ new_participant visitor 2 ∷ [];
  removed = [];
  host = some (1 ∷ []);
}

abbrev hall : Room
hall = record { owner = b'A' ∷ []; expires = 90; conference = some both }

abbrev gathering : Meeting
gathering = record { room = some hall; seq = 2 }

gathering-seated : seated (1 ∷ []) 1 gathering ≡ some (new_participant chair 1, (hall, both))
unfolding seated seated_in participant same
gathering-seated = refl

visitor-there : participant (2 ∷ []) both.participants ≡ some (new_participant visitor 2)
unfolding participant same
visitor-there = refl

abbrev again : Entrant
again = record visitor { id = 3 ∷ [] }

kicked_stays_out_example :
    let m' = hear (1 ∷ []) 1 (kicks (2 ∷ [])) gathering in
    ((enter 50 again (history (leaves (2 ∷ []) 2 ∷ []) m')).0 ≡ false)
    ⊎ HasEnded (leaves (2 ∷ []) 2 ∷ []) m'
unfolding same
kicked_stays_out_example =
    kicked_stays_out (1 ∷ []) (2 ∷ []) 1 50 gathering (new_participant chair 1)
      (new_participant visitor 2) hall both (leaves (2 ∷ []) 2 ∷ []) again gathering-seated refl
      refl visitor-there refl
