-- ===== src/Lifecycle/Tests.antt =====
-- The theorem about internal/uilifecycle at a concrete input.
use yudesk.Base.{◌≡◌, refl, true, false, List, [], ◌∷◌, arith}
use yudesk.Lifecycle.Tracker.{Tracker, detach, run, Event, fires}
use yudesk.Lifecycle.Grace.{fire-untouched, touched}

abbrev opened : Tracker
opened = record { clients = 1; armed = true; generation = 1; has_callback = false; closed = 0 }

abbrev late_timers : List Event
late_timers = fires 1 ∷ fires 0 ∷ []

fire-untouched_example :
    (touched late_timers ≡ false)
    × ((detach opened).0.clients ≡ 0)
    × ((run late_timers (detach opened).0).clients ≡ 0)
unfolding detach run
fire-untouched_example = fire-untouched opened late_timers 2 (omega arith) (omega arith) refl refl
