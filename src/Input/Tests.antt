-- ===== src/Input/Tests.antt =====
-- The theorems about the queues of input events at concrete inputs.
use yudesk.Base.{ℕ, ◌≡◌, ◌≤◌, ◌++◌, refl, true, false, Option, none, some, List, [], ◌∷◌, length}
use yudesk.Input.Buttons.{Action}
use yudesk.Input.Queue.{Message, Method, Event, after, works, queue_limit}
use yudesk.Input.Ring.{
  QueuedValue, Batch, Operation, offers, nexts, clears, ring_run, list_run, new_ring,
}
use yudesk.Input.Refinement.{ring_run-list_run}
use yudesk.Input.Delivery.{after-length, after-delivers, firm, applied, offered}

abbrev hover : Message
hover = record {
  is_event = true;
  method = Method.input;
  params_size = 20;
  data_size = 0;
  decoded = some (record { action = Action.move; button = 0 } ∷ []);
}

abbrev pressing : Message
pressing = record {
  is_event = true;
  method = Method.input;
  params_size = 20;
  data_size = 0;
  decoded = some (record { action = Action.down; button = 1 } ∷ []);
}

abbrev events : List Event
events =
    Event.offers hover
    ∷ works
    ∷ Event.offers pressing
    ∷ Event.offers hover
    ∷ Event.offers hover
    ∷ []

after-length_example : length (after events).items ≤ queue_limit
after-length_example = after-length events

after-delivers_example : firm (applied events) ++ firm (after events).items ≡ firm (offered events)
after-delivers_example = after-delivers events refl

abbrev blank : QueuedValue ℕ
blank = record { value = 0; width = 0; height = 0 }

abbrev moved : Option Batch
moved = some (record {
  events = record { action = Action.move; button = 0 } ∷ [];
  width = 800;
  height = 600;
})

abbrev calls : List (Operation ℕ)
calls =
    offers 1 moved false
    ∷ offers 2 moved false
    ∷ offers 3 none false
    ∷ nexts
    ∷ nexts
    ∷ nexts
    ∷ clears
    ∷ []

ring_run-list_run_example :
    ring_run ℕ blank calls (new_ring ℕ blank)
    ≡ list_run ℕ calls (record { items = []; buttons = 0 })
ring_run-list_run_example = ring_run-list_run blank calls
