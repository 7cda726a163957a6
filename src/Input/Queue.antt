-- ===== src/Input/Queue.antt =====
-- internal/agentapp/input_queue.go: the queue between the network reader and the one worker that
-- applies input. What happens under the mutex is one step; the events of a message are what
-- `json.Unmarshal` gives for its parameters, `none` where it fails.
use yudesk.Base.{
  ℕ, ◌*◌, Bool, true, false, not, ◌&&◌, ◌||◌, Option, none, some, List, [], ◌∷◌, ◌++◌, ltb, ◌==◌,
  if◌then◌else◌, length,
}
use yudesk.Input.Buttons.{InputEvent, track, is_single_move}

pub data Method : Type 0 where
  input input_release other : Method

pub record Message : Type 0 where
  pub is_event : Bool
  pub method : Method
  pub params_size : ℕ
  pub data_size : ℕ
  pub decoded : Option (List InputEvent)

pub record Queued : Type 0 where
  pub message : Message
  pub hover : Bool

pub record InputQueue : Type 0 where
  pub items : List Queued
  pub buttons : ℕ
  pub stopped : Bool

abbrev pub queue_limit : ℕ
queue_limit = 64

abbrev pub params_limit : ℕ
params_limit = 64 * 1024

-- `newInputQueue`
abbrev pub new : InputQueue
new = record { items = []; buttons = 0; stopped = false }

-- `p.Events` where `valid` holds.
unfoldable pub events_of : Message → Option (List InputEvent)
events_of m = elim m.method [
  | Method.input ↦ m.decoded
  | Method.input_release ↦ none
  | Method.other ↦ none
]

unfoldable pub is_hover : ℕ → Message → Bool
unfolding events_of is_single_move
is_hover buttons m = elim (events_of m) [
  | none ↦ false
  | some events ↦ buttons == 0 && m.is_event && is_single_move events
]

unfoldable pub ends_in_hover : List Queued → Bool
ends_in_hover [] = false
ends_in_hover (q ∷ []) = q.hover
ends_in_hover (q ∷ r ∷ items) = ends_in_hover (r ∷ items)

unfoldable pub replace_last : Queued → List Queued → List Queued
replace_last x [] = []
replace_last x (q ∷ []) = x ∷ []
replace_last x (q ∷ r ∷ items) = q ∷ replace_last x (r ∷ items)

-- `q.buttons` after an accepted message.
unfoldable pub buttons_after : Message → ℕ → ℕ
unfolding events_of track
buttons_after m buttons = elim m.method [
  | Method.input_release ↦ 0
  | Method.input ↦ elim (events_of m) [ none ↦ buttons | some events ↦ track events buttons ]
  | Method.other ↦ buttons
]

-- `enqueue`; the Boolean is its result.
unfoldable pub enqueue : Message → InputQueue → Bool × InputQueue
unfolding is_hover ends_in_hover replace_last buttons_after
enqueue m q =
    if ltb params_limit m.params_size || not (m.data_size == 0)
    then (false, q)
    else if q.stopped
    then (false, q)
    else let x : Queued = record { message = m; hover = is_hover q.buttons m } in
      if x.hover && ends_in_hover q.items
      then (true, record q { items = replace_last x q.items })
      else if length q.items == queue_limit
      then (false, q)
      else (true, record q { buttons = buttons_after m q.buttons; items = q.items ++ x ∷ [] })

-- One round of the worker: the message that it applies next, if it does not wait or end.
unfoldable pub dequeue : InputQueue → Option Queued × InputQueue
dequeue q =
    if q.stopped
    then (none, q)
    else elim q.items [ [] ↦ (none, q) | x ∷ items ↦ (some x, record q { items = items }) ]

-- `stop`
unfoldable pub stop : InputQueue → InputQueue
stop q = record q { stopped = true; items = [] }

pub data Event : Type 0 where
  offers : Message → Event
  works stops : Event

-- The queue after a sequence of events, the newest first.
unfoldable pub after : List Event → InputQueue
unfolding enqueue dequeue stop
after [] = new
after (offers m ∷ es) = (enqueue m (after es)).1
after (works ∷ es) = (dequeue (after es)).1
after (stops ∷ es) = stop (after es)
