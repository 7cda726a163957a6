-- ===== src/Lifecycle/Tracker.antt =====
-- internal/uilifecycle/tracker.go: what happens under the mutex is one step; a timer is the generation
-- that its function compares, and `closed` counts the closing of `done` or the calls of `onEmpty`.
use yudesk.Base.{
  ℕ, ◌+◌, ◌-◌, ◌%◌, ◌^◌, Bool, true, false, ◌&&◌, Option, none, some, List, [], ◌∷◌, ◌==◌,
  if◌then◌else◌,
}

pub record Tracker : Type 0 where
  pub clients : ℕ
  pub armed : Bool
  pub generation : ℕ
  pub has_callback : Bool
  pub closed : ℕ

-- `New` and `NewWithCallback`
abbrev pub new : Bool → Tracker
new has_callback = record {
  clients = 0;
  armed = false;
  generation = 0;
  has_callback = has_callback;
  closed = 0;
}

-- `t.generation++` on uint64
abbrev pub next_generation : ℕ → ℕ
next_generation generation = (generation + 1) % 2 ^ 64

-- `Suspend`
unfoldable pub suspend : Tracker → Tracker
suspend t = record t { armed = false; generation = next_generation t.generation }

-- What `ServeHTTP` does under the mutex when a page attaches.
unfoldable pub attach : Tracker → Tracker
attach t = record t {
  clients = t.clients + 1;
  armed = true;
  generation = next_generation t.generation;
}

-- `detach`; the result is the generation of the timer that it starts, if any.
unfoldable pub detach : Tracker → Tracker × Option ℕ
detach t =
    let t' : Tracker = record t {
      clients = t.clients - 1;
      generation = next_generation t.generation;
    } in
    (t', if t'.armed && t'.clients == 0 then some t'.generation else none)

-- `shouldClose`
unfoldable pub should_close : ℕ → Tracker → Bool
should_close generation t = t.armed && t.clients == 0 && t.generation == generation

-- The function of a timer. `t.once` closes `done` the first time only.
unfoldable pub fire : ℕ → Tracker → Tracker
unfolding should_close
fire generation t =
    if should_close generation t
    then (if t.has_callback
        then record t {
          armed = false;
          generation = next_generation t.generation;
          closed = t.closed + 1;
        }
        else record t { closed = 1 })
    else t

pub data Event : Type 0 where
  attaches detaches suspends : Event
  fires : ℕ → Event

unfoldable pub handle : Event → Tracker → Tracker
unfolding attach detach suspend fire
handle attaches t = attach t
handle detaches t = (detach t).0
handle suspends t = suspend t
handle (fires generation) t = fire generation t

-- The tracker after events, the oldest first.
unfoldable pub run : List Event → Tracker → Tracker
unfolding handle
run [] t = t
run (e ∷ es) t = run es (handle e t)
