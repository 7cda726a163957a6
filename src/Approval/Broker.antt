-- ===== src/Approval/Broker.antt =====
-- internal/approval/approval.go: Broker. What happens under the mutex is one step; a request that
-- waits is its entry in `pending`, with the channel for the answer. Times are in nanoseconds.
use yudesk.Base.{
  ℕ, ◌+◌, ◌-◌, ◌*◌, Bool, true, false, not, ◌||◌, Option, none, some, List, [], ◌∷◌, ◌++◌, ltb, leb,
  if◌then◌else◌, same, length,
}
use yudesk.Text.{Text}

pub data Mode : Type 0 where
  control view other : Mode

-- `entry`: what `Pending` holds, and the channel, which has room for one answer.
pub record Entry : Type 0 where
  pub id : Text
  pub mode : Mode
  pub deadline : ℕ
  pub result : Option Bool

pub record Broker : Type 0 where
  pub pending : Option Entry
  pub history : List ℕ
  pub timeout : ℕ

abbrev pub second : ℕ
second = 1_000_000_000

abbrev pub minute : ℕ
minute = 60 * second

-- `New`
abbrev pub new : Broker
new = record { pending = none; history = []; timeout = 60 * second }

-- How a call of Request goes on or ends.
pub data Reply : Type 0 where
  waits granted denied timed_out busy cancelled bad_mode too_many : Reply

-- `now.Sub(at) < time.Minute`
abbrev pub recent : ℕ → ℕ → Bool
recent now at = ltb (now - at) minute

unfoldable pub kept : ℕ → List ℕ → List ℕ
kept now [] = []
kept now (at ∷ history) = if recent now at then at ∷ kept now history else kept now history

-- The step of `Request` under the mutex: `nonce` is the fresh id.
unfoldable pub admit : ℕ → Text → Mode → Broker → Reply × Broker
unfolding kept
admit now nonce mode b = elim b.pending [
  | some p ↦ (busy, b)
  | none ↦
      let history = kept now b.history in
      if leb 3 (length history) then (too_many, record b { history = history }) else (
        waits,
        record b {
          history = history ++ now ∷ [];
          pending =
              some (record { id = nonce; mode = mode; deadline = now + b.timeout; result = none });
        },
      )
]

-- `Request` up to the wait; `gone` is `ctx.Err() != nil`.
unfoldable pub request : ℕ → Bool → Text → Mode → Broker → Reply × Broker
unfolding admit
request now gone nonce other b = (bad_mode, b)
request now gone nonce mode b = if gone then (cancelled, b) else admit now nonce mode b

-- Which case of the `select` in `Request` runs, with `ctx.Err() != nil` after an answer.
pub data Wake : Type 0 where
  context_done timer : Wake
  answer : Bool → Wake

unfoldable pub answered : ℕ → Bool → Entry → Bool → Reply
answered now gone p allowed =
    if gone
    then cancelled
    else if leb p.deadline now
    then timed_out
    else if allowed
    then granted
    else denied

-- The result of the `select`; `none` where its case is not ready.
unfoldable pub outcome : ℕ → Wake → Entry → Option Reply
unfolding answered
outcome now context_done p = some cancelled
outcome now timer p = if leb p.deadline now then some timed_out else none
outcome now (answer gone) p = elim p.result [
  | none ↦ none
  | some allowed ↦ some (answered now gone p allowed)
]

-- `Request` from the wait on, with its deferred function.
unfoldable pub finish : ℕ → Wake → Broker → Option Reply × Broker
unfolding outcome
finish now wake b = elim b.pending [
  | none ↦ (none, b)
  | some p ↦ elim (outcome now wake p) [
    | none ↦ (none, b)
    | some reply ↦ (some reply, record b { pending = none })
  ]
]

-- A send to the channel that does not block.
unfoldable pub send : Bool → Entry → Bool × Entry
send accept p = elim p.result [
  | none ↦ (true, record p { result = some accept })
  | some earlier ↦ (false, p)
]

-- `Resolve`; the Boolean is that it gave no error.
unfoldable pub resolve : ℕ → Text → Bool → Broker → Bool × Broker
unfolding send
resolve now id accept b = elim b.pending [
  | none ↦ (false, b)
  | some p ↦
      if not (same p.id id) || leb p.deadline now
      then (false, b)
      else let (sent, p') = send accept p in (sent, record b { pending = some p' })
]

-- `Cancel`
unfoldable pub cancel_all : Broker → Broker
unfolding send
cancel_all b = elim b.pending [ none ↦ b | some p ↦ record b { pending = some (send false p).1 } ]

-- `Pending`
unfoldable pub shown : ℕ → Broker → Option Entry
shown now b = elim b.pending [ none ↦ none | some p ↦ if leb p.deadline now then none else some p ]

pub data Event : Type 0 where
  requests : Bool → Text → Mode → Event
  wakes : Wake → Event
  resolves : Text → Bool → Event
  cancels : Event

unfoldable pub handle : ℕ → Event → Broker → Option Reply × Broker
unfolding request finish resolve cancel_all
handle now (requests gone nonce mode) b =
    let (reply, b') = request now gone nonce mode b in (some reply, b')
handle now (wakes wake) b = finish now wake b
handle now (resolves id accept) b = (none, (resolve now id accept b).1)
handle now cancels b = (none, cancel_all b)

-- The broker after events at their times, the newest first.
unfoldable pub after : List (ℕ × Event) → Broker
unfolding handle
after [] = new
after ((now, e) ∷ es) = (handle now e (after es)).1
