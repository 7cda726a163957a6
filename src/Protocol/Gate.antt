-- ===== src/Protocol/Gate.antt =====
-- internal/protocol/priority.go: the gate that decides who writes next. A waiter is a number; what
-- happens under the mutex is one step, and a closed `ready` channel is the number in the result.
use yudesk.Base.{
  ℕ, ◌+◌, Bool, true, false, not, Option, none, some, List, [], ◌∷◌, ◌++◌, ltb, ◌==◌, if◌then◌else◌,
}

pub record Gate : Type 0 where
  pub held : Bool
  pub burst : ℕ
  pub high : List ℕ
  pub low : List ℕ

abbrev pub new_gate : Gate
new_gate = record { held = false; burst = 0; high = []; low = [] }

-- `acquire` up to the wait; `some w` says that `w` has the gate at once.
unfoldable pub acquire : ℕ → Bool → Gate → Gate × Option ℕ
acquire w is_high g =
    if not g.held
    then (record g { held = true }, some w)
    else if is_high
    then (record g { high = g.high ++ w ∷ [] }, none)
    else (record g { low = g.low ++ w ∷ [] }, none)

-- The choice of the queue in `release`.
unfoldable pub prefers_high : ℕ → List ℕ → List ℕ → Bool
prefers_high burst [] low = false
prefers_high burst (h ∷ high) [] = true
prefers_high burst (h ∷ high) (l ∷ low) = ltb burst 8

unfoldable pub grant_high : Gate → List ℕ → Gate × Option ℕ
grant_high g [] = (record g { held = false; burst = 0 }, none)
grant_high g (w ∷ high) = (record g { high = high; burst = g.burst + 1 }, some w)

unfoldable pub grant_low : Gate → List ℕ → Gate × Option ℕ
grant_low g [] = (record g { held = false; burst = 0 }, none)
grant_low g (w ∷ low) = (record g { low = low; burst = 0 }, some w)

-- `release`; the result is the waiter whose channel is closed.
unfoldable pub release : Gate → Gate × Option ℕ
unfolding prefers_high grant_high grant_low
release g = if prefers_high g.burst g.high g.low then grant_high g g.high else grant_low g g.low

-- The loop that takes a waiter out of its queue.
unfoldable pub withdraw : ℕ → List ℕ → List ℕ
withdraw w [] = []
withdraw w (x ∷ queue) = if x == w then queue else x ∷ withdraw w queue

-- The `ctx.Done` case of `acquire`: a waiter that was granted the gate passes it on.
unfoldable pub cancel : ℕ → Bool → Bool → Gate → Gate × Option ℕ
unfolding release withdraw
cancel w is_high granted g =
    if granted
    then release g
    else if is_high
    then (record g { high = withdraw w g.high }, none)
    else (record g { low = withdraw w g.low }, none)

-- What may happen at the gate. The flag of `cancels` is `w.granted`.
pub data Event : Type 0 where
  acquires : ℕ → Bool → Event
  releases : Event
  cancels : ℕ → Bool → Bool → Event

unfoldable pub handle : Event → Gate → Gate × Option ℕ
unfolding acquire release cancel
handle (acquires w is_high) g = acquire w is_high g
handle releases g = release g
handle (cancels w is_high granted) g = cancel w is_high granted g

abbrev pub note : Option ℕ → List ℕ → List ℕ
note none log = log
note (some w) log = w ∷ log

-- The gate after a sequence of events, and who was granted it, in order.
unfoldable pub run : List Event → Gate → Gate × List ℕ
unfolding handle
run [] g = (g, [])
run (e ∷ es) g =
    let (g', granted) = handle e g in let (g'', log) = run es g' in (g'', note granted log)
