-- ===== src/Input/Buttons.antt =====
-- Which mouse buttons are down, as the queues of input events keep it (internal/agentapp and
-- mobile/core).
use yudesk.Base.{
  ℕ, ◌+◌, ◌-◌, ◌/◌, ◌%◌, ◌^◌, Bool, true, false, ◌&&◌, List, [], ◌∷◌, leb, ◌==◌, if◌then◌else◌,
}

-- The type of an event, as far as the queues look.
pub data Action : Type 0 where
  move down up other : Action

pub record InputEvent : Type 0 where
  pub action : Action
  pub button : ℕ

abbrev pub is_set : ℕ → ℕ → Bool
is_set button buttons = buttons / 2 ^ button % 2 == 1

-- `buttons |= 1 << button`
unfoldable pub press : ℕ → ℕ → ℕ
press button buttons = if is_set button buttons then buttons else buttons + 2 ^ button

-- `buttons &^= 1 << button`
unfoldable pub lift : ℕ → ℕ → ℕ
lift button buttons = if is_set button buttons then buttons - 2 ^ button else buttons

unfoldable pub track_one : InputEvent → ℕ → ℕ
unfolding press lift
track_one event buttons =
    if leb 1 event.button && leb event.button 3
    then elim event.action [
      | Action.down ↦ press event.button buttons
      | Action.up ↦ lift event.button buttons
      | Action.move ↦ buttons
      | Action.other ↦ buttons
    ]
    else buttons

-- The loop over the events of a message.
unfoldable pub track : List InputEvent → ℕ → ℕ
unfolding track_one
track [] buttons = buttons
track (event ∷ events) buttons = track events (track_one event buttons)

-- `len(p.Events) == 1 && p.Events[0].Type == "move"`
unfoldable pub is_single_move : List InputEvent → Bool
is_single_move [] = false
is_single_move (event ∷ []) = elim event.action [
  | Action.move ↦ true
  | Action.down ↦ false
  | Action.up ↦ false
  | Action.other ↦ false
]
is_single_move (event ∷ again ∷ events) = false
