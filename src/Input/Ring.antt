-- ===== src/Input/Ring.antt =====
-- mobile/core/queue.go: latestMoveQueue, a ring of 64 slots, beside the queue that it means, a list.
-- A width or height below 0 does not occur: the client sends sizes.
use yudesk.Base.{
  ℕ, ◌+◌, ◌-◌, ◌%◌, Bool, true, false, ◌&&◌, Option, none, some, List, [], ◌∷◌, ◌++◌, ltb, ◌==◌,
  if◌then◌else◌, length,
}
use yudesk.Input.Buttons.{InputEvent, track, is_single_move}

-- `inputBatch`
pub record Batch : Type 0 where
  pub events : List InputEvent
  pub width : ℕ
  pub height : ℕ

abbrev pub capacity : ℕ
capacity = 64

-- The frame of a hover move; (0, 0) for anything else.
unfoldable pub frame_of : ℕ → Option Batch → ℕ × ℕ
unfolding is_single_move
frame_of buttons none = (0, 0)
frame_of buttons (some b) =
    if buttons == 0 && is_single_move b.events then (b.width, b.height) else (0, 0)

-- `q.buttons` after an entry was added.
unfoldable pub next_buttons : Bool → Option Batch → ℕ → ℕ
unfolding track
next_buttons true decoded buttons = 0
next_buttons false none buttons = buttons
next_buttons false (some b) buttons = track b.events buttons

module _ (T : Type 0) where
  -- `queuedValue`
  pub record QueuedValue : Type 0 where
    pub value : T
    pub width : ℕ
    pub height : ℕ

  pub record Ring : Type 0 where
    pub values : ℕ → QueuedValue
    pub head : ℕ
    pub size : ℕ
    pub buttons : ℕ

  -- `q.values[slot] = entry`
  unfoldable pub put : ℕ → QueuedValue → (ℕ → QueuedValue) → ℕ → QueuedValue
  put slot entry values i = if i == slot then entry else values i

  abbrev pub entry_of : T → Option Batch → ℕ → QueuedValue
  entry_of value decoded buttons = record {
    value = value;
    width = (frame_of buttons decoded).0;
    height = (frame_of buttons decoded).1;
  }

  abbrev pub same_frame : QueuedValue → QueuedValue → Bool
  same_frame a b = a.width == b.width && a.height == b.height

  -- `offer`; `decoded` is what `json.Unmarshal` gives for `raw`.
  unfoldable pub offer : T → Option Batch → Bool → Ring → Bool × Ring
  unfolding put frame_of next_buttons
  offer value decoded release q =
      let entry = entry_of value decoded q.buttons in
      let tail = (q.head + q.size - 1) % capacity in
      if (ltb 0 q.size && ltb 0 entry.width) && same_frame (q.values tail) entry
      then (true, record q { values = put tail entry q.values })
      else if q.size == capacity
      then (false, q)
      else (
        true,
        record q {
          values = put ((q.head + q.size) % capacity) entry q.values;
          size = q.size + 1;
          buttons = next_buttons release decoded q.buttons;
        },
      )

  -- The step of `next` that takes an entry; `none` where it waits. `blank` is the zero value.
  unfoldable pub take_next : QueuedValue → Ring → Option T × Ring
  unfolding put
  take_next blank q =
      if ltb 0 q.size
      then (
        some (q.values q.head).value,
        record q {
          values = put q.head blank q.values;
          head = (q.head + 1) % capacity;
          size = q.size - 1;
        },
      )
      else (none, q)

  -- `clear`
  unfoldable pub clear : QueuedValue → Ring → Ring
  clear blank q = record { values = λ i. blank; head = 0; size = 0; buttons = 0 }

  -- `newLatestMoveQueue`
  abbrev pub new_ring : QueuedValue → Ring
  new_ring blank = record { values = λ i. blank; head = 0; size = 0; buttons = 0 }

  -- The queue that the ring stands for.
  pub record MoveQueue : Type 0 where
    pub items : List QueuedValue
    pub buttons : ℕ

  abbrev pub tail_is : QueuedValue → List QueuedValue → Bool
  tail_is entry [] = false
  tail_is entry (x ∷ []) = same_frame x entry
  tail_is entry (x ∷ y ∷ items) = tail_is entry (y ∷ items)

  abbrev pub with_tail : QueuedValue → List QueuedValue → List QueuedValue
  with_tail entry [] = []
  with_tail entry (x ∷ []) = entry ∷ []
  with_tail entry (x ∷ y ∷ items) = x ∷ with_tail entry (y ∷ items)

  unfoldable pub list_offer : T → Option Batch → Bool → MoveQueue → Bool × MoveQueue
  unfolding frame_of next_buttons
  list_offer value decoded release q =
      let entry = entry_of value decoded q.buttons in
      if ltb 0 entry.width && tail_is entry q.items
      then (true, record q { items = with_tail entry q.items })
      else if length q.items == capacity
      then (false, q)
      else (
        true,
        record { items = q.items ++ entry ∷ []; buttons = next_buttons release decoded q.buttons },
      )

  unfoldable pub list_next : MoveQueue → Option T × MoveQueue
  list_next q = elim q.items [
    | [] ↦ (none, q)
    | x ∷ items ↦ (some x.value, record q { items = items })
  ]

  pub data Operation : Type 0 where
    offers : T → Option Batch → Bool → Operation
    nexts clears : Operation

  -- What a caller sees: the Boolean of `offer`, the value of `next`.
  pub data Answer : Type 0 where
    accepted : Bool → Answer
    taken : Option T → Answer
    cleared : Answer

  unfoldable pub ring_run : QueuedValue → List Operation → Ring → List Answer
  unfolding offer take_next clear
  ring_run blank [] q = []
  ring_run blank (offers value decoded release ∷ ops) q =
      let (ok, q') = offer value decoded release q in accepted ok ∷ ring_run blank ops q'
  ring_run blank (nexts ∷ ops) q =
      let (value, q') = take_next blank q in taken value ∷ ring_run blank ops q'
  ring_run blank (clears ∷ ops) q = cleared ∷ ring_run blank ops (clear blank q)

  unfoldable pub list_run : List Operation → MoveQueue → List Answer
  unfolding list_offer list_next
  list_run [] q = []
  list_run (offers value decoded release ∷ ops) q =
      let (ok, q') = list_offer value decoded release q in accepted ok ∷ list_run ops q'
  list_run (nexts ∷ ops) q = let (value, q') = list_next q in taken value ∷ list_run ops q'
  list_run (clears ∷ ops) q = cleared ∷ list_run ops (record { items = []; buttons = 0 })
