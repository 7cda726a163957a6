-- ===== src/Input/Hover.antt =====
-- What a hover move is, told from the accepted messages alone: a message of a single move event that
-- arrives while no mouse button is down.
use yudesk.Base.{
  ℕ, zero, suc, ◌+◌, ◌≡◌, ◌∙◌, refl, sym, ap, Bool, true, false, not, ◌&&◌, Option, none, some,
  List, [], ◌∷◌, arith, if◌then◌else◌, ◌==◌, ltb, length, Bool-cases, &&-eq-true, ◌||◌, inl, inr,
}
use yudesk.Input.Buttons.{Action, InputEvent, press, lift, track_one, track, is_single_move}
use yudesk.Input.Queue.{
  Message, Method, InputQueue, events_of, is_hover, ends_in_hover, buttons_after, enqueue, dequeue,
  stop, Event, offers, works, stops, after, params_limit, queue_limit,
}

-- Whether a button is down after an event, and whether it was before.
abbrev pub held_by_event : ℕ → InputEvent → Bool → Bool
held_by_event button event was =
    if event.button == button
    then elim event.action [
      | Action.down ↦ true
      | Action.up ↦ false
      | Action.move ↦ was
      | Action.other ↦ was
    ]
    else was

abbrev pub held_by_events : ℕ → List InputEvent → Bool → Bool
held_by_events button [] was = was
held_by_events button (event ∷ events) was =
    held_by_events button events (held_by_event button event was)

-- A release lets go of every button; a message without readable events changes nothing.
abbrev pub held_by : ℕ → Message → Bool → Bool
held_by button m was = elim m.method [
  | Method.input ↦ elim m.decoded [ none ↦ was | some events ↦ held_by_events button events was ]
  | Method.input_release ↦ false
  | Method.other ↦ was
]

-- Whether a button is down, by all the messages accepted so far (the newest event comes first).
abbrev pub held : ℕ → List Event → Bool
held button [] = false
held button (offers m ∷ es) =
    if (enqueue m (after es)).0 then held_by button m (held button es) else held button es
held button (works ∷ es) = held button es
held button (stops ∷ es) = held button es

abbrev pub is_move : InputEvent → Bool
is_move event = elim event.action [
  | Action.move ↦ true
  | Action.down ↦ false
  | Action.up ↦ false
  | Action.other ↦ false
]

-- An event message of method input whose events are one move.
abbrev pub is_move_message : Message → Bool
is_move_message m = elim m.method [
  | Method.input ↦ elim m.decoded [
    | none ↦ false
    | some events ↦ elim events [
      | [] ↦ false
      | event ∷ later ↦ m.is_event && is_move event && length later == 0
    ]
  ]
  | Method.input_release ↦ false
  | Method.other ↦ false
]

-- A move that is offered while the left, middle and right buttons are up.
abbrev pub is_free_move : List Event → Message → Bool
is_free_move es m = not (held 1 es) && not (held 2 es) && not (held 3 es) && is_move_message m

abbrev bit : Bool → ℕ → ℕ
bit b value = if b then value else 0

-- The buttons 1, 2 and 3 as the code's bit set.
abbrev bits : Bool → Bool → Bool → ℕ
bits a b c = bit a 2 + (bit b 4 + bit c 8)

press_1 : (a b c : Bool) → press 1 (bits a b c) ≡ bits true b c
unfolding press
press_1 a b c = ground arith

press_2 : (a b c : Bool) → press 2 (bits a b c) ≡ bits a true c
unfolding press
press_2 a b c = ground arith

press_3 : (a b c : Bool) → press 3 (bits a b c) ≡ bits a b true
unfolding press
press_3 a b c = ground arith

lift_1 : (a b c : Bool) → lift 1 (bits a b c) ≡ bits false b c
unfolding lift
lift_1 a b c = ground arith

lift_2 : (a b c : Bool) → lift 2 (bits a b c) ≡ bits a false c
unfolding lift
lift_2 a b c = ground arith

lift_3 : (a b c : Bool) → lift 3 (bits a b c) ≡ bits a b false
unfolding lift
lift_3 a b c = ground arith

-- `held_by_event` for an event given by its parts
track_one-bits :
    (action : Action) (button : ℕ) (a b c : Bool)
    → let event : InputEvent = record { action = action; button = button } in
      track_one event (bits a b c)
      ≡ bits (held_by_event 1 event a) (held_by_event 2 event b) (held_by_event 3 event c)
unfolding track_one
track_one-bits action zero a b c = refl
track_one-bits Action.move (suc zero) a b c = refl
track_one-bits Action.down (suc zero) a b c = press_1 a b c
track_one-bits Action.up (suc zero) a b c = lift_1 a b c
track_one-bits Action.other (suc zero) a b c = refl
track_one-bits Action.move (suc (suc zero)) a b c = refl
track_one-bits Action.down (suc (suc zero)) a b c = press_2 a b c
track_one-bits Action.up (suc (suc zero)) a b c = lift_2 a b c
track_one-bits Action.other (suc (suc zero)) a b c = refl
track_one-bits Action.move (suc (suc (suc zero))) a b c = refl
track_one-bits Action.down (suc (suc (suc zero))) a b c = press_3 a b c
track_one-bits Action.up (suc (suc (suc zero))) a b c = lift_3 a b c
track_one-bits Action.other (suc (suc (suc zero))) a b c = refl
track_one-bits action (suc (suc (suc (suc n)))) a b c = ground arith

track-bits :
    (events : List InputEvent) (a b c : Bool)
    → track events (bits a b c)
      ≡ bits (held_by_events 1 events a) (held_by_events 2 events b) (held_by_events 3 events c)
unfolding track
track-bits [] a b c = refl
track-bits (event ∷ events) a b c =
    ap (track events) (track_one-bits event.action event.button a b c)
    ∙ track-bits events (held_by_event 1 event a) (held_by_event 2 event b)
        (held_by_event 3 event c)

-- `buttons_after` for a message given by its parts
buttons_after-bits_at :
    (is_event : Bool) (method : Method) (params_size data_size : ℕ)
    (decoded : Option (List InputEvent)) (a b c : Bool)
    → let m : Message = record {
      is_event = is_event;
      method = method;
      params_size = params_size;
      data_size = data_size;
      decoded = decoded;
    } in
      buttons_after m (bits a b c) ≡ bits (held_by 1 m a) (held_by 2 m b) (held_by 3 m c)
unfolding buttons_after events_of
buttons_after-bits_at is_event Method.input params_size data_size none a b c = refl
buttons_after-bits_at is_event Method.input params_size data_size (some events) a b c =
    track-bits events a b c
buttons_after-bits_at is_event Method.input_release params_size data_size decoded a b c = refl
buttons_after-bits_at is_event Method.other params_size data_size decoded a b c = refl

buttons_after-bits :
    (m : Message) (a b c : Bool)
    → buttons_after m (bits a b c) ≡ bits (held_by 1 m a) (held_by 2 m b) (held_by 3 m c)
buttons_after-bits m a b c =
    buttons_after-bits_at m.is_event m.method m.params_size m.data_size m.decoded a b c

-- `is_hover` for a message given by its parts
hovers_at :
    (is_event : Bool) (method : Method) (params_size data_size : ℕ)
    (decoded : Option (List InputEvent)) (a b c : Bool)
    → let m : Message = record {
      is_event = is_event;
      method = method;
      params_size = params_size;
      data_size = data_size;
      decoded = decoded;
    } in
      is_hover (bits a b c) m ≡ (not a && not b && not c && is_move_message m)
unfolding is_hover events_of is_single_move
hovers_at is_event Method.input params_size data_size none a b c = ground arith
hovers_at is_event Method.input params_size data_size (some []) a b c = ground arith
hovers_at is_event Method.input params_size data_size (some (event ∷ [])) a b c = ground arith
hovers_at is_event Method.input params_size data_size (some (event ∷ again ∷ events)) a b c =
    ground arith
hovers_at is_event Method.input_release params_size data_size decoded a b c = ground arith
hovers_at is_event Method.other params_size data_size decoded a b c = ground arith

hovers :
    (m : Message) (a b c : Bool)
    → is_hover (bits a b c) m ≡ (not a && not b && not c && is_move_message m)
hovers m a b c = hovers_at m.is_event m.method m.params_size m.data_size m.decoded a b c

-- The events of one move hold and let go of nothing.
moves_hold_at :
    (button : ℕ) (is_event : Bool) (method : Method) (params_size data_size : ℕ)
    (decoded : Option (List InputEvent)) (was : Bool)
    → let m : Message = record {
      is_event = is_event;
      method = method;
      params_size = params_size;
      data_size = data_size;
      decoded = decoded;
    } in
      is_move_message m ≡ true → held_by button m was ≡ was
moves_hold_at button is_event Method.input params_size data_size none was h = refl
moves_hold_at button is_event Method.input params_size data_size (some []) was h = refl
moves_hold_at button is_event Method.input params_size data_size (some (event ∷ [])) was h =
    ground arith
moves_hold_at button is_event Method.input params_size data_size (some (event ∷ x ∷ xs)) was h =
    absurd (ground arith)
moves_hold_at button is_event Method.input_release params_size data_size decoded was h =
    absurd (ground arith)
moves_hold_at button is_event Method.other params_size data_size decoded was h = refl

moves_hold :
    (button : ℕ) (m : Message) (was : Bool) → is_move_message m ≡ true → held_by button m was ≡ was
moves_hold button m was h =
    moves_hold_at button m.is_event m.method m.params_size m.data_size m.decoded was h

&&-true-right : (a b : Bool) → a && b ≡ true → b ≡ true
&&-true-right a b h = ground arith

-- The buttons after an offer, with `held` one step further.
BitsAfter : Message → InputQueue → Bool → Bool → Bool → Type 0
BitsAfter m q a b c =
    (enqueue m q).1.buttons
    ≡ bits (if (enqueue m q).0 then held_by 1 m a else a)
        (if (enqueue m q).0 then held_by 2 m b else b)
        (if (enqueue m q).0 then held_by 3 m c else c)

enqueue-bits :
    (m : Message) (q : InputQueue) (a b c : Bool) → q.buttons ≡ bits a b c → BitsAfter m q a b c
unfolding BitsAfter enqueue
enqueue-bits m q a b c h =
    elim (Bool-cases (ltb params_limit m.params_size || not (m.data_size == 0))) [
      | inl large ↦ rw (large, h) refl
      | inr fits ↦ elim (Bool-cases q.stopped) [
        | inl stopped ↦ rw (fits, stopped, h) refl
        | inr running ↦ elim (Bool-cases (is_hover q.buttons m && ends_in_hover q.items)) [
          | inl merges ↦
              let free : is_hover q.buttons m ≡ true =
                (&&-eq-true (is_hover q.buttons m) (ends_in_hover q.items) merges).0 in
              let move : is_move_message m ≡ true =
                &&-true-right _ (is_move_message m)
                  (sym (hovers m a b c) ∙ ap (λ x. is_hover x m) (sym h) ∙ free) in
              rw
                (
                  fits,
                  running,
                  merges,
                  moves_hold 1 m a move,
                  moves_hold 2 m b move,
                  moves_hold 3 m c move,
                )
                h
          | inr grows ↦ elim (Bool-cases (length q.items == queue_limit)) [
            | inl full ↦ rw (fits, running, grows, full, h) refl
            | inr room ↦ rw (fits, running, grows, room, h) (buttons_after-bits m a b c)
          ]
        ]
      ]
    ]

buttons-held : (es : List Event) → (after es).buttons ≡ bits (held 1 es) (held 2 es) (held 3 es)
unfolding after dequeue stop BitsAfter
buttons-held [] = refl
buttons-held (offers m ∷ es) =
    enqueue-bits m (after es) (held 1 es) (held 2 es) (held 3 es) (buttons-held es)
buttons-held (works ∷ es) = ground (arith, buttons-held es)
buttons-held (stops ∷ es) = buttons-held es

-- The code takes exactly the free moves for hover moves.
pub is_hover-is_free_move :
    (m : Message) (es : List Event) → is_hover (after es).buttons m ≡ is_free_move es m
is_hover-is_free_move m es =
    ap (λ x. is_hover x m) (buttons-held es) ∙ hovers m (held 1 es) (held 2 es) (held 3 es)
