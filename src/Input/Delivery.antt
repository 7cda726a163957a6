-- ===== src/Input/Delivery.antt =====
-- The queue stays within its limit, and only a hover move may be replaced.
use yudesk.Base.{
  ℕ, suc, ◌≤◌, ◌≡◌, ◌∙◌, refl, sym, ap, Bool, true, false, ◌&&◌, Option, none, some, List, [], ◌∷◌,
  ◌++◌, arith, if◌then◌else◌, length, length-append, Bool-cases, &&-eq-true, inl, inr,
}
use mathlib.Core.List.{append_assoc, append-nil}
use yudesk.Input.Hover.{is_free_move, is_hover-is_free_move}
use yudesk.Input.Queue.{
  Message, Queued, InputQueue, is_hover, ends_in_hover, replace_last, enqueue, dequeue, stop, Event,
  offers, works, stops, after, queue_limit,
}

-- The items that are not hover moves, in order.
abbrev pub firm : List Queued → List Queued
firm [] = []
firm (q ∷ items) = if q.hover then firm items else q ∷ firm items

-- What was accepted, the oldest first: a free move is marked as a hover move.
abbrev pub offered : List Event → List Queued
offered [] = []
offered (offers m ∷ es) =
    if (enqueue m (after es)).0
    then offered es ++ record { message = m; hover = is_free_move es m } ∷ []
    else offered es
offered (works ∷ es) = offered es
offered (stops ∷ es) = offered es

abbrev pub and_then : List Queued → Option Queued → List Queued
and_then items none = items
and_then items (some q) = items ++ q ∷ []

-- What the worker applied, the oldest first.
abbrev pub applied : List Event → List Queued
applied [] = []
applied (offers m ∷ es) = applied es
applied (works ∷ es) = and_then (applied es) (dequeue (after es)).0
applied (stops ∷ es) = applied es

abbrev pub no_stop : List Event → Bool
no_stop [] = true
no_stop (stops ∷ es) = false
no_stop (offers m ∷ es) = no_stop es
no_stop (works ∷ es) = no_stop es

firm-append : (xs ys : List Queued) → firm (xs ++ ys) ≡ firm xs ++ firm ys
firm-append [] ys = refl
firm-append (x ∷ xs) ys = ground (arith, firm-append xs ys)

firm-replace_last :
    (x : Queued) (items : List Queued)
    → x.hover ≡ true
    → ends_in_hover items ≡ true
    → firm (replace_last x items) ≡ firm items
unfolding replace_last ends_in_hover
firm-replace_last x [] h e = refl
firm-replace_last x (q ∷ []) h e = ground arith
firm-replace_last x (q ∷ r ∷ items) h e = ground (arith, firm-replace_last x (r ∷ items) h e)

length-replace_last :
    (x : Queued) (items : List Queued) → length (replace_last x items) ≡ length items
unfolding replace_last
length-replace_last x [] = refl
length-replace_last x (q ∷ []) = refl
length-replace_last x (q ∷ r ∷ items) = ap suc (length-replace_last x (r ∷ items))

abbrev marked : Message → InputQueue → Queued
marked m q = record { message = m; hover = is_hover q.buttons m }

enqueue-length :
    (m : Message) (q : InputQueue) → length q.items ≤ 64 → length (enqueue m q).1.items ≤ 64
unfolding enqueue
enqueue-length m q h =
    ground
      (arith, length-append q.items (marked m q ∷ []), length-replace_last (marked m q) q.items)

dequeue-length_at :
    (items : List Queued) (buttons : ℕ) (stopped : Bool)
    → length items ≤ 64
    → length (dequeue (record { items = items; buttons = buttons; stopped = stopped })).1.items ≤ 64
unfolding dequeue
dequeue-length_at [] buttons stopped h = ground arith
dequeue-length_at (x ∷ items) buttons stopped h = ground arith

dequeue-length : (q : InputQueue) → length q.items ≤ 64 → length (dequeue q).1.items ≤ 64
dequeue-length q h = dequeue-length_at q.items q.buttons q.stopped h

-- The queue never holds more than 64 messages, whatever happens.
pub after-length : (es : List Event) → length (after es).items ≤ queue_limit
unfolding after stop
after-length [] = omega arith
after-length (offers m ∷ es) = enqueue-length m (after es) (after-length es)
after-length (works ∷ es) = dequeue-length (after es) (after-length es)
after-length (stops ∷ es) = omega arith

enqueue-firm :
    (m : Message) (q : InputQueue)
    → firm (enqueue m q).1.items
      ≡ (if (enqueue m q).0 then firm (q.items ++ marked m q ∷ []) else firm q.items)
unfolding enqueue
enqueue-firm m q = elim (Bool-cases (is_hover q.buttons m && ends_in_hover q.items)) [
  | inl merges ↦
      let hovers : is_hover q.buttons m ≡ true =
        (&&-eq-true (is_hover q.buttons m) (ends_in_hover q.items) merges).0 in
      let end : ends_in_hover q.items ≡ true =
        (&&-eq-true (is_hover q.buttons m) (ends_in_hover q.items) merges).1 in
      ground (
        arith,
        firm-append q.items (marked m q ∷ []),
        firm-replace_last (marked m q) q.items hovers end,
        append-nil (firm q.items),
      )
  | inr grows ↦ ground arith
]

dequeue-firm_at :
    (items : List Queued) (buttons : ℕ) (stopped : Bool) (done : List Queued)
    → let q : InputQueue = record { items = items; buttons = buttons; stopped = stopped } in
      firm (and_then done (dequeue q).0) ++ firm (dequeue q).1.items ≡ firm done ++ firm items
unfolding dequeue
dequeue-firm_at [] buttons true done = refl
dequeue-firm_at [] buttons false done = refl
dequeue-firm_at (x ∷ items) buttons true done = refl
dequeue-firm_at (x ∷ items) buttons false done = elim (Bool-cases x.hover) [
  | inl hover ↦ simp (firm-append, append_assoc, hover)
  | inr plain ↦ simp (firm-append, append_assoc, plain)
]

dequeue-firm :
    (q : InputQueue) (done : List Queued)
    → firm (and_then done (dequeue q).0) ++ firm (dequeue q).1.items ≡ firm done ++ firm q.items
dequeue-firm q done = dequeue-firm_at q.items q.buttons q.stopped done

offers-delivers :
    (m : Message) (q : InputQueue) (done taken : List Queued)
    → firm done ++ firm q.items ≡ firm taken
    → firm done ++ firm (enqueue m q).1.items
      ≡ firm (if (enqueue m q).0 then taken ++ marked m q ∷ [] else taken)
offers-delivers m q done taken h = elim (Bool-cases (enqueue m q).0) [
  | inl accepted ↦
      rw (enqueue-firm m q, accepted, firm-append, firm-append taken (marked m q ∷ []), ← h)
        (sym (append_assoc (firm done) (firm q.items) (firm (marked m q ∷ []))))
  | inr refused ↦ rw (enqueue-firm m q, refused) h
]

-- Until the queue is stopped, every accepted message is applied or still queued, in the order of
-- acceptance and each once, but for hover moves. A hover move is a message of a single move event
-- that is offered while, by the messages accepted before, none of the buttons 1, 2 and 3 is down:
-- every key, click, drag and release is delivered.
pub after-delivers :
    (es : List Event)
    → no_stop es ≡ true
    → firm (applied es) ++ firm (after es).items ≡ firm (offered es)
unfolding after
after-delivers [] h = refl
after-delivers (stops ∷ es) h = absurd (ground arith)
after-delivers (works ∷ es) h = dequeue-firm (after es) (applied es) ∙ after-delivers es h
after-delivers (offers m ∷ es) h =
    offers-delivers m (after es) (applied es) (offered es) (after-delivers es h)
    ∙ ap
        (λ hover. firm (
          if (enqueue m (after es)).0
          then offered es ++ record { message = m; hover = hover } ∷ []
          else offered es))
        (is_hover-is_free_move m es)
