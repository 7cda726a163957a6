-- ===== src/Input/Refinement.antt =====
-- The ring of latestMoveQueue does what a list of at most 64 entries does.
use yudesk.Base.{
  ℕ, zero, suc, ◌+◌, ◌-◌, ◌%◌, ◌≤◌, ◌<◌, ◌≡◌, ◌≢◌, ◌∙◌, refl, sym, ap, Bool, true, ◌&&◌, Option,
  some, List, [], ◌∷◌, ◌++◌, arith, ltb, ◌==◌, length, Bool-cases, ==_refl, inl, inr,
}
use yudesk.Input.Ring.{
  QueuedValue, Ring, put, entry_of, same_frame, offer, take_next, clear, new_ring, MoveQueue,
  tail_is, with_tail, list_offer, list_next, Operation, Answer, ring_run, list_run, Batch, capacity,
  offers, nexts, clears, taken, accepted, next_buttons,
}

zero_right : (m : ℕ) → m + 0 ≡ m
zero_right m = omega arith

shift : (m k : ℕ) → suc m + k ≡ m + suc k
shift m k = omega arith

plus_one : (m : ℕ) → m + 1 ≡ suc m
plus_one m = omega arith

positive : (m : ℕ) → ltb 0 (suc m) ≡ true
positive m = ground arith

in_range : (h : ℕ) → h < 64 → h % 64 ≡ h
in_range h in_array = omega arith

suc_minus : (m : ℕ) → suc m - 1 ≡ m
suc_minus m = omega arith

before : (h m : ℕ) → h + suc m - 1 ≡ h + m
before h m = omega arith

module _ {T : Type 0} where
  -- The `n` entries from slot `h` on.
  abbrev pub contents : (ℕ → QueuedValue T) → ℕ → ℕ → List (QueuedValue T)
  contents values h zero = []
  contents values h (suc n) = values (h % 64) ∷ contents values (suc h) n

  abbrev pub abstract : Ring T → MoveQueue T
  abstract q = record { items = contents q.values q.head q.size; buttons = q.buttons }

  pub record IsRing (q : Ring T) : Type 0 where
    pub in_array : q.head < 64
    pub fits : q.size ≤ 64

  contents-mod :
      (values : ℕ → QueuedValue T) (n h k : ℕ)
      → h % 64 ≡ k % 64
      → contents values h n ≡ contents values k n
  contents-mod values zero h k e = refl
  contents-mod values (suc n) h k e =
      rw (e, contents-mod values n (suc h) (suc k) (omega arith)) refl

  contents-snoc :
      (values : ℕ → QueuedValue T) (n h : ℕ)
      → contents values h (suc n) ≡ contents values h n ++ values ((h + n) % 64) ∷ []
  contents-snoc values zero h = rw (zero_right h) refl
  contents-snoc values (suc n) h = rw (contents-snoc values n (suc h), shift h n) refl

  length-contents : (values : ℕ → QueuedValue T) (n h : ℕ) → length (contents values h n) ≡ n
  length-contents values zero h = refl
  length-contents values (suc n) h = ap suc (length-contents values n (suc h))

  put_here :
      (values : ℕ → QueuedValue T) (entry : QueuedValue T) (slot : ℕ)
      → put T slot entry values slot ≡ entry
  unfolding put
  put_here values entry slot = rw (==_refl slot) refl

  put_away :
      (values : ℕ → QueuedValue T) (entry : QueuedValue T) (slot i : ℕ)
      → i ≢ slot
      → put T slot entry values i ≡ values i
  unfolding put
  put_away values entry slot i apart = ground arith

  contents-put :
      (values : ℕ → QueuedValue T) (entry : QueuedValue T) (slot n h : ℕ)
      → ((i : ℕ) → i < n → (h + i) % 64 ≢ slot)
      → contents (put T slot entry values) h n ≡ contents values h n
  contents-put values entry slot zero h away = refl
  contents-put values entry slot (suc n) h away =
      rw
        (put_away values entry slot (h % 64)
          (λ e. away 0 (omega arith) (ap (λ m. m % 64) (zero_right h) ∙ e)))
        (ap (λ r. values (h % 64) ∷ r)
          (contents-put values entry slot n (suc h)
            (λ i small e. away (suc i) (omega arith) (ap (λ m. m % 64) (sym (shift h i)) ∙ e))))

  tail_is-snoc :
      (entry y : QueuedValue T) (xs : List (QueuedValue T))
      → tail_is T entry (xs ++ y ∷ []) ≡ same_frame T y entry
  tail_is-snoc entry y [] = refl
  tail_is-snoc entry y (x ∷ []) = refl
  tail_is-snoc entry y (x ∷ x' ∷ xs) = tail_is-snoc entry y (x' ∷ xs)

  with_tail-snoc :
      (entry y : QueuedValue T) (xs : List (QueuedValue T))
      → with_tail T entry (xs ++ y ∷ []) ≡ xs ++ entry ∷ []
  with_tail-snoc entry y [] = refl
  with_tail-snoc entry y (x ∷ []) = refl
  with_tail-snoc entry y (x ∷ x' ∷ xs) = ap (λ r. x ∷ r) (with_tail-snoc entry y (x' ∷ xs))

  -- The slot behind the entries takes a new one.
  contents-extend :
      (values : ℕ → QueuedValue T) (entry : QueuedValue T) (n h : ℕ)
      → n < 64
      → contents (put T ((h + n) % 64) entry values) h (suc n) ≡ contents values h n ++ entry ∷ []
  contents-extend values entry n h small =
      contents-snoc (put T ((h + n) % 64) entry values) n h
      ∙ rw (put_here values entry ((h + n) % 64)) (
          ap (λ r. r ++ entry ∷ [])
            (contents-put values entry ((h + n) % 64) n h (λ i before. omega arith)))

  -- The last of the entries is replaced.
  contents-replace :
      (values : ℕ → QueuedValue T) (entry : QueuedValue T) (m h : ℕ)
      → m < 64
      → contents (put T ((h + m) % 64) entry values) h (suc m)
        ≡ with_tail T entry (contents values h (suc m))
  contents-replace values entry m h small =
      contents-extend values entry m h small
      ∙ sym (
          ap (with_tail T entry) (contents-snoc values m h)
          ∙ with_tail-snoc entry (values ((h + m) % 64)) (contents values h m))

  -- The first of them is taken.
  contents-rest :
      (values : ℕ → QueuedValue T) (blank : QueuedValue T) (m h : ℕ)
      → h < 64
      → m < 64
      → contents (put T h blank values) ((h + 1) % 64) m ≡ contents values (suc h) m
  contents-rest values blank m h in_array small =
      contents-mod (put T h blank values) m ((h + 1) % 64) (suc h) (omega arith)
      ∙ contents-put values blank h m (suc h) (λ i before. omega arith)

  contents-tail_is :
      (values : ℕ → QueuedValue T) (entry : QueuedValue T) (m h : ℕ)
      → tail_is T entry (contents values h (suc m)) ≡ same_frame T (values ((h + m) % 64)) entry
  contents-tail_is values entry m h =
      ap (tail_is T entry) (contents-snoc values m h)
      ∙ tail_is-snoc entry (values ((h + m) % 64)) (contents values h m)

  -- Both results agree, and the ring after it stands for the list after it.
  abbrev Agrees : {A : Type 0} → A × Ring T → A × MoveQueue T → Type 0
  Agrees r l = (r.0 ≡ l.0) × (abstract r.1 ≡ l.1) × IsRing r.1

  abbrev Agreed : List (QueuedValue T) → List (QueuedValue T) → ℕ → Type 0
  Agreed xs ys buttons =
      ◌≡◌ {A = MoveQueue T} (record { items = xs; buttons = buttons })
        (record { items = ys; buttons = buttons })

  same_items : {xs ys : List (QueuedValue T)} (buttons : ℕ) → xs ≡ ys → Agreed xs ys buttons
  same_items buttons e = ap (λ items. record { items = items; buttons = buttons }) e

  offer-Agrees :
      (value : T) (decoded : Option Batch) (release : Bool) (values : ℕ → QueuedValue T)
      (head size buttons : ℕ)
      → head < 64
      → size ≤ 64
      → let q : Ring T = record { values = values; head = head; size = size; buttons = buttons } in
        Agrees (offer T value decoded release q) (list_offer T value decoded release (abstract q))
  unfolding offer list_offer
  offer-Agrees value decoded release values head zero buttons in_array fits =
      let entry : QueuedValue T = entry_of T value decoded buttons in
      elim (Bool-cases (ltb 0 entry.width)) [
        | inl wide ↦ rw wide (
          refl,
          same_items (next_buttons release decoded buttons)
              (contents-extend values entry 0 head (omega arith)),
          record { in_array = in_array; fits = omega arith },
        )
        | inr none_wide ↦ rw none_wide (
          refl,
          same_items (next_buttons release decoded buttons)
              (contents-extend values entry 0 head (omega arith)),
          record { in_array = in_array; fits = omega arith },
        )
      ]
  offer-Agrees value decoded release values head (suc m) buttons in_array fits =
      let entry : QueuedValue T = entry_of T value decoded buttons in
      let last : QueuedValue T = values ((head + m) % 64) in
      let found = contents-tail_is values entry m head in
      elim (Bool-cases (ltb 0 entry.width && same_frame T last entry)) [
        | inl merges ↦
            rw (positive m, before head m, found, merges)
              (
                refl,
                same_items buttons (contents-replace values entry m head (omega arith)),
                record { in_array = in_array; fits = fits },
              )
        | inr grows ↦ elim (Bool-cases (suc m == capacity)) [
          | inl full ↦
              rw
                (positive m, before head m, found, grows, length-contents values m (suc head), full)
                (refl, refl, record { in_array = in_array; fits = fits })
          | inr room ↦
              rw
                (positive m, before head m, found, grows, length-contents values m (suc head), room)
                (
                  refl,
                  same_items (next_buttons release decoded buttons) (
                      ap (contents (put T ((head + suc m) % 64) entry values) head)
                        (plus_one (suc m))
                      ∙ contents-extend values entry (suc m) head (ground arith)),
                  record { in_array = in_array; fits = ground arith },
                )
        ]
      ]

  next-Agrees :
      (blank : QueuedValue T) (values : ℕ → QueuedValue T) (head size buttons : ℕ)
      → head < 64
      → size ≤ 64
      → let q : Ring T = record { values = values; head = head; size = size; buttons = buttons } in
        Agrees (take_next T blank q) (list_next T (abstract q))
  unfolding take_next list_next
  next-Agrees blank values head zero buttons in_array fits =
      (refl, refl, record { in_array = in_array; fits = fits })
  next-Agrees blank values head (suc m) buttons in_array fits = rw (positive m) (
    ap (λ i. some (values i).value) (sym (in_range head in_array)),
    same_items buttons (
        ap (contents (put T head blank values) ((head + 1) % 64)) (suc_minus m)
        ∙ contents-rest values blank m head in_array (omega arith)),
    record { in_array = omega arith; fits = omega arith },
  )

  -- One answer more, from queues that agree.
  answers :
      (blank : QueuedValue T) (ops : List (Operation T)) {a b : Answer T} (q : Ring T)
      {l : MoveQueue T}
      → a ≡ b
      → ring_run T blank ops q ≡ list_run T ops (abstract q)
      → abstract q ≡ l
      → ◌≡◌ {A = List (Answer T)} (a ∷ ring_run T blank ops q) (b ∷ list_run T ops l)
  answers blank ops {a} {b} q {l} same_answer rest same_queue =
      ap (λ x. x ∷ ring_run T blank ops q) same_answer
      ∙ ap (λ xs. b ∷ xs) (rest ∙ ap (list_run T ops) same_queue)

  ring_run-list_run_from :
      (blank : QueuedValue T) (ops : List (Operation T)) (q : Ring T)
      → IsRing q
      → ring_run T blank ops q ≡ list_run T ops (abstract q)
  unfolding ring_run list_run
  ring_run-list_run_from blank [] q ring = refl
  ring_run-list_run_from blank (offers value decoded release ∷ ops) q ring =
      let (same_answer, same_queue, ring') =
        offer-Agrees value decoded release q.values q.head q.size q.buttons ring.in_array
          ring.fits in
      let q' = (offer T value decoded release q).1 in
      answers blank ops q' (ap accepted same_answer) (ring_run-list_run_from blank ops q' ring')
        same_queue
  ring_run-list_run_from blank (nexts ∷ ops) q ring =
      let (same_answer, same_queue, ring') =
        next-Agrees blank q.values q.head q.size q.buttons ring.in_array ring.fits in
      let q' = (take_next T blank q).1 in
      answers blank ops q' (ap taken same_answer) (ring_run-list_run_from blank ops q' ring')
        same_queue
  ring_run-list_run_from blank (clears ∷ ops) q ring =
      answers blank ops (clear T blank q) refl
        (ring_run-list_run_from blank ops (clear T blank q)
          (record { in_array = omega arith; fits = omega arith }))
        refl

  -- Through any sequence of calls, a new latestMoveQueue gives the answers that a list of at most 64
  -- entries gives: it accepts and refuses the same offers, merges the same moves, and hands out the
  -- same values in the same order.
  pub ring_run-list_run :
      (blank : QueuedValue T) (ops : List (Operation T))
      → ring_run T blank ops (new_ring T blank)
        ≡ list_run T ops (record { items = []; buttons = 0 })
  ring_run-list_run blank ops =
      ring_run-list_run_from blank ops (new_ring T blank)
        (record { in_array = omega arith; fits = omega arith })
