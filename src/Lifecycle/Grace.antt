-- ===== src/Lifecycle/Grace.antt =====
-- A page that comes back within the grace period keeps the application open.
use yudesk.Base.{
  ℕ, ◌+◌, ◌%◌, ◌^◌, ◌≡◌, ◌≤◌, ◌<◌, refl, Bool, true, false, ◌||◌, some, List, [], ◌∷◌, arith,
  length, Bool-cases, inl, inr,
}
use yudesk.Lifecycle.Tracker.{
  Tracker, suspend, attach, detach, should_close, fire, Event, attaches, detaches, suspends, fires,
  handle, run,
}

-- A page attached or detached, or the application was hidden.
abbrev pub touches : Event → Bool
touches attaches = true
touches detaches = true
touches suspends = true
touches (fires generation) = false

abbrev pub touched : List Event → Bool
touched [] = false
touched (e ∷ es) = touches e || touched es

-- The generation has moved on by `n`.
record Moved (n : ℕ) (t t' : Tracker) : Type 0 where
  by : t'.generation ≡ (t.generation + n) % 2 ^ 64
  word : t'.generation < 2 ^ 64

handle-Moved :
    (e : Event) (t : Tracker)
    → t.generation < 2 ^ 64
    → (n : ℕ) × Moved n t (handle e t) × (n ≤ 1) × (touches e ≡ true → n ≡ 1)
unfolding handle attach detach suspend fire
handle-Moved attaches t w = (1, record { by = refl; word = omega arith }, omega arith, λ h. refl)
handle-Moved detaches t w = (1, record { by = refl; word = omega arith }, omega arith, λ h. refl)
handle-Moved suspends t w = (1, record { by = refl; word = omega arith }, omega arith, λ h. refl)
handle-Moved (fires generation) t w = elim (Bool-cases (should_close generation t)) [
  | inr stays ↦
      rw stays (0, record { by = omega arith; word = w }, omega arith, λ h. absurd (ground arith))
  | inl closes ↦ elim (Bool-cases t.has_callback) [
    | inl calls ↦
        rw (closes, calls) (1, record { by = refl; word = omega arith }, omega arith, λ h. refl)
    | inr ends ↦
        rw (closes, ends)
          (0, record { by = omega arith; word = w }, omega arith, λ h. absurd (ground arith))
  ]
]

run-Moved :
    (es : List Event) (t : Tracker)
    → t.generation < 2 ^ 64
    → (n : ℕ) × Moved n t (run es t) × (n ≤ length es) × (touched es ≡ true → 0 < n)
unfolding run
run-Moved [] t w =
    (0, record { by = omega arith; word = w }, omega arith, λ h. absurd (ground arith))
run-Moved (e ∷ es) t w =
    let (n, moved, small, touch) = handle-Moved e t w in
    let (m, moved', small', touch') = run-Moved es (handle e t) moved.word in
    (
      n + m,
      record { by = omega (arith, moved.by, moved'.by); word = moved'.word },
      omega arith,
      λ h. elim (Bool-cases (touches e)) [
        | inl touching ↦ omega (arith, touch touching)
        | inr quiet ↦ omega (arith, touch' (ground arith))
      ],
    )

-- If a timer that a detach started closes the application, fewer than 2 ^ 64 events later, then since
-- that detach no page attached or detached and the application was not hidden, and no page is left.
pub fire-untouched :
    (t : Tracker) (es : List Event) (generation : ℕ)
    → t.generation < 2 ^ 64
    → length es < 2 ^ 64
    → (detach t).1 ≡ some generation
    → should_close generation (run es (detach t).0) ≡ true
    → (touched es ≡ false) × ((detach t).0.clients ≡ 0) × ((run es (detach t).0).clients ≡ 0)
unfolding detach should_close
fire-untouched t es generation w few started closes =
    let t' : Tracker = run es (detach t).0 in
    let (n, moved, small, touch) = run-Moved es (detach t).0 (omega arith) in
    let at : (detach t).0.generation ≡ generation = ground arith in
    let alone : (detach t).0.clients ≡ 0 = ground arith in
    let none_left : t'.clients ≡ 0 = ground arith in
    let back : t'.generation ≡ generation = ground arith in
    (
      elim (Bool-cases (touched es)) [
        | inl touching ↦ absurd (omega (arith, moved.by, touch touching))
        | inr quiet ↦ quiet
      ],
      alone,
      none_left,
    )
