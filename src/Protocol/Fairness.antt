-- ===== src/Protocol/Fairness.antt =====
-- The gate is never idle while someone waits, and priority cannot starve bulk writers.
use yudesk.Base.{
  ℕ, suc, ◌+◌, ◌-◌, ◌*◌, ◌≤◌, ◌≡◌, refl, ◌⊎◌, Bool, true, false, not, ◌&&◌, ◌||◌, Option, none,
  some, List, [], ◌∷◌, ◌++◌, min, arith, ltb, ◌==◌, if◌then◌else◌, Bool-cases, Option-cases,
  ==_refl, inl, inr, &&-eq-true,
}
use yudesk.Protocol.Gate.{
  Gate, new_gate, acquire, prefers_high, grant_high, grant_low, release, withdraw, cancel, Event,
  acquires, releases, cancels, handle, run,
}

-- Nobody waits at a free gate.
pub record IsBusy (g : Gate) : Type 0 where
  pub no_high : g.held ≡ false → g.high ≡ []
  pub no_low : g.held ≡ false → g.low ≡ []

granted-IsBusy :
    (held : Bool) (burst : ℕ) (high low : List ℕ)
    → (held ≡ false → high ≡ [])
    → (held ≡ false → low ≡ [])
    → IsBusy (release (record { held = held; burst = burst; high = high; low = low })).0
unfolding release prefers_high grant_high grant_low
granted-IsBusy held burst [] [] no_high no_low = record { no_high = λ _. refl; no_low = λ _. refl }
granted-IsBusy held burst [] (l ∷ low) no_high no_low = record {
  no_high = λ _. refl;
  no_low = λ e. ground arith;
}
granted-IsBusy held burst (h ∷ high) [] no_high no_low = record {
  no_high = λ e. ground arith;
  no_low = λ _. refl;
}
granted-IsBusy held burst (h ∷ high) (l ∷ low) no_high no_low = elim (Bool-cases (ltb burst 8)) [
  | inl e ↦ record { no_high = λ e'. ground arith; no_low = λ e'. ground arith }
  | inr e ↦ record { no_high = λ e'. ground arith; no_low = λ e'. ground arith }
]

-- A waiter's place in its queue.
abbrev pub place : ℕ → List ℕ → Option ℕ
place w [] = none
place w (x ∷ queue) =
    if x == w then some 0 else elim (place w queue) [ none ↦ none | some i ↦ some (suc i) ]

abbrev pub holds : ℕ → List ℕ → Bool
holds w [] = false
holds w (x ∷ xs) = x == w || holds w xs

-- How often the gate may still pass to others before it passes to place `i` of the low queue.
abbrev pub patience : ℕ → ℕ → ℕ
patience i burst = 9 * i + (9 - min burst 8)

-- The event hands the gate on.
abbrev pub hands_on : Event → ℕ
hands_on (acquires w is_high) = 0
hands_on releases = 1
hands_on (cancels w is_high granted) = if granted then 1 else 0

abbrev pub hand_overs : List Event → ℕ
hand_overs [] = 0
hand_overs (e ∷ es) = hands_on e + hand_overs es

-- The waiter `w` does not give up, and no other is called `w`.
abbrev pub waits_on : ℕ → Event → Bool
waits_on w (acquires x is_high) = not (x == w)
waits_on w releases = true
waits_on w (cancels x is_high granted) = not (x == w)

abbrev pub all_wait_on : ℕ → List Event → Bool
all_wait_on w [] = true
all_wait_on w (e ∷ es) = waits_on w e && all_wait_on w es

-- `w` waits at place `i` of the low queue, and the gate passes to it in `n` turns.
record Waits (w n : ℕ) (g : Gate) : Type 0 where
  i : ℕ
  at : place w g.low ≡ some i
  busy : g.held ≡ true
  soon : patience i g.burst ≤ n

place-tail :
    (w x : ℕ) (low : List ℕ) {i : ℕ}
    → (x == w) ≡ false
    → place w (x ∷ low) ≡ some i
    → (j : ℕ) × (place w low ≡ some j) × (i ≡ suc j)
place-tail w x low {i} ne at = elim (Option-cases (place w low)) [
  | inl e ↦ ground arith
  | inr (j, e) ↦ (j, e, ground arith)
]

release-progress :
    (w n burst i : ℕ) (held : Bool) (high low : List ℕ)
    → held ≡ true
    → place w low ≡ some i
    → patience i burst ≤ suc n
    → let released = release (record { held = held; burst = burst; high = high; low = low }) in
      (released.1 ≡ some w) ⊎ Waits w n released.0
unfolding release prefers_high grant_high grant_low
release-progress w n burst i held high [] busy at soon = ground arith
release-progress w n burst i held [] (l ∷ low) busy at soon = elim (Bool-cases (l == w)) [
  | inl e ↦ inl (ground arith)
  | inr e ↦
      let (j, at', e') = place-tail w l low e at in
      inr (record { i = j; at = at'; busy = busy; soon = omega arith })
]
release-progress w n burst i held (h ∷ high) (l ∷ low) busy at soon =
    elim (Bool-cases (ltb burst 8)) [
      | inl e ↦ rw (release, e) (inr (record { i = i; at = at; busy = busy; soon = ground arith }))
      | inr e ↦ elim (Bool-cases (l == w)) [
        | inl e' ↦ inl (ground arith)
        | inr e' ↦
            let (j, at', e'') = place-tail w l low e' at in
            rw (release, e) (inr (record { i = j; at = at'; busy = busy; soon = omega arith }))
      ]
    ]

withdraw-place :
    (w x : ℕ) (low : List ℕ) {i : ℕ}
    → (x == w) ≡ false
    → place w low ≡ some i
    → (j : ℕ) × (place w (withdraw x low) ≡ some j) × (j ≤ i)
unfolding withdraw
withdraw-place w x [] ne at = ground arith
withdraw-place w x (y ∷ low) {i} ne at = elim (Bool-cases (y == x)) [
  | inl e ↦ let (j, at', e') = place-tail w y low (ground arith) at in rw e (j, at', omega arith)
  | inr e ↦ elim (Bool-cases (y == w)) [
    | inl e' ↦ rw e (0, rw e' refl, omega arith)
    | inr e' ↦
        let (j, at', e'') = place-tail w y low e' at in
        let (k, at'', le) = withdraw-place w x low ne at' in
        rw e (suc k, rw (e', at'') refl, omega arith)
  ]
]

append-place :
    (w y : ℕ) (low : List ℕ) {i : ℕ} → place w low ≡ some i → place w (low ++ y ∷ []) ≡ some i
append-place w y [] at = ground arith
append-place w y (x ∷ low) {i} at = elim (Bool-cases (x == w)) [
  | inl e ↦ ground arith
  | inr e ↦ let (j, at', e') = place-tail w x low e at in rw (e, append-place w y low at', e') refl
]

never : (i burst : ℕ) {b : Bool} → patience i burst ≤ 0 → b ≡ true
never i burst soon = ground arith

handle-progress :
    (w n : ℕ) (e : Event) (g : Gate)
    → waits_on w e ≡ true
    → Waits w (hands_on e + n) g
    → ((handle e g).1 ≡ some w) ⊎ Waits w n (handle e g).0
unfolding handle acquire cancel
handle-progress w n (acquires x true) g steady waits =
    rw waits.busy (inr (record { i = waits.i; at = waits.at; busy = refl; soon = omega arith }))
handle-progress w n (acquires x false) g steady waits = rw waits.busy (
    inr (record {
      i = waits.i;
      at = append-place w x g.low waits.at;
      busy = refl;
      soon = omega arith;
    }))
handle-progress w n releases g steady waits =
    release-progress w n g.burst waits.i g.held g.high g.low waits.busy waits.at (omega arith)
handle-progress w n (cancels x is_high true) g steady waits =
    release-progress w n g.burst waits.i g.held g.high g.low waits.busy waits.at (omega arith)
handle-progress w n (cancels x true false) g steady waits =
    inr (record { i = waits.i; at = waits.at; busy = waits.busy; soon = omega arith })
handle-progress w n (cancels x false false) g steady waits =
    let (j, at', le) = withdraw-place w x g.low (ground arith) waits.at in
    inr (record { i = j; at = at'; busy = waits.busy; soon = omega arith })

run-holds_from :
    (w : ℕ) (es : List Event) (g : Gate)
    → all_wait_on w es ≡ true
    → Waits w (hand_overs es) g
    → holds w (run es g).1 ≡ true
unfolding run
run-holds_from w [] g steady waits = never waits.i g.burst waits.soon
run-holds_from w (e ∷ es) g steady waits =
    let (steady', rest) = &&-eq-true (waits_on w e) (all_wait_on w es) steady in
    elim (handle-progress w (hand_overs es) e g steady' waits) [
      | inl granted ↦ rw (granted, ==_refl w) refl
      | inr waits' ↦
          let more = run-holds_from w es (handle e g).0 rest waits' in
          elim (Option-cases (handle e g).1) [
            | inl none_granted ↦ rw none_granted more
            | inr (x, granted) ↦ rw (granted, more) ground arith
          ]
    ]

-- A writer at place `i` of the low queue of a held gate is handed the gate within `patience i burst`
-- hand-overs (at most nine for each place, its own included), whatever high-priority writers arrive,
-- as long as it does not give up itself.
pub run-holds :
    (w : ℕ) (es : List Event) (g : Gate) {i : ℕ}
    → g.held ≡ true
    → place w g.low ≡ some i
    → all_wait_on w es ≡ true
    → patience i g.burst ≤ hand_overs es
    → holds w (run es g).1 ≡ true
run-holds w es g {i} busy at steady enough =
    run-holds_from w es g steady (record { i = i; at = at; busy = busy; soon = enough })

acquire-IsBusy :
    (x : ℕ) (is_high : Bool) (g : Gate) → g.held ≡ true → IsBusy (acquire x is_high g).0
unfolding acquire
acquire-IsBusy x true g e =
    rw e (record { no_high = λ e'. ground arith; no_low = λ e'. ground arith })
acquire-IsBusy x false g e =
    rw e (record { no_high = λ e'. ground arith; no_low = λ e'. ground arith })

handle-IsBusy : (e : Event) (g : Gate) → IsBusy g → IsBusy (handle e g).0
unfolding handle acquire cancel
handle-IsBusy (acquires x is_high) g calm = elim (Bool-cases g.held) [
  | inl e ↦ acquire-IsBusy x is_high g e
  | inr e ↦ rw e (record { no_high = λ e'. ground arith; no_low = λ e'. ground arith })
]
handle-IsBusy releases g calm = granted-IsBusy g.held g.burst g.high g.low calm.no_high calm.no_low
handle-IsBusy (cancels x is_high true) g calm =
    granted-IsBusy g.held g.burst g.high g.low calm.no_high calm.no_low
handle-IsBusy (cancels x true false) g calm = record {
  no_high = λ e. rw (calm.no_high e) refl;
  no_low = calm.no_low;
}
handle-IsBusy (cancels x false false) g calm = record {
  no_high = calm.no_high;
  no_low = λ e. rw (calm.no_low e) refl;
}

run-IsBusy_from : (es : List Event) (g : Gate) → IsBusy g → IsBusy (run es g).0
unfolding run
run-IsBusy_from [] g calm = calm
run-IsBusy_from (e ∷ es) g calm = run-IsBusy_from es (handle e g).0 (handle-IsBusy e g calm)

-- Whatever happens at a new gate, nobody is left waiting at a free gate.
pub run-IsBusy : (es : List Event) → IsBusy (run es new_gate).0
run-IsBusy es = run-IsBusy_from es new_gate (record { no_high = λ _. refl; no_low = λ _. refl })
