-- ===== src/Approval/Consent.antt =====
-- Nobody gets in without the consent of the person at the device.
use yudesk.Base.{
  ℕ, ◌≡◌, ◌<◌, refl, Bool, true, false, ◌&&◌, ◌||◌, Option, some, List, [], ◌∷◌, arith, ltb,
  if◌then◌else◌, same, Option-cases, inl, inr, ◌⊎◌,
}
use yudesk.Text.{Text}
use yudesk.Approval.Broker.{
  Entry, Broker, Event, Reply, Wake, Mode, admit, request, answered, outcome, finish, send, resolve,
  cancel_all, handle, after, requests, wakes, resolves, cancels, granted,
}

-- The person accepted request `id` before `deadline`.
abbrev pub accepts : Text → ℕ → ℕ × Event → Bool
accepts id deadline (now, resolves x accept) = same id x && ltb now deadline && accept
accepts id deadline (now, _) = false

abbrev pub admits : Option Reply → Bool
admits (some Reply.waits) = true
admits _ = false

-- Since the last request that was let in, the person accepted request `id` before `deadline`.
abbrev pub accepted : Text → ℕ → List (ℕ × Event) → Bool
accepted id deadline [] = false
accepted id deadline ((now, e) ∷ es) =
    if admits (handle now e (after es)).0
    then false
    else accepts id deadline (now, e) || accepted id deadline es

-- What a step has to do with an entry that is accepted after it.
abbrev Steps : ℕ → Event → Broker → Entry → Type 0
Steps now e b p =
    (admits (handle now e b).0 ≡ false)
    × ((b.pending ≡ some p) ⊎ (accepts p.id p.deadline (now, e) ≡ true))

requests-Steps :
    (now : ℕ) (gone : Bool) (nonce : Text) (mode : Mode) (b : Broker) {p : Entry}
    → (handle now (requests gone nonce mode) b).1.pending ≡ some p
    → p.result ≡ some true
    → Steps now (requests gone nonce mode) b p
unfolding handle request admit
requests-Steps now gone nonce Mode.other b held agreed = (refl, inl held)
requests-Steps now true nonce Mode.control b held agreed = (refl, inl held)
requests-Steps now true nonce Mode.view b held agreed = (refl, inl held)
requests-Steps now false nonce Mode.control b held agreed = ground arith
requests-Steps now false nonce Mode.view b held agreed = ground arith

wakes-Steps :
    (now : ℕ) (wake : Wake) (b : Broker) {p : Entry}
    → (handle now (wakes wake) b).1.pending ≡ some p
    → Steps now (wakes wake) b p
unfolding handle finish
wakes-Steps now wake b held = elim (Option-cases b.pending) [
  | inl nobody ↦ ground arith
  | inr (q, e) ↦ ground arith
]

resolves-Steps :
    (now : ℕ) (id : Text) (accept : Bool) (b : Broker) {p : Entry}
    → (handle now (resolves id accept) b).1.pending ≡ some p
    → p.result ≡ some true
    → Steps now (resolves id accept) b p
unfolding handle resolve send
resolves-Steps now id accept b held agreed = elim (Option-cases b.pending) [
  | inl nobody ↦ ground arith
  | inr (q, e) ↦ ground arith
]

cancels-Steps :
    (now : ℕ) (b : Broker) {p : Entry}
    → (handle now cancels b).1.pending ≡ some p
    → p.result ≡ some true
    → Steps now cancels b p
unfolding handle cancel_all send
cancels-Steps now b held agreed = elim (Option-cases b.pending) [
  | inl nobody ↦ ground arith
  | inr (q, e) ↦ ground arith
]

handle-Steps :
    (now : ℕ) (e : Event) (b : Broker) {p : Entry}
    → (handle now e b).1.pending ≡ some p
    → p.result ≡ some true
    → Steps now e b p
handle-Steps now (requests gone nonce mode) b held agreed =
    requests-Steps now gone nonce mode b held agreed
handle-Steps now (wakes wake) b held agreed = wakes-Steps now wake b held
handle-Steps now (resolves id accept) b held agreed = resolves-Steps now id accept b held agreed
handle-Steps now cancels b held agreed = cancels-Steps now b held agreed

after-accepted :
    (es : List (ℕ × Event)) {p : Entry}
    → (after es).pending ≡ some p
    → p.result ≡ some true
    → accepted p.id p.deadline es ≡ true
unfolding after
after-accepted [] held agreed = absurd (ground arith)
after-accepted ((now, e) ∷ es) {p} held agreed =
    let (quiet, before) = handle-Steps now e (after es) held agreed in
    elim before [
      | inl same_entry ↦ ground (arith, after-accepted es same_entry agreed)
      | inr accepts_it ↦ ground arith
    ]

-- What is known when a call of Request returns without an error.
pub record Consented (now : ℕ) (es : List (ℕ × Event)) : Type 0 where
  pub entry : Entry
  pub is_pending : (after es).pending ≡ some entry
  pub in_time : now < entry.deadline
  pub consent : accepted entry.id entry.deadline es ≡ true

finish-granted :
    (now : ℕ) (wake : Wake) (b : Broker)
    → (finish now wake b).0 ≡ some granted
    → (p : Entry) × (b.pending ≡ some p) × (p.result ≡ some true) × (now < p.deadline)
unfolding finish outcome answered
finish-granted now wake b h = elim (Option-cases b.pending) [
  | inl nobody ↦ absurd (ground arith)
  | inr (p, e) ↦ ground arith
]

-- After any history of a new broker, a call of Request that returns without an error belongs to the
-- pending entry, returns before its deadline, and since that entry was made the person has accepted
-- its id before its deadline.
pub granted-Consented :
    (now : ℕ) (wake : Wake) (es : List (ℕ × Event))
    → (finish now wake (after es)).0 ≡ some granted
    → Consented now es
granted-Consented now wake es h =
    let (p, held, agreed, early) = finish-granted now wake (after es) h in
    record {
      entry = p;
      is_pending = held;
      in_time = early;
      consent = after-accepted es held agreed;
    }
