-- ===== src/Approval/Rate.antt =====
-- At most three requests are let in within a minute.
use yudesk.Base.{
  ℕ, ◌+◌, ◌≡◌, ◌∙◌, ◌≤◌, refl, Bool, true, false, Option, some, List, [], ◌∷◌, ◌++◌, arith, leb,
  if◌then◌else◌, length, Bool-cases, Option-cases, inl, inr,
}
use yudesk.Text.{Text}
use yudesk.Approval.Broker.{
  Broker, Event, Wake, Reply, Mode, recent, kept, admit, request, finish, resolve, cancel_all,
  handle, after, requests, wakes, resolves, cancels,
}
use yudesk.Approval.Consent.{admits}

-- The times at which a request was let in, the newest first.
abbrev pub entries : List (ℕ × Event) → List ℕ
entries [] = []
entries ((now, e) ∷ es) =
    if admits (handle now e (after es)).0 then now ∷ entries es else entries es

-- How many of these times are less than a minute before `now`.
abbrev pub within : ℕ → List ℕ → ℕ
within now [] = 0
within now (at ∷ times) = (if recent now at then 1 else 0) + within now times

-- Looking back from each entry, it is at most the third within a minute.
abbrev pub IsSparse : List ℕ → Type 0
IsSparse [] = Unit {0}
IsSparse (t ∷ older) = (within t (t ∷ older) ≤ 3) × IsSparse older

-- The times of the events never go back.
abbrev pub IsMonotone : ℕ → List (ℕ × Event) → Type 0
IsMonotone latest [] = Unit {0}
IsMonotone latest ((now, e) ∷ es) = (now ≤ latest) × IsMonotone now es

within-kept :
    (now later : ℕ) (times : List ℕ)
    → now ≤ later
    → within later (kept now times) ≡ within later times
unfolding kept
within-kept now later [] h = refl
within-kept now later (t ∷ times) h = ground (arith, within-kept now later times h)

within-length : (now : ℕ) (times : List ℕ) → within now (kept now times) ≡ length (kept now times)
unfolding kept
within-length now [] = refl
within-length now (t ∷ times) = ground (arith, within-length now times)

within-append : (now : ℕ) (xs ys : List ℕ) → within now (xs ++ ys) ≡ within now xs + within now ys
within-append now [] ys = ground arith
within-append now (x ∷ xs) ys = ground (arith, within-append now xs ys)

-- From `latest` on, the broker's history and the log of entries count the same.
abbrev Counts : ℕ → Broker → List ℕ → Type 0
Counts latest b log = (later : ℕ) → latest ≤ later → within later b.history ≡ within later log

abbrev log_after : Option Reply → ℕ → List ℕ → List ℕ
log_after r now log = if admits r then now ∷ log else log

few :
    (now : ℕ) (history log : List ℕ)
    → within now (kept now history) ≡ within now log
    → leb 3 (length (kept now history)) ≡ false
    → within now (now ∷ log) ≤ 3
few now history log h room = ground (arith, h, within-length now history)

admit-Counts :
    (now : ℕ) (nonce : Text) (mode : Mode) (b : Broker) (log : List ℕ)
    → Counts now b log
    → IsSparse log
    → let (r, b') = admit now nonce mode b in
      Counts now b' (log_after (some r) now log) × IsSparse (log_after (some r) now log)
unfolding admit
admit-Counts now nonce mode b log counts sparse = elim (Option-cases b.pending) [
  | inr (p, e) ↦ rw e (counts, sparse)
  | inl e ↦ elim (Bool-cases (leb 3 (length (kept now b.history)))) [
    | inl full ↦
        rw (e, full) (λ later h. within-kept now later b.history h ∙ counts later h, sparse)
    | inr room ↦
        rw (e, room)
          (
            λ later h. omega (
              arith,
              within-append later (kept now b.history) (now ∷ []),
              within-kept now later b.history h,
              counts later h,
            ),
            (
              few now b.history log
                  (within-kept now now b.history (omega arith) ∙ counts now (omega arith)) room,
              sparse,
            ),
          )
  ]
]

finish-history : (now : ℕ) (wake : Wake) (b : Broker) → (finish now wake b).1.history ≡ b.history
unfolding finish
finish-history now wake b = elim (Option-cases b.pending) [
  | inl e ↦ ground arith
  | inr (p, e) ↦ ground arith
]

finish-admits : (now : ℕ) (wake : Wake) (b : Broker) → admits (finish now wake b).0 ≡ false
unfolding finish
finish-admits now wake b = elim (Option-cases b.pending) [
  | inl e ↦ ground arith
  | inr (p, e) ↦ ground arith
]

resolve-history :
    (now : ℕ) (id : Text) (accept : Bool) (b : Broker)
    → (resolve now id accept b).1.history ≡ b.history
unfolding resolve
resolve-history now id accept b = elim (Option-cases b.pending) [
  | inl e ↦ ground arith
  | inr (p, e) ↦ ground arith
]

cancel_all-history : (b : Broker) → (cancel_all b).history ≡ b.history
unfolding cancel_all
cancel_all-history b = elim (Option-cases b.pending) [
  | inl e ↦ ground arith
  | inr (p, e) ↦ ground arith
]

handle-Counts :
    (now : ℕ) (e : Event) (b : Broker) (log : List ℕ)
    → Counts now b log
    → IsSparse log
    → let (r, b') = handle now e b in
      Counts now b' (log_after r now log) × IsSparse (log_after r now log)
unfolding handle request
handle-Counts now (requests gone nonce Mode.other) b log counts sparse = (counts, sparse)
handle-Counts now (requests true nonce Mode.control) b log counts sparse = (counts, sparse)
handle-Counts now (requests true nonce Mode.view) b log counts sparse = (counts, sparse)
handle-Counts now (requests false nonce Mode.control) b log counts sparse =
    admit-Counts now nonce Mode.control b log counts sparse
handle-Counts now (requests false nonce Mode.view) b log counts sparse =
    admit-Counts now nonce Mode.view b log counts sparse
handle-Counts now (wakes wake) b log counts sparse =
    rw (finish-history now wake b, finish-admits now wake b) (counts, sparse)
handle-Counts now (resolves id accept) b log counts sparse =
    rw (resolve-history now id accept b) (counts, sparse)
handle-Counts now cancels b log counts sparse = rw (cancel_all-history b) (counts, sparse)

after-Counts :
    (latest : ℕ) (es : List (ℕ × Event))
    → IsMonotone latest es
    → Counts latest (after es) (entries es) × IsSparse (entries es)
unfolding after
after-Counts latest [] h = (λ later _. refl, tt)
after-Counts latest ((now, e) ∷ es) (earlier, h) =
    let (counts, sparse) = after-Counts now es h in
    let (counts', sparse') = handle-Counts now e (after es) (entries es) counts sparse in
    (λ later after_latest. counts' later (omega arith), sparse')

-- With a clock that does not go back, a new broker never lets in a fourth request within a minute of
-- the first of them, whatever happens between.
pub entries-IsSparse :
    (latest : ℕ) (es : List (ℕ × Event)) → IsMonotone latest es → IsSparse (entries es)
entries-IsSparse latest es h = (after-Counts latest es h).1
