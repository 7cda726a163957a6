-- ===== src/Approval/Tests.antt =====
-- The theorems about internal/approval at concrete inputs.
use yudesk.Base.{ℕ, ◌≡◌, refl, true, false, some, List, [], ◌∷◌, arith}
use yudesk.Text.{Text}
use yudesk.Approval.Broker.{Event, Wake, Mode, finish, after, requests, resolves}
use yudesk.Approval.Consent.{granted-Consented, Consented}
use yudesk.Approval.Rate.{entries-IsSparse, IsSparse, entries}

abbrev nonce : Text
nonce = b'a' ∷ b'b' ∷ []

abbrev events : List (ℕ × Event)
events =
    (20, resolves nonce true)
    ∷ (15, requests false [] Mode.view)
    ∷ (10, requests false nonce Mode.control)
    ∷ []

granted-Consented_example : Consented 30 events
unfolding finish after yudesk.Base.same
granted-Consented_example = granted-Consented 30 (Wake.answer false) events refl

entries-IsSparse_example : IsSparse (entries events)
entries-IsSparse_example =
    entries-IsSparse 40 events (omega arith, (omega arith, (omega arith, tt)))
