-- ===== src/Protocol/Tests.antt =====
-- The theorems about internal/protocol at concrete inputs.
use yudesk.Base.{take, length, ℕ, ◌≡◌, refl, true, false, none, some, List, [], ◌∷◌, ◌++◌, arith}
use yudesk.Protocol.Wire.{
  Bytes, zeros, fragments, Codec, WireError, ok, err, read_message, write_message,
}
use yudesk.Protocol.RoundTrip.{read-write_message}
use yudesk.Protocol.Refusal.{unnegotiated-refused}
use yudesk.Protocol.Gate.{Gate, new_gate, Event, acquires, releases, cancels, run}
use yudesk.Protocol.Fairness.{run-holds, run-IsBusy, IsBusy, holds}

-- Fields that are their own encoding.
abbrev plain : Codec
plain = record { Fields = List ℕ; marshal = λ fields. fields; unmarshal = λ header. some header }

abbrev sent : List ℕ
sent = 0 ∷ 0 ∷ 0 ∷ 2 ∷ 0 ∷ 0 ∷ 0 ∷ 3 ∷ 123 ∷ 125 ∷ 7 ∷ 8 ∷ 9 ∷ []

read-write_message_example :
    read_message plain 4 (record { stream = sent ++ (1 ∷ []); partial = none; accept = true })
    ≡ ok (
      (123 ∷ 125 ∷ [], 7 ∷ 8 ∷ 9 ∷ []),
      record { stream = 1 ∷ []; partial = none; accept = true },
    )
unfolding write_message
read-write_message_example =
    read-write_message plain 4 true (123 ∷ 125 ∷ []) (7 ∷ 8 ∷ 9 ∷ []) (1 ∷ []) sent refl
      (omega arith) refl (omega arith)

-- More than one fragment holds.
abbrev large : Bytes
large = zeros 8200

abbrev in_fragments : Bytes
in_fragments = fragments plain (length large) (3 ∷ []) 0 (length large) large

large_sent : write_message plain true (3 ∷ [], large) ≡ ok in_fragments
unfolding write_message zeros
large_sent = refl

unnegotiated-refused_example :
    read_message plain 1
      (record { stream = take 8 in_fragments ++ []; partial = none; accept = false })
    ≡ err WireError.unnegotiated
unfolding zeros
unnegotiated-refused_example =
    unnegotiated-refused plain (3 ∷ []) large in_fragments [] 8 0 none (omega arith) large_sent
      (omega arith)

-- Writer 2 waits for bulk data behind writer 1.
abbrev contended : Gate
contended = record { held = true; burst = 7; high = 8 ∷ 9 ∷ []; low = 1 ∷ 2 ∷ [] }

abbrev turns : List Event
turns =
    releases
    ∷ acquires 10 true
    ∷ releases
    ∷ releases
    ∷ cancels 10 true true
    ∷ releases
    ∷ releases
    ∷ releases
    ∷ releases
    ∷ releases
    ∷ releases
    ∷ releases
    ∷ []

run-holds_example : holds 2 (run turns contended).1 ≡ true
run-holds_example = run-holds 2 turns contended {i = 1} refl refl refl (omega arith)

run-IsBusy_example : IsBusy (run turns new_gate).0
run-IsBusy_example = run-IsBusy turns
