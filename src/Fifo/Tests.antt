-- ===== src/Fifo/Tests.antt =====
-- Runs of the client and the server, and the theorems at the states they lead to.
use aup_assignments.Prelude.{
  ℕ, ◌≤◌, ◌≡◌, refl, inl, inr, false, List, [], ◌∷◌, ◌++◌, length, replicate, arith, Option-cases,
}
use aup_assignments.Unix.Bytes.{Bytes}
use aup_assignments.Fifo.{
  Client, in_open, Server, telling, State, Event, client_moves, server_moves, server_fails,
  server_room, init, step, Reach, begin, later,
}
use aup_assignments.Fifo.Stream.{flat}
use aup_assignments.Fifo.Results.{delivered_in_order}
use aup_assignments.Fifo.Bounds.{two_lines_overflow}

abbrev greeting : Bytes
greeting = b'h' ∷ b'e' ∷ b'l' ∷ b'l' ∷ b'o' ∷ []

abbrev bye : Bytes
bye = b'b' ∷ b'y' ∷ b'e' ∷ []

abbrev typed : List Bytes
typed = greeting ∷ bye ∷ []

-- A reachable state with the way to it.
record Run : Type 0 where
  steps : ℕ
  last : State
  path : Reach 4096 false typed steps last

-- An event that cannot happen is skipped.
then : Run → Event → Run
unfolding Option-cases
then r e = elim (Option-cases (step 4096 e r.last)) [
  | inl _ ↦ r
  | inr (t, h) ↦ record { steps = _; last = t; path = later e r.path h }
]

run : List Event → Run → Run
unfolding then step
run [] r = r
run (e ∷ es) r = run es (then r e)

abbrev opening : Run
opening = record { steps = 0; last = init false typed; path = begin }

abbrev turns : ℕ → List Event
turns n = elim n [ ℕ.zero ↦ [] | ℕ.suc (k → rest) ↦ client_moves ∷ server_moves ∷ rest ]

-- The programs take turns.
abbrev ended : Run
ended = run (client_moves ∷ turns 30) opening

-- The server starts before the client has made the FIFO, and its open fails.
abbrev early : Run
early = run (server_fails ∷ client_moves ∷ client_moves ∷ []) opening

ended_state : (ended.last.client ≡ Client.ended) × (ended.last.server ≡ Server.ended)
unfolding run
ended_state = (refl, refl)

early_state : (early.last.client ≡ in_open) × (early.last.server ≡ Server.failed)
unfolding run
early_state = (refl, refl)

delivered_in_order_example :
    ((more : Bytes) × (ended.last.got ++ more ≡ flat typed))
    × (ended.last.client ≡ Client.ended
        → ended.last.server ≡ Server.ended
        → ended.last.got ≡ flat typed)
unfolding run
delivered_in_order_example = delivered_in_order ended.path refl

abbrev sixty : Bytes
sixty = replicate 60 b'a'

two_lines_overflow_example :
    (n : ℕ) × (s : State) × Reach 4096 false (sixty ∷ sixty ∷ []) n s
    × (s.server ≡ telling)
    × (server_room ≤ length s.chunk)
two_lines_overflow_example = two_lines_overflow 4096 sixty sixty [] (omega arith) (omega arith)
