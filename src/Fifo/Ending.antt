-- ===== src/Fifo/Ending.antt =====
-- Where the client and the server come to rest.
use aup_assignments.Prelude.{ℕ, ◌≤◌, ◌≡◌, true, length, ◌⊎◌, All}
use aup_assignments.Unix.Bytes.{Bytes}
use aup_assignments.Fifo.{in_open, failed, Server, State, is_done, is_over}

-- Every line, and so the one in the array, is at most `n` long.
abbrev Short : ℕ → State → Type 0
Short n s = (length s.line ≤ n) × All (λ l. length l ≤ n) s.input

-- A state of rest: both programs are over, or one waits in its open for the other, which is over.
abbrev pub AtRest : State → Type 0
AtRest s =
    ((is_done s.client ≡ true) × (is_over s.server ≡ true))
    ⊎ (((s.client ≡ in_open) × (s.server ≡ Server.failed))
        ⊎ ((s.server ≡ Server.in_open) × (s.client ≡ failed)))
