-- ===== src/Fifo/Work.antt =====
-- The work that is left to the client and the server: each event takes some.
use mathlib.Core.Path.{subst}
use mathlib.Core.Option.{some-injective}
use aup_assignments.Prelude.{
  ℕ, ◌+◌, ◌*◌, ◌≤◌, ◌<◌, ◌≡◌, refl, Bool, some, List, [], ◌∷◌, arith, length, length-append,
  length-drop, drop,
}
use aup_assignments.Unix.Bytes.{Bytes}
use aup_assignments.Fifo.{
  Client, making, in_open, getting, measuring, writing, remeasuring, closing, Server, reading,
  telling, Writer, closed, State, Event, client_moves, client_fails, server_moves, server_fails,
  client_at, client_fails_at, server_fails_at, asked, read_pipe, server_at, step, Reach, begin,
  later,
}
use aup_assignments.Fifo.Stream.{flat, rest}

-- The weight of what is left to do: of the client's positions, of the server's, and of the bytes.
abbrev left_client : Client → ℕ
left_client making = 6
left_client Client.opening = 5
left_client in_open = 4
left_client getting = 3
left_client measuring = 6
left_client writing = 5
left_client remeasuring = 4
left_client closing = 1
left_client _ = 0

abbrev left_server : Server → Bytes → ℕ
left_server Server.opening chunk = 6
left_server Server.in_open chunk = 5
left_server reading chunk = 3
left_server telling [] = 2
left_server telling (b ∷ bs) = 4
left_server Server.closing chunk = 1
left_server _ chunk = 0

abbrev pub work : State → ℕ
work s =
    (left_client s.client + 4 * length s.input)
    + (left_server s.server s.chunk + 2 * (length s.pipe + length (rest s.client s.line s.input)))

client_at-lt :
    (room : ℕ) (q : Client) (s t : State)
    → s.client ≡ q
    → client_at room q s ≡ some t
    → work t < work s
unfolding client_at
client_at-lt room writing s t e h =
    ground (arith, length-append s.pipe s.line, length-append s.line (flat s.input))
client_at-lt room getting s t e h = ground (arith, length-append t.line (flat t.input))
client_at-lt room measuring s t e h = ground arith
client_at-lt room _ s t e h = ground arith

drop-asked : (b : ℕ) (bs : Bytes) → length (drop asked (b ∷ bs)) ≤ length bs
drop-asked b bs = omega (arith, length-drop 299 bs)

read_pipe-lt :
    (bs : Bytes) (w : Writer) (s t : State)
    → s.pipe ≡ bs
    → s.server ≡ reading
    → read_pipe bs w s ≡ some t
    → work t < work s
read_pipe-lt [] closed s t p e h = ground arith
read_pipe-lt [] _ s t p e h = cc
read_pipe-lt (b ∷ bs) w s t p e h =
    subst (λ (u : State). work u < work s) (some-injective _ _ h)
      (rw (p, e) (omega (arith, drop-asked b bs)))

server_at-lt : (q : Server) (s t : State) → s.server ≡ q → server_at q s ≡ some t → work t < work s
unfolding server_at
server_at-lt reading s t e h = read_pipe-lt s.pipe s.writer s t refl e h
server_at-lt _ s t e h = ground arith

client_fails_at-lt :
    (q : Client) (s t : State) → s.client ≡ q → client_fails_at q s ≡ some t → work t < work s
client_fails_at-lt measuring s t e h = ground (arith, length-append s.line (flat s.input))
client_fails_at-lt writing s t e h = ground (arith, length-append s.line (flat s.input))
client_fails_at-lt _ s t e h = ground arith

server_fails_at-lt :
    (q : Server) (s t : State) → s.server ≡ q → server_fails_at q s ≡ some t → work t < work s
server_fails_at-lt telling s t e h = ground arith
server_fails_at-lt _ s t e h = ground arith

step-lt : (room : ℕ) (e : Event) (s t : State) → step room e s ≡ some t → work t < work s
unfolding step
step-lt room client_moves s t h = client_at-lt room s.client s t refl h
step-lt room client_fails s t h = client_fails_at-lt s.client s t refl h
step-lt room server_moves s t h = server_at-lt s.server s t refl h
step-lt room server_fails s t h = server_fails_at-lt s.server s t refl h

pub work-bound :
    {room : ℕ} {fifo : Bool} {lines : List Bytes} {n : ℕ} {s : State}
    → Reach room fifo lines n s
    → n + work s ≤ 12 + 4 * length lines + 2 * length (flat lines)
work-bound begin = omega arith
work-bound {room} (later {s} {t} e r h) = omega (arith, work-bound r, step-lt room e s t h)
