-- ===== src/Fifo.antt =====
-- assignment_3/client.c and assignment_3/server.c: a client that sends the lines of its input
-- through a FIFO, and a server that reads them. An event says who moves next, or whose call fails;
-- `none` means that it cannot happen, as when a process is blocked.
pub mod Stream
pub mod Results
pub mod Work
pub mod Ending
pub mod Bounds
mod Tests
use aup_assignments.Prelude.{
  ℕ, suc, ◌+◌, ◌≡◌, Bool, true, false, Option, none, some, List, [], ◌∷◌, ◌++◌, ◌||◌, ◌==◌, leb,
  if◌then◌else◌, length, take, drop,
}
use aup_assignments.Unix.Bytes.{Bytes}

-- `main` of the client: mkfifo, open, open blocked, gets with feof, the first fstat, write, the
-- second fstat, close; then its ends: `return 0`, a call that failed, SIGPIPE.
pub data Client : Type 0 where
  making opening in_open getting measuring writing remeasuring closing ended failed killed : Client

-- `main` of the server: open, open blocked, read, the zero byte with the printfs and fstat, close,
-- and its ends.
pub data Server : Type 0 where
  opening in_open reading telling closing ended failed : Server

-- The writing end of the FIFO.
pub data Writer : Type 0 where
  absent open_now closed : Writer

-- `fifo` is whether the FIFO exists, `pipe` its bytes, `reader` whether the server has come to its
-- open. `input` holds the lines of the client's standard input that are still to come, `line` what
-- strlen sees of its array `s`, `chunk` the result of the last read of the server, `sent` and `got`
-- all that has been written and read; `overrun` is set by a write past the end of an array.
pub record State : Type 0 where
  pub client : Client
  pub server : Server
  pub fifo : Bool
  pub reader : Bool
  pub writer : Writer
  pub pipe : Bytes
  pub input : List Bytes
  pub line : Bytes
  pub chunk : Bytes
  pub sent : Bytes
  pub got : Bytes
  pub overrun : Bool

pub data Event : Type 0 where
  client_moves client_fails server_moves server_fails : Event

-- The size of the array `s` of the server, and what read is asked for.
abbrev pub server_room : ℕ
server_room = 100

-- The size of the array `s` of the client.
abbrev pub client_room : ℕ
client_room = 300

abbrev pub asked : ℕ
asked = 300

-- What strlen sees of the bytes that gets has stored.
abbrev pub c_string : Bytes → Bytes
c_string [] = []
c_string (b ∷ bs) = if b == 0 then [] else b ∷ c_string bs

abbrev pub init : Bool → List Bytes → State
init fifo input = record {
  client = making;
  server = Server.opening;
  fifo = fifo;
  reader = false;
  writer = absent;
  pipe = [];
  input = input;
  line = [];
  chunk = [];
  sent = [];
  got = [];
  overrun = false;
}

abbrev pub is_done : Client → Bool
is_done ended = true
is_done failed = true
is_done killed = true
is_done _ = false

-- gets stores a line with a zero byte behind it, however long it is; and feof: a last line without a
-- newline sets the end of file and is not sent.
abbrev pub get_line : List Bytes → State → State
get_line [] s = record s { client = closing }
get_line (l ∷ ls) s = record s {
  client = measuring;
  line = c_string l;
  input = ls;
  overrun = s.overrun || leb client_room (length l);
}

abbrev pub is_over : Server → Bool
is_over Server.ended = true
is_over Server.failed = true
is_over _ = false

-- write: SIGPIPE when the reader is gone; it blocks while the pipe, of `room` bytes, lacks the room.
abbrev pub put_line : ℕ → State → Option State
put_line room s =
    if is_over s.server
    then some (record s { client = killed; writer = closed })
    else if leb (length s.pipe + length s.line) room
    then some (record s { client = remeasuring; pipe = s.pipe ++ s.line; sent = s.sent ++ s.line })
    else none

unfoldable pub client_at : ℕ → Client → State → Option State
client_at room making s =
    some
      (if s.fifo then record s { client = failed } else record s { client = opening; fifo = true })
client_at room opening s = some (record s { client = in_open; writer = open_now })
client_at room in_open s = if s.reader then some (record s { client = getting }) else none
client_at room getting s = some (get_line s.input s)
client_at room measuring s = some (record s { client = writing })
client_at room writing s = put_line room s
client_at room remeasuring s = some (record s { client = getting })
client_at room closing s = some (record s { client = ended; writer = closed })
client_at room _ s = none

abbrev pub is_absent : Writer → Bool
is_absent absent = true
is_absent _ = false

-- read: what there is, up to the size asked for, with a zero byte behind it in the array; the end of the file once the writer has closed an
-- empty pipe; blocked while it is empty and the writer is there.
abbrev pub read_pipe : Bytes → Writer → State → Option State
read_pipe (b ∷ bs) w s = some (record s {
  server = telling;
  chunk = take asked (b ∷ bs);
  pipe = drop asked (b ∷ bs);
  got = s.got ++ take asked (b ∷ bs);
  overrun = s.overrun || leb server_room (length (take asked (b ∷ bs)));
})
read_pipe [] closed s = some (record s { server = telling; chunk = [] })
read_pipe [] _ s = none

-- The test of the `while`.
abbrev pub again : Bytes → Server
again [] = Server.closing
again (b ∷ bs) = reading

unfoldable pub server_at : Server → State → Option State
server_at Server.opening s = some (
    if s.fifo
    then record s { server = Server.in_open; reader = true }
    else record s { server = Server.failed })
server_at Server.in_open s =
    if is_absent s.writer then none else some (record s { server = reading })
server_at reading s = read_pipe s.pipe s.writer s
server_at telling s = some (record s { server = again s.chunk })
server_at Server.closing s = some (record s { server = Server.ended })
server_at _ s = none

abbrev pub hang_up : State → State
hang_up s = record s { client = failed; writer = if is_absent s.writer then absent else closed }

-- A call that fails ends the client; the open that is blocked does not fail.
abbrev pub client_fails_at : Client → State → Option State
client_fails_at in_open s = none
client_fails_at getting s = none
client_fails_at ended s = none
client_fails_at failed s = none
client_fails_at killed s = none
client_fails_at _ s = some (hang_up s)

abbrev pub server_fails_at : Server → State → Option State
server_fails_at Server.in_open s = none
server_fails_at Server.ended s = none
server_fails_at Server.failed s = none
server_fails_at _ s = some (record s { server = Server.failed })

unfoldable pub step : ℕ → Event → State → Option State
unfolding client_at server_at
step room client_moves s = client_at room s.client s
step room client_fails s = client_fails_at s.client s
step room server_moves s = server_at s.server s
step room server_fails s = server_fails_at s.server s

-- The states that the two programs can come to in `n` events, from `lines` as the client's input.
pub data Reach (room : ℕ) (fifo : Bool) (lines : List Bytes) : ℕ → State → Type 0 where
  begin : Reach room fifo lines 0 (init fifo lines)
  later :
      {n : ℕ} {s t : State} (e : Event)
      → Reach room fifo lines n s
      → step room e s ≡ some t
      → Reach room fifo lines (suc n) t
