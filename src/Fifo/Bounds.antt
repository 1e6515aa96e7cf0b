-- ===== src/Fifo/Bounds.antt =====
-- The array of the server, of 100 bytes, into which it reads up to 300.
use Prim.Native.Nat.{min}
use mathlib.Core.Path.{subst}
use mathlib.Core.Option.{some-injective}
use aup_assignments.Prelude.{
  ℕ, suc, ◌+◌, ◌≤◌, ◌<◌, ◌≡◌, refl, ap, Bool, true, false, Option, none, some, List, [], ◌∷◌, ◌++◌,
  ◌||◌, leb, arith, length, length-append, length-take, take,
}
use aup_assignments.Unix.Bytes.{Bytes}
use aup_assignments.Fifo.{
  Client, getting, writing, remeasuring, Server, reading, telling, Writer, open_now, closed, State,
  Event, client_moves, client_fails, server_moves, server_fails, server_room, client_room, c_string,
  is_over, put_line, client_at, asked, read_pipe, server_at, init, step, Reach, begin, later,
}
use aup_assignments.Fifo.Stream.{flat}
use aup_assignments.Fifo.Results.{got-beginning}

ChunkOk : State → Type 0
ChunkOk s = (length s.chunk ≤ length s.got) × (length s.chunk ≤ asked)

read_pipe-ChunkOk : (bs : Bytes) (w : Writer) (s t : State) → read_pipe bs w s ≡ some t → ChunkOk t
unfolding ChunkOk
read_pipe-ChunkOk [] closed s t h = ground arith
read_pipe-ChunkOk [] _ s t h = cc
read_pipe-ChunkOk (b ∷ bs) w s t h =
    subst (λ (u : State). (length u.chunk ≤ length u.got) × (length u.chunk ≤ asked))
      (some-injective _ _ h)
      (
        omega (arith, length-append s.got (take asked (b ∷ bs))),
        omega (arith, length-take asked (b ∷ bs)),
      )

server_at-ChunkOk : (q : Server) (s t : State) → ChunkOk s → server_at q s ≡ some t → ChunkOk t
unfolding server_at ChunkOk
server_at-ChunkOk reading s t v h = read_pipe-ChunkOk s.pipe s.writer s t h
server_at-ChunkOk _ s t v h = ground arith

client_at-ChunkOk :
    (room : ℕ) (q : Client) (s t : State) → ChunkOk s → client_at room q s ≡ some t → ChunkOk t
unfolding client_at ChunkOk
client_at-ChunkOk room writing s t v h = ground arith
client_at-ChunkOk room _ s t v h = ground arith

step-ChunkOk : (room : ℕ) (e : Event) (s t : State) → ChunkOk s → step room e s ≡ some t → ChunkOk t
unfolding step ChunkOk
step-ChunkOk room client_moves s t v h = client_at-ChunkOk room s.client s t v h
step-ChunkOk room server_moves s t v h = server_at-ChunkOk s.server s t v h
step-ChunkOk room client_fails s t v h = ground arith
step-ChunkOk room server_fails s t v h = ground arith

Reach-ChunkOk :
    {room : ℕ} {fifo : Bool} {lines : List Bytes} {n : ℕ} {s : State}
    → Reach room fifo lines n s
    → ChunkOk s
unfolding ChunkOk
Reach-ChunkOk begin = omega arith
Reach-ChunkOk {room} (later {s} {t} e r h) = step-ChunkOk room e s t (Reach-ChunkOk r) h

-- In every reachable state a read has put at most 300 bytes into the array of the server; and if the
-- lines have fewer than 100 bytes together, each read leaves room in it for the zero byte.
short_input_fits :
    {room : ℕ} {fifo : Bool} {lines : List Bytes} {n : ℕ} {s : State}
    → Reach room fifo lines n s
    → (length s.chunk ≤ 300)
      × (length (flat lines) < server_room → length s.chunk + 1 ≤ server_room)
unfolding ChunkOk
short_input_fits {s} r =
    let (more, e) = got-beginning r in
    let v = Reach-ChunkOk r in (v.1, λ h. omega (arith, v.0, ap length e, length-append s.got more))

-- States that can be come to.
abbrev pub Comes : ℕ → List Bytes → State → Type 0
Comes room lines s = (n : ℕ) × Reach room false lines n s

abbrev run : ℕ → List Event → Option State → Option State
run room [] o = o
run room (e ∷ es) none = none
run room (e ∷ es) (some s) = run room es (step room e s)

run-Comes :
    {room : ℕ} {lines : List Bytes} (es : List Event) (o : Option State) {t : State}
    → ((u : State) → o ≡ some u → Comes room lines u)
    → run room es o ≡ some t
    → Comes room lines t
run-Comes [] o {t} r h = r t h
run-Comes (e ∷ es) none r h = cc
run-Comes {room} (e ∷ es) (some s) r h =
    run-Comes es (step room e s) (λ u k. let (n, p) = r s refl in (suc n, later e p k)) h

-- Both programs have opened the FIFO.
abbrev meeting : List Event
meeting = client_moves ∷ client_moves ∷ server_moves ∷ server_moves ∷ client_moves ∷ []

-- The client is about to get a line, and the server to read; `over` is whether a line was too long.
abbrev serving : Bool → Bytes → Bytes → List Bytes → State
serving over pipe line input = record (init true input) {
  client = getting;
  server = reading;
  reader = true;
  writer = open_now;
  pipe = pipe;
  line = line;
  sent = pipe;
  overrun = over;
}

put_line_lem :
    (room : ℕ) (s : State)
    → is_over s.server ≡ false
    → length s.pipe + length s.line ≤ room
    → put_line room s
      ≡ some (record s { client = remeasuring; pipe = s.pipe ++ s.line; sent = s.sent ++ s.line })
put_line_lem room s o h = ground arith

-- One line is got and written.
line-Comes :
    (room : ℕ) (lines : List Bytes) (over : Bool) (pipe line l : Bytes) (ls : List Bytes)
    → length pipe + length (c_string l) ≤ room
    → Comes room lines (serving over pipe line (l ∷ ls))
    → Comes room lines
        (serving (over || leb client_room (length l)) (pipe ++ c_string l) (c_string l) ls)
unfolding step client_at
line-Comes room lines over pipe line l ls fits (n, r) =
    let longer = over || leb client_room (length l) in
    let got_it : State = record (serving longer pipe (c_string l) ls) { client = writing } in
    (
      suc (suc (suc (suc n))),
      later client_moves
          (later client_moves (later client_moves (later client_moves r refl) refl)
            (put_line_lem room got_it refl fits))
          refl,
    )

both_sent : Bytes → Bytes → List Bytes → State
both_sent a b ls =
    serving (leb client_room (length a) || leb client_room (length b)) (c_string a ++ c_string b)
      (c_string b) ls

both_sent-Comes :
    (room : ℕ) (a b : Bytes) (ls : List Bytes)
    → length (c_string a) + length (c_string b) ≤ room
    → Comes room (a ∷ b ∷ ls) (both_sent a b ls)
unfolding step client_at server_at both_sent
both_sent-Comes room a b ls h =
    let lines = a ∷ b ∷ ls in
    line-Comes room lines (leb client_room (length a)) (c_string a) (c_string a) b ls h (
      line-Comes room lines false [] [] a (b ∷ ls) (omega arith) (
        run-Comes meeting (some (init false lines))
          (λ u k. (0, subst (Reach _ _ _ _) (some-injective _ _ k) begin)) refl))

read_pipe-chunk :
    (bs : Bytes) (w : Writer) (s : State)
    → 0 < length bs
    → (t : State) × (read_pipe bs w s ≡ some t)
      × (t.server ≡ telling)
      × (length t.chunk ≡ min asked (length bs))
read_pipe-chunk [] w s h = absurd (omega arith)
read_pipe-chunk (b ∷ bs) w s h = (_, refl, refl, length-take asked (b ∷ bs))

-- If the first two lines have 100 bytes or more together, and the pipe has room for both, the two
-- programs can come to a state in which the server has read 100 bytes or more at once, so that its
-- zero byte, and all bytes after the first 100, are stored outside of its array: also when each line
-- alone is shorter than 100.
pub two_lines_overflow :
    (room : ℕ) (a b : Bytes) (ls : List Bytes)
    → server_room ≤ length (c_string a) + length (c_string b)
    → length (c_string a) + length (c_string b) ≤ room
    → (n : ℕ) × (s : State) × Reach room false (a ∷ b ∷ ls) n s
      × (s.server ≡ telling)
      × (server_room ≤ length s.chunk)
unfolding step server_at both_sent
two_lines_overflow room a b ls low high =
    let both = c_string a ++ c_string b in
    let sum = length-append (c_string a) (c_string b) in
    let (n, p) = both_sent-Comes room a b ls high in
    let (t, read, at, size) =
      read_pipe-chunk both open_now (both_sent a b ls) (omega (arith, sum)) in
    (suc n, t, later server_moves p read, at, omega (arith, size, sum))
