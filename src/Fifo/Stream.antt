-- ===== src/Fifo/Stream.antt =====
-- The invariant of the client and the server: what is sent, in the pipe, and read.
use aup_assignments.Prelude.{
  ℕ, zero, suc, ◌≡◌, refl, ap, Bool, true, false, some, List, [], ◌∷◌, ◌++◌, append_assoc, arith,
  take, drop, ◌⊎◌,
}
use aup_assignments.Unix.Bytes.{Bytes}
use aup_assignments.Fifo.{
  Client, making, measuring, writing, failed, killed, Server, reading, telling, Writer, absent,
  open_now, closed, State, Event, client_moves, client_fails, server_moves, server_fails, c_string,
  client_at, client_fails_at, asked, server_at, step, Reach, begin, later,
}

-- What the client means to send of its lines.
abbrev pub flat : List Bytes → Bytes
flat [] = []
flat (l ∷ ls) = c_string l ++ flat ls

-- What is still to be sent, at a position of the client.
abbrev pub rest : Client → Bytes → List Bytes → Bytes
rest measuring line input = line ++ flat input
rest writing line input = line ++ flat input
rest Client.closing line input = []
rest Client.ended line input = []
rest failed line input = []
rest killed line input = []
rest _ line input = flat input

-- Of the lines, `sent` is a beginning, and after a failure no more is known.
abbrev pub SourceOk : Client → Bytes → Bytes → List Bytes → Bytes → Type 0
SourceOk failed sent line input all =
    (sent ++ [] ≡ all) ⊎ ((sent ++ flat input ≡ all) ⊎ (sent ++ (line ++ flat input) ≡ all))
SourceOk killed sent line input all =
    (sent ++ [] ≡ all) ⊎ ((sent ++ flat input ≡ all) ⊎ (sent ++ (line ++ flat input) ≡ all))
SourceOk q sent line input all = sent ++ rest q line input ≡ all

abbrev pub WriterOk : Writer → Client → Type 0
WriterOk absent making = Unit
WriterOk absent Client.opening = Unit
WriterOk absent failed = Unit
WriterOk absent _ = ⊥
WriterOk open_now making = ⊥
WriterOk open_now Client.opening = ⊥
WriterOk open_now Client.ended = ⊥
WriterOk open_now failed = ⊥
WriterOk open_now killed = ⊥
WriterOk open_now _ = Unit
WriterOk closed Client.ended = Unit
WriterOk closed failed = Unit
WriterOk closed killed = Unit
WriterOk closed _ = ⊥

abbrev pub EmptyClosed : Bytes → Writer → Type 0
EmptyClosed [] closed = Unit
EmptyClosed bs w = ⊥

-- The server leaves its loop at the end of the file only.
abbrev pub EndOk : Server → Bytes → Bytes → Writer → Type 0
EndOk telling [] pipe w = EmptyClosed pipe w
EndOk Server.closing chunk pipe w = EmptyClosed pipe w
EndOk Server.ended chunk pipe w = EmptyClosed pipe w
EndOk _ chunk pipe w = Unit

-- A server that has come to its open has made that known, and has found the FIFO.
abbrev pub ReaderOk : Server → Bool → Bool → Type 0
ReaderOk Server.opening r f = r ≡ false
ReaderOk Server.failed r f = Unit
ReaderOk q r f = (r ≡ true) × (f ≡ true)

-- Nothing is read before the client has opened the FIFO.
abbrev pub EarlyOk : Server → Writer → Type 0
EarlyOk Server.opening w = Unit
EarlyOk Server.in_open w = Unit
EarlyOk Server.failed w = Unit
EarlyOk _ absent = ⊥
EarlyOk _ w = Unit

pub record Finite (s : State) : Type 0 where
  pub writer_ok : WriterOk s.writer s.client
  pub end_ok : EndOk s.server s.chunk s.pipe s.writer
  pub reader_ok : ReaderOk s.server s.reader s.fifo
  pub early_ok : EarlyOk s.server s.writer

pub record Inv (all : Bytes) (s : State) : Type 0 where
  pub finite : Finite s
  pub source : SourceOk s.client s.sent s.line s.input all
  pub stream : s.got ++ s.pipe ≡ s.sent

take-drop : (n : ℕ) (bs : Bytes) → take n bs ++ drop n bs ≡ bs
take-drop zero [] = refl
take-drop zero (b ∷ bs) = refl
take-drop (suc n) [] = refl
take-drop (suc n) (b ∷ bs) = ap (λ l. b ∷ l) (take-drop n bs)

module _ (room : ℕ) where
  client_at-Finite :
      (q : Client) {s t : State} → s.client ≡ q → Finite s → client_at room q s ≡ some t → Finite t
  unfolding client_at
  client_at-Finite writing e v h = ground arith
  client_at-Finite _ e v h = ground arith

  client_at-source :
      (q : Client) (s t : State) (all : Bytes)
      → SourceOk q s.sent s.line s.input all
      → client_at room q s ≡ some t
      → SourceOk t.client t.sent t.line t.input all
  unfolding client_at
  client_at-source writing s t all v h = ground (arith, append_assoc s.sent s.line (flat s.input))
  client_at-source _ s t all v h = ground arith

  client_at-stream :
      (q : Client) (s t : State)
      → s.got ++ s.pipe ≡ s.sent
      → client_at room q s ≡ some t
      → t.got ++ t.pipe ≡ t.sent
  unfolding client_at
  client_at-stream writing s t v h = ground (arith, append_assoc s.got s.pipe s.line)
  client_at-stream _ s t v h = ground arith

server_at-Finite :
    (q : Server) {s t : State} → s.server ≡ q → Finite s → server_at q s ≡ some t → Finite t
unfolding server_at
server_at-Finite reading e v h = ground arith
server_at-Finite _ e v h = ground arith

server_at-source :
    (q : Server) (s t : State) (all : Bytes)
    → SourceOk s.client s.sent s.line s.input all
    → server_at q s ≡ some t
    → SourceOk t.client t.sent t.line t.input all
unfolding server_at
server_at-source reading s t all v h = ground arith
server_at-source _ s t all v h = ground arith

server_at-stream :
    (q : Server) (s t : State)
    → s.got ++ s.pipe ≡ s.sent
    → server_at q s ≡ some t
    → t.got ++ t.pipe ≡ t.sent
unfolding server_at
server_at-stream reading s t v h =
    ground
      (arith, append_assoc s.got (take asked s.pipe) (drop asked s.pipe), take-drop asked s.pipe)
server_at-stream _ s t v h = ground arith

client_fails_at-source :
    (q : Client) (s t : State) (all : Bytes)
    → SourceOk q s.sent s.line s.input all
    → client_fails_at q s ≡ some t
    → SourceOk t.client t.sent t.line t.input all
client_fails_at-source measuring s t all v h = ground arith
client_fails_at-source _ s t all v h = ground arith

module _ (room : ℕ) {all : Bytes} where
  step-Inv : (e : Event) {s t : State} → Inv all s → step room e s ≡ some t → Inv all t
  unfolding step
  step-Inv client_moves {s} {t} v h = record {
    finite = client_at-Finite room s.client refl v.finite h;
    source = client_at-source room s.client s t all v.source h;
    stream = client_at-stream room s.client s t v.stream h;
  }
  step-Inv server_moves {s} {t} v h = record {
    finite = server_at-Finite s.server refl v.finite h;
    source = server_at-source s.server s t all v.source h;
    stream = server_at-stream s.server s t v.stream h;
  }
  step-Inv client_fails {s} {t} v h = record {
    finite = ground (arith, v.finite);
    source = client_fails_at-source s.client s t all v.source h;
    stream = ground (arith, v.stream);
  }
  step-Inv server_fails {s} {t} v h = record {
    finite = ground (arith, v.finite);
    source = ground (arith, v.source);
    stream = ground (arith, v.stream);
  }

pub Reach-Inv :
    {room : ℕ} {fifo : Bool} {lines : List Bytes} {n : ℕ} {s : State}
    → Reach room fifo lines n s
    → Inv (flat lines) s
Reach-Inv begin = record { finite = ground arith; source = refl; stream = refl }
Reach-Inv {room} (later e r h) = step-Inv room e (Reach-Inv r) h
