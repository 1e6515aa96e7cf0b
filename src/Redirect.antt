-- ===== src/Redirect.antt =====
-- assignment_3/redirect.c: standard input and standard output put on files by close and dup.
pub mod Tables
pub mod Results
mod Tests
use aup_assignments.Prelude.{
  ℕ, suc, zero, Bool, true, false, not, ◌&&◌, ◌||◌, Option, none, some, List, [], ◌∷◌, ◌++◌, ◌==◌,
  leb, if◌then◌else◌, length, set,
}
use aup_assignments.Unix.Bytes.{Bytes, write_at}
use aup_assignments.Unix.Proc.{Exec, done, exited, pure, exit, ◌>>=◌, ◌>>◌}

-- What a descriptor stands for: the terminal, the file "stdin", or the file "stdout".
pub data Target : Type 0 where
  terminal source sink : Target

-- `input` and `output` are the contents of both files, if they exist; `string` the array, of which
-- nothing is known before scanf has written to it; `buffer` what is in the buffer of standard output;
-- `shown` what the terminal has got; `overrun` is set by a write past the array. The next call fails
-- with the first of `faults` if that is an `errno`.
pub record State : Type 0 where
  pub fds : List (Option Target)
  pub input : Option Bytes
  pub output : Option Bytes
  pub string : Option Bytes
  pub buffer : Bytes
  pub shown : Bytes
  pub overrun : Bool
  pub faults : List (Option ℕ)

abbrev pub Proc : Type 0 → Type 0
Proc A = State → Exec A × State

-- "Error: "
abbrev pub error_colon : Bytes
error_colon = b'E' ∷ b'r' ∷ b'r' ∷ b'o' ∷ b'r' ∷ 58 ∷ 32 ∷ []

abbrev pub enoent : ℕ
enoent = 2

abbrev pub ebadf : ℕ
ebadf = 9

-- The size of the array `string`.
abbrev pub room : ℕ
room = 128

-- The lowest free descriptor, and the table with it in use.
abbrev pub lowest : List (Option Target) → ℕ
lowest [] = 0
lowest (none ∷ fds) = 0
lowest (some t ∷ fds) = suc (lowest fds)

abbrev pub alloc : List (Option Target) → Target → List (Option Target)
alloc [] t = some t ∷ []
alloc (none ∷ fds) t = some t ∷ fds
alloc (some u ∷ fds) t = some u ∷ alloc fds t

abbrev pub at : List (Option Target) → ℕ → Option Target
at [] k = none
at (o ∷ fds) zero = o
at (o ∷ fds) (suc k) = at fds k

abbrev pub first_fault : List (Option ℕ) → Option ℕ
first_fault [] = none
first_fault (f ∷ fs) = f

abbrev pub later_faults : List (Option ℕ) → List (Option ℕ)
later_faults [] = []
later_faults (f ∷ fs) = fs

abbrev pub contents : Option Bytes → Bytes
contents none = []
contents (some c) = c

-- A call takes the next fault; a call that fails ends the program with its `errno`.
abbrev pub taken : State → State
taken s = record s { faults = later_faults s.faults }

abbrev pub guarded : {A : Type 0} → Option ℕ → Proc A → Proc A
guarded none m s = m s
guarded (some errno) m s = (exited errno, s)

abbrev pub call : {A : Type 0} → Proc A → Proc A
call m s = guarded (first_fault s.faults) m (taken s)

-- The end after a failing open, which prints "Error: ", what strerror says, and a newline.
abbrev pub open_fails : (ℕ → Bytes) → ℕ → Proc ℕ
open_fails strerror errno s =
    (exited errno, record s { buffer = s.buffer ++ (error_colon ++ strerror errno ++ 10 ∷ []) })

-- open of a file that is there, on the lowest free descriptor.
abbrev pub opened : (ℕ → Bytes) → Option Bytes → Target → Proc ℕ
opened strerror none t s = open_fails strerror enoent s
opened strerror (some c) t s = (done (lowest s.fds), record s { fds = alloc s.fds t })

abbrev pub try_open : (ℕ → Bytes) → Option ℕ → Option Bytes → Target → Proc ℕ
try_open strerror none file t = opened strerror file t
try_open strerror (some errno) file t = open_fails strerror errno

abbrev pub open_source : (ℕ → Bytes) → Proc ℕ
open_source strerror s = try_open strerror (first_fault s.faults) s.input source (taken s)

abbrev pub open_sink : (ℕ → Bytes) → Proc ℕ
open_sink strerror s = try_open strerror (first_fault s.faults) s.output sink (taken s)

abbrev pub closed : Option Target → ℕ → Proc (Unit {0})
closed none fd s = (exited ebadf, s)
closed (some t) fd s = (done tt, record s { fds = set s.fds fd none })

abbrev pub close : ℕ → Proc (Unit {0})
close fd = call (λ s. closed (at s.fds fd) fd s)

abbrev pub dupped : Option Target → Proc (Unit {0})
dupped none s = (exited ebadf, s)
dupped (some t) s = (done tt, record s { fds = alloc s.fds t })

abbrev pub dup : ℕ → Proc (Unit {0})
dup fd = call (λ s. dupped (at s.fds fd) s)

-- The white space of scanf: tab, newline and the three behind it, and the space.
abbrev pub is_space : ℕ → Bool
is_space c = c == 32 || leb 9 c && leb c 13

-- The bytes up to the first white space, and the first such word of a text.
abbrev pub up_to_space : Bytes → Bytes
up_to_space [] = []
up_to_space (c ∷ cs) = let rest = up_to_space cs in if is_space c then [] else c ∷ rest

abbrev pub first_word : Bytes → Bytes
first_word [] = []
first_word (c ∷ cs) = let rest = first_word cs in if is_space c then rest else c ∷ up_to_space cs

-- scanf("%s", string) leaves the array as it is if there is no word.
abbrev pub string_of : Bytes → Option Bytes → Option Bytes
string_of [] string = string
string_of (c ∷ cs) string = some (c ∷ cs)

abbrev pub store : Bytes → State → State
store word s = record s {
  string = string_of word s.string;
  overrun = s.overrun || leb room (length word);
}

abbrev pub text_of : Option Target → Option Bytes → Bytes
text_of (some source) input = contents input
text_of _ input = []

abbrev pub scanf : Proc (Unit {0})
scanf s = (done tt, store (first_word (text_of (at s.fds 0) s.input)) s)

-- The bytes before the first zero.
abbrev pub c_string : Bytes → Bytes
c_string [] = []
c_string (c ∷ cs) = let rest = c_string cs in if c == 0 then [] else c ∷ rest

-- printf puts the string into the buffer, up to its first zero byte; nothing is known of it if it was
-- not read.
abbrev pub printf : Proc (Unit {0})
printf s = (done tt, record s { buffer = s.buffer ++ c_string (contents s.string) })

-- The end of the process empties the buffer of standard output, at the start of the file "stdout".
abbrev pub flushed : Option Target → State → State
flushed (some terminal) s = record s { shown = s.shown ++ s.buffer; buffer = [] }
flushed (some sink) s = record s {
  output = some (write_at (contents s.output) 0 s.buffer);
  buffer = [];
}
flushed _ s = record s { buffer = [] }

abbrev pub flush : Proc (Unit {0})
flush s = (done tt, flushed (at s.fds 1) s)

-- main up to a return, and the process up to its end; `strerror` is that of the C library.
abbrev pub body : (ℕ → Bytes) → Proc (Unit {0})
body strerror = do
  fd1 ← open_source strerror
  close 0
  dup fd1
  close fd1
  fd2 ← open_sink strerror
  scanf
  close 1
  dup fd2
  close fd2
  printf

abbrev pub main : (ℕ → Bytes) → Proc (Unit {0})
main strerror s = let r = body strerror s in (r.0, (flush r.1).1)
