-- ===== src/Unix/Files.antt =====
-- The file calls open, close, lseek, read and write on the state of the system.
use aup_assignments.Prelude.{
  ℕ, suc, ◌+◌, ◌-◌, Bool, Option, none, some, List, [], ◌∷◌, leb, if◌then◌else◌, length, take, drop,
  get_elem?, set,
}
use aup_assignments.Prelude.Int.{ℤ, pos, negsuc, minus_one, eqb_ℤ}
use aup_assignments.Unix.Bytes.{Bytes, bytes_eqb, write_at}
use aup_assignments.Unix.Proc.{Exec, done, exited}

-- What the environment does to the next call: let it take place, make it fail with an `errno`, or
-- let a transfer stop after some bytes.
pub data Fault : Type 0 where
  clear : Fault
  fail : ℕ → Fault
  short : ℕ → Fault

-- An open file. No program here duplicates a descriptor of this table, so each has its own offset.
pub record Ofd : Type 0 where
  pub name : Bytes
  pub offset : ℕ
  pub reads : Bool
  pub writes : Bool
  pub appends : Bool

-- A name stands for its file: no program here links or removes one. The list of faults ends where
-- every later call is clear.
pub record Os : Type 0 where
  pub files : Bytes → Option Bytes
  pub fds : List (Option Ofd)
  pub faults : List Fault
  pub errno : ℕ

abbrev pub Proc : Type 0 → Type 0
Proc A = Os → Exec A × Os

abbrev pub enoent : ℕ
enoent = 2

abbrev pub ebadf : ℕ
ebadf = 9

abbrev pub efault : ℕ
efault = 14

abbrev pub einval : ℕ
einval = 22

-- The flags of open that the programs give.
pub record Flags : Type 0 where
  pub reads : Bool
  pub writes : Bool
  pub creates : Bool
  pub appends : Bool
  pub truncates : Bool

abbrev pub next_fault : List Fault → Fault
next_fault [] = clear
next_fault (f ∷ fs) = f

abbrev pub later_faults : List Fault → List Fault
later_faults [] = []
later_faults (f ∷ fs) = fs

-- Every call takes the next fault.
abbrev pub taken : Os → Os
taken s = record s { faults = later_faults s.faults }

abbrev pub failed : ℕ → Os → ℤ × Os
failed e s = (minus_one, record s { errno = e })

abbrev pub update : (Bytes → Option Bytes) → Bytes → Bytes → Bytes → Option Bytes
update files name c n = if bytes_eqb n name then some c else files n

-- The lowest free descriptor, and the table with `d` there.
abbrev pub lowest : List (Option Ofd) → ℕ
lowest [] = 0
lowest (none ∷ fds) = 0
lowest (some d ∷ fds) = suc (lowest fds)

abbrev pub alloc : List (Option Ofd) → Ofd → List (Option Ofd)
alloc [] d = some d ∷ []
alloc (none ∷ fds) d = some d ∷ fds
alloc (some e ∷ fds) d = some e ∷ alloc fds d

abbrev pub join : Option (Option Ofd) → Option Ofd
join none = none
join (some o) = o

-- The open file of a descriptor.
abbrev pub desc : List (Option Ofd) → ℤ → Option Ofd
desc fds (pos k) = join (get_elem? fds k)
desc fds (negsuc k) = none

abbrev pub set_desc : List (Option Ofd) → ℤ → Option Ofd → List (Option Ofd)
set_desc fds (pos k) o = set fds k o
set_desc fds (negsuc k) o = fds

abbrev pub contents : Option Bytes → Bytes
contents none = []
contents (some c) = c

abbrev opened : Bytes → Flags → Bytes → Os → ℤ × Os
opened name g c s = (
  pos (lowest s.fds),
  record s {
    files = update s.files name (if g.truncates then [] else c);
    fds = alloc s.fds (record {
      name = name;
      offset = 0;
      reads = g.reads;
      writes = g.writes;
      appends = g.appends;
    });
  },
)

abbrev open_existing : Bytes → Flags → Option Bytes → Os → ℤ × Os
open_existing name g (some c) s = opened name g c s
open_existing name g none s = if g.creates then opened name g [] s else failed enoent s

abbrev open_call : Fault → Option Bytes → Flags → Os → ℤ × Os
open_call (fail e) path g s = failed e s
open_call _ none g s = failed efault s
open_call _ (some name) g s = open_existing name g (s.files name) s

abbrev close_desc : Option Ofd → ℤ → Os → ℤ × Os
close_desc none fd s = failed ebadf s
close_desc (some d) fd s = (pos 0, record s { fds = set_desc s.fds fd none })

abbrev close_call : Fault → ℤ → Os → ℤ × Os
close_call (fail e) fd s = failed e s
close_call _ fd s = close_desc (desc s.fds fd) fd s

-- SEEK_SET or SEEK_END.
pub data Whence : Type 0 where
  from_start from_end : Whence

abbrev pub base : Whence → Bytes → ℕ
base from_start c = 0
base from_end c = length c

-- The new offset, if it is not negative.
abbrev pub target : ℕ → ℤ → Option ℕ
target b (pos n) = some (b + n)
target b (negsuc n) = if leb (suc n) b then some (b - suc n) else none

abbrev seek_to : Option ℕ → Ofd → ℤ → Os → ℤ × Os
seek_to none d fd s = failed einval s
seek_to (some p) d fd s =
    (pos p, record s { fds = set_desc s.fds fd (some (record d { offset = p })) })

abbrev seek_desc : Option Ofd → ℤ → ℤ → Whence → Os → ℤ × Os
seek_desc none fd off w s = failed ebadf s
seek_desc (some d) fd off w s = seek_to (target (base w (contents (s.files d.name))) off) d fd s

abbrev seek_call : Fault → ℤ → ℤ → Whence → Os → ℤ × Os
seek_call (fail e) fd off w s = failed e s
seek_call _ fd off w s = seek_desc (desc s.fds fd) fd off w s

-- Where a write goes.
abbrev pub write_pos : Ofd → Bytes → ℕ
write_pos d c = if d.appends then length c else d.offset

abbrev pub write_desc : Option Ofd → ℤ → Bytes → Os → ℤ × Os
write_desc none fd bs s = failed ebadf s
write_desc (some d) fd bs s =
    let c = contents (s.files d.name) in
    let p = write_pos d c in
    if d.writes
    then (
      pos (length bs),
      record s {
        files = update s.files d.name (write_at c p bs);
        fds = set_desc s.fds fd (some (record d { offset = p + length bs }));
      },
    )
    else failed ebadf s

abbrev pub write_call : Fault → ℤ → Bytes → Os → ℤ × Os
write_call clear fd bs s = write_desc (desc s.fds fd) fd bs s
write_call (fail e) fd bs s = failed e s
write_call (short n) fd bs s = write_desc (desc s.fds fd) fd (take n bs) s

-- What a read returns: the count, or -1, and the bytes.
pub record Got : Type 0 where
  pub count : ℤ
  pub bytes : Bytes

abbrev read_desc : Option Ofd → ℤ → ℕ → Os → Got × Os
read_desc none fd n s = (record { count = minus_one; bytes = [] }, record s { errno = ebadf })
read_desc (some d) fd n s =
    let bs = take n (drop d.offset (contents (s.files d.name))) in
    if d.reads
    then (
      record { count = pos (length bs); bytes = bs },
      record s { fds = set_desc s.fds fd (some (record d { offset = d.offset + length bs })) },
    )
    else (record { count = minus_one; bytes = [] }, record s { errno = ebadf })

abbrev read_call : Fault → ℤ → ℕ → Os → Got × Os
read_call clear fd n s = read_desc (desc s.fds fd) fd n s
read_call (fail e) fd n s = (record { count = minus_one; bytes = [] }, record s { errno = e })
read_call (short k) fd n s = read_desc (desc s.fds fd) fd (if leb k n then k else n) s

abbrev pub returning : {A : Type 0} → A × Os → Exec A × Os
returning r = (done r.0, r.1)

unfoldable pub open_file : Option Bytes → Flags → Proc ℤ
open_file path g s = returning (open_call (next_fault s.faults) path g (taken s))

unfoldable pub close : ℤ → Proc ℤ
close fd s = returning (close_call (next_fault s.faults) fd (taken s))

unfoldable pub lseek : ℤ → ℤ → Whence → Proc ℤ
lseek fd off w s = returning (seek_call (next_fault s.faults) fd off w (taken s))

unfoldable pub write : ℤ → Bytes → Proc ℤ
write fd bs s = returning (write_call (next_fault s.faults) fd bs (taken s))

unfoldable pub read : ℤ → ℕ → Proc Got
read fd n s = returning (read_call (next_fault s.faults) fd n (taken s))

-- `return errno`, the usual end of a `main` after a failed call.
abbrev pub return_errno : Proc (Unit {0})
return_errno s = (exited s.errno, s)

abbrev pub is_error : ℤ → Bool
is_error r = eqb_ℤ r minus_one
