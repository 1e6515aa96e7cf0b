-- ===== src/Unix.antt =====
-- What the programs use of the C library's file calls, as POSIX documents them: files as byte
-- sequences, the descriptor table of the process, `errno`, and a list of faults by which the
-- environment makes a call fail or transfer less than asked.
pub mod Proc
pub mod Bytes
pub mod Atoi
pub mod Files
pub mod Lemmas
pub mod Frame
pub mod Grows
pub mod Stdio
pub mod Pid
