-- ===== src/Lib.antt =====
-- The programs of an Advanced Unix Programming course, and what they do.
--
-- The repository is a set of independent C programs, a folder for each assignment. Each is modelled
-- by the modules below, its functions by functions of the same or a like name:
--
-- - Unix: the calls of the C library that the programs share. Unix/Files has files as byte sequences
--   by name, the descriptor table with the lowest free number taken first, `errno`, and a list of
--   faults by which the environment makes a call fail or lets it transfer less than asked; open,
--   close, lseek, read and write are functions on that state. Unix/Proc is the monad of a process
--   that may exit, Unix/Atoi the conversion of arguments, Unix/Lemmas, Unix/Frame and Unix/Grows the
--   laws that the programs' proofs use; Unix/Stdio has the buffer of standard output, and Unix/Pid
--   the cast to pid_t.
-- - Prelude: the shared names, numbers and lists. Prelude/Systems has the reachable states of a step
--   function on events, which WaitSync, BlockWait and ExitHandler take theirs from; Prelude/Shuffle the
--   interleavings of two lists.
-- - Truncate (assignment_1/truncate.c), Append (assignment_1/append.c), Hole
--   (assignment_1/hole_in_file.c), Rdwr (assignment_1/rdwr.c): `main` and its helpers over Unix.
-- - Monitor (test_pthreads/condition_variable_mutex_lock_unlock.c), Spin
--   (test_pthreads/mutex_lock_unlock.c), Counter (test_pthreads/condition_variable.c): two threads
--   each, every thread a function from the shared state to its next state, interleaved in any order;
--   Reach is what can come of it, spurious wake-ups of pthread_cond_wait included. Bounded is what the
--   first two promise, a stack with a limit, and Monitor/Refines and Spin/Refines relate them to it.
-- - Pending (assignment_8/child_pending_signals_and_mask.c): `main` once as the parent runs it and
--   once as the child does, over a process's mask, pending signals and handlers; any call may fail.
-- - Group (assignment_8/signal_process_group.c): six processes as positions in their code, and one
--   function for each that takes it a call further (Group/Steps); the FIFO, the shared value and the
--   process groups are fields of the state, and an event says who moves, whose call fails, or that
--   the alarm goes off.
-- - WaitSync (assignment_9/sigchld_wait_sync.c), BlockWait (assignment_9/sigchld_block_wait.c): a
--   parent and the handler of SIGCHLD as positions in their code, the child, and the signal, with an
--   event for what happens next; wait is taken to go on after a handler has run.
-- - Game (assignment_7/game.c): `main` over Unix, with the real, effective and saved user ids and
--   who may write or create a file.
-- - Children (assignment_5/print_child_statuses.c): both loops of `main` over the children that have
--   not been waited for and the array of process ids; the results of fork, and what each child has
--   come to when it is asked for, are parameters.
-- - Fifo (assignment_3/client.c and assignment_3/server.c): the two programs as positions in their
--   code, with the FIFO between them, and events that say whose call comes next or fails. Reach has
--   the size of the pipe and the client's input as parameters.
-- - Buffering (test_fork_printf_buffering/fork_printf_buffering.c): three processes as positions in
--   their code, each with its stdio buffer, which fork copies.
-- - Regroup (assignment_7/change_process_group.c): six processes and a FIFO as in Group, without
--   shared memory and signal. Regroup/Simulation relates the two programs.
-- - Env (assignment_4/print_env_var.c and assignment_4/remove_env_var.c): both `main`s over the
--   environment as the list of its entries.
-- - Realpath (assignment_2/realpath.c): `main` and `myrealpath` over the symbolic links as a function
--   from paths to targets, with the size of each buffer; Realpath/Paths has what the program uses of
--   string.h and libgen.h. The fuel is for the loop over readlink, and one test more than the longest
--   chain has links is enough.
-- - FileInfo (assignment_3/print_file_info.c): `main` over what opendir, readdir, lstat and getpwuid
--   give, which are parameters.
-- - Times (assignment_3/times.c): `main` over the three times of a file and of its directory, a clock,
--   and a list that says which calls fail.
-- - Hangup (assignment_8/sighup_sigcont.c): parent and child as positions in their code, and the
--   signals of an orphaned process group; whether a shell with job control has started the program is
--   a parameter.
-- - Redirect (assignment_3/redirect.c): `main` over a descriptor table of its own, since dup lets two
--   descriptors share what they stand for, and the buffer of standard output.
-- - Umask (assignment_2/umask.c): `main` and `getumask` over the mask and the modes of files.
-- - ExitHandler (assignment_5/inherit_exit_handler.c): parent and child as positions in their code, each
--   with its buffer and its registered handlers, which fork copies.
-- - Timing (assignment_6/execution_time.c): `main` over a clock, with the buffers that the children copy.
-- - Jumps: setjmp and longjmp over the calls that have not returned; Jumps/Variables
--   (assignment_4/all_variable_types.c) and Jumps/Returned (assignment_4/variables_jmp.c) are the two
--   programs that jump.
-- - ChildFile (assignment_6/child_file_handle.c), WriteBuf (test_write_to_buf/writebuf.c), Create
--   (test_file_create/temp.c): `main` over Unix.
-- - Ids (assignment_6/inherit_ids.c): `main` over the ids of a process and its buffer.
-- - DotLinks (test_dot_dotdot_symlink/is_symlink.c): `main` over directories as functions from names to
--   inode numbers.
--
-- Files are named by byte strings, and a name stands for its file, since no modelled program links
-- or removes one. An offset is a number without bound; an `int` taken from it keeps its low 32 bits.
-- The loops on a file take fuel, and the theorems ask for more of it than the file has bytes, which
-- is enough for them to end. Shared variables are read and written in one order for both threads.
-- Messages on the terminal are left out where nothing depends on them. What C leaves undefined is
-- recorded: a write past the end of an array sets `overrun` in Fifo, Redirect and Realpath, and in
-- Truncate an int that overflows gives no result. Behind it the models go on, and promise nothing.
--
-- Not modelled: assignment_2/check_posix_version.c, which prints a constant of the system, and
-- assignment_3/files/temp.c and test_unlink_curr_dir/unlink.c, which make a single call each.
pub mod Prelude
pub mod Unix
pub mod Truncate
pub mod Append
pub mod Hole
pub mod Rdwr
pub mod Bounded
pub mod Monitor
pub mod Spin
pub mod Counter
pub mod Pending
pub mod Group
pub mod WaitSync
pub mod BlockWait
pub mod Game
pub mod Children
pub mod Fifo
pub mod Buffering
pub mod Regroup
pub mod Env
pub mod Realpath
pub mod FileInfo
pub mod Times
pub mod Hangup
pub mod Redirect
pub mod Umask
pub mod ExitHandler
pub mod Timing
pub mod Create
pub mod Jumps
pub mod ChildFile
pub mod Ids
pub mod DotLinks
pub mod WriteBuf
