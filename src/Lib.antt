-- ===== src/Lib.antt =====
-- File Peeker: the parts of the file manager whose behaviour is decided by pure code or by short
-- critical sections, translated function by function, with what makes them correct.
--
-- Escaped names (src/path_string.rs) are how every path crosses the client protocol. Utf8 is what the
-- code relies on of the standard library's `str::from_utf8`; PathString has `escape`, `push_valid`,
-- `unescape`, `hex_value`, the constructors of `PathString`, `to_bytes` and `join`, and PathString/Name
-- `is_name`. A text is the list of its bytes. The loop of `escape` runs on fuel, one more than the length
-- of the text: each round uses up a byte at least, and PathString/Loop shows that the fuel never ends before the text.
--
-- The task runtime (src/task/mod.rs, src/task/runtime.rs, src/task/handle.rs) admits, runs and settles
-- the server's tasks. Task has the types, Task/Registry the registry's entries, Task/Runtime admission
-- (`admission`, `dequeue`, the critical section of `admit`, `leave_queue`, the drop of a `Slot`) and the
-- resources, Task/Lifecycle `set_state`, `settle`, eviction and progress, Task/Start `start`, `cancel`,
-- `cancel_all`, `idle`, `finish_children` and `tasks`. Each critical section of the registry's lock is
-- one function on the state. Task/Driver has `drive` and `admit` as a driver's phases: a driver goes
-- from one await or lock to the next, and an interleaving is any list of actions. When a driver wakes,
-- and when a body ends, is a choice of that list, so what holds of all lists holds of all schedules. An
-- entry's subtree is removed on fuel, one more than the number of entries, and no chain of
-- children is longer.
--
-- Tasks on the wire (src/server/tasks.rs, src/client/tasks.rs): Wire has `task_message`, `unix_millis`
-- and `TaskView::from`; the messages that the build generates are records.
--
-- File writes (src/fs/write.rs, src/fs/error.rs, src/fs/absolute.rs): Fs and Fs/Write have `write_file`,
-- `create_partial` and the guard `Partial`, on a map of regular files. What each system call answers, the
-- chunks of the source, the await where the write's future is dropped and whether the system then carries
-- the call out all the same, whether the partial file can be removed, and a file that another process makes
-- at the destination before it is published are parameters. The 128 tries of `create_partial` are the source's.
--
-- Walks (src/fs/walk.rs, src/fs/entry.rs): Fs/Entry has `inspect` on the system's answers, Fs/Walk the stack
-- of open directories and the items of the stream, on a tree of what the system answers; Fs/Walk/Preorder
-- has the recursion on that tree. The polls of the stream are counted, and one more than its items are
-- enough.
--
-- The terminal client (src/tui/app.rs): Tui/Machine has `Machine::apply` and `Machine::expire`, Tui/App
-- the keys, the mouse, the menus and the selection, with `none` where the code would panic. It shows the
-- `TaskView`s of Wire.
--
-- Reconnection (src/tui/connection.rs): Tui/Connection has `Backoff::delay`, `attach` and the loop of `run`.
-- What the loop meets, the probe, the channel, the stream, the clock and the user, is a list of rounds; the UI
-- receives a number of events, and the connection ends where it cannot send one.
--
-- Remote machines (src/protocol/probe.rs, src/client/remote.rs, src/client/ssh.rs): Client has what a probe
-- says, what a failed one means and whether its build is the one wanted, and Client/Quote `quote` over the
-- bytes of its argument, with how a POSIX shell reads a word of the kind beside it.
--
-- The browser of the previous implementation (old/src/browser, old/src/gui/app.rs,
-- old/src/tui/browser_context.rs): Browser/Tree has the rows in pre-order, the expansions that stream into
-- them and every operation of `Tree`, with `none` where an index out of range or a
-- subtraction below 0 would make the code panic. Browser/Tree/Shape says when
-- placements are in place, on depths and expansions as functions of a row's index; Rows, Removal,
-- Invariant, Operations, Endings, Begin, Dropped, Collapse and Depths carry that through each operation,
-- and Chunks compares the groups of one listing. Browser/Events has what a tab of the desktop client does
-- to its tree (`toggle`, `drain`, `apply`). Browser/Window has `Tree::window` and `VisibleRows`; lower
-- case, substrings, lossy decoding and a path's leading components are the standard library's and stand as
-- a parameter. Browser/Context has the terminal client's viewport, selection and filter, and
-- Browser/Context/Listing its listings, a task being known by its request. A depth is a `u16` that stops
-- at its maximum, so the number of events is bounded where that matters: each one makes the tree at most
-- one row deeper.
--
-- Not modelled: tokio's channels and wake-ups beyond the choices above, the wording of errors of the file
-- system, the gRPC server and client, running SSH and the processes over it, the command line, drawing, the
-- other file system operations, typing, completing and descending in a filter, and the rest of the previous
-- implementation under old/.
pub mod Base
pub mod Utf8
pub mod PathString
pub mod Task
pub mod Wire
pub mod Fs
pub mod Client
pub mod Tui
pub mod Browser
