-- ===== src/Lib.antt =====
-- rustix-os: the fault-tolerant core of the system, as functions, with the theorems about it.
--
-- The machine keeps every byte as a word of an error-correcting code in one of 64 page frames. The
-- kernel's dispatcher gives each process frames and steps it; the file system keeps the contents
-- of files in frames; a scrubber reads all owned frames and moves pages off failing ones; critical
-- work is run three times and voted on. System calls give programs access to files.
--
-- - Ecc: memory-subsystem/src/ecc.rs. `encode` and `decode` follow the shifts and tests of the
--   code, on words of 16 bits. Ecc/Tables checks all bytes with all flips of one or two bits by
--   computation, and Ecc/Correct states what that shows.
-- - Frame: `PhysicalFrame` of memory-subsystem/src/allocator.rs. `words` is its array `data`, and
--   a method on `&mut self` returns its result with the frame after it. Frame/Health has the
--   invariant of a frame, Frame/RoundTrip what reads after writes and after flips return.
-- - Allocator: `MemoryAllocator` of the same file, with the 64 frames and the map of owners.
--   `Run` is a result with the allocator after it. Allocator/Invariant has the invariant,
--   Allocator/Free the search for a frame, Allocator/Relocate the relocation of a damaged page,
--   Allocator/Safe that calls with any index return.
-- - Scrubber: memory-subsystem/src/scrubber.rs. Scrubber/Scan is about the reads of one page,
--   Scrubber/Page about the relocation that may follow, Scrubber/Sweep about the whole sweep.
-- - Tmr: scheduler/src/tmr.rs. `same` and `debug` are the `PartialEq` and the `Debug` of the type
--   that is voted on, and `lawful` says that `same` decides equality.
-- - Dispatcher: scheduler/src/dispatcher.rs. A log line is a constructor of `LogEvent` with the
--   values that its text shows; Dispatcher/Log has the invariant of the kernel state,
--   Dispatcher/Spawn and Dispatcher/Step are about `spawn_process` and `execute_step`.
-- - Vfs: virtual-fs/src/inode.rs (Vfs/Inode) and virtual-fs/src/vfs.rs: Vfs/Path resolves paths,
--   Vfs/Tree makes and renames nodes, Vfs/Write and Vfs/Read are `write_file` and `read_file`,
--   Vfs/Remove and Vfs/Copy are `remove_node` and `copy_file`. A name is a list of bytes.
--   Vfs/Lost is about files whose page was moved by others;
--   Vfs/RoundTrip joins writing and reading; Vfs/Closed is about tables of inodes in which every
--   number points to something, and the operations on them.
-- - Syscall: kernel-x86/src/syscall.rs, the check of user pointers and the calls on files.
--   Syscall/Calls has open, close, mkdir, unlink and fault injection, Syscall/Transfer has read and
--   write. The state is the descriptor table, the file system with its allocator, user memory, the
--   counters of the shared page and the serial port. `from_utf8` and `as_bytes` are the core
--   library's conversions between bytes and text. Syscall/Pointer is about the memory that the
--   calls may touch, Syscall/Descriptors about descriptors, Syscall/Transfer/Splice about the bytes
--   that a write call changes.
-- - Core: kernel-core/src/bootstrap.rs, the state of the whole kernel: Core/Boot starts it, `tick`
--   steps the processes, sweeps the memory and runs the critical operation. Core/Reach takes the
--   kernel as a state machine whose steps are ticks, flips of bits and operations on files.
-- - Input: the input events of kernel-x86/src/. Input/Ring is `RingBuffer` of interrupts.rs,
--   Input/Keyboard and Input/Mouse are the decoders of keyboard.rs and mouse.rs, Input/Interrupt
--   joins them in the interrupt handlers. Input/Ring/Refine and Input/Ring/Runs compare the ring
--   with a bounded queue; Input/Interrupt/Reach takes the input side as a state machine.
-- - Threads: kernel-x86/src/scheduler.rs, with the instructions of `switch_context` in
--   Threads/Context. Memory gives the 64-bit word at an address.
-- - Shell: kernel-x86/src/shell.rs. Shell/Path normalizes paths, Shell/Find searches and prints the
--   tree, Shell/Handle has the handlers of the commands and Shell/Run the `match` over them. What a
--   command prints is a value of `Reply`. Shell/Run/Settled puts the commands on top of the states of
--   Core/Reach.
-- - Windows: `WindowManager` of kernel-x86/src/framebuffer/window.rs, what the mouse does to the
--   windows. FileManager: usermode-desktop/src/file_manager/state.rs, with its buffers as lists of
--   bytes and `is_utf8` for the core library's test of a text. Terminal: the text grid of
--   usermode-desktop/src/console.rs.
-- - Prelude has the numbers, lists and tests that all share; Outcome has the result type: `ok`, an
--   `err` with its error, or `panic` where the code would panic on an index out of range or an
--   unwrapped `None`.
--
-- Bounds and fuel. Loops over frames and bytes are recursions on the 64 steps that the code makes.
-- `read_block` reads a byte again after a relocation; its fuel, `block_fuel`, covers the 64 bytes of
-- a page, one relocation (a relocated page holds no destroyed byte) and the round that sees the
-- end. Running out is an answer of its own, `none`, which Vfs/Read/Fuel excludes.
-- `free_inode` descends at most as deep as the table of inodes is long,
-- and so do `find_in_vfs` and `print_vfs_tree`. Vfs/Ranked and Shell/Descend exclude that they run out
-- on a tree without cycles, which `IsRanked` describes by a rank that falls from a directory to its
-- entries; on a cycle, which a rename can make, none of them ends in the code, and here they
-- answer `none`.
--
-- Not modelled: the other system calls and the mapping of pages, the kernel's hardware layer
-- (kernel-core/src/hal.rs), descriptor tables, the interrupt controller, the set-up of devices,
-- drawing and the log (kernel-x86/), the rest of the desktop (usermode-desktop/), the user-mode stubs
-- (usermode-x86/) and the host tools (runner/, simulation-dashboard/), which are input, output,
-- drawing and assembly; the text of printed lines; machine widths of indices and sizes, which stay
-- far below their limits on 64 frames; the wrap-around of addresses. Spin locks and concurrency are
-- left out: a handler of an interrupt, a poll, a system call or a command runs to its end before the
-- next one starts, so that a lock is always free when it is taken. In the code an interrupt can come
-- while `poll_keyboard` holds the lock of the event queue, and then waits for ever. The shell's `run`
-- and `usermode` are modelled up to the start of the program: their replies stand for it, and what
-- the program does is not part of the state. The dialogs of the file manager leave out their system
-- calls. The second mapping of the shared page, at 0x300000, is left out.
pub mod Prelude
pub mod Outcome
pub mod Ecc
pub mod Frame
pub mod Allocator
pub mod Scrubber
pub mod Tmr
pub mod Dispatcher
pub mod Vfs
pub mod Core
pub mod Input
pub mod Threads
pub mod Shell
pub mod Windows
pub mod FileManager
pub mod Terminal
pub mod Syscall
mod Tests
mod VfsTests
mod SyscallTests
mod CoreTests
mod InputTests
mod ThreadsTests
mod WindowsTests
mod DesktopTests
