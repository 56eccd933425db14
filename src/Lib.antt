-- ===== src/Lib.antt =====
-- WegOS, a 32-bit kernel for the i386: its data structures, memory, tasks and devices.
--
-- A word of w bits is a natural number, with its wrap written out; a C array is a function from indices
-- (Base/Arrays), memory is an array of bytes (Base/Bytes). State is passed from call to call as a
-- record. The build with _DEBUG is modelled, in which the kernel stays in an endless loop where it finds
-- itself in trouble: such a run is `none`. A loop whose bound is not in the code has fuel; each module
-- says why its fuel is enough.
--
-- Base: shared names, Boolean tests, C arrays, binary digits, words with a flag set or cleared, and words in
-- memory.
-- Bit (kernel/lib/bit.c): bits and bit fields of a word.
-- BitAllocation (kernel/lib/bit_allocation.c): the table of bits; Word is about the unaligned write that
-- it makes, Search about the bit that is found.
-- PidQueue (kernel/lib/data_struct.c, include/comm/data_struct.h): the ring of pids; Ring gives its
-- contents as a list, Fifo, Search and Delete are about its operations. Its loops go round the ring of
-- 8192 slots at most once, and have one round more than that.
-- Memory (kernel/mm/memory.c): page frames on a bitmap (Frames), page tables (Entries, Mapping), the
-- identity mapping (Tables, Identity), a directory's copy (Copy), and the sectors of swapped pages in
-- kernel/mm/v_memory.c (Swap). A page table is reached at its frame's
-- address, which holds while the addresses of the kernel map to themselves.
-- Task (kernel/proc/task.c, include/comm/task.h, include/comm/gdt.h): the task table, Descriptor and
-- Creation about new tasks.
-- Sched (kernel/proc/sched.c, on_timer of kernel/time/time.c): Queues has the invariant that binds the
-- queues to the states of the tasks; Outcome, Switch, Wakeup, Calls, Sleep, Timer and Ticks are about the
-- operations, Start and Directories about the first two tasks. Sched uses
-- Task for a change of state, and both use PidQueue. The loop of check_wakeup takes a sleeping task on
-- each pass, so that one round more than there are slots is enough.
-- Semaphore (kernel/proc/semaphore.c): wait and signal, on Sched and PidQueue; Waiting is about who waits.
-- Interrupt (kernel/interrupt/interrupt.c): descriptors (Laws), and the controllers as port
-- writes (Lines).
-- Console (kernel/dev/console.c): the screen and its cursor; Cursor has the cursor's invariant, Text is
-- about strings, and Outside about the memory that printing leaves alone. Scrolling
-- moves the cursor up by one row each time, so an address has fewer than 2 ^ 26 rounds.
-- Keyboard (kernel/dev/keyboard.c): scan codes to characters, on Console and Interrupt.
-- Strings (kernel/lib/string.c): strings against lists of characters (Chars), and numbers as text
-- (Numbers, Negative). An `int` counts fewer than 2 ^ 31 characters; a number below 2 ^ 31 has at most 31 digits.
-- Disk (include/comm/disk.h): the disk as sectors, the copies between a sector and a buffer (Copy), and the
-- driver's port reads and writes (Driver). The drive is a parameter there: how often its status is read
-- before it is ready bounds the wait. Elsewhere a sector is read and written in one step, which is
-- what a drive that serves the sectors does for read_disk.
-- Fs (kernel/fs/fs.c, include/comm/fs.h): files. Io has the reads, writes and seeks: Blocks the contents that a
-- chain of sectors holds, Reading, Writing, Seeking and RoundTrip what the operations do to them, Put and
-- Link what a write leaves of the chain. Paths has the look-up of names: Search in one directory, Walk
-- along a path, Parent and Load around it, Entries for writing an entry back. Files has the calls that
-- change the chain and the size: Chain and Growing are about more blocks, Insert about the bytes, Storing
-- about the directory, Whole and Longer about sys_write as a whole, without and with more blocks, for a file
-- of the root directory, Expanding about file_expand, and Init about a new disk. Bytes is the entry as bytes.
-- Fs uses BitAllocation for the free sectors and Strings for names. What a local variable holds before it
-- is written is an argument; every loop runs as often as its bound says. A call that would go on behind the
-- end of a local array of a fixed size is `none`; sums of `int`s are the source's below 2 ^ 31.
-- Paging (kernel/mm/v_memory.c): pages from the disk, on Memory and Disk; Page is about the frame that is
-- filled.
-- Execve (kernel/mm/execve.c): a process from a file, on Fs, Memory and Task.
-- Clock (kernel/time/time.c): setting up the timer, on Interrupt.
-- Processor (include/comm/asm.h, loader/loader_16.c, loader/loader_32.c): control registers, the interrupt flag
-- and descriptor tables, by what each instruction does, and the loader's C code; Tables is about what they hold.
-- Boot (kernel/init/main.c): the kernel's start on one machine, whose memory and ports all parts share. Stages
-- and Paging are about the steps of `main`, Running about the machine when it begins to wait. A run without
-- an interrupt is modelled.
-- Tickets (kernel/init/main.c): the ticket sellers; Alone is about one of them, Race and Oversold about three
-- that are interleaved. A positive `int32_t` is counted down in fewer than 2 ^ 31 rounds.
-- Examples: each theorem at a concrete input.
--
-- Not modelled: what sys_write prints for debugging; the boot sector and the entry points, which are assembly
-- (boot/start.s, loader/start.s, kernel/init/start.s and the handlers' first instructions); user mode, which
-- nothing enters; and the hardware's task switch, which is recorded as a jump.
pub mod Base
pub mod Bit
pub mod Boot
pub mod BitAllocation
pub mod PidQueue
pub mod Processor
pub mod Memory
pub mod Task
pub mod Tickets
pub mod Sched
pub mod Semaphore
pub mod Interrupt
pub mod Console
pub mod Keyboard
pub mod Paging
pub mod Strings
pub mod Examples
pub mod Clock
pub mod Disk
pub mod Execve
pub mod Fs
