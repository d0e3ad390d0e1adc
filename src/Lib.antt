-- ===== src/Lib.antt =====
-- bubble-os, a hobby operating system for x86_64: parts of the kernel (src/) as a model, with its
-- theorems.
--
-- The kernel boots, maps memory, mounts a FAT volume over AHCI, loads ELF programs from it and
-- runs them in ring 3. The timer interrupt and the system calls enter the scheduler, which keeps
-- the processes; a process reaches files through its descriptor table, and those reach the volume
-- through the file allocation table. Functions that change state take the state and return it
-- beside their result. A word is a number, with its wrap-around or its check written out; where a
-- sum that is left unbounded passes 2 ^ 64 (the counter of pids in deploy, the offset after a
-- write), the debug build that the Makefile links panics, and the model goes on.
--
-- Base, Base/Tests, Base/Lists, Base/Words: names the other files share, Boolean tests, lists
-- measured by native numbers, and 64-bit operations.
--
-- Fat/Table: FatBuffer of src/fs/fat_fs.rs. The table behind the raw pointer is a function from
-- index to cell. free_chain runs on fuel, one more than the entries, which always suffices; the
-- other loops run on the rounds left. Chain says what a cluster chain is, Search, Release and
-- Allocate hold the theorems.
--
-- Fat/Entry: the directory entries of src/fs/fat.rs, as records; Units is about what is written
-- into them and read back.
--
-- Fat/Name: the names of src/fs/fat.rs. The tables of Unicode are the record Unicode. Utf16 is
-- about their encoding, Alias about short aliases. Fat/Entry/Bytes has the layout of an entry on
-- the disk.
--
-- Fat/Volume: FATFileSystem of src/fs/fat_fs.rs over the disk port, which is the record Port over
-- the state of the disk. Mount is about the boot sectors and the table at the mount, Remount
-- about a table that is written and read again. Content and Resize model reading, writing,
-- zeroing, growing and shrinking a file, Slots the entries of a directory on the disk. A loop
-- over a chain runs on fuel: the bytes to move for a loop that moves at least one each round, the
-- offset and one for the walk to it, the entries of the table and one for a directory. Where the
-- table links a directory's clusters in a circle, the source's loop goes on for ever and the
-- model returns nothing. Disk says what a reliable disk is and what it means for clusters;
-- Splice, Reading, Writing, Files and Refinement follow the bytes of a file; Stored is about
-- directory entries, Cut, Persist, Kept and Shrink about making a file shorter. A buffer that
-- cannot be allocated is answered by Port.alloc where the source answers it; where the source
-- panics, the model goes on.
--
-- Fat/Directory: the directories of src/fs/fat_fs.rs, with Allocate and Update for what is
-- written to them, and Handle for an open file; LongSlots, LongSteps, Chunks, Parsing and Names
-- follow a long name into its slots and back.
--
-- Mem/PageTable: src/mem/paging/entry.rs and the walks of src/mem/paging/page_table.rs. The words
-- of the tables and the bytes that the processor loads and stores are the record Machine. Walk is
-- about a walk over a range of addresses.
--
-- Sched/UserMemory: the check of a user address range and the copies of
-- src/scheduling/process.rs; Access is about the check.
--
-- Sched/Files: the functions of src/scheduling/mod.rs that take a path, over the trait Directory
-- as the record DirectoryUpdates.
--
-- Sched/Process: the records of src/scheduling/process.rs, src/mem/stack.rs and
-- src/arch/x86_64/registers.rs. A shared pointer (a file, a directory, a region) is a number.
--
-- Sched/Fd: the descriptor methods of Process. The trait File of src/fs/fs.rs is the record
-- FileOps over a file system state.
--
-- Sched/Scheduler, Sched/Calls: src/scheduling/mod.rs. The statics are the record Kernel, a panic
-- on an index out of bounds is none, and the memory controller is the record MemoryOps. Next and
-- Pick are about next_process, Fair about the distance to a turn, Calls/Timer has the timer
-- interrupt of src/arch/x86_64/timer_isr.rs and its fairness, Fork is about deploy, Listed and
-- Invariant about what all calls keep, Steps about calls in any order, Exit about a process that
-- waits for another.
--
-- Mem/Heap: src/mem/heap.rs. The chain of block headers in memory is a list; Tiling says that the
-- blocks lie end to end, Live what is in use at an address, Calls what the allocator's functions
-- do. The alignment of a layout is used as the source uses it, which is not to align the address;
-- the panic on a size near the greatest is left out.
--
-- Mem/Frames, Mem/Stacks: src/mem/simple_page_frame_allocator.rs and src/mem/stack_allocator.rs,
-- with the pages of src/mem/paging/mod.rs. Pool and Disjoint account for every frame and page:
-- which are free and which in use is a list beside the allocator's state. Mapping the pages is
-- left to the page tables.
--
-- Time, Time/Rtc: src/time/mod.rs and src/arch/x86_64/rtc.rs. The counters are arguments. Days is
-- about the calendar, Modes about the ways the clock keeps a time.
--
-- Syscall: the calls of src/syscall that move the scheduler. The access to user memory is there
-- the record UserMemory; a pointer that is not mapped makes it answer none. Sleep is about
-- nanosleep. Paths has the calls that take a path, with write and clock_gettime, over
-- Sched/UserMemory and Sched/Files; Opening is about them. Execute starts a program (Starting is
-- about it), with the loader of src/elf as an argument, and ReadDir lists the working directory;
-- an entry there has the padding of its C layout as a parameter.
--
-- Path: the path functions of src/fs/fs.rs and src/scheduling/mod.rs. A string is the list of its
-- characters' codes, a directory a number, and list_dir is the record DirectoryOps. Normal and
-- Render are about normalization, Places about where a path leads, Resolve about lookups.
--
-- Not modelled: the drivers (AHCI, e1000, PCI, ACPI, PIC, serial), the boot code, the descriptor
-- tables and the jump to user code, which are hardware access and assembly; changes to page
-- tables and the ELF loader, which the modelled parts see as interfaces; and the programs of
-- userspace.
pub mod Base
pub mod Fat
pub mod Mem
pub mod Path
pub mod Sched
pub mod Syscall
pub mod Time
