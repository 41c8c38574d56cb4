-- ===== src/Lib.antt =====
-- Nachos 3.4, the instructional operating system of CMPS 455: its kernel structures, its file
-- headers and the MIPS machine that it simulates. The code is the copy of the system under
-- `Clean Code Base/nachos-3.4/code`; paths below start there.
--
-- The parts and their files:
--   * threads/list.cc, `List`: Threads/LinkedList. A list is the sequence of its elements and the
--     field `size`, which the code counts apart from them. Threads/LinkedList/Sorted is about the
--     operations with a key, Threads/LinkedList/Counted about the counter.
--   * threads/scheduler.cc and threads/thread.cc: Threads/Scheduler, the threads on the processor, the
--     ready list and the list of active threads, with Scheduler/Places about who can run,
--     Scheduler/Active about the loop of `Finish` and Scheduler/Finish about the thread that runs next.
--   * threads/synch.cc: Threads/Lock and Threads/Semaphore, on the scheduler; System in each is the
--     relation of the steps that threads take in any order, with Invariant (and Lock/Moves and Lock/Steps)
--     about one step and Safety about all reachable states. A step of Lock/System is a call of
--     `Acquire` or `Release` by the current thread, its return from `Acquire`, or a move of the
--     scheduler; whether `Acquire` has returned is read off the thread that runs after it.
--   * threads/synchlist.cc, `SynchList`: Threads/SynchList, on the list under its lock.
--   * threads/threadtest.cc, `PhiloBusy`: Threads/Philosophers, the dining philosophers, with
--     Philosophers/Hands about who holds a chopstick, Safety about all schedules and Deadlock about
--     those in which the dinner stops.
--   * machine/console.cc and `ConsoleTest` of userprog/progtest.cc: Machine/Console, with the echo in
--     Console/Echo.
--   * machine/network.cc and network/post.cc: Network/Device and Network/Post, a message from one
--     machine to a mailbox of another; Post/Delivery is about its way and Post/RoundTrip about what
--     is received. Network/Bytes is about buffers and the headers in them.
--   * userprog/bitmap.cc, `BitMap`: Userprog/BitMap, with what a single bit shows after an
--     operation in BitMap/Bits and the searches in BitMap/Find. It is the free map of
--     the disk and of physical memory.
--   * userprog/addrspace.cc, `Paging`: Userprog/Paging, on the free map, the core map and the page
--     tables of all address spaces; Paging/Frames is about the loops that find a frame, Choose about
--     the frame chosen and Safety about the whole fault.
--   * userprog/addrspace.cc, the rest: Userprog/AddrSpace, the constructor and the first registers
--     (AddrSpace/Layout) and the destructor (AddrSpace/Frames).
--   * userprog/exception.cc, and a round of `Run` of machine/mipssim.cc: Userprog/Syscall, the exception
--     handler on the scheduler, the address spaces and the paged memory. Syscall/ActiveThreads is about
--     `getID`, Starts about `Exec`, Joins about `Join`, Processes about how a process ends, Faults about
--     page faults.
--   * filesys/filehdr.cc, `FileHeader`: Filesys/FileHeader, on the free map and on a disk given as
--     the words of each sector. FileHeader/Allocation and Release are about taking and giving back
--     sectors, FileHeader/Sectors about finding the sector of a byte.
--   * filesys/synchdisk.cc, `SynchDisk`: Filesys/SynchDisk, on the simulated disk and its interrupts, with
--     SynchDisk/Runs about it and the image that the files use.
--   * filesys/openfile.cc, `OpenFile`: Filesys/OpenFile, which reads and writes bytes through a header.
--     OpenFile/Bytes is about its buffers, Read, Write and Fill are about its loops and the sectors
--     written in part, Update and ReadBack about the bytes of the file, and Layout about headers that
--     are files.
--   * userprog/bitmap.cc, `FetchFrom` and `WriteBack`: Filesys/MapFile, on open files.
--   * filesys/directory.cc, `Directory`: Filesys/Directory, the table of file names, with what a
--     name is found to mean in Directory/Names and Directory/Removal.
--     Its `FetchFrom` and `WriteBack` are in Filesys/DirectoryFile.
--   * filesys/filesys.cc, `FileSystem`: Filesys/FileSystem, the files by name, with the life of a file
--     in FileSystem/Create.
--   * machine/machine.h, machine.cc and translate.h: Machine/State, the registers, the memory and
--     the tables of the simulated machine.
--   * machine/translate.cc: Machine/Translate (`Translate`), Machine/Memory (`ReadMem`,
--     `WriteMem`).
--   * machine/mipssim.cc and mipssim.h: Machine/Instruction (`Decode` and its tables, with the
--     operations that come out of it in Instruction/Handled),
--     Machine/Mult (`Mult`), Machine/Alu (arithmetic on words), Machine/Outcome, LoadStore and
--     Execute (the cases of the `switch` in `OneInstruction`), Machine/Step (`OneInstruction` and
--     its delayed loads).
--   * machine/interrupt.cc: Machine/Interrupt, the simulation of interrupts on the sorted list of
--     those pending, with Interrupt/Due about the loop that runs the handlers and
--     Interrupt/Schedule about scheduling one.
--   * machine/disk.cc: Machine/Disk, the disk with its latency (Disk/Latency) and one request after
--     the other (Disk/Requests), which schedule interrupts.
--   * Prelude: the shared names, Boolean tests, list lemmas, the fallible computation
--     (`Option` with `do`), integers (Prelude/Int) and words of 32 bits (Prelude/Bits).
-- The files Tests have the concrete data on which the theorems are applied.
--
-- How the code is read: an `int` or a machine word is a number below 2 ^ 32, with the wrap-around
-- written out, except `List::size`, which is a signed integer, and times, which are ticks. An
-- operation whose ASSERT fails, or that reads outside an array, gives `none`. An array is a list
-- (in Userprog/Paging and Network a function of the index), an object that a method changes goes
-- in and comes out. A `for` loop is a recursion on its number of rounds. Some loops have fuel: the loop over the interrupts that are due, for which one round more than there are such
-- interrupts is enough; the loop of `Finish`, which has the number of active threads; the loop of
-- `Sleep`, for which one round is enough when a thread is ready, and none is when no interrupt can
-- make one ready; the destructor of an address space, which has the length of its page list; and
-- `Exec`, which reads as many characters of a name as its buffer has. `Write` has as many reads as the
-- host gives it, since it can read on for ever. What `ReadMem` of one byte does under a system call, the
-- interrupt handlers of the devices, the sockets and files of the host and the contents of memory that
-- `new` gives are parameters; so is the handler of exceptions in the theorems about the machine. The
-- byte order is that of a little-endian host, for which the Makefiles are set.
--
-- Not modelled: stacks, registers and the switch between threads, which are assembly; condition
-- variables, which are stubs in the code; the timer, whose intervals are random numbers; the copy of an
-- object file into a swap file; the other thread tests; the older copy of the system under nachos-3.4,
-- and the user programs.
pub mod Prelude
pub mod Threads
pub mod Machine
pub mod Network
pub mod Userprog
pub mod Filesys
