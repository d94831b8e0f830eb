-- ===== src/Lib.antt =====
-- A model of the kernel Kaush-OS and the theorems that make its parts correct.
--
-- KList is the intrusive circular list of KaushOS/inc/list.h, which every other part of the kernel
-- keeps its queues in. The pointers of all elements are two functions from addresses, the macros
-- read and write them in the order of the statements, and KList.Refine and KList.Remove show that
-- they do to the memory what the operations of the same names do to a list. The parts that use the
-- macros then take a queue as the list of its elements.
--
-- Bitmap is KaushOS/lib/bitmap.c. A word of a bitmap is the function from its 32 places to its bits,
-- and the functions keep their names without the prefix Bm.
--
-- Mm.Pool is the kernel pool of KaushOS/kern/mm/pool.c: MmInitializePool, MmAllocatePoolWithTag and
-- MmFreePoolWithTag are initialize_pool, allocate_pool_with_tag and free_pool_with_tag. A pool is
-- the list of its block headers, with sizes and addresses on 32 bits. What MmFreePoolWithTag makes
-- of memory before which no header of the list lies is an argument.
--
-- Mm.Boot, Mm.Pages, Mm.Ptes and Mm.Temp are KaushOS/kern/mm/mm.c. Mm.Boot has the allocator and
-- MmInitPFNDataBase. Mm.Pages has the page frames and the page tables of the current address
-- space, up to MmVirtualAlloc, MmVirtualFree and MmMapSegment: the frames are their numbers, and
-- the entries of all tables are one array of 32-bit words, as the page table area shows them to
-- the code. Mm.Ptes has the runs of pages that a bitmap gives out, to the kernel
-- (MmAllocateSystemPtes) and to user mode, and Mm.Temp the window of temporary mappings. Mm.Pool
-- gets its memory from MmVirtualAlloc.
--
-- Ke.Dispatcher is the scheduler of KaushOS/kern/ke/scheduler.c: the threads with their states, a
-- ready queue for each priority, the current thread, and the lock of the dispatcher database
-- (locks.c). KiSelectNextThread, KiReadyThread, KiSwapThread, KiBlockThread and Schedule are the
-- functions of the same names without their prefix, each up to the switch to another stack.
-- Ke.Dispatcher.Finish has the end of Schedule, where it goes on with its thread: PsExitThread and
-- what the DPC queue does are arguments there, and the loop over the exited threads takes a round
-- for each of them and one more.
--
-- Ke.Wait is KaushOS/kern/ke/wait.c on top of it: mutants, semaphores, events and the objects that
-- only notify, the threads that wait for them, and the calls that make these ready again.
--
-- Ke.Locks is KaushOS/kern/ke/irql.c and locks.c: KeRaiseIrql and KeLowerIrql, and the spin locks at
-- any address. What the DPC queue does on the way below DISPATCH_LEVEL is an argument; Ke.Dpc says
-- what it is.
--
-- Ke.Dpc is KaushOS/kern/ke/dpc.c: the queues of deferred procedure calls. The routine that a DPC
-- calls is an argument. The loop of KiProcessDpcQueue takes fuel, since a routine may queue DPCs
-- again; with routines that do not, and that return at their IRQL, one round for each DPC and one
-- more are enough.
--
-- Ob.Object and Ob.Handle are KaushOS/kern/ob/ob.c and obhandle.c: the reference and handle counts
-- of objects, and the table of handles of a process. MmAllocateSystemPtes, which gives a table its
-- memory, is an argument: what the memory holds at first, or that there is none.
--
-- Ob.Names is KaushOS/kern/ob/obname.c and obdir.c, with the comparison of lib/unicode.c: paths, the
-- directories of the name space, mount points, and the way from a path to a device.
-- ObParseDirectoryPath, ObpLookupEntryDirectory, ObpInsertEntryDirectory, ObpLookupObjectByName,
-- ObGetDeviceObject and ObMountFileSystem are the functions of the same names without their prefix.
-- A lookup makes a round for each name of the path; with the length of the path and one more as
-- fuel it never runs out. Whether the pool has a buffer for a name is an argument.
--
-- Ob.Create is the rest of KaushOS/kern/ob/ob.c and obdir.c, with obsym.c and the other functions of
-- lib/unicode.c: ObCreateObject, ObCreateDirectoryObject, ObCreateSymbolicLink and Ob_init. Its
-- state joins those of Ob.Object, Ob.Handle and Ob.Names; what the pool gives, the OpenProcedure of
-- a type, and the content of a variable that is never set are arguments.
--
-- Strings is KaushOS/lib/string.c. A string that is read is a list of characters, and memory that is
-- written a function from addresses to bytes.
--
-- Printf is KaushOS/lib/stdio.c. What __vprintf passes to its output function is a list of
-- characters, and vsnprintf gives these to its helper. The arguments are a list that says what each
-- of them is. A call ends in a Result: an output, something that C leaves undefined, a step behind the
-- NUL of the format, or no more fuel. Printf.Format.Check checks a format against its arguments
-- without printing, as the description that __vprintf is compared with. The loop of __vprintf needs a round for each character of the format and one more, and the
-- loop over the digits of a value at most as many as the value.
--
-- A call of the kernel ends in an Outcome: a result, a bug check (KeBugCheck or a failed ASSERT of
-- the DEBUG build), or a spin lock that is never given back (Base.Outcome).
--
-- The loops over lists are structural recursion. LIST_FOREACH on the links alone may run for ever,
-- so it takes fuel, and a list of n elements needs n + 1.
--
-- Not modelled: the FatFs library, which is another project's, and the glue to it; the drivers, the
-- hardware layer, interrupts and the timer, which are ports, registers and instructions of the
-- processor; the I/O manager, the program loader, the system calls and the user mode library, which
-- pass requests on; and, of the parts above, the creation of processes and threads, the tables of
-- object types, the copying of an address space, the page fault handler, and the hexadecimal dump.
--
-- Interrupts come between two calls and not inside one: the code below runs at DISPATCH_LEVEL with
-- its lock held, and the kernel drives one processor.
pub mod Base
pub mod KList
pub mod Bitmap
pub mod Mm
pub mod Ke
pub mod Ob
pub mod Strings
pub mod Printf
