-- ===== src/Lib.antt =====
-- femu_on_virt: a virtual NVMe device in the Linux kernel (nvmevirt) with the flash translation
-- layer of FEMU behind it.
--
-- The parts. A PCI device with a memory-mapped BAR (pci.c, main.c) receives the host's doorbells. A
-- dispatcher takes admin commands (admin.c) and IO commands (io.c) from the submission queues; an IO
-- command asks the flash translation layer (ftl.c) for its latency, and a worker thread completes
-- it when that time has come.
--
-- The files. Base and its children hold what the models share: tests on native numbers, 32-bit and
-- 64-bit machine words, lists, and `Run`, the result of code that may fault or run out of fuel.
-- Ftl models ftl.c and ftl.h. Its code stands in
--   Ftl/Types (the structures), Ftl/Victims (the callbacks and calls of pqueue.c), Ftl/Params
--   (ssd_init_params, thresholds), Ftl/Table (maptbl, rmap, ppa2pgidx, get_*), Ftl/Nand
--   (ssd_advance_status), Ftl/Lines (write pointer, free lines), Ftl/Init (ssd_init*), Ftl/Pages
--   (mark_*), Ftl/Gc (do_gc and below) and Ftl/Io (ssd_read, ssd_write);
-- and what is proved about it in
--   Ftl/Geometry (addresses), Ftl/Pointer, Ftl/Advance and Ftl/Space (the write pointer), Ftl/Cells,
--   Ftl/Mapping, Ftl/Assign, Ftl/Invalidate, Ftl/Drop and Ftl/Write (the mapping under writes),
--   Ftl/Collect, Ftl/Move, Ftl/Clean, Ftl/Erase, Ftl/Reclaim, Ftl/Reserve and Ftl/Collector
--   (garbage collection), Ftl/Fresh (ssd_init), Ftl/Latency and Ftl/Read (timing and reads),
--   Ftl/Request (whole writes). Ftl/Sample is a concrete queue; Ftl/Examples and Ftl/Runs hold the
--   runs.
--
-- Dispatch models io.c, over the structures of nvmev.h (Dispatch/Types): Dispatch/Prp is
-- __do_perform_io, Dispatch/Completions is __fill_cq_result and nvmev_proc_io_cq, Dispatch/Table is the
-- table of requests in flight (NVMEV_IO_PROC_INIT, __enqueue_io_req, __reclaim_completed_reqs),
-- Dispatch/Units the simple timing model (__schedule_io_units, __nvmev_proc_flush), Dispatch/Commands
-- the dispatcher (__nvmev_proc_io, nvmev_proc_io_sq), which calls the flash translation layer, and
-- Dispatch/Worker a round of nvmev_kthread_io. Dispatch/Transfer, Dispatch/Ring, Dispatch/Doorbell,
-- Dispatch/Release, Dispatch/Chain and Dispatch/Insert hold what is proved about them, and
-- Dispatch/Examples and Dispatch/Runs the runs. Dispatch/Lists is the invariant of a table's two
-- lists, over the chains of Dispatch/Links; Dispatch/Place and Dispatch/Enqueue, Dispatch/Freed and
-- Dispatch/Reclaim are about the dispatcher's use of a table. For a worker, Dispatch/Served reads
-- off the list of requests what a round has to do, Dispatch/Steps, Dispatch/Rounds and
-- Dispatch/Serves are about the steps of the code, and Dispatch/Service about the whole round.
-- Dispatch/Parted and Dispatch/Reach put the rounds of all three in any order.
--
-- Host is the other end of a completion ring: Host/Reader is a host that reads by the phase bit, as the
-- NVMe specification has it, and Host/Fifo shows that a ring with its reader is a bounded queue.
-- Dispatch/Delivery uses it for the rings of io.c and Admin/Delivery for that of admin.c.
--
-- Admin models admin.c: Admin/Types (the structures, the completion entry), Admin/Queues (creation and
-- deletion of queues), Admin/Identify (identify, log page, features) and Admin/Requests
-- (__nvmev_proc_admin_req, nvmev_proc_admin_sq). Admin/Answers and Admin/Progress are about one command,
-- Admin/Delivery and Admin/Kept about a request, Admin/Batch about a doorbell, Admin/Silent about
-- requests without an answer, Admin/Features and Admin/Roundtrip about the commands of these names.
--
-- Pci models pci.c: Pci/Bars is nvmev_proc_bars, which makes the admin queue that Admin works on, and
-- Pci/Config is nvmev_pci_read and nvmev_pci_write. Pci/Ready and Pci/Machine are the controller as a state
-- machine, Pci/Faults the NULL admin queue, Pci/Space the configuration space.
--
-- Driver models main.c: Driver/Config (__validate_configs, __load_configs), Driver/Start (NVMeV_init, which
-- calls ssd_init), Driver/Doorbells (nvmev_proc_dbs, which calls Admin and Dispatch, and a round of
-- nvmev_dispatcher, which calls Pci/Bars before it), and Driver/Files (the files under /proc).
-- Driver/Loaded and Driver/Started are about the start; the doorbells are modelled, without a theorem
-- of their own. Admin/Examples, Pci/Examples and Driver/Examples hold the runs.
--
-- How code and model correspond. A C function is the definition of the same name; a loop is a
-- recursion on the rounds that are left, and a part of a function that has its own lemmas is a
-- definition of its own. The global `struct ssd` is the state `Ssd`, passed explicitly. Arrays are
-- functions of the index, pointers to lines are indices, tail queues are lists of indices, an `int`
-- is its 32-bit pattern and wraps as the kernel's compiler flags make it wrap. Reading the clock
-- takes the next value of a stream in the state.
--
-- Bounds and fuel. The invariant is for 1 to 128 channels, what the 7-bit field of an address can
-- name. The loop of ssd_write on should_gc_high runs on fuel; below the threshold one unit is
-- enough. A transfer of __do_perform_io needs one unit for each byte and one more, and the worker
-- gives it as much. The loops along the chains of Dispatch/Table and Dispatch/Worker run on fuel,
-- one unit for each request in flight and one more; 16384, the entries of a table, is always enough,
-- since one entry stays free. The dispatcher and the workers run at the same time in the module; the
-- model takes each of their rounds as one step. The loop of nvmev_proc_io_cq needs one unit for each
-- entry of the queue and one more. The loop of __schedule_io_units runs on fuel too; all others are
-- counted.
--
-- The worker reads a command again when it makes the copies: what it then finds in the queue, and the
-- list of addresses behind prp2, are the argument `source`.
--
-- A queue that lies in pages of the host is a function of the entry, with the pages' contents when the
-- queue was set up; the host writes to it later by a change of that function. A write behind an array is
-- a fault, as the dereference of NULL is. Numbers that sscanf and simple_strtol find in a text are
-- arguments.
--
-- Not modelled: libpqueue (pqueue.c) is a parameter, `Pqueue`, with its documented behaviour as the
-- laws `IsPqueue`; queue.h is a header of list macros; femu/ is not compiled; messages and asserts,
-- which only print, are left out, and so are failed allocations. Of pci.c the initial contents of the
-- configuration space, the creation of the bus and the interrupts are left out, of main.c the threads,
-- the creation of the /proc entries, the mapping of the storage and NVMeV_exit: they call the kernel.
-- The memory map of the kernel (e820__mapped_any) is an argument of Driver/Config. The clocks, the host's PRP lists and the locks are outside of the model: their values are
-- arguments, and a lock is free.
pub mod Base
pub mod Ftl
pub mod Admin
pub mod Dispatch
pub mod Driver
pub mod Host
pub mod Pci
