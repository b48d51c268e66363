-- ===== src/Lib.antt =====
-- The core of the Amiga demo framework: the kernel and the drivers under system/, and parts of the
-- libraries under lib/.
--
-- The parts and how they interact. Interrupt handlers and tasks share data. Tasks guard it by
-- `IntrDisable` and `IntrEnable`, interrupt handlers by `SetIPL`. The scheduler runs the ready task
-- of the highest priority; tasks sleep in `TaskWait` for the events that interrupt handlers and
-- other tasks notify. Drivers move bytes between hardware and rings in memory: the keyboard handler
-- pushes events on the event queue, which a task pops, and the serial handlers serve two rings.
--
-- - Cpu: system/kernel/interrupt.c (`IntrEnable`, `IntrDisable`) and `SetIPL`. `critical` and
--   `critical_isr` put a body between the calls, as the drivers do.
-- - Events: system/drivers/event.c. Events/Fifo has the abstract queue.
-- - Serial: system/drivers/serial.c. Writes to registers and wake-ups of tasks are a trace of
--   effects in the port; what `serdatr` reads is a parameter.
-- - Interrupts: system/kernel/interrupt.c. A chain is the list of its servers with the bits of its
--   flag in INTENA and INTREQ; the table of vectors is a function.
-- - Timers: system/drivers/cia-timer.c. Acquiring a timer adds its server to a chain of Interrupts.
--   Timers/Waiting has the set-up, the waits and the interrupt, over Keyboard (the CIA masks) and Tasks.
-- - Memory: system/kernel/memory.c. Memory/Bt has the boundary tags, Memory the calls on one arena,
--   Memory/Heap those over all arenas; `multitask` says whether MULTITASK is
--   defined. Memory/Layout says when an arena is in order: as a list of
--   blocks before an address, the nearest first, and a list of those from it on.
-- - MemFiles: system/drivers/memfile.c. A file is its list of blocks and an offset, over a memory
--   that is a function.
-- - Floppy: system/drivers/floppy.c. The bytes written to the port of the drive are a trace; the words
--   that the disk DMA delivers for a track are a parameter.
-- - FileSys: system/drivers/filesys.c, over the interface of a device in FileSys/Disk, which
--   FileSys/OnFloppy fills with the floppy driver.
-- - Keyboard: system/drivers/keyboard.c and system/drivers/cia-icr.c. Keyboard/Map is `KeyMap`.
-- - Mouse: system/drivers/mouse.c. The two axes are handled alike; events go to the queue of Events.
-- - Areas: lib/libgfx/ClipArea.c and lib/libgfx/InsideArea.c, one axis at a time.
-- - Sort: `InsertSort` of lib/libmisc/sort.c. A run of the array is a list.
-- - Tasks: system/kernel/task.c, include/system/task.h, and the parts of
--   system/kernel/intr-entry.S that choose who runs. Tasks are numbered, the memory of their records
--   is a function, and the two tail queues are lists. A call either returns, or has switched to
--   another task, in which case the rest of the call is left to when its task runs again, or crashes.
--   A `TAILQ_REMOVE` of a task that is on no list leaves what the parameter `absent` says.
-- - Mutexes: system/kernel/mutex.c, over Tasks. The rest of a `MutexLock` that has to wait is a call
--   of its own, `lock_again`. `run_calls` runs any sequence of calls of the mutexes and of Tasks.
-- - Prelude: Boolean tests, bit masks, options and rings that the parts share.
--
-- Bounds. Registers and fields keep their width: a short is below 2 ^ 15 where it counts
-- upwards, bytes are below 256, and masks are written out. The theorems on nesting ask for room
-- for one more level below 2 ^ 15. The loops of Floppy and FileSys run on fuel, and the theorems
-- show that what they are given is enough; the other loops run over a list or a count.
--
-- Not modelled: stack frames and task creation, printing, memory protection and traps, the AmigaOS
-- start-up, the set-up of the disk DMA, the other drawing code, the other sorts, effects, tools, and
-- third-party code (C library, music replay, decompressors). Calls of the drivers and of the
-- allocator that hold a mutex are one step each.
pub mod Prelude
pub mod Cpu
pub mod Events
pub mod Serial
pub mod Interrupts
pub mod Timers
pub mod Memory
pub mod MemFiles
pub mod Floppy
pub mod FileSys
pub mod Keyboard
pub mod Mouse
pub mod Tasks
pub mod Mutexes
pub mod Areas
pub mod Sort
