-- ===== src/Lib.antt =====
-- A model of parts of the simulator, with the properties that make them correct.
--
-- The parts. Cores time their instructions with the buffers of src/legos.h and predict branches with
-- the TAGE predictor of src/tage.cpp. Their memory accesses go to caches, which keep coherence with
-- the controllers of src/coherence_ctrls.cpp; a cache asks its parent for a line, and invalidates the
-- copies of its children. At the top stands the memory of src/mem_ctrls.cpp.
--
-- The files.
-- Base: tests, lists, words of 32 and 64 bits, loops and options.
-- Legos/ReorderBuffer and Legos/CycleQueue: the classes of src/legos.h of that name.
-- `Legos.DelayLine` holds what the two circular arrays have in common. Legos/WindowStructure: the
-- instruction window there; `View` gives what it holds at a cycle, whichever of its arrays keeps it.
-- Tage/BitSet: src/mybitset.h. Tage/Entry: the members and the constructor of `BranchPredictorTage`.
-- Tage/Hash: `GetTageIndex` and `GetTageTag`. Tage/Predictor: `predict` and what it calls, one
-- function each.
-- Mesi/States: src/memory_hierarchy.h and `CheckForMESIRace`. Mesi/Bottom: `MESIBottomCC`, over any
-- parent, and `SimpleMemory::access`. Mesi/Directory: the entry of `MESITopCC` and `sendInvalidates`.
-- Mesi/Top: the other operations of `MESITopCC`. Mesi/Level: `MESICC` over children with
-- `MESITerminalCC`, under a memory, with `Cache::access`.
-- Arrays/Lru, Arrays/Nru, Arrays/Lfu: `LRUReplPolicy`, `NRUReplPolicy` and `LFUReplPolicy` of
-- src/repl_policies.h. Arrays/SetAssoc: `SetAssocArray` of src/cache_arrays.cpp
-- over the first of them; a cache asks `lookup`, then `preinsert` and `postinsert`.
-- Arrays/ZArray: `ZArray` of src/cache_arrays.cpp, whose places are swapped at a replacement.
-- Barrier: the class of src/barrier.h, one function for each of its own.
-- Sched: `Scheduler` of src/scheduler.h and src/scheduler.cpp, which drives the barrier. `Queues` holds
-- what it uses of src/intrusive_list.h, `Policy` the choice of threads and contexts, `Operations` and
-- `Phases` its operations. Threads and contexts are tables by gid and cid in place of pointers; what
-- it calls of cores, barrier and kernel is a list of calls. Where an operation releases the lock to
-- wait, the part after the wait is a step of its own; `join` is `join_begin` and `join_end`. `Links` says what holds between steps, `Runs`
-- which steps there are and what their callers see to, and the other modules take one operation each.
-- Issue/Lsu: the loads, stores and fences of `IssueModel::bbl` of src/MeMo/IssueModel.cpp.
-- Events/PrioQueue: the class of src/prio_queue.h. `Bag` and `Least` relate it to a bag of elements
-- with their cycles.
-- Events/EventQueue: `EventQueue` and `AdaptiveEvent` of src/event_queue.h. Events/Multimap: the
-- `std::multimap` of both queues.
-- Tests: small runs.
--
-- The representation. An index of -1 is `none`. A failed assertion or a panic is `none`. Arithmetic
-- on `uint64_t` and `uint32_t` wraps (`add64`, `sub64`, `add32`, `sub32`). The controllers are
-- modelled for one line: the state of the line in each cache, and the entry of its directory. The
-- sharer set has one bit for each child. Loops are structural recursion, with the
-- counts of rounds that a loop of the source fixes: `len / 2` for the hashes, the number of tables
-- left for `AllocateNewEntries`, and the threads of the list that are left for the loops of the
-- barrier. The search of `dequeue` takes as fuel the blocks of the window and those before the first
-- far element, after which it has reached a populated block. A full window drains within two
-- arrays or up to its last far cycle, and `poisonRange` takes a new cycle in each round. A tick has
-- a round for each event of the queue. The walk of the Z array has as many rounds as it wants
-- candidates; should they not suffice, its own assertion on their number fails. Random numbers and the
-- hash of an address are parameters.
--
-- Not modelled: locks (the controllers' operations are atomic), caches of many lines and the filter
-- cache over them, the stages of a uop before it dispatches, prefetches, non-inclusive caches but
-- for the branches of `MESITopCC`, statistics, timing records and contention,
-- the process tree, the watchdog thread of the scheduler and its clean-up of killed processes,
-- virtualisation, configuration, and all input and output.
pub mod Base
pub mod Legos
pub mod Tage
pub mod Mesi
pub mod Arrays
pub mod Barrier
pub mod Sched
pub mod Issue
pub mod Events
pub mod Tests
