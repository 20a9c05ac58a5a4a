-- ===== src/Lib.antt =====
-- The memory manager, simulator and execution model of pimkv, a study of where the blocks of a
-- paged KV cache lie in processing-in-memory DRAM.
--
-- The parts. A simulated serving engine (pimkv/sim.py) admits sequences, decodes tokens and asks an
-- allocator (pimkv/allocator.py) for blocks; the allocator keeps block tables and reference counts
-- and leaves the choice of a block to a placement policy. The geometry of the memory
-- (pimkv/config.py) gives the frame size and the address map (pimkv/addrmap.py), which takes a burst
-- of a block to its channel, bank, row and column; the execution model (pimkv/pimmodel.py) counts
-- the all-bank commands that the bursts of a sequence need.
--
-- Which file models which part:
--   Exec: methods that change an object and may raise, as functions from a state to a result and
--     the state that is left; what was written before a raise stays written. Dict: `dict`, as an
--     association list in insertion order. Prelude: tests, lists and counts over native numbers.
--   Alloc: `KVAllocator`, a function for each method, over a record of the hooks `_alloc_one`,
--     `_free_one` and `num_free`. Alloc/Invariant has the contract of a policy and the invariant of
--     the pool; Alloc/Primitives, Loops, Admission, Teardown, RoundTrip and
--     Conservation follow the methods.
--     The keys of `tables` are request ids, pinned prefixes (`-1000 - prefix_id` in the source) and
--     the scratch domain, as three constructors.
--   Alloc/Paged, Alloc/Random: `PagedFirstFit` and `RandomAlloc`. The generator of the latter is a
--     parameter whose draws are below their bound.
--   Pim: `PimAware`. A heap of `heapq` is a list in ascending order. Pim/Methods has the overridden
--     methods, Pim/Compaction `_owners` and `compact`, Pim/Valid the invariant of the frames,
--     Pim/Contract the contract of a policy, Pim/Planning and Pim/Admission the planned admission.
--     `compact_below` is a fraction of two numbers.
--   Contiguous: `ContiguousOracle`, with its extents (Contiguous/Extents), its invariant and its
--     methods. It overrides the reference counting, so it has an invariant of its own.
--   Geometry: `DramGeometry`, `ModelShape`, `shard_kv`, `derive_block_tokens`, and
--     `frame_blocks_for` of pimkv/run.py. Bits: shifts and masks. AddrMap: `AddrMap` for one burst;
--     the source maps arrays elementwise.
--   PimModel: `_coalesce_inorder`, the in-order `coalesce_channel_stream`, and the window mode of
--     `coalesce_channel` (PimModel/Window) and of the stream (PimModel/Window/Stream), over
--     `numpy.unique` as a parameter; the stream takes `argsort` and `unique` with indices as
--     parameters too, and PimModel/Window/Sorting states what is relied on of them; the sums of
--     `sequence_metrics` (PimModel/Sequence).
--   Factory: `make_allocator`, a name to an allocator.
--   Sim: the local functions of `simulate`, over a record of the operations it calls of an
--     allocator; Sim/Base fills it for the allocators that share `KVAllocator`'s methods. Sim/Setup
--     is the beginning of `simulate`, Sim/Admission `try_admit`, Sim/Speculation `spec_round`,
--     Sim/Loop the serving loop, Sim/Measure the burst addresses of `measure_seq` and the counts of
--     `placement_diagnostics`. Sim/Contract has what is relied on of an allocator and the invariant
--     of the batch; Sim/Preemption, Decoding, Oracle and Passes follow the code. The objects of
--     `active` are entries of a dictionary, written back where the source changes them; the field
--     `length` of a sequence is `tokens`; `committed` is a pair of sums, since its difference may be
--     negative; what the generators draw is an argument. Sim/Simulate is `simulate` as a whole,
--     and Sim/Service follows it under oracle admission: the gate, the arrivals, the pass, what is
--     finished, the loop, and the run from the start. Sim/Sampling is `measure_seq` with the rows of
--     a sampled step. Sim/Frames fills the record of operations for `PimAware` and
--     `ContiguousOracle`, and the contract for `PimAware` without compaction.
--   Workload: the five streams of pimkv/workload.py. What the generator draws is a function of the
--     index; a drawn float is a whole number of parts of a unit. Workload/Streams has what the
--     simulator needs of a stream.
--   Sweep: `expand` of pimkv/sweep.py, a configuration to its jobs. A dictionary of settings holds
--     strings and numbers; the entries of a cell are split by what `expand` does with them.
--     Sweep/Naming is the file name of `_run_cell`, by its parts.
--   Traces: the command stream and the addresses of pimkv/attacc.py, the bursts and the trace lines
--     of pimkv/ramulator.py by their fields, and its collection of statistics (Traces/Stats), with
--     whole numbers only.
--   Runner: `main` of pimkv/run.py, from the parsed arguments to the result of `simulate`, with
--     `auto_pool_blocks`. The products of floats that `int` cuts off are parameters. Runner/Cells is
--     `_run_cell` of pimkv/sweep.py up to the same point, translated on its own, with its headroom.
--   Examples: the definitions and theorems at concrete inputs.
--
-- Bounds and fuel. Numbers are natural numbers, and where the source subtracts below zero the tests
-- are written without subtraction. `make_room`, the loop of `ensure_free`, has as fuel the size of
-- the batch and one more: every turn takes a sequence out of the batch. `coalesce_windows` has the
-- number of bursts: every window takes at least one. `loop` takes the number of turns as an argument;
-- two more than the requests and their output tokens are enough under oracle admission.
--
-- Not modelled: the quotients M1 to M4 and those of the placement diagnostics (floating point), the
-- place of the sampling inside the serving loop (it reads the pool only, and is a function of its
-- own), the draws of numpy's generator, the runs of Ramulator and AttAcc and the files around them,
-- the parsing of arguments and the printed report, the process pool and the files of sweeps, plots
-- and scripts, and the copy of vLLM under third_party. The theorems on whole runs are about requests
-- that share no prefix, and about allocators other than the contiguous oracle.
pub mod Prelude
pub mod Dict
pub mod Exec
pub mod Alloc
pub mod Pim
pub mod Contiguous
pub mod Bits
pub mod Geometry
pub mod AddrMap
pub mod PimModel
pub mod Factory
pub mod Sim
pub mod Workload
pub mod Sweep
pub mod Traces
pub mod Runner
pub mod Examples
