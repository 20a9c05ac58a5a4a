-- ===== src/Examples.antt =====
-- Tests of the definitions and of the theorems at concrete pools, geometries and batches.
mod Pools
mod Frames
mod Spans
mod Serving
mod Memory
mod Sorting
mod Service
mod Streams
mod Command
