-- ===== src/Examples.antt =====
-- Runs of the code at concrete inputs, and a small allocator to run it on.
mod Allocator
mod Tables
mod Windows
mod Locks
mod Messages
mod Arenas
mod Calls
mod Scans
mod Formats
mod Streams
mod Inputs
mod Copies
mod Paths
