-- ===== src/Eval.antt =====
-- The threads of c/eval.c: the run-time system of MicroHs as this repository patched it. The parent of
-- the modules on its records and its queues, on MVars, on the scheduler, on the loop start_exec, on the
-- bitmap of free cells and on stable pointers.
pub mod Threads
pub mod Queue
pub mod Run
pub mod Mvar
pub mod Moves
pub mod Schedule
pub mod Exec
pub mod FreeMap
pub mod Stable
