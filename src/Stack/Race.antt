-- ===== src/Stack/Race.antt =====
-- Threads on one `AtomicStack` of atomic_stack.hpp, interleaved one shared access at a time
-- (sequentially consistent).
pub mod Moves
pub mod Invariant
pub mod Frame
pub mod Commit
pub mod Linear
pub mod Dangling
