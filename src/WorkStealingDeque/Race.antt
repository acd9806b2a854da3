-- ===== src/WorkStealingDeque/Race.antt =====
-- The owner and the thieves of atomic_work_stealing_deque.hpp, interleaved one shared access at a
-- time (sequentially consistent). Positions are assumed to stay below 2^64.
pub mod Moves
pub mod Lost
pub mod Claims
