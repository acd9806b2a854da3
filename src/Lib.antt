-- ===== src/Lib.antt =====
-- cpp-lockfree-structures: a header-only C++ library of lock-free containers, all in
-- include/lockfree. Each container is a class template of its own; they do not call one another.
-- What they share is the pattern: a loop of loads and one or two compare-exchanges, with a bounded
-- number of attempts in most of them. This library models the containers one by one.
--
-- Prelude (with Tests, Lists, Memory, Words, Bits, Digits) has the names that all modules use:
-- Boolean tests on the native numbers, lists with native lengths, arrays as functions, `size_t`
-- with its wrap-around, `x & (2^k - 1)`, and the other bit operations digit by digit. Circular has
-- what the three array containers share: a circular array whose window from `tail` to `head` holds
-- a list. BoundedQueue is the FIFO that the bounded queues implement. Outcomes says which compare-
-- exchanges of a call fail spuriously.
--
-- Stack: include/lockfree/atomic_stack.hpp, the Treiber stack. The heap is explicit: a function
--   from addresses to nodes, from which `pop` deletes; `pack`, `get_ptr` and `get_counter` are the
--   head word of a 48-bit pointer and a 16-bit counter; push, pop, top, empty, size and the
--   destructor are the methods. Stack/Layout says which list a heap holds, Stack/Refine and
--   Stack/Walk are about one thread; Stack/Race has the shared accesses of any number of threads as
--   a step relation (Moves), its invariant, the linearization and the dangling read.
-- RingBuffer: include/lockfree/atomic_ringbuffer.hpp, push_impl, pop_impl, front, back, empty, full,
--   size (RingBuffer/Counted), spsc_push and spsc_pop (RingBuffer/Spsc). `Size` is `2 ^ k`.
-- MpmcQueue: include/lockfree/atomic_mpmc_queue.hpp, Vyukov's bounded queue with a sequence number
--   in each slot: enqueue_impl, dequeue, front, empty, full, size.
-- WorkStealingDeque: include/lockfree/atomic_work_stealing_deque.hpp, the owner's push_bottom and
--   pop_bottom and the thieves' steal; WorkStealingDeque/Race interleaves one owner with any number
--   of thieves.
-- Queue: include/lockfree/atomic_queue.hpp, the Michael and Scott queue: enqueue, emplace, dequeue,
--   front, empty, size, with a tail pointer that may lag.
-- LinkedList: include/lockfree/atomic_linkedlist.hpp: search with its helping removal, insert,
--   emplace, remove, find, contains, empty, size and the iterator.
-- HashMap: include/lockfree/atomic_hashmap.hpp: both insert overloads, emplace, find, contains,
--   find_if, erase, empty, size, should_resize and the iterator. The hasher and the comparator are
--   parameters; the theorems name what they need of them.
-- RbTree: include/lockfree/atomic_rbtree.hpp: insert, emplace, find, contains, find_if, erase, empty,
--   size and insert_fixup. The comparator is a parameter. RbTree/Iterator is the iterator, which
--   RbTree/Visit follows in order; RbTree/Search and RbTree/Entries compare that with find.
-- Trie: include/lockfree/atomic_trie.hpp: insert, emplace, contains, erase with the cleanup of nodes,
--   starts_with, empty, size (Trie/Words), get_all_with_prefix and count_with_prefix (Trie/Listing),
--   longest_prefix (Trie/Longest), the iterator (Trie/Iterator, Trie/Visit). A character is a number; its
--   index is taken modulo 256. `std::sort` is an insertion sort.
--
-- Levels: the chains of the two skip lists, include/lockfree/atomic_skiplist.hpp and
--   include/lockfree/atomic_priority_queue.hpp. The nodes between the sentinels are one list, and a node
--   says on which levels it is linked; `descend` is the walk of find_predecessors down the levels,
--   which unlinks the marked nodes that it passes. Levels/Order has the invariants, Levels/Walk what one
--   level does, Levels/Place where a new node comes to stand.
-- SkipList: include/lockfree/atomic_skiplist.hpp: find, contains and find_if (SkipList/Seek and
--   SkipList/Search), both insert overloads and emplace (SkipList/Map), erase, empty, size and the
--   iterator. SkipList/Keys and SkipList/Ordered are the ordered map that it implements.
-- PriorityQueue: include/lockfree/atomic_priority_queue.hpp: both push overloads and emplace
--   (PriorityQueue/Push), pop, top, empty and size (PriorityQueue/Popped and PriorityQueue/Pop).
-- HashSet: include/lockfree/atomic_set.hpp, `AtomicSet`: all insert overloads, emplace, erase,
--   contains, find, empty, size, should_resize, the iterator and the loops over it. HashSet/Sim relates
--   it to HashMap, whose theorems HashSet/Ops and HashSet/Iterate use.
-- BloomFilter: include/lockfree/atomic_bloomfilter.hpp: get_hash_values, set_bit, is_bit_set, insert,
--   contains, clear, approximate_size, bits_set, empty, capacity. `Size` is `2 ^ k`.
--
-- Bounds and fuel: the loops with a bounded number of attempts recurse on the attempts that are
-- left, with the bounds of the code (1000; 64 in the MPMC queue; 100 in the hash map's first insert
-- overload). A theorem that such a loop succeeds says how many compare-exchanges may fail. The
-- unbounded `push` of the stack recurses on the list of outcomes; its `pop` has 500 attempts, of which
-- the first succeeds without interference, as its compare-exchange is a strong one, so that only that
-- attempt is modelled there. Walks along pointers take fuel, and a theorem says that the number of nodes
-- is enough; the loops over a set give `none` where they run out of it or dereference an iterator
-- without a node. `size_t` and `uint64_t` have their wrap-around at 2 ^ 64 written out, but for the
-- compare-exchanges of the deque that raise `top_`, which is less than the 64-bit `bottom_` there.
--
-- Not modelled: memory orders weaker than sequential consistency; exceptions and failing
-- allocation; the pauses and yields between attempts; floating-point statistics; the destructors,
-- but for the stack's; the programs under test, examples and benchmark.
-- The operations of RingBuffer, MpmcQueue, Queue, LinkedList, HashMap, RbTree, Trie, SkipList,
-- PriorityQueue, HashSet and BloomFilter are run one at a time; what another thread may do in between
-- is a spurious failure of a compare-exchange, or written out in the theorem. In the two skip lists the
-- helping compare-exchanges that unlink a marked node are tried until they succeed, and those that link
-- a new node above level 0 succeed within their attempts.
pub mod Prelude
pub mod Circular
pub mod RingBuffer
pub mod BoundedQueue
pub mod MpmcQueue
pub mod WorkStealingDeque
pub mod SkipList
pub mod Stack
pub mod RbTree
pub mod LinkedList
pub mod HashMap
pub mod HashSet
pub mod Outcomes
pub mod Queue
pub mod Trie
pub mod Levels
pub mod PriorityQueue
pub mod BloomFilter
