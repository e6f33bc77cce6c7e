-- ===== src/Lib.antt =====
-- A verification of GravTree, a key-value store whose nodes are table files.
--
-- The program. Writes go into a skip list (src/skiplist.cpp). A flush moves its entries into the
-- buffer of the root node; a full node pushes its buffer down to its children (`local_flush` of
-- src/flush.cpp, called by `do_flush` of src/tree.cpp), and a full leaf is split (`split_leaf`,
-- `insert_child`). Each node (src/node.cpp) has a sorted buffer, a Bloom filter (src/bloom.cpp) and a
-- file; the manifest (src/manifest.cpp) says which file is which node's, and is stored beside them.
-- A lookup asks the write buffer, then the nodes on the way of the key from the root down.
--
-- The files, with the code that each is about:
--   Prelude       shared names, Boolean tests, lists measured by native numbers
--   Key, Entry    include/gravtree/types.h: byte strings and their order, entries, `newest`, the
--                 entry of a key with the highest number, which is the abstract view of a buffer
--   Sort          `std::stable_sort` as the program uses it
--   Bytes, Bits   little-endian numbers, machine words and single bits
--   Bloom         src/bloom.cpp; Bloom/Hash its hash functions, Bloom/Sizing its constructor
--   Crc           `crc64` of src/node.cpp
--   Binary        `BinaryWriter` and `BinaryReader` of src/node.cpp
--   Node          src/node.cpp, the node in memory: `sort_buffer`, `get`, `build_bloom`
--   File          src/node.cpp, the node's file: `write_file`, `read_file`, `create`, `flush_to_disk`
--   Decimal, Disk decimal numbers, and the file system as a map from paths to bytes
--   Flush         src/flush.cpp; Flush/Local is `local_flush`
--   Manifest      src/manifest.cpp; Manifest/Text is the file, `save` and `load`
--   SkipList      src/skiplist.cpp: nodes at addresses with arrays of pointers
--   Tree          src/tree.cpp: Tree/State the members and what a method is, Tree/Write `insert`,
--                 `remove`, `flush`, `ensure_root` and the destructor, Tree/Read `get` and
--                 `range_scan`, Tree/Split `split_leaf` and `insert_child`, Tree/Push `do_flush`,
--                 Tree/Round the body of the flush thread, Tree/Open `open`
--   Tree/Cached   a tree whose nodes are in memory: its answers, and what the methods make of them
--   Tree/Fan      a node over leaves in memory, and what `do_flush` and the flush thread make of it
--   Tree/Frame    what the methods under `cache_mu_` leave alone
--   Tree/Threads  the flush thread, the callers and the destructor as step relations on one state;
--                 each place of `flush_thread_fn`, `signal_flush`, `wait_for_flush_complete`,
--                 `insert`, `remove`, `get` and `flush` between two accesses to what they share is a
--                 constructor of `FlusherPc` or `ClientPc`
--   Tests         runs at concrete inputs
--
-- The model. Numbers are natural numbers, with `% 2 ^ w` where the program wraps around. An exception
-- is a value: of a `Result` where a throw leaves nothing behind, of an `Outcome` in the tree, where
-- the members keep what was changed before it. A method of the tree is a function of its members. The
-- order in which an unordered map is walked is the order of a list. Floating-point numbers are an
-- interface, `Doubles`, and the numbers of the random generator a stream.
--
-- Fuel. `bound_loop` has one round more than there are entries. `walk` and `values_from` have as many
-- rounds as nodes were allocated, and a level has fewer nodes (`Shape.short`). `find_path` and `get`
-- take a number of rounds that must be greater than the number of levels below the root; `diverged`
-- is the outcome of a walk that had too few.
--
-- Threads. A critical section is one step, since the two mutexes of the data are held for all of it;
-- the condition variable is exact: a wait that finds its predicate false has a place of its own before
-- it sleeps, which is where a notification without the mutex gets lost.
--
-- Not modelled: spurious wakeups and memory orders weaker than the order of the steps, failures of the
-- file system, the freeing of memory, the tests and the benchmarks.
pub mod Prelude
pub mod Key
pub mod Entry
pub mod Sort
pub mod Result
pub mod Bytes
pub mod Binary
pub mod Bits
pub mod Bloom
pub mod Crc
pub mod Decimal
pub mod Disk
pub mod Node
pub mod File
pub mod Manifest
pub mod Flush
pub mod SkipList
pub mod Tree
pub mod Tests
