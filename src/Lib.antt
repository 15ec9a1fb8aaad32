-- ===== src/Lib.antt =====
-- A model of k4c, a C library of allocators, containers and buffers, with the theorems that make its
-- parts correct.
--
-- The program. Code that needs memory takes an allocator: an operation table with a context, or NULL
-- for libc (include/k4c/allocators/allocator.h). The helpers of lib/mem/allocator.c call through the
-- table. The containers of lib/datastruct own a struct and a block that they get in this way, but
-- for the linked lists, which run through nodes of the caller; the cursor of lib/buffer reads a block
-- that its caller owns, and the reader of lib/io fills one from a source and hands out cursors. Errors are values of `k4c_status`, and an
-- assertion that fails ends the process.
--
-- The files.
-- - Base and its children: the library names, lists as C arrays, and runs. A `Run` is a result, a
--   failed assertion (`panic`) or a loop that was given too few rounds (`out_of_fuel`); a `Prog`
--   also passes the state of the machine along.
-- - Status: `k4c_status` of include/k4c/error.h.
-- - Size: lib/mem/size.h, for a `size_t` of 64 bits. Sums and products wrap as in C.
-- - Platform: the sizes of the structs where the code takes `sizeof`.
-- - Allocator: lib/mem/allocator.c. `malloc`, `realloc` and `free` are parameters, in the record
--   `Libc`. Allocator/Lawful is the contract that the containers rely on: calls return, and an
--   allocator's count of live blocks moves with the answers.
-- - TestAllocator: lib/mem/test_allocator.c, whose counters are a part of the machine's state.
--   TestAllocator/Requests has the requests that its operations serve,
--   TestAllocator/Laws the contract.
-- - Iterator: lib/datastruct/iterator.c.
-- - Vector: lib/datastruct/vector.c. A vector's buffer is its address and the list of its cells,
--   `capacity` of them; a pointer to an element is the element. A resized block keeps its cells and
--   has arbitrary new ones (the parameter `junk`). Vector/Search has the binary searches, and
--   Vector/Collect the vectors made from an iterator.
-- - Deque: lib/datastruct/deque.c, in the same way.
-- - Links: a pointer field of all nodes, as a function of the address, and lists without repetition.
-- - LinkedList: lib/datastruct/linked_list.c. LinkedList/Chain says which nodes a list holds, Add and
--   Remove what the operations make of them.
-- - DoublyLinkedList: lib/datastruct/doubly_linked_list.c. DoublyLinkedList/Segment says which nodes
--   a list holds in both directions; Relink has the two assignments by which Insert, Remove and Pop
--   join the parts of a list.
-- - BinaryHeap: lib/datastruct/binary_heap.c, over the vector. BinaryHeap/SiftUp and SiftDown have
--   the two loops on the list of the cells, Push and Pop the operations.
-- - Cursor: lib/buffer/cursor.c.
-- - Reader: lib/io/reader/reader.c, over a source whose `read` function is a parameter. Reader/Fill
--   has the law on a source, that it delivers a stream of bytes; Take, Array and Delimiter say what
--   the operations take from the stream, Gather and Round have their loops.
-- - Stdio: lib/io/common.h, and the parameter for what the code takes from the C library.
-- - FileReader: lib/io/reader/file_reader.c, a source over an open file.
-- - File: lib/io/file.c. File/Environment has what reading takes from the C library and the allocator.
-- - Heap: lib/mem/general_heap.c. The list of the block headers stands for the intrusive list that
--   links them. Heap/Resize has the reallocation, Heap/Owner creates and destroys a heap.
-- - Arena: lib/mem/arena.c. The headers are a function of their address.
-- - Hash: the hash function of lib/hash/fnv.h. Hash/Common is the chained table of lib/hash/common.c,
--   in which a chain is the list of its nodes; Hash/Common/Table says when it acts as a finite map,
--   Update and Rehash what the operations do to every lookup, Order adds the size and the load.
--   Hash/Keys has the law on keys: an equality that goes together with the hash of their bytes.
--   Hash/Map is lib/hash/hashmap.c and Hash/Set is lib/hash/hashset.c; `value_at` and `elem_at` are
--   their abstract views, which `get` returns. The contents of a key, a value or an element are
--   abstract, and `bytes` reads those of a key.
--
-- Operations keep the names of the C functions without their prefix (`k4c_vector_push` is
-- `Vector.push`). A function that changes its argument returns the changed struct. The assertions
-- that a pointer is not NULL are not modelled, since the arguments are values.
--
-- Fuel. The growth of a vector gets one round more than the required capacity, since each round
-- raises the capacity; that of a deque gets 65, since a capacity doubles at most 64 times; a search
-- gets one more than the size, and the cursor's loop one more than its length; the capacity of a
-- hash table gets 65 rounds, since it doubles; sifting gets a round for each index. That these are
-- enough is a part of the theorems, which say that the run returns. Collecting from an iterator is
-- given its rounds, and its theorem asks for more of them than there are items. The loops of the
-- reader get one round more than the count, or the capacity, since each round reads a byte.
--
-- Not modelled: the allocator views of the arena and the heap; the string of
-- lib/datastruct/string.c; the swap of lib/mem/utils.c. lib/logging.c is calls of the operating
-- system, and lib/testing.c runs the tests.
pub mod Base
pub mod Status
pub mod Reader
pub mod Stdio
pub mod Links
pub mod LinkedList
pub mod DoublyLinkedList
pub mod FileReader
pub mod File
pub mod Size
pub mod Platform
pub mod Allocator
pub mod TestAllocator
pub mod Iterator
pub mod Vector
pub mod Deque
pub mod Cursor
pub mod Heap
pub mod Arena
pub mod Hash
pub mod BinaryHeap
