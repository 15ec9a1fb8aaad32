-- ===== src/Platform.antt =====
-- The sizes of the structs and the alignment on the platform of the model: 64-bit `size_t` and
-- pointers, and a `max_align_t` of 16 bytes.
use k4c.Base.{ℕ}

-- K4C_MEMORY_ALIGN, in include/k4c/allocators/utils.h
abbrev pub memory_align : ℕ
memory_align = 16

-- size_t, three size_t and two pointers, and so on, as the compiler lays them out
abbrev pub sizeof_vector : ℕ
sizeof_vector = 56

abbrev pub sizeof_deque : ℕ
sizeof_deque = 72

-- a size_t, two pointers and a bool
abbrev pub sizeof_heap_block : ℕ
sizeof_heap_block = 32

abbrev pub sizeof_arena_alloc_header : ℕ
sizeof_arena_alloc_header = 8

abbrev pub sizeof_arena : ℕ
sizeof_arena = 24

abbrev pub sizeof_bucket : ℕ
sizeof_bucket = 8

-- a pointer, a size_t and a max_align_t of 32 bytes, of which the data of an entry comes behind
abbrev pub sizeof_hash_entry : ℕ
sizeof_hash_entry = 48

abbrev pub sizeof_hashmap : ℕ
sizeof_hashmap = 72

abbrev pub sizeof_hashset : ℕ
sizeof_hashset = 64

abbrev pub sizeof_binary_heap : ℕ
sizeof_binary_heap = 40

-- a size_t, two pointers and an allocator
abbrev pub sizeof_linked_list : ℕ
sizeof_linked_list = 48

-- two pointers and a size_t
abbrev pub sizeof_heap : ℕ
sizeof_heap = 24
