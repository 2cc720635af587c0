-- ===== src/Malloc.antt =====
-- The allocator of malloclab_code/mm.c: its memory (Memory), the fields of a block (Block), the
-- max-heap of free blocks (FreeTree), free and allocated blocks and their neighbours (Setup), the
-- places that realloc looks at (Adopt), what becomes of the flag for a moving tree (Flag), and the
-- routines of the package (Alloc).
pub mod Memory
pub mod Block
pub mod FreeTree
pub mod Setup
pub mod Adopt
pub mod Flag
pub mod Alloc
pub mod Tests
