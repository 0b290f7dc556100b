-- ===== src/Lib.antt =====
-- Graphene: models and proofs of parts of the library OS and of the platform adaptation layer.
--
-- The LibOS keeps, for each process, a table of the virtual memory areas that the application and
-- the LibOS itself have mapped (LibOS/shim/src/bookkeep/shim_vma.c). System calls such as mmap,
-- munmap, mprotect and brk first update this table and then ask the PAL for the memory.
--
-- Base holds the shared names, single bits of words, and the error numbers.
-- Vma models LibOS/shim/src/bookkeep/shim_vma.c:
--   Vma/Types: `struct shim_vma`, its flags, `split_vma`, `vma_update_prot`, reference counts.
--   Vma/Tree: `vma_tree` as the sequence of its nodes, with what `avl_tree_insert`,
--     `avl_tree_delete` and `_lookup_vma` do to that sequence (a cursor is a pair of lists).
--   Vma/View, Vma/Free, Vma/Holders: the abstract views, as a partial function on addresses, as
--     free ranges, and as the number of areas that hold a handle.
--   Vma/Remove: `_vma_bkeep_remove`; Vma/Change: `_vma_bkeep_change`.
--   Vma/Gap: the downward search of `bkeep_mmap_any_in_range`; Vma/Space: the rest of that call.
--   Vma/Alloc: `alloc_vma` and `_vma_malloc`; Vma/Calls: `bkeep_munmap`, `bkeep_remove_tmp_vma`,
--     `bkeep_mmap_fixed`, `bkeep_mprotect` and `bkeep_mmap_any_aslr`.
--   Vma/Query: the read-only calls, `lookup_vma`, `is_in_adjacent_user_vmas`, `dump_all_vmas`,
--     `_traverse_vmas_in_range` and `madvise_dontneed_range`.
-- Avl models Pal/lib/avl_tree.c, on which `vma_tree` stands: insertion and deletion with their
--   rotations, the swap of a node, the lower bound, the ends, the neighbours of a node and the debug
--   check. A tree is a value; the links to the parents are a list of frames. Avl/Order, Avl/Insert,
--   Avl/Delete, Avl/Search, Avl/Areas and Avl/Walk are about the sequence of nodes and lead to
--   Vma/Tree; Avl/Rotate, Avl/Balanced, Avl/Shrink and Avl/Debug are about the heights.
-- Brk models `shim_do_brk` of LibOS/shim/src/sys/shim_brk.c as a client of `bkeep_mmap_fixed` from
--   Vma/Calls. Whether the PAL gives memory and the limit on data are arguments. Brk/Bounds is about
--   the break, for pages of 4096 bytes, Brk/Grow about what the area bookkeeping then shows.
-- Handles models the table of descriptors of LibOS/shim/src/bookkeep/shim_handle.c: lookups,
--   `detach_fd_handle`, `set_new_fd_handle` and its two siblings, the growth of the array. A handle
--   is its address, and its references are counted by a function on addresses. Handles/Table says
--   when a table is well formed, Handles/Detach, Handles/Grow, Handles/Fill and Handles/Install
--   follow the operations, Handles/Wrap is about the 16 bits of the size. The doubling of the size
--   has fuel, and one round more than the descriptor's number is enough.
--   Handles/Walk is `walk_handle_map` with the callback of LibOS/shim/src/sys/shim_exec.c, and
--   Handles/Stray follows it out of the array; its fuel is the 2 ^ 16 numbers of a descriptor.
-- Heap models Pal/src/host/Linux-SGX/enclave_pages.c, the pages of the enclave heap: Heap holds
--   `get_enclave_pages` and what it calls, Heap/Free `free_enclave_pages`. The list of areas is a
--   list in descending order, and a place in it a pair of lists; the lock is a flag, so that a call
--   that finds it taken is an outcome of its own. Heap/View says who owns an address and how many
--   bytes the areas have; Heap/Cursor, Heap/Merge, Heap/Create, Heap/Grant, Heap/Place and Heap/Slot
--   follow a request, Heap/Release and Heap/Return what is given back; Heap/Wild and Heap/Faults have
--   the paths that forget something. Pointers wrap at 2 ^ 64.
-- Path models Pal/lib/graphene/path.c: `find_next_slash`, `find_prev_slash_offset`,
--   `get_norm_path` and `get_base_name`. Path/Spec says what a path means lexically;
--   Path/Scan, Path/Holds and Path/Refine lead from the loop to that meaning; Path/Room,
--   Path/Total and Path/Bounds count the room in the buffer; Path/Climb, Path/Reread and
--   Path/Idempotent read an answer again; Path/BaseName is about the last name.
--   The loops have fuel for one round more than the path has bytes, which is enough: a round
--   reads at least one byte or is the last.
--
-- Addresses, offsets, flags and protections are the bit patterns of the C integers, as natural
-- numbers. `begin + length` wraps at 2 ^ 64; the theorems about calls ask for ranges that do not
-- wrap. A set of flags is tested bit by bit. Loops over the tree are recursion on the sequence of
-- areas, so no fuel is needed; the retry loop of `dump_all_vmas` has fuel, and two rounds are
-- enough while nobody changes the table. Of the locks only that of the enclave heap is modelled:
-- each other function runs from lock to unlock as one step. Failed assertions are hypotheses of the
-- theorems, but for those that can fail, which are outcomes of the model: one of
-- `_vma_bkeep_change`, those of the enclave heap, and one of `__set_new_fd_handle`. The pool of
-- areas and the PAL enter as arguments that say whether an allocation succeeds; the temporary area
-- on the stack of `alloc_vma` and its migration do not change the sequence and are left out.
--
-- Not modelled: initialisation and checkpoints of the modelled parts, which copy raw memory; the
-- cache of free areas per thread; the destruction of handles, which calls the file systems; and the
-- rest of the LibOS and of the PAL (file systems, signals, threads, IPC, sockets, ELF loading,
-- protected files), which mostly calls the host.
pub mod Base
pub mod Vma
pub mod Path
pub mod Avl
pub mod Heap
pub mod Handles
pub mod Brk
