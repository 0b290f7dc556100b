-- ===== src/Heap.antt =====
-- Pal/src/host/Linux-SGX/enclave_pages.c: the used areas of the enclave heap, in descending order.
-- A place in the list is a cursor: the areas above it, the lowest first, and those below it.
pub mod Free
pub mod View
pub mod Merge
pub mod Cursor
pub mod Create
pub mod Grant
pub mod Place
pub mod Slot
pub mod Release
pub mod Return
pub mod Wild
pub mod Faults
mod Tests
use mathlib.Core.Bool.{xor}
use graphene.Base.{
  ℕ, suc, ◌+◌, ◌-◌, ◌/◌, ◌%◌, ◌^◌, Bool, true, false, not, ◌&&◌, ◌||◌, Option, none, some, List, [],
  ◌∷◌, ltb, leb, ◌==◌, if◌then◌else◌, min, max,
}

-- `struct heap_vma`
pub record HeapVma : Type 0 where
  pub bottom : ℕ
  pub top : ℕ
  pub is_pal_internal : Bool

-- What does not change after the start: `g_page_size`, `g_heap_bottom`, `g_heap_top`,
-- `g_pal_internal_mem_size` and `MAX_HEAP_VMAS`.
pub record Limits : Type 0 where
  pub page_size : ℕ
  pub heap_bottom : ℕ
  pub heap_top : ℕ
  pub internal_size : ℕ
  pub max_vmas : ℕ

-- The other globals. Of the pool only the number of objects in use is kept: an object is free
-- exactly if it is not in the list, and `g_free_vma` only says which one is taken next.
pub record Heap : Type 0 where
  pub vmas : List HeapVma
  pub vma_num : ℕ
  pub allocated_pages : ℕ
  pub internal_used : ℕ
  pub locked : Bool

-- What a call that answers with an address does: it returns NULL or the address, ends the enclave (by an
-- assertion or `ocall_exit`), or waits forever for a lock that nobody releases.
pub data Reply : Type 0 where
  null : Reply
  pages : ℕ → Reply
  exits blocks : Reply

-- Addition and subtraction of `uintptr_t`.
abbrev pub add_ptr : ℕ → ℕ → ℕ
add_ptr a b = (a + b) % 2 ^ 64

abbrev pub sub_ptr : ℕ → ℕ → ℕ
sub_ptr a b = (a + 2 ^ 64 - b) % 2 ^ 64

abbrev pub align_down : ℕ → ℕ → ℕ
align_down val alignment = val - val % alignment

abbrev pub align_up : ℕ → ℕ → ℕ
align_up val alignment = align_down (add_ptr val (alignment - 1)) alignment

abbrev pub access_ok : ℕ → ℕ → Bool
access_ok addr size = leb size (add_ptr addr size)

-- `__alloc_vma` and `__free_vma`
unfoldable pub alloc_vma : Limits → ℕ → Option ℕ
alloc_vma l num = if ltb num l.max_vmas then some (suc num) else none

abbrev pub free_vma : ℕ → ℕ
free_vma num = num - 1

-- The two checks of `__create_vma_and_merge`: no overlap with an area of the other type.
unfoldable pub check_above : Bool → ℕ → List HeapVma → Bool
check_above internal end [] = true
check_above internal end (v ∷ above) =
    let rest = check_above internal end above in
    if ltb v.bottom end then not (xor v.is_pal_internal internal) && rest else true

unfoldable pub check_below : Bool → ℕ → List HeapVma → Bool
check_below internal addr [] = true
check_below internal addr (v ∷ below) =
    let rest = check_below internal addr below in
    if ltb addr v.top then not (xor v.is_pal_internal internal) && rest else true

-- The new area, the bytes of the areas that it has absorbed, the objects in use, and the areas
-- that are left on one side.
pub record Merging : Type 0 where
  pub vma : HeapVma
  pub freed : ℕ
  pub num : ℕ
  pub rest : List HeapVma

abbrev pub absorb : HeapVma → HeapVma → HeapVma
absorb old v = record v { bottom = min old.bottom v.bottom; top = max old.top v.top }

-- The two merging loops.
unfoldable pub merge_above : HeapVma → ℕ → ℕ → List HeapVma → Merging
merge_above v freed num [] = record { vma = v; freed = freed; num = num; rest = [] }
merge_above v freed num (w ∷ above) =
    let merged = merge_above (absorb w v) (freed + (w.top - w.bottom)) (free_vma num) above in
    if leb w.bottom v.top && not (xor w.is_pal_internal v.is_pal_internal)
    then merged
    else record { vma = v; freed = freed; num = num; rest = w ∷ above }

unfoldable pub merge_below : HeapVma → ℕ → ℕ → List HeapVma → Merging
merge_below v freed num [] = record { vma = v; freed = freed; num = num; rest = [] }
merge_below v freed num (w ∷ below) =
    let merged = merge_below (absorb w v) (freed + (w.top - w.bottom)) (free_vma num) below in
    if leb v.bottom w.top && not (xor w.is_pal_internal v.is_pal_internal)
    then merged
    else record { vma = v; freed = freed; num = num; rest = w ∷ below }

-- The list of a cursor.
abbrev pub onto : List HeapVma → List HeapVma → List HeapVma
onto [] below = below
onto (v ∷ above) below = onto above (v ∷ below)

-- The end of `__create_vma_and_merge`, after merging with the areas above and below: the area is not
-- empty, and the two assertions hold, or the enclave ends.
unfoldable pub settle : Limits → ℕ → Bool → List HeapVma → Merging → Heap → Reply × Heap
settle l addr internal above m h =
    let allocated = m.vma.top - m.vma.bottom - m.freed in
    if leb m.vma.top m.vma.bottom
      || (ltb (m.vma.top - m.vma.bottom) m.freed
          || (internal && ltb (l.internal_size - h.internal_used) allocated))
    then (exits, h)
    else (
      pages addr,
      record h {
        vmas = onto above (m.vma ∷ m.rest);
        vma_num = m.num;
        allocated_pages = h.allocated_pages + allocated / l.page_size;
        internal_used = if internal then h.internal_used + allocated else h.internal_used;
      },
    )

-- From the allocation of the area object on.
unfoldable pub create_merged :
    Limits → ℕ → ℕ → Bool → List HeapVma → List HeapVma → Heap → Option ℕ → Reply × Heap
unfolding merge_above merge_below settle
create_merged l addr end internal above below h none = (null, h)
create_merged l addr end internal above below h (some num) =
    let v : HeapVma = record { bottom = addr; top = end; is_pal_internal = internal } in
    let up = merge_above v 0 num above in
    settle l addr internal up.rest (merge_below up.vma up.freed up.num below) h

-- `__create_vma_and_merge`; the cursor says which area is `vma_above`.
unfoldable pub create_vma_and_merge :
    Limits → ℕ → ℕ → Bool → List HeapVma → List HeapVma → Heap → Reply × Heap
unfolding create_merged check_above check_below alloc_vma
create_vma_and_merge l addr size internal above below h =
    if addr == 0 || size == 0
    then (exits, h)
    else if ltb addr l.heap_bottom
    then (null, h)
    else if check_above internal (add_ptr addr size) above && check_below internal addr below
    then create_merged l addr (add_ptr addr size) internal above below h (alloc_vma l h.vma_num)
    else (null, h)

-- The loop for a given address: the cursor in front of the first area that begins below it.
unfoldable pub seek : ℕ → List HeapVma → List HeapVma → List HeapVma × List HeapVma
seek addr above [] = (above, [])
seek addr above (v ∷ below) =
    let rest = seek addr (v ∷ above) below in if ltb v.bottom addr then (above, v ∷ below) else rest

-- The loop for any address: the first gap from the top that is larger than the size.
unfoldable pub find_slot : Limits → ℕ → Bool → ℕ → List HeapVma → List HeapVma → Heap → Reply × Heap
unfolding create_vma_and_merge
find_slot l size internal above_bottom above [] h =
    if ltb l.heap_bottom (sub_ptr above_bottom size)
    then create_vma_and_merge l (sub_ptr above_bottom size) size internal above [] h
    else (null, h)
find_slot l size internal above_bottom above (v ∷ below) h =
    let rest = find_slot l size internal v.bottom (v ∷ above) below h in
    if ltb v.top (sub_ptr above_bottom size)
    then create_vma_and_merge l (sub_ptr above_bottom size) size internal above (v ∷ below) h
    else rest

-- The branch of `get_enclave_pages` for a given address, and the one for any.
unfoldable pub get_at : Limits → ℕ → ℕ → Bool → Heap → Reply × Heap
unfolding seek create_vma_and_merge
get_at l addr size internal h =
    let (above, below) = seek addr [] h.vmas in
    if ltb addr l.heap_bottom || ltb l.heap_top (add_ptr addr size)
    then (null, h)
    else create_vma_and_merge l addr size internal above below h

unfoldable pub get_aligned : Limits → ℕ → ℕ → Bool → Heap → Reply × Heap
unfolding get_at find_slot
get_aligned l addr size internal h =
    if not (access_ok addr size)
    then (exits, h)
    else if h.locked
    then (blocks, h)
    else if internal && ltb (l.internal_size - h.internal_used) size
    then (null, record h { locked = true })
    else if addr == 0
    then find_slot l size internal l.heap_top [] h.vmas h
    else get_at l addr size internal h

-- `get_enclave_pages`. The lock is free again at the end, but for the early return.
unfoldable pub get_enclave_pages : Limits → ℕ → ℕ → Bool → Heap → Reply × Heap
unfolding get_aligned
get_enclave_pages l addr size internal h =
    if size == 0
    then (null, h)
    else get_aligned l (align_down addr l.page_size) (align_up size l.page_size) internal h

unfoldable pub top_from : ℕ → List HeapVma → ℕ
top_from addr [] = addr
top_from addr (v ∷ vmas) =
    let rest = top_from v.bottom vmas in if ltb v.top addr then addr else rest

-- `get_enclave_heap_top`
unfoldable pub get_enclave_heap_top : Limits → Heap → Reply
unfolding top_from
get_enclave_heap_top l h = if h.locked then blocks else pages (top_from l.heap_top h.vmas)

-- `init_enclave_pages` on the empty heap: an executable inside the heap gets an area.
unfoldable pub init_enclave_pages : Limits → ℕ → ℕ → Bool × Heap
unfolding alloc_vma
init_enclave_pages l exec_addr exec_size =
    let empty : Heap = record {
      vmas = [];
      vma_num = 0;
      allocated_pages = 0;
      internal_used = 0;
      locked = false;
    } in
    let exec : HeapVma = record {
      bottom = exec_addr;
      top = add_ptr exec_addr exec_size;
      is_pal_internal = false;
    } in
    if ltb exec_addr l.heap_top && ltb l.heap_bottom (add_ptr exec_addr exec_size)
    then elim (alloc_vma l 0) [
      | none ↦ (false, empty)
      | some num ↦ (
        true,
        record empty {
          vmas = exec ∷ [];
          vma_num = num;
          allocated_pages = (exec.top - exec.bottom) / l.page_size;
        },
      )
    ]
    else (true, empty)
