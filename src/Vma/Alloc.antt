-- ===== src/Vma/Alloc.antt =====
-- `alloc_vma` and `_vma_malloc` of LibOS/shim/src/bookkeep/shim_vma.c, as far as they change the
-- tree: an area comes from the pool, or the pool is enlarged by memory that is mapped here.
pub mod Laws
use graphene.Base.{
  ℕ, ◌+◌, Bool, true, false, Option, none, List, [], ◌∷◌, if◌then◌else◌, Result, ok, err, bit_or,
}
use graphene.Vma.Remove.{Removal, vma_bkeep_remove}
use graphene.Vma.Space.{Config, Space, Request, align_up, put_all, bkeep_mmap_any}

-- What one `alloc_vma` meets: an area in the thread's cache or the pool, or an empty pool that is
-- enlarged by so many bytes, with the answer of the PAL to the allocation.
pub data Supply : Type 0 where
  pooled : Supply
  enlarged : (size : ℕ) (granted : Bool) → Supply

-- PROT_READ | PROT_WRITE, MAP_PRIVATE | MAP_ANONYMOUS | VMA_INTERNAL, "vma"
abbrev pub pool_request : Request
pool_request = record {
  prot = 3;
  flags = 0x20000022;
  file = none;
  offset = 0;
  comment = 0x76 ∷ 0x6d ∷ 0x61 ∷ [];
}

-- The mapping is taken back when the PAL grants no memory. A refusal there is `BUG()`.
unfoldable pub undo : Space → Result Removal → Space
unfolding put_all
undo s (err e) = s
undo s (ok r) = record { vmas = r.vmas; refs = put_all r.freed r.refs }

unfoldable pub malloc_result : Config → ℕ → Bool → Result ℕ × Space → Bool × Space
unfolding undo vma_bkeep_remove
malloc_result cfg size granted (err e, s) = (false, s)
malloc_result cfg size granted (ok addr, s) =
    if granted
    then (true, s)
    else (false, undo s (vma_bkeep_remove addr (addr + size) true false s.vmas s.refs))

-- `_vma_malloc`; the area for it is the one that `alloc_vma` puts into the cache before.
unfoldable pub vma_malloc : Config → ℕ → Bool → Space → Bool × Space
unfolding malloc_result bkeep_mmap_any align_up
vma_malloc cfg size granted s =
    malloc_result cfg (align_up cfg size) granted
      (bkeep_mmap_any cfg (λ t. (true, t)) (align_up cfg size) pool_request s)

-- `alloc_vma`: whether there is an area, and the state after it.
unfoldable pub alloc_vma : Config → Supply → Space → Bool × Space
unfolding vma_malloc
alloc_vma cfg pooled s = (true, s)
alloc_vma cfg (enlarged size granted) s = vma_malloc cfg size granted s
