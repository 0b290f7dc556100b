-- ===== src/Heap/Tests.antt =====
-- Heaps at small inputs.
use mathlib.Core.Bool.{xor}
use graphene.Base.{ℕ, ◌+◌, ◌≤◌, ◌<◌, ◌≡◌, refl, true, false, none, some, [], ◌∷◌, einval, arith}
use graphene.Heap.{
  HeapVma, Limits, Heap, null, pages, blocks, get_enclave_pages, get_enclave_heap_top,
  init_enclave_pages,
}
use graphene.Heap.Free.{answers, free_blocks, free_enclave_pages}
use graphene.Heap.View.{owner_at, internal_size, IsWell}
use graphene.Heap.Cursor.{suits, IsGranted}
use graphene.Heap.Grant.{IsInside}
use graphene.Heap.Place.{Proceeds, get_enclave_pages-IsGranted, get_enclave_pages-clash}
use graphene.Heap.Slot.{Outcome, get_enclave_pages-Outcome}
use graphene.Heap.Return.{AllSuit}
use graphene.Heap.Return.Whole.{IsFreed, free_enclave_pages-IsFreed}
use graphene.Heap.Faults.{get_enclave_pages-blocks, free_enclave_pages-einval}

-- A heap of one megabyte with a PAL-internal area at its top and a normal one in the middle.
abbrev limits : Limits
limits = record {
  page_size = 4096;
  heap_bottom = 65536;
  heap_top = 1048576;
  internal_size = 65536;
  max_vmas = 100000;
}

abbrev pal_area : HeapVma
pal_area = record { bottom = 1040384; top = 1048576; is_pal_internal = true }

abbrev user_area : HeapVma
user_area = record { bottom = 131072; top = 196608; is_pal_internal = false }

abbrev heap : Heap
heap = record {
  vmas = pal_area ∷ user_area ∷ [];
  vma_num = 2;
  allocated_pages = 18;
  internal_used = 8192;
  locked = false;
}

heap-IsWell : IsWell limits heap
unfolding internal_size
heap-IsWell = record {
  descending = (omega arith, omega arith, (omega arith, omega arith, omega arith));
  counted = refl;
  internal = refl;
}

user-Proceeds : Proceeds limits 100 false heap
user-Proceeds = record { nonempty = omega arith; unlocked = refl; limit = λ e. ground (arith, e) }

page-IsInside : IsInside limits 196608 4096
page-IsInside = record {
  nonnull = omega arith;
  nonempty = omega arith;
  lower = omega arith;
  upper = omega arith;
  word = omega arith;
}

-- The new page merges with the normal area below it.
merged_run : get_enclave_pages limits 196700 100 false heap ≡ (
  pages 196608,
  record heap {
    vmas = pal_area ∷ record { bottom = 131072; top = 200704; is_pal_internal = false } ∷ [];
    allocated_pages = 19;
  },
)
unfolding get_enclave_pages xor
merged_run = refl

user_page_suits :
    (a : ℕ) → 196608 ≤ a → a < 196608 + 4096 → suits false (owner_at heap.vmas a) ≡ true
unfolding owner_at xor
user_page_suits a p q = ground arith

get_enclave_pages-IsGranted_example :
    IsGranted limits 196608
      (196608 + 4096)
      false
      heap
      (get_enclave_pages limits 196700 100 false heap)
get_enclave_pages-IsGranted_example =
    get_enclave_pages-IsGranted limits 196700 100 false heap heap-IsWell user-Proceeds page-IsInside
      (omega arith) user_page_suits

pal_page-IsInside : IsInside limits 1044480 4096
pal_page-IsInside = record {
  nonnull = omega arith;
  nonempty = omega arith;
  lower = omega arith;
  upper = omega arith;
  word = omega arith;
}

pal_owner : suits false (owner_at heap.vmas 1044480) ≡ false
unfolding owner_at xor
pal_owner = refl

get_enclave_pages-clash_example : get_enclave_pages limits 1044480 100 false heap ≡ (null, heap)
get_enclave_pages-clash_example =
    get_enclave_pages-clash limits 1044480 100 false heap heap-IsWell user-Proceeds
      pal_page-IsInside 1044480 (omega arith) (omega arith) pal_owner

get_enclave_pages-Outcome_example :
    Outcome limits 4096 false heap 1048576 heap.vmas (get_enclave_pages limits 0 100 false heap)
get_enclave_pages-Outcome_example =
    get_enclave_pages-Outcome limits 100 false heap heap-IsWell user-Proceeds (omega arith)
      (omega arith) (omega arith) (omega arith) (omega arith, (omega arith, omega arith))

-- The middle of the normal area is given back, which splits it.
split_run : free_enclave_pages limits 135168 4096 heap ≡ (
  answers none,
  record heap {
    vmas =
        pal_area
        ∷ record { bottom = 139264; top = 196608; is_pal_internal = false }
        ∷ record { bottom = 131072; top = 135168; is_pal_internal = false }
        ∷ [];
    vma_num = 3;
    allocated_pages = 17;
  },
)
unfolding free_enclave_pages xor
split_run = refl

-- Behind a lock that nobody releases the call waits.
locked_run :
    free_enclave_pages limits 135168 4096 (record heap { locked = true })
    ≡ (free_blocks, record heap { locked = true })
unfolding free_enclave_pages
locked_run = refl

freed_suits : AllSuit 135168 (135168 + 4096) false heap.vmas
unfolding owner_at xor
freed_suits a p q = ground arith

free_enclave_pages-IsFreed_example :
    IsFreed limits 135168 (135168 + 4096) heap (free_enclave_pages limits 135168 4096 heap)
free_enclave_pages-IsFreed_example =
    free_enclave_pages-IsFreed limits 135168 4096 false heap heap-IsWell refl (omega arith)
      (omega arith) refl (omega arith) (omega arith) (omega arith) (omega arith) freed_suits

get_enclave_pages-blocks_example :
    ((get_enclave_pages limits 0 65536 true heap).0 ≡ null)
    × ((get_enclave_pages limits 0 1 false (get_enclave_pages limits 0 65536 true heap).1).0
        ≡ blocks)
get_enclave_pages-blocks_example =
    get_enclave_pages-blocks limits 0 65536 0 1 false heap refl (omega arith) (omega arith)
      (omega arith) (omega arith) (omega arith)

free_enclave_pages-einval_example : free_enclave_pages limits 135168 909312 heap ≡ (
  answers (some einval),
  record heap { vmas = record pal_area { bottom = 135168 + 909312 } ∷ user_area ∷ [] },
)
unfolding xor
free_enclave_pages-einval_example =
    free_enclave_pages-einval limits 135168 909312 pal_area user_area [] heap refl refl
      (omega arith) refl (omega arith) (omega arith) (omega arith) (omega arith) (omega arith)
      (omega arith) (omega arith) (omega arith) refl

-- A heap that is full but for its lowest pages.
abbrev full_area : HeapVma
full_area = record { bottom = 69632; top = 1048576; is_pal_internal = false }

abbrev full_heap : Heap
full_heap = record heap { vmas = full_area ∷ []; vma_num = 1; internal_used = 0 }

-- The highest free address below the areas at the top, and the heap around an executable.
heap_top_run : get_enclave_heap_top limits heap ≡ pages 1040384
unfolding get_enclave_heap_top
heap_top_run = refl

init_run : (init_enclave_pages limits 131072 65536).0 ≡ true
unfolding init_enclave_pages
init_run = refl
