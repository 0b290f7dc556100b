-- ===== src/Heap/Faults.antt =====
-- What `get_enclave_pages` and `free_enclave_pages` do where a path forgets something.
use mathlib.Core.Bool.{xor}
use graphene.Base.{
  ℕ, ◌+◌, ◌-◌, ◌^◌, ◌%◌, ◌≤◌, ◌<◌, ◌≡◌, ap, Bool, true, false, not, none, some, List, ◌∷◌, ◌==◌,
  ◌∙◌, arith, if_then, if_else, lt→ltb, einval,
}
use graphene.Heap.{
  HeapVma, Limits, Heap, null, blocks, align_down, align_up, access_ok, get_aligned,
  get_enclave_pages,
}
use graphene.Heap.Free.{answers, free_loop, free_result, split_num, free_enclave_pages, stop_at}
use graphene.Heap.Place.{access_ok-small}
use graphene.Heap.Return.Whole.{free_aligned-step}

abbrev left_locked : Heap → Heap
left_locked h = record h { locked = true }

aligned-over :
    (l : Limits) (a n : ℕ) (h : Heap)
    → h.locked ≡ false
    → a + n < 2 ^ 64
    → l.internal_size - h.internal_used < n
    → get_aligned l a n true h ≡ (null, left_locked h)
unfolding get_aligned
aligned-over l a n h e w o =
    if_else (not (access_ok a n)) _ _ (access_ok-small a n w)
    ∙ if_else h.locked _ _ e
    ∙ if_then _ _ _ (lt→ltb (l.internal_size - h.internal_used) n o)

aligned-blocks :
    (l : Limits) (a n : ℕ) (internal : Bool) (h : Heap)
    → a + n < 2 ^ 64
    → get_aligned l a n internal (left_locked h) ≡ (blocks, left_locked h)
unfolding get_aligned
aligned-blocks l a n internal h w = if_else (not (access_ok a n)) _ _ (access_ok-small a n w)

-- A PAL-internal request over the limit is answered with NULL but keeps the lock, so that every
-- later request for at least one byte, whose rounded range does not wrap around, waits forever.
pub get_enclave_pages-blocks :
    (l : Limits) (addr size addr' size' : ℕ) (internal : Bool) (h : Heap)
    → h.locked ≡ false
    → 0 < size
    → align_down addr l.page_size + align_up size l.page_size < 2 ^ 64
    → l.internal_size - h.internal_used < align_up size l.page_size
    → 0 < size'
    → align_down addr' l.page_size + align_up size' l.page_size < 2 ^ 64
    → ((get_enclave_pages l addr size true h).0 ≡ null)
      × ((get_enclave_pages l addr' size' internal (get_enclave_pages l addr size true h).1).0
          ≡ blocks)
unfolding get_enclave_pages
get_enclave_pages-blocks l addr size addr' size' internal h e pos w o pos' w' =
    let first : get_enclave_pages l addr size true h ≡ (null, left_locked h) =
      if_else (size == 0) _ _ (ground (arith, pos)) ∙ aligned-over l _ _ h e w o in
    let second : get_enclave_pages l addr' size' internal (left_locked h)
        ≡ (blocks, left_locked h) =
      if_else (size' == 0) _ _ (ground (arith, pos')) ∙ aligned-blocks l _ _ internal h w' in
    (
      ap (λ r. r.0) first,
      ap (λ r. (get_enclave_pages l addr' size' internal r.1).0) first ∙ ap (λ r. r.0) second,
    )

free_loop-meets :
    (l : Limits) (addr end : ℕ) (w : HeapVma) (vmas : List HeapVma) (num : ℕ) (k : Bool) (freed : ℕ)
    → addr < w.top
    → w.bottom < end
    → xor k w.is_pal_internal ≡ true
    → free_loop l addr end (w ∷ vmas) num (some k) freed
      ≡ stop_at (some einval) (w ∷ vmas) num (some k) freed
unfolding free_loop
free_loop-meets l addr end w vmas num k freed p q x = ground (arith, x)

-- The loop meets two types.
free_loop-mixed :
    (l : Limits) (addr end : ℕ) (v w : HeapVma) (vmas : List HeapVma) (num : ℕ)
    → addr ≤ v.bottom
    → v.bottom < end
    → end < v.top
    → addr < w.top
    → w.bottom < end
    → xor v.is_pal_internal w.is_pal_internal ≡ true
    → free_loop l addr end (v ∷ w ∷ vmas) num none 0
      ≡ stop_at
          (some einval)
          (record v { bottom = end } ∷ w ∷ vmas)
          num
          (some v.is_pal_internal)
          (end - v.bottom)
unfolding free_loop split_num
free_loop-mixed l addr end v w vmas num p q r s t x = ground (arith, x)

-- With the lock free, a range of whole pages inside the heap, that begins in or in front of the second
-- area of the list and ends inside the first one, where the two are of different types, is answered
-- with EINVAL, but the first area has been cut to the end of the range, and no counter tells it.
pub free_enclave_pages-einval :
    (l : Limits) (addr size : ℕ) (v w : HeapVma) (vmas : List HeapVma) (h : Heap)
    → h.vmas ≡ v ∷ w ∷ vmas
    → h.locked ≡ false
    → 0 < size
    → addr % l.page_size ≡ 0
    → l.heap_bottom ≤ addr
    → addr + align_up size l.page_size ≤ l.heap_top
    → l.heap_top < 2 ^ 64
    → addr < w.top
    → w.top ≤ v.bottom
    → w.bottom < w.top
    → v.bottom < addr + align_up size l.page_size
    → addr + align_up size l.page_size < v.top
    → xor v.is_pal_internal w.is_pal_internal ≡ true
    → free_enclave_pages l addr size h ≡ (
      answers (some einval),
      record h { vmas = record v { bottom = addr + align_up size l.page_size } ∷ w ∷ vmas },
    )
unfolding free_enclave_pages free_result
free_enclave_pages-einval l addr size v w vmas h e free pos al lo hi word p q q' r s x =
    if_else (size == 0) _ _ (ground (arith, pos))
    ∙ free_aligned-step l addr (align_up size l.page_size) h free al lo hi word
    ∙ ap
        (λ vs.
          free_result l h (free_loop l addr (addr + align_up size l.page_size) vs h.vma_num none 0))
        e
    ∙ ap (free_result l h) (
        free_loop-mixed l addr (addr + align_up size l.page_size) v w vmas h.vma_num (omega arith) r
          s p (omega arith) x)
