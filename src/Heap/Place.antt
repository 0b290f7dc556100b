-- ===== src/Heap/Place.antt =====
-- `get_enclave_pages` for a given address.
use graphene.Base.{
  ℕ, ◌+◌, ◌-◌, ◌^◌, ◌≤◌, ◌<◌, ◌≡◌, refl, sym, subst, Bool, true, false, not, ◌&&◌, ◌||◌, inl, inr,
  List, [], ◌∷◌, ltb, ◌==◌, if◌then◌else◌, ◌∙◌, arith, Bool-cases, if_else,
}
use graphene.Heap.{
  HeapVma, Limits, Heap, null, onto, add_ptr, align_down, align_up, access_ok, seek, get_at,
  get_aligned, get_enclave_pages, find_slot, create_vma_and_merge,
}
use graphene.Heap.View.{owner_at, IsDescending, IsAscending, IsWell, IsAscending-lower}
use graphene.Heap.Cursor.{IsCursor, suits, IsGranted, add_ptr-small, in_limit}
use graphene.Heap.Grant.{IsInside, create_vma_and_merge-IsGranted, create_vma_and_merge-clash}

seek-IsCursor :
    (l : Limits) (h : Heap) (addr at : ℕ) (above below : List HeapVma)
    → onto above below ≡ h.vmas
    → IsAscending at l.heap_top above
    → IsDescending l.heap_bottom at below
    → addr ≤ at
    → (s : ℕ) × IsCursor l h addr s (seek addr above below).0 (seek addr above below).1
unfolding seek
seek-IsCursor l h addr at above [] e o d b =
    (at, record { list = e; ascending = o; descending = d; starts = omega arith; behind = b })
seek-IsCursor l h addr at above (v ∷ below) e o d b = elim (Bool-cases (ltb v.bottom addr)) [
  | inl low ↦ rw low (
    at,
    record { list = e; ascending = o; descending = d; starts = ground (arith, low); behind = b },
  )
  | inr high ↦ rw high (
      seek-IsCursor l h addr v.bottom (v ∷ above) below e
        (omega arith, d.1, IsAscending-lower at v.top l.heap_top above o d.0) d.2
        (ground (arith, high)))
]

-- The conditions under which a call gets as far as the list of areas.
pub record Proceeds (l : Limits) (size : ℕ) (internal : Bool) (h : Heap) : Type 0 where
  pub nonempty : 0 < size
  pub unlocked : h.locked ≡ false
  pub limit : internal ≡ true → align_up size l.page_size ≤ l.internal_size - h.internal_used

pub access_ok-small : (a n : ℕ) → a + n < 2 ^ 64 → not (access_ok a n) ≡ false
access_ok-small a n h = rw (add_ptr-small a n h) (ground arith)

in_heap :
    (l : Limits) (a n : ℕ)
    → IsInside l a n
    → (ltb a l.heap_bottom || ltb l.heap_top (add_ptr a n)) ≡ false
in_heap l a n i =
    rw (add_ptr-small a n (omega (arith, i.upper, i.word))) (ground (arith, i.lower, i.upper))

aligned-step :
    (l : Limits) (a n : ℕ) (internal : Bool) (h : Heap)
    → h.locked ≡ false
    → (internal ≡ true → n ≤ l.internal_size - h.internal_used)
    → a + n < 2 ^ 64
    → get_aligned l a n internal h
      ≡ (if a == 0 then find_slot l n internal l.heap_top [] h.vmas h else get_at l a n internal h)
unfolding get_aligned
aligned-step l a n internal h e f le =
    if_else (not (access_ok a n)) _ _ (access_ok-small a n le)
    ∙ if_else h.locked _ _ e
    ∙ if_else (internal && ltb (l.internal_size - h.internal_used) n) _ _
        (in_limit internal (l.internal_size - h.internal_used) n f)

pub get_enclave_pages-step :
    (l : Limits) (addr size : ℕ) (internal : Bool) (h : Heap)
    → Proceeds l size internal h
    → align_down addr l.page_size + align_up size l.page_size < 2 ^ 64
    → get_enclave_pages l addr size internal h ≡ (
        if align_down addr l.page_size == 0
        then find_slot l (align_up size l.page_size) internal l.heap_top [] h.vmas h
        else get_at l (align_down addr l.page_size) (align_up size l.page_size) internal h)
unfolding get_enclave_pages
get_enclave_pages-step l addr size internal h p le =
    if_else (size == 0) _ _ (ground (arith, p.nonempty))
    ∙ aligned-step l (align_down addr l.page_size) (align_up size l.page_size) internal h p.unlocked
        p.limit le

-- The areas in front of which a request at a given address is placed.
module _ (l : Limits) (addr size : ℕ) (internal : Bool) (h : Heap) (well : IsWell l h)
    (inside : IsInside l addr size) where
  abbrev found : (s : ℕ) × IsCursor l h addr s (seek addr [] h.vmas).0 (seek addr [] h.vmas).1
  found =
      seek-IsCursor l h addr l.heap_top [] h.vmas refl (omega arith) well.descending
        (omega (arith, inside.upper))

  get_at-step :
      get_at l addr size internal h
      ≡ create_vma_and_merge l addr size internal (seek addr [] h.vmas).0 (seek addr [] h.vmas).1 h
  unfolding get_at
  get_at-step = if_else _ _ _ (in_heap l addr size inside)

  get_at-IsGranted :
      (internal ≡ true → size ≤ l.internal_size - h.internal_used)
      → h.vma_num < l.max_vmas
      → ((a : ℕ) → addr ≤ a → a < addr + size → suits internal (owner_at h.vmas a) ≡ true)
      → IsGranted l addr (addr + size) internal h (get_at l addr size internal h)
  get_at-IsGranted limit room free =
      subst (IsGranted l addr (addr + size) internal h) (sym get_at-step) (
        create_vma_and_merge-IsGranted l addr size found.0 internal _ _ h well found.1 inside limit
          room free)

  get_at-clash :
      (a : ℕ)
      → addr ≤ a
      → a < addr + size
      → suits internal (owner_at h.vmas a) ≡ false
      → get_at l addr size internal h ≡ (null, h)
  get_at-clash a j k f =
      get_at-step
      ∙ create_vma_and_merge-clash l addr size found.0 internal _ _ h well found.1 inside a j k f

-- The same for `get_enclave_pages`, which rounds the address and the size first.
module _ (l : Limits) (addr size : ℕ) (internal : Bool) (h : Heap) where
  abbrev first : ℕ
  first = align_down addr l.page_size

  abbrev bytes : ℕ
  bytes = align_up size l.page_size

  fixed-step :
      Proceeds l size internal h
      → IsInside l first bytes
      → get_enclave_pages l addr size internal h ≡ get_at l first bytes internal h
  fixed-step p i =
      get_enclave_pages-step l addr size internal h p (omega (arith, i.upper, i.word))
      ∙ if_else (first == 0) _ _ (ground (arith, i.nonnull))

  -- On a well-formed heap, a request at an address whose rounded range lies inside the heap and
  -- holds no address of the other type, with the lock free, the limit on PAL-internal memory kept and
  -- a free area object, is granted: the
  -- answer is the rounded address, the heap is well formed again, exactly the addresses of the range
  -- now have the wanted type, and the count of pages grows by those by which the areas grow.
  pub get_enclave_pages-IsGranted :
      IsWell l h
      → Proceeds l size internal h
      → IsInside l first bytes
      → h.vma_num < l.max_vmas
      → ((a : ℕ) → first ≤ a → a < first + bytes → suits internal (owner_at h.vmas a) ≡ true)
      → IsGranted l first (first + bytes) internal h (get_enclave_pages l addr size internal h)
  get_enclave_pages-IsGranted w p i room free =
      subst (IsGranted l first (first + bytes) internal h) (sym (fixed-step p i))
        (get_at-IsGranted l first bytes internal h w i p.limit room free)

  -- On a well-formed heap, with the lock free and the limit kept, a request at an address whose
  -- rounded range lies inside the heap but holds an address of the other type is answered with NULL
  -- and changes nothing.
  pub get_enclave_pages-clash :
      IsWell l h
      → Proceeds l size internal h
      → IsInside l first bytes
      → (a : ℕ) → first ≤ a
      → a < first + bytes
      → suits internal (owner_at h.vmas a) ≡ false
      → get_enclave_pages l addr size internal h ≡ (null, h)
  get_enclave_pages-clash w p i a j k f =
      fixed-step p i ∙ get_at-clash l first bytes internal h w i a j k f
