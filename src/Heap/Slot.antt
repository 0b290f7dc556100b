-- ===== src/Heap/Slot.antt =====
-- `get_enclave_pages` for any address.
use graphene.Base.{
  ℕ, ◌+◌, ◌-◌, ◌^◌, ◌≤◌, ◌<◌, ◌≡◌, refl, sym, ap, subst, Bool, true, ◌⊎◌, inl, inr, none, List, [],
  ◌∷◌, ltb, ◌==◌, if◌then◌else◌, max, ◌∙◌, arith, Bool-cases, if_then, if_else,
}
use graphene.Heap.Merge.Below.{Starts}
use graphene.Heap.{
  HeapVma, Limits, Heap, Reply, null, onto, sub_ptr, align_down, align_up, find_slot,
  get_enclave_pages, create_vma_and_merge,
}
use graphene.Heap.View.{
  owner_at, IsDescending, IsAscending, IsWell, IsAscending-lower, IsDescending-le, owner_at-above,
  owner_at-below, or_else, IsAscending-le,
}
use graphene.Heap.Cursor.{IsCursor, suits, IsGranted, owner_at-cursor}
use graphene.Heap.Grant.{IsInside, create_vma_and_merge-IsGranted}
use graphene.Heap.Place.{Proceeds, get_enclave_pages-step}

-- No area begins at a lower address than the size, so that no subtraction wraps around.
abbrev pub Clears : ℕ → List HeapVma → Type 0
Clears size [] = 0 ≤ size
Clears size (v ∷ vmas) = (size ≤ v.bottom) × Clears size vmas

-- No range of free addresses is longer than a size.
abbrev pub HasNoGap : ℕ → ℕ → ℕ → List HeapVma → Type 0
HasNoGap lo hi size vmas =
    (x : ℕ) → lo ≤ x → x + size < hi → ¬ ((a : ℕ) → x ≤ a → a ≤ x + size → owner_at vmas a ≡ none)

-- A free range of the size has been granted.
abbrev pub IsServed : Limits → ℕ → Bool → Heap → Reply × Heap → Type 0
IsServed l size internal h r =
    (addr : ℕ) × IsGranted l addr (addr + size) internal h r
    × ((a : ℕ) → addr ≤ a → a < addr + size → owner_at h.vmas a ≡ none)

-- What a request leads to: a free range, or NULL where there is none that is longer than the size.
abbrev pub Outcome : Limits → ℕ → Bool → Heap → ℕ → List HeapVma → Reply × Heap → Type 0
Outcome l size internal h hi vmas r =
    IsServed l size internal h r ⊎ ((r ≡ (null, h)) × HasNoGap l.heap_bottom hi size vmas)

sub_ptr-small : (a b : ℕ) → b ≤ a → a < 2 ^ 64 → sub_ptr a b ≡ a - b
sub_ptr-small a b h k = omega arith

HasNoGap-end : (lo hi size : ℕ) → hi - size ≤ lo → HasNoGap lo hi size []
HasNoGap-end lo hi size h x j k f = omega arith

HasNoGap-next :
    (lo hi size : ℕ) (v : HeapVma) (vmas : List HeapVma)
    → IsDescending lo hi (v ∷ vmas)
    → hi - size ≤ v.top
    → HasNoGap lo v.bottom size vmas
    → HasNoGap lo hi size (v ∷ vmas)
unfolding owner_at
HasNoGap-next lo hi size v vmas d h g x j k f = elim (Bool-cases (ltb (x + size) v.bottom)) [
  | inl under ↦ g x j (ground (arith, under)) (λ a p q. ground (arith, under, f a p q))
  | inr over ↦ ground (arith, f (max x v.bottom) (omega arith) (ground (arith, over)))
]

module _ (l : Limits) (size : ℕ) (internal : Bool) (h : Heap) (well : IsWell l h)
    (word : l.heap_top < 2 ^ 64) (nonempty : 0 < size) (room : h.vma_num < l.max_vmas)
    (limit : internal ≡ true → size ≤ l.internal_size - h.internal_used) where
  slot-IsServed :
      (s : ℕ) (above below : List HeapVma)
      → onto above below ≡ h.vmas
      → IsAscending s l.heap_top above
      → IsDescending l.heap_bottom s below
      → Starts (s - size) below
      → l.heap_bottom < s - size
      → IsDescending l.heap_bottom (s - size) below
      → IsServed l size internal h (create_vma_and_merge l (s - size) size internal above below h)
  slot-IsServed s above below e o d st g lo =
      let c : IsCursor l h (s - size) s above below = record {
        list = e;
        ascending = o;
        descending = d;
        starts = st;
        behind = omega arith;
      } in
      let inside : IsInside l (s - size) size = record {
        nonnull = omega arith;
        nonempty = nonempty;
        lower = omega arith;
        upper = omega (arith, IsAscending-le s l.heap_top above o);
        word = word;
      } in
      let free : (a : ℕ) → s - size ≤ a → a < s - size + size → owner_at h.vmas a ≡ none = λ a p q.
        owner_at-cursor l h (s - size) s above below c a
        ∙ ap (λ x. or_else x (owner_at below a))
            (owner_at-below s l.heap_top a above o (omega arith))
        ∙ owner_at-above l.heap_bottom (s - size) a below lo p in
      (
        s - size,
        create_vma_and_merge-IsGranted l (s - size) size s internal above below h well c inside
            limit room (λ a p q. ap (suits internal) (free a p q)),
        free,
      )

  -- The two tests of the loop, without the wrap-around.
  end-step :
      (s : ℕ) (above : List HeapVma)
      → size ≤ s
      → IsAscending s l.heap_top above
      → find_slot l size internal s above [] h ≡ (
          if ltb l.heap_bottom (s - size)
          then create_vma_and_merge l (s - size) size internal above [] h
          else (null, h))
  unfolding find_slot
  end-step s above le o =
      ap
        (λ p.
          if ltb l.heap_bottom p
          then create_vma_and_merge l p size internal above [] h
          else (null, h))
        (sub_ptr-small s size le (omega (arith, IsAscending-le s l.heap_top above o)))

  next-step :
      (s : ℕ) (above : List HeapVma) (v : HeapVma) (below : List HeapVma)
      → size ≤ s
      → IsAscending s l.heap_top above
      → find_slot l size internal s above (v ∷ below) h ≡ (
          if ltb v.top (s - size)
          then create_vma_and_merge l (s - size) size internal above (v ∷ below) h
          else find_slot l size internal v.bottom (v ∷ above) below h)
  unfolding find_slot
  next-step s above v below le o =
      ap
        (λ p.
          if ltb v.top p
          then create_vma_and_merge l p size internal above (v ∷ below) h
          else find_slot l size internal v.bottom (v ∷ above) below h)
        (sub_ptr-small s size le (omega (arith, IsAscending-le s l.heap_top above o)))

  next-Outcome :
      (s : ℕ) (v : HeapVma) (below : List HeapVma) (r : Reply × Heap)
      → IsDescending l.heap_bottom s (v ∷ below)
      → s - size ≤ v.top
      → Outcome l size internal h v.bottom below r
      → Outcome l size internal h s (v ∷ below) r
  next-Outcome s v below r d full (inl served) = inl served
  next-Outcome s v below r d full (inr (e, g)) =
      inr (e, HasNoGap-next l.heap_bottom s size v below d full g)

  find_slot-Outcome :
      (s : ℕ) (above below : List HeapVma)
      → onto above below ≡ h.vmas
      → IsAscending s l.heap_top above
      → IsDescending l.heap_bottom s below
      → size ≤ s
      → Clears size below
      → Outcome l size internal h s below (find_slot l size internal s above below h)
  find_slot-Outcome s above [] e o d le c = elim (Bool-cases (ltb l.heap_bottom (s - size))) [
    | inl fits ↦
        let g : l.heap_bottom < s - size = ground (arith, fits) in
        subst (Outcome l size internal h s []) (sym (end-step s above le o ∙ if_then _ _ _ fits))
          (inl (slot-IsServed s above [] e o d (omega arith) g (omega arith)))
    | inr full ↦ inr (
      end-step s above le o ∙ if_else _ _ _ full,
      HasNoGap-end l.heap_bottom s size (ground (arith, full)),
    )
  ]
  find_slot-Outcome s above (v ∷ below) e o d le c = elim (Bool-cases (ltb v.top (s - size))) [
    | inl fits ↦
        let g : v.top < s - size = ground (arith, fits) in
        subst (Outcome l size internal h s (v ∷ below))
          (sym (next-step s above v below le o ∙ if_then _ _ _ fits))
          (inl (
            slot-IsServed s above (v ∷ below) e o d (omega arith)
              (omega (arith, IsDescending-le l.heap_bottom v.bottom below d.2))
              (omega arith, d.1, d.2)))
    | inr full ↦
        subst (Outcome l size internal h s (v ∷ below))
          (sym (next-step s above v below le o ∙ if_else _ _ _ full))
          (next-Outcome s v below _ d (ground (arith, full)) (
            find_slot-Outcome v.bottom (v ∷ above) below e
              (omega arith, d.1, IsAscending-lower s v.top l.heap_top above o d.0) d.2 c.0 c.1))
  ]

  find_slot-serves :
      size ≤ l.heap_top
      → Clears size h.vmas
      → Outcome l size internal h l.heap_top h.vmas
          (find_slot l size internal l.heap_top [] h.vmas h)
  find_slot-serves le c =
      find_slot-Outcome l.heap_top [] h.vmas refl (omega arith) well.descending le c

-- A request for any address on a well-formed heap, with the limit kept, a free area object, and no
-- area that begins below the rounded size, is granted a range of that size that nobody owned, in the
-- sense of `IsGranted`; or it is answered with NULL, the heap stays, and no range of free addresses
-- is longer than the size.
pub get_enclave_pages-Outcome :
    (l : Limits) (size : ℕ) (internal : Bool) (h : Heap)
    → IsWell l h
    → Proceeds l size internal h
    → l.heap_top < 2 ^ 64
    → h.vma_num < l.max_vmas
    → 0 < align_up size l.page_size
    → align_up size l.page_size ≤ l.heap_top
    → Clears (align_up size l.page_size) h.vmas
    → Outcome l
        (align_up size l.page_size)
        internal
        h
        l.heap_top
        h.vmas
        (get_enclave_pages l 0 size internal h)
get_enclave_pages-Outcome l size internal h w p word room pos le c =
    subst (Outcome l (align_up size l.page_size) internal h l.heap_top h.vmas)
      (sym (
        get_enclave_pages-step l 0 size internal h p (omega arith)
        ∙ if_then (align_down 0 l.page_size == 0) _ _ (ground arith)))
      (find_slot-serves l (align_up size l.page_size) internal h w word pos room p.limit le c)
