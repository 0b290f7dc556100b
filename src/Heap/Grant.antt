-- ===== src/Heap/Grant.antt =====
-- `__create_vma_and_merge` as a whole: which requests it grants.
use graphene.Base.{
  ℕ, suc, ◌+◌, ◌-◌, ◌/◌, ◌^◌, ◌≤◌, ◌<◌, ◌≡◌, refl, sym, ap, Bool, true, false, ◌&&◌, ◌||◌, ◌⊎◌, inl,
  inr, Option, none, some, List, [], ◌∷◌, ◌==◌, if◌then◌else◌, ◌∙◌, arith, if_then, if_else, lt→ltb,
  ltb-false, subst,
}
use graphene.Heap.{
  HeapVma, Limits, Heap, null, alloc_vma, check_above, check_below, create_merged,
  create_vma_and_merge,
}
use graphene.Heap.View.{
  owner_at, IsDescending, IsAscending, or_else, IsWell, owner_at-below, owner_at-above,
}
use graphene.Heap.Merge.Below.{Starts, check_below-above}
use graphene.Heap.Cursor.{IsCursor, suits, IsGranted, add_ptr-small, owner_at-cursor}
use graphene.Heap.Create.{settled-IsWell, settle-pages, total_size-settled, owner_at-merged}

check_above-clear :
    (internal : Bool) (at end hi : ℕ) (above : List HeapVma)
    → IsAscending at hi above
    → ((a : ℕ) → at ≤ a → a < end → suits internal (owner_at above a) ≡ true)
    → check_above internal end above ≡ true
unfolding check_above owner_at
check_above-clear internal at end hi [] o f = refl
check_above-clear internal at end hi (v ∷ above) o f = ground (
  arith,
  f v.bottom,
  check_above-clear internal v.top end hi above o.2 (λ a h k. ground (arith, f a)),
)

check_below-clear :
    (internal : Bool) (lo at addr : ℕ) (below : List HeapVma)
    → IsDescending lo at below
    → Starts addr below
    → suits internal (owner_at below addr) ≡ true
    → check_below internal addr below ≡ true
unfolding check_below owner_at
check_below-clear internal lo at addr [] d s f = refl
check_below-clear internal lo at addr (v ∷ below) d s f =
    ground (arith, check_below-above internal lo v.bottom addr below d.2 s)

check_above-clash :
    (internal : Bool) (at end hi a : ℕ) (above : List HeapVma)
    → IsAscending at hi above
    → a < end
    → suits internal (owner_at above a) ≡ false
    → check_above internal end above ≡ false
unfolding check_above owner_at
check_above-clash internal at end hi a [] o h f = f
check_above-clash internal at end hi a (v ∷ above) o h f = ground (
  arith,
  check_above-clash internal v.top end hi a above o.2 h,
  owner_at-below v.top hi a above o.2,
)

check_below-clash :
    (internal : Bool) (lo at addr a : ℕ) (below : List HeapVma)
    → IsDescending lo at below
    → addr ≤ a
    → suits internal (owner_at below a) ≡ false
    → check_below internal addr below ≡ false
unfolding check_below owner_at
check_below-clash internal lo at addr a [] d h f = f
check_below-clash internal lo at addr a (v ∷ below) d h f = ground (
  arith,
  check_below-clash internal lo v.bottom addr a below d.2 h,
  owner_at-above lo v.bottom a below d.2,
)

suits-or_else :
    (internal : Bool) (o p : Option Bool)
    → suits internal (or_else o p) ≡ false
    → (suits internal o ≡ false) ⊎ (suits internal p ≡ false)
suits-or_else internal none p f = inr f
suits-or_else internal (some b) p f = inl f

suits-left :
    (internal : Bool) (o p : Option Bool)
    → suits internal (or_else o p) ≡ true
    → suits internal o ≡ true
suits-left internal none p f = refl
suits-left internal (some b) p f = f

-- A request for a range inside the heap, with a free object in the pool.
pub record IsInside (l : Limits) (addr size : ℕ) : Type 0 where
  pub nonnull : 0 < addr
  pub nonempty : 0 < size
  pub lower : l.heap_bottom ≤ addr
  pub upper : addr + size ≤ l.heap_top
  pub word : l.heap_top < 2 ^ 64

nonzero : (a b : ℕ) → 0 < a → 0 < b → (a == 0 || b == 0) ≡ false
nonzero a b h k = ground arith

module _ (l : Limits) (addr size at : ℕ) (internal : Bool) (above below : List HeapVma) (h : Heap)
    (well : IsWell l h) (cursor : IsCursor l h addr at above below)
    (inside : IsInside l addr size) where
  abbrev checks : Bool
  checks = check_above internal (addr + size) above && check_below internal addr below

  create-step : create_vma_and_merge l addr size internal above below h ≡ (
      if checks
      then create_merged l addr (addr + size) internal above below h (alloc_vma l h.vma_num)
      else (null, h))
  unfolding create_vma_and_merge
  create-step =
      if_else (addr == 0 || size == 0) _ _ (nonzero addr size inside.nonnull inside.nonempty)
      ∙ if_else _ _ _ (ltb-false {a = addr} {b = l.heap_bottom} inside.lower)
      ∙ ap
          (λ (end : ℕ).
            if check_above internal end above && check_below internal addr below
            then create_merged l addr end internal above below h (alloc_vma l h.vma_num)
            else (null, h))
          (add_ptr-small addr size (omega (arith, inside.upper, inside.word)))

  alloc-some : h.vma_num < l.max_vmas → alloc_vma l h.vma_num ≡ some (suc h.vma_num)
  unfolding alloc_vma
  alloc-some room = if_then _ _ none (lt→ltb h.vma_num l.max_vmas room)

  above-suits :
      ((a : ℕ) → addr ≤ a → a < addr + size → suits internal (owner_at h.vmas a) ≡ true)
      → (a : ℕ) → at ≤ a
      → a < addr + size
      → suits internal (owner_at above a) ≡ true
  above-suits free a j k = suits-left internal (owner_at above a) (owner_at below a) (
      ap (suits internal) (sym (owner_at-cursor l h addr at above below cursor a))
      ∙ free a (omega (arith, cursor.behind)) k)

  below-suits :
      suits internal (owner_at h.vmas addr) ≡ true → suits internal (owner_at below addr) ≡ true
  below-suits free = ground (
    arith,
    free,
    owner_at-below at l.heap_top addr above cursor.ascending,
    owner_at-above l.heap_bottom at addr below cursor.descending,
    owner_at-cursor l h addr at above below cursor addr,
  )

  checks-clear :
      ((a : ℕ) → addr ≤ a → a < addr + size → suits internal (owner_at h.vmas a) ≡ true)
      → (check_above internal (addr + size) above ≡ true) × (check_below internal addr below ≡ true)
  checks-clear free = (
    check_above-clear internal at (addr + size) l.heap_top above cursor.ascending
        (above-suits free),
    check_below-clear internal l.heap_bottom at addr below cursor.descending cursor.starts
        (below-suits (free addr (omega arith) (omega (arith, inside.nonempty)))),
  )

  create_merged-IsGranted :
      (internal ≡ true → size ≤ l.internal_size - h.internal_used)
      → check_above internal (addr + size) above ≡ true
      → check_below internal addr below ≡ true
      → IsGranted l addr
          (addr + size)
          internal
          h
          (create_merged l addr (addr + size) internal above below h (some (suc h.vma_num)))
  unfolding create_merged
  create_merged-IsGranted limit p q =
      let lt : addr < addr + size = omega (arith, inside.nonempty) in
      let grown =
        total_size-settled l addr (addr + size) at internal above below h well cursor inside.lower
          lt inside.upper p q in
      subst (IsGranted l addr (addr + size) internal h)
        (sym (
          settle-pages l addr (addr + size) at internal above below h well cursor inside.lower lt
            inside.upper p q (λ e. omega (arith, limit e))))
        (record {
          reply = refl;
          unlocked = refl;
          well =
              settled-IsWell l addr (addr + size) at internal above below h well cursor inside.lower
                lt inside.upper p q;
          owner =
              owner_at-merged l addr (addr + size) at internal above below h well cursor
                inside.lower lt inside.upper p q;
          grows = omega (arith, grown);
          allocated = ap (λ n. h.allocated_pages + n / l.page_size) (omega (arith, grown));
        })

  pub create_vma_and_merge-IsGranted :
      (internal ≡ true → size ≤ l.internal_size - h.internal_used)
      → h.vma_num < l.max_vmas
      → ((a : ℕ) → addr ≤ a → a < addr + size → suits internal (owner_at h.vmas a) ≡ true)
      → IsGranted l addr
          (addr + size)
          internal
          h
          (create_vma_and_merge l addr size internal above below h)
  create_vma_and_merge-IsGranted limit room free =
      let (p, q) = checks-clear free in
      subst (IsGranted l addr (addr + size) internal h)
        (sym (
          create-step
          ∙ if_then checks _ (null, h) (ground (arith, p, q))
          ∙ ap (create_merged l addr (addr + size) internal above below h) (alloc-some room)))
        (create_merged-IsGranted limit p q)

  checks-clash :
      (a : ℕ)
      → addr ≤ a
      → a < addr + size
      → suits internal (owner_at h.vmas a) ≡ false
      → checks ≡ false
  checks-clash a j k f =
      elim (suits-or_else internal (owner_at above a) (owner_at below a)
        (ap (suits internal) (sym (owner_at-cursor l h addr at above below cursor a)) ∙ f)) [
          | inl e ↦ ground (
            arith,
            check_above-clash internal at (addr + size) l.heap_top a above cursor.ascending k e,
          )
          | inr e ↦ ground (
            arith,
            check_below-clash internal l.heap_bottom at addr a below cursor.descending j e,
          )
        ]

  pub create_vma_and_merge-clash :
      (a : ℕ)
      → addr ≤ a
      → a < addr + size
      → suits internal (owner_at h.vmas a) ≡ false
      → create_vma_and_merge l addr size internal above below h ≡ (null, h)
  create_vma_and_merge-clash a j k f = create-step ∙ if_else checks _ _ (checks-clash a j k f)
