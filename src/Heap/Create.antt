-- ===== src/Heap/Create.antt =====
-- `__create_vma_and_merge` on a well-formed heap.
use graphene.Base.{
  ℕ, suc, ◌+◌, ◌-◌, ◌≤◌, ◌<◌, ◌≡◌, sym, ap, Bool, true, ltb-false, none, List, ◌∷◌, if◌then◌else◌,
  length, max, ◌∙◌, arith, if_else, leb-false, subst, ◌/◌,
}
use graphene.Heap.{
  HeapVma, Limits, Heap, pages, Merging, onto, check_above, check_below, merge_above, merge_below,
  settle,
}
use graphene.Heap.View.{
  covers, owner_at, IsDescending, IsAscending, size_if, internal_size, total_size, total_size-onto,
  or_else, IsWell, IsAscending-lower, IsAscending-max, onto-IsDescending, owner_at-onto,
  owner_at-below, length-onto, internal_size-onto,
}
use graphene.Heap.Merge.Above.{MergesAbove, merge_above-MergesAbove}
use graphene.Heap.Merge.Below.{MergesBelow, merge_below-MergesBelow}
use graphene.Heap.Cursor.{
  IsCursor, granted, in_limit, or-false, length-cursor, owner_at-cursor, glue, count_internal,
}

-- The two merges together.
module _ (l : Limits) (addr end at : ℕ) (internal : Bool) (above below : List HeapVma) (h : Heap)
    (well : IsWell l h) (cursor : IsCursor l h addr at above below) (lower : l.heap_bottom ≤ addr)
    (lt : addr < end) (le : end ≤ l.heap_top) (clear_above : check_above internal end above ≡ true)
    (clear_below : check_below internal addr below ≡ true) where
  abbrev new_vma : HeapVma
  new_vma = record { bottom = addr; top = end; is_pal_internal = internal }

  abbrev up : Merging
  up = merge_above new_vma 0 (suc h.vma_num) above

  abbrev down : Merging
  down = merge_below up.vma up.freed up.num below

  counted : h.vma_num ≡ length above + length below
  counted = length-cursor l h addr at above below well cursor

  up-MergesAbove : MergesAbove at l.heap_top new_vma 0 (suc h.vma_num) above up
  up-MergesAbove =
      merge_above-MergesAbove at at l.heap_top new_vma 0 (suc h.vma_num) above cursor.ascending
        (omega arith) cursor.behind lt le (omega arith) (omega (arith, counted)) clear_above

  down-MergesBelow : MergesBelow l.heap_bottom at up.vma up.freed up.num below down
  down-MergesBelow =
      let u = up-MergesAbove in
      merge_below-MergesBelow l.heap_bottom at up.vma up.freed up.num below cursor.descending
        (rw u.bottom cursor.starts) (omega (arith, u.bottom)) (omega (arith, u.bottom, u.top))
        u.tight (omega (arith, u.bottom)) (omega (arith, u.count, counted))
        (rw u.kind (rw u.bottom clear_below))

  abbrev merged_vmas : List HeapVma
  merged_vmas = onto up.rest (down.vma ∷ down.rest)

  rest-IsAscending : IsAscending down.vma.top l.heap_top up.rest
  rest-IsAscending =
      IsAscending-lower (max up.vma.top at) down.vma.top l.heap_top up.rest
        (IsAscending-max up.vma.top at l.heap_top up.rest up-MergesAbove.rest
          up-MergesAbove.rest_lo)
        down-MergesBelow.top_le

  down-lt : down.vma.bottom < down.vma.top
  down-lt = omega (
    arith, up-MergesAbove.bottom, up-MergesAbove.top, down-MergesBelow.bottom, down-MergesBelow.top,
  )

  merged-IsDescending : IsDescending l.heap_bottom l.heap_top merged_vmas
  merged-IsDescending =
      onto-IsDescending l.heap_bottom down.vma.top l.heap_top up.rest (down.vma ∷ down.rest)
        rest-IsAscending (omega arith, down-lt, down-MergesBelow.rest)

  covers-up : (a : ℕ) → covers new_vma a ≡ true → covers up.vma a ≡ true
  covers-up a e = ground (arith, e, up-MergesAbove.bottom, up-MergesAbove.top)

  rest-none : (a : ℕ) → covers up.vma a ≡ true → owner_at up.rest a ≡ none
  rest-none a e =
      owner_at-below up.vma.top l.heap_top a up.rest up-MergesAbove.rest (ground (arith, e))

  pub owner_at-merged :
      (a : ℕ) → owner_at merged_vmas a ≡ granted addr end internal (owner_at h.vmas a) a
  unfolding owner_at
  owner_at-merged a =
      owner_at-onto down.vma.top l.heap_top a up.rest (down.vma ∷ down.rest) rest-IsAscending
      ∙ ap (or_else (owner_at up.rest a)) (down-MergesBelow.owner a)
      ∙ glue (covers up.vma a) (covers new_vma a) internal up.vma.is_pal_internal
          (owner_at up.rest a) (owner_at above a) (owner_at below a) (covers-up a) (rest-none a)
          (up-MergesAbove.owner a)
      ∙ ap (λ o. granted addr end internal o a)
          (sym (owner_at-cursor l h addr at above below cursor a))

  -- The heap that `settle` leaves.
  abbrev pub settled : Heap
  settled =
      let allocated = down.vma.top - down.vma.bottom - down.freed in
      record h {
        vmas = merged_vmas;
        vma_num = down.num;
        allocated_pages = h.allocated_pages + allocated / l.page_size;
        internal_used = if internal then h.internal_used + allocated else h.internal_used;
      }

  -- The new bytes are at most those of the request.
  allocated-le : down.vma.top - down.vma.bottom - down.freed ≤ end - addr
  allocated-le = omega (
    arith, up-MergesAbove.width, down-MergesBelow.width, up-MergesAbove.bottom, up-MergesAbove.top,
    down-MergesBelow.fits,
  )

  pub settle-pages :
      (internal ≡ true → end - addr ≤ l.internal_size - h.internal_used)
      → settle l addr internal up.rest down h ≡ (pages addr, settled)
  unfolding settle
  settle-pages limit = if_else _ _ _ (
      or-false (leb-false {a = down.vma.top} {b = down.vma.bottom} down-lt) (
        or-false
          (ltb-false {a = down.vma.top - down.vma.bottom} {b = down.freed}
            (omega (arith, down-MergesBelow.fits)))
          (in_limit internal (l.internal_size - h.internal_used) _
            (λ e. omega (arith, limit e, allocated-le)))))

  total_size-before : total_size h.vmas ≡ total_size above + total_size below
  total_size-before = ap total_size (sym cursor.list) ∙ total_size-onto above below

  -- The areas grow by the new bytes.
  pub total_size-settled :
      total_size settled.vmas ≡ total_size h.vmas + (down.vma.top - down.vma.bottom - down.freed)
  unfolding total_size
  total_size-settled = omega (
    arith,
    total_size-onto up.rest (down.vma ∷ down.rest),
    total_size-before,
    up-MergesAbove.total,
    down-MergesBelow.total,
    down-MergesBelow.fits,
  )

  pub settled-IsWell : IsWell l settled
  unfolding internal_size
  settled-IsWell = record {
    descending = merged-IsDescending;
    counted = omega (
      arith,
      counted,
      up-MergesAbove.count,
      down-MergesBelow.count,
      length-onto up.rest (down.vma ∷ down.rest),
    );
    internal =
        count_internal internal h.internal_used (down.vma.top - down.vma.bottom) up.freed down.freed
          (internal_size above) (internal_size below) (internal_size up.rest)
          (internal_size down.rest)
          (well.internal ∙ ap internal_size (sym cursor.list) ∙ internal_size-onto above below)
          (omega (arith, down-MergesBelow.fits)) up-MergesAbove.space
          (subst
            (λ k.
              internal_size below + (if k then up.freed else 0)
              ≡ internal_size down.rest + (if k then down.freed else 0))
            up-MergesAbove.kind down-MergesBelow.space)
        ∙ sym (
            internal_size-onto up.rest (down.vma ∷ down.rest)
            ∙ ap (λ k. internal_size up.rest + (size_if k down.vma + internal_size down.rest))
                (down-MergesBelow.kind ∙ up-MergesAbove.kind));
  }
