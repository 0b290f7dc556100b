-- ===== src/Heap/Free.antt =====
-- `free_enclave_pages`
use mathlib.Core.Bool.{xor}
use graphene.Base.{
  ℕ, ◌+◌, ◌-◌, ◌/◌, ◌%◌, Bool, false, not, ◌&&◌, ◌||◌, Option, none, some, List, [], ◌∷◌, ltb, leb,
  ◌==◌, if◌then◌else◌, min, max, Errno, einval, enomem,
}
use graphene.Heap.{HeapVma, Limits, Heap, add_ptr, align_up, access_ok, alloc_vma, free_vma}

-- The variables of the loop, `kind` for the two of them that say which type has been met first, and
-- the list as the loop leaves it.
pub record Freeing : Type 0 where
  pub ret : Option Errno
  pub vmas : List HeapVma
  pub num : ℕ
  pub kind : Option Bool
  pub freed : ℕ

abbrev pub mixes : Option Bool → Bool → Bool
mixes none internal = false
mixes (some kind) internal = xor kind internal

-- What is left of an area behind the freed range, and in front of it.
abbrev pub upper_part : ℕ → HeapVma → List HeapVma → List HeapVma
upper_part end v rest = if leb v.top end then rest else record v { bottom = end } ∷ rest

abbrev pub lower_part : ℕ → HeapVma → List HeapVma → List HeapVma
lower_part addr v rest = if ltb v.bottom addr then record v { top = addr } ∷ rest else rest

-- The objects in use after the split, if one is needed.
unfoldable pub split_num : Limits → ℕ → HeapVma → ℕ → Option ℕ
unfolding alloc_vma
split_num l addr v num = if ltb v.bottom addr then alloc_vma l num else some num

abbrev pub keep_area : HeapVma → Freeing → Freeing
keep_area v r = record r { vmas = v ∷ r.vmas }

abbrev pub cut_area : ℕ → ℕ → HeapVma → Freeing → Freeing
cut_area addr end v r = record r { vmas = upper_part end v (lower_part addr v r.vmas) }

-- The loop ends in front of the areas that are still to come.
abbrev pub stop_at : Option Errno → List HeapVma → ℕ → Option Bool → ℕ → Freeing
stop_at ret vmas num kind freed = record {
  ret = ret;
  vmas = vmas;
  num = num;
  kind = kind;
  freed = freed;
}

-- The loop over the list.
unfoldable pub free_loop : Limits → ℕ → ℕ → List HeapVma → ℕ → Option Bool → ℕ → Freeing
unfolding split_num
free_loop l addr end [] num kind freed = stop_at none [] num kind freed
free_loop l addr end (v ∷ vmas) num kind freed =
    let later = free_loop l addr end vmas num kind freed in
    let freed' = freed + (min v.top end - max v.bottom addr) in
    let cut = λ (num' : ℕ). cut_area addr end v (
      free_loop l addr end vmas (if leb v.top end then free_vma num' else num')
        (some v.is_pal_internal) freed') in
    if leb end v.bottom
    then keep_area v later
    else if leb v.top addr
    then stop_at none (v ∷ vmas) num kind freed
    else if mixes kind v.is_pal_internal
    then stop_at (some einval) (v ∷ vmas) num kind freed
    else elim (split_num l addr v num) [
      | none ↦ stop_at (some enomem) (v ∷ vmas) num (some v.is_pal_internal) freed'
      | some num' ↦ cut num'
    ]

abbrev pub is_internal_kind : Option Bool → Bool
is_internal_kind none = false
is_internal_kind (some internal) = internal

-- What `free_enclave_pages` does: it returns an error or none, ends the enclave by an assertion, or
-- waits forever for a lock that nobody releases.
pub data FreeReply : Type 0 where
  answers : Option Errno → FreeReply
  free_exits free_blocks : FreeReply

-- The end of `free_enclave_pages`: the counters, with the assertion on the PAL-internal one.
unfoldable pub free_result : Limits → Heap → Freeing → FreeReply × Heap
free_result l h r =
    let changed = record h { vmas = r.vmas; vma_num = r.num } in
    let counted = record changed { allocated_pages = h.allocated_pages - r.freed / l.page_size } in
    elim r.ret [
      | some e ↦ (answers (some e), changed)
      | none ↦
          if is_internal_kind r.kind && ltb h.internal_used r.freed
          then (free_exits, counted)
          else (
            answers none,
            record counted {
              internal_used =
                  if is_internal_kind r.kind then h.internal_used - r.freed else h.internal_used;
            },
          )
    ]

unfoldable pub free_aligned : Limits → ℕ → ℕ → Heap → FreeReply × Heap
unfolding free_loop free_result
free_aligned l addr size h =
    if not (access_ok addr size)
      || (not (addr % l.page_size == 0)
          || (ltb addr l.heap_bottom || ltb l.heap_top (add_ptr addr size)))
    then (answers (some einval), h)
    else if h.locked
    then (free_blocks, h)
    else free_result l h (free_loop l addr (add_ptr addr size) h.vmas h.vma_num none 0)

-- `free_enclave_pages`; the lock, which it takes after the checks of the range, is free at the end.
unfoldable pub free_enclave_pages : Limits → ℕ → ℕ → Heap → FreeReply × Heap
unfolding free_aligned
free_enclave_pages l addr size h =
    if size == 0
    then (answers (some enomem), h)
    else free_aligned l addr (align_up size l.page_size) h
