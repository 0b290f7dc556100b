-- ===== src/Heap/Return/Whole.antt =====
-- `free_enclave_pages` as a whole, where it succeeds.
use graphene.Base.{
  ℕ, ◌+◌, ◌/◌, ◌-◌, ◌^◌, ◌%◌, ◌≤◌, ◌<◌, ◌≡◌, refl, sym, ap, subst, Bool, true, false, not, ◌&&◌,
  ltb-false, ◌||◌, ◌⊎◌, inl, inr, Option, none, some, ltb, ◌==◌, if◌then◌else◌, ◌∙◌, arith, if_else,
}
use graphene.Heap.{Limits, Heap, add_ptr, align_up, access_ok}
use graphene.Heap.View.{owner_at, IsWell, internal_size, total_size}
use graphene.Heap.Free.{
  Freeing, FreeReply, answers, free_exits, free_result, free_aligned, free_enclave_pages,
  is_internal_kind, free_loop,
}
use graphene.Heap.Release.{released, IsReleased}
use graphene.Heap.Return.{AllSuit, free_loop-IsReleased}
use graphene.Heap.Cursor.{add_ptr-small}

-- A range that has been given back: a well-formed heap in which nobody owns it, and the count of
-- pages has fallen by those that the areas have lost.
pub record IsFreed (l : Limits) (addr end : ℕ) (h : Heap) (r : FreeReply × Heap) : Type 0 where
  pub reply : r.0 ≡ answers none
  pub unlocked : r.1.locked ≡ h.locked
  pub well : IsWell l r.1
  pub owner : (a : ℕ) → owner_at r.1.vmas a ≡ released addr end (owner_at h.vmas a) a
  pub shrinks : total_size r.1.vmas ≤ total_size h.vmas
  pub allocated :
      r.1.allocated_pages
      ≡ h.allocated_pages - (total_size h.vmas - total_size r.1.vmas) / l.page_size

internal_left :
    (k : Bool) (kind start : Option Bool) (used freed left : ℕ)
    → (kind ≡ some k) ⊎ ((kind ≡ none) × (start ≡ none) × (freed ≡ 0))
    → left + (if k then freed - 0 else 0) ≡ used
    → (if is_internal_kind kind then used - freed else used) ≡ left
internal_left k kind start used freed left (inl e) p = rw e (left_some k p)
  where
    left_some :
        (k : Bool)
        → left + (if k then freed - 0 else 0) ≡ used
        → (if k then used - freed else used) ≡ left
    left_some true p = omega arith
    left_some false p = omega arith
internal_left k kind start used freed left (inr e) p = rw (e.0) (ground (arith, e.2))

-- The assertion: no more PAL-internal bytes are given back than are in use.
internal_enough :
    (k : Bool) (kind start : Option Bool) (used freed left : ℕ)
    → (kind ≡ some k) ⊎ ((kind ≡ none) × (start ≡ none) × (freed ≡ 0))
    → left + (if k then freed - 0 else 0) ≡ used
    → (is_internal_kind kind && ltb used freed) ≡ false
internal_enough k kind start used freed left (inl e) p = rw e (enough_some k p)
  where
    enough_some :
        (k : Bool) → left + (if k then freed - 0 else 0) ≡ used → (k && ltb used freed) ≡ false
    enough_some true p = ltb-false {a = used} {b = freed} (omega arith)
    enough_some false p = refl
internal_enough k kind start used freed left (inr e) p = rw (e.0) refl

-- The heap after the loop, where it has met no error.
abbrev freed_heap : Limits → Heap → Freeing → Heap
freed_heap l h r = record h {
  vmas = r.vmas;
  vma_num = r.num;
  allocated_pages = h.allocated_pages - r.freed / l.page_size;
  internal_used = if is_internal_kind r.kind then h.internal_used - r.freed else h.internal_used;
}

free_result-none :
    (l : Limits) (h : Heap) (r : Freeing)
    → r.ret ≡ none
    → (is_internal_kind r.kind && ltb h.internal_used r.freed) ≡ false
    → free_result l h r ≡ (answers none, freed_heap l h r)
unfolding free_result
free_result-none l h r e enough =
    ap
      (λ o. elim o [
        | some e ↦ (answers (some e), record h { vmas = r.vmas; vma_num = r.num })
        | none ↦
            if is_internal_kind r.kind && ltb h.internal_used r.freed
            then (
              free_exits,
              record h {
                vmas = r.vmas;
                vma_num = r.num;
                allocated_pages = h.allocated_pages - r.freed / l.page_size;
              },
            )
            else (answers none, freed_heap l h r)
      ])
      e
    ∙ if_else (is_internal_kind r.kind && ltb h.internal_used r.freed) _ _ enough

free_result-IsFreed :
    (l : Limits) (addr end : ℕ) (k : Bool) (h : Heap) (r : Freeing)
    → IsWell l h
    → IsReleased l.heap_bottom l.heap_top addr end k h.vmas h.vma_num none 0 r
    → IsFreed l addr end h (free_result l h r)
free_result-IsFreed l addr end k h r w f =
    subst (IsFreed l addr end h)
      (sym (
        free_result-none l h r f.ret (
          internal_enough k r.kind none h.internal_used r.freed (internal_size r.vmas) f.known
            (f.space ∙ sym w.internal))))
      (record {
        reply = refl;
        unlocked = refl;
        well = record {
          descending = f.descending;
          counted = omega (arith, f.count, w.counted);
          internal =
              internal_left k r.kind none h.internal_used r.freed (internal_size r.vmas) f.known
                (f.space ∙ sym w.internal);
        };
        owner = f.owner;
        shrinks = omega (arith, f.total);
        allocated = ap (λ n. h.allocated_pages - n / l.page_size) (omega (arith, f.total));
      })

-- The check of the range passes.
range_ok :
    (l : Limits) (addr n : ℕ)
    → addr % l.page_size ≡ 0
    → l.heap_bottom ≤ addr
    → addr + n ≤ l.heap_top
    → l.heap_top < 2 ^ 64
    → (not (access_ok addr n)
        || (not (addr % l.page_size == 0)
            || (ltb addr l.heap_bottom || ltb l.heap_top (add_ptr addr n))))
      ≡ false
range_ok l addr n e p q w = rw (add_ptr-small addr n (omega arith)) (ground (arith, e))

pub free_aligned-step :
    (l : Limits) (addr n : ℕ) (h : Heap)
    → h.locked ≡ false
    → addr % l.page_size ≡ 0
    → l.heap_bottom ≤ addr
    → addr + n ≤ l.heap_top
    → l.heap_top < 2 ^ 64
    → free_aligned l addr n h
      ≡ free_result l h (free_loop l addr (addr + n) h.vmas h.vma_num none 0)
unfolding free_aligned
free_aligned-step l addr n h free e p q w =
    if_else _ _ _ (range_ok l addr n e p q w)
    ∙ if_else h.locked _ _ free
    ∙ ap (λ end. free_result l h (free_loop l addr end h.vmas h.vma_num none 0))
        (add_ptr-small addr n (omega arith))

-- On a well-formed heap with the lock free and a free area object, a range of whole pages inside the
-- heap that meets areas of one type at most is given back: the call succeeds, the heap is well formed
-- again with its lock free, nobody owns an address of the range, every other address has the owner
-- that it had, and the count of pages falls by those that the areas have lost.
pub free_enclave_pages-IsFreed :
    (l : Limits) (addr size : ℕ) (k : Bool) (h : Heap)
    → IsWell l h
    → h.locked ≡ false
    → 0 < size
    → 0 < align_up size l.page_size
    → addr % l.page_size ≡ 0
    → l.heap_bottom ≤ addr
    → addr + align_up size l.page_size ≤ l.heap_top
    → l.heap_top < 2 ^ 64
    → h.vma_num < l.max_vmas
    → AllSuit addr (addr + align_up size l.page_size) k h.vmas
    → IsFreed l addr (addr + align_up size l.page_size) h (free_enclave_pages l addr size h)
unfolding free_enclave_pages
free_enclave_pages-IsFreed l addr size k h w free pos pos' e p q word room f =
    subst (IsFreed l addr (addr + align_up size l.page_size) h)
      (sym (
        if_else (size == 0) _ _ (ground (arith, pos))
        ∙ free_aligned-step l addr (align_up size l.page_size) h free e p q word))
      (free_result-IsFreed l addr (addr + align_up size l.page_size) k h _ w (
        free_loop-IsReleased l addr (addr + align_up size l.page_size) k (omega (arith, pos'))
          l.heap_bottom l.heap_top h.vmas h.vma_num none 0 w.descending f (inr refl)
          (omega (arith, w.counted)) (inl room)))
