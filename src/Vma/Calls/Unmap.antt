-- ===== src/Vma/Calls/Unmap.antt =====
-- `bkeep_munmap` and `bkeep_remove_tmp_vma`: the range is reserved first, and then free.
use graphene.Base.{
  ℕ, ◌+◌, ◌^◌, ◌<◌, ◌≡◌, sym, ap, Bool, none, some, if◌then◌else◌, arith, ok, subst, Result-cases,
  inl, inr, ok-injective,
}
use graphene.Vma.Types.{Vma, add64}
use graphene.Vma.Tree.{insert}
use graphene.Vma.View.{view, mapping_at, IsOrdered}
use graphene.Vma.Free.{IsFree, IsFree-view, insert-IsOrdered, view-insert, delete-insert}
use graphene.Vma.Remove.{Removal, vma_bkeep_remove}
use graphene.Vma.Remove.Effect.{within}
use graphene.Vma.Remove.Laws.{vma_bkeep_remove-IsOrdered, view-vma_bkeep_remove}
use graphene.Vma.Space.{Config, Space}
use graphene.Vma.Alloc.{Supply, alloc_vma}
use graphene.Vma.Alloc.Laws.{Extends, alloc_vma-Extends, Extends-trans}
use graphene.Vma.Calls.{bad_range, unmapped_vma, munmap_removed, bkeep_munmap, bkeep_remove_tmp_vma}

-- The state after the two calls of `alloc_vma` that a call begins with.
abbrev pub after_allocs : Config → Supply → Supply → Space → Space
after_allocs cfg supply1 supply2 s = (alloc_vma cfg supply2 (alloc_vma cfg supply1 s).1).1

pub after_allocs-Extends :
    (cfg : Config) (supply1 supply2 : Supply) (s : Space)
    → IsOrdered 0 s.vmas
    → Extends s (after_allocs cfg supply1 supply2 s)
after_allocs-Extends cfg supply1 supply2 s o =
    let x = alloc_vma-Extends cfg supply1 s o in
    Extends-trans s (alloc_vma cfg supply1 s).1 (after_allocs cfg supply1 supply2 s) x
      (alloc_vma-Extends cfg supply2 (alloc_vma cfg supply1 s).1 x.ordered)

-- A range reserved by an unmapping, and what releases it.
pub record Reserved (begin end : ℕ) (s s' : Space) (tmp : Vma) : Type 0 where
  pub ordered : IsOrdered 0 s'.vmas
  pub reserved :
      (a : ℕ)
      → view s'.vmas a ≡ (
          if within begin end a
          then some (mapping_at (unmapped_vma begin end) a)
          else view s.vmas a)
  pub released :
      (a : ℕ)
      → view (bkeep_remove_tmp_vma tmp s').vmas a
        ≡ (if within begin end a then none else view s.vmas a)
  pub released_ordered : IsOrdered 0 (bkeep_remove_tmp_vma tmp s').vmas

reserve :
    (begin end : ℕ) (internal spare : Bool) (s s' : Space) (r : Removal)
    → IsOrdered 0 s.vmas
    → begin < end
    → vma_bkeep_remove begin end internal spare s.vmas s.refs ≡ ok r
    → s'.vmas ≡ insert (unmapped_vma begin end) r.vmas
    → Reserved begin end s s' (unmapped_vma begin end)
unfolding bkeep_remove_tmp_vma unmapped_vma
reserve begin end internal spare s s' r o lt h eq =
    let ordered = vma_bkeep_remove-IsOrdered begin end internal spare s.vmas s.refs o lt h in
    let cleared =
      λ (a : ℕ). view-vma_bkeep_remove begin end a internal spare s.vmas s.refs o lt h in
    let free : IsFree begin end r.vmas =
      IsFree-view 0 begin end r.vmas ordered lt (λ a ge l. ground (arith, cleared a)) in
    let back = delete-insert 0 (unmapped_vma begin end) r.vmas ordered free lt in
    record {
      ordered =
          rw eq (insert-IsOrdered 0 (unmapped_vma begin end) r.vmas ordered free (omega arith) lt);
      reserved = λ a.
          rw eq (ground (arith, view-insert (unmapped_vma begin end) r.vmas a free, cleared a));
      released = λ a. rw (eq, back) (cleared a);
      released_ordered = rw (eq, back) ordered;
    }

munmap_removed-Reserved :
    (begin end : ℕ) (internal spare : Bool) (s : Space) {tmp : Vma} {s' : Space}
    → IsOrdered 0 s.vmas
    → begin < end
    → munmap_removed begin end s (vma_bkeep_remove begin end internal spare s.vmas s.refs)
      ≡ (ok tmp, s')
    → Reserved begin end s s' tmp
unfolding munmap_removed
munmap_removed-Reserved begin end internal spare s {tmp} {s'} o lt e =
    elim (Result-cases (vma_bkeep_remove begin end internal spare s.vmas s.refs)) [
      | inr (x, h) ↦ absurd (cc (rw (h, munmap_removed) at e))
      | inl (r, h) ↦
          subst (λ (t : Vma). Reserved begin end s s' t)
            (ok-injective (ap (λ p. p.0) (rw (h, munmap_removed) at e)))
            (reserve begin end internal spare s s' r o lt h
              (ap (λ p. p.1.vmas) (sym (rw (h, munmap_removed) at e))))
    ]

-- `bkeep_munmap` that succeeds reserves the range for the caller, whatever was mapped there, and
-- `bkeep_remove_tmp_vma` then leaves it unmapped; all other addresses are as after the two
-- allocations. The range must not wrap round the address space.
pub bkeep_munmap-Reserved :
    (cfg : Config) (supply1 supply2 : Supply) (addr length : ℕ) (internal : Bool) (s : Space)
    {tmp : Vma} {s' : Space}
    → IsOrdered 0 s.vmas
    → addr + length < 2 ^ 64
    → bkeep_munmap cfg supply1 supply2 addr length internal s ≡ (ok tmp, s')
    → Reserved addr (addr + length) (after_allocs cfg supply1 supply2 s) s' tmp
unfolding bkeep_munmap bad_range
bkeep_munmap-Reserved cfg supply1 supply2 addr length internal s {tmp} {s'} o bound e =
    let same : add64 addr length ≡ addr + length = omega arith in
    munmap_removed-Reserved addr (addr + length) internal
      (alloc_vma cfg supply2 (alloc_vma cfg supply1 s).1).0 (after_allocs cfg supply1 supply2 s)
      (after_allocs-Extends cfg supply1 supply2 s o).ordered (ground (arith, e))
      (ground (arith, same))
