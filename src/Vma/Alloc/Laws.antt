-- ===== src/Vma/Alloc/Laws.antt =====
-- `alloc_vma` and the address space: what is mapped stays, and what is added is internal.
use graphene.Base.{
  ℕ, ◌+◌, ◌≡◌, refl, ap, Bool, true, false, none, some, arith, Result, ok, err, Option-cases, inl,
  inr, test_bit, bit,
}
use graphene.Vma.Types.{vma_internal}
use graphene.Vma.View.{view, mapping_at, Mapping, IsOrdered}
use graphene.Vma.Free.{view-IsFree}
use graphene.Vma.Remove.{Removal, vma_bkeep_remove}
use graphene.Vma.Remove.Laws.{vma_bkeep_remove-IsOrdered, view-vma_bkeep_remove}
use graphene.Vma.Space.{Config, Space, new_vma, align_up, bkeep_mmap_any}
use graphene.Vma.Space.Place.{Placed, bkeep_mmap_any_in_range-Placed, bkeep_mmap_any_in_range-err}
use graphene.Vma.Alloc.{
  Supply, pooled, enlarged, pool_request, undo, malloc_result, vma_malloc, alloc_vma,
}

-- The state `s'` maps all that `s` maps, and beyond that only internal areas.
pub record Extends (s s' : Space) : Type 0 where
  pub ordered : IsOrdered 0 s'.vmas
  pub kept : (a : ℕ) (m : Mapping) → view s.vmas a ≡ some m → view s'.vmas a ≡ some m
  pub added :
      (a : ℕ) (m : Mapping)
      → view s.vmas a ≡ none
      → view s'.vmas a ≡ some m
      → test_bit vma_internal m.flags ≡ true

Extends-refl : (s : Space) → IsOrdered 0 s.vmas → Extends s s
Extends-refl s o = record { ordered = o; kept = λ a m e. e; added = λ a m n e. cc }

Extends-same : (s s' : Space) → IsOrdered 0 s.vmas → s'.vmas ≡ s.vmas → Extends s s'
Extends-same s s' o e = record {
  ordered = rw e o;
  kept = λ a m h. rw e h;
  added = λ a m n h. cc (ap (λ vs. view vs a) e);
}

pub Extends-trans : (s t u : Space) → Extends s t → Extends t u → Extends s u
Extends-trans s t u x y = record {
  ordered = y.ordered;
  kept = λ a m e. y.kept a m (x.kept a m e);
  added = λ a m n e. elim (Option-cases (view t.vmas a)) [
    | inl h ↦ y.added a m h e
    | inr (k, h) ↦ x.added a m n (cc (y.kept a k h))
  ];
}

pool-internal :
    (b e a : ℕ) → test_bit vma_internal (mapping_at (new_vma pool_request b e) a).flags ≡ true
unfolding new_vma mapping_at bit
pool-internal b e a = refl

Placed-Extends :
    (bottom top length r : ℕ) (s s' : Space)
    → Placed bottom top length pool_request s s' r
    → Extends s s'
Placed-Extends bottom top length r s s' p = record {
  ordered = p.ordered;
  kept = λ a m e. ground (arith, p.mapped a, view-IsFree r (r + length) a s.vmas p.free);
  added = λ a m n e. ground (arith, p.mapped a, pool-internal r (r + length) a);
}

-- Taking the new mapping back restores the address space.
undo-Extends :
    (bottom top length r : ℕ) (s s' : Space)
    → IsOrdered 0 s.vmas
    → Placed bottom top length pool_request s s' r
    → (rm : Result Removal) → vma_bkeep_remove r (r + length) true false s'.vmas s'.refs ≡ rm
    → Extends s (undo s' rm)
unfolding undo
undo-Extends bottom top length r s s' o p (err x) e = Placed-Extends bottom top length r s s' p
undo-Extends bottom top length r s s' o p (ok rm) e = record {
  ordered =
      vma_bkeep_remove-IsOrdered r (r + length) true false s'.vmas s'.refs p.ordered
        (omega (arith, p.positive)) e;
  kept = λ a m h. ground (
    arith,
    view-vma_bkeep_remove r (r + length) a true false s'.vmas s'.refs p.ordered
        (omega (arith, p.positive)) e,
    p.mapped a,
    view-IsFree r (r + length) a s.vmas p.free,
  );
  added = λ a m n h. ground (
    arith,
    view-vma_bkeep_remove r (r + length) a true false s'.vmas s'.refs p.ordered
        (omega (arith, p.positive)) e,
    p.mapped a,
  );
}

malloc_result-Extends :
    (cfg : Config) (size : ℕ) (granted : Bool) (s : Space) (out : Result ℕ × Space)
    → IsOrdered 0 s.vmas
    → bkeep_mmap_any cfg (λ t. (true, t)) size pool_request s ≡ out
    → Extends s (malloc_result cfg size granted out).1
unfolding malloc_result bkeep_mmap_any
malloc_result-Extends cfg size granted s (err x, s') o e =
    Extends-same s s' o
      (elim (bkeep_mmap_any_in_range-err cfg (λ t. (true, t)) cfg.user_start cfg.user_end size
        pool_request s e) [ inl h ↦ h | inr h ↦ h ])
malloc_result-Extends cfg size true s (ok r, s') o e = Placed-Extends cfg.user_start _ size r s s' (
    bkeep_mmap_any_in_range-Placed cfg (λ t. (true, t)) cfg.user_start cfg.user_end size
      pool_request s o e)
malloc_result-Extends cfg size false s (ok r, s') o e =
    undo-Extends cfg.user_start _ size r s s' o
      (bkeep_mmap_any_in_range-Placed cfg (λ t. (true, t)) cfg.user_start cfg.user_end size
        pool_request s o e)
      (vma_bkeep_remove r (r + size) true false s'.vmas s'.refs) refl

pub alloc_vma-Extends :
    (cfg : Config) (supply : Supply) (s : Space)
    → IsOrdered 0 s.vmas
    → Extends s (alloc_vma cfg supply s).1
unfolding alloc_vma vma_malloc
alloc_vma-Extends cfg pooled s o = Extends-refl s o
alloc_vma-Extends cfg (enlarged size granted) s o =
    malloc_result-Extends cfg (align_up cfg size) granted s _ o refl

-- Whatever an `alloc_vma` meets, what is mapped before it is mapped after it.
pub alloc_vma-kept :
    (cfg : Config) (supply : Supply) (s : Space) (a : ℕ) (m : Mapping)
    → IsOrdered 0 s.vmas
    → view s.vmas a ≡ some m
    → view (alloc_vma cfg supply s).1.vmas a ≡ some m
alloc_vma-kept cfg supply s a m o e = (alloc_vma-Extends cfg supply s o).kept a m e

-- What is mapped only after an `alloc_vma` belongs to an internal area.
pub alloc_vma-added :
    (cfg : Config) (supply : Supply) (s : Space) (a : ℕ) (m : Mapping)
    → IsOrdered 0 s.vmas
    → view s.vmas a ≡ none
    → view (alloc_vma cfg supply s).1.vmas a ≡ some m
    → test_bit vma_internal m.flags ≡ true
alloc_vma-added cfg supply s a m o n e = (alloc_vma-Extends cfg supply s o).added a m n e
