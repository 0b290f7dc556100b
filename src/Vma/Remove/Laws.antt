-- ===== src/Vma/Remove/Laws.antt =====
-- `_vma_bkeep_remove` against the address space as a partial function.
use graphene.Base.{
  ℕ, ◌≤◌, ◌<◌, ◌≡◌, Bool, none, List, [], ◌∷◌, ◌++◌, if◌then◌else◌, ok, arith, Bool-cases, inl, inr,
  subst, ok-injective,
}
use mathlib.Core.List.{append-nil}
use graphene.Vma.Types.{Vma, Refs}
use graphene.Vma.Tree.{lookup}
use graphene.Vma.View.{
  view, IsOrdered, last_end, EndsAbove, view-above, IsOrdered-append_left, IsOrdered-append_right,
  lookup-append, last_end-lookup, lookup-EndsAbove,
}
use graphene.Vma.Remove.{Removal, kinds_agree, remove_after, vma_bkeep_remove}
use graphene.Vma.Remove.Effect.{within, remove_found-IsCleared}

-- The removal, once the cursor is known: `before ++ after` is the tree.
record Clears (begin end : ℕ) (vmas : List Vma) (r : Removal) : Type 0 where
  pub ordered : IsOrdered 0 r.vmas
  pub cleared : (a : ℕ) → view r.vmas a ≡ (if within begin end a then none else view vmas a)

remove_after-Clears :
    (begin end : ℕ) (internal spare : Bool) (refs : Refs) (before after : List Vma) {r : Removal}
    → IsOrdered 0 (before ++ after)
    → last_end 0 before ≤ begin
    → EndsAbove begin after
    → begin < end
    → remove_after begin end internal spare refs before after ≡ ok r
    → Clears begin end (before ++ after) r
unfolding remove_after
remove_after-Clears begin end internal spare refs before [] o h above lt e =
    subst (Clears begin end (before ++ [])) (ok-injective e) (record {
      ordered = rw append-nil at o;
      cleared = λ a. rw append-nil (ground (arith, view-above 0 before a (rw append-nil at o)));
    })
remove_after-Clears begin end internal spare refs before (v ∷ rest) o h above lt e =
    elim (Bool-cases (kinds_agree end internal (v ∷ rest))) [
      | inr k ↦ absurd (cc (rw k at e))
      | inl k ↦
          let c =
            remove_found-IsCleared 0 begin end before v rest
              (IsOrdered-append_left 0 before (v ∷ rest) o) h
              (IsOrdered-append_right 0 before (v ∷ rest) o) above lt spare refs (rw k at e) in
          record { ordered = c.ordered; cleared = c.cleared }
    ]

vma_bkeep_remove-Clears :
    (begin end : ℕ) (internal spare : Bool) (vmas : List Vma) (refs : Refs) {r : Removal}
    → IsOrdered 0 vmas
    → begin < end
    → vma_bkeep_remove begin end internal spare vmas refs ≡ ok r
    → Clears begin end vmas r
unfolding vma_bkeep_remove
vma_bkeep_remove-Clears begin end internal spare vmas refs {r} o lt e =
    subst (λ vs. Clears begin end vs r) (lookup-append begin vmas)
      (remove_after-Clears begin end internal spare refs (lookup begin vmas).0 (lookup begin vmas).1
        (rw lookup-append o) (last_end-lookup 0 begin vmas o (omega arith))
        (lookup-EndsAbove begin vmas) lt e)

-- A removal that succeeds leaves a well-formed tree.
pub vma_bkeep_remove-IsOrdered :
    (begin end : ℕ) (internal spare : Bool) (vmas : List Vma) (refs : Refs) {r : Removal}
    → IsOrdered 0 vmas
    → begin < end
    → vma_bkeep_remove begin end internal spare vmas refs ≡ ok r
    → IsOrdered 0 r.vmas
vma_bkeep_remove-IsOrdered begin end internal spare vmas refs o lt e =
    (vma_bkeep_remove-Clears begin end internal spare vmas refs o lt e).ordered

-- A removal that succeeds unmaps exactly the addresses from `begin` up to `end`.
pub view-vma_bkeep_remove :
    (begin end a : ℕ) (internal spare : Bool) (vmas : List Vma) (refs : Refs) {r : Removal}
    → IsOrdered 0 vmas
    → begin < end
    → vma_bkeep_remove begin end internal spare vmas refs ≡ ok r
    → view r.vmas a ≡ (if within begin end a then none else view vmas a)
view-vma_bkeep_remove begin end a internal spare vmas refs o lt e =
    (vma_bkeep_remove-Clears begin end internal spare vmas refs o lt e).cleared a
