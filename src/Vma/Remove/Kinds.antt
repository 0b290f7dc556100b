-- ===== src/Vma/Remove/Kinds.antt =====
-- When `_vma_bkeep_remove` refuses: never for lack of kinds, never with a spare area otherwise.
use mathlib.Core.Bool.{xor}
use graphene.Base.{
  ℕ, ◌≤◌, ◌<◌, ◌≡◌, Bool, true, false, some, List, [], ◌∷◌, ◌++◌, ok, err, eacces, arith,
  Bool-cases, inl, inr, max, test_bit, subst, ◌⊎◌, Errno, Result-cases,
}
use graphene.Vma.Types.{Vma, Refs, is_internal, vma_internal}
use graphene.Vma.Tree.{lookup}
use graphene.Vma.View.{
  view, mapping_at, Mapping, IsOrdered, last_end, EndsAbove, view-above, view-append, view-below,
  IsOrdered-append_left, IsOrdered-append_right, lookup-append, last_end-lookup, lookup-EndsAbove,
  IsOrdered-EndsAbove,
}
use graphene.Vma.Remove.{Removal, kinds_agree, remove_found, remove_after, vma_bkeep_remove}
use graphene.Vma.Remove.Effect.{within}

-- A mapped address between `begin` and `end` whose area is of the wrong kind.
pub record Wrong (begin end : ℕ) (internal : Bool) (vmas : List Vma) : Type 0 where
  pub address : ℕ
  pub mapping : Mapping
  pub inside : within begin end address ≡ true
  pub mapped : view vmas address ≡ some mapping
  pub differs : xor (test_bit vma_internal mapping.flags) internal ≡ true

kinds_agree-Wrong :
    (lo begin end : ℕ) (internal : Bool) (vs : List Vma)
    → IsOrdered lo vs
    → EndsAbove begin vs
    → begin < end
    → kinds_agree end internal vs ≡ false
    → Wrong begin end internal vs
unfolding kinds_agree view mapping_at
kinds_agree-Wrong lo begin end internal [] o h lt e = absurd (cc)
kinds_agree-Wrong lo begin end internal (v ∷ vs) o h lt e =
    elim (Bool-cases (xor (is_internal v) internal)) [
      | inl x ↦ record {
        address = max begin v.begin;
        mapping = mapping_at v (max begin v.begin);
        inside = ground arith;
        mapped = ground arith;
        differs = x;
      }
      | inr x ↦
          let w =
            kinds_agree-Wrong v.end begin end internal vs o.2
              (IsOrdered-EndsAbove v.end begin vs o.2 (omega arith)) lt (ground arith) in
          record {
            address = w.address;
            mapping = w.mapping;
            inside = w.inside;
            mapped = ground (arith, view-below v.end vs w.address o.2, w.mapped);
            differs = w.differs;
          }
    ]

-- Where the kinds agree, they agree at every mapped address.
kinds_agree-view :
    (lo end a : ℕ) (internal : Bool) (vs : List Vma) (m : Mapping)
    → IsOrdered lo vs
    → kinds_agree end internal vs ≡ true
    → a < end
    → view vs a ≡ some m
    → xor (test_bit vma_internal m.flags) internal ≡ false
unfolding kinds_agree view mapping_at
kinds_agree-view lo end a internal [] m o k h e = absurd (cc)
kinds_agree-view lo end a internal (v ∷ vs) m o k h e =
    ground (arith, kinds_agree-view v.end end a internal vs m o.2, view-below v.end vs a o.2)

-- The front of the tree maps nothing in the range, so what is wrong lies behind the cursor.
Wrong-append :
    (begin end : ℕ) (internal : Bool) (before after : List Vma)
    → IsOrdered 0 before
    → last_end 0 before ≤ begin
    → Wrong begin end internal after
    → Wrong begin end internal (before ++ after)
Wrong-append begin end internal before after o h w = record {
  address = w.address;
  mapping = w.mapping;
  inside = w.inside;
  mapped = rw (view-append, view-above 0 before w.address o (ground (arith, w.inside))) w.mapped;
  differs = w.differs;
}

remove_after-eacces :
    (begin end : ℕ) (internal spare : Bool) (refs : Refs) (before after : List Vma)
    → IsOrdered 0 (before ++ after)
    → last_end 0 before ≤ begin
    → EndsAbove begin after
    → begin < end
    → remove_after begin end internal spare refs before after ≡ err eacces
    → Wrong begin end internal (before ++ after)
unfolding remove_after remove_found
remove_after-eacces begin end internal spare refs before [] o h above lt e = absurd (cc)
remove_after-eacces begin end internal spare refs before (v ∷ rest) o h above lt e =
    Wrong-append begin end internal before (v ∷ rest) (IsOrdered-append_left 0 before (v ∷ rest) o)
      h
      (kinds_agree-Wrong (last_end 0 before) begin end internal (v ∷ rest)
        (IsOrdered-append_right 0 before (v ∷ rest) o) above lt (ground arith))

-- A removal is refused with EACCES only if some mapped address of the range belongs to an area
-- of the other kind: a user area for an internal caller, an internal one for a user.
pub vma_bkeep_remove-eacces :
    (begin end : ℕ) (internal spare : Bool) (vmas : List Vma) (refs : Refs)
    → IsOrdered 0 vmas
    → begin < end
    → vma_bkeep_remove begin end internal spare vmas refs ≡ err eacces
    → Wrong begin end internal vmas
unfolding vma_bkeep_remove
vma_bkeep_remove-eacces begin end internal spare vmas refs o lt e =
    subst (λ vs. Wrong begin end internal vs) (lookup-append begin vmas)
      (remove_after-eacces begin end internal spare refs (lookup begin vmas).0 (lookup begin vmas).1
        (rw lookup-append o) (last_end-lookup 0 begin vmas o (omega arith))
        (lookup-EndsAbove begin vmas) lt e)

remove_after-err :
    (begin end : ℕ) (internal : Bool) (refs : Refs) (before after : List Vma) {e : Errno}
    → remove_after begin end internal true refs before after ≡ err e
    → e ≡ eacces
unfolding remove_after remove_found
remove_after-err begin end internal refs before [] h = absurd (cc)
remove_after-err begin end internal refs before (v ∷ rest) h = ground arith

-- With a spare area at hand a removal succeeds, unless some mapped address of the range belongs to
-- an area of the other kind.
pub vma_bkeep_remove_total :
    (begin end : ℕ) (internal : Bool) (vmas : List Vma) (refs : Refs)
    → IsOrdered 0 vmas
    → begin < end
    → ((r : Removal) × (vma_bkeep_remove begin end internal true vmas refs ≡ ok r))
      ⊎ Wrong begin end internal vmas
unfolding vma_bkeep_remove
vma_bkeep_remove_total begin end internal vmas refs o lt =
    elim (Result-cases (vma_bkeep_remove begin end internal true vmas refs)) [
      | inl h ↦ inl h
      | inr (x, h) ↦ inr (
          vma_bkeep_remove-eacces begin end internal true vmas refs o lt (
            rw
              (← remove_after-err begin end internal refs (lookup begin vmas).0
                (lookup begin vmas).1 h)
              h))
    ]

remove_after-kind :
    (begin end a : ℕ) (internal spare : Bool) (refs : Refs) (before after : List Vma) (m : Mapping)
    {r : Removal}
    → IsOrdered 0 (before ++ after)
    → last_end 0 before ≤ begin
    → begin ≤ a
    → a < end
    → remove_after begin end internal spare refs before after ≡ ok r
    → view (before ++ after) a ≡ some m
    → xor (test_bit vma_internal m.flags) internal ≡ false
unfolding remove_after view
remove_after-kind begin end a internal spare refs before [] m o h ge lt e mapped = absurd (
    cc (
      view-append before [] a,
      view-above 0 before a (IsOrdered-append_left 0 before [] o) (omega arith),
    ))
remove_after-kind begin end a internal spare refs before (v ∷ rest) m o h ge lt e mapped =
    kinds_agree-view (last_end 0 before) end a internal (v ∷ rest) m
      (IsOrdered-append_right 0 before (v ∷ rest) o) (ground arith) lt
      (cc (
        view-append before (v ∷ rest) a,
        view-above 0 before a (IsOrdered-append_left 0 before (v ∷ rest) o) (omega arith),
      ))

-- A removal that succeeds meets only areas of the caller's kind.
pub vma_bkeep_remove-kind :
    (begin end a : ℕ) (internal spare : Bool) (vmas : List Vma) (refs : Refs) (m : Mapping)
    {r : Removal}
    → IsOrdered 0 vmas
    → begin ≤ a
    → a < end
    → vma_bkeep_remove begin end internal spare vmas refs ≡ ok r
    → view vmas a ≡ some m
    → xor (test_bit vma_internal m.flags) internal ≡ false
unfolding vma_bkeep_remove
vma_bkeep_remove-kind begin end a internal spare vmas refs m o ge lt e mapped =
    remove_after-kind begin end a internal spare refs (lookup begin vmas).0 (lookup begin vmas).1 m
      (rw lookup-append o) (last_end-lookup 0 begin vmas o (omega arith)) ge lt e
      (rw lookup-append mapped)
