-- ===== src/Vma/Change/Laws.antt =====
-- `_vma_bkeep_change` against the rights at each address.
use graphene.Base.{ℕ, ◌≤◌, ◌<◌, ◌≡◌, ap, ◌∙◌, Bool, false, List, [], ◌∷◌, ◌++◌, arith, subst, sym}
use mathlib.Core.List.{append_assoc}
use graphene.Vma.Types.{Vma, Refs, split_vma, vma_update_prot}
use graphene.Vma.Tree.{insert}
use graphene.Vma.View.{IsOrdered, last_end, last_end-append, view-below, IsOrdered-append}
use graphene.Vma.Change.{Changed, update_range, insert?, change_rest, split_tail}
use graphene.Vma.Change.Rights.{rights_at}
use graphene.Vma.Change.Update.{updated, updated-IsOrdered, rights_at-updated, insert?-updated}
use graphene.Vma.Change.Cut
use graphene.Vma.Change.Cut.{changed-injective, changed_rights, IsChanged}

-- What a change leaves, at any cursor.
pub record Changes (begin end prot : ℕ) (old : List Vma) (r : Changed) : Type 0 where
  pub ordered : IsOrdered 0 r.vmas
  pub rights : (a : ℕ) → rights_at r.vmas a ≡ changed_rights begin end prot a (rights_at old a)

module _ (begin end prot : ℕ) (before : List Vma) (v : Vma) (rest : List Vma)
    (ob : IsOrdered 0 before) (lb : last_end 0 before ≤ begin)
    (ov : IsOrdered (last_end 0 before) (v ∷ rest)) (hv : begin < v.end) (he : begin < end) where
  abbrev pub Holds : List Vma → Type 0
  Holds = IsChanged 0 begin end prot before v rest ob lb ov hv he

  pub to_Changes : (r : Changed) → Holds r.vmas → Changes begin end prot (before ++ v ∷ rest) r
  to_Changes r c = record { ordered = c.ordered; rights = c.rights }

  -- No cut at `begin`.
  pub rest-Holds :
      (spare1 : Bool) (refs : Refs)
      → begin ≤ v.begin
      → Holds (change_rest end prot spare1 refs before (v ∷ rest)).vmas
  unfolding change_rest
  rest-Holds spare1 refs h = rw (insert?-updated 0 end prot before (v ∷ rest) ob ov) (
      Cut.IsChanged-append 0 begin end prot before v rest ob lb ov hv he
        (updated end prot (v ∷ rest)) (updated-IsOrdered (last_end 0 before) end prot (v ∷ rest) ov)
        (λ a. ground (
          arith,
          rights_at-updated (last_end 0 before) end prot a (v ∷ rest) ov,
          view-below v.begin (v ∷ rest) a (omega arith, ov.1, ov.2),
        )))

  pub tail-Holds :
      (refs : Refs)
      → v.begin < begin
      → end < v.end
      → Holds
          (split_tail end refs before
            (split_vma v begin).0
            (vma_update_prot (split_vma v begin).1 prot)
            rest).vmas
  unfolding split_tail
  tail-Holds refs h k = rw (Cut.insert-both 0 begin end prot before v rest ob lb ov hv he h k) (
      Cut.IsChanged-append 0 begin end prot before v rest ob lb ov hv he _
        (Cut.both-IsOrdered 0 begin end prot before v rest ob lb ov hv he h k)
        (λ a. Cut.rights-both 0 begin end prot before v rest ob lb ov hv he a h k))

  abbrev front : List Vma
  front = (split_vma v begin).0 ∷ vma_update_prot (split_vma v begin).1 prot ∷ []

  front-IsOrdered : v.begin < begin → IsOrdered 0 (before ++ front)
  front-IsOrdered h =
      IsOrdered-append 0 before front ob
        (omega (arith, Cut.bounds-new1 0 begin end prot before v rest ob lb ov hv he))

  last_end-front : last_end 0 (before ++ front) ≡ v.end
  unfolding split_vma vma_update_prot
  last_end-front = last_end-append 0 before front

  one-eq :
      v.begin < begin
      → insert? (update_range end prot rest).1 (
          insert (vma_update_prot (split_vma v begin).1 prot) (before ++ (split_vma v begin).0 ∷ [])
          ++ (update_range end prot rest).0)
        ≡ before
          ++ ((split_vma v begin).0
              ∷ vma_update_prot (split_vma v begin).1 prot
              ∷ updated end prot rest)
  one-eq h =
      ap (λ t. insert? (update_range end prot rest).1 (t ++ (update_range end prot rest).0))
        (Cut.insert-one 0 begin end prot before v rest ob lb ov hv he h)
      ∙ (insert?-updated 0 end prot (before ++ front) rest (front-IsOrdered h)
            (rw last_end-front ov.2)
          ∙ append_assoc before front (updated end prot rest))

  pub one-Holds :
      (refs : Refs)
      → v.begin < begin
      → v.end ≤ end
      → Holds
          (change_rest end prot false refs
            (insert
              (vma_update_prot (split_vma v begin).1 prot)
              (before ++ (split_vma v begin).0 ∷ []))
            rest).vmas
  unfolding change_rest
  one-Holds refs h k = subst Holds (sym (one-eq h)) (
      Cut.IsChanged-append 0 begin end prot before v rest ob lb ov hv he _
        (Cut.one-IsOrdered 0 begin end prot before v rest ob lb ov hv he h)
        (λ a. Cut.rights-one 0 begin end prot before v rest ob lb ov hv he a h k))
