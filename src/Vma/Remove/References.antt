-- ===== src/Vma/Remove/References.antt =====
-- The handle references across `_vma_bkeep_remove`.
use graphene.Base.{ℕ, ◌+◌, ◌≡◌, refl, Bool, List, [], ◌∷◌, ◌++◌, ok, arith}
use graphene.Vma.Types.{Vma, Refs, split_vma}
use graphene.Vma.Tree.{lookup}
use graphene.Vma.Holders.{holders, holders-append, holders-insert, holders-lookup, get_ref-holds}
use graphene.Vma.Remove.{Removal, trim_front, sweep, remove_found, remove_after, vma_bkeep_remove}

holders-sweep :
    (h end : ℕ) (vs : List Vma)
    → holders h (sweep end vs).0 + holders h (sweep end vs).1 ≡ holders h vs
unfolding holders sweep trim_front
holders-sweep h end [] = refl
holders-sweep h end (v ∷ vs) = ground (arith, holders-sweep h end vs)

-- What a removal does to the count of one handle, by the areas that it keeps and frees.
abbrev Balanced : ℕ → List Vma → Refs → Removal → Type 0
Balanced h vmas refs r = r.refs h + holders h vmas ≡ refs h + holders h r.vmas + holders h r.freed

remove_found-Balanced :
    (h begin end : ℕ) (spare : Bool) (refs : Refs) (before : List Vma) (v : Vma) (rest : List Vma)
    {r : Removal}
    → remove_found begin end spare refs before v rest ≡ ok r
    → Balanced h (before ++ v ∷ rest) refs r
unfolding remove_found holders split_vma
remove_found-Balanced h begin end spare refs before v rest e = ground (
  arith,
  holders-append h before (v ∷ rest),
  holders-append h before (record v { end = begin } ∷ rest),
  holders-append h before (record v { end = begin } ∷ (sweep end rest).1),
  holders-append h before (sweep end (v ∷ rest)).1,
  holders-insert h (split_vma v end).1 (before ++ record v { end = begin } ∷ rest),
  holders-sweep h end rest,
  holders-sweep h end (v ∷ rest),
  get_ref-holds h v.file refs,
)

remove_after-Balanced :
    (h begin end : ℕ) (internal spare : Bool) (refs : Refs) (before after : List Vma) {r : Removal}
    → remove_after begin end internal spare refs before after ≡ ok r
    → Balanced h (before ++ after) refs r
unfolding remove_after holders
remove_after-Balanced h begin end internal spare refs before [] e =
    ground (arith, holders-append h before [])
remove_after-Balanced h begin end internal spare refs before (v ∷ rest) {r} e =
    remove_found-Balanced h begin end spare refs before v rest {r = r} (ground arith)

-- A removal takes one reference for the area that it adds to the tree, and none else: the count of
-- each handle grows by as much as the areas that hold it, the freed ones included.
pub vma_bkeep_remove-Balanced :
    (h begin end : ℕ) (internal spare : Bool) (vmas : List Vma) (refs : Refs) {r : Removal}
    → vma_bkeep_remove begin end internal spare vmas refs ≡ ok r
    → r.refs h + holders h vmas ≡ refs h + holders h r.vmas + holders h r.freed
unfolding vma_bkeep_remove
vma_bkeep_remove-Balanced h begin end internal spare vmas refs e = ground (
  arith,
  remove_after-Balanced h begin end internal spare refs (lookup begin vmas).0 (lookup begin vmas).1
      e,
  holders-append h (lookup begin vmas).0 (lookup begin vmas).1,
  holders-lookup h begin vmas,
)
