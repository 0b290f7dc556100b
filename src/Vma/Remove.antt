-- ===== src/Vma/Remove.antt =====
-- `_vma_bkeep_remove` of LibOS/shim/src/bookkeep/shim_vma.c.
pub mod Effect
pub mod Laws
pub mod Kinds
pub mod References
use mathlib.Core.Bool.{xor}
use graphene.Base.{
  ℕ, ◌-◌, Bool, true, false, List, [], ◌∷◌, ◌++◌, ltb, leb, if◌then◌else◌, Result, ok, err, eacces,
  enomem,
}
use graphene.Vma.Types.{Vma, Refs, get_ref, split_vma, advance, is_internal}
use graphene.Vma.Tree.{insert, lookup}

-- The state after a removal: the tree, the references held, the areas to be freed, and whether
-- the preallocated area is still unused.
pub record Removal : Type 0 where
  pub vmas : List Vma
  pub refs : Refs
  pub freed : List Vma
  pub spare : Bool

-- The first loop: every area that begins below `end` is of the kind that the caller may free.
unfoldable pub kinds_agree : ℕ → Bool → List Vma → Bool
kinds_agree end internal [] = true
kinds_agree end internal (v ∷ vs) =
    let rest = kinds_agree end internal vs in
    if ltb v.begin end then (if xor (is_internal v) internal then false else rest) else true

-- The last step: the area that reaches over `end` loses what lies below it.
unfoldable pub trim_front : ℕ → Vma → Vma
trim_front end v =
    if ltb v.begin end
    then record v { offset = advance v.file v.offset (end - v.begin); begin = end }
    else v

-- The second loop: the areas that end at or below `end` leave the tree; with them, what stays.
unfoldable pub sweep : ℕ → List Vma → List Vma × List Vma
unfolding trim_front
sweep end [] = ([], [])
sweep end (v ∷ vs) =
    let (freed, kept) = sweep end vs in
    if leb v.end end then (v ∷ freed, kept) else ([], trim_front end v ∷ vs)

-- From the found area `v` on, once the kinds agree.
unfoldable pub remove_found : ℕ → ℕ → Bool → Refs → List Vma → Vma → List Vma → Result Removal
unfolding sweep split_vma insert get_ref
remove_found begin end spare refs before v rest =
    let (freed, kept) = sweep end rest in
    let (freed_all, kept_all) = sweep end (v ∷ rest) in
    if ltb v.begin begin
    then (if ltb end v.end
        then (if spare
            then ok (record {
              vmas = insert (split_vma v end).1 (before ++ record v { end = begin } ∷ rest);
              refs = get_ref v.file refs;
              freed = [];
              spare = false;
            })
            else err enomem)
        else ok (record {
          vmas = before ++ (record v { end = begin } ∷ kept);
          refs = refs;
          freed = freed;
          spare = spare;
        }))
    else ok (record { vmas = before ++ kept_all; refs = refs; freed = freed_all; spare = spare })

unfoldable pub remove_after : ℕ → ℕ → Bool → Bool → Refs → List Vma → List Vma → Result Removal
unfolding remove_found kinds_agree
remove_after begin end internal spare refs before [] =
    ok (record { vmas = before; refs = refs; freed = []; spare = spare })
remove_after begin end internal spare refs before (v ∷ rest) =
    if kinds_agree end internal (v ∷ rest)
    then remove_found begin end spare refs before v rest
    else err eacces

-- `_vma_bkeep_remove`; `spare` says whether the caller provides an area.
unfoldable pub vma_bkeep_remove : ℕ → ℕ → Bool → Bool → List Vma → Refs → Result Removal
unfolding remove_after lookup
vma_bkeep_remove begin end internal spare vmas refs =
    let (before, after) = lookup begin vmas in
    remove_after begin end internal spare refs before after
