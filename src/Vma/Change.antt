-- ===== src/Vma/Change.antt =====
-- `_vma_bkeep_change` of LibOS/shim/src/bookkeep/shim_vma.c: a new protection for a range.
pub mod Rights
pub mod Update
pub mod Cut
pub mod Laws
pub mod Effect
pub mod Cover
pub mod Fault
use mathlib.Core.Bool.{xor}
use graphene.Base.{
  ℕ, ◌-◌, ◌≤◌, ◌<◌, Bool, true, false, not, ◌&&◌, ◌||◌, Option, none, some, List, [], ◌∷◌, ◌++◌,
  ltb, leb, ◌==◌, if◌then◌else◌, Result, ok, err, eacces, enomem, einval, test_bit, Errno,
}
use graphene.Vma.Types.{
  Vma, File, Refs, get_ref, split_vma, vma_update_prot, is_internal, has_file, map_shared,
  map_growsdown, prot_write, prot_growsdown,
}
use graphene.Vma.Tree.{insert, lookup}

-- The state after a change: the tree, the references held, and which of the two preallocated
-- areas are still unused.
pub record Changed : Type 0 where
  pub vmas : List Vma
  pub refs : Refs
  pub spare1 : Bool
  pub spare2 : Bool

-- `fault` is the dereference of the `next` that `assert(next)` excludes.
pub data Outcome : Type 0 where
  changed : Changed → Outcome
  refused : Errno → Outcome
  fault : Outcome

-- `is_file_prot_matching`; O_RDWR is 2.
unfoldable pub is_file_prot_matching : File → ℕ → Bool
is_file_prot_matching file prot = not (test_bit prot_write prot) || test_bit 1 file.flags

-- `vma->file && (vma->flags & MAP_SHARED) && !is_file_prot_matching(vma->file, prot)`
unfoldable pub shared_mismatch : Option File → ℕ → ℕ → Bool
unfolding is_file_prot_matching
shared_mismatch none flags prot = false
shared_mismatch (some f) flags prot =
    test_bit map_shared flags && not (is_file_prot_matching f prot)

-- `prev->end == vma->begin`, for the area that follows `prev`.
unfoldable pub adjoins : Vma → List Vma → Bool
adjoins prev [] = true
adjoins prev (v ∷ vs) = prev.end == v.begin

-- The first loop: `is_continuous` at its end, or the error.
unfoldable pub check_range : ℕ → ℕ → Bool → Bool → List Vma → Result Bool
unfolding shared_mismatch adjoins
check_range end prot internal continuous [] = ok false
check_range end prot internal continuous (v ∷ vs) =
    let rest = check_range end prot internal (continuous && adjoins v vs) vs in
    if xor (is_internal v) internal
    then err eacces
    else if test_bit prot_growsdown prot && not (test_bit map_growsdown v.flags)
    then err einval
    else if shared_mismatch v.file v.flags prot
    then err eacces
    else if leb end v.end
    then ok continuous
    else rest

-- The second loop and the cut at `end` behind it: the areas, and the new one to be inserted.
unfoldable pub update_range : ℕ → ℕ → List Vma → List Vma × Option Vma
unfolding vma_update_prot split_vma
update_range end prot [] = ([], none)
update_range end prot (v ∷ vs) =
    let (vs', new) = update_range end prot vs in
    if leb v.end end
    then (vma_update_prot v prot ∷ vs', new)
    else if leb end v.begin
    then (v ∷ vs, none)
    else (vma_update_prot (split_vma v end).0 prot ∷ vs, some (split_vma v end).1)

abbrev file_of : Option Vma → Option File
file_of none = none
file_of (some v) = v.file

abbrev insert? : Option Vma → List Vma → List Vma
insert? none vs = vs
insert? (some v) vs = insert v vs

abbrev is_none : Option Vma → Bool
is_none none = true
is_none (some v) = false

-- From the second loop on; `front` is what stands before its first area.
unfoldable pub change_rest : ℕ → ℕ → Bool → Refs → List Vma → List Vma → Changed
unfolding update_range insert get_ref
change_rest end prot spare1 refs front vs =
    let (vs', new) = update_range end prot vs in
    record {
      vmas = insert? new (front ++ vs');
      refs = get_ref (file_of new) refs;
      spare1 = spare1;
      spare2 = is_none new;
    }

-- Both cuts in one area: what lies behind `end` gets the old protection back.
unfoldable pub split_tail : ℕ → Refs → List Vma → (first new1 : Vma) → List Vma → Changed
unfolding vma_update_prot split_vma insert get_ref
split_tail end refs before first new1 rest = record {
  vmas =
      insert (vma_update_prot (split_vma new1 end).1 first.prot)
        (insert (split_vma new1 end).0 (before ++ first ∷ rest));
  refs = get_ref new1.file refs;
  spare1 = false;
  spare2 = false;
}

-- The branch that cuts the first area `v` at `begin`: `first` is what is left of it, `new1` the
-- new area with its new protection. The next area is fetched before `new1` enters the tree.
unfoldable pub change_split : ℕ → ℕ → Refs → List Vma → (first new1 : Vma) → List Vma → Outcome
unfolding change_rest vma_update_prot split_vma insert get_ref
change_split end prot refs before first new1 [] =
    if ltb end new1.end then changed (split_tail end refs before first new1 []) else fault
change_split end prot refs before first new1 (w ∷ ws) =
    if ltb end new1.end
    then changed (split_tail end refs before first new1 (w ∷ ws))
    else changed (change_rest end prot false refs (insert new1 (before ++ first ∷ [])) (w ∷ ws))

-- The last part, once the checks have passed; `v` is the first area of the range.
unfoldable pub change_found : ℕ → ℕ → ℕ → Refs → List Vma → Vma → List Vma → Outcome
unfolding change_split
change_found begin end prot refs before v rest =
    if ltb v.begin begin && not (test_bit prot_growsdown prot)
    then change_split end prot (get_ref v.file refs) before (split_vma v begin).0
        (vma_update_prot (split_vma v begin).1 prot) rest
    else changed (change_rest end prot true refs before (v ∷ rest))

-- What the checks of the first loop answer.
unfoldable pub change_checked : ℕ → ℕ → ℕ → Refs → List Vma → Vma → List Vma → Result Bool → Outcome
unfolding change_found
change_checked begin end prot refs before v rest (err e) = refused e
change_checked begin end prot refs before v rest (ok false) = refused enomem
change_checked begin end prot refs before v rest (ok true) =
    change_found begin end prot refs before v rest

unfoldable pub change_after : ℕ → ℕ → ℕ → Bool → Refs → List Vma → List Vma → Outcome
unfolding change_checked check_range
change_after begin end prot internal refs before [] = refused enomem
change_after begin end prot internal refs before (v ∷ rest) =
    if ltb begin v.begin
    then refused enomem
    else change_checked begin end prot refs before v rest
        (check_range end prot internal true (v ∷ rest))

-- `_vma_bkeep_change`; both areas that it may need are provided.
unfoldable pub vma_bkeep_change : ℕ → ℕ → ℕ → Bool → List Vma → Refs → Outcome
unfolding change_after lookup
vma_bkeep_change begin end prot internal vmas refs =
    let (before, after) = lookup begin vmas in
    change_after begin end prot internal refs before after
