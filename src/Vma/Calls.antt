-- ===== src/Vma/Calls.antt =====
-- The calls that LibOS/shim/src/bookkeep/shim_vma.c offers for mapping and unmapping.
pub mod Unmap
pub mod Fixed
use graphene.Base.{
  ℕ, ◌+◌, ◌≤◌, ◌<◌, Bool, true, false, not, ◌&&◌, ◌||◌, Option, none, some, List, [], ◌∷◌, ltb,
  ◌==◌, if◌then◌else◌, test_bit, Result, ok, err, einval, enomem, eexist,
}
use graphene.Vma.Types.{
  Vma, File, Refs, add64, unmapped_internal_mask, map_fixed_noreplace, vma_internal, copy_comment,
  get_ref, put_ref,
}
use graphene.Vma.Tree.{insert, delete, lookup}
use graphene.Vma.Remove.{Removal, vma_bkeep_remove}
use graphene.Vma.Change.{Changed, Outcome, changed, refused, fault, vma_bkeep_change}
use graphene.Vma.Space.{
  Config, Space, Request, is_aligned, new_vma, put_all, bkeep_mmap_any_in_range, bkeep_mmap_any,
}
use graphene.Vma.Alloc.{Supply, alloc_vma}

-- The guard that the calls share: a length, and alignment of it and of the address.
unfoldable pub bad_range : Config → ℕ → ℕ → Bool
unfolding is_aligned
bad_range cfg addr length =
    length == 0 || (not (is_aligned cfg length) || not (is_aligned cfg addr))

-- The area that `_add_unmapped_vma` fills in and inserts.
unfoldable pub unmapped_vma : ℕ → ℕ → Vma
unmapped_vma begin end = record {
  begin = begin;
  end = end;
  prot = 0;
  flags = unmapped_internal_mask;
  file = none;
  offset = 0;
  comment = [];
}

-- `bkeep_munmap` from the removal on: the temporary area, and the state.
unfoldable pub munmap_removed : ℕ → ℕ → Space → Result Removal → Result Vma × Space
unfolding unmapped_vma insert put_all
munmap_removed begin end s (err e) = (err e, s)
munmap_removed begin end s (ok r) = (
  ok (unmapped_vma begin end),
  record { vmas = insert (unmapped_vma begin end) r.vmas; refs = put_all r.freed r.refs },
)

-- `bkeep_munmap`; the supplies are those of its two calls of `alloc_vma`.
unfoldable pub bkeep_munmap : Config → Supply → Supply → ℕ → ℕ → Bool → Space → Result Vma × Space
unfolding munmap_removed bad_range alloc_vma vma_bkeep_remove
bkeep_munmap cfg supply1 supply2 addr length internal s =
    if bad_range cfg addr length
    then (err einval, s)
    else (let (got1, s1) = alloc_vma cfg supply1 s in
        let (got2, s2) = alloc_vma cfg supply2 s1 in
        if got1
        then munmap_removed addr (add64 addr length) s2
            (vma_bkeep_remove addr (add64 addr length) internal got2 s2.vmas s2.refs)
        else (err enomem, s1))

-- `bkeep_remove_tmp_vma`
unfoldable pub bkeep_remove_tmp_vma : Vma → Space → Space
unfolding delete put_ref
bkeep_remove_tmp_vma v s = record { vmas = delete v s.vmas; refs = put_ref v.file s.refs }

-- MAP_FIXED_NOREPLACE: the area found at the begin of the range reaches into it.
unfoldable pub overlaps : ℕ → List Vma → Bool
overlaps end [] = false
overlaps end (v ∷ vs) = ltb v.begin end

-- What stands in the way is removed, or refused.
unfoldable pub make_room : ℕ → ℕ → ℕ → Bool → Space → Result Removal
unfolding overlaps lookup vma_bkeep_remove
make_room begin end flags got s =
    if test_bit map_fixed_noreplace flags
    then (if overlaps end (lookup begin s.vmas).1
        then err eexist
        else ok (record { vmas = s.vmas; refs = s.refs; freed = []; spare = got }))
    else vma_bkeep_remove begin end (test_bit vma_internal flags) got s.vmas s.refs

-- The end of `bkeep_mmap_fixed`; `s` is the state before the new area takes its reference.
unfoldable pub mmap_fixed_room :
    ℕ → ℕ → Request → Space → Result Removal → Result (Unit {0}) × Space
unfolding new_vma insert put_all put_ref
mmap_fixed_room begin end q s (err e) = (err e, record s { refs = put_ref q.file s.refs })
mmap_fixed_room begin end q s (ok r) =
    (ok tt, record { vmas = insert (new_vma q begin end) r.vmas; refs = put_all r.freed r.refs })

-- `bkeep_mmap_fixed`
unfoldable pub bkeep_mmap_fixed :
    Config → Supply → Supply → ℕ → ℕ → Request → Space → Result (Unit {0}) × Space
unfolding mmap_fixed_room make_room bad_range alloc_vma get_ref
bkeep_mmap_fixed cfg supply1 supply2 addr length q s =
    if bad_range cfg addr length
    then (err einval, s)
    else (let (got1, s1) = alloc_vma cfg supply1 s in
        let (got2, s2) = alloc_vma cfg supply2 s1 in
        let s3 = record s2 { refs = get_ref q.file s2.refs } in
        if got1
        then mmap_fixed_room addr (add64 addr length) q s3
            (make_room addr (add64 addr length) q.flags got2 s3)
        else (err enomem, s1))

-- `none` is the fault of `_vma_bkeep_change`.
unfoldable pub mprotect_outcome : Space → Outcome → Option (Result (Unit {0}) × Space)
mprotect_outcome s (changed c) = some (ok tt, record { vmas = c.vmas; refs = c.refs })
mprotect_outcome s (refused e) = some (err e, s)
mprotect_outcome s fault = none

-- `bkeep_mprotect`
unfoldable pub bkeep_mprotect :
    Config → Supply → Supply → ℕ → ℕ → ℕ → Bool → Space → Option (Result (Unit {0}) × Space)
unfolding mprotect_outcome bad_range alloc_vma vma_bkeep_change
bkeep_mprotect cfg supply1 supply2 addr length prot internal s =
    if bad_range cfg addr length
    then some (err einval, s)
    else (let (got1, s1) = alloc_vma cfg supply1 s in
        let (got2, s2) = alloc_vma cfg supply2 s1 in
        if got1
        then (if got2
            then mprotect_outcome s2
                (vma_bkeep_change addr (add64 addr length) prot internal s2.vmas s2.refs)
            else some (err enomem, s2))
        else some (err enomem, s1))

-- The second attempt of `bkeep_mmap_any_aslr`, if the first one failed.
unfoldable pub or_anywhere : Config → Supply → ℕ → Request → Result ℕ × Space → Result ℕ × Space
unfolding bkeep_mmap_any alloc_vma
or_anywhere cfg supply length q (ok addr, s) = (ok addr, s)
or_anywhere cfg supply length q (err e, s) = bkeep_mmap_any cfg (alloc_vma cfg supply) length q s

-- `bkeep_mmap_any_aslr`: below the randomised top first, then anywhere.
unfoldable pub bkeep_mmap_any_aslr :
    Config → Supply → Supply → ℕ → Request → Space → Result ℕ × Space
unfolding bkeep_mmap_any_in_range or_anywhere alloc_vma
bkeep_mmap_any_aslr cfg supply1 supply2 length q s =
    or_anywhere cfg supply2 length q
      (bkeep_mmap_any_in_range cfg (alloc_vma cfg supply1) cfg.user_start cfg.aslr_top length q s)
