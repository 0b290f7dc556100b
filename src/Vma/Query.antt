-- ===== src/Vma/Query.antt =====
-- The read-only calls of LibOS/shim/src/bookkeep/shim_vma.c: lookup, dumps, the test for adjacent
-- user areas, the traversal of a range, and MADV_DONTNEED, which is a traversal.
pub mod Lookup
pub mod Dump
pub mod Walk
use graphene.Base.{
  ℕ, zero, suc, ◌+◌, ◌-◌, ◌≤◌, ◌<◌, Bool, true, false, not, ◌&&◌, ◌||◌, Option, none, some, List,
  [], ◌∷◌, ltb, leb, ◌==◌, if◌then◌else◌, min, max, test_bit, Errno, Result, ok, err, enoent,
  enomem, einval, enosys,
}
use graphene.Vma.Types.{
  Vma, File, Refs, add64, is_internal, is_unmapped, is_addr_in_vma, has_file, prot_write, get_ref,
  put_ref,
}
use graphene.Vma.Tree.{lookup}

-- `struct shim_vma_info`
pub record Info : Type 0 where
  pub addr : ℕ
  pub length : ℕ
  pub prot : ℕ
  pub flags : ℕ
  pub file : Option File
  pub file_offset : ℕ
  pub comment : List ℕ

-- `dump_vma`; the reference to the file is taken by the caller below.
unfoldable pub dump_vma : Vma → Info
dump_vma v = record {
  addr = v.begin;
  length = v.end - v.begin;
  prot = v.prot;
  flags = v.flags;
  file = v.file;
  file_offset = v.offset;
  comment = v.comment;
}

unfoldable pub lookup_found : ℕ → List Vma → Refs → Result Info × Refs
unfolding dump_vma is_addr_in_vma get_ref
lookup_found addr [] refs = (err enoent, refs)
lookup_found addr (v ∷ vs) refs =
    if is_addr_in_vma addr v then (ok (dump_vma v), get_ref v.file refs) else (err enoent, refs)

-- `lookup_vma`
unfoldable pub lookup_vma : ℕ → List Vma → Refs → Result Info × Refs
unfolding lookup_found lookup
lookup_vma addr vmas refs = lookup_found addr (lookup addr vmas).1 refs

-- `vma->flags & (VMA_INTERNAL | VMA_UNMAPPED)`
unfoldable pub is_reserved : Vma → Bool
is_reserved v = is_internal v || is_unmapped v

-- The walk of `is_in_adjacent_user_vmas` from the area `v` on.
unfoldable pub adjacent_from : ℕ → Vma → List Vma → Bool
unfolding is_reserved
adjacent_from end v [] = not (ltb v.end end)
adjacent_from end v (w ∷ ws) =
    let rest = adjacent_from end w ws in
    if ltb v.end end
    then (if not (v.end == w.begin) || is_reserved w then false else rest)
    else true

unfoldable pub adjacent_found : ℕ → ℕ → List Vma → Bool
unfolding adjacent_from
adjacent_found begin end [] = false
adjacent_found begin end (v ∷ vs) =
    if ltb begin v.begin || is_reserved v then false else adjacent_from end v vs

-- `is_in_adjacent_user_vmas`
unfoldable pub is_in_adjacent_user_vmas : ℕ → ℕ → List Vma → Bool
unfolding adjacent_found lookup
is_in_adjacent_user_vmas addr length vmas =
    adjacent_found addr (add64 addr length) (lookup addr vmas).1

-- What a dump passes over: internal areas, and unmapped ones unless they are asked for.
unfoldable pub is_skipped : Bool → Vma → Bool
is_skipped include_unmapped v = (not include_unmapped && is_unmapped v) || is_internal v

-- The loop of `dump_all_vmas_with_buf`: the count, what the buffer receives, and the references.
unfoldable pub dump_loop : ℕ → Bool → ℕ → List Vma → Refs → ℕ × List Info × Refs
unfolding is_skipped dump_vma get_ref
dump_loop max_count include_unmapped size [] refs = (size, [], refs)
dump_loop max_count include_unmapped size (v ∷ vs) refs =
    let counted = not (is_skipped include_unmapped v) in
    let written = counted && ltb size max_count in
    let (n, infos, refs') =
      dump_loop max_count include_unmapped (if counted then suc size else size) vs
        (if written then get_ref v.file refs else refs) in
    (n, if written then dump_vma v ∷ infos else infos, refs')

-- `dump_all_vmas_with_buf`
unfoldable pub dump_all_vmas_with_buf : ℕ → Bool → List Vma → Refs → ℕ × List Info × Refs
unfolding dump_loop
dump_all_vmas_with_buf max_count include_unmapped vmas refs =
    dump_loop max_count include_unmapped 0 vmas refs

-- `free_vma_info_array`
unfoldable pub free_vma_info_array : List Info → Refs → Refs
unfolding put_ref
free_vma_info_array [] refs = refs
free_vma_info_array (i ∷ is) refs = free_vma_info_array is (put_ref i.file refs)

-- `dump_all_vmas` on a tree that nobody changes meanwhile, with fuel for its loop: `calloc` grants
-- arrays of at most `memory` entries, and `none` means that the fuel ran out.
unfoldable pub dump_all_vmas :
    ℕ → ℕ → ℕ → Bool → List Vma → Refs → Option (Result (List Info) × Refs)
unfolding dump_all_vmas_with_buf free_vma_info_array
dump_all_vmas zero memory count include_unmapped vmas refs = none
dump_all_vmas (suc fuel) memory count include_unmapped vmas refs =
    let (needed, infos, refs') = dump_all_vmas_with_buf count include_unmapped vmas refs in
    let again =
      dump_all_vmas fuel memory needed include_unmapped vmas (free_vma_info_array infos refs') in
    if ltb memory count
    then some (err enomem, refs)
    else if leb needed count
    then some (ok infos, refs')
    else again

-- The walk of `_traverse_vmas_in_range` at the area `v`. The visitor answers whether to go on.
unfoldable pub traverse_from {ℓ} :
    {S : Type ℓ} → ℕ → (S → Vma → Bool × S) → Bool → Vma → List Vma → S → Bool × S
traverse_from end visitor continuous v [] s =
    let (more, s') = visitor s v in
    if more then (continuous && leb end v.end, s') else (continuous, s')
traverse_from end visitor continuous v (w ∷ ws) s =
    let (more, s') = visitor s v in
    let rest = traverse_from end visitor (continuous && v.end == w.begin) w ws s' in
    if more
    then (if leb end w.begin then (continuous && leb end v.end, s') else rest)
    else (continuous, s')

unfoldable pub traverse_found {ℓ} :
    {S : Type ℓ} → ℕ → (S → Vma → Bool × S) → List Vma → S → Bool × S
unfolding traverse_from
traverse_found end visitor [] s = (false, s)
traverse_found end visitor (v ∷ vs) s =
    if leb end v.begin then (false, s) else traverse_from end visitor true v vs s

-- `_traverse_vmas_in_range`
unfoldable pub traverse_vmas_in_range {ℓ} :
    {S : Type ℓ} → ℕ → ℕ → (S → Vma → Bool × S) → List Vma → S → Bool × S
unfolding traverse_found lookup
traverse_vmas_in_range begin end visitor vmas s =
    if begin == end then (true, s) else traverse_found end visitor (lookup begin vmas).1 s

-- `struct madvise_dontneed_ctx`, with the ranges that `memset` has zeroed, last first.
pub record Dontneed : Type 0 where
  pub begin : ℕ
  pub end : ℕ
  pub error : Option Errno
  pub zeroed : List (ℕ × ℕ)

-- `madvise_dontneed_visitor`
unfoldable pub madvise_dontneed_visitor : Dontneed → Vma → Bool × Dontneed
unfolding is_reserved
madvise_dontneed_visitor c v =
    if is_reserved v
    then (false, record c { error = some einval })
    else if has_file v.file
    then (if test_bit 30 v.flags then (false, record c { error = some enosys }) else (true, c))
    else if not (test_bit prot_write v.prot)
    then (false, record c { error = some enosys })
    else (true, record c { zeroed = (max c.begin v.begin, min c.end v.end) ∷ c.zeroed })

abbrev pub dontneed_result : Bool × Dontneed → Result (Unit {0}) × List (ℕ × ℕ)
dontneed_result (false, c) = (err enomem, c.zeroed)
dontneed_result (true, c) = elim c.error [ none ↦ (ok tt, c.zeroed) | some e ↦ (err e, c.zeroed) ]

-- `madvise_dontneed_range`: the answer, and what has been zeroed.
unfoldable pub madvise_dontneed_range : ℕ → ℕ → List Vma → Result (Unit {0}) × List (ℕ × ℕ)
unfolding traverse_vmas_in_range madvise_dontneed_visitor
madvise_dontneed_range begin end vmas = dontneed_result (
    traverse_vmas_in_range begin end madvise_dontneed_visitor vmas
      (record { begin = begin; end = end; error = none; zeroed = [] }))
