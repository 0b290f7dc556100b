-- ===== src/Vma/QueryTests.antt =====
-- The read-only calls at small inputs.
use graphene.Base.{◌≡◌, refl, true, false, none, some, [], ◌∷◌, arith, map, ok, bit}
use graphene.Vma.View.{view}
use graphene.Vma.Samples.{areas, no_refs, areas-IsOrdered}
use graphene.Vma.Query.{
  dump_vma, is_skipped, dump_all_vmas, lookup_vma, is_in_adjacent_user_vmas, madvise_dontneed_range,
}
use graphene.Vma.Query.Lookup.{IsLookup, answer_at, view-lookup_vma}
use graphene.Vma.Query.Dump.{selected, dumped, dump_all_vmas-Complete}
use graphene.Vma.Query.Walk.{is_user, is_in_adjacent_user_vmas-IsUser}

view-lookup_vma_example :
    (view areas 0x5800 ≡ answer_at 0x5800 (lookup_vma 0x5800 areas no_refs).0)
    × IsLookup 0x5800 areas no_refs (lookup_vma 0x5800 areas no_refs)
view-lookup_vma_example = view-lookup_vma 0x5800 areas no_refs areas-IsOrdered

dump_all_vmas-Complete_example :
    dumped (dump_all_vmas 2 100 64 false areas no_refs) ≡ some (map dump_vma (selected false areas))
unfolding selected is_skipped bit
dump_all_vmas-Complete_example =
    dump_all_vmas-Complete 100 false areas no_refs (omega arith) (omega arith)

dumped_run : dumped (dump_all_vmas 2 1 0 false areas no_refs) ≡ none
unfolding dump_all_vmas bit
dumped_run = refl

adjacent_run : is_in_adjacent_user_vmas 0x3000 0x4000 areas ≡ true
unfolding is_in_adjacent_user_vmas bit
adjacent_run = refl

is_in_adjacent_user_vmas-IsUser_example : is_user (view areas 0x6000) ≡ true
is_in_adjacent_user_vmas-IsUser_example =
    is_in_adjacent_user_vmas-IsUser 0x3000 0x4000 areas areas-IsOrdered (omega arith) adjacent_run
      0x6000 (omega arith) (omega arith)

dontneed_run : madvise_dontneed_range 0x3000 0x4000 areas ≡ (ok tt, (0x3000, 0x4000) ∷ [])
unfolding madvise_dontneed_range bit
dontneed_run = refl
