-- ===== src/Vma/CallTests.antt =====
-- The calls that map and unmap, at small inputs.
use graphene.Base.{
  ℕ, ◌≤◌, ◌≡◌, refl, true, false, none, some, [], ◌∷◌, arith, ok, err, eexist, ◌⊎◌, inl, inr,
  test_bit, bit,
}
use mathlib.Core.Bool.{xor}
use graphene.Vma.Types.{Vma, map_fixed_noreplace}
use graphene.Vma.View.{view, mapping_at, Mapping}
use graphene.Vma.Free.{IsFree}
use graphene.Vma.Remove.{Removal}
use graphene.Vma.Space.{Space, top_of, bkeep_mmap_any_in_range, is_aligned}
use graphene.Vma.Space.Place.{
  Placed, bkeep_mmap_any_in_range-Placed, bkeep_mmap_any_in_range-highest,
  bkeep_mmap_any_in_range_total,
}
use graphene.Vma.Alloc.{pooled, enlarged, alloc_vma}
use graphene.Vma.Samples.{cfg, heap, text, areas, no_refs, space, request, areas-IsOrdered}
use graphene.Vma.Calls.{bkeep_munmap, bkeep_mmap_fixed, make_room}
use graphene.Vma.Calls.Unmap.{Reserved, after_allocs, bkeep_munmap-Reserved}
use graphene.Vma.Calls.Fixed.{MapsFixed, bkeep_mmap_fixed-MapsFixed, make_room-noreplace}

request-IsFree : IsFree 0x8000 0x9000 areas
request-IsFree = (inl (omega arith), (inl (omega arith), tt))

abbrev placed : Space
placed = record {
  vmas = heap ∷ text ∷ record heap { begin = 0x8000; end = 0x9000 } ∷ [];
  refs = no_refs;
}

placed_run :
    bkeep_mmap_any_in_range cfg (alloc_vma cfg pooled) 0x1000 0x9000 0x1000 request space
    ≡ (ok 0x8000, placed)
unfolding bkeep_mmap_any_in_range alloc_vma bit
placed_run = refl

bkeep_mmap_any_in_range-Placed_example :
    Placed 0x1000 (top_of 0x9000 request) 0x1000 request space placed 0x8000
unfolding alloc_vma
bkeep_mmap_any_in_range-Placed_example =
    bkeep_mmap_any_in_range-Placed cfg (alloc_vma cfg pooled) 0x1000 0x9000 0x1000 request space
      areas-IsOrdered placed_run

low-IsFree : IsFree 0x1000 0x2000 areas
low-IsFree = (inr (omega arith), (inr (omega arith), tt))

top_request : 0x2000 ≤ top_of 0x9000 request
unfolding top_of bit
top_request = omega arith

bkeep_mmap_any_in_range-highest_example : 0x1000 ≤ 0x8000
unfolding alloc_vma
bkeep_mmap_any_in_range-highest_example =
    bkeep_mmap_any_in_range-highest cfg (alloc_vma cfg pooled) 0x1000 0x9000 0x1000 request space
      areas-IsOrdered 0x1000 placed_run (omega arith) top_request low-IsFree

bkeep_mmap_any_in_range_total_example :
    (r : ℕ) × ((bkeep_mmap_any_in_range cfg
        (alloc_vma cfg pooled)
        0x1000
        0x9000
        0x1000
        request
        space).0
      ≡ ok r)
unfolding alloc_vma is_aligned
bkeep_mmap_any_in_range_total_example =
    bkeep_mmap_any_in_range_total cfg (alloc_vma cfg pooled) 0x1000 0x9000 0x1000 request space
      areas-IsOrdered 0x1000 refl (omega arith) refl refl refl (omega arith) top_request low-IsFree

-- An allocation that enlarges the pool maps a page at the top.
heap_mapped : view areas 0x4000 ≡ some (mapping_at heap 0x4000)
unfolding view
heap_mapped = refl

abbrev pool_mapping : Mapping
pool_mapping = record { prot = 3; flags = 0x20000022; file = none; offset = 0 }

pool_mapped : view (alloc_vma cfg (enlarged 0x100 true) space).1.vmas 0x8800 ≡ some pool_mapping
unfolding view alloc_vma bit mapping_at
pool_mapped = refl

gap_unmapped : view areas 0x8800 ≡ none
unfolding view
gap_unmapped = refl

abbrev reserved : Vma
reserved = record heap { begin = 0x3000; end = 0x4000; prot = 0; flags = 0x30000000 }

abbrev unmapped : Space
unmapped = record {
  vmas = record heap { end = 0x3000 } ∷ reserved ∷ record heap { begin = 0x4000 } ∷ text ∷ [];
  refs = no_refs;
}

unmapped_run : bkeep_munmap cfg pooled pooled 0x3000 0x1000 false space ≡ (ok reserved, unmapped)
unfolding bkeep_munmap xor bit
unmapped_run = refl

bkeep_munmap-Reserved_example :
    Reserved 0x3000 0x4000 (after_allocs cfg pooled pooled space) unmapped reserved
bkeep_munmap-Reserved_example =
    bkeep_munmap-Reserved cfg pooled pooled 0x3000 0x1000 false space areas-IsOrdered (omega arith)
      unmapped_run

abbrev fixed : Space
fixed = record {
  vmas =
      record heap { end = 0x3000 }
      ∷ record heap { begin = 0x3000; end = 0x4000 }
      ∷ record heap { begin = 0x4000 }
      ∷ text
      ∷ [];
  refs = no_refs;
}

fixed_run : bkeep_mmap_fixed cfg pooled pooled 0x3000 0x1000 request space ≡ (ok tt, fixed)
unfolding bkeep_mmap_fixed xor bit
fixed_run = refl

bkeep_mmap_fixed-MapsFixed_example :
    MapsFixed 0x3000 0x4000 request (after_allocs cfg pooled pooled space) fixed
bkeep_mmap_fixed-MapsFixed_example =
    bkeep_mmap_fixed-MapsFixed cfg pooled pooled 0x3000 0x1000 request space areas-IsOrdered
      (omega arith) fixed_run

noreplace_flags : test_bit map_fixed_noreplace 0x100022 ≡ true
unfolding bit
noreplace_flags = refl

make_room-noreplace_example :
    ((make_room 0x3000 0x4000 0x100022 true space ≡ err eexist) × (¬ IsFree 0x3000 0x4000 areas))
    ⊎ ((r : Removal) × (make_room 0x3000 0x4000 0x100022 true space ≡ ok r)
        × (r.vmas ≡ areas)
        × IsFree 0x3000 0x4000 areas)
make_room-noreplace_example =
    make_room-noreplace 0x3000 0x4000 0x100022 true space areas-IsOrdered (omega arith)
      noreplace_flags
