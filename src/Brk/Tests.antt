-- ===== src/Brk/Tests.antt =====
-- Breaks at small inputs.
use mathlib.Core.Bool.{xor}
use graphene.Base.{◌≡◌, refl, true, none, [], ◌∷◌, arith, bit}
use graphene.Vma.Types.{Vma, Refs}
use graphene.Vma.Space.{Config, Space}
use graphene.Vma.View.{IsOrdered}
use graphene.Vma.Alloc.{pooled}
use graphene.Vma.Calls.Unmap.{after_allocs}
use graphene.Vma.Calls.Fixed.{MapsFixed}
use graphene.Brk.{
  BrkRegion, returns, Supplies, heap_request, read_write, private_fixed, moved, shim_do_brk,
}
use graphene.Brk.Bounds.{IsWell, IsAnswer, shim_do_brk-IsAnswer}
use graphene.Brk.Grow.{shim_do_brk-MapsFixed}

abbrev cfg : Config
cfg = record { align = 0x1000; user_start = 0x1000; user_end = 0x9000; aslr_top = 0x9000 }

abbrev no_refs : Refs
no_refs h = 0

-- A region of four pages, of which one and a half are in use.
abbrev region : BrkRegion
region = record {
  data_segment_size = 0x1000;
  brk_start = 0x2000;
  brk_current = 0x3800;
  brk_end = 0x6000;
}

abbrev used_area : Vma
used_area = record {
  begin = 0x2000;
  end = 0x4000;
  prot = 3;
  flags = 0x22;
  file = none;
  offset = 0;
  comment = 104 ∷ 101 ∷ 97 ∷ 112 ∷ [];
}

abbrev spare_area : Vma
spare_area = record used_area { begin = 0x4000; end = 0x6000; prot = 0; flags = 0x10000000 }

abbrev areas : Space
areas = record { vmas = used_area ∷ spare_area ∷ []; refs = no_refs }

abbrev supplies : Supplies
supplies = record { first = (pooled, pooled); second = (pooled, pooled) }

region-IsWell : IsWell cfg region
region-IsWell = record {
  page = refl;
  start = omega arith;
  end = omega arith;
  aligned = refl;
  word = omega arith;
}

areas-IsOrdered : IsOrdered 0 areas.vmas
areas-IsOrdered = omega arith

abbrev grown_areas : Space
grown_areas = record {
  vmas =
      used_area
      ∷ record used_area { begin = 0x4000; end = 0x5000 }
      ∷ record spare_area { begin = 0x5000 }
      ∷ [];
  refs = no_refs;
}

grown_run :
    shim_do_brk cfg supplies 0x100000 true 0x4800 region areas
    ≡ returns 0x4800 (moved 0x4800 region) grown_areas
unfolding shim_do_brk xor bit
grown_run = refl

-- The limit on data stands in the way.
limited_run : shim_do_brk cfg supplies 0x2000 true 0x4800 region areas ≡ returns 0x3800 region areas
unfolding shim_do_brk
limited_run = refl

shim_do_brk-IsAnswer_example :
    IsAnswer cfg 0x100000 0x4800 region (shim_do_brk cfg supplies 0x100000 true 0x4800 region areas)
shim_do_brk-IsAnswer_example =
    shim_do_brk-IsAnswer cfg supplies 0x100000 true 0x4800 region areas region-IsWell

shim_do_brk-MapsFixed_example :
    MapsFixed 0x4000 0x5000
      (heap_request read_write private_fixed)
      (after_allocs cfg pooled pooled areas)
      grown_areas
shim_do_brk-MapsFixed_example =
    shim_do_brk-MapsFixed cfg supplies 0x100000 true 0x4800 region (moved 0x4800 region) areas
      grown_areas region-IsWell areas-IsOrdered (omega arith) (omega arith) grown_run
