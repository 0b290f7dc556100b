-- ===== src/Vma/Tests.antt =====
-- Runs of the area bookkeeping on small trees, and its theorems at such inputs.
use graphene.Base.{
  ◌+◌, ◌≡◌, refl, true, false, none, some, List, [], ◌∷◌, arith, ok, err, eacces, ◌⊎◌,
  if◌then◌else◌, test_bit, bit,
}
use mathlib.Core.Bool.{xor}
use graphene.Vma.Types.{Vma, prot_growsdown, vma_internal, get_ref}
use graphene.Vma.View.{view, mapping_at, IsOrdered}
use graphene.Vma.Remove.{Removal, vma_bkeep_remove}
use graphene.Vma.Remove.Effect.{within}
use graphene.Vma.Remove.Laws.{vma_bkeep_remove-IsOrdered, view-vma_bkeep_remove}
use graphene.Vma.Remove.Kinds.{Wrong, vma_bkeep_remove_total}
use graphene.Vma.Remove.References.{vma_bkeep_remove-Balanced}
use graphene.Vma.Holders.{holders}
use graphene.Vma.Change.{Changed, changed, fault, vma_bkeep_change, split_tail, shared_mismatch}
use graphene.Vma.Change.Rights.{rights_at}
use graphene.Vma.Change.Cut.{changed_rights}
use graphene.Vma.Change.Effect.{
  area_start, change_begin, vma_bkeep_change-IsOrdered, rights_at-vma_bkeep_change,
}
use graphene.Vma.Change.Cover.{IsAllowed, vma_bkeep_change-IsAllowed}
use graphene.Vma.Change.Fault.{vma_bkeep_change-fault}
use graphene.Vma.Samples.{file, heap, text, areas, no_refs, areas-IsOrdered}

abbrev removed : Removal
removed = record {
  vmas = record heap { end = 0x3000 } ∷ record text { begin = 0x6000; offset = 0x1100 } ∷ [];
  refs = no_refs;
  freed = [];
  spare = true;
}

removed_run : vma_bkeep_remove 0x3000 0x6000 false true areas no_refs ≡ ok removed
unfolding vma_bkeep_remove xor bit
removed_run = refl

vma_bkeep_remove-IsOrdered_example : IsOrdered 0 removed.vmas
vma_bkeep_remove-IsOrdered_example =
    vma_bkeep_remove-IsOrdered 0x3000 0x6000 false true areas no_refs areas-IsOrdered (omega arith)
      removed_run

view-vma_bkeep_remove_example :
    view removed.vmas 0x6000 ≡ (if within 0x3000 0x6000 0x6000 then none else view areas 0x6000)
view-vma_bkeep_remove_example =
    view-vma_bkeep_remove 0x3000 0x6000 0x6000 false true areas no_refs areas-IsOrdered
      (omega arith) removed_run

refused_run : vma_bkeep_remove 0x3000 0x6000 true true areas no_refs ≡ err eacces
unfolding vma_bkeep_remove xor bit
refused_run = refl

vma_bkeep_remove_total_example :
    ((r : Removal) × (vma_bkeep_remove 0x3000 0x4000 false true areas no_refs ≡ ok r))
    ⊎ Wrong 0x3000 0x4000 false areas
vma_bkeep_remove_total_example =
    vma_bkeep_remove_total 0x3000 0x4000 false areas no_refs areas-IsOrdered (omega arith)

heap_mapped : view areas 0x4000 ≡ some (mapping_at heap 0x4000)
unfolding view
heap_mapped = refl

-- A hole in the file mapping: its second part takes a reference.
abbrev split : Removal
split = record {
  vmas = heap ∷ record text { end = 0x6000 } ∷ record text { begin = 0x7000; offset = 0x2100 } ∷ [];
  refs = get_ref (some file) no_refs;
  freed = [];
  spare = false;
}

split_run : vma_bkeep_remove 0x6000 0x7000 false true areas no_refs ≡ ok split
unfolding vma_bkeep_remove xor bit
split_run = refl

vma_bkeep_remove-Balanced_example :
    split.refs 7 + holders 7 areas ≡ no_refs 7 + holders 7 split.vmas + holders 7 split.freed
vma_bkeep_remove-Balanced_example =
    vma_bkeep_remove-Balanced 7 0x6000 0x7000 false true areas no_refs split_run

-- The heap loses its write permission in the middle.
abbrev protected : Changed
protected = record {
  vmas =
      record heap { end = 0x3000 }
      ∷ record heap { begin = 0x3000; end = 0x4000; prot = 1 }
      ∷ record heap { begin = 0x4000 }
      ∷ text
      ∷ [];
  refs = no_refs;
  spare1 = false;
  spare2 = false;
}

protected_run : vma_bkeep_change 0x3000 0x4000 1 false areas no_refs ≡ changed protected
unfolding vma_bkeep_change split_tail xor bit
protected_run = refl

plain_prot : test_bit prot_growsdown 1 ≡ false
unfolding bit
plain_prot = refl

vma_bkeep_change-IsOrdered_example : IsOrdered 0 protected.vmas
vma_bkeep_change-IsOrdered_example =
    vma_bkeep_change-IsOrdered 0x3000 0x4000 1 false areas no_refs areas-IsOrdered (omega arith)
      protected_run

-- A stack with MAP_GROWSDOWN: with PROT_GROWSDOWN the change begins where it does.
abbrev stack : Vma
stack = record heap { flags = 0x122 }

abbrev stack_areas : List Vma
stack_areas = stack ∷ text ∷ []

abbrev grown : Changed
grown = record {
  vmas = record stack { end = 0x4000; prot = 1 } ∷ record stack { begin = 0x4000 } ∷ text ∷ [];
  refs = no_refs;
  spare1 = true;
  spare2 = false;
}

grown_run : vma_bkeep_change 0x3000 0x4000 0x1000001 false stack_areas no_refs ≡ changed grown
unfolding vma_bkeep_change xor bit
grown_run = refl

rights_at-vma_bkeep_change_example :
    rights_at grown.vmas 0x2800
    ≡ changed_rights
        (change_begin 0x3000 0x1000001 (area_start 0x3000 stack_areas))
        0x4000
        0x1000001
        0x2800
        (rights_at stack_areas 0x2800)
rights_at-vma_bkeep_change_example =
    rights_at-vma_bkeep_change 0x3000 0x4000 0x1000001 0x2800 false stack_areas no_refs
      (omega arith) (omega arith) grown_run

vma_bkeep_change-IsAllowed_example : IsAllowed 1 false areas 0x3800
vma_bkeep_change-IsAllowed_example =
    vma_bkeep_change-IsAllowed 0x3000 0x4000 1 0x3800 false areas no_refs areas-IsOrdered
      (omega arith) (omega arith) protected_run

user_heap : xor (test_bit vma_internal 0x22) false ≡ false
unfolding bit xor
user_heap = refl

-- The upper half of the last area.
vma_bkeep_change-fault_example : vma_bkeep_change 0x3000 0x5000 1 false (heap ∷ []) no_refs ≡ fault
unfolding shared_mismatch
vma_bkeep_change-fault_example =
    vma_bkeep_change-fault 0x3000 1 false [] heap no_refs (omega arith) (omega arith) (omega arith)
      plain_prot user_heap refl

text_mapped : view areas 0x6000 ≡ some (mapping_at text 0x6000)
unfolding view
text_mapped = refl
