-- ===== src/Vma/Samples.antt =====
-- Small inputs that the tests of the area bookkeeping share.
use graphene.Base.{none, some, List, [], ◌∷◌, arith}
use graphene.Vma.Types.{Vma, File, Refs}
use graphene.Vma.View.{IsOrdered}
use graphene.Vma.Space.{Config, Space, Request}

abbrev pub cfg : Config
cfg = record { align = 0x1000; user_start = 0x1000; user_end = 0x9000; aslr_top = 0x9000 }

abbrev pub file : File
file = record { id = 7; flags = 2 }

-- Anonymous memory, and behind it a private file mapping.
abbrev pub heap : Vma
heap = record {
  begin = 0x2000;
  end = 0x5000;
  prot = 3;
  flags = 0x22;
  file = none;
  offset = 0;
  comment = [];
}

abbrev pub text : Vma
text = record heap {
  begin = 0x5000;
  end = 0x8000;
  prot = 5;
  flags = 2;
  file = some file;
  offset = 0x100;
}

abbrev pub areas : List Vma
areas = heap ∷ text ∷ []

abbrev pub no_refs : Refs
no_refs h = 0

abbrev pub space : Space
space = record { vmas = areas; refs = no_refs }

abbrev pub request : Request
request = record { prot = 3; flags = 0x22; file = none; offset = 0; comment = [] }

pub areas-IsOrdered : IsOrdered 0 areas
areas-IsOrdered = omega arith
