-- ===== src/Vma/Change/Rights.antt =====
-- What a change of protection may alter and what it must keep, address by address.
use graphene.Base.{
  ℕ, ◌%◌, ◌≡◌, refl, Option, none, some, List, arith, bit, bit_or, bit-bit_or, bit_and-mod_eight,
  bit-le-one,
}
use graphene.Vma.Types.{Vma, File, vma_update_prot, vma_internal, vma_unmapped, tainted_mask}
use graphene.Vma.View.{Mapping, mapping_at, view}

-- The protection bits, the place in the file, and the two bits that say whose the area is. The
-- taint is left out: a change may set it.
pub record Rights : Type 0 where
  pub prot : ℕ
  pub file : Option File
  pub offset : ℕ
  pub internal : ℕ
  pub unmapped : ℕ

unfoldable pub rights : Mapping → Rights
rights m = record {
  prot = m.prot % 8;
  file = m.file;
  offset = m.offset;
  internal = bit vma_internal m.flags;
  unmapped = bit vma_unmapped m.flags;
}

abbrev pub rights? : Option Mapping → Option Rights
rights? none = none
rights? (some m) = some (rights m)

abbrev pub rights_at : List Vma → ℕ → Option Rights
rights_at vs a = rights? (view vs a)

abbrev pub reprotect : ℕ → Rights → Rights
reprotect prot r = record r { prot = prot % 8 }

abbrev pub reprotect? : ℕ → Option Rights → Option Rights
reprotect? prot none = none
reprotect? prot (some r) = some (reprotect prot r)

internal-mask : bit vma_internal tainted_mask ≡ 0
unfolding bit
internal-mask = refl

unmapped-mask : bit vma_unmapped tainted_mask ≡ 0
unfolding bit
unmapped-mask = refl

internal-tainted : (w : ℕ) → bit vma_internal (bit_or w tainted_mask) ≡ bit vma_internal w
internal-tainted w =
    omega (arith, bit-bit_or vma_internal w tainted_mask, bit-le-one vma_internal w, internal-mask)

unmapped-tainted : (w : ℕ) → bit vma_unmapped (bit_or w tainted_mask) ≡ bit vma_unmapped w
unmapped-tainted w = omega (arith, bit-bit_or vma_unmapped w tainted_mask, unmapped-mask)

-- `vma_update_prot` sets the protection and keeps the rest.
pub rights-vma_update_prot :
    (v : Vma) (prot a : ℕ)
    → rights (mapping_at (vma_update_prot v prot) a) ≡ reprotect prot (rights (mapping_at v a))
unfolding rights mapping_at vma_update_prot
rights-vma_update_prot v prot a =
    ground (arith, internal-tainted v.flags, unmapped-tainted v.flags, bit_and-mod_eight prot)
