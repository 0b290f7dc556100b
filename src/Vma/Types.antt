-- ===== src/Vma/Types.antt =====
-- `struct shim_vma` of LibOS/shim/src/bookkeep/shim_vma.c, its flags, and the functions that
-- copy, split and re-protect one area. Addresses, offsets and flags are the bit patterns of the
-- C integers: numbers below 2 ^ 64 or 2 ^ 32.
use graphene.Base.{
  ℕ, ◌+◌, ◌-◌, ◌%◌, ◌^◌, bit_and, bit_or, Bool, true, false, ◌&&◌, Option, none, some, List, ltb,
  leb, ◌==◌, if◌then◌else◌, take, test_bit,
}

-- `struct shim_handle`, as far as this file reads it; `id` stands for its address.
pub record File : Type 0 where
  pub id : ℕ
  pub flags : ℕ

pub record Vma : Type 0 where
  pub begin : ℕ
  pub end : ℕ
  pub prot : ℕ
  pub flags : ℕ
  pub file : Option File
  pub offset : ℕ
  pub comment : List ℕ

-- Addition of `uintptr_t` and of `off_t` bit patterns.
abbrev pub add64 : ℕ → ℕ → ℕ
add64 a b = (a + b) % 2 ^ 64

-- The bit positions of the flags that the code tests.
abbrev pub map_shared : ℕ
map_shared = 0

abbrev pub map_32bit : ℕ
map_32bit = 6

abbrev pub map_growsdown : ℕ
map_growsdown = 8

abbrev pub map_fixed_noreplace : ℕ
map_fixed_noreplace = 20

abbrev pub vma_unmapped : ℕ
vma_unmapped = 28

abbrev pub vma_internal : ℕ
vma_internal = 29

abbrev pub prot_write : ℕ
prot_write = 1

abbrev pub prot_growsdown : ℕ
prot_growsdown = 24

-- VMA_TAINTED, and VMA_INTERNAL | VMA_UNMAPPED.
abbrev pub tainted_mask : ℕ
tainted_mask = 0x40000000

abbrev pub unmapped_internal_mask : ℕ
unmapped_internal_mask = 0x30000000

-- MAP_SHARED | MAP_SHARED_VALIDATE | MAP_PRIVATE | MAP_ANONYMOUS | MAP_FILE | MAP_GROWSDOWN
-- | MAP_HUGETLB | MAP_HUGE_2MB | MAP_HUGE_1GB | MAP_STACK | VMA_UNMAPPED | VMA_INTERNAL
-- | VMA_TAINTED; the huge page sizes are 21 and 30, shifted by 26.
abbrev pub saved_mask : ℕ
saved_mask =
    bit_or 0x123
      (bit_or 0x40000 (bit_or 0x54000000 (bit_or 0x78000000 (bit_or 0x20000 0x70000000))))

unfoldable pub filter_saved_flags : ℕ → ℕ
filter_saved_flags flags = bit_and flags saved_mask

abbrev pub is_internal : Vma → Bool
is_internal v = test_bit vma_internal v.flags

abbrev pub is_unmapped : Vma → Bool
is_unmapped v = test_bit vma_unmapped v.flags

abbrev pub has_file : Option File → Bool
has_file none = false
has_file (some f) = true

-- `copy_comment`: at most VMA_COMMENT_LEN - 1 characters and the terminator.
unfoldable pub copy_comment : List ℕ → List ℕ
copy_comment comment = take 15 comment

-- What `copy_vma` writes to the new area; the reference to the file is taken by `get_handle`.
unfoldable pub copy_vma : Vma → Vma
copy_vma v = record v { comment = copy_comment v.comment }

unfoldable pub is_addr_in_vma : ℕ → Vma → Bool
is_addr_in_vma addr v = leb v.begin addr && ltb addr v.end

-- `offset` moved on by `delta` bytes, if the area has a file.
unfoldable pub advance : Option File → ℕ → ℕ → ℕ
advance none offset delta = offset
advance (some f) offset delta = add64 offset delta

-- `split_vma`: the old area, cut at `addr`, and the new one from there on.
unfoldable pub split_vma : Vma → ℕ → Vma × Vma
unfolding copy_vma advance copy_comment
split_vma v addr =
    let new = copy_vma v in
    (
      record v { end = addr },
      record new { begin = addr; offset = advance v.file v.offset (addr - v.begin) },
    )

-- `vma_update_prot`
unfoldable pub vma_update_prot : Vma → ℕ → Vma
vma_update_prot v prot = record v {
  prot = bit_and prot 7;
  flags =
      if has_file v.file && test_bit prot_write prot then bit_or v.flags tainted_mask else v.flags;
}

-- The references that areas hold to handles, by the handle's address: `get_handle`, `put_handle`.
abbrev pub Refs : Type 0
Refs = ℕ → ℕ

unfoldable pub get_ref : Option File → Refs → Refs
get_ref none refs = refs
get_ref (some f) refs = λ h. if h == f.id then refs h + 1 else refs h

unfoldable pub put_ref : Option File → Refs → Refs
put_ref none refs = refs
put_ref (some f) refs = λ h. if h == f.id then refs h - 1 else refs h
