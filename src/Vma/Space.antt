-- ===== src/Vma/Space.antt =====
-- The state of LibOS/shim/src/bookkeep/shim_vma.c (the tree and the handle references that areas
-- hold), and `bkeep_mmap_any_in_range`, which the other calls rest on.
pub mod Place
use graphene.Base.{
  ℕ, ◌+◌, ◌-◌, ◌%◌, ◌/◌, ◌*◌, ◌^◌, ◌≤◌, ◌<◌, Bool, true, false, not, ◌&&◌, ◌||◌, Option, none, some,
  List, [], ◌∷◌, leb, ◌==◌, if◌then◌else◌, min, bit_or, test_bit, Result, ok, err, einval, enomem,
}
use graphene.Vma.Types.{
  Vma, File, Refs, add64, filter_saved_flags, has_file, prot_write, tainted_mask, map_32bit,
  copy_comment, get_ref, put_ref,
}
use graphene.Vma.Tree.{insert}
use graphene.Vma.Gap.{search_gap}

-- ALLOC_ALIGNMENT, the user address range of the PAL control block, and `g_aslr_addr_top`.
pub record Config : Type 0 where
  pub align : ℕ
  pub user_start : ℕ
  pub user_end : ℕ
  pub aslr_top : ℕ

pub record Space : Type 0 where
  pub vmas : List Vma
  pub refs : Refs

-- The arguments of a mapping that the bookkeeping stores.
pub record Request : Type 0 where
  pub prot : ℕ
  pub flags : ℕ
  pub file : Option File
  pub offset : ℕ
  pub comment : List ℕ

-- IS_ALLOC_ALIGNED
unfoldable pub is_aligned : Config → ℕ → Bool
is_aligned cfg n = n % cfg.align == 0

-- ALLOC_ALIGN_UP
unfoldable pub align_up : Config → ℕ → ℕ
align_up cfg n = add64 n (cfg.align - 1) / cfg.align * cfg.align

-- The area that `bkeep_mmap_fixed` and `bkeep_mmap_any_in_range` fill in.
unfoldable pub new_vma : Request → ℕ → ℕ → Vma
unfolding filter_saved_flags copy_comment
new_vma q begin end = record {
  begin = begin;
  end = end;
  prot = q.prot;
  flags =
      if has_file q.file && test_bit prot_write q.prot
      then bit_or (filter_saved_flags q.flags) tainted_mask
      else filter_saved_flags q.flags;
  file = q.file;
  offset = if has_file q.file then q.offset else 0;
  comment = copy_comment q.comment;
}

-- `free_vmas_freelist`: the references of the freed areas are given back.
unfoldable pub put_all : List Vma → Refs → Refs
unfolding put_ref
put_all [] refs = refs
put_all (v ∷ vs) refs = put_all vs (put_ref v.file refs)

-- The part of `bkeep_mmap_any_in_range` that holds the lock.
unfoldable pub place : ℕ → ℕ → ℕ → Request → Space → Result ℕ × Space
unfolding search_gap new_vma insert get_ref put_ref
place bottom top length q s = elim (search_gap bottom top length s.vmas) [
  | none ↦ (err enomem, record s { refs = put_ref q.file (get_ref q.file s.refs) })
  | some end ↦ (
    ok (end - length),
    record s { vmas = insert (new_vma q (end - length) end) s.vmas; refs = get_ref q.file s.refs },
  )
]

-- The upper bound under MAP_32BIT.
unfoldable pub top_of : ℕ → Request → ℕ
top_of top q = if test_bit map_32bit q.flags then min top (2 ^ 31) else top

-- `bkeep_mmap_any_in_range`; `alloc` stands for the call of `alloc_vma`.
unfoldable pub bkeep_mmap_any_in_range :
    Config → (Space → Bool × Space) → ℕ → ℕ → ℕ → Request → Space → Result ℕ × Space
unfolding place top_of is_aligned
bkeep_mmap_any_in_range cfg alloc bottom top length q s =
    if length == 0 || not (is_aligned cfg length)
    then (err einval, s)
    else if not (is_aligned cfg bottom) || not (is_aligned cfg top)
    then (err einval, s)
    else if test_bit map_32bit q.flags && leb (top_of top q) bottom
    then (err enomem, s)
    else (let (got, s') = alloc s in
        if got then place bottom (top_of top q) length q s' else (err enomem, s'))

-- `bkeep_mmap_any`
unfoldable pub bkeep_mmap_any :
    Config → (Space → Bool × Space) → ℕ → Request → Space → Result ℕ × Space
unfolding bkeep_mmap_any_in_range
bkeep_mmap_any cfg alloc length q s =
    bkeep_mmap_any_in_range cfg alloc cfg.user_start cfg.user_end length q s
