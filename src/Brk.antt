-- ===== src/Brk.antt =====
-- LibOS/shim/src/sys/shim_brk.c: the program break, on top of the area bookkeeping.
pub mod Bounds
pub mod Grow
mod Tests
use graphene.Base.{
  ℕ, ◌+◌, ◌-◌, ◌%◌, Bool, true, false, ◌||◌, none, [], ◌∷◌, ltb, leb, ◌==◌, if◌then◌else◌, Result,
  ok, err,
}
use graphene.Vma.Types.{add64}
use graphene.Vma.Space.{Config, Space, Request}
use graphene.Vma.Alloc.{Supply}
use graphene.Vma.Calls.{bkeep_mmap_fixed}

-- `brk_region`
pub record BrkRegion : Type 0 where
  pub data_segment_size : ℕ
  pub brk_start : ℕ
  pub brk_current : ℕ
  pub brk_end : ℕ

-- What a call answers, with what it leaves; or `BUG()`.
pub data BrkReply : Type 0 where
  returns : ℕ → BrkRegion → Space → BrkReply
  bug : BrkReply

-- ALLOC_ALIGN_UP_PTR
abbrev pub align_up_ptr : Config → ℕ → ℕ
align_up_ptr cfg p = add64 p (cfg.align - 1) - add64 p (cfg.align - 1) % cfg.align

-- PROT_READ | PROT_WRITE, and the two sets of flags of the calls of `bkeep_mmap_fixed`.
abbrev pub read_write : ℕ
read_write = 3

abbrev pub private_fixed : ℕ
private_fixed = 0x32

abbrev pub unmapped_fixed : ℕ
unmapped_fixed = 0x10000010

abbrev pub heap_request : ℕ → ℕ → Request
heap_request prot flags = record {
  prot = prot;
  flags = flags;
  file = none;
  offset = 0;
  comment = 104 ∷ 101 ∷ 97 ∷ 112 ∷ [];
}

-- The supplies of area objects of the two calls of `bkeep_mmap_fixed`.
pub record Supplies : Type 0 where
  pub first : Supply × Supply
  pub second : Supply × Supply

-- `out`: the current break is answered.
abbrev pub answer : BrkRegion → Space → BrkReply
answer b s = returns b.brk_current b s

abbrev pub moved : ℕ → BrkRegion → BrkRegion
moved brk b = record b { brk_current = brk }

-- The break goes down: what lies above it becomes unmapped.
abbrev pub unless_err :
    Result (Unit {0}) × Space → (Space → BrkReply) → (Space → BrkReply) → BrkReply
unless_err (ok x, s) good bad = good s
unless_err (err e, s) good bad = bad s

unfoldable pub shrink_brk : Config → Supplies → ℕ → BrkRegion → Space → BrkReply
unfolding bkeep_mmap_fixed
shrink_brk cfg supplies brk b s =
    if align_up_ptr cfg b.brk_current - align_up_ptr cfg brk == 0
    then answer (moved brk b) s
    else unless_err
        (bkeep_mmap_fixed cfg supplies.first.0 supplies.first.1 (align_up_ptr cfg brk)
          (b.brk_end - align_up_ptr cfg brk) (heap_request 0 unmapped_fixed) s)
        (answer (moved brk b)) (answer b)

-- The PAL has not given the memory: the new area is taken back.
unfoldable pub undo_grow : Config → Supplies → BrkRegion → Space → BrkReply
unfolding bkeep_mmap_fixed
undo_grow cfg supplies b s =
    unless_err
      (bkeep_mmap_fixed cfg supplies.second.0 supplies.second.1 (align_up_ptr cfg b.brk_current)
        (b.brk_end - align_up_ptr cfg b.brk_current) (heap_request 0 unmapped_fixed) s)
      (answer b) (λ s'. bug)

-- The break goes up, within the limit on data; `pal` says whether the PAL gives the memory.
unfoldable pub grow_brk : Config → Supplies → ℕ → Bool → ℕ → BrkRegion → Space → BrkReply
unfolding undo_grow bkeep_mmap_fixed
grow_brk cfg supplies limit pal brk b s =
    if ltb limit b.data_segment_size
      || ltb (limit - b.data_segment_size) (align_up_ptr cfg brk - b.brk_start)
    then answer b s
    else unless_err
        (bkeep_mmap_fixed cfg supplies.first.0 supplies.first.1 (align_up_ptr cfg b.brk_current)
          (align_up_ptr cfg brk - align_up_ptr cfg b.brk_current)
          (heap_request read_write private_fixed) s)
        (λ s'. if pal then answer (moved brk b) s' else undo_grow cfg supplies b s') (answer b)

-- `shim_do_brk`
unfoldable pub shim_do_brk : Config → Supplies → ℕ → Bool → ℕ → BrkRegion → Space → BrkReply
unfolding shrink_brk grow_brk
shim_do_brk cfg supplies limit pal brk b s =
    if ltb brk b.brk_start
    then answer b s
    else if leb brk (align_up_ptr cfg b.brk_current)
    then shrink_brk cfg supplies brk b s
    else if ltb b.brk_end brk
    then answer b s
    else grow_brk cfg supplies limit pal brk b s
