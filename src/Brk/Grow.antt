-- ===== src/Brk/Grow.antt =====
-- A break that has gone up: the area bookkeeping shows the new pages.
use graphene.Base.{
  ℕ, ◌+◌, ◌-◌, ◌^◌, ◌≤◌, ◌<◌, ◌≡◌, ◌≢◌, sym, ap, ◌∙◌, inl, inr, Bool, true, false, ◌||◌, Option,
  none, some, ltb, leb, if◌then◌else◌, Result, ok, err, arith, Bool-cases, if_then, if_else, subst,
}
use graphene.Vma.Space.{Config, Space}
use graphene.Vma.View.{IsOrdered}
use graphene.Vma.Calls.{bkeep_mmap_fixed}
use graphene.Vma.Calls.Unmap.{after_allocs}
use graphene.Vma.Calls.Fixed.{MapsFixed, bkeep_mmap_fixed-MapsFixed}
use graphene.Brk.{
  BrkRegion, BrkReply, returns, bug, Supplies, align_up_ptr, answer, moved, unless_err,
  heap_request, read_write, private_fixed, shrink_brk, undo_grow, grow_brk, shim_do_brk,
}
use graphene.Brk.Bounds.{IsWell, page_up}

abbrev address : BrkReply → Option ℕ
address (returns p b s) = some p
address bug = none

-- The state after an answer, or another one.
abbrev space_or : Space → BrkReply → Space
space_or s0 (returns p b s) = s
space_or s0 bug = s0

-- A reply that is not the address that was asked for.
answer-other :
    (brk : ℕ) (b b' : BrkRegion) (s s' : Space)
    → b.brk_current < brk
    → answer b s ≢ returns brk b' s'
answer-other brk b b' s s' h e = ground (arith, h, ap address e)

undo-other :
    (r : Result (Unit {0}) × Space) (brk : ℕ) (b b' : BrkRegion) (s' : Space)
    → b.brk_current < brk
    → unless_err r (answer b) (λ t. bug) ≢ returns brk b' s'
undo-other (ok x, s) brk b b' s' h e = answer-other brk b b' s s' h e
undo-other (err x, s) brk b b' s' h e = ground (arith, ap address e)

grown :
    (cfg : Config) (supplies : Supplies) (r : Result (Unit {0}) × Space) (pal : Bool) (brk : ℕ)
    (b b' : BrkRegion) (s' : Space)
    → b.brk_current < brk
    → unless_err r
        (λ t. if pal then answer (moved brk b) t else undo_grow cfg supplies b t)
        (answer b)
      ≡ returns brk b' s'
    → r ≡ (ok tt, s')
unfolding undo_grow
grown cfg supplies (ok tt, s) true brk b b' s' h e = ap (λ t. (ok tt, t)) (ap (space_or s) e)
grown cfg supplies (ok tt, s) false brk b b' s' h e = absurd (undo-other _ brk b b' s' h e)
grown cfg supplies (err x, s) pal brk b b' s' h e = absurd (answer-other brk b b' s s' h e)

grow_brk-mmap :
    (cfg : Config) (supplies : Supplies) (limit : ℕ) (pal : Bool) (brk : ℕ) (b b' : BrkRegion)
    (s s' : Space)
    → b.brk_current < brk
    → grow_brk cfg supplies limit pal brk b s ≡ returns brk b' s'
    → bkeep_mmap_fixed cfg supplies.first.0 supplies.first.1
        (align_up_ptr cfg b.brk_current)
        (align_up_ptr cfg brk - align_up_ptr cfg b.brk_current)
        (heap_request read_write private_fixed)
        s
      ≡ (ok tt, s')
unfolding grow_brk
grow_brk-mmap cfg supplies limit pal brk b b' s s' h e =
    elim (Bool-cases (
      ltb limit b.data_segment_size
      || ltb (limit - b.data_segment_size) (align_up_ptr cfg brk - b.brk_start))) [
        | inl over ↦ absurd (answer-other brk b b' s s' h (sym (if_then _ (answer b s) _ over) ∙ e))
        | inr fits ↦
            grown cfg supplies _ pal brk b b' s' h (sym (if_else _ (answer b s) _ fits) ∙ e)
      ]

sum_back : (x y : ℕ) → x ≤ y → x + (y - x) ≡ y
sum_back x y h = omega arith

sum_bound : (x y z : ℕ) → x ≤ y → y ≤ z → z + 4096 ≤ 2 ^ 64 → x + (y - x) < 2 ^ 64
sum_bound x y z h k p = omega arith

-- A call of brk on a well-formed region and ordered areas that answers a break above the pages of
-- the old one has mapped the pages between the two as private memory to read and to write; every
-- other address is as after the allocation of the area objects.
pub shim_do_brk-MapsFixed :
    (cfg : Config) (supplies : Supplies) (limit : ℕ) (pal : Bool) (brk : ℕ) (b b' : BrkRegion)
    (s s' : Space)
    → IsWell cfg b
    → IsOrdered 0 s.vmas
    → align_up_ptr cfg b.brk_current < brk
    → brk ≤ b.brk_end
    → shim_do_brk cfg supplies limit pal brk b s ≡ returns brk b' s'
    → MapsFixed
        (align_up_ptr cfg b.brk_current)
        (align_up_ptr cfg brk)
        (heap_request read_write private_fixed)
        (after_allocs cfg supplies.first.0 supplies.first.1 s)
        s'
unfolding shim_do_brk
shim_do_brk-MapsFixed cfg supplies limit pal brk b b' s s' w o h k e =
    let old = page_up cfg limit brk b w b.brk_current w.end in
    let new = page_up cfg limit brk b w brk k in
    let path : shim_do_brk cfg supplies limit pal brk b s
        ≡ grow_brk cfg supplies limit pal brk b s =
      if_else (ltb brk b.brk_start) (answer b s) _ (ground (arith, old, w.start, h))
      ∙ if_else (leb brk (align_up_ptr cfg b.brk_current)) (shrink_brk cfg supplies brk b s) _
          (ground (arith, h))
      ∙ if_else (ltb b.brk_end brk) (answer b s) _ (ground (arith, k)) in
    subst
      (λ end.
        MapsFixed (align_up_ptr cfg b.brk_current) end (heap_request read_write private_fixed)
          (after_allocs cfg supplies.first.0 supplies.first.1 s) s')
      (sum_back (align_up_ptr cfg b.brk_current) (align_up_ptr cfg brk) (omega (arith, h, new.0)))
      (bkeep_mmap_fixed-MapsFixed cfg supplies.first.0 supplies.first.1
        (align_up_ptr cfg b.brk_current) _ (heap_request read_write private_fixed) s o
        (sum_bound (align_up_ptr cfg b.brk_current) (align_up_ptr cfg brk) b.brk_end
          (omega (arith, h, new.0)) new.1 w.word)
        (grow_brk-mmap cfg supplies limit pal brk b b' s s' (omega (arith, old.0, h))
          (sym path ∙ e)))
