-- ===== src/Vma/Calls/Fixed.antt =====
-- `bkeep_mmap_fixed`: the new mapping, with and without MAP_FIXED_NOREPLACE.
use graphene.Base.{
  ℕ, ◌+◌, ◌^◌, ◌≤◌, ◌<◌, ◌≡◌, refl, sym, ap, Bool, true, false, none, some, List, [], ◌∷◌, ◌++◌,
  if◌then◌else◌, arith, ok, err, eexist, subst, Result-cases, inl, inr, ◌⊎◌, Bool-cases,
  ok-injective, test_bit,
}
use graphene.Vma.Types.{Vma, add64, map_fixed_noreplace, vma_internal, get_ref}
use graphene.Vma.Tree.{insert, lookup}
use graphene.Vma.View.{
  view, mapping_at, IsOrdered, last_end, EndsAbove, lookup-append, last_end-lookup,
  lookup-EndsAbove, IsOrdered-append_left, IsOrdered-append_right, le-last_end,
}
use graphene.Vma.Free.{
  IsFree, IsFree-view, IsFree-append, IsFree-append_right, IsOrdered-IsFree, insert-IsOrdered,
  view-insert, view-IsFree,
}
use graphene.Vma.Remove.{Removal, vma_bkeep_remove}
use graphene.Vma.Remove.Effect.{within}
use graphene.Vma.Remove.Laws.{vma_bkeep_remove-IsOrdered, view-vma_bkeep_remove}
use graphene.Vma.Space.{Config, Space, Request, new_vma}
use graphene.Vma.Alloc.{Supply, alloc_vma}
use graphene.Vma.Calls.{bad_range, overlaps, make_room, mmap_fixed_room, bkeep_mmap_fixed}
use graphene.Vma.Calls.Unmap.{after_allocs, after_allocs-Extends}

-- Areas that all end at or below `b` leave the range free.
last_end-IsFree :
    (lo b e : ℕ) (vs : List Vma) → IsOrdered lo vs → last_end lo vs ≤ b → IsFree b e vs
last_end-IsFree lo b e [] o h = tt
last_end-IsFree lo b e (v ∷ vs) o h =
    (inl (omega (arith, le-last_end v.end vs o.2)), last_end-IsFree v.end b e vs o.2 h)

-- The test of MAP_FIXED_NOREPLACE is exact.
overlaps-IsFree :
    (b e : ℕ) (before after : List Vma)
    → IsOrdered 0 (before ++ after)
    → last_end 0 before ≤ b
    → overlaps e after ≡ false
    → IsFree b e (before ++ after)
unfolding overlaps
overlaps-IsFree b e before [] o h k =
    IsFree-append b e before []
      (last_end-IsFree 0 b e before (IsOrdered-append_left 0 before [] o) h) tt
overlaps-IsFree b e before (v ∷ vs) o h k =
    let ov = IsOrdered-append_right 0 before (v ∷ vs) o in
    IsFree-append b e before (v ∷ vs)
      (last_end-IsFree 0 b e before (IsOrdered-append_left 0 before (v ∷ vs) o) h)
      (IsOrdered-IsFree b e (v ∷ vs) (ground arith, ov.1, ov.2))

overlaps-taken :
    (b e : ℕ) (before after : List Vma)
    → EndsAbove b after
    → overlaps e after ≡ true
    → ¬ IsFree b e (before ++ after)
unfolding overlaps
overlaps-taken b e before [] above k f = cc
overlaps-taken b e before (v ∷ vs) above k f =
    ground (arith, IsFree-append_right b e before (v ∷ vs) f)

-- The tree that is left for the new area has room, and is the old one outside the range.
record HasRoom (begin end : ℕ) (old new : List Vma) : Type 0 where
  ordered : IsOrdered 0 new
  free : IsFree begin end new
  outside : (a : ℕ) → view new a ≡ (if within begin end a then none else view old a)

make_room-HasRoom :
    (begin end flags : ℕ) (got : Bool) (s : Space) {r : Removal}
    → IsOrdered 0 s.vmas
    → begin < end
    → make_room begin end flags got s ≡ ok r
    → HasRoom begin end s.vmas r.vmas
unfolding make_room
make_room-HasRoom begin end flags got s {r} o lt e =
    elim (Bool-cases (test_bit map_fixed_noreplace flags)) [
      | inl h ↦ elim (Bool-cases (overlaps end (lookup begin s.vmas).1)) [
        | inl k ↦ absurd (cc (rw (h, k, make_room) at e))
        | inr k ↦
            let free : IsFree begin end s.vmas = rw lookup-append at (
              overlaps-IsFree begin end (lookup begin s.vmas).0 (lookup begin s.vmas).1
                (rw lookup-append o) (last_end-lookup 0 begin s.vmas o (omega arith)) k) in
            subst (λ (x : Removal). HasRoom begin end s.vmas x.vmas)
              (ok-injective (rw (h, k, make_room) at e))
              (record {
                ordered = o;
                free = free;
                outside = λ a. ground (arith, view-IsFree begin end a s.vmas free);
              })
      ]
      | inr h ↦
          let e' : vma_bkeep_remove begin end (test_bit vma_internal flags) got s.vmas s.refs
              ≡ ok r =
            rw (h, make_room) at e in
          let ordered =
            vma_bkeep_remove-IsOrdered begin end (test_bit vma_internal flags) got s.vmas s.refs o
              lt e' in
          let out = λ (a : ℕ).
            view-vma_bkeep_remove begin end a (test_bit vma_internal flags) got s.vmas s.refs o lt
              e' in
          record {
            ordered = ordered;
            free = IsFree-view 0 begin end r.vmas ordered lt (λ a ge l. ground (arith, out a));
            outside = out;
          }
    ]

-- The new mapping stands in the range, and outside it nothing has changed.
pub record MapsFixed (begin end : ℕ) (q : Request) (s s' : Space) : Type 0 where
  pub ordered : IsOrdered 0 s'.vmas
  pub mapped :
      (a : ℕ)
      → view s'.vmas a
        ≡ (if within begin end a then some (mapping_at (new_vma q begin end) a) else view s.vmas a)

fill :
    (begin end : ℕ) (q : Request) (s s' : Space) (vmas : List Vma)
    → begin < end
    → HasRoom begin end s.vmas vmas
    → s'.vmas ≡ insert (new_vma q begin end) vmas
    → MapsFixed begin end q s s'
unfolding new_vma
fill begin end q s s' vmas lt room eq = record {
  ordered =
      rw eq (insert-IsOrdered 0 (new_vma q begin end) vmas room.ordered room.free (omega arith) lt);
  mapped = λ a.
      rw eq (ground (arith, view-insert (new_vma q begin end) vmas a room.free, room.outside a));
}

mmap_fixed_room-MapsFixed :
    (begin end : ℕ) (got : Bool) (q : Request) (s : Space) {s' : Space}
    → IsOrdered 0 s.vmas
    → begin < end
    → mmap_fixed_room begin end q s (make_room begin end q.flags got s) ≡ (ok tt, s')
    → MapsFixed begin end q s s'
unfolding mmap_fixed_room
mmap_fixed_room-MapsFixed begin end got q s {s'} o lt e =
    elim (Result-cases (make_room begin end q.flags got s)) [
      | inr (x, h) ↦ absurd (cc (rw (h, mmap_fixed_room) at e))
      | inl (r, h) ↦
          fill begin end q s s' r.vmas lt (make_room-HasRoom begin end q.flags got s o lt h)
            (ap (λ p. p.1.vmas) (sym (rw (h, mmap_fixed_room) at e)))
    ]

-- The state in which the new area holds its reference.
abbrev referenced : Request → Space → Space
referenced q s = record s { refs = get_ref q.file s.refs }

-- `bkeep_mmap_fixed` that succeeds maps the request at exactly the range asked for; all other
-- addresses are as after the two allocations. The range must not wrap round the address space.
pub bkeep_mmap_fixed-MapsFixed :
    (cfg : Config) (supply1 supply2 : Supply) (addr length : ℕ) (q : Request) (s : Space)
    {s' : Space}
    → IsOrdered 0 s.vmas
    → addr + length < 2 ^ 64
    → bkeep_mmap_fixed cfg supply1 supply2 addr length q s ≡ (ok tt, s')
    → MapsFixed addr (addr + length) q (after_allocs cfg supply1 supply2 s) s'
unfolding bkeep_mmap_fixed bad_range
bkeep_mmap_fixed-MapsFixed cfg supply1 supply2 addr length q s {s'} o bound e =
    let same : add64 addr length ≡ addr + length = omega arith in
    let m =
      mmap_fixed_room-MapsFixed addr (addr + length)
        (alloc_vma cfg supply2 (alloc_vma cfg supply1 s).1).0 q
        (referenced q (after_allocs cfg supply1 supply2 s)) {s' = s'}
        (after_allocs-Extends cfg supply1 supply2 s o).ordered (ground (arith, e))
        (ground (arith, same)) in
    record { ordered = m.ordered; mapped = m.mapped }

-- Under MAP_FIXED_NOREPLACE room is made exactly where the range is free: EEXIST is answered if
-- some area meets the range, and otherwise nothing is removed.
pub make_room-noreplace :
    (begin end flags : ℕ) (got : Bool) (s : Space)
    → IsOrdered 0 s.vmas
    → begin < end
    → test_bit map_fixed_noreplace flags ≡ true
    → ((make_room begin end flags got s ≡ err eexist) × (¬ IsFree begin end s.vmas))
      ⊎ ((r : Removal) × (make_room begin end flags got s ≡ ok r)
          × (r.vmas ≡ s.vmas)
          × IsFree begin end s.vmas)
unfolding make_room
make_room-noreplace begin end flags got s o lt h =
    elim (Bool-cases (overlaps end (lookup begin s.vmas).1)) [
      | inl k ↦ inl (
        rw (h, k),
        λ f.
            overlaps-taken begin end (lookup begin s.vmas).0 (lookup begin s.vmas).1
              (lookup-EndsAbove begin s.vmas) k (rw lookup-append f),
      )
      | inr k ↦ inr (
        record { vmas = s.vmas; refs = s.refs; freed = []; spare = got },
        rw (h, k),
        refl,
        rw lookup-append at (
            overlaps-IsFree begin end (lookup begin s.vmas).0 (lookup begin s.vmas).1
              (rw lookup-append o) (last_end-lookup 0 begin s.vmas o (omega arith)) k),
      )
    ]
