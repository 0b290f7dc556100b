-- ===== src/Vma/Space/Place.antt =====
-- `bkeep_mmap_any_in_range`: where the new area goes, and what the address space is after it.
use graphene.Base.{
  ℕ, ◌+◌, ◌-◌, ◌≤◌, ◌<◌, ◌≡◌, refl, sym, Bool, true, false, some, leb, ◌&&◌, if◌then◌else◌, arith,
  ok, err, subst, Option-cases, inl, inr, ◌⊎◌, Errno, ok-injective, ap, Result-cases, ◌==◌,
  test_bit,
}
use graphene.Vma.Types.{map_32bit}
use graphene.Vma.Tree.{insert}
use graphene.Vma.View.{view, mapping_at, IsOrdered}
use graphene.Vma.Free.{IsFree, insert-IsOrdered, view-insert}
use graphene.Vma.Gap.{search_gap}
use graphene.Vma.Gap.Search.{search_gap-Found, search_gap-highest, search_gap-ne-none}
use graphene.Vma.Remove.Effect.{within}
use graphene.Vma.Space.{
  Config, Space, Request, new_vma, place, is_aligned, top_of, bkeep_mmap_any_in_range,
}

-- A mapping of `length` bytes at `r`: it lies inside the bounds where nothing was mapped, and
-- afterwards the new area is mapped there and all else is as it was.
pub record Placed (bottom top length : ℕ) (q : Request) (s s' : Space) (r : ℕ) : Type 0 where
  pub positive : 0 < length
  pub above : bottom ≤ r
  pub below : r + length ≤ top
  pub free : IsFree r (r + length) s.vmas
  pub ordered : IsOrdered 0 s'.vmas
  pub mapped :
      (a : ℕ)
      → view s'.vmas a ≡ (
          if within r (r + length) a
          then some (mapping_at (new_vma q r (r + length)) a)
          else view s.vmas a)

module _ (bottom top length : ℕ) (q : Request) (s : Space) (o : IsOrdered 0 s.vmas)
    (pos : 0 < length) where
  place_at :
      (e : ℕ) {t : Space}
      → search_gap bottom top length s.vmas ≡ some e
      → t.vmas ≡ insert (new_vma q (e - length) e) s.vmas
      → Placed bottom top length q s t (e - length)
  unfolding new_vma
  place_at e {t} found eq =
      let f = search_gap-Found bottom top length s.vmas o pos found in
      let same : e - length + length ≡ e = omega arith in
      record {
        positive = pos;
        above = omega arith;
        below = omega arith;
        free = rw same f.2;
        ordered = rw eq (
            insert-IsOrdered 0 (new_vma q (e - length) e) s.vmas o f.2 (omega arith) (omega arith));
        mapped = λ a. rw (eq, same) (view-insert (new_vma q (e - length) e) s.vmas a f.2);
      }

  -- What the locked part answers when it succeeds, and when it does not.
  place-Placed :
      {r : ℕ} {s' : Space}
      → place bottom top length q s ≡ (ok r, s')
      → Placed bottom top length q s s' r
  unfolding place
  place-Placed {r} {s'} e = elim (Option-cases (search_gap bottom top length s.vmas)) [
    | inl h ↦ absurd (cc (rw (h, place) at e))
    | inr (m, h) ↦
        subst (λ (n : ℕ). Placed bottom top length q s s' n)
          (ok-injective (ap (λ p. p.0) (rw (h, place) at e)))
          (place_at m h (ap (λ p. p.1.vmas) (sym (rw (h, place) at e))))
  ]

  place-highest :
      {r : ℕ} {s' : Space} (c : ℕ)
      → place bottom top length q s ≡ (ok r, s')
      → bottom ≤ c
      → c + length ≤ top
      → IsFree c (c + length) s.vmas
      → c ≤ r
  unfolding place
  place-highest {r} c e h k f = elim (Option-cases (search_gap bottom top length s.vmas)) [
    | inl n ↦ cc (rw (n, place) at e)
    | inr (m, n) ↦
        subst (λ (x : ℕ). c ≤ x) (ok-injective (ap (λ p. p.0) (rw (n, place) at e)))
          (omega (arith, search_gap-highest bottom top length s.vmas o c m h k f n))
  ]

  place-err :
      {x : Errno} {s' : Space} (c : ℕ)
      → place bottom top length q s ≡ (err x, s')
      → bottom ≤ c
      → c + length ≤ top
      → ¬ IsFree c (c + length) s.vmas
  unfolding place
  place-err c e h k f = elim (Option-cases (search_gap bottom top length s.vmas)) [
    | inl n ↦ search_gap-ne-none bottom top length s.vmas o c h k f n
    | inr (m, n) ↦ cc (rw (n, place) at e)
  ]

module _ (cfg : Config) (alloc : Space → Bool × Space) (bottom top length : ℕ) (q : Request)
    (s : Space) (o : IsOrdered 0 (alloc s).1.vmas) where
  -- A mapping anywhere that succeeds is placed inside the bounds, and leaves all else as it was.
  pub bkeep_mmap_any_in_range-Placed :
      {r : ℕ} {s' : Space}
      → bkeep_mmap_any_in_range cfg alloc bottom top length q s ≡ (ok r, s')
      → Placed bottom (top_of top q) length q (alloc s).1 s' r
  unfolding bkeep_mmap_any_in_range
  bkeep_mmap_any_in_range-Placed e =
      place-Placed bottom (top_of top q) length q (alloc s).1 o (ground arith) (ground arith)

  -- A mapping anywhere that succeeds takes the highest free place inside the bounds.
  pub bkeep_mmap_any_in_range-highest :
      {r : ℕ} {s' : Space} (c : ℕ)
      → bkeep_mmap_any_in_range cfg alloc bottom top length q s ≡ (ok r, s')
      → bottom ≤ c
      → c + length ≤ top_of top q
      → IsFree c (c + length) (alloc s).1.vmas
      → c ≤ r
  unfolding bkeep_mmap_any_in_range
  bkeep_mmap_any_in_range-highest {r} {s'} c e h k f =
      place-highest bottom (top_of top q) length q (alloc s).1 o (ground arith) {r = r} {s' = s'} c
        (ground arith) h k f

  passes :
      (c : ℕ)
      → (alloc s).0 ≡ true
      → 0 < length
      → is_aligned cfg length ≡ true
      → is_aligned cfg bottom ≡ true
      → is_aligned cfg top ≡ true
      → bottom ≤ c
      → c + length ≤ top_of top q
      → bkeep_mmap_any_in_range cfg alloc bottom top length q s
        ≡ place bottom (top_of top q) length q (alloc s).1
  unfolding bkeep_mmap_any_in_range
  passes c got pos al ab at h k =
      let nonzero : (length == 0) ≡ false = ground arith in
      let room : leb (top_of top q) bottom ≡ false = ground arith in
      let unset : (test_bit map_32bit q.flags && false) ≡ false = ground arith in
      rw (nonzero, al, ab, at, room, unset, got) refl

  -- If the allocator has an area, length and bounds are aligned and the length is not zero, and a free
  -- place lies inside the bounds after the allocation, then a mapping anywhere succeeds.
  pub bkeep_mmap_any_in_range_total :
      (c : ℕ)
      → (alloc s).0 ≡ true
      → 0 < length
      → is_aligned cfg length ≡ true
      → is_aligned cfg bottom ≡ true
      → is_aligned cfg top ≡ true
      → bottom ≤ c
      → c + length ≤ top_of top q
      → IsFree c (c + length) (alloc s).1.vmas
      → (r : ℕ) × ((bkeep_mmap_any_in_range cfg alloc bottom top length q s).0 ≡ ok r)
  bkeep_mmap_any_in_range_total c got pos al ab at h k f =
      rw (passes c got pos al ab at h k)
        (elim (Result-cases (place bottom (top_of top q) length q (alloc s).1).0) [
          | inl found ↦ found
          | inr (x, e) ↦ absurd (
              place-err bottom (top_of top q) length q (alloc s).1 o pos {x = x}
                {s' = (place bottom (top_of top q) length q (alloc s).1).1} c
                (ap (λ y. (y, (place bottom (top_of top q) length q (alloc s).1).1)) e) h k f)
        ])

place-vmas_of_err :
    (bottom top length : ℕ) (q : Request) (s : Space) {x : Errno} {s' : Space}
    → place bottom top length q s ≡ (err x, s')
    → s'.vmas ≡ s.vmas
unfolding place
place-vmas_of_err bottom top length q s e =
    elim (Option-cases (search_gap bottom top length s.vmas)) [
      | inl n ↦ ap (λ p. p.1.vmas) (sym (rw (n, place) at e))
      | inr (m, n) ↦ cc (rw (n, place) at e)
    ]

-- A mapping anywhere that fails leaves the tree as it was, or as the allocation left it.
pub bkeep_mmap_any_in_range-err :
    (cfg : Config) (alloc : Space → Bool × Space) (bottom top length : ℕ) (q : Request) (s : Space)
    {x : Errno} {s' : Space}
    → bkeep_mmap_any_in_range cfg alloc bottom top length q s ≡ (err x, s')
    → (s'.vmas ≡ s.vmas) ⊎ (s'.vmas ≡ (alloc s).1.vmas)
unfolding bkeep_mmap_any_in_range
bkeep_mmap_any_in_range-err cfg alloc bottom top length q s {x} {s'} e =
    ground (arith, place-vmas_of_err bottom (top_of top q) length q (alloc s).1 {x = x} {s' = s'})
