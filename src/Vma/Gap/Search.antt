-- ===== src/Vma/Gap/Search.antt =====
-- The gap search over the whole tree: sound, and the highest gap if there is one.
use graphene.Base.{ℕ, ◌+◌, ◌-◌, ◌≤◌, ◌<◌, ◌≡◌, ◌≢◌, none, some, List, [], ◌∷◌, ◌++◌, arith}
use graphene.Vma.Types.{Vma}
use graphene.Vma.Tree.{lookup}
use graphene.Vma.View.{
  IsOrdered, last_end, EndsAbove, IsOrdered-append_left, IsOrdered-append_right, lookup-append,
  last_end-lookup, lookup-EndsAbove,
}
use graphene.Vma.Free.{
  IsFree, IsFree-append, IsFree-append_left, IsFree-append_right, IsOrdered-IsFree,
}
use graphene.Vma.Gap.{
  find_gap, first_max, reverse_onto, search_gap, IsDescending, Found, find_gap-Found,
  find_gap-highest, find_gap-ne-none, reverse_onto-IsDescending, reverse_onto-IsFree,
  IsFree-reverse_onto_left,
}

-- The facts about the two sides of the cursor.
module _ (top : ℕ) (before after : List Vma) (o : IsOrdered 0 (before ++ after))
    (lb : last_end 0 before ≤ top) (above : EndsAbove top after) where
  last_end-le-first_max :
      (ws : List Vma) → IsOrdered (last_end 0 before) ws → last_end 0 before ≤ first_max top ws
  unfolding first_max
  last_end-le-first_max [] p = lb
  last_end-le-first_max (w ∷ ws) p = omega arith

  descending : IsDescending (first_max top after) (reverse_onto before [])
  descending =
      reverse_onto-IsDescending 0 (first_max top after) before []
        (IsOrdered-append_left 0 before after o) tt
        (last_end-le-first_max after (IsOrdered-append_right 0 before after o))

  after-IsFree :
      (b e : ℕ) (ws : List Vma) (lo : ℕ) → IsOrdered lo ws → e ≤ first_max top ws → IsFree b e ws
  unfolding first_max
  after-IsFree b e [] lo p h = tt
  after-IsFree b e (w ∷ ws) lo p h = IsOrdered-IsFree b e (w ∷ ws) (omega arith, p.1, p.2)

  le-first_max :
      (c e : ℕ) (ws : List Vma)
      → EndsAbove top ws
      → IsFree c e ws
      → c ≤ e
      → e ≤ top
      → e ≤ first_max top ws
  unfolding first_max
  le-first_max c e [] a f h k = k
  le-first_max c e (w ∷ ws) a f h k = ground arith

  split-Found :
      (bottom length : ℕ) {m : ℕ}
      → 0 < length
      → find_gap bottom length (first_max top after) (reverse_onto before []) ≡ some m
      → Found bottom length (first_max top after) (before ++ after) m
  split-Found bottom length {m} lt e =
      let g =
        find_gap-Found bottom length (first_max top after) (reverse_onto before []) descending lt
          e in
      record {
        above = g.above;
        below = g.below;
        free =
            IsFree-append (m - length) m before after
              (IsFree-reverse_onto_left (m - length) m before [] g.free)
              (after-IsFree (m - length) m after (last_end 0 before)
                (IsOrdered-append_right 0 before after o) g.below);
      }

  split_highest :
      (bottom length c m : ℕ)
      → bottom ≤ c
      → c + length ≤ top
      → IsFree c (c + length) (before ++ after)
      → find_gap bottom length (first_max top after) (reverse_onto before []) ≡ some m
      → c + length ≤ m
  split_highest bottom length c m h k f =
      find_gap-highest bottom length (first_max top after) c m (reverse_onto before []) descending h
        (le-first_max c (c + length) after above (IsFree-append_right c (c + length) before after f)
          (omega arith) k)
        (reverse_onto-IsFree c (c + length) before []
          (IsFree-append_left c (c + length) before after f) tt)

  split_ne-none :
      (bottom length c : ℕ)
      → bottom ≤ c
      → c + length ≤ top
      → IsFree c (c + length) (before ++ after)
      → find_gap bottom length (first_max top after) (reverse_onto before []) ≢ none
  split_ne-none bottom length c h k f =
      find_gap-ne-none bottom length (first_max top after) c (reverse_onto before []) descending h
        (le-first_max c (c + length) after above (IsFree-append_right c (c + length) before after f)
          (omega arith) k)
        (reverse_onto-IsFree c (c + length) before []
          (IsFree-append_left c (c + length) before after f) tt)

module _ (bottom top length : ℕ) (vmas : List Vma) (o : IsOrdered 0 vmas) where
  abbrev before : List Vma
  before = (lookup top vmas).0

  abbrev after : List Vma
  after = (lookup top vmas).1

  ordered : IsOrdered 0 (before ++ after)
  ordered = rw lookup-append o

  first_max-le : (ws : List Vma) → first_max top ws ≤ top
  unfolding first_max
  first_max-le [] = omega arith
  first_max-le (w ∷ ws) = omega arith

  -- The gap found lies inside the bounds and touches no area.
  pub search_gap-Found :
      {m : ℕ}
      → 0 < length
      → search_gap bottom top length vmas ≡ some m
      → (bottom + length ≤ m) × (m ≤ top) × IsFree (m - length) m vmas
  unfolding search_gap
  search_gap-Found {m} lt e =
      let g =
        split-Found top before after ordered (last_end-lookup 0 top vmas o (omega arith))
          (lookup-EndsAbove top vmas) bottom length lt e in
      (g.above, omega (arith, g.below, first_max-le after), rw (lookup-append) at g.free)

  -- No free range of the length lies higher than the gap found.
  pub search_gap-highest :
      (c m : ℕ)
      → bottom ≤ c
      → c + length ≤ top
      → IsFree c (c + length) vmas
      → search_gap bottom top length vmas ≡ some m
      → c + length ≤ m
  unfolding search_gap
  search_gap-highest c m h k f e =
      split_highest top before after ordered (last_end-lookup 0 top vmas o (omega arith))
        (lookup-EndsAbove top vmas) bottom length c m h k (rw lookup-append f) e

  -- The search fails only if no free range of the length lies inside the bounds.
  pub search_gap-ne-none :
      (c : ℕ)
      → bottom ≤ c
      → c + length ≤ top
      → IsFree c (c + length) vmas
      → search_gap bottom top length vmas ≢ none
  unfolding search_gap
  search_gap-ne-none c h k f =
      split_ne-none top before after ordered (last_end-lookup 0 top vmas o (omega arith))
        (lookup-EndsAbove top vmas) bottom length c h k (rw lookup-append f)
