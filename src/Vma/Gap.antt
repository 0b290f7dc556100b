-- ===== src/Vma/Gap.antt =====
-- The search of `bkeep_mmap_any_in_range` (LibOS/shim/src/bookkeep/shim_vma.c) for the highest
-- gap that is large enough.
pub mod Search
use graphene.Base.{
  ℕ, ◌+◌, ◌-◌, ◌≤◌, ◌<◌, ◌≡◌, refl, Bool, true, Option, none, some, List, [], ◌∷◌, ◌++◌, ltb, leb,
  if◌then◌else◌, arith, ◌&&◌, min, ◌⊎◌, inl, inr, ◌≢◌,
}
use graphene.Vma.Types.{Vma}
use graphene.Vma.Tree.{lookup}
use graphene.Vma.View.{
  IsOrdered, last_end, EndsAbove, IsOrdered-append_left, IsOrdered-append_right, lookup-append,
  last_end-lookup, lookup-EndsAbove,
}
use graphene.Vma.Free.{IsFree, IsFree-append, IsFree-append_left, IsOrdered-IsFree}

-- The walk by `_get_prev_vma`, from the given areas down: the end of the gap that is taken.
unfoldable pub find_gap : ℕ → ℕ → ℕ → List Vma → Option ℕ
find_gap bottom length max_addr [] =
    if leb bottom max_addr && leb length (max_addr - bottom) then some max_addr else none
find_gap bottom length max_addr (v ∷ vs) =
    let rest = find_gap bottom length v.begin vs in
    if leb bottom v.end
    then (if leb length (max_addr - v.end) then some max_addr else rest)
    else (if leb bottom max_addr && leb length (max_addr - bottom) then some max_addr else none)

-- Where the search starts: `top`, or the begin of the area found there, if that is lower.
unfoldable pub first_max : ℕ → List Vma → ℕ
first_max top [] = top
first_max top (v ∷ vs) = min top v.begin

abbrev pub reverse_onto : List Vma → List Vma → List Vma
reverse_onto [] acc = acc
reverse_onto (v ∷ vs) acc = reverse_onto vs (v ∷ acc)

unfoldable pub search_gap : ℕ → ℕ → ℕ → List Vma → Option ℕ
unfolding find_gap first_max lookup
search_gap bottom top length vmas =
    let (before, after) = lookup top vmas in
    find_gap bottom length (first_max top after) (reverse_onto before [])

abbrev pub IsDescending : ℕ → List Vma → Type 0
IsDescending hi [] = Unit
IsDescending hi (v ∷ vs) = (v.end ≤ hi) × (v.begin < v.end) × IsDescending v.begin vs

IsDescending-raise : (lo hi : ℕ) (vs : List Vma) → IsDescending lo vs → lo ≤ hi → IsDescending hi vs
IsDescending-raise lo hi [] d h = tt
IsDescending-raise lo hi (v ∷ vs) d h = (omega arith, d.1, d.2)

pub reverse_onto-IsDescending :
    (lo hi : ℕ) (vs acc : List Vma)
    → IsOrdered lo vs
    → IsDescending lo acc
    → last_end lo vs ≤ hi
    → IsDescending hi (reverse_onto vs acc)
reverse_onto-IsDescending lo hi [] acc o d h = IsDescending-raise lo hi acc d h
reverse_onto-IsDescending lo hi (v ∷ vs) acc o d h =
    reverse_onto-IsDescending v.end hi vs (v ∷ acc) o.2
      (omega arith, o.1, IsDescending-raise lo v.begin acc d o.0) h

pub reverse_onto-IsFree :
    (b e : ℕ) (vs acc : List Vma)
    → IsFree b e vs
    → IsFree b e acc
    → IsFree b e (reverse_onto vs acc)
reverse_onto-IsFree b e [] acc fv fa = fa
reverse_onto-IsFree b e (v ∷ vs) acc fv fa = reverse_onto-IsFree b e vs (v ∷ acc) fv.1 (fv.0, fa)

IsFree-reverse_onto_right :
    (b e : ℕ) (vs acc : List Vma) → IsFree b e (reverse_onto vs acc) → IsFree b e acc
IsFree-reverse_onto_right b e [] acc f = f
IsFree-reverse_onto_right b e (v ∷ vs) acc f = (IsFree-reverse_onto_right b e vs (v ∷ acc) f).1

pub IsFree-reverse_onto_left :
    (b e : ℕ) (vs acc : List Vma) → IsFree b e (reverse_onto vs acc) → IsFree b e vs
IsFree-reverse_onto_left b e [] acc f = tt
IsFree-reverse_onto_left b e (v ∷ vs) acc f =
    ((IsFree-reverse_onto_right b e vs (v ∷ acc) f).0, IsFree-reverse_onto_left b e vs (v ∷ acc) f)

-- Below `hi` descending areas end.
IsDescending-IsFree : (hi b e : ℕ) (vs : List Vma) → IsDescending hi vs → hi ≤ b → IsFree b e vs
IsDescending-IsFree hi b e [] d h = tt
IsDescending-IsFree hi b e (v ∷ vs) d h =
    (inl (omega arith), IsDescending-IsFree v.begin b e vs d.2 (omega arith))

-- What is found: a free range of the length inside the bounds, and none lies higher.
pub record Found (bottom length hi : ℕ) (vs : List Vma) (top : ℕ) : Type 0 where
  pub above : bottom + length ≤ top
  pub below : top ≤ hi
  pub free : IsFree (top - length) top vs

pub find_gap-Found :
    (bottom length hi : ℕ) (vs : List Vma) {m : ℕ}
    → IsDescending hi vs
    → 0 < length
    → find_gap bottom length hi vs ≡ some m
    → Found bottom length hi vs m
unfolding find_gap
find_gap-Found bottom length hi [] d lt e = ground arith
find_gap-Found bottom length hi (v ∷ vs) {m} d lt e = ground (
  arith,
  find_gap-Found bottom length v.begin vs {m = m} d.2,
  IsDescending-IsFree v.begin (m - length) m vs d.2,
)

-- Every free range of the length lies at or below the one found.
pub find_gap-highest :
    (bottom length hi c m : ℕ) (vs : List Vma)
    → IsDescending hi vs
    → bottom ≤ c
    → c + length ≤ hi
    → IsFree c (c + length) vs
    → find_gap bottom length hi vs ≡ some m
    → c + length ≤ m
unfolding find_gap
find_gap-highest bottom length hi c m [] d h k f e = ground arith
find_gap-highest bottom length hi c m (v ∷ vs) d h k f e =
    ground (arith, find_gap-highest bottom length v.begin c m vs d.2 h)

-- If nothing is found there is no free range.
pub find_gap-ne-none :
    (bottom length hi c : ℕ) (vs : List Vma)
    → IsDescending hi vs
    → bottom ≤ c
    → c + length ≤ hi
    → IsFree c (c + length) vs
    → find_gap bottom length hi vs ≢ none
unfolding find_gap
find_gap-ne-none bottom length hi c [] d h k f = ground arith
find_gap-ne-none bottom length hi c (v ∷ vs) d h k f =
    ground (arith, find_gap-ne-none bottom length v.begin c vs d.2 h)
