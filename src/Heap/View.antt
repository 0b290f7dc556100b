-- ===== src/Heap/View.antt =====
-- What the list of areas says of each address, and when it is well formed.
use graphene.Base.{
  ℕ, ◌+◌, ◌-◌, ◌≤◌, ◌<◌, ◌≡◌, refl, Bool, ◌&&◌, Option, none, some, List, [], ◌∷◌, ltb, leb,
  if◌then◌else◌, length, max, arith,
}
use graphene.Heap.{HeapVma, Limits, Heap, onto}

abbrev pub covers : HeapVma → ℕ → Bool
covers v a = leb v.bottom a && ltb a v.top

-- Whose memory an address is: PAL-internal, normal, or nobody's.
unfoldable pub owner_at : List HeapVma → ℕ → Option Bool
owner_at [] a = none
owner_at (v ∷ vmas) a = if covers v a then some v.is_pal_internal else owner_at vmas a

-- The areas are not empty, descend from `hi` to `lo`, and do not overlap.
abbrev pub IsDescending : ℕ → ℕ → List HeapVma → Type 0
IsDescending lo hi [] = lo ≤ hi
IsDescending lo hi (v ∷ vmas) = (v.top ≤ hi) × (v.bottom < v.top) × IsDescending lo v.bottom vmas

abbrev pub IsAscending : ℕ → ℕ → List HeapVma → Type 0
IsAscending lo hi [] = lo ≤ hi
IsAscending lo hi (v ∷ vmas) = (lo ≤ v.bottom) × (v.bottom < v.top) × IsAscending v.top hi vmas

abbrev pub size_if : Bool → HeapVma → ℕ
size_if b v = if b then v.top - v.bottom else 0

-- The bytes of the PAL-internal areas.
unfoldable pub internal_size : List HeapVma → ℕ
internal_size [] = 0
internal_size (v ∷ vmas) = size_if v.is_pal_internal v + internal_size vmas

-- The bytes of all areas.
unfoldable pub total_size : List HeapVma → ℕ
total_size [] = 0
total_size (v ∷ vmas) = (v.top - v.bottom) + total_size vmas

abbrev pub or_else : Option Bool → Option Bool → Option Bool
or_else none o = o
or_else (some b) o = some b

pub IsAscending-lower :
    (lo lo' hi : ℕ) (vs : List HeapVma) → IsAscending lo hi vs → lo' ≤ lo → IsAscending lo' hi vs
IsAscending-lower lo lo' hi [] o h = omega arith
IsAscending-lower lo lo' hi (v ∷ vs) o h = (omega arith, o.1, o.2)

pub IsAscending-le : (lo hi : ℕ) (vs : List HeapVma) → IsAscending lo hi vs → lo ≤ hi
IsAscending-le lo hi [] o = o
IsAscending-le lo hi (v ∷ vs) o = omega (arith, IsAscending-le v.top hi vs o.2)

pub IsDescending-le : (lo hi : ℕ) (vs : List HeapVma) → IsDescending lo hi vs → lo ≤ hi
IsDescending-le lo hi [] o = o
IsDescending-le lo hi (v ∷ vs) o = omega (arith, IsDescending-le lo v.bottom vs o.2)

pub IsAscending-max :
    (x y hi : ℕ) (vs : List HeapVma)
    → IsAscending x hi vs
    → IsAscending y hi vs
    → IsAscending (max x y) hi vs
IsAscending-max x y hi [] o p = omega arith
IsAscending-max x y hi (v ∷ vs) o p = (omega arith, o.1, o.2)

pub IsDescending-raise :
    (lo hi hi' : ℕ) (vs : List HeapVma) → IsDescending lo hi vs → hi ≤ hi' → IsDescending lo hi' vs
IsDescending-raise lo hi hi' [] o h = omega arith
IsDescending-raise lo hi hi' (v ∷ vs) o h = (omega arith, o.1, o.2)

-- Nothing is owned below the first of an ascending list, or above a descending one.
pub owner_at-below :
    (lo hi a : ℕ) (vs : List HeapVma) → IsAscending lo hi vs → a < lo → owner_at vs a ≡ none
unfolding owner_at
owner_at-below lo hi a [] o h = refl
owner_at-below lo hi a (v ∷ vs) o h = ground (arith, owner_at-below v.top hi a vs o.2)

pub owner_at-above :
    (lo hi a : ℕ) (vs : List HeapVma) → IsDescending lo hi vs → hi ≤ a → owner_at vs a ≡ none
unfolding owner_at
owner_at-above lo hi a [] o h = refl
owner_at-above lo hi a (v ∷ vs) o h = ground (arith, owner_at-above lo v.bottom a vs o.2)

-- The list of a cursor.
pub onto-IsDescending :
    (lo at hi : ℕ) (above below : List HeapVma)
    → IsAscending at hi above
    → IsDescending lo at below
    → IsDescending lo hi (onto above below)
onto-IsDescending lo at hi [] below o d = IsDescending-raise lo at hi below d o
onto-IsDescending lo at hi (v ∷ above) below o d =
    onto-IsDescending lo v.top hi above (v ∷ below) o.2
      (omega arith, o.1, IsDescending-raise lo at v.bottom below d o.0)

pub owner_at-onto :
    (lo hi a : ℕ) (above below : List HeapVma)
    → IsAscending lo hi above
    → owner_at (onto above below) a ≡ or_else (owner_at above a) (owner_at below a)
unfolding owner_at
owner_at-onto lo hi a [] below o = refl
owner_at-onto lo hi a (v ∷ above) below o =
    ground
      (arith, owner_at-onto v.top hi a above (v ∷ below) o.2, owner_at-below v.top hi a above o.2)

pub length-onto :
    (above below : List HeapVma) → length (onto above below) ≡ length above + length below
length-onto [] below = omega arith
length-onto (v ∷ above) below = omega (arith, length-onto above (v ∷ below))

pub internal_size-onto :
    (above below : List HeapVma)
    → internal_size (onto above below) ≡ internal_size above + internal_size below
unfolding internal_size
internal_size-onto [] below = omega arith
internal_size-onto (v ∷ above) below = omega (arith, internal_size-onto above (v ∷ below))

pub total_size-onto :
    (above below : List HeapVma)
    → total_size (onto above below) ≡ total_size above + total_size below
unfolding total_size
total_size-onto [] below = omega arith
total_size-onto (v ∷ above) below = omega (arith, total_size-onto above (v ∷ below))

-- The heap is well formed: its areas lie in order inside the heap, and the numbers of
-- areas and of PAL-internal bytes agree.
pub record IsWell (l : Limits) (h : Heap) : Type 0 where
  pub descending : IsDescending l.heap_bottom l.heap_top h.vmas
  pub counted : h.vma_num ≡ length h.vmas
  pub internal : h.internal_used ≡ internal_size h.vmas
