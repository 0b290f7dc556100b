-- ===== src/Vma/View.antt =====
-- What a sequence of areas says of each address, and when it is well formed.
use graphene.Base.{
  ℕ, ◌+◌, ◌-◌, ◌≤◌, ◌<◌, ◌≡◌, refl, Bool, ◌&&◌, Option, none, some, List, [], ◌∷◌, ◌++◌, ltb, leb,
  if◌then◌else◌, arith, Bool-cases, inl, inr,
}
use graphene.Vma.Types.{Vma, File, advance, split_vma}
use graphene.Vma.Tree.{insert, lookup, cmp_addr_to_vma}

-- What is mapped at one address: protection, flags, and the place in the file, if there is one.
pub record Mapping : Type 0 where
  pub prot : ℕ
  pub flags : ℕ
  pub file : Option File
  pub offset : ℕ

unfoldable pub mapping_at : Vma → ℕ → Mapping
mapping_at v a = record {
  prot = v.prot;
  flags = v.flags;
  file = v.file;
  offset = advance v.file v.offset (a - v.begin);
}

abbrev pub covers : Vma → ℕ → Bool
covers v a = leb v.begin a && ltb a v.end

-- The address space as a partial function.
unfoldable pub view : List Vma → ℕ → Option Mapping
view [] a = none
view (v ∷ vs) a = if covers v a then some (mapping_at v a) else view vs a

-- The areas are not empty, ascend, and do not overlap, from `lo` on.
abbrev pub IsOrdered : ℕ → List Vma → Type 0
IsOrdered lo [] = Unit
IsOrdered lo (v ∷ vs) = (lo ≤ v.begin) × (v.begin < v.end) × IsOrdered v.end vs

-- The end of the last area, or `lo`.
abbrev pub last_end : ℕ → List Vma → ℕ
last_end lo [] = lo
last_end lo (v ∷ vs) = last_end v.end vs

abbrev pub or_else {ℓ} : {A : Type ℓ} → Option A → Option A → Option A
or_else none o = o
or_else (some a) o = some a

pub view-append : (xs ys : List Vma) (a : ℕ) → view (xs ++ ys) a ≡ or_else (view xs a) (view ys a)
unfolding view
view-append [] ys a = refl
view-append (x ∷ xs) ys a = ground (arith, view-append xs ys a)

pub view-below : (lo : ℕ) (xs : List Vma) (a : ℕ) → IsOrdered lo xs → a < lo → view xs a ≡ none
unfolding view
view-below lo [] a o h = refl
view-below lo (x ∷ xs) a o h = ground (arith, view-below x.end xs a o.2 (omega arith))

pub le-last_end : (lo : ℕ) (xs : List Vma) → IsOrdered lo xs → lo ≤ last_end lo xs
le-last_end lo [] o = omega arith
le-last_end lo (x ∷ xs) o = omega (arith, le-last_end x.end xs o.2)

pub view-above :
    (lo : ℕ) (xs : List Vma) (a : ℕ) → IsOrdered lo xs → last_end lo xs ≤ a → view xs a ≡ none
unfolding view
view-above lo [] a o h = refl
view-above lo (x ∷ xs) a o h = ground (arith, view-above x.end xs a o.2 h, le-last_end x.end xs o.2)

pub IsOrdered-append :
    (lo : ℕ) (xs ys : List Vma)
    → IsOrdered lo xs
    → IsOrdered (last_end lo xs) ys
    → IsOrdered lo (xs ++ ys)
IsOrdered-append lo [] ys ox oy = oy
IsOrdered-append lo (x ∷ xs) ys ox oy = (ox.0, ox.1, IsOrdered-append x.end xs ys ox.2 oy)

pub IsOrdered-append_left : (lo : ℕ) (xs ys : List Vma) → IsOrdered lo (xs ++ ys) → IsOrdered lo xs
IsOrdered-append_left lo [] ys o = tt
IsOrdered-append_left lo (x ∷ xs) ys o = (o.0, o.1, IsOrdered-append_left x.end xs ys o.2)

pub IsOrdered-append_right :
    (lo : ℕ) (xs ys : List Vma) → IsOrdered lo (xs ++ ys) → IsOrdered (last_end lo xs) ys
IsOrdered-append_right lo [] ys o = o
IsOrdered-append_right lo (x ∷ xs) ys o = IsOrdered-append_right x.end xs ys o.2

-- A lower bound may be lowered, and raised to any number that the first area respects.
pub IsOrdered-lower : (lo lo' : ℕ) (xs : List Vma) → IsOrdered lo xs → lo' ≤ lo → IsOrdered lo' xs
IsOrdered-lower lo lo' [] o h = tt
IsOrdered-lower lo lo' (x ∷ xs) o h = (omega arith, o.1, o.2)

-- An area in front of all others, behind all others.
pub insert_front : (w : Vma) (ws : List Vma) → IsOrdered w.end ws → insert w ws ≡ w ∷ ws
unfolding insert
insert_front w [] o = refl
insert_front w (x ∷ xs) o = ground arith

pub insert-append :
    (lo : ℕ) (w : Vma) (xs ys : List Vma)
    → IsOrdered lo xs
    → last_end lo xs < w.end
    → insert w (xs ++ ys) ≡ xs ++ insert w ys
unfolding insert
insert-append lo w [] ys o h = refl
insert-append lo w (x ∷ xs) ys o h =
    ground (arith, insert-append x.end w xs ys o.2 h, le-last_end x.end xs o.2)

-- Where `lookup` stops.
pub lookup-append : (addr : ℕ) (vs : List Vma) → (lookup addr vs).0 ++ (lookup addr vs).1 ≡ vs
unfolding lookup
lookup-append addr [] = refl
lookup-append addr (v ∷ vs) = ground (arith, lookup-append addr vs)

pub last_end-lookup :
    (lo : ℕ) (addr : ℕ) (vs : List Vma)
    → IsOrdered lo vs
    → lo ≤ addr
    → last_end lo (lookup addr vs).0 ≤ addr
unfolding lookup
last_end-lookup lo addr [] o h = h
last_end-lookup lo addr (v ∷ vs) o h = ground (arith, last_end-lookup v.end addr vs o.2)

abbrev pub EndsAbove : ℕ → List Vma → Type 0
EndsAbove addr [] = Unit
EndsAbove addr (v ∷ vs) = addr < v.end

pub lookup-EndsAbove : (addr : ℕ) (vs : List Vma) → EndsAbove addr (lookup addr vs).1
unfolding lookup
lookup-EndsAbove addr [] = tt
lookup-EndsAbove addr (v ∷ vs) = elim (Bool-cases (cmp_addr_to_vma addr v)) [
  | inl e ↦ rw e (ground arith)
  | inr e ↦ rw e (lookup-EndsAbove addr vs)
]

pub IsOrdered-EndsAbove :
    (lo addr : ℕ) (vs : List Vma) → IsOrdered lo vs → addr ≤ lo → EndsAbove addr vs
IsOrdered-EndsAbove lo addr [] o h = tt
IsOrdered-EndsAbove lo addr (v ∷ vs) o h = omega arith

-- Moving an offset on twice is moving it on by the sum.
pub advance_twice :
    (f : Option File) (o c d : ℕ) → advance f (advance f o c) d ≡ advance f o (c + d)
unfolding advance
advance_twice none o c d = refl
advance_twice (some f) o c d = omega arith

-- The two parts of a split area map what the area maps.
pub mapping_at-split_right :
    (v : Vma) (addr a : ℕ)
    → v.begin ≤ addr
    → addr ≤ a
    → mapping_at (split_vma v addr).1 a ≡ mapping_at v a
unfolding mapping_at split_vma
mapping_at-split_right v addr a h k =
    ground (arith, advance_twice v.file v.offset (addr - v.begin) (a - addr))

pub mapping_at-split_left :
    (v : Vma) (addr a : ℕ) → mapping_at (split_vma v addr).0 a ≡ mapping_at v a
unfolding mapping_at split_vma
mapping_at-split_left v addr a = refl

pub last_end-append :
    (lo : ℕ) (xs ys : List Vma) → last_end lo (xs ++ ys) ≡ last_end (last_end lo xs) ys
last_end-append lo [] ys = refl
last_end-append lo (x ∷ xs) ys = last_end-append x.end xs ys

-- The cursor of a tree that is given in two parts.
pub lookup-eq :
    (lo addr : ℕ) (before after : List Vma)
    → IsOrdered lo before
    → last_end lo before ≤ addr
    → EndsAbove addr after
    → lookup addr (before ++ after) ≡ (before, after)
unfolding lookup cmp_addr_to_vma
lookup-eq lo addr [] [] o h above = refl
lookup-eq lo addr [] (v ∷ vs) o h above = ground arith
lookup-eq lo addr (x ∷ xs) after o h above =
    ground (arith, lookup-eq x.end addr xs after o.2 h above, le-last_end x.end xs o.2)
