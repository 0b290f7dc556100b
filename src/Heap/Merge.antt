-- ===== src/Heap/Merge.antt =====
-- What the two merging loops of `__create_vma_and_merge` share.
pub mod Above
pub mod Below
use mathlib.Core.Bool.{xor}
use graphene.Base.{
  ℕ, suc, ◌+◌, ◌-◌, ◌≤◌, ◌<◌, ◌≡◌, refl, Bool, true, false, not, ◌&&◌, ◌⊎◌, inl, inr, Option, none,
  some, List, [], ◌∷◌, ltb, leb, if◌then◌else◌, length, min, max, ◌∙◌, arith, Bool-cases, if_then,
  if_else, ltb-false,
}
use graphene.Heap.{
  HeapVma, Merging, absorb, free_vma, check_above, check_below, merge_above, merge_below,
}
use graphene.Heap.View.{
  covers, owner_at, IsDescending, IsAscending, size_if, internal_size, IsAscending-lower,
  IsAscending-le, IsDescending-le,
}

abbrev pub same_kind : HeapVma → HeapVma → Bool
same_kind w v = not (xor w.is_pal_internal v.is_pal_internal)

pub xor-joins : (x y : Bool) → not (xor x y) ≡ true → x ≡ y
unfolding xor
xor-joins true true h = refl
xor-joins false false h = refl
xor-joins true false h = ground (arith, h)
xor-joins false true h = ground (arith, h)

-- What the condition of both loops says.
pub joins : (p q : ℕ) (x y : Bool) → (leb p q && not (xor x y)) ≡ true → (p ≤ q) × (x ≡ y)
joins p q x y h = (ground (arith, h), xor-joins x y (ground (arith, h)))

pub owner_at-absorb :
    (v w : HeapVma) (vs : List HeapVma) (a : ℕ)
    → w.bottom ≤ v.top
    → v.bottom ≤ w.top
    → v.bottom < v.top
    → w.bottom < w.top
    → w.is_pal_internal ≡ v.is_pal_internal
    → owner_at (absorb w v ∷ vs) a ≡ owner_at (v ∷ w ∷ vs) a
unfolding owner_at
owner_at-absorb v w vs a h k p q e = ground arith

pub size_if-absorb :
    (b : Bool) (n freed : ℕ) (w : HeapVma)
    → w.is_pal_internal ≡ b
    → (size_if w.is_pal_internal w + n) + (if b then freed else 0)
      ≡ n + (if b then freed + (w.top - w.bottom) else 0)
size_if-absorb b n freed w e = ground (arith, e)
