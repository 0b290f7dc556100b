-- ===== src/Vma/Free.antt =====
-- Ranges that no area touches, and what an insertion into such a range does.
use graphene.Base.{
  ℕ, ◌≤◌, ◌<◌, ◌≡◌, refl, none, some, List, [], ◌∷◌, ◌++◌, if◌then◌else◌, arith, ◌⊎◌, inr, max,
}
use graphene.Vma.Types.{Vma}
use graphene.Vma.Tree.{insert, delete}
use graphene.Vma.View.{view, covers, mapping_at, IsOrdered, view-below}

-- No area of the sequence meets the addresses from `b` up to `e`.
abbrev pub IsFree : ℕ → ℕ → List Vma → Type 0
IsFree b e [] = Unit {0}
IsFree b e (v ∷ vs) = ((v.end ≤ b) ⊎ (e ≤ v.begin)) × IsFree b e vs

pub IsFree-append :
    (b e : ℕ) (xs ys : List Vma) → IsFree b e xs → IsFree b e ys → IsFree b e (xs ++ ys)
IsFree-append b e [] ys fx fy = fy
IsFree-append b e (x ∷ xs) ys fx fy = (fx.0, IsFree-append b e xs ys fx.1 fy)

pub IsFree-append_left : (b e : ℕ) (xs ys : List Vma) → IsFree b e (xs ++ ys) → IsFree b e xs
IsFree-append_left b e [] ys f = tt
IsFree-append_left b e (x ∷ xs) ys f = (f.0, IsFree-append_left b e xs ys f.1)

-- Areas that lie at or above `e` leave it free.
pub IsOrdered-IsFree : (b e : ℕ) (vs : List Vma) → IsOrdered e vs → IsFree b e vs
IsOrdered-IsFree b e [] o = tt
IsOrdered-IsFree b e (v ∷ vs) o = (inr (omega arith), IsOrdered-IsFree b e vs (raise vs o.2))
  where
    raise : (ws : List Vma) → IsOrdered v.end ws → IsOrdered e ws
    raise [] p = tt
    raise (w ∷ ws) p = (omega arith, p.1, p.2)

pub view-IsFree : (b e a : ℕ) (vs : List Vma) → IsFree b e vs → b ≤ a → a < e → view vs a ≡ none
unfolding view
view-IsFree b e a [] f h k = refl
view-IsFree b e a (v ∷ vs) f h k = ground (arith, view-IsFree b e a vs f.1)

-- A range at which nothing is mapped is free.
pub IsFree-view :
    (lo b e : ℕ) (vs : List Vma)
    → IsOrdered lo vs
    → b < e
    → ((a : ℕ) → b ≤ a → a < e → view vs a ≡ none)
    → IsFree b e vs
unfolding view
IsFree-view lo b e [] o lt h = tt
IsFree-view lo b e (v ∷ vs) o lt h = (
  ground (arith, h (max b v.begin)),
  IsFree-view v.end b e vs o.2 lt (λ a ge l. ground (arith, h a ge l, view-below v.end vs a o.2)),
)

pub insert-IsOrdered :
    (lo : ℕ) (w : Vma) (vs : List Vma)
    → IsOrdered lo vs
    → IsFree w.begin w.end vs
    → lo ≤ w.begin
    → w.begin < w.end
    → IsOrdered lo (insert w vs)
unfolding insert
insert-IsOrdered lo w [] o f h k = (h, k, tt)
insert-IsOrdered lo w (v ∷ vs) o f h k = ground (arith, insert-IsOrdered v.end w vs o.2 f.1)

pub view-insert :
    (w : Vma) (vs : List Vma) (a : ℕ)
    → IsFree w.begin w.end vs
    → view (insert w vs) a ≡ (if covers w a then some (mapping_at w a) else view vs a)
unfolding insert view
view-insert w [] a f = refl
view-insert w (v ∷ vs) a f = ground (arith, view-insert w vs a f.1)

pub IsFree-append_right : (b e : ℕ) (xs ys : List Vma) → IsFree b e (xs ++ ys) → IsFree b e ys
IsFree-append_right b e [] ys f = f
IsFree-append_right b e (x ∷ xs) ys f = IsFree-append_right b e xs ys f.1

-- What has been inserted into a free range is found again by `delete`.
pub delete-insert :
    (lo : ℕ) (w : Vma) (vs : List Vma)
    → IsOrdered lo vs
    → IsFree w.begin w.end vs
    → w.begin < w.end
    → delete w (insert w vs) ≡ vs
unfolding delete insert
delete-insert lo w [] o f h = ground arith
delete-insert lo w (v ∷ vs) o f h = ground (arith, delete-insert v.end w vs o.2 f.1)
