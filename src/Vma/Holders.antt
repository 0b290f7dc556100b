-- ===== src/Vma/Holders.antt =====
-- How many areas of a sequence hold a reference to a handle.
use graphene.Base.{
  ℕ, ◌+◌, ◌≡◌, refl, Option, none, some, List, [], ◌∷◌, ◌++◌, ◌==◌, if◌then◌else◌, arith, ◌-◌,
}
use graphene.Vma.Types.{Vma, File, Refs, get_ref, put_ref}
use graphene.Vma.Tree.{insert, lookup}

unfoldable pub holds : ℕ → Option File → ℕ
holds h none = 0
holds h (some f) = if h == f.id then 1 else 0

unfoldable pub holders : ℕ → List Vma → ℕ
holders h [] = 0
holders h (v ∷ vs) = holds h v.file + holders h vs

pub holders-append : (h : ℕ) (xs ys : List Vma) → holders h (xs ++ ys) ≡ holders h xs + holders h ys
unfolding holders
holders-append h [] ys = omega arith
holders-append h (x ∷ xs) ys = omega (arith, holders-append h xs ys)

pub holders-insert :
    (h : ℕ) (v : Vma) (vs : List Vma) → holders h (insert v vs) ≡ holds h v.file + holders h vs
unfolding holders insert
holders-insert h v [] = refl
holders-insert h v (w ∷ ws) = ground (arith, holders-insert h v ws)

pub holders-lookup :
    (h addr : ℕ) (vs : List Vma)
    → holders h (lookup addr vs).0 + holders h (lookup addr vs).1 ≡ holders h vs
unfolding holders lookup
holders-lookup h addr [] = refl
holders-lookup h addr (v ∷ vs) = ground (arith, holders-lookup h addr vs)

pub get_ref-holds : (h : ℕ) (f : Option File) (refs : Refs) → get_ref f refs h ≡ refs h + holds h f
unfolding get_ref holds
get_ref-holds h none refs = omega arith
get_ref-holds h (some f) refs = ground arith

pub put_ref-holds : (h : ℕ) (f : Option File) (refs : Refs) → put_ref f refs h ≡ refs h - holds h f
unfolding put_ref holds
put_ref-holds h none refs = omega arith
put_ref-holds h (some f) refs = ground arith
