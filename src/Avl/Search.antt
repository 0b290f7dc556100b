-- ===== src/Avl/Search.antt =====
-- The searches on the sequence of nodes, and the table of areas of the LibOS as a tree.
use graphene.Base.{
  ◌≡◌, refl, sym, ◌∙◌, Bool, true, false, ◌&&◌, Option, none, some, List, [], ◌∷◌, ◌++◌,
  if◌then◌else◌, Bool-cases, inl, inr, arith,
}
use graphene.Avl.{AvlTree, leaf, node, avl_tree_insert, avl_tree_lower_bound_fn}
use graphene.Avl.Order.{inorder}
use graphene.Base.{ℕ, ◌≤◌, ◌<◌}
use graphene.Avl.Insert.{insert_before, is_after, is_cut, avl_tree_insert-inorder}
use graphene.Vma.Types.{Vma}
use graphene.Vma.Tree.{vma_tree_cmp, cmp_addr_to_vma, insert, lookup, head?}
use graphene.Vma.View.{IsOrdered}

module _ {ℓ} {A : Type ℓ} where
  -- The first that passes the test, or `ret`.
  unfoldable pub first_where : (A → Bool) → List A → Option A → Option A
  first_where test [] ret = ret
  first_where test (v ∷ vs) ret = if test v then some v else first_where test vs ret

  abbrev pub all_pass : (A → Bool) → List A → Bool
  all_pass test [] = true
  all_pass test (v ∷ vs) = test v && all_pass test vs

  -- Once passed, the test is passed by all that follow.
  abbrev pub is_threshold : (A → Bool) → List A → Bool
  is_threshold test [] = true
  is_threshold test (v ∷ vs) = if test v then all_pass test vs else is_threshold test vs

  all_pass-left :
      (test : A → Bool) (xs ys : List A) → all_pass test (xs ++ ys) ≡ true → all_pass test xs ≡ true
  all_pass-left test [] ys h = refl
  all_pass-left test (w ∷ xs) ys h = ground (arith, all_pass-left test xs ys)

  all_pass-middle :
      (test : A → Bool) (v : A) (xs ys : List A)
      → all_pass test (xs ++ (v ∷ ys)) ≡ true
      → test v ≡ true
  all_pass-middle test v [] ys h = ground arith
  all_pass-middle test v (w ∷ xs) ys h = ground (arith, all_pass-middle test v xs ys)

  is_threshold-left :
      (test : A → Bool) (xs ys : List A)
      → is_threshold test (xs ++ ys) ≡ true
      → is_threshold test xs ≡ true
  is_threshold-left test [] ys h = refl
  is_threshold-left test (w ∷ xs) ys h =
      ground (arith, is_threshold-left test xs ys, all_pass-left test xs ys)

  first_where-left :
      (test : A → Bool) (v : A) (xs ys : List A) (ret : Option A)
      → test v ≡ true
      → first_where test (xs ++ (v ∷ ys)) ret ≡ first_where test xs (some v)
  unfolding first_where
  first_where-left test v [] ys ret h = rw h refl
  first_where-left test v (w ∷ xs) ys ret h = elim (Bool-cases (test w)) [
    | inl k ↦ rw k refl
    | inr k ↦ rw k (first_where-left test v xs ys ret h)
  ]

  first_where-right :
      (test : A → Bool) (v : A) (xs ys : List A) (ret : Option A)
      → test v ≡ false
      → is_threshold test (xs ++ (v ∷ ys)) ≡ true
      → (first_where test (xs ++ (v ∷ ys)) ret ≡ first_where test ys ret)
        × (is_threshold test ys ≡ true)
  unfolding first_where
  first_where-right test v [] ys ret h k = (rw h refl, ground arith)
  first_where-right test v (w ∷ xs) ys ret h k = elim (Bool-cases (test w)) [
    | inl before ↦ absurd (ground (arith, all_pass-middle test v xs ys))
    | inr behind ↦
        let ih = first_where-right test v xs ys ret h (rw behind at k) in (rw behind ih.0, ih.1)
  ]

  lower_bound-first_where :
      (test : A → Bool) (t : AvlTree A) (ret : Option A)
      → is_threshold test (inorder t) ≡ true
      → avl_tree_lower_bound_fn test t ret ≡ first_where test (inorder t) ret
  unfolding avl_tree_lower_bound_fn inorder first_where
  lower_bound-first_where test leaf ret h = refl
  lower_bound-first_where test (node l v b r) ret h = elim (Bool-cases (test v)) [
    | inl before ↦ rw before (
        lower_bound-first_where test l (some v)
          (is_threshold-left test (inorder l) (v ∷ inorder r) h)
        ∙ sym (first_where-left test v (inorder l) (inorder r) ret before))
    | inr behind ↦
        let right = first_where-right test v (inorder l) (inorder r) ret behind h in
        rw behind (lower_bound-first_where test r ret right.1 ∙ sym right.0)
  ]

insert-insert_before : (v : Vma) (vs : List Vma) → insert_before vma_tree_cmp v vs ≡ insert v vs
unfolding insert insert_before
insert-insert_before v [] = refl
insert-insert_before v (w ∷ ws) = rw (insert-insert_before v ws) refl

is_after-ordered :
    (v : Vma) (lo : ℕ) (vs : List Vma)
    → v.end ≤ lo
    → IsOrdered lo vs
    → is_after vma_tree_cmp v vs ≡ true
unfolding vma_tree_cmp
is_after-ordered v lo [] h o = refl
is_after-ordered v lo (w ∷ ws) h o = ground (arith, is_after-ordered v w.end ws (omega arith) o.2)

is_cut-ordered :
    (v : Vma) (lo : ℕ) (vs : List Vma) → IsOrdered lo vs → is_cut vma_tree_cmp v vs ≡ true
unfolding vma_tree_cmp
is_cut-ordered v lo [] o = refl
is_cut-ordered v lo (w ∷ ws) o =
    ground (
      arith,
      is_cut-ordered v w.end ws o.2,
      λ (h : v.end ≤ w.end). is_after-ordered v w.end ws h o.2,
    )

-- On a tree of ascending, disjoint areas `avl_tree_insert` with `vma_tree_cmp` is the insertion
-- into the sequence of areas.
pub avl_tree_insert-insert :
    (v : Vma) (t : AvlTree Vma)
    → IsOrdered 0 (inorder t)
    → inorder (avl_tree_insert vma_tree_cmp v t) ≡ insert v (inorder t)
avl_tree_insert-insert v t o =
    avl_tree_insert-inorder vma_tree_cmp v t (is_cut-ordered v 0 (inorder t) o)
    ∙ insert-insert_before v (inorder t)

first_where-lookup :
    (addr : ℕ) (vs : List Vma)
    → first_where (cmp_addr_to_vma addr) vs none ≡ head? (lookup addr vs).1
unfolding first_where lookup
first_where-lookup addr [] = refl
first_where-lookup addr (v ∷ vs) = elim (Bool-cases (cmp_addr_to_vma addr v)) [
  | inl h ↦ rw h refl
  | inr h ↦ rw h (first_where-lookup addr vs)
]

all_pass-ordered :
    (addr lo : ℕ) (vs : List Vma)
    → addr < lo
    → IsOrdered lo vs
    → all_pass (cmp_addr_to_vma addr) vs ≡ true
unfolding cmp_addr_to_vma
all_pass-ordered addr lo [] h o = refl
all_pass-ordered addr lo (v ∷ vs) h o =
    ground (arith, all_pass-ordered addr v.end vs (omega arith) o.2)

is_threshold-ordered :
    (addr lo : ℕ) (vs : List Vma) → IsOrdered lo vs → is_threshold (cmp_addr_to_vma addr) vs ≡ true
unfolding cmp_addr_to_vma
is_threshold-ordered addr lo [] o = refl
is_threshold-ordered addr lo (v ∷ vs) o = ground (
  arith,
  is_threshold-ordered addr v.end vs o.2,
  λ (h : addr < v.end). all_pass-ordered addr v.end vs h o.2,
)

-- On such a tree `_lookup_vma`, by `avl_tree_lower_bound_fn`, finds the area that the search
-- through the sequence finds.
pub avl_tree_lower_bound_fn-lookup :
    (addr : ℕ) (t : AvlTree Vma)
    → IsOrdered 0 (inorder t)
    → avl_tree_lower_bound_fn (cmp_addr_to_vma addr) t none ≡ head? (lookup addr (inorder t)).1
avl_tree_lower_bound_fn-lookup addr t o =
    lower_bound-first_where (cmp_addr_to_vma addr) t none
      (is_threshold-ordered addr 0 (inorder t) o)
    ∙ first_where-lookup addr (inorder t)
