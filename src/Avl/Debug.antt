-- ===== src/Avl/Debug.antt =====
-- The check of the debug build, `debug_avl_tree_is_balanced`.
use graphene.Base.{ℕ, suc, ◌-◌, ◌≡◌, refl, sym, Bool, true, ◌&&◌, ltb, ◌==◌, if◌then◌else◌, arith}
use graphene.Avl.{
  Balance, left_two, left_one, even, right_one, right_two, AvlTree, leaf, node, is_even,
  is_left_one, is_right_one, avl_tree_insert, avl_tree_is_balanced_size, debug_avl_tree_is_balanced,
}
use graphene.Avl.Rotate.{Leans, height, IsBalanced}
use graphene.Avl.Balanced.{avl_tree_insert-IsBalanced}

-- The test of one node, given what the two children answered.
abbrev node_test : Balance → ℕ → ℕ → Bool → Bool → Bool × ℕ
node_test balance a b ret1 ret2 =
    if ltb a b
    then ((ret1 && ret2) && (b - a == 1 && is_right_one balance), suc b)
    else if a == b
    then ((ret1 && ret2) && is_even balance, suc a)
    else ((ret1 && ret2) && (a - b == 1 && is_left_one balance), suc a)

node_test-Leans :
    (balance : Balance) (a b : ℕ) (x y : Bool)
    → (node_test balance a b x y).0 ≡ true
    → Leans balance a b
node_test-Leans left_two a b x y h = ground arith
node_test-Leans left_one a b x y h = ground arith
node_test-Leans even a b x y h = ground arith
node_test-Leans right_one a b x y h = ground arith
node_test-Leans right_two a b x y h = ground arith

Leans-node_test :
    (balance : Balance) (a b : ℕ) → Leans balance a b → (node_test balance a b true true).0 ≡ true
Leans-node_test left_two a b h = absurd (omega arith)
Leans-node_test left_one a b h = ground arith
Leans-node_test even a b h = ground arith
Leans-node_test right_one a b h = ground arith
Leans-node_test right_two a b h = absurd (omega arith)

module _ {ℓ} {A : Type ℓ} where
  size-height : (t : AvlTree A) → (avl_tree_is_balanced_size t).1 ≡ height t
  unfolding avl_tree_is_balanced_size height
  size-height leaf = refl
  size-height (node l v b r) = ground (arith, size-height l, size-height r)

  pub size-IsBalanced : (t : AvlTree A) → (avl_tree_is_balanced_size t).0 ≡ true → IsBalanced t
  unfolding avl_tree_is_balanced_size IsBalanced height
  size-IsBalanced leaf h = tt
  size-IsBalanced (node l v b r) h = (
    size-IsBalanced l (ground (arith, h)),
    size-IsBalanced r (ground (arith, h)),
    rw (sym (size-height l), sym (size-height r))
        (node_test-Leans b (avl_tree_is_balanced_size l).1 (avl_tree_is_balanced_size r).1
          (avl_tree_is_balanced_size l).0 (avl_tree_is_balanced_size r).0 h),
  )

  pub IsBalanced-size : (t : AvlTree A) → IsBalanced t → (avl_tree_is_balanced_size t).0 ≡ true
  unfolding avl_tree_is_balanced_size IsBalanced height
  IsBalanced-size leaf w = refl
  IsBalanced-size (node l v b r) w =
      rw (IsBalanced-size l w.0, IsBalanced-size r w.1, size-height l, size-height r)
        (Leans-node_test b (height l) (height r) w.2)

  -- Insertion into a tree that passes the check gives a tree that passes it.
  pub debug_avl_tree_is_balanced-avl_tree_insert :
      (cmp : A → A → Bool) (x : A) (t : AvlTree A)
      → debug_avl_tree_is_balanced t ≡ true
      → debug_avl_tree_is_balanced (avl_tree_insert cmp x t) ≡ true
  unfolding debug_avl_tree_is_balanced
  debug_avl_tree_is_balanced-avl_tree_insert cmp x t h =
      IsBalanced-size (avl_tree_insert cmp x t)
        (avl_tree_insert-IsBalanced cmp x t (size-IsBalanced t h))
