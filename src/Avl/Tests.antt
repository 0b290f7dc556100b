-- ===== src/Avl/Tests.antt =====
-- Trees at small inputs.
use graphene.Base.{◌≡◌, refl, true, none, [], ◌∷◌, List, arith, ltb, ℕ}
use graphene.Avl.{
  AvlTree, leaf, node, even, right_one, left_one, at_left, at_right, Frame, plug, avl_tree_insert,
  debug_avl_tree_is_balanced, avl_tree_lower_bound_fn,
}
use graphene.Avl.Order.{inorder}
use graphene.Avl.Debug.{debug_avl_tree_is_balanced-avl_tree_insert}
use graphene.Avl.Delete.{avl_tree_delete}
use graphene.Avl.Shrink.{debug_avl_tree_is_balanced-avl_tree_delete}
use graphene.Avl.Areas.{avl_tree_delete-delete}
use graphene.Avl.Search.{avl_tree_insert-insert, avl_tree_lower_bound_fn-lookup}
use graphene.Vma.Types.{Vma}
use graphene.Vma.Tree.{vma_tree_cmp, cmp_addr_to_vma, insert, delete, lookup, head?}
use graphene.Vma.View.{IsOrdered}

-- The third number in a row makes the root rotate.
abbrev chain : AvlTree ℕ
chain = node leaf 1 right_one (node leaf 2 even leaf)

rotated_run :
    avl_tree_insert ltb 3 chain ≡ node (node leaf 1 even leaf) 2 even (node leaf 3 even leaf)
unfolding avl_tree_insert
rotated_run = refl

abbrev area : Vma
area = record {
  begin = 0x1000;
  end = 0x2000;
  prot = 3;
  flags = 0x22;
  file = none;
  offset = 0;
  comment = [];
}

abbrev above : Vma
above = record area { begin = 0x3000; end = 0x4000 }

abbrev areas : AvlTree Vma
areas = node leaf area right_one (node leaf above even leaf)

areas-IsOrdered : IsOrdered 0 (inorder areas)
unfolding inorder
areas-IsOrdered = omega arith

avl_tree_insert-insert_example :
    inorder (avl_tree_insert vma_tree_cmp (record area { begin = 0x5000; end = 0x6000 }) areas)
    ≡ insert (record area { begin = 0x5000; end = 0x6000 }) (inorder areas)
avl_tree_insert-insert_example =
    avl_tree_insert-insert (record area { begin = 0x5000; end = 0x6000 }) areas areas-IsOrdered

avl_tree_lower_bound_fn-lookup_example :
    avl_tree_lower_bound_fn (cmp_addr_to_vma 0x2800) areas none
    ≡ head? (lookup 0x2800 (inorder areas)).1
avl_tree_lower_bound_fn-lookup_example = avl_tree_lower_bound_fn-lookup 0x2800 areas areas-IsOrdered

chain_balanced : debug_avl_tree_is_balanced chain ≡ true
unfolding debug_avl_tree_is_balanced
chain_balanced = refl

debug_avl_tree_is_balanced-avl_tree_insert_example :
    debug_avl_tree_is_balanced (avl_tree_insert ltb 3 chain) ≡ true
debug_avl_tree_is_balanced-avl_tree_insert_example =
    debug_avl_tree_is_balanced-avl_tree_insert ltb 3 chain chain_balanced

abbrev above_three : List (Frame ℕ)
above_three = at_right leaf 1 right_one ∷ []

-- Without its first node this tree leans by two.
abbrev four : AvlTree ℕ
four = node (node leaf 3 even leaf) 4 left_one leaf

deep_balanced :
    debug_avl_tree_is_balanced (plug (node leaf 1 even leaf) (at_left 2 right_one four ∷ [])) ≡ true
unfolding debug_avl_tree_is_balanced plug
deep_balanced = refl

deleted_run :
    avl_tree_delete leaf even leaf (at_left 2 right_one four ∷ [])
    ≡ node (node leaf 2 even leaf) 3 even (node leaf 4 even leaf)
unfolding avl_tree_delete
deleted_run = refl

debug_avl_tree_is_balanced-avl_tree_delete_example :
    debug_avl_tree_is_balanced
      (avl_tree_delete {A = ℕ} leaf even leaf (at_left 2 right_one four ∷ []))
    ≡ true
debug_avl_tree_is_balanced-avl_tree_delete_example =
    debug_avl_tree_is_balanced-avl_tree_delete leaf leaf 1 even (at_left 2 right_one four ∷ [])
      deep_balanced

avl_tree_delete-delete_example :
    inorder (avl_tree_delete leaf right_one (node leaf above even leaf) [])
    ≡ delete area (inorder areas)
unfolding plug
avl_tree_delete-delete_example =
    avl_tree_delete-delete leaf (node leaf above even leaf) area right_one [] areas-IsOrdered
