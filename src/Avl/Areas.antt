-- ===== src/Avl/Areas.antt =====
-- Deletion from the tree of areas of the LibOS.
use graphene.Base.{ℕ, ◌<◌, ◌≡◌, sym, ap, subst, ◌∙◌, List, [], ◌∷◌, ◌++◌, arith}
use graphene.Avl.{Balance, AvlTree, node, Frame, plug}
use graphene.Avl.Order.{inorder}
use graphene.Avl.Walk.{leaders, followers}
use graphene.Avl.Delete.{avl_tree_delete, avl_tree_delete-inorder}
use graphene.Vma.Types.{Vma}
use graphene.Vma.Tree.{delete}
use graphene.Vma.View.{IsOrdered}

delete-middle :
    (lo : ℕ) (v : Vma) (xs ys : List Vma)
    → IsOrdered lo (xs ++ (v ∷ ys))
    → (lo < v.end) × (delete v (xs ++ (v ∷ ys)) ≡ xs ++ ys)
unfolding delete
delete-middle lo v [] ys o = (omega arith, ground arith)
delete-middle lo v (x ∷ xs) ys o =
    let (above, rest) = delete-middle x.end v xs ys o.2 in
    (omega arith, ground (arith, above, rest))

-- On a tree of ascending areas, deletion is the deletion from the sequence of areas.
pub avl_tree_delete-delete :
    (l r : AvlTree Vma) (v : Vma) (b : Balance) (fs : List (Frame Vma))
    → IsOrdered 0 (inorder (plug (node l v b r) fs))
    → inorder (avl_tree_delete l b r fs) ≡ delete v (inorder (plug (node l v b r) fs))
avl_tree_delete-delete l r v b fs o =
    let (whole, less) = avl_tree_delete-inorder l r v b fs in
    less
    ∙ (sym
          (delete-middle 0 v (leaders fs ++ inorder l) (inorder r ++ followers fs)
            (subst (IsOrdered 0) whole o)).1
        ∙ ap (delete v) (sym whole))
