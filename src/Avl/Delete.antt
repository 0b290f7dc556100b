-- ===== src/Avl/Delete.antt =====
-- `avl_tree_delete` and `avl_tree_swap_node`, and what deletion does to the sequence of nodes.
use mathlib.Core.List.{append_assoc, append-nil}
use graphene.Base.{false, ◌≡◌, refl, sym, ap, ◌∙◌, List, ◌∷◌, ◌++◌}
use graphene.Avl.{
  Balance, AvlTree, leaf, node, Frame, at_left, at_right, plug, avl_tree_balance, first_below,
}
use graphene.Avl.Order.{inorder, around, plug-inorder, avl_tree_balance-inorder}
use graphene.Avl.Walk.{leaders, followers, around-leaders}

module _ {ℓ} {A : Type ℓ} where
  -- The way down to the first node of a subtree: what takes that node's place when it leaves, and
  -- the frames around it.
  unfoldable pub unhook :
      AvlTree A → A → Balance → AvlTree A → List (Frame A) → AvlTree A × List (Frame A)
  unhook leaf v b r fs = (r, fs)
  unhook (node ll lv lb lr) v b r fs = unhook ll lv lb lr (at_left v b r ∷ fs)

  -- The subtree that takes the place of the node `v` with the children `l` and `r`, and the frames
  -- around it; a node with two children is replaced by the next one, which leaves its own place.
  unfoldable pub replacement :
      AvlTree A → Balance → AvlTree A → List (Frame A) → AvlTree A × List (Frame A)
  unfolding unhook first_below
  replacement leaf b r fs = (r, fs)
  replacement (node ll lv lb lr) b leaf fs = (node ll lv lb lr, fs)
  replacement (node ll lv lb lr) b (node rl rv rb rr) fs =
      unhook rl rv rb rr (at_right (node ll lv lb lr) (first_below rv rl) b ∷ fs)

  -- `avl_tree_delete` of the node with these children and balance in the frames `fs`.
  unfoldable pub avl_tree_delete : AvlTree A → Balance → AvlTree A → List (Frame A) → AvlTree A
  unfolding replacement avl_tree_balance
  avl_tree_delete l b r fs =
      let (child, frames) = replacement l b r fs in avl_tree_balance false child frames

  -- `avl_tree_swap_node`: `new` takes the place of a node with its children and its balance.
  unfoldable pub avl_tree_swap_node :
      (new : A) → AvlTree A → Balance → AvlTree A → List (Frame A) → AvlTree A
  unfolding plug
  avl_tree_swap_node new l b r fs = plug (node l new b r) fs

  unhook-inorder :
      (l r : AvlTree A) (v : A) (b : Balance) (fs : List (Frame A))
      → (rest : List A) × (inorder (node l v b r) ≡ first_below v l ∷ rest)
        × (around (unhook l v b r fs).1 (inorder (unhook l v b r fs).0) ≡ around fs rest)
  unfolding unhook inorder first_below
  unhook-inorder leaf r v b fs = (inorder r, refl, refl)
  unhook-inorder (node ll lv lb lr) r v b fs =
      let (rest, first, same) = unhook-inorder ll lr lv lb (at_left v b r ∷ fs) in
      (rest ++ (v ∷ inorder r), ap (λ xs. xs ++ (v ∷ inorder r)) first, same)

  replacement-inorder :
      (l r : AvlTree A) (b : Balance) (fs : List (Frame A))
      → around (replacement l b r fs).1 (inorder (replacement l b r fs).0)
        ≡ around fs (inorder l ++ inorder r)
  unfolding replacement inorder
  replacement-inorder leaf r b fs = refl
  replacement-inorder (node ll lv lb lr) leaf b fs =
      ap (around fs) (sym (append-nil (inorder (node ll lv lb lr))))
  replacement-inorder (node ll lv lb lr) (node rl rv rb rr) b fs =
      let (rest, first, same) =
        unhook-inorder rl rr rv rb (at_right (node ll lv lb lr) (first_below rv rl) b ∷ fs) in
      same ∙ ap (λ xs. around fs (inorder (node ll lv lb lr) ++ xs)) (sym first)

  -- Deletion takes exactly the one node out of the sequence.
  pub avl_tree_delete-inorder :
      (l r : AvlTree A) (v : A) (b : Balance) (fs : List (Frame A))
      → (inorder (plug (node l v b r) fs)
          ≡ (leaders fs ++ inorder l) ++ (v ∷ (inorder r ++ followers fs)))
        × (inorder (avl_tree_delete l b r fs)
            ≡ (leaders fs ++ inorder l) ++ (inorder r ++ followers fs))
  unfolding avl_tree_delete inorder
  avl_tree_delete-inorder l r v b fs = (
    plug-inorder fs (node l v b r)
        ∙ (around-leaders fs (inorder (node l v b r)) ∙ simp append_assoc refl),
    avl_tree_balance-inorder false (replacement l b r fs).0 (replacement l b r fs).1
        ∙ (replacement-inorder l r b fs
            ∙ (around-leaders fs (inorder l ++ inorder r) ∙ simp append_assoc refl)),
  )
