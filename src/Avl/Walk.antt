-- ===== src/Avl/Walk.antt =====
-- `avl_tree_next`, `avl_tree_prev` and `avl_tree_last`, and where they stand in the sequence of
-- nodes.
use mathlib.Core.List.{append_assoc, append-nil}
use graphene.Base.{◌≡◌, refl, sym, ap, ◌∙◌, Option, none, some, List, [], ◌∷◌, ◌++◌}
use graphene.Avl.{
  Balance, AvlTree, leaf, node, Frame, at_left, at_right, plug, first_below, avl_tree_first,
}
use graphene.Avl.Order.{inorder, around, plug-inorder}

module _ {ℓ} {A : Type ℓ} where
  unfoldable pub last_below : A → AvlTree A → A
  last_below v leaf = v
  last_below v (node l w b r) = last_below w r

  -- `avl_tree_last`
  unfoldable pub avl_tree_last : AvlTree A → Option A
  unfolding last_below
  avl_tree_last leaf = none
  avl_tree_last (node l v b r) = some (last_below v r)

  -- The climb of `avl_tree_next`: up while the node is the right child.
  unfoldable pub climb_next : List (Frame A) → Option A
  climb_next [] = none
  climb_next (at_left v b r ∷ fs) = some v
  climb_next (at_right l v b ∷ fs) = climb_next fs

  -- The climb of `avl_tree_prev`.
  unfoldable pub climb_prev : List (Frame A) → Option A
  climb_prev [] = none
  climb_prev (at_left v b r ∷ fs) = climb_prev fs
  climb_prev (at_right l v b ∷ fs) = some v

  -- `avl_tree_next` of the node with the right child `r` in the frames `fs`.
  unfoldable pub avl_tree_next : (r : AvlTree A) → (fs : List (Frame A)) → Option A
  unfolding climb_next first_below
  avl_tree_next leaf fs = climb_next fs
  avl_tree_next (node l v b r) fs = some (first_below v l)

  -- `avl_tree_prev` of the node with the left child `l` in the frames `fs`.
  unfoldable pub avl_tree_prev : (l : AvlTree A) → (fs : List (Frame A)) → Option A
  unfolding climb_prev last_below
  avl_tree_prev leaf fs = climb_prev fs
  avl_tree_prev (node l v b r) fs = some (last_below v r)

  abbrev pub first_of : List A → Option A
  first_of [] = none
  first_of (x ∷ xs) = some x

  abbrev pub last_of : List A → Option A
  last_of [] = none
  last_of (x ∷ []) = some x
  last_of (x ∷ y ∷ ys) = last_of (y ∷ ys)

  -- The nodes of the frames, in front of the subtree and behind it.
  unfoldable pub leaders : List (Frame A) → List A
  leaders [] = []
  leaders (at_left v b r ∷ fs) = leaders fs
  leaders (at_right l v b ∷ fs) = leaders fs ++ (inorder l ++ (v ∷ []))

  unfoldable pub followers : List (Frame A) → List A
  followers [] = []
  followers (at_left v b r ∷ fs) = v ∷ (inorder r ++ followers fs)
  followers (at_right l v b ∷ fs) = followers fs

  pub around-leaders :
      (fs : List (Frame A)) (xs : List A) → around fs xs ≡ leaders fs ++ (xs ++ followers fs)
  unfolding leaders followers
  around-leaders [] xs = sym (append-nil xs)
  around-leaders (at_left v b r ∷ fs) xs =
      around-leaders fs (xs ++ (v ∷ inorder r))
      ∙ ap (λ ys. leaders fs ++ ys) (append_assoc xs (v ∷ inorder r) (followers fs))
  around-leaders (at_right l v b ∷ fs) xs =
      around-leaders fs (inorder l ++ (v ∷ xs)) ∙ simp append_assoc refl

  first_below-first_of :
      (v : A) (l : AvlTree A) (ys : List A)
      → some (first_below v l) ≡ first_of (inorder l ++ (v ∷ ys))
  unfolding first_below inorder
  first_below-first_of v leaf ys = refl
  first_below-first_of v (node l w b r) ys =
      first_below-first_of w l (inorder r ++ (v ∷ ys))
      ∙ ap first_of (sym (append_assoc (inorder l) (w ∷ inorder r) (v ∷ ys)))

  last_of-append : (xs : List A) (y : A) (ys : List A) → last_of (xs ++ (y ∷ ys)) ≡ last_of (y ∷ ys)
  last_of-append [] y ys = refl
  last_of-append (x ∷ []) y ys = refl
  last_of-append (x ∷ z ∷ zs) y ys = last_of-append (z ∷ zs) y ys

  last_below-last_of : (v : A) (r : AvlTree A) → some (last_below v r) ≡ last_of (v ∷ inorder r)
  unfolding last_below inorder
  last_below-last_of v leaf = refl
  last_below-last_of v (node l w b r) =
      last_below-last_of w r ∙ sym (last_of-append (v ∷ inorder l) w (inorder r))

  climb_next-followers : (fs : List (Frame A)) → climb_next fs ≡ first_of (followers fs)
  unfolding climb_next followers
  climb_next-followers [] = refl
  climb_next-followers (at_left v b r ∷ fs) = refl
  climb_next-followers (at_right l v b ∷ fs) = climb_next-followers fs

  climb_prev-leaders : (fs : List (Frame A)) → climb_prev fs ≡ last_of (leaders fs)
  unfolding climb_prev leaders
  climb_prev-leaders [] = refl
  climb_prev-leaders (at_left v b r ∷ fs) = climb_prev-leaders fs
  climb_prev-leaders (at_right l v b ∷ fs) = sym (
      ap last_of (sym (append_assoc (leaders fs) (inorder l) (v ∷ [])))
      ∙ last_of-append (leaders fs ++ inorder l) v [])

  avl_tree_next-first_of :
      (r : AvlTree A) (fs : List (Frame A))
      → avl_tree_next r fs ≡ first_of (inorder r ++ followers fs)
  unfolding avl_tree_next inorder
  avl_tree_next-first_of leaf fs = climb_next-followers fs
  avl_tree_next-first_of (node l v b r) fs =
      first_below-first_of v l (inorder r ++ followers fs)
      ∙ ap first_of (sym (append_assoc (inorder l) (v ∷ inorder r) (followers fs)))

  avl_tree_prev-last_of :
      (l : AvlTree A) (fs : List (Frame A)) → avl_tree_prev l fs ≡ last_of (leaders fs ++ inorder l)
  unfolding avl_tree_prev inorder
  avl_tree_prev-last_of leaf fs = climb_prev-leaders fs ∙ ap last_of (sym (append-nil (leaders fs)))
  avl_tree_prev-last_of (node l v b r) fs =
      last_below-last_of v r
      ∙ sym (
          ap last_of (sym (append_assoc (leaders fs) (inorder l) (v ∷ inorder r)))
          ∙ last_of-append (leaders fs ++ inorder l) v (inorder r))

  -- The sequence of a tree splits at each of its nodes into what comes before it and behind it;
  -- `avl_tree_prev` of the node is the last of the one, `avl_tree_next` the first of the other.
  pub avl_tree_next-inorder :
      (l r : AvlTree A) (v : A) (b : Balance) (fs : List (Frame A))
      → (inorder (plug (node l v b r) fs)
          ≡ (leaders fs ++ inorder l) ++ (v ∷ (inorder r ++ followers fs)))
        × (avl_tree_next r fs ≡ first_of (inorder r ++ followers fs))
        × (avl_tree_prev l fs ≡ last_of (leaders fs ++ inorder l))
  unfolding inorder
  avl_tree_next-inorder l r v b fs = (
    plug-inorder fs (node l v b r)
        ∙ (around-leaders fs (inorder (node l v b r)) ∙ simp append_assoc refl),
    avl_tree_next-first_of r fs,
    avl_tree_prev-last_of l fs,
  )

  -- `avl_tree_first` and `avl_tree_last` are the two ends of the sequence.
  pub avl_tree_first-inorder :
      (t : AvlTree A)
      → (avl_tree_first t ≡ first_of (inorder t)) × (avl_tree_last t ≡ last_of (inorder t))
  unfolding avl_tree_first avl_tree_last inorder
  avl_tree_first-inorder leaf = (refl, refl)
  avl_tree_first-inorder (node l v b r) = (
    first_below-first_of v l (inorder r),
    last_below-last_of v r ∙ sym (last_of-append (inorder l) v (inorder r)),
  )
