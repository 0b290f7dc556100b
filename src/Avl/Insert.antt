-- ===== src/Avl/Insert.antt =====
-- Insertion puts the new node where an insertion into the sequence puts it.
use graphene.Base.{
  ◌≡◌, refl, sym, ap, ◌∙◌, Bool, true, false, ◌&&◌, List, [], ◌∷◌, ◌++◌, if◌then◌else◌, Bool-cases,
  inl, inr, arith,
}
use graphene.Avl.{even, AvlTree, leaf, node, Frame, at_left, at_right, descend, avl_tree_insert}
use graphene.Avl.Order.{inorder, around, avl_tree_balance-inorder}

module _ {ℓ} {A : Type ℓ} where
  -- Insertion into a sequence: in front of the first node that the new one compares before.
  unfoldable pub insert_before : (A → A → Bool) → A → List A → List A
  insert_before cmp x [] = x ∷ []
  insert_before cmp x (v ∷ vs) = if cmp x v then x ∷ v ∷ vs else v ∷ insert_before cmp x vs

  -- From the first node on that `x` compares before, it compares before all.
  abbrev pub is_after : (A → A → Bool) → A → List A → Bool
  is_after cmp x [] = true
  is_after cmp x (v ∷ vs) = cmp x v && is_after cmp x vs

  abbrev pub is_cut : (A → A → Bool) → A → List A → Bool
  is_cut cmp x [] = true
  is_cut cmp x (v ∷ vs) = if cmp x v then is_after cmp x vs else is_cut cmp x vs

  insert_before-left :
      (cmp : A → A → Bool) (x v : A) (xs ys : List A)
      → cmp x v ≡ true
      → insert_before cmp x (xs ++ (v ∷ ys)) ≡ insert_before cmp x xs ++ (v ∷ ys)
  unfolding insert_before
  insert_before-left cmp x v [] ys h = rw h refl
  insert_before-left cmp x v (w ∷ xs) ys h = elim (Bool-cases (cmp x w)) [
    | inl k ↦ rw k refl
    | inr k ↦ rw k (ap (λ us. w ∷ us) (insert_before-left cmp x v xs ys h))
  ]

  is_after-left :
      (cmp : A → A → Bool) (x : A) (xs ys : List A)
      → is_after cmp x (xs ++ ys) ≡ true
      → is_after cmp x xs ≡ true
  is_after-left cmp x [] ys h = refl
  is_after-left cmp x (w ∷ xs) ys h = ground (arith, is_after-left cmp x xs ys)

  pub is_cut-left :
      (cmp : A → A → Bool) (x : A) (xs ys : List A)
      → is_cut cmp x (xs ++ ys) ≡ true
      → is_cut cmp x xs ≡ true
  is_cut-left cmp x [] ys h = refl
  is_cut-left cmp x (w ∷ xs) ys h =
      ground (arith, is_cut-left cmp x xs ys, is_after-left cmp x xs ys)

  pub is_after-middle :
      (cmp : A → A → Bool) (x v : A) (xs ys : List A)
      → is_after cmp x (xs ++ (v ∷ ys)) ≡ true
      → cmp x v ≡ true
  is_after-middle cmp x v [] ys h = ground arith
  is_after-middle cmp x v (w ∷ xs) ys h = ground (arith, is_after-middle cmp x v xs ys)

  -- Behind a node that `x` does not compare before.
  pub insert_before-right :
      (cmp : A → A → Bool) (x v : A) (xs ys : List A)
      → cmp x v ≡ false
      → is_cut cmp x (xs ++ (v ∷ ys)) ≡ true
      → (insert_before cmp x (xs ++ (v ∷ ys)) ≡ xs ++ (v ∷ insert_before cmp x ys))
        × (is_cut cmp x ys ≡ true)
  unfolding insert_before
  insert_before-right cmp x v [] ys h k = (rw h refl, ground arith)
  insert_before-right cmp x v (w ∷ xs) ys h k = elim (Bool-cases (cmp x w)) [
    | inl before ↦ absurd (ground (arith, is_after-middle cmp x v xs ys))
    | inr behind ↦
        let ih = insert_before-right cmp x v xs ys h (rw behind at k) in
        (rw behind (ap (λ us. w ∷ us) ih.0), ih.1)
  ]

  descend-inorder :
      (cmp : A → A → Bool) (x : A) (t : AvlTree A) (fs : List (Frame A))
      → is_cut cmp x (inorder t) ≡ true
      → around (descend cmp x t fs) (x ∷ []) ≡ around fs (insert_before cmp x (inorder t))
  unfolding descend inorder insert_before
  descend-inorder cmp x leaf fs h = refl
  descend-inorder cmp x (node l v b r) fs h = elim (Bool-cases (cmp x v)) [
    | inl before ↦ rw before (
        descend-inorder cmp x l (at_left v b r ∷ fs)
          (is_cut-left cmp x (inorder l) (v ∷ inorder r) h)
        ∙ ap (around fs) (sym (insert_before-left cmp x v (inorder l) (inorder r) before)))
    | inr behind ↦
        let right = insert_before-right cmp x v (inorder l) (inorder r) behind h in
        rw behind
          (descend-inorder cmp x r (at_right l v b ∷ fs) right.1 ∙ ap (around fs) (sym right.0))
  ]

  -- Insertion puts the new node in front of the first that it compares before, if it compares
  -- before all that follow that one.
  pub avl_tree_insert-inorder :
      (cmp : A → A → Bool) (x : A) (t : AvlTree A)
      → is_cut cmp x (inorder t) ≡ true
      → inorder (avl_tree_insert cmp x t) ≡ insert_before cmp x (inorder t)
  unfolding avl_tree_insert inorder
  avl_tree_insert-inorder cmp x t h =
      avl_tree_balance-inorder true (node leaf x even leaf) (descend cmp x t [])
      ∙ descend-inorder cmp x t [] h
