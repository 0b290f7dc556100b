-- ===== src/Avl/Order.antt =====
-- Rotations and rebalancing keep the nodes in their order.
use mathlib.Core.List.{append_assoc}
use graphene.Base.{◌≡◌, refl, sym, ap, ◌∙◌, Bool, true, false, List, [], ◌∷◌, ◌++◌, if_both}
use graphene.Avl.{
  Balance, left_two, left_one, even, right_one, right_two, AvlTree, leaf, node, Frame, at_left,
  at_right, is_left_one, is_right_one, increment, decrement, rot1_l, rot1_r, do_balance_left,
  do_balance_right, rebalance, balance_frame, plug, avl_tree_balance,
}

module _ {ℓ} {A : Type ℓ} where
  -- The nodes from the first to the last.
  unfoldable pub inorder : AvlTree A → List A
  inorder leaf = []
  inorder (node l v b r) = inorder l ++ (v ∷ inorder r)

  rot1_l-inorder :
      (pl ql qr : AvlTree A) (p q : A) (b : Balance)
      → inorder (rot1_l pl p ql q b qr) ≡ inorder pl ++ (p ∷ (inorder ql ++ (q ∷ inorder qr)))
  unfolding inorder rot1_l
  rot1_l-inorder pl ql qr p q b =
      if_both (λ t. inorder t ≡ inorder pl ++ (p ∷ (inorder ql ++ (q ∷ inorder qr))))
        (is_right_one b) _ _ (append_assoc (inorder pl) (p ∷ inorder ql) (q ∷ inorder qr))
        (append_assoc (inorder pl) (p ∷ inorder ql) (q ∷ inorder qr))

  rot1_r-inorder :
      (ql qr pr : AvlTree A) (p q : A) (b : Balance)
      → inorder (rot1_r ql q b qr p pr) ≡ (inorder ql ++ (q ∷ inorder qr)) ++ (p ∷ inorder pr)
  unfolding inorder rot1_r
  rot1_r-inorder ql qr pr p q b =
      if_both (λ t. inorder t ≡ (inorder ql ++ (q ∷ inorder qr)) ++ (p ∷ inorder pr))
        (is_left_one b) _ _ (sym (append_assoc (inorder ql) (q ∷ inorder qr) (p ∷ inorder pr)))
        (sym (append_assoc (inorder ql) (q ∷ inorder qr) (p ∷ inorder pr)))

  do_balance_left-inorder :
      (l r : AvlTree A) (p : A) → inorder (do_balance_left l p r).1 ≡ inorder l ++ (p ∷ inorder r)
  unfolding inorder do_balance_left
  do_balance_left-inorder leaf r p = refl
  do_balance_left-inorder (node ql q b leaf) r p = rot1_r-inorder ql leaf r p q b
  do_balance_left-inorder (node ql q b (node rl m rb rr)) r p =
      if_both {A = Bool × AvlTree A}
        (λ t. inorder t.1 ≡ (inorder ql ++ (q ∷ inorder (node rl m rb rr))) ++ (p ∷ inorder r))
        (is_right_one b) _ _ (simp append_assoc refl) (rot1_r-inorder ql (node rl m rb rr) r p q b)

  do_balance_right-inorder :
      (l r : AvlTree A) (p : A) → inorder (do_balance_right l p r).1 ≡ inorder l ++ (p ∷ inorder r)
  unfolding inorder do_balance_right
  do_balance_right-inorder l leaf p = refl
  do_balance_right-inorder l (node leaf q b qr) p = rot1_l-inorder l leaf qr p q b
  do_balance_right-inorder l (node (node rl m rb rr) q b qr) p =
      if_both {A = Bool × AvlTree A}
        (λ t. inorder t.1 ≡ inorder l ++ (p ∷ (inorder (node rl m rb rr) ++ (q ∷ inorder qr))))
        (is_left_one b) _ _ (simp append_assoc refl) (rot1_l-inorder l (node rl m rb rr) qr p q b)

  rebalance-inorder :
      (up c : Bool) (l r : AvlTree A) (v : A) (b : Balance)
      → inorder (rebalance up c l v b r).1 ≡ inorder l ++ (v ∷ inorder r)
  unfolding inorder rebalance
  rebalance-inorder up c l r v left_two = do_balance_left-inorder l r v
  rebalance-inorder up c l r v left_one = refl
  rebalance-inorder up c l r v even = refl
  rebalance-inorder up c l r v right_one = refl
  rebalance-inorder up c l r v right_two = do_balance_right-inorder l r v

  -- The nodes of the frames around those of the subtree.
  abbrev pub around : List (Frame A) → List A → List A
  around [] xs = xs
  around (at_left v b r ∷ fs) xs = around fs (xs ++ (v ∷ inorder r))
  around (at_right l v b ∷ fs) xs = around fs (inorder l ++ (v ∷ xs))

  pub plug-inorder :
      (fs : List (Frame A)) (t : AvlTree A) → inorder (plug t fs) ≡ around fs (inorder t)
  unfolding plug inorder
  plug-inorder [] t = refl
  plug-inorder (at_left v b r ∷ fs) t = plug-inorder fs (node t v b r)
  plug-inorder (at_right l v b ∷ fs) t = plug-inorder fs (node l v b t)

  balance_frame-inorder :
      (up : Bool) (t : AvlTree A) (f : Frame A)
      → inorder (balance_frame up t f).1 ≡ around (f ∷ []) (inorder t)
  unfolding balance_frame
  balance_frame-inorder true t (at_left v b r) = rebalance-inorder true _ t r v (decrement b)
  balance_frame-inorder false t (at_left v b r) = rebalance-inorder false _ t r v (increment b)
  balance_frame-inorder true t (at_right l v b) = rebalance-inorder true _ l t v (increment b)
  balance_frame-inorder false t (at_right l v b) = rebalance-inorder false _ l t v (decrement b)

  around-cons :
      (f : Frame A) (fs : List (Frame A)) (xs : List A)
      → around (f ∷ fs) xs ≡ around fs (around (f ∷ []) xs)
  around-cons (at_left v b r) fs xs = refl
  around-cons (at_right l v b) fs xs = refl

  -- Rebalancing never changes the order of the nodes.
  pub avl_tree_balance-inorder :
      (up : Bool) (t : AvlTree A) (fs : List (Frame A))
      → inorder (avl_tree_balance up t fs) ≡ around fs (inorder t)
  unfolding avl_tree_balance
  avl_tree_balance-inorder up t [] = refl
  avl_tree_balance-inorder up t (f ∷ fs) =
      let t' = (balance_frame up t f).1 in
      let same =
        ap (around fs) (balance_frame-inorder up t f) ∙ sym (around-cons f fs (inorder t)) in
      if_both (λ u. inorder u ≡ around (f ∷ fs) (inorder t)) (balance_frame up t f).0 _ _
        (avl_tree_balance-inorder up t' fs ∙ same) (plug-inorder fs t' ∙ same)
