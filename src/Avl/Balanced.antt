-- ===== src/Avl/Balanced.antt =====
-- Insertion keeps the tree balanced.
use graphene.Base.{
  ℕ, suc, max, ◌≡◌, refl, sym, subst, Bool, true, false, List, [], ◌∷◌, if◌then◌else◌, inl, inr,
  arith,
}
use graphene.Avl.{
  Balance, left_two, left_one, even, right_one, right_two, AvlTree, leaf, node, Frame, at_left,
  at_right, rebalance, balance_frame, plug, avl_tree_balance, descend, avl_tree_insert,
}
use graphene.Avl.Rotate.{
  Leans, height, IsBalanced, Fits, HasGrown, descend-Fits, plug-IsBalanced, do_balance_left-Round,
  do_balance_right-Round, height-HasGrown,
}

module _ {ℓ} {A : Type ℓ} where
  -- A round of the balancing: the subtree has grown from the height `h`, or is as high as before.
  record Round (h : ℕ) (p : Bool × AvlTree A) : Type 0 where
    balanced : IsBalanced p.1
    grown : p.0 ≡ true → HasGrown h p.1
    same : p.0 ≡ false → height p.1 ≡ h

  balance_left-Round :
      (h : ℕ) (t r : AvlTree A) (v : A) (b : Balance)
      → IsBalanced t
      → HasGrown h t
      → IsBalanced r
      → Leans b h (height r)
      → Round (suc (max h (height r))) (balance_frame true t (at_left v b r))
  unfolding IsBalanced height balance_frame rebalance
  balance_left-Round h t r v left_two w g wr k = absurd (omega arith)
  balance_left-Round h t r v right_two w g wr k = absurd (omega arith)
  balance_left-Round h t r v left_one w g wr k =
      let turned =
        do_balance_left-Round (height r) t r v w (subst (λ n. HasGrown n t) k g) wr refl in
      record { balanced = turned.0; grown = λ c. cc; same = λ c. omega (arith, turned.1, k) }
  balance_left-Round h t r v even w g wr k =
      let grew = height-HasGrown h t g in
      record {
        balanced = (w, wr, omega (arith, grew, k));
        grown = λ c. (omega (arith, grew, k), inl refl);
        same = λ c. cc;
      }
  balance_left-Round h t r v right_one w g wr k =
      let grew = height-HasGrown h t g in
      record {
        balanced = (w, wr, omega (arith, grew, k));
        grown = λ c. cc;
        same = λ c. omega (arith, grew, k);
      }

  balance_right-Round :
      (h : ℕ) (l t : AvlTree A) (v : A) (b : Balance)
      → IsBalanced t
      → HasGrown h t
      → IsBalanced l
      → Leans b (height l) h
      → Round (suc (max (height l) h)) (balance_frame true t (at_right l v b))
  unfolding IsBalanced height balance_frame rebalance
  balance_right-Round h l t v left_two w g wl k = absurd (omega arith)
  balance_right-Round h l t v right_two w g wl k = absurd (omega arith)
  balance_right-Round h l t v right_one w g wl k =
      let turned =
        do_balance_right-Round (height l) l t v w (subst (λ n. HasGrown n t) k g) wl refl in
      record { balanced = turned.0; grown = λ c. cc; same = λ c. omega (arith, turned.1, k) }
  balance_right-Round h l t v even w g wl k =
      let grew = height-HasGrown h t g in
      record {
        balanced = (wl, w, omega (arith, grew, k));
        grown = λ c. (omega (arith, grew, k), inl refl);
        same = λ c. cc;
      }
  balance_right-Round h l t v left_one w g wl k =
      let grew = height-HasGrown h t g in
      record {
        balanced = (wl, w, omega (arith, grew, k));
        grown = λ c. cc;
        same = λ c. omega (arith, grew, k);
      }

  balance_on :
      (h : ℕ) (up : Bool × AvlTree A) (fs : List (Frame A))
      → Round h up
      → Fits h fs
      → ((t : AvlTree A) → IsBalanced t → HasGrown h t → IsBalanced (avl_tree_balance true t fs))
      → IsBalanced (if up.0 then avl_tree_balance true up.1 fs else plug up.1 fs)
  balance_on h (true, t) fs round f go = go t round.balanced (round.grown refl)
  balance_on h (false, t) fs round f go =
      plug-IsBalanced t fs round.balanced (subst (λ n. Fits n fs) (sym (round.same refl)) f)

  avl_tree_balance-IsBalanced :
      (h : ℕ) (t : AvlTree A) (fs : List (Frame A))
      → IsBalanced t
      → HasGrown h t
      → Fits h fs
      → IsBalanced (avl_tree_balance true t fs)
  unfolding avl_tree_balance
  avl_tree_balance-IsBalanced h t [] w g f = w
  avl_tree_balance-IsBalanced h t (at_left v b r ∷ fs) w g f =
      balance_on (suc (max h (height r))) (balance_frame true t (at_left v b r)) fs
        (balance_left-Round h t r v b w g f.0 f.1) f.2
        (λ t1 w1 g1. avl_tree_balance-IsBalanced (suc (max h (height r))) t1 fs w1 g1 f.2)
  avl_tree_balance-IsBalanced h t (at_right l v b ∷ fs) w g f =
      balance_on (suc (max (height l) h)) (balance_frame true t (at_right l v b)) fs
        (balance_right-Round h l t v b w g f.0 f.1) f.2
        (λ t1 w1 g1. avl_tree_balance-IsBalanced (suc (max (height l) h)) t1 fs w1 g1 f.2)

  -- Insertion keeps the tree balanced: the heights of the children of a node differ by at most
  -- one, and the balance of the node says which way.
  pub avl_tree_insert-IsBalanced :
      (cmp : A → A → Bool) (x : A) (t : AvlTree A)
      → IsBalanced t
      → IsBalanced (avl_tree_insert cmp x t)
  unfolding avl_tree_insert IsBalanced height
  avl_tree_insert-IsBalanced cmp x t w =
      avl_tree_balance-IsBalanced 0 (node leaf x even leaf) (descend cmp x t []) (tt, tt, refl)
        (refl, inr refl) (descend-Fits cmp x t [] w tt)
