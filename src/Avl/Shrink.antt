-- ===== src/Avl/Shrink.antt =====
-- Deletion keeps the tree balanced.
use graphene.Base.{
  ℕ, suc, max, ◌≡◌, refl, sym, subst, Bool, true, false, List, [], ◌∷◌, if◌then◌else◌, arith,
}
use graphene.Avl.{
  Balance, left_two, left_one, even, right_one, right_two, AvlTree, leaf, node, Frame, at_left,
  at_right, rot1_l, rot1_r, rot2_rl, rot2_lr, do_balance_left, do_balance_right, rebalance,
  balance_frame, plug, avl_tree_balance, first_below, debug_avl_tree_is_balanced,
}
use graphene.Avl.Rotate.{Leans, height, IsBalanced, Fits, plug-IsBalanced, double-heights}
use graphene.Avl.Delete.{unhook, replacement, avl_tree_delete}
use graphene.Avl.Debug.{size-IsBalanced, IsBalanced-size}

module _ {ℓ} {A : Type ℓ} where
  -- A balanced tree around a subtree, taken apart.
  plug-parts :
      (t : AvlTree A) (fs : List (Frame A))
      → IsBalanced (plug t fs)
      → IsBalanced t × Fits (height t) fs
  unfolding IsBalanced height plug
  plug-parts t [] w = (w, tt)
  plug-parts t (at_left v b r ∷ fs) w =
      let up = plug-parts (node t v b r) fs w in (up.0.0, (up.0.1, up.0.2, up.1))
  plug-parts t (at_right l v b ∷ fs) w =
      let up = plug-parts (node l v b t) fs w in (up.0.1, (up.0.0, up.0.2, up.1))

  -- A round of the balancing where a subtree has shrunk: it was as high as `h`.
  record Shrinks (h : ℕ) (p : Bool × AvlTree A) : Type 0 where
    balanced : IsBalanced p.1
    lower : p.0 ≡ true → suc (height p.1) ≡ h
    same : p.0 ≡ false → height p.1 ≡ h

  do_balance_left-Shrinks :
      (h : ℕ) (t r : AvlTree A) (v : A)
      → IsBalanced t
      → height t ≡ suc (suc h)
      → IsBalanced r
      → height r ≡ h
      → Shrinks (suc (suc (suc h))) (do_balance_left t v r)
  unfolding IsBalanced height do_balance_left rot1_r rot2_lr
  do_balance_left-Shrinks h leaf r v w g wr e = absurd (omega arith)
  do_balance_left-Shrinks h (node ql q left_two qr) r v w g wr e = absurd (omega (arith, w.2))
  do_balance_left-Shrinks h (node ql q right_two qr) r v w g wr e = absurd (omega (arith, w.2))
  do_balance_left-Shrinks h (node ql q even leaf) r v w g wr e = absurd (omega (arith, w.2))
  do_balance_left-Shrinks h (node ql q even (node rl m rb rr)) r v w g wr e = record {
    balanced = (w.0, (w.1, wr, omega (arith, g, w.2)), omega (arith, g, w.2));
    lower = λ c. cc;
    same = λ c. omega (arith, g, w.2);
  }
  do_balance_left-Shrinks h (node ql q left_one leaf) r v w g wr e = record {
    balanced = (w.0, (tt, wr, omega (arith, g, w.2)), omega (arith, g, w.2));
    lower = λ c. omega (arith, g, w.2);
    same = λ c. cc;
  }
  do_balance_left-Shrinks h (node ql q left_one (node rl m rb rr)) r v w g wr e = record {
    balanced = (w.0, (w.1, wr, omega (arith, g, w.2)), omega (arith, g, w.2));
    lower = λ c. omega (arith, g, w.2);
    same = λ c. cc;
  }
  do_balance_left-Shrinks h (node ql q right_one leaf) r v w g wr e = absurd (omega (arith, w.2))
  do_balance_left-Shrinks h (node ql q right_one (node rl m rb rr)) r v w g wr e =
      let d = double-heights rb (height rl) (height rr) h w.1.2 (omega (arith, g, w.2)) in
      let left : height ql ≡ h = omega (arith, g, w.2) in
      record {
        balanced = rw (left, e) (((w.0, w.1.0, d.0), (w.1.1, wr, d.1), omega (arith, d)));
        lower = λ c. omega (arith, d, left, e);
        same = λ c. cc;
      }

  do_balance_right-Shrinks :
      (h : ℕ) (l t : AvlTree A) (v : A)
      → IsBalanced t
      → height t ≡ suc (suc h)
      → IsBalanced l
      → height l ≡ h
      → Shrinks (suc (suc (suc h))) (do_balance_right l v t)
  unfolding IsBalanced height do_balance_right rot1_l rot2_rl
  do_balance_right-Shrinks h l leaf v w g wl e = absurd (omega arith)
  do_balance_right-Shrinks h l (node ql q left_two qr) v w g wl e = absurd (omega (arith, w.2))
  do_balance_right-Shrinks h l (node ql q right_two qr) v w g wl e = absurd (omega (arith, w.2))
  do_balance_right-Shrinks h l (node leaf q even qr) v w g wl e = absurd (omega (arith, w.2))
  do_balance_right-Shrinks h l (node (node rl m rb rr) q even qr) v w g wl e = record {
    balanced = ((wl, w.0, omega (arith, g, w.2)), w.1, omega (arith, g, w.2));
    lower = λ c. cc;
    same = λ c. omega (arith, g, w.2);
  }
  do_balance_right-Shrinks h l (node leaf q right_one qr) v w g wl e = record {
    balanced = ((wl, tt, omega (arith, g, w.2)), w.1, omega (arith, g, w.2));
    lower = λ c. omega (arith, g, w.2);
    same = λ c. cc;
  }
  do_balance_right-Shrinks h l (node (node rl m rb rr) q right_one qr) v w g wl e = record {
    balanced = ((wl, w.0, omega (arith, g, w.2)), w.1, omega (arith, g, w.2));
    lower = λ c. omega (arith, g, w.2);
    same = λ c. cc;
  }
  do_balance_right-Shrinks h l (node leaf q left_one qr) v w g wl e = absurd (omega (arith, w.2))
  do_balance_right-Shrinks h l (node (node rl m rb rr) q left_one qr) v w g wl e =
      let d = double-heights rb (height rl) (height rr) h w.0.2 (omega (arith, g, w.2)) in
      let right : height qr ≡ h = omega (arith, g, w.2) in
      record {
        balanced = rw (right, e) (((wl, w.0.0, d.0), (w.0.1, w.1, d.1), omega (arith, d)));
        lower = λ c. omega (arith, d, right, e);
        same = λ c. cc;
      }

  -- A frame around a subtree that was as high as `suc h` and is as high as `h` now.
  balance_left-Shrinks :
      (h : ℕ) (t r : AvlTree A) (v : A) (b : Balance)
      → IsBalanced t
      → height t ≡ h
      → IsBalanced r
      → Leans b (suc h) (height r)
      → Shrinks (suc (max (suc h) (height r))) (balance_frame false t (at_left v b r))
  unfolding IsBalanced height balance_frame rebalance
  balance_left-Shrinks h t r v left_two w g wr k = absurd (omega arith)
  balance_left-Shrinks h t r v right_two w g wr k = absurd (omega arith)
  balance_left-Shrinks h t r v left_one w g wr k = record {
    balanced = (w, wr, omega (arith, g, k));
    lower = λ c. omega (arith, g, k);
    same = λ c. cc;
  }
  balance_left-Shrinks h t r v even w g wr k = record {
    balanced = (w, wr, omega (arith, g, k));
    lower = λ c. cc;
    same = λ c. omega (arith, g, k);
  }
  balance_left-Shrinks h t r v right_one w g wr k =
      let high : suc (max (suc h) (height r)) ≡ suc (suc (suc h)) = omega (arith, k) in
      let turned = do_balance_right-Shrinks h t r v wr k w g in
      subst (λ n. Shrinks n (do_balance_right t v r)) (sym high) turned

  balance_right-Shrinks :
      (h : ℕ) (l t : AvlTree A) (v : A) (b : Balance)
      → IsBalanced t
      → height t ≡ h
      → IsBalanced l
      → Leans b (height l) (suc h)
      → Shrinks (suc (max (height l) (suc h))) (balance_frame false t (at_right l v b))
  unfolding IsBalanced height balance_frame rebalance
  balance_right-Shrinks h l t v left_two w g wl k = absurd (omega arith)
  balance_right-Shrinks h l t v right_two w g wl k = absurd (omega arith)
  balance_right-Shrinks h l t v right_one w g wl k = record {
    balanced = (wl, w, omega (arith, g, k));
    lower = λ c. omega (arith, g, k);
    same = λ c. cc;
  }
  balance_right-Shrinks h l t v even w g wl k = record {
    balanced = (wl, w, omega (arith, g, k));
    lower = λ c. cc;
    same = λ c. omega (arith, g, k);
  }
  balance_right-Shrinks h l t v left_one w g wl k =
      let high : suc (max (height l) (suc h)) ≡ suc (suc (suc h)) = omega (arith, k) in
      let turned = do_balance_left-Shrinks h l t v wl k w g in
      subst (λ n. Shrinks n (do_balance_left l v t)) (sym high) turned

  shrink_on :
      (h : ℕ) (down : Bool × AvlTree A) (fs : List (Frame A))
      → Shrinks h down
      → Fits h fs
      → ((t : AvlTree A)
          → IsBalanced t
          → suc (height t) ≡ h
          → IsBalanced (avl_tree_balance false t fs))
      → IsBalanced (if down.0 then avl_tree_balance false down.1 fs else plug down.1 fs)
  shrink_on h (true, t) fs round f go = go t round.balanced (round.lower refl)
  shrink_on h (false, t) fs round f go =
      plug-IsBalanced t fs round.balanced (subst (λ n. Fits n fs) (sym (round.same refl)) f)

  avl_tree_balance-Shrinks :
      (h : ℕ) (t : AvlTree A) (fs : List (Frame A))
      → IsBalanced t
      → height t ≡ h
      → Fits (suc h) fs
      → IsBalanced (avl_tree_balance false t fs)
  unfolding avl_tree_balance
  avl_tree_balance-Shrinks h t [] w g f = w
  avl_tree_balance-Shrinks h t (at_left v b r ∷ fs) w g f =
      shrink_on (suc (max (suc h) (height r))) (balance_frame false t (at_left v b r)) fs
        (balance_left-Shrinks h t r v b w g f.0 f.1) f.2
        (λ t1 w1 g1.
          avl_tree_balance-Shrinks (max (suc h) (height r)) t1 fs w1 (omega (arith, g1)) f.2)
  avl_tree_balance-Shrinks h t (at_right l v b ∷ fs) w g f =
      shrink_on (suc (max (height l) (suc h))) (balance_frame false t (at_right l v b)) fs
        (balance_right-Shrinks h l t v b w g f.0 f.1) f.2
        (λ t1 w1 g1.
          avl_tree_balance-Shrinks (max (height l) (suc h)) t1 fs w1 (omega (arith, g1)) f.2)

  unhook-Fits :
      (l r : AvlTree A) (v : A) (b : Balance) (fs : List (Frame A))
      → IsBalanced (node l v b r)
      → Fits (height (node l v b r)) fs
      → IsBalanced (unhook l v b r fs).0
        × Fits (suc (height (unhook l v b r fs).0)) (unhook l v b r fs).1
  unfolding IsBalanced height unhook
  unhook-Fits leaf r v b fs w f = (w.1, subst (λ n. Fits (suc n) fs) (omega arith) f)
  unhook-Fits (node ll lv lb lr) r v b fs w f =
      unhook-Fits ll lr lv lb (at_left v b r ∷ fs) w.0 (w.1, w.2, f)

  replacement-Fits :
      (l r : AvlTree A) (v : A) (b : Balance) (fs : List (Frame A))
      → IsBalanced (node l v b r)
      → Fits (height (node l v b r)) fs
      → IsBalanced (replacement l b r fs).0
        × Fits (suc (height (replacement l b r fs).0)) (replacement l b r fs).1
  unfolding IsBalanced height replacement
  replacement-Fits leaf r v b fs w f = (w.1, subst (λ n. Fits (suc n) fs) (omega arith) f)
  replacement-Fits (node ll lv lb lr) leaf v b fs w f =
      (w.0, subst (λ n. Fits (suc n) fs) (omega arith) f)
  replacement-Fits (node ll lv lb lr) (node rl rv rb rr) v b fs w f =
      unhook-Fits rl rr rv rb (at_right (node ll lv lb lr) (first_below rv rl) b ∷ fs) w.1
        (w.0, w.2, f)

  -- Deletion from a tree that passes the check gives a tree that passes it.
  pub debug_avl_tree_is_balanced-avl_tree_delete :
      (l r : AvlTree A) (v : A) (b : Balance) (fs : List (Frame A))
      → debug_avl_tree_is_balanced (plug (node l v b r) fs) ≡ true
      → debug_avl_tree_is_balanced (avl_tree_delete l b r fs) ≡ true
  unfolding debug_avl_tree_is_balanced avl_tree_delete
  debug_avl_tree_is_balanced-avl_tree_delete l r v b fs h =
      let parts = plug-parts (node l v b r) fs (size-IsBalanced (plug (node l v b r) fs) h) in
      let left = replacement-Fits l r v b fs parts.0 parts.1 in
      IsBalanced-size (avl_tree_delete l b r fs) (
        avl_tree_balance-Shrinks (height (replacement l b r fs).0) (replacement l b r fs).0
          (replacement l b r fs).1 left.0 refl left.1)
