-- ===== src/Avl/Rotate.antt =====
-- Heights and balances, and what the rotations do to them when a subtree has grown.
use graphene.Base.{
  ℕ, suc, ◌≤◌, max, ◌≡◌, Bool, true, false, List, [], ◌∷◌, inl, inr, ◌⊎◌, if_both, arith,
}
use graphene.Avl.{
  Balance, left_two, left_one, even, right_one, right_two, AvlTree, leaf, node, Frame, at_left,
  at_right, is_even, after_double, rot1_l, rot1_r, rot2_rl, rot2_lr, do_balance_left,
  do_balance_right, plug, descend,
}

-- What a balance says of the heights of the two children; a node at rest has no balance of 2.
abbrev pub Leans : Balance → ℕ → ℕ → Type 0
Leans left_two a b = suc a ≤ a
Leans left_one a b = a ≡ suc b
Leans even a b = a ≡ b
Leans right_one a b = b ≡ suc a
Leans right_two a b = suc a ≤ a

even-ne : {h : ℕ} → (true ≡ false) ⊎ (suc h ≡ 0) → ⊥
even-ne (inl e) = cc
even-ne (inr e) = omega arith

-- The heights below a double rotation: `a` and `b` are those of the children of the new root.
pub double-heights :
    (rb : Balance) (a b h : ℕ)
    → Leans rb a b
    → max a b ≡ h
    → Leans (after_double rb).0 h a × Leans (after_double rb).1 b h × (max h a ≡ h) × (max b h ≡ h)
double-heights left_two a b h l e = absurd (omega arith)
double-heights left_one a b h l e = omega arith
double-heights even a b h l e = omega arith
double-heights right_one a b h l e = omega arith
double-heights right_two a b h l e = absurd (omega arith)

module _ {ℓ} {A : Type ℓ} where
  unfoldable pub height : AvlTree A → ℕ
  height leaf = 0
  height (node l v b r) = suc (max (height l) (height r))

  unfoldable pub IsBalanced : AvlTree A → Type 0
  unfolding height
  IsBalanced leaf = Unit
  IsBalanced (node l v b r) = IsBalanced l × IsBalanced r × Leans b (height l) (height r)

  -- The frames are those of a balanced tree around a subtree of that height.
  abbrev pub Fits : ℕ → List (Frame A) → Type 0
  Fits h [] = Unit
  Fits h (at_left v b r ∷ fs) =
      IsBalanced r × Leans b h (height r) × Fits (suc (max h (height r))) fs
  Fits h (at_right l v b ∷ fs) =
      IsBalanced l × Leans b (height l) h × Fits (suc (max (height l) h)) fs

  pub descend-Fits :
      (cmp : A → A → Bool) (x : A) (t : AvlTree A) (fs : List (Frame A))
      → IsBalanced t
      → Fits (height t) fs
      → Fits 0 (descend cmp x t fs)
  unfolding IsBalanced height descend
  descend-Fits cmp x leaf fs w f = f
  descend-Fits cmp x (node l v b r) fs w f =
      if_both (Fits 0) (cmp x v) _ _ (descend-Fits cmp x l (at_left v b r ∷ fs) w.0 (w.1, w.2, f))
        (descend-Fits cmp x r (at_right l v b ∷ fs) w.1 (w.0, w.2, f))

  pub plug-IsBalanced :
      (t : AvlTree A) (fs : List (Frame A))
      → IsBalanced t
      → Fits (height t) fs
      → IsBalanced (plug t fs)
  unfolding IsBalanced height plug
  plug-IsBalanced t [] w f = w
  plug-IsBalanced t (at_left v b r ∷ fs) w f = plug-IsBalanced (node t v b r) fs (w, f.0, f.1) f.2
  plug-IsBalanced t (at_right l v b ∷ fs) w f = plug-IsBalanced (node l v b t) fs (f.0, w, f.1) f.2

  -- A subtree that has grown leans to a side, unless it is new.
  abbrev pub HasGrown : ℕ → AvlTree A → Type 0
  HasGrown h leaf = suc h ≤ h
  HasGrown h (node l v b r) =
      (suc (max (height l) (height r)) ≡ suc h) × ((is_even b ≡ false) ⊎ (h ≡ 0))

  pub do_balance_left-Round :
      (h : ℕ) (t r : AvlTree A) (v : A)
      → IsBalanced t
      → HasGrown (suc h) t
      → IsBalanced r
      → height r ≡ h
      → IsBalanced (do_balance_left t v r).1 × (height (do_balance_left t v r).1 ≡ suc (suc h))
  unfolding IsBalanced height do_balance_left rot1_r rot2_lr
  do_balance_left-Round h leaf r v w g wr e = absurd (omega arith)
  do_balance_left-Round h (node ql q left_two qr) r v w g wr e = absurd (omega (arith, w.2))
  do_balance_left-Round h (node ql q right_two qr) r v w g wr e = absurd (omega (arith, w.2))
  do_balance_left-Round h (node ql q even qr) r v w g wr e = absurd (even-ne g.1)
  do_balance_left-Round h (node ql q left_one leaf) r v w g wr e =
      ((w.0, (tt, wr, omega (arith, g.0, w.2)), omega (arith, g.0, w.2)), omega (arith, g.0, w.2))
  do_balance_left-Round h (node ql q left_one (node rl m rb rr)) r v w g wr e =
      ((w.0, (w.1, wr, omega (arith, g.0, w.2)), omega (arith, g.0, w.2)), omega (arith, g.0, w.2))
  do_balance_left-Round h (node ql q right_one leaf) r v w g wr e = absurd (omega (arith, w.2))
  do_balance_left-Round h (node ql q right_one (node rl m rb rr)) r v w g wr e =
      let d = double-heights rb (height rl) (height rr) h w.1.2 (omega (arith, g.0, w.2)) in
      let left : height ql ≡ h = omega (arith, g.0, w.2) in
      rw (left, e) (((w.0, w.1.0, d.0), (w.1.1, wr, d.1), omega (arith, d)), omega (arith, d))

  pub do_balance_right-Round :
      (h : ℕ) (l t : AvlTree A) (v : A)
      → IsBalanced t
      → HasGrown (suc h) t
      → IsBalanced l
      → height l ≡ h
      → IsBalanced (do_balance_right l v t).1 × (height (do_balance_right l v t).1 ≡ suc (suc h))
  unfolding IsBalanced height do_balance_right rot1_l rot2_rl
  do_balance_right-Round h l leaf v w g wl e = absurd (omega arith)
  do_balance_right-Round h l (node ql q left_two qr) v w g wl e = absurd (omega (arith, w.2))
  do_balance_right-Round h l (node ql q right_two qr) v w g wl e = absurd (omega (arith, w.2))
  do_balance_right-Round h l (node ql q even qr) v w g wl e = absurd (even-ne g.1)
  do_balance_right-Round h l (node leaf q right_one qr) v w g wl e =
      (((wl, tt, omega (arith, g.0, w.2)), w.1, omega (arith, g.0, w.2)), omega (arith, g.0, w.2))
  do_balance_right-Round h l (node (node rl m rb rr) q right_one qr) v w g wl e =
      (((wl, w.0, omega (arith, g.0, w.2)), w.1, omega (arith, g.0, w.2)), omega (arith, g.0, w.2))
  do_balance_right-Round h l (node leaf q left_one qr) v w g wl e = absurd (omega (arith, w.2))
  do_balance_right-Round h l (node (node rl m rb rr) q left_one qr) v w g wl e =
      let d = double-heights rb (height rl) (height rr) h w.0.2 (omega (arith, g.0, w.2)) in
      let right : height qr ≡ h = omega (arith, g.0, w.2) in
      rw (right, e) (((wl, w.0.0, d.0), (w.0.1, w.1, d.1), omega (arith, d)), omega (arith, d))

  pub height-HasGrown : (h : ℕ) (t : AvlTree A) → HasGrown h t → height t ≡ suc h
  unfolding height
  height-HasGrown h leaf g = absurd (omega arith)
  height-HasGrown h (node l v b r) g = g.0
