-- ===== src/Avl.antt =====
-- Pal/lib/avl_tree.c: insertion into an AVL tree and the searches. A tree is a value; the links to
-- the parents are the frames between a subtree and the root, the innermost first.
pub mod Order
pub mod Insert
pub mod Search
pub mod Rotate
pub mod Balanced
pub mod Debug
pub mod Walk
pub mod Delete
pub mod Shrink
pub mod Areas
mod Tests
use graphene.Base.{
  ℕ, zero, suc, ◌+◌, ◌-◌, Bool, true, false, not, ◌&&◌, Option, none, some, List, [], ◌∷◌, ltb,
  ◌==◌, if◌then◌else◌,
}

-- `node->balance`, from -2 to 2.
pub data Balance : Type 0 where
  left_two left_one even right_one right_two : Balance

-- `struct avl_tree_node` with all below it.
pub data AvlTree {ℓ} (A : Type ℓ) : Type ℓ where
  leaf : AvlTree A
  node : AvlTree A → A → Balance → AvlTree A → AvlTree A

-- A node as seen from the child that is left out.
pub data Frame {ℓ} (A : Type ℓ) : Type ℓ where
  at_left : A → Balance → AvlTree A → Frame A
  at_right : AvlTree A → A → Balance → Frame A

abbrev pub is_even : Balance → Bool
is_even even = true
is_even _ = false

abbrev pub is_right_one : Balance → Bool
is_right_one right_one = true
is_right_one _ = false

abbrev pub is_left_one : Balance → Bool
is_left_one left_one = true
is_left_one _ = false

-- `balance -= 1` and `balance += 1`; the assertion of the caller excludes what lies beyond.
abbrev pub decrement : Balance → Balance
decrement left_two = left_two
decrement left_one = left_two
decrement even = left_one
decrement right_one = even
decrement right_two = right_one

abbrev pub increment : Balance → Balance
increment left_two = left_one
increment left_one = even
increment even = right_one
increment right_one = right_two
increment right_two = right_two

-- `height_changed` of `avl_tree_balance`, by the sign of the old balance: below or above 0.
abbrev pub is_negative : Balance → Bool
is_negative left_two = true
is_negative left_one = true
is_negative _ = false

abbrev pub is_positive : Balance → Bool
is_positive right_two = true
is_positive right_one = true
is_positive _ = false

-- The balances of the left and the right node after a double rotation, by that of `r`.
abbrev pub after_double : Balance → Balance × Balance
after_double left_one = (even, right_one)
after_double even = (even, even)
after_double _ = (left_one, even)

module _ {ℓ} {A : Type ℓ} where
  -- `rot1L`: `pl` is what stays left of `p`, and `ql` and `qr` are the children of `q`.
  unfoldable pub rot1_l :
      (pl : AvlTree A) (p : A) (ql : AvlTree A) (q : A) → Balance → AvlTree A → AvlTree A
  rot1_l pl p ql q balance qr =
      if is_right_one balance
      then node (node pl p even ql) q even qr
      else node (node pl p right_one ql) q left_one qr

  -- `rot1R`
  unfoldable pub rot1_r :
      (ql : AvlTree A) (q : A) → Balance → (qr : AvlTree A) (p : A) → AvlTree A → AvlTree A
  rot1_r ql q balance qr p pr =
      if is_left_one balance
      then node ql q even (node qr p even pr)
      else node ql q right_one (node qr p left_one pr)

  -- `rot2RL`
  unfoldable pub rot2_rl :
      (pl : AvlTree A) (p : A) (rl : AvlTree A) (r : A)
      → Balance
      → (rr : AvlTree A) (q : A) → AvlTree A
      → AvlTree A
  rot2_rl pl p rl r balance rr q qr =
      node (node pl p (after_double balance).0 rl) r even (node rr q (after_double balance).1 qr)

  -- `rot2LR`
  unfoldable pub rot2_lr :
      (ql : AvlTree A) (q : A) (rl : AvlTree A) (r : A)
      → Balance
      → (rr : AvlTree A) (p : A) → AvlTree A
      → AvlTree A
  rot2_lr ql q rl r balance rr p pr =
      node (node ql q (after_double balance).0 rl) r even (node rr p (after_double balance).1 pr)

  -- `avl_tree_do_balance` where the balance is -2; the children that it asserts exist.
  unfoldable pub do_balance_left : AvlTree A → A → AvlTree A → Bool × AvlTree A
  unfolding rot1_r rot2_lr
  do_balance_left leaf p pr = (false, node leaf p left_two pr)
  do_balance_left (node ql q b leaf) p pr = (not (is_even b), rot1_r ql q b leaf p pr)
  do_balance_left (node ql q b (node rl r rb rr)) p pr =
      if is_right_one b
      then (true, rot2_lr ql q rl r rb rr p pr)
      else (not (is_even b), rot1_r ql q b (node rl r rb rr) p pr)

  -- `avl_tree_do_balance` where the balance is 2.
  unfoldable pub do_balance_right : AvlTree A → A → AvlTree A → Bool × AvlTree A
  unfolding rot1_l rot2_rl
  do_balance_right pl p leaf = (false, node pl p right_two leaf)
  do_balance_right pl p (node leaf q b qr) = (not (is_even b), rot1_l pl p leaf q b qr)
  do_balance_right pl p (node (node rl r rb rr) q b qr) =
      if is_left_one b
      then (true, rot2_rl pl p rl r rb rr q qr)
      else (not (is_even b), rot1_l pl p (node rl r rb rr) q b qr)

  -- The rebalancing of one node in `avl_tree_balance`: whether its height changed, and its subtree.
  unfoldable pub rebalance : Bool → Bool → AvlTree A → A → Balance → AvlTree A → Bool × AvlTree A
  unfolding do_balance_left do_balance_right
  rebalance height_increased changed l v left_two r =
      let (c, t) = do_balance_left l v r in (if height_increased then false else c, t)
  rebalance height_increased changed l v right_two r =
      let (c, t) = do_balance_right l v r in (if height_increased then false else c, t)
  rebalance height_increased changed l v left_one r = (changed, node l v left_one r)
  rebalance height_increased changed l v even r = (changed, node l v even r)
  rebalance height_increased changed l v right_one r = (changed, node l v right_one r)

  -- One round of `avl_tree_balance`: the subtree in the frame has changed its height.
  unfoldable pub balance_frame : Bool → AvlTree A → Frame A → Bool × AvlTree A
  unfolding rebalance
  balance_frame height_increased t (at_left v b r) =
      if height_increased
      then rebalance true (not (is_positive b)) t v (decrement b) r
      else rebalance false (is_negative b) t v (increment b) r
  balance_frame height_increased t (at_right l v b) =
      if height_increased
      then rebalance true (not (is_negative b)) l v (increment b) t
      else rebalance false (is_positive b) l v (decrement b) t

  -- The subtree back in its place.
  unfoldable pub plug : AvlTree A → List (Frame A) → AvlTree A
  plug t [] = t
  plug t (at_left v b r ∷ fs) = plug (node t v b r) fs
  plug t (at_right l v b ∷ fs) = plug (node l v b t) fs

  -- `avl_tree_balance` up to the root, from the parent of the subtree that changed its height.
  unfoldable pub avl_tree_balance : Bool → AvlTree A → List (Frame A) → AvlTree A
  unfolding balance_frame plug
  avl_tree_balance height_increased t [] = t
  avl_tree_balance height_increased t (f ∷ fs) =
      let (changed, t') = balance_frame height_increased t f in
      let further = avl_tree_balance height_increased t' fs in
      if changed then further else plug t' fs

  -- The walk of `avl_tree_insert_unbalanced`: the frames around the place of the new node.
  unfoldable pub descend : (A → A → Bool) → A → AvlTree A → List (Frame A) → List (Frame A)
  descend cmp x leaf fs = fs
  descend cmp x (node l v b r) fs =
      let left = descend cmp x l (at_left v b r ∷ fs) in
      let right = descend cmp x r (at_right l v b ∷ fs) in if cmp x v then left else right

  -- `avl_tree_insert`
  unfoldable pub avl_tree_insert : (A → A → Bool) → A → AvlTree A → AvlTree A
  unfolding avl_tree_balance descend
  avl_tree_insert cmp x t = avl_tree_balance true (node leaf x even leaf) (descend cmp x t [])

  -- `avl_tree_lower_bound_fn`
  unfoldable pub avl_tree_lower_bound_fn : (A → Bool) → AvlTree A → Option A → Option A
  avl_tree_lower_bound_fn cmp leaf ret = ret
  avl_tree_lower_bound_fn cmp (node l v b r) ret =
      let left = avl_tree_lower_bound_fn cmp l (some v) in
      let right = avl_tree_lower_bound_fn cmp r ret in if cmp v then left else right

  -- `avl_tree_first`
  unfoldable pub first_below : A → AvlTree A → A
  first_below v leaf = v
  first_below v (node l w b r) = first_below w l

  unfoldable pub avl_tree_first : AvlTree A → Option A
  unfolding first_below
  avl_tree_first leaf = none
  avl_tree_first (node l v b r) = some (first_below v l)

  -- `avl_tree_is_balanced_size`: whether the subtree is balanced, and its height.
  unfoldable pub avl_tree_is_balanced_size : AvlTree A → Bool × ℕ
  avl_tree_is_balanced_size leaf = (true, 0)
  avl_tree_is_balanced_size (node l v balance r) =
      let (ret1, a) = avl_tree_is_balanced_size l in
      let (ret2, b) = avl_tree_is_balanced_size r in
      if ltb a b
      then ((ret1 && ret2) && (b - a == 1 && is_right_one balance), suc b)
      else if a == b
      then ((ret1 && ret2) && is_even balance, suc a)
      else ((ret1 && ret2) && (a - b == 1 && is_left_one balance), suc a)

  -- `debug_avl_tree_is_balanced`
  unfoldable pub debug_avl_tree_is_balanced : AvlTree A → Bool
  unfolding avl_tree_is_balanced_size
  debug_avl_tree_is_balanced t = (avl_tree_is_balanced_size t).0
