-- ===== src/Heap/Wild.antt =====
-- `find_slot` where the address in front of the lowest area wraps around.
use mathlib.Core.Bool.{xor}
use graphene.Base.{
  ℕ, suc, ◌+◌, ◌-◌, ◌^◌, ◌≤◌, ◌<◌, ◌≡◌, refl, sym, ap, subst, Bool, true, false, ◌&&◌, ◌||◌, none,
  some, [], ◌∷◌, ltb, leb, ◌==◌, if◌then◌else◌, ◌∙◌, arith, if_then, if_else, lt→ltb,
}
use graphene.Heap.{
  HeapVma, Limits, Heap, Reply, pages, null, add_ptr, sub_ptr, alloc_vma, find_slot,
  create_vma_and_merge, check_above, check_below, create_merged, Merging, merge_above, merge_below,
  settle,
}

-- The areas after the merge of a request that ends where the lowest area begins, and begins behind it.
wild-merge :
    (a bottom top num : ℕ) (k : Bool)
    → bottom < a
    → bottom < top
    → merge_above
        (record { bottom = a; top = bottom; is_pal_internal = k })
        0
        num
        (record { bottom = bottom; top = top; is_pal_internal = k } ∷ [])
      ≡ record {
        vma = record { bottom = bottom; top = top; is_pal_internal = k };
        freed = top - bottom;
        num = num - 1;
        rest = [];
      }
unfolding merge_above xor
wild-merge a bottom top num true p q = ground arith
wild-merge a bottom top num false p q = ground arith

module _ (l : Limits) (bottom top n : ℕ) (k : Bool) (h : Heap) (room : h.vma_num < l.max_vmas)
    (pos : 0 < n) (lt : bottom < top) (top_le : top ≤ l.heap_top) (word : l.heap_top < 2 ^ 64)
    (low : l.heap_bottom ≤ bottom) (big : bottom < n)
    (wraps : n + l.heap_top ≤ 2 ^ 64 + bottom) where
  abbrev only : HeapVma
  only = record { bottom = bottom; top = top; is_pal_internal = k }

  -- The address in front of the area, modulo the size of a word.
  abbrev wild : ℕ
  wild = bottom + 2 ^ 64 - n

  abbrev Strays : Reply × Heap → Type 0
  Strays r = (r.0 ≡ pages wild) × (r.1.vmas ≡ only ∷ [])

  -- Nothing new has been allocated, so that the assertions hold.
  wild-settles :
      (leb top bottom
        || (ltb (top - bottom) (top - bottom)
            || (k && ltb (l.internal_size - h.internal_used) (top - bottom - (top - bottom)))))
      ≡ false
  wild-settles = ground arith

  pub wild-create_merged :
      Strays (create_merged l wild bottom k (only ∷ []) [] h (some (suc h.vma_num)))
  unfolding create_merged merge_below settle
  wild-create_merged =
      subst
        (λ (m : Merging). Strays (settle l wild k m.rest (merge_below m.vma m.freed m.num []) h))
        (sym (wild-merge wild bottom top (suc h.vma_num) k (omega arith) lt))
        (subst Strays (sym (if_else _ _ _ wild-settles)) (refl, refl))

  end_wraps : add_ptr wild n ≡ bottom
  end_wraps = omega arith

  start_wraps : sub_ptr bottom n ≡ wild
  start_wraps = omega arith

  pub wild-create :
      create_vma_and_merge l wild n k (only ∷ []) [] h
      ≡ create_merged l wild bottom k (only ∷ []) [] h (some (suc h.vma_num))
  unfolding create_vma_and_merge check_above check_below alloc_vma
  wild-create =
      if_else (wild == 0 || n == 0) _ _ (ground arith)
      ∙ if_else (ltb wild l.heap_bottom) _ _ (ground arith)
      ∙ ap
          (λ (end : ℕ).
            if check_above k end (only ∷ []) && check_below k wild []
            then create_merged l wild end k (only ∷ []) [] h (alloc_vma l h.vma_num)
            else (null, h))
          end_wraps
      ∙ if_then (check_above k bottom (only ∷ []) && check_below k wild []) _ (null, h)
          (ground arith)
      ∙ ap (create_merged l wild bottom k (only ∷ []) [] h)
          (if_then _ (some (suc h.vma_num)) none (lt→ltb h.vma_num l.max_vmas room))

  pub wild-find_slot :
      l.heap_top ≤ top
      → n ≤ l.heap_top
      → find_slot l n k l.heap_top [] (only ∷ []) h
        ≡ create_vma_and_merge l wild n k (only ∷ []) [] h
  unfolding find_slot
  wild-find_slot full le =
      if_else (ltb top (sub_ptr l.heap_top n)) _ _ (ground (arith, full, le))
      ∙ ap
          (λ p.
            if ltb l.heap_bottom p
            then create_vma_and_merge l p n k (only ∷ []) [] h
            else (null, h))
          start_wraps
      ∙ if_then (ltb l.heap_bottom wild) _ (null, h) (ground arith)
