-- ===== src/Heap/Merge/Above.antt =====
-- The first merging loop of `__create_vma_and_merge`, over the areas above the new one.
use mathlib.Core.Bool.{xor}
use graphene.Base.{
  ℕ, ◌+◌, ◌-◌, ◌≤◌, ◌<◌, ◌≡◌, refl, Bool, true, false, not, ◌&&◌, ◌⊎◌, inl, inr, List, [], ◌∷◌, ltb,
  leb, if◌then◌else◌, length, max, ◌∙◌, arith, Bool-cases, if_else, ltb-false,
}
use graphene.Heap.{HeapVma, Merging, absorb, check_above, merge_above}
use graphene.Heap.View.{owner_at, IsAscending, internal_size, total_size, IsAscending-le}
use graphene.Heap.Merge.{same_kind, joins, owner_at-absorb, size_if-absorb}

-- A merge upwards: what the new area has absorbed, and what is left above it.
pub record MergesAbove (lo hi : ℕ) (v : HeapVma) (freed num : ℕ) (above : List HeapVma)
    (m : Merging) : Type 0 where
  pub bottom : m.vma.bottom ≡ v.bottom
  pub top : v.top ≤ m.vma.top
  pub kind : m.vma.is_pal_internal ≡ v.is_pal_internal
  pub rest : IsAscending m.vma.top hi m.rest
  pub rest_lo : IsAscending lo hi m.rest
  pub owner : (a : ℕ) → owner_at (m.vma ∷ m.rest) a ≡ owner_at (v ∷ above) a
  pub count : m.num + length above ≡ num + length m.rest
  pub space :
      internal_size above + (if v.is_pal_internal then freed else 0)
      ≡ internal_size m.rest + (if v.is_pal_internal then m.freed else 0)
  pub total : total_size above + freed ≡ total_size m.rest + m.freed
  pub width : (m.vma.top - m.vma.bottom) + freed ≤ (v.top - v.bottom) + m.freed
  pub tight : (m.freed ≡ freed) ⊎ (m.freed + lo ≤ m.vma.top)

check_above-raise :
    (internal : Bool) (end end' hi : ℕ) (above : List HeapVma)
    → check_above internal end above ≡ true
    → IsAscending end' hi above
    → check_above internal (max end' end) above ≡ true
unfolding check_above
check_above-raise internal end end' hi [] h o = refl
check_above-raise internal end end' hi (v ∷ above) h o =
    ground (arith, check_above-raise internal end end' hi above)

-- The check of the tail, where the check of the first area goes on.
tail_check :
    (near good rest : Bool)
    → (if near then good && rest else true) ≡ true
    → near ≡ true
    → rest ≡ true
tail_check true true rest h e = h
tail_check true false rest h e = ground (arith, h)
tail_check false good rest h e = ground (arith, e)

check_above-next :
    (internal : Bool) (end hi : ℕ) (w : HeapVma) (above : List HeapVma)
    → w.bottom < w.top
    → check_above internal end (w ∷ above) ≡ true
    → IsAscending w.top hi above
    → check_above internal (max w.top end) above ≡ true
unfolding check_above
check_above-next internal end hi w [] lt h o = refl
check_above-next internal end hi w (x ∷ above) lt h o = elim (Bool-cases (ltb w.bottom end)) [
  | inl near ↦ check_above-raise internal end w.top hi (x ∷ above) (tail_check _ _ _ h near) o
  | inr far ↦ if_else _ _ true (ltb-false {a = x.bottom} {b = max w.top end} (ground (arith, far)))
]

-- Where the loop stops, the next area begins behind the new one, by the check before.
apart-le :
    (p q : ℕ) (x y rest : Bool)
    → (leb p q && not (xor x y)) ≡ false
    → (if ltb p q then not (xor x y) && rest else true) ≡ true
    → q ≤ p
apart-le p q x y rest e c = elim (Bool-cases (not (xor x y))) [
  | inl same ↦ ground (arith, same)
  | inr other ↦ ground (arith, other)
]

absorb-MergesAbove :
    (lo at hi : ℕ) (v w : HeapVma) (freed num : ℕ) (above : List HeapVma)
    → IsAscending at hi (w ∷ above)
    → v.bottom ≤ at
    → v.bottom < v.top
    → freed + lo ≤ at
    → length (w ∷ above) ≤ num
    → w.bottom ≤ v.top
    → w.is_pal_internal ≡ v.is_pal_internal
    → (m : Merging) → MergesAbove lo hi (absorb w v) (freed + (w.top - w.bottom)) (num - 1) above m
    → MergesAbove lo hi v freed num (w ∷ above) m
unfolding internal_size total_size
absorb-MergesAbove lo at hi v w freed num above o b lt f n near same m ih = record {
  bottom = omega (arith, ih.bottom);
  top = omega (arith, ih.top);
  kind = ih.kind;
  rest = ih.rest;
  rest_lo = ih.rest_lo;
  owner = λ a. ih.owner a ∙ owner_at-absorb v w above a near (omega arith) lt o.1 same;
  count = omega (arith, ih.count);
  space = size_if-absorb v.is_pal_internal (internal_size above) freed w same ∙ ih.space;
  total = omega (arith, ih.total);
  width = omega (arith, ih.width);
  tight = elim ih.tight [ inl e ↦ inr (omega (arith, e, ih.top)) | inr e ↦ inr e ];
}

pub merge_above-MergesAbove :
    (lo at hi : ℕ) (v : HeapVma) (freed num : ℕ) (above : List HeapVma)
    → IsAscending at hi above
    → lo ≤ at
    → v.bottom ≤ at
    → v.bottom < v.top
    → v.top ≤ hi
    → freed + lo ≤ at
    → length above ≤ num
    → check_above v.is_pal_internal v.top above ≡ true
    → MergesAbove lo hi v freed num above (merge_above v freed num above)
unfolding merge_above owner_at internal_size total_size check_above
merge_above-MergesAbove lo at hi v freed num [] o le b lt t f n c = record {
  bottom = refl;
  top = omega arith;
  kind = refl;
  rest = omega arith;
  rest_lo = omega arith;
  owner = λ a. refl;
  count = omega arith;
  space = omega arith;
  total = omega arith;
  width = omega arith;
  tight = inl refl;
}
merge_above-MergesAbove lo at hi v freed num (w ∷ above) o le b lt t f n c =
    elim (Bool-cases (leb w.bottom v.top && same_kind w v)) [
      | inl joined ↦
          let (near, same) = joins w.bottom v.top w.is_pal_internal v.is_pal_internal joined in
          rw joined (
            absorb-MergesAbove lo at hi v w freed num above o b lt f n near same _ (
              merge_above-MergesAbove lo w.top hi (absorb w v) (freed + (w.top - w.bottom))
                (num - 1) above o.2 (omega arith) (omega arith) (omega arith)
                (omega (arith, IsAscending-le w.top hi above o.2)) (omega arith) (omega arith)
                (check_above-next v.is_pal_internal v.top hi w above o.1 c o.2)))
      | inr apart ↦ rw apart (record {
        bottom = refl;
        top = omega arith;
        kind = refl;
        rest = (apart-le w.bottom v.top w.is_pal_internal v.is_pal_internal _ apart c, o.1, o.2);
        rest_lo = (omega arith, o.1, o.2);
        owner = λ a. refl;
        count = omega arith;
        space = omega arith;
        total = omega arith;
        width = omega arith;
        tight = inl refl;
      })
    ]
