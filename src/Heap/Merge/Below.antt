-- ===== src/Heap/Merge/Below.antt =====
-- The second merging loop of `__create_vma_and_merge`, over the areas below the new one.
use mathlib.Core.Bool.{xor}
use graphene.Base.{
  ℕ, ◌+◌, ◌-◌, ◌≤◌, ◌<◌, ◌≡◌, refl, Bool, true, false, not, ◌&&◌, ◌⊎◌, inl, inr, List, [], ◌∷◌, ltb,
  leb, if◌then◌else◌, length, max, ◌∙◌, arith, Bool-cases, if_else, ltb-false,
}
use graphene.Heap.{HeapVma, Merging, absorb, check_below, merge_below}
use graphene.Heap.View.{owner_at, IsDescending, internal_size, total_size, IsDescending-le}
use graphene.Heap.Merge.{same_kind, joins, owner_at-absorb, size_if-absorb}

-- The areas below do not begin behind an address.
abbrev pub Starts : ℕ → List HeapVma → Type 0
Starts p [] = 0 ≤ p
Starts p (w ∷ below) = w.bottom ≤ p

-- A merge downwards: what the new area has absorbed, and what is left below it.
pub record MergesBelow (lo at : ℕ) (v : HeapVma) (freed num : ℕ) (below : List HeapVma)
    (m : Merging) : Type 0 where
  pub bottom : m.vma.bottom ≤ v.bottom
  pub top : v.top ≤ m.vma.top
  pub top_le : m.vma.top ≤ max v.top at
  pub kind : m.vma.is_pal_internal ≡ v.is_pal_internal
  pub rest : IsDescending lo m.vma.bottom m.rest
  pub owner : (a : ℕ) → owner_at (m.vma ∷ m.rest) a ≡ owner_at (v ∷ below) a
  pub count : m.num + length below ≡ num + length m.rest
  pub space :
      internal_size below + (if v.is_pal_internal then freed else 0)
      ≡ internal_size m.rest + (if v.is_pal_internal then m.freed else 0)
  pub total : total_size below + freed ≡ total_size m.rest + m.freed
  pub width : (m.vma.top - m.vma.bottom) + freed ≤ (v.top - v.bottom) + m.freed
  pub fits : m.freed + m.vma.bottom ≤ m.vma.top

pub check_below-above :
    (internal : Bool) (lo at p : ℕ) (below : List HeapVma)
    → IsDescending lo at below
    → at ≤ p
    → check_below internal p below ≡ true
unfolding check_below
check_below-above internal lo at p [] d h = refl
check_below-above internal lo at p (w ∷ below) d h =
    if_else _ _ true (ltb-false {a = p} {b = w.top} (omega arith))

Starts-below :
    (lo at p : ℕ) (below : List HeapVma) → IsDescending lo at below → at ≤ p → Starts p below
Starts-below lo at p [] d h = omega arith
Starts-below lo at p (w ∷ below) d h = omega arith

freed-fits :
    (freed at : ℕ) (v w : HeapVma)
    → (freed ≡ 0) ⊎ (freed + at ≤ v.top)
    → w.top ≤ at
    → w.bottom < w.top
    → freed + (w.top - w.bottom) + w.bottom ≤ max w.top v.top
freed-fits freed at v w (inl e) h k = omega (arith, e)
freed-fits freed at v w (inr e) h k = omega (arith, e)

-- Where the loop stops, the next area ends in front of the new one, by the check before.
apart-le :
    (p q : ℕ) (x y rest : Bool)
    → (leb p q && not (xor x y)) ≡ false
    → (if ltb p q then not (xor x y) && rest else true) ≡ true
    → q ≤ p
apart-le p q x y rest e c = elim (Bool-cases (not (xor x y))) [
  | inl same ↦ ground (arith, same)
  | inr other ↦ ground (arith, other)
]

absorb-MergesBelow :
    (lo at : ℕ) (v w : HeapVma) (freed num : ℕ) (below : List HeapVma)
    → IsDescending lo at (w ∷ below)
    → w.bottom ≤ v.bottom
    → v.bottom < v.top
    → length (w ∷ below) ≤ num
    → v.bottom ≤ w.top
    → w.is_pal_internal ≡ v.is_pal_internal
    → (m : Merging)
    → MergesBelow lo w.bottom (absorb w v) (freed + (w.top - w.bottom)) (num - 1) below m
    → MergesBelow lo at v freed num (w ∷ below) m
unfolding internal_size total_size
absorb-MergesBelow lo at v w freed num below d s lt n near same m ih = record {
  bottom = omega (arith, ih.bottom);
  top = omega (arith, ih.top);
  top_le = omega (arith, ih.top_le);
  kind = ih.kind;
  rest = ih.rest;
  owner = λ a. ih.owner a ∙ owner_at-absorb v w below a (omega arith) near lt d.1 same;
  count = omega (arith, ih.count);
  space = size_if-absorb v.is_pal_internal (internal_size below) freed w same ∙ ih.space;
  total = omega (arith, ih.total);
  width = omega (arith, ih.width);
  fits = ih.fits;
}

pub merge_below-MergesBelow :
    (lo at : ℕ) (v : HeapVma) (freed num : ℕ) (below : List HeapVma)
    → IsDescending lo at below
    → Starts v.bottom below
    → v.bottom ≤ at
    → v.bottom < v.top
    → (freed ≡ 0) ⊎ (freed + at ≤ v.top)
    → lo ≤ v.bottom
    → length below ≤ num
    → check_below v.is_pal_internal v.bottom below ≡ true
    → MergesBelow lo at v freed num below (merge_below v freed num below)
unfolding merge_below check_below
merge_below-MergesBelow lo at v freed num [] d s b lt f l n c = record {
  bottom = omega arith;
  top = omega arith;
  top_le = omega arith;
  kind = refl;
  rest = l;
  owner = λ a. refl;
  count = refl;
  space = refl;
  total = refl;
  width = omega arith;
  fits = elim f [ inl e ↦ omega (arith, e) | inr e ↦ omega (arith, e) ];
}
merge_below-MergesBelow lo at v freed num (w ∷ below) d s b lt f l n c =
    elim (Bool-cases (leb v.bottom w.top && same_kind w v)) [
      | inl joined ↦
          let (near, same) = joins v.bottom w.top w.is_pal_internal v.is_pal_internal joined in
          rw joined (
            absorb-MergesBelow lo at v w freed num below d s lt n near same _ (
              merge_below-MergesBelow lo w.bottom (absorb w v) (freed + (w.top - w.bottom))
                (num - 1) below d.2 (Starts-below lo w.bottom _ below d.2 (omega arith))
                (omega arith) (omega arith) (inr (freed-fits freed at v w f d.0 d.1))
                (omega (arith, IsDescending-le lo w.bottom below d.2)) (omega arith)
                (check_below-above _ lo w.bottom _ below d.2 (omega arith))))
      | inr apart ↦ rw apart (record {
        bottom = omega arith;
        top = omega arith;
        top_le = omega arith;
        kind = refl;
        rest = (apart-le v.bottom w.top w.is_pal_internal v.is_pal_internal _ apart c, d.1, d.2);
        owner = λ a. refl;
        count = refl;
        space = refl;
        total = refl;
        width = omega arith;
        fits = elim f [ inl e ↦ omega (arith, e) | inr e ↦ omega (arith, e) ];
      })
    ]
