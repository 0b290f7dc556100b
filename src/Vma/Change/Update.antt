-- ===== src/Vma/Change/Update.antt =====
-- The second loop of `_vma_bkeep_change` on the sequence of areas.
use graphene.Base.{
  ℕ, ◌<◌, ◌≡◌, refl, ap, ◌∙◌, Option, none, some, List, [], ◌∷◌, ◌++◌, ltb, leb, if◌then◌else◌,
  arith, Bool-cases, inl, inr,
}
use graphene.Vma.Types.{Vma, split_vma, vma_update_prot}
use graphene.Vma.View.{
  view, IsOrdered, last_end, view-below, insert_front, insert-append, mapping_at-split_right,
  mapping_at-split_left,
}
use graphene.Vma.Change.{update_range, insert?}
use graphene.Vma.Change.Rights.{rights_at, reprotect?, rights-vma_update_prot}

-- The loop with the new area in its place.
pub updated : ℕ → ℕ → List Vma → List Vma
updated end prot [] = []
updated end prot (v ∷ vs) =
    let rest = updated end prot vs in
    if leb v.end end
    then vma_update_prot v prot ∷ rest
    else if leb end v.begin
    then v ∷ vs
    else vma_update_prot (split_vma v end).0 prot ∷ (split_vma v end).1 ∷ vs

abbrev EndsBehind : ℕ → Option Vma → Type 0
EndsBehind lo none = Unit
EndsBehind lo (some v) = lo < v.end

update_range-EndsBehind :
    (lo end prot : ℕ) (vs : List Vma) → IsOrdered lo vs → EndsBehind lo (update_range end prot vs).1
unfolding update_range split_vma
update_range-EndsBehind lo end prot [] o = tt
update_range-EndsBehind lo end prot (v ∷ vs) o = elim (Bool-cases (leb v.end end)) [
  | inl h ↦
      rw h (raise (update_range end prot vs).1 (update_range-EndsBehind v.end end prot vs o.2))
  | inr h ↦ elim (Bool-cases (leb end v.begin)) [
    | inl k ↦ rw (h, k) tt
    | inr k ↦ rw (h, k) (omega arith)
  ]
]
  where
    raise : (new : Option Vma) → EndsBehind v.end new → EndsBehind lo new
    raise none b = tt
    raise (some w) b = omega arith

insert?-append :
    (lo : ℕ) (new : Option Vma) (xs ys : List Vma)
    → IsOrdered lo xs
    → EndsBehind (last_end lo xs) new
    → insert? new (xs ++ ys) ≡ xs ++ insert? new ys
insert?-append lo none xs ys o b = refl
insert?-append lo (some w) xs ys o b = insert-append lo w xs ys o b

insert?-update_range :
    (lo end prot : ℕ) (vs : List Vma)
    → IsOrdered lo vs
    → insert? (update_range end prot vs).1 (update_range end prot vs).0 ≡ updated end prot vs
unfolding update_range updated split_vma vma_update_prot
insert?-update_range lo end prot [] o = refl
insert?-update_range lo end prot (v ∷ vs) o = elim (Bool-cases (leb v.end end)) [
  | inl h ↦ rw h (
      insert?-append lo (update_range end prot vs).1 (vma_update_prot v prot ∷ [])
        (update_range end prot vs).0 (o.0, o.1, tt) (update_range-EndsBehind v.end end prot vs o.2)
      ∙ ap (λ ws. vma_update_prot v prot ∷ ws) (insert?-update_range v.end end prot vs o.2))
  | inr h ↦ elim (Bool-cases (leb end v.begin)) [
    | inl k ↦ rw (h, k) refl
    | inr k ↦
        rw (h, k)
          (insert-append lo (split_vma v end).1 (vma_update_prot (split_vma v end).0 prot ∷ []) vs
              (o.0, ground arith, tt) (ground arith)
            ∙ ap (λ ws. vma_update_prot (split_vma v end).0 prot ∷ ws)
                (insert_front (split_vma v end).1 vs o.2))
  ]
]

-- The tree after the loop: what stands in front is not touched.
pub insert?-updated :
    (lo end prot : ℕ) (front vs : List Vma)
    → IsOrdered lo front
    → IsOrdered (last_end lo front) vs
    → insert? (update_range end prot vs).1 (front ++ (update_range end prot vs).0)
      ≡ front ++ updated end prot vs
insert?-updated lo end prot front vs of ov =
    insert?-append lo _ front _ of (update_range-EndsBehind (last_end lo front) end prot vs ov)
    ∙ ap (λ ws. front ++ ws) (insert?-update_range (last_end lo front) end prot vs ov)

pub updated-IsOrdered :
    (lo end prot : ℕ) (vs : List Vma) → IsOrdered lo vs → IsOrdered lo (updated end prot vs)
unfolding updated vma_update_prot split_vma
updated-IsOrdered lo end prot [] o = tt
updated-IsOrdered lo end prot (v ∷ vs) o = ground (arith, updated-IsOrdered v.end end prot vs o.2)

-- Below `end` the rights change as asked, from there on nothing does.
pub rights_at-updated :
    (lo end prot a : ℕ) (vs : List Vma)
    → IsOrdered lo vs
    → rights_at (updated end prot vs) a
      ≡ (if ltb a end then reprotect? prot (rights_at vs a) else rights_at vs a)
unfolding updated view split_vma vma_update_prot
rights_at-updated lo end prot a [] o = ground arith
rights_at-updated lo end prot a (v ∷ vs) o = elim (Bool-cases (leb v.end end)) [
  | inl h ↦ rw h (
      ground (
        arith,
        rights-vma_update_prot v prot a,
        rights_at-updated v.end end prot a vs o.2,
        view-below v.end vs a o.2,
      ))
  | inr h ↦ elim (Bool-cases (leb end v.begin)) [
    | inl k ↦ rw (h, k) (ground (arith, view-below v.end vs a o.2))
    | inr k ↦
        rw (h, k)
          (ground (
            arith,
            rights-vma_update_prot (split_vma v end).0 prot a,
            mapping_at-split_left v end a,
            mapping_at-split_right v end a,
            view-below v.end vs a o.2,
          ))
  ]
]
