-- ===== src/Vma/Change/Cut.antt =====
-- The cut areas of `_vma_bkeep_change`: their bounds, their rights and their place in the tree.
use graphene.Base.{
  ℕ, ◌≤◌, ◌<◌, ◌≡◌, refl, ap, ◌∙◌, Option, List, [], ◌∷◌, ◌++◌, if◌then◌else◌, arith,
}
use graphene.Vma.Types.{Vma, split_vma, vma_update_prot}
use graphene.Vma.Tree.{insert}
use graphene.Vma.View.{
  view, mapping_at, IsOrdered, last_end, view-append, view-above, view-below, insert_front,
  insert-append, mapping_at-split_right, mapping_at-split_left, IsOrdered-append, IsOrdered-lower,
}
use graphene.Vma.Remove.Effect.{within}
use graphene.Vma.Change.{Changed, changed}
use graphene.Vma.Change.Rights.{
  Rights, rights, rights_at, reprotect, reprotect?, rights-vma_update_prot,
}
use graphene.Vma.Change.Update.{updated, updated-IsOrdered, rights_at-updated}

pub changed-injective : {a b : Changed} → changed a ≡ changed b → a ≡ b
changed-injective h = cc

-- The rights after a change of `[begin, end)`, where `old` are those before.
abbrev pub changed_rights : ℕ → ℕ → ℕ → ℕ → Option Rights → Option Rights
changed_rights begin end prot a old = if within begin end a then reprotect? prot old else old

rights_at-append_change :
    (lo begin end prot a : ℕ) (before xs ys : List Vma)
    → IsOrdered lo before
    → last_end lo before ≤ begin
    → rights_at ys a ≡ changed_rights begin end prot a (rights_at xs a)
    → rights_at (before ++ ys) a ≡ changed_rights begin end prot a (rights_at (before ++ xs) a)
rights_at-append_change lo begin end prot a before xs ys o h e =
    ground (arith, view-append before xs a, view-append before ys a, view-above lo before a o)

module _ (lo begin end prot : ℕ) (before : List Vma) (v : Vma) (rest : List Vma)
    (ob : IsOrdered lo before) (lb : last_end lo before ≤ begin)
    (ov : IsOrdered (last_end lo before) (v ∷ rest)) (hv : begin < v.end) (he : begin < end) where
  abbrev pub first : Vma
  first = (split_vma v begin).0

  abbrev pub new1 : Vma
  new1 = vma_update_prot (split_vma v begin).1 prot

  abbrev pub middle : Vma
  middle = (split_vma new1 end).0

  abbrev pub tail : Vma
  tail = vma_update_prot (split_vma new1 end).1 first.prot

  -- The tree that a change leaves.
  pub record IsChanged (vmas : List Vma) : Type 0 where
    pub ordered : IsOrdered lo vmas
    pub rights :
        (a : ℕ)
        → rights_at vmas a ≡ changed_rights begin end prot a (rights_at (before ++ v ∷ rest) a)

  pub IsChanged-append :
      (ys : List Vma)
      → IsOrdered (last_end lo before) ys
      → ((a : ℕ) → rights_at ys a ≡ changed_rights begin end prot a (rights_at (v ∷ rest) a))
      → IsChanged (before ++ ys)
  IsChanged-append ys o e = record {
    ordered = IsOrdered-append lo before ys ob o;
    rights = λ a. rights_at-append_change lo begin end prot a before (v ∷ rest) ys ob lb (e a);
  }

  rights-new1 :
      (a : ℕ)
      → v.begin < begin
      → begin ≤ a
      → rights (mapping_at new1 a) ≡ reprotect prot (rights (mapping_at v a))
  rights-new1 a h k =
      rights-vma_update_prot (split_vma v begin).1 prot a
      ∙ ap (λ m. reprotect prot (rights m)) (mapping_at-split_right v begin a (omega arith) k)

  reprotect-back :
      (a p : ℕ) → reprotect v.prot (reprotect p (rights (mapping_at v a))) ≡ rights (mapping_at v a)
  unfolding rights mapping_at
  reprotect-back a p = refl

  pub begin-new1 : new1.begin ≡ begin
  unfolding vma_update_prot split_vma
  begin-new1 = refl

  prot-first : first.prot ≡ v.prot
  unfolding split_vma
  prot-first = refl

  -- The tail has the rights of the area again.
  rights-tail :
      (a : ℕ) → v.begin < begin → end ≤ a → rights (mapping_at tail a) ≡ rights (mapping_at v a)
  rights-tail a h k =
      rights-vma_update_prot (split_vma new1 end).1 first.prot a
      ∙ (ap (λ m. reprotect first.prot (rights m))
            (mapping_at-split_right new1 end a (omega (arith, begin-new1)) k)
          ∙ (ap (λ r. reprotect first.prot r) (rights-new1 a h (omega arith))
              ∙ rw prot-first (reprotect-back a prot)))

  pub bounds :
      v.begin < begin
      → end < v.end
      → (first.begin ≡ v.begin)
        × (first.end ≡ begin)
        × (middle.begin ≡ begin)
        × (middle.end ≡ end)
        × (tail.begin ≡ end)
        × (tail.end ≡ v.end)
  unfolding split_vma vma_update_prot
  bounds h k = (refl, refl, refl, refl, refl, refl)

  -- Both cuts in one area.
  pub rights-both :
      (a : ℕ)
      → v.begin < begin
      → end < v.end
      → rights_at (first ∷ middle ∷ tail ∷ rest) a
        ≡ changed_rights begin end prot a (rights_at (v ∷ rest) a)
  unfolding view
  rights-both a h k = ground (
    arith,
    bounds h k,
    mapping_at-split_left v begin a,
    mapping_at-split_left new1 end a,
    rights-new1 a h,
    rights-tail a h,
    view-below v.end rest a ov.2,
  )

  pub insert-both :
      v.begin < begin
      → end < v.end
      → insert tail (insert middle (before ++ first ∷ rest))
        ≡ before ++ (first ∷ middle ∷ tail ∷ rest)
  unfolding insert
  insert-both h k =
      ap (λ t. insert tail t)
        (insert-append lo middle before (first ∷ rest) ob (omega (arith, bounds h k))
          ∙ ap (λ t. before ++ t)
              (ground (
                arith,
                bounds h k,
                insert_front middle rest
                    (IsOrdered-lower v.end middle.end rest ov.2 (omega (arith, bounds h k))),
              )))
      ∙ (insert-append lo tail before (first ∷ middle ∷ rest) ob (omega (arith, bounds h k))
          ∙ ap (λ t. before ++ t)
              (ground (
                arith,
                bounds h k,
                insert_front tail rest
                    (IsOrdered-lower v.end tail.end rest ov.2 (omega (arith, bounds h k))),
              )))

  pub both-IsOrdered :
      v.begin < begin → end < v.end → IsOrdered (last_end lo before) (first ∷ middle ∷ tail ∷ rest)
  both-IsOrdered h k =
      ground
        (arith, bounds h k, IsOrdered-lower v.end tail.end rest ov.2 (omega (arith, bounds h k)))

  -- One cut, at `begin`: the rest of the area and those that follow change.
  pub bounds-new1 :
      (first.begin ≡ v.begin) × (first.end ≡ begin) × (new1.begin ≡ begin) × (new1.end ≡ v.end)
  unfolding split_vma vma_update_prot
  bounds-new1 = (refl, refl, refl, refl)

  pub rights-one :
      (a : ℕ)
      → v.begin < begin
      → v.end ≤ end
      → rights_at (first ∷ new1 ∷ updated end prot rest) a
        ≡ changed_rights begin end prot a (rights_at (v ∷ rest) a)
  unfolding view
  rights-one a h k = ground (
    arith,
    bounds-new1,
    mapping_at-split_left v begin a,
    rights-new1 a h,
    rights_at-updated v.end end prot a rest ov.2,
    view-below v.end rest a ov.2,
  )

  pub one-IsOrdered :
      v.begin < begin → IsOrdered (last_end lo before) (first ∷ new1 ∷ updated end prot rest)
  one-IsOrdered h = ground (
    arith,
    bounds-new1,
    IsOrdered-lower v.end new1.end (updated end prot rest)
        (updated-IsOrdered v.end end prot rest ov.2) (omega (arith, bounds-new1)),
  )

  pub insert-one :
      v.begin < begin → insert new1 (before ++ first ∷ []) ≡ before ++ (first ∷ new1 ∷ [])
  unfolding insert
  insert-one h =
      insert-append lo new1 before (first ∷ []) ob (omega (arith, bounds-new1))
      ∙ ap (λ t. before ++ t) (ground (arith, bounds-new1))
