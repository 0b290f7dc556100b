-- ===== src/Vma/Remove/Effect.antt =====
-- What `_vma_bkeep_remove` does to the address space, and when it refuses.
use graphene.Base.{
  ℕ, ◌-◌, ◌≤◌, ◌<◌, ◌≡◌, ap, ◌∙◌, subst, ok-injective, Bool, ◌&&◌, none, List, [], ◌∷◌, ◌++◌, ltb,
  leb, if◌then◌else◌, ok, arith, max, Bool-cases, inl, inr,
}
use graphene.Vma.Types.{Vma, Refs, split_vma}
use graphene.Vma.Tree.{insert}
use graphene.Vma.View.{
  mapping_at, view, IsOrdered, last_end, view-append, view-below, view-above, IsOrdered-append,
  IsOrdered-lower, insert_front, insert-append, advance_twice,
}
use graphene.Vma.Remove.{Removal, trim_front, sweep, remove_found}

mapping_at-trim_front :
    (end a : ℕ) (v : Vma) → end ≤ a → mapping_at (trim_front end v) a ≡ mapping_at v a
unfolding trim_front mapping_at
mapping_at-trim_front end a v h =
    ground (arith, advance_twice v.file v.offset (end - v.begin) (a - end))

view-sweep :
    (lo end a : ℕ) (vs : List Vma)
    → IsOrdered lo vs
    → view (sweep end vs).1 a ≡ (if ltb a end then none else view vs a)
unfolding sweep view trim_front
view-sweep lo end a [] o = ground arith
view-sweep lo end a (v ∷ vs) o =
    ground (
      arith,
      view-sweep v.end end a vs o.2,
      view-below v.end vs a o.2,
      mapping_at-trim_front end a v,
    )

sweep-IsOrdered :
    (lo end : ℕ) (vs : List Vma) → IsOrdered lo vs → IsOrdered (max lo end) (sweep end vs).1
unfolding sweep trim_front
sweep-IsOrdered lo end [] o = tt
sweep-IsOrdered lo end (v ∷ vs) o = ground (arith, sweep-IsOrdered v.end end vs o.2)

abbrev pub within : ℕ → ℕ → ℕ → Bool
within begin end a = leb begin a && ltb a end

-- A change behind the cursor is a change of the whole tree.
pub view-append_change :
    (lo begin end a : ℕ) (before xs ys : List Vma)
    → IsOrdered lo before
    → last_end lo before ≤ begin
    → view ys a ≡ (if within begin end a then none else view xs a)
    → view (before ++ ys) a ≡ (if within begin end a then none else view (before ++ xs) a)
view-append_change lo begin end a before xs ys o h e =
    ground (arith, view-append before xs a, view-append before ys a, view-above lo before a o)

-- The tree after the cut of an area on both sides, on one side, and on none.
module _ (lo begin end : ℕ) (before : List Vma) (v : Vma) (rest : List Vma)
    (ob : IsOrdered lo before) (lb : last_end lo before ≤ begin)
    (ov : IsOrdered (last_end lo before) (v ∷ rest)) (hv : begin < v.end) (he : begin < end) where
  abbrev front : Vma
  front = record v { end = begin }

  abbrev back : Vma
  back = (split_vma v end).1

  insert-back :
      v.begin < begin
      → end < v.end
      → insert back (before ++ front ∷ rest) ≡ before ++ (front ∷ back ∷ rest)
  unfolding split_vma insert
  insert-back h k =
      insert-append lo back before (front ∷ rest) ob (omega arith)
      ∙ ap (λ ws. before ++ ws) (ground (arith, insert_front back rest ov.2))

  view-hole :
      (a : ℕ)
      → v.begin < begin
      → end < v.end
      → view (front ∷ back ∷ rest) a ≡ (if within begin end a then none else view (v ∷ rest) a)
  unfolding view split_vma mapping_at
  view-hole a h k =
      ground (
        arith,
        advance_twice v.file v.offset (end - v.begin) (a - end),
        view-below v.end rest a ov.2,
      )

  view-cut :
      (a : ℕ)
      → v.begin < begin
      → v.end ≤ end
      → view (front ∷ (sweep end rest).1) a
        ≡ (if within begin end a then none else view (v ∷ rest) a)
  unfolding view mapping_at
  view-cut a h k = ground (arith, view-sweep v.end end a rest ov.2, view-below v.end rest a ov.2)

  view-plain :
      (a : ℕ)
      → begin ≤ v.begin
      → view (sweep end (v ∷ rest)).1 a ≡ (if within begin end a then none else view (v ∷ rest) a)
  view-plain a h = ground (
    arith,
    view-sweep (last_end lo before) end a (v ∷ rest) ov,
    view-below v.begin (v ∷ rest) a (omega arith, ov.1, ov.2),
  )

  hole-IsOrdered :
      v.begin < begin → end < v.end → IsOrdered (last_end lo before) (front ∷ back ∷ rest)
  unfolding split_vma
  hole-IsOrdered h k = (ov.0, h, (omega arith, k, ov.2))

  cut-IsOrdered : v.begin < begin → IsOrdered (last_end lo before) (front ∷ (sweep end rest).1)
  cut-IsOrdered h = (
    ov.0,
    h,
    IsOrdered-lower (max v.end end) begin (sweep end rest).1 (sweep-IsOrdered v.end end rest ov.2)
        (omega arith),
  )

  plain-IsOrdered : IsOrdered (last_end lo before) (sweep end (v ∷ rest)).1
  plain-IsOrdered =
      IsOrdered-lower _ (last_end lo before) (sweep end (v ∷ rest)).1
        (sweep-IsOrdered (last_end lo before) end (v ∷ rest) ov) (omega arith)

  -- The tree that a removal leaves, and what it maps.
  pub record IsCleared (vmas : List Vma) : Type 0 where
    pub ordered : IsOrdered lo vmas
    pub cleared :
        (a : ℕ) → view vmas a ≡ (if within begin end a then none else view (before ++ v ∷ rest) a)

  IsCleared-append :
      (ys : List Vma)
      → IsOrdered (last_end lo before) ys
      → ((a : ℕ) → view ys a ≡ (if within begin end a then none else view (v ∷ rest) a))
      → IsCleared (before ++ ys)
  IsCleared-append ys o e = record {
    ordered = IsOrdered-append lo before ys ob o;
    cleared = λ a. view-append_change lo begin end a before (v ∷ rest) ys ob lb (e a);
  }

  pub remove_found-IsCleared :
      (spare : Bool) (refs : Refs) {r : Removal}
      → remove_found begin end spare refs before v rest ≡ ok r
      → IsCleared r.vmas
  unfolding remove_found
  remove_found-IsCleared spare refs e = elim (Bool-cases (ltb v.begin begin)) [
    | inr h ↦
        subst (λ (r : Removal). IsCleared r.vmas) (ok-injective (rw h at e))
          (IsCleared-append _ plain-IsOrdered (λ a. view-plain a (ground arith)))
    | inl h ↦ elim (Bool-cases (ltb end v.end)) [
      | inr k ↦
          subst (λ (r : Removal). IsCleared r.vmas) (ok-injective (rw (h, k) at e))
            (IsCleared-append _ (cut-IsOrdered (ground arith))
              (λ a. view-cut a (ground arith) (ground arith)))
      | inl k ↦ elim (Bool-cases spare) [
        | inr n ↦ absurd (cc (rw (h, k, n) at e))
        | inl n ↦
            subst (λ (r : Removal). IsCleared r.vmas) (ok-injective (rw (h, k, n) at e))
              (rw (insert-back (ground arith) (ground arith)) (
                IsCleared-append _ (hole-IsOrdered (ground arith) (ground arith))
                  (λ a. view-hole a (ground arith) (ground arith))))
      ]
    ]
  ]
