-- ===== src/Vma/Change/Cover.antt =====
-- What the first loop of `_vma_bkeep_change` makes sure of.
use mathlib.Core.Bool.{xor}
use graphene.Base.{
  ℕ, ◌≤◌, ◌<◌, ◌≡◌, ◌≢◌, refl, Bool, true, false, ◌&&◌, some, List, [], ◌∷◌, ◌++◌, ltb, arith,
  Bool-cases, inl, inr, test_bit, subst, Result, ok, err,
}
use graphene.Vma.Types.{Vma, Refs, vma_internal}
use graphene.Vma.Tree.{lookup}
use graphene.Vma.View.{
  view, covers, mapping_at, Mapping, view-append, view-above, IsOrdered, last_end,
  IsOrdered-append_left, IsOrdered-append_right, lookup-append, last_end-lookup,
}
use graphene.Vma.Change.{
  Changed, changed, shared_mismatch, adjoins, check_range, change_checked, change_after,
  vma_bkeep_change,
}

-- The address is mapped, by an area of the caller's kind, whose file allows the protection.
pub record IsAllowed (prot : ℕ) (internal : Bool) (vmas : List Vma) (a : ℕ) : Type 0 where
  pub mapping : Mapping
  pub mapped : view vmas a ≡ some mapping
  pub kind : xor (test_bit vma_internal mapping.flags) internal ≡ false
  pub writable : shared_mismatch mapping.file mapping.flags prot ≡ false

-- Once a gap has been seen the loop does not answer `true`.
check_range-gap :
    (end prot : ℕ) (internal : Bool) (vs : List Vma)
    → check_range end prot internal false vs ≢ ok true
unfolding check_range
check_range-gap end prot internal [] = cc
check_range-gap end prot internal (v ∷ vs) = ground (arith, check_range-gap end prot internal vs)

-- What a passed test says of the area itself.
check_range-head :
    (end prot a : ℕ) (internal continuous : Bool) (v : Vma) (vs : List Vma)
    → check_range end prot internal continuous (v ∷ vs) ≡ ok true
    → covers v a ≡ true
    → IsAllowed prot internal (v ∷ vs) a
unfolding check_range view mapping_at
check_range-head end prot a internal continuous v vs e c = record {
  mapping = mapping_at v a;
  mapped = rw c;
  kind = ground arith;
  writable = ground arith;
}

IsAllowed-cons :
    (prot a : ℕ) (internal : Bool) (v : Vma) (vs : List Vma)
    → covers v a ≡ false
    → IsAllowed prot internal vs a
    → IsAllowed prot internal (v ∷ vs) a
unfolding view
IsAllowed-cons prot a internal v vs c h = record {
  mapping = h.mapping;
  mapped = rw c h.mapped;
  kind = h.kind;
  writable = h.writable;
}

check_range-next :
    (end prot : ℕ) (internal continuous : Bool) (v : Vma) (vs : List Vma)
    → check_range end prot internal continuous (v ∷ vs) ≡ ok true
    → v.end < end
    → check_range end prot internal (continuous && adjoins v vs) vs ≡ ok true
unfolding check_range
check_range-next end prot internal continuous v vs e h = ground arith

check_range-adjoins :
    (end prot : ℕ) (internal continuous : Bool) (v : Vma) (vs : List Vma)
    → check_range end prot internal (continuous && adjoins v vs) vs ≡ ok true
    → adjoins v vs ≡ true
check_range-adjoins end prot internal continuous v vs e =
    elim (Bool-cases (continuous && adjoins v vs)) [
      | inl h ↦ ground arith
      | inr h ↦ absurd (check_range-gap end prot internal vs (rw h at e))
    ]

check_range-nil :
    (end prot : ℕ) (internal continuous : Bool)
    → check_range end prot internal continuous [] ≢ ok true
unfolding check_range
check_range-nil end prot internal continuous = cc

adjoins-begin :
    {a : ℕ} (v w : Vma) (ws : List Vma) → adjoins v (w ∷ ws) ≡ true → v.end ≤ a → w.begin ≤ a
unfolding adjoins
adjoins-begin v w ws e h = ground arith

check_range-IsAllowed :
    (lo end prot a : ℕ) (internal continuous : Bool) (v : Vma) (vs : List Vma)
    → IsOrdered lo (v ∷ vs)
    → check_range end prot internal continuous (v ∷ vs) ≡ ok true
    → v.begin ≤ a
    → a < end
    → IsAllowed prot internal (v ∷ vs) a
check_range-IsAllowed lo end prot a internal continuous v [] o e h k =
    elim (Bool-cases (ltb a v.end)) [
      | inl c ↦ check_range-head end prot a internal continuous v [] e (ground arith)
      | inr c ↦ absurd (
          check_range-nil end prot internal (continuous && adjoins v [])
            (check_range-next end prot internal continuous v [] e (ground arith)))
    ]
check_range-IsAllowed lo end prot a internal continuous v (w ∷ ws) o e h k =
    elim (Bool-cases (ltb a v.end)) [
      | inl c ↦ check_range-head end prot a internal continuous v (w ∷ ws) e (ground arith)
      | inr c ↦ IsAllowed-cons prot a internal v (w ∷ ws) (ground arith) (
          check_range-IsAllowed v.end end prot a internal (continuous && adjoins v (w ∷ ws)) w ws
            o.2 (check_range-next end prot internal continuous v (w ∷ ws) e (ground arith))
            (adjoins-begin v w ws
              (check_range-adjoins end prot internal continuous v (w ∷ ws)
                (check_range-next end prot internal continuous v (w ∷ ws) e (ground arith)))
              (ground arith))
            k)
    ]

IsAllowed-append :
    (prot a : ℕ) (internal : Bool) (before after : List Vma)
    → IsOrdered 0 before
    → last_end 0 before ≤ a
    → IsAllowed prot internal after a
    → IsAllowed prot internal (before ++ after) a
IsAllowed-append prot a internal before after o h w = record {
  mapping = w.mapping;
  mapped = rw (view-append, view-above 0 before a o h) w.mapped;
  kind = w.kind;
  writable = w.writable;
}

change_checked-true :
    (begin end prot : ℕ) (refs : Refs) (before : List Vma) (v : Vma) (rest : List Vma)
    (checked : Result Bool) {r : Changed}
    → change_checked begin end prot refs before v rest checked ≡ changed r
    → checked ≡ ok true
unfolding change_checked
change_checked-true begin end prot refs before v rest (err x) e = absurd (cc)
change_checked-true begin end prot refs before v rest (ok false) e = absurd (cc)
change_checked-true begin end prot refs before v rest (ok true) e = refl

change_after-IsAllowed :
    (begin end prot a : ℕ) (internal : Bool) (refs : Refs) (before after : List Vma) {r : Changed}
    → IsOrdered 0 (before ++ after)
    → last_end 0 before ≤ begin
    → begin ≤ a
    → a < end
    → change_after begin end prot internal refs before after ≡ changed r
    → IsAllowed prot internal (before ++ after) a
unfolding change_after
change_after-IsAllowed begin end prot a internal refs before [] o h ge lt e = absurd (cc)
change_after-IsAllowed begin end prot a internal refs before (v ∷ rest) o h ge lt e =
    elim (Bool-cases (ltb begin v.begin)) [
      | inl k ↦ absurd (cc (rw k at e))
      | inr k ↦
          IsAllowed-append prot a internal before (v ∷ rest)
            (IsOrdered-append_left 0 before (v ∷ rest) o) (omega arith)
            (check_range-IsAllowed (last_end 0 before) end prot a internal true v rest
              (IsOrdered-append_right 0 before (v ∷ rest) o)
              (change_checked-true begin end prot refs before v rest
                (check_range end prot internal true (v ∷ rest)) (rw k at e))
              (ground arith) lt)
    ]

-- A change succeeds only if every address from `begin` up to `end` is mapped, by an area of the
-- caller's kind, and a shared file mapping there is not made writable against the file's mode.
pub vma_bkeep_change-IsAllowed :
    (begin end prot a : ℕ) (internal : Bool) (vmas : List Vma) (refs : Refs) {r : Changed}
    → IsOrdered 0 vmas
    → begin ≤ a
    → a < end
    → vma_bkeep_change begin end prot internal vmas refs ≡ changed r
    → IsAllowed prot internal vmas a
unfolding vma_bkeep_change
vma_bkeep_change-IsAllowed begin end prot a internal vmas refs o ge lt e =
    subst (λ vs. IsAllowed prot internal vs a) (lookup-append begin vmas)
      (change_after-IsAllowed begin end prot a internal refs (lookup begin vmas).0
        (lookup begin vmas).1 (rw lookup-append o) (last_end-lookup 0 begin vmas o (omega arith)) ge
        lt e)
