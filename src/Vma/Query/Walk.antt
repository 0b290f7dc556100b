-- ===== src/Vma/Query/Walk.antt =====
-- `is_in_adjacent_user_vmas` against the address space.
use graphene.Base.{
  ℕ, ◌+◌, ◌^◌, ◌≤◌, ◌<◌, ◌≡◌, refl, Bool, true, false, not, ◌||◌, Option, none, some, List, [], ◌∷◌,
  ◌++◌, ltb, arith, sym, ap, ◌∙◌, Bool-cases, inl, inr, test_bit,
}
use graphene.Vma.Types.{Vma, add64, vma_internal, vma_unmapped}
use graphene.Vma.Tree.{lookup}
use graphene.Vma.View.{
  Mapping, mapping_at, view, covers, view-append, view-above, IsOrdered, last_end,
  IsOrdered-append_left, IsOrdered-append_right, lookup-append, last_end-lookup,
}
use graphene.Vma.Query.{is_reserved, adjacent_from, adjacent_found, is_in_adjacent_user_vmas}

-- User memory is mapped there, so neither internal nor unmapped.
unfoldable pub is_user : Option Mapping → Bool
is_user none = false
is_user (some m) = not (test_bit vma_internal m.flags || test_bit vma_unmapped m.flags)

-- One step of the walk.
adjacent_from-next :
    (end a : ℕ) (v w : Vma) (ws : List Vma)
    → adjacent_from end v (w ∷ ws) ≡ true
    → v.end ≤ a
    → a < end
    → (v.end ≡ w.begin) × (is_reserved w ≡ false) × (adjacent_from end w ws ≡ true)
unfolding adjacent_from
adjacent_from-next end a v w ws h le lt = elim (Bool-cases (is_reserved w)) [
  | inl r ↦ ground arith
  | inr r ↦ ground arith
]

adjacent_from-user :
    (end a lo : ℕ) (v : Vma) (ws : List Vma)
    → IsOrdered lo (v ∷ ws)
    → adjacent_from end v ws ≡ true
    → is_reserved v ≡ false
    → v.begin ≤ a
    → a < end
    → is_user (view (v ∷ ws) a) ≡ true
unfolding adjacent_from view is_user is_reserved mapping_at
adjacent_from-user end a lo v [] o h k le lt = ground arith
adjacent_from-user end a lo v (w ∷ ws) o h k le lt = elim (Bool-cases (ltb a v.end)) [
  | inl inside ↦ ground arith
  | inr behind ↦
      let next = adjacent_from-next end a v w ws h (ground arith) lt in
      let rest =
        adjacent_from-user end a v.end w ws o.2 next.2 next.1 (ground (arith, next.0)) lt in
      let out : covers v a ≡ false = ground arith in rw out rest
]

adjacent_found-user :
    (begin end a lo : ℕ) (vs : List Vma)
    → IsOrdered lo vs
    → adjacent_found begin end vs ≡ true
    → begin ≤ a
    → a < end
    → is_user (view vs a) ≡ true
unfolding adjacent_found
adjacent_found-user begin end a lo [] o h le lt = cc
adjacent_found-user begin end a lo (v ∷ vs) o h le lt = elim (Bool-cases (is_reserved v)) [
  | inl r ↦ ground arith
  | inr r ↦ adjacent_from-user end a lo v vs o (ground arith) r (ground arith) lt
]

-- If `is_in_adjacent_user_vmas` answers true on a range that does not wrap around, then every address
-- of the range is mapped by user memory.
pub is_in_adjacent_user_vmas-IsUser :
    (addr length : ℕ) (vmas : List Vma)
    → IsOrdered 0 vmas
    → addr + length < 2 ^ 64
    → is_in_adjacent_user_vmas addr length vmas ≡ true
    → (a : ℕ) → addr ≤ a
    → a < addr + length
    → is_user (view vmas a) ≡ true
unfolding is_in_adjacent_user_vmas
is_in_adjacent_user_vmas-IsUser addr length vmas o fits h a le lt =
    let before = (lookup addr vmas).0 in
    let after = (lookup addr vmas).1 in
    let o' : IsOrdered 0 (before ++ after) = rw lookup-append o in
    let split : view (before ++ after) a ≡ view after a =
      rw
        (
          view-append,
          view-above 0 before a (IsOrdered-append_left 0 before after o')
              (omega (arith, last_end-lookup 0 addr vmas o (omega arith))),
        )
        refl in
    ap (λ vs. is_user (view vs a)) (sym (lookup-append addr vmas))
    ∙ (ap is_user split
        ∙ adjacent_found-user addr (add64 addr length) a (last_end 0 before) after
            (IsOrdered-append_right 0 before after o') h le (omega arith))
