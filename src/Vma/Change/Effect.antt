-- ===== src/Vma/Change/Effect.antt =====
-- `_vma_bkeep_change` as a whole: where it succeeds, the range and nothing else has the new
-- protection.
use graphene.Base.{
  ℕ, ◌≤◌, ◌<◌, ◌≡◌, sym, ◌∙◌, not, ◌&&◌, if◌then◌else◌, if_then, if_else, Bool, true, false, List,
  [], ◌∷◌, ◌++◌, ltb, arith, Bool-cases, inl, inr, test_bit, subst, Result, ok, err,
}
use graphene.Vma.Types.{Vma, Refs, split_vma, vma_update_prot, prot_growsdown, get_ref}
use graphene.Vma.Tree.{lookup}
use graphene.Vma.View.{
  covers, le-last_end, IsOrdered, last_end, EndsAbove, IsOrdered-append_left,
  IsOrdered-append_right, lookup-append, last_end-lookup, lookup-EndsAbove,
}
use graphene.Vma.Change.{
  Changed, changed, change_split, change_found, change_checked, change_after, check_range,
  vma_bkeep_change,
}
use graphene.Vma.Change.Rights.{rights_at}
use graphene.Vma.Change.Cut.{changed-injective, changed_rights}
use graphene.Vma.Change.Laws
use graphene.Vma.Change.Laws.{Changes}

-- The begin of the area that covers an address.
unfoldable pub area_start : ℕ → List Vma → ℕ
area_start a [] = a
area_start a (v ∷ vs) = if covers v a then v.begin else area_start a vs

-- Where a change begins: with PROT_GROWSDOWN, where the area does that covers its first address.
abbrev pub change_begin : ℕ → ℕ → ℕ → ℕ
change_begin begin prot start = if test_bit prot_growsdown prot then start else begin

area_start-cursor :
    (lo a : ℕ) (before : List Vma) (v : Vma) (rest : List Vma)
    → IsOrdered lo before
    → last_end lo before ≤ a
    → v.begin ≤ a
    → a < v.end
    → area_start a (before ++ v ∷ rest) ≡ v.begin
unfolding area_start
area_start-cursor lo a [] v rest o h p q = ground arith
area_start-cursor lo a (w ∷ before) v rest o h p q =
    ground (arith, area_start-cursor w.end a before v rest o.2 h p q, le-last_end w.end before o.2)

module _ (begin end prot : ℕ) (before : List Vma) (v : Vma) where
  change_split-Changes :
      (rest : List Vma) (refs : Refs) {r : Changed} (ob : IsOrdered 0 before)
      (lb : last_end 0 before ≤ begin) (ov : IsOrdered (last_end 0 before) (v ∷ rest))
      (hv : begin < v.end) (he : begin < end)
      → v.begin < begin
      → change_split end prot refs before
          (split_vma v begin).0
          (vma_update_prot (split_vma v begin).1 prot)
          rest
        ≡ changed r
      → Changes begin end prot (before ++ v ∷ rest) r
  unfolding change_split
  change_split-Changes [] refs {r} ob lb ov hv he h e = elim (Bool-cases (ltb end v.end)) [
    | inl k ↦
        subst (λ (c : Changed). Changes begin end prot (before ++ v ∷ []) c)
          (changed-injective (rw k at e))
          (Laws.to_Changes begin end prot before v [] ob lb ov hv he _
            (Laws.tail-Holds begin end prot before v [] ob lb ov hv he refs h (ground arith)))
    | inr k ↦ absurd (cc (rw k at e))
  ]
  change_split-Changes (w ∷ ws) refs {r} ob lb ov hv he h e = elim (Bool-cases (ltb end v.end)) [
    | inl k ↦
        subst (λ (c : Changed). Changes begin end prot (before ++ v ∷ w ∷ ws) c)
          (changed-injective (rw k at e))
          (Laws.to_Changes begin end prot before v (w ∷ ws) ob lb ov hv he _
            (Laws.tail-Holds begin end prot before v (w ∷ ws) ob lb ov hv he refs h (ground arith)))
    | inr k ↦
        subst (λ (c : Changed). Changes begin end prot (before ++ v ∷ w ∷ ws) c)
          (changed-injective (rw k at e))
          (Laws.to_Changes begin end prot before v (w ∷ ws) ob lb ov hv he _
            (Laws.one-Holds begin end prot before v (w ∷ ws) ob lb ov hv he refs h (ground arith)))
  ]

  plain-Changes :
      (rest : List Vma) (refs : Refs) {r : Changed} (ob : IsOrdered 0 before)
      (lb : last_end 0 before ≤ begin) (ov : IsOrdered (last_end 0 before) (v ∷ rest))
      (hv : begin < v.end) (he : begin < end)
      → test_bit prot_growsdown prot ≡ false
      → change_found begin end prot refs before v rest ≡ changed r
      → Changes begin end prot (before ++ v ∷ rest) r
  unfolding change_found
  plain-Changes rest refs ob lb ov hv he plain e = elim (Bool-cases (ltb v.begin begin)) [
    | inl h ↦
        change_split-Changes rest (get_ref v.file refs) ob lb ov hv he (ground arith)
          (rw (h, plain) at e)
    | inr h ↦
        subst (λ (c : Changed). Changes begin end prot (before ++ v ∷ rest) c)
          (changed-injective (rw h at e))
          (Laws.to_Changes begin end prot before v rest ob lb ov hv he _
            (Laws.rest-Holds begin end prot before v rest ob lb ov hv he true refs (ground arith)))
  ]

  grows-Changes :
      (rest : List Vma) (refs : Refs) {r : Changed} (ob : IsOrdered 0 before)
      (ov : IsOrdered (last_end 0 before) (v ∷ rest)) (he : v.begin < end)
      → test_bit prot_growsdown prot ≡ true
      → change_found begin end prot refs before v rest ≡ changed r
      → Changes v.begin end prot (before ++ v ∷ rest) r
  unfolding change_found
  grows-Changes rest refs ob ov he grows e =
      subst (λ (c : Changed). Changes v.begin end prot (before ++ v ∷ rest) c)
        (changed-injective (
          sym (
            if_else (ltb v.begin begin && not (test_bit prot_growsdown prot)) _ _
              (ground (arith, grows)))
          ∙ e))
        (Laws.to_Changes v.begin end prot before v rest ob ov.0 ov ov.1 he _ (
          Laws.rest-Holds v.begin end prot before v rest ob ov.0 ov ov.1 he true refs
            (omega arith)))

  change_found-Changes :
      (rest : List Vma) (refs : Refs) {r : Changed} (ob : IsOrdered 0 before)
      (lb : last_end 0 before ≤ begin) (ov : IsOrdered (last_end 0 before) (v ∷ rest))
      (hv : begin < v.end) (he : begin < end) (hb : v.begin ≤ begin)
      → change_found begin end prot refs before v rest ≡ changed r
      → Changes
          (change_begin begin prot (area_start begin (before ++ v ∷ rest)))
          end
          prot
          (before ++ v ∷ rest)
          r
  change_found-Changes rest refs {r} ob lb ov hv he hb e =
      elim (Bool-cases (test_bit prot_growsdown prot)) [
        | inl grows ↦
            subst (λ (b : ℕ). Changes b end prot (before ++ v ∷ rest) r)
              (sym (
                if_then (test_bit prot_growsdown prot) _ begin grows
                ∙ area_start-cursor 0 begin before v rest ob lb hb hv))
              (grows-Changes rest refs ob ov (omega arith) grows e)
        | inr plain ↦
            subst (λ (b : ℕ). Changes b end prot (before ++ v ∷ rest) r)
              (sym (if_else (test_bit prot_growsdown prot) _ begin plain))
              (plain-Changes rest refs ob lb ov hv he plain e)
      ]

  change_checked-Changes :
      (rest : List Vma) (refs : Refs) (checked : Result Bool) {r : Changed}
      (ob : IsOrdered 0 before) (lb : last_end 0 before ≤ begin)
      (ov : IsOrdered (last_end 0 before) (v ∷ rest)) (hv : begin < v.end) (he : begin < end)
      (hb : v.begin ≤ begin)
      → change_checked begin end prot refs before v rest checked ≡ changed r
      → Changes
          (change_begin begin prot (area_start begin (before ++ v ∷ rest)))
          end
          prot
          (before ++ v ∷ rest)
          r
  unfolding change_checked
  change_checked-Changes rest refs (err x) ob lb ov hv he hb e = absurd (cc)
  change_checked-Changes rest refs (ok false) ob lb ov hv he hb e = absurd (cc)
  change_checked-Changes rest refs (ok true) ob lb ov hv he hb e =
      change_found-Changes rest refs ob lb ov hv he hb e

change_after-Changes :
    (begin end prot : ℕ) (internal : Bool) (refs : Refs) (before after : List Vma) {r : Changed}
    → IsOrdered 0 (before ++ after)
    → last_end 0 before ≤ begin
    → EndsAbove begin after
    → begin < end
    → change_after begin end prot internal refs before after ≡ changed r
    → Changes
        (change_begin begin prot (area_start begin (before ++ after)))
        end
        prot
        (before ++ after)
        r
unfolding change_after
change_after-Changes begin end prot internal refs before [] o h above lt e = absurd (cc)
change_after-Changes begin end prot internal refs before (v ∷ rest) o h above lt e =
    elim (Bool-cases (ltb begin v.begin)) [
      | inl k ↦ absurd (cc (rw k at e))
      | inr k ↦
          change_checked-Changes begin end prot before v rest refs
            (check_range end prot internal true (v ∷ rest))
            (IsOrdered-append_left 0 before (v ∷ rest) o) h
            (IsOrdered-append_right 0 before (v ∷ rest) o) above lt (ground (arith, k)) (rw k at e)
    ]

vma_bkeep_change-Changes :
    (begin end prot : ℕ) (internal : Bool) (vmas : List Vma) (refs : Refs) {r : Changed}
    → IsOrdered 0 vmas
    → begin < end
    → vma_bkeep_change begin end prot internal vmas refs ≡ changed r
    → Changes (change_begin begin prot (area_start begin vmas)) end prot vmas r
unfolding vma_bkeep_change
vma_bkeep_change-Changes begin end prot internal vmas refs {r} o lt e =
    subst (λ vs. Changes (change_begin begin prot (area_start begin vs)) end prot vs r)
      (lookup-append begin vmas)
      (change_after-Changes begin end prot internal refs (lookup begin vmas).0 (lookup begin vmas).1
        (rw lookup-append o) (last_end-lookup 0 begin vmas o (omega arith))
        (lookup-EndsAbove begin vmas) lt e)

-- A change that succeeds, on well-formed areas and a range that is not empty, leaves well-formed areas.
pub vma_bkeep_change-IsOrdered :
    (begin end prot : ℕ) (internal : Bool) (vmas : List Vma) (refs : Refs) {r : Changed}
    → IsOrdered 0 vmas
    → begin < end
    → vma_bkeep_change begin end prot internal vmas refs ≡ changed r
    → IsOrdered 0 r.vmas
vma_bkeep_change-IsOrdered begin end prot internal vmas refs o lt e =
    (vma_bkeep_change-Changes begin end prot internal vmas refs o lt e).ordered

-- A change that succeeds gives every mapped address from `begin` up to `end` the protection asked
-- for, with PROT_GROWSDOWN already from the begin of the area that covers `begin`; elsewhere the
-- protection bits, and everywhere the file, the place in it and the kind of the area, stay as they
-- were.
pub rights_at-vma_bkeep_change :
    (begin end prot a : ℕ) (internal : Bool) (vmas : List Vma) (refs : Refs) {r : Changed}
    → IsOrdered 0 vmas
    → begin < end
    → vma_bkeep_change begin end prot internal vmas refs ≡ changed r
    → rights_at r.vmas a
      ≡ changed_rights
          (change_begin begin prot (area_start begin vmas))
          end
          prot
          a
          (rights_at vmas a)
rights_at-vma_bkeep_change begin end prot a internal vmas refs o lt e =
    (vma_bkeep_change-Changes begin end prot internal vmas refs o lt e).rights a
