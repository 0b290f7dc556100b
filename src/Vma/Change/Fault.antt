-- ===== src/Vma/Change/Fault.antt =====
-- Where `assert(next)` of `_vma_bkeep_change` fails.
use mathlib.Core.Bool.{xor}
use graphene.Base.{
  ℕ, ◌≤◌, ◌<◌, ◌≡◌, ◌≢◌, refl, ap, ◌∙◌, Bool, true, false, some, List, [], ◌∷◌, ◌++◌, ltb, leb,
  arith, test_bit, Result, ok, err,
}
use graphene.Vma.Types.{Vma, Refs, is_internal, prot_growsdown, split_vma, vma_update_prot, get_ref}
use graphene.Vma.Tree.{lookup}
use graphene.Vma.View.{
  IsOrdered, last_end, lookup-eq, IsOrdered-append_left, IsOrdered-append_right, last_end-append,
  Mapping, view, view-above, lookup-append,
}
use graphene.Vma.Change.{
  fault, shared_mismatch, check_range, change_split, change_found, change_checked, change_after,
  vma_bkeep_change,
}

fault_last :
    (begin prot : ℕ) (internal : Bool) (before : List Vma) (v : Vma) (refs : Refs)
    → v.begin < begin
    → test_bit prot_growsdown prot ≡ false
    → xor (is_internal v) internal ≡ false
    → shared_mismatch v.file v.flags prot ≡ false
    → change_after begin v.end prot internal refs before (v ∷ []) ≡ fault
unfolding change_after check_range change_checked change_found change_split
fault_last begin prot internal before v refs h plain kind allowed =
    let ge : ltb begin v.begin ≡ false = ground arith in
    let same : leb v.end v.end ≡ true = ground arith in
    let lt : ltb v.begin begin ≡ true = ground arith in
    let at_end : ltb v.end v.end ≡ false = ground arith in
    rw (ge, kind, plain, allowed, same, lt, at_end, plain) refl

-- On the last area of a well-formed tree, a change without PROT_GROWSDOWN, of the area's kind and with
-- no shared-file mismatch, that begins inside the area and ends where the area ends reaches
-- `assert(next)` with no next area.
pub vma_bkeep_change-fault :
    (begin prot : ℕ) (internal : Bool) (before : List Vma) (v : Vma) (refs : Refs)
    → IsOrdered 0 (before ++ v ∷ [])
    → v.begin < begin
    → begin < v.end
    → test_bit prot_growsdown prot ≡ false
    → xor (is_internal v) internal ≡ false
    → shared_mismatch v.file v.flags prot ≡ false
    → vma_bkeep_change begin v.end prot internal (before ++ v ∷ []) refs ≡ fault
unfolding vma_bkeep_change
vma_bkeep_change-fault begin prot internal before v refs o h k plain kind allowed =
    ap (λ c. change_after begin v.end prot internal refs c.0 c.1)
      (lookup-eq 0 begin before (v ∷ []) (IsOrdered-append_left 0 before (v ∷ []) o)
        (omega (arith, IsOrdered-append_right 0 before (v ∷ []) o)) k)
    ∙ fault_last begin prot internal before v refs h plain kind allowed

change_split-fault :
    (end prot : ℕ) (refs : Refs) (before : List Vma) (first new1 : Vma) (rest : List Vma)
    → change_split end prot refs before first new1 rest ≡ fault
    → (rest ≡ []) × (new1.end ≤ end)
unfolding change_split
change_split-fault end prot refs before first new1 [] e = (refl, ground arith)
change_split-fault end prot refs before first new1 (w ∷ ws) e = absurd (ground arith)

change_checked-fault :
    (begin end prot : ℕ) (refs : Refs) (before : List Vma) (v : Vma) (rest : List Vma)
    (checked : Result Bool)
    → change_checked begin end prot refs before v rest checked ≡ fault
    → (rest ≡ []) × (v.end ≤ end)
unfolding change_checked change_found split_vma vma_update_prot
change_checked-fault begin end prot refs before v rest (err x) e = absurd (cc)
change_checked-fault begin end prot refs before v rest (ok false) e = absurd (cc)
change_checked-fault begin end prot refs before v rest (ok true) e =
    change_split-fault end prot (get_ref v.file refs) before (split_vma v begin).0
      (vma_update_prot (split_vma v begin).1 prot) rest (ground arith)

change_after-fault :
    (begin end prot : ℕ) (internal : Bool) (refs : Refs) (before after : List Vma)
    → change_after begin end prot internal refs before after ≡ fault
    → last_end 0 (before ++ after) ≤ end
unfolding change_after
change_after-fault begin end prot internal refs before [] e = absurd (cc)
change_after-fault begin end prot internal refs before (v ∷ rest) e =
    let f =
      change_checked-fault begin end prot refs before v rest
        (check_range end prot internal true (v ∷ rest)) (ground arith) in
    rw (f.0, last_end-append) f.1

-- A change never reaches the failing assertion if an address at or above `end` is mapped.
pub vma_bkeep_change-ne-fault :
    (begin end prot a : ℕ) (internal : Bool) (vmas : List Vma) (refs : Refs) (m : Mapping)
    → IsOrdered 0 vmas
    → end ≤ a
    → view vmas a ≡ some m
    → vma_bkeep_change begin end prot internal vmas refs ≢ fault
unfolding vma_bkeep_change
vma_bkeep_change-ne-fault begin end prot a internal vmas refs m o h mapped e =
    let last =
      change_after-fault begin end prot internal refs (lookup begin vmas).0 (lookup begin vmas).1
        e in
    let last' : last_end 0 vmas ≤ end = rw lookup-append at last in
    cc (view-above 0 vmas a o (omega arith))
