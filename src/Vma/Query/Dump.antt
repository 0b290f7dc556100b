-- ===== src/Vma/Query/Dump.antt =====
-- The dumps: all areas that are not passed over, in order, and enough rounds.
use graphene.Base.{
  ℕ, zero, suc, ◌-◌, ◌+◌, ◌≤◌, ◌≡◌, refl, Bool, true, false, Option, none, some, List, [], ◌∷◌, ltb,
  leb, if◌then◌else◌, arith, Result, ok, err, length, take, map, Bool-cases, inl, inr, ap, ◌∙◌,
}
use graphene.Vma.Types.{Vma, Refs, get_ref}
use graphene.Vma.Query.{
  Info, dump_vma, is_skipped, dump_loop, dump_all_vmas_with_buf, dump_all_vmas,
}

-- The areas that a dump is about.
unfoldable pub selected : Bool → List Vma → List Vma
selected include_unmapped [] = []
selected include_unmapped (v ∷ vs) =
    let rest = selected include_unmapped vs in
    if is_skipped include_unmapped v then rest else v ∷ rest

dump_loop-count :
    (m size : ℕ) (u : Bool) (vs : List Vma) (refs : Refs)
    → (dump_loop m u size vs refs).0 ≡ size + length (selected u vs)
unfolding dump_loop selected
dump_loop-count m size u [] refs = omega arith
dump_loop-count m size u (v ∷ vs) refs = elim (Bool-cases (is_skipped u v)) [
  | inl h ↦ rw h (dump_loop-count m size u vs refs)
  | inr h ↦ rw h (
      ground (
        arith,
        dump_loop-count m (suc size) u vs (if ltb size m then get_ref v.file refs else refs),
      ))
]

take-nil : (n : ℕ) → take {A = Vma} n [] ≡ []
take-nil zero = refl
take-nil (suc n) = refl

dump_loop-infos :
    (m size : ℕ) (u : Bool) (vs : List Vma) (refs : Refs)
    → (dump_loop m u size vs refs).1 ≡ map dump_vma (take (m - size) (selected u vs))
unfolding dump_loop selected
dump_loop-infos m size u [] refs = rw take-nil refl
dump_loop-infos m size u (v ∷ vs) refs = elim (Bool-cases (is_skipped u v)) [
  | inl h ↦ rw h (dump_loop-infos m size u vs refs)
  | inr h ↦ rw h (elim (Bool-cases (ltb size m)) [
    | inl k ↦
        let one : m - size ≡ suc (m - suc size) = ground arith in
        rw (k, one)
          (ap (λ is. dump_vma v ∷ is) (dump_loop-infos m (suc size) u vs (get_ref v.file refs)))
    | inr k ↦
        let none_left : m - size ≡ 0 = ground arith in
        let none_after : m - suc size ≡ 0 = ground arith in
        rw (k, none_left)
          (dump_loop-infos m (suc size) u vs refs
            ∙ ap (λ n. map dump_vma (take n (selected u vs))) none_after)
  ])
]

-- Where the buffer is large enough the dump holds all.
take_all : (n : ℕ) (vs : List Vma) → length vs ≤ n → take n vs ≡ vs
take_all zero [] h = refl
take_all zero (v ∷ vs) h = elim h [ ]
take_all (suc n) [] h = refl
take_all (suc n) (v ∷ vs) h = ap (λ ws. v ∷ ws) (take_all n vs (omega arith))

dump_fits :
    (count : ℕ) (u : Bool) (vmas : List Vma) (refs : Refs)
    → length (selected u vmas) ≤ count
    → (dump_all_vmas_with_buf count u vmas refs).1 ≡ map dump_vma (selected u vmas)
unfolding dump_all_vmas_with_buf
dump_fits count u vmas refs h =
    dump_loop-infos count 0 u vmas refs
    ∙ ap (λ vs. map dump_vma vs) (take_all (count - 0) _ (omega arith))

abbrev pub dumped : Option (Result (List Info) × Refs) → Option (List Info)
dumped none = none
dumped (some (err e, refs)) = none
dumped (some (ok infos, refs)) = some infos

dump-count :
    (count : ℕ) (u : Bool) (vmas : List Vma) (refs : Refs)
    → (dump_all_vmas_with_buf count u vmas refs).0 ≡ length (selected u vmas)
unfolding dump_all_vmas_with_buf
dump-count count u vmas refs = ground (arith, dump_loop-count count 0 u vmas refs)

dump_round :
    (fuel memory count : ℕ) (u : Bool) (vmas : List Vma) (refs : Refs)
    → length (selected u vmas) ≤ count
    → count ≤ memory
    → dumped (dump_all_vmas (suc fuel) memory count u vmas refs)
      ≡ some (map dump_vma (selected u vmas))
unfolding dump_all_vmas
dump_round fuel memory count u vmas refs h k =
    let needed : (dump_all_vmas_with_buf count u vmas refs).0 ≡ length (selected u vmas) =
      dump-count count u vmas refs in
    let fits : leb (dump_all_vmas_with_buf count u vmas refs).0 count ≡ true =
      ground (arith, needed) in
    let granted : ltb memory count ≡ false = ground arith in
    rw (granted, fits) (ap some (dump_fits count u vmas refs h))

-- If `calloc` grants 64 entries, and as many as the process has areas to show, the dump succeeds
-- in at most two rounds, with all the areas that are not passed over, in the order of the table.
pub dump_all_vmas-Complete :
    (memory : ℕ) (u : Bool) (vmas : List Vma) (refs : Refs)
    → 64 ≤ memory
    → length (selected u vmas) ≤ memory
    → dumped (dump_all_vmas 2 memory 64 u vmas refs) ≡ some (map dump_vma (selected u vmas))
unfolding dump_all_vmas
dump_all_vmas-Complete memory u vmas refs h k =
    let needed : (dump_all_vmas_with_buf 64 u vmas refs).0 ≡ length (selected u vmas) =
      dump-count 64 u vmas refs in
    elim (Bool-cases (leb (length (selected u vmas)) 64)) [
      | inl few ↦ dump_round 1 memory 64 u vmas refs (ground arith) h
      | inr many ↦
          let granted : ltb memory 64 ≡ false = ground arith in
          let small : leb (dump_all_vmas_with_buf 64 u vmas refs).0 64 ≡ false = rw needed many in
          rw (granted, small, needed)
            (dump_round 0 memory (length (selected u vmas)) u vmas _ (omega arith) k)
    ]
