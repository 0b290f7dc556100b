-- ===== src/Vma/Query/Lookup.antt =====
-- `lookup_vma` against the address space.
use graphene.Base.{
  ℕ, ◌+◌, ◌-◌, ◌≡◌, refl, true, Option, none, some, List, [], ◌∷◌, ◌++◌, arith, Result, ok, err,
  enoent, sym, ap, ◌∙◌, Bool-cases, inl, inr, if_else,
}
use graphene.Vma.Types.{Vma, Refs, advance, is_addr_in_vma, get_ref}
use graphene.Vma.Tree.{lookup}
use graphene.Vma.View.{
  Mapping, mapping_at, view, view-append, view-above, view-below, IsOrdered, last_end, EndsAbove,
  IsOrdered-append_left, IsOrdered-append_right, lookup-append, last_end-lookup, lookup-EndsAbove,
}
use graphene.Vma.Query.{Info, dump_vma, lookup_found, lookup_vma}

-- What an answer of `lookup_vma` says of the address that was looked up.
unfoldable pub answer_at : ℕ → Result Info → Option Mapping
answer_at addr (err e) = none
answer_at addr (ok i) = some (record {
  prot = i.prot;
  flags = i.flags;
  file = i.file;
  offset = advance i.file i.file_offset (addr - i.addr);
})

found-view :
    (lo addr : ℕ) (after : List Vma) (refs : Refs)
    → IsOrdered lo after
    → EndsAbove addr after
    → view after addr ≡ answer_at addr (lookup_found addr after refs).0
unfolding view answer_at lookup_found mapping_at
found-view lo addr [] refs o above = refl
found-view lo addr (v ∷ vs) refs o above = ground (arith, view-below v.end vs addr o.2)

-- The copy of an area: it begins and ends where the area does.
pub record Describes (i : Info) (v : Vma) : Type 0 where
  pub addr : i.addr ≡ v.begin
  pub length : i.addr + i.length ≡ v.end
  pub prot : i.prot ≡ v.prot
  pub flags : i.flags ≡ v.flags
  pub file : i.file ≡ v.file
  pub file_offset : i.file_offset ≡ v.offset
  pub comment : i.comment ≡ v.comment

-- A lookup: the copy of the area of the tree that holds the address, with one reference taken to its
-- file, or ENOENT where nothing is mapped.
unfoldable pub IsLookup : ℕ → List Vma → Refs → Result Info × Refs → Type 0
IsLookup addr vmas refs (err e, refs') = (e ≡ enoent) × (view vmas addr ≡ none) × (refs' ≡ refs)
IsLookup addr vmas refs (ok i, refs') =
    (v : Vma) × (before : List Vma) × (after : List Vma) × (vmas ≡ before ++ v ∷ after)
    × (is_addr_in_vma addr v ≡ true)
    × Describes i v
    × (refs' ≡ get_ref v.file refs)

found-IsLookup :
    (lo addr : ℕ) (vmas before after : List Vma) (refs : Refs)
    → vmas ≡ before ++ after
    → IsOrdered lo after
    → view vmas addr ≡ answer_at addr (lookup_found addr after refs).0
    → IsLookup addr vmas refs (lookup_found addr after refs)
unfolding IsLookup answer_at lookup_found dump_vma
found-IsLookup lo addr vmas before [] refs e o w = (refl, w, refl)
found-IsLookup lo addr vmas before (v ∷ vs) refs e o w = elim (Bool-cases (is_addr_in_vma addr v)) [
  | inl inside ↦ rw inside (
    v,
    before,
    vs,
    e,
    inside,
    record {
      addr = refl;
      length = omega arith;
      prot = refl;
      flags = refl;
      file = refl;
      file_offset = refl;
      comment = refl;
    },
    refl,
  )
  | inr outside ↦
      let unmapped : view vmas addr ≡ none =
        w
        ∙ ap (λ (r : Result Info × Refs). answer_at addr r.0)
            (if_else (is_addr_in_vma addr v) _ _ outside) in
      rw outside (refl, unmapped, refl)
]

-- On well-formed areas, `lookup_vma` answers with the copy of the area of the tree that holds the
-- address, one reference to its file more, or with ENOENT where nothing is mapped, the references
-- unchanged; either way the answer says what the address space maps at the address.
pub view-lookup_vma :
    (addr : ℕ) (vmas : List Vma) (refs : Refs)
    → IsOrdered 0 vmas
    → (view vmas addr ≡ answer_at addr (lookup_vma addr vmas refs).0)
      × IsLookup addr vmas refs (lookup_vma addr vmas refs)
unfolding lookup_vma
view-lookup_vma addr vmas refs o =
    let before = (lookup addr vmas).0 in
    let after = (lookup addr vmas).1 in
    let o' : IsOrdered 0 (before ++ after) = rw lookup-append o in
    let split : view (before ++ after) addr ≡ view after addr =
      rw
        (
          view-append,
          view-above 0 before addr (IsOrdered-append_left 0 before after o')
              (last_end-lookup 0 addr vmas o (omega arith)),
        )
        refl in
    let behind : IsOrdered (last_end 0 before) after = IsOrdered-append_right 0 before after o' in
    let mapped : view vmas addr ≡ answer_at addr (lookup_found addr after refs).0 =
      ap (λ vs. view vs addr) (sym (lookup-append addr vmas))
      ∙ (split
          ∙ found-view (last_end 0 before) addr after refs behind (lookup-EndsAbove addr vmas)) in
    (
      mapped,
      found-IsLookup (last_end 0 before) addr vmas before after refs (sym (lookup-append addr vmas))
          behind mapped,
    )
