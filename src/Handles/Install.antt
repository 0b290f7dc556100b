-- ===== src/Handles/Install.antt =====
-- `set_new_fd_handle` and its two siblings.
use graphene.Base.{
  ℕ, suc, zero, ◌+◌, ◌-◌, ◌≤◌, ◌<◌, ◌≡◌, refl, sym, ap, ◌∙◌, subst, ◌⊎◌, inl, inr, true, false,
  Option, none, some, List, leb, ◌==◌, get_or, arith, Bool-cases, if_then, if_else, ◌^◌, leb-false,
  emfile,
}
use graphene.Handles.{
  FdHandle, HandleMap, handle_allocated, slot, under_top, Counts, refused, Memory, find_free,
  first_free, place_fd, set_new_fd_handle_above_fd,
}
use graphene.Handles.Table.{IsWell}
use graphene.Handles.Fill.{IsPlaced, plenty, place_fd-IsPlaced}

-- The loop stops at the first free descriptor, or behind the numbers that it was given.
abbrev IsFirst : List (Option FdHandle) → ℕ → ℕ → ℕ → Type 0
IsFirst slots n fd r =
    (fd ≤ r)
    × ((k : ℕ) → fd ≤ k → k < r → handle_allocated (get_or slots k none) ≡ true)
    × ((r ≡ fd + n) ⊎ (handle_allocated (get_or slots r none) ≡ false))

IsFirst-next :
    (slots : List (Option FdHandle)) (n fd r : ℕ)
    → handle_allocated (get_or slots fd none) ≡ true
    → IsFirst slots n (suc fd) r
    → IsFirst slots (suc n) fd r
IsFirst-next slots n fd r used (above, all, last) = (
  omega (arith, above),
  λ k p q. elim (Bool-cases (fd == k)) [
    | inl same ↦
        subst (λ i. handle_allocated (get_or slots i none) ≡ true) (ground (arith, same)) used
    | inr other ↦ all k (ground (arith, other, p)) q
  ],
  elim last [ inl e ↦ inl (omega (arith, e)) | inr e ↦ inr e ],
)

find_free-IsFirst :
    (slots : List (Option FdHandle)) (n fd : ℕ) → IsFirst slots n fd (find_free slots n fd)
unfolding find_free
find_free-IsFirst slots zero fd = (omega arith, λ k p q. absurd (omega arith), inl (omega arith))
find_free-IsFirst slots (suc n) fd = elim (Bool-cases (handle_allocated (get_or slots fd none))) [
  | inl used ↦ subst (IsFirst slots (suc n) fd) (sym (if_then _ _ fd used)) (
      IsFirst-next slots n fd (find_free slots n (suc fd)) used
        (find_free-IsFirst slots n (suc fd)))
  | inr free ↦
      subst (IsFirst slots (suc n) fd) (sym (if_else _ (find_free slots n (suc fd)) fd free))
        (omega arith, λ k p q. absurd (omega arith), inr free)
]

-- The first free descriptor of a table, from a number on.
abbrev pub IsLowest : ℕ → HandleMap → ℕ → Type 0
IsLowest fd m r =
    (fd ≤ r)
    × ((k : ℕ) → fd ≤ k → k < r → handle_allocated (slot m k) ≡ true)
    × (handle_allocated (slot m r) ≡ false)

not_under :
    (m : HandleMap) (w : IsWell m) (r : ℕ)
    → under_top r m.fd_top ≡ false
    → handle_allocated (slot m r) ≡ false
not_under m w r e = elim (Bool-cases (handle_allocated (slot m r))) [
  | inl used ↦ absurd (ground (arith, w.under r used, e))
  | inr free ↦ free
]

find_free-IsLowest :
    (fd : ℕ) (m : HandleMap) (o : Option ℕ)
    → IsWell m
    → m.fd_top ≡ o
    → IsLowest fd m
        (elim o as (λ x. ℕ) [ none ↦ fd | some top ↦ find_free m.slots (suc top - fd) fd ])
find_free-IsLowest fd m none w e =
    (omega arith, λ k p q. absurd (omega arith), not_under m w fd (ap (under_top fd) e))
find_free-IsLowest fd m (some top) w e =
    let (above, all, last) = find_free-IsFirst m.slots (suc top - fd) fd in
    (
      above,
      all,
      elim last [
        | inl end ↦ not_under m w _ (ap (under_top _) e ∙ leb-false (omega (arith, end)))
        | inr free ↦ free
      ],
    )

first_free-IsLowest : (fd : ℕ) (m : HandleMap) → IsWell m → IsLowest fd m (first_free fd m)
unfolding first_free
first_free-IsLowest fd m w = find_free-IsLowest fd m m.fd_top w refl

-- With a limit of at most 2 ^ 15, where a number from the given one on, under the limit, is free, and
-- both allocations succeed, on a well-formed table the call puts the handle under the lowest such number, takes a reference, and leaves every other
-- descriptor and the well-formedness of the table as they were.
pub set_new_fd_handle_above_fd-IsPlaced :
    (limit fd k hdl flags : ℕ) (m : HandleMap) (counts : Counts)
    → IsWell m
    → limit ≤ 2 ^ 15
    → fd ≤ k
    → k < limit
    → handle_allocated (slot m k) ≡ false
    → IsLowest fd m (first_free fd m)
      × IsPlaced
          (first_free fd m)
          hdl
          flags
          m
          counts
          (set_new_fd_handle_above_fd limit plenty fd hdl flags m counts)
unfolding set_new_fd_handle_above_fd
set_new_fd_handle_above_fd-IsPlaced limit fd k hdl flags m counts w small p q free =
    let (above, all, last) = first_free-IsLowest fd m w in
    let le : first_free fd m ≤ k = ground (arith, all k p, free) in
    (
      (above, all, last),
      place_fd-IsPlaced limit (first_free fd m) hdl flags m counts w (omega (arith, le))
          (omega (arith, le)),
    )

-- Where every number from the given one up to the limit is in use, the call answers EMFILE and
-- changes nothing.
pub set_new_fd_handle_above_fd-emfile :
    (limit fd hdl flags : ℕ) (mem : Memory) (m : HandleMap) (counts : Counts)
    → IsWell m
    → ((k : ℕ) → fd ≤ k → k < limit → handle_allocated (slot m k) ≡ true)
    → set_new_fd_handle_above_fd limit mem fd hdl flags m counts ≡ (refused emfile, m, counts)
unfolding set_new_fd_handle_above_fd place_fd
set_new_fd_handle_above_fd-emfile limit fd hdl flags mem m counts w full =
    let (above, all, last) = first_free-IsLowest fd m w in
    if_then (leb limit (first_free fd m)) _ _ (ground (arith, full (first_free fd m) above, last))
