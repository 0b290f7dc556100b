-- ===== src/Handles/Detach.antt =====
-- `detach_fd_handle`
use graphene.Base.{
  ℕ, ◌<◌, ◌≡◌, ◌≢◌, sym, ap, ◌∙◌, subst, ◌⊎◌, inl, inr, true, false, Option, none, some, ltb, ◌==◌,
  if◌then◌else◌, length, set, arith, Bool-cases, Option-cases, if_then, if_else, length-set,
}
use graphene.Handles.{
  FdHandle, HandleMap, handle_allocated, slot, under_top, fd_entry, get_fd_entry, lower_top, is_top,
  cleared, detach_slot, detach_fd_handle,
}
use graphene.Handles.Table.{
  IsNamed, IsWell, get_or-set_self, get_or-set_ne, get_or-out, fd_entry-none, get_fd_entry-slot,
  lower_top-none, lower_top-some, some_inj,
}

-- The table after an element has been cleared.
abbrev pub cleared_map : ℕ → HandleMap → HandleMap
cleared_map fd m = record m {
  fd_top = if is_top fd m.fd_top then lower_top (set m.slots fd cleared) fd else m.fd_top;
  slots = set m.slots fd cleared;
}

pub cleared-slot_ne : (m : HandleMap) (fd k : ℕ) → fd ≢ k → slot (cleared_map fd m) k ≡ slot m k
cleared-slot_ne m fd k h = get_or-set_ne m.slots fd k cleared none h

pub cleared-slot_self :
    (m : HandleMap) (fd : ℕ) → fd < length m.slots → slot (cleared_map fd m) fd ≡ cleared
cleared-slot_self m fd h = get_or-set_self m.slots fd cleared none h

pub is_top-some : (fd : ℕ) (o : Option ℕ) → is_top fd o ≡ true → o ≡ some fd
is_top-some fd none e = ground (arith, e)
is_top-some fd (some t) e = ap some (ground (arith, e))

is_top-other : (fd t : ℕ) (o : Option ℕ) → o ≡ some t → is_top fd o ≡ false → fd ≢ t
is_top-other fd t none p e = ground (arith, p)
is_top-other fd t (some u) p e = ground (arith, some_inj u t p, e)

-- An element in use lies in the array.
pub allocated-lt :
    (m : HandleMap) (fd : ℕ) → handle_allocated (slot m fd) ≡ true → fd < length m.slots
allocated-lt m fd e = elim (Bool-cases (ltb fd (length m.slots))) [
  | inl less ↦ ground (arith, less)
  | inr more ↦
      ground (arith, ap handle_allocated (get_or-out m.slots fd none (ground (arith, more))), e)
]

module _ (m : HandleMap) (fd : ℕ) (w : IsWell m) (used : handle_allocated (slot m fd) ≡ true) where
  abbrev m' : HandleMap
  m' = cleared_map fd m

  lt : fd < length m.slots
  lt = allocated-lt m fd used

  slot-cleared : (k : ℕ) → fd ≡ k → slot m' k ≡ cleared
  slot-cleared k e = subst (λ i. slot m' i ≡ cleared) e (cleared-slot_self m fd lt)

  named' : (k : ℕ) → IsNamed k (slot m' k)
  named' k f e = elim (Bool-cases (fd == k)) [
    | inl same ↦
        let same' : fd ≡ k = ground (arith, same) in
        inl (sym (ap (λ (g : FdHandle). g.vfd) (some_inj _ f (sym (slot-cleared k same') ∙ e))))
    | inr other ↦ w.named k f (sym (cleared-slot_ne m fd k (ground (arith, other))) ∙ e)
  ]

  -- What is in use afterwards was in use before, and is another descriptor.
  used-before :
      (k : ℕ)
      → handle_allocated (slot m' k) ≡ true
      → (fd ≢ k) × (handle_allocated (slot m k) ≡ true)
  used-before k e = elim (Bool-cases (fd == k)) [
    | inl same ↦
        absurd (ground (arith, ap handle_allocated (slot-cleared k (ground (arith, same))), e))
    | inr other ↦
        let h : fd ≢ k = ground (arith, other) in
        (h, ap handle_allocated (sym (cleared-slot_ne m fd k h)) ∙ e)
  ]

  -- The descriptor was the highest: the loop finds the next one.
  under-lowered :
      m.fd_top ≡ some fd
      → (k : ℕ) → handle_allocated (slot m' k) ≡ true
      → under_top k (lower_top (set m.slots fd cleared) fd) ≡ true
  under-lowered top k e =
      let (other, before) = used-before k e in
      let less : under_top k (some fd) ≡ true =
        subst (λ o. under_top k o ≡ true) top (w.under k before) in
      let lt' : k < fd = ground (arith, less, other) in
      elim (Option-cases (lower_top (set m.slots fd cleared) fd)) [
        | inl none' ↦
            absurd (ground (arith, lower_top-none (set m.slots fd cleared) fd k none' lt', e))
        | inr (t, some') ↦
            let (le, found, rest) = lower_top-some (set m.slots fd cleared) fd t some' in
            subst (λ o. under_top k o ≡ true) (sym some') (ground (arith, rest k, e, lt'))
      ]

  under' : (k : ℕ) → handle_allocated (slot m' k) ≡ true → under_top k m'.fd_top ≡ true
  under' k e = elim (Bool-cases (is_top fd m.fd_top)) [
    | inl top ↦
        subst (λ o. under_top k o ≡ true) (sym (if_then _ _ m.fd_top top))
          (under-lowered (is_top-some fd m.fd_top top) k e)
    | inr lower ↦
        subst (λ o. under_top k o ≡ true) (sym (if_else _ _ m.fd_top lower))
          (w.under k (used-before k e).1)
  ]

  tight' : (top : ℕ) → m'.fd_top ≡ some top → handle_allocated (slot m' top) ≡ true
  tight' top e = elim (Bool-cases (is_top fd m.fd_top)) [
    | inl was ↦
        (lower_top-some (set m.slots fd cleared) fd top (sym (if_then _ _ m.fd_top was) ∙ e)).1
    | inr lower ↦
        let same : m.fd_top ≡ some top = sym (if_else _ _ m.fd_top lower) ∙ e in
        ap handle_allocated (cleared-slot_ne m fd top (is_top-other fd top m.fd_top same lower))
        ∙ w.tight top same
  ]

  pub cleared-IsWell : IsWell m'
  cleared-IsWell = record {
    sized = length-set m.slots fd cleared ∙ w.sized;
    named = named';
    under = under';
    tight = tight';
  }

  cleared-entry : (k : ℕ) → get_fd_entry k m' ≡ (if fd == k then none else get_fd_entry k m)
  cleared-entry k = get_fd_entry-slot m' k cleared-IsWell ∙ elim (Bool-cases (fd == k)) [
    | inl same ↦ ap fd_entry (slot-cleared k (ground (arith, same))) ∙ sym (if_then _ none _ same)
    | inr other ↦
        ap fd_entry (cleared-slot_ne m fd k (ground (arith, other)))
        ∙ sym (get_fd_entry-slot m k w)
        ∙ sym (if_else _ none _ other)
  ]

-- What `detach_fd_handle` does to the table as a map.
pub record IsDetached (fd : ℕ) (m : HandleMap) (r : Option (ℕ × ℕ) × HandleMap) : Type 0 where
  pub found : r.0 ≡ get_fd_entry fd m
  pub well : IsWell r.1
  pub entry : (k : ℕ) → get_fd_entry k r.1 ≡ (if fd == k then none else get_fd_entry k m)

unused-IsDetached :
    (fd : ℕ) (m : HandleMap)
    → IsWell m
    → handle_allocated (slot m fd) ≡ false
    → IsDetached fd m (none, m)
unused-IsDetached fd m w free = record {
  found = sym (fd_entry-none (slot m fd) free) ∙ sym (get_fd_entry-slot m fd w);
  well = w;
  entry = λ k. elim (Bool-cases (fd == k)) [
    | inl same ↦
        subst (λ i. get_fd_entry i m ≡ none) (ground (arith, same))
          (get_fd_entry-slot m fd w ∙ fd_entry-none (slot m fd) free)
        ∙ sym (if_then _ none _ same)
    | inr other ↦ sym (if_else _ none _ other)
  ];
}

used-IsDetached :
    (fd : ℕ) (m : HandleMap) (vfd : Option ℕ) (flags handle : ℕ)
    → IsWell m
    → slot m fd ≡ some (record { vfd = vfd; flags = flags; handle = handle })
    → (vfd ≡ none) ⊎ (vfd ≡ some fd)
    → IsDetached fd m
        (detach_slot fd (some (record { vfd = vfd; flags = flags; handle = handle })) m)
unfolding detach_slot
used-IsDetached fd m none flags handle w e n = unused-IsDetached fd m w (ap handle_allocated e)
used-IsDetached fd m (some v) flags handle w e (inl n) = ground (arith, n)
used-IsDetached fd m (some v) flags handle w e (inr n) =
    let used : handle_allocated (slot m fd) ≡ true = ap handle_allocated e in
    subst
      (λ i. IsDetached fd m (
        some (handle, flags),
        record m {
          fd_top = if is_top i m.fd_top then lower_top (set m.slots fd cleared) i else m.fd_top;
          slots = set m.slots fd cleared;
        },
      ))
      (sym (some_inj v fd n))
      (record {
        found = sym (get_fd_entry-slot m fd w ∙ ap fd_entry e);
        well = cleared-IsWell m fd w used;
        entry = cleared-entry m fd w used;
      })

-- On a well-formed table, detaching a number answers what a lookup of it answers; afterwards the
-- table is well formed, a lookup of the number finds nothing, and every other lookup is as before.
pub detach_fd_handle-IsDetached :
    (fd : ℕ) (m : HandleMap) → IsWell m → IsDetached fd m (detach_fd_handle fd m)
unfolding detach_fd_handle detach_slot
detach_fd_handle-IsDetached fd m w = elim (Bool-cases (ltb fd m.fd_size)) [
  | inl inside ↦
      subst (IsDetached fd m) (sym (if_then _ (detach_slot fd (slot m fd) m) (none, m) inside))
        (elim (Option-cases (slot m fd)) [
          | inl unused ↦
              subst (λ o. IsDetached fd m (detach_slot fd o m)) (sym unused)
                (unused-IsDetached fd m w (ap handle_allocated unused))
          | inr (f, e) ↦
              subst (λ o. IsDetached fd m (detach_slot fd o m)) (sym e)
                (used-IsDetached fd m f.vfd f.flags f.handle w e (w.named fd f e))
        ])
  | inr outside ↦
      subst (IsDetached fd m) (sym (if_else _ (detach_slot fd (slot m fd) m) (none, m) outside)) (
        unused-IsDetached fd m w
          (ap handle_allocated (get_or-out m.slots fd none (ground (arith, outside, w.sized)))))
]
