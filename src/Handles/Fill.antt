-- ===== src/Handles/Fill.antt =====
-- An element of the table is filled.
use graphene.Base.{
  ℕ, ◌<◌, ◌≡◌, ◌≢◌, refl, sym, ap, ◌∙◌, subst, ◌⊎◌, inl, inr, true, not, Option, none, some, ltb,
  leb, ◌==◌, if◌then◌else◌, set, arith, Bool-cases, if_then, if_else, length-set, ◌^◌, leb-false,
  enomem,
}
use graphene.Handles.{
  FdHandle, HandleMap, handle_allocated, slot, under_top, fd_entry, get_fd_entry, get_handle,
  Counts, SetReply, placed, refused, Memory, enlarge_handle_map, new_size, init_handle,
  place_handle, place_fd, raise_top,
}
use graphene.Handles.Table.{
  IsNamed, IsWell, get_or-set_self, get_or-set_ne, get_fd_entry-slot, some_inj,
}
use graphene.Handles.Grow.{enlarge_handle_map-IsWell}

under_top-raise :
    (k fd : ℕ) (o : Option ℕ) → under_top k o ≡ true → under_top k (raise_top fd o) ≡ true
under_top-raise k fd none e = ground (arith, e)
under_top-raise k fd (some t) e = ground (arith, e)

under_top-raise_self : (fd : ℕ) (o : Option ℕ) → under_top fd (raise_top fd o) ≡ true
under_top-raise_self fd none = ground arith
under_top-raise_self fd (some t) = ground arith

raise_top-cases : (fd t : ℕ) (o : Option ℕ) → raise_top fd o ≡ some t → (fd ≡ t) ⊎ (o ≡ some t)
raise_top-cases fd t none e = inl (some_inj fd t e)
raise_top-cases fd t (some u) e = elim (Bool-cases (ltb u fd)) [
  | inl more ↦ inl (some_inj fd t (sym (if_then _ (some fd) (some u) more) ∙ e))
  | inr less ↦ inr (sym (if_else _ (some fd) (some u) less) ∙ e)
]

-- A table in which a free element has been filled.
abbrev pub filled : ℕ → ℕ → ℕ → HandleMap → HandleMap
filled fd hdl flags m = record m {
  fd_top = raise_top fd m.fd_top;
  slots = set m.slots fd (some (record { vfd = some fd; flags = flags; handle = hdl }));
}

module _ (fd hdl flags : ℕ) (m : HandleMap) (w : IsWell m) (lt : fd < m.fd_size) where
  abbrev entry : FdHandle
  entry = record { vfd = some fd; flags = flags; handle = hdl }

  abbrev m' : HandleMap
  m' = filled fd hdl flags m

  filled-slot_self : (k : ℕ) → fd ≡ k → slot m' k ≡ some entry
  filled-slot_self k e =
      subst (λ i. slot m' i ≡ some entry) e
        (get_or-set_self m.slots fd (some entry) none (omega (arith, w.sized)))

  filled-slot_ne : (k : ℕ) → fd ≢ k → slot m' k ≡ slot m k
  filled-slot_ne k h = get_or-set_ne m.slots fd k (some entry) none h

  filled-IsNamed : (k : ℕ) → IsNamed k (slot m' k)
  filled-IsNamed k f e = elim (Bool-cases (fd == k)) [
    | inl same ↦
        let same' : fd ≡ k = ground (arith, same) in
        inr (
          sym (ap (λ (g : FdHandle). g.vfd) (some_inj entry f (sym (filled-slot_self k same') ∙ e)))
          ∙ ap some same')
    | inr other ↦ w.named k f (sym (filled-slot_ne k (ground (arith, other))) ∙ e)
  ]

  filled-under : (k : ℕ) → handle_allocated (slot m' k) ≡ true → under_top k m'.fd_top ≡ true
  filled-under k e = elim (Bool-cases (fd == k)) [
    | inl same ↦
        subst (λ i. under_top i m'.fd_top ≡ true) (ground (arith, same))
          (under_top-raise_self fd m.fd_top)
    | inr other ↦
        under_top-raise k fd m.fd_top
          (w.under k (ap handle_allocated (sym (filled-slot_ne k (ground (arith, other)))) ∙ e))
  ]

  filled-used :
      (k : ℕ)
      → (fd ≡ k) ⊎ (handle_allocated (slot m k) ≡ true)
      → handle_allocated (slot m' k) ≡ true
  filled-used k h = elim (Bool-cases (fd == k)) [
    | inl same ↦ ap handle_allocated (filled-slot_self k (ground (arith, same)))
    | inr other ↦ elim h [
      | inl e ↦ absurd (ground (arith, other, e))
      | inr e ↦ ap handle_allocated (filled-slot_ne k (ground (arith, other))) ∙ e
    ]
  ]

  filled-tight : (top : ℕ) → m'.fd_top ≡ some top → handle_allocated (slot m' top) ≡ true
  filled-tight top e = elim (raise_top-cases fd top m.fd_top e) [
    | inl same ↦ filled-used top (inl same)
    | inr old ↦ filled-used top (inr (w.tight top old))
  ]

  pub filled-IsWell : IsWell m'
  filled-IsWell = record {
    sized = length-set m.slots fd (some entry) ∙ w.sized;
    named = filled-IsNamed;
    under = filled-under;
    tight = filled-tight;
  }

  pub filled-entry :
      (k : ℕ) → get_fd_entry k m' ≡ (if fd == k then some (hdl, flags) else get_fd_entry k m)
  filled-entry k = get_fd_entry-slot m' k filled-IsWell ∙ elim (Bool-cases (fd == k)) [
    | inl same ↦ ap fd_entry (filled-slot_self k (ground (arith, same))) ∙ sym (if_then _ _ _ same)
    | inr other ↦
        ap fd_entry (filled-slot_ne k (ground (arith, other)))
        ∙ sym (get_fd_entry-slot m k w)
        ∙ sym (if_else _ _ _ other)
  ]

-- A handle has been put under a number, with a reference of its own; nothing else has changed.
pub record IsPlaced (fd hdl flags : ℕ) (m : HandleMap) (counts : Counts)
    (r : SetReply × HandleMap × Counts) : Type 0 where
  pub reply : r.0 ≡ placed fd
  pub well : IsWell r.1
  pub entry :
      (k : ℕ) → get_fd_entry k r.1 ≡ (if fd == k then some (hdl, flags) else get_fd_entry k m)
  pub counted : r.2 ≡ get_handle hdl counts

-- Both allocations succeed.
abbrev pub plenty : Memory
plenty = record { calloc = true; malloc = true }

reuse :
    (o : Option FdHandle) (m : HandleMap)
    → (elim o as (λ x. Option HandleMap) [ some f ↦ some m | none ↦ some m ]) ≡ some m
reuse none m = refl
reuse (some f) m = refl

init_handle-some :
    (fd hdl flags : ℕ) (m : HandleMap)
    → init_handle true fd hdl flags m
      ≡ some (record m {
        slots = set m.slots fd (some (record { vfd = some fd; flags = flags; handle = hdl }));
      })
unfolding init_handle
init_handle-some fd hdl flags m = reuse (slot m fd) _

place_handle-IsPlaced :
    (fd hdl flags : ℕ) (m : HandleMap) (counts : Counts)
    → IsWell m
    → fd < m.fd_size
    → IsPlaced fd hdl flags m counts (place_handle true fd hdl flags m counts)
unfolding place_handle
place_handle-IsPlaced fd hdl flags m counts w lt =
    subst (IsPlaced fd hdl flags m counts)
      (sym (
        if_else (not (ltb fd m.fd_size)) _ _ (ground (arith, lt))
        ∙ ap
            (λ (o : Option HandleMap). elim o as (λ x. SetReply × HandleMap × Counts) [
              | none ↦ (refused enomem, m, counts)
              | some m' ↦
                  (placed fd, record m' { fd_top = raise_top fd m.fd_top }, get_handle hdl counts)
            ])
            (init_handle-some fd hdl flags m)))
      (record {
        reply = refl;
        well = filled-IsWell fd hdl flags m w lt;
        entry = filled-entry fd hdl flags m w lt;
        counted = refl;
      })

-- The same, where the array may have to grow first.
IsPlaced-grown :
    (fd hdl flags : ℕ) (m m' : HandleMap) (counts : Counts) (r : SetReply × HandleMap × Counts)
    → IsWell m
    → IsWell m'
    → ((k : ℕ) → slot m' k ≡ slot m k)
    → IsPlaced fd hdl flags m' counts r
    → IsPlaced fd hdl flags m counts r
IsPlaced-grown fd hdl flags m m' counts r w w' same p = record {
  reply = p.reply;
  well = p.well;
  entry = λ k.
      p.entry k
      ∙ ap (λ o. if fd == k then some (hdl, flags) else o)
          (get_fd_entry-slot m' k w' ∙ ap fd_entry (same k) ∙ sym (get_fd_entry-slot m k w));
  counted = p.counted;
}

pub place_fd-IsPlaced :
    (limit fd hdl flags : ℕ) (m : HandleMap) (counts : Counts)
    → IsWell m
    → fd < limit
    → fd < 2 ^ 15
    → IsPlaced fd hdl flags m counts (place_fd limit plenty fd hdl flags m counts)
unfolding place_fd
place_fd-IsPlaced limit fd hdl flags m counts w lt small = elim (Bool-cases (ltb fd m.fd_size)) [
  | inl inside ↦
      subst (IsPlaced fd hdl flags m counts)
        (sym (
          if_else (leb limit fd) _ _ (leb-false {a = limit} {b = fd} lt)
          ∙ if_then (ltb fd m.fd_size) _ _ inside))
        (place_handle-IsPlaced fd hdl flags m counts w (ground (arith, inside)))
  | inr outside ↦
      let (w', lt', top, same) = enlarge_handle_map-IsWell fd m w (ground (arith, outside)) small in
      subst (IsPlaced fd hdl flags m counts)
        (sym (
          if_else (leb limit fd) _ _ (leb-false {a = limit} {b = fd} lt)
          ∙ if_else (ltb fd m.fd_size) _ _ outside))
        (IsPlaced-grown fd hdl flags m (enlarge_handle_map (new_size fd m) m) counts _ w w' same
          (place_handle-IsPlaced fd hdl flags (enlarge_handle_map (new_size fd m) m) counts w' lt'))
]
