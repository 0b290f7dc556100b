-- ===== src/Handles/Stray.antt =====
-- The walk of execve over a table whose descriptors are all to be closed.
use graphene.Base.{
  ℕ, suc, zero, ◌+◌, ◌≤◌, ◌<◌, ◌≡◌, ◌≢◌, refl, sym, ap, ◌∙◌, subst, inl, inr, Bool, true, false,
  Option, none, some, List, ltb, ◌==◌, if◌then◌else◌, length, set, get_or, arith, Bool-cases, Errno,
  Option-cases, if_then, if_else, test_bit, length-set,
}
use graphene.Handles.{
  FdHandle, HandleMap, Counts, put_handle, handle_allocated, slot, under_top, lower_top, is_top,
  cleared, detach_slot,
}
use graphene.Handles.Table.{IsWell, below-suc, some_inj}
use graphene.Handles.Detach.{
  cleared_map, cleared-slot_ne, cleared-slot_self, allocated-lt, cleared-IsWell,
}
use graphene.Handles.Walk.{
  WalkReply, Next, strays, walked, top_number, walk_loop, visit, close_on_exec,
  close_cloexec_handle, walk_handle_map, loop-step, visit-free, empty-strays,
}

-- Every element in use is marked with FD_CLOEXEC.
abbrev pub closing : Option FdHandle → Bool
closing none = false
closing (some f) = test_bit 0 f.flags

abbrev pub AllClosing : HandleMap → Type 0
AllClosing m = (k : ℕ) → handle_allocated (slot m k) ≡ true → closing (slot m k) ≡ true

abbrev FreeBelow : HandleMap → ℕ → Type 0
FreeBelow m i = (k : ℕ) → k < i → handle_allocated (slot m k) ≡ false

lower_top-free :
    (slots : List (Option FdHandle)) (n : ℕ)
    → ((k : ℕ) → k < n → handle_allocated (get_or slots k none) ≡ false)
    → lower_top slots n ≡ none
unfolding lower_top
lower_top-free slots zero f = refl
lower_top-free slots (suc n) f =
    if_else (handle_allocated (get_or slots n none)) (some n) _ (f n (omega arith))
    ∙ lower_top-free slots n (λ k h. f k (omega arith))

visit-close :
    (i flags handle : ℕ) (v : Option ℕ) (m : HandleMap) (counts : Counts) (next : Next)
    → v ≡ some i
    → test_bit 0 flags ≡ true
    → visit close_on_exec i
        (some (record { vfd = v; flags = flags; handle = handle }))
        m
        counts
        next
      ≡ next (cleared_map i m) (put_handle handle counts)
unfolding close_on_exec detach_slot
visit-close i flags handle none m counts next e c = absurd (ground (arith, e))
visit-close i flags handle (some j) m counts next e c =
    ap
      (λ (r : Option Errno × HandleMap × Counts). elim r.0 [
        | none ↦ next r.1 r.2
        | some x ↦ walked (some x) r.1 r.2
      ])
      (if_then (test_bit 0 flags) _ (none, m, counts) c)
    ∙ ap
        (λ (j' : ℕ).
          next
            (record m {
              fd_top =
                  if is_top j' m.fd_top then lower_top (set m.slots i cleared) j' else m.fd_top;
              slots = set m.slots i cleared;
            })
            (put_handle handle counts))
        (some_inj j i e)

-- The handle of an element.
abbrev handle_of : Option FdHandle → ℕ
handle_of none = 0
handle_of (some f) = f.handle

visit-slot :
    (i : ℕ) (m : HandleMap) (counts : Counts) (next : Next)
    → IsWell m
    → handle_allocated (slot m i) ≡ true
    → AllClosing m
    → visit close_on_exec i (slot m i) m counts next
      ≡ next (cleared_map i m) (put_handle (handle_of (slot m i)) counts)
visit-slot i m counts next w used c = elim (Option-cases (slot m i)) [
  | inl e ↦ absurd (ground (arith, ap handle_allocated (sym e), used))
  | inr (f, e) ↦
      ap (λ o. visit close_on_exec i o m counts next) e
      ∙ visit-close i f.flags f.handle f.vfd m counts next
          (elim (w.named i f e) [
            | inl gone ↦ absurd (ground (arith, gone, ap handle_allocated (sym e), used))
            | inr name ↦ name
          ])
          (ap closing (sym e) ∙ c i used)
      ∙ ap (λ o. next (cleared_map i m) (put_handle (handle_of o) counts)) (sym e)
]

module _ (i : ℕ) (m : HandleMap) (w : IsWell m) (used : handle_allocated (slot m i) ≡ true) where
  abbrev m' : HandleMap
  m' = cleared_map i m

  freed-slot : handle_allocated (slot m' i) ≡ false
  freed-slot = ap handle_allocated (cleared-slot_self m i (allocated-lt m i used))

  freed-same : (k : ℕ) → i ≡ k → handle_allocated (slot m' k) ≡ false
  freed-same k e = subst (λ j. handle_allocated (slot m' j) ≡ false) e freed-slot

  freed-other : (k : ℕ) → handle_allocated (slot m k) ≡ false → handle_allocated (slot m' k) ≡ false
  freed-other k e = elim (Bool-cases (i == k)) [
    | inl same ↦ freed-same k (ground (arith, same))
    | inr other ↦ ap handle_allocated (cleared-slot_ne m i k (ground (arith, other))) ∙ e
  ]

  FreeBelow-next : FreeBelow m i → FreeBelow m' (suc i)
  FreeBelow-next f k h =
      below-suc (λ j. handle_allocated (slot m' j) ≡ false) i freed-slot k
        (λ less. freed-other k (f k less)) h

  AllClosing-next : AllClosing m → AllClosing m'
  AllClosing-next c k e = elim (Bool-cases (i == k)) [
    | inl same ↦ absurd (ground (arith, freed-same k (ground (arith, same)), e))
    | inr other ↦
        let same : slot m' k ≡ slot m k = cleared-slot_ne m i k (ground (arith, other)) in
        ap closing same ∙ c k (ap handle_allocated (sym same) ∙ e)
  ]

  emptied : m.fd_top ≡ some i → FreeBelow m i → (k : ℕ) → handle_allocated (slot m' k) ≡ false
  emptied top f k = elim (Bool-cases (ltb k (suc i))) [
    | inl low ↦ FreeBelow-next f k (ground (arith, low))
    | inr high ↦ freed-other k (elim (Bool-cases (handle_allocated (slot m k))) [
      | inl e ↦ absurd (ground (arith, high, subst (λ o. under_top k o ≡ true) top (w.under k e)))
      | inr e ↦ e
    ])
  ]

  top_gone : m.fd_top ≡ some i → FreeBelow m i → m'.fd_top ≡ none
  top_gone top f =
      if_then (is_top i m.fd_top) _ m.fd_top (ap (is_top i) top ∙ ground arith)
      ∙ lower_top-free (set m.slots i cleared) i (λ k h. freed-other k (f k h))

  top_stays : (t : ℕ) → m.fd_top ≡ some t → i < t → m'.fd_top ≡ some t
  top_stays t top h =
      if_else (is_top i m.fd_top) _ m.fd_top (ap (is_top i) top ∙ ground (arith, h)) ∙ top

top_used :
    (m : HandleMap)
    → IsWell m
    → (t : ℕ) → m.fd_top ≡ some t
    → (i : ℕ) → handle_allocated (slot m i) ≡ false
    → i ≢ t
top_used m w t top i free e =
    ground (arith, subst (λ j. handle_allocated (slot m j) ≡ true) (sym e) (w.tight t top), free)

-- From any number on, with nothing in use below it.
loop-strays :
    (n i t : ℕ) (m : HandleMap) (counts : Counts)
    → IsWell m
    → m.fd_top ≡ some t
    → i ≤ t
    → FreeBelow m i
    → AllClosing m
    → length m.slots < i + n
    → length m.slots ≤ 65535
    → walk_loop close_on_exec n i m counts ≡ strays
loop-strays zero i t m counts w top le f c fuel small =
    absurd (omega (arith, allocated-lt m t (w.tight t top)))
loop-strays (suc n) i t m counts w top le f c fuel small =
    let inside : t < length m.slots = allocated-lt m t (w.tight t top) in
    let under : i ≤ top_number m.fd_top = subst (λ o. i ≤ top_number o) (sym top) le in
    loop-step close_on_exec n i m counts under (omega arith)
    ∙ elim (Bool-cases (handle_allocated (slot m i))) [
      | inl used ↦
          let size : length (cleared_map i m).slots ≡ length m.slots =
            length-set m.slots i cleared in
          visit-slot i m counts _ w used c ∙ elim (Bool-cases (ltb i t)) [
            | inl less ↦
                loop-strays n (suc i) t (cleared_map i m) (put_handle (handle_of (slot m i)) counts)
                  (cleared-IsWell m i w used) (top_stays i m w used t top (ground (arith, less)))
                  (ground (arith, less)) (FreeBelow-next i m w used f)
                  (AllClosing-next i m w used c) (omega (arith, size)) (omega (arith, size))
            | inr last ↦
                let top' : m.fd_top ≡ some i = top ∙ ap some (ground (arith, last, le)) in
                empty-strays close_on_exec n (suc i) (cleared_map i m)
                  (put_handle (handle_of (slot m i)) counts) (top_gone i m w used top' f)
                  (emptied i m w used top' f) (omega (arith, size)) (omega (arith, size))
                  (omega (arith, size))
          ]
      | inr free ↦
          visit-free close_on_exec i (slot m i) m counts _ free
          ∙ loop-strays n (suc i) t m counts w top (omega (arith, top_used m w t top i free))
              (λ k h. below-suc (λ j. handle_allocated (slot m j) ≡ false) i free k (f k) h) c
              (omega arith) small
    ]

-- On a well-formed table with at least one descriptor in use, where each one in use is marked with
-- FD_CLOEXEC, the walk of execve reads behind the end of the array.
pub close_cloexec_handle-strays :
    (t : ℕ) (m : HandleMap) (counts : Counts)
    → IsWell m
    → m.fd_top ≡ some t
    → AllClosing m
    → length m.slots ≤ 65535
    → close_cloexec_handle m counts ≡ strays
unfolding close_cloexec_handle walk_handle_map
close_cloexec_handle-strays t m counts w top c small =
    ap
      (λ o. elim o as (λ x. WalkReply) [
        | none ↦ walked none m counts
        | some u ↦ walk_loop close_on_exec 65536 0 m counts
      ])
      top
    ∙ loop-strays 65536 0 t m counts w top (omega arith) (λ k h. absurd (omega arith)) c
        (omega arith) small
