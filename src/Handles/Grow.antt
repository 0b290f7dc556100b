-- ===== src/Handles/Grow.antt =====
-- Where a handle is put into the table: the array grows if it has to, and an element is filled.
use graphene.Base.{
  ℕ, suc, zero, ◌+◌, ◌-◌, ◌*◌, ◌≤◌, ◌<◌, ◌≡◌, refl, sym, ap, ◌∙◌, subst, inl, inr, true, Option,
  none, ◌++◌, leb, ◌==◌, if◌then◌else◌, length, get_or, take, replicate, arith, Bool-cases, if_then,
  if_else, length-append, length-replicate, length-take, max, ◌%◌, ◌^◌, leb-false,
}
use graphene.Handles.{
  FdHandle, HandleMap, handle_allocated, slot, under_top, enlarge_handle_map, double_size, new_size,
}
use graphene.Handles.Table.{IsWell, get_or-pad, take-all}

double_size-bounds :
    (fuel size fd : ℕ)
    → 0 < size
    → fd < size + fuel
    → (fd < double_size fuel size fd) × (double_size fuel size fd ≤ max size (2 * fd))
unfolding double_size
double_size-bounds zero size fd p h = (omega arith, omega arith)
double_size-bounds (suc fuel) size fd p h = elim (Bool-cases (leb size fd)) [
  | inl small ↦
      let (above, bound) = double_size-bounds fuel (2 * size) fd (omega arith) (omega arith) in
      subst (λ n. (fd < n) × (n ≤ max size (2 * fd))) (sym (if_then _ _ size small))
        (above, ground (arith, small, bound))
  | inr large ↦
      subst (λ n. (fd < n) × (n ≤ max size (2 * fd)))
        (sym (if_else _ (double_size fuel (2 * size) fd) size large))
        (ground (arith, large), omega arith)
]

new_size-bounds :
    (fd : ℕ) (m : HandleMap)
    → m.fd_size ≤ fd
    → (fd < new_size fd m) × (new_size fd m ≤ max 32 (2 * fd))
unfolding new_size
new_size-bounds fd m h =
    let start = if m.fd_size == 0 then 32 else m.fd_size in
    let pos : 0 < start = ground arith in
    let (above, bound) = double_size-bounds (suc fd) start fd pos (omega arith) in
    (above, ground (arith, bound))

enlarged-sized :
    (size : ℕ) (m : HandleMap)
    → length m.slots ≡ m.fd_size
    → m.fd_size ≤ size
    → size < 2 ^ 16
    → length (take m.fd_size m.slots ++ replicate (size - m.fd_size) none) ≡ size % 2 ^ 16
enlarged-sized size m e h k =
    let empty : Option FdHandle = none in
    length-append (take m.fd_size m.slots) (replicate (size - m.fd_size) none)
    ∙ omega (arith, length-take m.fd_size m.slots, length-replicate (size - m.fd_size) empty, e)

enlarged-slot :
    (size : ℕ) (m : HandleMap)
    → length m.slots ≡ m.fd_size
    → (k : ℕ)
    → get_or (take m.fd_size m.slots ++ replicate (size - m.fd_size) none) k none ≡ slot m k
enlarged-slot size m e k =
    get_or-pad (take m.fd_size m.slots) (size - m.fd_size) k none
    ∙ ap (λ xs. get_or xs k none) (take-all m.slots m.fd_size (omega (arith, e)))

-- A table with the same elements and the same highest descriptor.
IsWell-same :
    (m m' : HandleMap)
    → IsWell m
    → length m'.slots ≡ m'.fd_size
    → m'.fd_top ≡ m.fd_top
    → ((k : ℕ) → slot m' k ≡ slot m k)
    → IsWell m'
IsWell-same m m' w e t same = record {
  sized = e;
  named = λ k f p. w.named k f (sym (same k) ∙ p);
  under = λ k p.
      subst (λ o. under_top k o ≡ true) (sym t)
        (w.under k (ap handle_allocated (sym (same k)) ∙ p));
  tight = λ top p. ap handle_allocated (same top) ∙ w.tight top (sym t ∙ p);
}

pub enlarge_handle_map-IsWell :
    (fd : ℕ) (m : HandleMap)
    → IsWell m
    → m.fd_size ≤ fd
    → fd < 2 ^ 15
    → IsWell (enlarge_handle_map (new_size fd m) m)
      × (fd < (enlarge_handle_map (new_size fd m) m).fd_size)
      × ((enlarge_handle_map (new_size fd m) m).fd_top ≡ m.fd_top)
      × ((k : ℕ) → slot (enlarge_handle_map (new_size fd m) m) k ≡ slot m k)
unfolding enlarge_handle_map
enlarge_handle_map-IsWell fd m w h small =
    let (above, bound) = new_size-bounds fd m h in
    let size = new_size fd m in
    let grown : HandleMap = record m {
      fd_size = size % 2 ^ 16;
      slots = take m.fd_size m.slots ++ replicate (size - m.fd_size) none;
    } in
    subst
      (λ (m' : HandleMap).
        IsWell m' × (fd < m'.fd_size) × (m'.fd_top ≡ m.fd_top) × ((k : ℕ) → slot m' k ≡ slot m k))
      (sym (
        if_else (leb size m.fd_size) m grown
          (leb-false {a = size} {b = m.fd_size} (omega (arith, above, h)))))
      (
        IsWell-same m grown w
            (enlarged-sized size m w.sized (omega (arith, above, h)) (omega (arith, bound, small)))
            refl (enlarged-slot size m w.sized),
        omega (arith, above, bound, small),
        refl,
        enlarged-slot size m w.sized,
      )
