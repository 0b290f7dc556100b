-- ===== src/Handles/Wrap.antt =====
-- Where the size of the table leaves its sixteen bits.
use graphene.Base.{
  ℕ, suc, zero, ◌*◌, ◌≤◌, ◌<◌, ◌≡◌, ap, ◌∙◌, Bool, true, false, not, ◌&&◌, none, ltb, leb, ◌==◌,
  arith, if_then, if_else, ltb-false, leb-false,
}
use graphene.Handles.{
  HandleMap, handle_allocated, slot, under_top, Counts, aborts, enlarge_handle_map, new_size,
  double_size, place_handle, place_fd, set_new_fd_handle_by_fd,
}
use graphene.Handles.Table.{IsWell, get_or-out}

-- A size that becomes 2 ^ 16 when it is doubled so many times, as 32 does after eleven times.
abbrev pub Doubles : ℕ → ℕ → Type 0
Doubles zero size = size ≡ 65536
Doubles (suc j) size = Doubles j (2 * size)

Doubles-le : (j size : ℕ) → Doubles j size → size ≤ 65536
Doubles-le zero size e = omega (arith, e)
Doubles-le (suc j) size e = omega (arith, Doubles-le j (2 * size) e)

double_size-full :
    (j fuel size fd : ℕ)
    → Doubles j size
    → j ≤ fuel
    → 32768 ≤ fd
    → fd < 65536
    → double_size fuel size fd ≡ 65536
unfolding double_size
double_size-full zero zero size fd e h p q = e
double_size-full zero (suc fuel) size fd e h p q =
    if_else (leb size fd) _ size (leb-false {a = size} {b = fd} (omega (arith, e))) ∙ e
double_size-full (suc j) zero size fd e h p q = absurd (omega arith)
double_size-full (suc j) (suc fuel) size fd e h p q =
    if_then (leb size fd) _ size (ground (arith, Doubles-le j (2 * size) e))
    ∙ double_size-full j fuel (2 * size) fd e (omega arith) p q

-- The array has 2 ^ 16 elements, and its size reads as none.
full_size : (m : HandleMap) → m.fd_size < 65536 → (enlarge_handle_map 65536 m).fd_size ≡ 0
unfolding enlarge_handle_map
full_size m h =
    ap (λ (m' : HandleMap). m'.fd_size)
      (if_else (leb 65536 m.fd_size) m _ (leb-false {a = 65536} {b = m.fd_size} h))

full-aborts :
    (malloc : Bool) (fd hdl flags : ℕ) (m : HandleMap) (counts : Counts)
    → m.fd_size < 65536
    → place_handle malloc fd hdl flags (enlarge_handle_map 65536 m) counts
      ≡ (aborts, enlarge_handle_map 65536 m, counts)
unfolding place_handle
full-aborts malloc fd hdl flags m counts h =
    if_then (not (ltb fd (enlarge_handle_map 65536 m).fd_size)) _ _
      (ap (λ s. not (ltb fd s)) (full_size m h) ∙ ground arith)

-- On a well-formed table whose size becomes 2 ^ 16 by doubling, a request for a number below 65535
-- and at least 2 ^ 15, behind the array and under the limit, whose array is allocated, ends in the
-- failed assertion that the number is smaller than the size: the size of the new array reads as zero.
pub set_new_fd_handle_by_fd-aborts :
    (limit j fd hdl flags : ℕ) (malloc : Bool) (m : HandleMap) (counts : Counts)
    → IsWell m
    → 0 < m.fd_size
    → Doubles j m.fd_size
    → j ≤ 16
    → m.fd_size ≤ fd
    → 32768 ≤ fd
    → fd < 65535
    → fd < limit
    → ((set_new_fd_handle_by_fd limit
          (record { calloc = true; malloc = malloc })
          fd
          hdl
          flags
          m
          counts).0
        ≡ aborts)
      × ((set_new_fd_handle_by_fd limit
            (record { calloc = true; malloc = malloc })
            fd
            hdl
            flags
            m
            counts).1.fd_size
          ≡ 0)
unfolding set_new_fd_handle_by_fd place_fd new_size
set_new_fd_handle_by_fd-aborts limit j fd hdl flags malloc m counts w pos e le out low high lt =
    let unused : handle_allocated (slot m fd) ≡ false =
      ap handle_allocated (get_or-out m.slots fd none (omega (arith, w.sized))) in
    let path : set_new_fd_handle_by_fd limit (record { calloc = true; malloc = malloc }) fd hdl
          flags m counts
        ≡ (aborts, enlarge_handle_map 65536 m, counts) =
      (if_else (under_top fd m.fd_top && handle_allocated (slot m fd)) _ _ (ground (arith, unused))
        ∙ if_else (leb limit fd) _ _ (leb-false {a = limit} {b = fd} lt)
        ∙ if_else (ltb fd m.fd_size) _ _ (ltb-false {a = fd} {b = m.fd_size} out)
        ∙ ap (λ n. place_handle malloc fd hdl flags (enlarge_handle_map n m) counts)
            (ap (λ s. double_size (suc fd) s fd)
                (if_else (m.fd_size == 0) 32 m.fd_size (ground (arith, pos)))
              ∙ double_size-full j (suc fd) m.fd_size fd e (omega arith) low (omega arith)))
      ∙ full-aborts malloc fd hdl flags m counts (omega arith) in
    (ap (λ r. r.0) path, ap (λ r. r.1.fd_size) path ∙ full_size m (omega arith))
