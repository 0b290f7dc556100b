-- ===== src/Handles/Walk.antt =====
-- `walk_handle_map`, and the walk with which execve closes descriptors, of
-- LibOS/shim/src/sys/shim_exec.c.
use graphene.Base.{
  ℕ, suc, zero, ◌+◌, ◌≤◌, ◌<◌, ◌≡◌, refl, sym, ap, ◌∙◌, subst, inl, inr, false, Option, none, some,
  List, [], ◌∷◌, ltb, leb, if◌then◌else◌, length, get_or, arith, Bool-cases, if_then, if_else,
  test_bit, Errno, get_elem?,
}
use graphene.Handles.{FdHandle, HandleMap, handle_allocated, slot, detach_slot, Counts, put_handle}

-- How a walk ends: with what the last callback answered, or with a read behind the array.
pub data WalkReply : Type 0 where
  walked : Option Errno → HandleMap → Counts → WalkReply
  strays : WalkReply

-- `map->fd_top` as a number: FD_NULL is 2 ^ 16 - 1.
abbrev pub top_number : Option ℕ → ℕ
top_number none = 65535
top_number (some top) = top

-- The callback gets the element, where it was found, the table and the counts of the handles.
abbrev pub Callback : Type 0
Callback = ℕ → FdHandle → HandleMap → Counts → Option Errno × HandleMap × Counts

abbrev pub Next : Type 0
Next = HandleMap → Counts → WalkReply

-- One round of the loop at an element, and the rounds after it.
abbrev pub visit : Callback → ℕ → Option FdHandle → HandleMap → Counts → Next → WalkReply
visit callback i none m counts next = next m counts
visit callback i (some f) m counts next =
    let (ret, m', counts') = callback i f m counts in
    if handle_allocated (some f)
    then elim ret [ none ↦ next m' counts' | some e ↦ walked (some e) m' counts' ]
    else next m counts

-- The loop, with fuel for the numbers of 16 bits that are left.
unfoldable pub walk_loop : Callback → ℕ → ℕ → HandleMap → Counts → WalkReply
walk_loop callback zero i m counts = walked none m counts
walk_loop callback (suc n) i m counts =
    let next = λ (m' : HandleMap) (counts' : Counts). walk_loop callback n (suc i) m' counts' in
    if leb i (top_number m.fd_top)
    then elim (get_elem? m.slots i) [ none ↦ strays | some o ↦ visit callback i o m counts next ]
    else walked none m counts

unfoldable pub walk_handle_map : Callback → HandleMap → Counts → WalkReply
unfolding walk_loop
walk_handle_map callback m counts = elim m.fd_top [
  | none ↦ walked none m counts
  | some top ↦ walk_loop callback 65536 0 m counts
]

-- `close_on_exec` (FD_CLOEXEC is bit 0) and `close_cloexec_handle`
unfoldable pub close_on_exec : ℕ → FdHandle → HandleMap → Counts → Option Errno × HandleMap × Counts
unfolding detach_slot
close_on_exec i f m counts =
    let (detached, m') = detach_slot i (some f) m in
    if test_bit 0 f.flags
    then (none, m', elim detached [ none ↦ counts | some found ↦ put_handle found.0 counts ])
    else (none, m, counts)

unfoldable pub close_cloexec_handle : HandleMap → Counts → WalkReply
unfolding walk_handle_map close_on_exec
close_cloexec_handle m counts = walk_handle_map close_on_exec m counts

get_elem?-get_or :
    {A : Type 0} (xs : List A) (i : ℕ) (d : A)
    → i < length xs
    → get_elem? xs i ≡ some (get_or xs i d)
get_elem?-get_or [] i d h = absurd (omega arith)
get_elem?-get_or (x ∷ xs) zero d h = refl
get_elem?-get_or (x ∷ xs) (suc i) d h = get_elem?-get_or xs i d (omega arith)

get_elem?-out : {A : Type 0} (xs : List A) (i : ℕ) → length xs ≤ i → get_elem? xs i ≡ none
get_elem?-out [] i h = refl
get_elem?-out (x ∷ xs) zero h = absurd (omega arith)
get_elem?-out (x ∷ xs) (suc i) h = get_elem?-out xs i (omega arith)

-- One round at an element of the array.
pub loop-step :
    (callback : Callback) (n i : ℕ) (m : HandleMap) (counts : Counts)
    → i ≤ top_number m.fd_top
    → i < length m.slots
    → walk_loop callback (suc n) i m counts
      ≡ visit callback i (slot m i) m counts (λ m' counts'. walk_loop callback n (suc i) m' counts')
unfolding walk_loop
loop-step callback n i m counts h k =
    if_then (leb i (top_number m.fd_top)) _ (walked none m counts) (ground (arith, h))
    ∙ ap
        (λ o. elim o [
          | none ↦ strays
          | some o' ↦
              visit callback i o' m counts (λ m' counts'. walk_loop callback n (suc i) m' counts')
        ])
        (get_elem?-get_or m.slots i none k)

loop-end :
    (callback : Callback) (n i : ℕ) (m : HandleMap) (counts : Counts)
    → i ≤ top_number m.fd_top
    → length m.slots ≤ i
    → walk_loop callback (suc n) i m counts ≡ strays
unfolding walk_loop
loop-end callback n i m counts h k =
    if_then (leb i (top_number m.fd_top)) _ (walked none m counts) (ground (arith, h))
    ∙ ap
        (λ o. elim o [
          | none ↦ strays
          | some o' ↦
              visit callback i o' m counts (λ m' counts'. walk_loop callback n (suc i) m' counts')
        ])
        (get_elem?-out m.slots i k)

pub visit-free :
    (callback : Callback) (i : ℕ) (o : Option FdHandle) (m : HandleMap) (counts : Counts)
    (next : Next)
    → handle_allocated o ≡ false
    → visit callback i o m counts next ≡ next m counts
visit-free callback i none m counts next e = refl
visit-free callback i (some f) m counts next e =
    if_else (handle_allocated (some f)) _ (next m counts) e

-- An empty table is walked to its end and beyond.
pub empty-strays :
    (callback : Callback) (n i : ℕ) (m : HandleMap) (counts : Counts)
    → m.fd_top ≡ none
    → ((k : ℕ) → handle_allocated (slot m k) ≡ false)
    → i ≤ length m.slots
    → length m.slots < i + n
    → length m.slots ≤ 65535
    → walk_loop callback n i m counts ≡ strays
empty-strays callback zero i m counts t free p q r = absurd (omega arith)
empty-strays callback (suc n) i m counts t free p q r =
    let top : i ≤ top_number m.fd_top = subst (λ o. i ≤ top_number o) (sym t) (omega arith) in
    elim (Bool-cases (ltb i (length m.slots))) [
      | inl inside ↦
          loop-step callback n i m counts top (ground (arith, inside))
          ∙ visit-free callback i (slot m i) m counts _ (free i)
          ∙ empty-strays callback n (suc i) m counts t free (ground (arith, inside)) (omega arith) r
      | inr outside ↦ loop-end callback n i m counts top (ground (arith, outside))
    ]
