-- ===== src/Heap/Cursor.antt =====
-- A place in the list of areas, and what a granted request is.
use mathlib.Core.Bool.{xor}
use graphene.Base.{
  ℕ, ◌+◌, ◌-◌, ◌^◌, ◌≤◌, ◌<◌, ◌≡◌, refl, sym, ap, Bool, true, false, not, ◌&&◌, ◌||◌, ltb-false,
  Option, none, some, List, ltb, leb, if◌then◌else◌, length, ◌∙◌, arith, ◌/◌,
}
use graphene.Heap.{HeapVma, Limits, Heap, Reply, pages, onto, add_ptr}
use graphene.Heap.View.{
  owner_at, IsDescending, IsAscending, total_size, or_else, IsWell, owner_at-onto, length-onto,
}
use graphene.Heap.Merge.Below.{Starts}

-- A cursor in front of the first area that begins below an address; `at` separates the two sides.
pub record IsCursor (l : Limits) (h : Heap) (addr at : ℕ) (above below : List HeapVma)
    : Type 0 where
  pub list : onto above below ≡ h.vmas
  pub ascending : IsAscending at l.heap_top above
  pub descending : IsDescending l.heap_bottom at below
  pub starts : Starts addr below
  pub behind : addr ≤ at

-- An area of nobody or of the wanted type.
abbrev pub suits : Bool → Option Bool → Bool
suits internal none = true
suits internal (some b) = not (xor b internal)

-- What each address belongs to after a request for a range has been granted.
abbrev pub granted : ℕ → ℕ → Bool → Option Bool → ℕ → Option Bool
granted addr end internal before a = if leb addr a && ltb a end then some internal else before

-- A granted request: the address, and a well-formed heap in which exactly the range has changed
-- hands, and the count of pages has grown by those by which the areas have.
pub record IsGranted (l : Limits) (addr end : ℕ) (internal : Bool) (h : Heap) (r : Reply × Heap)
    : Type 0 where
  pub reply : r.0 ≡ pages addr
  pub unlocked : r.1.locked ≡ h.locked
  pub well : IsWell l r.1
  pub owner : (a : ℕ) → owner_at r.1.vmas a ≡ granted addr end internal (owner_at h.vmas a) a
  pub grows : total_size h.vmas ≤ total_size r.1.vmas
  pub allocated :
      r.1.allocated_pages
      ≡ h.allocated_pages + (total_size r.1.vmas - total_size h.vmas) / l.page_size

pub in_limit :
    (internal : Bool) (room n : ℕ) → (internal ≡ true → n ≤ room) → (internal && ltb room n) ≡ false
in_limit true room n f = ltb-false {a = room} {b = n} (f refl)
in_limit false room n f = refl

pub or-false : {x y : Bool} → x ≡ false → y ≡ false → (x || y) ≡ false
or-false p q = rw (p, q) refl

pub add_ptr-small : (a b : ℕ) → a + b < 2 ^ 64 → add_ptr a b ≡ a + b
add_ptr-small a b h = omega arith

pub length-cursor :
    (l : Limits) (h : Heap) (addr at : ℕ) (above below : List HeapVma)
    → IsWell l h
    → IsCursor l h addr at above below
    → h.vma_num ≡ length above + length below
length-cursor l h addr at above below w c =
    w.counted ∙ ap length (sym c.list) ∙ length-onto above below

pub owner_at-cursor :
    (l : Limits) (h : Heap) (addr at : ℕ) (above below : List HeapVma)
    → IsCursor l h addr at above below
    → (a : ℕ) → owner_at h.vmas a ≡ or_else (owner_at above a) (owner_at below a)
owner_at-cursor l h addr at above below c a =
    ap (λ vs. owner_at vs a) (sym c.list) ∙ owner_at-onto at l.heap_top a above below c.ascending

-- The owner of an address before and after a merge upwards, with the areas below put back.
pub glue :
    (c n k k' : Bool) (r a b : Option Bool)
    → (n ≡ true → c ≡ true)
    → (c ≡ true → r ≡ none)
    → (if c then some k' else r) ≡ (if n then some k else a)
    → or_else r (if c then some k' else b) ≡ (if n then some k else or_else a b)
glue true true k k' r a b p q e = rw (q refl) e
glue true false k k' r a b p q e = rw (q refl) (rw (sym e) refl)
glue false true k k' r a b p q e = ground (arith, p)
glue false false k k' r a b p q e = rw e refl

-- The bytes of the PAL-internal areas, counted through both merges.
pub count_internal :
    (k : Bool) (used size freed freed' a b r d : ℕ)
    → used ≡ a + b
    → freed' ≤ size
    → a + (if k then 0 else 0) ≡ r + (if k then freed else 0)
    → b + (if k then freed else 0) ≡ d + (if k then freed' else 0)
    → (if k then used + (size - freed') else used) ≡ r + ((if k then size else 0) + d)
count_internal true used size freed freed' a b r d e f p q = omega (arith, e, p, q)
count_internal false used size freed freed' a b r d e f p q = omega (arith, e, p, q)
