-- ===== src/Heap/Release.antt =====
-- `free_enclave_pages` on a well-formed heap.
use graphene.Base.{
  ℕ, ◌+◌, ◌-◌, ◌≤◌, ◌<◌, ◌≡◌, refl, Bool, true, false, ◌&&◌, ◌⊎◌, inl, inr, Option, none, some,
  List, ◌∷◌, ltb, leb, if◌then◌else◌, length, min, max, arith, Bool-cases,
}
use graphene.Heap.{HeapVma, Limits}
use graphene.Heap.View.{
  owner_at, IsDescending, IsDescending-raise, owner_at-above, internal_size, total_size,
}
use graphene.Heap.Free.{Freeing, upper_part, lower_part, keep_area, cut_area, stop_at}

-- What is left of an owner when a range is given back.
abbrev pub released : ℕ → ℕ → Option Bool → ℕ → Option Bool
released addr end before a = if leb addr a && ltb a end then none else before

-- The loop has given back a range whose areas are all of one type.
pub record IsReleased (lo hi addr end : ℕ) (k : Bool) (vmas : List HeapVma) (num : ℕ)
    (kind : Option Bool) (freed : ℕ) (r : Freeing) : Type 0 where
  pub ret : r.ret ≡ none
  pub descending : IsDescending lo hi r.vmas
  pub owner : (a : ℕ) → owner_at r.vmas a ≡ released addr end (owner_at vmas a) a
  pub count : r.num + length vmas ≡ num + length r.vmas
  pub grows : freed ≤ r.freed
  pub space : internal_size r.vmas + (if k then r.freed - freed else 0) ≡ internal_size vmas
  pub total : total_size r.vmas + (r.freed - freed) ≡ total_size vmas
  pub known : (r.kind ≡ some k) ⊎ ((r.kind ≡ none) × (kind ≡ none) × (r.freed ≡ freed))

-- The loop has met no area of the other type.
abbrev pub Known : Bool → Option Bool → Type 0
Known k kind = (kind ≡ some k) ⊎ (kind ≡ none)

cut-IsDescending :
    (lo hi addr end : ℕ) (v : HeapVma) (vmas : List HeapVma)
    → v.top ≤ hi
    → v.bottom < v.top
    → v.bottom < end
    → addr < v.top
    → addr < end
    → IsDescending lo v.bottom vmas
    → IsDescending lo hi (upper_part end v (lower_part addr v vmas))
cut-IsDescending lo hi addr end v vmas t p q r s d = elim (Bool-cases (leb v.top end)) [
  | inl whole ↦ elim (Bool-cases (ltb v.bottom addr)) [
    | inl part ↦ rw whole (rw part (omega arith, ground (arith, part), d))
    | inr under ↦ rw whole (rw under (IsDescending-raise lo v.bottom hi vmas d (omega arith)))
  ]
  | inr over ↦ elim (Bool-cases (ltb v.bottom addr)) [
    | inl part ↦ rw over (rw part (t, ground (arith, over), (omega arith, ground (arith, part), d)))
    | inr under ↦ rw over (
        rw under (t, ground (arith, over), IsDescending-raise lo v.bottom end vmas d (omega arith)))
  ]
]

owner_at-cut :
    (lo hi addr end : ℕ) (v : HeapVma) (vmas vmas' : List HeapVma)
    → v.bottom < v.top
    → v.bottom < end
    → addr < v.top
    → addr < end
    → (a : ℕ) → (v.bottom ≤ a → owner_at vmas' a ≡ none)
    → (v.bottom ≤ a → owner_at vmas a ≡ none)
    → owner_at vmas' a ≡ released addr end (owner_at vmas a) a
    → owner_at (upper_part end v (lower_part addr v vmas')) a
      ≡ released addr end (owner_at (v ∷ vmas) a) a
unfolding owner_at
owner_at-cut lo hi addr end v vmas vmas' p q r s a n n' e = ground (arith, e, n, n')

length-cut :
    (l : Limits) (addr end : ℕ) (v : HeapVma) (vmas : List HeapVma)
    → length (upper_part end v (lower_part addr v vmas))
      ≡ (if leb v.top end then 0 else 1) + ((if ltb v.bottom addr then 1 else 0) + length vmas)
length-cut l addr end v vmas = ground arith

internal_size-cut :
    (addr end : ℕ) (v : HeapVma) (vmas : List HeapVma)
    → v.bottom < v.top
    → v.bottom < end
    → addr < v.top
    → addr < end
    → internal_size (upper_part end v (lower_part addr v vmas))
        + (if v.is_pal_internal then min v.top end - max v.bottom addr else 0)
      ≡ internal_size (v ∷ vmas)
unfolding internal_size
internal_size-cut addr end v vmas p q r s = ground arith

total_size-cut :
    (addr end : ℕ) (v : HeapVma) (vmas : List HeapVma)
    → v.bottom < v.top
    → v.bottom < end
    → addr < v.top
    → addr < end
    → total_size (upper_part end v (lower_part addr v vmas)) + (min v.top end - max v.bottom addr)
      ≡ total_size (v ∷ vmas)
unfolding total_size
total_size-cut addr end v vmas p q r s = ground arith

-- The PAL-internal bytes that a step gives back, and the later ones.
cut_space :
    (k k' : Bool) (cut here after before rest rest' own : ℕ)
    → k' ≡ k
    → before + here ≤ after
    → rest' + (if k then after - (before + here) else 0) ≡ rest
    → cut + (if k' then here else 0) ≡ own + rest'
    → cut + (if k then after - before else 0) ≡ own + rest
cut_space true k' cut here after before rest rest' own e h p q = ground (arith, e, p, q)
cut_space false k' cut here after before rest rest' own e h p q = ground (arith, e, p, q)

module _ (l : Limits) (addr end : ℕ) (k : Bool) (lt : addr < end) where
  -- The four steps of the loop.
  pub keep-IsReleased :
      (lo hi : ℕ) (v : HeapVma) (vmas : List HeapVma) (num : ℕ) (kind : Option Bool) (freed : ℕ)
      (r : Freeing)
      → IsDescending lo hi (v ∷ vmas)
      → end ≤ v.bottom
      → IsReleased lo v.bottom addr end k vmas num kind freed r
      → IsReleased lo hi addr end k (v ∷ vmas) num kind freed (keep_area v r)
  unfolding owner_at internal_size total_size
  keep-IsReleased lo hi v vmas num kind freed r d h ih = record {
    ret = ih.ret;
    descending = (d.0, d.1, ih.descending);
    owner = λ a. ground (arith, ih.owner a);
    count = omega (arith, ih.count);
    grows = ih.grows;
    space = omega (arith, ih.space);
    total = omega (arith, ih.total);
    known = ih.known;
  }

  pub stop-IsReleased :
      (lo hi : ℕ) (vmas : List HeapVma) (num : ℕ) (kind : Option Bool) (freed : ℕ)
      → IsDescending lo hi vmas
      → ((a : ℕ) → addr ≤ a → owner_at vmas a ≡ none)
      → Known k kind
      → IsReleased lo hi addr end k vmas num kind freed (stop_at none vmas num kind freed)
  stop-IsReleased lo hi vmas num kind freed d h e = record {
    ret = refl;
    descending = d;
    owner = λ a. ground (arith, h a);
    count = refl;
    grows = omega arith;
    space = ground arith;
    total = omega arith;
    known = elim e [ inl e' ↦ inl e' | inr e' ↦ inr (e', e', refl) ];
  }

  pub cut-IsReleased :
      (lo hi : ℕ) (v : HeapVma) (vmas : List HeapVma) (num num' : ℕ) (kind : Option Bool)
      (freed : ℕ) (r : Freeing)
      → IsDescending lo hi (v ∷ vmas)
      → v.bottom < end
      → addr < v.top
      → v.is_pal_internal ≡ k
      → num' + (if leb v.top end then 1 else 0) ≡ num + (if ltb v.bottom addr then 1 else 0)
      → IsReleased lo v.bottom addr end k vmas num'
          (some v.is_pal_internal)
          (freed + (min v.top end - max v.bottom addr))
          r
      → IsReleased lo hi addr end k (v ∷ vmas) num kind freed (cut_area addr end v r)
  unfolding internal_size total_size
  cut-IsReleased lo hi v vmas num num' kind freed r d p q e n ih = record {
    ret = ih.ret;
    descending = cut-IsDescending lo hi addr end v r.vmas d.0 d.1 p q lt ih.descending;
    owner = λ a.
        owner_at-cut lo hi addr end v vmas r.vmas d.1 p q lt a
          (owner_at-above lo v.bottom a r.vmas ih.descending)
          (owner_at-above lo v.bottom a vmas d.2) (ih.owner a);
    count = ground (arith, length-cut l addr end v r.vmas, ih.count, n);
    grows = omega (arith, ih.grows);
    space =
        cut_space k v.is_pal_internal _ (min v.top end - max v.bottom addr) r.freed freed _ _ _ e
          ih.grows ih.space (internal_size-cut addr end v r.vmas d.1 p q lt);
    total = omega (arith, ih.total, ih.grows, total_size-cut addr end v r.vmas d.1 p q lt);
    known = elim ih.known [ inl e' ↦ inl e' | inr e' ↦ ground (arith, e'.1) ];
  }
