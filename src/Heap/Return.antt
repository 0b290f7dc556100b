-- ===== src/Heap/Return.antt =====
-- The loop of `free_enclave_pages`, where it succeeds.
pub mod Whole
use mathlib.Core.Bool.{xor}
use graphene.Base.{
  ℕ, suc, ◌+◌, ◌-◌, ◌^◌, ◌%◌, ◌≤◌, ◌<◌, ◌≡◌, refl, sym, ap, subst, Bool, true, false, not, ◌&&◌,
  ◌||◌, ◌⊎◌, inl, inr, Option, none, some, List, [], ◌∷◌, ltb, leb, ◌==◌, if◌then◌else◌, length,
  Errno, einval, enomem, min, max, ◌∙◌, arith, Bool-cases, if_then, if_else, ltb-false, lt→ltb,
}
use graphene.Heap.{HeapVma, Limits, Heap, add_ptr, align_up, access_ok, alloc_vma, free_vma}
use graphene.Heap.View.{
  covers, owner_at, IsDescending, IsWell, IsDescending-raise, IsDescending-le, owner_at-above,
  size_if, internal_size,
}
use graphene.Heap.Free.{
  Freeing, free_result, free_aligned, free_enclave_pages, is_internal_kind, upper_part, lower_part,
  keep_area, cut_area, stop_at, split_num, free_loop, mixes,
}
use graphene.Heap.Cursor.{suits}
use graphene.Heap.Release.{
  released, IsReleased, Known, keep-IsReleased, stop-IsReleased, cut-IsReleased,
}

-- Every address of the range belongs to nobody or to one type.
abbrev pub AllSuit : ℕ → ℕ → Bool → List HeapVma → Type 0
AllSuit addr end k vmas = (a : ℕ) → addr ≤ a → a < end → suits k (owner_at vmas a) ≡ true

-- A free object for a split, which only an area that begins in front of the range needs.
abbrev HasRoom : Limits → ℕ → ℕ → ℕ → Type 0
HasRoom l addr hi num = (num < l.max_vmas) ⊎ (hi ≤ addr)

suits-kind : (k b : Bool) → suits k (some b) ≡ true → b ≡ k
unfolding xor
suits-kind true true h = refl
suits-kind false false h = refl
suits-kind true false h = ground (arith, h)
suits-kind false true h = ground (arith, h)

mixes_same : (k b : Bool) (kind : Option Bool) → Known k kind → b ≡ k → mixes kind b ≡ false
unfolding xor
mixes_same k b none e q = refl
mixes_same true true (some true) e q = refl
mixes_same false false (some false) e q = refl
mixes_same true b (some false) e q = ground (arith, e)
mixes_same false b (some true) e q = ground (arith, e)
mixes_same true false (some c) e q = ground (arith, q)
mixes_same false true (some c) e q = ground (arith, q)

module _ (l : Limits) (addr end : ℕ) (k : Bool) (lt : addr < end) where
  AllSuit-tail :
      (lo : ℕ) (v : HeapVma) (vmas : List HeapVma)
      → IsDescending lo v.bottom vmas
      → v.bottom < v.top
      → AllSuit addr end k (v ∷ vmas)
      → AllSuit addr end k vmas
  unfolding owner_at
  AllSuit-tail lo v vmas d lt' f a p q =
      ground (arith, f a p q, owner_at-above lo v.bottom a vmas d)

  AllSuit-kind :
      (v : HeapVma) (vmas : List HeapVma)
      → v.bottom < end
      → addr < v.top
      → v.bottom < v.top
      → AllSuit addr end k (v ∷ vmas)
      → v.is_pal_internal ≡ k
  unfolding owner_at
  AllSuit-kind v vmas p q r f =
      suits-kind k v.is_pal_internal
        (ground (arith, f (max addr v.bottom) (omega arith) (omega arith)))

  abbrev split_count : HeapVma → ℕ → ℕ
  split_count v num = num + (if ltb v.bottom addr then 1 else 0)

  abbrev next_num : HeapVma → ℕ → ℕ
  next_num v num = if leb v.top end then free_vma num else num

  split_num-some :
      (v : HeapVma) (num : ℕ) → num < l.max_vmas → split_num l addr v num ≡ some (split_count v num)
  unfolding split_num alloc_vma
  split_num-some v num h = ground (arith, h)

  next_num-count :
      (v : HeapVma) (num : ℕ) → 0 < num → next_num v num + (if leb v.top end then 1 else 0) ≡ num
  next_num-count v num h = ground arith

  next_num-HasRoom :
      (v : HeapVma) (num : ℕ)
      → num < l.max_vmas
      → HasRoom l addr v.bottom (next_num v (split_count v num))
  next_num-HasRoom v num h = elim (Bool-cases (ltb v.bottom addr)) [
    | inl under ↦ inr (ground (arith, under))
    | inr over ↦ inl (ground (arith, over))
  ]

  has_room : (hi num : ℕ) → HasRoom l addr hi num → addr < hi → num < l.max_vmas
  has_room hi num (inl h) k = h
  has_room hi num (inr h) k = omega arith

  lower_room : (hi hi' num : ℕ) → HasRoom l addr hi num → hi' ≤ hi → HasRoom l addr hi' num
  lower_room hi hi' num (inl h) k = inl h
  lower_room hi hi' num (inr h) k = inr (omega arith)

  -- The step that cuts an area.
  cut-step :
      (v : HeapVma) (vmas : List HeapVma) (num : ℕ) (kind : Option Bool) (freed : ℕ)
      → leb end v.bottom ≡ false
      → leb v.top addr ≡ false
      → mixes kind v.is_pal_internal ≡ false
      → num < l.max_vmas
      → free_loop l addr end (v ∷ vmas) num kind freed
        ≡ cut_area addr end v (
            free_loop l addr end vmas
              (next_num v (split_count v num))
              (some v.is_pal_internal)
              (freed + (min v.top end - max v.bottom addr)))
  unfolding free_loop
  cut-step v vmas num kind freed p q r h =
      if_else (leb end v.bottom) _ _ p
      ∙ if_else (leb v.top addr) _ _ q
      ∙ if_else (mixes kind v.is_pal_internal) _ _ r
      ∙ ap
          (λ o. elim o [
            | none ↦
                stop_at (some enomem) (v ∷ vmas) num (some v.is_pal_internal)
                  (freed + (min v.top end - max v.bottom addr))
            | some num' ↦ cut_area addr end v (
                free_loop l addr end vmas (next_num v num') (some v.is_pal_internal)
                  (freed + (min v.top end - max v.bottom addr)))
          ])
          (split_num-some v num h)

  pub free_loop-IsReleased :
      (lo hi : ℕ) (vmas : List HeapVma) (num : ℕ) (kind : Option Bool) (freed : ℕ)
      → IsDescending lo hi vmas
      → AllSuit addr end k vmas
      → Known k kind
      → length vmas ≤ num
      → HasRoom l addr hi num
      → IsReleased lo hi addr end k vmas num kind freed (free_loop l addr end vmas num kind freed)
  unfolding free_loop
  free_loop-IsReleased lo hi [] num kind freed d f e n room =
      stop-IsReleased l addr end k lt lo hi [] num kind freed d
        (λ a h. owner_at-above 0 a a [] (omega arith) (omega arith)) e
  free_loop-IsReleased lo hi (v ∷ vmas) num kind freed d f e n room =
      elim (Bool-cases (leb end v.bottom)) [
        | inl behind ↦
            subst (IsReleased lo hi addr end k (v ∷ vmas) num kind freed)
              (sym (if_then _ _ _ behind))
              (keep-IsReleased l addr end k lt lo hi v vmas num kind freed _ d
                (ground (arith, behind))
                (free_loop-IsReleased lo v.bottom vmas num kind freed d.2
                  (AllSuit-tail lo v vmas d.2 d.1 f) e (omega arith)
                  (lower_room hi v.bottom num room (omega arith))))
        | inr near ↦ elim (Bool-cases (leb v.top addr)) [
          | inl before ↦
              subst (IsReleased lo hi addr end k (v ∷ vmas) num kind freed)
                (sym (if_else _ _ _ near ∙ if_then _ _ _ before))
                (stop-IsReleased l addr end k lt lo hi (v ∷ vmas) num kind freed d
                  (λ a h.
                    owner_at-above lo v.top a (v ∷ vmas) (omega arith, d.1, d.2)
                      (ground (arith, before)))
                  e)
          | inr meets ↦
              let same : v.is_pal_internal ≡ k =
                AllSuit-kind v vmas (ground (arith, near)) (ground (arith, meets)) d.1 f in
              let h : num < l.max_vmas = has_room hi num room (ground (arith, meets)) in
              subst (IsReleased lo hi addr end k (v ∷ vmas) num kind freed)
                (sym (
                  cut-step v vmas num kind freed near meets
                    (mixes_same k v.is_pal_internal kind e same) h))
                (cut-IsReleased l addr end k lt lo hi v vmas num (next_num v (split_count v num))
                  kind freed _ d (ground (arith, near)) (ground (arith, meets)) same
                  (next_num-count v (split_count v num) (omega arith))
                  (free_loop-IsReleased lo v.bottom vmas _ _ _ d.2
                    (AllSuit-tail lo v vmas d.2 d.1 f) (inl (ap some same)) (ground (arith, n))
                    (next_num-HasRoom v num h)))
        ]
      ]
