-- ===== src/Brk/Bounds.antt =====
-- The break stays inside its region and under the limit.
use graphene.Base.{
  ℕ, ◌+◌, ◌-◌, ◌%◌, ◌^◌, ◌≤◌, ◌<◌, ◌≡◌, refl, sym, ◌∙◌, ◌⊎◌, inl, inr, Bool, false, ◌||◌, ltb, leb,
  ◌==◌, Result, ok, err, arith, Bool-cases, if_then, if_else, if_both, subst,
}
use graphene.Vma.Space.{Config, Space}
use graphene.Brk.{
  BrkRegion, BrkReply, returns, bug, Supplies, align_up_ptr, answer, moved, unless_err, shrink_brk,
  undo_grow, grow_brk, shim_do_brk,
}

-- The break lies inside its region, which ends at a page boundary inside the address space.
pub record IsWell (cfg : Config) (b : BrkRegion) : Type 0 where
  pub page : cfg.align ≡ 4096
  pub start : b.brk_start ≤ b.brk_current
  pub end : b.brk_current ≤ b.brk_end
  pub aligned : b.brk_end % 4096 ≡ 0
  pub word : b.brk_end + 4096 ≤ 2 ^ 64

-- An answer: the new break, which is the one that was asked for or the old one, in the same region,
-- well formed, and above the pages of the old break only if the limit allows its pages.
pub record Answers (cfg : Config) (limit brk : ℕ) (b : BrkRegion) (p : ℕ) (b' : BrkRegion)
    : Type 0 where
  pub current : p ≡ b'.brk_current
  pub either : (p ≡ brk) ⊎ (p ≡ b.brk_current)
  pub same_start : b'.brk_start ≡ b.brk_start
  pub same_end : b'.brk_end ≡ b.brk_end
  pub well : IsWell cfg b'
  pub limited : align_up_ptr cfg b.brk_current < p → (p - b.brk_start) + b.data_segment_size ≤ limit

-- The call answers so, or it ends in `BUG()`.
abbrev pub IsAnswer : Config → ℕ → ℕ → BrkRegion → BrkReply → Type 0
IsAnswer cfg limit brk b (returns p b' s) = Answers cfg limit brk b p b'
IsAnswer cfg limit brk b bug = 0 ≤ limit

under_limit :
    (limit used aligned start brk : ℕ)
    → (ltb limit used || ltb (limit - used) (aligned - start)) ≡ false
    → brk ≤ aligned
    → start ≤ brk
    → (brk - start) + used ≤ limit
under_limit limit used aligned start brk e h k = ground (arith, e)

module _ (cfg : Config) (limit brk : ℕ) (b : BrkRegion) (w : IsWell cfg b) where
  abbrev page_end : ℕ
  page_end = align_up_ptr cfg b.brk_current

  pub page_up :
      (p : ℕ) → p ≤ b.brk_end → (p ≤ align_up_ptr cfg p) × (align_up_ptr cfg p ≤ b.brk_end)
  page_up p h = rw (w.page) (omega (arith, w.aligned, w.word), omega (arith, w.aligned, w.word))

  stay : (s : Space) → IsAnswer cfg limit brk b (answer b s)
  stay s = record {
    current = refl;
    either = inr refl;
    same_start = refl;
    same_end = refl;
    well = w;
    limited = λ h. absurd (omega (arith, page_up b.brk_current w.end));
  }

  move :
      (s : Space)
      → b.brk_start ≤ brk
      → brk ≤ b.brk_end
      → (page_end < brk → (brk - b.brk_start) + b.data_segment_size ≤ limit)
      → IsAnswer cfg limit brk b (answer (moved brk b) s)
  move s lo hi f = record {
    current = refl;
    either = inl refl;
    same_start = refl;
    same_end = refl;
    well = record { page = w.page; start = lo; end = hi; aligned = w.aligned; word = w.word };
    limited = f;
  }

  unless_err-IsAnswer :
      (r : Result (Unit {0}) × Space) (good bad : Space → BrkReply)
      → ((s : Space) → IsAnswer cfg limit brk b (good s))
      → ((s : Space) → IsAnswer cfg limit brk b (bad s))
      → IsAnswer cfg limit brk b (unless_err r good bad)
  unless_err-IsAnswer (ok x, s) good bad p q = p s
  unless_err-IsAnswer (err e, s) good bad p q = q s

  shrink_brk-IsAnswer :
      (supplies : Supplies) (s : Space)
      → b.brk_start ≤ brk
      → brk ≤ page_end
      → IsAnswer cfg limit brk b (shrink_brk cfg supplies brk b s)
  unfolding shrink_brk
  shrink_brk-IsAnswer supplies s lo hi =
      let below : (s' : Space) → IsAnswer cfg limit brk b (answer (moved brk b) s') =
        λ s'. move s' lo (omega (arith, page_up b.brk_current w.end)) (λ h. absurd (omega arith)) in
      if_both (IsAnswer cfg limit brk b) (page_end - align_up_ptr cfg brk == 0) _ _ (below s)
        (unless_err-IsAnswer _ (answer (moved brk b)) (answer b) below stay)

  undo_grow-IsAnswer :
      (supplies : Supplies) (s : Space) → IsAnswer cfg limit brk b (undo_grow cfg supplies b s)
  unfolding undo_grow
  undo_grow-IsAnswer supplies s =
      unless_err-IsAnswer _ (answer b) (λ s'. bug) stay (λ s'. omega arith)

  grow_brk-IsAnswer :
      (supplies : Supplies) (pal : Bool) (s : Space)
      → page_end < brk
      → brk ≤ b.brk_end
      → IsAnswer cfg limit brk b (grow_brk cfg supplies limit pal brk b s)
  unfolding grow_brk
  grow_brk-IsAnswer supplies pal s lo hi =
      elim (Bool-cases (
        ltb limit b.data_segment_size
        || ltb (limit - b.data_segment_size) (align_up_ptr cfg brk - b.brk_start))) [
          | inl over ↦
              subst (IsAnswer cfg limit brk b) (sym (if_then _ (answer b s) _ over)) (stay s)
          | inr fits ↦
              let lo' : b.brk_start ≤ brk = omega (arith, w.start, page_up b.brk_current w.end) in
              let room : (brk - b.brk_start) + b.data_segment_size ≤ limit =
                under_limit limit b.data_segment_size (align_up_ptr cfg brk) b.brk_start brk fits
                  (page_up brk hi).0 lo' in
              subst (IsAnswer cfg limit brk b) (sym (if_else _ (answer b s) _ fits)) (
                unless_err-IsAnswer _ _ (answer b)
                  (λ s'.
                    if_both (IsAnswer cfg limit brk b) pal (answer (moved brk b) s')
                      (undo_grow cfg supplies b s') (move s' lo' hi (λ h. room))
                      (undo_grow-IsAnswer supplies s'))
                  stay)
        ]

-- A call of brk on a well-formed region answers the new break, which is the requested one or the
-- old one; the region stays where it was, the break inside it, and a break above the pages of the
-- old one respects the limit on data. Or the call ends in `BUG()`.
pub shim_do_brk-IsAnswer :
    (cfg : Config) (supplies : Supplies) (limit : ℕ) (pal : Bool) (brk : ℕ) (b : BrkRegion)
    (s : Space)
    → IsWell cfg b
    → IsAnswer cfg limit brk b (shim_do_brk cfg supplies limit pal brk b s)
unfolding shim_do_brk
shim_do_brk-IsAnswer cfg supplies limit pal brk b s w = elim (Bool-cases (ltb brk b.brk_start)) [
  | inl under ↦
      subst (IsAnswer cfg limit brk b) (sym (if_then _ (answer b s) _ under))
        (stay cfg limit brk b w s)
  | inr lo ↦ elim (Bool-cases (leb brk (align_up_ptr cfg b.brk_current))) [
    | inl down ↦
        subst (IsAnswer cfg limit brk b)
          (sym (if_else _ (answer b s) _ lo ∙ if_then _ (shrink_brk cfg supplies brk b s) _ down))
          (shrink_brk-IsAnswer cfg limit brk b w supplies s (ground (arith, lo))
            (ground (arith, down)))
    | inr up ↦
        let path = if_else _ (answer b s) _ lo ∙ if_else _ (shrink_brk cfg supplies brk b s) _ up in
        elim (Bool-cases (ltb b.brk_end brk)) [
          | inl past ↦
              subst (IsAnswer cfg limit brk b) (sym (path ∙ if_then _ (answer b s) _ past))
                (stay cfg limit brk b w s)
          | inr inside ↦
              subst (IsAnswer cfg limit brk b)
                (sym
                  (path ∙ if_else _ (answer b s) (grow_brk cfg supplies limit pal brk b s) inside))
                (grow_brk-IsAnswer cfg limit brk b w supplies pal s (ground (arith, up))
                  (ground (arith, inside)))
        ]
  ]
]
