-- ===== src/Path/Holds.antt =====
-- The loop of `get_norm_path` keeps the names that the tokens resolve to.
use graphene.Base.{
  ℕ, zero, suc, ◌+◌, ◌-◌, ◌≡◌, refl, Bool, true, false, not, ◌&&◌, ◌||◌, Option, some, List, [],
  ◌∷◌, ltb, length, ap, arith, Bool-cases, inl, inr, sym, ◌∙◌, subst, Result, ok, err, ok-injective,
}
use graphene.Path.{
  Norm, slash, dot, find_next_slash, find_prev_slash_offset, push_bytes, push_slash, is_dotdot,
  is_ignored, go_up, go_down, handle_token, next_round, norm_loop, to_nat,
}
use graphene.Path.Spec.{tokens, Names, pop, step, resolve}
use graphene.Path.Scan.{
  tokens_after, tokens-find_next_slash, has_slash, find_next_slash-token, find_prev-behind_slash,
  find_prev-alone, push_bytes-shape,
}

-- What is kept in front of the buffer: the slash of the root, or the names that lead up.
abbrev pub kept_bytes : Bool → ℕ → List ℕ
kept_bytes true ups = slash ∷ []
kept_bytes false zero = []
kept_bytes false (suc ups) =
    push_bytes (dot ∷ dot ∷ []) (push_slash (ltb 0 ups) (kept_bytes false ups))

-- A slash is due between the kept part and the first name.
abbrev pub leads : Bool → ℕ → Bool
leads absolute ups = not absolute && ltb 0 ups

abbrev pub is_some_name : List (List ℕ) → Bool
is_some_name [] = false
is_some_name (n ∷ ns) = true

abbrev pub due : Bool → List (List ℕ) → Bool
due lead stack = lead || is_some_name stack

abbrev pub stack_bytes : Bool → List (List ℕ) → List ℕ
stack_bytes lead [] = []
stack_bytes lead (n ∷ ns) = push_bytes n (push_slash (due lead ns) (stack_bytes lead ns))

-- A name that may be discarded again: not empty, no dots, no slash.
abbrev pub is_name : List ℕ → Bool
is_name n = not (is_dotdot n) && (not (is_ignored n) && not (has_slash n))

abbrev pub are_names : List (List ℕ) → Bool
are_names [] = true
are_names (n ∷ ns) = is_name n && are_names ns

pub or_true : (b : Bool) → b || true ≡ true
or_true true = refl
or_true false = refl

or_false : (b : Bool) → b || false ≡ b
or_false true = refl
or_false false = refl

leads-suc : (ups : ℕ) → due (leads false (suc ups)) [] ≡ true
leads-suc ups = ground arith

-- The variables of the loop hold the names.
pub record Holds (absolute : Bool) (n : Names) (s : Norm) : Type 0 where
  pub kept : s.kept ≡ kept_bytes absolute n.ups
  pub buf : s.buf ≡ stack_bytes (leads absolute n.ups) n.stack
  pub need : s.need_slash ≡ due (leads absolute n.ups) n.stack
  pub names : are_names n.stack ≡ true

-- Going up from the last name restores what was there before it.
find_prev-stack_bytes :
    (lead : Bool) (n : List ℕ) (ns : List (List ℕ))
    → is_name n ≡ true
    → find_prev_slash_offset (stack_bytes lead (n ∷ ns)) ≡ (due lead ns, stack_bytes lead ns)
unfolding is_ignored
find_prev-stack_bytes lead [] ns h = ground arith
find_prev-stack_bytes false (c ∷ n) [] h = find_prev-alone c n (ground arith)
find_prev-stack_bytes true (c ∷ n) [] h = find_prev-behind_slash c n [] (ground arith)
find_prev-stack_bytes lead (c ∷ n) (m ∷ ms) h =
    let need : due lead (m ∷ ms) ≡ true = ground arith in
    rw need (find_prev-behind_slash c n (stack_bytes lead (m ∷ ms)) (ground arith))

stack_bytes-shape :
    (lead : Bool) (n : List ℕ) (ns : List (List ℕ))
    → is_name n ≡ true
    → (d : ℕ) × (r : List ℕ) × (stack_bytes lead (n ∷ ns) ≡ d ∷ r)
unfolding is_ignored
stack_bytes-shape lead [] ns h = ground arith
stack_bytes-shape lead (c ∷ n) ns h =
    push_bytes-shape n c (push_slash (due lead ns) (stack_bytes lead ns))

go_up-found :
    (absolute : Bool) (buf below r : List ℕ) (d : ℕ) (found : Bool) (s : Norm)
    → buf ≡ d ∷ r
    → find_prev_slash_offset buf ≡ (found, below)
    → go_up absolute buf s ≡ ok (record s { buf = below; need_slash = found })
unfolding go_up
go_up-found absolute [] below r d found s q f = cc
go_up-found absolute (c ∷ cs) below r d found s q f = rw f refl

go_up-up :
    (absolute : Bool) (ups : ℕ) (n : List ℕ) (ns : List (List ℕ)) (s s' : Norm)
    → Holds absolute (record { ups = ups; stack = n ∷ ns }) s
    → go_up absolute s.buf s ≡ ok s'
    → Holds absolute (record { ups = ups; stack = ns }) s'
go_up-up absolute ups n ns s s' h e =
    let lead = leads absolute ups in
    let name : is_name n ≡ true = ground arith in
    let shape = stack_bytes-shape lead n ns name in
    let found : find_prev_slash_offset s.buf ≡ (due lead ns, stack_bytes lead ns) =
      ap find_prev_slash_offset h.buf ∙ find_prev-stack_bytes lead n ns name in
    let same : record s { buf = stack_bytes lead ns; need_slash = due lead ns } ≡ s' =
      ok-injective (
        sym (
          go_up-found absolute s.buf (stack_bytes lead ns) shape.1 shape.0 (due lead ns) s
            (h.buf ∙ shape.2) found)
        ∙ e) in
    subst (Holds absolute (record { ups = ups; stack = ns })) same
      (record { kept = h.kept; buf = refl; need = refl; names = ground arith })

go_up-above :
    (absolute : Bool) (ups : ℕ) (s s' : Norm)
    → Holds absolute (record { ups = ups; stack = [] }) s
    → go_up absolute s.buf s ≡ ok s'
    → Holds absolute (pop absolute ups []) s'
unfolding go_up
go_up-above true ups s s' h e =
    let same : s ≡ s' = ok-injective (sym (ap (λ b. go_up true b s) h.buf) ∙ e) in
    subst (Holds true (record { ups = ups; stack = [] })) same h
go_up-above false ups s s' h e = elim (Bool-cases (ltb s.size (to_nat s.need_slash + 2))) [
  | inl full ↦ absurd (cc (rw (h.buf, full) at e))
  | inr fits ↦
      subst (Holds false (record { ups = suc ups; stack = [] }))
        (ok-injective (rw (h.buf, fits) at e))
        (record {
          kept =
              rw (h.need, h.kept)
                (ap (λ b. dot ∷ dot ∷ push_slash b (kept_bytes false ups)) (or_false (ltb 0 ups)));
          buf = refl;
          need = sym (leads-suc ups);
          names = refl;
        })
]

go_up-Holds :
    (absolute : Bool) (ups : ℕ) (stack : List (List ℕ)) (s s' : Norm)
    → Holds absolute (record { ups = ups; stack = stack }) s
    → go_up absolute s.buf s ≡ ok s'
    → Holds absolute (pop absolute ups stack) s'
go_up-Holds absolute ups [] s s' h e = go_up-above absolute ups s s' h e
go_up-Holds absolute ups (n ∷ ns) s s' h e = go_up-up absolute ups n ns s s' h e

go_down-Holds :
    (absolute : Bool) (n : Names) (token : List ℕ) (s s' : Norm)
    → Holds absolute n s
    → is_name token ≡ true
    → go_down token s ≡ ok s'
    → Holds absolute (record n { stack = token ∷ n.stack }) s'
unfolding go_down
go_down-Holds absolute n token s s' h k e =
    elim (Bool-cases (ltb (s.size - length s.buf) (to_nat s.need_slash + length token))) [
      | inl full ↦ absurd (cc (rw full at e))
      | inr fits ↦
          subst (Holds absolute (record n { stack = token ∷ n.stack }))
            (ok-injective (rw fits at e))
            (record {
              kept = h.kept;
              buf = rw (h.need, h.buf) refl;
              need = sym (or_true (leads absolute n.ups));
              names = rw (k, h.names) refl;
            })
    ]

handle_token-Holds :
    (absolute : Bool) (n : Names) (token : List ℕ) (s s' : Norm)
    → Holds absolute n s
    → has_slash token ≡ false
    → handle_token absolute token s ≡ ok s'
    → Holds absolute (step absolute token n) s'
unfolding handle_token step
handle_token-Holds absolute n token s s' h k e = elim (Bool-cases (is_dotdot token)) [
  | inl up ↦ rw up (go_up-Holds absolute n.ups n.stack s s' h (rw up at e))
  | inr down ↦ rw down (elim (Bool-cases (is_ignored token)) [
    | inl same ↦ rw same (subst (Holds absolute n) (ok-injective (rw (down, same) at e)) h)
    | inr name ↦
        let proper : is_name token ≡ true = rw (down, name, k) refl in
        rw name (go_down-Holds absolute n token s s' h proper (rw (down, name) at e))
  ])
]

-- What a successful loop does behind one token.
abbrev Ends : (List ℕ → Norm → Option (Result Norm)) → List ℕ → Norm → Norm → Type 0
Ends again [] s s' = s ≡ s'
Ends again (c ∷ path) s s' = again path s ≡ some (ok s')

next_round-ok :
    (again : List ℕ → Norm → Option (Result Norm)) (end : List ℕ) (r : Result Norm) (s' : Norm)
    → next_round again end r ≡ some (ok s')
    → (s : Norm) × (r ≡ ok s) × Ends again end s s'
next_round-ok again end (err e) s' h = cc
next_round-ok again [] (ok s) s' h = (s, refl, cc)
next_round-ok again (c ∷ path) (ok s) s' h = (s, refl, h)

Holds-after :
    (fuel : ℕ) (absolute : Bool) (end : List ℕ) (n : Names) (s s' : Norm)
    → ((path : List ℕ) (n : Names) (s : Norm)
        → Holds absolute n s
        → norm_loop fuel absolute path s ≡ some (ok s')
        → Holds absolute (resolve absolute (tokens path) n) s')
    → Holds absolute n s
    → Ends (norm_loop fuel absolute) end s s'
    → Holds absolute (resolve absolute (tokens_after end) n) s'
Holds-after fuel absolute [] n s s' ih h e = subst (Holds absolute n) e h
Holds-after fuel absolute (c ∷ path) n s s' ih h e = ih path n s h e

pub norm_loop-Holds :
    (fuel : ℕ) (absolute : Bool) (path : List ℕ) (n : Names) (s s' : Norm)
    → Holds absolute n s
    → norm_loop fuel absolute path s ≡ some (ok s')
    → Holds absolute (resolve absolute (tokens path) n) s'
unfolding norm_loop
norm_loop-Holds zero absolute path n s s' h e = cc
norm_loop-Holds (suc fuel) absolute path n s s' h e =
    let (token, end) = find_next_slash path in
    let (s1, e1, rest) =
      next_round-ok (norm_loop fuel absolute) end (handle_token absolute token s) s' e in
    subst (λ ts. Holds absolute (resolve absolute ts n) s') (sym (tokens-find_next_slash path))
      (Holds-after fuel absolute end (step absolute token n) s1 s'
        (λ path1 n1 s2. norm_loop-Holds fuel absolute path1 n1 s2 s')
        (handle_token-Holds absolute n token s s1 h (find_next_slash-token path) e1) rest)
