-- ===== src/Path/Refine.antt =====
-- `get_norm_path` computes the normal form, whenever it does not run out of room.
use mathlib.Core.List.{append_assoc, append-nil}
use graphene.Base.{
  ℕ, zero, suc, ◌-◌, ◌≡◌, refl, Bool, true, false, Option, none, some, List, [], ◌∷◌, ◌++◌, ltb,
  ◌==◌, length, replicate, ap, arith, Bool-cases, if_then, if_else, inl, inr, sym, ◌∙◌, Result, ok,
  err,
}
use graphene.Path.{
  Norm, slash, dot, push_bytes, written, start_norm, norm_relative, norm_absolute, norm_split,
  get_norm_path,
}
use graphene.Path.Spec.{tokens, Names, resolve, joined, render, at_start, normal_form}
use graphene.Path.Holds.{
  kept_bytes, leads, is_some_name, stack_bytes, Holds, norm_loop-Holds, or_true,
}

push_bytes-append : (n xs ys : List ℕ) → push_bytes n xs ++ ys ≡ push_bytes n (xs ++ ys)
push_bytes-append [] xs ys = refl
push_bytes-append (c ∷ cs) xs ys = push_bytes-append cs (c ∷ xs) ys

push_bytes-push_bytes :
    (n xs out : List ℕ) → push_bytes (push_bytes n xs) out ≡ push_bytes xs (n ++ out)
push_bytes-push_bytes [] xs out = refl
push_bytes-push_bytes (c ∷ cs) xs out = push_bytes-push_bytes cs (c ∷ xs) out

-- Read forward, `b` holds the names `base` behind `front`.
abbrev Reads : List ℕ → List ℕ → List (List ℕ) → Type 0
Reads b front base = (out : List ℕ) → push_bytes b out ≡ front ++ (joined base ++ out)

Reads-stack_bytes :
    (b front : List ℕ) (base stack : List (List ℕ))
    → Reads b front base
    → Reads (stack_bytes (is_some_name base) stack ++ b) front (stack ++ base)
Reads-stack_bytes b front base [] h out = h out
Reads-stack_bytes b front [] (n ∷ []) h out =
    ap (λ xs. push_bytes xs out) (push_bytes-append n [] b)
    ∙ (push_bytes-push_bytes n b out ∙ h (n ++ out))
Reads-stack_bytes b front (m ∷ ms) (n ∷ []) h out =
    ap (λ xs. push_bytes xs out) (push_bytes-append n (slash ∷ []) b)
    ∙ (push_bytes-push_bytes n (slash ∷ b) out
        ∙ (h (slash ∷ (n ++ out))
            ∙ ap (λ xs. front ++ xs) (sym (append_assoc (joined (m ∷ ms)) (slash ∷ n) out))))
Reads-stack_bytes b front base (n ∷ m ∷ ms) h out =
    let below = stack_bytes (is_some_name base) (m ∷ ms) in
    let ih = Reads-stack_bytes b front base (m ∷ ms) h in
    rw (or_true (is_some_name base)) (
      ap (λ xs. push_bytes xs out) (push_bytes-append n (slash ∷ below) b)
      ∙ (push_bytes-push_bytes n (slash ∷ (below ++ b)) out
          ∙ (ih (slash ∷ (n ++ out))
              ∙ ap (λ xs. front ++ xs)
                  (sym (append_assoc (joined ((m ∷ ms) ++ base)) (slash ∷ n) out)))))

abbrev pub dots : ℕ → List (List ℕ)
dots ups = replicate ups (dot ∷ dot ∷ [])

Reads-dots : (ups : ℕ) → Reads (kept_bytes false ups) [] (dots ups)
Reads-dots zero out = refl
Reads-dots (suc zero) out = refl
Reads-dots (suc (suc ups)) out =
    let some_up : ltb 0 (suc ups) ≡ true = ground arith in
    rw some_up (
      Reads-dots (suc ups) (slash ∷ dot ∷ dot ∷ out)
      ∙ sym (append_assoc (joined (dots (suc ups))) (slash ∷ dot ∷ dot ∷ []) out))

leads-dots : (ups : ℕ) → leads false ups ≡ is_some_name (dots ups)
leads-dots zero = refl
leads-dots (suc ups) = ground arith

-- What the buffer holds at the end is the rendered names.
written-render :
    (absolute : Bool) (n : Names) (s : Norm)
    → Holds absolute n s
    → push_bytes (s.buf ++ s.kept) [] ≡ render absolute n
unfolding render
written-render true n s h =
    rw (h.buf, h.kept) (Reads-stack_bytes (slash ∷ []) (slash ∷ []) [] n.stack (λ out. refl) [])
    ∙ ap (λ xs. slash ∷ xs) (append-nil (joined (n.stack ++ [])) ∙ ap joined (append-nil n.stack))
written-render false n s h =
    rw (h.buf, h.kept, leads-dots n.ups)
      (Reads-stack_bytes (kept_bytes false n.ups) [] (dots n.ups) n.stack (Reads-dots n.ups) [])
    ∙ append-nil (joined (n.stack ++ dots n.ups))

written-ok :
    (r : Option (Result Norm)) (out : List ℕ)
    → written r ≡ some (ok out)
    → (s : Norm) × (r ≡ some (ok s)) × (push_bytes (s.buf ++ s.kept) [] ≡ out)
written-ok none out e = cc
written-ok (some (err x)) out e = cc
written-ok (some (ok s)) out e = (s, refl, cc)

norm_relative-render :
    (size : ℕ) (path out : List ℕ)
    → norm_relative size path ≡ some (ok out)
    → out ≡ render false (resolve false (tokens path) at_start)
unfolding norm_relative
norm_relative-render size path out e =
    let (s, r, q) = written-ok _ out e in
    sym q
    ∙ written-render false (resolve false (tokens path) at_start) s (
        norm_loop-Holds (suc (length path)) false path at_start (start_norm [] size) s
          (record { kept = refl; buf = refl; need = refl; names = refl }) r)

norm_absolute-render :
    (size : ℕ) (path out : List ℕ)
    → norm_absolute size path ≡ some (ok out)
    → out ≡ render true (resolve true (tokens path) at_start)
unfolding norm_absolute
norm_absolute-render size path out e = elim (Bool-cases (ltb size 1)) [
  | inl h ↦ absurd (cc (rw h at e))
  | inr h ↦
      let (s, r, q) = written-ok _ out (rw h at e) in
      sym q
      ∙ written-render true (resolve true (tokens path) at_start) s (
          norm_loop-Holds (suc (length path)) true path at_start
            (start_norm (slash ∷ []) (size - 1)) s
            (record { kept = refl; buf = refl; need = refl; names = refl }) r)
]

norm_split-normal_form :
    (size : ℕ) (path out : List ℕ) → norm_split size path ≡ some (ok out) → out ≡ normal_form path
unfolding norm_split normal_form
norm_split-normal_form size [] out e = norm_relative-render size [] out e
norm_split-normal_form size (c ∷ path) out e = elim (Bool-cases (c == slash)) [
  | inl h ↦
      norm_absolute-render size path out (sym (if_then (c == slash) _ _ h) ∙ e)
      ∙ sym (if_then (c == slash) _ _ h)
  | inr h ↦
      norm_relative-render size (c ∷ path) out (sym (if_else (c == slash) _ _ h) ∙ e)
      ∙ sym (if_else (c == slash) _ _ h)
]

-- What a successful `get_norm_path` writes is the normal form of the path: the names that its
-- tokens resolve to, with a slash in front if the path has one there.
pub get_norm_path-normal_form :
    (size : ℕ) (path out : List ℕ)
    → get_norm_path size path ≡ some (ok out)
    → out ≡ normal_form path
unfolding get_norm_path
get_norm_path-normal_form size path out e = elim (Bool-cases (size == 0)) [
  | inl h ↦ absurd (cc (rw h at e))
  | inr h ↦ norm_split-normal_form (size - 1) path out (rw h at e)
]
