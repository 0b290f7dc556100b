-- ===== src/Path/Reread.antt =====
-- Rendered names are their own normal form.
use mathlib.Core.List.{append-nil}
use graphene.Base.{
  ℕ, zero, suc, ◌≡◌, refl, Bool, true, false, not, ◌&&◌, List, [], ◌∷◌, ◌++◌, ◌==◌, ap, arith,
  if_else, sym, ◌∙◌, subst,
}
use graphene.Path.{slash, is_ignored}
use graphene.Path.Spec.{tokens, Names, resolve, joined, render, at_start, normal_form}
use graphene.Path.Holds.{is_name, are_names}
use graphene.Path.Refine.{dots}
use graphene.Path.Climb.{no_slashes, resolve-joined, climb, climb-dots, climb-names}

-- A string that is not empty and does not begin with a slash.
abbrev is_relative : List ℕ → Bool
is_relative [] = false
is_relative (c ∷ cs) = not (c == slash)

abbrev are_relative : List (List ℕ) → Bool
are_relative [] = true
are_relative (n ∷ ns) = is_relative n && are_relative ns

is_relative-append : (xs ys : List ℕ) → is_relative xs ≡ true → is_relative (xs ++ ys) ≡ true
is_relative-append [] ys h = cc
is_relative-append (c ∷ cs) ys h = h

is_relative-joined :
    (n : List ℕ) (ns : List (List ℕ))
    → are_relative (n ∷ ns) ≡ true
    → is_relative (joined (n ∷ ns)) ≡ true
is_relative-joined n [] h = ground arith
is_relative-joined n (m ∷ ms) h =
    is_relative-append (joined (m ∷ ms)) (slash ∷ n) (is_relative-joined m ms (ground arith))

is_relative-name : (n : List ℕ) → is_name n ≡ true → is_relative n ≡ true
unfolding is_ignored
is_relative-name [] h = ground arith
is_relative-name (c ∷ cs) h = ground arith

are_relative-names :
    (ns base : List (List ℕ))
    → are_names ns ≡ true
    → are_relative base ≡ true
    → are_relative (ns ++ base) ≡ true
are_relative-names [] base h k = k
are_relative-names (n ∷ ns) base h k =
    rw (is_relative-name n (ground arith), are_relative-names ns base (ground arith) k) refl

are_relative-dots : (ups : ℕ) → are_relative (dots ups) ≡ true
are_relative-dots zero = refl
are_relative-dots (suc ups) = are_relative-dots ups

no_slashes-names :
    (ns base : List (List ℕ))
    → are_names ns ≡ true
    → no_slashes base ≡ true
    → no_slashes (ns ++ base) ≡ true
no_slashes-names [] base h k = k
no_slashes-names (n ∷ ns) base h k = ground (arith, no_slashes-names ns base)

no_slashes-dots : (ups : ℕ) → no_slashes (dots ups) ≡ true
no_slashes-dots zero = refl
no_slashes-dots (suc ups) = no_slashes-dots ups

normal_form-relative :
    (xs : List ℕ) (ns : List (List ℕ))
    → xs ≡ joined ns
    → are_relative ns ≡ true
    → normal_form xs ≡ render false (resolve false (tokens xs) at_start)
unfolding normal_form
normal_form-relative [] ns e h = refl
normal_form-relative (c ∷ cs) [] e h = cc
normal_form-relative (c ∷ cs) (n ∷ ns) e h =
    let start : is_relative (c ∷ cs) ≡ true = ap is_relative e ∙ is_relative-joined n ns h in
    if_else (c == slash) _ _ (ground arith)

pub normal_form-render :
    (absolute : Bool) (n : Names)
    → are_names n.stack ≡ true
    → normal_form (render absolute n) ≡ render absolute n
unfolding normal_form render
normal_form-render true n h =
    let clean : no_slashes n.stack ≡ true =
      subst (λ ns. no_slashes ns ≡ true) (append-nil n.stack)
        (no_slashes-names n.stack [] h refl) in
    ap (render true) (
      resolve-joined true n.stack clean
      ∙ (ap (climb true) (sym (append-nil n.stack)) ∙ climb-names true [] n.stack 0 refl h))
normal_form-render false n h =
    let all = n.stack ++ dots n.ups in
    normal_form-relative (joined all) all refl
      (are_relative-names n.stack (dots n.ups) h (are_relative-dots n.ups))
    ∙ ap (render false) (
        resolve-joined false all (no_slashes-names n.stack (dots n.ups) h (no_slashes-dots n.ups))
        ∙ climb-names false (dots n.ups) n.stack n.ups (climb-dots n.ups) h)
