-- ===== src/Path/Climb.antt =====
-- The tokens of names with slashes between them are those names.
use graphene.Base.{
  ℕ, zero, suc, ◌≡◌, refl, Bool, true, false, not, ◌&&◌, List, [], ◌∷◌, ◌++◌, ◌==◌, ap, arith,
  Bool-cases, if_then, if_else, inl, inr, ◌∙◌,
}
use graphene.Path.{slash, dot, is_dotdot, is_ignored}
use graphene.Path.Spec.{tokens, cons_first, Names, step, resolve, joined, at_start}
use graphene.Path.Scan.{has_slash}
use graphene.Path.Holds.{are_names}
use graphene.Path.Refine.{dots}

abbrev pub no_slashes : List (List ℕ) → Bool
no_slashes [] = true
no_slashes (n ∷ ns) = not (has_slash n) && no_slashes ns

pub tokens-no_slash : (n : List ℕ) → has_slash n ≡ false → tokens n ≡ n ∷ []
tokens-no_slash [] h = refl
tokens-no_slash (c ∷ cs) h =
    if_else (c == slash) ([] ∷ tokens cs) _ (ground arith)
    ∙ ap (cons_first c) (tokens-no_slash cs (ground arith))

cons_first-append :
    (c : ℕ) (ts us : List (List ℕ))
    → (token : List ℕ) × (rest : List (List ℕ)) × (ts ≡ token ∷ rest)
    → cons_first c (ts ++ us) ≡ cons_first c ts ++ us
cons_first-append c [] us h = cc
cons_first-append c (t ∷ ts) us h = refl

pub tokens-some :
    (xs : List ℕ) → (token : List ℕ) × (rest : List (List ℕ)) × (tokens xs ≡ token ∷ rest)
tokens-some [] = ([], [], refl)
tokens-some (c ∷ cs) = elim (Bool-cases (c == slash)) [
  | inl h ↦ ([], tokens cs, if_then (c == slash) _ _ h)
  | inr h ↦
      let (token, rest, e) = tokens-some cs in
      (c ∷ token, rest, if_else (c == slash) _ _ h ∙ ap (cons_first c) e)
]

pub tokens-append : (xs ys : List ℕ) → tokens (xs ++ (slash ∷ ys)) ≡ tokens xs ++ tokens ys
tokens-append [] ys = refl
tokens-append (c ∷ cs) ys = elim (Bool-cases (c == slash)) [
  | inl h ↦ rw h (ap (λ ts. [] ∷ ts) (tokens-append cs ys))
  | inr h ↦ rw h (
      ap (cons_first c) (tokens-append cs ys)
      ∙ cons_first-append c (tokens cs) (tokens ys) (tokens-some cs))
]

resolve-append :
    (absolute : Bool) (ts us : List (List ℕ)) (n : Names)
    → resolve absolute (ts ++ us) n ≡ resolve absolute us (resolve absolute ts n)
resolve-append absolute [] us n = refl
resolve-append absolute (t ∷ ts) us n = resolve-append absolute ts us (step absolute t n)

-- The steps for names that are listed last one first.
abbrev pub climb : Bool → List (List ℕ) → Names
climb absolute [] = at_start
climb absolute (n ∷ ns) = step absolute n (climb absolute ns)

pub resolve-joined :
    (absolute : Bool) (ns : List (List ℕ))
    → no_slashes ns ≡ true
    → resolve absolute (tokens (joined ns)) at_start ≡ climb absolute ns
unfolding step is_dotdot is_ignored
resolve-joined absolute [] h = refl
resolve-joined absolute (n ∷ []) h =
    ap (λ ts. resolve absolute ts at_start) (tokens-no_slash n (ground arith))
resolve-joined absolute (n ∷ m ∷ ms) h =
    ap (λ ts. resolve absolute ts at_start)
      (tokens-append (joined (m ∷ ms)) n
        ∙ ap (λ us. tokens (joined (m ∷ ms)) ++ us) (tokens-no_slash n (ground arith)))
    ∙ (resolve-append absolute (tokens (joined (m ∷ ms))) (n ∷ []) at_start
        ∙ ap (step absolute n) (resolve-joined absolute (m ∷ ms) (ground arith)))

-- Proper names are taken back as they are.
pub climb-dots : (ups : ℕ) → climb false (dots ups) ≡ record { ups = ups; stack = [] }
unfolding step is_dotdot
climb-dots zero = refl
climb-dots (suc ups) = ap (step false (dot ∷ dot ∷ [])) (climb-dots ups)

pub climb-names :
    (absolute : Bool) (base ns : List (List ℕ)) (ups : ℕ)
    → climb absolute base ≡ record { ups = ups; stack = [] }
    → are_names ns ≡ true
    → climb absolute (ns ++ base) ≡ record { ups = ups; stack = ns }
unfolding step
climb-names absolute base [] ups h k = h
climb-names absolute base (n ∷ ns) ups h k =
    let down : is_dotdot n ≡ false = ground arith in
    let name : is_ignored n ≡ false = ground arith in
    ap (step absolute n) (climb-names absolute base ns ups h (ground arith)) ∙ rw (down, name) refl
