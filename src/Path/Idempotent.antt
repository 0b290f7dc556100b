-- ===== src/Path/Idempotent.antt =====
-- A path that `get_norm_path` has written is its own normal form.
use graphene.Base.{
  ℕ, ◌<◌, ◌≡◌, refl, Bool, true, false, some, List, [], ◌∷◌, ◌==◌, length, ap, arith, Bool-cases,
  if_then, if_else, inl, inr, sym, ◌∙◌, subst, ok,
}
use graphene.Path.{slash, is_dotdot, is_ignored, get_norm_path}
use graphene.Path.Spec.{tokens, Names, pop, step, resolve, render, at_start, normal_form}
use graphene.Path.Scan.{has_slash}
use graphene.Path.Holds.{are_names}
use graphene.Path.Refine.{get_norm_path-normal_form}
use graphene.Path.Total.{get_norm_path_total}
use graphene.Path.Climb.{no_slashes, tokens-some}
use graphene.Path.Reread.{normal_form-render}

-- The names that a path resolves to are proper.
no_slashes-tokens : (xs : List ℕ) → no_slashes (tokens xs) ≡ true
no_slashes-tokens [] = refl
no_slashes-tokens (c ∷ cs) =
    let (token, rest, e) = tokens-some cs in
    let clean : no_slashes (token ∷ rest) ≡ true =
      subst (λ ts. no_slashes ts ≡ true) e (no_slashes-tokens cs) in
    elim (Bool-cases (c == slash)) [
      | inl h ↦ rw h (no_slashes-tokens cs)
      | inr h ↦ rw (h, e) (rw h clean)
    ]

pop-names :
    (absolute : Bool) (ups : ℕ) (ns : List (List ℕ))
    → are_names ns ≡ true
    → are_names (pop absolute ups ns).stack ≡ true
pop-names absolute ups [] h = refl
pop-names absolute ups (n ∷ ns) h = ground arith

step-names :
    (absolute : Bool) (token : List ℕ) (n : Names)
    → has_slash token ≡ false
    → are_names n.stack ≡ true
    → are_names (step absolute token n).stack ≡ true
unfolding step
step-names absolute token n h k = elim (Bool-cases (is_dotdot token)) [
  | inl up ↦ rw up (pop-names absolute n.ups n.stack k)
  | inr down ↦ rw down (elim (Bool-cases (is_ignored token)) [
    | inl same ↦ rw same k
    | inr name ↦ rw name (rw (down, name, h, k) refl)
  ])
]

resolve-names :
    (absolute : Bool) (ts : List (List ℕ)) (n : Names)
    → no_slashes ts ≡ true
    → are_names n.stack ≡ true
    → are_names (resolve absolute ts n).stack ≡ true
resolve-names absolute [] n h k = k
resolve-names absolute (t ∷ ts) n h k =
    resolve-names absolute ts (step absolute t n) (ground arith)
      (step-names absolute t n (ground arith) k)

normal_form-names :
    (path : List ℕ)
    → (absolute : Bool) × (n : Names) × (normal_form path ≡ render absolute n)
      × (are_names n.stack ≡ true)
unfolding normal_form
normal_form-names [] = (
  false,
  resolve false (tokens []) at_start,
  refl,
  resolve-names false (tokens []) at_start refl refl,
)
normal_form-names (c ∷ path) = elim (Bool-cases (c == slash)) [
  | inl h ↦ (
    true,
    resolve true (tokens path) at_start,
    if_then (c == slash) _ _ h,
    resolve-names true (tokens path) at_start (no_slashes-tokens path) refl,
  )
  | inr h ↦ (
    false,
    resolve false (tokens (c ∷ path)) at_start,
    if_else (c == slash) _ _ h,
    resolve-names false (tokens (c ∷ path)) at_start (no_slashes-tokens (c ∷ path)) refl,
  )
]

normal_form-normal_form : (path : List ℕ) → normal_form (normal_form path) ≡ normal_form path
normal_form-normal_form path =
    let (absolute, n, e, h) = normal_form-names path in
    ap normal_form e ∙ (normal_form-render absolute n h ∙ sym e)

-- What `get_norm_path` has answered it answers again for its own answer, in any buffer that holds
-- it.
pub get_norm_path-get_norm_path :
    (size again : ℕ) (path out : List ℕ)
    → get_norm_path size path ≡ some (ok out)
    → length out < again
    → get_norm_path again out ≡ some (ok out)
get_norm_path-get_norm_path size again path out e h =
    let (out', e', short) = get_norm_path_total again out h in
    let first : out ≡ normal_form path = get_norm_path-normal_form size path out e in
    let same : out' ≡ out =
      get_norm_path-normal_form again out out' e'
      ∙ (ap normal_form first ∙ (normal_form-normal_form path ∙ sym first)) in
    e' ∙ ap (λ o. some (ok o)) same
