-- ===== src/Path/BaseName.antt =====
-- `get_base_name` answers the last token of a path, which for a normal form is its last name.
use graphene.Base.{
  ℕ, zero, suc, ◌+◌, ◌<◌, ◌≡◌, refl, Bool, true, false, Option, some, List, [], ◌∷◌, ◌++◌, ltb,
  if◌then◌else◌, length, replicate, ap, arith, if_else, ltb-false, sym, ◌∙◌, ok, err, toolong,
}
use graphene.Path.{dot, find_next_slash, last_from, last_token, base_name_result, get_base_name}
use graphene.Path.Spec.{tokens, joined, render}
use graphene.Path.Scan.{has_slash, tokens_after, tokens-find_next_slash, length-find_next_slash}
use graphene.Path.Climb.{tokens-some, tokens-append, tokens-no_slash}

abbrev pub last_of : List (List ℕ) → List ℕ
last_of [] = []
last_of (t ∷ []) = t
last_of (t ∷ u ∷ us) = last_of (u ∷ us)

last_of-cons :
    (t : List ℕ) (ts : List (List ℕ))
    → (u : List ℕ) × (us : List (List ℕ)) × (ts ≡ u ∷ us)
    → last_of (t ∷ ts) ≡ last_of ts
last_of-cons t [] h = cc
last_of-cons t (u ∷ us) h = refl

last_of-append : (ts : List (List ℕ)) (t : List ℕ) → last_of (ts ++ (t ∷ [])) ≡ t
last_of-append [] t = refl
last_of-append (u ∷ []) t = refl
last_of-append (u ∷ v ∷ vs) t = last_of-append (v ∷ vs) t

last_from-last_of :
    (again : List ℕ → Option (List ℕ)) (token end : List ℕ)
    → ((c : ℕ) (path : List ℕ) → end ≡ c ∷ path → again path ≡ some (last_of (tokens path)))
    → last_from again (token, end) ≡ some (last_of (token ∷ tokens_after end))
last_from-last_of again token [] go = refl
last_from-last_of again token (c ∷ path) go =
    go c path refl ∙ ap some (sym (last_of-cons token (tokens path) (tokens-some path)))

last_token-last_of :
    (fuel : ℕ) (path : List ℕ)
    → length path < fuel
    → last_token fuel path ≡ some (last_of (tokens path))
unfolding last_token
last_token-last_of zero path h = absurd (omega arith)
last_token-last_of (suc fuel) path h =
    let (token, end) = find_next_slash path in
    let all : length token + length end ≡ length path = length-find_next_slash path in
    last_from-last_of (last_token fuel) token end (λ c rest e.
      let behind : length end ≡ suc (length rest) = ap length e in
      last_token-last_of fuel rest (omega (arith, all, behind)))
    ∙ ap (λ ts. some (last_of ts)) (sym (tokens-find_next_slash path))

-- `get_base_name` ends, and answers the string behind the last slash exactly if the buffer holds it
-- with a closing zero.
pub get_base_name-last_of :
    (size : ℕ) (path : List ℕ)
    → get_base_name size path
      ≡ some (
          if ltb size (length (last_of (tokens path)) + 1)
          then err toolong
          else ok (last_of (tokens path)))
unfolding get_base_name
get_base_name-last_of size path =
    ap (base_name_result size) (last_token-last_of (suc (length path)) path (omega arith))

tokens-joined :
    (n : List ℕ) (ns : List (List ℕ))
    → has_slash n ≡ false
    → (ts : List (List ℕ)) × (tokens (joined (n ∷ ns)) ≡ ts ++ (n ∷ []))
tokens-joined n [] h = ([], tokens-no_slash n h)
tokens-joined n (m ∷ ms) h = (
  tokens (joined (m ∷ ms)),
  tokens-append (joined (m ∷ ms)) n
      ∙ ap (λ us. tokens (joined (m ∷ ms)) ++ us) (tokens-no_slash n h),
)

last_of-render :
    (absolute : Bool) (ups : ℕ) (n : List ℕ) (ns : List (List ℕ))
    → has_slash n ≡ false
    → last_of (tokens (render absolute (record { ups = ups; stack = n ∷ ns }))) ≡ n
unfolding render
last_of-render true ups n ns h =
    let (ts, e) = tokens-joined n ns h in
    ap (λ us. last_of ([] ∷ us)) e ∙ last_of-append ([] ∷ ts) n
last_of-render false ups n ns h =
    let (ts, e) = tokens-joined n (ns ++ replicate ups (dot ∷ dot ∷ [])) h in
    ap last_of e ∙ last_of-append ts n

-- The base name of a rendered path is its last name, if the buffer holds that.
pub get_base_name-render :
    (size ups : ℕ) (absolute : Bool) (n : List ℕ) (ns : List (List ℕ))
    → has_slash n ≡ false
    → length n < size
    → get_base_name size (render absolute (record { ups = ups; stack = n ∷ ns })) ≡ some (ok n)
get_base_name-render size ups absolute n ns h lt =
    let last = last_of-render absolute ups n ns h in
    get_base_name-last_of size (render absolute (record { ups = ups; stack = n ∷ ns }))
    ∙ rw last (ap some (if_else (ltb size (length n + 1)) _ _ (ltb-false (omega arith))))
