-- ===== src/Path/Spec.antt =====
-- What a path means lexically: the names from the root or from the start on.
use graphene.Base.{ℕ, suc, Bool, true, false, List, [], ◌∷◌, ◌++◌, ◌==◌, if◌then◌else◌, replicate}
use graphene.Path.{slash, dot, is_dotdot, is_ignored}

abbrev pub cons_first : ℕ → List (List ℕ) → List (List ℕ)
cons_first c [] = (c ∷ []) ∷ []
cons_first c (token ∷ tokens) = (c ∷ token) ∷ tokens

-- The tokens of a path: the strings between its slashes.
abbrev pub tokens : List ℕ → List (List ℕ)
tokens [] = [] ∷ []
tokens (c ∷ cs) = if c == slash then [] ∷ tokens cs else cons_first c (tokens cs)

-- How often the path leaves its start, and the names below that, the last one first.
pub record Names : Type 0 where
  pub ups : ℕ
  pub stack : List (List ℕ)

abbrev pub pop : Bool → ℕ → List (List ℕ) → Names
pop absolute ups [] = record { ups = if absolute then ups else suc ups; stack = [] }
pop absolute ups (n ∷ ns) = record { ups = ups; stack = ns }

unfoldable pub step : Bool → List ℕ → Names → Names
step absolute token n =
    if is_dotdot token
    then pop absolute n.ups n.stack
    else if is_ignored token
    then n
    else record n { stack = token ∷ n.stack }

abbrev pub resolve : Bool → List (List ℕ) → Names → Names
resolve absolute [] n = n
resolve absolute (token ∷ ts) n = resolve absolute ts (step absolute token n)

-- The names, the last one first, with slashes between them.
abbrev pub joined : List (List ℕ) → List ℕ
joined [] = []
joined (n ∷ []) = n
joined (n ∷ m ∷ ms) = joined (m ∷ ms) ++ (slash ∷ n)

unfoldable pub render : Bool → Names → List ℕ
render absolute n =
    if absolute
    then slash ∷ joined n.stack
    else joined (n.stack ++ replicate n.ups (dot ∷ dot ∷ []))

abbrev pub at_start : Names
at_start = record { ups = 0; stack = [] }

unfoldable pub normal_form : List ℕ → List ℕ
unfolding render step
normal_form [] = render false (resolve false (tokens []) at_start)
normal_form (c ∷ path) =
    if c == slash
    then render true (resolve true (tokens path) at_start)
    else render false (resolve false (tokens (c ∷ path)) at_start)
