-- ===== src/Path/Scan.antt =====
-- The two scans for a slash, forward over the path and backward over the buffer.
use graphene.Base.{
  ℕ, ◌+◌, ◌≡◌, refl, Bool, true, false, ◌||◌, List, [], ◌∷◌, ◌==◌, length, arith, Bool-cases, inl,
  inr, ◌∙◌,
}
use graphene.Path.{slash, find_next_slash, prev_slash, find_prev_slash_offset, push_bytes}
use graphene.Path.Spec.{tokens, cons_first}

-- The tokens behind the one that was found.
abbrev pub tokens_after : List ℕ → List (List ℕ)
tokens_after [] = []
tokens_after (c ∷ path) = tokens path

cons_first-found :
    (c : ℕ) (token : List ℕ) (ts : List (List ℕ)) → cons_first c (token ∷ ts) ≡ (c ∷ token) ∷ ts
cons_first-found c token ts = refl

pub tokens-find_next_slash :
    (path : List ℕ) → tokens path ≡ (find_next_slash path).0 ∷ tokens_after (find_next_slash path).1
unfolding find_next_slash
tokens-find_next_slash [] = refl
tokens-find_next_slash (c ∷ cs) = elim (Bool-cases (c == slash)) [
  | inl h ↦ rw h refl
  | inr h ↦ rw h (rw (tokens-find_next_slash cs) refl)
]

-- The token and what is behind it make up the path.
pub length-find_next_slash :
    (path : List ℕ)
    → length (find_next_slash path).0 + length (find_next_slash path).1 ≡ length path
unfolding find_next_slash
length-find_next_slash [] = omega arith
length-find_next_slash (c ∷ cs) = ground (arith, length-find_next_slash cs)

abbrev pub has_slash : List ℕ → Bool
has_slash [] = false
has_slash (c ∷ cs) = c == slash || has_slash cs

pub find_next_slash-token : (path : List ℕ) → has_slash (find_next_slash path).0 ≡ false
unfolding find_next_slash
find_next_slash-token [] = refl
find_next_slash-token (c ∷ cs) = elim (Bool-cases (c == slash)) [
  | inl h ↦ rw h refl
  | inr h ↦ rw h (rw h (find_next_slash-token cs))
]

-- Over a token without slashes the backward scan runs on to what stands below it.
prev_slash-push_bytes :
    (n : List ℕ) (b : ℕ) (below : List ℕ)
    → has_slash n ≡ false
    → prev_slash (push_bytes n (b ∷ below)) ≡ prev_slash (b ∷ below)
unfolding prev_slash
prev_slash-push_bytes [] b below h = refl
prev_slash-push_bytes (c ∷ cs) b below h =
    prev_slash-push_bytes cs c (b ∷ below) (ground arith)
    ∙ (let here : (c == slash) ≡ false = ground arith in rw here refl)

prev_slash-at_slash : (below : List ℕ) → prev_slash (slash ∷ below) ≡ (true, below)
unfolding prev_slash
prev_slash-at_slash [] = refl
prev_slash-at_slash (b ∷ below) = refl

prev_slash-first : (c : ℕ) → (c == slash) ≡ false → prev_slash (c ∷ []) ≡ (false, [])
unfolding prev_slash
prev_slash-first c h = rw h refl

-- The last byte of such a token is no slash to skip.
find_prev-push_bytes :
    (n : List ℕ) (c : ℕ) (below : List ℕ)
    → has_slash (c ∷ n) ≡ false
    → find_prev_slash_offset (push_bytes n (c ∷ below)) ≡ prev_slash (push_bytes n (c ∷ below))
unfolding find_prev_slash_offset
find_prev-push_bytes [] c [] h = refl
find_prev-push_bytes [] c (b ∷ below) h =
    let here : (c == slash) ≡ false = ground arith in rw here refl
find_prev-push_bytes (d ∷ n) c below h = find_prev-push_bytes n d (c ∷ below) (ground arith)

-- Going up from a token that stands behind a slash.
pub find_prev-behind_slash :
    (c : ℕ) (n below : List ℕ)
    → has_slash (c ∷ n) ≡ false
    → find_prev_slash_offset (push_bytes (c ∷ n) (slash ∷ below)) ≡ (true, below)
find_prev-behind_slash c n below h =
    find_prev-push_bytes n c (slash ∷ below) h
    ∙ (prev_slash-push_bytes (c ∷ n) slash below h ∙ prev_slash-at_slash below)

-- Going up from the only token.
pub find_prev-alone :
    (c : ℕ) (n : List ℕ)
    → has_slash (c ∷ n) ≡ false
    → find_prev_slash_offset (push_bytes (c ∷ n) []) ≡ (false, [])
find_prev-alone c n h =
    find_prev-push_bytes n c [] h
    ∙ (prev_slash-push_bytes n c [] (ground arith) ∙ prev_slash-first c (ground arith))

pub push_bytes-shape :
    (n : List ℕ) (c : ℕ) (below : List ℕ)
    → (d : ℕ) × (r : List ℕ) × (push_bytes n (c ∷ below) ≡ d ∷ r)
push_bytes-shape [] c below = (c, below, refl)
push_bytes-shape (d ∷ n) c below = push_bytes-shape n d (c ∷ below)
