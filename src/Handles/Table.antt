-- ===== src/Handles/Table.antt =====
-- The table as a map from descriptors to handles, and when it is well formed.
use graphene.Base.{
  ℕ, suc, zero, ◌≤◌, ◌<◌, ◌≡◌, ◌≢◌, refl, sym, ap, ◌∙◌, subst, ◌⊎◌, inl, inr, true, false, Option,
  none, some, List, [], ◌∷◌, ◌++◌, ltb, length, set, get_or, take, replicate, arith, Bool-cases,
  if_then, if_else, if_both,
}
use graphene.Handles.{
  FdHandle, HandleMap, handle_allocated, slot, under_top, fd_entry, get_fd_entry, lower_top,
}

-- An element that is in use knows its own number.
abbrev pub IsNamed : ℕ → Option FdHandle → Type 0
IsNamed fd o = (f : FdHandle) → o ≡ some f → (f.vfd ≡ none) ⊎ (f.vfd ≡ some fd)

-- `fd_top` is the highest descriptor in use, and the size is that of the array.
pub record IsWell (m : HandleMap) : Type 0 where
  pub sized : length m.slots ≡ m.fd_size
  pub named : (fd : ℕ) → IsNamed fd (slot m fd)
  pub under : (fd : ℕ) → handle_allocated (slot m fd) ≡ true → under_top fd m.fd_top ≡ true
  pub tight : (top : ℕ) → m.fd_top ≡ some top → handle_allocated (slot m top) ≡ true

module _ {ℓ} {A : Type ℓ} where
  pub get_or-set_self :
      (xs : List A) (i : ℕ) (v d : A) → i < length xs → get_or (set xs i v) i d ≡ v
  get_or-set_self [] i v d h = absurd (omega arith)
  get_or-set_self (x ∷ xs) zero v d h = refl
  get_or-set_self (x ∷ xs) (suc i) v d h = get_or-set_self xs i v d (omega arith)

  pub get_or-set_ne :
      (xs : List A) (i j : ℕ) (v d : A) → i ≢ j → get_or (set xs i v) j d ≡ get_or xs j d
  get_or-set_ne [] i j v d h = refl
  get_or-set_ne (x ∷ xs) zero zero v d h = absurd (h refl)
  get_or-set_ne (x ∷ xs) zero (suc j) v d h = refl
  get_or-set_ne (x ∷ xs) (suc i) zero v d h = refl
  get_or-set_ne (x ∷ xs) (suc i) (suc j) v d h = get_or-set_ne xs i j v d (λ e. h (ap suc e))

  pub get_or-replicate : (n : ℕ) (i : ℕ) (d : A) → get_or (replicate n d) i d ≡ d
  get_or-replicate zero i d = refl
  get_or-replicate (suc n) zero d = refl
  get_or-replicate (suc n) (suc i) d = get_or-replicate n i d

  pub get_or-pad :
      (xs : List A) (n i : ℕ) (d : A) → get_or (xs ++ replicate n d) i d ≡ get_or xs i d
  get_or-pad [] n i d = get_or-replicate n i d
  get_or-pad (x ∷ xs) n zero d = refl
  get_or-pad (x ∷ xs) n (suc i) d = get_or-pad xs n i d

  pub get_or-out : (xs : List A) (i : ℕ) (d : A) → length xs ≤ i → get_or xs i d ≡ d
  get_or-out [] i d h = refl
  get_or-out (x ∷ xs) zero d h = absurd (omega arith)
  get_or-out (x ∷ xs) (suc i) d h = get_or-out xs i d (omega arith)

  pub take-all : (xs : List A) (n : ℕ) → length xs ≤ n → take n xs ≡ xs
  take-all [] zero h = refl
  take-all [] (suc n) h = refl
  take-all (x ∷ xs) zero h = absurd (omega arith)
  take-all (x ∷ xs) (suc n) h = ap (λ ys. x ∷ ys) (take-all xs n (omega arith))

pub fd_entry-none : (o : Option FdHandle) → handle_allocated o ≡ false → fd_entry o ≡ none
fd_entry-none none e = refl
fd_entry-none (some f) e = ground (arith, e)

-- In a well-formed table a lookup just reads the element.
pub get_fd_entry-slot :
    (m : HandleMap) (fd : ℕ) → IsWell m → get_fd_entry fd m ≡ fd_entry (slot m fd)
unfolding get_fd_entry
get_fd_entry-slot m fd w = elim (Bool-cases (handle_allocated (slot m fd))) [
  | inl used ↦ if_then _ _ none (w.under fd used)
  | inr free ↦
      if_both (λ o. o ≡ fd_entry (slot m fd)) (under_top fd m.fd_top) _ none refl
        (sym (fd_entry-none (slot m fd) free))
]

pub some_inj {ℓ} : {A : Type ℓ} (a b : A) → some a ≡ some b → a ≡ b
some_inj a b e = cc

-- A fact about all smaller numbers and about the number itself.
pub below-suc : (P : ℕ → Type 0) (n : ℕ) → P n → (k : ℕ) → (k < n → P k) → k < suc n → P k
below-suc P n p k f h = elim (Bool-cases (ltb k n)) [
  | inl less ↦ f (ground (arith, less))
  | inr same ↦ subst P (ground (arith, same)) p
]

pub lower_top-none :
    (slots : List (Option FdHandle)) (n k : ℕ)
    → lower_top slots n ≡ none
    → k < n
    → handle_allocated (get_or slots k none) ≡ false
unfolding lower_top
lower_top-none slots zero k e h = absurd (omega arith)
lower_top-none slots (suc n) k e h = elim (Bool-cases (handle_allocated (get_or slots n none))) [
  | inl used ↦ absurd (cc (sym (if_then _ (some n) _ used) ∙ e))
  | inr free ↦
      below-suc (λ i. handle_allocated (get_or slots i none) ≡ false) n free k
        (lower_top-none slots n k (sym (if_else _ _ _ free) ∙ e)) h
]

pub lower_top-some :
    (slots : List (Option FdHandle)) (n top : ℕ)
    → lower_top slots n ≡ some top
    → (top < n)
      × (handle_allocated (get_or slots top none) ≡ true)
      × ((k : ℕ) → top < k → k < n → handle_allocated (get_or slots k none) ≡ false)
unfolding lower_top
lower_top-some slots zero top e = ground (arith, e)
lower_top-some slots (suc n) top e = elim (Bool-cases (handle_allocated (get_or slots n none))) [
  | inl used ↦
      let same : n ≡ top = some_inj n top (sym (if_then _ (some n) _ used) ∙ e) in
      (
        omega (arith, same),
        subst (λ i. handle_allocated (get_or slots i none) ≡ true) same used,
        λ k p q. absurd (omega (arith, same)),
      )
  | inr free ↦
      let (le, used, rest) = lower_top-some slots n top (sym (if_else _ _ _ free) ∙ e) in
      (
        omega (arith, le),
        used,
        λ k p q.
            below-suc (λ i. handle_allocated (get_or slots i none) ≡ false) n free k (rest k p) q,
      )
]
