-- ===== src/Path/Bounds.antt =====
-- `get_norm_path` never writes beyond its buffer, whatever its size.
use graphene.Base.{
  ℕ, zero, suc, ◌+◌, ◌-◌, ◌≤◌, ◌<◌, ◌≡◌, refl, Bool, true, false, Option, none, some, List, [], ◌∷◌,
  ◌++◌, ltb, ◌==◌, length, length-append, ap, arith, Bool-cases, if_then, if_else, if_both, inl,
  inr, sym, ◌∙◌, subst, Result, ok, err,
}
use graphene.Path.{
  Norm, slash, to_nat, find_next_slash, push_slash, is_dotdot, is_ignored, go_up, go_down,
  handle_token, next_round, norm_loop, written, start_norm, norm_relative, norm_absolute,
  norm_split, get_norm_path,
}
use graphene.Path.Room.{length-push_bytes, length-push_slash, length-find_prev, IsWithin}

abbrev IfOk : (Norm → Type 0) → Result Norm → Type 0
IfOk P (ok s) = P s
IfOk P (err e) = Unit

abbrev IfEnds : (Norm → Type 0) → Option (Result Norm) → Type 0
IfEnds P none = Unit
IfEnds P (some r) = IfOk P r

go_up-IsWithin :
    (absolute : Bool) (total : ℕ) (s : Norm) (buf : List ℕ)
    → s.buf ≡ buf
    → IsWithin total s
    → IfOk (IsWithin total) (go_up absolute buf s)
unfolding go_up
go_up-IsWithin true total s [] q w = w
go_up-IsWithin false total s [] q w = elim (Bool-cases (ltb s.size (to_nat s.need_slash + 2))) [
  | inl full ↦ rw full tt
  | inr fits ↦
      let empty : length s.buf ≡ 0 = ap length q in
      let grown = length-push_slash s.need_slash s.kept in
      let enough : to_nat s.need_slash + 2 ≤ s.size = ground (arith, fits) in
      rw fits (record { room = omega (arith, w.room); inside = omega arith })
]
go_up-IsWithin absolute total s (c ∷ r) q w =
    let size : length s.buf ≡ suc (length r) = ap length q in
    record { room = w.room; inside = omega (arith, w.inside, length-find_prev c r) }

go_down-IsWithin :
    (total : ℕ) (token : List ℕ) (s : Norm)
    → IsWithin total s
    → IfOk (IsWithin total) (go_down token s)
unfolding go_down
go_down-IsWithin total token s w =
    elim (Bool-cases (ltb (s.size - length s.buf) (to_nat s.need_slash + length token))) [
      | inl full ↦ rw full tt
      | inr fits ↦
          let grown = length-push_bytes token (push_slash s.need_slash s.buf) in
          let slashed = length-push_slash s.need_slash s.buf in
          let enough : to_nat s.need_slash + length token ≤ s.size - length s.buf =
            ground (arith, fits) in
          rw fits (record { room = w.room; inside = omega (arith, w.inside) })
    ]

handle_token-IsWithin :
    (absolute : Bool) (total : ℕ) (token : List ℕ) (s : Norm)
    → IsWithin total s
    → IfOk (IsWithin total) (handle_token absolute token s)
unfolding handle_token
handle_token-IsWithin absolute total token s w =
    if_both (IfOk (IsWithin total)) (is_dotdot token) _ _
      (go_up-IsWithin absolute total s s.buf refl w)
      (if_both (IfOk (IsWithin total)) (is_ignored token) (ok s) _ w
        (go_down-IsWithin total token s w))

next_round-IsWithin :
    (total : ℕ) (again : List ℕ → Norm → Option (Result Norm)) (end : List ℕ) (r : Result Norm)
    → IfOk (IsWithin total) r
    → ((path : List ℕ) (s : Norm) → IsWithin total s → IfEnds (IsWithin total) (again path s))
    → IfEnds (IsWithin total) (next_round again end r)
next_round-IsWithin total again end (err e) w go = tt
next_round-IsWithin total again [] (ok s) w go = w
next_round-IsWithin total again (c ∷ path) (ok s) w go = go path s w

norm_loop-IsWithin :
    (fuel : ℕ) (absolute : Bool) (total : ℕ) (path : List ℕ) (s : Norm)
    → IsWithin total s
    → IfEnds (IsWithin total) (norm_loop fuel absolute path s)
unfolding norm_loop
norm_loop-IsWithin zero absolute total path s w = tt
norm_loop-IsWithin (suc fuel) absolute total path s w =
    next_round-IsWithin total (norm_loop fuel absolute) (find_next_slash path).1 _
      (handle_token-IsWithin absolute total (find_next_slash path).0 s w)
      (λ rest s1. norm_loop-IsWithin fuel absolute total rest s1)

-- What is answered has at most so many bytes.
abbrev FitsIn : ℕ → Option (Result (List ℕ)) → Type 0
FitsIn n none = Unit
FitsIn n (some (err e)) = Unit
FitsIn n (some (ok out)) = length out ≤ n

written-FitsIn :
    (total : ℕ) (r : Option (Result Norm)) → IfEnds (IsWithin total) r → FitsIn total (written r)
written-FitsIn total none w = tt
written-FitsIn total (some (err e)) w = tt
written-FitsIn total (some (ok s)) w =
    omega
      (arith, length-push_bytes (s.buf ++ s.kept) [], length-append s.buf s.kept, w.room, w.inside)

norm_relative-FitsIn : (size : ℕ) (path : List ℕ) → FitsIn size (norm_relative size path)
unfolding norm_relative
norm_relative-FitsIn size path = written-FitsIn size _ (
    norm_loop-IsWithin (suc (length path)) false size path (start_norm [] size)
      (record { room = omega arith; inside = omega arith }))

norm_absolute-FitsIn : (size : ℕ) (path : List ℕ) → FitsIn size (norm_absolute size path)
unfolding norm_absolute
norm_absolute-FitsIn size path = elim (Bool-cases (ltb size 1)) [
  | inl full ↦ subst (FitsIn size) (sym (if_then (ltb size 1) _ _ full)) tt
  | inr fits ↦ subst (FitsIn size) (sym (if_else (ltb size 1) _ _ fits)) (
      written-FitsIn size _ (
        norm_loop-IsWithin (suc (length path)) true size path (start_norm (slash ∷ []) (size - 1))
          (record { room = ground (arith, fits); inside = omega arith })))
]

norm_split-FitsIn : (size : ℕ) (path : List ℕ) → FitsIn size (norm_split size path)
unfolding norm_split
norm_split-FitsIn size [] = norm_relative-FitsIn size []
norm_split-FitsIn size (c ∷ path) =
    if_both (FitsIn size) (c == slash) _ _ (norm_absolute-FitsIn size path)
      (norm_relative-FitsIn size (c ∷ path))

-- Whatever the size of the buffer, an answer of `get_norm_path` leaves room for its closing zero.
pub get_norm_path-bound :
    (size : ℕ) (path out : List ℕ) → get_norm_path size path ≡ some (ok out) → length out < size
unfolding get_norm_path
get_norm_path-bound size path out e = elim (Bool-cases (size == 0)) [
  | inl h ↦ absurd (cc (rw h at e))
  | inr h ↦
      let fits : FitsIn (size - 1) (some (ok out)) =
        subst (FitsIn (size - 1)) (sym (if_else (size == 0) _ _ h) ∙ e)
          (norm_split-FitsIn (size - 1) path) in
      let some_size : 0 < size = ground (arith, h) in omega (arith, fits)
]
