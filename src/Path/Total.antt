-- ===== src/Path/Total.antt =====
-- With room for the path, `get_norm_path` ends with an answer.
use graphene.Base.{
  ℕ, zero, suc, ◌+◌, ◌-◌, ◌≤◌, ◌<◌, ◌≡◌, refl, Bool, true, false, Option, some, List, [], ◌∷◌, ◌++◌,
  ltb, ◌==◌, length, length-append, ap, arith, ltb-false, if_else, if_both, sym, subst, Result, ok,
}
use graphene.Path.{
  Norm, slash, find_next_slash, push_bytes, handle_token, next_round, norm_loop, written,
  start_norm, norm_relative, norm_absolute, norm_split, get_norm_path,
}
use graphene.Path.Scan.{length-find_next_slash}
use graphene.Path.Room.{length-push_bytes, used, IsWithin, Takes, handle_token-Takes}

-- The loop ends with all of the path read, in no more bytes than it has.
record Finishes (total bytes : ℕ) (s : Norm) (r : Option (Result Norm)) : Type 0 where
  pub result : Norm
  pub done : r ≡ some (ok result)
  pub written_bytes : length result.kept + length result.buf ≤ used s + bytes

next_round-Finishes :
    (total bytes : ℕ) (again : List ℕ → Norm → Option (Result Norm)) (end : List ℕ) (s : Norm)
    (r : Result Norm)
    → Takes total bytes s r
    → ((c : ℕ) (path : List ℕ) (s1 : Norm)
        → end ≡ c ∷ path
        → IsWithin total s1
        → used s1 ≤ used s + bytes + 1
        → Finishes total (length path) s1 (again path s1))
    → Finishes total (bytes + length end) s (next_round again end r)
next_round-Finishes total bytes again [] s r t go = record {
  result = t.result;
  done = rw t.done refl;
  written_bytes = omega (arith, t.written_bytes);
}
next_round-Finishes total bytes again (c ∷ path) s r t go =
    let rest = go c path t.result refl t.within t.cost in
    record {
      result = rest.result;
      done = rw t.done rest.done;
      written_bytes = omega (arith, rest.written_bytes, t.cost);
    }

norm_loop-Finishes :
    (fuel : ℕ) (absolute : Bool) (total : ℕ) (path : List ℕ) (s : Norm)
    → IsWithin total s
    → used s + length path ≤ total
    → length path < fuel
    → Finishes total (length path) s (norm_loop fuel absolute path s)
unfolding norm_loop
norm_loop-Finishes zero absolute total path s w h lt = absurd (omega arith)
norm_loop-Finishes (suc fuel) absolute total path s w h lt =
    let (token, end) = find_next_slash path in
    let all : length token + length end ≡ length path = length-find_next_slash path in
    subst (λ n. Finishes total n s (norm_loop (suc fuel) absolute path s)) all
      (next_round-Finishes total (length token) (norm_loop fuel absolute) end s
        (handle_token absolute token s)
        (handle_token-Takes absolute total token s w (omega (arith, all)))
        (λ c rest s1 e w1 cost.
          let behind : length end ≡ suc (length rest) = ap length e in
          norm_loop-Finishes fuel absolute total rest s1 w1 (omega (arith, all, behind, cost))
            (omega (arith, all, behind))))

-- An answer in at most so many bytes.
abbrev pub AnswersWithin : ℕ → Option (Result (List ℕ)) → Type 0
AnswersWithin n r = (out : List ℕ) × (r ≡ some (ok out)) × (length out ≤ n)

written-AnswersWithin :
    (total bytes n : ℕ) (s : Norm) (r : Option (Result Norm))
    → Finishes total bytes s r
    → used s + bytes ≤ n
    → AnswersWithin n (written r)
written-AnswersWithin total bytes n s r f h = (
  push_bytes (f.result.buf ++ f.result.kept) [],
  rw f.done refl,
  omega (
    arith,
    length-push_bytes (f.result.buf ++ f.result.kept) [],
    length-append f.result.buf f.result.kept,
    f.written_bytes,
  ),
)

norm_relative-AnswersWithin :
    (size : ℕ) (path : List ℕ)
    → length path ≤ size
    → AnswersWithin (length path) (norm_relative size path)
unfolding norm_relative
norm_relative-AnswersWithin size path h =
    written-AnswersWithin size (length path) (length path) (start_norm [] size) _
      (norm_loop-Finishes (suc (length path)) false size path (start_norm [] size)
        (record { room = omega arith; inside = omega arith }) (omega arith) (omega arith))
      (omega arith)

norm_absolute-AnswersWithin :
    (size : ℕ) (path : List ℕ)
    → suc (length path) ≤ size
    → AnswersWithin (suc (length path)) (norm_absolute size path)
unfolding norm_absolute
norm_absolute-AnswersWithin size path h =
    let start = start_norm (slash ∷ []) (size - 1) in
    subst (AnswersWithin (suc (length path)))
      (sym (if_else (ltb size 1) _ _ (ltb-false (omega arith))))
      (written-AnswersWithin size (length path) (suc (length path)) start _
        (norm_loop-Finishes (suc (length path)) true size path start
          (record { room = omega arith; inside = omega arith }) (omega arith) (omega arith))
        (omega arith))

norm_split-AnswersWithin :
    (size : ℕ) (path : List ℕ)
    → length path ≤ size
    → AnswersWithin (length path) (norm_split size path)
unfolding norm_split norm_relative
norm_split-AnswersWithin size [] h = ([], refl, omega arith)
norm_split-AnswersWithin size (c ∷ path) h =
    if_both (AnswersWithin (suc (length path))) (c == slash) (norm_absolute size path)
      (norm_relative size (c ∷ path)) (norm_absolute-AnswersWithin size path h)
      (norm_relative-AnswersWithin size (c ∷ path) h)

-- With a buffer for the path and its closing zero, `get_norm_path` ends with an answer that is no
-- longer than the path.
pub get_norm_path_total :
    (size : ℕ) (path : List ℕ)
    → length path < size
    → AnswersWithin (length path) (get_norm_path size path)
unfolding get_norm_path
get_norm_path_total size path h =
    let some_size : (size == 0) ≡ false = ground arith in
    subst (AnswersWithin (length path)) (sym (if_else (size == 0) _ _ some_size))
      (norm_split-AnswersWithin (size - 1) path (omega arith))
