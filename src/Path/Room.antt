-- ===== src/Path/Room.antt =====
-- The room that one token needs in the buffer of `get_norm_path`.
use graphene.Base.{
  ℕ, suc, ◌+◌, ◌-◌, ◌≤◌, ◌≡◌, refl, Bool, true, false, List, [], ◌∷◌, ltb, ◌==◌, length, ap, arith,
  ltb-false, Bool-cases, if_else, if_both, inl, inr, Result, ok,
}
use graphene.Path.{
  Norm, slash, to_nat, prev_slash, find_prev_slash_offset, push_bytes, push_slash, is_dotdot,
  is_ignored, go_up, go_down, handle_token,
}

pub length-push_bytes : (n xs : List ℕ) → length (push_bytes n xs) ≡ length n + length xs
length-push_bytes [] xs = omega arith
length-push_bytes (c ∷ cs) xs = omega (arith, length-push_bytes cs (c ∷ xs))

pub length-push_slash : (b : Bool) (xs : List ℕ) → length (push_slash b xs) ≡ to_nat b + length xs
length-push_slash true xs = omega arith
length-push_slash false xs = omega arith

length-prev_slash :
    (c : ℕ) (r : List ℕ)
    → to_nat (prev_slash (c ∷ r)).0 + length (prev_slash (c ∷ r)).1 ≤ suc (length r)
unfolding prev_slash
length-prev_slash c [] = ground arith
length-prev_slash c (d ∷ r) = elim (Bool-cases (c == slash)) [
  | inl h ↦ rw h (omega arith)
  | inr h ↦ rw h (omega (arith, length-prev_slash d r))
]

pub length-find_prev :
    (c : ℕ) (r : List ℕ)
    → to_nat (find_prev_slash_offset (c ∷ r)).0 + length (find_prev_slash_offset (c ∷ r)).1
      ≤ suc (length r)
unfolding find_prev_slash_offset
length-find_prev c [] = ground arith
length-find_prev c (d ∷ r) =
    if_both (λ p. to_nat p.0 + length p.1 ≤ suc (suc (length r))) (c == slash) (prev_slash (d ∷ r))
      (prev_slash (c ∷ d ∷ r)) (omega (arith, length-prev_slash d r)) (length-prev_slash c (d ∷ r))

-- The bytes in use, with the slash that is due before another name.
abbrev pub used : Norm → ℕ
used s = length s.kept + length s.buf + to_nat s.need_slash

-- The room up to `total` bytes is accounted for.
pub record IsWithin (total : ℕ) (s : Norm) : Type 0 where
  pub room : length s.kept + s.size ≡ total
  pub inside : length s.buf ≤ s.size

-- A token with room for it is handled, and uses at most its own bytes and a slash.
pub record Takes (total bytes : ℕ) (s : Norm) (r : Result Norm) : Type 0 where
  pub result : Norm
  pub done : r ≡ ok result
  pub within : IsWithin total result
  pub written_bytes : length result.kept + length result.buf ≤ used s + bytes
  pub cost : used result ≤ used s + bytes + 1

go_up_root-Takes :
    (total : ℕ) (s : Norm)
    → s.buf ≡ []
    → IsWithin total s
    → used s + 2 ≤ total
    → Takes total 2 s (go_up false [] s)
unfolding go_up
go_up_root-Takes total s q w h =
    let empty : length s.buf ≡ 0 = ap length q in
    let fits : ltb s.size (to_nat s.need_slash + 2) ≡ false = ltb-false (omega (arith, w.room)) in
    let grown = length-push_slash s.need_slash s.kept in
    record {
      result = _;
      done = if_else (ltb s.size (to_nat s.need_slash + 2)) _ _ fits;
      within = record {
        room = omega (arith, w.room, w.inside);
        inside = omega (arith, w.room, w.inside);
      };
      written_bytes = omega (arith, w.room, w.inside);
      cost = omega (arith, w.room, w.inside);
    }

go_up-Takes :
    (absolute : Bool) (total : ℕ) (s : Norm) (buf : List ℕ)
    → s.buf ≡ buf
    → IsWithin total s
    → used s + 2 ≤ total
    → Takes total 2 s (go_up absolute buf s)
unfolding go_up
go_up-Takes true total s [] q w h = record {
  result = s;
  done = refl;
  within = w;
  written_bytes = omega arith;
  cost = omega arith;
}
go_up-Takes false total s [] q w h = go_up_root-Takes total s q w h
go_up-Takes absolute total s (c ∷ r) q w h =
    let less = length-find_prev c r in
    let size : length s.buf ≡ suc (length r) = ap length q in
    record {
      result = _;
      done = refl;
      within = record { room = w.room; inside = omega (arith, w.room, w.inside) };
      written_bytes = omega (arith, w.room, w.inside);
      cost = omega (arith, w.room, w.inside);
    }

go_down-Takes :
    (total : ℕ) (token : List ℕ) (s : Norm)
    → IsWithin total s
    → used s + length token ≤ total
    → Takes total (length token) s (go_down token s)
unfolding go_down
go_down-Takes total token s w h =
    let fits : ltb (s.size - length s.buf) (to_nat s.need_slash + length token) ≡ false =
      ltb-false (omega (arith, w.room, w.inside)) in
    let grown = length-push_bytes token (push_slash s.need_slash s.buf) in
    let slashed = length-push_slash s.need_slash s.buf in
    record {
      result = _;
      done = if_else (ltb (s.size - length s.buf) (to_nat s.need_slash + length token)) _ _ fits;
      within = record { room = w.room; inside = omega (arith, w.room, w.inside) };
      written_bytes = omega (arith, w.room, w.inside);
      cost = omega (arith, w.room, w.inside);
    }

length-dotdot : (token : List ℕ) → is_dotdot token ≡ true → length token ≡ 2
unfolding is_dotdot
length-dotdot [] h = cc
length-dotdot (a ∷ []) h = cc
length-dotdot (a ∷ b ∷ []) h = refl
length-dotdot (a ∷ b ∷ c ∷ r) h = cc

pub handle_token-Takes :
    (absolute : Bool) (total : ℕ) (token : List ℕ) (s : Norm)
    → IsWithin total s
    → used s + length token ≤ total
    → Takes total (length token) s (handle_token absolute token s)
unfolding handle_token
handle_token-Takes absolute total token s w h = elim (Bool-cases (is_dotdot token)) [
  | inl up ↦
      let two = length-dotdot token up in
      rw (up, two) (go_up-Takes absolute total s s.buf refl w (omega (arith, two)))
  | inr down ↦ rw down (
      if_both (Takes total (length token) s) (is_ignored token) (ok s) (go_down token s)
        (record {
          result = s;
          done = refl;
          within = w;
          written_bytes = omega arith;
          cost = omega arith;
        })
        (go_down-Takes total token s w h))
]
