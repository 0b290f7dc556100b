-- ===== src/Path.antt =====
-- Pal/lib/graphene/path.c: the lexical normalisation of paths, and their last component. A C string
-- is the list of its bytes without the closing zero; what has been written to a buffer is the list
-- of its bytes, the latest first.
pub mod Spec
pub mod Scan
pub mod Holds
pub mod Refine
pub mod Room
pub mod Total
pub mod Bounds
pub mod Climb
pub mod Reread
pub mod Idempotent
pub mod BaseName
mod Tests
use graphene.Base.{
  ℕ, zero, suc, ◌+◌, ◌-◌, Bool, true, false, not, ◌&&◌, ◌||◌, Option, none, some, List, [], ◌∷◌,
  ◌++◌, ltb, ◌==◌, if◌then◌else◌, length, Result, ok, err, inval, toolong,
}

abbrev pub slash : ℕ
slash = 47

abbrev pub dot : ℕ
dot = 46

-- `find_next_slash`: the bytes before the slash, and the rest from the slash on.
unfoldable pub find_next_slash : List ℕ → List ℕ × List ℕ
find_next_slash [] = ([], [])
find_next_slash (c ∷ cs) =
    let (token, end) = find_next_slash cs in if c == slash then ([], c ∷ cs) else (c ∷ token, end)

-- The second loop of `find_prev_slash_offset`, from the last byte down: whether it stands on a
-- slash, and the bytes below it.
unfoldable pub prev_slash : List ℕ → Bool × List ℕ
prev_slash [] = (false, [])
prev_slash (c ∷ []) = (c == slash, [])
prev_slash (c ∷ d ∷ r) =
    let further = prev_slash (d ∷ r) in if c == slash then (true, d ∷ r) else further

-- `find_prev_slash_offset`
unfoldable pub find_prev_slash_offset : List ℕ → Bool × List ℕ
unfolding prev_slash
find_prev_slash_offset [] = (false, [])
find_prev_slash_offset (c ∷ []) = (c == slash, [])
find_prev_slash_offset (c ∷ d ∷ r) =
    if c == slash then prev_slash (d ∷ r) else prev_slash (c ∷ d ∷ r)

-- The bytes of a token put behind those that are written.
abbrev pub push_bytes : List ℕ → List ℕ → List ℕ
push_bytes [] written = written
push_bytes (c ∷ cs) written = push_bytes cs (c ∷ written)

abbrev pub push_slash : Bool → List ℕ → List ℕ
push_slash need written = if need then slash ∷ written else written

abbrev pub to_nat : Bool → ℕ
to_nat b = if b then 1 else 0

-- The variables of `get_norm_path`: `kept` are the bytes in front of `buf`, which are not
-- discarded, `buf` those up to `offset`, and `size` the room from `buf` on.
pub record Norm : Type 0 where
  pub kept : List ℕ
  pub buf : List ℕ
  pub size : ℕ
  pub need_slash : Bool

unfoldable pub is_dotdot : List ℕ → Bool
is_dotdot [] = false
is_dotdot (a ∷ []) = false
is_dotdot (a ∷ b ∷ []) = a == dot && b == dot
is_dotdot (a ∷ b ∷ c ∷ r) = false

unfoldable pub is_ignored : List ℕ → Bool
is_ignored [] = true
is_ignored (a ∷ []) = a == dot
is_ignored (a ∷ b ∷ r) = false

-- The branch for a token "..", by what is in `buf`.
unfoldable pub go_up : Bool → List ℕ → Norm → Result Norm
unfolding find_prev_slash_offset
go_up absolute (c ∷ r) s =
    let (found, below) = find_prev_slash_offset (c ∷ r) in
    ok (record s { buf = below; need_slash = found })
go_up absolute [] s =
    if absolute
    then ok s
    else if ltb s.size (to_nat s.need_slash + 2)
    then err toolong
    else ok (record s {
      kept = push_bytes (dot ∷ dot ∷ []) (push_slash s.need_slash s.kept);
      size = s.size - (to_nat s.need_slash + 2);
      need_slash = true;
    })

-- The branch for any other token.
unfoldable pub go_down : List ℕ → Norm → Result Norm
go_down token s =
    if ltb (s.size - length s.buf) (to_nat s.need_slash + length token)
    then err toolong
    else ok (record s { buf = push_bytes token (push_slash s.need_slash s.buf); need_slash = true })

unfoldable pub handle_token : Bool → List ℕ → Norm → Result Norm
unfolding is_dotdot is_ignored go_up go_down
handle_token absolute token s =
    if is_dotdot token
    then go_up absolute s.buf s
    else if is_ignored token
    then ok s
    else go_down token s

-- What follows a token: an error, the end of the path, or the next round behind the slash.
abbrev pub next_round :
    (List ℕ → Norm → Option (Result Norm)) → List ℕ → Result Norm → Option (Result Norm)
next_round again end (err e) = some (err e)
next_round again [] (ok s) = some (ok s)
next_round again (c ∷ path) (ok s) = again path s

-- The loop of `get_norm_path`; `none` means that the fuel ran out.
unfoldable pub norm_loop : ℕ → Bool → List ℕ → Norm → Option (Result Norm)
unfolding find_next_slash handle_token
norm_loop zero absolute path s = none
norm_loop (suc fuel) absolute path s =
    let (token, end) = find_next_slash path in
    next_round (norm_loop fuel absolute) end (handle_token absolute token s)

-- The string that the buffer holds at the end; its length is what `*size_ptr` is set to.
abbrev pub written : Option (Result Norm) → Option (Result (List ℕ))
written none = none
written (some (err e)) = some (err e)
written (some (ok s)) = some (ok (push_bytes (s.buf ++ s.kept) []))

abbrev pub start_norm : List ℕ → ℕ → Norm
start_norm kept size = record { kept = kept; buf = []; size = size; need_slash = false }

unfoldable pub norm_relative : ℕ → List ℕ → Option (Result (List ℕ))
unfolding norm_loop
norm_relative size path = written (norm_loop (suc (length path)) false path (start_norm [] size))

unfoldable pub norm_absolute : ℕ → List ℕ → Option (Result (List ℕ))
unfolding norm_loop
norm_absolute size path =
    if ltb size 1
    then some (err toolong)
    else written (norm_loop (suc (length path)) true path (start_norm (slash ∷ []) (size - 1)))

unfoldable pub norm_split : ℕ → List ℕ → Option (Result (List ℕ))
unfolding norm_relative norm_absolute
norm_split size [] = norm_relative size []
norm_split size (c ∷ path) =
    if c == slash then norm_absolute size path else norm_relative size (c ∷ path)

-- `get_norm_path`, into a buffer of `size` bytes; the loop has more fuel than the path has bytes.
unfoldable pub get_norm_path : ℕ → List ℕ → Option (Result (List ℕ))
unfolding norm_split
get_norm_path size path = if size == 0 then some (err inval) else norm_split (size - 1) path

abbrev pub last_from : (List ℕ → Option (List ℕ)) → List ℕ × List ℕ → Option (List ℕ)
last_from again (token, []) = some token
last_from again (token, c ∷ path) = again path

-- The loop of `get_base_name`, with fuel.
unfoldable pub last_token : ℕ → List ℕ → Option (List ℕ)
unfolding find_next_slash
last_token zero path = none
last_token (suc fuel) path = last_from (last_token fuel) (find_next_slash path)

abbrev pub base_name_result : ℕ → Option (List ℕ) → Option (Result (List ℕ))
base_name_result size none = none
base_name_result size (some token) =
    some (if ltb size (length token + 1) then err toolong else ok token)

-- `get_base_name`, into a buffer of `size` bytes; the pointers are not NULL.
unfoldable pub get_base_name : ℕ → List ℕ → Option (Result (List ℕ))
unfolding last_token
get_base_name size path = base_name_result size (last_token (suc (length path)) path)
