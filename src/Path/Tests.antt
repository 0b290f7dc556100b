-- ===== src/Path/Tests.antt =====
-- Paths at small inputs.
use graphene.Base.{ℕ, ◌≡◌, ◌<◌, refl, some, List, [], ◌∷◌, ok, err, toolong, inval, length, arith}
use graphene.Path.{get_norm_path}
use graphene.Path.Spec.{normal_form}
use graphene.Path.Refine.{get_norm_path-normal_form}
use graphene.Path.Total.{AnswersWithin, get_norm_path_total}
use graphene.Path.Bounds.{get_norm_path-bound}
use graphene.Path.Idempotent.{get_norm_path-get_norm_path}

-- "a/./b//../../../c" and "../c"
abbrev tangled : List ℕ
tangled = 97 ∷ 47 ∷ 46 ∷ 47 ∷ 98 ∷ 47 ∷ 47 ∷ 46 ∷ 46 ∷ 47 ∷ 46 ∷ 46 ∷ 47 ∷ 46 ∷ 46 ∷ 47 ∷ 99 ∷ []

abbrev short : List ℕ
short = 46 ∷ 46 ∷ 47 ∷ 99 ∷ []

tangled_run : get_norm_path 5 tangled ≡ some (ok short)
unfolding get_norm_path
tangled_run = refl

rooted_run : get_norm_path 9 (47 ∷ short) ≡ some (ok (47 ∷ 99 ∷ []))
unfolding get_norm_path
rooted_run = refl

small_run : get_norm_path 3 tangled ≡ some (err toolong)
unfolding get_norm_path
small_run = refl

empty_run : get_norm_path 0 tangled ≡ some (err inval)
unfolding get_norm_path
empty_run = refl

get_norm_path-normal_form_example : short ≡ normal_form tangled
get_norm_path-normal_form_example = get_norm_path-normal_form 5 tangled short tangled_run

get_norm_path_total_example : AnswersWithin (length tangled) (get_norm_path 18 tangled)
get_norm_path_total_example = get_norm_path_total 18 tangled (omega arith)

get_norm_path-bound_example : length short < 5
get_norm_path-bound_example = get_norm_path-bound 5 tangled short tangled_run

get_norm_path-get_norm_path_example : get_norm_path 9 short ≡ some (ok short)
get_norm_path-get_norm_path_example =
    get_norm_path-get_norm_path 5 9 tangled short tangled_run (omega arith)
