-- ===== src/Vma/Tree.antt =====
-- `vma_tree` of LibOS/shim/src/bookkeep/shim_vma.c as the sequence of its nodes, first to last,
-- and what the functions of Pal/lib/avl_tree.c that the file calls do to that sequence.
use graphene.Base.{ℕ, Bool, Option, none, some, List, [], ◌∷◌, ltb, leb, ◌==◌, if◌then◌else◌}
use graphene.Vma.Types.{Vma}

-- `vma_tree_cmp`
unfoldable pub vma_tree_cmp : Vma → Vma → Bool
vma_tree_cmp a b = leb a.end b.end

-- `cmp_addr_to_vma`
unfoldable pub cmp_addr_to_vma : ℕ → Vma → Bool
cmp_addr_to_vma addr v = ltb addr v.end

-- `avl_tree_insert`: in front of the first node that the new one compares before.
unfoldable pub insert : Vma → List Vma → List Vma
unfolding vma_tree_cmp
insert v [] = v ∷ []
insert v (w ∷ ws) = if vma_tree_cmp v w then v ∷ w ∷ ws else w ∷ insert v ws

-- `avl_tree_delete`: the node is found by its `end`, which no two areas share.
unfoldable pub delete : Vma → List Vma → List Vma
delete v [] = []
delete v (w ∷ ws) = if v.end == w.end then ws else w ∷ delete v ws

-- `_lookup_vma` as a cursor: the nodes before the one found, and those from it on. It is the
-- first node whose end lies above `addr`; nothing follows if there is none.
unfoldable pub lookup : ℕ → List Vma → List Vma × List Vma
unfolding cmp_addr_to_vma
lookup addr [] = ([], [])
lookup addr (v ∷ vs) =
    let (before, after) = lookup addr vs in
    if cmp_addr_to_vma addr v then ([], v ∷ vs) else (v ∷ before, after)

abbrev pub head? : List Vma → Option Vma
head? [] = none
head? (v ∷ vs) = some v
