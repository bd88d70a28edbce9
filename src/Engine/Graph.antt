-- ===== src/Engine/Graph.antt =====
-- The choice of CUDA graph batch sizes and the padding of a batch (python/minisgl/engine/graph.py).
-- Capture and replay are calls of CUDA. Free memory is in bytes.
use flash_kvmo_e.Base.{
  ℕ, zero, suc, ◌+◌, ◌-◌, ◌*◌, ◌^◌, Bool, false, Option, none, some, List, [], ◌∷◌, ◌++◌, Result,
  ok, raise, stop_iteration, ◌>>=◌, leb, ltb, ◌==◌, if◌then◌else◌, length, replicate,
}
use flash_kvmo_e.Base.Sorting.{sorted}
use flash_kvmo_e.Core.{Phase, prefill, decode}

-- `[bs for bs in sizes if bs <= limit]`
unfoldable pub at_most : ℕ → List ℕ → List ℕ
at_most limit [] = []
at_most limit (x ∷ xs) = if leb x limit then x ∷ at_most limit xs else at_most limit xs

-- `range(start, stop, 8)`, with enough rounds.
unfoldable pub range_by_8 : ℕ → ℕ → ℕ → List ℕ
range_by_8 zero start stop = []
range_by_8 (suc fuel) start stop =
    let rest = range_by_8 fuel (start + 8) stop in if ltb start stop then start ∷ rest else []

-- `sorted(set(…))`, by insertion that leaves a repeated number out.
unfoldable pub insert_once : ℕ → List ℕ → List ℕ
insert_once x [] = x ∷ []
insert_once x (y ∷ ys) =
    if x == y then y ∷ ys else if ltb x y then x ∷ y ∷ ys else y ∷ insert_once x ys

unfoldable pub sorted_set : List ℕ → List ℕ
unfolding insert_once
sorted_set [] = []
sorted_set (x ∷ xs) = insert_once x (sorted_set xs)

-- `free_memory / (1 << 30) > 80`: the quotient is exact in the comparison with an integer.
unfoldable pub default_max_bs : ℕ → ℕ
default_max_bs free_memory = if ltb (80 * 2 ^ 30) free_memory then 256 else 160

abbrev small_sizes : List ℕ
small_sizes = 1 ∷ 2 ∷ 4 ∷ 8 ∷ 12 ∷ []

unfoldable pub sizes_up_to : ℕ → List ℕ
unfolding at_most range_by_8 sorted_set
sizes_up_to limit =
    if ltb limit 1
    then []
    else sorted_set
        (at_most limit small_sizes ++ range_by_8 (limit + 1) 16 (limit + 1) ++ limit ∷ [])

unfoldable pub determine_cuda_graph_bs : Option (List ℕ) → Option ℕ → ℕ → List ℕ
unfolding default_max_bs sizes_up_to
determine_cuda_graph_bs (some cuda_graph_bs) max_bs free_memory = cuda_graph_bs
determine_cuda_graph_bs none none free_memory = sizes_up_to (default_max_bs free_memory)
determine_cuda_graph_bs none (some max_bs) free_memory = sizes_up_to max_bs

-- `max(cuda_graph_bs) if cuda_graph_bs else 0`
unfoldable pub maximum : List ℕ → ℕ
maximum [] = 0
maximum (x ∷ xs) = if leb (maximum xs) x then x else maximum xs

pub record GraphRunner : Type 0 where
  pub max_graph_bs : ℕ
  pub graph_bs_list : List ℕ

unfoldable pub new_runner : List ℕ → GraphRunner
unfolding maximum sorted
new_runner bs = record { max_graph_bs = maximum bs; graph_bs_list = sorted bs }

unfoldable pub can_use_cuda_graph : GraphRunner → Phase → ℕ → Bool
can_use_cuda_graph g prefill size = false
can_use_cuda_graph g decode size = leb size g.max_graph_bs

-- `next(bs for bs in sizes if bs >= size)`
unfoldable pub first_at_least : ℕ → List ℕ → Result ℕ
first_at_least size [] = raise stop_iteration
first_at_least size (x ∷ xs) = if leb size x then ok x else first_at_least size xs

unfoldable pub padded_size : GraphRunner → Phase → ℕ → Result ℕ
unfolding can_use_cuda_graph first_at_least
padded_size g phase size =
    if can_use_cuda_graph g phase size then first_at_least size g.graph_bs_list else ok size

-- `padded_reqs`
unfoldable pub pad_batch : {R : Type 0} → GraphRunner → R → Phase → List R → Result (List R)
unfolding padded_size
pad_batch g dummy_req phase reqs = do
  size ← padded_size g phase (length reqs)
  ok (reqs ++ replicate (size - length reqs) dummy_req)
