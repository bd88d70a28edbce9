-- ===== src/Layers/Embedding.antt =====
-- The vocabulary of a model over the ranks, and the logits that are gathered from them
-- (python/minisgl/layers/embedding.py). A matrix is a list of rows; `all_gather` sets the ranks' rows
-- below each other.
use flash_kvmo_e.Base.{
  ℕ, zero, suc, ◌+◌, ◌-◌, ◌*◌, min, none, some, List, [], ◌∷◌, ◌++◌, map, ◌==◌, if◌then◌else◌,
  length, take, drop, range, get_elem?,
}
use flash_kvmo_e.Utils.{div_ceil}

pub record VocabRange : Type 0 where
  pub start_idx : ℕ
  pub count : ℕ

-- `num_embeddings_tp`
abbrev pub local_size : ℕ → ℕ → ℕ
local_size num_embeddings tp_size = div_ceil num_embeddings tp_size

-- A rank behind the end of the vocabulary has a range that is empty here and negative in the source.
unfoldable pub vocab_range : ℕ → ℕ → ℕ → VocabRange
unfolding div_ceil
vocab_range num_embeddings tp_size tp_rank =
    let start_idx = local_size num_embeddings tp_size * tp_rank in
    let finish_idx = min (start_idx + local_size num_embeddings tp_size) num_embeddings in
    record { start_idx = start_idx; count = finish_idx - start_idx }

unfoldable pub concat {ℓ} : {A : Type ℓ} → List (List A) → List A
concat [] = []
concat (xs ∷ xss) = xs ++ concat xss

-- `view((tp_size, rows) + …)`
unfoldable pub chunks {ℓ} : {A : Type ℓ} → ℕ → ℕ → List A → List (List A)
chunks zero rows xs = []
chunks (suc n) rows xs = take rows xs ∷ chunks n rows (drop rows xs)

module _ {ℓ} {A : Type ℓ} where
  abbrev pub row_of : ℕ → List (List A) → List A
  row_of i m = elim (get_elem? m i) [ none ↦ [] | some row ↦ row ]

  -- `permute(1, 0, 2)` and the reshape to one row for each row of a rank.
  unfoldable pub side_by_side : ℕ → List (List (List A)) → List (List A)
  unfolding concat
  side_by_side rows ranks = map (λ i. concat (map (row_of i) ranks)) (range 0 rows)

  -- The end of `ParallelLMHead.forward` on more than one rank; `logits` is what each rank
  -- computed, in the order of the ranks, `rows` the number of its rows.
  unfoldable pub gather_logits : ℕ → ℕ → ℕ → List (List (List A)) → List (List A)
  unfolding concat chunks side_by_side
  gather_logits num_embeddings bs rows logits =
      let output_tensor = concat logits in
      if bs == 1
      then take num_embeddings (concat output_tensor) ∷ []
      else map (take num_embeddings) (side_by_side rows (chunks (length logits) rows output_tensor))
