-- ===== src/Layers/Tests.antt =====
-- Two ranks with a vocabulary of three ids, and a batch of two rows.
use flash_kvmo_e.Utils.{div_ceil}
use flash_kvmo_e.Base.{range_from, ℕ, ◌+◌, ◌<◌, ◌≡◌, refl, List, [], ◌∷◌, get_elem?, arith}
use flash_kvmo_e.Layers.Embedding.{gather_logits, vocab_range, row_of}
use flash_kvmo_e.Layers.Vocabulary.{gather_logits_lem}

abbrev ranks : List (List (List ℕ))
ranks = ((1 ∷ 2 ∷ []) ∷ (11 ∷ 12 ∷ []) ∷ []) ∷ ((3 ∷ 0 ∷ []) ∷ (13 ∷ 0 ∷ []) ∷ []) ∷ []

gather_logits-two : gather_logits 3 2 2 ranks ≡ (1 ∷ 2 ∷ 3 ∷ []) ∷ (11 ∷ 12 ∷ 13 ∷ []) ∷ []
unfolding gather_logits range_from
gather_logits-two = refl

gather_logits_lem_example :
    (q : ℕ) × (r : ℕ) × (q < 2)
    × (r < (vocab_range 3 2 q).count)
    × ((vocab_range 3 2 q).start_idx + r ≡ 2)
    × (get_elem? (row_of 1 (gather_logits 3 2 2 ranks)) 2 ≡ get_elem? (row_of 1 (row_of q ranks)) r)
unfolding div_ceil
gather_logits_lem_example =
    gather_logits_lem 3 2 2 2 1 ranks (omega arith) ((refl, (refl, tt)), ((refl, (refl, tt)), tt))
      (refl, (refl, tt)) (λ e. absurd (omega arith)) (omega arith) (omega arith)
