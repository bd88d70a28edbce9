-- ===== src/Models/Gguf/Checking.antt =====
-- What `GGUFWeights` has checked when it returns (python/minisgl/models/gguf.py).
use flash_kvmo_e.Base.{
  ℕ, Bool, true, some, List, [], Result, ok, ok-injective, guard-eq-ok, >>=-eq-ok, value_error, ◌≡◌,
  refl, subst, All, length,
}
use flash_kvmo_e.Base.Texts.{Dict, get}
use flash_kvmo_e.Models.Config.{ModelConfig}
use flash_kvmo_e.Models.Gguf.{
  Reader, GgufWeights, Content, index_readers, check_shards, architecture_name, supported,
}
use flash_kvmo_e.Models.Gguf.Indexing.{index_readers-eq-ok}
use flash_kvmo_e.Models.Gguf.Shapes.{check_shapes, expected_shapes}
use flash_kvmo_e.Models.Gguf.Metadata.{check_metadata, expected_metadata}
use flash_kvmo_e.Models.Gguf.Init.{gguf_weights, first_fields}

module _ {F D : Type 0} (is_close : Content F → Content F → Bool) (c : ModelConfig F) where
  -- What each step of the constructor returned.
  abbrev Accepted : Result (List (Reader F D)) → GgufWeights F D → Type 0
  Accepted found w =
      (found ≡ ok w.readers)
      × (w.config ≡ c)
      × ((ids : List (Content F)) × (index_readers (architecture_name c) (length w.readers) true
              w.readers [] []
            ≡ ok (w.tensors, ids))
          × (check_shards (length w.readers) ids ≡ ok tt))
      × ((expected : Dict (List ℕ)) × (expected_shapes c w.tensors ≡ ok expected)
          × (check_shapes w.tensors expected ≡ ok tt))
      × ((metadata : Dict (Content F)) × (expected_metadata c (first_fields w.readers)
            ≡ ok metadata)
          × (check_metadata is_close (architecture_name c) w.readers metadata ≡ ok tt))

  gguf_weights-Accepted :
      (found : Result (List (Reader F D))) (w : GgufWeights F D)
      → gguf_weights is_close c found ≡ ok w
      → Accepted found w
  unfolding gguf_weights
  gguf_weights-Accepted found w run =
      let (known, run1) = guard-eq-ok (supported c.architectures) value_error _ run in
      let (readers, opened, run2) = >>=-eq-ok found _ run1 in
      let ((tensors, ids), indexed, run3) =
        >>=-eq-ok (index_readers (architecture_name c) (length readers) true readers [] []) _
          run2 in
      let (_, sharded, run4) = >>=-eq-ok (check_shards (length readers) ids) _ run3 in
      let (expected, shapes, run5) = >>=-eq-ok (expected_shapes c tensors) _ run4 in
      let (_, shaped, run6) = >>=-eq-ok (check_shapes tensors expected) _ run5 in
      let (metadata, listed, run7) =
        >>=-eq-ok (expected_metadata c (first_fields readers)) _ run6 in
      let (_, close, run8) =
        >>=-eq-ok (check_metadata is_close (architecture_name c) readers metadata) _ run7 in
      subst (Accepted found) (ok-injective run8) (
        opened,
        refl,
        (ids, indexed, sharded),
        (expected, shapes, shaped),
        (metadata, listed, close),
      )

  -- When the constructor returns, the index has every tensor of every reader under its name.
  pub index_complete :
      (found : Result (List (Reader F D))) (w : GgufWeights F D)
      → gguf_weights is_close c found ≡ ok w
      → All (λ r. All (λ t. get w.tensors t.name ≡ some t) r.tensors) w.readers
  index_complete found w run =
      let (_, _, (ids, indexed, _), _, _) = gguf_weights-Accepted found w run in
      (index_readers-eq-ok (architecture_name c) (length w.readers) true w.readers [] w.tensors []
        ids indexed).1
