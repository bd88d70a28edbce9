-- ===== src/Models/Gguf/Init.antt =====
-- `GGUFWeights.__init__` as a whole (python/minisgl/models/gguf.py). `readers` is what
-- `open_gguf_readers` returns for the path.
use flash_kvmo_e.Base.{
  Bool, true, List, [], ◌∷◌, Result, ok, value_error, guard, ◌>>=◌, ◌>>◌, length,
}
use flash_kvmo_e.Base.Texts.{Dict}
use flash_kvmo_e.Models.Config.{ModelConfig}
use flash_kvmo_e.Models.Gguf.{
  Content, Reader, GgufWeights, supported, architecture_name, index_readers, check_shards,
}
use flash_kvmo_e.Models.Gguf.Shapes.{expected_shapes, check_shapes}
use flash_kvmo_e.Models.Gguf.Metadata.{expected_metadata, check_metadata}

-- `self.readers[0].fields`
abbrev pub first_fields : {F D : Type 0} → List (Reader F D) → Dict (Content F)
first_fields [] = []
first_fields (reader ∷ rest) = reader.fields

module _ {F D : Type 0} (is_close : Content F → Content F → Bool) (c : ModelConfig F) where
  -- `open_gguf_readers` never returns an empty list.
  unfoldable pub gguf_weights : Result (List (Reader F D)) → Result (GgufWeights F D)
  unfolding index_readers check_shards expected_shapes check_shapes expected_metadata check_metadata
  gguf_weights opened = do
    guard (supported c.architectures) value_error
    readers ← opened
    (tensors, shard_ids) ← index_readers (architecture_name c) (length readers) true readers [] []
    check_shards (length readers) shard_ids
    expected ← expected_shapes c tensors
    check_shapes tensors expected
    metadata ← expected_metadata c (first_fields readers)
    check_metadata is_close (architecture_name c) readers metadata
    ok (record { readers = readers; tensors = tensors; config = c })
