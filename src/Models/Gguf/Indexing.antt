-- ===== src/Models/Gguf/Indexing.antt =====
-- The index of a checkpoint (python/minisgl/models/gguf.py): which tensors it has.
use flash_kvmo_e.Base.{
  All-mono, inr, inl, ℕ, Bool, true, false, not, some, List, [], ◌∷◌, ◌++◌, ok, ok-injective,
  guard-eq-ok, >>=-eq-ok, value_error, ◌≡◌, refl, subst, ◌∙◌, All, arith, Bool-cases, ap,
}
use flash_kvmo_e.Base.Texts.{String, Dict, get, has, set, get-set, str_eq, str_eq_refl, str_eq_iff}
use flash_kvmo_e.Models.Gguf.{
  Tensor, Reader, index_tensors, index_readers, Content, check_architecture, shard_id,
}

module _ {D : Type 0} where
  -- A key that the index has is no fresh key.
  get_other :
      (index : Dict (Tensor D)) (new t : Tensor D) (k : String)
      → not (has index new.name) ≡ true
      → get index k ≡ some t
      → get (set new.name new index) k ≡ some t
  unfolding get
  get_other index new t k fresh there = elim (Bool-cases (str_eq new.name k)) [
    | inl same ↦
        let e = (str_eq_iff new.name k).0 same in
        let h : get index new.name ≡ some t = rw e there in ground (arith, h, fresh)
    | inr other ↦ get-set new.name new index k ∙ rw other there
  ]

  -- `index_tensors` keeps what the index has and adds every tensor under its name.
  pub index_tensors-eq-ok :
      (ts : List (Tensor D)) (index index' : Dict (Tensor D))
      → index_tensors ts index ≡ ok index'
      → ((k : String) (t : Tensor D) → get index k ≡ some t → get index' k ≡ some t)
        × All (λ t. get index' t.name ≡ some t) ts
  unfolding index_tensors
  index_tensors-eq-ok [] index index' run =
      (λ k t h. subst (λ d. get d k ≡ some t) (ok-injective run) h, tt)
  index_tensors-eq-ok (tensor ∷ ts) index index' run =
      let (fresh, rest) = guard-eq-ok (not (has index tensor.name)) value_error _ run in
      let (kept, added) = index_tensors-eq-ok ts (set tensor.name tensor index) index' rest in
      (
        λ k t h. kept k t (get_other index tensor t k fresh h),
        (
          kept tensor.name tensor
              (get-set tensor.name tensor index tensor.name ∙ rw (str_eq_refl tensor.name) refl),
          added,
        ),
      )

module _ {F D : Type 0} where
  pub index_readers-eq-ok :
      (name : String) (shards : ℕ) (first : Bool) (readers : List (Reader F D))
      (index index' : Dict (Tensor D)) (ids ids' : List (Content F))
      → index_readers name shards first readers index ids ≡ ok (index', ids')
      → ((k : String) (t : Tensor D) → get index k ≡ some t → get index' k ≡ some t)
        × All (λ r. All (λ t. get index' t.name ≡ some t) r.tensors) readers
  unfolding index_readers
  index_readers-eq-ok name shards first [] index index' ids ids' run =
      (λ k t h. subst (λ d. get d k ≡ some t) (ap (λ p. p.0) (ok-injective run)) h, tt)
  index_readers-eq-ok name shards first (reader ∷ readers) index index' ids ids' run =
      let (little, run1) = guard-eq-ok reader.little_endian value_error _ run in
      let (named, _, run2) =
        >>=-eq-ok (check_architecture first name (get reader.fields "general.architecture")) _
          run1 in
      let (id, _, run3) = >>=-eq-ok (shard_id shards reader.fields) _ run2 in
      let (middle, indexed, run4) = >>=-eq-ok (index_tensors reader.tensors index) _ run3 in
      let (kept, added) = index_tensors-eq-ok reader.tensors index middle indexed in
      let (kept', added') =
        index_readers-eq-ok name shards false readers middle index' (ids ++ id) ids' run4 in
      (
        λ k t h. kept' k t (kept k t h),
        (All-mono reader.tensors (λ t h. kept' t.name t h) added, added'),
      )
