-- ===== src/Engine/Pages.antt =====
-- Bounds on what `Engine.__init__` allocates (python/minisgl/engine/engine.py).
use flash_kvmo_e.Engine.Memory.{
  EngineSizes, cache_per_page, cache_width, init_sizes, determine_num_pages, pages_that_fit,
  align_up_32,
}
use flash_kvmo_e.Base.{
  ==_iff, ◌++◌, ◌==◌, sym, true, drop, refl, false, ◌⊎◌, zero, suc, inl, inr, Bool-cases, ◌∙◌, inr,
  ◌∙◌, inl, Bool-cases, suc, ℕ, ◌+◌, ◌-◌, ◌*◌, ◌/◌, ◌%◌, none, some, List, [], ◌∷◌, Result, ok,
  assertion_error, zero_division, ltb, min, ◌≡◌, subst, ap, arith, ◌≤◌, ◌<◌, All, All-append,
  if◌then◌else◌, replicate, guard-eq-ok, >>=-eq-ok, ok-injective, ltb→lt, length, length-append,
  length-replicate,
}
use flash_kvmo_e.Models.Config.{Floats, is_mla}
use flash_kvmo_e.Utils.{div_even}
use flash_kvmo_e.Engine.Config.{EngineConfig, config_max_seq_len, itemsize}

align_up_32-bounds :
    (n : ℕ) → (n ≤ align_up_32 n) × (align_up_32 n < n + 32) × (align_up_32 n % 32 ≡ 0)
unfolding align_up_32
align_up_32-bounds n = (grind arith, grind arith, grind arith)

All-replicate {ℓ κ} : {A : Type ℓ} (P : A → Type κ) (n : ℕ) (a : A) → P a → All P (replicate n a)
All-replicate P zero a h = tt
All-replicate P (suc n) a h = (h, All-replicate P n a h)

drop-append_replicate {ℓ} :
    {A : Type ℓ} (n : ℕ) (a : A) (xs : List A) → drop n (replicate n a ++ xs) ≡ xs
drop-append_replicate zero a xs = refl
drop-append_replicate (suc n) a xs = drop-append_replicate n a xs

-- The heads of a rank.
div_even-eq-ok : (a b n : ℕ) → div_even a b true ≡ ok n → ((a < b) × (n ≡ 1)) ⊎ (n * b ≡ a)
unfolding div_even
div_even-eq-ok a b n run = elim (Bool-cases (ltb a b)) [
  | inl few ↦
      let (_, run') = guard-eq-ok (b % a == 0) assertion_error _ (rw few at run) in
      inl (ltb→lt a b few, sym (ok-injective run'))
  | inr enough ↦
      let (whole, run') = guard-eq-ok (a % b == 0) assertion_error _ (rw enough at run) in
      let none_left : a % b ≡ 0 = (==_iff (a % b) 0).0 whole in
      let all : a / b * b ≡ a = grind (arith, none_left) in
      inr (subst (λ k. k * b ≡ a) (ok-injective run') all)
]

div_mul-le : (a b : ℕ) → (a / b) * b ≤ a
div_mul-le a b = grind arith

fit-le :
    (total old per_page n : ℕ)
    → (if ltb total old then 0 else (total - old) / per_page) ≡ n
    → 1 < n
    → n * per_page + old ≤ total
fit-le total old per_page n fit some_pages = elim (Bool-cases (ltb total old)) [
  | inl short ↦ ground arith
  | inr enough ↦
      let e : (total - old) / per_page ≡ n = rw enough at fit in
      let room : old ≤ total = ground arith in
      let bound = subst (λ k. k * per_page ≤ total - old) e (div_mul-le (total - old) per_page) in
      ground (arith, bound, room)
]

module _ (fl : Floats) (c : EngineConfig fl.F) where
  pages_that_fit-le :
      (old new per_page n : ℕ)
      → pages_that_fit fl c old new per_page ≡ ok n
      → 1 < n
      → n * per_page + old ≤ fl.int_mul old c.memory_ratio + new
  unfolding pages_that_fit
  pages_that_fit-le old new per_page n run some_pages =
      let (positive, run') = guard-eq-ok (ltb 0 per_page) zero_division _ run in
      fit-le (fl.int_mul old c.memory_ratio + new) old per_page n (ok-injective run') some_pages

  determine_num_pages-fits :
      (old new n : ℕ)
      → determine_num_pages fl c old new ≡ ok n
      → (1 < n)
        × (c.num_page_override ≡ none
            → (per_page : ℕ) × (cache_per_page fl c ≡ ok per_page)
              × (n * per_page + old ≤ fl.int_mul old c.memory_ratio + new))
  unfolding determine_num_pages
  determine_num_pages-fits old new n run =
      let (per_page, sized, run1) = >>=-eq-ok (cache_per_page fl c) _ run in
      let pages : Result ℕ = elim c.num_page_override [
        | none ↦ pages_that_fit fl c old new per_page
        | some n ↦ ok n
      ] in
      let (m, counted, run2) = >>=-eq-ok pages _ run1 in
      let (some_pages, run3) = guard-eq-ok (ltb 1 m) assertion_error _ run2 in
      let e : m ≡ n = ok-injective run3 in
      let more : 1 < n = subst (λ k. 1 < k) e (ltb→lt 1 m some_pages) in
      (
        more,
        λ free. (
          per_page,
          sized,
          pages_that_fit-le old new per_page n (rw free at (subst (λ k. pages ≡ ok k) e counted))
              more,
        ),
      )

  -- What one token takes in a layer, in numbers: for MLA the latent and the rotary part, otherwise
  -- keys and values of the heads of a rank, which are all heads divided by the ranks, or one head
  -- where there are more ranks than heads.
  abbrev pub TokenWidth : ℕ → Type 0
  TokenWidth width =
      ((is_mla c.model_config ≡ true)
        × (width ≡ c.model_config.kv_lora_rank + c.model_config.qk_rope_head_dim))
      ⊎ ((is_mla c.model_config ≡ false)
          × ((heads : ℕ) × (((c.model_config.num_kv_heads < c.tp_size) × (heads ≡ 1))
                ⊎ (heads * c.tp_size ≡ c.model_config.num_kv_heads))
              × (width ≡ 2 * c.model_config.head_dim * heads)))

  cache_width-TokenWidth : (width : ℕ) → cache_width fl c ≡ ok width → TokenWidth width
  unfolding cache_width
  cache_width-TokenWidth width run = elim (Bool-cases (is_mla c.model_config)) [
    | inl latent ↦ inl (latent, sym (ok-injective (rw latent at run)))
    | inr full ↦
        let (heads, divided, run') =
          >>=-eq-ok (div_even c.model_config.num_kv_heads c.tp_size true) _ (rw full at run) in
        inr (
          full,
          (
            heads,
            div_even-eq-ok c.model_config.num_kv_heads c.tp_size heads divided,
            sym (ok-injective run'),
          ),
        )
  ]

  cache_per_page-TokenWidth :
      (per_page : ℕ)
      → cache_per_page fl c ≡ ok per_page
      → (width : ℕ) × TokenWidth width
        × (per_page ≡ width * c.page_size * itemsize c.dtype * c.model_config.num_layers)
  unfolding cache_per_page
  cache_per_page-TokenWidth per_page run =
      let (width, wide, run') = >>=-eq-ok (cache_width fl c) _ run in
      (width, cache_width-TokenWidth width wide, sym (ok-injective run'))

  -- When the engine sets up its sizes and the configuration does not give the number of pages, the
  -- memory that the model took and the pages fit in the share of the memory at the start that
  -- `memory_ratio` allows, where a page takes the numbers of a token times the tokens of a page,
  -- the bytes of a number and the layers. The pool has one page more, the dummy page, which the
  -- bound does not count.
  pub init_sizes_memory :
      (old new : ℕ) (sizes : EngineSizes)
      → c.num_page_override ≡ none
      → init_sizes fl c old new ≡ ok sizes
      → (width : ℕ) × TokenWidth width
        × (sizes.num_pages * (width * c.page_size * itemsize c.dtype * c.model_config.num_layers)
              + old
            ≤ fl.int_mul old c.memory_ratio + new)
        × (sizes.pool_pages ≡ sizes.num_pages + 1)
  unfolding init_sizes
  init_sizes_memory old new sizes free run =
      let (n, counted, run') = >>=-eq-ok (determine_num_pages fl c old new) _ run in
      let (_, fits) = determine_num_pages-fits old new n counted in
      let (per_page, sized, room) = fits free in
      let (width, wide, e) = cache_per_page-TokenWidth per_page sized in
      let bytes = width * c.page_size * itemsize c.dtype * c.model_config.num_layers in
      let total = fl.int_mul old c.memory_ratio + new in
      subst
        (λ s.
          (width : ℕ) × TokenWidth width
          × (s.num_pages * (width * c.page_size * itemsize c.dtype * c.model_config.num_layers)
                + old
              ≤ fl.int_mul old c.memory_ratio + new)
          × (s.pool_pages ≡ s.num_pages + 1))
        (ok-injective run') (width, wide, subst (λ k. n * k + old ≤ total) e room, refl)

  -- The sizes that the engine sets up for a positive page size: there are two pages at least.
  -- The page table has a row for each request that may run and one more at the dummy index, all of
  -- the aligned length. Every entry is a token location of the pool, which has one page more than
  -- the cache, and all entries of the dummy row are the first location of that page. The longest
  -- sequence fits in a row and in the cache.
  pub init_sizes_bounds :
      (old new : ℕ) (sizes : EngineSizes)
      → 0 < c.page_size
      → init_sizes fl c old new ≡ ok sizes
      → (1 < sizes.num_pages)
        × (sizes.pool_pages ≡ sizes.num_pages + 1)
        × All (All (λ location. location < sizes.pool_pages * c.page_size)) sizes.page_table
        × (sizes.dummy_table_idx ≡ c.max_running_req)
        × (length sizes.page_table ≡ c.max_running_req + 1)
        × All (λ row. length row ≡ sizes.aligned_max_seq_len) sizes.page_table
        × (drop sizes.dummy_table_idx sizes.page_table
            ≡ replicate sizes.aligned_max_seq_len (sizes.num_pages * c.page_size) ∷ [])
        × (sizes.max_seq_len ≤ sizes.num_pages * c.page_size)
        × (sizes.max_seq_len ≤ sizes.aligned_max_seq_len)
        × (sizes.aligned_max_seq_len % 32 ≡ 0)
  unfolding init_sizes
  init_sizes_bounds old new sizes paged run =
      let (n, counted, run') = >>=-eq-ok (determine_num_pages fl c old new) _ run in
      let (more, _) = determine_num_pages-fits old new n counted in
      let width = align_up_32 (min (config_max_seq_len c) (n * c.page_size)) in
      let (wide, _, aligned) = align_up_32-bounds (min (config_max_seq_len c) (n * c.page_size)) in
      let size = (n + 1) * c.page_size in
      let dummy : n * c.page_size < size = grind arith in
      let inside : 0 < size = omega arith in
      let row : List ℕ = replicate width 0 in
      let zeros : List (List ℕ) = replicate c.max_running_req row in
      let last : List (List ℕ) = replicate width (n * c.page_size) ∷ [] in
      subst
        (λ s.
          (1 < s.num_pages)
          × (s.pool_pages ≡ s.num_pages + 1)
          × All (All (λ location. location < s.pool_pages * c.page_size)) s.page_table
          × (s.dummy_table_idx ≡ c.max_running_req)
          × (length s.page_table ≡ c.max_running_req + 1)
          × All (λ row. length row ≡ s.aligned_max_seq_len) s.page_table
          × (drop s.dummy_table_idx s.page_table
              ≡ replicate s.aligned_max_seq_len (s.num_pages * c.page_size) ∷ [])
          × (s.max_seq_len ≤ s.num_pages * c.page_size)
          × (s.max_seq_len ≤ s.aligned_max_seq_len)
          × (s.aligned_max_seq_len % 32 ≡ 0))
        (ok-injective run')
        (
          more,
          refl,
          All-append (All (λ location. location < size)) zeros last
              (All-replicate (All (λ location. location < size)) c.max_running_req row
                (All-replicate (λ location. location < size) width 0 inside))
              (All-replicate (λ location. location < size) width (n * c.page_size) dummy, tt),
          refl,
          length-append zeros last ∙ ap (λ k. k + 1) (length-replicate c.max_running_req row),
          All-append (λ row. length row ≡ width) zeros last
              (All-replicate (λ row. length row ≡ width) c.max_running_req row
                (length-replicate width 0))
              (length-replicate width (n * c.page_size), tt),
          drop-append_replicate c.max_running_req row last,
          omega arith,
          wide,
          aligned,
        )
