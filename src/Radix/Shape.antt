-- ===== src/Radix/Shape.antt =====
-- The part of the nodes that `lock_handle` leaves alone, the nodes that are in the tree, and the
-- way from a node to the root.
use flash_kvmo_e.Base.{
  All, subst, ℕ, ◌<◌, ◌≡◌, ◌≢◌, refl, sym, ap, Bool, true, false, Option, none, some, List, [], ◌∷◌,
  arith, ◌==◌, length,
}
use flash_kvmo_e.Radix.{Radix, key_fn}
use flash_kvmo_e.Radix.Dict.{get}

pub record Shape : Type 0 where
  pub children : List (List ℕ × ℕ)
  pub parent : Option ℕ
  pub key : List ℕ
  pub value : List ℕ

abbrev pub shape : Radix → ℕ → Shape
shape r u = record {
  children = (r.node u).children;
  parent = (r.node u).parent;
  key = (r.node u).key;
  value = (r.node u).value;
}

abbrev pub times : Radix → ℕ → ℕ
times r u = (r.node u).timestamp

abbrev pub ref_counts : Radix → ℕ → ℕ
ref_counts r u = (r.node u).ref_count

abbrev listed : (ℕ → Shape) → ℕ → ℕ → Option ℕ → Bool
listed t page u none = false
listed t page u (some p) = elim (get (key_fn page (t u).key) (t p).children) [
  | none ↦ false
  | some v ↦ v == u
]

-- The node's parent has it among its children.
unfoldable pub in_tree : (ℕ → Shape) → ℕ → ℕ → Bool
in_tree t page u = listed t page u (t u).parent

-- `l` holds the nodes of the tree from `u` up to the root, without the root.
pub data Way (t : ℕ → Shape) (page n : ℕ) : ℕ → List ℕ → Type 0 where
  root : {u : ℕ} → (t u).parent ≡ none → Way t page n u []
  up :
      {u p : ℕ} {l : List ℕ}
      → (t u).parent ≡ some p
      → u < n
      → in_tree t page u ≡ true
      → Way t page n p l
      → Way t page n u (u ∷ l)

abbrev pub WayUp : Radix → ℕ → List ℕ → Type 0
WayUp r = Way (shape r) r.page_size r.counter

module _ {t : ℕ → Shape} {page n : ℕ} where
  -- There is one way up from each node.
  pub Way-unique : {u : ℕ} {l m : List ℕ} → Way t page n u l → Way t page n u m → l ≡ m
  Way-unique (root e) (root f) = refl
  Way-unique (root e) (up f _ _ _) = cc
  Way-unique (up e _ _ _) (root f) = cc
  Way-unique (up {u = u} {p = p} {l = l} e _ _ w) (up {p = q} {l = m} f _ _ v) =
      let same : p ≡ q = ground arith in ap (◌∷◌ u) (Way-unique w (step v (sym same)))
    where
      step : {a b : ℕ} {k : List ℕ} → Way t page n a k → a ≡ b → Way t page n b k
      step {k = k} x e = subst (λ c. Way t page n c k) e x

  shorter :
      {u v : ℕ} {l m : List ℕ} → Way t page n u l → Way t page n v m → length m < length l → v ≢ u
  shorter {u} {v} {l} {m} w x h e =
      let same : m ≡ l = Way-unique (subst (λ c. Way t page n c m) e x) w in
      absurd (omega (arith, ap length same))

  below_ne :
      {u v : ℕ} {l m : List ℕ}
      → Way t page n u l
      → Way t page n v m
      → length m < length l
      → All (λ x. x ≢ u) m
  below_ne w (root e) h = tt
  below_ne {l = l} w (up {l = m} e b i x) h = (shorter w (up e b i x) h, below_ne w x (omega arith))

  -- No node stands twice on a way.
  pub Way-ne :
      {u p : ℕ} {l : List ℕ}
      → (t u).parent ≡ some p
      → u < n
      → in_tree t page u ≡ true
      → Way t page n p l
      → All (λ x. x ≢ u) l
  Way-ne e b i w = below_ne (up e b i w) w (omega arith)
