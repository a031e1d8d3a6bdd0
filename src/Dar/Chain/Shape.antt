-- ===== src/Dar/Chain/Shape.antt =====
-- What a list on the heap holds, and that the list functions keep it: the addresses along a list
-- ascend, since each new node is linked behind the last one.
use premium.Base.{
  ℕ, zero, suc, ◌+◌, ◌≤◌, ◌<◌, List, [], ◌∷◌, ◌≡◌, refl, Bool, some, arith, length, if◌then◌else◌,
  false, ◌==◌, ==_ne,
}
use premium.Dar.Chain.{Ptr, null, node, Memory, load, last_node, find_node}

abbrev pub Cells : Type 0 → Type 0
Cells A = List (Ptr × A)

module _ {A : Type 0} where
  -- The pointer that leads to the first of some cells.
  abbrev pub first : Cells A → Ptr
  first [] = null
  first ((a, v) ∷ xs) = a

  abbrev pub values : Cells A → List A
  values [] = []
  values ((a, v) ∷ xs) = v ∷ values xs

  -- From `p` the list runs through `xs`, whose addresses ascend from above `lo`.
  abbrev pub IsChain : Memory A → Ptr → Ptr → Cells A → Type 0
  IsChain m lo p [] = p ≡ null
  IsChain m lo p ((a, v) ∷ xs) =
      (p ≡ a)
      × (lo < a)
      × (a < m.fresh)
      × (m.cell a ≡ some (node v (first xs)))
      × IsChain m a (first xs) xs

  -- `head` leads to a list that holds `items`.
  pub record Holds (m : Memory A) (head : Ptr) (items : List A) : Type 0 where
    pub allocated : 0 < m.fresh
    pub cells : Cells A
    pub chain : IsChain m null head cells
    pub same : values cells ≡ items

  -- The null head of any heap that a list lives on is an empty list.
  pub Holds-nil :
      {m : Memory A} {head : Ptr} {items : List A} → Holds m head items → Holds m null []
  Holds-nil h = record { allocated = h.allocated; cells = []; chain = refl; same = refl }

  -- Writing at an address below a chain's or above all its cells spares it.
  pub frame :
      (m m' : Memory A) (lo p : Ptr) (xs : Cells A)
      → m.fresh ≤ m'.fresh
      → ((a : Ptr) → lo < a → a < m.fresh → m'.cell a ≡ m.cell a)
      → IsChain m lo p xs
      → IsChain m' lo p xs
  frame m m' lo p [] le same e = e
  frame m m' lo p ((a, v) ∷ xs) le same (e, lt, in_use, held, rest) = (
    e,
    lt,
    omega arith,
    ground (arith, same a),
    frame m m' a (first xs) xs le (λ b above. same b (omega arith)) rest,
  )

  pub length-lt :
      (m : Memory A) (lo p : Ptr) (xs : Cells A)
      → lo < m.fresh
      → IsChain m lo p xs
      → length xs + lo < m.fresh
  length-lt m lo p [] h c = omega arith
  length-lt m lo p ((a, v) ∷ xs) h (e, lt, in_use, held, rest) =
      omega (arith, length-lt m a (first xs) xs in_use rest)

  -- The address of the last of some cells.
  abbrev pub last_cell : Ptr → Cells A → Ptr
  last_cell a [] = a
  last_cell a ((b, w) ∷ xs) = last_cell b xs

  pub last_node-IsChain :
      (m : Memory A) (k : ℕ) (lo p : Ptr) (a : Ptr) (v : A) (xs : Cells A)
      → IsChain m lo p ((a, v) ∷ xs)
      → length xs < k
      → last_node k p m ≡ some (last_cell a xs)
  unfolding last_node load
  last_node-IsChain m zero lo p a v xs c h = absurd (omega arith)
  last_node-IsChain m (suc k) lo p a v [] (e, lt, in_use, held, rest) h = ground arith
  last_node-IsChain m (suc k) lo p a v ((b, w) ∷ xs) (e, lt, in_use, held, rest) h =
      ground (arith, last_node-IsChain m k a b b w xs rest)

  -- The address of the first cell with a value that passes the test, or NULL.
  abbrev pub find_cell : (A → Bool) → Cells A → Ptr
  find_cell test [] = null
  find_cell test ((a, v) ∷ xs) = if test v then a else find_cell test xs

  pub find_node-IsChain :
      (test : A → Bool) (m : Memory A) (k : ℕ) (lo p : Ptr) (xs : Cells A)
      → IsChain m lo p xs
      → length xs < k
      → find_node test k p m ≡ some (find_cell test xs)
  unfolding find_node load
  find_node-IsChain test m zero lo p xs c h = absurd (omega arith)
  find_node-IsChain test m (suc k) lo p [] c h = ground arith
  find_node-IsChain test m (suc k) lo p ((a, v) ∷ xs) (e, lt, in_use, held, rest) h =
      ground (arith, find_node-IsChain test m k a (first xs) xs rest)

  -- What a pointer to the first cell of a chain leads to.
  pub load_cell :
      (m : Memory A) (lo a : Ptr) (v : A) (xs : Cells A)
      → IsChain m lo a ((a, v) ∷ xs)
      → (load m a ≡ some (node v (first xs))) × ((a == null) ≡ false)
  unfolding load
  load_cell m lo a v xs (e, lt, in_use, held, rest) =
      let ne : (a == null) ≡ false = ==_ne a null (omega arith) in (rw ne held, ne)
