-- ===== src/Dar/Chain/Change.antt =====
-- Looking a node up and writing its item through the pointer that was found.
use premium.Base.{
  ◌∙◌, ==_refl, ==_ne, length, sym, subst, not, ◌<◌, List, [], ◌∷◌, ◌≡◌, ◌≢◌, ◌⊎◌, refl, Bool, true,
  false, Option, some, arith, ◌==◌, Bool-cases, inl, inr, if◌then◌else◌, ◌>>=◌,
}
use premium.Dar.Chain.{Ptr, null, Node, node, Memory, store, load, find_node}
use premium.Dar.Chain.Shape.{
  frame, Cells, first, values, IsChain, Holds, length-lt, find_cell, find_node-IsChain,
}

module _ {A : Type 0} where
  -- `p->item = ...`
  unfoldable pub change : (A → A) → Ptr → Memory A → Option (Memory A)
  unfolding load store
  change f p m = do n ← load m p; some (store m p (record n { item = f n.item }))

  -- The first item that passes the test is replaced.
  abbrev pub change_first : (A → Bool) → (A → A) → List A → List A
  change_first test f [] = []
  change_first test f (v ∷ vs) = if test v then f v ∷ vs else v ∷ change_first test f vs

  abbrev pub any : (A → Bool) → List A → Bool
  any test [] = false
  any test (v ∷ vs) = if test v then true else any test vs

  abbrev change_cell : (A → Bool) → (A → A) → Cells A → Cells A
  change_cell test f [] = []
  change_cell test f ((a, v) ∷ xs) =
      if test v then (a, f v) ∷ xs else (a, v) ∷ change_cell test f xs

  values-change_cell :
      (test : A → Bool) (f : A → A) (xs : Cells A)
      → values (change_cell test f xs) ≡ change_first test f (values xs)
  values-change_cell test f [] = refl
  values-change_cell test f ((a, v) ∷ xs) = ground (arith, values-change_cell test f xs)

  first-change_cell :
      (test : A → Bool) (f : A → A) (xs : Cells A) → first (change_cell test f xs) ≡ first xs
  first-change_cell test f [] = refl
  first-change_cell test f ((a, v) ∷ xs) = ground arith

  -- A cell that was found is allocated, and none is found exactly if no item passes the test.
  find_cell-cases :
      (test : A → Bool) (m : Memory A) (lo p : Ptr) (xs : Cells A)
      → IsChain m lo p xs
      → (any test (values xs) ≡ false) × (find_cell test xs ≡ null)
        ⊎ (any test (values xs) ≡ true)
          × (lo < find_cell test xs)
          × ((n : Node A) × (m.cell (find_cell test xs) ≡ some n))
  find_cell-cases test m lo p [] c = inl (refl, refl)
  find_cell-cases test m lo p ((a, v) ∷ xs) (e, lt, in_use, held, rest) =
      elim (Bool-cases (test v)) [
        | inl hit ↦ rw hit (inr (refl, lt, (node v (first xs), held)))
        | inr miss ↦ rw miss (elim (find_cell-cases test m a (first xs) xs rest) [
          | inl absent ↦ inl absent
          | inr (there, above, found) ↦ inr (there, omega arith, found)
        ])
      ]

  store_self : (m : Memory A) (t : Ptr) (n : Node A) → (store m t n).cell t ≡ some n
  unfolding store
  store_self m t n = rw (==_refl t)

  store_other : (m : Memory A) (t a : Ptr) (n : Node A) → a ≢ t → (store m t n).cell a ≡ m.cell a
  unfolding store
  store_other m t a n ne = rw (==_ne a t ne)

  cons-IsChain :
      (m : Memory A) (lo p a : Ptr) (v : A) (q : Ptr) (xs : Cells A)
      → p ≡ a
      → lo < a
      → a < m.fresh
      → m.cell a ≡ some (node v q)
      → q ≡ first xs
      → IsChain m a q xs
      → IsChain m lo p ((a, v) ∷ xs)
  cons-IsChain m lo p a v q xs e lt in_use held next rest =
      (e, lt, in_use, ground arith, subst (λ r. IsChain m a r xs) next rest)

  pub change_first_absent :
      (test : A → Bool) (f : A → A) (vs : List A)
      → any test vs ≡ false
      → change_first test f vs ≡ vs
  change_first_absent test f [] h = refl
  change_first_absent test f (v ∷ vs) h = ground (arith, change_first_absent test f vs)

  found_above :
      (test : A → Bool) (m : Memory A) {lo : Ptr} (a : Ptr) (xs : Cells A)
      → IsChain m a (first xs) xs
      → lo < find_cell test xs
      → a < find_cell test xs
  found_above test m a xs rest above = elim (find_cell-cases test m a (first xs) xs rest) [
    | inl (absent, nothing) ↦ absurd (omega arith)
    | inr (there, over, found) ↦ over
  ]

  -- After the write at the cell that was found the list holds the changed items.
  changed-IsChain :
      (test : A → Bool) (f : A → A) (m : Memory A) (n : Node A) (lo p : Ptr) (xs : Cells A)
      → lo < find_cell test xs
      → m.cell (find_cell test xs) ≡ some n
      → IsChain m lo p xs
      → IsChain
          (store m (find_cell test xs) (record n { item = f n.item }))
          lo
          p
          (change_cell test f xs)
  unfolding store
  changed-IsChain test f m n lo p [] above held c = c
  changed-IsChain test f m n lo p ((a, v) ∷ xs) above held' (e, lt, in_use, held, rest) =
      elim (Bool-cases (test v)) [
        | inl hit ↦
            let here : m.cell a ≡ some n = rw hit at held' in
            rw hit (
              e,
              lt,
              in_use,
              store_self m a _ ∙ cc,
              frame m (store m a (record n { item = f n.item })) a (first xs) xs (omega arith)
                  (λ b over low. store_other m a b _ (omega arith)) rest,
            )
        | inr miss ↦
            let there : m.cell (find_cell test xs) ≡ some n = rw miss at held' in
            let found : a < find_cell test xs = found_above test m a xs rest (rw miss at above) in
            rw miss (
              cons-IsChain _ lo p a v (first xs) (change_cell test f xs) e lt in_use
                (store_other m (find_cell test xs) a _ (omega arith) ∙ held)
                (sym (first-change_cell test f xs))
                (changed-IsChain test f m n a (first xs) xs found there rest))
      ]

  -- The two steps that the handlers make: a lookup, and a write if it found a node.
  unfoldable pub change_found : (A → Bool) → (A → A) → Ptr → Memory A → Option (Memory A)
  unfolding change
  change_found test f p m = do
    t ← find_node test m.fresh p m
    if t == null then some m else change f t m

  pub find_node-Holds :
      (test : A → Bool) (m : Memory A) (p : Ptr) (items : List A)
      → Holds m p items
      → (t : Ptr) × (find_node test m.fresh p m ≡ some t) × ((t == null) ≡ not (any test items))
  find_node-Holds test m p items h =
      let bound : length h.cells < m.fresh =
        omega (arith, length-lt m null p h.cells h.allocated h.chain) in
      let walk = find_node-IsChain test m m.fresh null p h.cells h.chain bound in
      (
        find_cell test h.cells,
        walk,
        elim (find_cell-cases test m null p h.cells h.chain) [
          | inl (absent, nothing) ↦ rw nothing (rw (sym h.same, absent))
          | inr (there, above, found) ↦ rw (sym h.same, there) (ground arith)
        ],
      )

  pub change_found-Holds :
      (test : A → Bool) (f : A → A) (m : Memory A) (p : Ptr) (items : List A)
      → Holds m p items
      → (m' : Memory A) × (change_found test f p m ≡ some m')
        × Holds m' p (change_first test f items)
  unfolding change_found change load
  change_found-Holds test f m p items h =
      let bound : length h.cells < m.fresh =
        omega (arith, length-lt m null p h.cells h.allocated h.chain) in
      let walk = find_node-IsChain test m m.fresh null p h.cells h.chain bound in
      elim (find_cell-cases test m null p h.cells h.chain) [
        | inl (absent, nothing) ↦ (
          m,
          rw (walk, nothing),
          rw (change_first_absent test f items (rw (sym h.same) absent)) h,
        )
        | inr (there, above, (n, held)) ↦ (
          store m (find_cell test h.cells) (record n { item = f n.item }),
          ground arith,
          record {
            allocated = unfold store in h.allocated;
            cells = change_cell test f h.cells;
            chain = changed-IsChain test f m n null p h.cells above held h.chain;
            same = rw (values-change_cell, h.same);
          },
        )
      ]
