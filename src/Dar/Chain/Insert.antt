-- ===== src/Dar/Chain/Insert.antt =====
-- insert_end puts a new node behind the last one, and a write through a node's pointer changes that
-- item alone.
use premium.Base.{◌<◌, List, [], ◌∷◌, ◌++◌, ◌≡◌, refl, ap, some, arith, ◌>>=◌}
use premium.Dar.Chain.{Ptr, null, node, Memory, store, load, new_node, insert_end}
use premium.Dar.Chain.Shape.{Cells, values, IsChain, Holds, last_cell, length-lt, last_node-IsChain}

module _ {A : Type 0} where
  -- The value in the last of some cells.
  abbrev last_value : A → Cells A → A
  last_value v [] = v
  last_value v ((b, w) ∷ xs) = last_value w xs

  last_cell_bounds :
      (m : Memory A) (lo p a : Ptr) (v : A) (xs : Cells A)
      → IsChain m lo p ((a, v) ∷ xs)
      → (lo < last_cell a xs)
        × (last_cell a xs < m.fresh)
        × (m.cell (last_cell a xs) ≡ some (node (last_value v xs) null))
  last_cell_bounds m lo p a v [] (e, lt, in_use, held, rest) = (lt, in_use, held)
  last_cell_bounds m lo p a v ((b, w) ∷ xs) (e, lt, in_use, held, rest) =
      let (above, below, end) = last_cell_bounds m a b b w xs rest in (omega arith, below, end)

  -- The memory after insert_end linked a new node behind the last one.
  abbrev linked : Memory A → A → Ptr → A → Memory A
  linked m item l v = store (new_node item m).1 l (node v m.fresh)

  linked-IsChain :
      (m : Memory A) (item : A) (lo p a : Ptr) (v : A) (xs : Cells A)
      → IsChain m lo p ((a, v) ∷ xs)
      → IsChain
          (linked m item (last_cell a xs) (last_value v xs))
          lo
          p
          ((a, v) ∷ (xs ++ (m.fresh, item) ∷ []))
  unfolding store new_node
  linked-IsChain m item lo p a v [] (e, lt, in_use, held, rest) =
      (e, lt, omega arith, ground arith, (refl, in_use, omega arith, ground arith, refl))
  linked-IsChain m item lo p a v ((b, w) ∷ xs) (e, lt, in_use, held, rest) =
      let (above, below, end) = last_cell_bounds m a b b w xs rest in
      (e, lt, omega arith, ground arith, linked-IsChain m item a b b w xs rest)

  values-append :
      (xs : Cells A) (a : Ptr) (v : A) → values (xs ++ (a, v) ∷ []) ≡ values xs ++ v ∷ []
  values-append [] a v = refl
  values-append ((b, w) ∷ xs) a v = ap (λ ws. w ∷ ws) (values-append xs a v)

  insert_end-IsChain :
      (m : Memory A) (item : A) (p : Ptr) (xs : Cells A)
      → 0 < m.fresh
      → IsChain m null p xs
      → (r : Ptr × Memory A) × (insert_end p item m ≡ some r)
        × (0 < r.1.fresh)
        × IsChain r.1 null r.0 (xs ++ (m.fresh, item) ∷ [])
  unfolding insert_end new_node store load
  insert_end-IsChain m item p [] pos e =
      (new_node item m, ground arith, omega arith, (refl, pos, omega arith, ground arith, refl))
  insert_end-IsChain m item p ((a, v) ∷ xs) pos c =
      let (above, below, end) = last_cell_bounds m null p a v xs c in
      let walk =
        last_node-IsChain m m.fresh null p a v xs c
          (omega (arith, length-lt m null p ((a, v) ∷ xs) pos c)) in
      (
        (p, linked m item (last_cell a xs) (last_value v xs)),
        ground arith,
        omega arith,
        linked-IsChain m item null p a v xs c,
      )

  -- insert_end appends to the list that a head leads to, and reads no pointer that it may not.
  pub insert_end-Holds :
      (m : Memory A) (item : A) (p : Ptr) (items : List A)
      → Holds m p items
      → (r : Ptr × Memory A) × (insert_end p item m ≡ some r) × Holds r.1 r.0 (items ++ item ∷ [])
  insert_end-Holds m item p items h =
      let (r, ran, pos, chain) = insert_end-IsChain m item p h.cells h.allocated h.chain in
      (
        r,
        ran,
        record {
          allocated = pos;
          cells = h.cells ++ (m.fresh, item) ∷ [];
          chain = chain;
          same = rw (values-append h.cells m.fresh item, h.same);
        },
      )

  -- Three items on an empty list.
  pub insert_three-Holds :
      (m : Memory A) (a b c : A) (p : Ptr)
      → Holds m p []
      → (r : Ptr × Memory A) × ((do
        (h1, m1) ← insert_end p a m
        (h2, m2) ← insert_end h1 b m1
        insert_end h2 c m2)
          ≡ some r)
        × Holds r.1 r.0 (a ∷ b ∷ c ∷ [])
  insert_three-Holds m a b c p h =
      let (r1, ran1, h1) = insert_end-Holds m a p [] h in
      let (r2, ran2, h2) = insert_end-Holds r1.1 b r1.0 (a ∷ []) h1 in
      let (r3, ran3, h3) = insert_end-Holds r2.1 c r2.0 (a ∷ b ∷ []) h2 in
      (r3, rw (ran1, ran2, ran3) refl, h3)
