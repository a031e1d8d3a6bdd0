-- ===== src/Dar/Chain/Show.antt =====
-- show_all_nodes_h and show_all_nodes_p, which have the same code for their two kinds of nodes: they
-- print one node after the other.
use premium.Base.{
  ℕ, zero, suc, ◌<◌, List, [], ◌∷◌, ◌++◌, ◌≡◌, refl, ap, ◌∙◌, Option, none, some, arith, ◌==◌,
  if◌then◌else◌, ◌>>=◌, length, concat_map,
}
use premium.Text.{Bytes}
use premium.Dar.Chain.{Ptr, null, Memory, load}
use premium.Dar.Chain.Shape.{Cells, first, values, IsChain, Holds, length-lt, load_cell}

module _ {A : Type 0} (show : A → Bytes) where
  unfoldable pub show_nodes : ℕ → Ptr → Memory A → Option Bytes
  show_nodes zero node m = none
  show_nodes (suc k) node m =
      if node == null
      then some []
      else (do n ← load m node; rest ← show_nodes k n.next m; some (show n.item ++ rest))

  show_nodes-IsChain :
      (m : Memory A) (xs : Cells A) (k : ℕ) (lo p : Ptr)
      → IsChain m lo p xs
      → length xs < k
      → show_nodes k p m ≡ some (concat_map show (values xs))
  unfolding show_nodes
  show_nodes-IsChain m xs zero lo p c h = absurd (omega arith)
  show_nodes-IsChain m [] (suc k) lo p c h = rw c refl
  show_nodes-IsChain m ((a, v) ∷ xs) (suc k) lo p (e, lt, in_use, held, rest) h =
      let (at, ne) = load_cell m lo a v xs (refl, lt, in_use, held, rest) in
      rw (e, ne, at, show_nodes-IsChain m xs k a (first xs) rest (omega arith)) refl

  -- Each item is printed once, in the order of the list.
  pub show_nodes-Holds :
      (m : Memory A) (head : Ptr) (items : List A)
      → Holds m head items
      → show_nodes m.fresh head m ≡ some (concat_map show items)
  show_nodes-Holds m head items h =
      show_nodes-IsChain m h.cells m.fresh null head h.chain
        (omega (arith, length-lt m null head h.cells h.allocated h.chain))
      ∙ ap (λ vs. some (concat_map show vs)) h.same
