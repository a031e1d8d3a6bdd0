-- ===== src/Sender/Flows/Order.antt =====
-- The order in which the flows are visited, and which overlay nodes they use.
use native.Mathlib.Nat.{div-add-mod', mod-eq_of_lt}
use premium.Base.{
  ℕ, zero, suc, ◌+◌, ◌*◌, ◌/◌, ◌%◌, ◌≤◌, ◌<◌, List, [], ◌∷◌, ◌++◌, ◌≡◌, refl, Option, some, arith,
  ==_ne, ◌>>=◌, Option-cases, inl, inr,
}
use premium.Sender.State.{Network}
use premium.Sender.Flows.{hop_index, for_each}

-- The loop over a list of indices that the nested loops stand for.
abbrev pub visit {ℓ} : {S : Type ℓ} → List (ℕ × ℕ) → (ℕ → ℕ → S → Option S) → S → Option S
visit [] body s = some s
visit ((i, j) ∷ rest) body s = body i j s >>= visit rest body

-- (i, from), ..., (i, from + n - 1)
abbrev pub row : ℕ → ℕ → ℕ → List (ℕ × ℕ)
row i from zero = []
row i from (suc n) = (i, from) ∷ row i (from + 1) n

-- The rows from, ..., from + n - 1, each of width w.
abbrev pub grid : ℕ → ℕ → ℕ → List (ℕ × ℕ)
grid w from zero = []
grid w from (suc n) = row from 0 w ++ grid w (from + 1) n

visit-append {ℓ} :
    {S : Type ℓ} (xs ys : List (ℕ × ℕ)) (body : ℕ → ℕ → S → Option S) (s : S)
    → visit (xs ++ ys) body s ≡ (visit xs body s >>= visit ys body)
visit-append [] ys body s = refl
visit-append ((i, j) ∷ xs) ys body s = elim (Option-cases (body i j s)) [
  | inl e ↦ rw e
  | inr (t, e) ↦ rw e (visit-append xs ys body t)
]

for_each-row {ℓ} :
    {S : Type ℓ} (n from i : ℕ) (body : ℕ → ℕ → S → Option S) (s : S)
    → for_each n from (λ j t. body i j t) s ≡ visit (row i from n) body s
unfolding for_each
for_each-row zero from i body s = refl
for_each-row (suc n) from i body s = elim (Option-cases (body i from s)) [
  | inl e ↦ rw e
  | inr (t, e) ↦ rw e (for_each-row n (from + 1) i body t)
]

-- Two nested loops visit the indices row by row.
pub for_each-grid {ℓ} :
    {S : Type ℓ} (w n from : ℕ) (body : ℕ → ℕ → S → Option S) (s : S)
    → for_each n from (λ i t. for_each w 0 (λ j u. body i j u) t) s ≡ visit (grid w from n) body s
unfolding for_each
for_each-grid w zero from body s = refl
for_each-grid w (suc n) from body s =
    rw (visit-append, for_each-row w 0 from body s)
      (elim (Option-cases (visit (row from 0 w) body s)) [
        | inl e ↦ rw e
        | inr (t, e) ↦ rw e (for_each-grid w n (from + 1) body t)
      ])

-- The index of every flow is one of the overlay nodes.
pub hop_index-lt : (net : Network) (i j h : ℕ) → hop_index net i j ≡ some h → h < net.num_hops
unfolding hop_index
hop_index-lt net i j h e = ground arith

quotient_lt : (h w n : ℕ) → 0 < w → h < n * w → h / w < n
quotient_lt h w n pos lt = grind arith

-- If there is a destination and there are at least as many flows as overlay nodes, every overlay
-- node carries one: some pair of a source and a destination has its index.
pub hop_index_covers :
    (net : Network) (h : ℕ)
    → 0 < net.num_dsts
    → net.num_hops ≤ net.num_srcs * net.num_dsts
    → h < net.num_hops
    → (i : ℕ) × (j : ℕ) × (i < net.num_srcs) × (j < net.num_dsts) × (hop_index net i j ≡ some h)
unfolding hop_index
hop_index_covers net h pos enough lt = (
  h / net.num_dsts,
  h % net.num_dsts,
  quotient_lt h net.num_dsts net.num_srcs pos (omega arith),
  omega arith,
  rw (==_ne net.num_hops 0 (omega arith), div-add-mod' h net.num_dsts, mod-eq_of_lt lt),
)
