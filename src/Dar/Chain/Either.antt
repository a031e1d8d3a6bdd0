-- ===== src/Dar/Chain/Either.antt =====
-- The two lookups of analyse_hijack_alert, in both copies of the receiver of alerts: the first node
-- that passes one test is changed, and if there is none the first that passes another.
use premium.Base.{
  List, ◌≡◌, refl, true, false, Bool, Option, some, ◌==◌, Bool-cases, inl, inr, if◌then◌else◌,
  ◌>>=◌,
}
use premium.Dar.Chain.{Ptr, null, Memory, find_node}
use premium.Dar.Chain.Shape.{Holds}
use premium.Dar.Chain.Change.{
  any, change, change_first, change_found, find_node-Holds, change_found-Holds,
}

module _ {A : Type 0} (one other : A → Bool) (f : A → A) where
  unfoldable pub change_either : Ptr → Memory A → Option (Memory A)
  unfolding change_found change
  change_either head m = do
    t ← find_node one m.fresh head m
    if t == null then change_found other f head m else change f t m

  abbrev pub change_first_either : List A → List A
  change_first_either items =
      if any one items then change_first one f items else change_first other f items

  change_either-cases :
      (m : Memory A) (head : Ptr) (items : List A)
      → Holds m head items
      → change_either head m
        ≡ (if any one items then change_found one f head m else change_found other f head m)
  unfolding change_either
  change_either-cases m head items h =
      let (s, found, absent) = find_node-Holds one m head items h in
      elim (Bool-cases (any one items)) [
        | inl there ↦
            let hit : (s == null) ≡ false = rw there at absent in rw (there, found, hit) refl
        | inr missing ↦
            let hit : (s == null) ≡ true = rw missing at absent in rw (missing, found, hit) refl
      ]

  pub change_either-Holds :
      (m : Memory A) (head : Ptr) (items : List A)
      → Holds m head items
      → (m' : Memory A) × (change_either head m ≡ some m')
        × Holds m' head (change_first_either items)
  change_either-Holds m head items h =
      rw (change_either-cases m head items h) (elim (Bool-cases (any one items)) [
        | inl there ↦ rw there (change_found-Holds _ f m head items h)
        | inr missing ↦ rw missing (change_found-Holds _ f m head items h)
      ])
