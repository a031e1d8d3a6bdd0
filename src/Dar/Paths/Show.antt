-- ===== src/Dar/Paths/Show.antt =====
-- What monitored_paths_handler.c prints: one path, all paths, the paths that were hijacked or were
-- not, and the paths of init_test_path_values. `time_string` stands for get_time_custom_string,
-- which calls strftime.
use premium.Base.{
  ℕ, zero, suc, ◌<◌, List, [], ◌∷◌, ◌++◌, ◌≡◌, refl, sym, ap, ◌∙◌, Bool, Option, none, some, arith,
  ◌==◌, Bool-cases, inl, inr, if◌then◌else◌, ◌>>=◌, length, concat_map,
}
use premium.Text.{Bytes, codes, strcat_all}
use premium.Dar.Time.{Tm}
use premium.Dar.Chain.{Ptr, null, Memory, load, find_node}
use premium.Dar.Chain.Shape.{
  Cells, first, values, IsChain, Holds, length-lt, find_node-IsChain, load_cell,
}
use premium.Dar.Chain.Insert.{insert_three-Holds}
use premium.Dar.Chain.Show.{show_nodes, show_nodes-Holds}
use premium.Dar.Paths.{
  PathStatus, new_path_status, insert_end_p, bool_eq, lookup_path_by_hijack_value,
  lookup_path_by_hijack_value_recursive,
}

abbrev shown_time : (Tm → Bytes) → Option Tm → Bytes
shown_time time_string none = codes "-----------\n"
shown_time time_string (some t) = time_string t ++ codes "\n"

unfoldable pub show_path_status_structured : (Tm → Bytes) → PathStatus → Bytes
show_path_status_structured time_string path = strcat_all (
    codes "-----------> Path Status <---------- \n"
    ∷ codes "Before Last Timestamp: "
    ∷ shown_time time_string path.previous_time_info
    ∷ codes "Last Timestamp: "
    ∷ shown_time time_string path.last_time_info
    ∷ codes "Path = "
    ∷ path.source_ip
    ∷ codes " -> "
    ∷ path.relay_ip
    ∷ codes " -> "
    ∷ path.destination_ip
    ∷ codes "\n"
    ∷ codes "Was hijacked? "
    ∷ (if path.was_hijacked then codes "YES\n" else codes "NO\n")
    ∷ [])

-- What one of the functions below prints for a path.
module _ (show : PathStatus → Bytes) where
  unfoldable pub show_all_nodes_p : ℕ → Ptr → Memory PathStatus → Option Bytes
  show_all_nodes_p = show_nodes show

  -- `while (path_node != NULL)`
  unfoldable pub show_hijacked_loop : ℕ → Ptr → Bool → Memory PathStatus → Option Bytes
  unfolding lookup_path_by_hijack_value_recursive
  show_hijacked_loop zero path_node was_hijacked m = none
  show_hijacked_loop (suc k) path_node was_hijacked m = if path_node == null then some [] else (do
    n ← load m path_node
    rest ← (do
      next ← lookup_path_by_hijack_value_recursive n.next was_hijacked m
      show_hijacked_loop k next was_hijacked m)
    some (show n.item ++ rest))

unfoldable pub show_all_paths : (Tm → Bytes) → Ptr → Memory PathStatus → Option Bytes
show_all_paths time_string monitored_paths_list_head m =
    show_all_nodes_p (show_path_status_structured time_string) m.fresh monitored_paths_list_head m

unfoldable pub show_hijacked_paths : (Tm → Bytes) → Ptr → Bool → Memory PathStatus → Option Bytes
unfolding lookup_path_by_hijack_value
show_hijacked_paths time_string monitored_paths_list_head was_hijacked m = do
  path_node ← lookup_path_by_hijack_value monitored_paths_list_head was_hijacked m
  show_hijacked_loop (show_path_status_structured time_string) m.fresh path_node was_hijacked m

abbrev test_path_0 : PathStatus
test_path_0 = new_path_status (codes "10.23.44.1") (codes "101.0.2.1") (codes "30.123.2.1")

abbrev test_path_1 : PathStatus
test_path_1 = new_path_status (codes "10.23.44.2") (codes "10.0.2.30") (codes "30.123.2.2")

abbrev test_path_2 : PathStatus
test_path_2 = new_path_status (codes "10.23.44.3") (codes "101.0.2.3") (codes "30.123.2.3")

-- The paths that init_test_path_values inserts.
abbrev pub test_paths : List PathStatus
test_paths = test_path_0 ∷ test_path_1 ∷ test_path_2 ∷ []

unfoldable pub init_test_path_values : Ptr → Memory PathStatus → Option (Ptr × Memory PathStatus)
init_test_path_values head m = do
  (h1, m1) ← insert_end_p head test_path_0 m
  (h2, m2) ← insert_end_p h1 test_path_1 m1
  insert_end_p h2 test_path_2 m2

pub init_test_path_values-Holds :
    (m : Memory PathStatus) (head : Ptr)
    → Holds m head []
    → (r : Ptr × Memory PathStatus) × (init_test_path_values head m ≡ some r)
      × Holds r.1 r.0 test_paths
unfolding init_test_path_values insert_end_p
init_test_path_values-Holds m head h =
    insert_three-Holds m test_path_0 test_path_1 test_path_2 head h

abbrev pub with_value : Bool → PathStatus → Bool
with_value was_hijacked path = bool_eq path.was_hijacked was_hijacked

-- The items that pass a test, in order.
abbrev pub passing : (PathStatus → Bool) → List PathStatus → List PathStatus
passing test [] = []
passing test (v ∷ vs) = if test v then v ∷ passing test vs else passing test vs

module _ (show : PathStatus → Bytes) (m : Memory PathStatus) where
  -- A lookup from a pointer, and the loop from what it finds.
  abbrev from_lookup : Bool → ℕ → Ptr → Option Bytes
  from_lookup was_hijacked k p = do
    t ← find_node (with_value was_hijacked) m.fresh p m
    show_hijacked_loop show k t was_hijacked m

  show_hijacked-chain :
      (value : Bool) (xs : Cells PathStatus) (k : ℕ) (lo p : Ptr)
      → IsChain m lo p xs
      → length xs < k
      → length xs < m.fresh
      → from_lookup value k p ≡ some (concat_map show (passing (with_value value) (values xs)))
  unfolding show_hijacked_loop lookup_path_by_hijack_value_recursive
  show_hijacked-chain value xs zero lo p c h fits = absurd (omega arith)
  show_hijacked-chain value [] (suc k) lo p c h fits =
      rw (find_node-IsChain (with_value value) m m.fresh lo p [] c fits) refl
  show_hijacked-chain value ((a, v) ∷ xs) (suc k) lo p (e, lt, in_use, held, rest) h fits =
      let found =
        find_node-IsChain (with_value value) m m.fresh lo p ((a, v) ∷ xs)
          (e, lt, in_use, held, rest) fits in
      let (at, ne) = load_cell m lo a v xs (refl, lt, in_use, held, rest) in
      elim (Bool-cases (with_value value v)) [
        | inl hit ↦
            rw
              (
                found,
                hit,
                ne,
                at,
                show_hijacked-chain value xs k a (first xs) rest (omega arith) (omega arith),
              )
              refl
        | inr miss ↦
            let there =
              find_node-IsChain (with_value value) m m.fresh a (first xs) xs rest (omega arith) in
            rw (found, miss)
              (ap (λ r. r >>= (λ t. show_hijacked_loop show (suc k) t value m)) (sym there)
                ∙ show_hijacked-chain value xs (suc k) a (first xs) rest (omega arith)
                    (omega arith))
      ]

-- On a list of monitored paths on the heap, show_all_paths prints every path and show_hijacked_paths
-- those whose value is the one given, each once and in the order of the list; both end.
pub show_hijacked_paths-passing :
    (time_string : Tm → Bytes) (m : Memory PathStatus) (head : Ptr) (paths : List PathStatus)
    (was_hijacked : Bool)
    → Holds m head paths
    → (show_all_paths time_string head m
        ≡ some (concat_map (show_path_status_structured time_string) paths))
      × (show_hijacked_paths time_string head was_hijacked m
          ≡ some (
              concat_map
                (show_path_status_structured time_string)
                (passing (with_value was_hijacked) paths)))
unfolding show_all_paths show_all_nodes_p show_hijacked_paths lookup_path_by_hijack_value
    lookup_path_by_hijack_value_recursive
show_hijacked_paths-passing time_string m head paths was_hijacked h =
    let show = show_path_status_structured time_string in
    let fits : length h.cells < m.fresh =
      omega (arith, length-lt m null head h.cells h.allocated h.chain) in
    (
      show_nodes-Holds show m head paths h,
      show_hijacked-chain show m was_hijacked h.cells m.fresh null head h.chain fits fits
          ∙ ap (λ vs. some (concat_map show (passing (with_value was_hijacked) vs))) h.same,
    )
