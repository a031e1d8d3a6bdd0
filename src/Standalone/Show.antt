-- ===== src/Standalone/Show.antt =====
-- What Darshana/dar/monitored_paths_handler.c prints. `none` is a read through a wild pointer, and
-- `time_string` stands for get_time_custom_string, which calls strftime.
use premium.Base.{
  ℕ, zero, suc, ◌<◌, List, [], ◌∷◌, ◌++◌, ◌≡◌, ◌⊎◌, inl, inr, refl, ap, ◌∙◌, Bool, Option, none,
  some, arith, ◌==◌, if◌then◌else◌, All, ◌>>=◌, length, Bool-cases, Option-cases,
}
use premium.Text.{Bytes, codes, strcat_all}
use premium.Dar.Time.{Tm}
use premium.Dar.Alerts.{HijackAlert}
use premium.Dar.Chain.{Ptr, null, Memory, load}
use premium.Dar.Chain.Shape.{Cells, first, values, IsChain, Holds, length-lt, load_cell}
use premium.Dar.Chain.Change.{any, change_first}
use premium.Standalone.Paths.{
  TimePointer, no_time, at_time, wild, PathStatus, updated, has_relay, mark, moved_pointer,
}

abbrev shown_pointer : (Tm → Bytes) → TimePointer → Option Bytes
shown_pointer time_string no_time = some (codes "-----------\n")
shown_pointer time_string (at_time t) = some (time_string t ++ codes "\n")
shown_pointer time_string wild = none

-- The text on a path between and around the texts of its two times.
abbrev path_text : PathStatus → Bytes → Bytes → Bytes
path_text path previous last = strcat_all (
    codes "-----------> Path Status <---------- \n"
    ∷ codes "Before Last Timestamp: "
    ∷ previous
    ∷ codes "Last Timestamp: "
    ∷ last
    ∷ codes "Path = SourceIP -> RelayIP -> DestinationIP:\n"
    ∷ codes "= "
    ∷ path.source_ip
    ∷ codes " -> "
    ∷ path.relay_ip
    ∷ codes " -> "
    ∷ path.destination_ip
    ∷ codes "\n"
    ∷ codes "Was hijacked? "
    ∷ (if path.was_hijacked then codes "YES\n" else codes "NO\n")
    ∷ [])

-- A path before any alert, one of whose pointers is wild.
abbrev pub Spoilt : PathStatus → Type 0
Spoilt path =
    (path.previous_time_info ≡ wild) × (path.last_time_info ≡ no_time)
    ⊎ (path.last_time_info ≡ wild)

abbrev pub AnySpoilt : List PathStatus → Type 0
AnySpoilt [] = ⊥
AnySpoilt (v ∷ vs) = Spoilt v ⊎ AnySpoilt vs

-- A path whose pointers are none of them wild can be shown.
abbrev pub IsNotWild : TimePointer → Type 0
IsNotWild no_time = Unit
IsNotWild (at_time t) = Unit
IsNotWild wild = ⊥

abbrev pub Clean : PathStatus → Type 0
Clean path = IsNotWild path.previous_time_info × IsNotWild path.last_time_info

IsNotWild-moved :
    (last previous : TimePointer)
    → IsNotWild last
    → IsNotWild previous
    → IsNotWild (moved_pointer last previous)
IsNotWild-moved no_time previous h g = g
IsNotWild-moved (at_time t) previous h g = tt
IsNotWild-moved wild previous h g = elim h [ ]

Clean-updated : (alert : HijackAlert) (v : PathStatus) → Clean v → Clean (updated alert v)
unfolding updated
Clean-updated alert v (h, g) = (IsNotWild-moved v.last_time_info v.previous_time_info g h, tt)

change_first-Clean :
    (test : PathStatus → Bool) (alert : HijackAlert) (vs : List PathStatus)
    → All Clean vs
    → All Clean (change_first test (updated alert) vs)
change_first-Clean test alert [] h = tt
change_first-Clean test alert (v ∷ vs) (h, hs) = elim (Bool-cases (test v)) [
  | inl e ↦ rw e (Clean-updated alert v h, hs)
  | inr e ↦ rw e (h, change_first-Clean test alert vs hs)
]

pub mark-Clean :
    (alert : HijackAlert) (vs : List PathStatus) → All Clean vs → All Clean (mark alert vs)
mark-Clean alert vs h = elim (Bool-cases (any (has_relay alert.source_ip) vs)) [
  | inl e ↦ rw e (change_first-Clean (has_relay alert.source_ip) alert vs h)
  | inr e ↦ rw e (change_first-Clean (has_relay alert.destination_ip) alert vs h)
]

module _ (time_string : Tm → Bytes) where
  unfoldable pub show_path_status : PathStatus → Option Bytes
  show_path_status path = do
    previous ← shown_pointer time_string path.previous_time_info
    last ← shown_pointer time_string path.last_time_info
    some (path_text path previous last)

  unfoldable pub show_all_nodes_p : ℕ → Ptr → Memory PathStatus → Option Bytes
  show_all_nodes_p zero node m = none
  show_all_nodes_p (suc k) node m = if node == null then some [] else (do
    n ← load m node
    now ← show_path_status n.item
    rest ← show_all_nodes_p k n.next m
    some (now ++ rest))

  unfoldable pub show_all_paths : Ptr → Memory PathStatus → Option Bytes
  show_all_paths monitored_paths_list_head m = show_all_nodes_p m.fresh monitored_paths_list_head m

  -- Every path of a list, in order, if each can be shown.
  abbrev pub shown_all : List PathStatus → Option Bytes
  shown_all [] = some []
  shown_all (v ∷ vs) = do now ← show_path_status v; rest ← shown_all vs; some (now ++ rest)

  show_all-chain :
      (m : Memory PathStatus) (xs : Cells PathStatus) (k : ℕ) (lo p : Ptr)
      → IsChain m lo p xs
      → length xs < k
      → show_all_nodes_p k p m ≡ shown_all (values xs)
  unfolding show_all_nodes_p
  show_all-chain m xs zero lo p c h = absurd (omega arith)
  show_all-chain m [] (suc k) lo p c h = rw c refl
  show_all-chain m ((a, v) ∷ xs) (suc k) lo p (e, lt, in_use, held, rest) h =
      let (at, ne) = load_cell m lo a v xs (refl, lt, in_use, held, rest) in
      rw (e, ne, at, show_all-chain m xs k a (first xs) rest (omega arith)) refl

  pub show_all_paths-Holds :
      (m : Memory PathStatus) (head : Ptr) (paths : List PathStatus)
      → Holds m head paths
      → show_all_paths head m ≡ shown_all paths
  unfolding show_all_paths
  show_all_paths-Holds m head paths h =
      show_all-chain m h.cells m.fresh null head h.chain
        (omega (arith, length-lt m null head h.cells h.allocated h.chain))
      ∙ ap shown_all h.same

  unshown_behind :
      (o : Option Bytes) (r : Option Bytes)
      → r ≡ none
      → (do now ← o; rest ← r; some (now ++ rest)) ≡ none
  unshown_behind none r e = refl
  unshown_behind (some s) r e = rw e refl

  Spoilt-unshown : (v : PathStatus) → Spoilt v → show_path_status v ≡ none
  unfolding show_path_status
  Spoilt-unshown v (inl (e, l)) = rw e refl
  Spoilt-unshown v (inr e) = elim (Option-cases (shown_pointer time_string v.previous_time_info)) [
    | inl n ↦ rw n refl
    | inr (s, n) ↦ rw (n, e) refl
  ]

  updated-unshown :
      (alert : HijackAlert) (v : PathStatus) → Spoilt v → show_path_status (updated alert v) ≡ none
  unfolding show_path_status updated
  updated-unshown alert v (inl (e, l)) = rw (l, e) refl
  updated-unshown alert v (inr e) = rw e refl

  spoilt-unshown : (vs : List PathStatus) → AnySpoilt vs → shown_all vs ≡ none
  spoilt-unshown [] h = elim h [ ]
  spoilt-unshown (v ∷ vs) (inl h) = rw (Spoilt-unshown v h) refl
  spoilt-unshown (v ∷ vs) (inr h) =
      unshown_behind (show_path_status v) (shown_all vs) (spoilt-unshown vs h)

  change_first-unshown :
      (test : PathStatus → Bool) (alert : HijackAlert) (vs : List PathStatus)
      → AnySpoilt vs
      → shown_all (change_first test (updated alert) vs) ≡ none
  change_first-unshown test alert [] h = elim h [ ]
  change_first-unshown test alert (v ∷ vs) (inl h) = elim (Bool-cases (test v)) [
    | inl e ↦ rw e (rw (updated-unshown alert v h) refl)
    | inr e ↦ rw e (rw (Spoilt-unshown v h) refl)
  ]
  change_first-unshown test alert (v ∷ vs) (inr h) = elim (Bool-cases (test v)) [
    | inl e ↦
        rw e
          (unshown_behind (show_path_status (updated alert v)) (shown_all vs) (spoilt-unshown vs h))
    | inr e ↦ rw e (
        unshown_behind (show_path_status v) (shown_all (change_first test (updated alert) vs))
          (change_first-unshown test alert vs h))
  ]

  -- The first alert cannot repair such a path: the list is not shown whatever the alert marks.
  pub mark-unshown :
      (alert : HijackAlert) (vs : List PathStatus) → AnySpoilt vs → shown_all (mark alert vs) ≡ none
  mark-unshown alert vs h = elim (Bool-cases (any (has_relay alert.source_ip) vs)) [
    | inl e ↦ rw e (change_first-unshown (has_relay alert.source_ip) alert vs h)
    | inr e ↦ rw e (change_first-unshown (has_relay alert.destination_ip) alert vs h)
  ]

  IsNotWild-shown :
      (p : TimePointer) → IsNotWild p → (text : Bytes) × (shown_pointer time_string p ≡ some text)
  IsNotWild-shown no_time h = (_, refl)
  IsNotWild-shown (at_time t) h = (_, refl)
  IsNotWild-shown wild h = elim h [ ]

  Clean-shown : (v : PathStatus) → Clean v → (text : Bytes) × (show_path_status v ≡ some text)
  unfolding show_path_status
  Clean-shown v (h, g) =
      let (previous, e) = IsNotWild-shown v.previous_time_info h in
      let (last, es) = IsNotWild-shown v.last_time_info g in
      (path_text v previous last, rw (e, es) refl)

  pub all_shown :
      (vs : List PathStatus) → All Clean vs → (text : Bytes) × (shown_all vs ≡ some text)
  all_shown [] h = ([], refl)
  all_shown (v ∷ vs) (h, hs) =
      let (now, e) = Clean-shown v h in
      let (rest, es) = all_shown vs hs in (now ++ rest, rw (e, es) refl)
