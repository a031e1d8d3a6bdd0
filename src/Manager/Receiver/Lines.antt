-- ===== src/Manager/Receiver/Lines.antt =====
-- The two tuples with which the proxy answers for a receiver, and the bytes that they hold.
use premium.Base.{ℕ, ◌≤◌, ◌<◌, List, [], ◌∷◌, ◌++◌, ◌≡◌, ◌≢◌, ◌⊎◌, arith, All, All-append}
use premium.Text.{Bytes, codes, Lacks}
use premium.Text.Decimal.{decimal, decimal-All, Lacks-of_digits}
use premium.Manager.Register.{interface_list}
use premium.Manager.Nodes.{comma, opening, closing, IsAddress, dotted-Lacks, append-ne_nil}

-- The tuple that says how many addresses a device has, and the one that holds them.
abbrev pub size_line : Bytes → Bytes → ℕ → Bytes
size_line label prim_dest n =
    (label ++ codes "<device") ++ comma ∷ (prim_dest ++ comma ∷ (decimal n ++ closing ∷ codes "\n"))

abbrev pub address_line : Bytes → List Bytes → Bytes
address_line label ips = label ++ opening ∷ (interface_list ips ++ closing ∷ codes "\n")

pub dotted_bytes :
    (s : Bytes) → All (λ c. (b'.' ≤ c) × (c ≤ b'9')) s → All (λ c. (comma ≤ c) × (c ≤ b'9')) s
dotted_bytes [] h = tt
dotted_bytes (c ∷ s) (p, h) = (omega arith, dotted_bytes s h)

-- The list of addresses holds digits, dots and commas.
pub list_bytes :
    (ips : List Bytes)
    → All IsAddress ips
    → All (λ c. (comma ≤ c) × (c ≤ b'9')) (interface_list ips)
unfolding interface_list
list_bytes [] ok = tt
list_bytes (a ∷ []) (ha, ok) = dotted_bytes a ha.dotted
list_bytes (a ∷ b ∷ rest) (ha, ok) =
    All-append _ a _ (dotted_bytes a ha.dotted) (omega arith, list_bytes (b ∷ rest) ok)

pub list-Lacks :
    (d : ℕ) (s : Bytes)
    → (d < comma) ⊎ (b'9' < d)
    → All (λ c. (comma ≤ c) × (c ≤ b'9')) s
    → Lacks d s
list-Lacks d [] h ds = tt
list-Lacks d (c ∷ s) h (p, ps) = (ground arith, list-Lacks d s h ps)

pub list-ne_nil : (ip : Bytes) (ips : List Bytes) → ip ≢ [] → interface_list (ip ∷ ips) ≢ []
unfolding interface_list
list-ne_nil ip [] h = h
list-ne_nil ip (b ∷ ips) h = append-ne_nil ip _ h

-- A byte that no part of the two lines holds.
pub size_line-Lacks :
    (d : ℕ) (label prim_dest : Bytes) (n : ℕ)
    → (d ≡ 0) ⊎ (d ≡ b'O')
    → Lacks d label
    → IsAddress prim_dest
    → Lacks d (size_line label prim_dest n)
size_line-Lacks d label prim_dest n h hl hp =
    All-append _ (label ++ codes "<device") _
      (All-append _ label (codes "<device") hl (omega arith))
      (
        omega arith,
        All-append _ prim_dest _ (dotted-Lacks d prim_dest (omega arith) hp.dotted) (
          omega arith,
          All-append _ (decimal n) (closing ∷ codes "\n")
              (Lacks-of_digits d (decimal n) (omega arith) (decimal-All n)) (omega arith),
        ),
      )

pub address_line-Lacks :
    (d : ℕ) (label : Bytes) (ips : List Bytes)
    → (d ≡ 0) ⊎ (d ≡ b'O')
    → Lacks d label
    → All IsAddress ips
    → Lacks d (address_line label ips)
address_line-Lacks d label ips h hl ok = All-append _ label _ hl (
  omega arith,
  All-append _ (interface_list ips) (closing ∷ codes "\n")
      (list-Lacks d (interface_list ips) (omega arith) (list_bytes ips ok)) (omega arith),
)
