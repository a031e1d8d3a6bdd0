-- ===== src/Manager/Nodes.antt =====
-- get_overlay_nodes_from_manager of SCMultipath/register_dep.c. `none` is a crash: a line with no
-- address, an address that does not fit its string, or more nodes than the array has.
use premium.Base.{
  length-set, length-append, ℕ, ◌+◌, ◌≤◌, ◌<◌, List, [], ◌∷◌, ◌++◌, ◌≡◌, ◌≢◌, ◌⊎◌, refl, ap, ◌∙◌,
  false, Bool, true, ◌&&◌, ◌==◌, Option, none, some, arith, ltb, lt→ltb, if◌then◌else◌, ◌>>=◌,
  length, set, replicate, All, All-append,
}
use premium.Text.{Bytes, codes, str_eq, c_string, contains, Lacks, NoNul, Token}
use premium.Text.Token.{strtok, next_token, next_token_step}
use premium.Wire.{buffer_length, recv_into}
use premium.Rules.Spec.{ip_addr_length}
use premium.Manager.Buffer.{
  Arrival, received, arrive, ZeroFrom, zeroed-ZeroFrom, recv_into-ZeroFrom, c_string-recv,
  contains-Lacks, contains-Lacks_later,
}

abbrev pub comma : ℕ
comma = b','

abbrev pub opening : ℕ
opening = b'<'

abbrev pub closing : ℕ
closing = b'>'

abbrev pub rdall_command : Bytes
rdall_command = codes "rdall node,*\n"

-- `strcpy(hops[i], s)` into one of the MAX_FLOWS strings of IP_ADDR_LENGTH bytes.
unfoldable pub strcpy_at : List Bytes → ℕ → Bytes → Option (List Bytes)
strcpy_at hops i s =
    if ltb i (length hops)
    then (if ltb (length s) ip_addr_length then some (set hops i s) else none)
    else none

-- The loop over what recv returns. After "OK" the buffer is not cleared, after a tuple it is.
unfoldable pub read_nodes : Bytes → ℕ → List Bytes → List Arrival → Option (ℕ × List Bytes)
unfolding strcpy_at
read_nodes buffer i hops [] = some (i, hops)
read_nodes buffer i hops (a ∷ arrivals) =
    let buffer' = arrive buffer a in
    let line = c_string buffer' in
    let on = read_nodes buffer' i hops arrivals in
    let tuple = (do
      let (temp, r) = next_token comma line
      let (found, r') = next_token closing r
      node ← found
      hops' ← strcpy_at hops i node
      read_nodes (replicate buffer_length 0) (i + 1) hops' arrivals) in
    if contains (codes "ERROR") line
    then some (i, hops)
    else if contains (codes "OK") line
    then on
    else if str_eq line (codes "\n")
    then some (i, hops)
    else tuple

unfoldable pub get_overlay_nodes_from_manager : List Bytes → List Arrival → Option (ℕ × List Bytes)
unfolding read_nodes
get_overlay_nodes_from_manager hops arrivals =
    read_nodes (replicate buffer_length 0) 0 hops arrivals

-- What stands before the first bracket of a tuple: something, without a comma, a bracket, a NUL or
-- the letter O.
pub record IsLabel (label : Bytes) : Type 0 where
  pub some_bytes : label ≢ []
  pub no_comma : Lacks comma label
  pub no_bracket : Lacks opening label
  pub no_nul : NoNul label
  pub no_o : Lacks b'O' label

-- The line in which the proxy prints the tuple of a node, behind the label that it prints all tuples
-- with.
abbrev pub node_line : Bytes → Bytes → Bytes
node_line label ip = (label ++ codes "<node") ++ comma ∷ (ip ++ codes ">\n")

-- An IPv4 address in dotted form that fits its string: digits and dots.
pub record IsAddress (ip : Bytes) : Type 0 where
  pub some_bytes : ip ≢ []
  pub dotted : All (λ c. (b'.' ≤ c) × (c ≤ b'9')) ip
  pub fits : length ip < ip_addr_length

pub dotted-Lacks :
    (d : ℕ) (s : Bytes) → (d < b'.') ⊎ (b'9' < d) → All (λ c. (b'.' ≤ c) × (c ≤ b'9')) s → Lacks d s
dotted-Lacks d [] h ds = tt
dotted-Lacks d (c ∷ s) h (p, ps) = (ground arith, dotted-Lacks d s h ps)

pub append-ne_nil : (s t : Bytes) → s ≢ [] → s ++ t ≢ []
append-ne_nil [] t h e = h refl
append-ne_nil (c ∷ s) t h e = cc

node_line-Lacks :
    (d : ℕ) (label ip : Bytes)
    → (d ≡ 0) ⊎ (d ≡ b'O')
    → Lacks d label
    → IsAddress ip
    → Lacks d (node_line label ip)
node_line-Lacks d label ip h hl a =
    All-append _ (label ++ codes "<node") (comma ∷ (ip ++ codes ">\n"))
      (All-append _ label (codes "<node") hl (omega arith))
      (
        omega arith,
        All-append _ ip (codes ">\n") (dotted-Lacks d ip (omega arith) a.dotted) (omega arith),
      )

append-ne_nil_right : (s t : Bytes) → t ≢ [] → s ++ t ≢ []
append-ne_nil_right [] t h e = h e
append-ne_nil_right (c ∷ s) t h e = cc

not_nil : (b : Bool) (s : Bytes) → s ≢ [] → (b && str_eq s []) ≡ false
unfolding str_eq
not_nil b [] h = absurd (h refl)
not_nil true (c ∷ s) h = refl
not_nil false (c ∷ s) h = refl

-- A line with more than one byte is not an empty one.
not_end : (s t : Bytes) → s ≢ [] → t ≢ [] → str_eq (s ++ t) (codes "\n") ≡ false
unfolding str_eq
not_end [] t hs ht = absurd (hs refl)
not_end (c ∷ s) t hs ht = not_nil (c == b'\n') (s ++ t) (append-ne_nil_right s t ht)

-- The four tests that the loop makes on the line of a node.
line_tests :
    (label ip : Bytes)
    → IsLabel label
    → IsAddress ip
    → (contains (codes "ERROR") (node_line label ip) ≡ false)
      × (contains (codes "OK") (node_line label ip) ≡ false)
      × (str_eq (node_line label ip) (codes "\n") ≡ false)
      × NoNul (node_line label ip)
line_tests label ip hl a =
    let no_o = node_line-Lacks b'O' label ip (omega arith) hl.no_o a in
    (
      contains-Lacks_later b'O' (codes "ERR") (codes "R") (node_line label ip) no_o,
      contains-Lacks b'O' (codes "K") (node_line label ip) no_o,
      not_end (label ++ codes "<node") (comma ∷ (ip ++ codes ">\n"))
          (append-ne_nil label (codes "<node") hl.some_bytes) cc,
      node_line-Lacks 0 label ip (omega arith) hl.no_nul a,
    )

-- The array after the addresses are written to it from an index on.
abbrev pub store_all : List Bytes → ℕ → List Bytes → List Bytes
store_all hops i [] = hops
store_all hops i (ip ∷ ips) = store_all (set hops i ip) (i + 1) ips

read_node :
    (k : ℕ) (buffer : Bytes) (i : ℕ) (hops : List Bytes) (label ip : Bytes)
    (arrivals : List Arrival)
    → ZeroFrom k buffer
    → k ≤ 3
    → IsLabel label
    → IsAddress ip
    → i < length hops
    → read_nodes buffer i hops (received (node_line label ip) ∷ arrivals)
      ≡ read_nodes (replicate buffer_length 0) (i + 1) (set hops i ip) arrivals
unfolding read_nodes
read_node k buffer i hops label ip arrivals z le hl a lt =
    let (no_error, no_ok, no_end, no_nul) = line_tests label ip hl a in
    let head_token : Token comma (label ++ codes "<node") = (
      append-ne_nil label (codes "<node") hl.some_bytes,
      All-append _ label (codes "<node") hl.no_comma (omega arith),
    ) in
    let long = length-append (label ++ codes "<node") (comma ∷ (ip ++ codes ">\n")) in
    let longer = length-append label (codes "<node") in
    let ip_token : Token closing ip =
      (a.some_bytes, dotted-Lacks closing ip (omega arith) a.dotted) in
    rw
      (
        c_string-recv k (node_line label ip) buffer z no_nul (omega (arith, long, longer)),
        no_error,
        no_ok,
        no_end,
        next_token_step comma (label ++ codes "<node") (ip ++ codes ">\n") head_token,
        next_token_step closing ip (codes "\n") ip_token,
        lt→ltb i (length hops) lt,
        lt→ltb (length ip) ip_addr_length a.fits,
      )
      refl

-- The line that ends an answer.
read_end :
    (buffer : Bytes) (i : ℕ) (hops : List Bytes) (arrivals : List Arrival)
    → ZeroFrom 0 buffer
    → read_nodes buffer i hops (received (codes "\n") ∷ arrivals) ≡ some (i, hops)
unfolding read_nodes
read_end buffer i hops arrivals z =
    rw (c_string-recv 0 (codes "\n") buffer z (omega arith) (omega arith))
      (unfold contains str_eq in refl)

-- What the proxy sends for some nodes, a line at a time, with anything behind it.
abbrev pub node_lines : Bytes → List Bytes → List Arrival → List Arrival
node_lines label [] later = received (codes "\n") ∷ later
node_lines label (ip ∷ ips) later = received (node_line label ip) ∷ node_lines label ips later

read_node_lines :
    (label : Bytes) (ips : List Bytes) (i : ℕ) (hops : List Bytes) (later : List Arrival)
    → IsLabel label
    → All IsAddress ips
    → i + length ips ≤ length hops
    → read_nodes (replicate buffer_length 0) i hops (node_lines label ips later)
      ≡ some (i + length ips, store_all hops i ips)
read_node_lines label [] i hops later hl ok fits =
    read_end (replicate buffer_length 0) i hops later (zeroed-ZeroFrom buffer_length)
    ∙ ap (λ n. some (n, hops)) (omega arith)
read_node_lines label (ip ∷ ips) i hops later hl (a, ok) fits =
    read_node 0 (replicate buffer_length 0) i hops label ip (node_lines label ips later)
      (zeroed-ZeroFrom buffer_length) (omega arith) hl a (omega arith)
    ∙ read_node_lines label ips (i + 1) (set hops i ip) later hl ok
        (omega (arith, length-set hops i ip))
    ∙ ap (λ n. some (n, store_all (set hops i ip) (i + 1) ips)) (omega arith)

read_ok :
    (hops : List Bytes) (arrivals : List Arrival)
    → get_overlay_nodes_from_manager hops (received (codes "OK\n") ∷ arrivals)
      ≡ read_nodes (recv_into (replicate buffer_length 0) (codes "OK\n")) 0 hops arrivals
unfolding get_overlay_nodes_from_manager
read_ok hops arrivals =
    rw
      (c_string-recv 0 (codes "OK\n") (replicate buffer_length 0) (zeroed-ZeroFrom buffer_length)
        (omega arith) (omega arith))
      (unfold contains in refl)

-- If the proxy answers OK, then one line for each of one or more nodes, at most as many as the array
-- holds, and then an empty line, each line in a recv of its own and each tuple behind the same label,
-- the function stores the addresses in order from the front of the array and returns their number.
-- The label is not empty and holds no comma, bracket, NUL or letter O.
pub get_overlay_nodes-node_lines :
    (hops : List Bytes) (label ip : Bytes) (ips : List Bytes) (later : List Arrival)
    → IsLabel label
    → All IsAddress (ip ∷ ips)
    → length (ip ∷ ips) ≤ length hops
    → get_overlay_nodes_from_manager hops
        (received (codes "OK\n") ∷ node_lines label (ip ∷ ips) later)
      ≡ some (length (ip ∷ ips), store_all hops 0 (ip ∷ ips))
get_overlay_nodes-node_lines hops label ip ips later hl (a, ok) fits =
    read_ok hops (node_lines label (ip ∷ ips) later)
    ∙ read_node 3 _ 0 hops label ip (node_lines label ips later)
        (recv_into-ZeroFrom (codes "OK\n") (replicate buffer_length 0)
          (zeroed-ZeroFrom buffer_length))
        (omega arith) hl a (omega arith)
    ∙ read_node_lines label ips 1 (set hops 0 ip) later hl ok (omega (arith, length-set hops 0 ip))
    ∙ ap (λ n. some (n, store_all (set hops 0 ip) 1 ips)) (omega arith)

-- If the proxy answers OK and an empty line, each in a recv of its own, because no overlay node is
-- registered, the sender crashes whatever its array holds and whatever follows: the empty line is
-- read together with the rest of the OK that was not cleared from the buffer.
pub get_overlay_nodes_none :
    (hops : List Bytes) (later : List Arrival)
    → get_overlay_nodes_from_manager hops (received (codes "OK\n") ∷ received (codes "\n") ∷ later)
      ≡ none
get_overlay_nodes_none hops later = read_ok hops (received (codes "\n") ∷ later) ∙ crash
  where
    crash :
        read_nodes
          (recv_into (replicate buffer_length 0) (codes "OK\n"))
          0
          hops
          (received (codes "\n") ∷ later)
        ≡ none
    crash = unfold read_nodes c_string contains str_eq next_token strtok in refl
