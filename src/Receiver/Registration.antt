-- ===== src/Receiver/Registration.antt =====
-- The commands with which a receiver registers, line by line as the proxy reads them.
use premium.Base.{
  ℕ, ◌+◌, ◌*◌, ◌≤◌, ◌<◌, List, [], ◌∷◌, ◌++◌, ◌≡◌, inl, refl, sym, ap, ◌∙◌, true, false, none, some,
  arith, ltb, lt→ltb, ◌==◌, ==_ne, if◌then◌else◌, length, length-append, All, All-append,
  append_assoc, append-nil,
}
use premium.Text.{Bytes, codes, strcat_all, Lacks}
use premium.Text.Decimal.{decimal, decimal-All, decimal-length_short, Lacks-of_digits}
use premium.Wire.{buffer_length}
use premium.Manager.Register.{interface_list, within, within_fits, register_to_manager}
use premium.Manager.Nodes.{IsAddress, dotted-Lacks}
use premium.Manager.Receiver.Lines.{list_bytes, list-Lacks}

-- The lines of a text, each ended by a newline; what follows the last newline is not a line.
abbrev pub lines_from : Bytes → Bytes → List Bytes
lines_from line [] = []
lines_from line (c ∷ s) =
    let more = lines_from (line ++ c ∷ []) s in
    let next = lines_from [] s in if c == b'\n' then line ∷ next else more

abbrev pub lines : Bytes → List Bytes
lines s = lines_from [] s

lines_from-line :
    (line s rest : Bytes)
    → Lacks b'\n' s
    → lines_from line (s ++ b'\n' ∷ rest) ≡ (line ++ s) ∷ lines_from [] rest
lines_from-line line [] rest h = ap (λ l. l ∷ lines_from [] rest) (sym (append-nil line))
lines_from-line line (c ∷ s) rest (p, h) = rw (==_ne c b'\n' p) (
    lines_from-line (line ++ c ∷ []) s rest h
    ∙ ap (λ l. l ∷ lines_from [] rest) (append_assoc line (c ∷ []) s))

-- The two tuples of a receiver: its first address with the number of its addresses, and the list.
abbrev pub device_tuple : Bytes → ℕ → Bytes
device_tuple ip n = codes "device," ++ (ip ++ (codes "," ++ decimal n))

device_tuple-Lacks : (ip : Bytes) (n : ℕ) → IsAddress ip → Lacks b'\n' (device_tuple ip n)
device_tuple-Lacks ip n h = All-append _ (codes "device,") _ (omega arith) (
    All-append _ ip _ (dotted-Lacks b'\n' ip (inl (omega arith)) h.dotted)
      (omega arith, Lacks-of_digits b'\n' (decimal n) (inl (omega arith)) (decimal-All n)))

-- Four lines.
abbrev four_lines : Bytes → Bytes → Bytes → Bytes → Bytes
four_lines a b c d = a ++ b'\n' ∷ (b ++ b'\n' ∷ (c ++ b'\n' ∷ (d ++ b'\n' ∷ [])))

lines-four_lines :
    (a b c d : Bytes)
    → Lacks b'\n' a
    → Lacks b'\n' b
    → Lacks b'\n' c
    → Lacks b'\n' d
    → lines (four_lines a b c d) ≡ a ∷ b ∷ c ∷ d ∷ []
lines-four_lines a b c d ha hb hc hd =
    rw
      (
        lines_from-line [] a _ ha,
        lines_from-line [] b _ hb,
        lines_from-line [] c _ hc,
        lines_from-line [] d _ hd,
      )
      refl

-- The text of the four commands for a device with the tuple `t` and the addresses `l`.
abbrev registration : Bytes → Bytes → Bytes
registration t l =
    four_lines (codes "inp " ++ t) (codes "inp " ++ l) (codes "out " ++ t) (codes "out " ++ l)

-- The same text in the pieces in which strcat appends it.
registration_pieces :
    (ip num l : Bytes)
    → (let entry = strcat_all (codes "device," ∷ ip ∷ codes "," ∷ num ∷ codes "\n" ∷ []) in
        let listed = strcat_all (l ∷ codes "\n" ∷ []) in
        strcat_all (
          codes "inp "
          ∷ entry
          ∷ (codes "inp " ++ listed)
          ∷ codes "out "
          ∷ entry
          ∷ (codes "out " ++ listed)
          ∷ []))
      ≡ registration (codes "device," ++ (ip ++ (codes "," ++ num))) l
registration_pieces ip num l = simp append_assoc refl

registration_text :
    (ip : Bytes) (ips : List Bytes) (n : ℕ)
    → n < 100
    → register_to_manager n (ip ∷ ips) 1
      ≡ within buffer_length (registration (device_tuple ip n) (interface_list (ip ∷ ips)))
unfolding register_to_manager
registration_text ip ips n small =
    let short : ltb (length (decimal n)) 5 ≡ true =
      lt→ltb _ 5 (omega (arith, decimal-length_short n small)) in
    rw short
      (ap (within buffer_length) (registration_pieces ip (decimal n) (interface_list (ip ∷ ips))))

list-length :
    (ips : List Bytes)
    → All (λ ip. length ip < 16) ips
    → length (interface_list ips) ≤ 16 * length ips
unfolding interface_list
list-length [] h = omega arith
list-length (a ∷ []) (p, h) = omega arith
list-length (a ∷ b ∷ rest) (p, h) =
    omega
      (arith, length-append a (codes "," ++ interface_list (b ∷ rest)), list-length (b ∷ rest) h)

registration_fits :
    (ip : Bytes) (ips : List Bytes)
    → All (λ a. length a < 16) (ip ∷ ips)
    → length (ip ∷ ips) ≤ 13
    → length (registration (device_tuple ip (length (ip ∷ ips))) (interface_list (ip ∷ ips)))
      < buffer_length
registration_fits ip ips h few = simp length-append (
    omega (
      arith,
      list-length (ip ∷ ips) h,
      h.0,
      decimal-length_short (length (ip ∷ ips)) (omega arith),
    ))

abbrev pub IsShort : Bytes → Type 0
IsShort a = length a < 16

-- A receiver with 1 to 13 addresses in dotted form sends four commands, each a line, which fit the
-- buffer of register_to_manager: it takes its old tuples back, and then puts out the tuple of its
-- first address and their number and the tuple of all its addresses.
pub register_to_manager-lines :
    (ip : Bytes) (ips : List Bytes)
    → All IsAddress (ip ∷ ips)
    → All IsShort (ip ∷ ips)
    → length (ip ∷ ips) ≤ 13
    → (commands : Bytes) × (register_to_manager (length (ip ∷ ips)) (ip ∷ ips) 1 ≡ some commands)
      × (lines commands
          ≡ (codes "inp " ++ device_tuple ip (length (ip ∷ ips)))
            ∷ (codes "inp " ++ interface_list (ip ∷ ips))
            ∷ (codes "out " ++ device_tuple ip (length (ip ∷ ips)))
            ∷ (codes "out " ++ interface_list (ip ∷ ips))
            ∷ [])
register_to_manager-lines ip ips h short few =
    let n = length (ip ∷ ips) in
    let t = device_tuple ip n in
    let l = interface_list (ip ∷ ips) in
    let ht = device_tuple-Lacks ip n h.0 in
    let hl = list-Lacks b'\n' l (inl (omega arith)) (list_bytes (ip ∷ ips) h) in
    (
      registration t l,
      registration_text ip ips n (omega arith)
          ∙ within_fits buffer_length _ (registration_fits ip ips short few),
      lines-four_lines (codes "inp " ++ t) (codes "inp " ++ l) (codes "out " ++ t)
          (codes "out " ++ l) (All-append _ (codes "inp ") t (omega arith) ht)
          (All-append _ (codes "inp ") l (omega arith) hl)
          (All-append _ (codes "out ") t (omega arith) ht)
          (All-append _ (codes "out ") l (omega arith) hl),
    )

abbrev pub IsLong : Bytes → Type 0
IsLong a = 15 ≤ length a

list-length_long :
    (ips : List Bytes) → All IsLong ips → 16 * length ips ≤ length (interface_list ips) + 1
unfolding interface_list
list-length_long [] h = omega arith
list-length_long (a ∷ []) (p, h) = omega arith
list-length_long (a ∷ b ∷ rest) (p, h) =
    omega (
      arith,
      length-append a (codes "," ++ interface_list (b ∷ rest)),
      list-length_long (b ∷ rest) h,
    )

-- With 15 to 99 addresses of the full 15 bytes, register_to_manager writes past its buffer.
pub register_to_manager_overflows :
    (ip : Bytes) (ips : List Bytes)
    → All IsLong (ip ∷ ips)
    → 15 ≤ length (ip ∷ ips)
    → length (ip ∷ ips) < 100
    → register_to_manager (length (ip ∷ ips)) (ip ∷ ips) 1 ≡ none
register_to_manager_overflows ip ips h many few =
    let n = length (ip ∷ ips) in
    let text = registration (device_tuple ip n) (interface_list (ip ∷ ips)) in
    let long : buffer_length ≤ length text =
      simp length-append (omega (arith, list-length_long (ip ∷ ips) h, h.0)) in
    let full : ltb (length text) buffer_length ≡ false = ground arith in
    registration_text ip ips n few ∙ rw full refl
