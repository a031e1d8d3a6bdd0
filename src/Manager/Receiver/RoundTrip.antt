-- ===== src/Manager/Receiver/RoundTrip.antt =====
-- What the sender reads of the receiver's addresses when the proxy returns the tuples that the
-- receiver has registered.
use premium.Base.{
  ℕ, zero, suc, ◌+◌, ◌-◌, ◌*◌, ◌^◌, ◌≤◌, ◌<◌, List, [], ◌∷◌, ◌++◌, ◌≡◌, ◌≢◌, inl, inr, refl, ap,
  ◌∙◌, true, some, arith, lt→ltb, length, length-set, length-append, set, replicate, All,
  All-append,
}
use premium.Text.{Bytes, codes, c_string, contains, Lacks, NoNul, Token}
use premium.Text.Token.{next_token_step, next_token_last}
use premium.Text.Decimal.{decimal, decimal-All, decimal-ne-nil, Lacks-of_digits, atoi-decimal}
use premium.Wire.{buffer_length, recv_into}
use premium.Rules.Spec.{ip_addr_length}
use premium.Manager.Buffer.{
  Arrival, received, zeroed-ZeroFrom, recv_into-ZeroFrom, c_string-recv, contains-Lacks,
}
use premium.Manager.Register.{interface_list}
use premium.Manager.Nodes.{
  comma, opening, closing, IsAddress, IsLabel, store_all, dotted-Lacks, append-ne_nil,
}
use premium.Manager.Receiver.{
  read_answer, parse_size, parse_fields, store_fields, wildcards, size_question, address_question,
  get_receiver_info_from_manager,
}
use premium.Manager.Receiver.Lines.{
  size_line, address_line, list_bytes, list-Lacks, list-ne_nil, size_line-Lacks, address_line-Lacks,
}

-- An answer in two pieces: OK, and a line of three bytes or more.
read_answer_line :
    (line : Bytes) (later : List Arrival)
    → NoNul line
    → Lacks b'O' line
    → 3 ≤ length line
    → (tuple : Bytes) × (read_answer
          (replicate buffer_length 0)
          (received (codes "OK\n") ∷ received line ∷ later)
        ≡ (tuple, later))
      × (c_string tuple ≡ line)
unfolding read_answer
read_answer_line line later nul no_o long =
    let zeros = replicate buffer_length 0 in
    let ok_buffer = recv_into zeros (codes "OK\n") in
    let ok =
      c_string-recv 0 (codes "OK\n") zeros (zeroed-ZeroFrom buffer_length) (omega arith)
        (omega arith) in
    let is_ok : contains (codes "OK") (codes "OK\n") ≡ true = unfold contains in refl in
    let whole =
      c_string-recv 3 line ok_buffer
        (recv_into-ZeroFrom (codes "OK\n") zeros (zeroed-ZeroFrom buffer_length)) nul long in
    (
      recv_into ok_buffer line,
      rw (ok, is_ok, whole, contains-Lacks b'O' (codes "K") line no_o) refl,
      whole,
    )

-- Cutting the list at its commas stores the addresses in order.
store_fields-interface_list :
    (ips : List Bytes) (i : ℕ) (dsts : List Bytes)
    → All IsAddress ips
    → i + length ips ≤ length dsts
    → store_fields (length ips) i (interface_list ips) dsts ≡ some (store_all dsts i ips)
unfolding store_fields interface_list
store_fields-interface_list [] i dsts ok fits = refl
store_fields-interface_list (a ∷ []) i dsts (ha, ok) fits =
    rw
      (
        next_token_last comma a (ha.some_bytes, dotted-Lacks comma a (omega arith) ha.dotted),
        lt→ltb i (length dsts) (omega arith),
        lt→ltb (length a) ip_addr_length ha.fits,
      )
      refl
store_fields-interface_list (a ∷ b ∷ rest) i dsts (ha, ok) fits =
    rw
      (
        next_token_step comma a (interface_list (b ∷ rest))
            (ha.some_bytes, dotted-Lacks comma a (omega arith) ha.dotted),
        lt→ltb i (length dsts) (omega arith),
        lt→ltb (length a) ip_addr_length ha.fits,
      )
      (store_fields-interface_list (b ∷ rest) (i + 1) (set dsts i a) ok
        (omega (arith, length-set dsts i a)))

parse_size-size_line :
    (label prim_dest : Bytes) (n : ℕ)
    → IsLabel label
    → IsAddress prim_dest
    → n < 10 ^ 10
    → parse_size (size_line label prim_dest n) ≡ some n
unfolding parse_size
parse_size-size_line label prim_dest n hl hp small =
    let head : Token comma (label ++ codes "<device") = (
      append-ne_nil label (codes "<device") hl.some_bytes,
      All-append _ label (codes "<device") hl.no_comma (omega arith),
    ) in
    let digits_lack = Lacks-of_digits comma (decimal n) (inl (omega arith)) (decimal-All n) in
    rw
      (
        next_token_step comma (label ++ codes "<device") _ head,
        next_token_step comma prim_dest _
            (hp.some_bytes, dotted-Lacks comma prim_dest (omega arith) hp.dotted),
        next_token_last comma (decimal n ++ closing ∷ codes "\n") (
          append-ne_nil (decimal n) (closing ∷ codes "\n") (decimal-ne-nil n),
          All-append _ (decimal n) (closing ∷ codes "\n") digits_lack (omega arith),
        ),
        next_token_step closing (decimal n) (codes "\n") (
          decimal-ne-nil n,
          Lacks-of_digits closing (decimal n) (inr (omega arith)) (decimal-All n),
        ),
      )
      (ap some (atoi-decimal n small))

parse_fields-tuple :
    (label fields : Bytes)
    → IsLabel label
    → fields ≢ []
    → All (λ c. (comma ≤ c) × (c ≤ b'9')) fields
    → parse_fields (label ++ opening ∷ (fields ++ closing ∷ codes "\n")) ≡ some fields
unfolding parse_fields
parse_fields-tuple label fields hl ne bytes =
    rw
      (
        next_token_step opening label _ (hl.some_bytes, hl.no_bracket),
        next_token_last opening (fields ++ closing ∷ codes "\n") (
          append-ne_nil fields _ ne,
          All-append _ fields (closing ∷ codes "\n")
              (list-Lacks opening fields (inr (omega arith)) bytes) (omega arith),
        ),
      )
      (ap (λ r. r.0)
        (next_token_step closing fields (codes "\n")
          (ne, list-Lacks closing fields (inr (omega arith)) bytes)))

wildcards-length : (n : ℕ) → length (wildcards n) ≡ 2 * n
wildcards-length zero = refl
wildcards-length (suc n) = omega (arith, wildcards-length n)

-- The receiver registers its addresses with register_to_manager, one tuple with their number and one
-- with the list of them. If the proxy answers both questions with OK and the tuple asked for, each in
-- a recv of its own and each tuple behind a label, the sender stores exactly these addresses in order
-- from the front of its array and returns their number, and both questions fit the buffer: for one or
-- more addresses, at most as many as the array of up to 20 strings holds.
pub get_receiver_info-interface_list :
    (dsts : List Bytes) (label prim_dest ip : Bytes) (ips : List Bytes) (later : List Arrival)
    → IsLabel label
    → IsAddress prim_dest
    → All IsAddress (ip ∷ ips)
    → length (ip ∷ ips) ≤ length dsts
    → length dsts ≤ 20
    → get_receiver_info_from_manager dsts prim_dest (
        received (codes "OK\n")
        ∷ received (size_line label prim_dest (length (ip ∷ ips)))
        ∷ received (codes "OK\n")
        ∷ received (address_line label (ip ∷ ips))
        ∷ later)
      ≡ some (
        length (ip ∷ ips),
        store_all dsts 0 (ip ∷ ips),
        size_question prim_dest ∷ address_question prim_dest (length (ip ∷ ips)) ∷ [],
      )
unfolding get_receiver_info_from_manager
get_receiver_info-interface_list dsts label prim_dest ip ips later hl hp ok fits few =
    let n = length (ip ∷ ips) in
    let (answer, ran, got) =
      read_answer_line (size_line label prim_dest n)
        (received (codes "OK\n") ∷ received (address_line label (ip ∷ ips)) ∷ later)
        (size_line-Lacks 0 label prim_dest n (inl refl) hl.no_nul hp)
        (size_line-Lacks b'O' label prim_dest n (inr refl) hl.no_o hp)
        (simp length-append (omega arith)) in
    let (tuple, ran', got') =
      read_answer_line (address_line label (ip ∷ ips)) later
        (address_line-Lacks 0 label (ip ∷ ips) (inl refl) hl.no_nul ok)
        (address_line-Lacks b'O' label (ip ∷ ips) (inr refl) hl.no_o ok)
        (simp length-append (omega arith)) in
    let same : suc (length (ip ∷ ips) - 1) ≡ length (ip ∷ ips) = omega arith in
    let stored =
      ap (λ k. store_fields k 0 (interface_list (ip ∷ ips)) dsts) same
      ∙ store_fields-interface_list (ip ∷ ips) 0 dsts ok (omega arith) in
    rw
      (
        ran,
        got,
        parse_size-size_line label prim_dest n hl hp (omega arith),
        ran',
        got',
        parse_fields-tuple label (interface_list (ip ∷ ips)) hl
            (list-ne_nil ip ips (ok.0.some_bytes)) (list_bytes (ip ∷ ips) ok),
        stored,
        lt→ltb (length (address_question prim_dest n)) buffer_length
            (simp length-append (omega (arith, wildcards-length (n - 1), hp.fits))),
      )
      refl
