-- ===== src/Apps/Echo/Exchange.antt =====
-- Both ends of the echo together.
use premium.Base.{
  ℕ, zero, suc, ◌≤◌, ◌<◌, ◌^◌, List, [], ◌∷◌, ◌++◌, ◌≡◌, refl, sym, ap, ◌∙◌, true, false, Option,
  none, some, arith, ltb-false, leb, ◌==◌, ==_ne, if◌then◌else◌, length, map, replicate, drop, All,
  append-nil,
}
use premium.Text.{Bytes, c_string, NoNul}
use premium.Wire.{recv_into}
use premium.Manager.Buffer.{c_string-zeros}
use premium.Apps.Stream.{
  recv, le_bytes, le_bytes-length, le_value, recv_integer, recv_integer-le_bytes, le_value-le_bytes,
}
use premium.Apps.Echo.{hi_message, hello_rounds, echo_message, echo_rounds, echo_hello_message}

-- Messages as they are sent: the size and the text, each by itself.
abbrev pub framed : List Bytes → List Bytes
framed [] = []
framed (m ∷ ms) = le_bytes 8 (length m) ∷ m ∷ framed ms

-- A message that the server can echo: not empty, without a NUL, and its size fits a long.
abbrev pub IsMessage : Bytes → Type 0
IsMessage m = (0 < length m) × NoNul m × (length m < 2 ^ 63)

pub recv-whole :
    (n : ℕ) (s : Bytes) (later : List Bytes) → length s ≤ n → recv n (s ∷ later) ≡ (s, later)
unfolding recv
recv-whole n s later h = let fits : leb (length s) n ≡ true = ground arith in rw fits refl

drop_over : (n : ℕ) (s : Bytes) → length s ≤ n → drop n s ≡ []
drop_over zero [] h = refl
drop_over zero (c ∷ s) h = absurd (omega arith)
drop_over (suc n) [] h = refl
drop_over (suc n) (c ∷ s) h = drop_over n s (omega arith)

-- A buffer that a message fills holds the message.
recv_into_full : (s t : Bytes) → length s ≤ length t → recv_into s t ≡ t
recv_into_full s t h = ap (λ r. t ++ r) (drop_over (length t) s h) ∙ append-nil t

length-map : (f : ℕ → ℕ) (s : Bytes) → length (map f s) ≡ length s
length-map f [] = refl
length-map f (c ∷ s) = ap suc (length-map f s)

module _ (toupper : ℕ → ℕ) (left : ℕ → Bytes) (behind : Bytes) where
  echo_message-upper :
      (m : Bytes)
      → IsMessage m
      → length (left (length m)) ≡ length m
      → c_string behind ≡ []
      → echo_message toupper left behind (length m) m ≡ some (map toupper m)
  unfolding echo_message
  echo_message-upper m h array ends =
      let fills : recv_into (left (length m)) m ≡ m =
        recv_into_full (left (length m)) m (omega arith) in
      let text : c_string (m ++ behind) ≡ m = c_string-zeros m behind (h.1) ends in
      let upper : recv_into (left (length m)) (map toupper m) ≡ map toupper m =
        recv_into_full (left (length m)) (map toupper m) (omega (arith, length-map toupper m)) in
      rw (fills, text, ltb-false (length m) (length m) (omega arith), upper) refl

  -- One round of the server on what its two calls of recv return.
  abbrev server_round : ℕ → Bytes → Bytes × List Bytes → Bytes × List Bytes → Option (List Bytes)
  server_round fuel size r q =
      let message_size = le_value (recv_into size r.0) in
      let answer : Option (List Bytes) = elim (echo_message toupper left behind message_size q.0) [
        | none ↦ none
        | some echo ↦ elim (echo_rounds fuel toupper left behind (replicate 8 0) q.1) [
          | none ↦ none
          | some more ↦ some (le_bytes 8 message_size ∷ echo ∷ more)
        ]
      ] in
      if length r.0 == 0 then some [] else if length q.0 == 0 then some [] else answer

  server_rounds :
      (fuel : ℕ) (size : Bytes) (pieces : List Bytes) (r q : Bytes × List Bytes)
      → recv 8 pieces ≡ r
      → recv (le_value (recv_into size r.0)) r.1 ≡ q
      → echo_rounds (suc fuel) toupper left behind size pieces ≡ server_round fuel size r q
  unfolding echo_rounds
  server_rounds fuel size pieces r q e1 e2 =
      ap (λ t. server_round fuel size t (recv (le_value (recv_into size (t.0))) (t.1))) e1
      ∙ ap (server_round fuel size r) e2

  -- One round of the client.
  abbrev client_round : ℕ → Bytes × List Bytes → Bytes × List Bytes → List Bytes
  client_round n r q =
      le_bytes 8 (length hi_message)
      ∷ hi_message
      ∷ (if length r.0 == 0 then [] else if length q.0 == 0 then [] else hello_rounds n q.1)

  client_rounds :
      (n : ℕ) (pieces : List Bytes) (r q : Bytes × List Bytes)
      → recv 8 pieces ≡ r
      → recv (recv_integer 8 r.0) r.1 ≡ q
      → hello_rounds (suc n) pieces ≡ client_round n r q
  unfolding hello_rounds
  client_rounds n pieces r q e1 e2 =
      ap (λ t. client_round n t (recv (recv_integer 8 (t.0)) (t.1))) e1 ∙ ap (client_round n r) e2

  echo_rounds-step :
      (fuel : ℕ) (size m : Bytes) (later more : List Bytes)
      → length size ≤ 8
      → IsMessage m
      → length (left (length m)) ≡ length m
      → c_string behind ≡ []
      → echo_rounds fuel toupper left behind (replicate 8 0) later ≡ some more
      → echo_rounds (suc fuel) toupper left behind size (le_bytes 8 (length m) ∷ m ∷ later)
        ≡ some (le_bytes 8 (length m) ∷ map toupper m ∷ more)
  echo_rounds-step fuel size m later more short h array ends rest =
      let n = length m in
      let first = recv-whole 8 (le_bytes 8 n) (m ∷ later) (omega (arith, le_bytes-length 8 n)) in
      let read : le_value (recv_into size (le_bytes 8 n)) ≡ n =
        ap le_value (recv_into_full size (le_bytes 8 n) (omega (arith, le_bytes-length 8 n)))
        ∙ le_value-le_bytes 8 n (omega (arith, h.2)) in
      let second = recv-whole n m later (omega arith) in
      let some_size : (length (le_bytes 8 n) == 0) ≡ false =
        ==_ne (length (le_bytes 8 n)) 0 (omega (arith, le_bytes-length 8 n)) in
      let some_text : (n == 0) ≡ false = ==_ne n 0 (omega (arith, h.0)) in
      server_rounds fuel size (le_bytes 8 n ∷ m ∷ later) (le_bytes 8 n, m ∷ later) (m, later) first
        (ap (λ k. recv k (m ∷ later)) read ∙ second)
      ∙ rw (read, some_size, some_text, echo_message-upper m h array ends, rest)
          (ap (λ k. some (le_bytes 8 k ∷ map toupper m ∷ more)) read)

  hello_rounds-step :
      (n : ℕ) (m : Bytes) (later : List Bytes)
      → 0 < length m
      → length m < 2 ^ 63
      → hello_rounds (suc n) (le_bytes 8 (length m) ∷ m ∷ later)
        ≡ le_bytes 8 (length hi_message) ∷ hi_message ∷ hello_rounds n later
  hello_rounds-step n m later pos fits =
      let k = length m in
      let first = recv-whole 8 (le_bytes 8 k) (m ∷ later) (omega (arith, le_bytes-length 8 k)) in
      let read : recv_integer 8 (le_bytes 8 k) ≡ k = recv_integer-le_bytes 8 k (omega arith) in
      let second = recv-whole k m later (omega arith) in
      let some_size : (length (le_bytes 8 k) == 0) ≡ false =
        ==_ne (length (le_bytes 8 k)) 0 (omega (arith, le_bytes-length 8 k)) in
      let some_text : (k == 0) ≡ false = ==_ne k 0 (omega arith) in
      client_rounds n (le_bytes 8 k ∷ m ∷ later) (le_bytes 8 k, m ∷ later) (m, later) first
        (ap (λ i. recv i (m ∷ later)) read ∙ second)
      ∙ rw (some_size, some_text) refl

  -- Messages each of which fits what malloc returns for its size.
  abbrev Fit : List Bytes → Type 0
  Fit = All (λ m. IsMessage m × (length (left (length m)) ≡ length m))

  echo_rounds-framed :
      (ms : List Bytes) (size : Bytes)
      → Fit ms
      → length size ≤ 8
      → c_string behind ≡ []
      → echo_rounds (suc (length ms)) toupper left behind size (framed ms)
        ≡ some (framed (map (map toupper) ms))
  echo_rounds-framed [] size h short ends = unfold echo_rounds recv in refl
  echo_rounds-framed (m ∷ ms) size ((h, array), hs) short ends =
      echo_rounds-step (suc (length ms)) size m (framed ms) (framed (map (map toupper) ms)) short h
        array ends (echo_rounds-framed ms (replicate 8 0) hs (omega arith) ends)
      ∙ ap (λ k. some (le_bytes 8 k ∷ map toupper m ∷ framed (map (map toupper) ms)))
          (sym (length-map toupper m))

  hello_rounds-framed :
      (answers : List Bytes)
      → All (λ m. (0 < length m) × (length m < 2 ^ 63)) answers
      → hello_rounds (length answers) (framed answers) ≡ framed (map (λ m. hi_message) answers)
  hello_rounds-framed [] h = unfold hello_rounds in refl
  hello_rounds-framed (m ∷ answers) ((pos, fits), hs) =
      hello_rounds-step (length answers) m (framed answers) pos fits
      ∙ ap (λ r. le_bytes 8 (length hi_message) ∷ hi_message ∷ r) (hello_rounds-framed answers hs)

  answers_fit :
      (ms : List Bytes)
      → All IsMessage ms
      → All (λ m. (0 < length m) × (length m < 2 ^ 63)) (map (map toupper) ms)
  answers_fit [] h = tt
  answers_fit (m ∷ ms) ((pos, no_nul, fits), hs) =
      let same = length-map toupper m in
      ((omega (arith, same), omega (arith, same)), answers_fit ms hs)

  left-Fit : (ms : List Bytes) → ((n : ℕ) → length (left n) ≡ n) → All IsMessage ms → Fit ms
  left-Fit [] arrays h = tt
  left-Fit (m ∷ ms) arrays (h, hs) = ((h, arrays (length m)), left-Fit ms arrays hs)

  length-answers : (ms : List Bytes) → length (map (map toupper) ms) ≡ length ms
  length-answers [] = refl
  length-answers (m ∷ ms) = ap suc (length-answers ms)

  -- If malloc returns arrays of the size asked for, with a NUL right behind the one of the message,
  -- and each send arrives by itself, the server answers messages without a NUL by the same messages in
  -- upper case, each with its size, and returns when the client closes; and a client that has as many
  -- rounds as there are answers sends a hello with its size in each of them.
  pub echo_hello_message-upper :
      (ms : List Bytes) (size : Bytes)
      → All IsMessage ms
      → ((n : ℕ) → length (left n) ≡ n)
      → length size ≤ 8
      → c_string behind ≡ []
      → (echo_hello_message (suc (length ms)) toupper left behind size (framed ms)
          ≡ some (framed (map (map toupper) ms)))
        × (hello_rounds (length ms) (framed (map (map toupper) ms))
            ≡ framed (map (λ m. hi_message) (map (map toupper) ms)))
  unfolding echo_hello_message
  echo_hello_message-upper ms size h arrays short ends = (
    echo_rounds-framed ms size (left-Fit ms arrays h) short ends,
    ap (λ n. hello_rounds n (framed (map (map toupper) ms))) (sym (length-answers ms))
        ∙ hello_rounds-framed (map (map toupper) ms) (answers_fit ms h),
  )
