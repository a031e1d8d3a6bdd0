-- ===== src/Apps/Echo.antt =====
-- The echo programs: execute_hello_message_exchange of SCMultipath/hi_client_eval.c (hi_client.c has
-- the same loop without a bound) and echo_hello_message of SCMultipath/hi_server.c, which
-- hi_server_eval.c repeats. `toupper` is the C library's.
pub mod Exchange
use premium.Base.{
  ℕ, zero, suc, List, [], ◌∷◌, ◌++◌, Option, none, some, ltb, ◌==◌, if◌then◌else◌, length, map,
  replicate,
}
use premium.Text.{Bytes, codes, c_string}
use premium.Wire.{recv_into}
use premium.Apps.Stream.{recv, le_bytes, le_value, recv_integer}

abbrev pub max_hellos_threshold : ℕ
max_hellos_threshold = 3

abbrev pub hi_message : Bytes
hi_message = codes "Hello"

-- The rounds that are left: what is sent, each send by itself, given what the server answers.
unfoldable pub hello_rounds : ℕ → List Bytes → List Bytes
hello_rounds zero pieces = []
hello_rounds (suc n) pieces =
    let (size_bytes, pieces') = recv 8 pieces in
    let echo_message_size = recv_integer 8 size_bytes in
    let (recv_message, later) = recv echo_message_size pieces' in
    let rest = hello_rounds n later in
    le_bytes 8 (length hi_message)
    ∷ hi_message
    ∷ (if length size_bytes == 0 then [] else if length recv_message == 0 then [] else rest)

unfoldable pub execute_hello_message_exchange : List Bytes → List Bytes
execute_hello_message_exchange pieces = hello_rounds max_hellos_threshold pieces

-- One message of the server: what malloc left in the two arrays, and what lies behind the first, in
-- which strlen looks for a NUL. `none` is a write past the second.
unfoldable pub echo_message : (ℕ → ℕ) → (ℕ → Bytes) → Bytes → ℕ → Bytes → Option Bytes
echo_message toupper left behind message_size chunk =
    let message = c_string (recv_into (left message_size) chunk ++ behind) in
    if ltb message_size (length message)
    then none
    else some (recv_into (left message_size) (map toupper message))

-- What the server sends, each send by itself; `size` is what message_size holds.
unfoldable pub echo_rounds :
    ℕ → (ℕ → ℕ) → (ℕ → Bytes) → Bytes → Bytes → List Bytes → Option (List Bytes)
unfolding echo_message
echo_rounds zero toupper left behind size pieces = none
echo_rounds (suc fuel) toupper left behind size pieces =
    let (size_bytes, pieces') = recv 8 pieces in
    let message_size = le_value (recv_into size size_bytes) in
    let (chunk, later) = recv message_size pieces' in
    let rest = echo_rounds fuel toupper left behind (replicate 8 0) later in
    let answer : Option (List Bytes) = elim (echo_message toupper left behind message_size chunk) [
      | none ↦ none
      | some echo ↦ elim rest [
        | none ↦ none
        | some more ↦ some (le_bytes 8 message_size ∷ echo ∷ more)
      ]
    ] in
    if length size_bytes == 0 then some [] else if length chunk == 0 then some [] else answer

-- The loop of a connection, with what malloc left in message_size.
unfoldable pub echo_hello_message :
    ℕ → (ℕ → ℕ) → (ℕ → Bytes) → Bytes → Bytes → List Bytes → Option (List Bytes)
unfolding echo_rounds
echo_hello_message fuel toupper left behind size pieces =
    echo_rounds fuel toupper left behind size pieces
