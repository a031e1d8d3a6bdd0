-- ===== src/Manager/Receiver.antt =====
-- get_receiver_info_from_manager of SCMultipath/register_dep.c: two questions on one connection, how
-- many addresses the receiver has and which. `none` is a crash: a field that is missing, an address
-- that does not fit its string, or a question that does not fit the buffer.
pub mod Lines
pub mod RoundTrip
use premium.Base.{
  ℕ, zero, suc, ◌+◌, ◌-◌, List, [], ◌∷◌, ◌++◌, Option, none, some, ltb, if◌then◌else◌, ◌>>=◌,
  length, replicate,
}
use premium.Text.{Bytes, codes, c_string, contains, strcat_all}
use premium.Text.Token.{next_token}
use premium.Text.Decimal.{atoi}
use premium.Wire.{buffer_length}
use premium.Manager.Buffer.{Arrival, arrive}
use premium.Manager.Nodes.{comma, opening, closing, strcpy_at}

-- The loop over recv: it goes on after "OK", with the buffer as it is, and stops at anything else.
-- The result is the buffer and what has not been received yet.
unfoldable pub read_answer : Bytes → List Arrival → Bytes × List Arrival
read_answer buffer [] = (buffer, [])
read_answer buffer (a ∷ arrivals) =
    let buffer' = arrive buffer a in
    let on = read_answer buffer' arrivals in
    if contains (codes "OK") (c_string buffer') then on else (buffer', arrivals)

-- The third field of the first answer, up to the closing bracket. A sign is not read.
unfoldable pub parse_size : Bytes → Option ℕ
parse_size line = do
  let (first, r1) = next_token comma line
  let (second, r2) = next_token comma r1
  let (third, r3) = next_token comma r2
  size_str ← third
  let (digits, r4) = next_token closing size_str
  size ← digits
  some (atoi size)

-- `strcpy(dsts[i], strtok(..., ","))` from an index on.
unfoldable pub store_fields : ℕ → ℕ → Bytes → List Bytes → Option (List Bytes)
unfolding strcpy_at
store_fields zero i fields dsts = some dsts
store_fields (suc n) i fields dsts = do
  let (field, rest) = next_token comma fields
  ip ← field
  dsts' ← strcpy_at dsts i ip
  store_fields n (i + 1) rest dsts'

-- The text between the brackets of the second answer; something must stand before the first.
unfoldable pub parse_fields : Bytes → Option Bytes
parse_fields line = do
  let (before, r1) = next_token opening line
  let (behind, r2) = next_token opening r1
  temp ← behind
  let (fields, r3) = next_token closing temp
  fields

abbrev pub size_question : Bytes → Bytes
size_question prim_dest = strcat_all (codes "rdp device," ∷ prim_dest ∷ codes ",*\n" ∷ [])

abbrev pub wildcards : ℕ → Bytes
wildcards zero = []
wildcards (suc n) = codes ",*" ++ wildcards n

abbrev pub address_question : Bytes → ℕ → Bytes
address_question prim_dest size =
    strcat_all (codes "rdp " ∷ prim_dest ∷ wildcards (size - 1) ∷ codes "\n" ∷ [])

-- The number of addresses, the array with them, and the questions that were sent. The first address
-- is stored even if the number is 0.
unfoldable pub get_receiver_info_from_manager :
    List Bytes → Bytes → List Arrival → Option (ℕ × List Bytes × List Bytes)
unfolding read_answer parse_size parse_fields store_fields
get_receiver_info_from_manager dsts prim_dest arrivals = do
  let (answer, later) = read_answer (replicate buffer_length 0) arrivals
  size ← parse_size (c_string answer)
  let question = address_question prim_dest size
  let (tuple, unread) = read_answer (replicate buffer_length 0) later
  fields ← parse_fields (c_string tuple)
  dsts' ← store_fields (suc (size - 1)) 0 fields dsts
  if ltb (length question) buffer_length
      then some (size, dsts', size_question prim_dest ∷ question ∷ [])
      else none
