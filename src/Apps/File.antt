-- ===== src/Apps/File.antt =====
-- The file transfer: send_file_protocol of SCMultipath/file_client.c and machete_receive_data of
-- SCMultipath/file_server.c. `none` is the end of the process.
pub mod Transfer
pub mod EndToEnd
use premium.Base.{
  ℕ, zero, suc, ◌-◌, ◌%◌, ◌^◌, List, [], ◌∷◌, ◌++◌, Bool, Option, none, some, ltb, ◌==◌,
  if◌then◌else◌, length, take,
}
use premium.Text.{Bytes, c_string}
use premium.Wire.{recv_into}
use premium.Apps.Stream.{recv, le_bytes, recv_integer}

abbrev pub length_spec : ℕ
length_spec = 512

-- The file if it can be opened, its size by stat, and how many bytes sendfile transfers of as many
-- as are asked for, if it does not fail. The result is what is sent.
unfoldable pub send_file_protocol : Option Bytes → ℕ → (ℕ → Option ℕ) → Bytes → Option Bytes
send_file_protocol file file_size sendfile filename =
    let sent : Bytes → Option Bytes = λ content. elim (sendfile file_size) [
      | none ↦ none
      | some n ↦
          some
            (le_bytes 4 (length filename) ++ (filename ++ (le_bytes 8 file_size ++ take n content)))
    ] in
    elim file [ none ↦ none | some content ↦ sent content ]

-- `remain_data = filesize` puts a long into an int; 0 stands for every value that is not positive.
abbrev pub remaining : ℕ → ℕ
remaining filesize = let bits = filesize % 2 ^ 32 in if ltb bits (2 ^ 31) then bits else 0

-- The loop: what it writes to the file. It receives before it looks at what remains.
unfoldable pub receive_payload : ℕ → ℕ → List Bytes → Bytes → Option Bytes
receive_payload zero remain_data pieces received_file = none
receive_payload (suc fuel) remain_data pieces received_file =
    let (buffer, later) = recv length_spec pieces in
    let rest = receive_payload fuel (remain_data - length buffer) later (received_file ++ buffer) in
    if ltb 0 (length buffer)
    then (if ltb 0 remain_data then rest else some received_file)
    else some received_file

-- The steps of machete_receive_data behind each call of recv, from the last one on.
abbrev pub receive_file : ℕ → (Bytes → Bool) → Bytes → Bytes × List Bytes → Option (Bytes × Bytes)
receive_file fuel creates filename (filesize_bytes, pieces) =
    let written = receive_payload fuel (remaining (recv_integer 8 filesize_bytes)) pieces [] in
    if creates filename
    then (elim written [ none ↦ none | some content ↦ some (filename, content) ])
    else none

-- The array of the file's name has no room for a NUL, so that the name reads on in what lies behind
-- it.
abbrev pub receive_filesize :
    ℕ → (Bytes → Bool) → Bytes → Bytes → Bytes × List Bytes → Option (Bytes × Bytes)
receive_filesize fuel creates array behind (name_bytes, pieces) =
    receive_file fuel creates (c_string (recv_into array name_bytes ++ behind)) (recv 8 pieces)

abbrev pub receive_filename :
    ℕ → (Bytes → Bool) → (ℕ → Bytes) → Bytes → Bytes × List Bytes → Option (Bytes × Bytes)
receive_filename fuel creates stale behind (size_bytes, pieces) =
    let filename_size = recv_integer 4 size_bytes in
    receive_filesize fuel creates (stale filename_size) behind (recv filename_size pieces)

-- The name of the file that is created and what is written to it. `creates` says for which names fopen
-- succeeds; `stale n` is what the array of n bytes held, `behind` what lies behind it.
unfoldable pub machete_receive_data :
    ℕ → (Bytes → Bool) → (ℕ → Bytes) → Bytes → List Bytes → Option (Bytes × Bytes)
machete_receive_data fuel creates stale behind pieces =
    receive_filename fuel creates stale behind (recv 4 pieces)
