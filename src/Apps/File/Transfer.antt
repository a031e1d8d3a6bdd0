-- ===== src/Apps/File/Transfer.antt =====
-- What the receiver's file holds when the sender's is sent.
use premium.Base.{
  ℕ, zero, suc, ◌+◌, ◌-◌, ◌%◌, ◌^◌, ◌≤◌, ◌<◌, List, [], ◌∷◌, ◌++◌, ◌≡◌, refl, sym, ap, ◌∙◌, Bool,
  true, Option, some, arith, ltb, lt→ltb, ltb-false, leb, Bool-cases, inl, inr, length,
  length-append, take, drop, All, append-nil, append_assoc,
}
use premium.Text.{Bytes, NoNul, c_string}
use premium.Apps.Stream.{recv, le_bytes, recv_integer-le_bytes, contents, IsPiece}
use premium.Apps.File.{
  length_spec, remaining, receive_payload, receive_file, receive_filesize, receive_filename,
  machete_receive_data,
}

-- One call of recv takes a front of what is there: at least a byte of it, and at most n bytes.
abbrev Taken : ℕ → List Bytes → Bytes × List Bytes → Type 0
Taken n pieces r =
    (contents pieces ≡ r.0 ++ contents r.1) × (0 < length r.0) × (length r.0 ≤ n) × All IsPiece r.1

take-drop : (n : ℕ) (s : Bytes) → take n s ++ drop n s ≡ s
take-drop zero s = refl
take-drop (suc n) [] = refl
take-drop (suc n) (c ∷ s) = ap (λ t. c ∷ t) (take-drop n s)

take-length : (n : ℕ) (s : Bytes) → n ≤ length s → length (take n s) ≡ n
take-length zero s h = refl
take-length (suc n) [] h = absurd (omega arith)
take-length (suc n) (c ∷ s) h = ap suc (take-length n s (omega arith))

drop-length : (n : ℕ) (s : Bytes) → length (drop n s) ≡ length s - n
drop-length zero s = omega arith
drop-length (suc n) [] = omega arith
drop-length (suc n) (c ∷ s) = omega (arith, drop-length n s)

recv-Taken :
    (n : ℕ) (piece : Bytes) (later : List Bytes)
    → 0 < n
    → All IsPiece (piece ∷ later)
    → Taken n (piece ∷ later) (recv n (piece ∷ later))
unfolding recv
recv-Taken n piece later pos (h, hs) = elim (Bool-cases (leb (length piece) n)) [
  | inl e ↦ rw e (refl, h, ground arith, hs)
  | inr e ↦
      let longer : n < length piece = ground arith in
      rw e (
        ap (λ s. s ++ contents later) (sym (take-drop n piece))
            ∙ append_assoc (take n piece) (drop n piece) (contents later),
        omega (arith, take-length n piece (omega arith)),
        omega (arith, take-length n piece (omega arith)),
        (omega (arith, drop-length n piece), hs),
      )
]

payload_step :
    (fuel remain_data : ℕ) (pieces : List Bytes) (written : Bytes)
    → 0 < length (recv length_spec pieces).0
    → 0 < remain_data
    → receive_payload (suc fuel) remain_data pieces written
      ≡ receive_payload fuel
          (remain_data - length (recv length_spec pieces).0)
          (recv length_spec pieces).1
          (written ++ (recv length_spec pieces).0)
unfolding receive_payload
payload_step fuel remain_data pieces written pos more =
    rw (lt→ltb 0 (length (recv length_spec pieces).0) pos, lt→ltb 0 remain_data more) refl

-- However the payload arrives, the loop writes it all.
receive_payload-contents :
    (fuel : ℕ) (pieces : List Bytes) (written : Bytes)
    → All IsPiece pieces
    → length (contents pieces) < fuel
    → receive_payload fuel (length (contents pieces)) pieces written
      ≡ some (written ++ contents pieces)
receive_payload-contents zero pieces written h lt = absurd (omega arith)
receive_payload-contents (suc fuel) [] written h lt =
    unfold receive_payload recv in ap some (sym (append-nil written))
receive_payload-contents (suc fuel) (piece ∷ later) written h lt =
    let pieces = piece ∷ later in
    let (split, some_bytes, few, rest) = recv-Taken length_spec piece later (omega arith) h in
    let (buffer, left) = recv length_spec pieces in
    let sizes : length (contents pieces) ≡ length buffer + length (contents left) =
      ap length split ∙ length-append buffer (contents left) in
    let remain : length (contents pieces) - length buffer ≡ length (contents left) =
      omega (arith, sizes) in
    payload_step fuel (length (contents pieces)) pieces written some_bytes (omega (arith, sizes))
    ∙ ap (λ n. receive_payload fuel n left (written ++ buffer)) remain
    ∙ receive_payload-contents fuel left (written ++ buffer) rest (omega (arith, sizes))
    ∙ ap some (append_assoc written buffer (contents left) ∙ ap (λ s. written ++ s) (sym split))

c_string-behind : (s behind : Bytes) → NoNul s → c_string (s ++ behind) ≡ s ++ c_string behind
unfolding c_string
c_string-behind [] behind h = refl
c_string-behind (c ∷ s) behind (p, h) = ground (arith, c_string-behind s behind)

drop_whole : (s t : Bytes) → length s ≡ length t → drop (length s) t ≡ []
drop_whole [] [] e = refl
drop_whole [] (c ∷ t) e = absurd (omega arith)
drop_whole (c ∷ s) [] e = absurd (omega arith)
drop_whole (c ∷ s) (d ∷ t) e = drop_whole s t (omega arith)

module _ (creates : Bytes → Bool) (stale : ℕ → Bytes) (behind filename : Bytes) where
  -- The three reads before the payload each get what the sender has sent for them.
  pub record IsAnnounced (filesize : ℕ) (pieces payload : List Bytes) : Type 0 where
    pub after_size : List Bytes
    pub after_name : List Bytes
    pub size_read : recv 4 pieces ≡ (le_bytes 4 (length filename), after_size)
    pub name_read : recv (length filename) after_size ≡ (filename, after_name)
    pub filesize_read : recv 8 after_name ≡ (le_bytes 8 filesize, payload)
    pub array : length (stale (length filename)) ≡ length filename

  receive_data-payload :
      (fuel filesize : ℕ) (pieces payload : List Bytes) (written : Bytes)
      → IsAnnounced filesize pieces payload
      → NoNul filename
      → length filename < 2 ^ 31
      → filesize < 2 ^ 63
      → creates (filename ++ c_string behind) ≡ true
      → receive_payload fuel (remaining filesize) payload [] ≡ some written
      → machete_receive_data fuel creates stale behind pieces
        ≡ some (filename ++ c_string behind, written)
  unfolding machete_receive_data
  receive_data-payload fuel filesize pieces payload written a nul name_fits size_fits made got =
      let named =
        ap (λ s. c_string ((filename ++ s) ++ behind))
          (drop_whole filename (stale (length filename)) (sym a.array))
        ∙ ap (λ s. c_string (s ++ behind)) (append-nil filename)
        ∙ c_string-behind filename behind nul in
      let announced = recv_integer-le_bytes 4 (length filename) (omega arith) in
      let array : ℕ → Bytes × List Bytes → Option (Bytes × Bytes) =
        λ n r. receive_filesize fuel creates (stale n) behind r in
      ap (receive_filename fuel creates stale behind) a.size_read
      ∙ ap (λ n. array n (recv n a.after_size)) announced
      ∙ ap (array (length filename)) a.name_read
      ∙ ap (λ name. receive_file fuel creates name (recv 8 a.after_name)) named
      ∙ ap (receive_file fuel creates (filename ++ c_string behind)) a.filesize_read
      ∙ rw (recv_integer-le_bytes 8 filesize (omega arith), made, got) refl

  -- If the three reads before the payload each get what the sender has sent for them, and the file is
  -- shorter than 2 GiB and can be created, the receiver writes exactly its content, in whatever pieces
  -- that arrives, until the sender closes the connection. The name of the file is the name that was
  -- sent with whatever lies behind the array, up to the first NUL.
  pub machete_receive_data-content :
      (fuel : ℕ) (pieces payload : List Bytes) (content : Bytes)
      → IsAnnounced (length content) pieces payload
      → contents payload ≡ content
      → All IsPiece payload
      → NoNul filename
      → length filename < 2 ^ 31
      → length content < 2 ^ 31
      → creates (filename ++ c_string behind) ≡ true
      → length content < fuel
      → machete_receive_data fuel creates stale behind pieces
        ≡ some (filename ++ c_string behind, content)
  machete_receive_data-content fuel pieces payload content a whole some_bytes nul name_fits fits
        made enough =
      let small : remaining (length content) ≡ length (contents payload) =
        ground (arith, ap length whole) in
      receive_data-payload fuel (length content) pieces payload content a nul name_fits
        (omega arith) made
        (ap (λ n. receive_payload fuel n payload []) small
          ∙ receive_payload-contents fuel payload [] some_bytes (omega (arith, ap length whole))
          ∙ ap some whole)

  -- If the size of the file has bit 31 set, such as 2 GiB to 4 GiB less one byte, the receiver creates
  -- the file and writes nothing to it.
  pub machete_receive_data_large :
      (fuel filesize : ℕ) (pieces payload : List Bytes)
      → IsAnnounced filesize pieces payload
      → NoNul filename
      → length filename < 2 ^ 31
      → filesize < 2 ^ 63
      → 2 ^ 31 ≤ filesize % 2 ^ 32
      → creates (filename ++ c_string behind) ≡ true
      → machete_receive_data (suc fuel) creates stale behind pieces
        ≡ some (filename ++ c_string behind, [])
  machete_receive_data_large fuel filesize pieces payload a nul name_fits size_fits large made =
      let nothing : receive_payload (suc fuel) (remaining filesize) payload [] ≡ some [] =
        unfold receive_payload in
        rw (ltb-false (filesize % 2 ^ 32) (2 ^ 31) large)
          (elim (Bool-cases (ltb 0 (length (recv length_spec payload).0))) [
            | inl e ↦ rw e
            | inr e ↦ rw e
          ]) in
      receive_data-payload (suc fuel) filesize pieces payload [] a nul name_fits size_fits made
        nothing
