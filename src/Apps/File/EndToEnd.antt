-- ===== src/Apps/File/EndToEnd.antt =====
-- Both ends of the file transfer together.
use premium.Base.{
  ℕ, ◌<◌, ◌^◌, List, ◌∷◌, ◌++◌, ◌≡◌, refl, sym, ap, ◌∙◌, Bool, true, false, Option, some, arith,
  leb, length, length-append, take, take-append, drop-append, take_all, All, append_assoc,
}
use premium.Text.{Bytes, NoNul, c_string}
use premium.Apps.Stream.{recv, le_bytes, le_bytes-length, contents, IsPiece}
use premium.Apps.File.{send_file_protocol, machete_receive_data}
use premium.Apps.File.Transfer.{IsAnnounced, machete_receive_data-content}

-- A read that a piece has more than enough bytes for.
recv-front :
    (n : ℕ) (s t : Bytes) (later : List Bytes)
    → n ≡ length s
    → 0 < length t
    → recv n ((s ++ t) ∷ later) ≡ (s, t ∷ later)
unfolding recv
recv-front n s t later e pos =
    let long : leb (length (s ++ t)) n ≡ false = ground (arith, length-append s t) in
    rw (long, e, take-append s t, drop-append s t) refl

-- What the sender sends in front of the content.
abbrev pub announced : Bytes → ℕ → Bytes → Bytes
announced filename filesize tail =
    le_bytes 4 (length filename) ++ (filename ++ (le_bytes 8 filesize ++ tail))

pub front-IsAnnounced :
    (creates : Bytes → Bool) (stale : ℕ → Bytes) (behind filename : Bytes) (filesize : ℕ)
    (first : Bytes) (later : List Bytes)
    → 0 < length first
    → length (stale (length filename)) ≡ length filename
    → IsAnnounced creates stale behind filename filesize
        (announced filename filesize first ∷ later)
        (first ∷ later)
front-IsAnnounced creates stale behind filename filesize first later pos array = record {
  after_size = (filename ++ (le_bytes 8 filesize ++ first)) ∷ later;
  after_name = (le_bytes 8 filesize ++ first) ∷ later;
  size_read =
      recv-front 4 (le_bytes 4 (length filename)) _ later
        (sym (le_bytes-length 4 (length filename))) (simp length-append (omega arith));
  name_read = recv-front (length filename) filename _ later refl (simp length-append (omega arith));
  filesize_read =
      recv-front 8 (le_bytes 8 filesize) first later (sym (le_bytes-length 8 filesize)) pos;
  array = array;
}

send_file_protocol-announced :
    (content filename : Bytes) (size n : ℕ) (sendfile : ℕ → Option ℕ)
    → sendfile size ≡ some n
    → send_file_protocol (some content) size sendfile filename
      ≡ some (announced filename size (take n content))
unfolding send_file_protocol
send_file_protocol-announced content filename size n sendfile sends =
    rw (sends, send_file_protocol) refl

-- A file that is not empty and shorter than 2 GiB is received as it was sent, if stat and sendfile
-- see all of it: the sender sends three announcements and the content, and if the announcements and
-- a first byte of the content arrive together, and the rest in any pieces, the receiver writes the
-- content to a file. Its name is the name that was sent with whatever lies behind the receiver's
-- array, up to the first NUL.
pub file_transfer :
    (creates : Bytes → Bool) (stale : ℕ → Bytes) (behind filename first : Bytes)
    (later : List Bytes) (fuel : ℕ) (sendfile : ℕ → Option ℕ)
    → let content = first ++ contents later in
      let pieces = announced filename (length content) first ∷ later in
      0 < length first
      → All IsPiece later
      → sendfile (length content) ≡ some (length content)
      → length (stale (length filename)) ≡ length filename
      → NoNul filename
      → length filename < 2 ^ 31
      → length content < 2 ^ 31
      → creates (filename ++ c_string behind) ≡ true
      → length content < fuel
      → (send_file_protocol (some content) (length content) sendfile filename
          ≡ some (contents pieces))
        × (machete_receive_data fuel creates stale behind pieces
            ≡ some (filename ++ c_string behind, content))
file_transfer creates stale behind filename first later fuel sendfile pos rest sends array nul
      name_fits fits made enough =
    let content = first ++ contents later in
    let size = length content in
    (
      send_file_protocol-announced content filename size size sendfile sends
          ∙ ap (λ s. some (announced filename size s)) (take_all content size (omega arith))
          ∙ ap some (
              sym (
                append_assoc (le_bytes 4 (length filename)) (filename ++ (le_bytes 8 size ++ first))
                  (contents later)
                ∙ ap (λ s. le_bytes 4 (length filename) ++ s)
                    (append_assoc filename (le_bytes 8 size ++ first) (contents later)
                      ∙ ap (λ s. filename ++ s)
                          (append_assoc (le_bytes 8 size) first (contents later))))),
      machete_receive_data-content creates stale behind filename fuel
          (announced filename size first ∷ later) (first ∷ later) content
          (front-IsAnnounced creates stale behind filename size first later pos array) refl
          (pos, rest) nul name_fits fits made enough,
    )
