-- ===== src/Apps/Stream.antt =====
-- A connection as what its peer has sent, in the pieces in which it arrives, and the integers that
-- both ends copy to it byte by byte.
use native.Mathlib.Nat.{pow-suc}
use premium.Base.{
  ℕ, zero, suc, ◌+◌, ◌*◌, ◌/◌, ◌%◌, ◌^◌, ◌≤◌, ◌<◌, List, [], ◌∷◌, ◌++◌, ◌≡◌, refl, ap, arith, leb,
  if◌then◌else◌, length, take, drop, replicate,
}
use premium.Text.{Bytes}
use premium.Wire.{recv_into}

-- `recv(fd, buffer, n, 0)` returns what has arrived, at most n bytes, and leaves the rest; it returns
-- nothing when the peer has closed the connection.
unfoldable pub recv : ℕ → List Bytes → Bytes × List Bytes
recv n [] = ([], [])
recv n (piece ∷ later) =
    if leb (length piece) n then (piece, later) else (take n piece, drop n piece ∷ later)

-- The bytes of an integer of k bytes on a little-endian machine, and the integer.
unfoldable pub le_bytes : ℕ → ℕ → Bytes
le_bytes zero n = []
le_bytes (suc k) n = n % 256 ∷ le_bytes k (n / 256)

unfoldable pub le_value : Bytes → ℕ
le_value [] = 0
le_value (b ∷ s) = b + 256 * le_value s

-- An integer of k bytes that was 0, after some of its bytes have been received.
abbrev pub recv_integer : ℕ → Bytes → ℕ
recv_integer k chunk = le_value (recv_into (replicate k 0) chunk)

pub le_bytes-length : (k n : ℕ) → length (le_bytes k n) ≡ k
unfolding le_bytes
le_bytes-length zero n = refl
le_bytes-length (suc k) n = ap suc (le_bytes-length k (n / 256))

pub le_value-le_bytes : (k n : ℕ) → n < 256 ^ k → le_value (le_bytes k n) ≡ n
unfolding le_bytes le_value
le_value-le_bytes zero n h = omega arith
le_value-le_bytes (suc k) n h =
    omega (arith, le_value-le_bytes k (n / 256) (omega (arith, pow-suc 256 k)))

drop_all : (s : Bytes) (k : ℕ) → k ≤ length s → drop {A = ℕ} (length s) (replicate k 0) ≡ []
drop_all [] zero h = refl
drop_all [] (suc k) h = absurd (omega arith)
drop_all (c ∷ s) zero h = refl
drop_all (c ∷ s) (suc k) h = drop_all s k (omega arith)

append-nil_of : (s t : Bytes) → t ≡ [] → s ++ t ≡ s
append-nil_of [] t e = e
append-nil_of (c ∷ s) t e = ap (λ r. c ∷ r) (append-nil_of s t e)

-- All bytes of an integer received give the integer that was sent.
pub recv_integer-le_bytes : (k n : ℕ) → n < 256 ^ k → recv_integer k (le_bytes k n) ≡ n
recv_integer-le_bytes k n h =
    rw
      (append-nil_of (le_bytes k n) _
        (drop_all (le_bytes k n) k (omega (arith, le_bytes-length k n))))
      (le_value-le_bytes k n h)

-- What the pieces hold together.
abbrev pub contents : List Bytes → Bytes
contents [] = []
contents (piece ∷ later) = piece ++ contents later

abbrev pub IsPiece : Bytes → Type 0
IsPiece piece = 0 < length piece
