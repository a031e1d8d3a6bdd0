-- ===== src/Manager/Buffer.antt =====
-- The receive buffer of the manager's clients: recv writes the front and leaves the rest.
use premium.Base.{
  ℕ, zero, suc, ◌≤◌, [], ◌∷◌, ◌++◌, ◌≡◌, refl, ap, false, arith, ==_ne, length, drop, replicate,
}
use premium.Text.{Bytes, Lacks, NoNul, c_string, starts_with, contains}
use premium.Wire.{recv_into}

-- What one call of recv does: it fails, or it returns some bytes. The list of calls ends when the
-- peer has closed the connection.
pub data Arrival : Type 0 where
  recv_failed : Arrival
  received : Bytes → Arrival

abbrev pub arrive : Bytes → Arrival → Bytes
arrive buffer recv_failed = buffer
arrive buffer (received chunk) = recv_into buffer chunk

-- From the offset `k` on the buffer holds a NUL first.
abbrev pub ZeroFrom : ℕ → Bytes → Type 0
ZeroFrom k b = (n : ℕ) → k ≤ n → c_string (drop n b) ≡ []

pub zeroed-ZeroFrom : (m : ℕ) → ZeroFrom 0 (replicate m 0)
unfolding c_string
zeroed-ZeroFrom zero zero le = refl
zeroed-ZeroFrom zero (suc n) le = refl
zeroed-ZeroFrom (suc m) zero le = refl
zeroed-ZeroFrom (suc m) (suc n) le = zeroed-ZeroFrom m n (omega arith)

ZeroFrom-append : (s b : Bytes) → ZeroFrom 0 b → ZeroFrom (length s) (s ++ b)
ZeroFrom-append [] b z n le = z n le
ZeroFrom-append (c ∷ s) b z zero le = absurd (omega arith)
ZeroFrom-append (c ∷ s) b z (suc n) le = ZeroFrom-append s b z n (omega arith)

ZeroFrom-drop : (k : ℕ) (b : Bytes) → ZeroFrom 0 b → ZeroFrom 0 (drop k b)
ZeroFrom-drop zero b z n le = z n le
ZeroFrom-drop (suc k) [] z n le = z n le
ZeroFrom-drop (suc k) (c ∷ b) z n le = ZeroFrom-drop k b (λ m ge. z (suc m) (omega arith)) n le

-- A short message in a zeroed buffer is followed by zeros.
pub recv_into-ZeroFrom : (s b : Bytes) → ZeroFrom 0 b → ZeroFrom (length s) (recv_into b s)
recv_into-ZeroFrom s b z = ZeroFrom-append s (drop (length s) b) (ZeroFrom-drop (length s) b z)

pub c_string-zeros : (s b : Bytes) → NoNul s → c_string b ≡ [] → c_string (s ++ b) ≡ s
unfolding c_string
c_string-zeros [] b h e = e
c_string-zeros (c ∷ s) b (p, h) e = rw (==_ne c 0 p) (ap (λ t. c ∷ t) (c_string-zeros s b h e))

-- A message at least as long as what the buffer still holds is read whole, and nothing after it.
pub c_string-recv :
    (k : ℕ) (s b : Bytes) → ZeroFrom k b → NoNul s → k ≤ length s → c_string (recv_into b s) ≡ s
c_string-recv k s b z h le = c_string-zeros s (drop (length s) b) h (z (length s) le)

starts_with-Lacks : (d : ℕ) (p s : Bytes) → Lacks d s → starts_with (d ∷ p) s ≡ false
unfolding starts_with
starts_with-Lacks d p [] h = refl
starts_with-Lacks d p (c ∷ s) (ne, h) = ground arith

-- A text without a pattern's first byte does not contain the pattern.
pub contains-Lacks : (d : ℕ) (p s : Bytes) → Lacks d s → contains (d ∷ p) s ≡ false
unfolding contains
contains-Lacks d p [] h = unfold starts_with in refl
contains-Lacks d p (c ∷ s) (ne, h) =
    rw (starts_with-Lacks d p (c ∷ s) (ne, h)) (contains-Lacks d p s h)

starts_with-Lacks_later : (d : ℕ) (p q s : Bytes) → Lacks d s → starts_with (p ++ d ∷ q) s ≡ false
unfolding starts_with
starts_with-Lacks_later d [] q s h = starts_with-Lacks d q s h
starts_with-Lacks_later d (c ∷ p) q [] h = refl
starts_with-Lacks_later d (c ∷ p) q (e ∷ s) (ne, h) =
    ground (arith, starts_with-Lacks_later d p q s h)

-- A text without any one byte of a pattern does not contain the pattern.
pub contains-Lacks_later : (d : ℕ) (p q s : Bytes) → Lacks d s → contains (p ++ d ∷ q) s ≡ false
unfolding contains
contains-Lacks_later d p q [] h = starts_with-Lacks_later d p q [] h
contains-Lacks_later d p q (c ∷ s) (ne, h) =
    rw (starts_with-Lacks_later d p q (c ∷ s) (ne, h)) (contains-Lacks_later d p q s h)
