-- ===== src/Text/Decimal.antt =====
-- sprintf(buffer, "%d", n) of a number that is not negative: the decimal digits, by recursion on
-- fuel. Ten rounds are enough for every int, and the length bounds say what buffer is needed.
use native.Mathlib.Nat.{pow-suc}
use premium.Base.{
  leb, ◌&&◌, ◌⊎◌, ◌-◌, ap, ◌∙◌, Bool-cases, inl, inr, ℕ, zero, suc, ◌+◌, ◌*◌, ◌/◌, ◌%◌, ◌^◌, ◌≤◌,
  ◌<◌, [], ◌∷◌, ◌≡◌, ◌≢◌, refl, Bool, arith, ltb, if◌then◌else◌, length, All,
}
use premium.Text.{Bytes, Lacks}

unfoldable pub digits : ℕ → ℕ → Bytes → Bytes
digits zero n out = out
digits (suc k) n out =
    let rest = digits k (n / 10) ((b'0' + n % 10) ∷ out) in
    if ltb n 10 then (b'0' + n) ∷ out else rest

unfoldable pub decimal : ℕ → Bytes
unfolding digits
decimal n = digits 10 n []

decimal_port : decimal 10101 ≡ b'1' ∷ b'0' ∷ b'1' ∷ b'0' ∷ b'1' ∷ []
unfolding decimal
decimal_port = refl

abbrev pub IsDigit : ℕ → Type 0
IsDigit c = (b'0' ≤ c) × (c ≤ b'9')

digits-All : (k n : ℕ) (out : Bytes) → All IsDigit out → All IsDigit (digits k n out)
unfolding digits
digits-All zero n out h = h
digits-All (suc k) n out h = ground (arith, digits-All k (n / 10) ((b'0' + n % 10) ∷ out))

pub decimal-All : (n : ℕ) → All IsDigit (decimal n)
unfolding decimal
decimal-All n = digits-All 10 n [] tt

pub Lacks-of_digits : (d : ℕ) (s : Bytes) → (d < b'0') ⊎ (b'9' < d) → All IsDigit s → Lacks d s
Lacks-of_digits d [] h ds = tt
Lacks-of_digits d (c ∷ s) h (p, ps) = (ground arith, Lacks-of_digits d s h ps)

digits-ne-nil : (k n : ℕ) (out : Bytes) → out ≢ [] → digits k n out ≢ []
unfolding digits
digits-ne-nil zero n out h = h
digits-ne-nil (suc k) n out h = ground (arith, digits-ne-nil k (n / 10) ((b'0' + n % 10) ∷ out))

pub decimal-ne-nil : (n : ℕ) → decimal n ≢ []
unfolding decimal digits
decimal-ne-nil n = ground (arith, digits-ne-nil 9 (n / 10) ((b'0' + n % 10) ∷ []))

digits-length : (k n : ℕ) (out : Bytes) → length (digits k n out) ≤ k + length out
unfolding digits
digits-length zero n out = omega arith
digits-length (suc k) n out = ground (arith, digits-length k (n / 10) ((b'0' + n % 10) ∷ out))

-- The number that digits spell behind `n`.
abbrev pub value : ℕ → Bytes → ℕ
value n [] = n
value n (c ∷ s) = value (n * 10 + (c - b'0')) s

tenth_lt : (k n : ℕ) → n < 10 ^ suc k → n / 10 < 10 ^ k
tenth_lt k n h = omega (arith, pow-suc 10 k)

digits-value : (k n : ℕ) (out : Bytes) → n < 10 ^ k → value 0 (digits k n out) ≡ value n out
unfolding digits
digits-value zero n out h = ap (λ m. value m out) (omega arith)
digits-value (suc k) n out h = elim (Bool-cases (ltb n 10)) [
  | inl small ↦ rw small (ap (λ m. value m out) (omega arith))
  | inr big ↦ rw big (
      digits-value k (n / 10) ((b'0' + n % 10) ∷ out) (tenth_lt k n h)
      ∙ ap (λ m. value m out) (omega arith))
]

-- Ten rounds suffice for an int: the digits spell the number.
pub value-decimal : (n : ℕ) → n < 10 ^ 10 → value 0 (decimal n) ≡ n
unfolding decimal
value-decimal n h = digits-value 10 n [] h

-- A port needs at most five digits.
pub decimal-length : (n : ℕ) → n < 65536 → length (decimal n) ≤ 5
unfolding decimal digits
decimal-length n h = ground arith

pub decimal-length_byte : (n : ℕ) → n < 1000 → length (decimal n) ≤ 3
unfolding decimal digits
decimal-length_byte n h = ground arith

pub decimal-length_short : (n : ℕ) → n < 100 → length (decimal n) ≤ 2
unfolding decimal digits
decimal-length_short n h = ground arith

is_digit : ℕ → Bool
is_digit c = leb b'0' c && leb c b'9'

-- atoi of a text with no blank or sign in front: the digits up to the first other byte.
unfoldable pub atoi_from : ℕ → Bytes → ℕ
unfolding is_digit
atoi_from n [] = n
atoi_from n (c ∷ s) = let rest = atoi_from (n * 10 + (c - b'0')) s in if is_digit c then rest else n

unfoldable pub atoi : Bytes → ℕ
unfolding atoi_from
atoi s = atoi_from 0 s

atoi_from-value : (n : ℕ) (s : Bytes) → All IsDigit s → atoi_from n s ≡ value n s
unfolding atoi_from
atoi_from-value n [] h = refl
atoi_from-value n (c ∷ s) (p, h) = ground (arith, atoi_from-value (n * 10 + (c - b'0')) s)

-- atoi reads back what sprintf printed.
pub atoi-decimal : (n : ℕ) → n < 10 ^ 10 → atoi (decimal n) ≡ n
unfolding atoi
atoi-decimal n h = atoi_from-value 0 (decimal n) (decimal-All n) ∙ value-decimal n h
