-- ===== src/Net/Checksum.antt =====
-- checksum of SCMultipath/utils/connectivity_utils.c. A short of the buffer is read in little-endian
-- order; the sum is a 32-bit unsigned int and the result a 16-bit one.
use premium.Base.{
  ap, ◌∙◌, ◌⊎◌, inl, inr, ℕ, ◌+◌, ◌-◌, ◌*◌, ◌/◌, ◌%◌, ◌^◌, ◌≤◌, ◌<◌, [], ◌∷◌, ◌≡◌, arith, length,
  All,
}
use premium.Text.{Bytes}

-- The loop over the shorts, and the byte that is left over at an odd length.
unfoldable pub sum_words : Bytes → ℕ → ℕ
sum_words [] sum = sum
sum_words (b ∷ []) sum = (sum + b) % 2 ^ 32
sum_words (lo ∷ hi ∷ rest) sum = sum_words rest ((sum + (lo + 256 * hi)) % 2 ^ 32)

-- The two carries are added back in, and the low 16 bits complemented.
unfoldable pub fold_sum : ℕ → ℕ
fold_sum sum =
    let once = (sum / 2 ^ 16 + sum % 2 ^ 16) % 2 ^ 32 in
    2 ^ 16 - 1 - (once + once / 2 ^ 16) % 2 ^ 32 % 2 ^ 16

unfoldable pub checksum : Bytes → ℕ
unfolding sum_words fold_sum
checksum b = fold_sum (sum_words b 0)

abbrev pub IsByte : ℕ → Type 0
IsByte b = b < 256

-- The shorts of some bytes added up, with nothing lost.
abbrev total : Bytes → ℕ
total [] = 0
total (b ∷ []) = b
total (lo ∷ hi ∷ rest) = lo + 256 * hi + total rest

total-le : (b : Bytes) → All IsByte b → total b ≤ 65535 * length b
total-le [] h = omega arith
total-le (b ∷ []) h = omega arith
total-le (lo ∷ hi ∷ rest) (h1, (h2, h)) = omega (arith, total-le rest h)

sum_words-total : (b : Bytes) (sum : ℕ) → sum + total b < 2 ^ 32 → sum_words b sum ≡ sum + total b
unfolding sum_words
sum_words-total [] sum h = omega arith
sum_words-total (b ∷ []) sum h = omega arith
sum_words-total (lo ∷ hi ∷ rest) sum h =
    omega (arith, sum_words-total rest ((sum + (lo + 256 * hi)) % 2 ^ 32))

fold_sum-lt : (s : ℕ) → fold_sum s < 2 ^ 16
unfolding fold_sum
fold_sum-lt s = omega arith

-- One carry at most is left after the first fold.
fold_sum-cases :
    (q r : ℕ)
    → r < 2 ^ 16
    → q < 2 ^ 15 + 1
    → (q + r < 2 ^ 16) × (fold_sum (65536 * q + r) + q + r ≡ 65535)
      ⊎ (2 ^ 16 ≤ q + r) × (fold_sum (65536 * q + r) + q + r ≡ 131070)
unfolding fold_sum
fold_sum-cases q r hr hq = omega arith

fold_sum_full : (s q r : ℕ) → s ≡ 65536 * q + r → q + r ≡ 65535 → q < 2 ^ 15 + 1 → fold_sum s ≡ 0
fold_sum_full s q r e full hq = rw e (omega (arith, fold_sum-cases q r))

-- Adding the checksum of a sum to it gives a sum whose checksum is zero.
fold_sum_verifies : (s : ℕ) → s < 2 ^ 31 → fold_sum (s + fold_sum s) ≡ 0
fold_sum_verifies s h =
    let q : ℕ = s / 65536 in
    let r : ℕ = s % 65536 in
    let split : s ≡ 65536 * q + r = omega arith in
    elim (fold_sum-cases q r (omega arith) (omega arith)) [
      | inl (small, e) ↦
          let e' : fold_sum s + q + r ≡ 65535 = ap (λ t. fold_sum t + q + r) split ∙ e in
          fold_sum_full (s + fold_sum s) q (r + fold_sum s) (omega arith) (omega arith)
            (omega arith)
      | inr (large, e) ↦
          let e' : fold_sum s + q + r ≡ 131070 = ap (λ t. fold_sum t + q + r) split ∙ e in
          fold_sum_full (s + fold_sum s) (q + 1) (65534 - q) (omega arith) (omega arith)
            (omega arith)
    ]

checksum-total : (b : Bytes) → All IsByte b → length b < 2 ^ 15 → checksum b ≡ fold_sum (total b)
unfolding checksum
checksum-total b h small =
    ap fold_sum (sum_words-total b 0 (omega (arith, total-le b h)) ∙ omega arith)

-- A packet of up to 516 bytes whose checksum, taken with the field at the offsets 2 and 3 zero, is
-- stored in that field, has the checksum 0: its receiver finds it intact.
pub checksum_verifies :
    (type code : ℕ) (rest : Bytes)
    → IsByte type
    → IsByte code
    → All IsByte rest
    → length rest ≤ 512
    → let sum = checksum (type ∷ code ∷ 0 ∷ 0 ∷ rest) in
      checksum (type ∷ code ∷ sum % 256 ∷ sum / 256 ∷ rest) ≡ 0
checksum_verifies type code rest ht hc hr small =
    let field = checksum (type ∷ code ∷ 0 ∷ 0 ∷ rest) in
    let zeroed =
      checksum-total (type ∷ code ∷ 0 ∷ 0 ∷ rest)
        (omega arith, (omega arith, (omega arith, (omega arith, hr)))) (omega arith) in
    let lt : field < 2 ^ 16 =
      omega (arith, zeroed, fold_sum-lt (total (type ∷ code ∷ 0 ∷ 0 ∷ rest))) in
    let filled =
      checksum-total (type ∷ code ∷ field % 256 ∷ field / 256 ∷ rest)
        (omega arith, (omega arith, (omega arith, (omega arith, hr)))) (omega arith) in
    let s = total (type ∷ code ∷ 0 ∷ 0 ∷ rest) in
    let grown : total (type ∷ code ∷ field % 256 ∷ field / 256 ∷ rest) ≡ s + fold_sum s =
      omega (arith, zeroed) in
    filled ∙ ap fold_sum grown ∙ fold_sum_verifies s (omega (arith, total-le rest hr))
