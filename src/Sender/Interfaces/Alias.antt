-- ===== src/Sender/Interfaces/Alias.antt =====
-- The address that create_virtual_ifconfig chooses for a new alias.
use premium.Base.{
  ℕ, zero, suc, ◌+◌, ◌≤◌, ◌<◌, [], ◌∷◌, ◌++◌, ◌≡◌, inl, refl, Bool, true, false, some, arith,
  lt→ltb, length,
}
use premium.Text.{Bytes, codes, strcat_all, Token}
use premium.Text.Token.{next_token_step, next_token_last}
use premium.Text.Decimal.{
  decimal, atoi, atoi-decimal, decimal-length_byte, decimal-ne-nil, decimal-All, Lacks-of_digits,
}
use premium.Sender.Interfaces.{part_size, free_address, dot, create_virtual_ifconfig}

-- The last parts that are tried one after the other.
abbrev pub candidate : ℕ → ℕ → ℕ → ℕ
candidate part addition zero = part + addition
candidate part addition (suc j) = candidate (part + addition) addition j

candidate-ge : (j part addition : ℕ) → part + addition ≤ candidate part addition j
candidate-ge zero part addition = omega arith
candidate-ge (suc j) part addition = omega (arith, candidate-ge j (part + addition) addition)

module _ (pt1 pt2 pt3 : Bytes) where
  abbrev pub address_with : ℕ → Bytes
  address_with part =
      strcat_all (pt1 ∷ codes "." ∷ pt2 ∷ codes "." ∷ pt3 ∷ codes "." ∷ decimal part ∷ [])

  free_address-candidate :
      (answers : Bytes → Bool) (j fuel addition part : ℕ)
      → ((i : ℕ) → i < j → answers (address_with (candidate part addition i)) ≡ true)
      → answers (address_with (candidate part addition j)) ≡ false
      → candidate part addition j < 1000
      → j < fuel
      → free_address answers fuel addition pt1 pt2 pt3 (decimal part)
        ≡ some (decimal (candidate part addition j), address_with (candidate part addition j))
  unfolding free_address
  free_address-candidate answers j zero addition part taken free small fueled = absurd (omega arith)
  free_address-candidate answers zero (suc fuel) addition part taken free small fueled =
      let read : atoi (decimal part) ≡ part = atoi-decimal part (omega arith) in
      let fits =
        lt→ltb (length (decimal (part + addition))) part_size
          (omega (arith, decimal-length_byte (part + addition) small)) in
      rw (read, fits, free) refl
  free_address-candidate answers (suc j) (suc fuel) addition part taken free small fueled =
      let next = candidate-ge j (part + addition) addition in
      let read : atoi (decimal part) ≡ part = atoi-decimal part (omega arith) in
      let fits =
        lt→ltb (length (decimal (part + addition))) part_size
          (omega (arith, decimal-length_byte (part + addition) (omega arith))) in
      rw (read, fits, taken 0 (omega arith))
        (free_address-candidate answers j fuel addition (part + addition)
          (λ i lt. taken (suc i) (omega arith)) free small (omega arith))

  -- For an address of four parts in decimal, create_virtual_ifconfig tries the last part plus the
  -- number of sources, plus twice that number and so on, and gives the interface an alias with the
  -- first candidate that does not answer a ping, if that one is below 1000 and one round of fuel
  -- more than the candidates before it is given. It does not look whether the part is below 256.
  pub create_virtual_ifconfig-candidate :
      (answers : Bytes → Bool) (j fuel addition part : ℕ) (interface : Bytes)
      → Token dot pt1
      → Token dot pt2
      → Token dot pt3
      → ((i : ℕ) → i < j → answers (address_with (candidate part addition i)) ≡ true)
      → answers (address_with (candidate part addition j)) ≡ false
      → candidate part addition j < 1000
      → j < fuel
      → create_virtual_ifconfig answers fuel addition interface
          (pt1 ++ dot ∷ (pt2 ++ dot ∷ (pt3 ++ dot ∷ decimal part)))
        ≡ some (
            strcat_all (
              codes "ifconfig "
              ∷ interface
              ∷ codes ":"
              ∷ decimal (candidate part addition j)
              ∷ codes " "
              ∷ address_with (candidate part addition j)
              ∷ []))
  unfolding create_virtual_ifconfig
  create_virtual_ifconfig-candidate answers j fuel addition part interface h1 h2 h3 taken free small
        fueled =
      let last : Token dot (decimal part) = (
        decimal-ne-nil part,
        Lacks-of_digits dot (decimal part) (inl (omega arith)) (decimal-All part),
      ) in
      rw
        (
          next_token_step dot pt1 _ h1,
          next_token_step dot pt2 _ h2,
          next_token_step dot pt3 _ h3,
          next_token_last dot (decimal part) last,
          free_address-candidate answers j fuel addition part taken free small fueled,
        )
        refl
