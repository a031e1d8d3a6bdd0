-- ===== src/Stun.antt =====
-- stunGetPublicIP of SCMultipath/utils/stun_public_ip.c, which SCNodeCode/stun_public_ip.c repeats: a
-- request to a STUN server, and the walk over the attributes of its answer. What sendto and recvfrom
-- return is an argument, and so is what the stack held where the buffer lies.
pub mod Answer
pub mod Stall
use Prim.Native.Nat.{bit_xor}
use premium.Base.{
  ℕ, zero, suc, ◌+◌, ◌-◌, ◌/◌, ◌%◌, ◌*◌, ℤ, pos, negsuc, List, [], ◌∷◌, ◌++◌, Bool, Option, none,
  some, ltb, ◌==◌, if◌then◌else◌, ◌>>=◌, get_elem?, take,
}
use premium.Text.{Bytes, codes, strcat_all}
use premium.Text.Decimal.{decimal}
use premium.Wire.{recv_into}

abbrev pub max_line : ℕ
max_line = 200

-- `*(short *)p = htons(n)` and `*(int *)p = htonl(n)`
abbrev pub be16 : ℕ → Bytes
be16 n = n / 256 % 256 ∷ n % 256 ∷ []

abbrev pub be32 : ℕ → Bytes
be32 n = be16 (n / 65536) ++ be16 n

abbrev pub binding_req : Bytes
binding_req =
    be16 0x0001
    ++ be16 0x0000
    ++ be32 0x2112A442
    ++ be32 0x63c7117e
    ++ be32 0x0714278f
    ++ be32 0x5ded3221

-- `htons(*(short *)(&buf[i]))` as the bits of a short.
unfoldable pub short_at : Bytes → ℕ → Option ℕ
short_at buf i = do high ← get_elem? buf i; low ← get_elem? buf (i + 1); some (high * 256 + low)

-- What the loop over the attributes comes to: the text that it writes, the end of the buffer or an
-- index below 0, a read past the buffer, or another round.
pub data Walk : Type 0 where
  mapped : Bytes → Walk
  ended out_of_bounds running : Walk

-- The text of the mapped address, its bytes XORed with those of the magic cookie.
unfoldable pub mapped_address : Bytes → ℕ → Option Bytes
unfolding short_at
mapped_address buf i = do
  port ← short_at buf (i + 6)
  a ← get_elem? buf (i + 8)
  b ← get_elem? buf (i + 9)
  c ← get_elem? buf (i + 10)
  d ← get_elem? buf (i + 11)
  some (
      strcat_all (
        decimal (bit_xor a 0x21)
        ∷ codes "."
        ∷ decimal (bit_xor b 0x12)
        ∷ codes "."
        ∷ decimal (bit_xor c 0xA4)
        ∷ codes "."
        ∷ decimal (bit_xor d 0x42)
        ∷ []))

-- `i += 4 + attr_length` with a signed short. A negative index ends the loop, since it is compared
-- with a size_t.
abbrev pub next_index : ℕ → ℕ → Option ℕ
next_index i attr_length =
    if ltb attr_length 32768
    then some (i + (4 + attr_length))
    else if ltb (i + (4 + attr_length)) 65536
    then none
    else some (i + (4 + attr_length) - 65536)

unfoldable pub walk : ℕ → Bytes → ℕ → Walk
unfolding mapped_address
walk zero buf i = running
walk (suc fuel) buf i =
    let onward : ℕ → Walk =
      λ attr_length. elim (next_index i attr_length) [ none ↦ ended | some j ↦ walk fuel buf j ] in
    let written : Walk = elim (mapped_address buf i) [
      | none ↦ out_of_bounds
      | some text ↦ mapped text
    ] in
    let found : Walk = elim (short_at buf i) [
      | none ↦ out_of_bounds
      | some attr_type ↦ elim (short_at buf (i + 2)) [
        | none ↦ out_of_bounds
        | some attr_length ↦ if attr_type == 0x0020 then written else onward attr_length
      ]
    ] in
    if ltb i max_line then found else ended

abbrev pub walk_result : Bytes → Walk → Option (ℤ × Bytes)
walk_result return_ip_port (mapped text) = some (pos 0, text)
walk_result return_ip_port ended = some (pos 0, return_ip_port)
walk_result return_ip_port out_of_bounds = none
walk_result return_ip_port running = none

-- The result and what return_ip_port holds then; `none` is a read past the buffer, or a loop that has
-- not ended within its fuel. The answer is `none` if recvfrom fails.
unfoldable pub stun_get_public_ip : ℕ → Bool → Option Bytes → Bytes → Bytes → Option (ℤ × Bytes)
unfolding walk
stun_get_public_ip fuel sent answer stale return_ip_port =
    let read : Bytes → Option (ℤ × Bytes) = λ chunk. (do
      let buf = recv_into stale (take max_line chunk)
      method ← short_at buf 0
      let walked = walk fuel buf 20
      if method == 0x0101
          then walk_result return_ip_port walked
          else some (pos 0, return_ip_port)) in
    let received : Option (ℤ × Bytes) = elim answer [
      | none ↦ some (negsuc 1, return_ip_port)
      | some chunk ↦ read chunk
    ] in
    if sent then received else some (negsuc 0, return_ip_port)
