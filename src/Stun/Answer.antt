-- ===== src/Stun/Answer.antt =====
-- What the client reads of the answer of a STUN server.
use Prim.Native.Nat.{bit_xor}
use premium.Base.{
  ℕ, zero, suc, ◌+◌, ◌≤◌, ◌<◌, pos, List, [], ◌∷◌, ◌++◌, ◌≡◌, ◌≢◌, refl, sym, ap, ◌∙◌, Bool, true,
  ◌&&◌, some, arith, lt→ltb, ◌==◌, ==_iff, ==_ne, length, length-append, get_elem?, take_all, drop,
  concat_map, All, append_assoc,
}
use premium.Text.{Bytes, codes, strcat_all}
use premium.Text.Decimal.{decimal}
use premium.Wire.{recv_into}
use premium.Stun.{
  be16, max_line, short_at, mapped_address, walk, mapped, walk_result, stun_get_public_ip,
}

-- Every byte is what it is after two XORs with the same byte of the cookie.
all_below : ℕ → (ℕ → Bool) → Bool
all_below zero p = true
all_below (suc n) p = p n && all_below n p

all_below-true : (n : ℕ) (p : ℕ → Bool) (x : ℕ) → all_below n p ≡ true → x < n → p x ≡ true
unfolding all_below
all_below-true zero p x h lt = absurd (omega arith)
all_below-true (suc n) p x h lt = ground (arith, all_below-true n p x)

abbrev twice : ℕ → ℕ → Bool
twice k x = bit_xor (bit_xor x k) k == x

twice-xor :
    (k : ℕ) → all_below 256 (twice k) ≡ true → (x : ℕ) → x < 256 → bit_xor (bit_xor x k) k ≡ x
twice-xor k table x h = (==_iff _ x).0 (all_below-true 256 (twice k) x table h)

cookie_21 : all_below 256 (twice 0x21) ≡ true
unfolding all_below
cookie_21 = refl

cookie_12 : all_below 256 (twice 0x12) ≡ true
unfolding all_below
cookie_12 = refl

cookie_a4 : all_below 256 (twice 0xA4) ≡ true
unfolding all_below
cookie_a4 = refl

cookie_42 : all_below 256 (twice 0x42) ≡ true
unfolding all_below
cookie_42 = refl

-- An attribute of an answer: its type, and its value with nothing behind it.
pub record Attribute : Type 0 where
  pub type : ℕ
  pub value : Bytes

abbrev pub attribute_bytes : Attribute → Bytes
attribute_bytes a = be16 a.type ++ be16 (length a.value) ++ a.value

-- An attribute that is passed over.
pub record IsOther (a : Attribute) : Type 0 where
  pub not_mapped : a.type ≢ 0x0020
  pub type_fits : a.type < 65536
  pub value_fits : length a.value < 32768

-- XOR-MAPPED-ADDRESS of an IPv4 address and a port.
abbrev pub xor_mapped_address : ℕ → ℕ → ℕ → ℕ → ℕ → Bytes
xor_mapped_address port a b c d =
    be16 0x0020
    ++ be16 8
    ++ 0 ∷ 1 ∷ (be16 port ++ bit_xor a 0x21 ∷ bit_xor b 0x12 ∷ bit_xor c 0xA4 ∷ bit_xor d 0x42 ∷ [])

abbrev pub dotted : ℕ → ℕ → ℕ → ℕ → Bytes
dotted a b c d =
    strcat_all
      (decimal a ∷ codes "." ∷ decimal b ∷ codes "." ∷ decimal c ∷ codes "." ∷ decimal d ∷ [])

get_elem?-append :
    (pre xs : Bytes) (i k : ℕ) → i ≡ length pre + k → get_elem? (pre ++ xs) i ≡ get_elem? xs k
get_elem?-append [] xs i k e = ap (get_elem? xs) (e ∙ omega arith)
get_elem?-append (c ∷ pre) xs zero k e = absurd (omega arith)
get_elem?-append (c ∷ pre) xs (suc i) k e = get_elem?-append pre xs i k (omega arith)

short_at-append :
    (pre xs : Bytes) (i k : ℕ) → i ≡ length pre + k → short_at (pre ++ xs) i ≡ short_at xs k
unfolding short_at
short_at-append pre xs i k e =
    rw (get_elem?-append pre xs i k e, get_elem?-append pre xs (i + 1) (k + 1) (omega arith)) refl

-- The two shorts in front of an attribute's value.
pub short_at-be16 :
    (buf pre rest : Bytes) (i n : ℕ)
    → buf ≡ pre ++ (be16 n ++ rest)
    → i ≡ length pre
    → n < 65536
    → short_at buf i ≡ some n
unfolding short_at
short_at-be16 buf pre rest i n e at fits =
    rw e (short_at-append pre (be16 n ++ rest) i 0 (omega arith) ∙ ap some (omega arith))

walk_other :
    (fuel : ℕ) (buf pre rest : Bytes) (i : ℕ) (a : Attribute)
    → buf ≡ pre ++ (attribute_bytes a ++ rest)
    → i ≡ length pre
    → i < max_line
    → IsOther a
    → walk (suc fuel) buf i ≡ walk fuel buf (i + (4 + length a.value))
unfolding walk
walk_other fuel buf pre rest i a e at room h =
    rw
      (
        lt→ltb i max_line room,
        short_at-be16 buf pre _ i a.type e at h.type_fits,
        short_at-be16 buf (pre ++ be16 a.type) (a.value ++ rest) (i + 2) (length a.value)
            (e ∙ sym (append_assoc pre (be16 a.type) _))
            (omega (arith, length-append pre (be16 a.type))) (omega (arith, h.value_fits)),
        ==_ne a.type 0x0020 h.not_mapped,
        lt→ltb (length a.value) 32768 h.value_fits,
      )
      refl

abbrev pub IsByte : ℕ → Type 0
IsByte b = b < 256

mapped_address-line :
    (buf pre rest : Bytes) (i port a b c d : ℕ)
    → buf ≡ pre ++ (xor_mapped_address port a b c d ++ rest)
    → i ≡ length pre
    → All IsByte (a ∷ b ∷ c ∷ d ∷ [])
    → mapped_address buf i ≡ some (dotted a b c d)
unfolding mapped_address short_at
mapped_address-line buf pre rest i port a b c d e at (ha, (hb, (hc, (hd, h)))) =
    let line = xor_mapped_address port a b c d ++ rest in
    let byte : (n k : ℕ) → n ≡ length pre + k → get_elem? buf n ≡ get_elem? line k =
      λ n k m. ap (λ s. get_elem? s n) e ∙ get_elem?-append pre line n k m in
    rw
      (
        byte (i + 6) 6 (omega arith),
        byte (i + 6 + 1) 7 (omega arith),
        byte (i + 8) 8 (omega arith),
        byte (i + 9) 9 (omega arith),
        byte (i + 10) 10 (omega arith),
        byte (i + 11) 11 (omega arith),
        twice-xor 0x21 cookie_21 a ha,
        twice-xor 0x12 cookie_12 b hb,
        twice-xor 0xA4 cookie_a4 c hc,
        twice-xor 0x42 cookie_42 d hd,
      )
      refl

walk_mapped :
    (fuel : ℕ) (buf pre rest : Bytes) (i port a b c d : ℕ)
    → buf ≡ pre ++ (xor_mapped_address port a b c d ++ rest)
    → i ≡ length pre
    → i < max_line
    → All IsByte (a ∷ b ∷ c ∷ d ∷ [])
    → walk (suc fuel) buf i ≡ mapped (dotted a b c d)
unfolding walk
walk_mapped fuel buf pre rest i port a b c d e at room bytes =
    let value : Bytes =
      0
      ∷ 1
      ∷ (be16 port ++ bit_xor a 0x21 ∷ bit_xor b 0x12 ∷ bit_xor c 0xA4 ∷ bit_xor d 0x42 ∷ rest) in
    rw
      (
        lt→ltb i max_line room,
        short_at-be16 buf pre (be16 8 ++ value) i 0x0020 e at (omega arith),
        short_at-be16 buf (pre ++ be16 0x0020) value (i + 2) 8
            (e ∙ sym (append_assoc pre (be16 0x0020) _))
            (omega (arith, length-append pre (be16 0x0020))) (omega arith),
        mapped_address-line buf pre rest i port a b c d e at bytes,
      )
      refl

walk_attributes :
    (attributes : List Attribute) (buf pre rest : Bytes) (i port a b c d : ℕ)
    → buf
      ≡ pre ++ (concat_map attribute_bytes attributes ++ (xor_mapped_address port a b c d ++ rest))
    → i ≡ length pre
    → i + length (concat_map attribute_bytes attributes) < max_line
    → All IsOther attributes
    → All IsByte (a ∷ b ∷ c ∷ d ∷ [])
    → walk (suc (length attributes)) buf i ≡ mapped (dotted a b c d)
walk_attributes [] buf pre rest i port a b c d e at room others bytes =
    walk_mapped 0 buf pre rest i port a b c d e at (omega arith) bytes
walk_attributes (o ∷ os) buf pre rest i port a b c d e at room (h, others) bytes =
    let later = concat_map attribute_bytes os in
    let tail = xor_mapped_address port a b c d ++ rest in
    let split : buf ≡ pre ++ (attribute_bytes o ++ (later ++ tail)) =
      e ∙ ap (λ s. pre ++ s) (append_assoc (attribute_bytes o) later tail) in
    walk_other (suc (length os)) buf pre (later ++ tail) i o split at (omega arith) h
    ∙ walk_attributes os buf (pre ++ attribute_bytes o) rest (i + (4 + length o.value)) port a b c d
        (split ∙ sym (append_assoc pre (attribute_bytes o) (later ++ tail)))
        (omega (arith, length-append pre (attribute_bytes o)))
        (omega (arith, length-append (attribute_bytes o) later)) others bytes

-- A response of up to 200 bytes is walked where it lies.
pub stun_get_public_ip-walk :
    (fuel : ℕ) (chunk stale return_ip_port : Bytes)
    → length chunk ≤ max_line
    → short_at (recv_into stale chunk) 0 ≡ some 0x0101
    → stun_get_public_ip fuel true (some chunk) stale return_ip_port
      ≡ walk_result return_ip_port (walk fuel (recv_into stale chunk) 20)
unfolding stun_get_public_ip
stun_get_public_ip-walk fuel chunk stale return_ip_port fits method =
    rw (take_all chunk max_line fits, method) refl

-- A binding response: its header with the transaction, other attributes, the mapped address, and
-- anything behind it.
abbrev pub response : Bytes → List Attribute → ℕ → ℕ → ℕ → ℕ → ℕ → Bytes → Bytes
response transaction attributes port a b c d rest =
    (be16 0x0101 ++ transaction)
    ++ (concat_map attribute_bytes attributes ++ (xor_mapped_address port a b c d ++ rest))

-- If the server answers with a binding response of up to 200 bytes, whose attributes in front of the
-- first XOR-MAPPED-ADDRESS of an IPv4 address have values with no padding behind them, the client
-- writes that address in dotted form and returns 0, whatever the stack held before, within one round
-- more than there are such attributes.
pub stun_get_public_ip-response :
    (transaction : Bytes) (attributes : List Attribute) (port a b c d : ℕ)
    (rest stale return_ip_port : Bytes)
    → length transaction ≡ 18
    → All IsOther attributes
    → All IsByte (a ∷ b ∷ c ∷ d ∷ [])
    → length (response transaction attributes port a b c d rest) ≤ max_line
    → stun_get_public_ip
        (suc (length attributes))
        true
        (some (response transaction attributes port a b c d rest))
        stale
        return_ip_port
      ≡ some (pos 0, dotted a b c d)
stun_get_public_ip-response transaction attributes port a b c d rest stale out header others bytes
      fits =
    let chunk = response transaction attributes port a b c d rest in
    let front = concat_map attribute_bytes attributes in
    let line = xor_mapped_address port a b c d in
    let buf = recv_into stale chunk in
    let behind = drop (length chunk) stale in
    let pre = be16 0x0101 ++ transaction in
    let sizes : length chunk ≡ 2 + length transaction + (length front + (12 + length rest)) =
      simp length-append (omega arith) in
    let whole : buf ≡ pre ++ (front ++ (line ++ (rest ++ behind))) =
      append_assoc pre (front ++ (line ++ rest)) behind
      ∙ ap (λ s. pre ++ s)
          (append_assoc front (line ++ rest) behind
            ∙ ap (λ s. front ++ s) (append_assoc line rest behind)) in
    let method =
      short_at-be16 buf [] (transaction ++ (front ++ (line ++ (rest ++ behind)))) 0 0x0101
        (whole ∙ append_assoc (be16 0x0101) transaction _) refl (omega arith) in
    stun_get_public_ip-walk (suc (length attributes)) chunk stale out fits method
    ∙ ap (walk_result out) (
        walk_attributes attributes buf pre (rest ++ behind) 20 port a b c d whole (omega arith)
          (omega (arith, sizes)) others bytes)
