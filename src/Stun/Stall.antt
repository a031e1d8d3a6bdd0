-- ===== src/Stun/Stall.antt =====
-- Answers on which the client does not end, or changes nothing.
use premium.Base.{
  ℕ, zero, suc, ◌+◌, ◌-◌, ◌≤◌, ◌<◌, [], ◌++◌, ◌≡◌, ◌≢◌, refl, sym, ap, ◌∙◌, append_assoc, length,
  length-append, drop, true, none, some, arith, lt→ltb, ltb-false, ==_ne,
}
use premium.Text.{Bytes}
use premium.Wire.{recv_into}
use premium.Stun.Answer.{short_at-be16, stun_get_public_ip-walk}
use premium.Stun.{be16, walk_result, max_line, short_at, walk, running, stun_get_public_ip}

-- An attribute of length -4 holds the walk where it is.
walk_stays :
    (fuel : ℕ) (buf : Bytes) (i attr_type : ℕ)
    → i < max_line
    → short_at buf i ≡ some attr_type
    → attr_type ≢ 0x0020
    → short_at buf (i + 2) ≡ some 65532
    → walk fuel buf i ≡ running
unfolding walk
walk_stays zero buf i attr_type room type other stuck = refl
walk_stays (suc fuel) buf i attr_type room type other stuck =
    let back : i + (4 + 65532) - 65536 ≡ i = omega arith in
    rw
      (
        lt→ltb i max_line room,
        type,
        stuck,
        ==_ne attr_type 0x0020 other,
        ltb-false (i + (4 + 65532)) 65536 (omega arith),
        back,
      )
      (walk_stays fuel buf i attr_type room type other stuck)

-- A response of up to 200 bytes whose first attribute is not XOR-MAPPED-ADDRESS and has the length
-- 65532, which is -4 as a short, keeps the client in its loop for ever: it does not return within any
-- fuel.
pub stun_get_public_ip-stalls :
    (fuel attr_type : ℕ) (transaction rest stale return_ip_port : Bytes)
    → length transaction ≡ 18
    → attr_type < 65536
    → attr_type ≢ 0x0020
    → length rest ≤ 176
    → stun_get_public_ip fuel true
        (some ((be16 0x0101 ++ transaction) ++ (be16 attr_type ++ (be16 65532 ++ rest))))
        stale
        return_ip_port
      ≡ none
stun_get_public_ip-stalls fuel attr_type transaction rest stale out header type_fits other fits =
    let pre = be16 0x0101 ++ transaction in
    let chunk = pre ++ (be16 attr_type ++ (be16 65532 ++ rest)) in
    let buf = recv_into stale chunk in
    let behind = drop (length chunk) stale in
    let sizes : length chunk ≡ 2 + length transaction + (4 + length rest) =
      simp length-append (omega arith) in
    let whole : buf ≡ pre ++ (be16 attr_type ++ (be16 65532 ++ (rest ++ behind))) =
      append_assoc pre (be16 attr_type ++ (be16 65532 ++ rest)) behind in
    let method =
      short_at-be16 buf [] (transaction ++ (be16 attr_type ++ (be16 65532 ++ (rest ++ behind)))) 0
        0x0101 (whole ∙ append_assoc (be16 0x0101) transaction _) refl (omega arith) in
    let type =
      short_at-be16 buf pre (be16 65532 ++ (rest ++ behind)) 20 attr_type whole (omega arith)
        type_fits in
    let stuck =
      short_at-be16 buf (pre ++ be16 attr_type) (rest ++ behind) 22 65532
        (whole ∙ sym (append_assoc pre (be16 attr_type) _))
        (omega (arith, length-append pre (be16 attr_type))) (omega arith) in
    stun_get_public_ip-walk fuel chunk stale out (omega (arith, sizes)) method
    ∙ ap (walk_result out) (walk_stays fuel buf 20 attr_type (omega arith) type other stuck)
