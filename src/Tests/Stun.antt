-- ===== src/Tests/Stun.antt =====
-- A server's answer with one other attribute in front of the mapped address, and one that stalls.
use premium.Base.{pos, [], ◌∷◌, ◌++◌, ◌≡◌, refl, true, none, some, arith, replicate}
use premium.Text.{Bytes, codes}
use premium.Stun.{be16, stun_get_public_ip}
use premium.Stun.Answer.{Attribute, IsOther, response, dotted, stun_get_public_ip-response}
use premium.Stun.Stall.{stun_get_public_ip-stalls}

-- SOFTWARE, of four bytes.
abbrev pub software : Attribute
software = record { type = 0x8022; value = codes "test" }

abbrev pub transaction : Bytes
transaction = replicate 18 7

pub software-IsOther : IsOther software
software-IsOther = record { not_mapped = cc; type_fits = omega arith; value_fits = omega arith }

stun_get_public_ip-response_example :
    stun_get_public_ip 2 true
      (some (response transaction (software ∷ []) 8888 193 136 221 10 (9 ∷ [])))
      (replicate 200 1)
      (codes "10.0.0.1")
    ≡ some (pos 0, dotted 193 136 221 10)
stun_get_public_ip-response_example =
    stun_get_public_ip-response transaction (software ∷ []) 8888 193 136 221 10 (9 ∷ [])
      (replicate 200 1) (codes "10.0.0.1") refl (software-IsOther, tt) (omega arith) (omega arith)

stun_get_public_ip-stalls_example :
    stun_get_public_ip 1000 true
      (some ((be16 0x0101 ++ transaction) ++ (be16 0x8022 ++ (be16 65532 ++ []))))
      (replicate 200 1)
      (codes "10.0.0.1")
    ≡ none
stun_get_public_ip-stalls_example =
    stun_get_public_ip-stalls 1000 0x8022 transaction [] (replicate 200 1) (codes "10.0.0.1") refl
      (omega arith) (omega arith) (omega arith)
