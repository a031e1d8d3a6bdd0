-- ===== src/Tests/Apps.antt =====
-- A file of five bytes that arrives in two pieces, and one of 2 GiB.
use premium.Base.{
  List, leb, if◌then◌else◌, ◌-◌, map, length-replicate, ℕ, [], ◌∷◌, ◌++◌, ◌≡◌, refl, Bool, true,
  Option, some, arith, length, replicate,
}
use premium.Text.{Bytes, codes, c_string}
use premium.Apps.Echo.{echo_hello_message, hello_rounds}
use premium.Apps.Echo.Exchange.{framed, echo_hello_message-upper}
use premium.Apps.File.{machete_receive_data}
use premium.Apps.File.Transfer.{machete_receive_data-content, machete_receive_data_large}
use premium.Apps.File.EndToEnd.{announced, front-IsAnnounced}

abbrev pub any_name : Bytes → Bool
any_name name = true

abbrev pub stale : ℕ → Bytes
stale n = replicate n 7

pub stale_fits : length (stale 1) ≡ length (codes "f")
stale_fits = refl

abbrev pub sends_all : ℕ → Option ℕ
sends_all n = some n

machete_receive_data-content_example :
    machete_receive_data 6 any_name stale []
      (announced (codes "f") 5 (codes "he") ∷ codes "llo" ∷ [])
    ≡ some (codes "f" ++ c_string [], codes "hello")
machete_receive_data-content_example =
    machete_receive_data-content any_name stale [] (codes "f") 6
      (announced (codes "f") 5 (codes "he") ∷ codes "llo" ∷ []) (codes "he" ∷ codes "llo" ∷ [])
      (codes "hello")
      (front-IsAnnounced any_name stale [] (codes "f") 5 (codes "he") (codes "llo" ∷ [])
        (omega arith) stale_fits)
      refl (omega arith) (omega arith) (omega arith) (omega arith) refl (omega arith)

abbrev two_gib : ℕ
two_gib = 2147483648

machete_receive_data_large_example :
    machete_receive_data 9 any_name stale [] (announced (codes "f") two_gib (codes "he") ∷ [])
    ≡ some (codes "f" ++ c_string [], [])
machete_receive_data_large_example =
    machete_receive_data_large any_name stale [] (codes "f") 8 two_gib
      (announced (codes "f") two_gib (codes "he") ∷ []) (codes "he" ∷ [])
      (front-IsAnnounced any_name stale [] (codes "f") two_gib (codes "he") [] (omega arith)
        stale_fits)
      (omega arith) (omega arith) (omega arith) (omega arith) refl

abbrev upper : ℕ → ℕ
upper c = if leb b'a' c then c - 32 else c

abbrev hellos : List Bytes
hellos = codes "Hello" ∷ codes "again" ∷ []

zeros-length : (n : ℕ) → length (stale n) ≡ n
zeros-length n = length-replicate n 7

echo_hello_message-upper_example :
    (echo_hello_message 3 upper stale (0 ∷ []) (codes "unset") (framed hellos)
      ≡ some (framed (map (map upper) hellos)))
    × (hello_rounds 2 (framed (map (map upper) hellos))
        ≡ framed (map (λ m. codes "Hello") (map (map upper) hellos)))
echo_hello_message-upper_example =
    echo_hello_message-upper upper stale (0 ∷ []) hellos (codes "unset")
      ((omega arith, omega arith, omega arith), ((omega arith, omega arith, omega arith), tt))
      zeros-length (omega arith) (unfold c_string in refl)
