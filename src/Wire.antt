-- ===== src/Wire.antt =====
-- The sizes that both ends of the control protocol share (SCMultipath/common.h and the constants at
-- the top of SCNodeCode/forwarding_handler.c), and what send and recv do with a fixed buffer.
use premium.Base.{ℕ, ◌∷◌, ◌++◌, ◌≡◌, ◌<◌, length, take, drop}
use premium.Text.{Bytes, NoNul, c_string, c_string-take}

abbrev pub rule_size : ℕ
rule_size = 200

abbrev pub buffer_length : ℕ
buffer_length = 512

-- `send(fd, rule, RULE_SIZE, 0)` of a heap buffer: the string, its NUL and whatever malloc left.
abbrev pub send_rule : Bytes → Bytes → Bytes
send_rule rule junk = take rule_size (rule ++ 0 ∷ junk)

-- `recv(fd, buffer, ...)` overwrites the front of the buffer.
abbrev pub recv_into : Bytes → Bytes → Bytes
recv_into stale chunk = chunk ++ drop (length chunk) stale

-- What the node reads of the buffer is the string that was sent, whatever stood in either buffer.
pub c_string-recv_into :
    (rule junk stale : Bytes)
    → NoNul rule
    → length rule < rule_size
    → c_string (recv_into stale (send_rule rule junk)) ≡ rule
c_string-recv_into rule junk stale h lt = c_string-take rule_size rule junk _ h lt
